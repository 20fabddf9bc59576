-- ===== src/Commission/Records.antt =====
-- commission_jobs.py: how a job is changed in the table, and how old jobs leave it.
pub mod Lookup
pub mod Reaped
use indigo_matter.Prelude.{
  ℕ, ◌+◌, String, Bool, true, false, Option, none, some, List, [], ◌∷◌, str_eq, ltb, if◌then◌else◌,
}
use indigo_matter.Python.Table
use indigo_matter.Python.Table.{Table, text_key}
use indigo_matter.Commission.{JobStatus, is_terminal, retention, NodeId, Job, Jobs}
use indigo_matter.Commission.Codes.{node_key, eq_key}

-- `_advance`, of one job.
unfoldable pub advance : ℕ → JobStatus → ℕ → String → Job → Job
advance now status progress message job = record job {
  status = status;
  progress = progress;
  message = message;
  terminal_at = if is_terminal status then some now else job.terminal_at;
}

unfoldable pub set_node_id : NodeId → Job → Job
set_node_id node_id job = record job { node_id = some node_id }

-- A change of the job of that id; a job that left the table has no reader.
unfoldable pub update : String → (Job → Job) → Jobs → Jobs
update job_id f table = elim (Table.lookup job_id table.jobs) [
  | none ↦ table
  | some job ↦ record table { jobs = Table.insert job_id (f job) table.jobs }
]

unfoldable pub is_expired : ℕ → Job → Bool
is_expired now job = elim job.terminal_at [ none ↦ false | some t ↦ ltb (t + retention) now ]

unfoldable pub expired : ℕ → Table String Job → List String
unfolding is_expired
expired now [] = []
expired now ((job_id, job) ∷ rest) =
    let others = expired now rest in if is_expired now job then job_id ∷ others else others

-- `by_code.pop(code)`, if it names that job.
pub unlist : String → String → Table String String → Table String String
unlist code job_id by_code = elim (Table.lookup code by_code) [
  | none ↦ by_code
  | some listed ↦ if str_eq listed job_id then Table.remove code by_code else by_code
]

unfoldable pub drop_job : String → Jobs → Jobs
unfolding unlist
drop_job job_id table = elim (Table.lookup job_id table.jobs) [
  | none ↦ table
  | some job ↦ record table {
    jobs = Table.remove job_id table.jobs;
    by_code = unlist job.setup_code job_id table.by_code;
  }
]

unfoldable pub drop_all : List String → Jobs → Jobs
drop_all [] table = table
drop_all (job_id ∷ rest) table = drop_all rest (drop_job job_id table)

-- `_reap_locked`: jobs that ended longer ago than the retention.
unfoldable pub reap : ℕ → Jobs → Jobs
reap now table = drop_all (expired now table.jobs) table

-- `self._removing.add(…)` and `.discard(…)`
unfoldable pub is_removing : List NodeId → NodeId → Bool
is_removing [] key = false
is_removing (k ∷ rest) key = if eq_key k key then true else is_removing rest key

pub discard : NodeId → List NodeId → List NodeId
discard key [] = []
discard key (k ∷ rest) =
    let others = discard key rest in if eq_key k key then others else k ∷ others

unfoldable pub start_removing : NodeId → Jobs → Jobs
start_removing node_id table =
    if is_removing table.removing (node_key node_id)
    then table
    else record table { removing = node_key node_id ∷ table.removing }

unfoldable pub stop_removing : NodeId → Jobs → Jobs
stop_removing node_id table = record table { removing = discard (node_key node_id) table.removing }
