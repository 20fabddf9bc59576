-- ===== src/Commission/Claim.antt =====
-- commission_jobs.py: a node that joins after a job timed out is claimed for that job, if it can be
-- attributed to it, and the claimed job is carried to its end. What is only logged is left out.
pub mod Attribution
pub mod Restored
pub mod Examples
use indigo_matter.Prelude.{
  ℕ, ◌+◌, String, Bool, true, false, ◌&&◌, not, Option, none, some, List, [], ◌∷◌, ℤ, is_some, leb,
  ltb, str_eq, if◌then◌else◌,
}
use indigo_matter.Python.{Json, str, dict, Fields, end, field}
use indigo_matter.Python.Dict
use indigo_matter.Python.Table.{Table, text_key}
use indigo_matter.Commission.{
  JobStatus, failed, creating_devices, success, is_failed, reconcile_window, commissioning_timeout,
  NodeId, JobError, Job, Jobs,
}
use indigo_matter.Commission.Codes.{is_node, node_key, node_id_to_str}
use indigo_matter.Commission.Create.{Schedule, scheduled, refused}
use indigo_matter.Commission.Records.{advance, update, is_removing}

-- `(job.error or {}).get("code") == code`
unfoldable pub has_code : String → Job → Bool
has_code code job = elim job.error [ none ↦ false | some e ↦ str_eq e.code code ]

-- A job that failed with a timeout; with a time, one that ended within the reconcile window.
unfoldable pub is_candidate : Option ℕ → Job → Bool
unfolding has_code
is_candidate now job = elim job.terminal_at [
  | none ↦ false
  | some t ↦
      is_failed job.status
      && (has_code commissioning_timeout job
          && elim now [ none ↦ true | some n ↦ leb n (t + reconcile_window) ])
]

-- `terminal_at`, by which the candidates are sorted.
abbrev pub ended : Job → ℕ
ended job = elim job.terminal_at [ none ↦ 0 | some t ↦ t ]

pub insert_ended : Job → List Job → List Job
insert_ended job [] = job ∷ []
insert_ended job (other ∷ rest) =
    let later = other ∷ insert_ended job rest in
    if leb (ended job) (ended other) then job ∷ other ∷ rest else later

pub candidates_of : Option ℕ → Table String Job → List Job
unfolding is_candidate insert_ended
candidates_of now [] = []
candidates_of now ((_, job) ∷ rest) =
    let others = candidates_of now rest in
    if is_candidate now job then insert_ended job others else others

-- `_timeout_candidates_locked`, oldest first.
unfoldable pub timeout_candidates : Option ℕ → Jobs → List Job
timeout_candidates now table = candidates_of now table.jobs

-- `[c for c in candidates if …]`
pub keep : (Job → Bool) → List Job → List Job
keep p [] = []
keep p (job ∷ rest) = let others = keep p rest in if p job then job ∷ others else others

-- `jobs[-1]`, of a list that may be empty.
pub last : List Job → Option Job
last [] = none
last (job ∷ []) = some job
last (_ ∷ job ∷ rest) = last (job ∷ rest)

-- Does every job have that setup code?
pub all_of_code : String → List Job → Bool
all_of_code code [] = true
all_of_code code (job ∷ rest) = str_eq job.setup_code code && all_of_code code rest

-- `len({c.setup_code for c in jobs}) == 1`
pub is_one_code : List Job → Bool
unfolding all_of_code
is_one_code [] = false
is_one_code (job ∷ rest) = all_of_code job.setup_code rest

abbrev pub is_exact : NodeId → Job → Bool
is_exact node_id job = is_node job.node_id node_id

abbrev pub is_unidentified : Job → Bool
is_unidentified job = not (is_some job.node_id)

-- The candidate that may claim the node.
unfoldable pub attributed : NodeId → List Job → Option Job
attributed node_id candidates = elim (last (keep (is_exact node_id) candidates)) [
  | some job ↦ some job
  | none ↦
      if is_one_code (keep is_unidentified candidates)
      then last (keep is_unidentified candidates)
      else none
]

-- `_claimable_locked`: the claiming job, the candidates, and whether the node is being removed.
unfoldable pub claimable : NodeId → ℕ → Jobs → Option Job × List Job × Bool
claimable node_id now table =
    let candidates = timeout_candidates (some now) table in
    if is_removing table.removing (node_key node_id)
    then (none, candidates, true)
    else (attributed node_id candidates, candidates, false)

-- The job is opened again, with the node that joined.
unfoldable pub reopen : NodeId → Job → Job
reopen node_id job = record job {
  error = none;
  terminal_at = none;
  progress = 85;
  message = "Device joined after timeout; creating Indigo devices…";
  node_id = some node_id;
  status = creating_devices;
}

-- What puts the job back as it was.
unfoldable pub restore : Job → Job → Job
restore priors job = record job {
  status = failed;
  error = priors.error;
  terminal_at = priors.terminal_at;
  progress = priors.progress;
  message = priors.message;
  node_id = priors.node_id;
}

pub claim : Schedule → NodeId → Option Job → Jobs → Option String × Jobs
claim loop node_id none table = (none, table)
claim scheduled node_id (some job) table =
    (some job.job_id, update job.job_id (reopen node_id) table)
claim (refused why) node_id (some job) table =
    (none, update job.job_id (restore job) (update job.job_id (reopen node_id) table))

-- `reconcile_node_added`, of an event that names its node or does not; the answer is the job that was
-- claimed, whose reconcile is then scheduled.
unfoldable pub reconcile_node_added : Schedule → ℕ → Option NodeId → Jobs → Option String × Jobs
reconcile_node_added loop now none table = (none, table)
reconcile_node_added loop now (some node_id) table =
    claim loop node_id (claimable node_id now table).0 table

-- What a call that may raise gives: a value, or an exception with its text.
pub data Answer {ℓ} (A : Type ℓ) : Type ℓ where
  returned : A → Answer A
  raised : String → Answer A

-- `{**a, **b}`
pub merged : Fields → Fields → Fields
merged a end = a
merged a (field k v b) = merged (Dict.insert k v a) b

-- `{"nodeId": node_id_to_str(node_id), **created}`
pub result_of : NodeId → Fields → Json
unfolding merged
result_of node_id created =
    dict (merged (field "nodeId" (str (node_id_to_str node_id)) end) created)

-- The end of a job, with its result or its error.
unfoldable pub finish : ℕ → String → Json → Job → Job
finish now message result job =
    advance now success 100 message (record job { result = some result })

unfoldable pub land : ℕ → JobError → Job → Job
land now error job = advance now failed job.progress "" (record job { error = some error })

abbrev pub internal_error : String → JobError
internal_error message = record {
  code = "internal_error";
  message = message;
  matter_error_code = none;
}

-- `_reconcile_job`, from what `create_devices` answered.
unfoldable pub reconcile_job : ℕ → NodeId → Answer Fields → Job → Job
reconcile_job now node_id (returned created) job =
    finish now "Done (completed after timeout)" (result_of node_id created) job
reconcile_job now node_id (raised message) job = land now (internal_error message) job
