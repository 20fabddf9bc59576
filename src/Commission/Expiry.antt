-- ===== src/Commission/Expiry.antt =====
-- commission_jobs.py, `_watch_reconcile_window`, `_expire_reconcile_window` and `_remove_orphaned_node`:
-- what follows a timeout when nothing claimed the job in the reconcile window.
pub mod Guarded
pub mod Examples
use indigo_matter.Prelude.{ℤ, String, Bool, true, false, ◌&&◌, Option, none, some, if◌then◌else◌}
use indigo_matter.Python.Table
use indigo_matter.Python.Table.{text_key}
use indigo_matter.Commission.{is_failed, commissioning_timeout, NodeId, Job, Jobs}
use indigo_matter.Commission.Codes.{node_int}
use indigo_matter.Commission.Create.{Schedule, scheduled, refused}
use indigo_matter.Commission.Records.{stop_removing}
use indigo_matter.Commission.Claim.{has_code, Answer, returned, raised}
use indigo_matter.Commission.Worker.{
  Phase, ended, watching, at_orphan_removal, node_held_by_other_job,
}

-- `_watch_reconcile_window`
unfoldable pub watch_reconcile_window : Schedule → Phase
watch_reconcile_window scheduled = watching
watch_reconcile_window (refused why) = ended

-- Is the node one that Indigo tracks? The check may be missing, and may raise.
abbrev pub Tracked : Type 0
Tracked = Option (ℤ → Answer Bool)

-- What the check of a marked node leads to.
pub checked : NodeId → Answer Bool → Jobs → Phase × Jobs
checked node_id (returned false) table = (at_orphan_removal node_id, table)
checked node_id (returned true) table = (ended, stop_removing node_id table)
checked node_id (raised why) table = (ended, stop_removing node_id table)

-- `self._knows_node(…)`, where it can be asked; where there is no check, or the id is no integer, the
-- removal goes on without it.
pub is_tracked : Tracked → NodeId → Answer Bool
is_tracked none node_id = returned false
is_tracked (some knows_node) node_id = elim (node_int node_id) [
  | none ↦ returned false
  | some z ↦ knows_node z
]

-- `_remove_orphaned_node`, up to its await of the removal.
unfoldable pub remove_orphaned_node : Tracked → String → NodeId → Jobs → Phase × Jobs
remove_orphaned_node knows job_id node_id table =
    let (held, marked) = node_held_by_other_job job_id node_id table in
    if held then (ended, table) else checked node_id (is_tracked knows node_id) marked

-- A job that stands where its timeout left it.
abbrev pub is_waiting : Job → Bool
is_waiting job = is_failed job.status && has_code commissioning_timeout job

-- `_expire_reconcile_window`, after its sleep.
unfoldable pub expire_reconcile_window : Tracked → String → Jobs → Phase × Jobs
expire_reconcile_window knows job_id table = elim (Table.lookup job_id table.jobs) [
  | none ↦ (ended, table)
  | some job ↦
      if is_waiting job
      then elim job.node_id [
        | none ↦ (ended, table)
        | some node_id ↦ remove_orphaned_node knows job_id node_id table
      ]
      else (ended, table)
]

-- The end of `_remove_orphaned_node`, whatever the removal gave.
unfoldable pub orphan_removed : NodeId → Jobs → Phase × Jobs
orphan_removed node_id table = (ended, stop_removing node_id table)
