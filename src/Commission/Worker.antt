-- ===== src/Commission/Worker.antt =====
-- commission_jobs.py, `_run_job` and `_fail`: the worker of a job, cut at its awaits. A step takes what
-- the awaited call gave and leaves the worker at its next await, or at its end.
pub mod Run
pub mod Stopping
pub mod Ended
pub mod Examples
use indigo_matter.Prelude.{
  ℕ, String, Bool, true, false, ◌&&◌, not, Option, none, some, [], ◌∷◌, ℤ, str_eq, if◌then◌else◌,
}
use indigo_matter.Python.{Fields, joined}
use indigo_matter.Python.Table.{Table, text_key}
use indigo_matter.Commission.{
  commissioning, reading_descriptors, creating_devices, is_failed, commissioning_timeout, NodeId,
  JobError, Job, Jobs,
}
use indigo_matter.Commission.Codes.{is_node, node_id_to_str}
use indigo_matter.Commission.Records.{advance, update, set_node_id, start_removing, stop_removing}
use indigo_matter.Commission.Claim.{finish, land, result_of, internal_error}

-- What an awaited call gives: a value, or an exception.
pub data Reply {ℓ} (A : Type ℓ) : Type ℓ where
  returned : A → Reply A
  cancelled : Reply A
  commission_error : String → String → Option ℤ → Reply A
  timed_out : Reply A
  protocol_error : String → Option ℤ → Reply A
  raised : String → Reply A

-- Where a worker waits. The last argument of `at_removal` is the error that it ends with.
pub data Phase : Type 0 where
  at_commission : Phase
  at_descriptors : NodeId → Phase
  at_devices : NodeId → Phase
  at_removal : NodeId → JobError → Phase
  at_orphan_removal : NodeId → Phase  -- in the watch of the reconcile window
  watching : Phase  -- the worker is done, and the reconcile window is watched
  ended : Phase  -- nothing is left to do

abbrev pub timeout_message : String
timeout_message =
    "matter-server did not finish commissioning within 300s; the device may still join — check Indigo before retrying. Common causes: the device's ORIGINAL QR code was pasted instead of a fresh share code from its current ecosystem; the share window expired; or the device is not IP-reachable from this Mac."

-- Another job that has not failed and holds the node.
unfoldable pub holds : String → NodeId → Job → Bool
holds job_id node_id job =
    not (str_eq job.job_id job_id) && (is_node job.node_id node_id && not (is_failed job.status))

pub any_holds : String → NodeId → Table String Job → Bool
unfolding holds
any_holds job_id node_id [] = false
any_holds job_id node_id ((_, job) ∷ rest) =
    if holds job_id node_id job then true else any_holds job_id node_id rest

-- `_node_held_by_other_job`: a node that nothing holds is marked as being removed.
unfoldable pub node_held_by_other_job : String → NodeId → Jobs → Bool × Jobs
unfolding any_holds
node_held_by_other_job job_id node_id table =
    if any_holds job_id node_id table.jobs
    then (true, table)
    else (false, start_removing node_id table)

-- The end of `_fail`.
pub land_failed : ℕ → String → JobError → Jobs → Phase × Jobs
land_failed now job_id error table = (ended, update job_id (land now error) table)

-- `_fail`, up to its await of the removal.
unfoldable pub fail : ℕ → String → JobError → Option NodeId → Jobs → Phase × Jobs
unfolding node_held_by_other_job
fail now job_id error none table = land_failed now job_id error table
fail now job_id error (some node_id) table =
    let (held, marked) = node_held_by_other_job job_id node_id table in
    if held then land_failed now job_id error table else (at_removal node_id error, marked)

abbrev pub failed_with : String → String → Option ℤ → JobError
failed_with code message matter_error_code = record {
  code = code;
  message = message;
  matter_error_code = matter_error_code;
}

-- The `except` clauses of `_run_job`. Where the node is known, a timeout came after commissioning.
pub except {ℓ} : {A : Type ℓ} → ℕ → String → Option NodeId → Reply A → Jobs → Phase × Jobs
except now job_id node_id (returned _) table = (ended, table)
except now job_id node_id cancelled table =
    land_failed now job_id (internal_error "commissioning cancelled by plugin shutdown") table
except now job_id node_id (commission_error code message matter_code) table =
    fail now job_id (failed_with code message matter_code) node_id table
except now job_id (some node_id) timed_out table =
    land_failed now job_id
      (internal_error (
        joined "timed out reading node descriptors for "
          (joined (node_id_to_str node_id) " after commissioning succeeded")))
      table
except now job_id none timed_out table = (
  watching,
  update job_id (land now (failed_with commissioning_timeout timeout_message none)) table,
)
except now job_id node_id (protocol_error message matter_code) table =
    fail now job_id (failed_with "commissioning_failed" message matter_code) node_id table
except now job_id node_id (raised message) table =
    fail now job_id (internal_error message) node_id table

-- The start of `_run_job`, up to the commission request.
unfoldable pub run_job : ℕ → String → Jobs → Phase × Jobs
run_job now job_id table =
    (at_commission, update job_id (advance now commissioning 20 "Commissioning…") table)

-- After the commission request; the reply names the node, if it names one.
unfoldable pub commissioned : ℕ → String → Reply (Option NodeId) → Jobs → Phase × Jobs
unfolding except
commissioned now job_id (returned (some node_id)) table = (
  at_descriptors node_id,
  update job_id (advance now reading_descriptors 60 "Discovering device capabilities…")
      (update job_id (set_node_id node_id) table),
)
commissioned now job_id (returned none) table =
    fail now job_id (failed_with "commissioning_failed" "matter-server returned no node_id" none)
      none table
commissioned now job_id reply table = except now job_id none reply table

-- After the read of the node.
unfoldable pub described : ℕ → String → NodeId → Reply (Unit {0}) → Jobs → Phase × Jobs
unfolding except
described now job_id node_id (returned _) table = (
  at_devices node_id,
  update job_id (advance now creating_devices 85 "Creating Indigo devices…") table,
)
described now job_id node_id reply table = except now job_id (some node_id) reply table

-- After the devices were created.
unfoldable pub created : ℕ → String → NodeId → Reply Fields → Jobs → Phase × Jobs
unfolding except
created now job_id node_id (returned made) table =
    (ended, update job_id (finish now "Done" (result_of node_id made)) table)
created now job_id node_id reply table = except now job_id (some node_id) reply table

-- After the removal in `_fail`: what it raised is absorbed, unless the worker was cancelled.
unfoldable pub removed : ℕ → String → NodeId → JobError → Reply (Unit {0}) → Jobs → Phase × Jobs
removed now job_id node_id error cancelled table = (ended, stop_removing node_id table)
removed now job_id node_id error _ table =
    land_failed now job_id error (stop_removing node_id table)
