-- ===== src/Commission/Late.antt =====
-- commission_jobs.py, `note_late_response`: an answer to a commission request that comes after the
-- job ended.
pub mod Settled
pub mod Examples
use indigo_matter.Prelude.{
  ℕ, String, Bool, true, false, ◌&&◌, ◌++◌, Option, none, some, List, ℤ, is_some, if◌then◌else◌,
}
use indigo_matter.Python.{joined}
use indigo_matter.Python.Table
use indigo_matter.Python.Table.{text_key}
use indigo_matter.Commission.{
  JobStatus, is_failed, commissioning_timeout, NodeId, JobError, Job, Jobs,
}
use indigo_matter.Commission.Claim.{has_code}
use indigo_matter.Commission.Records.{update, set_node_id}

-- What matter-server answered: an error, its code as `opt_int` reads it and its details as they are
-- printed; or a success, with the node that it names, if it names one.
pub data Late : Type 0 where
  late_error : Option ℤ → String → Late
  late_success : Option NodeId → Late

abbrev pub late_failure : Option ℤ → String → JobError
late_failure code details = record {
  code = "commissioning_failed";
  message =
      joined "matter-server reported the commission failed after the plugin stopped waiting: "
        details;
  matter_error_code = code;
}

-- `_note_late_error_locked`
unfoldable pub note_late_error : Option ℤ → String → Job → Job
note_late_error code details job =
    if is_failed job.status && has_code commissioning_timeout job
    then record job { error = some (late_failure code details) }
    else job

-- `_note_late_success_locked`
unfoldable pub note_late_success : Option NodeId → Job → Job
note_late_success none job = job
note_late_success (some node_id) job = if is_some job.node_id then job else set_node_id node_id job

pub note_late : Late → Job → Job
note_late (late_error code details) job = note_late_error code details job
note_late (late_success node_id) job = note_late_success node_id job

-- `note_late_response`, of a request's context, which may name no job. The answer is the job's id.
unfoldable pub note_late_response : Option String → Late → Jobs → Option String × Jobs
note_late_response none late table = (none, table)
note_late_response (some job_id) late table =
    if is_some (Table.lookup job_id table.jobs)
    then (some job_id, update job_id (note_late late) table)
    else (none, table)
