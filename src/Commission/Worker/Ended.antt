-- ===== src/Commission/Worker/Ended.antt =====
-- commission_jobs.py, `_run_job`: how a run ends.
use indigo_matter.Prelude.{ℕ, String, ◌&&◌, ◌≡◌, ◌≢◌, inl, inr, refl, if◌then◌else◌}
use indigo_matter.Python.Table.{text_key}
use indigo_matter.Commission.{JobStatus, success, failed, NodeId, Jobs}
use indigo_matter.Commission.Worker.{
  cancelled, Phase, at_commission, at_descriptors, at_devices, run_job,
}
use indigo_matter.Commission.Worker.Run.{Replies, resume, worked, is_returned, succeeds}
use indigo_matter.Commission.Worker.Stopping.{
  IsThere, IsEnded, update-IsThere, IsStopping, resume-IsEnded, resume_stopping, created_lem,
  described_lem, commissioned_lem,
}

-- From each await, the resumptions that are left end the job.
module _ (clock : ℕ → ℕ) (job_id : String) (replies : Replies)
    (live : replies.removal ≢ cancelled) where
  abbrev next : ℕ → Phase × Jobs → Phase × Jobs
  next n s = resume (clock n) job_id replies s

  abbrev Ends : JobStatus → Phase × Jobs → Type 0
  Ends status s = IsEnded job_id status s.0 s.1

  once-Ends :
      (status : JobStatus) (n : ℕ) (s : Phase × Jobs) → Ends status s → Ends status (next n s)
  once-Ends status n s e = resume-IsEnded (clock n) job_id replies status s.0 s.1 e

  once-IsStopping :
      (n : ℕ) (s : Phase × Jobs) → IsStopping (clock 0) job_id s → Ends failed (next n s)
  once-IsStopping n s h = resume_stopping (clock n) job_id replies s.0 s.1 live h

  from_devices :
      (node_id : NodeId) (s : Phase × Jobs)
      → s.0 ≡ at_devices node_id
      → IsThere job_id s.1
      → Ends (if is_returned replies.devices then success else failed) (next 4 (next 3 s))
  from_devices node_id s at there =
      elim (created_lem (clock 3) job_id node_id replies.devices s.1 there) [
        | inl (made, e) ↦ rw made (once-Ends success 4 (next 3 s) (rw at (unfold resume in e)))
        | inr (bad, stopping) ↦
            rw bad (once-IsStopping 4 (next 3 s) (rw at (unfold resume in stopping)))
      ]

  from_descriptors :
      (node_id : NodeId) (s : Phase × Jobs)
      → s.0 ≡ at_descriptors node_id
      → IsThere job_id s.1
      → Ends
          (if is_returned replies.read && is_returned replies.devices then success else failed)
          (next 4 (next 3 (next 2 s)))
  from_descriptors node_id s at there =
      elim (described_lem (clock 2) job_id node_id replies.read s.1 there) [
        | inl (read, here, there₂) ↦ rw read (
            from_devices node_id (next 2 s) (rw at (unfold resume in here))
              (rw at (unfold resume in there₂)))
        | inr (bad, stopping) ↦ rw bad (
            once-Ends failed 4 (next 3 (next 2 s))
              (once-IsStopping 3 (next 2 s) (rw at (unfold resume in stopping))))
      ]

  from_start :
      (s : Phase × Jobs)
      → s.0 ≡ at_commission
      → IsThere job_id s.1
      → Ends (if succeeds replies then success else failed) (next 4 (next 3 (next 2 (next 1 s))))
  from_start s at there = elim (commissioned_lem (clock 1) job_id replies.commission s.1 there) [
    | inl (named, (node_id, here, there₂)) ↦ rw named (
        from_descriptors node_id (next 1 s) (rw at (unfold resume in here))
          (rw at (unfold resume in there₂)))
    | inr (bad, stopping) ↦ rw bad (
        once-Ends failed 4 (next 3 (next 2 (next 1 s))) (
          once-Ends failed 3 (next 2 (next 1 s))
            (once-IsStopping 2 (next 1 s) (rw at (unfold resume in stopping)))))
  ]

-- A run of a worker whose job is in the table ends, whatever the awaited calls give, unless the
-- removal of a node is cancelled. The job has then the time it ended, and it succeeded if the request
-- named a node, the node was read and the devices were created; in every other case it failed.
pub worked-IsEnded :
    (clock : ℕ → ℕ) (job_id : String) (replies : Replies) (table : Jobs)
    → replies.removal ≢ cancelled
    → IsThere job_id table
    → IsEnded job_id
        (if succeeds replies then success else failed)
        (worked clock job_id replies table).0
        (worked clock job_id replies table).1
unfolding worked run_job
worked-IsEnded clock job_id replies table live there =
    from_start clock job_id replies live (run_job (clock 0) job_id table) refl
      (update-IsThere job_id _ table there)
