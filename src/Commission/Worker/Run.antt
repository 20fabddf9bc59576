-- ===== src/Commission/Worker/Run.antt =====
-- commission_jobs.py, `_run_job`: a whole run of a worker, from what each awaited call gives.
use indigo_matter.Prelude.{ℕ, String, Bool, true, false, ◌&&◌, Option, some}
use indigo_matter.Python.{Fields}
use indigo_matter.Commission.{NodeId, Jobs}
use indigo_matter.Commission.Worker.{
  Reply, returned, Phase, at_commission, at_descriptors, at_devices, at_removal, run_job,
  commissioned, described, created, removed,
}

-- What the calls give: the commission request, the read of the node, the creation of the devices, and
-- the removal of the node where one is asked for.
pub record Replies : Type 0 where
  pub commission : Reply (Option NodeId)
  pub read : Reply (Unit {0})
  pub devices : Reply Fields
  pub removal : Reply (Unit {0})

-- The worker goes on from where it waits.
unfoldable pub resume : ℕ → String → Replies → Phase × Jobs → Phase × Jobs
resume now job_id replies (at_commission, table) = commissioned now job_id replies.commission table
resume now job_id replies (at_descriptors node_id, table) =
    described now job_id node_id replies.read table
resume now job_id replies (at_devices node_id, table) =
    created now job_id node_id replies.devices table
resume now job_id replies (at_removal node_id error, table) =
    removed now job_id node_id error replies.removal table
resume now job_id replies (phase, table) = (phase, table)

-- The start, and the four awaits that a run has at most; `clock` gives the time of each.
unfoldable pub worked : (ℕ → ℕ) → String → Replies → Jobs → Phase × Jobs
worked clock job_id replies table =
    let begun = run_job (clock 0) job_id table in
    let first = resume (clock 1) job_id replies begun in
    let second = resume (clock 2) job_id replies first in
    let third = resume (clock 3) job_id replies second in resume (clock 4) job_id replies third

abbrev pub is_returned {ℓ} : {A : Type ℓ} → Reply A → Bool
is_returned (returned _) = true
is_returned _ = false

abbrev pub names_node : Reply (Option NodeId) → Bool
names_node (returned (some _)) = true
names_node _ = false

-- The node was named and read, and its devices were created.
abbrev pub succeeds : Replies → Bool
succeeds replies =
    names_node replies.commission && (is_returned replies.read && is_returned replies.devices)
