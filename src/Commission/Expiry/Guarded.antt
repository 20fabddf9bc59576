-- ===== src/Commission/Expiry/Guarded.antt =====
-- commission_jobs.py, `_expire_reconcile_window`: when a node that a late answer named is removed.
use indigo_matter.Prelude.{ℕ, ℤ, ◌⊎◌, String, true, false, none, some, ◌≡◌}
use indigo_matter.Python.Table
use indigo_matter.Python.Table.{text_key}
use indigo_matter.Commission.{NodeId, Job, Jobs}
use indigo_matter.Commission.Codes.{node_int, node_key}
use indigo_matter.Commission.Claim.{returned, claimable}
use indigo_matter.Commission.Worker.{any_holds}
use indigo_matter.Commission.Expiry.{Tracked, is_waiting}

-- No joining node of that key is claimed.
abbrev pub IsUnclaimable : NodeId → Jobs → Type 0
IsUnclaimable node_id table =
    (named : NodeId) (now : ℕ)
    → node_key named ≡ node_key node_id
    → (claimable named now table).0 ≡ none

-- Indigo was asked and does not track the node, or could not be asked: no check was given, or the id is
-- no integer.
abbrev pub IsUntracked : Tracked → NodeId → Type 0
IsUntracked none node_id = Unit
IsUntracked (some knows_node) node_id =
    (node_int node_id ≡ none)
    ⊎ ((z : ℤ) × (node_int node_id ≡ some z) × (knows_node z ≡ returned false))

-- What is known when the removal of a node starts.
pub record IsGuarded (knows : Tracked) (job_id : String) (before : Jobs) (node_id : NodeId)
    (after : Jobs) : Type 0 where
  pub job : Job
  pub there : Table.lookup job_id before.jobs ≡ some job
  pub waiting : is_waiting job ≡ true
  pub named : job.node_id ≡ some node_id
  pub unheld : any_holds job_id node_id before.jobs ≡ false
  pub untracked : IsUntracked knows node_id
  pub unclaimable : IsUnclaimable node_id after
