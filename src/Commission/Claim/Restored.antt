-- ===== src/Commission/Claim/Restored.antt =====
-- commission_jobs.py, `reconcile_node_added`: what it leaves of the table.
use indigo_matter.Prelude.{
  ℕ, String, Bool, true, false, Option, none, some, List, [], ◌∷◌, ◌≡◌, ◌⊎◌, inl, inr, refl, sym,
  ap, ◌∙◌, arith, eq_iff, str_eq, Bool-cases, Option-cases, if◌then◌else◌, leb,
}
use indigo_matter.Python.Table
use indigo_matter.Python.Table.{Table, text_key, IsUnique}
use indigo_matter.Commission.{JobStatus, failed, is_failed, NodeId, Job, Jobs}
use indigo_matter.Commission.Records.{update}
use indigo_matter.Commission.Records.Lookup.{IsKeyed, lookup_first, lookup_skips, lookup-update}
use indigo_matter.Commission.Create.{Schedule, scheduled, refused}
use indigo_matter.Commission.Claim.{
  is_candidate, insert_ended, candidates_of, timeout_candidates, claimable, reopen, restore, claim,
  reconcile_node_added, ended,
}
use indigo_matter.Commission.Claim.Attribution.{IsIn, claimable-IsAttributed}

insert_ended-IsIn :
    (job other : Job) (l : List Job) → IsIn job (insert_ended other l) → (job ≡ other) ⊎ IsIn job l
unfolding insert_ended
insert_ended-IsIn job other [] h = h
insert_ended-IsIn job other (first ∷ rest) h = elim (Bool-cases (leb (ended other) (ended first))) [
  | inl before ↦ rw before at h
  | inr after ↦ elim (rw after at h) [
    | inl same ↦ inr (inl same)
    | inr later ↦ elim (insert_ended-IsIn job other rest later) [
      | inl it ↦ inl it
      | inr in_rest ↦ inr (inr in_rest)
    ]
  ]
]

lookup_of_candidate :
    (now : Option ℕ) (job : Job) (t : Table String Job)
    → IsUnique t
    → IsKeyed t
    → IsIn job (candidates_of now t)
    → Table.lookup job.job_id t ≡ some job
unfolding candidates_of
lookup_of_candidate now job [] u k h = elim h [ ]
lookup_of_candidate now job ((key, first) ∷ rest) u k h =
    elim (Bool-cases (is_candidate now first)) [
      | inr other ↦
          lookup_skips key job.job_id job first rest u.0
            (lookup_of_candidate now job rest u.1 k.1 (rw other at h))
      | inl fits ↦ elim (insert_ended-IsIn job first (candidates_of now rest) (rw fits at h)) [
        | inl same ↦ lookup_first job first key rest k.0 same
        | inr later ↦
            lookup_skips key job.job_id job first rest u.0
              (lookup_of_candidate now job rest u.1 k.1 later)
      ]
    ]

is_failed→ : (s : JobStatus) → is_failed s ≡ true → s ≡ failed
is_failed→ s h = ground arith

restore-reopen :
    (node_id : NodeId) (job : Job)
    → is_failed job.status ≡ true
    → restore job (reopen node_id job) ≡ job
unfolding restore reopen
restore-reopen node_id job h =
    ap (λ (s : JobStatus). record job { status = s }) (sym (is_failed→ job.status h))

candidate-is_failed :
    (now : Option ℕ) (job : Job) → is_candidate now job ≡ true → is_failed job.status ≡ true
unfolding is_candidate
candidate-is_failed now job h = ground arith

job_id-reopen : (node_id : NodeId) (job : Job) → (reopen node_id job).job_id ≡ job.job_id
unfolding reopen
job_id-reopen node_id job = refl

abbrev pub is_scheduled : Schedule → Bool
is_scheduled scheduled = true
is_scheduled (refused why) = false

-- What the event leaves: the answer is `claimed`. No job is claimed only where none may claim the node,
-- or the work could not be scheduled.
abbrev pub IsReconciled : Schedule → NodeId → ℕ → Jobs → Option String → Jobs → Type 0
IsReconciled loop node_id now before none after =
    (((claimable node_id now before).0 ≡ none) ⊎ (is_scheduled loop ≡ false))
    × ((k : String) → Table.lookup k after.jobs ≡ Table.lookup k before.jobs)
IsReconciled loop node_id now before (some job_id) after =
    (is_scheduled loop ≡ true)
    × (job : Job) × (Table.lookup job_id before.jobs ≡ some job)
    × ((claimable node_id now before).0 ≡ some job)
    × ((k : String)
        → Table.lookup k after.jobs
          ≡ (if str_eq job_id k then some (reopen node_id job) else Table.lookup k before.jobs))

module _ (node_id : NodeId) (now : ℕ) (table : Jobs) (u : IsUnique table.jobs)
    (keyed : IsKeyed table.jobs) where
  claimed-there :
      (job : Job)
      → (claimable node_id now table).0 ≡ some job
      → Table.lookup job.job_id table.jobs ≡ some job
  unfolding timeout_candidates
  claimed-there job h =
      lookup_of_candidate (some now) job table.jobs u keyed
        (claimable-IsAttributed node_id now table job h).2.0

  lookup_put_back :
      (job : Job) (k : String)
      → Table.lookup job.job_id table.jobs ≡ some job
      → is_failed job.status ≡ true
      → Table.lookup k
          (update job.job_id (restore job) (update job.job_id (reopen node_id) table)).jobs
        ≡ Table.lookup k table.jobs
  lookup_put_back job k there dead = elim (Bool-cases (str_eq job.job_id k)) [
    | inr other ↦ rw (lookup-update, other, lookup-update, other)
    | inl same ↦
        let at =
          ap (λ (i : String). Table.lookup i table.jobs) (sym ((eq_iff job.job_id k).0 same))
          ∙ there in
        rw (lookup-update, same, lookup-update, same, at)
          (ap some (restore-reopen node_id job dead))
  ]

  claimed-IsReconciled :
      (loop : Schedule) (job : Job)
      → (claimable node_id now table).0 ≡ some job
      → IsReconciled loop node_id now table
          (claim loop node_id (some job) table).0
          (claim loop node_id (some job) table).1
  unfolding claim
  claimed-IsReconciled (refused why) job found = (
    inr refl,
    λ k.
        lookup_put_back job k (claimed-there job found) (
          candidate-is_failed (some now) job
            (claimable-IsAttributed node_id now table job found).1),
  )
  claimed-IsReconciled scheduled job found = (
    refl,
    job,
    claimed-there job found,
    found,
    λ k. elim (Bool-cases (str_eq job.job_id k)) [
      | inr other ↦ rw (lookup-update, other)
      | inl same ↦
          let at =
            ap (λ (i : String). Table.lookup i table.jobs) (sym ((eq_iff job.job_id k).0 same))
            ∙ claimed-there job found in
          rw (lookup-update, same, at)
    ],
  )

  claim-IsReconciled :
      (loop : Schedule)
      → IsReconciled loop node_id now table
          (reconcile_node_added loop now (some node_id) table).0
          (reconcile_node_added loop now (some node_id) table).1
  unfolding reconcile_node_added claim
  claim-IsReconciled loop = elim (Option-cases (claimable node_id now table).0) [
    | inl nothing ↦ rw (nothing, claim) (inl nothing, λ k. refl)
    | inr (job, found) ↦ rw (found, claim) (claimed-IsReconciled loop job found)
  ]

-- In a table with unique keys, whose jobs stand under their own ids, a node that joins reopens the job
-- that may claim it, now with that node, and changes no other job. Exactly where no job may claim it,
-- or the work could not be scheduled, none is reopened, and every job is as before, the time it ended
-- included.
pub reconcile_node_added-IsReconciled :
    (loop : Schedule) (now : ℕ) (node_id : NodeId) (table : Jobs)
    → IsUnique table.jobs
    → IsKeyed table.jobs
    → IsReconciled loop node_id now table
        (reconcile_node_added loop now (some node_id) table).0
        (reconcile_node_added loop now (some node_id) table).1
reconcile_node_added-IsReconciled loop now node_id table u keyed =
    claim-IsReconciled node_id now table u keyed loop
