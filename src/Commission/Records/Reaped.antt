-- ===== src/Commission/Records/Reaped.antt =====
-- commission_jobs.py, `_reap_locked`: which jobs and listings it leaves.
use indigo_matter.Prelude.{
  ◌∙◌, Bool-cases, ℕ, String, Bool, true, false, Option, none, some, List, [], ◌∷◌, ◌≡◌, refl, ap,
  arith, str_eq, eq_iff, Option-cases, inl, inr, if◌then◌else◌,
}
use indigo_matter.Python.Table.{Table, text_key, IsUnique, lookup, lookup-remove, remove-IsUnique}
use indigo_matter.Commission.{Job, Jobs}
use indigo_matter.Commission.Records.{unlist, is_expired, expired, drop_job, drop_all, reap}

abbrev is_named : String → List String → Bool
is_named k [] = false
is_named k (job_id ∷ rest) = if str_eq job_id k then true else is_named k rest

drop_job-IsUnique :
    (job_id : String) (table : Jobs) → IsUnique table.jobs → IsUnique (drop_job job_id table).jobs
unfolding drop_job
drop_job-IsUnique job_id table u = elim (Option-cases (lookup job_id table.jobs)) [
  | inl absent ↦ rw (absent, drop_job) u
  | inr (job, there) ↦ rw (there, drop_job) (remove-IsUnique job_id table.jobs u)
]

lookup-drop_job :
    (job_id k : String) (table : Jobs)
    → IsUnique table.jobs
    → lookup k (drop_job job_id table).jobs
      ≡ (if str_eq job_id k then none else lookup k table.jobs)
unfolding drop_job
lookup-drop_job job_id k table u = elim (Option-cases (lookup job_id table.jobs)) [
  | inl absent ↦
      rw (absent, drop_job)
        (ground (arith, eq_iff job_id k, ap (λ (i : String). lookup i table.jobs)))
  | inr (job, there) ↦ rw (there, drop_job) (lookup-remove job_id k table.jobs u)
]

lookup-drop_all :
    (job_ids : List String) (k : String) (table : Jobs)
    → IsUnique table.jobs
    → lookup k (drop_all job_ids table).jobs
      ≡ (if is_named k job_ids then none else lookup k table.jobs)
unfolding drop_all
lookup-drop_all [] k table u = refl
lookup-drop_all (job_id ∷ rest) k table u =
    rw
      (
        lookup-drop_all rest k (drop_job job_id table) (drop_job-IsUnique job_id table u),
        lookup-drop_job job_id k table u,
      )
      (ground arith)

-- A job that is kept.
abbrev pub kept : ℕ → Option Job → Option Job
kept now none = none
kept now (some job) = if is_expired now job then none else some job

abbrev pub has_expired : ℕ → Option Job → Bool
has_expired now none = false
has_expired now (some job) = is_expired now job

kept_lem : (now : ℕ) (o : Option Job) → (if has_expired now o then none else o) ≡ kept now o
kept_lem now none = refl
kept_lem now (some job) = refl

named-expired :
    (now : ℕ) (k : String) (t : Table String Job)
    → IsUnique t
    → is_named k (expired now t) ≡ has_expired now (lookup k t)
unfolding expired lookup
named-expired now k [] u = refl
named-expired now k ((j, job) ∷ t) u =
    ground (arith, eq_iff j k, named-expired now k t u.1, ap (λ (i : String). lookup i t))

-- In a table with unique keys, the reaping drops the jobs that ended longer ago than the retention, and keeps every
-- other job as it is.
pub lookup-reap :
    (now : ℕ) (k : String) (table : Jobs)
    → IsUnique table.jobs
    → lookup k (reap now table).jobs ≡ kept now (lookup k table.jobs)
unfolding reap
lookup-reap now k table u =
    rw (lookup-drop_all (expired now table.jobs) k table u, named-expired now k table.jobs u)
      (kept_lem now (lookup k table.jobs))

-- What is listed under a setup code stays listed, unless that job is dropped.
module _ (code u : String) where
  unlist_keeps :
      (job_code job_id : String) (by_code : Table String String)
      → IsUnique by_code
      → str_eq job_id u ≡ false
      → lookup code by_code ≡ some u
      → lookup code (unlist job_code job_id by_code) ≡ some u
  unfolding unlist
  unlist_keeps job_code job_id by_code unique other at =
      elim (Option-cases (lookup job_code by_code)) [
        | inl absent ↦ rw (absent, unlist) at
        | inr (listed, there) ↦ elim (Bool-cases (str_eq listed job_id)) [
          | inr kept_listing ↦ rw (there, kept_listing, unlist) at
          | inl its ↦
              rw (there, its, unlist)
                (lookup-remove job_code code by_code unique
                  ∙ ground (
                    arith,
                    eq_iff job_code code,
                    eq_iff listed job_id,
                    eq_iff job_id u,
                    ap (λ (i : String). lookup i by_code),
                  ))
        ]
      ]

  unlist-IsUnique :
      (job_code job_id : String) (by_code : Table String String)
      → IsUnique by_code
      → IsUnique (unlist job_code job_id by_code)
  unfolding unlist
  unlist-IsUnique job_code job_id by_code unique = elim (Option-cases (lookup job_code by_code)) [
    | inl absent ↦ rw (absent, unlist) unique
    | inr (listed, there) ↦ elim (Bool-cases (str_eq listed job_id)) [
      | inr kept_listing ↦ rw (there, kept_listing, unlist) unique
      | inl its ↦ rw (there, its, unlist) (remove-IsUnique job_code by_code unique)
    ]
  ]

  drop_job_keeps :
      (job_id : String) (table : Jobs)
      → IsUnique table.by_code
      → str_eq job_id u ≡ false
      → lookup code table.by_code ≡ some u
      → (lookup code (drop_job job_id table).by_code ≡ some u)
        × IsUnique (drop_job job_id table).by_code
  unfolding drop_job
  drop_job_keeps job_id table unique other at = elim (Option-cases (lookup job_id table.jobs)) [
    | inl absent ↦ rw (absent, drop_job) (at, unique)
    | inr (job, there) ↦
        rw (there, drop_job)
          (
            unlist_keeps job.setup_code job_id table.by_code unique other at,
            unlist-IsUnique job.setup_code job_id table.by_code unique,
          )
  ]

  drop_all_keeps :
      (job_ids : List String) (table : Jobs)
      → IsUnique table.by_code
      → is_named u job_ids ≡ false
      → lookup code table.by_code ≡ some u
      → lookup code (drop_all job_ids table).by_code ≡ some u
  unfolding drop_all
  drop_all_keeps [] table unique other at = at
  drop_all_keeps (job_id ∷ rest) table unique other at =
      let h : (str_eq job_id u ≡ false) × (is_named u rest ≡ false) = ground arith in
      let here = drop_job_keeps job_id table unique h.0 at in
      drop_all_keeps rest (drop_job job_id table) here.1 h.1 here.0

  -- A listing of a job that is not reaped stays.
  pub listed-reap :
      (now : ℕ) (table : Jobs)
      → IsUnique table.jobs
      → IsUnique table.by_code
      → has_expired now (lookup u table.jobs) ≡ false
      → lookup code table.by_code ≡ some u
      → lookup code (reap now table).by_code ≡ some u
  unfolding reap
  listed-reap now table jobs_unique unique fresh at =
      drop_all_keeps (expired now table.jobs) table unique
        (named-expired now u table.jobs jobs_unique ∙ fresh) at

drop_job_codes :
    (job_id : String) (table : Jobs)
    → IsUnique table.by_code
    → IsUnique (drop_job job_id table).by_code
unfolding drop_job
drop_job_codes job_id table v = elim (Option-cases (lookup job_id table.jobs)) [
  | inl absent ↦ rw (absent, drop_job) v
  | inr (job, there) ↦
      rw (there, drop_job) (unlist-IsUnique "" "" job.setup_code job_id table.by_code v)
]

drop_all-IsUnique :
    (job_ids : List String) (table : Jobs)
    → IsUnique table.jobs
    → IsUnique table.by_code
    → IsUnique (drop_all job_ids table).jobs × IsUnique (drop_all job_ids table).by_code
unfolding drop_all
drop_all-IsUnique [] table u v = (u, v)
drop_all-IsUnique (job_id ∷ rest) table u v =
    drop_all-IsUnique rest (drop_job job_id table) (drop_job-IsUnique job_id table u)
      (drop_job_codes job_id table v)

-- Reaping keeps the keys of both tables unique.
pub reap-IsUnique :
    (now : ℕ) (table : Jobs)
    → IsUnique table.jobs
    → IsUnique table.by_code
    → IsUnique (reap now table).jobs × IsUnique (reap now table).by_code
unfolding reap
reap-IsUnique now table u v = drop_all-IsUnique (expired now table.jobs) table u v
