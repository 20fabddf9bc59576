-- ===== src/Commission/Records/Lookup.antt =====
-- What the changes of the table do to the lookup of every job.
use indigo_matter.Prelude.{
  String, Option, none, some, [], ◌∷◌, ◌≡◌, refl, ◌∙◌, ap, arith, str_eq, eq_iff, Option-cases, inl,
  inr, if◌then◌else◌,
}
use indigo_matter.Python.Table
use indigo_matter.Python.Table.{
  text_key, lookup-insert, lookup-remove, IsUnique, remove-IsUnique, insert-IsUnique,
}
use indigo_matter.Commission.{Job, Jobs}
use indigo_matter.Commission.Records.{update}

-- `f` of a job that is there.
abbrev pub changed : (Job → Job) → Option Job → Option Job
changed f none = none
changed f (some job) = some (f job)

pub lookup-update :
    (job_id k : String) (f : Job → Job) (table : Jobs)
    → Table.lookup k (update job_id f table).jobs ≡ (
        if str_eq job_id k
        then changed f (Table.lookup k table.jobs)
        else Table.lookup k table.jobs)
unfolding update
lookup-update job_id k f table = elim (Option-cases (Table.lookup job_id table.jobs)) [
  | inl absent ↦
      rw (absent, update)
        (ground (arith, eq_iff job_id k, ap (λ (i : String). Table.lookup i table.jobs)))
  | inr (job, there) ↦
      rw (there, update)
        (lookup-insert job_id k (f job) table.jobs
          ∙ (ground (arith, eq_iff job_id k, ap (λ (i : String). Table.lookup i table.jobs))))
]

-- Every job stands under its own id.
abbrev pub IsKeyed : Table.Table String Job → Type 0
IsKeyed [] = Unit
IsKeyed ((k, job) ∷ t) = (job.job_id ≡ k) × IsKeyed t

pub lookup_skips :
    (k j : String) (job other : Job) (t : Table.Table String Job)
    → Table.lookup k t ≡ none
    → Table.lookup j t ≡ some job
    → Table.lookup j ((k, other) ∷ t) ≡ some job
unfolding Table.lookup
lookup_skips k j job other t absent there =
    ground (arith, eq_iff k j, ap (λ (i : String). Table.lookup i t))

pub lookup_first :
    (job other : Job) (k : String) (t : Table.Table String Job)
    → other.job_id ≡ k
    → job ≡ other
    → Table.lookup job.job_id ((k, other) ∷ t) ≡ some job
unfolding Table.lookup
lookup_first job other k t keyed same = rw (same, keyed, (eq_iff k k).1 refl)
