-- ===== src/Commission/Create/Duplicate.antt =====
-- commission_jobs.py, `create_job`: one job in progress for one setup code.
use mathlib.Core.Path.{subst}
use indigo_matter.Prelude.{ℕ, String, true, false, none, some, ◌≡◌, refl, ap, ◌∙◌, str_eq}
use indigo_matter.Python.{ok_injective, Fields, ok, >>=-eq-ok}
use indigo_matter.Python.Dict.{get}
use indigo_matter.Python.Table.{text_key, IsUnique, lookup, lookup-insert_same, insert-IsUnique}
use indigo_matter.Commission.{pending, is_terminal, Job, Jobs}
use indigo_matter.Commission.Codes.{is_valid_setup_code}
use indigo_matter.Commission.Records.{is_expired, reap}
use indigo_matter.Commission.Records.Reaped.{lookup-reap, listed-reap, reap-IsUnique}
use indigo_matter.Commission.Create.{
  opt_int, Schedule, scheduled, stripped, new_job, open_job, launch, create_new, create_checked,
  create_named, create_coded, create_job, in_progress, duplicate, accepted, Created,
}

-- The setup code lists a job that has not ended.
pub record IsListed (code job_id : String) (table : Jobs) : Type 0 where
  pub unique_jobs : IsUnique table.jobs
  pub unique_codes : IsUnique table.by_code
  pub listed : lookup code table.by_code ≡ some job_id
  pub job : Job
  pub there : lookup job_id table.jobs ≡ some job
  pub live : is_terminal job.status ≡ false
  pub unended : job.terminal_at ≡ none

-- The request asks for that setup code, and names the device.
pub record IsRequest (params : Fields) (code name : String) : Type 0 where
  pub coded : stripped (get "setupCode" params) ≡ ok code
  pub valid : is_valid_setup_code code ≡ true
  pub named : stripped (get "suggestedName" params) ≡ ok name
  pub nonblank : str_eq name "" ≡ false

module _ (uuid : String) (loop : Schedule) (now : ℕ) (params : Fields) (code name : String)
    (table : Jobs) (q : IsRequest params code name) where
  create_job_lem :
      create_job true uuid loop now params table
      ≡ create_new loop
          (in_progress code (reap now table))
          (new_job uuid code name params now)
          (reap now table)
  unfolding create_job create_coded create_named create_checked
  create_job_lem = rw (q.coded, q.valid, q.named, q.nonblank)

unended-has_expired : (now : ℕ) (job : Job) → job.terminal_at ≡ none → is_expired now job ≡ false
unfolding is_expired
unended-has_expired now job h = rw h

module _ (code job_id : String) (table : Jobs) (l : IsListed code job_id table) (now : ℕ) where
  there-reap : lookup job_id (reap now table).jobs ≡ some l.job
  there-reap =
      lookup-reap now job_id table l.unique_jobs
      ∙ rw (l.there, unended-has_expired now l.job l.unended)

  in_progress-reap : in_progress code (reap now table) ≡ some job_id
  unfolding in_progress
  in_progress-reap = rw (
    listed-reap code job_id now table l.unique_jobs l.unique_codes
        (rw (l.there, unended-has_expired now l.job l.unended)) l.listed,
    in_progress,
    there-reap,
    l.live,
  )

-- What a new job is.
record IsNew (uuid code : String) (job : Job) : Type 0 where
  id : job.job_id ≡ uuid
  coded : job.setup_code ≡ code
  waiting : job.status ≡ pending
  unended : job.terminal_at ≡ none

new_job-IsNew :
    (uuid code name : String) (params : Fields) (now : ℕ) (job : Job)
    → new_job uuid code name params now ≡ ok job
    → IsNew uuid code job
unfolding new_job
new_job-IsNew uuid code name params now job h =
    let (discriminator, p, h₁) = >>=-eq-ok (opt_int (get "discriminator" params)) _ h in
    let (slots, q, h₂) = >>=-eq-ok (opt_int (get "expectedFabricSlots" params)) _ h₁ in
    subst (IsNew uuid code) (ok_injective _ job h₂)
      (record { id = refl; coded = refl; waiting = refl; unended = refl })

open_job-IsListed :
    (uuid code : String) (job : Job) (table : Jobs)
    → IsNew uuid code job
    → IsUnique table.jobs
    → IsUnique table.by_code
    → IsListed code uuid (open_job job table)
unfolding open_job
open_job-IsListed uuid code job table n u v = record {
  unique_jobs = insert-IsUnique job.job_id job table.jobs u;
  unique_codes = insert-IsUnique job.setup_code job.job_id table.by_code v;
  listed = rw⁻¹ n.coded (rw⁻¹ n.id (lookup-insert_same job.setup_code job.job_id table.by_code));
  job = job;
  there = rw⁻¹ n.id (lookup-insert_same job.job_id job table.jobs);
  live = rw n.waiting;
  unended = n.unended;
}

create_new_opens :
    (job : Job) (table : Jobs)
    → create_new scheduled none (ok job) table
      ≡ (ok (accepted job.job_id), open_job job table, some job.job_id)
unfolding create_new launch
create_new_opens job table = refl

second :
    (uuid : String) (loop : Schedule) (now : ℕ) (params : Fields) (code name : String)
    (table : Jobs) (existing_id : String)
    → IsRequest params code name
    → IsListed code existing_id table
    → create_job true uuid loop now params table
      ≡ (ok (duplicate existing_id), reap now table, none)
unfolding create_new
second uuid loop now params code name table existing_id q l = rw (
  create_job_lem uuid loop now params code name table q,
  in_progress-reap code existing_id table l now,
)

-- A request, made to a plugin that is connected, while no job with its setup code is in progress and
-- the loop takes the worker, opens a job and answers 202 with the job's id. The next request with that
-- setup code, whenever it comes and whatever else it asks, opens none and is answered 409 with the id
-- of the job in progress, if nothing happened to the table in between.
pub create_job-create_job :
    (uuid uuid' code name name' : String) (loop : Schedule) (now now' : ℕ) (params params' : Fields)
    (job : Job) (table : Jobs)
    → IsUnique table.jobs
    → IsUnique table.by_code
    → IsRequest params code name
    → IsRequest params' code name'
    → in_progress code (reap now table) ≡ none
    → new_job uuid code name params now ≡ ok job
    → let (answer, opened, started) = create_job true uuid scheduled now params table in
      let (answer', after, started') = create_job true uuid' loop now' params' opened in
      (answer ≡ ok (accepted uuid))
      × (started ≡ some uuid)
      × (answer' ≡ ok (duplicate uuid))
      × (started' ≡ none)
create_job-create_job uuid uuid' code name name' loop now now' params params' job table u v q q'
      free made =
    let n = new_job-IsNew uuid code name params now job made in
    let (u', v') = reap-IsUnique now table u v in
    let l = open_job-IsListed uuid code job (reap now table) n u' v' in
    rw
      (
        create_job_lem uuid scheduled now params code name table q,
        free,
        made,
        create_new_opens job (reap now table),
      )
      (
        ap (λ (i : String). ok (accepted i)) n.id,
        ap some n.id,
        ap (λ (c : Created). c.0) (second uuid' loop now' params' code name' _ uuid q' l),
        ap (λ (c : Created). c.2) (second uuid' loop now' params' code name' _ uuid q' l),
      )
