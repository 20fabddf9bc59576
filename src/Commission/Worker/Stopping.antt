-- ===== src/Commission/Worker/Stopping.antt =====
-- commission_jobs.py, `_run_job`: what each await leads to: the next one, the end, or the removal of a node.
use indigo_matter.Prelude.{
  ℕ, String, Bool, true, false, Option, none, some, ◌≡◌, ◌≢◌, ◌⊎◌, inl, inr, refl, is_some,
  Bool-cases, eq_iff,
}
use indigo_matter.Python.{Fields}
use indigo_matter.Python.Table
use indigo_matter.Python.Table.{text_key}
use indigo_matter.Commission.{JobStatus, success, failed, NodeId, JobError, Job, Jobs}
use indigo_matter.Commission.Records.{advance, update, start_removing, stop_removing, is_removing}
use indigo_matter.Commission.Codes.{node_key}
use indigo_matter.Commission.Records.Lookup.{lookup-update}
use indigo_matter.Commission.Claim.{finish, land, result_of}
use indigo_matter.Commission.Worker.{
  Reply, returned, cancelled, commission_error, timed_out, protocol_error, raised, Phase,
  at_descriptors, at_devices, at_removal, ended, watching, commissioned, described, created,
  removed, fail, land_failed, except, node_held_by_other_job, any_holds,
}
use indigo_matter.Commission.Worker.Run.{Replies, resume, is_returned, names_node}

-- The table holds the job.
abbrev pub IsThere : String → Jobs → Type 0
IsThere job_id table = (job : Job) × (Table.lookup job_id table.jobs ≡ some job)

abbrev pub is_over : Phase → Bool
is_over ended = true
is_over watching = true
is_over _ = false

-- The worker is done, and the job has that status and the time it got it.
pub record IsEnded (job_id : String) (status : JobStatus) (phase : Phase) (table : Jobs)
    : Type 0 where
  pub over : is_over phase ≡ true
  pub job : Job
  pub there : Table.lookup job_id table.jobs ≡ some job
  pub landed : job.status ≡ status
  pub stamped : is_some job.terminal_at ≡ true

pub lookup-update_here :
    (job_id : String) (f : Job → Job) (table : Jobs) (job : Job)
    → Table.lookup job_id table.jobs ≡ some job
    → Table.lookup job_id (update job_id f table).jobs ≡ some (f job)
lookup-update_here job_id f table job at = rw (lookup-update, (eq_iff job_id job_id).1 refl, at)

pub update-IsThere :
    (job_id : String) (f : Job → Job) (table : Jobs)
    → IsThere job_id table
    → IsThere job_id (update job_id f table)
update-IsThere job_id f table (job, at) = (f job, lookup-update_here job_id f table job at)

module _ (now : ℕ) (job_id : String) where
  land-IsEnded :
      (error : JobError) (table : Jobs) (phase : Phase)
      → is_over phase ≡ true
      → IsThere job_id table
      → IsEnded job_id failed phase (update job_id (land now error) table)
  unfolding land advance
  land-IsEnded error table phase over (job, at) = record {
    over = over;
    job = land now error job;
    there = lookup-update_here job_id (land now error) table job at;
    landed = refl;
    stamped = refl;
  }

  -- The worker failed the job, or is about to, after the removal of a node.
  abbrev pub IsStopping : Phase × Jobs → Type 0
  IsStopping s =
      IsEnded job_id failed s.0 s.1
      ⊎ ((node_id : NodeId) × (error : JobError) × (s.0 ≡ at_removal node_id error)
          × IsThere job_id s.1)

  start_removing-IsThere :
      (node_id : NodeId) (table : Jobs)
      → IsThere job_id table
      → IsThere job_id (start_removing node_id table)
  unfolding start_removing
  start_removing-IsThere node_id table there =
      elim (Bool-cases (is_removing table.removing (node_key node_id))) [
        | inl again ↦ rw again there
        | inr new ↦ rw new there
      ]

  fail-IsStopping :
      (error : JobError) (node_id : Option NodeId) (table : Jobs)
      → IsThere job_id table
      → IsStopping (fail now job_id error node_id table)
  unfolding fail land_failed node_held_by_other_job
  fail-IsStopping error none table there = inl (land-IsEnded error table ended refl there)
  fail-IsStopping error (some node_id) table there =
      elim (Bool-cases (any_holds job_id node_id table.jobs)) [
        | inl held ↦ rw held (inl (land-IsEnded error table ended refl there))
        | inr free ↦
            rw free (inr (node_id, error, refl, start_removing-IsThere node_id table there))
      ]

  except-IsStopping {ℓ} :
      {A : Type ℓ} (node_id : Option NodeId) (reply : Reply A) (table : Jobs)
      → is_returned reply ≡ false
      → IsThere job_id table
      → IsStopping (except now job_id node_id reply table)
  unfolding except land_failed
  except-IsStopping node_id (returned a) table bad there = absurd cc
  except-IsStopping node_id cancelled table bad there = inl (land-IsEnded _ table ended refl there)
  except-IsStopping node_id (commission_error code message matter_code) table bad there =
      fail-IsStopping _ node_id table there
  except-IsStopping (some node_id) timed_out table bad there =
      inl (land-IsEnded _ table ended refl there)
  except-IsStopping none timed_out table bad there = inl (land-IsEnded _ table watching refl there)
  except-IsStopping node_id (protocol_error message matter_code) table bad there =
      fail-IsStopping _ node_id table there
  except-IsStopping node_id (raised message) table bad there = fail-IsStopping _ node_id table there

  stop_removing-IsThere :
      (node_id : NodeId) (table : Jobs)
      → IsThere job_id table
      → IsThere job_id (stop_removing node_id table)
  unfolding stop_removing
  stop_removing-IsThere node_id table there = there

  removed-IsEnded :
      (node_id : NodeId) (error : JobError) (reply : Reply (Unit {0})) (table : Jobs)
      → reply ≢ cancelled
      → IsThere job_id table
      → IsEnded job_id failed
          (removed now job_id node_id error reply table).0
          (removed now job_id node_id error reply table).1
  unfolding removed land_failed
  removed-IsEnded node_id error cancelled table live there = absurd (live refl)
  removed-IsEnded node_id error _ table live there =
      land-IsEnded error (stop_removing node_id table) ended refl
        (stop_removing-IsThere node_id table there)

  resume_over :
      (replies : Replies) (phase : Phase) (table : Jobs)
      → is_over phase ≡ true
      → resume now job_id replies (phase, table) ≡ (phase, table)
  unfolding resume
  resume_over replies ended table over = refl
  resume_over replies watching table over = refl
  resume_over replies _ table over = cc

  pub resume-IsEnded :
      (replies : Replies) (status : JobStatus) (phase : Phase) (table : Jobs)
      → IsEnded job_id status phase table
      → IsEnded job_id status
          (resume now job_id replies (phase, table)).0
          (resume now job_id replies (phase, table)).1
  resume-IsEnded replies status phase table e = rw (resume_over replies phase table e.over) e

  pub resume_stopping :
      (replies : Replies) (phase : Phase) (table : Jobs)
      → replies.removal ≢ cancelled
      → IsStopping (phase, table)
      → IsEnded job_id failed
          (resume now job_id replies (phase, table)).0
          (resume now job_id replies (phase, table)).1
  unfolding resume
  resume_stopping replies phase table live (inl e) = resume-IsEnded replies failed phase table e
  resume_stopping replies phase table live (inr (node_id, error, at, there)) =
      rw at (removed-IsEnded node_id error replies.removal table live there)

  pub created_lem :
      (node_id : NodeId) (reply : Reply Fields) (table : Jobs)
      → IsThere job_id table
      → ((is_returned reply ≡ true)
          × IsEnded job_id success
              (created now job_id node_id reply table).0
              (created now job_id node_id reply table).1)
        ⊎ ((is_returned reply ≡ false) × IsStopping (created now job_id node_id reply table))
  unfolding created finish advance
  created_lem node_id (returned made) table (job, at) = inl (
    refl,
    record {
      over = refl;
      job = finish now "Done" (result_of node_id made) job;
      there = lookup-update_here job_id (finish now "Done" (result_of node_id made)) table job at;
      landed = refl;
      stamped = refl;
    },
  )
  created_lem node_id reply table there =
      inr (refl, except-IsStopping (some node_id) reply table refl there)

  pub described_lem :
      (node_id : NodeId) (reply : Reply (Unit {0})) (table : Jobs)
      → IsThere job_id table
      → ((is_returned reply ≡ true)
          × ((described now job_id node_id reply table).0 ≡ at_devices node_id)
          × IsThere job_id (described now job_id node_id reply table).1)
        ⊎ ((is_returned reply ≡ false) × IsStopping (described now job_id node_id reply table))
  unfolding described
  described_lem node_id (returned u) table there =
      inl (refl, refl, update-IsThere job_id _ table there)
  described_lem node_id reply table there =
      inr (refl, except-IsStopping (some node_id) reply table refl there)

  pub commissioned_lem :
      (reply : Reply (Option NodeId)) (table : Jobs)
      → IsThere job_id table
      → ((names_node reply ≡ true)
          × ((node_id : NodeId) × ((commissioned now job_id reply table).0 ≡ at_descriptors node_id)
              × IsThere job_id (commissioned now job_id reply table).1))
        ⊎ ((names_node reply ≡ false) × IsStopping (commissioned now job_id reply table))
  unfolding commissioned
  commissioned_lem (returned (some node_id)) table there =
      inl (refl, (node_id, refl, update-IsThere job_id _ _ (update-IsThere job_id _ table there)))
  commissioned_lem (returned none) table there = inr (refl, fail-IsStopping _ none table there)
  commissioned_lem reply table there = inr (refl, except-IsStopping none reply table refl there)
