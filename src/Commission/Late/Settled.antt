-- ===== src/Commission/Late/Settled.antt =====
-- commission_jobs.py, `note_late_response`: what a late answer may change.
use indigo_matter.Prelude.{
  ◌&&◌, Option, none, some, ◌≡◌, refl, Bool-cases, Option-cases, inl, inr, if◌then◌else◌,
}
use indigo_matter.Commission.{is_failed, commissioning_timeout, NodeId, Job}
use indigo_matter.Commission.Claim.{has_code}
use indigo_matter.Commission.Records.{set_node_id}
use indigo_matter.Commission.Late.{
  Late, late_error, late_success, late_failure, note_late, note_late_error, note_late_success,
}

-- What a late answer leaves of a job.
pub record IsNoted (late : Late) (before after : Job) : Type 0 where
  pub status : after.status ≡ before.status
  pub terminal_at : after.terminal_at ≡ before.terminal_at
  pub result : after.result ≡ before.result
  -- A node that is recorded is kept; else a success records the one it names.
  pub node_id : after.node_id ≡ elim before.node_id [
    | some held ↦ some held
    | none ↦ elim late [ late_error code details ↦ none | late_success named ↦ named ]
  ]
  -- The error changes if the job timed out and the answer is an error.
  pub error : after.error ≡ elim late [
    | late_error code details ↦
        if is_failed before.status && has_code commissioning_timeout before
        then some (late_failure code details)
        else before.error
    | late_success named ↦ before.error
  ]

kept_lem :
    (o : Option NodeId) → o ≡ elim o as (λ _. Option NodeId) [ some held ↦ some held | none ↦ none ]
kept_lem none = refl
kept_lem (some held) = refl

-- A late answer to a commission request changes neither the status of a job nor when it ended nor its
-- result. A late error replaces the error of a job that timed out, and of no other. A late success
-- records the node that it names if the job has none, and never replaces a node.
pub note_late-IsNoted : (late : Late) (job : Job) → IsNoted late job (note_late late job)
unfolding note_late note_late_error note_late_success set_node_id
note_late-IsNoted (late_error code details) job =
    elim (Bool-cases (is_failed job.status && has_code commissioning_timeout job)) [
      | inl timed ↦
          rw (timed, note_late_error)
            (record {
              status = refl;
              terminal_at = refl;
              result = refl;
              node_id = kept_lem job.node_id;
              error = rw timed;
            })
      | inr other ↦
          rw (other, note_late_error)
            (record {
              status = refl;
              terminal_at = refl;
              result = refl;
              node_id = kept_lem job.node_id;
              error = rw other;
            })
    ]
note_late-IsNoted (late_success none) job = record {
  status = refl;
  terminal_at = refl;
  result = refl;
  node_id = kept_lem job.node_id;
  error = refl;
}
note_late-IsNoted (late_success (some node_id)) job = elim (Option-cases job.node_id) [
  | inl unnamed ↦
      rw unnamed
        (record { status = refl; terminal_at = refl; result = refl; node_id = refl; error = refl })
  | inr (held, named) ↦
      rw named
        (record { status = refl; terminal_at = refl; result = refl; node_id = refl; error = refl })
]
