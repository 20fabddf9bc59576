-- ===== src/Commission/Claim/Attribution.antt =====
-- commission_jobs.py, `_claimable_locked`: to which job a node that joined may be attributed.
use mathlib.Core.Path.{subst}
use indigo_matter.Prelude.{
  All-map, cons_is_not_nil, some_injective, none_is_not_some, true_is_not_false, ℕ, String, Bool,
  true, false, not, Option, none, some, List, [], ◌∷◌, ◌≡◌, ◌⊎◌, inl, inr, refl, sym, ◌∙◌, arith,
  All, is_some, leb, eq_iff, str_eq, Bool-cases, Option-cases,
}
use indigo_matter.Python.Table.{Table}
use indigo_matter.Commission.{NodeId, Job, Jobs}
use indigo_matter.Commission.Codes.{is_node, node_key}
use indigo_matter.Commission.Records.{is_removing}
use indigo_matter.Commission.Claim.{
  ended, is_candidate, insert_ended, candidates_of, timeout_candidates, keep, last, all_of_code,
  is_one_code, is_exact, is_unidentified, attributed, claimable,
}

-- Does the list hold the job?
abbrev pub IsIn : Job → List Job → Type 0
IsIn job [] = ⊥
IsIn job (other ∷ rest) = (job ≡ other) ⊎ IsIn job rest

All_of_IsIn : (P : Job → Type 0) (job : Job) (l : List Job) → All P l → IsIn job l → P job
All_of_IsIn P job [] all h = elim h [ ]
All_of_IsIn P job (other ∷ rest) all (inl same) = subst P (sym same) all.0
All_of_IsIn P job (other ∷ rest) all (inr later) = All_of_IsIn P job rest all.1 later

last-IsIn : (l : List Job) (job : Job) → last l ≡ some job → IsIn job l
unfolding last
last-IsIn [] job h = cc
last-IsIn (other ∷ []) job h = inl cc
last-IsIn (_ ∷ other ∷ rest) job h = inr (last-IsIn (other ∷ rest) job h)

last-none : (l : List Job) → last l ≡ none → l ≡ []
unfolding last
last-none [] h = refl
last-none (other ∷ []) h = cc
last-none (_ ∷ other ∷ rest) h = absurd (cons_is_not_nil (last-none (other ∷ rest) h))

module _ (p : Job → Bool) where
  keep-IsIn : (l : List Job) (job : Job) → IsIn job (keep p l) → IsIn job l × (p job ≡ true)
  unfolding keep
  keep-IsIn [] job h = elim h [ ]
  keep-IsIn (other ∷ rest) job h = elim (Bool-cases (p other)) [
    | inl kept ↦ elim (rw kept at h) [
      | inl same ↦ (inl same, subst (λ j. p j ≡ true) (sym same) kept)
      | inr later ↦ (inr (keep-IsIn rest job later).0, (keep-IsIn rest job later).1)
    ]
    | inr left ↦ let found = keep-IsIn rest job (rw left at h) in (inr found.0, found.1)
  ]

  keep_none : (l : List Job) → keep p l ≡ [] → All (λ c. p c ≡ false) l
  unfolding keep
  keep_none [] h = tt
  keep_none (other ∷ rest) h = elim (Bool-cases (p other)) [
    | inl kept ↦ absurd (cons_is_not_nil (rw kept at h))
    | inr left ↦ (left, keep_none rest (rw left at h))
  ]

  keep-All : (P : Job → Type 0) (l : List Job) → All P (keep p l) → All (λ c. p c ≡ true → P c) l
  unfolding keep
  keep-All P [] h = tt
  keep-All P (other ∷ rest) h = elim (Bool-cases (p other)) [
    | inl kept ↦ let both = rw kept at h in (λ _. both.0, keep-All P rest both.1)
    | inr left ↦
        (λ kept. absurd (true_is_not_false (sym kept ∙ left)), keep-All P rest (rw left at h))
  ]

all_of_code-All :
    (code : String) (l : List Job) → all_of_code code l ≡ true → All (λ c. c.setup_code ≡ code) l
unfolding all_of_code
all_of_code-All code [] h = tt
all_of_code-All code (job ∷ rest) h =
    let both : (str_eq job.setup_code code ≡ true) × (all_of_code code rest ≡ true) =
      ground arith in
    ((eq_iff job.setup_code code).0 both.0, all_of_code-All code rest both.1)

is_one_code-All :
    (l : List Job) (job : Job)
    → is_one_code l ≡ true
    → IsIn job l
    → All (λ c. c.setup_code ≡ job.setup_code) l
unfolding is_one_code
is_one_code-All [] job h here = elim here [ ]
is_one_code-All (first ∷ rest) job h here =
    let all : All (λ c. c.setup_code ≡ first.setup_code) (first ∷ rest) =
      (refl, all_of_code-All first.setup_code rest h) in
    let same = All_of_IsIn (λ c. c.setup_code ≡ first.setup_code) job (first ∷ rest) all here in
    All-map _ _ (first ∷ rest) (λ c e. e ∙ sym same) all

-- The job is waiting for this very node; or nothing waits for it, this job waits for no node yet, and
-- so does no job of another setup code.
pub record IsSole (node_id : NodeId) (candidates : List Job) (job : Job) : Type 0 where
  pub unnamed : is_some job.node_id ≡ false
  pub no_exact : All (λ c. is_node c.node_id node_id ≡ false) candidates
  pub one_code : All (λ c. is_some c.node_id ≡ false → c.setup_code ≡ job.setup_code) candidates

abbrev pub IsAttributed : NodeId → List Job → Job → Type 0
IsAttributed node_id candidates job =
    IsIn job candidates × ((is_node job.node_id node_id ≡ true) ⊎ IsSole node_id candidates job)

not-true : (b : Bool) → not b ≡ true → b ≡ false
not-true b h = ground arith

not-false : (b : Bool) → b ≡ false → not b ≡ true
not-false b h = ground arith

attributed-IsAttributed :
    (node_id : NodeId) (candidates : List Job) (job : Job)
    → attributed node_id candidates ≡ some job
    → IsAttributed node_id candidates job
unfolding attributed
attributed-IsAttributed node_id candidates job h =
    elim (Option-cases (last (keep (is_exact node_id) candidates))) [
      | inr (exact, found) ↦
          let same = some_injective exact job (rw (found, attributed) at h) in
          subst (IsAttributed node_id candidates) same (
            let here = keep-IsIn (is_exact node_id) candidates exact (last-IsIn _ exact found) in
            (here.0, inl here.1))
      | inl none_exact ↦ elim (Bool-cases (is_one_code (keep is_unidentified candidates))) [
        | inr several ↦ absurd (none_is_not_some job (rw (none_exact, several, attributed) at h))
        | inl one ↦
            let here = last-IsIn _ job (rw (none_exact, one, attributed) at h) in
            let found = keep-IsIn is_unidentified candidates job here in
            (
              found.0,
              inr (record {
                unnamed = not-true _ found.1;
                no_exact = keep_none (is_exact node_id) candidates (last-none _ none_exact);
                one_code =
                    All-map _ _ candidates (λ c f e. f (not-false _ e))
                      (keep-All is_unidentified (λ c. c.setup_code ≡ job.setup_code) candidates
                        (is_one_code-All (keep is_unidentified candidates) job one here));
              }),
            )
      ]
    ]

insert_ended-All :
    (P : Job → Type 0) (job : Job) (l : List Job) → P job → All P l → All P (insert_ended job l)
unfolding insert_ended
insert_ended-All P job [] here all = (here, tt)
insert_ended-All P job (other ∷ rest) here all = elim (Bool-cases (leb (ended job) (ended other))) [
  | inl first ↦ rw first (here, all)
  | inr later ↦ rw later (all.0, insert_ended-All P job rest here all.1)
]

candidates_of-All :
    (now : Option ℕ) (t : Table String Job)
    → All (λ c. is_candidate now c ≡ true) (candidates_of now t)
unfolding candidates_of
candidates_of-All now [] = tt
candidates_of-All now ((k, job) ∷ rest) = elim (Bool-cases (is_candidate now job)) [
  | inl fits ↦
      rw fits (insert_ended-All _ job (candidates_of now rest) fits (candidates_of-All now rest))
  | inr other ↦ rw other (candidates_of-All now rest)
]

-- A node that joins is claimed only if it is not being removed, and only by a job that failed with
-- `commissioning_timeout` within the reconcile window. That job was waiting for this very node, or no
-- such job was, it waits for no node yet, and every such job that waits for none has its setup code.
pub claimable-IsAttributed :
    (node_id : NodeId) (now : ℕ) (table : Jobs) (job : Job)
    → (claimable node_id now table).0 ≡ some job
    → (is_removing table.removing (node_key node_id) ≡ false)
      × (is_candidate (some now) job ≡ true)
      × IsAttributed node_id (timeout_candidates (some now) table) job
unfolding claimable timeout_candidates
claimable-IsAttributed node_id now table job h =
    elim (Bool-cases (is_removing table.removing (node_key node_id))) [
      | inl removing ↦ absurd (none_is_not_some job (rw removing at h))
      | inr free ↦
          let found = attributed-IsAttributed node_id _ job (rw free at h) in
          (
            free,
            All_of_IsIn (λ c. is_candidate (some now) c ≡ true) job _
                (candidates_of-All (some now) table.jobs) found.0,
            found,
          )
    ]
