-- ===== src/Replace/Partition.antt =====
-- node_replace.py, `plan_replacement`: every device of both nodes is in the plan once.
use indigo_matter.Prelude.{
  All-map, ℕ, suc, ◌+◌, Bool, true, false, not, Option, none, some, List, [], ◌∷◌, ℤ, ◌≡◌, refl,
  ◌∙◌, arith, All, Bool-cases, Option-cases, inl, inr, if◌then◌else◌,
}
use indigo_matter.Replace.{
  DeviceRef, ReplacementPlan, same_key, insert_ref, sorted, pop_candidate, matched, is_node_device,
  keep_refs, plan_replacement, news, olds,
}

-- How many devices of the list satisfy a test.
abbrev pub count : (DeviceRef → Bool) → List DeviceRef → ℕ
count p [] = 0
count p (ref ∷ rest) = if p ref then suc (count p rest) else count p rest

-- One round of the pairing.
module _ (old : DeviceRef) (rest l : List DeviceRef) where
  matched_absent :
      pop_candidate old l ≡ none
      → matched (old ∷ rest) l
        ≡ (record (matched rest l) { left_old = old ∷ (matched rest l).left_old })
  unfolding matched
  matched_absent absent = rw (absent, matched)

  matched_there :
      (popped : DeviceRef × List DeviceRef)
      → pop_candidate old l ≡ some popped
      → matched (old ∷ rest) l ≡ (record (matched rest popped.1) {
        pairs = (old, popped.0) ∷ (matched rest popped.1).pairs;
      })
  unfolding matched
  matched_there popped there = rw (there, matched)

module _ (p : DeviceRef → Bool) where
  count-insert_ref :
      (a : DeviceRef) (l : List DeviceRef) → count p (insert_ref a l) ≡ count p (a ∷ l)
  unfolding insert_ref
  count-insert_ref a [] = refl
  count-insert_ref a (b ∷ l) = ground (arith, count-insert_ref a l)

  count-sorted : (l : List DeviceRef) → count p (sorted l) ≡ count p l
  unfolding sorted
  count-sorted [] = refl
  count-sorted (a ∷ l) = count-insert_ref a (sorted l) ∙ ground (arith, count-sorted l)

  -- The list with the candidate that was taken from it in front.
  abbrev recounted : List DeviceRef → Option (DeviceRef × List DeviceRef) → ℕ
  recounted l none = count p l
  recounted l (some (found, others)) = count p (found ∷ others)

  count-pop_candidate :
      (old : DeviceRef) (l : List DeviceRef) → recounted l (pop_candidate old l) ≡ count p l
  unfolding pop_candidate
  count-pop_candidate old [] = refl
  count-pop_candidate old (b ∷ l) = elim (Bool-cases (same_key old b)) [
    | inl same ↦ rw same
    | inr other ↦ elim (Option-cases (pop_candidate old l)) [
      | inl absent ↦ rw (other, absent)
      | inr (popped, there) ↦
          let rest : count p (popped.0 ∷ popped.1) ≡ count p l =
            rw there at (count-pop_candidate old l) in
          rw (other, there) (ground (arith, rest))
    ]
  ]

  count-matched :
      (olds_in news_in : List DeviceRef)
      → (count p (olds (matched olds_in news_in).pairs) + count p (matched olds_in news_in).left_old
          ≡ count p olds_in)
        × (count p (news (matched olds_in news_in).pairs)
              + count p (matched olds_in news_in).left_new
            ≡ count p news_in)
  unfolding matched
  count-matched [] l = (omega arith, omega arith)
  count-matched (old ∷ rest) l = elim (Option-cases (pop_candidate old l)) [
    | inl absent ↦
        rw (matched_absent old rest l absent)
          (let both = count-matched rest l in (ground (arith, both.0), both.1))
    | inr (popped, there) ↦
        let moved : count p (popped.0 ∷ popped.1) ≡ count p l =
          rw there at (count-pop_candidate old l) in
        rw (matched_there old rest l popped there) (
          let both = count-matched rest popped.1 in
          (ground (arith, both.0), ground (arith, both.1, moved)))
  ]

  count-keep_refs :
      (q : DeviceRef → Bool) (l : List DeviceRef)
      → count p (keep_refs (λ r. not (q r)) l) + count p (keep_refs q l) ≡ count p l
  unfolding keep_refs
  count-keep_refs q [] = refl
  count-keep_refs q (a ∷ l) = ground (arith, count-keep_refs q l)

-- What is known of a candidate that was found, or of a list where none was.
abbrev IsPopped : DeviceRef → List DeviceRef → Option (DeviceRef × List DeviceRef) → Type 0
IsPopped old l none = All (λ n. same_key old n ≡ false) l
IsPopped old l (some (found, others)) = same_key old found ≡ true

pop_candidate-IsPopped :
    (old : DeviceRef) (l : List DeviceRef) → IsPopped old l (pop_candidate old l)
unfolding pop_candidate
pop_candidate-IsPopped old [] = tt
pop_candidate-IsPopped old (b ∷ l) = elim (Bool-cases (same_key old b)) [
  | inl same ↦ rw same same
  | inr other ↦ elim (Option-cases (pop_candidate old l)) [
    | inl absent ↦
        let none_here : All (λ n. same_key old n ≡ false) l =
          rw absent at (pop_candidate-IsPopped old l) in
        rw (other, absent) (other, none_here)
    | inr (popped, there) ↦
        let here : same_key old popped.0 ≡ true = rw there at (pop_candidate-IsPopped old l) in
        rw (other, there) here
  ]
]

-- A property of all items holds of those that a candidate leaves.
module _ (P : DeviceRef → Type 0) where
  abbrev AllOthers : Option (DeviceRef × List DeviceRef) → Type 0
  AllOthers none = Unit
  AllOthers (some (found, others)) = All P others

  pop_candidate-AllOthers :
      (old : DeviceRef) (l : List DeviceRef) → All P l → AllOthers (pop_candidate old l)
  unfolding pop_candidate
  pop_candidate-AllOthers old [] all = tt
  pop_candidate-AllOthers old (b ∷ l) all = elim (Bool-cases (same_key old b)) [
    | inl same ↦ rw same all.1
    | inr other ↦ elim (Option-cases (pop_candidate old l)) [
      | inl absent ↦ rw (other, absent) tt
      | inr (popped, there) ↦
          let rest : All P popped.1 = rw there at (pop_candidate-AllOthers old l all.1) in
          rw (other, there) (all.0, rest)
    ]
  ]

  matched-All : (os l : List DeviceRef) → All P l → All P (matched os l).left_new
  unfolding matched
  matched-All [] l all = all
  matched-All (old ∷ rest) l all = elim (Option-cases (pop_candidate old l)) [
    | inl absent ↦ rw (matched_absent old rest l absent) (matched-All rest l all)
    | inr (popped, there) ↦
        let left : All P popped.1 = rw there at (pop_candidate-AllOthers old l all) in
        rw (matched_there old rest l popped there) (matched-All rest popped.1 left)
  ]

  keep_refs-All : (q : DeviceRef → Bool) (l : List DeviceRef) → All P l → All P (keep_refs q l)
  unfolding keep_refs
  keep_refs-All q [] all = tt
  keep_refs-All q (a ∷ l) all = elim (Bool-cases (q a)) [
    | inl fits ↦ rw fits (all.0, keep_refs-All q l all.1)
    | inr other ↦ rw other (keep_refs-All q l all.1)
  ]

-- Paired devices have one key, and no two devices that are left over do.
abbrev IsMatching : List (DeviceRef × DeviceRef) → List DeviceRef → List DeviceRef → Type 0
IsMatching pairs left_old left_new =
    All (λ (pair : DeviceRef × DeviceRef). same_key pair.0 pair.1 ≡ true) pairs
    × All (λ o. All (λ n. same_key o n ≡ false) left_new) left_old

matched-IsMatching :
    (os l : List DeviceRef)
    → IsMatching (matched os l).pairs (matched os l).left_old (matched os l).left_new
unfolding matched
matched-IsMatching [] l = (tt, tt)
matched-IsMatching (old ∷ rest) l = elim (Option-cases (pop_candidate old l)) [
  | inl absent ↦
      let here : All (λ n. same_key old n ≡ false) l =
        rw absent at (pop_candidate-IsPopped old l) in
      let m = matched-IsMatching rest l in
      rw (matched_absent old rest l absent)
        (m.0, (matched-All (λ n. same_key old n ≡ false) rest l here, m.1))
  | inr (popped, there) ↦
      let here : same_key old popped.0 ≡ true = rw there at (pop_candidate-IsPopped old l) in
      let m = matched-IsMatching rest popped.1 in
      rw (matched_there old rest l popped there) ((here, m.0), m.1)
]

-- How often devices of a kind stand in the plan, on either side.
abbrev in_plan_old : (DeviceRef → Bool) → ReplacementPlan → ℕ
in_plan_old p plan = count p (olds plan.pairs) + count p plan.unmatched_old

abbrev in_plan_new : (DeviceRef → Bool) → ReplacementPlan → ℕ
in_plan_new p plan =
    count p (news plan.pairs) + (count p plan.unmatched_new + count p plan.extra_deletes)

abbrev pub IsPartition : List DeviceRef → List DeviceRef → ReplacementPlan → Type 0
IsPartition old_refs new_refs plan =
    ((p : DeviceRef → Bool)
      → (in_plan_old p plan ≡ count p old_refs) × (in_plan_new p plan ≡ count p new_refs))
    × IsMatching plan.pairs plan.unmatched_old plan.unmatched_new

-- In a plan every device of the old node is paired or left over, once; every device of the new node is
-- paired, kept or deleted unpaired, once; paired devices have one endpoint and one type; and no device
-- that is left over has the endpoint and the type of one that is kept.
pub plan_replacement-IsPartition :
    (old_node : ℤ) (old_refs : List DeviceRef) (new_node : ℤ) (new_refs : List DeviceRef)
    (drop_new_node_device : Bool)
    → IsPartition old_refs new_refs
        (plan_replacement old_node old_refs new_node new_refs drop_new_node_device)
unfolding plan_replacement
plan_replacement-IsPartition old_node old_refs new_node new_refs true =
    let m = matched (sorted old_refs) (sorted new_refs) in
    let matching = matched-IsMatching (sorted old_refs) (sorted new_refs) in
    (
      λ p.
          let counted = count-matched p (sorted old_refs) (sorted new_refs) in
          (
            counted.0 ∙ count-sorted p old_refs,
            omega (
              arith,
              counted.1,
              count-sorted p new_refs,
              count-keep_refs p is_node_device m.left_new,
            ),
          ),
      (
        matching.0,
        All-map _ _ m.left_old
            (λ o.
              keep_refs-All (λ n. same_key o n ≡ false) (λ r. not (is_node_device r)) m.left_new)
            matching.1,
      ),
    )
plan_replacement-IsPartition old_node old_refs new_node new_refs false = (
  λ p.
      let counted = count-matched p (sorted old_refs) (sorted new_refs) in
      (counted.0 ∙ count-sorted p old_refs, omega (arith, counted.1, count-sorted p new_refs)),
  matched-IsMatching (sorted old_refs) (sorted new_refs),
)
