-- ===== src/Replace/Safe.antt =====
-- node_replace.py, `refusal_reasons`: a replacement that is not refused.
use indigo_matter.Prelude.{
  cons_is_not_nil, String, Bool, true, false, ◌&&◌, not, List, [], ◌∷◌, ◌++◌, ℤ, eq_ℤ, any, ◌≡◌,
  refl, arith, All, Bool-cases, inl, inr,
}
use indigo_matter.Python.Table.{Table}
use indigo_matter.Replace.{
  DeviceRef, ReplacementPlan, Reason, same_node, no_pairs, on_both_nodes, shapes_differ, exported,
  referenced, unchecked, is_empty, shape_matches, news, olds, share_device, is_referenced,
  is_unchecked, reasons_for, when, deleted, refusal_reasons,
}

-- Nothing speaks against the plan.
pub record IsSafe (plan : ReplacementPlan) (allow_mismatch : Bool) (exported_ids : List ℤ)
    (references : Table ℤ (List String)) (reference_errors : Table ℤ String) : Type 0 where
  pub distinct : eq_ℤ plan.old_node plan.new_node ≡ false
  pub paired : is_empty plan.pairs ≡ false
  pub apart :
      share_device
        (olds plan.pairs ++ plan.unmatched_old)
        (news plan.pairs ++ (plan.unmatched_new ++ plan.extra_deletes))
      ≡ false
  pub shaped : allow_mismatch ≡ false → shape_matches plan ≡ true
  pub unexported : All (λ r. any (eq_ℤ r.dev_id) exported_ids ≡ false) (deleted plan)
  pub unreferenced : All (λ r. is_referenced references r ≡ false) (deleted plan)
  pub checked : All (λ r. is_unchecked reference_errors r ≡ false) (deleted plan)

append_empty : (a b : List Reason) → (a ++ b) ≡ [] → (a ≡ []) × (b ≡ [])
append_empty [] b h = (refl, h)
append_empty (x ∷ a) b h = absurd (cons_is_not_nil h)

when_empty : (b : Bool) (reason : Reason) → when b reason ≡ [] → b ≡ false
when_empty true reason h = absurd (cons_is_not_nil h)
when_empty false reason h = refl

reasons_for-All :
    (p : DeviceRef → Bool) (reason : DeviceRef → Reason) (l : List DeviceRef)
    → reasons_for p reason l ≡ []
    → All (λ r. p r ≡ false) l
unfolding reasons_for
reasons_for-All p reason [] h = tt
reasons_for-All p reason (r ∷ l) h = elim (Bool-cases (p r)) [
  | inl bad ↦ absurd (cons_is_not_nil (rw bad at h))
  | inr fine ↦ (fine, reasons_for-All p reason l (rw fine at h))
]

shaped_lem : (s a : Bool) → (not s && not a) ≡ false → a ≡ false → s ≡ true
shaped_lem s a h k = ground arith

-- A replacement that is not refused pairs two different nodes with a device to rebind; no device is on
-- both nodes; the shapes match unless a mismatch is allowed; and no device that would be deleted is
-- exported or referenced, or failed to be checked for references.
pub refusal_reasons-IsSafe :
    (plan : ReplacementPlan) (allow_mismatch : Bool) (exported_ids : List ℤ)
    (references : Table ℤ (List String)) (reference_errors : Table ℤ String)
    → refusal_reasons plan allow_mismatch exported_ids references reference_errors ≡ []
    → IsSafe plan allow_mismatch exported_ids references reference_errors
unfolding refusal_reasons
refusal_reasons-IsSafe plan allow_mismatch exported_ids references reference_errors h =
    let (a, h₁) = append_empty _ _ h in
    let (b, h₂) = append_empty _ _ h₁ in
    let (c, h₃) = append_empty _ _ h₂ in
    let (d, h₄) = append_empty _ _ h₃ in
    let (e, h₅) = append_empty _ _ h₄ in
    let (f, g) = append_empty _ _ h₅ in
    record {
      distinct = when_empty _ same_node a;
      paired = when_empty _ no_pairs b;
      apart = when_empty _ on_both_nodes c;
      shaped = shaped_lem _ allow_mismatch (when_empty _ shapes_differ d);
      unexported = reasons_for-All _ exported (deleted plan) e;
      unreferenced = reasons_for-All _ referenced (deleted plan) f;
      checked = reasons_for-All _ unchecked (deleted plan) g;
    }
