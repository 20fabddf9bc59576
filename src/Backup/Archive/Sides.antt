-- ===== src/Backup/Archive/Sides.antt =====
-- fabric_backup.py: the two sides of an archive, and what makes one unsafe.
use mathlib.Core.List.{Perm, perm_middle}
use mathlib.Core.List.Perm
use text.Mathlib.Text.{starts_with}
use indigo_matter.Prelude.{
  String, false, not, List, [], ◌∷◌, ◌++◌, ◌≡◌, refl, ap, ◌∙◌, inl, inr, All, str_eq, Bool-cases,
}
use indigo_matter.Backup.Archive.{members_for, is_for, bridge_member_prefix}

-- A member other than the bare prefix is on one side exactly.
is_for_other :
    (n : String)
    → str_eq n bridge_member_prefix ≡ false
    → is_for bridge_member_prefix n ≡ not (is_for "" n)
unfolding is_for
is_for_other n other = elim (Bool-cases (starts_with n bridge_member_prefix)) [
  | inl e ↦ rw (e, other) refl
  | inr e ↦ rw e refl
]

-- The two sides of an archive are all of its members, each once, if none is the bare prefix.
pub members_for_perm :
    (members : List (String × String))
    → All (λ m. str_eq m.0 bridge_member_prefix ≡ false) members
    → Perm (members_for members "" ++ members_for members bridge_member_prefix) members
unfolding members_for
members_for_perm [] h = Perm.refl []
members_for_perm ((n, content) ∷ rest) h = elim (Bool-cases (is_for "" n)) [
  | inl e ↦
      rw (e, is_for_other n h.0 ∙ ap not e) (Perm.cons (n, content) (members_for_perm rest h.1))
  | inr e ↦
      rw (e, is_for_other n h.0 ∙ ap not e)
        (Perm.trans (perm_middle (members_for rest "") (members_for rest bridge_member_prefix))
          (Perm.cons (n, content) (members_for_perm rest h.1)))
]
