-- ===== src/Backup/Restore/Rejected.antt =====
-- fabric_backup.py: an archive that a restore rejects costs nothing.
use indigo_matter.Prelude.{
  String, Bool, true, false, ◌&&◌, ◌||◌, not, Option, none, some, List, [], ◌∷◌, ◌≡◌, refl, arith,
  inl, inr, ◌⊎◌, is_some, any, Bool-cases, Option-cases,
}
use indigo_matter.Backup.{World, Host}
use indigo_matter.Backup.Archive.{Archive, bridge_member_prefix, is_for, lands_inside, first_unsafe}
use indigo_matter.Backup.Stages.{
  Failure, unsafe_path, not_found, not_a_zip, corrupt, no_members, BridgePlan, done, failed,
  load_and_validate, plan_bridge_restore,
}
use indigo_matter.Backup.Restore.{Paths, preflight, restore_members, restore_backup}

abbrev pub is_memberless : List (String × String) → Bool
is_memberless [] = true
is_memberless _ = false

module _ (realpath : String → String) where
  -- Some member of a side would be written outside its directory.
  abbrev pub is_unsafe : List (String × String) → String → String → Bool
  is_unsafe members dest prefix =
      any (λ m. is_for prefix m.0 && not (lands_inside realpath dest prefix m.0)) members

  abbrev pub is_unsafe_plan : List (String × String) → Option BridgePlan → Bool
  is_unsafe_plan members none = false
  is_unsafe_plan members (some p) = is_unsafe members p.dest bridge_member_prefix

  abbrev pub is_rejected : Option Archive → Paths → Bool
  is_rejected none paths = true
  is_rejected (some a) paths =
      not a.is_zipfile
      || is_some a.bad_member
      || is_memberless a.members
      || is_unsafe a.members paths.storage_path ""
      || is_unsafe_plan a.members
          (plan_bridge_restore a.members paths.storage_path paths.bridge_storage_path)

  first_unsafe-none :
      (members : List (String × String)) (dest prefix : String)
      → first_unsafe realpath members dest prefix ≡ none
      → is_unsafe members dest prefix ≡ false
  unfolding first_unsafe
  first_unsafe-none [] dest prefix h = refl
  first_unsafe-none ((n, content) ∷ rest) dest prefix h =
      ground (arith, first_unsafe-none rest dest prefix)

  preflight_unsafe :
      (members : List (String × String)) (storage : String) (plan : Option BridgePlan)
      → (is_unsafe members storage "" || is_unsafe_plan members plan) ≡ true
      → (f : Failure) × (preflight realpath members storage plan ≡ failed f)
  unfolding preflight
  preflight_unsafe members storage none bad =
      elim (Option-cases (first_unsafe realpath members storage "")) [
        | inl e ↦ absurd (ground (arith, first_unsafe-none members storage "" e))
        | inr (n, e) ↦ (unsafe_path n, rw (e, preflight) refl)
      ]
  preflight_unsafe members storage (some p) bad =
      elim (Option-cases (first_unsafe realpath members storage "")) [
        | inr (n, e) ↦ (unsafe_path n, rw (e, preflight) refl)
        | inl e ↦ elim (Option-cases (first_unsafe realpath members p.dest bridge_member_prefix)) [
          | inr (n, f) ↦ (unsafe_path n, rw (e, f, preflight) refl)
          | inl f ↦ absurd (
              ground (
                arith,
                first_unsafe-none members storage "" e,
                first_unsafe-none members p.dest bridge_member_prefix f,
              ))
        ]
      ]

load_and_validate-cases :
    (a : Archive)
    → ((f : Failure) × (load_and_validate (some a) ≡ failed f))
      ⊎ ((load_and_validate (some a) ≡ done a.members)
          × ((not a.is_zipfile || is_some a.bad_member || is_memberless a.members) ≡ false))
unfolding load_and_validate
load_and_validate-cases a = elim (Bool-cases a.is_zipfile) [
  | inr e ↦ inl (not_a_zip, rw e refl)
  | inl e ↦ elim (Option-cases a.bad_member) [
    | inr (n, f) ↦ inl (corrupt n, rw (e, f) refl)
    | inl f ↦ elim (Bool-cases (is_memberless a.members)) [
      | inl g ↦ inl (no_members, ground arith)
      | inr g ↦ inr (ground arith, ground arith)
    ]
  ]
]

-- A bad archive is rejected before anything is touched: if it is no file or no zip file, has a
-- corrupt member or none, or holds a member of a side to be restored that would be written outside
-- that side's directory, the restore fails and leaves the world, the calls included, as it was.
pub restore_backup_rejected :
    (realpath : String → String) (h : Host) (archive : Option Archive) (paths : Paths) (w : World)
    → is_rejected realpath archive paths ≡ true
    → (f : Failure) × (restore_backup realpath h archive paths w ≡ (failed f, w))
unfolding restore_backup restore_members load_and_validate
restore_backup_rejected realpath h none paths w bad = (not_found, refl)
restore_backup_rejected realpath h (some a) paths w bad = elim (load_and_validate-cases a) [
  | inl (f, e) ↦ (f, rw e refl)
  | inr (e, sound) ↦
      let plan = plan_bridge_restore a.members paths.storage_path paths.bridge_storage_path in
      let found = preflight_unsafe realpath a.members paths.storage_path plan (rw sound at bad) in
      (found.0, rw (e, found.1) refl)
]
