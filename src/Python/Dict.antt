-- ===== src/Python/Dict.antt =====
-- A Python `dict` with text keys: `d.get(k)`, `k in d`, `d[k] = v`, `del d[k]`, and the
-- comprehension that drops keys.
use indigo_matter.Prelude.{
  String, Bool, true, Option, none, some, List, ◌≡◌, refl, ap, arith, str_eq, eq_iff, is_some, any,
  if◌then◌else◌,
}
use indigo_matter.Python.{Json, Fields, null, end, field}

unfoldable pub lookup : String → Fields → Option Json
lookup k end = none
lookup k (field j v d) = if str_eq j k then some v else lookup k d

-- `d.get(k)`: a key that is missing reads as `None`.
abbrev pub get : String → Fields → Json
get k d = elim (lookup k d) [ none ↦ null | some v ↦ v ]

-- `k in d`
abbrev pub has : String → Fields → Bool
has k d = is_some (lookup k d)

-- `d[k] = v` keeps the place of a key that is there.
unfoldable pub insert : String → Json → Fields → Fields
insert k v end = field k v end
insert k v (field j w d) = if str_eq j k then field j v d else field j w (insert k v d)

-- `{key: value for key, value in d.items() if key not in ks}`
unfoldable pub without : List String → Fields → Fields
without ks end = end
without ks (field j v d) =
    let rest = without ks d in if any (str_eq j) ks then rest else field j v rest

pub lookup-insert :
    (k j : String) (v : Json) (d : Fields)
    → lookup j (insert k v d) ≡ (if str_eq k j then some v else lookup j d)
unfolding lookup insert
lookup-insert k j v end = refl
lookup-insert k j v (field i w d) =
    ground (arith, eq_iff k j, eq_iff i k, eq_iff i j, lookup-insert k j v d)

any-eq :
    (i j : String) (ks : List String) → str_eq i j ≡ true → any (str_eq i) ks ≡ any (str_eq j) ks
any-eq i j ks e = ap (λ (s : String). any (str_eq s) ks) ((eq_iff i j).0 e)

pub lookup-without :
    (ks : List String) (j : String) (d : Fields)
    → lookup j (without ks d) ≡ (if any (str_eq j) ks then none else lookup j d)
unfolding lookup without
lookup-without ks j end = ground arith
lookup-without ks j (field i w d) = ground (arith, eq_iff i j, any-eq i j ks, lookup-without ks j d)
