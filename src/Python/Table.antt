-- ===== src/Python/Table.antt =====
-- A Python `dict` whose keys have a decidable equality, in insertion order.
use mathlib.Core.Path.{ap}
use indigo_matter.Prelude.{
  String, Bool, true, Option, none, some, List, [], ◌∷◌, ℤ, ◌≡◌, ◌↔◌, refl, arith, str_eq, eq_iff,
  eq_ℤ, eq_ℤ→eq, if◌then◌else◌,
}

-- The equality of keys.
pub record Key (K : Type 0) : Type 0 where
  pub beq : K → K → Bool
  pub beq_iff : (a b : K) → (beq a b ≡ true) ↔ (a ≡ b)

eq_ℤ_refl : (a : ℤ) → eq_ℤ a a ≡ true
eq_ℤ_refl a = ground arith

pub eq_ℤ_iff : (a b : ℤ) → (eq_ℤ a b ≡ true) ↔ (a ≡ b)
eq_ℤ_iff a b = (eq_ℤ→eq a b, λ e. rw e (eq_ℤ_refl b))

instance abbrev pub int_key : Key ℤ
int_key = record { beq = eq_ℤ; beq_iff = eq_ℤ_iff }

instance abbrev pub text_key : Key String
text_key = record { beq = str_eq; beq_iff = eq_iff }

abbrev pub Table : Type 0 → Type 0 → Type 0
Table K V = List (K × V)

module _ {K V : Type 0} ⦃e : Key K⦄ where
  -- `t.get(k)`
  unfoldable pub lookup : K → Table K V → Option V
  lookup k [] = none
  lookup k ((j, v) ∷ t) = if e.beq j k then some v else lookup k t

  -- `t[k] = v`
  unfoldable pub insert : K → V → Table K V → Table K V
  insert k v [] = (k, v) ∷ []
  insert k v ((j, w) ∷ t) = if e.beq j k then (j, v) ∷ t else (j, w) ∷ insert k v t

  -- `t.pop(k, None)`
  unfoldable pub remove : K → Table K V → Table K V
  remove k [] = []
  remove k ((j, v) ∷ t) = if e.beq j k then t else (j, v) ∷ remove k t

  -- No key stands twice.
  abbrev pub IsUnique : Table K V → Type 0
  IsUnique [] = Unit
  IsUnique ((k, v) ∷ t) = (lookup k t ≡ none) × IsUnique t

  pub lookup-insert :
      (k j : K) (v : V) (t : Table K V)
      → lookup j (insert k v t) ≡ (if e.beq k j then some v else lookup j t)
  unfolding lookup insert
  lookup-insert k j v [] = refl
  lookup-insert k j v ((i, w) ∷ t) =
      ground (arith, e.beq_iff k j, e.beq_iff i k, e.beq_iff i j, lookup-insert k j v t)

  pub lookup-insert_same : (k : K) (v : V) (t : Table K V) → lookup k (insert k v t) ≡ some v
  lookup-insert_same k v t = rw (lookup-insert, (e.beq_iff k k).1 refl)

  pub insert-IsUnique : (k : K) (v : V) (t : Table K V) → IsUnique t → IsUnique (insert k v t)
  unfolding lookup insert
  insert-IsUnique k v [] h = (refl, tt)
  insert-IsUnique k v ((i, w) ∷ t) h =
      ground (arith, e.beq_iff i k, e.beq_iff k i, lookup-insert k i v t, insert-IsUnique k v t h.1)

  pub lookup-remove :
      (k j : K) (t : Table K V)
      → IsUnique t
      → lookup j (remove k t) ≡ (if e.beq k j then none else lookup j t)
  unfolding lookup remove
  lookup-remove k j [] h = ground arith
  lookup-remove k j ((i, w) ∷ t) h = ground (
    arith,
    e.beq_iff k j,
    e.beq_iff i k,
    e.beq_iff i j,
    lookup-remove k j t h.1,
    ap (λ (x : K). lookup x t),
  )

  pub remove-IsUnique : (k : K) (t : Table K V) → IsUnique t → IsUnique (remove k t)
  unfolding lookup remove
  remove-IsUnique k [] h = tt
  remove-IsUnique k ((i, w) ∷ t) h =
      ground (arith, e.beq_iff k i, lookup-remove k i t h.1, remove-IsUnique k t h.1)
