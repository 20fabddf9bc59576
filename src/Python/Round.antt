-- ===== src/Python/Round.antt =====
-- Python's `round` of the quotient of two natural numbers: to the nearest one, and to the even one
-- of two. The quotients that the program rounds are near to a half only where they are one, so
-- the floating-point quotient rounds to the same number.
use indigo_matter.Prelude.{
  ℕ, suc, ◌+◌, ◌*◌, ◌/◌, ◌%◌, ◌<◌, ◌≤◌, ◌≡◌, ltb, ◌==◌, if◌then◌else◌, arith, ◌⊎◌, inl, inr,
  Bool-cases, ltb→lt, not_ltb→le,
}
use native.Mathlib.Nat.{div-add-mod, mod-lt, mul-le-mul_right}

-- The quotient `q` with the remainder `r` by `d`, rounded.
rounded : ℕ → ℕ → ℕ → ℕ
rounded q r d =
    if ltb (r * 2) d then q else if ltb d (r * 2) then suc q else if q % 2 == 0 then q else suc q

unfoldable pub round_quotient : ℕ → ℕ → ℕ
unfolding rounded
round_quotient n d = rounded (n / d) (n % d) d

rounded_cases :
    (q r d : ℕ) → ((rounded q r d ≡ q) × (r * 2 ≤ d)) ⊎ ((rounded q r d ≡ suc q) × (d ≤ r * 2))
unfolding rounded
rounded_cases q r d = ground arith

-- No natural number is nearer than the rounded quotient.
unfoldable pub IsNearest : ℕ → ℕ → ℕ → Type 0
IsNearest n d q = (2 * (q * d) ≤ 2 * n + d) × (2 * n ≤ 2 * (q * d) + d)

rounded-IsNearest : (n d q r : ℕ) → q * d + r ≡ n → r < d → IsNearest n d (rounded q r d)
unfolding IsNearest
rounded-IsNearest n d q r h k = elim (rounded_cases q r d) [
  | inl c ↦ rw c.0 (omega arith, omega arith)
  | inr c ↦ rw c.0 (omega arith, omega arith)
]

pub round_quotient-IsNearest : (n d : ℕ) → 1 ≤ d → IsNearest n d (round_quotient n d)
unfolding round_quotient
round_quotient-IsNearest n d h =
    rounded-IsNearest n d (n / d) (n % d) (omega (arith, div-add-mod n d)) (mod-lt n h)

multiples_apart : (a b d : ℕ) → a < b → a * d + d ≤ b * d
multiples_apart a b d h = omega (arith, mul-le-mul_right d h)

-- A number nearer than a half is the rounded quotient.
pub round_quotient_lem :
    (n d q : ℕ) → 2 * n < 2 * (q * d) + d → 2 * (q * d) < 2 * n + d → round_quotient n d ≡ q
unfolding IsNearest
round_quotient_lem n d q h k =
    let near = round_quotient-IsNearest n d (omega arith) in
    elim (Bool-cases (ltb q (round_quotient n d))) [
      | inl over ↦ omega (
        arith,
        near,
        multiples_apart q (round_quotient n d) d (ltb→lt q (round_quotient n d) over),
      )
      | inr le ↦ elim (Bool-cases (ltb (round_quotient n d) q)) [
        | inl under ↦ omega (
          arith,
          near,
          multiples_apart (round_quotient n d) q d (ltb→lt (round_quotient n d) q under),
        )
        | inr ge ↦
            omega
              (arith, not_ltb→le q (round_quotient n d) le, not_ltb→le (round_quotient n d) q ge)
      ]
    ]
