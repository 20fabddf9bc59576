-- ===== src/Exports/Identity/Digits.antt =====
-- Reading back the decimal digits that were printed.
use indigo_matter.Prelude.{
  List, [], ◌∷◌, ℕ, zero, suc, ◌+◌, ◌*◌, ◌/◌, ◌%◌, ◌^◌, ◌≤◌, ◌<◌, String, Bool, true, ◌≡◌, refl,
  arith, code, length, ap, ◌∙◌, lt→ltb, le→ltb, le→leb,
}
use native.Mathlib.Decide.{dec_lt}
use native.Mathlib.Nat.{pow-suc}
use indigo_matter.Python.{codes, is_digit}
use indigo_matter.Exports.Identity.{digit, digits_of, read_digits}

pub code-digit : (d : ℕ) → d < 10 → code (digit d) ≡ 48 + d
unfolding digit
code-digit zero h = refl
code-digit (suc zero) h = refl
code-digit (suc (suc zero)) h = refl
code-digit (suc (suc (suc zero))) h = refl
code-digit (suc (suc (suc (suc zero)))) h = refl
code-digit (suc (suc (suc (suc (suc zero))))) h = refl
code-digit (suc (suc (suc (suc (suc (suc zero)))))) h = refl
code-digit (suc (suc (suc (suc (suc (suc (suc zero))))))) h = refl
code-digit (suc (suc (suc (suc (suc (suc (suc (suc zero)))))))) h = refl
code-digit (suc (suc (suc (suc (suc (suc (suc (suc (suc zero))))))))) h = refl
code-digit (suc (suc (suc (suc (suc (suc (suc (suc (suc (suc d)))))))))) h = absurd (omega arith)

is_digit-digit : (d : ℕ) → d < 10 → is_digit (48 + d) ≡ true
unfolding is_digit
is_digit-digit d h = rw (le→leb 48 (48 + d) (omega arith), le→leb (48 + d) 57 (omega arith))

read_digits-digit :
    (d : ℕ) (out : String) (found : Bool) (n : ℕ)
    → d < 10
    → read_digits (codes (String.◌∷◌ (digit d) out)) found n
      ≡ read_digits (codes out) true (n * 10 + d)
unfolding read_digits
read_digits-digit d out found n h =
    rw (code-digit d h, is_digit-digit d h)
      (ap (λ m. read_digits (codes out) true (n * 10 + m)) (omega arith))

digits_of_small :
    (fuel n : ℕ) (out : String)
    → n ≤ fuel
    → n < 10
    → digits_of fuel n out ≡ String.◌∷◌ (digit n) out
unfolding digits_of
digits_of_small zero n out f h = refl
digits_of_small (suc fuel) n out f h = rw (lt→ltb n 10 h, digits_of)

digits_of_large :
    (fuel n : ℕ) (out : String)
    → 10 ≤ n
    → digits_of (suc fuel) n out ≡ digits_of fuel (n / 10) (String.◌∷◌ (digit (n % 10)) out)
unfolding digits_of
digits_of_large fuel n out h = rw (le→ltb n 10 h, digits_of)

-- The digits that `n` is printed with are read back as `n`, whatever stands behind them.
pub read_digits-digits_of :
    (fuel n : ℕ) (out : String) (found : Bool)
    → n ≤ fuel
    → read_digits (codes (digits_of fuel n out)) found 0 ≡ read_digits (codes out) true n
read_digits-digits_of zero n out found h = rw (digits_of_small zero n out h (omega arith)) (
    read_digits-digit n out found 0 (omega arith) ∙ ap (read_digits (codes out) true) (omega arith))
read_digits-digits_of (suc fuel) n out found h = elim (dec_lt n 10) [
  | yes small ↦
      rw (digits_of_small (suc fuel) n out h small)
        (read_digits-digit n out found 0 small ∙ ap (read_digits (codes out) true) (omega arith))
  | no large ↦ rw (digits_of_large fuel n out (omega arith)) (
      read_digits-digits_of fuel (n / 10) (String.◌∷◌ (digit (n % 10)) out) found (omega arith)
      ∙ read_digits-digit (n % 10) out true (n / 10) (omega arith)
      ∙ ap (read_digits (codes out) true) (omega arith))
]

-- A number below 10 ^ (k + 1) has at most k + 1 digits.
pub length-digits_of :
    (k fuel n : ℕ) (out : String)
    → n ≤ fuel
    → n < 10 ^ suc k
    → length (codes (digits_of fuel n out)) ≤ suc k + length (codes out)
length-digits_of k zero n out f h = rw (digits_of_small zero n out f (omega arith)) (omega arith)
length-digits_of zero (suc fuel) n out f h = rw (digits_of_small (suc fuel) n out f h) (omega arith)
length-digits_of (suc k) (suc fuel) n out f h = elim (dec_lt n 10) [
  | yes small ↦ rw (digits_of_small (suc fuel) n out f small) (omega arith)
  | no large ↦ rw (digits_of_large fuel n out (omega arith)) (
      omega (
        arith,
        length-digits_of k fuel (n / 10) (String.◌∷◌ (digit (n % 10)) out) (omega arith)
            (omega (arith, pow-suc 10 (suc k))),
      ))
]

-- The first character of a printed number is a digit.
abbrev pub StartsWithDigit : List ℕ → Type 0
StartsWithDigit [] = ⊥
StartsWithDigit (c ∷ s) = 48 ≤ c

pub digits_of-StartsWithDigit :
    (fuel n : ℕ) (out : String) → n ≤ fuel → StartsWithDigit (codes (digits_of fuel n out))
digits_of-StartsWithDigit zero n out h =
    rw (digits_of_small zero n out h (omega arith)) (omega (arith, code-digit n (omega arith)))
digits_of-StartsWithDigit (suc fuel) n out h = elim (dec_lt n 10) [
  | yes small ↦ rw (digits_of_small (suc fuel) n out h small) (omega (arith, code-digit n small))
  | no large ↦
      rw (digits_of_large fuel n out (omega arith))
        (digits_of-StartsWithDigit fuel (n / 10) (String.◌∷◌ (digit (n % 10)) out) (omega arith))
]
