-- ===== src/Exports/Identity/RoundTrip.antt =====
-- Publishing an identity and parsing it, and what a parsed identity satisfies.
use indigo_matter.Prelude.{
  ℕ, suc, ◌+◌, ◌^◌, ◌≤◌, ◌<◌, String, Bool, true, false, some, List, [], ◌∷◌, ℤ, pos, negsuc, abs,
  ◌≡◌, refl, arith, length, ◌∙◌, ◌==◌, ==→eq, sym, inl, inr, Option-cases, le→ltb, if◌then◌else◌,
}
use native.Mathlib.Decide.{dec_le}
use indigo_matter.Python.{codes, is_digit, ok}
use indigo_matter.Exports.Identity.{
  PublishedId, digits_of, str_int, prefixed, after_prefix, published_id_for, read_digits, signed,
  parse_generation, parse_device, parse_signed, parse_published_id, next_generation,
  js_max_safe_integer, published_id_max,
}
use indigo_matter.Exports.Identity.Digits.{
  read_digits-digits_of, length-digits_of, StartsWithDigit, digits_of-StartsWithDigit,
}

-- What stands behind the device id, when the test for generation 1 gives `b`.
abbrev suffix : Bool → ℕ → String
suffix b g = if b then "" else String.◌∷◌ "~" (digits_of g g "")

read_digits-suffix :
    (b : Bool) (g n : ℕ) → read_digits (codes (suffix b g)) true n ≡ some (n, codes (suffix b g))
unfolding read_digits is_digit
read_digits-suffix true g n = refl
read_digits-suffix false g n = refl

parse_generation-suffix :
    (b : Bool) (z : ℤ) (g : ℕ)
    → (g == 1) ≡ b
    → 1 ≤ g
    → parse_generation z (codes (suffix b g)) ≡ some (record { device_id = z; generation = g })
unfolding parse_generation
parse_generation-suffix true z g e h = rw (==→eq g 1 e)
parse_generation-suffix false z g e h =
    rw (
      read_digits-digits_of g g "" false (omega arith),
      read_digits_end g,
      le→ltb g 2 (ground arith),
    )
  where
    read_digits_end : (n : ℕ) → read_digits [] true n ≡ some (n, [])
    read_digits_end n = unfold read_digits in refl

parse_device_read :
    (negative : Bool) (n : ℕ) (s rest : List ℕ)
    → read_digits s false 0 ≡ some (n, rest)
    → abs (signed negative n) ≤ js_max_safe_integer
    → parse_device negative s ≡ parse_generation (signed negative n) rest
unfolding parse_device
parse_device_read negative n s rest e small = ground arith

parse_device-digits_of :
    (negative b : Bool) (n g : ℕ)
    → (g == 1) ≡ b
    → abs (signed negative n) ≤ js_max_safe_integer
    → 1 ≤ g
    → parse_device negative (codes (digits_of n n (suffix b g)))
      ≡ some (record { device_id = signed negative n; generation = g })
parse_device-digits_of negative b n g e small h =
    parse_device_read negative n _ (codes (suffix b g))
      (read_digits-digits_of n n (suffix b g) false (omega arith) ∙ read_digits-suffix b g n) small
    ∙ parse_generation-suffix b (signed negative n) g e h

parse_signed_digit : (s : List ℕ) → StartsWithDigit s → parse_signed s ≡ parse_device false s
unfolding parse_signed
parse_signed_digit [] h = absurd h
parse_signed_digit (c ∷ s) h = ground arith

parse_signed-str_int :
    (z : ℤ) (b : Bool) (g : ℕ)
    → (g == 1) ≡ b
    → abs z ≤ js_max_safe_integer
    → 1 ≤ g
    → parse_signed (codes (str_int z (suffix b g)))
      ≡ some (record { device_id = z; generation = g })
unfolding parse_signed str_int
parse_signed-str_int (pos n) b g e small h =
    parse_signed_digit _ (digits_of-StartsWithDigit n n (suffix b g) (omega arith))
    ∙ parse_device-digits_of false b n g e small h
parse_signed-str_int (negsuc n) b g e small h = parse_device-digits_of true b (suc n) g e small h

length-suffix : (b : Bool) (g : ℕ) → g < 10 ^ 7 → length (codes (suffix b g)) ≤ 8
length-suffix true g h = omega arith
length-suffix false g h = omega (arith, length-digits_of 6 g g "" (omega arith) h)

length-str_int :
    (z : ℤ) (out : String)
    → abs z ≤ js_max_safe_integer
    → length (codes (str_int z out)) ≤ 17 + length (codes out)
unfolding str_int
length-str_int (pos n) out h =
    omega (arith, length-digits_of 15 n n out (omega arith) (omega arith))
length-str_int (negsuc n) out h =
    omega (arith, length-digits_of 15 (suc n) (suc n) out (omega arith) (omega arith))

parse_prefixed :
    (s : String) → length (codes s) ≤ 25 → parse_published_id (prefixed s) ≡ parse_signed (codes s)
unfolding parse_published_id after_prefix
parse_prefixed s h = rw (le→ltb published_id_max (length (codes (prefixed s))) (omega arith))

published_id_for_lem :
    (z : ℤ) (g : ℕ) → published_id_for z g ≡ prefixed (str_int z (suffix (g == 1) g))
unfolding published_id_for
published_id_for_lem z g = ground arith

-- A device id within JavaScript's safe integers and a generation from 1 to 9,999,999 are published
-- as a text that parses back to the two of them.
pub parse_published_id-published_id_for :
    (z : ℤ) (g : ℕ)
    → abs z ≤ js_max_safe_integer
    → 1 ≤ g
    → g < 10 ^ 7
    → parse_published_id (published_id_for z g) ≡ some (record { device_id = z; generation = g })
parse_published_id-published_id_for z g small h few = rw (published_id_for_lem z g) (
    parse_prefixed (str_int z (suffix (g == 1) g))
      (omega (arith, length-str_int z (suffix (g == 1) g) small, length-suffix (g == 1) g few))
    ∙ parse_signed-str_int z (g == 1) g refl small h)

-- The successor of a published identity is that of the same device, one generation on.
pub next_generation-published_id_for :
    (z : ℤ) (g : ℕ)
    → abs z ≤ js_max_safe_integer
    → 1 ≤ g
    → g < 10 ^ 7
    → next_generation (published_id_for z g) ≡ ok (published_id_for z (g + 1))
unfolding next_generation
next_generation-published_id_for z g small h few =
    rw (parse_published_id-published_id_for z g small h few, next_generation)

-- What the parser accepts.
pub record IsLawful (p : PublishedId) : Type 0 where
  pub safe : abs p.device_id ≤ js_max_safe_integer
  pub generated : 1 ≤ p.generation

parse_generation-IsLawful :
    (z : ℤ) (s : List ℕ) {p : PublishedId}
    → abs z ≤ js_max_safe_integer
    → parse_generation z s ≡ some p
    → IsLawful p
unfolding parse_generation
parse_generation-IsLawful z s small h = ground arith

parse_device-IsLawful :
    (negative : Bool) (s : List ℕ) {p : PublishedId} → parse_device negative s ≡ some p → IsLawful p
parse_device-IsLawful negative s h = elim (Option-cases (read_digits s false 0)) [
  | inl e ↦ absurd (unfold parse_device in ground arith)
  | inr (found, e) ↦ elim (dec_le (abs (signed negative found.0)) js_max_safe_integer) [
    | yes small ↦
        parse_generation-IsLawful (signed negative found.0) found.1 small
          (sym (parse_device_read negative found.0 s found.1 e small) ∙ h)
    | no large ↦ absurd (unfold parse_device in ground arith)
  ]
]

parse_signed-IsLawful : (s : List ℕ) {p : PublishedId} → parse_signed s ≡ some p → IsLawful p
unfolding parse_signed
parse_signed-IsLawful [] h = cc
parse_signed-IsLawful (c ∷ s) {p} h =
    ground
      (arith, parse_device-IsLawful true s {p = p}, parse_device-IsLawful false (c ∷ s) {p = p})

-- An identity that is accepted has at most 32 characters, a safe device id and a generation of at
-- least 1.
pub parse_published_id-IsLawful :
    (value : String) {p : PublishedId}
    → parse_published_id value ≡ some p
    → IsLawful p × (length (codes value) ≤ published_id_max)
unfolding parse_published_id
parse_published_id-IsLawful value {p} h =
    elim (Option-cases (after_prefix (codes "indigo-") (codes value))) [
      | inl e ↦ absurd (ground arith)
      | inr (rest, e) ↦ ground (arith, parse_signed-IsLawful rest {p = p})
    ]
