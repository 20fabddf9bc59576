-- ===== src/Exports/Identity.antt =====
-- bridge_protocol.py: the identity under which a device is published, `indigo-<id>` or
-- `indigo-<id>~<generation>`, its parser and its successor.
pub mod Digits
pub mod RoundTrip
pub mod Examples
use Prim.Native.String
use indigo_matter.Prelude.{
  ℕ, zero, suc, ◌+◌, ◌-◌, ◌*◌, ◌/◌, ◌%◌, ◌^◌, String, Char, Bool, true, false, Option, none, some,
  List, [], ◌∷◌, ℤ, pos, negsuc, abs, ltb, ◌==◌, length, if◌then◌else◌,
}
use indigo_matter.Python.{codes, is_digit, Result, ok, err, value_error}

pub record PublishedId : Type 0 where
  pub device_id : ℤ
  pub generation : ℕ

abbrev pub published_id_max : ℕ
published_id_max = 32

abbrev pub js_max_safe_integer : ℕ
js_max_safe_integer = 2 ^ 53 - 1

-- The character of a decimal digit.
unfoldable pub digit : ℕ → Char
digit zero = "0"
digit (suc zero) = "1"
digit (suc (suc zero)) = "2"
digit (suc (suc (suc zero))) = "3"
digit (suc (suc (suc (suc zero)))) = "4"
digit (suc (suc (suc (suc (suc zero))))) = "5"
digit (suc (suc (suc (suc (suc (suc zero)))))) = "6"
digit (suc (suc (suc (suc (suc (suc (suc zero))))))) = "7"
digit (suc (suc (suc (suc (suc (suc (suc (suc zero)))))))) = "8"
digit _ = "9"

-- The decimal digits of `n` before `out`; `n` rounds are enough, since each divides by ten.
unfoldable pub digits_of : ℕ → ℕ → String → String
digits_of zero n out = String.◌∷◌ (digit n) out
digits_of (suc fuel) n out = elim (ltb n 10) [
  | true ↦ String.◌∷◌ (digit n) out
  | false ↦ digits_of fuel (n / 10) (String.◌∷◌ (digit (n % 10)) out)
]

-- `str(z)` before `out`
unfoldable pub str_int : ℤ → String → String
str_int (pos n) out = digits_of n n out
str_int (negsuc n) out = String.◌∷◌ "-" (digits_of (suc n) (suc n) out)

-- The text `indigo-` before `out`.
abbrev pub prefixed : String → String
prefixed out = String.◌∷◌ "i" (
    String.◌∷◌ "n"
      (String.◌∷◌ "d" (String.◌∷◌ "i" (String.◌∷◌ "g" (String.◌∷◌ "o" (String.◌∷◌ "-" out))))))

unfoldable pub published_id_for : ℤ → ℕ → String
unfolding str_int digits_of digit
published_id_for indigo_device_id generation =
    if generation == 1
    then prefixed (str_int indigo_device_id "")
    else prefixed (str_int indigo_device_id (String.◌∷◌ "~" (digits_of generation generation "")))

-- What is behind a prefix.
pub after_prefix : List ℕ → List ℕ → Option (List ℕ)
after_prefix [] s = some s
after_prefix (p ∷ ps) [] = none
after_prefix (p ∷ ps) (c ∷ s) = let rest = after_prefix ps s in if c == p then rest else none

-- `\d+`, ASCII digits only: their value and what is behind them.
pub read_digits : List ℕ → Bool → ℕ → Option (ℕ × List ℕ)
read_digits [] found n = if found then some (n, []) else none
read_digits (c ∷ s) found n =
    let more = read_digits s true (n * 10 + (c - 48)) in
    if is_digit c then more else if found then some (n, c ∷ s) else none

abbrev pub signed : Bool → ℕ → ℤ
signed false n = pos n
signed true zero = pos 0
signed true (suc n) = negsuc n

-- `(?:~(\d+))?\Z` and the test of the generation.
pub parse_generation : ℤ → List ℕ → Option PublishedId
parse_generation z [] = some (record { device_id = z; generation = 1 })
parse_generation z (c ∷ s) =
    if c == b'~'
    then elim (read_digits s false 0) [
      | some (generation, []) ↦
          if ltb generation 2
          then none
          else some (record { device_id = z; generation = generation })
      | _ ↦ none
    ]
    else none

pub parse_device : Bool → List ℕ → Option PublishedId
parse_device negative s = elim (read_digits s false 0) [
  | none ↦ none
  | some (n, rest) ↦
      if ltb js_max_safe_integer (abs (signed negative n))
      then none
      else parse_generation (signed negative n) rest
]

pub parse_signed : List ℕ → Option PublishedId
parse_signed [] = none
parse_signed (c ∷ s) = if c == b'-' then parse_device true s else parse_device false (c ∷ s)

unfoldable pub parse_published_id : String → Option PublishedId
parse_published_id value =
    if ltb published_id_max (length (codes value))
    then none
    else elim (after_prefix (codes "indigo-") (codes value)) [
      | none ↦ none
      | some rest ↦ parse_signed rest
    ]

unfoldable pub next_generation : String → Result String
next_generation published_as = elim (parse_published_id published_as) [
  | none ↦ err value_error
  | some parsed ↦ ok (published_id_for parsed.device_id (parsed.generation + 1))
]
