-- ===== src/Python.antt =====
-- The Python values that the plugin reads from outside: `dict`, `list`, `str`, `int`, `bool`,
-- `float` and `None`, as json.loads gives them, and the conversions `int(…)` and `bool(…)`.
-- A text is read as its code points; `int(str)` is modelled for ASCII texts.
pub mod Dict
pub mod Round
pub mod Sorting
pub mod Table
use indigo_matter.Prelude.{
  ℕ, zero, suc, ◌+◌, ◌-◌, ◌*◌, String, Bool, true, false, ◌&&◌, ◌||◌, not, Option, none, some, List,
  [], ◌∷◌, ℤ, pos, negsuc, code, ◌≡◌, refl, ◌⊎◌, inl, inr, leb, ltb, ◌==◌, if◌then◌else◌,
}
use mathlib.Core.List.{reverse}

-- A float is seen only through `int(…)`, which truncates, `bool(…)`, and a comparison with an `int`.
pub data Float : Type 0 where
  finite : ℤ → Bool → Float  -- the integer part, and whether it is all
  infinite : Float
  nan : Float

mutual
  pub data Json : Type 0 where
    null : Json
    bool : Bool → Json
    int : ℤ → Json
    float : Float → Json
    str : String → Json
    list : Items → Json
    dict : Fields → Json

  pub data Items : Type 0 where
    nil : Items
    cons : Json → Items → Items

  -- A `dict` in insertion order.
  pub data Fields : Type 0 where
    end : Fields
    field : String → Json → Fields → Fields

abbrev pub codes : String → List ℕ
codes String.[] = []
codes (String.◌∷◌ c s) = code c ∷ codes s

pub data Error : Type 0 where
  value_error type_error overflow_error key_error attribute_error save_error : Error

pub data Result {ℓ} (A : Type ℓ) : Type ℓ where
  ok : A → Result A
  err : Error → Result A

-- A sequence of two computations: an exception of the first ends it.
infixl 5 ◌>>=◌ ◌>>◌
abbrev pub ◌>>=◌ {ℓ κ} :
    {Value : Type ℓ} {Next : Type κ} → Result Value → (Value → Result Next) → Result Next
ok value >>= next = next value
err raised >>= next = err raised

abbrev pub ◌>>◌ {κ} : {Next : Type κ} → Result (Unit {0}) → Result Next → Result Next
check >> next = check >>= λ _. next

abbrev pub raise_if : Bool → Error → Result (Unit {0})
raise_if true e = err e
raise_if false e = ok tt

pub Result-cases {ℓ} :
    {A : Type ℓ} (r : Result A) → ((a : A) × (r ≡ ok a)) ⊎ ((e : Error) × (r ≡ err e))
Result-cases (ok a) = inl (a, refl)
Result-cases (err e) = inr (e, refl)

pub ok_injective {ℓ} : {A : Type ℓ} (a b : A) → ◌≡◌ {A = Result A} (ok a) (ok b) → a ≡ b
ok_injective a b h = cc

pub >>-eq-ok {ℓ} :
    {B : Type ℓ} (m : Result (Unit {0})) (k : Result B) {b : B}
    → (m >> k) ≡ ok b
    → (m ≡ ok tt) × (k ≡ ok b)
>>-eq-ok (ok tt) k h = (refl, h)
>>-eq-ok (err e) k h = cc

pub >>=-eq-ok {ℓ κ} :
    {Value : Type ℓ} {Next : Type κ} (first : Result Value) (next : Value → Result Next)
    {last : Next}
    → (first >>= next) ≡ ok last
    → (value : Value) × (first ≡ ok value) × (next value ≡ ok last)
>>=-eq-ok (ok value) next done = (value, refl, done)
>>=-eq-ok (err raised) next done = cc

-- `str.isspace` of an ASCII character.
is_space : ℕ → Bool
is_space c = c == 32 || (leb 9 c && leb c 13) || (leb 28 c && leb c 31)

unfoldable pub is_digit : ℕ → Bool
is_digit c = leb 48 c && leb c 57

strip_front : List ℕ → List ℕ
strip_front [] = []
strip_front (c ∷ s) = let rest = strip_front s in if is_space c then rest else c ∷ s

-- `str.strip()`
pub strip : List ℕ → List ℕ
unfolding strip_front is_space
strip s = reverse (strip_front (reverse (strip_front s)))

abbrev is_empty_text : String → Bool
is_empty_text String.[] = true
is_empty_text _ = false

-- The two texts, one after the other.
unfoldable pub joined : String → String → String
joined String.[] t = t
joined (String.◌∷◌ c s) t = String.◌∷◌ c (joined s t)

strip_front_text : String → String
unfolding is_space
strip_front_text String.[] = String.[]
strip_front_text (String.◌∷◌ c s) =
    let rest = strip_front_text s in if is_space (code c) then rest else String.◌∷◌ c s

strip_back_text : String → String
unfolding is_space
strip_back_text String.[] = String.[]
strip_back_text (String.◌∷◌ c s) =
    let rest = strip_back_text s in
    if is_empty_text rest && is_space (code c) then String.[] else String.◌∷◌ c rest

-- `str.strip()`, as a text
unfoldable pub strip_text : String → String
unfolding strip_front_text strip_back_text
strip_text s = strip_back_text (strip_front_text s)

-- Digits, with single underscores between them; the flag says that a digit stands before.
scan_digits : List ℕ → Bool → ℕ → Option ℕ
scan_digits [] after n = if after then some n else none
scan_digits (c ∷ s) after n =
    let digit = scan_digits s true (n * 10 + (c - 48)) in
    let joined = scan_digits s false n in
    if is_digit c then digit else if c == b'_' && after then joined else none

negated : Option ℕ → Option ℤ
negated none = none
negated (some zero) = some (pos 0)
negated (some (suc n)) = some (negsuc n)

signed : List ℕ → Option ℤ
unfolding negated scan_digits is_digit
signed [] = none
signed (c ∷ s) =
    if c == b'-'
    then negated (scan_digits s false 0)
    else elim (scan_digits (if c == b'+' then s else c ∷ s) false 0) [
      | none ↦ none
      | some n ↦ some (pos n)
    ]

-- `int(text)`; `none` is its ValueError.
unfoldable pub int_of_str : String → Option ℤ
unfolding signed strip
int_of_str s = signed (strip (codes s))

-- The prefix of a base-0 numeral: its base, and what follows it.
base_of : List ℕ → ℕ × List ℕ
base_of (z ∷ x ∷ s) =
    if z == b'0' && (x == b'x' || x == b'X')
    then (16, s)
    else if z == b'0' && (x == b'o' || x == b'O')
    then (8, s)
    else if z == b'0' && (x == b'b' || x == b'B')
    then (2, s)
    else (10, z ∷ x ∷ s)
base_of s = (10, s)

-- The value of an ASCII digit or letter; 36 for any other character.
digit_value : ℕ → ℕ
digit_value c =
    if leb 48 c && leb c 57
    then c - 48
    else if leb 65 c && leb c 90
    then c - 55
    else if leb 97 c && leb c 122
    then c - 87
    else 36

-- Digits of a base, with single underscores between them; the flag says that one may stand here.
scan_base : ℕ → List ℕ → Bool → Bool → ℕ → Option ℕ
scan_base base [] after joinable n = if after then some n else none
scan_base base (c ∷ s) after joinable n =
    let digit = scan_base base s true true (n * base + digit_value c) in
    let joined = scan_base base s false false n in
    if ltb (digit_value c) base then digit else if c == b'_' && joinable then joined else none

starts_zero : List ℕ → Bool
starts_zero (c ∷ _) = c == b'0'
starts_zero [] = false

-- A decimal numeral in base 0 starts with no zero, unless it is zero.
scan_prefixed : List ℕ → Option ℕ
unfolding scan_base digit_value base_of starts_zero
scan_prefixed s =
    let (base, digits) = base_of s in
    let found = scan_base base digits false (not (base == 10)) 0 in
    if base == 10 && starts_zero digits then elim found [ some zero ↦ some 0 | _ ↦ none ] else found

signed_base_0 : List ℕ → Option ℤ
unfolding scan_prefixed negated
signed_base_0 [] = none
signed_base_0 (c ∷ s) =
    if c == b'-'
    then negated (scan_prefixed s)
    else elim (scan_prefixed (if c == b'+' then s else c ∷ s)) [
      | none ↦ none
      | some n ↦ some (pos n)
    ]

-- `int(text, 0)`; `none` is its ValueError.
unfoldable pub int_of_str_base_0 : String → Option ℤ
unfolding signed_base_0 strip
int_of_str_base_0 text = signed_base_0 (strip (codes text))

-- `int(value)`
unfoldable pub int_of : Json → Result ℤ
unfolding int_of_str
int_of null = err type_error
int_of (bool b) = ok (pos (if b then 1 else 0))
int_of (int z) = ok z
int_of (float (finite z _)) = ok z
int_of (float infinite) = err overflow_error
int_of (float nan) = err value_error
int_of (str s) = elim (int_of_str s) [ none ↦ err value_error | some z ↦ ok z ]
int_of (list _) = err type_error
int_of (dict _) = err type_error

abbrev is_zero_ℤ : ℤ → Bool
is_zero_ℤ (pos zero) = true
is_zero_ℤ _ = false

-- `bool(value)`, which `value or …` and `if value` ask.
unfoldable pub truthy : Json → Bool
truthy null = false
truthy (bool b) = b
truthy (int z) = not (is_zero_ℤ z)
truthy (float (finite z whole)) = not (is_zero_ℤ z && whole)
truthy (float _) = true
truthy (str s) = not (is_empty_text s)
truthy (list nil) = false
truthy (list _) = true
truthy (dict end) = false
truthy (dict _) = true

abbrev pub is_dict : Json → Bool
is_dict (dict _) = true
is_dict _ = false
