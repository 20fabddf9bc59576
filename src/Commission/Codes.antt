-- ===== src/Commission/Codes.antt =====
-- commission_jobs.py: setup codes, and node ids that may arrive in two spellings.
use indigo_matter.Prelude.{
  ℕ, zero, suc, ◌/◌, ◌%◌, Char, pos, negsuc, ltb, String, Bool, true, false, ◌&&◌, ◌||◌, not,
  Option, none, some, List, [], ◌∷◌, ℤ, eq_ℤ, length, str_eq, leb, ◌==◌, if◌then◌else◌,
}
use indigo_matter.Python.{codes, strip, is_digit, int_of_str, int_of_str_base_0}
use indigo_matter.Exports.Identity.{digit}
use indigo_matter.Commission.{NodeId, number, text}

all_digits : List ℕ → Bool
unfolding is_digit
all_digits [] = true
all_digits (c ∷ s) = is_digit c && all_digits s

-- `s.isdecimal()` of an ASCII text: it has a digit, and nothing else.
pub is_decimal : List ℕ → Bool
unfolding all_digits
is_decimal [] = false
is_decimal (c ∷ s) = all_digits (c ∷ s)

-- Does the text start with "MT:", and go on?
is_qr_payload : List ℕ → Bool
is_qr_payload (m ∷ t ∷ colon ∷ s) = m == b'M' && (t == b'T' && colon == b':')
is_qr_payload _ = false

unfoldable pub is_valid_setup_code : String → Bool
unfolding is_qr_payload is_decimal
is_valid_setup_code code =
    if is_qr_payload (codes code)
    then not (leb (length (codes code)) 3)
    else is_decimal (codes code) && (length (codes code) == 11 || length (codes code) == 21)

-- `_node_key`: a text that parses is the number it spells.
unfoldable pub node_key : NodeId → NodeId
unfolding is_decimal
node_key (number z) = number z
node_key (text s) = elim (int_of_str_base_0 s) [
  | some z ↦ number z
  | none ↦
      if is_decimal (strip (codes s))
      then elim (int_of_str s) [ some z ↦ number z | none ↦ text s ]
      else text s
]

-- `==` of keys.
abbrev pub eq_key : NodeId → NodeId → Bool
eq_key (number a) (number b) = eq_ℤ a b
eq_key (text a) (text b) = str_eq a b
eq_key _ _ = false

unfoldable pub same_node : NodeId → NodeId → Bool
unfolding node_key
same_node a b = eq_key (node_key a) (node_key b)

-- `_node_int`
unfoldable pub node_int : NodeId → Option ℤ
unfolding node_key
node_int node_id = elim (node_key node_id) [ number z ↦ some z | text _ ↦ none ]

-- `a.node_id is not None and _same_node(a.node_id, node_id)`
unfoldable pub is_node : Option NodeId → NodeId → Bool
is_node none node_id = false
is_node (some held) node_id = same_node held node_id

pub hex_digit : ℕ → Char
hex_digit n =
    if n == 10
    then "A"
    else if n == 11
    then "B"
    else if n == 12
    then "C"
    else if n == 13
    then "D"
    else if n == 14
    then "E"
    else if n == 15
    then "F"
    else digit n

-- The hexadecimal digits of `n` before `out`; `n` rounds are enough, since each divides by sixteen.
pub hex_digits_of : ℕ → ℕ → String → String
unfolding hex_digit
hex_digits_of zero n out = String.◌∷◌ (hex_digit n) out
hex_digits_of (suc fuel) n out = elim (ltb n 16) [
  | true ↦ String.◌∷◌ (hex_digit n) out
  | false ↦ hex_digits_of fuel (n / 16) (String.◌∷◌ (hex_digit (n % 16)) out)
]

-- matter_model.py, `node_id_to_str`
unfoldable pub node_id_to_str : NodeId → String
unfolding hex_digits_of
node_id_to_str (text s) = s
node_id_to_str (number (pos n)) = String.◌∷◌ "0" (String.◌∷◌ "x" (hex_digits_of n n ""))
node_id_to_str (number (negsuc n)) =
    String.◌∷◌ "0" (String.◌∷◌ "x" (String.◌∷◌ "-" (hex_digits_of (suc n) (suc n) "")))
