-- ===== src/Exports/Entry/Returns.antt =====
-- export_store.py, `from_dict`: the rows for which it raises no error but a ValueError.
use indigo_matter.Prelude.{
  String, Bool, true, false, some, List, ◌≡◌, refl, arith, Option-cases, inl, inr, if◌then◌else◌,
}
use indigo_matter.Python.{
  Json, float, infinite, list, dict, Fields, value_error, Result, ok, err, ◌>>=◌, int_of,
}
use indigo_matter.Python.Dict
use indigo_matter.Python.Dict.{get}
use indigo_matter.Exports.Options.{
  is_bool, is_nonempty_str, validate_key, validate_pair, validate_ct_bounds, validate_options,
  option_invert, option_state_key, option_state_invert,
}
use indigo_matter.Exports.Entry.{
  key_device_id, key_role, key_name_override, key_options, key_published_as, as_value_error,
  read_device_id, read_role, read_name_override, read_options, read_published_as, from_fields,
  from_dict,
}

-- A value, or a ValueError.
abbrev pub is_mild {ℓ} : {A : Type ℓ} → Result A → Bool
is_mild (ok _) = true
is_mild (err value_error) = true
is_mild (err _) = false

>>=-mild {ℓ κ} :
    {A : Type ℓ} {B : Type κ} (m : Result A) (f : A → Result B)
    → is_mild m ≡ true
    → ((a : A) → is_mild (f a) ≡ true)
    → is_mild (m >>= f) ≡ true
>>=-mild (ok a) f h k = k a
>>=-mild (err value_error) f h k = refl
>>=-mild (err _) f h k = absurd cc

-- The row's id is no infinite float, and its role can be hashed.
abbrev pub is_infinite : Json → Bool
is_infinite (float infinite) = true
is_infinite _ = false

abbrev pub is_hashable : Json → Bool
is_hashable (list _) = false
is_hashable (dict _) = false
is_hashable _ = true

abbrev pub is_readable : Json → Bool
is_readable (dict raw) =
    if is_infinite (get key_device_id raw) then false else is_hashable (get key_role raw)
is_readable _ = true

int_of-mild : (v : Json) → is_infinite v ≡ false → is_mild (as_value_error (int_of v)) ≡ true
unfolding int_of as_value_error
int_of-mild v h = ground arith

get_found :
    (raw : Fields) (v : Json)
    → Dict.lookup key_device_id raw ≡ some v
    → is_infinite (get key_device_id raw) ≡ false
    → is_infinite v ≡ false
get_found raw v there h = ground arith

read_device_id-mild :
    (raw : Fields)
    → is_infinite (get key_device_id raw) ≡ false
    → is_mild (read_device_id raw) ≡ true
unfolding read_device_id
read_device_id-mild raw h = elim (Option-cases (Dict.lookup key_device_id raw)) [
  | inl absent ↦ rw (absent, read_device_id)
  | inr (v, there) ↦ rw (there, read_device_id) (int_of-mild v (get_found raw v there h))
]

read_role-mild : (v : Json) → is_hashable v ≡ true → is_mild (read_role v) ≡ true
unfolding read_role
read_role-mild v h = ground arith

read_name_override-mild : (v : Json) → is_mild (read_name_override v) ≡ true
unfolding read_name_override
read_name_override-mild v = ground arith

read_options-mild : (v : Json) → is_mild (read_options v) ≡ true
unfolding read_options
read_options-mild v = ground arith

read_published_as-mild : (v : Json) → is_mild (read_published_as v) ≡ true
unfolding read_published_as
read_published_as-mild v = ground arith

validate_key-mild :
    (o : Fields) (role key : String) (has_type : Json → Bool) (allowed : List String)
    → is_mild (validate_key o role key has_type allowed) ≡ true
unfolding validate_key
validate_key-mild o role key has_type allowed = ground arith

validate_pair-mild :
    (o : Fields) (role min_key max_key : String) (seed_pair : Bool)
    → is_mild (validate_pair o role min_key max_key seed_pair) ≡ true
unfolding validate_pair
validate_pair-mild o role min_key max_key seed_pair = ground arith

validate_options-mild : (o : Fields) (role : String) → is_mild (validate_options o role) ≡ true
unfolding validate_options validate_ct_bounds
validate_options-mild o role = >>=-mild _ _ (validate_key-mild o role option_invert is_bool _) (λ _.
    >>=-mild _ _ (validate_key-mild o role option_state_key is_nonempty_str _) (λ _.
      >>=-mild _ _ (validate_key-mild o role option_state_invert is_bool _) (λ _.
        >>=-mild _ _ (validate_pair-mild o role _ _ true)
          (λ _. validate_pair-mild o role _ _ false))))

-- A row with no infinite id and no list or object as role is read, or raises a ValueError.
pub from_dict-mild : (item : Json) → is_readable item ≡ true → is_mild (from_dict item) ≡ true
unfolding from_dict from_fields
from_dict-mild (dict raw) h =
    let both : (is_infinite (get key_device_id raw) ≡ false)
        × (is_hashable (get key_role raw) ≡ true) =
      ground arith in
    >>=-mild _ _ (read_device_id-mild raw both.0) (λ z.
      >>=-mild _ _ (read_role-mild (get key_role raw) both.1) (λ role.
        >>=-mild _ _ (read_name_override-mild (get key_name_override raw)) (λ name.
          >>=-mild _ _ (read_options-mild (get key_options raw)) (λ options.
            >>=-mild _ _ (validate_options-mild options role) (λ _.
              >>=-mild _ _ (read_published_as-mild (get key_published_as raw)) (λ _. refl))))))
from_dict-mild _ h = refl
