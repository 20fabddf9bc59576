-- ===== src/Exports/Entry/RoundTrip.antt =====
-- An entry is read back from what it is written as, and what was read is lawful.
use indigo_matter.Prelude.{
  String, true, Option, none, some, ℤ, ◌≡◌, ◌≢◌, refl, ap, arith, ◌⊎◌, inl, inr,
}
use indigo_matter.Python.{
  Items, list, type_error, err, Json, null, str, dict, Fields, Result, ok, int_of, truthy, >>-eq-ok,
  >>=-eq-ok,
}
use indigo_matter.Python.Dict
use indigo_matter.Exports.Options.{elem, validate_options}
use indigo_matter.Exports.Entry.{
  Entry, key_role, roles, to_dict, text_or_null, from_dict, read_device_id, read_role,
  read_name_override, read_options, read_published_as, check_published_as,
}

-- What the store asks of an entry that it writes.
pub record IsLawful (e : Entry) : Type 0 where
  pub published : check_published_as e.published_as ≡ ok tt
  pub options : validate_options e.options e.role ≡ ok tt

-- The role is one of the protocol's, and a name that is given is not empty.
pub record IsNamed (e : Entry) : Type 0 where
  pub known : elem e.role roles ≡ true
  pub named : e.name_override ≢ some ""

read_name_override-text :
    (name : Option String) → name ≢ some "" → read_name_override (text_or_null name) ≡ ok name
unfolding read_name_override truthy
read_name_override-text none h = refl
read_name_override-text (some String.[]) h = absurd (h refl)
read_name_override-text (some (String.◌∷◌ c s)) h = refl

read_published_as-text :
    (name : Option String)
    → check_published_as name ≡ ok tt
    → read_published_as (text_or_null name) ≡ ok name
unfolding read_published_as
read_published_as-text none h = refl
read_published_as-text (some s) h = ground arith

read_role-str : (role : String) → elem role roles ≡ true → read_role (str role) ≡ ok role
unfolding read_role
read_role-str role h = rw h

-- A lawful entry with a known role and no empty name is read back from its persisted shape.
pub from_dict-to_dict : (e : Entry) → IsLawful e → IsNamed e → from_dict (to_dict e) ≡ ok e
unfolding from_dict to_dict Dict.lookup read_device_id int_of read_options
from_dict-to_dict e l n = rw (read_role-str e.role n.known) (
    rw (read_name_override-text e.name_override n.named)
      (rw l.options (rw (read_published_as-text e.published_as l.published))))

read_published_as-check :
    (v : Json) {name : Option String}
    → read_published_as v ≡ ok name
    → check_published_as name ≡ ok tt
unfolding read_published_as
read_published_as-check null h = ground arith
read_published_as-check (str s) h = ground arith
read_published_as-check _ h = cc

read_role-elem : (v : Json) {role : String} → read_role v ≡ ok role → elem role roles ≡ true
unfolding read_role
read_role-elem (str s) h = ground arith
read_role-elem _ h = cc

read_name_override-ne :
    (v : Json) {name : Option String} → read_name_override v ≡ ok name → name ≢ some ""
unfolding read_name_override truthy
read_name_override-ne null h = λ e. cc
read_name_override-ne (str String.[]) h = λ e. cc
read_name_override-ne (str (String.◌∷◌ c s)) h = λ e. cc
read_name_override-ne _ h = cc

assemble :
    {z : ℤ} {role : String} {name : Option String} {options : Fields} {published : Option String}
    {e : Entry}
    → elem role roles ≡ true
    → name ≢ some ""
    → validate_options options role ≡ ok tt
    → check_published_as published ≡ ok tt
    → ◌≡◌ {A = Result Entry}
        (ok (record {
          indigo_device_id = z;
          role = role;
          name_override = name;
          options = options;
          published_as = published;
        }))
        (ok e)
    → IsLawful e × IsNamed e
assemble {e} known named valid lawful made = ground arith

-- Whatever the blob held, an entry that was read is lawful, has a known role and no empty name.
pub from_dict-IsLawful : (raw : Json) {e : Entry} → from_dict raw ≡ ok e → IsLawful e × IsNamed e
unfolding from_dict
from_dict-IsLawful (dict raw) {e} h =
    let (z, p₁, h₁) = >>=-eq-ok (read_device_id raw) _ h in
    let (role, p₂, h₂) = >>=-eq-ok (read_role (Dict.get "role" raw)) _ h₁ in
    let (name, p₃, h₃) = >>=-eq-ok (read_name_override (Dict.get "nameOverride" raw)) _ h₂ in
    let (options, p₄, h₄) = >>=-eq-ok (read_options (Dict.get "options" raw)) _ h₃ in
    let (valid, h₅) = >>-eq-ok (validate_options options role) _ h₄ in
    let (published, p₆, h₆) = >>=-eq-ok (read_published_as (Dict.get "publishedAs" raw)) _ h₅ in
    assemble (read_role-elem _ p₂) (read_name_override-ne _ p₃) valid (read_published_as-check _ p₆)
      h₆
from_dict-IsLawful _ h = cc

read_role_unhashable :
    (v : Json)
    → ((xs : Items) × (v ≡ list xs)) ⊎ ((d : Fields) × (v ≡ dict d))
    → read_role v ≡ err type_error
unfolding read_role
read_role_unhashable v (inl (xs, h)) = ap read_role h
read_role_unhashable v (inr (d, h)) = ap read_role h

-- An entry with a usable id whose role is a list or an object raises a TypeError.
pub from_dict_unhashable_role :
    (item : Fields) (z : ℤ)
    → read_device_id item ≡ ok z
    → ((xs : Items) × (Dict.get key_role item ≡ list xs))
      ⊎ ((d : Fields) × (Dict.get key_role item ≡ dict d))
    → from_dict (dict item) ≡ err type_error
unfolding from_dict
from_dict_unhashable_role item z id h = rw id (rw (read_role_unhashable (Dict.get key_role item) h))
