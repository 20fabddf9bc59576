-- ===== src/Exports/Entry.antt =====
-- export_store.py: one allow-listed device, its persisted shape, and the strict reader of that shape.
pub mod RoundTrip
pub mod Returns
pub mod Examples
use indigo_matter.Prelude.{
  String, Bool, true, false, Option, none, some, List, [], ◌∷◌, ℤ, pos, is_some, if◌then◌else◌,
}
use indigo_matter.Python.{
  Json, null, bool, int, float, str, list, dict, Fields, end, field, Error, value_error, type_error,
  overflow_error, Result, ok, err, ◌>>=◌, ◌>>◌, raise_if, int_of, truthy,
}
use indigo_matter.Python.Dict
use indigo_matter.Python.Dict.{get}
use indigo_matter.Exports.Identity.{parse_published_id}
use indigo_matter.Exports.Options.{elem, validate_options}

-- bridge_protocol.ROLES
abbrev pub roles : List String
roles =
    "onOffPlugInUnit" ∷ "onOffLight" ∷ "dimmableLight" ∷ "colorTemperatureLight"
    ∷ "extendedColorLight" ∷ "windowCovering" ∷ "doorLock" ∷ "occupancySensor" ∷ "contactSensor"
    ∷ "waterLeakDetector" ∷ "waterFreezeDetector" ∷ "rainSensor" ∷ "smokeAlarm" ∷ "coAlarm"
    ∷ "temperatureSensor" ∷ "humiditySensor" ∷ "lightSensor" ∷ "pressureSensor" ∷ "flowSensor"
    ∷ "thermostat" ∷ []

pub record Entry : Type 0 where
  pub indigo_device_id : ℤ
  pub role : String
  pub name_override : Option String
  pub options : Fields
  pub published_as : Option String

abbrev pub key_device_id : String
key_device_id = "indigoDeviceId"

abbrev pub key_role : String
key_role = "role"

abbrev pub key_name_override : String
key_name_override = "nameOverride"

abbrev pub key_options : String
key_options = "options"

abbrev pub key_published_as : String
key_published_as = "publishedAs"

-- `None` is written as `null`.
abbrev pub text_or_null : Option String → Json
text_or_null none = null
text_or_null (some s) = str s

unfoldable pub to_dict : Entry → Json
to_dict entry = dict (
    field key_device_id (int entry.indigo_device_id) (
      field key_role (str entry.role) (
        field key_name_override (text_or_null entry.name_override) (
          field key_options (dict entry.options)
            (field key_published_as (text_or_null entry.published_as) end)))))

-- The `except (KeyError, TypeError, ValueError)` clause: an OverflowError passes through it.
pub as_value_error : Result ℤ → Result ℤ
as_value_error (ok z) = ok z
as_value_error (err overflow_error) = err overflow_error
as_value_error (err _) = err value_error

unfoldable pub read_device_id : Fields → Result ℤ
unfolding as_value_error
read_device_id raw = elim (Dict.lookup key_device_id raw) [
  | none ↦ err value_error
  | some v ↦ as_value_error (int_of v)
]

-- `role not in ROLES`; a list or an object cannot be hashed.
pub read_role : Json → Result String
read_role (str s) = if elem s roles then ok s else err value_error
read_role (list _) = err type_error
read_role (dict _) = err type_error
read_role _ = err value_error

-- `name_override or None`
pub read_name_override : Json → Result (Option String)
read_name_override null = ok none
read_name_override (str s) = ok (if truthy (str s) then some s else none)
read_name_override _ = err value_error

-- `raw.get(KEY_OPTIONS) or {}`
pub read_options : Json → Result Fields
read_options (dict d) = ok d
read_options v = if truthy v then err value_error else ok end

pub read_published_as : Json → Result (Option String)
read_published_as null = ok none
read_published_as (str s) = if is_some (parse_published_id s) then ok (some s) else err value_error
read_published_as _ = err value_error

pub from_fields : Fields → Result Entry
from_fields raw = do
  device_id ← read_device_id raw
  role ← read_role (get key_role raw)
  name_override ← read_name_override (get key_name_override raw)
  options ← read_options (get key_options raw)
  validate_options options role
  published_as ← read_published_as (get key_published_as raw)
  ok (record {
    indigo_device_id = device_id;
    role = role;
    name_override = name_override;
    options = options;
    published_as = published_as;
  })

unfoldable pub from_dict : Json → Result Entry
unfolding from_fields
from_dict (dict raw) = from_fields raw
from_dict _ = err value_error

-- `published_as is not None and parse_published_id(published_as) is None` raises.
abbrev pub check_published_as : Option String → Result (Unit {0})
check_published_as none = ok tt
check_published_as (some s) = if is_some (parse_published_id s) then ok tt else err value_error
