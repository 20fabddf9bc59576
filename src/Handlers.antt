-- ===== src/Handlers.antt =====
-- The handlers of Matter clusters (matter_handlers/): which Indigo devices an endpoint gets
-- (registry.py, base.py and the `is_primary_for` and `create_indigo_devices` of each handler). A
-- spec is modelled by its type, name and identity; its capability props and first states are not.
mod Levels
mod Dimmer
mod Covering
mod RoundTrip
mod Mireds
mod Lighting
mod Lookup
mod Examples
use indigo_matter.Prelude.{
  ℕ, String, Bool, true, false, not, ◌&&◌, Option, none, some, List, [], ◌∷◌, ◌++◌, ◌==◌,
  if◌then◌else◌, any, pos, str_eq, ◌||◌,
}
use indigo_matter.Python.{joined}
use indigo_matter.Exports.Identity.{str_int}

abbrev pub cluster_on_off : ℕ
cluster_on_off = 0x0006

abbrev pub cluster_level_control : ℕ
cluster_level_control = 0x0008

abbrev pub cluster_color_control : ℕ
cluster_color_control = 0x0300

abbrev pub cluster_thermostat : ℕ
cluster_thermostat = 0x0201

-- Clusters whose handler owns the whole endpoint.
abbrev pub endpoint_owner_clusters : List ℕ
endpoint_owner_clusters = 0x0081 ∷ 0x0101 ∷ 0x0102 ∷ 0x0201 ∷ 0x0202 ∷ []

pub record NodeInfo : Type 0 where
  pub node_id : ℕ
  pub suggested_name : String
  pub vendor_name : String
  pub product_name : String

pub record EndpointInfo : Type 0 where
  pub endpoint_id : ℕ
  pub cluster_ids : List ℕ

unfoldable pub has : EndpointInfo → ℕ → Bool
has endpoint cluster_id = any (λ c. c == cluster_id) endpoint.cluster_ids

pub record IndigoDeviceSpec : Type 0 where
  pub device_type_id : String
  pub name : String
  pub node_id : ℕ
  pub endpoint_id : ℕ
  pub vendor_name : String
  pub product_name : String

pub data Handler : Type 0 where
  color_control level_control on_off temperature humidity occupancy contact illuminance pressure
        flow thermostat fan_control window_covering door_lock valve generic_switch smoke_co_alarm
        air_quality co2 pm25 tvoc electrical_power electrical_energy boolean_state_config
        power_source basic_information thread_network_diagnostics :
      Handler

unfoldable pub cluster_id_of : Handler → ℕ
cluster_id_of color_control = 0x0300
cluster_id_of level_control = 0x0008
cluster_id_of on_off = 0x0006
cluster_id_of temperature = 0x0402
cluster_id_of humidity = 0x0405
cluster_id_of occupancy = 0x0406
cluster_id_of contact = 0x0045
cluster_id_of illuminance = 0x0400
cluster_id_of pressure = 0x0403
cluster_id_of flow = 0x0404
cluster_id_of thermostat = 0x0201
cluster_id_of fan_control = 0x0202
cluster_id_of window_covering = 0x0102
cluster_id_of door_lock = 0x0101
cluster_id_of valve = 0x0081
cluster_id_of generic_switch = 0x003B
cluster_id_of smoke_co_alarm = 0x005C
cluster_id_of air_quality = 0x005B
cluster_id_of co2 = 0x040D
cluster_id_of pm25 = 0x042A
cluster_id_of tvoc = 0x042E
cluster_id_of electrical_power = 0x0090
cluster_id_of electrical_energy = 0x0091
cluster_id_of boolean_state_config = 0x0080
cluster_id_of power_source = 0x002F
cluster_id_of basic_information = 0x0028
cluster_id_of thread_network_diagnostics = 0x0035

-- The type of the devices of a handler; empty where it merges into those of others.
unfoldable pub device_type_of : Handler → String
device_type_of color_control = "matterColorDimmer"
device_type_of level_control = "matterDimmer"
device_type_of on_off = "matterRelay"
device_type_of temperature = "matterTemperatureSensor"
device_type_of humidity = "matterHumiditySensor"
device_type_of occupancy = "matterMotionSensor"
device_type_of contact = "matterContactSensor"
device_type_of illuminance = "matterIlluminanceSensor"
device_type_of pressure = "matterPressureSensor"
device_type_of flow = "matterFlowSensor"
device_type_of thermostat = "matterThermostat"
device_type_of fan_control = "matterFan"
device_type_of window_covering = "matterWindowCovering"
device_type_of door_lock = "matterLock"
device_type_of valve = "matterValve"
device_type_of generic_switch = "matterButton"
device_type_of smoke_co_alarm = "matterSmokeCOAlarm"
device_type_of air_quality = "matterAirQualitySensor"
device_type_of co2 = "matterCO2Sensor"
device_type_of pm25 = "matterPM25Sensor"
device_type_of tvoc = "matterTVOCSensor"
device_type_of electrical_power = ""
device_type_of electrical_energy = ""
device_type_of boolean_state_config = ""
device_type_of power_source = ""
device_type_of basic_information = "matterNode"
device_type_of thread_network_diagnostics = "matterNode"

unfoldable pub is_owned : EndpointInfo → Bool
is_owned endpoint = any (λ c. has endpoint c) endpoint_owner_clusters

level_control_is_primary : EndpointInfo → Bool
level_control_is_primary endpoint =
    if has endpoint cluster_color_control then false else not (is_owned endpoint)

on_off_is_primary : EndpointInfo → Bool
on_off_is_primary endpoint =
    if has endpoint cluster_level_control || has endpoint cluster_color_control
    then false
    else not (is_owned endpoint)

-- Whether the handler creates the device for the endpoint.
unfoldable pub is_primary_for : Handler → EndpointInfo → Bool
unfolding level_control_is_primary on_off_is_primary
is_primary_for level_control endpoint = level_control_is_primary endpoint
is_primary_for on_off endpoint = on_off_is_primary endpoint
is_primary_for fan_control endpoint = not (has endpoint cluster_thermostat)
is_primary_for electrical_power _ = false
is_primary_for electrical_energy _ = false
is_primary_for boolean_state_config _ = false
is_primary_for power_source _ = false
is_primary_for basic_information _ = false
is_primary_for thread_network_diagnostics _ = false
is_primary_for _ _ = true

-- `a or b` on texts.
abbrev pub or_text : String → String → String
or_text a b = if str_eq a "" then b else a

abbrev prefix_of : Handler → String → String
prefix_of door_lock number = joined "Matter Lock " number
prefix_of _ number = joined "Matter " number

unfoldable pub name_of : Handler → NodeInfo → String
unfolding str_int joined
name_of handler node =
    or_text node.suggested_name
      (or_text node.product_name (prefix_of handler (str_int (pos node.node_id) "")))

unfoldable pub spec_of : Handler → NodeInfo → EndpointInfo → IndigoDeviceSpec
spec_of handler node endpoint = record {
  device_type_id = device_type_of handler;
  name = name_of handler node;
  node_id = node.node_id;
  endpoint_id = endpoint.endpoint_id;
  vendor_name = node.vendor_name;
  product_name = node.product_name;
}

unfoldable pub create_indigo_devices : Handler → NodeInfo → EndpointInfo → List IndigoDeviceSpec
create_indigo_devices handler node endpoint =
    if is_primary_for handler endpoint then spec_of handler node endpoint ∷ [] else []

abbrev pub default_handlers : List Handler
default_handlers =
    color_control ∷ level_control ∷ on_off ∷ temperature ∷ humidity ∷ occupancy ∷ contact
    ∷ illuminance ∷ pressure ∷ flow ∷ thermostat ∷ fan_control ∷ window_covering ∷ door_lock ∷ valve
    ∷ generic_switch ∷ smoke_co_alarm ∷ air_quality ∷ co2 ∷ pm25 ∷ tvoc ∷ electrical_power
    ∷ electrical_energy ∷ boolean_state_config ∷ power_source ∷ basic_information
    ∷ thread_network_diagnostics ∷ []

-- The specs of one handler of the registry.
unfoldable pub specs_of : Handler → NodeInfo → EndpointInfo → List IndigoDeviceSpec
specs_of handler node endpoint =
    if not (has endpoint (cluster_id_of handler))
    then []
    else if not (is_primary_for handler endpoint)
    then []
    else create_indigo_devices handler node endpoint

unfoldable pub handlers_for_endpoint :
    List Handler → NodeInfo → EndpointInfo → List IndigoDeviceSpec
handlers_for_endpoint [] node endpoint = []
handlers_for_endpoint (handler ∷ handlers) node endpoint =
    specs_of handler node endpoint ++ handlers_for_endpoint handlers node endpoint

-- `_by_cluster` and `_by_device_type`: of two handlers under one key the last is kept.
unfoldable pub handler_for_cluster : List Handler → ℕ → Option Handler
handler_for_cluster [] cluster_id = none
handler_for_cluster (handler ∷ handlers) cluster_id =
    elim (handler_for_cluster handlers cluster_id) [
      | some later ↦ some later
      | none ↦ if cluster_id_of handler == cluster_id then some handler else none
    ]

unfoldable pub handler_for_device : List Handler → String → Option Handler
handler_for_device [] device_type_id = none
handler_for_device (handler ∷ handlers) device_type_id =
    elim (handler_for_device handlers device_type_id) [
      | some later ↦ some later
      | none ↦
          if not (str_eq (device_type_of handler) "")
            && str_eq (device_type_of handler) device_type_id
          then some handler
          else none
    ]
