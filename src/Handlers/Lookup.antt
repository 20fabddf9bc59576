-- ===== src/Handlers/Lookup.antt =====
-- The handler that the registry finds again for a device: the one that created it.
use indigo_matter.Prelude.{
  true, some, List, [], ◌∷◌, ◌≡◌, refl, inl, inr, All, All-append, Bool-cases,
}
use indigo_matter.Handlers.{
  Handler, NodeInfo, EndpointInfo, IndigoDeviceSpec, has, is_primary_for, cluster_id_of,
  device_type_of, spec_of, specs_of, create_indigo_devices, handlers_for_endpoint, default_handlers,
  handler_for_device, handler_for_cluster, color_control, level_control, on_off, temperature,
  humidity, occupancy, contact, illuminance, pressure, flow, thermostat, fan_control,
  window_covering, door_lock, valve, generic_switch, smoke_co_alarm, air_quality, co2, pm25, tvoc,
  electrical_power, electrical_energy, boolean_state_config, power_source, basic_information,
  thread_network_diagnostics,
}

-- The device is of the node and the endpoint, and the handlers of its type and of a cluster of the
-- endpoint are the same.
unfoldable pub IsDriven : NodeInfo → EndpointInfo → IndigoDeviceSpec → Type 0
IsDriven node endpoint spec =
    (spec.node_id ≡ node.node_id)
    × (spec.endpoint_id ≡ endpoint.endpoint_id)
    × ((handler : Handler) × (handler_for_device default_handlers spec.device_type_id
          ≡ some handler)
        × (has endpoint (cluster_id_of handler) ≡ true)
        × (handler_for_cluster default_handlers (cluster_id_of handler) ≡ some handler))

device_is_found :
    (handler : Handler) (endpoint : EndpointInfo)
    → is_primary_for handler endpoint ≡ true
    → handler_for_device default_handlers (device_type_of handler) ≡ some handler
unfolding is_primary_for handler_for_device device_type_of
device_is_found color_control endpoint h = refl
device_is_found level_control endpoint h = refl
device_is_found on_off endpoint h = refl
device_is_found temperature endpoint h = refl
device_is_found humidity endpoint h = refl
device_is_found occupancy endpoint h = refl
device_is_found contact endpoint h = refl
device_is_found illuminance endpoint h = refl
device_is_found pressure endpoint h = refl
device_is_found flow endpoint h = refl
device_is_found thermostat endpoint h = refl
device_is_found fan_control endpoint h = refl
device_is_found window_covering endpoint h = refl
device_is_found door_lock endpoint h = refl
device_is_found valve endpoint h = refl
device_is_found generic_switch endpoint h = refl
device_is_found smoke_co_alarm endpoint h = refl
device_is_found air_quality endpoint h = refl
device_is_found co2 endpoint h = refl
device_is_found pm25 endpoint h = refl
device_is_found tvoc endpoint h = refl
device_is_found electrical_power endpoint h = cc
device_is_found electrical_energy endpoint h = cc
device_is_found boolean_state_config endpoint h = cc
device_is_found power_source endpoint h = cc
device_is_found basic_information endpoint h = cc
device_is_found thread_network_diagnostics endpoint h = cc

cluster_is_found :
    (handler : Handler)
    → handler_for_cluster default_handlers (cluster_id_of handler) ≡ some handler
unfolding handler_for_cluster cluster_id_of
cluster_is_found handler =
    elim handler as (λ h. handler_for_cluster default_handlers (cluster_id_of h) ≡ some h) [
      | color_control ↦ refl
      | level_control ↦ refl
      | on_off ↦ refl
      | temperature ↦ refl
      | humidity ↦ refl
      | occupancy ↦ refl
      | contact ↦ refl
      | illuminance ↦ refl
      | pressure ↦ refl
      | flow ↦ refl
      | thermostat ↦ refl
      | fan_control ↦ refl
      | window_covering ↦ refl
      | door_lock ↦ refl
      | valve ↦ refl
      | generic_switch ↦ refl
      | smoke_co_alarm ↦ refl
      | air_quality ↦ refl
      | co2 ↦ refl
      | pm25 ↦ refl
      | tvoc ↦ refl
      | electrical_power ↦ refl
      | electrical_energy ↦ refl
      | boolean_state_config ↦ refl
      | power_source ↦ refl
      | basic_information ↦ refl
      | thread_network_diagnostics ↦ refl
    ]

specs_of-IsDriven :
    (handler : Handler) (node : NodeInfo) (endpoint : EndpointInfo)
    → All (IsDriven node endpoint) (specs_of handler node endpoint)
unfolding IsDriven specs_of create_indigo_devices spec_of
specs_of-IsDriven handler node endpoint = elim (Bool-cases (has endpoint (cluster_id_of handler))) [
  | inl there ↦ elim (Bool-cases (is_primary_for handler endpoint)) [
    | inl primary ↦
        rw (there, primary)
          (
            (
              refl,
              refl,
              (handler, device_is_found handler endpoint primary, there, cluster_is_found handler),
            ),
            tt,
          )
    | inr other ↦ rw (there, other) tt
  ]
  | inr absent ↦ rw absent tt
]

pub handlers_for_endpoint-IsDriven :
    (handlers : List Handler) (node : NodeInfo) (endpoint : EndpointInfo)
    → All (IsDriven node endpoint) (handlers_for_endpoint handlers node endpoint)
unfolding handlers_for_endpoint
handlers_for_endpoint-IsDriven [] node endpoint = tt
handlers_for_endpoint-IsDriven (handler ∷ handlers) node endpoint =
    All-append (IsDriven node endpoint) (specs_of handler node endpoint)
      (handlers_for_endpoint handlers node endpoint) (specs_of-IsDriven handler node endpoint)
      (handlers_for_endpoint-IsDriven handlers node endpoint)
