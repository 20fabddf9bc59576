-- ===== src/Handlers/Lighting.antt =====
-- The lighting devices of an endpoint: which of the relay, the dimmer and the colour light it gets.
use mathlib.Core.Path.{ap}
use indigo_matter.Prelude.{
  All, String, Bool, true, false, not, ◌&&◌, ◌||◌, List, [], ◌∷◌, ◌++◌, ◌≡◌, refl, inl, inr, str_eq,
  if◌then◌else◌, any, arith, Bool-cases, ◌∙◌,
}
use indigo_matter.Handlers.Lookup.{IsDriven, handlers_for_endpoint-IsDriven}
use indigo_matter.Handlers.{
  Handler, NodeInfo, EndpointInfo, IndigoDeviceSpec, has, is_owned, is_primary_for, cluster_id_of,
  device_type_of, spec_of, specs_of, create_indigo_devices, handlers_for_endpoint, default_handlers,
  cluster_on_off, cluster_level_control, cluster_color_control, color_control, level_control,
  on_off,
}

unfoldable pub is_lighting : String → Bool
is_lighting t = str_eq t "matterColorDimmer" || str_eq t "matterDimmer" || str_eq t "matterRelay"

-- The types of the lighting devices among the specs.
unfoldable pub lighting_types : List IndigoDeviceSpec → List String
lighting_types [] = []
lighting_types (spec ∷ specs) =
    let rest = lighting_types specs in
    if is_lighting spec.device_type_id then spec.device_type_id ∷ rest else rest

lighting_types_nil : lighting_types [] ≡ []
unfolding lighting_types
lighting_types_nil = refl

-- The one lighting device that an endpoint should have.
unfoldable pub lighting_type : EndpointInfo → List String
lighting_type endpoint =
    if has endpoint cluster_color_control
    then "matterColorDimmer" ∷ []
    else if is_owned endpoint
    then []
    else if has endpoint cluster_level_control
    then "matterDimmer" ∷ []
    else if has endpoint cluster_on_off
    then "matterRelay" ∷ []
    else []

lighting_types-append :
    (specs others : List IndigoDeviceSpec)
    → lighting_types (specs ++ others) ≡ lighting_types specs ++ lighting_types others
unfolding lighting_types
lighting_types-append [] others = refl
lighting_types-append (spec ∷ specs) others = elim (Bool-cases (is_lighting spec.device_type_id)) [
  | inl is ↦ rw (is, lighting_types-append specs others) refl
  | inr is ↦ rw (is, lighting_types-append specs others) refl
]

abbrev only : Bool → String → List String
only true t = t ∷ []
only false t = []

-- What a handler adds to the lighting devices of an endpoint.
added : Handler → EndpointInfo → List String
added handler endpoint =
    only
      (has endpoint (cluster_id_of handler)
        && is_primary_for handler endpoint
        && is_lighting (device_type_of handler))
      (device_type_of handler)

lighting_types-specs_of :
    (handler : Handler) (node : NodeInfo) (endpoint : EndpointInfo)
    → lighting_types (specs_of handler node endpoint) ≡ added handler endpoint
unfolding added lighting_types specs_of create_indigo_devices spec_of
lighting_types-specs_of handler node endpoint =
    elim (Bool-cases (has endpoint (cluster_id_of handler))) [
      | inl there ↦ elim (Bool-cases (is_primary_for handler endpoint)) [
        | inl primary ↦ elim (Bool-cases (is_lighting (device_type_of handler))) [
          | inl is ↦ rw (there, primary, is) refl
          | inr is ↦ rw (there, primary, is) refl
        ]
        | inr other ↦ rw (there, other) refl
      ]
      | inr absent ↦ rw absent refl
    ]

lighting_types_cons :
    (handler : Handler) (handlers : List Handler) (node : NodeInfo) (endpoint : EndpointInfo)
    → lighting_types (handlers_for_endpoint (handler ∷ handlers) node endpoint)
      ≡ added handler endpoint ++ lighting_types (handlers_for_endpoint handlers node endpoint)
unfolding handlers_for_endpoint
lighting_types_cons handler handlers node endpoint =
    lighting_types-append (specs_of handler node endpoint)
      (handlers_for_endpoint handlers node endpoint)
    ∙ rw (lighting_types-specs_of handler node endpoint) refl

added_else :
    (handler : Handler) (endpoint : EndpointInfo)
    → is_lighting (device_type_of handler) ≡ false
    → added handler endpoint ≡ []
unfolding added
added_else handler endpoint h = elim (Bool-cases (has endpoint (cluster_id_of handler))) [
  | inl there ↦ elim (Bool-cases (is_primary_for handler endpoint)) [
    | inl primary ↦ rw (there, primary, h) refl
    | inr other ↦ rw (there, other) refl
  ]
  | inr absent ↦ rw absent refl
]

lighting_types_else :
    (handlers : List Handler) (node : NodeInfo) (endpoint : EndpointInfo)
    → any (λ handler. is_lighting (device_type_of handler)) handlers ≡ false
    → lighting_types (handlers_for_endpoint handlers node endpoint) ≡ []
unfolding handlers_for_endpoint
lighting_types_else [] node endpoint h = lighting_types_nil
lighting_types_else (handler ∷ handlers) node endpoint h =
    lighting_types_cons handler handlers node endpoint
    ∙ rw
        (
          added_else handler endpoint (ground arith),
          lighting_types_else handlers node endpoint (ground arith),
        )
        refl

-- The tests of the three lighting handlers, at their answers.
exclusive :
    (color owned level on : Bool)
    → only (color && true && true) "matterColorDimmer"
        ++ (only (level && (if color then false else not owned) && true) "matterDimmer"
            ++ (only (on && (if level || color then false else not owned) && true) "matterRelay"
                ++ []))
      ≡ (if color
          then "matterColorDimmer" ∷ []
          else if owned
          then []
          else if level
          then "matterDimmer" ∷ []
          else if on
          then "matterRelay" ∷ []
          else [])
exclusive color owned level on = ground arith

-- The three lighting handlers exclude each other.
added_lighting :
    (endpoint : EndpointInfo)
    → added color_control endpoint
        ++ (added level_control endpoint ++ (added on_off endpoint ++ []))
      ≡ lighting_type endpoint
unfolding added lighting_type is_primary_for cluster_id_of device_type_of is_lighting
added_lighting endpoint =
    exclusive (has endpoint cluster_color_control) (is_owned endpoint)
      (has endpoint cluster_level_control) (has endpoint cluster_on_off)

handlers_for_endpoint-lighting_type :
    (node : NodeInfo) (endpoint : EndpointInfo)
    → lighting_types (handlers_for_endpoint default_handlers node endpoint) ≡ lighting_type endpoint
unfolding is_lighting device_type_of
handlers_for_endpoint-lighting_type node endpoint =
    lighting_types_cons color_control _ node endpoint
    ∙ ap (λ rest. added color_control endpoint ++ rest)
        (lighting_types_cons level_control _ node endpoint
          ∙ ap (λ rest. added level_control endpoint ++ rest)
              (lighting_types_cons on_off _ node endpoint
                ∙ ap (λ rest. added on_off endpoint ++ rest)
                    (lighting_types_else _ node endpoint refl)))
    ∙ added_lighting endpoint

-- The types of the lighting devices that an endpoint gets from the handlers of the registry are the
-- colour light alone where it has a ColorControl cluster, none where a handler owns it, else the
-- dimmer alone where it has a LevelControl cluster, and else the relay where it has an OnOff cluster.
-- Every device of the endpoint carries its identity and the node's, and its actions go to the handler
-- that the reports of a cluster of the endpoint go to.
pub handlers_for_endpoint_lem :
    (node : NodeInfo) (endpoint : EndpointInfo)
    → (lighting_types (handlers_for_endpoint default_handlers node endpoint)
        ≡ lighting_type endpoint)
      × All (IsDriven node endpoint) (handlers_for_endpoint default_handlers node endpoint)
handlers_for_endpoint_lem node endpoint = (
  handlers_for_endpoint-lighting_type node endpoint,
  handlers_for_endpoint-IsDriven default_handlers node endpoint,
)
