-- ===== src/TraitManager/Tests.antt =====
-- Examples of loading and running traits.
use rudr.Prelude.{Any, inl, inr, ◌≡◌, ◌↔◌, none, some, List, [], ◌∷◌, ok, err, map, All, Member}
use rudr.Prelude.Int.{pos}
use rudr.Json.{Value}
use rudr.Json.Example.{example_serde}
use rudr.Component.{default_component}
use rudr.Configuration.{TraitBinding}
use rudr.Client.{Error}
use rudr.TraitManager.{TraitManager, load_traits}
use rudr.Lifecycle.{Phase}
use rudr.Traits.{Ingress, ingress, empty}
use rudr.Client.Example.{absent}
use rudr.TraitManager.Isolation.{IsManualScaler, trail, exec-trail}
use rudr.TraitManager.Running.{exec}
use rudr.TraitManager.Loading.{trait_name, known_traits, load_traits_lem}

abbrev manager : TraitManager
manager = record {
  config_name = "app";
  instance_name = "first";
  component = record {
    component_name = "web";
    instance_name = "first";
    parameter_values = none;
    traits = some (
        record { name = "ingress"; parameter_values = none; properties = some (Value.string "") }
        ∷ record { name = "empty"; parameter_values = none; properties = none }
        ∷ []);
    application_scopes = none;
  };
  parent_params = [];
  owner_ref = none;
  workload_type = "core.oam.dev/v1alpha1.Server";
  component_schematic = default_component;
  traits = [];
}

abbrev bindings : List TraitBinding
bindings =
    record { name = "ingress"; parameter_values = none; properties = some (Value.string "") }
    ∷ record { name = "empty"; parameter_values = none; properties = none }
    ∷ []

load_traits_lem_example :
    (((load_traits example_serde manager).1 ≡ ok tt)
      ↔ All (λ (b : TraitBinding). Member b.name known_traits) bindings)
    × ((load_traits example_serde manager).1 ≡ ok tt
        → map trait_name (load_traits example_serde manager).0.traits
          ≡ map (λ (b : TraitBinding). b.name) bindings)
    × ((e : Error)
        → (load_traits example_serde manager).1 ≡ err e
        → (load_traits example_serde manager).0 ≡ manager)
load_traits_lem_example = load_traits_lem example_serde manager

abbrev entry : Ingress
entry = record {
  name = "app";
  instance_name = "first";
  component_name = "web";
  svc_port = pos 80;
  hostname = none;
  path = none;
  owner_ref = none;
}

abbrev loaded : TraitManager
loaded = record manager { traits = ingress entry ∷ ingress entry ∷ empty ∷ [] }

no_scaler : ¬ Any IsManualScaler loaded.traits
no_scaler (inl h) = h
no_scaler (inr (inl h)) = h
no_scaler (inr (inr (inl h))) = h
no_scaler (inr (inr (inr h))) = h

-- On a server that refuses every request.
exec-trail_example :
    exec absent "default" loaded Phase.add []
    ≡ (ok tt, trail absent "default" Phase.add loaded.traits [])
exec-trail_example = exec-trail absent "default" loaded Phase.add [] no_scaler
