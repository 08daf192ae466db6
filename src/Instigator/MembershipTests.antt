-- ===== src/Instigator/MembershipTests.antt =====
-- Examples of binding a component to its scopes.
use rudr.Prelude.{◌≡◌, refl, All, Result, none, some, List, [], ◌∷◌, ok}
use rudr.Configuration.{ComponentConfiguration}
use rudr.Client.Example.{absent}
use rudr.Json.{Value}
use rudr.Configuration.{ScopeBinding}
use rudr.Scopes.{OamScope}
use rudr.Client.{Server, Request, Error}
use rudr.Instigator.Binding.{bind_component}
use rudr.Instigator.Membership.{Loaded, IsHealthScope, bind_component-health}
use rudr.Instigator.{RecordAnnotation, ComponentRecord, get_record_annotation}
use rudr.Instigator.Setting.{Platform, component_get}
use rudr.Instigator.ExecutionTests.{one, platform, o}

-- A component in a health scope.
abbrev probing : ScopeBinding
probing = record {
  name = "health";
  scope_type = "core.oam.dev/v1alpha1.HealthScope";
  parameter_values = some (
      record { name = "probe-method"; value = some (Value.string "kube-get"); from_param = none }
      ∷ record { name = "probe-endpoint"; value = some (Value.string ".status"); from_param = none }
      ∷ []);
}

abbrev scoped : ComponentConfiguration
scoped = record one { application_scopes = some ("health" ∷ []) }

abbrev scopes_cluster : Server
scopes_cluster = record absent {
  accept = λ _ _. ok tt;
  read_configuration = λ _ _. ok (record o {
    spec = record { variables = none; scopes = some (probing ∷ []); components = none };
  });
  read_health_scope = λ _ _. ok (record {
    spec = record {
      probe_method = "kube-get";
      probe_endpoint = ".status";
      probe_timeout = none;
      probe_interval = none;
      failure_rate_threshold = none;
      healthy_rate_threshold = none;
      health_threshold_percentage = none;
      required_healthy_components = none;
    };
    api_version = none;
    kind = none;
    name = "app";
    owner_references = [];
    status = none;
  });
}

abbrev bind : Result Error (Unit {0}) × List Request
bind = bind_component platform scopes_cluster "default" scoped []

bound : bind ≡ (ok tt, bind.1)
unfolding bind_component rudr.Instigator.Binding.bind_names rudr.Instigator.Binding.bind_loaded
    rudr.Instigator.Binding.bind_scope rudr.Instigator.Setting.get_scope_instance rudr.Client.◌>>=◌
    rudr.Client.◌>>◌ rudr.Client.resume rudr.Client.pure rudr.Client.request rudr.Client.from_result
    rudr.Instigator.load_scopes rudr.Variable.resolve_variables rudr.Variable.parse_from_variable
    rudr.Scopes.load_scope_by_type rudr.Scopes.HealthOps.from_params
    rudr.Parameter.extract_string_params rudr.Parameter.extract_number_params
    rudr.Parameter.extract_value_params rudr.Scopes.add rudr.Scopes.HealthOps.add
    rudr.Scopes.HealthOps.get_obj rudr.Scopes.HealthOps.patch_obj rudr.Scopes.allow_overlap
bound = refl

bind_component-health_example :
    (bound : List OamScope) × Loaded platform scopes_cluster "default" ("health" ∷ []) bound
    × All IsHealthScope bound
bind_component-health_example =
    bind_component-health platform scopes_cluster "default" scoped [] bind.1 bound
