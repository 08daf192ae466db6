-- ===== src/Scopes/HealthOps.antt =====
-- src/schematic/scopes/health.rs: the health scope, and the components that its object lists.
use rudr.Prelude.{
  ℕ, String, Bool, true, ◌&&◌, ◌==◌, Option, none, some, List, [], ◌∷◌, ◌++◌, Result, ok, err,
  and_then, map_some, unwrap_or, if◌then◌else◌,
}
use rudr.Prelude.Int.{ℤ}
use rudr.Json.{Serde, Value}
use rudr.Parameter.{
  ParameterValue, extract_string_params, extract_number_params, extract_value_params,
}
use rudr.Configuration.{ComponentConfiguration}
use rudr.Cluster.{has_reason}
use rudr.HealthScope.{HealthScope, ComponentInfo, HealthStatus, KubeOwner, HealthScopeObject}
use rudr.Client.{
  health_scope, health_scopes, get, patch, Server, Request, Error, kube, message, Action, request,
  pure, fail, ◌>>=◌, ◌>>◌, unwrap_or_else,
}
use rudr.Client

pub record Health : Type 0 where
  pub namespace : String
  pub name : String
  pub allow_component_overlap : Bool
  pub scope : HealthScope

-- All strings, or nothing: the collection of options.
abbrev pub strings : Serde → List Value → Option (List String)
strings serde [] = some []
strings serde (v ∷ vs) = and_then (serde.as_str v) (λ s. map_some (λ ss. s ∷ ss) (strings serde vs))

module _ (serde : Serde) (params : List ParameterValue) where
  abbrev pub i64_param : String → Option ℤ
  i64_param name = and_then (extract_number_params name params) serde.number_as_i64

  abbrev pub f64_param : String → Option ℕ
  f64_param name = and_then (extract_number_params name params) serde.number_as_f64

  abbrev with_probe : String → String → Option String → Option String → Result Error Health
  with_probe name namespace none _ = err (message "probe-method does not exist in params")
  with_probe name namespace (some _) none = err (message "probe-endpoint does not exist in params")
  with_probe name namespace (some probe_method) (some probe_endpoint) = ok (record {
    namespace = namespace;
    name = name;
    allow_component_overlap = true;
    scope = record {
      probe_method = probe_method;
      probe_endpoint = probe_endpoint;
      probe_timeout = i64_param "probe-timeout";
      probe_interval = i64_param "probe-interval";
      failure_rate_threshold = f64_param "failure-rate-threshold";
      healthy_rate_threshold = f64_param "healthy-rate-threshold";
      health_threshold_percentage = f64_param "health-threshold-percentage";
      required_healthy_components =
          and_then (extract_value_params "required-healthy-components" params)
            (λ v. and_then (serde.as_array v) (strings serde));
    };
  })

unfoldable pub from_params : Serde → String → String → List ParameterValue → Result Error Health
from_params serde name namespace params =
    with_probe serde params name namespace (extract_string_params "probe-method" params)
      (extract_string_params "probe-endpoint" params)

abbrev pub allow_overlap : Health → Bool
allow_overlap self = self.allow_component_overlap

abbrev pub scope_type : Health → String
scope_type self = "core.oam.dev/v1alpha1.HealthScope"

-- The component that a configuration stands for.
abbrev pub is_same : ComponentConfiguration → ComponentInfo → Bool
is_same spec comp = comp.name == spec.component_name && comp.instance_name == spec.instance_name

-- The loop of `remove_one` over the components of a status.
unfoldable pub without : ComponentConfiguration → List ComponentInfo → List ComponentInfo
without spec [] = []
without spec (comp ∷ comps) =
    let rest = without spec comps in if is_same spec comp then rest else comp ∷ rest

unfoldable pub listed : Option HealthStatus → List ComponentInfo
listed none = []
listed (some status) = unwrap_or status.components []

unfoldable pub remove_one : ComponentConfiguration → Option HealthStatus → List ComponentInfo
unfolding without listed
remove_one spec status = without spec (listed status)

abbrev pub info_of : ComponentConfiguration → ComponentInfo
info_of spec = record {
  name = spec.component_name;
  instance_name = spec.instance_name;
  status = none;
}

-- The object with the components, and a status that has nothing else.
abbrev pub with_components : HealthScopeObject → List ComponentInfo → HealthScopeObject
with_components obj components = record obj {
  status = some (record { components = some components; last_aggregate_timestamp = none });
}

-- What `add` and `remove` make of the object.
unfoldable pub add_to : ComponentConfiguration → HealthScopeObject → HealthScopeObject
unfolding remove_one
add_to spec obj = with_components obj (remove_one spec obj.status ++ (info_of spec ∷ []))

unfoldable pub remove_from : ComponentConfiguration → HealthScopeObject → HealthScopeObject
unfolding remove_one
remove_from spec obj = with_components obj (remove_one spec obj.status)

-- An object that exists already is no error.
unfoldable pub ignore_existing : Error → Action (Unit {0})
ignore_existing (kube e) = if has_reason "AlreadyExists" e then pure tt else fail (kube e)
ignore_existing e = fail e

module _ (server : Server) where
  unfoldable pub create : Health → KubeOwner → Action (Unit {0})
  unfolding ignore_existing
  create self owner =
      unwrap_or_else
        (request server.accept (
          Client.create self.namespace health_scopes (
            health_scope (record {
              spec = self.scope;
              api_version = some "core.oam.dev/v1alpha1";
              kind = some "HealthScope";
              name = self.name;
              owner_references = owner ∷ [];
              status = none;
            }))))
        ignore_existing

  unfoldable pub get_obj : Health → Action HealthScopeObject
  get_obj self = request server.read_health_scope (get self.namespace health_scopes self.name)

  unfoldable pub patch_obj : Health → HealthScopeObject → Action (Unit {0})
  patch_obj self obj =
      request server.accept (patch self.namespace health_scopes self.name (health_scope obj))

  unfoldable pub add : Health → ComponentConfiguration → Action (Unit {0})
  unfolding get_obj patch_obj add_to
  add self spec = do obj ← get_obj self; patch_obj self (add_to spec obj)

  unfoldable pub remove : Health → ComponentConfiguration → Action (Unit {0})
  unfolding get_obj patch_obj remove_from
  remove self spec = do obj ← get_obj self; patch_obj self (remove_from spec obj)

unfoldable pub modify : Health → Action (Unit {0})
modify self = fail (message "health scope modify not implemented")

unfoldable pub delete : Health → Action (Unit {0})
delete self = pure tt
