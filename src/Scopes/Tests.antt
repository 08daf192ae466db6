-- ===== src/Scopes/Tests.antt =====
-- Examples of health scopes.
use rudr.Prelude.{and_then, ◌++◌, none, ◌≡◌, refl, inl, none, some, true, ok, [], ◌∷◌}
use rudr.Prelude.Int.{pos}
use rudr.Configuration.{ComponentConfiguration}
use rudr.HealthScope.{ComponentInfo, HealthScopeObject}
use rudr.Client.Example.{absent}
use rudr.Client.{Server}
use rudr.Scopes.Patching.{ReadsAndPatches, membership_requests}
use rudr.Scopes.HealthOps.{Health, info_of, listed, add_to, remove_from, add, remove}
use rudr.Scopes.Membership.{
  entries_of, others_of, add_to_lem, remove_from_lem, History, start, after_add, after_remove,
  IsListedOnce, History-IsListedOnce,
}

abbrev frontend : ComponentConfiguration
frontend = record {
  component_name = "web";
  instance_name = "frontend";
  parameter_values = none;
  traits = none;
  application_scopes = some ("health" ∷ []);
}

abbrev backend : ComponentInfo
backend = record { name = "api"; instance_name = "backend"; status = some "healthy" }

abbrev scope : HealthScopeObject
scope = record {
  spec = record {
    probe_method = "httpGet";
    probe_endpoint = "/v1/health";
    probe_timeout = some (pos 10);
    probe_interval = none;
    failure_rate_threshold = none;
    healthy_rate_threshold = none;
    health_threshold_percentage = none;
    required_healthy_components = none;
  };
  api_version = some "core.oam.dev/v1alpha1";
  kind = some "HealthScope";
  name = "health";
  owner_references = [];
  status = some (record {
    components = some (backend ∷ info_of frontend ∷ []);
    last_aggregate_timestamp = some "now";
  });
}

add_to_lem_example :
    (listed (add_to frontend scope).status
      ≡ others_of frontend (listed scope.status) ++ (info_of frontend ∷ []))
    × (entries_of frontend (others_of frontend (listed scope.status)) ≡ [])
    × (and_then (add_to frontend scope).status (λ s. s.last_aggregate_timestamp) ≡ none)
    × (record (add_to frontend scope) { status = scope.status } ≡ scope)
add_to_lem_example = add_to_lem frontend scope

removed_component :
    (entries_of frontend (listed (remove_from frontend scope).status) ≡ [])
    × (others_of frontend (listed (remove_from frontend scope).status)
        ≡ others_of frontend (listed scope.status))
removed_component = remove_from_lem frontend scope

abbrev new_scope : HealthScopeObject
new_scope = record scope { status = none }

nothing_listed : IsListedOnce (listed new_scope.status)
unfolding listed
nothing_listed spec = inl refl

abbrev steps :
    History new_scope (remove_from frontend (add_to frontend (add_to frontend new_scope)))
steps = after_remove frontend (after_add frontend (after_add frontend start))

History-IsListedOnce_example :
    IsListedOnce
      (listed (remove_from frontend (add_to frontend (add_to frontend new_scope))).status)
History-IsListedOnce_example =
    History-IsListedOnce new_scope
      (remove_from frontend (add_to frontend (add_to frontend new_scope))) nothing_listed steps

-- A server that holds the scope and accepts every request.
abbrev cluster : Server
cluster = record absent { accept = λ _ _. ok tt; read_health_scope = λ _ _. ok scope }

abbrev health : Health
health = record {
  namespace = "default";
  name = "health";
  allow_component_overlap = true;
  scope = scope.spec;
}

membership_requests_example :
    ReadsAndPatches cluster health (add_to frontend) [] (add cluster health frontend [])
    × ReadsAndPatches cluster health (remove_from frontend) [] (remove cluster health frontend [])
membership_requests_example = membership_requests cluster health frontend []
