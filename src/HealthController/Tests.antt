-- ===== src/HealthController/Tests.antt =====
-- Examples of the health controller.
use rudr.Prelude.{
  ℕ, String, ◌≡◌, refl, ◌⊎◌, ◌↔◌, true, false, none, some, [], ◌∷◌, ◌++◌, map, Result, ok, Member,
}
use rudr.Prelude.Int.{pos}
use rudr.HealthScope.{HealthScopeObject, ComponentInfo}
use rudr.Client.Example.{absent}
use rudr.Client.{Server, Error, patch, health_scope, health_scopes}
use rudr.HealthController.{
  Chrono, time_to_aggregate, aggregate_component_health, scope_health, default_probe_interval,
}
use rudr.HealthController.Answering.{poll, complete, answer_of, ready, serve_health, health_of}
use rudr.HealthController.Waiting.{
  System, Step, Reach, polled, ended, here, next, new_system, polled_by, completed_with,
  request_answered,
}
use rudr.HealthController.Probing.{instance_get, AllHealthy, scope_health-probed}

served : serve_health "GET" "//web" ≡ health_of "web"
unfolding serve_health rudr.HealthController.Answering.trim_start_slashes
served = refl

abbrev outcome : Result Error String
outcome = ok "healthy"

-- The task 7 waits and is notified.
abbrev asked : System
asked = polled_by 7 new_system

abbrev answered : System
answered = completed_with "healthy" asked

answered-Reach : Reach outcome new_system answered
unfolding poll complete
answered-Reach = next (next here (polled 7 new_system)) (ended "healthy" asked refl refl)

request_answered_example :
    ((answered.running ≡ false)
      × ((t : ℕ) → (poll t answered.shared).0 ≡ ready "healthy")
      × ((t : ℕ) → answered.waiting ≡ some t → Member t answered.notified))
    ⊎ ((u : System) × Step outcome answered u
        × (u.running ≡ false)
        × ((t : ℕ) → (poll t u.shared).0 ≡ ready "healthy"))
request_answered_example = request_answered outcome "healthy" answered refl answered-Reach

abbrev frontend : ComponentInfo
frontend = record { name = "web"; instance_name = "one"; status = none }

abbrev scope : HealthScopeObject
scope = record {
  spec = record {
    probe_method = "kube-get";
    probe_endpoint = ".status";
    probe_timeout = none;
    probe_interval = some (pos 10);
    failure_rate_threshold = none;
    healthy_rate_threshold = none;
    health_threshold_percentage = none;
    required_healthy_components = none;
  };
  api_version = none;
  kind = none;
  name = "health";
  owner_references = [];
  status = some (record { components = some (frontend ∷ []); last_aggregate_timestamp = none });
}

abbrev cluster : Server
cluster = record absent {
  read_instance = λ _ _. ok (record {
    metadata = record {
      name = "web-one";
      namespace = none;
      uid = none;
      resource_version = none;
      annotations = [];
    };
    status = some "healthy";
  });
}

abbrev chrono : Chrono
chrono = record {
  parse_from_rfc3339 = λ _. none;
  to_rfc3339 = λ _. "1970-01-01T00:00:00+00:00";
  num_seconds_since = λ _ _. pos 0;
  now = λ _. pos 0;
}

due : time_to_aggregate chrono (pos 0) scope.status (pos 10) ≡ true
unfolding time_to_aggregate
due = refl

scope_health-probed_example :
    (probed : HealthScopeObject) × ((aggregate_component_health cluster "default" chrono scope []).1
      ≡ ([] ++ map (instance_get "default") (frontend ∷ []))
        ++ (patch "default" health_scopes "health" (health_scope probed) ∷ []))
    × ((scope_health probed ≡ "healthy") ↔ AllHealthy cluster "default" (frontend ∷ []) [])
scope_health-probed_example =
    scope_health-probed cluster "default" chrono scope (frontend ∷ []) [] refl refl refl due
