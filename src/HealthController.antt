-- ===== src/HealthController.antt =====
-- The second program, healthscope/src/main.rs: it probes the components of health scopes in a loop
-- and answers requests for the health of a scope.
-- `chrono` and the clock are parameters; a time is its number of nanoseconds.
pub mod Answering
pub mod Probing
pub mod Waiting
pub mod Marking
mod Tests
mod MarkingTests
use rudr.Prelude.{
  String, ◌==◌, ◌<>◌, ◌&&◌, Bool, true, false, not, Option, none, some, List, [], ◌∷◌, and_then,
  map_some, unwrap_or, if◌then◌else◌,
}
use rudr.Prelude.Int.{ℤ, pos, int_leb}
use rudr.HealthScope.{ComponentInfo, HealthStatus, HealthScopeObject}
use rudr.Client.{
  Server, Request, message, Action, request, pure, fail, ◌>>=◌, ◌>>◌, unwrap_or_else, attempt, list,
  get, patch, health_scope, health_scopes, component_instances,
}
use rudr.Instigator.{combine_name}

pub record Chrono : Type 0 where
  pub parse_from_rfc3339 : String → Option ℤ
  pub to_rfc3339 : ℤ → String
  pub num_seconds_since : ℤ → ℤ → ℤ
  pub now : List Request → ℤ

abbrev pub default_probe_interval : ℤ
default_probe_interval = pos 30

-- `num_seconds_since` takes the present and the last time.
unfoldable pub time_to_aggregate : Chrono → ℤ → Option HealthStatus → ℤ → Bool
time_to_aggregate chrono sys_time status interval =
    if int_leb interval (pos 0)
    then true
    else elim (and_then status (λ (s : HealthStatus). s.last_aggregate_timestamp)) [
      | none ↦ true
      | some last_aggregate_time ↦ elim (chrono.parse_from_rfc3339 last_aggregate_time) [
        | none ↦ true
        | some last_time ↦ int_leb interval (chrono.num_seconds_since sys_time last_time)
      ]
    ]

-- The scope with the components probed by now.
abbrev pub with_components :
    Chrono → HealthScopeObject → Option (List ComponentInfo) → List Request → HealthScopeObject
with_components chrono event components log = record event {
  status = some (record {
    components = components;
    last_aggregate_timestamp = some (chrono.to_rfc3339 (chrono.now log));
  });
}

-- Of the components' states the last that is there and not "healthy" decides.
unfoldable pub overall : String → List ComponentInfo → String
overall health [] = health
overall health (c ∷ comps) = elim c.status [
  | none ↦ overall health comps
  | some real_status ↦ overall (if real_status == "healthy" then health else "unhealthy") comps
]

unfoldable pub is_kube_get : HealthScopeObject → Bool
is_kube_get event =
    (event.spec.probe_method == "kube-get") && (event.spec.probe_endpoint == ".status")

unfoldable pub scope_health : HealthScopeObject → String
unfolding overall
scope_health obj =
    overall "healthy" (unwrap_or (and_then obj.status (λ (s : HealthStatus). s.components)) [])

module _ (server : Server) (namespace : String) where
  -- `request_health`, with a client for the cluster.
  unfoldable pub request_health : String → Action String
  unfolding scope_health
  request_health instance_name = do
    obj ← request server.read_health_scope (get namespace health_scopes instance_name)
    pure (scope_health obj)

  -- An instance that cannot be read is not healthy.
  unfoldable pub get_health_from_component : ComponentInfo → Action String
  unfolding combine_name
  get_health_from_component info =
      unwrap_or_else
        (do
          res ←
              request server.read_instance
                (get namespace component_instances (combine_name info.name info.instance_name))
          pure (unwrap_or res.status "unhealthy"))
        (λ _. pure "unhealthy")

  unfoldable pub probe_all : List ComponentInfo → Action (List ComponentInfo)
  unfolding get_health_from_component
  probe_all [] = pure []
  probe_all (c ∷ components) = do
    status ← get_health_from_component c
    rest ← probe_all components
    pure (record c { status = some status } ∷ rest)

  unfoldable pub probe : Option (List ComponentInfo) → Action (Option (List ComponentInfo))
  unfolding probe_all
  probe none = pure none
  probe (some components) = probe_all components >>= λ probed. pure (some probed)

  module _ (chrono : Chrono) where
    unfoldable pub patch_scope : HealthScopeObject → Option (List ComponentInfo) → Action (Unit {0})
    patch_scope event components log =
        (request server.read_health_scope (
              patch namespace health_scopes event.name
                (health_scope (with_components chrono event components log)))
            >>= λ _. pure tt)
          log

    unfoldable pub aggregate_due : HealthScopeObject → Action (Unit {0})
    unfolding probe patch_scope is_kube_get
    aggregate_due event =
        if is_kube_get event
        then (probe (and_then event.status (λ (s : HealthStatus). s.components))
            >>= patch_scope event)
        else fail (
            message (
              "unknown probe-method "
              <> (event.spec.probe_method
                  <> (" and probe_endpoint " <> event.spec.probe_endpoint))))

    unfoldable pub aggregate_component_health : HealthScopeObject → Action (Unit {0})
    unfolding time_to_aggregate aggregate_due
    aggregate_component_health event log =
        if time_to_aggregate chrono (chrono.now log) event.status
          (unwrap_or event.spec.probe_interval default_probe_interval)
        then aggregate_due event log
        else pure tt log

    -- One round of the loop over the scopes; an error is logged and the next scope is probed.
    unfoldable pub aggregate_all : List HealthScopeObject → Action (Unit {0})
    unfolding aggregate_component_health
    aggregate_all [] = pure tt
    aggregate_all (scope ∷ scopes) =
        unwrap_or_else (aggregate_component_health scope) (λ _. pure tt) >> aggregate_all scopes

    abbrev pub aggregate_listed : Option (List HealthScopeObject) → Action (Unit {0})
    aggregate_listed none = pure tt
    aggregate_listed (some items) = aggregate_all items

    -- A round of the loop; scopes that cannot be listed are logged and left to the next round.
    unfoldable pub aggregate_round : Action (Unit {0})
    unfolding aggregate_all
    aggregate_round =
        attempt (request server.list_health_scopes (list namespace health_scopes))
        >>= aggregate_listed
