-- ===== src/HealthController/Probing.antt =====
-- What a round of probing finds, and what is answered about it.
use rudr.Prelude.{
  String, ◌≡◌, ◌≢◌, ◌==◌, refl, ap, sym, ◌∙◌, ◌↔◌, inl, inr, true, false, some, List, [], ◌∷◌, ◌++◌,
  map, ok, Result-cases, Option-cases, Bool-cases, eq_iff, append_assoc, append-nil, arith,
  unwrap_or, and_then,
}
use rudr.HealthScope.{ComponentInfo, HealthStatus, HealthScopeObject}
use rudr.KubeObjects.{KubeComponentInstance}
use rudr.Client.{
  Server, Request, request, pure, resume, ◌>>=◌, unwrap_or_else, handle, get, patch,
  component_instances, health_scopes, health_scope,
}
use rudr.Instigator.{combine_name}
use rudr.HealthController.{
  Chrono, overall, scope_health, get_health_from_component, probe_all, probe, time_to_aggregate,
  default_probe_interval, is_kube_get, aggregate_component_health, aggregate_due, patch_scope,
  with_components,
}

abbrev pub instance_get : String → ComponentInfo → Request
instance_get namespace c = get namespace component_instances (combine_name c.name c.instance_name)

abbrev IsHealthy : ComponentInfo → Type 0
IsHealthy c = c.status ≡ some "healthy"

pub unhealthy-ne-healthy : ◌≢◌ {A = String} "unhealthy" "healthy"
unhealthy-ne-healthy h = let e : false ≡ true = ap (λ s. s == "healthy") h in cc e

overall_unhealthy : (cs : List ComponentInfo) → overall "unhealthy" cs ≡ "unhealthy"
unfolding overall
overall_unhealthy [] = refl
overall_unhealthy (c ∷ cs) = elim (Option-cases c.status) [
  | inl unknown ↦ rw (overall, unknown) (overall_unhealthy cs)
  | inr (state, known) ↦ elim (Bool-cases (state == "healthy")) [
    | inl good ↦ rw (overall, known, good) (overall_unhealthy cs)
    | inr bad ↦ rw (overall, known, bad) (overall_unhealthy cs)
  ]
]

overall_known :
    (c : ComponentInfo) (cs : List ComponentInfo) (state : String)
    → c.status ≡ some state
    → (overall "healthy" (c ∷ cs) ≡ "healthy")
      ↔ ((state ≡ "healthy") × (overall "healthy" cs ≡ "healthy"))
unfolding overall
overall_known c cs state known = elim (Bool-cases (state == "healthy")) [
  | inl good ↦
      let same : state ≡ "healthy" = (eq_iff state "healthy").0 good in
      rw (overall, known, good) (λ h. (same, h), λ (_, h). h)
  | inr bad ↦ (
    λ h. absurd (unhealthy-ne-healthy (sym (overall_unhealthy cs) ∙ rw (overall, known, bad) at h)),
    λ (same, h). ground (arith, bad, (eq_iff state "healthy").1 same),
  )
]

module _ (server : Server) (namespace : String) where
  -- The instances are read one after another, and each is there and healthy.
  unfoldable pub AllHealthy : List ComponentInfo → List Request → Type 0
  AllHealthy [] log = Unit
  AllHealthy (c ∷ cs) log =
      ((ins : KubeComponentInstance) × (server.read_instance log (instance_get namespace c)
          ≡ ok ins)
        × (ins.status ≡ some "healthy"))
      × AllHealthy cs (log ++ (instance_get namespace c ∷ []))

  -- One component: its state is found with one request, and it is healthy as the instance is.
  get_health_lem :
      (c : ComponentInfo) (log : List Request)
      → (health : String) × (get_health_from_component server namespace c log
          ≡ (ok health, log ++ (instance_get namespace c ∷ [])))
        × ((health ≡ "healthy") ↔ (
            (ins : KubeComponentInstance) × (server.read_instance log (instance_get namespace c)
              ≡ ok ins)
            × (ins.status ≡ some "healthy")))
  unfolding get_health_from_component unwrap_or_else ◌>>=◌ resume handle request pure
  get_health_lem c log = elim (Result-cases (server.read_instance log (instance_get namespace c))) [
    | inl (ins, found) ↦ elim (Option-cases ins.status) [
      | inl unknown ↦ (
        "unhealthy",
        rw (get_health_from_component, found, unknown) refl,
        (
          λ h. absurd (unhealthy-ne-healthy h),
          λ (i, f, good).
              let same : ins ≡ i = ground (arith, found, f) in
              cc (sym unknown ∙ (ap (λ x. x.status) same ∙ good)),
        ),
      )
      | inr (state, known) ↦ (
        state,
        rw (get_health_from_component, found, known) refl,
        (
          λ h. (ins, found, known ∙ ap some h),
          λ (i, f, good).
              let same : ins ≡ i = ground (arith, found, f) in
              let stated : some state ≡ some "healthy" =
                sym known ∙ (ap (λ x. x.status) same ∙ good) in
              ground (arith, stated),
        ),
      )
    ]
    | inr (x, missing) ↦ (
      "unhealthy",
      rw (get_health_from_component, missing) refl,
      (λ h. absurd (unhealthy-ne-healthy h), λ (i, f, good). cc (sym missing ∙ f)),
    )
  ]

  -- A probing of some components always succeeds, and they are healthy together as each of them is.
  probe_all_lem :
      (cs : List ComponentInfo) (log : List Request)
      → (probed : List ComponentInfo) × (probe_all server namespace cs log
          ≡ (ok probed, log ++ map (instance_get namespace) cs))
        × ((overall "healthy" probed ≡ "healthy") ↔ AllHealthy cs log)
  unfolding probe_all AllHealthy overall ◌>>=◌ resume pure
  probe_all_lem [] log = ([], rw (append-nil log) refl, (λ _. tt, λ _. refl))
  probe_all_lem (c ∷ cs) log =
      let (health, found, healthy) = get_health_lem c log in
      let (probed, rest, all_healthy) = probe_all_lem cs (log ++ (instance_get namespace c ∷ [])) in
      let known = overall_known (record c { status = some health }) probed health refl in
      (
        record c { status = some health } ∷ probed,
        rw (probe_all, found, rest, append_assoc log (instance_get namespace c ∷ []) _) refl,
        (
          λ h. (healthy.0 (known.0 h).0, all_healthy.0 (known.0 h).1),
          λ (good, all_good). known.1 (healthy.1 good, all_healthy.1 all_good),
        ),
      )

sent_lem :
    (server : Server) (r : Request) (log : List Request)
    → ((request server.read_health_scope r >>= λ _. pure tt) log).1 ≡ log ++ (r ∷ [])
unfolding ◌>>=◌ resume pure request
sent_lem server r log = elim (Result-cases (server.read_health_scope log r)) [
  | inl (o, accepted) ↦ rw accepted refl
  | inr (x, refused) ↦ rw refused refl
]

is_kube_get_lem :
    (event : HealthScopeObject)
    → event.spec.probe_method ≡ "kube-get"
    → event.spec.probe_endpoint ≡ ".status"
    → is_kube_get event ≡ true
unfolding is_kube_get
is_kube_get_lem event method endpoint = rw (is_kube_get, method, endpoint) refl

-- When a scope whose health is probed by "kube-get" at ".status" is due, the instance of each of its
-- components is read and the scope is then patched; and the health answered for what is patched is
-- "healthy" exactly when every instance was read and was healthy, whatever thresholds and required
-- components the scope sets.
pub scope_health-probed :
    (server : Server) (namespace : String) (chrono : Chrono) (event : HealthScopeObject)
    (components : List ComponentInfo) (log : List Request)
    → event.spec.probe_method ≡ "kube-get"
    → event.spec.probe_endpoint ≡ ".status"
    → and_then event.status (λ (s : HealthStatus). s.components) ≡ some components
    → time_to_aggregate chrono
        (chrono.now log)
        event.status
        (unwrap_or event.spec.probe_interval default_probe_interval)
      ≡ true
    → (probed : HealthScopeObject) × ((aggregate_component_health server namespace chrono event
          log).1
        ≡ (log ++ map (instance_get namespace) components)
          ++ (patch namespace health_scopes event.name (health_scope probed) ∷ []))
      × ((scope_health probed ≡ "healthy") ↔ AllHealthy server namespace components log)
unfolding aggregate_component_health aggregate_due probe patch_scope scope_health ◌>>=◌ resume pure
scope_health-probed server ns chrono event components log method endpoint held due =
    let (probed, found, healthy) = probe_all_lem server ns components log in
    let reads = log ++ map (instance_get ns) components in
    (
      with_components chrono event (some probed) reads,
      rw
          (
            aggregate_component_health,
            due,
            aggregate_due,
            is_kube_get_lem event method endpoint,
            held,
            probe,
            found,
            patch_scope,
          )
          (sent_lem server _ reads),
      healthy,
    )
