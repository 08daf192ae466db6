-- ===== src/Workload/Selection.antt =====
-- Which workloads are valid, and which pods the service of a server selects.
use rudr.Prelude.{
  String, ◌≡◌, refl, ◌↔◌, none, some, List, [], ◌∷◌, ok, arith, eq_iff, false, true, ◌==◌,
  if◌then◌else◌, All, find, ◌⊎◌, inl, inr, Option-cases,
}
use rudr.BTreeMap
use rudr.Component.{Container, listening_port}
use rudr.Component.Kube.{PodSpec}
use rudr.BTreeMap.Laws.{map_laws}
use rudr.Client.{Labels, Service}
use rudr.Workload.{WorkloadMetadata, labels, select_labels}
use rudr.Workload.Builders.{to_service, pod_template, to_deployment}
use rudr.Workload.Core.{
  CoreWorkload, replicated_server, singleton_server, singleton_task, replicated_task,
  singleton_worker, replicated_worker, metadata_of, full_builder, full_service, has_ports,
  validate_worker, validate,
}

abbrev pub IsWorker : CoreWorkload → Type 0
IsWorker (singleton_worker _) = Unit
IsWorker (replicated_worker _ _) = Unit
IsWorker _ = ⊥

find-has_ports :
    (cs : List Container)
    → ((find has_ports cs ≡ none) × All (λ (c : Container). c.ports ≡ []) cs)
      ⊎ ((c : Container) × (find has_ports cs ≡ some c)
          × (¬ All (λ (c : Container). c.ports ≡ []) cs))
unfolding has_ports
find-has_ports [] = inl (refl, tt)
find-has_ports (c ∷ cs) = ground (arith, find-has_ports cs)

validate_worker_iff :
    (meta : WorkloadMetadata)
    → (validate_worker meta ≡ ok tt)
      ↔ All (λ (c : Container). c.ports ≡ []) meta.definition.containers
unfolding validate_worker
validate_worker_iff meta = ground (arith, find-has_ports meta.definition.containers)

get-select_labels :
    (meta : WorkloadMetadata) (k : String)
    → BTreeMap.get k (select_labels meta) ≡ (
        if "oam.dev/instance-name" == k
        then some meta.instance_name
        else if "app.kubernetes.io/name" == k
        then some meta.name
        else none)
unfolding select_labels
get-select_labels meta k = simp map_laws

get-labels :
    (meta : WorkloadMetadata) (label k : String)
    → BTreeMap.get k (labels meta label) ≡ (
        if "oam.dev/instance-name" == k
        then some meta.instance_name
        else if "oam.dev/workload-type" == k
        then some label
        else if "app.kubernetes.io/name" == k
        then some meta.name
        else none)
unfolding labels
get-labels meta label k = simp map_laws

other_key : (a b k : String) → (a == b) ≡ false → (a == k) ≡ true → (b == k) ≡ false
other_key a b k differ at_a = ground (arith, eq_iff a k, eq_iff b k, eq_iff a b)

labels-select_labels :
    (meta : WorkloadMetadata) (label k v : String)
    → BTreeMap.get k (select_labels meta) ≡ some v
    → BTreeMap.get k (labels meta label) ≡ some v
labels-select_labels meta label k v h = ground (
  arith,
  get-labels meta label k,
  get-select_labels meta k,
  other_key "oam.dev/workload-type" "app.kubernetes.io/name" k refl,
)

selector_lem :
    (meta : WorkloadMetadata) (label : String) (s : Service)
    → full_service meta label ≡ some s
    → s.spec.selector ≡ select_labels meta
unfolding full_service to_service
selector_lem meta label s h = elim (Option-cases (listening_port meta.definition)) [
  | inl absent ↦ ground arith
  | inr (port, found) ↦ ground arith
]

-- A worker is valid exactly when none of its containers declares a port; every other workload of
-- the specification is valid.
pub validate_iff_no_ports :
    (w : CoreWorkload)
    → (validate w ≡ ok tt)
      ↔ (IsWorker w → All (λ (c : Container). c.ports ≡ []) (metadata_of w).definition.containers)
unfolding validate
validate_iff_no_ports (singleton_worker meta) =
    let iff = validate_worker_iff meta in (λ e _. iff.0 e, λ h. iff.1 (h tt))
validate_iff_no_ports (replicated_worker meta _) =
    let iff = validate_worker_iff meta in (λ e _. iff.0 e, λ h. iff.1 (h tt))
validate_iff_no_ports (replicated_server _) = (λ _ h. absurd h, λ _. refl)
validate_iff_no_ports (singleton_server _) = (λ _ h. absurd h, λ _. refl)
validate_iff_no_ports (replicated_task _ _) = (λ _ h. absurd h, λ _. refl)
validate_iff_no_ports (singleton_task _) = (λ _ h. absurd h, λ _. refl)

-- Every label that the service of a server selects is, with its value, a label of the pods that
-- its deployment runs.
pub service_selects_pods :
    (meta : WorkloadMetadata) (label : String) (pod : PodSpec) (s : Service) (k v : String)
    → full_service meta label ≡ some s
    → BTreeMap.get k s.spec.selector ≡ some v
    → (l : Labels) × ((to_deployment
          (full_builder "Always" meta label)
          pod).template.metadata.labels
        ≡ some l)
      × (BTreeMap.get k l ≡ some v)
unfolding full_service to_service select_labels labels to_deployment pod_template full_builder
service_selects_pods meta label pod s k v h e = (
  labels meta label,
  refl,
  labels-select_labels meta label k v (rw (selector_lem meta label s h) at e),
)
