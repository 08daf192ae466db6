-- ===== src/Workload/Tests.antt =====
-- Examples of workloads: a server with one container that listens on a port.
use rudr.Prelude.{ℕ, String, ◌≡◌, refl, ◌↔◌, ◌⊎◌, none, some, List, [], ◌∷◌, ◌++◌, ok, err, All}
use rudr.Prelude.Int.{pos}
use rudr.BTreeMap
use rudr.Json.Example.{example_serde}
use rudr.Cluster.{KubeError}
use rudr.Component.{Container, Component, default_component, basic_port}
use rudr.Component.Kube.{PodSpec}
use rudr.Component.PodSpec.{to_pod_spec}
use rudr.Component.Configs.{evaluate_configs}
use rudr.Client.Example.{absent}
use rudr.Client.{Labels, Service, Request, Server, kube}
use rudr.Client.Laws.{run}
use rudr.Workload.{WorkloadMetadata}
use rudr.Workload.Builders.{to_deployment}
use rudr.Workload.Core.{
  replicated_server, replicated_worker, full_builder, full_service, validate, add,
}
use rudr.Workload.Plan.{plan}
use rudr.Workload.Addition.{add_lem, add_outcome}
use rudr.Workload.Selection.{IsWorker, validate_iff_no_ports, service_selects_pods}

abbrev web : Container
web = record {
  name = "web";
  image = "nginx";
  image_pull_secret = none;
  resources = record {
    cpu = record { required = 0 };
    memory = record { required = "64" };
    gpu = none;
    volumes = none;
    extended = none;
  };
  cmd = none;
  args = none;
  env = [];
  config = none;
  ports = basic_port "http" (pos 80) ∷ [];
  liveness_probe = none;
  readiness_probe = none;
}

abbrev meta : WorkloadMetadata
meta = record {
  name = "app";
  component_name = "frontend";
  instance_name = "first";
  namespace = "default";
  definition = record default_component { containers = web ∷ [] };
  params = [];
  owner_ref = none;
  annotations = none;
}

-- A server that accepts every request, and holds no object.
abbrev willing : Server
willing = record absent { accept = λ _ _. ok tt }

abbrev no_f64 : ℕ → String
no_f64 _ = "0"

abbrev pod : PodSpec
pod = record {
  containers =
      record {
        name = "web";
        image = some "nginx";
        image_pull_policy = some "Always";
        resources =
            some
              (record { requests = some (("cpu", "0") ∷ ("memory", "64Mi") ∷ []); limits = none });
        ports =
            some
              (record { container_port = pos 80; name = some "http"; protocol = some "TCP" } ∷ []);
        command = none;
        args = none;
        env = some [];
        volume_mounts = none;
        liveness_probe = none;
        readiness_probe = none;
      }
      ∷ [];
  image_pull_secrets = some [];
  node_selector = none;
  volumes = some [];
  restart_policy = none;
}

built : to_pod_spec example_serde no_f64 meta.definition [] ≡ ok pod
unfolding to_pod_spec rudr.Component.Containers.to_containers rudr.Component.Containers.to_container
    rudr.Component.to_node_selector rudr.Component.insert_some BTreeMap.insert
built = refl

evaluated : evaluate_configs example_serde [] meta.definition ≡ ok []
unfolding evaluate_configs
evaluated = refl

added_as_planned :
    add example_serde no_f64 willing (replicated_server meta) []
    ≡ run willing (plan (replicated_server meta) [] pod) []
added_as_planned =
    add_lem example_serde no_f64 willing (replicated_server meta) [] pod [] evaluated built

add_outcome_example :
    (add example_serde no_f64 willing (replicated_server meta) []
      ≡ (ok tt, [] ++ plan (replicated_server meta) [] pod))
    ⊎ ((ps : List Request) × (r : Request) × (rest : List Request) × (e : KubeError) × (plan
            (replicated_server meta)
            []
            pod
          ≡ ps ++ (r ∷ rest))
        × (willing.accept ([] ++ ps) r ≡ err e)
        × (add example_serde no_f64 willing (replicated_server meta) []
            ≡ (err (kube e), ([] ++ ps) ++ (r ∷ []))))
add_outcome_example =
    add_outcome example_serde no_f64 willing (replicated_server meta) [] pod [] evaluated built

validate_iff_no_ports_example :
    (validate (replicated_worker meta none) ≡ ok tt)
    ↔ (IsWorker (replicated_worker meta none) → All (λ (c : Container). c.ports ≡ []) (web ∷ []))
validate_iff_no_ports_example = validate_iff_no_ports (replicated_worker meta none)

abbrev service : Service
service = record {
  metadata = record {
    name = "first";
    labels = some (
        ("app.kubernetes.io/name", "app")
        ∷ ("oam.dev/instance-name", "first")
        ∷ ("oam.dev/workload-type", "Service")
        ∷ []);
    annotations = none;
    owner_references = none;
  };
  spec = record {
    selector = ("app.kubernetes.io/name", "app") ∷ ("oam.dev/instance-name", "first") ∷ [];
    ports =
        record {
          port = pos 80;
          target_port = some (pos 80);
          name = some "http";
          protocol = some "TCP";
        }
        ∷ [];
  };
}

service_lem : full_service meta "Service" ≡ some service
unfolding full_service rudr.Workload.Builders.to_service rudr.Workload.labels
    rudr.Workload.select_labels BTreeMap.insert rudr.Component.listening_port
    rudr.Component.Containers.to_service_port
service_lem = refl

selected : BTreeMap.get "app.kubernetes.io/name" service.spec.selector ≡ some "app"
unfolding BTreeMap.get
selected = refl

service_selects_pods_example :
    (l : Labels) × ((to_deployment
        (full_builder "Always" meta "Service")
        pod).template.metadata.labels
      ≡ some l)
    × (BTreeMap.get "app.kubernetes.io/name" l ≡ some "app")
service_selects_pods_example =
    service_selects_pods meta "Service" pod service "app.kubernetes.io/name" "app" service_lem
      selected
