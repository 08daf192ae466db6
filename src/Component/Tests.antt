-- ===== src/Component/Tests.antt =====
-- Examples of the conversion of a component.
use rudr.Prelude.{
  ℕ, String, ◌≡◌, refl, ◌↔◌, none, some, List, [], ◌∷◌, ok, err, All, Any, concat_map, unwrap_or,
}
use rudr.BTreeMap
use rudr.StdText.{parent, file_name, show_nat}
use rudr.Json.Example.{example_serde}
use rudr.Component.{ConfigFile, Container, Component, default_component, to_node_selector}
use rudr.Component.Kube
use rudr.Component.Containers.{panic, configured_volume, to_containers}
use rudr.Component.PodSpec.{to_pod_spec}
use rudr.Component.Laws.{mounts_of, mount_names, volume_names, mount_names-to_pod_spec}
use rudr.Component.Panics.{HasRootConfig, to_pod_spec-panic_iff}
use rudr.Component.Configs.{ConfigMaps, evaluate_configs}
use rudr.Component.Configs.Laws.{HasSource, to_pod_spec-HasSource, config_name_collision}

abbrev nginx_conf : ConfigFile
nginx_conf = record { path = "/etc/nginx.conf"; value = some "user www"; from_param = none }

-- A container of the name with the files.
abbrev container : String → List ConfigFile → Container
container name files = record {
  name = name;
  image = "nginx";
  image_pull_secret = none;
  resources = record {
    cpu = record { required = 0 };
    memory = record { required = "64" };
    gpu = none;
    volumes = none;
    extended = none;
  };
  cmd = none;
  args = none;
  env = [];
  config = some files;
  ports = [];
  liveness_probe = none;
  readiness_probe = none;
}

abbrev component : Component
component = record default_component { containers = container "web" (nginx_conf ∷ []) ∷ [] }

abbrev no_f64 : ℕ → String
no_f64 _ = "0"

abbrev pod : Kube.PodSpec
pod = record {
  containers =
      record {
        name = "web";
        image = some "nginx";
        image_pull_policy = some "Always";
        resources =
            some
              (record { requests = some (("cpu", "0") ∷ ("memory", "64Mi") ∷ []); limits = none });
        ports = some [];
        command = none;
        args = none;
        env = some [];
        volume_mounts = some (record { mount_path = "/etc"; name = "web0"; read_only = none } ∷ []);
        liveness_probe = none;
        readiness_probe = none;
      }
      ∷ [];
  image_pull_secrets = some [];
  node_selector = none;
  volumes = some (
      record {
        name = "web0";
        config_map = some (some "web0");
        empty_dir = none;
        persistent_volume_claim = none;
      }
      ∷ []);
  restart_policy = none;
}

pod_lem : to_pod_spec example_serde no_f64 component [] ≡ ok pod
unfolding to_pod_spec to_containers rudr.Component.Containers.to_container parent to_node_selector
    show_nat rudr.Component.insert_some BTreeMap.insert
pod_lem = refl

abbrev configs : ConfigMaps
configs = ("web0", ("nginx.conf", "user www") ∷ []) ∷ []

configs_lem : evaluate_configs example_serde [] component ≡ ok configs
unfolding evaluate_configs file_name rudr.Parameter.resolve_value_string show_nat BTreeMap.insert
configs_lem = refl

mount_names-to_pod_spec_example :
    concat_map (λ k. mount_names (mounts_of k)) pod.containers
    ≡ volume_names (unwrap_or pod.volumes [])
mount_names-to_pod_spec_example =
    mount_names-to_pod_spec example_serde no_f64 component [] pod pod_lem

to_pod_spec-panic_iff_example :
    ((to_pod_spec example_serde no_f64 component [] ≡ err panic)
      ↔ Any HasRootConfig component.containers)
    × ((¬ Any HasRootConfig component.containers)
        → (p : Kube.PodSpec) × (to_pod_spec example_serde no_f64 component [] ≡ ok p))
to_pod_spec-panic_iff_example = to_pod_spec-panic_iff example_serde no_f64 component []

to_pod_spec-HasSource_example : All (HasSource configs) (unwrap_or pod.volumes [])
to_pod_spec-HasSource_example =
    to_pod_spec-HasSource example_serde no_f64 component [] pod configs pod_lem configs_lem

abbrev mount : String → Kube.VolumeMount
mount name = record { mount_path = "/etc"; name = name; read_only = none }

eleventh : configured_volume (container "web" []) 10 nginx_conf ≡ ok (mount "web10")
unfolding configured_volume parent show_nat
eleventh = refl

first : configured_volume (container "web1" []) 0 nginx_conf ≡ ok (mount "web10")
unfolding configured_volume parent show_nat
first = refl

shared_volume_name : (mount "web10").name ≡ (mount "web10").name
shared_volume_name =
    config_name_collision (container "web" []) (container "web1" []) nginx_conf nginx_conf
      (mount "web10") (mount "web10") refl eleventh first
