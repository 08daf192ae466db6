-- ===== src/Component.antt =====
-- src/schematic/component.rs: the schematic of a component.
-- An `f64` is held as its bit pattern and an `i32` as an integer.
pub mod Kube
pub mod Containers
pub mod PodSpec
pub mod Configs
pub mod Laws
pub mod Panics
mod Tests
use rudr.Prelude.{
  ℕ, String, Bool, true, false, Option, none, some, List, [], ◌∷◌, ◌==◌, find, find_map,
  if◌then◌else◌,
}
use rudr.Prelude.Int.{ℤ, pos}
use rudr.BTreeMap
use rudr.BTreeMap.{BTreeMap}
use rudr.Json.{Value}
use rudr.Parameter.{Parameter, ParameterType, ParamMap, resolve_value}

pub data AccessMode : Type 0 where
  rw ro : AccessMode

pub data SharingPolicy : Type 0 where
  shared exclusive : SharingPolicy

pub data PortProtocol : Type 0 where
  tcp udp sctp : PortProtocol

unfoldable pub protocol_text : PortProtocol → String
protocol_text udp = "UDP"
protocol_text sctp = "SCTP"
protocol_text tcp = "TCP"

pub record Cpu : Type 0 where
  pub required : ℕ

pub record Memory : Type 0 where
  pub required : String

pub record Gpu : Type 0 where
  pub required : ℕ

pub record Disk : Type 0 where
  pub required : String
  pub ephemeral : Bool

pub record Volume : Type 0 where
  pub name : String
  pub mount_path : String
  pub access_mode : AccessMode
  pub sharing_policy : SharingPolicy
  pub disk : Option Disk

pub record ExtendedResource : Type 0 where
  pub name : String
  pub required : String

pub record Resources : Type 0 where
  pub cpu : Cpu
  pub memory : Memory
  pub gpu : Option Gpu
  pub volumes : Option (List Volume)
  pub extended : Option (List ExtendedResource)

pub record Exec : Type 0 where
  pub command : List String

pub record HttpHeader : Type 0 where
  pub name : String
  pub value : String

pub record HttpGet : Type 0 where
  pub path : String
  pub port : ℤ
  pub http_headers : List HttpHeader

pub record TcpSocket : Type 0 where
  pub port : ℤ

pub record HealthProbe : Type 0 where
  pub exec : Option Exec
  pub http_get : Option HttpGet
  pub tcp_socket : Option TcpSocket
  pub initial_delay_seconds : ℤ
  pub period_seconds : ℤ
  pub timeout_seconds : ℤ
  pub success_threshold : ℤ
  pub failure_threshold : ℤ

abbrev pub default_health_probe : HealthProbe
default_health_probe = record {
  exec = none;
  http_get = none;
  tcp_socket = none;
  initial_delay_seconds = pos 0;
  period_seconds = pos 10;
  timeout_seconds = pos 1;
  success_threshold = pos 1;
  failure_threshold = pos 3;
}

pub record Port : Type 0 where
  pub name : String
  pub container_port : ℤ
  pub protocol : PortProtocol

abbrev pub basic_port : String → ℤ → Port
basic_port name container_port = record {
  name = name;
  container_port = container_port;
  protocol = tcp;
}

pub record Env : Type 0 where
  pub name : String
  pub value : Option String
  pub from_param : Option String

pub record ConfigFile : Type 0 where
  pub path : String
  pub value : Option String
  pub from_param : Option String

pub record WorkloadSetting : Type 0 where
  pub name : String
  pub description : Option String
  pub parameter_type : ParameterType
  pub required : Bool
  pub value : Option Value
  pub from_param : Option String

pub record Container : Type 0 where
  pub name : String
  pub image : String
  pub image_pull_secret : Option String
  pub resources : Resources
  pub cmd : Option (List String)
  pub args : Option (List String)
  pub env : List Env
  pub config : Option (List ConfigFile)
  pub ports : List Port
  pub liveness_probe : Option HealthProbe
  pub readiness_probe : Option HealthProbe

pub record Component : Type 0 where
  pub workload_type : String
  pub os_type : Option String
  pub arch : Option String
  pub parameters : List Parameter
  pub containers : List Container
  pub workload_settings : List WorkloadSetting

abbrev pub default_component : Component
default_component = record {
  workload_type = "core.oam.dev/v1alpha1.Singleton";
  os_type = none;
  arch = none;
  parameters = [];
  containers = [];
  workload_settings = [];
}

unfoldable pub resolve_param : WorkloadSetting → ParamMap → Option Value
unfolding resolve_value
resolve_param s params = resolve_value params s.from_param s.value

-- The first port of the first container that has one.
unfoldable pub listening_port : Component → Option Port
listening_port self =
    find_map (λ (e : Container). find_map (λ (p : Port). some p) e.ports) self.containers

unfoldable pub insert_some : String → Option String → BTreeMap String → BTreeMap String
insert_some k none m = m
insert_some k (some v) m = BTreeMap.insert k v m

unfoldable pub to_node_selector : Component → Option (BTreeMap String)
unfolding insert_some
to_node_selector self =
    let selector =
      insert_some "kubernetes.io/arch" self.arch (insert_some "kubernetes.io/os" self.os_type []) in
    if BTreeMap.is_empty selector then none else some selector

unfoldable pub get_workload_setting : Component → String → Option WorkloadSetting
get_workload_setting self key =
    find (λ (item : WorkloadSetting). item.name == key) self.workload_settings
