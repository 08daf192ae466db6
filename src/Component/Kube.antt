-- ===== src/Component/Kube.antt =====
-- The Kubernetes objects that a component is converted to: the fields of `k8s_openapi` that the
-- sources set. Every other field has its default.
use rudr.Prelude.{String, Bool, Option, List}
use rudr.Prelude.Int.{ℤ}
use rudr.BTreeMap.{BTreeMap}

pub record VolumeMount : Type 0 where
  pub mount_path : String
  pub name : String
  pub read_only : Option Bool

pub record ContainerPort : Type 0 where
  pub container_port : ℤ
  pub name : Option String
  pub protocol : Option String

-- `target_port` is an `IntOrString::Int`, as are the ports of the probes.
pub record ServicePort : Type 0 where
  pub port : ℤ
  pub target_port : Option ℤ
  pub name : Option String
  pub protocol : Option String

-- `value_from` is always `None`.
pub record EnvVar : Type 0 where
  pub name : String
  pub value : Option String

pub record ExecAction : Type 0 where
  pub command : Option (List String)

pub record HttpHeader : Type 0 where
  pub name : String
  pub value : String

pub record HttpGetAction : Type 0 where
  pub http_headers : Option (List HttpHeader)
  pub path : Option String
  pub port : ℤ

pub record TcpSocketAction : Type 0 where
  pub port : ℤ

pub record Probe : Type 0 where
  pub failure_threshold : Option ℤ
  pub period_seconds : Option ℤ
  pub timeout_seconds : Option ℤ
  pub success_threshold : Option ℤ
  pub initial_delay_seconds : Option ℤ
  pub exec : Option ExecAction
  pub http_get : Option HttpGetAction
  pub tcp_socket : Option TcpSocketAction

-- A `Quantity` is its text.
pub record ResourceRequirements : Type 0 where
  pub requests : Option (BTreeMap String)
  pub limits : Option (BTreeMap String)

pub record Container : Type 0 where
  pub name : String
  pub image : Option String
  pub image_pull_policy : Option String
  pub resources : Option ResourceRequirements
  pub ports : Option (List ContainerPort)
  pub command : Option (List String)
  pub args : Option (List String)
  pub env : Option (List EnvVar)
  pub volume_mounts : Option (List VolumeMount)
  pub liveness_probe : Option Probe
  pub readiness_probe : Option Probe

pub record ClaimSource : Type 0 where
  pub claim_name : String
  pub read_only : Option Bool

-- `config_map` and `empty_dir` are the fields of their sources: the name of a config map, and the
-- size limit of an empty directory.
pub record Volume : Type 0 where
  pub name : String
  pub config_map : Option (Option String)
  pub empty_dir : Option (Option String)
  pub persistent_volume_claim : Option ClaimSource

-- An element of `image_pull_secrets` is the name of its local object reference.
pub record PodSpec : Type 0 where
  pub containers : List Container
  pub image_pull_secrets : Option (List (Option String))
  pub node_selector : Option (BTreeMap String)
  pub volumes : Option (List Volume)
  pub restart_policy : Option String
