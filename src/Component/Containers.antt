-- ===== src/Component/Containers.antt =====
-- The conversion of a container: `to_containers` and the methods that it calls.
-- An `unwrap` of `None` is the error `panic`.
use rudr.Prelude.{
  ℕ, suc, String, Bool, true, false, Option, none, some, List, [], ◌∷◌, ◌++◌, map, ◌<>◌, Result, ok,
  ◌>>=◌, map_some, unwrap_or, ok_or,
}
use rudr.BTreeMap
use rudr.StdText.{parent, show_nat}
use rudr.Json.{Serde}
use rudr.Parameter.{ParamMap, resolve_value_string}
use rudr.Component.{
  AccessMode, rw, ro, Volume, Resources, Exec, HttpHeader, HttpGet, TcpSocket, HealthProbe, Port,
  protocol_text, Env, ConfigFile, Container, Component,
}
use rudr.Component.Kube

pub data Panic : Type 0 where
  panic : Panic

abbrev pub is_read_only : AccessMode → Bool
is_read_only ro = true
is_read_only rw = false

unfoldable pub to_container_port : Port → Kube.ContainerPort
unfolding protocol_text
to_container_port p = record {
  container_port = p.container_port;
  name = some p.name;
  protocol = some (protocol_text p.protocol);
}

unfoldable pub to_service_port : Port → Kube.ServicePort
unfolding protocol_text
to_service_port p = record {
  port = p.container_port;
  target_port = some p.container_port;
  name = some p.name;
  protocol = some (protocol_text p.protocol);
}

to_kube_header : HttpHeader → Kube.HttpHeader
to_kube_header h = record { name = h.name; value = h.value }

to_http_get_action : HttpGet → Kube.HttpGetAction
unfolding to_kube_header
to_http_get_action a = record {
  http_headers = some (map to_kube_header a.http_headers);
  path = some a.path;
  port = a.port;
}

to_tcp_socket_action : TcpSocket → Kube.TcpSocketAction
to_tcp_socket_action t = record { port = t.port }

unfoldable pub to_probe : HealthProbe → Kube.Probe
unfolding to_http_get_action to_tcp_socket_action
to_probe p = record {
  failure_threshold = some p.failure_threshold;
  period_seconds = some p.period_seconds;
  timeout_seconds = some p.timeout_seconds;
  success_threshold = some p.success_threshold;
  initial_delay_seconds = some p.initial_delay_seconds;
  exec = map_some (λ (c : Exec). record { command = some c.command }) p.exec;
  http_get = map_some to_http_get_action p.http_get;
  tcp_socket = map_some to_tcp_socket_action p.tcp_socket;
}

unfoldable pub to_env_var : Serde → ParamMap → Env → Kube.EnvVar
unfolding resolve_value_string
to_env_var serde params e = record {
  name = e.name;
  value = resolve_value_string serde params e.from_param e.value;
}

-- `show_f64` is `to_string` of an `f64`.
unfoldable pub to_resource_requirements : (ℕ → String) → Resources → Kube.ResourceRequirements
to_resource_requirements show_f64 r = record {
  requests = some (
      BTreeMap.insert "memory" (r.memory.required <> "Mi")
        (BTreeMap.insert "cpu" (show_f64 r.cpu.required) []));
  limits = none;
}

unfoldable pub configured_volume : Container → ℕ → ConfigFile → Result Panic Kube.VolumeMount
configured_volume self file_index config_file = do
  path ← ok_or panic (parent config_file.path)
  ok (record { mount_path = path; name = self.name <> show_nat file_index; read_only = none })

-- `iter().enumerate().map(..).collect()`, from an index on.
unfoldable pub configured_volumes :
    Container → ℕ → List ConfigFile → Result Panic (List Kube.VolumeMount)
unfolding configured_volume
configured_volumes self i [] = ok []
configured_volumes self i (conf ∷ confs) = do
  mount ← configured_volume self i conf
  mounts ← configured_volumes self (suc i) confs
  ok (mount ∷ mounts)

unfoldable pub resource_volume : Volume → Kube.VolumeMount
resource_volume vol = record {
  mount_path = vol.mount_path;
  name = vol.name;
  read_only = some (is_read_only vol.access_mode);
}

unfoldable pub none_if_empty : List Kube.VolumeMount → Option (List Kube.VolumeMount)
none_if_empty [] = none
none_if_empty (v ∷ vs) = some (v ∷ vs)

unfoldable pub volume_mounts : Container → Result Panic (Option (List Kube.VolumeMount))
unfolding configured_volumes resource_volume none_if_empty
volume_mounts self = do
  configured ← configured_volumes self 0 (unwrap_or self.config [])
  ok (none_if_empty (configured ++ map resource_volume (unwrap_or self.resources.volumes [])))

module _ (serde : Serde) (show_f64 : ℕ → String) where
  unfoldable pub to_container : ParamMap → Container → Result Panic Kube.Container
  unfolding volume_mounts to_container_port to_env_var to_probe to_resource_requirements
  to_container resolved_vals c = do
    mounts ← volume_mounts c
    ok (record {
      name = c.name;
      image = some c.image;
      image_pull_policy = some "Always";
      resources = some (to_resource_requirements show_f64 c.resources);
      ports = some (map to_container_port c.ports);
      command = c.cmd;
      args = c.args;
      env = some (map (to_env_var serde resolved_vals) c.env);
      volume_mounts = mounts;
      liveness_probe = map_some to_probe c.liveness_probe;
      readiness_probe = map_some to_probe c.readiness_probe;
    })

  unfoldable pub convert_all : ParamMap → List Container → Result Panic (List Kube.Container)
  convert_all resolved_vals [] = ok []
  convert_all resolved_vals (c ∷ cs) = do
    k ← to_container resolved_vals c
    ks ← convert_all resolved_vals cs
    ok (k ∷ ks)

  unfoldable pub to_containers : Component → ParamMap → Result Panic (List Kube.Container)
  unfolding convert_all
  to_containers self resolved_vals = convert_all resolved_vals self.containers
