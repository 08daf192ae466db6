-- ===== src/Workload/Builders.antt =====
-- src/workload_type/workload_builder.rs and statefulset_builder.rs: the builders of Kubernetes
-- objects. A setter of a builder is the update of its field.
use rudr.Prelude.{
  ℕ, String, Bool, false, Option, none, some, List, [], ◌∷◌, Result, ok, err, unwrap_or, map_some,
  if◌then◌else◌, ◌==◌,
}
use rudr.Prelude.Int.{ℤ, pos, is_positive, int_eq}
use rudr.Json.{Serde}
use rudr.Parameter.{ParamMap}
use rudr.Component.{Component, Port, listening_port}
use rudr.Component.Kube.{PodSpec}
use rudr.Component.Containers.{Panic, to_service_port}
use rudr.Component.PodSpec.{to_pod_spec_with_policy}
use rudr.Component.Configs.{evaluate_configs}
use rudr.Client.{
  Labels, OwnerRefs, Metadata, Deployment, StatefulSet, Job, Service, ConfigMap, PodTemplate,
  config_map, deployment, stateful_set, job, service, service_spec, config_maps, deployments,
  stateful_sets, jobs, services, create, patch, delete, get_status, StatefulSetStatus, JobStatus,
  Server, Error, panicked, Action, request, pure, fail, ◌>>=◌, ◌>>◌,
}
use rudr.Workload.{to_config_maps}

-- `form_metadata`
unfoldable pub form_metadata : String → Labels → OwnerRefs → Metadata
form_metadata name labels owner_references = record {
  name = name;
  labels = some labels;
  annotations = none;
  owner_references = owner_references;
}

-- The fields that the builders of deployments, stateful sets and jobs share.
pub record PodBuilder : Type 0 where
  pub component : Component
  pub labels : Labels
  pub annotations : Option Labels
  pub name : String
  pub restart_policy : String
  pub owner_ref : OwnerRefs
  pub param_vals : ParamMap

-- `parallelism` is a field of the builder of jobs only.
unfoldable pub new_builder : String → String → Component → PodBuilder
new_builder restart_policy instance_name component = record {
  component = component;
  labels = [];
  annotations = none;
  name = instance_name;
  restart_policy = restart_policy;
  owner_ref = none;
  param_vals = [];
}

abbrev pub or_panic : {A : Type 0} → Result Panic A → Action A
or_panic (ok a) = pure a
or_panic (err _) = fail panicked

unfoldable pub pod_template : PodBuilder → PodSpec → PodTemplate
pod_template self spec = record {
  metadata = record {
    name = self.name;
    labels = some self.labels;
    annotations = self.annotations;
    owner_references = self.owner_ref;
  };
  spec = spec;
}

-- `match phase { "modify" => .., "delete" => .., _ => .. }`
unfoldable pub by_phase :
    String → Action (Unit {0}) → Action (Unit {0}) → Action (Unit {0}) → Action (Unit {0})
by_phase phase if_modify if_delete other =
    if phase == "modify" then if_modify else if phase == "delete" then if_delete else other

-- The loops that create config maps.
unfoldable pub create_all : Server → String → List ConfigMap → Action (Unit {0})
create_all server namespace [] = pure tt
create_all server namespace (config ∷ configs) =
    request server.accept (create namespace config_maps (config_map config))
    >> create_all server namespace configs

-- `ServiceBuilder`, whose fields are the component, the labels, the selector, the name and the
-- owners.
unfoldable pub to_service : Component → Labels → Labels → String → OwnerRefs → Option Service
unfolding form_metadata to_service_port
to_service component labels selector name owner_ref =
    map_some
      (λ (port : Port). record {
        metadata = form_metadata name labels owner_ref;
        spec = record { selector = selector; ports = to_service_port port ∷ [] };
      })
      (listening_port component)

unfoldable pub to_deployment : PodBuilder → PodSpec → Deployment
unfolding form_metadata pod_template
to_deployment self spec = record {
  metadata = form_metadata self.name self.labels self.owner_ref;
  replicas = none;
  match_labels = self.labels;
  template = pod_template self spec;
}

unfoldable pub to_statefulset : PodBuilder → PodSpec → StatefulSet
unfolding form_metadata pod_template
to_statefulset self spec = record {
  metadata = form_metadata self.name self.labels self.owner_ref;
  match_labels = self.labels;
  template = pod_template self spec;
}

unfoldable pub to_job : PodBuilder → Option ℤ → PodSpec → Job
unfolding form_metadata pod_template
to_job self parallelism spec = record {
  metadata = form_metadata self.name self.labels self.owner_ref;
  backoff_limit = pos 4;
  parallelism = parallelism;
  template = pod_template self spec;
}

module _ (serde : Serde) (show_f64 : ℕ → String) (server : Server) where
  unfoldable pub pod_spec : PodBuilder → Result Panic PodSpec
  unfolding to_pod_spec_with_policy
  pod_spec self =
      to_pod_spec_with_policy serde show_f64 self.component self.param_vals self.restart_policy

  unfoldable pub deployment_request : PodBuilder → String → String → Action (Unit {0})
  unfolding to_deployment by_phase
  deployment_request self namespace phase = do
    spec ← or_panic (pod_spec self)
    let built = deployment (to_deployment self spec)
    by_phase phase (request server.accept (patch namespace deployments self.name built))
        (request server.accept (delete namespace deployments self.name))
        (request server.accept (create namespace deployments built))

  unfoldable pub statefulset_request : PodBuilder → String → String → Action (Unit {0})
  unfolding to_statefulset by_phase
  statefulset_request self namespace phase = do
    spec ← or_panic (pod_spec self)
    let built = stateful_set (to_statefulset self spec)
    by_phase phase (request server.accept (patch namespace stateful_sets self.name built))
        (request server.accept (delete namespace stateful_sets self.name))
        (request server.accept (create namespace stateful_sets built))

  abbrev statefulset_state : Option StatefulSetStatus → Action String
  statefulset_state none = fail panicked
  statefulset_state (some status) = pure (
      if int_eq (unwrap_or status.ready_replicas (pos 0)) status.replicas
      then "running"
      else "updating")

  unfoldable pub statefulset_status : PodBuilder → String → Action String
  statefulset_status self namespace = do
    sts ← request server.read_stateful_set (get_status namespace stateful_sets self.name)
    statefulset_state sts

  unfoldable pub job_request : PodBuilder → Option ℤ → String → String → Action (Unit {0})
  unfolding to_job by_phase create_all
  job_request self parallelism namespace phase = do
    spec ← or_panic (pod_spec self)
    let built = job (to_job self parallelism spec)
    by_phase phase (request server.accept (patch namespace jobs self.name built))
        (request server.accept (delete namespace jobs self.name))
        (do
          configs ← or_panic (evaluate_configs serde self.param_vals self.component)
          create_all server namespace (to_config_maps configs self.owner_ref (some self.labels))
          request server.accept (create namespace jobs built))

  abbrev pub exceeds_zero : Option ℤ → Bool
  exceeds_zero none = false
  exceeds_zero (some n) = is_positive n

  abbrev job_state : Option JobStatus → Action String
  job_state none = fail panicked
  job_state (some status) = pure (
      if exceeds_zero status.active
      then "running"
      else if exceeds_zero status.failed
      then "failed"
      else "succeeded")

  -- An error of the request is the state.
  unfoldable pub read_failure : Error → Action String
  read_failure (Error.kube e) = pure e.text
  read_failure e = fail e

  unfoldable pub get_job_status : PodBuilder → String → Action String
  unfolding read_failure
  get_job_status self namespace log =
      let (answer, log') = request server.read_job (get_status namespace jobs self.name) log in
      elim answer [ ok status ↦ job_state status log' | err e ↦ read_failure e log' ]

module _ (server : Server) where
  -- A service is patched with its specification alone.
  unfoldable pub service_request : Option Service → String → String → String → Action (Unit {0})
  unfolding by_phase
  service_request none name namespace phase = pure tt
  service_request (some svc) name namespace phase =
      by_phase phase (request server.accept (patch namespace services name (service_spec svc.spec)))
        (request server.accept (delete namespace services name))
        (request server.accept (create namespace services (service svc)))

  abbrev service_state : Option (Unit {0}) → Action String
  service_state none = pure "not existed"
  service_state (some _) = pure "created"

  unfoldable pub get_service_status : String → String → Action String
  get_service_status name namespace = do
    status ← request server.read_service (get_status namespace services name)
    service_state status
