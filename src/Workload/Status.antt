-- ===== src/Workload/Status.antt =====
-- The status of the workload types: what each reads, and what it creates again when an object is
-- not found.
use rudr.Prelude.{ℕ, String, ◌<>◌, Option, none, some, [], unwrap_or, if◌then◌else◌}
use rudr.Prelude.Int.{ℤ, pos, is_positive, int_eq}
use rudr.BTreeMap
use rudr.BTreeMap.{BTreeMap}
use rudr.Json.{Serde}
use rudr.Cluster.{contains}
use rudr.Client.{
  get_status, deployments, DeploymentStatus, Server, Error, kube, panicked, Action, request, pure,
  fail, ◌>>=◌, ◌>>◌, unwrap_or_else,
}
use rudr.Workload.{WorkloadMetadata, kube_name}
use rudr.Workload.Builders.{
  new_builder, deployment_request, statefulset_request, statefulset_status, get_job_status,
  service_request, get_service_status,
}
use rudr.Workload.Core.{
  CoreWorkload, replicated_server, singleton_server, singleton_task, replicated_task,
  singleton_worker, replicated_worker, full_builder, full_service,
}

unfoldable pub state_text : DeploymentStatus → String
state_text status =
    let replica = unwrap_or status.replicas (pos 0) in
    let available_replicas = unwrap_or status.available_replicas (pos 0) in
    let unavailable_replicas = unwrap_or status.unavailable_replicas (pos 0) in
    if int_eq available_replicas replica
    then "running"
    else if is_positive unavailable_replicas
    then "unavailable"
    else "updating"

abbrev deployment_state : Option DeploymentStatus → Action String
deployment_state none = fail panicked
deployment_state (some status) = pure (state_text status)

-- The closures given to `unwrap_or_else`: on an object that is not found it is created again, and
-- a failure of that is dropped; the error's text is the state.
unfoldable pub recreate : Action (Unit {0}) → Error → Action String
recreate again (kube e) =
    if contains "NotFound" e.text
    then unwrap_or_else again (λ _. pure tt) >> pure e.text
    else pure e.text
recreate again e = fail e

module _ (serde : Serde) (show_f64 : ℕ → String) (server : Server) where
  unfoldable pub deployment_status : WorkloadMetadata → Action String
  unfolding state_text
  deployment_status self = do
    status ← request server.read_deployment (get_status self.namespace deployments (kube_name self))
    deployment_state status

  unfoldable pub deployment_or_again : WorkloadMetadata → String → Action String
  unfolding deployment_status recreate
  deployment_or_again meta workload_type = unwrap_or_else (deployment_status meta) (
      recreate (
        deployment_request serde show_f64 server (full_builder "Always" meta workload_type)
          meta.namespace "add"))

  unfoldable pub statefulset_or_again : WorkloadMetadata → String → Action String
  unfolding recreate
  statefulset_or_again meta workload_type =
      unwrap_or_else
        (statefulset_status serde show_f64 server
          (new_builder "Always" (kube_name meta) meta.definition) meta.namespace)
        (recreate (
          statefulset_request serde show_f64 server (full_builder "Always" meta workload_type)
            meta.namespace "add"))

  unfoldable pub service_or_again : WorkloadMetadata → String → Action String
  unfolding recreate
  service_or_again meta workload_type =
      unwrap_or_else (get_service_status server (kube_name meta) meta.namespace) (
        recreate (
          service_request server (full_service meta workload_type) (kube_name meta) meta.namespace
            "add"))

  job_state : WorkloadMetadata → Action (BTreeMap String)
  job_state meta = do
    state ←
        get_job_status serde show_f64 server (new_builder "Never" (kube_name meta) meta.definition)
          meta.namespace
    pure (BTreeMap.insert ("job/" <> kube_name meta) state [])

  unfoldable pub replicated_server_status : WorkloadMetadata → Action (BTreeMap String)
  unfolding deployment_or_again service_or_again
  replicated_server_status meta = do
    state ← deployment_or_again meta "Service"
    svc_state ← service_or_again meta "Service"
    pure (
        BTreeMap.insert ("service/" <> kube_name meta) svc_state
          (BTreeMap.insert ("deployment/" <> kube_name meta) state []))

  unfoldable pub singleton_server_status : WorkloadMetadata → Action (BTreeMap String)
  unfolding statefulset_or_again service_or_again
  singleton_server_status meta = do
    state ← statefulset_or_again meta "SingletonServer"
    svc_state ← service_or_again meta "SingletonServer"
    pure (
        BTreeMap.insert ("service/" <> kube_name meta) svc_state
          (BTreeMap.insert ("statefulset/" <> kube_name meta) state []))

  unfoldable pub replicated_task_status : WorkloadMetadata → Option ℤ → Action (BTreeMap String)
  unfolding job_state
  replicated_task_status meta _ = job_state meta

  unfoldable pub singleton_task_status : WorkloadMetadata → Action (BTreeMap String)
  unfolding job_state
  singleton_task_status meta = job_state meta

  unfoldable pub replicated_worker_status : WorkloadMetadata → Option ℤ → Action (BTreeMap String)
  unfolding deployment_or_again
  replicated_worker_status meta _ = do
    state ← deployment_or_again meta "Worker"
    pure (BTreeMap.insert ("deployment/" <> kube_name meta) state [])

  unfoldable pub singleton_worker_status : WorkloadMetadata → Action (BTreeMap String)
  unfolding statefulset_or_again
  singleton_worker_status meta = do
    state ← statefulset_or_again meta "SingletonWorker"
    pure (BTreeMap.insert ("statefulset/" <> kube_name meta) state [])

  unfoldable pub status : CoreWorkload → Action (BTreeMap String)
  unfolding replicated_server_status singleton_server_status replicated_task_status
      singleton_task_status replicated_worker_status singleton_worker_status
  status (replicated_server meta) = replicated_server_status meta
  status (singleton_server meta) = singleton_server_status meta
  status (replicated_task meta n) = replicated_task_status meta n
  status (singleton_task meta) = singleton_task_status meta
  status (replicated_worker meta n) = replicated_worker_status meta n
  status (singleton_worker meta) = singleton_worker_status meta
