-- ===== src/Workload/Core.antt =====
-- src/workload_type.rs, server.rs, task.rs and worker.rs: the workload types of the specification
-- and their operations.
-- `add`, `modify` and the others of a type that has no override take the trait's default.
use rudr.Prelude.{
  ℕ, String, ◌<>◌, Bool, true, false, Option, none, some, [], ◌∷◌, Result, ok, err, unwrap_or, find,
}
use rudr.Prelude.Int.{ℤ, pos}
use rudr.Json.{Serde}
use rudr.Component.{Container}
use rudr.Client.{Service, Server, Error, message, Action, fail, ◌>>=◌, ◌>>◌}
use rudr.Workload.{WorkloadMetadata, labels, select_labels, kube_name, metadata_config_maps}
use rudr.Workload.Builders.{
  PodBuilder, new_builder, or_panic, create_all, deployment_request, statefulset_request,
  job_request, to_service, service_request,
}

pub data CoreWorkload : Type 0 where
  replicated_server : WorkloadMetadata → CoreWorkload
  singleton_server : WorkloadMetadata → CoreWorkload
  singleton_task : WorkloadMetadata → CoreWorkload
  replicated_task : WorkloadMetadata → Option ℤ → CoreWorkload
  singleton_worker : WorkloadMetadata → CoreWorkload
  replicated_worker : WorkloadMetadata → Option ℤ → CoreWorkload

abbrev pub metadata_of : CoreWorkload → WorkloadMetadata
metadata_of (replicated_server meta) = meta
metadata_of (singleton_server meta) = meta
metadata_of (singleton_task meta) = meta
metadata_of (replicated_task meta _) = meta
metadata_of (singleton_worker meta) = meta
metadata_of (replicated_worker meta _) = meta

-- The type that a workload's labels name.
abbrev pub label_of : CoreWorkload → String
label_of (replicated_server _) = "Service"
label_of (singleton_server _) = "SingletonServer"
label_of (singleton_task _) = "SingletonTask"
label_of (replicated_task _ _) = "Task"
label_of (singleton_worker _) = "SingletonWorker"
label_of (replicated_worker _ _) = "Worker"

-- `XBuilder::new(..)` with what `add` and `modify` set on it.
unfoldable pub full_builder : String → WorkloadMetadata → String → PodBuilder
unfolding new_builder labels
full_builder restart_policy meta workload_type =
    record (new_builder restart_policy (kube_name meta) meta.definition) {
      param_vals = meta.params;
      labels = labels meta workload_type;
      annotations = meta.annotations;
      owner_ref = meta.owner_ref;
    }

-- The service builder of `add` and `modify`, and that of `delete`.
unfoldable pub full_service : WorkloadMetadata → String → Option Service
unfolding to_service labels select_labels
full_service meta workload_type =
    to_service meta.definition (labels meta workload_type) (select_labels meta) (kube_name meta)
      meta.owner_ref

unfoldable pub bare_service : WorkloadMetadata → Option Service
unfolding to_service
bare_service meta = to_service meta.definition [] [] (kube_name meta) none

-- `validate_worker`
unfoldable pub has_ports : Container → Bool
has_ports c = elim c.ports [ [] ↦ false | _ ∷ _ ↦ true ]

unfoldable pub validate_worker : WorkloadMetadata → Result Error (Unit {0})
unfolding has_ports
validate_worker meta = elim (find has_ports meta.definition.containers) [
  | some c ↦ err (message ("Worker container named " <> (c.name <> " has a port declared")))
  | none ↦ ok tt
]

unfoldable pub validate : CoreWorkload → Result Error (Unit {0})
unfolding validate_worker
validate (singleton_worker meta) = validate_worker meta
validate (replicated_worker meta _) = validate_worker meta
validate _ = ok tt

module _ (serde : Serde) (show_f64 : ℕ → String) (server : Server) where
  unfoldable pub create_config_maps : WorkloadMetadata → String → Action (Unit {0})
  unfolding metadata_config_maps create_all
  create_config_maps meta workload_type = do
    configs ← or_panic (metadata_config_maps serde meta workload_type)
    create_all server meta.namespace configs

  abbrev always : WorkloadMetadata → String → PodBuilder
  always = full_builder "Always"

  abbrev bare : String → WorkloadMetadata → PodBuilder
  bare policy meta = new_builder policy (kube_name meta) meta.definition

  -- `full_builder` of a task has the policy "Never", as its builder.
  unfoldable pub replicated_server_add : WorkloadMetadata → Action (Unit {0})
  unfolding create_config_maps deployment_request service_request
  replicated_server_add meta = do
    create_config_maps meta "Service"
    deployment_request serde show_f64 server (always meta "Service") meta.namespace "add"
    service_request server (full_service meta "Service") (kube_name meta) meta.namespace "add"

  unfoldable pub singleton_server_add : WorkloadMetadata → Action (Unit {0})
  unfolding create_config_maps statefulset_request service_request
  singleton_server_add meta = do
    create_config_maps meta "singleton-service"
    statefulset_request serde show_f64 server (always meta "SingletonServer") meta.namespace "add"
    service_request server (full_service meta "SingletonServer") (kube_name meta) meta.namespace
        "add"

  unfoldable pub replicated_task_add : WorkloadMetadata → Option ℤ → Action (Unit {0})
  unfolding job_request
  replicated_task_add meta replica_count =
      job_request serde show_f64 server (full_builder "Never" meta "Task")
        (some (unwrap_or replica_count (pos 1))) meta.namespace "add"

  unfoldable pub singleton_task_add : WorkloadMetadata → Action (Unit {0})
  unfolding job_request
  singleton_task_add meta =
      job_request serde show_f64 server (full_builder "Never" meta "SingletonTask") none
        meta.namespace "add"

  unfoldable pub replicated_worker_add : WorkloadMetadata → Option ℤ → Action (Unit {0})
  unfolding create_config_maps deployment_request
  replicated_worker_add meta _ = do
    create_config_maps meta "Worker"
    deployment_request serde show_f64 server (always meta "Worker") meta.namespace "add"

  unfoldable pub singleton_worker_add : WorkloadMetadata → Action (Unit {0})
  unfolding create_config_maps statefulset_request
  singleton_worker_add meta = do
    create_config_maps meta "SingletonWorker"
    statefulset_request serde show_f64 server (always meta "SingletonWorker") meta.namespace "add"

  unfoldable pub add : CoreWorkload → Action (Unit {0})
  unfolding replicated_server_add singleton_server_add replicated_task_add singleton_task_add
      replicated_worker_add singleton_worker_add
  add (replicated_server meta) = replicated_server_add meta
  add (singleton_server meta) = singleton_server_add meta
  add (replicated_task meta n) = replicated_task_add meta n
  add (singleton_task meta) = singleton_task_add meta
  add (replicated_worker meta n) = replicated_worker_add meta n
  add (singleton_worker meta) = singleton_worker_add meta

  unfoldable pub replicated_server_modify : WorkloadMetadata → Action (Unit {0})
  unfolding deployment_request service_request
  replicated_server_modify meta = do
    deployment_request serde show_f64 server (always meta "Service") meta.namespace "modify"
    service_request server (full_service meta "Service") (kube_name meta) meta.namespace "modify"

  unfoldable pub singleton_server_modify : WorkloadMetadata → Action (Unit {0})
  singleton_server_modify meta =
      fail (message ("we don't support SingletonServer " <> (kube_name meta <> " modify")))

  unfoldable pub replicated_task_modify : WorkloadMetadata → Option ℤ → Action (Unit {0})
  unfolding job_request
  replicated_task_modify meta replica_count =
      job_request serde show_f64 server (full_builder "Never" meta "Task")
        (some (unwrap_or replica_count (pos 1))) meta.namespace "modify"

  unfoldable pub singleton_task_modify : WorkloadMetadata → Action (Unit {0})
  unfolding job_request
  singleton_task_modify meta =
      job_request serde show_f64 server (full_builder "Never" meta "SingletonTask") none
        meta.namespace "modify"

  unfoldable pub replicated_worker_modify : WorkloadMetadata → Option ℤ → Action (Unit {0})
  unfolding deployment_request
  replicated_worker_modify meta _ =
      deployment_request serde show_f64 server (always meta "Worker") meta.namespace "modify"

  unfoldable pub singleton_worker_modify : WorkloadMetadata → Action (Unit {0})
  unfolding statefulset_request
  singleton_worker_modify meta =
      statefulset_request serde show_f64 server (always meta "SingletonWorker") meta.namespace
        "modify"

  unfoldable pub modify : CoreWorkload → Action (Unit {0})
  unfolding replicated_server_modify singleton_server_modify replicated_task_modify
      singleton_task_modify replicated_worker_modify singleton_worker_modify
  modify (replicated_server meta) = replicated_server_modify meta
  modify (singleton_server meta) = singleton_server_modify meta
  modify (replicated_task meta n) = replicated_task_modify meta n
  modify (singleton_task meta) = singleton_task_modify meta
  modify (replicated_worker meta n) = replicated_worker_modify meta n
  modify (singleton_worker meta) = singleton_worker_modify meta

  unfoldable pub replicated_server_delete : WorkloadMetadata → Action (Unit {0})
  unfolding deployment_request service_request
  replicated_server_delete meta = do
    deployment_request serde show_f64 server (bare "Always" meta) meta.namespace "delete"
    service_request server (bare_service meta) (kube_name meta) meta.namespace "delete"

  unfoldable pub singleton_server_delete : WorkloadMetadata → Action (Unit {0})
  unfolding statefulset_request service_request
  singleton_server_delete meta = do
    statefulset_request serde show_f64 server (bare "Always" meta) meta.namespace "delete"
    service_request server (bare_service meta) (kube_name meta) meta.namespace "delete"

  unfoldable pub replicated_task_delete : WorkloadMetadata → Option ℤ → Action (Unit {0})
  unfolding job_request
  replicated_task_delete meta _ =
      job_request serde show_f64 server (bare "Never" meta) none meta.namespace "delete"

  unfoldable pub singleton_task_delete : WorkloadMetadata → Action (Unit {0})
  unfolding job_request
  singleton_task_delete meta =
      job_request serde show_f64 server (bare "Never" meta) none meta.namespace "delete"

  unfoldable pub replicated_worker_delete : WorkloadMetadata → Option ℤ → Action (Unit {0})
  unfolding deployment_request
  replicated_worker_delete meta _ =
      deployment_request serde show_f64 server (bare "Always" meta) meta.namespace "delete"

  unfoldable pub singleton_worker_delete : WorkloadMetadata → Action (Unit {0})
  unfolding statefulset_request
  singleton_worker_delete meta =
      statefulset_request serde show_f64 server (bare "Always" meta) meta.namespace "delete"

  unfoldable pub delete : CoreWorkload → Action (Unit {0})
  unfolding replicated_server_delete singleton_server_delete replicated_task_delete
      singleton_task_delete replicated_worker_delete singleton_worker_delete
  delete (replicated_server meta) = replicated_server_delete meta
  delete (singleton_server meta) = singleton_server_delete meta
  delete (replicated_task meta n) = replicated_task_delete meta n
  delete (singleton_task meta) = singleton_task_delete meta
  delete (replicated_worker meta n) = replicated_worker_delete meta n
  delete (singleton_worker meta) = singleton_worker_delete meta
