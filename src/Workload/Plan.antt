-- ===== src/Workload/Plan.antt =====
-- What a workload of the specification consists of on the server, in the order of its creation.
use rudr.Prelude.{String, Option, none, some, List, [], ◌∷◌, ◌++◌, map, unwrap_or}
use rudr.Prelude.Int.{pos}
use rudr.Component.Kube.{PodSpec}
use rudr.Component.Configs.{ConfigMaps}
use rudr.Client.{
  Service, config_map, deployment, stateful_set, job, service, Request, create, config_maps,
  deployments, stateful_sets, jobs, services,
}
use rudr.Workload.{WorkloadMetadata, labels, to_config_maps}
use rudr.Workload.Builders.{to_deployment, to_statefulset, to_job}
use rudr.Workload.Core.{
  CoreWorkload, replicated_server, singleton_server, singleton_task, replicated_task,
  singleton_worker, replicated_worker, full_builder, full_service,
}

-- The requests of the config maps, with the label.
abbrev pub config_requests : WorkloadMetadata → ConfigMaps → String → List Request
config_requests meta configs label =
    map (λ c. create meta.namespace config_maps (config_map c))
      (to_config_maps configs meta.owner_ref (some (labels meta label)))

abbrev pub service_requests : WorkloadMetadata → Option Service → List Request
service_requests meta none = []
service_requests meta (some s) = create meta.namespace services (service s) ∷ []

-- The pod with its restart policy.
abbrev pub with_policy : PodSpec → String → PodSpec
with_policy pod policy = record pod { restart_policy = some policy }

-- What a workload consists of, in the order of its creation: its config maps, the object that runs
-- its pods, and for a server with a port its service.
abbrev pub plan : CoreWorkload → ConfigMaps → PodSpec → List Request
plan (replicated_server meta) configs pod =
    config_requests meta configs "Service"
    ++ ((create meta.namespace deployments (
            deployment
              (to_deployment (full_builder "Always" meta "Service") (with_policy pod "Always")))
          ∷ [])
        ++ service_requests meta (full_service meta "Service"))
plan (singleton_server meta) configs pod =
    config_requests meta configs "singleton-service"
    ++ ((create meta.namespace stateful_sets (
            stateful_set (
              to_statefulset (full_builder "Always" meta "SingletonServer")
                (with_policy pod "Always")))
          ∷ [])
        ++ service_requests meta (full_service meta "SingletonServer"))
plan (replicated_task meta n) configs pod =
    config_requests meta configs "Task"
    ++ (create meta.namespace jobs (
          job (
            to_job (full_builder "Never" meta "Task") (some (unwrap_or n (pos 1)))
              (with_policy pod "Never")))
        ∷ [])
plan (singleton_task meta) configs pod =
    config_requests meta configs "SingletonTask"
    ++ (create meta.namespace jobs
          (job (to_job (full_builder "Never" meta "SingletonTask") none (with_policy pod "Never")))
        ∷ [])
plan (replicated_worker meta _) configs pod =
    config_requests meta configs "Worker"
    ++ (create meta.namespace deployments (
          deployment
            (to_deployment (full_builder "Always" meta "Worker") (with_policy pod "Always")))
        ∷ [])
plan (singleton_worker meta) configs pod =
    config_requests meta configs "SingletonWorker"
    ++ (create meta.namespace stateful_sets (
          stateful_set (
            to_statefulset (full_builder "Always" meta "SingletonWorker")
              (with_policy pod "Always")))
        ∷ [])
