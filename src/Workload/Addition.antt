-- ===== src/Workload/Addition.antt =====
-- What the creating operation of a workload type sends to the server.
use rudr.Prelude.{
  ℕ, String, ◌≡◌, Option, none, some, List, [], ◌∷◌, ◌++◌, map, ok, err, unwrap_or, ◌⊎◌,
}
use rudr.Prelude.Int.{ℤ, pos}
use rudr.Json.{Serde}
use rudr.Component.Kube.{PodSpec}
use rudr.Component.PodSpec.{to_pod_spec, to_pod_spec_with_policy}
use rudr.Component.Configs.{ConfigMaps, evaluate_configs}
use rudr.Cluster.{KubeError}
use rudr.Client.{
  kube, Service, ConfigMap, config_map, deployment, stateful_set, job, Request, create, config_maps,
  deployments, stateful_sets, jobs, Server, request, ◌>>=◌, resume, pure,
}
use rudr.Client.Laws.{run, run_lem, IsRun, pure-IsRun, request-IsRun, >>-IsRun}
use rudr.Workload.{WorkloadMetadata, labels, to_config_maps, metadata_config_maps, kube_name}
use rudr.Workload.Builders.{
  or_panic, by_phase, create_all, pod_spec, to_deployment, to_statefulset, to_job,
  deployment_request, statefulset_request, job_request, service_request,
}
use rudr.Workload.Core.{
  replicated_server_add, singleton_server_add, replicated_task_add, singleton_task_add,
  replicated_worker_add, singleton_worker_add, CoreWorkload, replicated_server, singleton_server,
  singleton_task, replicated_task, singleton_worker, replicated_worker, metadata_of, full_builder,
  full_service, create_config_maps, add,
}
use rudr.Workload.Plan.{config_requests, service_requests, with_policy, plan}

module _ (serde : Serde) (show_f64 : ℕ → String) (server : Server) where
  create_all-IsRun :
      (ns : String) (cs : List ConfigMap)
      → IsRun server (create_all server ns cs) (map (λ c. create ns config_maps (config_map c)) cs)
  unfolding create_all
  create_all-IsRun ns [] = pure-IsRun server
  create_all-IsRun ns (c ∷ cs) =
      >>-IsRun server (request server.accept (create ns config_maps (config_map c)))
        (create_all server ns cs) (create ns config_maps (config_map c) ∷ []) _
        (request-IsRun server _) (create_all-IsRun ns cs)

  service-IsRun :
      (meta : WorkloadMetadata) (s : Option Service)
      → IsRun server
          (service_request server s (kube_name meta) meta.namespace "add")
          (service_requests meta s)
  unfolding service_request by_phase
  service-IsRun meta none = pure-IsRun server
  service-IsRun meta (some s) = request-IsRun server _

  module _ (configs : ConfigMaps) (pod : PodSpec) (meta : WorkloadMetadata)
      (evaluated : evaluate_configs serde meta.params meta.definition ≡ ok configs)
      (built : to_pod_spec serde show_f64 meta.definition meta.params ≡ ok pod) where
    configs-IsRun :
        (label : String)
        → IsRun server
            (create_config_maps serde show_f64 server meta label)
            (config_requests meta configs label)
    unfolding create_config_maps metadata_config_maps pure ◌>>=◌ resume
    configs-IsRun label log =
        rw (evaluated, or_panic, pure, resume)
          (create_all-IsRun meta.namespace
            (to_config_maps configs meta.owner_ref (some (labels meta label))) log)

    deployment-IsRun :
        (label : String)
        → IsRun server
            (deployment_request serde show_f64 server
              (full_builder "Always" meta label)
              meta.namespace
              "add")
            (create meta.namespace deployments (
                deployment
                  (to_deployment (full_builder "Always" meta label) (with_policy pod "Always")))
              ∷ [])
    unfolding deployment_request pod_spec to_pod_spec_with_policy full_builder by_phase pure ◌>>=◌
        resume
    deployment-IsRun label log = rw (built, or_panic, pure, resume) (request-IsRun server _ log)

    statefulset-IsRun :
        (label : String)
        → IsRun server
            (statefulset_request serde show_f64 server
              (full_builder "Always" meta label)
              meta.namespace
              "add")
            (create meta.namespace stateful_sets (
                stateful_set
                  (to_statefulset (full_builder "Always" meta label) (with_policy pod "Always")))
              ∷ [])
    unfolding statefulset_request pod_spec to_pod_spec_with_policy full_builder by_phase pure ◌>>=◌
        resume
    statefulset-IsRun label log = rw (built, or_panic, pure, resume) (request-IsRun server _ log)

    job-IsRun :
        (label : String) (n : Option ℤ)
        → IsRun server
            (job_request serde show_f64 server
              (full_builder "Never" meta label)
              n
              meta.namespace
              "add")
            (config_requests meta configs label
              ++ (create meta.namespace jobs
                    (job (to_job (full_builder "Never" meta label) n (with_policy pod "Never")))
                  ∷ []))
    unfolding job_request pod_spec to_pod_spec_with_policy full_builder by_phase pure ◌>>=◌ resume
    job-IsRun label n log =
        rw (built, or_panic, pure, resume, evaluated, or_panic, pure, resume)
          (>>-IsRun server _ _ _ _ (create_all-IsRun meta.namespace _) (request-IsRun server _) log)

-- Once the config maps and the pod are built, adding a workload makes exactly the requests of its
-- plan, in that order, up to the first that is refused.
pub add_lem :
    (serde : Serde) (show_f64 : ℕ → String) (server : Server) (w : CoreWorkload)
    (configs : ConfigMaps) (pod : PodSpec) (log : List Request)
    → evaluate_configs serde (metadata_of w).params (metadata_of w).definition ≡ ok configs
    → to_pod_spec serde show_f64 (metadata_of w).definition (metadata_of w).params ≡ ok pod
    → add serde show_f64 server w log ≡ run server (plan w configs pod) log
unfolding add replicated_server_add singleton_server_add replicated_task_add singleton_task_add
    replicated_worker_add singleton_worker_add
add_lem serde show_f64 server (replicated_server meta) configs pod log e b =
    >>-IsRun server _ _ _ _ (configs-IsRun serde show_f64 server configs pod meta e b "Service")
      (>>-IsRun server _ _ _ _
        (deployment-IsRun serde show_f64 server configs pod meta e b "Service")
        (service-IsRun serde show_f64 server meta (full_service meta "Service")))
      log
add_lem serde show_f64 server (singleton_server meta) configs pod log e b =
    >>-IsRun server _ _ _ _
      (configs-IsRun serde show_f64 server configs pod meta e b "singleton-service")
      (>>-IsRun server _ _ _ _
        (statefulset-IsRun serde show_f64 server configs pod meta e b "SingletonServer")
        (service-IsRun serde show_f64 server meta (full_service meta "SingletonServer")))
      log
add_lem serde show_f64 server (replicated_task meta n) configs pod log e b =
    job-IsRun serde show_f64 server configs pod meta e b "Task" (some (unwrap_or n (pos 1))) log
add_lem serde show_f64 server (singleton_task meta) configs pod log e b =
    job-IsRun serde show_f64 server configs pod meta e b "SingletonTask" none log
add_lem serde show_f64 server (replicated_worker meta n) configs pod log e b =
    >>-IsRun server _ _ _ _ (configs-IsRun serde show_f64 server configs pod meta e b "Worker")
      (deployment-IsRun serde show_f64 server configs pod meta e b "Worker") log
add_lem serde show_f64 server (singleton_worker meta) configs pod log e b =
    >>-IsRun server _ _ _ _
      (configs-IsRun serde show_f64 server configs pod meta e b "SingletonWorker")
      (statefulset-IsRun serde show_f64 server configs pod meta e b "SingletonWorker") log

-- Once the config maps and the pod are built, a successful addition of a workload has made every
-- request of its plan; a failed one has made those before the refused request, that request, and
-- no other.
pub add_outcome :
    (serde : Serde) (show_f64 : ℕ → String) (server : Server) (w : CoreWorkload)
    (configs : ConfigMaps) (pod : PodSpec) (log : List Request)
    → evaluate_configs serde (metadata_of w).params (metadata_of w).definition ≡ ok configs
    → to_pod_spec serde show_f64 (metadata_of w).definition (metadata_of w).params ≡ ok pod
    → (add serde show_f64 server w log ≡ (ok tt, log ++ plan w configs pod))
      ⊎ ((ps : List Request) × (r : Request) × (rest : List Request) × (e : KubeError) × (plan w
              configs pod
            ≡ ps ++ (r ∷ rest))
          × (server.accept (log ++ ps) r ≡ err e)
          × (add serde show_f64 server w log ≡ (err (kube e), (log ++ ps) ++ (r ∷ []))))
add_outcome serde show_f64 server w configs pod log e b =
    rw (add_lem serde show_f64 server w configs pod log e b)
      (run_lem server (plan w configs pod) log)
