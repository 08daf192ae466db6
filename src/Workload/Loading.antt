-- ===== src/Workload/Loading.antt =====
-- `load_workload_type` of src/instigator.rs, and the operations of the workload that it returns.
use rudr.Prelude.{ℕ, String, ◌==◌, some, [], Result, ok, err, if◌then◌else◌}
use rudr.Prelude.Int.{pos}
use rudr.BTreeMap.{BTreeMap}
use rudr.Json.{Serde}
use rudr.Gvk.{GroupVersionKind, display}
use rudr.Client.{Server, Error, message, Action, pure}
use rudr.Workload.{WorkloadMetadata}
use rudr.Workload.Core.{
  CoreWorkload, replicated_server, singleton_server, singleton_task, replicated_task,
  singleton_worker, replicated_worker, metadata_of,
}
use rudr.Workload.Core
use rudr.Workload.Status
use rudr.Workload.Extended.{new_others, openfaas_add, openfaas_modify, others_add, others_modify}

pub data Workload : Type 0 where
  core : CoreWorkload → Workload
  openfaas : WorkloadMetadata → Workload
  others : WorkloadMetadata → GroupVersionKind → Workload

abbrev pub core_name : CoreWorkload → String
core_name (replicated_server _) = "core.oam.dev/v1alpha1.Server"
core_name (singleton_server _) = "core.oam.dev/v1alpha1.SingletonServer"
core_name (singleton_task _) = "core.oam.dev/v1alpha1.SingletonTask"
core_name (replicated_task _ _) = "core.oam.dev/v1alpha1.Task"
core_name (singleton_worker _) = "core.oam.dev/v1alpha1.SingletonWorker"
core_name (replicated_worker _ _) = "core.oam.dev/v1alpha1.Worker"

-- The message leaves out the type and the cause.
unfoldable pub load_others :
    Result Error (WorkloadMetadata × GroupVersionKind) → Result Error Workload
load_others (err e) = err (message "workloadType is unknown")
load_others (ok (meta, gvk)) = ok (others meta gvk)

-- The match on the workload type, in the order of its arms.
unfoldable pub load_workload_type : String → WorkloadMetadata → Result Error Workload
unfolding new_others load_others
load_workload_type type_ meta =
    if type_ == "core.oam.dev/v1alpha1.Server"
    then ok (core (replicated_server meta))
    else if type_ == "core.oam.dev/v1alpha1.SingletonServer"
    then ok (core (singleton_server meta))
    else if type_ == "core.oam.dev/v1alpha1.SingletonTask"
    then ok (core (singleton_task meta))
    else if type_ == "core.oam.dev/v1alpha1.Task"
    then ok (core (replicated_task meta (some (pos 1))))
    else if type_ == "core.oam.dev/v1alpha1.SingletonWorker"
    then ok (core (singleton_worker meta))
    else if type_ == "core.oam.dev/v1alpha1.Worker"
    then ok (core (replicated_worker meta (some (pos 1))))
    else if type_ == "openfaas.com/v1alpha2.Function"
    then ok (openfaas meta)
    else load_others (new_others meta type_)

-- The metadata of a workload, and the name of its type.
abbrev pub workload_meta : Workload → WorkloadMetadata
workload_meta (core w) = metadata_of w
workload_meta (openfaas meta) = meta
workload_meta (others meta _) = meta

abbrev pub workload_name : Workload → String
workload_name (core w) = core_name w
workload_name (openfaas _) = "openfaas.com/v1alpha2.Function"
workload_name (others _ gvk) = display gvk

module _ (serde : Serde) (show_f64 : ℕ → String) (to_lowercase : String → String)
    (server : Server) where
  unfoldable pub add : Workload → Action (Unit {0})
  add (core w) = Core.add serde show_f64 server w
  add (openfaas meta) = openfaas_add serde to_lowercase server meta
  add (others meta gvk) = others_add serde to_lowercase server meta gvk

  unfoldable pub modify : Workload → Action (Unit {0})
  modify (core w) = Core.modify serde show_f64 server w
  modify (openfaas meta) = openfaas_modify serde to_lowercase server meta
  modify (others meta gvk) = others_modify serde to_lowercase server meta gvk

  unfoldable pub delete : Workload → Action (Unit {0})
  delete (core w) = Core.delete serde show_f64 server w
  delete (openfaas meta) = pure tt
  delete (others meta gvk) = pure tt

  unfoldable pub status : Workload → Action (BTreeMap String)
  status (core w) = Status.status serde show_f64 server w
  status (openfaas meta) = pure []
  status (others meta gvk) = pure []

unfoldable pub validate : Workload → Result Error (Unit {0})
validate (core w) = Core.validate w
validate (openfaas meta) = ok tt
validate (others meta gvk) = ok tt
