-- ===== src/TraitOps/AutoscalerOps.antt =====
-- What the autoscaler trait of src/schematic/traits/autoscaler.rs does.
use rudr.Prelude.{String, ◌<>◌, ◌==◌, Bool, ◌||◌, Option, none, some, [], ◌∷◌}
use rudr.Prelude.Int.{ℤ}
use rudr.BTreeMap.{BTreeMap}
use rudr.StdText.{show_int}
use rudr.Traits.{Autoscaler}
use rudr.Traits.HpaObject.{to_horizontal_pod_autoscaler, autoscaler_kube_name}
use rudr.Client.{
  Server, Action, request, pure, ◌>>=◌, unwrap_or_else, create, patch, delete, get_status,
  horizontal_pod_autoscaler, horizontal_pod_autoscalers,
}
use rudr.Workload.Status.{recreate}
use rudr.TraitOps.Interface.{TraitImplementation, provided}

unfoldable pub autoscaler_supports_workload_type : String → Bool
autoscaler_supports_workload_type name =
    name == "core.oam.dev/v1alpha1.Server"
    || name == "core.oam.dev/v1alpha1.Task"
    || name == "core.oam.dev/v1alpha1.Worker"

unfoldable pub autoscaler_state : String → Option ℤ → Option (BTreeMap String)
unfolding show_int
autoscaler_state key none = none
autoscaler_state key (some current_replicas) = some ((key, show_int current_replicas) ∷ [])

module _ (server : Server) (ns : String) (self : Autoscaler) where
  unfoldable pub autoscaler_add : Action (Unit {0})
  autoscaler_add = request server.accept (
      create ns horizontal_pod_autoscalers
        (horizontal_pod_autoscaler (to_horizontal_pod_autoscaler self)))

  unfoldable pub autoscaler_modify : Action (Unit {0})
  autoscaler_modify = request server.accept (
      patch ns horizontal_pod_autoscalers (autoscaler_kube_name self)
        (horizontal_pod_autoscaler (to_horizontal_pod_autoscaler self)))

  unfoldable pub autoscaler_delete : Action (Unit {0})
  autoscaler_delete =
      request server.accept (delete ns horizontal_pod_autoscalers (autoscaler_kube_name self))

  unfoldable pub autoscaler_status : Action (Option (BTreeMap String))
  unfolding autoscaler_add autoscaler_state recreate
  autoscaler_status =
      let key = "horizontalpodautoscaler/" <> autoscaler_kube_name self in
      unwrap_or_else
        (do
          replicas ←
              request server.read_autoscaler
                (get_status ns horizontal_pod_autoscalers (autoscaler_kube_name self))
          pure (autoscaler_state key replicas))
        (λ e. recreate autoscaler_add e >>= λ state. pure (some ((key, state) ∷ [])))

  unfoldable pub autoscaler_implementation : TraitImplementation
  unfolding provided
  autoscaler_implementation = record (provided autoscaler_add) {
    modify = autoscaler_modify;
    delete = autoscaler_delete;
    status = autoscaler_status;
  }
