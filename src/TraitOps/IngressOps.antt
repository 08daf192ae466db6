-- ===== src/TraitOps/IngressOps.antt =====
-- What the ingress trait of src/schematic/traits/ingress.rs does.
use rudr.Prelude.{String, ◌<>◌, Option, none, some, [], ◌∷◌}
use rudr.BTreeMap.{BTreeMap}
use rudr.Traits.{Ingress}
use rudr.Traits.IngressObject.{to_ext_ingress, ingress_kube_name}
use rudr.Client.{
  Server, Action, request, pure, ◌>>=◌, unwrap_or_else, create, patch, delete, get_status, ingress,
  ingresses,
}
use rudr.Workload.Status.{recreate}
use rudr.TraitOps.Interface.{TraitImplementation, provided}

-- An ingress is reported once its status holds a load balancer.
unfoldable pub ingress_state : String → Option (Option (Unit {0})) → Option (BTreeMap String)
ingress_state key (some (some _)) = some ((key, "created") ∷ [])
ingress_state key _ = none

module _ (server : Server) (ns : String) (self : Ingress) where
  unfoldable pub ingress_add : Action (Unit {0})
  ingress_add = request server.accept (create ns ingresses (ingress (to_ext_ingress self)))

  unfoldable pub ingress_modify : Action (Unit {0})
  ingress_modify =
      request server.accept
        (patch ns ingresses (ingress_kube_name self) (ingress (to_ext_ingress self)))

  -- The name is that of the configuration, not `kube_name`.
  unfoldable pub ingress_delete : Action (Unit {0})
  ingress_delete = request server.accept (delete ns ingresses self.name)

  -- An ingress that is not found is created again; the text of the error is its state.
  unfoldable pub ingress_status : Action (Option (BTreeMap String))
  unfolding ingress_add ingress_state recreate
  ingress_status =
      let key = "ingress/" <> ingress_kube_name self in
      unwrap_or_else
        (do
          status ← request server.read_ingress (get_status ns ingresses (ingress_kube_name self))
          pure (ingress_state key status))
        (λ e. recreate ingress_add e >>= λ state. pure (some ((key, state) ∷ [])))

  unfoldable pub ingress_implementation : TraitImplementation
  unfolding provided
  ingress_implementation = record (provided ingress_add) {
    modify = ingress_modify;
    delete = ingress_delete;
    status = ingress_status;
  }
