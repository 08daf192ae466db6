-- ===== src/TraitOps/VolumeOps.antt =====
-- What the volume mounter of src/schematic/traits/volume_mounter.rs does: the claim is made before
-- the pods, and adding does nothing more.
use rudr.Prelude.{String, ◌<>◌, Option, some, [], ◌∷◌, and_then, unwrap_or}
use rudr.BTreeMap.{BTreeMap}
use rudr.Traits.{VolumeMounter}
use rudr.Traits.Claim.{to_pvc}
use rudr.Client.{
  Server, Error, kube, Action, request, pure, fail, ◌>>=◌, unwrap_or_else, create, patch, delete,
  get_status, persistent_volume_claim, persistent_volume_claims,
}
use rudr.TraitOps.Interface.{TraitImplementation, provided}

-- The text of an error of the server.
unfoldable pub error_state : Error → Action String
error_state (kube e) = pure e.text
error_state e = fail e

module _ (server : Server) (ns : String) (self : VolumeMounter) where
  unfoldable pub volume_pre_add : Action (Unit {0})
  volume_pre_add =
      request server.accept
        (create ns persistent_volume_claims (persistent_volume_claim (to_pvc self)))

  unfoldable pub volume_modify : Action (Unit {0})
  volume_modify =
      request server.accept
        (patch ns persistent_volume_claims self.volume_name (persistent_volume_claim (to_pvc self)))

  unfoldable pub volume_delete : Action (Unit {0})
  volume_delete = request server.accept (delete ns persistent_volume_claims self.volume_name)

  unfoldable pub volume_status : Action (Option (BTreeMap String))
  unfolding error_state
  volume_status = do
    state ←
        unwrap_or_else
          (do
            status ←
                request server.read_claim (get_status ns persistent_volume_claims self.volume_name)
            pure (unwrap_or (and_then status (λ phase. phase)) "unknown phase"))
          error_state
    pure (some (("persistentvolumeclaim/" <> self.volume_name, state) ∷ []))

  unfoldable pub volume_mounter_implementation : TraitImplementation
  unfolding provided
  volume_mounter_implementation = record (provided (pure tt)) {
    pre_add = volume_pre_add;
    modify = volume_modify;
    delete = volume_delete;
    status = volume_status;
  }
