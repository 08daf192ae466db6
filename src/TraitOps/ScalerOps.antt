-- ===== src/TraitOps/ScalerOps.antt =====
-- What the manual scaler of src/schematic/traits/manual_scaler.rs does. The five seconds it waits
-- first are not a request and are left out.
use rudr.Prelude.{String, ◌==◌, Bool, ◌||◌, Option, none, some, Result, ok, err, if◌then◌else◌}
use rudr.BTreeMap
use rudr.StdText.{show_int}
use rudr.KubeObjects.{ScalableObject}
use rudr.Traits.{ManualScaler}
use rudr.Client.{
  Server, Error, panicked, Action, request, pure, fail, attempt, ◌>>=◌, patch, replace, get,
  scalable, deployed_function, Resource, deployments, jobs, functions,
}
use rudr.TraitOps.Interface.{TraitImplementation, provided}

unfoldable pub manual_scaler_supports_workload_type : String → Bool
manual_scaler_supports_workload_type name =
    name == "core.oam.dev/v1alpha1.Server"
    || name == "core.oam.dev/v1alpha1.Task"
    || name == "core.oam.dev/v1alpha1.Worker"

-- The new object keeps the metadata and the rest of the specification, which is unwrapped.
unfoldable pub scale_deployment : ManualScaler → ScalableObject → Result Error ScalableObject
scale_deployment self deployment = elim deployment.spec [
  | none ↦ err panicked
  | some spec ↦ ok (record {
    metadata = deployment.metadata;
    spec = some (record spec { count = some self.replica_count });
    status = none;
  })
]

unfoldable pub scale_job : ManualScaler → ScalableObject → Result Error ScalableObject
scale_job self job = elim job.spec [
  | none ↦ err panicked
  | some spec ↦ ok (record {
    metadata = job.metadata;
    spec = some (record spec { count = some self.replica_count });
    status = none;
  })
]

module _ (server : Server) (ns : String) (self : ManualScaler) where
  unfoldable pub replace_with : Resource → Result Error ScalableObject → Action (Unit {0})
  replace_with resource (err e) = fail e
  replace_with resource (ok object) =
      request server.accept (replace ns resource self.instance_name (scalable object))

  -- An object that cannot be read is left alone.
  unfoldable pub scale_object :
      Resource
      → (ScalableObject → Result Error ScalableObject)
      → Option ScalableObject
      → Action (Unit {0})
  unfolding replace_with
  scale_object resource scaled none = pure tt
  scale_object resource scaled (some original) = replace_with resource (scaled original)

  unfoldable pub scale_resource :
      Resource → (ScalableObject → Result Error ScalableObject) → Action (Unit {0})
  unfolding scale_object
  scale_resource resource scaled =
      attempt (request server.read_scalable (get ns resource self.instance_name))
      >>= scale_object resource scaled

  unfoldable pub scale_function : Action (Unit {0})
  scale_function = do
    openfaas ← request server.read_function (get ns functions self.instance_name)
    let labels =
        BTreeMap.insert "com.openfaas.scale.min" (show_int self.replica_count) openfaas.labels
    request server.accept (
        patch ns functions self.instance_name
          (deployed_function (record openfaas { labels = labels })))

  unfoldable pub scale : Action (Unit {0})
  unfolding scale_resource scale_deployment scale_job scale_function
  scale =
      if self.workload_type == "core.oam.dev/v1alpha1.Server"
      then scale_resource deployments (scale_deployment self)
      else if self.workload_type == "core.oam.dev/v1alpha1.Worker"
      then scale_resource deployments (scale_deployment self)
      else if self.workload_type == "core.oam.dev/v1alpha1.Task"
      then scale_resource jobs (scale_job self)
      else if self.workload_type == "openfaas.com/v1alpha2.Function"
      then scale_function
      else pure tt

  unfoldable pub manual_scaler_implementation : TraitImplementation
  unfolding provided
  manual_scaler_implementation = record (provided scale) {
    modify = scale;
    delete = pure tt;
    status = pure none;
  }
