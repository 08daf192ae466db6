-- ===== src/Instigator/Sync.antt =====
-- `Instigator::sync_status`: the health of each component that is as recorded, and the status of the
-- configuration.
use rudr.Prelude.{
  ℕ, String, ◌==◌, Bool, true, false, ◌||◌, not, Option, none, some, List, [], ◌∷◌, unwrap_or,
  if◌then◌else◌,
}
use rudr.BTreeMap
use rudr.BTreeMap.{BTreeMap}
use rudr.Configuration.{ComponentConfiguration, OpResource}
use rudr.KubeObjects.{KubeComponent}
use rudr.Client.{
  Server, Action, request, pure, ◌>>=◌, from_result, unwrap, get, patch, component_instances,
  kube_component_instance,
}
use rudr.TraitManager.Running
use rudr.Workload.Loading
use rudr.Workload.Loading.{load_workload_type}
use rudr.Instigator.{RecordAnnotation, combine_name, get_record_annotation, check_diff}
use rudr.Instigator.Setting.{
  Platform, get_component_def, component_params, get_workload_meta, trait_manager,
}
use rudr.Instigator.Instances.{component_instance_owner_reference}
use rudr.Instigator.StatusPatch.{retry_patch_status}
use rudr.Instigator.Execution.{record_annotation, new_record}

abbrev pub is_good_state : String → Bool
is_good_state v = v == "running" || v == "created" || v == "succeeded"

-- The first state that is not good ends the loop.
unfoldable pub health_state : BTreeMap String → String
health_state [] = "healthy"
health_state ((_, v) ∷ status) =
    let rest = health_state status in if is_good_state v then rest else "unhealthy"

-- The variables of the loop over the components.
pub record Synced : Type 0 where
  pub last_components : RecordAnnotation
  pub has_diff : Bool
  pub component_status : BTreeMap (BTreeMap String)

unfoldable pub pass_synced : ComponentConfiguration → Synced → Synced
pass_synced component s = record s {
  last_components = BTreeMap.remove component.instance_name s.last_components;
}

abbrev pub sync_started : RecordAnnotation → Synced
sync_started last = record { last_components = last; has_diff = false; component_status = [] }

module _ (platform : Platform) (server : Server) (namespace : String) where
  unfoldable pub component_instance_set_status : String → String → String → Action (Unit {0})
  unfolding combine_name
  component_instance_set_status component_name instance_name status = do
    let name = combine_name component_name instance_name
    res ← request server.read_instance (get namespace component_instances name)
    request server.accept (
        patch namespace component_instances name
          (kube_component_instance (record res { status = some status })))

  -- The states of a component's workload and traits, its health noted on its instance.
  unfoldable pub component_states :
      OpResource → ComponentConfiguration → KubeComponent → Action (BTreeMap String)
  unfolding component_instance_set_status health_state
  component_states o component comp_def = do
    params ←
        component_params platform server namespace (unwrap_or o.spec.variables []) component
          comp_def
    owner_ref ←
        component_instance_owner_reference server namespace component.component_name
          component.instance_name
    let meta =
        get_workload_meta platform server namespace o.metadata.name component.instance_name comp_def
          params (some owner_ref)
    workload ← from_result (load_workload_type comp_def.spec.workload_type meta)
    status ← Loading.status platform.serde platform.show_f64 platform.to_lowercase server workload
    noted ←
        component_instance_set_status component.component_name component.instance_name
          (health_state status)
    manager ←
        from_result (trait_manager platform server namespace o component comp_def (some owner_ref))
    trait_status ← Running.status server namespace manager
    pure (BTreeMap.extend (unwrap_or trait_status []) status)

  -- A component that is not as recorded is left to the next change.
  unfoldable pub sync_loaded :
      OpResource → ComponentConfiguration → KubeComponent → String → Synced → Action Synced
  unfolding component_states pass_synced
  sync_loaded o component comp_def version s =
      if check_diff platform.same (BTreeMap.get component.instance_name s.last_components)
        (new_record component version)
      then pure (record (pass_synced component s) { has_diff = true })
      else (component_states o component comp_def >>= λ status.
          pure (record (pass_synced component s) {
            component_status = BTreeMap.insert component.component_name status s.component_status;
          }))

  unfoldable pub sync_component : OpResource → Synced → ComponentConfiguration → Action Synced
  unfolding sync_loaded
  sync_component o s component = do
    comp_def ← get_component_def platform server namespace component.component_name
    version ← unwrap comp_def.metadata.resource_version
    sync_loaded o component comp_def version s

  unfoldable pub sync_components : OpResource → Synced → List ComponentConfiguration → Action Synced
  unfolding sync_component
  sync_components o s [] = pure s
  sync_components o s (component ∷ components) =
      sync_component o s component >>= λ t. sync_components o t components

  unfoldable pub sync_status : ℕ → OpResource → Action (Option (Unit {0}))
  unfolding sync_components
  sync_status fuel o = do
    last ← from_result (
        get_record_annotation platform.parse_records
          (BTreeMap.get record_annotation o.metadata.annotations))
    s ← sync_components o (sync_started last) (unwrap_or o.spec.components [])
    (if s.has_diff || not (BTreeMap.is_empty s.last_components)
        then pure (some tt)
        else retry_patch_status server namespace o.metadata.name
            (some (record { phase = some "synced"; components = some s.component_status })) none
            fuel o)
