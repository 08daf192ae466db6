-- ===== src/Instigator/Execution.antt =====
-- `Instigator::exec`: the phases of a configuration.
-- The patch at the end runs on fuel, and without fuel `exec` is still running, which is `none`.
use rudr.Prelude.{
  ℕ, String, ◌<>◌, Bool, true, false, ◌||◌, not, Option, none, some, List, [], ◌∷◌, unwrap_or,
  if◌then◌else◌,
}
use rudr.BTreeMap
use rudr.BTreeMap.{BTreeMap}
use rudr.Cluster.{OwnerReference}
use rudr.Lifecycle.{Phase, phase_text, is_delete}
use rudr.Configuration.{ComponentConfiguration, OamStatus, OpResource}
use rudr.KubeObjects.{KubeComponent}
use rudr.KubeEvents.{normal, new_event_handler, get_object_ref, push_event_message}
use rudr.Client.{
  Server, message, Action, pure, fail, ◌>>=◌, ◌>>◌, unwrap_or_else, from_result, unwrap,
}
use rudr.Scopes
use rudr.Scopes.{OamScope}
use rudr.TraitManager.{TraitManager}
use rudr.TraitManager.Running
use rudr.Workload.Loading
use rudr.Workload.Loading.{Workload, load_workload_type, validate}
use rudr.Instigator.{
  ComponentRecord, RecordAnnotation, config_owner_reference, get_record_annotation, check_diff,
  load_scopes,
}
use rudr.Instigator.Setting.{
  Platform, get_component_def, component_params, get_workload_meta, trait_manager,
}
use rudr.Instigator.Binding.{bind_component, unbind_component}
use rudr.Instigator.Instances.{get_new_own_ref, delete_component_instance}
use rudr.Instigator.StatusPatch.{retry_patch_status}

abbrev pub record_annotation : String
record_annotation = "component_record_annotation"

-- A component with a record is modified, one without is added.
unfoldable pub switch_phase : Option ComponentRecord → Phase → Phase
switch_phase (some _) Phase.add = Phase.modify
switch_phase none Phase.modify = Phase.add
switch_phase _ phase = phase

-- The variables of the loop over the components.
pub record Progress : Type 0 where
  pub last_components : RecordAnnotation
  pub new_components : RecordAnnotation
  pub component_updated : Bool
  pub phase : Phase

unfoldable pub for_scopes : (OamScope → Action (Unit {0})) → List OamScope → Action (Unit {0})
for_scopes f [] = pure tt
for_scopes f (sc ∷ scopes) = f sc >> for_scopes f scopes

unfoldable pub new_record : ComponentConfiguration → String → ComponentRecord
new_record component version = record { config = component; version = version }

-- The components that are passed move from the last records to the new ones.
unfoldable pub pass : ComponentConfiguration → String → Progress → Progress
unfolding new_record
pass component version s = record s {
  last_components = BTreeMap.remove component.instance_name s.last_components;
  new_components =
      BTreeMap.insert component.instance_name (new_record component version) s.new_components;
}

abbrev pub with_phase : Phase → Option OamStatus → OamStatus
with_phase phase none = record { phase = some (phase_text phase); components = none }
with_phase phase (some hs) = record hs { phase = some (phase_text phase) }

abbrev pub started : RecordAnnotation → Phase → Progress
started last phase = record {
  last_components = last;
  new_components = [];
  component_updated = false;
  phase = phase;
}

module _ (platform : Platform) (server : Server) (namespace : String) where
  -- A configuration with scopes is one of scopes only.
  unfoldable pub exec_scopes : String → OwnerReference → Phase → List OamScope → Action (Unit {0})
  unfolding for_scopes phase_text
  exec_scopes name owner_ref Phase.add scopes =
      for_scopes (λ sc. Scopes.create server sc owner_ref) scopes
  exec_scopes name owner_ref Phase.modify scopes = for_scopes (Scopes.modify server) scopes
  exec_scopes name owner_ref Phase.delete scopes = for_scopes (Scopes.delete server) scopes
  exec_scopes name owner_ref phase scopes =
      fail (message ("unknown phase for scopes " <> (phase_text phase <> (" on " <> name))))

  -- An event that cannot be posted is logged and dropped.
  unfoldable pub announce : OpResource → String → ComponentConfiguration → Action (Unit {0})
  announce o action component =
      unwrap_or_else
        (push_event_message platform.now server (new_event_handler namespace) normal
          (record {
            action = action;
            message = "component " <> (component.component_name <> (" " <> action));
            reason = "";
          })
          (get_object_ref o))
        (λ _. pure tt)

  abbrev pub run_traits : TraitManager → Phase → Action (Unit {0})
  run_traits manager phase = Running.exec server namespace manager phase

  -- The match on the phase, for a component whose workload and traits are loaded.
  unfoldable pub run_phase :
      OpResource → ComponentConfiguration → Workload → TraitManager → Phase → Action (Unit {0})
  unfolding announce
  run_phase o component workload manager Phase.add =
      from_result (validate workload)
      >> run_traits manager Phase.pre_add
      >> Loading.add platform.serde platform.show_f64 platform.to_lowercase server workload
      >> run_traits manager Phase.add
      >> announce o "created" component
  run_phase o component workload manager Phase.modify =
      from_result (validate workload)
      >> run_traits manager Phase.pre_modify
      >> Loading.modify platform.serde platform.show_f64 platform.to_lowercase server workload
      >> run_traits manager Phase.modify
      >> announce o "updated" component
  run_phase o component workload manager Phase.delete = run_traits manager Phase.pre_delete
  run_phase o component workload manager _ =
      fail (message "Illegal phase: only Add, Modify, and Delete are supported here")

  -- What is done for a component that differs from its record.
  unfoldable pub apply_component :
      OpResource
      → OwnerReference
      → Phase
      → ComponentConfiguration
      → KubeComponent
      → Action (Unit {0})
  unfolding run_phase
  apply_component o owner_ref phase component comp_def = do
    bound ← bind_component platform server namespace component
    params ←
        component_params platform server namespace (unwrap_or o.spec.variables []) component
          comp_def
    new_owner_ref ← get_new_own_ref server namespace phase component owner_ref
    let meta =
        get_workload_meta platform server namespace o.metadata.name component.instance_name comp_def
          params new_owner_ref
    workload ← from_result (load_workload_type comp_def.spec.workload_type meta)
    manager ←
        from_result (trait_manager platform server namespace o component comp_def new_owner_ref)
    run_phase o component workload manager phase

  unfoldable pub update_component :
      OpResource
      → OwnerReference
      → ComponentConfiguration
      → KubeComponent
      → Option ComponentRecord
      → String
      → Progress
      → Action Progress
  unfolding apply_component switch_phase pass
  update_component o owner_ref component comp_def last version s =
      if check_diff platform.same last (new_record component version)
      then (apply_component o owner_ref (switch_phase last s.phase) component comp_def
          >> pure (record (pass component version s) {
            component_updated = true;
            phase = switch_phase last s.phase;
          }))
      else pure (pass component version s)

  unfoldable pub exec_component :
      OpResource → OwnerReference → Progress → ComponentConfiguration → Action Progress
  unfolding update_component
  exec_component o owner_ref s component = do
    comp_def ← get_component_def platform server namespace component.component_name
    version ← unwrap comp_def.metadata.resource_version
    update_component o owner_ref component comp_def
        (BTreeMap.get component.instance_name s.last_components) version s

  unfoldable pub exec_components :
      OpResource → OwnerReference → Progress → List ComponentConfiguration → Action Progress
  unfolding exec_component
  exec_components o owner_ref s [] = pure s
  exec_components o owner_ref s (component ∷ components) =
      exec_component o owner_ref s component >>= λ t. exec_components o owner_ref t components

  -- A component that the configuration no longer has.
  unfoldable pub delete_component : OpResource → ComponentConfiguration → Action (Unit {0})
  unfolding announce
  delete_component o component = do
    comp_def ← get_component_def platform server namespace component.component_name
    manager ← from_result (trait_manager platform server namespace o component comp_def none)
    run_traits manager Phase.pre_delete
        >> delete_component_instance server namespace component.component_name
            component.instance_name
        >> unbind_component platform server namespace component
        >> announce o "deleted" component

  unfoldable pub delete_components : OpResource → RecordAnnotation → Action (Unit {0})
  unfolding delete_component
  delete_components o [] = pure tt
  delete_components o ((_, r) ∷ last) = delete_component o r.config >> delete_components o last

  -- The new records and the phase are written, unless there is nothing new.
  unfoldable pub conclude : ℕ → OpResource → Progress → Action (Option (Unit {0}))
  conclude fuel o s =
      if not (s.component_updated || not (BTreeMap.is_empty s.last_components)) || is_delete s.phase
      then pure (some tt)
      else do
        text ← from_result (platform.print_records s.new_components)
        retry_patch_status server namespace o.metadata.name (some (with_phase s.phase o.status))
            (some (BTreeMap.insert record_annotation text o.metadata.annotations)) fuel o

  unfoldable pub exec_configuration :
      ℕ → OpResource → OwnerReference → Phase → Action (Option (Unit {0}))
  unfolding exec_components delete_components conclude
  exec_configuration fuel o owner_ref phase = do
    last ← from_result (
        get_record_annotation platform.parse_records
          (BTreeMap.get record_annotation o.metadata.annotations))
    s ← exec_components o owner_ref (started last phase) (unwrap_or o.spec.components [])
    delete_components o s.last_components >> conclude fuel o s

  unfoldable pub exec : ℕ → OpResource → Phase → Action (Option (Unit {0}))
  unfolding exec_configuration exec_scopes
  exec fuel o phase = do
    owner_ref ← from_result (config_owner_reference o.metadata.name o.metadata.uid)
    elim o.spec.scopes [
      | none ↦ exec_configuration fuel o owner_ref phase
      | some _ ↦
          (from_result (
              load_scopes platform.serde namespace o.metadata.name (unwrap_or o.spec.variables [])
                o.spec)
            >>= exec_scopes o.metadata.name owner_ref phase)
          >> pure (some tt)
    ]

  unfoldable pub add : ℕ → OpResource → Action (Option (Unit {0}))
  unfolding exec
  add fuel o = exec fuel o Phase.add

  unfoldable pub modify : ℕ → OpResource → Action (Option (Unit {0}))
  unfolding exec
  modify fuel o = exec fuel o Phase.modify

  unfoldable pub delete : ℕ → OpResource → Action (Option (Unit {0}))
  unfolding exec
  delete fuel o = exec fuel o Phase.delete
