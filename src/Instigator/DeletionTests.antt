-- ===== src/Instigator/DeletionTests.antt =====
-- Examples of a component that a configuration no longer has.
use rudr.Prelude.{◌≡◌, refl, Option, some, none, List, [], ◌∷◌, Member, Result, ok}
use rudr.BTreeMap
use rudr.Lifecycle.{Phase}
use rudr.Configuration.{OpResource}
use rudr.Client.{Server, Request, Error}
use rudr.Instigator.{RecordAnnotation, ComponentRecord, get_record_annotation}
use rudr.Instigator.Records.{latest}
use rudr.Instigator.Execution.{record_annotation, exec}
use rudr.Instigator.Deletion.{deletion, exec_deletes}
use rudr.Instigator.ExecutionTests.{one, platform, cluster, o}

-- The configuration that had the component and has none now.
abbrev emptied : OpResource
emptied = record o { spec = record { variables = none; scopes = none; components = none } }

abbrev willing : Server
willing = record cluster { accept = λ _ _. ok tt; read_configuration = λ _ _. ok emptied }

abbrev left : ComponentRecord
left = record { config = one; version = "3" }

abbrev run : Result Error (Option (Unit {0})) × List Request
run = exec platform willing "default" 1 emptied Phase.modify []

ran : run ≡ (ok (some tt), run.1)
unfolding exec BTreeMap.get BTreeMap.insert rudr.Instigator.config_owner_reference
    rudr.Instigator.get_record_annotation rudr.Instigator.combine_name
    rudr.Instigator.Execution.exec_configuration rudr.Instigator.Execution.exec_components
    rudr.Instigator.Execution.delete_components rudr.Instigator.Execution.delete_component
    rudr.Instigator.Execution.announce rudr.Instigator.Execution.conclude
    rudr.Instigator.StatusPatch.retry_patch_status rudr.Instigator.StatusPatch.with_status
    rudr.Instigator.Instances.delete_component_instance rudr.Instigator.Binding.unbind_component
    rudr.Instigator.Binding.unbind_names rudr.Instigator.Setting.get_component_def
    rudr.Instigator.Setting.trait_manager rudr.Instigator.Setting.loaded_manager
    rudr.TraitManager.load_traits rudr.TraitManager.Running.exec rudr.TraitManager.Running.exec_all
    rudr.KubeEvents.push_event_message rudr.KubeEvents.make_event rudr.Client.◌>>=◌ rudr.Client.◌>>◌
    rudr.Client.resume rudr.Client.pure rudr.Client.unwrap_or_else rudr.Client.handle
    rudr.Client.request rudr.Client.from_result rudr.KubeEvents.get_object_ref
ran = refl

records_lem :
    get_record_annotation platform.parse_records
      (BTreeMap.get record_annotation emptied.metadata.annotations)
    ≡ ok (("one", left) ∷ [])
unfolding get_record_annotation BTreeMap.get
records_lem = refl

gone_lem : latest "one" [] ≡ none
unfolding latest
gone_lem = refl

left_lem : BTreeMap.get "one" (("one", left) ∷ []) ≡ some left
unfolding BTreeMap.get
left_lem = refl

exec_deletes_example : Member (deletion "default" one) run.1
exec_deletes_example =
    exec_deletes platform willing "default" 1 emptied Phase.modify (("one", left) ∷ []) "one" left
      (some tt) [] run.1 refl records_lem gone_lem left_lem ran
