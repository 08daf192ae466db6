-- ===== src/Instigator/ExecutionTests.antt =====
-- Examples of handling a configuration.
use rudr.Prelude.{
  String, ◌≡◌, refl, ◌⊎◌, All, Result, true, none, some, List, [], ◌∷◌, ◌++◌, ok, unwrap_or,
}
use rudr.Prelude.Int.{pos}
use rudr.BTreeMap
use rudr.Json.Example.{example_serde}
use rudr.Configuration.{OpResource, ComponentConfiguration}
use rudr.Cluster.{OwnerReference}
use rudr.Lifecycle.{Phase}
use rudr.KubeObjects.{KubeComponent}
use rudr.Component.{default_component}
use rudr.Client.Example.{absent}
use rudr.Client.{Server, Request, Error}
use rudr.Instigator.Binding.{bind_component}
use rudr.Instigator.{RecordAnnotation, ComponentRecord, get_record_annotation}
use rudr.Instigator.Setting.{Platform, component_get}
use rudr.Instigator.Execution.{
  Progress, new_record, started, pass, exec, exec_components, record_annotation,
}
use rudr.Instigator.Convergence.{IsDistinct, exec-converges}
use rudr.Instigator.Idle.{IsSettled, definition_reads, exec-settled}
use rudr.Instigator.Records.{latest, IsVersion, exec_components-records}

abbrev pub one : ComponentConfiguration
one = record {
  component_name = "web";
  instance_name = "one";
  parameter_values = none;
  traits = none;
  application_scopes = none;
}

abbrev pub web : KubeComponent
web = record {
  metadata = record {
    name = "web";
    namespace = none;
    uid = some "5";
    resource_version = some "3";
    annotations = [];
  };
  spec = record default_component { workload_type = "core.oam.dev/v1alpha1.SingletonServer" };
}

abbrev recorded : RecordAnnotation
recorded = ("one", record { config = one; version = "3" }) ∷ []

abbrev pub platform : Platform
platform = record {
  serde = example_serde;
  show_f64 = λ _. "0";
  to_lowercase = λ s. s;
  sort_unstable = λ vs. vs;
  same = λ _ _. true;
  parse_records = λ _. ok recorded;
  print_records = λ _. ok "{}";
  now = λ _. pos 0;
}

abbrev pub cluster : Server
cluster = record absent { read_component = λ _ _. ok web }

abbrev pub o : OpResource
o = record {
  api_version = some "core.oam.dev/v1alpha1";
  kind = some "ApplicationConfiguration";
  metadata = record {
    name = "app";
    namespace = none;
    uid = some "0";
    resource_version = some "7";
    annotations = ("component_record_annotation", "{}") ∷ [];
  };
  spec = record { variables = none; scopes = none; components = some (one ∷ []) };
  status = none;
}

abbrev app : OwnerReference
app = record {
  api_version = "core.oam.dev/v1alpha1";
  kind = "ApplicationConfiguration";
  uid = "0";
  controller = some true;
  block_owner_deletion = some true;
  name = "app";
}

settled : IsSettled platform cluster "default" recorded (one ∷ []) []
unfolding IsSettled new_record BTreeMap.get BTreeMap.remove
settled = ((web, "3", record { config = one; version = "3" }, refl, refl, refl, refl), refl)

records_lem :
    get_record_annotation platform.parse_records
      (BTreeMap.get record_annotation o.metadata.annotations)
    ≡ ok recorded
unfolding get_record_annotation BTreeMap.get
records_lem = refl

exec-settled_example :
    exec platform cluster "default" 1 o Phase.modify []
    ≡ (ok (some tt), [] ++ definition_reads "default" (one ∷ []))
exec-settled_example =
    exec-settled platform cluster "default" 1 o Phase.modify "0" recorded [] refl refl records_lem
      settled

abbrev done : Progress
done = record {
  last_components = [];
  new_components = recorded;
  component_updated = rudr.Prelude.false;
  phase = Phase.modify;
}

loop_lem :
    exec_components platform cluster "default" o app (started recorded Phase.modify) (one ∷ []) []
    ≡ (ok done, component_get "default" "web" ∷ [])
unfolding exec_components BTreeMap.get BTreeMap.remove BTreeMap.insert new_record pass
    rudr.Instigator.Execution.exec_component rudr.Instigator.Execution.update_component
    rudr.Instigator.check_diff rudr.Instigator.Setting.get_component_def rudr.Client.◌>>=◌
    rudr.Client.resume rudr.Client.pure rudr.Client.unwrap rudr.Client.unwrap_or_else
    rudr.Client.handle rudr.Client.request
loop_lem = refl

exec_components-records_example :
    (latest "one" (one ∷ []) ≡ none
      → (BTreeMap.get "one" done.last_components ≡ BTreeMap.get "one" recorded)
        × (BTreeMap.get "one" done.new_components ≡ none))
    × ((c : ComponentConfiguration)
        → latest "one" (one ∷ []) ≡ some c
        → (BTreeMap.get "one" done.last_components ≡ none)
          × ((version : String) × IsVersion cluster "default" c version
              × (BTreeMap.get "one" done.new_components ≡ some (new_record c version))))
exec_components-records_example =
    exec_components-records platform cluster "default" o app Phase.modify recorded (one ∷ []) done
      [] (component_get "default" "web" ∷ []) "one" loop_lem

-- A component without a record, in the phase of deletion.
abbrev deleted : Progress
deleted = record {
  last_components = [];
  new_components = recorded;
  component_updated = true;
  phase = Phase.delete;
}

distinct_lem : IsDistinct (one ∷ [])
unfolding IsDistinct latest
distinct_lem = (refl, tt)

abbrev run_once : Result Error Progress × List Request
run_once = exec_components platform cluster "default" o app (started [] Phase.delete) (one ∷ []) []

ran : run_once ≡ (ok deleted, run_once.1)
unfolding exec_components BTreeMap.get BTreeMap.remove BTreeMap.insert new_record pass
    rudr.Instigator.Execution.exec_component rudr.Instigator.Execution.update_component
    rudr.Instigator.Execution.apply_component rudr.Instigator.Execution.run_phase
    rudr.Instigator.Execution.switch_phase rudr.Instigator.check_diff
    rudr.Instigator.Setting.get_component_def rudr.Instigator.Setting.component_params
    rudr.Instigator.Setting.get_workload_meta rudr.Instigator.Setting.trait_manager
    rudr.Instigator.Setting.loaded_manager rudr.Instigator.Binding.bind_component
    rudr.Instigator.Binding.bind_names rudr.Instigator.Instances.get_new_own_ref
    rudr.TraitManager.load_traits rudr.TraitManager.Running.exec rudr.TraitManager.Running.exec_all
    rudr.Workload.Loading.load_workload_type rudr.Parameter.resolve_parameters
    rudr.Parameter.resolve_values rudr.Client.◌>>=◌ rudr.Client.◌>>◌ rudr.Client.resume
    rudr.Client.pure rudr.Client.unwrap rudr.Client.unwrap_or_else rudr.Client.handle
    rudr.Client.request rudr.Client.from_result rudr.Client.expect
ran = refl

exec-converges_example :
    exec platform cluster "default" 1 o Phase.modify []
    ≡ (ok (some tt), [] ++ definition_reads "default" (one ∷ []))
exec-converges_example =
    exec-converges platform cluster "default" (λ _. web) 1 o o app Phase.delete Phase.modify "0" []
      deleted [] run_once.1 [] (λ log name. refl) (λ r. refl) distinct_lem ran refl refl refl
      records_lem
