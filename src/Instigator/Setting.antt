-- ===== src/Instigator/Setting.antt =====
-- What the instigator loads before it acts on a component: the definition, the parameters, the
-- metadata of the workload, the trait manager, and the scopes that the component names.
-- A message leaves out the cause of a failed resolution.
use rudr.Prelude.{ℕ, String, Bool, ◌<>◌, Option, none, some, List, [], Result, ok, err, unwrap_or}
use rudr.Prelude.Int.{ℤ}
use rudr.Json.{Serde}
use rudr.Configuration.{ComponentConfiguration, OpResource}
use rudr.KubeObjects.{KubeComponent}
use rudr.Parameter.{ParamMap, ParameterValue, resolve_parameters, resolve_values}
use rudr.Variable.{Variable, VariableError, resolve_variables, get_variable_values}
use rudr.Client.{
  Server, Request, Error, kube, message, OwnerRefs, Action, request, fail, ◌>>=◌, unwrap_or_else,
  from_result, expect, get, components, configurations,
}
use rudr.Scopes.{OamScope}
use rudr.TraitManager.{TraitManager, load_traits}
use rudr.Workload.{WorkloadMetadata}
use rudr.Instigator.{ComponentRecord, RecordAnnotation, load_scopes}

-- What the instigator takes from other crates: `serde_json`, the printing of a double, Unicode's
-- lower case, the unstable sort of variables by name, the derived `==` of records, records from and to
-- their text, and the clock.
pub record Platform : Type 0 where
  pub serde : Serde
  pub show_f64 : ℕ → String
  pub to_lowercase : String → String
  pub sort_unstable : List Variable → List Variable
  pub same : ComponentRecord → ComponentRecord → Bool
  pub parse_records : String → Result Error RecordAnnotation
  pub print_records : RecordAnnotation → Result Error String
  pub now : List Request → ℤ

-- The instance's traits, `None` for an error of the manager's loading aside.
unfoldable pub loaded_manager : Serde → TraitManager → Result Error TraitManager
loaded_manager serde manager =
    let (loaded, result) = load_traits serde manager in
    elim result [ ok _ ↦ ok loaded | err e ↦ err e ]

abbrev pub component_get : String → String → Request
component_get namespace name = get namespace components name

module _ (platform : Platform) (server : Server) (namespace : String) where
  open platform use {serde}

  unfoldable pub definition_missing : String → Error → Action KubeComponent
  definition_missing comp_name (kube e) =
      fail (message ("get component " <> (comp_name <> (" err: " <> e.text))))
  definition_missing comp_name e = fail e

  unfoldable pub get_component_def : String → Action KubeComponent
  unfolding definition_missing
  get_component_def comp_name =
      unwrap_or_else (request server.read_component (component_get namespace comp_name))
        (definition_missing comp_name)

  -- The values of a component with the variables in them, against the definition's parameters.
  unfoldable pub component_params :
      List Variable → ComponentConfiguration → KubeComponent → Action ParamMap
  component_params variables component comp_def = do
    child ← expect (message "variable not found") (child_values component.parameter_values)
    values ← expect (message "cannot resolve values") (resolve_values child [])
    expect (message "cannot resolve parameters")
        (resolve_parameters serde comp_def.spec.parameters values)
    where
      child_values : Option (List ParameterValue) → Result VariableError (List ParameterValue)
      child_values none = ok []
      child_values (some values) = resolve_variables values variables

  unfoldable pub get_workload_meta :
      String → String → KubeComponent → ParamMap → OwnerRefs → WorkloadMetadata
  get_workload_meta config_name instance_name comp params owner_ref = record {
    name = config_name;
    instance_name = instance_name;
    component_name = comp.metadata.name;
    annotations = some comp.metadata.annotations;
    namespace = namespace;
    definition = comp.spec;
    params = params;
    owner_ref = owner_ref;
  }

  -- The manager of a component, its traits loaded.
  unfoldable pub trait_manager :
      OpResource → ComponentConfiguration → KubeComponent → OwnerRefs → Result Error TraitManager
  unfolding loaded_manager
  trait_manager o component comp_def owner_ref = loaded_manager serde (record {
    config_name = o.metadata.name;
    instance_name = component.instance_name;
    component = component;
    parent_params =
        get_variable_values platform.sort_unstable (some (unwrap_or o.spec.variables []));
    owner_ref = owner_ref;
    workload_type = comp_def.spec.workload_type;
    traits = [];
    component_schematic = comp_def.spec;
  })

  -- The scopes of the configuration that is named; an undefined variable panics.
  unfoldable pub get_scope_instance : String → Action (List OamScope)
  get_scope_instance name = do
    cfg ← request server.read_configuration (get namespace configurations name)
    from_result
        (load_scopes serde namespace cfg.metadata.name (unwrap_or cfg.spec.variables []) cfg.spec)
