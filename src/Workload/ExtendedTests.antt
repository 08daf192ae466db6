-- ===== src/Workload/ExtendedTests.antt =====
-- Examples of workloads that the program does not know, and of functions.
use rudr.Prelude.{
  String, ◌≡◌, ◌≢◌, refl, ◌↔◌, ◌⊎◌, none, some, true, false, [], ◌∷◌, ok, Member, and_then, arith,
}
use rudr.BTreeMap
use rudr.Json.Example.{example_serde}
use rudr.Component.{default_component, resolve_param}
use rudr.Workload.{WorkloadMetadata}
use rudr.Workload.Extended.{new_others}
use rudr.Gvk.{split_first}
use rudr.Json.{Value, nil, cons, field, end}
use rudr.Parameter.{ParameterType}
use rudr.Gvk.{GroupVersionKind, from_str}
use rudr.Workload.{get_metadata_setting}
use rudr.Component.{get_workload_setting}
use rudr.Workload.Loading.{Workload, others, load_workload_type, workload_name}
use rudr.Workload.Dispatch.{
  known_types, workload_name-load_workload_type, load_workload_type-ok_iff,
}
use rudr.Workload.Extended.{extract_environment}
use rudr.Workload.Environment.{IsLiteral, extract_environment-IsLiteral}

abbrev meta : WorkloadMetadata
meta = record {
  name = "app";
  component_name = "frontend";
  instance_name = "first";
  namespace = "default";
  definition = default_component;
  params = [];
  owner_ref = none;
  annotations = none;
}

abbrev custom_meta : WorkloadMetadata
custom_meta = record meta {
  definition = record default_component {
    workload_settings =
        record {
          name = "spec";
          description = none;
          parameter_type = ParameterType.object;
          required = true;
          value = some Value.null;
          from_param = none;
        }
        ∷ [];
  };
}

loaded_custom :
    load_workload_type "apps/v1.DaemonSet" custom_meta
    ≡ ok (others custom_meta (record { group = "apps"; version = "v1"; kind = "DaemonSet" }))
unfolding load_workload_type new_others from_str split_first get_workload_setting
loaded_custom = refl

workload_name-load_workload_type_example :
    (◌≡◌ {A = String}
      (workload_name
        (others custom_meta (record { group = "apps"; version = "v1"; kind = "DaemonSet" })))
      "apps/v1.DaemonSet")
    × (custom_meta ≡ custom_meta)
workload_name-load_workload_type_example =
    workload_name-load_workload_type "apps/v1.DaemonSet" custom_meta
      (others custom_meta (record { group = "apps"; version = "v1"; kind = "DaemonSet" }))
      loaded_custom

load_workload_type-ok_iff_example :
    ((w : Workload) × (load_workload_type "apps/v1.DaemonSet" custom_meta ≡ ok w)) ↔ (
      Member "apps/v1.DaemonSet" known_types
      ⊎ ((g : GroupVersionKind) × (from_str "apps/v1.DaemonSet" ≡ ok g)
          × (get_workload_setting custom_meta.definition "spec" ≢ none)))
load_workload_type-ok_iff_example = load_workload_type-ok_iff "apps/v1.DaemonSet" custom_meta

abbrev literal : Value
literal =
    Value.object (field "name" (Value.string "key") (field "value" (Value.string "hello") end))

-- A function whose environment has one literal entry.
abbrev function_meta : WorkloadMetadata
function_meta = record meta {
  definition = record default_component {
    workload_settings =
        record {
          name = "environment";
          description = none;
          parameter_type = ParameterType.array;
          required = false;
          value = some (Value.array (cons literal nil));
          from_param = none;
        }
        ∷ [];
  };
}

environment_setting :
    and_then (get_metadata_setting function_meta "environment") example_serde.as_array
    ≡ some (literal ∷ [])
unfolding get_metadata_setting get_workload_setting resolve_param rudr.Parameter.resolve_value
environment_setting = refl

literal-IsLiteral : IsLiteral example_serde literal
unfolding BTreeMap.get
literal-IsLiteral fields e =
    let same : ("name", Value.string "key") ∷ ("value", Value.string "hello") ∷ [] ≡ fields =
      ground (arith, e) in
    rw (← same) refl

extract_environment-IsLiteral_example : extract_environment example_serde function_meta ≡ none
extract_environment-IsLiteral_example =
    extract_environment-IsLiteral example_serde function_meta (literal ∷ []) environment_setting
      (literal-IsLiteral, tt)
