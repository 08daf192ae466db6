-- ===== src/Parameter/Tests.antt =====
-- Examples of the resolution of parameters.
use rudr.Prelude.{
  ◌≡◌, ◌≢◌, refl, ◌↔◌, true, false, none, some, [], ◌∷◌, ok, err, All, Any, map_some,
}
use rudr.Prelude.Int.{pos}
use rudr.BTreeMap
use rudr.Json.{Value, Number}
use rudr.Json.Example.{example_serde}
use rudr.Parameter.{
  ParameterType, Parameter, ParameterValue, ParamMap, ParameterError, expected, validate,
  validate_type, candidate, resolve_parameters, resolve_values, resolve_loop, finish, problems,
  missing, ill_typed, merge_values, merge_step, new_value,
}
use rudr.Parameter.Validation.{HasType, Accepts, validate_iff}
use rudr.Parameter.Resolution.{
  chosen, last_named, ExplainsSome, IsReported, resolve_parameters-ok_iff, get-resolve_parameters,
  resolve_parameters-err, optional_without_default,
}
use rudr.Parameter.Typing.{resolve_parameters-HasType}
use rudr.Parameter.Merging.{Resolves, Blames, last_value, resolve_values-ok_iff, get-resolve_values}

abbrev message : Parameter
message = record {
  name = "message";
  description = none;
  parameter_type = ParameterType.string;
  required = false;
  default = none;
}

abbrev replicas : Parameter
replicas = record {
  name = "replicas";
  description = none;
  parameter_type = ParameterType.number;
  required = true;
  default = some (Value.number (Number.integer (pos 1)));
}

abbrev hello : ParamMap
hello = ("message", Value.string "hello") ∷ []

abbrev resolved : ParamMap
resolved =
    ("message", Value.string "hello") ∷ ("replicas", Value.number (Number.integer (pos 1))) ∷ []

resolved_lem : resolve_parameters example_serde (message ∷ replicas ∷ []) hello ≡ ok resolved
unfolding resolve_parameters resolve_loop finish problems missing ill_typed validate validate_type
    candidate BTreeMap.get BTreeMap.insert
resolved_lem = refl

refused_lem :
    resolve_parameters example_serde (message ∷ []) []
    ≡ err (expected ParameterType.string "message" ∷ [])
unfolding resolve_parameters resolve_loop finish problems missing ill_typed validate validate_type
    candidate BTreeMap.get BTreeMap.insert
refused_lem = refl

message_valid :
    ((validate example_serde message (Value.string "hello") ≡ ok tt)
      ↔ HasType ParameterType.string (Value.string "hello"))
    × ((validate example_serde message (Value.string "hello")
          ≡ err (expected ParameterType.string "message"))
        ↔ (¬ HasType ParameterType.string (Value.string "hello")))
message_valid = validate_iff example_serde message (Value.string "hello")

resolve_parameters-ok_iff_example :
    ((m : ParamMap) × (resolve_parameters example_serde (message ∷ replicas ∷ []) hello ≡ ok m))
    ↔ All (λ d. Accepts d (chosen hello d)) (message ∷ replicas ∷ [])
resolve_parameters-ok_iff_example =
    resolve_parameters-ok_iff example_serde (message ∷ replicas ∷ []) hello

get-resolve_parameters_example :
    BTreeMap.get "replicas" resolved
    ≡ map_some (chosen hello) (last_named "replicas" (message ∷ replicas ∷ []))
get-resolve_parameters_example =
    get-resolve_parameters example_serde (message ∷ replicas ∷ []) hello resolved "replicas"
      resolved_lem

resolve_parameters-err_example :
    (expected ParameterType.string "message" ∷ [] ≢ [])
    × All
        (ExplainsSome example_serde [] (message ∷ []))
        (expected ParameterType.string "message" ∷ [])
    × All
        (IsReported example_serde [] (expected ParameterType.string "message" ∷ []))
        (message ∷ [])
resolve_parameters-err_example =
    resolve_parameters-err example_serde (message ∷ []) []
      (expected ParameterType.string "message" ∷ []) refused_lem

string_not_null : ParameterType.string ≢ ParameterType.null
string_not_null e = cc e

absent_lem : BTreeMap.get {V = Value} "message" [] ≡ none
unfolding BTreeMap.get
absent_lem = refl

optional_refused : resolve_parameters example_serde (message ∷ []) [] ≢ ok []
optional_refused =
    optional_without_default example_serde message [] [] refl refl string_not_null absent_lem

abbrev given : ParameterValue
given = record { name = "message"; value = some (Value.string "own"); from_param = some "greeting" }

abbrev greeting : ParameterValue
greeting = record { name = "greeting"; value = some (Value.string "parent's"); from_param = none }

resolve_values-ok_iff_example :
    (((m : ParamMap) × (resolve_values (given ∷ []) (greeting ∷ []) ≡ ok m))
      ↔ All (Resolves (greeting ∷ [])) (given ∷ []))
    × ((e : ParameterError)
        → resolve_values (given ∷ []) (greeting ∷ []) ≡ err e
        → Any (Blames (greeting ∷ []) e) (given ∷ []))
resolve_values-ok_iff_example = resolve_values-ok_iff (given ∷ []) (greeting ∷ [])

merged_lem :
    resolve_values (given ∷ []) (greeting ∷ []) ≡ ok (("message", Value.string "parent's") ∷ [])
unfolding resolve_values merge_values merge_step new_value BTreeMap.insert
merged_lem = refl

get-resolve_values_example :
    BTreeMap.get "message" (("message", Value.string "parent's") ∷ [])
    ≡ last_value (greeting ∷ []) "message" (given ∷ [])
get-resolve_values_example =
    get-resolve_values (given ∷ []) (greeting ∷ []) (("message", Value.string "parent's") ∷ [])
      "message" merged_lem

replicas_held : BTreeMap.get "replicas" resolved ≡ some (Value.number (Number.integer (pos 1)))
unfolding BTreeMap.get
replicas_held = refl

resolve_parameters-HasType_example :
    (d : Parameter) × (last_named "replicas" (message ∷ replicas ∷ []) ≡ some d)
    × HasType d.parameter_type (Value.number (Number.integer (pos 1)))
    × (d.required ≡ true → Value.number (Number.integer (pos 1)) ≢ Value.null)
resolve_parameters-HasType_example =
    resolve_parameters-HasType example_serde (message ∷ replicas ∷ []) hello resolved "replicas"
      (Value.number (Number.integer (pos 1))) resolved_lem replicas_held
