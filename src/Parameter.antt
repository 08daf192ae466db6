-- ===== src/Parameter.antt =====
-- src/schematic/parameter.rs: parameters of a component, the values given for them, and how the
-- two are resolved to a map.
pub mod Validation
pub mod Resolution
pub mod Typing
pub mod Merging
mod Tests
use rudr.Prelude.{
  String, Bool, true, false, ◌||◌, ◌&&◌, Option, none, some, List, [], ◌∷◌, ◌++◌, ◌==◌, Result, ok,
  err, ok_or, or_else, and_then, unwrap_or, find, find_map, if◌then◌else◌,
}
use rudr.BTreeMap
use rudr.BTreeMap.{BTreeMap}
use rudr.Json
use rudr.Json.{Value, Serde}

pub data ParameterType : Type 0 where
  boolean string number null object array : ParameterType

pub record Parameter : Type 0 where
  pub name : String
  pub description : Option String
  pub parameter_type : ParameterType
  pub required : Bool
  pub default : Option Value

pub record ParameterValue : Type 0 where
  pub name : String
  pub value : Option Value
  pub from_param : Option String

abbrev pub ParamMap : Type 0
ParamMap = BTreeMap Value

-- The messages of the errors, with the names that they print.
pub data ParameterError : Type 0 where
  expected : ParameterType → String → ParameterError
  is_required : String → ParameterError
  could_not_resolve : String → String → ParameterError

-- `.ok_or_else(..).and(Ok(()))`
abbrev done_or {ℓ} : {A : Type ℓ} → ParameterError → Option A → Result ParameterError (Unit {0})
done_or e none = err e
done_or e (some _) = ok tt

module _ (serde : Serde) where
  open serde use {as_bool, as_str, as_f64, as_object, as_array, as_null, is_null, to_string}

  validate_type : ParameterType → String → Value → Result ParameterError (Unit {0})
  validate_type boolean name val = done_or (expected boolean name) (as_bool val)
  validate_type string name val = done_or (expected string name) (as_str val)
  validate_type number name val = done_or (expected number name) (as_f64 val)
  validate_type object name val = done_or (expected object name) (as_object val)
  validate_type array name val = done_or (expected array name) (as_array val)
  validate_type null name val = done_or (expected null name) (as_null val)

  unfoldable pub validate : Parameter → Value → Result ParameterError (Unit {0})
  unfolding validate_type
  validate p val = validate_type p.parameter_type p.name val

  -- `match i { Value::String(s) => s, _ => i.to_string() }`
  unfoldable pub render : Value → String
  render (Value.string s) = s
  render i = to_string i

unfoldable pub resolve_value : ParamMap → Option String → Option Value → Option Value
resolve_value params none value = value
resolve_value params (some p) value = or_else (BTreeMap.get p params) value

unfoldable pub resolve_value_string :
    Serde → ParamMap → Option String → Option String → Option String
unfolding render
resolve_value_string serde params none value = value
resolve_value_string serde params (some p) value =
    or_else (and_then (BTreeMap.get p params) (λ i. some (render serde i))) value

-- The value of the local `resolved` of `resolve_parameters`, which is never absent.
unfoldable pub candidate : ParamMap → Parameter → Value
candidate values d = unwrap_or (BTreeMap.get d.name values) (unwrap_or d.default Value.null)

module _ (serde : Serde) where
  open serde use {is_null}

  -- The errors that one definition pushes, in order.
  missing : Parameter → Value → List ParameterError
  missing d val = if d.required && is_null val then is_required d.name ∷ [] else []

  ill_typed : Parameter → Value → List ParameterError
  unfolding validate
  ill_typed d val = elim (validate serde d val) [ ok _ ↦ [] | err e ↦ e ∷ [] ]

  pub problems : Parameter → Value → List ParameterError
  problems d val = missing d val ++ ill_typed d val

  -- The loop over the definitions, with the errors and the map so far.
  resolve_loop :
      List Parameter → ParamMap → List ParameterError → ParamMap → List ParameterError × ParamMap
  resolve_loop [] values errors resolved = (errors, resolved)
  resolve_loop (d ∷ definition) values errors resolved =
      let val = candidate values d in
      resolve_loop definition values (errors ++ problems d val)
        (BTreeMap.insert d.name val resolved)

  finish : List ParameterError × ParamMap → Result (List ParameterError) ParamMap
  finish ([], resolved) = ok resolved
  finish (e ∷ errors, resolved) = err (e ∷ errors)

  unfoldable pub resolve_parameters :
      List Parameter → ParamMap → Result (List ParameterError) ParamMap
  unfolding resolve_loop finish problems missing ill_typed
  resolve_parameters definition values = finish (resolve_loop definition values [] [])

-- `parent.iter().find(..).and_then(|s| s.value.clone())`
abbrev override_from : List ParameterValue → String → Option Value
override_from parent from_name =
    and_then (find (λ (item : ParameterValue). item.name == from_name) parent) (λ s. s.value)

unfoldable pub new_value : List ParameterValue → ParameterValue → Option Value
new_value parent p = or_else (and_then p.from_param (override_from parent)) p.value

-- One round of the loop of `resolve_values`, on what its match on the new value sees.
merge_step :
    ParameterValue → Option String → Option Value → ParamMap → Result ParameterError ParamMap
merge_step p from_param (some new) merged = ok (BTreeMap.insert p.name new merged)
merge_step p (some from_name) none merged = err (could_not_resolve from_name p.name)
merge_step p none none merged = ok merged

merge_values : List ParameterValue → List ParameterValue → ParamMap → Result ParameterError ParamMap
unfolding merge_step
merge_values [] parent merged = ok merged
merge_values (p ∷ current) parent merged =
    elim (merge_step p p.from_param (new_value parent p) merged) [
      | ok merged' ↦ merge_values current parent merged'
      | err e ↦ err e
    ]

unfoldable pub resolve_values :
    List ParameterValue → List ParameterValue → Result ParameterError ParamMap
unfolding merge_values
resolve_values current parent = merge_values current parent []

unfoldable pub extract_value_params : String → List ParameterValue → Option Value
extract_value_params name params =
    find_map (λ (p : ParameterValue). if p.name == name then p.value else none) params

-- The matches read `unwrap_or_default`, whose default is `Value::Null`.
unfoldable pub extract_string_params : String → List ParameterValue → Option String
unfolding extract_value_params
extract_string_params name params =
    Json.string_of (unwrap_or (extract_value_params name params) Value.null)

unfoldable pub extract_number_params : String → List ParameterValue → Option Json.Number
unfolding extract_value_params
extract_number_params name params =
    Json.number_of (unwrap_or (extract_value_params name params) Value.null)
