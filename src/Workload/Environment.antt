-- ===== src/Workload/Environment.antt =====
-- The environment of an OpenFaaS function.
use rudr.Prelude.{
  String, ◌≡◌, refl, none, some, List, [], ◌∷◌, All, and_then, arith, Option-cases, inl, inr,
}
use rudr.BTreeMap
use rudr.Json.{Value, Serde}
use rudr.Parameter.{ParamMap}
use rudr.Workload.{WorkloadMetadata, get_metadata_setting}
use rudr.Workload.Extended.{real_value, environment_entry, collect_environment, extract_environment}

-- The element has no `fromParam`.
abbrev pub IsLiteral : Serde → Value → Type 0
IsLiteral serde v =
    (fields : List (String × Value))
    → serde.as_object v ≡ some fields
    → BTreeMap.get "fromParam" fields ≡ none

environment_entry-IsLiteral :
    (serde : Serde) (params : ParamMap) (v : Value)
    → IsLiteral serde v
    → and_then (serde.as_object v) (environment_entry serde params) ≡ none
unfolding environment_entry real_value
environment_entry-IsLiteral serde params v h = elim (Option-cases (serde.as_object v)) [
  | inl absent ↦ ground arith
  | inr (fields, found) ↦
      let missing : BTreeMap.get "fromParam" fields ≡ none = h fields found in ground arith
]

collect_literals :
    (serde : Serde) (params : ParamMap) (array : List Value)
    → All (IsLiteral serde) array
    → collect_environment serde params array [] ≡ []
unfolding collect_environment
collect_literals serde params [] h = refl
collect_literals serde params (v ∷ vs) (h, hs) =
    rw (environment_entry-IsLiteral serde params v h) (collect_literals serde params vs hs)

-- A setting `environment` in which no element has a `fromParam` gives a function no environment,
-- whatever values its elements have.
pub extract_environment-IsLiteral :
    (serde : Serde) (meta : WorkloadMetadata) (array : List Value)
    → and_then (get_metadata_setting meta "environment") serde.as_array ≡ some array
    → All (IsLiteral serde) array
    → extract_environment serde meta ≡ none
unfolding extract_environment
extract_environment-IsLiteral serde meta array found h =
    rw (found, collect_literals serde meta.params array h) refl
