-- ===== src/Parameter/Validation.antt =====
-- `Parameter::validate` and the errors of one definition in `resolve_parameters`.
use rudr.Prelude.{String, ◌≡◌, ◌≢◌, ◌↔◌, ◌⊎◌, true, [], ◌∷◌, arith, ok, err, All, Any}
use rudr.Json.{Value, Serde}
use rudr.Parameter.{
  ParameterType, boolean, string, number, null, object, array, Parameter, ParameterError, expected,
  is_required, validate_type, validate, missing, ill_typed, problems,
}

-- The JSON types of a value.
abbrev pub HasType : ParameterType → Value → Type 0
HasType boolean (Value.bool _) = Unit
HasType string (Value.string _) = Unit
HasType number (Value.number _) = Unit
HasType object (Value.object _) = Unit
HasType array (Value.array _) = Unit
HasType null Value.null = Unit
HasType _ _ = ⊥

validate_type_lem :
    (serde : Serde) (t : ParameterType) (name : String) (v : Value)
    → (validate_type serde t name v ≡ ok tt × HasType t v)
      ⊎ (validate_type serde t name v ≡ err (expected t name) × (HasType t v → ⊥))
unfolding validate_type
validate_type_lem serde boolean name v = ground (arith, serde.as_bool_lem v)
validate_type_lem serde string name v = ground (arith, serde.as_str_lem v)
validate_type_lem serde number name (Value.number n) =
    ground (arith, serde.as_f64_lem (Value.number n), serde.number_as_f64-ne-none n)
validate_type_lem serde number name v = ground (arith, serde.as_f64_lem v)
validate_type_lem serde object name v = ground (arith, serde.as_object_lem v)
validate_type_lem serde array name v = ground (arith, serde.as_array_lem v)
validate_type_lem serde null name v = ground (arith, serde.as_null_lem v)

-- `validate` accepts a value exactly when the value has the parameter's type, whatever the type;
-- a refusal names the type and the parameter.
pub validate_iff :
    (serde : Serde) (p : Parameter) (v : Value)
    → ((validate serde p v ≡ ok tt) ↔ HasType p.parameter_type v)
      × ((validate serde p v ≡ err (expected p.parameter_type p.name))
          ↔ (¬ HasType p.parameter_type v))
unfolding validate
validate_iff serde p v = ground (arith, validate_type_lem serde p.parameter_type p.name v)

-- A value that the definition `d` accepts: of its type, and not null if it is required.
abbrev pub Accepts : Parameter → Value → Type 0
Accepts d v = HasType d.parameter_type v × (d.required ≡ true → v ≢ Value.null)

-- What an error says of a definition and its value.
abbrev pub Explains : Parameter → Value → ParameterError → Type 0
Explains d v e =
    (e ≡ is_required d.name × d.required ≡ true × v ≡ Value.null)
    ⊎ (e ≡ expected d.parameter_type d.name × (¬ HasType d.parameter_type v))

missing_lem :
    (serde : Serde) (d : Parameter) (v : Value)
    → (missing serde d v ≡ [] × (d.required ≡ true → v ≢ Value.null))
      ⊎ (missing serde d v ≡ is_required d.name ∷ [] × d.required ≡ true × v ≡ Value.null)
unfolding missing
missing_lem serde d v = ground (arith, serde.is_null_lem v)

ill_typed_lem :
    (serde : Serde) (d : Parameter) (v : Value)
    → (ill_typed serde d v ≡ [] × HasType d.parameter_type v)
      ⊎ (ill_typed serde d v ≡ expected d.parameter_type d.name ∷ []
          × (¬ HasType d.parameter_type v))
unfolding ill_typed validate
ill_typed_lem serde d v = ground (arith, validate_type_lem serde d.parameter_type d.name v)

pub problems-nil_iff :
    (serde : Serde) (d : Parameter) (v : Value) → (problems serde d v ≡ []) ↔ Accepts d v
unfolding problems
problems-nil_iff serde d v = ground (arith, missing_lem serde d v, ill_typed_lem serde d v)

pub problems-Explains :
    (serde : Serde) (d : Parameter) (v : Value) → All (Explains d v) (problems serde d v)
unfolding problems
problems-Explains serde d v = ground (arith, missing_lem serde d v, ill_typed_lem serde d v)

-- A definition that is not accepted has a problem that says so.
pub problems_complete :
    (serde : Serde) (d : Parameter) (v : Value)
    → Accepts d v ⊎ Any (Explains d v) (problems serde d v)
unfolding problems
problems_complete serde d v = ground (arith, missing_lem serde d v, ill_typed_lem serde d v)
