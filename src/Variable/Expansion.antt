-- ===== src/Variable/Expansion.antt =====
-- `expand_variables` and `resolve_variables`.
use rudr.Prelude.{
  String, ◌≡◌, refl, ap, ◌↔◌, ◌⊎◌, inl, inr, none, some, List, [], ◌∷◌, arith, ok, err, All, Any,
  Option-cases, map, subst, eq_refl,
}
use rudr.BTreeMap
use rudr.BTreeMap.{BTreeMap}
use rudr.Json.{Value}
use rudr.Parameter.{ParameterValue}
use rudr.Variable.{
  Variable, VariableError, undefined_variable, reference_of, expand_variables, variable_map,
  resolve_variables,
}

-- A reference is defined: the parameter refers to no variable, or to one that the map holds.
abbrev pub IsDefined : BTreeMap Value → ParameterValue → Type 0
IsDefined vars p =
    (reference_of p.value ≡ none)
    ⊎ ((var : String) × (v : Value) × (reference_of p.value ≡ some var)
        × (BTreeMap.get var vars ≡ some v))

-- The parameter with its reference replaced by the value of the variable, if there is one.
unfoldable pub expanded : BTreeMap Value → ParameterValue → ParameterValue
expanded vars p = elim (reference_of p.value) [
  | none ↦ p
  | some var ↦ elim (BTreeMap.get var vars) [ none ↦ p | some v ↦ record p { value = some v } ]
]

-- The error is about a parameter that refers to a variable which the map lacks.
abbrev pub Refers : BTreeMap Value → VariableError → ParameterValue → Type 0
Refers vars e p =
    (var : String) × (reference_of p.value ≡ some var)
    × (BTreeMap.get var vars ≡ none)
    × (e ≡ undefined_variable p.name var)

abbrev Outcome : BTreeMap Value → List ParameterValue → Type 0
Outcome vars values =
    (All (IsDefined vars) values
      × (expand_variables values vars ≡ (map (expanded vars) values, ok tt)))
    ⊎ ((e : VariableError) × Any (Refers vars e) values
        × ((expand_variables values vars).1 ≡ err e))

expand_variables-Outcome :
    (vars : BTreeMap Value) (values : List ParameterValue) → Outcome vars values
unfolding expand_variables expanded
expand_variables-Outcome vars [] = inl (tt, refl)
expand_variables-Outcome vars (p ∷ ps) = elim (Option-cases (reference_of p.value)) [
  | inl plain ↦ elim (expand_variables-Outcome vars ps) [
    | inl (defined, same) ↦ inl ((inl plain, defined), ground arith)
    | inr (e, refers, failed) ↦ inr (e, inr refers, ground arith)
  ]
  | inr (var, refers) ↦ elim (Option-cases (BTreeMap.get var vars)) [
    | inl missing ↦
        inr (undefined_variable p.name var, inl (var, refers, missing, refl), ground arith)
    | inr (v, found) ↦ elim (expand_variables-Outcome vars ps) [
      | inl (defined, same) ↦ inl ((inr (var, v, refers, found), defined), ground arith)
      | inr (e, later, failed) ↦ inr (e, inr later, ground arith)
    ]
  ]
]

Refers-not-IsDefined :
    (vars : BTreeMap Value) (e : VariableError) (values : List ParameterValue)
    → Any (Refers vars e) values
    → All (IsDefined vars) values
    → ⊥
Refers-not-IsDefined vars e [] h _ = h
Refers-not-IsDefined vars e (p ∷ ps) (inl (var, refers, missing, _)) (d, _) = ground arith
Refers-not-IsDefined vars e (p ∷ ps) (inr h) (_, ds) = Refers-not-IsDefined vars e ps h ds

-- In-place expansion succeeds exactly when every reference is defined; it then replaces each
-- reference by its variable's value and leaves every other parameter alone. A failure names a
-- parameter and the undefined variable that it refers to.
pub expand_variables_lem :
    (values : List ParameterValue) (vars : BTreeMap Value)
    → (((expand_variables values vars).1 ≡ ok tt) ↔ All (IsDefined vars) values)
      × ((expand_variables values vars).1 ≡ ok tt
          → (expand_variables values vars).0 ≡ map (expanded vars) values)
      × ((e : VariableError)
          → (expand_variables values vars).1 ≡ err e
          → Any (Refers vars e) values)
expand_variables_lem values vars = elim (expand_variables-Outcome vars values) [
  | inl (defined, same) ↦
      ((λ h. defined, λ h. ap (λ t. t.1) same), λ h. ap (λ t. t.0) same, λ e h. cc)
  | inr (e, refers, failed) ↦ (
    (λ h. cc, λ h. absurd (Refers-not-IsDefined vars e values refers h)),
    λ h. cc,
    λ e' h. subst (λ x. Any (Refers vars x) values) (cc) refers,
  )
]

-- `resolve_variables` returns the values that it was given, with every reference still in them,
-- whenever it succeeds; it succeeds exactly when every reference is defined.
pub resolve_variables_lem :
    (values : List ParameterValue) (vars : List Variable)
    → ((out : List ParameterValue) → resolve_variables values vars ≡ ok out → out ≡ values)
      × ((resolve_variables values vars ≡ ok values) ↔ All (IsDefined (variable_map vars)) values)
unfolding resolve_variables
resolve_variables_lem values vars =
    let (iff, _, _) = expand_variables_lem values (variable_map vars) in
    (λ out h. ground arith, (λ h. iff.0 (ground arith), λ h. ground (arith, iff.1 h)))

-- A parameter whose value refers to a defined variable is not given the variable's value.
pub resolve_variables_keeps_reference :
    (p : ParameterValue) (var : Variable)
    → reference_of p.value ≡ some var.name
    → resolve_variables (p ∷ []) (var ∷ []) ≡ ok (p ∷ [])
unfolding resolve_variables BTreeMap.extend BTreeMap.insert BTreeMap.get
resolve_variables_keeps_reference p var h = ground (arith, eq_refl var.name)
