-- ===== src/Parameter/Resolution.antt =====
-- `resolve_parameters`: which values it accepts, what the map holds, what the errors say.
use rudr.Prelude.{
  String, ◌≡◌, ◌≢◌, refl, ◌↔◌, ◌⊎◌, sym, false, Option, none, some, List, [], ◌∷◌, ◌++◌, arith, ok,
  err, All, ◌==◌, if◌then◌else◌, concat_map, append_assoc, append-nil, map_some, or_else, inl, inr,
  Any, All-append, All-map, Any-append_left, Any-append_right,
}
use rudr.BTreeMap
use rudr.BTreeMap.{BTreeMap}
use rudr.BTreeMap.Laws.{get-insert, get-nil}
use rudr.Json.{Value, Serde}
use rudr.Parameter.{
  ParameterType, boolean, string, number, object, array, null, Parameter, ParamMap, ParameterError,
  candidate, problems, resolve_loop, finish, resolve_parameters,
}
use rudr.Parameter.Validation.{
  Accepts, Explains, HasType, problems-nil_iff, problems-Explains, problems_complete,
}

-- The last definition of a name.
abbrev pub last_named : String → List Parameter → Option Parameter
last_named k [] = none
last_named k (d ∷ ds) = or_else (last_named k ds) (if d.name == k then some d else none)

-- The value for a definition: the one supplied under its name, else its default, else null.
unfoldable pub chosen : ParamMap → Parameter → Value
chosen values d = elim (BTreeMap.get d.name values) [
  | some v ↦ v
  | none ↦ elim d.default [ some v ↦ v | none ↦ Value.null ]
]

candidate-chosen : (values : ParamMap) (d : Parameter) → candidate values d ≡ chosen values d
unfolding candidate chosen
candidate-chosen values d = ground arith

module _ (serde : Serde) (values : ParamMap) where
  all_problems : List Parameter → List ParameterError
  all_problems = concat_map (λ (d : Parameter). problems serde d (chosen values d))

  errors_lem :
      (ds : List Parameter) (es : List ParameterError) (m : ParamMap)
      → (resolve_loop serde ds values es m).0 ≡ es ++ all_problems ds
  unfolding resolve_loop all_problems
  errors_lem [] es m = sym (append-nil es)
  errors_lem (d ∷ ds) es m = ground (
    arith,
    candidate-chosen values d,
    errors_lem ds (es ++ problems serde d (candidate values d))
        (BTreeMap.insert d.name (candidate values d) m),
    append_assoc es (problems serde d (chosen values d)) (all_problems ds),
  )

  resolved_lem :
      (k : String) (ds : List Parameter) (es : List ParameterError) (m : ParamMap)
      → BTreeMap.get k (resolve_loop serde ds values es m).1
        ≡ or_else (map_some (chosen values) (last_named k ds)) (BTreeMap.get k m)
  unfolding resolve_loop
  resolved_lem k [] es m = refl
  resolved_lem k (d ∷ ds) es m = ground (
    arith,
    candidate-chosen values d,
    resolved_lem k ds (es ++ problems serde d (candidate values d))
        (BTreeMap.insert d.name (candidate values d) m),
    get-insert d.name k (candidate values d) m,
  )

  all_problems-nil_iff :
      (ds : List Parameter) → (all_problems ds ≡ []) ↔ All (λ d. Accepts d (chosen values d)) ds
  unfolding all_problems
  all_problems-nil_iff [] = ground arith
  all_problems-nil_iff (d ∷ ds) =
      ground (arith, problems-nil_iff serde d (chosen values d), all_problems-nil_iff ds)

  abbrev pub ExplainsSome : List Parameter → ParameterError → Type 0
  ExplainsSome ds e = Any (λ d. Explains d (chosen values d) e) ds

  abbrev pub IsReported : List ParameterError → Parameter → Type 0
  IsReported es d = Accepts d (chosen values d) ⊎ Any (Explains d (chosen values d)) es

  all_problems-Explain : (ds : List Parameter) → All (ExplainsSome ds) (all_problems ds)
  unfolding all_problems
  all_problems-Explain [] = tt
  all_problems-Explain (d ∷ ds) =
      All-append (ExplainsSome (d ∷ ds)) (problems serde d (chosen values d)) (all_problems ds)
        (All-map (Explains d (chosen values d)) (ExplainsSome (d ∷ ds)) (λ e h. inl h) _
          (problems-Explains serde d (chosen values d)))
        (All-map (ExplainsSome ds) (ExplainsSome (d ∷ ds)) (λ e h. inr h) _
          (all_problems-Explain ds))

  report_more :
      (ps qs : List ParameterError) (d : Parameter) → IsReported qs d → IsReported (ps ++ qs) d
  report_more ps qs d (inl a) = inl a
  report_more ps qs d (inr h) = inr (Any-append_right (Explains d (chosen values d)) ps qs h)

  report_first :
      (ps qs : List ParameterError) (d : Parameter) → IsReported ps d → IsReported (ps ++ qs) d
  report_first ps qs d (inl a) = inl a
  report_first ps qs d (inr h) = inr (Any-append_left (Explains d (chosen values d)) ps qs h)

  all_problems_complete : (ds : List Parameter) → All (IsReported (all_problems ds)) ds
  unfolding all_problems
  all_problems_complete [] = tt
  all_problems_complete (d ∷ ds) =
      let here = problems serde d (chosen values d) in
      (
        report_first here (all_problems ds) d (problems_complete serde d (chosen values d)),
        All-map (IsReported (all_problems ds)) (IsReported (here ++ all_problems ds))
            (report_more here (all_problems ds)) ds (all_problems_complete ds),
      )

  outcome_lem :
      (ds : List Parameter)
      → ((all_problems ds ≡ [])
          × (resolve_parameters serde ds values ≡ ok (resolve_loop serde ds values [] []).1))
        ⊎ ((all_problems ds ≢ []) × (resolve_parameters serde ds values ≡ err (all_problems ds)))
  unfolding resolve_parameters finish
  outcome_lem ds = ground (arith, errors_lem ds [] [])

-- Resolution succeeds exactly when every definition accepts its value: the supplied one, else its
-- default, else null.
pub resolve_parameters-ok_iff :
    (serde : Serde) (definition : List Parameter) (values : ParamMap)
    → ((m : ParamMap) × (resolve_parameters serde definition values ≡ ok m))
      ↔ All (λ d. Accepts d (chosen values d)) definition
resolve_parameters-ok_iff serde ds values = (
  λ (m, e). ground (arith, outcome_lem serde values ds, all_problems-nil_iff serde values ds),
  λ h. (
    (resolve_loop serde ds values [] []).1,
    ground (arith, outcome_lem serde values ds, all_problems-nil_iff serde values ds),
  ),
)

-- A resolved map holds at each name the value of the last definition of that name, and nothing at
-- any other name: values that no definition names are dropped.
pub get-resolve_parameters :
    (serde : Serde) (definition : List Parameter) (values m : ParamMap) (k : String)
    → resolve_parameters serde definition values ≡ ok m
    → BTreeMap.get k m ≡ map_some (chosen values) (last_named k definition)
get-resolve_parameters serde ds values m k e = ground (
  arith,
  outcome_lem serde values ds,
  resolved_lem serde values k ds [] [],
  get-nil {V = Value} k,
)

-- A refusal is complete and sound: each error it lists is a missing required value or a wrong type
-- of some definition, and each definition that does not accept its value has such an error.
pub resolve_parameters-err :
    (serde : Serde) (definition : List Parameter) (values : ParamMap) (es : List ParameterError)
    → resolve_parameters serde definition values ≡ err es
    → (es ≢ [])
      × All (ExplainsSome serde values definition) es
      × All (IsReported serde values es) definition
resolve_parameters-err serde ds values es e =
    let same : es ≡ all_problems serde values ds = ground (arith, outcome_lem serde values ds) in
    (
      ground (arith, outcome_lem serde values ds),
      rw same (all_problems-Explain serde values ds),
      rw same (all_problems_complete serde values ds),
    )

-- A definition with neither a default nor a supplied value fails resolution unless its type is
-- null, whether or not the definition says that a value is required.
pub optional_without_default :
    (serde : Serde) (d : Parameter) (values m : ParamMap)
    → d.required ≡ false
    → d.default ≡ none
    → d.parameter_type ≢ null
    → BTreeMap.get d.name values ≡ none
    → resolve_parameters serde (d ∷ []) values ≢ ok m
unfolding chosen
optional_without_default serde d values m opt nodef typed absent e =
    let (accepted, _) = (resolve_parameters-ok_iff serde (d ∷ []) values).0 (m, e) in
    null_only d.parameter_type typed (rw (chosen_null) at accepted.0)
  where
    chosen_null : chosen values d ≡ Value.null
    chosen_null = ground (arith, absent, nodef)

    null_only : (t : ParameterType) → t ≢ null → HasType t Value.null → ⊥
    null_only boolean h k = k
    null_only string h k = k
    null_only number h k = k
    null_only object h k = k
    null_only array h k = k
    null_only null h k = h refl
