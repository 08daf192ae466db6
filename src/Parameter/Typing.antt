-- ===== src/Parameter/Typing.antt =====
-- The types of the values in a resolved map.
use rudr.Prelude.{
  String, ◌≡◌, ◌≢◌, ◌==◌, sym, ◌∙◌, inl, inr, true, some, List, [], ◌∷◌, ok, All, Bool-cases,
  Option-cases, arith,
}
use rudr.BTreeMap
use rudr.Json.{Value, Serde}
use rudr.Parameter.{Parameter, ParamMap, resolve_parameters}
use rudr.Parameter.Validation.{Accepts, HasType}
use rudr.Parameter.Resolution.{
  last_named, chosen, resolve_parameters-ok_iff, get-resolve_parameters,
}

of_last_named :
    (P : Parameter → Type 0) (k : String) (ds : List Parameter) (d : Parameter)
    → All P ds
    → last_named k ds ≡ some d
    → P d
of_last_named P k [] d h e = cc e
of_last_named P k (x ∷ ds) d (p, h) e = elim (Option-cases (last_named k ds)) [
  | inr (y, found) ↦ of_last_named P k ds d h (found ∙ rw found at e)
  | inl none_later ↦ elim (Bool-cases (x.name == k)) [
    | inl here ↦ let same : x ≡ d = ground (arith, rw (none_later, here) at e) in rw (← same) p
    | inr other ↦ cc (rw (none_later, other) at e)
  ]
]

-- Every value in a resolved map stands under the name of a definition, has the type that the last
-- definition of that name declares, and is not null where that definition requires a value.
pub resolve_parameters-HasType :
    (serde : Serde) (definition : List Parameter) (values m : ParamMap) (k : String) (v : Value)
    → resolve_parameters serde definition values ≡ ok m
    → BTreeMap.get k m ≡ some v
    → (d : Parameter) × (last_named k definition ≡ some d)
      × HasType d.parameter_type v
      × (d.required ≡ true → v ≢ Value.null)
resolve_parameters-HasType serde ds values m k v e held =
    let accepted = (resolve_parameters-ok_iff serde ds values).0 (m, e) in
    let looked = sym (get-resolve_parameters serde ds values m k e) ∙ held in
    elim (Option-cases (last_named k ds)) [
      | inl absent ↦ cc (rw absent at looked)
      | inr (d, named) ↦
          let same : chosen values d ≡ v = ground (arith, rw named at looked) in
          let (typed, there) =
            of_last_named (λ x. Accepts x (chosen values x)) k ds d accepted named in
          (d, named, rw (← same) typed, λ required. rw (← same) (there required))
    ]
