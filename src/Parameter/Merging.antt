-- ===== src/Parameter/Merging.antt =====
-- `resolve_values`: parent values override, and an unresolved `fromParam` is an error.
use rudr.Prelude.{
  String, ◌≡◌, ◌≢◌, refl, ◌↔◌, ◌⊎◌, Option, none, some, List, [], ◌∷◌, arith, Result, ok, err, All,
  Any, inl, inr, ◌==◌, if◌then◌else◌, or_else, Option-cases,
}
use rudr.BTreeMap
use rudr.BTreeMap.Laws.{get-insert, get-nil}
use rudr.Json.{Value}
use rudr.Parameter.{
  ParameterValue, ParamMap, ParameterError, could_not_resolve, override_from, new_value, merge_step,
  merge_values, resolve_values,
}

-- The value of the first entry of a name.
abbrev pub parent_value : String → List ParameterValue → Option Value
parent_value f [] = none
parent_value f (q ∷ qs) = if q.name == f then q.value else parent_value f qs

-- The value of an entry: where it refers to the parent and finds a value there, that one.
abbrev pub entry_value : List ParameterValue → ParameterValue → Option Value
entry_value parent p =
    or_else (elim p.from_param [ none ↦ none | some f ↦ parent_value f parent ]) p.value

override_from-parent_value :
    (parent : List ParameterValue) (f : String) → override_from parent f ≡ parent_value f parent
override_from-parent_value [] f = refl
override_from-parent_value (q ∷ qs) f = ground (arith, override_from-parent_value qs f)

new_value-entry_value :
    (parent : List ParameterValue) (p : ParameterValue) → new_value parent p ≡ entry_value parent p
unfolding new_value
new_value-entry_value parent p = elim (Option-cases p.from_param) [
  | inl local ↦ ground (arith, local)
  | inr (f, named) ↦ ground (arith, named, override_from-parent_value parent f)
]

-- The value of the last entry of a name that has one.
abbrev pub last_value : List ParameterValue → String → List ParameterValue → Option Value
last_value parent k [] = none
last_value parent k (p ∷ ps) =
    or_else (last_value parent k ps) (if p.name == k then entry_value parent p else none)

-- A reference to the parent finds a value there, or the entry has one of its own.
abbrev pub Resolves : List ParameterValue → ParameterValue → Type 0
Resolves parent p = (p.from_param ≡ none) ⊎ (entry_value parent p ≢ none)

-- The error names a reference of one of the entries that does not resolve.
abbrev pub Blames : List ParameterValue → ParameterError → ParameterValue → Type 0
Blames parent e p =
    (from_name : String) × (p.from_param ≡ some from_name)
    × (entry_value parent p ≡ none)
    × (e ≡ could_not_resolve from_name p.name)

module _ (parent : List ParameterValue) where
  merge_values-ok :
      (k : String) (current : List ParameterValue) (m m' : ParamMap)
      → merge_values current parent m ≡ ok m'
      → All (Resolves parent) current
        × (BTreeMap.get k m' ≡ or_else (last_value parent k current) (BTreeMap.get k m))
  unfolding merge_values merge_step
  merge_values-ok k [] m m' e = ground arith
  merge_values-ok k (p ∷ ps) m m' e = elim (Option-cases (entry_value parent p)) [
    | inl absent ↦ ground (arith, absent, new_value-entry_value parent p, merge_values-ok k ps m m')
    | inr (v, present) ↦ ground (
      arith,
      present,
      new_value-entry_value parent p,
      merge_values-ok k ps (BTreeMap.insert p.name v m) m',
      get-insert p.name k v m,
    )
  ]

  merge_values-err :
      (current : List ParameterValue) (m : ParamMap) (e : ParameterError)
      → merge_values current parent m ≡ err e
      → Any (Blames parent e) current
  unfolding merge_values merge_step
  merge_values-err [] m e h = cc
  merge_values-err (p ∷ ps) m e h = elim (Option-cases (entry_value parent p)) [
    | inl absent ↦ elim (Option-cases p.from_param) [
      | inl local ↦
          inr (
            merge_values-err ps m e (ground (arith, absent, local, new_value-entry_value parent p)))
      | inr (from_name, named) ↦
          inl (
            from_name,
            named,
            absent,
            ground (arith, absent, named, new_value-entry_value parent p),
          )
    ]
    | inr (v, present) ↦ inr (
        merge_values-err ps (BTreeMap.insert p.name v m) e
          (ground (arith, present, new_value-entry_value parent p)))
  ]

  Blames-not-Resolves :
      (e : ParameterError) (ps : List ParameterValue)
      → Any (Blames parent e) ps
      → All (Resolves parent) ps
      → ⊥
  Blames-not-Resolves e [] h _ = h
  Blames-not-Resolves e (p ∷ ps) (inl (f, named, absent, _)) (r, _) = ground arith
  Blames-not-Resolves e (p ∷ ps) (inr h) (_, rs) = Blames-not-Resolves e ps h rs

-- Merging succeeds exactly when every entry resolves, and a failure blames an entry that does not.
pub resolve_values-ok_iff :
    (current parent : List ParameterValue)
    → (((m : ParamMap) × (resolve_values current parent ≡ ok m)) ↔ All (Resolves parent) current)
      × ((e : ParameterError)
          → resolve_values current parent ≡ err e
          → Any (Blames parent e) current)
unfolding resolve_values
resolve_values-ok_iff current parent = (
  (
    λ (m, e). (merge_values-ok parent "" current [] m e).0,
    λ h. succeeds (merge_values current parent []) refl h,
  ),
  merge_values-err parent current [],
)
  where
    succeeds :
        (r : Result ParameterError ParamMap)
        → merge_values current parent [] ≡ r
        → All (Resolves parent) current
        → (m : ParamMap) × (merge_values current parent [] ≡ ok m)
    succeeds (ok m) e h = (m, e)
    succeeds (err x) e h =
        absurd (Blames-not-Resolves parent x current (merge_values-err parent current [] x e) h)

-- A merged map holds at each name the value of the last entry of that name that has one: the
-- parent's, where the entry refers to the parent and finds it there, else its own.
pub get-resolve_values :
    (current parent : List ParameterValue) (m : ParamMap) (k : String)
    → resolve_values current parent ≡ ok m
    → BTreeMap.get k m ≡ last_value parent k current
unfolding resolve_values
get-resolve_values current parent m k e =
    ground (arith, merge_values-ok parent k current [] m e, get-nil {V = Value} k)
