-- ===== src/Variable/Tests.antt =====
-- Examples of the expansion of variables.
use rudr.Prelude.{
  String, ◌≡◌, ◌≢◌, refl, ◌↔◌, true, false, none, some, List, [], ◌∷◌, ◌<>◌, ok, err, All, Any,
  Member, map, inl, inr, before, before_total, before_trans, before_irrefl, eq_iff, eq_refl,
  All-map, Bool-cases, if◌then◌else◌, arith,
}
use rudr.Json.{Value}
use rudr.Parameter.{ParameterValue}
use rudr.Variable.{
  Variable, VariableError, parse_from_variable, reference_of, expand_variables, variable_map,
  resolve_variables, dedup, is_word, strip_prefix, take_word, close_reference,
}
use rudr.Variable.Reference.{IsWord, parse_from_variable_iff}
use rudr.Variable.Expansion.{
  IsDefined, expanded, Refers, expand_variables_lem, resolve_variables_lem,
  resolve_variables_keeps_reference,
}
use rudr.Variable.Dedup.{IsOrdered, IsSort, NamesIncrease, dedup_lem}

abbrev image : ParameterValue
image = record {
  name = "image";
  value = some (Value.string "[fromVariable(TAG)]");
  from_param = none;
}

abbrev tag : Variable
tag = record { name = "TAG"; value = Value.string "v2" }

parse_from_variable_iff_example : (parse_from_variable "[fromVariable(TAG)]" ≡ some "TAG") ↔ (
    IsWord "TAG"
    × (◌≢◌ {A = String} "TAG" "")
    × (◌≡◌ {A = String} "[fromVariable(TAG)]" ("[fromVariable(" <> ("TAG" <> ")]"))))
parse_from_variable_iff_example = parse_from_variable_iff "[fromVariable(TAG)]" "TAG"

expand_variables_lem_example :
    (((expand_variables (image ∷ []) (("TAG", Value.string "v2") ∷ [])).1 ≡ ok tt)
      ↔ All (IsDefined (("TAG", Value.string "v2") ∷ [])) (image ∷ []))
    × ((expand_variables (image ∷ []) (("TAG", Value.string "v2") ∷ [])).1 ≡ ok tt
        → (expand_variables (image ∷ []) (("TAG", Value.string "v2") ∷ [])).0
          ≡ map (expanded (("TAG", Value.string "v2") ∷ [])) (image ∷ []))
    × ((e : VariableError)
        → (expand_variables (image ∷ []) (("TAG", Value.string "v2") ∷ [])).1 ≡ err e
        → Any (Refers (("TAG", Value.string "v2") ∷ []) e) (image ∷ []))
expand_variables_lem_example = expand_variables_lem (image ∷ []) (("TAG", Value.string "v2") ∷ [])

resolve_variables_lem_example :
    ((out : List ParameterValue)
      → resolve_variables (image ∷ []) (tag ∷ []) ≡ ok out
      → out ≡ image ∷ [])
    × ((resolve_variables (image ∷ []) (tag ∷ []) ≡ ok (image ∷ []))
        ↔ All (IsDefined (variable_map (tag ∷ []))) (image ∷ []))
resolve_variables_lem_example = resolve_variables_lem (image ∷ []) (tag ∷ [])

image_reference : reference_of image.value ≡ some "TAG"
unfolding reference_of parse_from_variable is_word strip_prefix take_word close_reference
image_reference = refl

image_unexpanded : resolve_variables (image ∷ []) (tag ∷ []) ≡ ok (image ∷ [])
image_unexpanded = resolve_variables_keeps_reference image tag image_reference

-- An insertion sort, as one `sort_unstable`.
insert_sorted : Variable → List Variable → List Variable
insert_sorted v [] = v ∷ []
insert_sorted v (u ∷ us) =
    let later = u ∷ insert_sorted v us in if before u.name v.name then later else v ∷ u ∷ us

insertion_sort : List Variable → List Variable
insertion_sort [] = []
insertion_sort (v ∷ vs) = insert_sorted v (insertion_sort vs)

insert_sorted-Member :
    (w v : Variable) (us : List Variable)
    → (Member w (insert_sorted v us) → Member w (v ∷ us))
      × (Member w (v ∷ us) → Member w (insert_sorted v us))
unfolding insert_sorted
insert_sorted-Member w v [] = (λ h. h, λ h. h)
insert_sorted-Member w v (u ∷ us) = ground (arith, insert_sorted-Member w v us)

insertion_sort-Member :
    (w : Variable) (vs : List Variable)
    → (Member w (insertion_sort vs) → Member w vs) × (Member w vs → Member w (insertion_sort vs))
unfolding insertion_sort
insertion_sort-Member w [] = (λ h. h, λ h. h)
insertion_sort-Member w (v ∷ vs) =
    ground (arith, insert_sorted-Member w v (insertion_sort vs), insertion_sort-Member w vs)

AtLeast : String → List Variable → Type 0
AtLeast s = All (λ (y : Variable). before y.name s ≡ false)

asymmetric : (s t : String) → before s t ≡ true → before t s ≡ false
asymmetric s t h = elim (Bool-cases (before t s)) [
  | inl back ↦ absurd (before_irrefl s s (before_trans s t s h back) (eq_refl s))
  | inr not_less ↦ not_less
]

not_before_trans : (s t u : String) → before t s ≡ false → before u t ≡ false → before u s ≡ false
not_before_trans s t u h k = elim (Bool-cases (before u s)) [
  | inl less ↦ ground (arith, before_total s t, eq_iff s t, before_trans u s t)
  | inr not_less ↦ not_less
]

insert_sorted-AtLeast :
    (s : String) (v : Variable) (us : List Variable)
    → before v.name s ≡ false
    → AtLeast s us
    → AtLeast s (insert_sorted v us)
unfolding insert_sorted AtLeast
insert_sorted-AtLeast s v [] h k = (h, tt)
insert_sorted-AtLeast s v (u ∷ us) h (p, ps) = ground (arith, insert_sorted-AtLeast s v us h ps)

insert_sorted-IsOrdered :
    (v : Variable) (us : List Variable) → IsOrdered us → IsOrdered (insert_sorted v us)
unfolding insert_sorted AtLeast
insert_sorted-IsOrdered v [] o = (tt, tt)
insert_sorted-IsOrdered v (u ∷ us) (p, o) = elim (Bool-cases (before u.name v.name)) [
  | inl less ↦ rw less (
    insert_sorted-AtLeast u.name v us (asymmetric u.name v.name less) p,
    insert_sorted-IsOrdered v us o,
  )
  | inr not_less ↦ rw not_less (
    (
      not_less,
      All-map (λ (y : Variable). before y.name u.name ≡ false)
          (λ (y : Variable). before y.name v.name ≡ false)
          (λ y h. not_before_trans v.name u.name y.name not_less h) us p,
    ),
    (p, o),
  )
]

insertion_sort-IsOrdered : (vs : List Variable) → IsOrdered (insertion_sort vs)
unfolding insertion_sort
insertion_sort-IsOrdered [] = tt
insertion_sort-IsOrdered (v ∷ vs) =
    insert_sorted-IsOrdered v (insertion_sort vs) (insertion_sort-IsOrdered vs)

insertion_sort-IsSort : IsSort insertion_sort
insertion_sort-IsSort = record {
  ordered = insertion_sort-IsOrdered;
  onto = λ v vs. (insertion_sort-Member v vs).1;
  only = λ v vs. (insertion_sort-Member v vs).0;
}

abbrev region : Variable
region = record { name = "REGION"; value = Value.string "eu" }

dedup_lem_example :
    NamesIncrease (dedup insertion_sort (tag ∷ region ∷ tag ∷ []))
    × ((v : Variable)
        → Member v (dedup insertion_sort (tag ∷ region ∷ tag ∷ []))
        → Member v (tag ∷ region ∷ tag ∷ []))
    × ((v : Variable)
        → Member v (tag ∷ region ∷ tag ∷ [])
        → Any (λ (u : Variable). u.name ≡ v.name) (dedup insertion_sort (tag ∷ region ∷ tag ∷ [])))
dedup_lem_example = dedup_lem insertion_sort insertion_sort-IsSort (tag ∷ region ∷ tag ∷ [])
