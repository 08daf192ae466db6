-- ===== src/Variable/Dedup.antt =====
-- `dedup` and `get_variable_values`, for every sort that `sort_unstable` may be.
use rudr.Prelude.{
  ◌≡◌, ap, inl, inr, true, false, List, [], ◌∷◌, ◌==◌, arith, All, All-map, Any, Member, eq_iff,
  before, before_trans, before_total, Bool-cases,
}
use rudr.Variable.{Variable, dedup_after, dedup_runs, dedup}

abbrev pub IsOrdered : List Variable → Type 0
IsOrdered [] = Unit
IsOrdered (x ∷ xs) = All (λ (y : Variable). before y.name x.name ≡ false) xs × IsOrdered xs

-- What `sort_unstable` documents: an ordered list of the same elements.
pub record IsSort (sort : List Variable → List Variable) : Type 0 where
  pub ordered : (vs : List Variable) → IsOrdered (sort vs)
  pub onto : (v : Variable) (vs : List Variable) → Member v vs → Member v (sort vs)
  pub only : (v : Variable) (vs : List Variable) → Member v (sort vs) → Member v vs

abbrev pub NamesIncrease : List Variable → Type 0
NamesIncrease [] = Unit
NamesIncrease (x ∷ xs) = All (λ (y : Variable). before x.name y.name ≡ true) xs × NamesIncrease xs

dedup_after-NamesIncrease :
    (x : Variable) (ys : List Variable)
    → All (λ (y : Variable). before y.name x.name ≡ false) ys
    → IsOrdered ys
    → NamesIncrease (x ∷ dedup_after x ys)
unfolding dedup_after
dedup_after-NamesIncrease x [] h o = (tt, tt)
dedup_after-NamesIncrease x (y ∷ ys) (h, hs) (o, os) = elim (Bool-cases (y.name == x.name)) [
  | inl same ↦ rw (same) (dedup_after-NamesIncrease x ys hs os)
  | inr other ↦
      let later = dedup_after-NamesIncrease y ys o os in
      let first : before x.name y.name ≡ true =
        ground (arith, before_total x.name y.name, eq_iff x.name y.name, eq_iff y.name x.name) in
      rw (other) (
        (
          first,
          All-map (λ (z : Variable). before y.name z.name ≡ true)
              (λ (z : Variable). before x.name z.name ≡ true)
              (λ z k. before_trans x.name y.name z.name first k) _ later.0,
        ),
        later,
      )
]

dedup_after-Member :
    (v x : Variable) (ys : List Variable) → Member v (dedup_after x ys) → Member v ys
unfolding dedup_after
dedup_after-Member v x [] h = h
dedup_after-Member v x (y ∷ ys) h =
    ground (arith, dedup_after-Member v x ys, dedup_after-Member v y ys)

-- Of each name one variable stays.
dedup_after-keeps :
    (v x : Variable) (ys : List Variable)
    → Member v ys
    → Any (λ (u : Variable). u.name ≡ v.name) (x ∷ dedup_after x ys)
unfolding dedup_after
dedup_after-keeps v x [] h = absurd h
dedup_after-keeps v x (y ∷ ys) h = elim (Bool-cases (y.name == x.name)) [
  | inl same ↦ rw same (elim h [
    | inl here ↦ inl (ground (arith, eq_iff y.name x.name, ap (λ (u : Variable). u.name) here))
    | inr later ↦ dedup_after-keeps v x ys later
  ])
  | inr other ↦ rw other (
      inr (elim h [
        | inl here ↦ inl (ap (λ (u : Variable). u.name) here)
        | inr later ↦ dedup_after-keeps v y ys later
      ]))
]

module _ (sort : List Variable → List Variable) (sorts : IsSort sort) where
  -- Whatever the sort, the names of the deduplicated variables strictly increase, so no name is
  -- there twice; each of the variables is one of those given, and each name given is kept.
  pub dedup_lem :
      (vs : List Variable)
      → NamesIncrease (dedup sort vs)
        × ((v : Variable) → Member v (dedup sort vs) → Member v vs)
        × ((v : Variable) → Member v vs → Any (λ (u : Variable). u.name ≡ v.name) (dedup sort vs))
  unfolding dedup
  dedup_lem vs = (
    increase (sort vs) (sorts.ordered vs),
    λ v h. sorts.only v vs (only v (sort vs) h),
    λ v h. keeps v (sort vs) (sorts.onto v vs h),
  )
    where
      increase : (l : List Variable) → IsOrdered l → NamesIncrease (dedup_runs l)
      increase [] o = tt
      increase (x ∷ xs) (h, o) = dedup_after-NamesIncrease x xs h o

      only : (v : Variable) (l : List Variable) → Member v (dedup_runs l) → Member v l
      only v [] h = h
      only v (x ∷ xs) (inl e) = inl e
      only v (x ∷ xs) (inr h) = inr (dedup_after-Member v x xs h)

      keeps :
          (v : Variable) (l : List Variable)
          → Member v l
          → Any (λ (u : Variable). u.name ≡ v.name) (dedup_runs l)
      keeps v [] h = absurd h
      keeps v (x ∷ xs) (inl e) = inl (ap (λ (u : Variable). u.name) e)
      keeps v (x ∷ xs) (inr h) = dedup_after-keeps v x xs h
