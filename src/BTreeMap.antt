-- ===== src/BTreeMap.antt =====
-- `std::collections::BTreeMap<String, V>`: a list of entries in the order of their keys, which is
-- the order that the sources iterate in. Keys compare as Rust compares `String`s.
pub mod Laws
pub mod Order
use rudr.Prelude.{
  String, ◌≡◌, Bool, true, false, Option, none, some, List, [], ◌∷◌, map, ◌==◌, if◌then◌else◌,
  before,
}

abbrev pub BTreeMap {ℓ} : Type ℓ → Type ℓ
BTreeMap V = List (String × V)

module _ {ℓ} {V : Type ℓ} where
  unfoldable pub get : String → BTreeMap V → Option V
  get k [] = none
  get k ((j, v) ∷ m) = if j == k then some v else get k m

  -- A key that is there keeps its place and gets the new value.
  unfoldable pub insert : String → V → BTreeMap V → BTreeMap V
  insert k v [] = (k, v) ∷ []
  insert k v ((j, w) ∷ m) =
      let rest = insert k v m in
      if j == k then (k, v) ∷ m else if before k j then (k, v) ∷ (j, w) ∷ m else (j, w) ∷ rest

  unfoldable pub remove : String → BTreeMap V → BTreeMap V
  remove k [] = []
  remove k ((j, v) ∷ m) = let rest = remove k m in if j == k then rest else (j, v) ∷ rest

  -- `collect` of an iterator of pairs, and the loops that insert each pair of another map.
  unfoldable pub extend : List (String × V) → BTreeMap V → BTreeMap V
  extend [] m = m
  extend ((k, v) ∷ rest) m = extend rest (insert k v m)

  abbrev pub is_empty : BTreeMap V → Bool
  is_empty [] = true
  is_empty (_ ∷ _) = false

  abbrev pub keys : BTreeMap V → List String
  keys = map (λ e. e.0)

  abbrev pub values : BTreeMap V → List V
  values = map (λ e. e.1)
