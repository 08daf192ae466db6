-- ===== src/BTreeMap/Laws.antt =====
-- The laws of lookups in a map, in `if` form.
use rudr.Prelude.{
  String, ◌≡◌, refl, none, some, [], ◌∷◌, ◌==◌, if◌then◌else◌, eq_iff, eq_refl, arith,
}
use rudr.BTreeMap.{BTreeMap, get, insert, remove}

module _ {ℓ} {V : Type ℓ} where
  pub get-nil : (k : String) → get {V = V} k [] ≡ none
  unfolding get
  get-nil k = refl

  pub get-insert :
      (k j : String) (v : V) (m : BTreeMap V)
      → get j (insert k v m) ≡ (if k == j then some v else get j m)
  unfolding get insert
  get-insert k j v [] = refl
  get-insert k j v ((i, w) ∷ m) =
      ground (arith, eq_iff k j, eq_iff i k, eq_iff i j, get-insert k j v m)

  pub get-remove :
      (k j : String) (m : BTreeMap V) → get j (remove k m) ≡ (if k == j then none else get j m)
  unfolding get remove
  get-remove k j [] = ground arith
  get-remove k j ((i, w) ∷ m) = ground (arith, eq_iff k j, eq_iff i k, eq_iff i j, get-remove k j m)

  pub get-insert_self : (k : String) (v : V) (m : BTreeMap V) → get k (insert k v m) ≡ some v
  get-insert_self k v m = simp (get-insert, eq_refl)

pub ruleset map_laws = (get-nil, get-insert, get-remove)
