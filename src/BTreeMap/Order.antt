-- ===== src/BTreeMap/Order.antt =====
-- The keys of a map are in strictly increasing order, and the operations keep them so.
use rudr.Prelude.{
  String, ◌≡◌, refl, true, none, [], ◌∷◌, arith, All, All-map, eq_iff, before, before_trans,
  before_irrefl, before_total,
}
use rudr.BTreeMap.{BTreeMap, get, insert, remove}

module _ {ℓ} {V : Type ℓ} where
  abbrev pub IsBelow : String → BTreeMap V → Type 0
  IsBelow k = All (λ (e : String × V). before k e.0 ≡ true)

  abbrev pub IsSorted : BTreeMap V → Type 0
  IsSorted [] = Unit
  IsSorted ((k, v) ∷ m) = IsBelow k m × IsSorted m

  IsBelow-trans : (k j : String) (m : BTreeMap V) → before k j ≡ true → IsBelow j m → IsBelow k m
  IsBelow-trans k j m h =
      All-map (λ (e : String × V). before j e.0 ≡ true) (λ (e : String × V). before k e.0 ≡ true)
        (λ e b. before_trans k j e.0 h b) m

  IsBelow-insert :
      (i k : String) (v : V) (m : BTreeMap V)
      → before i k ≡ true
      → IsBelow i m
      → IsBelow i (insert k v m)
  unfolding insert
  IsBelow-insert i k v [] h b = (h, tt)
  IsBelow-insert i k v ((j, w) ∷ m) h (b, bs) =
      ground (arith, IsBelow-insert i k v m h bs, eq_iff j k)

  pub insert-IsSorted : (k : String) (v : V) (m : BTreeMap V) → IsSorted m → IsSorted (insert k v m)
  unfolding insert
  insert-IsSorted k v [] s = (tt, tt)
  insert-IsSorted k v ((j, w) ∷ m) (b, s) = ground (
    arith,
    insert-IsSorted k v m s,
    eq_iff j k,
    before_total j k,
    IsBelow-trans k j m,
    IsBelow-insert j k v m,
  )

  IsBelow-remove : (i k : String) (m : BTreeMap V) → IsBelow i m → IsBelow i (remove k m)
  unfolding remove
  IsBelow-remove i k [] b = tt
  IsBelow-remove i k ((j, w) ∷ m) (b, bs) = ground (arith, IsBelow-remove i k m bs)

  pub remove-IsSorted : (k : String) (m : BTreeMap V) → IsSorted m → IsSorted (remove k m)
  unfolding remove
  remove-IsSorted k [] s = tt
  remove-IsSorted k ((j, w) ∷ m) (b, s) =
      ground (arith, remove-IsSorted k m s, IsBelow-remove j k m b)

  get_of_IsBelow : (k : String) (m : BTreeMap V) → IsBelow k m → get k m ≡ none
  unfolding get
  get_of_IsBelow k [] b = refl
  get_of_IsBelow k ((j, w) ∷ m) (b, bs) =
      ground (arith, get_of_IsBelow k m bs, before_irrefl k j, eq_iff j k, eq_iff k j)
