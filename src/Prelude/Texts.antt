-- ===== src/Prelude/Texts.antt =====
-- The order in which Rust compares `String`s.
use Prim.Native.Nat.{ℕ, Ordering, compare as compare_ℕ}
use Prim.Native.Char.{code}
use Prim.Native.String.{String, [], ◌∷◌, then, compare}
use Prim.Native.String.compare as clauses
use mathlib.Core.Path.{◌≡◌}
use mathlib.Core.Bool.{Bool, true}
use mathlib.Core.Logic.{◌⊎◌}
use native.Mathlib.Omega.{arith}
use text.Mathlib.Text.{is_lt, ◌==◌}

lt_trans_step :
    (a b c : ℕ) (o p q : Ordering)
    → (o ≡ Ordering.lt → p ≡ Ordering.lt → q ≡ Ordering.lt)
    → then (compare_ℕ a b) o ≡ Ordering.lt
    → then (compare_ℕ b c) p ≡ Ordering.lt
    → then (compare_ℕ a c) q ≡ Ordering.lt
lt_trans_step a b c o p q ih h k = ground arith

lt_trans :
    (s t u : String)
    → compare s t ≡ Ordering.lt
    → compare t u ≡ Ordering.lt
    → compare s u ≡ Ordering.lt
lt_trans (c ∷ s) (d ∷ t) (e ∷ u) h k = rw clauses.cons-cons (
    lt_trans_step (code c) (code d) (code e) _ _ _ (lt_trans s t u) (rw clauses.cons-cons at h)
      (rw clauses.cons-cons at k))
lt_trans [] t (e ∷ u) h k = clauses.nil-cons e u
lt_trans [] [] [] h k = h
lt_trans [] (d ∷ t) [] h k = cc (clauses.cons-nil d t)
lt_trans (c ∷ s) [] u h k = cc (clauses.cons-nil c s)
lt_trans (c ∷ s) (d ∷ t) [] h k = cc (clauses.cons-nil d t)

flip_step :
    (a b : ℕ) (o p : Ordering)
    → (o ≡ Ordering.gt → p ≡ Ordering.lt)
    → then (compare_ℕ a b) o ≡ Ordering.gt
    → then (compare_ℕ b a) p ≡ Ordering.lt
flip_step a b o p ih h = ground arith

lt_of_gt : (s t : String) → compare s t ≡ Ordering.gt → compare t s ≡ Ordering.lt
lt_of_gt (c ∷ s) (d ∷ t) h =
    rw clauses.cons-cons
      (flip_step (code c) (code d) _ _ (lt_of_gt s t) (rw clauses.cons-cons at h))
lt_of_gt [] [] h = cc (clauses.nil-nil)
lt_of_gt [] (d ∷ t) h = cc (clauses.nil-cons d t)
lt_of_gt (c ∷ s) [] h = clauses.nil-cons c s

-- `k < j` on strings.
abbrev pub before : String → String → Bool
before k j = is_lt (compare k j)

pub before_trans : (s t u : String) → before s t ≡ true → before t u ≡ true → before s u ≡ true
before_trans s t u h k = ground (arith, lt_trans s t u)

pub before_irrefl : (s t : String) → before s t ≡ true → (s == t) ≡ true → ⊥
before_irrefl s t h k = ground arith

pub before_total : (s t : String) → ((s == t) ≡ true) ⊎ (before s t ≡ true) ⊎ (before t s ≡ true)
before_total s t = ground (arith, lt_of_gt s t)
