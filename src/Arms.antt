-- ===== src/Arms.antt =====
-- A match of a text on constant arms, as the sources have where they pick an implementation by name.
use rudr.Prelude.{
  String, ◌≡◌, ◌==◌, refl, sym, List, [], ◌∷◌, Result, ok, Bool-cases, arith, eq_iff, Member, inl,
  inr, ◌⊎◌, if◌then◌else◌,
}

module _ {A E : Type 0} (P : A → Type 0) (t : String) (last : Result E A) where
  -- What arms for the names `ns`, and then `last`, yield for the text.
  unfoldable pub Picks : List String → Result E A → Type 0
  Picks ns r = ((a : A) × (r ≡ ok a) × P a × Member t ns) ⊎ ((r ≡ last) × (¬ Member t ns))

  pub last-Picks : Picks [] last
  unfolding Picks
  last-Picks = inr (refl, λ h. h)

  pub arm-Picks :
      (n : String) (a : A) (ns : List String) (rest : Result E A)
      → (n ≡ t → P a)
      → Picks ns rest
      → Picks (n ∷ ns) (if t == n then ok a else rest)
  unfolding Picks
  arm-Picks n a ns rest p later = elim (Bool-cases (t == n)) [
    | inl at_n ↦
        let here : n ≡ t = sym ((eq_iff t n).0 at_n) in inl (a, rw at_n refl, p here, inl here)
    | inr not_n ↦ elim later [
      | inl (b, e, q, found) ↦ inl (b, rw not_n e, q, inr found)
      | inr (e, absent) ↦ inr (
        rw not_n e,
        λ h. elim h [
          | inl here ↦ ground (arith, eq_iff t n, not_n, sym here)
          | inr there ↦ absent there
        ],
      )
    ]
  ]
