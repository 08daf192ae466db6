-- ===== src/StdText/Paths.antt =====
-- The paths that have no parent directory.
use Prim.Native.Char.{Char, code}
use mathlib.Core.List.{reverse, reverse-append, reverse-reverse}
use package.text.Mathlib.TextEquality.{codes_equal}
use package.text.Mathlib.TextLemmas.{nil-append, cons-append}
use rudr.Prelude.{
  ◌⊎◌, String, ◌≡◌, ◌↔◌, refl, ap, sym, ◌∙◌, subst, none, List, [], ◌∷◌, ◌++◌, ◌<>◌, nat_eq,
  Bool-cases, inl, inr, arith,
}
use rudr.StdText.{chars, text, parent, trim_end, is_slash, begins_with_slash}

-- The empty path, the root, and what leads from these no further: more separators, and components
-- that are a dot.
pub data IsBare : String → Type 0 where
  empty : IsBare ""
  then_slash : {p : String} → IsBare p → IsBare (p <> "/")
  then_dot : {p : String} → IsBare p → IsBare (p <> "/.")

abbrev slash_char : Char
slash_char = "/"

abbrev dot_char : Char
dot_char = "."

text-chars : (s : String) → text (chars s) ≡ s
text-chars String.[] = refl
text-chars (String.◌∷◌ c s) = ap (String.◌∷◌ c) (text-chars s)

chars-append : (s t : String) → chars (s <> t) ≡ chars s ++ chars t
chars-append String.[] t = rw nil-append refl
chars-append (String.◌∷◌ c s) t = rw cons-append (ap (◌∷◌ c) (chars-append s t))

text-append : (cs ds : List Char) → text (cs ++ ds) ≡ text cs <> text ds
text-append [] ds = rw nil-append refl
text-append (c ∷ cs) ds = rw cons-append (ap (String.◌∷◌ c) (text-append cs ds))

text-reverse : (cs r : List Char) → text (reverse (cs ++ r)) ≡ text (reverse r) <> text (reverse cs)
text-reverse cs r = ap text (reverse-append cs r) ∙ text-append (reverse r) (reverse cs)

trim_end-IsBare : (r : List Char) → trim_end r ≡ [] → IsBare (text (reverse r))
unfolding trim_end is_slash begins_with_slash
trim_end-IsBare [] h = empty
trim_end-IsBare (c ∷ []) h = elim (Bool-cases (nat_eq (code c) b'/')) [
  | inl slash ↦
      let same : slash_char ≡ c = ground (arith, slash, codes_equal c slash_char) in
      subst (λ x. IsBare (text (x ∷ []))) same (then_slash empty)
  | inr other ↦ elim (Bool-cases (nat_eq (code c) b'.')) [
    | inl dot ↦ absurd (cc (rw (trim_end, other, dot) at h))
    | inr neither ↦ absurd (cc (rw (trim_end, other, neither) at h))
  ]
]
trim_end-IsBare (c ∷ d ∷ r) h = elim (Bool-cases (nat_eq (code c) b'/')) [
  | inl slash ↦
      let same : slash_char ≡ c = ground (arith, slash, codes_equal c slash_char) in
      let before = trim_end-IsBare (d ∷ r) (rw slash at h) in
      subst IsBare
        (sym (
          text-reverse (c ∷ []) (d ∷ r)
          ∙ ap (λ x. text (reverse (d ∷ r)) <> text (x ∷ [])) (sym same)))
        (then_slash before)
  | inr other ↦ elim (Bool-cases (nat_eq (code c) b'.')) [
    | inr neither ↦ absurd (cc (rw (trim_end, other, neither) at h))
    | inl dot ↦ elim (Bool-cases (nat_eq (code d) b'/')) [
      | inr apart ↦ absurd (cc (rw (trim_end, other, dot, apart) at h))
      | inl slash ↦
          let before = trim_end-IsBare r (rw (trim_end, other, dot, slash) at h) in
          let one : dot_char ≡ c = ground (arith, dot, codes_equal c dot_char) in
          let two : slash_char ≡ d = ground (arith, slash, codes_equal d slash_char) in
          subst IsBare
            (sym (
              text-reverse (c ∷ d ∷ []) r
              ∙ ap (λ x. text (reverse r) <> text (x ∷ c ∷ [])) (sym two)
              ∙ ap (λ x. text (reverse r) <> text (slash_char ∷ x ∷ [])) (sym one)))
            (then_dot before)
    ]
  ]
]

IsBare-trim_end : (p : String) → IsBare p → trim_end (reverse (chars p)) ≡ []
unfolding trim_end is_slash begins_with_slash
IsBare-trim_end _ empty = refl
IsBare-trim_end _ (then_slash {p = p} h) =
    ap trim_end (ap reverse (chars-append p "/") ∙ reverse-append (chars p) (chars "/"))
    ∙ IsBare-trim_end p h
IsBare-trim_end _ (then_dot {p = p} h) =
    ap trim_end (ap reverse (chars-append p "/.") ∙ reverse-append (chars p) (chars "/."))
    ∙ IsBare-trim_end p h

list_cases : (r : List Char) → (r ≡ []) ⊎ ((c : Char) × (rest : List Char) × (r ≡ c ∷ rest))
list_cases [] = inl refl
list_cases (c ∷ r) = inr (c, r, refl)

-- A path has no parent directory exactly when it is empty, or the root followed by nothing but
-- separators and dots.
pub parent-none_iff : (p : String) → (parent p ≡ none) ↔ IsBare p
unfolding parent
parent-none_iff p = (
  λ h. elim (list_cases (trim_end (reverse (chars p)))) [
    | inl nothing ↦
        subst IsBare (ap text (reverse-reverse (chars p)) ∙ text-chars p)
          (trim_end-IsBare (reverse (chars p)) nothing)
    | inr (c, r, left) ↦ absurd (cc (rw (parent, left) at h))
  ],
  λ h. rw (parent, IsBare-trim_end p h) refl,
)
