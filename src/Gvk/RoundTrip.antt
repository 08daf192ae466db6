-- ===== src/Gvk/RoundTrip.antt =====
-- Parsing and printing a `GroupVersionKind` are inverse.
use Prim.Native.Nat.{ℕ}
use Prim.Native.Char.{Char, code}
use Prim.Native.String.{String, [], ◌∷◌}
use mathlib.Core.Path.{◌≡◌, sym, ap, ◌∙◌}
use mathlib.Core.Logic.{◌≢◌, ◌↔◌}
use mathlib.Core.Option.{Option, some}
use native.Mathlib.Omega.{arith}
use text.Mathlib.TextEquality.{codes_equal}
use text.Mathlib.TextLemmas.{nil-append, cons-append}
use rudr.Prelude.{◌<>◌, ok, inl, inr, Option-cases, Bool-cases, nat_eq}
use rudr.Gvk.{GroupVersionKind, split_first, split_kind, split_group, from_str, display}

-- No character of the string has the code `sep`.
abbrev pub Lacks : ℕ → String → Type 0
Lacks sep [] = Unit
Lacks sep (c ∷ s) = (code c ≢ sep) × Lacks sep s

-- The text of one separator.
abbrev IsText : ℕ → String → Type 0
IsText sep t = (c : Char) × (code c ≡ sep) × (t ≡ c ∷ [])

split_first-append :
    (c : Char) (a b : String) → Lacks (code c) a → split_first (code c) (a <> (c ∷ b)) ≡ some (a, b)
unfolding split_first
split_first-append c [] b h = rw nil-append (ground arith)
split_first-append c (d ∷ a) b (hd, h) = rw cons-append (ground (arith, split_first-append c a b h))

append-split_first :
    (c : Char) (s a b : String)
    → split_first (code c) s ≡ some (a, b)
    → Lacks (code c) a × (s ≡ a <> (c ∷ b))
unfolding split_first
append-split_first c [] a b h = absurd (ground arith)
append-split_first c (d ∷ s) a b h = elim (Bool-cases (nat_eq (code d) (code c))) [
  | inl here ↦
      let e : ◌≡◌ {A = Option (String × String)} (some ("", s)) (some (a, b)) = ground arith in
      let ea : "" ≡ a = cc in rw (← ea) (tt, ground (arith, codes_equal d c, nil-append (c ∷ s)))
  | inr further ↦ elim (Option-cases (split_first (code c) s)) [
    | inl absent ↦ absurd (ground arith)
    | inr ((a', b'), found) ↦
        let (lacks, same) = append-split_first c s a' b' found in
        let ea : (d ∷ a') ≡ a = ground arith in
        rw (← ea) ((ground arith, lacks), ground (arith, cons-append d a' (c ∷ b)))
  ]
]

abbrev slash : Char
slash = "/"

abbrev dot : Char
dot = "."

singleton-append : (c : Char) (x : String) → (c ∷ "") <> x ≡ c ∷ x
singleton-append c x = cons-append c "" x ∙ ap (λ s. c ∷ s) (nil-append x)

split_first-display :
    (c : Char) (a b : String)
    → Lacks (code c) a
    → split_first (code c) (a <> ((c ∷ "") <> b)) ≡ some (a, b)
split_first-display c a b h = rw (singleton-append c b) (split_first-append c a b h)

parse_lem :
    (s : String) (g : GroupVersionKind)
    → from_str s ≡ ok g
    → Lacks b'/' g.group × Lacks b'.' g.version × (display g ≡ s)
unfolding from_str split_group split_kind display
parse_lem s g h = elim (Option-cases (split_first b'/' s)) [
  | inl absent ↦ absurd (ground arith)
  | inr ((group, vk), first) ↦ elim (Option-cases (split_first b'.' vk)) [
    | inl absent ↦ absurd (ground arith)
    | inr ((version, kind), second) ↦
        let (p, whole) = append-split_first slash s group vk first in
        let (q, rest) = append-split_first dot vk version kind second in
        let same : record { group = group; version = version; kind = kind } ≡ g = ground arith in
        rw (← same) (
          p,
          q,
          sym (
              whole
              ∙ ap (λ t. group <> t) (sym (singleton-append slash vk))
              ∙ ap (λ t. group <> ("/" <> t))
                  (rest ∙ ap (λ t. version <> t) (sym (singleton-append dot kind)))),
        )
  ]
]

-- The parser accepts a string exactly when it is the printed form of the result, where the group
-- has no slash and the version no dot; then printing the result gives the string back.
pub from_str_iff :
    (s : String) (g : GroupVersionKind)
    → (from_str s ≡ ok g) ↔ (Lacks b'/' g.group × Lacks b'.' g.version × (display g ≡ s))
unfolding from_str split_group split_kind display
from_str_iff s g = (
  parse_lem s g,
  λ (p, q, e). rw (← e) (
      rw (split_first-display slash g.group (g.version <> ("." <> g.kind)) p)
        (rw (split_first-display dot g.version g.kind q, split_kind))),
)
