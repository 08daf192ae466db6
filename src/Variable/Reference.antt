-- ===== src/Variable/Reference.antt =====
-- `parse_from_variable` against the form of a reference.
use Prim.Native.String.{String, [], ◌∷◌}
use native.Mathlib.Omega.{arith}
use mathlib.Core.Path.{◌≡◌, refl, ap, ◌∙◌}
use mathlib.Core.Logic.{◌↔◌, ◌≢◌}
use mathlib.Core.Bool.{true}
use mathlib.Core.Option.{some}
use text.Mathlib.TextEquality.{eq_iff, codes_equal}
use text.Mathlib.TextPositions.{eq_refl}
use text.Mathlib.TextLemmas.{nil-append, cons-append}
use rudr.Prelude.{◌<>◌, inl, inr, Option-cases, Bool-cases, and_then}
use rudr.Variable.{is_word, strip_prefix, take_word, close_reference, parse_from_variable}

-- Word characters only.
abbrev pub IsWord : String → Type 0
IsWord [] = Unit
IsWord (c ∷ s) = (is_word c ≡ true) × IsWord s

strip_prefix-append : (p s : String) → strip_prefix p (p <> s) ≡ some s
unfolding strip_prefix
strip_prefix-append [] s = rw nil-append refl
strip_prefix-append (c ∷ p) s = rw cons-append (ground (arith, strip_prefix-append p s))

append-strip_prefix : (p s r : String) → strip_prefix p s ≡ some r → s ≡ p <> r
unfolding strip_prefix
append-strip_prefix [] s r h = rw nil-append (ground arith)
append-strip_prefix (c ∷ p) [] r h = cc
append-strip_prefix (c ∷ p) (d ∷ s) r h =
    rw cons-append (ground (arith, codes_equal c d, append-strip_prefix p s r))

append-take_word : (s : String) → (take_word s).0 <> (take_word s).1 ≡ s
unfolding take_word
append-take_word [] = nil-append ""
append-take_word (c ∷ s) =
    ground
      (arith, append-take_word s, cons-append c (take_word s).0 (take_word s).1, nil-append (c ∷ s))

take_word-IsWord : (s : String) → IsWord (take_word s).0
unfolding take_word
take_word-IsWord [] = tt
take_word-IsWord (c ∷ s) = elim (Bool-cases (is_word c)) [
  | inl e ↦ rw e (e, take_word-IsWord s)
  | inr e ↦ rw e tt
]

take_word-append : (w : String) → IsWord w → take_word (w <> ")]") ≡ (w, ")]")
unfolding take_word
take_word-append [] h = unfold is_word in refl
take_word-append (c ∷ w) (hc, h) = rw cons-append (ground (arith, take_word-append w h))

close_reference_lem :
    (t : String × String) (w : String)
    → close_reference t ≡ some w
    → (t.0 ≡ w) × (t.1 ≡ ")]") × (w ≢ "")
unfolding close_reference
close_reference_lem (v, rest) w h = ground (arith, eq_iff v "", eq_iff rest ")]")

close_reference-closed : (w : String) → w ≢ "" → close_reference (w, ")]") ≡ some w
unfolding close_reference
close_reference-closed w h = ground (arith, eq_iff w "", eq_refl ")]")

reference_form :
    (s rest w : String)
    → strip_prefix "[fromVariable(" s ≡ some rest
    → close_reference (take_word rest) ≡ some w
    → IsWord w × (w ≢ "") × (s ≡ "[fromVariable(" <> (w <> ")]"))
reference_form s rest w found closed =
    let (word, suffix, nonempty) = close_reference_lem (take_word rest) w closed in
    let split : rest ≡ w <> ")]" = cc (append-take_word rest) in
    (
      rw word at (take_word-IsWord rest),
      nonempty,
      append-strip_prefix "[fromVariable(" s rest found ∙ ap (λ t. "[fromVariable(" <> t) split,
    )

-- The parser reads exactly the strings `[fromVariable(w)]` with `w` a word that is not empty, and
-- returns `w`.
pub parse_from_variable_iff :
    (s w : String)
    → (parse_from_variable s ≡ some w)
      ↔ (IsWord w × (w ≢ "") × (s ≡ "[fromVariable(" <> (w <> ")]")))
unfolding parse_from_variable
parse_from_variable_iff s w = (
  λ h. elim (Option-cases (strip_prefix "[fromVariable(" s)) [
    | inl absent ↦ absurd (cc (rw (absent, and_then) at h))
    | inr (rest, found) ↦ reference_form s rest w found (rw (found, and_then) at h)
  ],
  λ (word, nonempty, form). rw form (
      rw (strip_prefix-append "[fromVariable(" (w <> ")]"), and_then)
        (rw (take_word-append w word) (close_reference-closed w nonempty))),
)
