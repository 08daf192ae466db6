-- ===== src/StdText.antt =====
-- What the sources use of the standard library on texts: `Path::parent` and `Path::file_name` of a
-- Unix path, and `to_string` of a `usize`.
-- A path is read from its end: trailing separators and `.` components are skipped, except for a
-- leading `.` and the root.
pub mod Paths
mod Tests
use Prim.Native.Nat.{◌/◌}
use Prim.Native.Char.{Char, code}
use mathlib.Core.List.{reverse}
use rudr.Prelude.{
  ℕ, zero, suc, ◌+◌, ◌%◌, String, Bool, true, false, ◌&&◌, Option, none, some, List, [], ◌∷◌, ◌<>◌,
  nat_eq, ltb, if◌then◌else◌, ◌==◌,
}
use rudr.Prelude.Int.{ℤ, pos, negsuc}

abbrev pub chars : String → List Char
chars String.[] = []
chars (String.◌∷◌ c s) = c ∷ chars s

abbrev pub text : List Char → String
text [] = ""
text (c ∷ cs) = String.◌∷◌ c (text cs)

pub is_slash : Char → Bool
is_slash c = nat_eq (code c) b'/'

pub begins_with_slash : List Char → Bool
unfolding is_slash
begins_with_slash [] = false
begins_with_slash (c ∷ cs) = is_slash c

-- The path, reversed, without what follows its last component.
pub trim_end : List Char → List Char
unfolding is_slash begins_with_slash
trim_end [] = []
trim_end (c ∷ r) =
    let shorter = trim_end r in
    if is_slash c
    then shorter
    else if nat_eq (code c) b'.' && begins_with_slash r
    then shorter
    else c ∷ r

-- The last component, reversed, and what stands before it.
last_component : List Char → List Char × List Char
unfolding is_slash
last_component [] = ([], [])
last_component (c ∷ r) =
    let (seg, before) = last_component r in if is_slash c then ([], c ∷ r) else (c ∷ seg, before)

file_name_of : List Char × List Char → Option String
file_name_of (seg, before) =
    let name = text (reverse seg) in
    if name == ".."
    then none
    else if name == "." && nat_eq 0 (elim before [ [] ↦ 0 | _ ∷ _ ↦ 1 ])
    then none
    else some name

unfoldable pub file_name : String → Option String
unfolding trim_end last_component file_name_of
file_name path = elim (trim_end (reverse (chars path))) [
  | [] ↦ none
  | c ∷ r ↦ file_name_of (last_component (c ∷ r))
]

parent_of : List Char → String
unfolding trim_end
parent_of [] = ""
parent_of (c ∷ r) = elim (trim_end (c ∷ r)) [ [] ↦ "/" | d ∷ rest ↦ text (reverse (d ∷ rest)) ]

unfoldable pub parent : String → Option String
unfolding trim_end last_component parent_of
parent path = elim (trim_end (reverse (chars path))) [
  | [] ↦ none
  | c ∷ r ↦ some (parent_of (last_component (c ∷ r)).1)
]

digit : ℕ → String
digit n =
    if nat_eq n 0
    then "0"
    else if nat_eq n 1
    then "1"
    else if nat_eq n 2
    then "2"
    else if nat_eq n 3
    then "3"
    else if nat_eq n 4
    then "4"
    else if nat_eq n 5
    then "5"
    else if nat_eq n 6
    then "6"
    else if nat_eq n 7
    then "7"
    else if nat_eq n 8
    then "8"
    else "9"

-- One digit a round; a number has at most as many digits as its value.
show_fuel : ℕ → ℕ → String
unfolding digit
show_fuel zero n = digit n
show_fuel (suc f) n =
    let front = show_fuel f (n / 10) in if ltb n 10 then digit n else front <> digit (n % 10)

unfoldable pub show_nat : ℕ → String
unfolding show_fuel
show_nat n = show_fuel n n

-- `to_string` of a signed integer.
unfoldable pub show_int : ℤ → String
unfolding show_nat
show_int (pos n) = show_nat n
show_int (negsuc n) = "-" <> show_nat (suc n)
