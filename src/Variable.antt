-- ===== src/Variable.antt =====
-- src/schematic/variable.rs: variables of an application configuration, and the substitution of
-- `[fromVariable(NAME)]`.
-- The pattern of the source is matched by hand: its literal prefix, the longest run of
-- `[[:word:]]` characters, which is not empty, and its literal suffix up to the end.
-- `sort_unstable` is a parameter: which of several equal variables comes first is not specified.
pub mod Reference
pub mod Expansion
pub mod Dedup
mod Tests
use Prim.Native.Char.{Char, code}
use rudr.Prelude.{
  ℕ, String, ◌≡◌, Bool, true, false, ◌&&◌, ◌||◌, Option, none, some, List, [], ◌∷◌, map, ◌==◌,
  nat_eq, leb, Result, ok, err, ◌>>=◌, and_then, unwrap_or, if◌then◌else◌,
}
use rudr.BTreeMap
use rudr.BTreeMap.{BTreeMap}
use rudr.Json
use rudr.Json.{Value}
use rudr.Parameter.{ParameterValue}

-- `[[:word:]]`: the ASCII letters and digits, and `_`.
unfoldable pub is_word : Char → Bool
is_word c =
    (leb b'0' (code c) && leb (code c) b'9')
    || (leb b'A' (code c) && leb (code c) b'Z')
    || (leb b'a' (code c) && leb (code c) b'z')
    || nat_eq (code c) b'_'

strip_prefix : String → String → Option String
strip_prefix String.[] s = some s
strip_prefix (String.◌∷◌ c p) String.[] = none
strip_prefix (String.◌∷◌ c p) (String.◌∷◌ d s) =
    if nat_eq (code c) (code d) then strip_prefix p s else none

take_word : String → String × String
take_word String.[] = ("", "")
take_word (String.◌∷◌ c s) =
    let (w, rest) = take_word s in
    if is_word c then (String.◌∷◌ c w, rest) else ("", String.◌∷◌ c s)

close_reference : String × String → Option String
close_reference (w, rest) = if w == "" then none else if rest == ")]" then some w else none

unfoldable pub parse_from_variable : String → Option String
unfolding is_word strip_prefix take_word close_reference
parse_from_variable input =
    and_then (strip_prefix "[fromVariable(" input) (λ rest. close_reference (take_word rest))

pub record Variable : Type 0 where
  pub name : String
  pub value : Value

unfoldable pub parameter_value_from : Variable → ParameterValue
parameter_value_from var = record { name = var.name; value = some var.value; from_param = none }

-- The name and the variable that the message prints.
pub data VariableError : Type 0 where
  undefined_variable : String → String → VariableError

-- The variable that the value of a parameter refers to: the three nested `if let`s.
unfoldable pub reference_of : Option Value → Option String
reference_of value = and_then (and_then value Json.string_of) parse_from_variable

-- The values are changed in place: on an error those before the failing one stay expanded, and the
-- failing one has lost its value.
unfoldable pub expand_variables :
    List ParameterValue → BTreeMap Value → List ParameterValue × Result VariableError (Unit {0})
expand_variables [] vars = ([], ok tt)
expand_variables (param ∷ values) vars =
    let (values', r) = expand_variables values vars in
    elim (reference_of param.value) [
      | none ↦ (param ∷ values', r)
      | some var ↦ elim (BTreeMap.get var vars) [
        | none ↦ (record param { value = none } ∷ values, err (undefined_variable param.name var))
        | some v ↦ (record param { value = some v } ∷ values', r)
      ]
    ]

abbrev pub variable_map : List Variable → BTreeMap Value
variable_map vars = BTreeMap.extend (map (λ (var : Variable). (var.name, var.value)) vars) []

-- The clone is expanded and dropped: only the error of its expansion is kept.
unfoldable pub resolve_variables :
    List ParameterValue → List Variable → Result VariableError (List ParameterValue)
unfolding expand_variables reference_of
resolve_variables values vars = (expand_variables values (variable_map vars)).1 >>= λ _. ok values

-- `Vec::dedup` under `==` of variables, which compares names: of a run of equals the first stays.
dedup_after : Variable → List Variable → List Variable
dedup_after x [] = []
dedup_after x (y ∷ ys) =
    let same = dedup_after x ys in
    let other = y ∷ dedup_after y ys in if y.name == x.name then same else other

dedup_runs : List Variable → List Variable
dedup_runs [] = []
dedup_runs (x ∷ xs) = x ∷ dedup_after x xs

module _ (sort_unstable : List Variable → List Variable) where
  unfoldable pub dedup : List Variable → List Variable
  unfolding dedup_runs dedup_after
  dedup values = dedup_runs (sort_unstable values)

  unfoldable pub get_variable_values : Option (List Variable) → List ParameterValue
  unfolding dedup parameter_value_from
  get_variable_values vars = map parameter_value_from (dedup (unwrap_or vars []))
