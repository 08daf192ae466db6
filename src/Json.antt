-- ===== src/Json.antt =====
-- `serde_json`: the public enum `Value`, and the crate's functions that the sources call, which
-- are a parameter with their documented behaviour as laws.
-- A number is, as documented, an unsigned or a signed 64-bit integer or a finite double; a double
-- is held as its bit pattern. A map of values is in the order of its keys.
pub mod Example
use rudr.Prelude.{
  ℕ, String, ◌≡◌, ◌≢◌, Bool, true, false, Option, none, some, List, [], ◌∷◌, and_then,
}
use rudr.Prelude.Int.{ℤ}

pub data Number : Type 0 where
  integer : ℤ → Number
  float : ℕ → Number

mutual
  pub data Value : Type 0 where
    null : Value
    bool : Bool → Value
    number : Number → Value
    string : String → Value
    array : Items → Value
    object : Fields → Value

  pub data Items : Type 0 where
    nil : Items
    cons : Value → Items → Items

  pub data Fields : Type 0 where
    end : Fields
    field : String → Value → Fields → Fields

abbrev pub items : Items → List Value
items nil = []
items (cons v vs) = v ∷ items vs

abbrev pub entries : Fields → List (String × Value)
entries end = []
entries (field k v fs) = (k, v) ∷ entries fs

-- The variant of a value, as the documentation of the accessors speaks of it.
abbrev pub bool_of : Value → Option Bool
bool_of (bool b) = some b
bool_of _ = none

abbrev pub string_of : Value → Option String
string_of (string s) = some s
string_of _ = none

abbrev pub number_of : Value → Option Number
number_of (number n) = some n
number_of _ = none

abbrev pub array_of : Value → Option (List Value)
array_of (array vs) = some (items vs)
array_of _ = none

abbrev pub object_of : Value → Option (List (String × Value))
object_of (object fs) = some (entries fs)
object_of _ = none

abbrev pub null_of : Value → Option (Unit {0})
null_of null = some tt
null_of _ = none

abbrev pub is_null_of : Value → Bool
is_null_of null = true
is_null_of _ = false

-- The functions of the crate. `as_i64` of a number is `none` where it does not fit; every number
-- has an `as_f64`, which the sources rely on. `eq` is the crate's `==`.
pub record Serde : Type 0 where
  pub as_bool : Value → Option Bool
  pub as_str : Value → Option String
  pub as_object : Value → Option (List (String × Value))
  pub as_array : Value → Option (List Value)
  pub as_null : Value → Option (Unit {0})
  pub is_null : Value → Bool
  pub number_as_i64 : Number → Option ℤ
  pub number_as_f64 : Number → Option ℕ
  pub as_i64 : Value → Option ℤ
  pub as_f64 : Value → Option ℕ
  pub to_string : Value → String
  pub eq : Value → Value → Bool
  pub as_bool_lem : (v : Value) → as_bool v ≡ bool_of v
  pub as_str_lem : (v : Value) → as_str v ≡ string_of v
  pub as_object_lem : (v : Value) → as_object v ≡ object_of v
  pub as_array_lem : (v : Value) → as_array v ≡ array_of v
  pub as_null_lem : (v : Value) → as_null v ≡ null_of v
  pub is_null_lem : (v : Value) → is_null v ≡ is_null_of v
  pub as_i64_lem : (v : Value) → as_i64 v ≡ and_then (number_of v) number_as_i64
  pub as_f64_lem : (v : Value) → as_f64 v ≡ and_then (number_of v) number_as_f64
  pub number_as_f64-ne-none : (n : Number) → number_as_f64 n ≢ none
  pub eq_refl : (v : Value) → eq v v ≡ true
