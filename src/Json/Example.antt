-- ===== src/Json/Example.antt =====
-- A concrete `serde_json` for the examples. It prints every value that is not a string as the empty
-- text, reads a double's bits for an integer that is not negative, and takes all values as equal.
use rudr.Prelude.{ℕ, ◌≢◌, refl, true, Option, none, some, and_then}
use rudr.Prelude.Int.{ℤ, pos_part}
use rudr.Json.{
  Number, integer, float, Serde, bool_of, string_of, number_of, array_of, object_of, null_of,
  is_null_of,
}

abbrev pub example_i64 : Number → Option ℤ
example_i64 (integer z) = some z
example_i64 (float b) = none

abbrev pub example_f64 : Number → Option ℕ
example_f64 (integer z) = some (pos_part z)
example_f64 (float b) = some b

pub example_f64-ne-none : (n : Number) → example_f64 n ≢ none
example_f64-ne-none (integer z) e = cc e
example_f64-ne-none (float b) e = cc e

abbrev pub example_serde : Serde
example_serde = record {
  as_bool = bool_of;
  as_str = string_of;
  as_object = object_of;
  as_array = array_of;
  as_null = null_of;
  is_null = is_null_of;
  number_as_i64 = example_i64;
  number_as_f64 = example_f64;
  as_i64 = λ v. and_then (number_of v) example_i64;
  as_f64 = λ v. and_then (number_of v) example_f64;
  to_string = λ _. "";
  eq = λ _ _. true;
  as_bool_lem = λ _. refl;
  as_str_lem = λ _. refl;
  as_object_lem = λ _. refl;
  as_array_lem = λ _. refl;
  as_null_lem = λ _. refl;
  is_null_lem = λ _. refl;
  as_i64_lem = λ _. refl;
  as_f64_lem = λ _. refl;
  number_as_f64-ne-none = example_f64-ne-none;
  eq_refl = λ _. refl;
}
