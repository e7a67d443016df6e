-- ===== src/Validate/Calculated.antt =====
-- src/validate/calculated.rs: calculated values are held to their fields, and answers are flattened
-- for the rules.
pub mod Integers
pub mod Apply
pub mod Flatten
use colander.Prelude.{
  ℕ, suc, ◌+◌, Bool, true, false, not, ◌&&◌, ◌||◌, Str, List, [], ◌∷◌, ◌++◌, Option, none, some,
  codes, str_eq, if◌then◌else◌, Result, ok, err, ◌>>=◌,
}
use colander.Prelude.Int.{ℤ, pos}
use colander.Json.{Json, Items, JsonMap, object, array, nil, cons, empty, entry, items_length}
use colander.Json.Access.{as_array, get_i64}
use colander.Json.Map.{get}
use colander.IndexMap.{IndexMap, lookup, put, contains, contains_key}
use colander.Index.Answers.{AnswerFieldDefinition}
use colander.Rules.Value.{
  Val, Vals, null, boolean, text, int, real, list, rows, raw, no_vals, val, no_rows, row,
  from_json_element, is_empty_val, zero_real,
}
use colander.Rules.Value.Equal.{values_equal}
use colander.Floats.{Floats, less, equal}
use colander.Validate.Model.{FormResponseFieldError, FormResponseValidationMode, complete, draft}
use colander.Validate.Conversion.{Errors, id_of, code_of, type_of, path_of}
use colander.Validate.Constraints.{validate_constraints}

-- the verdict of `validate_constraints(..).unwrap_or(true)`
verdict : Result (Bool × Errors) → Result Bool
verdict (ok (passed, errors)) = ok passed
verdict (err e) = ok true
verdict Result.panic = Result.panic
verdict Result.out_of_fuel = Result.out_of_fuel

module _ (is_match : Str → Str → Result Bool) {F : Type 0} (floats : Floats F) where
  unfoldable pub is_representable : AnswerFieldDefinition → F → Bool
  is_representable field x =
      let limit = floats.literal (codes "9007199254740992.0") in
      if not (str_eq (type_of field) (codes "integer"))
      then true
      else less floats (floats.abs x) limit || equal floats (floats.abs x) limit

  held : AnswerFieldDefinition → Val F → Result Bool
  unfolding verdict
  held field value = verdict (validate_constraints is_match floats field value [])

  held_number : AnswerFieldDefinition → F → Result Bool
  unfolding held
  held_number field x = if not (floats.is_finite x) then ok false else held field (real x)

  -- a value of another shape
  other_shape : Val F → Result Bool
  other_shape (list vs) = ok false
  other_shape (rows rs) = ok false
  other_shape (raw s) = ok false
  other_shape _ = ok true

  satisfies_number : AnswerFieldDefinition → Val F → Result Bool
  unfolding held_number other_shape
  satisfies_number field (real x) = held_number field x
  satisfies_number field (int z) = held_number field (floats.from_int z)
  satisfies_number field other = other_shape other

  satisfies_integer : AnswerFieldDefinition → Val F → Result Bool
  unfolding held_number other_shape
  satisfies_integer field (real x) =
      if equal floats (floats.fract x) (zero_real floats) then held_number field x else ok false
  satisfies_integer field (int z) = ok true
  satisfies_integer field other = other_shape other

  satisfies_text : AnswerFieldDefinition → Val F → Result Bool
  unfolding held other_shape
  satisfies_text field (text s) = held field (text s)
  satisfies_text field other = other_shape other

  satisfies_boolean : AnswerFieldDefinition → Val F → Result Bool
  unfolding held other_shape
  satisfies_boolean field (boolean b) = held field (boolean b)
  satisfies_boolean field other = other_shape other

  unfoldable pub calculated_value_satisfies_field : AnswerFieldDefinition → Val F → Result Bool
  unfolding satisfies_number satisfies_integer satisfies_text satisfies_boolean other_shape
  calculated_value_satisfies_field field value =
      let is = str_eq (type_of field) in
      if is (codes "number")
      then satisfies_number field value
      else if is (codes "integer")
      then satisfies_integer field value
      else if is (codes "text")
      then satisfies_text field value
      else if is (codes "boolean")
      then satisfies_boolean field value
      else other_shape value
