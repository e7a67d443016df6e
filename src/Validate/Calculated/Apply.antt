-- ===== src/Validate/Calculated/Apply.antt =====
-- `apply_calculated_fields` of src/validate/calculated.rs.
use colander.Prelude.{
  Bool, true, false, not, ◌&&◌, ◌||◌, Str, List, [], ◌∷◌, ◌++◌, Option, none, some, codes,
  if◌then◌else◌, Result, ok, err, ◌>>=◌,
}
use colander.Json.{Json, JsonMap}
use colander.Json.Map.{get}
use colander.IndexMap.{IndexMap, lookup, put}
use colander.Index.Answers.{AnswerFieldDefinition}
use colander.Rules.Value.{Val, real, from_json_element, is_empty_val}
use colander.Rules.Value.Equal.{values_equal}
use colander.Rules.EvaluationResult.{FormRuleEvaluationResult}
use colander.Floats.{Floats}
use colander.Validate.Model.{FormResponseFieldError, FormResponseValidationMode}
use colander.Validate.Conversion.{Errors, id_of, code_of, path_of}
use colander.Validate.Fields.{is_complete, is_empty_value}
use colander.Validate.Page.{on_page}
use colander.Validate.Calculated.{is_representable, calculated_value_satisfies_field}

unfoldable pub calculated_error : Str → AnswerFieldDefinition → Str → Str → FormResponseFieldError
calculated_error code field before after = record {
  code = code;
  path = path_of field;
  message = before ++ (code_of field ++ after);
}

unfoldable pub push_if : Bool → FormResponseFieldError → Errors → Errors
push_if true error errors = errors ++ error ∷ []
push_if false error errors = errors

unfoldable pub or_false : Option Bool → Bool
or_false none = false
or_false (some b) = b

module _ (is_match : Str → Str → Result Bool) {F : Type 0} (floats : Floats F) where
  -- `errors` and `normalized`, which the loop changes
  abbrev pub State : Type 0
  State = Errors × IndexMap (Val F)

  unfoldable pub differs : Option (Val F) → Val F → Bool
  differs none value = false
  differs (some submitted) value = not (values_equal floats submitted value)

  -- a floating point number that is no value of the field
  unfoldable pub is_invalid_real : AnswerFieldDefinition → Val F → Bool
  is_invalid_real field (real x) =
      not (floats.is_finite x) || not (is_representable is_match floats field x)
  is_invalid_real field _ = false

  publish : AnswerFieldDefinition → Str → Val F → Bool → State → State
  unfolding calculated_error
  publish field code value true (errors, normalized) = (errors, put normalized code value)
  publish field code value false (errors, normalized) = (
    errors
        ++ calculated_error (codes "CALCULATED_VALUE_INVALID") field
            (codes "Calculated value for field '")
            (codes "' does not satisfy the field's type and constraints.")
          ∷ [],
    normalized,
  )

  -- the checks of a value that may be published
  held_value : AnswerFieldDefinition → Str → Val F → Bool → Bool → State → Result State
  unfolding publish calculated_error push_if
  held_value field code value all required (errors, normalized) =
      let missing =
        push_if (all && (required && is_empty_value value))
          (calculated_error (codes "REQUIRED_FIELD_MISSING") field (codes "Calculated field '")
            (codes "' is required."))
          errors in
      if all && not (is_empty_val floats value)
      then (do
        satisfied ← calculated_value_satisfies_field is_match floats field value
        ok (publish field code value satisfied (missing, normalized)))
      else ok (publish field code value true (missing, normalized))

  compared :
      AnswerFieldDefinition → Str → Val F → Option (Val F) → Bool → Bool → State → Result State
  unfolding differs is_invalid_real held_value calculated_error push_if
  compared field code value submitted all required (errors, normalized) =
      let mismatch =
        push_if (differs submitted value && all)
          (calculated_error (codes "CALCULATED_VALUE_MISMATCH") field (codes "Field '")
            (codes "' must match the server-calculated value."))
          errors in
      if is_invalid_real field value
      then ok (
        push_if all
            (calculated_error (codes "CALCULATED_VALUE_INVALID") field (codes "Calculated field '")
              (codes "' could not be determined from the current answers."))
            mismatch,
        normalized,
      )
      else held_value field code value all required (mismatch, normalized)

  with_submitted :
      AnswerFieldDefinition → Str → Val F → Result (Val F) → Bool → Bool → State → Result State
  unfolding compared calculated_error
  with_submitted field code value (ok submitted) all required state =
      compared field code value (some submitted) all required state
  with_submitted field code value (err e) all required (errors, normalized) = ok (
    errors
        ++ calculated_error (codes "INVALID_TYPE") field (codes "Field '")
            (codes "' has the wrong JSON type.")
          ∷ [],
    normalized,
  )
  with_submitted field code value Result.panic all required state = Result.panic
  with_submitted field code value Result.out_of_fuel all required state = Result.out_of_fuel

  submitted_value :
      AnswerFieldDefinition → Str → Val F → Option Json → Bool → Bool → State → Result State
  unfolding compared with_submitted
  submitted_value field code value none all required state =
      compared field code value none all required state
  submitted_value field code value (some Json.null) all required state =
      compared field code value none all required state
  submitted_value field code value (some j) all required state =
      with_submitted field code value (from_json_element floats j) all required state

  module _ (answers : JsonMap) (fields_by_code : IndexMap AnswerFieldDefinition)
      (evaluation : FormRuleEvaluationResult F) (mode : FormResponseValidationMode)
      (page_fields : Option (List Str)) where
    apply_to : Option AnswerFieldDefinition → Str → Val F → State → Result State
    unfolding submitted_value or_false
    apply_to none code value state = ok state
    apply_to (some field) code value state =
        if not (on_page (id_of field) page_fields)
        then ok state
        else submitted_value field code value (get answers code) (is_complete mode)
            (or_false (lookup evaluation.required (id_of field))) state

    apply_all : IndexMap (Val F) → State → Result State
    unfolding apply_to
    apply_all [] state = ok state
    apply_all ((code, value) ∷ rest) state = do
      next ← apply_to (lookup fields_by_code code) code value state
      apply_all rest next

    unfoldable pub apply_calculated_fields : State → Result State
    unfolding apply_all
    apply_calculated_fields state = apply_all evaluation.calculated_values state
