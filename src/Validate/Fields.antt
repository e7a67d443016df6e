-- ===== src/Validate/Fields.antt =====
-- src/validate/fields.rs: the checks of one field of a response.
pub mod Outcome
use colander.Prelude.{
  Bool, true, false, not, ◌&&◌, ◌||◌, Str, List, [], ◌∷◌, ◌++◌, Option, none, some, codes, str_eq,
  is_empty, if◌then◌else◌, Result, ok, ◌>>=◌,
}
use colander.Json.{
  Json, Items, JsonMap, null, boolean, number, string, array, object, nil, cons, empty, entry,
}
use colander.IndexMap.{IndexMap, lookup, put, contains, contains_key, values}
use colander.Index.Answers.{AnswerFieldDefinition}
use colander.Rules.Value.{Val, Vals, RowList, no_vals, val, no_rows, row}
use colander.Rules.EvaluationResult.{FormRuleEvaluationResult}
use colander.Floats.{Floats}
use colander.Validate.Model.{FormResponseFieldError, FormResponseValidationMode, complete, draft}
use colander.Validate.Limits.{ellipsize}
use colander.Validate.Conversion.{
  Errors, id_of, code_of, type_of, path_of, is_required, is_read_only, field_error,
  try_convert_value,
}
use colander.Validate.Constraints.{validate_constraints}

-- `mode == Complete`
unfoldable pub is_complete : FormResponseValidationMode → Bool
is_complete complete = true
is_complete draft = false

unfoldable pub is_empty_element : Option Json → Bool
is_empty_element none = true
is_empty_element (some null) = true
is_empty_element (some (string s)) = is_empty s
is_empty_element (some (array nil)) = true
is_empty_element (some (array (cons x xs))) = false
is_empty_element (some (object empty)) = true
is_empty_element (some (object (entry k v m))) = false
is_empty_element (some (number s)) = false
is_empty_element (some (boolean b)) = false

unfoldable pub is_empty_value : {F : Type 0} → Val F → Bool
is_empty_value Val.null = true
is_empty_value (Val.text s) = is_empty s
is_empty_value (Val.list no_vals) = true
is_empty_value (Val.list (val v vs)) = false
is_empty_value (Val.rows no_rows) = true
is_empty_value (Val.rows (row r rs)) = false
is_empty_value (Val.boolean b) = false
is_empty_value (Val.int z) = false
is_empty_value (Val.real x) = false
is_empty_value (Val.raw s) = false

-- the codes that an answer may have
allowed_codes : List AnswerFieldDefinition → List Str
allowed_codes [] = []
allowed_codes (field ∷ fields) =
    let rest = allowed_codes fields in
    if str_eq (type_of field) (codes "group") || str_eq (type_of field) (codes "component-ref")
    then rest
    else code_of field ∷ rest

unknown_field : Str → FormResponseFieldError
unknown_field key = record {
  code = codes "UNKNOWN_FIELD";
  path = codes "/answers/" ++ ellipsize key;
  message = codes "Unknown answer field '" ++ (ellipsize key ++ codes "'.");
}

unknown_keys : List Str → JsonMap → Errors
unfolding unknown_field
unknown_keys allowed empty = []
unknown_keys allowed (entry key value rest) =
    let errors = unknown_keys allowed rest in
    if contains allowed key then errors else unknown_field key ∷ errors

unfoldable pub validate_known_top_level_keys :
    JsonMap → IndexMap AnswerFieldDefinition → Errors → Errors
unfolding allowed_codes unknown_keys
validate_known_top_level_keys answers fields_by_code errors =
    errors ++ unknown_keys (allowed_codes (values fields_by_code)) answers

unfoldable pub or_default : Option Bool → Bool → Bool
or_default none b = b
or_default (some b) c = b

unless_empty : Option Json → FormResponseFieldError → Errors → Errors
unless_empty value error errors = if is_empty_element value then errors else errors ++ error ∷ []

-- The three tests of `validate_scalar_field`: whether one stops the field, and the errors.
unfoldable pub try_reject_inactive_value :
    AnswerFieldDefinition → Option Json → Bool → Bool → Errors → Bool × Errors
unfolding unless_empty
try_reject_inactive_value field value visible enabled errors =
    if visible && enabled then (false, errors) else (
      true,
      unless_empty value
          (field_error
            (if visible then codes "DISABLED_FIELD_VALUE" else codes "HIDDEN_FIELD_VALUE") field
            (codes "' cannot accept values while hidden or disabled."))
          errors,
    )

unfoldable pub try_reject_required_empty :
    AnswerFieldDefinition → Option Json → FormResponseValidationMode → Bool → Errors → Bool × Errors
try_reject_required_empty field value mode required errors =
    if not (is_empty_element value) then (false, errors) else (
      true,
      (if is_complete mode && required
          then errors
            ++ field_error (codes "REQUIRED_FIELD_MISSING") field (codes "' is required.") ∷ []
          else errors),
    )

module _ (is_match : Str → Str → Result Bool) {F : Type 0} (floats : Floats F)
    (evaluation : FormRuleEvaluationResult F) where
  -- visible, enabled, required
  unfoldable pub resolve_field_flags : AnswerFieldDefinition → Bool × Bool × Bool
  unfolding or_default
  resolve_field_flags field = (
    or_default (lookup evaluation.visibility (id_of field)) true,
    or_default (lookup evaluation.enabled (id_of field)) true,
    or_default (lookup evaluation.required (id_of field)) (is_required field),
  )

  unfoldable pub try_reject_read_only_value :
      AnswerFieldDefinition → Option Json → Errors → Bool × Errors
  unfolding unless_empty
  try_reject_read_only_value field value errors =
      if not (is_read_only field) || contains_key evaluation.calculated_values (code_of field)
      then (false, errors)
      else (
        true,
        unless_empty value
            (field_error (codes "READONLY_FIELD_MODIFIED") field (codes "' is read-only.")) errors,
      )

  abbrev pub State : Type 0
  State = Errors × IndexMap (Val F)

  accepted : AnswerFieldDefinition → Val F → IndexMap (Val F) → Bool × Errors → State
  accepted field v normalized (true, errors) = (errors, put normalized (code_of field) v)
  accepted field v normalized (false, errors) = (errors, normalized)

  constrained : AnswerFieldDefinition → IndexMap (Val F) → Option (Val F) × Errors → Result State
  unfolding accepted
  constrained field normalized (none, errors) = ok (errors, normalized)
  constrained field normalized (some v, errors) = do
    judged ← validate_constraints is_match floats field v errors
    ok (accepted field v normalized judged)

  -- the tests in order: the next one is made where the last one lets the field pass
  or_stop : (Errors → Result State) → IndexMap (Val F) → Bool × Errors → Result State
  or_stop next normalized (true, errors) = ok (errors, normalized)
  or_stop next normalized (false, errors) = next errors

  unfoldable pub validate_scalar_field :
      AnswerFieldDefinition → Option Json → FormResponseValidationMode → State → Result State
  unfolding constrained or_stop
  validate_scalar_field field value mode (errors, normalized) =
      let flags = resolve_field_flags field in
      if contains_key evaluation.calculated_values (code_of field)
      then ok (errors, normalized)
      else or_stop
          (λ e1.
            or_stop
              (λ e2.
                or_stop
                  (λ e3. do
                    result ← try_convert_value floats field value e3
                    constrained field normalized result)
                  normalized (try_reject_required_empty field value mode flags.2 e2))
              normalized (try_reject_read_only_value field value e1))
          normalized (try_reject_inactive_value field value flags.0 flags.1 errors)
