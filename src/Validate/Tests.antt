-- ===== src/Validate/Tests.antt =====
-- Concrete responses for the theorems on src/validate.rs and its modules.
use colander.Prelude.{
  none, ℕ, ◌≡◌, ◌≢◌, ◌↔◌, ◌≤◌, ◌⊎◌, refl, Bool, true, false, Str, List, [], ◌∷◌, ◌++◌, some, ok,
  codes, length, str_eq, Result,
}
use colander.Prelude.Int.{pos}
use colander.Text.Utf8.{as_bytes}
use colander.Json.{
  Json, JsonMap, Items, number, string, array, object, nil, cons, empty, entry, items_length,
}
use colander.Json.Map.{get, insert}
use colander.Json.Escape.{write_string, write_string_body, is_unescaped}
use colander.Json.Write.{ordered}
use colander.Json.Access.{as_i64, as_number_text, get_f64, as_f64, get_i64, integer}
use colander.IndexMap.{IndexMap, contains, contains_key, lookup, put, values}
use colander.Index.Answers.{AnswerFieldDefinition, answer_field, no_more, child}
use colander.Floats.Samples.{halves}
use colander.Rules.Value.{Val, int, real, zero_real, RowList, row, no_rows, cell, no_cells, to_json}
use colander.Rules.EvaluationResult.{FormRuleEvaluationResult}
use colander.Validate.Model.{FormResponseFieldError, FormResponseValidationResult, complete}
use colander.Validate.Limits.{
  cost, cap_errors, kept_errors, ellipsize, truncated, max_errors, max_error_bytes,
}
use colander.Validate.Limits.Bounds.{Stops, total_cost, cap_errors-bounds, cap_errors-nil}
use colander.Validate.Page.{collect_field_ids, on_page}
use colander.Validate.Page.Shows.{ShownIn, collect_field_ids-Shows}
use colander.Text.Decimal.{parse_int, show_nat, show_int}
use colander.Validate.Repeater.{
  validate_repeater, gate_items, validate_repeater_item_count, validate_rows, validate_repeater_row,
  row_state, push_row, at_path, children_of,
}
use colander.Validate.Repeater.Rows.{row_count, answer_count, validate_repeater-Rows}
use colander.Validate.Response.{validate_evaluated, passes, all_errors, serialize_normalized}
use colander.Validate.Response.Serialized.{RuleErrors, Renders, validate_evaluated-Renders}
use colander.Validate.Calculated.Apply.{apply_calculated_fields, push_if}
use colander.Validate.Conversion.{
  type_of, path_of, is_read_only, try_convert_value, convert, convert_integer, schema_of, id_of,
  code_of, is_required,
}
use colander.Validate.Constraints.{
  validate_constraints, constraint_of, validate_numeric_constraints, is_no_multiple,
}
use colander.Validate.Fields.{
  validate_scalar_field, try_reject_inactive_value, try_reject_read_only_value,
  try_reject_required_empty, resolve_field_flags, is_empty_element, is_complete, or_default,
  validate_known_top_level_keys,
}
use colander.Validate.Fields.Outcome.{Outcome, validate_scalar_field-Outcome}
use colander.Validate.Calculated.{calculated_value_satisfies_field}
use colander.Validate.Calculated.Integers.{satisfies-integer}

abbrev two_errors : List FormResponseFieldError
two_errors =
    record { code = codes "INVALID_TYPE"; path = codes "/answers/a"; message = codes "a" }
    ∷ record { code = codes "INVALID_TYPE"; path = codes "/answers/b"; message = codes "b" }
    ∷ []

cap_errors-bounds_example :
    (kept : List FormResponseFieldError) × (rest : List FormResponseFieldError) × (two_errors
      ≡ kept ++ rest)
    × (((rest ≡ []) × (cap_errors two_errors ≡ kept))
        ⊎ ((rest ≢ [])
            × (cap_errors two_errors ≡ kept ++ truncated (length kept) (length two_errors) ∷ [])))
    × (length (cap_errors two_errors) ≤ max_errors)
    × ((total_cost kept ≤ max_error_bytes) ⊎ (length kept ≤ 1))
    × Stops (length kept) (total_cost kept) rest
cap_errors-bounds_example = cap_errors-bounds two_errors

cap_errors-nil_example : (cap_errors two_errors ≡ []) ↔ (two_errors ≡ [])
cap_errors-nil_example = cap_errors-nil two_errors

-- a group around a field
abbrev layout : Items
layout =
    cons
      (object (
        entry (codes "children")
          (array (cons (object (entry (codes "fieldId") (string (codes "name")) empty)) nil))
          empty))
      nil

collect_field_ids-Shows_example :
    (out : List Str) × (collect_field_ids layout ≡ ok out)
    × ((contains out (codes "name") ≡ true) ↔ ShownIn (codes "name") layout)
collect_field_ids-Shows_example = collect_field_ids-Shows layout (codes "name")

abbrev any_pattern : Str → Str → Result Bool
any_pattern pattern value = ok true

abbrev no_rules : FormRuleEvaluationResult ℕ
no_rules = record {
  visibility = [];
  enabled = [];
  required = [];
  calculated_values = [];
  validation_errors = [];
}

abbrev amount : AnswerFieldDefinition
amount =
    answer_field (codes "amount") (codes "amount") (codes "integer") (codes "/fields/0") true false
      (entry (codes "maximum") (number (codes "20")) empty) no_more

accepted_run :
    validate_scalar_field any_pattern halves no_rules amount
      (some (number (codes "7")))
      complete
      ([], [])
    ≡ ok ([], (codes "amount", int (pos 7)) ∷ [])
unfolding validate_scalar_field contains_key try_reject_inactive_value resolve_field_flags lookup
    try_reject_read_only_value is_read_only try_reject_required_empty is_empty_element
    try_convert_value convert str_eq type_of convert_integer as_i64 as_number_text parse_int
    validate_constraints constraint_of validate_numeric_constraints schema_of get_f64 as_f64 get
    is_no_multiple id_of code_of put is_required is_complete
accepted_run = refl

validate_scalar_field-Outcome_example :
    Outcome any_pattern halves no_rules amount [] [] ([], (codes "amount", int (pos 7)) ∷ [])
validate_scalar_field-Outcome_example =
    validate_scalar_field-Outcome any_pattern halves no_rules amount (some (number (codes "7")))
      complete [] [] accepted_run

-- 30 is over the maximum, as an integer and as a floating point number, and passes
satisfies-integer_example :
    (calculated_value_satisfies_field any_pattern halves amount (int (pos 30)) ≡ ok true)
    × (calculated_value_satisfies_field any_pattern halves amount (real 60) ≡ ok true)
unfolding type_of zero_real
satisfies-integer_example = satisfies-integer any_pattern halves amount (pos 30) 60 refl refl refl

-- a repeater with one row, in which the amount is given
abbrev lines : AnswerFieldDefinition
lines =
    answer_field (codes "lines") (codes "lines") (codes "repeater") (codes "/fields/1") false false
      empty (child amount no_more)

abbrev one_line : Json
one_line = array (cons (object (entry (codes "amount") (number (codes "7")) empty)) nil)

abbrev one_row : RowList ℕ
one_row = row (cell (codes "amount") (int (pos 7)) no_cells) no_rows

lines_run :
    validate_repeater any_pattern halves no_rules complete lines (some one_line) ([], [])
    ≡ ok ([], (codes "lines", Val.rows one_row) ∷ [])
unfolding validate_repeater gate_items validate_repeater_item_count validate_rows
    validate_repeater_row row_state push_row at_path children_of path_of or_default get_i64
    items_length contains insert show_nat contains_key try_reject_inactive_value resolve_field_flags
    lookup try_reject_read_only_value is_read_only try_reject_required_empty is_empty_element
    try_convert_value convert str_eq type_of convert_integer as_i64 as_number_text parse_int
    validate_constraints constraint_of validate_numeric_constraints schema_of get_f64 as_f64 get
    is_no_multiple id_of code_of put is_required is_complete validate_scalar_field push_if
lines_run = refl

validate_repeater-Rows_example :
    (rs : RowList ℕ) × (◌≡◌ {A = IndexMap (Val ℕ)}
      ((codes "lines", Val.rows one_row) ∷ [])
      (put [] (code_of lines) (Val.rows rs)))
    × (row_count rs ≤ answer_count (some one_line))
validate_repeater-Rows_example =
    validate_repeater-Rows any_pattern halves no_rules complete lines (some one_line) [] []
      lines_run

abbrev whole_answer : JsonMap
whole_answer = entry (codes "amount") (number (codes "7")) empty

abbrev by_code : IndexMap AnswerFieldDefinition
by_code = (codes "amount", amount) ∷ []

abbrev one_failure : FormRuleEvaluationResult ℕ
one_failure = record no_rules {
  validation_errors = record { code = codes "TOO_MUCH"; message = codes "no" } ∷ [];
}

abbrev whole_result : FormResponseValidationResult
whole_result = record {
  normalized_answers_json = codes "{\"amount\":7}";
  errors =
      record { code = codes "TOO_MUCH"; path = codes "/rules/validations"; message = codes "no" }
      ∷ [];
}

response_run :
    validate_evaluated any_pattern halves one_failure complete whole_answer none by_code
    ≡ ok whole_result
unfolding validate_evaluated passes validate_known_top_level_keys values on_page
    apply_calculated_fields serialize_normalized to_json integer show_int write_string
    write_string_body ordered all_errors cap_errors kept_errors contains ellipsize path_of
    contains_key try_reject_inactive_value resolve_field_flags lookup try_reject_read_only_value
    is_read_only try_reject_required_empty is_empty_element try_convert_value convert str_eq type_of
    convert_integer as_i64 as_number_text parse_int validate_constraints constraint_of
    validate_numeric_constraints schema_of get_f64 as_f64 get is_no_multiple id_of code_of put
    is_required is_complete validate_scalar_field is_unescaped cost as_bytes
response_run = refl

validate_evaluated-Renders_example :
    (errors : List FormResponseFieldError) × (normalized : IndexMap (Val ℕ)) × (map : JsonMap)
    × (reported : List FormResponseFieldError) × (passes any_pattern halves one_failure complete
          whole_answer none by_code
        ≡ ok (errors, normalized))
    × Renders halves normalized map
    × (whole_result.normalized_answers_json ≡ ordered (object map))
    × RuleErrors one_failure complete none reported
    × (whole_result.errors ≡ cap_errors (errors ++ reported))
    × (length whole_result.errors ≤ max_errors)
    × ((whole_result.errors ≡ []) ↔ (errors ++ reported ≡ []))
validate_evaluated-Renders_example =
    validate_evaluated-Renders any_pattern halves one_failure complete whole_answer none by_code
      response_run
