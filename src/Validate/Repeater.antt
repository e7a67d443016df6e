-- ===== src/Validate/Repeater.antt =====
-- src/validate/repeater.rs: the rows of a repeater.
pub mod Rows
use colander.Prelude.{
  ℕ, zero, suc, ◌+◌, Bool, true, false, not, ◌&&◌, ◌||◌, Str, List, [], ◌∷◌, ◌++◌, Option, none,
  some, codes, if◌then◌else◌, Result, ok, err, ◌>>=◌,
}
use colander.Prelude.Int.{ℤ, pos, ltb_ℤ}
use colander.Text.Decimal.{show_nat, show_int}
use colander.Json.{Json, Items, JsonMap, array, object, nil, cons, empty, entry, items_length}
use colander.Json.Map.{get, insert}
use colander.Json.Access.{get_i64}
use colander.IndexMap.{IndexMap, lookup, put, contains}
use colander.Index.Answers.{AnswerFieldDefinition, Children, answer_field, no_more, child}
use colander.Rules.Value.{
  Val, Vals, RowList, Row, no_vals, val, no_rows, row, no_cells, cell, from_json_element,
}
use colander.Rules.EvaluationResult.{FormRuleEvaluationResult}
use colander.Floats.{Floats}
use colander.Validate.Model.{FormResponseFieldError, FormResponseValidationMode}
use colander.Validate.Limits.{ellipsize}
use colander.Validate.Conversion.{Errors, id_of, code_of, path_of, schema_of}
use colander.Validate.Fields.{
  is_complete, is_empty_element, is_empty_value, or_default, validate_scalar_field,
}
use colander.Validate.Calculated.Apply.{
  calculated_error, push_if, or_false, differs, is_invalid_real,
}

unfoldable pub children_of : AnswerFieldDefinition → Children
children_of (answer_field id code field_type path required read_only schema children) = children

-- a copy of the field at another path
unfoldable pub at_path : AnswerFieldDefinition → Str → AnswerFieldDefinition
at_path (answer_field id code field_type old required read_only schema children) path =
    answer_field id code field_type path required read_only schema children

unfoldable pub repeater_error : Str → AnswerFieldDefinition → Str → Str → FormResponseFieldError
repeater_error code repeater name text = record {
  code = code;
  path = path_of repeater;
  message = codes "Repeater '" ++ (name ++ text);
}

or_zero : Option ℤ → ℤ
or_zero none = pos 0
or_zero (some z) = z

is_above : ℤ → Option ℤ → Bool
is_above z none = false
is_above z (some limit) = ltb_ℤ limit z

limit_text : Option ℤ → Str
limit_text none = []
limit_text (some z) = show_int z

unfoldable pub validate_repeater_item_count :
    AnswerFieldDefinition → ℕ → FormResponseValidationMode → Errors → Errors
unfolding or_zero is_above limit_text
validate_repeater_item_count repeater row_count mode errors =
    let min_items = or_zero (get_i64 (schema_of repeater) (codes "minItems")) in
    let max_items = get_i64 (schema_of repeater) (codes "maxItems") in
    let few =
      repeater_error (codes "REPEATER_MIN_ITEMS") repeater (code_of repeater)
        (codes "' requires at least " ++ (show_int min_items ++ codes " items.")) in
    let many =
      repeater_error (codes "REPEATER_MAX_ITEMS") repeater (code_of repeater)
        (codes "' allows at most " ++ (limit_text max_items ++ codes " items.")) in
    if not (is_complete mode)
    then errors
    else push_if (is_above (pos row_count) max_items) many
        (push_if (ltb_ℤ (pos row_count) min_items) few errors)

child_codes : Children → List Str
child_codes no_more = []
child_codes (child field rest) = code_of field ∷ child_codes rest

-- the entries of a row that are children, and the errors of the others
known_entries : List Str → JsonMap → JsonMap → JsonMap
known_entries allowed empty answers = answers
known_entries allowed (entry name value rest) answers =
    known_entries allowed rest
      (if contains allowed name then insert answers name value else answers)

unknown_entry : Str → Str → FormResponseFieldError
unknown_entry row_path name = record {
  code = codes "UNKNOWN_FIELD";
  path = row_path ++ (codes "/" ++ ellipsize name);
  message = codes "Unknown repeater field '" ++ (ellipsize name ++ codes "'.");
}

unknown_entries : List Str → Str → JsonMap → Errors
unfolding unknown_entry
unknown_entries allowed row_path empty = []
unknown_entries allowed row_path (entry name value rest) =
    let errors = unknown_entries allowed row_path rest in
    if contains allowed name then errors else unknown_entry row_path name ∷ errors

module _ (is_match : Str → Str → Result Bool) {F : Type 0} (floats : Floats F)
    (evaluation : FormRuleEvaluationResult F) (mode : FormResponseValidationMode) where
  abbrev pub State : Type 0
  State = Errors × IndexMap (Val F)

  nth : Vals F → ℕ → Val F
  nth no_vals n = Val.null
  nth (val v vs) zero = v
  nth (val v vs) (suc n) = nth vs n

  -- the element of a calculated list for this row
  element_of : Val F → ℕ → Val F
  unfolding nth
  element_of (Val.list items) row_index = nth items row_index
  element_of scalar row_index = scalar

  compared_cell : AnswerFieldDefinition → Option (Val F) → Val F → State → State
  compared_cell field submitted element (errors, cells) =
      let all = is_complete mode in
      let mismatch =
        push_if (differs is_match floats submitted element && all)
          (calculated_error (codes "CALCULATED_VALUE_MISMATCH") field (codes "Field '")
            (codes "' must match the server-calculated value."))
          errors in
      if is_invalid_real is_match floats field element
      then (
        push_if all
            (calculated_error (codes "CALCULATED_VALUE_INVALID") field (codes "Calculated field '")
              (codes "' could not be determined from the current answers."))
            mismatch,
        cells,
      )
      else (
        push_if
            (all && (or_false (lookup evaluation.required (id_of field)) && is_empty_value element))
            (calculated_error (codes "REQUIRED_FIELD_MISSING") field (codes "Calculated field '")
              (codes "' is required."))
            mismatch,
        put cells (code_of field) element,
      )

  read_cell : AnswerFieldDefinition → Result (Val F) → Val F → State → Result State
  unfolding compared_cell
  read_cell field (ok submitted) element state =
      ok (compared_cell field (some submitted) element state)
  read_cell field (err e) element (errors, cells) = ok (
    errors
        ++ calculated_error (codes "INVALID_TYPE") field (codes "Field '")
            (codes "' has the wrong JSON type.")
          ∷ [],
    cells,
  )
  read_cell field Result.panic element state = Result.panic
  read_cell field Result.out_of_fuel element state = Result.out_of_fuel

  unfoldable pub apply_calculated_repeater_child :
      AnswerFieldDefinition → Option Json → Val F → State → Result State
  unfolding compared_cell read_cell
  apply_calculated_repeater_child field none element state =
      ok (compared_cell field none element state)
  apply_calculated_repeater_child field (some Json.null) element state =
      ok (compared_cell field none element state)
  apply_calculated_repeater_child field (some j) element state =
      read_cell field (from_json_element floats j) element state

  child_cell : AnswerFieldDefinition → Option Json → Option (Val F) → ℕ → State → Result State
  unfolding element_of
  child_cell field value (some calculated) row_index state =
      apply_calculated_repeater_child field value (element_of calculated row_index) state
  child_cell field value none row_index state =
      validate_scalar_field is_match floats evaluation field value mode state

  row_cells : Children → Str → JsonMap → ℕ → State → Result State
  unfolding child_cell
  row_cells no_more row_path answers row_index state = ok state
  row_cells (child field rest) row_path answers row_index state = do
    next ←
        child_cell (at_path field (row_path ++ (codes "/" ++ id_of field)))
          (get answers (code_of field)) (lookup evaluation.calculated_values (code_of field))
          row_index state
    row_cells rest row_path answers row_index next

  to_row : IndexMap (Val F) → Row F
  to_row [] = no_cells
  to_row ((key, v) ∷ cells) = cell key v (to_row cells)

  -- the errors, and the rows so far
  abbrev Read : Type 0
  Read = Errors × RowList F

  unfoldable pub push_row : RowList F → Row F → RowList F
  push_row no_rows r = row r no_rows
  push_row (row s rs) r = row s (push_row rs r)

  row_error : Str → ℕ → FormResponseFieldError
  row_error row_path row_index = record {
    code = codes "INVALID_TYPE";
    path = row_path;
    message = codes "Repeater row " ++ (show_nat row_index ++ codes " must be an object.");
  }

  -- the unknown entries, then the children, from an empty row
  unfoldable pub row_state : AnswerFieldDefinition → JsonMap → ℕ → Errors → Result State
  unfolding row_cells child_codes known_entries unknown_entries
  row_state repeater map row_index errors =
      let row_path = path_of repeater ++ (codes "/" ++ show_nat row_index) in
      let allowed = child_codes (children_of repeater) in
      row_cells (children_of repeater) row_path (known_entries allowed map empty) row_index
        (errors ++ unknown_entries allowed row_path map, [])

  unfoldable pub validate_repeater_row : AnswerFieldDefinition → Json → ℕ → Read → Result Read
  unfolding to_row row_error
  validate_repeater_row repeater (object map) row_index (errors, rows) = do
    state ← row_state repeater map row_index errors
    ok (state.0, push_row rows (to_row state.1))
  validate_repeater_row repeater _ row_index (errors, rows) = ok (
    errors ++ row_error (path_of repeater ++ (codes "/" ++ show_nat row_index)) row_index ∷ [],
    rows,
  )

  unfoldable pub validate_rows : AnswerFieldDefinition → Items → ℕ → Read → Result Read
  validate_rows repeater nil row_index read = ok read
  validate_rows repeater (cons r rest) row_index read = do
    next ← validate_repeater_row repeater r row_index read
    validate_rows repeater rest (row_index + 1) next

  is_nonempty_array : Option Json → Bool
  is_nonempty_array (some (array (cons x xs))) = true
  is_nonempty_array _ = false

  no_access : AnswerFieldDefinition → Option Json → Bool → State → State
  unfolding is_nonempty_array
  no_access repeater raw_rows visible (errors, normalized) = (
    push_if (is_nonempty_array raw_rows)
        (repeater_error
          (if visible then codes "DISABLED_FIELD_VALUE" else codes "HIDDEN_FIELD_VALUE") repeater
          (ellipsize (code_of repeater)) (codes "' cannot accept values while hidden or disabled."))
        errors,
    put normalized (code_of repeater) (Val.rows no_rows),
  )

  no_array : AnswerFieldDefinition → Option Json → State → State
  no_array repeater raw_rows (errors, normalized) = (
    validate_repeater_item_count repeater 0 mode (
        push_if (not (is_empty_element raw_rows))
          (repeater_error (codes "INVALID_TYPE") repeater (code_of repeater)
            (codes "' must be an array."))
          errors),
    put normalized (code_of repeater) (Val.rows no_rows),
  )

  array_items : Option Json → Option Items
  array_items (some (array items)) = some items
  array_items _ = none

  -- the condition of `gate_repeater_access`: the items it lets through
  unfoldable pub gate_items : AnswerFieldDefinition → Option Json → Option Items
  unfolding array_items
  gate_items repeater raw_rows =
      if not (or_default (lookup evaluation.visibility (id_of repeater)) true)
        || not (or_default (lookup evaluation.enabled (id_of repeater)) true)
      then none
      else array_items raw_rows

  -- the state `gate_repeater_access` leaves when it answers false
  refused_rows : AnswerFieldDefinition → Option Json → State → State
  unfolding no_access no_array
  refused_rows repeater raw_rows state =
      let visible = or_default (lookup evaluation.visibility (id_of repeater)) true in
      let enabled = or_default (lookup evaluation.enabled (id_of repeater)) true in
      if not visible || not enabled
      then no_access repeater raw_rows visible state
      else no_array repeater raw_rows state

  gated : AnswerFieldDefinition → Option Json → Option Items → State → Result State
  unfolding refused_rows
  gated repeater raw_rows none state = ok (refused_rows repeater raw_rows state)
  gated repeater raw_rows (some items) (errors, normalized) = do
    read ←
        validate_rows repeater items 0
          (validate_repeater_item_count repeater (items_length items) mode errors, no_rows)
    ok (read.0, put normalized (code_of repeater) (Val.rows read.1))

  unfoldable pub validate_repeater : AnswerFieldDefinition → Option Json → State → Result State
  unfolding gated
  validate_repeater repeater raw_rows state =
      gated repeater raw_rows (gate_items repeater raw_rows) state
