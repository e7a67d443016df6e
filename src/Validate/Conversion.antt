-- ===== src/Validate/Conversion.antt =====
-- src/validate/conversion.rs: an answer becomes a typed value, or an error of its field.
use colander.Prelude.{
  ◌≡◌, Bool, false, ◌||◌, Str, List, [], ◌∷◌, ◌++◌, Option, none, some, codes, str_eq,
  if◌then◌else◌, Result, ok,
}
use colander.Json.{Json, Items, JsonMap, number, string, array, object, nil, cons}
use colander.Json.Access.{as_i64, as_bool, as_f64, get_array, get_bool, get_str}
use colander.Index.Answers.{AnswerFieldDefinition, answer_field}
use colander.IndexMap.{contains}
use colander.Rules.Value.{Val, no_vals, val}
use colander.Floats.{Floats}
use colander.Validate.Model.{FormResponseFieldError}
use colander.Validate.Limits.{ellipsize}
use colander.Validate.Datetime.{parse_date, parse_datetime, parse_time}

abbrev pub Errors : Type 0
Errors = List FormResponseFieldError

unfoldable pub id_of : AnswerFieldDefinition → Str
id_of (answer_field id code field_type path required read_only schema children) = id

unfoldable pub code_of : AnswerFieldDefinition → Str
code_of (answer_field id code field_type path required read_only schema children) = code

unfoldable pub type_of : AnswerFieldDefinition → Str
type_of (answer_field id code field_type path required read_only schema children) = field_type

unfoldable pub path_of : AnswerFieldDefinition → Str
path_of (answer_field id code field_type path required read_only schema children) = path

unfoldable pub is_required : AnswerFieldDefinition → Bool
is_required (answer_field id code field_type path required read_only schema children) = required

unfoldable pub is_read_only : AnswerFieldDefinition → Bool
is_read_only (answer_field id code field_type path required read_only schema children) = read_only

unfoldable pub schema_of : AnswerFieldDefinition → JsonMap
schema_of (answer_field id code field_type path required read_only schema children) = schema

-- `Result<Val, FormResponseFieldError>`; a datetime may panic
pub data Converted (F : Type 0) : Type 0 where
  converted : Val F → Converted F
  rejected : FormResponseFieldError → Converted F
  panicked : Converted F

-- `Field '…' `, a text, at the path of the field
unfoldable pub field_error : Str → AnswerFieldDefinition → Str → FormResponseFieldError
field_error code field text = record {
  code = code;
  path = path_of field;
  message = codes "Field '" ++ (ellipsize (code_of field) ++ text);
}

unfoldable pub type_error : AnswerFieldDefinition → Str → FormResponseFieldError
type_error field expected =
    field_error (codes "INVALID_TYPE") field (codes "' must be " ++ (expected ++ codes "."))

module _ {F : Type 0} (floats : Floats F) where
  or_rejected {ℓ} : {A : Type ℓ} → (A → Val F) → FormResponseFieldError → Option A → Converted F
  or_rejected make error none = rejected error
  or_rejected make error (some a) = converted (make a)

  unfoldable pub convert_string : AnswerFieldDefinition → Option Json → Converted F
  convert_string field (some (string s)) = converted (Val.text s)
  convert_string field _ = rejected (type_error field (codes "a string"))

  unfoldable pub convert_number : AnswerFieldDefinition → Option Json → Converted F
  unfolding or_rejected
  convert_number field (some (number s)) =
      or_rejected Val.real (type_error field (codes "a number")) (as_f64 floats (number s))
  convert_number field _ = rejected (type_error field (codes "a number"))

  unfoldable pub convert_integer : AnswerFieldDefinition → Option Json → Converted F
  unfolding or_rejected
  convert_integer field none = rejected (type_error field (codes "an integer"))
  convert_integer field (some v) =
      or_rejected Val.int (type_error field (codes "an integer")) (as_i64 v)

  unfoldable pub convert_boolean : AnswerFieldDefinition → Option Json → Converted F
  unfolding or_rejected
  convert_boolean field none = rejected (type_error field (codes "a boolean"))
  convert_boolean field (some v) =
      or_rejected Val.boolean (type_error field (codes "a boolean")) (as_bool v)

  unfoldable pub convert_date : AnswerFieldDefinition → Option Json → Converted F
  unfolding or_rejected
  convert_date field (some (string s)) =
      or_rejected Val.text (type_error field (codes "an ISO date (YYYY-MM-DD)")) (parse_date s)
  convert_date field _ = rejected (type_error field (codes "an ISO date (YYYY-MM-DD)"))

  attempted : FormResponseFieldError → Result (Option Str) → Converted F
  unfolding or_rejected
  attempted error (ok o) = or_rejected Val.text error o
  attempted error _ = panicked

  unfoldable pub convert_datetime : AnswerFieldDefinition → Option Json → Converted F
  unfolding attempted
  convert_datetime field (some (string s)) =
      attempted (type_error field (codes "an ISO date-time")) (parse_datetime s)
  convert_datetime field _ = rejected (type_error field (codes "an ISO date-time"))

  unfoldable pub convert_time : AnswerFieldDefinition → Option Json → Converted F
  unfolding or_rejected
  convert_time field (some (string s)) =
      or_rejected Val.text (type_error field (codes "an ISO time")) (parse_time s)
  convert_time field _ = rejected (type_error field (codes "an ISO time"))

  -- the values of the options of a choice
  push_value : Option Str → List Str → List Str
  push_value none rest = rest
  push_value (some v) rest = v ∷ rest

  unfoldable pub allowed_values : Items → List Str
  unfolding push_value
  allowed_values nil = []
  allowed_values (cons (object option) rest) =
      push_value (get_str option (codes "value")) (allowed_values rest)
  allowed_values (cons _ rest) = allowed_values rest

  unfoldable pub invalid_schema_error : AnswerFieldDefinition → FormResponseFieldError
  invalid_schema_error field = record {
    code = codes "INVALID_SCHEMA";
    path = path_of field;
    message =
        codes "Choice field '" ++ (ellipsize (code_of field) ++ codes "' is missing options.");
  }

  invalid_choice : AnswerFieldDefinition → FormResponseFieldError
  invalid_choice field =
      field_error (codes "CONSTRAINT_VIOLATION") field (codes "' contains an invalid choice value.")

  push_selected : Str → Converted F → Converted F
  push_selected s (converted (Val.list vs)) = converted (Val.list (val (Val.text s) vs))
  push_selected s other = other

  -- the loop over the items, which stops at the first error
  select : AnswerFieldDefinition → List Str → Items → Converted F
  unfolding push_selected invalid_choice
  select field allowed nil = converted (Val.list no_vals)
  select field allowed (cons (string s) rest) =
      let others = push_selected s (select field allowed rest) in
      if contains allowed s then others else rejected (invalid_choice field)
  select field allowed (cons _ rest) =
      rejected (type_error field (codes "an array of choice values"))

  unfoldable pub convert_multi_choice : AnswerFieldDefinition → Option Json → List Str → Converted F
  unfolding select
  convert_multi_choice field (some (array items)) allowed = select field allowed items
  convert_multi_choice field _ allowed =
      rejected (type_error field (codes "an array of choice values"))

  unfoldable pub convert_single_choice :
      AnswerFieldDefinition → Option Json → List Str → Converted F
  unfolding invalid_choice
  convert_single_choice field (some (string s)) allowed =
      if contains allowed s then converted (Val.text s) else rejected (invalid_choice field)
  convert_single_choice field _ allowed = rejected (type_error field (codes "a choice value"))

  or_false : Option Bool → Bool
  or_false none = false
  or_false (some b) = b

  choice_of : AnswerFieldDefinition → Option Json → Option Items → Converted F
  unfolding or_false
  choice_of field value none = rejected (invalid_schema_error field)
  choice_of field value (some nil) = rejected (invalid_schema_error field)
  choice_of field value (some (cons x xs)) =
      let allowed = allowed_values (cons x xs) in
      if or_false (get_bool (schema_of field) (codes "allowMultiple"))
      then convert_multi_choice field value allowed
      else convert_single_choice field value allowed

  unfoldable pub convert_choice : AnswerFieldDefinition → Option Json → Converted F
  unfolding choice_of
  convert_choice field value = choice_of field value (get_array (schema_of field) (codes "options"))

  unsupported : AnswerFieldDefinition → FormResponseFieldError
  unsupported field = record {
    code = codes "UNSUPPORTED_FIELD_TYPE";
    path = path_of field;
    message =
        codes "Field type '"
        ++ (type_of field ++ codes "' is not supported for answer validation.");
  }

  -- the match on the type of the field
  unfoldable pub convert : AnswerFieldDefinition → Option Json → Converted F
  unfolding unsupported
  convert field value =
      let is = str_eq (type_of field) in
      if is (codes "text") || is (codes "textarea")
      then convert_string field value
      else if is (codes "number")
      then convert_number field value
      else if is (codes "integer")
      then convert_integer field value
      else if is (codes "boolean")
      then convert_boolean field value
      else if is (codes "date")
      then convert_date field value
      else if is (codes "datetime")
      then convert_datetime field value
      else if is (codes "time")
      then convert_time field value
      else if is (codes "choice")
      then convert_choice field value
      else rejected (unsupported field)

  pushed : Errors → Converted F → Result (Option (Val F) × Errors)
  pushed errors (converted v) = ok (some v, errors)
  pushed errors (rejected error) = ok (none, errors ++ error ∷ [])
  pushed errors panicked = Result.panic

  unfoldable pub try_convert_value :
      AnswerFieldDefinition → Option Json → Errors → Result (Option (Val F) × Errors)
  unfolding pushed
  try_convert_value field value errors = pushed errors (convert field value)

  pushed-converted :
      (errors : Errors) (c : Converted F) {t : Option (Val F) × Errors} {v : Val F}
      → pushed errors c ≡ ok t
      → t.0 ≡ some v
      → t.1 ≡ errors
  unfolding pushed
  pushed-converted errors (converted w) {t} e h = cc
  pushed-converted errors (rejected error) {t} {v} e h = absurd (cc (e, h))
  pushed-converted errors panicked e h = absurd (cc)

  -- A value that is converted is reported nowhere.
  pub try_convert_value-converted :
      (field : AnswerFieldDefinition) (value : Option Json) (errors : Errors)
      {t : Option (Val F) × Errors} {v : Val F}
      → try_convert_value field value errors ≡ ok t
      → t.0 ≡ some v
      → t.1 ≡ errors
  unfolding try_convert_value
  try_convert_value-converted field value errors e h =
      pushed-converted errors (convert field value) e h
