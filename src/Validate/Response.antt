-- ===== src/Validate/Response.antt =====
-- The composition in src/validate.rs, from the evaluation of the rules on, and the text of the
-- normalized answers.
pub mod Serialized
use colander.Prelude.{
  Bool, true, false, not, ◌&&◌, ◌||◌, Str, List, [], ◌∷◌, ◌++◌, Option, none, some, codes, str_eq,
  if◌then◌else◌, Result, ok, ◌>>=◌,
}
use colander.Json.{Json, JsonMap}
use colander.Json.Map.{get}
use colander.Json.Escape.{write_string}
use colander.Json.Write.{ordered, separator}
use colander.IndexMap.{IndexMap, values}
use colander.Index.Answers.{AnswerFieldDefinition}
use colander.Rules.Value.{Val, to_json}
use colander.Rules.EvaluationResult.{FormRuleEvaluationResult, RuleValidationError}
use colander.Floats.{Floats}
use colander.Validate.Model.{
  FormResponseFieldError, FormResponseValidationMode, FormResponseValidationResult,
}
use colander.Validate.Limits.{cap_errors}
use colander.Validate.Page.{on_page}
use colander.Validate.Conversion.{Errors, id_of, code_of, type_of}
use colander.Validate.Fields.{is_complete, validate_known_top_level_keys, validate_scalar_field}
use colander.Validate.Repeater.{validate_repeater}
use colander.Validate.Calculated.Apply.{apply_calculated_fields}

module _ {F : Type 0} (floats : Floats F) where
  serialized_entries : Bool → IndexMap (Val F) → Result Str
  serialized_entries first [] = ok []
  serialized_entries first ((key, value) ∷ rest) = do
    j ← to_json floats value
    others ← serialized_entries false rest
    ok (separator first ++ (write_string key ++ (b':' ∷ (ordered j ++ others))))

  unfoldable pub serialize_normalized : IndexMap (Val F) → Result Str
  unfolding serialized_entries
  serialize_normalized normalized = do
    entries ← serialized_entries true normalized
    ok (b'{' ∷ (entries ++ b'}' ∷ []))

is_container : AnswerFieldDefinition → Bool
is_container field =
    let is = str_eq (type_of field) in
    is (codes "group") || (is (codes "repeater") || is (codes "component-ref"))

is_repeater : AnswerFieldDefinition → Bool
is_repeater field = str_eq (type_of field) (codes "repeater")

rule_errors : List RuleValidationError → Errors
rule_errors [] = []
rule_errors (error ∷ errors) =
    record { code = error.code; path = codes "/rules/validations"; message = error.message }
    ∷ rule_errors errors

is_absent : Option (List Str) → Bool
is_absent none = true
is_absent (some ids) = false

module _ (is_match : Str → Str → Result Bool) {F : Type 0} (floats : Floats F)
    (evaluation : FormRuleEvaluationResult F) (mode : FormResponseValidationMode)
    (answers : JsonMap) (page_fields : Option (List Str)) where
  abbrev State : Type 0
  State = Errors × IndexMap (Val F)

  scalar_fields : List AnswerFieldDefinition → State → Result State
  unfolding is_container
  scalar_fields [] state = ok state
  scalar_fields (field ∷ fields) state = do
    next ←
        (if is_container field || not (on_page (id_of field) page_fields)
          then ok state
          else validate_scalar_field is_match floats evaluation field (get answers (code_of field))
              mode state)
    scalar_fields fields next

  repeaters : List AnswerFieldDefinition → State → Result State
  unfolding is_repeater
  repeaters [] state = ok state
  repeaters (field ∷ fields) state = do
    next ←
        (if is_repeater field && on_page (id_of field) page_fields
          then validate_repeater is_match floats evaluation mode field (get answers (code_of field))
              state
          else ok state)
    repeaters fields next

  -- the three passes over the fields
  unfoldable pub passes : IndexMap AnswerFieldDefinition → Result State
  unfolding scalar_fields repeaters
  passes fields_by_code = do
    scalars ←
        scalar_fields (values fields_by_code)
          (validate_known_top_level_keys answers fields_by_code [], [])
    rows ← repeaters (values fields_by_code) scalars
    apply_calculated_fields is_match floats answers fields_by_code evaluation mode page_fields rows

  unfoldable pub all_errors : Errors → Errors
  unfolding rule_errors is_absent
  all_errors errors =
      if is_complete mode && is_absent page_fields
      then errors ++ rule_errors evaluation.validation_errors
      else errors

  -- `validate_with_semantics`, once the rules are evaluated
  unfoldable pub validate_evaluated :
      IndexMap AnswerFieldDefinition → Result FormResponseValidationResult
  validate_evaluated fields_by_code = do
    (errors, normalized) ← passes fields_by_code
    text ← serialize_normalized floats normalized
    ok (record { normalized_answers_json = text; errors = cap_errors (all_errors errors) })
