-- ===== src/Validate/Response/Serialized.antt =====
-- The text of the normalized answers is the document of an object, and the errors are bounded.
use colander.Prelude.{
  ◌≡◌, ◌↔◌, ◌≤◌, refl, ap, sym, ◌∙◌, ◌++◌, none, some, codes, append-nil, Bool, true, false, Str,
  List, [], ◌∷◌, Option, Result, ok, bind-ok, length,
}
use colander.Json.{Json, JsonMap, object, empty, entry}
use colander.Json.Write.{ordered, ordered_entries}
use colander.IndexMap.{IndexMap}
use colander.Index.Answers.{AnswerFieldDefinition}
use colander.Rules.Value.{Val, to_json}
use colander.Rules.EvaluationResult.{FormRuleEvaluationResult, RuleValidationError}
use colander.Floats.{Floats}
use colander.Validate.Model.{
  FormResponseFieldError, FormResponseValidationMode, FormResponseValidationResult, draft, complete,
}
use colander.Validate.Limits.{max_errors, cap_errors}
use colander.Validate.Limits.Bounds.{cap_errors-bounds, cap_errors-nil}
use colander.Validate.Conversion.{Errors}
use colander.Validate.Fields.{is_complete}
use colander.Validate.Response.{
  serialized_entries, serialize_normalized, passes, rule_errors, is_absent, all_errors,
  validate_evaluated,
}

-- `map` holds the keys of `normalized` in their order, each with the JSON of its value.
pub data Renders {F : Type 0} (floats : Floats F) : IndexMap (Val F) → JsonMap → Type 0 where
  nothing : Renders floats [] empty
  one_more :
      {key : Str} {v : Val F} {j : Json} {rest : IndexMap (Val F)} {map : JsonMap}
      → to_json floats v ≡ ok j
      → Renders floats rest map
      → Renders floats ((key, v) ∷ rest) (entry key j map)

module _ {F : Type 0} (floats : Floats F) where
  entries-Renders :
      (first : Bool) (normalized : IndexMap (Val F)) {out : Str}
      → serialized_entries floats first normalized ≡ ok out
      → (map : JsonMap) × Renders floats normalized map × (out ≡ ordered_entries first map)
  unfolding serialized_entries ordered
  entries-Renders first [] h = (empty, nothing, text_of _ _ h)
    where
      text_of : (a b : Str) → ok a ≡ ok b → b ≡ a
      text_of a b q = cc
  entries-Renders first ((key, v) ∷ rest) {out} h =
      let (j, e, q) = bind-ok (to_json floats v) _ h in
      let (others, e', q') = bind-ok (serialized_entries floats false rest) _ q in
      let (map, r, same) = entries-Renders false rest e' in
      (entry key j map, one_more e r, text_of _ out q' ∙ rw same refl)
    where
      text_of : (a b : Str) → ok a ≡ ok b → b ≡ a
      text_of a b q = cc

  serialize-Renders :
      (normalized : IndexMap (Val F)) {out : Str}
      → serialize_normalized floats normalized ≡ ok out
      → (map : JsonMap) × Renders floats normalized map × (out ≡ ordered (object map))
  unfolding serialize_normalized ordered
  serialize-Renders normalized {out} h =
      let (entries, e, q) = bind-ok (serialized_entries floats true normalized) _ h in
      let (map, r, same) = entries-Renders true normalized e in
      (map, r, text_of _ out q ∙ rw same refl)
    where
      text_of : (a b : Str) → ok a ≡ ok b → b ≡ a
      text_of a b q = cc

-- The errors for the failed validations of the rules, each with its code and message, in order.
pub data Reports : List RuleValidationError → Errors → Type 0 where
  no_failures : Reports [] []
  failure :
      {failed : RuleValidationError} {error : FormResponseFieldError}
      {others : List RuleValidationError} {errors : Errors}
      → error.code ≡ failed.code
      → error.message ≡ failed.message
      → error.path ≡ codes "/rules/validations"
      → Reports others errors
      → Reports (failed ∷ others) (error ∷ errors)

-- What the rules add to the errors: nothing in a draft, nothing on a page, else all their failures.
pub data RuleErrors {F : Type 0} (evaluation : FormRuleEvaluationResult F)
    : FormResponseValidationMode → Option (List Str) → Errors → Type 0 where
  in_draft : {page_fields : Option (List Str)} → RuleErrors evaluation draft page_fields []
  on_a_page :
      {mode : FormResponseValidationMode} {ids : List Str}
      → RuleErrors evaluation mode (some ids) []
  in_full :
      {errors : Errors}
      → Reports evaluation.validation_errors errors
      → RuleErrors evaluation complete none errors

rule_errors-Reports :
    (failures : List RuleValidationError) → Reports failures (rule_errors failures)
unfolding rule_errors
rule_errors-Reports [] = no_failures
rule_errors-Reports (failed ∷ failures) = failure refl refl refl (rule_errors-Reports failures)

all_errors-RuleErrors :
    (is_match : Str → Str → Result Bool) {F : Type 0} (floats : Floats F)
    (evaluation : FormRuleEvaluationResult F) (mode : FormResponseValidationMode)
    (answers : JsonMap) (page_fields : Option (List Str)) (errors : Errors)
    → (reported : Errors) × RuleErrors evaluation mode page_fields reported
      × (all_errors is_match floats evaluation mode answers page_fields errors ≡ errors ++ reported)
unfolding all_errors is_complete is_absent
all_errors-RuleErrors is_match floats evaluation draft answers page_fields errors =
    ([], in_draft, sym (append-nil errors))
all_errors-RuleErrors is_match floats evaluation complete answers (some ids) errors =
    ([], on_a_page, sym (append-nil errors))
all_errors-RuleErrors is_match floats evaluation complete answers none errors = (
  rule_errors evaluation.validation_errors,
  in_full (rule_errors-Reports evaluation.validation_errors),
  refl,
)

-- A response is answered with the document, in the order of the normalized answers, of the object of
-- their values, and with the capped list of the errors of the passes and, behind them, one error for
-- each failed validation of the rules if the mode is complete and no page is given, and none
-- otherwise. At most 100 errors are answered, and none exactly if that list is empty.
pub validate_evaluated-Renders :
    (is_match : Str → Str → Result Bool) {F : Type 0} (floats : Floats F)
    (evaluation : FormRuleEvaluationResult F) (mode : FormResponseValidationMode)
    (answers : JsonMap) (page_fields : Option (List Str))
    (fields_by_code : IndexMap AnswerFieldDefinition) {result : FormResponseValidationResult}
    → validate_evaluated is_match floats evaluation mode answers page_fields fields_by_code
      ≡ ok result
    → (errors : Errors) × (normalized : IndexMap (Val F)) × (map : JsonMap) × (reported : Errors)
      × (passes is_match floats evaluation mode answers page_fields fields_by_code
          ≡ ok (errors, normalized))
      × Renders floats normalized map
      × (result.normalized_answers_json ≡ ordered (object map))
      × RuleErrors evaluation mode page_fields reported
      × (result.errors ≡ cap_errors (errors ++ reported))
      × (length result.errors ≤ max_errors)
      × ((result.errors ≡ []) ↔ (errors ++ reported ≡ []))
unfolding validate_evaluated
validate_evaluated-Renders is_match floats evaluation mode answers page_fields fields_by_code
      {result} h =
    let (state, e, q) =
      bind-ok (passes is_match floats evaluation mode answers page_fields fields_by_code) _ h in
    let (text, e', q') = bind-ok (serialize_normalized floats state.1) _ q in
    let (map, r, same) = serialize-Renders floats state.1 e' in
    let (reported, by_rules, all) =
      all_errors-RuleErrors is_match floats evaluation mode answers page_fields state.0 in
    let answer = result_of _ result q' in
    let answered : result.errors ≡ cap_errors (state.0 ++ reported) =
      ap (λ (x : FormResponseValidationResult). x.errors) answer ∙ ap cap_errors all in
    let (kept, rest, front, shown, short, bytes, ends) = cap_errors-bounds (state.0 ++ reported) in
    (
      state.0,
      state.1,
      map,
      reported,
      e,
      r,
      ap (λ (x : FormResponseValidationResult). x.normalized_answers_json) answer ∙ same,
      by_rules,
      answered,
      rw answered short,
      rw answered (cap_errors-nil (state.0 ++ reported)),
    )
  where
    result_of : (a b : FormResponseValidationResult) → ok a ≡ ok b → b ≡ a
    result_of a b q = cc
