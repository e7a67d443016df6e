-- ===== src/Rules/EvaluationResult.antt =====
-- src/rules/model.rs: what the evaluation of the rules answers.
use colander.Prelude.{Bool, Str, List}
use colander.IndexMap.{IndexMap}
use colander.Rules.Value.{Val}

pub record RuleValidationError : Type 0 where
  pub code : Str
  pub message : Str

pub record FormRuleEvaluationResult (F : Type 0) : Type 0 where
  pub visibility : IndexMap Bool
  pub enabled : IndexMap Bool
  pub required : IndexMap Bool
  pub calculated_values : IndexMap (Val F)
  pub validation_errors : List RuleValidationError
