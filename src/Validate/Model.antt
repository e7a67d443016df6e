-- ===== src/Validate/Model.antt =====
-- src/validate/model.rs: what the validation of a response answers.
use colander.Prelude.{Bool, Str, List, is_empty}

pub data FormResponseValidationMode : Type 0 where
  draft complete : FormResponseValidationMode

pub record FormResponseFieldError : Type 0 where
  pub code : Str
  pub path : Str
  pub message : Str

pub record FormResponseValidationResult : Type 0 where
  pub normalized_answers_json : Str
  pub errors : List FormResponseFieldError

unfoldable pub is_valid : FormResponseValidationResult → Bool
is_valid r = is_empty r.errors
