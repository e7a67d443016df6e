-- ===== src/Validate/Limits.antt =====
-- How src/validate.rs bounds the errors of a response.
pub mod Bounds
use colander.Prelude.{
  ℕ, ◌+◌, ◌-◌, ◌*◌, Bool, true, false, not, ◌&&◌, ◌==◌, ltb, leb, Str, List, [], ◌∷◌, ◌++◌, codes,
  length, take, is_empty, if◌then◌else◌,
}
use colander.Text.Utf8.{as_bytes}
use colander.Text.Decimal.{show_nat}
use colander.Json.{Json, Items, JsonMap, string, boolean, array, object, nil, cons, empty}
use colander.Json.Map.{insert}
use colander.Validate.Model.{FormResponseFieldError, FormResponseValidationResult, is_valid}

abbrev pub max_errors : ℕ
max_errors = 100

abbrev pub max_error_bytes : ℕ
max_error_bytes = 64 * 1024

abbrev pub max_echo_chars : ℕ
max_echo_chars = 256

unfoldable pub ellipsize : Str → Str
ellipsize text =
    let count = length text in
    if leb count max_echo_chars
    then text
    else take max_echo_chars text
      ++ (0x2026 ∷ (codes " (" ++ (show_nat (count - max_echo_chars) ++ codes " more chars)")))

unfoldable pub cost : FormResponseFieldError → ℕ
cost error = length (as_bytes error.message) + length (as_bytes error.path)

-- the loop, with the number of errors kept and their bytes
unfoldable pub kept_errors : ℕ → ℕ → List FormResponseFieldError → List FormResponseFieldError
kept_errors count bytes [] = []
kept_errors count bytes (error ∷ errors) =
    let rest = kept_errors (count + 1) (bytes + cost error) errors in
    if leb (max_errors - 1) count
    then []
    else if not (count == 0) && ltb max_error_bytes (bytes + cost error)
    then []
    else error ∷ rest

unfoldable pub truncated : ℕ → ℕ → FormResponseFieldError
truncated shown total = record {
  code = codes "VALIDATION_ERRORS_TRUNCATED";
  path = codes "/";
  message =
      codes "Showing "
      ++ (show_nat shown ++ (codes " of " ++ (show_nat total ++ codes " validation errors.")));
}

unfoldable pub cap_errors : List FormResponseFieldError → List FormResponseFieldError
unfolding truncated
cap_errors errors =
    let capped = kept_errors 0 0 errors in
    if ltb (length capped) (length errors)
    then capped ++ truncated (length capped) (length errors) ∷ []
    else capped

error_entry : FormResponseFieldError → Json
error_entry error = object (
    insert
      (insert (insert empty (codes "code") (string error.code)) (codes "path") (string error.path))
      (codes "message") (string error.message))

error_entries : List FormResponseFieldError → Items
unfolding error_entry
error_entries [] = nil
error_entries (error ∷ errors) = cons (error_entry error) (error_entries errors)

unfoldable pub project_result : FormResponseValidationResult → Json
unfolding error_entries
project_result result = object (
    insert
      (insert (insert empty (codes "normalizedAnswersJson") (string result.normalized_answers_json))
        (codes "errors") (array (error_entries result.errors)))
      (codes "isValid") (boolean (is_valid result)))
