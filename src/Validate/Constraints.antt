-- ===== src/Validate/Constraints.antt =====
-- src/validate/constraints.rs: the constraints of a field on a converted value. The engine of
-- patterns is a parameter.
use colander.Prelude.{
  ℕ, ◌+◌, ◌≡◌, refl, ap, sym, ◌∙◌, bind-ok, Bool, true, false, not, ◌&&◌, ◌||◌, ltb, Str, [], ◌∷◌,
  ◌++◌, Option, none, some, codes, str_eq, is_empty, if◌then◌else◌, Result, ok, err, ◌>>=◌,
}
use colander.Prelude.Int.{ℤ, pos, ltb_ℤ}
use colander.Text.Decimal.{show_int}
use colander.Json.Access.{get_i64, get_str, get_f64}
use colander.Json.Double.{format_double}
use colander.Index.Answers.{AnswerFieldDefinition}
use colander.Rules.Value.{Val, to_double, epsilon, zero_real}
use colander.Floats.{Floats, less, equal}
use colander.Validate.Model.{FormResponseFieldError}
use colander.Validate.Conversion.{Errors, code_of, type_of, path_of, schema_of}

unfoldable pub constraint_error : AnswerFieldDefinition → Str → FormResponseFieldError
constraint_error field message = record {
  code = codes "CONSTRAINT_VIOLATION";
  path = path_of field;
  message = codes "Field '" ++ (code_of field ++ (codes "' " ++ message));
}

-- a character above the basic plane is two units
unfoldable pub utf16_len : Str → ℕ
utf16_len [] = 0
utf16_len (c ∷ s) = (if ltb c 0x10000 then 1 else 2) + utf16_len s

is_below : ℤ → Option ℤ → Bool
is_below z none = false
is_below z (some limit) = ltb_ℤ z limit

is_above : ℤ → Option ℤ → Bool
is_above z none = false
is_above z (some limit) = ltb_ℤ limit z

limit_text : Option ℤ → Str
limit_text none = []
limit_text (some limit) = show_int limit

unmatched : AnswerFieldDefinition → Bool → Option FormResponseFieldError
unmatched field true = none
unmatched field false = some (constraint_error field (codes "does not match the required pattern."))

-- `is_match pattern value` answers, or fails for a pattern that is no regular expression
module _ (is_match : Str → Str → Result Bool) where
  pattern_error : AnswerFieldDefinition → Str → Option Str → Result (Option FormResponseFieldError)
  unfolding unmatched
  pattern_error field value none = ok none
  pattern_error field value (some pattern) =
      if is_empty pattern
      then ok none
      else (do matched ← is_match pattern value; ok (unmatched field matched))

  unfoldable pub validate_string_constraints :
      AnswerFieldDefinition → Str → Result (Option FormResponseFieldError)
  unfolding pattern_error is_below is_above limit_text
  validate_string_constraints field value =
      let length = pos (utf16_len value) in
      let min_length = get_i64 (schema_of field) (codes "minLength") in
      let max_length = get_i64 (schema_of field) (codes "maxLength") in
      if is_below length min_length
      then ok (
          some (
            constraint_error field
              (codes "must be at least " ++ (limit_text min_length ++ codes " characters."))))
      else if is_above length max_length
      then ok (
          some (
            constraint_error field
              (codes "must be at most " ++ (limit_text max_length ++ codes " characters."))))
      else pattern_error field value (get_str (schema_of field) (codes "pattern"))

  module _ {F : Type 0} (floats : Floats F) where
    -- the error of a limit that the value breaks, or what comes next
    limited :
        AnswerFieldDefinition
        → Str
        → (F → Bool)
        → Option F
        → Result (Option FormResponseFieldError)
        → Result (Option FormResponseFieldError)
    limited field text breaks none next = next
    limited field text breaks (some limit) next =
        if breaks limit
        then (do
          shown ← format_double floats limit
          ok (some (constraint_error field (text ++ (shown ++ codes ".")))))
        else next

    unfoldable pub is_no_multiple : F → F → Bool
    is_no_multiple value multiple_of =
        let quotient = floats.div value multiple_of in
        not (equal floats multiple_of (zero_real floats))
        && less floats (epsilon floats)
            (floats.abs (floats.sub quotient (floats.round_ties_even quotient)))

    unfoldable pub validate_numeric_constraints :
        AnswerFieldDefinition → F → Result (Option FormResponseFieldError)
    unfolding limited
    validate_numeric_constraints field value =
        let schema = schema_of field in
        limited field (codes "must be greater than or equal to ") (less floats value)
          (get_f64 floats schema (codes "minimum"))
          (limited field (codes "must be less than or equal to ")
            (λ maximum. less floats maximum value) (get_f64 floats schema (codes "maximum"))
            (limited field (codes "must be a multiple of ") (is_no_multiple value)
              (get_f64 floats schema (codes "multipleOf")) (ok none)))

    text_constraint : AnswerFieldDefinition → Val F → Result (Option FormResponseFieldError)
    text_constraint field (Val.text s) = validate_string_constraints field s
    text_constraint field _ = ok none

    -- a value that is no number passes
    number_constraint : AnswerFieldDefinition → Result F → Result (Option FormResponseFieldError)
    number_constraint field (ok x) = validate_numeric_constraints field x
    number_constraint field (err e) = ok none
    number_constraint field Result.panic = Result.panic
    number_constraint field Result.out_of_fuel = Result.out_of_fuel

    integer_constraint : AnswerFieldDefinition → Val F → Result (Option FormResponseFieldError)
    integer_constraint field (Val.int z) = validate_numeric_constraints field (floats.from_int z)
    integer_constraint field _ = ok none

    unfoldable pub constraint_of :
        AnswerFieldDefinition → Val F → Result (Option FormResponseFieldError)
    unfolding text_constraint number_constraint integer_constraint
    constraint_of field value =
        let is = str_eq (type_of field) in
        if is (codes "text") || is (codes "textarea")
        then text_constraint field value
        else if is (codes "number")
        then number_constraint field (to_double floats value)
        else if is (codes "integer")
        then integer_constraint field value
        else ok none

    judged : Errors → Option FormResponseFieldError → Bool × Errors
    judged errors none = (true, errors)
    judged errors (some error) = (false, errors ++ error ∷ [])

    unfoldable pub validate_constraints :
        AnswerFieldDefinition → Val F → Errors → Result (Bool × Errors)
    unfolding judged
    validate_constraints field value errors = do
      error ← constraint_of field value
      ok (judged errors error)

    -- A floating point number in an integer field is under no constraint.
    pub validate_constraints-real :
        (field : AnswerFieldDefinition) (x : F) (errors : Errors)
        → type_of field ≡ codes "integer"
        → validate_constraints field (Val.real x) errors ≡ ok (true, errors)
    unfolding validate_constraints constraint_of integer_constraint judged str_eq
    validate_constraints-real field x errors e = rw e refl

    judged-passed :
        (errors : Errors) (o : Option FormResponseFieldError) {t : Bool × Errors}
        → judged errors o ≡ t
        → t.0 ≡ true
        → t.1 ≡ errors
    unfolding judged
    judged-passed errors none {t} e h = sym (ap (λ (p : Bool × Errors). p.1) e)
    judged-passed errors (some error) {t} e h =
        absurd (no_verdict (ap (λ (p : Bool × Errors). p.0) e ∙ h))
      where
        no_verdict : false ≡ true → ⊥
        no_verdict q = cc

    -- A value that passes is reported nowhere.
    pub validate_constraints-passed :
        (field : AnswerFieldDefinition) (value : Val F) (errors : Errors) {t : Bool × Errors}
        → validate_constraints field value errors ≡ ok t
        → t.0 ≡ true
        → t.1 ≡ errors
    unfolding validate_constraints
    validate_constraints-passed field value errors e h =
        let (error, _, q) = bind-ok (constraint_of field value) _ e in
        judged-passed errors error (ok-injective _ _ q) h
      where
        ok-injective : (a b : Bool × Errors) → ok a ≡ ok b → a ≡ b
        ok-injective a b q = cc
