-- ===== src/Validate/Fields/Outcome.antt =====
-- What `validate_scalar_field` does to a response.
use colander.Prelude.{
  ◌≡◌, refl, ap, sym, ◌∙◌, Bool, true, false, not, ◌||◌, Str, Option, none, some, Bool-cases, inl,
  inr, ◌⊎◌, Result, ok, bind-ok,
}
use colander.Json.{Json}
use colander.IndexMap.{IndexMap, put, contains_key}
use colander.Index.Answers.{AnswerFieldDefinition}
use colander.Rules.Value.{Val}
use colander.Rules.EvaluationResult.{FormRuleEvaluationResult}
use colander.Floats.{Floats}
use colander.Validate.Model.{FormResponseValidationMode}
use colander.Validate.Conversion.{
  Errors, code_of, is_read_only, try_convert_value, try_convert_value-converted,
}
use colander.Validate.Constraints.{validate_constraints, validate_constraints-passed}
use colander.Validate.Fields.{
  is_empty_element, try_reject_inactive_value, try_reject_required_empty,
  try_reject_read_only_value, resolve_field_flags, accepted, constrained, or_stop,
  validate_scalar_field,
}

-- A test that lets the field pass reports nothing.
Passes : Errors → Bool × Errors → Type 0
Passes errors (true, e) = Unit
Passes errors (false, e) = e ≡ errors

inactive-Passes :
    (field : AnswerFieldDefinition) (value : Option Json) (visible enabled : Bool) (errors : Errors)
    → Passes errors (try_reject_inactive_value field value visible enabled errors)
unfolding try_reject_inactive_value Passes
inactive-Passes field value true true errors = refl
inactive-Passes field value true false errors = tt
inactive-Passes field value false enabled errors = tt

required-Passes :
    (field : AnswerFieldDefinition) (value : Option Json) (mode : FormResponseValidationMode)
    (required : Bool) (errors : Errors)
    → Passes errors (try_reject_required_empty field value mode required errors)
unfolding try_reject_required_empty Passes
required-Passes field value mode required errors = elim (Bool-cases (is_empty_element value)) [
  | inl e ↦ rw e tt
  | inr e ↦ rw e refl
]

module _ (is_match : Str → Str → Result Bool) {F : Type 0} (floats : Floats F)
    (evaluation : FormRuleEvaluationResult F) where
  read_only-Passes :
      (field : AnswerFieldDefinition) (value : Option Json) (errors : Errors)
      → Passes errors (try_reject_read_only_value is_match floats evaluation field value errors)
  unfolding try_reject_read_only_value Passes
  read_only-Passes field value errors =
      elim (Bool-cases
        (not (is_read_only field) || contains_key evaluation.calculated_values (code_of field))) [
          | inl e ↦ rw e refl
          | inr e ↦ rw e tt
        ]

  abbrev Normalized : Type 0
  Normalized = IndexMap (Val F)

  -- nothing is normalized, or the field is and no error is reported
  abbrev pub Outcome : AnswerFieldDefinition → Errors → Normalized → Errors × Normalized → Type 0
  Outcome field errors normalized out =
      (out.1 ≡ normalized)
      ⊎ ((out.0 ≡ errors) × ((v : Val F) × (out.1 ≡ put normalized (code_of field) v)))

  stop-Outcome :
      (field : AnswerFieldDefinition) (errors : Errors) (normalized : Normalized)
      (next : Errors → Result (Errors × Normalized)) (t : Bool × Errors) {out : Errors × Normalized}
      → Passes errors t
      → ((out' : Errors × Normalized)
          → next errors ≡ ok out'
          → Outcome field errors normalized out')
      → or_stop is_match floats evaluation next normalized t ≡ ok out
      → Outcome field errors normalized out
  unfolding or_stop Passes
  stop-Outcome field errors normalized next (true, e) {out} p h q = inl (cc)
  stop-Outcome field errors normalized next (false, e) {out} p h q = h out (rw p at q)

  accepted-Outcome :
      (field : AnswerFieldDefinition) (v : Val F) (errors : Errors) (normalized : Normalized)
      (t : Bool × Errors) {out : Errors × Normalized}
      → (t.0 ≡ true → t.1 ≡ errors)
      → accepted is_match floats evaluation field v normalized t ≡ out
      → Outcome field errors normalized out
  unfolding accepted
  accepted-Outcome field v errors normalized (true, e) h q = inr (
    sym (ap (λ (p : Errors × Normalized). p.0) q) ∙ h refl,
    (v, sym (ap (λ (p : Errors × Normalized). p.1) q)),
  )
  accepted-Outcome field v errors normalized (false, e) h q =
      inl (sym (ap (λ (p : Errors × Normalized). p.1) q))

  constrained-Outcome :
      (field : AnswerFieldDefinition) (errors : Errors) (normalized : Normalized)
      (t : Option (Val F) × Errors) {out : Errors × Normalized}
      → ((v : Val F) → t.0 ≡ some v → t.1 ≡ errors)
      → constrained is_match floats evaluation field normalized t ≡ ok out
      → Outcome field errors normalized out
  unfolding constrained
  constrained-Outcome field errors normalized (none, e) h q = inl (cc)
  constrained-Outcome field errors normalized (some v, e) {out} h q =
      let (t, e1, r) = bind-ok (validate_constraints is_match floats field v e) _ q in
      accepted-Outcome field v errors normalized t
        (λ passed. validate_constraints-passed is_match floats field v e e1 passed ∙ h v refl)
        (ok-injective _ _ r)
    where
      ok-injective : (a b : Errors × Normalized) → ok a ≡ ok b → a ≡ b
      ok-injective a b p = cc

  -- A field is either normalized with no error, or it leaves the normalized answers as they are.
  pub validate_scalar_field-Outcome :
      (field : AnswerFieldDefinition) (value : Option Json) (mode : FormResponseValidationMode)
      (errors : Errors) (normalized : Normalized) {out : Errors × Normalized}
      → validate_scalar_field is_match floats evaluation field value mode (errors, normalized)
        ≡ ok out
      → Outcome field errors normalized out
  unfolding validate_scalar_field
  validate_scalar_field-Outcome field value mode errors normalized {out} q =
      elim (Bool-cases (contains_key evaluation.calculated_values (code_of field))) [
        | inl e ↦ inl (calculated (rw e at q))
        | inr e ↦
            let flags = resolve_field_flags is_match floats evaluation field in
            stop-Outcome field errors normalized _ _
              (inactive-Passes field value flags.0 flags.1 errors)
              (λ o1.
                stop-Outcome field errors normalized _ _ (read_only-Passes field value errors)
                  (λ o2.
                    stop-Outcome field errors normalized _ _
                      (required-Passes field value mode flags.2 errors)
                      (λ o3 r.
                        let (t, e1, r') =
                          bind-ok (try_convert_value floats field value errors) _ r in
                        constrained-Outcome field errors normalized t
                          (λ v s. try_convert_value-converted floats field value errors e1 s) r')))
              (rw e at q)
      ]
    where
      calculated :
          ◌≡◌ {A = Result (Errors × Normalized)} (ok (errors, normalized)) (ok out)
          → out.1 ≡ normalized
      calculated p = cc
