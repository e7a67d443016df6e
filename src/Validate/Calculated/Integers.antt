-- ===== src/Validate/Calculated/Integers.antt =====
-- Which calculated values an integer field takes.
use colander.Prelude.{◌≡◌, refl, Bool, true, Str, [], codes, str_eq, Result, ok}
use colander.Prelude.Int.{ℤ}
use colander.Index.Answers.{AnswerFieldDefinition}
use colander.Rules.Value.{int, real, zero_real}
use colander.Floats.{Floats, equal}
use colander.Validate.Conversion.{type_of}
use colander.Validate.Constraints.{validate_constraints-real}
use colander.Validate.Calculated.{
  calculated_value_satisfies_field, satisfies_integer, held_number, held, verdict,
}

-- An integer field takes every integer and every finite whole number as a calculated value, whatever
-- its constraints say.
pub satisfies-integer :
    (is_match : Str → Str → Result Bool) {F : Type 0} (floats : Floats F)
    (field : AnswerFieldDefinition) (z : ℤ) (x : F)
    → type_of field ≡ codes "integer"
    → floats.is_finite x ≡ true
    → equal floats (floats.fract x) (zero_real floats) ≡ true
    → (calculated_value_satisfies_field is_match floats field (int z) ≡ ok true)
      × (calculated_value_satisfies_field is_match floats field (real x) ≡ ok true)
unfolding calculated_value_satisfies_field satisfies_integer held_number held verdict str_eq
satisfies-integer is_match floats field z x e finite whole =
    (rw e refl, rw (e, whole, finite, validate_constraints-real is_match floats field x [] e) refl)
