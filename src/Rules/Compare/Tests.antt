-- ===== src/Rules/Compare/Tests.antt =====
-- Concrete values for the theorems on src/rules/value.rs and src/rules/expression.rs.
use Prim.Native.Nat.{Ordering, compare}
use colander.Prelude.{◌≡◌, ◌↔◌, refl, true, ok, codes, ℕ, arith, Option, some, ap, ◌∙◌, map_ok}
use colander.Prelude.Int.{pos, negsuc}
use colander.Text.Decimal.{show_int}
use colander.Json.{Json, null, number, string, array, nil, cons}
use colander.Floats.Samples.{halves}
use colander.Rules.Value.{Val, int, real, from_json_element, to_json, zero_real, epsilon}
use colander.Rules.Value.Equal.{values_equal, near, int_compare_double}
use colander.Rules.Value.Answers.{IsPlain, to_json-from_json_element}
use colander.Rules.Compare.{compare_values, or_as_reals, reverse}
use colander.Rules.Compare.Mixed.{compare_values-values_equal}
use colander.Rules.Compare.Reversed.{compare_values-reverse}

-- 1 against 1.5: the answer is greater
reversed_run : compare_values halves (int (pos 1)) (real 3) ≡ ok Ordering.gt
unfolding compare_values or_as_reals int_compare_double near zero_real epsilon
reversed_run = refl

some-injective : {o p : Ordering} → ◌≡◌ {A = Option Ordering} (some o) (some p) → o ≡ p
some-injective q = cc

compare-reverse : (a b : ℕ) → compare b a ≡ reverse (compare a b)
unfolding reverse
compare-reverse a b = ground arith

halves-dual :
    (a b : ℕ) (o : Ordering)
    → halves.partial_cmp a b ≡ some o
    → halves.partial_cmp b a ≡ some (reverse o)
halves-dual a b o e = ap some (compare-reverse a b ∙ ap reverse (some-injective e))

compare_values-reverse_example :
    (compare_values halves (int (pos 1)) (real 3)
      ≡ map_ok reverse (compare_values halves (real 2) (real 3)))
    × (compare_values halves (real 3) (int (pos 1))
        ≡ map_ok reverse (compare_values halves (real 3) (real 2)))
unfolding zero_real
compare_values-reverse_example =
    compare_values-reverse halves halves-dual (λ a b. omega arith) (λ n. refl) (λ a h. refl) (pos 1)
      3 refl refl

compare_values-values_equal_example :
    ((values_equal halves (int (pos 1)) (real 2) ≡ true)
      ↔ (compare_values halves (int (pos 1)) (real 2) ≡ ok Ordering.eq))
    × ((values_equal halves (real 2) (int (pos 1)) ≡ true)
        ↔ (compare_values halves (real 2) (int (pos 1)) ≡ ok Ordering.eq))
compare_values-values_equal_example =
    compare_values-values_equal halves (pos 1) 2 Ordering.eq refl refl

abbrev answer : Json
answer = array (cons (number (codes "-7")) (cons (string (codes "x")) (cons null nil)))

answer-IsPlain : IsPlain answer
unfolding IsPlain show_int
answer-IsPlain = ((negsuc 6, omega arith, refl), (tt, (tt, tt)))

to_json-from_json_element_example :
    (v : Val ℕ) × (from_json_element halves answer ≡ ok v) × (to_json halves v ≡ ok answer)
to_json-from_json_element_example = to_json-from_json_element halves answer answer-IsPlain
