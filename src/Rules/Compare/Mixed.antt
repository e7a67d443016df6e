-- ===== src/Rules/Compare/Mixed.antt =====
-- Comparisons of an integer with a floating point number in src/rules.
use Prim.Native.Nat.{Ordering}
use colander.Prelude.{◌≡◌, ◌↔◌, refl, true, some, Result, ok, Bool-cases, inl, inr}
use colander.Prelude.Int.{ℤ}
use colander.Rules.Value.{int, real, zero_real, is_equal}
use colander.Rules.Value.Equal.{
  int_compare_double, int_equals_double, values_equal, near, whole_compare,
}
use colander.Rules.Compare.{compare_values, reverse, or_as_reals, reversed}
use colander.Floats.{Floats, equal}

compared :
    {F : Type 0} (floats : Floats F) (z : ℤ) (x : F) (o : Ordering)
    → floats.is_finite x ≡ true
    → floats.partial_cmp x (floats.from_int z) ≡ some o
    → (p : Ordering) × (int_compare_double floats z x ≡ some p)
unfolding int_compare_double
compared floats z x o finite order =
    elim (Bool-cases (equal floats (floats.fract x) (zero_real floats))) [
      | inl e ↦ (whole_compare floats z x, rw (finite, e) refl)
      | inr e ↦ elim (Bool-cases (near floats (floats.from_int z) x)) [
        | inl n ↦ (Ordering.eq, rw (finite, e, n) refl)
        | inr n ↦ (o, rw (finite, e, n) order)
      ]
    ]

equal_iff :
    (p : Ordering)
    → (is_equal (some p) ≡ true) ↔ (◌≡◌ {A = Result Ordering} (ok p) (ok Ordering.eq))
unfolding is_equal
equal_iff Ordering.lt = (λ h. cc, λ h. cc)
equal_iff Ordering.eq = (λ h. refl, λ h. refl)
equal_iff Ordering.gt = (λ h. cc, λ h. cc)

equal_iff-reverse :
    (p : Ordering)
    → (is_equal (some p) ≡ true) ↔ (◌≡◌ {A = Result Ordering} (ok (reverse p)) (ok Ordering.eq))
unfolding is_equal reverse
equal_iff-reverse Ordering.lt = (λ h. cc, λ h. cc)
equal_iff-reverse Ordering.eq = (λ h. refl, λ h. refl)
equal_iff-reverse Ordering.gt = (λ h. cc, λ h. cc)

-- An integer and a finite number that compares with it are equal for `values_equal` exactly when
-- `compare_values` answers equal, on either side.
pub compare_values-values_equal :
    {F : Type 0} (floats : Floats F) (z : ℤ) (x : F) (o : Ordering)
    → floats.is_finite x ≡ true
    → floats.partial_cmp x (floats.from_int z) ≡ some o
    → ((values_equal floats (int z) (real x) ≡ true)
        ↔ (compare_values floats (int z) (real x) ≡ ok Ordering.eq))
      × ((values_equal floats (real x) (int z) ≡ true)
          ↔ (compare_values floats (real x) (int z) ≡ ok Ordering.eq))
unfolding values_equal compare_values int_equals_double or_as_reals reversed
compare_values-values_equal floats z x o finite order =
    let (p, e) = compared floats z x o finite order in rw e (equal_iff p, equal_iff-reverse p)
