-- ===== src/Rules/Compare/Reversed.antt =====
-- Comparisons of an integer with a number that has a fraction, in src/rules/value.rs and
-- src/rules/expression.rs.
use Prim.Native.Nat.{Ordering}
use colander.Prelude.{
  ◌≡◌, refl, sym, ◌∙◌, true, false, Option, none, some, Result, ok, map_ok, Bool-cases,
  Option-cases, inl, inr,
}
use colander.Prelude.Int.{ℤ}
use colander.Rules.Value.{int, real, zero_real, to_double}
use colander.Rules.Value.Equal.{int_compare_double, near}
use colander.Rules.Compare.{
  compare_values, compare_reals, reverse, as_reals, or_as_reals, or_equal, real_ordering, reversed,
}
use colander.Floats.{Floats, equal}

reverse_twice : (o : Ordering) → reverse (reverse o) ≡ o
unfolding reverse
reverse_twice Ordering.lt = refl
reverse_twice Ordering.eq = refl
reverse_twice Ordering.gt = refl

near-sym :
    {F : Type 0} (floats : Floats F)
    → ((a b : F) → floats.abs (floats.sub b a) ≡ floats.abs (floats.sub a b))
    → (a b : F) → near floats a b ≡ near floats b a
unfolding near
near-sym floats size_of a b = rw (size_of a b) refl

module _ {F : Type 0} (floats : Floats F)
    (dual : (a b : F) (o : Ordering)
      → floats.partial_cmp a b ≡ some o
      → floats.partial_cmp b a ≡ some (reverse o))
    (z : ℤ) (x : F) (whole_number : floats.is_nan (floats.from_int z) ≡ false)
    (number : floats.is_nan x ≡ false) where
  far-reverse :
      near floats (floats.from_int z) x ≡ false
      → (o : Option Ordering) → floats.partial_cmp x (floats.from_int z) ≡ o
      → or_as_reals floats (int z) (real x) o
        ≡ ok (reverse (compare_reals floats (floats.from_int z) x))
  unfolding or_as_reals as_reals compare_reals real_ordering or_equal to_double
  far-reverse far (some o) e =
      rw (far, whole_number, number, dual x (floats.from_int z) o e) (ap_ok (sym (reverse_twice o)))
    where
      ap_ok : {o p : Ordering} → o ≡ p → ◌≡◌ {A = Result Ordering} (ok o) (ok p)
      ap_ok q = cc
  far-reverse far none e = elim (Option-cases (floats.partial_cmp (floats.from_int z) x)) [
    | inl nothing ↦ unfold reverse in rw (far, whole_number, number, nothing) refl
    | inr (p, f) ↦ absurd (clash (sym e ∙ dual (floats.from_int z) x p f))
  ]
    where
      clash : {p : Ordering} → ◌≡◌ {A = Option Ordering} none (some p) → ⊥
      clash q = cc

  -- the same with the number on the left
  far-right :
      near floats x (floats.from_int z) ≡ false
      → (o : Option Ordering) → floats.partial_cmp x (floats.from_int z) ≡ o
      → or_as_reals floats (real x) (int z) (reversed floats o)
        ≡ ok (reverse (compare_reals floats x (floats.from_int z)))
  unfolding or_as_reals as_reals compare_reals real_ordering or_equal to_double reversed reverse
  far-right far (some o) e = rw (far, whole_number, number, e) refl
  far-right far none e = rw (far, whole_number, number, e) refl

-- The order of an integer and a finite number with a fraction is the reverse of the order of the same
-- two as floating point numbers, on either side, if a partial order is dual, a difference has the same
-- size both ways, an integer is converted to a number, and a finite number is not NaN.
pub compare_values-reverse :
    {F : Type 0} (floats : Floats F)
    → ((a b : F) (o : Ordering)
        → floats.partial_cmp a b ≡ some o
        → floats.partial_cmp b a ≡ some (reverse o))
    → ((a b : F) → floats.abs (floats.sub b a) ≡ floats.abs (floats.sub a b))
    → ((n : ℤ) → floats.is_nan (floats.from_int n) ≡ false)
    → ((a : F) → floats.is_finite a ≡ true → floats.is_nan a ≡ false)
    → (z : ℤ) (x : F) → floats.is_finite x ≡ true
    → equal floats (floats.fract x) (zero_real floats) ≡ false
    → (compare_values floats (int z) (real x)
        ≡ map_ok reverse (compare_values floats (real (floats.from_int z)) (real x)))
      × (compare_values floats (real x) (int z)
          ≡ map_ok reverse (compare_values floats (real x) (real (floats.from_int z))))
unfolding compare_values as_reals or_as_reals reversed to_double int_compare_double
compare_values-reverse floats dual size_of from_int-number finite-number z x finite fraction =
    let whole = from_int-number z in
    let number = finite-number x finite in
    elim (Bool-cases (near floats (floats.from_int z) x)) [
      | inl close ↦ (
        unfold compare_reals reverse in rw (finite, fraction, close) refl,
        unfold compare_reals reverse in
            rw (finite, fraction, near-sym floats size_of x (floats.from_int z) ∙ close, close)
              refl,
      )
      | inr far ↦ (
        rw (finite, fraction, far) (far-reverse floats dual z x whole number far _ refl),
        rw (finite, fraction, far)
            (far-right floats dual z x whole number
              (near-sym floats size_of x (floats.from_int z) ∙ far) _ refl),
      )
    ]
