-- ===== src/Floats.antt =====
-- The 64-bit floating point numbers of the standard library, as far as the source uses them. They are
-- a parameter: a type with these operations.
pub mod Samples
use Prim.Native.Nat.{Ordering}
use colander.Prelude.Int.{ℤ}
use colander.Prelude.{ℕ, Bool, true, false, Str, Option, none, some}

pub record Floats (F : Type 0) : Type 0 where
  -- `str::parse::<f64>().ok()`
  pub parse_f64 : Str → Option F
  -- `{:e}`: the shortest digits that are read back as the value
  pub lower_exp : F → Str
  pub is_zero : F → Bool
  pub is_sign_negative : F → Bool
  pub is_finite : F → Bool
  pub is_nan : F → Bool
  -- `to_bits`, `from_bits`, and the widening of `f32::from_bits`
  pub to_bits : F → ℕ
  pub from_bits : ℕ → F
  pub from_f32_bits : ℕ → F
  pub infinity : F
  pub neg_infinity : F
  pub nan : F
  -- a literal of the source
  pub literal : Str → F
  -- `as f64`, and the saturating `as i128`
  pub from_int : ℤ → F
  pub to_i128 : F → ℤ
  pub sub : F → F → F
  pub div : F → F → F
  pub abs : F → F
  pub fract : F → F
  pub round_ties_even : F → F
  pub partial_cmp : F → F → Option Ordering

module _ {F : Type 0} (floats : Floats F) where
  -- `<` and `==`, in which a NaN is unlike every number
  abbrev pub less : F → F → Bool
  less a b = elim (floats.partial_cmp a b) [ some Ordering.lt ↦ true | _ ↦ false ]

  abbrev pub equal : F → F → Bool
  equal a b = elim (floats.partial_cmp a b) [ some Ordering.eq ↦ true | _ ↦ false ]
