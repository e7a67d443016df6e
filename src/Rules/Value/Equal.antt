-- ===== src/Rules/Value/Equal.antt =====
-- Equality of values in src/rules/value.rs: the derived `PartialEq`, and the equality of the rules.
use Prim.Native.Nat.{Ordering}
use colander.Prelude.{
  ℕ, suc, ◌-◌, ◌^◌, Bool, true, false, not, ◌&&◌, ◌||◌, ◌==◌, Str, Option, none, some, str_eq,
  if◌then◌else◌,
}
use colander.Prelude.Int.{ℤ, pos, negsuc, eqb_ℤ}
use colander.Rules.Value.{
  Val, Vals, RowList, Row, null, boolean, text, int, real, list, rows, raw, no_vals, val, no_rows,
  row, no_cells, cell, compare_int, is_equal, epsilon, zero_real,
}
use colander.Floats.{Floats, less, equal}

module _ {F : Type 0} (floats : Floats F) where
  unfoldable pub i128_min : F
  i128_min = floats.from_int (negsuc (2 ^ 127 - 1))

  unfoldable pub i128_max : F
  i128_max = floats.from_int (pos (2 ^ 127 - 1))

  -- `(a - b).abs() < EPSILON`
  unfoldable pub near : F → F → Bool
  near a b = less floats (floats.abs (floats.sub a b)) (epsilon floats)

  unfoldable pub whole_compare : ℤ → F → Ordering
  unfolding i128_min i128_max
  whole_compare z x =
      if less floats x i128_min
      then Ordering.gt
      else if less floats i128_max x
      then Ordering.lt
      else compare_int z (floats.to_i128 x)

  unfoldable pub int_compare_double : ℤ → F → Option Ordering
  unfolding near whole_compare zero_real
  int_compare_double z x =
      if not (floats.is_finite x)
      then none
      else if equal floats (floats.fract x) (zero_real floats)
      then some (whole_compare z x)
      else if near (floats.from_int z) x
      then some Ordering.eq
      else floats.partial_cmp x (floats.from_int z)

  unfoldable pub int_equals_double : ℤ → F → Bool
  unfolding is_equal
  int_equals_double z x = is_equal (int_compare_double z x)

  bool_eq : Bool → Bool → Bool
  bool_eq true b = b
  bool_eq false b = not b

  find : Row F → Str → Option (Val F)
  find no_cells key = none
  find (cell k v r) key = let later = find r key in if str_eq k key then some v else later

  width : Row F → ℕ
  width no_cells = 0
  width (cell k v r) = suc (width r)

  found : (Val F → Bool) → Option (Val F) → Bool
  found test none = false
  found test (some w) = test w

  -- The derived equality; maps are equal with their entries in any order.
  unfoldable mutual
    unfolding bool_eq find width found

    pub val_eq : Val F → Val F → Bool
    val_eq null null = true
    val_eq (boolean a) (boolean b) = bool_eq a b
    val_eq (text a) (text b) = str_eq a b
    val_eq (int a) (int b) = eqb_ℤ a b
    val_eq (real a) (real b) = equal floats a b
    val_eq (list a) (list b) = vals_eq a b
    val_eq (rows a) (rows b) = rows_eq a b
    val_eq (raw a) (raw b) = str_eq a b
    val_eq _ _ = false

    pub vals_eq : Vals F → Vals F → Bool
    vals_eq no_vals no_vals = true
    vals_eq (val a as') (val b bs) = val_eq a b && vals_eq as' bs
    vals_eq _ _ = false

    pub rows_eq : RowList F → RowList F → Bool
    rows_eq no_rows no_rows = true
    rows_eq (row a as') (row b bs) = (width a == width b && row_in a b) && rows_eq as' bs
    rows_eq _ _ = false

    row_in : Row F → Row F → Bool
    row_in no_cells b = true
    row_in (cell k v a) b = found (val_eq v) (find b k) && row_in a b

  unfoldable mutual
    unfolding near

    pub values_equal : Val F → Val F → Bool
    values_equal (real a) (real b) = equal floats a b || near a b
    values_equal (int a) (int b) = eqb_ℤ a b
    values_equal (int a) (real b) = int_equals_double a b
    values_equal (real a) (int b) = int_equals_double b a
    values_equal (list a) (list b) = lists_equal a b
    values_equal a b = val_eq a b

    pub lists_equal : Vals F → Vals F → Bool
    lists_equal no_vals no_vals = true
    lists_equal (val a as') (val b bs) = values_equal a b && lists_equal as' bs
    lists_equal _ _ = false
