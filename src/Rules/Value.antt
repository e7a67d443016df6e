-- ===== src/Rules/Value.antt =====
-- src/rules/value.rs: the values that rules and the validation of answers work on. Floating point
-- arithmetic is a parameter.
pub mod Equal
pub mod Answers
use Prim.Native.Nat.{Ordering}
use colander.Prelude.{
  ℕ, zero, suc, ◌+◌, ◌-◌, ◌^◌, Bool, true, false, not, ◌&&◌, ◌||◌, ◌==◌, ltb, leb, Str, List, [],
  ◌∷◌, ◌++◌, Option, none, some, codes, is_empty, str_eq, if◌then◌else◌, Result, ok, err, fail,
  ◌>>=◌,
}
use colander.Prelude.Int.{ℤ, pos, negsuc, ltb_ℤ, eqb_ℤ}
use colander.Text.Decimal.{show_int}
use colander.Text.Trim.{trim}
use colander.Json.{
  Json, Items, JsonMap, number, string, array, object, nil, cons, empty, entry, push,
}
use colander.Json.Map.{insert}
use colander.Json.Access.{as_i64, as_f64, integer}
use colander.Json.Write.{ordered}
use colander.Json.Parse.{parse}
use colander.Json.Double.{double, format_double}
use colander.Floats.{Floats, less, equal}

mutual
  pub data Val (F : Type 0) : Type 0 where
    null : Val F
    boolean : Bool → Val F
    text : Str → Val F
    int : ℤ → Val F
    real : F → Val F
    list : Vals F → Val F
    rows : RowList F → Val F
    raw : Str → Val F

  pub data Vals (F : Type 0) : Type 0 where
    no_vals : Vals F
    val : Val F → Vals F → Vals F

  -- `Vec<IndexMap<String, Val>>`
  pub data RowList (F : Type 0) : Type 0 where
    no_rows : RowList F
    row : Row F → RowList F → RowList F

  pub data Row (F : Type 0) : Type 0 where
    no_cells : Row F
    cell : Str → Val F → Row F → Row F

abbrev pub compare_int : ℤ → ℤ → Ordering
compare_int a b = if ltb_ℤ a b then Ordering.lt else if eqb_ℤ a b then Ordering.eq else Ordering.gt

unfoldable pub is_equal : Option Ordering → Bool
is_equal (some Ordering.eq) = true
is_equal _ = false

module _ {F : Type 0} (floats : Floats F) where
  unfoldable pub zero_real : F
  zero_real = floats.literal (codes "0.0")

  -- the constant `EPSILON`
  unfoldable pub epsilon : F
  epsilon = floats.literal (codes "0.000001")

  unfoldable pub is_empty_val : Val F → Bool
  is_empty_val null = true
  is_empty_val (real x) = not (floats.is_finite x)
  is_empty_val (text s) = is_empty s
  is_empty_val (list no_vals) = true
  is_empty_val (list (val v vs)) = false
  is_empty_val (rows no_rows) = true
  is_empty_val (rows (row r rs)) = false
  is_empty_val (boolean b) = false
  is_empty_val (int z) = false
  is_empty_val (raw s) = false

  unfoldable pub to_bool : Val F → Bool
  unfolding zero_real
  to_bool (boolean b) = b
  to_bool null = false
  to_bool (text s) = not (is_empty s)
  to_bool (real x) = not (equal floats x zero_real)
  to_bool (int z) = not (eqb_ℤ z (pos 0))
  to_bool (list vs) = true
  to_bool (rows rs) = true
  to_bool (raw s) = true

  abbrev infinity_spellings : List Str
  infinity_spellings = codes "Infinity" ∷ codes "+Infinity" ∷ codes "inf" ∷ codes "+inf" ∷ []

  abbrev neg_infinity_spellings : List Str
  neg_infinity_spellings = codes "-Infinity" ∷ codes "-inf" ∷ []

  abbrev nan_spellings : List Str
  nan_spellings = codes "NaN" ∷ codes "nan" ∷ []

  is_spelled : List Str → Str → Bool
  is_spelled [] s = false
  is_spelled (t ∷ ts) s = str_eq t s || is_spelled ts s

  parsed_real : Str → Option F → Result F
  parsed_real s (some x) = ok x
  parsed_real s none = fail (codes "Cannot convert the string '" ++ (s ++ codes "' to a number."))

  unfoldable pub parse_invariant_double : Str → Result F
  unfolding is_spelled parsed_real
  parse_invariant_double s =
      let trimmed = trim s in
      if is_spelled infinity_spellings trimmed
      then ok floats.infinity
      else if is_spelled neg_infinity_spellings trimmed
      then ok floats.neg_infinity
      else if is_spelled nan_spellings trimmed
      then ok floats.nan
      else parsed_real s (floats.parse_f64 trimmed)

  bool_text : Bool → Str
  bool_text true = codes "true"
  bool_text false = codes "false"

  unfoldable pub describe : Val F → Result Str
  unfolding bool_text
  describe null = ok (codes "null")
  describe (boolean b) = ok (bool_text b)
  describe (text s) = ok s
  describe (int z) = ok (show_int z)
  describe (real x) = format_double floats x
  describe (list vs) = ok (codes "list")
  describe (rows rs) = ok (codes "list")
  describe (raw s) = ok s

  no_number : Val F → Result F
  unfolding describe
  no_number v = do
    described ← describe v
    fail (codes "Cannot convert '" ++ (described ++ codes "' to a number."))

  unfoldable pub to_double : Val F → Result F
  unfolding zero_real no_number
  to_double null = ok zero_real
  to_double (real x) = ok x
  to_double (int z) = ok (floats.from_int z)
  to_double (boolean true) = ok (floats.literal (codes "1.0"))
  to_double (boolean false) = ok zero_real
  to_double (text s) = parse_invariant_double s
  to_double (list vs) = no_number (list vs)
  to_double (rows rs) = no_number (rows rs)
  to_double (raw s) = no_number (raw s)

  or_zero : Option F → F
  unfolding zero_real
  or_zero (some x) = x
  or_zero none = zero_real

  number_val : Json → Option ℤ → Val F
  unfolding or_zero
  number_val j (some z) = int z
  number_val j none = real (or_zero (as_f64 floats j))

  unfoldable mutual
    unfolding number_val

    pub from_json_node : Json → Val F
    from_json_node Json.null = null
    from_json_node (Json.boolean b) = boolean b
    from_json_node (string s) = text s
    from_json_node (number s) = number_val (number s) (as_i64 (number s))
    from_json_node (array items) = list (from_json_nodes items)
    from_json_node (object map) = raw (ordered (object map))

    from_json_nodes : Items → Vals F
    from_json_nodes nil = no_vals
    from_json_nodes (cons x xs) = val (from_json_node x) (from_json_nodes xs)

  unfoldable mutual
    unfolding number_val

    pub from_json_element : Json → Result (Val F)
    from_json_element Json.null = ok null
    from_json_element (Json.boolean b) = ok (boolean b)
    from_json_element (string s) = ok (text s)
    from_json_element (number s) = ok (number_val (number s) (as_i64 (number s)))
    from_json_element (array items) = do vs ← from_json_elements items; ok (list vs)
    from_json_element (object map) =
        fail (codes "Nested JSON objects are not supported as answer values.")

    pub from_json_elements : Items → Result (Vals F)
    from_json_elements nil = ok no_vals
    from_json_elements (cons x xs) = do
      v ← from_json_element x
      vs ← from_json_elements xs
      ok (val v vs)

  raw_json : Result Json → Json
  raw_json (ok j) = j
  raw_json _ = Json.null

  -- `Json::double` panics where `format_double` does.
  unfoldable mutual
    unfolding raw_json

    pub to_json : Val F → Result Json
    to_json null = ok Json.null
    to_json (boolean b) = ok (Json.boolean b)
    to_json (text s) = ok (string s)
    to_json (int z) = ok (integer z)
    to_json (real x) = double floats x
    to_json (list vs) = do items ← to_items vs; ok (array items)
    to_json (rows rs) = do items ← rows_to_items rs; ok (array items)
    to_json (raw s) = ok (raw_json (parse s))

    pub to_items : Vals F → Result Items
    to_items no_vals = ok nil
    to_items (val v vs) = do j ← to_json v; items ← to_items vs; ok (cons j items)

    rows_to_items : RowList F → Result Items
    rows_to_items no_rows = ok nil
    rows_to_items (row r rs) = do
      map ← row_to_map r empty
      items ← rows_to_items rs
      ok (cons (object map) items)

    row_to_map : Row F → JsonMap → Result JsonMap
    row_to_map no_cells map = ok map
    row_to_map (cell key v r) map = do j ← to_json v; row_to_map r (insert map key j)
