-- ===== src/Json/Access.antt =====
-- The accessors of src/json.rs; those of floating point numbers take the parser of the standard
-- library.
pub mod Integers
use colander.Prelude.{
  ℕ, ◌^◌, ◌-◌, ◌==◌, ◌||◌, ◌&&◌, Bool, true, false, Str, Option, none, some, any, codes,
  if◌then◌else◌,
}
use colander.Prelude.Int.{ℤ, pos, negsuc, ltb_ℤ, leb_ℤ}
use colander.Text.Decimal.{parse_i64, show_int}
use colander.Json.{Json, Items, JsonMap, null, boolean, number, string, array, object}
use colander.Floats.{Floats}
use colander.Json.Map.{get}

infixl 5 ◌and_then◌
abbrev ◌and_then◌ {ℓ κ} : {A : Type ℓ} {B : Type κ} → Option A → (A → Option B) → Option B
none and_then f = none
some a and_then f = f a

unfoldable pub as_object : Json → Option JsonMap
as_object (object m) = some m
as_object _ = none

unfoldable pub as_array : Json → Option Items
as_array (array xs) = some xs
as_array _ = none

unfoldable pub as_str : Json → Option Str
as_str (string s) = some s
as_str _ = none

unfoldable pub as_bool : Json → Option Bool
as_bool (boolean b) = some b
as_bool _ = none

unfoldable pub as_number_text : Json → Option Str
as_number_text (number s) = some s
as_number_text _ = none

unfoldable pub is_null : Json → Bool
is_null null = true
is_null _ = false

is_float_mark : ℕ → Bool
is_float_mark c = c == b'.' || (c == b'e' || c == b'E')

integer_of : Str → Option ℤ
unfolding is_float_mark
integer_of text = if any is_float_mark text then none else parse_i64 text

-- `Json::integer`
unfoldable pub integer : ℤ → Json
integer z = number (show_int z)

unfoldable pub as_i64 : Json → Option ℤ
unfolding as_number_text integer_of
as_i64 j = as_number_text j and_then integer_of

unfoldable pub type_name : Json → Str
type_name null = codes "null"
type_name (boolean b) = codes "boolean"
type_name (number s) = codes "number"
type_name (string s) = codes "string"
type_name (array xs) = codes "array"
type_name (object m) = codes "object"

unfoldable pub get_str : JsonMap → Str → Option Str
unfolding as_str
get_str m key = get m key and_then as_str

unfoldable pub get_bool : JsonMap → Str → Option Bool
unfolding as_bool
get_bool m key = get m key and_then as_bool

unfoldable pub get_i64 : JsonMap → Str → Option ℤ
unfolding as_i64
get_i64 m key = get m key and_then as_i64

-- `i32::try_from`
narrow_i32 : ℤ → Option ℤ
narrow_i32 z = if leb_ℤ (negsuc (2 ^ 31 - 1)) z && ltb_ℤ z (pos (2 ^ 31)) then some z else none

unfoldable pub get_i32 : JsonMap → Str → Option ℤ
unfolding get_i64 narrow_i32
get_i32 m key = get_i64 m key and_then narrow_i32

unfoldable pub get_array : JsonMap → Str → Option Items
unfolding as_array
get_array m key = get m key and_then as_array

unfoldable pub get_object : JsonMap → Str → Option JsonMap
unfolding as_object
get_object m key = get m key and_then as_object

module _ {F : Type 0} (floats : Floats F) where
  unfoldable pub as_f64 : Json → Option F
  unfolding as_number_text
  as_f64 j = as_number_text j and_then floats.parse_f64

  unfoldable pub get_f64 : JsonMap → Str → Option F
  get_f64 m key = get m key and_then as_f64
