-- ===== src/Codec/MessagePack/Lengths.antt =====
-- Every encoding has at least one byte.
use colander.Prelude.{
  ℕ, ◌^◌, ◌<◌, Bool, true, false, Str, Bytes, ◌++◌, arith, length, length-append, Option, none,
  some,
}
use colander.Prelude.Int.{ℤ}
use colander.Text.Utf8.{as_bytes}
use colander.Text.Decimal.{parse_i64, parse_u64}
use colander.Json.{Json, null, boolean, number, string, array, object, items_length}
use colander.Json.Map.{map_length}
use colander.Floats.{Floats}
use colander.Codec.Wire.{to_bits, length-be_bytes}
use colander.Codec.MessagePack.{
  write_value, write_string, string_header, array_header, map_header, write_number, write_int,
  as_float, as_unsigned, as_signed,
}

write_int-pos : (z : ℤ) → 0 < length (write_int z)
unfolding write_int
write_int-pos z = ground (arith, length-be_bytes 1 (to_bits (2 ^ 8) z))

string_header-pos : (n : ℕ) → 0 < length (string_header n)
unfolding string_header
string_header-pos n = ground arith

pub array_header-pos : (n : ℕ) → 0 < length (array_header n)
unfolding array_header
array_header-pos n = ground arith

pub map_header-pos : (n : ℕ) → 0 < length (map_header n)
unfolding map_header
map_header-pos n = ground arith

length-front : (s t : Bytes) → 0 < length s → 0 < length (s ++ t)
length-front s t h = omega (arith, length-append s t)

module _ {F : Type 0} (floats : Floats F) where
  as_float-pos : (o : Option F) → 0 < length (as_float floats o)
  unfolding as_float
  as_float-pos none = omega arith
  as_float-pos (some v) = omega arith

  as_unsigned-pos : (text : Str) (o : Option ℕ) → 0 < length (as_unsigned floats text o)
  unfolding as_unsigned
  as_unsigned-pos text none = as_float-pos (floats.parse_f64 text)
  as_unsigned-pos text (some v) = omega arith

  as_signed-pos : (text : Str) (o : Option ℤ) → 0 < length (as_signed floats text o)
  unfolding as_signed
  as_signed-pos text none = as_unsigned-pos text (parse_u64 text)
  as_signed-pos text (some z) = write_int-pos z

  pub write_value-pos : (j : Json) (sorted : Bool) → 0 < length (write_value floats j sorted)
  unfolding write_value write_number write_string
  write_value-pos null sorted = omega arith
  write_value-pos (boolean false) sorted = omega arith
  write_value-pos (boolean true) sorted = omega arith
  write_value-pos (number text) sorted = as_signed-pos text (parse_i64 text)
  write_value-pos (string s) sorted = length-front _ _ (string_header-pos (length (as_bytes s)))
  write_value-pos (array items) sorted = length-front _ _ (array_header-pos (items_length items))
  write_value-pos (object map) sorted = length-front _ _ (map_header-pos (map_length map))
