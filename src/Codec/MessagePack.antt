-- ===== src/Codec/MessagePack.antt =====
-- src/codec/messagepack.rs: the encoder. What is appended to `out` is the value of a function.
pub mod Reader
pub mod Lengths
use colander.Prelude.{
  ℕ, ◌+◌, ◌-◌, ◌^◌, ◌<◌, Bool, true, false, ◌&&◌, Str, Bytes, List, [], ◌∷◌, ◌++◌, Option, none,
  some, leb, length, if◌then◌else◌,
}
use colander.Prelude.Int.{ℤ, pos, negsuc, leb_ℤ}
use colander.Text.Utf8.{as_bytes}
use colander.Text.Decimal.{parse_i64, parse_u64}
use colander.Json.{
  Json, Items, JsonMap, null, boolean, number, string, array, object, nil, cons, empty, entry,
  items_length,
}
use colander.Json.Map.{map_length}
use colander.Json.Write.{sort_by_key}
use colander.Floats.{Floats}
use colander.Codec.Wire.{be_bytes, to_bits}

-- `(lo..=hi).contains(&value)`
abbrev within : ℤ → ℤ → ℤ → Bool
within lo hi z = leb_ℤ lo z && leb_ℤ z hi

unfoldable pub write_int : ℤ → Bytes
write_int value =
    if within (negsuc 31) (pos 0x7F) value
    then be_bytes 1 (to_bits (2 ^ 8) value)
    else if within (negsuc 127) (negsuc 32) value
    then 0xD0 ∷ be_bytes 1 (to_bits (2 ^ 8) value)
    else if within (negsuc 32767) (pos 32767) value
    then 0xD1 ∷ be_bytes 2 (to_bits (2 ^ 16) value)
    else if within (negsuc (2 ^ 31 - 1)) (pos (2 ^ 31 - 1)) value
    then 0xD2 ∷ be_bytes 4 (to_bits (2 ^ 32) value)
    else 0xD3 ∷ be_bytes 8 (to_bits (2 ^ 64) value)

-- The three headers; `0xA0 | len` adds, since the bits are apart.
unfoldable pub string_header : ℕ → Bytes
string_header len =
    if leb len 31
    then (0xA0 + len) ∷ []
    else if leb len 0xFF
    then 0xD9 ∷ be_bytes 1 len
    else if leb len 0xFFFF
    then 0xDA ∷ be_bytes 2 len
    else 0xDB ∷ be_bytes 4 len

unfoldable pub write_string : Str → Bytes
write_string value = string_header (length (as_bytes value)) ++ as_bytes value

unfoldable pub array_header : ℕ → Bytes
array_header len =
    if leb len 15
    then (0x90 + len) ∷ []
    else if leb len 0xFFFF
    then 0xDC ∷ be_bytes 2 len
    else 0xDD ∷ be_bytes 4 len

unfoldable pub map_header : ℕ → Bytes
map_header len =
    if leb len 15
    then (0x80 + len) ∷ []
    else if leb len 0xFFFF
    then 0xDE ∷ be_bytes 2 len
    else 0xDF ∷ be_bytes 4 len

-- the entries of an object, each value encoded already
abbrev Encoded : Type 0
Encoded = Str × Bytes

unfoldable pub join_encoded : List Encoded → Bytes
join_encoded [] = []
join_encoded ((key, bytes) ∷ rest) = write_string key ++ (bytes ++ join_encoded rest)

in_order : Bool → List Encoded → List Encoded
in_order true entries = sort_by_key (λ (e : Encoded). e.0) entries
in_order false entries = entries

module _ {F : Type 0} (floats : Floats F) where
  as_float : Option F → Bytes
  as_float (some value) = 0xCB ∷ be_bytes 8 (floats.to_bits value)
  as_float none = 0xC0 ∷ []

  as_unsigned : Str → Option ℕ → Bytes
  unfolding as_float
  as_unsigned text (some value) = 0xCF ∷ be_bytes 8 value
  as_unsigned text none = as_float (floats.parse_f64 text)

  as_signed : Str → Option ℤ → Bytes
  unfolding as_unsigned
  as_signed text (some value) = write_int value
  as_signed text none = as_unsigned text (parse_u64 text)

  unfoldable pub write_number : Str → Bytes
  unfolding as_signed
  write_number text = as_signed text (parse_i64 text)

  unfoldable mutual
    unfolding in_order

    -- `sorted` asks for the keys in byte order
    pub write_value : Json → Bool → Bytes
    write_value null sorted = 0xC0 ∷ []
    write_value (boolean false) sorted = 0xC2 ∷ []
    write_value (boolean true) sorted = 0xC3 ∷ []
    write_value (number text) sorted = write_number text
    write_value (string text) sorted = write_string text
    write_value (array items) sorted = array_header (items_length items) ++ write_items items sorted
    write_value (object map) sorted =
        map_header (map_length map) ++ join_encoded (in_order sorted (encoded_entries map sorted))

    pub write_items : Items → Bool → Bytes
    write_items nil sorted = []
    write_items (cons item rest) sorted = write_value item sorted ++ write_items rest sorted

    pub encoded_entries : JsonMap → Bool → List Encoded
    encoded_entries empty sorted = []
    encoded_entries (entry key value rest) sorted =
        (key, write_value value sorted) ∷ encoded_entries rest sorted

  unfoldable pub encode_canonical : Json → Bytes
  encode_canonical node = write_value node true

  unfoldable pub encode_ordered : Json → Bytes
  encode_ordered node = write_value node false
