-- ===== src/Codec/MessagePack/Reader.antt =====
-- src/codec/messagepack.rs: the decoder. `Input` is the reader's place in its bytes, and a loop is a
-- function on fuel, as in the JSON parser.
pub mod Total
pub mod Reads
pub mod Headers
pub mod Integers
pub mod RoundTrip
use colander.Prelude.{
  ℕ, zero, suc, ◌+◌, ◌-◌, ◌*◌, ◌^◌, Bool, true, false, ◌&&◌, ◌||◌, ◌==◌, leb, ltb, Str, Bytes, [],
  ◌∷◌, ◌++◌, Option, none, some, codes, length, take, drop, is_empty, Result, ok, err, fail,
  if◌then◌else◌,
}
use colander.Prelude.Int.{ℤ, pos, negsuc}
use colander.Text.Utf8.{Utf8, valid, invalid, from_utf8}
use colander.Text.Decimal.{show_nat}
use colander.Json.{
  Json, Items, JsonMap, null, boolean, number, string, array, object, nil, empty, push,
}
use colander.Json.Map.{insert}
use colander.Json.Access.{integer}
use colander.Json.Double.{double}
use colander.Json.Input.{Input, Parser, ◌>>=◌, ◌>>◌, pure, message_at}
use colander.Json.Parse.{max_depth, fuel_for, start, value_of}
use colander.Floats.{Floats}
use colander.Codec.Wire.{fold_bytes, from_bits}

-- the arms of the match on the tag of a value, with the bits that the tag itself holds
pub data Arm : Type 0 where
  known : Json → Arm
  refused : Str → Arm
  single double_width : Arm
  -- numbers and lengths of so many bytes
  unsigned signed : ℕ → Arm
  wide_unsigned : Arm
  text_of map_of array_of : ℕ → Arm
  long_text long_map long_array : ℕ → Arm

unfoldable pub text_tag : ℕ → Option Arm
text_tag tag =
    if leb 0xA0 tag && leb tag 0xBF
    then some (text_of (tag - 0xA0))
    else if tag == 0xD9
    then some (long_text 1)
    else if tag == 0xDA
    then some (long_text 2)
    else if tag == 0xDB
    then some (long_text 4)
    else none

number_tag : ℕ → Option Arm
number_tag tag =
    if leb tag 0x7F
    then some (known (integer (pos tag)))
    else if leb 0xE0 tag
    then some (known (integer (from_bits (2 ^ 8) tag)))
    else if tag == 0xCA
    then some single
    else if tag == 0xCB
    then some double_width
    else if tag == 0xCC
    then some (unsigned 1)
    else if tag == 0xCD
    then some (unsigned 2)
    else if tag == 0xCE
    then some (unsigned 4)
    else if tag == 0xCF
    then some wide_unsigned
    else if tag == 0xD0
    then some (signed 1)
    else if tag == 0xD1
    then some (signed 2)
    else if tag == 0xD2
    then some (signed 4)
    else if tag == 0xD3
    then some (signed 8)
    else none

container_tag : ℕ → Option Arm
container_tag tag =
    if leb 0x80 tag && leb tag 0x8F
    then some (map_of (tag - 0x80))
    else if leb 0x90 tag && leb tag 0x9F
    then some (array_of (tag - 0x90))
    else if tag == 0xDC
    then some (long_array 2)
    else if tag == 0xDD
    then some (long_array 4)
    else if tag == 0xDE
    then some (long_map 2)
    else if tag == 0xDF
    then some (long_map 4)
    else none

other_tag : ℕ → Arm
other_tag tag =
    if tag == 0xC0
    then known null
    else if tag == 0xC1
    then refused (codes "invalid MessagePack tag 0xC1")
    else if tag == 0xC2
    then known (boolean false)
    else if tag == 0xC3
    then known (boolean true)
    else if leb 0xC4 tag && leb tag 0xC6
    then refused (codes "MessagePack bin values are not supported")
    else refused (codes "MessagePack extension values are not supported")

or_else : Option Arm → Arm → Arm
or_else none a = a
or_else (some b) a = b

-- The arms do not overlap, so that their order is free.
unfoldable pub arm : ℕ → Arm
unfolding number_tag container_tag other_tag text_tag or_else
arm tag =
    or_else (number_tag tag) (or_else (text_tag tag) (or_else (container_tag tag) (other_tag tag)))

-- `what` names the document in the messages.
module _ (what : Str) where
  unfoldable pub error {ℓ} : {A : Type ℓ} → Str → Parser A
  error message i =
      fail (codes "Invalid " ++ (what ++ (codes ": " ++ message_at message i.position)))

  -- `usize` has 64 bits
  unfoldable pub take_bytes : ℕ → Parser Bytes
  unfolding error
  take_bytes len i =
      if leb (2 ^ 64) (i.position + len)
      then error (codes "length overflows the input") i
      else if ltb (length i.rest) len
      then error (codes "truncated input") i
      else ok (take len i.rest, record { rest = drop len i.rest; position = i.position + len })

  next_byte : Bytes → Parser ℕ
  unfolding error
  next_byte [] i = error (codes "unexpected end of input") i
  next_byte (b ∷ s) i = ok (b, record { rest = s; position = i.position + 1 })

  unfoldable pub read_u8 : Parser ℕ
  unfolding next_byte
  read_u8 i = next_byte i.rest i

  unfoldable pub read_uint : ℕ → Parser ℕ
  read_uint width = do slice ← take_bytes width; pure (fold_bytes 0 slice)

  utf8_text : Utf8 → Parser Str
  unfolding error
  utf8_text (valid s) = pure s
  utf8_text (invalid n) = error (codes "string is not valid UTF-8")

  unfoldable pub read_str : ℕ → Parser Str
  unfolding utf8_text
  read_str len = do slice ← take_bytes len; utf8_text (from_utf8 slice)

  read_long_str : ℕ → Parser Str
  read_long_str width = do len ← read_uint width; read_str len

  key_of : Option Arm → Parser Str
  unfolding read_long_str error
  key_of (some (text_of len)) = read_str len
  key_of (some (long_text width)) = read_long_str width
  key_of _ = error (codes "object key is not a string")

  unfoldable pub read_key : Parser Str
  unfolding key_of
  read_key = do tag ← read_u8; key_of (text_tag tag)

  lift {ℓ} : {A : Type ℓ} → Result A → Parser A
  lift (ok a) i = ok (a, i)
  lift (err e) i = err e
  lift Result.panic i = Result.panic
  lift Result.out_of_fuel i = Result.out_of_fuel

  -- `value as i64`, or the text of a value above it
  unsigned_number : ℕ → Json
  unsigned_number value =
      if ltb value (2 ^ 63) then integer (pos value) else number (show_nat value)

  module _ {F : Type 0} (floats : Floats F) where
    unfoldable pub read_arm : (ℕ → Parser Json) → (ℕ → Parser Json) → Arm → Parser Json
    unfolding error lift unsigned_number read_long_str
    read_arm items members (known v) = pure v
    read_arm items members (refused message) = error message
    read_arm items members single = do
      bits ← read_uint 4
      lift (double floats (floats.from_f32_bits bits))
    read_arm items members double_width = do
      bits ← read_uint 8
      lift (double floats (floats.from_bits bits))
    read_arm items members (unsigned width) = do value ← read_uint width; pure (integer (pos value))
    read_arm items members wide_unsigned = do value ← read_uint 8; pure (unsigned_number value)
    read_arm items members (signed width) = do
      value ← read_uint width
      pure (integer (from_bits (2 ^ (8 * width)) value))
    read_arm items members (text_of len) = do s ← read_str len; pure (string s)
    read_arm items members (long_text width) = do s ← read_long_str width; pure (string s)
    read_arm items members (array_of count) = items count
    read_arm items members (long_array width) = do count ← read_uint width; items count
    read_arm items members (map_of count) = members count
    read_arm items members (long_map width) = do count ← read_uint width; members count

    unfoldable pub tagged_value : ℕ → (ℕ → Parser Json) → (ℕ → Parser Json) → Parser Json
    unfolding error
    tagged_value depth items members i =
        if ltb max_depth depth
        then error (codes "MessagePack exceeds the maximum nesting depth") i
        else (do tag ← read_u8; read_arm items members (arm tag)) i

    unfoldable mutual
      pub read_value : ℕ → ℕ → Parser Json
      read_value zero depth i = Result.out_of_fuel
      read_value (suc f) depth i =
          tagged_value depth (λ count. read_array f depth count nil)
            (λ count. read_map f depth count empty) i

      -- `count` rounds of the loop in `read_array`
      pub read_array : ℕ → ℕ → ℕ → Items → Parser Json
      read_array f depth zero items i = ok (array items, i)
      read_array zero depth (suc count) items i = Result.out_of_fuel
      read_array (suc f) depth (suc count) items i =
          (do v ← read_value f (depth + 1); read_array f depth count (push items v)) i

      pub read_map : ℕ → ℕ → ℕ → JsonMap → Parser Json
      read_map f depth zero map i = ok (object map, i)
      read_map zero depth (suc count) map i = Result.out_of_fuel
      read_map (suc f) depth (suc count) map i =
          (do
            key ← read_key
            v ← read_value f (depth + 1)
            read_map f depth count (insert map key v))
            i

    at_end : Json → Parser Json
    unfolding error
    at_end v i =
        if is_empty i.rest then ok (v, i) else error (codes "trailing bytes after the value") i

    unfoldable pub read_document : ℕ → Parser Json
    unfolding at_end
    read_document fuel = do v ← read_value fuel 0; at_end v

-- `MessagePackCodec::decode`
unfoldable pub decode : {F : Type 0} → Floats F → Bytes → Str → Result Json
decode floats bytes what = value_of (read_document what floats (fuel_for bytes) (start bytes))
