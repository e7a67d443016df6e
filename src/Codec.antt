-- ===== src/Codec.antt =====
-- src/codec.rs: the seam between a document and its bytes, and its JSON implementation
-- (src/codec/json.rs).
pub mod Wire
pub mod MessagePack
mod Tests
use colander.Prelude.{Str, Bytes, ◌++◌, codes, Result, ok, err, fail}
use colander.Text.Utf8.{Utf8, valid, invalid, from_utf8, as_bytes}
use colander.Json.{Json}
use colander.Json.Write.{canonical, ordered}
use colander.Json.Parse.{parse}

-- `trait Codec`; an encoding is its bytes (`AsRef<[u8]>`)
pub record Codec : Type 0 where
  pub name : Str
  pub decode : Bytes → Str → Result Json
  pub encode_canonical : Json → Bytes
  pub encode_ordered : Json → Bytes

parse_error : Str → Result Json → Result Json
parse_error what (ok v) = ok v
parse_error what (err e) =
    fail (codes "JSON_PARSE_ERROR: Invalid " ++ (what ++ (codes ": " ++ e.message)))
parse_error what Result.panic = Result.panic
parse_error what Result.out_of_fuel = Result.out_of_fuel

decode_text : Str → Utf8 → Result Json
unfolding parse_error
decode_text what (valid text) = parse_error what (parse text)
decode_text what (invalid n) =
    fail (codes "INVALID_UTF8: " ++ (what ++ codes " is not valid UTF-8"))

-- `impl Codec for JsonCodec`
unfoldable pub json_codec : Codec
unfolding decode_text
json_codec = record {
  name = codes "json";
  decode = λ bytes what. decode_text what (from_utf8 bytes);
  encode_canonical = λ node. as_bytes (canonical node);
  encode_ordered = λ node. as_bytes (ordered node);
}
