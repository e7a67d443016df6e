-- ===== src/Hash.antt =====
-- src/hash.rs: the text that is hashed, and the hexadecimal form of the hash. SHA-256 is a parameter.
pub mod Payload
mod Tests
use Prim.Native.Nat.{◌/◌}
use colander.Prelude.{
  ℕ, ◌+◌, ◌-◌, ◌%◌, ◌^◌, Bool, true, false, Str, Bytes, List, [], ◌∷◌, ◌++◌, Option, none, some,
  ltb, if◌then◌else◌, codes, Result, ok, err, fail, ◌>>=◌,
}
use colander.Text.Utf8.{as_bytes}
use colander.Json.Stream.{ordered_stream}

labelled : Str → Result Str → Result Str
labelled label (ok text) = ok text
labelled label (err e) =
    fail (codes "JSON_PARSE_ERROR: Invalid " ++ (label ++ (codes " schema: " ++ e.message)))
labelled label Result.panic = Result.panic
labelled label Result.out_of_fuel = Result.out_of_fuel

unfoldable pub document : Str → Str → Result Str
unfolding labelled
document text label = labelled label (ordered_stream text)

-- `unwrap_or("null")`
or_null : Option Str → Str
or_null none = codes "null"
or_null (some text) = text

unfoldable pub payload : Str → Option Str → Option Str → Str
unfolding or_null
payload form ui rules =
    codes "{\"form\":"
    ++ (form
        ++ (codes ",\"ui\":"
            ++ (or_null ui ++ (codes ",\"rules\":" ++ (or_null rules ++ b'}' ∷ [])))))

optional_document : Option Str → Str → Result (Option Str)
optional_document none label = ok none
optional_document (some text) label = do doc ← document text label; ok (some doc)

unfoldable pub canonical_payload : Str → Option Str → Option Str → Result Str
unfolding optional_document
canonical_payload form_schema_json ui_schema_json rules_schema_json = do
  form ← document form_schema_json (codes "form")
  ui ← optional_document ui_schema_json (codes "ui")
  rules ← optional_document rules_schema_json (codes "rules")
  ok (payload form ui rules)

-- `char::from_digit(n, 16)` for a nibble
hex_char : ℕ → ℕ
hex_char n = if ltb n 10 then b'0' + n else b'a' + (n - 10)

module _ (sha256 : Bytes → Bytes) where
  hex : Bytes → Str
  unfolding hex_char
  hex [] = []
  hex (byte ∷ bytes) = hex_char (byte / 2 ^ 4) ∷ hex_char (byte % 16) ∷ hex bytes

  unfoldable pub sha256_hex : Bytes → Str
  unfolding hex
  sha256_hex bytes = hex (sha256 bytes)

  unfoldable pub content_hash : Str → Option Str → Option Str → Result Str
  content_hash form_schema_json ui_schema_json rules_schema_json = do
    text ← canonical_payload form_schema_json ui_schema_json rules_schema_json
    ok (sha256_hex (as_bytes text))

  unfoldable pub content_hash_from_canonical_documents : Str → Option Str → Option Str → Str
  content_hash_from_canonical_documents form_schema_json ui_schema_json rules_schema_json =
      sha256_hex (as_bytes (payload form_schema_json ui_schema_json rules_schema_json))
