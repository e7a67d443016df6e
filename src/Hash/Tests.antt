-- ===== src/Hash/Tests.antt =====
-- Runs of src/hash.rs, with a checksum of one byte in the place of SHA-256.
use colander.Prelude.{ℕ, ◌+◌, ◌%◌, ◌≡◌, refl, Str, Bytes, [], ◌∷◌, none, some, codes, ok, str_eq}
use colander.Json.{Json, null, number, array, object, nil, cons, empty, entry, push}
use colander.Json.Map.{insert}
use colander.Json.Input.{skip, expect, read_literal, require}
use colander.Json.Numbers.{scan_number}
use colander.Json.Strings.{
  read_string, parse_string, parse_escape, sink_push_str, sink_push_char, at_stop,
}
use colander.Json.Parse.{
  parse, parse_value, guarded_value, lead, enter, member_round, item_round, after_value,
}
use colander.Json.Write.{ordered}
use colander.Text.Utf8.{as_bytes, from_utf8}
use colander.Hash.{sha256_hex, content_hash}
use colander.Hash.Payload.{absent, present, whole, content_hash-ordered}

checksum : Bytes → ℕ
checksum [] = 0
checksum (byte ∷ bytes) = (byte + checksum bytes) % 256

one_byte : Bytes → Bytes
one_byte bytes = checksum bytes ∷ []

abbrev form_text : Str
form_text = codes " {\"a\" : [1.50]}"

abbrev form : Json
form = object (entry (codes "a") (array (cons (number (codes "1.50")) nil)) empty)

form_run : parse form_text ≡ ok form
unfolding parse parse_value guarded_value lead enter member_round item_round after_value skip expect
    read_literal scan_number as_bytes from_utf8 parse_string read_string at_stop parse_escape
    sink_push_str sink_push_char insert push str_eq require
form_run = refl

rules_run : parse (codes "[ ]") ≡ ok (array nil)
unfolding parse parse_value guarded_value lead enter member_round item_round after_value skip expect
    read_literal scan_number as_bytes from_utf8 parse_string read_string at_stop parse_escape
    sink_push_str sink_push_char insert push str_eq require
rules_run = refl

content_hash-ordered_example :
    content_hash one_byte form_text none (some (codes "[ ]"))
    ≡ ok (sha256_hex one_byte (as_bytes (ordered (whole form null (array nil)))))
content_hash-ordered_example =
    content_hash-ordered one_byte form_text none (some (codes "[ ]")) form null (array nil) form_run
      absent (present rules_run)
