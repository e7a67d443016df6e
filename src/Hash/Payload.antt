-- ===== src/Hash/Payload.antt =====
-- What is hashed is the document of the three parts (src/hash.rs).
use colander.Prelude.{
  ◌≡◌, refl, ap, Str, Bytes, [], ◌∷◌, ◌++◌, Option, none, some, codes, ok, append_assoc, append-nil,
}
use colander.Text.Utf8.{as_bytes}
use colander.Json.{Json, null, object, empty, entry}
use colander.Json.Escape.{write_string, write_string_body, is_unescaped}
use colander.Json.Write.{ordered}
use colander.Json.Parse.{parse}
use colander.Json.Stream.Correct.{ordered_stream-parse}
use colander.Hash.{
  labelled, document, or_null, payload, optional_document, canonical_payload, sha256_hex,
  content_hash,
}

-- The value of an optional text: `null` where there is none.
pub data Reads : Option Str → Json → Type 0 where
  absent : Reads none null
  present : {text : Str} {j : Json} → parse text ≡ ok j → Reads (some text) j

document-parse :
    (text label : Str) (j : Json) → parse text ≡ ok j → document text label ≡ ok (ordered j)
unfolding document labelled
document-parse text label j e = rw (ordered_stream-parse text, e) refl

optional-Reads :
    {o : Option Str} {j : Json} (label : Str)
    → Reads o j
    → (doc : Option Str) × (optional_document o label ≡ ok doc) × (or_null doc ≡ ordered j)
unfolding optional_document or_null ordered
optional-Reads label absent = (none, refl, refl)
optional-Reads label (present {text} {j} e) =
    (some (ordered j), rw (document-parse text label j e) refl, refl)

abbrev pub whole : Json → Json → Json → Json
whole f u r = object (entry (codes "form") f (entry (codes "ui") u (entry (codes "rules") r empty)))

payload-ordered :
    (form : Json) (ui rules : Option Str) (u r : Json)
    → or_null ui ≡ ordered u
    → or_null rules ≡ ordered r
    → payload (ordered form) ui rules ≡ ordered (whole form u r)
unfolding payload ordered write_string write_string_body is_unescaped
payload-ordered form ui rules u r e q =
    rw (e, q)
      (ap (λ (s : Str). codes "{\"form\":" ++ s)
        (joined (ordered form) (ordered u) (ordered r) (codes ",\"ui\":") (codes ",\"rules\":")
          (b'}' ∷ [])))
  where
    joined :
        (f u r a b c : Str)
        → f ++ (a ++ (u ++ (b ++ (r ++ c)))) ≡ (f ++ (a ++ (u ++ (b ++ (r ++ []))))) ++ c
    joined f u r a b c = simp (append_assoc, append-nil)

-- A form that parses, with an interface and rules that parse or are absent, is hashed as the bytes of
-- the ordered document of the object with the three values, where an absent one is null.
pub content_hash-ordered :
    (sha256 : Bytes → Bytes) (form_text : Str) (ui_text rules_text : Option Str)
    (form ui rules : Json)
    → parse form_text ≡ ok form
    → Reads ui_text ui
    → Reads rules_text rules
    → content_hash sha256 form_text ui_text rules_text
      ≡ ok (sha256_hex sha256 (as_bytes (ordered (whole form ui rules))))
unfolding content_hash canonical_payload
content_hash-ordered sha256 form_text ui_text rules_text form ui rules e reads reads' =
    let (u, eu, qu) = optional-Reads (codes "ui") reads in
    let (r, er, qr) = optional-Reads (codes "rules") reads' in
    rw
      (
        document-parse form_text (codes "form") form e,
        eu,
        er,
        payload-ordered form u r ui rules qu qr,
      )
      refl
