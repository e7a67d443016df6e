-- ===== src/Codec/Tests.antt =====
-- Concrete documents for the theorems on src/codec.rs.
use colander.Prelude.{
  ℕ, ◌^◌, ◌≡◌, refl, true, false, Bytes, [], ◌∷◌, arith, ok, codes, inl, inr, str_eq, ◌==◌,
  Bool-cases,
}
use colander.Prelude.Int.{pos, negsuc}
use colander.Text.Decimal.{show_int, parse_int}
use colander.Text.Trim.{split_once, trim_start_matches}
use colander.Text.Utf8.{as_bytes}
use colander.Json.{
  Json, null, boolean, number, string, array, object, nil, cons, empty, entry, items_length,
}
use colander.Json.Map.{contains_key, map_length, append_entry}
use colander.Json.Parse.Total.{Settles}
use colander.Json.Double.{without_dots}
use colander.Json.Double.Digits.{PrintsAsDigits}
use colander.Floats.Samples.{halves, halves_or_nan}
use colander.Codec.MessagePack.{
  encode_ordered, string_header, write_value, map_header, join_encoded, write_string, array_header,
  write_number, write_int,
}
use colander.Codec.Wire.{be_bytes}
use colander.Codec.MessagePack.Reader.{decode}
use colander.Codec.MessagePack.Reader.Total.{decode-Settles}
use colander.Codec.MessagePack.Reader.RoundTrip.{FitsWire, decode-encode_ordered}

finite_prints : (x : ℕ) → halves_or_nan.is_finite x ≡ true → PrintsAsDigits halves_or_nan x
unfolding split_once parse_int trim_start_matches without_dots
finite_prints x h = elim (Bool-cases (x == 7)) [
  | inl nan ↦ absurd (not_finite (rw nan at h))
  | inr other ↦ record {
    mantissa = codes "1";
    exponent_text = codes "0";
    exponent = pos 0;
    has_exponent = rw other refl;
    is_number = refl;
    has_digits = λ h. cc;
  }
]
  where
    not_finite : false ≡ true → ⊥
    not_finite q = cc

-- a NaN, an integer of two bytes, and a string that is cut short
abbrev cut_short : Bytes
cut_short = 0x93 ∷ 0xCB ∷ 0 ∷ 0 ∷ 0 ∷ 0 ∷ 0 ∷ 0 ∷ 0 ∷ 7 ∷ 0xD0 ∷ 0x80 ∷ 0xA2 ∷ 0x61 ∷ []

decode-Settles_example : Settles (decode halves_or_nan cut_short (codes "form"))
decode-Settles_example = decode-Settles halves_or_nan finite_prints cut_short (codes "form")

abbrev document : Json
document = object (
    entry (codes "a")
      (array (
        cons (number (codes "1"))
          (cons (number (codes "-40")) (cons (boolean true) (cons null nil)))))
      (entry (codes "b") (string (0xE9 ∷ [])) empty))

document-FitsWire : FitsWire 0 document
unfolding FitsWire items_length map_length contains_key show_int as_bytes append_entry str_eq
document-FitsWire = (
  omega arith,
  omega arith,
  (
    ((refl, tt), omega arith),
    refl,
    (
      omega arith,
      omega arith,
      (
        (omega arith, inl (pos 1, omega arith, refl)),
        ((omega arith, inl (negsuc 39, omega arith, refl)), (omega arith, (omega arith, tt))),
      ),
    ),
    (((refl, tt), omega arith), refl, (omega arith, ((refl, tt), omega arith)), tt),
  ),
)

decode-encode_ordered_example :
    decode halves (encode_ordered halves document) (codes "form") ≡ ok document
unfolding encode_ordered as_bytes items_length map_length parse_int show_int write_value map_header
    join_encoded write_string string_header array_header write_number write_int be_bytes
decode-encode_ordered_example =
    decode-encode_ordered halves document (codes "form") document-FitsWire (omega arith)

-- the length of a string of 4 GiB does not fit the header
long_header : string_header (2 ^ 32) ≡ 0xDB ∷ 0 ∷ 0 ∷ 0 ∷ 0 ∷ []
unfolding string_header be_bytes
long_header = refl
