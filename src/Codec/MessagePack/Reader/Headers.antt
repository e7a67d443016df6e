-- ===== src/Codec/MessagePack/Reader/Headers.antt =====
-- The headers and the integers of the encoder, as the reader takes them apart.
use colander.Prelude.{
  ℕ, ◌+◌, ◌^◌, ◌<◌, ◌≤◌, ◌≡◌, refl, leb, Str, Bytes, [], ◌∷◌, ◌++◌, arith, ◌⊎◌, inl, inr, some,
  none, Bool-cases, length, All,
}
use colander.Text.Utf8.{as_bytes}
use colander.Text.Utf8.RoundTrip.{IsScalar}
use colander.Json.{Json, string}
use colander.Json.Input.{Parser, ◌>>=◌}
use colander.Json.Parse.{max_depth}
use colander.Floats.{Floats}
use colander.Codec.Wire.{be_bytes, fold_bytes, fold-be_1, fold-be_2, fold-be_4}
use colander.Codec.MessagePack.{string_header, array_header, map_header, write_string}
use colander.Codec.MessagePack.Reader.{
  Arm, text_of, map_of, array_of, long_text, long_map, long_array, arm, text_tag, number_tag,
  container_tag, or_else, key_of, read_key, read_u8, read_arm, read_long_str, read_uint, read_str,
  tagged_value,
}
use colander.Codec.MessagePack.Reader.Reads.{
  Reads, Reads-bind, Reads-pure, Reads-uint, Reads-str, Reads-u8, Reads-tagged,
}

-- A header is a tag that holds the length `len`, or a tag and the bytes of the length.
abbrev Header : (ℕ → Arm) → (ℕ → Arm) → (ℕ → Arm → Type 0) → ℕ → Bytes → Type 0
Header direct long Tags len header =
    (tag : ℕ) × (((header ≡ tag ∷ []) × Tags tag (direct len))
      ⊎ ((width : ℕ) × (header ≡ tag ∷ be_bytes width len)
          × Tags tag (long width)
          × (fold_bytes 0 (be_bytes width len) ≡ len)))

abbrev HasArm : ℕ → Arm → Type 0
HasArm tag a = arm tag ≡ a

-- of a string, which may be a key
abbrev HasTextArm : ℕ → Arm → Type 0
HasTextArm tag a = (arm tag ≡ a) × (text_tag tag ≡ some a)

short_text_tag : (len : ℕ) → len ≤ 31 → text_tag (0xA0 + len) ≡ some (text_of len)
unfolding text_tag
short_text_tag len h = ground arith

short_text_number : (len : ℕ) → len ≤ 31 → number_tag (0xA0 + len) ≡ none
unfolding number_tag
short_text_number len h = ground arith

short_text_arm : (len : ℕ) → len ≤ 31 → arm (0xA0 + len) ≡ text_of len
unfolding arm or_else
short_text_arm len h = rw (short_text_number len h, short_text_tag len h) refl

short_array_arm : (len : ℕ) → len ≤ 15 → arm (0x90 + len) ≡ array_of len
unfolding arm or_else number_tag text_tag container_tag
short_array_arm len h = ground arith

short_map_arm : (len : ℕ) → len ≤ 15 → arm (0x80 + len) ≡ map_of len
unfolding arm or_else number_tag text_tag container_tag
short_map_arm len h = ground arith

string_header-Header :
    (len : ℕ) → len < 2 ^ 32 → Header text_of long_text HasTextArm len (string_header len)
unfolding string_header arm text_tag
string_header-Header len h = elim (Bool-cases (leb len 31)) [
  | inl p ↦ (
    0xA0 + len,
    inl (rw p refl, (short_text_arm len (ground arith), short_text_tag len (ground arith))),
  )
  | inr p ↦ elim (Bool-cases (leb len 0xFF)) [
    | inl q ↦ (0xD9, inr (1, rw (p, q) refl, (refl, refl), fold-be_1 len (ground arith)))
    | inr q ↦ elim (Bool-cases (leb len 0xFFFF)) [
      | inl r ↦ (0xDA, inr (2, rw (p, q, r) refl, (refl, refl), fold-be_2 len (ground arith)))
      | inr r ↦ (0xDB, inr (4, rw (p, q, r) refl, (refl, refl), fold-be_4 len h))
    ]
  ]
]

pub array_header-Header :
    (len : ℕ) → len < 2 ^ 32 → Header array_of long_array HasArm len (array_header len)
unfolding array_header arm
array_header-Header len h = elim (Bool-cases (leb len 15)) [
  | inl p ↦ (0x90 + len, inl (rw p refl, short_array_arm len (ground arith)))
  | inr p ↦ elim (Bool-cases (leb len 0xFFFF)) [
    | inl q ↦ (0xDC, inr (2, rw (p, q) refl, refl, fold-be_2 len (ground arith)))
    | inr q ↦ (0xDD, inr (4, rw (p, q) refl, refl, fold-be_4 len h))
  ]
]

pub map_header-Header :
    (len : ℕ) → len < 2 ^ 32 → Header map_of long_map HasArm len (map_header len)
unfolding map_header arm
map_header-Header len h = elim (Bool-cases (leb len 15)) [
  | inl p ↦ (0x80 + len, inl (rw p refl, short_map_arm len (ground arith)))
  | inr p ↦ elim (Bool-cases (leb len 0xFFFF)) [
    | inl q ↦ (0xDE, inr (2, rw (p, q) refl, refl, fold-be_2 len (ground arith)))
    | inr q ↦ (0xDF, inr (4, rw (p, q) refl, refl, fold-be_4 len h))
  ]
]

-- Strings that the wire format has room for.
abbrev pub IsText : Str → Type 0
IsText s = All IsScalar s × (length (as_bytes s) < 2 ^ 32)

module _ (what : Str) where
  Reads-long_str :
      (width : ℕ) (s : Str)
      → All IsScalar s
      → fold_bytes 0 (be_bytes width (length (as_bytes s))) ≡ length (as_bytes s)
      → Reads (read_long_str what width) (be_bytes width (length (as_bytes s)) ++ as_bytes s) s
  unfolding read_long_str
  Reads-long_str width s h e =
      let len = length (as_bytes s) in
      Reads-bind (read_uint what width) (read_str what) (be_bytes width len) (as_bytes s) len s
        (Reads-uint what width len e) (Reads-str what s h)

  pub Reads-key : (s : Str) → IsText s → Reads (read_key what) (write_string s) s
  unfolding read_key key_of write_string
  Reads-key s (scalar, room) =
      let (tag, h) = string_header-Header (length (as_bytes s)) room in
      elim h [
        | inl (e, (a, t)) ↦ rw e (
            Reads-bind (read_u8 what) _ (tag ∷ []) (as_bytes s) tag s (Reads-u8 what tag)
              (rw t (Reads-str what s scalar)))
        | inr (width, e, (a, t), f) ↦ rw e (
            Reads-bind (read_u8 what) _ (tag ∷ []) _ tag s (Reads-u8 what tag)
              (rw t (Reads-long_str width s scalar f)))
      ]

  module _ {F : Type 0} (floats : Floats F) (depth : ℕ) (items members : ℕ → Parser Json)
      (shallow : depth ≤ max_depth) where
    pub Reads-string :
        (s : Str)
        → IsText s
        → Reads (tagged_value what floats depth items members) (write_string s) (string s)
    unfolding read_arm write_string
    Reads-string s (scalar, room) =
        let (tag, h) = string_header-Header (length (as_bytes s)) room in
        elim h [
          | inl (e, (a, t)) ↦ rw e (
              Reads-tagged what floats depth items members tag (as_bytes s) (string s) shallow a (
                Reads-pure (read_str what (length (as_bytes s))) string (as_bytes s) s
                  (Reads-str what s scalar)))
          | inr (width, e, (a, t), f) ↦ rw e (
              Reads-tagged what floats depth items members tag _ (string s) shallow a (
                Reads-pure (read_long_str what width) string _ s (Reads-long_str width s scalar f)))
        ]

    -- an array or an object, whose arms read the length and then run a loop
    Reads-container :
        (direct long : ℕ → Arm) (loop : ℕ → Parser Json) (len : ℕ) (header payload : Bytes)
        (v : Json)
        → ((n : ℕ) → read_arm what floats items members (direct n) ≡ loop n)
        → ((width : ℕ)
            → read_arm what floats items members (long width) ≡ (read_uint what width >>= loop))
        → Header direct long HasArm len header
        → Reads (loop len) payload v
        → Reads (tagged_value what floats depth items members) (header ++ payload) v
    Reads-container direct long loop len header payload v hd hl hh hp =
        let (tag, h) = hh in
        elim h [
          | inl (e, a) ↦ rw e (
              Reads-tagged what floats depth items members tag payload v shallow a (rw (hd len) hp))
          | inr (width, e, a, f) ↦ rw e (
              Reads-tagged what floats depth items members tag _ v shallow a (
                rw (hl width) (
                  Reads-bind (read_uint what width) loop (be_bytes width len) payload len v
                    (Reads-uint what width len f) hp)))
        ]

    pub Reads-array :
        (len : ℕ) (payload : Bytes) (v : Json)
        → len < 2 ^ 32
        → Reads (items len) payload v
        → Reads (tagged_value what floats depth items members) (array_header len ++ payload) v
    unfolding read_arm
    Reads-array len payload v room hp =
        Reads-container array_of long_array items len _ payload v (λ n. refl) (λ w. refl)
          (array_header-Header len room) hp

    pub Reads-map :
        (len : ℕ) (payload : Bytes) (v : Json)
        → len < 2 ^ 32
        → Reads (members len) payload v
        → Reads (tagged_value what floats depth items members) (map_header len ++ payload) v
    unfolding read_arm
    Reads-map len payload v room hp =
        Reads-container map_of long_map members len _ payload v (λ n. refl) (λ w. refl)
          (map_header-Header len room) hp
