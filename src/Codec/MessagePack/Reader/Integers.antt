-- ===== src/Codec/MessagePack/Reader/Integers.antt =====
-- The integers of the encoder, as the reader reads them.
use colander.Prelude.{
  ℕ, ◌-◌, ◌*◌, ◌^◌, ◌<◌, ◌≤◌, ◌≡◌, refl, true, Str, [], ◌∷◌, arith, inl, inr, ◌⊎◌, Bool-cases,
  subst,
}
use colander.Prelude.Int.{ℤ, pos, negsuc}
use colander.Text.Decimal.{show_nat, show_int}
use colander.Text.Decimal.Ranges.{parse_int-show_nat_above, parse_nat-show_nat}
use colander.Json.{Json, number}
use colander.Json.Access.{integer}
use colander.Json.Access.Integers.{parse_i64-show_int}
use colander.Json.Input.{Parser}
use colander.Json.Parse.{max_depth}
use colander.Floats.{Floats}
use colander.Codec.Wire.{
  be_bytes, fold_bytes, fold-be_1, fold-be_2, fold-be_4, fold-be_8, Fits, to_bits, from_bits,
  from_bits-to_bits_8, from_bits-to_bits_16, from_bits-to_bits_32, from_bits-to_bits_64,
}
use colander.Codec.MessagePack.{write_int, within, write_number, as_signed, as_unsigned}
use colander.Codec.MessagePack.Reader.{
  known, signed, wide_unsigned, arm, number_tag, or_else, read_arm, read_uint, tagged_value,
  unsigned_number,
}
use colander.Codec.MessagePack.Reader.Reads.{Reads, Reads-nil, Reads-pure, Reads-uint, Reads-tagged}

-- The number texts that the wire format keeps: the prints of the `i64` and `u64` values.
abbrev pub IsWhole : Str → Type 0
IsWhole text =
    ((z : ℤ) × Fits (2 ^ 64) z × (text ≡ show_int z))
    ⊎ ((n : ℕ) × (2 ^ 63 ≤ n) × (n < 2 ^ 64) × (text ≡ show_nat n))

to_bits-low_8 : (z : ℤ) → to_bits (2 ^ 8) z < 2 ^ 8
unfolding to_bits
to_bits-low_8 z = ground arith

to_bits-low_16 : (z : ℤ) → to_bits (2 ^ 16) z < 2 ^ 16
unfolding to_bits
to_bits-low_16 z = ground arith

to_bits-low_32 : (z : ℤ) → to_bits (2 ^ 32) z < 2 ^ 32
unfolding to_bits
to_bits-low_32 z = ground arith

to_bits-low_64 : (z : ℤ) → to_bits (2 ^ 64) z < 2 ^ 64
unfolding to_bits
to_bits-low_64 z = ground arith

-- the tag of a small integer holds it
small_arm :
    (z : ℤ) → within (negsuc 31) (pos 0x7F) z ≡ true → arm (to_bits (2 ^ 8) z) ≡ known (integer z)
unfolding arm or_else number_tag to_bits from_bits
small_arm z h = ground arith

be_one : (z : ℤ) → be_bytes 1 (to_bits (2 ^ 8) z) ≡ to_bits (2 ^ 8) z ∷ []
unfolding be_bytes to_bits
be_one z = ground arith

module _ (what : Str) {F : Type 0} (floats : Floats F) (depth : ℕ) (items members : ℕ → Parser Json)
    (shallow : depth ≤ max_depth) where
  Reads-signed :
      (tag width bits : ℕ) (z : ℤ)
      → arm tag ≡ signed width
      → fold_bytes 0 (be_bytes width bits) ≡ bits
      → from_bits (2 ^ (8 * width)) bits ≡ z
      → Reads (tagged_value what floats depth items members) (tag ∷ be_bytes width bits) (integer z)
  unfolding read_arm
  Reads-signed tag width bits z ha hf hz =
      Reads-tagged what floats depth items members tag (be_bytes width bits) (integer z) shallow ha
        (subst
          (λ v.
            Reads (read_arm what floats items members (signed width)) (be_bytes width bits)
              (integer v))
          hz
          (Reads-pure (read_uint what width) (λ v. integer (from_bits (2 ^ (8 * width)) v)) _ bits
            (Reads-uint what width bits hf)))

  pub Reads-int :
      (z : ℤ)
      → Fits (2 ^ 64) z
      → Reads (tagged_value what floats depth items members) (write_int z) (integer z)
  unfolding write_int arm
  Reads-int z room = elim (Bool-cases (within (negsuc 31) (pos 0x7F) z)) [
    | inl p ↦
        rw (p, be_one z)
          (Reads-tagged what floats depth items members (to_bits (2 ^ 8) z) [] (integer z) shallow
            (small_arm z p) (unfold read_arm in Reads-nil (integer z)))
    | inr p ↦ elim (Bool-cases (within (negsuc 127) (negsuc 32) z)) [
      | inl q ↦
          rw (p, q)
            (Reads-signed 0xD0 1 _ z refl (fold-be_1 _ (to_bits-low_8 z))
              (from_bits-to_bits_8 z (ground arith)))
      | inr q ↦ elim (Bool-cases (within (negsuc 32767) (pos 32767) z)) [
        | inl r ↦
            rw (p, q, r)
              (Reads-signed 0xD1 2 _ z refl (fold-be_2 _ (to_bits-low_16 z))
                (from_bits-to_bits_16 z (ground arith)))
        | inr r ↦ elim (Bool-cases (within (negsuc (2 ^ 31 - 1)) (pos (2 ^ 31 - 1)) z)) [
          | inl s ↦
              rw (p, q, r, s)
                (Reads-signed 0xD2 4 _ z refl (fold-be_4 _ (to_bits-low_32 z))
                  (from_bits-to_bits_32 z (ground arith)))
          | inr s ↦
              rw (p, q, r, s)
                (Reads-signed 0xD3 8 _ z refl (fold-be_8 _ (to_bits-low_64 z))
                  (from_bits-to_bits_64 z room))
        ]
      ]
    ]
  ]

  Reads-wide :
      (n : ℕ)
      → 2 ^ 63 ≤ n
      → n < 2 ^ 64
      → Reads
          (tagged_value what floats depth items members)
          (0xCF ∷ be_bytes 8 n)
          (number (show_nat n))
  unfolding arm
  Reads-wide n h k =
      let above : unsigned_number what n ≡ number (show_nat n) =
        (unfold unsigned_number in ground arith) in
      Reads-tagged what floats depth items members 0xCF (be_bytes 8 n) _ shallow refl (
        subst (Reads (read_arm what floats items members wide_unsigned) (be_bytes 8 n)) above (
          unfold read_arm in
          Reads-pure (read_uint what 8) (unsigned_number what) _ n
            (Reads-uint what 8 n (fold-be_8 n k))))

module _ {F : Type 0} (floats : Floats F) where
  write_number-show_int : (z : ℤ) → Fits (2 ^ 64) z → write_number floats (show_int z) ≡ write_int z
  unfolding write_number as_signed
  write_number-show_int z h = rw (parse_i64-show_int z h) refl

  write_number-show_nat :
      (n : ℕ) → 2 ^ 63 ≤ n → n < 2 ^ 64 → write_number floats (show_nat n) ≡ 0xCF ∷ be_bytes 8 n
  unfolding write_number as_signed as_unsigned
  write_number-show_nat n h k =
      rw (parse_int-show_nat_above (2 ^ 63) n h, parse_nat-show_nat (2 ^ 64) n k) refl

  pub Reads-number :
      (what : Str) (depth : ℕ) (items members : ℕ → Parser Json) (text : Str)
      → depth ≤ max_depth
      → IsWhole text
      → Reads
          (tagged_value what floats depth items members)
          (write_number floats text)
          (number text)
  Reads-number what depth items members text shallow (inl (z, room, e)) =
      rw (e, write_number-show_int z room)
        (unfold integer in Reads-int what floats depth items members shallow z room)
  Reads-number what depth items members text shallow (inr (n, low, room, e)) =
      rw (e, write_number-show_nat n low room)
        (Reads-wide what floats depth items members shallow n low room)
