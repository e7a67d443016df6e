-- ===== src/Codec/Wire.antt =====
-- Big-endian bytes and two's complement (`to_be_bytes`, `as u8`, `as i64`).
use colander.Prelude.{
  ℕ, zero, suc, ◌+◌, ◌-◌, ◌*◌, ◌/◌, ◌%◌, ◌^◌, ◌<◌, ◌≡◌, refl, ltb, Bytes, [], ◌∷◌, ◌++◌, arith,
  length, length-append, if◌then◌else◌,
}
use colander.Prelude.Int.{ℤ, pos, negsuc}

-- the last `k` bytes of `n`, the high one first
unfoldable pub be_bytes : ℕ → ℕ → Bytes
be_bytes zero n = []
be_bytes (suc k) n = be_bytes k (n / 256) ++ n % 256 ∷ []

-- the loop of `read_uint`: `value = (value << 8) | byte` on `u64`
unfoldable pub fold_bytes : ℕ → Bytes → ℕ
fold_bytes value [] = value
fold_bytes value (b ∷ s) = fold_bytes (value * 256 % 2 ^ 64 + b) s

-- the bits of a signed number at a width of `2 ^ w = size`
unfoldable pub to_bits : ℕ → ℤ → ℕ
to_bits size (pos n) = n % size
to_bits size (negsuc n) = size - 1 - n % size

-- the signed number of a bit pattern below `size`
unfoldable pub from_bits : ℕ → ℕ → ℤ
from_bits size n = if ltb (n * 2) size then pos n else negsuc (size - 1 - n)

pub length-be_bytes : (k n : ℕ) → length (be_bytes k n) ≡ k
unfolding be_bytes
length-be_bytes zero n = omega arith
length-be_bytes (suc k) n =
    omega (arith, length-be_bytes k (n / 256), length-append (be_bytes k (n / 256)) (n % 256 ∷ []))

fold_bytes-append : (s t : Bytes) (v : ℕ) → fold_bytes v (s ++ t) ≡ fold_bytes (fold_bytes v s) t
unfolding fold_bytes
fold_bytes-append [] t v = refl
fold_bytes-append (b ∷ s) t v = fold_bytes-append s t (v * 256 % 2 ^ 64 + b)

-- numbers of at most eight bytes are read back
pub fold-be_1 : (n : ℕ) → n < 2 ^ 8 → fold_bytes 0 (be_bytes 1 n) ≡ n
unfolding fold_bytes be_bytes
fold-be_1 n h = omega arith

pub fold-be_2 : (n : ℕ) → n < 2 ^ 16 → fold_bytes 0 (be_bytes 2 n) ≡ n
unfolding fold_bytes be_bytes
fold-be_2 n h = omega arith

pub fold-be_4 : (n : ℕ) → n < 2 ^ 32 → fold_bytes 0 (be_bytes 4 n) ≡ n
unfolding fold_bytes be_bytes
fold-be_4 n h = omega arith

pub fold-be_8 : (n : ℕ) → n < 2 ^ 64 → fold_bytes 0 (be_bytes 8 n) ≡ n
unfolding fold_bytes be_bytes
fold-be_8 n h = omega arith

-- A signed number in range is the number of its bits, at each width.
abbrev pub Fits : ℕ → ℤ → Type 0
Fits size (pos n) = n * 2 < size
Fits size (negsuc n) = n * 2 < size

pub from_bits-to_bits_8 : (z : ℤ) → Fits (2 ^ 8) z → from_bits (2 ^ 8) (to_bits (2 ^ 8) z) ≡ z
unfolding from_bits to_bits
from_bits-to_bits_8 z h = ground arith

pub from_bits-to_bits_16 : (z : ℤ) → Fits (2 ^ 16) z → from_bits (2 ^ 16) (to_bits (2 ^ 16) z) ≡ z
unfolding from_bits to_bits
from_bits-to_bits_16 z h = ground arith

pub from_bits-to_bits_32 : (z : ℤ) → Fits (2 ^ 32) z → from_bits (2 ^ 32) (to_bits (2 ^ 32) z) ≡ z
unfolding from_bits to_bits
from_bits-to_bits_32 z h = ground arith

pub from_bits-to_bits_64 : (z : ℤ) → Fits (2 ^ 64) z → from_bits (2 ^ 64) (to_bits (2 ^ 64) z) ≡ z
unfolding from_bits to_bits
from_bits-to_bits_64 z h = ground arith
