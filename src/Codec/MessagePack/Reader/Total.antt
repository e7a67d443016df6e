-- ===== src/Codec/MessagePack/Reader/Total.antt =====
-- The MessagePack decoder answers for every input: it neither panics nor runs out of fuel, if the
-- standard library prints finite floating point numbers as its documentation says.
use colander.Prelude.{
  ℕ, zero, suc, ◌+◌, ◌*◌, ◌<◌, ◌≤◌, ◌^◌, leb, ltb, Str, Bytes, [], ◌∷◌, Option, none, some, arith,
  length, drop, is_empty, ◌≡◌, true,
}
use colander.Prelude.Int.{pos}
use colander.Text.Utf8.{Utf8, valid, invalid, from_utf8}
use colander.Json.{Json, Items, JsonMap, nil, empty, push, string}
use colander.Json.Map.{insert}
use colander.Json.Access.{integer}
use colander.Json.Double.{double}
use colander.Json.Double.Digits.{PrintsAsDigits, double-IsOk}
use colander.Json.Input.{Input, Parser, ◌>>=◌, pure}
use colander.Json.Input.Below.{left, Below, Below-mono, Below-bind, Below-if}
use colander.Json.Parse.{max_depth, fuel_for, start}
use colander.Json.Parse.Total.{Settles, Below-Settles}
use colander.Floats.{Floats}
use colander.Codec.MessagePack.Reader.{
  Arm, known, refused, single, double_width, unsigned, signed, wide_unsigned, text_of, map_of,
  array_of, long_text, long_map, long_array, arm, text_tag, error, take_bytes, next_byte, read_u8,
  read_uint, utf8_text, read_str, read_long_str, key_of, read_key, lift, read_arm, tagged_value,
  read_value, read_array, read_map, at_end, read_document, decode,
}

left_drop : (s : Bytes) (n : ℕ) → length (drop n s) ≤ length s
left_drop s zero = omega arith
left_drop [] (suc n) = omega arith
left_drop (b ∷ s) (suc n) = omega (arith, left_drop s n)

module _ (what : Str) where
  Below-read_u8 : (i : Input) → Below (left i) (read_u8 what i)
  unfolding read_u8 next_byte error
  Below-read_u8 i = go i.rest
    where
      go : (s : Bytes) → Below (length s) (next_byte what s i)
      go [] = tt
      go (b ∷ s) = omega arith

  Below-take : (len : ℕ) (i : Input) → Below (suc (left i)) (take_bytes what len i)
  unfolding take_bytes error
  Below-take len i =
      Below-if (suc (left i)) (leb (2 ^ 64) (i.position + len)) _ _ (λ _. tt)
        λ _.
          Below-if (suc (left i)) (ltb (length i.rest) len) _ _ (λ _. tt)
            λ _. omega (arith, left_drop i.rest len)

  Below-read_uint : (width : ℕ) (i : Input) → Below (suc (left i)) (read_uint what width i)
  unfolding read_uint
  Below-read_uint width i =
      Below-bind (suc (left i)) (suc (left i)) (take_bytes what width) _ i (Below-take width i)
        λ s j l. l

  Below-utf8_text : (u : Utf8) (i : Input) → Below (suc (left i)) (utf8_text what u i)
  unfolding utf8_text error
  Below-utf8_text (valid s) i = omega arith
  Below-utf8_text (invalid n) i = tt

  Below-read_str : (len : ℕ) (i : Input) → Below (suc (left i)) (read_str what len i)
  unfolding read_str
  Below-read_str len i =
      Below-bind (suc (left i)) (suc (left i)) (take_bytes what len) _ i (Below-take len i) λ s j l.
        Below-mono (suc (left j)) (suc (left i)) (utf8_text what (from_utf8 s) j) (omega arith)
          (Below-utf8_text (from_utf8 s) j)

  -- a length, and what follows it
  Below-with_uint {ℓ} :
      {A : Type ℓ} (width : ℕ) (f : ℕ → Parser A) (i : Input)
      → ((n : ℕ) (j : Input) → left j ≤ left i → Below (suc (left j)) (f n j))
      → Below (suc (left i)) ((read_uint what width >>= f) i)
  Below-with_uint width f i h =
      Below-bind (suc (left i)) (suc (left i)) (read_uint what width) f i (Below-read_uint width i)
        λ n j l.
          Below-mono (suc (left j)) (suc (left i)) (f n j) (omega arith) (h n j (omega arith))

  Below-key_of : (a : Option Arm) (i : Input) → Below (suc (left i)) (key_of what a i)
  unfolding key_of error read_long_str
  Below-key_of none i = tt
  Below-key_of (some (text_of len)) i = Below-read_str len i
  Below-key_of (some (long_text width)) i =
      Below-with_uint width (read_str what) i λ n j l. Below-read_str n j
  Below-key_of (some (known v)) i = tt
  Below-key_of (some (refused m)) i = tt
  Below-key_of (some single) i = tt
  Below-key_of (some double_width) i = tt
  Below-key_of (some (unsigned n)) i = tt
  Below-key_of (some (signed n)) i = tt
  Below-key_of (some wide_unsigned) i = tt
  Below-key_of (some (map_of n)) i = tt
  Below-key_of (some (array_of n)) i = tt
  Below-key_of (some (long_map n)) i = tt
  Below-key_of (some (long_array n)) i = tt

  Below-read_key : (i : Input) → Below (left i) (read_key what i)
  unfolding read_key
  Below-read_key i = Below-bind (left i) (left i) (read_u8 what) _ i (Below-read_u8 i) λ tag j l.
      Below-mono (suc (left j)) (left i) (key_of what (text_tag tag) j) (omega arith)
        (Below-key_of (text_tag tag) j)

  module _ {F : Type 0} (floats : Floats F)
      (prints : (x : F) → floats.is_finite x ≡ true → PrintsAsDigits floats x) where
    Below-lift : (x : F) (i : Input) → Below (suc (left i)) (lift what (double floats x) i)
    unfolding lift
    Below-lift x i = let (t, e) = double-IsOk floats prints x in rw e (omega arith)

    -- What the arms need of the loops: from at most `k` bytes, no more are left.
    Holds : ℕ → (ℕ → Parser Json) → Type 0
    Holds k p = (count : ℕ) (j : Input) → left j ≤ k → Below (suc (left j)) (p count j)

    Below-read_arm :
        (items members : ℕ → Parser Json) (a : Arm) (i : Input)
        → Holds (left i) items
        → Holds (left i) members
        → Below (suc (left i)) (read_arm what floats items members a i)
    unfolding read_arm error read_long_str Holds
    Below-read_arm items members (known v) i hi hm = omega arith
    Below-read_arm items members (refused m) i hi hm = tt
    Below-read_arm items members single i hi hm =
        Below-with_uint 4 _ i λ n j l. Below-lift (floats.from_f32_bits n) j
    Below-read_arm items members double_width i hi hm =
        Below-with_uint 8 _ i λ n j l. Below-lift (floats.from_bits n) j
    Below-read_arm items members (unsigned width) i hi hm =
        Below-with_uint width (λ n. pure (integer (pos n))) i λ n j l. (omega arith)
    Below-read_arm items members (signed width) i hi hm =
        Below-with_uint width _ i λ n j l. omega arith
    Below-read_arm items members wide_unsigned i hi hm = Below-with_uint 8 _ i λ n j l. omega arith
    Below-read_arm items members (text_of len) i hi hm =
        Below-bind (suc (left i)) (suc (left i)) (read_str what len) (λ s. pure (string s)) i
          (Below-read_str len i) λ s j l. l
    Below-read_arm items members (long_text width) i hi hm =
        Below-bind (suc (left i)) (suc (left i)) (read_long_str what width) (λ s. pure (string s)) i
          (Below-with_uint width (read_str what) i λ n j l. Below-read_str n j) λ s j l. l
    Below-read_arm items members (array_of count) i hi hm = hi count i (omega arith)
    Below-read_arm items members (map_of count) i hi hm = hm count i (omega arith)
    Below-read_arm items members (long_array width) i hi hm =
        Below-with_uint width items i λ n j l. hi n j l
    Below-read_arm items members (long_map width) i hi hm =
        Below-with_uint width members i λ n j l. hm n j l

    -- The fuel of the three functions: twice the bytes left, and one more for a loop.
    mutual
      unfolding read_value read_array read_map tagged_value error Holds

      value-Below :
          (f depth : ℕ) (i : Input)
          → 2 * left i < f
          → Below (left i) (read_value what floats f depth i)
      value-Below zero depth i h = omega arith
      value-Below (suc f) depth i h =
          Below-if (left i) (ltb max_depth depth) _ _ (λ _. tt)
            λ _. Below-bind (left i) (left i) (read_u8 what) _ i (Below-read_u8 i) λ tag j l.
              Below-mono (suc (left j)) (left i) _ (omega arith) (
                Below-read_arm (λ count. read_array what floats f depth count nil)
                  (λ count. read_map what floats f depth count empty) (arm tag) j
                  (λ n k lk. array-Below f depth n nil k (omega arith))
                  (λ n k lk. map-Below f depth n empty k (omega arith)))

      array-Below :
          (f depth count : ℕ) (items : Items) (i : Input)
          → 2 * left i + 1 < f
          → Below (suc (left i)) (read_array what floats f depth count items i)
      array-Below f depth zero items i h = omega arith
      array-Below zero depth (suc count) items i h = omega arith
      array-Below (suc f) depth (suc count) items i h =
          Below-bind (left i) (suc (left i)) (read_value what floats f (depth + 1)) _ i
            (value-Below f (depth + 1) i (omega arith))
            λ v j l.
              Below-mono (suc (left j)) (suc (left i))
                (read_array what floats f depth count (push items v) j) (omega arith)
                (array-Below f depth count (push items v) j (omega arith))

      map-Below :
          (f depth count : ℕ) (map : JsonMap) (i : Input)
          → 2 * left i + 1 < f
          → Below (suc (left i)) (read_map what floats f depth count map i)
      map-Below f depth zero map i h = omega arith
      map-Below zero depth (suc count) map i h = omega arith
      map-Below (suc f) depth (suc count) map i h =
          Below-bind (left i) (suc (left i)) (read_key what) _ i (Below-read_key i) λ key j l.
            Below-bind (left j) (suc (left i)) (read_value what floats f (depth + 1)) _ j
              (value-Below f (depth + 1) j (omega arith))
              λ v k lk.
                Below-mono (suc (left k)) (suc (left i))
                  (read_map what floats f depth count (insert map key v) k) (omega arith)
                  (map-Below f depth count (insert map key v) k (omega arith))

-- For every input, NaN and the infinities included, the MessagePack decoder returns a value or an
-- error message, if the standard library prints finite numbers as digits with an exponent.
pub decode-Settles :
    {F : Type 0} (floats : Floats F)
    → ((x : F) → floats.is_finite x ≡ true → PrintsAsDigits floats x)
    → (bytes : Bytes) (what : Str) → Settles (decode floats bytes what)
unfolding decode read_document at_end start error
decode-Settles floats prints bytes what =
    let i = start bytes in
    let m = suc (left i) in
    Below-Settles m _ (
      Below-bind (left i) m (read_value what floats (fuel_for bytes) 0) _ i
        (value-Below what floats prints (fuel_for bytes) 0 i (omega arith))
        λ v j l. Below-if m (is_empty j.rest) _ _ (λ _. omega arith) (λ _. tt))
