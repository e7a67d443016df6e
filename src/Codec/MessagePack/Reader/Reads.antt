-- ===== src/Codec/MessagePack/Reader/Reads.antt =====
-- What a method of the reader reads: bytes in front, whatever follows them.
use colander.Prelude.{
  ℕ, ◌+◌, ◌^◌, ◌<◌, ◌≤◌, ◌≡◌, refl, false, ltb, leb, Str, Bytes, [], ◌∷◌, ◌++◌, append_assoc, arith,
  ok, length, length-append, take-length, drop-length, ◌∙◌, ap, subst, All,
}
use colander.Text.Utf8.{as_bytes}
use colander.Text.Utf8.RoundTrip.{IsScalar, from_utf8-as_bytes}
use colander.Json.Input.{Input, Parser, ◌>>=◌}
use colander.Json.Parse.{max_depth}
use colander.Json.{Json}
use colander.Floats.{Floats}
use colander.Codec.Wire.{be_bytes, fold_bytes, length-be_bytes}
use colander.Codec.MessagePack.Reader.{
  Arm, known, arm, take_bytes, next_byte, read_u8, read_uint, utf8_text, read_str, read_arm,
  tagged_value,
}

abbrev pub at : Bytes → ℕ → Input
at s n = record { rest = s; position = n }

-- `p` reads the bytes `s` as `v`, as long as the position stays a `usize`.
abbrev pub Reads {ℓ} : {A : Type ℓ} → Parser A → Bytes → A → Type ℓ
Reads p s v =
    (tail : Bytes) (n : ℕ)
    → n + length s < 2 ^ 64
    → p (at (s ++ tail) n) ≡ ok (v, at tail (n + length s))

pub bind_step {ℓ κ} :
    {A : Type ℓ} {B : Type κ} (p : Parser A) (f : A → Parser B) (i j : Input) (a : A)
    → p i ≡ ok (a, j)
    → (p >>= f) i ≡ f a j
bind_step p f i j a e = rw (e, ◌>>=◌) refl

pub Reads-bind {ℓ κ} :
    {A : Type ℓ} {B : Type κ} (p : Parser A) (f : A → Parser B) (s t : Bytes) (a : A) (b : B)
    → Reads p s a
    → Reads (f a) t b
    → Reads (p >>= f) (s ++ t) b
Reads-bind p f s t a b hp hf tail n h =
    let len = length-append s t in
    rw (append_assoc s t tail) (
      bind_step p f _ _ a (hp (t ++ tail) n (omega (arith, len)))
      ∙ hf tail (n + length s) (omega (arith, len))
      ∙ ap (λ k. ok (b, at tail k)) (omega (arith, len)))

pub Reads-nil {ℓ} : {A : Type ℓ} (v : A) → Reads (λ i. ok (v, i)) [] v
Reads-nil v tail n h = ap (λ k. ok (v, at tail k)) (omega arith)

-- a value mapped
pub Reads-pure {ℓ κ} :
    {A : Type ℓ} {B : Type κ} (p : Parser A) (g : A → B) (s : Bytes) (a : A)
    → Reads p s a
    → Reads (p >>= λ x i. ok (g x, i)) s (g a)
Reads-pure p g s a hp tail n h = bind_step p _ _ _ a (hp tail n h)

module _ (what : Str) where
  pub Reads-u8 : (b : ℕ) → Reads (read_u8 what) (b ∷ []) b
  unfolding read_u8 next_byte
  Reads-u8 b tail n h = refl

  pub Reads-take : (s : Bytes) → Reads (take_bytes what (length s)) s s
  unfolding take_bytes
  Reads-take s tail n h =
      let low : leb (2 ^ 64) (n + length s) ≡ false = ground arith in
      let long : ltb (length (s ++ tail)) (length s) ≡ false =
        ground (arith, length-append s tail) in
      rw (low, long, take-length s tail, drop-length s tail) refl

  pub Reads-uint :
      (width n : ℕ)
      → fold_bytes 0 (be_bytes width n) ≡ n
      → Reads (read_uint what width) (be_bytes width n) n
  unfolding read_uint
  Reads-uint width v e =
      let bytes = be_bytes width v in
      let taken : Reads (take_bytes what width) bytes bytes =
        subst (λ k. Reads (take_bytes what k) bytes bytes) (length-be_bytes width v)
          (Reads-take bytes) in
      subst (λ k. Reads (read_uint what width) bytes k) e
        (Reads-pure (take_bytes what width) (fold_bytes 0) bytes bytes taken)

  pub Reads-str :
      (s : Str) → All IsScalar s → Reads (read_str what (length (as_bytes s))) (as_bytes s) s
  unfolding read_str utf8_text
  Reads-str s h tail n k =
      bind_step (take_bytes what (length (as_bytes s))) _ _ _ (as_bytes s)
        (Reads-take (as_bytes s) tail n k)
      ∙ rw (from_utf8-as_bytes s h) refl

  -- A value whose tag has an arm that reads what follows.
  pub Reads-tagged :
      {F : Type 0} (floats : Floats F) (depth : ℕ) (items members : ℕ → Parser Json) (tag : ℕ)
      {a : Arm} (s : Bytes) (v : Json)
      → depth ≤ max_depth
      → arm tag ≡ a
      → Reads (read_arm what floats items members a) s v
      → Reads (tagged_value what floats depth items members) (tag ∷ s) v
  unfolding tagged_value
  Reads-tagged floats depth items members tag {a} s v hd ha hs tail n h =
      let shallow : ltb max_depth depth ≡ false = ground arith in
      rw shallow (
        Reads-bind (read_u8 what) (λ t. read_arm what floats items members (arm t)) (tag ∷ []) s tag
          v (Reads-u8 tag) (rw ha (hs)) tail n h)

  pub Reads-known :
      {F : Type 0} (floats : Floats F) (depth : ℕ) (items members : ℕ → Parser Json) (tag : ℕ)
      (v : Json)
      → depth ≤ max_depth
      → arm tag ≡ known v
      → Reads (tagged_value what floats depth items members) (tag ∷ []) v
  unfolding read_arm
  Reads-known floats depth items members tag v hd ha =
      Reads-tagged floats depth items members tag [] v hd ha (Reads-nil v)
