-- ===== src/Json/Strings/Bounds.antt =====
-- The string reader of src/json/parse.rs takes at least one byte, or reports an error: it neither
-- panics nor runs out of fuel.
use colander.Prelude.{
  ℕ, zero, suc, ◌+◌, ◌≤◌, ◌<◌, ◌≡◌, refl, subst, Str, Bytes, [], ◌∷◌, Option, none, some, arith,
  length, drop, ◌==◌, leb, ltb, ◌&&◌,
}
use colander.Text.Utf8.{Utf8, valid, invalid, from_utf8}
use colander.Text.Utf8.Prefix.{Short, from_utf8-Short}
use colander.Json.Input.{Input, Parser, pure, error, peek, bump, bump_bytes, expect}
use colander.Json.Input.Below.{
  left, Below, Below-mono, Below-bind, Below-if, Below-choice, Below-require, Below-require_then,
  Below-expect, left-bump,
}
use colander.Json.Strings.{
  Sink, sink_push_char, utf8_error, utf8_width, run_of, after_run, push_run, four_bytes, hex_text,
  parse_hex4, from_u32, pair_follows, low_surrogate, step, surrogate_pair, code_unit,
  parse_unicode_escape, escape_char, parse_escape, at_stop, chunk, read_chunks, read_string,
}

left-bump_le : (i : Input) → left (bump i) ≤ left i
unfolding bump
left-bump_le i = go i.rest
  where
    go : (s : Bytes) → left (bump_bytes s i.position) ≤ length s
    go [] = omega arith
    go (b ∷ s) = omega arith

Below-step : (i : Input) → Below (suc (left i)) (step i)
unfolding step
Below-step i = omega (arith, left-bump_le i)

length-drop : (s : Bytes) (n : ℕ) → n < length s → 0 < length (drop n s)
length-drop [] n h = omega arith
length-drop (b ∷ s) zero h = omega arith
length-drop (b ∷ s) (suc n) h = length-drop s n (omega arith)

Below-utf8_error {ℓ} :
    (A : Type ℓ) (m : ℕ) (tail : Bytes) (at : ℕ)
    → 0 < length tail
    → Below m (utf8_error {A = A × Input} tail at)
unfolding utf8_error
Below-utf8_error A m [] at h = omega arith
Below-utf8_error A m (b ∷ tail) at h =
    Below-if m (ltb (length (b ∷ tail)) (utf8_width b)) _ _ (λ _. tt) (λ _. tt)

length-run_of : (s : Bytes) → length (run_of s) ≤ length s
unfolding run_of
length-run_of [] = omega arith
length-run_of (b ∷ s) = ground (arith, length-run_of s)

left-after_run : (s : Bytes) (n : ℕ) → left (after_run s n) ≤ length s
unfolding after_run
left-after_run [] n = omega arith
left-after_run (b ∷ s) n = ground (arith, left-after_run s (n + 1))

Below-push_run :
    (sink : Sink) (out : Str) (start : Input) (u : Utf8) (i : Input)
    → Short (length start.rest) u
    → Below (suc (left i)) (push_run sink out start u i)
unfolding push_run Short
Below-push_run sink out start (valid text) i h = omega arith
Below-push_run sink out start (invalid n) i h =
    Below-utf8_error Str (suc (left i)) (drop n start.rest) (start.position + n)
      (length-drop start.rest n h)

Short-mono : (m n : ℕ) (u : Utf8) → m ≤ n → Short m u → Short n u
unfolding Short
Short-mono m n (valid s) h b = tt
Short-mono m n (invalid k) h b = omega arith

four_bytes-shorter :
    (bytes : Bytes) {slice s : Bytes} → four_bytes bytes ≡ some (slice, s) → length s ≤ length bytes
unfolding four_bytes
four_bytes-shorter [] h = absurd (cc)
four_bytes-shorter (a ∷ []) h = absurd (cc)
four_bytes-shorter (a ∷ b ∷ []) h = absurd (cc)
four_bytes-shorter (a ∷ b ∷ c ∷ []) h = absurd (cc)
four_bytes-shorter (a ∷ b ∷ c ∷ d ∷ rest) {slice} {s} h =
    let same : rest ≡ s = cc in
    subst (λ t. length t ≤ length (a ∷ b ∷ c ∷ d ∷ rest)) same (omega arith)

Below-parse_hex4 : (i : Input) → Below (suc (left i)) (parse_hex4 i)
unfolding parse_hex4
Below-parse_hex4 i = Below-require_then (suc (left i)) (four_bytes i.rest) _ _ i λ (slice, s) e.
    Below-require_then (suc (left i)) (hex_text (from_utf8 slice)) _ _ i
      λ n _. omega (arith, four_bytes-shorter i.rest e)

Below-low_surrogate : (high low : ℕ) (i : Input) → Below (suc (left i)) (low_surrogate high low i)
unfolding low_surrogate error
Below-low_surrogate high low i =
    Below-choice (suc (left i)) (leb 0xDC00 low && ltb low 0xE000) _ _ i (λ _. Below-require _ _ i)
      (λ _. tt)

Below-surrogate_pair : (high : ℕ) (i : Input) → Below (suc (left i)) (surrogate_pair high i)
unfolding surrogate_pair error
Below-surrogate_pair high i =
    Below-if (suc (left i)) (pair_follows i.rest) _ _
      (λ _. Below-bind (suc (left i)) (suc (left i)) step _ i (Below-step i) λ _ i1 l1.
        Below-bind (suc (left i1)) (suc (left i)) step _ i1 (Below-step i1) λ _ i2 l2.
          Below-bind (suc (left i2)) (suc (left i)) parse_hex4 _ i2 (Below-parse_hex4 i2)
            λ low i3 l3.
              Below-mono (suc (left i3)) (suc (left i)) (low_surrogate high low i3) (omega arith)
                (Below-low_surrogate high low i3))
      (λ _. tt)

Below-code_unit : (high : ℕ) (i : Input) → Below (suc (left i)) (code_unit high i)
unfolding code_unit error
Below-code_unit high i =
    Below-if (suc (left i)) (leb 0xD800 high && ltb high 0xDC00) _ _
      (λ _. Below-surrogate_pair high i)
      (λ _.
        Below-if (suc (left i)) (leb 0xDC00 high && ltb high 0xE000) _ _ (λ _. tt)
          (λ _. Below-require (from_u32 high) _ i))

Below-parse_unicode_escape : (i : Input) → Below (suc (left i)) (parse_unicode_escape i)
unfolding parse_unicode_escape
Below-parse_unicode_escape i =
    Below-bind (suc (left i)) (suc (left i)) parse_hex4 code_unit i (Below-parse_hex4 i) λ high j l.
      Below-mono (suc (left j)) (suc (left i)) (code_unit high j) (omega arith)
        (Below-code_unit high j)

Below-escape_char : (b : ℕ) (i : Input) → Below (suc (left i)) (escape_char b i)
unfolding escape_char error
Below-escape_char b i =
    let m = suc (left i) in
    let here : left i < suc (left i) = omega arith in
    Below-if m (b == b'"') _ _ (λ _. here)
      λ _.
        Below-if m (b == b'\\') _ _ (λ _. here)
          λ _.
            Below-if m (b == b'/') _ _ (λ _. here)
              λ _.
                Below-if m (b == b'b') _ _ (λ _. here)
                  λ _.
                    Below-if m (b == b'f') _ _ (λ _. here)
                      λ _.
                        Below-if m (b == b'n') _ _ (λ _. here)
                          λ _.
                            Below-if m (b == b'r') _ _ (λ _. here)
                              λ _.
                                Below-if m (b == b't') _ _ (λ _. here)
                                  λ _.
                                    Below-if m (b == b'u') _ _ (λ _. Below-parse_unicode_escape i)
                                      λ _. tt

Below-parse_escape : (i : Input) → Below (suc (left i)) (parse_escape i)
unfolding parse_escape
Below-parse_escape i = Below-require_then (suc (left i)) (peek i) _ _ i λ b _.
    Below-bind (suc (left i)) (suc (left i)) step _ i (Below-step i) λ _ j l.
      Below-mono (suc (left j)) (suc (left i)) (escape_char b j) (omega arith)
        (Below-escape_char b j)

-- What the reader does at a stop, if its next round is well behaved on the fewer bytes left.
Below-at_stop :
    (again : Str → Parser Str) (sink : Sink) (out : Str) (o : Option ℕ) (i : Input)
    → peek i ≡ o
    → ((out' : Str) (j : Input) → left j < left i → Below (left j) (again out' j))
    → Below (left i) (at_stop again sink out o i)
unfolding at_stop error
Below-at_stop again sink out none i e h = tt
Below-at_stop again sink out (some b) i e h =
    Below-choice (left i) (b == b'"') _ _ i
      (λ _.
        Below-bind (left i) (left i) step (λ _. pure out) i (unfold step in left-bump i e)
          λ _ j l. l)
      (λ _.
        Below-choice (left i) (b == b'\\') _ _ i
          (λ _. Below-bind (left i) (left i) step _ i (unfold step in left-bump i e) λ _ j l.
            Below-bind (suc (left j)) (left i) parse_escape _ j (Below-parse_escape j) λ ch k lk.
              Below-mono (left k) (left i) _ (omega arith)
                (h (sink_push_char sink out ch) k (omega arith)))
          (λ _. tt))

Below-read_chunks :
    (fuel : ℕ) (sink : Sink) (out : Str) (i : Input)
    → left i < fuel
    → Below (left i) (read_chunks fuel sink out i)
unfolding read_chunks chunk
Below-read_chunks zero sink out i h = omega arith
Below-read_chunks (suc fuel) sink out i h =
    let i' = after_run i.rest i.position in
    let shorter = left-after_run i.rest i.position in
    Below-bind (suc (left i')) (left i) (push_run sink out i (from_utf8 (run_of i.rest))) _ i'
      (Below-push_run sink out i (from_utf8 (run_of i.rest)) i' (
        Short-mono (length (run_of i.rest)) (left i) (from_utf8 (run_of i.rest))
          (length-run_of i.rest) (from_utf8-Short (run_of i.rest))))
      λ out' j l. Below-mono (left j) (left i) _ (omega arith) (
        Below-at_stop (read_chunks fuel sink) sink out' (peek j) j refl
          (λ out'' k lk. Below-read_chunks fuel sink out'' k (omega arith)))

pub Below-read_string :
    (sink : Sink) (out : Str) (i : Input) → Below (left i) (read_string sink out i)
unfolding read_string
Below-read_string sink out i =
    Below-bind (left i) (left i) (expect b'"') _ i (Below-expect b'"' i) λ _ j l.
      Below-mono (left j) (left i) _ (omega arith)
        (Below-read_chunks (suc (left j)) sink out j (omega arith))
