-- ===== src/Json/Strings/Sinks.antt =====
-- The two sinks of `read_string` (src/json/parse.rs) see the same decoded string.
use colander.Prelude.{
  ℕ, zero, suc, ◌+◌, drop, ◌≡◌, refl, ap, sym, ◌∙◌, true, false, Str, Bytes, [], ◌∷◌, ◌++◌, arith,
  Result, ok, err, append_assoc, append-nil, Option, none, some, if◌then◌else◌, length, ltb, fail,
  codes,
}
use colander.Text.Utf8.{Utf8, valid, invalid, from_utf8}
use colander.Json.Input.{Input, Parser, ◌>>=◌, pure, over, message_at, error, peek, bump, expect}
use colander.Json.Escape.{
  write_string_body, write_string_body-append, write_string_body_char, write_string,
}
use colander.Json.Strings.{
  value, escaped, sink_push_str, sink_push_char, push_run, utf8_error, utf8_width, parse_escape,
  at_stop, chunk, read_chunks, read_string, parse_string, write_string_stream, run_of, after_run,
}

-- the output behind `out` when the text decoded so far is `s`
abbrev shown : Str → Str → Str
shown out s = out ++ write_string_body s

shown_push_str :
    (out s text : Str)
    → sink_push_str escaped (shown out s) text ≡ shown out (sink_push_str value s text)
unfolding sink_push_str
shown_push_str out s text = simp (write_string_body-append, append_assoc)

shown_push_char :
    (out s : Str) (ch : ℕ)
    → sink_push_char escaped (shown out s) ch ≡ shown out (sink_push_char value s ch)
unfolding sink_push_char
shown_push_char out s ch = simp (write_string_body-append, write_string_body_char, append_assoc)

abbrev IsFailure : Result (Str × Input) → Type 0
IsFailure (ok x) = ⊥
IsFailure _ = Unit

utf8_error-IsFailure : (tail : Bytes) (at : ℕ) → IsFailure (utf8_error tail at)
unfolding utf8_error
utf8_error-IsFailure [] at = tt
utf8_error-IsFailure (b ∷ tail) at =
    elim (ltb (length (b ∷ tail)) (utf8_width b))
      as (λ c. IsFailure (
        if c
        then fail (message_at (codes "truncated UTF-8 sequence") at)
        else fail (message_at (codes "invalid UTF-8") at))) [ true ↦ tt | false ↦ tt ]

module _ (out : Str) (again_v again_e : Str → Parser Str)
    (same : (s : Str) (i : Input) → again_e (shown out s) i ≡ over (shown out) (again_v s i)) where
  escape-over :
      (s : Str) (r : Result (ℕ × Input))
      → ((λ _. r) >>= λ ch. again_e (sink_push_char escaped (shown out s) ch))
          (record { rest = []; position = 0 })
        ≡ over (shown out) (
            ((λ _. r) >>= λ ch. again_v (sink_push_char value s ch))
              (record { rest = []; position = 0 }))
  escape-over s (ok (ch, j)) = rw (shown_push_char out s ch) (same _ j)
  escape-over s (err e) = refl
  escape-over s Result.panic = refl
  escape-over s Result.out_of_fuel = refl

  at_stop-over :
      (s : Str) (b : Option ℕ) (i : Input)
      → at_stop again_e escaped (shown out s) b i ≡ over (shown out) (at_stop again_v value s b i)
  unfolding at_stop error
  at_stop-over s none i = refl
  at_stop-over s (some b) i = ground (arith, escape-over s (parse_escape (bump i)))

  bad-over :
      (s : Str) (r : Result (Str × Input)) (i : Input)
      → IsFailure r
      → ((λ _. r) >>= λ s'. λ j. at_stop again_e escaped s' (peek j) j) i
        ≡ over (shown out) (((λ _. r) >>= λ s'. λ j. at_stop again_v value s' (peek j) j) i)
  bad-over s (ok (t, j)) i h = elim h [ ]
  bad-over s (err e) i h = refl
  bad-over s Result.panic i h = refl
  bad-over s Result.out_of_fuel i h = refl

  run-over :
      (s : Str) (start i : Input) (u : Utf8)
      → (push_run escaped (shown out s) start u >>= λ s'.
            λ j. at_stop again_e escaped s' (peek j) j)
          i
        ≡ over
            (shown out)
            ((push_run value s start u >>= λ s'. λ j. at_stop again_v value s' (peek j) j) i)
  unfolding push_run
  run-over s start i (valid text) = rw (shown_push_str out s text) (at_stop-over _ (peek i) i)
  run-over s start i (invalid n) =
      bad-over s (utf8_error (drop n start.rest) (start.position + n)) i
        (utf8_error-IsFailure (drop n start.rest) (start.position + n))

  chunk-over :
      (s : Str) (i : Input)
      → chunk again_e escaped (shown out s) i ≡ over (shown out) (chunk again_v value s i)
  unfolding chunk
  chunk-over s i = run-over s i (after_run i.rest i.position) (from_utf8 (run_of i.rest))

read_chunks-over :
    (f : ℕ) (out s : Str) (i : Input)
    → read_chunks f escaped (shown out s) i ≡ over (shown out) (read_chunks f value s i)
unfolding read_chunks
read_chunks-over zero out s i = refl
read_chunks-over (suc f) out s i =
    chunk-over out (read_chunks f value) (read_chunks f escaped) (read_chunks-over f out) s i

body_nil : (out : Str) → shown out [] ≡ out
unfolding write_string_body
body_nil out = append-nil out

-- Reading into the escaping sink accepts and rejects what reading into the plain one does, with the
-- same messages and the same rest, and appends the escaped form of the decoded string.
pub read_string-over :
    (out : Str) (i : Input)
    → read_string escaped out i ≡ over (λ s. out ++ write_string_body s) (read_string value [] i)
unfolding read_string
read_string-over out i = behind (expect b'"' i)
  where
    behind :
        (r : Result (Unit {0} × Input))
        → ((λ _. r) >>= λ _. λ j. read_chunks (suc (length j.rest)) escaped out j) i
          ≡ over
              (shown out)
              (((λ _. r) >>= λ _. λ j. read_chunks (suc (length j.rest)) value [] j) i)
    behind (ok (_, j)) =
        ap (λ o. read_chunks (suc (length j.rest)) escaped o j) (sym (body_nil out))
        ∙ read_chunks-over (suc (length j.rest)) out [] j
    behind (err e) = refl
    behind Result.panic = refl
    behind Result.out_of_fuel = refl

-- The same for a whole quoted string.
pub write_string_stream-over :
    (out : Str) (i : Input)
    → write_string_stream out i ≡ over (λ s. out ++ write_string s) (parse_string i)
unfolding write_string_stream parse_string write_string
write_string_stream-over out i =
    ap (λ r. ((λ (_ : Input). r) >>= λ o. pure (o ++ b'"' ∷ [])) i)
      (read_string-over (out ++ b'"' ∷ []) i)
    ∙ quoted (read_string value [] i)
  where
    quoted :
        (r : Result (Str × Input))
        → ((λ _. over (λ s. (out ++ b'"' ∷ []) ++ write_string_body s) r) >>= λ o.
              pure (o ++ b'"' ∷ []))
            i
          ≡ over (λ s. out ++ write_string s) r
    quoted (ok (s, j)) = ap (λ (t : Str). ok (t, j)) (simp append_assoc)
    quoted (err e) = refl
    quoted Result.panic = refl
    quoted Result.out_of_fuel = refl
