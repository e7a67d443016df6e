-- ===== src/Json/Escape.antt =====
-- The escaping of src/json/write.rs. What is appended to `out` is the value of a function.
use Prim.Native.Nat.{◌/◌}
use colander.Prelude.{
  ℕ, ◌+◌, ◌-◌, ◌%◌, ◌^◌, ◌≡◌, refl, sym, ◌∙◌, Bool, true, false, ◌&&◌, ◌||◌, not, Str, [], ◌∷◌,
  ◌++◌, arith, leb, ltb, ◌==◌, if◌then◌else◌, codes, append_assoc, append-nil, Bool-cases, inl, inr,
}

unfoldable pub is_unescaped : ℕ → Bool
is_unescaped c =
    (leb 0x20 c && leb c 0x7E)
    && not (
        c == b'"'
        || (c == b'\\'
            || (c == b'&'
                || (c == 0x27 || (c == b'+' || (c == b'<' || (c == b'>' || c == b'`')))))))

-- `HEX[nibble]`
unfoldable pub hex_digit : ℕ → ℕ
hex_digit n = if ltb n 10 then b'0' + n else b'A' + (n - 10)

unfoldable pub write_u16_escape : ℕ → Str
unfolding hex_digit
write_u16_escape unit =
    b'\\'
    ∷ b'u'
    ∷ hex_digit (unit / 2 ^ 12)
    ∷ hex_digit (unit / 2 ^ 8 % 16)
    ∷ hex_digit (unit / 2 ^ 4 % 16)
    ∷ hex_digit (unit % 16)
    ∷ []

short_escape : ℕ → Str
short_escape c = b'\\' ∷ c ∷ []

-- the arm `other`: one unit, or a surrogate pair
unfoldable pub write_units : ℕ → Str
write_units code =
    if ltb 0xFFFF code
    then write_u16_escape (0xD800 + (code - 0x10000) / 2 ^ 10)
      ++ write_u16_escape (0xDC00 + (code - 0x10000) % 2 ^ 10)
    else write_u16_escape code

unfoldable pub write_char_escaped : ℕ → Str
unfolding is_unescaped short_escape
write_char_escaped ch =
    if is_unescaped ch
    then ch ∷ []
    else if ch == b'"'
    then codes "\\u0022"
    else if ch == b'\\'
    then short_escape b'\\'
    else if ch == 0x08
    then short_escape b'b'
    else if ch == 0x09
    then short_escape b't'
    else if ch == 0x0A
    then short_escape b'n'
    else if ch == 0x0C
    then short_escape b'f'
    else if ch == 0x0D
    then short_escape b'r'
    else write_units ch

-- The loop of `write_string_body`: `run` is the slice from `literal_start` to `index`.
body_loop : Str → Str → Str
body_loop [] run = run
body_loop (ch ∷ rest) run = elim (is_unescaped ch) [
  | true ↦ body_loop rest (run ++ ch ∷ [])
  | false ↦ run ++ (write_char_escaped ch ++ body_loop rest [])
]

unfoldable pub write_string_body : Str → Str
unfolding body_loop
write_string_body value = body_loop value []

unfoldable pub write_string : Str → Str
write_string value = b'"' ∷ (write_string_body value ++ b'"' ∷ [])

pub write_plain : (c : ℕ) → is_unescaped c ≡ true → write_char_escaped c ≡ c ∷ []
unfolding write_char_escaped
write_plain c h = ground arith

-- the reference: each character escaped on its own
pub escape_each : Str → Str
escape_each [] = []
escape_each (ch ∷ rest) = write_char_escaped ch ++ escape_each rest

body_loop_lem : (s run : Str) → body_loop s run ≡ run ++ escape_each s
unfolding body_loop escape_each
body_loop_lem [] run = sym (append-nil run)
body_loop_lem (ch ∷ rest) run = elim (Bool-cases (is_unescaped ch)) [
  | inl h ↦
      rw (h, body_loop)
        (rw (body_loop_lem rest (run ++ ch ∷ []), append_assoc) (rw (write_plain ch h)))
  | inr h ↦ rw (h, body_loop) (rw (body_loop_lem rest []) refl)
]

-- Copying the runs that need no escaping writes what escaping each character would.
pub write_string_body-escape_each : (s : Str) → write_string_body s ≡ escape_each s
unfolding write_string_body
write_string_body-escape_each s = body_loop_lem s []

pub escape_each-append : (s t : Str) → escape_each (s ++ t) ≡ escape_each s ++ escape_each t
unfolding escape_each
escape_each-append [] t = refl
escape_each-append (c ∷ s) t = simp (escape_each-append s t, append_assoc)

pub write_string_body-append :
    (s t : Str) → write_string_body (s ++ t) ≡ write_string_body s ++ write_string_body t
write_string_body-append s t = simp (write_string_body-escape_each, escape_each-append)

pub write_string_body_char : (c : ℕ) → write_string_body (c ∷ []) ≡ write_char_escaped c
write_string_body_char c =
    write_string_body-escape_each (c ∷ []) ∙ unfold escape_each in append-nil (write_char_escaped c)
