-- ===== src/Json/Strings.antt =====
-- `read_string` of src/json/parse.rs, its escapes, and its two sinks.
pub mod Sinks
pub mod Bounds
use colander.Prelude.{
  ℕ, zero, suc, ◌+◌, ◌-◌, ◌*◌, ◌^◌, ◌≤◌, ◌<◌, Bool, true, false, ◌||◌, ◌&&◌, not, Str, Bytes, [],
  ◌∷◌, ◌++◌, Option, none, some, ◌==◌, leb, ltb, if◌then◌else◌, codes, Result, ok, fail, length,
  take, drop,
}
use colander.Text.Utf8.{Utf8, valid, invalid, from_utf8}
use colander.Json.Escape.{write_string_body, write_char_escaped}
use colander.Json.Input.{
  Input, Parser, ◌>>=◌, ◌>>◌, pure, error, require, message_at, peek, bump, is_at, expect,
}

-- `StrSink`: where a decoded string goes
pub data Sink : Type 0 where
  value escaped : Sink

unfoldable pub sink_push_str : Sink → Str → Str → Str
sink_push_str value out text = out ++ text
sink_push_str escaped out text = out ++ write_string_body text

unfoldable pub sink_push_char : Sink → Str → ℕ → Str
sink_push_char value out ch = out ++ ch ∷ []
sink_push_char escaped out ch = out ++ write_char_escaped ch

is_unquoted : ℕ → Bool
is_unquoted b = leb 0x20 b && (not (b == b'"') && not (b == b'\\'))

utf8_width : ℕ → ℕ
utf8_width b =
    if leb b 0x7F
    then 1
    else if leb 0xC0 b && leb b 0xDF
    then 2
    else if leb 0xE0 b && leb b 0xEF
    then 3
    else 4

-- `utf8_error(self.bytes, at)`, where `tail` is `bytes[at..]`
utf8_error {ℓ} : {A : Type ℓ} → Bytes → ℕ → Result A
utf8_error [] at = Result.panic
utf8_error (b ∷ tail) at =
    if ltb (length (b ∷ tail)) (utf8_width b)
    then fail (message_at (codes "truncated UTF-8 sequence") at)
    else fail (message_at (codes "invalid UTF-8") at)

-- the bytes that need no interpretation
run_of : Bytes → Bytes
run_of [] = []
run_of (b ∷ s) = let more = run_of s in if is_unquoted b then b ∷ more else []

after_run : Bytes → ℕ → Input
after_run [] n = record { rest = []; position = n }
after_run (b ∷ s) n =
    let later = after_run s (n + 1) in
    if is_unquoted b then later else record { rest = b ∷ s; position = n }

-- `from_utf8` of the run, pushed into the sink
push_run : Sink → Str → Input → Utf8 → Parser Str
unfolding utf8_error utf8_width
push_run sink out start (valid text) i = ok (sink_push_str sink out text, i)
push_run sink out start (invalid n) i = utf8_error (drop n start.rest) (start.position + n)

-- the value of one digit of `from_str_radix(_, 16)`
hex_value : ℕ → Option ℕ
hex_value c =
    if leb b'0' c && leb c b'9'
    then some (c - b'0')
    else if leb b'a' c && leb c b'f'
    then some (c - b'a' + 10)
    else if leb b'A' c && leb c b'F'
    then some (c - b'A' + 10)
    else none

add_digit : ℕ → Option ℕ → Option ℕ
add_digit n none = none
add_digit n (some d) = some (n * 16 + d)

radix_digits : Str → Option ℕ → Option ℕ
unfolding hex_value add_digit
radix_digits s none = none
radix_digits [] (some n) = some n
radix_digits (c ∷ s) (some n) = radix_digits s (add_digit n (hex_value c))

-- `u32::from_str_radix(text, 16)`, which also takes a plus sign
from_str_radix : Str → Option ℕ
unfolding radix_digits
from_str_radix [] = none
from_str_radix (c ∷ []) = radix_digits (c ∷ []) (some 0)
from_str_radix (c ∷ d ∷ s) =
    if c == b'+' then radix_digits (d ∷ s) (some 0) else radix_digits (c ∷ d ∷ s) (some 0)

hex_text : Utf8 → Option ℕ
hex_text (valid s) = from_str_radix s
hex_text (invalid n) = none

-- `self.bytes.get(position..position + 4)`
four_bytes : Bytes → Option (Bytes × Bytes)
four_bytes (a ∷ b ∷ c ∷ d ∷ s) = some ((a ∷ b ∷ c ∷ d ∷ []), s)
four_bytes _ = none

unfoldable pub parse_hex4 : Parser ℕ
unfolding four_bytes hex_text from_str_radix
parse_hex4 i =
    (do
      (slice, s) ← require (four_bytes i.rest) (codes "truncated unicode escape")
      n ← require (hex_text (from_utf8 slice)) (codes "invalid unicode escape")
      (λ _. ok (n, record { rest = s; position = i.position + 4 })))
      i

-- `char::from_u32`
from_u32 : ℕ → Option ℕ
from_u32 c = if ltb c 0xD800 || (leb 0xE000 c && ltb c 0x110000) then some c else none

-- `self.peek() == Some(b'\\') && self.bytes.get(self.position + 1) == Some(&b'u')`
pair_follows : Bytes → Bool
pair_follows (a ∷ b ∷ s) = a == b'\\' && b == b'u'
pair_follows _ = false

low_surrogate : ℕ → ℕ → Parser ℕ
unfolding from_u32
low_surrogate high low =
    if leb 0xDC00 low && ltb low 0xE000
    then require (from_u32 (0x10000 + (high - 0xD800) * 2 ^ 10 + (low - 0xDC00)))
        (codes "invalid surrogate pair")
    else error (codes "invalid low surrogate")

unfoldable pub step : Parser (Unit {0})
step i = ok (tt, bump i)

surrogate_pair : ℕ → Parser ℕ
unfolding pair_follows low_surrogate step
surrogate_pair high i =
    if pair_follows i.rest
    then (do step; step; low ← parse_hex4; low_surrogate high low) i
    else error (codes "lone high surrogate") i

code_unit : ℕ → Parser ℕ
unfolding surrogate_pair from_u32
code_unit high i =
    if leb 0xD800 high && ltb high 0xDC00
    then surrogate_pair high i
    else if leb 0xDC00 high && ltb high 0xE000
    then error (codes "lone low surrogate") i
    else require (from_u32 high) (codes "invalid unicode escape") i

unfoldable pub parse_unicode_escape : Parser ℕ
unfolding code_unit
parse_unicode_escape = do high ← parse_hex4; code_unit high

-- the character that an escape stands for
escape_char : ℕ → Parser ℕ
escape_char b i =
    if b == b'"'
    then ok (b'"', i)
    else if b == b'\\'
    then ok (b'\\', i)
    else if b == b'/'
    then ok (b'/', i)
    else if b == b'b'
    then ok (0x08, i)
    else if b == b'f'
    then ok (0x0C, i)
    else if b == b'n'
    then ok (0x0A, i)
    else if b == b'r'
    then ok (0x0D, i)
    else if b == b't'
    then ok (0x09, i)
    else if b == b'u'
    then parse_unicode_escape i
    else error (codes "invalid escape '\\" ++ (b ∷ codes "'")) i

-- behind the backslash
unfoldable pub parse_escape : Parser ℕ
unfolding escape_char step
parse_escape i = (do b ← require (peek i) (codes "unterminated escape"); step; escape_char b) i

-- where a run stops: the closing quote, an escape, or an error
unfoldable pub at_stop : (Str → Parser Str) → Sink → Str → Option ℕ → Parser Str
unfolding step
at_stop again sink out none = error (codes "unterminated string")
at_stop again sink out (some b) =
    if b == b'"'
    then (do step; pure out)
    else if b == b'\\'
    then (do step; ch ← parse_escape; again (sink_push_char sink out ch))
    else error (codes "unescaped control character")

-- One round of the loop in `read_string`.
unfoldable pub chunk : (Str → Parser Str) → Sink → Str → Parser Str
unfolding run_of after_run is_unquoted push_run
chunk again sink out i =
    (do
      out' ← push_run sink out i (from_utf8 (run_of i.rest))
      (λ j. at_stop again sink out' (peek j) j))
      (after_run i.rest i.position)

unfoldable pub read_chunks : ℕ → Sink → Str → Parser Str
unfolding chunk
read_chunks zero sink out i = Result.out_of_fuel
read_chunks (suc fuel) sink out i = chunk (read_chunks fuel sink) sink out i

-- Every round but the last takes two bytes or more, so the bytes left are fuel enough.
unfoldable pub read_string : Sink → Str → Parser Str
unfolding read_chunks
read_string sink out = do expect b'"'; (λ i. read_chunks (suc (length i.rest)) sink out i)

unfoldable pub parse_string : Parser Str
unfolding read_string
parse_string = read_string value []

-- the quotes are written here, the text between them by the reader
unfoldable pub write_string_stream : Str → Parser Str
unfolding read_string
write_string_stream out = do out' ← read_string escaped (out ++ b'"' ∷ []); pure (out' ++ b'"' ∷ [])
