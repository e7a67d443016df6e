-- ===== src/Json/Stream.antt =====
-- `ordered_stream` of src/json/parse.rs: one pass that validates a text and writes its ordered form.
-- What it writes is ASCII, so the characters of `out` are its bytes.
pub mod Keys
pub mod Agree
pub mod Rounds
pub mod Correct
pub mod Settles
use Prim.Native.Nat.{bit_xor}
use colander.Prelude.{
  ℕ, zero, suc, ◌+◌, ◌*◌, ◌%◌, ◌^◌, Bool, true, false, ◌||◌, ◌&&◌, Str, Bytes, List, [], ◌∷◌, ◌++◌,
  ◌==◌, ltb, str_eq, if◌then◌else◌, codes, Result, ok, err, length, take, drop, any, map_ok,
}
use colander.Text.Utf8.{as_bytes}
use colander.Json.Input.{Input, Parser, ◌>>=◌, ◌>>◌, pure, error, peek, skip, expect, read_literal}
use colander.Json.Numbers.{scan_number}
use colander.Json.Strings.{write_string_stream}
use colander.Json.Write.{ordered}
use colander.Json.Parse.{
  Lead, open_object, open_array, quote, true_word, false_word, null_word, digit, end_of_input,
  other, lead, max_depth, too_deep, unexpected, enter, after_value, fuel_for, at_end, start,
  value_of, parse,
}

-- an entry of `seen`: the hash of a key's token, and where the token stands in the output
abbrev pub SeenKey : Type 0
SeenKey = ℕ × ℕ × ℕ

-- the output and the fields `seen` and `repeated` of the parser
pub record Stream : Type 0 where
  pub out : Str
  pub seen : List SeenKey
  pub repeated : Bool

-- `out.push_str`
abbrev pub push_out : Stream → Str → Stream
push_out st text = record st { out = st.out ++ text }

-- `self.seen.truncate(mark)`
abbrev pub truncate : ℕ → Stream → Stream
truncate mark st = record st { seen = take mark st.seen }

hash_from : ℕ → Bytes → ℕ
hash_from hash [] = hash
hash_from hash (b ∷ s) = hash_from (bit_xor hash b * 0x100000001B3 % 2 ^ 64) s

unfoldable pub hash_bytes : Bytes → ℕ
unfolding hash_from
hash_bytes bytes = hash_from 0xcbf29ce484222325 bytes

-- `out[start..end]`
unfoldable pub slice : Str → ℕ → ℕ → Str
slice out first last = drop first (take last out)

unfoldable pub is_same_key : Str → Str → SeenKey → Bool
is_same_key out token (hash, first, last) =
    hash == hash_bytes token && str_eq (slice out first last) token

-- the `if !self.repeated` behind a key that stands in the output from `key_start` on
unfoldable pub note_key : ℕ → ℕ → Stream → Stream
note_key mark key_start st =
    if st.repeated
    then st
    else let token = slice st.out key_start (length st.out) in
      if any (is_same_key st.out token) (drop mark st.seen)
      then record st { repeated = true }
      else record st { seen = st.seen ++ (hash_bytes token, key_start, length st.out) ∷ [] }

unfoldable pub key_stream : ℕ → Stream → Parser Stream
unfolding note_key
key_stream mark st = do
  out' ← write_string_stream st.out
  pure (note_key mark (length st.out) (record st { out = out' }))

-- One round of the loop in `parse_object_stream`.
unfoldable pub member_round_stream :
    (Stream → Parser Stream) → (Stream → Parser Stream) → ℕ → Stream → Parser Stream
member_round_stream element again mark st = do
  skip
  st1 ← key_stream mark st
  skip
  expect b':'
  skip
  st2 ← element (push_out st1 (b':' ∷ []))
  skip
  after_value b'}' (codes "expected ',' or '}'") (again (push_out st2 (b',' ∷ [])))
      (pure (truncate mark (push_out st2 (b'}' ∷ []))))

-- One round of the loop in `parse_array_stream`.
unfoldable pub item_round_stream :
    (Stream → Parser Stream) → (Stream → Parser Stream) → Stream → Parser Stream
item_round_stream element again st = do
  skip
  st1 ← element st
  skip
  after_value b']' (codes "expected ',' or ']'") (again (push_out st1 (b',' ∷ [])))
      (pure (push_out st1 (b']' ∷ [])))

unfoldable pub literal_stream : Str → Stream → Parser Stream
literal_stream literal st = do read_literal literal; pure (push_out st literal)

unfoldable pub string_stream : Stream → Parser Stream
string_stream st = do out' ← write_string_stream st.out; pure (record st { out = out' })

unfoldable pub number_stream : Stream → Parser Stream
number_stream st = do s ← scan_number; pure (push_out st s)

-- The bracket is written before the loop, and `mark` is the length of `seen` there.
unfoldable pub read_value_stream :
    (ℕ → Stream → Parser Stream) → (Stream → Parser Stream) → Stream → Lead → Parser Stream
read_value_stream members items st open_object =
    let mark = length st.seen in
    enter b'{' b'}' (pure (truncate mark (push_out (push_out st (b'{' ∷ [])) (b'}' ∷ []))))
      (members mark (push_out st (b'{' ∷ [])))
read_value_stream members items st open_array =
    enter b'[' b']' (pure (push_out (push_out st (b'[' ∷ [])) (b']' ∷ [])))
      (items (push_out st (b'[' ∷ [])))
read_value_stream members items st quote = string_stream st
read_value_stream members items st true_word = literal_stream (codes "true") st
read_value_stream members items st false_word = literal_stream (codes "false") st
read_value_stream members items st null_word = literal_stream (codes "null") st
read_value_stream members items st digit = number_stream st
read_value_stream members items st (other b) = unexpected b
read_value_stream members items st end_of_input = error (codes "unexpected end of input")

unfoldable pub guarded_value_stream :
    ℕ → (ℕ → Stream → Parser Stream) → (Stream → Parser Stream) → Stream → Parser Stream
unfolding read_value_stream
guarded_value_stream depth members items st i =
    if ltb max_depth depth then too_deep i else read_value_stream members items st (lead (peek i)) i

unfoldable mutual
  pub parse_value_stream : ℕ → ℕ → Stream → Parser Stream
  parse_value_stream zero depth st i = Result.out_of_fuel
  parse_value_stream (suc f) depth st i =
      guarded_value_stream depth (parse_object_stream f depth) (parse_array_stream f depth) st i

  pub parse_object_stream : ℕ → ℕ → ℕ → Stream → Parser Stream
  parse_object_stream zero depth mark st i = Result.out_of_fuel
  parse_object_stream (suc f) depth mark st i =
      member_round_stream (parse_value_stream f (depth + 1)) (parse_object_stream f depth mark) mark
        st i

  pub parse_array_stream : ℕ → ℕ → Stream → Parser Stream
  parse_array_stream zero depth st i = Result.out_of_fuel
  parse_array_stream (suc f) depth st i =
      item_round_stream (parse_value_stream f (depth + 1)) (parse_array_stream f depth) st i

-- a document that repeats a key is parsed once more
finish : Str → Result Stream → Result Str
finish text (ok st) = if st.repeated then map_ok ordered (parse text) else ok st.out
finish text (err e) = err e
finish text Result.panic = Result.panic
finish text Result.out_of_fuel = Result.out_of_fuel

abbrev pub initial : Stream
initial = record { out = []; seen = []; repeated = false }

unfoldable pub ordered_stream : Str → Result Str
unfolding finish value_of at_end start
ordered_stream text =
    let bytes = as_bytes text in
    finish text (
      value_of (
        (do skip; st ← parse_value_stream (fuel_for bytes) 0 initial; skip; at_end st)
          (start bytes)))
