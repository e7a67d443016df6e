-- ===== src/Json/Parse.antt =====
-- `parse`, `parse_object` and `parse_answers` of src/json/parse.rs: the parser that builds a value.
-- A loop is a function on fuel that receives what it calls next; `parse` gives fuel enough.
pub mod Total
use colander.Prelude.{
  ℕ, zero, suc, ◌+◌, ◌*◌, true, false, ◌||◌, ◌&&◌, Str, Bytes, [], ◌∷◌, ◌++◌, Option, none, some,
  ◌==◌, leb, ltb, ◌/◌, ◌%◌, if◌then◌else◌, codes, Result, ok, err, fail, length, is_empty,
}
use colander.Text.Utf8.{as_bytes}
use colander.Json.{
  Json, Items, JsonMap, null, boolean, number, string, array, object, nil, empty, push,
}
use colander.Json.Map.{insert}
use colander.Json.Escape.{hex_digit}
use colander.Json.Input.{
  Input, Parser, ◌>>=◌, ◌>>◌, pure, error, peek, is_at, skip, expect, read_literal,
}
use colander.Json.Numbers.{scan_number}
use colander.Json.Strings.{parse_string, step}

abbrev pub max_depth : ℕ
max_depth = 64

-- the arms of the match on the first byte of a value
pub data Lead : Type 0 where
  open_object open_array quote true_word false_word null_word digit end_of_input : Lead
  other : ℕ → Lead

lead_byte : ℕ → Lead
lead_byte b =
    if b == b'{'
    then open_object
    else if b == b'['
    then open_array
    else if b == b'"'
    then quote
    else if b == b't'
    then true_word
    else if b == b'f'
    then false_word
    else if b == b'n'
    then null_word
    else if b == b'-' || (leb b'0' b && leb b b'9')
    then digit
    else other b

unfoldable pub lead : Option ℕ → Lead
unfolding lead_byte
lead none = end_of_input
lead (some b) = lead_byte b

-- `{other:02X}` of a byte
unfoldable pub hex_byte : ℕ → Str
hex_byte b = hex_digit (b / 16) ∷ hex_digit (b % 16) ∷ []

unfoldable pub too_deep {ℓ} : {A : Type ℓ} → Parser A
too_deep = error (codes "JSON exceeds the maximum nesting depth")

unfoldable pub unexpected {ℓ} : {A : Type ℓ} → ℕ → Parser A
unfolding hex_byte
unexpected b = error (codes "unexpected byte 0x" ++ hex_byte b)

-- The start of an object or an array: the bracket, and whether it closes at once.
unfoldable pub enter {ℓ} : {A : Type ℓ} → ℕ → ℕ → Parser A → Parser A → Parser A
unfolding step
enter bracket close at_once loop = do
  expect bracket
  skip
  (λ i. if is_at close (peek i) then (do step; at_once) i else loop i)

-- The end of a round of a loop: a comma, the closing bracket, or the message.
unfoldable pub after_value {ℓ} : {A : Type ℓ} → ℕ → Str → Parser A → Parser A → Parser A
unfolding step
after_value close message again done i =
    if is_at b',' (peek i)
    then (do step; again) i
    else if is_at close (peek i)
    then (do step; done) i
    else error message i

-- One round of the loop in `parse_object`: the value is parsed by `element`.
unfoldable pub member_round : Parser Json → (JsonMap → Parser Json) → JsonMap → Parser Json
member_round element again map = do
  skip
  key ← parse_string
  skip
  expect b':'
  skip
  v ← element
  skip
  after_value b'}' (codes "expected ',' or '}'") (again (insert map key v))
      (pure (object (insert map key v)))

-- One round of the loop in `parse_array`.
unfoldable pub item_round : Parser Json → (Items → Parser Json) → Items → Parser Json
item_round element again items = do
  skip
  v ← element
  skip
  after_value b']' (codes "expected ',' or ']'") (again (push items v))
      (pure (array (push items v)))

unfoldable pub read_value : (JsonMap → Parser Json) → (Items → Parser Json) → Lead → Parser Json
read_value members items open_object = enter b'{' b'}' (pure (object empty)) (members empty)
read_value members items open_array = enter b'[' b']' (pure (array nil)) (items nil)
read_value members items quote = do s ← parse_string; pure (string s)
read_value members items true_word = do read_literal (codes "true"); pure (boolean true)
read_value members items false_word = do read_literal (codes "false"); pure (boolean false)
read_value members items null_word = do read_literal (codes "null"); pure null
read_value members items digit = do s ← scan_number; pure (number s)
read_value members items (other b) = unexpected b
read_value members items end_of_input = error (codes "unexpected end of input")

unfoldable pub guarded_value : ℕ → (JsonMap → Parser Json) → (Items → Parser Json) → Parser Json
unfolding read_value
guarded_value depth members items i =
    if ltb max_depth depth then too_deep i else read_value members items (lead (peek i)) i

unfoldable mutual
  pub parse_value : ℕ → ℕ → Parser Json
  parse_value zero depth i = Result.out_of_fuel
  parse_value (suc f) depth i = guarded_value depth (parse_members f depth) (parse_items f depth) i

  pub parse_members : ℕ → ℕ → JsonMap → Parser Json
  parse_members zero depth map i = Result.out_of_fuel
  parse_members (suc f) depth map i =
      member_round (parse_value f (depth + 1)) (parse_members f depth) map i

  pub parse_items : ℕ → ℕ → Items → Parser Json
  parse_items zero depth items i = Result.out_of_fuel
  parse_items (suc f) depth items i =
      item_round (parse_value f (depth + 1)) (parse_items f depth) items i

-- Each call but a value's loop consumes a byte before the next one of its kind.
abbrev pub fuel_for : Bytes → ℕ
fuel_for bytes = 2 * length bytes + 2

unfoldable pub at_end {ℓ} : {A : Type ℓ} → A → Parser A
at_end a i = if is_empty i.rest then ok (a, i) else error (codes "unexpected trailing content") i

unfoldable pub start : Bytes → Input
start bytes = record { rest = bytes; position = 0 }

-- the value, without the place where the parser stands
unfoldable pub value_of {ℓ} : {A : Type ℓ} → Result (A × Input) → Result A
value_of (ok (a, i)) = ok a
value_of (err e) = err e
value_of Result.panic = Result.panic
value_of Result.out_of_fuel = Result.out_of_fuel

unfoldable pub parse : Str → Result Json
unfolding value_of at_end start
parse text =
    let bytes = as_bytes text in
    value_of ((do skip; v ← parse_value (fuel_for bytes) 0; skip; at_end v) (start bytes))

labelled : Str → Str → Str → Result Json → Result JsonMap
labelled parse_label type_label expected (ok (object map)) = ok map
labelled parse_label type_label expected (ok _) = fail (type_label ++ expected)
labelled parse_label type_label expected (err e) = fail (parse_label ++ (codes ": " ++ e.message))
labelled parse_label type_label expected Result.panic = Result.panic
labelled parse_label type_label expected Result.out_of_fuel = Result.out_of_fuel

unfoldable pub parse_object : Str → Str → Result JsonMap
unfolding labelled
parse_object text label =
    labelled (codes "JSON_PARSE_ERROR: Invalid " ++ label)
      (codes "JSON_NOT_OBJECT: Invalid " ++ label) (codes ": expected a JSON object.") (parse text)

unfoldable pub parse_answers : Str → Result JsonMap
unfolding labelled
parse_answers text =
    labelled (codes "JSON_PARSE_ERROR: Answers must be valid JSON")
      (codes "JSON_NOT_OBJECT: Answers must be a JSON object.") [] (parse text)
