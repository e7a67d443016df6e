-- ===== src/Json/Input.antt =====
-- The parser's place in its input (src/json/parse.rs): `rest` is `bytes[position..]`.
pub mod Below
use colander.Prelude.{
  ℕ, ◌+◌, ◌-◌, Bool, false, ◌||◌, Str, Bytes, [], ◌∷◌, ◌++◌, Option, none, some, ◌==◌,
  if◌then◌else◌, codes, Result, ok, err, fail, take, length,
}
use colander.Text.Decimal.{show_nat}

pub record Input : Type 0 where
  pub rest : Bytes
  pub position : ℕ

-- A method of the parser that may fail: its value and where the parser stands then.
abbrev pub Parser {ℓ} : Type ℓ → Type ℓ
Parser A = Input → Result (A × Input)

infixl 5 ◌>>=◌ ◌>>◌
abbrev pub ◌>>=◌ {ℓ κ} : {A : Type ℓ} {B : Type κ} → Parser A → (A → Parser B) → Parser B
◌>>=◌ m f i = elim (m i) [
  | ok (a, j) ↦ f a j
  | err e ↦ err e
  | Result.panic ↦ Result.panic
  | Result.out_of_fuel ↦ Result.out_of_fuel
]

abbrev pub ◌>>◌ {ℓ κ} : {A : Type ℓ} {B : Type κ} → Parser A → Parser B → Parser B
m >> k = m >>= λ _. k

-- the same outcome, with the value mapped
abbrev pub over {ℓ κ} :
    {A : Type ℓ} {B : Type κ} → (A → B) → Result (A × Input) → Result (B × Input)
over g (ok (a, i)) = ok (g a, i)
over g (err e) = err e
over g Result.panic = Result.panic
over g Result.out_of_fuel = Result.out_of_fuel

abbrev pub pure {ℓ} : {A : Type ℓ} → A → Parser A
pure a i = ok (a, i)

unfoldable pub message_at : Str → ℕ → Str
message_at message at = message ++ (codes " at byte offset " ++ (show_nat at ++ codes "."))

-- `Parser::error`
unfoldable pub error {ℓ} : {A : Type ℓ} → Str → Parser A
unfolding message_at
error message i = fail (message_at message i.position)

-- `ok_or_else(|| self.error(..))?`
unfoldable pub require {ℓ} : {A : Type ℓ} → Option A → Str → Parser A
unfolding error
require none message = error message
require (some a) message = pure a

head : Bytes → Option ℕ
head [] = none
head (b ∷ s) = some b

unfoldable pub peek : Input → Option ℕ
unfolding head
peek i = head i.rest

unfoldable pub bump_bytes : Bytes → ℕ → Input
bump_bytes [] n = record { rest = []; position = n + 1 }
bump_bytes (b ∷ s) n = record { rest = s; position = n + 1 }

-- `self.position += 1`
unfoldable pub bump : Input → Input
unfolding bump_bytes
bump i = bump_bytes i.rest i.position

unfoldable pub is_at : ℕ → Option ℕ → Bool
is_at b none = false
is_at b (some c) = c == b

is_whitespace : ℕ → Bool
is_whitespace c = c == b' ' || (c == 0x09 || (c == 0x0A || c == 0x0D))

skip_bytes : Bytes → ℕ → Input
skip_bytes [] n = record { rest = []; position = n }
skip_bytes (b ∷ s) n =
    let later = skip_bytes s (n + 1) in
    if is_whitespace b then later else record { rest = b ∷ s; position = n }

unfoldable pub skip_whitespace : Input → Input
unfolding skip_bytes is_whitespace
skip_whitespace i = skip_bytes i.rest i.position

unfoldable pub skip : Parser (Unit {0})
unfolding skip_whitespace
skip i = ok (tt, skip_whitespace i)

unfoldable pub expect : ℕ → Parser (Unit {0})
unfolding is_at peek bump error
expect b i =
    if is_at b (peek i) then ok (tt, bump i) else error (codes "expected '" ++ (b ∷ codes "'")) i

-- what is left behind a prefix
unfoldable pub strip_prefix : Str → Bytes → Option Bytes
strip_prefix [] s = some s
strip_prefix (c ∷ p) [] = none
strip_prefix (c ∷ p) (b ∷ s) = if b == c then strip_prefix p s else none

literal_at : Str → Option Bytes → Parser (Unit {0})
unfolding error
literal_at literal none i = error (codes "expected " ++ literal) i
literal_at literal (some s) i = ok (tt, record { rest = s; position = i.position + length literal })

-- `parse_literal` and `parse_literal_stream`, up to what they do with the literal
unfoldable pub read_literal : Str → Parser (Unit {0})
unfolding literal_at strip_prefix
read_literal literal i = literal_at literal (strip_prefix literal i.rest) i

-- `&self.bytes[start..self.position]`
unfoldable pub slice_between : Input → Input → Bytes
slice_between start i = take (i.position - start.position) start.rest
