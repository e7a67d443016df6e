-- ===== src/Json/Input/Below.antt =====
-- How much of the input a parser leaves, and that it neither panics nor runs out of fuel.
use colander.Prelude.{
  ℕ, suc, ◌+◌, ◌≤◌, ◌<◌, ◌≡◌, refl, Bool, true, false, Str, Bytes, [], ◌∷◌, Option, none, some,
  arith, Result, ok, err, length, if◌then◌else◌,
}
use colander.Json.Input.{
  Input, Parser, ◌>>=◌, error, require, peek, bump, bump_bytes, skip, skip_bytes, expect,
  read_literal, literal_at, strip_prefix, is_at, head,
}

-- bytes that are left
abbrev pub left : Input → ℕ
left i = length i.rest

-- A value with fewer than `m` bytes left, or an error message.
abbrev pub Below {ℓ} : {A : Type ℓ} → ℕ → Result (A × Input) → Type 0
Below m (ok (a, j)) = left j < m
Below m (err e) = Unit
Below m Result.panic = ⊥
Below m Result.out_of_fuel = ⊥

pub Below-mono {ℓ} : {A : Type ℓ} (m n : ℕ) (r : Result (A × Input)) → m ≤ n → Below m r → Below n r
Below-mono m n (ok (a, j)) h b = omega arith
Below-mono m n (err e) h b = tt
Below-mono m n Result.panic h b = b
Below-mono m n Result.out_of_fuel h b = b

pub Below-bind {ℓ κ} :
    {A : Type ℓ} {B : Type κ} (m n : ℕ) (p : Parser A) (f : A → Parser B) (i : Input)
    → Below m (p i)
    → ((a : A) (j : Input) → left j < m → Below n (f a j))
    → Below n ((p >>= f) i)
Below-bind {A = A} m n p f i b h = go (p i) b
  where
    go : (r : Result (A × Input)) → Below m r → Below n (((λ _. r) >>= f) i)
    go (ok (a, j)) c = h a j c
    go (err e) c = tt
    go Result.panic c = c
    go Result.out_of_fuel c = c

pub Below-require {ℓ} :
    {A : Type ℓ} (o : Option A) (message : Str) (i : Input)
    → Below (suc (left i)) (require o message i)
unfolding require error
Below-require none message i = tt
Below-require (some a) message i = omega arith

-- what follows where there is a value
pub Below-require_then {ℓ κ} :
    {A : Type ℓ} {B : Type κ} (n : ℕ) (o : Option A) (message : Str) (f : A → Parser B) (i : Input)
    → ((a : A) → o ≡ some a → Below n (f a i))
    → Below n ((require o message >>= f) i)
unfolding require error
Below-require_then n none message f i h = tt
Below-require_then n (some a) message f i h = h a refl

left-skip_bytes : (s : Bytes) (n : ℕ) → left (skip_bytes s n) ≤ length s
unfolding skip_bytes
left-skip_bytes [] n = omega arith
left-skip_bytes (b ∷ s) n = ground (arith, left-skip_bytes s (n + 1))

pub Below-skip : (i : Input) → Below (suc (left i)) (skip i)
unfolding skip
Below-skip i = omega (arith, left-skip_bytes i.rest i.position)

-- where a byte is at hand, moving on leaves fewer
pub left-bump : (i : Input) {b : ℕ} → peek i ≡ some b → left (bump i) < left i
unfolding peek bump
left-bump i h = go i.rest h
  where
    go : (s : Bytes) {b : ℕ} → head s ≡ some b → left (bump_bytes s i.position) < length s
    go [] e = absurd (cc)
    go (c ∷ s) e = omega arith

pub is_at-some : (b : ℕ) (o : Option ℕ) → is_at b o ≡ true → (c : ℕ) × (o ≡ some c)
unfolding is_at
is_at-some b none h = absurd (cc)
is_at-some b (some c) h = (c, refl)

pub left-bump_at : (b : ℕ) (i : Input) → is_at b (peek i) ≡ true → left (bump i) < left i
left-bump_at b i h = let (c, e) = is_at-some b (peek i) h in left-bump i e

module _ {ℓ} {A : Type ℓ} (m : ℕ) where
  pub Below-if :
      (t : Bool) (r s : Result (A × Input))
      → (t ≡ true → Below m r)
      → (t ≡ false → Below m s)
      → Below m (if t then r else s)
  Below-if true r s h k = h refl
  Below-if false r s h k = k refl

  -- the same where the test chooses between two parsers
  pub Below-choice :
      (t : Bool) (p q : Parser A) (i : Input)
      → (t ≡ true → Below m (p i))
      → (t ≡ false → Below m (q i))
      → Below m ((if t then p else q) i)
  Below-choice true p q i h k = h refl
  Below-choice false p q i h k = k refl

pub Below-expect : (b : ℕ) (i : Input) → Below (left i) (expect b i)
unfolding expect
Below-expect b i = Below-if (left i) (is_at b (peek i)) _ _ (λ e. left-bump_at b i e) (λ _. tt)

strip_prefix-shorter :
    (p s : Str) {t : Bytes} → strip_prefix p s ≡ some t → length t + length p ≡ length s
unfolding strip_prefix
strip_prefix-shorter [] s h = ground arith
strip_prefix-shorter (c ∷ p) [] h = absurd (cc)
strip_prefix-shorter (c ∷ p) (b ∷ s) {t} h =
    omega (arith, strip_prefix-shorter p s {t = t} (ground arith))

-- a word that is not empty takes some of the input
pub Below-literal :
    (c : ℕ) (literal : Str) (i : Input) → Below (left i) (read_literal (c ∷ literal) i)
unfolding read_literal
Below-literal c literal i = go (strip_prefix (c ∷ literal) i.rest) refl
  where
    go :
        (o : Option Bytes)
        → strip_prefix (c ∷ literal) i.rest ≡ o
        → Below (left i) (literal_at (c ∷ literal) o i)
    go none e = tt
    go (some t) e = omega (arith, strip_prefix-shorter (c ∷ literal) i.rest e)
