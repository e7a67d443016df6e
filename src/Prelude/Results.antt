-- ===== src/Prelude/Results.antt =====
-- src/error.rs: `ColanderError` and `Result`. A third outcome stands for a panic, such as a slice
-- off a character boundary, and a fourth for a model that ran out of fuel.
use mathlib.Core.Path.{◌≡◌, refl}
use mathlib.Core.Option.{Option, none, some}
use colander.Prelude.Lists.{Str}

pub record ColanderError : Type 0 where
  pub message : Str

pub data Result {ℓ} (A : Type ℓ) : Type ℓ where
  ok : A → Result A
  err : ColanderError → Result A
  panic : Result A
  out_of_fuel : Result A

-- `ColanderError::new` behind `Err`.
abbrev pub fail {ℓ} : {A : Type ℓ} → Str → Result A
fail m = err (record { message = m })

infixl 5 ◌>>=◌ ◌>>◌
abbrev pub ◌>>=◌ {ℓ κ} : {A : Type ℓ} {B : Type κ} → Result A → (A → Result B) → Result B
ok a >>= f = f a
err e >>= f = err e
panic >>= f = panic
out_of_fuel >>= f = out_of_fuel

abbrev pub ◌>>◌ {ℓ} : {B : Type ℓ} → Result (Unit {0}) → Result B → Result B
m >> k = m >>= λ _. k

-- `ok_or_else`.
abbrev pub ok_or {ℓ} : {A : Type ℓ} → Option A → Str → Result A
ok_or none m = fail m
ok_or (some a) m = ok a

abbrev pub map_ok {ℓ κ} : {A : Type ℓ} {B : Type κ} → (A → B) → Result A → Result B
map_ok f r = r >>= λ a. ok (f a)

-- What stands behind a successful `?`.
module _ {ℓ κ} {A : Type ℓ} {B : Type κ} where
  pub bind-ok :
      (r : Result A) (next : A → Result B) {out : B}
      → (r >>= next) ≡ ok out
      → (got : A) × (r ≡ ok got) × (next got ≡ ok out)
  bind-ok (ok got) next reached = (got, refl, reached)
  bind-ok (err e) next reached = cc
  bind-ok panic next reached = cc
  bind-ok out_of_fuel next reached = cc
