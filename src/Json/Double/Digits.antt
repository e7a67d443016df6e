-- ===== src/Json/Double/Digits.antt =====
-- `format_double` (src/json/write.rs) does not panic, if the standard library prints floating point
-- finite numbers as its documentation says.
use colander.Prelude.{
  ◌≡◌, ◌≢◌, refl, sym, ◌∙◌, subst, Bool, true, false, not, ◌&&◌, ◌==◌, Str, [], ◌∷◌, Option, some,
  Result, ok, ◌>>=◌, if◌then◌else◌, Bool-cases, inl, inr,
}
use colander.Prelude.Int.{ℤ, pos, negsuc, leb_ℤ}
use colander.Text.Decimal.{parse_i32}
use colander.Text.Trim.{split_once, trim_start_matches}
use colander.Floats.{Floats}
use colander.Json.Double.{
  double, format_double, format_digits, scientific_text, without_dots, expect,
}

-- What the documentation of `LowerExp` says of a finite number: digits, an `e`, and an exponent.
pub record PrintsAsDigits {F : Type 0} (floats : Floats F) (x : F) : Type 0 where
  pub mantissa : Str
  pub exponent_text : Str
  pub exponent : ℤ
  pub has_exponent :
      split_once (λ c. c == b'e') (floats.lower_exp x) ≡ some (mantissa, exponent_text)
  pub is_number : parse_i32 exponent_text ≡ some exponent
  pub has_digits : without_dots (trim_start_matches b'-' mantissa) ≢ []

abbrev pub IsOk {ℓ} : {A : Type ℓ} → Result A → Type ℓ
IsOk {A = A} r = (a : A) × (r ≡ ok a)

IsOk-if {ℓ} : {A : Type ℓ} (b : Bool) (r s : Result A) → IsOk r → IsOk s → IsOk (if b then r else s)
IsOk-if true r s h k = h
IsOk-if false r s h k = k

IsOk-bind {ℓ κ} :
    {A : Type ℓ} {B : Type κ} (r : Result A) (f : A → Result B)
    → IsOk r
    → ((a : A) → r ≡ ok a → IsOk (f a))
    → IsOk (r >>= f)
IsOk-bind r f (a, e) h = let (b, e') = h a e in (b, rw e e')

IsOk-expect {ℓ} : {A : Type ℓ} (o : Option A) {a : A} → o ≡ some a → expect o ≡ ok a
unfolding expect
IsOk-expect o e = rw e refl

scientific_text-IsOk : (digits : Str) (z : ℤ) → digits ≢ [] → IsOk (scientific_text digits z)
unfolding scientific_text
scientific_text-IsOk [] z h = absurd (h refl)
scientific_text-IsOk (d ∷ digits) z h = (_, refl)

format_digits-IsOk :
    (mantissa exponent_text : Str) {z : ℤ}
    → parse_i32 exponent_text ≡ some z
    → without_dots (trim_start_matches b'-' mantissa) ≢ []
    → IsOk (format_digits mantissa exponent_text)
unfolding format_digits
format_digits-IsOk mantissa exponent_text {z} e h =
    IsOk-bind (expect (parse_i32 exponent_text)) _ (z, IsOk-expect (parse_i32 exponent_text) e)
      λ exponent _.
        IsOk-bind _ _
          (IsOk-if (not (leb_ℤ (negsuc 3) exponent && leb_ℤ exponent (pos 16))) _ _
            (scientific_text-IsOk (without_dots (trim_start_matches b'-' mantissa)) exponent h)
            (_, refl))
          λ text _. (_, refl)

ok-injective {ℓ} : {A : Type ℓ} (a b : A) → ok a ≡ ok b → a ≡ b
ok-injective a b h = cc

-- A number that is not finite has no exponent to split off: `format_double` answers `null` before it
-- prints one.
module _ {F : Type 0} (floats : Floats F)
    (prints : (x : F) → floats.is_finite x ≡ true → PrintsAsDigits floats x) where
  finite-IsOk :
      (x : F)
      → PrintsAsDigits floats x
      → IsOk
          (expect (split_once (λ c. c == b'e') (floats.lower_exp x)) >>= λ t. format_digits t.0 t.1)
  finite-IsOk x p =
      let split = expect (split_once (λ c. c == b'e') (floats.lower_exp x)) in
      let split_ok : split ≡ ok (p.mantissa, p.exponent_text) =
        IsOk-expect (split_once (λ c. c == b'e') (floats.lower_exp x)) p.has_exponent in
      IsOk-bind split _ (_, split_ok)
        λ a q.
          subst (λ (t : Str × Str). IsOk (format_digits t.0 t.1))
            (ok-injective (p.mantissa, p.exponent_text) a (sym split_ok ∙ q))
            (format_digits-IsOk p.mantissa p.exponent_text p.is_number p.has_digits)

  format_double-IsOk : (x : F) → IsOk (format_double floats x)
  unfolding format_double
  format_double-IsOk x =
      IsOk-if (floats.is_zero x) _ _ (_, refl)
        (elim (Bool-cases (floats.is_finite x)) [
          | inl finite ↦ rw finite (finite-IsOk x (prints x finite))
          | inr infinite ↦ rw infinite (_, refl)
        ])

  pub double-IsOk : (x : F) → IsOk (double floats x)
  unfolding double
  double-IsOk x = IsOk-bind (format_double floats x) _ (format_double-IsOk x) λ text _. (_, refl)
