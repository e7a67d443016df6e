-- ===== src/Semver/Order.antt =====
-- `impl Ord for VersionParts` of src/semver.rs is a total order.
use colander.Prelude.{◌≡◌, ◌≢◌, refl, false, ◌↔◌, ◌⊎◌, true, arith, ap, sym, ◌∙◌}
use colander.Prelude.Int.{ℤ, eq_of_parts, ◌<ℤ◌}
use colander.Semver.{
  VersionParts, Ordering, less, equal, greater, cmp_int, then_with, cmp, at_least,
}

pub flip : Ordering → Ordering
flip less = greater
flip equal = equal
flip greater = less

cmp_int-flip : (a b : ℤ) → cmp_int b a ≡ flip (cmp_int a b)
unfolding cmp_int flip
cmp_int-flip a b = ground arith

flip-then_with : (o p : Ordering) → flip (then_with o p) ≡ then_with (flip o) (flip p)
unfolding then_with flip
flip-then_with less p = refl
flip-then_with equal p = refl
flip-then_with greater p = refl

-- Swapping the arguments reverses the answer.
pub cmp-flip : (a b : VersionParts) → cmp b a ≡ flip (cmp a b)
cmp-flip a b =
    unfold cmp in
    rw (
      cmp_int-flip a.major b.major,
      cmp_int-flip a.minor b.minor,
      cmp_int-flip a.patch b.patch,
      flip-then_with,
      flip-then_with,
    )

-- what an answer says of the two numbers
abbrev Says : Ordering → ℤ → ℤ → Type 0
Says less a b = a <ℤ b
Says equal a b = a ≡ b
Says greater a b = b <ℤ a

cmp_int_view :
    (a b : ℤ)
    → ((cmp_int a b ≡ less) × (a <ℤ b))
      ⊎ ((cmp_int a b ≡ equal) × (a ≡ b))
      ⊎ ((cmp_int a b ≡ greater) × (b <ℤ a))
unfolding cmp_int
cmp_int_view a b = ground (arith, eq_of_parts a b)

-- the lexicographic order, as a statement
abbrev pub Before : VersionParts → VersionParts → Type 0
Before a b =
    (a.major <ℤ b.major)
    ⊎ ((a.major ≡ b.major) × ((a.minor <ℤ b.minor) ⊎ ((a.minor ≡ b.minor) × (a.patch <ℤ b.patch))))

cmp_view :
    (a b : VersionParts)
    → ((cmp a b ≡ less) × Before a b)
      ⊎ ((cmp a b ≡ equal) × (a ≡ b))
      ⊎ ((cmp a b ≡ greater) × Before b a)
unfolding cmp
cmp_view a b = ground (
  arith,
  cmp_int_view a.major b.major,
  cmp_int_view a.minor b.minor,
  cmp_int_view a.patch b.patch,
)

cmp_self : (a : VersionParts) → cmp a a ≡ equal
unfolding cmp cmp_int
cmp_self a = ground arith

-- Two versions compare as equal exactly when they are the same.
pub cmp-equal_iff : (a b : VersionParts) → (cmp a b ≡ equal) ↔ (a ≡ b)
cmp-equal_iff a b = (λ h. ground (arith, cmp_view a b), λ e. ap (cmp a) (sym e) ∙ cmp_self a)

Before-trans : (a b c : VersionParts) → Before a b → Before b c → Before a c
Before-trans a b c h k = ground arith

Before-irrefl : (a : VersionParts) → ¬ Before a a
Before-irrefl a h = omega arith

-- `cmp` answers "less" exactly when the first version stands before the second one.
pub cmp-less_iff : (a b : VersionParts) → (cmp a b ≡ less) ↔ Before a b
cmp-less_iff a b = (λ h. ground (arith, cmp_view a b), λ h. ground (arith, cmp_view a b))

pub at_least-iff-not_less : (a b : VersionParts) → (at_least a b ≡ true) ↔ (cmp a b ≢ less)
unfolding at_least
at_least-iff-not_less a b = (λ h. ground arith, λ h. ground arith)

-- "At least" is reflexive, total and transitive.
pub at_least_refl : (a : VersionParts) → at_least a a ≡ true
unfolding at_least
at_least_refl a = ground (arith, cmp_self a)

pub at_least_total : (a b : VersionParts) → at_least a b ≡ false → at_least b a ≡ true
unfolding at_least flip
at_least_total a b h = ground (arith, cmp-flip a b)

pub at_least_trans :
    (a b c : VersionParts) → at_least a b ≡ true → at_least b c ≡ true → at_least a c ≡ true
unfolding at_least
at_least_trans a b c h k = ground (arith, cmp_view a b, cmp_view b c, cmp_view a c)

pub at_least-Before : (w v p : VersionParts) → Before v w → at_least v p ≡ true → cmp w p ≡ greater
unfolding at_least
at_least-Before w v p h k =
    ground (arith, cmp_view v p, cmp_view w p, cmp_view v w, Before-trans w p v)
