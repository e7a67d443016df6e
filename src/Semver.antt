-- ===== src/Semver.antt =====
-- src/semver.rs: component versions, their order and the next version.
pub mod Order
pub mod RoundTrip
pub mod Next
mod Tests
use colander.Prelude.{
  ℕ, zero, suc, Bool, true, false, not, ◌&&◌, ◌||◌, Str, List, [], ◌∷◌, ◌+◌, ◌++◌, Option, none,
  some, codes, length, all, ltb, ◌==◌, str_eq, if◌then◌else◌, Result, ok, fail, ◌>>=◌, is_empty,
}
use colander.Prelude.Int.{ℤ, pos, negsuc, ltb_ℤ, eqb_ℤ, wrap_i32}
use colander.Text.Split.{split}
use colander.Text.Decimal.{is_digit, show_nat, show_int, parse_i32}

pub record VersionParts : Type 0 where
  pub major : ℤ
  pub minor : ℤ
  pub patch : ℤ

abbrev pub dot : ℕ → Bool
dot c = c == b'.'

-- `impl Display for VersionParts`
pub display : VersionParts → Str
display v = show_int v.major ++ (b'.' ∷ (show_int v.minor ++ (b'.' ∷ show_int v.patch)))

pub data Ordering : Type 0 where
  less equal greater : Ordering

-- `i32::cmp`
pub cmp_int : ℤ → ℤ → Ordering
cmp_int a b = if ltb_ℤ a b then less else if eqb_ℤ a b then equal else greater

-- `Ordering::then`
pub then_with : Ordering → Ordering → Ordering
then_with equal o = o
then_with o _ = o

-- `impl Ord for VersionParts`
pub cmp : VersionParts → VersionParts → Ordering
unfolding then_with
cmp a b =
    then_with (then_with (cmp_int a.major b.major) (cmp_int a.minor b.minor))
      (cmp_int a.patch b.patch)

starts_with_zero : Str → Bool
starts_with_zero [] = false
starts_with_zero (c ∷ s) = c == b'0'

pub is_plain_integer : Str → Bool
unfolding starts_with_zero
is_plain_integer s =
    not (is_empty s) && all is_digit s && (length s == 1 || not (starts_with_zero s))

invalid : Str → Str
invalid version = codes "INVALID_SEMVER: invalid semantic version: " ++ version

-- the `let` chain over the three segments
parse_parts : Str → Option ℤ → Option ℤ → Option ℤ → Result VersionParts
unfolding invalid
parse_parts version (some a) (some b) (some c) = ok (record { major = a; minor = b; patch = c })
parse_parts version _ _ _ = fail (invalid version)

parse_segments : Str → List Str → Result VersionParts
unfolding invalid parse_parts
parse_segments version (a ∷ b ∷ c ∷ []) =
    if all is_plain_integer (a ∷ b ∷ c ∷ [])
    then parse_parts version (parse_i32 a) (parse_i32 b) (parse_i32 c)
    else fail (invalid version)
parse_segments version _ = fail (invalid version)

pub parse : Str → Result VersionParts
unfolding parse_segments
parse version = parse_segments version (split dot version)

pub ensure_valid : Str → Result (Unit {0})
ensure_valid version = do v ← parse version; ok tt

pub compare : Str → Str → Result Ordering
compare left right = do l ← parse left; r ← parse right; ok (cmp l r)

pub data Bump : Type 0 where
  bump_patch bump_minor bump_major : Bump

-- `Bump::parse`
pub parse_bump : Str → Result Bump
parse_bump name =
    if str_eq name (codes "patch")
    then ok bump_patch
    else if str_eq name (codes "minor")
    then ok bump_minor
    else if str_eq name (codes "major")
    then ok bump_major
    else fail (
        codes "INVALID_SEMVER: unknown bump '"
        ++ (name ++ codes "' (expected 'patch', 'minor' or 'major')."))

-- `+ 1` on `i32`: the release profile has no overflow check, so the value wraps.
pub increment : ℤ → ℤ
increment (pos n) = wrap_i32 (pos (n + 1))
increment (negsuc zero) = pos 0
increment (negsuc (suc n)) = negsuc n

-- `Bump::apply`
pub apply : Bump → VersionParts → VersionParts
apply bump_patch v = record v { patch = increment v.patch }
apply bump_minor v = record { major = v.major; minor = increment v.minor; patch = pos 0 }
apply bump_major v = record { major = increment v.major; minor = pos 0; patch = pos 0 }

-- `parts >= current`
pub at_least : VersionParts → VersionParts → Bool
at_least a b = elim (cmp a b) [ less ↦ false | _ ↦ true ]

-- one round of the loop in `next_version`
later_of : Option VersionParts → VersionParts → Option VersionParts
unfolding at_least
later_of none parts = some parts
later_of (some current) parts = if at_least parts current then some parts else some current

pub latest_of : List Str → Option VersionParts → Result (Option VersionParts)
unfolding later_of
latest_of [] latest = ok latest
latest_of (candidate ∷ rest) latest = do
  parts ← parse candidate
  latest_of rest (later_of latest parts)

bumped : Bump → Option VersionParts → Str
bumped bump none = codes "1.0.0"
bumped bump (some parts) = display (apply bump parts)

pub next_version : List Str → Bump → Result Str
unfolding latest_of bumped
next_version published bump = do latest ← latest_of published none; ok (bumped bump latest)

-- lexicographic `str::cmp`
str_cmp : Str → Str → Ordering
str_cmp [] [] = equal
str_cmp [] (b ∷ t) = less
str_cmp (a ∷ s) [] = greater
str_cmp (a ∷ s) (b ∷ t) =
    let rest = str_cmp s t in if ltb a b then less else if a == b then rest else greater

cmp_parsed : Result VersionParts → Result VersionParts → Ordering → Ordering
cmp_parsed (ok l) (ok r) _ = cmp l r
cmp_parsed _ _ literal = literal

pub version_cmp : Str → Str → Ordering
unfolding str_cmp cmp_parsed
version_cmp left right = cmp_parsed (parse left) (parse right) (str_cmp left right)
