-- ===== src/Semver/RoundTrip.antt =====
-- `parse` and `Display` of src/semver.rs undo one another.
use colander.Prelude.{
  ℕ, ◌≡◌, ◌<◌, ◌≤◌, ◌^◌, refl, ap, sym, ◌∙◌, true, false, Str, List, [], ◌∷◌, ◌++◌, arith, All,
  zero, suc, all, ok, Option, some, inl, inr, fail, ◌⊎◌, codes,
}
use colander.Prelude.Int.{ℤ, pos, negsuc, max_i32}
use colander.Text.Split.{split, split_plain, split-append, join, join-split}
use colander.Text.Decimal.{
  is_digit, IsDigit, show_nat, show_nat-IsDigit, show_nat-zero, show_nat-head, parse_i32,
  parse_int-show_nat, show_nat-read_number, show_nat_digit, parse_int_plain, show_int,
}
use colander.Semver.{
  VersionParts, dot, display, is_plain_integer, parse, parse_segments, parse_parts,
}

abbrev pub version : ℕ → ℕ → ℕ → VersionParts
version a b c = record { major = pos a; minor = pos b; patch = pos c }

no_dot : (s : Str) → All IsDigit s → All (λ c. dot c ≡ false) s
no_dot [] h = tt
no_dot (c ∷ s) (hc, hs) = (ground arith, no_dot s hs)

all-IsDigit : (s : Str) → All IsDigit s → all is_digit s ≡ true
all-IsDigit [] h = refl
all-IsDigit (c ∷ s) (hc, hs) = ground (arith, all-IsDigit s hs)

plain_of_digits :
    (c : ℕ) (s : Str) → All IsDigit (c ∷ s) → b'0' < c → is_plain_integer (c ∷ s) ≡ true
unfolding is_plain_integer
plain_of_digits c s h p = ground (arith, all-IsDigit (c ∷ s) h)

show_nat-plain : (n : ℕ) → is_plain_integer (show_nat n) ≡ true
show_nat-plain zero = rw show_nat-zero (unfold is_plain_integer in refl)
show_nat-plain (suc n) =
    let (c, t, e, p) = show_nat-head (suc n) (omega arith) in
    rw e (plain_of_digits c t (rw e at (show_nat-IsDigit (suc n))) p)

no_dot_int : (x : ℤ) → All (λ c. dot c ≡ false) (show_int x)
unfolding show_int
no_dot_int (pos n) = no_dot _ (show_nat-IsDigit n)
no_dot_int (negsuc n) = (refl, no_dot _ (show_nat-IsDigit (suc n)))

split-display :
    (v : VersionParts)
    → split dot (display v) ≡ show_int v.major ∷ show_int v.minor ∷ show_int v.patch ∷ []
unfolding display
split-display v = rw (
  split-append dot (show_int v.major) b'.' _ (no_dot_int v.major) refl,
  split-append dot (show_int v.minor) b'.' _ (no_dot_int v.minor) refl,
  split_plain dot (show_int v.patch) (no_dot_int v.patch),
)

-- Every version with non-negative `i32` parts is read back from its print.
pub parse-display :
    (a b c : ℕ)
    → a ≤ max_i32
    → b ≤ max_i32
    → c ≤ max_i32
    → parse (display (version a b c)) ≡ ok (version a b c)
unfolding parse parse_segments show_int
parse-display a b c ha hb hc = rw (
  split-display (version a b c),
  show_nat-plain a,
  show_nat-plain b,
  show_nat-plain c,
  parse_int-show_nat (2 ^ 31) a (omega arith),
  parse_int-show_nat (2 ^ 31) b (omega arith),
  parse_int-show_nat (2 ^ 31) c (omega arith),
)

IsDigit-of_all : (s : Str) → all is_digit s ≡ true → All IsDigit s
IsDigit-of_all [] h = tt
IsDigit-of_all (c ∷ s) h = (ground arith, IsDigit-of_all s (ground arith))

-- a segment that passes the test is the print of the number that it spells
plain_segment :
    (s : Str) (z : ℤ)
    → is_plain_integer s ≡ true
    → parse_i32 s ≡ some z
    → (n : ℕ) × (z ≡ pos n) × (n ≤ max_i32) × (show_nat n ≡ s)
plain_segment [] z h e = absurd (unfold is_plain_integer in cc)
plain_segment (c ∷ []) z h e =
    let digits = IsDigit-of_all (c ∷ []) (unfold is_plain_integer in ground arith) in
    let (n, q, lt, r) = parse_int_plain (2 ^ 31) (c ∷ []) digits e in
    (n, q, omega arith, show_nat_digit c r)
plain_segment (c ∷ d ∷ s) z h e =
    let digits = IsDigit-of_all (c ∷ d ∷ s) (unfold is_plain_integer in ground arith) in
    let (n, q, lt, r) = parse_int_plain (2 ^ 31) (c ∷ d ∷ s) digits e in
    (n, q, omega arith, show_nat-read_number c (d ∷ s) (unfold is_plain_integer in ground arith) r)

negative_not_plain : (n : ℕ) → is_plain_integer (show_int (negsuc n)) ≡ false
unfolding is_plain_integer show_int
negative_not_plain n = ground arith

not_plain : (x : ℤ) (n : ℕ) → x ≡ negsuc n → is_plain_integer (show_int x) ≡ false
not_plain x n e = ap (λ (z : ℤ). is_plain_integer (show_int z)) e ∙ negative_not_plain n

-- A version with a negative part has a print that `parse` refuses.
pub parse-display_negative :
    (v : VersionParts) (n : ℕ)
    → (v.major ≡ negsuc n) ⊎ (v.minor ≡ negsuc n) ⊎ (v.patch ≡ negsuc n)
    → parse (display v) ≡ fail (codes "INVALID_SEMVER: invalid semantic version: " ++ display v)
unfolding parse parse_segments
parse-display_negative v n (inl e) = rw (split-display v) (ground (arith, not_plain v.major n e))
parse-display_negative v n (inr (inl e)) =
    rw (split-display v) (ground (arith, not_plain v.minor n e))
parse-display_negative v n (inr (inr e)) =
    rw (split-display v) (ground (arith, not_plain v.patch n e))

-- What the parts of an accepted text look like.
record IsParsed (s : Str) (ss : List Str) (v : VersionParts) : Type 0 where
  x : Str
  y : Str
  z : Str
  segments : ss ≡ x ∷ y ∷ z ∷ []
  plain : (is_plain_integer x ≡ true) × (is_plain_integer y ≡ true) × (is_plain_integer z ≡ true)
  parts : (parse_i32 x ≡ some v.major) × (parse_i32 y ≡ some v.minor) × (parse_i32 z ≡ some v.patch)

parse_parts-ok :
    (s : Str) (o p q : Option ℤ) (v : VersionParts)
    → parse_parts s o p q ≡ ok v
    → (o ≡ some v.major) × (p ≡ some v.minor) × (q ≡ some v.patch)
unfolding parse_parts
parse_parts-ok s o p q v h = ground arith

parse_segments-ok :
    (s : Str) (ss : List Str) (v : VersionParts) → parse_segments s ss ≡ ok v → IsParsed s ss v
unfolding parse_segments
parse_segments-ok s (x ∷ y ∷ z ∷ []) v h = record {
  x = x;
  y = y;
  z = z;
  segments = refl;
  plain = (ground arith, ground arith, ground arith);
  parts = parse_parts-ok s (parse_i32 x) (parse_i32 y) (parse_i32 z) v (ground arith);
}
parse_segments-ok s ss v h = cc

display-join :
    (v : VersionParts) (a b c : ℕ) (x y z : Str)
    → v ≡ version a b c
    → show_nat a ≡ x
    → show_nat b ≡ y
    → show_nat c ≡ z
    → display v ≡ join b'.' (x ∷ y ∷ z ∷ [])
unfolding display show_int join
display-join v a b c x y z e p q r = rw (e, p, q, r)

-- A text that is accepted is exactly the print of the version, whose parts are in range.
pub display-parse :
    (s : Str) {v : VersionParts}
    → parse s ≡ ok v
    → (a b c : ℕ) × (v ≡ version a b c)
      × (a ≤ max_i32)
      × (b ≤ max_i32)
      × (c ≤ max_i32)
      × (display v ≡ s)
unfolding parse
display-parse s {v} h =
    let p = parse_segments-ok s (split dot s) v h in
    let (a, qa, la, sa) = plain_segment p.x v.major p.plain.0 p.parts.0 in
    let (b, qb, lb, sb) = plain_segment p.y v.minor p.plain.1 p.parts.1 in
    let (c, qc, lc, sc) = plain_segment p.z v.patch p.plain.2 p.parts.2 in
    let same : v ≡ version a b c = cc in
    (
      a,
      b,
      c,
      same,
      la,
      lb,
      lc,
      display-join v a b c p.x p.y p.z same sa sb sc
          ∙ ap (join b'.') (sym p.segments)
          ∙ join-split b'.' s,
    )
