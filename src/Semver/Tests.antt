-- ===== src/Semver/Tests.antt =====
-- Runs of src/semver.rs on concrete texts, and the theorems at concrete inputs.
use colander.Prelude.{
  ◌≡◌, refl, Str, List, codes, [], ◌∷◌, ◌++◌, ok, fail, some, none, arith, All, ◌≤◌, ℕ, ◌↔◌,
}
use colander.Prelude.Int.{pos, max_i32, wrap_i32}
use colander.Text.Split.{split}
use colander.Text.Decimal.{parse_int, show_int}
use colander.Semver.{
  VersionParts, parse, display, next_version, latest_of, apply, bump_major, bump_patch,
  is_plain_integer, cmp, cmp_int, at_least, later_of, increment, less, greater, version_cmp,
}
use colander.Semver.Order.{Before, cmp-less_iff}
use colander.Semver.RoundTrip.{version, parse-display, display-parse}
use colander.Semver.Next.{
  Spelled, NotAfter, Earlier, next_version-latest, next_version-later, next_version-overflow,
}

parse_run : parse (codes "1.20.3") ≡ ok (version 1 20 3)
unfolding parse split is_plain_integer parse_int
parse_run = refl

parse_leading_zero :
    parse (codes "1.02.3") ≡ fail (codes "INVALID_SEMVER: invalid semantic version: 1.02.3")
unfolding parse split is_plain_integer
parse_leading_zero = refl

parse_too_large :
    parse (codes "1.2.2147483648")
    ≡ fail (codes "INVALID_SEMVER: invalid semantic version: 1.2.2147483648")
unfolding parse split is_plain_integer parse_int
parse_too_large = refl

version_cmp_run : version_cmp (codes "1.2.10") (codes "1.2.9") ≡ greater
unfolding version_cmp parse split is_plain_integer parse_int cmp cmp_int
version_cmp_run = refl

abbrev published : List Str
published = codes "1.2.9" ∷ codes "1.2.10" ∷ codes "0.9.0" ∷ []

latest_run : latest_of published none ≡ ok (some (version 1 2 10))
unfolding latest_of parse split is_plain_integer parse_int cmp cmp_int at_least
latest_run = refl

next_run : next_version published bump_patch ≡ ok (codes "1.2.11")
unfolding next_version latest_of parse split is_plain_integer parse_int cmp cmp_int at_least display
    show_int apply increment wrap_i32
next_run = refl

parse-display_example : parse (display (version 1 0 7)) ≡ ok (version 1 0 7)
parse-display_example = parse-display 1 0 7 (omega arith) (omega arith) (omega arith)

display-parse_example :
    (a b c : ℕ) × (version 1 20 3 ≡ version a b c)
    × (a ≤ max_i32)
    × (b ≤ max_i32)
    × (c ≤ max_i32)
    × (display (version 1 20 3) ≡ codes "1.20.3")
display-parse_example = display-parse (codes "1.20.3") parse_run

cmp-less_iff_example :
    (cmp (version 1 2 9) (version 1 2 10) ≡ less) ↔ Before (version 1 2 9) (version 1 2 10)
cmp-less_iff_example = cmp-less_iff (version 1 2 9) (version 1 2 10)

next_version-latest_example :
    (v : VersionParts) × Spelled v published
    × All (NotAfter v) published
    × (codes "1.2.11" ≡ display (apply bump_patch v))
next_version-latest_example =
    next_version-latest (codes "1.2.9") (codes "1.2.10" ∷ codes "0.9.0" ∷ []) bump_patch next_run

next_version-later_example :
    (parse (codes "1.2.11") ≡ ok (apply bump_patch (version 1 2 10)))
    × All (Earlier (apply bump_patch (version 1 2 10))) published
next_version-later_example =
    next_version-later (codes "1.2.9") (codes "1.2.10" ∷ codes "0.9.0" ∷ []) bump_patch latest_run
      (λ e. absurd (room e)) next_run
  where
    room : ¬ (pos 10 ≡ pos max_i32)
    room e = ground arith

abbrev last : List Str
last = codes "2147483647.0.0" ∷ []

last_latest : latest_of last none ≡ ok (some (version max_i32 0 0))
unfolding latest_of parse split is_plain_integer parse_int later_of
last_latest = refl

last_next : next_version last bump_major ≡ ok (codes "-2147483648.0.0")
unfolding next_version latest_of parse split is_plain_integer parse_int display show_int apply
    increment wrap_i32
last_next = refl

next_version-overflow_example :
    parse (codes "-2147483648.0.0")
    ≡ fail (codes "INVALID_SEMVER: invalid semantic version: " ++ codes "-2147483648.0.0")
next_version-overflow_example = next_version-overflow last bump_major last_latest refl last_next
