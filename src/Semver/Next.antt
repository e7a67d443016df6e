-- ===== src/Semver/Next.antt =====
-- `next_version` of src/semver.rs.
use colander.Prelude.{
  ℕ, ◌≡◌, ◌≤◌, ◌+◌, refl, ap, subst, sym, ◌∙◌, true, Str, List, [], ◌∷◌, arith, All, ok, fail,
  Option, some, none, ◌≢◌, bind-ok, ◌⊎◌, inl, inr, Bool-cases, codes, ◌++◌,
}
use colander.Prelude.Int.{ℤ, pos, negsuc, max_i32, wrap_i32-fits, wrap_i32-overflow}
use colander.Semver.{
  VersionParts, greater, cmp, parse, display, Bump, bump_patch, bump_minor, bump_major, apply,
  increment, at_least, later_of, latest_of, next_version, bumped,
}
use colander.Semver.Order.{Before, at_least-Before, at_least_refl, at_least_total, at_least_trans}
use colander.Semver.RoundTrip.{version, parse-display, display-parse, parse-display_negative}

-- a published text is a version, and not a later one than `v`
abbrev pub NotAfter : VersionParts → Str → Type 0
NotAfter v s = (p : VersionParts) × (parse s ≡ ok p) × (at_least v p ≡ true)

-- a published text is a version before `w`
abbrev pub Earlier : VersionParts → Str → Type 0
Earlier w s = (p : VersionParts) × (parse s ≡ ok p) × (cmp w p ≡ greater)

-- `v` is the version that one of the texts spells
abbrev pub Spelled : VersionParts → List Str → Type 0
Spelled v [] = ⊥
Spelled v (s ∷ ss) = (parse s ≡ ok v) ⊎ Spelled v ss

later_of-at_least :
    (c p : VersionParts)
    → (n : VersionParts) × (later_of (some c) p ≡ some n)
      × (at_least n c ≡ true)
      × (at_least n p ≡ true)
      × ((n ≡ c) ⊎ (n ≡ p))
unfolding later_of
later_of-at_least c p = elim (Bool-cases (at_least p c)) [
  | inl h ↦ (p, rw h, h, at_least_refl p, inr refl)
  | inr h ↦ (c, rw h, at_least_refl c, at_least_total p c h, inl refl)
]

NotAfter-mono :
    (v w : VersionParts) (ss : List Str)
    → at_least v w ≡ true
    → All (NotAfter w) ss
    → All (NotAfter v) ss
NotAfter-mono v w [] h k = tt
NotAfter-mono v w (s ∷ ss) h ((p, e, l), k) =
    ((p, e, at_least_trans v w p h l), NotAfter-mono v w ss h k)

latest_of-cons :
    (s : Str) (ss : List Str) (o : Option VersionParts) {r : Option VersionParts}
    → latest_of (s ∷ ss) o ≡ ok r
    → (p : VersionParts) × (parse s ≡ ok p) × (latest_of ss (later_of o p) ≡ ok r)
unfolding latest_of
latest_of-cons s ss o h = bind-ok (parse s) (λ p. latest_of ss (later_of o p)) h

origin :
    (s : Str) (ss : List Str) {v n c p : VersionParts}
    → parse s ≡ ok p
    → (n ≡ c) ⊎ (n ≡ p)
    → (v ≡ n) ⊎ Spelled v ss
    → (v ≡ c) ⊎ Spelled v (s ∷ ss)
origin s ss e _ (inr k) = inr (inr k)
origin s ss e (inl q) (inl h) = inl (h ∙ q)
origin s ss e (inr q) (inl h) = inr (inl (e ∙ ap ok (sym (h ∙ q))))

Spelled-first :
    (s : Str) (ss : List Str) {v p : VersionParts}
    → parse s ≡ ok p
    → (v ≡ p) ⊎ Spelled v ss
    → Spelled v (s ∷ ss)
Spelled-first s ss e (inl q) = inl (e ∙ ap ok (sym q))
Spelled-first s ss e (inr k) = inr k

-- the loop keeps a version that the texts behind it spell, or that was there before
latest_of-some :
    (ss : List Str) (c : VersionParts) {o : Option VersionParts}
    → latest_of ss (some c) ≡ ok o
    → (v : VersionParts) × (o ≡ some v)
      × (at_least v c ≡ true)
      × All (NotAfter v) ss
      × ((v ≡ c) ⊎ Spelled v ss)
latest_of-some [] c h = (c, unfold latest_of in cc, at_least_refl c, tt, inl refl)
latest_of-some (s ∷ ss) c {o} h =
    let (p, e, rest) = latest_of-cons s ss (some c) h in
    let (n, q, lc, lp, from) = later_of-at_least c p in
    let (v, ev, l, all_not_after, spelled) =
      latest_of-some ss n (ap (latest_of ss) (sym q) ∙ rest) in
    (
      v,
      ev,
      at_least_trans v n c l lc,
      ((p, e, at_least_trans v n p l lp), all_not_after),
      origin s ss e from spelled,
    )

-- the part that `bump` adds one to is the largest `i32`
abbrev pub IsFull : Bump → VersionParts → Type 0
IsFull bump_patch v = v.patch ≡ pos max_i32
IsFull bump_minor v = v.minor ≡ pos max_i32
IsFull bump_major v = v.major ≡ pos max_i32

abbrev pub HasRoom : Bump → VersionParts → Type 0
HasRoom bump v = ¬ IsFull bump v

increment_lem : (n : ℕ) → n ≤ max_i32 → pos n ≢ pos max_i32 → increment (pos n) ≡ pos (n + 1)
unfolding increment
increment_lem n h k = wrap_i32-fits (n + 1) (ground arith)

bump_in_range :
    (bump : Bump) (a b c : ℕ)
    → a ≤ max_i32
    → b ≤ max_i32
    → c ≤ max_i32
    → HasRoom bump (version a b c)
    → (parse (display (apply bump (version a b c))) ≡ ok (apply bump (version a b c)))
      × Before (version a b c) (apply bump (version a b c))
unfolding apply
bump_in_range bump_patch a b c ha hb hc room =
    rw (increment_lem c hc room) (parse-display a b (c + 1) ha hb (ground arith), ground arith)
bump_in_range bump_minor a b c ha hb hc room =
    rw (increment_lem b hb room)
      (parse-display a (b + 1) 0 ha (ground arith) (omega arith), ground arith)
bump_in_range bump_major a b c ha hb hc room =
    rw (increment_lem a ha room)
      (parse-display (a + 1) 0 0 (ground arith) (omega arith) (omega arith), ground arith)

later_than-All :
    (v w : VersionParts) (ss : List Str) → Before v w → All (NotAfter v) ss → All (Earlier w) ss
later_than-All v w [] h k = tt
later_than-All v w (s ∷ ss) h ((p, e, l), k) =
    ((p, e, at_least-Before w v p h l), later_than-All v w ss h k)

latest_of-first :
    (s : Str) (ss : List Str) {o : Option VersionParts}
    → latest_of (s ∷ ss) none ≡ ok o
    → (v : VersionParts) × (o ≡ some v) × All (NotAfter v) (s ∷ ss) × Spelled v (s ∷ ss)
latest_of-first s ss {o} h =
    let (p, e, rest) = latest_of-cons s ss none h in
    let (v, ev, l, k, spelled) = latest_of-some ss p {o = o} (unfold later_of in rest) in
    (v, ev, ((p, e, l), k), Spelled-first s ss e spelled)

next_version-ok :
    (ss : List Str) (bump : Bump) {r : Str}
    → next_version ss bump ≡ ok r
    → (o : Option VersionParts) × (latest_of ss none ≡ ok o) × (r ≡ bumped bump o)
unfolding next_version
next_version-ok ss bump h =
    let (o, e, k) = bind-ok (latest_of ss none) (λ o. ok (bumped bump o)) h in (o, e, cc)

-- With something published, the next version is the bump of the latest: a version that one of the
-- published texts spells, and no published version is after it.
pub next_version-latest :
    (s : Str) (ss : List Str) (bump : Bump) {r : Str}
    → next_version (s ∷ ss) bump ≡ ok r
    → (v : VersionParts) × Spelled v (s ∷ ss)
      × All (NotAfter v) (s ∷ ss)
      × (r ≡ display (apply bump v))
next_version-latest s ss bump h =
    let (o, e, q) = next_version-ok (s ∷ ss) bump h in
    let (v, ev, k, spelled) = latest_of-first s ss e in
    (v, spelled, k, q ∙ ap (bumped bump) ev ∙ unfold bumped in refl)

parts_of :
    (v : VersionParts) (ss : List Str)
    → Spelled v ss
    → (a b c : ℕ) × (v ≡ version a b c) × (a ≤ max_i32) × (b ≤ max_i32) × (c ≤ max_i32)
parts_of v [] h = elim h [ ]
parts_of v (s ∷ ss) (inl e) =
    let (a, b, c, q, la, lb, lc, _) = display-parse s e in (a, b, c, q, la, lb, lc)
parts_of v (s ∷ ss) (inr h) = parts_of v ss h

bump-Spelled :
    (bump : Bump) (v : VersionParts) (ss : List Str)
    → Spelled v ss
    → HasRoom bump v
    → (parse (display (apply bump v)) ≡ ok (apply bump v)) × Before v (apply bump v)
bump-Spelled bump v ss spelled room =
    let (a, b, c, q, la, lb, lc) = parts_of v ss spelled in
    subst (λ w. (parse (display (apply bump w)) ≡ ok (apply bump w)) × Before w (apply bump w))
      (sym q) (bump_in_range bump a b c la lb lc (subst (HasRoom bump) q room))

-- If the part that is bumped is below the largest `i32` in the latest version, the next version is
-- read back as the bump, and it is later than every published version.
pub next_version-later :
    (s : Str) (ss : List Str) (bump : Bump) {v : VersionParts} {r : Str}
    → latest_of (s ∷ ss) none ≡ ok (some v)
    → HasRoom bump v
    → next_version (s ∷ ss) bump ≡ ok r
    → (parse r ≡ ok (apply bump v)) × All (Earlier (apply bump v)) (s ∷ ss)
next_version-later s ss bump {v} {r} latest room h =
    let (u, eu, k, spelled) = latest_of-first s ss latest in
    let (o, e, q) = next_version-ok (s ∷ ss) bump h in
    let same : u ≡ v = cc in
    let printed : r ≡ display (apply bump v) = q ∙ unfold bumped in cc (e, latest) in
    let (back, before) =
      bump-Spelled bump v (s ∷ ss) (subst (λ w. Spelled w (s ∷ ss)) same spelled) room in
    (
      ap parse printed ∙ back,
      later_than-All v (apply bump v) (s ∷ ss) before
          (subst (λ w. All (NotAfter w) (s ∷ ss)) same k),
    )

increment_max : (x : ℤ) → x ≡ pos max_i32 → increment x ≡ negsuc max_i32
unfolding increment
increment_max x h = rw h wrap_i32-overflow

wrapped :
    (bump : Bump) (v : VersionParts)
    → IsFull bump v
    → ((apply bump v).major ≡ negsuc max_i32)
      ⊎ ((apply bump v).minor ≡ negsuc max_i32)
      ⊎ ((apply bump v).patch ≡ negsuc max_i32)
unfolding apply
wrapped bump_patch v h = inr (inr (increment_max v.patch h))
wrapped bump_minor v h = inr (inl (increment_max v.minor h))
wrapped bump_major v h = inl (increment_max v.major h)

-- If the part that is bumped is the largest `i32` in the latest version, the addition wraps around,
-- and the text that is returned is one that `parse` refuses.
pub next_version-overflow :
    (ss : List Str) (bump : Bump) {v : VersionParts} {r : Str}
    → latest_of ss none ≡ ok (some v)
    → IsFull bump v
    → next_version ss bump ≡ ok r
    → parse r ≡ fail (codes "INVALID_SEMVER: invalid semantic version: " ++ r)
next_version-overflow ss bump {v} {r} latest full h =
    let (o, e, q) = next_version-ok ss bump h in
    let printed : r ≡ display (apply bump v) = q ∙ unfold bumped in cc (e, latest) in
    rw printed (parse-display_negative (apply bump v) max_i32 (wrapped bump v full))
