-- ===== src/Validate/Limits/Bounds.antt =====
-- The errors of a response stay within their bounds, and none are hidden.
use colander.Prelude.{
  ℕ, ◌+◌, ◌-◌, ◌<◌, ◌≤◌, ◌≡◌, ◌≢◌, ◌↔◌, refl, ap, ◌==◌, ltb, leb, List, [], ◌∷◌, ◌++◌, arith,
  length, length-append, subst, inl, inr, ◌⊎◌, Bool-cases,
}
use colander.Validate.Model.{FormResponseFieldError}
use colander.Validate.Limits.{max_errors, max_error_bytes, cost, kept_errors, cap_errors, truncated}

abbrev Errors : Type 0
Errors = List FormResponseFieldError

pub total_cost : Errors → ℕ
total_cost [] = 0
total_cost (e ∷ es) = cost e + total_cost es

-- Why the loop stops before `rest` with `count` errors kept that have `bytes` bytes: there is no
-- other error, there is no room for one, or the next one is too long.
pub data Stops (count bytes : ℕ) : Errors → Type 0 where
  finished : Stops count bytes []
  full : {rest : Errors} → max_errors - 1 ≤ count → Stops count bytes rest
  too_long :
      {next : FormResponseFieldError} {more : Errors}
      → 0 < count
      → max_error_bytes < bytes + cost next
      → Stops count bytes (next ∷ more)

Stops-eq :
    {count count' bytes bytes' : ℕ} {rest : Errors}
    → count ≡ count'
    → bytes ≡ bytes'
    → Stops count bytes rest
    → Stops count' bytes' rest
Stops-eq {count = count} {bytes' = bytes'} {rest = rest} p q stop =
    subst (λ n. Stops n bytes' rest) p (subst (λ n. Stops count n rest) q stop)

-- one round of the loop, by its two tests
kept_step :
    (count bytes : ℕ) (e : FormResponseFieldError) (es : Errors)
    → ((kept_errors count bytes (e ∷ es) ≡ []) × Stops count bytes (e ∷ es))
      ⊎ ((count < max_errors - 1)
          × ((count ≡ 0) ⊎ (bytes + cost e ≤ max_error_bytes))
          × (kept_errors count bytes (e ∷ es) ≡ e ∷ kept_errors (count + 1) (bytes + cost e) es))
unfolding kept_errors
kept_step count bytes e es = elim (Bool-cases (leb (max_errors - 1) count)) [
  | inl p ↦ inl (rw p refl, full (ground arith))
  | inr p ↦ elim (Bool-cases (count == 0)) [
    | inl q ↦ inr (ground arith, inl (ground arith), rw (p, q) refl)
    | inr q ↦ elim (Bool-cases (ltb max_error_bytes (bytes + cost e))) [
      | inl r ↦ inl (rw (p, q, r) refl, too_long (ground arith) (ground arith))
      | inr r ↦ inr (ground arith, inr (ground arith), rw (p, q, r) refl)
    ]
  ]
]

length-kept :
    (count bytes : ℕ) (es : Errors)
    → count ≤ max_errors - 1
    → count + length (kept_errors count bytes es) ≤ max_errors - 1
length-kept count bytes [] h = unfold kept_errors in omega arith
length-kept count bytes (e ∷ es) h = elim (kept_step count bytes e es) [
  | inl (p, stop) ↦ rw p (omega arith)
  | inr (low, fits, p) ↦
      rw p (omega (arith, length-kept (count + 1) (bytes + cost e) es (omega arith)))
]

kept_cost :
    (count bytes : ℕ) (es : Errors)
    → 0 < count
    → bytes ≤ max_error_bytes
    → bytes + total_cost (kept_errors count bytes es) ≤ max_error_bytes
unfolding total_cost
kept_cost count bytes [] h k = unfold kept_errors in omega arith
kept_cost count bytes (e ∷ es) h k = elim (kept_step count bytes e es) [
  | inl (p, stop) ↦ rw p (omega arith)
  | inr (low, inl z, p) ↦ absurd (omega arith)
  | inr (low, inr fits, p) ↦
      rw p (omega (arith, kept_cost (count + 1) (bytes + cost e) es (omega arith) fits))
]

kept_over :
    (count bytes : ℕ) (es : Errors)
    → 0 < count
    → max_error_bytes < bytes
    → kept_errors count bytes es ≡ []
kept_over count bytes [] h k = unfold kept_errors in refl
kept_over count bytes (e ∷ es) h k = elim (kept_step count bytes e es) [
  | inl (p, stop) ↦ p
  | inr (low, inl z, p) ↦ absurd (omega arith)
  | inr (low, inr fits, p) ↦ absurd (omega arith)
]

kept_first :
    (e : FormResponseFieldError) (es : Errors)
    → kept_errors 0 0 (e ∷ es) ≡ e ∷ kept_errors 1 (0 + cost e) es
unfolding kept_errors
kept_first e es = refl

kept_bytes :
    (es : Errors)
    → (total_cost (kept_errors 0 0 es) ≤ max_error_bytes) ⊎ (length (kept_errors 0 0 es) ≤ 1)
unfolding total_cost
kept_bytes [] = inl (unfold kept_errors in omega arith)
kept_bytes (e ∷ es) = elim (Bool-cases (leb (0 + cost e) max_error_bytes)) [
  | inl p ↦ inl (
      rw (kept_first e es)
        (omega (arith, kept_cost 1 (0 + cost e) es (omega arith) (ground arith))))
  | inr p ↦
      inr (
        rw (kept_first e es, kept_over 1 (0 + cost e) es (omega arith) (ground arith))
          (omega arith))
]

-- The loop keeps a front part, and goes on as far as it may.
kept_prefix :
    (count bytes : ℕ) (es : Errors)
    → (rest : Errors) × (es ≡ kept_errors count bytes es ++ rest)
      × Stops
          (count + length (kept_errors count bytes es))
          (bytes + total_cost (kept_errors count bytes es))
          rest
unfolding total_cost
kept_prefix count bytes [] = ([], unfold kept_errors in refl, finished)
kept_prefix count bytes (e ∷ es) = elim (kept_step count bytes e es) [
  | inl (p, stop) ↦
      let here : Stops (count + 0) (bytes + 0) (e ∷ es) =
        Stops-eq (omega arith) (omega arith) stop in
      (e ∷ es, rw p refl, rw p here)
  | inr (low, fits, p) ↦
      let (rest, q, stop) = kept_prefix (count + 1) (bytes + cost e) es in
      (rest, rw p (ap (λ t. e ∷ t) q), rw p (Stops-eq (omega arith) (omega arith) stop))
]

none_left :
    (kept rest errors : Errors) → errors ≡ kept ++ rest → length errors ≤ length kept → rest ≡ []
none_left kept [] errors e h = refl
none_left kept (x ∷ rest) errors e h =
    absurd (omega (arith, ap length e, length-append kept (x ∷ rest)))

part_left :
    (kept rest errors : Errors) → errors ≡ kept ++ rest → length kept < length errors → rest ≢ []
part_left kept [] errors e h none_there = omega (arith, ap length e, length-append kept [])
part_left kept (x ∷ rest) errors e h none_there = cc

-- What is answered is a front part of the errors with, exactly if it is not all of them, one entry
-- behind it that counts both. It has at most 100 entries, the messages and paths of the front part
-- have at most 65536 bytes unless it is a single error, and the front part ends only where there is
-- no other error, it has 99 of them, or one more would go past the bytes.
pub cap_errors-bounds :
    (errors : Errors)
    → (kept : Errors) × (rest : Errors) × (errors ≡ kept ++ rest)
      × (((rest ≡ []) × (cap_errors errors ≡ kept))
          ⊎ ((rest ≢ [])
              × (cap_errors errors ≡ kept ++ truncated (length kept) (length errors) ∷ [])))
      × (length (cap_errors errors) ≤ max_errors)
      × ((total_cost kept ≤ max_error_bytes) ⊎ (length kept ≤ 1))
      × Stops (length kept) (total_cost kept) rest
unfolding cap_errors
cap_errors-bounds errors =
    let kept = kept_errors 0 0 errors in
    let (rest, front, stop) = kept_prefix 0 0 errors in
    let ends : Stops (length kept) (total_cost kept) rest =
      Stops-eq (omega arith) (omega arith) stop in
    let short : 0 + length kept ≤ max_errors - 1 = length-kept 0 0 errors (omega arith) in
    elim (Bool-cases (ltb (length kept) (length errors))) [
      | inl p ↦ (
        kept,
        rest,
        front,
        inr (part_left kept rest errors front (ground arith), rw p refl),
        rw p (omega (arith, length-append kept (truncated (length kept) (length errors) ∷ []))),
        kept_bytes errors,
        ends,
      )
      | inr p ↦ (
        kept,
        rest,
        front,
        inl (none_left kept rest errors front (ground arith), rw p refl),
        rw p (omega arith),
        kept_bytes errors,
        ends,
      )
    ]

-- Capping neither invents an error nor hides that there is one.
pub cap_errors-nil : (errors : Errors) → (cap_errors errors ≡ []) ↔ (errors ≡ [])
unfolding cap_errors
cap_errors-nil [] = (λ h. refl, λ h. unfold kept_errors in refl)
cap_errors-nil (e ∷ es) = (λ h. absurd (nonempty h), λ h. absurd (cc))
  where
    nonempty : cap_errors (e ∷ es) ≢ []
    nonempty h = elim (Bool-cases (ltb (length (kept_errors 0 0 (e ∷ es))) (length (e ∷ es)))) [
      | inl p ↦ cc (kept_first e es, p, h)
      | inr p ↦ cc (kept_first e es, p, h)
    ]
