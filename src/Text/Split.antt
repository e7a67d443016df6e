-- ===== src/Text/Split.antt =====
-- `str::split` at the characters that pass a test, and how it undoes a join.
use colander.Prelude.{
  ℕ, ◌≡◌, ◌≢◌, refl, Bool, true, false, ◌==◌, Str, List, [], ◌∷◌, ◌++◌, arith, All, if◌then◌else◌,
}

-- the character goes in front of the first segment
push_head : ℕ → List Str → List Str
push_head c [] = (c ∷ []) ∷ []
push_head c (s ∷ ss) = (c ∷ s) ∷ ss

module _ (sep : ℕ → Bool) where
  unfoldable pub split : Str → List Str
  unfolding push_head
  split [] = [] ∷ []
  split (c ∷ s) = if sep c then [] ∷ split s else push_head c (split s)

  -- A text with no separator is one segment.
  pub split_plain : (s : Str) → All (λ c. sep c ≡ false) s → split s ≡ s ∷ []
  unfolding split
  split_plain [] h = refl
  split_plain (c ∷ s) (hc, hs) = ground (arith, split_plain s hs)

  -- A segment before a separator is split off.
  pub split-append :
      (s : Str) (c : ℕ) (t : Str)
      → All (λ d. sep d ≡ false) s
      → sep c ≡ true
      → split (s ++ c ∷ t) ≡ s ∷ split t
  unfolding split
  split-append [] c t h hc = ground arith
  split-append (d ∷ s) c t (hd, hs) hc = ground (arith, split-append s c t hs)

-- `join` with a one-character separator.
unfoldable pub join : ℕ → List Str → Str
join sep [] = []
join sep (s ∷ []) = s
join sep (s ∷ t ∷ ss) = s ++ (sep ∷ join sep (t ∷ ss))

split-ne-nil : (sep : ℕ → Bool) (s : Str) → split sep s ≢ []
unfolding split
split-ne-nil sep [] h = cc
split-ne-nil sep (c ∷ s) h = push-ne-nil (sep c) (split sep s) h
  where
    push-ne-nil : (b : Bool) (ss : List Str) → (if b then [] ∷ ss else push_head c ss) ≢ []
    push-ne-nil b [] = ground arith
    push-ne-nil b (s ∷ ss) = ground arith

join-push_head : (sep c : ℕ) (ss : List Str) → join sep (push_head c ss) ≡ c ∷ join sep ss
unfolding join push_head
join-push_head sep c [] = refl
join-push_head sep c (s ∷ []) = refl
join-push_head sep c (s ∷ t ∷ ss) = refl

join-nil : (sep : ℕ) (ss : List Str) → ss ≢ [] → join sep ([] ∷ ss) ≡ sep ∷ join sep ss
unfolding join
join-nil sep [] h = absurd (h refl)
join-nil sep (s ∷ ss) h = refl

-- Joining the segments of a split gives the text back.
pub join-split : (sep : ℕ) (s : Str) → join sep (split (λ c. c == sep) s) ≡ s
unfolding split
join-split sep [] = unfold join in refl
join-split sep (c ∷ s) = ground (
  arith,
  join-split sep s,
  join-nil sep (split (λ d. d == sep) s) (split-ne-nil _ s),
  join-push_head sep c (split (λ d. d == sep) s),
)
