-- ===== src/Text/Trim/Plain.antt =====
-- Texts that trimming and splitting leave whole.
use colander.Prelude.{
  ℕ, ◌≡◌, refl, Bool, false, Str, [], ◌∷◌, ◌++◌, Option, none, some, All, Bool-cases, inl, inr,
}
use colander.Text.Trim.{
  trim, trim_start, trim_end, trim_cons, is_whitespace, split_once, push_front,
}

abbrev pub IsInk : ℕ → Type 0
IsInk c = is_whitespace c ≡ false

trim_end_ink : (s : Str) → All IsInk s → trim_end s ≡ s
unfolding trim_end trim_cons
trim_end_ink [] h = refl
trim_end_ink (c ∷ []) (hc, hs) = rw hc refl
trim_end_ink (c ∷ d ∷ s) (hc, hs) = rw (trim_end_ink (d ∷ s) hs) refl

trim_start_ink : (s : Str) → All IsInk s → trim_start s ≡ s
unfolding trim_start
trim_start_ink [] h = refl
trim_start_ink (c ∷ s) (hc, hs) = rw hc refl

-- A text with no white space is trimmed to itself.
pub trim_ink : (s : Str) → All IsInk s → trim s ≡ s
unfolding trim
trim_ink s h = rw (trim_start_ink s h) (trim_end_ink s h)

trim_cons-append : (d : ℕ) (s : Str) (c : ℕ) → trim_cons d (s ++ c ∷ []) ≡ d ∷ (s ++ c ∷ [])
unfolding trim_cons
trim_cons-append d [] c = refl
trim_cons-append d (e ∷ s) c = refl

trim_end-append : (s : Str) (c : ℕ) → IsInk c → trim_end (s ++ c ∷ []) ≡ s ++ c ∷ []
unfolding trim_end
trim_end-append [] c h = unfold trim_cons in rw h refl
trim_end-append (d ∷ s) c h = rw (trim_end-append s c h) (trim_cons-append d s c)

-- White space inside a text stays.
pub trim_between :
    (a : ℕ) (s : Str) (c : ℕ) → IsInk a → IsInk c → trim (a ∷ (s ++ c ∷ [])) ≡ a ∷ (s ++ c ∷ [])
unfolding trim trim_start
trim_between a s c ha hc = rw ha (trim_end-append (a ∷ s) c hc)

pub split_once_plain :
    (sep : ℕ → Bool) (s : Str) → All (λ c. sep c ≡ false) s → split_once sep s ≡ none
unfolding split_once push_front
split_once_plain sep [] h = refl
split_once_plain sep (c ∷ s) (hc, hs) = rw (hc, split_once_plain sep s hs) refl

-- What is cut from a text has the property that all its characters have.
module _ (P : ℕ → Type 0) where
  All-trim_start : (s : Str) → All P s → All P (trim_start s)
  unfolding trim_start
  All-trim_start [] h = tt
  All-trim_start (c ∷ s) (hc, hs) = elim (Bool-cases (is_whitespace c)) [
    | inl e ↦ rw e (All-trim_start s hs)
    | inr e ↦ rw e (hc, hs)
  ]

  All-trim_cons : (c : ℕ) (s : Str) → P c → All P s → All P (trim_cons c s)
  unfolding trim_cons
  All-trim_cons c [] hc h = elim (Bool-cases (is_whitespace c)) [
    | inl e ↦ rw e tt
    | inr e ↦ rw e (hc, tt)
  ]
  All-trim_cons c (d ∷ s) hc h = (hc, h)

  pub All-trim_end : (s : Str) → All P s → All P (trim_end s)
  unfolding trim_end
  All-trim_end [] h = tt
  All-trim_end (c ∷ s) (hc, hs) = All-trim_cons c (trim_end s) hc (All-trim_end s hs)

  pub All-trim : (s : Str) → All P s → All P (trim s)
  unfolding trim
  All-trim s h = All-trim_end (trim_start s) (All-trim_start s h)

  -- the two parts of a text that is cut in two, if it is
  abbrev pub Parts : Option (Str × Str) → Type 0
  Parts none = Unit
  Parts (some (a, b)) = All P a × All P b

  Parts-push_front : (c : ℕ) (o : Option (Str × Str)) → P c → Parts o → Parts (push_front c o)
  unfolding push_front
  Parts-push_front c none hc h = tt
  Parts-push_front c (some (a, b)) hc (ha, hb) = ((hc, ha), hb)

  pub Parts-split_once : (sep : ℕ → Bool) (s : Str) → All P s → Parts (split_once sep s)
  unfolding split_once
  Parts-split_once sep [] h = tt
  Parts-split_once sep (c ∷ s) (hc, hs) = elim (Bool-cases (sep c)) [
    | inl e ↦ rw e (tt, hs)
    | inr e ↦ rw e (Parts-push_front c (split_once sep s) hc (Parts-split_once sep s hs))
  ]
