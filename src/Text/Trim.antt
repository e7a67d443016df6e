-- ===== src/Text/Trim.antt =====
-- `str::trim`, `str::split_once`, `str::strip_suffix` and their kin.
pub mod Plain
use colander.Prelude.{
  ℕ, zero, suc, Bool, true, false, ◌&&◌, ◌||◌, ◌==◌, leb, Str, List, [], ◌∷◌, ◌++◌, Option, none,
  some, if◌then◌else◌,
}

-- `char::is_whitespace`
unfoldable pub is_whitespace : ℕ → Bool
is_whitespace c =
    (leb 0x09 c && leb c 0x0D)
    || (c == 0x20
        || (c == 0x85
            || (c == 0xA0
                || (c == 0x1680
                    || ((leb 0x2000 c && leb c 0x200A)
                        || (c == 0x2028
                            || (c == 0x2029 || (c == 0x202F || (c == 0x205F || c == 0x3000)))))))))

unfoldable pub trim_start : Str → Str
unfolding is_whitespace
trim_start [] = []
trim_start (c ∷ s) = let rest = trim_start s in if is_whitespace c then rest else c ∷ s

-- the character in front of a text whose end is trimmed
trim_cons : ℕ → Str → Str
trim_cons c [] = if is_whitespace c then [] else c ∷ []
trim_cons c (d ∷ s) = c ∷ d ∷ s

unfoldable pub trim_end : Str → Str
unfolding trim_cons is_whitespace
trim_end [] = []
trim_end (c ∷ s) = trim_cons c (trim_end s)

unfoldable pub trim : Str → Str
unfolding trim_start trim_end
trim s = trim_end (trim_start s)

unfoldable pub trim_start_matches : ℕ → Str → Str
trim_start_matches b [] = []
trim_start_matches b (c ∷ s) = let rest = trim_start_matches b s in if c == b then rest else c ∷ s

push_front : ℕ → Option (Str × Str) → Option (Str × Str)
push_front c none = none
push_front c (some (a, b)) = some (c ∷ a, b)

-- at the first character that passes the test
unfoldable pub split_once : (ℕ → Bool) → Str → Option (Str × Str)
unfolding push_front
split_once sep [] = none
split_once sep (c ∷ s) =
    let rest = push_front c (split_once sep s) in if sep c then some ([], s) else rest

-- `strip_suffix` of one character that passes the test
unfoldable pub strip_suffix : (ℕ → Bool) → Str → Option Str
strip_suffix test [] = none
strip_suffix test (c ∷ []) = if test c then some [] else none
strip_suffix test (c ∷ d ∷ s) = elim (strip_suffix test (d ∷ s)) [
  | none ↦ none
  | some t ↦ some (c ∷ t)
]

-- `chars().take_while(test).collect()`
unfoldable pub take_while : (ℕ → Bool) → Str → Str
take_while test [] = []
take_while test (c ∷ s) = let rest = take_while test s in if test c then c ∷ rest else []
