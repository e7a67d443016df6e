-- ===== src/Json/Stream/Keys.antt =====
-- The duplicate check of `parse_object_stream`: what `seen` records of an object's keys.
use colander.Prelude.{
  ℕ, zero, suc, ◌≤◌, ◌≡◌, refl, ap, ◌∙◌, true, Str, List, [], ◌∷◌, ◌++◌, arith, length, take, drop,
  any, str_eq, str_eq_refl, str_eq_sound, length-append, drop-length, Bool-cases, inl, inr,
}
use colander.Json.{JsonMap, Json, empty, entry}
use colander.Json.Map.{contains_key, append_entry}
use colander.Json.Escape.{write_string}
use colander.Json.Stream.{SeenKey, hash_bytes, slice, is_same_key}

take-append_le : (n : ℕ) (xs ys : Str) → n ≤ length xs → take n (xs ++ ys) ≡ take n xs
take-append_le zero xs ys h = refl
take-append_le (suc n) [] ys h = absurd (omega arith)
take-append_le (suc n) (x ∷ xs) ys h = ap (λ t. x ∷ t) (take-append_le n xs ys (omega arith))

take_all : (xs : Str) → take (length xs) xs ≡ xs
take_all [] = refl
take_all (x ∷ xs) = ap (λ t. x ∷ t) (take_all xs)

-- A slice does not change when the output grows behind it.
pub slice-append :
    (out x : Str) (first last : ℕ)
    → last ≤ length out
    → slice (out ++ x) first last ≡ slice out first last
unfolding slice
slice-append out x first last h = ap (drop first) (take-append_le last out x h)

-- What was written last is the slice from the old end to the new one.
pub slice_last : (out x : Str) → slice (out ++ x) (length out) (length (out ++ x)) ≡ x
unfolding slice
slice_last out x = ap (drop (length out)) (take_all (out ++ x)) ∙ drop-length out x

-- the entries of `seen` that belong to the keys of `map`, in their order
abbrev pub Recorded : Str → JsonMap → List SeenKey → Type 0
Recorded out empty [] = Unit
Recorded out empty (e ∷ es) = ⊥
Recorded out (entry k v m) [] = ⊥
Recorded out (entry k v m) ((hash, first, last) ∷ es) =
    (hash ≡ hash_bytes (write_string k))
    × (slice out first last ≡ write_string k)
    × (last ≤ length out)
    × Recorded out m es

pub Recorded-append :
    (out x : Str) (m : JsonMap) (es : List SeenKey) → Recorded out m es → Recorded (out ++ x) m es
Recorded-append out x empty [] r = tt
Recorded-append out x empty (e ∷ es) r = elim r [ ]
Recorded-append out x (entry k v m) [] r = elim r [ ]
Recorded-append out x (entry k v m) ((hash, first, last) ∷ es) (h, s, l, r) = (
  h,
  slice-append out x first last l ∙ s,
  omega (arith, length-append out x),
  Recorded-append out x m es r,
)

pub Recorded-append_entry :
    (out : Str) (m : JsonMap) (es : List SeenKey) (k : Str) (v : Json) (first last : ℕ)
    → Recorded out m es
    → slice out first last ≡ write_string k
    → last ≤ length out
    → Recorded out (append_entry m k v) (es ++ (hash_bytes (write_string k), first, last) ∷ [])
unfolding append_entry
Recorded-append_entry out empty [] k v first last r s l = (refl, s, l, tt)
Recorded-append_entry out empty (e ∷ es) k v first last r s l = elim r [ ]
Recorded-append_entry out (entry j w m) [] k v first last r s l = elim r [ ]
Recorded-append_entry out (entry j w m) ((hash, a, b) ∷ es) k v first last (h, t, n, r) s l =
    (h, t, n, Recorded-append_entry out m es k v first last r s l)

is_same_key_recorded :
    (out j : Str) (hash first last : ℕ)
    → hash ≡ hash_bytes (write_string j)
    → slice out first last ≡ write_string j
    → is_same_key out (write_string j) (hash, first, last) ≡ true
unfolding is_same_key
is_same_key_recorded out j hash first last e t =
    ground (arith, str_eq_refl (write_string j), ap (λ s. str_eq s (write_string j)) t)

-- A key that the map holds is found among its entries.
pub any-Recorded :
    (out : Str) (m : JsonMap) (es : List SeenKey) (k : Str)
    → Recorded out m es
    → contains_key m k ≡ true
    → any (is_same_key out (write_string k)) es ≡ true
unfolding contains_key
any-Recorded out empty es k r h = absurd (ground arith)
any-Recorded out (entry j w m) [] k r h = elim r [ ]
any-Recorded out (entry j w m) ((hash, a, b) ∷ es) k (e, t, n, r) h =
    elim (Bool-cases (str_eq j k)) [
      | inl same ↦
          let found = is_same_key_recorded out j hash a b e t in
          let same_token = ap write_string (str_eq_sound j k same) in rw (← same_token, found)
      | inr other ↦ ground (arith, any-Recorded out m es k r)
    ]
