-- ===== src/IndexMap.antt =====
-- `IndexMap<String, V>` as its entries in insertion order, and `HashSet<String>` as the list of what
-- was inserted.
use colander.Prelude.{
  ◌≡◌, refl, inl, inr, Bool, true, false, ◌||◌, Str, List, [], ◌∷◌, ◌++◌, Option, none, some,
  str_eq, if◌then◌else◌, arith, str_eq_iff, Bool-cases, ap,
}

abbrev pub IndexMap {ℓ} : Type ℓ → Type ℓ
IndexMap V = List (Str × V)

-- `contains` of a list or a set of strings
unfoldable pub contains : List Str → Str → Bool
contains [] key = false
contains (k ∷ s) key = str_eq k key || contains s key

module _ {ℓ} {V : Type ℓ} where
  unfoldable pub lookup : IndexMap V → Str → Option V
  lookup [] key = none
  lookup ((k, v) ∷ m) key = let later = lookup m key in if str_eq k key then some v else later

  unfoldable pub contains_key : IndexMap V → Str → Bool
  contains_key [] key = false
  contains_key ((k, v) ∷ m) key = str_eq k key || contains_key m key

  -- A known key keeps its place.
  unfoldable pub put : IndexMap V → Str → V → IndexMap V
  put [] key v = (key, v) ∷ []
  put ((k, w) ∷ m) key v =
      let later = put m key v in if str_eq k key then (k, v) ∷ m else (k, w) ∷ later

  unfoldable pub keys_of : IndexMap V → List Str
  keys_of [] = []
  keys_of ((k, v) ∷ m) = k ∷ keys_of m

  unfoldable pub values : IndexMap V → List V
  values [] = []
  values ((k, v) ∷ m) = v ∷ values m

  pub put-new :
      (m : IndexMap V) (key : Str) (v : V)
      → contains_key m key ≡ false
      → put m key v ≡ m ++ (key, v) ∷ []
  unfolding put contains_key
  put-new [] key v h = refl
  put-new ((k, w) ∷ m) key v h = ground (arith, put-new m key v)

  pub keys_of-append : (m n : IndexMap V) → keys_of (m ++ n) ≡ keys_of m ++ keys_of n
  unfolding keys_of
  keys_of-append [] n = refl
  keys_of-append ((k, v) ∷ m) n = ap (λ s. k ∷ s) (keys_of-append m n)

  pub contains-keys_of :
      (m : IndexMap V) (key : Str) → contains (keys_of m) key ≡ contains_key m key
  unfolding contains keys_of contains_key
  contains-keys_of [] key = refl
  contains-keys_of ((k, v) ∷ m) key = ap (λ t. str_eq k key || t) (contains-keys_of m key)

-- No string twice.
unfoldable pub Distinct : List Str → Type 0
Distinct [] = Unit
Distinct (k ∷ s) = (contains s k ≡ false) × Distinct s

pub contains-append :
    (s t : List Str) (key : Str) → contains (s ++ t) key ≡ (contains s key || contains t key)
unfolding contains
contains-append [] t key = refl
contains-append (k ∷ s) t key = ground (arith, contains-append s t key)

pub Distinct-push :
    (s : List Str) (key : Str) → Distinct s → contains s key ≡ false → Distinct (s ++ key ∷ [])
unfolding Distinct contains
Distinct-push [] key d h = (refl, tt)
Distinct-push (k ∷ s) key (fresh, d) h = (
  rw (contains-append s (key ∷ []) k) (ground (arith, str_eq_iff key k, str_eq_iff k key)),
  Distinct-push s key d (ground arith),
)

pub Distinct-clash :
    (s t : List Str) (key : Str) → contains s key ≡ true → Distinct (s ++ key ∷ t) → ⊥
unfolding Distinct contains
Distinct-clash [] t key h d = ground arith
Distinct-clash (k ∷ s) t key h (fresh, d) = elim (Bool-cases (contains s key)) [
  | inl e ↦ Distinct-clash s t key e d
  | inr e ↦ ground (arith, contains-append s (key ∷ t) k, str_eq_iff key k, str_eq_iff k key)
]
