-- ===== src/Json/Write.antt =====
-- The writers `ordered` and `canonical` of src/json/write.rs, and `sorted_keys`. What is appended
-- to `out` is the value of a function.
use colander.Prelude.{
  ℕ, Bool, true, false, Str, List, [], ◌∷◌, ◌++◌, ltb, ◌==◌, if◌then◌else◌, codes, map,
}
use colander.Text.Utf8.{as_bytes}
use colander.Json.{
  Json, Items, JsonMap, null, boolean, number, string, array, object, nil, cons, empty, entry,
}
use colander.Json.Map.{keys}
use colander.Json.Escape.{write_string}

-- `if index > 0 { out.push(',') }`
abbrev pub separator : Bool → Str
separator true = []
separator false = b',' ∷ []

unfoldable mutual
  pub ordered : Json → Str
  ordered null = codes "null"
  ordered (boolean true) = codes "true"
  ordered (boolean false) = codes "false"
  ordered (number text) = text
  ordered (string text) = write_string text
  ordered (array items) = b'[' ∷ (ordered_items true items ++ b']' ∷ [])
  ordered (object map) = b'{' ∷ (ordered_entries true map ++ b'}' ∷ [])

  pub ordered_items : Bool → Items → Str
  ordered_items first nil = []
  ordered_items first (cons x xs) = separator first ++ (ordered x ++ ordered_items false xs)

  pub ordered_entries : Bool → JsonMap → Str
  ordered_entries first empty = []
  ordered_entries first (entry key value rest) =
      separator first
      ++ (write_string key ++ (b':' ∷ (ordered value ++ ordered_entries false rest)))

-- `str::cmp` is the lexicographic order of the bytes: `a <= b`.
pub bytes_le : List ℕ → List ℕ → Bool
bytes_le [] t = true
bytes_le (a ∷ s) [] = false
bytes_le (a ∷ s) (b ∷ t) =
    let rest = bytes_le s t in if ltb a b then true else if a == b then rest else false

unfoldable pub key_le : Str → Str → Bool
unfolding bytes_le
key_le a b = bytes_le (as_bytes a) (as_bytes b)

-- `sort_unstable_by` on the keys: the entries of a map have different keys, so every sorting by
-- key gives this list.
module _ {ℓ} {A : Type ℓ} (key : A → Str) where
  unfoldable pub insert_sorted : A → List A → List A
  insert_sorted x [] = x ∷ []
  insert_sorted x (y ∷ ys) =
      let later = insert_sorted x ys in if key_le (key x) (key y) then x ∷ (y ∷ ys) else y ∷ later

  unfoldable pub sort_by_key : List A → List A
  unfolding insert_sorted
  sort_by_key [] = []
  sort_by_key (x ∷ xs) = insert_sorted x (sort_by_key xs)

unfoldable pub sorted_keys : JsonMap → List Str
sorted_keys map = sort_by_key (λ k. k) (keys map)

-- the entries of an object, each value written already
abbrev pub Written : Type 0
Written = Str × Str

unfoldable pub join_written : Bool → List Written → Str
join_written first [] = []
join_written first ((key, text) ∷ rest) =
    separator first ++ (write_string key ++ (b':' ∷ (text ++ join_written false rest)))

unfoldable mutual
  pub canonical : Json → Str
  canonical null = codes "null"
  canonical (boolean true) = codes "true"
  canonical (boolean false) = codes "false"
  canonical (number text) = text
  canonical (string text) = write_string text
  canonical (array items) = b'[' ∷ (canonical_items true items ++ b']' ∷ [])
  canonical (object map) =
      b'{'
      ∷ (join_written true (sort_by_key (λ (w : Written). w.0) (written_entries map)) ++ b'}' ∷ [])

  pub canonical_items : Bool → Items → Str
  canonical_items first nil = []
  canonical_items first (cons x xs) = separator first ++ (canonical x ++ canonical_items false xs)

  pub written_entries : JsonMap → List Written
  written_entries empty = []
  written_entries (entry key value rest) = (key, canonical value) ∷ written_entries rest
