-- ===== src/Json/Map.antt =====
-- `IndexMap<String, Json>`: lookups, and an insertion that keeps the position of a known key.
use colander.Prelude.{
  ℕ, suc, ◌≡◌, refl, Bool, false, ◌||◌, Str, List, [], ◌∷◌, Option, none, some, str_eq,
  if◌then◌else◌, arith,
}
use colander.Json.{Json, JsonMap, empty, entry}

unfoldable pub get : JsonMap → Str → Option Json
get empty key = none
get (entry k v m) key = if str_eq k key then some v else get m key

unfoldable pub contains_key : JsonMap → Str → Bool
contains_key empty key = false
contains_key (entry k v m) key = str_eq k key || contains_key m key

unfoldable pub insert : JsonMap → Str → Json → JsonMap
insert empty key v = entry key v empty
insert (entry k w m) key v = if str_eq k key then entry k v m else entry k w (insert m key v)

unfoldable pub keys : JsonMap → List Str
keys empty = []
keys (entry k v m) = k ∷ keys m

unfoldable pub map_length : JsonMap → ℕ
map_length empty = 0
map_length (entry k v m) = suc (map_length m)

-- an entry behind all others
unfoldable pub append_entry : JsonMap → Str → Json → JsonMap
append_entry empty key v = entry key v empty
append_entry (entry k w m) key v = entry k w (append_entry m key v)

-- A new key goes behind all others.
pub insert-new :
    (m : JsonMap) (key : Str) (v : Json)
    → contains_key m key ≡ false
    → insert m key v ≡ append_entry m key v
unfolding insert contains_key append_entry
insert-new empty key v h = refl
insert-new (entry k w m) key v h = ground (arith, insert-new m key v)
