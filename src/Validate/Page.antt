-- ===== src/Validate/Page.antt =====
-- src/validate/page.rs: the fields that a page of the layout shows.
pub mod Shows
use colander.Prelude.{
  ℕ, zero, suc, ◌+◌, Bool, true, false, ◌&&◌, Str, List, [], ◌∷◌, ◌++◌, Option, none, some, codes,
  str_eq, if◌then◌else◌, Result, ok, fail, ◌>>=◌,
}
use colander.Json.{
  Json, Items, JsonMap, null, boolean, number, string, array, object, nil, cons, empty, entry,
}
use colander.Json.Access.{as_object, get_array, get_str}
use colander.Json.Parse.{parse_object}
use colander.IndexMap.{contains}
use colander.Validate.Limits.{ellipsize}

is_text : Option Str → Str → Bool
is_text none t = false
is_text (some s) t = str_eq s t

unfoldable pub is_page : Json → Str → Bool
unfolding is_text
is_page (object map) page_id =
    is_text (get_str map (codes "type")) (codes "page")
    && is_text (get_str map (codes "id")) page_id
is_page _ page_id = false

-- `HashSet::insert`
unfoldable pub insert_id : List Str → Str → List Str
insert_id ids id = if contains ids id then ids else id ∷ ids

-- `stack.extend(children)`: the last of them is popped first
unfoldable pub extend : Items → List Json → List Json
extend nil stack = stack
extend (cons x xs) stack = extend xs (x ∷ stack)

with_id : Option Str → List Str → List Str
with_id none ids = ids
with_id (some id) ids = insert_id ids id

with_children : Option Items → List Json → List Json
with_children none stack = stack
with_children (some children) stack = extend children stack

-- one round of the loop: what a popped node adds to the ids and to the stack
unfoldable pub add_id : Json → List Str → List Str
unfolding with_id
add_id (object map) ids = with_id (get_str map (codes "fieldId")) ids
add_id _ ids = ids

unfoldable pub add_children : Json → List Json → List Json
unfolding with_children
add_children (object map) stack = with_children (get_array map (codes "children")) stack
add_children _ stack = stack

unfoldable pub collect_loop : ℕ → List Json → List Str → Result (List Str)
collect_loop fuel [] ids = ok ids
collect_loop zero (node ∷ stack) ids = Result.out_of_fuel
collect_loop (suc fuel) (node ∷ stack) ids =
    collect_loop fuel (add_children node stack) (add_id node ids)

-- The fuel: the nodes of a document, each popped at most once.
unfoldable mutual
  pub size : Json → ℕ
  size (array items) = suc (items_size items)
  size (object map) = suc (map_size map)
  size null = 1
  size (boolean b) = 1
  size (number s) = 1
  size (string s) = 1

  pub items_size : Items → ℕ
  items_size nil = 0
  items_size (cons x xs) = size x + items_size xs

  pub map_size : JsonMap → ℕ
  map_size empty = 0
  map_size (entry k v m) = size v + map_size m

unfoldable pub collect_field_ids : Items → Result (List Str)
collect_field_ids nodes = collect_loop (items_size nodes) (extend nodes []) []

find_page : Items → Str → Option JsonMap
find_page nil page_id = none
find_page (cons node rest) page_id =
    if is_page node page_id then as_object node else find_page rest page_id

page_in : Option Items → Str → Option JsonMap
unfolding find_page
page_in none page_id = none
page_in (some layout) page_id = find_page layout page_id

layout_of : Option Str → Result (Option Items)
layout_of none = ok none
layout_of (some text) = do
  root ← parse_object text (codes "UI schema")
  ok (get_array root (codes "layout"))

ids_of : Option Items → Result (List Str)
ids_of none = ok []
ids_of (some children) = collect_field_ids children

page_ids : Str → Option JsonMap → Result (List Str)
unfolding ids_of
page_ids page_id none = fail (
    codes "UI_UNKNOWN_PAGE: no page with id '"
    ++ (ellipsize page_id ++ codes "' exists in the UI layout."))
page_ids page_id (some page) = ids_of (get_array page (codes "children"))

unfoldable pub page_field_ids : Option Str → Str → Result (List Str)
unfolding layout_of page_in page_ids
page_field_ids ui_schema_json page_id = do
  layout ← layout_of ui_schema_json
  page_ids page_id (page_in layout page_id)

-- `on_page` of src/validate.rs
unfoldable pub on_page : Str → Option (List Str) → Bool
on_page field_id none = true
on_page field_id (some ids) = contains ids field_id
