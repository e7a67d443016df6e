-- ===== src/Index.antt =====
-- src/index.rs: the indexes over the fields of a form. The parse of a floating point number is a
-- parameter. A recursive call on the `items` of a field is written as a walk of the field's entries
-- to that key, so that it ends by structure.
pub mod Answers
pub mod Codes
mod Tests
use colander.Prelude.{
  ℕ, zero, suc, ◌+◌, Bool, true, false, ◌||◌, ◌&&◌, Str, List, [], ◌∷◌, ◌++◌, Option, none, some,
  str_eq, if◌then◌else◌, codes, Result, ok, err, panic, out_of_fuel, fail, ◌>>=◌, ◌>>◌, map_ok,
}
use colander.Prelude.Int.{ℤ}
use colander.Text.Decimal.{show_nat, parse_i32}
use colander.Json.{
  Json, Items, JsonMap, null, boolean, number, string, array, object, nil, cons, empty, entry,
}
use colander.Json.Map.{get}
use colander.Json.Access.{get_array}
use colander.IndexMap.{IndexMap, put, contains_key, values}

pub record FieldInfo (F : Type 0) : Type 0 where
  pub id : Str
  pub code : Str
  pub field_type : Str
  pub required : Bool
  pub read_only : Bool
  pub path : Str
  pub multiple_of : Option F
  pub decimal_places : Option ℤ

json_kind : Json → Str
json_kind null = codes "Null"
json_kind (boolean true) = codes "True"
json_kind (boolean false) = codes "False"
json_kind (number s) = codes "Number"
json_kind (string s) = codes "String"
json_kind (array xs) = codes "Array"
json_kind (object m) = codes "Object"

-- `{path}/{index}`
unfoldable pub child_path : Str → Str → Str
child_path path name = path ++ (b'/' ∷ name)

missing_key : Str → Str → Str
missing_key key path =
    codes "FIELD_MISSING_KEY: field "
    ++ (key ++ (codes " at " ++ (child_path path key ++ codes " is required.")))

wrong_kind : Str → Json → Str → Str
unfolding json_kind
wrong_kind what v expected =
    codes "FIELD_INVALID_TYPE: "
    ++ (what ++ (codes " is " ++ (json_kind v ++ (codes ", expected " ++ (expected ++ codes ".")))))

abbrev quoted_key : Str → Str
quoted_key key = codes "key '" ++ (key ++ codes "'")

string_of : Str → Str → Option Json → Result Str
unfolding missing_key wrong_kind
string_of key path none = fail (missing_key key path)
string_of key path (some null) = fail (missing_key key path)
string_of key path (some (string text)) = ok text
string_of key path (some v) = fail (wrong_kind (child_path path key) v (codes "String"))

unfoldable pub require_string : JsonMap → Str → Str → Result Str
unfolding string_of
require_string field key path = string_of key path (get field key)

bool_of : Str → Option Json → Result Bool
unfolding wrong_kind
bool_of key none = ok false
bool_of key (some null) = ok false
bool_of key (some (boolean b)) = ok b
bool_of key (some v) = fail (wrong_kind (quoted_key key) v (codes "Boolean"))

unfoldable pub field_bool : JsonMap → Str → Result Bool
unfolding bool_of
field_bool field key = bool_of key (get field key)

narrow : Str → Option ℤ → Result (Option ℤ)
narrow key (some n) = ok (some n)
narrow key none = fail (
    codes "FIELD_INVALID_TYPE: "
    ++ (quoted_key key ++ codes " is Number, expected an i32 Integer."))

int_of : Str → Option Json → Result (Option ℤ)
unfolding wrong_kind narrow
int_of key none = ok none
int_of key (some null) = ok none
int_of key (some (number text)) = narrow key (parse_i32 text)
int_of key (some v) = fail (wrong_kind (quoted_key key) v (codes "Integer"))

field_int : JsonMap → Str → Result (Option ℤ)
unfolding int_of
field_int field key = int_of key (get field key)

-- `value.as_object().ok_or_else(..)`
unfoldable pub not_object : Str → Str
not_object path = codes "FIELD_NOT_OBJECT: " ++ (path ++ codes " must be an object.")

unfoldable pub nested_items : Str → Str → Str
nested_items id path =
    codes "REPEATER_NESTED_FIELD: field '"
    ++ (id
        ++ (codes "' at "
            ++ (path
                ++ codes
                    " nests items under a repeater; repeater children must be flat scalar fields.")))

unfoldable pub is_some {ℓ} : {A : Type ℓ} → Option A → Bool
is_some none = false
is_some (some a) = true

-- the early return for items under a repeater
flat_only : Bool → Str → Str → JsonMap → Result (Unit {0})
unfolding nested_items is_some
flat_only under_repeater id path field =
    if under_repeater && is_some (get_array field (codes "items"))
    then fail (nested_items id path)
    else ok tt

abbrev pub repeater : Str
repeater = codes "repeater"

abbrev pub group : Str
group = codes "group"

module _ {F : Type 0} (parse_f64 : Str → Option F) where
  double_of : Str → Option Json → Result (Option F)
  unfolding wrong_kind
  double_of key none = ok none
  double_of key (some null) = ok none
  double_of key (some (number text)) = ok (parse_f64 text)
  double_of key (some v) = fail (wrong_kind (quoted_key key) v (codes "Number"))

  field_double : JsonMap → Str → Result (Option F)
  unfolding double_of
  field_double field key = double_of key (get field key)

  -- the entry of one field, in the order in which its keys are read
  unfoldable pub field_info : Bool → JsonMap → Str → Result (FieldInfo F)
  unfolding require_string flat_only field_bool field_double field_int
  field_info under_repeater field path = do
    id ← require_string field (codes "id") path
    code ← require_string field (codes "code") path
    field_type ← require_string field (codes "type") path
    flat_only under_repeater id path field
    required ← field_bool field (codes "required")
    read_only ← field_bool field (codes "readOnly")
    multiple_of ← field_double field (codes "multipleOf")
    decimal_places ← field_int field (codes "decimalPlaces")
    ok (record {
      id = id;
      code = code;
      field_type = field_type;
      required = required;
      read_only = read_only;
      path = path;
      multiple_of = multiple_of;
      decimal_places = decimal_places;
    })

  unfoldable mutual
    -- `index_fields` on the fields from number `index` on
    pub index_fields :
        Items → ℕ → Str → IndexMap (FieldInfo F) → Bool → Result (IndexMap (FieldInfo F))
    index_fields nil index path by_id under_repeater = ok by_id
    index_fields (cons value rest) index path by_id under_repeater = do
      by_id' ← index_field value (child_path path (show_nat index)) by_id under_repeater
      index_fields rest (index + 1) path by_id' under_repeater

    -- the body of the loop
    pub index_field : Json → Str → IndexMap (FieldInfo F) → Bool → Result (IndexMap (FieldInfo F))
    index_field (object field) path by_id under_repeater = do
      info ← field_info under_repeater field path
      index_items field (child_path path (codes "items")) (put by_id info.id info)
          (under_repeater || str_eq info.field_type repeater)
    index_field _ path by_id under_repeater = fail (not_object path)

    -- `if let Some(items) = json::get_array(field, ITEMS)`, and the recursive call
    pub index_items :
        JsonMap → Str → IndexMap (FieldInfo F) → Bool → Result (IndexMap (FieldInfo F))
    index_items empty path by_id nested = ok by_id
    index_items (entry key value rest) path by_id nested = elim (str_eq key (codes "items")) [
      | true ↦ index_array value path by_id nested
      | false ↦ index_items rest path by_id nested
    ]

    pub index_array : Json → Str → IndexMap (FieldInfo F) → Bool → Result (IndexMap (FieldInfo F))
    index_array (array items) path by_id nested = index_fields items 0 path by_id nested
    index_array _ path by_id nested = ok by_id

  fields_at : Option Items → Result (IndexMap (FieldInfo F))
  fields_at none = ok []
  fields_at (some fields) = index_fields fields 0 (codes "/fields") [] false

  unfoldable pub build_by_id : JsonMap → Result (IndexMap (FieldInfo F))
  unfolding fields_at
  build_by_id form_root = fields_at (get_array form_root (codes "fields"))

unfoldable pub duplicate_code {ℓ} : {A : Type ℓ} → Str → Result A
duplicate_code code =
    fail (codes "RULE_DUPLICATE_FIELD_CODE: duplicate field code '" ++ (code ++ codes "'."))

module _ {F : Type 0} where
  -- the loop of `build_by_code_from_id` over the values
  unfoldable pub codes_from :
      List (FieldInfo F) → IndexMap (FieldInfo F) → Result (IndexMap (FieldInfo F))
  unfolding duplicate_code
  codes_from [] by_code = ok by_code
  codes_from (info ∷ rest) by_code =
      let later = codes_from rest (put by_code info.code info) in
      if contains_key by_code info.code then duplicate_code info.code else later

  unfoldable pub build_by_code_from_id : IndexMap (FieldInfo F) → Result (IndexMap (FieldInfo F))
  build_by_code_from_id fields_by_id = codes_from (values fields_by_id) []

  codes_over : List (FieldInfo F) → IndexMap (FieldInfo F) → IndexMap (FieldInfo F)
  codes_over [] by_code = by_code
  codes_over (info ∷ rest) by_code = codes_over rest (put by_code info.code info)

  unfoldable pub build_by_code_from_id_unchecked : IndexMap (FieldInfo F) → IndexMap (FieldInfo F)
  unfolding codes_over
  build_by_code_from_id_unchecked fields_by_id = codes_over (values fields_by_id) []

module _ {F : Type 0} (parse_f64 : Str → Option F) where
  unfoldable pub build_by_code : JsonMap → Result (IndexMap (FieldInfo F))
  build_by_code form_root = do by_id ← build_by_id parse_f64 form_root; build_by_code_from_id by_id

  unfoldable pub ensure_unique_codes : JsonMap → Result (Unit {0})
  ensure_unique_codes form_root = do by_code ← build_by_code form_root; ok tt
