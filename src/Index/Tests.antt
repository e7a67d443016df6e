-- ===== src/Index/Tests.antt =====
-- The theorems on the indexes at concrete forms.
use colander.Prelude.{◌≡◌, ◌↔◌, refl, false, Str, [], ◌∷◌, Option, none, some, codes, ok, str_eq}
use colander.Json.{Json, JsonMap, string, object, array, nil, cons, empty, entry}
use colander.Json.Map.{get}
use colander.Json.Access.{get_array}
use colander.IndexMap.{IndexMap, Distinct, values, put, contains_key}
use colander.Index.{
  FieldInfo, build_by_id, index_fields, field_info, build_by_code_from_id, ensure_unique_codes,
  build_by_code, codes_from,
}
use colander.Index.Codes.{codes_of, entries_of, build_by_code_from_id-ok_iff}

abbrev no_f64 : Str → Option Str
no_f64 text = some text

abbrev text_field : Str → Str → Json
text_field id code = object (
    entry (codes "id") (string id)
      (entry (codes "code") (string code) (entry (codes "type") (string (codes "text")) empty)))

-- two fields with one id and one code
abbrev twins : JsonMap
twins =
    entry (codes "fields")
      (array
        (cons (text_field (codes "a") (codes "x")) (cons (text_field (codes "a") (codes "x")) nil)))
      empty

-- The index by id keeps one of them, so that the repeated code goes unseen.
unseen_duplicate : ensure_unique_codes no_f64 twins ≡ ok tt
unfolding ensure_unique_codes build_by_code build_by_id get_array get str_eq index_fields field_info
    build_by_code_from_id codes_from values put contains_key
unseen_duplicate = refl

abbrev info : Str → Str → FieldInfo Str
info id code = record {
  id = id;
  code = code;
  field_type = codes "text";
  required = false;
  read_only = false;
  path = codes "/fields/0";
  multiple_of = none;
  decimal_places = none;
}

abbrev two_fields : IndexMap (FieldInfo Str)
two_fields =
    (codes "a", info (codes "a") (codes "x")) ∷ (codes "b", info (codes "b") (codes "y")) ∷ []

build_by_code_from_id-ok_iff_example :
    (build_by_code_from_id two_fields ≡ ok (entries_of (values two_fields))) ↔ (
      Distinct (codes_of (values two_fields))
      × (entries_of (values two_fields) ≡ entries_of (values two_fields)))
build_by_code_from_id-ok_iff_example =
    build_by_code_from_id-ok_iff two_fields (entries_of (values two_fields))
