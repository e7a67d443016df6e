-- ===== src/Index/Answers.antt =====
-- The index of src/index.rs that the response validator walks: fields outside groups, by code.
use colander.Prelude.{
  ℕ, ◌+◌, Bool, true, false, Str, [], Option, none, some, str_eq, if◌then◌else◌, codes, Result, ok,
  fail, ◌>>=◌, ◌>>◌,
}
use colander.Text.Decimal.{show_nat}
use colander.Json.{Json, Items, JsonMap, object, array, nil, cons, empty, entry}
use colander.Json.Access.{get_array}
use colander.IndexMap.{IndexMap, put}
use colander.Index.{
  require_string, field_bool, nested_items, is_some, child_path, not_object, repeater, group,
}

mutual
  pub data AnswerFieldDefinition : Type 0 where
    -- id, code, field type, path, required, read only, the raw field, children
    answer_field : Str → Str → Str → Str → Bool → Bool → JsonMap → Children → AnswerFieldDefinition

  pub data Children : Type 0 where
    no_more : Children
    child : AnswerFieldDefinition → Children → Children

unfoldable pub push_child : Children → AnswerFieldDefinition → Children
push_child no_more d = child d no_more
push_child (child c cs) d = child c (push_child cs d)

-- the entry, once the required strings are read
unfoldable pub definition :
    JsonMap → Str → Str → Str → Str → Children → Result AnswerFieldDefinition
definition field id code field_type path children = do
  required ← field_bool field (codes "required")
  read_only ← field_bool field (codes "readOnly")
  ok (answer_field id code field_type path required read_only field children)

-- the early return for items of a child
flat_child : Bool → Str → Str → Result (Unit {0})
flat_child true id path = fail (nested_items id path)
flat_child false id path = ok tt

unfoldable pub child_definition : JsonMap → Str → Result AnswerFieldDefinition
unfolding flat_child
child_definition field path = do
  id ← require_string field (codes "id") path
  code ← require_string field (codes "code") path
  field_type ← require_string field (codes "type") path
  flat_child (is_some (get_array field (codes "items"))) id path
  definition field id code field_type path no_more

unfoldable pub index_child_fields : Items → ℕ → Str → Children → Result Children
index_child_fields nil index path children = ok children
index_child_fields (cons (object field) rest) index path children = do
  d ← child_definition field (child_path path (show_nat index))
  index_child_fields rest (index + 1) path (push_child children d)
index_child_fields (cons _ rest) index path children =
    fail (not_object (child_path path (show_nat index)))

children_at : Str → Option Items → Result Children
children_at path none = ok no_more
children_at path (some items) = index_child_fields items 0 path no_more

-- the children of a repeater
unfoldable pub children_of : Str → JsonMap → Str → Result Children
unfolding children_at
children_of field_type field path =
    if str_eq field_type repeater
    then children_at (child_path path (codes "items")) (get_array field (codes "items"))
    else ok no_more

abbrev Answers : Type 0
Answers = IndexMap AnswerFieldDefinition

-- code and type of a field, and its definition
unfoldable pub answer_definition : JsonMap → Str → Result (Str × Str × AnswerFieldDefinition)
unfolding children_of definition
answer_definition field path = do
  id ← require_string field (codes "id") path
  code ← require_string field (codes "code") path
  field_type ← require_string field (codes "type") path
  children ← children_of field_type field path
  d ← definition field id code field_type path children
  ok (code, field_type, d)

unfoldable mutual
  pub index_answer_fields : Items → ℕ → Str → Answers → Result Answers
  index_answer_fields nil index path by_code = ok by_code
  index_answer_fields (cons value rest) index path by_code = do
    by_code' ← index_answer_field value (child_path path (show_nat index)) by_code
    index_answer_fields rest (index + 1) path by_code'

  -- the body of the loop
  pub index_answer_field : Json → Str → Answers → Result Answers
  index_answer_field (object field) path by_code = do
    (code, field_type, d) ← answer_definition field path
    elim (str_eq field_type group) [
      | true ↦ index_answer_items field (child_path path (codes "items")) by_code
      | false ↦ ok (put by_code code d)
    ]
  index_answer_field _ path by_code = fail (not_object path)

  -- the `items` of a group, and the recursive call
  pub index_answer_items : JsonMap → Str → Answers → Result Answers
  index_answer_items empty path by_code = ok by_code
  index_answer_items (entry key value rest) path by_code = elim (str_eq key (codes "items")) [
    | true ↦ index_answer_array value path by_code
    | false ↦ index_answer_items rest path by_code
  ]

  pub index_answer_array : Json → Str → Answers → Result Answers
  index_answer_array (array items) path by_code = index_answer_fields items 0 path by_code
  index_answer_array _ path by_code = ok by_code

answers_at : Option Items → Result Answers
answers_at none = ok []
answers_at (some fields) = index_answer_fields fields 0 (codes "/fields") []

unfoldable pub build_answer_index : JsonMap → Result Answers
unfolding answers_at
build_answer_index form_root = answers_at (get_array form_root (codes "fields"))
