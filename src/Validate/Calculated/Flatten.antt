-- ===== src/Validate/Calculated/Flatten.antt =====
-- `flatten_for_rules` of src/validate/calculated.rs: the answers as the rules read them.
use colander.Prelude.{
  Bool, false, Str, [], Option, none, some, codes, str_eq, if◌then◌else◌, Result, ok,
}
use colander.Prelude.Int.{pos}
use colander.Json.{Json, Items, JsonMap, object, nil, cons, empty, entry, items_length}
use colander.Json.Access.{as_array}
use colander.IndexMap.{IndexMap, lookup, put}
use colander.Index.Answers.{AnswerFieldDefinition}
use colander.Rules.Value.{Val, from_json_element}
use colander.Floats.{Floats}
use colander.Validate.Conversion.{type_of}

is_repeater : Option AnswerFieldDefinition → Bool
is_repeater none = false
is_repeater (some field) = str_eq (type_of field) (codes "repeater")

module _ {F : Type 0} (floats : Floats F) where
  -- a value that cannot be read counts as null
  or_null : Result (Val F) → Val F
  or_null (ok v) = v
  or_null _ = Val.null

  flatten_cells : JsonMap → IndexMap (Val F) → IndexMap (Val F)
  unfolding or_null
  flatten_cells empty flat = flat
  flatten_cells (entry name property rest) flat =
      flatten_cells rest (put flat name (or_null (from_json_element floats property)))

  flatten_rows : Items → IndexMap (Val F) → IndexMap (Val F)
  unfolding flatten_cells
  flatten_rows nil flat = flat
  flatten_rows (cons (object row) rest) flat = flatten_rows rest (flatten_cells row flat)
  flatten_rows (cons _ rest) flat = flatten_rows rest flat

  repeater_rows : Str → Option Items → IndexMap (Val F) → IndexMap (Val F)
  unfolding flatten_rows
  repeater_rows code none flat = put flat code (Val.int (pos 0))
  repeater_rows code (some rows) flat =
      flatten_rows rows (put flat code (Val.int (pos (items_length rows))))

  unfoldable pub flatten_repeater_answer : IndexMap (Val F) → Str → Json → IndexMap (Val F)
  unfolding repeater_rows
  flatten_repeater_answer flat code value = repeater_rows code (as_array value) flat

  flatten_all : IndexMap AnswerFieldDefinition → JsonMap → IndexMap (Val F) → IndexMap (Val F)
  unfolding or_null is_repeater
  flatten_all fields_by_code empty flat = flat
  flatten_all fields_by_code (entry code value rest) flat = flatten_all fields_by_code rest (
      if is_repeater (lookup fields_by_code code)
      then flatten_repeater_answer flat code value
      else put flat code (or_null (from_json_element floats value)))

  unfoldable pub flatten_for_rules : JsonMap → IndexMap AnswerFieldDefinition → IndexMap (Val F)
  unfolding flatten_all
  flatten_for_rules answers fields_by_code = flatten_all fields_by_code answers []
