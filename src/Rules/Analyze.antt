-- ===== src/Rules/Analyze.antt =====
-- src/rules/analyze.rs: dependency metadata, and the structural validation of a rules document.
use colander.Prelude.{
  not, ◌||◌, Str, List, [], ◌∷◌, ◌++◌, Option, none, some, codes, Result, ok, fail, ◌>>=◌, ◌>>◌,
  if◌then◌else◌,
}
use colander.Json.{Json, JsonMap, object, empty, entry}
use colander.Json.Map.{get}
use colander.Json.Access.{get_object, is_null}
use colander.IndexMap.{IndexMap, contains, contains_key, lookup, put}
use colander.Index.{FieldInfo}
use colander.Semantic.{FormSemantics}
use colander.Rules.Refs.{collect_references, validate_aggregate_targets, validate_row_scope}
use colander.Rules.Shape.{validate_expression_shape, validate_aggregate_arguments}
use colander.Rules.Sort.{topological_sort}

pub record RuleDependencyMetadata : Type 0 where
  pub calculated_field_ids : List Str
  pub evaluation_order : List Str

metadata_of : List Str × IndexMap (List Str) → Result RuleDependencyMetadata
metadata_of (ids, dependencies) = do
  order ← topological_sort ids dependencies
  ok (record { calculated_field_ids = ids; evaluation_order = order })

unfoldable pub unknown_code : Str → Option Str → Result (Unit {0})
unknown_code path none = ok tt
unknown_code path (some unknown) = fail (
    codes "RULE_UNKNOWN_FIELD_REF: expression at "
    ++ (path ++ (codes " references unknown field code '" ++ (unknown ++ codes "'."))))

module _ {F : Type 0} where
  -- the loop over the codes of one `calculate`: ids that are new, in order
  unfoldable pub resolve : IndexMap (FieldInfo F) → List Str → List Str → List Str
  resolve fields_by_code [] deps = deps
  resolve fields_by_code (code ∷ rest) deps = elim (lookup fields_by_code code) [
    | none ↦ resolve fields_by_code rest deps
    | some field ↦
        if contains deps field.id
        then resolve fields_by_code rest deps
        else resolve fields_by_code rest (deps ++ field.id ∷ [])
  ]

  -- the `calculate` of an entry that is neither null nor of an unknown field
  unfoldable pub calculate_of : IndexMap (FieldInfo F) → Str → Json → Option Json
  calculate_of fields_by_id field_id (object rules) = elim (get rules (codes "calculate")) [
    | none ↦ none
    | some calculate ↦
        if is_null calculate || not (contains_key fields_by_id field_id)
        then none
        else some calculate
  ]
  calculate_of fields_by_id field_id _ = none

  -- the loop over the rules of the fields: the calculated ids and their dependencies
  unfoldable pub calculated :
      FormSemantics F → JsonMap → List Str → IndexMap (List Str) → List Str × IndexMap (List Str)
  calculated semantics empty ids dependencies = (ids, dependencies)
  calculated semantics (entry field_id rules_node rest) ids dependencies =
      elim (calculate_of semantics.fields_by_id field_id rules_node) [
        | none ↦ calculated semantics rest ids dependencies
        | some calculate ↦ calculated semantics rest (ids ++ field_id ∷ []) (
            put dependencies field_id
              (resolve semantics.fields_by_code (collect_references calculate) []))
      ]

  rules_metadata : FormSemantics F → Option JsonMap → Result RuleDependencyMetadata
  unfolding metadata_of
  rules_metadata semantics none = ok (record { calculated_field_ids = []; evaluation_order = [] })
  rules_metadata semantics (some field_rules) = metadata_of (calculated semantics field_rules [] [])

  unfoldable pub analyze_with_semantics : FormSemantics F → JsonMap → Result RuleDependencyMetadata
  unfolding rules_metadata
  analyze_with_semantics semantics rules_root =
      rules_metadata semantics (get_object rules_root (codes "fields"))

  unfoldable pub first_unknown : IndexMap (FieldInfo F) → List Str → Option Str
  first_unknown fields_by_code [] = none
  first_unknown fields_by_code (code ∷ rest) =
      let later = first_unknown fields_by_code rest in
      if contains_key fields_by_code code then later else some code

  unfoldable pub validate_expression_references :
      Option Json → Str → IndexMap (FieldInfo F) → Result (Unit {0})
  unfolding first_unknown unknown_code
  validate_expression_references none path fields_by_code = ok tt
  validate_expression_references (some expression) path fields_by_code =
      if is_null expression
      then ok tt
      else unknown_code path (first_unknown fields_by_code (collect_references expression))

  -- the five checks of one expression
  unfoldable pub validate_expression :
      Option Json → Str → IndexMap (FieldInfo F) → IndexMap Str → Option Str → Result (Unit {0})
  validate_expression expression path fields_by_code child_repeaters home = do
    validate_expression_shape expression path
    validate_aggregate_arguments expression path
    validate_expression_references expression path fields_by_code
    validate_row_scope expression path child_repeaters home
    validate_aggregate_targets expression path child_repeaters

  -- the expressions under some keys of a node, outside of any row
  unfoldable pub validate_keys :
      List Str → JsonMap → Str → IndexMap (FieldInfo F) → IndexMap Str → Result (Unit {0})
  validate_keys [] node path fields_by_code child_repeaters = ok tt
  validate_keys (key ∷ rest) node path fields_by_code child_repeaters = do
    validate_expression (get node key) (path ++ (b'/' ∷ key)) fields_by_code child_repeaters none
    validate_keys rest node path fields_by_code child_repeaters
