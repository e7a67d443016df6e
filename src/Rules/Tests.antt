-- ===== src/Rules/Tests.antt =====
-- The theorems on rule expressions at concrete inputs.
use colander.Prelude.{
  ◌≡◌, refl, Bool, true, false, Str, [], ◌∷◌, none, some, codes, ok, inl, inr, str_eq,
}
use colander.Json.{Json, JsonMap, string, object, array, nil, cons, empty, entry, items_length}
use colander.IndexMap.{IndexMap, contains_key, lookup, contains, put, Distinct}
use colander.Json.Map.{get}
use colander.Json.Access.{get_str, as_str, get_array, is_null, as_array, as_object}
use colander.Index.{FieldInfo}
use colander.Rules.Refs.{
  collect_references, collect_direct_references, is_aggregate, never_closed, collect, collect_args,
  collect_array, collect_each, visit_open, visit_code, new_code, collect_aggregate_repeaters,
  each_code, first_argument, is_home, row_check, target_check, validate_aggregate_targets,
  validate_row_scope, visit_aggregate,
}
use colander.Rules.Shape.{
  validate_expression_shape, validate_aggregate_arguments, shape, shape_args, shape_array,
  shape_each, node_head, head_at, arity_of, out_of_bounds,
}
use colander.Rules.Refs.Reads.{Reads, here, under, names_code, Within}
use colander.Rules.Refs.Scope.{collect_references-Distinct}
use colander.Rules.Sort.{topological_sort, edges, edges_of, nodes, drain, ready, release}
use colander.Rules.Analyze.{
  validate_expression, validate_expression_references, first_unknown, unknown_code,
}
use colander.Rules.Shape.Accepts.{IsExpression, validate_expression_shape-IsExpression}
use colander.Rules.Sound.{validate_expression-known, validate_expression-scoped}

-- `{"ref": code}`
abbrev reference : Str → Json
reference code = object (entry (codes "ref") (string code) empty)

-- `{"op": "add", "args": [{"ref": "qty"}, {"ref": "price"}]}`
abbrev sum_node : JsonMap
sum_node = entry (codes "op") (string (codes "add")) (
    entry (codes "args")
      (array (cons (reference (codes "qty")) (cons (reference (codes "price")) nil))) empty)

abbrev qty_and_price : Json
qty_and_price = object sum_node

abbrev line_children : IndexMap Str
line_children = (codes "qty", codes "lines") ∷ (codes "price", codes "lines") ∷ []

abbrev field : Str → FieldInfo Str
field code = record {
  id = code;
  code = code;
  field_type = codes "number";
  required = false;
  read_only = false;
  path = codes "/fields/0";
  multiple_of = none;
  decimal_places = none;
}

abbrev line_fields : IndexMap (FieldInfo Str)
line_fields = (codes "qty", field (codes "qty")) ∷ (codes "price", field (codes "price")) ∷ []

abbrev price : Json
price = reference (codes "price")

Reads-price :
    (closed : JsonMap → Bool) → closed sum_node ≡ false → Reads closed qty_and_price (codes "price")
unfolding names_code get_str as_str get Within str_eq
Reads-price closed h =
    under sum_node (cons (reference (codes "qty")) (cons price nil)) price (codes "price") refl h
      refl (inr (inl refl))
      (here (entry (codes "ref") (string (codes "price")) empty) (codes "price") refl refl)

collect_both : collect_references qty_and_price ≡ codes "qty" ∷ codes "price" ∷ []
unfolding collect_references collect collect_args collect_array collect_each visit_open visit_code
    new_code get_str as_str get contains str_eq
collect_both = refl

-- a cycle is left out of the order
sorted :
    topological_sort (codes "a" ∷ codes "b" ∷ codes "c" ∷ codes "d" ∷ []) (
      (codes "a", codes "b" ∷ [])
      ∷ (codes "b", codes "x" ∷ [])
      ∷ (codes "c", codes "d" ∷ [])
      ∷ (codes "d", codes "c" ∷ [])
      ∷ [])
    ≡ ok (codes "b" ∷ codes "a" ∷ [])
unfolding topological_sort edges edges_of lookup str_eq nodes put drain ready release
sorted = refl

passes :
    validate_expression (some qty_and_price) [] line_fields line_children (some (codes "lines"))
    ≡ ok tt
unfolding validate_expression validate_expression_shape shape shape_args shape_array shape_each
    node_head get str_eq get_str arity_of get_array items_length validate_aggregate_arguments
    validate_expression_references is_null collect_references collect collect_args collect_array
    collect_each visit_open visit_code new_code contains contains_key lookup as_array as_object
    as_str first_unknown unknown_code collect_aggregate_repeaters collect_direct_references
    each_code first_argument is_aggregate is_home row_check target_check validate_aggregate_targets
    validate_row_scope visit_aggregate head_at out_of_bounds
passes = refl

validate_expression-known_example : contains_key line_fields (codes "price") ≡ true
validate_expression-known_example =
    validate_expression-known line_fields qty_and_price [] line_children (some (codes "lines"))
      (codes "price") passes (Reads-price never_closed refl)

validate_expression-scoped_example : some (codes "lines") ≡ some (codes "lines")
unfolding lookup get_str get str_eq
validate_expression-scoped_example =
    validate_expression-scoped line_fields qty_and_price [] line_children (some (codes "lines"))
      (codes "price") (codes "lines") passes
      (Reads-price is_aggregate (unfold is_aggregate in refl)) refl

collect_references-Distinct_example :
    Distinct (collect_references qty_and_price) × Distinct (collect_direct_references qty_and_price)
collect_references-Distinct_example = collect_references-Distinct qty_and_price

shape_passes : validate_expression_shape (some qty_and_price) [] ≡ ok tt
unfolding validate_expression_shape shape shape_args shape_array shape_each node_head head_at get
    str_eq get_str as_str get_array as_array arity_of out_of_bounds items_length
shape_passes = refl

validate_expression_shape-IsExpression_example : IsExpression qty_and_price
validate_expression_shape-IsExpression_example =
    validate_expression_shape-IsExpression qty_and_price [] shape_passes (unfold is_null in refl)
