-- ===== src/Rules/Shape.antt =====
-- src/rules/shape.rs: the shape that every rule expression must have. The recursion over the
-- arguments is a walk of the node's entries to the key `args`.
pub mod Heads
pub mod Accepts
use colander.Prelude.{
  ℕ, ◌+◌, Bool, true, false, not, ◌||◌, ◌==◌, ltb, Str, List, [], ◌∷◌, ◌++◌, Option, none, some,
  str_eq, codes, is_empty, Result, ok, fail, ◌>>◌, if◌then◌else◌,
}
use colander.Text.Decimal.{show_nat}
use colander.Json.{
  Json, Items, JsonMap, null, string, object, array, nil, cons, empty, entry, items_length,
}
use colander.Json.Map.{get, contains_key}
use colander.Json.Access.{get_array, get_str}

-- a name with the least and the greatest number of arguments
abbrev Arity : Type 0
Arity = ℕ × Option ℕ

abbrev exactly : ℕ → Arity
exactly n = (n, some n)

abbrev any_number : Arity
any_number = (0, none)

-- the table `OPERATORS`
abbrev operators : List (Str × Arity)
operators =
    (codes "eq", exactly 2)
    ∷ (codes "neq", exactly 2)
    ∷ (codes "gt", exactly 2)
    ∷ (codes "gte", exactly 2)
    ∷ (codes "lt", exactly 2)
    ∷ (codes "lte", exactly 2)
    ∷ (codes "and", any_number)
    ∷ (codes "or", any_number)
    ∷ (codes "not", exactly 1)
    ∷ (codes "empty", exactly 1)
    ∷ (codes "coalesce", any_number)
    ∷ (codes "add", exactly 2)
    ∷ (codes "sub", exactly 2)
    ∷ (codes "mul", exactly 2)
    ∷ (codes "div", exactly 2)
    ∷ (codes "count", exactly 1)
    ∷ (codes "sum", exactly 2)
    ∷ []

find_operator : List (Str × Arity) → Str → Option Arity
find_operator [] op = none
find_operator ((name, arity) ∷ rest) op =
    let later = find_operator rest op in if str_eq name op then some arity else later

unfoldable pub arity_of : Str → Option Arity
unfolding find_operator
arity_of op = find_operator operators op

invalid : Str → Str
invalid what = codes "RULE_INVALID_EXPRESSION: " ++ what

not_expression : Str → Str
unfolding invalid
not_expression path =
    invalid (codes "expression at " ++ (path ++ codes " must be a 'ref', 'lit' or 'op' object."))

-- a string that is not empty
is_code : Json → Bool
is_code (string code) = not (is_empty code)
is_code _ = false

unfoldable pub out_of_bounds : ℕ → Arity → Bool
out_of_bounds n (least, none) = ltb n least
out_of_bounds n (least, some most) = ltb n least || ltb most n

expected_arity : Arity → Str
expected_arity (least, none) = codes "at least " ++ show_nat least
expected_arity (least, some most) =
    if most == least
    then codes "exactly " ++ show_nat least
    else codes "between " ++ (show_nat least ++ (codes " and " ++ show_nat most))

-- What is known of a node before its arguments: it is settled, or it is an operator's.
pub data Head : Type 0 where
  settled : Result (Unit {0}) → Head
  operator : Str → Head

ref_head : Json → Str → Head
unfolding is_code invalid
ref_head v path = settled (
    if is_code v
    then ok tt
    else fail (invalid (codes "'ref' at " ++ (path ++ codes " must be a non-empty string."))))

lit_head : JsonMap → Str → Head
unfolding invalid
lit_head node path = settled (
    if contains_key node (codes "op") || contains_key node (codes "args")
    then fail (
        invalid (codes "'lit' at " ++ (path ++ codes " must not be combined with 'op' or 'args'.")))
    else ok tt)

args_head : Str → Arity → Option Items → Str → Head
unfolding invalid out_of_bounds expected_arity
args_head op arity none path = settled (
    fail (
      invalid (
        codes "expression '"
        ++ (op ++ (codes "' at " ++ (path ++ codes " must carry an 'args' array."))))))
args_head op arity (some args) path =
    if out_of_bounds (items_length args) arity
    then settled (
        fail (
          codes "RULE_INVALID_EXPRESSION_ARITY: expression '"
          ++ (op
              ++ (codes "' at "
                  ++ (path
                      ++ (codes " has "
                          ++ (show_nat (items_length args)
                              ++ (codes " argument(s), expected "
                                  ++ (expected_arity arity ++ codes ".")))))))))
    else operator op

arity_head : Str → Option Arity → Option Items → Str → Head
unfolding args_head
arity_head op none args path = settled (
    fail (
      codes "RULE_UNSUPPORTED_EXPRESSION_OPERATOR: expression at "
      ++ (path ++ (codes " uses unsupported operator '" ++ (op ++ codes "'.")))))
arity_head op (some arity) args path = args_head op arity args path

op_head : Option Str → Option Items → Str → Head
unfolding arity_head invalid
op_head none args path =
    settled
      (fail (invalid (codes "expression at " ++ (path ++ codes " is missing an 'op' string."))))
op_head (some op) args path = arity_head op (arity_of op) args path

unfoldable pub head_at : Option Json → Option Json → JsonMap → Str → Head
unfolding ref_head lit_head op_head
head_at (some reference) literal node path = ref_head reference path
head_at none (some literal) node path = lit_head node path
head_at none none node path =
    op_head (get_str node (codes "op")) (get_array node (codes "args")) path

unfoldable pub node_head : JsonMap → Str → Head
unfolding head_at
node_head node path = head_at (get node (codes "ref")) (get node (codes "lit")) node path

unfoldable pub argument_path : Str → ℕ → Str
argument_path path position = path ++ (codes "/args/" ++ show_nat position)

unfoldable pub null_argument : ℕ → Str → Str → Str
unfolding invalid
null_argument position op path = invalid (
    codes "argument "
    ++ (show_nat position
        ++ (codes " of '"
            ++ (op
                ++ (codes "' at "
                    ++ (path ++ codes " is null; every argument must be an expression."))))))

unfoldable mutual
  unfolding not_expression

  -- an expression that is present
  pub shape : Json → Str → Result (Unit {0})
  shape null path = ok tt
  shape (object node) path = elim (node_head node path) [
    | settled r ↦ r
    | operator op ↦ shape_args node op path
  ]
  shape _ path = fail (not_expression path)

  pub shape_args : JsonMap → Str → Str → Result (Unit {0})
  shape_args empty op path = ok tt
  shape_args (entry key value rest) op path = elim (str_eq key (codes "args")) [
    | true ↦ shape_array value op path
    | false ↦ shape_args rest op path
  ]

  pub shape_array : Json → Str → Str → Result (Unit {0})
  shape_array (array args) op path = shape_each args 0 op path
  shape_array _ op path = ok tt

  pub shape_each : Items → ℕ → Str → Str → Result (Unit {0})
  shape_each nil position op path = ok tt
  shape_each (cons null rest) position op path = fail (null_argument position op path)
  shape_each (cons arg rest) position op path =
      shape arg (argument_path path position) >> shape_each rest (position + 1) op path

unfoldable pub validate_expression_shape : Option Json → Str → Result (Unit {0})
validate_expression_shape none path = ok tt
validate_expression_shape (some node) path = shape node path

is_reference : Option Str → Bool
is_reference none = false
is_reference (some code) = not (is_empty code)

reference_of : Json → Option Str
reference_of (object node) = get_str node (codes "ref")
reference_of _ = none

-- the loop over the positions
unfoldable pub all_references : Items → ℕ → Str → Str → Result (Unit {0})
unfolding is_reference reference_of invalid
all_references nil position op path = ok tt
all_references (cons arg rest) position op path =
    let later = all_references rest (position + 1) op path in
    if is_reference (reference_of arg)
    then later
    else fail (
        invalid (
          codes "argument "
          ++ (show_nat position
              ++ (codes " of '"
                  ++ (op ++ (codes "' at " ++ (path ++ codes " must be a field reference.")))))))

arguments_of : Option Items → Str → Str → Result (Unit {0})
arguments_of none op path = ok tt
arguments_of (some args) op path = all_references args 0 op path

aggregate_arguments : Option Str → JsonMap → Str → Result (Unit {0})
unfolding arguments_of
aggregate_arguments none node path = ok tt
aggregate_arguments (some op) node path =
    if str_eq op (codes "count") || str_eq op (codes "sum")
    then arguments_of (get_array node (codes "args")) op path
    else ok tt

unfoldable pub validate_aggregate_arguments : Option Json → Str → Result (Unit {0})
unfolding aggregate_arguments
validate_aggregate_arguments (some (object node)) path =
    aggregate_arguments (get_str node (codes "op")) node path
validate_aggregate_arguments _ path = ok tt
