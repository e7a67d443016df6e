-- ===== src/Rules/Shape/Accepts.antt =====
-- The shape gate of src/rules/shape.rs against a description of expressions.
use colander.Prelude.{
  ℕ, ◌+◌, ◌≡◌, refl, sym, ◌∙◌, ap, subst, inl, inr, Bool, true, false, Str, some, codes, str_eq,
  Bool-cases, Result, ok,
}
use colander.Json.{
  Json, Items, JsonMap, null, boolean, number, string, object, array, nil, cons, empty, entry,
}
use colander.Json.Map.{get}
use colander.Json.Access.{get_array, is_null, as_array}
use colander.Rules.Refs.Scope.{bind_unit-ok}
use colander.Rules.Shape.Heads.{IsLeaf, IsOperator, head_at-leaf, head_at-operator}
use colander.Rules.Shape.{
  Head, settled, operator, node_head, shape, shape_args, shape_array, shape_each, argument_path,
  validate_expression_shape,
}

mutual
  -- what the gate is meant to accept
  pub data IsExpression : Json → Type 0 where
    leaf :
        (node : JsonMap)
        → IsLeaf (get node (codes "ref")) (get node (codes "lit")) node
        → IsExpression (object node)
    operation :
        (node : JsonMap) (op : Str) (args : Items)
        → IsOperator (get node (codes "ref")) (get node (codes "lit")) node op args
        → AreExpressions args
        → IsExpression (object node)

  pub data AreExpressions : Items → Type 0 where
    no_arguments : AreExpressions nil
    argument :
        (x : Json) (rest : Items)
        → IsExpression x
        → AreExpressions rest
        → AreExpressions (cons x rest)

shape_settled :
    (r : Result (Unit {0})) (node : JsonMap) (path : Str)
    → node_head node path ≡ settled r
    → shape (object node) path ≡ r
unfolding shape
shape_settled r node path e = rw (e, shape) refl

shape_operator :
    (op : Str) (node : JsonMap) (path : Str)
    → node_head node path ≡ operator op
    → shape (object node) path ≡ shape_args node op path
unfolding shape
shape_operator op node path e = rw (e, shape) refl

node-IsExpression :
    (hd : Head) (node : JsonMap) (path : Str)
    → node_head node path ≡ hd
    → shape (object node) path ≡ ok tt
    → ((op : Str) (args : Items)
        → shape_args node op path ≡ ok tt
        → get_array node (codes "args") ≡ some args
        → AreExpressions args)
    → IsExpression (object node)
unfolding node_head
node-IsExpression (settled r) node path e h below = leaf node (
    head_at-leaf (get node (codes "ref")) (get node (codes "lit")) node path
      (e ∙ ap settled (sym (shape_settled r node path e) ∙ h)))
node-IsExpression (operator op) node path e h below =
    let (args, is) =
      head_at-operator (get node (codes "ref")) (get node (codes "lit")) node path op e in
    operation node op args is (below op args (sym (shape_operator op node path e) ∙ h) is.arguments)

each-IsExpression :
    (x : Json) (rest : Items) (position : ℕ) (op path : Str)
    → shape_each (cons x rest) position op path ≡ ok tt
    → (is_null x ≡ false)
      × (shape x (argument_path path position) ≡ ok tt)
      × (shape_each rest (position + 1) op path ≡ ok tt)
unfolding shape_each is_null
each-IsExpression null rest position op path h = absurd (cc)
each-IsExpression (boolean b) rest position op path h = absurd (cc)
each-IsExpression (number b) rest position op path h = absurd (cc)
each-IsExpression (string b) rest position op path h = absurd (cc)
each-IsExpression (array b) rest position op path h = absurd (cc)
each-IsExpression (object b) rest position op path h =
    let (now, later) =
      bind_unit-ok (shape (object b) (argument_path path position))
        (shape_each rest (position + 1) op path) h in
    (refl, now, later)

module _ (key : Str) (value : Json) (rest : JsonMap) (op path : Str) where
  by_key : Bool → Result (Unit {0})
  by_key b = elim b [ true ↦ shape_array value op path | false ↦ shape_args rest op path ]

  shape_args_here :
      str_eq key (codes "args") ≡ true
      → shape_args (entry key value rest) op path ≡ shape_array value op path
  unfolding shape_args by_key
  shape_args_here e = ap by_key e

  shape_args_later :
      str_eq key (codes "args") ≡ false
      → shape_args (entry key value rest) op path ≡ shape_args rest op path
  unfolding shape_args by_key
  shape_args_later e = ap by_key e

  get_array_here :
      str_eq key (codes "args") ≡ true
      → get_array (entry key value rest) (codes "args") ≡ as_array value
  unfolding get_array get
  get_array_here e = rw (e) refl

  get_array_later :
      str_eq key (codes "args") ≡ false
      → get_array (entry key value rest) (codes "args") ≡ get_array rest (codes "args")
  unfolding get_array get
  get_array_later e = rw (e) refl

no_args : {args : Items} → get_array empty (codes "args") ≡ some args → ⊥
unfolding get_array get
no_args e = cc

mutual
  unfolding shape shape_args shape_array shape_each as_array is_null

  shape-IsExpression :
      (e : Json) (path : Str) → shape e path ≡ ok tt → is_null e ≡ false → IsExpression e
  shape-IsExpression (object node) path h n =
      node-IsExpression (node_head node path) node path refl h
        (λ op args s g. args-AreExpressions node op path args s g)
  shape-IsExpression null path h n = absurd (cc)
  shape-IsExpression (boolean b) path h n = absurd (cc)
  shape-IsExpression (number b) path h n = absurd (cc)
  shape-IsExpression (string b) path h n = absurd (cc)
  shape-IsExpression (array b) path h n = absurd (cc)

  args-AreExpressions :
      (node : JsonMap) (op path : Str) (args : Items)
      → shape_args node op path ≡ ok tt
      → get_array node (codes "args") ≡ some args
      → AreExpressions args
  args-AreExpressions empty op path args h g = absurd (no_args g)
  args-AreExpressions (entry key value rest) op path args h g =
      elim (Bool-cases (str_eq key (codes "args"))) [
        | inl e ↦
            array-AreExpressions value op path args
              (sym (shape_args_here key value rest op path e) ∙ h)
              (sym (get_array_here key value rest op path e) ∙ g)
        | inr e ↦
            args-AreExpressions rest op path args
              (sym (shape_args_later key value rest op path e) ∙ h)
              (sym (get_array_later key value rest op path e) ∙ g)
      ]

  array-AreExpressions :
      (v : Json) (op path : Str) (args : Items)
      → shape_array v op path ≡ ok tt
      → as_array v ≡ some args
      → AreExpressions args
  array-AreExpressions (array xs) op path args h g =
      let same : xs ≡ args = cc in subst AreExpressions same (each-AreExpressions xs 0 op path h)
  array-AreExpressions null op path args h g = absurd (cc)
  array-AreExpressions (boolean b) op path args h g = absurd (cc)
  array-AreExpressions (number b) op path args h g = absurd (cc)
  array-AreExpressions (string b) op path args h g = absurd (cc)
  array-AreExpressions (object b) op path args h g = absurd (cc)

  each-AreExpressions :
      (args : Items) (position : ℕ) (op path : Str)
      → shape_each args position op path ≡ ok tt
      → AreExpressions args
  each-AreExpressions nil position op path h = no_arguments
  each-AreExpressions (cons x rest) position op path h =
      let (n, now, later) = each-IsExpression x rest position op path h in
      argument x rest (shape-IsExpression x (argument_path path position) now n)
        (each-AreExpressions rest (position + 1) op path later)

-- An expression that the gate lets through and that is not null is, at every depth, a reference to a
-- code that is not empty, a literal on its own, or an operator of the table with as many arguments
-- as the table allows.
pub validate_expression_shape-IsExpression :
    (expression : Json) (path : Str)
    → validate_expression_shape (some expression) path ≡ ok tt
    → is_null expression ≡ false
    → IsExpression expression
unfolding validate_expression_shape
validate_expression_shape-IsExpression expression path h n = shape-IsExpression expression path h n
