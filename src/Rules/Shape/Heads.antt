-- ===== src/Rules/Shape/Heads.antt =====
-- What the shape gate of src/rules/shape.rs knows of a node before its arguments.
use colander.Prelude.{
  ◌≡◌, refl, ap, subst, inl, inr, true, false, Str, Option, none, some, codes, arith, is_empty,
  Bool-cases, Result, ok,
}
use colander.Json.{Json, Items, JsonMap, null, boolean, number, string, object, array, items_length}
use colander.Json.Map.{contains_key}
use colander.Json.Access.{get_array, get_str}
use colander.Rules.Shape.{
  Arity, settled, operator, arity_of, out_of_bounds, is_code, ref_head, lit_head, args_head,
  arity_head, op_head, head_at,
}

-- a reference to a code that is not empty, or a literal on its own
pub data IsLeaf (reference literal : Option Json) (node : JsonMap) : Type 0 where
  is_reference :
      (code : Str)
      → reference ≡ some (string code)
      → is_empty code ≡ false
      → IsLeaf reference literal node
  is_literal :
      (v : Json)
      → reference ≡ none
      → literal ≡ some v
      → contains_key node (codes "op") ≡ false
      → contains_key node (codes "args") ≡ false
      → IsLeaf reference literal node

-- an operator of the table with a number of arguments that it takes
pub record IsOperator (reference literal : Option Json) (node : JsonMap) (op : Str) (args : Items)
    : Type 0 where
  pub no_reference : reference ≡ none
  pub no_literal : literal ≡ none
  pub named : get_str node (codes "op") ≡ some op
  pub arity : Arity
  pub in_table : arity_of op ≡ some arity
  pub arguments : get_array node (codes "args") ≡ some args
  pub enough : out_of_bounds (items_length args) arity ≡ false

settled_ok : {r : Result (Unit {0})} → settled r ≡ settled (ok tt) → r ≡ ok tt
settled_ok e = cc

ref_head-ok : (v : Json) (path : Str) → ref_head v path ≡ settled (ok tt) → is_code v ≡ true
unfolding ref_head
ref_head-ok v path h = elim (Bool-cases (is_code v)) [ inl e ↦ e | inr e ↦ absurd (ground arith) ]

is_code-true :
    (v : Json) → is_code v ≡ true → (code : Str) × (v ≡ string code) × (is_empty code ≡ false)
unfolding is_code
is_code-true (string code) h = (code, refl, ground arith)
is_code-true null h = absurd (cc)
is_code-true (boolean b) h = absurd (cc)
is_code-true (number b) h = absurd (cc)
is_code-true (array b) h = absurd (cc)
is_code-true (object b) h = absurd (cc)

arity_head-ok :
    (op : Str) (r : Option Arity) (a : Option Items) (path : Str)
    → arity_head op r a path ≡ settled (ok tt)
    → ⊥
unfolding arity_head args_head
arity_head-ok op none a path h = cc
arity_head-ok op (some arity) none path h = cc
arity_head-ok op (some arity) (some args) path h =
    elim (Bool-cases (out_of_bounds (items_length args) arity)) [
      | inl e ↦ ground arith
      | inr e ↦ ground arith
    ]

op_head-ok :
    (o : Option Str) (args : Option Items) (path : Str) → op_head o args path ≡ settled (ok tt) → ⊥
unfolding op_head
op_head-ok none args path h = cc
op_head-ok (some op) args path h = arity_head-ok op (arity_of op) args path h

lit_head-ok :
    (node : JsonMap) (path : Str)
    → lit_head node path ≡ settled (ok tt)
    → (contains_key node (codes "op") ≡ false) × (contains_key node (codes "args") ≡ false)
unfolding lit_head
lit_head-ok node path h = ground arith

Within : Option Arity → Option Items → Type 0
Within r a =
    (arity : Arity) × (args : Items) × (r ≡ some arity)
    × (a ≡ some args)
    × (out_of_bounds (items_length args) arity ≡ false)

arity_head-operator :
    (o : Str) (r : Option Arity) (a : Option Items) (path op : Str)
    → arity_head o r a path ≡ operator op
    → (o ≡ op) × Within r a
unfolding arity_head args_head Within
arity_head-operator o none a path op h = absurd (cc)
arity_head-operator o (some arity) none path op h = absurd (cc)
arity_head-operator o (some arity) (some args) path op h =
    elim (Bool-cases (out_of_bounds (items_length args) arity)) [
      | inl e ↦ absurd (ground arith)
      | inr e ↦ (ground arith, (arity, args, refl, refl, e))
    ]

op_head-operator :
    (o : Option Str) (a : Option Items) (path op : Str)
    → op_head o a path ≡ operator op
    → (o ≡ some op) × Within (arity_of op) a
unfolding op_head
op_head-operator none a path op h = absurd (cc)
op_head-operator (some o) a path op h =
    let (same, within) = arity_head-operator o (arity_of o) a path op h in
    (ap some same, subst (λ x. Within (arity_of x) a) same within)

-- A node that is settled without an error is a leaf.
pub head_at-leaf :
    (reference literal : Option Json) (node : JsonMap) (path : Str)
    → head_at reference literal node path ≡ settled (ok tt)
    → IsLeaf reference literal node
unfolding head_at
head_at-leaf (some reference) literal node path h =
    let (code, same, filled) = is_code-true reference (ref_head-ok reference path h) in
    is_reference code (ap some same) filled
head_at-leaf none (some v) node path h =
    let (op, args) = lit_head-ok node path h in is_literal v refl refl op args
head_at-leaf none none node path h =
    absurd (op_head-ok (get_str node (codes "op")) (get_array node (codes "args")) path h)

-- A node that is an operator's is so by the table.
pub head_at-operator :
    (reference literal : Option Json) (node : JsonMap) (path op : Str)
    → head_at reference literal node path ≡ operator op
    → (args : Items) × IsOperator reference literal node op args
unfolding head_at ref_head lit_head Within
head_at-operator (some reference) literal node path op h = absurd (cc)
head_at-operator none (some v) node path op h = absurd (cc)
head_at-operator none none node path op h =
    let (named, (arity, args, in_table, arguments, enough)) =
      op_head-operator (get_str node (codes "op")) (get_array node (codes "args")) path op h in
    (
      args,
      record {
        no_reference = refl;
        no_literal = refl;
        named = named;
        arity = arity;
        in_table = in_table;
        arguments = arguments;
        enough = enough;
      },
    )
