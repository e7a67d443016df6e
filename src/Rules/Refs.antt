-- ===== src/Rules/Refs.antt =====
-- src/rules/refs.rs: the field codes that an expression reads. A recursive call on the arguments is
-- a walk of the node's entries to the key `args`.
pub mod Kept
pub mod Reads
pub mod Scope
use colander.Prelude.{
  Bool, true, false, not, ◌&&◌, ◌||◌, Str, List, [], ◌∷◌, ◌++◌, Option, none, some, str_eq, codes,
  is_empty, Result, ok, fail, ◌>>◌, if◌then◌else◌,
}
use colander.Json.{Json, Items, JsonMap, null, object, array, nil, cons, empty, entry}
use colander.Json.Access.{get_array, get_str, is_null, as_object}
use colander.IndexMap.{IndexMap, contains, lookup}

-- The list `references` and the set `seen` get the same strings, so one list is both.
abbrev pub References : Type 0
References = List Str

-- a code that is not empty and that `seen.insert` takes
unfoldable pub new_code : Option Str → References → Option Str
new_code none references = none
new_code (some code) references =
    if not (is_empty code) && not (contains references code) then some code else none

unfoldable pub is_aggregate : JsonMap → Bool
is_aggregate node = elim (get_str node (codes "op")) [
  | none ↦ false
  | some op ↦ str_eq op (codes "count") || str_eq op (codes "sum")
]

-- What a collector does with a node: stop there, with what it has then, or go on with the arguments.
pub data Visit : Type 0 where
  stop : References → Visit
  descend : Visit

-- a new code is pushed and ends the visit of the node
unfoldable pub visit_code : Option Str → Visit → References → Visit
visit_code none otherwise references = otherwise
visit_code (some code) otherwise references = stop (references ++ code ∷ [])

-- the visit of a collector that leaves the arguments of a closed node alone
unfoldable pub visit_open : (JsonMap → Bool) → JsonMap → References → Visit
visit_open closed node references =
    visit_code (new_code (get_str node (codes "ref")) references)
      (if closed node then stop references else descend) references

-- `collect_references` goes into every node.
abbrev pub never_closed : JsonMap → Bool
never_closed node = false

code_of : Option JsonMap → Option Str
code_of none = none
code_of (some arg) = get_str arg (codes "ref")

-- the code of the first argument
unfoldable pub first_argument : Option Items → Option Str
unfolding code_of
first_argument none = none
first_argument (some nil) = none
first_argument (some (cons first rest)) = code_of (as_object first)

unfoldable pub visit_aggregate : JsonMap → References → Visit
visit_aggregate node references =
    if is_aggregate node
    then visit_code (new_code (first_argument (get_array node (codes "args"))) references)
        (stop references) references
    else descend

-- The three collectors differ in what they do at a node.
module _ (visit : JsonMap → References → Visit) where
  unfoldable mutual
    pub collect : Json → References → References
    collect (object node) references = elim (visit node references) [
      | stop found ↦ found
      | descend ↦ collect_args node references
    ]
    collect _ references = references

    pub collect_args : JsonMap → References → References
    collect_args empty references = references
    collect_args (entry key value rest) references = elim (str_eq key (codes "args")) [
      | true ↦ collect_array value references
      | false ↦ collect_args rest references
    ]

    pub collect_array : Json → References → References
    collect_array (array args) references = collect_each args references
    collect_array _ references = references

    -- an argument that is null has no node, so that it adds nothing
    pub collect_each : Items → References → References
    collect_each nil references = references
    collect_each (cons arg rest) references = collect_each rest (collect arg references)

unfoldable pub collect_references : Json → References
collect_references expression = collect (visit_open never_closed) expression []

unfoldable pub collect_direct_references : Json → References
collect_direct_references expression = collect (visit_open is_aggregate) expression []

unfoldable pub collect_aggregate_repeaters : Json → References
collect_aggregate_repeaters expression = collect visit_aggregate expression []

not_repeater : Str → Str → Str → Str
not_repeater path code enclosing =
    codes "RULE_AGGREGATE_NOT_REPEATER: aggregate at "
    ++ (path
        ++ (codes " points at repeater-child code '"
            ++ (code
                ++ (codes "'; an aggregate must point at the repeater '"
                    ++ (enclosing ++ codes "' itself.")))))

outside_row : Str → Str → Str → Str
outside_row path code enclosing =
    codes "RULE_INVALID_ROW_REFERENCE: expression at "
    ++ (path
        ++ (codes " references repeater-child code '"
            ++ (code
                ++ (codes "' outside the row scope of repeater '" ++ (enclosing ++ codes "'.")))))

-- the loop over the codes: the first that is refused decides
unfoldable pub each_code : (Str → Result (Unit {0})) → References → Result (Unit {0})
each_code check [] = ok tt
each_code check (code ∷ rest) = do check code; each_code check rest

unfoldable pub target_check : Str → IndexMap Str → Str → Result (Unit {0})
unfolding not_repeater
target_check path child_repeaters code = elim (lookup child_repeaters code) [
  | none ↦ ok tt
  | some enclosing ↦ fail (not_repeater path code enclosing)
]

unfoldable pub is_home : Option Str → Str → Bool
is_home none enclosing = false
is_home (some home) enclosing = str_eq home enclosing

unfoldable pub row_check : Str → IndexMap Str → Option Str → Str → Result (Unit {0})
unfolding outside_row
row_check path child_repeaters home_repeater code = elim (lookup child_repeaters code) [
  | none ↦ ok tt
  | some enclosing ↦
      if is_home home_repeater enclosing then ok tt else fail (outside_row path code enclosing)
]

unfoldable pub validate_aggregate_targets : Option Json → Str → IndexMap Str → Result (Unit {0})
validate_aggregate_targets none path child_repeaters = ok tt
validate_aggregate_targets (some expression) path child_repeaters =
    if is_null expression
    then ok tt
    else each_code (target_check path child_repeaters) (collect_aggregate_repeaters expression)

unfoldable pub validate_row_scope :
    Option Json → Str → IndexMap Str → Option Str → Result (Unit {0})
validate_row_scope none path child_repeaters home_repeater = ok tt
validate_row_scope (some expression) path child_repeaters home_repeater =
    if is_null expression
    then ok tt
    else each_code (row_check path child_repeaters home_repeater)
        (collect_direct_references expression)
