-- ===== src/Semantic.antt =====
-- src/semantic.rs: what the rules and the validator derive from a form. A recursive call on the
-- `items` of a field is a walk of the field's entries to that key.
pub mod Topology
mod Tests
use colander.Prelude.{
  ℕ, Bool, true, false, Str, List, [], ◌∷◌, ◌++◌, Option, none, some, str_eq, codes, Result, ok,
  ◌>>=◌, map_ok, if◌then◌else◌,
}
use colander.Json.{Json, Items, JsonMap, object, array, nil, cons, empty, entry}
use colander.Json.Access.{get_array, get_str}
use colander.IndexMap.{IndexMap, put}
use colander.Index.{
  FieldInfo, build_by_id, build_by_code_from_id, build_by_code_from_id_unchecked, repeater,
}

pub record RepeaterTopology : Type 0 where
  pub child_repeater_by_code : IndexMap Str
  pub repeater_parent_by_id : IndexMap Str
  pub repeater_codes : List Str

abbrev pub no_repeaters : RepeaterTopology
no_repeaters = record {
  child_repeater_by_code = [];
  repeater_parent_by_id = [];
  repeater_codes = [];
}

-- `insert` where there is a key
unfoldable pub put_at : IndexMap Str → Option Str → Str → IndexMap Str
put_at m none v = m
put_at m (some key) v = put m key v

-- the entries of a field that stands under `parent`
unfoldable pub note_child :
    Option Str → Option Str → Option Str → RepeaterTopology → RepeaterTopology
unfolding put_at
note_child none id code topology = topology
note_child (some parent) id code topology = record topology {
  repeater_parent_by_id = put_at topology.repeater_parent_by_id id parent;
  child_repeater_by_code = put_at topology.child_repeater_by_code code parent;
}

unfoldable pub note_repeater : Str → RepeaterTopology → RepeaterTopology
note_repeater code topology = record topology {
  repeater_codes = topology.repeater_codes ++ code ∷ [];
}

-- what the loop does with a field: pass it by, go into a repeater, or note it under its repeater
pub data Role : Type 0 where
  passed_by : Role
  opens : Str → Role
  plain : Role

repeater_role : Option Str → Role
repeater_role none = passed_by
repeater_role (some code) = opens code

unfoldable pub role : JsonMap → Role
unfolding repeater_role
role field = elim (get_str field (codes "type")) [
  | none ↦ passed_by
  | some field_type ↦
      if str_eq field_type repeater then repeater_role (get_str field (codes "code")) else plain
]

unfoldable mutual
  -- `walk_repeater_topology`
  pub walk_fields : Items → Option Str → RepeaterTopology → RepeaterTopology
  walk_fields nil parent topology = topology
  walk_fields (cons field rest) parent topology =
      walk_fields rest parent (walk_field field parent topology)

  -- the body of the loop
  pub walk_field : Json → Option Str → RepeaterTopology → RepeaterTopology
  walk_field (object field) parent topology = elim (role field) [
    | passed_by ↦ topology
    | opens code ↦ walk_items field (some code) (note_repeater code topology)
    | plain ↦
        walk_items field parent
          (note_child parent (get_str field (codes "id")) (get_str field (codes "code")) topology)
  ]
  walk_field _ parent topology = topology

  -- the `items` of a field, and the recursive call
  pub walk_items : JsonMap → Option Str → RepeaterTopology → RepeaterTopology
  walk_items empty parent topology = topology
  walk_items (entry key value rest) parent topology = elim (str_eq key (codes "items")) [
    | true ↦ walk_array value parent topology
    | false ↦ walk_items rest parent topology
  ]

  pub walk_array : Json → Option Str → RepeaterTopology → RepeaterTopology
  walk_array (array items) parent topology = walk_fields items parent topology
  walk_array _ parent topology = topology

topology_of : Option Items → RepeaterTopology
topology_of none = no_repeaters
topology_of (some fields) = walk_fields fields none no_repeaters

unfoldable pub repeater_topology : JsonMap → RepeaterTopology
unfolding topology_of
repeater_topology form_root = topology_of (get_array form_root (codes "fields"))

pub record FormSemantics (F : Type 0) : Type 0 where
  pub fields_by_id : IndexMap (FieldInfo F)
  pub fields_by_code : IndexMap (FieldInfo F)
  pub child_repeater_by_code : IndexMap Str
  pub repeater_parent_by_id : IndexMap Str
  pub repeater_codes : List Str

module _ {F : Type 0} (parse_f64 : Str → Option F) where
  by_code_of : Bool → IndexMap (FieldInfo F) → Result (IndexMap (FieldInfo F))
  by_code_of true fields_by_id = build_by_code_from_id fields_by_id
  by_code_of false fields_by_id = ok (build_by_code_from_id_unchecked fields_by_id)

  unfoldable pub from_form_with_code_policy : JsonMap → Bool → Result (FormSemantics F)
  unfolding by_code_of
  from_form_with_code_policy form_root reject_duplicates = do
    fields_by_id ← build_by_id parse_f64 form_root
    fields_by_code ← by_code_of reject_duplicates fields_by_id
    let topology = repeater_topology form_root
    ok (record {
      fields_by_id = fields_by_id;
      fields_by_code = fields_by_code;
      child_repeater_by_code = topology.child_repeater_by_code;
      repeater_parent_by_id = topology.repeater_parent_by_id;
      repeater_codes = topology.repeater_codes;
    })

  unfoldable pub from_form : JsonMap → Result (FormSemantics F)
  from_form form_root = from_form_with_code_policy form_root true

  unfoldable pub from_form_unchecked : JsonMap → Result (FormSemantics F)
  from_form_unchecked form_root = from_form_with_code_policy form_root false
