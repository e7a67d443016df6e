-- ===== src/Semantic/Topology.antt =====
-- The two maps that `repeater_topology` (src/semantic.rs) builds name listed repeaters only.
use colander.Prelude.{
  ◌≡◌, refl, sym, subst, Bool, true, false, Str, List, [], ◌∷◌, ◌++◌, Option, none, some, codes,
  All, arith, str_eq, str_eq_refl, Bool-cases, inl, inr,
}
use colander.Json.{
  Json, Items, JsonMap, null, boolean, number, string, object, array, nil, cons, empty, entry,
}
use colander.Json.Access.{get_array, get_str}
use colander.IndexMap.{IndexMap, put, values, contains, contains-append}
use colander.Semantic.{
  RepeaterTopology, no_repeaters, put_at, note_child, note_repeater, Role, passed_by, opens, plain,
  role, walk_fields, walk_field, walk_items, walk_array, topology_of, repeater_topology,
}

-- every value of the map is listed
unfoldable pub Listed : List Str → IndexMap Str → Type 0
Listed listed m = All (λ repeater. contains listed repeater ≡ true) (values m)

pub record IsSound (t : RepeaterTopology) : Type 0 where
  pub codes_listed : Listed t.repeater_codes t.child_repeater_by_code
  pub ids_listed : Listed t.repeater_codes t.repeater_parent_by_id

-- the second list has what the first has
Extends : List Str → List Str → Type 0
Extends s t = (k : Str) → contains s k ≡ true → contains t k ≡ true

ParentListed : Option Str → List Str → Type 0
ParentListed none listed = Unit
ParentListed (some parent) listed = contains listed parent ≡ true

ParentListed-mono :
    (parent : Option Str) (s t : List Str)
    → Extends s t
    → ParentListed parent s
    → ParentListed parent t
unfolding ParentListed Extends
ParentListed-mono none s t ext h = tt
ParentListed-mono (some parent) s t ext h = ext parent h

Listed-mono : (s t : List Str) (m : IndexMap Str) → Extends s t → Listed s m → Listed t m
unfolding Listed values Extends
Listed-mono s t [] ext h = tt
Listed-mono s t ((k, v) ∷ m) ext (h, hs) = (ext v h, Listed-mono s t m ext hs)

Listed-put :
    (listed : List Str) (m : IndexMap Str) (key v : Str)
    → contains listed v ≡ true
    → Listed listed m
    → Listed listed (put m key v)
unfolding Listed values put
Listed-put listed [] key v h hs = (h, tt)
Listed-put listed ((k, w) ∷ m) key v h (hw, hs) = elim (Bool-cases (str_eq k key)) [
  | inl e ↦ rw (e) (h, hs)
  | inr e ↦ rw (e) (hw, Listed-put listed m key v h hs)
]

Listed-put_at :
    (listed : List Str) (m : IndexMap Str) (key : Option Str) (v : Str)
    → contains listed v ≡ true
    → Listed listed m
    → Listed listed (put_at m key v)
unfolding put_at
Listed-put_at listed m none v h hs = hs
Listed-put_at listed m (some key) v h hs = Listed-put listed m key v h hs

note_child-IsSound :
    (parent id code : Option Str) (t : RepeaterTopology)
    → ParentListed parent t.repeater_codes
    → IsSound t
    → IsSound (note_child parent id code t)
unfolding note_child ParentListed
note_child-IsSound none id code t h s = s
note_child-IsSound (some parent) id code t h s = record {
  codes_listed =
      Listed-put_at t.repeater_codes t.child_repeater_by_code code parent h s.codes_listed;
  ids_listed = Listed-put_at t.repeater_codes t.repeater_parent_by_id id parent h s.ids_listed;
}

Extends-push : (s : List Str) (code : Str) → Extends s (s ++ code ∷ [])
unfolding Extends contains
Extends-push s code k h = ground (arith, contains-append s (code ∷ []) k)

contains-push : (s : List Str) (code : Str) → contains (s ++ code ∷ []) code ≡ true
unfolding contains
contains-push s code = ground (arith, contains-append s (code ∷ []) code, str_eq_refl code)

note_repeater-IsSound :
    (code : Str) (t : RepeaterTopology) → IsSound t → IsSound (note_repeater code t)
unfolding note_repeater
note_repeater-IsSound code t s = record {
  codes_listed =
      Listed-mono t.repeater_codes _ t.child_repeater_by_code (Extends-push t.repeater_codes code)
        s.codes_listed;
  ids_listed =
      Listed-mono t.repeater_codes _ t.repeater_parent_by_id (Extends-push t.repeater_codes code)
        s.ids_listed;
}

-- What a walk from `t` to `t'` keeps.
Kept : RepeaterTopology → RepeaterTopology → Type 0
Kept t t' = IsSound t' × Extends t.repeater_codes t'.repeater_codes

note_child_codes :
    (parent id code : Option Str) (t : RepeaterTopology)
    → (note_child parent id code t).repeater_codes ≡ t.repeater_codes
unfolding note_child
note_child_codes none id code t = refl
note_child_codes (some parent) id code t = refl

-- what a walk of `walk` keeps, from a state that is sound and lists the parent
Keeping : (Option Str → RepeaterTopology → RepeaterTopology) → Type 0
Keeping walk =
    (parent : Option Str) (t : RepeaterTopology)
    → ParentListed parent t.repeater_codes
    → IsSound t
    → Kept t (walk parent t)

role-Kept :
    (r : Role) (field : JsonMap)
    → role field ≡ r
    → Keeping (walk_items field)
    → Keeping (walk_field (object field))
unfolding Keeping walk_field Kept Extends ParentListed
role-Kept passed_by field e items parent t h s = rw (e, walk_field) (s, λ k e. e)
role-Kept (opens code) field e items parent t h s =
    let (s1, ext1) =
      items (some code) (note_repeater code t)
        (unfold note_repeater in contains-push t.repeater_codes code)
        (note_repeater-IsSound code t s) in
    rw (e, walk_field)
      (s1, λ k e. ext1 k (unfold note_repeater in Extends-push t.repeater_codes code k e))
role-Kept plain field e items parent t h s =
    let id = get_str field (codes "id") in
    let code = get_str field (codes "code") in
    let same = note_child_codes parent id code t in
    let (s1, ext1) =
      items parent (note_child parent id code t) (subst (ParentListed parent) (sym same) h)
        (note_child-IsSound parent id code t h s) in
    rw (e, walk_field) (s1, λ k e. ext1 k (subst (λ listed. contains listed k ≡ true) (sym same) e))

named-Kept :
    (b : Bool) (key : Str) (value : Json) (rest : JsonMap)
    → str_eq key (codes "items") ≡ b
    → Keeping (walk_array value)
    → Keeping (walk_items rest)
    → Keeping (walk_items (entry key value rest))
unfolding Keeping walk_items
named-Kept true key value rest e there later parent t h s = rw (e, walk_items) (there parent t h s)
named-Kept false key value rest e there later parent t h s = rw (e, walk_items) (later parent t h s)

mutual
  unfolding walk_fields walk_field walk_items walk_array Kept Extends ParentListed Keeping

  walk_fields-Kept :
      (fields : Items) (parent : Option Str) (t : RepeaterTopology)
      → ParentListed parent t.repeater_codes
      → IsSound t
      → Kept t (walk_fields fields parent t)
  walk_fields-Kept nil parent t h s = (s, λ k e. e)
  walk_fields-Kept (cons field rest) parent t h s =
      let (s1, ext1) = walk_field-Kept field parent t h s in
      let (s2, ext2) =
        walk_fields-Kept rest parent (walk_field field parent t)
          (ParentListed-mono parent _ _ ext1 h) s1 in
      (s2, λ k e. ext2 k (ext1 k e))

  walk_field-Kept :
      (field : Json) (parent : Option Str) (t : RepeaterTopology)
      → ParentListed parent t.repeater_codes
      → IsSound t
      → Kept t (walk_field field parent t)
  walk_field-Kept (object field) parent t h s =
      role-Kept (role field) field refl (λ p u. walk_items-Kept field p u) parent t h s
  walk_field-Kept null parent t h s = (s, λ k e. e)
  walk_field-Kept (boolean b) parent t h s = (s, λ k e. e)
  walk_field-Kept (number b) parent t h s = (s, λ k e. e)
  walk_field-Kept (string b) parent t h s = (s, λ k e. e)
  walk_field-Kept (array b) parent t h s = (s, λ k e. e)

  walk_items-Kept :
      (field : JsonMap) (parent : Option Str) (t : RepeaterTopology)
      → ParentListed parent t.repeater_codes
      → IsSound t
      → Kept t (walk_items field parent t)
  walk_items-Kept empty parent t h s = (s, λ k e. e)
  walk_items-Kept (entry key value rest) parent t h s =
      named-Kept (str_eq key (codes "items")) key value rest refl (λ p u. walk_array-Kept value p u)
        (λ p u. walk_items-Kept rest p u) parent t h s

  walk_array-Kept :
      (value : Json) (parent : Option Str) (t : RepeaterTopology)
      → ParentListed parent t.repeater_codes
      → IsSound t
      → Kept t (walk_array value parent t)
  walk_array-Kept (array items) parent t h s = walk_fields-Kept items parent t h s
  walk_array-Kept (object field) parent t h s = (s, λ k e. e)
  walk_array-Kept null parent t h s = (s, λ k e. e)
  walk_array-Kept (boolean b) parent t h s = (s, λ k e. e)
  walk_array-Kept (number b) parent t h s = (s, λ k e. e)
  walk_array-Kept (string b) parent t h s = (s, λ k e. e)

topology_of-IsSound : (fields : Option Items) → IsSound (topology_of fields)
unfolding topology_of Kept Listed values ParentListed
topology_of-IsSound none = record { codes_listed = tt; ids_listed = tt }
topology_of-IsSound (some fields) =
    let (s, _) =
      walk_fields-Kept fields none no_repeaters tt
        (record { codes_listed = tt; ids_listed = tt }) in
    s

-- For every form, each value of `child_repeater_by_code` and of `repeater_parent_by_id` is one of
-- `repeater_codes`.
pub repeater_topology-IsSound : (form_root : JsonMap) → IsSound (repeater_topology form_root)
unfolding repeater_topology
repeater_topology-IsSound form_root = topology_of-IsSound (get_array form_root (codes "fields"))
