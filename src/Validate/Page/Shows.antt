-- ===== src/Validate/Page/Shows.antt =====
-- The loop of `collect_field_ids` finds exactly the fields that the nodes show, at any depth.
use colander.Prelude.{
  ℕ, zero, suc, ◌+◌, ◌<◌, ◌≤◌, ◌≡◌, ◌↔◌, refl, ap, sym, subst, true, Str, List, [], ◌∷◌, Option,
  none, some, codes, str_eq, str_eq_iff, arith, Bool-cases, Option-cases, inl, inr, ◌⊎◌, ok,
}
use colander.Json.{
  Json, Items, JsonMap, null, boolean, number, string, array, object, nil, cons, empty, entry,
}
use colander.Json.Map.{get}
use colander.Json.Access.{get_array, get_str, as_array}
use colander.IndexMap.{contains}
use colander.Validate.Page.{
  insert_id, extend, with_id, with_children, add_id, add_children, collect_loop, collect_field_ids,
  size, items_size, map_size,
}

unfoldable pub In : Json → Items → Type 0
In x nil = ⊥
In x (cons y ys) = (x ≡ y) ⊎ In x ys

-- A node shows a field if it names it, or a child of it shows it.
pub data Shows (id : Str) : Json → Type 0 where
  names : (map : JsonMap) → get_str map (codes "fieldId") ≡ some id → Shows id (object map)
  below :
      (map : JsonMap) (children : Items) (child : Json)
      → get_array map (codes "children") ≡ some children
      → In child children
      → Shows id child
      → Shows id (object map)

abbrev Shown : Str → List Json → Type 0
Shown id [] = ⊥
Shown id (node ∷ stack) = Shows id node ⊎ Shown id stack

abbrev pub ShownIn : Str → Items → Type 0
ShownIn id nodes = (child : Json) × In child nodes × Shows id child

extend-Shown :
    (id : Str) (xs : Items) (stack : List Json)
    → ShownIn id xs ⊎ Shown id stack
    → Shown id (extend xs stack)
unfolding extend In
extend-Shown id nil stack (inl (c, i, h)) = absurd i
extend-Shown id nil stack (inr h) = h
extend-Shown id (cons x xs) stack (inl (c, inl e, h)) =
    extend-Shown id xs (x ∷ stack) (inr (inl (subst (Shows id) e h)))
extend-Shown id (cons x xs) stack (inl (c, inr i, h)) =
    extend-Shown id xs (x ∷ stack) (inl (c, i, h))
extend-Shown id (cons x xs) stack (inr h) = extend-Shown id xs (x ∷ stack) (inr (inr h))

Shown-extend :
    (id : Str) (xs : Items) (stack : List Json)
    → Shown id (extend xs stack)
    → ShownIn id xs ⊎ Shown id stack
unfolding extend In
Shown-extend id nil stack h = inr h
Shown-extend id (cons x xs) stack h = elim (Shown-extend id xs (x ∷ stack) h) [
  | inl (c, i, s) ↦ inl (c, inr i, s)
  | inr (inl s) ↦ inl (x, inl refl, s)
  | inr (inr t) ↦ inr t
]

contains-insert_id :
    (ids : List Str) (id x : Str)
    → (contains (insert_id ids id) x ≡ true) ↔ ((id ≡ x) ⊎ (contains ids x ≡ true))
unfolding insert_id contains
contains-insert_id ids id x = ground (arith, str_eq_iff id x)

-- the ids found so far, or to be found on the stack
abbrev Found : Str → List Str → List Json → Type 0
Found x ids stack = (contains ids x ≡ true) ⊎ Shown x stack

abbrev Below : Str → Option Items → Type 0
Below x o = (children : Items) × (o ≡ some children) × ShownIn x children

with_id-found :
    (o : Option Str) (ids : List Str) (x : Str)
    → (o ≡ some x) ⊎ (contains ids x ≡ true)
    → contains (with_id o ids) x ≡ true
unfolding with_id
with_id-found none ids x (inl e) = absurd (cc)
with_id-found none ids x (inr h) = h
with_id-found (some i) ids x (inl e) = (contains-insert_id ids i x).1 (inl (cc))
with_id-found (some i) ids x (inr h) = (contains-insert_id ids i x).1 (inr h)

found-with_id :
    (o : Option Str) (ids : List Str) (x : Str)
    → contains (with_id o ids) x ≡ true
    → (o ≡ some x) ⊎ (contains ids x ≡ true)
unfolding with_id
found-with_id none ids x h = inr h
found-with_id (some i) ids x h = elim ((contains-insert_id ids i x).0 h) [
  | inl e ↦ inl (ap some e)
  | inr k ↦ inr k
]

with_children-Shown :
    (o : Option Items) (stack : List Json) (x : Str)
    → Below x o ⊎ Shown x stack
    → Shown x (with_children o stack)
unfolding with_children
with_children-Shown none stack x (inl (ch, e, s)) = absurd (cc)
with_children-Shown none stack x (inr h) = h
with_children-Shown (some ch) stack x (inl (d, e, s)) =
    let same : d ≡ ch = cc in extend-Shown x ch stack (inl (subst (ShownIn x) same s))
with_children-Shown (some ch) stack x (inr h) = extend-Shown x ch stack (inr h)

Shown-with_children :
    (o : Option Items) (stack : List Json) (x : Str)
    → Shown x (with_children o stack)
    → Below x o ⊎ Shown x stack
unfolding with_children
Shown-with_children none stack x h = inr h
Shown-with_children (some ch) stack x h = elim (Shown-extend x ch stack h) [
  | inl s ↦ inl (ch, refl, s)
  | inr k ↦ inr k
]

-- what a node shows
Shows-cases :
    (x : Str) (node : Json)
    → Shows x node
    → (map : JsonMap) × (node ≡ object map)
      × ((get_str map (codes "fieldId") ≡ some x) ⊎ Below x (get_array map (codes "children")))
Shows-cases x node (names map e) = (map, refl, inl e)
Shows-cases x node (below map children child e i s) = (map, refl, inr (children, e, (child, i, s)))

map_of : Json → JsonMap
map_of (object map) = map
map_of _ = empty

-- a node that is no object shows nothing
skip :
    (x : Str) (node : Json) (stack : List Json) (ids : List Str)
    → ((m : JsonMap) → node ≡ object m → ⊥)
    → Found x ids (node ∷ stack)
    → Found x ids stack
skip x node stack ids no_map (inl h) = inl h
skip x node stack ids no_map (inr (inl s)) =
    let (m, e, cases) = Shows-cases x node s in absurd (no_map m e)
skip x node stack ids no_map (inr (inr t)) = inr t

later :
    (x : Str) (node : Json) (stack : List Json) (ids : List Str)
    → Found x ids stack
    → Found x ids (node ∷ stack)
later x node stack ids (inl h) = inl h
later x node stack ids (inr t) = inr (inr t)

-- One round of the loop keeps what is found or to be found.
Found-step :
    (x : Str) (node : Json) (stack : List Json) (ids : List Str)
    → Found x ids (node ∷ stack)
    → Found x (add_id node ids) (add_children node stack)
unfolding add_id add_children map_of
Found-step x (object map) stack ids (inl h) = inl (with_id-found _ ids x (inr h))
Found-step x (object map) stack ids (inr (inl s)) =
    let (m, e, cases) = Shows-cases x (object map) s in
    let same : m ≡ map = sym (ap map_of e) in
    elim cases [
      | inl q ↦
          inl
            (with_id-found _ ids x (inl (subst (λ n. get_str n (codes "fieldId") ≡ some x) same q)))
      | inr q ↦ inr (
          with_children-Shown _ stack x
            (inl (subst (λ n. Below x (get_array n (codes "children"))) same q)))
    ]
Found-step x (object map) stack ids (inr (inr t)) = inr (with_children-Shown _ stack x (inr t))
Found-step x null stack ids h = skip x null stack ids (λ m e. cc) h
Found-step x (boolean b) stack ids h = skip x (boolean b) stack ids (λ m e. cc) h
Found-step x (number s) stack ids h = skip x (number s) stack ids (λ m e. cc) h
Found-step x (string s) stack ids h = skip x (string s) stack ids (λ m e. cc) h
Found-step x (array xs) stack ids h = skip x (array xs) stack ids (λ m e. cc) h

step-Found :
    (x : Str) (node : Json) (stack : List Json) (ids : List Str)
    → Found x (add_id node ids) (add_children node stack)
    → Found x ids (node ∷ stack)
unfolding add_id add_children
step-Found x (object map) stack ids (inl h) = elim (found-with_id _ ids x h) [
  | inl e ↦ inr (inl (names map e))
  | inr k ↦ inl k
]
step-Found x (object map) stack ids (inr h) = elim (Shown-with_children _ stack x h) [
  | inl (children, e, (child, i, s)) ↦ inr (inl (below map children child e i s))
  | inr t ↦ inr (inr t)
]
step-Found x null stack ids h = later x null stack ids h
step-Found x (boolean b) stack ids h = later x (boolean b) stack ids h
step-Found x (number s) stack ids h = later x (number s) stack ids h
step-Found x (string s) stack ids h = later x (string s) stack ids h
step-Found x (array xs) stack ids h = later x (array xs) stack ids h

stack_size : List Json → ℕ
stack_size [] = 0
stack_size (node ∷ stack) = size node + stack_size stack

stack_size-extend :
    (xs : Items) (stack : List Json)
    → stack_size (extend xs stack) ≡ items_size xs + stack_size stack
unfolding stack_size extend items_size
stack_size-extend nil stack = omega arith
stack_size-extend (cons x xs) stack = omega (arith, stack_size-extend xs (x ∷ stack))

size-get : (map : JsonMap) (key : Str) (v : Json) → get map key ≡ some v → size v ≤ map_size map
unfolding get map_size
size-get empty key v h = absurd (cc)
size-get (entry k w m) key v h = elim (Bool-cases (str_eq k key)) [
  | inl e ↦
      let same : w ≡ v = some-injective w v (rw e at h) in
      let equal_size = ap size same in omega arith
  | inr e ↦ omega (arith, size-get m key v (rw e at h))
]
  where
    some-injective : (a b : Json) → some a ≡ some b → a ≡ b
    some-injective a b q = cc

array_of : (j : Json) (xs : Items) → as_array j ≡ some xs → items_size xs < size j
unfolding as_array size
array_of (array ys) xs h =
    let same : ys ≡ xs = cc in let equal_size = ap items_size same in omega arith
array_of null xs h = absurd (cc)
array_of (boolean b) xs h = absurd (cc)
array_of (number s) xs h = absurd (cc)
array_of (string s) xs h = absurd (cc)
array_of (object m) xs h = absurd (cc)

size-get_array :
    (map : JsonMap) (key : Str) (xs : Items)
    → get_array map key ≡ some xs
    → items_size xs < map_size map
unfolding get_array
size-get_array map key xs h = elim (Option-cases (get map key)) [
  | inl e ↦ absurd (no_value (rw e at h))
  | inr (v, e) ↦ omega (arith, size-get map key v e, array_of v xs (rw e at h))
]
  where
    no_value : ◌≡◌ {A = Option Items} none (some xs) → ⊥
    no_value q = cc

-- a round takes its node from the work
add_children-less :
    (node : Json) (stack : List Json)
    → stack_size (add_children node stack) < stack_size (node ∷ stack)
unfolding add_children with_children stack_size size
add_children-less (object map) stack = elim (Option-cases (get_array map (codes "children"))) [
  | inl e ↦ rw e (omega arith)
  | inr (xs, e) ↦
      rw e (omega (arith, stack_size-extend xs stack, size-get_array map (codes "children") xs e))
]
add_children-less null stack = omega arith
add_children-less (boolean b) stack = omega arith
add_children-less (number s) stack = omega arith
add_children-less (string s) stack = omega arith
add_children-less (array xs) stack = omega arith

loop-Found :
    (fuel : ℕ) (stack : List Json) (ids : List Str) (x : Str)
    → stack_size stack ≤ fuel
    → (out : List Str) × (collect_loop fuel stack ids ≡ ok out)
      × ((contains out x ≡ true) ↔ Found x ids stack)
unfolding collect_loop
loop-Found zero [] ids x h = (ids, refl, (λ k. inl k, λ k. elim k [ inl e ↦ e | inr s ↦ absurd s ]))
loop-Found (suc fuel) [] ids x h =
    (ids, refl, (λ k. inl k, λ k. elim k [ inl e ↦ e | inr s ↦ absurd s ]))
loop-Found zero (node ∷ stack) ids x h = absurd (omega (arith, add_children-less node stack))
loop-Found (suc fuel) (node ∷ stack) ids x h =
    let (out, e, iff) =
      loop-Found fuel (add_children node stack) (add_id node ids) x
        (omega (arith, add_children-less node stack)) in
    (
      out,
      e,
      (λ k. step-Found x node stack ids (iff.0 k), λ k. iff.1 (Found-step x node stack ids k)),
    )

-- The loop ends, and it finds a field exactly if one of the nodes shows it, by itself or below.
pub collect_field_ids-Shows :
    (nodes : Items) (x : Str)
    → (out : List Str) × (collect_field_ids nodes ≡ ok out)
      × ((contains out x ≡ true) ↔ ShownIn x nodes)
unfolding collect_field_ids stack_size items_size
collect_field_ids-Shows nodes x =
    let (out, e, iff) =
      loop-Found (items_size nodes) (extend nodes []) [] x
        (omega (arith, stack_size-extend nodes [])) in
    (out, e, (λ k. shown (iff.0 k), λ k. iff.1 (inr (extend-Shown x nodes [] (inl k)))))
  where
    none_yet : contains [] x ≡ true → ⊥
    none_yet h = (unfold contains in cc)

    shown : Found x [] (extend nodes []) → ShownIn x nodes
    shown (inl h) = absurd (none_yet h)
    shown (inr s) = elim (Shown-extend x nodes [] s) [ inl k ↦ k | inr t ↦ absurd t ]
