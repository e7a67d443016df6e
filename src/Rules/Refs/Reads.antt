-- ===== src/Rules/Refs/Reads.antt =====
-- What the collectors of src/rules/refs.rs find: every code that an expression reads.
use colander.Prelude.{
  ◌≡◌, refl, sym, ◌∙◌, ap, subst, Bool, true, false, not, ◌&&◌, ◌||◌, Str, List, [], ◌∷◌, ◌++◌,
  Option, none, some, codes, arith, str_eq, str_eq_refl, Bool-cases, ◌⊎◌, inl, inr, if◌then◌else◌,
  is_empty,
}
use colander.Json.{Json, Items, JsonMap, object, array, nil, cons}
use colander.Json.Map.{get}
use colander.Json.Access.{get_str}
use colander.IndexMap.{contains, contains-append, Distinct, Distinct-push}
use colander.Rules.Refs.Kept.{collect_args-get, collect_kept, collect_args_kept, collect_each_kept}
use colander.Rules.Refs.{
  References, Visit, stop, descend, new_code, visit_code, visit_open, collect, collect_each,
}

-- a node with a code that is not empty under `ref`
unfoldable pub names_code : Option Str → Bool
names_code none = false
names_code (some code) = not (is_empty code)

unfoldable pub Within : Json → Items → Type 0
Within arg nil = ⊥
Within arg (cons x rest) = (arg ≡ x) ⊎ Within arg rest

-- The codes that an expression reads: its own, or those of its arguments where the node is not
-- closed.
pub data Reads (closed : JsonMap → Bool) : Json → Str → Type 0 where
  here :
      (node : JsonMap) (code : Str)
      → get_str node (codes "ref") ≡ some code
      → is_empty code ≡ false
      → Reads closed (object node) code
  under :
      (node : JsonMap) (args : Items) (arg : Json) (code : Str)
      → names_code (get_str node (codes "ref")) ≡ false
      → closed node ≡ false
      → get node (codes "args") ≡ some (array args)
      → Within arg args
      → Reads closed arg code
      → Reads closed (object node) code

contains-push :
    (s : List Str) (code k : Str) → contains (s ++ code ∷ []) k ≡ (contains s k || str_eq code k)
unfolding contains
contains-push s code k = ground (arith, contains-append s (code ∷ []) k)

-- What `new_code` takes is new, and what it does not take is known or names nothing.
new_code-some :
    (o : Option Str) (references : References) {code : Str}
    → new_code o references ≡ some code
    → (o ≡ some code) × (contains references code ≡ false) × (names_code o ≡ true)
unfolding new_code names_code
new_code-some none references h = absurd (cc)
new_code-some (some c) references {code} h =
    elim (Bool-cases (not (is_empty c) && not (contains references c))) [
      | inl e ↦
          let same : c ≡ code = ground arith in
          (
            ap some same,
            subst (λ k. contains references k ≡ false) same (ground arith),
            ground arith,
          )
      | inr e ↦ absurd (ground arith)
    ]

new_code-none :
    (references : References) (code : Str)
    → is_empty code ≡ false
    → new_code (some code) references ≡ none
    → contains references code ≡ true
unfolding new_code
new_code-none references code e h = ground arith

pushed : (s : List Str) (code k : Str) → contains s k ≡ true → contains (s ++ code ∷ []) k ≡ true
pushed s code k h = rw (contains-push s code k, h) refl

pushed_last : (s : List Str) (code : Str) → contains (s ++ code ∷ []) code ≡ true
pushed_last s code = rw (contains-push s code code, str_eq_refl code) (ground arith)

some-injective : {a b : Str} → some a ≡ some b → a ≡ b
some-injective e = cc

-- what stands behind the end of a visit
visit_code-stop :
    (o : Option Str) (b : Bool) (references found : References)
    → visit_code o (if b then stop references else descend) references ≡ stop found
    → ((o ≡ none) × (b ≡ true) × (found ≡ references))
      ⊎ ((c : Str) × (o ≡ some c) × (found ≡ references ++ c ∷ []))
unfolding visit_code
visit_code-stop none true references found e = inl (refl, refl, cc)
visit_code-stop none false references found e = absurd (cc)
visit_code-stop (some c) b references found e = inr (c, refl, cc)

visit_code-descend :
    (o : Option Str) (b : Bool) (references : References)
    → visit_code o (if b then stop references else descend) references ≡ descend
    → o ≡ none
unfolding visit_code
visit_code-descend none b references e = refl
visit_code-descend (some c) b references e = absurd (cc)

module _ (closed : JsonMap → Bool) where
  new_at : JsonMap → References → Option Str
  new_at node references = new_code (get_str node (codes "ref")) references

  visit_open-stop :
      (node : JsonMap) (references found : References)
      → visit_open closed node references ≡ stop found
      → ((new_at node references ≡ none) × (closed node ≡ true) × (found ≡ references))
        ⊎ ((c : Str) × (new_at node references ≡ some c) × (found ≡ references ++ c ∷ []))
  unfolding visit_open new_at
  visit_open-stop node references found v =
      visit_code-stop (new_at node references) (closed node) references found v

  -- A node whose code is not empty gets it listed, or is gone into only where it is listed.
  visit_open-here :
      (node : JsonMap) (code : Str) (references found : References)
      → get_str node (codes "ref") ≡ some code
      → is_empty code ≡ false
      → visit_open closed node references ≡ stop found
      → contains found code ≡ true
  unfolding new_at
  visit_open-here node code references found h e v =
      elim (visit_open-stop node references found v) [
        | inl (n, _, same) ↦ rw (same) (new_code-none references code e (cc))
        | inr (c, n, same) ↦
            let (named, _, _) = new_code-some (get_str node (codes "ref")) references n in
            rw (same) (
              subst (λ k. contains (references ++ c ∷ []) k ≡ true) (some-injective (sym named ∙ h))
                (pushed_last references c))
      ]

  visit_open-known :
      (node : JsonMap) (code : Str) (references : References)
      → get_str node (codes "ref") ≡ some code
      → is_empty code ≡ false
      → visit_open closed node references ≡ descend
      → contains references code ≡ true
  unfolding visit_open new_at
  visit_open-known node code references h e v = new_code-none references code e (
      ap (λ o. new_code o references) (sym h)
      ∙ visit_code-descend (new_at node references) (closed node) references v)

  pub visit_open-kept :
      (code : Str) (node : JsonMap) (references found : References)
      → visit_open closed node references ≡ stop found
      → contains references code ≡ true
      → contains found code ≡ true
  visit_open-kept code node references found v h = elim (visit_open-stop node references found v) [
    | inl (_, _, same) ↦ rw (same) h
    | inr (c, _, same) ↦ rw (same) (pushed references c code h)
  ]

  pub visit_open-Distinct :
      (node : JsonMap) (references found : References)
      → visit_open closed node references ≡ stop found
      → Distinct references
      → Distinct found
  unfolding new_at
  visit_open-Distinct node references found v d = elim (visit_open-stop node references found v) [
    | inl (_, _, same) ↦ subst Distinct (sym same) d
    | inr (c, n, same) ↦
        let (_, fresh, _) = new_code-some (get_str node (codes "ref")) references n in
        subst Distinct (sym same) (Distinct-push references c d fresh)
  ]

  -- Where no code is named, only a closed node ends the visit.
  visit_open-under :
      (node : JsonMap) (references found : References)
      → names_code (get_str node (codes "ref")) ≡ false
      → closed node ≡ false
      → visit_open closed node references ≡ stop found
      → ⊥
  unfolding new_at
  visit_open-under node references found n c v = elim (visit_open-stop node references found v) [
    | inl (_, shut, _) ↦ cc
    | inr (k, new, _) ↦
        let (_, _, named) = new_code-some (get_str node (codes "ref")) references new in cc
  ]

  collect-keeps :
      (code : Str) (e : Json) (references : References)
      → contains references code ≡ true
      → contains (collect (visit_open closed) e references) code ≡ true
  collect-keeps code =
      collect_kept (visit_open closed) (λ r. contains r code ≡ true) (visit_open-kept code)

  -- the argument's turn comes, and what it adds stays
  each-finds :
      (args : Items) (arg : Json) (code : Str)
      → Within arg args
      → ((references : References)
          → contains (collect (visit_open closed) arg references) code ≡ true)
      → (references : References)
      → contains (collect_each (visit_open closed) args references) code ≡ true
  unfolding collect_each Within
  each-finds nil arg code w found references = absurd w
  each-finds (cons x rest) arg code (inl same) found references =
      collect_each_kept (visit_open closed) (λ r. contains r code ≡ true) (visit_open-kept code)
        rest (collect (visit_open closed) x references)
        (subst (λ y. contains (collect (visit_open closed) y references) code ≡ true) same
          (found references))
  each-finds (cons x rest) arg code (inr w) found references =
      each-finds rest arg code w found (collect (visit_open closed) x references)

  -- What a node gives, by what the visit says.
  visited-here :
      (v : Visit) (node : JsonMap) (code : Str) (references : References)
      → visit_open closed node references ≡ v
      → get_str node (codes "ref") ≡ some code
      → is_empty code ≡ false
      → contains (collect (visit_open closed) (object node) references) code ≡ true
  unfolding collect
  visited-here (stop found) node code references v h e =
      rw (v, collect) (visit_open-here node code references found h e v)
  visited-here descend node code references v h e =
      rw (v, collect)
        (collect_args_kept (visit_open closed) (λ r. contains r code ≡ true) (visit_open-kept code)
          node references (visit_open-known node code references h e v))

  visited-under :
      (v : Visit) (node : JsonMap) (args : Items) (code : Str) (references : References)
      → visit_open closed node references ≡ v
      → names_code (get_str node (codes "ref")) ≡ false
      → closed node ≡ false
      → get node (codes "args") ≡ some (array args)
      → contains (collect_each (visit_open closed) args references) code ≡ true
      → contains (collect (visit_open closed) (object node) references) code ≡ true
  unfolding collect
  visited-under (stop found) node args code references v n c g h =
      absurd (visit_open-under node references found n c v)
  visited-under descend node args code references v n c g h =
      rw (v, collect) (rw (collect_args-get (visit_open closed) node args references g) h)

  -- A collector lists every code that the expression reads.
  pub collect-Reads :
      (e : Json) (code : Str)
      → Reads closed e code
      → (references : References) → contains (collect (visit_open closed) e references) code ≡ true
  collect-Reads _ _ (here node code h e) references =
      visited-here (visit_open closed node references) node code references refl h e
  collect-Reads _ _ (under node args arg code n c g w r) references =
      visited-under (visit_open closed node references) node args code references refl n c g
        (each-finds args arg code w (collect-Reads arg code r) references)
