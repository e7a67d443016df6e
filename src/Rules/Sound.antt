-- ===== src/Rules/Sound.antt =====
-- What the checks of one rule expression (src/rules/analyze.rs) guarantee about the codes it reads.
use colander.Prelude.{
  ◌≡◌, refl, true, Str, [], ◌∷◌, Option, none, some, arith, str_eq, str_eq_sound, Bool-cases, inl,
  inr, ok, subst,
}
use colander.Json.{Json}
use colander.IndexMap.{IndexMap, contains, contains_key, lookup}
use colander.Index.{FieldInfo}
use colander.Rules.Refs.{
  is_aggregate, never_closed, References, collect_references, validate_row_scope,
}
use colander.Rules.Refs.Reads.{Reads, collect-Reads}
use colander.Rules.Refs.Scope.{bind_unit-ok, Reads-not_null, validate_row_scope_sound}
use colander.Rules.Shape.{validate_expression_shape, validate_aggregate_arguments}
use colander.Rules.Analyze.{
  first_unknown, unknown_code, validate_expression_references, validate_expression,
}

module _ {F : Type 0} (fields_by_code : IndexMap (FieldInfo F)) where
  first_unknown-none :
      (references : References) (code : Str)
      → first_unknown fields_by_code references ≡ none
      → contains references code ≡ true
      → contains_key fields_by_code code ≡ true
  unfolding first_unknown contains
  first_unknown-none [] code h c = absurd (cc)
  first_unknown-none (k ∷ rest) code h c = elim (Bool-cases (contains_key fields_by_code k)) [
    | inl known ↦ elim (Bool-cases (str_eq k code)) [
      | inl same ↦
          subst (λ x. contains_key fields_by_code x ≡ true) (str_eq_sound k code same) known
      | inr other ↦ first_unknown-none rest code (ground arith) (ground arith)
    ]
    | inr unknown ↦ absurd (ground arith)
  ]

  unknown_code-ok : (path : Str) (o : Option Str) → unknown_code path o ≡ ok tt → o ≡ none
  unfolding unknown_code
  unknown_code-ok path none h = refl
  unknown_code-ok path (some code) h = absurd (cc)

  references-known :
      (expression : Json) (path code : Str)
      → validate_expression_references (some expression) path fields_by_code ≡ ok tt
      → Reads never_closed expression code
      → contains_key fields_by_code code ≡ true
  unfolding validate_expression_references collect_references
  references-known expression path code h r =
      first_unknown-none (collect_references expression) code
        (unknown_code-ok path (first_unknown fields_by_code (collect_references expression))
          (ground (arith, Reads-not_null never_closed expression code r)))
        (collect-Reads never_closed expression code r [])

  -- the third and the fourth check of an expression that passes
  passed :
      (expression : Json) (path : Str) (child_repeaters : IndexMap Str) (home : Option Str)
      → validate_expression (some expression) path fields_by_code child_repeaters home ≡ ok tt
      → (validate_expression_references (some expression) path fields_by_code ≡ ok tt)
        × (validate_row_scope (some expression) path child_repeaters home ≡ ok tt)
  unfolding validate_expression
  passed expression path child_repeaters home h =
      let (_, h1) = bind_unit-ok (validate_expression_shape (some expression) path) _ h in
      let (_, h2) = bind_unit-ok (validate_aggregate_arguments (some expression) path) _ h1 in
      let (known, h3) =
        bind_unit-ok (validate_expression_references (some expression) path fields_by_code) _ h2 in
      let (scoped, _) =
        bind_unit-ok (validate_row_scope (some expression) path child_repeaters home) _ h3 in
      (known, scoped)

  -- Where an expression passes its checks, every code that it reads is a field's.
  pub validate_expression-known :
      (expression : Json) (path : Str) (child_repeaters : IndexMap Str) (home : Option Str)
      (code : Str)
      → validate_expression (some expression) path fields_by_code child_repeaters home ≡ ok tt
      → Reads never_closed expression code
      → contains_key fields_by_code code ≡ true
  validate_expression-known expression path child_repeaters home code h =
      references-known expression path code (passed expression path child_repeaters home h).0

  -- Where an expression passes its checks, every code of a repeater's child that it reads outside of
  -- `count` and `sum` belongs to the repeater in whose rows it is evaluated.
  pub validate_expression-scoped :
      (expression : Json) (path : Str) (child_repeaters : IndexMap Str) (home : Option Str)
      (code enclosing : Str)
      → validate_expression (some expression) path fields_by_code child_repeaters home ≡ ok tt
      → Reads is_aggregate expression code
      → lookup child_repeaters code ≡ some enclosing
      → home ≡ some enclosing
  validate_expression-scoped expression path child_repeaters home code enclosing h =
      validate_row_scope_sound expression path child_repeaters home code enclosing
        (passed expression path child_repeaters home h).1
