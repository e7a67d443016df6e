-- ===== src/Rules/Refs/Scope.antt =====
-- What the checks of src/rules/refs.rs over the collected codes guarantee.
use colander.Prelude.{
  ◌≡◌, refl, sym, ◌∙◌, ap, Bool, true, false, Str, [], ◌∷◌, Option, none, some, arith, str_eq,
  str_eq_sound, Bool-cases, inl, inr, Result, ok, ◌>>◌,
}
use colander.Json.{Json, JsonMap}
use colander.Json.Access.{is_null}
use colander.IndexMap.{IndexMap, contains, lookup, Distinct}
use colander.Rules.Refs.{
  References, never_closed, is_aggregate, visit_open, collect_references, collect_direct_references,
  each_code, row_check, is_home, validate_row_scope,
}
use colander.Rules.Refs.Kept.{collect_kept}
use colander.Rules.Refs.Reads.{Reads, here, under, collect-Reads, visit_open-Distinct}

pub bind_unit-ok : (r next : Result (Unit {0})) → (r >> next) ≡ ok tt → (r ≡ ok tt) × (next ≡ ok tt)
bind_unit-ok (ok u) next h = (refl, h)
bind_unit-ok (Result.err x) next h = absurd (cc)
bind_unit-ok Result.panic next h = absurd (cc)
bind_unit-ok Result.out_of_fuel next h = absurd (cc)

-- a check that passes on all codes passes on each
pub each_code-ok :
    (check : Str → Result (Unit {0})) (references : References) (code : Str)
    → each_code check references ≡ ok tt
    → contains references code ≡ true
    → check code ≡ ok tt
unfolding each_code contains
each_code-ok check [] code h c = absurd (cc)
each_code-ok check (k ∷ rest) code h c =
    let (now, later) = bind_unit-ok (check k) (each_code check rest) h in
    elim (Bool-cases (str_eq k code)) [
      | inl same ↦ ap check (sym (str_eq_sound k code same)) ∙ now
      | inr other ↦ each_code-ok check rest code later (ground arith)
    ]

is_home-true :
    (home : Option Str) (enclosing : Str) → is_home home enclosing ≡ true → home ≡ some enclosing
unfolding is_home
is_home-true none enclosing h = absurd (cc)
is_home-true (some home) enclosing h = ap some (str_eq_sound home enclosing h)

row_check-ok :
    (path : Str) (child_repeaters : IndexMap Str) (home_repeater : Option Str)
    (code enclosing : Str)
    → row_check path child_repeaters home_repeater code ≡ ok tt
    → lookup child_repeaters code ≡ some enclosing
    → home_repeater ≡ some enclosing
unfolding row_check
row_check-ok path child_repeaters home_repeater code enclosing h e =
    elim (Bool-cases (is_home home_repeater enclosing)) [
      | inl home ↦ is_home-true home_repeater enclosing home
      | inr other ↦ absurd (ground arith)
    ]

pub Reads-not_null :
    (closed : JsonMap → Bool) (expression : Json) (code : Str)
    → Reads closed expression code
    → is_null expression ≡ false
unfolding is_null
Reads-not_null closed _ _ (here node code h e) = refl
Reads-not_null closed _ _ (under node args arg code n c g w r) = refl

-- Where the row scope of an expression is accepted, every code of a repeater's child that the
-- expression reads outside of `count` and `sum` belongs to the expression's own repeater.
pub validate_row_scope_sound :
    (expression : Json) (path : Str) (child_repeaters : IndexMap Str) (home_repeater : Option Str)
    (code enclosing : Str)
    → validate_row_scope (some expression) path child_repeaters home_repeater ≡ ok tt
    → Reads is_aggregate expression code
    → lookup child_repeaters code ≡ some enclosing
    → home_repeater ≡ some enclosing
unfolding validate_row_scope collect_direct_references
validate_row_scope_sound expression path child_repeaters home_repeater code enclosing h r e =
    row_check-ok path child_repeaters home_repeater code enclosing
      (each_code-ok (row_check path child_repeaters home_repeater)
        (collect_direct_references expression) code
        (ground (arith, Reads-not_null is_aggregate expression code r))
        (collect-Reads is_aggregate expression code r []))
      e

-- No code is listed twice, whether the arguments of closed nodes are left alone or not.
pub collect_references-Distinct :
    (expression : Json)
    → Distinct (collect_references expression) × Distinct (collect_direct_references expression)
unfolding collect_references collect_direct_references Distinct
collect_references-Distinct expression = (
  collect_kept (visit_open never_closed) Distinct (visit_open-Distinct never_closed) expression []
      tt,
  collect_kept (visit_open is_aggregate) Distinct (visit_open-Distinct is_aggregate) expression []
      tt,
)
