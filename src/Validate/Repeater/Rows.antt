-- ===== src/Validate/Repeater/Rows.antt =====
-- A repeater is normalized to rows, at most one for each row of the answer.
use colander.Prelude.{
  ℕ, suc, ◌+◌, ◌≤◌, ◌≡◌, refl, ap, sym, ◌∙◌, Bool, true, not, ◌||◌, Str, Option, none, some, arith,
  Bool-cases, inl, inr, Result, ok, bind-ok,
}
use colander.Json.{
  Json, Items, array, object, null, boolean, number, string, nil, cons, items_length,
}
use colander.IndexMap.{IndexMap, put, lookup}
use colander.Index.Answers.{AnswerFieldDefinition}
use colander.Rules.Value.{Val, RowList, Row, no_rows, row}
use colander.Rules.EvaluationResult.{FormRuleEvaluationResult}
use colander.Floats.{Floats}
use colander.Validate.Model.{FormResponseValidationMode}
use colander.Validate.Conversion.{Errors, code_of, id_of}
use colander.Validate.Fields.{or_default}
use colander.Validate.Repeater.{
  validate_repeater, validate_repeater_row, validate_rows, push_row, gate_items, gated,
  refused_rows, no_access, no_array, row_state, to_row, array_items, validate_repeater_item_count,
}

pub row_count : {F : Type 0} → RowList F → ℕ
row_count no_rows = 0
row_count (row r rs) = suc (row_count rs)

-- the items of an answer that is an array
pub answer_count : Option Json → ℕ
answer_count (some (array items)) = items_length items
answer_count _ = 0

module _ (is_match : Str → Str → Result Bool) {F : Type 0} (floats : Floats F)
    (evaluation : FormRuleEvaluationResult F) (mode : FormResponseValidationMode) where
  row_count-push_row :
      (rs : RowList F) (r : Row F)
      → row_count (push_row is_match floats evaluation mode rs r) ≡ row_count rs + 1
  unfolding row_count push_row
  row_count-push_row no_rows r = omega arith
  row_count-push_row (row s rs) r = omega (arith, row_count-push_row rs r)

  ok-rows : (a b : Errors × RowList F) → ok a ≡ ok b → row_count b.1 ≡ row_count a.1
  ok-rows a b h = ap row_count (sym (second a b h))
    where
      second : (a b : Errors × RowList F) → ok a ≡ ok b → a.1 ≡ b.1
      second a b h = cc

  row-count :
      (repeater : AnswerFieldDefinition) (j : Json) (index : ℕ) (errors : Errors) (rs : RowList F)
      {out : Errors × RowList F}
      → validate_repeater_row is_match floats evaluation mode repeater j index (errors, rs) ≡ ok out
      → row_count out.1 ≤ row_count rs + 1
  unfolding validate_repeater_row
  row-count repeater (object map) index errors rs {out} h =
      let (state, _, q) =
        bind-ok (row_state is_match floats evaluation mode repeater map index errors) _ h in
      omega (
        arith,
        ok-rows _ out q,
        row_count-push_row rs (to_row is_match floats evaluation mode state.1),
      )
  row-count repeater null index errors rs {out} h = omega (arith, ok-rows _ out h)
  row-count repeater (boolean b) index errors rs {out} h = omega (arith, ok-rows _ out h)
  row-count repeater (number s) index errors rs {out} h = omega (arith, ok-rows _ out h)
  row-count repeater (string s) index errors rs {out} h = omega (arith, ok-rows _ out h)
  row-count repeater (array xs) index errors rs {out} h = omega (arith, ok-rows _ out h)

  rows-count :
      (repeater : AnswerFieldDefinition) (items : Items) (index : ℕ) (read : Errors × RowList F)
      {out : Errors × RowList F}
      → validate_rows is_match floats evaluation mode repeater items index read ≡ ok out
      → row_count out.1 ≤ row_count read.1 + items_length items
  unfolding validate_rows items_length
  rows-count repeater nil index read {out} h = omega (arith, ok-rows read out h)
  rows-count repeater (cons j rest) index (errors, rs) h =
      let (next, e, q) =
        bind-ok
          (validate_repeater_row is_match floats evaluation mode repeater j index (errors, rs)) _
          h in
      omega
        (arith, row-count repeater j index errors rs e, rows-count repeater rest (index + 1) next q)

  abbrev Normalized : Type 0
  Normalized = IndexMap (Val F)

  second-ok : (a b : Errors × Normalized) → ok a ≡ ok b → b.1 ≡ a.1
  second-ok a b h = cc

  refused-empty :
      (repeater : AnswerFieldDefinition) (raw : Option Json) (errors : Errors)
      (normalized : Normalized)
      → (refused_rows is_match floats evaluation mode repeater raw (errors, normalized)).1
        ≡ put normalized (code_of repeater) (Val.rows no_rows)
  unfolding refused_rows no_access no_array
  refused-empty repeater raw errors normalized =
      elim (Bool-cases (
        not (or_default (lookup evaluation.visibility (id_of repeater)) true)
        || not (or_default (lookup evaluation.enabled (id_of repeater)) true))) [
          | inl e ↦ rw e refl
          | inr e ↦ rw e refl
        ]

  gated-Rows :
      (repeater : AnswerFieldDefinition) (raw : Option Json) (o : Option Items) (errors : Errors)
      (normalized : Normalized) {out : Errors × Normalized}
      → gated is_match floats evaluation mode repeater raw o (errors, normalized) ≡ ok out
      → ((items : Items) → o ≡ some items → items_length items ≤ answer_count raw)
      → (rs : RowList F) × (out.1 ≡ put normalized (code_of repeater) (Val.rows rs))
        × (row_count rs ≤ answer_count raw)
  unfolding gated row_count
  gated-Rows repeater raw none errors normalized {out} h k =
      (no_rows, second-ok _ out h ∙ refused-empty repeater raw errors normalized, omega arith)
  gated-Rows repeater raw (some items) errors normalized {out} h k =
      let (read, e, q) =
        bind-ok
          (validate_rows is_match floats evaluation mode repeater items 0
            (validate_repeater_item_count repeater (items_length items) mode errors, no_rows))
          _ h in
      (read.1, second-ok _ out q, omega (arith, rows-count repeater items 0 _ e, k items refl))

  array-items :
      (raw : Option Json) (items : Items)
      → array_items is_match floats evaluation mode raw ≡ some items
      → items_length items ≤ answer_count raw
  unfolding array_items answer_count
  array-items (some (array xs)) items h = let same = ap length_of h in omega arith
    where
      length_of : Option Items → ℕ
      length_of none = 0
      length_of (some ys) = items_length ys
  array-items none items h = absurd (cc)
  array-items (some null) items h = absurd (cc)
  array-items (some (boolean b)) items h = absurd (cc)
  array-items (some (number s)) items h = absurd (cc)
  array-items (some (string s)) items h = absurd (cc)
  array-items (some (object m)) items h = absurd (cc)

  gate-items :
      (repeater : AnswerFieldDefinition) (raw : Option Json) (items : Items)
      → gate_items is_match floats evaluation mode repeater raw ≡ some items
      → items_length items ≤ answer_count raw
  unfolding gate_items
  gate-items repeater raw items h =
      elim (Bool-cases (
        not (or_default (lookup evaluation.visibility (id_of repeater)) true)
        || not (or_default (lookup evaluation.enabled (id_of repeater)) true))) [
          | inl e ↦ absurd (refused (rw e at h))
          | inr e ↦ array-items raw items (rw e at h)
        ]
    where
      refused : ◌≡◌ {A = Option Items} none (some items) → ⊥
      refused q = cc

  -- A repeater whose check succeeds is normalized to rows, at most one for each item of the answer.
  pub validate_repeater-Rows :
      (repeater : AnswerFieldDefinition) (raw : Option Json) (errors : Errors)
      (normalized : Normalized) {out : Errors × Normalized}
      → validate_repeater is_match floats evaluation mode repeater raw (errors, normalized) ≡ ok out
      → (rs : RowList F) × (out.1 ≡ put normalized (code_of repeater) (Val.rows rs))
        × (row_count rs ≤ answer_count raw)
  unfolding validate_repeater
  validate_repeater-Rows repeater raw errors normalized h =
      gated-Rows repeater raw _ errors normalized h (gate-items repeater raw)
