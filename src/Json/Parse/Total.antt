-- ===== src/Json/Parse/Total.antt =====
-- `parse` (src/json/parse.rs) answers for every text: it neither panics nor runs out of fuel.
use colander.Prelude.{
  ℕ, zero, suc, ◌+◌, ◌*◌, ◌<◌, ◌≤◌, ◌≡◌, refl, Bool, Str, [], arith, Result, ok, err, ColanderError,
  codes, ◌⊎◌, inl, inr, ltb, is_empty,
}
use colander.Text.Utf8.{as_bytes}
use colander.Json.{
  Json, Items, JsonMap, null, boolean, number, string, array, object, nil, empty, push,
}
use colander.Json.Map.{insert}
use colander.Json.Input.{Input, Parser, pure, error, peek, is_at, skip, expect, read_literal, bump}
use colander.Json.Input.Below.{
  left, Below, Below-mono, Below-bind, Below-if, Below-skip, Below-expect, Below-literal,
  left-bump_at,
}
use colander.Json.Numbers.{scan_number}
use colander.Json.Numbers.Bounds.{Below-scan_number}
use colander.Json.Strings.{Sink, parse_string, step}
use colander.Json.Strings.Bounds.{Below-read_string}
use colander.Json.Parse.{
  Lead, open_object, open_array, quote, true_word, false_word, null_word, digit, end_of_input,
  other, lead, max_depth, too_deep, unexpected, enter, after_value, member_round, item_round,
  read_value, guarded_value, parse_value, parse_members, parse_items, fuel_for, at_end, start,
  value_of, parse,
}

Below-parse_string : (i : Input) → Below (left i) (parse_string i)
unfolding parse_string
Below-parse_string i = Below-read_string Sink.value [] i

-- What a loop needs of the parser that it calls: from fewer bytes than `k`, fewer are left.
Shrinks : ℕ → Parser Json → Type 0
Shrinks k p = (i : Input) → left i < k → Below (left i) (p i)

module _ (k : ℕ) where
  Below-after_value :
      (close : ℕ) (message : Str) (again done : Parser Json) (i : Input)
      → left i ≤ k
      → Shrinks k again
      → ((j : Input) → left j < left i → Below (left i) (done j))
      → Below (left i) (after_value close message again done i)
  unfolding after_value step error Shrinks
  Below-after_value close message again done i h next stop =
      Below-if (left i) (is_at b',' (peek i)) _ _
        (λ e.
          let l = left-bump_at b',' i e in
          Below-mono (left (bump i)) (left i) (again (bump i)) (omega arith)
            (next (bump i) (omega arith)))
        (λ _.
          Below-if (left i) (is_at close (peek i)) _ _ (λ e. stop (bump i) (left-bump_at close i e))
            (λ _. tt))

  Below-enter :
      (bracket close : ℕ) (at_once loop : Parser Json) (i : Input)
      → left i ≤ k
      → ((j : Input) → left j < left i → Below (left i) (at_once j))
      → Shrinks k loop
      → Below (left i) (enter bracket close at_once loop i)
  unfolding enter step Shrinks
  Below-enter bracket close at_once loop i h stop next =
      Below-bind (left i) (left i) (expect bracket) _ i (Below-expect bracket i) λ _ i1 l1.
        Below-bind (suc (left i1)) (left i) skip _ i1 (Below-skip i1) λ _ i2 l2.
          Below-if (left i) (is_at close (peek i2)) _ _
            (λ e. let l = left-bump_at close i2 e in stop (bump i2) (omega arith))
            (λ _. Below-mono (left i2) (left i) (loop i2) (omega arith) (next i2 (omega arith)))

  Below-item_round :
      (element : Parser Json) (again : Items → Parser Json)
      → Shrinks (suc k) element
      → ((xs : Items) → Shrinks k (again xs))
      → (items : Items) → Shrinks (suc k) (item_round element again items)
  unfolding item_round Shrinks
  Below-item_round element again e next items i h =
      Below-bind (suc (left i)) (left i) skip _ i (Below-skip i) λ _ i1 l1.
        Below-bind (left i1) (left i) element _ i1 (e i1 (omega arith)) λ v i2 l2.
          Below-bind (suc (left i2)) (left i) skip _ i2 (Below-skip i2) λ _ i3 l3.
            Below-mono (left i3) (left i) _ (omega arith) (
              Below-after_value b']' _ (again (push items v)) (pure (array (push items v))) i3
                (omega arith) (next (push items v)) λ j l. l)

  Below-member_round :
      (element : Parser Json) (again : JsonMap → Parser Json)
      → Shrinks (suc k) element
      → ((m : JsonMap) → Shrinks k (again m))
      → (map : JsonMap) → Shrinks (suc k) (member_round element again map)
  unfolding member_round Shrinks
  Below-member_round element again e next map i h =
      Below-bind (suc (left i)) (left i) skip _ i (Below-skip i) λ _ i1 l1.
        Below-bind (left i1) (left i) parse_string _ i1 (Below-parse_string i1) λ key i2 l2.
          Below-bind (suc (left i2)) (left i) skip _ i2 (Below-skip i2) λ _ i3 l3.
            Below-bind (left i3) (left i) (expect b':') _ i3 (Below-expect b':' i3) λ _ i4 l4.
              Below-bind (suc (left i4)) (left i) skip _ i4 (Below-skip i4) λ _ i5 l5.
                Below-bind (left i5) (left i) element _ i5 (e i5 (omega arith)) λ v i6 l6.
                  Below-bind (suc (left i6)) (left i) skip _ i6 (Below-skip i6) λ _ i7 l7.
                    Below-mono (left i7) (left i) _ (omega arith) (
                      Below-after_value b'}' _ (again (insert map key v))
                        (pure (object (insert map key v))) i7 (omega arith)
                        (next (insert map key v)) λ j l. l)

  -- the arms of the match on the first byte
  Below-read_value :
      (members : JsonMap → Parser Json) (items : Items → Parser Json) (l : Lead) (i : Input)
      → left i ≤ k
      → Shrinks k (members empty)
      → Shrinks k (items nil)
      → Below (left i) (read_value members items l i)
  unfolding read_value unexpected error
  Below-read_value members items open_object i h m n =
      Below-enter b'{' b'}' (pure (object empty)) (members empty) i h (λ j l. l) m
  Below-read_value members items open_array i h m n =
      Below-enter b'[' b']' (pure (array nil)) (items nil) i h (λ j l. l) n
  Below-read_value members items quote i h m n =
      Below-bind (left i) (left i) parse_string (λ s. pure (string s)) i (Below-parse_string i)
        λ s j l. l
  Below-read_value members items true_word i h m n =
      Below-bind (left i) (left i) (read_literal (codes "true")) (λ _. pure (boolean Bool.true)) i
        (Below-literal _ _ i) λ _ j l. l
  Below-read_value members items false_word i h m n =
      Below-bind (left i) (left i) (read_literal (codes "false")) (λ _. pure (boolean Bool.false)) i
        (Below-literal _ _ i) λ _ j l. l
  Below-read_value members items null_word i h m n =
      Below-bind (left i) (left i) (read_literal (codes "null")) (λ _. pure null) i
        (Below-literal _ _ i) λ _ j l. l
  Below-read_value members items digit i h m n =
      Below-bind (left i) (left i) scan_number (λ s. pure (number s)) i (Below-scan_number i)
        λ s j l. l
  Below-read_value members items (other b) i h m n = tt
  Below-read_value members items end_of_input i h m n = tt

-- The fuel that the loops need: twice the bytes that are left, and one more where a value is next.
mutual
  unfolding parse_value parse_members parse_items guarded_value Shrinks too_deep error

  value-Below : (f depth : ℕ) (i : Input) → 2 * left i < f → Below (left i) (parse_value f depth i)
  value-Below zero depth i h = omega arith
  value-Below (suc f) depth i h =
      Below-if (left i) (ltb max_depth depth) _ _ (λ _. tt)
        λ _.
          Below-read_value (left i) (parse_members f depth) (parse_items f depth) (lead (peek i)) i
            (omega arith) (λ j l. members-Below f depth empty j (omega arith))
            (λ j l. items-Below f depth nil j (omega arith))

  members-Below :
      (f depth : ℕ) (map : JsonMap) (i : Input)
      → 2 * left i + 1 < f
      → Below (left i) (parse_members f depth map i)
  members-Below zero depth map i h = omega arith
  members-Below (suc f) depth map i h =
      Below-member_round (left i) (parse_value f (depth + 1)) (parse_members f depth)
        (λ j l. value-Below f (depth + 1) j (omega arith))
        (λ m j l. members-Below f depth m j (omega arith)) map i (omega arith)

  items-Below :
      (f depth : ℕ) (items : Items) (i : Input)
      → 2 * left i + 1 < f
      → Below (left i) (parse_items f depth items i)
  items-Below zero depth items i h = omega arith
  items-Below (suc f) depth items i h =
      Below-item_round (left i) (parse_value f (depth + 1)) (parse_items f depth)
        (λ j l. value-Below f (depth + 1) j (omega arith))
        (λ m j l. items-Below f depth m j (omega arith)) items i (omega arith)

-- a value or an error
abbrev pub Settles {ℓ} : {A : Type ℓ} → Result A → Type ℓ
Settles {A = A} r = ((v : A) × (r ≡ ok v)) ⊎ ((e : ColanderError) × (r ≡ err e))

pub Below-Settles {ℓ} :
    {A : Type ℓ} (m : ℕ) (r : Result (A × Input)) → Below m r → Settles (value_of r)
unfolding value_of
Below-Settles m (ok (a, i)) h = inl (a, refl)
Below-Settles m (err e) h = inr (e, refl)
Below-Settles m Result.panic h = absurd h
Below-Settles m Result.out_of_fuel h = absurd h

-- For every text `parse` returns a value or an error.
pub parse-Settles : (text : Str) → Settles (parse text)
unfolding parse start at_end error
parse-Settles text =
    let i = start (as_bytes text) in
    let m = suc (left i) in
    Below-Settles m _ (
      Below-bind m m skip _ i (Below-skip i) λ _ i1 l1.
        Below-bind (left i1) m (parse_value (fuel_for (as_bytes text)) 0) _ i1
          (value-Below (fuel_for (as_bytes text)) 0 i1 (omega arith))
          λ v i2 l2.
            Below-bind (suc (left i2)) m skip _ i2 (Below-skip i2)
              λ _ i3 l3. Below-if m (is_empty i3.rest) _ _ (λ _. omega arith) (λ _. tt))
