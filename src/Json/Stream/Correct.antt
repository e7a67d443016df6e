-- ===== src/Json/Stream/Correct.antt =====
-- `ordered_stream` of src/json/parse.rs answers what parsing and then writing answers.
use colander.Prelude.{
  ℕ, zero, suc, ◌+◌, ◌≡◌, refl, ap, sym, ◌∙◌, Bool, true, false, Str, [], ◌∷◌, ◌++◌, append-nil,
  append_assoc, codes, length, Result, ok, err, map_ok, Bool-cases, inl, inr, ◌⊎◌, take,
  take-length, if◌then◌else◌, ltb, arith, is_empty,
}
use colander.Text.Utf8.{as_bytes}
use colander.Json.{Json, Items, JsonMap, object, array, string, number, boolean, null, empty, nil}
use colander.Json.Escape.{write_string}
use colander.Json.Write.{ordered}
use colander.Json.Input.{
  Input, Parser, ◌>>=◌, ◌>>◌, pure, skip, expect, read_literal, is_at, peek, bump, error,
}
use colander.Json.Numbers.{scan_number}
use colander.Json.Strings.{parse_string, write_string_stream, step}
use colander.Json.Strings.Sinks.{write_string_stream-over}
use colander.Json.Parse.{
  Lead, open_object, open_array, quote, true_word, false_word, null_word, digit, end_of_input,
  other, lead, enter, read_value, guarded_value, parse_value, parse_members, parse_items, parse,
  value_of, at_end, start, fuel_for, max_depth, too_deep, unexpected,
}
use colander.Json.Stream.{
  Stream, push_out, truncate, initial, literal_stream, string_stream, number_stream,
  read_value_stream, guarded_value_stream, parse_value_stream, parse_object_stream,
  parse_array_stream, ordered_stream, finish,
}
use colander.Json.Stream.Agree.{Follows, Agrees, shared-Agrees, over-Agrees, bind-Agrees}
use colander.Json.Stream.Rounds.Members.{Building, member_round-Agrees}
use colander.Json.Stream.Rounds.Arrays.{Listing, item_round-Agrees}

push_out-Follows : (st : Stream) (text : Str) → Follows st text (push_out st text)
push_out-Follows st text = record { keeps = λ e. e; wrote = λ _. refl; restores = λ _. refl }

module _ {C : Type 0} (st : Stream) (text : C → Str) where
  enter-Agrees :
      (bracket close : ℕ) (at_once loop : Parser C) (at_once_s loop_s : Parser Stream) (i : Input)
      → ((j : Input) → Agrees st text (at_once j) (at_once_s j))
      → ((j : Input) → Agrees st text (loop j) (loop_s j))
      → Agrees st text (enter bracket close at_once loop i) (enter bracket close at_once_s loop_s i)
  unfolding enter step
  enter-Agrees bracket close at_once loop at_once_s loop_s i h k =
      shared-Agrees st text (expect bracket) _ _ i
        λ _ i1. shared-Agrees st text skip _ _ i1 λ _ i2. go i2 (is_at close (peek i2))
    where
      go :
          (j : Input) (b : Bool)
          → Agrees st text
              (if b then (do step; at_once) j else loop j)
              (if b then (do step; at_once_s) j else loop_s j)
      go j true = h (bump j)
      go j false = k j

Building-empty : (st : Stream) → Building st empty (push_out st (b'{' ∷ []))
Building-empty st = record {
  keeps = λ e. e;
  wrote = λ _. refl;
  recorded = λ _. ([], sym (append-nil st.seen), tt);
}

Listing-nil : (st : Stream) → Listing st nil (push_out st (b'[' ∷ []))
Listing-nil st = record { keeps = λ e. e; wrote = λ _. refl; restores = λ _. refl }

empty_object-Follows :
    (st : Stream)
    → Follows st
        (ordered (object empty))
        (truncate (length st.seen) (push_out (push_out st (b'{' ∷ [])) (b'}' ∷ [])))
unfolding ordered
empty_object-Follows st = record {
  keeps = λ e. e;
  wrote = λ _. append_assoc st.out (b'{' ∷ []) (b'}' ∷ []);
  restores = λ _. sym (ap (take (length st.seen)) (append-nil st.seen)) ∙ take-length st.seen [];
}

empty_array-Follows :
    (st : Stream)
    → Follows st (ordered (array nil)) (push_out (push_out st (b'[' ∷ [])) (b']' ∷ []))
unfolding ordered
empty_array-Follows st = record {
  keeps = λ e. e;
  wrote = λ _. append_assoc st.out (b'[' ∷ []) (b']' ∷ []);
  restores = λ _. refl;
}

literal_stream-Agrees :
    (st : Stream) (literal : Str) (v : Json) (i : Input)
    → ordered v ≡ literal
    → Agrees st ordered ((read_literal literal >> pure v) i) (literal_stream literal st i)
unfolding literal_stream
literal_stream-Agrees st literal v i e =
    shared-Agrees st ordered (read_literal literal) _ _ i
      λ _ j. (push_out st literal, refl, rw e (push_out-Follows st literal))

string_stream-Agrees :
    (st : Stream) (i : Input)
    → Agrees st ordered ((parse_string >>= λ s. pure (string s)) i) (string_stream st i)
unfolding string_stream ordered
string_stream-Agrees st i =
    over-Agrees st ordered (λ s. st.out ++ write_string s) parse_string (write_string_stream st.out)
      (λ s. pure (string s)) (λ o. pure (record st { out = o })) i
      (write_string_stream-over st.out i) λ s j. (_, refl, push_out-Follows st (write_string s))

number_stream-Agrees :
    (st : Stream) (i : Input)
    → Agrees st ordered ((scan_number >>= λ s. pure (number s)) i) (number_stream st i)
unfolding number_stream ordered
number_stream-Agrees st i =
    shared-Agrees st ordered scan_number _ _ i λ s j. (push_out st s, refl, push_out-Follows st s)

module _ (members : JsonMap → Parser Json) (items : Items → Parser Json)
    (members_s : ℕ → Stream → Parser Stream) (items_s : Stream → Parser Stream)
    (members-Agrees : (st0 st : Stream) (i : Input)
      → Building st0 empty st
      → Agrees st0 ordered (members empty i) (members_s (length st0.seen) st i))
    (items-Agrees : (st0 st : Stream) (i : Input)
      → Listing st0 nil st
      → Agrees st0 ordered (items nil i) (items_s st i)) where
  read_value-Agrees :
      (st : Stream) (l : Lead) (i : Input)
      → Agrees st ordered
          (read_value members items l i)
          (read_value_stream members_s items_s st l i)
  unfolding read_value read_value_stream unexpected error ordered
  read_value-Agrees st open_object i =
      enter-Agrees st ordered b'{' b'}' _ _ _ _ i (λ j. (_, refl, empty_object-Follows st))
        (λ j. members-Agrees st (push_out st (b'{' ∷ [])) j (Building-empty st))
  read_value-Agrees st open_array i =
      enter-Agrees st ordered b'[' b']' _ _ _ _ i (λ j. (_, refl, empty_array-Follows st))
        (λ j. items-Agrees st (push_out st (b'[' ∷ [])) j (Listing-nil st))
  read_value-Agrees st quote i = string_stream-Agrees st i
  read_value-Agrees st true_word i = literal_stream-Agrees st (codes "true") (boolean true) i refl
  read_value-Agrees st false_word i =
      literal_stream-Agrees st (codes "false") (boolean false) i refl
  read_value-Agrees st null_word i = literal_stream-Agrees st (codes "null") null i refl
  read_value-Agrees st digit i = number_stream-Agrees st i
  read_value-Agrees st (other b) i = refl
  read_value-Agrees st end_of_input i = refl

  guarded_value-Agrees :
      (depth : ℕ) (st : Stream) (i : Input)
      → Agrees st ordered
          (guarded_value depth members items i)
          (guarded_value_stream depth members_s items_s st i)
  unfolding guarded_value guarded_value_stream too_deep error
  guarded_value-Agrees depth st i = go (ltb max_depth depth)
    where
      go :
          (b : Bool)
          → Agrees st ordered
              (if b then too_deep i else read_value members items (lead (peek i)) i)
              (if b then too_deep i else read_value_stream members_s items_s st (lead (peek i)) i)
      go true = refl
      go false = read_value-Agrees st (lead (peek i)) i

-- At every fuel and depth the two parsers agree.
mutual
  unfolding parse_value parse_value_stream

  value-Agrees :
      (f depth : ℕ) (st : Stream) (i : Input)
      → Agrees st ordered (parse_value f depth i) (parse_value_stream f depth st i)
  value-Agrees zero depth st i = refl
  value-Agrees (suc f) depth st i =
      guarded_value-Agrees (parse_members f depth) (parse_items f depth)
        (parse_object_stream f depth) (parse_array_stream f depth)
        (λ st0 st j b. members-Agree f depth st0 empty st j b)
        (λ st0 st j b. items-Agree f depth st0 nil st j b) depth st i

  members-Agree :
      (f depth : ℕ) (st0 : Stream) (m : JsonMap) (st : Stream) (i : Input)
      → Building st0 m st
      → Agrees st0 ordered
          (parse_members f depth m i)
          (parse_object_stream f depth (length st0.seen) st i)
  members-Agree zero depth st0 m st i b = refl
  members-Agree (suc f) depth st0 m st i b =
      member_round-Agrees st0 (parse_value f (depth + 1)) (parse_value_stream f (depth + 1))
        (parse_members f depth) (parse_object_stream f depth (length st0.seen))
        (λ st j. value-Agrees f (depth + 1) st j) (λ n st j c. members-Agree f depth st0 n st j c) m
        st i b

  items-Agree :
      (f depth : ℕ) (st0 : Stream) (xs : Items) (st : Stream) (i : Input)
      → Listing st0 xs st
      → Agrees st0 ordered (parse_items f depth xs i) (parse_array_stream f depth st i)
  items-Agree zero depth st0 xs st i b = refl
  items-Agree (suc f) depth st0 xs st i b =
      item_round-Agrees st0 (parse_value f (depth + 1)) (parse_value_stream f (depth + 1))
        (parse_items f depth) (parse_array_stream f depth) (λ st j. value-Agrees f (depth + 1) st j)
        (λ ys st j c. items-Agree f depth st0 ys st j c) xs st i b

at_end-Agrees :
    (st st' : Stream) (v : Json) (i : Input)
    → Follows st (ordered v) st'
    → Agrees st ordered (at_end v i) (at_end st' i)
unfolding at_end error
at_end-Agrees st st' v i f = go (is_empty i.rest)
  where
    go :
        (b : Bool)
        → Agrees st ordered
            (if b then ok (v, i) else error (codes "unexpected trailing content") i)
            (if b then ok (st', i) else error (codes "unexpected trailing content") i)
    go true = (st', refl, f)
    go false = refl

abbrev whole_value : Str → Result (Json × Input)
whole_value text =
    (do skip; v ← parse_value (fuel_for (as_bytes text)) 0; skip; at_end v) (start (as_bytes text))

abbrev whole_stream : Str → Result (Stream × Input)
whole_stream text =
    (do skip; st ← parse_value_stream (fuel_for (as_bytes text)) 0 initial; skip; at_end st)
      (start (as_bytes text))

whole-Agrees : (text : Str) → Agrees initial ordered (whole_value text) (whole_stream text)
whole-Agrees text =
    let fuel = fuel_for (as_bytes text) in
    shared-Agrees initial ordered skip _ _ (start (as_bytes text)) λ _ i1.
      bind-Agrees initial ordered initial ordered (parse_value fuel 0)
        (parse_value_stream fuel 0 initial) _ _ i1 (value-Agrees fuel 0 initial i1)
        λ v st i2 f.
          shared-Agrees initial ordered skip _ _ i2 λ _ i3. at_end-Agrees initial st v i3 f

finish-Agrees :
    (text : Str) (r : Result (Json × Input)) (s : Result (Stream × Input))
    → parse text ≡ value_of r
    → Agrees initial ordered r s
    → finish text (value_of s) ≡ map_ok ordered (parse text)
unfolding value_of finish
finish-Agrees text (ok (v, i)) s p (st, e, f) =
    ap (λ r. finish text (value_of r)) e ∙ written (Bool-cases st.repeated)
  where
    written :
        (st.repeated ≡ true) ⊎ (st.repeated ≡ false)
        → finish text (ok st) ≡ map_ok ordered (parse text)
    written (inl h) = ground arith
    written (inr h) =
        ap (λ b. if b then map_ok ordered (parse text) else ok st.out) h
        ∙ ap ok (f.wrote h)
        ∙ ap (map_ok ordered) (sym p)
finish-Agrees text (err e) s p q =
    ap (λ r. finish text (value_of r)) q ∙ ap (map_ok ordered) (sym p)
finish-Agrees text Result.panic s p q =
    ap (λ r. finish text (value_of r)) q ∙ ap (map_ok ordered) (sym p)
finish-Agrees text Result.out_of_fuel s p q =
    ap (λ r. finish text (value_of r)) q ∙ ap (map_ok ordered) (sym p)

-- For every text, the one-pass writer returns what parsing the text and writing the value returns:
-- the same text, or the same error message at the same offset.
pub ordered_stream-parse : (text : Str) → ordered_stream text ≡ map_ok ordered (parse text)
ordered_stream-parse text =
    unfold ordered_stream parse in
    finish-Agrees text (whole_value text) (whole_stream text) refl (whole-Agrees text)
