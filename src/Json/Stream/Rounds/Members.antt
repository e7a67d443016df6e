-- ===== src/Json/Stream/Rounds/Members.antt =====
-- The loop of `parse_object_stream` (src/json/parse.rs).
use colander.Prelude.{
  ℕ, ◌≡◌, refl, ap, sym, subst, ◌∙◌, true, false, Str, List, [], ◌∷◌, ◌++◌, arith, length, take,
  drop, any, append_assoc, Bool-cases, inl, inr, drop-length, take-length, Result, ok, codes,
}
use colander.Json.{Json, JsonMap, object}
use colander.Json.Map.{contains_key, insert, append_entry, insert-new}
use colander.Json.Escape.{write_string}
use colander.Json.Write.{ordered}
use colander.Json.Input.{Input, Parser, ◌>>=◌, pure, over, skip, expect}
use colander.Json.Strings.{parse_string}
use colander.Json.Strings.Sinks.{write_string_stream-over}
use colander.Json.Parse.{member_round}
use colander.Json.Stream.{
  Stream, SeenKey, hash_bytes, slice, is_same_key, note_key, key_stream, member_round_stream,
  push_out, truncate,
}
use colander.Json.Stream.Keys.{
  Recorded, Recorded-append, Recorded-append_entry, any-Recorded, slice_last,
}
use colander.Json.Stream.Agree.{
  ne-of-true, contra, Follows, Agrees, shared-Agrees, over-Agrees, bind-Agrees, after_value-Agrees,
}
use colander.Json.Stream.Rounds.{
  head_text, member_text, ordered_entries-append_entry, head_text-append_entry, ordered_object,
}

abbrev Recording : Stream → JsonMap → Stream → Type 0
Recording st0 m st = (es : List SeenKey) × (st.seen ≡ st0.seen ++ es) × Recorded st.out m es

-- the state at the head of a round, when the members so far are those of `m`
pub record Building (st0 : Stream) (m : JsonMap) (st : Stream) : Type 0 where
  pub keeps : st0.repeated ≡ true → st.repeated ≡ true
  pub wrote : st.repeated ≡ false → st.out ≡ st0.out ++ b'{' ∷ head_text m
  pub recorded : st.repeated ≡ false → Recording st0 m st

-- the state behind a key
record Noted (st0 : Stream) (m : JsonMap) (k : Str) (st : Stream) : Type 0 where
  keeps : st0.repeated ≡ true → st.repeated ≡ true
  wrote : st.repeated ≡ false → st.out ≡ st0.out ++ b'{' ∷ (head_text m ++ write_string k)
  fresh : st.repeated ≡ false → contains_key m k ≡ false
  recorded : (v : Json) → st.repeated ≡ false → Recording st0 (append_entry m k v) st

module _ (mark start : ℕ) (st : Stream) where
  note_repeated : st.repeated ≡ true → note_key mark start st ≡ st
  unfolding note_key
  note_repeated h = ground arith

  note_found :
      (token : Str)
      → slice st.out start (length st.out) ≡ token
      → st.repeated ≡ false
      → any (is_same_key st.out token) (drop mark st.seen) ≡ true
      → note_key mark start st ≡ record st { repeated = true }
  unfolding note_key
  note_found token e h k = ground arith

  note_new :
      (token : Str)
      → slice st.out start (length st.out) ≡ token
      → st.repeated ≡ false
      → any (is_same_key st.out token) (drop mark st.seen) ≡ false
      → note_key mark start st
        ≡ record st { seen = st.seen ++ (hash_bytes token, start, length st.out) ∷ [] }
  unfolding note_key
  note_new token e h k = ground arith

-- the state in which a key is noted, the text of its token in place
abbrev with_key : Stream → Str → Stream
with_key st k = record st { out = st.out ++ write_string k }

found-Noted :
    (st0 : Stream) (m : JsonMap) (k : Str) (st : Stream) → st.repeated ≡ true → Noted st0 m k st
found-Noted st0 m k st h = record {
  keeps = λ _. h;
  wrote = λ e. absurd (ne-of-true h e);
  fresh = λ e. absurd (ne-of-true h e);
  recorded = λ v e. absurd (ne-of-true h e);
}

new-Noted :
    (st0 : Stream) (m : JsonMap) (k : Str) (st : Stream)
    → Building st0 m st
    → st.repeated ≡ false
    → contains_key m k ≡ false
    → Noted st0 m k (record (with_key st k) {
      seen =
          st.seen
          ++ (hash_bytes (write_string k), length st.out, length (st.out ++ write_string k)) ∷ [];
    })
new-Noted st0 m k st b h c =
    let (es, e, r) = b.recorded h in
    record {
      keeps = b.keeps;
      wrote = λ _. rw (b.wrote h) (simp append_assoc);
      fresh = λ _. c;
      recorded = λ v _. (
        es ++ (hash_bytes (write_string k), length st.out, length (st.out ++ write_string k)) ∷ [],
        rw e (simp append_assoc),
        Recorded-append_entry (st.out ++ write_string k) m es k v (length st.out)
            (length (st.out ++ write_string k)) (Recorded-append st.out (write_string k) m es r)
            (slice_last st.out (write_string k)) (omega arith),
      );
    }

missing_key :
    (st0 : Stream) (m : JsonMap) (k : Str) (st : Stream)
    → Building st0 m st
    → st.repeated ≡ false
    → any (is_same_key (st.out ++ write_string k) (write_string k)) (drop (length st0.seen) st.seen)
      ≡ false
    → contains_key m k ≡ false
missing_key st0 m k st b h missing = elim (Bool-cases (contains_key m k)) [
  | inl known ↦
      let (es, e, r) = b.recorded h in
      let found =
        any-Recorded (st.out ++ write_string k) m es k
          (Recorded-append st.out (write_string k) m es r) known in
      let behind : drop (length st0.seen) st.seen ≡ es = rw e (drop-length st0.seen es) in
      absurd (
        ne-of-true found (
          ap (any (is_same_key (st.out ++ write_string k) (write_string k))) (sym behind)
          ∙ missing))
  | inr new ↦ new
]

note_key-Noted :
    (st0 : Stream) (m : JsonMap) (k : Str) (st : Stream)
    → Building st0 m st
    → Noted st0 m k (note_key (length st0.seen) (length st.out) (with_key st k))
note_key-Noted st0 m k st b = elim (Bool-cases st.repeated) [
  | inl rep ↦
      subst (Noted st0 m k)
        (sym (note_repeated (length st0.seen) (length st.out) (with_key st k) rep))
        (found-Noted st0 m k (with_key st k) rep)
  | inr new ↦
      elim (Bool-cases (
        any (is_same_key (st.out ++ write_string k) (write_string k))
          (drop (length st0.seen) st.seen))) [
            | inl found ↦
                subst (Noted st0 m k)
                  (sym (
                    note_found (length st0.seen) (length st.out) (with_key st k) (write_string k)
                      (slice_last st.out (write_string k)) new found))
                  (found-Noted st0 m k (record (with_key st k) { repeated = true }) refl)
            | inr missing ↦
                subst (Noted st0 m k)
                  (sym (
                    note_new (length st0.seen) (length st.out) (with_key st k) (write_string k)
                      (slice_last st.out (write_string k)) new missing))
                  (new-Noted st0 m k st b new (missing_key st0 m k st b new missing))
          ]
]

module _ (st0 : Stream) (m : JsonMap) (k : Str) (v : Json) (st1 st2 : Stream)
    (n : Noted st0 m k st1) (f : Follows (push_out st1 (b':' ∷ [])) (ordered v) st2) where
  not_before : st2.repeated ≡ false → st1.repeated ≡ false
  not_before = contra f.keeps

  inserted : st2.repeated ≡ false → insert m k v ≡ append_entry m k v
  inserted h = insert-new m k v (n.fresh (not_before h))

  written : st2.repeated ≡ false → st2.out ≡ st0.out ++ b'{' ∷ (head_text m ++ member_text k v)
  written h = rw (f.wrote h) (rw (n.wrote (not_before h)) (simp append_assoc))

  -- Behind a value and a comma the loop is at its head again.
  next-Building : Building st0 (insert m k v) (push_out st2 (b',' ∷ []))
  next-Building = record {
    keeps = λ e. f.keeps (n.keeps e);
    wrote = λ h.
        rw (written h) (rw (inserted h) (rw (head_text-append_entry m k v) (simp append_assoc)));
    recorded = λ h.
        let (es, e, r) = n.recorded v (not_before h) in
        (
          es,
          f.restores h ∙ e,
          subst (λ o. Recorded (o ++ b',' ∷ []) (insert m k v) es) (sym (f.wrote h))
              (subst (λ n. Recorded ((push_out st1 (b':' ∷ [])).out ++ ordered v ++ b',' ∷ []) n es)
                (sym (inserted h))
                (rw append_assoc
                  (rw append_assoc (Recorded-append st1.out _ (append_entry m k v) es r)))),
        );
  }

  -- Behind the closing brace the object is written, and its keys are forgotten.
  done-Follows :
      Follows st0
        (ordered (object (insert m k v)))
        (truncate (length st0.seen) (push_out st2 (b'}' ∷ [])))
  done-Follows = record {
    keeps = λ e. f.keeps (n.keeps e);
    wrote = λ h. rw (written h) (
        rw (inserted h)
          (rw ordered_object (rw (ordered_entries-append_entry m k v) (simp append_assoc))));
    restores = λ h.
        let (es, e, r) = n.recorded v (not_before h) in
        ap (take (length st0.seen)) (f.restores h ∙ e) ∙ take-length st0.seen es;
  }

key_stream-over :
    (mark : ℕ) (st : Stream) (i : Input)
    → key_stream mark st i
      ≡ over (λ k. note_key mark (length st.out) (with_key st k)) (parse_string i)
unfolding key_stream
key_stream-over mark st i =
    ap
      (λ r.
        ((λ (_ : Input). r) >>= λ o. pure (note_key mark (length st.out) (record st { out = o })))
          i)
      (write_string_stream-over st.out i)
    ∙ go (parse_string i)
  where
    go :
        (r : Result (Str × Input))
        → ((λ (_ : Input). over (λ s. st.out ++ write_string s) r) >>= λ o.
              pure (note_key mark (length st.out) (record st { out = o })))
            i
          ≡ over (λ k. note_key mark (length st.out) (with_key st k)) r
    go (ok (k, j)) = refl
    go (Result.err e) = refl
    go Result.panic = refl
    go Result.out_of_fuel = refl

-- A round agrees if the value and the rest of the loop do.
pub member_round-Agrees :
    (st0 : Stream) (element : Parser Json) (element_s : Stream → Parser Stream)
    (again : JsonMap → Parser Json) (again_s : Stream → Parser Stream)
    → ((st : Stream) (i : Input) → Agrees st ordered (element i) (element_s st i))
    → ((m : JsonMap) (st : Stream) (i : Input)
        → Building st0 m st
        → Agrees st0 ordered (again m i) (again_s st i))
    → (m : JsonMap) (st : Stream) (i : Input) → Building st0 m st
    → Agrees st0 ordered
        (member_round element again m i)
        (member_round_stream element_s again_s (length st0.seen) st i)
unfolding member_round member_round_stream
member_round-Agrees st0 element element_s again again_s he ha m st i b =
    shared-Agrees st0 ordered skip _ _ i λ _ i1.
      over-Agrees st0 ordered (λ k. note_key (length st0.seen) (length st.out) (with_key st k))
        parse_string (key_stream (length st0.seen) st) _ _ i1
        (key_stream-over (length st0.seen) st i1)
        λ k i2. shared-Agrees st0 ordered skip _ _ i2 λ _ i3.
          shared-Agrees st0 ordered (expect b':') _ _ i3 λ _ i4.
            shared-Agrees st0 ordered skip _ _ i4 λ _ i5.
              let st1 = note_key (length st0.seen) (length st.out) (with_key st k) in
              let n = note_key-Noted st0 m k st b in
              bind-Agrees st0 ordered (push_out st1 (b':' ∷ [])) ordered element
                (element_s (push_out st1 (b':' ∷ []))) _ _ i5 (he (push_out st1 (b':' ∷ [])) i5)
                λ v st2 i6 f. shared-Agrees st0 ordered skip _ _ i6 λ _ i7.
                  after_value-Agrees st0 ordered b'}' (codes "expected ',' or '}'")
                    (again (insert m k v)) _ (again_s (push_out st2 (b',' ∷ []))) _ i7
                    (λ j.
                      ha (insert m k v) (push_out st2 (b',' ∷ [])) j
                        (next-Building st0 m k v st1 st2 n f))
                    (λ j. (
                      truncate (length st0.seen) (push_out st2 (b'}' ∷ [])),
                      refl,
                      done-Follows st0 m k v st1 st2 n f,
                    ))
