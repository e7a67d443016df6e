-- ===== src/Json/Stream/Rounds/Arrays.antt =====
-- The loop of `parse_array_stream` (src/json/parse.rs).
use colander.Prelude.{◌≡◌, refl, ◌∙◌, true, false, [], ◌∷◌, ◌++◌, append_assoc, codes}
use colander.Json.{Json, Items, array, push}
use colander.Json.Write.{ordered}
use colander.Json.Input.{Input, Parser, skip}
use colander.Json.Parse.{item_round}
use colander.Json.Stream.{Stream, item_round_stream, push_out}
use colander.Json.Stream.Agree.{
  contra, Follows, Agrees, shared-Agrees, bind-Agrees, after_value-Agrees,
}
use colander.Json.Stream.Rounds.{head_items, ordered_items-push, head_items-push, ordered_array}

-- the state at the head of a round, when the items so far are `xs`
pub record Listing (st0 : Stream) (xs : Items) (st : Stream) : Type 0 where
  pub keeps : st0.repeated ≡ true → st.repeated ≡ true
  pub wrote : st.repeated ≡ false → st.out ≡ st0.out ++ b'[' ∷ head_items xs
  pub restores : st.repeated ≡ false → st.seen ≡ st0.seen

module _ (st0 : Stream) (xs : Items) (v : Json) (st st1 : Stream) (b : Listing st0 xs st)
    (f : Follows st (ordered v) st1) where
  written : st1.repeated ≡ false → st1.out ≡ st0.out ++ b'[' ∷ (head_items xs ++ ordered v)
  written h = rw (f.wrote h) (rw (b.wrote (contra f.keeps h)) (simp append_assoc))

  -- Behind a value and a comma the loop is at its head again.
  next-Listing : Listing st0 (push xs v) (push_out st1 (b',' ∷ []))
  next-Listing = record {
    keeps = λ e. f.keeps (b.keeps e);
    wrote = λ h. rw (written h) (rw (head_items-push xs v) (simp append_assoc));
    restores = λ h. f.restores h ∙ b.restores (contra f.keeps h);
  }

  -- Behind the closing bracket the array is written.
  done-Follows : Follows st0 (ordered (array (push xs v))) (push_out st1 (b']' ∷ []))
  done-Follows = record {
    keeps = λ e. f.keeps (b.keeps e);
    wrote =
        λ h. rw (written h) (rw ordered_array (rw (ordered_items-push xs v) (simp append_assoc)));
    restores = λ h. f.restores h ∙ b.restores (contra f.keeps h);
  }

-- A round agrees if the value and the rest of the loop do.
pub item_round-Agrees :
    (st0 : Stream) (element : Parser Json) (element_s : Stream → Parser Stream)
    (again : Items → Parser Json) (again_s : Stream → Parser Stream)
    → ((st : Stream) (i : Input) → Agrees st ordered (element i) (element_s st i))
    → ((xs : Items) (st : Stream) (i : Input)
        → Listing st0 xs st
        → Agrees st0 ordered (again xs i) (again_s st i))
    → (xs : Items) (st : Stream) (i : Input) → Listing st0 xs st
    → Agrees st0 ordered (item_round element again xs i) (item_round_stream element_s again_s st i)
unfolding item_round item_round_stream
item_round-Agrees st0 element element_s again again_s he ha xs st i b =
    shared-Agrees st0 ordered skip _ _ i λ _ i1.
      bind-Agrees st0 ordered st ordered element (element_s st) _ _ i1 (he st i1) λ v st1 i2 f.
        shared-Agrees st0 ordered skip _ _ i2 λ _ i3.
          after_value-Agrees st0 ordered b']' (codes "expected ',' or ']'") (again (push xs v)) _
            (again_s (push_out st1 (b',' ∷ []))) _ i3
            (λ j. ha (push xs v) (push_out st1 (b',' ∷ [])) j (next-Listing st0 xs v st st1 b f))
            (λ j. (push_out st1 (b']' ∷ []), refl, done-Follows st0 xs v st st1 b f))
