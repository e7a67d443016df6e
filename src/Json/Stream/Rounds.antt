-- ===== src/Json/Stream/Rounds.antt =====
-- One round of each loop of the streaming parser agrees with the round that builds the value.
pub mod Members
pub mod Arrays
use colander.Prelude.{
  Str, [], ◌∷◌, ◌++◌, ◌≡◌, refl, ◌∙◌, append_assoc, append-nil, true, false, Bool,
}
use colander.Json.{Json, Items, JsonMap, object, array, nil, cons, empty, entry, push}
use colander.Json.Map.{append_entry}
use colander.Json.Escape.{write_string}
use colander.Json.Write.{ordered, ordered_entries, ordered_items, separator}

-- what stands behind the bracket at the head of the loop
abbrev pub head_text : JsonMap → Str
head_text empty = []
head_text (entry k v m) = ordered_entries true (entry k v m) ++ b',' ∷ []

abbrev pub head_items : Items → Str
head_items nil = []
head_items (cons x xs) = ordered_items true (cons x xs) ++ b',' ∷ []

-- the entry that one round writes
abbrev pub member_text : Str → Json → Str
member_text k v = write_string k ++ b':' ∷ ordered v

pub ordered_object :
    (m : JsonMap) → ordered (object m) ≡ b'{' ∷ (ordered_entries true m ++ b'}' ∷ [])
unfolding ordered
ordered_object m = refl

pub ordered_array : (xs : Items) → ordered (array xs) ≡ b'[' ∷ (ordered_items true xs ++ b']' ∷ [])
unfolding ordered
ordered_array xs = refl

entries_behind :
    (first : Bool) (j : Str) (w : Json) (m : JsonMap) (k : Str) (v : Json)
    → ordered_entries first (entry j w (append_entry m k v))
      ≡ ordered_entries first (entry j w m) ++ b',' ∷ member_text k v
unfolding ordered append_entry
entries_behind first j w empty k v = simp (append_assoc, append-nil)
entries_behind first j w (entry l u m) k v = simp (entries_behind false l u m k v, append_assoc)

pub ordered_entries-append_entry :
    (m : JsonMap) (k : Str) (v : Json)
    → ordered_entries true (append_entry m k v) ≡ head_text m ++ member_text k v
unfolding append_entry
ordered_entries-append_entry empty k v = unfold ordered in simp append-nil
ordered_entries-append_entry (entry j w m) k v = entries_behind true j w m k v ∙ simp append_assoc

items_behind :
    (first : Bool) (x : Json) (xs : Items) (v : Json)
    → ordered_items first (cons x (push xs v)) ≡ ordered_items first (cons x xs) ++ b',' ∷ ordered v
unfolding ordered push
items_behind first x nil v = simp (append_assoc, append-nil)
items_behind first x (cons y ys) v = simp (items_behind false y ys v, append_assoc)

pub ordered_items-push :
    (xs : Items) (v : Json) → ordered_items true (push xs v) ≡ head_items xs ++ ordered v
unfolding push
ordered_items-push nil v = unfold ordered in simp append-nil
ordered_items-push (cons x xs) v = items_behind true x xs v ∙ simp append_assoc

-- behind the entry stands a comma at the head of the next round
pub head_text-append_entry :
    (m : JsonMap) (k : Str) (v : Json)
    → head_text (append_entry m k v) ≡ head_text m ++ (member_text k v ++ b',' ∷ [])
unfolding append_entry
head_text-append_entry m k v =
    head_text_by m k v ∙ rw (ordered_entries-append_entry m k v) (simp append_assoc)
  where
    head_text_by :
        (n : JsonMap) (j : Str) (w : Json)
        → head_text (append_entry n j w) ≡ ordered_entries true (append_entry n j w) ++ b',' ∷ []
    head_text_by empty j w = refl
    head_text_by (entry l u n) j w = refl

pub head_items-push :
    (xs : Items) (v : Json) → head_items (push xs v) ≡ head_items xs ++ (ordered v ++ b',' ∷ [])
unfolding push
head_items-push xs v = head_by xs v ∙ rw (ordered_items-push xs v) (simp append_assoc)
  where
    head_by :
        (ys : Items) (w : Json)
        → head_items (push ys w) ≡ ordered_items true (push ys w) ++ b',' ∷ []
    head_by nil w = refl
    head_by (cons y ys) w = refl
