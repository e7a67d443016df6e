-- ===== src/Codec/MessagePack/Reader/RoundTrip.antt =====
-- A document that the wire format has room for is read back from its encoding in document order.
use colander.Prelude.{
  ℕ, zero, suc, ◌+◌, ◌*◌, ◌^◌, ◌<◌, ◌≤◌, ◌≡◌, refl, true, false, Str, [], ◌++◌, append-nil, arith,
  ap, length, length-append, subst, ok,
}
use colander.Json.{
  Json, Items, JsonMap, null, boolean, number, string, array, object, nil, cons, empty, entry, push,
  items_length,
}
use colander.Json.Map.{insert-new, append_entry, contains_key, map_length}
use colander.Json.Parse.{max_depth, fuel_for, start, value_of}
use colander.Floats.{Floats}
use colander.Codec.MessagePack.Lengths.{write_value-pos, array_header-pos, map_header-pos}
use colander.Codec.MessagePack.{
  write_value, write_items, encoded_entries, join_encoded, in_order, write_string, array_header,
  map_header, encode_ordered,
}
use colander.Codec.MessagePack.Reader.{
  arm, read_key, read_value, read_array, read_map, read_document, at_end, decode,
}
use colander.Codec.MessagePack.Reader.Reads.{
  Reads, Reads-nil, Reads-bind, Reads-known, at, bind_step,
}
use colander.Codec.MessagePack.Reader.Headers.{
  IsText, Reads-key, Reads-string, Reads-array, Reads-map,
}
use colander.Codec.MessagePack.Reader.Integers.{IsWhole, Reads-number}

-- What is read back at a depth: nesting, lengths and numbers in range, and no repeated key. The map
-- `front` holds the entries in front of those that are tested.
unfoldable mutual
  pub FitsWire : ℕ → Json → Type 0
  FitsWire depth null = depth ≤ max_depth
  FitsWire depth (boolean b) = depth ≤ max_depth
  FitsWire depth (number text) = (depth ≤ max_depth) × IsWhole text
  FitsWire depth (string s) = (depth ≤ max_depth) × IsText s
  FitsWire depth (array items) =
      (depth ≤ max_depth) × (items_length items < 2 ^ 32) × FitsItems (depth + 1) items
  FitsWire depth (object map) =
      (depth ≤ max_depth) × (map_length map < 2 ^ 32) × FitsEntries (depth + 1) empty map

  pub FitsItems : ℕ → Items → Type 0
  FitsItems depth nil = Unit
  FitsItems depth (cons item rest) = FitsWire depth item × FitsItems depth rest

  pub FitsEntries : ℕ → JsonMap → JsonMap → Type 0
  FitsEntries depth front empty = Unit
  FitsEntries depth front (entry key value rest) =
      IsText key
      × (contains_key front key ≡ false)
      × FitsWire depth value
      × FitsEntries depth (append_entry front key value) rest

append_items : Items → Items → Items
append_items nil ys = ys
append_items (cons x xs) ys = cons x (append_items xs ys)

append_items-nil : (xs : Items) → append_items xs nil ≡ xs
unfolding append_items
append_items-nil nil = refl
append_items-nil (cons x xs) = ap (cons x) (append_items-nil xs)

append_items-push :
    (xs ys : Items) (v : Json) → append_items (push xs v) ys ≡ append_items xs (cons v ys)
unfolding append_items push
append_items-push nil ys v = refl
append_items-push (cons x xs) ys v = ap (cons x) (append_items-push xs ys v)

append_map : JsonMap → JsonMap → JsonMap
append_map empty m = m
append_map (entry k v l) m = entry k v (append_map l m)

append_map-empty : (m : JsonMap) → append_map m empty ≡ m
unfolding append_map
append_map-empty empty = refl
append_map-empty (entry k v m) = ap (entry k v) (append_map-empty m)

append_map-entry :
    (l : JsonMap) (key : Str) (v : Json) (m : JsonMap)
    → append_map (append_entry l key v) m ≡ append_map l (entry key v m)
unfolding append_map append_entry
append_map-entry empty key v m = refl
append_map-entry (entry k w l) key v m = ap (entry k w) (append_map-entry l key v m)

module _ (what : Str) {F : Type 0} (floats : Floats F) where
  mutual
    unfolding read_value read_array read_map write_value write_items encoded_entries join_encoded
        in_order FitsWire FitsItems FitsEntries items_length map_length arm append_items append_map

    value-Reads :
        (j : Json) (f depth : ℕ)
        → 2 * length (write_value floats j false) < f
        → FitsWire depth j
        → Reads (read_value what floats f depth) (write_value floats j false) j
    value-Reads j zero depth h fits = absurd (omega arith)
    value-Reads null (suc f) depth h fits = Reads-known what floats depth _ _ 0xC0 null fits refl
    value-Reads (boolean false) (suc f) depth h fits =
        Reads-known what floats depth _ _ 0xC2 (boolean false) fits refl
    value-Reads (boolean true) (suc f) depth h fits =
        Reads-known what floats depth _ _ 0xC3 (boolean true) fits refl
    value-Reads (number text) (suc f) depth h (shallow, whole) =
        Reads-number floats what depth _ _ text shallow whole
    value-Reads (string s) (suc f) depth h (shallow, is_text) =
        Reads-string what floats depth _ _ shallow s is_text
    value-Reads (array items) (suc f) depth h (shallow, room, fits) =
        let header = array_header (items_length items) in
        Reads-array what floats depth _ _ shallow (items_length items)
          (write_items floats items false) (array items) room
          (items-Reads items f depth nil
            (omega (
              arith,
              h,
              length-append header (write_items floats items false),
              array_header-pos (items_length items),
            ))
            fits)
    value-Reads (object map) (suc f) depth h (shallow, room, fits) =
        let payload = join_encoded (encoded_entries floats map false) in
        Reads-map what floats depth _ _ shallow (map_length map) payload (object map) room (
          entries-Reads map f depth empty
            (omega (
              arith,
              h,
              length-append (map_header (map_length map)) payload,
              map_header-pos (map_length map),
            ))
            fits)

    items-Reads :
        (xs : Items) (f depth : ℕ) (front : Items)
        → 2 * length (write_items floats xs false) + 1 < f
        → FitsItems (depth + 1) xs
        → Reads
            (read_array what floats f depth (items_length xs) front)
            (write_items floats xs false)
            (array (append_items front xs))
    items-Reads nil f depth front h fits = rw (append_items-nil front) (Reads-nil (array front))
    items-Reads (cons x xs) zero depth front h fits = absurd (omega arith)
    items-Reads (cons x xs) (suc f) depth front h (fits, rest) =
        let bytes = write_value floats x false in
        let more = write_items floats xs false in
        let len = length-append bytes more in
        Reads-bind (read_value what floats f (depth + 1)) _ bytes more x _
          (value-Reads x f (depth + 1) (omega (arith, h, len)) fits)
          (rw (← append_items-push front xs x) (
            items-Reads xs f depth (push front x)
              (omega (arith, h, len, write_value-pos floats x false)) rest))

    entries-Reads :
        (map : JsonMap) (f depth : ℕ) (front : JsonMap)
        → 2 * length (join_encoded (encoded_entries floats map false)) + 1 < f
        → FitsEntries (depth + 1) front map
        → Reads
            (read_map what floats f depth (map_length map) front)
            (join_encoded (encoded_entries floats map false))
            (object (append_map front map))
    entries-Reads empty f depth front h fits =
        rw (append_map-empty front) (Reads-nil (object front))
    entries-Reads (entry key x rest) zero depth front h fits = absurd (omega arith)
    entries-Reads (entry key x rest) (suc f) depth front h (is_text, new, fits, others) =
        let name = write_string key in
        let bytes = write_value floats x false in
        let more = join_encoded (encoded_entries floats rest false) in
        let len = length-append name (bytes ++ more) in
        let len' = length-append bytes more in
        Reads-bind (read_key what) _ name (bytes ++ more) key _ (Reads-key what key is_text) (
          Reads-bind (read_value what floats f (depth + 1)) _ bytes more x _
            (value-Reads x f (depth + 1) (omega (arith, h, len, len')) fits)
            (rw (insert-new front key x new, ← append_map-entry front key x rest)
              (entries-Reads rest f depth (append_entry front key x)
                (omega (arith, h, len, len', write_value-pos floats x false)) others)))

-- A document that the wire format has room for, with no repeated key, is read back from its
-- encoding in document order, if the encoding is shorter than the address space.
pub decode-encode_ordered :
    {F : Type 0} (floats : Floats F) (j : Json) (what : Str)
    → FitsWire 0 j
    → length (encode_ordered floats j) < 2 ^ 64
    → decode floats (encode_ordered floats j) what ≡ ok j
unfolding decode read_document at_end start value_of encode_ordered
decode-encode_ordered floats j what fits short =
    let bytes = write_value floats j false in
    let fuel = fuel_for bytes in
    let low : length bytes < 2 ^ 64 = short in
    let room : 0 + length bytes < 2 ^ 64 = omega arith in
    let whole : read_value what floats fuel 0 (at bytes 0) ≡ ok (j, at [] (0 + length bytes)) =
      subst (λ s. read_value what floats fuel 0 (at s 0) ≡ ok (j, at [] (0 + length bytes)))
        (append-nil bytes) (value-Reads what floats j fuel 0 (omega arith) fits [] 0 room) in
    ap value_of
      (bind_step (read_value what floats fuel 0) _ (at bytes 0) (at [] (0 + length bytes)) j whole)
