-- ===== src/Index/Codes.antt =====
-- `build_by_code_from_id` (src/index.rs) takes every field, and refuses a code that comes twice.
use colander.Prelude.{
  ◌≡◌, sym, ◌∙◌, inl, inr, ◌↔◌, false, Str, List, [], ◌∷◌, ◌++◌, map, arith, ok, Bool-cases,
  append_assoc, append-nil, ap, subst,
}
use colander.IndexMap.{
  IndexMap, put, contains_key, keys_of, values, Distinct, Distinct-push, put-new, keys_of-append,
  Distinct-clash, contains-keys_of,
}
use colander.Index.{FieldInfo, codes_from, build_by_code_from_id, duplicate_code}

module _ {F : Type 0} where
  abbrev pub codes_of : List (FieldInfo F) → List Str
  codes_of infos = map (λ info. info.code) infos

  pub entries_of : List (FieldInfo F) → IndexMap (FieldInfo F)
  entries_of [] = []
  entries_of (info ∷ infos) = (info.code, info) ∷ entries_of infos

  keys_of-put_new :
      (by_code : IndexMap (FieldInfo F)) (info : FieldInfo F)
      → contains_key by_code info.code ≡ false
      → keys_of (put by_code info.code info) ≡ keys_of by_code ++ info.code ∷ []
  unfolding keys_of
  keys_of-put_new by_code info h =
      rw (put-new by_code info.code info h) (keys_of-append by_code ((info.code, info) ∷ []))

  moved :
      (rest : List (FieldInfo F)) (by_code : IndexMap (FieldInfo F)) (info : FieldInfo F)
      → contains_key by_code info.code ≡ false
      → keys_of (put by_code info.code info) ++ codes_of rest
        ≡ keys_of by_code ++ codes_of (info ∷ rest)
  moved rest by_code info h =
      rw (keys_of-put_new by_code info h)
        (append_assoc (keys_of by_code) (info.code ∷ []) (codes_of rest))

  moved_entries :
      (rest : List (FieldInfo F)) (by_code : IndexMap (FieldInfo F)) (info : FieldInfo F)
      → contains_key by_code info.code ≡ false
      → put by_code info.code info ++ entries_of rest ≡ by_code ++ entries_of (info ∷ rest)
  unfolding entries_of
  moved_entries rest by_code info h =
      rw (put-new by_code info.code info h)
        (append_assoc by_code ((info.code, info) ∷ []) (entries_of rest))

  -- The loop behind a map whose keys are distinct.
  codes_from-ok :
      (infos : List (FieldInfo F)) (by_code out : IndexMap (FieldInfo F))
      → Distinct (keys_of by_code)
      → codes_from infos by_code ≡ ok out
      → Distinct (keys_of by_code ++ codes_of infos) × (out ≡ by_code ++ entries_of infos)
  unfolding codes_from duplicate_code entries_of
  codes_from-ok [] by_code out d h =
      (rw (append-nil (keys_of by_code)) d, rw (append-nil by_code) cc)
  codes_from-ok (info ∷ rest) by_code out d h = elim (Bool-cases (contains_key by_code info.code)) [
    | inl e ↦ absurd (cc)
    | inr e ↦
        let (d', e') =
          codes_from-ok rest (put by_code info.code info) out
            (rw (keys_of-put_new by_code info e) (
              Distinct-push (keys_of by_code) info.code d (contains-keys_of by_code info.code ∙ e)))
            (ground arith) in
        (subst Distinct (moved rest by_code info e) d', e' ∙ moved_entries rest by_code info e)
  ]

  codes_from-Distinct :
      (infos : List (FieldInfo F)) (by_code : IndexMap (FieldInfo F))
      → Distinct (keys_of by_code ++ codes_of infos)
      → codes_from infos by_code ≡ ok (by_code ++ entries_of infos)
  unfolding codes_from duplicate_code entries_of
  codes_from-Distinct [] by_code d = ap ok (sym (append-nil by_code))
  codes_from-Distinct (info ∷ rest) by_code d = elim (Bool-cases (contains_key by_code info.code)) [
    | inl e ↦ absurd (
        Distinct-clash (keys_of by_code) (codes_of rest) info.code
          (contains-keys_of by_code info.code ∙ e) d)
    | inr e ↦ rw (e) (
        codes_from-Distinct rest (put by_code info.code info)
          (subst Distinct (sym (moved rest by_code info e)) d)
        ∙ ap ok (moved_entries rest by_code info e))
  ]

  -- The index by code exists exactly when the codes of the fields are distinct, and then it has one
  -- entry for each field of the index by id, in its order.
  pub build_by_code_from_id-ok_iff :
      (fields_by_id out : IndexMap (FieldInfo F))
      → (build_by_code_from_id fields_by_id ≡ ok out)
        ↔ (Distinct (codes_of (values fields_by_id)) × (out ≡ entries_of (values fields_by_id)))
  unfolding build_by_code_from_id Distinct keys_of
  build_by_code_from_id-ok_iff fields_by_id out = (
    codes_from-ok (values fields_by_id) [] out tt,
    λ (d, e). codes_from-Distinct (values fields_by_id) [] d ∙ ap ok (sym e),
  )
