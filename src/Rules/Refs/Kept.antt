-- ===== src/Rules/Refs/Kept.antt =====
-- What holds of a list and is kept by every visit is kept by a collector of src/rules/refs.rs.
use colander.Prelude.{
  ◌≡◌, refl, sym, subst, Bool, true, false, Str, some, codes, arith, str_eq, Bool-cases, inl, inr,
}
use colander.Json.{
  Json, Items, JsonMap, null, boolean, number, string, object, array, nil, cons, empty, entry,
}
use colander.Json.Map.{get}
use colander.Rules.Refs.{
  References, Visit, stop, descend, collect, collect_args, collect_array, collect_each,
}

module _ (visit : JsonMap → References → Visit) where
  pub collect_args-get :
      (node : JsonMap) (args : Items) (references : References)
      → get node (codes "args") ≡ some (array args)
      → collect_args visit node references ≡ collect_each visit args references
  unfolding collect_args collect_array get
  collect_args-get empty args references h = absurd (cc)
  collect_args-get (entry key value rest) args references h =
      elim (Bool-cases (str_eq key (codes "args"))) [
        | inl e ↦
            rw (e, collect_args)
              (let same : value ≡ array args = ground arith in
                subst (λ v. collect_array visit v references ≡ collect_each visit args references)
                  (sym same) refl)
        | inr e ↦ rw (e, collect_args) (collect_args-get rest args references (ground arith))
      ]

  -- A property of the list that every visit keeps is kept by the walk.
  module _ {ℓ} (P : References → Type ℓ)
      (kept : (node : JsonMap) (references found : References)
        → visit node references ≡ stop found
        → P references
        → P found) where
    object_kept :
        (v : Visit) (node : JsonMap) (references : References)
        → visit node references ≡ v
        → P references
        → P (collect_args visit node references)
        → P (collect visit (object node) references)
    unfolding collect
    object_kept (stop found) node references e p q =
        rw (e, collect) (kept node references found e p)
    object_kept descend node references e p q = rw (e, collect) q

    named_kept :
        (b : Bool) (key : Str) (value : Json) (rest : JsonMap) (references : References)
        → str_eq key (codes "args") ≡ b
        → P (collect_array visit value references)
        → P (collect_args visit rest references)
        → P (collect_args visit (entry key value rest) references)
    unfolding collect_args
    named_kept true key value rest references e p q = rw (e, collect_args) p
    named_kept false key value rest references e p q = rw (e, collect_args) q

    mutual
      unfolding collect collect_args collect_array collect_each

      pub collect_kept :
          (e : Json) (references : References) → P references → P (collect visit e references)
      collect_kept (object node) references p =
          object_kept (visit node references) node references refl p
            (collect_args_kept node references p)
      collect_kept null references p = p
      collect_kept (boolean b) references p = p
      collect_kept (number b) references p = p
      collect_kept (string b) references p = p
      collect_kept (array b) references p = p

      pub collect_args_kept :
          (node : JsonMap) (references : References)
          → P references
          → P (collect_args visit node references)
      collect_args_kept empty references p = p
      collect_args_kept (entry key value rest) references p =
          named_kept (str_eq key (codes "args")) key value rest references refl
            (collect_array_kept value references p) (collect_args_kept rest references p)

      collect_array_kept :
          (v : Json) (references : References) → P references → P (collect_array visit v references)
      collect_array_kept (array args) references p = collect_each_kept args references p
      collect_array_kept (object node) references p = p
      collect_array_kept null references p = p
      collect_array_kept (boolean b) references p = p
      collect_array_kept (number b) references p = p
      collect_array_kept (string b) references p = p

      pub collect_each_kept :
          (args : Items) (references : References)
          → P references
          → P (collect_each visit args references)
      collect_each_kept nil references p = p
      collect_each_kept (cons arg rest) references p =
          collect_each_kept rest (collect visit arg references) (collect_kept arg references p)
