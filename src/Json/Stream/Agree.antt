-- ===== src/Json/Stream/Agree.antt =====
-- When a step of the streaming parser agrees with a step of the parser that builds values.
use colander.Prelude.{
  ℕ, ◌≡◌, ◌≢◌, refl, sym, subst, Bool, true, false, Str, ◌++◌, Result, ok, err, if◌then◌else◌,
}
use colander.Json.Input.{Input, Parser, ◌>>=◌, ◌>>◌, over, error, peek, bump, is_at}
use colander.Json.Strings.{step}
use colander.Json.Parse.{after_value}
use colander.Json.Stream.{Stream}

pub ne-of-true : {b : Bool} → b ≡ true → b ≢ false
ne-of-true e h = cc

pub contra : {a b : Bool} → (a ≡ true → b ≡ true) → b ≡ false → a ≡ false
contra {a = true} f e = absurd (ne-of-true (f refl) e)
contra {a = false} f e = refl

-- Unless a key was repeated, the later state has the text behind the output, and `seen` as it was.
pub record Follows (st : Stream) (text : Str) (st' : Stream) : Type 0 where
  pub keeps : st.repeated ≡ true → st'.repeated ≡ true
  pub wrote : st'.repeated ≡ false → st'.out ≡ st.out ++ text
  pub restores : st'.repeated ≡ false → st'.seen ≡ st.seen

module _ {A : Type 0} (st : Stream) (text : A → Str) where
  -- The same failure, or the same rest of the input and the text of the value written.
  abbrev pub Agrees : Result (A × Input) → Result (Stream × Input) → Type 0
  Agrees (ok (a, i)) s = (st' : Stream) × (s ≡ ok (st', i)) × Follows st (text a) st'
  Agrees (err e) s = s ≡ err e
  Agrees Result.panic s = s ≡ Result.panic
  Agrees Result.out_of_fuel s = s ≡ Result.out_of_fuel

module _ {C : Type 0} (st : Stream) (text : C → Str) where
  -- a step that both make
  pub shared-Agrees :
      {A : Type 0} (p : Parser A) (k : A → Parser C) (k' : A → Parser Stream) (i : Input)
      → ((a : A) (j : Input) → Agrees st text (k a j) (k' a j))
      → Agrees st text ((p >>= k) i) ((p >>= k') i)
  shared-Agrees {A} p k k' i h = go (p i)
    where
      go : (r : Result (A × Input)) → Agrees st text (((λ _. r) >>= k) i) (((λ _. r) >>= k') i)
      go (ok (a, j)) = h a j
      go (err e) = refl
      go Result.panic = refl
      go Result.out_of_fuel = refl

  -- a step whose value the other maps
  pub over-Agrees :
      {A B : Type 0} (g : A → B) (p : Parser A) (q : Parser B) (k : A → Parser C)
      (k' : B → Parser Stream) (i : Input)
      → q i ≡ over g (p i)
      → ((a : A) (j : Input) → Agrees st text (k a j) (k' (g a) j))
      → Agrees st text ((p >>= k) i) ((q >>= k') i)
  over-Agrees {A} {B} g p q k k' i e h =
      subst (λ (s : Result (B × Input)). Agrees st text ((p >>= k) i) (((λ _. s) >>= k') i)) (sym e)
        (go (p i))
    where
      go :
          (r : Result (A × Input))
          → Agrees st text (((λ _. r) >>= k) i) (((λ _. over g r) >>= k') i)
      go (ok (a, j)) = h a j
      go (err e) = refl
      go Result.panic = refl
      go Result.out_of_fuel = refl

  -- a step that agrees
  pub bind-Agrees :
      {A : Type 0} (st1 : Stream) (text1 : A → Str) (p : Parser A) (q : Parser Stream)
      (k : A → Parser C) (k' : Stream → Parser Stream) (i : Input)
      → Agrees st1 text1 (p i) (q i)
      → ((a : A) (st2 : Stream) (j : Input)
          → Follows st1 (text1 a) st2
          → Agrees st text (k a j) (k' st2 j))
      → Agrees st text ((p >>= k) i) ((q >>= k') i)
  bind-Agrees {A} st1 text1 p q k k' i e h = go (p i) (q i) e
    where
      go :
          (r : Result (A × Input)) (s : Result (Stream × Input))
          → Agrees st1 text1 r s
          → Agrees st text (((λ _. r) >>= k) i) (((λ _. s) >>= k') i)
      go (ok (a, j)) s (st2, q, f) =
          subst (λ (s : Result (Stream × Input)). Agrees st text (k a j) (((λ _. s) >>= k') i))
            (sym q) (h a st2 j f)
      go (err e) s q =
          subst (λ (s : Result (Stream × Input)). (((λ _. s) >>= k') i) ≡ err e) (sym q) refl
      go Result.panic s q =
          subst (λ (s : Result (Stream × Input)). (((λ _. s) >>= k') i) ≡ Result.panic) (sym q) refl
      go Result.out_of_fuel s q =
          subst (λ (s : Result (Stream × Input)). (((λ _. s) >>= k') i) ≡ Result.out_of_fuel)
            (sym q) refl

  pub after_value-Agrees :
      (close : ℕ) (message : Str) (again done : Parser C) (again' done' : Parser Stream) (i : Input)
      → ((j : Input) → Agrees st text (again j) (again' j))
      → ((j : Input) → Agrees st text (done j) (done' j))
      → Agrees st text
          (after_value close message again done i)
          (after_value close message again' done' i)
  unfolding after_value step error
  after_value-Agrees close message again done again' done' i h k =
      go (is_at b',' (peek i)) (is_at close (peek i))
    where
      go :
          (b c : Bool)
          → Agrees st text
              (if b then (do step; again) i else if c then (do step; done) i else error message i)
              (if b then (do step; again') i else if c then (do step; done') i else error message i)
      go true c = h (bump i)
      go false true = k (bump i)
      go false false = refl
