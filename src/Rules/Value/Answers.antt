-- ===== src/Rules/Value/Answers.antt =====
-- Answers of src/rules/value.rs: what is read from JSON and rendered back.
use colander.Prelude.{◌^◌, ◌≡◌, refl, Str, ok}
use colander.Prelude.Int.{ℤ}
use colander.Text.Decimal.{show_int}
use colander.Codec.Wire.{Fits}
use colander.Json.{Json, Items, number, string, array, object, nil, cons}
use colander.Json.Access.{integer}
use colander.Json.Access.Integers.{as_i64-show_int}
use colander.Rules.Value.{
  Val, Vals, null, boolean, text, int, list, no_vals, val, number_val, from_json_element,
  from_json_elements, to_json, to_items,
}
use colander.Floats.{Floats}

-- Answers with no object inside, whose numbers are the prints of i64 values.
unfoldable mutual
  pub IsPlain : Json → Type 0
  IsPlain Json.null = Unit
  IsPlain (Json.boolean b) = Unit
  IsPlain (string s) = Unit
  IsPlain (number s) = (z : ℤ) × Fits (2 ^ 64) z × (s ≡ show_int z)
  IsPlain (array items) = ArePlain items
  IsPlain (object map) = ⊥

  pub ArePlain : Items → Type 0
  ArePlain nil = Unit
  ArePlain (cons x xs) = IsPlain x × ArePlain xs

module _ {F : Type 0} (floats : Floats F) where
  abbrev Returns : Json → Type 0
  Returns j = (v : Val F) × (from_json_element floats j ≡ ok v) × (to_json floats v ≡ ok j)

  abbrev ReturnsAll : Items → Type 0
  ReturnsAll xs =
      (vs : Vals F) × (from_json_elements floats xs ≡ ok vs) × (to_items floats vs ≡ ok xs)

  number-Returns : (s : Str) (z : ℤ) → Fits (2 ^ 64) z → s ≡ show_int z → Returns (number s)
  unfolding from_json_element number_val to_json integer
  number-Returns s z fits e = (int z, rw (e, as_i64-show_int z fits) refl, rw e refl)

  mutual
    unfolding from_json_element to_json IsPlain

    value-Returns : (j : Json) → IsPlain j → Returns j
    value-Returns Json.null h = (null, refl, refl)
    value-Returns (Json.boolean b) h = (boolean b, refl, refl)
    value-Returns (string s) h = (text s, refl, refl)
    value-Returns (number s) (z, fits, e) = number-Returns s z fits e
    value-Returns (array items) h =
        let (vs, e, e') = items-ReturnsAll items h in (list vs, rw e refl, rw e' refl)
    value-Returns (object map) h = absurd h

    items-ReturnsAll : (xs : Items) → ArePlain xs → ReturnsAll xs
    items-ReturnsAll nil h = (no_vals, refl, refl)
    items-ReturnsAll (cons x xs) (hx, hxs) =
        let (v, e, e') = value-Returns x hx in
        let (vs, q, q') = items-ReturnsAll xs hxs in (val v vs, rw (e, q) refl, rw (e', q') refl)

-- An answer with no object inside whose numbers are i64 values is accepted as a value, and the value
-- is rendered as that answer.
pub to_json-from_json_element :
    {F : Type 0} (floats : Floats F) (j : Json)
    → IsPlain j
    → (v : Val F) × (from_json_element floats j ≡ ok v) × (to_json floats v ≡ ok j)
to_json-from_json_element floats j h = value-Returns floats j h
