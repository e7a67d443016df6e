-- ===== src/Json.antt =====
-- src/json.rs: the value domain. A map is its entries in insertion order (`IndexMap`), a number the
-- text of its literal.
pub mod Map
pub mod Access
pub mod Escape
pub mod Write
pub mod Double
pub mod Input
pub mod Numbers
pub mod Strings
pub mod Parse
pub mod Stream
mod Tests
use colander.Prelude.{ℕ, zero, suc, Bool, Str, List, [], ◌∷◌}

mutual
  pub data Json : Type 0 where
    null : Json
    boolean : Bool → Json
    number : Str → Json
    string : Str → Json
    array : Items → Json
    object : JsonMap → Json

  pub data Items : Type 0 where
    nil : Items
    cons : Json → Items → Items

  pub data JsonMap : Type 0 where
    empty : JsonMap
    entry : Str → Json → JsonMap → JsonMap

-- `Vec::push`
unfoldable pub push : Items → Json → Items
push nil v = cons v nil
push (cons x xs) v = cons x (push xs v)

unfoldable pub to_list : Items → List Json
to_list nil = []
to_list (cons x xs) = x ∷ to_list xs

unfoldable pub items_length : Items → ℕ
items_length nil = 0
items_length (cons x xs) = suc (items_length xs)
