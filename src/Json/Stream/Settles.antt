-- ===== src/Json/Stream/Settles.antt =====
-- `ordered_stream` (src/json/parse.rs) answers for every text.
use colander.Prelude.{Str, ◌∙◌, ap, inl, inr, map_ok}
use colander.Json.Write.{ordered}
use colander.Json.Parse.Total.{Settles, parse-Settles}
use colander.Json.Stream.{ordered_stream}
use colander.Json.Stream.Correct.{ordered_stream-parse}

-- For every text the one-pass writer returns a text or an error.
pub ordered_stream-Settles : (text : Str) → Settles (ordered_stream text)
ordered_stream-Settles text = elim (parse-Settles text) [
  | inl (v, e) ↦ inl (ordered v, ordered_stream-parse text ∙ ap (map_ok ordered) e)
  | inr (message, e) ↦ inr (message, ordered_stream-parse text ∙ ap (map_ok ordered) e)
]
