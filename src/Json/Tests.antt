-- ===== src/Json/Tests.antt =====
-- Runs of src/json on concrete texts, and the theorems at concrete inputs.
use colander.Prelude.{◌≡◌, refl, Str, codes, ok, fail, str_eq, map_ok, [], ◌++◌}
use colander.Text.Utf8.{as_bytes, from_utf8}
use colander.Text.Decimal.{show_nat}
use colander.Json.{Json, null, number, string, array, object, nil, cons, empty, entry, push}
use colander.Json.Map.{insert}
use colander.Json.Escape.{
  is_unescaped, hex_digit, escape_each, write_string_body-escape_each, write_u16_escape,
  write_units, write_char_escaped, write_string_body, write_string,
}
use colander.Json.Write.{ordered, canonical, join_written, sort_by_key, key_le}
use colander.Json.Input.{skip, expect, read_literal, error, peek, require, over}
use colander.Json.Numbers.{scan_number}
use colander.Json.Strings.{
  value, escaped, read_string, parse_string, parse_escape, parse_unicode_escape, parse_hex4,
  sink_push_str, sink_push_char, at_stop,
}
use colander.Json.Parse.{
  parse, parse_value, guarded_value, lead, enter, member_round, item_round, after_value, unexpected,
}
use colander.Json.Strings.Sinks.{read_string-over}
use colander.Json.Stream.{ordered_stream}
use colander.Json.Stream.Correct.{ordered_stream-parse}
use colander.Json.Stream.Settles.{ordered_stream-Settles}
use colander.Json.Parse.Total.{Settles, parse-Settles}

abbrev sample : Json
sample = object (
    entry (codes "b") (array (cons (number (codes "1.50")) (cons null nil)))
      (entry (codes "a") (string (codes "x<\n")) empty))

ordered_run : ordered sample ≡ codes "{\"b\":[1.50,null],\"a\":\"x\\u003C\\n\"}"
unfolding ordered write_string write_string_body is_unescaped write_char_escaped write_units
    write_u16_escape
ordered_run = refl

canonical_run : canonical sample ≡ codes "{\"a\":\"x\\u003C\\n\",\"b\":[1.50,null]}"
unfolding canonical write_string join_written sort_by_key key_le as_bytes write_string_body
    is_unescaped write_char_escaped write_units write_u16_escape
canonical_run = refl

parse_run : parse (codes " {\"b\" : [1.50, null], \"a\":\"x<\\n\"}") ≡ ok sample
unfolding parse parse_value guarded_value lead enter member_round item_round after_value skip expect
    read_literal scan_number as_bytes from_utf8 parse_string read_string at_stop parse_escape
    sink_push_str sink_push_char insert push str_eq require
parse_run = refl

plus_sign_run : parse (codes "\"\\u+041\"") ≡ ok (string (codes "A"))
unfolding parse parse_value guarded_value lead skip as_bytes from_utf8 parse_string read_string
    at_stop parse_escape sink_push_str sink_push_char parse_unicode_escape parse_hex4 peek expect
    require
plus_sign_run = refl

trailing_comma : parse (codes "[1,]") ≡ fail (codes "unexpected byte 0x5D at byte offset 3.")
unfolding parse parse_value guarded_value lead enter item_round after_value skip expect scan_number
    as_bytes from_utf8 error show_nat unexpected hex_digit
trailing_comma = refl

abbrev repeated_key : Str
repeated_key = codes "{\"a\":1, \"b\":{\"a\":[]}, \"a\":2}"

ordered_stream-parse_example : ordered_stream repeated_key ≡ map_ok ordered (parse repeated_key)
ordered_stream-parse_example = ordered_stream-parse repeated_key

read_string-over_example :
    read_string escaped (codes "{") (record { rest = codes "\"a<\"}"; position = 1 })
    ≡ over
        (λ s. codes "{" ++ write_string_body s)
        (read_string value [] (record { rest = codes "\"a<\"}"; position = 1 }))
read_string-over_example =
    read_string-over (codes "{") (record { rest = codes "\"a<\"}"; position = 1 })

write_string_body-escape_each_example :
    write_string_body (codes "a<b\"") ≡ escape_each (codes "a<b\"")
write_string_body-escape_each_example = write_string_body-escape_each (codes "a<b\"")

parse-Settles_example : Settles (parse repeated_key)
parse-Settles_example = parse-Settles repeated_key

ordered_stream-Settles_example : Settles (ordered_stream repeated_key)
ordered_stream-Settles_example = ordered_stream-Settles repeated_key
