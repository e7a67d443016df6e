-- ===== src/Lib.antt =====
-- colander: a portable form runtime. It compiles form documents, evaluates rules over answers,
-- validates answers and JSON, and exports a C interface. Everything is a pure function of the texts
-- that a request carries, so the library has no state between calls.
--
-- The parts that are modelled, and where each stands:
--
-- - Json (src/json.rs, src/json/parse.rs, src/json/write.rs). `Json` is the value type: a number is
--   the text of its literal, and a `JsonMap` is its entries in insertion order, as `IndexMap` keeps
--   them. `Json/Map.antt` has the map operations, `Json/Access.antt` the accessors. `Json/Escape.antt`
--   and `Json/Write.antt` are the writers `ordered`, `canonical` and `sorted_keys`. `Json/Input.antt`,
--   `Json/Numbers.antt`, `Json/Strings.antt` and `Json/Parse.antt` are the parser that builds values,
--   `Json/Stream.antt` the one-pass canonicaliser `ordered_stream` that hashing uses.
-- - Semver (src/semver.rs): parsing, printing and ordering component versions, the next version.
-- - Index (src/index.rs): the indexes over the fields of a form; `Index/Answers.antt` is the one that
--   the response validator walks.
-- - Semantic (src/semantic.rs): the repeaters of a form and what the rules derive from it.
-- - Rules (src/rules/refs.rs, src/rules/shape.rs, src/rules/analyze.rs): `Rules/Refs.antt` collects the
--   codes that an expression reads and checks their row scope, `Rules/Shape.antt` is the shape gate,
--   `Rules/Sort.antt` the topological sort, `Rules/Analyze.antt` and `Rules/Checked.antt` the analysis.
--   They take the indexes from Semantic.
-- - Codec (src/codec.rs, src/codec/json.rs, src/codec/messagepack.rs): `Codec/MessagePack.antt` is the
--   encoder, `Codec/MessagePack/Reader.antt` the decoder and `Codec/Wire.antt` the bytes of numbers.
-- - Validate (src/validate.rs, src/validate/): `Validate/Datetime.antt` reads dates and times,
--   `Validate/Conversion.antt` and `Validate/Constraints.antt` convert and test the value of a field,
--   `Validate/Fields.antt` composes them, `Validate/Calculated.antt` has the calculated values,
--   `Validate/Repeater.antt` the rows of a repeater, `Validate/Page.antt` the fields of a page and
--   `Validate/Limits.antt` the bounds on errors; `Validate/Response.antt` is `validate_with_semantics`
--   from the evaluated rules on.
-- - Rules (src/rules/value.rs, and `compare_values` of src/rules/expression.rs): `Rules/Value.antt` has
--   the values, `Rules/Value/Equal.antt` their equality and `Rules/Compare.antt` their order.
-- - Hash (src/hash.rs): the text that is hashed and the hexadecimal form; SHA-256 is a parameter.
-- - IndexMap: `IndexMap<String, V>` as its entries in order, and sets of strings.
-- - Text: what the source uses of the standard library's `str`: `split`, decimal numbers, UTF-8.
-- - Prelude: the shared names, lists, integers, and `Result` with `ColanderError` (src/error.rs).
--
-- How the source is read:
--
-- - A Rust string is the list of its code points (`Str`). The input of the JSON parser is the list of
--   bytes of its text (`as_bytes`), and the parser's state is the bytes not yet read with the byte
--   offset, so that messages carry the offsets of the source.
-- - A `Result` has two outcomes beside `ok` and `err`: `panic`, and `out_of_fuel` for a model whose
--   fuel did not suffice. A mutable output buffer is an accumulator, or the text that is appended.
-- - `i32` arithmetic wraps around, as in the release profile, which has no overflow checks.
-- - The JSON parsers recur on fuel: twice the bytes of the text and two, since a nested value or a
--   further member is read only behind a byte that was consumed, with at most two calls for it. The
--   reader of strings has one round for each byte that is left, and each round but the last takes two.
-- - Sorting by key is insertion sort: the keys of a map differ, so every sort gives the same list.
-- - A recursion over form fields or rule arguments goes through a lookup of `items` or `args`. It is
--   written as a walk of the entries to that key, so that it ends by structure and needs no fuel. The
--   text of a floating point number is parsed by a parameter, `parse_f64`.
-- - The loop of the topological sort has the number of calculated fields as fuel: a field is put in
--   the queue where its degree comes to 0, and a degree only falls.
-- - Floating point numbers are a parameter (`Floats.antt`): a type with the operations of the standard
--   library that the source calls. The slices and the `expect` of `format_double` are kept as panics.
-- - The MessagePack decoder recurs on the same fuel: each value takes its tag.
-- - A slice of a string by bytes panics off a character boundary: `slice_bytes` in
--   `Validate/Datetime/Offset.antt` counts the bytes of the characters.
-- - `IndexMap`, `HashSet` and `Vec` are lists with the operations that their documentation describes,
--   such as an insertion that keeps the position of a known key. These are not code of the repository,
--   so no result is about them.
--
-- Not modelled: SHA-256, regular expressions, the C interface with its memory, and the parts of the form
-- engine that the components of the manifest name as such.
pub mod Prelude
pub mod Text
pub mod Semver
pub mod Json
pub mod IndexMap
pub mod Index
pub mod Semantic
pub mod Rules
pub mod Floats
pub mod Codec
pub mod Validate
pub mod Hash
