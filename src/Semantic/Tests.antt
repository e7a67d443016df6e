-- ===== src/Semantic/Tests.antt =====
-- The theorems on a form's semantics at a concrete form.
use colander.Prelude.{Str, codes}
use colander.Json.{Json, JsonMap, string, object, array, nil, cons, empty, entry}
use colander.Semantic.{repeater_topology}
use colander.Semantic.Topology.{IsSound, repeater_topology-IsSound}

abbrev typed : Str → Str → JsonMap → Json
typed code field_type rest = object (
    entry (codes "id") (string code)
      (entry (codes "code") (string code) (entry (codes "type") (string field_type) rest)))

-- a repeater of one field
abbrev lines : JsonMap
lines =
    entry (codes "fields")
      (array (
        cons
          (typed (codes "lines") (codes "repeater") (
            entry (codes "items") (array (cons (typed (codes "qty") (codes "integer") empty) nil))
              empty))
          nil))
      empty

repeater_topology-IsSound_example : IsSound (repeater_topology lines)
repeater_topology-IsSound_example = repeater_topology-IsSound lines
