-- ===== src/Rules/Sort.antt =====
-- `topological_sort` of src/rules/analyze.rs (Kahn's algorithm).
use colander.Prelude.{
  ℕ, zero, suc, ◌+◌, ◌==◌, Str, List, [], ◌∷◌, ◌++◌, Option, none, some, length, Result, ok, ◌>>=◌,
  if◌then◌else◌,
}
use colander.IndexMap.{IndexMap, lookup, put}

-- `in_degree` and `dependents`
pub record Graph : Type 0 where
  pub in_degree : IndexMap ℕ
  pub dependents : IndexMap (List Str)

unfoldable pub nodes : List Str → Graph → Graph
nodes [] graph = graph
nodes (field_id ∷ rest) graph = nodes rest (record {
  in_degree = put graph.in_degree field_id 0;
  dependents = put graph.dependents field_id [];
})

-- `*in_degree.get_mut(field_id).expect("present") += 1`
increment : IndexMap ℕ → Str → Option ℕ → Result (IndexMap ℕ)
increment in_degree field_id none = Result.panic
increment in_degree field_id (some degree) = ok (put in_degree field_id (degree + 1))

-- the edge from a dependency that is a node
edge : Graph → Str → Str → Option (List Str) → Result Graph
unfolding increment
edge graph field_id dependency none = ok graph
edge graph field_id dependency (some waiters) = do
  in_degree ← increment graph.in_degree field_id (lookup graph.in_degree field_id)
  ok (record {
    in_degree = in_degree;
    dependents = put graph.dependents dependency (waiters ++ field_id ∷ []);
  })

unfoldable pub edges_of : Graph → Str → List Str → Result Graph
unfolding edge
edges_of graph field_id [] = ok graph
edges_of graph field_id (dependency ∷ rest) = do
  graph' ← edge graph field_id dependency (lookup graph.dependents dependency)
  edges_of graph' field_id rest

deps_of : Option (List Str) → List Str
deps_of none = []
deps_of (some deps) = deps

unfoldable pub edges : Graph → List Str → IndexMap (List Str) → Result Graph
unfolding deps_of
edges graph [] dependencies = ok graph
edges graph (field_id ∷ rest) dependencies = do
  graph' ← edges_of graph field_id (deps_of (lookup dependencies field_id))
  edges graph' rest dependencies

-- the nodes of degree 0, in order
unfoldable pub ready : IndexMap ℕ → List Str
ready [] = []
ready ((field_id, degree) ∷ rest) =
    let later = ready rest in if degree == 0 then field_id ∷ later else later

-- `*degree -= 1`, and the push where it is 0 then; a degree of 0 would underflow
lower : IndexMap ℕ → List Str → Str → Option ℕ → Result (IndexMap ℕ × List Str)
lower in_degree queue field_id none = Result.panic
lower in_degree queue field_id (some zero) = Result.panic
lower in_degree queue field_id (some (suc zero)) =
    ok (put in_degree field_id 0, queue ++ field_id ∷ [])
lower in_degree queue field_id (some (suc (suc degree))) =
    ok (put in_degree field_id (suc degree), queue)

-- the loop over the fields that wait for the one in hand
unfoldable pub release : IndexMap ℕ → List Str → List Str → Result (IndexMap ℕ × List Str)
unfolding lower
release in_degree queue [] = ok (in_degree, queue)
release in_degree queue (field_id ∷ rest) = do
  (in_degree', queue') ← lower in_degree queue field_id (lookup in_degree field_id)
  release in_degree' queue' rest

-- `while let Some(current) = queue.pop_front()`
unfoldable pub drain :
    ℕ → IndexMap (List Str) → IndexMap ℕ → List Str → List Str → Result (List Str)
unfolding deps_of
drain fuel dependents in_degree [] order = ok order
drain zero dependents in_degree (current ∷ queue) order = Result.out_of_fuel
drain (suc fuel) dependents in_degree (current ∷ queue) order = do
  (in_degree', queue') ← release in_degree queue (deps_of (lookup dependents current))
  drain fuel dependents in_degree' queue' (order ++ current ∷ [])

abbrev no_nodes : Graph
no_nodes = record { in_degree = []; dependents = [] }

-- Each field is taken from the queue once at most.
unfoldable pub topological_sort : List Str → IndexMap (List Str) → Result (List Str)
topological_sort calculated_field_ids dependencies = do
  graph ← edges (nodes calculated_field_ids no_nodes) calculated_field_ids dependencies
  drain (length calculated_field_ids) graph.dependents graph.in_degree (ready graph.in_degree) []
