-- ===== src/Analysis/Search.antt =====
-- reachableFrom and buildAdjacency of analysis/call-summary.js, and markRecursiveEdges of
-- ir/call-graph.js. An id is the number that its digest spells. A map is an association list, in the
-- order of its keys' first insertions; a set of ids is the list of them in the order of insertion.
use veilforge.Base.{
  ℕ, zero, suc, ◌+◌, ltb, ◌==◌, Bool, true, false, ◌||◌, Option, none, some, List, [], ◌∷◌, ◌++◌,
  map, length, if◌then◌else◌,
}
use veilforge.Base.Sets.{contains, in_order}

abbrev pub Adjacency : Type 0
Adjacency = List (ℕ × List ℕ)

-- `adjacency.get(id) ?? []`
unfoldable pub targets : Adjacency → ℕ → List ℕ
targets [] id = []
targets ((k, ts) ∷ rest) id = let others = targets rest id in if k == id then ts else others

-- `adjacency.set(from, [...(adjacency.get(from) ?? []), to])`
unfoldable pub add : ℕ → ℕ → Adjacency → Adjacency
add from to [] = (from, to ∷ []) ∷ []
add from to ((k, ts) ∷ rest) =
    let others = add from to rest in
    if k == from then (k, ts ++ (to ∷ [])) ∷ rest else (k, ts) ∷ others

-- A value flow edge between two nodes.
pub record FlowEdge : Type 0 where
  pub from_value_node_id : ℕ
  pub to_value_node_id : ℕ

unfoldable pub add_all : List FlowEdge → Adjacency → Adjacency
add_all [] adjacency = adjacency
add_all (e ∷ es) adjacency = add_all es (add e.from_value_node_id e.to_value_node_id adjacency)

-- The edges of the callables, one after the other, and those between callables.
unfoldable pub build_adjacency : List FlowEdge → List FlowEdge → Adjacency
build_adjacency within between =
    map (λ entry. (entry.0, in_order entry.1)) (add_all between (add_all within []))

unfoldable pub unvisited : List ℕ → List ℕ → List ℕ
unvisited visited [] = []
unvisited visited (t ∷ ts) =
    let rest = unvisited visited ts in if contains t visited then rest else t ∷ rest

-- One turn of a search: the node is passed over if it has been visited, and otherwise it is visited
-- and its unvisited targets are put at the end of the worklist.
abbrev pub next_visited : List ℕ → ℕ → List ℕ
next_visited visited current =
    if contains current visited then visited else visited ++ (current ∷ [])

abbrev pub next_worklist : Adjacency → List ℕ → ℕ → List ℕ → List ℕ
next_worklist adjacency visited current worklist =
    if contains current visited
    then worklist
    else worklist ++ unvisited (visited ++ (current ∷ [])) (targets adjacency current)

-- How many turns a search may take: one, and one for each target.
unfoldable pub edge_count : Adjacency → ℕ
edge_count [] = 0
edge_count ((k, ts) ∷ rest) = length ts + edge_count rest

unfoldable pub reach : ℕ → Adjacency → ℕ → List ℕ → List ℕ → List ℕ
reach zero adjacency limit visited worklist = visited
reach (suc fuel) adjacency limit visited [] = visited
reach (suc fuel) adjacency limit visited (current ∷ worklist) =
    let rest =
      reach fuel adjacency limit (next_visited visited current)
        (next_worklist adjacency visited current worklist) in
    if ltb (length visited) limit then rest else visited

unfoldable pub reachable_from : ℕ → Adjacency → ℕ → List ℕ
unfolding reach
reachable_from start adjacency limit =
    reach (suc (suc (edge_count adjacency))) adjacency limit [] (start ∷ [])

-- A call, whose callee may be unknown.
pub record CallEdge : Type 0 where
  pub caller_callable_id : ℕ
  pub callee_callable_id : Option ℕ
  pub recursive : Bool

abbrev pub add_call : ℕ → Option ℕ → Adjacency → Adjacency
add_call caller none adjacency = adjacency
add_call caller (some callee) adjacency = add caller callee adjacency

unfoldable pub call_adjacency : List CallEdge → Adjacency → Adjacency
call_adjacency [] adjacency = adjacency
call_adjacency (e ∷ es) adjacency =
    call_adjacency es (add_call e.caller_callable_id e.callee_callable_id adjacency)

-- The search from a callee for its caller.
unfoldable pub finds : ℕ → Adjacency → ℕ → List ℕ → List ℕ → Bool
finds zero adjacency caller visited worklist = false
finds (suc fuel) adjacency caller visited [] = false
finds (suc fuel) adjacency caller visited (current ∷ worklist) =
    let rest =
      finds fuel adjacency caller (next_visited visited current)
        (next_worklist adjacency visited current worklist) in
    if current == caller then true else rest

unfoldable pub is_recursive : Adjacency → ℕ → Option ℕ → Bool
unfolding finds
is_recursive adjacency caller none = false
is_recursive adjacency caller (some callee) =
    if caller == callee
    then true
    else finds (suc (suc (edge_count adjacency))) adjacency caller [] (callee ∷ [])

-- `edge.recursive = true` where the search finds the caller.
abbrev pub mark : List CallEdge → ℕ → Option ℕ → Bool → CallEdge
mark edges caller callee recursive = record {
  caller_callable_id = caller;
  callee_callable_id = callee;
  recursive = recursive || is_recursive (call_adjacency edges []) caller callee;
}

unfoldable pub mark_recursive_edges : List CallEdge → List CallEdge
mark_recursive_edges edges =
    map (λ e. mark edges e.caller_callable_id e.callee_callable_id e.recursive) edges
