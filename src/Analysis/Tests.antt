-- ===== src/Analysis/Tests.antt =====
-- Small graphs, and what the searches find in them; a merge of two states.
use veilforge.Base.{
  ◌∙◌, ◌+◌, ◌*◌, map, sym, ℕ, ◌≡◌, ◌↔◌, ◌++◌, ◌<◌, refl, ap, Bool, true, false, Option, none, some,
  List, [], ◌∷◌, All, any, arith, length,
}
use veilforge.Base.Sets.{contains, in_order}
use veilforge.Analysis.Facts.{
  Fact, Condition, Edge, EdgeKind, if_true, if_false, state_across_edge, merge_predecessor_states,
}
use veilforge.Analysis.Merged.{known, has_origin, has_condition, merge_predecessor_states_lem}
use veilforge.Analysis.Search.{
  FlowEdge, CallEdge, build_adjacency, reachable_from, mark_recursive_edges,
}
use veilforge.Analysis.Adjacency.{flows}
use veilforge.Analysis.Frontier.{Leads}
use veilforge.Analysis.Reachable.{reachable_from_lem}
use veilforge.Analysis.Recursive.{IsMarked, mark_recursive_edges-IsMarked}

abbrev flow : ℕ → ℕ → FlowEdge
flow a b = record { from_value_node_id = a; to_value_node_id = b }

abbrev within : List FlowEdge
within = flow 1 2 ∷ flow 2 3 ∷ flow 5 1 ∷ []

abbrev between : List FlowEdge
between = flow 3 1 ∷ flow 3 4 ∷ []

reached : reachable_from 1 (build_adjacency within between) 100000 ≡ 1 ∷ 2 ∷ 3 ∷ 4 ∷ []
unfolding reachable_from veilforge.Analysis.Search.unvisited veilforge.Analysis.Search.targets
    build_adjacency veilforge.Analysis.Search.add_all veilforge.Analysis.Search.add
    veilforge.Base.Sets.in_order veilforge.Base.Sets.sort veilforge.Base.Sets.unique
    veilforge.Analysis.Search.edge_count
reached = refl

reached_few : length (reachable_from 1 (build_adjacency within between) 100000) < 100000
reached_few = omega (arith, ap length reached)

reachable_from_lem_example :
    (contains 4 (reachable_from 1 (build_adjacency within between) 100000) ≡ true)
    ↔ Leads (λ a b. any (flows a b) (within ++ between)) 1 4
reachable_from_lem_example = reachable_from_lem 1 100000 within between 4 reached_few

abbrev call : ℕ → ℕ → CallEdge
call a b = record { caller_callable_id = a; callee_callable_id = some b; recursive = false }

abbrev graph : List CallEdge
graph = call 1 2 ∷ call 2 1 ∷ call 2 3 ∷ call 3 3 ∷ []

mark_recursive_edges-IsMarked_example : All (IsMarked graph) (mark_recursive_edges graph)
mark_recursive_edges-IsMarked_example =
    mark_recursive_edges-IsMarked graph (refl, (refl, (refl, (refl, tt))))

-- A value comes in from two branches, with other origins and under other conditions.
abbrev fact : List ℕ → List (Condition ℕ) → Fact (Condition ℕ) ℕ
fact origins conditions = record {
  origin_ids = origins;
  path_conditions = conditions;
  confidence = 0;
  provenance = 0;
  rest = 0;
}

abbrev location_of : ℕ → Option ℕ
location_of block = some (block * 10)

abbrev condition_key : Condition ℕ → ℕ
condition_key c = c.condition_ast_id * 100 + c.predecessor_block_id

abbrev branch : ℕ → EdgeKind → Edge
branch block kind = record { from_block_id = block; edge_kind = kind; condition_ast_id = some 7 }

abbrev incoming : List (Edge × List (ℕ × Fact (Condition ℕ) ℕ))
incoming =
    (branch 1 if_true, (5, fact (2 ∷ []) []) ∷ [])
    ∷ (branch 2 if_false, (5, fact (3 ∷ 2 ∷ []) []) ∷ (4, fact (1 ∷ []) []) ∷ [])
    ∷ []

abbrev merged_state : List (ℕ × Fact (Condition ℕ) ℕ)
merged_state =
    merge_predecessor_states condition_key 9
      (map (λ p. state_across_edge location_of p.1 p.0) incoming)

merged_origins : map (λ entry. (entry.1).origin_ids) merged_state ≡ (2 ∷ 3 ∷ []) ∷ (1 ∷ []) ∷ []
unfolding merge_predecessor_states state_across_edge veilforge.Analysis.Facts.join_states
    veilforge.Analysis.Facts.join_all veilforge.Analysis.Facts.join_state
    veilforge.Analysis.Facts.merge_facts veilforge.Analysis.Facts.path_condition_for_edge
    veilforge.Analysis.Facts.set_conditions veilforge.Base.Sets.sort veilforge.Base.Sets.in_order
    veilforge.Base.Sets.unique
merged_origins = refl

merge_predecessor_states_lem_example :
    (known 5 (λ fact. true) merged_state ≡ true)
    × (known 5 (has_origin 3) merged_state ≡ true)
    × (known 5 (has_condition condition_key 702) merged_state ≡ true)
unfolding veilforge.Analysis.Facts.path_condition_for_edge
merge_predecessor_states_lem_example =
    merge_predecessor_states_lem location_of condition_key 9 incoming 5 3 702
