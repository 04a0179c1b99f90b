-- ===== src/Cfg/Tests.antt =====
-- A function with a loop, a test, a break and a return, and what its graph is.

use veilforge.Base.{ℕ, ◌+◌, ◌*◌, ◌≡◌, refl, Option, none, some, List, [], ◌∷◌, map, length}
use veilforge.Base.Text.{Text, codes}
use veilforge.Cfg.Graph.{BlockId, has_block}
use veilforge.Cfg.Statement.{
  Node, Statement, block, if_statement, while_statement, leaf, absent, done, next, break_statement,
  return_statement,
}
use veilforge.Cfg.Builder.{Ids, Segment, named, indexed, placeholder_of, Occurrence}
use veilforge.Cfg.Finish.{build}
use veilforge.Cfg.Whole.{IsControlFlowGraph, build-IsControlFlowGraph}

abbrev digest : ℕ → Text → ℕ
digest n [] = n
digest n (c ∷ cs) = digest (n * 1000 + c) cs

abbrev segment_digest : Segment → ℕ
segment_digest (named s) = digest 1 (codes s)
segment_digest (indexed i) = 1000 + i
segment_digest (placeholder_of i) = 2000 + i

abbrev occurrence_digest : ℕ → Occurrence → ℕ
occurrence_digest n [] = n
occurrence_digest n (x ∷ xs) = occurrence_digest (n * 1000003 + segment_digest x) xs

abbrev edge_condition : Option ℕ → ℕ
edge_condition none = 0
edge_condition (some n) = n + 1

abbrev test_ids : Ids
test_ids = record {
  block_id = λ kind node occurrence. occurrence_digest (digest 0 (codes kind)) occurrence;
  edge_id = λ from to kind condition.
      (from * 1000003 + to) * 1009 + digest (edge_condition condition) (codes kind);
}

abbrev node : ℕ → Node
node i = record { ast_id = i; src = [] }

-- while (…) { if (…) break; } return;
abbrev loop_then_return : Statement
loop_then_return = block (node 1) (
    next
      (while_statement (node 2) (some (node 3)) (
        block (node 4) (
          next (if_statement (node 5) (some (node 6)) (leaf (node 7) break_statement) absent)
            done)))
      (next (leaf (node 8) return_statement) done))

block_count : length (build test_ids loop_then_return []).blocks ≡ 10
unfolding build veilforge.Base.Sets.sort veilforge.Cfg.Build.build_statement
    veilforge.Cfg.Builder.connect_incoming veilforge.Cfg.Builder.build_leaf
    veilforge.Cfg.Builder.connect veilforge.Cfg.Graph.add_edge veilforge.Cfg.Graph.set_terminator
    veilforge.Cfg.Builder.enter veilforge.Cfg.Graph.make_block veilforge.Cfg.Builder.jump
    veilforge.Cfg.Finish.finish_block
block_count = refl

edge_count : length (build test_ids loop_then_return []).edges ≡ 10
unfolding build veilforge.Base.Sets.sort veilforge.Cfg.Build.build_statement
    veilforge.Cfg.Builder.connect_incoming veilforge.Cfg.Builder.build_leaf
    veilforge.Cfg.Builder.connect veilforge.Cfg.Graph.add_edge veilforge.Cfg.Graph.set_terminator
    veilforge.Cfg.Builder.enter veilforge.Cfg.Graph.make_block veilforge.Cfg.Builder.jump
    veilforge.Cfg.Finish.finish_block
edge_count = refl

build-IsControlFlowGraph_example : IsControlFlowGraph (build test_ids loop_then_return [])
build-IsControlFlowGraph_example = build-IsControlFlowGraph test_ids loop_then_return []
