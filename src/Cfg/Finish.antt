-- ===== src/Cfg/Finish.antt =====
-- The constructor of CFGBuilder and its build: the three blocks of every graph, the walk, the edges to
-- the normal exit, and the lists without repetitions in the order of the ids. The list of what is
-- unsupported stays in the order of its discovery, since locations are left out.

use text.Mathlib.Text.{◌==◌ as str_eq}
use veilforge.Base.{true, false, Option, none, some, List, [], ◌∷◌, map, if◌then◌else◌}
use veilforge.Base.Sets.{sort, in_order}
use veilforge.Cfg.Graph.{
  BlockId, Terminator, BasicBlock, ControlFlowEdge, Unsupported, Builder, make_block,
}
use veilforge.Cfg.Statement.{Statement}
use veilforge.Cfg.Builder.{
  Ids, named, entry, normal_exit, revert_exit, tail, is_some, connect, connect_incoming,
}
use veilforge.Cfg.Build.{build_statement}

pub record ControlFlowGraph : Type 0 where
  pub entry_block_id : BlockId
  pub normal_exit_block_id : BlockId
  pub revert_exit_block_id : BlockId
  pub blocks : List BasicBlock
  pub edges : List ControlFlowEdge
  pub unsupported_control_flow : List Unsupported

abbrev pub finish_terminator : List BlockId → Option Terminator → Option Terminator
finish_terminator successors none = none
finish_terminator successors (some t) = some (record {
  kind = t.kind;
  ast_node_id = t.ast_node_id;
  target_block_ids =
      if str_eq t.kind "conditional-revert" then successors else in_order t.target_block_ids;
  condition_ast_id = t.condition_ast_id;
})

unfoldable pub finish_block : BasicBlock → BasicBlock
finish_block b = record {
  block_id = b.block_id;
  kind = b.kind;
  statement_ast_ids = b.statement_ast_ids;
  predecessor_ids = in_order b.predecessor_ids;
  successor_ids = in_order b.successor_ids;
  terminator = finish_terminator (in_order b.successor_ids) b.terminator;
  unreachable = b.unreachable;
}

module _ (ids : Ids) where
  unfoldable pub start : List Unsupported → Builder
  start unsupported = make_block (revert_exit ids) "revert-exit" [] false (
      make_block (normal_exit ids) "normal-exit" [] false (
        make_block (entry ids) "entry" [] true
          (record { blocks = []; edges = []; unsupported_control_flow = unsupported })))

  unfoldable pub walk : Statement → List Unsupported → Builder
  unfolding start
  walk flow unsupported =
      let result =
        build_statement ids flow (tail (entry ids) true ∷ []) (named "root" ∷ []) none "next" none
          (start unsupported) in
      let left =
        connect_incoming ids result.tails (normal_exit ids) "normal-exit" none result.state in
      if is_some result.entry_id
      then left
      else connect ids (entry ids) (normal_exit ids) "normal-exit" none true left

  unfoldable pub build : Statement → List Unsupported → ControlFlowGraph
  unfolding walk
  build flow unsupported =
      let walked = walk flow unsupported in
      record {
        entry_block_id = entry ids;
        normal_exit_block_id = normal_exit ids;
        revert_exit_block_id = revert_exit ids;
        blocks = sort (λ b. b.block_id) (map finish_block walked.blocks);
        edges = sort (λ e. e.edge_id) walked.edges;
        unsupported_control_flow = walked.unsupported_control_flow;
      }
