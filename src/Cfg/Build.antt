-- ===== src/Cfg/Build.antt =====
-- The recursion of CFGBuilder over statements: buildSequence, buildStatement, buildIf, buildFor and
-- buildWhile. Each opens its blocks, builds the statements inside and closes.
use Prim.Native.String.{String}
use veilforge.Base.{ℕ, suc, true, false, not, Option, none, some, List, [], ◌∷◌, if◌then◌else◌}
use veilforge.Cfg.Graph.{BlockId, Builder, Tail, is_unreachable, any_reachable, set_terminator}
use veilforge.Cfg.Statement.{
  Statement, Statements, absent, block, unchecked_block, if_statement, for_statement,
  while_statement, do_while_statement, placeholder_statement, leaf, done, next, node_of,
}
use veilforge.Cfg.Builder.{
  named, indexed, placeholder_of, Occurrence, Ids, LoopContext, Built, built, tail, ast_id_of,
  or_else, is_some, terminator, leaf_kind, enter, build_leaf,
}
use veilforge.Cfg.Stages.{
  close_if, start_for, condition_node, iteration_id, open_for, close_for, open_while, close_while,
}

module _ (ids : Ids) where
  unfoldable mutual
    unfolding close_if start_for open_for close_for open_while close_while

    pub build_statement :
        Statement
        → List Tail
        → Occurrence
        → Option LoopContext
        → String
        → Option ℕ
        → Builder
        → Built
    build_statement absent incoming occurrence loop kind condition s = built none incoming s
    build_statement (block n ss) incoming occurrence loop kind condition s =
        build_sequence ss 0 none incoming (named "block" ∷ occurrence) loop kind condition s
    build_statement (unchecked_block n ss) incoming occurrence loop kind condition s =
        let id = ids.block_id "unchecked" (some n) (named "unchecked" ∷ occurrence) in
        let marked = enter ids id "unchecked" (n.ast_id ∷ []) incoming kind condition s in
        let nested =
          build_sequence ss 0 none (tail id (any_reachable incoming) ∷ [])
            (named "unchecked-body" ∷ occurrence) loop "next" none marked in
        built (some id) nested.tails nested.state
    build_statement (placeholder_statement n r) incoming occurrence loop kind condition s =
        let replaced =
          build_statement r incoming (placeholder_of n.ast_id ∷ occurrence) loop kind condition s in
        let id = ids.block_id "modifier-placeholder" (some n) (named "placeholder" ∷ occurrence) in
        if is_some (node_of r)
        then replaced
        else built (some id) (tail id (any_reachable incoming) ∷ []) (
            set_terminator id (terminator "placeholder" n [] none)
              (enter ids id "modifier-placeholder" (n.ast_id ∷ []) incoming kind condition s))
    build_statement (if_statement n c t f) incoming occurrence loop kind condition s =
        let reachable = any_reachable incoming in
        let id = ids.block_id "branch" (some n) (named "condition" ∷ occurrence) in
        let entered = enter ids id "branch" (n.ast_id ∷ []) incoming kind condition s in
        let when_true =
          build_statement t (tail id reachable ∷ []) (named "true" ∷ occurrence) loop "true"
            (ast_id_of c) entered in
        let when_false =
          build_statement f (tail id reachable ∷ []) (named "false" ∷ occurrence) loop "false"
            (ast_id_of c) when_true.state in
        close_if ids n (ast_id_of c) occurrence id reachable (is_some (node_of f)) when_true
          when_false
    build_statement (for_statement n i c l b) incoming occurrence loop kind condition s =
        let started = start_for ids i incoming occurrence kind condition s in
        let id =
          ids.block_id "loop-condition" (some (condition_node ids c n))
            (named "condition" ∷ occurrence) in
        let after = ids.block_id "loop-exit" (some n) (named "exit" ∷ occurrence) in
        let iteration = iteration_id ids l occurrence id in
        let body_entry =
          ids.block_id "loop-body-entry" (node_of b) (named "body-entry" ∷ occurrence) in
        let opened = open_for ids n c l occurrence id after iteration body_entry started in
        let body =
          build_statement b (tail body_entry (not (is_unreachable opened body_entry)) ∷ [])
            (named "body" ∷ occurrence)
            (some (record { break_target = after; continue_target = iteration })) "next" none
            opened in
        close_for ids n c l id after iteration body_entry started.entry_id body
    build_statement (while_statement n c b) incoming occurrence loop kind condition s =
        let id = ids.block_id "loop-condition" c (named "condition" ∷ occurrence) in
        let after = ids.block_id "loop-exit" (some n) (named "exit" ∷ occurrence) in
        let body_entry =
          ids.block_id "loop-body-entry" (node_of b) (named "body-entry" ∷ occurrence) in
        let opened = open_while ids n c incoming kind condition false id after body_entry s in
        let body =
          build_statement b (tail body_entry (any_reachable incoming) ∷ [])
            (named "body" ∷ occurrence)
            (some (record { break_target = after; continue_target = id })) "next" none opened in
        close_while ids n c false id after body_entry body
    build_statement (do_while_statement n c b) incoming occurrence loop kind condition s =
        let id = ids.block_id "loop-condition" c (named "condition" ∷ occurrence) in
        let after = ids.block_id "loop-exit" (some n) (named "exit" ∷ occurrence) in
        let body_entry =
          ids.block_id "loop-body-entry" (node_of b) (named "body-entry" ∷ occurrence) in
        let opened = open_while ids n c incoming kind condition true id after body_entry s in
        let body =
          build_statement b (tail body_entry (any_reachable incoming) ∷ [])
            (named "body" ∷ occurrence)
            (some (record { break_target = after; continue_target = id })) "next" none opened in
        close_while ids n c true id after body_entry body
    build_statement (leaf n l) incoming occurrence loop kind condition s =
        let id = ids.block_id (leaf_kind l) (some n) occurrence in
        build_leaf ids n l id (any_reachable incoming) loop
          (enter ids id (leaf_kind l) (n.ast_id ∷ []) incoming kind condition s)

    pub build_sequence :
        Statements
        → ℕ
        → Option BlockId
        → List Tail
        → Occurrence
        → Option LoopContext
        → String
        → Option ℕ
        → Builder
        → Built
    build_sequence done index entry tails path loop kind condition s = built entry tails s
    build_sequence (next x xs) index entry tails path loop kind condition s =
        let first = build_statement x tails (indexed index ∷ path) loop kind condition s in
        build_sequence xs (suc index) (or_else entry first.entry_id) first.tails path loop "next"
          none first.state
