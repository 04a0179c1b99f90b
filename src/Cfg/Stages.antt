-- ===== src/Cfg/Stages.antt =====
-- The parts of buildIf, buildFor and buildWhile of CFGBuilder before and after the bodies. The ids of
-- the blocks are known before the blocks are made.
use Prim.Native.String.{String}
use veilforge.Base.{
  ℕ, ◌==◌, Bool, false, not, ◌&&◌, Option, none, some, List, [], ◌∷◌, ◌++◌, if◌then◌else◌,
}
use veilforge.Cfg.Graph.{
  BlockId, Builder, Tail, is_unreachable, any_reachable, make_block, set_terminator,
}
use veilforge.Cfg.Statement.{Node}
use veilforge.Cfg.Builder.{
  named, Occurrence, Ids, Built, built, tail, ast_id_of, ids_of, or_else, present, is_some,
  terminator, connect, connect_incoming, enter,
}

-- What a for statement's initialisation leaves for its condition.
pub record Started : Type 0 where
  pub entry_id : Option BlockId
  pub tails : List Tail
  pub edge_kind : String
  pub condition_ast_id : Option ℕ
  pub state : Builder

module _ (ids : Ids) where
  -- `buildIf` after both bodies.
  unfoldable pub close_if :
      Node → Option ℕ → Occurrence → BlockId → Bool → Bool → Built → Built → Built
  close_if n condition occurrence id reachable has_false when_true when_false =
      let merge_reachable = any_reachable (when_true.tails ++ when_false.tails) in
      let merge = ids.block_id "branch-merge" (some n) (named "merge" ∷ occurrence) in
      let made = make_block merge "branch-merge" [] merge_reachable when_false.state in
      let from_true =
        connect_incoming ids when_true.tails merge
          (if is_some when_true.entry_id then "merge" else "true")
          (if is_some when_true.entry_id then none else condition) made in
      let from_false =
        if has_false
        then connect_incoming ids when_false.tails merge
            (if is_some when_false.entry_id then "merge" else "false")
            (if is_some when_false.entry_id then none else condition) from_true
        else connect ids id merge "false" condition reachable from_true in
      built (some id) (tail merge merge_reachable ∷ []) (
        set_terminator id
          (terminator "branch" n
            (present when_true.entry_id
              ++ (if has_false then present when_false.entry_id else merge ∷ []))
            condition)
          from_false)

  unfoldable pub start_for :
      Option Node → List Tail → Occurrence → String → Option ℕ → Builder → Started
  start_for none incoming occurrence kind condition s = record {
    entry_id = none;
    tails = incoming;
    edge_kind = kind;
    condition_ast_id = condition;
    state = s;
  }
  start_for (some init) incoming occurrence kind condition s =
      let id = ids.block_id "loop-initializer" (some init) (named "initializer" ∷ occurrence) in
      record {
        entry_id = some id;
        tails = tail id (any_reachable incoming) ∷ [];
        edge_kind = "next";
        condition_ast_id = none;
        state = enter ids id "loop-initializer" (init.ast_id ∷ []) incoming kind condition s;
      }

  abbrev pub condition_node : Option Node → Node → Node
  condition_node none n = n
  condition_node (some c) n = c

  -- The block that a turn of a for statement ends with: its loop expression or its condition.
  abbrev pub iteration_id : Option Node → Occurrence → BlockId → BlockId
  iteration_id none occurrence condition = condition
  iteration_id (some l) occurrence condition =
      ids.block_id "loop-iteration" (some l) (named "iteration" ∷ occurrence)

  unfoldable pub make_iteration : Option Node → BlockId → Builder → Builder
  make_iteration none id s = s
  make_iteration (some l) id s = make_block id "loop-iteration" (l.ast_id ∷ []) false s

  -- `buildFor` from the condition to the body.
  unfoldable pub open_for :
      Node
      → Option Node
      → Option Node
      → Occurrence
      → BlockId
      → BlockId
      → BlockId
      → BlockId
      → Started
      → Builder
  unfolding make_iteration
  open_for n condition loop occurrence id after iteration body_entry started =
      let entered =
        enter ids id "loop-condition" ((condition_node condition n).ast_id ∷ []) started.tails
          started.edge_kind started.condition_ast_id started.state in
      let with_after =
        make_block after "loop-exit" [] (is_some condition && not (is_unreachable entered id))
          entered in
      let with_iteration = make_iteration loop iteration with_after in
      let with_body =
        make_block body_entry "loop-body-entry" [] (not (is_unreachable with_iteration id))
          with_iteration in
      let into_body =
        connect ids id body_entry "loop-true" (ast_id_of condition)
          (not (is_unreachable with_body id)) with_body in
      if is_some condition
      then connect ids id after "loop-false" (ast_id_of condition)
          (not (is_unreachable into_body id)) into_body
      else into_body

  abbrev pub close_iteration : Option Node → BlockId → BlockId → Builder → Builder
  close_iteration none id iteration s = s
  close_iteration (some l) id iteration s =
      if iteration == id
      then s
      else set_terminator iteration (terminator "loop-iteration" l (id ∷ []) none) s

  unfoldable pub close_for :
      Node
      → Option Node
      → Option Node
      → BlockId
      → BlockId
      → BlockId
      → BlockId
      → Option BlockId
      → Built
      → Built
  close_for n condition loop id after iteration body_entry entry body =
      let turned = connect_incoming ids body.tails iteration "loop-continue" none body.state in
      let back =
        if iteration == id
        then turned
        else connect ids iteration id "loop-back" none (not (is_unreachable turned iteration))
            turned in
      let ended = close_iteration loop id iteration (
        set_terminator id
          (terminator "loop-condition" n
            (body_entry ∷ (if is_some condition then after ∷ [] else [])) (ast_id_of condition))
          back) in
      built (or_else entry (some id)) (tail after (not (is_unreachable ended after)) ∷ []) ended

  -- `buildWhile` up to the body.
  unfoldable pub open_while :
      Node
      → Option Node
      → List Tail
      → String
      → Option ℕ
      → Bool
      → BlockId
      → BlockId
      → BlockId
      → Builder
      → Builder
  open_while n condition incoming kind from_condition do_while id after body_entry s =
      let reachable = any_reachable incoming in
      let early = not do_while && reachable in
      let made = make_block body_entry "loop-body-entry" [] reachable (
        make_block after "loop-exit" [] early
          (make_block id "loop-condition" (ids_of condition) early s)) in
      if do_while
      then connect_incoming ids incoming body_entry kind from_condition made
      else connect ids id after "loop-false" (ast_id_of condition) reachable (
          connect ids id body_entry "loop-true" (ast_id_of condition) reachable
            (connect_incoming ids incoming id kind from_condition made))

  unfoldable pub close_while :
      Node → Option Node → Bool → BlockId → BlockId → BlockId → Built → Built
  close_while n condition do_while id after body_entry body =
      let back = connect_incoming ids body.tails id "loop-back" none body.state in
      let reachable = not (is_unreachable back id) in
      let tested =
        if do_while
        then connect ids id after "loop-false" (ast_id_of condition) reachable
            (connect ids id body_entry "loop-true" (ast_id_of condition) reachable back)
        else back in
      let ended =
        set_terminator id
          (terminator "loop-condition" n (body_entry ∷ after ∷ []) (ast_id_of condition)) tested in
      built (some (if do_while then body_entry else id))
        (tail after (not (is_unreachable ended after)) ∷ []) ended
