-- ===== src/Cfg/Walk.antt =====
-- Building any statement keeps a graph a graph: the induction over statements.
use Prim.Native.String.{String}
use veilforge.Base.{
  ℕ, suc, Bool, true, false, not, Option, none, some, List, [], ◌∷◌, Bool-cases, inl, inr,
}
use veilforge.Cfg.Graph.{BlockId, Builder, Tail, any_reachable, is_unreachable}
use veilforge.Cfg.Statement.{
  Node, Statement, Statements, absent, block, unchecked_block, if_statement, for_statement,
  while_statement, do_while_statement, placeholder_statement, leaf, done, next, node_of,
}
use veilforge.Cfg.Builder.{
  Occurrence, Ids, LoopContext, Built, tail, named, indexed, placeholder_of, ast_id_of, is_some,
  terminator, leaf_kind, enter,
}
use veilforge.Cfg.Stages.{
  close_while, start_for, open_for, iteration_id, condition_node, open_while,
}
use veilforge.Cfg.Build.{build_statement, build_sequence}
use veilforge.Cfg.Extends.{Extends, same, and_then, set_terminator-Extends}
use veilforge.Cfg.Leaves.{
  IsIn, TailsIn, LoopIn, Ready, IsBuilt, tails_on, loop_on, exits_on, enter-Extends,
  build_leaf-IsBuilt,
}
use veilforge.Cfg.Bodies.{
  LoopBlocks, blocks_on, close_if-IsBuilt, start_for-IsStarted, open_for-Extends, close_for-IsBuilt,
  open_while-Extends, close_while-IsBuilt,
}

after_built : {s t : Builder} {r : Built} → Extends s t → IsBuilt t r → IsBuilt s r
after_built x h = record { extends = and_then x h.extends; tails_in = h.tails_in }

loop_of :
    (after go_on : BlockId) (s : Builder)
    → IsIn after s
    → IsIn go_on s
    → LoopIn (some (record { break_target = after; continue_target = go_on })) s
loop_of after go_on s p q = record { break_in = p; continue_in = q }

module _ (ids : Ids) where
  -- A while statement, from what holds of its body once its blocks are there.
  while-IsBuilt :
      (n : Node) (c b : Option Node) (do_while : Bool) (incoming : List Tail)
      (occurrence : Occurrence) (kind : String) (condition : Option ℕ) (s : Builder)
      (id after body_entry : BlockId) (body : Built)
      → Ready ids s
      → TailsIn incoming s
      → (let opened = open_while ids n c incoming kind condition do_while id after body_entry s in
          Ready ids opened → LoopBlocks id after id body_entry opened → IsBuilt opened body)
      → IsBuilt s (close_while ids n c do_while id after body_entry body)
  while-IsBuilt n c b do_while incoming occurrence kind condition s id after body_entry body r h k =
      let (x, p) =
        open_while-Extends ids n c incoming kind condition do_while id after body_entry s r.graph
          h in
      let inside = k (exits_on ids x r) p in
      after_built (and_then x inside.extends) (
        close_while-IsBuilt ids n c do_while id after body_entry body inside.extends.graph
          inside.tails_in (blocks_on inside.extends p))

  mutual
    unfolding build_statement build_sequence

    pub build_statement-IsBuilt :
        (f : Statement) (incoming : List Tail) (occurrence : Occurrence) (loop : Option LoopContext)
        (kind : String) (condition : Option ℕ) (s : Builder)
        → Ready ids s
        → LoopIn loop s
        → TailsIn incoming s
        → IsBuilt s (build_statement ids f incoming occurrence loop kind condition s)
    build_statement-IsBuilt absent incoming occurrence loop kind condition s r l h = record {
      extends = same s r.graph;
      tails_in = h;
    }
    build_statement-IsBuilt (block n ss) incoming occurrence loop kind condition s r l h =
        build_sequence-IsBuilt ss 0 none incoming (named "block" ∷ occurrence) loop kind condition s
          r l h
    build_statement-IsBuilt (unchecked_block n ss) incoming occurrence loop kind condition s r l h =
        let (x, p) = enter-Extends ids _ "unchecked" _ incoming kind condition s r.graph h in
        let nested =
          build_sequence-IsBuilt ss 0 none (tail _ (any_reachable incoming) ∷ [])
            (named "unchecked-body" ∷ occurrence) loop "next" none _ (exits_on ids x r)
            (loop_on loop x l) (p, tt) in
        record { extends = and_then x nested.extends; tails_in = nested.tails_in }
    build_statement-IsBuilt (placeholder_statement n f) incoming occurrence loop kind condition s r
          l h =
        elim (Bool-cases (is_some (node_of f))) [
          | inl replaced ↦ rw replaced (
              build_statement-IsBuilt f incoming (placeholder_of n.ast_id ∷ occurrence) loop kind
                condition s r l h)
          | inr alone ↦
              let id =
                ids.block_id "modifier-placeholder" (some n) (named "placeholder" ∷ occurrence) in
              let (x, p) =
                enter-Extends ids id "modifier-placeholder" _ incoming kind condition s r.graph h in
              let y =
                and_then x
                  (set_terminator-Extends id (terminator "placeholder" n [] none) _ x.graph) in
              rw alone (record {
                extends = y;
                tails_in = (
                  (set_terminator-Extends id (terminator "placeholder" n [] none) _ x.graph).kept id
                      p,
                  tt,
                );
              })
        ]
    build_statement-IsBuilt (if_statement n c t f) incoming occurrence loop kind condition s r l h =
        let id = ids.block_id "branch" (some n) (named "condition" ∷ occurrence) in
        let reachable = any_reachable incoming in
        let (x, p) = enter-Extends ids id "branch" _ incoming kind condition s r.graph h in
        let when_true =
          build_statement ids t (tail id reachable ∷ []) (named "true" ∷ occurrence) loop "true"
            (ast_id_of c) (enter ids id "branch" (n.ast_id ∷ []) incoming kind condition s) in
        let yes' =
          build_statement-IsBuilt t (tail id reachable ∷ []) (named "true" ∷ occurrence) loop "true"
            (ast_id_of c) _ (exits_on ids x r) (loop_on loop x l) (p, tt) in
        let xy = and_then x yes'.extends in
        let no' =
          build_statement-IsBuilt f (tail id reachable ∷ []) (named "false" ∷ occurrence) loop
            "false" (ast_id_of c) _ (exits_on ids xy r) (loop_on loop xy l)
            (yes'.extends.kept id p, tt) in
        after_built (and_then xy no'.extends) (
          close_if-IsBuilt ids n (ast_id_of c) occurrence id reachable (is_some (node_of f))
            when_true _ no'.extends.graph (tails_on _ no'.extends yes'.tails_in) no'.tails_in
            (no'.extends.kept id (yes'.extends.kept id p)))
    build_statement-IsBuilt (for_statement n i c g b) incoming occurrence loop kind condition s r l
          h =
        let started = start_for-IsStarted ids i incoming occurrence kind condition s r.graph h in
        let id =
          ids.block_id "loop-condition" (some (condition_node ids c n))
            (named "condition" ∷ occurrence) in
        let after = ids.block_id "loop-exit" (some n) (named "exit" ∷ occurrence) in
        let iteration = iteration_id ids g occurrence id in
        let body_entry =
          ids.block_id "loop-body-entry" (node_of b) (named "body-entry" ∷ occurrence) in
        let (x, p) =
          open_for-Extends ids n c g occurrence id after body_entry
            (start_for ids i incoming occurrence kind condition s) started.extends.graph
            started.tails_in in
        let sx = and_then started.extends x in
        let opened =
          open_for ids n c g occurrence id after iteration body_entry
            (start_for ids i incoming occurrence kind condition s) in
        let inner =
          build_statement ids b (tail body_entry (not (is_unreachable opened body_entry)) ∷ [])
            (named "body" ∷ occurrence)
            (some (record { break_target = after; continue_target = iteration })) "next" none
            opened in
        let body =
          build_statement-IsBuilt b (tail body_entry _ ∷ []) (named "body" ∷ occurrence)
            (some (record { break_target = after; continue_target = iteration })) "next" none _
            (exits_on ids sx r) (loop_of after iteration _ p.after_in p.iteration_in)
            (p.body_in, tt) in
        after_built (and_then sx body.extends) (
          close_for-IsBuilt ids n c g id after iteration body_entry _ inner body.extends.graph
            body.tails_in (blocks_on body.extends p))
    build_statement-IsBuilt (while_statement n c b) incoming occurrence loop kind condition s r l
          h =
        while-IsBuilt n c (node_of b) false incoming occurrence kind condition s _ _ _ _ r h
          (λ r' p.
            build_statement-IsBuilt b (tail _ (any_reachable incoming) ∷ [])
              (named "body" ∷ occurrence) (some _) "next" none _ r'
              (loop_of _ _ _ p.after_in p.id_in) (p.body_in, tt))
    build_statement-IsBuilt (do_while_statement n c b) incoming occurrence loop kind condition s r l
          h =
        while-IsBuilt n c (node_of b) true incoming occurrence kind condition s _ _ _ _ r h (λ r' p.
          build_statement-IsBuilt b (tail _ (any_reachable incoming) ∷ [])
            (named "body" ∷ occurrence) (some _) "next" none _ r' (loop_of _ _ _ p.after_in p.id_in)
            (p.body_in, tt))
    build_statement-IsBuilt (leaf n f) incoming occurrence loop kind condition s r l h =
        let id = ids.block_id (leaf_kind f) (some n) occurrence in
        let (x, p) = enter-Extends ids id (leaf_kind f) _ incoming kind condition s r.graph h in
        after_built x (
          build_leaf-IsBuilt ids n f id (any_reachable incoming) loop _ (exits_on ids x r)
            (loop_on loop x l) p)

    pub build_sequence-IsBuilt :
        (ss : Statements) (index : ℕ) (entry : Option BlockId) (tails : List Tail)
        (path : Occurrence) (loop : Option LoopContext) (kind : String) (condition : Option ℕ)
        (s : Builder)
        → Ready ids s
        → LoopIn loop s
        → TailsIn tails s
        → IsBuilt s (build_sequence ids ss index entry tails path loop kind condition s)
    build_sequence-IsBuilt done index entry tails path loop kind condition s r l h = record {
      extends = same s r.graph;
      tails_in = h;
    }
    build_sequence-IsBuilt (next f ss) index entry tails path loop kind condition s r l h =
        let first =
          build_statement-IsBuilt f tails (indexed index ∷ path) loop kind condition s r l h in
        after_built first.extends (
          build_sequence-IsBuilt ss (suc index) _ _ path loop "next" none _
            (exits_on ids first.extends r) (loop_on loop first.extends l) first.tails_in)
