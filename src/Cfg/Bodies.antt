-- ===== src/Cfg/Bodies.antt =====
-- The parts of buildIf, buildFor and buildWhile around the bodies keep a graph a graph.
use Prim.Native.String.{String}
use veilforge.Base.{ℕ, ◌==◌, Bool, true, false, Option, none, some, List, [], ◌∷◌, if◌then◌else◌}
use veilforge.Cfg.Graph.{BlockId, Builder, Tail}
use veilforge.Cfg.Statement.{Node}
use veilforge.Cfg.Builder.{Occurrence, Ids, Built, named, ast_id_of, ids_of, is_some}
use veilforge.Cfg.Stages.{
  iteration_id, Started, close_if, start_for, make_iteration, open_for, close_iteration, close_for,
  open_while, close_while,
}
use veilforge.Cfg.Linked.{IsGraph}
use veilforge.Cfg.Extends.{Extends, same, and_then, make_block-Extends, set_terminator-Extends}
use veilforge.Cfg.Leaves.{
  IsIn, TailsIn, IsBuilt, tails_on, connect-Extends, connect_incoming-Extends, enter-Extends,
}

pub record IsStarted (s : Builder) (r : Started) : Type 0 where
  pub extends : Extends s r.state
  pub tails_in : TailsIn r.tails r.state

-- The blocks of a loop.
pub record LoopBlocks (id after iteration body_entry : BlockId) (s : Builder) : Type 0 where
  pub id_in : IsIn id s
  pub after_in : IsIn after s
  pub iteration_in : IsIn iteration s
  pub body_in : IsIn body_entry s

pub blocks_on :
    {id after iteration body_entry : BlockId} {s t : Builder}
    → Extends s t
    → LoopBlocks id after iteration body_entry s
    → LoopBlocks id after iteration body_entry t
blocks_on {id} {after} {iteration} {body_entry} x h = record {
  id_in = x.kept id h.id_in;
  after_in = x.kept after h.after_in;
  iteration_in = x.kept iteration h.iteration_in;
  body_in = x.kept body_entry h.body_in;
}

-- A step that is taken or not.
either-Extends :
    (b : Bool) (s t u : Builder) → Extends s t → Extends s u → Extends s (if b then t else u)
either-Extends true s t u x y = x
either-Extends false s t u x y = y

module _ (ids : Ids) where
  pub close_if-IsBuilt :
      (n : Node) (condition : Option ℕ) (occurrence : Occurrence) (id : BlockId)
      (reachable has_false : Bool) (when_true when_false : Built)
      → IsGraph when_false.state
      → TailsIn when_true.tails when_false.state
      → TailsIn when_false.tails when_false.state
      → IsIn id when_false.state
      → IsBuilt when_false.state
          (close_if ids n condition occurrence id reachable has_false when_true when_false)
  unfolding close_if
  close_if-IsBuilt n condition occurrence id reachable has_false when_true when_false g h k p =
      let merge = ids.block_id "branch-merge" (some n) (named "merge" ∷ occurrence) in
      let (x, q) = make_block-Extends merge "branch-merge" [] _ when_false.state g in
      let y =
        connect_incoming-Extends ids when_true.tails merge _ _ _ x.graph
          (tails_on when_true.tails x h) q in
      let xy = and_then x y in
      let z =
        either-Extends has_false _ _ _
          (connect_incoming-Extends ids when_false.tails merge _ _ _ y.graph
            (tails_on when_false.tails xy k) (y.kept merge q))
          (connect-Extends ids id merge "false" condition reachable _ y.graph (xy.kept id p)
            (y.kept merge q)) in
      let w = and_then z (set_terminator-Extends id _ _ z.graph) in
      record { extends = and_then xy w; tails_in = (w.kept merge (y.kept merge q), tt) }

  pub start_for-IsStarted :
      (init : Option Node) (incoming : List Tail) (occurrence : Occurrence) (kind : String)
      (condition : Option ℕ) (s : Builder)
      → IsGraph s
      → TailsIn incoming s
      → IsStarted s (start_for ids init incoming occurrence kind condition s)
  unfolding start_for
  start_for-IsStarted none incoming occurrence kind condition s g h = record {
    extends = same s g;
    tails_in = h;
  }
  start_for-IsStarted (some init) incoming occurrence kind condition s g h =
      let (x, p) = enter-Extends ids _ "loop-initializer" _ incoming kind condition s g h in
      record { extends = x; tails_in = (p, tt) }

  make_iteration-Extends :
      (loop : Option Node) (occurrence : Occurrence) (id : BlockId) (s : Builder)
      → IsGraph s
      → IsIn id s
      → Extends s (make_iteration ids loop (iteration_id ids loop occurrence id) s)
        × IsIn
            (iteration_id ids loop occurrence id)
            (make_iteration ids loop (iteration_id ids loop occurrence id) s)
  unfolding make_iteration
  make_iteration-Extends none occurrence id s g p = (same s g, p)
  make_iteration-Extends (some l) occurrence id s g p = make_block-Extends _ _ _ _ s g

  pub open_for-Extends :
      (n : Node) (condition loop : Option Node) (occurrence : Occurrence)
      (id after body_entry : BlockId) (started : Started)
      → IsGraph started.state
      → TailsIn started.tails started.state
      → Extends started.state (
          open_for ids n condition loop occurrence id after
            (iteration_id ids loop occurrence id)
            body_entry
            started)
        × LoopBlocks id after (iteration_id ids loop occurrence id) body_entry (
            open_for ids n condition loop occurrence id after
              (iteration_id ids loop occurrence id)
              body_entry
              started)
  unfolding open_for
  open_for-Extends n condition loop occurrence id after body_entry started g h =
      let iteration = iteration_id ids loop occurrence id in
      let (x₁, id₁) = enter-Extends ids id "loop-condition" _ started.tails _ _ _ g h in
      let (x₂, after₂) = make_block-Extends after "loop-exit" [] _ _ x₁.graph in
      let (x₃, iteration₃) =
        make_iteration-Extends loop occurrence id _ x₂.graph (x₂.kept id id₁) in
      let (x₄, body₄) = make_block-Extends body_entry "loop-body-entry" [] _ _ x₃.graph in
      let x₂₄ = and_then x₂ (and_then x₃ x₄) in
      let x₅ =
        connect-Extends ids id body_entry "loop-true" (ast_id_of condition) _ _ x₄.graph
          (x₂₄.kept id id₁) body₄ in
      let x₃₅ = and_then x₃ (and_then x₄ x₅) in
      let x₆ =
        either-Extends (is_some condition) _ _ _
          (connect-Extends ids id after "loop-false" (ast_id_of condition) _ _ x₅.graph
            (x₅.kept id (x₂₄.kept id id₁)) (x₃₅.kept after after₂))
          (same _ x₅.graph) in
      let x₅₆ = and_then x₅ x₆ in
      let x₄₆ = and_then x₄ x₅₆ in
      let x₃₆ = and_then x₃ x₄₆ in
      let x₂₆ = and_then x₂ x₃₆ in
      (
        and_then x₁ x₂₆,
        record {
          id_in = x₂₆.kept id id₁;
          after_in = x₃₆.kept after after₂;
          iteration_in = x₄₆.kept iteration iteration₃;
          body_in = x₅₆.kept body_entry body₄;
        },
      )

  close_iteration-Extends :
      (loop : Option Node) (id iteration : BlockId) (s : Builder)
      → IsGraph s
      → Extends s (close_iteration ids loop id iteration s)
  close_iteration-Extends none id iteration s g = same s g
  close_iteration-Extends (some l) id iteration s g =
      either-Extends (iteration == id) s _ _ (same s g) (set_terminator-Extends iteration _ s g)

  pub close_for-IsBuilt :
      (n : Node) (condition loop : Option Node) (id after iteration body_entry : BlockId)
      (entry : Option BlockId) (body : Built)
      → IsGraph body.state
      → TailsIn body.tails body.state
      → LoopBlocks id after iteration body_entry body.state
      → IsBuilt body.state (close_for ids n condition loop id after iteration body_entry entry body)
  unfolding close_for
  close_for-IsBuilt n condition loop id after iteration body_entry entry body g h p =
      let x =
        connect_incoming-Extends ids body.tails iteration "loop-continue" none _ g h
          p.iteration_in in
      let y = either-Extends (iteration == id) _ _ _ (same _ x.graph) (
        connect-Extends ids iteration id "loop-back" none _ _ x.graph
          (x.kept iteration p.iteration_in) (x.kept id p.id_in)) in
      let z = set_terminator-Extends id _ _ y.graph in
      let w = close_iteration-Extends loop id iteration _ z.graph in
      let all = and_then x (and_then y (and_then z w)) in
      record { extends = all; tails_in = (all.kept after p.after_in, tt) }

  pub open_while-Extends :
      (n : Node) (condition : Option Node) (incoming : List Tail) (kind : String)
      (from_condition : Option ℕ) (do_while : Bool) (id after body_entry : BlockId) (s : Builder)
      → IsGraph s
      → TailsIn incoming s
      → Extends s
          (open_while ids n condition incoming kind from_condition do_while id after body_entry s)
        × LoopBlocks id after id body_entry
            (open_while ids n condition incoming kind from_condition do_while id after body_entry s)
  unfolding open_while
  open_while-Extends n condition incoming kind from_condition do_while id after body_entry s g h =
      let (x₁, id₁) = make_block-Extends id "loop-condition" (ids_of condition) _ s g in
      let (x₂, after₂) = make_block-Extends after "loop-exit" [] _ _ x₁.graph in
      let (x₃, body₃) = make_block-Extends body_entry "loop-body-entry" [] _ _ x₂.graph in
      let x₂₃ = and_then x₂ x₃ in
      let x₁₃ = and_then x₁ x₂₃ in
      let tails = tails_on incoming x₁₃ h in
      let made : LoopBlocks id after id body_entry _ = record {
        id_in = x₂₃.kept id id₁;
        after_in = x₃.kept after after₂;
        iteration_in = x₂₃.kept id id₁;
        body_in = body₃;
      } in
      let y₁ =
        connect_incoming-Extends ids incoming id kind from_condition _ x₃.graph tails made.id_in in
      let y₂ =
        connect-Extends ids id body_entry "loop-true" (ast_id_of condition) _ _ y₁.graph
          (y₁.kept id made.id_in) (y₁.kept body_entry made.body_in) in
      let y₁₂ = and_then y₁ y₂ in
      let y₃ =
        connect-Extends ids id after "loop-false" (ast_id_of condition) _ _ y₂.graph
          (y₁₂.kept id made.id_in) (y₁₂.kept after made.after_in) in
      let last =
        either-Extends do_while _ _ _
          (connect_incoming-Extends ids incoming body_entry kind from_condition _ x₃.graph tails
            made.body_in)
          (and_then y₁₂ y₃) in
      (and_then x₁₃ last, blocks_on last made)

  pub close_while-IsBuilt :
      (n : Node) (condition : Option Node) (do_while : Bool) (id after body_entry : BlockId)
      (body : Built)
      → IsGraph body.state
      → TailsIn body.tails body.state
      → LoopBlocks id after id body_entry body.state
      → IsBuilt body.state (close_while ids n condition do_while id after body_entry body)
  unfolding close_while
  close_while-IsBuilt n condition do_while id after body_entry body g h p =
      let x = connect_incoming-Extends ids body.tails id "loop-back" none _ g h p.id_in in
      let q = blocks_on x p in
      let y₁ =
        connect-Extends ids id body_entry "loop-true" (ast_id_of condition) _ _ x.graph q.id_in
          q.body_in in
      let q₁ = blocks_on y₁ q in
      let y₂ =
        connect-Extends ids id after "loop-false" (ast_id_of condition) _ _ y₁.graph q₁.id_in
          q₁.after_in in
      let y = either-Extends do_while _ _ _ (and_then y₁ y₂) (same _ x.graph) in
      let all = and_then x (and_then y (set_terminator-Extends id _ _ y.graph)) in
      record { extends = all; tails_in = (all.kept after p.after_in, tt) }
