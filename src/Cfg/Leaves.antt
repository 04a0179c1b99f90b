-- ===== src/Cfg/Leaves.antt =====
-- Entering a block and building a statement without statements in it keep a graph a graph.
use Prim.Native.String.{String}
use text.Mathlib.Text.{◌==◌ as str_eq}
use veilforge.Base.{
  ℕ, ◌≡◌, Bool, true, ◌||◌, Option, none, some, List, [], ◌∷◌, All, if◌then◌else◌, Bool-cases, inl,
  inr,
}
use veilforge.Cfg.Graph.{
  BlockId, Terminator, Builder, Tail, has_block, any_reachable, set_terminator,
}
use veilforge.Cfg.Statement.{
  Node, Leaf, try_statement, return_statement, revert_statement, break_statement,
  continue_statement, emit_statement, other_statement, call_statement,
}
use veilforge.Cfg.Builder.{
  Ids, LoopContext, Built, built, tail, terminator, unsupported, normal_exit, revert_exit, connect,
  connect_incoming, enter, jump, break_of, continue_of, build_call, build_leaf,
}
use veilforge.Cfg.Linked.{IsGraph}
use veilforge.Cfg.Extends.{
  Extends, same, and_then, make_block-Extends, add_edge-Extends, set_terminator-Extends,
  set_kind-Extends, push_unsupported-Extends,
}

abbrev pub IsIn : BlockId → Builder → Type 0
IsIn id s = has_block id s.blocks ≡ true

abbrev pub TailsIn : List Tail → Builder → Type 0
TailsIn ts s = All (λ t. IsIn t.tail_id s) ts

abbrev pub TargetIn : Option BlockId → Builder → Type 0
TargetIn none s = Unit
TargetIn (some id) s = IsIn id s

-- The targets of a loop around the statement are blocks.
pub record LoopIn (loop : Option LoopContext) (s : Builder) : Type 0 where
  pub break_in : TargetIn (break_of loop) s
  pub continue_in : TargetIn (continue_of loop) s

-- A graph with both exits.
pub record Ready (ids : Ids) (s : Builder) : Type 0 where
  pub graph : IsGraph s
  pub normal : IsIn (normal_exit ids) s
  pub revert : IsIn (revert_exit ids) s

-- A built statement has extended the graph, and ends in blocks of it.
pub record IsBuilt (s : Builder) (r : Built) : Type 0 where
  pub extends : Extends s r.state
  pub tails_in : TailsIn r.tails r.state

pub tails_on : (ts : List Tail) {s t : Builder} → Extends s t → TailsIn ts s → TailsIn ts t
tails_on [] x h = tt
tails_on (t ∷ ts) x (p, h) = (x.kept t.tail_id p, tails_on ts x h)

target_on : (o : Option BlockId) {s t : Builder} → Extends s t → TargetIn o s → TargetIn o t
target_on none x h = tt
target_on (some id) x h = x.kept id h

pub loop_on :
    (loop : Option LoopContext) {s t : Builder} → Extends s t → LoopIn loop s → LoopIn loop t
loop_on loop x h = record {
  break_in = target_on (break_of loop) x h.break_in;
  continue_in = target_on (continue_of loop) x h.continue_in;
}

module _ (ids : Ids) where
  pub exits_on : {s t : Builder} → Extends s t → Ready ids s → Ready ids t
  exits_on x h = record {
    graph = x.graph;
    normal = x.kept (normal_exit ids) h.normal;
    revert = x.kept (revert_exit ids) h.revert;
  }

  pub connect-Extends :
      (from to : BlockId) (kind : String) (condition : Option ℕ) (reachable : Bool) (s : Builder)
      → IsGraph s
      → IsIn from s
      → IsIn to s
      → Extends s (connect ids from to kind condition reachable s)
  unfolding connect
  connect-Extends from to kind condition reachable s h p q = add_edge-Extends _ s h p q

  pub connect_incoming-Extends :
      (ts : List Tail) (to : BlockId) (kind : String) (condition : Option ℕ) (s : Builder)
      → IsGraph s
      → TailsIn ts s
      → IsIn to s
      → Extends s (connect_incoming ids ts to kind condition s)
  unfolding connect_incoming
  connect_incoming-Extends [] to kind condition s h k q = same s h
  connect_incoming-Extends (t ∷ ts) to kind condition s h (p, k) q =
      let x = connect-Extends t.tail_id to kind condition t.reachable s h p q in
      and_then x
        (connect_incoming-Extends ts to kind condition _ x.graph (tails_on ts x k) (x.kept to q))

  pub enter-Extends :
      (id : BlockId) (kind : String) (ast_ids : List ℕ) (incoming : List Tail) (edge_kind : String)
      (condition : Option ℕ) (s : Builder)
      → IsGraph s
      → TailsIn incoming s
      → Extends s (enter ids id kind ast_ids incoming edge_kind condition s)
        × IsIn id (enter ids id kind ast_ids incoming edge_kind condition s)
  unfolding enter
  enter-Extends id kind ast_ids incoming edge_kind condition s h k =
      let (x, p) = make_block-Extends id kind ast_ids (any_reachable incoming) s h in
      let y =
        connect_incoming-Extends incoming id edge_kind condition _ x.graph (tails_on incoming x k)
          p in
      (and_then x y, y.kept id p)

  jump-Extends :
      (kind : String) (n : Node) (id : BlockId) (target : Option BlockId) (reachable : Bool)
      (type reason : String) (s : Builder)
      → IsGraph s
      → IsIn id s
      → TargetIn target s
      → Extends s (jump ids kind n id target reachable type reason s)
  unfolding jump
  jump-Extends kind n id none reachable type reason s h p q =
      let x = push_unsupported-Extends (unsupported type n reason) s h in
      and_then x (set_terminator-Extends id (terminator kind n [] none) _ x.graph)
  jump-Extends kind n id (some target) reachable type reason s h p q =
      let x = connect-Extends id target kind none reachable s h p q in
      and_then x (set_terminator-Extends id (terminator kind n (target ∷ []) none) _ x.graph)

  -- A terminator, and an edge.
  leave-Extends :
      (id to : BlockId) (t : Terminator) (kind : String) (condition : Option ℕ) (reachable : Bool)
      (s : Builder)
      → IsGraph s
      → IsIn id s
      → IsIn to s
      → Extends s (connect ids id to kind condition reachable (set_terminator id t s))
  leave-Extends id to t kind condition reachable s h p q =
      let x = set_terminator-Extends id t s h in
      and_then x
        (connect-Extends id to kind condition reachable _ x.graph (x.kept id p) (x.kept to q))

  stays-IsBuilt :
      (id : BlockId) (reachable : Bool) (s : Builder)
      → IsGraph s
      → IsIn id s
      → IsBuilt s (built (some id) (tail id reachable ∷ []) s)
  stays-IsBuilt id reachable s h p = record { extends = same s h; tails_in = (p, tt) }

  build_call-IsBuilt :
      (n : Node) (id : BlockId) (name : Option String) (argument : Option ℕ) (reachable : Bool)
      (s : Builder)
      → Ready ids s
      → IsIn id s
      → IsBuilt s (build_call ids n id name argument reachable s)
  unfolding build_call
  build_call-IsBuilt n id none argument reachable s h p = stays-IsBuilt id reachable s h.graph p
  build_call-IsBuilt n id (some name) argument reachable s h p =
      elim (Bool-cases (str_eq name "require" || str_eq name "assert")) [
        | inl fails ↦
            let x = set_kind-Extends id name s h.graph in
            let r = exits_on x h in
            let y = and_then x (
              leave-Extends id (revert_exit ids) _
                (if str_eq name "require" then "require-failure" else "assert-failure") argument
                reachable _ x.graph (x.kept id p) r.revert) in
            rw fails (record { extends = y; tails_in = (y.kept id p, tt) })
        | inr other ↦ elim (Bool-cases (str_eq name "revert")) [
          | inl reverts ↦
              let x = set_kind-Extends id "revert" s h.graph in
              let r = exits_on x h in
              rw (other, reverts)
                (record {
                  extends = and_then x (
                      leave-Extends id (revert_exit ids) _ "revert" none reachable _ x.graph
                        (x.kept id p) r.revert);
                  tails_in = tt;
                })
          | inr neither ↦ rw (other, neither) (stays-IsBuilt id reachable s h.graph p)
        ]
      ]

  pub build_leaf-IsBuilt :
      (n : Node) (l : Leaf) (id : BlockId) (reachable : Bool) (loop : Option LoopContext)
      (s : Builder)
      → Ready ids s
      → LoopIn loop s
      → IsIn id s
      → IsBuilt s (build_leaf ids n l id reachable loop s)
  unfolding build_leaf
  build_leaf-IsBuilt n try_statement id reachable loop s h k p =
      let x = push_unsupported-Extends _ s h.graph in
      record { extends = x; tails_in = (x.kept id p, tt) }
  build_leaf-IsBuilt n return_statement id reachable loop s h k p = record {
    extends = leave-Extends id (normal_exit ids) _ "return" none reachable s h.graph p h.normal;
    tails_in = tt;
  }
  build_leaf-IsBuilt n revert_statement id reachable loop s h k p = record {
    extends = leave-Extends id (revert_exit ids) _ "revert" none reachable s h.graph p h.revert;
    tails_in = tt;
  }
  build_leaf-IsBuilt n break_statement id reachable loop s h k p = record {
    extends = jump-Extends "break" n id (break_of loop) reachable _ _ s h.graph p (k.break_in);
    tails_in = tt;
  }
  build_leaf-IsBuilt n continue_statement id reachable loop s h k p = record {
    extends =
        jump-Extends "continue" n id (continue_of loop) reachable _ _ s h.graph p (k.continue_in);
    tails_in = tt;
  }
  build_leaf-IsBuilt n emit_statement id reachable loop s h k p =
      stays-IsBuilt id reachable s h.graph p
  build_leaf-IsBuilt n other_statement id reachable loop s h k p =
      stays-IsBuilt id reachable s h.graph p
  build_leaf-IsBuilt n (call_statement name argument) id reachable loop s h k p =
      build_call-IsBuilt n id name argument reachable s h p
