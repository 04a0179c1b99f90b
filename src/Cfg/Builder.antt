-- ===== src/Cfg/Builder.antt =====
-- CFGBuilder of cfg-builder.js: the graph of a flow. An occurrence is the path that the source writes
-- as a text with slashes, the last segment first. What makeBlock and addEdge hash into ids is the
-- argument of two parameters, since nothing but the equality and the order of ids is used.
use Prim.Native.String.{String}
use text.Mathlib.Text.{◌==◌ as str_eq}
use veilforge.Base.{ℕ, Bool, true, false, ◌||◌, Option, none, some, List, [], ◌∷◌, if◌then◌else◌}
use veilforge.Cfg.Graph.{
  BlockId, Terminator, Builder, Tail, Unsupported, any_reachable, make_block, add_edge,
  set_terminator, set_kind, push_unsupported,
}
use veilforge.Cfg.Statement.{
  Node, Leaf, try_statement, return_statement, revert_statement, break_statement,
  continue_statement, emit_statement, other_statement, call_statement,
}

pub data Segment : Type 0 where
  named : String → Segment
  indexed placeholder_of : ℕ → Segment

abbrev pub Occurrence : Type 0
Occurrence = List Segment

-- The digests of ids.
pub record Ids : Type 0 where
  pub block_id : String → Option Node → Occurrence → BlockId
  pub edge_id : BlockId → BlockId → String → Option ℕ → BlockId

-- The blocks that the constructor makes.
abbrev pub entry : Ids → BlockId
entry ids = ids.block_id "entry" none (named "entry" ∷ [])

abbrev pub normal_exit : Ids → BlockId
normal_exit ids = ids.block_id "normal-exit" none (named "normal-exit" ∷ [])

abbrev pub revert_exit : Ids → BlockId
revert_exit ids = ids.block_id "revert-exit" none (named "revert-exit" ∷ [])

-- Where `break` and `continue` go.
pub record LoopContext : Type 0 where
  pub break_target : BlockId
  pub continue_target : BlockId

pub record Built : Type 0 where
  pub entry_id : Option BlockId
  pub tails : List Tail
  pub state : Builder

abbrev pub built : Option BlockId → List Tail → Builder → Built
built entry tails s = record { entry_id = entry; tails = tails; state = s }

abbrev pub tail : BlockId → Bool → Tail
tail id reachable = record { tail_id = id; reachable = reachable }

abbrev pub ast_id_of : Option Node → Option ℕ
ast_id_of none = none
ast_id_of (some n) = some n.ast_id

abbrev pub ids_of : Option Node → List ℕ
ids_of none = []
ids_of (some n) = n.ast_id ∷ []

abbrev pub or_else : Option BlockId → Option BlockId → Option BlockId
or_else none o = o
or_else (some x) o = some x

-- `.filter(Boolean)`
abbrev pub present : Option BlockId → List BlockId
present none = []
present (some x) = x ∷ []

abbrev pub is_some {ℓ} : {A : Type ℓ} → Option A → Bool
is_some none = false
is_some (some a) = true

abbrev pub terminator : String → Node → List BlockId → Option ℕ → Terminator
terminator kind n targets condition = record {
  kind = kind;
  ast_node_id = n.ast_id;
  target_block_ids = targets;
  condition_ast_id = condition;
}

abbrev pub unsupported : String → Node → String → Unsupported
unsupported type n reason = record { node_type = type; ast_node_id = n.ast_id; reason = reason }

abbrev pub leaf_kind : Leaf → String
leaf_kind return_statement = "return"
leaf_kind revert_statement = "revert"
leaf_kind break_statement = "break"
leaf_kind continue_statement = "continue"
leaf_kind emit_statement = "emit"
leaf_kind try_statement = "unsupported-try"
leaf_kind other_statement = "statement"
leaf_kind (call_statement name argument) = "statement"

abbrev pub break_of : Option LoopContext → Option BlockId
break_of none = none
break_of (some l) = some l.break_target

abbrev pub continue_of : Option LoopContext → Option BlockId
continue_of none = none
continue_of (some l) = some l.continue_target

module _ (ids : Ids) where
  unfoldable pub connect : BlockId → BlockId → String → Option ℕ → Bool → Builder → Builder
  connect from to kind condition reachable s =
      add_edge
        (record {
          edge_id = ids.edge_id from to kind condition;
          from_block_id = from;
          to_block_id = to;
          edge_kind = kind;
          condition_ast_id = condition;
          reachable = reachable;
        })
        s

  unfoldable pub connect_incoming : List Tail → BlockId → String → Option ℕ → Builder → Builder
  connect_incoming [] to kind condition s = s
  connect_incoming (t ∷ ts) to kind condition s =
      connect_incoming ts to kind condition (connect t.tail_id to kind condition t.reachable s)

  -- A block, entered from what came before.
  unfoldable pub enter :
      BlockId → String → List ℕ → List Tail → String → Option ℕ → Builder → Builder
  enter id kind ast_ids incoming edge_kind condition s =
      connect_incoming incoming id edge_kind condition
        (make_block id kind ast_ids (any_reachable incoming) s)

  -- An edge to where a loop goes on, or ends.
  unfoldable pub jump :
      String → Node → BlockId → Option BlockId → Bool → String → String → Builder → Builder
  jump kind n id none reachable type reason s =
      set_terminator id (terminator kind n [] none) (push_unsupported (unsupported type n reason) s)
  jump kind n id (some target) reachable type reason s =
      set_terminator id (terminator kind n (target ∷ []) none)
        (connect id target kind none reachable s)

  -- `require` and `assert` may revert, `revert` does.
  unfoldable pub build_call : Node → BlockId → Option String → Option ℕ → Bool → Builder → Built
  build_call n id none argument reachable s = built (some id) (tail id reachable ∷ []) s
  build_call n id (some name) argument reachable s =
      if str_eq name "require" || str_eq name "assert"
      then built (some id) (tail id reachable ∷ []) (
          connect id (revert_exit ids)
            (if str_eq name "require" then "require-failure" else "assert-failure") argument
            reachable
            (set_terminator id (terminator "conditional-revert" n ((revert_exit ids) ∷ []) argument)
              (set_kind id name s)))
      else if str_eq name "revert"
      then built (some id) [] (
          connect id (revert_exit ids) "revert" none reachable (
            set_terminator id (terminator "revert" n ((revert_exit ids) ∷ []) none)
              (set_kind id "revert" s)))
      else built (some id) (tail id reachable ∷ []) s

  -- After the block of a leaf is made and entered.
  unfoldable pub build_leaf : Node → Leaf → BlockId → Bool → Option LoopContext → Builder → Built
  unfolding build_call
  build_leaf n try_statement id reachable loop s = built (some id) (tail id reachable ∷ []) (
      push_unsupported (unsupported "TryStatement" n "try/catch CFG is not modeled in Phase 2B-2")
        s)
  build_leaf n return_statement id reachable loop s = built (some id) [] (
      connect id (normal_exit ids) "return" none reachable
        (set_terminator id (terminator "return" n ((normal_exit ids) ∷ []) none) s))
  build_leaf n revert_statement id reachable loop s = built (some id) [] (
      connect id (revert_exit ids) "revert" none reachable
        (set_terminator id (terminator "revert" n ((revert_exit ids) ∷ []) none) s))
  build_leaf n break_statement id reachable loop s =
      built (some id) []
        (jump "break" n id (break_of loop) reachable "Break" "break outside modeled loop" s)
  build_leaf n continue_statement id reachable loop s = built (some id) [] (
      jump "continue" n id (continue_of loop) reachable "Continue" "continue outside modeled loop"
        s)
  build_leaf n emit_statement id reachable loop s = built (some id) (tail id reachable ∷ []) s
  build_leaf n other_statement id reachable loop s = built (some id) (tail id reachable ∷ []) s
  build_leaf n (call_statement name argument) id reachable loop s =
      build_call n id name argument reachable s
