-- ===== src/Cfg/Graph.antt =====
-- The graph under construction: makeBlock, addEdge and connectIncoming of cfg-builder.js on the
-- blocks and edges of cfg.js. An id is the number that its digest spells, so ids have the order of
-- their texts. The maps blockById and edgeById hold what the lists hold. Locations are left out: a
-- block's own goes into its id, and no operation reads it.
use Prim.Native.String.{String}
use veilforge.Base.{
  ℕ, ◌==◌, Bool, true, not, ◌&&◌, Option, none, some, List, [], ◌∷◌, ◌++◌, map, any, if◌then◌else◌,
}

abbrev pub BlockId : Type 0
BlockId = ℕ

pub record Terminator : Type 0 where
  pub kind : String
  pub ast_node_id : ℕ
  pub target_block_ids : List BlockId
  pub condition_ast_id : Option ℕ

pub record BasicBlock : Type 0 where
  pub block_id : BlockId
  pub kind : String
  pub statement_ast_ids : List ℕ
  pub predecessor_ids : List BlockId
  pub successor_ids : List BlockId
  pub terminator : Option Terminator
  pub unreachable : Bool

pub record ControlFlowEdge : Type 0 where
  pub edge_id : BlockId
  pub from_block_id : BlockId
  pub to_block_id : BlockId
  pub edge_kind : String
  pub condition_ast_id : Option ℕ
  pub reachable : Bool

pub record Unsupported : Type 0 where
  pub node_type : String
  pub ast_node_id : ℕ
  pub reason : String

-- The lists of a `CFGBuilder`.
pub record Builder : Type 0 where
  pub blocks : List BasicBlock
  pub edges : List ControlFlowEdge
  pub unsupported_control_flow : List Unsupported

-- The end of a statement: the block that the next one is entered from.
pub record Tail : Type 0 where
  pub tail_id : BlockId
  pub reachable : Bool

-- `blockById.has(id)` and `edgeById.has(id)`
abbrev pub has_block : BlockId → List BasicBlock → Bool
has_block id blocks = any (λ b. b.block_id == id) blocks

abbrev pub has_edge : BlockId → List ControlFlowEdge → Bool
has_edge id edges = any (λ e. e.edge_id == id) edges

-- A block that is not there counts as unreachable.
abbrev pub unreachable_in : List BasicBlock → BlockId → Bool
unreachable_in [] id = true
unreachable_in (b ∷ bs) id =
    let rest = unreachable_in bs id in if b.block_id == id then b.unreachable else rest

abbrev pub is_unreachable : Builder → BlockId → Bool
is_unreachable s id = unreachable_in s.blocks id

abbrev pub any_reachable : List Tail → Bool
any_reachable tails = any (λ t. t.reachable) tails

-- `new BasicBlock({ … })`
abbrev pub new_block : BlockId → String → List ℕ → Bool → BasicBlock
new_block id kind ast_ids reachable = record {
  block_id = id;
  kind = kind;
  statement_ast_ids = ast_ids;
  predecessor_ids = [];
  successor_ids = [];
  terminator = none;
  unreachable = not reachable;
}

unfoldable pub make_block : BlockId → String → List ℕ → Bool → Builder → Builder
make_block id kind ast_ids reachable s = if has_block id s.blocks then s else record {
  blocks = s.blocks ++ (new_block id kind ast_ids reachable ∷ []);
  edges = s.edges;
  unsupported_control_flow = s.unsupported_control_flow;
}

-- What a new edge does to a block.
abbrev pub link : ControlFlowEdge → BasicBlock → BasicBlock
link e b = record {
  block_id = b.block_id;
  kind = b.kind;
  statement_ast_ids = b.statement_ast_ids;
  predecessor_ids =
      if e.to_block_id == b.block_id
      then b.predecessor_ids ++ (e.from_block_id ∷ [])
      else b.predecessor_ids;
  successor_ids =
      if e.from_block_id == b.block_id
      then b.successor_ids ++ (e.to_block_id ∷ [])
      else b.successor_ids;
  terminator = b.terminator;
  unreachable = b.unreachable && not (e.to_block_id == b.block_id && e.reachable);
}

-- The source takes both blocks from the map without a test; each caller passes the ids of blocks
-- that it has made.
unfoldable pub add_edge : ControlFlowEdge → Builder → Builder
add_edge e s = if has_edge e.edge_id s.edges then s else record {
  blocks = map (link e) s.blocks;
  edges = s.edges ++ (e ∷ []);
  unsupported_control_flow = s.unsupported_control_flow;
}

-- An assignment to a block's terminator, and one to its kind.
abbrev pub with_terminator : BlockId → Terminator → BasicBlock → BasicBlock
with_terminator id t b = record {
  block_id = b.block_id;
  kind = b.kind;
  statement_ast_ids = b.statement_ast_ids;
  predecessor_ids = b.predecessor_ids;
  successor_ids = b.successor_ids;
  terminator = if b.block_id == id then some t else b.terminator;
  unreachable = b.unreachable;
}

abbrev pub with_kind : BlockId → String → BasicBlock → BasicBlock
with_kind id kind b = record {
  block_id = b.block_id;
  kind = if b.block_id == id then kind else b.kind;
  statement_ast_ids = b.statement_ast_ids;
  predecessor_ids = b.predecessor_ids;
  successor_ids = b.successor_ids;
  terminator = b.terminator;
  unreachable = b.unreachable;
}

abbrev pub on_blocks : (BasicBlock → BasicBlock) → Builder → Builder
on_blocks f s = record {
  blocks = map f s.blocks;
  edges = s.edges;
  unsupported_control_flow = s.unsupported_control_flow;
}

unfoldable pub set_terminator : BlockId → Terminator → Builder → Builder
set_terminator id t s = on_blocks (with_terminator id t) s

unfoldable pub set_kind : BlockId → String → Builder → Builder
set_kind id kind s = on_blocks (with_kind id kind) s

unfoldable pub push_unsupported : Unsupported → Builder → Builder
push_unsupported u s = record {
  blocks = s.blocks;
  edges = s.edges;
  unsupported_control_flow = s.unsupported_control_flow ++ (u ∷ []);
}
