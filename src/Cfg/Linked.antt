-- ===== src/Cfg/Linked.antt =====
-- What holds of a graph under construction: its edges join its blocks, and the lists of each block
-- say what the edges say.

use veilforge.Base.{
  ==_iff, ◌==◌, ◌≡◌, refl, Bool, true, false, ◌&&◌, ◌||◌, List, [], ◌∷◌, ◌++◌, map, All,
  if◌then◌else◌, arith, Bool-cases, inl, inr,
}
use veilforge.Cfg.Graph.{BlockId, BasicBlock, ControlFlowEdge, Builder, has_block, link}

unfoldable pub targets_from : BlockId → List ControlFlowEdge → List BlockId
targets_from id [] = []
targets_from id (e ∷ es) =
    let rest = targets_from id es in if e.from_block_id == id then e.to_block_id ∷ rest else rest

unfoldable pub sources_to : BlockId → List ControlFlowEdge → List BlockId
sources_to id [] = []
sources_to id (e ∷ es) =
    let rest = sources_to id es in if e.to_block_id == id then e.from_block_id ∷ rest else rest

-- Some edge that can be taken enters the block.
unfoldable pub is_entered : BlockId → List ControlFlowEdge → Bool
is_entered id [] = false
is_entered id (e ∷ es) = (e.to_block_id == id && e.reachable) || is_entered id es

pub record IsLinked (edges : List ControlFlowEdge) (b : BasicBlock) : Type 0 where
  pub successors : b.successor_ids ≡ targets_from b.block_id edges
  pub predecessors : b.predecessor_ids ≡ sources_to b.block_id edges
  pub entered : (is_entered b.block_id edges && b.unreachable) ≡ false

pub record JoinsBlocks (blocks : List BasicBlock) (e : ControlFlowEdge) : Type 0 where
  pub from : has_block e.from_block_id blocks ≡ true
  pub to : has_block e.to_block_id blocks ≡ true

pub record IsGraph (s : Builder) : Type 0 where
  pub joined : All (JoinsBlocks s.blocks) s.edges
  pub linked : All (IsLinked s.edges) s.blocks

targets_from-snoc :
    (id : BlockId) (es : List ControlFlowEdge) (e : ControlFlowEdge)
    → targets_from id (es ++ (e ∷ [])) ≡ (
        if e.from_block_id == id
        then targets_from id es ++ (e.to_block_id ∷ [])
        else targets_from id es)
unfolding targets_from
targets_from-snoc id [] e = refl
targets_from-snoc id (x ∷ es) e = ground (arith, targets_from-snoc id es e)

sources_to-snoc :
    (id : BlockId) (es : List ControlFlowEdge) (e : ControlFlowEdge)
    → sources_to id (es ++ (e ∷ [])) ≡ (
        if e.to_block_id == id
        then sources_to id es ++ (e.from_block_id ∷ [])
        else sources_to id es)
unfolding sources_to
sources_to-snoc id [] e = refl
sources_to-snoc id (x ∷ es) e = ground (arith, sources_to-snoc id es e)

is_entered-snoc :
    (id : BlockId) (es : List ControlFlowEdge) (e : ControlFlowEdge)
    → is_entered id (es ++ (e ∷ [])) ≡ (is_entered id es || (e.to_block_id == id && e.reachable))
unfolding is_entered
is_entered-snoc id [] e = ground arith
is_entered-snoc id (x ∷ es) e = ground (arith, is_entered-snoc id es e)

link-IsLinked :
    (es : List ControlFlowEdge) (e : ControlFlowEdge) (b : BasicBlock)
    → IsLinked es b
    → IsLinked (es ++ (e ∷ [])) (link e b)
link-IsLinked es e b h = record {
  successors = ground (arith, targets_from-snoc b.block_id es e, h.successors);
  predecessors = ground (arith, sources_to-snoc b.block_id es e, h.predecessors);
  entered = ground (arith, is_entered-snoc b.block_id es e, h.entered);
}

pub links-IsLinked :
    (es : List ControlFlowEdge) (e : ControlFlowEdge) (bs : List BasicBlock)
    → All (IsLinked es) bs
    → All (IsLinked (es ++ (e ∷ []))) (map (link e) bs)
links-IsLinked es e [] h = tt
links-IsLinked es e (b ∷ bs) (p, h) = (link-IsLinked es e b p, links-IsLinked es e bs h)

-- A change that keeps ids keeps what is in the list.
pub has_block-map :
    (f : BasicBlock → BasicBlock) (id : BlockId) (bs : List BasicBlock)
    → ((b : BasicBlock) → (f b).block_id ≡ b.block_id)
    → has_block id (map f bs) ≡ has_block id bs
has_block-map f id [] h = refl
has_block-map f id (b ∷ bs) h = rw (h b, has_block-map f id bs h) refl

pub has_block-append :
    (id : BlockId) (as_ bs : List BasicBlock)
    → has_block id (as_ ++ bs) ≡ (has_block id as_ || has_block id bs)
has_block-append id [] bs = refl
has_block-append id (a ∷ as_) bs = ground (arith, has_block-append id as_ bs)

pub joined-kept :
    (bs cs : List BasicBlock) (es : List ControlFlowEdge)
    → ((id : BlockId) → has_block id bs ≡ true → has_block id cs ≡ true)
    → All (JoinsBlocks bs) es
    → All (JoinsBlocks cs) es
joined-kept bs cs [] kept h = tt
joined-kept bs cs (e ∷ es) kept (p, h) = (
  record { from = kept e.from_block_id p.from; to = kept e.to_block_id p.to },
  joined-kept bs cs es kept h,
)

apart :
    (x y : BlockId) (bs : List BasicBlock)
    → has_block x bs ≡ true
    → has_block y bs ≡ false
    → (x == y) ≡ false
apart x y bs h k = elim (Bool-cases (x == y)) [
  | inl same ↦ cc ((==_iff x y).0 same)
  | inr other ↦ other
]

-- No edge touches what is not a block.
pub no_edges :
    (id : BlockId) (bs : List BasicBlock) (es : List ControlFlowEdge)
    → has_block id bs ≡ false
    → All (JoinsBlocks bs) es
    → (targets_from id es ≡ []) × (sources_to id es ≡ []) × (is_entered id es ≡ false)
unfolding targets_from sources_to is_entered
no_edges id bs [] h k = (refl, refl, refl)
no_edges id bs (e ∷ es) h (p, k) =
    let (none_from, none_to, not_entered) = no_edges id bs es h k in
    let other_from = apart e.from_block_id id bs p.from h in
    let other_to = apart e.to_block_id id bs p.to h in (ground arith, ground arith, ground arith)
