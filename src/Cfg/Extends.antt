-- ===== src/Cfg/Extends.antt =====
-- Each operation on a graph extends it: the result is a graph with all the blocks that were there.
use Prim.Native.String.{String}
use veilforge.Base.{
  ℕ, ◌≡◌, ◌∙◌, refl, sym, Bool, true, List, [], ◌∷◌, ◌++◌, map, All, All-append, arith, Bool-cases,
  inl, inr,
}
use veilforge.Cfg.Graph.{
  BlockId, Terminator, BasicBlock, ControlFlowEdge, Builder, has_block, has_edge, new_block,
  make_block, link, add_edge, with_terminator, on_blocks, with_kind, set_terminator, set_kind,
  push_unsupported, Unsupported,
}
use veilforge.Cfg.Linked.{
  IsLinked, JoinsBlocks, IsGraph, joined-kept, no_edges, links-IsLinked, has_block-map,
  has_block-append,
}

-- What each operation on a graph establishes: a graph again, with all the blocks that were there.
pub record Extends (s t : Builder) : Type 0 where
  pub graph : IsGraph t
  pub kept : (id : BlockId) → has_block id s.blocks ≡ true → has_block id t.blocks ≡ true

pub same : (s : Builder) → IsGraph s → Extends s s
same s h = record { graph = h; kept = λ id k. k }

pub and_then : {s t u : Builder} → Extends s t → Extends t u → Extends s u
and_then a b = record { graph = b.graph; kept = λ id k. b.kept id (a.kept id k) }

pub make_block-Extends :
    (id : BlockId) (kind : String) (ast_ids : List ℕ) (reachable : Bool) (s : Builder)
    → IsGraph s
    → Extends s (make_block id kind ast_ids reachable s)
      × (has_block id (make_block id kind ast_ids reachable s).blocks ≡ true)
unfolding make_block
make_block-Extends id kind ast_ids reachable s h = elim (Bool-cases (has_block id s.blocks)) [
  | inl old ↦ rw old (same s h, old)
  | inr new ↦
      let b = new_block id kind ast_ids reachable in
      let kept : (x : BlockId)
          → has_block x s.blocks ≡ true
          → has_block x (s.blocks ++ (b ∷ [])) ≡ true =
        λ x k. ground (arith, has_block-append x s.blocks (b ∷ []), k) in
      let (none_from, none_to, not_entered) = no_edges id s.blocks s.edges new h.joined in
      rw new (
        record {
          graph = record {
            joined = joined-kept s.blocks (s.blocks ++ (b ∷ [])) s.edges kept h.joined;
            linked = All-append (IsLinked s.edges) s.blocks (b ∷ []) h.linked (
              record {
                successors = sym none_from;
                predecessors = sym none_to;
                entered = ground (arith, not_entered);
              },
              tt,
            );
          };
          kept = kept;
        },
        ground (arith, has_block-append id s.blocks (b ∷ [])),
      )
]

pub add_edge-Extends :
    (e : ControlFlowEdge) (s : Builder)
    → IsGraph s
    → has_block e.from_block_id s.blocks ≡ true
    → has_block e.to_block_id s.blocks ≡ true
    → Extends s (add_edge e s)
unfolding add_edge
add_edge-Extends e s h from to = elim (Bool-cases (has_edge e.edge_id s.edges)) [
  | inl old ↦ rw old (same s h)
  | inr new ↦
      let kept : (x : BlockId)
          → has_block x s.blocks ≡ true
          → has_block x (map (link e) s.blocks) ≡ true =
        λ x k. has_block-map (link e) x s.blocks (λ b. refl) ∙ k in
      rw new (record {
        graph = record {
          joined =
              All-append (JoinsBlocks (map (link e) s.blocks)) s.edges (e ∷ [])
                (joined-kept s.blocks (map (link e) s.blocks) s.edges kept h.joined)
                (record { from = kept e.from_block_id from; to = kept e.to_block_id to }, tt);
          linked = links-IsLinked s.edges e s.blocks h.linked;
        };
        kept = kept;
      })
]

changed-IsLinked :
    (f : BasicBlock → BasicBlock) (es : List ControlFlowEdge) (bs : List BasicBlock)
    → ((b : BasicBlock) → IsLinked es b → IsLinked es (f b))
    → All (IsLinked es) bs
    → All (IsLinked es) (map f bs)
changed-IsLinked f es [] k h = tt
changed-IsLinked f es (b ∷ bs) k (p, h) = (k b p, changed-IsLinked f es bs k h)

on_blocks-Extends :
    (f : BasicBlock → BasicBlock) (s : Builder)
    → ((b : BasicBlock) → (f b).block_id ≡ b.block_id)
    → ((b : BasicBlock) → IsLinked s.edges b → IsLinked s.edges (f b))
    → IsGraph s
    → Extends s (on_blocks f s)
on_blocks-Extends f s same_id linked h =
    let kept : (x : BlockId) → has_block x s.blocks ≡ true → has_block x (map f s.blocks) ≡ true =
      λ x k. has_block-map f x s.blocks same_id ∙ k in
    record {
      graph = record {
        joined = joined-kept s.blocks (map f s.blocks) s.edges kept h.joined;
        linked = changed-IsLinked f s.edges s.blocks linked h.linked;
      };
      kept = kept;
    }

relinked :
    (es : List ControlFlowEdge) (b c : BasicBlock)
    → b.block_id ≡ c.block_id
    → b.successor_ids ≡ c.successor_ids
    → b.predecessor_ids ≡ c.predecessor_ids
    → b.unreachable ≡ c.unreachable
    → IsLinked es b
    → IsLinked es c
relinked es b c i p q r h = record {
  successors = rw (← i, ← p) h.successors;
  predecessors = rw (← i, ← q) h.predecessors;
  entered = rw (← i, ← r) h.entered;
}

pub set_terminator-Extends :
    (id : BlockId) (t : Terminator) (s : Builder) → IsGraph s → Extends s (set_terminator id t s)
unfolding set_terminator
set_terminator-Extends id t s h =
    on_blocks-Extends (with_terminator id t) s (λ b. refl)
      (λ b. relinked s.edges b (with_terminator id t b) refl refl refl refl) h

pub set_kind-Extends :
    (id : BlockId) (kind : String) (s : Builder) → IsGraph s → Extends s (set_kind id kind s)
unfolding set_kind
set_kind-Extends id kind s h =
    on_blocks-Extends (with_kind id kind) s (λ b. refl)
      (λ b. relinked s.edges b (with_kind id kind b) refl refl refl refl) h

pub push_unsupported-Extends :
    (u : Unsupported) (s : Builder) → IsGraph s → Extends s (push_unsupported u s)
unfolding push_unsupported
push_unsupported-Extends u s h = record {
  graph = record { joined = h.joined; linked = h.linked };
  kept = λ id k. k;
}
