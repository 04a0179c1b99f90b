-- ===== src/Cfg/Whole.antt =====
-- The finished graph: its edges join its blocks, and each block's lists say what the edges say.
use veilforge.Base.{
  ◌==◌, ◌≡◌, ◌∙◌, refl, sym, ap, Bool, true, false, ◌&&◌, ◌||◌, none, List, [], ◌∷◌, map, any, All,
  arith, Bool-cases, inl, inr,
}
use veilforge.Base.Sets.{contains, contains-in_order, sort, any-sort, All-sort}
use veilforge.Cfg.Graph.{BlockId, BasicBlock, ControlFlowEdge, Unsupported, has_block}
use veilforge.Cfg.Statement.{Statement}
use veilforge.Cfg.Builder.{Ids, named, entry, normal_exit, revert_exit, tail, is_some}
use veilforge.Cfg.Build.{build_statement}
use veilforge.Cfg.Finish.{ControlFlowGraph, finish_block, start, walk, build}
use veilforge.Cfg.Linked.{
  targets_from, sources_to, is_entered, IsLinked, JoinsBlocks, has_block-map,
}
use veilforge.Cfg.Extends.{make_block-Extends}
use veilforge.Cfg.Leaves.{IsIn, Ready, exits_on, connect-Extends, connect_incoming-Extends}
use veilforge.Cfg.Walk.{build_statement-IsBuilt}

-- An edge from one block to another.
abbrev pub joins : BlockId → BlockId → ControlFlowEdge → Bool
joins from to e = e.from_block_id == from && e.to_block_id == to

-- The lists of a block have exactly the ends of its edges, and a block that an edge enters which can
-- be taken is not marked as unreachable.
pub record AgreesWith (edges : List ControlFlowEdge) (b : BasicBlock) : Type 0 where
  pub successors : (id : BlockId) → contains id b.successor_ids ≡ any (joins b.block_id id) edges
  pub predecessors :
      (id : BlockId) → contains id b.predecessor_ids ≡ any (joins id b.block_id) edges
  pub entered :
      (any (λ e. e.to_block_id == b.block_id && e.reachable) edges && b.unreachable) ≡ false

pub record IsControlFlowGraph (g : ControlFlowGraph) : Type 0 where
  pub joined : All (JoinsBlocks g.blocks) g.edges
  pub agreed : All (AgreesWith g.edges) g.blocks
  pub has_entry : has_block g.entry_block_id g.blocks ≡ true
  pub has_normal_exit : has_block g.normal_exit_block_id g.blocks ≡ true
  pub has_revert_exit : has_block g.revert_exit_block_id g.blocks ≡ true

contains-targets_from :
    (from to : BlockId) (es : List ControlFlowEdge)
    → contains to (targets_from from es) ≡ any (joins from to) es
unfolding targets_from
contains-targets_from from to [] = refl
contains-targets_from from to (e ∷ es) = ground (arith, contains-targets_from from to es)

contains-sources_to :
    (from to : BlockId) (es : List ControlFlowEdge)
    → contains from (sources_to to es) ≡ any (joins from to) es
unfolding sources_to
contains-sources_to from to [] = refl
contains-sources_to from to (e ∷ es) = ground (arith, contains-sources_to from to es)

is_entered_lem :
    (id : BlockId) (es : List ControlFlowEdge)
    → is_entered id es ≡ any (λ e. e.to_block_id == id && e.reachable) es
unfolding is_entered
is_entered_lem id [] = refl
is_entered_lem id (e ∷ es) =
    ap (λ b. (e.to_block_id == id && e.reachable) || b) (is_entered_lem id es)

finish_block-AgreesWith :
    (es : List ControlFlowEdge) (b : BasicBlock)
    → IsLinked es b
    → AgreesWith (sort (λ e. e.edge_id) es) (finish_block b)
unfolding finish_block
finish_block-AgreesWith es b h = record {
  successors = λ id.
      contains-in_order id b.successor_ids
      ∙ ap (contains id) h.successors
      ∙ contains-targets_from b.block_id id es
      ∙ sym (any-sort (λ e. e.edge_id) (joins b.block_id id) es);
  predecessors = λ id.
      contains-in_order id b.predecessor_ids
      ∙ ap (contains id) h.predecessors
      ∙ contains-sources_to id b.block_id es
      ∙ sym (any-sort (λ e. e.edge_id) (joins id b.block_id) es);
  entered =
      ap (λ x. x && b.unreachable)
        (any-sort (λ e. e.edge_id) (λ e. e.to_block_id == b.block_id && e.reachable) es
          ∙ sym (is_entered_lem b.block_id es))
      ∙ h.entered;
}

finish_blocks-AgreesWith :
    (es : List ControlFlowEdge) (bs : List BasicBlock)
    → All (IsLinked es) bs
    → All (AgreesWith (sort (λ e. e.edge_id) es)) (map finish_block bs)
finish_blocks-AgreesWith es [] h = tt
finish_blocks-AgreesWith es (b ∷ bs) (p, h) =
    (finish_block-AgreesWith es b p, finish_blocks-AgreesWith es bs h)

-- The finished blocks have the ids that the walked blocks have.
has_block-finished :
    (id : BlockId) (bs : List BasicBlock)
    → has_block id (sort (λ b. b.block_id) (map finish_block bs)) ≡ has_block id bs
unfolding finish_block
has_block-finished id bs =
    any-sort (λ b. b.block_id) (λ b. b.block_id == id) (map finish_block bs)
    ∙ has_block-map finish_block id bs (λ b. refl)

joined-finished :
    (bs : List BasicBlock) (es : List ControlFlowEdge)
    → All (JoinsBlocks bs) es
    → All (JoinsBlocks (sort (λ b. b.block_id) (map finish_block bs))) es
joined-finished bs [] h = tt
joined-finished bs (e ∷ es) (p, h) = (
  record {
    from = has_block-finished e.from_block_id bs ∙ p.from;
    to = has_block-finished e.to_block_id bs ∙ p.to;
  },
  joined-finished bs es h,
)

module _ (ids : Ids) where
  start-Ready :
      (unsupported : List Unsupported)
      → Ready ids (start ids unsupported) × IsIn (entry ids) (start ids unsupported)
  unfolding start
  start-Ready unsupported =
      let (x, p) =
        make_block-Extends (entry ids) "entry" [] true _ (record { joined = tt; linked = tt }) in
      let (y, q) = make_block-Extends (normal_exit ids) "normal-exit" [] false _ x.graph in
      let (z, r) = make_block-Extends (revert_exit ids) "revert-exit" [] false _ y.graph in
      (
        record { graph = z.graph; normal = z.kept (normal_exit ids) q; revert = r },
        z.kept (entry ids) (y.kept (entry ids) p),
      )

  walk-Ready :
      (flow : Statement) (unsupported : List Unsupported)
      → Ready ids (walk ids flow unsupported) × IsIn (entry ids) (walk ids flow unsupported)
  unfolding walk
  walk-Ready flow unsupported =
      let (r, e) = start-Ready unsupported in
      let result =
        build_statement-IsBuilt ids flow (tail (entry ids) true ∷ []) (named "root" ∷ []) none
          "next" none _ r (record { break_in = tt; continue_in = tt }) (e, tt) in
      let r₁ = exits_on ids result.extends r in
      let x =
        connect_incoming-Extends ids _ (normal_exit ids) "normal-exit" none _ r₁.graph
          result.tails_in r₁.normal in
      let r₂ = exits_on ids x r₁ in
      let e₂ = x.kept (entry ids) (result.extends.kept (entry ids) e) in
      elim (Bool-cases (
        is_some
          (build_statement ids flow (tail (entry ids) true ∷ []) (named "root" ∷ []) none "next"
            none (start ids unsupported)).entry_id)) [
              | inl some_entry ↦ rw some_entry (r₂, e₂)
              | inr none_entry ↦
                  let y =
                    connect-Extends ids (entry ids) (normal_exit ids) "normal-exit" none true _
                      r₂.graph e₂ r₂.normal in
                  rw none_entry (exits_on ids y r₂, y.kept (entry ids) e₂)
            ]

  -- For every flow, and whatever ids the digests give, the graph that build returns has its entry and
  -- both its exits among its blocks, each of its edges joins two of its blocks, the lists of a block
  -- have exactly the ends of the edges from it and to it, and no block is marked as unreachable that
  -- an edge enters which can be taken.
  pub build-IsControlFlowGraph :
      (flow : Statement) (unsupported : List Unsupported)
      → IsControlFlowGraph (build ids flow unsupported)
  unfolding build
  build-IsControlFlowGraph flow unsupported =
      let (r, e) = walk-Ready flow unsupported in
      let bs = (walk ids flow unsupported).blocks in
      let es = (walk ids flow unsupported).edges in
      record {
        joined =
            All-sort (λ e. e.edge_id) (JoinsBlocks (sort (λ b. b.block_id) (map finish_block bs)))
              es (joined-finished bs es r.graph.joined);
        agreed =
            All-sort (λ b. b.block_id) (AgreesWith (sort (λ e. e.edge_id) es)) (map finish_block bs)
              (finish_blocks-AgreesWith es bs r.graph.linked);
        has_entry = has_block-finished (entry ids) bs ∙ e;
        has_normal_exit = has_block-finished (normal_exit ids) bs ∙ r.normal;
        has_revert_exit = has_block-finished (revert_exit ids) bs ∙ r.revert;
      }
