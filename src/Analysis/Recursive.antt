-- ===== src/Analysis/Recursive.antt =====
-- markRecursiveEdges marks exactly the calls whose callee leads back to the caller.
use mathlib.Core.Path.{subst}
use veilforge.Base.{
  map, All, ℕ, zero, suc, ◌<◌, ◌==◌, ◌≡◌, ◌↔◌, refl, sym, Bool, true, false, Option, none, some,
  List, [], ◌∷◌, any, arith, Bool-cases, inl, inr, ==_iff,
}
use veilforge.Base.Sets.{contains}
use veilforge.Analysis.Search.{
  mark, mark_recursive_edges, Adjacency, targets, next_visited, next_worklist, edge_count, finds,
  is_recursive, CallEdge, call_adjacency,
}
use veilforge.Analysis.Adjacency.{calls, contains-call_adjacency}
use veilforge.Analysis.Frontier.{
  Leads, here, Leads-map, goes, seen, contains-append, Closed, Closed-next, Closed-start, seen-next,
  work, work-next, work-start,
}
use veilforge.Analysis.Reachable.{Reached, Reached-start, Reached-next, contains-Leads}

module _ (adjacency : Adjacency) (caller : ℕ) where
  finds_sound :
      (fuel start : ℕ) (visited worklist : List ℕ)
      → Reached adjacency start visited worklist
      → finds fuel adjacency caller visited worklist ≡ true
      → Leads (goes adjacency) start caller
  unfolding finds
  finds_sound zero start visited worklist h found = cc
  finds_sound (suc fuel) start visited [] h found = cc
  finds_sound (suc fuel) start visited (current ∷ worklist) h found =
      elim (Bool-cases (current == caller)) [
        | inl same ↦ h caller (ground (arith, same))
        | inr other ↦
            finds_sound fuel start (next_visited visited current)
              (next_worklist adjacency visited current worklist)
              (Reached-next adjacency start visited current worklist h)
              (ground (arith, found, other))
      ]

  next_visited-other :
      (visited : List ℕ) (current : ℕ)
      → contains caller visited ≡ false
      → (current == caller) ≡ false
      → contains caller (next_visited visited current) ≡ false
  next_visited-other visited current h other =
      ground (arith, contains-append caller visited (current ∷ []))

  -- A search that ends without a find has visited a closed set, and the caller is not in it.
  finds_complete :
      (fuel : ℕ) (visited worklist : List ℕ)
      → work adjacency visited worklist < fuel
      → Closed adjacency visited worklist
      → contains caller visited ≡ false
      → finds fuel adjacency caller visited worklist ≡ false
      → (result : List ℕ) × ((x : ℕ) → seen visited worklist x ≡ true → contains x result ≡ true)
        × Closed adjacency result []
        × (contains caller result ≡ false)
  unfolding finds
  finds_complete zero visited worklist enough closed out missed = absurd (omega (arith, enough))
  finds_complete (suc fuel) visited [] enough closed out missed =
      (visited, (λ x s. ground (arith, s)), closed, out)
  finds_complete (suc fuel) visited (current ∷ worklist) enough closed out missed =
      elim (Bool-cases (current == caller)) [
        | inl same ↦ let impossible : true ≡ false = ground (arith, same, missed) in cc
        | inr other ↦
            let (result, keeps, is_closed, without) =
              finds_complete fuel (next_visited visited current)
                (next_worklist adjacency visited current worklist)
                (omega (arith, enough, work-next adjacency visited current worklist))
                (Closed-next adjacency visited current worklist closed)
                (next_visited-other visited current out other) (ground (arith, missed, other)) in
            (
              result,
              (λ x s. keeps x (seen-next adjacency visited current worklist x s)),
              is_closed,
              without,
            )
      ]

-- The calls as steps from one callable to another.
abbrev pub call_step : List CallEdge → ℕ → ℕ → Bool
call_step edges a b = any (calls a b) edges

goes-calls :
    (edges : List CallEdge) (a b : ℕ) → goes (call_adjacency edges []) a b ≡ call_step edges a b
unfolding targets
goes-calls edges a b = contains-call_adjacency a b edges []

is_recursive_lem :
    (edges : List CallEdge) (caller callee : ℕ)
    → (is_recursive (call_adjacency edges []) caller (some callee) ≡ true)
      ↔ Leads (call_step edges) callee caller
unfolding is_recursive
is_recursive_lem edges caller callee =
    let adjacency = call_adjacency edges [] in
    let fuel = suc (suc (edge_count adjacency)) in
    elim (Bool-cases (caller == callee)) [
      | inl same ↦ (
        (λ _. subst (Leads (call_step edges) callee) (sym ((==_iff caller callee).0 same)) here),
        (λ _. rw same refl),
      )
      | inr other ↦ rw other (
        (λ found. Leads-map (goes adjacency) (call_step edges) callee caller (goes-calls edges) (
            finds_sound adjacency caller fuel callee [] (callee ∷ [])
              (Reached-start adjacency callee) found)),
        (λ way. elim (Bool-cases (finds fuel adjacency caller [] (callee ∷ []))) [
          | inl found ↦ found
          | inr missed ↦
              let (result, keeps, closed, without) =
                finds_complete adjacency caller fuel [] (callee ∷ []) (work-start adjacency callee)
                  (Closed-start adjacency callee) refl missed in
              let found =
                contains-Leads adjacency callee result (keeps callee (ground arith)) closed caller (
                  Leads-map (call_step edges) (goes adjacency) callee caller
                    (λ a b. sym (goes-calls edges a b)) way) in
              cc
        ]),
      )
    ]

-- A call is marked exactly when its callee is known and calls lead from there back to the caller.
abbrev pub IsMarked : List CallEdge → CallEdge → Type 0
IsMarked edges e = elim e.callee_callable_id [
  | none ↦ e.recursive ≡ false
  | some callee ↦ (e.recursive ≡ true) ↔ Leads (call_step edges) callee e.caller_callable_id
]

mark-IsMarked :
    (edges : List CallEdge) (caller : ℕ) (callee : Option ℕ) (recursive : Bool)
    → recursive ≡ false
    → IsMarked edges (mark edges caller callee recursive)
unfolding is_recursive
mark-IsMarked edges caller callee true h = cc
mark-IsMarked edges caller none false h = refl
mark-IsMarked edges caller (some callee) false h = is_recursive_lem edges caller callee

marks-IsMarked :
    (edges es : List CallEdge)
    → All (λ e. e.recursive ≡ false) es
    → All
        (IsMarked edges)
        (map (λ e. mark edges e.caller_callable_id e.callee_callable_id e.recursive) es)
marks-IsMarked edges [] h = tt
marks-IsMarked edges (e ∷ es) (p, h) = (
  mark-IsMarked edges e.caller_callable_id e.callee_callable_id e.recursive p,
  marks-IsMarked edges es h,
)

-- When no edge is marked at first, mark_recursive_edges marks exactly the edges whose callee is known
-- and from whose callee calls lead back to the caller.
pub mark_recursive_edges-IsMarked :
    (edges : List CallEdge)
    → All (λ e. e.recursive ≡ false) edges
    → All (IsMarked edges) (mark_recursive_edges edges)
unfolding mark_recursive_edges
mark_recursive_edges-IsMarked edges h = marks-IsMarked edges edges h
