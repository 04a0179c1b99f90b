-- ===== src/Analysis/Reachable.antt =====
-- reachableFrom finds exactly what can be reached, unless it stops at its limit.
use mathlib.Core.Path.{subst}
use veilforge.Base.{
  ℕ, zero, suc, ◌<◌, ltb, ◌≡◌, ◌↔◌, ◌∙◌, refl, sym, ap, true, false, List, [], ◌∷◌, ◌++◌, any,
  length, arith, Bool-cases, inl, inr, lt→ltb,
}
use veilforge.Base.Sets.{contains}
use veilforge.Analysis.Search.{
  Adjacency, next_visited, next_worklist, edge_count, reach, reachable_from, FlowEdge,
  build_adjacency,
}
use veilforge.Analysis.Adjacency.{flows, contains-build_adjacency}
use veilforge.Analysis.Frontier.{
  Closed-start, work-start, Leads, here, onward, Leads-map, goes, seen, Closed, Closed-next,
  seen-next, seen-next_only, work, work-next,
}

-- Every node that has been seen can be reached.
abbrev pub Reached : Adjacency → ℕ → List ℕ → List ℕ → Type 0
Reached adjacency start visited worklist =
    (x : ℕ) → seen visited worklist x ≡ true → Leads (goes adjacency) start x

pub Reached-next :
    (adjacency : Adjacency) (start : ℕ) (visited : List ℕ) (current : ℕ) (worklist : List ℕ)
    → Reached adjacency start visited (current ∷ worklist)
    → Reached adjacency start
        (next_visited visited current)
        (next_worklist adjacency visited current worklist)
Reached-next adjacency start visited current worklist h x s =
    elim (Bool-cases (seen visited (current ∷ worklist) x)) [
      | inl old ↦ h x old
      | inr new ↦
          let only = seen-next_only adjacency visited current worklist x s in
          onward (h current (ground arith)) (ground (arith, only, new))
    ]

pub Reached-start : (adjacency : Adjacency) (start : ℕ) → Reached adjacency start [] (start ∷ [])
Reached-start adjacency start x s =
    let same : start ≡ x = ground (arith, s) in subst (Leads (goes adjacency) start) same here

module _ (fuel : ℕ) (adjacency : Adjacency) (limit : ℕ) (visited : List ℕ) (current : ℕ)
    (worklist : List ℕ) where
  reach-below :
      ltb (length visited) limit ≡ true
      → reach (suc fuel) adjacency limit visited (current ∷ worklist)
        ≡ reach fuel adjacency limit
            (next_visited visited current)
            (next_worklist adjacency visited current worklist)
  unfolding reach
  reach-below h = rw h refl

  reach-full :
      ltb (length visited) limit ≡ false
      → reach (suc fuel) adjacency limit visited (current ∷ worklist) ≡ visited
  unfolding reach
  reach-full h = rw h refl

reach_sound :
    (fuel : ℕ) (adjacency : Adjacency) (limit start : ℕ) (visited worklist : List ℕ)
    → Reached adjacency start visited worklist
    → (x : ℕ) → contains x (reach fuel adjacency limit visited worklist) ≡ true
    → Leads (goes adjacency) start x
unfolding reach
reach_sound zero adjacency limit start visited worklist h x found = h x (ground (arith, found))
reach_sound (suc fuel) adjacency limit start visited [] h x found = h x (ground (arith, found))
reach_sound (suc fuel) adjacency limit start visited (current ∷ worklist) h x found =
    elim (Bool-cases (ltb (length visited) limit)) [
      | inl below ↦
          reach_sound fuel adjacency limit start (next_visited visited current)
            (next_worklist adjacency visited current worklist)
            (Reached-next adjacency start visited current worklist h) x
            (ap (contains x) (sym (reach-below fuel adjacency limit visited current worklist below))
              ∙ found)
      | inr full ↦
          let old : contains x visited ≡ true =
            ap (contains x) (sym (reach-full fuel adjacency limit visited current worklist full))
            ∙ found in
          h x (ground (arith, old))
    ]

-- The result of a search that is not cut off: all that has been seen, and where it leads.
pub record IsComplete (adjacency : Adjacency) (visited worklist result : List ℕ) : Type 0 where
  pub keeps : (x : ℕ) → seen visited worklist x ≡ true → contains x result ≡ true
  pub closed : Closed adjacency result []

reach-IsComplete :
    (fuel : ℕ) (adjacency : Adjacency) (limit : ℕ) (visited worklist : List ℕ)
    → work adjacency visited worklist < fuel
    → Closed adjacency visited worklist
    → length (reach fuel adjacency limit visited worklist) < limit
    → IsComplete adjacency visited worklist (reach fuel adjacency limit visited worklist)
unfolding reach
reach-IsComplete zero adjacency limit visited worklist enough closed within =
    absurd (omega (arith, enough))
reach-IsComplete (suc fuel) adjacency limit visited [] enough closed within = record {
  keeps = λ x s. ground (arith, s);
  closed = closed;
}
reach-IsComplete (suc fuel) adjacency limit visited (current ∷ worklist) enough closed within =
    elim (Bool-cases (ltb (length visited) limit)) [
      | inl below ↦
          let turn = reach-below fuel adjacency limit visited current worklist below in
          let rest =
            reach-IsComplete fuel adjacency limit (next_visited visited current)
              (next_worklist adjacency visited current worklist)
              (omega (arith, enough, work-next adjacency visited current worklist))
              (Closed-next adjacency visited current worklist closed) (rw (← turn) within) in
          rw turn (record {
            keeps = λ x s. rest.keeps x (seen-next adjacency visited current worklist x s);
            closed = rest.closed;
          })
      | inr full ↦ absurd (
          let over = reach-full fuel adjacency limit visited current worklist full in
          let short : length visited < limit = rw (← over) within in
          cc (lt→ltb (length visited) limit short))
    ]

pub contains-Leads :
    (adjacency : Adjacency) (start : ℕ) (result : List ℕ)
    → contains start result ≡ true
    → Closed adjacency result []
    → (x : ℕ) → Leads (goes adjacency) start x
    → contains x result ≡ true
contains-Leads adjacency start result first closed _ here = first
contains-Leads adjacency start result first closed b (onward {a} way step) =
    let before = contains-Leads adjacency start result first closed a way in
    ground (arith, closed a b before step)

-- A search that ends below its limit finds exactly the nodes that the edges lead to, along any number
-- of them; the search takes at most one turn, and one for each target, before it ends.
pub reachable_from_lem :
    (start limit : ℕ) (within between : List FlowEdge) (x : ℕ)
    → length (reachable_from start (build_adjacency within between) limit) < limit
    → (contains x (reachable_from start (build_adjacency within between) limit) ≡ true)
      ↔ Leads (λ a b. any (flows a b) (within ++ between)) start x
unfolding reachable_from
reachable_from_lem start limit within between x h =
    let adjacency = build_adjacency within between in
    let fuel = suc (suc (edge_count adjacency)) in
    let complete =
      reach-IsComplete fuel adjacency limit [] (start ∷ []) (work-start adjacency start)
        (Closed-start adjacency start) h in
    (
      (λ found.
          Leads-map (goes adjacency) (λ a b. any (flows a b) (within ++ between)) start x
            (λ a b. contains-build_adjacency a b within between)
            (reach_sound fuel adjacency limit start [] (start ∷ []) (Reached-start adjacency start)
              x found)),
      (λ way.
          contains-Leads adjacency start (reach fuel adjacency limit [] (start ∷ []))
            (complete.keeps start (ground arith)) complete.closed x
            (Leads-map (λ a b. any (flows a b) (within ++ between)) (goes adjacency) start x
              (λ a b. sym (contains-build_adjacency a b within between)) way)),
    )
