-- ===== src/Analysis/Frontier.antt =====
-- The invariant of a search: what has been visited leads only to what has been visited or waits, and
-- each turn makes the search shorter.
use veilforge.Base.{
  ℕ, suc, ◌+◌, ◌≤◌, ◌<◌, ◌==◌, ◌≡◌, ◌∙◌, refl, sym, ap, Bool, true, false, ◌||◌, List, [], ◌∷◌,
  ◌++◌, length, length-append, if◌then◌else◌, arith, Bool-cases, inl, inr, ==_iff,
}
use veilforge.Base.Sets.{contains}
use veilforge.Analysis.Search.{
  Adjacency, targets, unvisited, next_visited, next_worklist, edge_count,
}
use veilforge.Analysis.Adjacency.{any-append}

-- There is a way from one node to another along some steps.
pub data Leads (step : ℕ → ℕ → Bool) (start : ℕ) : ℕ → Type 0 where
  here : Leads step start start
  onward : {a b : ℕ} → Leads step start a → step a b ≡ true → Leads step start b

pub Leads-map :
    (R S : ℕ → ℕ → Bool) (start x : ℕ)
    → ((a b : ℕ) → R a b ≡ S a b)
    → Leads R start x
    → Leads S start x
Leads-map R S start _ h here = here
Leads-map R S start b h (onward {a} way step) =
    onward (Leads-map R S start a h way) (sym (h a b) ∙ step)

abbrev pub goes : Adjacency → ℕ → ℕ → Bool
goes adjacency a b = contains b (targets adjacency a)

pub contains-append :
    (x : ℕ) (xs ys : List ℕ) → contains x (xs ++ ys) ≡ (contains x xs || contains x ys)
contains-append x xs ys = any-append (λ y. y == x) xs ys

contains-same : (x t : ℕ) (ts : List ℕ) → (x == t) ≡ true → contains x ts ≡ contains t ts
contains-same x t ts h = ap (λ y. contains y ts) ((==_iff x t).0 h)

contains-unvisited :
    (t : ℕ) (visited ts : List ℕ)
    → (contains t visited || contains t (unvisited visited ts))
      ≡ (contains t visited || contains t ts)
unfolding unvisited
contains-unvisited t visited [] = refl
contains-unvisited t visited (x ∷ ts) = elim (Bool-cases (x == t)) [
  | inl same ↦ ground (arith, contains-same x t visited same, contains-unvisited t visited ts)
  | inr other ↦ ground (arith, contains-unvisited t visited ts)
]

length-unvisited : (visited ts : List ℕ) → length (unvisited visited ts) ≤ length ts
unfolding unvisited
length-unvisited visited [] = omega arith
length-unvisited visited (t ∷ ts) = ground (arith, length-unvisited visited ts)

-- The targets of the nodes that have not been visited.
unfoldable pub open_targets : List ℕ → Adjacency → ℕ
open_targets visited [] = 0
open_targets visited ((k, ts) ∷ rest) =
    (if contains k visited then 0 else length ts) + open_targets visited rest

open_targets-visited :
    (x : ℕ) (visited : List ℕ) (adjacency : Adjacency)
    → open_targets (visited ++ (x ∷ [])) adjacency ≤ open_targets visited adjacency
unfolding open_targets
open_targets-visited x visited [] = omega arith
open_targets-visited x visited ((k, ts) ∷ rest) =
    ground (arith, contains-append k visited (x ∷ []), open_targets-visited x visited rest)

open_targets-spent :
    (x : ℕ) (visited : List ℕ) (adjacency : Adjacency)
    → contains x visited ≡ false
    → open_targets (visited ++ (x ∷ [])) adjacency + length (targets adjacency x)
      ≤ open_targets visited adjacency
unfolding open_targets targets
open_targets-spent x visited [] h = omega arith
open_targets-spent x visited ((k, ts) ∷ rest) h = elim (Bool-cases (k == x)) [
  | inl same ↦
      let left = contains-same k x visited same in
      ground (arith, left, contains-append k visited (x ∷ []), open_targets-visited x visited rest)
  | inr other ↦
      ground (arith, contains-append k visited (x ∷ []), open_targets-spent x visited rest h)
]

-- What a search still has to do at most.
abbrev pub work : Adjacency → List ℕ → List ℕ → ℕ
work adjacency visited worklist = length worklist + open_targets visited adjacency

pub work-next :
    (adjacency : Adjacency) (visited : List ℕ) (current : ℕ) (worklist : List ℕ)
    → work adjacency
        (next_visited visited current)
        (next_worklist adjacency visited current worklist)
      < work adjacency visited (current ∷ worklist)
work-next adjacency visited current worklist = elim (Bool-cases (contains current visited)) [
  | inl old ↦ rw old (omega arith)
  | inr new ↦
      let ts = targets adjacency current in
      let more = visited ++ (current ∷ []) in
      rw (new, length-append worklist (unvisited more ts))
        (omega (arith, length-unvisited more ts, open_targets-spent current visited adjacency new))
]

-- What is visited or waits.
abbrev pub seen : List ℕ → List ℕ → ℕ → Bool
seen visited worklist x = contains x visited || contains x worklist

-- Where the visited nodes lead has been seen.
abbrev pub Closed : Adjacency → List ℕ → List ℕ → Type 0
Closed adjacency visited worklist =
    (v t : ℕ)
    → contains v visited ≡ true
    → contains t (targets adjacency v) ≡ true
    → seen visited worklist t ≡ true

-- After a turn the same nodes have been seen, and the targets of the current one if it is new.
turn-old :
    (adjacency : Adjacency) (visited : List ℕ) (current : ℕ) (worklist : List ℕ) (x : ℕ)
    → contains current visited ≡ true
    → seen (next_visited visited current) (next_worklist adjacency visited current worklist) x
      ≡ seen visited (current ∷ worklist) x
turn-old adjacency visited current worklist x old = rw old (elim (Bool-cases (current == x)) [
  | inl same ↦ ground (arith, contains-same current x visited same)
  | inr other ↦ ground arith
])

turn-new :
    (adjacency : Adjacency) (visited : List ℕ) (current : ℕ) (worklist : List ℕ) (x : ℕ)
    → contains current visited ≡ false
    → seen (next_visited visited current) (next_worklist adjacency visited current worklist) x
      ≡ (seen visited (current ∷ worklist) x || contains x (targets adjacency current))
turn-new adjacency visited current worklist x new =
    let more = visited ++ (current ∷ []) in
    let ts = targets adjacency current in
    rw new (
      ground (
        arith,
        contains-append x visited (current ∷ []),
        contains-append x worklist (unvisited more ts),
        contains-unvisited x more ts,
      ))

pub seen-next :
    (adjacency : Adjacency) (visited : List ℕ) (current : ℕ) (worklist : List ℕ) (x : ℕ)
    → seen visited (current ∷ worklist) x ≡ true
    → seen (next_visited visited current) (next_worklist adjacency visited current worklist) x
      ≡ true
seen-next adjacency visited current worklist x h = elim (Bool-cases (contains current visited)) [
  | inl old ↦ turn-old adjacency visited current worklist x old ∙ h
  | inr new ↦
      turn-new adjacency visited current worklist x new
      ∙ ap (λ b. b || contains x (targets adjacency current)) h
]

pub Closed-next :
    (adjacency : Adjacency) (visited : List ℕ) (current : ℕ) (worklist : List ℕ)
    → Closed adjacency visited (current ∷ worklist)
    → Closed adjacency
        (next_visited visited current)
        (next_worklist adjacency visited current worklist)
Closed-next adjacency visited current worklist closed v t visited_v to =
    elim (Bool-cases (contains current visited)) [
      | inl old ↦
          turn-old adjacency visited current worklist t old
          ∙ closed v t (ground (arith, visited_v, old)) to
      | inr new ↦
          let in_more : contains v (visited ++ (current ∷ [])) ≡ true =
            ground (arith, visited_v, new) in
          let after = turn-new adjacency visited current worklist t new in
          elim (Bool-cases (current == v)) [
            | inl same ↦
                let here : contains t (targets adjacency current) ≡ true =
                  ap (λ y. contains t (targets adjacency y)) ((==_iff current v).0 same) ∙ to in
                ground (arith, after, here)
            | inr other ↦
                let earlier =
                  closed v t (ground (arith, contains-append v visited (current ∷ []), in_more))
                    to in
                ground (arith, after, earlier)
          ]
    ]

-- Nothing is seen after a turn but what was seen, and the targets of the current node.
pub seen-next_only :
    (adjacency : Adjacency) (visited : List ℕ) (current : ℕ) (worklist : List ℕ) (x : ℕ)
    → seen (next_visited visited current) (next_worklist adjacency visited current worklist) x
      ≡ true
    → (seen visited (current ∷ worklist) x || contains x (targets adjacency current)) ≡ true
seen-next_only adjacency visited current worklist x h =
    elim (Bool-cases (contains current visited)) [
      | inl old ↦
          ap (λ b. b || contains x (targets adjacency current))
            (sym (turn-old adjacency visited current worklist x old) ∙ h)
      | inr new ↦ sym (turn-new adjacency visited current worklist x new) ∙ h
    ]

-- A search that begins at one node has little enough to do.
open_targets-none : (adjacency : Adjacency) → open_targets [] adjacency ≡ edge_count adjacency
unfolding open_targets edge_count
open_targets-none [] = refl
open_targets-none ((k, ts) ∷ rest) = ap (λ n. length ts + n) (open_targets-none rest)

pub work-start :
    (adjacency : Adjacency) (start : ℕ)
    → work adjacency [] (start ∷ []) < suc (suc (edge_count adjacency))
work-start adjacency start = omega (arith, open_targets-none adjacency)

pub Closed-start : (adjacency : Adjacency) (start : ℕ) → Closed adjacency [] (start ∷ [])
Closed-start adjacency start v t impossible to = cc
