-- ===== src/Analysis/Facts.antt =====
-- analysis/fact-lattice.js and analysis/merge.js: the facts about values, and how states that come in
-- along several edges are merged. Ids, and the texts of conditions in JSON, are numbers in the order of
-- the texts; a state is the list of the entries of its map. The members of a fact that are only carried
-- along are its last field.
use veilforge.Base.{
  ℕ, ◌==◌, Bool, true, false, Option, none, some, List, [], ◌∷◌, ◌++◌, map, if◌then◌else◌,
}
use veilforge.Base.Sets.{sort, in_order}

-- The kinds of the edges of a graph, as far as a condition depends on them.
pub data EdgeKind : Type 0 where
  true_kind if_true loop_true : EdgeKind
  false_kind if_false loop_false : EdgeKind
  other_kind : ℕ → EdgeKind

pub record Edge : Type 0 where
  pub from_block_id : ℕ
  pub edge_kind : EdgeKind
  pub condition_ast_id : Option ℕ

pub data Outcome : Type 0 where
  outcome : Bool → Outcome
  outcome_kind : ℕ → Outcome

pub record Condition (Location : Type 0) : Type 0 where
  pub branch_location : Option Location
  pub condition_ast_id : ℕ
  pub outcome_of : Outcome
  pub predecessor_block_id : ℕ

abbrev pub outcome_of_kind : EdgeKind → Outcome
outcome_of_kind true_kind = outcome true
outcome_of_kind if_true = outcome true
outcome_of_kind loop_true = outcome true
outcome_of_kind false_kind = outcome false
outcome_of_kind if_false = outcome false
outcome_of_kind loop_false = outcome false
outcome_of_kind (other_kind kind) = outcome_kind kind

module _ {Location : Type 0} (location_of : ℕ → Option Location) where
  -- The location of a block that is not in the map is none.
  abbrev pub condition_on : Edge → Option ℕ → Option (Condition Location)
  condition_on edge none = none
  condition_on edge (some id) = some (record {
    branch_location = location_of edge.from_block_id;
    condition_ast_id = id;
    outcome_of = outcome_of_kind edge.edge_kind;
    predecessor_block_id = edge.from_block_id;
  })

  unfoldable pub path_condition_for_edge : Edge → Option (Condition Location)
  path_condition_for_edge edge = condition_on edge edge.condition_ast_id

pub record Fact (C A : Type 0) : Type 0 where
  pub origin_ids : List ℕ
  pub path_conditions : List C
  pub confidence : ℕ
  pub provenance : ℕ
  pub rest : A

module _ {C A : Type 0} where
  -- `{ ...fact, pathConditions: [...fact.pathConditions, condition] }`
  abbrev pub under : C → Fact C A → Fact C A
  under condition fact = record {
    origin_ids = fact.origin_ids;
    path_conditions = fact.path_conditions ++ (condition ∷ []);
    confidence = fact.confidence;
    provenance = fact.provenance;
    rest = fact.rest;
  }

  abbrev pub across : Option C → List (ℕ × Fact C A) → List (ℕ × Fact C A)
  across none state = state
  across (some condition) state = map (λ entry. (entry.0, under condition entry.1)) state

unfoldable pub state_across_edge :
    {A Location : Type 0} (location_of : ℕ → Option Location)
    → List (ℕ × Fact (Condition Location) A)
    → Edge
    → List (ℕ × Fact (Condition Location) A)
unfolding path_condition_for_edge
state_across_edge location_of state edge = across (path_condition_for_edge location_of edge) state

-- The text of a condition in JSON, as JSON.stringify makes it, is a parameter.
module _ {C : Type 0} (condition_key : C → ℕ) where
  -- `new Map(...).values()`: of conditions with the same key the last stays, where the first stood.
  abbrev pub set_condition : C → List C → List C
  set_condition c [] = c ∷ []
  set_condition c (d ∷ ds) =
      let rest = set_condition c ds in
      if condition_key d == condition_key c then c ∷ ds else d ∷ rest

  unfoldable pub set_conditions : List C → List C → List C
  set_conditions [] ds = ds
  set_conditions (c ∷ cs) ds = set_conditions cs (set_condition c ds)

-- `'merged'`, which stands where two facts differ, is a number as other texts are.
module _ {C A : Type 0} (condition_key : C → ℕ) (merged : ℕ) where
  -- Two facts for one key.
  unfoldable pub merge_facts : Fact C A → Fact C A → Fact C A
  unfolding set_conditions
  merge_facts left right = record {
    origin_ids = in_order (left.origin_ids ++ right.origin_ids);
    path_conditions =
        sort condition_key
          (set_conditions condition_key (left.path_conditions ++ right.path_conditions) []);
    confidence = if left.confidence == right.confidence then left.confidence else merged;
    provenance = if left.provenance == right.provenance then left.provenance else merged;
    rest = left.rest;
  }

  abbrev pub merge_fact_values : Option (Fact C A) → Option (Fact C A) → Option (Fact C A)
  merge_fact_values none right = right
  merge_fact_values (some left) none = some left
  merge_fact_values (some left) (some right) = some (merge_facts left right)

  -- `result.set(key, mergeFactValues(result.get(key), fact))`
  abbrev pub join_fact : ℕ → Fact C A → List (ℕ × Fact C A) → List (ℕ × Fact C A)
  join_fact key fact [] = (key, fact) ∷ []
  join_fact key fact ((k, left) ∷ result) =
      let rest = join_fact key fact result in
      if k == key then (k, merge_facts left fact) ∷ result else (k, left) ∷ rest

  unfoldable pub join_state : List (ℕ × Fact C A) → List (ℕ × Fact C A) → List (ℕ × Fact C A)
  unfolding merge_facts
  join_state [] result = result
  join_state ((key, fact) ∷ entries) result = join_state entries (join_fact key fact result)

  unfoldable pub join_all : List (List (ℕ × Fact C A)) → List (ℕ × Fact C A) → List (ℕ × Fact C A)
  unfolding join_state
  join_all [] result = result
  join_all (state ∷ states) result =
      join_all states (join_state (sort (λ entry. entry.0) state) result)

  unfoldable pub join_states : List (List (ℕ × Fact C A)) → List (ℕ × Fact C A)
  unfolding join_all
  join_states states = join_all states []

  unfoldable pub merge_predecessor_states : List (List (ℕ × Fact C A)) → List (ℕ × Fact C A)
  unfolding join_states
  merge_predecessor_states states = join_states states
