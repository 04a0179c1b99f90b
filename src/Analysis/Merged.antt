-- ===== src/Analysis/Merged.antt =====
-- What a merged state has of the states that it is merged from.
use veilforge.Base.{
  ℕ, ◌==◌, ◌≡◌, ◌∙◌, refl, ap, Bool, true, false, ◌&&◌, ◌||◌, Option, none, some, List, [], ◌∷◌,
  ◌++◌, map, any, arith,
}
use veilforge.Base.Sets.{sort, contains, contains-in_order, any-sort}
use veilforge.Analysis.Adjacency.{any-append}
use veilforge.Analysis.Facts.{
  Fact, Condition, Edge, under, across, path_condition_for_edge, state_across_edge, set_condition,
  set_conditions, merge_facts, join_fact, join_state, join_all, join_states,
  merge_predecessor_states,
}

module _ {C A : Type 0} where
  -- Whether a state has a fact for the key of which the test holds.
  abbrev pub known : ℕ → (Fact C A → Bool) → List (ℕ × Fact C A) → Bool
  known key test state = any (λ entry. entry.0 == key && test entry.1) state

  abbrev pub has_origin : ℕ → Fact C A → Bool
  has_origin id fact = contains id fact.origin_ids

  abbrev pub has_condition : (C → ℕ) → ℕ → Fact C A → Bool
  has_condition condition_key text fact = any (λ c. condition_key c == text) fact.path_conditions

module _ {C : Type 0} (condition_key : C → ℕ) where
  any-set_condition :
      (text : ℕ) (c : C) (ds : List C)
      → any (λ d. condition_key d == text) (set_condition condition_key c ds)
        ≡ (condition_key c == text || any (λ d. condition_key d == text) ds)
  any-set_condition text c [] = refl
  any-set_condition text c (d ∷ ds) = ground (arith, any-set_condition text c ds)

  any-set_conditions :
      (text : ℕ) (cs ds : List C)
      → any (λ d. condition_key d == text) (set_conditions condition_key cs ds)
        ≡ (any (λ d. condition_key d == text) cs || any (λ d. condition_key d == text) ds)
  unfolding set_conditions
  any-set_conditions text [] ds = refl
  any-set_conditions text (c ∷ cs) ds = ground (
    arith,
    any-set_conditions text cs (set_condition condition_key c ds),
    any-set_condition text c ds,
  )

module _ {C A : Type 0} (condition_key : C → ℕ) (merged : ℕ) where
  -- A test of facts that holds of two merged facts where it holds of one of them.
  abbrev IsJoined : (Fact C A → Bool) → Type 0
  IsJoined test =
      (left right : Fact C A)
      → test (merge_facts condition_key merged left right) ≡ (test left || test right)

  origin-IsJoined : (id : ℕ) → IsJoined (has_origin id)
  unfolding merge_facts
  origin-IsJoined id left right =
      contains-in_order id (left.origin_ids ++ right.origin_ids)
      ∙ any-append (λ x. x == id) left.origin_ids right.origin_ids

  condition-IsJoined : (text : ℕ) → IsJoined (has_condition condition_key text)
  unfolding merge_facts
  condition-IsJoined text left right =
      let all = left.path_conditions ++ right.path_conditions in
      ground (
        arith,
        any-sort condition_key (λ d. condition_key d == text) (set_conditions condition_key all []),
        any-set_conditions condition_key text all [],
        any-append (λ d. condition_key d == text) left.path_conditions right.path_conditions,
      )

  module _ (test : Fact C A → Bool) (joined : IsJoined test) (key : ℕ) where
    known-join_fact :
        (k : ℕ) (fact : Fact C A) (state : List (ℕ × Fact C A))
        → known key test (join_fact condition_key merged k fact state)
          ≡ ((k == key && test fact) || known key test state)
    known-join_fact k fact [] = refl
    known-join_fact k fact ((l, left) ∷ state) =
        ground (arith, known-join_fact k fact state, joined left fact)

    known-join_state :
        (entries state : List (ℕ × Fact C A))
        → known key test (join_state condition_key merged entries state)
          ≡ (known key test entries || known key test state)
    unfolding join_state
    known-join_state [] state = refl
    known-join_state ((k, fact) ∷ entries) state = ground (
      arith,
      known-join_state entries (join_fact condition_key merged k fact state),
      known-join_fact k fact state,
    )

    known-join_all :
        (states : List (List (ℕ × Fact C A))) (state : List (ℕ × Fact C A))
        → known key test (join_all condition_key merged states state)
          ≡ (any (known key test) states || known key test state)
    unfolding join_all
    known-join_all [] state = refl
    known-join_all (s ∷ states) state = ground (
      arith,
      known-join_all states (join_state condition_key merged (sort (λ entry. entry.0) s) state),
      known-join_state (sort (λ entry. entry.0) s) state,
      any-sort (λ entry. entry.0) (λ entry. entry.0 == key && test entry.1) s,
    )

    known-merged :
        (states : List (List (ℕ × Fact C A)))
        → known key test (merge_predecessor_states condition_key merged states)
          ≡ any (known key test) states
    unfolding merge_predecessor_states join_states
    known-merged states = ground (arith, known-join_all states [])

any-map {ℓ κ} :
    {A : Type ℓ} {B : Type κ} (p : B → Bool) (f : A → B) (xs : List A)
    → any p (map f xs) ≡ any (λ x. p (f x)) xs
any-map p f [] = refl
any-map p f (x ∷ xs) = ap (λ b. p (f x) || b) (any-map p f xs)

any-same {ℓ} :
    {A : Type ℓ} (p q : A → Bool) (xs : List A) → ((x : A) → p x ≡ q x) → any p xs ≡ any q xs
any-same p q [] same = refl
any-same p q (x ∷ xs) same = rw (same x) (ap (λ b. q x || b) (any-same p q xs same))

-- Whether an edge has a condition with the text.
abbrev pub adds : {C : Type 0} → (C → ℕ) → ℕ → Option C → Bool
adds condition_key text none = false
adds condition_key text (some c) = condition_key c == text

module _ {Location A : Type 0} (location_of : ℕ → Option Location) where
  module _ (condition_key : Condition Location → ℕ) where
    origin-across :
        (key id : ℕ) (c : Option (Condition Location))
        (state : List (ℕ × Fact (Condition Location) A))
        → known key (has_origin id) (across c state) ≡ known key (has_origin id) state
    origin-across key id none state = refl
    origin-across key id (some c) state =
        any-map (λ entry. entry.0 == key && has_origin id entry.1)
          (λ entry. (entry.0, under c entry.1)) state

    key-across :
        (key : ℕ) (c : Option (Condition Location)) (state : List (ℕ × Fact (Condition Location) A))
        → known key (λ fact. true) (across c state) ≡ known key (λ fact. true) state
    key-across key none state = refl
    key-across key (some c) state =
        any-map (λ entry. entry.0 == key && true) (λ entry. (entry.0, under c entry.1)) state

    condition-across :
        (key text : ℕ) (c : Option (Condition Location))
        (state : List (ℕ × Fact (Condition Location) A))
        → known key (has_condition condition_key text) (across c state) ≡ (
            known key (has_condition condition_key text) state
            || (known key (λ fact. true) state && adds condition_key text c))
    condition-across key text none state = ground arith
    condition-across key text (some c) [] = refl
    condition-across key text (some c) ((k, fact) ∷ state) = ground (
      arith,
      condition-across key text (some c) state,
      any-append (λ d. condition_key d == text) fact.path_conditions (c ∷ []),
    )

    -- A state that is merged from those of the predecessors, each across its edge, has a fact for a key
    -- where one of them has; the fact has the origins that their facts for the key have, and no other; and
    -- its conditions are, by their texts, those that their facts have and those of the edges along which
    -- a fact for the key comes in.
    pub merge_predecessor_states_lem :
        (merged : ℕ) (incoming : List (Edge × List (ℕ × Fact (Condition Location) A)))
        (key id text : ℕ)
        → let state =
            merge_predecessor_states condition_key merged
              (map (λ p. state_across_edge location_of p.1 p.0) incoming) in
          (known key (λ fact. true) state ≡ any (λ p. known key (λ fact. true) p.1) incoming)
          × (known key (has_origin id) state ≡ any (λ p. known key (has_origin id) p.1) incoming)
          × (known key (has_condition condition_key text) state
              ≡ any
                  (λ p.
                    known key (has_condition condition_key text) p.1
                    || (known key (λ fact. true) p.1
                        && adds condition_key text (path_condition_for_edge location_of p.0)))
                  incoming)
    unfolding state_across_edge
    merge_predecessor_states_lem merged incoming key id text =
        let states = map (λ p. state_across_edge location_of p.1 p.0) incoming in
        (
          known-merged condition_key merged (λ fact. true) (λ left right. refl) key states
              ∙ any-map _ (λ p. state_across_edge location_of p.1 p.0) incoming
              ∙ any-same _ _ incoming
                  (λ p. key-across key (path_condition_for_edge location_of p.0) p.1),
          known-merged condition_key merged (has_origin id)
                (origin-IsJoined condition_key merged id) key states
              ∙ any-map _ (λ p. state_across_edge location_of p.1 p.0) incoming
              ∙ any-same _ _ incoming
                  (λ p. origin-across key id (path_condition_for_edge location_of p.0) p.1),
          known-merged condition_key merged (has_condition condition_key text)
                (condition-IsJoined condition_key merged text) key states
              ∙ any-map _ (λ p. state_across_edge location_of p.1 p.0) incoming
              ∙ any-same _ _ incoming
                  (λ p. condition-across key text (path_condition_for_edge location_of p.0) p.1),
        )
