-- ===== src/Analysis/Adjacency.antt =====
-- What a map of targets holds after edges are added.
use veilforge.Base.{
  ℕ, ◌==◌, ◌≡◌, ◌∙◌, refl, sym, ap, Bool, false, ◌&&◌, ◌||◌, Option, none, some, List, [], ◌∷◌,
  ◌++◌, map, any, arith, Bool-cases, inl, inr,
}
use veilforge.Base.Sets.{contains, in_order, contains-in_order}
use veilforge.Analysis.Search.{
  Adjacency, targets, add, FlowEdge, add_all, build_adjacency, CallEdge, add_call, call_adjacency,
}

pub any-append {ℓ} :
    {A : Type ℓ} (p : A → Bool) (xs ys : List A) → any p (xs ++ ys) ≡ (any p xs || any p ys)
any-append p [] ys = refl
any-append p (x ∷ xs) ys = ground (arith, any-append p xs ys)

contains-add :
    (v t from to : ℕ) (adjacency : Adjacency)
    → contains t (targets (add from to adjacency) v)
      ≡ (contains t (targets adjacency v) || (from == v && to == t))
unfolding targets add
contains-add v t from to [] = ground arith
contains-add v t from to ((k, ts) ∷ rest) =
    ground (arith, contains-add v t from to rest, any-append (λ x. x == t) ts (to ∷ []))

abbrev pub flows : ℕ → ℕ → FlowEdge → Bool
flows v t e = e.from_value_node_id == v && e.to_value_node_id == t

contains-add_all :
    (v t : ℕ) (es : List FlowEdge) (adjacency : Adjacency)
    → contains t (targets (add_all es adjacency) v)
      ≡ (contains t (targets adjacency v) || any (flows v t) es)
unfolding add_all
contains-add_all v t [] adjacency = ground arith
contains-add_all v t (e ∷ es) adjacency = ground (
  arith,
  contains-add_all v t es (add e.from_value_node_id e.to_value_node_id adjacency),
  contains-add v t e.from_value_node_id e.to_value_node_id adjacency,
)

contains-in_orders :
    (v t : ℕ) (adjacency : Adjacency)
    → contains t (targets (map (λ entry. (entry.0, in_order entry.1)) adjacency) v)
      ≡ contains t (targets adjacency v)
unfolding targets
contains-in_orders v t [] = refl
contains-in_orders v t ((k, ts) ∷ rest) = elim (Bool-cases (k == v)) [
  | inl here ↦ rw here (contains-in_order t ts)
  | inr there ↦ rw there (contains-in_orders v t rest)
]

-- The map has a target exactly where some edge goes there.
pub contains-build_adjacency :
    (v t : ℕ) (within between : List FlowEdge)
    → contains t (targets (build_adjacency within between) v) ≡ any (flows v t) (within ++ between)
unfolding build_adjacency targets
contains-build_adjacency v t within between =
    contains-in_orders v t (add_all between (add_all within []))
    ∙ contains-add_all v t between (add_all within [])
    ∙ ap (λ b. b || any (flows v t) between) (contains-add_all v t within [])
    ∙ sym (any-append (flows v t) within between)

abbrev pub is_callee : ℕ → Option ℕ → Bool
is_callee t none = false
is_callee t (some callee) = callee == t

abbrev pub calls : ℕ → ℕ → CallEdge → Bool
calls v t e = e.caller_callable_id == v && is_callee t e.callee_callable_id

contains-add_call :
    (v t caller : ℕ) (callee : Option ℕ) (adjacency : Adjacency)
    → contains t (targets (add_call caller callee adjacency) v)
      ≡ (contains t (targets adjacency v) || (caller == v && is_callee t callee))
contains-add_call v t caller none adjacency = ground arith
contains-add_call v t caller (some callee) adjacency = contains-add v t caller callee adjacency

pub contains-call_adjacency :
    (v t : ℕ) (es : List CallEdge) (adjacency : Adjacency)
    → contains t (targets (call_adjacency es adjacency) v)
      ≡ (contains t (targets adjacency v) || any (calls v t) es)
unfolding call_adjacency
contains-call_adjacency v t [] adjacency = ground arith
contains-call_adjacency v t (e ∷ es) adjacency = ground (
  arith,
  contains-call_adjacency v t es (add_call e.caller_callable_id e.callee_callable_id adjacency),
  contains-add_call v t e.caller_callable_id e.callee_callable_id adjacency,
)
