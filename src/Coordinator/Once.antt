-- ===== src/Coordinator/Once.antt =====
-- At most one provider call: what the coordinator is for.
use veilforge.Base.{
  ℕ, ◌≤◌, ◌≡◌, refl, Bool, true, false, Option, none, some, List, [], ◌∷◌, arith, ◌≢◌, ◌⊎◌, inl,
  inr, Result-cases,
}
use veilforge.Base.Text.{Text, to_lower}
use veilforge.Coordinator.Record.{
  SendState, prepared, provider_call_started, reconciliation_required, confirmed, rejected, Cell,
  SendRecord, pos, parse_record, serialize, parse_record-serialize,
}
use veilforge.Coordinator.Methods.{
  Coordinator, claim, transition, release_before_retry, recover_pre_provider, write,
  recover_after_reload, confirm, inspect, normalized_hash,
}
use veilforge.Coordinator.Trace.{
  Call, claim_call, transition_call, release_call, recover_call, reload_call, confirm_call,
  inspect_call, after, starts, total_starts, reports_rejection, NoRejection, IsSealed,
  beyond_provider, succeeded,
}

IsSealed-write :
    (intent : Text) (r : SendRecord) → beyond_provider r.state ≡ true → IsSealed intent (write r)
unfolding parse_record serialize
IsSealed-write intent r h = ground (arith, parse_record-serialize intent r)

-- A sealed cell stays sealed under each method that reports no rejection.
module _ (intent : Text) (cell : Option Cell) (h : IsSealed intent cell) where
  claim-IsSealed : (c : Coordinator) (now : ℕ) → IsSealed intent (claim c intent now cell).1
  unfolding claim
  claim-IsSealed c now = elim (Result-cases (parse_record intent cell)) [
    | inl (e, bad) ↦ ground arith
    | inr (none, absent) ↦ ground arith
    | inr (some r, found) ↦ ground (
      arith,
      IsSealed-write intent (record r { state = reconciliation_required; updated_at = pos now }),
    )
  ]

  transition-IsSealed :
      (c : Coordinator) (state : SendState) (hash : Option Text) (now : ℕ)
      → state ≢ rejected
      → (state ≢ provider_call_started)
      → IsSealed intent (transition c intent state hash now cell).1
  unfolding transition
  transition-IsSealed c state hash now live first = elim (Result-cases (parse_record intent cell)) [
    | inl (e, bad) ↦ ground arith
    | inr (none, absent) ↦ ground arith
    | inr (some r, found) ↦ ground (
      arith,
      IsSealed-write intent (record r {
        state = state;
        transaction_hash = normalized_hash hash r.transaction_hash;
        updated_at = pos now;
      }),
    )
  ]

  -- No transition leads from a sealed record to another call of the provider.
  transition-no_start :
      (c : Coordinator) (hash : Option Text) (now : ℕ)
      → let t = transition c intent provider_call_started hash now cell in
        (succeeded t ≡ false) × (t.1 ≡ cell)
  unfolding transition
  transition-no_start c hash now = ground arith

  release-IsSealed :
      (c : Coordinator) (p : Bool) → IsSealed intent (release_before_retry c intent false p cell).1
  unfolding release_before_retry
  release-IsSealed c p = ground arith

  recover-IsSealed :
      (c : Coordinator) (now : ℕ) → IsSealed intent (recover_pre_provider c intent now cell).1
  unfolding recover_pre_provider
  recover-IsSealed c now = ground arith

  reload-IsSealed :
      (c : Coordinator) (now : ℕ) → IsSealed intent (recover_after_reload c intent now cell).1
  unfolding recover_after_reload
  reload-IsSealed c now = elim (Result-cases (parse_record intent cell)) [
    | inl (e, bad) ↦ ground arith
    | inr (none, absent) ↦ ground arith
    | inr (some r, found) ↦ ground (
      arith,
      IsSealed-write intent (record r { state = reconciliation_required; updated_at = pos now }),
    )
  ]

  confirm-IsSealed : (hash : Text) (now : ℕ) → IsSealed intent (confirm intent hash now cell).1
  unfolding confirm
  confirm-IsSealed hash now = elim (Result-cases (parse_record intent cell)) [
    | inl (e, bad) ↦ ground arith
    | inr (none, absent) ↦ ground arith
    | inr (some r, found) ↦ ground (
      arith,
      IsSealed-write intent (record r {
        state = confirmed;
        transaction_hash = some (to_lower hash);
        updated_at = pos now;
      }),
    )
  ]

after-IsSealed :
    (intent : Text) (x : Call) (cell : Option Cell)
    → IsSealed intent cell
    → reports_rejection x ≡ false
    → IsSealed intent (after intent x cell)
unfolding after inspect
after-IsSealed intent (claim_call c now) cell h n = claim-IsSealed intent cell h c now
after-IsSealed intent (transition_call c provider_call_started hash now) cell h n =
    rw (transition-no_start intent cell h c hash now).1 h
after-IsSealed intent (transition_call c rejected hash now) cell h n = cc
after-IsSealed intent (transition_call c state hash now) cell h n =
    transition-IsSealed intent cell h c state hash now (λ e. cc) (λ e. cc)
after-IsSealed intent (release_call c true p) cell h n = cc
after-IsSealed intent (release_call c false p) cell h n = release-IsSealed intent cell h c p
after-IsSealed intent (recover_call c now) cell h n = recover-IsSealed intent cell h c now
after-IsSealed intent (reload_call c now) cell h n = reload-IsSealed intent cell h c now
after-IsSealed intent (confirm_call hash now) cell h n = confirm-IsSealed intent cell h hash now
after-IsSealed intent inspect_call cell h n = ground arith

starts-IsSealed :
    (intent : Text) (x : Call) (cell : Option Cell)
    → IsSealed intent cell
    → starts intent x cell ≡ 0
unfolding starts
starts-IsSealed intent (transition_call c provider_call_started hash now) cell h =
    rw (transition-no_start intent cell h c hash now).0
starts-IsSealed intent (transition_call c prepared hash now) cell h = refl
starts-IsSealed intent _ cell h = refl

-- A call that permits a provider call seals the cell.
started-IsSealed :
    (intent : Text) (c : Coordinator) (hash : Option Text) (now : ℕ) (cell : Option Cell)
    → let t = transition c intent provider_call_started hash now cell in
      succeeded t ≡ true → IsSealed intent t.1
unfolding transition
started-IsSealed intent c hash now cell = elim (Result-cases (parse_record intent cell)) [
  | inl (e, bad) ↦ ground arith
  | inr (none, absent) ↦ ground arith
  | inr (some r, found) ↦ ground (
    arith,
    IsSealed-write intent (record r {
      state = provider_call_started;
      transaction_hash = normalized_hash hash r.transaction_hash;
      updated_at = pos now;
    }),
  )
]

starts_cases :
    (intent : Text) (x : Call) (cell : Option Cell)
    → (starts intent x cell ≡ 0)
      ⊎ ((starts intent x cell ≡ 1) × IsSealed intent (after intent x cell))
unfolding starts after
starts_cases intent (transition_call c provider_call_started hash now) cell =
    ground (arith, started-IsSealed intent c hash now cell)
starts_cases intent (transition_call c prepared hash now) cell = inl refl
starts_cases intent _ cell = inl refl

total_starts-IsSealed :
    (intent : Text) (xs : List Call) (cell : Option Cell)
    → NoRejection xs
    → IsSealed intent cell
    → total_starts intent xs cell ≡ 0
unfolding total_starts
total_starts-IsSealed intent [] cell n h = refl
total_starts-IsSealed intent (x ∷ xs) cell (here, later) h = omega (
  arith,
  starts-IsSealed intent x cell h,
  total_starts-IsSealed intent xs (after intent x cell) later (after-IsSealed intent x cell h here),
)

-- Whatever the stored cell, and whichever calls any coordinators make at any times, the wallet is
-- asked at most once, as long as no call reports that the wallet refused.
pub total_starts-le-one :
    (intent : Text) (xs : List Call) (cell : Option Cell)
    → NoRejection xs
    → total_starts intent xs cell ≤ 1
unfolding total_starts
total_starts-le-one intent [] cell n = omega arith
total_starts-le-one intent (x ∷ xs) cell (here, later) = elim (starts_cases intent x cell) [
  | inl idle ↦ omega (arith, total_starts-le-one intent xs (after intent x cell) later)
  | inr (one, shut) ↦
      omega (arith, total_starts-IsSealed intent xs (after intent x cell) later shut)
]
