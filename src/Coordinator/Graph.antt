-- ===== src/Coordinator/Graph.antt =====
-- The states of a record as a diagram, and what is final.
use veilforge.Base.{ℕ, ◌≡◌, refl, Bool, true, Option, some, List, [], ◌∷◌, ok, arith}
use veilforge.Base.Text.{Text, to_lower}
use veilforge.Coordinator.Record.{
  SendState, prepared, wallet_request_pending, provider_call_started, tx_hash_known,
  reconciliation_required, confirmed, rejected, Cell, SendRecord, parse_record,
  parse_record-serialize, pos, parse_record-none,
}
use veilforge.Coordinator.Methods.{
  Coordinator, claim, transition, release_before_retry, recover_pre_provider, write, fresh,
  recover_after_reload, confirm, inspect, normalized_hash, before_provider, allowed, confirmable,
}
use veilforge.Coordinator.Trace.{
  Call, claim_call, transition_call, release_call, recover_call, reload_call, confirm_call,
  inspect_call, after, after_all,
}

infix 40 ◌⟶◌
-- The diagram of the states of one record.
pub data ◌⟶◌ : SendState → SendState → Type 0 where
  stay : {s : SendState} → s ⟶ s
  ask : prepared ⟶ wallet_request_pending
  call : wallet_request_pending ⟶ provider_call_started
  decline : wallet_request_pending ⟶ rejected
  refuse : provider_call_started ⟶ rejected
  disown : reconciliation_required ⟶ rejected
  sent : provider_call_started ⟶ tx_hash_known
  lose : provider_call_started ⟶ reconciliation_required
  find : reconciliation_required ⟶ tx_hash_known
  doubt : tx_hash_known ⟶ reconciliation_required
  settle : tx_hash_known ⟶ confirmed
  resolve : reconciliation_required ⟶ confirmed
  restart : wallet_request_pending ⟶ prepared

allowed-⟶ : (s t : SendState) → allowed s t ≡ true → s ⟶ t
unfolding allowed
allowed-⟶ s t h =
    grind
      (arith, stay, ask, call, decline, refuse, disown, sent, lose, find, doubt, settle, resolve)

module _ (intent : Text) (cell : Option Cell) (e : SendRecord)
    (found : parse_record intent cell ≡ ok (some e)) (final : e.state ≡ confirmed) where
  after_of_confirmed : (x : Call) → after intent x cell ≡ cell
  unfolding after claim transition allowed release_before_retry recover_pre_provider
      recover_after_reload confirm inspect
  after_of_confirmed (claim_call c now) = ground arith
  after_of_confirmed (transition_call c state hash now) = ground arith
  after_of_confirmed (release_call c w p) = ground arith
  after_of_confirmed (recover_call c now) = ground arith
  after_of_confirmed (reload_call c now) = ground arith
  after_of_confirmed (confirm_call hash now) = ground arith
  after_of_confirmed inspect_call = ground arith

  -- A confirmed record is final: no sequence of calls by any coordinators changes the storage.
  pub confirmed_final : (xs : List Call) → after_all intent xs cell ≡ cell
  unfolding after_all
  confirmed_final [] = refl
  confirmed_final (x ∷ xs) = rw (after_of_confirmed x) (confirmed_final xs)

abbrev Written : Text → Option Cell → SendState → Type 0
Written intent cell s = (e : SendRecord) → parse_record intent cell ≡ ok (some e) → e.state ≡ s

-- What is read back of a written record has its state.
state-write : (intent : Text) (r : SendRecord) → Written intent (write r) r.state
state-write intent r e h = ground (arith, parse_record-serialize intent r)

⟶-prepared : (s t : SendState) → before_provider s ≡ true → t ≡ prepared → s ⟶ t
⟶-prepared s t h e = rw e (grind (arith, stay, restart))

⟶-lost : (s t : SendState) → s ≡ provider_call_started → t ≡ reconciliation_required → s ⟶ t
⟶-lost s t h e = rw (h, e) lose

⟶-confirmed : (s t : SendState) → confirmable s ≡ true → t ≡ confirmed → s ⟶ t
⟶-confirmed s t h e = rw e (grind (arith, settle, resolve))

⟶-same : (s t : SendState) → t ≡ s → s ⟶ t
⟶-same s t h = rw h stay

module _ (intent : Text) (cell : Option Cell) (e f : SendRecord)
    (found : parse_record intent cell ≡ ok (some e)) where
  claim-⟶ :
      (c : Coordinator) (now : ℕ)
      → parse_record intent (claim c intent now cell).1 ≡ ok (some f)
      → e.state ⟶ f.state
  unfolding claim
  claim-⟶ c now h = ground (
    arith,
    ⟶-prepared e.state f.state,
    ⟶-lost e.state f.state,
    ⟶-same e.state f.state,
    state-write intent (fresh c intent now) f,
    state-write intent (record e { state = reconciliation_required; updated_at = pos now }) f,
  )

  transition-⟶ :
      (c : Coordinator) (state : SendState) (hash : Option Text) (now : ℕ)
      → parse_record intent (transition c intent state hash now cell).1 ≡ ok (some f)
      → e.state ⟶ f.state
  unfolding transition
  transition-⟶ c state hash now h = ground (
    arith,
    allowed-⟶ e.state state,
    ⟶-same e.state f.state,
    state-write intent
        (record e {
          state = state;
          transaction_hash = normalized_hash hash e.transaction_hash;
          updated_at = pos now;
        })
        f,
  )

  release-⟶ :
      (c : Coordinator) (w p : Bool)
      → parse_record intent (release_before_retry c intent w p cell).1 ≡ ok (some f)
      → e.state ⟶ f.state
  unfolding release_before_retry
  release-⟶ c w p h = ground (arith, ⟶-same e.state f.state, parse_record-none intent)

  recover-⟶ :
      (c : Coordinator) (now : ℕ)
      → parse_record intent (recover_pre_provider c intent now cell).1 ≡ ok (some f)
      → e.state ⟶ f.state
  unfolding recover_pre_provider
  recover-⟶ c now h = ground (arith, ⟶-same e.state f.state, parse_record-none intent)

  reload-⟶ :
      (c : Coordinator) (now : ℕ)
      → parse_record intent (recover_after_reload c intent now cell).1 ≡ ok (some f)
      → e.state ⟶ f.state
  unfolding recover_after_reload
  reload-⟶ c now h = ground (
    arith,
    ⟶-lost e.state f.state,
    ⟶-same e.state f.state,
    parse_record-none intent,
    state-write intent (record e { state = reconciliation_required; updated_at = pos now }) f,
  )

  confirm-⟶ :
      (hash : Text) (now : ℕ)
      → parse_record intent (confirm intent hash now cell).1 ≡ ok (some f)
      → e.state ⟶ f.state
  unfolding confirm
  confirm-⟶ hash now h = ground (
    arith,
    ⟶-confirmed e.state f.state,
    ⟶-same e.state f.state,
    state-write intent
        (record e {
          state = confirmed;
          transaction_hash = some (to_lower hash);
          updated_at = pos now;
        })
        f,
  )

  inspect-⟶ : parse_record intent (inspect intent cell).1 ≡ ok (some f) → e.state ⟶ f.state
  unfolding inspect
  inspect-⟶ h = ground (arith, ⟶-same e.state f.state)

-- Whichever method is called on a readable record, by whichever coordinator, a record that can be
-- read afterwards has the same state or the state at the end of one edge of the diagram.
pub after-⟶ :
    (intent : Text) (x : Call) (cell : Option Cell) (e f : SendRecord)
    → parse_record intent cell ≡ ok (some e)
    → parse_record intent (after intent x cell) ≡ ok (some f)
    → e.state ⟶ f.state
unfolding after
after-⟶ intent (claim_call c now) cell e f p = claim-⟶ intent cell e f p c now
after-⟶ intent (transition_call c state hash now) cell e f p =
    transition-⟶ intent cell e f p c state hash now
after-⟶ intent (release_call c w q) cell e f p = release-⟶ intent cell e f p c w q
after-⟶ intent (recover_call c now) cell e f p = recover-⟶ intent cell e f p c now
after-⟶ intent (reload_call c now) cell e f p = reload-⟶ intent cell e f p c now
after-⟶ intent (confirm_call hash now) cell e f p = confirm-⟶ intent cell e f p hash now
after-⟶ intent inspect_call cell e f p = inspect-⟶ intent cell e f p
