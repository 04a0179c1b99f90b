-- ===== src/Coordinator/Trace.antt =====
-- Any sequence of calls on one intent, by any coordinators: the exclusive lock of an intent makes
-- every interleaving of several contexts such a sequence.
use veilforge.Base.{
  ℕ, ◌+◌, ◌≡◌, Bool, true, false, Option, none, some, List, [], ◌∷◌, Result, ok, err,
}
use veilforge.Base.Text.{Text}
use veilforge.Coordinator.Record.{
  SendState, provider_call_started, tx_hash_known, reconciliation_required, confirmed, rejected,
  Cell, SendRecord, CoordinationError, parse_record,
}
use veilforge.Coordinator.Methods.{
  Coordinator, Step, claim, transition, release_before_retry, recover_pre_provider,
  recover_after_reload, confirm, inspect,
}

-- One call of a method, with the coordinator that makes it and the clock that it reads.
pub data Call : Type 0 where
  claim_call : Coordinator → ℕ → Call
  transition_call : Coordinator → SendState → Option Text → ℕ → Call
  release_call : Coordinator → Bool → Bool → Call
  recover_call : Coordinator → ℕ → Call
  reload_call : Coordinator → ℕ → Call
  confirm_call : Text → ℕ → Call
  inspect_call : Call

abbrev pub succeeded : {A : Type 0} → Step A → Bool
succeeded (ok a, cell) = true
succeeded (err e, cell) = false

-- The cell after a call.
unfoldable pub after : Text → Call → Option Cell → Option Cell
after intent (claim_call c now) cell = (claim c intent now cell).1
after intent (transition_call c state hash now) cell = (transition c intent state hash now cell).1
after intent (release_call c w p) cell = (release_before_retry c intent w p cell).1
after intent (recover_call c now) cell = (recover_pre_provider c intent now cell).1
after intent (reload_call c now) cell = (recover_after_reload c intent now cell).1
after intent (confirm_call hash now) cell = (confirm intent hash now cell).1
after intent inspect_call cell = (inspect intent cell).1

abbrev started : SendState → Bool → ℕ
started provider_call_started true = 1
started _ _ = 0

-- How many calls of the provider a method call permits: a successful transition to
-- PROVIDER_CALL_STARTED permits one.
unfoldable pub starts : Text → Call → Option Cell → ℕ
starts intent (transition_call c state hash now) cell =
    started state (succeeded (transition c intent state hash now cell))
starts intent _ cell = 0

unfoldable pub total_starts : Text → List Call → Option Cell → ℕ
unfolding starts after
total_starts intent [] cell = 0
total_starts intent (x ∷ xs) cell =
    starts intent x cell + total_starts intent xs (after intent x cell)

-- A wallet's refusal is reported: by a transition to REJECTED, or to `releaseBeforeRetry`.
abbrev pub reports_rejection : Call → Bool
reports_rejection (transition_call c rejected hash now) = true
reports_rejection (release_call c true p) = true
reports_rejection _ = false

abbrev pub NoRejection : List Call → Type 0
NoRejection [] = Unit
NoRejection (x ∷ xs) = (reports_rejection x ≡ false) × NoRejection xs

-- The record may stand for a transaction that the wallet has seen, or cannot be read at all.
abbrev pub beyond_provider : SendState → Bool
beyond_provider provider_call_started = true
beyond_provider tx_hash_known = true
beyond_provider reconciliation_required = true
beyond_provider confirmed = true
beyond_provider _ = false

abbrev pub sealed_result : Result CoordinationError (Option SendRecord) → Bool
sealed_result (err e) = true
sealed_result (ok none) = false
sealed_result (ok (some r)) = beyond_provider r.state

abbrev pub IsSealed : Text → Option Cell → Type 0
IsSealed intent cell = sealed_result (parse_record intent cell) ≡ true

unfoldable pub after_all : Text → List Call → Option Cell → Option Cell
unfolding after
after_all intent [] cell = cell
after_all intent (x ∷ xs) cell = after_all intent xs (after intent x cell)
