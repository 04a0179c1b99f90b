-- ===== src/Send/Submit.antt =====
-- submitUserApprovedProofTransaction: the claim, the wallet request with the transitions around it,
-- and what happens to the intent when something throws.

use veilforge.Base.{
  ◌+◌, List, ℕ, Bool, true, false, ◌&&◌, Option, none, some, Result, ok, err, if◌then◌else◌,
}
use veilforge.Base.Text.{Text, to_lower}
use veilforge.Coordinator.Record.{
  wallet_request_pending, provider_call_started, tx_hash_known, reconciliation_required, rejected,
  Cell, SendRecord, is_hash,
}
use veilforge.Coordinator.Methods.{
  Coordinator, Step, Claim, before_provider, claim, transition, release_before_retry,
}
use veilforge.Coordinator.Trace.{Call, after_all, total_starts}
use veilforge.Send.Failure.{
  Code, tx_invalid, user_rejected, timeout, send_in_flight, Thrown, declined, unknown, coded,
  is_user_rejected,
}
use veilforge.Send.Failure as Failure

-- What the wallet's promise does: `provider.request` itself throws, the promise is rejected, it does
-- not settle in time, or it gives a value, as a text.
pub data Response : Type 0 where
  at_once : Thrown → Response
  rejects : Thrown → Response
  late : Response
  answers : Text → Response

-- The points of a run at which it awaits a lock of the coordinator after the claim: other contexts may
-- have used the coordinator since its last call.
pub data Point : Type 0 where
  at_pending at_started at_known at_handling at_release : Point

-- The surroundings of one run: the calls of others before each of its own, the clock at each call of the coordinator, what the three
-- notifications throw, and the wallet's response.
pub record Surroundings : Type 0 where
  pub others : Point → List Call
  pub claimed_at : ℕ
  pub pending_at : ℕ
  pub started_at : ℕ
  pub known_at : ℕ
  pub handled_at : ℕ
  pub notify_pending : Option Thrown
  pub notify_started : Option Thrown
  pub notify_known : Option Thrown
  pub response : Response

-- How far a run has come: its result, whether `attempt.providerInvoked` is set, the stored cell, and
-- how often a wallet was asked to send, by the run or by others in the meantime.
pub record Run : Type 0 where
  pub result : Result Thrown Text
  pub provider_invoked : Bool
  pub stored : Option Cell
  pub sends : ℕ

abbrev pub run : Result Thrown Text → Bool → Option Cell → ℕ → Run
run result invoked cell sends = record {
  result = result;
  provider_invoked = invoked;
  stored = cell;
  sends = sends;
}

-- Every error of the coordinator has this code.
abbrev pub lost : Thrown
lost = coded Failure.reconciliation_required

-- The `catch` around the wallet request.
abbrev pub send_failure : Thrown → Thrown
send_failure declined = coded user_rejected
send_failure (coded c) = coded c
send_failure unknown = coded tx_invalid

-- After the transition to TX_HASH_KNOWN, by what the notification throws.
unfoldable pub ended : Option Thrown → Text → Option Cell → ℕ → Run
ended none hash cell sends = run (ok hash) true cell sends
ended (some e) hash cell sends = run (err e) true cell sends

module _ (c : Coordinator) (intent : Text) (s : Surroundings) where
  -- The cell after the calls of others, and how often a wallet was asked until then.
  abbrev pub seen : Point → Option Cell → Option Cell
  seen p cell = after_all intent (s.others p) cell

  abbrev pub seen_sends : Point → Option Cell → ℕ → ℕ
  seen_sends p cell sends = sends + total_starts intent (s.others p) cell

  unfoldable pub on_known : Text → Step SendRecord → ℕ → Run
  unfolding ended
  on_known hash (err e, cell) sends = run (err lost) true cell sends
  on_known hash (ok r, cell) sends = ended s.notify_known hash cell sends

  -- From the wallet's answer on.
  unfoldable pub known : Text → Option Cell → ℕ → Run
  unfolding on_known
  known answer cell sends =
      let hash = to_lower answer in
      if is_hash hash
      then on_known hash
          (transition c intent tx_hash_known (some hash) s.known_at (seen at_known cell))
          (seen_sends at_known cell sends)
      else run (err (coded tx_invalid)) true cell sends

  -- The wallet has been asked; then comes a notification, and the wait for the answer.
  unfoldable pub asked : Response → Option Thrown → Option Cell → ℕ → Run
  unfolding known
  asked (at_once e) notified cell sends = run (err (send_failure e)) true cell sends
  asked (rejects e) (some n) cell sends = run (err (send_failure n)) true cell sends
  asked (rejects e) none cell sends = run (err (send_failure e)) true cell sends
  asked late (some n) cell sends = run (err (send_failure n)) true cell sends
  asked late none cell sends = run (err (coded timeout)) true cell sends
  asked (answers answer) (some n) cell sends = run (err (send_failure n)) true cell sends
  asked (answers answer) none cell sends = known answer cell sends

  unfoldable pub on_started : Step SendRecord → ℕ → Run
  unfolding asked
  on_started (err e, cell) sends = run (err lost) false cell sends
  on_started (ok r, cell) sends = asked s.response s.notify_started cell (sends + 1)

  unfoldable pub notified : Option Thrown → Option Cell → ℕ → Run
  unfolding on_started
  notified (some e) cell sends = run (err e) false cell sends
  notified none cell sends =
      on_started
        (transition c intent provider_call_started none s.started_at (seen at_started cell))
        (seen_sends at_started cell sends)

  unfoldable pub on_pending : Step SendRecord → ℕ → Run
  unfolding notified
  on_pending (err e, cell) sends = run (err lost) false cell sends
  on_pending (ok r, cell) sends = notified s.notify_pending cell sends

  -- From the transition to WALLET_REQUEST_PENDING to the return, for a reviewed request.
  unfoldable pub request_wallet : Option Cell → Run
  unfolding on_pending
  request_wallet cell =
      on_pending
        (transition c intent wallet_request_pending none s.pending_at (seen at_pending cell))
        (seen_sends at_pending cell 0)

  -- `releaseSendAttempt` in the handler: the first error again, unless the release throws.
  unfoldable pub on_released : Thrown → Bool → ℕ → Step Bool → Run
  on_released e invoked sends (err e', cell) = run (err lost) invoked cell sends
  on_released e invoked sends (ok b, cell) = run (err e) invoked cell sends

  unfoldable pub release : Thrown → Bool → Option Cell → ℕ → Run
  unfolding on_released
  release e invoked cell sends =
      on_released e invoked (seen_sends at_release cell sends)
        (release_before_retry c intent (is_user_rejected e) invoked (seen at_release cell))

  -- A refusal is recorded before the release.
  unfoldable pub on_refused : Thrown → ℕ → Step SendRecord → Run
  unfolding release
  on_refused e sends (err e', cell) = run (err lost) true cell sends
  on_refused e sends (ok r, cell) = release e true cell sends

  -- The handler of `submitUserApprovedProofTransaction`.
  unfoldable pub handle_error : Thrown → Bool → Option Cell → ℕ → Run
  unfolding release on_refused
  handle_error e false cell sends = release e false cell sends
  handle_error e true cell sends =
      let found = seen at_handling cell in
      let asked_by_then = seen_sends at_handling cell sends in
      if is_user_rejected e
      then on_refused e asked_by_then (transition c intent rejected none s.handled_at found)
      else run (err lost) true
          (transition c intent reconciliation_required none s.handled_at found).1 asked_by_then

  unfoldable pub handle_result : Result Thrown Text → Bool → Option Cell → ℕ → Run
  unfolding handle_error
  handle_result (ok hash) invoked cell sends = run (ok hash) invoked cell sends
  handle_result (err e) invoked cell sends = handle_error e invoked cell sends

  unfoldable pub handle : Run → Run
  unfolding handle_result
  handle r = handle_result r.result r.provider_invoked r.stored r.sends

  -- Once the intent is claimed: the review's outcome, the wallet request, the handler.
  unfoldable pub acquired : Result Thrown (Unit {0}) → Option Cell → Run
  unfolding handle
  acquired (err e) cell = handle (run (err e) false cell 0)
  acquired (ok u) cell = handle (request_wallet cell)

  -- `acquireSendAttempt`
  unfoldable pub on_claimed : Result Thrown (Unit {0}) → Step Claim → Run
  unfolding acquired
  on_claimed review (err e, cell) = run (err lost) false cell 0
  on_claimed review (ok k, cell) =
      if k.acquired
      then acquired review cell
      else if before_provider k.claimed.state
      then run (err (coded send_in_flight)) false cell 0
      else run (err lost) false cell 0

  unfoldable pub submit : Result Thrown (Unit {0}) → Option Cell → Run
  unfolding on_claimed
  submit review cell = on_claimed review (claim c intent s.claimed_at cell)

  -- The late answer of a wallet that was given up: it is recorded while the attempt is unclear.
  unfoldable pub late_answer : Bool → Text → ℕ → Option Cell → Option Cell
  late_answer unclear answer now cell =
      let hash = to_lower answer in
      if unclear && is_hash hash
      then (transition c intent tx_hash_known (some hash) now cell).1
      else cell
