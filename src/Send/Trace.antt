-- ===== src/Send/Trace.antt =====
-- A submission as a sequence of calls of the coordinator, and whether its error is a refusal.
use veilforge.Base.{
  ◌+◌, ℕ, ◌≡◌, refl, Bool, true, false, not, ◌&&◌, Option, none, some, Result, ok, err, arith, inl,
  inr, Bool-cases, split_&&, if◌then◌else◌,
}
use veilforge.Base.Text.{Text, to_lower}
use veilforge.Coordinator.Record.{
  SendRecord, wallet_request_pending, provider_call_started, tx_hash_known, Cell, is_hash,
}
use veilforge.Coordinator.Methods.{
  Claim, Step, Coordinator, claim, transition, release_before_retry, before_provider,
}
use veilforge.Coordinator.Trace.{succeeded, NoRejection}
use veilforge.Send.Failure.{Thrown, coded, declined, user_rejected, is_user_rejected}
use veilforge.Send.Submit.{
  Point, at_pending, at_started, at_known, at_handling, at_release, seen, seen_sends, run,
  handle_result, acquired, on_claimed, on_released, handle_error, release, known, notified,
  send_failure, on_known, on_pending, on_started, asked, ended, Run, Surroundings, Response,
  at_once, rejects, late, answers, request_wallet, handle, submit,
}
use veilforge.Send.Traced.{
  IsTraced, then_traced, between, counted, and_quietly, moved, started, claimed, released_traced,
}

-- The error is not the wallet's refusal, in either form.
abbrev pub other_error : Thrown → Bool
other_error declined = false
other_error (coded user_rejected) = false
other_error _ = true

abbrev pub other_errors : Option Thrown → Bool
other_errors none = true
other_errors (some e) = other_error e

abbrev pub unrefused_response : Response → Bool
unrefused_response (at_once e) = other_error e
unrefused_response (rejects e) = other_error e
unrefused_response late = true
unrefused_response (answers a) = true

-- Nothing in the surroundings of a run says that the wallet refused.
unfoldable pub unrefused_run : Surroundings → Bool
unrefused_run s =
    unrefused_response s.response
    && other_errors s.notify_pending
    && other_errors s.notify_started
    && other_errors s.notify_known

abbrev pub unrefused_result : {A : Type 0} → Result Thrown A → Bool
unrefused_result (ok a) = true
unrefused_result (err e) = not (is_user_rejected e)

other_error-unrefused : (e : Thrown) → other_error e ≡ true → not (is_user_rejected e) ≡ true
other_error-unrefused e h = ground arith

send_failure-unrefused :
    (e : Thrown) → other_error e ≡ true → not (is_user_rejected (send_failure e)) ≡ true
send_failure-unrefused e h = ground arith

-- What a run leaves behind is traced, and its error is not a refusal.
pub record IsRun (intent : Text) (from : Option Cell) (r : Run) : Type 0 where
  pub traced : IsTraced intent from r.stored r.sends
  pub unrefused : unrefused_result r.result ≡ true

pending_fine : (s : Surroundings) → unrefused_run s ≡ true → other_errors s.notify_pending ≡ true
unfolding unrefused_run
pending_fine s h =
    let (front, _) = split_&& _ (other_errors s.notify_known) h in
    let (front', _) = split_&& _ (other_errors s.notify_started) front in
    (split_&& (unrefused_response s.response) (other_errors s.notify_pending) front').1

-- The calls of others report no refusal.
abbrev pub HasQuietOthers : Surroundings → Type 0
HasQuietOthers s = (p : Point) → NoRejection (s.others p)

module _ (c : Coordinator) (intent : Text) (s : Surroundings) (from : Option Cell)
    (quiet : HasQuietOthers s) where
  others_between :
      (p : Point) {cell : Option Cell} {sends : ℕ}
      → IsTraced intent from cell sends
      → IsTraced intent from (seen c intent s p cell) (seen_sends c intent s p cell sends)
  others_between p t = between intent (s.others p) (quiet p) t

  ended-IsRun :
      (n : Option Thrown) (hash : Text) (cell : Option Cell) (sends : ℕ)
      → other_errors n ≡ true
      → IsTraced intent from cell sends
      → IsRun intent from (ended n hash cell sends)
  unfolding ended
  ended-IsRun none hash cell sends h t = record { traced = t; unrefused = refl }
  ended-IsRun (some e) hash cell sends h t = record {
    traced = t;
    unrefused = other_error-unrefused e h;
  }

  on_known-IsRun :
      (hash : Text) (t : Step SendRecord) (sends : ℕ)
      → other_errors s.notify_known ≡ true
      → IsTraced intent from t.1 sends
      → IsRun intent from (on_known c intent s hash t sends)
  unfolding on_known
  on_known-IsRun hash (err e, cell) sends h t = record { traced = t; unrefused = refl }
  on_known-IsRun hash (ok r, cell) sends h t = ended-IsRun s.notify_known hash cell sends h t

  known-IsRun :
      (answer : Text) (cell : Option Cell) (sends : ℕ)
      → other_errors s.notify_known ≡ true
      → IsTraced intent from cell sends
      → IsRun intent from (known c intent s answer cell sends)
  unfolding known
  known-IsRun answer cell sends h t =
      let hash = to_lower answer in
      let found = seen c intent s at_known cell in
      let next = (moved intent c (some hash) s.known_at found).1 in
      elim (Bool-cases (is_hash hash)) [
        | inl e ↦ rw e (
            on_known-IsRun hash (transition c intent tx_hash_known (some hash) s.known_at found)
              (seen_sends c intent s at_known cell sends) h
              (and_quietly intent (others_between at_known t) next))
        | inr e ↦ rw e (record { traced = t; unrefused = refl })
      ]

  asked-IsRun :
      (r : Response) (n : Option Thrown) (cell : Option Cell) (sends : ℕ)
      → unrefused_response r ≡ true
      → other_errors n ≡ true
      → other_errors s.notify_known ≡ true
      → IsTraced intent from cell sends
      → IsRun intent from (asked c intent s r n cell sends)
  unfolding asked
  asked-IsRun (at_once e) n cell sends h k l t = record {
    traced = t;
    unrefused = send_failure-unrefused e h;
  }
  asked-IsRun (rejects e) none cell sends h k l t = record {
    traced = t;
    unrefused = send_failure-unrefused e h;
  }
  asked-IsRun (rejects e) (some n) cell sends h k l t = record {
    traced = t;
    unrefused = send_failure-unrefused n k;
  }
  asked-IsRun late none cell sends h k l t = record { traced = t; unrefused = refl }
  asked-IsRun late (some n) cell sends h k l t = record {
    traced = t;
    unrefused = send_failure-unrefused n k;
  }
  asked-IsRun (answers a) none cell sends h k l t = known-IsRun a cell sends l t
  asked-IsRun (answers a) (some n) cell sends h k l t = record {
    traced = t;
    unrefused = send_failure-unrefused n k;
  }

  on_started-IsRun :
      (t : Step SendRecord) (sends : ℕ)
      → unrefused_run s ≡ true
      → IsTraced intent from t.1 (sends + (if succeeded t then 1 else 0))
      → IsRun intent from (on_started c intent s t sends)
  unfolding on_started unrefused_run
  on_started-IsRun (err e, cell) sends h t = record {
    traced = counted intent (omega arith) t;
    unrefused = refl;
  }
  on_started-IsRun (ok r, cell) sends h t =
      let (front, known_fine) = split_&& _ (other_errors s.notify_known) h in
      let (front', started_fine) = split_&& _ (other_errors s.notify_started) front in
      let (fine, _) =
        split_&& (unrefused_response s.response) (other_errors s.notify_pending) front' in
      asked-IsRun s.response s.notify_started cell (sends + 1) fine started_fine known_fine t

  notified-IsRun :
      (n : Option Thrown) (cell : Option Cell) (sends : ℕ)
      → unrefused_run s ≡ true
      → other_errors n ≡ true
      → IsTraced intent from cell sends
      → IsRun intent from (notified c intent s n cell sends)
  unfolding notified
  notified-IsRun (some e) cell sends h k t = record {
    traced = t;
    unrefused = other_error-unrefused e k;
  }
  notified-IsRun none cell sends h k t =
      let found = seen c intent s at_started cell in
      on_started-IsRun (transition c intent provider_call_started none s.started_at found)
        (seen_sends c intent s at_started cell sends) h
        (then_traced intent (others_between at_started t) (started intent c s.started_at found))

  on_pending-IsRun :
      (t : Step SendRecord) (sends : ℕ)
      → unrefused_run s ≡ true
      → IsTraced intent from t.1 sends
      → IsRun intent from (on_pending c intent s t sends)
  unfolding on_pending
  on_pending-IsRun (err e, cell) sends h t = record { traced = t; unrefused = refl }
  on_pending-IsRun (ok r, cell) sends h t =
      notified-IsRun s.notify_pending cell sends h (pending_fine s h) t

  request_wallet-IsRun :
      (cell : Option Cell)
      → unrefused_run s ≡ true
      → IsTraced intent from cell 0
      → IsRun intent from (request_wallet c intent s cell)
  unfolding request_wallet
  request_wallet-IsRun cell h t =
      let found = seen c intent s at_pending cell in
      on_pending-IsRun (transition c intent wallet_request_pending none s.pending_at found)
        (seen_sends c intent s at_pending cell 0) h
        (and_quietly intent (others_between at_pending t)
          (moved intent c none s.pending_at found).0)

  on_released-IsRun :
      (e : Thrown) (invoked : Bool) (sends : ℕ) (t : Step Bool)
      → not (is_user_rejected e) ≡ true
      → IsTraced intent from t.1 sends
      → IsRun intent from (on_released c intent s e invoked sends t)
  unfolding on_released
  on_released-IsRun e invoked sends (err e', cell) h t = record { traced = t; unrefused = refl }
  on_released-IsRun e invoked sends (ok b, cell) h t = record { traced = t; unrefused = h }

  release-IsRun :
      (e : Thrown) (invoked : Bool) (cell : Option Cell) (sends : ℕ)
      → not (is_user_rejected e) ≡ true
      → IsTraced intent from cell sends
      → IsRun intent from (release c intent s e invoked cell sends)
  unfolding release
  release-IsRun e invoked cell sends h t =
      let other : is_user_rejected e ≡ false = ground arith in
      let found = seen c intent s at_release cell in
      rw other (
        on_released-IsRun e invoked (seen_sends c intent s at_release cell sends)
          (release_before_retry c intent false invoked found) h
          (and_quietly intent (others_between at_release t)
            (released_traced intent c invoked found)))

  handle_result-IsRun :
      (r : Result Thrown Text) (invoked : Bool) (cell : Option Cell) (sends : ℕ)
      → unrefused_result r ≡ true
      → IsTraced intent from cell sends
      → IsRun intent from (handle_result c intent s r invoked cell sends)
  unfolding handle_result handle_error
  handle_result-IsRun (ok hash) invoked cell sends h t = record { traced = t; unrefused = refl }
  handle_result-IsRun (err e) false cell sends h t = release-IsRun e false cell sends h t
  handle_result-IsRun (err e) true cell sends h t =
      let other : is_user_rejected e ≡ false = ground arith in
      rw other (record {
        traced =
            and_quietly intent (others_between at_handling t)
              (moved intent c none s.handled_at (seen c intent s at_handling cell)).2;
        unrefused = refl;
      })

  handle-IsRun : (r : Run) → IsRun intent from r → IsRun intent from (handle c intent s r)
  unfolding handle
  handle-IsRun r h =
      handle_result-IsRun r.result r.provider_invoked r.stored r.sends h.unrefused h.traced

  acquired-IsRun :
      (review : Result Thrown (Unit {0})) (cell : Option Cell)
      → unrefused_result review ≡ true
      → unrefused_run s ≡ true
      → IsTraced intent from cell 0
      → IsRun intent from (acquired c intent s review cell)
  unfolding acquired
  acquired-IsRun (err e) cell h k t =
      handle-IsRun (run (err e) false cell 0) (record { traced = t; unrefused = h })
  acquired-IsRun (ok u) cell h k t =
      handle-IsRun (request_wallet c intent s cell) (request_wallet-IsRun cell k t)

  on_claimed-IsRun :
      (review : Result Thrown (Unit {0})) (t : Step Claim)
      → unrefused_result review ≡ true
      → unrefused_run s ≡ true
      → IsTraced intent from t.1 0
      → IsRun intent from (on_claimed c intent s review t)
  unfolding on_claimed
  on_claimed-IsRun review (err e, cell) h k t = record { traced = t; unrefused = refl }
  on_claimed-IsRun review (ok claim, cell) h k t = elim (Bool-cases claim.acquired) [
    | inl e ↦ rw e (acquired-IsRun review cell h k t)
    | inr e ↦ elim (Bool-cases (before_provider claim.claimed.state)) [
      | inl f ↦ rw (e, f) (record { traced = t; unrefused = refl })
      | inr f ↦ rw (e, f) (record { traced = t; unrefused = refl })
    ]
  ]

-- A submission is a sequence of calls of the coordinator.
pub submit-IsRun :
    (c : Coordinator) (intent : Text) (s : Surroundings) (review : Result Thrown (Unit {0}))
    (cell : Option Cell)
    → unrefused_result review ≡ true
    → unrefused_run s ≡ true
    → HasQuietOthers s
    → IsRun intent cell (submit c intent s review cell)
unfolding submit
submit-IsRun c intent s review cell h k quiet =
    on_claimed-IsRun c intent s cell quiet review (claim c intent s.claimed_at cell) h k
      (claimed intent c s.claimed_at cell)
