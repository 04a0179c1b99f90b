-- ===== src/Send/Sound.antt =====
-- What holds of a publication that the user has approved: the wallet is asked once, for what was
-- reviewed, and an intent that fails before the wallet is asked can be tried again.

use veilforge.Base.{
  ℕ, ◌+◌, ◌≤◌, ◌≡◌, refl, Bool, true, false, not, ◌&&◌, Option, none, List, [], ◌∷◌, Result, ok,
  err, arith, split_&&,
}
use veilforge.Base.Text.{Text, text_eq_refl}
use veilforge.Coordinator.Record.{Cell, is_hash, parse_record-none}
use veilforge.Coordinator.Methods.{Coordinator, claim, release_before_retry, fresh, write}
use veilforge.Coordinator.Trace.{Call, after, starts, reports_rejection}
use veilforge.Coordinator.Once.{total_starts-le-one}
use veilforge.Coordinator.Ownership.{parse_record-write}
use veilforge.Send.Failure.{Thrown, is_user_rejected}
use veilforge.Send.Submit.{Run, Surroundings, submit}
use veilforge.Send.Traced.{IsTraced, stay, call, then_traced}
use veilforge.Send.Trace.{unrefused_result, unrefused_run, HasQuietOthers, submit-IsRun}

-- What happens to an intent: a submission by some context, or any single call of a coordinator.
pub data Event : Type 0 where
  submission : Coordinator → Surroundings → Result Thrown (Unit {0}) → Event
  single : Call → Event

unfoldable pub cell_after : Text → Event → Option Cell → Option Cell
cell_after intent (submission c s review) cell = (submit c intent s review cell).stored
cell_after intent (single x) cell = after intent x cell

-- How often the wallet is asked, or may be asked by the one who made a single call.
unfoldable pub sends_of : Text → Event → Option Cell → ℕ
sends_of intent (submission c s review) cell = (submit c intent s review cell).sends
sends_of intent (single x) cell = starts intent x cell

unfoldable pub total_sends : Text → List Event → Option Cell → ℕ
unfolding cell_after sends_of
total_sends intent [] cell = 0
total_sends intent (x ∷ xs) cell =
    sends_of intent x cell + total_sends intent xs (cell_after intent x cell)

unfoldable pub unrefused_event : Event → Bool
unrefused_event (submission c s review) = unrefused_result review && unrefused_run s
unrefused_event (single x) = not (reports_rejection x)

abbrev pub HasQuiet : Event → Type 0
HasQuiet (submission c s review) = HasQuietOthers s
HasQuiet (single x) = Unit

abbrev pub Unrefused : List Event → Type 0
Unrefused [] = Unit
Unrefused (x ∷ xs) = (unrefused_event x ≡ true) × HasQuiet x × Unrefused xs

event-IsTraced :
    (intent : Text) (x : Event) (cell : Option Cell)
    → unrefused_event x ≡ true
    → HasQuiet x
    → IsTraced intent cell (cell_after intent x cell) (sends_of intent x cell)
unfolding unrefused_event cell_after sends_of
event-IsTraced intent (submission c s review) cell h quiet =
    let (fine, fine') = split_&& (unrefused_result review) (unrefused_run s) h in
    (submit-IsRun c intent s review cell fine fine' quiet).traced
event-IsTraced intent (single x) cell h quiet = call intent x cell (ground arith)

events-IsTraced :
    (intent : Text) (xs : List Event) (cell : Option Cell)
    → Unrefused xs
    → (last : Option Cell) × IsTraced intent cell last (total_sends intent xs cell)
unfolding total_sends
events-IsTraced intent [] cell h = (cell, stay intent cell)
events-IsTraced intent (x ∷ xs) cell (p, quiet, h) =
    let (last, later) = events-IsTraced intent xs (cell_after intent x cell) h in
    (last, then_traced intent (event-IsTraced intent x cell p quiet) later)

-- However many submissions of one intent are made, by whichever contexts, with any calls of
-- coordinators between them and, while one runs, before each of its own calls, the wallet is asked at
-- most once in all, if no wallet, notification or review throws a refusal and no call reports one.
pub total_sends-le-one :
    (intent : Text) (xs : List Event) (cell : Option Cell)
    → Unrefused xs
    → total_sends intent xs cell ≤ 1
total_sends-le-one intent xs cell h =
    let (last, traced) = events-IsTraced intent xs cell h in
    omega (arith, traced.permits, total_starts-le-one intent traced.calls cell traced.unrefused)

claim-none :
    (c : Coordinator) (intent : Text) (now : ℕ)
    → is_hash intent ≡ true
    → claim c intent now none
      ≡ (ok (record { acquired = true; claimed = fresh c intent now }), write (fresh c intent now))
unfolding claim
claim-none c intent now h = ground (arith, parse_record-none intent)

release-fresh :
    (c : Coordinator) (intent : Text) (now : ℕ) (w : Bool)
    → is_hash intent ≡ true
    → release_before_retry c intent w false (write (fresh c intent now)) ≡ (ok true, none)
unfolding release_before_retry
release-fresh c intent now w h =
    ground (arith, parse_record-write (fresh c intent now), text_eq_refl c.owner_id)

-- No other context uses the coordinator while the run lasts.
abbrev pub alone : Surroundings → Surroundings
alone s = record s { others = λ p. [] }

-- A submission of a free intent, which is a valid hash, throws the error of a review that fails, without
-- asking the wallet, and leaves the intent free, if no other context uses the coordinator in the
-- meantime.
pub submit_unreviewed :
    (c : Coordinator) (intent : Text) (s : Surroundings) (e : Thrown)
    → is_hash intent ≡ true
    → submit c intent (alone s) (err e) none
      ≡ record { result = err e; provider_invoked = false; stored = none; sends = 0 }
unfolding submit veilforge.Send.Submit.on_claimed veilforge.Send.Submit.acquired
    veilforge.Send.Submit.handle veilforge.Send.Submit.handle_result
    veilforge.Send.Submit.handle_error veilforge.Send.Submit.release
    veilforge.Send.Submit.on_released veilforge.Coordinator.Trace.after_all
    veilforge.Coordinator.Trace.total_starts
submit_unreviewed c intent s e h =
    rw
      (
        claim-none c intent s.claimed_at h,
        release-fresh c intent s.claimed_at (is_user_rejected e) h,
      )
      refl
