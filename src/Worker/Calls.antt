-- ===== src/Worker/Calls.antt =====
-- The calls of a client and its timers: abort, scan, dispose, and what happens over time.

use veilforge.Base.{
  ℕ, ◌+◌, Bool, true, false, Option, none, some, List, [], ◌∷◌, ◌++◌, take, drop, if◌then◌else◌,
}
use veilforge.Base.Text.{Text, text_eq}
use veilforge.Worker.Client.{
  Error, rejected, Ready, pending, reached, failed, Active, Timer, scan_request, abort_request,
  shutdown, Message, Client, terminate, on_message,
}

-- createWorkerMessage throws on an empty request id; `failure` is what semanticScanPayload or
-- postMessage throws where it is reached.
abbrev pub posting : Text → Option Error → Option Error
posting id (some e) = some e
posting [] none = some "WEB_V4_PROTOCOL_INVALID"
posting (c ∷ id) none = none

abbrev pub unless_thrown {ℓ} : {A : Type ℓ} → Option Error → A → List A
unless_thrown none a = a ∷ []
unless_thrown (some e) a = []

abbrev pub if_thrown : Option Error → ℕ → List (ℕ × Error)
if_thrown none promise = []
if_thrown (some e) promise = (promise, e) ∷ []

-- The error of a message that is not posted goes to the caller of abort; no timer is set then.
abbrev pub abort_active : Option Error → Active → Client → Client
abort_active failure a c = record {
  active = some (record { request_id = a.request_id; promise = a.promise; abort_sent = true });
  disposed = c.disposed;
  termination_error = c.termination_error;
  ready = c.ready;
  worker_ready_reached = c.worker_ready_reached;
  timers =
      c.timers
      ++ unless_thrown failure
          (record { promise = a.promise; request_id = a.request_id; hard = true });
  waiting = c.waiting;
  settled = c.settled;
  thrown = c.thrown;
  posted = c.posted ++ unless_thrown failure (abort_request a.request_id);
  next_promise = c.next_promise;
}

-- `abort(id)`: a repeated abort terminates the worker.
unfoldable pub abort_of : Option Active → Text → Option Error → Client → Client
unfolding terminate
abort_of none id failure c = c
abort_of (some a) id failure c =
    if text_eq id a.request_id
    then (if a.abort_sent
        then terminate "WEB_V4_ABORTED" c
        else abort_active (posting a.request_id failure) a c)
    else c

unfoldable pub abort : Text → Option Error → Client → Client
unfolding abort_of
abort id failure c = abort_of c.active id failure c

abbrev pub reject_new : Error → Client → Client
reject_new error c = record {
  active = c.active;
  disposed = c.disposed;
  termination_error = c.termination_error;
  ready = c.ready;
  worker_ready_reached = c.worker_ready_reached;
  timers = c.timers;
  waiting = c.waiting;
  settled = c.settled ++ ((c.next_promise, rejected error) ∷ []);
  thrown = c.thrown;
  posted = c.posted;
  next_promise = c.next_promise + 1;
}

abbrev pub await_ready : Text → Client → Client
await_ready id c = record {
  active = c.active;
  disposed = c.disposed;
  termination_error = c.termination_error;
  ready = c.ready;
  worker_ready_reached = c.worker_ready_reached;
  timers = c.timers;
  waiting = c.waiting ++ ((c.next_promise, id) ∷ []);
  settled = c.settled;
  thrown = c.thrown;
  posted = c.posted;
  next_promise = c.next_promise + 1;
}

abbrev pub error_of : Option Error → Error
error_of none = "WEB_V4_WORKER_CRASH"
error_of (some e) = e

abbrev pub is_some {ℓ} : {A : Type ℓ} → Option A → Bool
is_some none = false
is_some (some a) = true

-- `scan` up to `await ready`.
unfoldable pub scan : Text → Client → Client
scan id c =
    if c.disposed
    then reject_new (error_of c.termination_error) c
    else if is_some c.active
    then reject_new "WEB_V4_WORKER_BUSY" c
    else await_ready id c

-- The rest of `scan`, for the call that has waited longest.
abbrev pub reject_waiting : ℕ → List (ℕ × Text) → Error → Client → Client
reject_waiting promise rest error c = record {
  active = c.active;
  disposed = c.disposed;
  termination_error = c.termination_error;
  ready = c.ready;
  worker_ready_reached = c.worker_ready_reached;
  timers = c.timers;
  waiting = rest;
  settled = c.settled ++ ((promise, rejected error) ∷ []);
  thrown = c.thrown;
  posted = c.posted;
  next_promise = c.next_promise;
}

-- The executor of the promise: where posting throws, the promise is rejected, and the scan stays active.
abbrev pub start : ℕ → Text → List (ℕ × Text) → Option Error → Client → Client
start promise id rest failure c = record {
  active = some (record { request_id = id; promise = promise; abort_sent = false });
  disposed = c.disposed;
  termination_error = c.termination_error;
  ready = c.ready;
  worker_ready_reached = c.worker_ready_reached;
  timers = c.timers ++ (record { promise = promise; request_id = id; hard = false } ∷ []);
  waiting = rest;
  settled = c.settled;
  thrown = c.thrown ++ if_thrown failure promise;
  posted = c.posted ++ unless_thrown failure (scan_request id);
  next_promise = c.next_promise;
}

unfoldable pub resume_first : Ready → List (ℕ × Text) → Option Error → Client → Client
resume_first pending waiting failure c = c
resume_first r [] failure c = c
resume_first reached ((promise, id) ∷ rest) failure c =
    if c.disposed
    then reject_waiting promise rest (error_of c.termination_error) c
    else start promise id rest (posting id failure) c
resume_first (failed e) ((promise, id) ∷ rest) failure c = reject_waiting promise rest e c

unfoldable pub resume : Option Error → Client → Client
unfolding resume_first
resume failure c = resume_first c.ready c.waiting failure c

abbrev pub post_shutdown : Client → Client
post_shutdown c = record {
  active = c.active;
  disposed = c.disposed;
  termination_error = c.termination_error;
  ready = c.ready;
  worker_ready_reached = c.worker_ready_reached;
  timers = c.timers;
  waiting = c.waiting;
  settled = c.settled;
  thrown = c.thrown;
  posted = c.posted ++ (shutdown ∷ []);
  next_promise = c.next_promise;
}

-- Where postMessage throws, dispose goes no further.
unfoldable pub dispose : Option Error → Client → Client
unfolding terminate
dispose none c = terminate "WEB_V4_ABORTED" (if c.disposed then c else post_shutdown c)
dispose (some e) c = if c.disposed then terminate "WEB_V4_ABORTED" c else c

-- The timer that fires is no longer among the pending ones.
unfoldable pub fire : List Timer → List Timer → Option Error → Client → Client
unfolding terminate abort
fire before [] failure c = c
fire before (t ∷ after) failure c =
    let left : Client = record {
      active = c.active;
      disposed = c.disposed;
      termination_error = c.termination_error;
      ready = c.ready;
      worker_ready_reached = c.worker_ready_reached;
      timers = before ++ after;
      waiting = c.waiting;
      settled = c.settled;
      thrown = c.thrown;
      posted = c.posted;
      next_promise = c.next_promise;
    } in
    if t.hard then terminate "WEB_V4_TIMEOUT" left else abort t.request_id failure left

-- What can happen to a client, with what posting a message throws. Once it has terminated, its
-- listeners are removed.
pub data Event : Type 0 where
  scan_called : Text → Event
  resumed : Option Error → Event
  received : Message → Event
  crashed : Error → Event
  aborted : Text → Option Error → Event
  fired : ℕ → Option Error → Event
  dispose_called : Option Error → Event

unfoldable pub step : Event → Client → Client
unfolding scan resume on_message terminate abort fire dispose
step (scan_called id) c = scan id c
step (resumed failure) c = resume failure c
step (received m) c = if c.disposed then c else on_message m c
step (crashed error) c = terminate error c
step (aborted id failure) c = abort id failure c
step (fired i failure) c = fire (take i c.timers) (drop i c.timers) failure c
step (dispose_called failure) c = dispose failure c

unfoldable pub run : List Event → Client → Client
unfolding step
run [] c = c
run (e ∷ es) c = run es (step e c)
