-- ===== src/Worker/Client.antt =====
-- createWorkerClient of worker-client.js: its variables as a state, its end, and what it does with a
-- message of the worker. Promises are numbered in the order of the calls of scan; `settled` has the
-- calls of their resolve and reject, and `thrown` the promises whose executor threw, which rejects them
-- before any such call. Notifications of the life cycle, which the code shields, and of progress, which
-- come last in their branch, are left out.
use Prim.Native.String.{String}
use text.Mathlib.Text.{◌==◌ as str_eq}
use veilforge.Base.{
  ℕ, ◌==◌, Bool, true, false, not, ◌||◌, Option, none, some, List, [], ◌∷◌, ◌++◌, any,
  if◌then◌else◌,
}
use veilforge.Base.Text.{Text, codes, text_eq}

-- The code of an error.
abbrev pub Error : Type 0
Error = String

pub data Outcome : Type 0 where
  resolved : ℕ → Outcome
  rejected : Error → Outcome

pub data Ready : Type 0 where
  pending reached : Ready
  failed : Error → Ready

-- A call of scan that has its worker.
pub record Active : Type 0 where
  pub request_id : Text
  pub promise : ℕ
  pub abort_sent : Bool

-- The timeout of a scan, and the hard one after an abort.
pub record Timer : Type 0 where
  pub promise : ℕ
  pub request_id : Text
  pub hard : Bool

pub data Posted : Type 0 where
  scan_request abort_request : Text → Posted
  shutdown : Posted

-- What the worker sends; a result is a number, and a malformed message is the error that
-- assertWorkerMessage throws for it.
pub data Message : Type 0 where
  ready_message : Message
  progress_message : Text → Message
  result_message : Text → ℕ → Message
  error_message : Text → Error → Message
  malformed : Error → Message

pub record Client : Type 0 where
  pub active : Option Active
  pub disposed : Bool
  pub termination_error : Option Error
  pub ready : Ready
  pub worker_ready_reached : Bool
  pub timers : List Timer
  pub waiting : List (ℕ × Text)
  pub settled : List (ℕ × Outcome)
  pub thrown : List (ℕ × Error)
  pub posted : List Posted
  pub next_promise : ℕ

abbrev pub new_client : Client
new_client = record {
  active = none;
  disposed = false;
  termination_error = none;
  ready = pending;
  worker_ready_reached = false;
  timers = [];
  waiting = [];
  settled = [];
  thrown = [];
  posted = [];
  next_promise = 0;
}

-- `settleReady`
abbrev pub settle_ready : Ready → Ready → Ready
settle_ready pending r = r
settle_ready reached r = reached
settle_ready (failed e) r = failed e

abbrev pub clear : Option Active → List Timer → List Timer
clear none timers = timers
clear (some a) [] = []
clear (some a) (t ∷ ts) =
    let rest = clear (some a) ts in if t.promise == a.promise then rest else t ∷ rest

-- `active.reject(error)`, where there is an active scan.
abbrev pub settle : Option Active → Outcome → List (ℕ × Outcome) → List (ℕ × Outcome)
settle none outcome settled = settled
settle (some a) outcome settled = settled ++ ((a.promise, outcome) ∷ [])

unfoldable pub terminate : Error → Client → Client
terminate error c = if c.disposed then c else record {
  active = none;
  disposed = true;
  termination_error = some error;
  ready = settle_ready c.ready (failed error);
  worker_ready_reached = c.worker_ready_reached;
  timers = clear c.active c.timers;
  waiting = c.waiting;
  settled = settle c.active (rejected error) c.settled;
  thrown = c.thrown;
  posted = c.posted;
  next_promise = c.next_promise;
}

-- The active scan is over.
unfoldable pub complete : Outcome → Client → Client
complete outcome c = record {
  active = none;
  disposed = c.disposed;
  termination_error = c.termination_error;
  ready = c.ready;
  worker_ready_reached = c.worker_ready_reached;
  timers = clear c.active c.timers;
  waiting = c.waiting;
  settled = settle c.active outcome c.settled;
  thrown = c.thrown;
  posted = c.posted;
  next_promise = c.next_promise;
}

unfoldable pub with_ready : Ready → Bool → Client → Client
with_ready r reached_it c = record {
  active = c.active;
  disposed = c.disposed;
  termination_error = c.termination_error;
  ready = settle_ready c.ready r;
  worker_ready_reached = c.worker_ready_reached || reached_it;
  timers = c.timers;
  waiting = c.waiting;
  settled = c.settled;
  thrown = c.thrown;
  posted = c.posted;
  next_promise = c.next_promise;
}

-- `FATAL_WORKER_CODES`
abbrev pub is_fatal : Error → Bool
is_fatal code = any (str_eq code) (
    "WEB_V4_WORKER_INIT_FAILED" ∷ "WEB_V4_COMPILER_LOAD_FAILED" ∷ "WEB_V4_ASSET_NOT_FOUND"
    ∷ "WEB_V4_CSP_BLOCKED" ∷ "WEB_V4_MIME_MISMATCH" ∷ "WEB_V4_MESSAGE_ERROR"
    ∷ "WEB_V4_WORKER_RUNTIME_EXCEPTION" ∷ [])

-- `active && id === active.requestId`
abbrev pub is_active : Option Active → Text → Bool
is_active none id = false
is_active (some a) id = text_eq id a.request_id

-- An error for the active scan.
unfoldable pub on_error : Text → Error → Client → Client
unfolding terminate complete
on_error id code c =
    if not c.worker_ready_reached || text_eq id (codes "worker")
    then terminate code c
    else if is_active c.active id
    then (let over = complete (rejected code) c in
        if is_fatal code then terminate code over else over)
    else c

-- `worker.onmessage`, while it is set.
unfoldable pub on_message : Message → Client → Client
unfolding on_error with_ready
on_message ready_message c = with_ready reached true c
on_message (progress_message id) c = c
on_message (result_message id value) c =
    if is_active c.active id then complete (resolved value) c else c
on_message (error_message id code) c = on_error id code c
on_message (malformed code) c = terminate code (with_ready (failed code) false c)
