-- ===== src/Worker/Runs.antt =====
-- Every call of a client and every event keeps its promises apart.

use veilforge.Base.{
  ◌≤◌, ◌++◌, ℕ, ◌+◌, ◌==◌, ◌≡◌, refl, ap, true, false, ◌&&◌, Option, none, some, List, [], ◌∷◌,
  take, drop, arith, Bool-cases, inl, inr,
}
use veilforge.Base.Text.{Text, text_eq}
use veilforge.Worker.Client.{
  Error, rejected, Ready, pending, reached, failed, Active, Client, new_client, Timer,
}
use veilforge.Worker.Calls.{
  if_thrown, posting, abort_active, abort_of, abort, reject_new, await_ready, error_of, is_some,
  scan, reject_waiting, start, resume_first, resume, dispose, fire, Event, scan_called, resumed,
  received, crashed, aborted, fired, dispose_called, step, run,
}
use veilforge.Worker.Owned.{
  entered, one, waits, holds, settles, owners, IsClient, if-IsClient, not_both, keeps-IsClient,
  waits-append, settles-append, terminate-IsClient, on_message-IsClient,
}

-- Only a client that has not terminated has an active scan.
open_client : (c : Client) (a : Active) → IsClient c → c.active ≡ some a → c.disposed ≡ false
open_client c a h e =
    let idle = h.idle in let there : is_some c.active ≡ true = ap is_some e in ground arith

abort_active-IsClient :
    (failure : Option Error) (c : Client) (a : Active)
    → IsClient c
    → c.active ≡ some a
    → IsClient (abort_active failure a c)
unfolding owners holds entered
abort_active-IsClient failure c a h e =
    keeps-IsClient c _ refl (λ p. let same = ap (holds p) e in omega (arith, same))
      (λ p. omega arith) (not_both c.disposed true (open_client c a h e)) h

abort-IsClient :
    (id : Text) (failure : Option Error) (c : Client) → IsClient c → IsClient (abort id failure c)
unfolding abort abort_of
abort-IsClient id failure c h = abort_of-IsClient c.active refl
  where
    abort_of-IsClient : (o : Option Active) → c.active ≡ o → IsClient (abort_of o id failure c)
    abort_of-IsClient none e = h
    abort_of-IsClient (some a) e =
        if-IsClient (text_eq id a.request_id) _ c
          (λ _.
            if-IsClient a.abort_sent _ _ (λ _. terminate-IsClient "WEB_V4_ABORTED" c h)
              (λ _. abort_active-IsClient (posting a.request_id failure) c a h e))
          (λ _. h)

-- A new call has a promise of its own.
new-IsClient :
    (c d : Client)
    → d.next_promise ≡ c.next_promise + 1
    → ((p : ℕ) → owners p d ≡ owners p c + one p c.next_promise)
    → ((p : ℕ) → entered p d ≤ entered p c + one p c.next_promise)
    → (d.disposed && is_some d.active) ≡ false
    → IsClient c
    → IsClient d
new-IsClient c d next more more' idle h = record {
  once = λ p. elim (Bool-cases (p == c.next_promise)) [
    | inl same ↦ ground (arith, more p, h.fresh p (ground (arith, same)), same)
    | inr other ↦ ground (arith, more p, h.once p, other)
  ];
  enters = λ p. elim (Bool-cases (p == c.next_promise)) [
    | inl same ↦ ground (arith, more' p, h.fresh p (ground (arith, same)), same)
    | inr other ↦ ground (arith, more' p, h.enters p, other)
  ];
  fresh =
      λ p late. ground (arith, more p, more' p, h.fresh p (omega (arith, late, next)), next, late);
  idle = idle;
}

reject_new-IsClient : (e : Error) (c : Client) → IsClient c → IsClient (reject_new e c)
unfolding owners entered
reject_new-IsClient e c h =
    new-IsClient c _ refl
      (λ p. omega (arith, settles-append p c.next_promise (rejected e) c.settled))
      (λ p. omega arith) h.idle h

await_ready-IsClient : (id : Text) (c : Client) → IsClient c → IsClient (await_ready id c)
unfolding owners entered
await_ready-IsClient id c h =
    new-IsClient c _ refl (λ p. omega (arith, waits-append p c.next_promise id c.waiting))
      (λ p. omega (arith, waits-append p c.next_promise id c.waiting)) h.idle h

scan-IsClient : (id : Text) (c : Client) → IsClient c → IsClient (scan id c)
unfolding scan
scan-IsClient id c h =
    if-IsClient c.disposed _ _ (λ _. reject_new-IsClient (error_of c.termination_error) c h)
      (λ _.
        if-IsClient (is_some c.active) _ _ (λ _. reject_new-IsClient "WEB_V4_WORKER_BUSY" c h)
          (λ _. await_ready-IsClient id c h))

module _ (c : Client) (promise : ℕ) (id : Text) (rest : List (ℕ × Text)) where
  reject_waiting-IsClient :
      (e : Error)
      → c.waiting ≡ (promise, id) ∷ rest
      → IsClient c
      → IsClient (reject_waiting promise rest e c)
  unfolding owners waits entered
  reject_waiting-IsClient e first h =
      keeps-IsClient c _ refl
        (λ p.
          let taken = ap (waits p) first in
          omega (arith, taken, settles-append p promise (rejected e) c.settled))
        (λ p. let taken = ap (waits p) first in omega (arith, taken)) h.idle h

  thrown-if_thrown :
      (failure : Option Error) (p : ℕ) (ts : List (ℕ × Error))
      → settles p (ts ++ if_thrown failure promise) ≤ settles p ts + one p promise
  unfolding settles
  thrown-if_thrown none p [] = omega arith
  thrown-if_thrown none p ((q, e) ∷ ts) = omega (arith, thrown-if_thrown none p ts)
  thrown-if_thrown (some e) p ts = omega (arith, settles-append p promise e ts)

  start-IsClient :
      (failure : Option Error)
      → c.waiting ≡ (promise, id) ∷ rest
      → c.disposed ≡ false
      → IsClient c
      → IsClient (start promise id rest failure c)
  unfolding owners waits holds entered
  start-IsClient failure first open_ h =
      keeps-IsClient c _ refl (λ p. let taken = ap (waits p) first in omega (arith, taken))
        (λ p.
          let taken = ap (waits p) first in
          omega (arith, taken, thrown-if_thrown failure p c.thrown))
        (not_both c.disposed true open_) h

resume-IsClient : (failure : Option Error) (c : Client) → IsClient c → IsClient (resume failure c)
unfolding resume resume_first
resume-IsClient failure c h = resume_first-IsClient c.ready c.waiting refl
  where
    resume_first-IsClient :
        (r : Ready) (ws : List (ℕ × Text)) → c.waiting ≡ ws → IsClient (resume_first r ws failure c)
    resume_first-IsClient pending ws e = h
    resume_first-IsClient reached [] e = h
    resume_first-IsClient (failed x) [] e = h
    resume_first-IsClient reached ((promise, id) ∷ rest) e =
        if-IsClient c.disposed _ _
          (λ _. reject_waiting-IsClient c promise id rest (error_of c.termination_error) e h)
          (λ open_. start-IsClient c promise id rest (posting id failure) e open_ h)
    resume_first-IsClient (failed x) ((promise, id) ∷ rest) e =
        reject_waiting-IsClient c promise id rest x e h

dispose-IsClient : (failure : Option Error) (c : Client) → IsClient c → IsClient (dispose failure c)
unfolding dispose owners entered
dispose-IsClient none c h = terminate-IsClient "WEB_V4_ABORTED" _ (
    if-IsClient c.disposed c _ (λ _. h)
      (λ _. keeps-IsClient c _ refl (λ p. omega arith) (λ p. omega arith) h.idle h))
dispose-IsClient (some e) c h =
    if-IsClient c.disposed _ c (λ _. terminate-IsClient "WEB_V4_ABORTED" c h) (λ _. h)

fire-IsClient :
    (earlier later : List Timer) (failure : Option Error) (c : Client)
    → IsClient c
    → IsClient (fire earlier later failure c)
unfolding fire owners entered
fire-IsClient earlier [] failure c h = h
fire-IsClient earlier (t ∷ later) failure c h =
    let left = keeps-IsClient c _ refl (λ p. omega arith) (λ p. omega arith) h.idle h in
    if-IsClient t.hard _ _ (λ _. terminate-IsClient "WEB_V4_TIMEOUT" _ left)
      (λ _. abort-IsClient t.request_id failure _ left)

step-IsClient : (e : Event) (c : Client) → IsClient c → IsClient (step e c)
unfolding step
step-IsClient (scan_called id) c h = scan-IsClient id c h
step-IsClient (resumed failure) c h = resume-IsClient failure c h
step-IsClient (received m) c h =
    if-IsClient c.disposed c _ (λ _. h) (λ _. on_message-IsClient m c h)
step-IsClient (crashed e) c h = terminate-IsClient e c h
step-IsClient (aborted id failure) c h = abort-IsClient id failure c h
step-IsClient (fired i failure) c h = fire-IsClient (take i c.timers) (drop i c.timers) failure c h
step-IsClient (dispose_called failure) c h = dispose-IsClient failure c h

run-from-IsClient : (es : List Event) (c : Client) → IsClient c → IsClient (run es c)
unfolding run
run-from-IsClient [] c h = h
run-from-IsClient (e ∷ es) c h = run-from-IsClient es (step e c) (step-IsClient e c h)

-- Whatever calls, messages, timers and failures come, also of posting a message, and in whatever order:
-- each promise is waiting, active or settled by a call of its resolve or reject at most once in all; it
-- is waiting or rejected by its executor's throw at most once in all; a promise that has not been made
-- is none of these; and a client that has terminated has no active scan.
pub run-IsClient : (es : List Event) → IsClient (run es new_client)
unfolding owners waits holds settles entered
run-IsClient es = run-from-IsClient es new_client (record {
  once = λ p. omega arith;
  enters = λ p. omega arith;
  fresh = λ p late. refl;
  idle = refl;
})
