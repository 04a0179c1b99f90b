-- ===== src/Worker/Owned.antt =====
-- Each promise of a client is waiting, active or settled by a call, and only once, and its executor
-- throws at most once, when it no longer waits; a client that has terminated
-- has no active scan.

use veilforge.Base.{
  ℕ, ◌+◌, ◌≤◌, ◌==◌, ◌≡◌, refl, Bool, true, false, not, ◌&&◌, ◌||◌, Option, none, some, List, [],
  ◌∷◌, ◌++◌, if◌then◌else◌, arith,
}
use veilforge.Base.Text.{Text, codes, text_eq}
use veilforge.Worker.Client.{
  Error, Outcome, resolved, rejected, Ready, reached, failed, Active, Client, settle, terminate,
  complete, with_ready, is_fatal, is_active, on_error, on_message, Message, ready_message,
  progress_message, result_message, error_message, malformed,
}
use veilforge.Worker.Calls.{is_some}

abbrev pub one : ℕ → ℕ → ℕ
one p q = if p == q then 1 else 0

-- How often a promise waits for the worker, is active, and has been settled.
unfoldable pub waits : ℕ → List (ℕ × Text) → ℕ
waits p [] = 0
waits p ((q, id) ∷ rest) = one p q + waits p rest

unfoldable pub holds : ℕ → Option Active → ℕ
holds p none = 0
holds p (some a) = one p a.promise

unfoldable pub settles {ℓ} : {A : Type ℓ} → ℕ → List (ℕ × A) → ℕ
settles p [] = 0
settles p ((q, o) ∷ rest) = one p q + settles p rest

unfoldable pub owners : ℕ → Client → ℕ
unfolding waits holds settles
owners p c = waits p c.waiting + holds p c.active + settles p c.settled

-- How often a promise waits, and how often its executor threw.
unfoldable pub entered : ℕ → Client → ℕ
unfolding waits settles
entered p c = waits p c.waiting + settles p c.thrown

pub record IsClient (c : Client) : Type 0 where
  pub once : (p : ℕ) → owners p c ≤ 1
  pub enters : (p : ℕ) → entered p c ≤ 1
  pub fresh : (p : ℕ) → c.next_promise ≤ p → owners p c + entered p c ≡ 0
  pub idle : (c.disposed && is_some c.active) ≡ false

pub waits-append :
    (p q : ℕ) (id : Text) (ws : List (ℕ × Text))
    → waits p (ws ++ ((q, id) ∷ [])) ≡ waits p ws + one p q
unfolding waits
waits-append p q id [] = omega arith
waits-append p q id ((r, s) ∷ ws) = omega (arith, waits-append p q id ws)

pub settles-append {ℓ} :
    {A : Type ℓ} (p q : ℕ) (o : A) (ss : List (ℕ × A))
    → settles p (ss ++ ((q, o) ∷ [])) ≡ settles p ss + one p q
unfolding settles
settles-append p q o [] = omega arith
settles-append p q o ((r, s) ∷ ss) = omega (arith, settles-append p q o ss)

settles-settle :
    (p : ℕ) (a : Option Active) (o : Outcome) (ss : List (ℕ × Outcome))
    → settles p (settle a o ss) ≡ settles p ss + holds p a
unfolding settles holds
settles-settle p none o ss = omega arith
settles-settle p (some a) o ss = settles-append p a.promise o ss

-- A step that makes no promise, and gives none to another owner as well.
pub keeps-IsClient :
    (c d : Client)
    → d.next_promise ≡ c.next_promise
    → ((p : ℕ) → owners p d ≤ owners p c)
    → ((p : ℕ) → entered p d ≤ entered p c)
    → (d.disposed && is_some d.active) ≡ false
    → IsClient c
    → IsClient d
keeps-IsClient c d same fewer fewer' idle h = record {
  once = λ p. omega (arith, fewer p, h.once p);
  enters = λ p. omega (arith, fewer' p, h.enters p);
  fresh =
      λ p late. omega (arith, fewer p, fewer' p, h.fresh p (omega (arith, late, same)), late, same);
  idle = idle;
}

-- A test, where each branch may use its outcome.
pub if-IsClient :
    (b : Bool) (c d : Client)
    → (b ≡ true → IsClient c)
    → (b ≡ false → IsClient d)
    → IsClient (if b then c else d)
if-IsClient true c d h k = h refl
if-IsClient false c d h k = k refl

pub not_both : (a b : Bool) → a ≡ false → (a && b) ≡ false
not_both a b h = ground (arith, h)

and_false : (a : Bool) → (a && false) ≡ false
and_false a = ground arith

pub terminate-IsClient : (e : Error) (c : Client) → IsClient c → IsClient (terminate e c)
unfolding terminate owners holds entered
terminate-IsClient e c h =
    if-IsClient c.disposed c _ (λ _. h)
      (λ _.
        keeps-IsClient c _ refl
          (λ p. omega (arith, settles-settle p c.active (rejected e) c.settled)) (λ p. omega arith)
          refl h)

complete-IsClient : (o : Outcome) (c : Client) → IsClient c → IsClient (complete o c)
unfolding complete owners holds entered
complete-IsClient o c h =
    keeps-IsClient c _ refl (λ p. omega (arith, settles-settle p c.active o c.settled))
      (λ p. omega arith) (and_false c.disposed) h

with_ready-IsClient : (r : Ready) (b : Bool) (c : Client) → IsClient c → IsClient (with_ready r b c)
unfolding with_ready owners entered
with_ready-IsClient r b c h = keeps-IsClient c _ refl (λ p. omega arith) (λ p. omega arith) h.idle h

on_error-IsClient : (id : Text) (e : Error) (c : Client) → IsClient c → IsClient (on_error id e c)
unfolding on_error
on_error-IsClient id e c h =
    if-IsClient (not c.worker_ready_reached || text_eq id (codes "worker")) _ _
      (λ _. terminate-IsClient e c h)
      (λ _.
        if-IsClient (is_active c.active id) _ c
          (λ _.
            let over = complete-IsClient (rejected e) c h in
            if-IsClient (is_fatal e) _ _ (λ _. terminate-IsClient e _ over) (λ _. over))
          (λ _. h))

pub on_message-IsClient : (m : Message) (c : Client) → IsClient c → IsClient (on_message m c)
unfolding on_message
on_message-IsClient ready_message c h = with_ready-IsClient reached true c h
on_message-IsClient (progress_message id) c h = h
on_message-IsClient (result_message id value) c h =
    if-IsClient (is_active c.active id) _ c (λ _. complete-IsClient (resolved value) c h) (λ _. h)
on_message-IsClient (error_message id code) c h = on_error-IsClient id code c h
on_message-IsClient (malformed code) c h =
    terminate-IsClient code _ (with_ready-IsClient (failed code) false c h)
