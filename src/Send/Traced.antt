-- ===== src/Send/Traced.antt =====
-- What a submission does to the stored cell, as a sequence of calls of the coordinator.
use veilforge.Base.{
  ℕ, ◌+◌, ◌≡◌, ◌∙◌, refl, ap, Bool, false, Option, none, List, [], ◌∷◌, ◌++◌, arith, inl, inr,
  Bool-cases, if◌then◌else◌,
}
use veilforge.Base.Text.{Text}
use veilforge.Coordinator.Record.{
  wallet_request_pending, provider_call_started, tx_hash_known, reconciliation_required, Cell,
}
use veilforge.Coordinator.Methods.{Coordinator, claim, transition, release_before_retry}
use veilforge.Coordinator.Trace.{
  Call, claim_call, transition_call, release_call, after, after_all, starts, total_starts,
  NoRejection, reports_rejection, succeeded,
}

module _ (intent : Text) where
  after_all-append :
      (xs ys : List Call) (cell : Option Cell)
      → after_all intent (xs ++ ys) cell ≡ after_all intent ys (after_all intent xs cell)
  unfolding after_all
  after_all-append [] ys cell = refl
  after_all-append (x ∷ xs) ys cell = after_all-append xs ys (after intent x cell)

  total_starts-append :
      (xs ys : List Call) (cell : Option Cell)
      → total_starts intent (xs ++ ys) cell
        ≡ total_starts intent xs cell + total_starts intent ys (after_all intent xs cell)
  unfolding total_starts after_all
  total_starts-append [] ys cell = omega arith
  total_starts-append (x ∷ xs) ys cell =
      omega (arith, total_starts-append xs ys (after intent x cell))

  NoRejection-append :
      (xs ys : List Call) → NoRejection xs → NoRejection ys → NoRejection (xs ++ ys)
  NoRejection-append [] ys h k = k
  NoRejection-append (x ∷ xs) ys (p, h) k = (p, NoRejection-append xs ys h k)

  -- Calls, none of which reports a refusal, lead from one cell to the other and permit so many calls
  -- of the wallet.
  pub record IsTraced (from to : Option Cell) (sends : ℕ) : Type 0 where
    pub calls : List Call
    pub leads : after_all intent calls from ≡ to
    pub permits : total_starts intent calls from ≡ sends
    pub unrefused : NoRejection calls

  pub stay : (cell : Option Cell) → IsTraced cell cell 0
  unfolding after_all total_starts
  stay cell = record { calls = []; leads = refl; permits = refl; unrefused = tt }

  pub call :
      (x : Call) (cell : Option Cell)
      → reports_rejection x ≡ false
      → IsTraced cell (after intent x cell) (starts intent x cell)
  unfolding after_all total_starts
  call x cell h = record {
    calls = x ∷ [];
    leads = refl;
    permits = omega arith;
    unrefused = (h, tt);
  }

  pub then_traced :
      {a b d : Option Cell} {m n : ℕ} → IsTraced a b m → IsTraced b d n → IsTraced a d (m + n)
  then_traced {a} {b} {d} {m} {n} p q = record {
    calls = p.calls ++ q.calls;
    leads = after_all-append p.calls q.calls a ∙ ap (after_all intent q.calls) p.leads ∙ q.leads;
    permits = omega (
      arith,
      total_starts-append p.calls q.calls a,
      p.permits,
      ap (total_starts intent q.calls) p.leads,
      q.permits,
    );
    unrefused = NoRejection-append p.calls q.calls p.unrefused q.unrefused;
  }

  pub and_quietly : {a b d : Option Cell} {n : ℕ} → IsTraced a b n → IsTraced b d 0 → IsTraced a d n
  and_quietly p q =
      let both = then_traced p q in
      record {
        calls = both.calls;
        leads = both.leads;
        permits = omega (arith, both.permits);
        unrefused = both.unrefused;
      }

  -- The calls of others.
  pub between :
      {a b : Option Cell} {n : ℕ} (xs : List Call)
      → NoRejection xs
      → IsTraced a b n
      → IsTraced a (after_all intent xs b) (n + total_starts intent xs b)
  between xs h t =
      then_traced t (record { calls = xs; leads = refl; permits = refl; unrefused = h })

  pub counted : {a b : Option Cell} {m n : ℕ} → m ≡ n → IsTraced a b m → IsTraced a b n
  counted e t = record {
    calls = t.calls;
    leads = t.leads;
    permits = omega (arith, t.permits, e);
    unrefused = t.unrefused;
  }

  -- A transition to another state than PROVIDER_CALL_STARTED and REJECTED.
  pub moved :
      (c : Coordinator) (hash : Option Text) (now : ℕ) (cell : Option Cell)
      → IsTraced cell (transition c intent wallet_request_pending hash now cell).1 0
        × IsTraced cell (transition c intent tx_hash_known hash now cell).1 0
        × IsTraced cell (transition c intent reconciliation_required hash now cell).1 0
  unfolding after starts
  moved c hash now cell = (
    call (transition_call c wallet_request_pending hash now) cell refl,
    call (transition_call c tx_hash_known hash now) cell refl,
    call (transition_call c reconciliation_required hash now) cell refl,
  )

  pub started :
      (c : Coordinator) (now : ℕ) (cell : Option Cell)
      → let t = transition c intent provider_call_started none now cell in
        IsTraced cell t.1 (if succeeded t then 1 else 0)
  unfolding after starts
  started c now cell =
      let t = transition c intent provider_call_started none now cell in
      let x = call (transition_call c provider_call_started none now) cell refl in
      elim (Bool-cases (succeeded t)) [ inl e ↦ rw e (rw e at x) | inr e ↦ rw e (rw e at x) ]

  pub claimed :
      (c : Coordinator) (now : ℕ) (cell : Option Cell) → IsTraced cell (claim c intent now cell).1 0
  unfolding after starts
  claimed c now cell = call (claim_call c now) cell refl

  pub released_traced :
      (c : Coordinator) (invoked : Bool) (cell : Option Cell)
      → IsTraced cell (release_before_retry c intent false invoked cell).1 0
  unfolding after starts
  released_traced c invoked cell = call (release_call c false invoked) cell refl
