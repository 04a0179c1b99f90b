-- ===== src/Coordinator/Ownership.antt =====
-- What a coordinator's claim gives it, and what it cannot do to another's record.
use veilforge.Coordinator.Trace.{
  Call, claim_call, transition_call, release_call, recover_call, reload_call, confirm_call,
  inspect_call, after, after_all,
}
use veilforge.Base.{
  Bool, not, leb, List, [], ◌∷◌, all, split_&&, ap, ◌∙◌, refl, ℕ, ◌+◌, ◌≤◌, ◌≡◌, ◌↔◌, true, false,
  Option, none, some, ok, arith, ◌⊎◌, inl, inr, Result-cases,
}
use veilforge.Base.Text.{Text, text_eq, text_eq_refl}
use veilforge.Coordinator.Record.{
  SendState, tx_hash_known, rejected, Cell, SendRecord, is_hash, parse_record,
  parse_record-serialize, parse_record-none, check_hash,
}
use veilforge.Coordinator.Methods.{
  Coordinator, claim, transition, allowed, write, fresh, before_provider, is_stale,
  recover_after_reload, release_before_retry, recover_pre_provider, confirm, inspect,
}

-- A hash that `parseRecord` takes.
abbrev pub HasHash : SendState → Option Text → Type 0
HasHash tx_hash_known none = ⊥
HasHash _ none = Unit
HasHash _ (some h) = is_hash h ≡ true

-- What `write` stores is read back unchanged, when the record is of this intent, its hash (if any)
-- is 32 bytes in lower-case hexadecimal, and TX_HASH_KNOWN has one.
pub parse_record-write :
    (r : SendRecord)
    → HasHash r.state r.transaction_hash
    → parse_record r.intent_id (write r) ≡ ok (some r)
unfolding check_hash
parse_record-write r h =
    ground (arith, parse_record-serialize r.intent_id r, text_eq_refl r.intent_id)

claimed_cell :
    (c : Coordinator) (intent : Text) (now : ℕ) (cell : Option Cell) (r : SendRecord)
    → (claim c intent now cell).0 ≡ ok (record { acquired = true; claimed = r })
    → claim c intent now cell
      ≡ (ok (record { acquired = true; claimed = fresh c intent now }), write (fresh c intent now))
unfolding claim
claimed_cell c intent now cell r won = ground arith

claim-fresh :
    (c d : Coordinator) (intent : Text) (now later : ℕ)
    → is_hash intent ≡ true
    → later ≤ now + d.lease_ms
    → claim d intent later (write (fresh c intent now))
      ≡ (ok (record { acquired = false; claimed = fresh c intent now }), write (fresh c intent now))
unfolding claim
claim-fresh c d intent now later valid soon =
    ground (arith, parse_record-write (fresh c intent now))

-- A call that the record of a claim survives: a claim or a recovery while the caller's lease lasts from
-- the time of the claim, a transition or a release by a coordinator with another id, or a call that
-- concerns no record of this state.
abbrev spares : Coordinator → ℕ → Call → Bool
spares c now (claim_call d later) = leb later (now + d.lease_ms)
spares c now (transition_call d state hash later) = not (text_eq c.owner_id d.owner_id)
spares c now (release_call d w p) = not (text_eq c.owner_id d.owner_id)
spares c now (recover_call d later) = leb later (now + d.lease_ms)
spares c now (reload_call d later) = leb later (now + d.lease_ms)
spares c now (confirm_call hash later) = true
spares c now inspect_call = true

module _ (c : Coordinator) (intent : Text) (now : ℕ) (valid : is_hash intent ≡ true) where
  after-fresh :
      (x : Call)
      → spares c now x ≡ true
      → after intent x (write (fresh c intent now)) ≡ write (fresh c intent now)
  unfolding after claim transition release_before_retry recover_pre_provider recover_after_reload
      confirm inspect
  after-fresh (claim_call d later) h =
      ground (arith, h, valid, parse_record-write (fresh c intent now))
  after-fresh (transition_call d state hash later) h =
      ground (arith, h, valid, parse_record-write (fresh c intent now))
  after-fresh (release_call d w p) h =
      ground (arith, h, valid, parse_record-write (fresh c intent now))
  after-fresh (recover_call d later) h =
      ground (arith, h, valid, parse_record-write (fresh c intent now))
  after-fresh (reload_call d later) h =
      ground (arith, h, valid, parse_record-write (fresh c intent now))
  after-fresh (confirm_call hash later) h =
      ground (arith, h, valid, parse_record-write (fresh c intent now))
  after-fresh inspect_call h = ground (arith, h, valid, parse_record-write (fresh c intent now))

  after_all-fresh :
      (xs : List Call)
      → all (spares c now) xs ≡ true
      → after_all intent xs (write (fresh c intent now)) ≡ write (fresh c intent now)
  unfolding after_all
  after_all-fresh [] h = refl
  after_all-fresh (x ∷ xs) h =
      let (p, k) = split_&& (spares c now x) (all (spares c now) xs) h in
      ap (after_all intent xs) (after-fresh x p) ∙ after_all-fresh xs k

-- Once a coordinator has acquired an intent, whatever calls follow of which it makes no transition and
-- no release, and while the lease of each one that claims or recovers lasts from that moment, no
-- coordinator acquires the intent: it is told the first one's record, and the storage is left as the
-- claim wrote it.
pub claim_excludes :
    (c d : Coordinator) (intent : Text) (now later : ℕ) (cell : Option Cell) (r : SendRecord)
    (xs : List Call)
    → is_hash intent ≡ true
    → all (spares c now) xs ≡ true
    → later ≤ now + d.lease_ms
    → (claim c intent now cell).0 ≡ ok (record { acquired = true; claimed = r })
    → claim d intent later (after_all intent xs (claim c intent now cell).1)
      ≡ (ok (record { acquired = false; claimed = r }), (claim c intent now cell).1)
claim_excludes c d intent now later cell r xs valid spared soon won =
    let after_claim = claimed_cell c intent now cell r won in
    let same : fresh c intent now ≡ r = ground arith in
    rw (← same, after_claim, after_all-fresh c intent now valid xs spared)
      (claim-fresh c d intent now later valid soon)

-- A call of `transition` that succeeds was made by the record's owner, along an allowed edge, and
-- leaves the intent, the owner and the creation time as they were.
pub transition_sound :
    (c : Coordinator) (intent : Text) (state : SendState) (hash : Option Text) (now : ℕ)
    (cell : Option Cell) (r : SendRecord)
    → (transition c intent state hash now cell).0 ≡ ok r
    → (e : SendRecord) × (parse_record intent cell ≡ ok (some e))
      × (text_eq e.owner_id c.owner_id ≡ true)
      × (allowed e.state state ≡ true)
      × (r.state ≡ state)
      × (r.intent_id ≡ e.intent_id)
      × (r.owner_id ≡ e.owner_id)
      × (r.created_at ≡ e.created_at)
      × ((transition c intent state hash now cell).1 ≡ write r)
unfolding transition
transition_sound c intent state hash now cell r done =
    elim (Result-cases (parse_record intent cell)) [
      | inl (e, bad) ↦ absurd (ground arith)
      | inr (none, absent) ↦ absurd (ground arith)
      | inr (some e, found) ↦ (
        e,
        found,
        ground arith,
        ground arith,
        ground arith,
        ground arith,
        ground arith,
        ground arith,
        ground arith,
      )
    ]

-- A reload forgets a readable record exactly when the wallet refused it, or when it is stale and
-- was abandoned before the provider was called.
pub reload_forgets_iff :
    (c : Coordinator) (intent : Text) (now : ℕ) (cell : Option Cell) (e : SendRecord)
    → is_hash intent ≡ true
    → parse_record intent cell ≡ ok (some e)
    → ((recover_after_reload c intent now cell).1 ≡ none) ↔ (
        (e.state ≡ rejected)
        ⊎ ((before_provider e.state ≡ true) × (is_stale c.lease_ms e now ≡ true)))
unfolding recover_after_reload
reload_forgets_iff c intent now none e valid found = absurd (cc (parse_record-none intent))
reload_forgets_iff c intent now (some stored) e valid found = (λ h. ground arith, λ h. ground arith)
