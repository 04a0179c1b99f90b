-- ===== src/Coordinator/Methods.antt =====
-- The coordinator's methods, each as one step on the storage cell of an intent. A method reads the
-- clock as an argument; `Date.now()` is a natural number of milliseconds.
use veilforge.Base.{
  ℕ, ◌+◌, suc, Bool, true, false, not, ◌&&◌, ◌||◌, Option, none, some, Result, [], ◌∷◌, ok, Result,
  ok, err, if◌then◌else◌, ltb,
}
use veilforge.Base.Text.{Text, text_eq, to_lower}
use veilforge.Coordinator.Record.{
  SendState, prepared, wallet_request_pending, provider_call_started, tx_hash_known,
  reconciliation_required, confirmed, rejected, pos, negsuc, Cell, SendRecord, CoordinationError,
  intent_invalid, lease_invalid, transition_invalid, ownership_lost, transition_not_allowed,
  hash_invalid, not_releasable, not_confirmable, hash_mismatch, is_hash, parse_record, serialize,
}

-- What `createProofSendCoordinator` keeps: the owner and the lease.
pub record Coordinator : Type 0 where
  pub owner_id : Text
  pub lease_ms : ℕ

-- `createProofSendCoordinator`, where locks and storage are there and an owner is given.
pub create_coordinator : Text → ℕ → Result CoordinationError Coordinator
create_coordinator owner lease =
    if ltb lease 30000 || ltb 300000 lease
    then err lease_invalid
    else ok (record { owner_id = owner; lease_ms = lease })

-- `RECOVERABLE_BEFORE_PROVIDER.has`
abbrev pub before_provider : SendState → Bool
before_provider prepared = true
before_provider wallet_request_pending = true
before_provider _ = false

-- `timestamp - record.updatedAt > leaseMs`
abbrev pub is_stale : ℕ → SendRecord → ℕ → Bool
is_stale lease r timestamp = elim r.updated_at [
  | pos u ↦ ltb (u + lease) timestamp
  | negsuc n ↦ ltb lease (timestamp + suc n)
]

-- A step gives a result and the cell as it leaves it.
abbrev pub Step : Type 0 → Type 0
Step A = Result CoordinationError A × Option Cell

-- `write`
abbrev pub write : SendRecord → Option Cell
write r = some (serialize r)

-- `underLock`, with `const existing = read(intentId)` at the head of the callback; a throw leaves
-- the cell.
abbrev under_lock : {A : Type 0} → Text → Option Cell → (Option SendRecord → Step A) → Step A
under_lock intent cell k =
    if is_hash intent
    then elim (parse_record intent cell) [ err e ↦ (err e, cell) | ok r ↦ k r ]
    else (err intent_invalid, cell)

pub record Claim : Type 0 where
  pub acquired : Bool
  pub claimed : SendRecord

abbrev pub fresh : Coordinator → Text → ℕ → SendRecord
fresh c intent now = record {
  intent_id = intent;
  owner_id = c.owner_id;
  state = prepared;
  transaction_hash = none;
  created_at = pos now;
  updated_at = pos now;
}

abbrev is_started : SendState → Bool
is_started provider_call_started = true
is_started _ = false

abbrev move : SendRecord → SendState → ℕ → SendRecord
move r state now = record r { state = state; updated_at = pos now }

claim_record : Coordinator → Text → ℕ → Option Cell → Option SendRecord → Step Claim
claim_record c intent now cell none =
    let r = fresh c intent now in (ok (record { acquired = true; claimed = r }), write r)
claim_record c intent now cell (some e) =
    let stale = is_stale c.lease_ms e now in
    let lost = move e reconciliation_required now in
    let r = fresh c intent now in
    if is_started e.state && stale
    then (ok (record { acquired = false; claimed = lost }), write lost)
    else if before_provider e.state && stale
    then (ok (record { acquired = true; claimed = r }), write r)
    else (ok (record { acquired = false; claimed = e }), cell)

unfoldable pub claim : Coordinator → Text → ℕ → Option Cell → Step Claim
unfolding claim_record
claim c intent now cell = under_lock intent cell (claim_record c intent now cell)

-- `allowed`: the transitions that `transition` makes.
unfoldable pub allowed : SendState → SendState → Bool
allowed prepared wallet_request_pending = true
allowed wallet_request_pending provider_call_started = true
allowed wallet_request_pending rejected = true
allowed provider_call_started tx_hash_known = true
allowed provider_call_started reconciliation_required = true
allowed provider_call_started rejected = true
allowed reconciliation_required tx_hash_known = true
allowed reconciliation_required confirmed = true
allowed reconciliation_required rejected = true
allowed tx_hash_known confirmed = true
allowed tx_hash_known reconciliation_required = true
allowed _ _ = false

-- `transactionHash ? String(transactionHash).toLowerCase() : existing.transactionHash`
abbrev pub normalized_hash : Option Text → Option Text → Option Text
normalized_hash none existing = existing
normalized_hash (some []) existing = existing
normalized_hash (some (c ∷ h)) existing = some (to_lower (c ∷ h))

-- `state === TX_HASH_KNOWN && !HASH.test(hash ?? '')` is an error.
abbrev missing_hash : SendState → Option Text → Bool
missing_hash tx_hash_known none = true
missing_hash tx_hash_known (some h) = not (is_hash h)
missing_hash _ _ = false

transition_record :
    Coordinator → SendState → Option Text → ℕ → Option Cell → Option SendRecord → Step SendRecord
unfolding allowed
transition_record c state hash now cell none = (err ownership_lost, cell)
transition_record c state hash now cell (some e) =
    let h = normalized_hash hash e.transaction_hash in
    let r = record e { state = state; transaction_hash = h; updated_at = pos now } in
    if not (text_eq e.owner_id c.owner_id)
    then (err ownership_lost, cell)
    else if not (allowed e.state state)
    then (err transition_not_allowed, cell)
    else if missing_hash state h
    then (err hash_invalid, cell)
    else (ok r, write r)

abbrev is_prepared : SendState → Bool
is_prepared prepared = true
is_prepared _ = false

unfoldable pub transition :
    Coordinator → Text → SendState → Option Text → ℕ → Option Cell → Step SendRecord
unfolding transition_record
transition c intent state hash now cell =
    if is_prepared state
    then (err transition_invalid, cell)
    else under_lock intent cell (transition_record c state hash now cell)

abbrev rejectable : SendState → Bool
rejectable provider_call_started = true
rejectable rejected = true
rejectable _ = false

release_record : Coordinator → Bool → Bool → Option Cell → Option SendRecord → Step Bool
release_record c wallet_rejected provider_invoked cell none = (ok false, cell)
release_record c wallet_rejected provider_invoked cell (some e) =
    if not (text_eq e.owner_id c.owner_id)
    then (ok false, cell)
    else if (before_provider e.state && not provider_invoked)
        || (wallet_rejected && rejectable e.state)
    then (ok true, none)
    else (err not_releasable, cell)

unfoldable pub release_before_retry : Coordinator → Text → Bool → Bool → Option Cell → Step Bool
unfolding release_record
release_before_retry c intent wallet_rejected provider_invoked cell =
    under_lock intent cell (release_record c wallet_rejected provider_invoked cell)

recover_record : Coordinator → ℕ → Option Cell → Option SendRecord → Step Bool
recover_record c now cell none = (ok false, cell)
recover_record c now cell (some e) =
    if before_provider e.state && is_stale c.lease_ms e now
    then (ok true, none)
    else (ok false, cell)

unfoldable pub recover_pre_provider : Coordinator → Text → ℕ → Option Cell → Step Bool
unfolding recover_record
recover_pre_provider c intent now cell = under_lock intent cell (recover_record c now cell)

-- The `action` of `recoverAfterReload`.
pub data Action : Type 0 where
  nothing retryable must_reconcile reconcile_known is_confirmed in_flight : Action

abbrev pub Recovery : Type 0
Recovery = Action × Option SendRecord

-- The branches that keep the record.
abbrev kept_action : SendState → Action
kept_action tx_hash_known = reconcile_known
kept_action reconciliation_required = must_reconcile
kept_action confirmed = is_confirmed
kept_action _ = in_flight

abbrev is_rejected : SendState → Bool
is_rejected rejected = true
is_rejected _ = false

reload_record : Coordinator → ℕ → Option Cell → Option SendRecord → Step Recovery
reload_record c now cell none = (ok (nothing, none), cell)
reload_record c now cell (some e) =
    let lost = move e reconciliation_required now in
    if is_rejected e.state || (before_provider e.state && is_stale c.lease_ms e now)
    then (ok (retryable, none), none)
    else if is_started e.state
    then (ok (must_reconcile, some lost), write lost)
    else (ok (kept_action e.state, some e), cell)

unfoldable pub recover_after_reload : Coordinator → Text → ℕ → Option Cell → Step Recovery
unfolding reload_record
recover_after_reload c intent now cell = under_lock intent cell (reload_record c now cell)

abbrev pub confirmable : SendState → Bool
confirmable tx_hash_known = true
confirmable reconciliation_required = true
confirmable _ = false

-- `existing.transactionHash && existing.transactionHash !== hash`
abbrev other_hash : Option Text → Text → Bool
other_hash none hash = false
other_hash (some []) hash = false
other_hash (some (c ∷ h)) hash = not (text_eq (c ∷ h) hash)

confirm_record : Text → ℕ → Option Cell → Option SendRecord → Step SendRecord
confirm_record hash now cell none = (err not_confirmable, cell)
confirm_record hash now cell (some e) =
    let r = record e { state = confirmed; transaction_hash = some hash; updated_at = pos now } in
    if not (confirmable e.state)
    then (err not_confirmable, cell)
    else if other_hash e.transaction_hash hash
    then (err hash_mismatch, cell)
    else (ok r, write r)

unfoldable pub confirm : Text → Text → ℕ → Option Cell → Step SendRecord
unfolding confirm_record
confirm intent hash now cell =
    let h = to_lower hash in
    if is_hash h
    then under_lock intent cell (confirm_record h now cell)
    else (err hash_invalid, cell)

unfoldable pub inspect : Text → Option Cell → Step (Option SendRecord)
inspect intent cell = under_lock intent cell (λ r. (ok r, cell))
