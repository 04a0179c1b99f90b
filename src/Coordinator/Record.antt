-- ===== src/Coordinator/Record.antt =====
-- The record of an intent, its stored form, and `parseRecord`.
use Prim.Native.String.{String}
use text.Mathlib.Text.{◌==◌ as str_eq}
use veilforge.Base.{
  ℕ, ◌==◌, ◌≡◌, refl, Bool, true, false, ◌||◌, Option, none, some, Result, ok, err, ◌>>=◌, ◌>>◌,
  guard, arith, if◌then◌else◌,
}
use veilforge.Base.Text.{Text, text_eq, hex_literal, is_lower_hex}

-- `PROOF_SEND_STATES`
pub data SendState : Type 0 where
  prepared wallet_request_pending provider_call_started tx_hash_known reconciliation_required
        confirmed rejected :
      SendState

-- The values of `PROOF_SEND_STATES`, as stored.
abbrev pub state_name : SendState → String
state_name SendState.prepared = "PREPARED"
state_name SendState.wallet_request_pending = "WALLET_REQUEST_PENDING"
state_name SendState.provider_call_started = "PROVIDER_CALL_STARTED"
state_name SendState.tx_hash_known = "TX_HASH_KNOWN"
state_name SendState.reconciliation_required = "RECONCILIATION_REQUIRED"
state_name SendState.confirmed = "CONFIRMED"
state_name SendState.rejected = "REJECTED"

-- `STATES.has`, with the state that the name stands for.
unfoldable pub state_of : String → Option SendState
state_of s =
    if str_eq s "PREPARED"
    then some SendState.prepared
    else if str_eq s "WALLET_REQUEST_PENDING"
    then some SendState.wallet_request_pending
    else if str_eq s "PROVIDER_CALL_STARTED"
    then some SendState.provider_call_started
    else if str_eq s "TX_HASH_KNOWN"
    then some SendState.tx_hash_known
    else if str_eq s "RECONCILIATION_REQUIRED"
    then some SendState.reconciliation_required
    else if str_eq s "CONFIRMED"
    then some SendState.confirmed
    else if str_eq s "REJECTED"
    then some SendState.rejected
    else none

state_of-state_name : (s : SendState) → state_of (state_name s) ≡ some s
unfolding state_of
state_of-state_name SendState.prepared = refl
state_of-state_name SendState.wallet_request_pending = refl
state_of-state_name SendState.provider_call_started = refl
state_of-state_name SendState.tx_hash_known = refl
state_of-state_name SendState.reconciliation_required = refl
state_of-state_name SendState.confirmed = refl
state_of-state_name SendState.rejected = refl

-- `LEGACY_STATE[status]`
unfoldable pub legacy_state : String → Option SendState
legacy_state s =
    if str_eq s "validating"
    then some SendState.prepared
    else if str_eq s "wallet-request-pending"
    then some SendState.reconciliation_required
    else if str_eq s "pending"
    then some SendState.tx_hash_known
    else if str_eq s "reconciliation-required"
    then some SendState.reconciliation_required
    else none

-- A safe integer: `pos n` is n, `negsuc n` is -(n + 1).
pub data ℤ : Type 0 where
  pos negsuc : ℕ → ℤ

pub data StoredHash : Type 0 where
  null : StoredHash
  str : Text → StoredHash
  other : StoredHash  -- absent, or no text

-- What `JSON.parse` makes of the stored text, as far as `parseRecord` reads it. A field is `none`
-- where it is absent or of another type (for a time: no safe integer).
pub record Stored : Type 0 where
  pub version : Option ℕ
  pub status : Option String
  pub state : Option String
  pub intent_id : Option Text
  pub owner_id : Option Text
  pub created_at : Option ℤ
  pub updated_at : Option ℤ
  pub transaction_hash : StoredHash

-- A text in the storage: no JSON, or the JSON of a value.
pub data Cell : Type 0 where
  corrupt : Cell
  json : Stored → Cell

pub record SendRecord : Type 0 where
  pub intent_id : Text
  pub owner_id : Text
  pub state : SendState
  pub transaction_hash : Option Text
  pub created_at : ℤ
  pub updated_at : ℤ

-- The calls of `coordinationError`, by message.
pub data CoordinationError : Type 0 where
  intent_invalid lease_invalid corrupt_record invalid_record invalid_identity : CoordinationError
  transition_invalid ownership_lost transition_not_allowed hash_invalid : CoordinationError
  not_releasable not_confirmable hash_mismatch : CoordinationError

-- `HASH.test`, and `INTENT.test`.
unfoldable pub is_hash : Text → Bool
unfolding hex_literal
is_hash = hex_literal is_lower_hex 64

abbrev pub version_is : Option ℕ → ℕ → Bool
version_is none n = false
version_is (some v) n = v == n

abbrev pub bind {ℓ κ} : {A : Type ℓ} {B : Type κ} → Option A → (A → Option B) → Option B
bind none f = none
bind (some a) f = f a

-- The state of a stored value: by `status` in version 1, by `state` else.
stored_state : Stored → Option SendState
stored_state s =
    if version_is s.version 1 then bind s.status legacy_state else bind s.state state_of

abbrev pub require {ℓ} : {A : Type ℓ} → Option A → Result CoordinationError A
require none = err CoordinationError.invalid_record
require (some a) = ok a

-- `record.transactionHash !== null && !HASH.test(record.transactionHash)` is an error.
unfoldable pub check_hash : StoredHash → Result CoordinationError (Option Text)
check_hash StoredHash.null = ok none
check_hash StoredHash.other = err CoordinationError.invalid_record
check_hash (StoredHash.str h) =
    if is_hash h then ok (some h) else err CoordinationError.invalid_record

-- `state === TX_HASH_KNOWN && !HASH.test(transactionHash ?? '')` is an error.
abbrev pub has_identity : SendState → Option Text → Bool
has_identity SendState.tx_hash_known none = false
has_identity SendState.tx_hash_known (some h) = is_hash h
has_identity _ _ = true

parse_stored : Text → Stored → Result CoordinationError SendRecord
unfolding stored_state check_hash
parse_stored intent s = do
  guard (version_is s.version 1 || version_is s.version 2) CoordinationError.invalid_record
  id ← require s.intent_id
  guard (text_eq id intent) CoordinationError.invalid_record
  owner ← require s.owner_id
  created ← require s.created_at
  updated ← require s.updated_at
  state ← require (stored_state s)
  hash ← check_hash s.transaction_hash
  guard (has_identity state hash) CoordinationError.invalid_identity
  ok (record {
    intent_id = id;
    owner_id = owner;
    state = state;
    transaction_hash = hash;
    created_at = created;
    updated_at = updated;
  })

-- `parseRecord` of what `getItem` gives: `none` is `null`.
unfoldable pub parse_record : Text → Option Cell → Result CoordinationError (Option SendRecord)
unfolding parse_stored
parse_record intent none = ok none
parse_record intent (some Cell.corrupt) = err CoordinationError.corrupt_record
parse_record intent (some (Cell.json s)) = do r ← parse_stored intent s; ok (some r)

abbrev pub stored_hash : Option Text → StoredHash
stored_hash none = StoredHash.null
stored_hash (some h) = StoredHash.str h

-- `JSON.stringify(record)`
unfoldable pub serialize : SendRecord → Cell
serialize r = Cell.json (record {
  version = some 2;
  status = none;
  state = some (state_name r.state);
  intent_id = some r.intent_id;
  owner_id = some r.owner_id;
  created_at = some r.created_at;
  updated_at = some r.updated_at;
  transaction_hash = stored_hash r.transaction_hash;
})

-- Reading back what `write` stores checks the intent and the hash, and gives the record.
pub parse_record-serialize :
    (intent : Text) (r : SendRecord)
    → parse_record intent (some (serialize r)) ≡ (do
      guard (text_eq r.intent_id intent) CoordinationError.invalid_record
      hash ← check_hash (stored_hash r.transaction_hash)
      guard (has_identity r.state hash) CoordinationError.invalid_identity
      ok (some (record r { transaction_hash = hash })))
unfolding parse_record serialize
parse_record-serialize intent r = ground (arith, state_of-state_name r.state)

pub parse_record-none : (intent : Text) → parse_record intent none ≡ ok none
unfolding parse_record
parse_record-none intent = refl
