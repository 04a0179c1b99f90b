-- ===== src/Send/Review.antt =====
-- submitUserApprovedProofTransactionInternal up to the wallet request: what must hold before the
-- wallet is asked. Where several requests run at once, the first in the text is the one whose
-- error counts.
use Prim.Native.String.{String}
use text.Mathlib.Text.{◌==◌ as str_eq}
use veilforge.Base.{
  ℕ, ◌==◌, Bool, true, false, not, ◌&&◌, Option, none, some, List, [], ◌∷◌, Result, ok, err, ◌>>=◌,
  ◌>>◌, if◌then◌else◌,
}
use veilforge.Base.Text.{Text, text_eq, to_lower}
use veilforge.Proof.Network.{Network, checksum_address}
use veilforge.Proof.Trust.{
  ChainValue, publish, normalize_chain_id, assert_proof_network_capability, resolve_proof_network,
}
use veilforge.Proof.Registry.{Payload, encode_publish_report}
use veilforge.Send.Failure.{
  web_v4, Code, user_gesture_required, send_disabled, proof_duplicate, tx_invalid,
  provider_unavailable, account_unavailable, wrong_network, proof_preflight_failed, Thrown, coded,
  unknown, require, thrown, else_fail, else_fail_uncoded,
}

-- What `safeTransactionRequest` lets through.
pub record Request : Type 0 where
  pub from : Text
  pub to : Text
  pub call_data : Text

-- The fresh preflight of the registry, at the moment of sending.
pub record Preflight : Type 0 where
  pub duplicate : Bool
  pub passed : Bool
  pub status : String
  pub state_binding : Option Text

-- What the function finds when it asks: the fields of its arguments, and the outcomes of the calls
-- of other files in the order in which it makes them.
pub record Facts : Type 0 where
  pub trusted_click : Bool
  pub network_key : String
  pub envelope : Option Thrown
  pub review_ready : Bool
  pub preflight_status : String
  pub network_preflight : Preflight
  pub current_state_binding : Option Text
  pub request : Result Thrown Request
  pub expected_payload : Result Thrown Payload
  pub payload : Option Payload
  pub reviewed_digest : Text
  pub accounts : Result Thrown (List Text)
  pub provider_chain : Result Thrown ChainValue
  pub fresh_preflight : Result Thrown Preflight
  pub trusted_send : Option Thrown

-- `!a || a !== b` is an error: there is a binding, and the other is the same.
abbrev pub bound : Option Text → Option Text → Bool
bound (some (a ∷ rest)) (some b) = text_eq (a ∷ rest) b
bound _ _ = false

abbrev pub same_binding : Option Text → Option Text → Bool
same_binding none none = true
same_binding (some a) (some b) = text_eq a b
same_binding _ _ = false

abbrev pub uncoded {ℓ} : {E : Type ℓ} {A : Type 0} → Result E A → Result Thrown A
uncoded (ok a) = ok a
uncoded (err e) = err unknown

-- The account that the wallet has active.
abbrev pub first_account : List Text → Result Thrown Text
first_account [] = err (coded account_unavailable)
first_account (a ∷ _) = ok a

abbrev pub stale_failure : Preflight → Code
stale_failure p = if str_eq p.status "wrong-network" then wrong_network else proof_preflight_failed

-- `sha256Digest`, which asks the platform's Web Crypto for the digest.
pub record Digests : Type 0 where
  pub of_payload : Payload → Result Thrown Text
  pub of_request : Request → Result Thrown Text

-- The digest of a payload that may be missing, which is no canonical JSON.
abbrev pub digest_given : Digests → Option Payload → Result Thrown Text
digest_given digests none = err (coded (web_v4 "WEB_V4_REPORT_INVALID"))
digest_given digests (some p) = digests.of_payload p

module _ (encode_utf_8 : Text → List ℕ) (digests : Digests) where
  -- The binding of the request to the report and to the review.
  unfoldable pub check_request : Facts → Result Thrown Request
  check_request f = do
    require
        (f.review_ready
          && str_eq f.preflight_status "ready-to-publish"
          && f.network_preflight.passed)
        send_disabled
    require (not f.network_preflight.duplicate) proof_duplicate
    require (bound f.network_preflight.state_binding f.current_state_binding) send_disabled
    request ← f.request
    expected ← f.expected_payload
    own ← digests.of_payload expected
    given ← digest_given digests f.payload
    require (text_eq own given) tx_invalid
    encoded ← uncoded (encode_publish_report encode_utf_8 expected)
    require (text_eq request.call_data encoded) tx_invalid
    digest ← digests.of_request request
    require (text_eq f.reviewed_digest digest) tx_invalid
    ok request

module _ (to_number : Text → Option ℕ) where
  -- The wallet's account and network at the moment of sending.
  unfoldable pub check_wallet : Facts → Network → Request → Result Thrown (Unit {0})
  check_wallet f network request = do
    accounts ← else_fail_uncoded f.accounts provider_unavailable
    value ← else_fail_uncoded f.provider_chain provider_unavailable
    chain ← else_fail (normalize_chain_id to_number value) provider_unavailable
    account ← first_account accounts
    active ← else_fail (checksum_address account) account_unavailable
    requested ← else_fail (checksum_address request.from) account_unavailable
    require (text_eq (to_lower active) (to_lower requested)) send_disabled
    require (chain == network.chain_id) wrong_network

-- The registry's state has not changed since the review.
unfoldable pub check_fresh : Facts → Result Thrown (Unit {0})
check_fresh f = do
  fresh ← f.fresh_preflight
  require (not fresh.duplicate) proof_duplicate
  require fresh.passed (stale_failure fresh)
  require (same_binding fresh.state_binding f.network_preflight.state_binding) send_disabled

-- Everything before the transition to WALLET_REQUEST_PENDING.
unfoldable pub check_review :
    (Text → List ℕ) → Digests → (Text → Option ℕ) → Facts → Result Thrown Request
check_review encode_utf_8 digests to_number f = do
  require f.trusted_click user_gesture_required
  network ← uncoded (resolve_proof_network f.network_key)
  _ ← else_fail (assert_proof_network_capability f.network_key publish) send_disabled
  thrown f.envelope
  request ← check_request encode_utf_8 digests f
  check_wallet to_number f network request
  check_fresh f
  else_fail (thrown f.trusted_send) send_disabled
  ok request
