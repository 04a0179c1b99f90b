-- ===== src/Send/Approved.antt =====
-- What the review has established when it lets a request through.

use text.Mathlib.Text.{◌==◌ as str_eq}
use veilforge.Base.{
  none, some, ℕ, ◌==◌, ◌≡◌, ◌∙◌, refl, sym, ap, Bool, true, false, not, ◌&&◌, Option, List, [], ◌∷◌,
  Result, ok, err, ◌>>◌, arith, >>=-eq-ok, ok-injective, split_&&, ==_iff,
}
use veilforge.Base.Text.{Text, text_eq, text_eq_sound, to_lower}
use veilforge.Proof.Network.{Network, checksum_address}
use veilforge.Proof.Trust.{
  ChainValue, publish, normalize_chain_id, assert_proof_network_capability, resolve_proof_network,
}
use veilforge.Send.Failure.{
  declined, unknown, coded, Code, Thrown, require, thrown, else_fail, else_fail_uncoded,
  send_disabled, proof_duplicate, tx_invalid, user_gesture_required, provider_unavailable,
  account_unavailable, wrong_network,
}
use veilforge.Proof.Registry.{Payload, encode_publish_report}
use veilforge.Send.Review.{
  Digests, digest_given, Request, Preflight, Facts, bound, same_binding, uncoded, first_account,
  stale_failure, check_request, check_wallet, check_fresh, check_review,
}

require_then :
    {A : Type 0} (test : Bool) (code : Code) (rest : Result Thrown A) {a : A}
    → (require test code >> rest) ≡ ok a
    → (test ≡ true) × (rest ≡ ok a)
require_then false code rest h = cc
require_then true code rest h = (refl, h)

require_sound : (test : Bool) (code : Code) {u : Unit {0}} → require test code ≡ ok u → test ≡ true
require_sound false code h = cc
require_sound true code h = refl

-- The review was ready and nothing had been published; the request is the one whose digest was reviewed,
-- its data is the encoding of the current payload, and that has the digest of the payload of the
-- preflight; and the state that the preflight found is the current one.
pub record IsBound (encode_utf_8 : Text → List ℕ) (digests : Digests) (f : Facts) (r : Request)
    : Type 0 where
  pub ready : f.review_ready ≡ true
  pub prepared : str_eq f.preflight_status "ready-to-publish" ≡ true
  pub passed : f.network_preflight.passed ≡ true
  pub first_time : f.network_preflight.duplicate ≡ false
  pub current : bound f.network_preflight.state_binding f.current_state_binding ≡ true
  pub requested : f.request ≡ ok r
  pub expected : Payload
  pub given : Payload
  pub own_payload : f.expected_payload ≡ ok expected
  pub given_payload : f.payload ≡ some given
  pub same_payload : digests.of_payload expected ≡ digests.of_payload given
  pub encodes : encode_publish_report encode_utf_8 expected ≡ ok r.call_data
  pub reviewed : digests.of_request r ≡ ok f.reviewed_digest

-- The wallet's active account is the sender, and the wallet is on the network of the envelope.
pub record IsConnected (to_number : Text → Option ℕ) (f : Facts) (r : Request) : Type 0 where
  pub network : Network
  pub listed : resolve_proof_network f.network_key ≡ ok network
  pub account : Text
  pub others : List Text
  pub accounts : f.accounts ≡ ok (account ∷ others)
  pub active :
      (a : Text) × (b : Text) × (checksum_address account ≡ ok a)
      × (checksum_address r.from ≡ ok b)
      × (to_lower a ≡ to_lower b)
  pub value : ChainValue
  pub answered : f.provider_chain ≡ ok value
  pub on_chain : normalize_chain_id to_number value ≡ ok network.chain_id

else_fail-ok :
    {E A : Type 0} (m : Result E A) (code : Code) (a : A) → else_fail m code ≡ ok a → m ≡ ok a
else_fail-ok (ok b) code a h = ap ok (ok-injective h)
else_fail-ok (err e) code a h = cc

else_fail_uncoded-ok :
    {A : Type 0} (m : Result Thrown A) (code : Code) (a : A)
    → else_fail_uncoded m code ≡ ok a
    → m ≡ ok a
else_fail_uncoded-ok (ok b) code a h = ap ok (ok-injective h)
else_fail_uncoded-ok (err declined) code a h = cc
else_fail_uncoded-ok (err unknown) code a h = cc
else_fail_uncoded-ok (err (coded c)) code a h = cc

uncoded-ok : {E A : Type 0} (m : Result E A) (a : A) → uncoded m ≡ ok a → m ≡ ok a
uncoded-ok (ok b) a h = ap ok (ok-injective h)
uncoded-ok (err e) a h = cc

first_account-ok :
    (all : List Text) (a : Text) → first_account all ≡ ok a → (rest : List Text) × (all ≡ a ∷ rest)
first_account-ok [] a h = cc
first_account-ok (b ∷ rest) a h = (rest, ap (λ x. x ∷ rest) (ok-injective h))

digest_given-ok :
    (digests : Digests) (o : Option Payload) (t : Text)
    → digest_given digests o ≡ ok t
    → (p : Payload) × (o ≡ some p) × (digests.of_payload p ≡ ok t)
digest_given-ok digests none t h = cc
digest_given-ok digests (some p) t h = (p, refl, h)

thrown-ok : (o : Option Thrown) (u : Unit {0}) → thrown o ≡ ok u → o ≡ none
thrown-ok none u h = refl
thrown-ok (some e) u h = cc

request_sound :
    (encode_utf_8 : Text → List ℕ) (digests : Digests) (f : Facts) (r : Request)
    → check_request encode_utf_8 digests f ≡ ok r
    → IsBound encode_utf_8 digests f r
unfolding check_request
request_sound encode_utf_8 digests f r h =
    let (all_ready, r₁) =
      require_then
        (f.review_ready
          && str_eq f.preflight_status "ready-to-publish"
          && f.network_preflight.passed)
        send_disabled _ h in
    let (both, passed) = split_&& _ f.network_preflight.passed all_ready in
    let (ready, prepared) =
      split_&& f.review_ready (str_eq f.preflight_status "ready-to-publish") both in
    let (once, r₂) = require_then (not f.network_preflight.duplicate) proof_duplicate _ r₁ in
    let (current, r₃) =
      require_then (bound f.network_preflight.state_binding f.current_state_binding) send_disabled _
        r₂ in
    let (request, h₄, r₄) = >>=-eq-ok f.request _ r₃ in
    let (expected, h₅, r₅) = >>=-eq-ok f.expected_payload _ r₄ in
    let (own, h₆, r₆) = >>=-eq-ok (digests.of_payload expected) _ r₅ in
    let (given, h₇, r₇) = >>=-eq-ok (digest_given digests f.payload) _ r₆ in
    let (same, r₈) = require_then (text_eq own given) tx_invalid _ r₇ in
    let (encoded, h₉, r₉) =
      >>=-eq-ok (uncoded (encode_publish_report encode_utf_8 expected)) _ r₈ in
    let (same_data, r₁₀) = require_then (text_eq request.call_data encoded) tx_invalid _ r₉ in
    let (digest, h₁₁, r₁₁) = >>=-eq-ok (digests.of_request request) _ r₁₀ in
    let (reviewed, last) = require_then (text_eq f.reviewed_digest digest) tx_invalid _ r₁₁ in
    let (given_payload, is_given, digested) = digest_given-ok digests f.payload given h₇ in
    rw (← ok-injective last) (record {
      ready = ready;
      prepared = prepared;
      passed = passed;
      first_time = ground arith;
      current = current;
      requested = h₄;
      expected = expected;
      given = given_payload;
      own_payload = h₅;
      given_payload = is_given;
      same_payload = h₆ ∙ ap ok (text_eq_sound own given same) ∙ sym digested;
      encodes =
          uncoded-ok _ encoded h₉ ∙ ap ok (sym (text_eq_sound request.call_data encoded same_data));
      reviewed = h₁₁ ∙ ap ok (sym (text_eq_sound f.reviewed_digest digest reviewed));
    })

module _ (to_number : Text → Option ℕ) (f : Facts) where
  wallet_sound :
      (network : Network) (r : Request) (u : Unit {0})
      → resolve_proof_network f.network_key ≡ ok network
      → check_wallet to_number f network r ≡ ok u
      → IsConnected to_number f r
  unfolding check_wallet
  wallet_sound network r u listed h =
      let (accounts, h₁, r₁) = >>=-eq-ok (else_fail_uncoded f.accounts provider_unavailable) _ h in
      let (value, h₂, r₂) =
        >>=-eq-ok (else_fail_uncoded f.provider_chain provider_unavailable) _ r₁ in
      let (chain, h₃, r₃) =
        >>=-eq-ok (else_fail (normalize_chain_id to_number value) provider_unavailable) _ r₂ in
      let (account, h₄, r₄) = >>=-eq-ok (first_account accounts) _ r₃ in
      let (active, h₅, r₅) =
        >>=-eq-ok (else_fail (checksum_address account) account_unavailable) _ r₄ in
      let (requested, h₆, r₆) =
        >>=-eq-ok (else_fail (checksum_address r.from) account_unavailable) _ r₅ in
      let (same, r₇) =
        require_then (text_eq (to_lower active) (to_lower requested)) send_disabled _ r₆ in
      let on = require_sound (chain == network.chain_id) wrong_network r₇ in
      let (others, first) = first_account-ok accounts account h₄ in
      record {
        network = network;
        listed = listed;
        account = account;
        others = others;
        accounts = else_fail_uncoded-ok f.accounts provider_unavailable accounts h₁ ∙ ap ok first;
        active = (
          active,
          requested,
          else_fail-ok _ account_unavailable active h₅,
          else_fail-ok _ account_unavailable requested h₆,
          text_eq_sound (to_lower active) (to_lower requested) same,
        );
        value = value;
        answered = else_fail_uncoded-ok f.provider_chain provider_unavailable value h₂;
        on_chain =
            else_fail-ok _ provider_unavailable chain h₃
            ∙ ap ok ((==_iff chain network.chain_id).0 on);
      }

-- The registry was read again at the moment of sending, and had not changed.
pub record IsFresh (f : Facts) : Type 0 where
  pub fresh : Preflight
  pub read_again : f.fresh_preflight ≡ ok fresh
  pub first_time : fresh.duplicate ≡ false
  pub passed : fresh.passed ≡ true
  pub unchanged : same_binding fresh.state_binding f.network_preflight.state_binding ≡ true

fresh_sound : (f : Facts) (u : Unit {0}) → check_fresh f ≡ ok u → IsFresh f
unfolding check_fresh
fresh_sound f u h =
    let (fresh, h₁, r₁) = >>=-eq-ok f.fresh_preflight _ h in
    let (once, r₂) = require_then (not fresh.duplicate) proof_duplicate _ r₁ in
    let (passed, r₃) = require_then fresh.passed (stale_failure fresh) _ r₂ in
    record {
      fresh = fresh;
      read_again = h₁;
      first_time = ground arith;
      passed = passed;
      unchanged =
          require_sound (same_binding fresh.state_binding f.network_preflight.state_binding)
            send_disabled r₃;
    }

pub record IsApproved (encode_utf_8 : Text → List ℕ) (digests : Digests)
    (to_number : Text → Option ℕ) (f : Facts) (r : Request) : Type 0 where
  pub clicked : f.trusted_click ≡ true
  pub capable : (n : Network) × (assert_proof_network_capability f.network_key publish ≡ ok n)
  pub verified : f.envelope ≡ none
  pub is_bound : IsBound encode_utf_8 digests f r
  pub connected : IsConnected to_number f r
  pub fresh : IsFresh f
  pub trusted : f.trusted_send ≡ none

-- A request passes the review only after a trusted click, on a network that may be published to, when
-- the envelope is verified and the review is ready; its digest is the reviewed one and its data is the
-- encoding of the current payload, which has the digest of the preflight's payload; its sender is the
-- wallet's active account, and the wallet is on the envelope's network; the registry, read again, has
-- no such proof and its state is the one before the review; and the decision on trusted sends lets it
-- through.
pub check_review_sound :
    (encode_utf_8 : Text → List ℕ) (digests : Digests) (to_number : Text → Option ℕ) (f : Facts)
    (r : Request)
    → check_review encode_utf_8 digests to_number f ≡ ok r
    → IsApproved encode_utf_8 digests to_number f r
unfolding check_review
check_review_sound encode_utf_8 digests to_number f r h =
    let (clicked, r₁) = require_then f.trusted_click user_gesture_required _ h in
    let (network, h₂, r₂) = >>=-eq-ok (uncoded (resolve_proof_network f.network_key)) _ r₁ in
    let (n, h₃, r₃) =
      >>=-eq-ok (else_fail (assert_proof_network_capability f.network_key publish) send_disabled) _
        r₂ in
    let (w, h₄, r₄) = >>=-eq-ok (thrown f.envelope) _ r₃ in
    let (request, h₅, r₅) = >>=-eq-ok (check_request encode_utf_8 digests f) _ r₄ in
    let (u, h₆, r₆) = >>=-eq-ok (check_wallet to_number f network request) _ r₅ in
    let (v, h₇, r₇) = >>=-eq-ok (check_fresh f) _ r₆ in
    let (x, h₈, last) = >>=-eq-ok (else_fail (thrown f.trusted_send) send_disabled) _ r₇ in
    rw (← ok-injective last) (record {
      clicked = clicked;
      capable = (n, else_fail-ok _ send_disabled n h₃);
      verified = thrown-ok f.envelope w h₄;
      is_bound = request_sound encode_utf_8 digests f request h₅;
      connected = wallet_sound to_number f network request u (uncoded-ok _ network h₂) h₆;
      fresh = fresh_sound f v h₇;
      trusted = thrown-ok f.trusted_send x (else_fail-ok _ send_disabled x h₈);
    })
