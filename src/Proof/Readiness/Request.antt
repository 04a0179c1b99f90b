-- ===== src/Proof/Readiness/Request.antt =====
-- assertMainnetTransactionRequest: which transactions it lets through.

use text.Mathlib.Text.{◌==◌ as str_eq}
use veilforge.Base.{
  inl, inr, ℕ, ◌==◌, ◌≡◌, ◌≤◌, ◌+◌, ◌*◌, ◌∙◌, refl, ap, true, Option, none, some, Result, ok, err,
  >>=-eq-ok, guard_then, guard_sound, split_&&, leb, leb→le, ok-injective, ==_iff, take, drop,
  length, all,
}
use veilforge.Base.Text.{Text, codes, text_eq, text_eq_sound, to_lower, is_hex}
use veilforge.Proof.Network.{mainnet_chain_id, mainnet_registry, ProofError}
use veilforge.Proof.Trust.{normalize_chain_id}
use veilforge.Proof.Readiness.{
  registry_mismatch, chain_mismatch, value_nonzero, transaction_invalid, Url, ReadinessError,
  blocked, Config, Trusted,
}
use veilforge.Proof.Readiness.Validate.{resolved, validate_mainnet_readiness_config}
use veilforge.Proof.Readiness.Use.{
  readiness, TransactionRequest, from_readiness, from_proof, is_publish_call, is_registry,
  assert_mainnet_transaction_request,
}
use veilforge.Proof.Readiness.Ready.{publish_verified, flags_of, IsReady, validate_sound}

-- The one kind of transaction that may be sent: a call of publishReport on the main network's
-- registry, on its chain and without value.
pub record IsPublishRequest (to_number : Text → Option ℕ) (r : TransactionRequest) : Type 0 where
  pub to_registry : to_lower r.to ≡ to_lower mainnet_registry
  pub on_chain : normalize_chain_id to_number r.chain_id ≡ ok mainnet_chain_id
  pub without_value : str_eq r.value "0x0" ≡ true
  pub selects : take 10 r.call_data ≡ codes "0x6133eb3a"
  pub is_long : 10 + 64 * 6 ≤ length r.call_data
  pub in_hex : all is_hex (drop 10 r.call_data) ≡ true

call_sound :
    (t : Text)
    → is_publish_call t ≡ true
    → (take 10 t ≡ codes "0x6133eb3a") × (10 + 64 * 6 ≤ length t) × (all is_hex (drop 10 t) ≡ true)
unfolding is_publish_call
call_sound t h =
    let (h₁, long) = split_&& _ (leb (10 + 64 * 6) (length t)) h in
    let (h₂, digits) = split_&& _ (all is_hex (drop 10 t)) h₁ in
    let (head, _) =
      split_&& (text_eq (take 10 t) (codes "0x6133eb3a")) (leb 1 (length (drop 10 t))) h₂ in
    (text_eq_sound (take 10 t) (codes "0x6133eb3a") head, leb→le _ _ long, digits)

-- Under a configuration that publishes, the registry is the one on record.
publishing_registry :
    (t : Trusted)
    → IsReady true true t
    → (a : Text) × (t.registry_address ≡ some a) × (to_lower a ≡ to_lower mainnet_registry)
publishing_registry t ready =
    let verified =
      publish_verified (flags_of t) (resolved t.registry_address)
        (str_eq t.deployment_status "verified") ready.consistent ready.publishes in
    elim ready.deployed [
      | inl unverified ↦ absurd (cc)
      | inr (_, _, deployed) ↦ deployed.at_registry
    ]

registry_is_sound :
    (to a : Text) (registry : Option Text)
    → registry ≡ some a
    → is_registry to registry ≡ true
    → to_lower to ≡ to_lower a
registry_is_sound to a none e h = cc
registry_is_sound to a (some b) e h =
    let same : b ≡ a = cc in text_eq_sound (to_lower to) (to_lower b) h ∙ ap to_lower same

from_readiness_sound :
    {A : Type 0} (m : Result ReadinessError A) (a : A) → from_readiness m ≡ ok a → m ≡ ok a
from_readiness_sound (ok b) a h = ap ok (ok-injective h)
from_readiness_sound (err e) a h = cc

pub from_proof_sound :
    {A : Type 0} (m : Result ProofError A) (a : A) → from_proof m ≡ ok a → m ≡ ok a
from_proof_sound (ok b) a h = ap ok (ok-injective h)
from_proof_sound (err e) a h = cc

-- A transaction request that is let through calls publishReport on the main network's registry, on
-- its chain, without value and with at least its six arguments, all of them in hexadecimal digits.
pub transaction_request_sound :
    (to_number : Text → Option ℕ) (parse_url : Text → Option Url)
    (request : Option TransactionRequest) (c : Config) (u : Unit {0})
    → assert_mainnet_transaction_request to_number parse_url request c ≡ ok u
    → (r : TransactionRequest) × (request ≡ some r) × IsPublishRequest to_number r
unfolding assert_mainnet_transaction_request
transaction_request_sound to_number parse_url none c u h =
    let (t, _, rest) =
      >>=-eq-ok (from_readiness (validate_mainnet_readiness_config to_number parse_url c true true))
        _ h in
    cc
transaction_request_sound to_number parse_url (some r) c u h =
    let (t, h₁, r₁) =
      >>=-eq-ok (from_readiness (validate_mainnet_readiness_config to_number parse_url c true true))
        _ h in
    let ready = validate_sound to_number parse_url c true true t (from_readiness_sound _ t h₁) in
    let (a, at, same_registry) = publishing_registry t ready in
    let (to, r₂) =
      guard_then (is_registry r.to t.registry_address) (readiness (blocked registry_mismatch "to"))
        _ r₁ in
    let (id, chained, r₃) = >>=-eq-ok (from_proof (normalize_chain_id to_number r.chain_id)) _ r₂ in
    let (same_chain, r₄) =
      guard_then (id == t.chain_id) (readiness (blocked chain_mismatch "chainId")) _ r₃ in
    let (value, r₅) =
      guard_then (str_eq r.value "0x0") (readiness (blocked value_nonzero "value")) _ r₄ in
    let call =
      guard_sound (is_publish_call r.call_data) (readiness (blocked transaction_invalid "data"))
        r₅ in
    let (head, long, digits) = call_sound r.call_data call in
    (
      r,
      refl,
      record {
        to_registry = registry_is_sound r.to a t.registry_address at to ∙ same_registry;
        on_chain =
            from_proof_sound _ id chained
            ∙ ap ok ((==_iff id t.chain_id).0 same_chain ∙ ready.on_chain);
        without_value = value;
        selects = head;
        is_long = long;
        in_hex = digits;
      },
    )
