-- ===== src/Proof/Readiness/Use.antt =====
-- packages/proof/v4/mainnet-readiness.js: the configurations that the program ships, the check of a
-- transaction request, the two rollbacks, and the key of a publication.
use Prim.Native.String.{String}
use text.Mathlib.Text.{◌==◌ as str_eq}
use veilforge.Base.{
  if◌then◌else◌, ◌∷◌, zero, suc, ltb, ◌/◌, ◌%◌, ◌*◌, ℕ, ◌+◌, ◌==◌, Bool, true, false, ◌&&◌, Option,
  none, some, [], ◌++◌, Result, ok, err, ◌>>=◌, ◌>>◌, guard, leb, all, take, drop, length,
}
use veilforge.Base.Text.{Text, codes, text_eq, to_lower, is_hex}
use veilforge.Proof.Network.{
  checksum_address, ProofError, mainnet_chain_id, mainnet_registry, mainnet_evidence,
}
use veilforge.Proof.Trust.{ChainValue, integer, other, normalize_chain_id}
use veilforge.Proof.Readiness.{
  identity_invalid, ReadinessError, blocked, Url, Config, chain_mismatch, registry_mismatch,
  transaction_invalid, value_nonzero,
}
use veilforge.Proof.Readiness.Validate.{validate_mainnet_readiness_config}

-- `ARC_MAINNET_UNRESOLVED`
abbrev pub arc_mainnet_unresolved : Config
arc_mainnet_unresolved = record {
  network_key = "arc-mainnet";
  environment = "mainnet";
  config_version = "1.0.0";
  chain_id = integer mainnet_chain_id;
  enabled = some false;
  proof_read_enabled = some false;
  publish_enabled = some false;
  deployment_status = "unresolved";
  registry_address = none;
  registry_contract_version = "2.0.0";
  chain_name = some (codes "Arc Mainnet");
  native_fee_asset = none;
  rpc_public_reference = [];
  explorer_base = [];
  registry_deployment_block = other;
  registry_deployment_tx = [];
  registry_runtime_bytecode_digest = [];
  verification_evidence = none;
  wallet_switch_metadata = none;
  publication_status = "";
  first_proof_transaction = [];
  first_proof_block = other;
  first_proof_publisher = [];
  first_proof_project_id = [];
  first_proof_report_hash = [];
  publication_evidence = none;
}

abbrev rpc_url : Text
rpc_url = codes "https://rpc.mainnet.arc.io"

abbrev explorer_url : Text
explorer_url = codes "https://explorer.arc.io"

-- `ARC_MAINNET_READ_ONLY`
abbrev pub arc_mainnet_read_only : Config
arc_mainnet_read_only = record arc_mainnet_unresolved {
  enabled = some true;
  proof_read_enabled = some true;
  deployment_status = "verified";
  registry_address = some mainnet_registry;
  native_fee_asset = some (codes "USDC");
  rpc_public_reference = rpc_url;
  explorer_base = explorer_url;
  registry_deployment_block = integer mainnet_evidence.deployment_block;
  registry_deployment_tx = mainnet_evidence.deployment_transaction;
  registry_runtime_bytecode_digest = mainnet_evidence.runtime_bytecode_digest;
  verification_evidence = some (record {
    network_source = rpc_url;
    deployment_source = explorer_url ++ codes "/tx/" ++ mainnet_evidence.deployment_transaction;
    runtime_bytecode_digest = mainnet_evidence.runtime_bytecode_digest;
  });
  wallet_switch_metadata =
      some
        (record { chain_id = integer mainnet_chain_id; chain_name = some (codes "Arc Mainnet") });
}

-- `ARC_MAINNET_PRODUCTION`
abbrev pub arc_mainnet_production : Config
arc_mainnet_production = record arc_mainnet_read_only {
  publish_enabled = some true;
  publication_status = "verified";
  first_proof_transaction = mainnet_evidence.first_proof_transaction;
  first_proof_block = integer mainnet_evidence.first_proof_block;
  first_proof_publisher = mainnet_evidence.first_proof_publisher;
  first_proof_project_id = mainnet_evidence.first_proof_project_id;
  first_proof_report_hash = mainnet_evidence.first_proof_report_hash;
  publication_evidence = some (record {
    transaction_source = explorer_url ++ codes "/tx/" ++ mainnet_evidence.first_proof_transaction;
    project_id = mainnet_evidence.first_proof_project_id;
    report_hash = mainnet_evidence.first_proof_report_hash;
  });
}

pub record TransactionRequest : Type 0 where
  pub to : Text
  pub chain_id : ChainValue
  pub value : String
  pub call_data : Text

-- An error of this file, or one that a function of network.js throws through it.
pub data UseError : Type 0 where
  readiness : ReadinessError → UseError
  proof : ProofError → UseError

abbrev pub from_readiness {ℓ} : {A : Type ℓ} → Result ReadinessError A → Result UseError A
from_readiness (ok a) = ok a
from_readiness (err e) = err (readiness e)

abbrev pub from_proof {ℓ} : {A : Type ℓ} → Result ProofError A → Result UseError A
from_proof (ok a) = ok a
from_proof (err e) = err (proof e)

-- `/^0x6133eb3a[0-9a-fA-F]+$/`, and the length of a call's head.
unfoldable pub is_publish_call : Text → Bool
is_publish_call t =
    text_eq (take 10 t) (codes "0x6133eb3a")
    && leb 1 (length (drop 10 t))
    && all is_hex (drop 10 t)
    && leb (10 + 64 * 6) (length t)

abbrev pub is_registry : Text → Option Text → Bool
is_registry to none = false
is_registry to (some registry) = text_eq (to_lower to) (to_lower registry)

-- `mainnetRollbackConfig`
pub record Rollback : Type 0 where
  pub network_key : String
  pub config_version : String
  pub enabled : Bool
  pub publish_enabled : Bool
  pub proof_read_enabled : Bool
  pub feature_flag_enabled : Bool
  pub transaction_sending_enabled : Bool
  pub registry_address : Option Text

pub mainnet_rollback_config : Config → Rollback
mainnet_rollback_config c = record {
  network_key = c.network_key;
  config_version = c.config_version;
  enabled = false;
  publish_enabled = false;
  proof_read_enabled = false;
  feature_flag_enabled = false;
  transaction_sending_enabled = false;
  registry_address = none;
}

module _ (to_number : Text → Option ℕ) (parse_url : Text → Option Url) where
  unfoldable pub assert_mainnet_transaction_request :
      Option TransactionRequest → Config → Result UseError (Unit {0})
  assert_mainnet_transaction_request request c = do
    trusted ← from_readiness (validate_mainnet_readiness_config to_number parse_url c true true)
    r ← elim request [
      | none ↦ err (readiness (blocked transaction_invalid "transactionRequest"))
      | some r ↦ ok r
    ]
    guard (is_registry r.to trusted.registry_address) (readiness (blocked registry_mismatch "to"))
    id ← from_proof (normalize_chain_id to_number r.chain_id)
    guard (id == trusted.chain_id) (readiness (blocked chain_mismatch "chainId"))
    guard (str_eq r.value "0x0") (readiness (blocked value_nonzero "value"))
    guard (is_publish_call r.call_data) (readiness (blocked transaction_invalid "data"))

  -- `mainnetPublishingRollbackConfig`; its `transactionSendingEnabled: false` stands beside.
  unfoldable pub mainnet_publishing_rollback_config : Config → Result ReadinessError (Config × Bool)
  mainnet_publishing_rollback_config c = do
    trusted ← validate_mainnet_readiness_config to_number parse_url c true false
    ok (
      record c {
        network_key = trusted.network_key;
        chain_id = integer trusted.chain_id;
        registry_address = trusted.registry_address;
        enabled = some true;
        proof_read_enabled = some true;
        publish_enabled = some false;
      },
      false,
    )

-- `String(n)`, where each step of fuel gives a digit.
decimal_fuel : ℕ → ℕ → Text
decimal_fuel zero n = (b'0' + n % 10) ∷ []
decimal_fuel (suc fuel) n =
    let rest = decimal_fuel fuel (n / 10) in
    if ltb n 10 then (b'0' + n) ∷ [] else rest ++ ((b'0' + n % 10) ∷ [])

-- `publicationIdentityKey`; a missing member is an empty text.
pub record Identity : Type 0 where
  pub network_key : Text
  pub chain_id : ChainValue
  pub registry_address : Text
  pub publisher : Text
  pub report_hash : Text

unfoldable pub decimal : ℕ → Text
unfolding decimal_fuel
decimal n = decimal_fuel n n

abbrev pub colon : Text
colon = codes ":"

unfoldable pub publication_identity_key : (Text → Option ℕ) → Identity → Result UseError Text
publication_identity_key to_number i = do
  guard (leb 1 (length i.network_key) && leb 1 (length i.report_hash))
      (readiness (blocked identity_invalid "identity"))
  chain ← from_proof (normalize_chain_id to_number i.chain_id)
  registry ← from_proof (checksum_address i.registry_address)
  publisher ← from_proof (checksum_address i.publisher)
  ok (
      i.network_key
      ++ colon
      ++ decimal chain
      ++ colon
      ++ to_lower registry
      ++ colon
      ++ to_lower publisher
      ++ colon
      ++ to_lower i.report_hash)
