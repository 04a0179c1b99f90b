-- ===== src/Proof/Tests.antt =====
-- The shipped configurations on concrete readings of numbers and addresses, and the theorems at
-- such inputs.

use veilforge.Proof.Readiness.Use.{Identity, publication_identity_key, decimal}
use veilforge.Proof.Readiness.Identity.{publication_identity_key_unique}
use veilforge.Base.{
  ◌*◌, ◌≡◌, ℕ, refl, Bool, true, false, Option, none, some, Result, ok, err, arith, drop, ◌++◌,
  replicate,
}
use veilforge.Base.Text.{Text, codes, to_lower}
use veilforge.Proof.Network.{
  mainnet_evidence, mainnet_chain_id, arc_testnet, checksum_address, mainnet_registry,
  testnet_registry,
}
use veilforge.Proof.Trust.{
  normalize_chain_id, integer, string, publish, read, assert_trusted_network,
}
use veilforge.Proof.Trust.Sound.{IsTrusted, assert_trusted_network_sound}
use veilforge.Proof.Network.Address.{checksum_address_idem, checksum_address_unique}
use veilforge.Proof.Readiness.{ReadinessError, Url, Trusted}
use veilforge.Proof.Readiness.Validate.{validate_mainnet_readiness_config}
use veilforge.Proof.Readiness.Use.{
  arc_mainnet_production, arc_mainnet_read_only, TransactionRequest,
  assert_mainnet_transaction_request,
}
use veilforge.Proof.Readiness.Ready.{IsReady, validate_sound}
use veilforge.Proof.Readiness.Request.{IsPublishRequest, transaction_request_sound}

-- A reading of numbers that knows none, and of addresses that takes each for a secure one.
abbrev no_number : Text → Option ℕ
no_number t = none

abbrev secure : Text → Option Url
secure t = some (record { protocol = "https:"; username = codes ""; password = codes ""; href = t })

lowered : checksum_address (to_lower mainnet_registry) ≡ ok mainnet_registry
unfolding checksum_address veilforge.Proof.Network.checksum_of veilforge.Hash.Keccak.keccak_hex
lowered = refl

spelled : checksum_address mainnet_registry ≡ ok mainnet_registry
unfolding checksum_address veilforge.Proof.Network.checksum_of veilforge.Hash.Keccak.keccak_hex
spelled = refl

checksum_address_idem_example :
    (to_lower (drop 2 mainnet_registry) ≡ to_lower (drop 2 (to_lower mainnet_registry)))
    × (checksum_address mainnet_registry ≡ ok mainnet_registry)
checksum_address_idem_example =
    checksum_address_idem (to_lower mainnet_registry) mainnet_registry lowered

checksum_address_unique_example : mainnet_registry ≡ mainnet_registry
checksum_address_unique_example =
    checksum_address_unique (to_lower mainnet_registry) mainnet_registry mainnet_registry
      mainnet_registry lowered spelled refl

trusted_testnet :
    assert_trusted_network no_number "arc-testnet"
      (string arc_testnet.chain_id_hex)
      (some (to_lower testnet_registry))
      publish
    ≡ ok arc_testnet
unfolding assert_trusted_network veilforge.Proof.Trust.assert_proof_network_capability
    veilforge.Proof.Trust.resolve_proof_network veilforge.Proof.Trust.checked_registry
    checksum_address veilforge.Proof.Network.checksum_of veilforge.Hash.Keccak.keccak_hex
    veilforge.Proof.Trust.check_capability veilforge.Proof.Trust.normalize_chain_id
    veilforge.Proof.Trust.hex_number
trusted_testnet = refl

assert_trusted_network_sound_example :
    IsTrusted no_number "arc-testnet"
      (string arc_testnet.chain_id_hex)
      (some (to_lower testnet_registry))
      publish
      arc_testnet
assert_trusted_network_sound_example =
    assert_trusted_network_sound no_number "arc-testnet" (string arc_testnet.chain_id_hex)
      (some (to_lower testnet_registry)) publish arc_testnet trusted_testnet

abbrev ready : Result ReadinessError Trusted
ready = validate_mainnet_readiness_config no_number secure arc_mainnet_production true true

abbrev trusted : Trusted
trusted = record {
  network_key = "arc-mainnet";
  environment = "mainnet";
  config_version = "1.0.0";
  chain_id = mainnet_chain_id;
  chain_name = some (codes "Arc Mainnet");
  native_fee_asset = some (codes "USDC");
  registry_address = some mainnet_registry;
  registry_contract_version = "2.0.0";
  deployment_status = "verified";
  enabled = true;
  proof_read_enabled = true;
  publish_enabled = true;
  deployment = some (record {
    rpc_public_reference = codes "https://rpc.mainnet.arc.io";
    explorer_base = codes "https://explorer.arc.io";
    registry_deployment_block = mainnet_evidence.deployment_block;
    registry_deployment_tx = mainnet_evidence.deployment_transaction;
    registry_runtime_bytecode_digest = mainnet_evidence.runtime_bytecode_digest;
  });
  publication = some (record {
    publication_status = "verified";
    first_proof_transaction = mainnet_evidence.first_proof_transaction;
    first_proof_block = mainnet_evidence.first_proof_block;
    first_proof_publisher = mainnet_evidence.first_proof_publisher;
    first_proof_project_id = mainnet_evidence.first_proof_project_id;
    first_proof_report_hash = mainnet_evidence.first_proof_report_hash;
  });
}

production : ready ≡ ok trusted
unfolding validate_mainnet_readiness_config veilforge.Proof.Readiness.Validate.check_head
    veilforge.Proof.Readiness.Fields.normalize_mainnet_chain_id
    veilforge.Proof.Trust.normalize_chain_id veilforge.Proof.Readiness.Validate.read_flags
    veilforge.Proof.Readiness.Fields.require_boolean
    veilforge.Proof.Readiness.Fields.normalize_mainnet_registry_address checksum_address
    veilforge.Proof.Network.checksum_of veilforge.Hash.Keccak.keccak_hex
    veilforge.Proof.Readiness.Fields.check_flags veilforge.Proof.Readiness.Validate.check_blocks
    veilforge.Proof.Readiness.Validate.check_deployment veilforge.Proof.Readiness.Fields.trim
    veilforge.Proof.Readiness.Fields.require_https veilforge.Proof.Readiness.Fields.require_bytes_32
    veilforge.Proof.Readiness.Fields.require_sha_256_digest
    veilforge.Proof.Readiness.Fields.sha_literal veilforge.Proof.Readiness.Fields.check_evidence
    veilforge.Proof.Readiness.Fields.check_wallet
    veilforge.Proof.Readiness.Validate.check_publication
    veilforge.Proof.Readiness.Validate.check_publication_evidence veilforge.Base.Text.hex_literal
production = refl

validate_sound_example : IsReady true true trusted
validate_sound_example =
    validate_sound no_number secure arc_mainnet_production true true trusted production

abbrev request : TransactionRequest
request = record {
  to = to_lower mainnet_registry;
  chain_id = string (codes "0x13b2");
  value = "0x0";
  call_data = codes "0x6133eb3a" ++ replicate (64 * 6) b'0';
}

let_through :
    assert_mainnet_transaction_request no_number secure (some request) arc_mainnet_production
    ≡ ok tt
unfolding assert_mainnet_transaction_request veilforge.Proof.Trust.normalize_chain_id
    veilforge.Proof.Trust.hex_number veilforge.Proof.Readiness.Use.is_publish_call
let_through = rw production refl

transaction_request_sound_example :
    (r : TransactionRequest) × (some request ≡ some r) × IsPublishRequest no_number r
transaction_request_sound_example =
    transaction_request_sound no_number secure (some request) arc_mainnet_production tt let_through

abbrev identity : Identity
identity = record {
  network_key = codes "arc-mainnet";
  chain_id = integer 5042;
  registry_address = mainnet_registry;
  publisher = mainnet_evidence.first_proof_publisher;
  report_hash = mainnet_evidence.first_proof_report_hash;
}

-- The same publication as a wallet may describe it.
abbrev described : Identity
described = record identity {
  chain_id = string (codes "0x13B2");
  registry_address = to_lower mainnet_registry;
  publisher = to_lower mainnet_evidence.first_proof_publisher;
}

abbrev identity_key : Text
identity_key =
    codes "arc-mainnet:5042:"
    ++ to_lower mainnet_registry
    ++ codes ":"
    ++ to_lower mainnet_evidence.first_proof_publisher
    ++ codes ":"
    ++ mainnet_evidence.first_proof_report_hash

keyed : publication_identity_key no_number identity ≡ ok identity_key
unfolding publication_identity_key decimal veilforge.Proof.Trust.normalize_chain_id checksum_address
    veilforge.Proof.Network.checksum_of veilforge.Hash.Keccak.keccak_hex
keyed = refl

keyed_again : publication_identity_key no_number described ≡ ok identity_key
unfolding publication_identity_key decimal veilforge.Proof.Trust.normalize_chain_id
    veilforge.Proof.Trust.hex_number checksum_address veilforge.Proof.Network.checksum_of
    veilforge.Hash.Keccak.keccak_hex
keyed_again = refl

same_chain :
    normalize_chain_id no_number identity.chain_id ≡ normalize_chain_id no_number described.chain_id
unfolding normalize_chain_id veilforge.Proof.Trust.hex_number
same_chain = refl

publication_identity_key_unique_example : identity_key ≡ identity_key
publication_identity_key_unique_example =
    publication_identity_key_unique no_number identity described identity_key identity_key keyed
      keyed_again refl same_chain refl refl refl
