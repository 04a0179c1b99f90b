-- ===== src/Proof/Readiness/Validate.antt =====
-- packages/proof/v4/mainnet-readiness.js: validateMainnetReadinessConfig, in the order of its
-- checks, and the functions that rest on it.
use mathlib.Core.Option
use veilforge.Base.{
  ℕ, ◌==◌, Bool, true, false, not, ◌&&◌, ◌||◌, Option, none, some, ◌++◌, Result, ok, err, ◌>>=◌,
  ◌>>◌,
}
use veilforge.Proof.Network.{mainnet_registry, mainnet_evidence, checksum_address}
use veilforge.Proof.Trust.{normalize_chain_id}
use veilforge.Proof.Readiness.Fields.{
  known_status, trim, demand, rethrow, require_bytes_32, require_sha_256_digest, require_boolean,
  normalize_mainnet_registry_address, Flags, check_flags, is_named, require_https,
  normalize_mainnet_chain_id, check_evidence, check_wallet,
}
use veilforge.Proof.Readiness.{
  config_invalid, config_unresolved, config_unverified, registry_mismatch, publication_mismatch,
  read_disabled, publish_disabled, ReadinessError, blocked, Url, PublicationEvidence, Config,
  Deployment, Publication, Trusted,
}
use text.Mathlib.Text.{◌==◌ as str_eq}
use veilforge.Base.Text.{Text, codes, text_eq, to_lower}

abbrev explorer_transaction : Text
explorer_transaction =
    codes "https://explorer.arc.io/tx/" ++ mainnet_evidence.first_proof_transaction

unfoldable pub read_flags : Config → Result ReadinessError Flags
read_flags c = do
  enabled ← require_boolean c.enabled "enabled"
  read ← require_boolean c.proof_read_enabled "proofReadEnabled"
  publish ← require_boolean c.publish_enabled "publishEnabled"
  ok (record { enabled = enabled; read = read; publish = publish })

abbrev pub resolved : Option Text → Bool
resolved none = false
resolved (some _) = true

abbrev pub is_verified : Config → Bool
is_verified c = str_eq c.deployment_status "verified"

module _ (to_number : Text → Option ℕ) (parse_url : Text → Option Url) where
  -- The comparison with the constants of the first publication.
  unfoldable pub check_publication_evidence :
      Option PublicationEvidence → Result ReadinessError (Unit {0})
  check_publication_evidence none = err (blocked publication_mismatch "publicationEvidence")
  check_publication_evidence (some e) = do
    source ←
        require_https to_number parse_url e.transaction_source
          "publicationEvidence.transactionSource"
    demand (text_eq source explorer_transaction) publication_mismatch "publicationEvidence"
    project ← require_bytes_32 e.project_id "publicationEvidence.projectId"
    demand (text_eq project mainnet_evidence.first_proof_project_id) publication_mismatch
        "publicationEvidence"
    report ← require_bytes_32 e.report_hash "publicationEvidence.reportHash"
    demand (text_eq report mainnet_evidence.first_proof_report_hash) publication_mismatch
        "publicationEvidence"

  -- The block under `if (publishEnabled)`.
  unfoldable pub check_publication : Config → Result ReadinessError Publication
  check_publication c = do
    demand (str_eq c.publication_status "verified") config_unverified "publicationStatus"
    tx ← require_bytes_32 c.first_proof_transaction "firstProofTransaction"
    block ←
        rethrow (normalize_chain_id to_number c.first_proof_block) config_unresolved
          "firstProofBlock"
    publisher ←
        rethrow (checksum_address c.first_proof_publisher) config_unresolved "firstProofPublisher"
    project ← require_bytes_32 c.first_proof_project_id "firstProofProjectId"
    report ← require_bytes_32 c.first_proof_report_hash "firstProofReportHash"
    demand
        (text_eq tx mainnet_evidence.first_proof_transaction
          && block == mainnet_evidence.first_proof_block
          && text_eq (to_lower publisher) (to_lower mainnet_evidence.first_proof_publisher)
          && text_eq project mainnet_evidence.first_proof_project_id
          && text_eq report mainnet_evidence.first_proof_report_hash)
        publication_mismatch "publicationEvidence"
    _ ← check_publication_evidence c.publication_evidence
    ok (record {
      publication_status = c.publication_status;
      first_proof_transaction = tx;
      first_proof_block = block;
      first_proof_publisher = publisher;
      first_proof_project_id = project;
      first_proof_report_hash = report;
    })

  -- The block under `if (deploymentStatus === 'verified')`, up to the publication.
  unfoldable pub check_deployment : Config → ℕ → Option Text → Result ReadinessError Deployment
  check_deployment c chain none = err (blocked config_unresolved "registryAddress")
  check_deployment c chain (some registry) = do
    let name = Option.map trim c.chain_name
    demand (is_named name) config_unresolved "chainName"
    demand (is_named (Option.map trim c.native_fee_asset)) config_unresolved "nativeFeeAsset"
    rpc ← require_https to_number parse_url c.rpc_public_reference "rpcPublicReference"
    explorer ← require_https to_number parse_url c.explorer_base "explorerBase"
    block ←
        rethrow (normalize_chain_id to_number c.registry_deployment_block) config_unresolved
          "registryDeploymentBlock"
    tx ← require_bytes_32 c.registry_deployment_tx "registryDeploymentTx"
    digest ←
        require_sha_256_digest c.registry_runtime_bytecode_digest "registryRuntimeBytecodeDigest"
    demand (text_eq (to_lower registry) (to_lower mainnet_registry)) registry_mismatch
        "registryAddress"
    demand (block == mainnet_evidence.deployment_block) registry_mismatch "registryDeploymentBlock"
    demand (text_eq tx mainnet_evidence.deployment_transaction) registry_mismatch
        "registryDeploymentTx"
    demand (text_eq digest mainnet_evidence.runtime_bytecode_digest) registry_mismatch
        "registryRuntimeBytecodeDigest"
    _ ← check_evidence to_number parse_url c.verification_evidence digest
    _ ← check_wallet to_number parse_url c.wallet_switch_metadata chain name
    ok (record {
      rpc_public_reference = rpc;
      explorer_base = explorer;
      registry_deployment_block = block;
      registry_deployment_tx = tx;
      registry_runtime_bytecode_digest = digest;
    })

  -- Both blocks. Without a verified deployment there is nothing to add: an enabled configuration has
  -- been refused by then.
  unfoldable pub check_blocks :
      Config
      → ℕ
      → Option Text
      → Bool
      → Bool
      → Result ReadinessError (Option Deployment × Option Publication)
  check_blocks c chain registry false publish = ok (none, none)
  check_blocks c chain registry true false = do
    d ← check_deployment c chain registry
    ok (some d, none)
  check_blocks c chain registry true true = do
    d ← check_deployment c chain registry
    p ← check_publication c
    ok (some d, some p)

  -- The head of the function: identity, chain, flags, and what the caller requires.
  unfoldable pub check_head : Config → Bool → Bool → Result ReadinessError (ℕ × Flags)
  check_head c require_read require_publish = do
    demand (str_eq c.network_key "arc-mainnet" && str_eq c.environment "mainnet") config_invalid
        "networkKey"
    demand (str_eq c.config_version "1.0.0") config_invalid "configVersion"
    chain ← normalize_mainnet_chain_id to_number parse_url c.chain_id
    f ← read_flags c
    demand (known_status c.deployment_status) config_invalid "deploymentStatus"
    demand (not require_read || f.read) read_disabled "proofReadEnabled"
    demand (not require_publish || f.publish) publish_disabled "publishEnabled"
    ok (chain, f)

  unfoldable pub validate_mainnet_readiness_config :
      Config → Bool → Bool → Result ReadinessError Trusted
  validate_mainnet_readiness_config c require_read require_publish = do
    (chain, f) ← check_head c require_read require_publish
    registry ← normalize_mainnet_registry_address c.registry_address
    _ ← check_flags f (resolved registry) (is_verified c)
    demand (str_eq c.registry_contract_version "2.0.0") registry_mismatch "registryContractVersion"
    (d, p) ← check_blocks c chain registry (is_verified c) f.publish
    ok (record {
      network_key = c.network_key;
      environment = c.environment;
      config_version = c.config_version;
      chain_id = chain;
      chain_name = Option.map trim c.chain_name;
      native_fee_asset = Option.map trim c.native_fee_asset;
      registry_address = registry;
      registry_contract_version = c.registry_contract_version;
      deployment_status = c.deployment_status;
      enabled = f.enabled;
      proof_read_enabled = f.read;
      publish_enabled = f.publish;
      deployment = d;
      publication = p;
    })
