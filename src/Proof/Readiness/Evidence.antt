-- ===== src/Proof/Readiness/Evidence.antt =====
-- What a verified deployment and a verified publication have been compared with.
use mathlib.Core.Option
use text.Mathlib.Text.{◌==◌ as str_eq}
use veilforge.Base.{
  split_&&, ℕ, ◌==◌, ◌≡◌, refl, true, ◌&&◌, Option, none, some, Result, ok, >>=-eq-ok, ok-injective,
  ==_iff,
}
use veilforge.Proof.Trust.{normalize_chain_id}
use veilforge.Base.Text.{Text, text_eq, text_eq_sound, to_lower}
use veilforge.Proof.Network.{mainnet_registry, mainnet_evidence, checksum_address}
use veilforge.Proof.Readiness.{
  String, registry_mismatch, publication_mismatch, config_unresolved, config_unverified, Url,
  Config, Deployment, Publication, ReadinessError,
}
use veilforge.Proof.Readiness.Fields.{
  rethrow, is_named, trim, require_https, require_bytes_32, require_sha_256_digest, check_evidence,
  check_wallet,
}
use veilforge.Proof.Readiness.Validate.{
  check_deployment, check_publication, check_publication_evidence,
}
use veilforge.Proof.Readiness.Sound.{demand_then}

-- The deployment is the one on record.
pub record IsDeployed (registry : Option Text) (d : Deployment) : Type 0 where
  pub at_registry :
      (address : Text) × (registry ≡ some address) × (to_lower address ≡ to_lower mainnet_registry)
  pub same_block : d.registry_deployment_block ≡ mainnet_evidence.deployment_block
  pub same_tx : d.registry_deployment_tx ≡ mainnet_evidence.deployment_transaction
  pub same_code : d.registry_runtime_bytecode_digest ≡ mainnet_evidence.runtime_bytecode_digest

-- The publication is the first one on record.
pub record IsFirst (p : Publication) : Type 0 where
  pub same_tx : p.first_proof_transaction ≡ mainnet_evidence.first_proof_transaction
  pub same_block : p.first_proof_block ≡ mainnet_evidence.first_proof_block
  pub same_publisher :
      to_lower p.first_proof_publisher ≡ to_lower mainnet_evidence.first_proof_publisher
  pub same_project : p.first_proof_project_id ≡ mainnet_evidence.first_proof_project_id
  pub same_report : p.first_proof_report_hash ≡ mainnet_evidence.first_proof_report_hash

-- The last step of `deployment_sound`: what the four comparisons say of the result.
deployed :
    (a rpc explorer : Text) (block : ℕ) (tx digest : Text) (d : Deployment)
    → text_eq (to_lower a) (to_lower mainnet_registry) ≡ true
    → (block == mainnet_evidence.deployment_block) ≡ true
    → text_eq tx mainnet_evidence.deployment_transaction ≡ true
    → text_eq digest mainnet_evidence.runtime_bytecode_digest ≡ true
    → ◌≡◌ {A = Result ReadinessError Deployment}
        (ok (record {
          rpc_public_reference = rpc;
          explorer_base = explorer;
          registry_deployment_block = block;
          registry_deployment_tx = tx;
          registry_runtime_bytecode_digest = digest;
        }))
        (ok d)
    → IsDeployed (some a) d
deployed a rpc explorer block tx digest d same_address same_block same_tx same_code same =
    let is = ok-injective same in
    rw (← is) (record {
      at_registry = (a, refl, text_eq_sound _ _ same_address);
      same_block = (==_iff _ _).0 same_block;
      same_tx = text_eq_sound _ _ same_tx;
      same_code = text_eq_sound _ _ same_code;
    })

first :
    (status : String) (tx : Text) (block : ℕ) (publisher project report : Text) (p : Publication)
    → (text_eq tx mainnet_evidence.first_proof_transaction
        && block == mainnet_evidence.first_proof_block
        && text_eq (to_lower publisher) (to_lower mainnet_evidence.first_proof_publisher)
        && text_eq project mainnet_evidence.first_proof_project_id
        && text_eq report mainnet_evidence.first_proof_report_hash)
      ≡ true
    → ◌≡◌ {A = Result ReadinessError Publication}
        (ok (record {
          publication_status = status;
          first_proof_transaction = tx;
          first_proof_block = block;
          first_proof_publisher = publisher;
          first_proof_project_id = project;
          first_proof_report_hash = report;
        }))
        (ok p)
    → IsFirst p
first status tx block publisher project report p equal same =
    let (s₁, h₅) = split_&& _ (text_eq report mainnet_evidence.first_proof_report_hash) equal in
    let (s₂, h₄) = split_&& _ (text_eq project mainnet_evidence.first_proof_project_id) s₁ in
    let (s₃, h₃) =
      split_&& _ (text_eq (to_lower publisher) (to_lower mainnet_evidence.first_proof_publisher))
        s₂ in
    let (h₁, h₂) =
      split_&& (text_eq tx mainnet_evidence.first_proof_transaction)
        (block == mainnet_evidence.first_proof_block) s₃ in
    let is = ok-injective same in
    rw (← is) (record {
      same_tx = text_eq_sound _ _ h₁;
      same_block = (==_iff _ _).0 h₂;
      same_publisher = text_eq_sound _ _ h₃;
      same_project = text_eq_sound _ _ h₄;
      same_report = text_eq_sound _ _ h₅;
    })

module _ (to_number : Text → Option ℕ) (parse_url : Text → Option Url) (c : Config) where
  pub deployment_sound :
      (chain : ℕ) (registry : Option Text) (d : Deployment)
      → check_deployment to_number parse_url c chain registry ≡ ok d
      → IsDeployed registry d
  unfolding check_deployment
  deployment_sound chain none d h = cc
  deployment_sound chain (some a) d h =
      let (_, r₁) =
        demand_then (is_named (Option.map trim c.chain_name)) config_unresolved "chainName" _ h in
      let (_, r₂) =
        demand_then (is_named (Option.map trim c.native_fee_asset)) config_unresolved
          "nativeFeeAsset" _ r₁ in
      let (rpc, _, r₃) =
        >>=-eq-ok (require_https to_number parse_url c.rpc_public_reference "rpcPublicReference") _
          r₂ in
      let (explorer, _, r₄) =
        >>=-eq-ok (require_https to_number parse_url c.explorer_base "explorerBase") _ r₃ in
      let (block, _, r₅) =
        >>=-eq-ok
          (rethrow (normalize_chain_id to_number c.registry_deployment_block) config_unresolved
            "registryDeploymentBlock")
          _ r₄ in
      let (tx, _, r₆) =
        >>=-eq-ok (require_bytes_32 c.registry_deployment_tx "registryDeploymentTx") _ r₅ in
      let (digest, _, r₇) =
        >>=-eq-ok
          (require_sha_256_digest c.registry_runtime_bytecode_digest
            "registryRuntimeBytecodeDigest")
          _ r₆ in
      let (same_address, r₈) =
        demand_then (text_eq (to_lower a) (to_lower mainnet_registry)) registry_mismatch
          "registryAddress" _ r₇ in
      let (same_block, r₉) =
        demand_then (block == mainnet_evidence.deployment_block) registry_mismatch
          "registryDeploymentBlock" _ r₈ in
      let (same_tx, r₁₀) =
        demand_then (text_eq tx mainnet_evidence.deployment_transaction) registry_mismatch
          "registryDeploymentTx" _ r₉ in
      let (same_code, r₁₁) =
        demand_then (text_eq digest mainnet_evidence.runtime_bytecode_digest) registry_mismatch
          "registryRuntimeBytecodeDigest" _ r₁₀ in
      let (_, _, r₁₂) =
        >>=-eq-ok (check_evidence to_number parse_url c.verification_evidence digest) _ r₁₁ in
      let (_, _, same) =
        >>=-eq-ok
          (check_wallet to_number parse_url c.wallet_switch_metadata chain
            (Option.map trim c.chain_name))
          _ r₁₂ in
      deployed a rpc explorer block tx digest d same_address same_block same_tx same_code same

  pub publication_sound :
      (p : Publication) → check_publication to_number parse_url c ≡ ok p → IsFirst p
  unfolding check_publication
  publication_sound p h =
      let (_, r₁) =
        demand_then (str_eq c.publication_status "verified") config_unverified "publicationStatus" _
          h in
      let (tx, _, r₂) =
        >>=-eq-ok (require_bytes_32 c.first_proof_transaction "firstProofTransaction") _ r₁ in
      let (block, _, r₃) =
        >>=-eq-ok
          (rethrow (normalize_chain_id to_number c.first_proof_block) config_unresolved
            "firstProofBlock")
          _ r₂ in
      let (publisher, _, r₄) =
        >>=-eq-ok
          (rethrow (checksum_address c.first_proof_publisher) config_unresolved
            "firstProofPublisher")
          _ r₃ in
      let (project, _, r₅) =
        >>=-eq-ok (require_bytes_32 c.first_proof_project_id "firstProofProjectId") _ r₄ in
      let (report, _, r₆) =
        >>=-eq-ok (require_bytes_32 c.first_proof_report_hash "firstProofReportHash") _ r₅ in
      let (equal, r₇) =
        demand_then
          (text_eq tx mainnet_evidence.first_proof_transaction
            && block == mainnet_evidence.first_proof_block
            && text_eq (to_lower publisher) (to_lower mainnet_evidence.first_proof_publisher)
            && text_eq project mainnet_evidence.first_proof_project_id
            && text_eq report mainnet_evidence.first_proof_report_hash)
          publication_mismatch "publicationEvidence" _ r₆ in
      let (_, _, same) =
        >>=-eq-ok (check_publication_evidence to_number parse_url c.publication_evidence) _ r₇ in
      first c.publication_status tx block publisher project report p equal same
