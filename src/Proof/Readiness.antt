-- ===== src/Proof/Readiness.antt =====
-- packages/proof/v4/mainnet-readiness.js: the configuration under which the main network may be
-- read and published to.
pub mod Fields
pub mod Validate
pub mod Use
pub mod Sound
pub mod Evidence
pub mod Ready
pub mod Request
pub mod Identity
use Prim.Native.String.{String}
use veilforge.Base.{ℕ, Bool, Option}
use veilforge.Base.Text.{Text, codes}
use veilforge.Proof.Trust.{ChainValue}

-- The codes of `readinessError`.
pub data Code : Type 0 where
  config_invalid config_unresolved config_unverified config_disabled : Code
  chain_mismatch registry_mismatch testnet_registry_collision publication_mismatch : Code
  read_disabled publish_disabled transaction_invalid value_nonzero identity_invalid : Code

pub record ReadinessError : Type 0 where
  pub code : Code
  pub field : String

abbrev pub blocked : Code → String → ReadinessError
blocked code field = record { code = code; field = field }

-- What the `URL` constructor makes of a text.
pub record Url : Type 0 where
  pub protocol : String
  pub username : Text
  pub password : Text
  pub href : Text

pub record VerificationEvidence : Type 0 where
  pub network_source : Text
  pub deployment_source : Text
  pub runtime_bytecode_digest : Text

pub record WalletMetadata : Type 0 where
  pub chain_id : ChainValue
  pub chain_name : Option Text

pub record PublicationEvidence : Type 0 where
  pub transaction_source : Text
  pub project_id : Text
  pub report_hash : Text

-- A configuration. A text field is `String(value ?? '')`; `none` is `null` for a name or an
-- address, a value that is no boolean for a flag, and a missing object for the others.
pub record Config : Type 0 where
  pub network_key : String
  pub environment : String
  pub config_version : String
  pub chain_id : ChainValue
  pub enabled : Option Bool
  pub proof_read_enabled : Option Bool
  pub publish_enabled : Option Bool
  pub deployment_status : String
  pub registry_address : Option Text
  pub registry_contract_version : String
  pub chain_name : Option Text
  pub native_fee_asset : Option Text
  pub rpc_public_reference : Text
  pub explorer_base : Text
  pub registry_deployment_block : ChainValue
  pub registry_deployment_tx : Text
  pub registry_runtime_bytecode_digest : Text
  pub verification_evidence : Option VerificationEvidence
  pub wallet_switch_metadata : Option WalletMetadata
  pub publication_status : String
  pub first_proof_transaction : Text
  pub first_proof_block : ChainValue
  pub first_proof_publisher : Text
  pub first_proof_project_id : Text
  pub first_proof_report_hash : Text
  pub publication_evidence : Option PublicationEvidence

-- What a verified deployment adds to the result, and what publication adds.
pub record Deployment : Type 0 where
  pub rpc_public_reference : Text
  pub explorer_base : Text
  pub registry_deployment_block : ℕ
  pub registry_deployment_tx : Text
  pub registry_runtime_bytecode_digest : Text

pub record Publication : Type 0 where
  pub publication_status : String
  pub first_proof_transaction : Text
  pub first_proof_block : ℕ
  pub first_proof_publisher : Text
  pub first_proof_project_id : Text
  pub first_proof_report_hash : Text

-- The result of `validateMainnetReadinessConfig`.
pub record Trusted : Type 0 where
  pub network_key : String
  pub environment : String
  pub config_version : String
  pub chain_id : ℕ
  pub chain_name : Option Text
  pub native_fee_asset : Option Text
  pub registry_address : Option Text
  pub registry_contract_version : String
  pub deployment_status : String
  pub enabled : Bool
  pub proof_read_enabled : Bool
  pub publish_enabled : Bool
  pub deployment : Option Deployment
  pub publication : Option Publication
