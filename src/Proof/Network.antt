-- ===== src/Proof/Network.antt =====
-- packages/proof/v4/network.js: the trusted networks, addresses with their EIP-55 checksum, and
-- the checks before a registry is used.
pub mod Address
use Prim.Native.String.{String}
use text.Mathlib.Text.{◌==◌ as str_eq}
use veilforge.Base.{
  ℕ, suc, ◌+◌, ◌-◌, ◌*◌, ◌^◌, ◌==◌, ◌≡◌, refl, Bool, true, false, not, ◌&&◌, ◌||◌, Option, none,
  some, List, [], ◌∷◌, ◌++◌, Result, ok, err, ◌>>=◌, ◌>>◌, guard, if◌then◌else◌, ltb, leb, drop,
  all, any, get_or, map,
}
use veilforge.Base.Text.{Text, codes, text_eq, hex_literal, is_hex, is_lower_hex, to_lower, lower}
use veilforge.Hash.Keccak.{keccak_hex}

-- The codes of `proofError` that this file throws.
pub data ProofError : Type 0 where
  network_invalid chain_mismatch registry_mismatch : ProofError

pub record NativeCurrency : Type 0 where
  pub name : String
  pub symbol : String
  pub decimals : ℕ

-- The evidence that the entry of the main network carries.
pub record Evidence : Type 0 where
  pub runtime_bytecode_digest : Text
  pub deployment_transaction : Text
  pub deployment_block : ℕ
  pub first_proof_transaction : Text
  pub first_proof_block : ℕ
  pub first_proof_publisher : Text
  pub first_proof_fixture_id : String
  pub first_proof_project_id : Text
  pub first_proof_report_hash : Text
  pub publication_status : String

-- An entry of `PROOF_NETWORKS`.
pub record Network : Type 0 where
  pub config_version : String
  pub network_key : String
  pub environment : String
  pub is_testnet : Bool
  pub chain_id : ℕ
  pub chain_id_hex : Text
  pub chain_name : String
  pub explorer_base_url : String
  pub native_currency : NativeCurrency
  pub rpc_urls : List String
  pub block_explorer_urls : List String
  pub rpc_role : String
  pub registry_address : Option Text
  pub registry_contract_version : String
  pub evidence : Option Evidence
  pub enabled : Bool
  pub proof_read_enabled : Bool
  pub publish_enabled : Bool
  pub deployment_status : String

abbrev pub default_proof_network : String
default_proof_network = "arc-testnet"

abbrev pub testnet_registry : Text
testnet_registry = codes "0x88B4055eaB061CEa9BdfefF524f65ff461B5401d"

abbrev pub mainnet_registry : Text
mainnet_registry = codes "0x43D76BfCa31eAd660C5d804FEe20d14C0c577337"

abbrev pub mainnet_chain_id : ℕ
mainnet_chain_id = 5042

abbrev pub mainnet_evidence : Evidence
mainnet_evidence = record {
  runtime_bytecode_digest =
      codes "sha256:183a480c37821dbdf8212a0454313c45f0ea49569448e712b0524bbfafab145d";
  deployment_transaction =
      codes "0x2ad90b2d3c1343295cffbd770ae584bc6f086c0010aabc985ad1af1f8644789f";
  deployment_block = 21532278;
  first_proof_transaction =
      codes "0xc546c684ccc4a04ae2466926972a3c20d53c8b4616022f03240f4319d3de1693";
  first_proof_block = 21545612;
  first_proof_publisher = codes "0x17aDD951d71A3c79Cfa389A61f7494F3a8146E4b";
  first_proof_fixture_id = "veilforge-mainnet-smoke-v1";
  first_proof_project_id =
      codes "0x79eaebf2c0f45acf6b7b020c6f41251697c2da74ee89cdbd891095b5e8d9bef6";
  first_proof_report_hash =
      codes "0x2975be1220e026f3b2768b59d212bda840569890e905cf4c3098d3b3d166ec4a";
  publication_status = "verified";
}

abbrev usdc : NativeCurrency
usdc = record { name = "USDC"; symbol = "USDC"; decimals = 18 }

abbrev pub arc_testnet : Network
arc_testnet = record {
  config_version = "1.0.0";
  network_key = default_proof_network;
  environment = "testnet";
  is_testnet = true;
  chain_id = 5042002;
  chain_id_hex = codes "0x4cef52";
  chain_name = "Arc Testnet";
  explorer_base_url = "https://testnet.arcscan.app";
  native_currency = usdc;
  rpc_urls = "https://rpc.testnet.arc.network" ∷ [];
  block_explorer_urls = "https://testnet.arcscan.app" ∷ [];
  rpc_role = "public-read-only-reference";
  registry_address = some testnet_registry;
  registry_contract_version = "2.0.0";
  evidence = none;
  enabled = true;
  proof_read_enabled = true;
  publish_enabled = true;
  deployment_status = "verified";
}

abbrev pub arc_mainnet : Network
arc_mainnet = record {
  config_version = "1.0.0";
  network_key = "arc-mainnet";
  environment = "mainnet";
  is_testnet = false;
  chain_id = mainnet_chain_id;
  chain_id_hex = codes "0x13b2";
  chain_name = "Arc Mainnet";
  explorer_base_url = "https://explorer.arc.io";
  native_currency = usdc;
  rpc_urls = "https://rpc.mainnet.arc.io" ∷ [];
  block_explorer_urls = "https://explorer.arc.io" ∷ [];
  rpc_role = "public-read-only-reference";
  registry_address = some mainnet_registry;
  registry_contract_version = "2.0.0";
  evidence = some mainnet_evidence;
  enabled = true;
  proof_read_enabled = true;
  publish_enabled = true;
  deployment_status = "verified";
}

-- `toUpperCase` of a code unit in [0-9a-f].
abbrev pub upper : ℕ → ℕ
upper c = if leb b'a' c && leb c b'z' then c - 32 else c

-- `Number.parseInt(c, 16)` of one hexadecimal digit.
abbrev pub hex_value : ℕ → ℕ
hex_value c = if leb c b'9' then c - b'0' else if leb c b'F' then c - b'A' + 10 else c - b'a' + 10

-- The digits of a checksum, from those of the lower-case address and of its hash.
pub checksum_digits : Text → Text → Text
checksum_digits [] hash = []
checksum_digits (c ∷ cs) [] = c ∷ checksum_digits cs []
checksum_digits (c ∷ cs) (h ∷ hs) =
    (if leb b'a' c && leb c b'f' && leb 8 (hex_value h) then upper c else c) ∷ checksum_digits cs hs

-- `checksum`, from the lower-case digits.
unfoldable pub checksum_of : Text → Text
unfolding checksum_digits
checksum_of digits = codes "0x" ++ checksum_digits digits (drop 2 (keccak_hex digits))

-- `checksumAddress` of `String(value ?? '')`.
unfoldable pub checksum_address : Text → Result ProofError Text
unfolding hex_literal
checksum_address address =
    let body = drop 2 address in
    let digits = to_lower body in
    if not (hex_literal is_hex 40 address)
    then err ProofError.registry_mismatch
    else if all (λ c. c == b'0') digits
    then err ProofError.registry_mismatch
    else if not (text_eq body digits)
        && not (text_eq body (map upper digits))
        && not (text_eq address (checksum_of digits))
    then err ProofError.registry_mismatch
    else ok (checksum_of digits)
