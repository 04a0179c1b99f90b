-- ===== src/Proof/Readiness/Fields.antt =====
-- packages/proof/v4/mainnet-readiness.js: the checks, in the order in which the source makes them.
use mathlib.Core.List.{reverse}
use veilforge.Base.{
  ℕ, ◌==◌, Bool, true, false, not, ◌&&◌, ◌||◌, Option, none, some, [], ◌∷◌, Result, ok, err, ◌>>=◌,
  ◌>>◌, guard, if◌then◌else◌, leb, all, take, drop, length,
}
use veilforge.Proof.Network.{testnet_registry, mainnet_chain_id, checksum_address}
use veilforge.Proof.Trust.{ChainValue, normalize_chain_id}
use veilforge.Proof.Readiness.{
  Code, config_invalid, config_unresolved, config_unverified, config_disabled, chain_mismatch,
  registry_mismatch, testnet_registry_collision, read_disabled, ReadinessError, blocked, Url,
  VerificationEvidence, WalletMetadata,
}
use Prim.Native.String.{String}
use text.Mathlib.Text.{◌==◌ as str_eq}
use veilforge.Base.Text.{Text, codes, text_eq, hex_literal, is_lower_hex, to_lower}

-- `MAINNET_DEPLOYMENT_STATUSES.has`
abbrev pub known_status : String → Bool
known_status s =
    str_eq s "unresolved"
    || str_eq s "prepared"
    || str_eq s "deployed-unverified"
    || str_eq s "verified"

-- White space, as `trim` takes it.
abbrev is_space : ℕ → Bool
is_space c =
    (leb 9 c && leb c 13)
    || c == 32
    || c == 160
    || c == 0x1680
    || (leb 0x2000 c && leb c 0x200a)
    || c == 0x2028
    || c == 0x2029
    || c == 0x202f
    || c == 0x205f
    || c == 0x3000
    || c == 0xfeff

trim_start : Text → Text
trim_start [] = []
trim_start (c ∷ cs) = let rest = trim_start cs in if is_space c then rest else c ∷ cs

unfoldable pub trim : Text → Text
unfolding trim_start
trim s = reverse (trim_start (reverse (trim_start s)))

-- A digest in the form sha256:…
unfoldable pub sha_literal : Text → Bool
sha_literal s =
    text_eq (take 7 s) (codes "sha256:") && length (drop 7 s) == 64 && all is_lower_hex (drop 7 s)

abbrev pub demand : Bool → Code → String → Result ReadinessError (Unit {0})
demand test code field = guard test (blocked code field)

-- `try { … } catch { throw … }`
abbrev pub rethrow {ℓ} :
    {E : Type ℓ} {A : Type 0} → Result E A → Code → String → Result ReadinessError A
rethrow (ok a) code field = ok a
rethrow (err e) code field = err (blocked code field)

abbrev require_lower : (Text → Bool) → Text → String → Result ReadinessError Text
require_lower test value field =
    if test (to_lower value) then ok (to_lower value) else err (blocked config_unresolved field)

-- `requireTransactionHash` and `requireBytes32`
unfoldable pub require_bytes_32 : Text → String → Result ReadinessError Text
require_bytes_32 = require_lower (hex_literal is_lower_hex 64)

unfoldable pub require_sha_256_digest : Text → String → Result ReadinessError Text
require_sha_256_digest = require_lower sha_literal

unfoldable pub require_boolean : Option Bool → String → Result ReadinessError Bool
require_boolean none field = err (blocked config_invalid field)
require_boolean (some b) field = ok b

-- `url.toString().replace(/\/$/u, '')`
abbrev strip_slash : Text → Text
strip_slash s = elim (reverse s) [ [] ↦ [] | c ∷ cs ↦ if c == b'/' then reverse cs else s ]

unfoldable pub normalize_mainnet_registry_address :
    Option Text → Result ReadinessError (Option Text)
normalize_mainnet_registry_address none = ok none
normalize_mainnet_registry_address (some value) = do
  address ← rethrow (checksum_address value) registry_mismatch "registryAddress"
  demand (not (text_eq (to_lower address) (to_lower testnet_registry))) testnet_registry_collision
      "registryAddress"
  ok (some address)

pub record Flags : Type 0 where
  pub enabled : Bool
  pub read : Bool
  pub publish : Bool

-- The checks on the flags, once the registry's address is known.
unfoldable pub check_flags : Flags → Bool → Bool → Result ReadinessError (Unit {0})
check_flags f resolved verified = do
  demand (resolved || not f.read) config_unresolved "registryAddress"
  demand (resolved || not f.publish) config_unresolved "registryAddress"
  demand (verified || not f.publish) config_unverified "deploymentStatus"
  demand (verified || not f.read) config_unverified "deploymentStatus"
  demand (f.enabled || not (f.read || f.publish)) config_disabled "enabled"
  demand (f.read || not f.publish) read_disabled "proofReadEnabled"
  demand (verified || not f.enabled) config_unverified "deploymentStatus"

-- `!name` is true of `null` and of the empty text.
abbrev pub is_named : Option Text → Bool
is_named none = false
is_named (some []) = false
is_named (some (_ ∷ _)) = true

abbrev pub name_eq : Option Text → Option Text → Bool
name_eq none none = true
name_eq (some s) (some t) = text_eq s t
name_eq _ _ = false

-- `to_number` is JavaScript's `Number` of a text, as in the checks of a network; `parse_url` is the
-- `URL` constructor, `none` where it throws.
module _ (to_number : Text → Option ℕ) (parse_url : Text → Option Url) where
  unfoldable pub require_https : Text → String → Result ReadinessError Text
  require_https value field = elim (parse_url value) [
    | none ↦ err (blocked config_unresolved field)
    | some url ↦
        if str_eq url.protocol "https:" && text_eq url.username [] && text_eq url.password []
        then ok (strip_slash url.href)
        else err (blocked config_unresolved field)
  ]

  unfoldable pub normalize_mainnet_chain_id : ChainValue → Result ReadinessError ℕ
  normalize_mainnet_chain_id value = do
    id ← rethrow (normalize_chain_id to_number value) chain_mismatch "chainId"
    demand (id == mainnet_chain_id) chain_mismatch "chainId"
    ok id

  -- The evidence of the deployment, and the wallet's metadata.
  unfoldable pub check_evidence :
      Option VerificationEvidence → Text → Result ReadinessError (Unit {0})
  unfolding require_https require_sha_256_digest
  check_evidence none digest = err (blocked config_unverified "verificationEvidence")
  check_evidence (some e) digest = do
    _ ← require_https e.network_source "verificationEvidence.networkSource"
    _ ← require_https e.deployment_source "verificationEvidence.deploymentSource"
    d ←
        require_sha_256_digest e.runtime_bytecode_digest
          "verificationEvidence.runtimeBytecodeDigest"
    demand (text_eq d digest) registry_mismatch "verificationEvidence.runtimeBytecodeDigest"

  unfoldable pub check_wallet :
      Option WalletMetadata → ℕ → Option Text → Result ReadinessError (Unit {0})
  check_wallet none chain name = err (blocked config_invalid "walletSwitchMetadata")
  check_wallet (some w) chain name = do
    id ← rethrow (normalize_chain_id to_number w.chain_id) config_invalid "walletSwitchMetadata"
    demand (id == chain && name_eq w.chain_name name) config_invalid "walletSwitchMetadata"
