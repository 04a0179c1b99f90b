-- ===== src/Proof/Trust.antt =====
-- packages/proof/v4/network.js: from a network key to a network that may be used.
pub mod Sound
use Prim.Native.String.{String}
use text.Mathlib.Text.{◌==◌ as str_eq}
use veilforge.Base.{
  ℕ, ◌+◌, ◌*◌, ◌^◌, ◌==◌, ◌≡◌, Bool, true, false, not, ◌&&◌, ◌||◌, Option, none, some, List, [],
  ◌∷◌, Result, ok, err, ◌>>=◌, ◌>>◌, guard, if◌then◌else◌, ltb, leb, drop, all, any,
}
use veilforge.Base.Text.{Text, text_eq, is_hex, to_lower, lower}
use veilforge.Proof.Network.{
  ProofError, network_invalid, chain_mismatch, registry_mismatch, Network, default_proof_network,
  arc_testnet, arc_mainnet, testnet_registry, hex_value, checksum_address,
}

-- A chain id as a provider or a configuration gives it: a safe integer that is not negative, a
-- text, or another value (a fraction, a negative number, nothing).
pub data ChainValue : Type 0 where
  integer : ℕ → ChainValue
  string : Text → ChainValue
  other : ChainValue

-- `Number.parseInt(digits, 16)`
unfoldable pub hex_number_from : ℕ → Text → ℕ
hex_number_from n [] = n
hex_number_from n (c ∷ cs) = hex_number_from (n * 16 + hex_value c) cs

unfoldable pub hex_number : Text → ℕ
unfolding hex_number_from
hex_number = hex_number_from 0

-- `/^0x[0-9a-f]+$/i`; in a text of the form 0x the x may be a capital.
abbrev pub is_hex_number : Text → Bool
is_hex_number [] = false
is_hex_number (_ ∷ []) = false
is_hex_number (_ ∷ _ ∷ []) = false
is_hex_number (a ∷ b ∷ c ∷ cs) = a == b'0' && (b == b'x' || b == b'X') && all is_hex (c ∷ cs)

-- `Number.isSafeInteger(parsed) && parsed > 0`, else a chain mismatch.
abbrev pub checked_chain_id : Option ℕ → Result ProofError ℕ
checked_chain_id none = err chain_mismatch
checked_chain_id (some n) = if ltb 0 n && ltb n (2 ^ 53) then ok n else err chain_mismatch

-- Names that every object has by inheritance: `PROOF_NETWORKS[key]` is then no network, and its
-- missing registry is refused.
abbrev pub inherited_names : List String
inherited_names =
    "constructor" ∷ "toString" ∷ "toLocaleString" ∷ "valueOf" ∷ "hasOwnProperty" ∷ "isPrototypeOf"
    ∷ "propertyIsEnumerable" ∷ "__proto__" ∷ "__defineGetter__" ∷ "__defineSetter__"
    ∷ "__lookupGetter__" ∷ "__lookupSetter__" ∷ []

-- `if (network.registryAddress !== null) checksumAddress(network.registryAddress);`
unfoldable pub checked_registry : Network → Result ProofError Network
checked_registry n = elim n.registry_address [
  | none ↦ ok n
  | some address ↦ checksum_address address >>= λ _. ok n
]

unfoldable pub resolve_proof_network : String → Result ProofError Network
resolve_proof_network key =
    if str_eq key default_proof_network
    then checked_registry arc_testnet
    else if str_eq key "arc-mainnet"
    then checked_registry arc_mainnet
    else if any (str_eq key) inherited_names
    then err registry_mismatch
    else err network_invalid

pub data Operation : Type 0 where
  read publish : Operation

abbrev pub is_read : Operation → Bool
is_read read = true
is_read publish = false

abbrev pub has_registry : Network → Bool
has_registry n = elim n.registry_address [ none ↦ false | some _ ↦ true ]

abbrev pub registry_is : Network → Text → Bool
registry_is n t = elim n.registry_address [
  | none ↦ false
  | some address ↦ text_eq (to_lower address) (to_lower t)
]

-- The checks of `assertProofNetworkCapability` on a resolved network.
unfoldable pub check_capability : Operation → Network → Result ProofError Network
check_capability operation n = do
  guard (n.enabled && has_registry n) network_invalid
  guard (not (is_read operation) || n.proof_read_enabled) network_invalid
  guard (is_read operation || n.publish_enabled) network_invalid
  guard (not (str_eq n.environment "mainnet") || str_eq n.deployment_status "verified")
      network_invalid
  guard (not (str_eq n.environment "mainnet") || not (registry_is n testnet_registry))
      registry_mismatch
  ok n

unfoldable pub assert_proof_network_capability : String → Operation → Result ProofError Network
assert_proof_network_capability key operation =
    resolve_proof_network key >>= check_capability operation

-- `registryAddress ?? network.registryAddress`, where `none` is a missing argument.
abbrev pub wanted_registry : Option Text → Network → Result ProofError Text
wanted_registry (some address) n = checksum_address address
wanted_registry none n = elim n.registry_address [
  | some address ↦ checksum_address address
  | none ↦ err registry_mismatch
]

-- `to_number` is JavaScript's `Number` of a text that is not of the form 0x…, where that is an integer
-- and not negative.
module _ (to_number : Text → Option ℕ) where
  abbrev pub chain_number : ChainValue → Option ℕ
  chain_number (integer n) = some n
  chain_number other = none
  chain_number (string t) = if is_hex_number t then some (hex_number (drop 2 t)) else to_number t

  unfoldable pub normalize_chain_id : ChainValue → Result ProofError ℕ
  normalize_chain_id value = checked_chain_id (chain_number value)

  unfoldable pub assert_trusted_network :
      String → ChainValue → Option Text → Operation → Result ProofError Network
  assert_trusted_network key chain registry operation = do
    n ← assert_proof_network_capability key operation
    id ← normalize_chain_id chain
    guard (id == n.chain_id) chain_mismatch
    address ← wanted_registry registry n
    guard (registry_is n address) registry_mismatch
    ok n
