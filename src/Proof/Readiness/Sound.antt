-- ===== src/Proof/Readiness/Sound.antt =====
-- What a validated configuration of the main network guarantees.
use Prim.Native.String.{String}
use text.Mathlib.Text.{◌==◌ as str_eq}
use veilforge.Base.{
  guard_then, ◌>>◌, ℕ, ◌==◌, ◌≡◌, Bool, true, false, not, ◌&&◌, ◌||◌, Option, none, some, Result,
  ok, >>=-eq-ok, arith, ok-injective, ◌⊎◌, inl, inr, sym,
}
use veilforge.Proof.Trust.{ChainValue, normalize_chain_id}
use veilforge.Base.Text.{Text, text_eq, to_lower}
use veilforge.Proof.Network.{testnet_registry, mainnet_chain_id, checksum_address}
use veilforge.Proof.Readiness.{
  chain_mismatch, registry_mismatch, testnet_registry_collision, config_invalid, read_disabled,
  publish_disabled, Code, Url, Config, ReadinessError, blocked,
}
use veilforge.Proof.Readiness.Fields.{
  known_status, rethrow, demand, Flags, check_flags, normalize_mainnet_registry_address,
  normalize_mainnet_chain_id,
}
use veilforge.Proof.Readiness.Validate.{check_head, read_flags}

-- The flags that pass: publishing needs reading, reading needs the network to be enabled, and that
-- needs a verified deployment and a registry.
pub record AreConsistent (f : Flags) (has_registry verified : Bool) : Type 0 where
  pub publish_reads : (not f.publish || f.read) ≡ true
  pub read_enabled : (not f.read || f.enabled) ≡ true
  pub enabled_verified : (not f.enabled || verified) ≡ true
  pub read_resolved : (not f.read || has_registry) ≡ true

pub check_flags_sound :
    (f : Flags) (r v : Bool) (u : Unit {0}) → check_flags f r v ≡ ok u → AreConsistent f r v
unfolding check_flags
check_flags_sound f r v u h = record {
  publish_reads = ground arith;
  read_enabled = ground arith;
  enabled_verified = ground arith;
  read_resolved = ground arith;
}

pub check_flags_complete :
    (f : Flags) (r v : Bool) → AreConsistent f r v → check_flags f r v ≡ ok tt
unfolding check_flags
check_flags_complete f r v h = ground arith

pub demand_then :
    {A : Type 0} (test : Bool) (code : Code) (field : String) (rest : Result ReadinessError A)
    {a : A}
    → (demand test code field >> rest) ≡ ok a
    → (test ≡ true) × (rest ≡ ok a)
demand_then test code field = guard_then test (blocked code field)

pub chain_sound :
    (to_number : Text → Option ℕ) (parse_url : Text → Option Url) (v : ChainValue) (id : ℕ)
    → normalize_mainnet_chain_id to_number parse_url v ≡ ok id
    → id ≡ mainnet_chain_id
unfolding normalize_mainnet_chain_id
chain_sound to_number parse_url v id h =
    let (m, found, rest) =
      >>=-eq-ok (rethrow (normalize_chain_id to_number v) chain_mismatch "chainId") _ h in
    let (equal, same) = demand_then (m == mainnet_chain_id) chain_mismatch "chainId" _ rest in
    ground arith

-- There is no registry, or one that is not the test network's.
abbrev pub Avoids : Option Text → Type 0
Avoids registry =
    (registry ≡ none)
    ⊎ ((a : Text) × (registry ≡ some a)
        × (text_eq (to_lower a) (to_lower testnet_registry) ≡ false))

-- The registry is not the test network's.
pub registry_sound :
    (value registry : Option Text)
    → normalize_mainnet_registry_address value ≡ ok registry
    → Avoids registry
unfolding normalize_mainnet_registry_address
registry_sound none registry h = inl (sym (ok-injective h))
registry_sound (some v) registry h =
    let (found, checked, rest) =
      >>=-eq-ok (rethrow (checksum_address v) registry_mismatch "registryAddress") _ h in
    let (apart, same) =
      demand_then (not (text_eq (to_lower found) (to_lower testnet_registry)))
        testnet_registry_collision "registryAddress" _ rest in
    inr (found, sym (ok-injective same), ground arith)

-- The required flags are set, and the chain is the main network's.
pub head_sound :
    (to_number : Text → Option ℕ) (parse_url : Text → Option Url) (c : Config)
    (require_read require_publish : Bool) (p : ℕ × Flags)
    → check_head to_number parse_url c require_read require_publish ≡ ok p
    → (p.0 ≡ mainnet_chain_id)
      × ((not require_read || p.1.read) ≡ true)
      × ((not require_publish || p.1.publish) ≡ true)
unfolding check_head
head_sound to_number parse_url c require_read require_publish p h =
    let (_, r₁) =
      demand_then (str_eq c.network_key "arc-mainnet" && str_eq c.environment "mainnet")
        config_invalid "networkKey" _ h in
    let (_, r₂) =
      demand_then (str_eq c.config_version "1.0.0") config_invalid "configVersion" _ r₁ in
    let (id, on_chain, r₃) =
      >>=-eq-ok (normalize_mainnet_chain_id to_number parse_url c.chain_id) _ r₂ in
    let (f, _, r₄) = >>=-eq-ok (read_flags c) _ r₃ in
    let (_, r₅) =
      demand_then (known_status c.deployment_status) config_invalid "deploymentStatus" _ r₄ in
    let (reads, r₆) =
      demand_then (not require_read || f.read) read_disabled "proofReadEnabled" _ r₅ in
    let (publishes, same) =
      demand_then (not require_publish || f.publish) publish_disabled "publishEnabled" _ r₆ in
    let chain = chain_sound to_number parse_url c.chain_id id on_chain in
    (ground arith, ground arith, ground arith)
