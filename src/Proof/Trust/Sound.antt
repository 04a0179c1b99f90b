-- ===== src/Proof/Trust/Sound.antt =====
-- What a caller may rely on once a network has been trusted.
use Prim.Native.String.{String}
use text.Mathlib.Text.{◌==◌ as str_eq}
use veilforge.Base.{
  not, ◌||◌, ◌&&◌, guard, ℕ, ◌^◌, ◌<◌, ◌==◌, ◌≡◌, true, false, Option, none, some, ok, arith, ◌⊎◌,
  inl, inr, Bool-cases, any, >>=-eq-ok,
}
use veilforge.Base.Text.{Text}
use veilforge.Proof.Network.{
  chain_mismatch, Network, arc_testnet, arc_mainnet, testnet_registry, default_proof_network,
}
use veilforge.Proof.Trust.{
  checked_chain_id, checked_registry, inherited_names, ChainValue, resolve_proof_network, Operation,
  is_read, registry_is, has_registry, assert_proof_network_capability, normalize_chain_id,
  assert_trusted_network, check_capability, chain_number, wanted_registry,
}

checked_registry_sound : (m n : Network) → checked_registry m ≡ ok n → n ≡ m
unfolding checked_registry
checked_registry_sound m n h = ground arith

-- Only the two entries of the table resolve.
resolve_proof_network_sound :
    (key : String) (n : Network)
    → resolve_proof_network key ≡ ok n
    → (n ≡ arc_testnet) ⊎ (n ≡ arc_mainnet)
unfolding resolve_proof_network
resolve_proof_network_sound key n h = elim (Bool-cases (str_eq key default_proof_network)) [
  | inl e ↦ inl (checked_registry_sound arc_testnet n (rw e at h))
  | inr other ↦ elim (Bool-cases (str_eq key "arc-mainnet")) [
    | inl e ↦ inr (checked_registry_sound arc_mainnet n (rw (other, e) at h))
    | inr neither ↦ elim (Bool-cases (any (str_eq key) inherited_names)) [
      | inl e ↦ absurd (cc (rw (other, neither, e) at h))
      | inr e ↦ absurd (cc (rw (other, neither, e) at h))
    ]
  ]
]

-- What `check_capability` lets through.
pub record IsCapable (operation : Operation) (n : Network) : Type 0 where
  pub enabled : n.enabled ≡ true
  pub resolved : has_registry n ≡ true
  pub readable : (not (is_read operation) || n.proof_read_enabled) ≡ true
  pub publishable : (is_read operation || n.publish_enabled) ≡ true
  pub deployed :
      (not (str_eq n.environment "mainnet") || str_eq n.deployment_status "verified") ≡ true
  pub apart : (str_eq n.environment "mainnet" && registry_is n testnet_registry) ≡ false

check_capability_sound :
    (operation : Operation) (m n : Network)
    → check_capability operation m ≡ ok n
    → (n ≡ m) × IsCapable operation m
unfolding check_capability
check_capability_sound operation m n h = (
  ground arith,
  record {
    enabled = ground arith;
    resolved = ground arith;
    readable = ground arith;
    publishable = ground arith;
    deployed = ground arith;
    apart = ground arith;
  },
)

capability_sound :
    (key : String) (operation : Operation) (n : Network)
    → assert_proof_network_capability key operation ≡ ok n
    → (resolve_proof_network key ≡ ok n) × IsCapable operation n
unfolding assert_proof_network_capability
capability_sound key operation n h =
    let (m, found, checked) =
      >>=-eq-ok (resolve_proof_network key) (check_capability operation) h in
    let (same, capable) = check_capability_sound operation m n checked in rw same (found, capable)

-- What a trusted network is: an entry of the table that allows the operation, with the chain that
-- the provider is on and the registry that the caller named (its own, where none was named).
pub record IsTrusted (to_number : Text → Option ℕ) (key : String) (chain : ChainValue)
    (registry : Option Text) (operation : Operation) (n : Network) : Type 0 where
  pub listed : (n ≡ arc_testnet) ⊎ (n ≡ arc_mainnet)
  pub capable : IsCapable operation n
  pub on_chain : chain_number to_number chain ≡ some n.chain_id
  pub named :
      (address : Text) × (wanted_registry registry n ≡ ok address) × (registry_is n address ≡ true)

checked_chain_id_sound :
    (o : Option ℕ) (id : ℕ) → checked_chain_id o ≡ ok id → (o ≡ some id) × (0 < id) × (id < 2 ^ 53)
checked_chain_id_sound none id h = cc
checked_chain_id_sound (some m) id h = (ground arith, ground arith, ground arith)

-- A trusted network is in the table, allows the operation, is the chain that the provider is on,
-- and has the registry that the caller named, if one was named.
pub assert_trusted_network_sound :
    (to_number : Text → Option ℕ) (key : String) (chain : ChainValue) (registry : Option Text)
    (operation : Operation) (n : Network)
    → assert_trusted_network to_number key chain registry operation ≡ ok n
    → IsTrusted to_number key chain registry operation n
unfolding assert_trusted_network normalize_chain_id
assert_trusted_network_sound to_number key chain registry operation n h =
    let (m, found, rest) = >>=-eq-ok (assert_proof_network_capability key operation) _ h in
    let (id, chained, rest') = >>=-eq-ok (normalize_chain_id to_number chain) _ rest in
    let (u, same, rest'') = >>=-eq-ok (guard (id == m.chain_id) chain_mismatch) _ rest' in
    let (address, wanted, rest''') = >>=-eq-ok (wanted_registry registry m) _ rest'' in
    let is : n ≡ m = ground arith in
    let (resolved, capable) = capability_sound key operation m found in
    let agrees : registry_is m address ≡ true = ground arith in
    let equal : id ≡ m.chain_id = ground arith in
    rw is (record {
      listed = resolve_proof_network_sound key m resolved;
      capable = capable;
      on_chain = rw (← equal) (checked_chain_id_sound _ id chained).0;
      named = (address, wanted, agrees);
    })
