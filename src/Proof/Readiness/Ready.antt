-- ===== src/Proof/Readiness/Ready.antt =====
-- validateMainnetReadinessConfig: the guarantees of a configuration that it accepts, and of a
-- transaction request that is let through under one.

use text.Mathlib.Text.{◌==◌ as str_eq}
use veilforge.Base.{
  arith, not, ◌||◌, Bool-cases, false, ◌⊎◌, inl, inr, ℕ, ◌≡◌, sym, ap, Bool, true, false, Option,
  some, ok, >>=-eq-ok, ok-injective,
}
use veilforge.Base.Text.{Text}
use veilforge.Proof.Network.{mainnet_chain_id}
use veilforge.Proof.Readiness.{registry_mismatch, Url, Config, Trusted, Deployment, Publication}
use veilforge.Proof.Readiness.Fields.{Flags, check_flags, normalize_mainnet_registry_address}
use veilforge.Proof.Readiness.Validate.{
  validate_mainnet_readiness_config, check_head, check_blocks, check_deployment, check_publication,
  resolved, is_verified,
}
use veilforge.Proof.Readiness.Sound.{
  Avoids, AreConsistent, demand_then, head_sound, registry_sound, check_flags_sound,
}
use veilforge.Proof.Readiness.Evidence.{IsDeployed, IsFirst, deployment_sound, publication_sound}

abbrev pub flags_of : Trusted → Flags
flags_of t = record {
  enabled = t.enabled;
  read = t.proof_read_enabled;
  publish = t.publish_enabled;
}

-- What a client may rely on.
pub record IsReady (require_read require_publish : Bool) (t : Trusted) : Type 0 where
  pub on_chain : t.chain_id ≡ mainnet_chain_id
  pub apart : Avoids t.registry_address
  pub consistent :
      AreConsistent
        (flags_of t)
        (resolved t.registry_address)
        (str_eq t.deployment_status "verified")
  pub reads : (not require_read || t.proof_read_enabled) ≡ true
  pub publishes : (not require_publish || t.publish_enabled) ≡ true
  pub deployed :
      (str_eq t.deployment_status "verified" ≡ false)
      ⊎ ((d : Deployment) × (t.deployment ≡ some d) × IsDeployed t.registry_address d)
  pub first :
      (t.publish_enabled ≡ false) ⊎ ((p : Publication) × (t.publication ≡ some p) × IsFirst p)

module _ (to_number : Text → Option ℕ) (parse_url : Text → Option Url) (c : Config) where
  blocks-IsDeployed :
      (chain : ℕ) (registry : Option Text) (verified publish : Bool)
      (b : Option Deployment × Option Publication)
      → check_blocks to_number parse_url c chain registry verified publish ≡ ok b
      → verified ≡ true
      → (d : Deployment) × (b.0 ≡ some d) × IsDeployed registry d
  unfolding check_blocks
  blocks-IsDeployed chain registry false publish b h v = cc
  blocks-IsDeployed chain registry true false b h v =
      let (d, found, same) =
        >>=-eq-ok (check_deployment to_number parse_url c chain registry) _ h in
      (
        d,
        sym (ap (λ x. x.0) (ok-injective same)),
        deployment_sound to_number parse_url c chain registry d found,
      )
  blocks-IsDeployed chain registry true true b h v =
      let (d, found, rest) =
        >>=-eq-ok (check_deployment to_number parse_url c chain registry) _ h in
      let (p, _, same) = >>=-eq-ok (check_publication to_number parse_url c) _ rest in
      (
        d,
        sym (ap (λ x. x.0) (ok-injective same)),
        deployment_sound to_number parse_url c chain registry d found,
      )

  blocks-IsFirst :
      (chain : ℕ) (registry : Option Text) (verified publish : Bool)
      (b : Option Deployment × Option Publication)
      → check_blocks to_number parse_url c chain registry verified publish ≡ ok b
      → verified ≡ true
      → publish ≡ true
      → (p : Publication) × (b.1 ≡ some p) × IsFirst p
  unfolding check_blocks
  blocks-IsFirst chain registry false publish b h v w = cc
  blocks-IsFirst chain registry true false b h v w = cc
  blocks-IsFirst chain registry true true b h v w =
      let (d, found, rest) =
        >>=-eq-ok (check_deployment to_number parse_url c chain registry) _ h in
      let (p, published, same) = >>=-eq-ok (check_publication to_number parse_url c) _ rest in
      (
        p,
        sym (ap (λ x. x.1) (ok-injective same)),
        publication_sound to_number parse_url c p published,
      )

pub publish_verified : (f : Flags) (r v : Bool) → AreConsistent f r v → f.publish ≡ true → v ≡ true
publish_verified f r v h p =
    let read = h.publish_reads in
    let enabled = h.read_enabled in let verified = h.enabled_verified in ground arith

-- A configuration that `validate_mainnet_readiness_config` accepts is on the main network's chain,
-- its registry is not the test network's, its flags agree with each other and with what the caller
-- required, a verified deployment is the one on record, and if it also publishes, its first
-- publication is the one on record.
pub validate_sound :
    (to_number : Text → Option ℕ) (parse_url : Text → Option Url) (c : Config)
    (require_read require_publish : Bool) (t : Trusted)
    → validate_mainnet_readiness_config to_number parse_url c require_read require_publish ≡ ok t
    → IsReady require_read require_publish t
unfolding validate_mainnet_readiness_config
validate_sound to_number parse_url c require_read require_publish t h =
    let (head, h₁, r₁) =
      >>=-eq-ok (check_head to_number parse_url c require_read require_publish) _ h in
    let (registry, h₂, r₂) =
      >>=-eq-ok (normalize_mainnet_registry_address c.registry_address) _ r₁ in
    let (u, h₃, r₃) = >>=-eq-ok (check_flags head.1 (resolved registry) (is_verified c)) _ r₂ in
    let (_, r₄) =
      demand_then (str_eq c.registry_contract_version "2.0.0") registry_mismatch
        "registryContractVersion" _ r₃ in
    let (blocks, h₄, same) =
      >>=-eq-ok (check_blocks to_number parse_url c head.0 registry (is_verified c) head.1.publish)
        _ r₄ in
    let (on_chain, reads, publishes) =
      head_sound to_number parse_url c require_read require_publish head h₁ in
    let consistent = check_flags_sound head.1 (resolved registry) (is_verified c) u h₃ in
    rw (← ok-injective same) (record {
      on_chain = on_chain;
      apart = registry_sound c.registry_address registry h₂;
      consistent = consistent;
      reads = reads;
      publishes = publishes;
      deployed = elim (Bool-cases (is_verified c)) [
        | inl verified ↦ inr (
            blocks-IsDeployed to_number parse_url c head.0 registry (is_verified c) head.1.publish
              blocks h₄ verified)
        | inr unverified ↦ inl unverified
      ];
      first = elim (Bool-cases head.1.publish) [
        | inl published ↦ inr (
            blocks-IsFirst to_number parse_url c head.0 registry (is_verified c) head.1.publish
              blocks h₄
              (publish_verified head.1 (resolved registry) (is_verified c) consistent published)
              published)
        | inr unpublished ↦ inl unpublished
      ];
    })
