-- ===== src/Proof/Readiness/Identity.antt =====
-- publicationIdentityKey: one key for all spellings of a publication.
use veilforge.Base.{
  ◌≡◌, ◌∙◌, sym, ℕ, Option, ok, >>=-eq-ok, guard_then, ok-injective, ◌++◌, ◌&&◌, leb, length, drop,
}
use veilforge.Base.Text.{Text, to_lower}
use veilforge.Proof.Network.{checksum_address}
use veilforge.Proof.Network.Address.{checksum_address_unique}
use veilforge.Proof.Trust.{normalize_chain_id}
use veilforge.Proof.Readiness.{blocked, identity_invalid}
use veilforge.Proof.Readiness.Use.{
  Identity, publication_identity_key, decimal, colon, from_proof, readiness,
}
use veilforge.Proof.Readiness.Request.{from_proof_sound}

-- The parts of a key.
parts :
    (to_number : Text → Option ℕ) (i : Identity) (key : Text)
    → publication_identity_key to_number i ≡ ok key
    → (chain : ℕ) × (registry : Text) × (publisher : Text) × (normalize_chain_id to_number
          i.chain_id
        ≡ ok chain)
      × (checksum_address i.registry_address ≡ ok registry)
      × (checksum_address i.publisher ≡ ok publisher)
      × (i.network_key
            ++ colon
            ++ decimal chain
            ++ colon
            ++ to_lower registry
            ++ colon
            ++ to_lower publisher
            ++ colon
            ++ to_lower i.report_hash
          ≡ key)
unfolding publication_identity_key
parts to_number i key h =
    let (_, r₁) =
      guard_then (leb 1 (length i.network_key) && leb 1 (length i.report_hash))
        (readiness (blocked identity_invalid "identity")) _ h in
    let (chain, h₂, r₂) = >>=-eq-ok (from_proof (normalize_chain_id to_number i.chain_id)) _ r₁ in
    let (registry, h₃, r₃) = >>=-eq-ok (from_proof (checksum_address i.registry_address)) _ r₂ in
    let (publisher, h₄, same) = >>=-eq-ok (from_proof (checksum_address i.publisher)) _ r₃ in
    (
      chain,
      registry,
      publisher,
      from_proof_sound _ chain h₂,
      from_proof_sound _ registry h₃,
      from_proof_sound _ publisher h₄,
      ok-injective same,
    )

same_parts :
    (n m : Text) (c d : ℕ) (r s p q h k : Text)
    → n ≡ m
    → c ≡ d
    → r ≡ s
    → p ≡ q
    → h ≡ k
    → n ++ colon ++ decimal c ++ colon ++ to_lower r ++ colon ++ to_lower p ++ colon ++ h
      ≡ m ++ colon ++ decimal d ++ colon ++ to_lower s ++ colon ++ to_lower q ++ colon ++ k
same_parts n m c d r s p q h k e₁ e₂ e₃ e₄ e₅ = cc

-- Two descriptions of a publication have the same key when they differ only in the case of the
-- digits of the addresses and of the report's hash, and in the form of the chain id.
pub publication_identity_key_unique :
    (to_number : Text → Option ℕ) (i j : Identity) (k l : Text)
    → publication_identity_key to_number i ≡ ok k
    → publication_identity_key to_number j ≡ ok l
    → i.network_key ≡ j.network_key
    → normalize_chain_id to_number i.chain_id ≡ normalize_chain_id to_number j.chain_id
    → to_lower (drop 2 i.registry_address) ≡ to_lower (drop 2 j.registry_address)
    → to_lower (drop 2 i.publisher) ≡ to_lower (drop 2 j.publisher)
    → to_lower i.report_hash ≡ to_lower j.report_hash
    → k ≡ l
publication_identity_key_unique to_number i j k l h h' network chain registry publisher report =
    let (c, r, p, hc, hr, hp, key) = parts to_number i k h in
    let (c', r', p', hc', hr', hp', key') = parts to_number j l h' in
    let same_chain : c ≡ c' = ok-injective (sym hc ∙ chain ∙ hc') in
    let same_registry =
      checksum_address_unique i.registry_address j.registry_address r r' hr hr' registry in
    let same_publisher = checksum_address_unique i.publisher j.publisher p p' hp hp' publisher in
    sym key
    ∙ same_parts i.network_key j.network_key c c' r r' p p' (to_lower i.report_hash)
        (to_lower j.report_hash) network same_chain same_registry same_publisher report
    ∙ key'
