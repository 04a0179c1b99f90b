-- ===== src/Proof/Network/Address.antt =====
-- Checksummed addresses: what checksumAddress accepts, and that it is idempotent.
use veilforge.Base.{
  ℕ, suc, ◌==◌, ◌≡◌, ◌∙◌, refl, sym, ap, true, false, [], ◌∷◌, ok, arith, all, length, drop,
}
use veilforge.Base.Text.{Text, text_eq_refl, hex_literal, is_hex, is_lower_hex, to_lower, lower}
use veilforge.Hash.Keccak.{keccak_hex}
use veilforge.Proof.Network.{upper, checksum_digits, checksum_of, checksum_address}

lower_lem : (c : ℕ) → lower (lower c) ≡ lower c
lower_lem c = ground arith

lower-upper : (c : ℕ) → is_lower_hex c ≡ true → lower (upper c) ≡ c
lower-upper c h = ground arith

is_hex-upper : (c : ℕ) → is_lower_hex c ≡ true → is_hex (upper c) ≡ true
is_hex-upper c h = ground arith

is_lower_hex-lower : (c : ℕ) → is_hex c ≡ true → is_lower_hex (lower c) ≡ true
is_lower_hex-lower c h = ground arith

all-to_lower : (cs : Text) → all is_hex cs ≡ true → all is_lower_hex (to_lower cs) ≡ true
all-to_lower [] h = refl
all-to_lower (c ∷ cs) h = ground (arith, is_lower_hex-lower c, all-to_lower cs)

to_lower-checksum_digits :
    (cs hash : Text) → all is_lower_hex cs ≡ true → to_lower (checksum_digits cs hash) ≡ cs
unfolding checksum_digits
to_lower-checksum_digits [] hash h = refl
to_lower-checksum_digits (c ∷ cs) [] h = ground (arith, to_lower-checksum_digits cs [])
to_lower-checksum_digits (c ∷ cs) (d ∷ ds) h =
    ground (arith, lower-upper c, to_lower-checksum_digits cs ds)

all-checksum_digits :
    (cs hash : Text) → all is_lower_hex cs ≡ true → all is_hex (checksum_digits cs hash) ≡ true
unfolding checksum_digits
all-checksum_digits [] hash h = refl
all-checksum_digits (c ∷ cs) [] h = ground (arith, all-checksum_digits cs [])
all-checksum_digits (c ∷ cs) (d ∷ ds) h = ground (arith, is_hex-upper c, all-checksum_digits cs ds)

length-checksum_digits : (cs hash : Text) → length (checksum_digits cs hash) ≡ length cs
unfolding checksum_digits
length-checksum_digits [] hash = refl
length-checksum_digits (c ∷ cs) [] = ap suc (length-checksum_digits cs [])
length-checksum_digits (c ∷ cs) (d ∷ ds) = ap suc (length-checksum_digits cs ds)

module _ (digits : Text) (lowered : all is_lower_hex digits ≡ true)
    (forty : length digits ≡ 40) where
  to_lower-checksum_of : to_lower (drop 2 (checksum_of digits)) ≡ digits
  unfolding checksum_of
  to_lower-checksum_of = to_lower-checksum_digits digits _ lowered

  hex_literal-checksum_of : hex_literal is_hex 40 (checksum_of digits) ≡ true
  unfolding checksum_of hex_literal
  hex_literal-checksum_of =
      let ds = drop 2 (keccak_hex digits) in
      ground (arith, all-checksum_digits digits ds lowered, length-checksum_digits digits ds)

  checksum_address-checksum_of :
      all (λ c. c == b'0') digits ≡ false
      → checksum_address (checksum_of digits) ≡ ok (checksum_of digits)
  unfolding checksum_address
  checksum_address-checksum_of nonzero =
      rw to_lower-checksum_of
        (ground (arith, hex_literal-checksum_of, text_eq_refl (checksum_of digits)))

length-to_lower : (cs : Text) → length (to_lower cs) ≡ length cs
length-to_lower [] = refl
length-to_lower (c ∷ cs) = ap suc (length-to_lower cs)

-- What the regular expression says of the digits behind 0x.
hex_digits :
    (address : Text)
    → hex_literal is_hex 40 address ≡ true
    → (all is_hex (drop 2 address) ≡ true) × (length (drop 2 address) ≡ 40)
unfolding hex_literal
hex_digits [] h = cc
hex_digits (a ∷ []) h = cc
hex_digits (a ∷ b ∷ cs) h = (ground arith, ground arith)

accepted :
    (address c : Text)
    → checksum_address address ≡ ok c
    → (hex_literal is_hex 40 address ≡ true)
      × (all (λ d. d == b'0') (to_lower (drop 2 address)) ≡ false)
      × (c ≡ checksum_of (to_lower (drop 2 address)))
unfolding checksum_address
accepted address c h = (ground arith, ground arith, ground arith)

-- An accepted address is given back with the same digits, up to case, in a spelling that is
-- accepted again and is its own checksum spelling.
pub checksum_address_idem :
    (address c : Text)
    → checksum_address address ≡ ok c
    → (to_lower (drop 2 c) ≡ to_lower (drop 2 address)) × (checksum_address c ≡ ok c)
checksum_address_idem address c h =
    let (literal, nonzero, is) = accepted address c h in
    let (hex, forty) = hex_digits address literal in
    let digits = to_lower (drop 2 address) in
    let lowered = all-to_lower (drop 2 address) hex in
    let length_digits = length-to_lower (drop 2 address) ∙ forty in
    rw is (
      to_lower-checksum_of digits lowered length_digits,
      checksum_address-checksum_of digits lowered length_digits nonzero,
    )

-- Two spellings of one address, the case of whose digits may differ, give the same result if both are
-- accepted.
pub checksum_address_unique :
    (a b c d : Text)
    → checksum_address a ≡ ok c
    → checksum_address b ≡ ok d
    → to_lower (drop 2 a) ≡ to_lower (drop 2 b)
    → c ≡ d
checksum_address_unique a b c d h k e =
    (accepted a c h).2 ∙ ap checksum_of e ∙ sym (accepted b d k).2
