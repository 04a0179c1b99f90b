-- ===== src/Proof/Registry/Hex.antt =====
-- Texts of hexadecimal digits, as the encoding of a call is made of them.
use veilforge.Base.{
  ℕ, zero, suc, ◌-◌, ◌/◌, ◌%◌, ◌<◌, ◌≤◌, ◌==◌, ◌≡◌, refl, sym, Bool, true, List, [], ◌∷◌, ◌++◌, ok,
  err, arith, ltb, all, length, replicate, if◌then◌else◌, All, length-append, length-replicate,
  ok-injective, Bool-cases, inl, inr,
}
use veilforge.Base.Text.{Text, is_hex, is_lower_hex}
use veilforge.Hash.Keccak.{bytes_to_hex, hex_digit}
use veilforge.Hash.Keccak.Bounds.{IsByte}
use veilforge.Proof.Registry.{
  word_too_long, to_hex_fuel, to_hex, pad_word, pad_right_to_word, strip_hex_prefix,
}

pub all-append :
    (p : ℕ → Bool) (s t : Text) → all p s ≡ true → all p t ≡ true → all p (s ++ t) ≡ true
all-append p [] t h k = k
all-append p (c ∷ s) t h k = ground (arith, all-append p s t)

pub all-replicate : (p : ℕ → Bool) (n c : ℕ) → p c ≡ true → all p (replicate n c) ≡ true
all-replicate p zero c h = refl
all-replicate p (suc n) c h = ground (arith, all-replicate p n c)

is_lower_hex-hex_digit : (n : ℕ) → n < 16 → is_lower_hex (hex_digit n) ≡ true
is_lower_hex-hex_digit n h = ground arith

all-to_hex_fuel : (fuel n : ℕ) → all is_lower_hex (to_hex_fuel fuel n) ≡ true
unfolding to_hex_fuel
all-to_hex_fuel zero n =
    let digit = is_lower_hex-hex_digit (n % 16) (omega arith) in ground (arith, digit)
all-to_hex_fuel (suc fuel) n = elim (Bool-cases (ltb n 16)) [
  | inl small ↦ ground (arith, is_lower_hex-hex_digit n)
  | inr large ↦ rw large (
      all-append is_lower_hex (to_hex_fuel fuel (n / 16)) (hex_digit (n % 16) ∷ [])
        (all-to_hex_fuel fuel (n / 16))
        (let digit = is_lower_hex-hex_digit (n % 16) (omega arith) in ground (arith, digit)))
]

pub all-to_hex : (n : ℕ) → all is_lower_hex (to_hex n) ≡ true
unfolding to_hex
all-to_hex n = all-to_hex_fuel n n

-- A text of digits has no prefix.
pub strip_hex_prefix-hex : (t : Text) → all is_lower_hex t ≡ true → strip_hex_prefix t ≡ t
strip_hex_prefix-hex [] h = refl
strip_hex_prefix-hex (a ∷ []) h = refl
strip_hex_prefix-hex (a ∷ b ∷ t) h = ground arith

-- A word of digits: 64 of them.
pub record IsHexWord (w : Text) : Type 0 where
  pub wide : length w ≡ 64
  pub digits : all is_lower_hex w ≡ true

pad_word-hex :
    (t : Text)
    → all is_lower_hex t ≡ true
    → pad_word t
      ≡ (if ltb 64 (length t) then err word_too_long else ok (replicate (64 - length t) b'0' ++ t))
unfolding pad_word
pad_word-hex t h = rw (strip_hex_prefix-hex t h) refl

padded-IsHexWord :
    (t : Text)
    → all is_lower_hex t ≡ true
    → length t ≤ 64
    → IsHexWord (replicate (64 - length t) b'0' ++ t)
padded-IsHexWord t h short = record {
  wide = omega (
    arith,
    length-append {0} (replicate (64 - length t) b'0') t,
    length-replicate {A = ℕ} (64 - length t) b'0',
  );
  digits =
      all-append is_lower_hex (replicate (64 - length t) b'0') t
        (all-replicate is_lower_hex (64 - length t) b'0' refl) h;
}

-- A text of digits that fits is filled up with zeros on the left.
pub pad_word_lem :
    (t w : Text)
    → all is_lower_hex t ≡ true
    → pad_word t ≡ ok w
    → (w ≡ replicate (64 - length t) b'0' ++ t) × IsHexWord w
pad_word_lem t w h e = elim (Bool-cases (ltb 64 (length t))) [
  | inl long ↦ absurd (cc (rw (pad_word-hex t h, long) at e))
  | inr fits ↦
      let same : ok (replicate (64 - length t) b'0' ++ t) ≡ ok w =
        rw (pad_word-hex t h, fits) at e in
      let is = sym (ok-injective same) in (is, rw is (padded-IsHexWord t h (ground arith)))
]

pub all-bytes_to_hex : (bs : List ℕ) → All IsByte bs → all is_lower_hex (bytes_to_hex bs) ≡ true
unfolding bytes_to_hex
all-bytes_to_hex [] h = refl
all-bytes_to_hex (b ∷ bs) (p, h) =
    let high = is_lower_hex-hex_digit (b / 16) (omega arith) in
    let low = is_lower_hex-hex_digit (b % 16) (omega arith) in ground (arith, all-bytes_to_hex bs h)

pub all-pad_right_to_word :
    (t : Text) → all is_lower_hex t ≡ true → all is_lower_hex (pad_right_to_word t) ≡ true
unfolding pad_right_to_word
all-pad_right_to_word t h = elim (Bool-cases (length t % 64 == 0)) [
  | inl full ↦ rw full h
  | inr short ↦ rw short (
      all-append is_lower_hex t (replicate (64 - length t % 64) b'0') h
        (all-replicate is_lower_hex (64 - length t % 64) b'0' refl))
]

pub is_hex-of_lower : (t : Text) → all is_lower_hex t ≡ true → all is_hex t ≡ true
is_hex-of_lower [] h = refl
is_hex-of_lower (c ∷ t) h = ground (arith, is_hex-of_lower t)
