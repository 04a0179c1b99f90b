-- ===== src/Hash/Keccak/Padding.antt =====
-- The padding of keccak256Bytes: a message can be read off its padded form.
use Prim.Native.Nat.{bit_or}
use veilforge.Base.{
  ℕ, zero, suc, ◌+◌, ◌-◌, ◌%◌, ◌<◌, ◌≡◌, ◌∙◌, refl, ap, Bool, true, false, ◌&&◌, List, [], ◌∷◌,
  ◌++◌, arith, length, length-append, length-replicate, get_or, get_or-append, set, set-append,
  replicate, ◌==◌, if◌then◌else◌,
}
use veilforge.Hash.Keccak.{pad, padded_length}

-- Zeros, and 0x80 at the end.
closes : List ℕ → Bool
closes [] = false
closes (x ∷ []) = x == 0x80
closes (x ∷ y ∷ r) = x == 0 && closes (y ∷ r)

-- What stands behind the message: 0x01, zeros and 0x80, or the one byte 0x81.
is_padding : List ℕ → Bool
unfolding closes
is_padding [] = false
is_padding (x ∷ []) = x == 0x81
is_padding (x ∷ y ∷ r) = x == 1 && closes (y ∷ r)

-- The message before the first place from which all is padding.
pub unpad : List ℕ → List ℕ
unfolding is_padding
unpad [] = []
unpad (x ∷ xs) = let rest = unpad xs in if is_padding (x ∷ xs) then [] else x ∷ rest

-- The two last writes of `pad`, on what stands behind the message.
abbrev mark : ℕ → List ℕ
mark k = let t = 1 ∷ replicate k 0 in set t k (bit_or (get_or t k 0) 0x80)

abbrev pad_tail : ℕ → List ℕ
pad_tail zero = 0x81 ∷ []
pad_tail (suc k) = 1 ∷ replicate k 0 ++ 0x80 ∷ []

mark_zeros :
    (k : ℕ)
    → set (replicate (suc k) 0) k (bit_or (get_or (replicate (suc k) 0) k 0) 0x80)
      ≡ replicate k 0 ++ 0x80 ∷ []
mark_zeros zero = refl
mark_zeros (suc k) = ap (λ t. 0 ∷ t) (mark_zeros k)

mark-eq-pad_tail : (k : ℕ) → mark k ≡ pad_tail k
mark-eq-pad_tail zero = refl
mark-eq-pad_tail (suc k) = ap (λ t. 1 ∷ t) (mark_zeros k)

abbrev filler : List ℕ → ℕ
filler bytes = padded_length (length bytes) - length bytes - 1

-- The writes of `pad`, where n is the padded length and k + 1 bytes are to be filled.
pad_from :
    (bytes : List ℕ) (n k : ℕ)
    → n - length bytes ≡ suc k
    → let marked = set (bytes ++ replicate (n - length bytes) 0) (length bytes) 1 in
      set marked (n - 1) (bit_or (get_or marked (n - 1) 0) 0x80) ≡ bytes ++ pad_tail k
pad_from bytes n k room =
    let last : n - 1 ≡ length bytes + k = omega arith in
    let here : length bytes ≡ length bytes + 0 = omega arith in
    let marked : set (bytes ++ replicate (suc k) 0) (length bytes) 1 ≡ bytes ++ 1 ∷ replicate k 0 =
      ap (λ i. set (bytes ++ replicate (suc k) 0) i 1) here
      ∙ set-append bytes (replicate (suc k) 0) 0 1 in
    rw (room, last, marked)
      (rw (get_or-append, set-append) (ap (λ t. bytes ++ t) (mark-eq-pad_tail k)))

pub pad_lem : (bytes : List ℕ) → pad bytes ≡ bytes ++ pad_tail (filler bytes)
unfolding pad
pad_lem bytes = pad_from bytes (padded_length (length bytes)) (filler bytes) (omega arith)

closes_zeros : (k : ℕ) → closes (replicate k 0 ++ 0x80 ∷ []) ≡ true
unfolding closes
closes_zeros zero = refl
closes_zeros (suc zero) = refl
closes_zeros (suc (suc k)) = closes_zeros (suc k)

is_padding-pad_tail : (k : ℕ) → is_padding (pad_tail k) ≡ true
unfolding is_padding
is_padding-pad_tail zero = refl
is_padding-pad_tail (suc zero) = refl
is_padding-pad_tail (suc (suc k)) = closes_zeros (suc k)

-- A byte of the message before the tail is never taken for padding.
closes_before : (xs : List ℕ) (k : ℕ) → closes (xs ++ pad_tail k) ≡ false
unfolding closes
closes_before [] zero = refl
closes_before [] (suc zero) = refl
closes_before [] (suc (suc k)) = refl
closes_before (x ∷ []) zero = ground arith
closes_before (x ∷ []) (suc k) = ground (arith, closes_before [] (suc k))
closes_before (x ∷ y ∷ xs) k = ground (arith, closes_before (y ∷ xs) k)

is_padding_before : (x : ℕ) (xs : List ℕ) (k : ℕ) → is_padding (x ∷ xs ++ pad_tail k) ≡ false
unfolding is_padding
is_padding_before x [] zero = ground (arith, closes_before [] zero)
is_padding_before x [] (suc k) = ground (arith, closes_before [] (suc k))
is_padding_before x (y ∷ xs) k = ground (arith, closes_before (y ∷ xs) k)

unpad-pad_tail : (k : ℕ) → unpad (pad_tail k) ≡ []
unfolding unpad
unpad-pad_tail zero = refl
unpad-pad_tail (suc k) = rw (is_padding-pad_tail (suc k))

unpad-append : (xs : List ℕ) (k : ℕ) → unpad (xs ++ pad_tail k) ≡ xs
unfolding unpad
unpad-append [] k = unpad-pad_tail k
unpad-append (x ∷ xs) k = rw (is_padding_before x xs k) (ap (λ t. x ∷ t) (unpad-append xs k))

length-pad_tail : (k : ℕ) → length (pad_tail k) ≡ suc k
length-pad_tail zero = refl
length-pad_tail (suc k) =
    omega (
      arith,
      length-append {0} (replicate {A = ℕ} k 0) (0x80 ∷ []),
      length-replicate {0} {A = ℕ} k 0,
    )

length-pad : (bytes : List ℕ) → length (pad bytes) ≡ padded_length (length bytes)
length-pad bytes = rw pad_lem (
    omega
      (arith, length-append {0} bytes (pad_tail (filler bytes)), length-pad_tail (filler bytes)))

-- Padding loses nothing: the message is read off the padded one, which fills whole blocks and is
-- longer.
pub unpad-pad :
    (bytes : List ℕ)
    → (unpad (pad bytes) ≡ bytes)
      × (length (pad bytes) % 136 ≡ 0)
      × (length bytes < length (pad bytes))
unpad-pad bytes = (
  rw pad_lem (unpad-append bytes (filler bytes)),
  rw length-pad (omega arith),
  rw length-pad (omega arith),
)
