-- ===== src/Hash/Sha256/Padding.antt =====
-- The padding of sha256Bytes: the length in its last eight bytes gives the message back.
use veilforge.Base.{
  ℕ, ◌+◌, ◌-◌, ◌*◌, ◌/◌, ◌%◌, ◌^◌, ◌<◌, ◌≤◌, ◌≡◌, ◌∙◌, ap, List, ◌++◌, arith, length, length-append,
  length-replicate, length-set, take, take-set, take-length_append, get_or, get_or-set_self,
  get_or-set_ne, set, replicate,
}
use veilforge.Hash.Sha256.{pad, padded_length, set_word, get_word, modulus_32}

length-set_word : (xs : List ℕ) (i w : ℕ) → length (set_word xs i w) ≡ length xs
length-set_word xs i w = simp length-set

get_word-set_word_self :
    (xs : List ℕ) (i w : ℕ) → i + 3 < length xs → get_word (set_word xs i w) i ≡ w % 2 ^ 32
get_word-set_word_self xs i w h =
    let b0 = w / 2 ^ 24 % 256 in
    let b1 = w / 2 ^ 16 % 256 in
    let b2 = w / 2 ^ 8 % 256 in
    let b3 = w % 256 in
    let x0 = set xs i b0 in
    let x1 = set x0 (i + 1) b1 in
    let x2 = set x1 (i + 2) b2 in
    let l0 : length x0 ≡ length xs = length-set xs i b0 in
    let l1 : length x1 ≡ length xs = length-set x0 (i + 1) b1 ∙ l0 in
    let l2 : length x2 ≡ length xs = length-set x1 (i + 2) b2 ∙ l1 in
    omega (
      arith,
      get_or-set_ne x2 (i + 3) i b3 0 (omega arith)
          ∙ get_or-set_ne x1 (i + 2) i b2 0 (omega arith)
          ∙ get_or-set_ne x0 (i + 1) i b1 0 (omega arith)
          ∙ get_or-set_self xs i b0 0 (omega arith),
      get_or-set_ne x2 (i + 3) (i + 1) b3 0 (omega arith)
          ∙ get_or-set_ne x1 (i + 2) (i + 1) b2 0 (omega arith)
          ∙ get_or-set_self x0 (i + 1) b1 0 (omega (arith, l0)),
      get_or-set_ne x2 (i + 3) (i + 2) b3 0 (omega arith)
          ∙ get_or-set_self x1 (i + 2) b2 0 (omega (arith, l1)),
      get_or-set_self x2 (i + 3) b3 0 (omega (arith, l2)),
    )

get_or-set_word_ne :
    (xs : List ℕ) (i w j : ℕ) → j < i → get_or (set_word xs i w) j 0 ≡ get_or xs j 0
get_or-set_word_ne xs i w j h =
    get_or-set_ne {A = ℕ} _ (i + 3) j _ 0 (omega arith)
    ∙ get_or-set_ne {A = ℕ} _ (i + 2) j _ 0 (omega arith)
    ∙ get_or-set_ne {A = ℕ} _ (i + 1) j _ 0 (omega arith)
    ∙ get_or-set_ne xs i j _ 0 (omega arith)

get_word-set_word_ne :
    (xs : List ℕ) (i w j : ℕ) → j + 3 < i → get_word (set_word xs i w) j ≡ get_word xs j
get_word-set_word_ne xs i w j h = omega (
  arith,
  get_or-set_word_ne xs i w j (omega arith),
  get_or-set_word_ne xs i w (j + 1) (omega arith),
  get_or-set_word_ne xs i w (j + 2) (omega arith),
  get_or-set_word_ne xs i w (j + 3) (omega arith),
)

take-set_word : (n : ℕ) (xs : List ℕ) (i w : ℕ) → n ≤ i → take n (set_word xs i w) ≡ take n xs
take-set_word n xs i w h =
    take-set n _ (i + 3) _ (omega arith)
    ∙ take-set n _ (i + 2) _ (omega arith)
    ∙ take-set n _ (i + 1) _ (omega arith)
    ∙ take-set n xs i _ h

-- As many bytes as the 64-bit number at the end says, counted in bits.
pub unpad : List ℕ → List ℕ
unpad padded =
    let n = length padded in
    take ((get_word padded (n - 8) * 2 ^ 32 + get_word padded (n - 4)) / 8) padded

module _ (source : List ℕ) where
  abbrev size : ℕ
  size = padded_length (length source)

  abbrev bits : ℕ
  bits = length source * 8

  -- Before the two writes of the number of bits.
  abbrev marked : List ℕ
  marked = set (source ++ replicate (size - length source) 0) (length source) 0x80

  abbrev high_set : List ℕ
  high_set = set_word marked (size - 8) (bits / 2 ^ 32)

  length-marked : length marked ≡ size
  length-marked =
      let zeros = replicate {A = ℕ} (size - length source) 0 in
      omega (
        arith,
        length-set (source ++ zeros) (length source) 0x80,
        length-append source zeros,
        length-replicate {A = ℕ} (size - length source) 0,
      )

  length-high_set : length high_set ≡ size
  length-high_set = length-set_word marked (size - 8) (bits / 2 ^ 32) ∙ length-marked

  length-pad : length (pad source) ≡ size
  unfolding pad
  length-pad = length-set_word high_set (size - 4) (bits % modulus_32) ∙ length-high_set

  low_word : get_word (pad source) (size - 4) ≡ bits % 2 ^ 32
  unfolding pad
  low_word =
      get_word-set_word_self high_set (size - 4) (bits % modulus_32)
        (omega (arith, length-high_set))
      ∙ omega arith

  high_word : bits < 2 ^ 64 → get_word (pad source) (size - 8) ≡ bits / 2 ^ 32
  unfolding pad
  high_word h =
      get_word-set_word_ne high_set (size - 4) (bits % modulus_32) (size - 8) (omega arith)
      ∙ get_word-set_word_self marked (size - 8) (bits / 2 ^ 32) (omega (arith, length-marked))
      ∙ omega arith

  take-pad : take (length source) (pad source) ≡ source
  unfolding pad
  take-pad =
      take-set_word (length source) high_set (size - 4) (bits % modulus_32) (omega arith)
      ∙ take-set_word (length source) marked (size - 8) (bits / 2 ^ 32) (omega arith)
      ∙ take-set (length source) _ (length source) 0x80 (omega arith)
      ∙ take-length_append source _

-- Padding loses nothing as long as the number of bits fits 64 bits, and fills whole blocks.
pub unpad-pad_sha :
    (source : List ℕ)
    → length source * 8 < 2 ^ 64
    → (unpad (pad source) ≡ source) × (length (pad source) % 64 ≡ 0)
unfolding unpad
unpad-pad_sha source h = (
  rw (length-pad source) (
      ap (λ k. take k (pad source)) (omega (arith, low_word source, high_word source h))
      ∙ take-pad source),
  rw (length-pad source) (omega arith),
)
