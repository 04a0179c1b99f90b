-- ===== src/Hash/Keccak.antt =====
-- packages/analyzer/src/keccak.js: Keccak-256 over lanes of 64 bits. A `BigInt` is a natural
-- number; `& MASK_64` is the remainder by 2 ^ 64. An array is a list, and a loop over an index is a
-- `map` or a fold over the list of its indices.
pub mod Bounds
pub mod Padding
use Prim.Native.Nat.{bit_and, bit_or, bit_xor}
use mathlib.Core.List.{foldl}
use veilforge.Base.{
  ℕ, zero, suc, ◌+◌, ◌-◌, ◌*◌, ◌/◌, ◌%◌, ◌^◌, List, [], ◌∷◌, ◌++◌, map, length, get_or, take, drop,
  replicate, set, ◌==◌, if◌then◌else◌, range, ltb,
}
use veilforge.Base.Text.{Text, codes}

abbrev pub modulus_64 : ℕ
modulus_64 = 2 ^ 64

abbrev pub rate_bytes : ℕ
rate_bytes = 136

abbrev pub State : Type 0
State = List ℕ

-- `ROTATION`
abbrev pub rotation : List ℕ
rotation =
    0 ∷ 1 ∷ 62 ∷ 28 ∷ 27 ∷ 36 ∷ 44 ∷ 6 ∷ 55 ∷ 20 ∷ 3 ∷ 10 ∷ 43 ∷ 25 ∷ 39 ∷ 41 ∷ 45 ∷ 15 ∷ 21 ∷ 8
    ∷ 18 ∷ 2 ∷ 61 ∷ 56 ∷ 14 ∷ []

-- `ROUND_CONSTANTS`
abbrev pub round_constants : List ℕ
round_constants =
    0x0000000000000001 ∷ 0x0000000000008082 ∷ 0x800000000000808a ∷ 0x8000000080008000
    ∷ 0x000000000000808b ∷ 0x0000000080000001 ∷ 0x8000000080008081 ∷ 0x8000000000008009
    ∷ 0x000000000000008a ∷ 0x0000000000000088 ∷ 0x0000000080008009 ∷ 0x000000008000000a
    ∷ 0x000000008000808b ∷ 0x800000000000008b ∷ 0x8000000000008089 ∷ 0x8000000000008003
    ∷ 0x8000000000008002 ∷ 0x8000000000000080 ∷ 0x000000000000800a ∷ 0x800000008000000a
    ∷ 0x8000000080008081 ∷ 0x8000000000008080 ∷ 0x0000000080000001 ∷ 0x8000000080008008 ∷ []

-- The indices of a loop from 0 to 4, and `x + 5 * y` in the order of the nested loops.
abbrev pub five : List ℕ
five = range 5

abbrev pub twenty_five : List ℕ
twenty_five = range 25

-- `value << shift | value >> (64 - shift)`, within 64 bits
unfoldable pub rotate_left_64 : ℕ → ℕ → ℕ
rotate_left_64 value shift =
    if shift == 0
    then value % modulus_64
    else bit_or (value * 2 ^ shift) (value / 2 ^ (64 - shift)) % modulus_64

abbrev pub lane : State → ℕ → ℕ
lane s i = get_or s i 0

-- The columns' parities `c`.
column_parity : State → List ℕ
column_parity s =
    map
      (λ x.
        bit_xor
          (bit_xor (bit_xor (bit_xor (lane s x) (lane s (x + 5))) (lane s (x + 10)))
            (lane s (x + 15)))
          (lane s (x + 20)))
      five

-- `d`
column_mix : List ℕ → List ℕ
column_mix c =
    map (λ x. bit_xor (lane c ((x + 4) % 5)) (rotate_left_64 (lane c ((x + 1) % 5)) 1)) five

abbrev pub theta_lane : State → List ℕ → ℕ → ℕ
theta_lane s d i = bit_xor (lane s i) (lane d (i % 5)) % modulus_64

-- The first double loop: `state[x + 5 * y] ^= d[x]`.
unfoldable pub theta : State → State
unfolding column_parity column_mix
theta s = map (theta_lane s (column_mix (column_parity s))) twenty_five

-- Where the second double loop writes the lane that it reads at `i = x + 5 * y`.
pub pi_target : ℕ → ℕ
pi_target i = let x = i % 5 in let y = i / 5 in y + 5 * ((2 * x + 3 * y) % 5)

-- The second double loop: it fills `b`, which begins with zeros.
pub rho_pi : State → State
unfolding pi_target rotate_left_64
rho_pi s =
    foldl (λ b i. set b (pi_target i) (rotate_left_64 (lane s i) (get_or rotation i 0)))
      (replicate 25 0) twenty_five

abbrev pub chi_lane : State → ℕ → ℕ
chi_lane b i =
    let row = 5 * (i / 5) in
    bit_xor (lane b i)
      (bit_and (modulus_64 - 1 - lane b ((i % 5 + 1) % 5 + row)) (lane b ((i % 5 + 2) % 5 + row)))
    % modulus_64

-- The third: `~b & c` of lanes is `&` with the complement in 64 bits, as the result is masked.
pub chi : State → State
chi b = map (chi_lane b) twenty_five

abbrev iota : ℕ → State → State
iota rc s = set s 0 (bit_xor (lane s 0) rc % modulus_64)

-- One round.
pub round : State → ℕ → State
unfolding theta rho_pi chi
round s rc = iota rc (chi (rho_pi (theta s)))

pub permutation : State → State
unfolding round
permutation s = foldl round s round_constants

-- `Math.ceil((n + 1) / RATE_BYTES) * RATE_BYTES`
abbrev pub padded_length : ℕ → ℕ
padded_length n = (n + 1 + (rate_bytes - 1)) / rate_bytes * rate_bytes

-- The message, zeros up to the padded length, 0x01 behind the message and 0x80 in the last byte.
unfoldable pub pad : List ℕ → List ℕ
pad bytes =
    let n = padded_length (length bytes) in
    let blank = bytes ++ replicate (n - length bytes) 0 in
    let marked = set blank (length bytes) 1 in
    set marked (n - 1) (bit_or (get_or marked (n - 1) 0) 0x80)

-- `state[i / 8] ^= byte << (i % 8) * 8`, for each byte of a block.
pub absorb_bytes : ℕ → List ℕ → State → State
absorb_bytes i [] s = s
absorb_bytes i (byte ∷ bytes) s =
    absorb_bytes (i + 1) bytes (set s (i / 8) (bit_xor (lane s (i / 8)) (byte * 2 ^ (i % 8 * 8))))

-- The loop over the blocks, of which as many are left as the first number says.
pub absorb : ℕ → List ℕ → State → State
unfolding absorb_bytes permutation
absorb zero bytes s = s
absorb (suc blocks) bytes s =
    absorb blocks (drop rate_bytes bytes) (permutation (absorb_bytes 0 (take rate_bytes bytes) s))

-- `Number((state[i / 8] >> (i % 8) * 8) & 0xff)`, 32 times
pub squeeze : State → List ℕ
squeeze s = map (λ i. lane s (i / 8) / 2 ^ (i % 8 * 8) % 256) (range 32)

unfoldable pub keccak_256_bytes : List ℕ → List ℕ
unfolding pad absorb squeeze
keccak_256_bytes bytes =
    let padded = pad bytes in squeeze (absorb (length padded / rate_bytes) padded (replicate 25 0))

abbrev pub hex_digit : ℕ → ℕ
hex_digit n = if ltb n 10 then b'0' + n else b'a' + (n - 10)

-- `toString(16).padStart(2, '0')` of each byte
unfoldable pub bytes_to_hex : List ℕ → Text
bytes_to_hex [] = []
bytes_to_hex (b ∷ bs) = hex_digit (b / 16) ∷ hex_digit (b % 16) ∷ bytes_to_hex bs

unfoldable pub keccak_hex : List ℕ → Text
unfolding keccak_256_bytes bytes_to_hex
keccak_hex bytes = codes "0x" ++ bytes_to_hex (keccak_256_bytes bytes)

unfoldable pub function_selector : List ℕ → Text
unfolding keccak_256_bytes bytes_to_hex
function_selector signature = codes "0x" ++ bytes_to_hex (take 4 (keccak_256_bytes signature))
