-- ===== src/Hash/Sha256.antt =====
-- apps/web/v4/runtime/browser/sha256.js: SHA-256 of the browser runtime. A word is its unsigned
-- value. The signed results of `|`, `^`, `&` and `<<` are taken by their bit patterns: every one of
-- them is added and cut to 32 bits by `>>> 0`, which depends on the pattern alone.
pub mod Padding
use Prim.Native.Nat.{bit_and, bit_or, bit_xor}
use mathlib.Core.List.{foldl}
use veilforge.Base.{
  ℕ, zero, suc, ◌+◌, ◌-◌, ◌*◌, ◌/◌, ◌%◌, ◌^◌, List, [], ◌∷◌, ◌++◌, map, length, get_or, take, drop,
  replicate, set, range, range_from,
}
use veilforge.Base.Text.{Text}
use veilforge.Hash.Keccak.{bytes_to_hex}

abbrev pub modulus_32 : ℕ
modulus_32 = 2 ^ 32

-- `ROUND`
abbrev pub round_words : List ℕ
round_words =
    0x428a2f98 ∷ 0x71374491 ∷ 0xb5c0fbcf ∷ 0xe9b5dba5 ∷ 0x3956c25b ∷ 0x59f111f1 ∷ 0x923f82a4
    ∷ 0xab1c5ed5 ∷ 0xd807aa98 ∷ 0x12835b01 ∷ 0x243185be ∷ 0x550c7dc3 ∷ 0x72be5d74 ∷ 0x80deb1fe
    ∷ 0x9bdc06a7 ∷ 0xc19bf174 ∷ 0xe49b69c1 ∷ 0xefbe4786 ∷ 0x0fc19dc6 ∷ 0x240ca1cc ∷ 0x2de92c6f
    ∷ 0x4a7484aa ∷ 0x5cb0a9dc ∷ 0x76f988da ∷ 0x983e5152 ∷ 0xa831c66d ∷ 0xb00327c8 ∷ 0xbf597fc7
    ∷ 0xc6e00bf3 ∷ 0xd5a79147 ∷ 0x06ca6351 ∷ 0x14292967 ∷ 0x27b70a85 ∷ 0x2e1b2138 ∷ 0x4d2c6dfc
    ∷ 0x53380d13 ∷ 0x650a7354 ∷ 0x766a0abb ∷ 0x81c2c92e ∷ 0x92722c85 ∷ 0xa2bfe8a1 ∷ 0xa81a664b
    ∷ 0xc24b8b70 ∷ 0xc76c51a3 ∷ 0xd192e819 ∷ 0xd6990624 ∷ 0xf40e3585 ∷ 0x106aa070 ∷ 0x19a4c116
    ∷ 0x1e376c08 ∷ 0x2748774c ∷ 0x34b0bcb5 ∷ 0x391c0cb3 ∷ 0x4ed8aa4a ∷ 0x5b9cca4f ∷ 0x682e6ff3
    ∷ 0x748f82ee ∷ 0x78a5636f ∷ 0x84c87814 ∷ 0x8cc70208 ∷ 0x90befffa ∷ 0xa4506ceb ∷ 0xbef9a3f7
    ∷ 0xc67178f2 ∷ []

-- `INITIAL`
abbrev pub initial : List ℕ
initial =
    0x6a09e667 ∷ 0xbb67ae85 ∷ 0x3c6ef372 ∷ 0xa54ff53a ∷ 0x510e527f ∷ 0x9b05688c ∷ 0x1f83d9ab
    ∷ 0x5be0cd19 ∷ []

-- `value >>> bits | value << (32 - bits)`, as a bit pattern
rotate : ℕ → ℕ → ℕ
rotate value bits = bit_or (value / 2 ^ bits) (value * 2 ^ (32 - bits) % modulus_32)

-- `setUint32`: four bytes, the highest first, of the value modulo 2 ^ 32.
abbrev pub word_bytes : ℕ → List ℕ
word_bytes w = w / 2 ^ 24 % 256 ∷ w / 2 ^ 16 % 256 ∷ w / 2 ^ 8 % 256 ∷ w % 256 ∷ []

-- `setUint32(offset, w)` of a buffer.
abbrev set_word : List ℕ → ℕ → ℕ → List ℕ
set_word bytes i w =
    set
      (set (set (set bytes i (w / 2 ^ 24 % 256)) (i + 1) (w / 2 ^ 16 % 256)) (i + 2)
        (w / 2 ^ 8 % 256))
      (i + 3) (w % 256)

-- `getUint32(offset)`
abbrev get_word : List ℕ → ℕ → ℕ
get_word bytes i =
    get_or bytes i 0 * 2 ^ 24
    + get_or bytes (i + 1) 0 * 2 ^ 16
    + get_or bytes (i + 2) 0 * 2 ^ 8
    + get_or bytes (i + 3) 0

-- `Math.ceil((n + 9) / 64) * 64`
abbrev pub padded_length : ℕ → ℕ
padded_length n = (n + 9 + 63) / 64 * 64

-- The message, 0x80, zeros, and the number of its bits in the last eight bytes.
unfoldable pub pad : List ℕ → List ℕ
pad source =
    let n = padded_length (length source) in
    let marked = set (source ++ replicate (n - length source) 0) (length source) 0x80 in
    let bits = length source * 8 in
    set_word (set_word marked (n - 8) (bits / 2 ^ 32)) (n - 4) (bits % modulus_32)

-- One of the words 16 to 63, from the words before it.
next_word : List ℕ → ℕ → List ℕ
unfolding rotate
next_word words i =
    let left = get_or words (i - 15) 0 in
    let right = get_or words (i - 2) 0 in
    let sigma0 = bit_xor (bit_xor (rotate left 7) (rotate left 18)) (left / 2 ^ 3) in
    let sigma1 = bit_xor (bit_xor (rotate right 17) (rotate right 19)) (right / 2 ^ 10) in
    words ++ (get_or words (i - 16) 0 + sigma0 + get_or words (i - 7) 0 + sigma1) % modulus_32 ∷ []

-- `words` of the block at the head of the bytes.
schedule : List ℕ → List ℕ
unfolding next_word
schedule block = foldl next_word (map (λ i. get_word block (i * 4)) (range 16)) (range_from 16 48)

-- The variables a to h.
pub record Vars : Type 0 where
  pub a : ℕ
  pub b : ℕ
  pub c : ℕ
  pub d : ℕ
  pub e : ℕ
  pub f : ℕ
  pub g : ℕ
  pub h : ℕ

-- One of the 64 rounds. `~e & g` is `&` with the complement in 32 bits.
sha_round : List ℕ → Vars → ℕ → Vars
unfolding rotate
sha_round words v i =
    let sum1 = bit_xor (bit_xor (rotate v.e 6) (rotate v.e 11)) (rotate v.e 25) in
    let choose = bit_xor (bit_and v.e v.f) (bit_and (modulus_32 - 1 - v.e) v.g) in
    let temporary1 =
      (v.h + sum1 + choose + get_or round_words i 0 + get_or words i 0) % modulus_32 in
    let sum0 = bit_xor (bit_xor (rotate v.a 2) (rotate v.a 13)) (rotate v.a 22) in
    let majority = bit_xor (bit_xor (bit_and v.a v.b) (bit_and v.a v.c)) (bit_and v.b v.c) in
    let temporary2 = (sum0 + majority) % modulus_32 in
    record {
      a = (temporary1 + temporary2) % modulus_32;
      b = v.a;
      c = v.b;
      d = v.c;
      e = (v.d + temporary1) % modulus_32;
      f = v.e;
      g = v.f;
      h = v.g;
    }

add_32 : ℕ → ℕ → ℕ
add_32 x y = (x + y) % modulus_32

abbrev word : List ℕ → ℕ → ℕ
word hash i = get_or hash i 0

-- The rounds on one block, and the addition to `hash`.
pub compress : List ℕ → List ℕ → List ℕ
unfolding schedule sha_round add_32
compress hash block =
    let start : Vars = record {
      a = word hash 0;
      b = word hash 1;
      c = word hash 2;
      d = word hash 3;
      e = word hash 4;
      f = word hash 5;
      g = word hash 6;
      h = word hash 7;
    } in
    let v = foldl (sha_round (schedule block)) start (range 64) in
    add_32 (word hash 0) v.a
    ∷ add_32 (word hash 1) v.b
    ∷ add_32 (word hash 2) v.c
    ∷ add_32 (word hash 3) v.d
    ∷ add_32 (word hash 4) v.e
    ∷ add_32 (word hash 5) v.f
    ∷ add_32 (word hash 6) v.g
    ∷ add_32 (word hash 7) v.h
    ∷ []

-- The loop over the blocks, of which as many are left as the first number says.
pub digest_blocks : ℕ → List ℕ → List ℕ → List ℕ
unfolding compress
digest_blocks zero bytes hash = hash
digest_blocks (suc blocks) bytes hash =
    digest_blocks blocks (drop 64 bytes) (compress hash (take 64 bytes))

abbrev words_bytes : List ℕ → List ℕ
words_bytes [] = []
words_bytes (w ∷ ws) = word_bytes w ++ words_bytes ws

unfoldable pub sha_256_bytes : List ℕ → List ℕ
unfolding pad digest_blocks
sha_256_bytes source =
    let padded = pad source in words_bytes (digest_blocks (length padded / 64) padded initial)

unfoldable pub hex_sha_256 : List ℕ → Text
unfolding sha_256_bytes bytes_to_hex
hex_sha_256 input = bytes_to_hex (sha_256_bytes input)
