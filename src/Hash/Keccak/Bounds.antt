-- ===== src/Hash/Keccak/Bounds.antt =====
-- The sponge keeps 25 lanes of 64 bits, and a rotation loses nothing.
use Prim.Native.Nat.{bit_or, bit_xor}
use mathlib.Core.List.{foldl}
use native.Mathlib.Nat.{
  mod-lt, pow-suc, zero-add, suc-add, div-add-mod, mul-add-mod_self_left, mul-add-mod_self_right,
  mul-add-div_right, div-eq_of_lt, div-add-mod', mod-eq_of_lt, div-lt_iff_lt-mul,
}
use veilforge.Base.{
  ℕ, zero, suc, ◌+◌, ◌-◌, ◌*◌, ◌/◌, ◌%◌, ◌^◌, ◌<◌, ◌≤◌, ◌≡◌, ◌∙◌, refl, sym, ap, List, [], ◌∷◌,
  arith, length, get_or, set, All, All-map, All-set, All-get_or, All-replicate, All-take, All-drop,
  length-set, take, drop, replicate,
}
use veilforge.Base.Bits.{bit_or_fields, bit_xor-lt_pow}
use veilforge.Hash.Keccak.{
  State, modulus_64, rotate_left_64, theta, rho_pi, chi, round, round_constants, permutation,
  absorb_bytes, absorb, pi_target, rotation, rate_bytes, chi_lane, twenty_five, lane,
}

abbrev pub IsLane : ℕ → Type 0
IsLane x = x < 2 ^ 64

abbrev pub IsByte : ℕ → Type 0
IsByte x = x < 256

-- A state of the sponge: 25 lanes of 64 bits.
pub record IsState (s : State) : Type 0 where
  pub lanes : length s ≡ 25
  pub words : All IsLane s

IsLane-of_mod : (x : ℕ) → IsLane (x % modulus_64)
IsLane-of_mod x = omega arith

chi-IsState : (s : State) → IsState (chi s)
unfolding chi
chi-IsState s = record {
  lanes = refl;
  words = All-map IsLane (chi_lane s) twenty_five (λ i. IsLane-of_mod _);
}

rotate_left_64-IsLane : (x n : ℕ) → IsLane (rotate_left_64 x n)
unfolding rotate_left_64
rotate_left_64-IsLane x n = ground (arith, IsLane-of_mod x)

module _ (s : State) where
  fill-IsState :
      (b : State) (is : List ℕ)
      → IsState b
      → IsState (
          foldl
            (λ b i. set b (pi_target i) (rotate_left_64 (get_or s i 0) (get_or rotation i 0)))
            b
            is)
  fill-IsState b [] h = h
  fill-IsState b (i ∷ is) h =
      let v = rotate_left_64 (get_or s i 0) (get_or rotation i 0) in
      fill-IsState (set b (pi_target i) v) is (record {
        lanes = length-set b (pi_target i) v ∙ h.lanes;
        words = All-set IsLane b (pi_target i) v h.words (rotate_left_64-IsLane _ _);
      })

rho_pi-IsState : (s : State) → IsState (rho_pi s)
unfolding rho_pi
rho_pi-IsState s =
    fill-IsState s (replicate 25 0) twenty_five
      (record { lanes = refl; words = All-replicate IsLane 25 0 (omega arith) })

round-IsState : (s : State) (rc : ℕ) → IsState (round s rc)
unfolding round
round-IsState s rc =
    let b = chi (rho_pi (theta s)) in
    let v = bit_xor (lane b 0) rc % modulus_64 in
    let h = chi-IsState (rho_pi (theta s)) in
    record {
      lanes = length-set b 0 v ∙ h.lanes;
      words = All-set IsLane b 0 v h.words (IsLane-of_mod _);
    }

rounds-IsState : (s : State) (rcs : List ℕ) → IsState s → IsState (foldl round s rcs)
rounds-IsState s [] h = h
rounds-IsState s (rc ∷ rcs) h = rounds-IsState (round s rc) rcs (round-IsState s rc)

permutation-IsState : (s : State) → IsState s → IsState (permutation s)
unfolding permutation
permutation-IsState s h = rounds-IsState s round_constants h

shifted-lt : (byte j : ℕ) → byte < 256 → j < 8 → byte * 2 ^ (j * 8) < 2 ^ 64
shifted-lt byte zero p q = omega arith
shifted-lt byte (suc zero) p q = omega arith
shifted-lt byte (suc (suc zero)) p q = omega arith
shifted-lt byte (suc (suc (suc zero))) p q = omega arith
shifted-lt byte (suc (suc (suc (suc zero)))) p q = omega arith
shifted-lt byte (suc (suc (suc (suc (suc zero))))) p q = omega arith
shifted-lt byte (suc (suc (suc (suc (suc (suc zero)))))) p q = omega arith
shifted-lt byte (suc (suc (suc (suc (suc (suc (suc zero))))))) p q = omega arith
shifted-lt byte (suc (suc (suc (suc (suc (suc (suc (suc j)))))))) p q = absurd (omega arith)

absorb_bytes-IsState :
    (i : ℕ) (bytes : List ℕ) (s : State)
    → All IsByte bytes
    → IsState s
    → IsState (absorb_bytes i bytes s)
unfolding absorb_bytes
absorb_bytes-IsState i [] s b h = h
absorb_bytes-IsState i (byte ∷ bytes) s (p, b) h =
    let v = bit_xor (lane s (i / 8)) (byte * 2 ^ (i % 8 * 8)) in
    let v-IsLane =
      bit_xor-lt_pow 64 (lane s (i / 8)) (byte * 2 ^ (i % 8 * 8))
        (All-get_or IsLane s (i / 8) 0 h.words (omega arith))
        (shifted-lt byte (i % 8) p (omega arith)) in
    absorb_bytes-IsState (i + 1) bytes (set s (i / 8) v) b (record {
      lanes = length-set s (i / 8) v ∙ h.lanes;
      words = All-set IsLane s (i / 8) v h.words v-IsLane;
    })

-- However many blocks of bytes are absorbed, the state has 25 lanes below 2 ^ 64.
pub absorb-IsState :
    (blocks : ℕ) (bytes : List ℕ) (s : State)
    → All IsByte bytes
    → IsState s
    → IsState (absorb blocks bytes s)
unfolding absorb
absorb-IsState zero bytes s b h = h
absorb-IsState (suc blocks) bytes s b h =
    let t = absorb_bytes 0 (take rate_bytes bytes) s in
    absorb-IsState blocks (drop rate_bytes bytes) (permutation t)
      (All-drop IsByte rate_bytes bytes b)
      (permutation-IsState t
        (absorb_bytes-IsState 0 (take rate_bytes bytes) s (All-take IsByte rate_bytes bytes b) h))

pow-add : (a b : ℕ) → 2 ^ (a + b) ≡ 2 ^ a * 2 ^ b
pow-add zero b = rw zero-add (omega arith)
pow-add (suc a) b = rw suc-add (grind (arith, pow-add a b, pow-suc 2 (a + b), pow-suc 2 a))

one-le_pow : (a : ℕ) → 1 ≤ 2 ^ a
one-le_pow zero = omega arith
one-le_pow (suc a) = omega (arith, one-le_pow a, pow-suc 2 a)

fields-lt : (r q a b : ℕ) → r < b → q < a → r * a + q < a * b
fields-lt r q a b p h = grind arith

rotated : (v a b : ℕ) → 0 < a → 0 < b → v < a * b → (v * a + v / b) % (a * b) ≡ v % b * a + v / b
rotated v a b p q h =
    let split : v * a + v / b ≡ a * b * (v / b) + (v % b * a + v / b) =
      omega (arith, ap (λ t. t * a) (div-add-mod v b)) in
    let fits = fields-lt (v % b) (v / b) a b (mod-lt v q) ((div-lt_iff_lt-mul q).1 h) in
    rw (split, mul-add-mod_self_left) (mod-eq_of_lt fits)

rotate_left_64-pos :
    (v n : ℕ) → 0 < n → rotate_left_64 v n ≡ bit_or (v * 2 ^ n) (v / 2 ^ (64 - n)) % modulus_64
unfolding rotate_left_64
rotate_left_64-pos v zero p = elim p [ ]
rotate_left_64-pos v (suc n) p = ground arith

power_64 : (n m : ℕ) → n + m ≡ 64 → 2 ^ n * 2 ^ m ≡ modulus_64
power_64 n m e = sym (pow-add n m) ∙ ap (λ t. 2 ^ t) e

-- A rotation by n moves the lowest 64 - n bits up and the highest n bits to the bottom.
rotate_left_64_fields :
    (v n m : ℕ) → 0 < n → n + m ≡ 64 → IsLane v → rotate_left_64 v n ≡ v % 2 ^ m * 2 ^ n + v / 2 ^ m
rotate_left_64_fields v n m p e h =
    let rest : 64 - n ≡ m = omega arith in
    let below : v < 2 ^ n * 2 ^ m = rw (power_64 n m e) h in
    let high = (div-lt_iff_lt-mul (one-le_pow m)).1 below in
    rw (rotate_left_64-pos v n p, rest, bit_or_fields n v (v / 2 ^ m) high, ← power_64 n m e)
      (rotated v (2 ^ n) (2 ^ m) (one-le_pow n) (one-le_pow m) below)

fields_apart : (r q a : ℕ) → 0 < a → q < a → ((r * a + q) % a ≡ q) × ((r * a + q) / a ≡ r)
fields_apart r q a p h = (
  mul-add-mod_self_right r a q ∙ mod-eq_of_lt h,
  mul-add-div_right p r q ∙ omega (arith, div-eq_of_lt h),
)

-- Rotating on by the rest of the 64 bits gives the lane back.
pub rotate_left_64_inverse :
    (v n m : ℕ)
    → 0 < n
    → 0 < m
    → n + m ≡ 64
    → v < 2 ^ 64
    → rotate_left_64 (rotate_left_64 v n) m ≡ v
rotate_left_64_inverse v n m p q e h =
    let below : v < 2 ^ n * 2 ^ m = rw (power_64 n m e) h in
    let high = (div-lt_iff_lt-mul (one-le_pow m)).1 below in
    let apart = fields_apart (v % 2 ^ m) (v / 2 ^ m) (2 ^ n) (one-le_pow n) high in
    rw
      (
        rotate_left_64_fields (rotate_left_64 v n) m n q (omega arith) (rotate_left_64-IsLane v n),
        rotate_left_64_fields v n m p e h,
        apart.0,
        apart.1,
      )
      (div-add-mod' v (2 ^ m))
