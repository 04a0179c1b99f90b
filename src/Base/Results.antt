-- ===== src/Base/Results.antt =====
-- Values that a throwing function returns.
use mathlib.Core.Path.{◌≡◌, refl}
use mathlib.Core.Logic.{◌⊎◌, inl, inr}
use mathlib.Core.Bool.{◌&&◌, Bool, true, false, ◌&&◌}

pub data Result {ℓ κ} (E : Type ℓ) (A : Type κ) : Type (ℓ ⊔ κ) where
  ok : A → Result E A
  err : E → Result E A

module _ {ℓ κ} {E : Type ℓ} {A : Type κ} where
  pub Result-cases : (r : Result E A) → ((e : E) × (r ≡ err e)) ⊎ ((a : A) × (r ≡ ok a))
  Result-cases (ok a) = inr (a, refl)
  Result-cases (err e) = inl (e, refl)

-- `if (!test) throw error;`
abbrev pub guard {ℓ} : {E : Type ℓ} → Bool → E → Result E (Unit {0})
guard true thrown = ok tt
guard false thrown = err thrown

-- The rest of a function after a call that may throw.
infixl 5 ◌>>=◌ ◌>>◌
abbrev pub ◌>>=◌ {ℓ κ} : {E : Type ℓ} {A B : Type κ} → Result E A → (A → Result E B) → Result E B
err thrown >>= rest = err thrown
ok value >>= rest = rest value

abbrev pub ◌>>◌ {ℓ} : {E : Type ℓ} {B : Type 0} → Result E (Unit {0}) → Result E B → Result E B
check >> rest = check >>= λ _. rest

-- Inversion of a chain that succeeds.
pub >>=-eq-ok {ℓ κ} :
    {E : Type ℓ} {A B : Type κ} (call : Result E A) (rest : A → Result E B) {result : B}
    → (call >>= rest) ≡ ok result
    → (value : A) × (call ≡ ok value) × (rest value ≡ ok result)
>>=-eq-ok (err thrown) rest h = cc
>>=-eq-ok (ok value) rest h = (value, refl, h)

pub ok-injective {ℓ} : {E A : Type ℓ} {a b : A} → ◌≡◌ {A = Result E A} (ok a) (ok b) → a ≡ b
ok-injective h = cc

-- A test that `guard` lets through holds.
pub guard_then :
    {E A : Type 0} (test : Bool) (e : E) (rest : Result E A) {a : A}
    → (guard test e >> rest) ≡ ok a
    → (test ≡ true) × (rest ≡ ok a)
guard_then false e rest h = cc
guard_then true e rest h = (refl, h)

pub guard_sound :
    {E : Type 0} (test : Bool) (e : E) {u : Unit {0}} → guard test e ≡ ok u → test ≡ true
guard_sound false e h = cc
guard_sound true e h = refl

pub split_&& : (a b : Bool) → (a && b) ≡ true → (a ≡ true) × (b ≡ true)
split_&& false b h = cc
split_&& true b h = (refl, h)
