-- ===== src/Base/Sets.antt =====
-- Lists of numbers as sets: membership, lists without repetitions, and sorting.
use Prim.Native.Nat.{ℕ}
use mathlib.Core.Path.{◌≡◌, refl, sym, ap, ◌∙◌}
use mathlib.Core.Logic.{inl, inr}
use mathlib.Core.Bool.{Bool, ◌||◌}
use mathlib.Core.List.{List, [], ◌∷◌}
use native.Mathlib.Omega.{arith}
use veilforge.Base.Tests.{leb, ◌==◌, if◌then◌else◌, Bool-cases, ==_iff}
use veilforge.Base.Lists.{any, All}

abbrev pub contains : ℕ → List ℕ → Bool
contains id all = any (λ x. x == id) all

-- A sort that keeps the order of equal keys.
module _ {ℓ} {A : Type ℓ} (key : A → ℕ) where
  abbrev pub insert : A → List A → List A
  insert x [] = x ∷ []
  insert x (y ∷ ys) = let rest = insert x ys in if leb (key x) (key y) then x ∷ y ∷ ys else y ∷ rest

  unfoldable pub sort : List A → List A
  sort [] = []
  sort (x ∷ xs) = insert x (sort xs)

-- `[...new Set(ids)].sort()`: of ids that are equal one stays.
unfoldable pub unique : List ℕ → List ℕ
unique [] = []
unique (x ∷ xs) = let rest = unique xs in if contains x rest then rest else x ∷ rest

unfoldable pub in_order : List ℕ → List ℕ
in_order all = sort (λ x. x) (unique all)

-- Sorting changes neither what is in a list nor what holds of all of it.
module _ {ℓ} {A : Type ℓ} (key : A → ℕ) where
  any-insert : (p : A → Bool) (x : A) (xs : List A) → any p (insert key x xs) ≡ (p x || any p xs)
  any-insert p x [] = refl
  any-insert p x (y ∷ ys) = ground (arith, any-insert p x ys)

  pub any-sort : (p : A → Bool) (xs : List A) → any p (sort key xs) ≡ any p xs
  unfolding sort
  any-sort p [] = refl
  any-sort p (x ∷ xs) = any-insert p x (sort key xs) ∙ ap (λ b. p x || b) (any-sort p xs)

  All-insert : (P : A → Type 0) (x : A) (xs : List A) → P x → All P xs → All P (insert key x xs)
  All-insert P x [] p h = (p, tt)
  All-insert P x (y ∷ ys) p (q, h) = elim (Bool-cases (leb (key x) (key y))) [
    | inl first ↦ rw first (p, (q, h))
    | inr later ↦ rw later (q, All-insert P x ys p h)
  ]

  pub All-sort : (P : A → Type 0) (xs : List A) → All P xs → All P (sort key xs)
  unfolding sort
  All-sort P [] h = tt
  All-sort P (x ∷ xs) (p, h) = All-insert P x (sort key xs) p (All-sort P xs h)

contains-unique : (id : ℕ) (all : List ℕ) → contains id (unique all) ≡ contains id all
unfolding unique
contains-unique id [] = refl
contains-unique id (x ∷ xs) = elim (Bool-cases (contains x (unique xs))) [
  | inl there ↦ elim (Bool-cases (x == id)) [
    | inl same_id ↦
        rw (there, same_id)
          (ap (λ y. contains y (unique xs)) (sym ((==_iff x id).0 same_id)) ∙ there)
    | inr other ↦ rw (there, other) (contains-unique id xs)
  ]
  | inr absent ↦ rw absent (ap (λ b. x == id || b) (contains-unique id xs))
]

pub contains-in_order : (id : ℕ) (all : List ℕ) → contains id (in_order all) ≡ contains id all
unfolding in_order
contains-in_order id all = any-sort (λ x. x) (λ x. x == id) (unique all) ∙ contains-unique id all
