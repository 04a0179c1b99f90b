-- ===== src/Sources/Segments.antt =====
-- The segments of a path: splitting undoes joining, and what the loop over segments lets through.
use mathlib.Core.Path.{subst}
use veilforge.Base.{
  ℕ, ◌==◌, ◌≡◌, ◌∙◌, refl, sym, ap, Bool, true, false, not, ◌&&◌, ◌||◌, List, [], ◌∷◌, ◌++◌, any,
  all, All, Result, ok, err, ok-injective, arith, Bool-cases, inl, inr, split_&&,
}
use veilforge.Base.Text.{Text, codes, text_eq}
use veilforge.Sources.Paths.{
  SourceNormalizationError, path_traversal, slash, slashed, onto_first, split, join, is_empty,
  put_first, clean,
}

-- A code unit that is not NUL and separates no segments.
abbrev pub plain : ℕ → Bool
plain c = not (c == 0) && not (c == b'/') && not (c == b'\\')

-- What the loop passes over or refuses.
abbrev pub is_dots : Text → Bool
is_dots s = is_empty s || text_eq s (codes ".") || text_eq s (codes "..")

-- What the program relies on of `normalize('NFC')`: it is idempotent, makes no separators and no NUL,
-- and neither makes nor removes segments of dots.
pub record IsNormalization (normalize : Text → Text) : Type 0 where
  pub idempotent : (t : Text) → normalize (normalize t) ≡ normalize t
  pub keeps_plain : (t : Text) → all plain t ≡ true → all plain (normalize t) ≡ true
  pub keeps_dots : (t : Text) → is_dots (normalize t) ≡ is_dots t

pub record IsSegment (normalize : Text → Text) (s : Text) : Type 0 where
  pub is_plain : all plain s ≡ true
  pub named : is_dots s ≡ false
  pub normal : normalize s ≡ s

split-plain_then : (s r : Text) → all plain s ≡ true → split (s ++ (b'/' ∷ r)) ≡ s ∷ split r
unfolding split
split-plain_then [] r h = refl
split-plain_then (c ∷ s) r h =
    let (first, rest) = split_&& (plain c) (all plain s) h in
    let apart : (c == b'/') ≡ false = ground (arith, first) in
    rw (apart, split-plain_then s r rest) refl

split-plain : (s : Text) → all plain s ≡ true → split s ≡ s ∷ []
unfolding split
split-plain [] h = refl
split-plain (c ∷ s) h =
    let (first, rest) = split_&& (plain c) (all plain s) h in
    let apart : (c == b'/') ≡ false = ground (arith, first) in rw (apart, split-plain s rest) refl

pub split-join :
    (s : Text) (ss : List Text)
    → All (λ t. all plain t ≡ true) (s ∷ ss)
    → split (join (s ∷ ss)) ≡ s ∷ ss
unfolding join
split-join s [] (p, h) = split-plain s p
split-join s (t ∷ ts) (p, h) =
    split-plain_then s (join (t ∷ ts)) p ∙ ap (λ r. s ∷ r) (split-join t ts h)

-- A text without NUL has plain segments.
onto_first-plain :
    (c : ℕ) (ss : List Text)
    → plain c ≡ true
    → All (λ t. all plain t ≡ true) ss
    → All (λ t. all plain t ≡ true) (onto_first c ss)
onto_first-plain c [] p h = (ground (arith, p), tt)
onto_first-plain c (s ∷ ss) p (q, h) = (ground (arith, p, q), h)

pub split-slashed :
    (t : Text) → any (λ c. c == 0) t ≡ false → All (λ s. all plain s ≡ true) (split (slashed t))
unfolding split
split-slashed [] h = (refl, tt)
split-slashed (c ∷ cs) h =
    let rest = split-slashed cs (ground (arith, h)) in
    elim (Bool-cases (slash c == b'/')) [
      | inl sep ↦ rw sep (refl, rest)
      | inr other ↦
          rw other (onto_first-plain (slash c) (split (slashed cs)) (ground (arith, h, other)) rest)
    ]

neither : (a b : Bool) → (a || b) ≡ false → (a ≡ false) × (b ≡ false)
neither true b h = cc
neither false b h = (refl, h)

put_first-ok :
    (s : Text) (r : Result SourceNormalizationError (List Text)) (ts : List Text)
    → put_first s r ≡ ok ts
    → (rest : List Text) × (r ≡ ok rest) × (s ∷ rest ≡ ts)
put_first-ok s (ok rest) ts h = (rest, refl, ok-injective h)
put_first-ok s (err e) ts h = cc

module _ (normalize : Text → Text) where
  clean-skip :
      (s : Text) (ss : List Text)
      → (is_empty s || text_eq s (codes ".")) ≡ true
      → clean normalize (s ∷ ss) ≡ clean normalize ss
  unfolding clean
  clean-skip s ss h = rw h refl

  clean-up :
      (s : Text) (ss : List Text)
      → (is_empty s || text_eq s (codes ".")) ≡ false
      → text_eq s (codes "..") ≡ true
      → clean normalize (s ∷ ss) ≡ err path_traversal
  unfolding clean
  clean-up s ss h k = rw (h, k) refl

  clean-down :
      (s : Text) (ss : List Text)
      → (is_empty s || text_eq s (codes ".")) ≡ false
      → text_eq s (codes "..") ≡ false
      → clean normalize (s ∷ ss) ≡ put_first (normalize s) (clean normalize ss)
  unfolding clean
  clean-down s ss h k = rw (h, k) refl

  -- The loop lets through normalized segments only,
  pub clean-IsSegment :
      (ss ts : List Text)
      → IsNormalization normalize
      → All (λ s. all plain s ≡ true) ss
      → clean normalize ss ≡ ok ts
      → All (IsSegment normalize) ts
  unfolding clean
  clean-IsSegment [] ts n h k = subst (All (IsSegment normalize)) (ok-injective k) tt
  clean-IsSegment (s ∷ ss) ts n (p, h) k = elim (Bool-cases (is_empty s || text_eq s (codes "."))) [
    | inl skipped ↦ clean-IsSegment ss ts n h (sym (clean-skip s ss skipped) ∙ k)
    | inr some_name ↦ elim (Bool-cases (text_eq s (codes ".."))) [
      | inl up ↦ let refused = sym (clean-up s ss some_name up) ∙ k in cc
      | inr down ↦
          let (rest, is_rest, whole) =
            put_first-ok (normalize s) (clean normalize ss) ts
              (sym (clean-down s ss some_name down) ∙ k) in
          let own : is_dots s ≡ false = ground (arith, some_name, down) in
          subst (All (IsSegment normalize)) whole (
            record {
              is_plain = n.keeps_plain s p;
              named = n.keeps_dots s ∙ own;
              normal = n.idempotent s;
            },
            clean-IsSegment ss rest n h is_rest,
          )
    ]
  ]

  -- and leaves those as they are.
  pub clean-segments : (ts : List Text) → All (IsSegment normalize) ts → clean normalize ts ≡ ok ts
  unfolding clean
  clean-segments [] h = refl
  clean-segments (t ∷ ts) (p, h) =
      let (some_name, down) =
        neither (is_empty t || text_eq t (codes ".")) (text_eq t (codes "..")) p.named in
      clean-down t ts some_name down
      ∙ ap (λ r. put_first (normalize t) r) (clean-segments ts h)
      ∙ ap (λ x. ok (x ∷ ts)) p.normal
