-- ===== src/Sources/Canonical.antt =====
-- A path that normalizeSourcePath returns, and what it does to that path.
use mathlib.Core.Path.{subst}
use veilforge.Base.{
  ℕ, ◌==◌, ◌≡◌, ◌⊎◌, ◌∙◌, refl, sym, ap, Bool, true, false, not, ◌&&◌, ◌||◌, List, [], ◌∷◌, ◌++◌,
  any, all, All, Result, ok, err, ok-injective, arith, Bool-cases, inl, inr, split_&&,
}
use veilforge.Base.Text.{Text}
use veilforge.Sources.Paths.{
  SourceNormalizationError, invalid_source_path, absolute_source_path, slashed, split, join,
  is_empty, clean, joined, join_segments, is_absolute, is_drive, normalize_source_path,
}
use veilforge.Sources.Segments.{
  plain, IsNormalization, IsSegment, split-join, split-slashed, clean-IsSegment, clean-segments,
}

-- A path of normalized segments, none of them empty or a dot or two.
pub record IsCanonical (normalize : Text → Text) (t : Text) : Type 0 where
  pub first : Text
  pub others : List Text
  pub segments : All (IsSegment normalize) (first ∷ others)
  pub whole : join (first ∷ others) ≡ t

joined-ok :
    (ss : List Text) (t : Text)
    → joined ss ≡ ok t
    → (s : Text) × (rest : List Text) × (s ∷ rest ≡ ss) × (join ss ≡ t)
unfolding join
joined-ok [] t h = cc
joined-ok (s ∷ rest) t h = elim (Bool-cases (is_empty (join (s ∷ rest)))) [
  | inl none ↦ let refused : joined (s ∷ rest) ≡ err invalid_source_path = rw none refl in cc
  | inr some_text ↦
      let taken : joined (s ∷ rest) ≡ ok (join (s ∷ rest)) = rw some_text refl in
      (s, rest, refl, ok-injective (sym taken ∙ h))
]

join_segments-ok :
    (r : Result SourceNormalizationError (List Text)) (t : Text)
    → join_segments r ≡ ok t
    → (ss : List Text) × (r ≡ ok ss) × (joined ss ≡ ok t)
join_segments-ok (ok ss) t h = (ss, refl, h)
join_segments-ok (err e) t h = cc

module _ (normalize : Text → Text) where
  within_limits :
      (original : Text)
      → (is_empty original || any (λ c. c == 0) original) ≡ false
      → is_absolute original ≡ false
      → normalize_source_path normalize original
        ≡ join_segments (clean normalize (split (slashed original)))
  unfolding normalize_source_path
  within_limits original h k = rw (h, k) refl

  accepted :
      (original t : Text)
      → normalize_source_path normalize original ≡ ok t
      → ((is_empty original || any (λ c. c == 0) original) ≡ false)
        × (join_segments (clean normalize (split (slashed original))) ≡ ok t)
  unfolding normalize_source_path
  accepted original t h = elim (Bool-cases (is_empty original || any (λ c. c == 0) original)) [
    | inl bad ↦
        let refused : normalize_source_path normalize original ≡ err invalid_source_path =
          rw bad refl in
        cc
    | inr fine ↦ elim (Bool-cases (is_absolute original)) [
      | inl absolute ↦
          let refused : normalize_source_path normalize original ≡ err absolute_source_path =
            rw (fine, absolute) refl in
          cc
      | inr relative ↦ (fine, sym (within_limits original fine relative) ∙ h)
    ]
  ]

  pub normalize_source_path-IsCanonical :
      (original t : Text)
      → IsNormalization normalize
      → normalize_source_path normalize original ≡ ok t
      → IsCanonical normalize t
  normalize_source_path-IsCanonical original t n h =
      let (fine, run) = accepted original t h in
      let (ss, cleaned, is_joined) =
        join_segments-ok (clean normalize (split (slashed original))) t run in
      let (s, rest, same_list, whole) = joined-ok ss t is_joined in
      let no_nul : any (λ c. c == 0) original ≡ false = ground (arith, fine) in
      let all_segments =
        clean-IsSegment normalize (split (slashed original)) ss n (split-slashed original no_nul)
          cleaned in
      record {
        first = s;
        others = rest;
        segments = subst (All (IsSegment normalize)) (sym same_list) all_segments;
        whole = ap join same_list ∙ whole;
      }

-- What a canonical path is made of.
abbrev fine : ℕ → Bool
fine c = not (c == 0) && not (c == b'\\')

fine-append : (s t : Text) → all fine s ≡ true → all fine t ≡ true → all fine (s ++ t) ≡ true
fine-append [] t h k = k
fine-append (c ∷ s) t h k =
    let (p, q) = split_&& (fine c) (all fine s) h in
    let rest = fine-append s t q k in ground (arith, p, rest)

fine-plain : (s : Text) → all plain s ≡ true → all fine s ≡ true
fine-plain [] h = refl
fine-plain (c ∷ s) h =
    let (p, q) = split_&& (plain c) (all plain s) h in
    let rest = fine-plain s q in ground (arith, p, rest)

fine-join :
    (normalize : Text → Text) (s : Text) (ss : List Text)
    → All (IsSegment normalize) (s ∷ ss)
    → all fine (join (s ∷ ss)) ≡ true
unfolding join
fine-join normalize s [] (p, h) = fine-plain s p.is_plain
fine-join normalize s (t ∷ ts) (p, h) =
    fine-append s (b'/' ∷ join (t ∷ ts)) (fine-plain s p.is_plain)
      (let rest = fine-join normalize t ts h in ground (arith, rest))

fine_no_nul : (t : Text) → all fine t ≡ true → any (λ c. c == 0) t ≡ false
fine_no_nul [] h = refl
fine_no_nul (c ∷ t) h =
    let (p, q) = split_&& (fine c) (all fine t) h in
    let rest = fine_no_nul t q in ground (arith, p, rest)

slashed-fine : (t : Text) → all fine t ≡ true → slashed t ≡ t
slashed-fine [] h = refl
slashed-fine (c ∷ t) h =
    let (p, q) = split_&& (fine c) (all fine t) h in
    let other : (c == b'\\') ≡ false = ground (arith, p) in
    rw other (ap (λ r. c ∷ r) (slashed-fine t q))

join-first : (c : ℕ) (cs : Text) (ss : List Text) → (r : Text) × (join ((c ∷ cs) ∷ ss) ≡ c ∷ r)
unfolding join
join-first c cs [] = (cs, refl)
join-first c cs (t ∷ ts) = (cs ++ (b'/' ∷ join (t ∷ ts)), refl)

segments-plain :
    (normalize : Text → Text) (ss : List Text)
    → All (IsSegment normalize) ss
    → All (λ s. all plain s ≡ true) ss
segments-plain normalize [] h = tt
segments-plain normalize (s ∷ ss) (p, h) = (p.is_plain, segments-plain normalize ss h)

-- A path that begins with a plain code unit is absolute only by a drive.
relative :
    (c : ℕ) (r : Text) → plain c ≡ true → is_drive (c ∷ r) ≡ false → is_absolute (c ∷ r) ≡ false
unfolding is_absolute
relative c r p d = ground (arith, p, d)

module _ (normalize : Text → Text) where
  segments-accepted :
      (s : Text) (ss : List Text)
      → All (IsSegment normalize) (s ∷ ss)
      → is_drive (join (s ∷ ss)) ≡ false
      → normalize_source_path normalize (join (s ∷ ss)) ≡ ok (join (s ∷ ss))
  segments-accepted [] ss (p, h) d = let empty = p.named in cc
  segments-accepted (c ∷ cs) ss (p, h) d =
      let segments : All (IsSegment normalize) ((c ∷ cs) ∷ ss) = (p, h) in
      let t = join ((c ∷ cs) ∷ ss) in
      let (r, begins) = join-first c cs ss in
      let is_fine = fine-join normalize (c ∷ cs) ss segments in
      let some_text : is_empty t ≡ false = ap is_empty begins in
      let (plain_first, _) = split_&& (plain c) (all plain cs) p.is_plain in
      let is_relative : is_absolute t ≡ false =
        ap is_absolute begins ∙ relative c r plain_first (ap is_drive (sym begins) ∙ d) in
      let no_nul = fine_no_nul t is_fine in
      let cleaned : clean normalize (split (slashed t)) ≡ ok ((c ∷ cs) ∷ ss) =
        ap (λ x. clean normalize (split x)) (slashed-fine t is_fine)
        ∙ ap (clean normalize)
            (split-join (c ∷ cs) ss (segments-plain normalize ((c ∷ cs) ∷ ss) segments))
        ∙ clean-segments normalize ((c ∷ cs) ∷ ss) segments in
      let taken : joined ((c ∷ cs) ∷ ss) ≡ ok t = rw some_text refl in
      within_limits normalize t (ground (arith, some_text, no_nul)) is_relative
      ∙ ap join_segments cleaned
      ∙ taken

  -- If the normalization of Unicode is idempotent, makes no separators or NUL, and neither makes nor
  -- removes segments of dots, then a path that normalize_source_path returns is made of normalized
  -- segments, none of which is empty, a dot or two, or has a backslash or NUL in it; and unless it
  -- begins like a drive, normalize_source_path returns it unchanged.
  pub normalize_source_path_idem :
      (original t : Text)
      → IsNormalization normalize
      → normalize_source_path normalize original ≡ ok t
      → IsCanonical normalize t × ((normalize_source_path normalize t ≡ ok t) ⊎ (is_drive t ≡ true))
  normalize_source_path_idem original t n h =
      let canonical = normalize_source_path-IsCanonical normalize original t n h in
      (
        canonical,
        elim (Bool-cases (is_drive t)) [
          | inl drive ↦ inr drive
          | inr other ↦
              let whole = canonical.whole in
              inl (
                subst (λ x. normalize_source_path normalize x ≡ ok x) whole
                  (segments-accepted canonical.first canonical.others canonical.segments
                    (ap is_drive whole ∙ other)))
        ],
      )
