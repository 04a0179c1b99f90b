-- ===== src/Sources/Distinct.antt =====
-- What normalizeSourceBundle returns: canonical paths, different even when case is ignored.
use mathlib.Core.Path.{subst}
use veilforge.Base.{
  ◌==◌, ◌≡◌, ◌∙◌, refl, sym, ap, Bool, true, false, not, ◌||◌, List, [], ◌∷◌, all, All, Result, ok,
  err, >>=-eq-ok, ok-injective, arith, Bool-cases, inl, inr,
}
use veilforge.Base.Text.{Text, text_eq}
use veilforge.Sources.Paths.{
  SourceNormalizationError, source_path_collision, newlines, normalize_source_path,
  normalize_source_content, without_mark,
}
use veilforge.Sources.Bundle.{
  Source, insert_source, sort_sources, compare_code_points, has, take_source, then_rest,
  take_sources, sorted, normalize_source_bundle,
}
use veilforge.Sources.Segments.{IsNormalization}
use veilforge.Sources.Canonical.{IsCanonical, normalize_source_path-IsCanonical}

newlines-no_return : (b : Bool) (t : Text) → all (λ c. not (c == 13)) (newlines b t) ≡ true
unfolding newlines
newlines-no_return b [] = refl
newlines-no_return b (c ∷ cs) =
    let rest = newlines-no_return (c == 13) cs in
    elim (Bool-cases (c == 13)) [
      | inl return ↦ ground (arith, return, rest)
      | inr other ↦ ground (arith, other, rest)
    ]

normalize_source_content-no_return :
    (t : Text) → all (λ c. not (c == 13)) (normalize_source_content t) ≡ true
unfolding normalize_source_content newlines
normalize_source_content-no_return t = newlines-no_return false (without_mark t)

text_eq_sym : (s t : Text) → text_eq s t ≡ text_eq t s
text_eq_sym [] [] = refl
text_eq_sym [] (y ∷ t) = refl
text_eq_sym (x ∷ s) [] = refl
text_eq_sym (x ∷ s) (y ∷ t) = ground (arith, text_eq_sym s t)

module _ (normalize fold : Text → Text) where
  pub record IsNormal (s : Source) : Type 0 where
    pub canonical : IsCanonical normalize s.path
    pub no_return : all (λ c. not (c == 13)) s.content ≡ true

  -- Two sources whose paths differ even when folded.
  abbrev pub Apart : Source → Source → Type 0
  Apart s t = text_eq (fold s.path) (fold t.path) ≡ false

  abbrev pub Distinct : List Source → Type 0
  Distinct [] = Unit
  Distinct (s ∷ ss) = All (Apart s) ss × Distinct ss

  take_source-ok :
      (seen : List Text) (path content : Text) (s : Source)
      → take_source normalize fold seen path content ≡ ok s
      → (has seen (fold path) ≡ false)
        × (record { path = path; content = normalize_source_content content } ≡ s)
  take_source-ok seen path content s h = elim (Bool-cases (has seen path || has seen (fold path))) [
    | inl there ↦
        let refused : take_source normalize fold seen path content ≡ err source_path_collision =
          rw there refl in
        cc
    | inr new ↦
        let taken : take_source normalize fold seen path content
            ≡ ok (record { path = path; content = normalize_source_content content }) =
          rw new refl in
        (ground (arith, new), ok-injective (sym taken ∙ h))
  ]

  then_rest-ok :
      (s : Source) (r : Result SourceNormalizationError (List Source)) (ss : List Source)
      → then_rest normalize fold s r ≡ ok ss
      → (rest : List Source) × (r ≡ ok rest) × (s ∷ rest ≡ ss)
  then_rest-ok s (ok rest) ss h = (rest, refl, ok-injective h)
  then_rest-ok s (err e) ss h = cc

  -- What is taken after some keys have been seen: new to them, normal, and pairwise apart.
  pub record IsTaken (seen : List Text) (ss : List Source) : Type 0 where
    pub unseen : All (λ s. has seen (fold s.path) ≡ false) ss
    pub normal : All IsNormal ss
    pub distinct : Distinct ss

  later-unseen :
      (path : Text) (seen : List Text) (ss : List Source)
      → All (λ s. has (fold path ∷ path ∷ seen) (fold s.path) ≡ false) ss
      → All (λ s. has seen (fold s.path) ≡ false) ss
  later-unseen path seen [] h = tt
  later-unseen path seen (s ∷ ss) (p, h) = (ground (arith, p), later-unseen path seen ss h)

  later-Apart :
      (s : Source) (seen : List Text) (ss : List Source)
      → All (λ t. has (fold s.path ∷ s.path ∷ seen) (fold t.path) ≡ false) ss
      → All (Apart s) ss
  later-Apart s seen [] h = tt
  later-Apart s seen (t ∷ ss) (p, h) = (ground (arith, p), later-Apart s seen ss h)

  take_sources-IsTaken :
      (seen : List Text) (entries : List (Text × Text)) (ss : List Source)
      → IsNormalization normalize
      → take_sources normalize fold seen entries ≡ ok ss
      → IsTaken seen ss
  unfolding take_sources
  take_sources-IsTaken seen [] ss n h =
      subst (IsTaken seen) (ok-injective h) (record { unseen = tt; normal = tt; distinct = tt })
  take_sources-IsTaken seen ((declared, content) ∷ entries) ss n h =
      let (path, normalized, h₁) = >>=-eq-ok (normalize_source_path normalize declared) _ h in
      let (s, taken, h₂) = >>=-eq-ok (take_source normalize fold seen path content) _ h₁ in
      let (new, is_source) = take_source-ok seen path content s taken in
      let (rest, is_rest, whole) =
        then_rest-ok s (take_sources normalize fold (fold path ∷ path ∷ seen) entries) ss h₂ in
      let later = take_sources-IsTaken (fold path ∷ path ∷ seen) entries rest n is_rest in
      let source : Source = record { path = path; content = normalize_source_content content } in
      let own : IsNormal source = record {
        canonical = normalize_source_path-IsCanonical normalize declared path n normalized;
        no_return = normalize_source_content-no_return content;
      } in
      subst (IsTaken seen) (ap (λ x. x ∷ rest) is_source ∙ whole) (record {
        unseen = (new, later-unseen path seen rest later.unseen);
        normal = (own, later.normal);
        distinct = (later-Apart source seen rest later.unseen, later.distinct);
      })

  -- Sorting keeps all of it.
  All-insert_source :
      (P : Source → Type 0) (s : Source) (ss : List Source)
      → P s
      → All P ss
      → All P (insert_source s ss)
  unfolding insert_source
  All-insert_source P s [] p h = (p, tt)
  All-insert_source P s (t ∷ ts) p (q, h) = elim (Bool-cases (compare_code_points s.path t.path)) [
    | inl first ↦ rw first (p, (q, h))
    | inr after ↦ rw after (q, All-insert_source P s ts p h)
  ]

  Distinct-insert_source :
      (s : Source) (ss : List Source)
      → All (Apart s) ss
      → Distinct ss
      → Distinct (insert_source s ss)
  unfolding insert_source
  Distinct-insert_source s [] h k = (tt, tt)
  Distinct-insert_source s (t ∷ ts) (p, h) (q, k) =
      elim (Bool-cases (compare_code_points s.path t.path)) [
        | inl first ↦ rw first ((p, h), (q, k))
        | inr after ↦ rw after (
          All-insert_source (Apart t) s ts (text_eq_sym (fold t.path) (fold s.path) ∙ p) q,
          Distinct-insert_source s ts h k,
        )
      ]

  All-sort_sources : (P : Source → Type 0) (ss : List Source) → All P ss → All P (sort_sources ss)
  unfolding sort_sources
  All-sort_sources P [] h = tt
  All-sort_sources P (s ∷ ss) (p, h) =
      All-insert_source P s (sort_sources ss) p (All-sort_sources P ss h)

  Distinct-sort_sources : (ss : List Source) → Distinct ss → Distinct (sort_sources ss)
  unfolding sort_sources
  Distinct-sort_sources [] h = tt
  Distinct-sort_sources (s ∷ ss) (p, h) =
      Distinct-insert_source s (sort_sources ss) (All-sort_sources (Apart s) ss p)
        (Distinct-sort_sources ss h)

  sorted-ok :
      (r : Result SourceNormalizationError (List Source)) (ss : List Source)
      → sorted normalize fold r ≡ ok ss
      → (taken : List Source) × (r ≡ ok taken) × (sort_sources taken ≡ ss)
  sorted-ok (ok taken) ss h = (taken, refl, ok-injective h)
  sorted-ok (err e) ss h = cc

  -- If the normalization of Unicode is idempotent, makes no separators or NUL, and neither makes nor
  -- removes segments of dots, then every source of a bundle that normalize_source_bundle returns has
  -- a canonical path and no carriage return in its content, and the paths of two of them differ even
  -- when folded to lower case.
  pub normalize_source_bundle_sound :
      (entries : List (Text × Text)) (ss : List Source)
      → IsNormalization normalize
      → normalize_source_bundle normalize fold entries ≡ ok ss
      → All IsNormal ss × Distinct ss
  unfolding normalize_source_bundle
  normalize_source_bundle_sound entries ss n h =
      let (taken, is_taken, is_sorted) = sorted-ok (take_sources normalize fold [] entries) ss h in
      let good = take_sources-IsTaken [] entries taken n is_taken in
      subst (λ x. All IsNormal x × Distinct x) is_sorted
        (All-sort_sources IsNormal taken good.normal, Distinct-sort_sources taken good.distinct)
