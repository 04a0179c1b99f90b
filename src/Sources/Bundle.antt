-- ===== src/Sources/Bundle.antt =====
-- compareCodePoints and normalizeSourceBundle of standard-json.js. `toLowerCase` is a parameter, as the
-- normalization of Unicode is. A bundle is its list of declared paths and decoded contents.
use veilforge.Base.{
  ℕ, ◌+◌, ◌-◌, ◌*◌, ltb, leb, ◌==◌, Bool, true, false, ◌&&◌, ◌||◌, List, [], ◌∷◌, any, Result, ok,
  err, ◌>>=◌, if◌then◌else◌,
}
use veilforge.Base.Text.{Text, text_eq}
use veilforge.Sources.Paths.{
  SourceNormalizationError, source_path_collision, normalize_source_path, normalize_source_content,
}

-- `Array.from(text, (value) => value.codePointAt(0))`: a high surrogate takes the low one after it.
abbrev pub is_high : ℕ → Bool
is_high c = leb 55296 c && leb c 56319

abbrev pub is_low : ℕ → Bool
is_low c = leb 56320 c && leb c 57343

abbrev pub onto_high : ℕ → List ℕ → List ℕ
onto_high c [] = c ∷ []
onto_high c (d ∷ ds) =
    if is_high c && is_low d then (65536 + (c - 55296) * 1024 + (d - 56320)) ∷ ds else c ∷ d ∷ ds

unfoldable pub code_points : Text → List ℕ
code_points [] = []
code_points (c ∷ cs) = onto_high c (code_points cs)

-- Whether `compareCodePoints(left, right)` is negative or zero.
abbrev pub before : List ℕ → List ℕ → Bool
before [] b = true
before (x ∷ a) [] = false
before (x ∷ a) (y ∷ b) = ltb x y || (x == y && before a b)

unfoldable pub compare_code_points : Text → Text → Bool
unfolding code_points
compare_code_points left right = before (code_points left) (code_points right)

pub record Source : Type 0 where
  pub path : Text
  pub content : Text

unfoldable pub insert_source : Source → List Source → List Source
insert_source s [] = s ∷ []
insert_source s (t ∷ ts) =
    let rest = insert_source s ts in
    if compare_code_points s.path t.path then s ∷ t ∷ ts else t ∷ rest

unfoldable pub sort_sources : List Source → List Source
unfolding insert_source
sort_sources [] = []
sort_sources (s ∷ ss) = insert_source s (sort_sources ss)

-- `seen.has(key)`
abbrev pub has : List Text → Text → Bool
has seen key = any (λ t. text_eq t key) seen

module _ (normalize fold : Text → Text) where
  -- A source with its path, unless that or its folded form has been seen.
  abbrev pub take_source : List Text → Text → Text → Result SourceNormalizationError Source
  take_source seen path content =
      if has seen path || has seen (fold path)
      then err source_path_collision
      else ok (record { path = path; content = normalize_source_content content })

  abbrev pub then_rest :
      Source
      → Result SourceNormalizationError (List Source)
      → Result SourceNormalizationError (List Source)
  then_rest s (ok rest) = ok (s ∷ rest)
  then_rest s (err e) = err e

  -- The loop over the entries.
  unfoldable pub take_sources :
      List Text → List (Text × Text) → Result SourceNormalizationError (List Source)
  take_sources seen [] = ok []
  take_sources seen ((declared, content) ∷ entries) =
      normalize_source_path normalize declared >>= λ path.
      take_source seen path content >>= λ source.
      then_rest source (take_sources (fold path ∷ path ∷ seen) entries)

  abbrev pub sorted :
      Result SourceNormalizationError (List Source) → Result SourceNormalizationError (List Source)
  sorted (ok ss) = ok (sort_sources ss)
  sorted (err e) = err e

  unfoldable pub normalize_source_bundle :
      List (Text × Text) → Result SourceNormalizationError (List Source)
  unfolding take_sources
  normalize_source_bundle entries = sorted (take_sources [] entries)
