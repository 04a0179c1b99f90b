-- ===== src/Sources/Tests.antt =====
-- Paths and bundles, where no text needs a normalization of Unicode.
use veilforge.Sources.Comments.{in_code, without_comments, without_comments_lines}
use veilforge.Base.{map, ◌++◌, ◌==◌, ◌≡◌, ◌⊎◌, refl, true, List, [], ◌∷◌, All, ok, err}
use veilforge.Base.Text.{Text, codes, to_lower}
use veilforge.Sources.Paths.{
  SourceNormalizationError, absolute_source_path, path_traversal, is_drive, normalize_source_path,
}
use veilforge.Sources.Bundle.{Source, normalize_source_bundle}
use veilforge.Sources.Segments.{IsNormalization}
use veilforge.Sources.Canonical.{IsCanonical, normalize_source_path_idem}
use veilforge.Sources.Distinct.{IsNormal, Distinct, normalize_source_bundle_sound}

abbrev same_text : Text → Text
same_text t = t

same_text-IsNormalization : IsNormalization same_text
same_text-IsNormalization = record {
  idempotent = λ t. refl;
  keeps_plain = λ t h. h;
  keeps_dots = λ t. refl;
}

normalized_path : normalize_source_path same_text (codes ".\\src//./A.sol") ≡ ok (codes "src/A.sol")
unfolding normalize_source_path veilforge.Sources.Paths.is_absolute veilforge.Sources.Paths.split
    veilforge.Sources.Paths.join
normalized_path = refl

traversal : normalize_source_path same_text (codes "src/../A.sol") ≡ err path_traversal
unfolding normalize_source_path veilforge.Sources.Paths.is_absolute veilforge.Sources.Paths.split
    veilforge.Sources.Paths.join
traversal = refl

normalize_source_path_idem_example :
    IsCanonical same_text (codes "src/A.sol")
    × ((normalize_source_path same_text (codes "src/A.sol") ≡ ok (codes "src/A.sol"))
        ⊎ (is_drive (codes "src/A.sol") ≡ true))
normalize_source_path_idem_example =
    normalize_source_path_idem same_text (codes ".\\src//./A.sol") (codes "src/A.sol")
      same_text-IsNormalization normalized_path

-- An absolute path of a drive is refused, but not after a dot.
drive_accepted : normalize_source_path same_text (codes "./C:/A.sol") ≡ ok (codes "C:/A.sol")
unfolding normalize_source_path veilforge.Sources.Paths.is_absolute veilforge.Sources.Paths.split
    veilforge.Sources.Paths.join
drive_accepted = refl

drive_refused : normalize_source_path same_text (codes "C:/A.sol") ≡ err absolute_source_path
unfolding normalize_source_path veilforge.Sources.Paths.is_absolute
drive_refused = refl

abbrev two_entries : List (Text × Text)
two_entries = (codes "b.sol", 65 ∷ 13 ∷ 10 ∷ 66 ∷ []) ∷ (codes "./a.sol", 65279 ∷ 67 ∷ []) ∷ []

abbrev two_sources : List Source
two_sources =
    record { path = codes "a.sol"; content = 67 ∷ [] }
    ∷ record { path = codes "b.sol"; content = 65 ∷ 10 ∷ 66 ∷ [] }
    ∷ []

bundle : normalize_source_bundle same_text to_lower two_entries ≡ ok two_sources
unfolding normalize_source_bundle normalize_source_path veilforge.Sources.Paths.is_absolute
    veilforge.Sources.Paths.split veilforge.Sources.Paths.join veilforge.Sources.Bundle.sort_sources
    veilforge.Sources.Bundle.compare_code_points veilforge.Sources.Paths.normalize_source_content
bundle = refl

normalize_source_bundle_sound_example :
    All (IsNormal same_text to_lower) two_sources × Distinct same_text to_lower two_sources
normalize_source_bundle_sound_example =
    normalize_source_bundle_sound same_text to_lower two_entries two_sources
      same_text-IsNormalization bundle

-- "a // b", a line feed and "c".
abbrev commented : Text
commented = codes "a // b" ++ (10 ∷ codes "c")

uncommented : without_comments in_code commented ≡ codes "a     " ++ (10 ∷ codes "c")
unfolding without_comments
uncommented = refl

without_comments_lines_example :
    map (λ c. c == b'\n') (without_comments in_code commented) ≡ map (λ c. c == b'\n') commented
without_comments_lines_example = without_comments_lines commented
