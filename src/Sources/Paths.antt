-- ===== src/Sources/Paths.antt =====
-- normalizeSourcePath, normalizeSourceContent and normalizeRemapping of standard-json.js, on texts of
-- UTF-16 code units. The normalization of Unicode (NFC) is a parameter.

use veilforge.Base.{
  ℕ, ◌==◌, leb, Bool, true, false, ◌&&◌, ◌||◌, List, [], ◌∷◌, ◌++◌, map, any, Result, ok, err,
  if◌then◌else◌,
}
use veilforge.Base.Text.{Text, codes, text_eq}

-- The codes of SourceNormalizationError.
pub data SourceNormalizationError : Type 0 where
  invalid_source_path absolute_source_path path_traversal : SourceNormalizationError
  invalid_utf8 source_path_collision invalid_remapping : SourceNormalizationError

-- `[a-zA-Z]:[\\/]` at the start.
abbrev pub is_letter : ℕ → Bool
is_letter c = (leb b'a' c && leb c b'z') || (leb b'A' c && leb c b'Z')

unfoldable pub is_drive : Text → Bool
is_drive [] = false
is_drive (_ ∷ []) = false
is_drive (_ ∷ _ ∷ []) = false
is_drive (a ∷ b ∷ c ∷ _) = is_letter a && b == b':' && (c == b'\\' || c == b'/')

abbrev pub starts_with : ℕ → Text → Bool
starts_with c [] = false
starts_with c (x ∷ xs) = x == c

abbrev pub starts_with_two : ℕ → Text → Bool
starts_with_two c [] = false
starts_with_two c (x ∷ xs) = x == c && starts_with c xs

-- `ABSOLUTE_PATH`
unfoldable pub is_absolute : Text → Bool
unfolding is_drive
is_absolute t =
    starts_with b'/' t || is_drive t || starts_with_two b'\\' t || starts_with_two b'/' t

-- `replaceAll('\\', '/')`
abbrev pub slash : ℕ → ℕ
slash c = if c == b'\\' then b'/' else c

abbrev pub slashed : Text → Text
slashed t = map slash t

-- `split('/')`
abbrev pub onto_first : ℕ → List Text → List Text
onto_first c [] = (c ∷ []) ∷ []
onto_first c (s ∷ ss) = (c ∷ s) ∷ ss

unfoldable pub split : Text → List Text
split [] = [] ∷ []
split (c ∷ cs) = let rest = split cs in if c == b'/' then [] ∷ rest else onto_first c rest

-- `join('/')`
unfoldable pub join : List Text → Text
join [] = []
join (s ∷ []) = s
join (s ∷ t ∷ ts) = s ++ (b'/' ∷ join (t ∷ ts))

abbrev pub is_empty : Text → Bool
is_empty [] = true
is_empty (_ ∷ _) = false

abbrev pub put_first :
    Text → Result SourceNormalizationError (List Text) → Result SourceNormalizationError (List Text)
put_first s (ok ss) = ok (s ∷ ss)
put_first s (err e) = err e

abbrev pub joined : List Text → Result SourceNormalizationError Text
joined ss = let t = join ss in if is_empty t then err invalid_source_path else ok t

abbrev pub join_segments :
    Result SourceNormalizationError (List Text) → Result SourceNormalizationError Text
join_segments (err e) = err e
join_segments (ok ss) = joined ss

module _ (normalize : Text → Text) where
  -- The loop over the segments.
  unfoldable pub clean : List Text → Result SourceNormalizationError (List Text)
  clean [] = ok []
  clean (s ∷ ss) =
      let rest = clean ss in
      if is_empty s || text_eq s (codes ".")
      then rest
      else if text_eq s (codes "..")
      then err path_traversal
      else put_first (normalize s) rest

  unfoldable pub normalize_source_path : Text → Result SourceNormalizationError Text
  unfolding clean
  normalize_source_path original =
      if is_empty original || any (λ c. c == 0) original
      then err invalid_source_path
      else if is_absolute original
      then err absolute_source_path
      else join_segments (clean (split (slashed original)))

-- What normalizeSourceContent does to a decoded text: a byte order mark at the start is dropped, and
-- `\r\n?` becomes `\n`.
abbrev pub without_mark : Text → Text
without_mark [] = []
without_mark (c ∷ cs) = if c == 65279 then cs else c ∷ cs

-- The flag says whether a carriage return has just been replaced, whose line feed is dropped.
unfoldable pub newlines : Bool → Text → Text
newlines returned [] = []
newlines returned (c ∷ cs) =
    let rest = newlines (c == 13) cs in
    if c == 13 then 10 ∷ rest else if c == 10 && returned then rest else c ∷ rest

unfoldable pub normalize_source_content : Text → Text
unfolding newlines
normalize_source_content t = newlines false (without_mark t)
