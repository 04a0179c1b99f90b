-- ===== src/Sources/Comments.antt =====
-- withoutComments of import-graph.js: comments become spaces. The source writes two units at once
-- where a mark of two units begins or ends a comment, or a string has an escape; here the second unit
-- is written by a state of its own.
use veilforge.Base.{
  ◌∙◌, ℕ, ◌==◌, ◌≡◌, refl, ap, Bool, true, false, not, ◌&&◌, ◌||◌, [], ◌∷◌, map, if◌then◌else◌,
  arith,
}
use veilforge.Base.Text.{Text}

-- `state` and `quote`; `blank s` and `keep s` are the second unit of a pair, before the state s.
pub data Scan : Type 0 where
  in_code in_line_comment in_block_comment : Scan
  in_string : ℕ → Scan
  blank keep : Scan → Scan

abbrev pub next_is : ℕ → Text → Bool
next_is c [] = false
next_is c (x ∷ xs) = x == c

abbrev pub newline_or_space : ℕ → ℕ
newline_or_space c = if c == b'\n' then b'\n' else b' '

-- What is written for a unit, with what comes after it,
unfoldable pub written : Scan → ℕ → Text → ℕ
written in_code c rest = if c == b'/' && (next_is b'/' rest || next_is b'*' rest) then b' ' else c
written in_line_comment c rest = newline_or_space c
written in_block_comment c rest =
    if c == b'*' && next_is b'/' rest then b' ' else newline_or_space c
written (in_string quote) c rest = c
written (blank s) c rest = b' '
written (keep s) c rest = c

-- and the state after it.
unfoldable pub after : Scan → ℕ → Text → Scan
after in_code c rest =
    if c == b'/' && next_is b'/' rest
    then blank in_line_comment
    else if c == b'/' && next_is b'*' rest
    then blank in_block_comment
    else if c == b'"' || c == b'\''
    then in_string c
    else in_code
after in_line_comment c rest = if c == b'\n' then in_code else in_line_comment
after in_block_comment c rest =
    if c == b'*' && next_is b'/' rest then blank in_code else in_block_comment
after (in_string quote) c rest =
    if c == b'\\' then keep (in_string quote) else if c == quote then in_code else in_string quote
after (blank s) c rest = s
after (keep s) c rest = s

unfoldable pub without_comments : Scan → Text → Text
unfolding written after
without_comments s [] = []
without_comments s (c ∷ rest) = written s c rest ∷ without_comments (after s c rest) rest

-- The states of the source.
unfoldable is_simple : Scan → Bool
is_simple in_code = true
is_simple in_line_comment = true
is_simple in_block_comment = true
is_simple (in_string quote) = true
is_simple (blank s) = false
is_simple (keep s) = false

-- A state that can come before a text: what is blanked is not a line feed.
unfoldable fits : Scan → Text → Bool
fits in_code t = true
fits in_line_comment t = true
fits in_block_comment t = true
fits (in_string quote) t = true
fits (blank s) [] = true
fits (blank s) (c ∷ rest) = not (c == b'\n') && is_simple s
fits (keep s) t = is_simple s

is_simple-fits : (s : Scan) (t : Text) → is_simple s ≡ true → fits s t ≡ true
unfolding is_simple fits
is_simple-fits in_code t h = refl
is_simple-fits in_line_comment t h = refl
is_simple-fits in_block_comment t h = refl
is_simple-fits (in_string quote) t h = refl
is_simple-fits (blank s) t h = cc
is_simple-fits (keep s) t h = cc

-- A second unit that is a given mark is no line feed.
blank-fits :
    (s : Scan) (mark : ℕ) (t : Text)
    → is_simple s ≡ true
    → (mark == b'\n') ≡ false
    → next_is mark t ≡ true
    → fits (blank s) t ≡ true
unfolding fits
blank-fits s mark [] h k n = refl
blank-fits s mark (c ∷ t) h k n = ground (arith, h, k, n)

if-fits :
    (b : Bool) (s r : Scan) (t : Text)
    → (b ≡ true → fits s t ≡ true)
    → (b ≡ false → fits r t ≡ true)
    → fits (if b then s else r) t ≡ true
if-fits true s r t h k = h refl
if-fits false s r t h k = k refl

after-fits :
    (s : Scan) (c : ℕ) (rest : Text) → fits s (c ∷ rest) ≡ true → fits (after s c rest) rest ≡ true
unfolding after fits is_simple
after-fits in_code c rest h =
    if-fits (c == b'/' && next_is b'/' rest) _ _ rest
      (λ line. blank-fits in_line_comment b'/' rest refl refl (ground (arith, line)))
      (λ _.
        if-fits (c == b'/' && next_is b'*' rest) _ _ rest
          (λ open_. blank-fits in_block_comment b'*' rest refl refl (ground (arith, open_)))
          (λ _. if-fits (c == b'"' || c == b'\'') _ _ rest (λ _. refl) (λ _. refl)))
after-fits in_line_comment c rest h = if-fits (c == b'\n') _ _ rest (λ _. refl) (λ _. refl)
after-fits in_block_comment c rest h =
    if-fits (c == b'*' && next_is b'/' rest) _ _ rest
      (λ close. blank-fits in_code b'/' rest refl refl (ground (arith, close))) (λ _. refl)
after-fits (in_string quote) c rest h =
    if-fits (c == b'\\') _ _ rest (λ _. refl)
      (λ _. if-fits (c == quote) _ _ rest (λ _. refl) (λ _. refl))
after-fits (blank s) c rest h = is_simple-fits s rest (ground (arith, h))
after-fits (keep s) c rest h = is_simple-fits s rest h

written-line :
    (s : Scan) (c : ℕ) (rest : Text)
    → fits s (c ∷ rest) ≡ true
    → (written s c rest == b'\n') ≡ (c == b'\n')
unfolding written fits
written-line in_code c rest h = ground arith
written-line in_line_comment c rest h = ground arith
written-line in_block_comment c rest h = ground arith
written-line (in_string quote) c rest h = refl
written-line (blank s) c rest h = ground (arith, h)
written-line (keep s) c rest h = refl

lines-kept :
    (s : Scan) (t : Text)
    → fits s t ≡ true
    → map (λ c. c == b'\n') (without_comments s t) ≡ map (λ c. c == b'\n') t
unfolding without_comments
lines-kept s [] h = refl
lines-kept s (c ∷ rest) h =
    ap (λ b. b ∷ map (λ x. x == b'\n') (without_comments (after s c rest) rest))
      (written-line s c rest h)
    ∙ ap (λ bs. (c == b'\n') ∷ bs) (lines-kept (after s c rest) rest (after-fits s c rest h))

-- Whatever the content, line feeds stand in the text without comments exactly where they stand in the
-- content, so the places and the lines of what is left are those of the content.
pub without_comments_lines :
    (content : Text)
    → map (λ c. c == b'\n') (without_comments in_code content) ≡ map (λ c. c == b'\n') content
unfolding fits
without_comments_lines content = lines-kept in_code content refl
