-- ===== src/Proof/Registry/Accepted.antt =====
-- encodePublishReport and the check of a transaction's data: every call that the first builds passes
-- the second.
use veilforge.Base.{
  ℕ, suc, ◌+◌, ◌*◌, ◌/◌, ◌≤◌, ◌==◌, ◌≡◌, ◌∙◌, refl, true, ◌&&◌, List, [], ◌∷◌, ◌++◌, ok, err, arith,
  all, length, All, length-append, length-map, split_&&, ==_iff, Bool-cases, inl, inr, >>=-eq-ok,
  ok-injective, if◌then◌else◌,
}
use veilforge.Base.Text.{Text, codes, is_hex, is_lower_hex, to_lower, lower}
use veilforge.Hash.Keccak.{bytes_to_hex}
use veilforge.Hash.Keccak.Bounds.{IsByte}
use veilforge.Proof.Readiness.Use.{is_publish_call}
use veilforge.Proof.Registry.{
  Payload, checked_score, require_scanner_version, require_bytes_32, encode_dynamic_string,
  encode_head, encode_publish_report, publish_report_selector, pad_word, to_hex, pad_right_to_word,
  strip_hex_prefix, not_bytes_32,
}
use veilforge.Proof.Registry.Hex.{
  IsHexWord, pad_word_lem, all-to_hex, all-append, all-bytes_to_hex, all-pad_right_to_word,
  is_hex-of_lower,
}

selector_lem : publish_report_selector ≡ codes "0x6133eb3a"
unfolding publish_report_selector veilforge.Hash.Keccak.function_selector
selector_lem = refl

to_lower-hex : (t : Text) → all is_hex t ≡ true → all is_lower_hex (to_lower t) ≡ true
to_lower-hex [] h = refl
to_lower-hex (c ∷ t) h = ground (arith, to_lower-hex t)

lowered_word :
    (hex w : Text)
    → (if length hex == 64 && all is_hex hex then ok (to_lower hex) else err not_bytes_32) ≡ ok w
    → IsHexWord w
lowered_word hex w h = elim (Bool-cases (length hex == 64 && all is_hex hex)) [
  | inr other ↦ absurd (cc (rw other at h))
  | inl both ↦
      let (wide, digits) = split_&& (length hex == 64) (all is_hex hex) both in
      let same : ok (to_lower hex) ≡ ok w = rw both at h in
      rw (← ok-injective same) (record {
        wide = length-map lower hex ∙ (==_iff (length hex) 64).0 wide;
        digits = to_lower-hex hex digits;
      })
]

require_bytes_32-IsHexWord : (t w : Text) → require_bytes_32 t ≡ ok w → IsHexWord w
unfolding require_bytes_32
require_bytes_32-IsHexWord t w h = lowered_word (strip_hex_prefix t) w h

-- A text of so many words.
AreWords : ℕ → Text → Type 0
AreWords n t = (length t ≡ n * 64) × (all is_lower_hex t ≡ true)

add_word : (n : ℕ) (a b : Text) → AreWords n a → IsHexWord b → AreWords (suc n) (a ++ b)
unfolding AreWords
add_word n a b h k =
    (omega (arith, length-append {0} a b, h.0, k.wide), all-append is_lower_hex a b h.1 k.digits)

one_word : (a : Text) → IsHexWord a → AreWords 1 a
unfolding AreWords
one_word a h = (h.wide, h.digits)

-- The call that the data of a transaction must be.
is_call :
    (rest : Text)
    → 6 * 64 ≤ length rest
    → all is_lower_hex rest ≡ true
    → is_publish_call (codes "0x6133eb3a" ++ rest) ≡ true
unfolding is_publish_call
is_call rest long hex = ground (arith, is_hex-of_lower rest hex)

passes :
    (head tail uri : Text)
    → AreWords 6 head
    → all is_lower_hex tail ≡ true
    → all is_lower_hex uri ≡ true
    → is_publish_call (publish_report_selector ++ head ++ tail ++ uri) ≡ true
unfolding AreWords
passes head tail uri words h k =
    let front = all-append is_lower_hex head tail words.1 h in
    let long = length-append {0} (head ++ tail) uri in
    rw selector_lem (
      is_call (head ++ tail ++ uri) (omega (arith, long, length-append {0} head tail, words.0))
        (all-append is_lower_hex (head ++ tail) uri front k))

module _ (encode_utf_8 : Text → List ℕ) (bytes : (t : Text) → All IsByte (encode_utf_8 t)) where
  string_digits :
      (t tail : Text)
      → encode_dynamic_string encode_utf_8 t ≡ ok tail
      → all is_lower_hex tail ≡ true
  unfolding encode_dynamic_string
  string_digits t tail h =
      let body = bytes_to_hex (encode_utf_8 t) in
      let digits = all-bytes_to_hex (encode_utf_8 t) (bytes t) in
      let (w, padded, same) = >>=-eq-ok (pad_word (to_hex (length body / 2))) _ h in
      let (_, word) =
        pad_word_lem (to_hex (length body / 2)) w (all-to_hex (length body / 2)) padded in
      rw (← ok-injective same) (
        all-append is_lower_hex w (pad_right_to_word body) word.digits
          (all-pad_right_to_word body digits))

  head_words :
      (p : Payload) (score : ℕ) (tail head : Text)
      → encode_head encode_utf_8 p score tail ≡ ok head
      → AreWords 6 head
  unfolding encode_head
  head_words p score tail head h =
      let (project, h₁, r₁) = >>=-eq-ok (require_bytes_32 p.project_id) _ h in
      let (source, h₂, r₂) = >>=-eq-ok (require_bytes_32 p.source_hash) _ r₁ in
      let (report, h₃, r₃) = >>=-eq-ok (require_bytes_32 p.report_hash) _ r₂ in
      let (w, h₄, r₄) = >>=-eq-ok (pad_word (to_hex score)) _ r₃ in
      let (version, h₅, r₅) = >>=-eq-ok (pad_word (to_hex (6 * 32))) _ r₄ in
      let (uri, h₆, same) = >>=-eq-ok (pad_word (to_hex (6 * 32 + length tail / 2))) _ r₅ in
      let last = pad_word_lem _ uri (all-to_hex (6 * 32 + length tail / 2)) h₆ in
      rw (← ok-injective same) (
        add_word 5 _ uri
          (add_word 4 _ version
            (add_word 3 _ w
              (add_word 2 _ report
                (add_word 1 project source
                  (one_word project (require_bytes_32-IsHexWord p.project_id project h₁))
                  (require_bytes_32-IsHexWord p.source_hash source h₂))
                (require_bytes_32-IsHexWord p.report_hash report h₃))
              (pad_word_lem _ w (all-to_hex score) h₄).1)
            (pad_word_lem _ version (all-to_hex (6 * 32)) h₅).1)
          last.1)

-- Where TextEncoder gives bytes, every call that `encode_publish_report` builds passes the check of a
-- transaction's data: the selector of publishReport, and at least six words in hexadecimal digits.
pub encode_publish_report_accepted :
    (encode_utf_8 : Text → List ℕ)
    → ((t : Text) → All IsByte (encode_utf_8 t))
    → (p : Payload) (call : Text) → encode_publish_report encode_utf_8 p ≡ ok call
    → is_publish_call call ≡ true
unfolding encode_publish_report
encode_publish_report_accepted encode_utf_8 bytes p call h =
    let (score, _, r₁) = >>=-eq-ok (checked_score p.score) _ h in
    let (version, _, r₂) = >>=-eq-ok (require_scanner_version p.scanner_version) _ r₁ in
    let (tail, h₃, r₃) = >>=-eq-ok (encode_dynamic_string encode_utf_8 version) _ r₂ in
    let (uri, h₄, r₄) = >>=-eq-ok (encode_dynamic_string encode_utf_8 p.report_uri) _ r₃ in
    let (head, h₅, same) = >>=-eq-ok (encode_head encode_utf_8 p score tail) _ r₄ in
    rw (← ok-injective same) (
      passes head tail uri (head_words encode_utf_8 bytes p score tail head h₅)
        (string_digits encode_utf_8 bytes version tail h₃)
        (string_digits encode_utf_8 bytes p.report_uri uri h₄))
