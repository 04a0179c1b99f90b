-- ===== src/Proof/Registry/Canonical.antt =====
-- decodeCanonicalPublishReportCalldata: only canonical encodings are read.
use veilforge.Base.{
  ℕ, ◌*◌, ◌%◌, ◌==◌, ◌≡◌, ◌≤◌, sym, ap, ◌&&◌, List, Option, some, ok, >>=-eq-ok, guard_then,
  ok-injective, all, take, drop, length, leb, leb→le,
}
use veilforge.Base.Text.{Text, text_eq, text_eq_sound, to_lower, is_lower_hex}
use veilforge.Proof.Trust.{hex_number}
use veilforge.Proof.Registry.{
  Payload, not_canonical_selector, not_canonical, incomplete, score_invalid,
  publish_report_selector, encode_publish_report, decode_body, decode_canonical_string,
  decode_canonical_publish_report_calldata, word,
}

module _ (encode_utf_8 : Text → List ℕ) (decode_utf_8 : List ℕ → Option Text) where
  body_score :
      (body : Text) (p : Payload)
      → decode_body encode_utf_8 decode_utf_8 body ≡ ok p
      → (n : ℕ) × (p.score ≡ some n) × (n ≤ 100)
  unfolding decode_body
  body_score body p h =
      let (_, r₁) = guard_then (leb (64 * 6) (length body)) incomplete _ h in
      let (small, r₂) = guard_then (leb (hex_number (word 3 body)) 100) score_invalid _ r₁ in
      let (version, _, r₃) =
        >>=-eq-ok
          (decode_canonical_string encode_utf_8 decode_utf_8 body (hex_number (word 4 body))) _
          r₂ in
      let (uri, _, same) =
        >>=-eq-ok
          (decode_canonical_string encode_utf_8 decode_utf_8 body (hex_number (word 5 body))) _
          r₃ in
      (hex_number (word 3 body), sym (ap (λ x. x.score) (ok-injective same)), leb→le _ _ small)

-- Calldata that is read as a payload is, up to the case of its digits, the encoding of that payload,
-- and the payload's score is at most 100.
pub decode_canonical_sound :
    (encode_utf_8 : Text → List ℕ) (decode_utf_8 : List ℕ → Option Text) (value : Text)
    (p : Payload)
    → decode_canonical_publish_report_calldata encode_utf_8 decode_utf_8 value ≡ ok p
    → (call : Text) × (encode_publish_report encode_utf_8 p ≡ ok call)
      × (to_lower call ≡ to_lower value)
      × ((n : ℕ) × (p.score ≡ some n) × (n ≤ 100))
unfolding decode_canonical_publish_report_calldata
decode_canonical_sound encode_utf_8 decode_utf_8 value p h =
    let (_, r₁) =
      guard_then
        (text_eq (take 10 (to_lower value)) publish_report_selector
          && length (to_lower value) % 2 == 0
          && all is_lower_hex (drop 2 (to_lower value)))
        not_canonical_selector _ h in
    let (q, decoded, r₂) =
      >>=-eq-ok
        (decode_body encode_utf_8 decode_utf_8
          (drop (length publish_report_selector) (to_lower value)))
        _ r₁ in
    let (call, encoded, r₃) = >>=-eq-ok (encode_publish_report encode_utf_8 q) _ r₂ in
    let (canonical, same) =
      guard_then (text_eq (to_lower call) (to_lower value)) not_canonical _ r₃ in
    rw (← ok-injective same) (
      call,
      encoded,
      text_eq_sound (to_lower call) (to_lower value) canonical,
      body_score encode_utf_8 decode_utf_8 _ q decoded,
    )
