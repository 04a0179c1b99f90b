-- ===== src/Proof/Registry.antt =====
-- packages/proof/src/registry.js: the call of publishReport as text, and back.
mod Tests
pub mod Hex
pub mod Accepted
pub mod Canonical
use veilforge.Base.{
  ℕ, zero, suc, ◌+◌, ◌-◌, ◌*◌, ◌/◌, ◌%◌, ◌^◌, ◌==◌, ◌≡◌, refl, Bool, true, false, not, ◌&&◌, ◌||◌,
  Option, none, some, List, [], ◌∷◌, ◌++◌, Result, ok, err, ◌>>=◌, ◌>>◌, guard, if◌then◌else◌, ltb,
  leb, all, take, drop, length, replicate,
}
use veilforge.Base.Text.{Text, codes, text_eq, is_hex, is_lower_hex, to_lower}
use veilforge.Hash.Keccak.{bytes_to_hex, function_selector, hex_digit}
use veilforge.Proof.Trust.{hex_number}
use veilforge.Proof.Readiness.Fields.{trim}

-- The errors that are thrown, by their messages.
pub data RegistryError : Type 0 where
  word_too_long not_bytes_32 version_missing score_out_of_range : RegistryError
  not_canonical_selector incomplete score_invalid : RegistryError
  offset_invalid offset_exceeds length_invalid encoding_invalid not_utf_8 not_canonical :
      RegistryError

-- `PUBLISH_REPORT_SELECTOR`
unfoldable pub publish_report_selector : Text
publish_report_selector =
    function_selector (codes "publishReport(bytes32,bytes32,bytes32,uint16,string,string)")

-- `String(value).replace(/^0x/i, '')`
abbrev pub strip_hex_prefix : Text → Text
strip_hex_prefix [] = []
strip_hex_prefix (a ∷ []) = a ∷ []
strip_hex_prefix (a ∷ b ∷ rest) =
    if a == b'0' && (b == b'x' || b == b'X') then rest else a ∷ b ∷ rest

-- `n.toString(16)`, where each step of fuel gives a digit.
pub to_hex_fuel : ℕ → ℕ → Text
to_hex_fuel zero n = hex_digit (n % 16) ∷ []
to_hex_fuel (suc fuel) n =
    let rest = to_hex_fuel fuel (n / 16) in
    if ltb n 16 then hex_digit n ∷ [] else rest ++ (hex_digit (n % 16) ∷ [])

unfoldable pub to_hex : ℕ → Text
unfolding to_hex_fuel
to_hex n = to_hex_fuel n n

unfoldable pub pad_word : Text → Result RegistryError Text
pad_word value =
    let hex = strip_hex_prefix value in
    if ltb 64 (length hex) then err word_too_long else ok (replicate (64 - length hex) b'0' ++ hex)

unfoldable pub pad_right_to_word : Text → Text
pad_right_to_word value =
    let remainder = length value % 64 in
    if remainder == 0 then value else value ++ replicate (64 - remainder) b'0'

unfoldable pub require_bytes_32 : Text → Result RegistryError Text
require_bytes_32 value =
    let hex = strip_hex_prefix value in
    if length hex == 64 && all is_hex hex then ok (to_lower hex) else err not_bytes_32

unfoldable pub require_scanner_version : Text → Result RegistryError Text
require_scanner_version value =
    let version = trim value in if length version == 0 then err version_missing else ok version

-- What a report gives to publish. The score is what `Number` makes of it, `none` where that is no
-- integer or is negative.
pub record Payload : Type 0 where
  pub project_id : Text
  pub source_hash : Text
  pub report_hash : Text
  pub score : Option ℕ
  pub scanner_version : Text
  pub report_uri : Text

abbrev pub checked_score : Option ℕ → Result RegistryError ℕ
checked_score none = err score_out_of_range
checked_score (some n) = if leb n 100 then ok n else err score_out_of_range

-- `encode_utf_8` is `TextEncoder`.
module _ (encode_utf_8 : Text → List ℕ) where
  unfoldable pub encode_dynamic_string : Text → Result RegistryError Text
  unfolding bytes_to_hex
  encode_dynamic_string value = do
    let body = bytes_to_hex (encode_utf_8 value)
    word ← pad_word (to_hex (length body / 2))
    ok (word ++ pad_right_to_word body)

  -- The head of six words.
  unfoldable pub encode_head : Payload → ℕ → Text → Result RegistryError Text
  encode_head p score version_tail = do
    project ← require_bytes_32 p.project_id
    source ← require_bytes_32 p.source_hash
    report ← require_bytes_32 p.report_hash
    score_word ← pad_word (to_hex score)
    version_offset ← pad_word (to_hex (6 * 32))
    uri_offset ← pad_word (to_hex (6 * 32 + length version_tail / 2))
    ok (project ++ source ++ report ++ score_word ++ version_offset ++ uri_offset)

  unfoldable pub encode_publish_report : Payload → Result RegistryError Text
  encode_publish_report p = do
    score ← checked_score p.score
    version ← require_scanner_version p.scanner_version
    version_tail ← encode_dynamic_string version
    uri_tail ← encode_dynamic_string p.report_uri
    head ← encode_head p score version_tail
    ok (publish_report_selector ++ head ++ version_tail ++ uri_tail)

-- `body.slice(from, to)`
abbrev slice : ℕ → ℕ → Text → Text
slice from to t = take (to - from) (drop from t)

-- `Number.parseInt` of each pair of digits
pub pairs : Text → List ℕ
pairs [] = []
pairs (_ ∷ []) = []
pairs (a ∷ b ∷ rest) = hex_number (a ∷ b ∷ []) ∷ pairs rest

abbrev decoded : Option Text → Result RegistryError Text
decoded none = err not_utf_8
decoded (some t) = ok t

abbrev pub word : ℕ → Text → Text
word i body = slice (i * 64) (i * 64 + 64) body

-- `decode_utf_8` is a fatal `TextDecoder`, `none` where it throws.
module _ (encode_utf_8 : Text → List ℕ) (decode_utf_8 : List ℕ → Option Text) where
  unfoldable pub decode_canonical_string : Text → ℕ → Result RegistryError Text
  unfolding pairs
  decode_canonical_string body offset = do
    guard (ltb offset (2 ^ 53) && leb 192 offset && offset % 32 == 0) offset_invalid
    let start = offset * 2
    guard (leb (start + 64) (length body)) offset_exceeds
    let count = hex_number (slice start (start + 64) body)
    guard (leb count 4096) length_invalid
    let value_start = start + 64
    let value_end = value_start + count * 2
    let padded_end = value_start + (count + 31) / 32 * 64
    guard
        (leb value_end (length body)
          && leb padded_end (length body)
          && all (λ c. c == b'0') (slice value_end padded_end body))
        encoding_invalid
    decoded (decode_utf_8 (pairs (slice value_start value_end body)))

  unfoldable pub decode_body : Text → Result RegistryError Payload
  decode_body body = do
    guard (leb (64 * 6) (length body)) incomplete
    let score = hex_number (word 3 body)
    guard (leb score 100) score_invalid
    version ← decode_canonical_string body (hex_number (word 4 body))
    uri ← decode_canonical_string body (hex_number (word 5 body))
    ok (record {
      project_id = codes "0x" ++ word 0 body;
      source_hash = codes "0x" ++ word 1 body;
      report_hash = codes "0x" ++ word 2 body;
      score = some score;
      scanner_version = version;
      report_uri = uri;
    })

  unfoldable pub decode_canonical_publish_report_calldata : Text → Result RegistryError Payload
  decode_canonical_publish_report_calldata value = do
    let data_ = to_lower value
    guard
        (text_eq (take 10 data_) publish_report_selector
          && length data_ % 2 == 0
          && all is_lower_hex (drop 2 data_))
        not_canonical_selector
    payload ← decode_body (drop (length publish_report_selector) data_)
    encoded ← encode_publish_report encode_utf_8 payload
    guard (text_eq (to_lower encoded) data_) not_canonical
    ok payload
