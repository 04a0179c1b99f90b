-- ===== src/Proof/Registry/Tests.antt =====
-- A call on concrete bytes, and the theorems at such inputs.
use veilforge.Base.{
  ℕ, ◌%◌, ◌≤◌, ◌≡◌, refl, arith, List, [], ◌++◌, map, replicate, All, All-map, true, some, ok,
}
use veilforge.Base.Text.{Text, codes, to_lower}
use veilforge.Hash.Keccak.Bounds.{IsByte}
use veilforge.Proof.Trust.{hex_number}
use veilforge.Proof.Readiness.Use.{is_publish_call}
use veilforge.Proof.Registry.{
  Payload, encode_publish_report, to_hex, decode_canonical_publish_report_calldata,
}
use veilforge.Proof.Registry.Canonical.{decode_canonical_sound}
use veilforge.Proof.Registry.Accepted.{encode_publish_report_accepted}

-- Texts of code points below 256 as bytes.
abbrev latin : Text → List ℕ
latin = map (λ c. c % 256)

latin_bytes : (t : Text) → All IsByte (latin t)
latin_bytes t = All-map IsByte (λ c. c % 256) t (λ c. omega arith)

abbrev payload : Payload
payload = record {
  project_id = codes "0x" ++ replicate 64 b'1';
  source_hash = codes "0xABABABABABABABABABABABABABABABABABABABABABABABABABABABABABABABAB";
  report_hash = replicate 64 b'3';
  score = some 87;
  scanner_version = codes " 4.0.0 ";
  report_uri = [];
}

abbrev call : Text
call =
    codes "0x6133eb3a111111111111111111111111111111111111111111111111111111"
    ++ codes "1111111111ababababababababababababababababababababababababababab"
    ++ codes "ababababab333333333333333333333333333333333333333333333333333333"
    ++ codes "3333333333000000000000000000000000000000000000000000000000000000"
    ++ codes "0000000057000000000000000000000000000000000000000000000000000000"
    ++ codes "00000000c0000000000000000000000000000000000000000000000000000000"
    ++ codes "0000000100000000000000000000000000000000000000000000000000000000"
    ++ codes "0000000005342e302e3000000000000000000000000000000000000000000000"
    ++ codes "0000000000000000000000000000000000000000000000000000000000000000"
    ++ codes "0000000000"

encoded : encode_publish_report latin payload ≡ ok call
unfolding encode_publish_report veilforge.Proof.Registry.require_scanner_version
    veilforge.Proof.Readiness.Fields.trim veilforge.Proof.Registry.encode_dynamic_string
    veilforge.Proof.Registry.pad_word to_hex veilforge.Proof.Registry.encode_head
    veilforge.Proof.Registry.require_bytes_32 veilforge.Proof.Registry.pad_right_to_word
    veilforge.Proof.Registry.publish_report_selector veilforge.Hash.Keccak.function_selector
encoded = refl

encode_publish_report_accepted_example : is_publish_call call ≡ true
encode_publish_report_accepted_example =
    encode_publish_report_accepted latin latin_bytes payload call encoded

abbrev read_back : Payload
read_back = record payload {
  report_hash = codes "0x" ++ replicate 64 b'3';
  source_hash = to_lower payload.source_hash;
  scanner_version = codes "4.0.0";
}

decoded : decode_canonical_publish_report_calldata latin some call ≡ ok read_back
unfolding decode_canonical_publish_report_calldata veilforge.Proof.Registry.decode_body
    veilforge.Proof.Registry.decode_canonical_string hex_number encode_publish_report
    veilforge.Proof.Registry.require_scanner_version veilforge.Proof.Readiness.Fields.trim
    veilforge.Proof.Registry.encode_dynamic_string veilforge.Proof.Registry.pad_word to_hex
    veilforge.Proof.Registry.encode_head veilforge.Proof.Registry.require_bytes_32
    veilforge.Proof.Registry.pad_right_to_word veilforge.Proof.Registry.publish_report_selector
    veilforge.Hash.Keccak.function_selector
decoded = refl

decode_canonical_sound_example :
    (c : Text) × (encode_publish_report latin read_back ≡ ok c)
    × (to_lower c ≡ to_lower call)
    × ((n : ℕ) × (read_back.score ≡ some n) × (n ≤ 100))
decode_canonical_sound_example = decode_canonical_sound latin some call read_back decoded
