-- ===== src/Send/Tests.antt =====
-- Submissions on a concrete wallet, and the theorems at such inputs.

use veilforge.Base.{
  ℕ, ◌≤◌, ◌≡◌, refl, true, false, Option, none, some, List, [], ◌∷◌, ◌++◌, ◌%◌, map, replicate, ok,
  err,
}
use veilforge.Base.Text.{Text, codes, to_lower}
use veilforge.Coordinator.Record.{is_hash}
use veilforge.Coordinator.Methods.{Coordinator}
use veilforge.Coordinator.Trace.{inspect_call, claim_call}
use veilforge.Proof.Network.{arc_testnet, mainnet_evidence, testnet_registry}
use veilforge.Proof.Trust.{string}
use veilforge.Send.Failure.{coded, declined, send_disabled}
use veilforge.Send.Review.{Facts, Request, Preflight, Digests, check_review}
use veilforge.Proof.Registry.{Payload}
use veilforge.Send.Submit.{Surroundings, answers, late, submit}
use veilforge.Send.Sound.{
  Unrefused, Event, submission, single, alone, total_sends, total_sends-le-one, submit_unreviewed,
}
use veilforge.Send.Approved.{IsApproved, check_review_sound}

abbrev intent : Text
intent = codes "0x00112233445566778899aabbccddeeff00112233445566778899aabbccddeeff"

abbrev alice : Coordinator
alice = record { owner_id = codes "alice"; lease_ms = 120000 }

abbrev bob : Coordinator
bob = record { owner_id = codes "bob"; lease_ms = 120000 }

abbrev answered : Surroundings
answered = record {
  others = λ p. [];
  claimed_at = 1000;
  pending_at = 1001;
  started_at = 1002;
  known_at = 1003;
  handled_at = 1004;
  notify_pending = none;
  notify_started = none;
  notify_known = none;
  response = answers (codes "0xAB112233445566778899aabbccddeeff00112233445566778899aabbccddee01");
}

-- The wallet does not answer in time, another context tries to claim the intent all the while, and the
-- user tries again there.
abbrev twice : List Event
twice =
    submission alice (record answered { response = late; others = λ p. claim_call bob 1010 ∷ [] })
      (ok tt)
    ∷ single inspect_call
    ∷ submission bob answered (ok tt)
    ∷ []

twice-Unrefused : Unrefused twice
unfolding veilforge.Send.Sound.unrefused_event veilforge.Send.Trace.unrefused_run
twice-Unrefused = (refl, (λ p. (refl, tt)), (refl, tt, (refl, (λ p. tt), tt)))

total_sends-le-one_example : total_sends intent twice none ≤ 1
total_sends-le-one_example = total_sends-le-one intent twice none twice-Unrefused

-- A notification throws a refusal after the wallet has been asked, and the user tries again: the wallet
-- is asked twice.
abbrev misread : List Event
misread =
    submission alice (record answered { notify_started = some declined }) (ok tt)
    ∷ submission bob answered (ok tt)
    ∷ []

asked_twice : total_sends intent misread none ≡ 2
unfolding total_sends submit veilforge.Coordinator.Methods.claim is_hash
    veilforge.Coordinator.Record.parse_record veilforge.Send.Submit.request_wallet
    veilforge.Coordinator.Methods.transition veilforge.Coordinator.Record.serialize
    veilforge.Coordinator.Record.state_of veilforge.Coordinator.Methods.release_before_retry
    veilforge.Coordinator.Trace.after_all veilforge.Coordinator.Trace.total_starts
asked_twice = refl

valid : is_hash intent ≡ true
unfolding is_hash
valid = refl

submit_unreviewed_example :
    submit alice intent (alone answered) (err (coded send_disabled)) none ≡ record {
      result = err (coded send_disabled);
      provider_invoked = false;
      stored = none;
      sends = 0;
    }
submit_unreviewed_example = submit_unreviewed alice intent answered (coded send_disabled) valid

abbrev no_number : Text → Option ℕ
no_number t = none

abbrev ready : Preflight
ready = record {
  duplicate = false;
  passed = true;
  status = "ready";
  state_binding = some (codes "sha256:01");
}

abbrev latin : Text → List ℕ
latin = map (λ c. c % 256)

abbrev payload : Payload
payload = record {
  project_id = codes "0x" ++ replicate 64 b'1';
  source_hash = replicate 64 b'2';
  report_hash = replicate 64 b'3';
  score = some 87;
  scanner_version = codes "4.0.0";
  report_uri = [];
}

abbrev reviewed : Request
reviewed = record {
  from = mainnet_evidence.first_proof_publisher;
  to = testnet_registry;
  call_data =
      codes "0x6133eb3a"
      ++ replicate 64 b'1'
      ++ replicate 64 b'2'
      ++ replicate 64 b'3'
      ++ replicate 62 b'0'
      ++ codes "57"
      ++ replicate 62 b'0'
      ++ codes "c0"
      ++ replicate 61 b'0'
      ++ codes "100"
      ++ replicate 63 b'0'
      ++ codes "5342e302e30"
      ++ replicate 54 b'0'
      ++ replicate 64 b'0';
}

abbrev digests : Digests
digests = record { of_payload = λ p. ok p.report_hash; of_request = λ r. ok r.from }

abbrev facts : Facts
facts = record {
  trusted_click = true;
  network_key = "arc-testnet";
  envelope = none;
  review_ready = true;
  preflight_status = "ready-to-publish";
  network_preflight = ready;
  current_state_binding = some (codes "sha256:01");
  request = ok reviewed;
  expected_payload = ok payload;
  payload = some payload;
  reviewed_digest = mainnet_evidence.first_proof_publisher;
  accounts = ok (to_lower mainnet_evidence.first_proof_publisher ∷ []);
  provider_chain = ok (string (codes "0x4cef52"));
  fresh_preflight = ok ready;
  trusted_send = none;
}

approved : check_review latin digests no_number facts ≡ ok reviewed
unfolding check_review veilforge.Send.Review.check_request veilforge.Send.Review.check_wallet
    veilforge.Send.Review.check_fresh veilforge.Proof.Trust.assert_proof_network_capability
    veilforge.Proof.Trust.resolve_proof_network veilforge.Proof.Trust.checked_registry
    veilforge.Proof.Network.checksum_address veilforge.Proof.Network.checksum_of
    veilforge.Hash.Keccak.keccak_hex veilforge.Proof.Trust.check_capability
    veilforge.Proof.Trust.normalize_chain_id veilforge.Proof.Trust.hex_number
    veilforge.Proof.Registry.encode_publish_report veilforge.Proof.Registry.require_scanner_version
    veilforge.Proof.Readiness.Fields.trim veilforge.Proof.Registry.encode_dynamic_string
    veilforge.Proof.Registry.pad_word veilforge.Proof.Registry.to_hex
    veilforge.Proof.Registry.encode_head veilforge.Proof.Registry.require_bytes_32
    veilforge.Proof.Registry.pad_right_to_word veilforge.Proof.Registry.publish_report_selector
    veilforge.Hash.Keccak.function_selector
approved = refl

check_review_sound_example : IsApproved latin digests no_number facts reviewed
check_review_sound_example = check_review_sound latin digests no_number facts reviewed approved
