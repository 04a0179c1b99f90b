-- ===== src/Coordinator/Tests.antt =====
-- The life of one intent on concrete records, and the theorems at such inputs.

use veilforge.Base.{◌≡◌, refl, ap, true, false, none, some, List, [], ◌∷◌, ok, arith, ◌↔◌, ◌⊎◌, ◌≤◌}
use veilforge.Base.Text.{Text, codes, text_eq}
use veilforge.Coordinator.Record.{
  prepared, wallet_request_pending, provider_call_started, tx_hash_known, confirmed, rejected,
  SendRecord, pos, is_hash, parse_record, serialize, state_of, legacy_state, json, StoredHash,
  negsuc,
}
use veilforge.Coordinator.Methods.{
  Coordinator, claim, transition, recover_after_reload, confirm, allowed, write, fresh,
  before_provider, is_stale,
}
use veilforge.Coordinator.Trace.{
  reload_call, Call, claim_call, transition_call, confirm_call, after, starts, total_starts,
  after_all,
}
use veilforge.Coordinator.Once.{total_starts-le-one}
use veilforge.Coordinator.Ownership.{
  parse_record-write, claim_excludes, transition_sound, reload_forgets_iff,
}
use veilforge.Coordinator.Graph.{◌⟶◌, after-⟶, confirmed_final}

abbrev intent : Text
intent = codes "0x00112233445566778899aabbccddeeff00112233445566778899aabbccddeeff"

abbrev hash : Text
hash = codes "0xAB112233445566778899aabbccddeeff00112233445566778899aabbccddee01"

abbrev low_hash : Text
low_hash = codes "0xab112233445566778899aabbccddeeff00112233445566778899aabbccddee01"

abbrev alice : Coordinator
alice = record { owner_id = codes "alice"; lease_ms = 120000 }

abbrev bob : Coordinator
bob = record { owner_id = codes "bob"; lease_ms = 120000 }

-- Alice publishes; Bob finds the intent taken.
abbrev publication : List Call
publication =
    claim_call alice 1000
    ∷ claim_call bob 2000
    ∷ transition_call alice wallet_request_pending none 3000
    ∷ transition_call bob provider_call_started none 3500
    ∷ transition_call alice provider_call_started none 4000
    ∷ transition_call alice tx_hash_known (some hash) 5000
    ∷ claim_call bob 900000
    ∷ confirm_call hash 900001
    ∷ []

abbrev published : SendRecord
published = record {
  intent_id = intent;
  owner_id = codes "alice";
  state = confirmed;
  transaction_hash = some low_hash;
  created_at = pos 1000;
  updated_at = pos 900001;
}

publication_ends : after_all intent publication none ≡ write published
unfolding after_all after claim transition confirm parse_record state_of serialize is_hash
publication_ends = refl

publication_starts : total_starts intent publication none ≡ 1
unfolding total_starts starts after claim transition confirm parse_record state_of serialize is_hash
publication_starts = refl

-- A record of the first version is read with its state renamed.
legacy_record :
    parse_record intent (
      some (
        json (record {
          version = some 1;
          status = some "validating";
          state = none;
          intent_id = some intent;
          owner_id = some (codes "carol");
          created_at = some (pos 7);
          updated_at = some (negsuc 0);
          transaction_hash = StoredHash.null;
        })))
    ≡ ok (
        some (record {
          intent_id = intent;
          owner_id = codes "carol";
          state = prepared;
          transaction_hash = none;
          created_at = pos 7;
          updated_at = negsuc 0;
        }))
unfolding parse_record legacy_state
legacy_record = refl

total_starts-le-one_example : total_starts intent publication none ≤ 1
total_starts-le-one_example =
    total_starts-le-one intent publication none
      (refl, (refl, (refl, (refl, (refl, (refl, (refl, (refl, tt))))))))

parse_record-write_example : parse_record intent (write published) ≡ ok (some published)
unfolding is_hash
parse_record-write_example = parse_record-write published refl

-- Another context tries to go on, and a reload looks for what can be recovered.
abbrev meddling : List Call
meddling =
    transition_call bob wallet_request_pending none 1100
    ∷ reload_call alice 1200
    ∷ confirm_call hash 1300
    ∷ []

claim_excludes_example :
    claim bob intent 2000 (after_all intent meddling (claim alice intent 1000 none).1) ≡ (
      ok (record { acquired = false; claimed = fresh alice intent 1000 }),
      (claim alice intent 1000 none).1,
    )
unfolding claim parse_record is_hash
claim_excludes_example =
    claim_excludes alice bob intent 1000 2000 none (fresh alice intent 1000) meddling refl refl
      (omega arith) refl

abbrev asking : SendRecord
asking = record published {
  state = wallet_request_pending;
  transaction_hash = none;
  updated_at = pos 3000;
}

abbrev starting : SendRecord
starting = record asking { state = provider_call_started; updated_at = pos 4000 }

asking_starts :
    transition alice intent provider_call_started none 4000 (write asking)
    ≡ (ok starting, write starting)
unfolding transition parse_record state_of serialize is_hash
asking_starts = refl

reads_asking : parse_record intent (write asking) ≡ ok (some asking)
reads_asking = parse_record-write asking tt

reads_starting : parse_record intent (write starting) ≡ ok (some starting)
reads_starting = parse_record-write starting tt

transition_sound_example :
    (e : SendRecord) × (parse_record intent (write asking) ≡ ok (some e))
    × (text_eq e.owner_id alice.owner_id ≡ true)
    × (allowed e.state provider_call_started ≡ true)
    × (starting.state ≡ provider_call_started)
    × (starting.intent_id ≡ e.intent_id)
    × (starting.owner_id ≡ e.owner_id)
    × (starting.created_at ≡ e.created_at)
    × ((transition alice intent provider_call_started none 4000 (write asking)).1 ≡ write starting)
transition_sound_example =
    transition_sound alice intent provider_call_started none 4000 (write asking) starting
      (ap (λ t. t.0) asking_starts)

reload_forgets_iff_example : ((recover_after_reload bob intent 200000 (write asking)).1 ≡ none) ↔ (
    (asking.state ≡ rejected)
    ⊎ ((before_provider asking.state ≡ true) × (is_stale bob.lease_ms asking 200000 ≡ true)))
unfolding is_hash
reload_forgets_iff_example =
    reload_forgets_iff bob intent 200000 (write asking) asking refl reads_asking

abbrev start_call : Call
start_call = transition_call alice provider_call_started none 4000

starts_asking : after intent start_call (write asking) ≡ write starting
unfolding after
starts_asking = ap (λ t. t.1) asking_starts

after-⟶_example : wallet_request_pending ⟶ provider_call_started
after-⟶_example =
    after-⟶ intent start_call (write asking) asking starting reads_asking
      (rw starts_asking reads_starting)

confirmed_final_example : after_all intent publication (write published) ≡ write published
confirmed_final_example =
    confirmed_final intent (write published) published parse_record-write_example refl publication
