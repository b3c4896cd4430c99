-- ===== src/Tests/Head.antt =====
-- A head at slot 69, then the attributes of slot 70.
use mev_boost_relay.Prelude.{
  ℕ, ◌+◌, ◌≤◌, ◌⊎◌, ◌≡◌, refl, subst, Option, some, List, [], ◌∷◌, Bytes, codes, true, arith,
}
use mev_boost_relay.Api.Submission.{passed, check_submission_payload_attrs}
use mev_boost_relay.Api.Submit.{Relay}
use mev_boost_relay.Api.Head.{
  PayloadAttributesEvent, start_server, duties_of, update_duties, prepare_builders, Head, new_slot,
  prepares, process_new_slot, prepare_builders_for_slot, process_payload_attributes,
  withdrawals_root, parent_beacon_root,
}
use mev_boost_relay.Api.Head.Bounds.{Reach, here, next, head_monotone}
use mev_boost_relay.Api.Head.Known.{attributes-pass}
use mev_boost_relay.Payloads.{made}
use mev_boost_relay.Tests.Api.{api, duty}
use mev_boost_relay.Tests.Submit.{relay, submitted}

abbrev root_of : List ℕ → Option Bytes
root_of ws = some (codes "0x0b")

abbrev hash_of : Bytes → Option Bytes
hash_of s = some s

abbrev started : Relay
started = record relay { api = api; head_slot = 0; optimistic_slot = 0 }

-- The beacon nodes report slot 68 at the start, where the duty of slot 70 is known.
abbrev at_start : Head
at_start = record {
  relay = record started { api = record api { proposer_duties_map = duties_of ((70, duty) ∷ []) } };
  proposer_duties_slot = 68;
  pending = [];
}

starts : start_server true (made ((70, duty) ∷ [])) 68 started ≡ at_start
unfolding start_server mev_boost_relay.Api.Head.update_proposer_duties
    mev_boost_relay.Api.Head.update_proposer_duties_without_checks
starts = refl

abbrev at_head : Head
at_head = record {
  relay = record (at_start.relay) { head_slot = 69 };
  proposer_duties_slot = 68;
  pending = update_duties 69 ∷ prepare_builders 69 ∷ [];
}

reports_head : process_new_slot true 69 at_start ≡ at_head
unfolding process_new_slot
reports_head = refl

at_start-Reach : Reach root_of hash_of true 68 at_start
at_start-Reach =
    subst (Reach root_of hash_of true 68) starts
      (here true (made ((70, duty) ∷ [])) started refl refl)

at_head-Reach : Reach root_of hash_of true 68 at_head
at_head-Reach =
    subst (Reach root_of hash_of true 68) reports_head (next at_start-Reach (new_slot 69))

head_monotone_example :
    let t =
      prepare_builders_for_slot (made []) 69 (record at_head { pending = update_duties 69 ∷ [] }) in
    (69 ≤ t.relay.head_slot)
    × (t.relay.optimistic_slot ≤ t.relay.head_slot + 1)
    × ((t.proposer_duties_slot ≤ t.relay.head_slot) ⊎ (t.proposer_duties_slot ≤ 68))
head_monotone_example =
    head_monotone at_head-Reach (prepares (made []) (update_duties 69 ∷ []) [] 69 refl)

abbrev event : PayloadAttributesEvent ℕ
event = record {
  proposal_slot = 70;
  parent_block_hash = codes "0x11";
  prev_randao = codes "0x01";
  withdrawals = some [];
  parent_beacon_block_root = codes "0x0d";
}

has_withdrawals_root :
    withdrawals_root root_of hash_of at_head.relay.api event ≡ some (codes "0x0b")
unfolding withdrawals_root mev_boost_relay.Api.Forks.has_reached_fork
has_withdrawals_root = refl

has_beacon_root :
    parent_beacon_root root_of hash_of at_head.relay.api event ≡ some (some (codes "0x0d"))
unfolding parent_beacon_root mev_boost_relay.Api.Forks.has_reached_fork
has_beacon_root = refl

attributes-pass_example :
    check_submission_payload_attrs root_of
      (process_payload_attributes root_of hash_of event at_head.relay).api
      submitted
    ≡ passed (record {
      slot = 70;
      prev_randao = codes "0x01";
      withdrawals_root = codes "0x0b";
      parent_beacon_root = some (codes "0x0d");
    })
attributes-pass_example =
    attributes-pass root_of hash_of event at_head.relay submitted (codes "0x0b")
      (some (codes "0x0d")) (omega arith) refl has_withdrawals_root has_beacon_root refl refl refl
      refl
