-- ===== src/Tests/Api.antt =====
-- Concrete blocks, submissions and simulations.
use mev_boost_relay.Prelude.{
  ◌⊎◌, ◌*◌, ℕ, ◌+◌, ◌^◌, ◌<◌, ◌≤◌, ◌≡◌, refl, ◌↔◌, inl, inr, Option, none, some, List, [], ◌∷◌, map,
  Bytes, codes, Bool, true, false, not, ◌||◌, arith, ◌==◌, if◌then◌else◌,
}
use mev_boost_relay.Common.{BidTrace, deneb}
use mev_boost_relay.Registry.{Registry, set_pubkeys, to_lower, member}
use mev_boost_relay.Api.Forks.{ForkEpochs, BlindedBlockFields, below_zero, epoch}
use mev_boost_relay.Api.Equal.{
  Roots, BlockBody, BlindedBlock, Revealed, Matches, eq_blinded_block_contents_to_block_contents,
  eq_blinded_iff,
}
use mev_boost_relay.Api.Submission.{
  RelayApi, Duty, BuilderStatus, passed, check_submission_slot_details,
  check_submission_fee_recipient, vouch_pays_protocol, expected_timestamp,
}
use mev_boost_relay.Api.SlotDetails.{IsBefore, IsFrom, check_submission_slot_details_iff}
use mev_boost_relay.Payloads.Info.{BlockSubmissionInfo}
use mev_boost_relay.Api.Slot.{
  get_slot_from_builder_ssz_payload, message_offset, panics, get_slot_panics_iff,
}
use mev_boost_relay.Api.Optimistic.{Simulated, IsJust, process_optimistic_block, demoted_for_cause}

abbrev forks : ForkEpochs
forks = record {
  capella_epoch = epoch 1;
  deneb_epoch = epoch 2;
  electra_epoch = epoch 3;
  fulu_epoch = below_zero 1;
}

abbrev deneb_fields : BlindedBlockFields
deneb_fields = record {
  has_bellatrix = false;
  has_capella = false;
  has_deneb = true;
  has_electra = false;
  has_fulu = false;
}

-- A header is its root, and so is a payload.
abbrev pub plain : Roots
plain = record {
  Header = Bytes;
  Payload = Bytes;
  header_root = λ h. inr h;
  payload_to_header = λ v p. inr p;
}

abbrev pub body : BlockBody
body = record {
  randao_reveal = codes "0x0a";
  eth1_data = [];
  graffiti = codes "relay";
  proposer_slashings = [];
  attester_slashings = [];
  attestations = [];
  deposits = [];
  voluntary_exits = [];
  sync_aggregate = [];
  bls_to_execution_changes = [];
  commitments = codes "0x0c" ∷ [];
  execution_requests = [];
}

abbrev pub signed : BlindedBlock plain
signed = record {
  version = deneb;
  slot = 70;
  proposer_index = 5;
  parent_root = codes "0x01";
  state_root = codes "0x02";
  body = body;
  header = codes "0x22";
  signature = codes "0x99";
}

abbrev pub revealed : Revealed plain
revealed = record {
  version = deneb;
  payload = codes "0x22";
  commitments = codes "0x0c" ∷ [];
  proofs = codes "0x0d" ∷ [];
  blobs = codes "0x0e" ∷ [];
}

eq_blinded_iff_example :
    (eq_blinded_block_contents_to_block_contents plain signed revealed ≡ none)
    ↔ ((deneb ≡ deneb) × Matches plain deneb signed revealed)
eq_blinded_iff_example = eq_blinded_iff plain signed revealed

abbrev registry : Registry
registry = record { has_rpc = false; pubkeys = []; saved = []; syncing = false }

abbrev vouch_keys : List Bytes
vouch_keys = codes "0xAB01" ∷ []

abbrev protocol : Bytes
protocol = codes "0xFd"

abbrev pub duty : Duty
duty = record {
  validator_index = 5;
  pubkey = codes "0xab01";
  fee_recipient = protocol;
  gas_limit = 30;
}

abbrev pub api : RelayApi
api = record {
  forks = forks;
  genesis_time = 1000;
  proposer_duties_map = λ slot. if slot == 70 then some duty else none;
  protocol_fee_recipient = some protocol;
  vouch_registry = some (set_pubkeys registry vouch_keys);
  payload_attributes = λ key. none;
  block_builders_cache = λ key. none;
  ff_disable_low_prio_builders = false;
}

abbrev pub bid : BidTrace
bid = record {
  slot = 70;
  parent_hash = codes "0x11";
  block_hash = codes "0x22";
  builder_pubkey = codes "0xa1";
  proposer_pubkey = codes "0xab01";
  proposer_fee_recipient = codes "0xfd";
  gas_limit = 30;
  gas_used = 3;
  value = 5;
}

passes_fee_check : check_submission_fee_recipient api bid ≡ passed 30
unfolding check_submission_fee_recipient mev_boost_relay.Api.Submission.check_duty
    mev_boost_relay.Prelude.bytes_eq mev_boost_relay.Registry.lower
    mev_boost_relay.Api.Submission.check_protocol_fee_recipient
    mev_boost_relay.Api.Submission.enforced mev_boost_relay.Api.Submission.is_vouch
    mev_boost_relay.Registry.is_vouch_pubkey member set_pubkeys mev_boost_relay.Registry.add_lower
    mev_boost_relay.Registry.add mev_boost_relay.Api.Submission.is_protocol_recipient
passes_fee_check = refl

key_listed : member (to_lower (codes "0xab01")) (map to_lower vouch_keys) ≡ true
unfolding member mev_boost_relay.Prelude.bytes_eq mev_boost_relay.Registry.lower
key_listed = refl

vouch_pays_protocol_example : (to_lower protocol ≡ to_lower (codes "0xfd")) × (duty.gas_limit ≡ 30)
vouch_pays_protocol_example =
    vouch_pays_protocol api bid duty registry vouch_keys protocol 30 refl refl refl key_listed
      passes_fee_check

abbrev submission : BlockSubmissionInfo ℕ
submission = record {
  bid_trace = bid;
  signature = codes "0x98";
  execution_payload_block_hash = codes "0x22";
  execution_payload_parent_hash = codes "0x11";
  gas_used = 3;
  gas_limit = 30;
  timestamp = 1840;
  transactions = codes "0x02" ∷ [];
  block_number = 9;
  prev_randao = codes "0x01";
  withdrawals = none;
  blobs = codes "0x0e" ∷ [];
  blob_gas_used = 1;
  excess_blob_gas = 0;
  deposit_requests = [];
  withdrawal_requests = [];
  consolidation_requests = [];
}

check_submission_slot_details_iff_example :
    (check_submission_slot_details api 69 deneb_fields submission ≡ passed tt) ↔ (
      (69 < 70)
      × (1840 ≡ 1000 + 70 * 12)
      × (IsBefore 70 (below_zero 1) ⊎ (false ≡ true))
      × (IsBefore 70 (epoch 3) ⊎ (IsFrom 70 (below_zero 1) ⊎ (false ≡ true)))
      × (IsBefore 70 (epoch 2) ⊎ (IsFrom 70 (epoch 3) ⊎ (true ≡ true)))
      × (IsBefore 70 (epoch 1) ⊎ (IsFrom 70 (epoch 2) ⊎ (false ≡ true))))
check_submission_slot_details_iff_example =
    check_submission_slot_details_iff api 69 deneb_fields submission (omega arith)

abbrev optimistic : BuilderStatus
optimistic = record { is_high_prio = true; is_optimistic = true; is_blacklisted = false }

abbrev invalid : Simulated
invalid = record {
  block_value = none;
  request_err = none;
  validation_err = some (codes "invalid state root");
}

demoted_for_cause_example :
    IsJust true false
      (codes "0xa1")
      optimistic
      invalid
      (process_optimistic_block true false (some (codes "0xa1")) optimistic invalid)
demoted_for_cause_example = demoted_for_cause true false (codes "0xa1") optimistic invalid

-- Eight bytes with the highest offset.
abbrev highest_offset : Bytes
highest_offset = 0 ∷ 0 ∷ 0 ∷ 0 ∷ 255 ∷ 255 ∷ 255 ∷ 255 ∷ []

get_slot_panics_iff_example :
    (get_slot_from_builder_ssz_payload highest_offset ≡ panics)
    ↔ ((8 ≤ 8) × (2 ^ 32 ≤ message_offset highest_offset + 8))
get_slot_panics_iff_example = get_slot_panics_iff highest_offset

highest_offset_panics : get_slot_from_builder_ssz_payload highest_offset ≡ panics
unfolding get_slot_from_builder_ssz_payload mev_boost_relay.Api.Slot.little_endian
highest_offset_panics = refl
