-- ===== src/Tests/Submit.antt =====
-- A submission for slot 70, whose bid is 5, on a server where slot 69 was delivered.
use mev_boost_relay.Prelude.{
  ℕ, ◌^◌, ◌<◌, ◌≡◌, refl, sym, subst, ap, ◌∙◌, ◌≢◌, inl, inr, Option, none, some, List, [], ◌∷◌,
  Bytes, codes, Bool, true, false, arith,
}
use mev_boost_relay.Decimal.{format}
use mev_boost_relay.Common.{deneb, BidTrace}
use mev_boost_relay.Datastore.Keys.{redis_field, last_slot_delivered, payload_contents_deneb}
use mev_boost_relay.Datastore.Server.{Keyspace, put, returns, run, keyspace_server, empty_keyspace}
use mev_boost_relay.Datastore.Auction.Winner.{IsWon}
use mev_boost_relay.Payloads.{made, refused, build_get_header_response, build_get_payload_response}
use mev_boost_relay.Payloads.Decoding.{application_octet_stream, nothing_set, set_field}
use mev_boost_relay.Payloads.Info.{Getters, BlockSubmissionInfo}
use mev_boost_relay.Api.Floor.{IsLastSlot}
use mev_boost_relay.Datastore.Auction.Steps.{floor_at, reference_for}
use mev_boost_relay.Api.Forks.{name_of}
use mev_boost_relay.Api.Optimistic.{Simulated, simulate_block}
use mev_boost_relay.Api.Submission.{RelayApi, BuilderStatus, unknown_builder}
use mev_boost_relay.Api.Submit.{
  Answer, responds, Relay, Library, Posted, Decoded, Prepared, goes, decode_submission,
  check_submission,
}
use mev_boost_relay.Api.Submit.Bid.{
  Stored, sim_options, failed_simulation, is_optimistic_block, Outcome, codec_of,
  handle_submit_new_block,
}
use mev_boost_relay.Api.Submit.Sound.{IsChecked, winning-IsChecked}
use mev_boost_relay.Api.Submit.Wins.{CanWin, IsAccepted, submit-wins}
use mev_boost_relay.Api.Submit.Untouched.{IsTurnedDown, turned_down-untouched}
use mev_boost_relay.Tests.Api.{plain, api, bid}
use mev_boost_relay.Tests.Auction.{prefix}
use mev_boost_relay.Tests.Payloads.{request, offer, signs, relay_key, verbatim}
use mev_boost_relay.Tests.Api.{revealed}

abbrev answers : Getters ℕ
answers = record {
  bid_trace = made bid;
  signature = made (codes "0x98");
  execution_payload_block_hash = made (codes "0x22");
  execution_payload_parent_hash = made (codes "0x11");
  gas_used = made 3;
  gas_limit = made 30;
  timestamp = made 1840;
  transactions = made (codes "0x02" ∷ []);
  block_number = made 9;
  prev_randao = made (codes "0x01");
  withdrawals = made (some []);
  blobs = made (codes "0x0e" ∷ []);
  blob_gas_used = made 1;
  excess_blob_gas = made 0;
  deposit_requests = refused (codes "unsupported version");
  withdrawal_requests = refused (codes "unsupported version");
  consolidation_requests = refused (codes "unsupported version");
}

abbrev known_attributes : RelayApi
known_attributes = record api {
  payload_attributes = λ key. some (record {
    slot = 70;
    prev_randao = codes "0x01";
    withdrawals_root = codes "0x0b";
    parent_beacon_root = none;
  });
}

abbrev pub relay : Relay
relay = record {
  api = known_attributes;
  head_slot = 69;
  optimistic_slot = 70;
  collateral = λ key. 0;
  ff_enable_cancellations = false;
  ff_optimistic_all_slots = false;
  ff_ignorable_validation_errors = true;
  ff_disable_demotion = false;
  fast_track_payload_size_limit = 230000;
  has_memcached = false;
}

abbrev valid : Simulated
valid = record { block_value = some 5; request_err = none; validation_err = none }

abbrev too_high : Simulated
too_high = record {
  block_value = none;
  request_err = none;
  validation_err = some (codes "gas limit");
}

abbrev library : Simulated → Library plain Bytes ℕ
library s = record {
  encodings = verbatim;
  version_string = name_of;
  get_slot_from_builder_json_payload = λ body. none;
  getters = λ r. answers;
  request_of = λ r. request;
  withdrawals_root_of = λ ws. some (codes "0x0b");
  verify_signature = λ b signature. made true;
  signing = some signs;
  public_key = relay_key;
  is_timeout = λ e. false;
  send = λ options. s;
}

abbrev stored : Stored plain
stored = record {
  bid_value = λ b. some b.message.value;
  marshal_bid = λ b. some (format b.message.value);
  marshal_payload = λ v r. some r.payload;
  marshal_trace = λ t. some [];
  undefined_int = λ s. 0;
}

abbrev posted : Posted
posted = record {
  cancellations = false;
  body = made (codes "block");
  content_type = made application_octet_stream;
  eth_consensus_version = codes "deneb";
  received_at = 1000;
}

abbrev delivered_before : Keyspace
delivered_before = record empty_keyspace {
  texts = put (empty_keyspace.texts) (redis_field prefix last_slot_delivered) (some (format 69));
}

abbrev pub submitted : BlockSubmissionInfo ℕ
submitted = record {
  bid_trace = bid;
  signature = codes "0x98";
  execution_payload_block_hash = codes "0x22";
  execution_payload_parent_hash = codes "0x11";
  gas_used = 3;
  gas_limit = 30;
  timestamp = 1840;
  transactions = codes "0x02" ∷ [];
  block_number = 9;
  prev_randao = codes "0x01";
  withdrawals = some [];
  blobs = codes "0x0e" ∷ [];
  blob_gas_used = 1;
  excess_blob_gas = 0;
  deposit_requests = [];
  withdrawal_requests = [];
  consolidation_requests = [];
}

abbrev prepared : Prepared ℕ
prepared = record {
  submission = submitted;
  builder = unknown_builder;
  gas_limit = 30;
  attrs = record {
    slot = 70;
    prev_randao = codes "0x01";
    withdrawals_root = codes "0x0b";
    parent_beacon_root = none;
  };
}

abbrev decoded : Decoded Bytes
decoded = record { payload = set_field nothing_set deneb (codes "block"); is_large = false }

decodes : (s : Simulated) → decode_submission relay (library s) posted ≡ goes decoded
unfolding decode_submission mev_boost_relay.Payloads.Decoding.Request.unmarshal_with_version
    mev_boost_relay.Prelude.bytes_eq mev_boost_relay.Payloads.Decoding.version_of_name
decodes s = refl

passes : (s : Simulated) → check_submission relay (library s) decoded.payload ≡ goes prepared
unfolding check_submission mev_boost_relay.Payloads.Info.get_block_submission_info set_field
    mev_boost_relay.Api.Submission.check_submission_slot_details mev_boost_relay.Api.Forks.is_fulu
    mev_boost_relay.Api.Forks.has_reached_fork mev_boost_relay.Api.Forks.is_electra
    mev_boost_relay.Api.Forks.is_deneb mev_boost_relay.Api.Forks.is_capella
    mev_boost_relay.Api.Submission.check_builder_entry
    mev_boost_relay.Api.Submission.check_submission_fee_recipient
    mev_boost_relay.Api.Submission.check_duty mev_boost_relay.Prelude.bytes_eq
    mev_boost_relay.Registry.lower mev_boost_relay.Api.Submission.check_protocol_fee_recipient
    mev_boost_relay.Api.Submission.enforced mev_boost_relay.Api.Submission.is_vouch
    mev_boost_relay.Registry.is_vouch_pubkey mev_boost_relay.Registry.member
    mev_boost_relay.Registry.set_pubkeys mev_boost_relay.Api.Submission.check_attributes
    mev_boost_relay.Api.Submission.check_submission_payload_attrs
    mev_boost_relay.Api.Submission.check_withdrawals
    mev_boost_relay.Api.Submission.is_protocol_recipient
    mev_boost_relay.Api.Submit.check_blob_fields mev_boost_relay.Api.Submit.check_signature
    mev_boost_relay.Api.Submit.check_value mev_boost_relay.Api.Submit.sanity_check
    mev_boost_relay.Api.Submit.sanity_check_builder_block_submission format
    mev_boost_relay.Payloads.Info.counted mev_boost_relay.Registry.add
    mev_boost_relay.Registry.add_lower
passes s = refl

delivered_before-IsLastSlot : IsLastSlot prefix delivered_before 69
unfolding mev_boost_relay.Prelude.bytes_eq redis_field
delivered_before-IsLastSlot = refl

codec_reference :
    reference_for prefix (codec_of stored) delivered_before bid (
      some (
        floor_at prefix
          (codec_of stored)
          delivered_before
          bid.slot
          bid.parent_hash
          bid.proposer_pubkey))
    ≡ 0
unfolding reference_for mev_boost_relay.Datastore.Bids.get_top_bid
    mev_boost_relay.Datastore.Auction.Steps.bids_at mev_boost_relay.Datastore.Bids.new_builder_bids
    mev_boost_relay.Datastore.Auction.Steps.floor_for floor_at mev_boost_relay.Prelude.bytes_eq
    redis_field mev_boost_relay.Datastore.Keys.slot_key
codec_reference = refl

offers : build_get_header_response plain (some signs) relay_key (some request) ≡ made offer
unfolding build_get_header_response
offers = refl

responds_with : build_get_payload_response plain request ≡ made revealed
unfolding build_get_payload_response
responds_with = refl

simulates :
    (is_top : Bool)
    → failed_simulation prefix stored relay (library valid) (
        simulate_block true (
          (library valid).send
            (sim_options prefix stored relay (library valid) decoded prepared is_top)))
      ≡ none
unfolding failed_simulation simulate_block
simulates is_top = refl

prepared-CanWin :
    CanWin prefix stored relay
      (library valid)
      posted
      decoded
      prepared
      delivered_before
      offer
      revealed
      payload_contents_deneb
      (codes "0x22")
      (format 5)
      []
      69
unfolding set_field
prepared-CanWin = record {
  cannot_be_cancelled = refl;
  decodes = decodes valid;
  passes = passes valid;
  last_slot = delivered_before-IsLastSlot;
  last_small = omega arith;
  slot_is_later = omega arith;
  is_highest = rw codec_reference (omega arith);
  is_backed = inr (λ is_top. simulates is_top);
  header_made = offers;
  response_made = responds_with;
  encodes = record {
    stored = refl;
    payload_encodes = refl;
    header_encodes = refl;
    trace_encodes = refl;
    carries = refl;
  };
}

-- The request, answered.
won :
    let r =
      run keyspace_server
        (handle_submit_new_block prefix stored relay (library valid) posted [])
        delivered_before in
    ((o : Outcome plain) × (r.0 ≡ returns (o, []))
      × IsAccepted prefix stored relay (library valid) o)
    × IsWon prefix
        (codec_of stored)
        bid
        false
        payload_contents_deneb
        (codes "0x22")
        (format 5)
        delivered_before
        r.1
won =
    submit-wins prefix stored relay (library valid) keyspace_server delivered_before tt
      prepared-CanWin

submit-wins_example :
    let r =
      run keyspace_server
        (handle_submit_new_block prefix stored relay (library valid) posted [])
        delivered_before in
    ((o : Outcome plain) × (r.0 ≡ returns (o, []))
      × IsAccepted prefix stored relay (library valid) o)
    × IsWon prefix
        (codec_of stored)
        bid
        false
        payload_contents_deneb
        (codes "0x22")
        (format 5)
        delivered_before
        r.1
submit-wins_example =
    submit-wins prefix stored relay (library valid) keyspace_server delivered_before tt
      prepared-CanWin

winning-IsChecked_example : IsChecked relay (library valid) prefix stored posted
winning-IsChecked_example =
    winning-IsChecked relay (library valid) prefix stored posted keyspace_server delivered_before
      won.0.0 [] won.0.1 won.0.2.1

goes_inj : {A : Type 0} (a b : A) → goes a ≡ goes b → a ≡ b
goes_inj a b h = cc

same_builder : (c : Prepared ℕ) → goes prepared ≡ goes c → unknown_builder ≡ c.builder
same_builder c h = ap (λ (x : Prepared ℕ). x.builder) (goes_inj prepared c h)

untrusted :
    (b : BidTrace)
    → is_optimistic_block prefix stored relay (library too_high) unknown_builder b ≡ false
unfolding is_optimistic_block
untrusted b = refl

fails_simulation :
    failed_simulation prefix stored relay (library too_high) (simulate_block true too_high)
    ≡ some (responds 400 (codes "gas limit"))
unfolding failed_simulation simulate_block mev_boost_relay.Api.Optimistic.is_ignorable
    mev_boost_relay.Prelude.bytes_eq mev_boost_relay.Prelude.contains
    mev_boost_relay.Prelude.has_prefix
fails_simulation = refl

failed-≢none : {a : Answer} (x : Option Answer) → x ≡ some a → x ≢ none
failed-≢none x h e = cc

-- No builder is known, so no block is an optimistic one, and no block is simulated without failing.
too_high-IsTurnedDown : IsTurnedDown prefix stored relay (library too_high) posted
too_high-IsTurnedDown d c e k =
    let same = goes_inj decoded d (sym (decodes too_high) ∙ e) in
    let builder = same_builder c (
      sym (passes too_high)
      ∙ ap (λ (x : Decoded Bytes). check_submission relay (library too_high) x.payload) same
      ∙ k) in
    (
      subst
          (λ b.
            is_optimistic_block prefix stored relay (library too_high) b c.submission.bid_trace
            ≡ false)
          builder (untrusted c.submission.bid_trace),
      λ is_top. failed-≢none _ fails_simulation,
    )

turned_down-untouched_example :
    (run keyspace_server
      (handle_submit_new_block prefix stored relay (library too_high) posted [])
      delivered_before).1
    ≡ delivered_before
turned_down-untouched_example =
    turned_down-untouched prefix stored relay (library too_high) posted keyspace_server
      delivered_before tt refl too_high-IsTurnedDown
