-- ===== src/Tests/GetPayload.antt =====
-- A proposer asks for the payload of slot 70, half a second into the slot, and five seconds into it.
use mev_boost_relay.Prelude.{
  ◌==◌, ◌&&◌, bytes_eq, if◌then◌else◌, ℕ, ◌^◌, ◌≡◌, refl, Option, none, some, List, [], ◌∷◌, ◌++◌,
  Bytes, codes, Bool, true, false, arith,
}
use mev_boost_relay.Common.{BidTraceV2, deneb}
use mev_boost_relay.Payloads.{
  made, SignedProposal, deneb_unblind_signed_block, signed_blinded_beacon_block_to_beacon_block,
}
use mev_boost_relay.Payloads.Decoding.{application_octet_stream, nothing_set, set_field}
use mev_boost_relay.Api.Equal.{
  Revealed, eq_blinded_iff, eq_blinded_block_contents_to_block_contents,
}
use mev_boost_relay.Api.Submit.{responds, panicked, goes}
use mev_boost_relay.Api.GetPayload.{
  Lookup, found, missing, failed, Stores, v1, Asked, World, Signed, decode_signed, load_twice,
  deliver_response, get_get_payload_response, delivery_refusal, is_too_late,
  inner_handle_get_payload,
}
use mev_boost_relay.Api.GetPayload.Reveals.{IsEarned, published-IsEarned}
use mev_boost_relay.Api.GetPayload.Answers.{IsPublished, revealed-IsPublished}
use mev_boost_relay.Api.GetPayload.Late.{mark_of, trace_of, too_late-marked}
use mev_boost_relay.Tests.Api.{bid, plain, api, signed, revealed}
use mev_boost_relay.Tests.Payloads.{verbatim}

-- Redis has one payload, under texts in lower case.
unfoldable stored_under : ℕ → Bytes → Bytes → Lookup (Revealed plain)
stored_under slot pk hash =
    if slot == 70 && bytes_eq pk (codes "0xab01") && bytes_eq hash (codes "0x22")
    then found revealed
    else missing

abbrev trace : BidTraceV2
trace = record {
  bid_trace = bid;
  block_number = 9;
  num_tx = 0;
  num_blobs = 0;
  blob_gas_used = 0;
  excess_blob_gas = 0;
}

abbrev in_redis : Stores plain
in_redis = record { redis = stored_under; memcached = none; database = λ slot pk hash. missing }

abbrev world : World plain Bytes
world = record {
  encodings = verbatim;
  slot_of = λ p. made 70;
  block_hash_of = λ p. made (codes "0x22");
  proposer_index_of = λ p. made 5;
  block_of = λ p. signed;
  version_error_text = λ e. codes "wrong version";
  known_validator_pubkey_by_index = λ i. some (codes "0xAB01");
  to_pubkey = λ pk. made pk;
  verify_block_signature = λ v p pk. made true;
  first = in_redis;
  second = in_redis;
  get_block_submission_entry = λ slot pk hash. missing;
  check_and_set = λ slot hash. none;
  get_bid_trace = λ slot pk hash. made trace;
  get_builder_demotion = λ trace. missing;
  get_validator_registration = λ pk. missing;
  publish = λ block. (200, none);
}

abbrev asked : ℕ → Asked
asked time = record {
  version = v1;
  body = made (codes "block");
  content_type = made application_octet_stream;
  eth_consensus_version = codes "deneb";
  decode_time = time;
}

abbrev request : ℕ → Signed Bytes
request ms = record {
  payload = set_field nothing_set deneb (codes "block");
  slot = 70;
  block_hash = codes "0x22";
  proposer_pubkey = codes "0xAB01";
  ms_into_slot = ms;
}

decodes : decode_signed api 4000 world (asked 1840500) ≡ goes (request 500)
unfolding decode_signed mev_boost_relay.Payloads.Decoding.Blinded.unmarshal
    mev_boost_relay.Prelude.bytes_eq mev_boost_relay.Payloads.Decoding.version_of_name
    mev_boost_relay.Api.Forks.check_payload_and_header_version mev_boost_relay.Api.Forks.check_fork
    mev_boost_relay.Api.Forks.get_fork_from_slot mev_boost_relay.Api.Forks.is_fulu
    mev_boost_relay.Api.Forks.has_reached_fork mev_boost_relay.Api.Forks.is_electra
    mev_boost_relay.Api.Forks.is_deneb set_field
decodes = refl

decodes_late : decode_signed api 4000 world (asked 1845000) ≡ goes (request 5000)
unfolding decode_signed mev_boost_relay.Payloads.Decoding.Blinded.unmarshal
    mev_boost_relay.Prelude.bytes_eq mev_boost_relay.Payloads.Decoding.version_of_name
    mev_boost_relay.Api.Forks.check_payload_and_header_version mev_boost_relay.Api.Forks.check_fork
    mev_boost_relay.Api.Forks.get_fork_from_slot mev_boost_relay.Api.Forks.is_fulu
    mev_boost_relay.Api.Forks.has_reached_fork mev_boost_relay.Api.Forks.is_electra
    mev_boost_relay.Api.Forks.is_deneb set_field
decodes_late = refl

loads : (time ms : ℕ) → load_twice api 4000 world (asked time) (request ms) ≡ found revealed
unfolding load_twice get_get_payload_response stored_under bytes_eq mev_boost_relay.Registry.lower
loads time ms = refl

is_free :
    (time : ℕ)
    → delivery_refusal api 4000 world (asked time) (world.check_and_set 70 (codes "0x22")) ≡ none
unfolding delivery_refusal
is_free time = refl

is_in_time : is_too_late api 4000 world (asked 1840500) 500 ≡ false
unfolding is_too_late
is_in_time = refl

matches : eq_blinded_block_contents_to_block_contents plain signed revealed ≡ none
matches =
    (eq_blinded_iff plain signed revealed).1
      (refl, ((codes "0x22", codes "0x22", refl, refl, refl), refl))

unblinds :
    signed_blinded_beacon_block_to_beacon_block plain signed revealed
    ≡ made (deneb_unblind_signed_block plain signed revealed)
unfolding signed_blinded_beacon_block_to_beacon_block
unblinds = refl

publishes :
    (inner_handle_get_payload api 4000 world (asked 1840500)).published
    ≡ some (deneb_unblind_signed_block plain signed revealed)
unfolding inner_handle_get_payload mev_boost_relay.Api.GetPayload.deliver_signed
    mev_boost_relay.Api.GetPayload.deliver_response mev_boost_relay.Api.GetPayload.save_delivered
    mev_boost_relay.Api.GetPayload.refund_if_demoted mev_boost_relay.Api.GetPayload.deliver_loaded
    mev_boost_relay.Api.GetPayload.deliver_once mev_boost_relay.Api.GetPayload.deliver_in_time
    mev_boost_relay.Api.GetPayload.compare_and_publish
    mev_boost_relay.Api.GetPayload.unblind_and_publish
    mev_boost_relay.Api.GetPayload.publish_and_answer
publishes = rw (decodes, loads 1840500 500, is_free 1840500, is_in_time, matches, unblinds) refl

reveals : (inner_handle_get_payload api 4000 world (asked 1840500)).revealed ≡ some revealed
unfolding inner_handle_get_payload mev_boost_relay.Api.GetPayload.deliver_signed
    mev_boost_relay.Api.GetPayload.deliver_response mev_boost_relay.Api.GetPayload.save_delivered
    mev_boost_relay.Api.GetPayload.refund_if_demoted mev_boost_relay.Api.GetPayload.deliver_loaded
    mev_boost_relay.Api.GetPayload.deliver_once mev_boost_relay.Api.GetPayload.deliver_in_time
    mev_boost_relay.Api.GetPayload.compare_and_publish
    mev_boost_relay.Api.GetPayload.unblind_and_publish
    mev_boost_relay.Api.GetPayload.publish_and_answer
reveals = rw (decodes, loads 1840500 500, is_free 1840500, is_in_time, matches, unblinds) refl

published-IsEarned_example :
    IsEarned api 4000 world (asked 1840500) (deneb_unblind_signed_block plain signed revealed)
published-IsEarned_example =
    published-IsEarned api 4000 world (asked 1840500)
      (deneb_unblind_signed_block plain signed revealed) publishes

revealed-IsPublished_example :
    IsPublished api 4000 world
      (asked 1840500)
      (inner_handle_get_payload api 4000 world (asked 1840500))
revealed-IsPublished_example = revealed-IsPublished api 4000 world (asked 1840500) revealed reveals

too_late-marked_example :
    let d = inner_handle_get_payload api 4000 world (asked 1845000) in
    (d.published ≡ none)
    × (d.revealed ≡ none)
    × (d.marked
        ≡ mark_of api 4000 world
            (asked 1845000)
            (request 5000)
            (load_twice api 4000 world (asked 1845000) (request 5000)))
    × (d.delivered_payload ≡ trace_of api 4000 world (asked 1845000) (made trace))
too_late-marked_example =
    too_late-marked api 4000 world (asked 1845000) (request 5000) decodes_late (omega arith)
      (omega arith) (omega arith)

-- A demoted block whose payload is in no store.
abbrev lost : Stores plain
lost = record {
  redis = λ slot pk hash. missing;
  memcached = none;
  database = λ slot pk hash. missing;
}

abbrev demoted : World plain Bytes
demoted = record world { first = lost; second = lost; get_builder_demotion = λ trace. found tt }

finds_nothing : load_twice api 4000 demoted (asked 1840500) (request 500) ≡ missing
unfolding load_twice get_get_payload_response mev_boost_relay.Api.GetPayload.from_memcached
    mev_boost_relay.Api.GetPayload.from_database
finds_nothing = refl

-- The deferred function reads a nil payload.
panics_after_answers :
    (deliver_response api 4000 demoted (asked 1840500) (request 500) missing).answers
    ≡ responds 400
        (codes "no execution payload for this request - block was never seen by this relay")
      ∷ responds 400 (codes "no execution payload for this request")
      ∷ panicked
      ∷ []
unfolding deliver_response mev_boost_relay.Api.GetPayload.save_delivered
    mev_boost_relay.Api.GetPayload.refund_if_demoted mev_boost_relay.Api.GetPayload.refund_demotion
    mev_boost_relay.Api.GetPayload.deliver_loaded mev_boost_relay.Api.GetPayload.not_found_answers
panics_after_answers = refl
