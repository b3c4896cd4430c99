-- ===== src/Api/GetPayload.antt =====
-- services/api/service.go: `innerHandleGetPayload`, which reveals a payload to the proposer that has
-- signed its header, and publishes the block. What the stores, the beacon nodes and the libraries
-- answer is a parameter, keyed by what they are asked. The waits, the logs and the metrics are left out.
pub mod Stored
pub mod Deferred
pub mod Reveals
pub mod Answers
pub mod Late
use mev_boost_relay.Prelude.{
  ℕ, ◌+◌, ◌*◌, ◌-◌, ◌%◌, ◌^◌, ◌==◌, Option, none, some, List, [], ◌∷◌, ◌++◌, Bytes, codes, Bool,
  true, false, not, ◌&&◌, ◌||◌, leb, ltb, if◌then◌else◌, contains,
}
use mev_boost_relay.Decimal.{format}
use mev_boost_relay.Common.{
  BidTraceV2, DataVersion, unknown, phase0, altair, bellatrix, capella, deneb, electra, fulu,
}
use mev_boost_relay.Datastore.Server.{
  Error, another_payload_already_delivered, past_slot_already_delivered, tx_failed,
}
use mev_boost_relay.Payloads.{
  Made, made, refused, SignedProposal, signed_blinded_beacon_block_to_beacon_block,
}
use mev_boost_relay.Payloads.Decoding.{Versioned, Encodings, nothing_set}
use mev_boost_relay.Payloads.Decoding.Blinded.{unmarshal}
use mev_boost_relay.Api.Equal.{
  Roots, BlindedBlock, Revealed, EqError, eq_blinded_block_contents_to_block_contents,
}
use mev_boost_relay.Api.Forks.{VersionError, check_payload_and_header_version}
use mev_boost_relay.Api.Submission.{RelayApi, Duty, expected_timestamp}
use mev_boost_relay.Registry.{to_lower}
use mev_boost_relay.Api.GetHeader.{lt64}
use mev_boost_relay.Api.Registrations.{Registration}
use mev_boost_relay.Api.Submit.{
  Answer, responds, status, panicked, Stage, goes, ends, ◌>>=◌, or_respond, fields_of,
}

-- What a store gives for a key.
pub data Lookup (A : Type 0) : Type 0 where
  found : A → Lookup A
  missing : Lookup A
  failed : Bytes → Lookup A

-- The stores that may hold a payload, asked for a slot, a proposer's key and a block hash: Redis,
-- memcached if there is one, whose answer may be nil, and the database, whose entry may not decode.
pub record Stores (R : Roots) : Type 0 where
  pub redis : ℕ → Bytes → Bytes → Lookup (Revealed R)
  pub memcached : Option (ℕ → Bytes → Bytes → Lookup (Option (Revealed R)))
  pub database : ℕ → Bytes → Bytes → Lookup (Made (Revealed R))

unfoldable pub from_database : {R : Roots} → Lookup (Made (Revealed R)) → Lookup (Revealed R)
from_database (found (made r)) = found r
from_database (found (refused e)) = failed e
from_database missing = missing
from_database (failed e) = failed e

unfoldable pub from_memcached :
    {R : Roots} → Option (Lookup (Option (Revealed R))) → Lookup (Revealed R) → Lookup (Revealed R)
from_memcached (some (found (some r))) rest = found r
from_memcached (some (found none)) rest = rest
from_memcached (some missing) rest = rest
from_memcached (some (failed e)) rest = rest
from_memcached none rest = rest

abbrev pub or_else : {B : Type 0} → Lookup B → Lookup B → Lookup B
or_else (found b) rest = found b
or_else missing rest = rest
or_else (failed e) rest = rest

abbrev pub asked_of : {B : Type 0} → Option (ℕ → Bytes → Bytes → B) → ℕ → Bytes → Bytes → Option B
asked_of none slot pk hash = none
asked_of (some ask) slot pk hash = some (ask slot pk hash)

-- `missing` is `ErrExecutionPayloadNotFound`. The database is asked for the texts as they are.
unfoldable pub get_get_payload_response :
    {R : Roots} → Stores R → ℕ → Bytes → Bytes → Lookup (Revealed R)
unfolding from_memcached from_database
get_get_payload_response s slot pk hash = or_else (s.redis slot (to_lower pk) (to_lower hash)) (
    from_memcached (asked_of s.memcached slot (to_lower pk) (to_lower hash))
      (from_database (s.database slot pk hash)))

-- Version 1 reveals the payload, version 2 only publishes the block.
pub data HandleGetPayloadVersion : Type 0 where
  v1 v2 : HandleGetPayloadVersion

-- A request: body, content type, the version that its header names, and the time of its decoding in
-- milliseconds.
pub record Asked : Type 0 where
  pub version : HandleGetPayloadVersion
  pub body : Made Bytes
  pub content_type : Made Bytes
  pub eth_consensus_version : Bytes
  pub decode_time : ℕ

-- The libraries, the known validators and what the stores, the database and the beacon nodes answer. The
-- stores may be asked twice.
pub record World (R : Roots) (A : Type 0) : Type 0 where
  pub encodings : Encodings A
  pub slot_of : Versioned A → Made ℕ
  pub block_hash_of : Versioned A → Made Bytes
  pub proposer_index_of : Versioned A → Made ℕ
  pub block_of : Versioned A → BlindedBlock R
  pub version_error_text : VersionError → Bytes
  pub known_validator_pubkey_by_index : ℕ → Option Bytes
  pub to_pubkey : Bytes → Made Bytes
  pub verify_block_signature : DataVersion → Versioned A → Bytes → Made Bool
  pub first : Stores R
  pub second : Stores R
  pub get_block_submission_entry : ℕ → Bytes → Bytes → Lookup Bool
  pub check_and_set : ℕ → Bytes → Option Error
  pub get_bid_trace : ℕ → Bytes → Bytes → Made BidTraceV2
  pub get_builder_demotion : BidTraceV2 → Lookup (Unit {0})
  pub get_validator_registration : Bytes → Lookup (Made Registration)
  pub publish : SignedProposal R → ℕ × Option Bytes

-- A request whose block has the proposer's signature.
pub record Signed (A : Type 0) : Type 0 where
  pub payload : Versioned A
  pub slot : ℕ
  pub block_hash : Bytes
  pub proposer_pubkey : Bytes
  pub ms_into_slot : ℕ

-- What the handler does: its answers, the payload that it reveals, the block that it gives to the
-- beacon nodes, the slot and the hash that it asks Redis to mark as delivered, the trace with which it
-- asks the database to save a delivered payload, the builder whose statistics it increments, the refund
-- that it writes to a demotion, and the request that it inserts as too late.
pub record Delivery (R : Roots) : Type 0 where
  pub answers : List Answer
  pub revealed : Option (Revealed R)
  pub published : Option (SignedProposal R)
  pub marked : Option (ℕ × Bytes)
  pub delivered_payload : Option BidTraceV2
  pub builder_stats : Option Bytes
  pub refund : Option (BidTraceV2 × SignedProposal R × Option Registration)
  pub too_late : Option (ℕ × Bytes × Bytes)

abbrev pub is_negative : ℕ → Bool
is_negative ms = leb (2 ^ 63) ms

module _ {R : Roots} {A : Type 0} (api : RelayApi) (cutoff_ms : ℕ) (world : World R A)
    (q : Asked) where
  abbrev pub read_status : Bytes → ℕ
  read_status e = if contains (codes "i/o timeout") e then 500 else 400

  unfoldable pub read_body : Made Bytes → Stage Bytes
  read_body (made b) = goes b
  read_body (refused e) = ends (responds (read_status e) e)

  -- The reason of a failure is only logged.
  abbrev pub or_say : {B : Type 0} → Bytes → Made B → Stage B
  or_say message (made b) = goes b
  or_say message (refused e) = ends (responds 400 message)

  abbrev pub unmarshalled : Versioned A × Option Bytes → Made (Versioned A)
  unmarshalled (r, none) = made r
  unmarshalled (r, some e) = refused e

  abbrev pub version_checked : Option VersionError → Stage (Unit {0})
  version_checked none = goes tt
  version_checked (some e) = ends (
      responds 400
        (codes "error checking payload and header version: " ++ world.version_error_text e))

  -- Without a duty for the slot the index is not checked.
  unfoldable pub check_proposer_index : Option Duty → ℕ → Stage (Unit {0})
  check_proposer_index none index = goes tt
  check_proposer_index (some d) index =
      if not (d.validator_index == index)
      then ends (responds 400 (codes "not the expected proposer index"))
      else goes tt

  abbrev pub known_pubkey : Option Bytes → Stage Bytes
  known_pubkey (some pk) = goes pk
  known_pubkey none = ends (responds 400 (codes "could not match proposer index to pubkey"))

  unfoldable pub check_proposer_signature : DataVersion → Versioned A → Bytes → Made Bool
  check_proposer_signature capella payload pk = world.verify_block_signature capella payload pk
  check_proposer_signature deneb payload pk = world.verify_block_signature deneb payload pk
  check_proposer_signature electra payload pk = world.verify_block_signature electra payload pk
  check_proposer_signature fulu payload pk = world.verify_block_signature fulu payload pk
  check_proposer_signature _ payload pk = refused (codes "unsupported consensus data version")

  abbrev pub signature_checked : Made Bool → Stage (Unit {0})
  signature_checked (made true) = goes tt
  signature_checked _ = ends (responds 400 (codes "could not verify payload signature"))

  -- An int64 in two's complement: the milliseconds from the start of the slot, in uint64 seconds.
  abbrev pub ms_into : ℕ → ℕ
  ms_into slot = (q.decode_time + 2 ^ 64 - (expected_timestamp api slot * 1000) % 2 ^ 64) % 2 ^ 64

  -- Up to the proposer's signature.
  unfoldable pub decode_signed : Stage (Signed A)
  unfolding read_body check_proposer_index check_proposer_signature
  decode_signed = do
    content_type ← or_respond 415 q.content_type
    body ← read_body q.body
    payload ← or_say (codes "failed to decode payload") (
        unmarshalled
          (unmarshal world.encodings nothing_set body content_type q.eth_consensus_version))
    slot ← or_say (codes "failed to get payload slot") (world.slot_of payload)
    u ← version_checked (
        check_payload_and_header_version api.forks (fields_of payload) slot q.eth_consensus_version)
    block_hash ← or_say (codes "failed to get payload block hash") (world.block_hash_of payload)
    index ← or_say (codes "failed to get payload proposer index") (world.proposer_index_of payload)
    u ← check_proposer_index (api.proposer_duties_map slot) index
    pubkey ← known_pubkey (world.known_validator_pubkey_by_index index)
    pk ← or_say (codes "could not convert pubkey to phase0.BLSPubKey") (world.to_pubkey pubkey)
    u ← signature_checked (check_proposer_signature payload.version payload pk)
    goes (record {
      payload = payload;
      slot = slot;
      block_hash = block_hash;
      proposer_pubkey = pubkey;
      ms_into_slot = ms_into slot;
    })

  -- The answers when no payload is found twice: one more when the block was never seen.
  unfoldable pub not_found_answers : Lookup (Revealed R) → Lookup Bool → List Answer
  not_found_answers missing missing =
      responds 400
        (codes "no execution payload for this request - block was never seen by this relay")
      ∷ responds 400 (codes "no execution payload for this request")
      ∷ []
  not_found_answers _ _ = responds 400 (codes "no execution payload for this request") ∷ []

  -- Errors of Redis apart from the three refusals are logged, and the request goes on.
  unfoldable pub delivery_refusal : Option Error → Option Bytes
  delivery_refusal (some another_payload_already_delivered) =
      some (codes "another payload for this slot was already delivered")
  delivery_refusal (some past_slot_already_delivered) =
      some (codes "payload for this slot was already delivered")
  delivery_refusal (some tx_failed) =
      some (codes "payload for this slot was already delivered (race)")
  delivery_refusal _ = none

  unfoldable pub is_too_late : ℕ → Bool
  is_too_late ms = not (is_negative ms) && lt64 0 cutoff_ms && lt64 cutoff_ms ms

  abbrev pub answered_with : List Answer → Delivery R
  answered_with answers = record {
    answers = answers;
    revealed = none;
    published = none;
    marked = none;
    delivered_payload = none;
    builder_stats = none;
    refund = none;
    too_late = none;
  }

  abbrev pub is_accepted : ℕ × Option Bytes → Bool
  is_accepted (code, none) = code == 200 || code == 202
  is_accepted (code, some e) = false

  unfoldable pub publish_and_answer :
      HandleGetPayloadVersion → Revealed R → SignedProposal R → Delivery R
  publish_and_answer v1 r block =
      if is_accepted (world.publish block)
      then record (answered_with (status 200 ∷ [])) { revealed = some r; published = some block }
      else record (answered_with (responds 400 (codes "failed to publish block") ∷ [])) {
        published = some block;
      }
  publish_and_answer v2 r block = record (answered_with (status 202 ∷ [])) {
    published = some block;
  }

  abbrev pub not_converted : Answer
  not_converted =
      responds 500 (codes "failed to convert signed blinded beacon block to beacon block")

  unfoldable pub unblind_and_publish : Revealed R → Made (SignedProposal R) → Delivery R
  unfolding publish_and_answer
  unblind_and_publish r (refused e) = answered_with (not_converted ∷ [])
  unblind_and_publish r (made block) = publish_and_answer q.version r block

  unfoldable pub compare_and_publish : Signed A → Revealed R → Option EqError → Delivery R
  unfolding unblind_and_publish
  compare_and_publish s r (some e) =
      answered_with (responds 400 (codes "invalid execution payload header") ∷ [])
  compare_and_publish s r none =
      unblind_and_publish r
        (signed_blinded_beacon_block_to_beacon_block R (world.block_of s.payload) r)

  unfoldable pub deliver_in_time : Signed A → Revealed R → Delivery R
  unfolding compare_and_publish is_too_late
  deliver_in_time s r =
      if is_too_late s.ms_into_slot
      then record (answered_with (
          responds 400 (codes "sent too late - " ++ format s.ms_into_slot ++ codes " ms into slot")
          ∷ [])) { too_late = some (s.slot, s.proposer_pubkey, s.block_hash) }
      else compare_and_publish s r
          (eq_blinded_block_contents_to_block_contents R (world.block_of s.payload) r)

  unfoldable pub deliver_once : Signed A → Revealed R → Option Bytes → Delivery R
  unfolding deliver_in_time
  deliver_once s r (some refusal) = answered_with (responds 400 refusal ∷ [])
  deliver_once s r none = deliver_in_time s r

  unfoldable pub deliver_loaded : Signed A → Lookup (Revealed R) → Delivery R
  unfolding deliver_once not_found_answers delivery_refusal
  deliver_loaded s (found r) =
      record (deliver_once s r (delivery_refusal (world.check_and_set s.slot s.block_hash))) {
        marked = some (s.slot, s.block_hash);
      }
  deliver_loaded s missing = answered_with (
      not_found_answers missing
        (world.get_block_submission_entry s.slot s.proposer_pubkey s.block_hash))
  deliver_loaded s (failed e) = answered_with (
      not_found_answers (failed e)
        (world.get_block_submission_entry s.slot s.proposer_pubkey s.block_hash))

  abbrev pub registered : Lookup (Made Registration) → Option Registration
  registered (found (made r)) = some r
  registered _ = none

  -- The refund of a builder whose block was demoted.
  unfoldable pub write_refund :
      Signed A → BidTraceV2 → Made (SignedProposal R) → Delivery R → Delivery R
  write_refund s trace (refused e) d = record d { answers = d.answers ++ not_converted ∷ [] }
  write_refund s trace (made block) d = record d {
    refund = some (trace, block, registered (world.get_validator_registration s.proposer_pubkey));
  }

  -- Without a payload the conversion reads a nil pointer: each version that passes the signature check
  -- reads the payload's field.
  unfoldable pub refund_demotion :
      Signed A → BidTraceV2 → Lookup (Revealed R) → Delivery R → Delivery R
  unfolding write_refund
  refund_demotion s trace (found r) d =
      write_refund s trace
        (signed_blinded_beacon_block_to_beacon_block R (world.block_of s.payload) r) d
  refund_demotion s trace missing d = record d { answers = d.answers ++ panicked ∷ [] }
  refund_demotion s trace (failed e) d = record d { answers = d.answers ++ panicked ∷ [] }

  unfoldable pub refund_if_demoted :
      Signed A → BidTraceV2 → Lookup (Unit {0}) → Lookup (Revealed R) → Delivery R → Delivery R
  unfolding refund_demotion
  refund_if_demoted s trace (found u) response d = refund_demotion s trace response d
  refund_if_demoted s trace missing response d = d
  refund_if_demoted s trace (failed e) response d = d

  -- The deferred function, which runs however a request with a valid signature ends. Errors of the
  -- writes are only logged.
  unfoldable pub save_delivered :
      Signed A → Made BidTraceV2 → Lookup (Revealed R) → Delivery R → Delivery R
  unfolding refund_if_demoted
  save_delivered s (refused e) response d = d
  save_delivered s (made trace) response d =
      refund_if_demoted s trace (world.get_builder_demotion trace) response
        (record d { delivered_payload = some trace; builder_stats = some trace.builder_pubkey })

  -- The stores are asked again when they have given no payload.
  unfoldable pub load_twice : Signed A → Lookup (Revealed R)
  unfolding get_get_payload_response
  load_twice s =
      or_else (get_get_payload_response world.first s.slot s.proposer_pubkey s.block_hash)
        (get_get_payload_response world.second s.slot s.proposer_pubkey s.block_hash)

  unfoldable pub deliver_response : Signed A → Lookup (Revealed R) → Delivery R
  unfolding deliver_loaded save_delivered
  deliver_response s response =
      save_delivered s (world.get_bid_trace s.slot s.proposer_pubkey s.block_hash) response
        (deliver_loaded s response)

  unfoldable pub deliver_signed : Stage (Signed A) → Delivery R
  unfolding deliver_response load_twice
  deliver_signed (ends a) = answered_with (a ∷ [])
  deliver_signed (goes s) = deliver_response s (load_twice s)

  unfoldable pub inner_handle_get_payload : Delivery R
  unfolding deliver_signed decode_signed
  inner_handle_get_payload = deliver_signed decode_signed
