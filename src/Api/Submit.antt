-- ===== src/Api/Submit.antt =====
-- services/api/service.go: `handleSubmitNewBlock` up to the auction: how a request is decoded, and the
-- checks that a submission passes before anything is read from Redis. What the request's body and
-- header are is a parameter, and so are the libraries' answers; `Posted` and `Library` hold them.
pub mod Bid
pub mod Sound
pub mod Wins
pub mod Untouched
use mev_boost_relay.Prelude.{
  ℕ, ◌==◌, Option, none, some, List, [], ◌∷◌, ◌++◌, Bytes, codes, Bool, true, false, not, ◌&&◌,
  ◌||◌, leb, ltb, length, if◌then◌else◌, bytes_eq,
}
use mev_boost_relay.Decimal.{format}
use mev_boost_relay.Common.{DataVersion, bellatrix, capella, deneb, electra, fulu, BidTrace}
use mev_boost_relay.Payloads.{Made, made, refused, SubmitBlockRequest, Signing}
use mev_boost_relay.Payloads.Info.{
  BlockSubmissionInfo, Getters, get_block_submission_info, since_deneb,
}
use mev_boost_relay.Payloads.Decoding.{Versioned, Encodings, nothing_set, application_octet_stream}
use mev_boost_relay.Payloads.Decoding.Request.{unmarshal_with_version}
use mev_boost_relay.Api.Equal.{Roots}
use mev_boost_relay.Api.Forks.{BlindedBlockFields, get_fork_from_slot}
use mev_boost_relay.Api.Slot.{
  SlotRead, slot, payload_too_short_for_message_offset, payload_too_short_for_slot, panics,
  message_offset, get_slot_from_builder_ssz_payload,
}
use mev_boost_relay.Api.Optimistic.{Simulated}
use mev_boost_relay.Api.Submission.{
  Checked, passed, rejected, dropped, RelayApi, PayloadAttributes, BuilderStatus,
  check_submission_slot_details, check_builder_entry, check_submission_fee_recipient,
  check_submission_payload_attrs,
}

-- What a request is answered: a status and a message, a status alone, or a panic.
pub data Answer : Type 0 where
  responds : ℕ → Bytes → Answer
  status : ℕ → Answer
  panicked : Answer

-- The handler goes on with a value, or has answered.
pub data Stage (A : Type 0) : Type 0 where
  goes : A → Stage A
  ends : Answer → Stage A

abbrev pub and_then : {A B : Type 0} → Stage A → (A → Stage B) → Stage B
and_then (goes a) f = f a
and_then (ends r) f = ends r

infixl 5 ◌>>=◌
abbrev pub ◌>>=◌ : {A B : Type 0} → Stage A → (A → Stage B) → Stage B
m >>= f = and_then m f

abbrev pub stage_of : {A : Type 0} → Checked A → Stage A
stage_of (passed a) = goes a
stage_of (rejected code message) = ends (responds code message)
stage_of dropped = ends (status 200)

-- An error is answered with a code.
abbrev pub or_respond : {A : Type 0} → ℕ → Made A → Stage A
or_respond code (made a) = goes a
or_respond code (refused e) = ends (responds code e)

-- The parts of `RelayAPI` that the handler reads itself. `collateral` is that of the builders in
-- the cache, and 0 for the others.
pub record Relay : Type 0 where
  pub api : RelayApi
  pub head_slot : ℕ
  pub optimistic_slot : ℕ
  pub collateral : Bytes → ℕ
  pub ff_enable_cancellations : Bool
  pub ff_optimistic_all_slots : Bool
  pub ff_ignorable_validation_errors : Bool
  pub ff_disable_demotion : Bool
  pub fast_track_payload_size_limit : ℕ
  pub has_memcached : Bool

-- What is sent to the simulation node.
pub record BlockSimOptions (A : Type 0) : Type 0 where
  pub payload : A
  pub is_high_prio : Bool
  pub fast_track : Bool
  pub registered_gas_limit : ℕ
  pub parent_beacon_block_root : Option Bytes

-- The libraries, the relay's key and the simulation node; `A` are the versions' structs.
pub record Library (R : Roots) (A Withdrawal : Type 0) : Type 0 where
  pub encodings : Encodings A
  pub version_string : DataVersion → Bytes
  pub get_slot_from_builder_json_payload : Bytes → Option ℕ
  pub getters : Versioned A → Getters Withdrawal
  pub request_of : Versioned A → SubmitBlockRequest R
  pub withdrawals_root_of : List Withdrawal → Option Bytes
  pub verify_signature : BidTrace → Bytes → Made Bool
  pub signing : Option (Signing R)
  pub public_key : Bytes
  pub is_timeout : Bytes → Bool
  pub send : BlockSimOptions (Versioned A) → Simulated

-- A request: whether it asks for a cancellable bid, its body, its content type and the version that
-- its header names, and the time in milliseconds.
pub record Posted : Type 0 where
  pub cancellations : Bool
  pub body : Made Bytes
  pub content_type : Made Bytes
  pub eth_consensus_version : Bytes
  pub received_at : ℕ

pub record Decoded (A : Type 0) : Type 0 where
  pub payload : Versioned A
  pub is_large : Bool

-- What the checks find out.
pub record Prepared (Withdrawal : Type 0) : Type 0 where
  pub submission : BlockSubmissionInfo Withdrawal
  pub builder : BuilderStatus
  pub gas_limit : ℕ
  pub attrs : PayloadAttributes

abbrev pub is_set : {A : Type 0} → Option A → Bool
is_set none = false
is_set (some a) = true

abbrev pub is_empty : {A : Type 0} → List A → Bool
is_empty [] = true
is_empty (a ∷ l) = false

abbrev pub fields_of : {A : Type 0} → Versioned A → BlindedBlockFields
fields_of r = record {
  has_bellatrix = is_set (r.field bellatrix);
  has_capella = is_set (r.field capella);
  has_deneb = is_set (r.field deneb);
  has_electra = is_set (r.field electra);
  has_fulu = is_set (r.field fulu);
}

module _ {R : Roots} {A Withdrawal : Type 0} (relay : Relay) (lib : Library R A Withdrawal) where
  unfoldable pub version_of_ssz : Bytes → SlotRead → Stage Bytes
  version_of_ssz body (slot n) = goes (lib.version_string (get_fork_from_slot relay.api.forks n))
  version_of_ssz body payload_too_short_for_message_offset =
      ends (responds 400 (codes "payload too short to contain message offset"))
  version_of_ssz body payload_too_short_for_slot = ends (
      responds 400 (
        codes "offset "
        ++ format (message_offset body)
        ++ codes ": payload too short to contain slot at message offset"))
  version_of_ssz body panics = ends panicked

  unfoldable pub version_of_json : Option ℕ → Stage Bytes
  version_of_json none = ends (responds 400 (codes "slot not found in payload"))
  version_of_json (some n) = goes (lib.version_string (get_fork_from_slot relay.api.forks n))

  -- Without a header the fork of the submission's slot gives the version.
  unfoldable pub consensus_version : Bytes → Bytes → Bytes → Stage Bytes
  unfolding version_of_ssz version_of_json
  consensus_version header content_type body =
      if not (is_empty header)
      then goes header
      else if bytes_eq content_type application_octet_stream
      then version_of_ssz body (get_slot_from_builder_ssz_payload body)
      else version_of_json (lib.get_slot_from_builder_json_payload body)

  abbrev pub unmarshalled : Versioned A × Option Bytes → Made (Versioned A)
  unmarshalled (r, none) = made r
  unmarshalled (r, some e) = refused e

  unfoldable pub decode_body : Posted → Stage (Decoded A)
  unfolding consensus_version
  decode_body p = do
    body ← or_respond 400 p.body
    content_type ← or_respond 415 p.content_type
    version ← consensus_version p.eth_consensus_version content_type body
    payload ←
        or_respond 400 (
          unmarshalled (unmarshal_with_version lib.encodings nothing_set body content_type version))
    goes (record {
      payload = payload;
      is_large = ltb relay.fast_track_payload_size_limit (length body);
    })

  unfoldable pub decode_submission : Posted → Stage (Decoded A)
  unfolding decode_body
  decode_submission p =
      if p.cancellations && not relay.ff_enable_cancellations
      then ends (responds 400 (codes "cancellations are disabled"))
      else decode_body p

  -- The fields that Deneb has brought are read once more, for the log.
  abbrev pub blob_fields : Made (List Bytes) → Made ℕ → Made ℕ → Made (Unit {0})
  blob_fields (refused e) m n = refused e
  blob_fields (made b) (refused e) n = refused e
  blob_fields (made b) (made m) (refused e) = refused e
  blob_fields (made b) (made m) (made n) = made tt

  unfoldable pub check_blob_fields : Bool → Getters Withdrawal → Made (Unit {0})
  check_blob_fields false g = made tt
  check_blob_fields true g = blob_fields g.blobs g.blob_gas_used g.excess_blob_gas

  unfoldable pub sanity_check : BlockSubmissionInfo Withdrawal → Made (Unit {0})
  sanity_check s =
      if not (bytes_eq s.bid_trace.block_hash s.execution_payload_block_hash)
      then refused (codes "blockHash mismatch")
      else if not (bytes_eq s.bid_trace.parent_hash s.execution_payload_parent_hash)
      then refused (codes "parentHash mismatch")
      else made tt

  unfoldable pub sanity_check_builder_block_submission : Versioned A → Stage (Unit {0})
  unfolding sanity_check
  sanity_check_builder_block_submission payload = do
    s ← or_respond 400 (get_block_submission_info payload.version (lib.getters payload))
    or_respond 400 (sanity_check s)

  unfoldable pub check_value : BlockSubmissionInfo Withdrawal → Stage (Unit {0})
  check_value s =
      if s.bid_trace.value == 0 || is_empty s.transactions then ends (status 200) else goes tt

  unfoldable pub check_signature : Made Bool → Stage (Unit {0})
  check_signature (refused e) = ends (responds 400 (codes "failed verifying builder signature"))
  check_signature (made false) = ends (responds 400 (codes "invalid signature"))
  check_signature (made true) = goes tt

  unfoldable pub check_submission : Versioned A → Stage (Prepared Withdrawal)
  unfolding check_blob_fields sanity_check_builder_block_submission check_value check_signature
  check_submission payload = do
    s ← or_respond 400 (get_block_submission_info payload.version (lib.getters payload))
    u ← or_respond 400 (check_blob_fields (since_deneb payload.version) (lib.getters payload))
    u ← stage_of (check_submission_slot_details relay.api relay.head_slot (fields_of payload) s)
    builder ← stage_of (check_builder_entry relay.api s.bid_trace.builder_pubkey)
    gas_limit ← stage_of (check_submission_fee_recipient relay.api s.bid_trace)
    u ← check_value s
    u ← sanity_check_builder_block_submission payload
    attrs ← stage_of (check_submission_payload_attrs lib.withdrawals_root_of relay.api s)
    u ← check_signature (lib.verify_signature s.bid_trace s.signature)
    goes (record { submission = s; builder = builder; gas_limit = gas_limit; attrs = attrs })
