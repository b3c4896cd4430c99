-- ===== src/Api/Submit/Bid.antt =====
-- services/api/service.go: `handleSubmitNewBlock` from the floor check on, with `updateRedisBid`. What
-- goes on beside the answer is in the outcome: the entry that is saved to the database at the end,
-- what becomes of the builder of an optimistic block, and the payload for memcached.
use mev_boost_relay.Prelude.{
  ℕ, ◌==◌, Option, none, some, Bytes, codes, Bool, true, false, not, ◌&&◌, ◌||◌, leb, ltb, length,
  if◌then◌else◌,
}
use mev_boost_relay.Common.{DataVersion, BidTrace, BidTraceV2}
use mev_boost_relay.Datastore.Pipeline.{M, ◌>>=◌, pure}
use mev_boost_relay.Datastore.Auction.{
  Codec, SaveBidAndUpdateTopBidResponse, get_top_bid_value, save_bid_and_update_top_bid,
}
use mev_boost_relay.Datastore.Latest.{get_builder_latest_payload_received_at}
use mev_boost_relay.Payloads.{
  SignedBuilderBid, build_get_header_response, build_get_payload_response,
}
use mev_boost_relay.Payloads.Info.{BlockSubmissionInfo, get_block_submission_info}
use mev_boost_relay.Payloads.Decoding.{Versioned}
use mev_boost_relay.Api.Equal.{Roots, Revealed}
use mev_boost_relay.Api.Floor.{
  Caught, got, error, attempt, FloorCheck, goes_on, answered, check_floor_bid_value,
}
use mev_boost_relay.Api.Optimistic.{Simulated, Processed, simulate_block, process_optimistic_block}
use mev_boost_relay.Api.Submission.{BuilderStatus}
use mev_boost_relay.Api.Submit.{
  Answer, responds, status, Stage, goes, ends, or_respond, and_then, Relay, Library,
  BlockSimOptions, Posted, Decoded, Prepared, decode_submission, check_submission,
}

-- What is stored of bids, payloads and traces, and the value that a stored bid has.
pub record Stored (R : Roots) : Type 0 where
  pub bid_value : SignedBuilderBid R → Option ℕ
  pub marshal_bid : SignedBuilderBid R → Option Bytes
  pub marshal_payload : DataVersion → Revealed R → Option Bytes
  pub marshal_trace : BidTraceV2 → Option Bytes
  pub undefined_int : Bytes → ℕ

abbrev pub codec_of : {R : Roots} → Stored R → Codec
codec_of {R} s = record {
  Bid = SignedBuilderBid R;
  Payload = Revealed R;
  bid_value = s.bid_value;
  marshal_bid = s.marshal_bid;
  marshal_payload = s.marshal_payload;
  marshal_trace = s.marshal_trace;
  undefined_int = s.undefined_int;
}

-- What is saved to the database: the simulation's result, if it was sent, and whether the bid can
-- win.
pub record Entry : Type 0 where
  pub simulated : Option Simulated
  pub is_optimistic : Bool
  pub is_eligible : Bool

pub record Outcome (R : Roots) : Type 0 where
  pub answer : Answer
  pub entry : Option Entry
  pub processed : Option Processed
  pub to_memcached : Option (Revealed R)

pub record Updated (R : Roots) : Type 0 where
  pub result : SaveBidAndUpdateTopBidResponse
  pub get_payload_response : Revealed R

unfoldable pub trace_of : {Withdrawal : Type 0} → BlockSubmissionInfo Withdrawal → BidTraceV2
trace_of s = record {
  bid_trace = s.bid_trace;
  block_number = s.block_number;
  num_tx = length s.transactions;
  num_blobs = length s.blobs;
  blob_gas_used = s.blob_gas_used;
  excess_blob_gas = s.excess_blob_gas;
}

abbrev pub is_above : ℕ → Caught ℕ → Bool
is_above value (got top) = ltb top value
is_above value (error e) = false

abbrev pub is_older : ℕ → Caught ℕ → Bool
is_older received_at (got latest) = ltb received_at latest
is_older received_at (error e) = false

module _ {R : Roots} {A Withdrawal : Type 0} (prefix : Bytes) (st : Stored R) (relay : Relay)
    (lib : Library R A Withdrawal) where
  -- An answer without a word to the database.
  abbrev pub only : Answer → Outcome R
  only a = record { answer = a; entry = none; processed = none; to_memcached = none }

  -- The three things that are made of the submission.
  abbrev pub Responses : Type 0
  Responses = SignedBuilderBid R × (Revealed R × BlockSubmissionInfo Withdrawal)

  unfoldable pub responses : Versioned A → Stage Responses
  responses payload =
      and_then
        (or_respond 400
          (build_get_header_response R lib.signing lib.public_key (some (lib.request_of payload))))
        (λ header.
          and_then (or_respond 400 (build_get_payload_response R (lib.request_of payload)))
            (λ response.
              and_then
                (or_respond 400 (get_block_submission_info payload.version (lib.getters payload)))
                (λ s. goes (header, (response, s)))))

  abbrev pub saved_or_failed :
      Revealed R → Caught SaveBidAndUpdateTopBidResponse → Stage (Updated R)
  saved_or_failed response (got r) = goes (record { result = r; get_payload_response = response })
  saved_or_failed response (error e) = ends (responds 500 (codes "failed saving and updating bid"))

  unfoldable pub save_responses :
      Versioned A → Bool → ℕ → Option ℕ → Stage Responses → M (Stage (Updated R))
  save_responses payload cancellable received_at floor (ends a) = pure (ends a)
  save_responses payload cancellable received_at floor (goes (header, (response, s))) = do
    r ← attempt (
        save_bid_and_update_top_bid prefix (codec_of st) (trace_of s) s.bid_trace payload.version
          response header received_at cancellable floor)
    pure (saved_or_failed response r)

  unfoldable pub update_redis_bid : Versioned A → Bool → ℕ → Option ℕ → M (Stage (Updated R))
  unfolding save_responses responses
  update_redis_bid payload cancellable received_at floor =
      save_responses payload cancellable received_at floor (responses payload)

  -- The end of the handler: a bid that was saved can win, and its payload goes to memcached.
  unfoldable pub finish : Bool → Option Simulated → Option Processed → Stage (Updated R) → Outcome R
  finish optimistic sim processed (ends a) = record {
    answer = a;
    entry = some (record { simulated = sim; is_optimistic = optimistic; is_eligible = false });
    processed = processed;
    to_memcached = none;
  }
  finish optimistic sim processed (goes u) = record {
    answer = status 200;
    entry = some (record {
      simulated = sim;
      is_optimistic = optimistic;
      is_eligible = u.result.was_bid_saved;
    });
    processed = processed;
    to_memcached =
        if u.result.was_bid_saved && relay.has_memcached then some u.get_payload_response else none;
  }

  abbrev pub newer_payload : Answer
  newer_payload = responds 400 (codes "already using a newer payload")

  unfoldable pub is_superseded : Posted → BidTrace → M Bool
  is_superseded p b =
      if p.cancellations
      then (do
        latest ← attempt (
            get_builder_latest_payload_received_at prefix b.slot b.builder_pubkey b.parent_hash
              b.proposer_pubkey)
        pure (is_older p.received_at latest))
      else pure false

  unfoldable pub update_bid : Posted → Versioned A → BidTrace → Option ℕ → M (Stage (Updated R))
  unfolding is_superseded update_redis_bid
  update_bid p payload b floor = do
    old ← is_superseded p b
    if old
        then pure (ends newer_payload)
        else update_redis_bid payload p.cancellations p.received_at floor

  -- The answer to a block whose simulation, not an optimistic one, fails.
  unfoldable pub failed_simulation : Simulated → Option Answer
  failed_simulation s = failure s.request_err s.validation_err
    where
      failure : Option Bytes → Option Bytes → Option Answer
      failure none none = none
      failure none (some e) = some (responds 400 e)
      failure (some e) v = some (
          if lib.is_timeout e
          then responds 504 (codes "validation request timeout")
          else responds 400 e)

  unfoldable pub is_optimistic_block : BuilderStatus → BidTrace → Bool
  is_optimistic_block b trace =
      relay.ff_optimistic_all_slots
      || (b.is_optimistic
          && leb trace.value (relay.collateral trace.builder_pubkey)
          && trace.slot == relay.optimistic_slot)

  abbrev pub sim_options : Decoded A → Prepared Withdrawal → Bool → BlockSimOptions (Versioned A)
  sim_options d c is_top = record {
    payload = d.payload;
    is_high_prio = c.builder.is_high_prio;
    fast_track = c.builder.is_high_prio && is_top && not d.is_large;
    registered_gas_limit = c.gas_limit;
    parent_beacon_block_root = c.attrs.parent_beacon_root;
  }

  -- The node's answer to an optimistic block comes beside the rest of the handler.
  unfoldable pub process : Prepared Withdrawal → Simulated → Processed
  process c s =
      process_optimistic_block relay.ff_ignorable_validation_errors relay.ff_disable_demotion
        (some c.submission.bid_trace.builder_pubkey) c.builder s

  unfoldable pub after_verdict :
      Posted
      → Decoded A
      → Prepared Withdrawal
      → Option ℕ
      → Simulated
      → Option Answer
      → M (Outcome R)
  unfolding update_bid finish
  after_verdict p d c floor s (some a) = pure (finish false (some s) none (ends a))
  after_verdict p d c floor s none = do
    updated ← update_bid p d.payload c.submission.bid_trace floor
    pure (finish false (some s) none updated)

  unfoldable pub simulate_and_save :
      Posted → Decoded A → Prepared Withdrawal → Option ℕ → Bool → M (Outcome R)
  unfolding after_verdict is_optimistic_block process failed_simulation
  simulate_and_save p d c floor is_top =
      let answer = lib.send (sim_options d c is_top) in
      let s = simulate_block relay.ff_ignorable_validation_errors answer in
      if is_optimistic_block c.builder c.submission.bid_trace
      then (do
        updated ← update_bid p d.payload c.submission.bid_trace floor
        pure (finish true (process c answer).sent (some (process c answer)) updated))
      else after_verdict p d c floor s (failed_simulation s)

  unfoldable pub after_floor : Posted → Decoded A → Prepared Withdrawal → FloorCheck → M (Outcome R)
  unfolding simulate_and_save
  after_floor p d c (answered code message) = pure (only (responds code message))
  after_floor p d c (goes_on floor) = do
    top ← attempt (
        get_top_bid_value prefix (codec_of st) c.submission.bid_trace.slot
          c.submission.bid_trace.parent_hash c.submission.bid_trace.proposer_pubkey)
    simulate_and_save p d c floor (is_above c.submission.bid_trace.value top)

  unfoldable pub after_checks : Posted → Decoded A → Stage (Prepared Withdrawal) → M (Outcome R)
  unfolding after_floor
  after_checks p d (ends a) = pure (only a)
  after_checks p d (goes c) = do
    floor ← check_floor_bid_value prefix (codec_of st) p.cancellations c.submission.bid_trace
    after_floor p d c floor

  unfoldable pub after_decoding : Posted → Stage (Decoded A) → M (Outcome R)
  unfolding after_checks
  after_decoding p (ends a) = pure (only a)
  after_decoding p (goes d) = after_checks p d (check_submission relay lib d.payload)

  unfoldable pub handle_submit_new_block : Posted → M (Outcome R)
  unfolding after_decoding
  handle_submit_new_block p = after_decoding p (decode_submission relay lib p)
