-- ===== src/Datastore/Auction.antt =====
-- datastore/redis.go: the auction for a slot, a parent and a proposer. `SaveBidAndUpdateTopBid`
-- takes a bid in, `DelBuilderBid` takes one back, `_updateTopBid` publishes the winner.
pub mod Steps
pub mod Unsaved
pub mod NewTop
pub mod Winner
pub mod Cancel
use mev_boost_relay.Prelude.{
  ℕ, Option, none, some, List, [], ◌∷◌, Bytes, Bool, true, false, ◌&&◌, ◌||◌, not, ltb, ◌==◌,
  if◌then◌else◌,
}
use mev_boost_relay.Decimal.{format, parse}
use mev_boost_relay.Common.{DataVersion, capella, deneb, electra, fulu, BidTrace, BidTraceV2}
use mev_boost_relay.Datastore.Assoc.{insert}
use mev_boost_relay.Datastore.Bids.{new_builder_bids, get_top_bid, set_string}
use mev_boost_relay.Datastore.Keys.{
  get_header_response, exec_payload_capella, payload_contents_deneb, payload_contents_electra,
  payload_contents_fulu, bid_trace, latest_bids_value, latest_bids_time, top_bid_value, floor_bid,
  floor_bid_value, slot_key, key_latest_bid_by_builder,
}
use mev_boost_relay.Datastore.Server.{
  Reply, bad_number, unsupported_version, encoding_failed, no_value, get, set, expire, hset, hget,
  hget_all, hdel,
}
use mev_boost_relay.Datastore.Pipeline.{
  M, ◌>>=◌, ◌>>◌, pure, throw, enqueue, exec, send, first_error, throw_if, unless_nil, last_reply,
  text_result, table_result, present, or_throw, copy_and_check, exec_and_check,
}

-- What the auction uses of the packages for bids and payloads: the value of a signed bid, and the
-- encodings that are stored (JSON of a bid and a trace, SSZ of a payload), each of which may fail.
pub record Codec : Type 1 where
  pub Bid : Type 0
  pub Payload : Type 0
  pub bid_value : Bid → Option ℕ
  pub marshal_bid : Bid → Option Bytes
  pub marshal_payload : DataVersion → Payload → Option Bytes
  pub marshal_trace : BidTraceV2 → Option Bytes
  pub undefined_int : Bytes → ℕ

-- `SaveBidAndUpdateTopBidResponse`, without the times that are only logged. A big.Int pointer that
-- is not set yet is `none`.
pub record SaveBidAndUpdateTopBidResponse : Type 0 where
  pub was_bid_saved : Bool
  pub was_top_bid_updated : Bool
  pub is_new_top_bid : Bool
  pub top_bid_value : ℕ
  pub prev_top_bid_value : Option ℕ

abbrev pub no_response : SaveBidAndUpdateTopBidResponse
no_response = record {
  was_bid_saved = false;
  was_top_bid_updated = false;
  is_new_top_bid = false;
  top_bid_value = 0;
  prev_top_bid_value = none;
}

abbrev pub max : ℕ → ℕ → ℕ
max a b = if ltb b a then a else b

-- `state.PrevTopBidValue == nil || state.PrevTopBidValue.Cmp(state.TopBidValue) != 0`
abbrev pub differs : Option ℕ → ℕ → Bool
differs none v = true
differs (some p) v = not (p == v)

-- `prefix` is the relay's own in every key, `c` the encodings.
module _ (prefix : Bytes) (c : Codec) where
  -- `NewBuilderBidsFromRedis`
  unfoldable pub new_builder_bids_from_redis : ℕ → Bytes → Bytes → M (List (Bytes × ℕ))
  new_builder_bids_from_redis slot parent proposer = do
    enqueue (hget_all (slot_key prefix latest_bids_value slot parent proposer))
    rs ← exec
    unless_nil (first_error rs)
    m ← table_result (last_reply rs)
    pure (new_builder_bids c.undefined_int m)

  -- `floorValue.SetString(…)`, whose second result `GetFloorBidValue` does not read.
  unfoldable pub floor_result : Option Reply → M ℕ
  floor_result none = pure 0
  floor_result (some r) = do s ← text_result r; pure (set_string c.undefined_int s)

  unfoldable pub get_floor_bid_value : ℕ → Bytes → Bytes → M ℕ
  unfolding floor_result
  get_floor_bid_value slot parent proposer = do
    enqueue (get (slot_key prefix floor_bid_value slot parent proposer))
    rs ← exec
    found ← present (first_error rs) (last_reply rs)
    floor_result found

  -- `GetTopBidValue` and `GetBuilderLatestValue` do read it.
  unfoldable pub value_result : Option Reply → M ℕ
  value_result none = pure 0
  value_result (some r) = do s ← text_result r; or_throw bad_number (parse s)

  unfoldable pub get_top_bid_value : ℕ → Bytes → Bytes → M ℕ
  unfolding value_result
  get_top_bid_value slot parent proposer = do
    enqueue (get (slot_key prefix top_bid_value slot parent proposer))
    rs ← exec
    found ← present (first_error rs) (last_reply rs)
    value_result found

  unfoldable pub get_builder_latest_value : ℕ → Bytes → Bytes → Bytes → M ℕ
  unfolding value_result
  get_builder_latest_value slot parent proposer builder = do
    rs ← send (hget (slot_key prefix latest_bids_value slot parent proposer) builder)
    found ← present (first_error rs) (last_reply rs)
    value_result found

  -- `SaveExecutionPayloadCapella` and `SavePayloadContents…`: the encoding first, then the `Set`.
  save_payload_at : Bytes → Option Bytes → M (Unit {0})
  save_payload_at key encoded = do b ← or_throw encoding_failed encoded; enqueue (set key b)

  -- The switch on the payload's version, under "1. Save the execution payload".
  unfoldable pub save_payload : DataVersion → ℕ → Bytes → Bytes → c.Payload → M (Unit {0})
  unfolding save_payload_at
  save_payload capella slot proposer block_hash p =
      save_payload_at (slot_key prefix exec_payload_capella slot proposer block_hash)
        (c.marshal_payload capella p)
  save_payload deneb slot proposer block_hash p =
      save_payload_at (slot_key prefix payload_contents_deneb slot proposer block_hash)
        (c.marshal_payload deneb p)
  save_payload electra slot proposer block_hash p =
      save_payload_at (slot_key prefix payload_contents_electra slot proposer block_hash)
        (c.marshal_payload electra p)
  save_payload fulu slot proposer block_hash p =
      save_payload_at (slot_key prefix payload_contents_fulu slot proposer block_hash)
        (c.marshal_payload fulu p)
  save_payload _ slot proposer block_hash p = throw unsupported_version

  unfoldable pub save_bid_trace : BidTraceV2 → M (Unit {0})
  save_bid_trace trace = do
    b ← or_throw encoding_failed (c.marshal_trace trace)
    enqueue (set (slot_key prefix bid_trace trace.slot trace.proposer_pubkey trace.block_hash) b)

  -- The bid, the time of the request and last the value, each queued.
  unfoldable pub save_builder_bid : ℕ → Bytes → Bytes → Bytes → ℕ → c.Bid → M (Unit {0})
  save_builder_bid slot parent proposer builder received_at header = do
    b ← or_throw encoding_failed (c.marshal_bid header)
    enqueue (set (key_latest_bid_by_builder prefix slot parent proposer builder) b)
    enqueue
        (hset (slot_key prefix latest_bids_time slot parent proposer) builder (format received_at))
    enqueue (expire (slot_key prefix latest_bids_time slot parent proposer))
    value ← or_throw no_value (c.bid_value header)
    enqueue (hset (slot_key prefix latest_bids_value slot parent proposer) builder (format value))
    enqueue (expire (slot_key prefix latest_bids_value slot parent proposer))

  -- `_updateTopBid` from where bids and floor are known and there is a bid.
  unfoldable pub publish_top_bid :
      SaveBidAndUpdateTopBidResponse
      → List (Bytes × ℕ)
      → ℕ
      → Bytes
      → Bytes
      → ℕ
      → M SaveBidAndUpdateTopBidResponse
  publish_top_bid state bids slot parent proposer floor = do
    let top = (get_top_bid bids).1
    let value = if ltb top floor then floor else top
    let source =
        if ltb top floor
        then slot_key prefix floor_bid slot parent proposer
        else key_latest_bid_by_builder prefix slot parent proposer (get_top_bid bids).0
    copy_and_check source (slot_key prefix get_header_response slot parent proposer)
    enqueue (expire (slot_key prefix get_header_response slot parent proposer))
    enqueue (set (slot_key prefix top_bid_value slot parent proposer) (format value))
    exec_and_check
    pure (record state {
      top_bid_value = value;
      was_top_bid_updated = differs state.prev_top_bid_value value;
    })

  -- With no bid there is nothing to do. `floor` is read if it was not passed in.
  unfoldable pub update_top_bid_of :
      SaveBidAndUpdateTopBidResponse
      → List (Bytes × ℕ)
      → ℕ
      → Bytes
      → Bytes
      → Option ℕ
      → M SaveBidAndUpdateTopBidResponse
  unfolding publish_top_bid
  update_top_bid_of state [] slot parent proposer floor = pure state
  update_top_bid_of state (b ∷ bids) slot parent proposer (some floor) =
      publish_top_bid state (b ∷ bids) slot parent proposer floor
  update_top_bid_of state (b ∷ bids) slot parent proposer none = do
    floor ← get_floor_bid_value slot parent proposer
    publish_top_bid state (b ∷ bids) slot parent proposer floor

  unfoldable pub update_top_bid :
      SaveBidAndUpdateTopBidResponse
      → Option (List (Bytes × ℕ))
      → ℕ
      → Bytes
      → Bytes
      → Option ℕ
      → M SaveBidAndUpdateTopBidResponse
  unfolding update_top_bid_of
  update_top_bid state (some bids) slot parent proposer floor =
      update_top_bid_of state bids slot parent proposer floor
  update_top_bid state none slot parent proposer floor = do
    bids ← new_builder_bids_from_redis slot parent proposer
    update_top_bid_of state bids slot parent proposer floor

  -- The end of `SaveBidAndUpdateTopBid`: a bid that cannot be cancelled becomes the floor.
  unfoldable pub set_floor : BidTrace → M (Unit {0})
  set_floor b = do
    copy_and_check
        (key_latest_bid_by_builder prefix b.slot b.parent_hash b.proposer_pubkey b.builder_pubkey)
        (slot_key prefix floor_bid b.slot b.parent_hash b.proposer_pubkey)
    enqueue (expire (slot_key prefix floor_bid b.slot b.parent_hash b.proposer_pubkey))
    enqueue (
        set (slot_key prefix floor_bid_value b.slot b.parent_hash b.proposer_pubkey)
          (format b.value))
    exec_and_check

  unfoldable pub or_read_floor : BidTrace → Option ℕ → M ℕ
  or_read_floor b (some floor) = pure floor
  or_read_floor b none = get_floor_bid_value b.slot b.parent_hash b.proposer_pubkey

  -- "1. Save the execution payload", "2. Save latest bid for this builder", "3. Save the bid trace"
  unfoldable pub queue_bid :
      BidTraceV2 → BidTrace → DataVersion → c.Payload → c.Bid → ℕ → M (Unit {0})
  unfolding save_payload save_builder_bid save_bid_trace
  queue_bid trace b version payload header received_at = do
    save_payload version b.slot b.proposer_pubkey b.block_hash payload
    save_builder_bid b.slot b.parent_hash b.proposer_pubkey b.builder_pubkey received_at header
    save_bid_trace trace

  -- Everything from "Time to save things in Redis" on. `bids` are the bids so far, `reference` is
  -- the top bid's value before.
  unfoldable pub save_bid :
      BidTraceV2
      → BidTrace
      → DataVersion
      → c.Payload
      → c.Bid
      → ℕ
      → Bool
      → ℕ
      → List (Bytes × ℕ)
      → ℕ
      → M SaveBidAndUpdateTopBidResponse
  save_bid trace b version payload header received_at is_cancellation_enabled floor bids reference =
      do
        queue_bid trace b version payload header received_at
        let bids' = insert b.builder_pubkey b.value bids
        let top = (get_top_bid bids').1
        let state = record no_response { top_bid_value = top; prev_top_bid_value = some reference }
        if top == reference then pure state else do
          updated ←
              update_top_bid state (some bids') b.slot b.parent_hash b.proposer_pubkey (some floor)
          let saved = record updated {
            is_new_top_bid = b.value == updated.top_bid_value;
            was_bid_saved = true;
          }
          if is_cancellation_enabled || not (ltb floor b.value)
              then pure saved
              else do set_floor b; pure saved

  -- `submission.BidTrace` and the payload's version stand for the payload, of which the function
  -- takes no more.
  unfoldable pub save_bid_and_update_top_bid :
      BidTraceV2
      → BidTrace
      → DataVersion
      → c.Payload
      → c.Bid
      → ℕ
      → Bool
      → Option ℕ
      → M SaveBidAndUpdateTopBidResponse
  unfolding or_read_floor save_bid
  save_bid_and_update_top_bid trace b version payload header received_at is_cancellation_enabled
        floor_value =
      do
        bids ← new_builder_bids_from_redis b.slot b.parent_hash b.proposer_pubkey
        floor ← or_read_floor b floor_value
        let top = (get_top_bid bids).1
        let reference = if ltb top floor then floor else top
        if not is_cancellation_enabled && not (ltb floor b.value)
            then pure (record no_response {
              top_bid_value = reference;
              prev_top_bid_value = some reference;
            })
            else save_bid trace b version payload header received_at is_cancellation_enabled floor
                bids reference

  -- The two deletions are sent at once, by the client and not through the pipeline.
  unfoldable pub del_builder_bid : ℕ → Bytes → Bytes → Bytes → M (Unit {0})
  unfolding update_top_bid
  del_builder_bid slot parent proposer builder = do
    rs ← send (hdel (slot_key prefix latest_bids_value slot parent proposer) builder)
    unless_nil (first_error rs)
    rs' ← send (hdel (slot_key prefix latest_bids_time slot parent proposer) builder)
    throw_if (first_error rs')
    updated ← update_top_bid no_response none slot parent proposer none
    pure tt
