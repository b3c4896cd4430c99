-- ===== src/Datastore/Auction/NewTop.antt =====
-- The bid that wins: what `SaveBidAndUpdateTopBid` leaves in Redis.
use mev_boost_relay.Prelude.{
  ℕ, ◌≤◌, ◌<◌, ◌≡◌, ◌≢◌, refl, ◌∙◌, Option, none, some, List, [], ◌∷◌, Bytes, Bool, true, false,
  not, ltb, arith, le→not-ltb, lt→ltb, if◌then◌else◌, bytes_eq, bytes_eq_refl, ◌||◌, lt→not-==,
  lt→not-==_flip, ==_refl,
}
use mev_boost_relay.Decimal.{format}
use mev_boost_relay.Common.{DataVersion, capella, deneb, electra, fulu, BidTrace, BidTraceV2}
use mev_boost_relay.Datastore.Assoc.{insert}
use mev_boost_relay.Datastore.Bids.{get_top_bid}
use mev_boost_relay.Datastore.Bids.Top.{insert_wins}
use mev_boost_relay.Datastore.Keys.{
  Field, get_header_response, exec_payload_capella, payload_contents_deneb,
  payload_contents_electra, payload_contents_fulu, bid_trace, latest_bids, latest_bids_value,
  latest_bids_time, top_bid_value, floor_bid, floor_bid_value, slot_key, key_latest_bid_by_builder,
}
use mev_boost_relay.Datastore.Keys.Injective.{slot_key-ne}
use mev_boost_relay.Datastore.Server.{
  put, Cmd, set, hset, expire, Keyspace, returns, run_keyspace, replies, effects, reply, effect,
}
use mev_boost_relay.Datastore.Pipeline.{◌>>◌, pure, first_error}
use mev_boost_relay.Datastore.Pipeline.Batch.{copy_and_check_run, exec_and_check_run}
use mev_boost_relay.Datastore.Auction.{
  Codec, differs, SaveBidAndUpdateTopBidResponse, queue_bid, save_bid, publish_top_bid,
  update_top_bid, set_floor,
}
use mev_boost_relay.Datastore.Auction.Steps.{run_after, run_ok}

-- Where a payload of a version is stored, for the versions that are.
abbrev pub payload_field : DataVersion → Option Field
payload_field capella = some exec_payload_capella
payload_field deneb = some payload_contents_deneb
payload_field electra = some payload_contents_electra
payload_field fulu = some payload_contents_fulu
payload_field _ = none

module _ (prefix : Bytes) (c : Codec) where
  -- The encodings of a bid succeed, to these texts, and the header carries the bid's value.
  pub record Encodes (trace : BidTraceV2) (b : BidTrace) (version : DataVersion)
      (payload : c.Payload) (header : c.Bid) (field : Field)
      (payload_text header_text trace_text : Bytes) : Type 0 where
    pub stored : payload_field version ≡ some field
    pub payload_encodes : c.marshal_payload version payload ≡ some payload_text
    pub header_encodes : c.marshal_bid header ≡ some header_text
    pub trace_encodes : c.marshal_trace trace ≡ some trace_text
    pub carries : c.bid_value header ≡ some b.value

  abbrev pub bid_commands : BidTraceV2 → BidTrace → ℕ → Field → Bytes → Bytes → Bytes → List Cmd
  bid_commands trace b received_at field payload_text header_text trace_text =
      set (slot_key prefix field b.slot b.proposer_pubkey b.block_hash) payload_text
      ∷ set
          (key_latest_bid_by_builder prefix b.slot b.parent_hash b.proposer_pubkey b.builder_pubkey)
          header_text
      ∷ hset (slot_key prefix latest_bids_time b.slot b.parent_hash b.proposer_pubkey)
          b.builder_pubkey (format received_at)
      ∷ expire (slot_key prefix latest_bids_time b.slot b.parent_hash b.proposer_pubkey)
      ∷ hset (slot_key prefix latest_bids_value b.slot b.parent_hash b.proposer_pubkey)
          b.builder_pubkey (format b.value)
      ∷ expire (slot_key prefix latest_bids_value b.slot b.parent_hash b.proposer_pubkey)
      ∷ set (slot_key prefix bid_trace trace.slot trace.proposer_pubkey trace.block_hash) trace_text
      ∷ []

  queue_bid_run :
      (trace : BidTraceV2) (b : BidTrace) (version : DataVersion) (payload : c.Payload)
      (header : c.Bid) (received_at : ℕ) (field : Field)
      (payload_text header_text trace_text : Bytes) (ks : Keyspace)
      → Encodes trace b version payload header field payload_text header_text trace_text
      → run_keyspace (queue_bid prefix c trace b version payload header received_at []) ks ≡ (
        returns (tt, bid_commands trace b received_at field payload_text header_text trace_text),
        ks,
      )
  unfolding queue_bid run_keyspace
  queue_bid_run trace b capella payload header received_at field pt ht tt' ks e = ground arith
  queue_bid_run trace b _ payload header received_at field pt ht tt' ks e = ground arith

  -- The key of a bid by a builder is one of the keys of its field.
  latest-ne :
      (b : BidTrace) (f : Field) (slot : ℕ) (x y : Bytes)
      → f ≢ latest_bids
      → bytes_eq
          (slot_key prefix f slot x y)
          (key_latest_bid_by_builder prefix b.slot b.parent_hash b.proposer_pubkey b.builder_pubkey)
        ≡ false
  unfolding key_latest_bid_by_builder
  latest-ne b f slot x y ne = slot_key-ne prefix f latest_bids slot b.slot x y b.parent_hash _ ne

  -- The bid's text stands under its builder's key once the queue is sent.
  bid_sent :
      (trace : BidTraceV2) (b : BidTrace) (received_at : ℕ) (field : Field)
      (payload_text header_text trace_text : Bytes) (ks : Keyspace)
      → (effects
            (bid_commands trace b received_at field payload_text header_text trace_text)
            ks).texts
          (key_latest_bid_by_builder prefix b.slot b.parent_hash b.proposer_pubkey b.builder_pubkey)
        ≡ some header_text
  unfolding effects effect
  bid_sent trace b received_at field pt ht tt' ks = rw (
    latest-ne b bid_trace trace.slot trace.proposer_pubkey trace.block_hash (λ e. cc),
    bytes_eq_refl _,
  )

  pub update-publishes :
      (state : SaveBidAndUpdateTopBidResponse) (bids : List (Bytes × ℕ)) (slot : ℕ)
      (parent proposer : Bytes) (floor : ℕ)
      → 0 < (get_top_bid bids).1
      → update_top_bid prefix c state (some bids) slot parent proposer (some floor)
        ≡ publish_top_bid prefix c state bids slot parent proposer floor
  unfolding update_top_bid get_top_bid
  update-publishes state [] slot parent proposer floor h = absurd (omega arith)
  update-publishes state (x ∷ bids) slot parent proposer floor h = refl

  -- The contents once the winner is published, and once it is the floor.
  abbrev pub published : BidTrace → Bytes → Keyspace → Keyspace
  published b header_text ks = record ks {
    texts =
        put
          (put ks.texts (slot_key prefix get_header_response b.slot b.parent_hash b.proposer_pubkey)
            (some header_text))
          (slot_key prefix top_bid_value b.slot b.parent_hash b.proposer_pubkey)
          (some (format b.value));
  }

  abbrev pub floored : BidTrace → Bytes → Keyspace → Keyspace
  floored b header_text ks = record ks {
    texts =
        put
          (put ks.texts (slot_key prefix floor_bid b.slot b.parent_hash b.proposer_pubkey)
            (some header_text))
          (slot_key prefix floor_bid_value b.slot b.parent_hash b.proposer_pubkey)
          (some (format b.value));
  }

  -- Publishing a winner whose bid stands under its builder's key once the queue is sent.
  pub publish_run :
      (b : BidTrace) (q : List Cmd) (ks : Keyspace) (header_text : Bytes)
      (state : SaveBidAndUpdateTopBidResponse) (bids : List (Bytes × ℕ)) (floor : ℕ)
      → get_top_bid bids ≡ (b.builder_pubkey, b.value)
      → floor ≤ b.value
      → first_error (replies q ks) ≡ none
      → (effects q ks).texts
          (key_latest_bid_by_builder prefix b.slot b.parent_hash b.proposer_pubkey b.builder_pubkey)
        ≡ some header_text
      → run_keyspace
          (publish_top_bid prefix c state bids b.slot b.parent_hash b.proposer_pubkey floor q)
          ks
        ≡ (
          returns (
            record state {
              top_bid_value = b.value;
              was_top_bid_updated = differs state.prev_top_bid_value b.value;
            },
            [],
          ),
          published b header_text (effects q ks),
        )
  unfolding publish_top_bid effects effect replies reply
  publish_run b q ks header_text state bids floor top low sent stands =
      rw (top, le→not-ltb floor b.value low)
        (run_after _ _ ks (
            copy_and_check_run q ks _
              (slot_key prefix get_header_response b.slot b.parent_hash b.proposer_pubkey)
              header_text sent stands)
          ∙ run_after _ _ _ (
              exec_and_check_run
                (expire (slot_key prefix get_header_response b.slot b.parent_hash b.proposer_pubkey)
                  ∷ set (slot_key prefix top_bid_value b.slot b.parent_hash b.proposer_pubkey)
                      (format b.value)
                  ∷ [])
                _ refl)
          ∙ run_ok _ _)

  floor_run :
      (b : BidTrace) (ks : Keyspace) (header_text : Bytes)
      → ks.texts
          (key_latest_bid_by_builder prefix b.slot b.parent_hash b.proposer_pubkey b.builder_pubkey)
        ≡ some header_text
      → run_keyspace (set_floor prefix c b []) ks ≡ (returns (tt, []), floored b header_text ks)
  unfolding set_floor effects effect replies reply
  floor_run b ks header_text stands =
      run_after _ _ ks (
        copy_and_check_run [] ks _
          (slot_key prefix floor_bid b.slot b.parent_hash b.proposer_pubkey) header_text refl
          stands)
      ∙ exec_and_check_run
          (expire (slot_key prefix floor_bid b.slot b.parent_hash b.proposer_pubkey)
            ∷ set (slot_key prefix floor_bid_value b.slot b.parent_hash b.proposer_pubkey)
                (format b.value)
            ∷ [])
          _ refl

  -- What a winning bid leaves behind.
  abbrev pub after_win : BidTrace → Bool → Bytes → Keyspace → Keyspace
  after_win b cancellable header_text ks =
      let ks' = published b header_text ks in if cancellable then ks' else floored b header_text ks'

  -- The latest bid still stands once it is published.
  published-latest :
      (b : BidTrace) (header_text : Bytes) (ks : Keyspace)
      → ks.texts
          (key_latest_bid_by_builder prefix b.slot b.parent_hash b.proposer_pubkey b.builder_pubkey)
        ≡ some header_text
      → (published b header_text ks).texts
          (key_latest_bid_by_builder prefix b.slot b.parent_hash b.proposer_pubkey b.builder_pubkey)
        ≡ some header_text
  published-latest b header_text ks h =
      rw (latest-ne b top_bid_value b.slot b.parent_hash b.proposer_pubkey (λ e. cc))
        (rw (latest-ne b get_header_response b.slot b.parent_hash b.proposer_pubkey (λ e. cc)) h)

  -- The end of the function: a bid that cannot be cancelled becomes the floor.
  finish_run :
      (b : BidTrace) (cancellable : Bool) (floor : ℕ) (header_text : Bytes) (ks : Keyspace)
      (saved : SaveBidAndUpdateTopBidResponse)
      → floor < b.value
      → ks.texts
          (key_latest_bid_by_builder prefix b.slot b.parent_hash b.proposer_pubkey b.builder_pubkey)
        ≡ some header_text
      → run_keyspace
          ((if cancellable || not (ltb floor b.value)
              then pure saved
              else do set_floor prefix c b; pure saved)
            [])
          ks
        ≡ (returns (saved, []), if cancellable then ks else floored b header_text ks)
  finish_run b true floor header_text ks saved low h = run_ok _ ks
  finish_run b false floor header_text ks saved low h =
      rw (lt→ltb floor b.value low) (run_after _ _ ks (floor_run b ks header_text h) ∙ run_ok _ _)

  pub win_run :
      (trace : BidTraceV2) (b : BidTrace) (version : DataVersion) (payload : c.Payload)
      (header : c.Bid) (received_at : ℕ) (cancellable : Bool) (floor : ℕ) (bids : List (Bytes × ℕ))
      (reference : ℕ) (ks : Keyspace) (field : Field) (payload_text header_text trace_text : Bytes)
      → Encodes trace b version payload header field payload_text header_text trace_text
      → (get_top_bid bids).1 < b.value
      → floor < b.value
      → reference < b.value
      → run_keyspace
          (save_bid prefix c trace b version payload header received_at cancellable floor bids
            reference [])
          ks
        ≡ (
          returns (
            record {
              was_bid_saved = true;
              was_top_bid_updated = true;
              is_new_top_bid = true;
              top_bid_value = b.value;
              prev_top_bid_value = some reference;
            },
            [],
          ),
          after_win b cancellable header_text (
              effects
                (bid_commands trace b received_at field payload_text header_text trace_text)
                ks),
        )
  unfolding save_bid
  win_run trace b version payload header received_at cancellable floor bids reference ks field pt ht
        tt' e top low old =
      let q = bid_commands trace b received_at field pt ht tt' in
      let wins = insert_wins b.builder_pubkey b.value bids top in
      run_after _ _ ks {ks' = ks}
        (queue_bid_run trace b version payload header received_at field pt ht tt' ks e)
      ∙ rw (wins, lt→not-== reference b.value old)
          (rw
            (update-publishes _ (insert b.builder_pubkey b.value bids) b.slot b.parent_hash
              b.proposer_pubkey floor (rw wins (omega arith)))
            (run_after _ _ ks (
                publish_run b q ks ht _ (insert b.builder_pubkey b.value bids) floor wins
                  (omega arith) (unfold replies reply in refl)
                  (bid_sent trace b received_at field pt ht tt' ks))
              ∙ rw (lt→not-==_flip reference b.value old, ==_refl b.value)
                  (finish_run b cancellable floor ht _ _ low (
                    published-latest b ht (effects q ks)
                      (bid_sent trace b received_at field pt ht tt' ks)))))
