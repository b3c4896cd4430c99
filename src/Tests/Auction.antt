-- ===== src/Tests/Auction.antt =====
-- The auction on a server that is its contents: three builders, one slot.
use mathlib.Core.List.{Permᴰ}
use mev_boost_relay.Prelude.{
  ℕ, ◌≡◌, refl, none, some, List, [], ◌∷◌, Bytes, codes, Bool, true, false, inr, arith, bytes_eq,
}
use mev_boost_relay.Decimal.{format, parse}
use mev_boost_relay.Common.{deneb, BidTrace, BidTraceV2}
use mev_boost_relay.Datastore.Assoc.{insert, delete, lookup}
use mev_boost_relay.Datastore.Bids.{get_top_bid, new_builder_bids, set_string}
use mev_boost_relay.Datastore.Bids.Top.{get_top_bid-perm}
use mev_boost_relay.Datastore.Keys.{
  floor_bid, floor_bid_value, payload_contents_deneb, latest_bids_value, get_header_response,
  top_bid_value, slot_key, key_latest_bid_by_builder,
}
use mev_boost_relay.Datastore.Keys.Injective.{slot_key-injective}
use mev_boost_relay.Datastore.Keys.Split.{lacks, lacks→Lacks}
use mev_boost_relay.Datastore.Server.{
  Result, Cmd, Keyspace, put, returns, run, run_keyspace, keyspace_server, empty_keyspace, replies,
  effects, reply, effect,
}
use mev_boost_relay.Datastore.Pipeline.{exec_and_check, copy_and_check}
use mev_boost_relay.Datastore.Auction.{
  Codec, SaveBidAndUpdateTopBidResponse, save_bid_and_update_top_bid, save_bid, queue_bid,
  publish_top_bid, set_floor, update_top_bid, new_builder_bids_from_redis, get_floor_bid_value,
  del_builder_bid,
}
use mev_boost_relay.Datastore.Auction.Steps.{bids_at, floor_at, floor_for, reference_for}
use mev_boost_relay.Datastore.Auction.Unsaved.{IsUnsaved, save-IsUnsaved}
use mev_boost_relay.Datastore.Auction.Winner.{winning, IsWon, save-wins}
use mev_boost_relay.Datastore.Auction.Cancel.{del-last-keeps_top, del-republishes}

-- A bid is its value, a payload its number, and both are stored in decimal.
abbrev pub codec : Codec
codec = record {
  Bid = ℕ;
  Payload = ℕ;
  bid_value = λ b. some b;
  marshal_bid = λ b. some (format b);
  marshal_payload = λ v p. some (format p);
  marshal_trace = λ t. some [];
  undefined_int = λ s. 0;
}

abbrev pub prefix : Bytes
prefix = codes "main"

abbrev alice : Bytes
alice = codes "0xa1"

abbrev pub bob : Bytes
bob = codes "0xb2"

abbrev pub bid : Bytes → ℕ → BidTrace
bid builder value = record {
  slot = 7;
  parent_hash = codes "0x11";
  block_hash = codes "0x22";
  builder_pubkey = builder;
  proposer_pubkey = codes "0x33";
  proposer_fee_recipient = codes "0x44";
  gas_limit = 30;
  gas_used = 20;
  value = value;
}

abbrev trace : BidTrace → BidTraceV2
trace b = record {
  bid_trace = b;
  block_number = 1;
  num_tx = 2;
  num_blobs = 0;
  blob_gas_used = 0;
  excess_blob_gas = 0;
}

-- Alice has bid 10, which is the floor.
abbrev started : Keyspace
started = record {
  texts =
      put
        (put (λ _. none) (slot_key prefix floor_bid_value 7 (codes "0x11") (codes "0x33"))
          (some (codes "10")))
        (key_latest_bid_by_builder prefix 7 (codes "0x11") (codes "0x33") alice)
        (some (codes "10"));
  tables =
      put (λ _. []) (slot_key prefix latest_bids_value 7 (codes "0x11") (codes "0x33"))
        ((alice, codes "10") ∷ []);
}

abbrev submit :
    Bytes → ℕ → Bool → Keyspace → Result (SaveBidAndUpdateTopBidResponse × List Cmd) × Keyspace
submit builder value cancellable ks =
    run_keyspace
      (save_bid_and_update_top_bid prefix codec (trace (bid builder value)) (bid builder value)
        deneb 5 value 1000 cancellable none [])
      ks

first_bid : (submit alice 10 false empty_keyspace).0 ≡ returns (winning 10 0, [])
unfolding save_bid_and_update_top_bid save_bid queue_bid publish_top_bid set_floor update_top_bid
    new_builder_bids_from_redis get_floor_bid_value run_keyspace replies effects reply effect lookup
    insert new_builder_bids get_top_bid set_string parse format slot_key key_latest_bid_by_builder
    exec_and_check copy_and_check bytes_eq
first_bid = refl

-- Bob's 8 is below Alice's 10.
save-IsUnsaved_example :
    IsUnsaved (submit bob 8 true started).0 × ((submit bob 8 true started).1 ≡ started)
unfolding run run_keyspace bids_at reference_for floor_for floor_at new_builder_bids get_top_bid
    set_string parse slot_key insert bytes_eq format key_latest_bid_by_builder
save-IsUnsaved_example =
    save-IsUnsaved prefix codec keyspace_server started (trace (bid bob 8)) (bid bob 8) deneb 5 8
      1000 true none tt (inr refl)

save-wins_example :
    let r = submit bob 12 false started in
    (r.0 ≡ returns (winning 12 10, []))
    × IsWon prefix codec
        (bid bob 12)
        false
        payload_contents_deneb
        (codes "5")
        (codes "12")
        started
        r.1
unfolding run run_keyspace bids_at reference_for floor_for floor_at new_builder_bids get_top_bid
    set_string parse format slot_key insert bytes_eq key_latest_bid_by_builder
save-wins_example =
    save-wins prefix codec keyspace_server started (trace (bid bob 12)) (bid bob 12) deneb 5 12 1000
      false none payload_contents_deneb (codes "5") (codes "12") [] tt
      (record {
        stored = refl;
        payload_encodes = refl;
        header_encodes = refl;
        trace_encodes = refl;
        carries = refl;
      })
      (omega arith)

del-last-keeps_top_example :
    let r =
      run keyspace_server
        (del_builder_bid prefix codec 7 (codes "0x11") (codes "0x33") alice [])
        started in
    (r.0 ≡ returns (tt, []))
    × (bids_at prefix codec r.1 7 (codes "0x11") (codes "0x33") ≡ [])
    × (r.1.texts ≡ started.texts)
unfolding bids_at new_builder_bids slot_key delete bytes_eq format
del-last-keeps_top_example =
    del-last-keeps_top prefix codec 7 (codes "0x11") (codes "0x33") alice keyspace_server started tt
      refl

del-republishes_example :
    let r =
      run keyspace_server
        (del_builder_bid prefix codec 7 (codes "0x11") (codes "0x33") bob [])
        started in
    (r.0 ≡ returns (tt, []))
    × (r.1.texts (slot_key prefix get_header_response 7 (codes "0x11") (codes "0x33"))
        ≡ some (codes "10"))
    × (r.1.texts (slot_key prefix top_bid_value 7 (codes "0x11") (codes "0x33")) ≡ some (format 10))
    × (lookup bob (bids_at prefix codec r.1 7 (codes "0x11") (codes "0x33")) ≡ none)
unfolding bids_at floor_at new_builder_bids set_string parse get_top_bid slot_key
    key_latest_bid_by_builder delete bytes_eq format
del-republishes_example =
    del-republishes prefix codec 7 (codes "0x11") (codes "0x33") bob keyspace_server started alice
      10 (codes "10") tt refl (omega arith) (omega arith) refl

get_top_bid-perm_example :
    (get_top_bid ((alice, 10) ∷ (bob, 8) ∷ [])).1 ≡ (get_top_bid ((bob, 8) ∷ (alice, 10) ∷ [])).1
get_top_bid-perm_example = get_top_bid-perm (Permᴰ.swap refl refl)

slot_key-injective_example :
    (floor_bid ≡ floor_bid) × (◌≡◌ {A = ℕ} 7 7) × (alice ≡ alice) × (bob ≡ bob)
slot_key-injective_example =
    slot_key-injective prefix floor_bid floor_bid 7 7 alice bob alice bob
      (lacks→Lacks b'_' alice (unfold lacks in refl))
      (lacks→Lacks b'_' alice (unfold lacks in refl)) refl
