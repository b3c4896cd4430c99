-- ===== src/Tests/GetHeader.antt =====
-- The proposer of slot 7 asks for a header, after a bid of 12 has won.
use mev_boost_relay.Prelude.{
  ℕ, ◌+◌, ◌*◌, ◌^◌, ◌<◌, ◌≤◌, ◌≡◌, refl, ◌⊎◌, Option, none, some, List, [], ◌∷◌, Bytes, codes, Bool,
  true, false, arith,
}
use mev_boost_relay.Decimal.{format, parse, parse-format}
use mev_boost_relay.Common.{deneb, BidTrace, BidTraceV2}
use mev_boost_relay.Datastore.Keys.{payload_contents_deneb}
use mev_boost_relay.Datastore.Server.{Keyspace, returns, run, keyspace_server, empty_keyspace}
use mev_boost_relay.Datastore.Auction.{save_bid_and_update_top_bid}
use mev_boost_relay.Datastore.Auction.Steps.{reference_for}
use mev_boost_relay.Datastore.Auction.Winner.{IsWon, save-wins}
use mev_boost_relay.Payloads.{made}
use mev_boost_relay.Api.Submit.{goes}
use mev_boost_relay.Api.GetHeader.{
  Settings, HeaderRequest, BidFormat, admit_get_header, handle_get_header, compute_get_header_delay,
}
use mev_boost_relay.Api.GetHeader.Delay.{MeetsClient, delay_meets_deadlines}
use mev_boost_relay.Api.GetHeader.Offers.{offers, won-offered}
use mev_boost_relay.Tests.Api.{api}
use mev_boost_relay.Tests.Auction.{codec, prefix, bob}

abbrev proposer : Bytes
proposer =
    codes
      "0xaaaaaaaaaaaaaaaaaaaaaaaaaaaaaaaaaaaaaaaaaaaaaaaaaaaaaaaaaaaaaaaaaaaaaaaaaaaaaaaaaaaaaaaaaaaaaaaa"

abbrev parent : Bytes
parent = codes "0x1111111111111111111111111111111111111111111111111111111111111111"

abbrev bid : BidTrace
bid = record {
  slot = 7;
  parent_hash = parent;
  block_hash = codes "0x22";
  builder_pubkey = bob;
  proposer_pubkey = proposer;
  proposer_fee_recipient = codes "0x44";
  gas_limit = 30;
  gas_used = 20;
  value = 12;
}

abbrev trace : BidTraceV2
trace = record {
  bid_trace = bid;
  block_number = 1;
  num_tx = 2;
  num_blobs = 0;
  blob_gas_used = 0;
  excess_blob_gas = 0;
}

abbrev after_bid : Keyspace
after_bid =
    (run keyspace_server
      (save_bid_and_update_top_bid prefix codec trace bid deneb 5 12 1000 false none [])
      empty_keyspace).1

no_bids : reference_for prefix codec empty_keyspace bid none ≡ 0
unfolding reference_for mev_boost_relay.Datastore.Bids.get_top_bid
    mev_boost_relay.Datastore.Auction.Steps.bids_at mev_boost_relay.Datastore.Bids.new_builder_bids
    mev_boost_relay.Datastore.Auction.Steps.floor_for
    mev_boost_relay.Datastore.Auction.Steps.floor_at
no_bids = refl

won :
    IsWon prefix codec bid false payload_contents_deneb
      (format 5)
      (format 12)
      empty_keyspace
      after_bid
won =
    (save-wins prefix codec keyspace_server empty_keyspace trace bid deneb 5 12 1000 false none
      payload_contents_deneb (format 5) (format 12) [] tt
      (record {
        stored = refl;
        payload_encodes = refl;
        header_encodes = refl;
        trace_encodes = refl;
        carries = refl;
      })
      (rw no_bids (omega arith))).1

abbrev bid_format : BidFormat
bid_format = record {
  Bid = ℕ;
  unmarshal_bid = parse;
  is_empty_bid = λ b. false;
  value = λ b. (none, some b);
  block_hash_err = λ b. none;
  error_text = λ e. [];
}

abbrev settings : Settings
settings = record {
  api = api;
  head_slot = 6;
  api_no_header_user_agents = codes "curl" ∷ [];
  ff_force_get_header_204 = false;
  get_header_request_cutoff_ms = 3000;
  get_header_response_delay_target_ms = 0;
  get_header_response_delay_safety_ms = 0;
  get_header_delay_user_agents = [];
}

abbrev asked : HeaderRequest
asked = record {
  media_type = made (codes "application/json");
  slot = codes "7";
  parent_hash = parent;
  pubkey = proposer;
  user_agent = codes "mev-boost";
  request_time = 1084100;
  now = 1084100;
  date_milliseconds = none;
  timeout_ms = none;
  gives_up = false;
}

admitted : admit_get_header settings asked ≡ goes (record { slot = 7; delay_ms = 0 })
unfolding admit_get_header parse mev_boost_relay.Prelude.bytes_eq compute_get_header_delay
admitted = refl

won-offered_example :
    let r = run keyspace_server (handle_get_header prefix bid_format settings asked []) after_bid in
    (r.0 ≡ returns (offers prefix bid_format 12, [])) × (r.1 ≡ after_bid)
won-offered_example =
    won-offered prefix bid_format codec keyspace_server after_bid empty_keyspace bid false
      payload_contents_deneb (format 5) (format 12) settings asked 0 12 12 tt won admitted refl refl
      refl (parse-format 12) refl refl (omega arith) refl

-- The client gives up at 1900, the relay aims at 2000 with a margin of 100, and it is 1500.
delay_meets_deadlines_example :
    let delay =
      compute_get_header_delay
        (codes "mev-boost/1.9")
        1000
        1500
        (some 1400)
        (some 500)
        1000
        100
        (codes "mev-boost" ∷ []) in
    (delay ≡ 0)
    ⊎ ((1500 + delay + 100 ≤ 1000 + 1000) × MeetsClient (some 1400) (some 500) (1500 + delay + 100))
delay_meets_deadlines_example =
    delay_meets_deadlines (codes "mev-boost/1.9") 1000 1500 (some 1400) (some 500) 1000 100
      (codes "mev-boost" ∷ []) (omega arith) (omega arith) (omega arith) (omega arith, omega arith)
