-- ===== src/Tests/Floor.antt =====
-- A payload was delivered for slot 6, and the floor of slot 7 is 5.
use mev_boost_relay.Prelude.{ℕ, ◌≡◌, refl, ◌<◌, ◌↔◌, some, [], codes, false, arith}
use mev_boost_relay.Decimal.{format}
use mev_boost_relay.Datastore.Keys.{redis_field, last_slot_delivered, slot_key, floor_bid_value}
use mev_boost_relay.Datastore.Server.{Keyspace, put, returns, run, keyspace_server, empty_keyspace}
use mev_boost_relay.Datastore.Auction.Steps.{floor_at}
use mev_boost_relay.Api.Floor.{
  IsLastSlot, check_floor_bid_value, goes_on, check_floor_bid_value_iff,
}
use mev_boost_relay.Tests.Auction.{codec, prefix, bid, bob}

abbrev delivered_before : Keyspace
delivered_before = record empty_keyspace {
  texts =
      put
        (put (empty_keyspace.texts)
          (slot_key prefix floor_bid_value 7 (codes "0x11") (codes "0x33")) (some (format 5)))
        (redis_field prefix last_slot_delivered) (some (format 6));
}

delivered_before-IsLastSlot : IsLastSlot prefix delivered_before 6
unfolding mev_boost_relay.Prelude.bytes_eq redis_field
delivered_before-IsLastSlot = refl

check_floor_bid_value_iff_example :
    let floor = floor_at prefix codec delivered_before 7 (codes "0x11") (codes "0x33") in
    let r =
      run keyspace_server
        (check_floor_bid_value prefix codec false (bid bob 8) [])
        delivered_before in
    (r.1 ≡ delivered_before)
    × ((r.0 ≡ returns (goes_on (some floor), [])) ↔ ((6 < 7) × (floor < 8)))
check_floor_bid_value_iff_example =
    check_floor_bid_value_iff prefix codec (bid bob 8) keyspace_server delivered_before 6 tt
      delivered_before-IsLastSlot (omega arith)
