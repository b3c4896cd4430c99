-- ===== src/Datastore/Keys.antt =====
-- The keys of datastore/redis.go: the prefixes that `NewRedisCache` builds and the key functions.
pub mod Split
pub mod Injective
use mev_boost_relay.Prelude.{ℕ, List, [], ◌∷◌, ◌++◌, Bytes, codes}
use mev_boost_relay.Decimal.{format}

-- The fields of `RedisCache` that hold a prefix, then those that hold a whole key.
pub data Field : Type 0 where
  get_header_response exec_payload_capella payload_contents_deneb : Field
  payload_contents_electra payload_contents_fulu bid_trace : Field
  latest_bids latest_bids_value latest_bids_time : Field
  top_bid_value floor_bid floor_bid_value : Field
  validator_registration_data vouch_registry relay_config : Field
  stats proposer_duties block_builder_status : Field
  last_slot_delivered last_hash_delivered : Field

unfoldable pub field_name : Field → Bytes
field_name get_header_response = codes "cache-gethead-response"
field_name exec_payload_capella = codes "cache-execpayload-capella"
field_name payload_contents_deneb = codes "cache-payloadcontents-deneb"
field_name payload_contents_electra = codes "cache-payloadcontents-electra"
field_name payload_contents_fulu = codes "cache-payloadcontents-fulu"
field_name bid_trace = codes "cache-bid-trace"
field_name latest_bids = codes "block-builder-latest-bid"
field_name latest_bids_value = codes "block-builder-latest-bid-value"
field_name latest_bids_time = codes "block-builder-latest-bid-time"
field_name top_bid_value = codes "top-bid-value"
field_name floor_bid = codes "bid-floor"
field_name floor_bid_value = codes "bid-floor-value"
field_name validator_registration_data = codes "validator-registration-data"
field_name vouch_registry = codes "vouch-registry"
field_name relay_config = codes "relay-config"
field_name stats = codes "stats"
field_name proposer_duties = codes "proposer-duties"
field_name block_builder_status = codes "block-builder-status"
field_name last_slot_delivered = codes "last-slot-delivered"
field_name last_hash_delivered = codes "last-hash-delivered"

-- `fmt.Sprintf("%s/%s:…", redisPrefix, prefix)`
unfoldable pub redis_field : Bytes → Field → Bytes
unfolding field_name
redis_field prefix f = codes "boost-relay" ++ (b'/' ∷ (prefix ++ (b':' ∷ field_name f)))

-- `fmt.Sprintf("%s:%d_%s_%s", …, slot, a, b)`: the key functions of two texts.
unfoldable pub slot_key : Bytes → Field → ℕ → Bytes → Bytes → Bytes
unfolding redis_field
slot_key prefix f slot a b =
    redis_field prefix f ++ (b':' ∷ (format slot ++ (b'_' ∷ (a ++ (b'_' ∷ b)))))

-- `fmt.Sprintf("%s:%d_%s_%s/%s", …)`
unfoldable pub key_latest_bid_by_builder : Bytes → ℕ → Bytes → Bytes → Bytes → Bytes
unfolding slot_key
key_latest_bid_by_builder prefix slot parent_hash proposer_pubkey builder_pubkey =
    slot_key prefix latest_bids slot parent_hash (proposer_pubkey ++ (b'/' ∷ builder_pubkey))
