-- ===== src/Datastore/Latest.antt =====
-- datastore/redis.go: when the latest bid of a builder was received.
use mev_boost_relay.Prelude.{ℕ, ◌^◌, Option, none, some, Bytes, ltb, if◌then◌else◌}
use mev_boost_relay.Decimal.{parse}
use mev_boost_relay.Datastore.Keys.{latest_bids_time, slot_key}
use mev_boost_relay.Datastore.Server.{Reply, bad_number, hget}
use mev_boost_relay.Datastore.Pipeline.{
  M, ◌>>=◌, ◌>>◌, pure, enqueue, exec, first_error, last_reply, text_result, present, or_throw,
}

-- A time that is not negative, as an int64.
abbrev pub in_int64 : Option ℕ → Option ℕ
in_int64 none = none
in_int64 (some n) = if ltb n (2 ^ 63) then some n else none

time_result : Option Reply → M ℕ
time_result none = pure 0
time_result (some r) = do s ← text_result r; or_throw bad_number (in_int64 (parse s))

-- 0 when the builder has no bid.
unfoldable pub get_builder_latest_payload_received_at : Bytes → ℕ → Bytes → Bytes → Bytes → M ℕ
unfolding time_result
get_builder_latest_payload_received_at prefix slot builder parent proposer = do
  enqueue (hget (slot_key prefix latest_bids_time slot parent proposer) builder)
  rs ← exec
  found ← present (first_error rs) (last_reply rs)
  time_result found
