-- ===== src/Api/GetHeader.antt =====
-- services/api/service.go: `handleGetHeader`, which offers the best bid to the proposer, with
-- `computeGetHeaderDelay` of services/api/utils.go and `GetBestBid` of datastore/redis.go. Times are
-- int64 in two's complement, as numbers below 2^64. Headers are decoded by libraries: parameters.
pub mod Delay
pub mod Offers
use mev_boost_relay.Prelude.{
  ℕ, ◌+◌, ◌*◌, ◌-◌, ◌/◌, ◌%◌, ◌^◌, ◌==◌, Option, none, some, List, [], ◌∷◌, Bytes, codes, Bool,
  true, false, not, ◌&&◌, ◌||◌, leb, ltb, length, if◌then◌else◌, bytes_eq, contains,
}
use mev_boost_relay.Decimal.{parse}
use mev_boost_relay.Datastore.Keys.{get_header_response, slot_key}
use mev_boost_relay.Datastore.Server.{Error, Reply, get, decoding_failed}
use mev_boost_relay.Datastore.Pipeline.{
  M, ◌>>=◌, pure, send, first_error, last_reply, text_result, present, or_throw,
}
use mev_boost_relay.Payloads.{Made, made, refused}
use mev_boost_relay.Api.Floor.{Caught, got, error, attempt, in_uint64}
use mev_boost_relay.Api.Submission.{RelayApi, expected_timestamp}
use mev_boost_relay.Api.Submit.{
  Answer, responds, status, panicked, Stage, goes, ends, and_then, is_empty,
}

-- The arithmetic and the order of int64.
abbrev pub add64 : ℕ → ℕ → ℕ
add64 a b = (a + b) % 2 ^ 64

abbrev pub sub64 : ℕ → ℕ → ℕ
sub64 a b = (a + 2 ^ 64 - b) % 2 ^ 64

abbrev pub lt64 : ℕ → ℕ → Bool
lt64 a b = ltb ((a + 2 ^ 63) % 2 ^ 64) ((b + 2 ^ 63) % 2 ^ 64)

abbrev pub le64 : ℕ → ℕ → Bool
le64 a b = not (lt64 b a)

-- `CurrentSlot`: a time before genesis is in slot 0.
unfoldable pub current_slot : ℕ → ℕ → ℕ
current_slot genesis_time timestamp_ms =
    let genesis_ms = (genesis_time * 1000) % 2 ^ 64 in
    if lt64 timestamp_ms genesis_ms then 0 else sub64 timestamp_ms genesis_ms / 12000

-- The two headers, if they are there and numbers.
unfoldable pub parse_client_deadline_ms : Option ℕ → Option ℕ → Option ℕ
parse_client_deadline_ms none timeout = none
parse_client_deadline_ms (some date) none = none
parse_client_deadline_ms (some date) (some timeout) = some (add64 date timeout)

unfoldable pub ua_matches_any : Bytes → List Bytes → Bool
ua_matches_any ua [] = false
ua_matches_any ua (s ∷ ss) = not (is_empty s) && contains s ua || ua_matches_any ua ss

unfoldable pub cap_of : ℕ → Option ℕ → ℕ
cap_of cap none = cap
cap_of cap (some deadline) = if lt64 deadline cap then deadline else cap

-- In milliseconds; that they are multiplied to nanoseconds is left out.
unfoldable pub compute_get_header_delay :
    Bytes → ℕ → ℕ → Option ℕ → Option ℕ → ℕ → ℕ → List Bytes → ℕ
unfolding parse_client_deadline_ms ua_matches_any cap_of
compute_get_header_delay ua slot_start_ms now_ms date timeout target_ms safety_ms
      delay_user_agents =
    let until =
      sub64 (cap_of (add64 slot_start_ms target_ms) (parse_client_deadline_ms date timeout))
        safety_ms in
    if le64 target_ms 0 || not (ua_matches_any ua delay_user_agents)
    then 0
    else if le64 until now_ms
    then 0
    else sub64 until now_ms

-- The settings that the handler reads.
pub record Settings : Type 0 where
  pub api : RelayApi
  pub head_slot : ℕ
  pub api_no_header_user_agents : List Bytes
  pub ff_force_get_header_204 : Bool
  pub get_header_request_cutoff_ms : ℕ
  pub get_header_response_delay_target_ms : ℕ
  pub get_header_response_delay_safety_ms : ℕ
  pub get_header_delay_user_agents : List Bytes

-- A request; `media_type` is what is negotiated, `gives_up` whether the client leaves while it waits.
pub record HeaderRequest : Type 0 where
  pub media_type : Made Bytes
  pub slot : Bytes
  pub parent_hash : Bytes
  pub pubkey : Bytes
  pub user_agent : Bytes
  pub request_time : ℕ
  pub now : ℕ
  pub date_milliseconds : Option ℕ
  pub timeout_ms : Option ℕ
  pub gives_up : Bool

-- What is stored as a bid, and its getters, which give an error, if any, and a value, which may be nil.
pub record BidFormat : Type 1 where
  pub Bid : Type 0
  pub unmarshal_bid : Bytes → Option Bid
  pub is_empty_bid : Bid → Bool
  pub value : Bid → Option Bytes × Option ℕ
  pub block_hash_err : Bid → Option Bytes
  pub error_text : Error → Bytes

-- The answers, in their order, and the bid in the last one's body.
pub record Served (Bid : Type 0) : Type 0 where
  pub answers : List Answer
  pub offered : Option Bid

pub record Wanted : Type 0 where
  pub slot : ℕ
  pub delay_ms : ℕ

abbrev pub member_of : Bytes → List Bytes → Bool
member_of a [] = false
member_of a (b ∷ bs) = bytes_eq a b || member_of a bs

module _ (cfg : Settings) (q : HeaderRequest) where
  abbrev pub slot_start_ms : ℕ → ℕ
  slot_start_ms slot = (expected_timestamp cfg.api slot * 1000) % 2 ^ 64

  abbrev pub parsed_slot : Option ℕ → Stage ℕ
  parsed_slot none = ends (responds 400 (codes "invalid slot"))
  parsed_slot (some n) = goes n

  abbrev pub negotiated : Made Bytes → Stage Bytes
  negotiated (made m) = goes m
  negotiated (refused e) = ends (responds 406 e)

  unfoldable pub is_late_header : ℕ → Bool
  is_late_header slot =
      let ms = sub64 q.request_time (slot_start_ms slot) in
      lt64 0 cfg.get_header_request_cutoff_ms
      && lt64 0 ms
      && lt64 cfg.get_header_request_cutoff_ms ms

  -- The checks of the request, in their order.
  unfoldable pub check_get_header : ℕ → Stage Wanted
  unfolding is_late_header
  check_get_header slot =
      if not (length q.pubkey == 98)
      then ends (responds 400 (codes "invalid pubkey"))
      else if not (length q.parent_hash == 66)
      then ends (responds 400 (codes "invalid hash"))
      else if ltb slot cfg.head_slot
      then ends (responds 400 (codes "slot is too old"))
      else if member_of q.user_agent cfg.api_no_header_user_agents
      then ends (status 204)
      else if cfg.ff_force_get_header_204
      then ends (status 204)
      else if is_late_header slot
      then ends (status 204)
      else goes (record {
        slot = slot;
        delay_ms =
            compute_get_header_delay q.user_agent (slot_start_ms slot) q.now q.date_milliseconds
              q.timeout_ms cfg.get_header_response_delay_target_ms
              cfg.get_header_response_delay_safety_ms cfg.get_header_delay_user_agents;
      })

  unfoldable pub admit_get_header : Stage Wanted
  unfolding check_get_header
  admit_get_header =
      and_then (negotiated q.media_type)
        (λ media. and_then (parsed_slot (in_uint64 (parse q.slot))) check_get_header)

module _ (prefix : Bytes) (f : BidFormat) where
  best_bid_result : Option Reply → M (Option f.Bid)
  best_bid_result none = pure none
  best_bid_result (some r) = do
    s ← text_result r
    bid ← or_throw decoding_failed (f.unmarshal_bid s)
    pure (some bid)

  unfoldable pub get_best_bid : ℕ → Bytes → Bytes → M (Option f.Bid)
  unfolding best_bid_result
  get_best_bid slot parent proposer = do
    rs ← send (get (slot_key prefix get_header_response slot parent proposer))
    r ← present (first_error rs) (last_reply rs)
    best_bid_result r

  abbrev pub say : List Answer → Served f.Bid
  say answers = record { answers = answers; offered = none }

  abbrev pub said : Option Bytes → List Answer → List Answer
  said none rest = rest
  said (some e) rest = responds 400 e ∷ rest

  -- An error of the getters is answered, and the handler goes on; a nil value then panics.
  unfoldable pub offer_value : f.Bid → Option ℕ → Served f.Bid
  offer_value bid none = say (panicked ∷ [])
  offer_value bid (some v) =
      if v == 0
      then say (status 204 ∷ [])
      else record { answers = status 200 ∷ []; offered = some bid }

  unfoldable pub offer_bid : f.Bid → Served f.Bid
  unfolding offer_value
  offer_bid bid =
      let last = offer_value bid (f.value bid).1 in
      record last { answers = said (f.value bid).0 (said (f.block_hash_err bid) last.answers) }

  unfoldable pub offer_found : Caught (Option f.Bid) → Served f.Bid
  unfolding offer_bid
  offer_found (error e) = say (responds 400 (f.error_text e) ∷ [])
  offer_found (got none) = say (status 204 ∷ [])
  offer_found (got (some bid)) = if f.is_empty_bid bid then say (status 204 ∷ []) else offer_bid bid

  -- A client that leaves while its answer is delayed gets none.
  unfoldable pub offer_wanted : HeaderRequest → Stage Wanted → M (Served f.Bid)
  unfolding offer_found
  offer_wanted q (ends a) = pure (say (a ∷ []))
  offer_wanted q (goes w) =
      if ltb 0 w.delay_ms && q.gives_up
      then pure (say [])
      else (do bid ← attempt (get_best_bid w.slot q.parent_hash q.pubkey); pure (offer_found bid))

  unfoldable pub handle_get_header : Settings → HeaderRequest → M (Served f.Bid)
  unfolding offer_wanted
  handle_get_header cfg q = offer_wanted q (admit_get_header cfg q)
