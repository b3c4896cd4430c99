-- ===== src/Api/GetPayload/Late.antt =====
-- What becomes of a getPayload request that comes after the cutoff.
use mev_boost_relay.Prelude.{
  ℕ, ◌^◌, ◌<◌, arith, ◌≡◌, refl, ◌∙◌, Bool, if◌then◌else◌, false, Option, none, some, Bytes, true,
}
use mev_boost_relay.Common.{BidTraceV2}
use mev_boost_relay.Api.GetPayload.Deferred.{saved_alike}
use mev_boost_relay.Payloads.{
  Made, made, refused, SignedProposal, signed_blinded_beacon_block_to_beacon_block,
}
use mev_boost_relay.Api.Equal.{Roots, Revealed}
use mev_boost_relay.Api.Submission.{RelayApi}
use mev_boost_relay.Api.Submit.{goes}
use mev_boost_relay.Api.GetPayload.{
  Lookup, found, missing, failed, load_twice, deliver_response, save_delivered, refund_if_demoted,
  refund_demotion, write_refund, Asked, World, Signed, Delivery, decode_signed, load_twice,
  deliver_response, save_delivered, refund_if_demoted, refund_demotion, write_refund, is_too_late,
  deliver_in_time, deliver_once, deliver_loaded, deliver_signed, inner_handle_get_payload,
}

module _ {R : Roots} {A : Type 0} (api : RelayApi) (cutoff_ms : ℕ) (world : World R A)
    (q : Asked) where
  -- Whether a payload was found in the stores.
  abbrev pub found_in : Lookup (Revealed R) → Bool
  found_in (found r) = true
  found_in missing = false
  found_in (failed e) = false

  late_once :
      (s : Signed A) (x : Revealed R) (refusal : Option Bytes)
      → is_too_late api cutoff_ms world q s.ms_into_slot ≡ true
      → ((deliver_once api cutoff_ms world q s x refusal).published ≡ none)
        × ((deliver_once api cutoff_ms world q s x refusal).revealed ≡ none)
  unfolding deliver_once deliver_in_time
  late_once s x (some e) late = (refl, refl)
  late_once s x none late = rw late (refl, refl)

  -- The slot and the hash of a request whose payload was found.
  abbrev pub mark_of : Signed A → Lookup (Revealed R) → Option (ℕ × Bytes)
  mark_of s x = if found_in x then some (s.slot, s.block_hash) else none

  late_response :
      (s : Signed A) (x : Lookup (Revealed R))
      → is_too_late api cutoff_ms world q s.ms_into_slot ≡ true
      → ((deliver_response api cutoff_ms world q s x).published ≡ none)
        × ((deliver_response api cutoff_ms world q s x).revealed ≡ none)
        × ((deliver_response api cutoff_ms world q s x).marked ≡ mark_of s x)
  unfolding deliver_response deliver_loaded
  late_response s missing late =
      saved_alike api cutoff_ms world q s
        (world.get_bid_trace s.slot s.proposer_pubkey s.block_hash) missing _
  late_response s (failed e) late =
      saved_alike api cutoff_ms world q s
        (world.get_bid_trace s.slot s.proposer_pubkey s.block_hash) (failed e) _
  late_response s (found x) late =
      let same =
        saved_alike api cutoff_ms world q s
          (world.get_bid_trace s.slot s.proposer_pubkey s.block_hash) (found x) _ in
      let nothing = late_once s x _ late in (same.0 ∙ nothing.0, same.1 ∙ nothing.1, same.2)

  -- The trace that the deferred function has read.
  abbrev pub trace_of : Made BidTraceV2 → Option BidTraceV2
  trace_of (made trace) = some trace
  trace_of (refused e) = none

  refunded_payload :
      (s : Signed A) (trace : BidTraceV2) (x : Made (SignedProposal R)) (d : Delivery R)
      → (write_refund api cutoff_ms world q s trace x d).delivered_payload ≡ d.delivered_payload
  unfolding write_refund
  refunded_payload s trace (refused e) d = refl
  refunded_payload s trace (made block) d = refl

  demoted_payload :
      (s : Signed A) (trace : BidTraceV2) (demotion : Lookup (Unit {0})) (x : Lookup (Revealed R))
      (d : Delivery R)
      → (refund_if_demoted api cutoff_ms world q s trace demotion x d).delivered_payload
        ≡ d.delivered_payload
  unfolding refund_if_demoted refund_demotion
  demoted_payload s trace missing x d = refl
  demoted_payload s trace (failed e) x d = refl
  demoted_payload s trace (found u) missing d = refl
  demoted_payload s trace (found u) (failed e) d = refl
  demoted_payload s trace (found u) (found r) d =
      refunded_payload s trace
        (signed_blinded_beacon_block_to_beacon_block R (world.block_of s.payload) r) d

  saved_payload :
      (s : Signed A) (trace : Made BidTraceV2) (x : Lookup (Revealed R)) (d : Delivery R)
      → d.delivered_payload ≡ none
      → (save_delivered api cutoff_ms world q s trace x d).delivered_payload ≡ trace_of trace
  unfolding save_delivered
  saved_payload s (refused e) x d h = h
  saved_payload s (made trace) x d h =
      demoted_payload s trace (world.get_builder_demotion trace) x _

  late_unsaved :
      (s : Signed A) (x : Revealed R) (refusal : Option Bytes)
      → is_too_late api cutoff_ms world q s.ms_into_slot ≡ true
      → (deliver_once api cutoff_ms world q s x refusal).delivered_payload ≡ none
  unfolding deliver_once deliver_in_time
  late_unsaved s x (some e) late = refl
  late_unsaved s x none late = rw late refl

  late_saved :
      (s : Signed A) (x : Lookup (Revealed R))
      → is_too_late api cutoff_ms world q s.ms_into_slot ≡ true
      → (deliver_response api cutoff_ms world q s x).delivered_payload
        ≡ trace_of (world.get_bid_trace s.slot s.proposer_pubkey s.block_hash)
  unfolding deliver_response deliver_loaded
  late_saved s missing late = saved_payload s _ missing _ refl
  late_saved s (failed e) late = saved_payload s _ (failed e) _ refl
  late_saved s (found x) late = saved_payload s _ (found x) _ (late_unsaved s x _ late)

  is_too_late_after :
      (ms : ℕ)
      → 0 < cutoff_ms
      → cutoff_ms < ms
      → ms < 2 ^ 63
      → is_too_late api cutoff_ms world q ms ≡ true
  unfolding is_too_late
  is_too_late_after ms h k l = ground arith

  -- A request with a valid signature that comes after the cutoff, if there is one, publishes no block and
  -- reveals no payload, whatever the stores and Redis answer. But when the stores have its payload, Redis
  -- is asked to mark its slot and its block hash as delivered; and the database is asked to save a
  -- delivered payload with the trace of its bid exactly when Redis gives that trace.
  pub too_late-marked :
      (s : Signed A)
      → decode_signed api cutoff_ms world q ≡ goes s
      → 0 < cutoff_ms
      → cutoff_ms < s.ms_into_slot
      → s.ms_into_slot < 2 ^ 63
      → let d = inner_handle_get_payload api cutoff_ms world q in
        (d.published ≡ none)
        × (d.revealed ≡ none)
        × (d.marked ≡ mark_of s (load_twice api cutoff_ms world q s))
        × (d.delivered_payload
            ≡ trace_of (world.get_bid_trace s.slot s.proposer_pubkey s.block_hash))
  unfolding inner_handle_get_payload deliver_signed
  too_late-marked s decodes h k l =
      let late = is_too_late_after s.ms_into_slot h k l in
      let response = load_twice api cutoff_ms world q s in
      let (published, revealed, marked) = late_response s response late in
      rw decodes (published, revealed, marked, late_saved s response late)
