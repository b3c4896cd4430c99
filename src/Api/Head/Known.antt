-- ===== src/Api/Head/Known.antt =====
-- A submission for reported payload attributes finds them.
use mev_boost_relay.Prelude.{
  ◌<◌, ◌≡◌, refl, sym, ap, ◌∙◌, Option, none, some, List, Bytes, true, false, leb, ==_refl,
  bytes_eq_refl, Bool-cases, inl, inr, arith,
}
use mev_boost_relay.Payloads.Info.{BlockSubmissionInfo}
use mev_boost_relay.Api.Forks.{has_reached_fork}
use mev_boost_relay.Api.Submission.{
  RelayApi, PayloadAttributes, passed, get_payload_attributes_key, compute_withdrawals_root,
  check_withdrawals, check_attributes, check_submission_payload_attrs,
}
use mev_boost_relay.Api.Submit.{Relay}
use mev_boost_relay.Api.Head.{
  PayloadAttributesEvent, event_key, withdrawals_root, parent_beacon_root, save_attributes,
  save_if_complete, save_if_new, process_payload_attributes,
}

module _ {Withdrawal : Type 0} (withdrawals_root_of : List Withdrawal → Option Bytes)
    (hex_to_hash : Bytes → Option Bytes) where
  abbrev attributes_of :
      PayloadAttributesEvent Withdrawal → Bytes → Option Bytes → PayloadAttributes
  attributes_of e root b = record {
    slot = e.proposal_slot;
    prev_randao = e.prev_randao;
    withdrawals_root = root;
    parent_beacon_root = b;
  }

  saved :
      (e : PayloadAttributesEvent Withdrawal) (r : Relay) (root : Bytes) (b : Option Bytes)
      → r.head_slot < e.proposal_slot
      → r.api.payload_attributes (event_key withdrawals_root_of hex_to_hash e) ≡ none
      → withdrawals_root withdrawals_root_of hex_to_hash r.api e ≡ some root
      → parent_beacon_root withdrawals_root_of hex_to_hash r.api e ≡ some b
      → process_payload_attributes withdrawals_root_of hex_to_hash e r
        ≡ save_attributes withdrawals_root_of hex_to_hash e r root b
  unfolding process_payload_attributes save_if_new save_if_complete
  saved e r root b future unknown w p =
      let new : leb e.proposal_slot r.head_slot ≡ false = ground arith in
      rw (new, unknown, w, p) refl

  computed_root :
      (api : RelayApi) (e : PayloadAttributesEvent Withdrawal)
      → has_reached_fork e.proposal_slot api.forks.capella_epoch ≡ true
      → withdrawals_root withdrawals_root_of hex_to_hash api e
        ≡ compute_withdrawals_root withdrawals_root_of e.withdrawals
  unfolding withdrawals_root
  computed_root api e h = rw h refl

  check_passes :
      (api : RelayApi) (e : PayloadAttributesEvent Withdrawal) (s : BlockSubmissionInfo Withdrawal)
      (root : Bytes) (b : Option Bytes)
      → s.bid_trace.slot ≡ e.proposal_slot
      → s.prev_randao ≡ e.prev_randao
      → s.withdrawals ≡ e.withdrawals
      → withdrawals_root withdrawals_root_of hex_to_hash api e ≡ some root
      → check_attributes withdrawals_root_of api s (some (attributes_of e root b))
        ≡ passed (attributes_of e root b)
  unfolding check_attributes check_withdrawals
  check_passes api e s root b slot randao ws w =
      rw (slot, randao, ws, ==_refl e.proposal_slot, bytes_eq_refl e.prev_randao)
        (elim (Bool-cases (has_reached_fork e.proposal_slot api.forks.capella_epoch)) [
          | inl reached ↦
              rw (reached, sym (computed_root api e reached) ∙ w, bytes_eq_refl root) refl
          | inr before ↦ rw before refl
        ])

  found_attributes :
      (e : PayloadAttributesEvent Withdrawal) (r : Relay) (s : BlockSubmissionInfo Withdrawal)
      (root : Bytes) (b : Option Bytes)
      → s.bid_trace.slot ≡ e.proposal_slot
      → s.bid_trace.parent_hash ≡ e.parent_block_hash
      → (save_attributes withdrawals_root_of hex_to_hash e r root b).api.payload_attributes
          (get_payload_attributes_key s.bid_trace.parent_hash s.bid_trace.slot)
        ≡ some (attributes_of e root b)
  unfolding save_attributes
  found_attributes e r s root b slot parent =
      rw
        (
          slot,
          parent,
          bytes_eq_refl (get_payload_attributes_key e.parent_block_hash e.proposal_slot),
        )
        refl

  -- An event for a slot after the head, not known before, whose roots can be computed, makes the check of
  -- the payload attributes pass for every submission for its slot and parent that has its randao value
  -- and its withdrawals.
  pub attributes-pass :
      (e : PayloadAttributesEvent Withdrawal) (r : Relay) (s : BlockSubmissionInfo Withdrawal)
      (root : Bytes) (b : Option Bytes)
      → r.head_slot < e.proposal_slot
      → r.api.payload_attributes (get_payload_attributes_key e.parent_block_hash e.proposal_slot)
        ≡ none
      → withdrawals_root withdrawals_root_of hex_to_hash r.api e ≡ some root
      → parent_beacon_root withdrawals_root_of hex_to_hash r.api e ≡ some b
      → s.bid_trace.slot ≡ e.proposal_slot
      → s.bid_trace.parent_hash ≡ e.parent_block_hash
      → s.prev_randao ≡ e.prev_randao
      → s.withdrawals ≡ e.withdrawals
      → check_submission_payload_attrs withdrawals_root_of
          (process_payload_attributes withdrawals_root_of hex_to_hash e r).api
          s
        ≡ passed (record {
          slot = e.proposal_slot;
          prev_randao = e.prev_randao;
          withdrawals_root = root;
          parent_beacon_root = b;
        })
  unfolding check_submission_payload_attrs save_attributes withdrawals_root
  attributes-pass e r s root b future unknown w p slot parent randao ws =
      let api = (save_attributes withdrawals_root_of hex_to_hash e r root b).api in
      rw (saved e r root b future unknown w p) (
        ap (λ x. check_attributes withdrawals_root_of api s x)
          (found_attributes e r s root b slot parent)
        ∙ check_passes api e s root b slot randao ws w)
