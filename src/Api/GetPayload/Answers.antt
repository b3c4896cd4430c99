-- ===== src/Api/GetPayload/Answers.antt =====
-- A payload is revealed only with a published block.
use mev_boost_relay.Prelude.{
  ℕ, ◌≡◌, refl, sym, ◌∙◌, inl, inr, Option, none, some, [], ◌∷◌, Bytes, true, Bool-cases,
}
use mev_boost_relay.Common.{BidTraceV2}
use mev_boost_relay.Api.GetPayload.Deferred.{saved_alike}
use mev_boost_relay.Payloads.{
  Made, made, refused, SignedProposal, signed_blinded_beacon_block_to_beacon_block,
}
use mev_boost_relay.Api.Equal.{Roots, Revealed, EqError}
use mev_boost_relay.Api.Submission.{RelayApi}
use mev_boost_relay.Api.Submit.{status, Stage, goes, ends}
use mev_boost_relay.Api.GetPayload.{
  Lookup, found, missing, failed, load_twice, deliver_response, save_delivered, refund_if_demoted,
  refund_demotion, write_refund, HandleGetPayloadVersion, v1, v2, Asked, World, Signed, Delivery,
  decode_signed, load_twice, deliver_response, save_delivered, refund_if_demoted, refund_demotion,
  write_refund, is_too_late, is_accepted, publish_and_answer, unblind_and_publish,
  compare_and_publish, deliver_in_time, deliver_once, deliver_loaded, deliver_signed,
  inner_handle_get_payload,
}

module _ {R : Roots} {A : Type 0} (api : RelayApi) (cutoff_ms : ℕ) (world : World R A)
    (q : Asked) where
  -- What a revealed payload says of the published block.
  abbrev pub IsPublished : Delivery R → Type 0
  IsPublished d =
      (q.version ≡ v1)
      × (d.answers ≡ status 200 ∷ [])
      × ((block : SignedProposal R) × (d.published ≡ some block)
          × (is_accepted api cutoff_ms world q (world.publish block) ≡ true))

  publish-IsPublished :
      (v : HandleGetPayloadVersion) (x r : Revealed R) (block : SignedProposal R)
      → q.version ≡ v
      → (publish_and_answer api cutoff_ms world q v x block).revealed ≡ some r
      → IsPublished (publish_and_answer api cutoff_ms world q v x block)
  unfolding publish_and_answer
  publish-IsPublished v1 x r block v =
      elim (Bool-cases (is_accepted api cutoff_ms world q (world.publish block))) [
        | inl accepted ↦ rw accepted (λ h. (v, refl, (block, refl, accepted)))
        | inr refusal ↦ rw refusal (λ h. absurd cc)
      ]
  publish-IsPublished v2 x r block v = λ h. absurd cc

  unblind-IsPublished :
      (x r : Revealed R) (m : Made (SignedProposal R))
      → (unblind_and_publish api cutoff_ms world q x m).revealed ≡ some r
      → IsPublished (unblind_and_publish api cutoff_ms world q x m)
  unfolding unblind_and_publish
  unblind-IsPublished x r (refused e) h = absurd cc
  unblind-IsPublished x r (made block) h = publish-IsPublished q.version x r block refl h

  compare-IsPublished :
      (s : Signed A) (x r : Revealed R) (e : Option EqError)
      → (compare_and_publish api cutoff_ms world q s x e).revealed ≡ some r
      → IsPublished (compare_and_publish api cutoff_ms world q s x e)
  unfolding compare_and_publish
  compare-IsPublished s x r (some e) h = absurd cc
  compare-IsPublished s x r none h = unblind-IsPublished x r _ h

  unblind_converts :
      (x r : Revealed R) (m : Made (SignedProposal R))
      → (unblind_and_publish api cutoff_ms world q x m).revealed ≡ some r
      → (block : SignedProposal R) × (m ≡ made block)
  unfolding unblind_and_publish
  unblind_converts x r (refused e) h = absurd cc
  unblind_converts x r (made block) h = (block, refl)

  compare_converts :
      (s : Signed A) (x r : Revealed R) (e : Option EqError)
      → (compare_and_publish api cutoff_ms world q s x e).revealed ≡ some r
      → (block : SignedProposal R) × (signed_blinded_beacon_block_to_beacon_block R
            (world.block_of s.payload)
            x
          ≡ made block)
  unfolding compare_and_publish
  compare_converts s x r (some e) h = absurd cc
  compare_converts s x r none h = unblind_converts x r _ h

  once-IsPublished :
      (s : Signed A) (x r : Revealed R) (refusal : Option Bytes)
      → (deliver_once api cutoff_ms world q s x refusal).revealed ≡ some r
      → IsPublished (deliver_once api cutoff_ms world q s x refusal)
  unfolding deliver_once deliver_in_time
  once-IsPublished s x r (some e) = λ h. absurd cc
  once-IsPublished s x r none =
      elim (Bool-cases (is_too_late api cutoff_ms world q s.ms_into_slot)) [
        | inl late ↦ rw late (λ h. absurd cc)
        | inr early ↦ rw early (compare-IsPublished s x r _)
      ]

  once_converts :
      (s : Signed A) (x r : Revealed R) (refusal : Option Bytes)
      → (deliver_once api cutoff_ms world q s x refusal).revealed ≡ some r
      → (block : SignedProposal R) × (signed_blinded_beacon_block_to_beacon_block R
            (world.block_of s.payload)
            x
          ≡ made block)
  unfolding deliver_once deliver_in_time
  once_converts s x r (some e) = λ h. absurd cc
  once_converts s x r none = elim (Bool-cases (is_too_late api cutoff_ms world q s.ms_into_slot)) [
    | inl late ↦ rw late (λ h. absurd cc)
    | inr early ↦ rw early (compare_converts s x r _)
  ]

  -- The deferred function answers nothing more when the payload can be converted.
  refund_silent :
      (s : Signed A) (trace : BidTraceV2) (demotion : Lookup (Unit {0})) (x : Revealed R)
      (block : SignedProposal R) (d : Delivery R)
      → signed_blinded_beacon_block_to_beacon_block R (world.block_of s.payload) x ≡ made block
      → (refund_if_demoted api cutoff_ms world q s trace demotion (found x) d).answers ≡ d.answers
  unfolding refund_if_demoted refund_demotion write_refund
  refund_silent s trace missing x block d h = refl
  refund_silent s trace (failed e) x block d h = refl
  refund_silent s trace (found u) x block d h = rw h refl

  saved_silent :
      (s : Signed A) (trace : Made BidTraceV2) (x : Revealed R) (block : SignedProposal R)
      (d : Delivery R)
      → signed_blinded_beacon_block_to_beacon_block R (world.block_of s.payload) x ≡ made block
      → (save_delivered api cutoff_ms world q s trace (found x) d).answers ≡ d.answers
  unfolding save_delivered
  saved_silent s (refused e) x block d h = refl
  saved_silent s (made trace) x block d h =
      refund_silent s trace (world.get_builder_demotion trace) x block _ h

  response-IsPublished :
      (s : Signed A) (x : Lookup (Revealed R)) (r : Revealed R)
      → (deliver_response api cutoff_ms world q s x).revealed ≡ some r
      → IsPublished (deliver_response api cutoff_ms world q s x)
  unfolding deliver_response deliver_loaded
  response-IsPublished s missing r h =
      let same =
        saved_alike api cutoff_ms world q s
          (world.get_bid_trace s.slot s.proposer_pubkey s.block_hash) missing _ in
      let nothing : none ≡ some r = sym same.1 ∙ h in absurd cc
  response-IsPublished s (failed e) r h =
      let same =
        saved_alike api cutoff_ms world q s
          (world.get_bid_trace s.slot s.proposer_pubkey s.block_hash) (failed e) _ in
      let nothing : none ≡ some r = sym same.1 ∙ h in absurd cc
  response-IsPublished s (found x) r h =
      let trace = world.get_bid_trace s.slot s.proposer_pubkey s.block_hash in
      let same = saved_alike api cutoff_ms world q s trace (found x) _ in
      let reveals = sym same.1 ∙ h in
      let (v, answers, (block, publishes, accepted)) = once-IsPublished s x r _ reveals in
      let (converted, converts) = once_converts s x r _ reveals in
      (
        v,
        saved_silent s trace x converted _ converts ∙ answers,
        (block, same.0 ∙ publishes, accepted),
      )

  signed-IsPublished :
      (x : Stage (Signed A)) (r : Revealed R)
      → (deliver_signed api cutoff_ms world q x).revealed ≡ some r
      → IsPublished (deliver_signed api cutoff_ms world q x)
  unfolding deliver_signed
  signed-IsPublished (ends a) r h = absurd cc
  signed-IsPublished (goes s) r h = response-IsPublished s (load_twice api cutoff_ms world q s) r h

  -- A payload is revealed only to a request of version 1, with the answer 200, and only after a beacon
  -- node has taken the published block, with 200 or 202.
  pub revealed-IsPublished :
      (r : Revealed R)
      → (inner_handle_get_payload api cutoff_ms world q).revealed ≡ some r
      → IsPublished (inner_handle_get_payload api cutoff_ms world q)
  unfolding inner_handle_get_payload
  revealed-IsPublished r h = signed-IsPublished (decode_signed api cutoff_ms world q) r h
