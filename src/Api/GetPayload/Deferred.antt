-- ===== src/Api/GetPayload/Deferred.antt =====
-- What the deferred function of a getPayload request leaves alone.
use mev_boost_relay.Prelude.{ℕ, ◌≡◌, refl}
use mev_boost_relay.Common.{BidTraceV2}
use mev_boost_relay.Payloads.{Made, made, refused, SignedProposal}
use mev_boost_relay.Api.Equal.{Roots, Revealed}
use mev_boost_relay.Api.Submission.{RelayApi}
use mev_boost_relay.Api.GetPayload.{
  Lookup, found, missing, failed, Delivery, save_delivered, refund_if_demoted, refund_demotion,
  write_refund, Asked, World, Signed, Delivery, save_delivered, refund_if_demoted, refund_demotion,
  write_refund,
}

module _ {R : Roots} {A : Type 0} (api : RelayApi) (cutoff_ms : ℕ) (world : World R A)
    (q : Asked) where
  refunded_alike :
      (s : Signed A) (trace : BidTraceV2) (x : Made (SignedProposal R)) (d : Delivery R)
      → ((write_refund api cutoff_ms world q s trace x d).published ≡ d.published)
        × ((write_refund api cutoff_ms world q s trace x d).revealed ≡ d.revealed)
        × ((write_refund api cutoff_ms world q s trace x d).marked ≡ d.marked)
  unfolding write_refund
  refunded_alike s trace (refused e) d = (refl, refl, refl)
  refunded_alike s trace (made block) d = (refl, refl, refl)

  demoted_alike :
      (s : Signed A) (trace : BidTraceV2) (demotion : Lookup (Unit {0})) (x : Lookup (Revealed R))
      (d : Delivery R)
      → ((refund_if_demoted api cutoff_ms world q s trace demotion x d).published ≡ d.published)
        × ((refund_if_demoted api cutoff_ms world q s trace demotion x d).revealed ≡ d.revealed)
        × ((refund_if_demoted api cutoff_ms world q s trace demotion x d).marked ≡ d.marked)
  unfolding refund_if_demoted refund_demotion
  demoted_alike s trace missing x d = (refl, refl, refl)
  demoted_alike s trace (failed e) x d = (refl, refl, refl)
  demoted_alike s trace (found u) missing d = (refl, refl, refl)
  demoted_alike s trace (found u) (failed e) d = (refl, refl, refl)
  demoted_alike s trace (found u) (found r) d = refunded_alike s trace _ d

  pub saved_alike :
      (s : Signed A) (trace : Made BidTraceV2) (x : Lookup (Revealed R)) (d : Delivery R)
      → ((save_delivered api cutoff_ms world q s trace x d).published ≡ d.published)
        × ((save_delivered api cutoff_ms world q s trace x d).revealed ≡ d.revealed)
        × ((save_delivered api cutoff_ms world q s trace x d).marked ≡ d.marked)
  unfolding save_delivered
  saved_alike s (refused e) x d = (refl, refl, refl)
  saved_alike s (made trace) x d = demoted_alike s trace (world.get_builder_demotion trace) x _
