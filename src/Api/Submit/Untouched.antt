-- ===== src/Api/Submit/Untouched.antt =====
-- A request that is turned down leaves the auction as it is.
use mev_boost_relay.Prelude.{
  ℕ, ◌≡◌, refl, sym, subst, ◌∙◌, ◌≢◌, inl, inr, Option, none, some, List, [], Bytes, Bool, false,
  Bool-cases,
}
use mev_boost_relay.Decimal.{parse}
use mev_boost_relay.Common.{BidTrace}
use mev_boost_relay.Datastore.Server.{
  Server, Cmd, Prog, ok, err, call, bad_number, run, run-run_keyspace, effects, effect,
}
use mev_boost_relay.Datastore.Pipeline.{last_reply, first_error}
use mev_boost_relay.Datastore.Auction.{Codec}
use mev_boost_relay.Datastore.Reading.{
  Reads, Reads-run, Reads-and_then, Reads-throw_if, Reads-text_result, Reads-or_throw,
  Reads-get_top_bid_value, Reads-get_floor_bid_value,
}
use mev_boost_relay.Api.Equal.{Roots}
use mev_boost_relay.Api.Floor.{
  FloorCheck, goes_on, answered, recover, get_last_slot_delivered, already_delivered,
  is_at_or_below, floor_known, check_floor, check_floor_bid_value, in_uint64,
}
use mev_boost_relay.Api.Optimistic.{Simulated, simulate_block}
use mev_boost_relay.Api.Submit.{
  Answer, Stage, goes, ends, Relay, Library, Posted, Decoded, Prepared, check_submission,
  decode_submission,
}
use mev_boost_relay.Api.Submit.Bid.{
  Stored, codec_of, sim_options, is_optimistic_block, failed_simulation, after_verdict,
  simulate_and_save, after_floor, after_checks, after_decoding, handle_submit_new_block,
}

Reads-recover : {A : Type 0} (p : Prog (A × List Cmd)) → Reads p → Reads (recover p)
unfolding recover Reads
Reads-recover (ok (a, q)) h = h
Reads-recover (err e) h = refl
Reads-recover (call cs k) h = (h.0, λ rs. Reads-recover (k rs) (h.1 rs))

Reads-get_last_slot_delivered : (prefix : Bytes) → Reads (get_last_slot_delivered prefix [])
unfolding get_last_slot_delivered Reads effects effect
Reads-get_last_slot_delivered prefix = (
  λ ks. refl,
  λ rs. Reads-and_then _ _ (Reads-throw_if (first_error rs)) (λ a.
      Reads-and_then _ _ (Reads-text_result (last_reply rs))
        (λ b. Reads-or_throw bad_number (in_uint64 (parse b)))),
)

module _ (prefix : Bytes) (c : Codec) (b : BidTrace) where
  Reads-check_floor : (floor : Option ℕ) → Reads (check_floor prefix c false b floor [])
  unfolding check_floor Reads
  Reads-check_floor floor = elim (Bool-cases (is_at_or_below floor b.value)) [
    | inl low ↦ rw low refl
    | inr high ↦ rw high refl
  ]

  Reads-check_floor_bid_value : Reads (check_floor_bid_value prefix c false b [])
  unfolding check_floor_bid_value Reads
  Reads-check_floor_bid_value =
      Reads-and_then _ _ (Reads-recover _ (Reads-get_last_slot_delivered prefix)) (λ last.
        elim (Bool-cases (already_delivered b.slot last)) [
          | inl past ↦ rw past refl
          | inr later ↦ rw later (
              Reads-and_then _ _
                (Reads-recover _
                  (Reads-get_floor_bid_value prefix c b.slot b.parent_hash b.proposer_pubkey))
                (λ floor. Reads-check_floor (floor_known floor)))
        ])

module _ {R : Roots} {A Withdrawal : Type 0} (prefix : Bytes) (st : Stored R) (relay : Relay)
    (lib : Library R A Withdrawal) (p : Posted) where
  -- The request does not decode, or the submission does not pass the checks, or its block is not an
  -- optimistic one and its simulation fails.
  abbrev pub IsTurnedDown : Type 0
  IsTurnedDown =
      (d : Decoded A) (c : Prepared Withdrawal)
      → decode_submission relay lib p ≡ goes d
      → check_submission relay lib d.payload ≡ goes c
      → (is_optimistic_block prefix st relay lib c.builder c.submission.bid_trace ≡ false)
        × ((is_top : Bool)
            → failed_simulation prefix st relay lib (
                simulate_block relay.ff_ignorable_validation_errors
                  (lib.send (sim_options prefix st relay lib d c is_top)))
              ≢ none)

  Reads-after_verdict :
      (d : Decoded A) (c : Prepared Withdrawal) (floor : Option ℕ) (s : Simulated)
      (failed : Option Answer)
      → failed ≢ none
      → Reads (after_verdict prefix st relay lib p d c floor s failed [])
  unfolding after_verdict Reads
  Reads-after_verdict d c floor s none h = absurd (h refl)
  Reads-after_verdict d c floor s (some a) h = refl

  Reads-after_checks :
      (d : Decoded A) (x : Stage (Prepared Withdrawal))
      → p.cancellations ≡ false
      → IsTurnedDown
      → decode_submission relay lib p ≡ goes d
      → check_submission relay lib d.payload ≡ x
      → Reads (after_checks prefix st relay lib p d x [])
  unfolding after_checks after_floor simulate_and_save Reads
  Reads-after_checks d (ends a) final down e k = refl
  Reads-after_checks d (goes c) final down e k =
      let b = c.submission.bid_trace in
      Reads-and_then _ _
        (subst (λ x. Reads (check_floor_bid_value prefix (codec_of st) x b [])) (sym final)
          (Reads-check_floor_bid_value prefix (codec_of st) b))
        (λ floor. after floor)
    where
      after : (floor : FloorCheck) → Reads (after_floor prefix st relay lib p d c floor [])
      after (answered code message) = refl
      after (goes_on floor) =
          let b = c.submission.bid_trace in
          Reads-and_then _ _
            (Reads-recover _
              (Reads-get_top_bid_value prefix (codec_of st) b.slot b.parent_hash b.proposer_pubkey))
            (λ top. rw (down d c e k).0 (Reads-after_verdict d c floor _ _ ((down d c e k).1 _)))

  Reads-after_decoding :
      (x : Stage (Decoded A))
      → p.cancellations ≡ false
      → IsTurnedDown
      → decode_submission relay lib p ≡ x
      → Reads (after_decoding prefix st relay lib p x [])
  unfolding after_decoding Reads
  Reads-after_decoding (ends a) final down e = refl
  Reads-after_decoding (goes d) final down e =
      Reads-after_checks d (check_submission relay lib d.payload) final down e refl

  -- On a server that answers, a request for a bid that cannot be cancelled changes nothing in Redis when
  -- it is turned down: it does not decode, or its submission fails a check, or its block, not an
  -- optimistic one, fails the simulation.
  pub turned_down-untouched :
      (s : Server) (db : s.Db)
      → s.IsUp db
      → p.cancellations ≡ false
      → IsTurnedDown
      → s.view (run s (handle_submit_new_block prefix st relay lib p []) db).1 ≡ s.view db
  unfolding handle_submit_new_block
  turned_down-untouched s db up final down =
      (run-run_keyspace s (handle_submit_new_block prefix st relay lib p []) db up).1
      ∙ Reads-run (handle_submit_new_block prefix st relay lib p []) (s.view db)
          (Reads-after_decoding (decode_submission relay lib p) final down refl)
