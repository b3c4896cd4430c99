-- ===== src/Api/Submit/Wins.antt =====
-- A submission that passes every check, above the floor and the top bid, becomes the bid that
-- getHeader offers.
use mev_boost_relay.Prelude.{
  ℕ, ◌^◌, ◌<◌, ◌≡◌, refl, ap, ◌∙◌, ◌⊎◌, inl, inr, Option, none, some, [], Bytes, Bool, true, false,
  Bool-cases, arith,
}
use mev_boost_relay.Decimal.{parse}
use mev_boost_relay.Common.{BidTrace}
use mev_boost_relay.Datastore.Keys.{Field, top_bid_value, slot_key}
use mev_boost_relay.Datastore.Server.{
  Server, Keyspace, bad_number, run, run_keyspace, returns, on_server, replies, effects, reply,
  effect,
}
use mev_boost_relay.Datastore.Auction.{Codec, get_top_bid_value, save_bid_and_update_top_bid}
use mev_boost_relay.Datastore.Auction.Steps.{floor_at, floor_for, reference_for, run_after, run_ok}
use mev_boost_relay.Datastore.Auction.NewTop.{Encodes}
use mev_boost_relay.Datastore.Auction.Winner.{IsWon, winning, reference_bounds, wins_keyspace}
use mev_boost_relay.Payloads.{
  made, SignedBuilderBid, build_get_header_response, build_get_payload_response,
}
use mev_boost_relay.Api.Equal.{Roots, Revealed}
use mev_boost_relay.Api.Floor.{
  Caught, got, error, recover, attempt, recover_run, IsLastSlot, goes_on, check_floor_bid_value,
  check_goes_on,
}
use mev_boost_relay.Api.Optimistic.{simulate_block}
use mev_boost_relay.Api.Submit.{
  status, goes, Relay, Library, Posted, Decoded, Prepared, check_submission, decode_submission,
}
use mev_boost_relay.Api.Submit.Bid.{
  Stored, codec_of, Outcome, Updated, trace_of, is_above, is_superseded, responses, save_responses,
  update_redis_bid, update_bid, finish, sim_options, is_optimistic_block, failed_simulation,
  after_verdict, simulate_and_save, after_floor, after_checks, after_decoding,
  handle_submit_new_block,
}
use mev_boost_relay.Api.Submit.Sound.{check_submission-IsAdmitted, can_win}

abbrev parsed : Option ℕ → Caught ℕ
parsed none = error bad_number
parsed (some n) = got n

-- What reading the top bid gives.
abbrev top_of : Option Bytes → Caught ℕ
top_of none = got 0
top_of (some s) = parsed (parse s)

-- Reading the top bid changes nothing, also when it is not a number.
top_read :
    (prefix : Bytes) (c : Codec) (slot : ℕ) (parent proposer : Bytes) (ks : Keyspace)
    → run_keyspace (attempt (get_top_bid_value prefix c slot parent proposer) []) ks
      ≡ (returns (top_of (ks.texts (slot_key prefix top_bid_value slot parent proposer)), []), ks)
unfolding get_top_bid_value recover run_keyspace replies effects reply effect
top_read prefix c slot parent proposer ks = ground arith

module _ {R : Roots} {A Withdrawal : Type 0} (prefix : Bytes) (st : Stored R) (relay : Relay)
    (lib : Library R A Withdrawal) where
  abbrev codec : Codec
  codec = codec_of st

  -- A request of a bid that cannot be cancelled, above floor and top bid, with everything that is
  -- made of it.
  pub record CanWin (p : Posted) (d : Decoded A) (c : Prepared Withdrawal) (ks : Keyspace)
      (header : SignedBuilderBid R) (response : Revealed R) (field : Field)
      (payload_text header_text trace_text : Bytes) (last : ℕ) : Type 0 where
    pub cannot_be_cancelled : p.cancellations ≡ false
    pub decodes : decode_submission relay lib p ≡ goes d
    pub passes : check_submission relay lib d.payload ≡ goes c
    pub last_slot : IsLastSlot prefix ks last
    pub last_small : last < 2 ^ 64
    pub slot_is_later : last < c.submission.bid_trace.slot
    pub is_highest :
        let b = c.submission.bid_trace in
        reference_for prefix
          (codec_of st)
          ks
          b
          (some (floor_at prefix (codec_of st) ks b.slot b.parent_hash b.proposer_pubkey))
        < b.value
    pub is_backed :
        (is_optimistic_block prefix st relay lib c.builder c.submission.bid_trace ≡ true)
        ⊎ ((is_top : Bool)
            → failed_simulation prefix st relay lib (
                simulate_block relay.ff_ignorable_validation_errors
                  (lib.send (sim_options prefix st relay lib d c is_top)))
              ≡ none)
    pub header_made :
        build_get_header_response R lib.signing lib.public_key (some (lib.request_of d.payload))
        ≡ made header
    pub response_made : build_get_payload_response R (lib.request_of d.payload) ≡ made response
    pub encodes :
        Encodes prefix
          (codec_of st)
          (trace_of c.submission)
          c.submission.bid_trace
          d.payload.version
          response
          header
          field
          payload_text
          header_text
          trace_text

  -- The answer is 200, and the bid can win.
  abbrev pub IsAccepted : Outcome R → Type 0
  IsAccepted o = (o.answer ≡ status 200) × (can_win relay lib o ≡ true)

  module _ {p : Posted} {d : Decoded A} {c : Prepared Withdrawal} {ks : Keyspace}
      {header : SignedBuilderBid R} {response : Revealed R} {field : Field}
      {payload_text header_text trace_text : Bytes} {last : ℕ}
      (w : CanWin p d c ks header response field payload_text header_text trace_text last) where
    abbrev bid : BidTrace
    bid = c.submission.bid_trace

    abbrev floor : ℕ
    floor = floor_at prefix codec ks bid.slot bid.parent_hash bid.proposer_pubkey

    abbrev saving : Keyspace → Keyspace
    saving k =
        (run_keyspace
          (save_bid_and_update_top_bid prefix codec (trace_of c.submission) bid d.payload.version
            response header p.received_at false (some floor) [])
          k).1

    abbrev updated : Updated R
    updated = record {
      result = winning bid.value (reference_for prefix codec ks bid (some floor));
      get_payload_response = response;
    }

    responses_made :
        responses prefix st relay lib d.payload ≡ goes (header, (response, c.submission))
    unfolding responses
    responses_made =
        rw
          (
            w.header_made,
            w.response_made,
            (check_submission-IsAdmitted relay lib d.payload c w.passes).reads,
          )
          refl

    save_run :
        run_keyspace
          (save_bid_and_update_top_bid prefix codec
            (trace_of c.submission)
            bid
            d.payload.version
            response
            header
            p.received_at
            false
            (some floor)
            [])
          ks
        ≡ (
          returns (winning bid.value (reference_for prefix codec ks bid (some floor)), []),
          saving ks,
        )
    save_run =
        let wins =
          wins_keyspace prefix codec (trace_of c.submission) bid d.payload.version response header
            p.received_at false (some floor) field payload_text header_text trace_text ks w.encodes
            w.is_highest in
        λ i. (wins.0 i, saving ks)

    update_run :
        run_keyspace (update_bid prefix st relay lib p d.payload bid (some floor) []) ks
        ≡ (returns (goes updated, []), saving ks)
    unfolding update_bid is_superseded update_redis_bid save_responses
    update_run =
        rw (w.cannot_be_cancelled, responses_made)
          (run_after _ _ ks (
              recover_run _ ks (winning bid.value (reference_for prefix codec ks bid (some floor)))
                [] (saving ks) save_run)
            ∙ run_ok _ (saving ks))

    simulate_run :
        (is_top : Bool)
        → (o : Outcome R) × (run_keyspace
              (simulate_and_save prefix st relay lib p d c (some floor) is_top [])
              ks
            ≡ (returns (o, []), saving ks))
          × IsAccepted o
    unfolding simulate_and_save after_verdict finish
    simulate_run is_top =
        elim (Bool-cases (is_optimistic_block prefix st relay lib c.builder bid)) [
          | inl trusted ↦
              rw trusted (_, run_after _ _ ks update_run ∙ run_ok _ (saving ks), (refl, refl))
          | inr simulated ↦
              rw (simulated, passes_simulation simulated is_top)
                (_, run_after _ _ ks update_run ∙ run_ok _ (saving ks), (refl, refl))
        ]
      where
        passes_simulation :
            is_optimistic_block prefix st relay lib c.builder bid ≡ false
            → (is_top : Bool)
            → failed_simulation prefix st relay lib (
                simulate_block relay.ff_ignorable_validation_errors
                  (lib.send (sim_options prefix st relay lib d c is_top)))
              ≡ none
        passes_simulation simulated top = elim w.is_backed [
          | inl trusted ↦ absurd cc
          | inr passes ↦ passes top
        ]

    floor_run :
        run_keyspace (check_floor_bid_value prefix codec p.cancellations bid []) ks
        ≡ (returns (goes_on (some floor), []), ks)
    unfolding floor_for
    floor_run =
        ap (λ x. run_keyspace (check_floor_bid_value prefix codec x bid []) ks)
          w.cannot_be_cancelled
        ∙ check_goes_on prefix codec bid ks last w.last_slot w.last_small w.slot_is_later
            (reference_bounds prefix codec ks bid (some floor) bid.value w.is_highest).1

    handle_run :
        (o : Outcome R) × (run_keyspace (handle_submit_new_block prefix st relay lib p []) ks
          ≡ (returns (o, []), saving ks))
        × IsAccepted o
    unfolding handle_submit_new_block after_decoding after_checks after_floor
    handle_run =
        let top =
          top_of (
            ks.texts
              (slot_key prefix top_bid_value bid.slot bid.parent_hash bid.proposer_pubkey)) in
        let (o, runs, accepted) = simulate_run (is_above bid.value top) in
        rw (w.decodes, w.passes)
          (
            o,
            run_after _ _ ks floor_run
                ∙ run_after _ _ ks
                    (top_read prefix codec bid.slot bid.parent_hash bid.proposer_pubkey ks)
                ∙ runs,
            accepted,
          )

  -- On a server that answers, a request for a bid that cannot be cancelled is answered with 200, and its
  -- bid can win: it is the one that getHeader then reads, with its value, its payload is stored for
  -- getPayload, and it is the new floor. It is assumed that the request decodes and its submission
  -- passes the checks, that its slot is after that of the last delivered payload, that it is above the
  -- floor and the top bid, that its block is an optimistic one or its simulation does not fail, and
  -- that the relay can make, sign and encode the header, the payload and the trace.
  pub submit-wins :
      {p : Posted} {d : Decoded A} {c : Prepared Withdrawal} {header : SignedBuilderBid R}
      {response : Revealed R} {field : Field} {payload_text header_text trace_text : Bytes}
      {last : ℕ} (s : Server) (db : s.Db)
      → s.IsUp db
      → CanWin p d c (s.view db) header response field payload_text header_text trace_text last
      → let r = run s (handle_submit_new_block prefix st relay lib p []) db in
        ((o : Outcome R) × (r.0 ≡ returns (o, [])) × IsAccepted o)
        × IsWon prefix
            (codec_of st)
            c.submission.bid_trace
            false
            field
            payload_text
            header_text
            (s.view db)
            (s.view r.1)
  submit-wins {p} {d} {c} {header} {response} {field} {payload_text} {header_text} {trace_text}
        {last} s db up w =
      let (o, runs, accepted) = handle_run w in
      let ks = s.view db in
      let b = c.submission.bid_trace in
      on_server
        (λ r.
          ((o : Outcome R) × (r.0 ≡ returns (o, [])) × IsAccepted o)
          × IsWon prefix (codec_of st) b false field payload_text header_text ks r.1)
        s (handle_submit_new_block prefix st relay lib p []) db up
        (rw runs (
          (o, refl, accepted),
          (wins_keyspace prefix (codec_of st) (trace_of c.submission) b d.payload.version response
              header p.received_at false
              (some (floor_at prefix (codec_of st) ks b.slot b.parent_hash b.proposer_pubkey)) field
              payload_text header_text trace_text ks w.encodes w.is_highest).1,
        ))
