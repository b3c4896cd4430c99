-- ===== src/Api/GetHeader/Offers.antt =====
-- The bid that has won the auction is the one that getHeader offers.
use mev_boost_relay.Prelude.{
  ℕ, ◌<◌, ◌≡◌, refl, ap, ◌∙◌, none, some, [], ◌∷◌, Bytes, Bool, true, false, ◌&&◌, ltb, arith,
}
use mev_boost_relay.Common.{BidTrace}
use mev_boost_relay.Datastore.Keys.{Field, get_header_response, slot_key}
use mev_boost_relay.Datastore.Server.{
  Server, Keyspace, run, run_keyspace, returns, on_server, replies, effects, reply, effect,
}
use mev_boost_relay.Datastore.Auction.{Codec}
use mev_boost_relay.Datastore.Auction.Steps.{run_after, run_ok}
use mev_boost_relay.Datastore.Auction.Winner.{IsWon}
use mev_boost_relay.Api.Floor.{got, recover_run}
use mev_boost_relay.Api.Submit.{status, goes}
use mev_boost_relay.Api.GetHeader.{
  Settings, HeaderRequest, BidFormat, Served, Wanted, get_best_bid, offer_value, offer_bid,
  offer_found, offer_wanted, admit_get_header, handle_get_header,
}

and_false : (a b : Bool) → b ≡ false → (a && b) ≡ false
and_false true b h = h
and_false false b h = refl

module _ (prefix : Bytes) (f : BidFormat) where
  best_bid_run :
      (slot : ℕ) (parent proposer text : Bytes) (bid : f.Bid) (ks : Keyspace)
      → ks.texts (slot_key prefix get_header_response slot parent proposer) ≡ some text
      → f.unmarshal_bid text ≡ some bid
      → run_keyspace (get_best_bid prefix f slot parent proposer []) ks
        ≡ (returns (some bid, []), ks)
  unfolding get_best_bid run_keyspace replies effects reply effect
  best_bid_run slot parent proposer text bid ks e d = ground arith

  offer_run :
      (bid : f.Bid) (value : ℕ)
      → f.is_empty_bid bid ≡ false
      → f.value bid ≡ (none, some value)
      → 0 < value
      → f.block_hash_err bid ≡ none
      → offer_found prefix f (got (some bid))
        ≡ record { answers = status 200 ∷ []; offered = some bid }
  unfolding offer_found offer_bid offer_value
  offer_run bid value full v positive hashes = ground (arith, full, v, hashes)

  abbrev pub offers : f.Bid → Served f.Bid
  offers bid = record { answers = status 200 ∷ []; offered = some bid }

  handle_run :
      (cfg : Settings) (q : HeaderRequest) (w : Wanted) (text : Bytes) (bid : f.Bid) (value : ℕ)
      (ks : Keyspace)
      → admit_get_header cfg q ≡ goes w
      → q.gives_up ≡ false
      → ks.texts (slot_key prefix get_header_response w.slot q.parent_hash q.pubkey) ≡ some text
      → f.unmarshal_bid text ≡ some bid
      → f.is_empty_bid bid ≡ false
      → f.value bid ≡ (none, some value)
      → 0 < value
      → f.block_hash_err bid ≡ none
      → run_keyspace (handle_get_header prefix f cfg q []) ks ≡ (returns (offers bid, []), ks)
  unfolding handle_get_header offer_wanted
  handle_run cfg q w text bid value ks admitted stays stored decodes full v positive hashes =
      rw (admitted, and_false (ltb 0 w.delay_ms) q.gives_up stays)
        (run_after _ _ ks (
            recover_run _ ks (some bid) [] ks
              (best_bid_run w.slot q.parent_hash q.pubkey text bid ks stored decodes))
          ∙ run_ok _ ks
          ∙ ap (λ x. (returns (x, []), ks)) (offer_run bid value full v positive hashes))

  -- On a server that answers, a request for the slot, the parent and the proposer of a bid that has won
  -- the auction there is answered with 200 and with that bid, and changes nothing. It is assumed that
  -- the request passes its checks and that its client does not leave, and that the stored bid decodes to
  -- one that is not empty and has a value above 0.
  pub won-offered :
      (c : Codec) (s : Server) (db : s.Db) (before : Keyspace) (b : BidTrace) (cancellable : Bool)
      (field : Field) (payload_text header_text : Bytes) (cfg : Settings) (q : HeaderRequest)
      (delay_ms : ℕ) (bid : f.Bid) (value : ℕ)
      → s.IsUp db
      → IsWon prefix c b cancellable field payload_text header_text before (s.view db)
      → admit_get_header cfg q ≡ goes (record { slot = b.slot; delay_ms = delay_ms })
      → q.gives_up ≡ false
      → q.parent_hash ≡ b.parent_hash
      → q.pubkey ≡ b.proposer_pubkey
      → f.unmarshal_bid header_text ≡ some bid
      → f.is_empty_bid bid ≡ false
      → f.value bid ≡ (none, some value)
      → 0 < value
      → f.block_hash_err bid ≡ none
      → let r = run s (handle_get_header prefix f cfg q []) db in
        (r.0 ≡ returns (offers bid, [])) × (s.view r.1 ≡ s.view db)
  won-offered c s db before b cancellable field pt header_text cfg q delay_ms bid value up won
        admitted stays parent pubkey decodes full v positive hashes =
      let ks = s.view db in
      let stored : ks.texts (slot_key prefix get_header_response b.slot q.parent_hash q.pubkey)
          ≡ some header_text =
        ap (λ p. ks.texts (slot_key prefix get_header_response b.slot p q.pubkey)) parent
        ∙ ap (λ p. ks.texts (slot_key prefix get_header_response b.slot b.parent_hash p)) pubkey
        ∙ won.header_published in
      on_server (λ r. (r.0 ≡ returns (offers bid, [])) × (r.1 ≡ ks)) s
        (handle_get_header prefix f cfg q []) db up
        (rw
          (handle_run cfg q (record { slot = b.slot; delay_ms = delay_ms }) header_text bid value ks
            admitted stays stored decodes full v positive hashes)
          (refl, refl))
