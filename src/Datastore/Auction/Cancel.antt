-- ===== src/Datastore/Auction/Cancel.antt =====
-- `DelBuilderBid`: a builder takes its latest bid back.
use mev_boost_relay.Prelude.{
  ℕ, ◌≤◌, ◌<◌, ◌≡◌, refl, ap, ◌∙◌, none, some, List, [], ◌∷◌, Bytes, arith, bytes_eq_refl,
}
use mev_boost_relay.Decimal.{format}
use mev_boost_relay.Common.{BidTrace}
use mev_boost_relay.Datastore.Auction.NewTop.{published, publish_run}
use mev_boost_relay.Datastore.Assoc.{lookup, delete, lookup-delete}
use mev_boost_relay.Datastore.Bids.{get_top_bid, new_builder_bids}
use mev_boost_relay.Datastore.Keys.{
  get_header_response, latest_bids_value, latest_bids_time, top_bid_value, slot_key,
  key_latest_bid_by_builder,
}
use mev_boost_relay.Datastore.Keys.Injective.{slot_key-ne}
use mev_boost_relay.Datastore.Server.{
  hdel, Keyspace, Server, returns, run, run_keyspace, on_server, effects, effect, replies, reply,
}
use mev_boost_relay.Datastore.Pipeline.{and_then, pure}
use mev_boost_relay.Datastore.Auction.{
  Codec, no_response, del_builder_bid, update_top_bid, update_top_bid_of,
  new_builder_bids_from_redis, publish_top_bid, get_floor_bid_value,
}
use mev_boost_relay.Datastore.Auction.Steps.{
  bids_at, floor_at, run_after, run_ok, get_floor_bid_value_run,
}

-- The bids of the other builders.
new_builder_bids-delete :
    (undefined : Bytes → ℕ) (k : Bytes) (m : List (Bytes × Bytes))
    → new_builder_bids undefined (delete k m) ≡ delete k (new_builder_bids undefined m)
unfolding new_builder_bids delete
new_builder_bids-delete undefined k [] = refl
new_builder_bids-delete undefined k ((j, w) ∷ m) =
    ground (arith, new_builder_bids-delete undefined k m)

module _ (prefix : Bytes) (c : Codec) (slot : ℕ) (parent proposer builder : Bytes) where
  -- The contents once the two deletions are sent.
  abbrev pub without_bid : Keyspace → Keyspace
  without_bid ks =
      effects
        (hdel (slot_key prefix latest_bids_value slot parent proposer) builder
          ∷ hdel (slot_key prefix latest_bids_time slot parent proposer) builder
          ∷ [])
        ks

  without_bid-bids_at :
      (ks : Keyspace)
      → bids_at prefix c (without_bid ks) slot parent proposer
        ≡ delete builder (bids_at prefix c ks slot parent proposer)
  unfolding bids_at effects effect
  without_bid-bids_at ks =
      rw
        (
          slot_key-ne prefix latest_bids_time latest_bids_value slot slot parent proposer parent
              proposer (λ e. cc),
          bytes_eq_refl (slot_key prefix latest_bids_value slot parent proposer),
        )
        (new_builder_bids-delete _ builder _)

  del_builder_bid_run :
      (ks : Keyspace)
      → run_keyspace (del_builder_bid prefix c slot parent proposer builder []) ks
        ≡ run_keyspace
            (and_then
              (update_top_bid_of prefix c no_response
                (delete builder (bids_at prefix c ks slot parent proposer))
                slot
                parent
                proposer
                none
                [])
              (λ r. pure tt r.1))
            (without_bid ks)
  unfolding del_builder_bid update_top_bid new_builder_bids_from_redis run_keyspace effects effect
      replies reply
  del_builder_bid_run ks = rw (← without_bid-bids_at ks) (unfold bids_at in refl)

  -- Only the tables change.
  without_bid-texts : (ks : Keyspace) → (without_bid ks).texts ≡ ks.texts
  unfolding effects effect
  without_bid-texts ks = refl

  last_keyspace :
      (ks : Keyspace)
      → delete builder (bids_at prefix c ks slot parent proposer) ≡ []
      → run_keyspace (del_builder_bid prefix c slot parent proposer builder []) ks
        ≡ (returns (tt, []), without_bid ks)
  unfolding update_top_bid_of run_keyspace
  last_keyspace ks h = del_builder_bid_run ks ∙ rw (h, update_top_bid_of)

  -- On a server that answers, when no other builder has a bid, taking the bid back succeeds and
  -- leaves no bid, and yet every text stays: the header and the value of the top bid, which may be
  -- those of the bid just taken back, are still published.
  pub del-last-keeps_top :
      (s : Server) (db : s.Db)
      → s.IsUp db
      → delete builder (bids_at prefix c (s.view db) slot parent proposer) ≡ []
      → let r = run s (del_builder_bid prefix c slot parent proposer builder []) db in
        (r.0 ≡ returns (tt, []))
        × (bids_at prefix c (s.view r.1) slot parent proposer ≡ [])
        × ((s.view r.1).texts ≡ (s.view db).texts)
  del-last-keeps_top s db up h =
      on_server
        (λ r.
          (r.0 ≡ returns (tt, []))
          × (bids_at prefix c r.1 slot parent proposer ≡ [])
          × (r.1.texts ≡ (s.view db).texts))
        s (del_builder_bid prefix c slot parent proposer builder []) db up
        (rw (last_keyspace (s.view db) h)
          (refl, without_bid-bids_at (s.view db) ∙ h, without_bid-texts (s.view db)))

  -- The winner among the others, as a bid of this auction.
  abbrev winner : Bytes → ℕ → BidTrace
  winner w v = record {
    slot = slot;
    parent_hash = parent;
    block_hash = [];
    builder_pubkey = w;
    proposer_pubkey = proposer;
    proposer_fee_recipient = [];
    gas_limit = 0;
    gas_used = 0;
    value = v;
  }

  update_reads_floor :
      (bids : List (Bytes × ℕ))
      → 0 < (get_top_bid bids).1
      → update_top_bid_of prefix c no_response bids slot parent proposer none []
        ≡ and_then
            (get_floor_bid_value prefix c slot parent proposer [])
            (λ r. publish_top_bid prefix c no_response bids slot parent proposer r.0 r.1)
  unfolding update_top_bid_of get_top_bid
  update_reads_floor [] h = absurd (omega arith)
  update_reads_floor (x ∷ bids) h = refl

  republish_keyspace :
      (ks : Keyspace) (w : Bytes) (v : ℕ) (t : Bytes)
      → get_top_bid (delete builder (bids_at prefix c ks slot parent proposer)) ≡ (w, v)
      → 0 < v
      → floor_at prefix c ks slot parent proposer ≤ v
      → ks.texts (key_latest_bid_by_builder prefix slot parent proposer w) ≡ some t
      → run_keyspace (del_builder_bid prefix c slot parent proposer builder []) ks
        ≡ (returns (tt, []), published prefix c (winner w v) t (without_bid ks))
  unfolding effects replies floor_at effect
  republish_keyspace ks w v t top pos low stands =
      del_builder_bid_run ks
      ∙ run_after _ _ (without_bid ks) (
          ap (λ p. run_keyspace p (without_bid ks))
            (update_reads_floor (delete builder (bids_at prefix c ks slot parent proposer))
              (rw top pos))
          ∙ run_after _ _ (without_bid ks)
              (get_floor_bid_value_run prefix c slot parent proposer (without_bid ks))
          ∙ publish_run prefix c (winner w v) [] (without_bid ks) t no_response
              (delete builder (bids_at prefix c ks slot parent proposer))
              (floor_at prefix c ks slot parent proposer) top low refl stands)
      ∙ run_ok _ _

  republished :
      (ks : Keyspace) (w : Bytes) (v : ℕ) (t : Bytes)
      → let after = published prefix c (winner w v) t (without_bid ks) in
        (after.texts (slot_key prefix get_header_response slot parent proposer) ≡ some t)
        × (after.texts (slot_key prefix top_bid_value slot parent proposer) ≡ some (format v))
        × (lookup builder (bids_at prefix c after slot parent proposer) ≡ none)
  unfolding bids_at
  republished ks w v t = (
    rw (
      slot_key-ne prefix top_bid_value get_header_response slot slot parent proposer parent proposer
          (λ e. cc),
      bytes_eq_refl (slot_key prefix get_header_response slot parent proposer),
    ),
    rw (bytes_eq_refl (slot_key prefix top_bid_value slot parent proposer)),
    ap (lookup builder) (without_bid-bids_at ks)
        ∙ lookup-delete builder builder (bids_at prefix c ks slot parent proposer)
        ∙ rw (bytes_eq_refl builder),
  )

  -- On a server that answers, when the highest bid of the other builders is positive and not below
  -- the floor, and its header is stored, taking the bid back succeeds: that header and its value are
  -- what getHeader will read, and the builder has no bid any more.
  pub del-republishes :
      (s : Server) (db : s.Db) (w : Bytes) (v : ℕ) (t : Bytes)
      → s.IsUp db
      → get_top_bid (delete builder (bids_at prefix c (s.view db) slot parent proposer)) ≡ (w, v)
      → 0 < v
      → floor_at prefix c (s.view db) slot parent proposer ≤ v
      → (s.view db).texts (key_latest_bid_by_builder prefix slot parent proposer w) ≡ some t
      → let r = run s (del_builder_bid prefix c slot parent proposer builder []) db in
        (r.0 ≡ returns (tt, []))
        × ((s.view r.1).texts (slot_key prefix get_header_response slot parent proposer) ≡ some t)
        × ((s.view r.1).texts (slot_key prefix top_bid_value slot parent proposer)
            ≡ some (format v))
        × (lookup builder (bids_at prefix c (s.view r.1) slot parent proposer) ≡ none)
  del-republishes s db w v t up top pos low stands =
      on_server
        (λ r.
          (r.0 ≡ returns (tt, []))
          × (r.1.texts (slot_key prefix get_header_response slot parent proposer) ≡ some t)
          × (r.1.texts (slot_key prefix top_bid_value slot parent proposer) ≡ some (format v))
          × (lookup builder (bids_at prefix c r.1 slot parent proposer) ≡ none))
        s (del_builder_bid prefix c slot parent proposer builder []) db up
        (rw (republish_keyspace (s.view db) w v t top pos low stands)
          (let p = republished (s.view db) w v t in (refl, p.0, p.1, p.2)))
