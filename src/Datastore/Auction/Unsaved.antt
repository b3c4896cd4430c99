-- ===== src/Datastore/Auction/Unsaved.antt =====
-- The bids that `SaveBidAndUpdateTopBid` does not keep: nothing that it queued is sent.
use mev_boost_relay.Prelude.{
  Bool-cases, ℕ, ◌≤◌, ◌≡◌, refl, Option, List, [], Bytes, Bool, true, false, ltb, arith, ◌⊎◌, inl,
  inr, ==_iff, le→not-ltb,
}
use mev_boost_relay.Common.{DataVersion, capella, BidTrace, BidTraceV2}
use mev_boost_relay.Datastore.Assoc.{insert}
use mev_boost_relay.Datastore.Bids.{get_top_bid}
use mev_boost_relay.Datastore.Server.{
  on_server, Error, Cmd, Prog, ok, err, call, Keyspace, Server, Result, returns, fails, run,
  run_keyspace,
}
use mev_boost_relay.Datastore.Pipeline.{and_then}
use mev_boost_relay.Datastore.Auction.{
  Codec, SaveBidAndUpdateTopBidResponse, queue_bid, save_bid, save_bid_and_update_top_bid,
}
use mev_boost_relay.Datastore.Auction.Steps.{
  bids_at, floor_for, reference_for, save_bid_and_update_top_bid_run,
}

-- Whether a program sends a batch before it ends.
sends {ℓ} : {A : Type ℓ} → Prog A → Bool
sends (ok a) = false
sends (err e) = false
sends (call cs k) = true

-- One that sends nothing leaves the contents alone, also as the first part of another.
silent {ℓ κ μ} :
    {A : Type ℓ} {B : Type κ} (P : Result B × Keyspace → Type μ) (p : Prog A) (f : A → Prog B)
    (ks : Keyspace)
    → sends p ≡ false
    → ((a : A) → P (run_keyspace (f a) ks))
    → ((e : Error) → P (fails e, ks))
    → P (run_keyspace (and_then p f) ks)
unfolding sends run_keyspace
silent P (ok a) f ks h goes stops = goes a
silent P (err e) f ks h goes stops = stops e
silent P (call cs k) f ks h goes stops = cc

-- The answer says that nothing was saved and nothing was published.
abbrev pub IsUnsaved : Result (SaveBidAndUpdateTopBidResponse × List Cmd) → Type 0
IsUnsaved (returns r) =
    (r.0.was_bid_saved ≡ false) × (r.0.was_top_bid_updated ≡ false) × (r.0.is_new_top_bid ≡ false)
IsUnsaved (fails e) = Unit

module _ (prefix : Bytes) (c : Codec) where
  queue_bid-sends :
      (trace : BidTraceV2) (b : BidTrace) (version : DataVersion) (payload : c.Payload)
      (header : c.Bid) (received_at : ℕ)
      → sends (queue_bid prefix c trace b version payload header received_at []) ≡ false
  unfolding queue_bid sends
  queue_bid-sends trace b capella payload header received_at = ground arith
  queue_bid-sends trace b _ payload header received_at = ground arith

  save_bid-IsUnsaved :
      (trace : BidTraceV2) (b : BidTrace) (version : DataVersion) (payload : c.Payload)
      (header : c.Bid) (received_at : ℕ) (cancellable : Bool) (floor : ℕ) (bids : List (Bytes × ℕ))
      (reference : ℕ) (ks : Keyspace)
      → (get_top_bid (insert b.builder_pubkey b.value bids)).1 ≡ reference
      → let r =
          run_keyspace
            (save_bid prefix c trace b version payload header received_at cancellable floor bids
              reference [])
            ks in
        IsUnsaved r.0 × (r.1 ≡ ks)
  unfolding save_bid run_keyspace
  save_bid-IsUnsaved trace b version payload header received_at cancellable floor bids reference ks
        h =
      silent (λ r. IsUnsaved r.0 × (r.1 ≡ ks))
        (queue_bid prefix c trace b version payload header received_at []) _ ks
        (queue_bid-sends trace b version payload header received_at)
        (λ a. rw ((==_iff _ _).1 h) ((refl, refl, refl), refl)) (λ e. (tt, refl))

  save-IsUnsaved_keyspace :
      (trace : BidTraceV2) (b : BidTrace) (version : DataVersion) (payload : c.Payload)
      (header : c.Bid) (received_at : ℕ) (cancellable : Bool) (floor_value : Option ℕ)
      (ks : Keyspace)
      → ((cancellable ≡ false) × (b.value ≤ floor_for prefix c ks b floor_value))
        ⊎ ((get_top_bid (
              insert b.builder_pubkey b.value
                (bids_at prefix c ks b.slot b.parent_hash b.proposer_pubkey))).1
            ≡ reference_for prefix c ks b floor_value)
      → let r =
          run_keyspace
            (save_bid_and_update_top_bid prefix c trace b version payload header received_at
              cancellable floor_value [])
            ks in
        IsUnsaved r.0 × (r.1 ≡ ks)
  unfolding run_keyspace
  save-IsUnsaved_keyspace trace b version payload header received_at cancellable floor_value ks
        (inl h) =
      rw
        (save_bid_and_update_top_bid_run prefix c trace b version payload header received_at
          cancellable floor_value ks)
        (rw (h.0, le→not-ltb _ _ h.1) ((refl, refl, refl), refl))
  save-IsUnsaved_keyspace trace b version payload header received_at true floor_value ks (inr h) =
      rw
        (save_bid_and_update_top_bid_run prefix c trace b version payload header received_at true
          floor_value ks)
        (save_bid-IsUnsaved trace b version payload header received_at true _ _ _ ks h)
  save-IsUnsaved_keyspace trace b version payload header received_at false floor_value ks (inr h) =
      rw
        (save_bid_and_update_top_bid_run prefix c trace b version payload header received_at false
          floor_value ks)
        (elim (Bool-cases (ltb (floor_for prefix c ks b floor_value) b.value)) [
          | inl above ↦
              rw above
                (save_bid-IsUnsaved trace b version payload header received_at false _ _ _ ks h)
          | inr below ↦ rw below ((refl, refl, refl), refl)
        ])

  -- On a server that answers, a bid is not saved, and leaves the contents as they are, if it cannot
  -- be cancelled and is at or below the floor, and also (cancellable or not) if the highest of the
  -- builders' bids with this one is what the higher of the top bid and the floor was before.
  pub save-IsUnsaved :
      (s : Server) (db : s.Db) (trace : BidTraceV2) (b : BidTrace) (version : DataVersion)
      (payload : c.Payload) (header : c.Bid) (received_at : ℕ) (cancellable : Bool)
      (floor_value : Option ℕ)
      → s.IsUp db
      → ((cancellable ≡ false) × (b.value ≤ floor_for prefix c (s.view db) b floor_value))
        ⊎ ((get_top_bid (
              insert b.builder_pubkey b.value
                (bids_at prefix c (s.view db) b.slot b.parent_hash b.proposer_pubkey))).1
            ≡ reference_for prefix c (s.view db) b floor_value)
      → let r =
          run s
            (save_bid_and_update_top_bid prefix c trace b version payload header received_at
              cancellable floor_value [])
            db in
        IsUnsaved r.0 × (s.view r.1 ≡ s.view db)
  save-IsUnsaved s db trace b version payload header received_at cancellable floor_value up h =
      on_server (λ r. IsUnsaved r.0 × (r.1 ≡ s.view db)) s _ db up
        (save-IsUnsaved_keyspace trace b version payload header received_at cancellable floor_value
          (s.view db) h)
