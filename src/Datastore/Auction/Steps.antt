-- ===== src/Datastore/Auction/Steps.antt =====
-- What the auction reads at the start, and the run of a program that continues another.
use mev_boost_relay.Prelude.{
  ℕ, ◌≡◌, refl, ap, ◌∙◌, Option, none, some, List, [], Bytes, Bool, ◌&&◌, not, ltb, if◌then◌else◌,
  arith,
}
use mev_boost_relay.Common.{DataVersion, BidTrace, BidTraceV2}
use mev_boost_relay.Datastore.Bids.{new_builder_bids, get_top_bid, set_string}
use mev_boost_relay.Datastore.Keys.{latest_bids_value, floor_bid_value, slot_key}
use mev_boost_relay.Datastore.Server.{
  Keyspace, Prog, ok, err, call, Result, returns, fails, run_keyspace, replies, effects, reply,
  effect,
}
use mev_boost_relay.Datastore.Pipeline.{and_then}
use mev_boost_relay.Datastore.Auction.{
  Codec, no_response, or_read_floor, get_floor_bid_value, new_builder_bids_from_redis, save_bid,
  save_bid_and_update_top_bid,
}

abbrev pub continue {ℓ κ} :
    {A : Type ℓ} {B : Type κ} → Result A × Keyspace → (A → Prog B) → Result B × Keyspace
continue (returns a, ks) f = run_keyspace (f a) ks
continue (fails e, ks) f = (fails e, ks)

pub run_keyspace-and_then {ℓ κ} :
    {A : Type ℓ} {B : Type κ} (p : Prog A) (f : A → Prog B) (ks : Keyspace)
    → run_keyspace (and_then p f) ks ≡ continue (run_keyspace p ks) f
unfolding run_keyspace
run_keyspace-and_then (ok a) f ks = refl
run_keyspace-and_then (err e) f ks = refl
run_keyspace-and_then (call cs k) f ks = run_keyspace-and_then (k (replies cs ks)) f (effects cs ks)

-- A step that returns hands its value and its contents on.
pub run_after {ℓ κ} :
    {A : Type ℓ} {B : Type κ} (p : Prog A) (f : A → Prog B) (ks : Keyspace) {a : A} {ks' : Keyspace}
    → run_keyspace p ks ≡ (returns a, ks')
    → run_keyspace (and_then p f) ks ≡ run_keyspace (f a) ks'
run_after p f ks e = run_keyspace-and_then p f ks ∙ ap (λ r. continue r f) e

pub run_ok {ℓ} : {A : Type ℓ} (a : A) (ks : Keyspace) → run_keyspace (ok a) ks ≡ (returns a, ks)
unfolding run_keyspace
run_ok a ks = refl

module _ (prefix : Bytes) (c : Codec) where
  -- The bids and the floor that the contents show.
  unfoldable pub bids_at : Keyspace → ℕ → Bytes → Bytes → List (Bytes × ℕ)
  bids_at ks slot parent proposer =
      new_builder_bids c.undefined_int
        (ks.tables (slot_key prefix latest_bids_value slot parent proposer))

  number_of : Option Bytes → ℕ
  number_of none = 0
  number_of (some s) = set_string c.undefined_int s

  unfoldable pub floor_at : Keyspace → ℕ → Bytes → Bytes → ℕ
  unfolding number_of
  floor_at ks slot parent proposer =
      number_of (ks.texts (slot_key prefix floor_bid_value slot parent proposer))

  -- The floor that a bid meets: the one passed in, or the one in Redis.
  unfoldable pub floor_for : Keyspace → BidTrace → Option ℕ → ℕ
  floor_for ks b (some floor) = floor
  floor_for ks b none = floor_at ks b.slot b.parent_hash b.proposer_pubkey

  -- The value that a bid has to change to be saved: the higher of the top bid and the floor.
  unfoldable pub reference_for : Keyspace → BidTrace → Option ℕ → ℕ
  reference_for ks b floor_value =
      let top = (get_top_bid (bids_at ks b.slot b.parent_hash b.proposer_pubkey)).1 in
      let floor = floor_for ks b floor_value in if ltb top floor then floor else top

  pub get_floor_bid_value_run :
      (slot : ℕ) (parent proposer : Bytes) (ks : Keyspace)
      → run_keyspace (get_floor_bid_value prefix c slot parent proposer []) ks
        ≡ (returns (floor_at ks slot parent proposer, []), ks)
  unfolding get_floor_bid_value run_keyspace replies effects reply effect floor_at
  get_floor_bid_value_run slot parent proposer ks = ground arith

  pub or_read_floor_run :
      (b : BidTrace) (floor_value : Option ℕ) (ks : Keyspace)
      → run_keyspace (or_read_floor prefix c b floor_value []) ks
        ≡ (returns (floor_for ks b floor_value, []), ks)
  unfolding or_read_floor run_keyspace floor_for
  or_read_floor_run b (some floor) ks = refl
  or_read_floor_run b none ks = get_floor_bid_value_run b.slot b.parent_hash b.proposer_pubkey ks

  pub new_builder_bids_from_redis_run :
      (slot : ℕ) (parent proposer : Bytes) (ks : Keyspace)
      → run_keyspace (new_builder_bids_from_redis prefix c slot parent proposer []) ks
        ≡ (returns (bids_at ks slot parent proposer, []), ks)
  unfolding new_builder_bids_from_redis run_keyspace replies effects reply effect bids_at
  new_builder_bids_from_redis_run slot parent proposer ks = refl

  -- After the reads, the rest of `SaveBidAndUpdateTopBid`.
  pub save_bid_and_update_top_bid_run :
      (trace : BidTraceV2) (b : BidTrace) (version : DataVersion) (payload : c.Payload)
      (header : c.Bid) (received_at : ℕ) (cancellable : Bool) (floor_value : Option ℕ)
      (ks : Keyspace)
      → let reference = reference_for ks b floor_value in
        let floor = floor_for ks b floor_value in
        run_keyspace
          (save_bid_and_update_top_bid prefix c trace b version payload header received_at
            cancellable floor_value [])
          ks
        ≡ run_keyspace
            ((if not cancellable && not (ltb floor b.value)
                then (λ q. ok (
                  record no_response {
                    top_bid_value = reference;
                    prev_top_bid_value = some reference;
                  },
                  q,
                ))
                else save_bid prefix c trace b version payload header received_at cancellable floor
                    (bids_at ks b.slot b.parent_hash b.proposer_pubkey)
                    reference)
              [])
            ks
  unfolding save_bid_and_update_top_bid reference_for
  save_bid_and_update_top_bid_run trace b version payload header received_at cancellable floor_value
        ks =
      run_after _ _ ks (new_builder_bids_from_redis_run b.slot b.parent_hash b.proposer_pubkey ks)
      ∙ run_after _ _ ks (or_read_floor_run b floor_value ks)
