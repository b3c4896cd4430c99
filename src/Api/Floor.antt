-- ===== src/Api/Floor.antt =====
-- services/api/service.go: `checkFloorBidValue`, which asks Redis whether a payload was delivered for
-- the slot and whether the bid is below the floor, and `GetLastSlotDelivered` of
-- datastore/redis.go, which it calls. A failing call is logged and the check goes on.
use mev_boost_relay.Prelude.{
  ℕ, ◌^◌, ◌<◌, ◌≡◌, refl, ap, ◌∙◌, Option, none, some, List, [], Bytes, codes, Bool, false, not,
  ◌&&◌, ltb, leb, if◌then◌else◌, Bool-cases, ◌↔◌, inl, inr, arith,
}
use mev_boost_relay.Decimal.{format, parse, parse-format}
use mev_boost_relay.Common.{BidTrace}
use mev_boost_relay.Datastore.Keys.{redis_field, last_slot_delivered}
use mev_boost_relay.Datastore.Server.{
  Error, redis_nil, bad_number, Cmd, get, Prog, ok, err, call, Keyspace, run_keyspace, returns,
  Server, Result, run, on_server, replies, effects, reply, effect,
}
use mev_boost_relay.Datastore.Pipeline.{
  M, ◌>>=◌, ◌>>◌, pure, enqueue, exec, first_error, throw_if, last_reply, text_result, or_throw,
}
use mev_boost_relay.Datastore.Auction.{Codec, get_floor_bid_value, del_builder_bid}
use mev_boost_relay.Datastore.Auction.Steps.{floor_at, get_floor_bid_value_run, run_after, run_ok}

-- What a call gave, when its error is looked at and not passed on. `Exec` has emptied the queue.
pub data Caught (A : Type 0) : Type 0 where
  got : A → Caught A
  error : Error → Caught A

unfoldable pub recover : {A : Type 0} → Prog (A × List Cmd) → Prog (Caught A × List Cmd)
recover (ok (a, q)) = ok (got a, q)
recover (err e) = ok (error e, [])
recover (call cs k) = call cs (λ rs. recover (k rs))

abbrev pub attempt : {A : Type 0} → M A → M (Caught A)
attempt m q = recover (m q)

abbrev pub in_uint64 : Option ℕ → Option ℕ
in_uint64 none = none
in_uint64 (some n) = if ltb n (2 ^ 64) then some n else none

unfoldable pub get_last_slot_delivered : Bytes → M ℕ
get_last_slot_delivered prefix = do
  enqueue (get (redis_field prefix last_slot_delivered))
  rs ← exec
  throw_if (first_error rs)
  s ← text_result (last_reply rs)
  or_throw bad_number (in_uint64 (parse s))

-- With `redis.Nil` the slot is 0; another error does not stop the submission.
unfoldable pub already_delivered : ℕ → Caught ℕ → Bool
already_delivered slot (got last) = leb slot last
already_delivered slot (error redis_nil) = leb slot 0
already_delivered slot (error e) = false

unfoldable pub floor_known : Caught ℕ → Option ℕ
floor_known (got n) = some n
floor_known (error e) = none

unfoldable pub is_below : Option ℕ → ℕ → Bool
is_below none value = false
is_below (some floor) value = ltb value floor

unfoldable pub is_at_or_below : Option ℕ → ℕ → Bool
is_at_or_below none value = false
is_at_or_below (some floor) value = leb value floor

-- The check goes on with the floor, if it is known, or has answered the request.
pub data FloorCheck : Type 0 where
  goes_on : Option ℕ → FloorCheck
  answered : ℕ → Bytes → FloorCheck

unfoldable pub after_delete : Caught (Unit {0}) → FloorCheck
after_delete (got u) = answered 202 (codes "accepted bid below floor, skipped validation")
after_delete (error e) = answered 500 (codes "failed processing cancellable bid below floor")

module _ (prefix : Bytes) (c : Codec) where
  unfoldable pub check_floor : Bool → BidTrace → Option ℕ → M FloorCheck
  check_floor cancellations_enabled b floor =
      if cancellations_enabled && is_below floor b.value
      then (do
        r ←
            attempt
              (del_builder_bid prefix c b.slot b.parent_hash b.proposer_pubkey b.builder_pubkey)
        pure (after_delete r))
      else if not cancellations_enabled && is_at_or_below floor b.value
      then pure (answered 202 (codes "accepted bid below floor, skipped validation"))
      else pure (goes_on floor)

  unfoldable pub check_floor_bid_value : Bool → BidTrace → M FloorCheck
  check_floor_bid_value cancellations_enabled b = do
    last ← attempt (get_last_slot_delivered prefix)
    if already_delivered b.slot last
        then pure (answered 400 (codes "payload for this slot was already delivered"))
        else do
          floor ← attempt (get_floor_bid_value prefix c b.slot b.parent_hash b.proposer_pubkey)
          check_floor cancellations_enabled b (floor_known floor)

pub recover_run :
    {A : Type 0} (p : Prog (A × List Cmd)) (ks : Keyspace) (a : A) (q : List Cmd) (ks' : Keyspace)
    → run_keyspace p ks ≡ (returns (a, q), ks')
    → run_keyspace (recover p) ks ≡ (returns (got a, q), ks')
unfolding recover run_keyspace
recover_run (ok (b, r)) ks a q ks' h = cc
recover_run (err e) ks a q ks' h = absurd cc
recover_run (call cs k) ks a q ks' h = recover_run (k (replies cs ks)) (effects cs ks) a q ks' h

-- The slot of the last delivered payload, as it is stored.
abbrev pub IsLastSlot : Bytes → Keyspace → ℕ → Type 0
IsLastSlot prefix ks n = ks.texts (redis_field prefix last_slot_delivered) ≡ some (format n)

module _ (prefix : Bytes) (c : Codec) (b : BidTrace) where
  abbrev floor_of : Keyspace → ℕ
  floor_of ks = floor_at prefix c ks b.slot b.parent_hash b.proposer_pubkey

  get_last_slot_delivered_run :
      (ks : Keyspace) (n : ℕ)
      → IsLastSlot prefix ks n
      → n < 2 ^ 64
      → run_keyspace (get_last_slot_delivered prefix []) ks ≡ (returns (n, []), ks)
  unfolding get_last_slot_delivered run_keyspace replies effects reply effect
  get_last_slot_delivered_run ks n e h = ground (arith, parse-format n)

  abbrev decision : ℕ → ℕ → FloorCheck
  decision last floor =
      if leb b.slot last
      then answered 400 (codes "payload for this slot was already delivered")
      else if leb b.value floor
      then answered 202 (codes "accepted bid below floor, skipped validation")
      else goes_on (some floor)

  check_floor_run :
      (ks : Keyspace) (floor : ℕ)
      → run_keyspace (check_floor prefix c false b (some floor) []) ks ≡ (
        returns (
          if leb b.value floor
              then answered 202 (codes "accepted bid below floor, skipped validation")
              else goes_on (some floor),
          [],
        ),
        ks,
      )
  unfolding check_floor is_at_or_below run_keyspace
  check_floor_run ks floor = ground arith

  check_run :
      (ks : Keyspace) (n : ℕ)
      → IsLastSlot prefix ks n
      → n < 2 ^ 64
      → run_keyspace (check_floor_bid_value prefix c false b []) ks
        ≡ (returns (decision n (floor_of ks), []), ks)
  unfolding check_floor_bid_value already_delivered floor_known
  check_run ks n e h =
      run_after _ _ ks (recover_run _ ks n [] ks (get_last_slot_delivered_run ks n e h))
      ∙ elim (Bool-cases (leb b.slot n)) [
        | inl past ↦ rw past (run_ok _ ks)
        | inr later ↦ rw later (
            run_after _ _ ks (
              recover_run _ ks (floor_of ks) [] ks
                (get_floor_bid_value_run prefix c b.slot b.parent_hash b.proposer_pubkey ks))
            ∙ check_floor_run ks (floor_of ks))
      ]

  decision_iff :
      (last floor : ℕ)
      → (decision last floor ≡ goes_on (some floor)) ↔ ((last < b.slot) × (floor < b.value))
  decision_iff last floor = (λ h. ground arith, λ h. ground arith)

  -- A bid above the floor, for a slot without a delivered payload, goes on.
  pub check_goes_on :
      (ks : Keyspace) (last : ℕ)
      → IsLastSlot prefix ks last
      → last < 2 ^ 64
      → last < b.slot
      → floor_of ks < b.value
      → run_keyspace (check_floor_bid_value prefix c false b []) ks
        ≡ (returns (goes_on (some (floor_of ks)), []), ks)
  check_goes_on ks last stored small later above =
      check_run ks last stored small
      ∙ ap (λ x. (returns (x, []), ks)) ((decision_iff last (floor_of ks)).1 (later, above))

  returns_iff :
      (x y : FloorCheck)
      → (◌≡◌ {A = Result (FloorCheck × List Cmd)} (returns (x, [])) (returns (y, []))) ↔ (x ≡ y)
  returns_iff x y = (λ h. cc, λ h. ap (λ z. returns (z, [])) h)

  -- On a server that answers, where the last slot with a delivered payload is stored, the check of a
  -- bid that cannot be cancelled changes nothing, and it goes on with the floor exactly if the bid's
  -- slot is after that slot and its value is above the floor.
  pub check_floor_bid_value_iff :
      (s : Server) (db : s.Db) (last : ℕ)
      → s.IsUp db
      → IsLastSlot prefix (s.view db) last
      → last < 2 ^ 64
      → let floor = floor_at prefix c (s.view db) b.slot b.parent_hash b.proposer_pubkey in
        let r = run s (check_floor_bid_value prefix c false b []) db in
        (s.view r.1 ≡ s.view db)
        × ((r.0 ≡ returns (goes_on (some floor), [])) ↔ ((last < b.slot) × (floor < b.value)))
  check_floor_bid_value_iff s db last up stored small =
      let floor = floor_of (s.view db) in
      on_server
        (λ r.
          (r.1 ≡ s.view db)
          × ((r.0 ≡ returns (goes_on (some floor), [])) ↔ ((last < b.slot) × (floor < b.value))))
        s (check_floor_bid_value prefix c false b []) db up
        (rw (check_run (s.view db) last stored small) (
          refl,
          (
            λ h. (decision_iff last floor).0 ((returns_iff _ _).0 h),
            λ h. (returns_iff _ _).1 ((decision_iff last floor).1 h),
          ),
        ))
