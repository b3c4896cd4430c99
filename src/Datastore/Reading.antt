-- ===== src/Datastore/Reading.antt =====
-- Programs that only read leave what a server holds as it is.
use mev_boost_relay.Prelude.{ℕ, ◌≡◌, refl, sym, subst, ◌∙◌, Option, none, some, List, [], Bytes}
use mev_boost_relay.Decimal.{parse}
use mev_boost_relay.Datastore.Server.{
  Error, redis_nil, tx_failed, not_copied, bad_number, unsupported_version, encoding_failed,
  decoding_failed, no_value, no_submission, another_payload_already_delivered,
  past_slot_already_delivered, redis_error, Cmd, Reply, done, missing, text, table, count, failed,
  Keyspace, Prog, ok, err, call, run_keyspace, replies, effects, effect,
}
use mev_boost_relay.Datastore.Pipeline.{
  and_then, first_error, throw_if, present, last_reply, text_result, or_throw,
}
use mev_boost_relay.Datastore.Auction.{
  Codec, value_result, floor_result, get_floor_bid_value, get_top_bid_value,
}

-- It sends nothing but reads, and leaves no command unsent.
unfoldable pub Reads : {A : Type 0} → Prog (A × List Cmd) → Type 0
Reads (ok (a, q)) = q ≡ []
Reads (err e) = Unit
Reads (call cs k) = ((ks : Keyspace) → effects cs ks ≡ ks) × ((rs : List Reply) → Reads (k rs))

pub Reads-run :
    {A : Type 0} (p : Prog (A × List Cmd)) (ks : Keyspace) → Reads p → (run_keyspace p ks).1 ≡ ks
unfolding Reads run_keyspace
Reads-run (ok (a, q)) ks h = refl
Reads-run (err e) ks h = refl
Reads-run (call cs k) ks h =
    Reads-run (k (replies cs ks)) (effects cs ks) (h.1 (replies cs ks)) ∙ h.0 ks

pub Reads-and_then :
    {A B : Type 0} (p : Prog (A × List Cmd)) (f : A × List Cmd → Prog (B × List Cmd))
    → Reads p
    → ((a : A) → Reads (f (a, [])))
    → Reads (and_then p f)
unfolding Reads
Reads-and_then (ok (a, q)) f h k = subst (λ r. Reads (f (a, r))) (sym h) (k a)
Reads-and_then (err e) f h k = tt
Reads-and_then (call cs g) f h k = (h.0, λ rs. Reads-and_then (g rs) f (h.1 rs) k)

pub Reads-throw_if : (x : Option Error) → Reads (throw_if x [])
unfolding Reads
Reads-throw_if none = refl
Reads-throw_if (some e) = tt

pub Reads-text_result : (r : Reply) → Reads (text_result r [])
unfolding Reads
Reads-text_result (text s) = refl
Reads-text_result missing = tt
Reads-text_result (failed e) = tt
Reads-text_result done = tt
Reads-text_result (table t) = tt
Reads-text_result (count n) = tt

pub Reads-or_throw : {A : Type 0} (e : Error) (x : Option A) → Reads (or_throw e x [])
unfolding Reads
Reads-or_throw e none = tt
Reads-or_throw e (some a) = refl

Reads-present : (x : Option Error) (r : Reply) → Reads (present x r [])
unfolding Reads
Reads-present none r = refl
Reads-present (some redis_nil) r = refl
Reads-present (some tx_failed) r = tt
Reads-present (some not_copied) r = tt
Reads-present (some bad_number) r = tt
Reads-present (some unsupported_version) r = tt
Reads-present (some encoding_failed) r = tt
Reads-present (some decoding_failed) r = tt
Reads-present (some no_value) r = tt
Reads-present (some no_submission) r = tt
Reads-present (some another_payload_already_delivered) r = tt
Reads-present (some past_slot_already_delivered) r = tt
Reads-present (some (redis_error n)) r = tt

module _ (prefix : Bytes) (c : Codec) where
  Reads-value_result : (x : Option Reply) → Reads (value_result prefix c x [])
  unfolding value_result Reads
  Reads-value_result none = refl
  Reads-value_result (some r) =
      Reads-and_then _ _ (Reads-text_result r) (λ a. Reads-or_throw bad_number (parse a))

  Reads-floor_result : (x : Option Reply) → Reads (floor_result prefix c x [])
  unfolding floor_result Reads
  Reads-floor_result none = refl
  Reads-floor_result (some r) = Reads-and_then _ _ (Reads-text_result r) (λ a. refl)

  pub Reads-get_top_bid_value :
      (slot : ℕ) (parent proposer : Bytes)
      → Reads (get_top_bid_value prefix c slot parent proposer [])
  unfolding get_top_bid_value Reads effects effect
  Reads-get_top_bid_value slot parent proposer = (
    λ ks. refl,
    λ rs.
        Reads-and_then _ _ (Reads-present (first_error rs) (last_reply rs))
          (λ a. Reads-value_result a),
  )

  pub Reads-get_floor_bid_value :
      (slot : ℕ) (parent proposer : Bytes)
      → Reads (get_floor_bid_value prefix c slot parent proposer [])
  unfolding get_floor_bid_value Reads effects effect
  Reads-get_floor_bid_value slot parent proposer = (
    λ ks. refl,
    λ rs.
        Reads-and_then _ _ (Reads-present (first_error rs) (last_reply rs))
          (λ a. Reads-floor_result a),
  )
