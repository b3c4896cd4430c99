-- ===== src/Tests/Delivered.antt =====
-- Two requests for one payload: the first is the first of its slot, the second finds it delivered.
use mathlib.Core.List.{Memᴰ}
use mev_boost_relay.Prelude.{ℕ, ◌≡◌, refl, some, [], ◌∷◌, Bytes, codes}
use mev_boost_relay.Datastore.Delivered.{
  watching, reads_hash, accepted, commits, on_slot, on_hash, on_commit, System, Reach, here, next,
  Step, watch, read_slot, read_hash, commit, idle, at_request,
}
use mev_boost_relay.Datastore.Delivered.Refinement.{Implements, Step-Implements}
use mev_boost_relay.Datastore.Delivered.Safety.{delivered_once}

abbrev slot_of : Bytes → ℕ
slot_of hash = 7

abbrev block_hash : Bytes
block_hash = codes "0x22"

-- The second request has read that its slot is the last one.
abbrev reads_again : System
reads_again = record {
  store = record { last_slot = some 7; last_hash = some block_hash; writes = 1 };
  phase =
      at_request
        (at_request
          (at_request
            (at_request (at_request (λ i. idle) 0 (watching 0 7 block_hash)) 0
              (commits 0 7 block_hash))
            0 accepted)
          1 (watching 1 7 block_hash))
        1 (reads_hash 1 7 block_hash);
  delivered = (7, block_hash) ∷ [];
}

reads_again-Reach : Reach slot_of reads_again
unfolding on_slot on_hash on_commit mev_boost_relay.Prelude.bytes_eq
reads_again-Reach =
    next
      (next
        (next (next (next here (watch 0 7 block_hash refl refl)) (read_slot 0 0 7 block_hash refl))
          (commit 0 0 7 block_hash refl))
        (watch 1 7 block_hash refl refl))
      (read_slot 1 1 7 block_hash refl)

abbrev delivered_twice : System
delivered_twice = record {
  store = record { last_slot = some 7; last_hash = some block_hash; writes = 1 };
  phase = at_request reads_again.phase 1 accepted;
  delivered = (7, block_hash) ∷ (7, block_hash) ∷ [];
}

delivers_again : Step slot_of reads_again delivered_twice
unfolding on_hash mev_boost_relay.Prelude.bytes_eq
delivers_again = read_hash 1 1 7 block_hash refl

delivered_twice-Reach : Reach slot_of delivered_twice
delivered_twice-Reach = next reads_again-Reach delivers_again

delivered_once_example : block_hash ≡ block_hash
delivered_once_example =
    delivered_once 7 block_hash block_hash delivered_twice-Reach (Memᴰ.head refl)
      (Memᴰ.tail (Memᴰ.head refl))

Step-Implements_example : Implements reads_again delivered_twice
Step-Implements_example = Step-Implements reads_again-Reach delivers_again
