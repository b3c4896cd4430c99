-- ===== src/Datastore/Delivered.antt =====
-- datastore/redis.go: `CheckAndSetLastSlotAndHashDelivered`, by which a relay delivers at most one
-- payload for a slot. Many requests run it at the same time, on one server: each is a machine of
-- its own that reads, decides and writes in turn. `WATCH` is a count of the writes to the two
-- keys: a transaction is carried out if none came in between, and fails otherwise.
pub mod Safety
pub mod Refinement
use mev_boost_relay.Prelude.{
  ℕ, suc, ◌+◌, ◌≡◌, Option, none, some, List, [], ◌∷◌, Bytes, Bool, true, false, ltb, ◌==◌,
  if◌then◌else◌, bytes_eq,
}

-- The two keys, missing at first, and how often they were written.
pub record Store : Type 0 where
  pub last_slot : Option ℕ
  pub last_hash : Option Bytes
  pub writes : ℕ

-- `tx.Get(…).Uint64()` and `.Result()` give 0 and the empty text with `redis.Nil`.
abbrev pub slot_read : Option ℕ → ℕ
slot_read none = 0
slot_read (some s) = s

abbrev pub hash_read : Option Bytes → Bytes
hash_read none = []
hash_read (some h) = h

-- Where a request stands. What it has seen is the number of writes when it began to watch.
pub data Phase : Type 0 where
  idle accepted past_slot another_payload tx_failed : Phase
  watching reads_hash commits : ℕ → ℕ → Bytes → Phase

-- After the slot is read: a past slot is refused, the same slot asks for the hash, and a newer one
-- goes on to the transaction.
unfoldable pub on_slot : ℕ → ℕ → Bytes → ℕ → Phase
on_slot seen slot hash last =
    if ltb slot last
    then past_slot
    else if slot == last
    then reads_hash seen slot hash
    else commits seen slot hash

-- After the hash is read, outside of any transaction.
unfoldable pub on_hash : Bytes → Bytes → Phase
on_hash hash last = if bytes_eq hash last then accepted else another_payload

-- `TxPipelined` under `Watch`
unfoldable pub on_commit : ℕ → ℕ → Bytes → Store → Phase × Store
on_commit seen slot hash s =
    if seen == s.writes
    then (accepted, record { last_slot = some slot; last_hash = some hash; writes = s.writes + 1 })
    else (tx_failed, s)

-- All requests of all relays; `delivered` lists what was accepted.
pub record System : Type 0 where
  pub store : Store
  pub phase : ℕ → Phase
  pub delivered : List (ℕ × Bytes)

abbrev pub at_request : (ℕ → Phase) → ℕ → Phase → ℕ → Phase
at_request f i p j = if i == j then p else f j

abbrev pub deliver : Phase → ℕ → Bytes → List (ℕ × Bytes) → List (ℕ × Bytes)
deliver accepted slot hash ds = (slot, hash) ∷ ds
deliver _ slot hash ds = ds

-- One step of one request. `slot_of` is the slot that a block hash was built for.
pub data Step (slot_of : Bytes → ℕ) (s : System) : System → Type 0 where
  watch :
      (i : ℕ) (slot : ℕ) (hash : Bytes)
      → slot_of hash ≡ slot
      → s.phase i ≡ idle
      → Step slot_of s
          (record s { phase = at_request s.phase i (watching s.store.writes slot hash) })
  read_slot :
      (i seen slot : ℕ) (hash : Bytes)
      → s.phase i ≡ watching seen slot hash
      → Step slot_of s (record s {
        phase = at_request s.phase i (on_slot seen slot hash (slot_read s.store.last_slot));
      })
  read_hash :
      (i seen slot : ℕ) (hash : Bytes)
      → s.phase i ≡ reads_hash seen slot hash
      → Step slot_of s (record s {
        phase = at_request s.phase i (on_hash hash (hash_read s.store.last_hash));
        delivered = deliver (on_hash hash (hash_read s.store.last_hash)) slot hash s.delivered;
      })
  commit :
      (i seen slot : ℕ) (hash : Bytes)
      → s.phase i ≡ commits seen slot hash
      → Step slot_of s (record {
        store = (on_commit seen slot hash s.store).1;
        phase = at_request s.phase i (on_commit seen slot hash s.store).0;
        delivered = deliver (on_commit seen slot hash s.store).0 slot hash s.delivered;
      })

abbrev pub start : System
start = record {
  store = record { last_slot = none; last_hash = none; writes = 0 };
  phase = λ i. idle;
  delivered = [];
}

pub data Reach (slot_of : Bytes → ℕ) : System → Type 0 where
  here : Reach slot_of start
  next : {s t : System} → Reach slot_of s → Step slot_of s t → Reach slot_of t
