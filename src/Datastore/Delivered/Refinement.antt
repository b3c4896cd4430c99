-- ===== src/Datastore/Delivered/Refinement.antt =====
-- What the requests do together, seen from outside: one request after the other, each with a check and a
-- write that nothing comes between.
use mev_boost_relay.Prelude.{
  ℕ, ◌≤◌, ◌<◌, ◌≡◌, refl, lt→ltb, le→not-ltb, ap, subst, ◌⊎◌, inl, inr, Option, none, some, List,
  ◌∷◌, Bytes, Bool, true, false, ltb, ◌==◌, ==_iff, if◌then◌else◌, ◌&&◌, bytes_eq, bytes_eq→eq,
  Bool-cases, arith,
}
use mev_boost_relay.Datastore.Delivered.{
  Store, slot_read, hash_read, Phase, accepted, past_slot, another_payload, watching, reads_hash,
  commits, on_slot, on_hash, on_commit, System, at_request, deliver, Step, watch, read_slot,
  read_hash, commit, Reach,
}
use mev_boost_relay.Datastore.Delivered.Safety.{Knows, Inv, same_slot, Reach-Inv}

-- The last delivery: its slot and its hash, 0 and the empty text at first.
abbrev pub Last : Type 0
Last = ℕ × Bytes

-- The specification: a newer slot is delivered and becomes the last, the last slot only with its own
-- hash again, and an earlier slot not at all.
abbrev pub check_and_set : Last → ℕ → Bytes → Bool × Last
check_and_set last slot hash =
    if ltb last.0 slot
    then (true, (slot, hash))
    else ((slot == last.0) && bytes_eq hash last.1, last)

-- The two keys of Redis as the last delivery.
abbrev pub last_of : Store → Last
last_of s = (slot_read s.last_slot, hash_read s.last_hash)

-- What a request that has not ended asks for.
abbrev pub asks : Phase → Option (ℕ × Bytes)
asks (watching seen slot hash) = some (slot, hash)
asks (reads_hash seen slot hash) = some (slot, hash)
asks (commits seen slot hash) = some (slot, hash)
asks _ = none

-- Whether a request has been granted or denied; a transaction that failed has decided nothing.
abbrev pub verdict : Phase → Option Bool
verdict accepted = some true
verdict past_slot = some false
verdict another_payload = some false
verdict _ = none

-- Request `i` goes on to phase `p`, and nothing is decided or written.
abbrev pub Waits : System → System → Phase → Type 0
Waits s t p = (verdict p ≡ none) × (last_of t.store ≡ last_of s.store) × (t.delivered ≡ s.delivered)

abbrev pub granted : Bool → ℕ → Bytes → List (ℕ × Bytes) → List (ℕ × Bytes)
granted true slot hash ds = (slot, hash) ∷ ds
granted false slot hash ds = ds

-- A request for a slot and a hash ends in phase `p` with what the specification decides, and leaves what
-- the specification leaves.
abbrev pub Ends : System → System → Phase → ℕ → Bytes → Type 0
Ends s t p slot hash =
    (verdict p ≡ some (check_and_set (last_of s.store) slot hash).0)
    × (last_of t.store ≡ (check_and_set (last_of s.store) slot hash).1)
    × (t.delivered ≡ granted (check_and_set (last_of s.store) slot hash).0 slot hash s.delivered)

abbrev pub Decides : System → System → ℕ → Phase → Type 0
Decides s t i p =
    (slot : ℕ) × (hash : Bytes) × Ends s t p slot hash × (asks (s.phase i) ≡ some (slot, hash))

abbrev pub Implements : System → System → Type 0
Implements s t =
    (i : ℕ) × (p : Phase) × (t.phase ≡ at_request s.phase i p) × (Waits s t p ⊎ Decides s t i p)

past_denied :
    (last : Last) (slot : ℕ) (hash : Bytes)
    → ltb slot last.0 ≡ true
    → check_and_set last slot hash ≡ (false, last)
past_denied last slot hash h =
    let later : slot ≤ last.0 = ground arith in
    let other : (slot == last.0) ≡ false = ground arith in
    rw (le→not-ltb slot last.0 later, other) refl

newer_granted :
    (last : Last) (slot : ℕ) (hash : Bytes)
    → last.0 < slot
    → check_and_set last slot hash ≡ (true, (slot, hash))
newer_granted last slot hash h = rw (lt→ltb last.0 slot h) refl

same_checked :
    (last : Last) (slot : ℕ) (hash : Bytes)
    → slot ≤ last.0
    → check_and_set last slot hash ≡ ((slot == last.0) && bytes_eq hash last.1, last)
same_checked last slot hash h = rw (le→not-ltb slot last.0 h) refl

and_false : (b : Bool) → (b && false) ≡ false
and_false true = refl
and_false false = refl

read_slot-Implements :
    (s : System) (i seen slot : ℕ) (hash : Bytes)
    → s.phase i ≡ watching seen slot hash
    → Implements s (record s {
      phase = at_request s.phase i (on_slot seen slot hash (slot_read s.store.last_slot));
    })
unfolding on_slot
read_slot-Implements s i seen slot hash e =
    let last = slot_read s.store.last_slot in
    (
      i,
      on_slot seen slot hash last,
      refl,
      elim (Bool-cases (ltb slot last)) [
        | inl past ↦
            let denied = past_denied (last_of s.store) slot hash past in
            inr (slot, hash, rw (denied, past) (refl, refl, refl), ap asks e)
        | inr not_past ↦ inl (elim (Bool-cases (slot == last)) [
          | inl same ↦ rw (not_past, same) (refl, refl, refl)
          | inr newer ↦ rw (not_past, newer) (refl, refl, refl)
        ])
      ],
    )

read_hash-Implements :
    {slot_of : Bytes → ℕ} (s : System) (i seen slot : ℕ) (hash : Bytes)
    → Inv slot_of s
    → s.phase i ≡ reads_hash seen slot hash
    → Implements s (record s {
      phase = at_request s.phase i (on_hash hash (hash_read s.store.last_hash));
      delivered = deliver (on_hash hash (hash_read s.store.last_hash)) slot hash s.delivered;
    })
unfolding on_hash
read_hash-Implements {slot_of} s i seen slot hash v e =
    let knows : Knows slot_of s.store (reads_hash seen slot hash) =
      subst (Knows slot_of s.store) e (v.known i) in
    let last = hash_read s.store.last_hash in
    let checked = same_checked (last_of s.store) slot hash knows.0 in
    (
      i,
      on_hash hash last,
      refl,
      inr (elim (Bool-cases (bytes_eq hash last)) [
        | inl hit ↦
            let is_last =
              same_slot slot_of s.store slot hash v.tied knows.0 knows.1
                (bytes_eq→eq hash last hit) in
            let same = (==_iff slot (slot_read s.store.last_slot)).1 is_last in
            (slot, hash, rw (checked, same, hit) (refl, refl, refl), ap asks e)
        | inr miss ↦
            let no = and_false (slot == slot_read s.store.last_slot) in
            (slot, hash, rw (checked, miss, no) (refl, refl, refl), ap asks e)
      ]),
    )

commit-Implements :
    {slot_of : Bytes → ℕ} (s : System) (i seen slot : ℕ) (hash : Bytes)
    → Inv slot_of s
    → s.phase i ≡ commits seen slot hash
    → Implements s (record {
      store = (on_commit seen slot hash s.store).1;
      phase = at_request s.phase i (on_commit seen slot hash s.store).0;
      delivered = deliver (on_commit seen slot hash s.store).0 slot hash s.delivered;
    })
unfolding on_commit
commit-Implements {slot_of} s i seen slot hash v e =
    let knows : Knows slot_of s.store (commits seen slot hash) =
      subst (Knows slot_of s.store) e (v.known i) in
    (
      i,
      (on_commit seen slot hash s.store).0,
      refl,
      elim (Bool-cases (seen == s.store.writes)) [
        | inr changed ↦ inl (rw changed (refl, refl, refl))
        | inl unchanged ↦
            let newer =
              newer_granted (last_of s.store) slot hash (knows.2 ((==_iff _ _).0 unchanged)) in
            inr (slot, hash, rw (newer, unchanged) (refl, refl, refl), ap asks e)
      ],
    )

-- In every state that any number of requests reach, each step moves one request on, and either decides
-- nothing and writes nothing, or ends the request as the specification decides for the last delivery of that
-- moment, whether it is granted or denied, with the specification's new last delivery in the two keys:
-- the requests that are decided take effect one after the other. It is assumed that a block hash is asked
-- for with its own slot.
pub Step-Implements :
    {slot_of : Bytes → ℕ} {s t : System} → Reach slot_of s → Step slot_of s t → Implements s t
Step-Implements {slot_of} {s} r (watch i slot hash own idles) =
    (i, watching s.store.writes slot hash, refl, inl (refl, refl, refl))
Step-Implements {slot_of} {s} r (read_slot i seen slot hash e) =
    read_slot-Implements s i seen slot hash e
Step-Implements {slot_of} {s} r (read_hash i seen slot hash e) =
    read_hash-Implements s i seen slot hash (Reach-Inv r) e
Step-Implements {slot_of} {s} r (commit i seen slot hash e) =
    commit-Implements s i seen slot hash (Reach-Inv r) e
