-- ===== src/Datastore/Delivered/Safety.antt =====
-- At most one payload is delivered for a slot, in every interleaving of the requests.
use mathlib.Core.List.{Memᴰ}
use mev_boost_relay.Prelude.{
  ℕ, ◌+◌, ◌≤◌, ◌<◌, ◌≡◌, refl, sym, ap, subst, ◌∙◌, ◌⊎◌, inl, inr, some, List, [], ◌∷◌, Bytes, true,
  false, ltb, ◌==◌, ==_iff, bytes_eq, bytes_eq→eq, Bool-cases, arith,
}
use mev_boost_relay.Datastore.Delivered.{
  Store, slot_read, hash_read, Phase, idle, accepted, past_slot, another_payload, tx_failed,
  watching, reads_hash, commits, on_slot, on_hash, on_commit, System, at_request, deliver, Step,
  watch, read_slot, read_hash, commit, Reach, here, next,
}

-- What a request knows: the slot that it read is not above the last one since; if no write came
-- after it began to watch, its slot is a new one.
abbrev pub Knows : (Bytes → ℕ) → Store → Phase → Type 0
Knows slot_of s (watching seen slot hash) = (seen ≤ s.writes) × (slot_of hash ≡ slot)
Knows slot_of s (reads_hash seen slot hash) = (slot ≤ slot_read s.last_slot) × (slot_of hash ≡ slot)
Knows slot_of s (commits seen slot hash) =
    (seen ≤ s.writes) × (slot_of hash ≡ slot) × (seen ≡ s.writes → slot_read s.last_slot < slot)
Knows slot_of s _ = Unit

-- Every delivery is for a slot up to the last one, and for the last one with the last hash.
abbrev pub Recorded : Store → List (ℕ × Bytes) → Type 0
Recorded s [] = Unit
Recorded s (d ∷ ds) =
    ((d.0 < slot_read s.last_slot)
      ⊎ ((d.0 ≡ slot_read s.last_slot) × (d.1 ≡ hash_read s.last_hash)))
    × Recorded s ds

abbrev pub Once : List (ℕ × Bytes) → Type 0
Once [] = Unit
Once (d ∷ ds) = ((h : Bytes) → Memᴰ (d.0, h) ds → d.1 ≡ h) × Once ds

pub record Inv (slot_of : Bytes → ℕ) (s : System) : Type 0 where
  pub known : (i : ℕ) → Knows slot_of s.store (s.phase i)
  pub recorded : Recorded s.store s.delivered
  pub once : Once s.delivered
  pub tied :
      (slot_read s.store.last_slot ≡ 0)
      ⊎ (slot_of (hash_read s.store.last_hash) ≡ slot_read s.store.last_slot)

-- A delivery on record for the last slot has the last hash.
pub last_delivery :
    (s : Store) (ds : List (ℕ × Bytes)) (slot : ℕ) (h : Bytes)
    → Recorded s ds
    → slot_read s.last_slot ≤ slot
    → Memᴰ (slot, h) ds
    → (slot ≡ slot_read s.last_slot) × (h ≡ hash_read s.last_hash)
last_delivery s [] slot h r le m = elim m [ ]
last_delivery s (d ∷ ds) slot h r le (Memᴰ.head e) = elim r.0 [
  | inl below ↦ absurd (omega (arith, ap (λ p. p.0) e))
  | inr last ↦ (ap (λ p. p.0) e ∙ last.0, ap (λ p. p.1) e ∙ last.1)
]
last_delivery s (d ∷ ds) slot h r le (Memᴰ.tail m) = last_delivery s ds slot h r.1 le m

later_delivery :
    (s t : Store) (ds : List (ℕ × Bytes))
    → slot_read s.last_slot < slot_read t.last_slot
    → Recorded s ds
    → Recorded t ds
later_delivery s t [] h r = tt
later_delivery s t (d ∷ ds) h r = (
  elim r.0 [ inl below ↦ inl (omega arith) | inr last ↦ inl (omega (arith, last.0)) ],
  later_delivery s t ds h r.1,
)

-- Setting one request's phase keeps what the others know.
known_at :
    (slot_of : Bytes → ℕ) (s : Store) (f : ℕ → Phase) (i : ℕ) (p : Phase)
    → ((j : ℕ) → Knows slot_of s (f j))
    → Knows slot_of s p
    → (j : ℕ) → Knows slot_of s (at_request f i p j)
known_at slot_of s f i p k h j = elim (Bool-cases (i == j)) [
  | inl same ↦ rw same h
  | inr other ↦ rw other (k j)
]

le_of_== : (a b : ℕ) → (a == b) ≡ true → a ≤ b
le_of_== a b h = ground arith

lt_of_tests : (a b : ℕ) → ltb a b ≡ false → (a == b) ≡ false → b < a
lt_of_tests a b h k = ground arith

on_slot-Knows :
    (slot_of : Bytes → ℕ) (s : Store) (seen slot : ℕ) (hash : Bytes)
    → seen ≤ s.writes
    → slot_of hash ≡ slot
    → Knows slot_of s (on_slot seen slot hash (slot_read s.last_slot))
unfolding on_slot
on_slot-Knows slot_of s seen slot hash h e =
    let last = slot_read s.last_slot in
    elim (Bool-cases (ltb slot last)) [
      | inl past ↦ rw past tt
      | inr not_past ↦ rw not_past (elim (Bool-cases (slot == last)) [
        | inl same ↦ rw same (le_of_== slot last same, e)
        | inr newer ↦ rw newer (h, e, λ q. lt_of_tests slot last not_past newer)
      ])
    ]

on_hash-Knows :
    (slot_of : Bytes → ℕ) (s : Store) (hash last : Bytes) → Knows slot_of s (on_hash hash last)
unfolding on_hash
on_hash-Knows slot_of s hash last = elim (Bool-cases (bytes_eq hash last)) [
  | inl e ↦ rw e tt
  | inr e ↦ rw e tt
]

-- A write that came in between keeps what a request knows.
known_later :
    (slot_of : Bytes → ℕ) (s t : Store) (p : Phase)
    → slot_read s.last_slot ≤ slot_read t.last_slot
    → t.writes ≡ s.writes + 1
    → Knows slot_of s p
    → Knows slot_of t p
known_later slot_of s t (watching seen slot hash) h w k = (omega arith, k.1)
known_later slot_of s t (reads_hash seen slot hash) h w k = (omega arith, k.1)
known_later slot_of s t (commits seen slot hash) h w k =
    (omega arith, k.1, λ e. absurd (omega arith))
known_later slot_of s t idle h w k = tt
known_later slot_of s t accepted h w k = tt
known_later slot_of s t past_slot h w k = tt
known_later slot_of s t another_payload h w k = tt
known_later slot_of s t tx_failed h w k = tt

-- The slot of a request that reads the last hash for its own is the last slot.
pub same_slot :
    (slot_of : Bytes → ℕ) (s : Store) (slot : ℕ) (hash : Bytes)
    → (slot_read s.last_slot ≡ 0) ⊎ (slot_of (hash_read s.last_hash) ≡ slot_read s.last_slot)
    → slot ≤ slot_read s.last_slot
    → slot_of hash ≡ slot
    → hash ≡ hash_read s.last_hash
    → slot ≡ slot_read s.last_slot
same_slot slot_of s slot hash (inl zero) h e k = omega arith
same_slot slot_of s slot hash (inr tied) h e k = sym e ∙ ap slot_of k ∙ tied

read_hash-Inv :
    {slot_of : Bytes → ℕ} {s : System} (i seen slot : ℕ) (hash : Bytes)
    → Inv slot_of s
    → s.phase i ≡ reads_hash seen slot hash
    → Inv slot_of (record s {
      phase = at_request s.phase i (on_hash hash (hash_read s.store.last_hash));
      delivered = deliver (on_hash hash (hash_read s.store.last_hash)) slot hash s.delivered;
    })
read_hash-Inv {slot_of} {s} i seen slot hash v e =
    let knows : Knows slot_of s.store (reads_hash seen slot hash) =
      subst (Knows slot_of s.store) e (v.known i) in
    let later =
      known_at slot_of s.store s.phase i (on_hash hash (hash_read s.store.last_hash)) v.known
        (on_hash-Knows slot_of s.store hash _) in
    elim (Bool-cases (bytes_eq hash (hash_read s.store.last_hash))) [
      | inl hit ↦
          let same = bytes_eq→eq hash (hash_read s.store.last_hash) hit in
          let is_last = same_slot slot_of s.store slot hash v.tied knows.0 knows.1 same in
          record {
            known = later;
            recorded = unfold on_hash in rw hit (inr (is_last, same), v.recorded);
            once =
                unfold on_hash in
                rw hit (
                  (λ h m.
                      same
                      ∙ sym
                          (last_delivery s.store s.delivered slot h v.recorded
                            (omega (arith, is_last)) m).1),
                  v.once,
                );
            tied = v.tied;
          }
      | inr miss ↦ record {
        known = later;
        recorded = unfold on_hash in rw miss v.recorded;
        once = unfold on_hash in rw miss v.once;
        tied = v.tied;
      }
    ]

commit-Inv :
    {slot_of : Bytes → ℕ} {s : System} (i seen slot : ℕ) (hash : Bytes)
    → Inv slot_of s
    → s.phase i ≡ commits seen slot hash
    → Inv slot_of (record {
      store = (on_commit seen slot hash s.store).1;
      phase = at_request s.phase i (on_commit seen slot hash s.store).0;
      delivered = deliver (on_commit seen slot hash s.store).0 slot hash s.delivered;
    })
unfolding on_commit
commit-Inv {slot_of} {s} i seen slot hash v e =
    let knows : Knows slot_of s.store (commits seen slot hash) =
      subst (Knows slot_of s.store) e (v.known i) in
    elim (Bool-cases (seen == s.store.writes)) [
      | inl unchanged ↦
          let newer : slot_read s.store.last_slot < slot = knows.2 ((==_iff _ _).0 unchanged) in
          let t : Store = record {
            last_slot = some slot;
            last_hash = some hash;
            writes = s.store.writes + 1;
          } in
          rw unchanged (record {
            known =
                known_at slot_of t s.phase i accepted
                  (λ j. known_later slot_of s.store t (s.phase j) (omega arith) refl (v.known j))
                  tt;
            recorded = (inr (refl, refl), later_delivery s.store t s.delivered newer v.recorded);
            once = (
              (λ h m. absurd (
                  omega (
                    arith,
                    (last_delivery s.store s.delivered slot h v.recorded (omega arith) m).0,
                  ))),
              v.once,
            );
            tied = inr knows.1;
          })
      | inr changed ↦ rw changed (record {
        known = known_at slot_of s.store s.phase i tx_failed v.known tt;
        recorded = v.recorded;
        once = v.once;
        tied = v.tied;
      })
    ]

Step-Inv : {slot_of : Bytes → ℕ} {s t : System} → Step slot_of s t → Inv slot_of s → Inv slot_of t
Step-Inv {slot_of} {s} (watch i slot hash e idles) v = record {
  known = known_at slot_of s.store s.phase i _ v.known (omega arith, e);
  recorded = v.recorded;
  once = v.once;
  tied = v.tied;
}
Step-Inv {slot_of} {s} (read_slot i seen slot hash e) v =
    let knows : Knows slot_of s.store (watching seen slot hash) =
      subst (Knows slot_of s.store) e (v.known i) in
    record {
      known =
          known_at slot_of s.store s.phase i _ v.known
            (on_slot-Knows slot_of s.store seen slot hash knows.0 knows.1);
      recorded = v.recorded;
      once = v.once;
      tied = v.tied;
    }
Step-Inv (read_hash i seen slot hash e) v = read_hash-Inv i seen slot hash v e
Step-Inv (commit i seen slot hash e) v = commit-Inv i seen slot hash v e

pub Reach-Inv : {slot_of : Bytes → ℕ} {s : System} → Reach slot_of s → Inv slot_of s
Reach-Inv here = record { known = λ i. tt; recorded = tt; once = tt; tied = inl refl }
Reach-Inv (next r st) = Step-Inv st (Reach-Inv r)

Once-unique :
    (ds : List (ℕ × Bytes)) (slot : ℕ) (h k : Bytes)
    → Once ds
    → Memᴰ (slot, h) ds
    → Memᴰ (slot, k) ds
    → h ≡ k
Once-unique [] slot h k o m n = elim m [ ]
Once-unique (d ∷ ds) slot h k o (Memᴰ.head e) (Memᴰ.head f) = ap (λ p. p.1) (e ∙ sym f)
Once-unique (d ∷ ds) slot h k o (Memᴰ.head e) (Memᴰ.tail n) =
    ap (λ p. p.1) e ∙ o.0 k (subst (λ a. Memᴰ (a, k) ds) (ap (λ p. p.0) e) n)
Once-unique (d ∷ ds) slot h k o (Memᴰ.tail m) (Memᴰ.head f) =
    sym (ap (λ p. p.1) f ∙ o.0 h (subst (λ a. Memᴰ (a, h) ds) (ap (λ p. p.0) f) m))
Once-unique (d ∷ ds) slot h k o (Memᴰ.tail m) (Memᴰ.tail n) = Once-unique ds slot h k o.1 m n

-- In every state that any number of requests reach, in any order of their steps, two deliveries
-- for one slot have the same hash. It is assumed that a block hash is asked for with its own slot.
pub delivered_once :
    {slot_of : Bytes → ℕ} {s : System} (slot : ℕ) (h k : Bytes)
    → Reach slot_of s
    → Memᴰ (slot, h) s.delivered
    → Memᴰ (slot, k) s.delivered
    → h ≡ k
delivered_once {s} slot h k r m n = Once-unique s.delivered slot h k (Reach-Inv r).once m n
