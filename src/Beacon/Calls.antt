-- ===== src/Beacon/Calls.antt =====
-- What the calls that ask one node after the other return, and that no sequence of them indexes the
-- nodes out of range.
use mathlib.Core.List.{Memᴰ}
use mathlib.Core.Option
use mev_boost_relay.Prelude.{
  ℕ, suc, ◌+◌, ◌<◌, ◌≡◌, refl, ap, ◌⊎◌, inl, inr, Option, none, some, List, [], ◌∷◌, Bytes, length,
  All, arith,
}
use mev_boost_relay.Beacon.{
  Answers, Response, answer, failure, BeaconInstance, MultiBeaconClient, Returned, found, not_found,
  first_answer, conclude, keep_index, get_state_validators, get_proposer_duties,
}
use mev_boost_relay.Beacon.Order.{IsOrder, last_response-IsOrder, least_used-IsOrder}

-- The stored index is the place of a node.
abbrev pub IsValid : {T : Answers} → MultiBeaconClient T → Type 0
IsValid c = c.best_beacon_index < length c.beacon_instances

pub Response-cases :
    {R : Type 0} (a : Response R) → ((v : R) × (a ≡ answer v)) ⊎ ((e : Bytes) × (a ≡ failure e))
Response-cases (answer v) = inl (v, refl)
Response-cases (failure e) = inr (e, refl)

module _ {T : Answers} {R : Type 0} where
  abbrev pub Fails : (BeaconInstance T → Response R) → BeaconInstance T → Type 0
  Fails ask n = (e : Bytes) × (ask n ≡ failure e)

  -- Either some node of the client answered and its answer is returned, or every node failed,
  -- nothing is returned and the client is as it was.
  abbrev pub Served :
      (BeaconInstance T → Response R)
      → MultiBeaconClient T
      → MultiBeaconClient T × Returned R
      → Type 0
  Served ask c p =
      ((n : BeaconInstance T) × (v : R) × Memᴰ n c.beacon_instances
        × (ask n ≡ answer v)
        × (p.1 ≡ (some v, none)))
      ⊎ (All (Fails ask) c.beacon_instances × (p.1.0 ≡ none) × (p.0 ≡ c))

  first_answer-cases :
      (ask : BeaconInstance T → Response R) (i : ℕ) (err : Option Bytes)
      (ns : List (BeaconInstance T))
      → ((j : ℕ) × (n : BeaconInstance T) × (v : R) × (first_answer ask i err ns ≡ found j v)
          × Memᴰ n ns
          × (ask n ≡ answer v)
          × (j < i + length ns))
        ⊎ (All (Fails ask) ns × ((e : Option Bytes) × (first_answer ask i err ns ≡ not_found e)))
  unfolding first_answer
  first_answer-cases ask i err [] = inr (tt, (err, refl))
  first_answer-cases ask i err (n ∷ ns) = elim (Response-cases (ask n)) [
    | inl (v, e) ↦ inl (i, n, v, rw (e, first_answer) refl, Memᴰ.head refl, e, omega arith)
    | inr (f, e) ↦ elim (first_answer-cases ask (suc i) (some f) ns) [
      | inl (j, m, v, q, k, a, l) ↦
          inl (j, m, v, rw (e, first_answer) q, Memᴰ.tail k, a, omega (arith, l))
      | inr (fs, (g, q)) ↦ inr (((f, e), fs), (g, rw (e, first_answer) q))
    ]
  ]

  -- The index that a call stores is a node's place again.
  abbrev pub Result :
      (BeaconInstance T → Response R)
      → MultiBeaconClient T
      → (MultiBeaconClient T × Returned R)
      → Type 0
  Result ask c p = Served ask c p × IsValid p.0 × (p.0.beacon_instances ≡ c.beacon_instances)

  pub conclude-Served :
      (ask : BeaconInstance T → Response R) (c : MultiBeaconClient T)
      (error : Option Bytes → Option Bytes) (ns : List (BeaconInstance T))
      → IsValid c
      → IsOrder c.beacon_instances ns
      → Result ask c (conclude c error (first_answer ask 0 none ns))
  unfolding conclude
  conclude-Served ask c error ns h o = elim (first_answer-cases ask 0 none ns) [
    | inl (j, n, v, q, m, a, l) ↦
        rw q (inl (n, v, o.within n m, a, refl), omega (arith, l, o.same_length), refl)
    | inr (fs, (e, q)) ↦ rw q (inr (o.covers (Fails ask) fs, refl, refl), h, refl)
  ]

  -- `GetSpec`, which stores no index
  pub keep_index-Served :
      (ask : BeaconInstance T → Response R) (c : MultiBeaconClient T) (ns : List (BeaconInstance T))
      → IsValid c
      → IsOrder c.beacon_instances ns
      → Result ask c (keep_index c (first_answer ask 0 none ns))
  unfolding keep_index
  keep_index-Served ask c ns h o = elim (first_answer-cases ask 0 none ns) [
    | inl (j, n, v, q, m, a, l) ↦ rw q (inl (n, v, o.within n m, a, refl), h, refl)
    | inr (fs, (e, q)) ↦ rw q (inr (o.covers (Fails ask) fs, refl, refl), h, refl)
  ]

module _ {T : Answers} where
  -- A call that goes on from an order of the nodes.
  pub in_order :
      {X : Type 0} {P : X → Type 0} (order : Option (List (BeaconInstance T)))
      (c : MultiBeaconClient T) (f : List (BeaconInstance T) → X)
      → (ys : List (BeaconInstance T)) × (order ≡ some ys) × IsOrder c.beacon_instances ys
      → ((ys : List (BeaconInstance T)) → IsOrder c.beacon_instances ys → P (f ys))
      → (x : X) × (Option.map f order ≡ some x) × P x
  in_order order c f (ys, e, o) k = (f ys, ap (Option.map f) e, k ys o)

  -- From a client whose index is a node's place, `GetStateValidators` returns what some node answers
  -- with, if it returns a value; otherwise every node failed, nothing is returned and the client is
  -- as it was. The index is a node's place again.
  pub get_state_validators-Served :
      (c : MultiBeaconClient T) (id : Bytes)
      → IsValid c
      → (p : MultiBeaconClient T × Returned T.Validators) × (get_state_validators c id ≡ some p)
        × Result (λ n. n.get_state_validators id) c p
  unfolding get_state_validators
  get_state_validators-Served c id h =
      in_order _ c _ (least_used-IsOrder c.best_beacon_index c.beacon_instances h)
        (λ ys o. conclude-Served _ c _ ys h o)

  pub get_proposer_duties-Served :
      (c : MultiBeaconClient T) (epoch : ℕ)
      → IsValid c
      → (p : MultiBeaconClient T × Returned T.Duties) × (get_proposer_duties c epoch ≡ some p)
        × Result (λ n. n.get_proposer_duties epoch) c p
  unfolding get_proposer_duties
  get_proposer_duties-Served c epoch h =
      in_order _ c _ (last_response-IsOrder c.best_beacon_index c.beacon_instances h)
        (λ ys o. conclude-Served _ c _ ys h o)
