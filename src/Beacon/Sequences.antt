-- ===== src/Beacon/Sequences.antt =====
-- Sequences of calls of one client, and what becomes of the node that answered last.
use mathlib.Core.Option
use mev_boost_relay.Prelude.{
  ℕ, zero, suc, ◌+◌, ◌<◌, ◌≡◌, refl, ap, ◌∙◌, ◌⊎◌, inl, inr, Option, none, some, List, [], ◌∷◌,
  Bytes, Bool-cases, length, get_elem?, contains, arith,
}
use mev_boost_relay.Beacon.{
  Answers, Response, answer, BeaconInstance, MultiBeaconClient, Returned, Found, found, not_found,
  instances_by_last_response, beacon_instances_by_last_response, first_answer, conclude,
  first_withdrawals, conclude_withdrawals, not_enabled, get_state_validators, get_proposer_duties,
  get_genesis, get_spec, get_fork_schedule, get_randao, get_withdrawals,
}
use mev_boost_relay.Beacon.Order.{last_response-IsOrder}
use mev_boost_relay.Beacon.Calls.{
  IsValid, Result, Response-cases, in_order, conclude-Served, keep_index-Served,
  get_state_validators-Served, get_proposer_duties-Served,
}

-- The calls that ask one node after the other.
pub data Call : Type 0 where
  genesis spec fork_schedule : Call
  state_validators : Bytes → Call
  proposer_duties randao withdrawals : ℕ → Call

module _ {T : Answers} where
  unfoldable pub after : MultiBeaconClient T → Call → Option (MultiBeaconClient T)
  after c genesis = Option.map (λ p. p.0) (get_genesis c)
  after c spec = Option.map (λ p. p.0) (get_spec c)
  after c fork_schedule = Option.map (λ p. p.0) (get_fork_schedule c)
  after c (state_validators id) = Option.map (λ p. p.0) (get_state_validators c id)
  after c (proposer_duties epoch) = Option.map (λ p. p.0) (get_proposer_duties c epoch)
  after c (randao slot) = Option.map (λ p. p.0) (get_randao c slot)
  after c (withdrawals slot) = Option.map (λ p. p.0) (get_withdrawals c slot)

  unfoldable pub after_all : MultiBeaconClient T → List Call → Option (MultiBeaconClient T)
  after_all c [] = some c
  after_all c (call ∷ calls) = Option.bind (after c call) (λ d. after_all d calls)

  -- With a node to ask, or an error at hand, the loop ends with an answer in range or an error.
  first_withdrawals-cases :
      (slot i : ℕ) (e : Bytes) (ns : List (BeaconInstance T))
      → ((j : ℕ) × (v : T.Withdrawals) × (first_withdrawals slot i (some e) ns ≡ found j v)
          × (j < i + length ns))
        ⊎ ((f : Bytes) × (first_withdrawals slot i (some e) ns ≡ not_found (some f)))
  unfolding first_withdrawals
  first_withdrawals-cases slot i e [] = inr (e, refl)
  first_withdrawals-cases slot i e (n ∷ ns) = elim (Response-cases (n.get_withdrawals slot)) [
    | inl (v, q) ↦ inl (i, v, rw (q, first_withdrawals) refl, omega arith)
    | inr (f, q) ↦ elim (Bool-cases (contains not_enabled f)) [
      | inl b ↦ inr (f, rw (q, first_withdrawals, b) refl)
      | inr b ↦ elim (first_withdrawals-cases slot (suc i) f ns) [
        | inl (j, v, p, l) ↦ inl (j, v, rw (q, first_withdrawals, b) p, omega (arith, l))
        | inr (g, p) ↦ inr (g, rw (q, first_withdrawals, b) p)
      ]
    ]
  ]

  -- The error that the loop starts with is not seen if there is a node.
  first_withdrawals_from :
      (slot i : ℕ) (err : Option Bytes) (e : Bytes) (ns : List (BeaconInstance T))
      → zero < length ns
      → first_withdrawals slot i err ns ≡ first_withdrawals slot i (some e) ns
  unfolding first_withdrawals
  first_withdrawals_from slot i err e [] h = absurd (omega arith)
  first_withdrawals_from slot i err e (n ∷ ns) h = refl

  abbrev StaysValid : MultiBeaconClient T → Option (MultiBeaconClient T) → Type 0
  StaysValid c o = (d : MultiBeaconClient T) × (o ≡ some d) × IsValid d

  conclude_withdrawals-StaysValid :
      (c : MultiBeaconClient T) (w : Found T.Withdrawals)
      → IsValid c
      → (((j : ℕ) × (v : T.Withdrawals) × (w ≡ found j v) × (j < length c.beacon_instances))
          ⊎ ((f : Bytes) × (w ≡ not_found (some f))))
      → StaysValid c (Option.map (λ p. p.0) (conclude_withdrawals c w))
  unfolding conclude_withdrawals
  conclude_withdrawals-StaysValid c w h (inl (j, v, e, l)) =
      (record c { best_beacon_index = j }, rw e refl, l)
  conclude_withdrawals-StaysValid c w h (inr (f, e)) = elim (Bool-cases (contains not_enabled f)) [
    | inl b ↦ (c, rw (e, conclude_withdrawals, b) refl, h)
    | inr b ↦ (c, rw (e, conclude_withdrawals, b) refl, h)
  ]

  get_withdrawals-StaysValid :
      (c : MultiBeaconClient T) (slot : ℕ)
      → IsValid c
      → StaysValid c (Option.map (λ p. p.0) (get_withdrawals c slot))
  unfolding get_withdrawals Option.bind
  get_withdrawals-StaysValid c slot h =
      let (ys, e, o) = last_response-IsOrder c.best_beacon_index c.beacon_instances h in
      rw e (
        conclude_withdrawals-StaysValid c (first_withdrawals slot 0 none ys) h
          (elim (first_withdrawals-cases slot 0 [] ys) [
            | inl (j, v, p, l) ↦ inl (
              j,
              v,
              first_withdrawals_from slot 0 none [] ys (omega (arith, o.same_length, h)) ∙ p,
              omega (arith, l, o.same_length),
            )
            | inr (f, p) ↦
                inr (
                  f,
                  first_withdrawals_from slot 0 none [] ys (omega (arith, o.same_length, h)) ∙ p,
                )
          ]))

  -- A call that ends with the client `p.0`.
  ends :
      {R : Type 0} (c : MultiBeaconClient T) (ask : BeaconInstance T → Response R)
      (o : Option (MultiBeaconClient T × Returned R))
      → ((p : MultiBeaconClient T × Returned R) × (o ≡ some p) × Result ask c p)
      → StaysValid c (Option.map (λ p. p.0) o)
  ends c ask o (p, e, s) = (p.0, ap (Option.map (λ q. q.0)) e, s.1)

  after-StaysValid :
      (c : MultiBeaconClient T) (call : Call) → IsValid c → StaysValid c (after c call)
  unfolding after get_genesis get_spec get_fork_schedule get_randao
  after-StaysValid c genesis h = ends c _ _ (
      in_order _ c _ (last_response-IsOrder _ c.beacon_instances h)
        (λ ys o. conclude-Served _ c _ ys h o))
  after-StaysValid c spec h = ends c _ _ (
      in_order _ c _ (last_response-IsOrder _ c.beacon_instances h)
        (λ ys o. keep_index-Served _ c ys h o))
  after-StaysValid c fork_schedule h = ends c _ _ (
      in_order _ c _ (last_response-IsOrder _ c.beacon_instances h)
        (λ ys o. conclude-Served _ c _ ys h o))
  after-StaysValid c (state_validators id) h = ends c _ _ (get_state_validators-Served c id h)
  after-StaysValid c (proposer_duties epoch) h = ends c _ _ (get_proposer_duties-Served c epoch h)
  after-StaysValid c (randao slot) h = ends c _ _ (
      in_order _ c _ (last_response-IsOrder _ c.beacon_instances h)
        (λ ys o. conclude-Served _ c _ ys h o))
  after-StaysValid c (withdrawals slot) h = get_withdrawals-StaysValid c slot h

  -- From a client whose index is a node's place, every sequence of calls that ask one node after the
  -- other runs to its end without indexing out of range, and leaves the index a node's place.
  pub after_all-IsValid :
      (calls : List Call) (c : MultiBeaconClient T)
      → IsValid c
      → (d : MultiBeaconClient T) × (after_all c calls ≡ some d) × IsValid d
  unfolding after_all Option.bind
  after_all-IsValid [] c h = (c, refl, h)
  after_all-IsValid (call ∷ calls) c h =
      let (d, e, v) = after-StaysValid c call h in rw e (after_all-IsValid calls d v)

  -- When the last answer came from the node at a place after the first, and that node, asked first
  -- now, answers `GetProposerDuties` again, then the next order is the list as it was given, with the
  -- first node first: the index that is stored counts in the order of the call.
  pub last_response_lost :
      (c : MultiBeaconClient T) (epoch i : ℕ) (first best : BeaconInstance T)
      (xs : List (BeaconInstance T)) (v : T.Duties)
      → c.best_beacon_index ≡ suc i
      → c.beacon_instances ≡ first ∷ xs
      → get_elem? xs i ≡ some best
      → best.get_proposer_duties epoch ≡ answer v
      → (d : MultiBeaconClient T) × (get_proposer_duties c epoch ≡ some (d, (some v, none)))
        × (beacon_instances_by_last_response d ≡ some (first ∷ xs))
  unfolding get_proposer_duties instances_by_last_response first_answer conclude
  last_response_lost c epoch i first best xs v at list there answers = (
    record c { best_beacon_index = 0 },
    rw (at, list, instances_by_last_response, there, first_answer, answers, conclude, list) refl,
    rw list refl,
  )
