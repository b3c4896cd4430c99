-- ===== src/Api/SlotDetails.antt =====
-- services/api/service.go: what `checkSubmissionSlotDetails` lets through, in numbers of slots and seconds.
use mev_boost_relay.Prelude.{
  ℕ, ◌+◌, ◌*◌, ◌^◌, ◌<◌, ◌≤◌, ◌≡◌, refl, sym, ◌∙◌, ◌↔◌, ◌⊎◌, inl, Bool, true, false, not, ◌||◌,
  ◌&&◌, arith,
}
use mev_boost_relay.Api.Forks.{
  ForkEpoch, below_zero, epoch, BlindedBlockFields, has_reached_fork, is_fulu, is_electra, is_deneb,
  is_capella,
}
use mev_boost_relay.Api.Submission.{
  RelayApi, passed, expected_timestamp, check_submission_slot_details,
}
use mev_boost_relay.Payloads.Info.{BlockSubmissionInfo}

-- A slot before the first of a fork, whose epochs have 32 slots. A fork without an epoch never comes.
abbrev pub IsBefore : ℕ → ForkEpoch → Type 0
IsBefore slot (epoch n) = slot < 32 * n
IsBefore slot (below_zero n) = Unit

abbrev pub IsFrom : ℕ → ForkEpoch → Type 0
IsFrom slot (epoch n) = 32 * n ≤ slot
IsFrom slot (below_zero n) = true ≡ false

last_fork_iff :
    (slot : ℕ) (start : ForkEpoch) (has : Bool)
    → ((not (has_reached_fork slot start) || has) ≡ true) ↔ (IsBefore slot start ⊎ (has ≡ true))
unfolding has_reached_fork
last_fork_iff slot (below_zero n) has = (λ h. inl tt, λ h. refl)
last_fork_iff slot (epoch n) has = (λ h. ground arith, λ h. ground arith)

fork_iff :
    (slot : ℕ) (start next : ForkEpoch) (has : Bool)
    → ((not (has_reached_fork slot start && not (has_reached_fork slot next)) || has) ≡ true)
      ↔ (IsBefore slot start ⊎ (IsFrom slot next ⊎ (has ≡ true)))
unfolding has_reached_fork
fork_iff slot (below_zero n) next has = (λ h. inl tt, λ h. refl)
fork_iff slot (epoch n) (below_zero m) has = (λ h. ground arith, λ h. ground arith)
fork_iff slot (epoch n) (epoch m) has = (λ h. ground arith, λ h. ground arith)

tests_iff :
    {Withdrawal : Type 0} (api : RelayApi) (head_slot : ℕ) (payload : BlindedBlockFields)
    (s : BlockSubmissionInfo Withdrawal)
    → (check_submission_slot_details api head_slot payload s ≡ passed tt) ↔ (
        ((not (is_fulu api.forks s.bid_trace.slot) || payload.has_fulu) ≡ true)
        × ((not (is_electra api.forks s.bid_trace.slot) || payload.has_electra) ≡ true)
        × ((not (is_deneb api.forks s.bid_trace.slot) || payload.has_deneb) ≡ true)
        × ((not (is_capella api.forks s.bid_trace.slot) || payload.has_capella) ≡ true)
        × (head_slot < s.bid_trace.slot)
        × (s.timestamp ≡ expected_timestamp api s.bid_trace.slot))
unfolding check_submission_slot_details
tests_iff api head_slot payload s = (λ h. ground arith, λ h. ground arith)

expected_timestamp_exact :
    (api : RelayApi) (slot : ℕ)
    → api.genesis_time + slot * 12 < 2 ^ 64
    → expected_timestamp api slot ≡ api.genesis_time + slot * 12
expected_timestamp_exact api slot h = omega arith

-- A submission passes the slot's checks exactly if its slot is after the head, its timestamp is twelve
-- seconds for each slot after the genesis, and its payload has the field of the fork that the slot is in:
-- for each fork, the slot is before the fork's first epoch, or from the next fork's first epoch on, or the
-- field is there. It is assumed that the slot's time does not overflow.
pub check_submission_slot_details_iff :
    {Withdrawal : Type 0} (api : RelayApi) (head_slot : ℕ) (payload : BlindedBlockFields)
    (s : BlockSubmissionInfo Withdrawal)
    → api.genesis_time + s.bid_trace.slot * 12 < 2 ^ 64
    → (check_submission_slot_details api head_slot payload s ≡ passed tt) ↔ (
        (head_slot < s.bid_trace.slot)
        × (s.timestamp ≡ api.genesis_time + s.bid_trace.slot * 12)
        × (IsBefore s.bid_trace.slot api.forks.fulu_epoch ⊎ (payload.has_fulu ≡ true))
        × (IsBefore s.bid_trace.slot api.forks.electra_epoch
            ⊎ (IsFrom s.bid_trace.slot api.forks.fulu_epoch ⊎ (payload.has_electra ≡ true)))
        × (IsBefore s.bid_trace.slot api.forks.deneb_epoch
            ⊎ (IsFrom s.bid_trace.slot api.forks.electra_epoch ⊎ (payload.has_deneb ≡ true)))
        × (IsBefore s.bid_trace.slot api.forks.capella_epoch
            ⊎ (IsFrom s.bid_trace.slot api.forks.deneb_epoch ⊎ (payload.has_capella ≡ true))))
unfolding is_fulu is_electra is_deneb is_capella
check_submission_slot_details_iff api head_slot payload s small =
    let slot = s.bid_trace.slot in
    let tests = tests_iff api head_slot payload s in
    let exact = expected_timestamp_exact api slot small in
    let f = last_fork_iff slot api.forks.fulu_epoch payload.has_fulu in
    let e = fork_iff slot api.forks.electra_epoch api.forks.fulu_epoch payload.has_electra in
    let d = fork_iff slot api.forks.deneb_epoch api.forks.electra_epoch payload.has_deneb in
    let c = fork_iff slot api.forks.capella_epoch api.forks.deneb_epoch payload.has_capella in
    (
      λ h.
          let (hf, he, hd, hc, later, time) = tests.0 h in
          (later, time ∙ exact, f.0 hf, e.0 he, d.0 hd, c.0 hc),
      λ h.
          let (later, time, hf, he, hd, hc) = h in
          tests.1 (f.1 hf, e.1 he, d.1 hd, c.1 hc, later, time ∙ sym exact),
    )
