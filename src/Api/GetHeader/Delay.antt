-- ===== src/Api/GetHeader/Delay.antt =====
-- How long the answer to a getHeader request is delayed.
use mev_boost_relay.Prelude.{
  ℕ, ◌+◌, ◌*◌, ◌^◌, ◌<◌, ◌≤◌, ◌≡◌, refl, ◌⊎◌, inl, inr, Option, none, some, List, Bytes, not, ◌||◌,
  ltb, if◌then◌else◌, Bool-cases, arith,
}
use mev_boost_relay.Api.GetHeader.{
  add64, sub64, lt64, le64, cap_of, parse_client_deadline_ms, ua_matches_any,
  compute_get_header_delay, current_slot,
}

lt64_small : (a b : ℕ) → a < 2 ^ 63 → b < 2 ^ 63 → lt64 a b ≡ ltb a b
lt64_small a b h k = ground arith

-- The wait until a time that is not before the safety margin.
abbrev wait : ℕ → ℕ → ℕ → ℕ
wait cap safety now = if le64 (sub64 cap safety) now then 0 else sub64 (sub64 cap safety) now

wait_exact :
    (cap safety now : ℕ)
    → cap < 2 ^ 63
    → safety ≤ cap
    → now < 2 ^ 63
    → (wait cap safety now ≡ 0) ⊎ (now + wait cap safety now + safety ≡ cap)
wait_exact cap safety now h k l = ground arith

cap_of_bounds :
    (cap deadline : ℕ)
    → cap < 2 ^ 63
    → deadline < 2 ^ 63
    → (cap_of cap (some deadline) ≤ cap) × (cap_of cap (some deadline) ≤ deadline)
unfolding cap_of
cap_of_bounds cap deadline h k = ground arith

-- The client's deadline, where both headers name one, is a time after the safety margin.
abbrev pub IsClientInRange : Option ℕ → Option ℕ → ℕ → Type 0
IsClientInRange (some date) (some timeout) safety =
    (date + timeout < 2 ^ 63) × (safety ≤ date + timeout)
IsClientInRange _ _ safety = Unit

-- A time is not after the client's deadline.
abbrev pub MeetsClient : Option ℕ → Option ℕ → ℕ → Type 0
MeetsClient (some date) (some timeout) time = time ≤ date + timeout
MeetsClient _ _ time = Unit

abbrev cap_for : ℕ → Option ℕ → Option ℕ → ℕ
cap_for cap date timeout = cap_of cap (parse_client_deadline_ms date timeout)

add64_small : (a b : ℕ) → a + b < 2 ^ 63 → add64 a b ≡ a + b
add64_small a b h = omega arith

cap_for_bounds :
    (cap safety : ℕ) (date timeout : Option ℕ)
    → cap < 2 ^ 63
    → safety ≤ cap
    → IsClientInRange date timeout safety
    → (cap_for cap date timeout ≤ cap)
      × (safety ≤ cap_for cap date timeout)
      × MeetsClient date timeout (cap_for cap date timeout)
unfolding parse_client_deadline_ms cap_of
cap_for_bounds cap safety none timeout h k c = (omega arith, k, tt)
cap_for_bounds cap safety (some date) none h k c = (omega arith, k, tt)
cap_for_bounds cap safety (some date) (some timeout) h k c = ground (arith, c.0, c.1)

meets_later :
    (date timeout : Option ℕ) (a b : ℕ)
    → a ≤ b
    → MeetsClient date timeout b
    → MeetsClient date timeout a
meets_later none timeout a b h m = tt
meets_later (some date) none a b h m = tt
meets_later (some date) (some timeout) a b h m = omega (arith, m)

-- An answer that is delayed still leaves the safety margin before the target, counted from the start of
-- the slot, and before the client's own deadline. It is assumed that the times do not overflow and are
-- not before the margin.
pub delay_meets_deadlines :
    (ua : Bytes) (slot_start_ms now_ms : ℕ) (date timeout : Option ℕ) (target_ms safety_ms : ℕ)
    (agents : List Bytes)
    → slot_start_ms + target_ms < 2 ^ 63
    → now_ms < 2 ^ 63
    → safety_ms ≤ slot_start_ms + target_ms
    → IsClientInRange date timeout safety_ms
    → let delay =
        compute_get_header_delay ua slot_start_ms now_ms date timeout target_ms safety_ms agents in
      (delay ≡ 0)
      ⊎ ((now_ms + delay + safety_ms ≤ slot_start_ms + target_ms)
          × MeetsClient date timeout (now_ms + delay + safety_ms))
unfolding compute_get_header_delay
delay_meets_deadlines ua slot_start_ms now_ms date timeout target_ms safety_ms agents h k l c =
    let cap = slot_start_ms + target_ms in
    let bounds = cap_for_bounds cap safety_ms date timeout h l c in
    let exact =
      wait_exact (cap_for cap date timeout) safety_ms now_ms (omega (arith, bounds.0)) bounds.1 k in
    elim (Bool-cases (le64 target_ms 0 || not (ua_matches_any ua agents))) [
      | inl ineligible ↦ rw ineligible (inl refl)
      | inr eligible ↦
          rw (eligible, add64_small slot_start_ms target_ms h)
            (elim exact [
              | inl zero_delay ↦ inl zero_delay
              | inr waits ↦ inr (
                omega (arith, waits, bounds.0),
                meets_later date timeout _ (cap_for cap date timeout) (omega (arith, waits))
                    bounds.2,
              )
            ])
    ]

-- A time within a slot, that is less than 12 seconds after its start, is in that slot. It is assumed that
-- it does not overflow.
current_slot-start :
    (genesis_time slot ms : ℕ)
    → ms < 12000
    → genesis_time * 1000 + slot * 12000 + ms < 2 ^ 63
    → current_slot genesis_time (genesis_time * 1000 + slot * 12000 + ms) ≡ slot
unfolding current_slot
current_slot-start genesis_time slot ms h k = ground arith
