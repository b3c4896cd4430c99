-- ===== src/Api/Optimistic.antt =====
-- services/api/service.go: the simulation of a block and what becomes of an optimistic builder whose
-- block fails it. What the simulation node answers is `blockSimRateLimiter.Send`'s triple: a
-- response, whose value may be nil, a request error and a validation error.
use mev_boost_relay.Prelude.{
  ℕ, ◌≡◌, refl, ◌⊎◌, inl, inr, Option, none, some, List, [], ◌∷◌, Bytes, codes, Bool, true, false,
  ◌&&◌, ◌||◌, if◌then◌else◌, bytes_eq, contains, Bool-cases, Option-cases, arith,
}
use mev_boost_relay.Api.Submission.{BuilderStatus}

-- The block's value, if the response has one, the request error and the validation error.
pub record Simulated : Type 0 where
  pub block_value : Option ℕ
  pub request_err : Option Bytes
  pub validation_err : Option Bytes

abbrev err_block_already_known : Bytes
err_block_already_known = codes "simulation failed: block already known"

abbrev err_block_requires_reorg : Bytes
err_block_requires_reorg = codes "simulation failed: block requires a reorg"

abbrev err_missing_trie_node : Bytes
err_missing_trie_node = codes "missing trie node"

unfoldable pub is_ignorable : Bytes → Bool
is_ignorable e =
    bytes_eq e err_block_already_known
    || bytes_eq e err_block_requires_reorg
    || contains err_missing_trie_node e

-- `simulateBlock` after the call, with the feature flag for ignorable errors.
unfoldable pub simulate_block : Bool → Simulated → Simulated
simulate_block ignores s = elim s.validation_err [
  | some e ↦
      if ignores && is_ignorable e
      then record { block_value = none; request_err = none; validation_err = none }
      else record { block_value = none; request_err = none; validation_err = some e }
  | none ↦ elim s.request_err [
    | some e ↦ record { block_value = none; request_err = some e; validation_err = none }
    | none ↦ s
  ]
]

abbrev pub transient_sim_errors : List Bytes
transient_sim_errors =
    codes "block is too old"
    ∷ codes "outside validation window"
    ∷ codes "parent block not found"
    ∷ []

abbrev contains_any : List Bytes → Bytes → Bool
contains_any [] e = false
contains_any (s ∷ ss) e = contains s e || contains_any ss e

unfoldable pub is_transient_sim_error : Option Bytes → Bool
is_transient_sim_error none = false
is_transient_sim_error (some e) = contains_any transient_sim_errors e

-- The writes to the database; an error of either is logged.
pub data DbCall : Type 0 where
  set_block_builder_id_status_is_optimistic : Bytes → Bool → DbCall
  insert_builder_demotion : Bytes → Bytes → DbCall

-- `demoteBuilder`, with the feature flag that disables it
unfoldable pub demote_builder : Bool → Bytes → Bytes → List DbCall
demote_builder disabled pubkey e =
    if disabled
    then []
    else set_block_builder_id_status_is_optimistic pubkey false
      ∷ insert_builder_demotion pubkey e
      ∷ []

-- What `processOptimisticBlock` does: the result it sends, the cached status, the database calls.
pub record Processed : Type 0 where
  pub sent : Option Simulated
  pub builder : BuilderStatus
  pub calls : List DbCall

abbrev pub demoted : BuilderStatus → BuilderStatus
demoted b = record b { is_optimistic = false }

unfoldable pub failed_with : Option Bytes → Option Bytes → Option Bytes
failed_with (some e) sim = some e
failed_with none sim = sim

unfoldable pub after_simulation : Bool → Bytes → BuilderStatus → Simulated → Processed
after_simulation disabled pubkey b s = elim (failed_with s.request_err s.validation_err) [
  | none ↦ record { sent = some s; builder = b; calls = [] }
  | some e ↦
      if is_transient_sim_error s.validation_err
      then record { sent = some s; builder = b; calls = [] }
      else record { sent = some s; builder = demoted b; calls = demote_builder disabled pubkey e }
]

-- Without the submission's info nothing is sent. The builder's key is the submission's.
unfoldable pub process_optimistic_block :
    Bool → Bool → Option Bytes → BuilderStatus → Simulated → Processed
process_optimistic_block ignores disabled none b s = record { sent = none; builder = b; calls = [] }
process_optimistic_block ignores disabled (some pubkey) b s =
    after_simulation disabled pubkey b (simulate_block ignores s)

-- Why a block's simulation costs the builder its status: the node rejected the block, for a reason
-- that is neither transient nor ignored, or it gave no verdict and the request failed.
pub data IsCause (ignores : Bool) (s : Simulated) (e : Bytes) : Type 0 where
  rejects :
      s.validation_err ≡ some e
      → is_transient_sim_error (some e) ≡ false
      → (ignores && is_ignorable e) ≡ false
      → IsCause ignores s e
  no_verdict : s.validation_err ≡ none → s.request_err ≡ some e → IsCause ignores s e

-- With a verdict, a cause is that verdict.
cause_unless_rejected :
    (ignores : Bool) (s : Simulated) (v e : Bytes)
    → s.validation_err ≡ some v
    → IsCause ignores s e
    → (is_transient_sim_error (some v) ≡ false) × ((ignores && is_ignorable v) ≡ false)
cause_unless_rejected ignores s v e q (rejects p t i) = (cc, cc)
cause_unless_rejected ignores s v e q (no_verdict p r) = absurd cc

no_cause :
    (ignores : Bool) (s : Simulated) (e : Bytes)
    → s.validation_err ≡ none
    → s.request_err ≡ none
    → IsCause ignores s e
    → ⊥
no_cause ignores s e q r (rejects p t i) = cc
no_cause ignores s e q r (no_verdict p f) = cc

-- What a processed block comes to: nothing changes and there is no cause, or the builder is demoted
-- for a cause, which is put on record.
abbrev pub IsJust : Bool → Bool → Bytes → BuilderStatus → Simulated → Processed → Type 0
IsJust ignores disabled pubkey b s p =
    ((p.builder ≡ b) × (p.calls ≡ []) × (¬ ((e : Bytes) × IsCause ignores s e)))
    ⊎ ((e : Bytes) × IsCause ignores s e
        × (p.builder ≡ demoted b)
        × (p.calls ≡ demote_builder disabled pubkey e))

abbrev passes : Simulated
passes = record { block_value = none; request_err = none; validation_err = none }

abbrev rejects_with : Bytes → Simulated
rejects_with e = record { block_value = none; request_err = none; validation_err = some e }

abbrev fails_with : Bytes → Simulated
fails_with e = record { block_value = none; request_err = some e; validation_err = none }

simulate-ignored :
    (ignores : Bool) (s : Simulated) (v : Bytes)
    → s.validation_err ≡ some v
    → (ignores && is_ignorable v) ≡ true
    → simulate_block ignores s ≡ passes
unfolding simulate_block
simulate-ignored ignores s v q i = rw (simulate_block, q, i) refl

simulate-rejected :
    (ignores : Bool) (s : Simulated) (v : Bytes)
    → s.validation_err ≡ some v
    → (ignores && is_ignorable v) ≡ false
    → simulate_block ignores s ≡ rejects_with v
unfolding simulate_block
simulate-rejected ignores s v q i = rw (simulate_block, q, i) refl

simulate-failed :
    (ignores : Bool) (s : Simulated) (e : Bytes)
    → s.validation_err ≡ none
    → s.request_err ≡ some e
    → simulate_block ignores s ≡ fails_with e
unfolding simulate_block
simulate-failed ignores s e q r = rw (simulate_block, q, r) refl

simulate-passed :
    (ignores : Bool) (s : Simulated)
    → s.validation_err ≡ none
    → s.request_err ≡ none
    → ((simulate_block ignores s).validation_err ≡ none)
      × ((simulate_block ignores s).request_err ≡ none)
unfolding simulate_block
simulate-passed ignores s q r = (rw (simulate_block, q, r) q, rw (simulate_block, q, r) r)

after_passed :
    (disabled : Bool) (pubkey : Bytes) (b : BuilderStatus) (s : Simulated)
    → (s.validation_err ≡ none) × (s.request_err ≡ none)
    → ((after_simulation disabled pubkey b s).builder ≡ b)
      × ((after_simulation disabled pubkey b s).calls ≡ [])
unfolding after_simulation failed_with
after_passed disabled pubkey b s (q, r) =
    (rw (after_simulation, r, failed_with, q) refl, rw (after_simulation, r, failed_with, q) refl)

-- A verdict of the node.
rejected_block :
    (ignores disabled : Bool) (pubkey v : Bytes) (b : BuilderStatus) (s : Simulated)
    → s.validation_err ≡ some v
    → IsJust ignores disabled pubkey b s
        (after_simulation disabled pubkey b (simulate_block ignores s))
unfolding after_simulation failed_with
rejected_block ignores disabled pubkey v b s q = elim (Bool-cases (ignores && is_ignorable v)) [
  | inl ignored ↦ rw (simulate-ignored ignores s v q ignored) (
      inl (
        refl,
        refl,
        λ (e, c). absurd (ground (arith, (cause_unless_rejected ignores s v e q c).1)),
      ))
  | inr counted ↦
      rw (simulate-rejected ignores s v q counted)
        (elim (Bool-cases (is_transient_sim_error (some v))) [
          | inl transient ↦ rw transient (
              inl (
                refl,
                refl,
                λ (e, c). absurd (ground (arith, (cause_unless_rejected ignores s v e q c).0)),
              ))
          | inr lasting ↦ rw lasting (inr (v, rejects q lasting counted, refl, refl))
        ])
]

-- No verdict of the node.
unjudged_block :
    (ignores disabled : Bool) (pubkey : Bytes) (b : BuilderStatus) (s : Simulated)
    → s.validation_err ≡ none
    → IsJust ignores disabled pubkey b s
        (after_simulation disabled pubkey b (simulate_block ignores s))
unfolding after_simulation failed_with is_transient_sim_error
unjudged_block ignores disabled pubkey b s q = elim (Option-cases s.request_err) [
  | inl fine ↦
      let kept =
        after_passed disabled pubkey b (simulate_block ignores s)
          (simulate-passed ignores s q fine) in
      inl (kept.0, kept.1, λ (e, c). no_cause ignores s e q fine c)
  | inr (e, failed) ↦
      rw (simulate-failed ignores s e q failed) (inr (e, no_verdict q failed, refl, refl))
]

-- A builder whose optimistic block was simulated is demoted exactly when there is a cause, and then
-- the error that is put on record is a cause; otherwise its status stays and nothing is recorded.
pub demoted_for_cause :
    (ignores disabled : Bool) (pubkey : Bytes) (b : BuilderStatus) (s : Simulated)
    → IsJust ignores disabled pubkey b s
        (process_optimistic_block ignores disabled (some pubkey) b s)
unfolding process_optimistic_block
demoted_for_cause ignores disabled pubkey b s = elim (Option-cases s.validation_err) [
  | inl none_given ↦ unjudged_block ignores disabled pubkey b s none_given
  | inr (v, given) ↦ rejected_block ignores disabled pubkey v b s given
]
