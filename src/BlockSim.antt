-- ===== src/BlockSim.antt =====
-- services/api/blocksim_ratelimiter.go: the limit on the number of blocks that are simulated at a
-- time. `Send` counts its call in, waits on a condition variable if there are too many, and counts
-- itself out at its end, whatever its outcome, with a signal. A signal wakes the call that waits
-- longest, and nothing else wakes a call, as `sync.Cond` documents.
use mev_boost_relay.Prelude.{
  ℕ, suc, ◌+◌, ◌-◌, ◌≡◌, refl, ap, ◌∙◌, inl, inr, List, [], ◌∷◌, ◌++◌, ◌&&◌, ltb, if◌then◌else◌,
  length, length-append, Bool-cases, arith,
}

-- `BlockSimulationRateLimiter`: its counter, the calls on the condition variable, first come first,
-- and the calls that are past it.
pub record Limiter : Type 0 where
  pub counter : ℕ
  pub waiting : List ℕ
  pub active : List ℕ

-- The first part of `Send`, under the lock; with 0 for the maximum there is none.
unfoldable pub enter : ℕ → ℕ → Limiter → Limiter
enter max i s =
    if ltb 0 max && ltb max (s.counter + 1)
    then record s { counter = s.counter + 1; waiting = s.waiting ++ i ∷ [] }
    else record s { counter = s.counter + 1; active = i ∷ s.active }

unfoldable pub wake : ℕ → List ℕ → List ℕ → Limiter
wake counter [] active = record { counter = counter; waiting = []; active = active }
wake counter (w ∷ ws) active = record { counter = counter; waiting = ws; active = w ∷ active }

-- The deferred part of `Send`, after which the calls in `rest` are still past the wait.
unfoldable pub leave : List ℕ → Limiter → Limiter
leave rest s = wake (s.counter - 1) s.waiting rest

-- `CurrentCounter`
abbrev pub current_counter : Limiter → ℕ
current_counter s = s.counter

pub data Step (max : ℕ) (s : Limiter) : Limiter → Type 0 where
  enters : (i : ℕ) → Step max s (enter max i s)
  leaves :
      (i : ℕ) (before after : List ℕ)
      → s.active ≡ before ++ i ∷ after
      → Step max s (leave (before ++ after) s)

abbrev pub start : Limiter
start = record { counter = 0; waiting = []; active = [] }

pub data Reach (max : ℕ) : Limiter → Type 0 where
  here : Reach max start
  next : {s t : Limiter} → Reach max s → Step max s t → Reach max t

-- The number of calls that are past the wait: all of them, up to the maximum.
abbrev pub allowed : ℕ → ℕ → ℕ
allowed max n = if ltb 0 max && ltb max n then max else n

record Inv (max : ℕ) (s : Limiter) : Type 0 where
  counted : s.counter ≡ length s.waiting + length s.active
  limited : length s.active ≡ allowed max s.counter

enter-Inv : (max i : ℕ) (s : Limiter) → Inv max s → Inv max (enter max i s)
unfolding enter
enter-Inv max i s v = elim (Bool-cases (ltb 0 max && ltb max (s.counter + 1))) [
  | inl full ↦ rw full (record {
    counted = omega (arith, v.counted, length-append s.waiting (i ∷ []));
    limited = ground (arith, v.limited);
  })
  | inr free ↦
      rw free (record { counted = omega (arith, v.counted); limited = ground (arith, v.limited) })
]

-- One call fewer, of which none waits.
allowed_last : (max n a : ℕ) → n ≡ suc a → suc a ≡ allowed max n → a ≡ allowed max (n - 1)
allowed_last max n a h k = ground arith

-- One call fewer, of which one more is let past the wait.
allowed_next :
    (max n a w : ℕ) → n ≡ suc w + suc a → suc a ≡ allowed max n → suc a ≡ allowed max (n - 1)
allowed_next max n a w h k = ground arith

wake-Inv :
    (max : ℕ) (s : Limiter) (rest : List ℕ) (waiting : List ℕ)
    → s.waiting ≡ waiting
    → suc (length rest) ≡ length s.active
    → Inv max s
    → Inv max (wake (s.counter - 1) waiting rest)
unfolding wake
wake-Inv max s rest [] e h v =
    let count : s.counter ≡ suc (length rest) = omega (arith, v.counted, ap length e, h) in
    record {
      counted = omega (arith, count);
      limited = allowed_last max s.counter (length rest) count (h ∙ v.limited);
    }
wake-Inv max s rest (w ∷ ws) e h v =
    let count : s.counter ≡ suc (length ws) + suc (length rest) =
      omega (arith, v.counted, ap length e, h) in
    record {
      counted = omega (arith, count);
      limited = allowed_next max s.counter (length rest) (length ws) count (h ∙ v.limited);
    }

Step-Inv : {max : ℕ} {s t : Limiter} → Step max s t → Inv max s → Inv max t
unfolding leave
Step-Inv {max} {s} (enters i) v = enter-Inv max i s v
Step-Inv {max} {s} (leaves i before after e) v =
    wake-Inv max s (before ++ after) s.waiting refl
      (omega (arith, ap length e, length-append before (i ∷ after), length-append before after)) v

Reach-Inv : {max : ℕ} {s : Limiter} → Reach max s → Inv max s
Reach-Inv here = record { counted = omega arith; limited = ground arith }
Reach-Inv (next r st) = Step-Inv st (Reach-Inv r)

-- In every state that calls of `Send` reach, in any order of their steps, the counter is the number
-- of the calls that wait and of those that are past the wait; and past it are as many as the
-- maximum allows, or all of them: there are never more, and no call waits while there is room.
pub send_limited :
    (max : ℕ) (s : Limiter)
    → Reach max s
    → (current_counter s ≡ length s.waiting + length s.active)
      × (length s.active ≡ allowed max (current_counter s))
send_limited max s r = ((Reach-Inv r).counted, (Reach-Inv r).limited)
