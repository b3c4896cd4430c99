-- ===== src/Api/Head/Bounds.antt =====
-- The slots that the relay keeps, in every order of its goroutines.
use mev_boost_relay.Prelude.{
  ℕ, ◌+◌, ◌-◌, ◌%◌, ◌^◌, ◌≤◌, ◌≡◌, refl, sym, subst, Option, none, some, List, [], ◌∷◌, ◌++◌, Bytes,
  Bool, true, false, ◌⊎◌, not, ◌&&◌, ◌==◌, ltb, leb, Bool-cases, inl, inr, arith,
}
use mev_boost_relay.Payloads.{Made, made, refused}
use mev_boost_relay.Api.Submission.{Duty, PayloadAttributes}
use mev_boost_relay.Api.Submit.{Relay}
use mev_boost_relay.Api.Head.{
  PayloadAttributesEvent, save_attributes, save_if_complete, save_if_new,
  process_payload_attributes, Task, update_duties, prepare_builders, Head, process_new_slot,
  is_nonempty, update_proposer_duties, update_proposer_duties_without_checks, BlockBuilderEntry,
  start_server, update_cache, prepare_builders_for_slot, HeadStep, new_slot, attributes, updates,
  skips, prepares,
}

abbrev task_slot : Task → ℕ
task_slot (update_duties n) = n
task_slot (prepare_builders n) = n

abbrev UpTo : ℕ → List Task → Type 0
UpTo n [] = Unit
UpTo n (t ∷ ts) = (task_slot t ≤ n) × UpTo n ts

UpTo-mono : (m n : ℕ) (ts : List Task) → m ≤ n → UpTo m ts → UpTo n ts
UpTo-mono m n [] h u = tt
UpTo-mono m n (t ∷ ts) h u = (omega (arith, u.0), UpTo-mono m n ts h u.1)

UpTo-append : (n : ℕ) (ts us : List Task) → UpTo n ts → UpTo n us → UpTo n (ts ++ us)
UpTo-append n [] us u v = v
UpTo-append n (t ∷ ts) us u v = (u.0, UpTo-append n ts us u.1 v)

UpTo-remove :
    (n : ℕ) (before after : List Task) (t : Task)
    → UpTo n (before ++ t ∷ after)
    → (task_slot t ≤ n) × UpTo n (before ++ after)
UpTo-remove n [] after t u = u
UpTo-remove n (b ∷ bs) after t u =
    let rest = UpTo-remove n bs after t u.1 in (rest.0, (u.0, rest.1))

-- `synced` is the head slot that the beacon nodes reported at the start.
record Inv (synced : ℕ) (s : Head) : Type 0 where
  optimistic : s.relay.optimistic_slot ≤ s.relay.head_slot + 1
  duties : (s.proposer_duties_slot ≤ s.relay.head_slot) ⊎ (s.proposer_duties_slot ≤ synced)
  tasks : UpTo s.relay.head_slot s.pending

-- The slots of a relay are those of another.
abbrev SameSlots : Relay → Relay → Type 0
SameSlots a b = (a.head_slot ≡ b.head_slot) × (a.optimistic_slot ≡ b.optimistic_slot)

module _ {Withdrawal : Type 0} (withdrawals_root_of : List Withdrawal → Option Bytes)
    (hex_to_hash : Bytes → Option Bytes) where
  complete-SameSlots :
      (e : PayloadAttributesEvent Withdrawal) (r : Relay) (root : Option Bytes)
      (b : Option (Option Bytes))
      → SameSlots (save_if_complete withdrawals_root_of hex_to_hash e r root b) r
  unfolding save_if_complete save_attributes
  complete-SameSlots e r none b = (refl, refl)
  complete-SameSlots e r (some root) none = (refl, refl)
  complete-SameSlots e r (some root) (some b) = (refl, refl)

  new-SameSlots :
      (e : PayloadAttributesEvent Withdrawal) (r : Relay) (known : Option PayloadAttributes)
      → SameSlots (save_if_new withdrawals_root_of hex_to_hash e r known) r
  unfolding save_if_new
  new-SameSlots e r (some a) = (refl, refl)
  new-SameSlots e r none = complete-SameSlots e r _ _

  process-SameSlots :
      (e : PayloadAttributesEvent Withdrawal) (r : Relay)
      → SameSlots (process_payload_attributes withdrawals_root_of hex_to_hash e r) r
  unfolding process_payload_attributes
  process-SameSlots e r = elim (Bool-cases (leb e.proposal_slot r.head_slot)) [
    | inl old ↦ rw old (refl, refl)
    | inr new ↦ rw new (new-SameSlots e r _)
  ]

-- The head does not go back, and the slots stay with it.
abbrev Follows : ℕ → Head → Head → Type 0
Follows synced s t = (s.relay.head_slot ≤ t.relay.head_slot) × Inv synced t

later_head :
    {head next : ℕ} (synced slot : ℕ)
    → head ≤ next
    → (slot ≤ head) ⊎ (slot ≤ synced)
    → (slot ≤ next) ⊎ (slot ≤ synced)
later_head synced slot h (inl k) = inl (omega arith)
later_head synced slot h (inr k) = inr k

new_slot-Follows :
    (synced : ℕ) (runs : Bool) (n : ℕ) (s : Head)
    → Inv synced s
    → Follows synced s (process_new_slot runs n s)
unfolding process_new_slot
new_slot-Follows synced runs n s v = elim (Bool-cases (leb n s.relay.head_slot)) [
  | inl old ↦ rw old (omega arith, v)
  | inr new ↦
      let later : s.relay.head_slot ≤ n = ground arith in
      let kept = UpTo-mono s.relay.head_slot n s.pending later v.tasks in
      rw new (elim (Bool-cases runs) [
        | inl on ↦ rw on (
          later,
          record {
            optimistic = omega (arith, v.optimistic);
            duties = later_head synced s.proposer_duties_slot later v.duties;
            tasks = UpTo-append n s.pending _ kept (omega arith, (omega arith, tt));
          },
        )
        | inr off ↦ rw off (
          later,
          record {
            optimistic = omega (arith, v.optimistic);
            duties = later_head synced s.proposer_duties_slot later v.duties;
            tasks = kept;
          },
        )
      ])
]

update-Follows :
    (synced : ℕ) (duties : Made (List (ℕ × Duty))) (n : ℕ) (s : Head)
    → n ≤ s.relay.head_slot
    → Inv synced s
    → Follows synced s (update_proposer_duties_without_checks duties n s)
unfolding update_proposer_duties_without_checks
update-Follows synced (refused e) n s h v = (omega arith, v)
update-Follows synced (made duties) n s h v = elim (Bool-cases (is_nonempty duties)) [
  | inl some_duty ↦
      rw some_duty
        (omega arith, record { optimistic = v.optimistic; duties = inl h; tasks = v.tasks })
  | inr no_duty ↦
      rw no_duty
        (omega arith, record { optimistic = v.optimistic; duties = v.duties; tasks = v.tasks })
]

gated-Follows :
    (synced : ℕ) (duties : Made (List (ℕ × Duty))) (n : ℕ) (s : Head)
    → n ≤ s.relay.head_slot
    → Inv synced s
    → Follows synced s (update_proposer_duties duties n s)
unfolding update_proposer_duties
gated-Follows synced duties n s h v =
    elim (Bool-cases (
      ltb 0 s.proposer_duties_slot
      && not (n % 8 == 0)
      && ltb ((n + 2 ^ 64 - s.proposer_duties_slot) % 2 ^ 64) 8)) [
        | inl gated ↦ rw gated (omega arith, v)
        | inr free ↦ rw free (update-Follows synced duties n s h v)
      ]

prepare-Follows :
    (synced : ℕ) (builders : Made (List BlockBuilderEntry)) (n : ℕ) (s : Head)
    → n ≤ s.relay.head_slot
    → Inv synced s
    → Follows synced s (prepare_builders_for_slot builders n s)
unfolding prepare_builders_for_slot update_cache
prepare-Follows synced (refused e) n s h v =
    (omega arith, record { optimistic = omega (arith, h); duties = v.duties; tasks = v.tasks })
prepare-Follows synced (made builders) n s h v =
    (omega arith, record { optimistic = omega (arith, h); duties = v.duties; tasks = v.tasks })

removed-Inv :
    (synced : ℕ) (s : Head) (before after : List Task) (t : Task)
    → Inv synced s
    → s.pending ≡ before ++ t ∷ after
    → (task_slot t ≤ s.relay.head_slot) × Inv synced (record s { pending = before ++ after })
removed-Inv synced s before after t v e =
    let rest =
      UpTo-remove s.relay.head_slot before after t (subst (UpTo s.relay.head_slot) e v.tasks) in
    (rest.0, record { optimistic = v.optimistic; duties = v.duties; tasks = rest.1 })

-- The duties of the start are for the slot that was reported.
fresh-Inv :
    (synced : ℕ) (duties : Made (List (ℕ × Duty))) (s : Head)
    → s.relay.optimistic_slot ≤ s.relay.head_slot + 1
    → s.proposer_duties_slot ≤ s.relay.head_slot
    → UpTo s.relay.head_slot s.pending
    → Inv synced (update_proposer_duties_without_checks duties synced s)
unfolding update_proposer_duties_without_checks
fresh-Inv synced (refused e) s o d u = record { optimistic = o; duties = inl d; tasks = u }
fresh-Inv synced (made duties) s o d u = elim (Bool-cases (is_nonempty duties)) [
  | inl some_duty ↦ rw some_duty (record { optimistic = o; duties = inr (omega arith); tasks = u })
  | inr no_duty ↦ rw no_duty (record { optimistic = o; duties = inl d; tasks = u })
]

start-Inv :
    (synced : ℕ) (builder_api : Bool) (duties : Made (List (ℕ × Duty))) (r : Relay)
    → r.head_slot ≡ 0
    → r.optimistic_slot ≡ 0
    → Inv synced (start_server builder_api duties synced r)
unfolding start_server update_proposer_duties
start-Inv synced true duties r h o =
    fresh-Inv synced duties (record { relay = r; proposer_duties_slot = 0; pending = [] })
      (omega (arith, h, o)) (omega arith) tt
start-Inv synced false duties r h o = record {
  optimistic = omega (arith, h, o);
  duties = inl (omega arith);
  tasks = tt;
}

-- The start: no head is known, and the duties may have been updated for the slot that the beacon nodes
-- reported.
pub data Reach {Withdrawal : Type 0} (withdrawals_root_of : List Withdrawal → Option Bytes)
    (hex_to_hash : Bytes → Option Bytes) (runs_apis : Bool) (synced : ℕ) : Head → Type 0 where
  here :
      (builder_api : Bool) (duties : Made (List (ℕ × Duty))) (r : Relay)
      → r.head_slot ≡ 0
      → r.optimistic_slot ≡ 0
      → Reach withdrawals_root_of hex_to_hash runs_apis synced
          (start_server builder_api duties synced r)
  next :
      {s t : Head}
      → Reach withdrawals_root_of hex_to_hash runs_apis synced s
      → HeadStep withdrawals_root_of hex_to_hash runs_apis s t
      → Reach withdrawals_root_of hex_to_hash runs_apis synced t

module _ {Withdrawal : Type 0} {withdrawals_root_of : List Withdrawal → Option Bytes}
    {hex_to_hash : Bytes → Option Bytes} {runs_apis : Bool} {synced : ℕ} where
  step-Follows :
      {s t : Head}
      → HeadStep withdrawals_root_of hex_to_hash runs_apis s t
      → Inv synced s
      → Follows synced s t
  step-Follows {s} (new_slot n) v = new_slot-Follows synced runs_apis n s v
  step-Follows {s} (attributes e) v =
      let same = process-SameSlots withdrawals_root_of hex_to_hash e s.relay in
      (
        omega (arith, same.0),
        record {
          optimistic = omega (arith, same.0, same.1, v.optimistic);
          duties = later_head synced s.proposer_duties_slot (omega (arith, same.0)) v.duties;
          tasks = subst (λ n. UpTo n s.pending) (sym same.0) v.tasks;
        },
      )
  step-Follows {s} (updates duties before after n e) v =
      let (old, kept) = removed-Inv synced s before after (update_duties n) v e in
      gated-Follows synced duties n (record s { pending = before ++ after }) old kept
  step-Follows {s} (skips before after n e) v =
      (omega arith, (removed-Inv synced s before after (update_duties n) v e).1)
  step-Follows {s} (prepares builders before after n e) v =
      let (old, kept) = removed-Inv synced s before after (prepare_builders n) v e in
      prepare-Follows synced builders n (record s { pending = before ++ after }) old kept

  Reach-Inv : {s : Head} → Reach withdrawals_root_of hex_to_hash runs_apis synced s → Inv synced s
  Reach-Inv (here builder_api duties r h o) = start-Inv synced builder_api duties r h o
  Reach-Inv (next r st) = (step-Follows st (Reach-Inv r)).1

  -- In every state that heads, events and goroutines reach, in any order, after a start at which the
  -- beacon nodes reported a head slot, the relay's head slot does not go back with the next step, and after
  -- it the slot for optimistic blocks is at most the one after the head, and the slot of the last update of
  -- the duties is not after both the head and the reported slot.
  pub head_monotone :
      {s t : Head}
      → Reach withdrawals_root_of hex_to_hash runs_apis synced s
      → HeadStep withdrawals_root_of hex_to_hash runs_apis s t
      → (s.relay.head_slot ≤ t.relay.head_slot)
        × (t.relay.optimistic_slot ≤ t.relay.head_slot + 1)
        × ((t.proposer_duties_slot ≤ t.relay.head_slot) ⊎ (t.proposer_duties_slot ≤ synced))
  head_monotone r st = let f = step-Follows st (Reach-Inv r) in (f.0, f.1.optimistic, f.1.duties)
