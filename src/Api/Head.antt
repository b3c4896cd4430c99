-- ===== src/Api/Head.antt =====
-- services/api/service.go: what the relay does at its start, and when the beacon nodes report a new head or
-- the attributes of a payload: the update of the duties in `StartServer`, `processNewSlot`,
-- `updateProposerDuties`, `prepareBuildersForSlot` and `processPayloadAttributes`. The goroutines that a new
-- head starts run later, in any order. What Redis and the database answer is a parameter.
-- RefreshKnownValidators, which is started too, is left out.
pub mod Bounds
pub mod Known
use mev_boost_relay.Prelude.{
  ℕ, ◌+◌, ◌-◌, ◌%◌, ◌^◌, ◌==◌, ◌≡◌, Option, none, some, List, [], ◌∷◌, ◌++◌, Bytes, codes, Bool,
  true, false, not, ◌&&◌, ◌||◌, leb, ltb, if◌then◌else◌, bytes_eq,
}
use mev_boost_relay.Decimal.{parse}
use mev_boost_relay.Payloads.{Made, made, refused}
use mev_boost_relay.Api.Forks.{has_reached_fork}
use mev_boost_relay.Api.Submission.{
  RelayApi, Duty, PayloadAttributes, BuilderStatus, get_payload_attributes_key,
  compute_withdrawals_root,
}
use mev_boost_relay.Api.Submit.{Relay, is_empty}

-- An event of the beacon nodes.
pub record PayloadAttributesEvent (Withdrawal : Type 0) : Type 0 where
  pub proposal_slot : ℕ
  pub parent_block_hash : Bytes
  pub prev_randao : Bytes
  pub withdrawals : Option (List Withdrawal)
  pub parent_beacon_block_root : Bytes

-- `phase0.Root{}`
abbrev pub zero_root : Bytes
zero_root = codes "0x0000000000000000000000000000000000000000000000000000000000000000"

module _ {Withdrawal : Type 0} (withdrawals_root_of : List Withdrawal → Option Bytes)
    (hex_to_hash : Bytes → Option Bytes) where
  -- No result when the root cannot be computed.
  unfoldable pub withdrawals_root : RelayApi → PayloadAttributesEvent Withdrawal → Option Bytes
  withdrawals_root api e =
      if has_reached_fork e.proposal_slot api.forks.capella_epoch
      then compute_withdrawals_root withdrawals_root_of e.withdrawals
      else some zero_root

  abbrev pub present_root : Option Bytes → Option (Option Bytes)
  present_root none = none
  present_root (some r) = some (some r)

  -- A missing or a wrong root is an error from Deneb on; before it there is none.
  unfoldable pub parent_beacon_root :
      RelayApi → PayloadAttributesEvent Withdrawal → Option (Option Bytes)
  parent_beacon_root api e =
      if has_reached_fork e.proposal_slot api.forks.deneb_epoch
      then (if is_empty e.parent_beacon_block_root
          then none
          else present_root (hex_to_hash e.parent_beacon_block_root))
      else some none

  abbrev pub unless_old : ℕ → Option PayloadAttributes → Option PayloadAttributes
  unless_old head_slot none = none
  unless_old head_slot (some a) = if ltb a.slot head_slot then none else some a

  abbrev pub event_key : PayloadAttributesEvent Withdrawal → Bytes
  event_key e = get_payload_attributes_key e.parent_block_hash e.proposal_slot

  -- The old ones are removed, and the new one is saved.
  unfoldable pub save_attributes :
      PayloadAttributesEvent Withdrawal → Relay → Bytes → Option Bytes → Relay
  save_attributes e r root beacon_root = record r {
    api = record (r.api) {
      payload_attributes = λ key.
          if bytes_eq (event_key e) key
          then some (record {
            slot = e.proposal_slot;
            prev_randao = e.prev_randao;
            withdrawals_root = root;
            parent_beacon_root = beacon_root;
          })
          else unless_old r.head_slot (r.api.payload_attributes key);
    };
  }

  unfoldable pub save_if_complete :
      PayloadAttributesEvent Withdrawal → Relay → Option Bytes → Option (Option Bytes) → Relay
  unfolding save_attributes
  save_if_complete e r none beacon_root = r
  save_if_complete e r (some root) none = r
  save_if_complete e r (some root) (some b) = save_attributes e r root b

  unfoldable pub save_if_new :
      PayloadAttributesEvent Withdrawal → Relay → Option PayloadAttributes → Relay
  unfolding save_if_complete withdrawals_root parent_beacon_root
  save_if_new e r (some known) = r
  save_if_new e r none =
      save_if_complete e r (withdrawals_root r.api e) (parent_beacon_root r.api e)

  unfoldable pub process_payload_attributes : PayloadAttributesEvent Withdrawal → Relay → Relay
  unfolding save_if_new
  process_payload_attributes e r =
      if leb e.proposal_slot r.head_slot
      then r
      else save_if_new e r (r.api.payload_attributes (event_key e))

-- The goroutines that a new head starts, with its slot.
pub data Task : Type 0 where
  update_duties prepare_builders : ℕ → Task

-- The relay, the slot of the last update of the duties, and the goroutines that have not run yet.
pub record Head : Type 0 where
  pub relay : Relay
  pub proposer_duties_slot : ℕ
  pub pending : List Task

-- `runs_apis` says that the builder API or the proposer API is on.
unfoldable pub process_new_slot : Bool → ℕ → Head → Head
process_new_slot runs_apis head_slot s = if leb head_slot s.relay.head_slot then s else record s {
  relay = record (s.relay) { head_slot = head_slot };
  pending =
      if runs_apis
      then s.pending ++ update_duties head_slot ∷ prepare_builders head_slot ∷ []
      else s.pending;
}

-- The last duty of a slot counts.
unfoldable pub duties_of : List (ℕ × Duty) → ℕ → Option Duty
duties_of [] slot = none
duties_of (d ∷ ds) slot =
    let later = duties_of ds slot in
    elim later [ none ↦ if d.0 == slot then some d.1 else none | some l ↦ some l ]

abbrev pub is_nonempty : {A : Type 0} → List A → Bool
is_nonempty l = not (is_empty l)

unfoldable pub update_proposer_duties_without_checks : Made (List (ℕ × Duty)) → ℕ → Head → Head
unfolding duties_of
update_proposer_duties_without_checks (refused e) head_slot s = s
update_proposer_duties_without_checks (made duties) head_slot s = record s {
  relay = record (s.relay) {
    api = record (s.relay.api) { proposer_duties_map = duties_of duties };
  };
  proposer_duties_slot = if is_nonempty duties then head_slot else s.proposer_duties_slot;
}

-- The difference of slots is a uint64.
unfoldable pub update_proposer_duties : Made (List (ℕ × Duty)) → ℕ → Head → Head
unfolding update_proposer_duties_without_checks
update_proposer_duties duties head_slot s =
    if ltb 0 s.proposer_duties_slot
      && not (head_slot % 8 == 0)
      && ltb ((head_slot + 2 ^ 64 - s.proposer_duties_slot) % 2 ^ 64) 8
    then s
    else update_proposer_duties_without_checks duties head_slot s

-- A builder of the database, whose collateral is a text.
pub record BlockBuilderEntry : Type 0 where
  pub builder_pubkey : Bytes
  pub status : BuilderStatus
  pub collateral : Bytes

abbrev pub or_zero : Option ℕ → ℕ
or_zero none = 0
or_zero (some n) = n

unfoldable pub cached_status : List BlockBuilderEntry → Bytes → Option BuilderStatus
cached_status [] key = none
cached_status (b ∷ bs) key =
    let later = cached_status bs key in
    elim later [
      | none ↦ if bytes_eq b.builder_pubkey key then some b.status else none
      | some l ↦ some l
    ]

abbrev pub collateral_or : Option ℕ → ℕ → ℕ
collateral_or none n = n
collateral_or (some m) n = m

-- A collateral that is no number counts as 0.
unfoldable pub cached_collateral : List BlockBuilderEntry → Bytes → Option ℕ
cached_collateral [] key = none
cached_collateral (b ∷ bs) key =
    let later = cached_collateral bs key in
    elim later [
      | none ↦ if bytes_eq b.builder_pubkey key then some (or_zero (parse b.collateral)) else none
      | some l ↦ some l
    ]

unfoldable pub update_cache : Made (List BlockBuilderEntry) → Relay → Relay
unfolding cached_status cached_collateral
update_cache (refused e) r = r
update_cache (made builders) r = record r {
  api = record (r.api) { block_builders_cache = cached_status builders };
  collateral = λ key. collateral_or (cached_collateral builders key) 0;
}

-- After the optimistic blocks are done; the slot is set also when the database fails.
unfoldable pub prepare_builders_for_slot : Made (List BlockBuilderEntry) → ℕ → Head → Head
unfolding update_cache
prepare_builders_for_slot builders head_slot s = record s {
  relay = update_cache builders (record (s.relay) { optimistic_slot = (head_slot + 1) % 2 ^ 64 });
}

-- What `StartServer` leaves before the events are subscribed to: with the builder API on, the duties have
-- been updated for the head slot that the beacon nodes report, while the relay itself knows no head yet.
unfoldable pub start_server : Bool → Made (List (ℕ × Duty)) → ℕ → Relay → Head
unfolding update_proposer_duties
start_server builder_api duties synced_slot r =
    let fresh : Head = record { relay = r; proposer_duties_slot = 0; pending = [] } in
    if builder_api then update_proposer_duties duties synced_slot fresh else fresh

-- One step: a head, an event, or a goroutine that runs or, for the duties, finds another one running.
pub data HeadStep {Withdrawal : Type 0} (withdrawals_root_of : List Withdrawal → Option Bytes)
    (hex_to_hash : Bytes → Option Bytes) (runs_apis : Bool) (s : Head) : Head → Type 0 where
  new_slot :
      (head_slot : ℕ)
      → HeadStep withdrawals_root_of hex_to_hash runs_apis s
          (process_new_slot runs_apis head_slot s)
  attributes :
      (e : PayloadAttributesEvent Withdrawal)
      → HeadStep withdrawals_root_of hex_to_hash runs_apis s (record s {
        relay = process_payload_attributes withdrawals_root_of hex_to_hash e s.relay;
      })
  updates :
      (duties : Made (List (ℕ × Duty))) (before after : List Task) (head_slot : ℕ)
      → s.pending ≡ before ++ update_duties head_slot ∷ after
      → HeadStep withdrawals_root_of hex_to_hash runs_apis s
          (update_proposer_duties duties head_slot (record s { pending = before ++ after }))
  skips :
      (before after : List Task) (head_slot : ℕ)
      → s.pending ≡ before ++ update_duties head_slot ∷ after
      → HeadStep withdrawals_root_of hex_to_hash runs_apis s
          (record s { pending = before ++ after })
  prepares :
      (builders : Made (List BlockBuilderEntry)) (before after : List Task) (head_slot : ℕ)
      → s.pending ≡ before ++ prepare_builders head_slot ∷ after
      → HeadStep withdrawals_root_of hex_to_hash runs_apis s
          (prepare_builders_for_slot builders head_slot (record s { pending = before ++ after }))
