-- ===== src/Api/Submission.antt =====
-- services/api/service.go: the checks that a block submission passes before it is simulated, and
-- the lock that keeps Vouch validators' rewards with the protocol. The root of a list of
-- withdrawals is computed by a library: a parameter. Addresses and keys are the texts that their
-- `String` gives.
use mev_boost_relay.Prelude.{
  ℕ, ◌+◌, ◌*◌, ◌%◌, ◌^◌, ◌≡◌, refl, sym, ap, ◌∙◌, Option, none, some, List, [], ◌++◌, map, Bytes,
  codes, Bool, true, false, not, ◌&&◌, leb, ◌==◌, if◌then◌else◌, bytes_eq, bytes_eq→eq, arith,
}
use mev_boost_relay.Common.{BidTrace}
use mev_boost_relay.Payloads.Info.{BlockSubmissionInfo}
use mev_boost_relay.Decimal.{format}
use mev_boost_relay.Registry.{Registry, is_vouch_pubkey, set_pubkeys, to_lower, member}
use mev_boost_relay.Registry.Keys.{member-add_lower}
use mev_boost_relay.Api.Forks.{
  ForkEpochs, BlindedBlockFields, has_reached_fork, is_capella, is_deneb, is_electra, is_fulu,
}

-- A handler's check: it goes on with a value, or has sent a status and a message, or, for some
-- builders, only the status 200.
pub data Checked (A : Type 0) : Type 0 where
  passed : A → Checked A
  rejected : ℕ → Bytes → Checked A
  dropped : Checked A

-- A proposer's duty for a slot: its index, and what it has registered.
pub record Duty : Type 0 where
  pub validator_index : ℕ
  pub pubkey : Bytes
  pub fee_recipient : Bytes
  pub gas_limit : ℕ

pub record PayloadAttributes : Type 0 where
  pub slot : ℕ
  pub prev_randao : Bytes
  pub withdrawals_root : Bytes
  pub parent_beacon_root : Option Bytes

pub record BuilderStatus : Type 0 where
  pub is_high_prio : Bool
  pub is_optimistic : Bool
  pub is_blacklisted : Bool

-- The parts of `RelayAPI` that the checks read.
pub record RelayApi : Type 0 where
  pub forks : ForkEpochs
  pub genesis_time : ℕ
  pub proposer_duties_map : ℕ → Option Duty
  pub protocol_fee_recipient : Option Bytes
  pub vouch_registry : Option Registry
  pub payload_attributes : Bytes → Option PayloadAttributes
  pub block_builders_cache : Bytes → Option BuilderStatus
  pub ff_disable_low_prio_builders : Bool

unfoldable pub is_vouch : RelayApi → Bytes → Bool
is_vouch api pk = elim api.vouch_registry [ none ↦ false | some r ↦ is_vouch_pubkey r pk ]

unfoldable pub is_protocol_recipient : RelayApi → Bytes → Bool
is_protocol_recipient api addr = elim api.protocol_fee_recipient [
  | none ↦ false
  | some protocol ↦ bytes_eq protocol addr
]

-- Enforcement needs both the protocol's address and the registry.
unfoldable pub enforced : Option Bytes → Option Registry → Bool
enforced none r = false
enforced (some p) none = false
enforced (some p) (some r) = true

unfoldable pub check_protocol_fee_recipient : RelayApi → Bytes → Bytes → Bool
check_protocol_fee_recipient api pk addr =
    if not (enforced api.protocol_fee_recipient api.vouch_registry)
    then true
    else if not (is_vouch api pk)
    then true
    else is_protocol_recipient api addr

-- `strings.EqualFold` of ASCII texts
abbrev pub equal_fold : Bytes → Bytes → Bool
equal_fold a b = bytes_eq (to_lower a) (to_lower b)

unfoldable pub check_duty : RelayApi → BidTrace → Option Duty → Checked ℕ
check_duty api bid none = rejected 400 (codes "could not find slot duty")
check_duty api bid (some d) =
    if not (equal_fold d.fee_recipient bid.proposer_fee_recipient)
    then rejected 400 (codes "fee recipient does not match")
    else if not (check_protocol_fee_recipient api d.pubkey d.fee_recipient)
    then rejected 400 (codes "fee recipient not allowed")
    else passed d.gas_limit

unfoldable pub check_submission_fee_recipient : RelayApi → BidTrace → Checked ℕ
check_submission_fee_recipient api bid = check_duty api bid (api.proposer_duties_map bid.slot)

abbrev pub get_payload_attributes_key : Bytes → ℕ → Bytes
get_payload_attributes_key parent_hash slot = parent_hash ++ codes "-" ++ format slot

module _ {Withdrawal : Type 0} (withdrawals_root_of : List Withdrawal → Option Bytes) where
  -- nil withdrawals have no root
  abbrev pub compute_withdrawals_root : Option (List Withdrawal) → Option Bytes
  compute_withdrawals_root none = none
  compute_withdrawals_root (some ws) = withdrawals_root_of ws

  unfoldable pub check_withdrawals : PayloadAttributes → Option Bytes → Checked PayloadAttributes
  check_withdrawals attrs none = rejected 400 (codes "could not compute withdrawals root")
  check_withdrawals attrs (some root) =
      if not (bytes_eq root attrs.withdrawals_root)
      then rejected 400 (codes "incorrect withdrawals root")
      else passed attrs

  unfoldable pub check_attributes :
      RelayApi
      → BlockSubmissionInfo Withdrawal
      → Option PayloadAttributes
      → Checked PayloadAttributes
  check_attributes api s none = rejected 400 (codes "payload attributes not (yet) known")
  check_attributes api s (some attrs) =
      if not (s.bid_trace.slot == attrs.slot)
      then rejected 400 (codes "payload attributes not (yet) known")
      else if not (bytes_eq s.prev_randao attrs.prev_randao)
      then rejected 400 (codes "incorrect prev_randao")
      else if has_reached_fork s.bid_trace.slot api.forks.capella_epoch
      then check_withdrawals attrs (compute_withdrawals_root s.withdrawals)
      else passed attrs

  unfoldable pub check_submission_payload_attrs :
      RelayApi → BlockSubmissionInfo Withdrawal → Checked PayloadAttributes
  check_submission_payload_attrs api s =
      check_attributes api s (
        api.payload_attributes
          (get_payload_attributes_key s.bid_trace.parent_hash s.bid_trace.slot))

-- 12 seconds to a slot, in uint64
abbrev pub expected_timestamp : RelayApi → ℕ → ℕ
expected_timestamp api slot = (api.genesis_time + slot * 12) % 2 ^ 64

unfoldable pub check_submission_slot_details :
    {Withdrawal : Type 0}
    → RelayApi
    → ℕ
    → BlindedBlockFields
    → BlockSubmissionInfo Withdrawal
    → Checked Unit
check_submission_slot_details api head_slot payload s =
    if is_fulu api.forks s.bid_trace.slot && not payload.has_fulu
    then rejected 400 (codes "not fulu payload")
    else if is_electra api.forks s.bid_trace.slot && not payload.has_electra
    then rejected 400 (codes "not electra payload")
    else if is_deneb api.forks s.bid_trace.slot && not payload.has_deneb
    then rejected 400 (codes "not deneb payload")
    else if is_capella api.forks s.bid_trace.slot && not payload.has_capella
    then rejected 400 (codes "not capella payload")
    else if leb s.bid_trace.slot head_slot
    then rejected 400 (codes "submission for past slot")
    else if not (s.timestamp == expected_timestamp api s.bid_trace.slot)
    then rejected 400 (codes "incorrect timestamp")
    else passed tt

-- A builder that is not in the cache has low priority and no privilege.
abbrev pub unknown_builder : BuilderStatus
unknown_builder = record { is_high_prio = false; is_optimistic = false; is_blacklisted = false }

abbrev pub cached : Option BuilderStatus → BuilderStatus
cached none = unknown_builder
cached (some b) = b

unfoldable pub check_builder_entry : RelayApi → Bytes → Checked BuilderStatus
check_builder_entry api pk =
    let b = cached (api.block_builders_cache pk) in
    if b.is_blacklisted
    then dropped
    else if api.ff_disable_low_prio_builders && not b.is_high_prio
    then dropped
    else passed b

listed-IsVouch :
    (r : Registry) (pks : List Bytes) (pk : Bytes)
    → member (to_lower pk) (map to_lower pks) ≡ true
    → is_vouch_pubkey (set_pubkeys r pks) pk ≡ true
unfolding is_vouch_pubkey set_pubkeys
listed-IsVouch r pks pk h = rw (member-add_lower (to_lower pk) pks [], h) refl

-- What a passed fee-recipient check says of the duty.
passed_duty :
    (api : RelayApi) (bid : BidTrace) (d : Duty) (gas : ℕ)
    → check_duty api bid (some d) ≡ passed gas
    → (equal_fold d.fee_recipient bid.proposer_fee_recipient ≡ true)
      × (check_protocol_fee_recipient api d.pubkey d.fee_recipient ≡ true)
      × (gas ≡ d.gas_limit)
unfolding check_duty
passed_duty api bid d gas h = ground arith

enforced_recipient :
    (api : RelayApi) (pk addr protocol : Bytes) (r : Registry)
    → api.protocol_fee_recipient ≡ some protocol
    → api.vouch_registry ≡ some r
    → is_vouch_pubkey r pk ≡ true
    → check_protocol_fee_recipient api pk addr ≡ true
    → protocol ≡ addr
unfolding check_protocol_fee_recipient is_vouch is_protocol_recipient enforced
enforced_recipient api pk addr protocol r p v known h = bytes_eq→eq protocol addr (
    sym (
      rw (check_protocol_fee_recipient, p, v, enforced, is_vouch, is_protocol_recipient, known)
        refl)
    ∙ h)

-- When the registry was set from keys among which, up to case, is the proposer's, and the protocol's
-- fee recipient is configured, then a submission that passes the fee-recipient check pays the
-- protocol's fee recipient, up to case, with the gas limit that the proposer registered.
pub vouch_pays_protocol :
    (api : RelayApi) (bid : BidTrace) (d : Duty) (r : Registry) (pks : List Bytes)
    (protocol : Bytes) (gas : ℕ)
    → api.proposer_duties_map bid.slot ≡ some d
    → api.protocol_fee_recipient ≡ some protocol
    → api.vouch_registry ≡ some (set_pubkeys r pks)
    → member (to_lower d.pubkey) (map to_lower pks) ≡ true
    → check_submission_fee_recipient api bid ≡ passed gas
    → (to_lower protocol ≡ to_lower bid.proposer_fee_recipient) × (gas ≡ d.gas_limit)
unfolding check_submission_fee_recipient
vouch_pays_protocol api bid d r pks protocol gas duty p v listed h =
    let (same, lock, limit) = passed_duty api bid d gas (sym (ap (check_duty api bid) duty) ∙ h) in
    let pays =
      enforced_recipient api d.pubkey d.fee_recipient protocol (set_pubkeys r pks) p v
        (listed-IsVouch r pks d.pubkey listed) lock in
    (ap to_lower pays ∙ bytes_eq→eq _ _ same, limit)
