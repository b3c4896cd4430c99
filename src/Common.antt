-- ===== src/Common.antt =====
-- The types of common/types.go and common/types_spec.go that several components share.
use mev_boost_relay.Prelude.{ℕ, Bytes}

-- `spec.DataVersion`, as the relay's switches name its values.
pub data DataVersion : Type 0 where
  unknown phase0 altair bellatrix capella deneb electra fulu : DataVersion

-- The versions in their order.
abbrev pub version_number : DataVersion → ℕ
version_number unknown = 0
version_number phase0 = 1
version_number altair = 2
version_number bellatrix = 3
version_number capella = 4
version_number deneb = 5
version_number electra = 6
version_number fulu = 7

pub DataVersion-discrete : Discrete DataVersion
DataVersion-discrete = hlevel

-- `builderApiV1.BidTrace`. Hashes and public keys are the texts that their `String` gives; `value`
-- is the number that the 256-bit integer stands for.
pub record BidTrace : Type 0 where
  pub slot : ℕ
  pub parent_hash : Bytes
  pub block_hash : Bytes
  pub builder_pubkey : Bytes
  pub proposer_pubkey : Bytes
  pub proposer_fee_recipient : Bytes
  pub gas_limit : ℕ
  pub gas_used : ℕ
  pub value : ℕ

-- `BidTraceV2WithBlobFields`
pub record BidTraceV2 : Type 0 where
  pub bid_trace : BidTrace
  pub open bid_trace use *
  pub block_number : ℕ
  pub num_tx : ℕ
  pub num_blobs : ℕ
  pub blob_gas_used : ℕ
  pub excess_blob_gas : ℕ
