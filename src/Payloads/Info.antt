-- ===== src/Payloads/Info.antt =====
-- common/utils.go: `GetBlockSubmissionInfo`, which asks a submission for everything that the relay
-- reads of it. The getters are a library's: a parameter, what each gives for the submission.
use mev_boost_relay.Prelude.{ℕ, Option, List, [], Bytes, Bool, true, false}
use mev_boost_relay.Common.{DataVersion, deneb, electra, fulu, BidTrace}
use mev_boost_relay.Payloads.{Made, made, refused, ◌>>=◌}

-- `BlockSubmissionInfo`; withdrawals may be nil.
pub record BlockSubmissionInfo (Withdrawal : Type 0) : Type 0 where
  pub bid_trace : BidTrace
  pub signature : Bytes
  pub execution_payload_block_hash : Bytes
  pub execution_payload_parent_hash : Bytes
  pub gas_used : ℕ
  pub gas_limit : ℕ
  pub timestamp : ℕ
  pub transactions : List Bytes
  pub block_number : ℕ
  pub prev_randao : Bytes
  pub withdrawals : Option (List Withdrawal)
  pub blobs : List Bytes
  pub blob_gas_used : ℕ
  pub excess_blob_gas : ℕ
  pub deposit_requests : List Bytes
  pub withdrawal_requests : List Bytes
  pub consolidation_requests : List Bytes

-- What the getters give.
pub record Getters (Withdrawal : Type 0) : Type 0 where
  pub bid_trace : Made BidTrace
  pub signature : Made Bytes
  pub execution_payload_block_hash : Made Bytes
  pub execution_payload_parent_hash : Made Bytes
  pub gas_used : Made ℕ
  pub gas_limit : Made ℕ
  pub timestamp : Made ℕ
  pub transactions : Made (List Bytes)
  pub block_number : Made ℕ
  pub prev_randao : Made Bytes
  pub withdrawals : Made (Option (List Withdrawal))
  pub blobs : Made (List Bytes)
  pub blob_gas_used : Made ℕ
  pub excess_blob_gas : Made ℕ
  pub deposit_requests : Made (List Bytes)
  pub withdrawal_requests : Made (List Bytes)
  pub consolidation_requests : Made (List Bytes)

-- `Version >= DataVersionDeneb`, and the same for Electra.
abbrev pub since_deneb : DataVersion → Bool
since_deneb deneb = true
since_deneb electra = true
since_deneb fulu = true
since_deneb _ = false

abbrev pub since_electra : DataVersion → Bool
since_electra electra = true
since_electra fulu = true
since_electra _ = false

-- An error of a getter counts from a version on; before it the value is the zero value.
unfoldable pub counted : {A : Type 0} → Bool → A → Made A → Made A
counted b zero_value (made a) = made a
counted true zero_value (refused e) = refused e
counted false zero_value (refused e) = made zero_value

unfoldable pub get_block_submission_info :
    {Withdrawal : Type 0} → DataVersion → Getters Withdrawal → Made (BlockSubmissionInfo Withdrawal)
unfolding counted
get_block_submission_info version g = do
  bid_trace ← g.bid_trace
  signature ← g.signature
  block_hash ← g.execution_payload_block_hash
  parent_hash ← g.execution_payload_parent_hash
  gas_used ← g.gas_used
  gas_limit ← g.gas_limit
  timestamp ← g.timestamp
  txs ← g.transactions
  block_number ← g.block_number
  prev_randao ← g.prev_randao
  withdrawals ← g.withdrawals
  blobs ← counted (since_deneb version) [] g.blobs
  blob_gas_used ← counted (since_deneb version) 0 g.blob_gas_used
  excess_blob_gas ← counted (since_deneb version) 0 g.excess_blob_gas
  deposits ← counted (since_electra version) [] g.deposit_requests
  withdrawal_requests ← counted (since_electra version) [] g.withdrawal_requests
  consolidations ← counted (since_electra version) [] g.consolidation_requests
  made (record {
    bid_trace = bid_trace;
    signature = signature;
    execution_payload_block_hash = block_hash;
    execution_payload_parent_hash = parent_hash;
    gas_used = gas_used;
    gas_limit = gas_limit;
    timestamp = timestamp;
    transactions = txs;
    block_number = block_number;
    prev_randao = prev_randao;
    withdrawals = withdrawals;
    blobs = blobs;
    blob_gas_used = blob_gas_used;
    excess_blob_gas = excess_blob_gas;
    deposit_requests = deposits;
    withdrawal_requests = withdrawal_requests;
    consolidation_requests = consolidations;
  })
