-- ===== src/Payloads.antt =====
-- common/types_spec.go: what the relay makes of a submission, a signed bid for getHeader and the
-- response to getPayload, and the block that it publishes. The getter of a submission's value, the
-- header of a payload and the signature are made by the libraries: parameters, which may fail. A
-- submission has the field that its version names.
pub mod Offered
pub mod Unblinded
pub mod Decoding
pub mod Info
use mev_boost_relay.Prelude.{
  ℕ, ◌≡◌, ◌⊎◌, inl, inr, Option, none, some, List, [], Bytes, Bool, codes, length, ◌==◌,
  if◌then◌else◌,
}
use mev_boost_relay.Common.{
  DataVersion, unknown, phase0, altair, bellatrix, capella, deneb, electra, fulu,
}
use mev_boost_relay.Api.Equal.{Roots, BlockBody, BlindedBlock, Revealed}

-- A value or an error, as a text.
pub data Made (A : Type 0) : Type 0 where
  made : A → Made A
  refused : Bytes → Made A

infixl 5 ◌>>=◌
abbrev pub ◌>>=◌ : {A B : Type 0} → Made A → (A → Made B) → Made B
made a >>= f = f a
refused e >>= f = refused e

abbrev pub err_invalid_version : Bytes
err_invalid_version = codes "invalid version"

abbrev pub err_missing_request : Bytes
err_missing_request = codes "req is nil"

abbrev pub err_missing_secret_key : Bytes
err_missing_secret_key = codes "secret key is nil"

-- The parts of a `SubmitBlockRequest` that the relay reads as fields; Capella has no bundle, and
-- only Electra and Fulu have requests.
pub record SubmitBlockRequest (R : Roots) : Type 0 where
  pub version : DataVersion
  pub value : Made ℕ
  pub execution_payload : R.Payload
  pub commitments : List Bytes
  pub proofs : List Bytes
  pub blobs : List Bytes
  pub execution_requests : Bytes

-- The message of a bid: what the relay signs.
pub record BuilderBid (R : Roots) : Type 0 where
  pub header : R.Header
  pub commitments : List Bytes
  pub execution_requests : Bytes
  pub value : ℕ
  pub pubkey : Bytes

pub record SignedBuilderBid (R : Roots) : Type 0 where
  pub version : DataVersion
  pub message : BuilderBid R
  pub signature : Bytes

-- `ssz.SignMessage` for a domain, with the relay's key.
abbrev pub Signing : Roots → Type 0
Signing R = DataVersion → BuilderBid R → Made Bytes

abbrev pub made_header : {A : Type 0} → Bytes ⊎ A → Made A
made_header (inl e) = refused e
made_header (inr h) = made h

module _ (R : Roots) where
  -- `builderBid` of each version: Capella's has neither commitments nor requests, Deneb's no
  -- requests.
  unfoldable pub builder_bid :
      DataVersion → SubmitBlockRequest R → R.Header → ℕ → Bytes → Made (BuilderBid R)
  builder_bid capella p h v pk =
      made
        (record { header = h; commitments = []; execution_requests = []; value = v; pubkey = pk })
  builder_bid deneb p h v pk = made (record {
    header = h;
    commitments = p.commitments;
    execution_requests = [];
    value = v;
    pubkey = pk;
  })
  builder_bid electra p h v pk = made (record {
    header = h;
    commitments = p.commitments;
    execution_requests = p.execution_requests;
    value = v;
    pubkey = pk;
  })
  builder_bid fulu p h v pk = made (record {
    header = h;
    commitments = p.commitments;
    execution_requests = p.execution_requests;
    value = v;
    pubkey = pk;
  })
  builder_bid _ p h v pk = refused err_invalid_version

  unfoldable pub builder_block_request_to_signed_builder_bid :
      Signing R → Bytes → SubmitBlockRequest R → R.Header → Made (SignedBuilderBid R)
  unfolding builder_bid
  builder_block_request_to_signed_builder_bid sign pk p h = do
    v ← p.value
    bid ← builder_bid p.version p h v pk
    sig ← sign p.version bid
    made (record { version = p.version; message = bid; signature = sig })

  unfoldable pub signed_bid_of :
      Signing R → Bytes → DataVersion → SubmitBlockRequest R → Made (SignedBuilderBid R)
  unfolding builder_block_request_to_signed_builder_bid
  signed_bid_of sign pk version p = do
    h ← made_header (R.payload_to_header version p.execution_payload)
    bid ← builder_block_request_to_signed_builder_bid sign pk p h
    made (record bid { version = version })

  unfoldable pub supported_bid :
      Signing R → Bytes → DataVersion → SubmitBlockRequest R → Made (SignedBuilderBid R)
  unfolding signed_bid_of
  supported_bid sign pk capella p = signed_bid_of sign pk capella p
  supported_bid sign pk deneb p = signed_bid_of sign pk deneb p
  supported_bid sign pk electra p = signed_bid_of sign pk electra p
  supported_bid sign pk fulu p = signed_bid_of sign pk fulu p
  supported_bid sign pk _ p = refused err_invalid_version

  -- The request and the secret key may be nil.
  unfoldable pub build_get_header_response :
      Option (Signing R) → Bytes → Option (SubmitBlockRequest R) → Made (SignedBuilderBid R)
  unfolding supported_bid
  build_get_header_response sk pk none = refused err_missing_request
  build_get_header_response none pk (some p) = refused err_missing_secret_key
  build_get_header_response (some sign) pk (some p) = supported_bid sign pk p.version p

  -- Payload and bundle, or before Deneb the payload alone.
  abbrev pub with_bundle : DataVersion → SubmitBlockRequest R → Revealed R
  with_bundle version p = record {
    version = version;
    payload = p.execution_payload;
    commitments = p.commitments;
    proofs = p.proofs;
    blobs = p.blobs;
  }

  unfoldable pub payload_response : Bytes → DataVersion → SubmitBlockRequest R → Made (Revealed R)
  payload_response e capella p =
      made (record (with_bundle capella p) { commitments = []; proofs = []; blobs = [] })
  payload_response e deneb p = made (with_bundle deneb p)
  payload_response e electra p = made (with_bundle electra p)
  payload_response e fulu p = made (with_bundle fulu p)
  payload_response e _ p = refused e

  unfoldable pub build_get_payload_response : SubmitBlockRequest R → Made (Revealed R)
  unfolding payload_response
  build_get_payload_response p = payload_response err_invalid_version p.version p

  -- The same of common/utils.go, with another error.
  unfoldable pub get_block_submission_execution_payload : SubmitBlockRequest R → Made (Revealed R)
  unfolding payload_response
  get_block_submission_execution_payload p =
      payload_response (codes "invalid fork version") p.version p

  -- `VersionedSignedProposal`, the field that its version names.
  pub record SignedProposal : Type 0 where
    pub version : DataVersion
    pub slot : ℕ
    pub proposer_index : ℕ
    pub parent_root : Bytes
    pub state_root : Bytes
    pub body : BlockBody
    pub execution_payload : R.Payload
    pub signature : Bytes
    pub kzg_proofs : List Bytes
    pub blobs : List Bytes

  -- Field by field. Capella's body has neither commitments nor requests, and no contents go with it.
  unfoldable pub capella_unblind_signed_block : BlindedBlock R → R.Payload → SignedProposal
  capella_unblind_signed_block bb p = record {
    version = capella;
    slot = bb.slot;
    proposer_index = bb.proposer_index;
    parent_root = bb.parent_root;
    state_root = bb.state_root;
    body = record {
      randao_reveal = bb.body.randao_reveal;
      eth1_data = bb.body.eth1_data;
      graffiti = bb.body.graffiti;
      proposer_slashings = bb.body.proposer_slashings;
      attester_slashings = bb.body.attester_slashings;
      attestations = bb.body.attestations;
      deposits = bb.body.deposits;
      voluntary_exits = bb.body.voluntary_exits;
      sync_aggregate = bb.body.sync_aggregate;
      bls_to_execution_changes = bb.body.bls_to_execution_changes;
      commitments = [];
      execution_requests = [];
    };
    execution_payload = p;
    signature = bb.signature;
    kzg_proofs = [];
    blobs = [];
  }

  unfoldable pub deneb_unblind_signed_block : BlindedBlock R → Revealed R → SignedProposal
  unfolding capella_unblind_signed_block
  deneb_unblind_signed_block bb p =
      let base = capella_unblind_signed_block bb p.payload in
      record base {
        version = deneb;
        body = record (base.body) { commitments = bb.body.commitments };
        kzg_proofs = p.proofs;
        blobs = p.blobs;
      }

  unfoldable pub electra_unblind_signed_block : BlindedBlock R → Revealed R → SignedProposal
  unfolding deneb_unblind_signed_block
  electra_unblind_signed_block bb p =
      let base = deneb_unblind_signed_block bb p in
      record base {
        version = electra;
        body = record (base.body) { execution_requests = bb.body.execution_requests };
      }

  unfoldable pub fulu_unblind_signed_block : BlindedBlock R → Revealed R → SignedProposal
  unfolding electra_unblind_signed_block
  fulu_unblind_signed_block bb p = record (electra_unblind_signed_block bb p) { version = fulu }

  abbrev pub blobs_mismatch : Bytes
  blobs_mismatch = codes "number of blinded blobs does not match blobs bundle length"

  -- As many commitments in the block as blobs in the bundle.
  unfoldable pub with_blobs : BlindedBlock R → Revealed R → SignedProposal → Made SignedProposal
  with_blobs bb p block =
      if length bb.body.commitments == length p.blobs then made block else refused blobs_mismatch

  unfoldable pub unblind : DataVersion → BlindedBlock R → Revealed R → Made SignedProposal
  unfolding with_blobs
  unblind capella bb p = made (capella_unblind_signed_block bb p.payload)
  unblind deneb bb p = with_blobs bb p (deneb_unblind_signed_block bb p)
  unblind electra bb p = with_blobs bb p (electra_unblind_signed_block bb p)
  unblind fulu bb p = with_blobs bb p (fulu_unblind_signed_block bb p)
  unblind _ bb p = refused err_invalid_version

  unfoldable pub signed_blinded_beacon_block_to_beacon_block :
      BlindedBlock R → Revealed R → Made SignedProposal
  unfolding unblind
  signed_blinded_beacon_block_to_beacon_block bb p = unblind bb.version bb p
