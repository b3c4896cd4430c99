-- ===== src/Payloads/Offered.antt =====
-- A proposer that signs the header which the relay offers can have the payload: what the relay
-- makes of one submission for getHeader and for getPayload fits together.
use mev_boost_relay.Prelude.{
  ℕ, ◌≡◌, refl, sym, ap, subst, ◌∙◌, ◌⊎◌, inl, inr, some, none, List, [], Bytes, length, ==_refl,
  arith,
}
use mev_boost_relay.Common.{
  DataVersion, unknown, phase0, altair, bellatrix, capella, deneb, electra, fulu,
}
use mev_boost_relay.Api.Equal.{
  Roots, BlindedBlock, Revealed, Matches, RootsMatch, eq_blinded_block_contents_to_block_contents,
  eq_blinded_iff,
}
use mev_boost_relay.Payloads.{
  Made, made, refused, ◌>>=◌, SubmitBlockRequest, BuilderBid, SignedBuilderBid, Signing,
  made_header, builder_bid, builder_block_request_to_signed_builder_bid, signed_bid_of,
  supported_bid, build_get_header_response, payload_response, build_get_payload_response,
  SignedProposal, with_blobs, unblind, signed_blinded_beacon_block_to_beacon_block,
  capella_unblind_signed_block, deneb_unblind_signed_block, electra_unblind_signed_block,
  fulu_unblind_signed_block, err_invalid_version,
}

>>=-eq-made :
    {A B : Type 0} (m : Made A) (f : A → Made B) {b : B}
    → (m >>= f) ≡ made b
    → (a : A) × (m ≡ made a) × (f a ≡ made b)
>>=-eq-made (made a) f h = (a, refl, h)
>>=-eq-made (refused e) f h = cc

module _ (R : Roots) where
  -- The commitments that go with a payload of a version.
  abbrev commitments_of : DataVersion → SubmitBlockRequest R → List Bytes
  commitments_of capella p = []
  commitments_of _ p = p.commitments

  -- A bid offers the payload's header, with its commitments.
  abbrev Offers : DataVersion → SubmitBlockRequest R → SignedBuilderBid R → Type 0
  Offers v p bid =
      (R.payload_to_header v p.execution_payload ≡ inr bid.message.header)
      × (bid.version ≡ v)
      × (bid.message.commitments ≡ commitments_of v p)

  made_header_inv : {A : Type 0} (x : Bytes ⊎ A) (a : A) → made_header x ≡ made a → x ≡ inr a
  made_header_inv (inl e) a h = cc
  made_header_inv (inr b) a h = cc

  -- Only the four versions have a bid, and it is of the header.
  builder_bid_inv :
      (v : DataVersion) (p : SubmitBlockRequest R) (h : R.Header) (value : ℕ) (pk : Bytes)
      (bid : BuilderBid R)
      → builder_bid R v p h value pk ≡ made bid
      → (bid.header ≡ h) × (bid.commitments ≡ commitments_of v p)
  unfolding builder_bid
  builder_bid_inv capella p h value pk bid e = ground arith
  builder_bid_inv deneb p h value pk bid e = ground arith
  builder_bid_inv electra p h value pk bid e = ground arith
  builder_bid_inv fulu p h value pk bid e = ground arith
  builder_bid_inv unknown p h value pk bid e = absurd cc
  builder_bid_inv phase0 p h value pk bid e = absurd cc
  builder_bid_inv altair p h value pk bid e = absurd cc
  builder_bid_inv bellatrix p h value pk bid e = absurd cc

  signed_bid_inv :
      (sign : Signing R) (pk : Bytes) (p : SubmitBlockRequest R) (bid : SignedBuilderBid R)
      → signed_bid_of R sign pk p.version p ≡ made bid
      → Offers p.version p bid
  unfolding signed_bid_of builder_block_request_to_signed_builder_bid
  signed_bid_inv sign pk p bid e =
      let (h, header, rest) =
        >>=-eq-made (made_header (R.payload_to_header p.version p.execution_payload)) _ e in
      let (signed, s, r) = >>=-eq-made _ _ rest in
      let (value, v, rest2) = >>=-eq-made p.value _ s in
      let (message, m, rest3) = >>=-eq-made (builder_bid R p.version p h value pk) _ rest2 in
      let (sig, g, last) = >>=-eq-made (sign p.version message) _ rest3 in
      let inv = builder_bid_inv p.version p h value pk message m in
      ground (
        arith,
        made_header_inv (R.payload_to_header p.version p.execution_payload) h header,
        inv.0,
        inv.1,
      )

  supported_bid_inv :
      (sign : Signing R) (pk : Bytes) (v : DataVersion) (p : SubmitBlockRequest R)
      (bid : SignedBuilderBid R)
      → p.version ≡ v
      → supported_bid R sign pk v p ≡ made bid
      → Offers v p bid
  unfolding supported_bid
  supported_bid_inv sign pk capella p bid q e =
      subst (λ v. Offers v p bid) q
        (signed_bid_inv sign pk p bid (ap (λ v. signed_bid_of R sign pk v p) q ∙ e))
  supported_bid_inv sign pk deneb p bid q e =
      subst (λ v. Offers v p bid) q
        (signed_bid_inv sign pk p bid (ap (λ v. signed_bid_of R sign pk v p) q ∙ e))
  supported_bid_inv sign pk electra p bid q e =
      subst (λ v. Offers v p bid) q
        (signed_bid_inv sign pk p bid (ap (λ v. signed_bid_of R sign pk v p) q ∙ e))
  supported_bid_inv sign pk fulu p bid q e =
      subst (λ v. Offers v p bid) q
        (signed_bid_inv sign pk p bid (ap (λ v. signed_bid_of R sign pk v p) q ∙ e))
  supported_bid_inv sign pk unknown p bid q e = absurd cc
  supported_bid_inv sign pk phase0 p bid q e = absurd cc
  supported_bid_inv sign pk altair p bid q e = absurd cc
  supported_bid_inv sign pk bellatrix p bid q e = absurd cc

  abbrev blobs_of : DataVersion → SubmitBlockRequest R → List Bytes
  blobs_of capella p = []
  blobs_of _ p = p.blobs

  -- The response holds the submission's payload and bundle.
  abbrev Reveals : DataVersion → SubmitBlockRequest R → Revealed R → Type 0
  Reveals v p r =
      (r.version ≡ v)
      × (r.payload ≡ p.execution_payload)
      × (r.commitments ≡ commitments_of v p)
      × (r.blobs ≡ blobs_of v p)

  payload_response_inv :
      (e : Bytes) (v : DataVersion) (p : SubmitBlockRequest R) (r : Revealed R)
      → payload_response R e v p ≡ made r
      → Reveals v p r
  unfolding payload_response
  payload_response_inv e capella p r h = ground arith
  payload_response_inv e deneb p r h = ground arith
  payload_response_inv e electra p r h = ground arith
  payload_response_inv e fulu p r h = ground arith
  payload_response_inv e unknown p r h = absurd cc
  payload_response_inv e phase0 p r h = absurd cc
  payload_response_inv e altair p r h = absurd cc
  payload_response_inv e bellatrix p r h = absurd cc

  -- A block of the offered header, for one of the versions that have a response.
  module _ (p : SubmitBlockRequest R) (r : Revealed R) (bb : BlindedBlock R)
      (bid : SignedBuilderBid R) (root : Bytes) where
    roots_match :
        (v : DataVersion)
        → Offers v p bid
        → Reveals v p r
        → bb.header ≡ bid.message.header
        → R.header_root bid.message.header ≡ inr root
        → RootsMatch R v bb r
    roots_match v o s signs hashes = (
      bid.message.header,
      root,
      ap (R.payload_to_header v) (s.1) ∙ o.0,
      ap R.header_root signs ∙ hashes,
      hashes,
    )

    matches :
        (e : Bytes) (v : DataVersion)
        → payload_response R e v p ≡ made r
        → RootsMatch R v bb r
        → bb.body.commitments ≡ r.commitments
        → Matches R v bb r
    unfolding payload_response
    matches e capella h m c = m
    matches e deneb h m c = (m, c)
    matches e electra h m c = (m, c)
    matches e fulu h m c = (m, c)
    matches e unknown h m c = absurd cc
    matches e phase0 h m c = absurd cc
    matches e altair h m c = absurd cc
    matches e bellatrix h m c = absurd cc

    with_blobs_made :
        (block : SignedProposal R)
        → length bb.body.commitments ≡ length r.blobs
        → with_blobs R bb r block ≡ made block
    unfolding with_blobs
    with_blobs_made block h = rw (h, ==_refl (length r.blobs)) refl

    unblinds :
        (e : Bytes) (v : DataVersion)
        → payload_response R e v p ≡ made r
        → length bb.body.commitments ≡ length r.blobs
        → (block : SignedProposal R) × (unblind R v bb r ≡ made block)
          × (block.execution_payload ≡ r.payload)
    unfolding unblind payload_response capella_unblind_signed_block deneb_unblind_signed_block
        electra_unblind_signed_block fulu_unblind_signed_block
    unblinds e capella h l = (capella_unblind_signed_block R bb r.payload, refl, refl)
    unblinds e deneb h l = (deneb_unblind_signed_block R bb r, with_blobs_made _ l, refl)
    unblinds e electra h l = (electra_unblind_signed_block R bb r, with_blobs_made _ l, refl)
    unblinds e fulu h l = (fulu_unblind_signed_block R bb r, with_blobs_made _ l, refl)
    unblinds e unknown h l = absurd cc
    unblinds e phase0 h l = absurd cc
    unblinds e altair h l = absurd cc
    unblinds e bellatrix h l = absurd cc

  same_count :
      (v : DataVersion) (p : SubmitBlockRequest R)
      → length p.commitments ≡ length p.blobs
      → length (commitments_of v p) ≡ length (blobs_of v p)
  same_count capella p h = refl
  same_count _ p h = h

  -- A block that signs the header which the relay offered for a submission, with the offered
  -- commitments, passes the comparison with the response that the relay made of the same submission,
  -- and is completed to a block with the submission's payload. It is assumed that the header has a
  -- root and that the submission has as many commitments as blobs.
  pub offered-reveals :
      (sign : Signing R) (pk : Bytes) (p : SubmitBlockRequest R) (bid : SignedBuilderBid R)
      (r : Revealed R) (bb : BlindedBlock R) (root : Bytes)
      → build_get_header_response R (some sign) pk (some p) ≡ made bid
      → build_get_payload_response R p ≡ made r
      → R.header_root bid.message.header ≡ inr root
      → length p.commitments ≡ length p.blobs
      → bb.version ≡ bid.version
      → bb.header ≡ bid.message.header
      → bb.body.commitments ≡ bid.message.commitments
      → (eq_blinded_block_contents_to_block_contents R bb r ≡ none)
        × ((block : SignedProposal R) × (signed_blinded_beacon_block_to_beacon_block R bb r
              ≡ made block)
            × (block.execution_payload ≡ p.execution_payload))
  unfolding build_get_header_response build_get_payload_response
      signed_blinded_beacon_block_to_beacon_block
  offered-reveals sign pk p bid r bb root offer response hashes count version header commitments =
      let o = supported_bid_inv sign pk p.version p bid refl offer in
      let s = payload_response_inv err_invalid_version p.version p r response in
      let same : bb.version ≡ p.version = version ∙ o.1 in
      let kzg : bb.body.commitments ≡ r.commitments = commitments ∙ o.2 ∙ sym (s.2) in
      let counts : length bb.body.commitments ≡ length r.blobs =
        ap length (commitments ∙ o.2) ∙ same_count p.version p count ∙ sym (ap length s.3) in
      let m =
        matches p r bb bid root err_invalid_version p.version response
          (roots_match p r bb bid root p.version o s header hashes) kzg in
      let (block, makes, holds) =
        unblinds p r bb bid root err_invalid_version p.version response counts in
      (
        (eq_blinded_iff R bb r).1 (same ∙ sym s.0, subst (λ v. Matches R v bb r) (sym same) m),
        (block, ap (λ v. unblind R v bb r) same ∙ makes, holds ∙ s.1),
      )
