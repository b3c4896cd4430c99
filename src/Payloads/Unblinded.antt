-- ===== src/Payloads/Unblinded.antt =====
-- The block that is published is the one that the proposer signed: taking the payload out of it
-- again gives the blinded block back.
use mev_boost_relay.Prelude.{◌≡◌, refl, sym, ap, subst, [], arith}
use mev_boost_relay.Common.{
  DataVersion, unknown, phase0, altair, bellatrix, capella, deneb, electra, fulu,
}
use mev_boost_relay.Api.Equal.{Roots, BlockBody, BlindedBlock, Revealed}
use mev_boost_relay.Payloads.{
  made, SignedProposal, with_blobs, unblind, signed_blinded_beacon_block_to_beacon_block,
  capella_unblind_signed_block, deneb_unblind_signed_block, electra_unblind_signed_block,
  fulu_unblind_signed_block,
}

module _ (R : Roots) where
  -- The block with a header in place of its payload.
  abbrev pub blind : SignedProposal R → R.Header → BlindedBlock R
  blind block h = record {
    version = block.version;
    slot = block.slot;
    proposer_index = block.proposer_index;
    parent_root = block.parent_root;
    state_root = block.state_root;
    body = block.body;
    header = h;
    signature = block.signature;
  }

  -- A body has only what its version has.
  abbrev pub IsBodyOf : DataVersion → BlockBody → Type 0
  IsBodyOf capella b = (b.commitments ≡ []) × (b.execution_requests ≡ [])
  IsBodyOf deneb b = b.execution_requests ≡ []
  IsBodyOf _ b = Unit

  with_blobs_inv :
      (bb : BlindedBlock R) (r : Revealed R) (x block : SignedProposal R)
      → with_blobs R bb r x ≡ made block
      → x ≡ block
  unfolding with_blobs
  with_blobs_inv bb r x block h = ground arith

  with_version :
      (bb : BlindedBlock R) (v : DataVersion) → bb.version ≡ v → record bb { version = v } ≡ bb
  with_version bb v q = ap (λ w. record bb { version = w }) (sym q)

  with_body :
      (bb : BlindedBlock R) (v : DataVersion) (b : BlockBody)
      → v ≡ bb.version
      → b ≡ bb.body
      → record bb { version = v; body = b } ≡ bb
  with_body bb v b q e = λ i. record bb { version = q i; body = e i }

  made_inv : (x block : SignedProposal R) → made x ≡ made block → x ≡ block
  made_inv x block h = cc

  blind-unblind :
      (v : DataVersion) (bb : BlindedBlock R) (r : Revealed R) (block : SignedProposal R)
      → bb.version ≡ v
      → IsBodyOf v bb.body
      → unblind R v bb r ≡ made block
      → blind block bb.header ≡ bb
  unfolding unblind capella_unblind_signed_block deneb_unblind_signed_block
      electra_unblind_signed_block fulu_unblind_signed_block
  blind-unblind capella bb r block q b h =
      subst (λ x. blind x bb.header ≡ bb)
        (made_inv (capella_unblind_signed_block R bb r.payload) block h)
        (with_body bb capella (record (bb.body) { commitments = []; execution_requests = [] })
          (sym q)
          (λ i. record (bb.body) { commitments = sym b.0 i; execution_requests = sym b.1 i }))
  blind-unblind deneb bb r block q b h =
      subst (λ x. blind x bb.header ≡ bb)
        (with_blobs_inv bb r (deneb_unblind_signed_block R bb r) block h)
        (with_body bb deneb (record (bb.body) { execution_requests = [] }) (sym q)
          (λ i. record (bb.body) { execution_requests = sym b i }))
  blind-unblind electra bb r block q b h =
      subst (λ x. blind x bb.header ≡ bb)
        (with_blobs_inv bb r (electra_unblind_signed_block R bb r) block h)
        (with_version bb electra q)
  blind-unblind fulu bb r block q b h =
      subst (λ x. blind x bb.header ≡ bb)
        (with_blobs_inv bb r (fulu_unblind_signed_block R bb r) block h) (with_version bb fulu q)
  blind-unblind unknown bb r block q b h = absurd cc
  blind-unblind phase0 bb r block q b h = absurd cc
  blind-unblind altair bb r block q b h = absurd cc
  blind-unblind bellatrix bb r block q b h = absurd cc

  -- If a blinded block is completed to a block, then that block, with the header in place of its
  -- payload, is the blinded block: slot, proposer, roots, body and signature are kept. It is assumed
  -- that the body has only what its version has.
  pub blind-beacon_block :
      (bb : BlindedBlock R) (r : Revealed R) (block : SignedProposal R)
      → IsBodyOf bb.version bb.body
      → signed_blinded_beacon_block_to_beacon_block R bb r ≡ made block
      → blind block bb.header ≡ bb
  unfolding signed_blinded_beacon_block_to_beacon_block
  blind-beacon_block bb r block b h = blind-unblind bb.version bb r block refl b h
