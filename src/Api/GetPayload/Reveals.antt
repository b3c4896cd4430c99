-- ===== src/Api/GetPayload/Reveals.antt =====
-- A payload is revealed, and a block is published, only to a proposer that has earned it.
use mev_boost_relay.Prelude.{
  ℕ, ◌≡◌, refl, sym, ◌∙◌, ◌⊎◌, ap, subst, inl, inr, Option, none, some, Bytes, codes, Bool, true,
  false, Bool-cases,
}
use mev_boost_relay.Common.{
  DataVersion, unknown, phase0, altair, bellatrix, capella, deneb, electra, fulu,
}
use mev_boost_relay.Payloads.{
  Made, made, refused, SignedProposal, signed_blinded_beacon_block_to_beacon_block,
}
use mev_boost_relay.Payloads.Decoding.{Versioned, nothing_set}
use mev_boost_relay.Payloads.Decoding.Blinded.{unmarshal}
use mev_boost_relay.Api.Equal.{
  Roots, Revealed, EqError, Matches, eq_blinded_block_contents_to_block_contents, eq_blinded_iff,
}
use mev_boost_relay.Api.Forks.{VersionError, check_payload_and_header_version}
use mev_boost_relay.Api.Submission.{RelayApi}
use mev_boost_relay.Api.Submit.{Stage, goes, ends, or_respond, fields_of}
use mev_boost_relay.Api.Submit.Sound.{with_goes}
use mev_boost_relay.Api.GetPayload.Stored.{Holds, or_else_inv, get_response-Holds}
use mev_boost_relay.Api.GetPayload.Deferred.{saved_alike}
use mev_boost_relay.Api.GetPayload.{
  Lookup, found, missing, failed, get_get_payload_response, load_twice, deliver_response,
  HandleGetPayloadVersion, v1, v2, Asked, World, Signed, or_say, read_body, unmarshalled,
  version_checked, known_pubkey, signature_checked, check_proposer_index, check_proposer_signature,
  ms_into, decode_signed, load_twice, deliver_response, delivery_refusal, is_too_late, is_accepted,
  publish_and_answer, unblind_and_publish, compare_and_publish, deliver_in_time, deliver_once,
  deliver_loaded, deliver_signed, inner_handle_get_payload,
}

module _ {R : Roots} {A : Type 0} (api : RelayApi) (cutoff_ms : ℕ) (world : World R A)
    (q : Asked) where
  -- The block has the signature of the known proposer of its index, for its own version, which is the
  -- fork of its slot.
  pub record IsSignedBy (s : Signed A) : Type 0 where
    pub slot_is : world.slot_of s.payload ≡ made s.slot
    pub version_fits :
        check_payload_and_header_version api.forks
          (fields_of s.payload)
          s.slot
          q.eth_consensus_version
        ≡ none
    pub hash_is : world.block_hash_of s.payload ≡ made s.block_hash
    pub index : ℕ
    pub index_is : world.proposer_index_of s.payload ≡ made index
    pub proposer_is : world.known_validator_pubkey_by_index index ≡ some s.proposer_pubkey
    pub pubkey : Bytes
    pub pubkey_is : world.to_pubkey s.proposer_pubkey ≡ made pubkey
    pub signed : world.verify_block_signature s.payload.version s.payload pubkey ≡ made true

  or_say_inv :
      {B : Type 0} (m : Bytes) (x : Made B) (b : B)
      → or_say api cutoff_ms world q m x ≡ goes b
      → x ≡ made b
  or_say_inv m (made c) b h = cc
  or_say_inv m (refused e) b h = cc

  version_checked_inv :
      (x : Option VersionError) → version_checked api cutoff_ms world q x ≡ goes tt → x ≡ none
  version_checked_inv none h = refl
  version_checked_inv (some e) h = absurd cc

  known_pubkey_inv :
      (x : Option Bytes) (pk : Bytes) → known_pubkey api cutoff_ms world q x ≡ goes pk → x ≡ some pk
  known_pubkey_inv none pk h = absurd cc
  known_pubkey_inv (some k) pk h = cc

  signature_checked_inv :
      (x : Made Bool) → signature_checked api cutoff_ms world q x ≡ goes tt → x ≡ made true
  signature_checked_inv (made true) h = refl
  signature_checked_inv (made false) h = absurd cc
  signature_checked_inv (refused e) h = absurd cc

  verified :
      (v : DataVersion) (payload : Versioned A) (pk : Bytes)
      → check_proposer_signature api cutoff_ms world q v payload pk ≡ made true
      → world.verify_block_signature v payload pk ≡ made true
  unfolding check_proposer_signature
  verified capella payload pk h = h
  verified deneb payload pk h = h
  verified electra payload pk h = h
  verified fulu payload pk h = h
  verified unknown payload pk h = absurd cc
  verified phase0 payload pk h = absurd cc
  verified altair payload pk h = absurd cc
  verified bellatrix payload pk h = absurd cc

  goes_inj : {B : Type 0} (a b : B) → goes a ≡ goes b → a ≡ b
  goes_inj a b h = cc

  decode_signed-IsSignedBy :
      (s : Signed A) → decode_signed api cutoff_ms world q ≡ goes s → IsSignedBy s
  unfolding decode_signed
  decode_signed-IsSignedBy s h =
      with_goes (or_respond 415 q.content_type) _ h (λ content_type typed h1.
        with_goes (read_body api cutoff_ms world q q.body) _ h1 (λ body reads h2.
          with_goes
            (or_say api cutoff_ms world q (codes "failed to decode payload") (
              unmarshalled api cutoff_ms world q
                (unmarshal world.encodings nothing_set body content_type q.eth_consensus_version)))
            _ h2
            (λ payload decodes h3.
              with_goes
                (or_say api cutoff_ms world q (codes "failed to get payload slot")
                  (world.slot_of payload))
                _ h3
                (λ slot slots h4.
                  with_goes
                    (version_checked api cutoff_ms world q (
                      check_payload_and_header_version api.forks (fields_of payload) slot
                        q.eth_consensus_version))
                    _ h4
                    (λ u1 versions h5.
                      with_goes
                        (or_say api cutoff_ms world q (codes "failed to get payload block hash")
                          (world.block_hash_of payload))
                        _ h5
                        (λ block_hash hashes h6.
                          with_goes
                            (or_say api cutoff_ms world q
                              (codes "failed to get payload proposer index")
                              (world.proposer_index_of payload))
                            _ h6
                            (λ index indices h7.
                              with_goes
                                (check_proposer_index api cutoff_ms world q
                                  (api.proposer_duties_map slot) index)
                                _ h7
                                (λ u2 duty h8.
                                  with_goes
                                    (known_pubkey api cutoff_ms world q
                                      (world.known_validator_pubkey_by_index index))
                                    _ h8
                                    (λ pubkey known h9.
                                      with_goes
                                        (or_say api cutoff_ms world q
                                          (codes "could not convert pubkey to phase0.BLSPubKey")
                                          (world.to_pubkey pubkey))
                                        _ h9
                                        (λ pk keys h10.
                                          with_goes
                                            (signature_checked api cutoff_ms world q (
                                              check_proposer_signature api cutoff_ms world q
                                                payload.version payload pk))
                                            _ h10
                                            (λ u3 signs h11.
                                              let all : IsSignedBy (record {
                                                payload = payload;
                                                slot = slot;
                                                block_hash = block_hash;
                                                proposer_pubkey = pubkey;
                                                ms_into_slot = ms_into api cutoff_ms world q slot;
                                              }) =
                                                record {
                                                  slot_is =
                                                      or_say_inv
                                                        (codes "failed to get payload slot")
                                                        (world.slot_of payload) slot slots;
                                                  version_fits =
                                                      version_checked_inv
                                                        (check_payload_and_header_version api.forks
                                                          (fields_of payload) slot
                                                          q.eth_consensus_version)
                                                        versions;
                                                  hash_is =
                                                      or_say_inv
                                                        (codes "failed to get payload block hash")
                                                        (world.block_hash_of payload) block_hash
                                                        hashes;
                                                  index = index;
                                                  index_is =
                                                      or_say_inv
                                                        (codes
                                                          "failed to get payload proposer index")
                                                        (world.proposer_index_of payload) index
                                                        indices;
                                                  proposer_is =
                                                      known_pubkey_inv
                                                        (world.known_validator_pubkey_by_index
                                                          index)
                                                        pubkey known;
                                                  pubkey = pk;
                                                  pubkey_is =
                                                      or_say_inv
                                                        (codes
                                                          "could not convert pubkey to phase0.BLSPubKey")
                                                        (world.to_pubkey pubkey) pk keys;
                                                  signed = verified payload.version payload pk (
                                                      signature_checked_inv
                                                        (check_proposer_signature api cutoff_ms
                                                          world q payload.version payload pk)
                                                        signs);
                                                } in
                                              subst IsSignedBy (goes_inj _ s h11) all)))))))))))

  -- What has to be for a block to be published.
  pub record IsEarned (block : SignedProposal R) : Type 0 where
    pub request : Signed A
    pub decodes : decode_signed api cutoff_ms world q ≡ goes request
    pub signed : IsSignedBy request
    pub response : Revealed R
    pub stored :
        Holds world.first request.slot request.proposer_pubkey request.block_hash response
        ⊎ Holds world.second request.slot request.proposer_pubkey request.block_hash response
    pub is_not_refused :
        delivery_refusal api cutoff_ms world q (world.check_and_set request.slot request.block_hash)
        ≡ none
    pub marked :
        (inner_handle_get_payload api cutoff_ms world q).marked
        ≡ some (request.slot, request.block_hash)
    pub is_in_time : is_too_late api cutoff_ms world q request.ms_into_slot ≡ false
    pub versions_agree : (world.block_of request.payload).version ≡ response.version
    pub matches :
        Matches R (world.block_of request.payload).version (world.block_of request.payload) response
    pub unblinds :
        signed_blinded_beacon_block_to_beacon_block R (world.block_of request.payload) response
        ≡ made block

  publish_inv :
      (v : HandleGetPayloadVersion) (r : Revealed R) (x block : SignedProposal R)
      → (publish_and_answer api cutoff_ms world q v r x).published ≡ some block
      → x ≡ block
  unfolding publish_and_answer
  publish_inv v1 r x block =
      elim (Bool-cases (is_accepted api cutoff_ms world q (world.publish x))) [
        | inl accepted ↦ rw accepted (λ h. cc)
        | inr refusal ↦ rw refusal (λ h. cc)
      ]
  publish_inv v2 r x block = λ h. cc

  unblind_inv :
      (r : Revealed R) (x : Made (SignedProposal R)) (block : SignedProposal R)
      → (unblind_and_publish api cutoff_ms world q r x).published ≡ some block
      → x ≡ made block
  unfolding unblind_and_publish
  unblind_inv r (refused e) block h = absurd cc
  unblind_inv r (made x) block h = ap made (publish_inv q.version r x block h)

  module _ (s : Signed A) (r : Revealed R) (block : SignedProposal R) where
    abbrev Fits : Type 0
    Fits =
        (eq_blinded_block_contents_to_block_contents R (world.block_of s.payload) r ≡ none)
        × (signed_blinded_beacon_block_to_beacon_block R (world.block_of s.payload) r ≡ made block)

    compare_inv :
        (e : Option EqError)
        → (compare_and_publish api cutoff_ms world q s r e).published ≡ some block
        → (e ≡ none)
          × (signed_blinded_beacon_block_to_beacon_block R (world.block_of s.payload) r
              ≡ made block)
    unfolding compare_and_publish
    compare_inv (some e) h = absurd cc
    compare_inv none h = (refl, unblind_inv r _ block h)

    in_time_inv :
        (deliver_in_time api cutoff_ms world q s r).published ≡ some block
        → (is_too_late api cutoff_ms world q s.ms_into_slot ≡ false) × Fits
    unfolding deliver_in_time
    in_time_inv = elim (Bool-cases (is_too_late api cutoff_ms world q s.ms_into_slot)) [
      | inl late ↦ rw late (λ h. absurd cc)
      | inr early ↦ rw early (λ h. (refl, compare_inv _ h))
    ]

    once_inv :
        (refusal : Option Bytes)
        → (deliver_once api cutoff_ms world q s r refusal).published ≡ some block
        → (refusal ≡ none) × (is_too_late api cutoff_ms world q s.ms_into_slot ≡ false) × Fits
    unfolding deliver_once
    once_inv (some e) h = absurd cc
    once_inv none h = let (early, fits) = in_time_inv h in (refl, early, fits)

  none_some : {P : Type 0} (block : SignedProposal R) → none ≡ some block → P
  none_some block h = absurd cc

  load_twice-Holds :
      (s : Signed A) (r : Revealed R)
      → load_twice api cutoff_ms world q s ≡ found r
      → Holds world.first s.slot s.proposer_pubkey s.block_hash r
        ⊎ Holds world.second s.slot s.proposer_pubkey s.block_hash r
  unfolding load_twice
  load_twice-Holds s r h =
      elim (or_else_inv (get_get_payload_response world.first s.slot s.proposer_pubkey s.block_hash)
        _ r h) [
          | inl one ↦
              inl (get_response-Holds world.first s.slot s.proposer_pubkey s.block_hash r one)
          | inr two ↦
              inr (get_response-Holds world.second s.slot s.proposer_pubkey s.block_hash r two)
        ]

  -- A block that a loaded payload publishes.
  abbrev pub Loaded : Signed A → SignedProposal R → Lookup (Revealed R) → Type 0
  Loaded s block x =
      (r : Revealed R) × (x ≡ found r)
      × ((deliver_response api cutoff_ms world q s x).marked ≡ some (s.slot, s.block_hash))
      × (delivery_refusal api cutoff_ms world q (world.check_and_set s.slot s.block_hash) ≡ none)
      × (is_too_late api cutoff_ms world q s.ms_into_slot ≡ false)
      × Fits s r block

  deliver_response-Loaded :
      (s : Signed A) (x : Lookup (Revealed R)) (block : SignedProposal R)
      → (deliver_response api cutoff_ms world q s x).published ≡ some block
      → Loaded s block x
  unfolding deliver_response deliver_loaded
  deliver_response-Loaded s missing block h =
      let same =
        (saved_alike api cutoff_ms world q s
          (world.get_bid_trace s.slot s.proposer_pubkey s.block_hash) missing _).0 in
      (none_some block (sym same ∙ h))
  deliver_response-Loaded s (failed e) block h =
      let same =
        (saved_alike api cutoff_ms world q s
          (world.get_bid_trace s.slot s.proposer_pubkey s.block_hash) (failed e) _).0 in
      (none_some block (sym same ∙ h))
  deliver_response-Loaded s (found r) block h =
      let same =
        saved_alike api cutoff_ms world q s
          (world.get_bid_trace s.slot s.proposer_pubkey s.block_hash) (found r) _ in
      let (free, early, fits) = once_inv s r block _ (sym same.0 ∙ h) in
      (r, refl, same.2, free, early, fits)

  deliver_signed-IsEarned :
      (x : Stage (Signed A)) (block : SignedProposal R)
      → decode_signed api cutoff_ms world q ≡ x
      → (deliver_signed api cutoff_ms world q x).published ≡ some block
      → IsEarned block
  unfolding deliver_signed inner_handle_get_payload
  deliver_signed-IsEarned (ends a) block d h = absurd cc
  deliver_signed-IsEarned (goes s) block d h =
      let (r, loads, marks, free, early, (eq, unblinds)) =
        deliver_response-Loaded s (load_twice api cutoff_ms world q s) block h in
      let same = (eq_blinded_iff R (world.block_of s.payload) r).0 eq in
      record {
        request = s;
        decodes = d;
        signed = decode_signed-IsSignedBy s d;
        response = r;
        stored = load_twice-Holds s r loads;
        is_not_refused = free;
        marked = rw d marks;
        is_in_time = early;
        versions_agree = same.0;
        matches = same.1;
        unblinds = unblinds;
      }

  -- A block that is given to the beacon nodes has been earned: the request's block has the signature
  -- of the known proposer of its index and the fork of its slot, one of the stores has the payload of
  -- its slot, proposer and block hash, Redis was asked to mark that slot and hash as delivered and has
  -- not refused it, the request came before the cutoff, the block's header and commitments are the
  -- payload's, and what is published is that block with the payload.
  pub published-IsEarned :
      (block : SignedProposal R)
      → (inner_handle_get_payload api cutoff_ms world q).published ≡ some block
      → IsEarned block
  unfolding inner_handle_get_payload
  published-IsEarned block h =
      deliver_signed-IsEarned (decode_signed api cutoff_ms world q) block refl h
