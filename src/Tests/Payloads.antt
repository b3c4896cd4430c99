-- ===== src/Tests/Payloads.antt =====
-- Concrete bids, responses and decoders.
use mev_boost_relay.Prelude.{◌≡◌, refl, sym, ap, Option, none, some, [], ◌∷◌, Bytes, codes}
use mev_boost_relay.Common.{DataVersion, deneb, electra}
use mev_boost_relay.Api.Equal.{eq_blinded_block_contents_to_block_contents}
use mev_boost_relay.Payloads.{
  Made, made, SubmitBlockRequest, SignedBuilderBid, Signing, SignedProposal,
  build_get_header_response, build_get_payload_response,
  signed_blinded_beacon_block_to_beacon_block, deneb_unblind_signed_block,
}
use mev_boost_relay.Payloads.Offered.{offered-reveals}
use mev_boost_relay.Payloads.Unblinded.{blind, blind-beacon_block}
use mev_boost_relay.Payloads.Decoding.{Versioned, Encodings, nothing_set, application_octet_stream}
use mev_boost_relay.Payloads.Decoding.Request.{marshal_ssz, unmarshal_with_version}
use mev_boost_relay.Payloads.Decoding.Blinded
use mev_boost_relay.Payloads.Decoding.Trips.{unmarshal-marshal_ssz, unmarshal_json-never_electra}
use mev_boost_relay.Tests.Api.{plain, signed, revealed}

abbrev pub request : SubmitBlockRequest plain
request = record {
  version = deneb;
  value = made 5;
  execution_payload = codes "0x22";
  commitments = codes "0x0c" ∷ [];
  proofs = codes "0x0d" ∷ [];
  blobs = codes "0x0e" ∷ [];
  execution_requests = [];
}

abbrev pub signs : Signing plain
signs version bid = made (codes "0x55")

abbrev pub relay_key : Bytes
relay_key = codes "0x77"

abbrev pub offer : SignedBuilderBid plain
offer = record {
  version = deneb;
  message = record {
    header = codes "0x22";
    commitments = codes "0x0c" ∷ [];
    execution_requests = [];
    value = 5;
    pubkey = relay_key;
  };
  signature = codes "0x55";
}

offers : build_get_header_response plain (some signs) relay_key (some request) ≡ made offer
unfolding build_get_header_response
offers = refl

responds : build_get_payload_response plain request ≡ made revealed
unfolding build_get_payload_response
responds = refl

offered-reveals_example :
    (eq_blinded_block_contents_to_block_contents plain signed revealed ≡ none)
    × ((block : SignedProposal plain) × (signed_blinded_beacon_block_to_beacon_block plain signed
            revealed
          ≡ made block)
        × (block.execution_payload ≡ codes "0x22"))
offered-reveals_example =
    offered-reveals plain signs relay_key request offer revealed signed (codes "0x22") offers
      responds refl refl refl refl refl

unblinds :
    signed_blinded_beacon_block_to_beacon_block plain signed revealed
    ≡ made (deneb_unblind_signed_block plain signed revealed)
unfolding signed_blinded_beacon_block_to_beacon_block
unblinds = refl

blind-beacon_block_example :
    blind plain (deneb_unblind_signed_block plain signed revealed) (codes "0x22") ≡ signed
blind-beacon_block_example =
    blind-beacon_block plain signed revealed (deneb_unblind_signed_block plain signed revealed) refl
      unblinds

-- A struct is its own encoding.
abbrev verbatim_encode : DataVersion → Option Bytes → Option (Made Bytes)
verbatim_encode v none = none
verbatim_encode v (some a) = some (made a)

abbrev pub verbatim : Encodings Bytes
verbatim = record {
  ssz = record { encode = verbatim_encode; decode = λ v b. (b, none) };
  json = record { encode = verbatim_encode; decode = λ v b. (b, none) };
}

made_inv : (a b : Bytes) → some (made a) ≡ some (made b) → a ≡ b
made_inv a b h = cc

abbrev sent_field : DataVersion → Option Bytes
sent_field electra = some (codes "body")
sent_field _ = none

abbrev sent : Versioned Bytes
sent = record { version = electra; field = sent_field }

marshals : marshal_ssz verbatim sent ≡ some (made (codes "body"))
unfolding marshal_ssz
marshals = refl

unmarshal-marshal_ssz_example :
    let back =
      unmarshal_with_version verbatim nothing_set
        (codes "body")
        application_octet_stream
        (codes "electra") in
    (back.1 ≡ none) × (back.0.version ≡ electra) × (back.0.field electra ≡ some (codes "body"))
unmarshal-marshal_ssz_example =
    unmarshal-marshal_ssz verbatim sent nothing_set (codes "body") (codes "body")
      (λ v a b h. ap (λ x. (x, none)) (sym (made_inv a b h))) refl marshals

unmarshal_json-never_electra_example :
    ¬ ((Blinded.unmarshal_json verbatim nothing_set (codes "{}")).0.version ≡ electra)
unmarshal_json-never_electra_example = unmarshal_json-never_electra verbatim (codes "{}") refl
