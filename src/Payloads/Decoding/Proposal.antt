-- ===== src/Payloads/Decoding/Proposal.antt =====
-- common/types_spec.go: the encodings of `VersionedSignedProposal`.
use mev_boost_relay.Prelude.{Option, Bytes}
use mev_boost_relay.Payloads.{Made}
use mev_boost_relay.Payloads.Decoding.{Versioned, Encodings, by_version, decode_newest}

module _ {A : Type 0} (c : Encodings A) where
  unfoldable pub marshal_ssz : Versioned A → Option (Made Bytes)
  unfolding by_version
  marshal_ssz r = by_version c.ssz.encode r

  unfoldable pub unmarshal_ssz : Versioned A → Bytes → Versioned A × Option Bytes
  unfolding decode_newest
  unmarshal_ssz r input = decode_newest c.ssz r input

  unfoldable pub marshal_json : Versioned A → Option (Made Bytes)
  unfolding by_version
  marshal_json r = by_version c.json.encode r

  unfoldable pub unmarshal_json : Versioned A → Bytes → Versioned A × Option Bytes
  unfolding decode_newest
  unmarshal_json r input = decode_newest c.json r input
