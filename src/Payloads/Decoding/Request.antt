-- ===== src/Payloads/Decoding/Request.antt =====
-- common/types_spec.go: the encodings of `VersionedSubmitBlockRequest`.
use mev_boost_relay.Prelude.{Option, none, some, Bytes, bytes_eq, if◌then◌else◌}
use mev_boost_relay.Common.{DataVersion}
use mev_boost_relay.Payloads.{Made}
use mev_boost_relay.Payloads.Decoding.{
  Versioned, Encodings, by_version, decode_with_version, decode_newest, application_octet_stream,
}

module _ {A : Type 0} (c : Encodings A) where
  unfoldable pub marshal_ssz : Versioned A → Option (Made Bytes)
  unfolding by_version
  marshal_ssz r = by_version c.ssz.encode r

  unfoldable pub unmarshal_ssz : Versioned A → Bytes → Versioned A × Option Bytes
  unfolding decode_newest
  unmarshal_ssz r input = decode_newest c.ssz r input

  -- The root of a field is a library's.
  unfoldable pub hash_tree_root :
      {Root : Type 0}
      → (DataVersion → Option A → Option (Made Root))
      → Versioned A
      → Option (Made Root)
  unfolding by_version
  hash_tree_root root r = by_version root r

  unfoldable pub marshal_json : Versioned A → Option (Made Bytes)
  unfolding by_version
  marshal_json r = by_version c.json.encode r

  unfoldable pub unmarshal_json : Versioned A → Bytes → Versioned A × Option Bytes
  unfolding decode_newest
  unmarshal_json r input = decode_newest c.json r input

  unfoldable pub unmarshal_ssz_with_version :
      Versioned A → Bytes → Bytes → Versioned A × Option Bytes
  unfolding decode_with_version
  unmarshal_ssz_with_version r input name = decode_with_version c.ssz r input name

  unfoldable pub unmarshal_json_with_version :
      Versioned A → Bytes → Bytes → Versioned A × Option Bytes
  unfolding decode_with_version
  unmarshal_json_with_version r input name = decode_with_version c.json r input name

  -- After the SSZ decoder fails the JSON one is tried: a builder may name the wrong content type.
  unfoldable pub json_instead :
      Versioned A × Option Bytes → Bytes → Bytes → Versioned A × Option Bytes
  unfolding unmarshal_json_with_version
  json_instead (r, none) input name = (r, none)
  json_instead (r, some e) input name = unmarshal_json_with_version r input name

  unfoldable pub unmarshal_with_version :
      Versioned A → Bytes → Bytes → Bytes → Versioned A × Option Bytes
  unfolding json_instead unmarshal_ssz_with_version
  unmarshal_with_version r input content_type name =
      if bytes_eq content_type application_octet_stream
      then json_instead (unmarshal_ssz_with_version r input name) input name
      else unmarshal_json_with_version r input name
