-- ===== src/Payloads/Decoding/Blinded.antt =====
-- common/types_spec.go: the encodings of `VersionedSignedBlindedBeaconBlock`.
use mev_boost_relay.Prelude.{Option, some, Bytes, bytes_eq, if◌then◌else◌}
use mev_boost_relay.Payloads.{Made}
use mev_boost_relay.Payloads.Decoding.{
  Versioned, Encodings, by_version, decode_with_version, decode_newest, application_octet_stream,
  application_json, err_invalid_content_type,
}

module _ {A : Type 0} (c : Encodings A) where
  unfoldable pub marshal_json : Versioned A → Option (Made Bytes)
  unfolding by_version
  marshal_json r = by_version c.json.encode r

  unfoldable pub unmarshal_json : Versioned A → Bytes → Versioned A × Option Bytes
  unfolding decode_newest
  unmarshal_json r input = decode_newest c.json r input

  unfoldable pub unmarshal_ssz_with_version :
      Versioned A → Bytes → Bytes → Versioned A × Option Bytes
  unfolding decode_with_version
  unmarshal_ssz_with_version r input name = decode_with_version c.ssz r input name

  unfoldable pub unmarshal_json_with_version :
      Versioned A → Bytes → Bytes → Versioned A × Option Bytes
  unfolding decode_with_version
  unmarshal_json_with_version r input name = decode_with_version c.json r input name

  unfoldable pub unmarshal : Versioned A → Bytes → Bytes → Bytes → Versioned A × Option Bytes
  unfolding unmarshal_ssz_with_version unmarshal_json_with_version
  unmarshal r input content_type name =
      if bytes_eq content_type application_octet_stream
      then unmarshal_ssz_with_version r input name
      else if bytes_eq content_type application_json
      then unmarshal_json_with_version r input name
      else (r, some err_invalid_content_type)
