-- ===== src/Payloads/Decoding.antt =====
-- common/types_spec.go: how the versioned requests and blocks are encoded and decoded, by the version
-- that a header names or, without one, by trying each. The encodings of each version are the
-- libraries': parameters. One type stands for the structs of all versions. A decoder also says what it has filled in when it fails.
pub mod Request
pub mod Proposal
pub mod Blinded
pub mod Trips
use mev_boost_relay.Prelude.{
  ◌≡◌, refl, ◌∙◌, ap, ◌⊎◌, inl, inr, Option, none, some, List, [], ◌∷◌, Bytes, codes, Bool, true,
  false, if◌then◌else◌, ◌==◌, bytes_eq, Bool-cases, Option-cases, arith,
}
use mev_boost_relay.Common.{
  DataVersion, version_number, unknown, phase0, altair, bellatrix, capella, deneb, electra, fulu,
}
use mev_boost_relay.Payloads.{Made, made, refused, err_invalid_version}

-- A versioned struct: its version and the fields that are not nil.
pub record Versioned (A : Type 0) : Type 0 where
  pub version : DataVersion
  pub field : DataVersion → Option A

-- An encoder may be given a nil field, on which it may panic: no result.
pub record Encoding (A : Type 0) : Type 0 where
  pub encode : DataVersion → Option A → Option (Made Bytes)
  pub decode : DataVersion → Bytes → A × Option Bytes

pub record Encodings (A : Type 0) : Type 0 where
  pub ssz : Encoding A
  pub json : Encoding A

abbrev pub application_octet_stream : Bytes
application_octet_stream = codes "application/octet-stream"

abbrev pub application_json : Bytes
application_json = codes "application/json"

abbrev pub err_invalid_fork_version : Bytes
err_invalid_fork_version = codes "invalid fork version"

abbrev pub err_invalid_content_type : Bytes
err_invalid_content_type = codes "invalid content type"

-- The versions that the decoders know by name.
unfoldable pub version_of_name : Bytes → Option DataVersion
version_of_name s =
    if bytes_eq s (codes "bellatrix")
    then some bellatrix
    else if bytes_eq s (codes "capella")
    then some capella
    else if bytes_eq s (codes "deneb")
    then some deneb
    else if bytes_eq s (codes "electra")
    then some electra
    else if bytes_eq s (codes "fulu")
    then some fulu
    else none

abbrev pub newest_first : List DataVersion
newest_first = fulu ∷ electra ∷ deneb ∷ capella ∷ []

module _ {A : Type 0} where
  abbrev pub nothing_set : Versioned A
  nothing_set = record { version = unknown; field = λ v. none }

  unfoldable pub set_field : Versioned A → DataVersion → A → Versioned A
  set_field r v a = record {
    version = v;
    field = λ w. if version_number w == version_number v then some a else r.field w;
  }

  unfoldable pub at_version :
      {B : Type 0}
      → (DataVersion → Option A → Option (Made B))
      → DataVersion
      → Versioned A
      → Option (Made B)
  at_version f capella r = f capella (r.field capella)
  at_version f deneb r = f deneb (r.field deneb)
  at_version f electra r = f electra (r.field electra)
  at_version f fulu r = f fulu (r.field fulu)
  at_version f _ r = some (refused err_invalid_version)

  -- The switch on the version of `MarshalSSZ`, `MarshalJSON` and `HashTreeRoot`.
  unfoldable pub by_version :
      {B : Type 0} → (DataVersion → Option A → Option (Made B)) → Versioned A → Option (Made B)
  unfolding at_version
  by_version f r = at_version f r.version r

  -- Version and field are set before the decoder runs, and stay when it fails.
  unfoldable pub decode_named :
      Encoding A → Versioned A → Bytes → Option DataVersion → Versioned A × Option Bytes
  decode_named c r input none = (r, some err_invalid_fork_version)
  decode_named c r input (some v) = (set_field r v (c.decode v input).0, (c.decode v input).1)

  -- The switch on the name of `UnmarshalSSZWithVersion` and `UnmarshalJSONWithVersion`.
  unfoldable pub decode_with_version :
      Encoding A → Versioned A → Bytes → Bytes → Versioned A × Option Bytes
  unfolding decode_named
  decode_with_version c r input name = decode_named c r input (version_of_name name)

  abbrev pub otherwise :
      Option Bytes
      → Versioned A × Option Bytes
      → Versioned A × Option Bytes
      → Versioned A × Option Bytes
  otherwise none accepted rest = accepted
  otherwise (some e) accepted rest = rest

  -- The first version whose decoder accepts; else the last decoder's error, and nothing is set.
  unfoldable pub decode_first :
      Encoding A
      → Versioned A
      → Bytes
      → Option Bytes
      → List DataVersion
      → Versioned A × Option Bytes
  decode_first c r input e [] = (r, e)
  decode_first c r input e (v ∷ vs) =
      otherwise (c.decode v input).1 (set_field r v (c.decode v input).0, none)
        (decode_first c r input (c.decode v input).1 vs)

  -- The chain of attempts of `UnmarshalSSZ` and `UnmarshalJSON`.
  unfoldable pub decode_newest : Encoding A → Versioned A → Bytes → Versioned A × Option Bytes
  unfolding decode_first
  decode_newest c r input = decode_first c r input none newest_first
