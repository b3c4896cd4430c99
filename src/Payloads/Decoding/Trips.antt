-- ===== src/Payloads/Decoding/Trips.antt =====
-- What decoding gives back of what was encoded, by version.
use mev_boost_relay.Prelude.{
  ◌≡◌, refl, sym, ◌∙◌, ap, ◌≢◌, Option, none, some, [], ◌∷◌, Bytes, bytes_eq, bytes_eq_refl,
  ==_refl,
}
use mev_boost_relay.Common.{
  DataVersion, version_number, unknown, phase0, altair, bellatrix, capella, deneb, electra, fulu,
}
use mev_boost_relay.Api.Forks.{name_of}
use mev_boost_relay.Payloads.{Made, made}
use mev_boost_relay.Payloads.Decoding.{
  Versioned, Encoding, Encodings, version_of_name, nothing_set, set_field, at_version, by_version,
  decode_named, decode_with_version, decode_first, decode_newest, otherwise,
  application_octet_stream,
}
use mev_boost_relay.Payloads.Decoding.Request.{
  marshal_ssz, unmarshal_with_version, json_instead, unmarshal_ssz_with_version,
}
use mev_boost_relay.Payloads.Decoding.Blinded

-- A version that the encoders support.
abbrev pub IsSupported : DataVersion → Type 0
IsSupported capella = Unit
IsSupported deneb = Unit
IsSupported electra = Unit
IsSupported fulu = Unit
IsSupported _ = ⊥

version_of_name-name_of : (v : DataVersion) → IsSupported v → version_of_name (name_of v) ≡ some v
unfolding version_of_name bytes_eq
version_of_name-name_of capella h = refl
version_of_name-name_of deneb h = refl
version_of_name-name_of electra h = refl
version_of_name-name_of fulu h = refl
version_of_name-name_of unknown h = absurd h
version_of_name-name_of phase0 h = absurd h
version_of_name-name_of altair h = absurd h
version_of_name-name_of bellatrix h = absurd h

module _ {A : Type 0} where
  set_field-get : (r : Versioned A) (v : DataVersion) (a : A) → (set_field r v a).field v ≡ some a
  unfolding set_field
  set_field-get r v a = rw (==_refl (version_number v)) refl

  by_version-IsSupported :
      {B : Type 0} (f : DataVersion → Option A → Option (Made B)) (v : DataVersion)
      (r : Versioned A) (b : B)
      → at_version f v r ≡ some (made b)
      → IsSupported v × (f v (r.field v) ≡ some (made b))
  unfolding at_version
  by_version-IsSupported f capella r b h = (tt, h)
  by_version-IsSupported f deneb r b h = (tt, h)
  by_version-IsSupported f electra r b h = (tt, h)
  by_version-IsSupported f fulu r b h = (tt, h)
  by_version-IsSupported f unknown r b h = absurd cc
  by_version-IsSupported f phase0 r b h = absurd cc
  by_version-IsSupported f altair r b h = absurd cc
  by_version-IsSupported f bellatrix r b h = absurd cc

  -- The library decodes what it has encoded, without an error.
  abbrev pub RoundTrips : Encoding A → Type 0
  RoundTrips c =
      (v : DataVersion) (a : A) (b : Bytes)
      → c.encode v (some a) ≡ some (made b)
      → c.decode v b ≡ (a, none)

  decode_with_version_run :
      (c : Encoding A) (r : Versioned A) (v : DataVersion) (a : A) (b : Bytes)
      → IsSupported v
      → c.decode v b ≡ (a, none)
      → decode_with_version c r b (name_of v) ≡ (set_field r v a, none)
  unfolding decode_with_version decode_named
  decode_with_version_run c r v a b known h = rw (version_of_name-name_of v known, h) refl

  -- A submission whose own field is set and that encodes to SSZ is decoded again from the content type
  -- and the name of its version: version and field are the submission's, without an error. It is
  -- assumed that the library decodes what it encodes.
  pub unmarshal-marshal_ssz :
      (c : Encodings A) (r into : Versioned A) (a : A) (b : Bytes)
      → RoundTrips c.ssz
      → r.field r.version ≡ some a
      → marshal_ssz c r ≡ some (made b)
      → let back = unmarshal_with_version c into b application_octet_stream (name_of r.version) in
        (back.1 ≡ none) × (back.0.version ≡ r.version) × (back.0.field r.version ≡ some a)
  unfolding marshal_ssz by_version unmarshal_with_version unmarshal_ssz_with_version json_instead
      set_field
  unmarshal-marshal_ssz c r into a b trips set h =
      let (known, encoded) = by_version-IsSupported c.ssz.encode r.version r b h in
      let decoded =
        decode_with_version_run c.ssz into r.version a b known
          (trips r.version a b (ap (c.ssz.encode r.version) (sym set) ∙ encoded)) in
      rw (bytes_eq_refl application_octet_stream, decoded)
        (refl, refl, set_field-get into r.version a)

  -- Four attempts of which the first two have one outcome.
  attempts_version :
      (x y z : Option Bytes) (a b d g rest : Versioned A × Option Bytes) (v : DataVersion)
      → (otherwise x a (otherwise x b (otherwise y d (otherwise z g rest)))).0.version ≡ v
      → a.0.version ≢ v
      → d.0.version ≢ v
      → g.0.version ≢ v
      → rest.0.version ≡ v
  attempts_version none y z a b d g rest v h p q s = absurd (p h)
  attempts_version (some e) none z a b d g rest v h p q s = absurd (q h)
  attempts_version (some e) (some e2) none a b d g rest v h p q s = absurd (s h)
  attempts_version (some e) (some e2) (some e3) a b d g rest v h p q s = h

  -- The chain of attempts never gives Electra when Electra and Fulu have one decoder.
  decode_newest_version :
      (c : Encoding A) (r : Versioned A) (input : Bytes)
      → c.decode electra input ≡ c.decode fulu input
      → (decode_newest c r input).0.version ≡ electra
      → r.version ≡ electra
  unfolding decode_newest decode_first set_field
  decode_newest_version c r input same e =
      attempts_version (c.decode fulu input).1 (c.decode deneb input).1 (c.decode capella input).1 _
        _ _ _ _ electra
        (ap
            (λ x.
              (otherwise (c.decode fulu input).1 (set_field r fulu (c.decode fulu input).0, none)
                (otherwise x.1 (set_field r electra x.0, none)
                  (decode_first c r input x.1 (deneb ∷ capella ∷ [])))).0.version)
            (sym same)
          ∙ e)
        (λ q. absurd cc) (λ q. absurd cc) (λ q. absurd cc)

  -- A blinded block that is decoded from JSON without a version is never one of Electra, when the
  -- library has one decoder for Electra's and Fulu's, and none was decoded before.
  pub unmarshal_json-never_electra :
      (c : Encodings A) (input : Bytes)
      → c.json.decode electra input ≡ c.json.decode fulu input
      → ¬ ((Blinded.unmarshal_json c nothing_set input).0.version ≡ electra)
  unfolding Blinded.unmarshal_json
  unmarshal_json-never_electra c input same e =
      let q : unknown ≡ electra = decode_newest_version c.json nothing_set input same e in absurd cc
