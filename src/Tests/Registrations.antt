-- ===== src/Tests/Registrations.antt =====
-- Two registrations, one of a Vouch validator whose cached one is older, and one of another validator.
use mathlib.Core.List.{Memᴰ}
use mev_boost_relay.Prelude.{
  ◌==◌, ◌≡◌, refl, sym, subst, Option, none, some, List, [], ◌∷◌, map, Bytes, codes, bytes_eq, true,
  false, if◌then◌else◌, All,
}
use mev_boost_relay.Payloads.{made}
use mev_boost_relay.Api.Submit.{status, goes}
use mev_boost_relay.Api.Registrations.{
  Registration, Registrar, Sent, handle_register_validator, read_registrations, check_registration,
  keep, invalid_signature, decode_registrations, is_ssz,
}
use mev_boost_relay.Api.Registrations.Checked.{
  IsRegistrable, HasRegistration, converted, queued-IsRegistrable,
}
use mev_boost_relay.Api.Registrations.Queued.{
  with_room, IsSigned, bad_signature-answered_twice, registrable-queued,
}
use mev_boost_relay.Tests.Api.{api}

abbrev vouch_registration : Registration
vouch_registration = record {
  pubkey = codes "0xab01";
  fee_recipient = codes "0xFd";
  gas_limit = 36;
  timestamp = 1800;
  signature = codes "0x01";
}

abbrev other_registration : Registration
other_registration = record {
  pubkey = codes "0xb2";
  fee_recipient = codes "0xee";
  gas_limit = 36;
  timestamp = 1801;
  signature = codes "0x02";
}

abbrev older : Registration
older = record vouch_registration { gas_limit = 30; timestamp = 1700 }

abbrev both : List Registration
both = vouch_registration ∷ other_registration ∷ []

unfoldable cached_for : Bytes → Option Registration
cached_for pk = if bytes_eq pk (codes "0xab01") then some older else none

abbrev registrar : Registrar
registrar = record {
  now = 1805;
  local_registration = cached_for;
  redis_registration = λ pk. made none;
  is_known_validator = λ pk. true;
  canonical = λ r. r;
  unmarshal_ssz = λ body. made both;
  array_each = λ body. ([], none);
  verify_signature = λ r. made true;
  has_room = λ r. true;
  ff_continue_on_invalid_sig = false;
}

-- The second registration has an invalid signature.
abbrev strict : Registrar
strict = record registrar { verify_signature = λ r. made (r.timestamp == 1800) }

abbrev ssz : Bytes
ssz = codes "application/octet-stream"

abbrev request : Sent
request = record { content_length = 300; content_type = made ssz; body = made (codes "both") }

queues : (handle_register_validator api registrar request).queued ≡ both
unfolding handle_register_validator mev_boost_relay.Api.Registrations.finish_registrations
    mev_boost_relay.Api.Registrations.verify_registrations read_registrations
    mev_boost_relay.Api.Registrations.decode_registrations mev_boost_relay.Api.Registrations.is_ssz
    mev_boost_relay.Api.Registrations.process_registrations
    mev_boost_relay.Api.Registrations.process_validator_registrations_ssz
    mev_boost_relay.Api.Registrations.process_with mev_boost_relay.Api.Registrations.check_cached
    mev_boost_relay.Api.Registrations.check_known
    mev_boost_relay.Api.Registrations.get_cached_validator_registration bytes_eq check_registration
    cached_for mev_boost_relay.Api.Submission.check_protocol_fee_recipient
    mev_boost_relay.Api.Submission.enforced mev_boost_relay.Api.Submission.is_vouch
    mev_boost_relay.Api.Submission.is_protocol_recipient mev_boost_relay.Registry.is_vouch_pubkey
    mev_boost_relay.Registry.member mev_boost_relay.Registry.set_pubkeys
    mev_boost_relay.Registry.add_lower mev_boost_relay.Registry.add mev_boost_relay.Registry.lower
queues = refl

reads : read_registrations api strict request ≡ goes both
unfolding read_registrations mev_boost_relay.Api.Registrations.decode_registrations
    mev_boost_relay.Api.Registrations.is_ssz mev_boost_relay.Api.Registrations.process_registrations
    mev_boost_relay.Api.Registrations.process_validator_registrations_ssz
    mev_boost_relay.Api.Registrations.process_with mev_boost_relay.Api.Registrations.check_cached
    mev_boost_relay.Api.Registrations.check_known
    mev_boost_relay.Api.Registrations.get_cached_validator_registration bytes_eq check_registration
    cached_for mev_boost_relay.Api.Submission.check_protocol_fee_recipient
    mev_boost_relay.Api.Submission.enforced mev_boost_relay.Api.Submission.is_vouch
    mev_boost_relay.Api.Submission.is_protocol_recipient mev_boost_relay.Registry.is_vouch_pubkey
    mev_boost_relay.Registry.member mev_boost_relay.Registry.set_pubkeys
    mev_boost_relay.Registry.add_lower mev_boost_relay.Registry.add mev_boost_relay.Registry.lower
reads = refl

vouch_registration-IsRegistrable : IsRegistrable api registrar vouch_registration
unfolding mev_boost_relay.Api.Registrations.check_cached
    mev_boost_relay.Api.Registrations.check_known
    mev_boost_relay.Api.Registrations.get_cached_validator_registration bytes_eq cached_for
    mev_boost_relay.Api.Submission.check_protocol_fee_recipient
    mev_boost_relay.Api.Submission.enforced mev_boost_relay.Api.Submission.is_vouch
    mev_boost_relay.Api.Submission.is_protocol_recipient mev_boost_relay.Registry.is_vouch_pubkey
    mev_boost_relay.Registry.member mev_boost_relay.Registry.set_pubkeys
    mev_boost_relay.Registry.add_lower mev_boost_relay.Registry.add mev_boost_relay.Registry.lower
vouch_registration-IsRegistrable = record {
  not_early = refl;
  not_ahead = refl;
  pays = refl;
  replaces = (refl, refl);
  known = refl;
}

other_registration-IsRegistrable : IsRegistrable api registrar other_registration
unfolding mev_boost_relay.Api.Registrations.check_cached
    mev_boost_relay.Api.Registrations.check_known
    mev_boost_relay.Api.Registrations.get_cached_validator_registration bytes_eq cached_for
    mev_boost_relay.Api.Submission.check_protocol_fee_recipient
    mev_boost_relay.Api.Submission.enforced mev_boost_relay.Api.Submission.is_vouch
    mev_boost_relay.Api.Submission.is_protocol_recipient mev_boost_relay.Registry.is_vouch_pubkey
    mev_boost_relay.Registry.member mev_boost_relay.Registry.set_pubkeys
    mev_boost_relay.Registry.add_lower mev_boost_relay.Registry.add mev_boost_relay.Registry.lower
other_registration-IsRegistrable = record {
  not_early = refl;
  not_ahead = refl;
  pays = refl;
  replaces = tt;
  known = refl;
}

decodes : decode_registrations registrar (is_ssz ssz) (codes "both") ≡ made both
unfolding decode_registrations is_ssz bytes_eq
decodes = refl

is_signed : All (IsSigned registrar) (map (converted registrar (is_ssz ssz)) both)
unfolding is_ssz bytes_eq
is_signed = (refl, (refl, tt))

queued-IsRegistrable_example :
    ((r : Registration) × HasRegistration registrar request r vouch_registration
      × IsRegistrable api registrar r)
    × (registrar.verify_signature vouch_registration ≡ made true)
queued-IsRegistrable_example =
    queued-IsRegistrable api registrar request vouch_registration
      (subst (Memᴰ vouch_registration) (sym queues) (Memᴰ.head refl))

bad_signature-answered_twice_example :
    ((handle_register_validator api strict request).answers
      ≡ invalid_signature other_registration ∷ status 200 ∷ [])
    × ((handle_register_validator api strict request).queued ≡ vouch_registration ∷ [])
bad_signature-answered_twice_example =
    bad_signature-answered_twice api strict request (vouch_registration ∷ []) [] other_registration
      reads (refl, tt) refl refl

registrable-queued_example :
    ((handle_register_validator api registrar request).answers ≡ status 200 ∷ [])
    × ((handle_register_validator api registrar request).queued
        ≡ with_room registrar (map (converted registrar (is_ssz ssz)) both))
    × ((handle_register_validator api registrar request).notifies ≡ true)
registrable-queued_example =
    registrable-queued api registrar request ssz (codes "both") both refl refl refl decodes
      (vouch_registration-IsRegistrable, (other_registration-IsRegistrable, tt)) is_signed
