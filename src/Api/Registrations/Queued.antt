-- ===== src/Api/Registrations/Queued.antt =====
-- What a registration request is answered, and which registrations reach the database.
use mev_boost_relay.Prelude.{
  ◌==◌, ◌≡◌, refl, ap, Option, none, some, List, [], ◌∷◌, ◌++◌, map, Bytes, Bool, true, false, All,
}
use mev_boost_relay.Payloads.{Made, made, refused}
use mev_boost_relay.Api.Submission.{RelayApi}
use mev_boost_relay.Api.Submit.{Answer, status, goes}
use mev_boost_relay.Api.Registrations.{
  Registration, keep, Registrar, Sent, get_cached_validator_registration, check_known, check_cached,
  check_registration, process_with, process_validator_registrations_ssz,
  process_validator_registration_json, process_registrations, decode_registrations, is_ssz,
  read_registrations, send_to_channel, invalid_signature, verify_registrations,
  finish_registrations, handle_register_validator,
}
use mev_boost_relay.Api.Registrations.Checked.{Replaces, IsRegistrable, converted}

abbrev if_room : Bool → Registration → List Registration → List Registration
if_room true r rest = r ∷ rest
if_room false r rest = rest

-- The registrations for which the channel has room.
abbrev pub with_room : Registrar → List Registration → List Registration
with_room w [] = []
with_room w (r ∷ rs) = if_room (w.has_room r) r (with_room w rs)

abbrev pub IsSigned : Registrar → Registration → Type 0
IsSigned w r = w.verify_signature r ≡ made true

send_to_channel-room :
    (room : Bool) (r : Registration) (answers : List Answer) (queued : List Registration)
    → send_to_channel room r (answers, queued) ≡ (answers, if_room room r queued)
send_to_channel-room true r answers queued = refl
send_to_channel-room false r answers queued = refl

abbrev with_room_before : Registrar → List Registration → List Registration → List Registration
with_room_before w [] queued = queued
with_room_before w (r ∷ rs) queued = if_room (w.has_room r) r (with_room_before w rs queued)

with_room_before-nothing :
    (w : Registrar) (rs : List Registration) → with_room_before w rs [] ≡ with_room w rs
with_room_before-nothing w [] = refl
with_room_before-nothing w (r ∷ rs) = ap (if_room (w.has_room r) r) (with_room_before-nothing w rs)

verify-signed_first :
    (w : Registrar) (before rest : List Registration) (answers : List Answer)
    (queued : List Registration)
    → All (IsSigned w) before
    → verify_registrations w rest ≡ (answers, queued)
    → verify_registrations w (before ++ rest) ≡ (answers, with_room_before w before queued)
unfolding verify_registrations
verify-signed_first w [] rest answers queued signed h = h
verify-signed_first w (r ∷ before) rest answers queued (s, signed) h =
    rw (s, verify-signed_first w before rest answers queued signed h)
      (send_to_channel-room (w.has_room r) r answers (with_room_before w before queued))

verify-unsigned :
    (w : Registrar) (r : Registration) (rest : List Registration)
    → w.verify_signature r ≡ made false
    → w.ff_continue_on_invalid_sig ≡ false
    → verify_registrations w (r ∷ rest) ≡ (invalid_signature r ∷ [], [])
unfolding verify_registrations
verify-unsigned w r rest h k = rw (h, k) refl

-- When the registrations to verify are some with valid signatures and then one with an invalid one, and the
-- relay does not go on after it, the request is answered twice: with 400 and then with 200. The ones
-- before it are put into the channel as far as there is room, and none after it.
pub bad_signature-answered_twice :
    (api : RelayApi) (w : Registrar) (q : Sent) (before after : List Registration)
    (r : Registration)
    → read_registrations api w q ≡ goes (before ++ r ∷ after)
    → All (IsSigned w) before
    → w.verify_signature r ≡ made false
    → w.ff_continue_on_invalid_sig ≡ false
    → ((handle_register_validator api w q).answers ≡ invalid_signature r ∷ status 200 ∷ [])
      × ((handle_register_validator api w q).queued ≡ with_room w before)
unfolding handle_register_validator finish_registrations
bad_signature-answered_twice api w q before after r reads signed h k =
    let verifies =
      verify-signed_first w before (r ∷ after) _ [] signed (verify-unsigned w r after h k) in
    rw (reads, verifies) (refl, with_room_before-nothing w before)

Replaces-kept :
    (w : Registrar) (r : Registration) (cached : Made (Option Registration))
    → Replaces r cached
    → w.is_known_validator r.pubkey ≡ true
    → check_cached w r cached ≡ keep
unfolding check_cached check_known
Replaces-kept w r (made none) c k = rw k refl
Replaces-kept w r (refused e) c k = rw k refl
Replaces-kept w r (made (some cached)) (changed, newer) k = rw (changed, newer, k) refl

registrable-kept :
    (api : RelayApi) (w : Registrar) (r : Registration)
    → IsRegistrable api w r
    → check_registration api w r ≡ keep
unfolding check_registration
registrable-kept api w r c =
    rw (c.not_early, c.not_ahead, c.pays)
      (Replaces-kept w r (get_cached_validator_registration w r.pubkey) c.replaces c.known)

process-kept :
    (api : RelayApi) (w : Registrar) (convert : Registration → Registration)
    (rs : List Registration)
    → All (IsRegistrable api w) rs
    → process_with api w convert rs ≡ made (map convert rs)
unfolding process_with
process-kept api w convert [] c = refl
process-kept api w convert (r ∷ rs) (c, cs) =
    rw (registrable-kept api w r c, process-kept api w convert rs cs) refl

registrations-kept :
    (api : RelayApi) (w : Registrar) (ssz : Bool) (rs : List Registration)
    → All (IsRegistrable api w) rs
    → process_registrations api w ssz rs ≡ made (map (converted w ssz) rs)
unfolding process_registrations process_validator_registrations_ssz
    process_validator_registration_json
registrations-kept api w true rs c = process-kept api w (λ r. r) rs c
registrations-kept api w false rs c = process-kept api w w.canonical rs c

verify-signed :
    (w : Registrar) (rs : List Registration)
    → All (IsSigned w) rs
    → verify_registrations w rs ≡ ([], with_room w rs)
unfolding verify_registrations
verify-signed w [] signed = refl
verify-signed w (r ∷ rs) (s, signed) =
    rw (s, verify-signed w rs signed) (send_to_channel-room (w.has_room r) r [] (with_room w rs))

-- When every registration of a request that is not empty and decodes is registrable, and the one that it is
-- converted to has a valid signature, the request is answered with 200, and all are put into the channel to
-- the database, in their order, as far as it has room.
pub registrable-queued :
    (api : RelayApi) (w : Registrar) (q : Sent) (content_type body : Bytes) (rs : List Registration)
    → (q.content_length == 0) ≡ false
    → q.content_type ≡ made content_type
    → q.body ≡ made body
    → decode_registrations w (is_ssz content_type) body ≡ made rs
    → All (IsRegistrable api w) rs
    → All (IsSigned w) (map (converted w (is_ssz content_type)) rs)
    → ((handle_register_validator api w q).answers ≡ status 200 ∷ [])
      × ((handle_register_validator api w q).queued
          ≡ with_room w (map (converted w (is_ssz content_type)) rs))
      × ((handle_register_validator api w q).notifies ≡ true)
unfolding handle_register_validator finish_registrations read_registrations
registrable-queued api w q content_type body rs asked typed reads decodes c signed =
    rw
      (
        asked,
        typed,
        reads,
        decodes,
        registrations-kept api w (is_ssz content_type) rs c,
        verify-signed w (map (converted w (is_ssz content_type)) rs) signed,
      )
      (refl, refl, refl)
