-- ===== src/Api/Registrations.antt =====
-- services/api/service.go: `handleRegisterValidator`, which takes the registrations of validators, with the
-- checks that SSZ and JSON requests share, and `GetCachedValidatorRegistration` of datastore/datastore.go.
-- What Redis, the known validators and the libraries answer is a parameter. An answer of Redis that is put into
-- the local cache is given again by it, so the cache is not changed here.
pub mod Checked
pub mod Queued
use mev_boost_relay.Prelude.{
  ℕ, ◌+◌, ◌==◌, Option, none, some, List, [], ◌∷◌, ◌++◌, Bytes, codes, bytes_eq, Bool, true, false,
  not, ◌||◌, if◌then◌else◌,
}
use mev_boost_relay.Payloads.{Made, made, refused}
use mev_boost_relay.Api.Submission.{RelayApi, check_protocol_fee_recipient}
use mev_boost_relay.Api.GetHeader.{lt64}
use mev_boost_relay.Api.Submit.{Answer, responds, status, Stage, goes, ends, ◌>>=◌, or_respond}

-- A registration with its signature. The times are in seconds, as 64-bit numbers with a sign; the key is
-- its hexadecimal text.
pub record Registration : Type 0 where
  pub pubkey : Bytes
  pub fee_recipient : Bytes
  pub gas_limit : ℕ
  pub timestamp : ℕ
  pub signature : Bytes

-- What is done with a registration of a request: the request is refused, the registration is discarded
-- since nothing is new in it, or it is kept.
pub data Verdict : Type 0 where
  refuse : Bytes → Verdict
  discard keep : Verdict

-- What the stores and the libraries answer. `canonical` is the registration that a JSON one is converted
-- to, where a key or a signature that does not parse is zero. `array_each` gives the decoded
-- elements of a JSON list, and the error of the reading itself.
pub record Registrar : Type 0 where
  pub now : ℕ
  pub local_registration : Bytes → Option Registration
  pub redis_registration : Bytes → Made (Option Registration)
  pub is_known_validator : Bytes → Bool
  pub canonical : Registration → Registration
  pub unmarshal_ssz : Bytes → Made (List Registration)
  pub array_each : Bytes → List (Made Registration) × Option Bytes
  pub verify_signature : Registration → Made Bool
  pub has_room : Registration → Bool
  pub ff_continue_on_invalid_sig : Bool

-- A request, as the handler reads it.
pub record Sent : Type 0 where
  pub content_length : ℕ
  pub content_type : Made Bytes
  pub body : Made Bytes

-- What the handler does: its answers, the registrations that it puts into the channel to the database, and
-- whether it tries to tell that there are new ones.
pub record Registered : Type 0 where
  pub answers : List Answer
  pub queued : List Registration
  pub notifies : Bool

abbrev pub from_redis_unless :
    Option Registration → Made (Option Registration) → Made (Option Registration)
from_redis_unless (some r) rest = made (some r)
from_redis_unless none rest = rest

unfoldable pub get_cached_validator_registration : Registrar → Bytes → Made (Option Registration)
get_cached_validator_registration w pk =
    from_redis_unless (w.local_registration pk) (w.redis_registration pk)

abbrev pub is_changed : Registration → Registration → Bool
is_changed r cached =
    not (bytes_eq cached.fee_recipient r.fee_recipient) || not (cached.gas_limit == r.gas_limit)

abbrev pub is_newer : Registration → Registration → Bool
is_newer r cached = lt64 cached.timestamp r.timestamp

unfoldable pub check_known : Registrar → Registration → Verdict
check_known w r =
    if w.is_known_validator r.pubkey
    then keep
    else refuse (codes "not a known validator: " ++ r.pubkey)

-- An error of Redis is only logged.
unfoldable pub check_cached : Registrar → Registration → Made (Option Registration) → Verdict
check_cached w r (made (some cached)) =
    if not (is_changed r cached)
    then discard
    else if not (is_newer r cached)
    then discard
    else check_known w r
check_cached w r (made none) = check_known w r
check_cached w r (refused e) = check_known w r

unfoldable pub check_registration : RelayApi → Registrar → Registration → Verdict
check_registration api w r =
    if lt64 r.timestamp api.genesis_time
    then refuse (codes "timestamp too early")
    else if lt64 (w.now + 10) r.timestamp
    then refuse (codes "timestamp too far in the future")
    else if not (check_protocol_fee_recipient api r.pubkey r.fee_recipient)
    then refuse (codes "fee recipient not allowed for vouch validator")
    else check_cached w r (get_cached_validator_registration w r.pubkey)

abbrev pub add_judged : Verdict → Registration → Made (List Registration) → Made (List Registration)
add_judged (refuse e) r rest = refused e
add_judged discard r rest = rest
add_judged keep r (made rs) = made (r ∷ rs)
add_judged keep r (refused e) = refused e

-- The first registration that is refused refuses them all.
unfoldable pub process_with :
    RelayApi
    → Registrar
    → (Registration → Registration)
    → List Registration
    → Made (List Registration)
process_with api w convert [] = made []
process_with api w convert (r ∷ rs) =
    add_judged (check_registration api w r) (convert r) (process_with api w convert rs)

unfoldable pub process_validator_registrations_ssz :
    RelayApi → Registrar → List Registration → Made (List Registration)
process_validator_registrations_ssz api w = process_with api w (λ r. r)

unfoldable pub process_validator_registration_json :
    RelayApi → Registrar → List Registration → Made (List Registration)
process_validator_registration_json api w = process_with api w w.canonical

abbrev pub latest_error : Bytes → Option Bytes → Option Bytes
latest_error e none = some e
latest_error e (some later) = some later

-- The registrations that decode, and the last error.
unfoldable pub collect : List (Made Registration) → List Registration × Option Bytes
collect [] = ([], none)
collect (made r ∷ rest) = (r ∷ (collect rest).0, (collect rest).1)
collect (refused e ∷ rest) = ((collect rest).0, latest_error e (collect rest).1)

abbrev pub unless_error : Option Bytes → Made (List Registration) → Made (List Registration)
unless_error none rest = rest
unless_error (some e) rest = refused e

unfoldable pub parse_validator_registrations_json : Registrar → Bytes → Made (List Registration)
unfolding collect
parse_validator_registrations_json w body =
    let (elements, for_each_err) = w.array_each body in
    let (rs, parse_err) = collect elements in
    unless_error for_each_err (unless_error parse_err (made rs))

unfoldable pub is_ssz : Bytes → Bool
is_ssz content_type = bytes_eq content_type (codes "application/octet-stream")

unfoldable pub decode_registrations : Registrar → Bool → Bytes → Made (List Registration)
decode_registrations w true body = w.unmarshal_ssz body
decode_registrations w false body = parse_validator_registrations_json w body

unfoldable pub process_registrations :
    RelayApi → Registrar → Bool → List Registration → Made (List Registration)
process_registrations api w true rs = process_validator_registrations_ssz api w rs
process_registrations api w false rs = process_validator_registration_json api w rs

abbrev pub not_empty : ℕ → Stage (Unit {0})
not_empty n = if n == 0 then ends (responds 400 (codes "empty request")) else goes tt

abbrev pub or_unread : Made Bytes → Stage Bytes
or_unread (made b) = goes b
or_unread (refused e) = ends (responds 400 (codes "failed to read request body"))

-- The registrations whose signatures are to be checked.
unfoldable pub read_registrations : RelayApi → Registrar → Sent → Stage (List Registration)
read_registrations api w q = do
  _ ← not_empty q.content_length
  content_type ← or_respond 415 q.content_type
  body ← or_unread q.body
  rs ← or_respond 400 (decode_registrations w (is_ssz content_type) body)
  or_respond 400 (process_registrations api w (is_ssz content_type) rs)

-- A registration that finds the channel full is dropped.
abbrev pub send_to_channel :
    Bool → Registration → List Answer × List Registration → List Answer × List Registration
send_to_channel true r (answers, queued) = (answers, r ∷ queued)
send_to_channel false r rest = rest

abbrev pub invalid_signature : Registration → Answer
invalid_signature r = responds 400 (codes "failed to verify validator signature for " ++ r.pubkey)

abbrev pub after_signature :
    Registrar
    → Registration
    → Made Bool
    → List Answer × List Registration
    → List Answer × List Registration
after_signature w r (made true) rest = send_to_channel (w.has_room r) r rest
after_signature w r (made false) rest =
    if w.ff_continue_on_invalid_sig then rest else (invalid_signature r ∷ [], [])
after_signature w r (refused e) rest = ([], [])

-- The answers and the registrations that are put into the channel.
unfoldable pub verify_registrations :
    Registrar → List Registration → List Answer × List Registration
verify_registrations w [] = ([], [])
verify_registrations w (r ∷ rs) =
    let rest = verify_registrations w rs in after_signature w r (w.verify_signature r) rest

unfoldable pub finish_registrations : Registrar → Stage (List Registration) → Registered
finish_registrations w (ends a) = record { answers = a ∷ []; queued = []; notifies = false }
finish_registrations w (goes rs) =
    let (answers, queued) = verify_registrations w rs in
    record { answers = answers ++ status 200 ∷ []; queued = queued; notifies = true }

unfoldable pub handle_register_validator : RelayApi → Registrar → Sent → Registered
handle_register_validator api w q = finish_registrations w (read_registrations api w q)
