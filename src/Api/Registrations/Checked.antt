-- ===== src/Api/Registrations/Checked.antt =====
-- What holds of a registration that is put into the channel to the database.
use mathlib.Core.List.{Memᴰ}
use mev_boost_relay.Prelude.{
  ℕ, ◌+◌, ◌≡◌, refl, sym, ap, ◌∙◌, subst, ◌⊎◌, inl, inr, Option, none, some, List, [], ◌∷◌, Bytes,
  Bool, true, false, not, if◌then◌else◌, Bool-cases,
}
use mev_boost_relay.Payloads.{Made, made, refused}
use mev_boost_relay.Api.Submission.{RelayApi, check_protocol_fee_recipient}
use mev_boost_relay.Api.GetHeader.{lt64}
use mev_boost_relay.Api.Submit.{Answer, Stage, goes, ends, or_respond}
use mev_boost_relay.Api.Submit.Sound.{with_goes}
use mev_boost_relay.Api.Registrations.{
  Registration, Verdict, refuse, discard, keep, Registrar, Sent, is_changed, is_newer,
  get_cached_validator_registration, check_known, check_cached, check_registration, add_judged,
  process_with, process_validator_registrations_ssz, process_validator_registration_json,
  process_registrations, decode_registrations, is_ssz, not_empty, or_unread, read_registrations,
  send_to_channel, invalid_signature, after_signature, verify_registrations, finish_registrations,
  handle_register_validator,
}

-- A registration that is cached has another fee recipient or gas limit, and an earlier time.
abbrev pub Replaces : Registration → Made (Option Registration) → Type 0
Replaces r (made (some cached)) = (is_changed r cached ≡ true) × (is_newer r cached ≡ true)
Replaces r (made none) = Unit
Replaces r (refused e) = Unit

-- Not before the genesis, at most ten seconds ahead, to an allowed fee recipient, of a known
-- validator, and not a replay.
pub record IsRegistrable (api : RelayApi) (w : Registrar) (r : Registration) : Type 0 where
  pub not_early : lt64 r.timestamp api.genesis_time ≡ false
  pub not_ahead : lt64 (w.now + 10) r.timestamp ≡ false
  pub pays : check_protocol_fee_recipient api r.pubkey r.fee_recipient ≡ true
  pub replaces : Replaces r (get_cached_validator_registration w r.pubkey)
  pub known : w.is_known_validator r.pubkey ≡ true

made_inj : {A : Type 0} (a b : A) → made a ≡ made b → a ≡ b
made_inj a b h = cc

none_listed : {P : Type 0} {s : Registration} → Memᴰ s [] → P
none_listed m = elim m [ ]

Mem-cases : (s x : Registration) (xs : List Registration) → Memᴰ s (x ∷ xs) → (s ≡ x) ⊎ Memᴰ s xs
Mem-cases s x xs (Memᴰ.head e) = inl e
Mem-cases s x xs (Memᴰ.tail m) = inr m

unrefused :
    (b : Bool) (e : Bytes) (v : Verdict)
    → (if b then refuse e else v) ≡ keep
    → (b ≡ false) × (v ≡ keep)
unrefused true e v h = absurd cc
unrefused false e v h = (refl, h)

undiscarded :
    (b : Bool) (v : Verdict) → (if not b then discard else v) ≡ keep → (b ≡ true) × (v ≡ keep)
undiscarded true v h = (refl, h)
undiscarded false v h = absurd cc

allowed :
    (b : Bool) (e : Bytes) (v : Verdict)
    → (if not b then refuse e else v) ≡ keep
    → (b ≡ true) × (v ≡ keep)
allowed true e v h = (refl, h)
allowed false e v h = absurd cc

known-IsKnown :
    (w : Registrar) (r : Registration)
    → check_known w r ≡ keep
    → w.is_known_validator r.pubkey ≡ true
unfolding check_known
known-IsKnown w r = elim (Bool-cases (w.is_known_validator r.pubkey)) [
  | inl k ↦ λ h. k
  | inr k ↦ rw k (λ h. absurd cc)
]

cached-Replaces :
    (w : Registrar) (r : Registration) (cached : Made (Option Registration))
    → check_cached w r cached ≡ keep
    → Replaces r cached × (w.is_known_validator r.pubkey ≡ true)
unfolding check_cached
cached-Replaces w r (made none) h = (tt, known-IsKnown w r h)
cached-Replaces w r (refused e) h = (tt, known-IsKnown w r h)
cached-Replaces w r (made (some c)) h =
    let (changed, h1) = undiscarded (is_changed r c) _ h in
    let (newer, h2) = undiscarded (is_newer r c) _ h1 in ((changed, newer), known-IsKnown w r h2)

kept-IsRegistrable :
    (api : RelayApi) (w : Registrar) (r : Registration)
    → check_registration api w r ≡ keep
    → IsRegistrable api w r
unfolding check_registration
kept-IsRegistrable api w r h =
    let (early, h1) = unrefused (lt64 r.timestamp api.genesis_time) _ _ h in
    let (ahead, h2) = unrefused (lt64 (w.now + 10) r.timestamp) _ _ h1 in
    let (pays, h3) = allowed (check_protocol_fee_recipient api r.pubkey r.fee_recipient) _ _ h2 in
    let (replaces, known) = cached-Replaces w r (get_cached_validator_registration w r.pubkey) h3 in
    record { not_early = early; not_ahead = ahead; pays = pays; replaces = replaces; known = known }

-- What a registration that is to be verified has been made of.
abbrev Comes :
    RelayApi → Registrar → (Registration → Registration) → List Registration → Registration → Type 0
Comes api w convert rs s = (r : Registration) × Memᴰ r rs × (s ≡ convert r) × IsRegistrable api w r

later-Comes :
    (api : RelayApi) (w : Registrar) (convert : Registration → Registration) (x : Registration)
    (xs : List Registration) (s : Registration)
    → Comes api w convert xs s
    → Comes api w convert (x ∷ xs) s
later-Comes api w convert x xs s (r, m, e, c) = (r, Memᴰ.tail m, e, c)

added-Mem :
    (v : Verdict) (r : Registration) (rest : Made (List Registration)) (out : List Registration)
    (s : Registration)
    → add_judged v r rest ≡ made out
    → Memᴰ s out
    → ((v ≡ keep) × (s ≡ r)) ⊎ ((kept : List Registration) × (rest ≡ made kept) × Memᴰ s kept)
added-Mem (refuse e) r rest out s h m = absurd cc
added-Mem discard r rest out s h m = inr (out, h, m)
added-Mem keep r (refused e) out s h m = absurd cc
added-Mem keep r (made rs) out s h m =
    elim (Mem-cases s r rs (subst (λ l. Memᴰ s l) (sym (made_inj _ _ h)) m)) [
      | inl e ↦ inl (refl, e)
      | inr n ↦ inr (rs, refl, n)
    ]

process-Comes :
    (api : RelayApi) (w : Registrar) (convert : Registration → Registration)
    (rs out : List Registration) (s : Registration)
    → process_with api w convert rs ≡ made out
    → Memᴰ s out
    → Comes api w convert rs s
unfolding process_with
process-Comes api w convert [] out s h m =
    none_listed (subst (λ l. Memᴰ s l) (sym (made_inj _ _ h)) m)
process-Comes api w convert (r ∷ rs) out s h m =
    elim (added-Mem (check_registration api w r) (convert r) (process_with api w convert rs) out s h
      m) [
        | inl (k, e) ↦ (r, Memᴰ.head refl, e, kept-IsRegistrable api w r k)
        | inr (kept, e, n) ↦
            later-Comes api w convert r rs s (process-Comes api w convert rs kept s e n)
      ]

send_to_channel-Mem :
    (room : Bool) (r s : Registration) (rest : List Answer × List Registration)
    → Memᴰ s (send_to_channel room r rest).1
    → (s ≡ r) ⊎ Memᴰ s rest.1
send_to_channel-Mem true r s rest m = Mem-cases s r rest.1 m
send_to_channel-Mem false r s rest m = inr m

unsigned-Mem :
    (goes_on : Bool) (r s : Registration) (rest : List Answer × List Registration)
    → Memᴰ s (if goes_on then rest else (invalid_signature r ∷ [], [])).1
    → Memᴰ s rest.1
unsigned-Mem true r s rest m = m
unsigned-Mem false r s rest m = none_listed m

after-Mem :
    (w : Registrar) (r s : Registration) (x : Made Bool) (rest : List Answer × List Registration)
    → Memᴰ s (after_signature w r x rest).1
    → ((s ≡ r) × (x ≡ made true)) ⊎ Memᴰ s rest.1
after-Mem w r s (made true) rest m = elim (send_to_channel-Mem (w.has_room r) r s rest m) [
  | inl e ↦ inl (e, refl)
  | inr n ↦ inr n
]
after-Mem w r s (made false) rest m = inr (unsigned-Mem w.ff_continue_on_invalid_sig r s rest m)
after-Mem w r s (refused e) rest m = none_listed m

-- A registration that is put into the channel is one of those to verify, and is signed.
verify-Mem :
    (w : Registrar) (rs : List Registration) (s : Registration)
    → Memᴰ s (verify_registrations w rs).1
    → Memᴰ s rs × (w.verify_signature s ≡ made true)
unfolding verify_registrations
verify-Mem w [] s m = none_listed m
verify-Mem w (r ∷ rs) s m =
    elim (after-Mem w r s (w.verify_signature r) (verify_registrations w rs) m) [
      | inl (e, signed) ↦ (Memᴰ.head e, ap w.verify_signature e ∙ signed)
      | inr n ↦ let (k, signed) = verify-Mem w rs s n in (Memᴰ.tail k, signed)
    ]

-- What an SSZ or a JSON registration is converted to.
abbrev pub converted : Registrar → Bool → Registration → Registration
converted w true r = r
converted w false r = w.canonical r

registrations-Comes :
    (api : RelayApi) (w : Registrar) (ssz : Bool) (rs out : List Registration) (s : Registration)
    → process_registrations api w ssz rs ≡ made out
    → Memᴰ s out
    → Comes api w (converted w ssz) rs s
unfolding process_registrations process_validator_registrations_ssz
    process_validator_registration_json
registrations-Comes api w true rs out s h m = process-Comes api w (λ r. r) rs out s h m
registrations-Comes api w false rs out s h m = process-Comes api w w.canonical rs out s h m

or_respond_inv :
    {A : Type 0} (code : ℕ) (x : Made A) (a : A) → or_respond code x ≡ goes a → x ≡ made a
or_respond_inv code (made b) a h = cc
or_respond_inv code (refused e) a h = cc

or_unread_inv : (x : Made Bytes) (b : Bytes) → or_unread x ≡ goes b → x ≡ made b
or_unread_inv (made c) b h = cc
or_unread_inv (refused e) b h = absurd cc

finished-Mem :
    (w : Registrar) (x : Stage (List Registration)) (s : Registration)
    → Memᴰ s (finish_registrations w x).queued
    → ((rs : List Registration) × (x ≡ goes rs) × Memᴰ s (verify_registrations w rs).1)
unfolding finish_registrations
finished-Mem w (ends a) s m = none_listed m
finished-Mem w (goes rs) s m = (rs, refl, m)

-- The registrations that a request has.
pub record HasRegistration (w : Registrar) (q : Sent) (r s : Registration) : Type 0 where
  pub content_type : Bytes
  pub content_type_is : q.content_type ≡ made content_type
  pub body : Bytes
  pub body_is : q.body ≡ made body
  pub sent : List Registration
  pub sent_is : decode_registrations w (is_ssz content_type) body ≡ made sent
  pub listed : Memᴰ r sent
  pub conversion : s ≡ converted w (is_ssz content_type) r

read-Has :
    (api : RelayApi) (w : Registrar) (q : Sent) (rs : List Registration) (s : Registration)
    → read_registrations api w q ≡ goes rs
    → Memᴰ s rs
    → ((r : Registration) × HasRegistration w q r s × IsRegistrable api w r)
unfolding read_registrations
read-Has api w q rs s h m = with_goes (not_empty q.content_length) _ h (λ u asked h1.
    with_goes (or_respond 415 q.content_type) _ h1 (λ content_type typed h2.
      with_goes (or_unread q.body) _ h2 (λ body reads h3.
        with_goes (or_respond 400 (decode_registrations w (is_ssz content_type) body)) _ h3
          (λ sent decodes h4.
            let (r, listed, e, c) =
              registrations-Comes api w (is_ssz content_type) sent rs s
                (or_respond_inv 400 (process_registrations api w (is_ssz content_type) sent) rs h4)
                m in
            (
              r,
              record {
                content_type = content_type;
                content_type_is = or_respond_inv 415 q.content_type content_type typed;
                body = body;
                body_is = or_unread_inv q.body body reads;
                sent = sent;
                sent_is =
                    or_respond_inv 400 (decode_registrations w (is_ssz content_type) body) sent
                      decodes;
                listed = listed;
                conversion = e;
              },
              c,
            )))))

-- A registration that is put into the channel to the database is one that the request has, which is
-- not before the genesis and at most ten seconds ahead, pays an allowed fee recipient, is of a known
-- validator and, where one is cached, changes it and is newer; and its signature is valid.
pub queued-IsRegistrable :
    (api : RelayApi) (w : Registrar) (q : Sent) (s : Registration)
    → Memᴰ s (handle_register_validator api w q).queued
    → ((r : Registration) × HasRegistration w q r s × IsRegistrable api w r)
      × (w.verify_signature s ≡ made true)
unfolding handle_register_validator
queued-IsRegistrable api w q s m =
    let (rs, reads, n) = finished-Mem w (read_registrations api w q) s m in
    let (k, signed) = verify-Mem w rs s n in (read-Has api w q rs s reads k, signed)
