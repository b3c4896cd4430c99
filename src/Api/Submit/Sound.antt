-- ===== src/Api/Submit/Sound.antt =====
-- No bid can win whose submission has not passed every check.
use mev_boost_relay.Prelude.{
  ℕ, ◌<◌, ◌≡◌, refl, ap, subst, ◌∙◌, ◌≢◌, ◌⊎◌, inl, inr, Option, none, some, List, [], ◌∷◌, Bytes,
  Bool, true, false, bytes_eq→eq, Bool-cases, arith,
}
use mev_boost_relay.Datastore.Server.{Server, Cmd, Prog, run, returns}
use mev_boost_relay.Datastore.Always.{Always, Always-any, Always-and_then, Always-run}
use mev_boost_relay.Payloads.{Made, made, refused}
use mev_boost_relay.Payloads.Info.{BlockSubmissionInfo, get_block_submission_info}
use mev_boost_relay.Payloads.Decoding.{Versioned}
use mev_boost_relay.Api.Equal.{Roots}
use mev_boost_relay.Api.Floor.{FloorCheck, goes_on, answered}
use mev_boost_relay.Api.Optimistic.{Simulated, simulate_block}
use mev_boost_relay.Api.Submission.{
  Checked, passed, rejected, dropped, check_submission_slot_details, check_builder_entry,
  check_submission_fee_recipient, check_submission_payload_attrs,
}
use mev_boost_relay.Api.Submit.{
  Answer, Stage, goes, ends, and_then, stage_of, or_respond, Relay, Library, Posted, Decoded,
  Prepared, is_empty, fields_of, sanity_check, sanity_check_builder_block_submission, check_value,
  check_signature, check_submission, decode_submission,
}
use mev_boost_relay.Api.Submit.Bid.{
  Stored, Outcome, sim_options, is_optimistic_block, failed_simulation, after_verdict,
  simulate_and_save, after_floor, after_checks, after_decoding, handle_submit_new_block, finish,
}

-- A stage that goes on has come from one that goes on.
pub with_goes :
    {A B P : Type 0} (m : Stage A) (f : A → Stage B) {b : B}
    → and_then m f ≡ goes b
    → ((a : A) → m ≡ goes a → f a ≡ goes b → P)
    → P
with_goes (goes a) f h k = k a refl h
with_goes (ends r) f h k = absurd cc

stage_of_inv : {A : Type 0} (x : Checked A) (a : A) → stage_of x ≡ goes a → x ≡ passed a
stage_of_inv (passed b) a h = cc
stage_of_inv (rejected code m) a h = cc
stage_of_inv dropped a h = cc

goes_inj : {A : Type 0} (a b : A) → goes a ≡ goes b → a ≡ b
goes_inj a b h = cc

or_respond_inv :
    {A : Type 0} (code : ℕ) (x : Made A) (a : A) → or_respond code x ≡ goes a → x ≡ made a
or_respond_inv code (made b) a h = cc
or_respond_inv code (refused e) a h = cc

module _ {R : Roots} {A Withdrawal : Type 0} (relay : Relay) (lib : Library R A Withdrawal) where
  -- What the checks have established of a submission.
  pub record IsAdmitted (payload : Versioned A) (c : Prepared Withdrawal) : Type 0 where
    pub reads : get_block_submission_info payload.version (lib.getters payload) ≡ made c.submission
    pub slot_checked :
        check_submission_slot_details relay.api relay.head_slot (fields_of payload) c.submission
        ≡ passed tt
    pub builder_checked :
        check_builder_entry relay.api c.submission.bid_trace.builder_pubkey ≡ passed c.builder
    pub recipient_checked :
        check_submission_fee_recipient relay.api c.submission.bid_trace ≡ passed c.gas_limit
    pub has_value : 0 < c.submission.bid_trace.value
    pub has_transactions : c.submission.transactions ≢ []
    pub block_hash_is_payload_hash :
        c.submission.bid_trace.block_hash ≡ c.submission.execution_payload_block_hash
    pub parent_hash_is_payload_parent :
        c.submission.bid_trace.parent_hash ≡ c.submission.execution_payload_parent_hash
    pub attrs_checked :
        check_submission_payload_attrs lib.withdrawals_root_of relay.api c.submission
        ≡ passed c.attrs
    pub signed : lib.verify_signature c.submission.bid_trace c.submission.signature ≡ made true

  check_value_inv :
      (s : BlockSubmissionInfo Withdrawal)
      → check_value relay lib s ≡ goes tt
      → (0 < s.bid_trace.value) × (is_empty s.transactions ≡ false)
  unfolding check_value
  check_value_inv s h = ground arith

  not_empty : {X : Type 0} (l : List X) → is_empty l ≡ false → l ≢ []
  not_empty [] h e = absurd cc
  not_empty (x ∷ l) h e = absurd cc

  sanity_check_inv :
      (s : BlockSubmissionInfo Withdrawal)
      → sanity_check relay lib s ≡ made tt
      → (s.bid_trace.block_hash ≡ s.execution_payload_block_hash)
        × (s.bid_trace.parent_hash ≡ s.execution_payload_parent_hash)
  unfolding sanity_check
  sanity_check_inv s h = ground (
    arith,
    bytes_eq→eq s.bid_trace.block_hash s.execution_payload_block_hash,
    bytes_eq→eq s.bid_trace.parent_hash s.execution_payload_parent_hash,
  )

  check_signature_inv : (x : Made Bool) → check_signature relay lib x ≡ goes tt → x ≡ made true
  unfolding check_signature
  check_signature_inv (refused e) h = absurd cc
  check_signature_inv (made true) h = refl
  check_signature_inv (made false) h = absurd cc

  same_info : {X : Type 0} (x : Made X) (a b : X) → x ≡ made a → x ≡ made b → a ≡ b
  same_info x a b h k = cc

  sanity_check_of :
      (payload : Versioned A) (s : BlockSubmissionInfo Withdrawal)
      → get_block_submission_info payload.version (lib.getters payload) ≡ made s
      → sanity_check_builder_block_submission relay lib payload ≡ goes tt
      → sanity_check relay lib s ≡ made tt
  unfolding sanity_check_builder_block_submission
  sanity_check_of payload s e h = with_goes _ _ h (λ t read rest.
      ap (sanity_check relay lib) (same_info _ s t e (or_respond_inv 400 _ t read))
      ∙ or_respond_inv 400 _ tt rest)

  pub check_submission-IsAdmitted :
      (payload : Versioned A) (c : Prepared Withdrawal)
      → check_submission relay lib payload ≡ goes c
      → IsAdmitted payload c
  unfolding check_submission
  check_submission-IsAdmitted payload c h = with_goes _ _ h (λ s read h1.
      with_goes _ _ h1 (λ u1 blobs h2. with_goes _ _ h2 (λ u2 slots h3.
        with_goes _ _ h3 (λ builder known h4. with_goes _ _ h4 (λ gas pays h5.
          with_goes _ _ h5 (λ u3 value h6. with_goes _ _ h6 (λ u4 sane h7.
            with_goes _ _ h7 (λ attrs matching h8. with_goes _ _ h8 (λ u5 signature h9.
              let info = or_respond_inv 400 _ s read in
              let fine = check_value_inv s value in
              let hashes = sanity_check_inv s (sanity_check_of payload s info sane) in
              let all : IsAdmitted payload
                  (record { submission = s; builder = builder; gas_limit = gas; attrs = attrs }) =
                record {
                  reads = info;
                  slot_checked = stage_of_inv _ tt slots;
                  builder_checked = stage_of_inv _ builder known;
                  recipient_checked = stage_of_inv _ gas pays;
                  has_value = fine.0;
                  has_transactions = not_empty s.transactions fine.1;
                  block_hash_is_payload_hash = hashes.0;
                  parent_hash_is_payload_parent = hashes.1;
                  attrs_checked = stage_of_inv _ attrs matching;
                  signed = check_signature_inv _ signature;
                } in
              subst (IsAdmitted payload) (goes_inj _ c h9) all)))))))))

  abbrev pub can_win : Outcome R → Bool
  can_win o = elim o.entry [ none ↦ false | some e ↦ e.is_eligible ]

  module _ (prefix : Bytes) (st : Stored R) (p : Posted) where
    -- A block that has been taken on trust, or whose simulation has not failed.
    abbrev pub IsBacked : Decoded A → Prepared Withdrawal → Type 0
    IsBacked d c =
        (is_optimistic_block prefix st relay lib c.builder c.submission.bid_trace ≡ true)
        ⊎ ((is_top : Bool) × (failed_simulation prefix st relay lib (
                simulate_block relay.ff_ignorable_validation_errors
                  (lib.send (sim_options prefix st relay lib d c is_top)))
              ≡ none))

    abbrev pub IsChecked : Type 0
    IsChecked =
        (d : Decoded A) × (c : Prepared Withdrawal) × (decode_submission relay lib p ≡ goes d)
        × IsAdmitted d.payload c
        × IsBacked d c

    abbrev IsRight : Outcome R × List Cmd → Type 0
    IsRight r = can_win r.0 ≡ true → IsChecked

    any-IsRight : (x : Prog (Outcome R × List Cmd)) → IsChecked → Always IsRight x
    any-IsRight x h = Always-any IsRight x (λ r e. h)

    after_verdict-Always :
        (d : Decoded A) (c : Prepared Withdrawal) (floor : Option ℕ) (s : Simulated)
        (failed : Option Answer) (q : List Cmd)
        → (failed ≡ none → IsChecked)
        → Always IsRight (after_verdict prefix st relay lib p d c floor s failed q)
    unfolding after_verdict finish Always
    after_verdict-Always d c floor s none q h = any-IsRight _ (h refl)
    after_verdict-Always d c floor s (some a) q h = λ e. absurd cc

    simulate_and_save-Always :
        (d : Decoded A) (c : Prepared Withdrawal) (floor : Option ℕ) (is_top : Bool) (q : List Cmd)
        → decode_submission relay lib p ≡ goes d
        → IsAdmitted d.payload c
        → Always IsRight (simulate_and_save prefix st relay lib p d c floor is_top q)
    unfolding simulate_and_save
    simulate_and_save-Always d c floor is_top q e a =
        elim (Bool-cases
          (is_optimistic_block prefix st relay lib c.builder c.submission.bid_trace)) [
            | inl trusted ↦ any-IsRight _ (d, c, e, a, inl trusted)
            | inr simulated ↦ rw simulated (
                after_verdict-Always d c floor _ _ q (λ passes. (d, c, e, a, inr (is_top, passes))))
          ]

    after_floor-Always :
        (d : Decoded A) (c : Prepared Withdrawal) (floor : FloorCheck) (q : List Cmd)
        → decode_submission relay lib p ≡ goes d
        → IsAdmitted d.payload c
        → Always IsRight (after_floor prefix st relay lib p d c floor q)
    unfolding after_floor Always
    after_floor-Always d c (answered code message) q e a = λ h. absurd cc
    after_floor-Always d c (goes_on floor) q e a =
        Always-and_then IsRight _ _ (λ r. simulate_and_save-Always d c floor _ r.1 e a)

    after_checks-Always :
        (d : Decoded A) (x : Stage (Prepared Withdrawal)) (q : List Cmd)
        → decode_submission relay lib p ≡ goes d
        → check_submission relay lib d.payload ≡ x
        → Always IsRight (after_checks prefix st relay lib p d x q)
    unfolding after_checks Always
    after_checks-Always d (ends a) q e k = λ h. absurd cc
    after_checks-Always d (goes c) q e k =
        Always-and_then {A = FloorCheck × List Cmd} IsRight _ _
          (λ r. after_floor-Always d c r.0 r.1 e (check_submission-IsAdmitted d.payload c k))

    after_decoding-Always :
        (x : Stage (Decoded A)) (q : List Cmd)
        → decode_submission relay lib p ≡ x
        → Always IsRight (after_decoding prefix st relay lib p x q)
    unfolding after_decoding Always
    after_decoding-Always (ends a) q e = λ h. absurd cc
    after_decoding-Always (goes d) q e =
        after_checks-Always d (check_submission relay lib d.payload) q e refl

    -- Whatever the server replies: when the handler of a submission ends with a bid that can win, then
    -- the request has been decoded, the submission has passed every check (the slot, the builder, the
    -- fee recipient, the payload attributes, the hashes of its execution payload, the signature, a
    -- value above 0 and a transaction), and its block is an optimistic one or was simulated without
    -- failing.
    pub winning-IsChecked :
        (s : Server) (db : s.Db) (o : Outcome R) (q : List Cmd)
        → (run s (handle_submit_new_block prefix st relay lib p []) db).0 ≡ returns (o, q)
        → can_win o ≡ true
        → IsChecked
    unfolding handle_submit_new_block
    winning-IsChecked s db o q h =
        Always-run IsRight s (handle_submit_new_block prefix st relay lib p []) db (o, q)
          (after_decoding-Always (decode_submission relay lib p) [] refl) h
