-- ===== src/Datastore/Auction/Winner.antt =====
-- What a winning bid leaves in Redis, as the getters of redis.go will see it.
use mev_boost_relay.Prelude.{
  ℕ, ◌<◌, ◌≡◌, ◌≢◌, refl, sym, ap, ◌++◌, Option, some, List, [], ◌∷◌, Bytes, Bool, true, false, not,
  arith, lt→ltb, if◌then◌else◌, bytes_eq, bytes_eq_refl, Bool-cases, inl, inr, ◌&&◌,
}
use mev_boost_relay.Decimal.{format, parse-format}
use mev_boost_relay.Common.{DataVersion, capella, BidTrace, BidTraceV2}
use mev_boost_relay.Datastore.Assoc.{insert}
use mev_boost_relay.Datastore.Bids.{get_top_bid, new_builder_bids, set_string}
use mev_boost_relay.Datastore.Keys.{
  Field, get_header_response, exec_payload_capella, payload_contents_deneb,
  payload_contents_electra, payload_contents_fulu, bid_trace, latest_bids_value, top_bid_value,
  latest_bids, latest_bids_time, floor_bid, floor_bid_value, slot_key, key_latest_bid_by_builder,
}
use mev_boost_relay.Datastore.Keys.Injective.{slot_key-ne}
use mev_boost_relay.Datastore.Server.{
  Keyspace, Server, returns, run, run_keyspace, on_server, effects, effect,
}
use mev_boost_relay.Datastore.Auction.{
  Codec, SaveBidAndUpdateTopBidResponse, save_bid_and_update_top_bid,
}
use mev_boost_relay.Datastore.Auction.Steps.{
  bids_at, floor_for, reference_for, save_bid_and_update_top_bid_run,
}
use mev_boost_relay.Datastore.Auction.NewTop.{
  payload_field, Encodes, bid_commands, after_win, win_run,
}

set_string-format : (undefined : Bytes → ℕ) (n : ℕ) → set_string undefined (format n) ≡ n
unfolding set_string
set_string-format undefined n = rw (parse-format n, set_string) refl

and_not-true : (x : Bool) → (x && not true) ≡ false
and_not-true true = refl
and_not-true false = refl

-- The table of bids read after a write is the map of bids after the write.
new_builder_bids-insert :
    (undefined : Bytes → ℕ) (k : Bytes) (n : ℕ) (m : List (Bytes × Bytes))
    → new_builder_bids undefined (insert k (format n) m) ≡ insert k n (new_builder_bids undefined m)
unfolding new_builder_bids insert
new_builder_bids-insert undefined k n [] = rw (set_string-format undefined n)
new_builder_bids-insert undefined k n ((j, w) ∷ m) = elim (Bool-cases (bytes_eq j k)) [
  | inl e ↦ rw (e, set_string-format undefined n)
  | inr e ↦ rw (e, new_builder_bids-insert undefined k n m)
]

-- The answer to a bid that wins over `reference`.
abbrev pub winning : ℕ → ℕ → SaveBidAndUpdateTopBidResponse
winning value reference = record {
  was_bid_saved = true;
  was_top_bid_updated = true;
  is_new_top_bid = true;
  top_bid_value = value;
  prev_top_bid_value = some reference;
}

module _ (prefix : Bytes) (c : Codec) where
  -- What the contents after a win show, next to those before.
  pub record IsWon (b : BidTrace) (cancellable : Bool) (field : Field)
      (payload_text header_text : Bytes) (before after : Keyspace) : Type 0 where
    pub header_published :
        after.texts (slot_key prefix get_header_response b.slot b.parent_hash b.proposer_pubkey)
        ≡ some header_text
    pub value_published :
        after.texts (slot_key prefix top_bid_value b.slot b.parent_hash b.proposer_pubkey)
        ≡ some (format b.value)
    pub payload_stored :
        after.texts (slot_key prefix field b.slot b.proposer_pubkey b.block_hash)
        ≡ some payload_text
    pub bids_updated :
        bids_at prefix c after b.slot b.parent_hash b.proposer_pubkey
        ≡ insert b.builder_pubkey b.value
            (bids_at prefix c before b.slot b.parent_hash b.proposer_pubkey)
    pub floor_value :
        after.texts (slot_key prefix floor_bid_value b.slot b.parent_hash b.proposer_pubkey) ≡ (
          if cancellable
          then before.texts (slot_key prefix floor_bid_value b.slot b.parent_hash b.proposer_pubkey)
          else some (format b.value))
    pub floor_header :
        after.texts (slot_key prefix floor_bid b.slot b.parent_hash b.proposer_pubkey) ≡ (
          if cancellable
          then before.texts (slot_key prefix floor_bid b.slot b.parent_hash b.proposer_pubkey)
          else some header_text)

  abbrev is_payload : Field → Bool
  is_payload exec_payload_capella = true
  is_payload payload_contents_deneb = true
  is_payload payload_contents_electra = true
  is_payload payload_contents_fulu = true
  is_payload _ = false

  stored-is_payload :
      (version : DataVersion) (field : Field)
      → payload_field version ≡ some field
      → is_payload field ≡ true
  stored-is_payload capella field h = ground arith
  stored-is_payload _ field h = ground arith

  is_payload-ne : (f g : Field) → is_payload f ≡ true → is_payload g ≡ false → f ≢ g
  is_payload-ne f g h k e = cc (ap is_payload e)

  module _ (trace : BidTraceV2) (b : BidTrace) (received_at : ℕ) (field : Field)
      (payload_text header_text trace_text : Bytes) (ks : Keyspace) where
    abbrev key : Field → Bytes
    key f = slot_key prefix f b.slot b.parent_hash b.proposer_pubkey

    abbrev final : Bool → Keyspace
    final cancellable = after_win prefix c b cancellable header_text (
        effects
          (bid_commands prefix c trace b received_at field payload_text header_text trace_text) ks)

    ne : (f g : Field) → f ≢ g → bytes_eq (key f) (key g) ≡ false
    ne f g h = slot_key-ne prefix f g b.slot b.slot _ _ _ _ h

    header_text_after :
        (cancellable : Bool)
        → (final cancellable).texts (key get_header_response) ≡ some header_text
    header_text_after true =
        rw (ne top_bid_value get_header_response (λ e. cc), bytes_eq_refl (key get_header_response))
    header_text_after false = rw (
      ne floor_bid_value get_header_response (λ e. cc),
      ne floor_bid get_header_response (λ e. cc),
      ne top_bid_value get_header_response (λ e. cc),
      bytes_eq_refl (key get_header_response),
    )

    value_after :
        (cancellable : Bool) → (final cancellable).texts (key top_bid_value) ≡ some (format b.value)
    value_after true = rw (bytes_eq_refl (key top_bid_value))
    value_after false = rw (
      ne floor_bid_value top_bid_value (λ e. cc),
      ne floor_bid top_bid_value (λ e. cc),
      bytes_eq_refl (key top_bid_value),
    )

    -- None of the queued commands writes a floor, nor the payload after its own command.
    queued_elsewhere :
        (f : Field) (slot : ℕ) (x y : Bytes)
        → f ≢ latest_bids
        → f ≢ bid_trace
        → f ≢ field
        → (effects
              (bid_commands prefix c trace b received_at field payload_text header_text trace_text)
              ks).texts
            (slot_key prefix f slot x y)
          ≡ ks.texts (slot_key prefix f slot x y)
    unfolding effects effect key_latest_bid_by_builder
    queued_elsewhere f slot x y h k l = rw (
      slot_key-ne prefix bid_trace f trace.slot slot trace.proposer_pubkey trace.block_hash x y
          (λ e. k (sym e)),
      slot_key-ne prefix latest_bids f b.slot slot b.parent_hash
          (b.proposer_pubkey ++ (b'/' ∷ b.builder_pubkey)) x y (λ e. h (sym e)),
      slot_key-ne prefix field f b.slot slot b.proposer_pubkey b.block_hash x y (λ e. l (sym e)),
    )

    floor_value_after :
        (cancellable : Bool)
        → is_payload field ≡ true
        → (final cancellable).texts (key floor_bid_value)
          ≡ (if cancellable then ks.texts (key floor_bid_value) else some (format b.value))
    floor_value_after true p =
        rw
          (
            ne top_bid_value floor_bid_value (λ e. cc),
            ne get_header_response floor_bid_value (λ e. cc),
          )
          (queued_elsewhere floor_bid_value b.slot _ _ (λ e. cc) (λ e. cc)
            (λ e. is_payload-ne field floor_bid_value p refl (sym e)))
    floor_value_after false p = rw (bytes_eq_refl (key floor_bid_value))

    floor_header_after :
        (cancellable : Bool)
        → is_payload field ≡ true
        → (final cancellable).texts (key floor_bid)
          ≡ (if cancellable then ks.texts (key floor_bid) else some header_text)
    floor_header_after true p =
        rw (ne top_bid_value floor_bid (λ e. cc), ne get_header_response floor_bid (λ e. cc))
          (queued_elsewhere floor_bid b.slot _ _ (λ e. cc) (λ e. cc)
            (λ e. is_payload-ne field floor_bid p refl (sym e)))
    floor_header_after false p =
        rw (ne floor_bid_value floor_bid (λ e. cc), bytes_eq_refl (key floor_bid))

    payload_ne :
        (g : Field)
        → is_payload field ≡ true
        → is_payload g ≡ false
        → bytes_eq (key g) (slot_key prefix field b.slot b.proposer_pubkey b.block_hash) ≡ false
    payload_ne g p h =
        slot_key-ne prefix g field b.slot b.slot _ _ _ _ (λ e. is_payload-ne field g p h (sym e))

    payload_queued :
        is_payload field ≡ true
        → (effects
              (bid_commands prefix c trace b received_at field payload_text header_text trace_text)
              ks).texts
            (slot_key prefix field b.slot b.proposer_pubkey b.block_hash)
          ≡ some payload_text
    unfolding effects effect key_latest_bid_by_builder
    payload_queued p = rw (
      slot_key-ne prefix bid_trace field trace.slot b.slot trace.proposer_pubkey trace.block_hash
          b.proposer_pubkey b.block_hash (λ e. is_payload-ne field bid_trace p refl (sym e)),
      slot_key-ne prefix latest_bids field b.slot b.slot b.parent_hash
          (b.proposer_pubkey ++ (b'/' ∷ b.builder_pubkey)) b.proposer_pubkey b.block_hash
          (λ e. is_payload-ne field latest_bids p refl (sym e)),
      bytes_eq_refl (slot_key prefix field b.slot b.proposer_pubkey b.block_hash),
    )

    payload_after :
        (cancellable : Bool)
        → is_payload field ≡ true
        → (final cancellable).texts (slot_key prefix field b.slot b.proposer_pubkey b.block_hash)
          ≡ some payload_text
    payload_after true p =
        rw (payload_ne top_bid_value p refl, payload_ne get_header_response p refl)
          (payload_queued p)
    payload_after false p =
        rw
          (
            payload_ne floor_bid_value p refl,
            payload_ne floor_bid p refl,
            payload_ne top_bid_value p refl,
            payload_ne get_header_response p refl,
          )
          (payload_queued p)

    bids_queued :
        (effects
            (bid_commands prefix c trace b received_at field payload_text header_text trace_text)
            ks).tables
          (key latest_bids_value)
        ≡ insert b.builder_pubkey (format b.value) (ks.tables (key latest_bids_value))
    unfolding effects effect
    bids_queued =
        rw (bytes_eq_refl (key latest_bids_value), ne latest_bids_time latest_bids_value (λ e. cc))

    bids_after :
        (cancellable : Bool)
        → bids_at prefix c (final cancellable) b.slot b.parent_hash b.proposer_pubkey
          ≡ insert b.builder_pubkey b.value
              (bids_at prefix c ks b.slot b.parent_hash b.proposer_pubkey)
    unfolding bids_at
    bids_after true = rw bids_queued (new_builder_bids-insert _ b.builder_pubkey b.value _)
    bids_after false = rw bids_queued (new_builder_bids-insert _ b.builder_pubkey b.value _)

    won :
        (cancellable : Bool)
        → is_payload field ≡ true
        → IsWon b cancellable field payload_text header_text ks (final cancellable)
    won cancellable p = record {
      header_published = header_text_after cancellable;
      value_published = value_after cancellable;
      payload_stored = payload_after cancellable p;
      bids_updated = bids_after cancellable;
      floor_value = floor_value_after cancellable p;
      floor_header = floor_header_after cancellable p;
    }

  pub reference_bounds :
      (ks : Keyspace) (b : BidTrace) (floor_value : Option ℕ) (v : ℕ)
      → reference_for prefix c ks b floor_value < v
      → ((get_top_bid (bids_at prefix c ks b.slot b.parent_hash b.proposer_pubkey)).1 < v)
        × (floor_for prefix c ks b floor_value < v)
  unfolding reference_for
  reference_bounds ks b floor_value v h = ground arith

  pub wins_keyspace :
      (trace : BidTraceV2) (b : BidTrace) (version : DataVersion) (payload : c.Payload)
      (header : c.Bid) (received_at : ℕ) (cancellable : Bool) (floor_value : Option ℕ)
      (field : Field) (payload_text header_text trace_text : Bytes) (ks : Keyspace)
      → Encodes prefix c trace b version payload header field payload_text header_text trace_text
      → reference_for prefix c ks b floor_value < b.value
      → let r =
          run_keyspace
            (save_bid_and_update_top_bid prefix c trace b version payload header received_at
              cancellable floor_value [])
            ks in
        (r.0 ≡ returns (winning b.value (reference_for prefix c ks b floor_value), []))
        × IsWon b cancellable field payload_text header_text ks r.1
  wins_keyspace trace b version payload header received_at cancellable floor_value field pt ht tt'
        ks e h =
      let bounds = reference_bounds ks b floor_value b.value h in
      let reference = reference_for prefix c ks b floor_value in
      let runs =
        save_bid_and_update_top_bid_run prefix c trace b version payload header received_at
          cancellable floor_value ks in
      let above = lt→ltb (floor_for prefix c ks b floor_value) b.value bounds.1 in
      let wins =
        win_run prefix c trace b version payload header received_at cancellable
          (floor_for prefix c ks b floor_value)
          (bids_at prefix c ks b.slot b.parent_hash b.proposer_pubkey) reference ks field pt ht tt'
          e bounds.0 bounds.1 h in
      rw (runs, above, and_not-true (not cancellable), wins)
        (
          refl,
          won trace b received_at field pt ht tt' ks cancellable
              (stored-is_payload version field e.stored),
        )

  -- On a server that answers, a bid above both the top bid and the floor wins: whether or not it can
  -- be cancelled, the answer says that it was saved and is the new top bid, its header and its value
  -- are what getHeader will read, its payload is stored for getPayload, the builder's bid is entered
  -- among the bids, and the floor becomes this bid if it cannot be cancelled and stays as it was if
  -- it can. It is assumed that the payload's version is one of those that are stored, that the three
  -- encodings succeed and that the header carries the bid's value.
  pub save-wins :
      (s : Server) (db : s.Db) (trace : BidTraceV2) (b : BidTrace) (version : DataVersion)
      (payload : c.Payload) (header : c.Bid) (received_at : ℕ) (cancellable : Bool)
      (floor_value : Option ℕ) (field : Field) (payload_text header_text trace_text : Bytes)
      → s.IsUp db
      → Encodes prefix c trace b version payload header field payload_text header_text trace_text
      → reference_for prefix c (s.view db) b floor_value < b.value
      → let r =
          run s
            (save_bid_and_update_top_bid prefix c trace b version payload header received_at
              cancellable floor_value [])
            db in
        (r.0 ≡ returns (winning b.value (reference_for prefix c (s.view db) b floor_value), []))
        × IsWon b cancellable field payload_text header_text (s.view db) (s.view r.1)
  save-wins s db trace b version payload header received_at cancellable floor_value field pt ht tt'
        up e h =
      on_server
        (λ r.
          (r.0 ≡ returns (winning b.value (reference_for prefix c (s.view db) b floor_value), []))
          × IsWon b cancellable field pt ht (s.view db) r.1)
        s _ db up
        (wins_keyspace trace b version payload header received_at cancellable floor_value field pt
          ht tt' (s.view db) e h)
