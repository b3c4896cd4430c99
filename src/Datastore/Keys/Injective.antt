-- ===== src/Datastore/Keys/Injective.antt =====
-- No two keys of the relay collide.
use mev_boost_relay.Prelude.{
  ℕ, ◌≡◌, refl, sym, ◌∙◌, ◌≢◌, List, [], ◌∷◌, ◌++◌, true, false, arith, Bytes, codes, All, Option,
  none, some, inl, inr, bytes_eq, bytes_eq→eq, Bool-cases, if◌then◌else◌,
}
use mathlib.Core.List.{append_assoc}
use mev_boost_relay.Decimal.{format, parse-format, format-All, IsDigit}
use mev_boost_relay.Datastore.Keys.Split.{
  Lacks, lacks, lacks→Lacks, split_unique, append_cancel_left,
}
use mev_boost_relay.Datastore.Keys.{
  Field, get_header_response, exec_payload_capella, payload_contents_deneb,
  payload_contents_electra, payload_contents_fulu, bid_trace, latest_bids, latest_bids_value,
  latest_bids_time, top_bid_value, floor_bid, floor_bid_value, validator_registration_data,
  vouch_registry, relay_config, stats, proposer_duties, block_builder_status, last_slot_delivered,
  last_hash_delivered, field_name, redis_field, slot_key, key_latest_bid_by_builder,
}

field_name-lacks : (f : Field) → lacks b':' (field_name f) ≡ true
unfolding field_name lacks
field_name-lacks get_header_response = refl
field_name-lacks _ = refl

field_name-Lacks : (f : Field) → Lacks b':' (field_name f)
field_name-Lacks f = lacks→Lacks b':' (field_name f) (field_name-lacks f)

all_fields : List Field
all_fields =
    get_header_response ∷ exec_payload_capella ∷ payload_contents_deneb ∷ payload_contents_electra
    ∷ payload_contents_fulu ∷ bid_trace ∷ latest_bids ∷ latest_bids_value ∷ latest_bids_time
    ∷ top_bid_value ∷ floor_bid ∷ floor_bid_value ∷ validator_registration_data ∷ vouch_registry
    ∷ relay_config ∷ stats ∷ proposer_duties ∷ block_builder_status ∷ last_slot_delivered
    ∷ last_hash_delivered ∷ []

field_among : Bytes → List Field → Option Field
field_among name [] = none
field_among name (f ∷ fs) =
    let rest = field_among name fs in if bytes_eq (field_name f) name then some f else rest

field_of : Bytes → Option Field
unfolding field_among all_fields bytes_eq field_name
field_of name = field_among name all_fields

field_of-field_name : (f : Field) → field_of (field_name f) ≡ some f
unfolding field_of
field_of-field_name get_header_response = refl
field_of-field_name _ = refl

field_name-injective : (f g : Field) → field_name f ≡ field_name g → f ≡ g
field_name-injective f g h = cc (field_of-field_name f, field_of-field_name g)

format-injective : (m n : ℕ) → format m ≡ format n → m ≡ n
format-injective m n h = cc (parse-format m, parse-format n)

digit-Lacks : (xs : Bytes) → All IsDigit xs → Lacks b'_' xs
digit-Lacks [] h = tt
digit-Lacks (x ∷ xs) h = ((λ e. absurd (omega arith)), digit-Lacks xs h.1)

-- A key without what the prefix puts before the field's name.
redis_field-cancel :
    (prefix : Bytes) (f g : Field) (xs ys : Bytes)
    → redis_field prefix f ++ xs ≡ redis_field prefix g ++ ys
    → field_name f ++ xs ≡ field_name g ++ ys
unfolding redis_field
redis_field-cancel prefix f g xs ys h =
    let around : Field → Bytes → Bytes = λ k zs. (prefix ++ (b':' ∷ field_name k)) ++ zs in
    let e : around f xs ≡ around g ys = append_cancel_left (codes "boost-relay/") h in
    let e' : b':' ∷ (field_name f ++ xs) ≡ b':' ∷ (field_name g ++ ys) =
      append_cancel_left prefix (sym (append_assoc prefix _ xs) ∙ (e ∙ append_assoc prefix _ ys)) in
    cc

-- The field of a key is determined by the key, and so is what follows it.
slot_key-split :
    (prefix : Bytes) (f g : Field) (s t : ℕ) (a b c d : Bytes)
    → slot_key prefix f s a b ≡ slot_key prefix g t c d
    → (f ≡ g) × (format s ++ (b'_' ∷ (a ++ (b'_' ∷ b))) ≡ format t ++ (b'_' ∷ (c ++ (b'_' ∷ d))))
unfolding slot_key
slot_key-split prefix f g s t a b c d h =
    let r =
      split_unique b':' (field_name f) (field_name g) (field_name-Lacks f) (field_name-Lacks g)
        (redis_field-cancel prefix f g _ _ h) in
    (field_name-injective f g r.0, r.1)

-- Keys of different fields are different, whatever the texts in them.
pub slot_key-ne :
    (prefix : Bytes) (f g : Field) (s t : ℕ) (a b c d : Bytes)
    → f ≢ g
    → bytes_eq (slot_key prefix f s a b) (slot_key prefix g t c d) ≡ false
slot_key-ne prefix f g s t a b c d ne =
    elim (Bool-cases (bytes_eq (slot_key prefix f s a b) (slot_key prefix g t c d))) [
      | inl same ↦ absurd (ne (slot_key-split prefix f g s t a b c d (bytes_eq→eq _ _ same)).0)
      | inr differ ↦ differ
    ]

-- Two keys that the key functions of a field, a slot and two texts build are equal only if all
-- four are, when the first text has no underscore (a hash or a public key in hex has none).
pub slot_key-injective :
    (prefix : Bytes) (f g : Field) (s t : ℕ) (a b c d : Bytes)
    → Lacks b'_' a
    → Lacks b'_' c
    → slot_key prefix f s a b ≡ slot_key prefix g t c d
    → (f ≡ g) × (s ≡ t) × (a ≡ c) × (b ≡ d)
slot_key-injective prefix f g s t a b c d la lc h =
    let r = slot_key-split prefix f g s t a b c d h in
    let q =
      split_unique b'_' (format s) (format t) (digit-Lacks (format s) (format-All s))
        (digit-Lacks (format t) (format-All t)) r.1 in
    let w = split_unique b'_' a c la lc q.1 in (r.0, format-injective s t q.0, w.0, w.1)

-- The latest bids of two builders stand under one key only if the slot, the parent, the proposer
-- and the builder are the same, when the parent hashes have no underscore and the proposer keys no
-- slash.
pub key_latest_bid_by_builder-injective :
    (prefix : Bytes) (s t : ℕ) (parent proposer builder parent' proposer' builder' : Bytes)
    → Lacks b'_' parent
    → Lacks b'_' parent'
    → Lacks b'/' proposer
    → Lacks b'/' proposer'
    → key_latest_bid_by_builder prefix s parent proposer builder
      ≡ key_latest_bid_by_builder prefix t parent' proposer' builder'
    → (s ≡ t) × (parent ≡ parent') × (proposer ≡ proposer') × (builder ≡ builder')
unfolding key_latest_bid_by_builder
key_latest_bid_by_builder-injective prefix s t parent proposer builder parent' proposer' builder' l
      l' m m' h =
    let r =
      slot_key-injective prefix latest_bids latest_bids s t parent (proposer ++ (b'/' ∷ builder))
        parent' (proposer' ++ (b'/' ∷ builder')) l l' h in
    let q = split_unique b'/' proposer proposer' m m' r.3 in (r.1, r.2, q.0, q.1)
