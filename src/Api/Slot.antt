-- ===== src/Api/Slot.antt =====
-- services/api/utils.go: `getSlotFromBuilderSSZPayload`, which reads the slot of a submission before
-- the submission is decoded: an offset at byte 4, and the slot at that offset.
use mev_boost_relay.Prelude.{
  ℕ, ◌+◌, ◌*◌, ◌%◌, ◌^◌, ◌<◌, ◌≤◌, ◌≡◌, ◌↔◌, [], ◌∷◌, Bytes, ltb, if◌then◌else◌, length, take, drop,
  arith,
}

-- `binary.LittleEndian`, without a limit on the width
unfoldable pub little_endian : Bytes → ℕ
little_endian [] = 0
little_endian (b ∷ bs) = b + 256 * little_endian bs

pub data SlotRead : Type 0 where
  slot : ℕ → SlotRead
  payload_too_short_for_message_offset payload_too_short_for_slot panics : SlotRead

-- The offset, a uint32.
abbrev pub message_offset : Bytes → ℕ
message_offset input = little_endian (take 4 (drop 4 input)) % 2 ^ 32

-- `messageOffset+8` is a uint32 too. A slice whose end is before its start panics.
unfoldable pub get_slot_from_builder_ssz_payload : Bytes → SlotRead
get_slot_from_builder_ssz_payload input =
    let start = message_offset input in
    let end = (start + 8) % 2 ^ 32 in
    if ltb (length input) 8
    then payload_too_short_for_message_offset
    else if ltb (length input) end
    then payload_too_short_for_slot
    else if ltb end start
    then panics
    else slot (little_endian (take 8 (drop start input)) % 2 ^ 64)

wraps_iff : (start : ℕ) → start < 2 ^ 32 → ((start + 8) % 2 ^ 32 < start) ↔ (2 ^ 32 ≤ start + 8)
wraps_iff start h = (λ k. omega arith, λ k. omega arith)

wrapped : (start : ℕ) → start < 2 ^ 32 → 2 ^ 32 ≤ start + 8 → (start + 8) % 2 ^ 32 < 8
wrapped start h k = omega arith

in_range : (n : ℕ) → n % 2 ^ 32 < 2 ^ 32
in_range n = omega arith

-- The reading panics exactly if the payload has eight bytes and its offset is one of the eight
-- highest, since then the offset's end wraps around and passes the test of the length.
pub get_slot_panics_iff :
    (input : Bytes)
    → (get_slot_from_builder_ssz_payload input ≡ panics)
      ↔ ((8 ≤ length input) × (2 ^ 32 ≤ message_offset input + 8))
unfolding get_slot_from_builder_ssz_payload
get_slot_panics_iff input =
    let small = in_range (little_endian (take 4 (drop 4 input))) in
    (
      λ h. ground (arith, small, wraps_iff (message_offset input) small),
      λ h. ground (
        arith,
        small,
        wraps_iff (message_offset input) small,
        wrapped (message_offset input) small,
      ),
    )
