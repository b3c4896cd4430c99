-- ===== src/Api/Forks.antt =====
-- services/api: which fork a slot belongs to, and whether a payload and its header name that fork.
use mev_boost_relay.Prelude.{
  ℕ, ◌/◌, ◌≤◌, ◌≡◌, refl, ◌↔◌, Option, none, some, [], Bytes, codes, Bool, true, false, not, ◌&&◌,
  leb, if◌then◌else◌, bytes_eq, bytes_eq→eq, bytes_eq_refl, arith,
}
use mev_boost_relay.Common.{
  DataVersion, unknown, phase0, altair, bellatrix, capella, deneb, electra, fulu,
}

-- A fork's epoch, an int64: a negative one, by its amount, or not.
pub data ForkEpoch : Type 0 where
  below_zero epoch : ℕ → ForkEpoch

-- 32 slots make an epoch.
unfoldable pub has_reached_fork : ℕ → ForkEpoch → Bool
has_reached_fork slot (below_zero n) = false
has_reached_fork slot (epoch n) = leb n (slot / 32)

pub record ForkEpochs : Type 0 where
  pub capella_epoch : ForkEpoch
  pub deneb_epoch : ForkEpoch
  pub electra_epoch : ForkEpoch
  pub fulu_epoch : ForkEpoch

module _ (f : ForkEpochs) where
  unfoldable pub is_capella : ℕ → Bool
  is_capella slot =
      has_reached_fork slot f.capella_epoch && not (has_reached_fork slot f.deneb_epoch)

  unfoldable pub is_deneb : ℕ → Bool
  is_deneb slot = has_reached_fork slot f.deneb_epoch && not (has_reached_fork slot f.electra_epoch)

  unfoldable pub is_electra : ℕ → Bool
  is_electra slot =
      has_reached_fork slot f.electra_epoch && not (has_reached_fork slot f.fulu_epoch)

  unfoldable pub is_fulu : ℕ → Bool
  is_fulu slot = has_reached_fork slot f.fulu_epoch

  unfoldable pub get_fork_from_slot : ℕ → DataVersion
  get_fork_from_slot slot =
      if is_fulu slot
      then fulu
      else if is_electra slot
      then electra
      else if is_deneb slot
      then deneb
      else if is_capella slot
      then capella
      else unknown

-- The fields of a `VersionedSignedBlindedBeaconBlock` that are not nil.
pub record BlindedBlockFields : Type 0 where
  pub has_bellatrix : Bool
  pub has_capella : Bool
  pub has_deneb : Bool
  pub has_electra : Bool
  pub has_fulu : Bool

pub data VersionError : Type 0 where
  wrong_consensus_version other_payload unknown_payload_version : VersionError

abbrev pub check_version : Bytes → Bool → Bytes → Option VersionError
check_version expected present got =
    if not (bytes_eq got expected)
    then some wrong_consensus_version
    else if not present
    then some other_payload
    else none

unfoldable pub check_fork : DataVersion → BlindedBlockFields → Bytes → Option VersionError
check_fork fulu p got = check_version (codes "fulu") p.has_fulu got
check_fork electra p got = check_version (codes "electra") p.has_electra got
check_fork deneb p got = check_version (codes "deneb") p.has_deneb got
check_fork capella p got = check_version (codes "capella") p.has_capella got
check_fork bellatrix p got = check_version (codes "bellatrix") p.has_bellatrix got
check_fork unknown p got = some unknown_payload_version
check_fork phase0 p got = none
check_fork altair p got = none

unfoldable pub check_payload_and_header_version :
    ForkEpochs → BlindedBlockFields → ℕ → Bytes → Option VersionError
check_payload_and_header_version f payload slot got =
    check_fork (get_fork_from_slot f slot) payload got

-- The forks in their order.
abbrev pub rank : DataVersion → ℕ
rank unknown = 0
rank phase0 = 1
rank altair = 2
rank bellatrix = 3
rank capella = 4
rank deneb = 5
rank electra = 6
rank fulu = 7

div_mono : (a b : ℕ) → a ≤ b → a / 32 ≤ b / 32
div_mono a b h = omega arith

still_reached :
    (a : ForkEpoch) (slot later : ℕ)
    → slot ≤ later
    → has_reached_fork slot a ≡ true
    → has_reached_fork later a ≡ true
unfolding has_reached_fork
still_reached (below_zero n) slot later h r = cc
still_reached (epoch n) slot later h r = ground (arith, div_mono slot later h)

-- What the four tests say of a slot, as the rank of its fork.
abbrev rank_of : Bool → Bool → Bool → Bool → ℕ
rank_of c d e true = 7
rank_of c d true false = 6
rank_of c true false false = 5
rank_of true false false false = 4
rank_of false false false false = 0

abbrev fork_of : Bool → Bool → Bool → Bool → DataVersion
fork_of c d e f =
    if f
    then fulu
    else if e && not f
    then electra
    else if d && not e
    then deneb
    else if c && not d
    then capella
    else unknown

rank-fork_of : (c d e f : Bool) → rank (fork_of c d e f) ≡ rank_of c d e f
rank-fork_of c d e true = refl
rank-fork_of c d true false = refl
rank-fork_of c true false false = refl
rank-fork_of true false false false = refl
rank-fork_of false false false false = refl

rank-fork :
    (f : ForkEpochs) (slot : ℕ)
    → rank (get_fork_from_slot f slot)
      ≡ rank_of
          (has_reached_fork slot f.capella_epoch)
          (has_reached_fork slot f.deneb_epoch)
          (has_reached_fork slot f.electra_epoch)
          (has_reached_fork slot f.fulu_epoch)
unfolding get_fork_from_slot is_capella is_deneb is_electra is_fulu
rank-fork f slot =
    rank-fork_of (has_reached_fork slot f.capella_epoch) (has_reached_fork slot f.deneb_epoch)
      (has_reached_fork slot f.electra_epoch) (has_reached_fork slot f.fulu_epoch)

rank_of_mono :
    (c d e f c2 d2 e2 f2 : Bool)
    → (c ≡ true → c2 ≡ true)
    → (d ≡ true → d2 ≡ true)
    → (e ≡ true → e2 ≡ true)
    → (f ≡ true → f2 ≡ true)
    → rank_of c d e f ≤ rank_of c2 d2 e2 f2
rank_of_mono c d e f c2 d2 e2 f2 hc hd he hf = ground arith

-- A later slot never belongs to an earlier fork, whatever the forks' epochs are.
get_fork_from_slot_mono :
    (f : ForkEpochs) (slot later : ℕ)
    → slot ≤ later
    → rank (get_fork_from_slot f slot) ≤ rank (get_fork_from_slot f later)
get_fork_from_slot_mono f slot later h =
    rw (rank-fork f slot, rank-fork f later)
      (rank_of_mono _ _ _ _ _ _ _ _ (still_reached f.capella_epoch slot later h)
        (still_reached f.deneb_epoch slot later h) (still_reached f.electra_epoch slot later h)
        (still_reached f.fulu_epoch slot later h))

-- A fork's name in the consensus-version header, and the block field of its payload.
abbrev pub name_of : DataVersion → Bytes
name_of fulu = codes "fulu"
name_of electra = codes "electra"
name_of deneb = codes "deneb"
name_of capella = codes "capella"
name_of _ = []

abbrev pub has_payload : DataVersion → BlindedBlockFields → Bool
has_payload fulu p = p.has_fulu
has_payload electra p = p.has_electra
has_payload deneb p = p.has_deneb
has_payload capella p = p.has_capella
has_payload _ p = false

check_version_iff :
    (expected got : Bytes) (present : Bool)
    → (check_version expected present got ≡ none) ↔ ((got ≡ expected) × (present ≡ true))
check_version_iff expected got present =
    (λ h. ground (arith, bytes_eq→eq got expected), λ h. rw (h.0, bytes_eq_refl expected, h.1) refl)

-- The values that `getForkFromSlot` gives.
abbrev IsFromSlot : DataVersion → Type 0
IsFromSlot phase0 = ⊥
IsFromSlot altair = ⊥
IsFromSlot bellatrix = ⊥
IsFromSlot _ = Unit

fork_of-IsFromSlot : (c d e f : Bool) → IsFromSlot (fork_of c d e f)
fork_of-IsFromSlot c d e true = tt
fork_of-IsFromSlot c d true false = tt
fork_of-IsFromSlot c true false false = tt
fork_of-IsFromSlot true false false false = tt
fork_of-IsFromSlot false false false false = tt

get_fork_from_slot-IsFromSlot : (f : ForkEpochs) (slot : ℕ) → IsFromSlot (get_fork_from_slot f slot)
unfolding get_fork_from_slot is_capella is_deneb is_electra is_fulu
get_fork_from_slot-IsFromSlot f slot =
    fork_of-IsFromSlot (has_reached_fork slot f.capella_epoch) (has_reached_fork slot f.deneb_epoch)
      (has_reached_fork slot f.electra_epoch) (has_reached_fork slot f.fulu_epoch)

check_fork_iff :
    (d : DataVersion) (p : BlindedBlockFields) (got : Bytes)
    → IsFromSlot d
    → (check_fork d p got ≡ none) ↔ ((got ≡ name_of d) × (has_payload d p ≡ true))
unfolding check_fork
check_fork_iff fulu p got k = check_version_iff (codes "fulu") got p.has_fulu
check_fork_iff electra p got k = check_version_iff (codes "electra") got p.has_electra
check_fork_iff deneb p got k = check_version_iff (codes "deneb") got p.has_deneb
check_fork_iff capella p got k = check_version_iff (codes "capella") got p.has_capella
check_fork_iff unknown p got k = (λ h. cc, λ h. cc)
check_fork_iff phase0 p got k = absurd k
check_fork_iff altair p got k = absurd k
check_fork_iff bellatrix p got k = absurd k

-- A payload passes exactly if its header names the slot's fork, which is a known one, and the block
-- has that fork's field.
check_payload_and_header_version_iff :
    (f : ForkEpochs) (payload : BlindedBlockFields) (slot : ℕ) (got : Bytes)
    → (check_payload_and_header_version f payload slot got ≡ none) ↔ (
        (got ≡ name_of (get_fork_from_slot f slot))
        × (has_payload (get_fork_from_slot f slot) payload ≡ true))
unfolding check_payload_and_header_version
check_payload_and_header_version_iff f payload slot got =
    check_fork_iff (get_fork_from_slot f slot) payload got (get_fork_from_slot-IsFromSlot f slot)
