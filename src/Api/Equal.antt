-- ===== src/Api/Equal.antt =====
-- services/api/utils.go: `EqBlindedBlockContentsToBlockContents`, which compares a signed blinded
-- block with the payload that the relay is about to reveal. The hash tree roots, and the header of
-- a payload, are computed by the consensus libraries: parameters, which may fail. The field of the
-- block and of the payload that their version names is there.
use mev_boost_relay.Prelude.{
  ℕ, ◌≡◌, refl, ◌↔◌, ◌⊎◌, inl, inr, Option, none, some, List, [], ◌∷◌, Bytes, Bool, true, false,
  if◌then◌else◌, ◌==◌, length, bytes_eq, bytes_eq→eq, bytes_eq_refl, ==_refl, arith,
}
use mev_boost_relay.Common.{
  DataVersion, DataVersion-discrete, unknown, phase0, altair, bellatrix, capella, deneb, electra,
  fulu,
}

-- `HashTreeRoot` of a header, and `PayloadToPayloadHeader`; both may give an error. A root is its
-- text.
pub record Roots : Type 1 where
  pub Header : Type 0
  pub Payload : Type 0
  pub header_root : Header → Bytes ⊎ Bytes
  pub payload_to_header : DataVersion → Payload → Bytes ⊎ Header

-- The parts of a block's body that are the same in a blinded block. Before Electra there are no
-- execution requests, and before Deneb no commitments.
pub record BlockBody : Type 0 where
  pub randao_reveal : Bytes
  pub eth1_data : Bytes
  pub graffiti : Bytes
  pub proposer_slashings : Bytes
  pub attester_slashings : Bytes
  pub attestations : Bytes
  pub deposits : Bytes
  pub voluntary_exits : Bytes
  pub sync_aggregate : Bytes
  pub bls_to_execution_changes : Bytes
  pub commitments : List Bytes
  pub execution_requests : Bytes

-- `VersionedSignedBlindedBeaconBlock`, the field that its version names.
pub record BlindedBlock (R : Roots) : Type 0 where
  pub version : DataVersion
  pub slot : ℕ
  pub proposer_index : ℕ
  pub parent_root : Bytes
  pub state_root : Bytes
  pub body : BlockBody
  pub open body use {commitments}
  pub header : R.Header
  pub signature : Bytes

-- `VersionedSubmitBlindedBlockResponse`; before Deneb there is no bundle.
pub record Revealed (R : Roots) : Type 0 where
  pub version : DataVersion
  pub payload : R.Payload
  pub commitments : List Bytes
  pub proofs : List Bytes
  pub blobs : List Bytes

pub data EqError : Type 0 where
  payload_mismatch header_htr_mismatch blob_mismatch unsupported_payload : EqError
  root_error : Bytes → EqError

abbrev decided : {A : Type 0} → Dec A → Bool
decided (yes a) = true
decided (no n) = false

abbrev same_version : DataVersion → DataVersion → Bool
same_version a b = decided (DataVersion-discrete a b)

-- The loop over the block's commitments, whose number is the bundle's.
unfoldable pub compare_commitments : List Bytes → List Bytes → Option EqError
compare_commitments [] ys = none
compare_commitments (x ∷ xs) [] = some blob_mismatch
compare_commitments (x ∷ xs) (y ∷ ys) =
    let rest = compare_commitments xs ys in if bytes_eq x y then rest else some blob_mismatch

unfoldable pub check_commitments : List Bytes → List Bytes → Option EqError
check_commitments xs ys =
    if length xs == length ys then compare_commitments xs ys else some blob_mismatch

abbrev pub and_then : Option EqError → Option EqError → Option EqError
and_then none next = next
and_then (some e) next = some e

module _ (R : Roots) where
  unfoldable pub same_roots : Bytes ⊎ Bytes → Bytes ⊎ Bytes → Option EqError
  same_roots (inl e) other = some (root_error e)
  same_roots (inr r) (inl e) = some (root_error e)
  same_roots (inr r) (inr s) = if bytes_eq r s then none else some header_htr_mismatch

  -- The block's root is computed first, then the payload's header, then that header's root.
  unfoldable pub check_header : Bytes ⊎ Bytes → Bytes ⊎ R.Header → Option EqError
  check_header (inl e) header = some (root_error e)
  check_header (inr r) (inl e) = some (root_error e)
  check_header (inr r) (inr h) = same_roots (inr r) (R.header_root h)

  unfoldable pub check_contents : DataVersion → BlindedBlock R → Revealed R → Option EqError
  check_contents capella bb p =
      check_header (R.header_root bb.header) (R.payload_to_header capella p.payload)
  check_contents deneb bb p =
      and_then (check_header (R.header_root bb.header) (R.payload_to_header deneb p.payload))
        (check_commitments bb.commitments p.commitments)
  check_contents electra bb p =
      and_then (check_header (R.header_root bb.header) (R.payload_to_header electra p.payload))
        (check_commitments bb.commitments p.commitments)
  check_contents fulu bb p =
      and_then (check_header (R.header_root bb.header) (R.payload_to_header fulu p.payload))
        (check_commitments bb.commitments p.commitments)
  check_contents _ bb p = some unsupported_payload

  unfoldable pub eq_blinded_block_contents_to_block_contents :
      BlindedBlock R → Revealed R → Option EqError
  eq_blinded_block_contents_to_block_contents bb p =
      if same_version bb.version p.version
      then check_contents bb.version bb p
      else some payload_mismatch

  -- Both roots are computed, and they are the same.
  abbrev pub RootsMatch : DataVersion → BlindedBlock R → Revealed R → Type 0
  RootsMatch v bb p =
      (h : R.Header) × (r : Bytes) × (R.payload_to_header v p.payload ≡ inr h)
      × (R.header_root bb.header ≡ inr r)
      × (R.header_root h ≡ inr r)

  abbrev pub Matches : DataVersion → BlindedBlock R → Revealed R → Type 0
  Matches capella bb p = RootsMatch capella bb p
  Matches deneb bb p = RootsMatch deneb bb p × (bb.commitments ≡ p.commitments)
  Matches electra bb p = RootsMatch electra bb p × (bb.commitments ≡ p.commitments)
  Matches fulu bb p = RootsMatch fulu bb p × (bb.commitments ≡ p.commitments)
  Matches _ bb p = ⊥

compare_commitments-eq :
    (xs ys : List Bytes) → length xs ≡ length ys → compare_commitments xs ys ≡ none → xs ≡ ys
unfolding compare_commitments
compare_commitments-eq [] [] h k = refl
compare_commitments-eq [] (y ∷ ys) h k = absurd (omega (arith, h))
compare_commitments-eq (x ∷ xs) [] h k = absurd (omega (arith, h))
compare_commitments-eq (x ∷ xs) (y ∷ ys) h k =
    ground (arith, bytes_eq→eq x y, compare_commitments-eq xs ys)

compare_commitments_refl : (xs : List Bytes) → compare_commitments xs xs ≡ none
unfolding compare_commitments
compare_commitments_refl [] = refl
compare_commitments_refl (x ∷ xs) = rw (bytes_eq_refl x) (compare_commitments_refl xs)

check_commitments_iff : (xs ys : List Bytes) → (check_commitments xs ys ≡ none) ↔ (xs ≡ ys)
unfolding check_commitments
check_commitments_iff xs ys = (
  λ h. ground (arith, compare_commitments-eq xs ys),
  λ e. rw e (rw (==_refl (length ys)) (compare_commitments_refl ys)),
)

and_then_iff :
    {P Q : Type 0} (a b : Option EqError)
    → (a ≡ none) ↔ P
    → (b ≡ none) ↔ Q
    → (and_then a b ≡ none) ↔ (P × Q)
and_then_iff none b p q = (λ h. (p.0 refl, q.0 h), λ k. q.1 k.1)
and_then_iff (some e) b p q = (λ h. absurd cc, λ k. absurd (ground (arith, p.1 k.0)))

decided_iff :
    {V M : Type 0} (d : Dec V) (x : Option EqError)
    → (x ≡ none) ↔ M
    → ((if decided d then x else some payload_mismatch) ≡ none) ↔ (V × M)
decided_iff (yes e) x i = (λ h. (e, i.0 h), λ h. i.1 h.1)
decided_iff (no n) x i = (λ h. absurd cc, λ h. absurd (n h.0))

module _ (R : Roots) where
  same_roots_iff :
      (r : Bytes) (other : Bytes ⊎ Bytes) → (same_roots R (inr r) other ≡ none) ↔ (other ≡ inr r)
  unfolding same_roots
  same_roots_iff r (inl e) = (λ h. absurd cc, λ h. absurd cc)
  same_roots_iff r (inr s) =
      (λ h. ground (arith, bytes_eq→eq r s), λ h. ground (arith, bytes_eq_refl r))

  check_header_iff :
      (block_root : Bytes ⊎ Bytes) (header : Bytes ⊎ R.Header)
      → (check_header R block_root header ≡ none) ↔ (
          (h : R.Header) × (r : Bytes) × (header ≡ inr h)
          × (block_root ≡ inr r)
          × (R.header_root h ≡ inr r))
  unfolding check_header
  check_header_iff (inl e) header = (λ h. absurd cc, λ (h, r, p, q, s). absurd cc)
  check_header_iff (inr r) (inl e) = (λ h. absurd cc, λ (h, r2, p, q, s). absurd cc)
  check_header_iff (inr r) (inr h) = (
    λ k. (h, r, refl, refl, (same_roots_iff r (R.header_root h)).0 k),
    λ (g, s, p, q, e). (same_roots_iff r (R.header_root h)).1 cc,
  )

  check_contents_iff :
      (v : DataVersion) (bb : BlindedBlock R) (p : Revealed R)
      → (check_contents R v bb p ≡ none) ↔ Matches R v bb p
  unfolding check_contents
  check_contents_iff capella bb p = check_header_iff _ _
  check_contents_iff deneb bb p =
      and_then_iff _ _ (check_header_iff _ _) (check_commitments_iff bb.commitments p.commitments)
  check_contents_iff electra bb p =
      and_then_iff _ _ (check_header_iff _ _) (check_commitments_iff bb.commitments p.commitments)
  check_contents_iff fulu bb p =
      and_then_iff _ _ (check_header_iff _ _) (check_commitments_iff bb.commitments p.commitments)
  check_contents_iff unknown bb p = (λ h. absurd cc, λ h. absurd h)
  check_contents_iff phase0 bb p = (λ h. absurd cc, λ h. absurd h)
  check_contents_iff altair bb p = (λ h. absurd cc, λ h. absurd h)
  check_contents_iff bellatrix bb p = (λ h. absurd cc, λ h. absurd h)

  -- The comparison passes exactly if block and payload have one version, from Capella on, the
  -- payload's header and the block's have the same root, and from Deneb on the block's commitments
  -- are the bundle's, in number and in order.
  pub eq_blinded_iff :
      (bb : BlindedBlock R) (p : Revealed R)
      → (eq_blinded_block_contents_to_block_contents R bb p ≡ none)
        ↔ ((bb.version ≡ p.version) × Matches R bb.version bb p)
  unfolding eq_blinded_block_contents_to_block_contents
  eq_blinded_iff bb p =
      decided_iff (DataVersion-discrete bb.version p.version) (check_contents R bb.version bb p)
        (check_contents_iff bb.version bb p)
