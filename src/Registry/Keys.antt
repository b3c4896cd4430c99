-- ===== src/Registry/Keys.antt =====
-- The set of keys: what it answers does not depend on the case of a key, nor on the order and the
-- repetition of the keys, and a written file is read back as the same set.
use mev_boost_relay.Prelude.{
  ℕ, ◌≡◌, refl, ap, ◌∙◌, List, [], ◌∷◌, ◌++◌, Bytes, Bool, false, ◌||◌, ◌==◌, map, Bool-cases, inl,
  inr, bytes_eq, bytes_eq→eq, All, arith,
}
use mev_boost_relay.Registry.{
  lower, to_lower, member, add, add_lower, insert_sorted, less, sort_strings, Registry, set_pubkeys,
  is_vouch_pubkey, is_space, trim_left, trim_right, split_lines, keep_line, lines_of,
  load_pubkeys_file, print_lines, write_pubkeys_file,
}

lower_idempotent : (c : ℕ) → lower (lower c) ≡ lower c
unfolding lower
lower_idempotent c = ground arith

to_lower_idempotent : (s : Bytes) → to_lower (to_lower s) ≡ to_lower s
to_lower_idempotent [] = refl
to_lower_idempotent (c ∷ s) = cc (lower_idempotent c, to_lower_idempotent s)

or_swap : (a b c : Bool) → (a || (b || c)) ≡ (b || (a || c))
or_swap a b c = ground arith

member-add : (k x : Bytes) (s : List Bytes) → member k (add x s) ≡ (bytes_eq k x || member k s)
unfolding add member
member-add k x s = elim (Bool-cases (member x s)) [
  | inl old ↦ elim (Bool-cases (bytes_eq k x)) [
    | inl same ↦ rw (old, same) (ap (λ y. member y s) (bytes_eq→eq k x same) ∙ old)
    | inr other ↦ rw (old, other) refl
  ]
  | inr new ↦ rw new refl
]

pub member-add_lower :
    (k : Bytes) (pks s : List Bytes)
    → member k (add_lower s pks) ≡ (member k (map to_lower pks) || member k s)
unfolding add_lower member
member-add_lower k [] s = refl
member-add_lower k (x ∷ pks) s =
    member-add_lower k pks (add (to_lower x) s) ∙ ground (arith, member-add k (to_lower x) s)

member-insert_sorted :
    (k x : Bytes) (xs : List Bytes) → member k (insert_sorted x xs) ≡ (bytes_eq k x || member k xs)
unfolding insert_sorted member
member-insert_sorted k x [] = refl
member-insert_sorted k x (y ∷ xs) = elim (Bool-cases (less y x)) [
  | inl before ↦
      rw before
        (rw (member-insert_sorted k x xs) (or_swap (bytes_eq k y) (bytes_eq k x) (member k xs)))
  | inr after ↦ rw after refl
]

pub member-sort_strings : (k : Bytes) (xs : List Bytes) → member k (sort_strings xs) ≡ member k xs
unfolding sort_strings member
member-sort_strings k [] = refl
member-sort_strings k (x ∷ xs) =
    cc (member-insert_sorted k x (sort_strings xs), member-sort_strings k xs)

abbrev NotSpaces : Bytes → Type 0
NotSpaces s = All (λ c. is_space c ≡ false) s

-- A line that holds a key: it is not empty, has no white space, and does not begin with `#`.
unfoldable pub IsLine : Bytes → Type 0
IsLine [] = ⊥
IsLine (c ∷ s) = ((c == 35) ≡ false) × (is_space c ≡ false) × NotSpaces s

not_newline : (c : ℕ) → is_space c ≡ false → (c == 10) ≡ false
unfolding is_space
not_newline c h = ground arith

split-append : (s rest : Bytes) → NotSpaces s → split_lines (s ++ 10 ∷ rest) ≡ s ∷ split_lines rest
unfolding split_lines
split-append [] rest h = refl
split-append (c ∷ s) rest h = rw (not_newline c h.0, split-append s rest h.1) refl

trim_left_key : (c : ℕ) (s : Bytes) → is_space c ≡ false → trim_left (c ∷ s) ≡ c ∷ s
unfolding trim_left
trim_left_key c s h = rw h refl

trim_right_key : (s : Bytes) → NotSpaces s → trim_right s ≡ s
unfolding trim_right
trim_right_key [] h = refl
trim_right_key (c ∷ []) h = rw (trim_right, h.0) refl
trim_right_key (c ∷ d ∷ s) h = rw (trim_right_key (d ∷ s) h.1) refl

-- A printed key is the first line that is read back.
load-line :
    (k rest : Bytes) → IsLine k → load_pubkeys_file (k ++ 10 ∷ rest) ≡ k ∷ load_pubkeys_file rest
unfolding IsLine load_pubkeys_file lines_of keep_line
load-line [] rest h = absurd h
load-line (c ∷ s) rest h =
    rw
      (
        split-append (c ∷ s) rest (h.1, h.2),
        lines_of,
        trim_left_key c s h.1,
        trim_right_key (c ∷ s) (h.1, h.2),
        keep_line,
        h.0,
      )
      refl

load-print : (ks : List Bytes) → All IsLine ks → load_pubkeys_file (print_lines ks) ≡ ks
unfolding print_lines load_pubkeys_file split_lines lines_of trim_left trim_right keep_line
load-print [] h = refl
load-print (k ∷ ks) h = load-line k (print_lines ks) h.0 ∙ ap (λ r. k ∷ r) (load-print ks h.1)

lower-IsLine :
    (c : ℕ)
    → (is_space c ≡ false → is_space (lower c) ≡ false)
      × ((c == 35) ≡ false → (lower c == 35) ≡ false)
unfolding is_space lower
lower-IsLine c = (λ h. ground arith, λ h. ground arith)

to_lower-NotSpaces : (s : Bytes) → NotSpaces s → NotSpaces (to_lower s)
to_lower-NotSpaces [] h = tt
to_lower-NotSpaces (c ∷ s) h = ((lower-IsLine c).0 h.0, to_lower-NotSpaces s h.1)

to_lower-IsLine : (k : Bytes) → IsLine k → IsLine (to_lower k)
unfolding IsLine
to_lower-IsLine [] h = h
to_lower-IsLine (c ∷ s) h =
    ((lower-IsLine c).1 h.0, (lower-IsLine c).0 h.1, to_lower-NotSpaces s h.2)

-- What holds of the keys holds of the set, and of the sorted set.
module _ (P : Bytes → Type 0) where
  add-All : (k : Bytes) (s : List Bytes) → P k → All P s → All P (add k s)
  unfolding add
  add-All k s h i = elim (Bool-cases (member k s)) [ inl old ↦ rw old i | inr new ↦ rw new (h, i) ]

  add_lower-All :
      (pks s : List Bytes) → All (λ k. P (to_lower k)) pks → All P s → All P (add_lower s pks)
  unfolding add_lower
  add_lower-All [] s h i = i
  add_lower-All (x ∷ pks) s h i =
      add_lower-All pks (add (to_lower x) s) h.1 (add-All (to_lower x) s h.0 i)

  insert_sorted-All : (k : Bytes) (xs : List Bytes) → P k → All P xs → All P (insert_sorted k xs)
  unfolding insert_sorted
  insert_sorted-All k [] h i = (h, tt)
  insert_sorted-All k (x ∷ xs) h i = elim (Bool-cases (less x k)) [
    | inl before ↦ rw before (i.0, insert_sorted-All k xs h i.1)
    | inr after ↦ rw after (h, i)
  ]

  sort_strings-All : (xs : List Bytes) → All P xs → All P (sort_strings xs)
  unfolding sort_strings
  sort_strings-All [] h = tt
  sort_strings-All (x ∷ xs) h = insert_sorted-All x (sort_strings xs) h.0 (sort_strings-All xs h.1)

lowered-IsLine : (pks : List Bytes) → All IsLine pks → All (λ k. IsLine (to_lower k)) pks
lowered-IsLine [] h = tt
lowered-IsLine (x ∷ pks) h = (to_lower-IsLine x h.0, lowered-IsLine pks h.1)

lower_twice : (pks : List Bytes) → All (λ k. to_lower (to_lower k) ≡ to_lower k) pks
lower_twice [] = tt
lower_twice (x ∷ pks) = (to_lower_idempotent x, lower_twice pks)

map-lowered : (ks : List Bytes) → All (λ k. to_lower k ≡ k) ks → map to_lower ks ≡ ks
map-lowered [] h = refl
map-lowered (k ∷ ks) h = cc (h.0, map-lowered ks h.1)

or_false : (a : Bool) → (a || false) ≡ a
or_false a = ground arith

-- A set of keys that is sorted and read again answers as before.
member-again :
    (k : Bytes) (pks : List Bytes)
    → member k (add_lower [] (sort_strings (add_lower [] pks))) ≡ member k (add_lower [] pks)
unfolding member
member-again k pks =
    let keys = add_lower [] pks in
    let lowered =
      sort_strings-All (λ x. to_lower x ≡ x) keys
        (add_lower-All (λ x. to_lower x ≡ x) pks [] (lower_twice pks) tt) in
    member-add_lower k (sort_strings keys) []
    ∙ or_false (member k (map to_lower (sort_strings keys)))
    ∙ ap (member k) (map-lowered (sort_strings keys) lowered)
    ∙ member-sort_strings k keys

-- When keys are written to a file and loaded from it, the registry answers every question about a
-- key as it does when it is given the keys themselves. The keys are not empty, hold no white space
-- and do not begin with `#`.
pub load_written :
    (r : Registry) (pks : List Bytes) (pk : Bytes)
    → All IsLine pks
    → is_vouch_pubkey (set_pubkeys r (load_pubkeys_file (write_pubkeys_file pks))) pk
      ≡ is_vouch_pubkey (set_pubkeys r pks) pk
unfolding is_vouch_pubkey set_pubkeys write_pubkeys_file
load_written r pks pk h =
    rw
      (load-print (sort_strings (add_lower [] pks))
        (sort_strings-All IsLine _ (add_lower-All IsLine pks [] (lowered-IsLine pks h) tt)))
      (member-again (to_lower pk) pks)
