-- ===== src/Registry.antt =====
-- services/registry/registry.go: the set of Vouch validator keys, read from a contract, from a file
-- or from Redis. Texts are ASCII. The node's answers and the decoder of the contract's results are
-- parameters. The walks of the worker pool stand here one after the other, in the order in which
-- the nodes are taken: they share nothing but the set, in which they only add.
pub mod Keys
pub mod Walk
use mathlib.Core.Option
use mev_boost_relay.Prelude.{
  ℕ, zero, suc, ◌+◌, ◌*◌, ◌/◌, ◌%◌, ◌≡◌, Option, none, some, List, [], ◌∷◌, ◌++◌, Bytes, codes,
  Bool, true, false, not, ◌&&◌, ◌||◌, ◌==◌, ltb, leb, map, if◌then◌else◌, bytes_eq, has_prefix,
  contains, length,
}

-- `strings.ToLower`
unfoldable pub lower : ℕ → ℕ
lower c = if leb 65 c && leb c 90 then c + 32 else c

abbrev pub to_lower : Bytes → Bytes
to_lower s = map lower s

-- `fmt.Sprintf("%x", pk)`
unfoldable pub hex_digit : ℕ → ℕ
hex_digit d = if ltb d 10 then 48 + d else 87 + d

unfoldable pub hex : Bytes → Bytes
hex [] = []
hex (b ∷ bs) = hex_digit (b / 16) ∷ hex_digit (b % 16) ∷ hex bs

-- A `map[string]struct{}`: its keys, each once.
unfoldable pub member : Bytes → List Bytes → Bool
member k [] = false
member k (x ∷ s) = bytes_eq k x || member k s

unfoldable pub add : Bytes → List Bytes → List Bytes
add k s = if member k s then s else k ∷ s

unfoldable pub add_lower : List Bytes → List Bytes → List Bytes
add_lower s [] = s
add_lower s (pk ∷ pks) = add_lower (add (to_lower pk) s) pks

-- `sort.Strings`
unfoldable pub less : Bytes → Bytes → Bool
less [] [] = false
less [] (y ∷ ys) = true
less (x ∷ xs) [] = false
less (x ∷ xs) (y ∷ ys) = ltb x y || ((x == y) && less xs ys)

unfoldable pub insert_sorted : Bytes → List Bytes → List Bytes
insert_sorted k [] = k ∷ []
insert_sorted k (x ∷ xs) = if less x k then x ∷ insert_sorted k xs else k ∷ x ∷ xs

unfoldable pub sort_strings : List Bytes → List Bytes
sort_strings [] = []
sort_strings (x ∷ xs) = insert_sorted x (sort_strings xs)

-- `Registry`: whether it has an RPC client, its keys, the copy in Redis, and the guard of `sync`.
pub record Registry : Type 0 where
  pub has_rpc : Bool
  pub pubkeys : List Bytes
  pub saved : List Bytes
  pub syncing : Bool

unfoldable pub set_pubkeys : Registry → List Bytes → Registry
set_pubkeys r pks = record r { pubkeys = add_lower [] pks }

unfoldable pub is_vouch_pubkey : Registry → Bytes → Bool
is_vouch_pubkey r pk = member (to_lower pk) r.pubkeys

-- `strings.TrimSpace`
unfoldable pub is_space : ℕ → Bool
is_space c = (leb 9 c && leb c 13) || (c == 32)

unfoldable pub trim_left : Bytes → Bytes
trim_left [] = []
trim_left (c ∷ s) = let rest = trim_left s in if is_space c then rest else c ∷ s

abbrev pub trimmed : ℕ → Bytes → Bytes
trimmed c [] = if is_space c then [] else c ∷ []
trimmed c (d ∷ s) = c ∷ d ∷ s

unfoldable pub trim_right : Bytes → Bytes
trim_right [] = []
trim_right (c ∷ s) = trimmed c (trim_right s)

-- `strings.Split(…, "\n")`
abbrev pub on_first : ℕ → List Bytes → List Bytes
on_first c [] = (c ∷ []) ∷ []
on_first c (l ∷ ls) = (c ∷ l) ∷ ls

unfoldable pub split_lines : Bytes → List Bytes
split_lines [] = [] ∷ []
split_lines (c ∷ s) = let rest = split_lines s in if c == 10 then [] ∷ rest else on_first c rest

unfoldable pub keep_line : Bytes → List Bytes → List Bytes
keep_line [] rest = rest
keep_line (c ∷ s) rest = if c == 35 then rest else (c ∷ s) ∷ rest

unfoldable pub lines_of : List Bytes → List Bytes
lines_of [] = []
lines_of (l ∷ ls) = keep_line (trim_right (trim_left l)) (lines_of ls)

-- `loadPubkeysFile` and `WritePubkeysFile` on a file's content.
unfoldable pub load_pubkeys_file : Bytes → List Bytes
load_pubkeys_file content = lines_of (split_lines content)

unfoldable pub print_lines : List Bytes → Bytes
print_lines [] = []
print_lines (pk ∷ pks) = pk ++ 10 ∷ print_lines pks

unfoldable pub write_pubkeys_file : List Bytes → Bytes
write_pubkeys_file pks = print_lines (sort_strings (add_lower [] pks))

-- One element of a batch of calls: its error, a result of another type, or the result's bytes.
pub data Elem : Type 0 where
  elem_error raw : Bytes → Elem
  wrong_result : Elem

-- The chain's answers to `pubkeysOfNode`: whether a whole batch fails, each index's element, and
-- the decoder, whose first value is read as empty if it is not of bytes.
pub record Rpc (Node : Type 0) : Type 0 where
  pub batch_error : Node → ℕ → Option Bytes
  pub pubkeys_of_node : Node → ℕ → Elem
  pub unpack : Bytes → Option (List Bytes)
  pub cancelled : Node → ℕ → Bool

unfoldable pub is_revert_error : Bytes → Bool
is_revert_error e = contains (codes "revert") (to_lower e)

-- How the walk goes on after a part of it, with the set so far.
pub data Walked : Type 0 where
  goes_on ended walk_failed : List Bytes → Walked

abbrev pub prefixed : Bytes → Bytes
prefixed pk = codes "0x" ++ hex pk

unfoldable pub on_unpacked : List Bytes → Option (List Bytes) → Walked
on_unpacked s none = walk_failed s
on_unpacked s (some []) = ended s
on_unpacked s (some ([] ∷ vs)) = ended s
on_unpacked s (some ((b ∷ pk) ∷ vs)) = goes_on (add (prefixed (b ∷ pk)) s)

abbrev pub batch_of : Option Bytes → List Bytes → Walked → Walked
batch_of none s w = w
batch_of (some e) s w = walk_failed s

abbrev pub set_after : Walked → List Bytes
set_after (goes_on s) = s
set_after (ended s) = s
set_after (walk_failed s) = s

unfoldable pub on_elem : (Bytes → Option (List Bytes)) → List Bytes → Elem → Walked
on_elem unpack s (elem_error e) = if is_revert_error e then ended s else walk_failed s
on_elem unpack s wrong_result = walk_failed s
on_elem unpack s (raw []) = ended s
on_elem unpack s (raw (b ∷ bs)) = on_unpacked s (unpack (b ∷ bs))

module _ {Node : Type 0} (rpc : Rpc Node) where
  -- `for j := range elems`, with `n` elements left
  unfoldable pub walk_batch : Node → ℕ → ℕ → List Bytes → Walked
  walk_batch node zero i s = goes_on s
  walk_batch node (suc n) i s = elim (on_elem rpc.unpack s (rpc.pubkeys_of_node node i)) [
    | goes_on t ↦ walk_batch node n (suc i) t
    | ended t ↦ ended t
    | walk_failed t ↦ walk_failed t
  ]

  -- `walkNodePubkeys`, with fuel for the number of batches
  unfoldable pub walk_node_pubkeys : ℕ → Node → ℕ → List Bytes → Option Walked
  walk_node_pubkeys zero node start s = none
  walk_node_pubkeys (suc fuel) node start s = elim (rpc.cancelled node start) [
    | true ↦ some (walk_failed s)
    | false ↦ elim (batch_of (rpc.batch_error node start) s (walk_batch node 64 start s)) [
      | goes_on t ↦ walk_node_pubkeys fuel node (start + 64) t
      | ended t ↦ some (ended t)
      | walk_failed t ↦ some (walk_failed t)
    ]
  ]

  -- The workers: an error of a walk is dropped, unless the context is done.
  unfoldable pub walk_nodes : ℕ → List Node → List Bytes → Option (List Bytes)
  walk_nodes fuel [] s = some s
  walk_nodes fuel (node ∷ nodes) s = elim (walk_node_pubkeys fuel node 0 s) [
    | none ↦ none
    | some w ↦ walk_nodes fuel nodes (set_after w)
  ]

-- A view call's outcome, for `getNodesLength` and for `getNodes` up to that length, and whether the
-- context is done when the workers are.
pub data Called (R : Type 0) : Type 0 where
  call_error : Bytes → Called R
  no_output : Called R
  output : R → Called R

pub record Chain (Node : Type 0) : Type 0 where
  pub rpc : Rpc Node
  pub get_nodes_length : Called ℕ
  pub get_nodes : ℕ → Called (List Node)
  pub context_done : Option Bytes

pub data Enumerated : Type 0 where
  enumeration_failed : Bytes → Enumerated
  enumerated : List Bytes → ℕ → Enumerated

unfoldable pub on_walked : Option Bytes → ℕ → List Bytes → Enumerated
on_walked none count s = enumerated (sort_strings s) count
on_walked (some e) count s = enumeration_failed e

unfoldable pub enumerate_with_client : {Node : Type 0} → ℕ → Chain Node → Option Enumerated
enumerate_with_client fuel chain = elim chain.get_nodes_length [
  | call_error e ↦ some (enumeration_failed (codes "getNodesLength: " ++ e))
  | no_output ↦ some (enumerated [] 0)
  | output zero ↦ some (enumerated [] 0)
  | output (suc n) ↦ elim (chain.get_nodes (suc n)) [
    | call_error e ↦ some (enumeration_failed (codes "getNodes: " ++ e))
    | no_output ↦ some (enumerated [] 0)
    | output nodes ↦
        Option.map (on_walked chain.context_done (length nodes))
          (walk_nodes chain.rpc fuel nodes [])
  ]
]

-- The two writes of a successful `sync`; `persists` tells if there is a Redis that takes the set.
unfoldable pub on_enumerated : Bool → Registry → Enumerated → Registry
on_enumerated persists r (enumeration_failed e) = r
on_enumerated true r (enumerated pks count) = record (set_pubkeys r pks) { saved = pks }
on_enumerated false r (enumerated pks count) = set_pubkeys r pks

unfoldable pub sync : {Node : Type 0} → ℕ → Chain Node → Bool → Registry → Option Registry
sync fuel chain persists r =
    if not r.has_rpc
    then some r
    else if r.syncing
    then some r
    else Option.map (on_enumerated persists r) (enumerate_with_client fuel chain)
