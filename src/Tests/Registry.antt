-- ===== src/Tests/Registry.antt =====
-- Two nodes, of which one serves two keys and the other's calls fail.
use mev_boost_relay.Prelude.{
  ℕ, ◌<◌, ◌≡◌, refl, Option, none, some, List, [], ◌∷◌, Bytes, codes, Bool, true, false, All, arith,
  ◌==◌, if◌then◌else◌,
}
use mev_boost_relay.Registry.{
  Rpc, raw, elem_error, Elem, Chain, output, Registry, sync, walk_node_pubkeys, ended, set_pubkeys,
  is_vouch_pubkey, load_pubkeys_file, write_pubkeys_file, is_revert_error,
}
use mev_boost_relay.Registry.Keys.{IsLine, load_written}
use mev_boost_relay.Registry.Walk.{IsServed, add_all, walk_node_pubkeys_complete, sync_empties}

-- The chain's encoding is the key itself.
abbrev elem_at : ℕ → Elem
elem_at i =
    if i == 0
    then raw (171 ∷ 1 ∷ [])
    else if i == 1
    then raw (171 ∷ 2 ∷ [])
    else elem_error (codes "execution reverted")

abbrev serving : Rpc ℕ
serving = record {
  batch_error = λ node start. none;
  pubkeys_of_node = λ node i. elem_at i;
  unpack = λ out. some (out ∷ []);
  cancelled = λ node start. false;
}

abbrev two_keys : List Bytes
two_keys = (171 ∷ 1 ∷ []) ∷ (171 ∷ 2 ∷ []) ∷ []

two_keys-IsServed : IsServed serving 0 0 two_keys
unfolding is_revert_error mev_boost_relay.Prelude.contains mev_boost_relay.Prelude.has_prefix
    mev_boost_relay.Registry.lower
two_keys-IsServed = (
  (171, 1 ∷ [], refl, refl),
  ((171, 2 ∷ [], refl, refl), (codes "execution reverted", refl, refl)),
)

walk_node_pubkeys_complete_example :
    walk_node_pubkeys serving 1 0 0 [] ≡ some (ended (add_all two_keys []))
walk_node_pubkeys_complete_example =
    walk_node_pubkeys_complete serving 0 1 0 two_keys [] two_keys-IsServed (λ i. refl) (λ i. refl)
      (omega arith)

abbrev failing : Rpc ℕ
failing = record {
  batch_error = λ node start. some (codes "timeout");
  pubkeys_of_node = λ node i. elem_at i;
  unpack = λ out. some (out ∷ []);
  cancelled = λ node start. false;
}

abbrev failing_chain : Chain ℕ
failing_chain = record {
  rpc = failing;
  get_nodes_length = output 2;
  get_nodes = λ n. output (0 ∷ 1 ∷ []);
  context_done = none;
}

abbrev registry : Registry
registry = record {
  has_rpc = true;
  pubkeys = codes "0xab01" ∷ [];
  saved = codes "0xab01" ∷ [];
  syncing = false;
}

sync_empties_example :
    sync 1 failing_chain true registry ≡ some (record registry { pubkeys = []; saved = [] })
sync_empties_example =
    sync_empties 0 1 (0 ∷ 1 ∷ []) failing_chain registry refl refl refl refl
      (((codes "timeout", refl), refl), (((codes "timeout", refl), refl), tt)) refl

abbrev mixed_keys : List Bytes
mixed_keys = codes "0xAB02" ∷ codes "0xab01" ∷ codes "0xAb02" ∷ []

mixed_keys-IsLine : All IsLine mixed_keys
unfolding IsLine mev_boost_relay.Registry.is_space
mixed_keys-IsLine = (
  (refl, refl, (refl, (refl, (refl, (refl, (refl, tt)))))),
  (
    (refl, refl, (refl, (refl, (refl, (refl, (refl, tt)))))),
    ((refl, refl, (refl, (refl, (refl, (refl, (refl, tt)))))), tt),
  ),
)

load_written_example :
    is_vouch_pubkey
      (set_pubkeys registry (load_pubkeys_file (write_pubkeys_file mixed_keys)))
      (codes "0xAB01")
    ≡ is_vouch_pubkey (set_pubkeys registry mixed_keys) (codes "0xAB01")
load_written_example = load_written registry mixed_keys (codes "0xAB01") mixed_keys-IsLine
