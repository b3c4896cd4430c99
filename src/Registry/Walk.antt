-- ===== src/Registry/Walk.antt =====
-- The walk over one node's keys, and what a failing walk does to the enumeration.
use mev_boost_relay.Prelude.{
  ℕ, zero, suc, ◌+◌, ◌*◌, ◌<◌, ◌≡◌, refl, ap, subst, ◌∙◌, ◌⊎◌, inl, inr, none, some, List, [], ◌∷◌,
  Bytes, true, false, length, All, arith,
}
use mev_boost_relay.Registry.{
  add, prefixed, elem_error, raw, Rpc, is_revert_error, goes_on, ended, walk_failed, on_elem,
  on_unpacked, walk_batch, walk_node_pubkeys, walk_nodes, Chain, output, on_walked,
  enumerate_with_client, on_enumerated, sync, Registry, set_pubkeys, add_lower, sort_strings,
}

-- The keys of a node that the chain gives from an index on, with a revert past the last.
abbrev pub IsServed : {Node : Type 0} → Rpc Node → Node → ℕ → List Bytes → Type 0
IsServed rpc node i [] =
    (e : Bytes) × (rpc.pubkeys_of_node node i ≡ elem_error e) × (is_revert_error e ≡ true)
IsServed rpc node i ([] ∷ ks) = ⊥
IsServed rpc node i ((c ∷ k) ∷ ks) =
    ((b : ℕ) × (out : Bytes) × (rpc.pubkeys_of_node node i ≡ raw (b ∷ out))
      × (rpc.unpack (b ∷ out) ≡ some ((c ∷ k) ∷ [])))
    × IsServed rpc node (suc i) ks

-- Keys are added to the set in the order of their indexes.
abbrev pub add_all : List Bytes → List Bytes → List Bytes
add_all [] s = s
add_all (k ∷ ks) s = add_all ks (add (prefixed k) s)

module _ {Node : Type 0} (rpc : Rpc Node) (node : Node) where
  walk_batch-cases :
      (n i : ℕ) (ks s : List Bytes)
      → IsServed rpc node i ks
      → ((rest : List Bytes) × (t : List Bytes) × (walk_batch rpc node n i s ≡ goes_on t)
          × ((j : ℕ) × (j ≡ i + n) × IsServed rpc node j rest)
          × (add_all rest t ≡ add_all ks s)
          × (length ks ≡ n + length rest))
        ⊎ (walk_batch rpc node n i s ≡ ended (add_all ks s))
  unfolding walk_batch on_elem on_unpacked
  walk_batch-cases zero i ks s h = inl (ks, s, refl, (i, omega arith, h), refl, omega arith)
  walk_batch-cases (suc n) i [] s (e, q, revert) = inr (rw (walk_batch, q, on_elem, revert) refl)
  walk_batch-cases (suc n) i ([] ∷ ks) s h = elim h [ ]
  walk_batch-cases (suc n) i ((c ∷ k) ∷ ks) s ((b, out, q, u), h) =
      elim (walk_batch-cases n (suc i) ks (add (prefixed (c ∷ k)) s) h) [
        | inl (rest, t, e, (j, at, served), same, len) ↦ inl (
          rest,
          t,
          rw (walk_batch, q, on_elem, u, on_unpacked) e,
          (j, omega (arith, at), served),
          same,
          omega (arith, len),
        )
        | inr e ↦ inr (rw (walk_batch, q, on_elem, u, on_unpacked) e)
      ]

  -- With fuel for one batch more than the keys fill, and no failing call, the walk ends and has
  -- added the keys of the node, all of them and no other.
  pub walk_node_pubkeys_complete :
      (fuel start : ℕ) (ks s : List Bytes)
      → IsServed rpc node start ks
      → ((i : ℕ) → rpc.batch_error node i ≡ none)
      → ((i : ℕ) → rpc.cancelled node i ≡ false)
      → length ks < 64 * fuel
      → walk_node_pubkeys rpc fuel node start s ≡ some (ended (add_all ks s))
  unfolding walk_node_pubkeys
  walk_node_pubkeys_complete zero start ks s h ok runs enough = absurd (omega (arith, enough))
  walk_node_pubkeys_complete (suc fuel) start ks s h ok runs enough =
      elim (walk_batch-cases 64 start ks s h) [
        | inl (rest, t, e, (j, at, served), same, len) ↦
            rw (walk_node_pubkeys, runs start, ok start, e)
              (walk_node_pubkeys_complete fuel (start + 64) rest t
                  (subst (λ k. IsServed rpc node k rest) at served) ok runs
                  (omega (arith, len, enough))
                ∙ ap (λ u. some (ended u)) same)
        | inr e ↦ rw (walk_node_pubkeys, runs start, ok start, e) refl
      ]

  -- A walk whose first batch fails adds nothing.
  first_batch_fails :
      (fuel : ℕ) (e : Bytes) (s : List Bytes)
      → rpc.batch_error node 0 ≡ some e
      → rpc.cancelled node 0 ≡ false
      → walk_node_pubkeys rpc (suc fuel) node 0 s ≡ some (walk_failed s)
  unfolding walk_node_pubkeys
  first_batch_fails fuel e s fails runs = rw (walk_node_pubkeys, runs, fails) refl

  pub walk_nodes_drops_error :
      (fuel : ℕ) (nodes : List Node) (e : Bytes) (s : List Bytes)
      → rpc.batch_error node 0 ≡ some e
      → rpc.cancelled node 0 ≡ false
      → walk_nodes rpc (suc fuel) (node ∷ nodes) s ≡ walk_nodes rpc (suc fuel) nodes s
  unfolding walk_nodes
  walk_nodes_drops_error fuel nodes e s fails runs =
      rw (walk_nodes, first_batch_fails fuel e s fails runs) refl

module _ {Node : Type 0} where
  -- Every walk fails at its first batch.
  abbrev pub AllFail : Rpc Node → List Node → Type 0
  AllFail rpc nodes =
      All (λ n. ((e : Bytes) × (rpc.batch_error n 0 ≡ some e)) × (rpc.cancelled n 0 ≡ false)) nodes

  all_walks_fail :
      (rpc : Rpc Node) (fuel : ℕ) (nodes : List Node) (s : List Bytes)
      → AllFail rpc nodes
      → walk_nodes rpc (suc fuel) nodes s ≡ some s
  unfolding walk_nodes
  all_walks_fail rpc fuel [] s h = refl
  all_walks_fail rpc fuel (n ∷ nodes) s h =
      walk_nodes_drops_error rpc n fuel nodes h.0.0.0 s h.0.0.1 h.0.1
      ∙ all_walks_fail rpc fuel nodes s h.1

  -- If the nodes are listed, but the first batch call of every one of them fails while the context
  -- goes on, then `sync` counts as a success and empties the set, in memory and in Redis.
  pub sync_empties :
      (fuel n : ℕ) (nodes : List Node) (chain : Chain Node) (r : Registry)
      → r.has_rpc ≡ true
      → r.syncing ≡ false
      → chain.get_nodes_length ≡ output (suc n)
      → chain.get_nodes (suc n) ≡ output nodes
      → AllFail chain.rpc nodes
      → chain.context_done ≡ none
      → sync (suc fuel) chain true r ≡ some (record r { pubkeys = []; saved = [] })
  unfolding sync enumerate_with_client on_walked on_enumerated set_pubkeys add_lower sort_strings
  sync_empties fuel n nodes chain r has free count listed fail running = simp (
    has,
    free,
    enumerate_with_client,
    count,
    listed,
    all_walks_fail chain.rpc fuel nodes [] fail,
    running,
    on_walked,
    on_enumerated,
    set_pubkeys,
    add_lower,
    sort_strings,
  )
