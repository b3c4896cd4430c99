-- ===== src/Beacon/Broadcast.antt =====
-- The calls that ask all nodes at once: what they return in whatever order the answers come.
use mathlib.Core.List.{Memᴰ}
use mev_boost_relay.Prelude.{
  ℕ, suc, ◌≡◌, refl, sym, ap, subst, ◌∙◌, ◌⊎◌, inl, inr, Option, none, some, List, [], ◌∷◌, Bool,
  true, false, Bool-cases, ◌==◌, map, All,
}
use mev_boost_relay.Beacon.{
  Answers, Response, answer, failure, BeaconInstance, MultiBeaconClient, SyncStatus, PublishResp,
  publish_failed, publish_loop, responses_from, publish_block, sync_answer, sync_answers,
  best_sync_status, BroadcastMode, err_beacon_node_syncing,
}
use mev_boost_relay.Beacon.Order.{last_response-IsOrder}
use mev_boost_relay.Beacon.Calls.{IsValid}

-- No element is lost.
abbrev pub Keeps {ℓ} : {A : Type ℓ} → (List A → List A) → Type ℓ
Keeps {A} arrive = (xs : List A) (x : A) → Memᴰ x xs → Memᴰ x (arrive xs)

-- No element is new.
abbrev pub NothingNew {ℓ} : {A : Type ℓ} → (List A → List A) → Type ℓ
NothingNew {A} arrive = (xs : List A) (x : A) → Memᴰ x (arrive xs) → Memᴰ x xs

All-Mem {ℓ κ} : {A : Type ℓ} (P : A → Type κ) (xs : List A) (x : A) → All P xs → Memᴰ x xs → P x
All-Mem P [] x h m = elim m [ ]
All-Mem P (y ∷ xs) x h (Memᴰ.head e) = subst P (sym e) h.0
All-Mem P (y ∷ xs) x h (Memᴰ.tail m) = All-Mem P xs x h.1 m

-- Neither an error nor a block that was only broadcast.
abbrev IsNotFull : PublishResp → Type 0
IsNotFull r = r.2 ≡ none → (r.1 == 202) ≡ true

abbrev last_of : PublishResp → List PublishResp → PublishResp
last_of last [] = last
last_of last (r ∷ rs) = last_of r rs

module _ {T : Answers} where
  -- The loop returns the first full success, or goes by the last response.
  publish_loop-cases :
      (c : MultiBeaconClient T) (last : PublishResp) (rs : List PublishResp)
      → ((i : ℕ) × (code : ℕ) × ((code == 202) ≡ false)
          × (publish_loop c last rs ≡ (record c { best_beacon_index = i }, code, none)))
        ⊎ (All IsNotFull rs × (publish_loop c last rs ≡ publish_failed c (last_of last rs)))
  unfolding publish_loop
  publish_loop-cases c last [] = inr (tt, refl)
  publish_loop-cases c last ((i, code, some e) ∷ rs) =
      elim (publish_loop-cases c (i, code, some e) rs) [
        | inl full ↦ inl full
        | inr (n, q) ↦ inr (((λ k. cc), n), q)
      ]
  publish_loop-cases c last ((i, code, none) ∷ rs) = elim (Bool-cases (code == 202)) [
    | inl only ↦ elim (publish_loop-cases c (i, code, none) rs) [
      | inl (j, k, b, q) ↦ inl (j, k, b, rw only q)
      | inr (n, q) ↦ inr (((λ k. only), n), rw only q)
    ]
    | inr full ↦ inl (i, code, full, rw full refl)
  ]

  abbrev NodeIsNotFull : T.Block → BroadcastMode → BeaconInstance T → Type 0
  NodeIsNotFull block mode n =
      (n.publish_block block mode).1 ≡ none → ((n.publish_block block mode).0 == 202) ≡ true

  nodes_not_full :
      (i : ℕ) (block : T.Block) (mode : BroadcastMode) (ns : List (BeaconInstance T))
      → ((r : PublishResp) → Memᴰ r (responses_from i block mode ns) → IsNotFull r)
      → All (NodeIsNotFull block mode) ns
  nodes_not_full i block mode [] h = tt
  nodes_not_full i block mode (n ∷ ns) h =
      (h _ (Memᴰ.head refl), nodes_not_full (suc i) block mode ns (λ r m. h r (Memᴰ.tail m)))

  -- If some node publishes the block, without an error and with another code than 202, then
  -- `PublishBlock` returns such a code and no error, in whatever order the responses arrive.
  pub publish_block_succeeds :
      (arrive : List PublishResp → List PublishResp) (c : MultiBeaconClient T) (block : T.Block)
      (n : BeaconInstance T) (code : ℕ)
      → Keeps arrive
      → IsValid c
      → Memᴰ n c.beacon_instances
      → n.publish_block block c.broadcast_mode ≡ (code, none)
      → (code == 202) ≡ false
      → (d : MultiBeaconClient T) × (other : ℕ) × (publish_block arrive c block
          ≡ some (d, other, none))
        × ((other == 202) ≡ false)
  unfolding publish_block
  publish_block_succeeds arrive c block n code keeps h m publishes full =
      let (ys, e, o) = last_response-IsOrder c.best_beacon_index c.beacon_instances h in
      let rs = responses_from 0 block c.broadcast_mode ys in
      elim (publish_loop-cases c (0, 0, none) (arrive rs)) [
        | inl (i, k, b, q) ↦ (record c { best_beacon_index = i }, k, rw (e, q) refl, b)
        | inr (none_full, q) ↦
            let nodes =
              nodes_not_full 0 block c.broadcast_mode ys
                (λ r p. All-Mem IsNotFull (arrive rs) r none_full (keeps rs r p)) in
            let here : NodeIsNotFull block c.broadcast_mode n =
              All-Mem (NodeIsNotFull block c.broadcast_mode) c.beacon_instances n
                (o.covers (NodeIsNotFull block c.broadcast_mode) nodes) m in
            let is_202 : (code == 202) ≡ true =
              sym (ap (λ p. p.0 == 202) publishes) ∙ here (ap (λ p. p.1) publishes) in
            absurd cc
      ]

settled :
    (s : SyncStatus) (rs : List (Response SyncStatus))
    → sync_answers (some s, true) rs ≡ (some s, true)
unfolding sync_answer
settled s [] = refl
settled s (answer a ∷ rs) = settled s rs
settled s (failure e ∷ rs) = settled s rs

abbrev Synced : List (Response SyncStatus) → Option SyncStatus × Bool → Type 0
Synced rs p = (t : SyncStatus) × (p ≡ (some t, true)) × (t.is_syncing ≡ false) × Memᴰ (answer t) rs

-- An error, or the status of a syncing node.
abbrev pub NotSynced : Response SyncStatus → Type 0
NotSynced (answer s) = s.is_syncing ≡ true
NotSynced (failure e) = Unit

first_of :
    (x a : Response SyncStatus) (rs : List (Response SyncStatus))
    → Memᴰ x (a ∷ [])
    → Memᴰ x (a ∷ rs)
first_of x a rs (Memᴰ.head e) = Memᴰ.head e
first_of x a rs (Memᴰ.tail m) = elim m [ ]

-- One answer settles the best status, or is a syncing node's or an error.
sync_answer-cases :
    (best : Option SyncStatus) (a : Response SyncStatus)
    → Synced (a ∷ []) (sync_answer a (best, false))
      ⊎ (((b : Option SyncStatus) × (sync_answer a (best, false) ≡ (b, false))) × NotSynced a)
unfolding sync_answer
sync_answer-cases best (failure e) = inr ((best, refl), tt)
sync_answer-cases none (answer s) = elim (Bool-cases s.is_syncing) [
  | inl syncing ↦ inr ((some s, rw syncing refl), syncing)
  | inr synced ↦ inl (s, rw synced refl, synced, Memᴰ.head refl)
]
sync_answer-cases (some b) (answer s) = elim (Bool-cases s.is_syncing) [
  | inl syncing ↦ inr ((some b, rw syncing refl), syncing)
  | inr synced ↦ inl (s, rw synced refl, synced, Memᴰ.head refl)
]

-- Either a synced node's status is the best, or no answer is a synced node's.
sync_answers-cases :
    (best : Option SyncStatus) (rs : List (Response SyncStatus))
    → Synced rs (sync_answers (best, false) rs)
      ⊎ (((b : Option SyncStatus) × (sync_answers (best, false) rs ≡ (b, false)))
          × All NotSynced rs)
sync_answers-cases best [] = inr ((best, refl), tt)
sync_answers-cases best (a ∷ rs) = elim (sync_answer-cases best a) [
  | inl (t, e, synced, m) ↦ inl (t, rw e (settled t rs), synced, first_of (answer t) a rs m)
  | inr ((b, e), syncing) ↦ rw e (elim (sync_answers-cases b rs) [
    | inl (t, f, synced, m) ↦ inl (t, f, synced, Memᴰ.tail m)
    | inr (kept, rest) ↦ inr (kept, (syncing, rest))
  ])
]

All-map :
    {T : Answers} (ns : List (BeaconInstance T))
    → All NotSynced (map (λ (n : BeaconInstance T). n.sync_status) ns)
    → All (λ n. NotSynced n.sync_status) ns
All-map [] h = tt
All-map (n ∷ ns) h = (h.0, All-map ns h.1)

All-from : {A : Type 0} (P : A → Type 0) (xs : List A) → ((x : A) → Memᴰ x xs → P x) → All P xs
All-from P [] h = tt
All-from P (x ∷ xs) h = (h x (Memᴰ.head refl), All-from P xs (λ y m. h y (Memᴰ.tail m)))

kept_answers :
    (arrive : List (Response SyncStatus) → List (Response SyncStatus))
    → Keeps arrive
    → (rs : List (Response SyncStatus)) → All NotSynced (arrive rs)
    → All NotSynced rs
kept_answers arrive keeps rs h =
    All-from NotSynced rs (λ r m. All-Mem NotSynced (arrive rs) r h (keeps rs r m))

answered_by :
    {T : Answers} (ns : List (BeaconInstance T)) (r : Response SyncStatus)
    → Memᴰ r (map (λ (n : BeaconInstance T). n.sync_status) ns)
    → ((n : BeaconInstance T) × Memᴰ n ns × (n.sync_status ≡ r))
answered_by [] r m = elim m [ ]
answered_by (n ∷ ns) r (Memᴰ.head e) = (n, Memᴰ.head refl, sym e)
answered_by (n ∷ ns) r (Memᴰ.tail m) = let (k, l, e) = answered_by ns r m in (k, Memᴰ.tail l, e)

-- Without the feature flag, `BestSyncStatus` returns the status that a node has answered with and that says
-- that it is not syncing, if some node answers with one, in whatever order the answers come; and if it
-- returns an error, then it is the one for syncing nodes, and every status that a node answers with is of a
-- syncing node. It is assumed that the answers that come are those of the nodes.
pub best_sync_status_synced :
    {T : Answers} (arrive : List (Response SyncStatus) → List (Response SyncStatus))
    (c : MultiBeaconClient T)
    → Keeps arrive
    → NothingNew arrive
    → c.ff_allow_syncing_beacon_node ≡ false
    → ((n : BeaconInstance T) × (t : SyncStatus) × Memᴰ n c.beacon_instances
        × (n.sync_status ≡ answer t)
        × (t.is_syncing ≡ false)
        × (best_sync_status arrive c ≡ (some t, none)))
      ⊎ ((best_sync_status arrive c ≡ (none, some err_beacon_node_syncing))
          × All (λ n. NotSynced n.sync_status) c.beacon_instances)
unfolding best_sync_status
best_sync_status_synced {T} arrive c keeps only flag =
    let asked = map (λ (n : BeaconInstance T). n.sync_status) c.beacon_instances in
    elim (sync_answers-cases none (arrive asked)) [
      | inl (t, e, synced, m) ↦
          let (n, listed, answers) =
            answered_by c.beacon_instances (answer t) (only asked (answer t) m) in
          inl (n, t, listed, answers, synced, rw e refl)
      | inr ((b, e), syncing) ↦
          inr (
            rw (e, flag) refl,
            All-map c.beacon_instances (kept_answers arrive keeps asked syncing),
          )
    ]
