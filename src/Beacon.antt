-- ===== src/Beacon.antt =====
-- beaconclient/multi_beacon_client.go: the client that asks several beacon nodes in turn, or all at
-- once, and keeps the index of the last that answered. A node is what it answers; what it answers
-- with is a parameter. An error is its text. A call that indexes out of range gives `none`.
pub mod Order
pub mod Calls
pub mod Broadcast
pub mod Sequences
use mathlib.Core.Option
use mev_boost_relay.Prelude.{
  ℕ, zero, suc, ◌+◌, ◌≡◌, Option, none, some, List, [], ◌∷◌, ◌++◌, Bytes, codes, Bool, true, false,
  not, ◌&&◌, ◌||◌, ◌==◌, map, if◌then◌else◌, get_elem?, set, contains,
}

pub data BroadcastMode : Type 0 where
  gossip consensus consensus_and_equivocation : BroadcastMode

pub record SyncStatus : Type 0 where
  pub head_slot : ℕ
  pub is_syncing : Bool

-- The types of the nodes' answers.
pub record Answers : Type 1 where
  pub Validators : Type 0
  pub Duties : Type 0
  pub Genesis : Type 0
  pub Spec : Type 0
  pub ForkSchedule : Type 0
  pub Randao : Type 0
  pub Withdrawals : Type 0
  pub Block : Type 0

-- What a call of a node gives: a value or an error.
pub data Response (R : Type 0) : Type 0 where
  answer : R → Response R
  failure : Bytes → Response R

-- `IBeaconInstance`, apart from the subscriptions.
pub record BeaconInstance (T : Answers) : Type 0 where
  pub sync_status : Response SyncStatus
  pub get_state_validators : Bytes → Response T.Validators
  pub get_proposer_duties : ℕ → Response T.Duties
  pub get_genesis : Response T.Genesis
  pub get_spec : Response T.Spec
  pub get_fork_schedule : Response T.ForkSchedule
  pub get_randao : ℕ → Response T.Randao
  pub get_withdrawals : ℕ → Response T.Withdrawals
  pub publish_block : T.Block → BroadcastMode → ℕ × Option Bytes

pub record MultiBeaconClient (T : Answers) : Type 0 where
  pub best_beacon_index : ℕ
  pub beacon_instances : List (BeaconInstance T)
  pub ff_allow_syncing_beacon_node : Bool
  pub broadcast_mode : BroadcastMode

abbrev pub err_beacon_node_syncing : Bytes
err_beacon_node_syncing = codes "beacon node is syncing or unavailable"

abbrev pub err_beacon_nodes_unavailable : Bytes
err_beacon_nodes_unavailable = codes "all beacon nodes responded with error"

abbrev pub err_withdrawals_before_capella : Bytes
err_withdrawals_before_capella = codes "withdrawals are not supported before capella"

abbrev pub not_enabled : Bytes
not_enabled = codes "Withdrawals not enabled before capella"

-- Go's result pair: a value that may be nil and an error that may be nil.
abbrev pub Returned : Type 0 → Type 0
Returned R = Option R × Option Bytes

-- `instances[0], instances[index] = instances[index], instances[0]`
unfoldable pub instances_by_last_response {ℓ} : {A : Type ℓ} → ℕ → List A → Option (List A)
instances_by_last_response zero xs = some xs
instances_by_last_response (suc i) [] = none
instances_by_last_response (suc i) (first ∷ xs) =
    Option.map (λ best. best ∷ set xs i first) (get_elem? xs i)

unfoldable pub reversed {ℓ} : {A : Type ℓ} → List A → List A
reversed [] = []
reversed (x ∷ xs) = reversed xs ++ x ∷ []

-- What a loop over the nodes comes to: the first answer with its place, or the last error.
pub data Found (R : Type 0) : Type 0 where
  found : ℕ → R → Found R
  not_found : Option Bytes → Found R

abbrev pub unavailable : Option Bytes → Option Bytes
unavailable err = some err_beacon_nodes_unavailable

-- `publishResp`: a node's place, its status code and its error.
abbrev pub PublishResp : Type 0
PublishResp = ℕ × ℕ × Option Bytes

abbrev pub last_error : Bytes → Bytes
last_error e = codes "last error: " ++ e

-- One answer under the mutex: the best status so far and whether it is a synced node's.
unfoldable pub sync_answer :
    Response SyncStatus → Option SyncStatus × Bool → Option SyncStatus × Bool
sync_answer (failure e) best = best
sync_answer (answer s) (best, true) = (best, true)
sync_answer (answer s) (none, false) = (some s, not s.is_syncing)
sync_answer (answer s) (some b, false) = if s.is_syncing then (some b, false) else (some s, true)

abbrev pub sync_answers :
    Option SyncStatus × Bool → List (Response SyncStatus) → Option SyncStatus × Bool
sync_answers best [] = best
sync_answers best (a ∷ rest) = sync_answers (sync_answer a best) rest

abbrev pub sync_result : Bool → Option SyncStatus × Bool → Returned SyncStatus
sync_result allow (best, false) =
    if not allow
    then (none, some err_beacon_node_syncing)
    else elim best [ none ↦ (none, some err_beacon_nodes_unavailable) | some s ↦ (some s, none) ]
sync_result allow (none, true) = (none, some err_beacon_nodes_unavailable)
sync_result allow (some s, true) = (some s, none)

module _ {T : Answers} where
  abbrev pub beacon_instances_by_last_response :
      MultiBeaconClient T → Option (List (BeaconInstance T))
  beacon_instances_by_last_response c =
      instances_by_last_response c.best_beacon_index c.beacon_instances

  abbrev pub beacon_instances_by_least_used : MultiBeaconClient T → Option (List (BeaconInstance T))
  beacon_instances_by_least_used c = Option.map reversed (beacon_instances_by_last_response c)

  unfoldable pub first_answer :
      {R : Type 0}
      → (BeaconInstance T → Response R)
      → ℕ
      → Option Bytes
      → List (BeaconInstance T)
      → Found R
  first_answer ask i err [] = not_found err
  first_answer ask i err (n ∷ ns) = elim (ask n) [
    | answer r ↦ found i r
    | failure e ↦ first_answer ask (suc i) (some e) ns
  ]

  -- `c.bestBeaconIndex.Store(int64(i))` and the return, or the error returned after the loop.
  unfoldable pub conclude :
      {R : Type 0}
      → MultiBeaconClient T
      → (Option Bytes → Option Bytes)
      → Found R
      → MultiBeaconClient T × Returned R
  conclude c error (found i r) = (record c { best_beacon_index = i }, (some r, none))
  conclude c error (not_found err) = (c, (none, error err))

  unfoldable pub get_state_validators :
      MultiBeaconClient T → Bytes → Option (MultiBeaconClient T × Returned T.Validators)
  get_state_validators c state_id =
      Option.map
        (λ ns.
          conclude c unavailable (first_answer (λ n. n.get_state_validators state_id) 0 none ns))
        (beacon_instances_by_least_used c)

  unfoldable pub get_proposer_duties :
      MultiBeaconClient T → ℕ → Option (MultiBeaconClient T × Returned T.Duties)
  get_proposer_duties c epoch =
      Option.map
        (λ ns. conclude c unavailable (first_answer (λ n. n.get_proposer_duties epoch) 0 none ns))
        (beacon_instances_by_last_response c)

  unfoldable pub get_genesis :
      MultiBeaconClient T → Option (MultiBeaconClient T × Returned T.Genesis)
  get_genesis c =
      Option.map (λ ns. conclude c (λ err. err) (first_answer (λ n. n.get_genesis) 0 none ns))
        (beacon_instances_by_last_response c)

  -- This one does not store the index.
  unfoldable pub keep_index :
      {R : Type 0} → MultiBeaconClient T → Found R → MultiBeaconClient T × Returned R
  keep_index c (found i r) = (c, (some r, none))
  keep_index c (not_found err) = (c, (none, err))

  unfoldable pub get_spec : MultiBeaconClient T → Option (MultiBeaconClient T × Returned T.Spec)
  get_spec c =
      Option.map (λ ns. keep_index c (first_answer (λ n. n.get_spec) 0 none ns))
        (beacon_instances_by_last_response c)

  unfoldable pub get_fork_schedule :
      MultiBeaconClient T → Option (MultiBeaconClient T × Returned T.ForkSchedule)
  get_fork_schedule c =
      Option.map (λ ns. conclude c (λ err. err) (first_answer (λ n. n.get_fork_schedule) 0 none ns))
        (beacon_instances_by_last_response c)

  unfoldable pub get_randao :
      MultiBeaconClient T → ℕ → Option (MultiBeaconClient T × Returned T.Randao)
  get_randao c slot =
      Option.map (λ ns. conclude c (λ err. err) (first_answer (λ n. n.get_randao slot) 0 none ns))
        (beacon_instances_by_last_response c)

  -- The loop of `GetWithdrawals` is left at an error that names the fork.
  unfoldable pub first_withdrawals :
      ℕ → ℕ → Option Bytes → List (BeaconInstance T) → Found T.Withdrawals
  first_withdrawals slot i err [] = not_found err
  first_withdrawals slot i err (n ∷ ns) = elim (n.get_withdrawals slot) [
    | answer r ↦ found i r
    | failure e ↦
        let rest = first_withdrawals slot (suc i) (some e) ns in
        if contains not_enabled e then not_found (some e) else rest
  ]

  -- With no node at all, `err.Error()` is called on nil.
  unfoldable pub conclude_withdrawals :
      MultiBeaconClient T
      → Found T.Withdrawals
      → Option (MultiBeaconClient T × Returned T.Withdrawals)
  conclude_withdrawals c (found i r) = some (record c { best_beacon_index = i }, (some r, none))
  conclude_withdrawals c (not_found none) = none
  conclude_withdrawals c (not_found (some e)) = some (
      if contains not_enabled e
      then (c, (none, some err_withdrawals_before_capella))
      else (c, (none, some e)))

  unfoldable pub get_withdrawals :
      MultiBeaconClient T → ℕ → Option (MultiBeaconClient T × Returned T.Withdrawals)
  get_withdrawals c slot =
      Option.bind (beacon_instances_by_last_response c)
        (λ ns. conclude_withdrawals c (first_withdrawals slot 0 none ns))

  -- After the loop: the error or the 202 that came last.
  unfoldable pub publish_failed :
      MultiBeaconClient T → PublishResp → MultiBeaconClient T × ℕ × Option Bytes
  publish_failed c (i, code, none) = (c, code, none)
  publish_failed c (i, code, some e) = (c, code, some (last_error e))

  -- The responses in the order in which they arrive.
  unfoldable pub publish_loop :
      MultiBeaconClient T → PublishResp → List PublishResp → MultiBeaconClient T × ℕ × Option Bytes
  publish_loop c last [] = publish_failed c last
  publish_loop c last ((i, code, some e) ∷ rs) = publish_loop c (i, code, some e) rs
  publish_loop c last ((i, code, none) ∷ rs) =
      let rest = publish_loop c (i, code, none) rs in
      if code == 202 then rest else (record c { best_beacon_index = i }, code, none)

  abbrev pub responses_from :
      ℕ → T.Block → BroadcastMode → List (BeaconInstance T) → List PublishResp
  responses_from i block mode [] = []
  responses_from i block mode (n ∷ ns) =
      (i, (n.publish_block block mode).0, (n.publish_block block mode).1)
      ∷ responses_from (suc i) block mode ns

  -- `arrive` puts the responses in some order. The slot and the hash of the block are not nil here.
  unfoldable pub publish_block :
      (List PublishResp → List PublishResp)
      → MultiBeaconClient T
      → T.Block
      → Option (MultiBeaconClient T × ℕ × Option Bytes)
  publish_block arrive c block =
      Option.map
        (λ ns. publish_loop c (0, 0, none) (arrive (responses_from 0 block c.broadcast_mode ns)))
        (beacon_instances_by_last_response c)

  -- The answers of all nodes, in the order in which they take the mutex.
  unfoldable pub best_sync_status :
      (List (Response SyncStatus) → List (Response SyncStatus))
      → MultiBeaconClient T
      → Returned SyncStatus
  best_sync_status arrive c =
      sync_result c.ff_allow_syncing_beacon_node
        (sync_answers (none, false) (arrive (map (λ n. n.sync_status) c.beacon_instances)))
