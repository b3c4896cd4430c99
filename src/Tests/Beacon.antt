-- ===== src/Tests/Beacon.antt =====
-- Three nodes: the second fails, the third answers and publishes.
use mathlib.Core.List.{Memᴰ}
use mev_boost_relay.Prelude.{ℕ, ◌≡◌, refl, none, some, [], ◌∷◌, ◌⊎◌, codes, false, All, arith, ◌==◌}
use mev_boost_relay.Beacon.{
  Answers, answer, failure, BeaconInstance, MultiBeaconClient, consensus_and_equivocation,
  SyncStatus, get_state_validators, get_proposer_duties, publish_block, best_sync_status, Returned,
  beacon_instances_by_last_response, err_beacon_node_syncing,
}
use mev_boost_relay.Beacon.Calls.{IsValid, Result, get_state_validators-Served}
use mev_boost_relay.Beacon.Broadcast.{publish_block_succeeds, best_sync_status_synced, NotSynced}
use mev_boost_relay.Beacon.Sequences.{
  after_all, after_all-IsValid, last_response_lost, proposer_duties, state_validators, withdrawals,
}

abbrev numbers : Answers
numbers = record {
  Validators = ℕ;
  Duties = ℕ;
  Genesis = ℕ;
  Spec = ℕ;
  ForkSchedule = ℕ;
  Randao = ℕ;
  Withdrawals = ℕ;
  Block = ℕ;
}

-- A node with a number, which publishes with status 200.
abbrev good_node : ℕ → BeaconInstance numbers
good_node k = record {
  sync_status = answer (record { head_slot = k; is_syncing = false });
  get_state_validators = λ id. answer k;
  get_proposer_duties = λ epoch. answer k;
  get_genesis = answer k;
  get_spec = answer k;
  get_fork_schedule = answer k;
  get_randao = λ slot. answer k;
  get_withdrawals = λ slot. answer k;
  publish_block = λ block mode. (200, none);
}

abbrev bad_node : BeaconInstance numbers
bad_node = record {
  sync_status = failure (codes "down");
  get_state_validators = λ id. failure (codes "down");
  get_proposer_duties = λ epoch. failure (codes "down");
  get_genesis = failure (codes "down");
  get_spec = failure (codes "down");
  get_fork_schedule = failure (codes "down");
  get_randao = λ slot. failure (codes "down");
  get_withdrawals = λ slot. failure (codes "down");
  publish_block = λ block mode. (0, some (codes "down"));
}

abbrev client : MultiBeaconClient numbers
client = record {
  best_beacon_index = 2;
  beacon_instances = good_node 1 ∷ bad_node ∷ good_node 3 ∷ [];
  ff_allow_syncing_beacon_node = false;
  broadcast_mode = consensus_and_equivocation;
}

client-IsValid : IsValid client
client-IsValid = omega arith

get_state_validators-Served_example :
    (p : MultiBeaconClient numbers × Returned ℕ) × (get_state_validators client (codes "head")
      ≡ some p)
    × Result (λ n. n.get_state_validators (codes "head")) client p
get_state_validators-Served_example =
    get_state_validators-Served client (codes "head") client-IsValid

publish_block_succeeds_example :
    (d : MultiBeaconClient numbers) × (other : ℕ) × (publish_block (λ rs. rs) client 5
      ≡ some (d, other, none))
    × ((other == 202) ≡ false)
publish_block_succeeds_example =
    publish_block_succeeds (λ rs. rs) client 5 (good_node 1) 200 (λ xs x m. m) client-IsValid
      (Memᴰ.head refl) refl refl

best_sync_status_synced_example :
    ((n : BeaconInstance numbers) × (t : SyncStatus) × Memᴰ n client.beacon_instances
      × (n.sync_status ≡ answer t)
      × (t.is_syncing ≡ false)
      × (best_sync_status (λ rs. rs) client ≡ (some t, none)))
    ⊎ ((best_sync_status (λ rs. rs) client ≡ (none, some err_beacon_node_syncing))
        × All (λ n. NotSynced n.sync_status) client.beacon_instances)
best_sync_status_synced_example =
    best_sync_status_synced (λ rs. rs) client (λ xs x m. m) (λ xs x m. m) refl

after_all-IsValid_example :
    (d : MultiBeaconClient numbers) × (after_all client
        (proposer_duties 4 ∷ state_validators (codes "head") ∷ withdrawals 9 ∷ [])
      ≡ some d)
    × IsValid d
after_all-IsValid_example =
    after_all-IsValid (proposer_duties 4 ∷ state_validators (codes "head") ∷ withdrawals 9 ∷ [])
      client client-IsValid

last_response_lost_example :
    (d : MultiBeaconClient numbers) × (get_proposer_duties client 4 ≡ some (d, (some 3, none)))
    × (beacon_instances_by_last_response d ≡ some (good_node 1 ∷ bad_node ∷ good_node 3 ∷ []))
last_response_lost_example =
    last_response_lost client 4 1 (good_node 1) (good_node 3) (bad_node ∷ good_node 3 ∷ []) 3 refl
      refl refl refl
