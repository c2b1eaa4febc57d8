-- ===== src/Sync/Epoch/Tests.antt =====
-- The epoch theorems at concrete inputs.
use arts.Prelude.{ℕ, ◌^◌, ◌<◌, ◌≡◌, refl, arith, true, false, List, [], ◌∷◌, ◌++◌}
use arts.Gas.Guid.{get_rank}
use arts.Sync.Epoch.{
  Epoch, Node, Pool, phase_1, phase_3, signal_edt_value, remove_item, free_epoch, remote_request,
  create_epoch, start_epoch, inc_active, increment_finished_single, increment_finished_multi,
  delete_epoch, fire, check_epoch, broadcast_epoch_request,
}
use arts.Sync.Epoch.Single
use arts.Sync.Epoch.Single.{
  packed, closed, spawn, finish, increment_finished_single_lem, run_fires_once,
}
use arts.Sync.Epoch.Rounds
use arts.Sync.Epoch.Rounds.{
  checked, check_epoch_closes, check_epoch_confirms, gathered, run_round, crossed, crossed-loses,
}
use arts.Sync.Epoch.Reduce.{reduce_finish}

abbrev one_node : Node
one_node = record { rank_id = 0; rank_count = 1; auto_shutdown_guid = 0 }

abbrev three_nodes : Node
three_nodes = record { rank_id = 0; rank_count = 3; auto_shutdown_guid = 0 }

abbrev no_pool : Pool
no_pool = record { guid = 0; guids = []; outstanding = 0 }

-- GUID 5, of rank 0; its exit task 9 has slot 2. One task is active.
abbrev open_epoch : Epoch
open_epoch = record {
  epoch_counts = 2 ^ 32;
  phase = phase_1;
  completed = 0;
  global_active_count = 0;
  global_finished_count = 0;
  last_active_count = 0;
  last_finished_count = 0;
  queued = 1;
  outstanding = 0;
  termination_exit_slot = 2;
  termination_exit_guid = 9;
  guid = 5;
  pool_guid = 0;
}

create-start : start_epoch (create_epoch one_node 5 9 2) ≡ open_epoch
unfolding create_epoch start_epoch get_rank
create-start = refl

-- A parent, a child that it creates, and both finish.
abbrev parent_and_child : List Single.Task
parent_and_child = spawn ∷ finish ∷ finish ∷ []

parent_and_child_fires :
    (Single.run one_node 5 open_epoch no_pool parent_and_child).2
    ≡ signal_edt_value 9 2 2 ∷ remove_item 5 ∷ free_epoch 5 ∷ []
unfolding Single.run inc_active increment_finished_single delete_epoch fire get_rank
parent_and_child_fires = refl

run_fires_once_example :
    (Single.run one_node 5 open_epoch no_pool (parent_and_child ++ finish ∷ [])).2
    ≡ fire one_node (closed open_epoch (packed 2 2)) 2
      ++ (delete_epoch one_node 5 (closed open_epoch (packed 2 2)) no_pool).1
run_fires_once_example =
    run_fires_once one_node 5 open_epoch no_pool 1 0 2 parent_and_child (finish ∷ []) refl refl
      (omega arith) (omega arith) (omega arith)

check_epoch_closes_example : ◌≡◌ {A = ℕ} 4 4 × ◌≡◌ {A = ℕ} 4 4 × ◌≡◌ {A = ℕ} 4 4 × (0 < 4)
unfolding check_epoch
check_epoch_closes_example =
    check_epoch_closes three_nodes (omega arith) open_epoch (4, 4) (4, 4) (omega arith)
      (omega arith) (omega arith) (omega arith) (λ e. cc) refl

check_epoch_confirms_example :
    let (next, e', out) = check_epoch three_nodes open_epoch 4 4 in
    let (next', e'', out') = check_epoch three_nodes e' 4 4 in
    (next ≡ true)
    × (out ≡ [])
    × (next' ≡ false)
    × (e''.phase ≡ phase_3)
    × (e''.completed ≡ 1)
    × (out' ≡ fire three_nodes e' 4)
check_epoch_confirms_example =
    check_epoch_confirms three_nodes (omega arith) open_epoch 4 (omega arith) (omega arith) refl

-- A round with two responses to come.
abbrev waiting : Epoch
waiting = record open_epoch { outstanding = 3 }

run_round_example :
    Rounds.run three_nodes 5 waiting no_pool ((3, 2) ∷ (4, 4) ∷ [])
    ≡ reduce_finish three_nodes 5 (gathered waiting 7 6) no_pool 7 6
run_round_example = run_round three_nodes 5 waiting no_pool (3, 2) ((4, 4) ∷ []) refl

crossed-loses_example :
    crossed three_nodes 5 waiting no_pool (3, 2) (4, 4)
    ≡ reduce_finish three_nodes 5 (gathered waiting 7 6) no_pool 3 2
crossed-loses_example = crossed-loses three_nodes 5 waiting no_pool 3 2 4 4 refl

-- The owner's queue drains: it asks the two other ranks.
owner_asks :
    (increment_finished_multi three_nodes 5 open_epoch).1
    ≡ remote_request 1 5 ∷ remote_request 2 5 ∷ []
unfolding increment_finished_multi broadcast_epoch_request get_rank
owner_asks = refl
