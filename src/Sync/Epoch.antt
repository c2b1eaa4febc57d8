-- ===== src/Sync/Epoch.antt =====
-- libs/src/core/sync/termination.c: an epoch and the operations that its counters go through.
-- An operation takes the epoch that its GUID's lookup found and returns the new one with the effects
-- on the rest of the runtime, in order. Logging and the event counters are left out. Each operation
-- here runs to its end; `Reduce` splits `reduce_epoch` at its atomic accesses.
pub mod Reduce
pub mod Single
pub mod Rounds
mod Tests
use arts.Prelude.{
  ℕ, zero, suc, ◌+◌, ◌-◌, ◌*◌, ◌/◌, ◌%◌, ◌^◌, Bool, true, false, ◌&&◌, not, ltb, leb, ◌==◌,
  if◌then◌else◌, Option, none, some, List, [], ◌∷◌, ◌++◌, map, u32, u64, sub_u32, sub_u64,
}
use arts.Gas.Guid.{get_rank, null_guid}

-- `termination_detection_phase_t`
pub data Phase : Type 0 where
  phase_1 phase_2 phase_3 : Phase

-- `arts_epoch_t`
pub record Epoch : Type 0 where
  pub epoch_counts : ℕ  -- active in the high 32 bits, finished in the low 32
  pub phase : Phase
  pub completed : ℕ
  pub global_active_count : ℕ
  pub global_finished_count : ℕ
  pub last_active_count : ℕ
  pub last_finished_count : ℕ
  pub queued : ℕ
  pub outstanding : ℕ
  pub termination_exit_slot : ℕ
  pub termination_exit_guid : ℕ
  pub guid : ℕ
  pub pool_guid : ℕ

-- What the file reads of the node: its rank, the number of ranks, `auto_shutdown_guid`.
pub record Node : Type 0 where
  pub rank_id : ℕ
  pub rank_count : ℕ
  pub auto_shutdown_guid : ℕ

-- Calls that leave the file.
pub data Effect : Type 0 where
  signal_edt_value : (edt slot value : ℕ) → Effect
  shutdown : Effect
  remote_send : (dest epoch active finished : ℕ) → Effect
  remote_request : (dest epoch : ℕ) → Effect
  remote_delete : (dest epoch : ℕ) → Effect
  remove_item : (guid : ℕ) → Effect
  free_epoch : (guid : ℕ) → Effect
  free_pool : (guid : ℕ) → Effect
  later_queue : (epoch : ℕ) → Effect
  later_active : (epoch : ℕ) → Effect
  later_finished : (epoch : ℕ) → Effect
  later_send : (epoch source dest : ℕ) → Effect

-- EPOCH_BIT
abbrev pub epoch_bit : ℕ
epoch_bit = 2 ^ 63

-- EPOCH_ACTIVE_INC
abbrev pub active_inc : ℕ
active_inc = 2 ^ 32

unfoldable pub active : Epoch → ℕ
active e = e.epoch_counts / 2 ^ 32

unfoldable pub finished : Epoch → ℕ
finished e = e.epoch_counts % 2 ^ 32

unfoldable pub inc_active : Epoch → Epoch
inc_active e = record e { epoch_counts = u64 (e.epoch_counts + active_inc) }

unfoldable pub inc_queue : Epoch → Epoch
inc_queue e = record e { queued = u64 (e.queued + 1) }

-- `for (i = 0; i < rank_count; i++) if (i != skip) f(i)`, from `i` on, with `k` rounds left.
unfoldable pub others_from : (skip i k : ℕ) → (ℕ → Effect) → List Effect
others_from skip i zero f = []
others_from skip i (suc k) f =
    if i == skip then others_from skip (i + 1) k f else f i ∷ others_from skip (i + 1) k f

unfoldable pub shutdown_epoch_fire : Node → ℕ → List Effect
shutdown_epoch_fire n g = if n.auto_shutdown_guid == g then shutdown ∷ [] else []

-- `if (termination_exit_guid) arts_signal_edt_value(…) else arts_shutdown_epoch_fire(…)`
unfoldable pub fire : Node → Epoch → ℕ → List Effect
unfolding shutdown_epoch_fire
fire n e value =
    if not (e.termination_exit_guid == null_guid)
    then signal_edt_value e.termination_exit_guid e.termination_exit_slot value ∷ []
    else shutdown_epoch_fire n e.guid

-- True if the queue drained: then the counter becomes the flag bit. The compare-and-swap that
-- follows the read succeeds, since the operation runs alone.
unfoldable pub decrement_queue_epoch : Epoch → Bool × Epoch
decrement_queue_epoch e =
    if e.queued == 1
    then (true, record e { queued = epoch_bit })
    else (false, record e { queued = sub_u64 e.queued 1 })

unfoldable pub increment_queue_epoch : ℕ → Option Epoch → Option Epoch × List Effect
unfolding inc_queue
increment_queue_epoch g none = (none, (if g == null_guid then [] else later_queue g ∷ []))
increment_queue_epoch g (some e) = (some (if g == null_guid then e else inc_queue e), [])

unfoldable pub increment_active_epoch : ℕ → Option Epoch → Option Epoch × List Effect
unfolding inc_active
increment_active_epoch g none = (none, later_active g ∷ [])
increment_active_epoch g (some e) = (some (inc_active e), [])

unfoldable pub broadcast_epoch_request : Node → ℕ → List Effect
unfolding others_from
broadcast_epoch_request n g = others_from (get_rank g) 0 n.rank_count (λ i. remote_request i g)

-- `arts_epoch_pool_t`, with the GUIDs of its epochs.
pub record Pool : Type 0 where
  pub guid : ℕ
  pub guids : List ℕ
  pub outstanding : ℕ

unfoldable pub delete_epoch : Node → ℕ → Epoch → Pool → Pool × List Effect
unfolding others_from
delete_epoch n g e pool =
    if not (e.pool_guid == null_guid)
    then (if n.rank_id == get_rank e.pool_guid
        then (let left = sub_u32 pool.outstanding 1 in
            (
              record pool { outstanding = left },
              remove_item g
                  ∷ (if left == 0
                      then remove_item e.pool_guid
                        ∷ others_from n.rank_id 0 n.rank_count (λ i. remote_delete i g)
                      else []),
            ))
        else (
          pool,
          map remove_item pool.guids ++ (remove_item e.pool_guid ∷ free_pool e.pool_guid ∷ []),
        ))
    else (
      pool,
      remove_item g
          ∷ free_epoch g
          ∷ (if n.rank_id == get_rank g
              then others_from n.rank_id 0 n.rank_count (λ i. remote_delete i g)
              else []),
    )

-- The single-node half of `increment_finished_epoch_impl`: one fetch-and-add that reads both
-- counters, then the compare-and-swap of the phase.
unfoldable pub increment_finished_single : Node → ℕ → Epoch → Pool → Epoch × Pool × List Effect
increment_finished_single n g e pool =
    let e' = record e { epoch_counts = u64 (e.epoch_counts + 1) } in
    let new_finished = u32 (finished_of e.epoch_counts + 1) in
    let cur_active = active_of e.epoch_counts in
    if ltb 0 new_finished && (new_finished == cur_active)
    then elim e.phase [
      | phase_1 ↦
          let done = record e' { phase = phase_3; completed = 1 } in
          let (pool', gone) = delete_epoch n g done pool in
          (done, pool', fire n done new_finished ++ gone)
      | _ ↦ (e', pool, [])
    ]
    else (e', pool, [])
  where
    finished_of : ℕ → ℕ
    finished_of c = c % 2 ^ 32

    active_of : ℕ → ℕ
    active_of c = c / 2 ^ 32

-- The multi-node half: the owner opens a round when its queue drains and none is open; another rank
-- sends its counts to the owner when its queue drains.
unfoldable pub increment_finished_multi : Node → ℕ → Epoch → Epoch × List Effect
unfolding decrement_queue_epoch
increment_finished_multi n g e =
    let prev = e.epoch_counts in
    let e' = record e { epoch_counts = u64 (prev + 1) } in
    if get_rank g == n.rank_id
    then (let left = sub_u64 e.queued 1 in
        if (left == 0) && (e.outstanding == 0)
        then (record e' { queued = left; outstanding = n.rank_count }, broadcast_epoch_request n g)
        else (record e' { queued = left }, []))
    else let (drained, e'') = decrement_queue_epoch e' in
      (
        e'',
        (if drained
            then remote_send (get_rank g) g (prev / 2 ^ 32) (u32 (prev % 2 ^ 32 + 1)) ∷ []
            else []),
      )

unfoldable pub increment_finished_epoch_impl : Node → ℕ → Epoch → Pool → Epoch × Pool × List Effect
increment_finished_epoch_impl n g e pool =
    if n.rank_count == 1
    then increment_finished_single n g e pool
    else let (e', out) = increment_finished_multi n g e in (e', pool, out)

unfoldable pub increment_finished_epoch :
    Node → ℕ → Option Epoch → Pool → Option Epoch × Pool × List Effect
increment_finished_epoch n g none pool =
    (none, pool, (if g == null_guid then [] else later_finished g ∷ []))
increment_finished_epoch n g (some e) pool =
    if g == null_guid
    then (some e, pool, [])
    else let (e', pool', out) = increment_finished_epoch_impl n g e pool in (some e', pool', out)

-- The flag bit is cleared, and set again as the counts are sent if nothing is queued.
unfoldable pub send_epoch : ℕ → (source dest : ℕ) → Option Epoch → Option Epoch × List Effect
unfolding active finished
send_epoch g source dest none = (none, later_send g source dest ∷ [])
send_epoch g source dest (some e) =
    let left = e.queued % 2 ^ 63 in
    if left == 0
    then (some (record e { queued = epoch_bit }), remote_send dest g (active e) (finished e) ∷ [])
    else (some (record e { queued = left }), [])

-- A new epoch as `create_epoch` makes it for a given GUID (a NULL one is drawn first, which is
-- `create_for_rank` of the GUID generator); it is added to the route table and what was waiting for
-- it is replayed.
unfoldable pub create_epoch : Node → (guid edt slot : ℕ) → Epoch
create_epoch n g edt slot = record {
  epoch_counts = 0;
  phase = phase_1;
  completed = 0;
  global_active_count = 0;
  global_finished_count = 0;
  last_active_count = 0;
  last_finished_count = 0;
  queued = (if n.rank_id == get_rank g then 0 else epoch_bit);
  outstanding = 0;
  termination_exit_slot = slot;
  termination_exit_guid = edt;
  guid = g;
  pool_guid = null_guid;
}

-- `arts_start_epoch` and the end of `arts_initialize_and_start_epoch` count the caller in.
unfoldable pub start_epoch : Epoch → Epoch
unfolding inc_active inc_queue
start_epoch e = inc_queue (inc_active e)

-- The pre-seeding of `arts_shutdown_epoch_create` for `workers` workers.
unfoldable pub shutdown_epoch_create : Node → (guid workers : ℕ) → Epoch
unfolding create_epoch
shutdown_epoch_create n g workers =
    let e = create_epoch n g null_guid 0 in
    record e {
      epoch_counts = u64 (e.epoch_counts + u64 (workers * 2 ^ 32));
      queued = u64 (e.queued + workers);
    }

-- `check_epoch`: is the epoch over? The Boolean asks for another round.
unfoldable pub check_epoch :
    Node → Epoch → (total_active total_finish : ℕ) → Bool × Epoch × List Effect
check_epoch n e total_active total_finish =
    if not (total_finish == 0) && (sub_u32 total_active total_finish == 0)
    then (if n.rank_count == 1
        then elim e.phase [ phase_1 ↦ (false, closed, fire n e total_finish) | _ ↦ (false, e, []) ]
        else elim e.phase [
          | phase_2 ↦
              (if (e.last_active_count == total_active) && (e.last_finished_count == total_finish)
                then (false, closed, fire n e total_finish)
                else (true, again, []))
          | _ ↦ (true, again, [])
        ])
    else (e.queued == 0, record e { phase = phase_1 }, [])
  where
    closed : Epoch
    closed = record e { phase = phase_3; completed = 1 }

    again : Epoch
    again = record e {
      last_active_count = total_active;
      last_finished_count = total_finish;
      phase = phase_2;
    }
