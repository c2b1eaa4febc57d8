-- ===== src/Sync/Epoch/Reduce.antt =====
-- `reduce_epoch` of libs/src/core/sync/termination.c: the owner adds up the counts that the ranks
-- send in a round, and checks the epoch when the last of them is in.
use arts.Prelude.{
  ℕ, ◌+◌, ◌-◌, Bool, true, false, ◌==◌, leb, if◌then◌else◌, Option, none, some, List, [], ◌++◌, u32,
  u64, sub_u32, sub_u64,
}
use arts.Sync.Epoch.{
  Epoch, Node, Effect, Pool, Phase, phase_3, active, finished, check_epoch, delete_epoch,
  broadcast_epoch_request,
}

-- What a response has read of the two totals when it added its counts.
pub record Totals : Type 0 where
  pub epoch : Epoch
  pub total_active : ℕ
  pub total_finish : ℕ

-- The two atomic additions; `none` if no round is open.
unfoldable pub reduce_add : Epoch → (active finish : ℕ) → Option Totals
reduce_add e a f =
    if leb e.outstanding 1
    then none
    else some (record {
      epoch = record e {
        global_active_count = u32 (e.global_active_count + a);
        global_finished_count = u32 (e.global_finished_count + f);
      };
      total_active = u32 (e.global_active_count + a);
      total_finish = u32 (e.global_finished_count + f);
    })

unfoldable pub is_closed : Phase → Bool
is_closed phase_3 = true
is_closed _ = false

-- What follows the last response: the round is checked, and another one opened or the epoch deleted.
unfoldable pub reduce_finish :
    Node → ℕ → Epoch → Pool → (total_active total_finish : ℕ) → Epoch × Pool × List Effect
unfolding is_closed
reduce_finish n g e pool total_active total_finish =
    let all_active = u32 (total_active + u32 (active e)) in
    let all_finish = u32 (total_finish + finished e) in
    let reset = record e { global_active_count = 0; global_finished_count = 0 } in
    let (next, e', out) = check_epoch n reset all_active all_finish in
    let more = u64 (e'.outstanding + sub_u32 n.rank_count 1) in
    let e'' = record e' { outstanding = (if next then more else sub_u64 e'.outstanding 1) } in
    let sent = (if next then broadcast_epoch_request n g else []) in
    let (pool', gone) = delete_epoch n g e'' pool in
    if is_closed e''.phase then (e'', pool', out ++ (sent ++ gone)) else (e'', pool, out ++ sent)

-- The compare-and-swap that counts the response off, with the totals that it read before.
unfoldable pub reduce_close :
    Node → ℕ → Epoch → Pool → (a f total_active total_finish : ℕ) → Epoch × Pool × List Effect
reduce_close n g e pool a f total_active total_finish =
    if leb e.outstanding 1
    then (
      record e {
        global_active_count = sub_u32 e.global_active_count a;
        global_finished_count = sub_u32 e.global_finished_count f;
      },
      pool,
      [],
    )
    else (let after = e.outstanding - 1 in
        let e' = record e { outstanding = after } in
        if after == 1 then reduce_finish n g e' pool total_active total_finish else (e', pool, []))

-- A response that is handled with no other in between.
unfoldable pub reduce_epoch : Node → ℕ → Epoch → Pool → (a f : ℕ) → Epoch × Pool × List Effect
unfolding reduce_add reduce_close
reduce_epoch n g e pool a f = elim (reduce_add e a f) [
  | none ↦ (e, pool, [])
  | some t ↦ reduce_close n g t.epoch pool a f t.total_active t.total_finish
]
