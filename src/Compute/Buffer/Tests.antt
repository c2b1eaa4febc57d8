-- ===== src/Compute/Buffer/Tests.antt =====
-- The buffers at work.
use arts.Prelude.{
  ℕ, ◌+◌, ◌*◌, ◌^◌, ◌≤◌, ◌<◌, ◌≡◌, arith, ltb, if◌then◌else◌, none, some, List, [], ◌∷◌, length,
  take, tally, refl,
}
use arts.Gas.Guid.{get_rank}
use arts.Compute.Buffer.{
  Stub, Effect, active_epoch, active_shutdown_epoch, queue_epoch, queue_shutdown_epoch,
  finished_epoch, finished_shutdown_epoch, malloc, copy, add_item, remove_item, free_stub,
  allocate_local_buffer, place, of_epoch, grow, use_up, note_size, copy_in, set_found, set_local,
  set_buffer, block_for_buffer,
}
use arts.Compute.Buffer.Uses.{
  Call, sets, step, run, effects, removes, frees, queues, ends, is_set, run_uses,
}

-- A buffer of rank 3 that two calls set and one waits for
abbrev buffer_guid : ℕ
buffer_guid = 17 + 3 * 2 ^ 40 + 4 * 2 ^ 56

abbrev two_sets : List Call
two_sets = sets 900 8 500 ∷ sets 910 8 501 ∷ []

abbrev stub : Stub
stub = record { buffer = 0; size_to_write = 0; size = 0; uses = 3; epoch_guid = 70 }

abbrev first_calls : List Effect
first_calls = active_epoch 70 ∷ active_shutdown_epoch ∷ add_item ∷ []

allocated : allocate_local_buffer (some 0) 0 3 70 400 ≡ some (stub, first_calls)
unfolding allocate_local_buffer of_epoch place
allocated = refl

on_rank : get_rank buffer_guid ≡ 3
unfolding get_rank
on_rank = refl

-- The first set gives the buffer its memory.
first_set :
    (run 3 buffer_guid (some stub) (sets 900 8 500 ∷ [])).1
    ≡ queue_epoch 70
      ∷ queue_shutdown_epoch
      ∷ malloc 8
      ∷ copy 500 900 8
      ∷ finished_epoch 70
      ∷ finished_shutdown_epoch
      ∷ []
unfolding run step effects set_buffer set_local set_found grow use_up note_size copy_in of_epoch
    get_rank
first_set = refl

run_uses_example :
    (let (left, more) = run 3 buffer_guid (some stub) two_sets in
      (tally removes more ≡ (if ltb (length two_sets) 3 then 0 else 1))
      × (tally frees more ≡ (if ltb (length two_sets) 3 then 0 else 1))
      × (tally queues more ≡ tally is_set (take 3 two_sets))
      × (tally ends more ≡ tally is_set (take 3 two_sets))
      × (3 ≤ length two_sets → left ≡ none)
      × (length two_sets + 1 < 3 → block_for_buffer 3 buffer_guid left ≡ none)
      × (length two_sets + 1 ≡ 3
          → (p : ℕ) × (block_for_buffer 3 buffer_guid left
              ≡ some (p, none, remove_item ∷ free_stub ∷ []))))
run_uses_example =
    run_uses 3 buffer_guid 0 400 3 70 0 two_sets stub first_calls on_rank (omega arith)
      (omega arith) (λ h. omega (arith, h)) allocated
