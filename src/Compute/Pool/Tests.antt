-- ===== src/Compute/Pool/Tests.antt =====
-- The theorems on the EDT pool at concrete inputs.
use arts.Prelude.{ℕ, ◌+◌, ◌≤◌, ◌≡◌, refl, List, [], ◌∷◌, length}
use arts.Compute.Pool.{
  calloc, free, clear, release, obtain, alloc_size, bucket_index, bucket_sizes, max_per_bucket,
  ensure_init, release_at, put, push_entry, alloc, alloc_at, take_head, or_calloc, size_at, cleanup,
  drain,
}
use arts.Compute.Pool.Counts.{pooled, freed, given, AllSized}
use arts.Compute.Pool.Life.{
  Op, create, adopt, hand_over, delete, shutdown, new_worker, run, step, held, occurs, run_balances,
}

-- Two EDTs of 100 and 200 bytes are created at 1000 and 2000, the first is freed, and one of 90 bytes
-- created; one comes from another worker; all end.
abbrev history : List Op
history =
    create 100 1000
    ∷ create 200 2000
    ∷ delete 1
    ∷ create 90 3000
    ∷ adopt 5000 300
    ∷ hand_over 1
    ∷ delete 0
    ∷ shutdown
    ∷ []

run_balances_example :
    (let w = run new_worker history in
      ((a : ℕ)
        → pooled a w.pool + held a w.live + occurs a w.left + freed a w.log
          ≡ given a w.log + occurs a w.arrived)
      × ((i : ℕ)
          → ((w.pool.bucket i).count ≡ length (w.pool.bucket i).entries)
            × ((w.pool.bucket i).count ≤ max_per_bucket)
            × AllSized (bucket_sizes i) (w.pool.bucket i).entries))
run_balances_example = run_balances history

-- The third creation has got the block of the first; the block from the other worker is drained.
history_log :
    (run new_worker history).log
    ≡ calloc 1000 128 ∷ calloc 2000 256 ∷ clear 1000 128 ∷ free 5000 ∷ []
unfolding run step obtain release release_at put push_entry alloc alloc_at take_head or_calloc
    alloc_size size_at bucket_index bucket_sizes ensure_init cleanup drain
history_log = refl
