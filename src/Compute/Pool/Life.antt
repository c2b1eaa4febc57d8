-- ===== src/Compute/Pool/Life.antt =====
-- The EDT pool of edt.c over the life of a worker, which creates and frees EDTs in its pool.
use arts.Prelude.{
  ℕ, ◌+◌, ◌≤◌, ◌≡◌, arith, Option, none, some, List, [], ◌∷◌, ◌++◌, get_elem?, remove, tally,
  tally-remove, refl, length, false,
}
use arts.Compute.Pool.{
  Pool, Effect, no_entries, obtain, release, cleanup, alloc_size, max_per_bucket, bucket_sizes,
}
use arts.Compute.Pool.Counts.{hit, pooled, given, freed, IsValid, empty-IsFit, AllSized}
use arts.Compute.Pool.Balance.{
  obtain-Conserves, release-Conserves, cleanup-Conserves, given-append, freed-append,
}

-- The block of an EDT, with its `header.size`
pub record Block : Type 0 where
  pub address : ℕ
  pub size : ℕ

-- A worker: its pool, the EDTs that it holds, the blocks of EDTs that came from other workers or went
-- to them, and its calls of the allocator.
pub record Worker : Type 0 where
  pub pool : Pool
  pub live : List Block
  pub arrived : List ℕ
  pub left : List ℕ
  pub log : List Effect

-- An EDT is created (`fresh` is what the allocator would give), taken over from another worker, handed
-- to another worker, or freed (`k` is its place among the live ones); the worker ends.
pub data Op : Type 0 where
  create : (space fresh : ℕ) → Op
  adopt : (address space : ℕ) → Op
  hand_over : (k : ℕ) → Op
  delete : (k : ℕ) → Op
  shutdown : Op

abbrev pub free_block : Worker → ℕ → Option Block → Worker
free_block w k none = w
free_block w k (some b) =
    let (p, out) = release w.pool b.address b.size in
    record w { pool = p; live = remove w.live k; log = w.log ++ out }

abbrev pub give_block : Worker → ℕ → Option Block → Worker
give_block w k none = w
give_block w k (some b) = record w { live = remove w.live k; left = b.address ∷ w.left }

unfoldable pub step : Worker → Op → Worker
step w (create space fresh) =
    let (x, p, out) = obtain w.pool space fresh in
    record w {
      pool = p;
      live = record { address = x; size = alloc_size space } ∷ w.live;
      log = w.log ++ out;
    }
step w (adopt x space) = record w {
  live = record { address = x; size = alloc_size space } ∷ w.live;
  arrived = x ∷ w.arrived;
}
step w (hand_over k) = give_block w k (get_elem? w.live k)
step w (delete k) = free_block w k (get_elem? w.live k)
step w shutdown = let (p, out) = cleanup w.pool in record w { pool = p; log = w.log ++ out }

unfoldable pub run : Worker → List Op → Worker
run w [] = w
run w (op ∷ ops) = run (step w op) ops

-- A thread's pool as the program starts
abbrev pub new_pool : Pool
new_pool = record { bucket = λ i. no_entries; initialized = false }

abbrev pub new_worker : Worker
new_worker = record { pool = new_pool; live = []; arrived = []; left = []; log = [] }

abbrev pub held : ℕ → List Block → ℕ
held a bs = tally (λ b. hit a b.address) bs

abbrev pub occurs : ℕ → List ℕ → ℕ
occurs a xs = tally (hit a) xs

-- Where the blocks of an address are, and where they came from.
pub record Balanced (w : Worker) : Type 0 where
  pub balance :
      (a : ℕ)
      → pooled a w.pool + held a w.live + occurs a w.left + freed a w.log
        ≡ given a w.log + occurs a w.arrived
  pub valid : IsValid w.pool

free_block-Balanced :
    (w : Worker) (k : ℕ) (o : Option Block)
    → get_elem? w.live k ≡ o
    → Balanced w
    → Balanced (free_block w k o)
free_block-Balanced w k none e ok = ok
free_block-Balanced w k (some b) e ok =
    let c = release-Conserves w.pool b.address b.size ok.valid in
    let out = (release w.pool b.address b.size).1 in
    record {
      balance = λ a. omega (
        arith,
        c.balance a,
        ok.balance a,
        tally-remove (λ c. hit a c.address) w.live k b e,
        given-append a w.log out,
        freed-append a w.log out,
      );
      valid = c.valid;
    }

give_block-Balanced :
    (w : Worker) (k : ℕ) (o : Option Block)
    → get_elem? w.live k ≡ o
    → Balanced w
    → Balanced (give_block w k o)
give_block-Balanced w k none e ok = ok
give_block-Balanced w k (some b) e ok = record {
  balance = λ a. omega (arith, ok.balance a, tally-remove (λ c. hit a c.address) w.live k b e);
  valid = ok.valid;
}

step-Balanced : (w : Worker) (op : Op) → Balanced w → Balanced (step w op)
unfolding step
step-Balanced w (create space fresh) ok =
    let c = obtain-Conserves w.pool space fresh ok.valid in
    let out = (obtain w.pool space fresh).2 in
    record {
      balance = λ a.
          omega
            (arith, c.balance a, ok.balance a, given-append a w.log out, freed-append a w.log out);
      valid = c.valid;
    }
step-Balanced w (adopt x space) ok = record {
  balance = λ a. omega (arith, ok.balance a);
  valid = ok.valid;
}
step-Balanced w (hand_over k) ok = give_block-Balanced w k (get_elem? w.live k) refl ok
step-Balanced w (delete k) ok = free_block-Balanced w k (get_elem? w.live k) refl ok
step-Balanced w shutdown ok =
    let c = cleanup-Conserves w.pool ok.valid in
    let out = (cleanup w.pool).1 in
    record {
      balance = λ a.
          omega
            (arith, c.balance a, ok.balance a, given-append a w.log out, freed-append a w.log out);
      valid = c.valid;
    }

run-Balanced : (w : Worker) (ops : List Op) → Balanced w → Balanced (run w ops)
unfolding run
run-Balanced w [] ok = ok
run-Balanced w (op ∷ ops) ok = run-Balanced (step w op) ops (step-Balanced w op ok)

new_worker-Balanced : Balanced new_worker
new_worker-Balanced = record {
  balance = λ a. omega arith;
  valid = record { fit = λ i. empty-IsFit (bucket_sizes i); unused = λ i h. refl };
}

-- A worker that starts with an empty pool, after any sequence of EDTs created, taken over from
-- others, handed to others and freed, and ends of the worker: for every address, the blocks in the
-- pool, held by live EDTs, handed to others and given back to the allocator are together those that
-- the allocator gave and those taken over, so none is lost, none given back twice and none in two
-- places; and every bucket counts its list, which has at most 64 entries, each of the bucket's size.
pub run_balances :
    (ops : List Op)
    → (let w = run new_worker ops in
        ((a : ℕ)
          → pooled a w.pool + held a w.live + occurs a w.left + freed a w.log
            ≡ given a w.log + occurs a w.arrived)
        × ((i : ℕ)
            → ((w.pool.bucket i).count ≡ length (w.pool.bucket i).entries)
              × ((w.pool.bucket i).count ≤ max_per_bucket)
              × AllSized (bucket_sizes i) (w.pool.bucket i).entries))
run_balances ops =
    let ok = run-Balanced new_worker ops new_worker-Balanced in
    let fit = ok.valid.fit in (ok.balance, (λ i. ((fit i).counted, (fit i).bounded, (fit i).sized)))
