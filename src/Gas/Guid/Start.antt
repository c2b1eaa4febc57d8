-- ===== src/Gas/Guid/Start.antt =====
-- The generator as the parallel start leaves it: every worker has run `arts_guid_key_generator_init`,
-- and then `set_guid_generator_after_parallel_start` has divided the keys. The workers are the threads
-- below `worker_thread_count`; the sender and the receivers, which share one more stripe, are no part.
use arts.Prelude.{
  ℕ, zero, suc, ◌+◌, ◌*◌, ◌/◌, ◌^◌, ◌<◌, ◌≤◌, ◌≡◌, ◌∙◌, refl, ap, ap₂, arith, Bool, true, false,
  ◌==◌, if◌then◌else◌, some, List, Bool-cases, inl, inr, ==→eq, ==→ne, u32, u64, sub_u64,
}
use native.Mathlib.Nat.{mul-le-mul_left, mul-le-mul_right, div-mul-le_self}
use arts.Gas.Guid.{Generator, Node, key_generator_init, set_generator_after_parallel_start}
use arts.Gas.Guid.Alloc.{IsReady, Request, AreRequests, AllDisjoint, run, run-AllDisjoint_ready}

-- The globals before, with the keys below `g` left
abbrev pub boot : (g : ℕ) → Generator
boot g = record {
  global_guid_on = g;
  keys_per_thread = 0;
  min_global_guid_thread = 0;
  max_global_guid_thread = 0;
  keys = λ _ _. 0;
  global_guid_thread_id = λ _. 0;
}

-- The first `k` workers have started.
unfoldable pub init_workers : Node → Generator → (k : ℕ) → Generator
init_workers n s zero = s
init_workers n s (suc k) = key_generator_init n (init_workers n s k) k true

unfoldable pub started : Node → (g : ℕ) → Generator
started n g = set_generator_after_parallel_start n (init_workers n (boot g) n.worker_thread_count)

-- A rank of at most 2^16, with fewer than 2^16 workers
pub record IsNode (n : Node) : Type 0 where
  pub rank_in : n.rank_id < n.rank_count
  pub ranks : n.rank_count ≤ 2 ^ 16
  pub workers : n.worker_thread_count < 2 ^ 16

-- The number of stripes that the threads are given on each rank
abbrev tables : Node → ℕ
tables n = if n.rank_count == 1 then n.worker_thread_count else u32 (n.worker_thread_count + 1)

abbrev base : Node → ℕ
base n = tables n * n.rank_id

tables_few : (n : Node) → IsNode n → tables n ≤ suc n.worker_thread_count
tables_few n ok = ground (arith, ok.workers)

-- The stripes of a rank lie below the number of stripes that the keys are divided by.
base-room :
    (n : Node)
    → IsNode n
    → base n + suc n.worker_thread_count ≤ suc n.worker_thread_count * n.rank_count
base-room n ok =
    let m = suc n.worker_thread_count in
    let h₁ : tables n * n.rank_id ≤ m * n.rank_id = mul-le-mul_right n.rank_id (tables_few n ok) in
    let h₂ : m * suc n.rank_id ≤ m * n.rank_count = mul-le-mul_left m (omega (arith, ok.rank_in)) in
    let h₃ : m * suc n.rank_id ≡ m * n.rank_id + m = grind arith in omega (arith, h₁, h₂, h₃)

stripes_few : (n : Node) → IsNode n → suc n.worker_thread_count * n.rank_count ≤ 2 ^ 32
stripes_few n ok =
    let h₁ : suc n.worker_thread_count * n.rank_count ≤ 2 ^ 16 * n.rank_count =
      mul-le-mul_right n.rank_count (omega (arith, ok.workers)) in
    omega (arith, h₁, ok.ranks)

base_small : (n : Node) → IsNode n → base n + suc n.worker_thread_count ≤ 2 ^ 32
base_small n ok = omega (arith, base-room n ok, stripes_few n ok)

last_table :
    (one : Bool) (b t w : ℕ)
    → b + suc w ≤ 2 ^ 32
    → t ≡ (if one then w else w + 1)
    → (if one then u64 (u64 b + t) else sub_u64 (u64 b + t) 1) ≡ b + w
last_table true b t w small e = omega (arith, small, e)
last_table false b t w small e = omega (arith, small, e)

most_lem :
    (n : Node)
    → IsNode n
    → (if n.rank_count == 1
        then u64 (u64 (base n) + tables n)
        else sub_u64 (u64 (base n) + tables n) 1)
      ≡ base n + n.worker_thread_count
most_lem n ok =
    last_table (n.rank_count == 1) (base n) (tables n) n.worker_thread_count (base_small n ok)
      (ground (arith, ok.workers))

-- What the workers that have started leave
record Begun (n : Node) (g k : ℕ) (s : Generator) : Type 0 where
  counting : s.global_guid_on ≡ g
  stripe : (t : ℕ) → t < k → s.global_guid_thread_id t ≡ base n + t
  least : 0 < k → s.min_global_guid_thread ≡ base n
  most : 0 < k → s.max_global_guid_thread ≡ base n + n.worker_thread_count
  small : (t i : ℕ) → s.keys t i < 2 ^ 63

init_workers-Begun :
    (n : Node) (g k : ℕ)
    → IsNode n
    → k ≤ n.worker_thread_count
    → Begun n g k (init_workers n (boot g) k)
unfolding init_workers key_generator_init
init_workers-Begun n g zero ok le = record {
  counting = refl;
  stripe = λ t h. absurd (omega (arith, h));
  least = λ h. absurd (omega (arith, h));
  most = λ h. absurd (omega (arith, h));
  small = λ t i. omega arith;
}
init_workers-Begun n g (suc k) ok le =
    let b = init_workers-Begun n g k ok (omega (arith, le)) in
    let room = base-room n ok in
    let few = stripes_few n ok in
    record {
      counting = b.counting;
      stripe = λ t h. elim (Bool-cases (t == k)) [
        | inl same ↦ simp same (omega (arith, ==→eq t k same, base_small n ok, le))
        | inr other ↦ simp other (b.stripe t (omega (arith, h, ==→ne t k other)))
      ];
      least = λ h. omega (arith, base_small n ok);
      most = λ h. most_lem n ok;
      small = λ t i. ground (arith, b.small t i);
    }

started-Begun :
    (n : Node) (g : ℕ)
    → IsNode n
    → Begun n g n.worker_thread_count (init_workers n (boot g) n.worker_thread_count)
started-Begun n g ok = init_workers-Begun n g n.worker_thread_count ok (omega arith)

-- The stripes of the workers lie side by side, within 40 bits.
pub started-IsReady :
    (n : Node) (g : ℕ) → IsNode n → g ≤ 2 ^ 40 → IsReady n.worker_thread_count (started n g)
unfolding started set_generator_after_parallel_start
started-IsReady n g ok le =
    let b = started-Begun n g ok in
    record {
      started = refl;
      fits = λ t h.
          (let few = base-room n ok in
            let q = (started n g).keys_per_thread in
            let all : q * (suc n.worker_thread_count * n.rank_count) ≤ g =
              (let m : u32 (n.worker_thread_count + 1) ≡ suc n.worker_thread_count =
                  omega (arith, ok.workers) in
                let d : u64 (u32 (n.worker_thread_count + 1) * n.rank_count)
                    ≡ suc n.worker_thread_count * n.rank_count =
                  ap (λ x. u64 (x * n.rank_count)) m ∙ omega (arith, stripes_few n ok) in
                let e : q ≡ g / (suc n.worker_thread_count * n.rank_count) =
                  ap₂ (λ x y. x / y) b.counting d in
                rw e (div-mul-le_self g (suc n.worker_thread_count * n.rank_count))) in
            let inside : q * suc (base n + t) ≤ q * (suc n.worker_thread_count * n.rank_count) =
              mul-le-mul_left q (omega (arith, few, h)) in
            let one_more : q * suc (base n + t) ≡ q * (base n + t) + q = grind arith in
            let at : q * (init_workers n (boot g) n.worker_thread_count).global_guid_thread_id t
                ≡ q * (base n + t) =
              ap (λ x. q * x) (b.stripe t h) in
            omega (arith, all, inside, one_more, at, le));
      apart = λ t u h h' e. omega (arith, b.stripe t h, b.stripe u h', e);
      small = b.small;
    }

-- Where the stripe of a worker stands, and which stripes have a table of their own.
pub started-stripe :
    (n : Node) (g t : ℕ)
    → IsNode n
    → t < n.worker_thread_count
    → ((started n g).global_guid_thread_id t ≡ (started n g).min_global_guid_thread + t)
      × ((started n g).min_global_guid_thread + n.worker_thread_count
          ≤ (started n g).max_global_guid_thread)
unfolding started set_generator_after_parallel_start
started-stripe n g t ok h =
    let b = started-Begun n g ok in
    let least = b.least (omega (arith, h)) in
    let most = b.most (omega (arith, h)) in
    (omega (arith, b.stripe t h, least), omega (arith, least, most))

-- After the parallel start, no two GUID ranges that a node hands out to its workers share a GUID,
-- whatever the workers ask for in whatever order: any routes below 2^16, any valid types and any sizes,
-- as long as every request is granted. The node has fewer than 2^16 workers, and at most 2^40 keys were
-- left before. The sender and the receivers, which share one stripe, are not among the threads.
pub started-AllDisjoint :
    (n : Node) (g : ℕ) (rs : List Request) (out : List (Request × ℕ))
    → IsNode n
    → g ≤ 2 ^ 40
    → AreRequests n.worker_thread_count rs
    → run (started n g) rs ≡ some out
    → AllDisjoint out
started-AllDisjoint n g rs out ok le all e =
    run-AllDisjoint_ready n.worker_thread_count (started n g) rs out (started-IsReady n g ok le) all
      e
