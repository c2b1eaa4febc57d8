-- ===== src/Sync/Epoch/Single.antt =====
-- An epoch on one node: the packed counters, and when it fires.
use arts.Prelude.{
  ℕ, ◌+◌, ◌*◌, ◌%◌, ◌/◌, ◌^◌, ◌<◌, ◌≡◌, ◌⊎◌, inl, inr, refl, arith, List, [], ◌∷◌, ◌++◌, append-nil,
  u64, u32, lt→ltb, eq→==, ne→==, ltb, ◌&&◌, false,
}
use native.Mathlib.Decide.{ℕ_discrete}
use arts.Sync.Epoch.{
  Epoch, Node, Effect, Pool, phase_1, phase_3, inc_active, increment_finished_single, delete_epoch,
  fire,
}

abbrev pub packed : ℕ → ℕ → ℕ
packed a f = a * 2 ^ 32 + f

-- The epoch when it is over: PHASE_3, with the completion flag for those who poll it.
abbrev pub closed : Epoch → ℕ → Epoch
closed e counts = record e { epoch_counts = counts; phase = phase_3; completed = 1 }

-- On an open epoch with `a` active and `f` finished tasks, `f < a`: the task that makes the two equal
-- closes the epoch, fires it with the number of finished tasks, and deletes it; any other only counts
-- itself.
pub increment_finished_single_lem :
    (n : Node) (g : ℕ) (e : Epoch) (pool : Pool) (a f : ℕ)
    → e.epoch_counts ≡ packed a f
    → e.phase ≡ phase_1
    → f < a
    → a < 2 ^ 32
    → ((f + 1 ≡ a)
        × (increment_finished_single n g e pool ≡ (
          closed e (packed a a),
          (delete_epoch n g (closed e (packed a a)) pool).0,
          fire n (closed e (packed a a)) a ++ (delete_epoch n g (closed e (packed a a)) pool).1,
        )))
      ⊎ ((f + 1 < a)
          × (increment_finished_single n g e pool
              ≡ (record e { epoch_counts = packed a (f + 1) }, pool, [])))
unfolding increment_finished_single
increment_finished_single_lem n g e pool a f hc hp lt small = elim (ℕ_discrete (f + 1) a) [
  | yes p ↦ inl (p, simp (low, high, p, lt→ltb 0 a (omega arith), eq→== a a refl, hp, up p))
  | no p ↦ inr (omega (arith, p), rw (up refl, low, high, ne→== (f + 1) a p, and_false))
]
  where
    up : {c : ℕ} → f + 1 ≡ c → u64 (e.epoch_counts + 1) ≡ packed a c
    up p = omega arith

    low : u32 (e.epoch_counts % 2 ^ 32 + 1) ≡ f + 1
    low = omega arith

    high : e.epoch_counts / 2 ^ 32 ≡ a
    high = omega arith

    and_false : (ltb 0 (f + 1) && false) ≡ false
    and_false = ground arith

-- What the tasks of an epoch do to its counters: one more is created, or one finishes.
pub data Task : Type 0 where
  spawn finish : Task

unfoldable pub run : Node → ℕ → Epoch → Pool → List Task → Epoch × Pool × List Effect
run n g e pool [] = (e, pool, [])
run n g e pool (spawn ∷ ops) = run n g (inc_active e) pool ops
run n g e pool (finish ∷ ops) =
    let (e', pool', out) = increment_finished_single n g e pool in
    let (e'', pool'', out') = run n g e' pool' ops in (e'', pool'', out ++ out')

-- From `a` active and `f` finished tasks, the list brings the two together with its last task, at
-- `v`, and not before.
abbrev pub Ends : (a f v : ℕ) → List Task → Type 0
Ends a f v [] = ⊥
Ends a f v (spawn ∷ ops) = (a + 1 < 2 ^ 32) × Ends (a + 1) f v ops
Ends a f v (finish ∷ []) = (f + 1 ≡ a) × (a ≡ v)
Ends a f v (finish ∷ op ∷ ops) = (f + 1 < a) × Ends a (f + 1) v (op ∷ ops)

-- A task that ends in a closed epoch has no effect but on the counter.
finished-closed :
    (n : Node) (g : ℕ) (e : Epoch) (pool : Pool)
    → e.phase ≡ phase_3
    → increment_finished_single n g e pool
      ≡ (record e { epoch_counts = u64 (e.epoch_counts + 1) }, pool, [])
unfolding increment_finished_single
finished-closed n g e pool h = ground (arith, h)

run-closed :
    (n : Node) (g : ℕ) (e : Epoch) (pool : Pool) (ops : List Task)
    → e.phase ≡ phase_3
    → (run n g e pool ops).2 ≡ []
unfolding run inc_active
run-closed n g e pool [] h = refl
run-closed n g e pool (spawn ∷ ops) h = run-closed n g (inc_active e) pool ops h
run-closed n g e pool (finish ∷ ops) h =
    rw (finished-closed n g e pool h)
      (run-closed n g (record e { epoch_counts = u64 (e.epoch_counts + 1) }) pool ops h)

-- The effects of an open single-node epoch over any history of tasks: nothing until the number of
-- finished tasks meets the number of active ones, then once the signal with that number and the
-- deletion, and nothing after that.
pub run_fires_once :
    (n : Node) (g : ℕ) (e : Epoch) (pool : Pool) (a f v : ℕ) (ops rest : List Task)
    → e.epoch_counts ≡ packed a f
    → e.phase ≡ phase_1
    → f < a
    → a < 2 ^ 32
    → Ends a f v ops
    → (run n g e pool (ops ++ rest)).2
      ≡ fire n (closed e (packed v v)) v ++ (delete_epoch n g (closed e (packed v v)) pool).1
unfolding run inc_active
run_fires_once n g e pool a f v [] rest hc hp lt small ends = absurd ends
run_fires_once n g e pool a f v (spawn ∷ ops) rest hc hp lt small ends =
    run_fires_once n g (inc_active e) pool (a + 1) f v ops rest (omega arith) hp (omega arith)
      ends.0 ends.1
run_fires_once n g e pool a f v (finish ∷ []) rest hc hp lt small ends =
    elim (increment_finished_single_lem n g e pool a f hc hp lt small) [
      | inl last ↦ rw (
        last.1,
        ends.1,
        run-closed n g (closed e (packed v v)) (delete_epoch n g (closed e (packed v v)) pool).0
            rest refl,
        append-nil,
      )
      | inr more ↦ absurd (omega arith)
    ]
run_fires_once n g e pool a f v (finish ∷ op ∷ ops) rest hc hp lt small ends =
    elim (increment_finished_single_lem n g e pool a f hc hp lt small) [
      | inl last ↦ absurd (omega arith)
      | inr more ↦ rw (more.1) (
          run_fires_once n g (record e { epoch_counts = packed a (f + 1) }) pool a (f + 1) v
            (op ∷ ops) rest refl hp ends.0 small ends.1)
    ]
