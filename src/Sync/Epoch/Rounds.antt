-- ===== src/Sync/Epoch/Rounds.antt =====
-- Termination detection over several nodes: `check_epoch`'s confirmation rounds, and the adding up
-- of a round in `reduce_epoch`.
use arts.Prelude.{
  ℕ, ◌+◌, ◌^◌, ◌<◌, ◌≡◌, ◌≢◌, refl, arith, List, [], ◌∷◌, ◌++◌, some, none, length, append-nil, ap₂,
  ◌∙◌, true, false, u32,
}
use native.Mathlib.Nat.{add-zero}
use arts.Sync.Epoch.{Epoch, Node, Effect, Pool, phase_1, phase_3, check_epoch, fire}
use arts.Sync.Epoch.Reduce.{reduce_add, reduce_close, reduce_finish, reduce_epoch}

module _ (n : Node) (several : n.rank_count ≢ 1) where
  abbrev pub checked : Epoch → ℕ × ℕ → Epoch
  checked e t = (check_epoch n e t.0 t.1).1

  -- A multi-node epoch is closed only by the second of two rounds in a row with the same totals, in
  -- which as many tasks are finished as are active, and some are; a first round never closes it.
  pub check_epoch_closes :
      (e : Epoch) (t u : ℕ × ℕ)
      → t.0 < 2 ^ 32
      → t.1 < 2 ^ 32
      → u.0 < 2 ^ 32
      → u.1 < 2 ^ 32
      → (checked e t).phase ≢ phase_3
      → (checked (checked e t) u).phase ≡ phase_3
      → (t.0 ≡ u.0) × (t.1 ≡ u.1) × (u.0 ≡ u.1) × (0 < u.1)
  unfolding check_epoch
  check_epoch_closes e t u h1 h2 h3 h4 open_ shut = ground arith

  -- Two rounds in a row with the same totals, as many finished as active and not none, close an epoch
  -- that starts them in PHASE_1: the first asks for another round and has no effect, the second
  -- fires the epoch with the number of finished tasks.
  pub check_epoch_confirms :
      (e : Epoch) (k : ℕ)
      → 0 < k
      → k < 2 ^ 32
      → e.phase ≡ phase_1
      → let (next, e', out) = check_epoch n e k k in
        let (next', e'', out') = check_epoch n e' k k in
        (next ≡ true)
        × (out ≡ [])
        × (next' ≡ false)
        × (e''.phase ≡ phase_3)
        × (e''.completed ≡ 1)
        × (out' ≡ fire n e' k)
  unfolding check_epoch
  check_epoch_confirms e k pos small h = ground arith

abbrev pub sum_active : List (ℕ × ℕ) → ℕ
sum_active [] = 0
sum_active ((a, f) ∷ rs) = a + sum_active rs

abbrev pub sum_finished : List (ℕ × ℕ) → ℕ
sum_finished [] = 0
sum_finished ((a, f) ∷ rs) = f + sum_finished rs

-- Responses, each handled to its end before the next.
unfoldable pub run : Node → ℕ → Epoch → Pool → List (ℕ × ℕ) → Epoch × Pool × List Effect
run n g e pool [] = (e, pool, [])
run n g e pool ((a, f) ∷ rs) =
    let (e', pool', out) = reduce_epoch n g e pool a f in
    let (e'', pool'', out') = run n g e' pool' rs in (e'', pool'', out ++ out')

-- The epoch as the last response of a round leaves it for the check.
abbrev pub gathered : Epoch → (a f : ℕ) → Epoch
gathered e a f = record e {
  global_active_count = u32 (e.global_active_count + a);
  global_finished_count = u32 (e.global_finished_count + f);
  outstanding = 1;
}

reduce_epoch-more :
    (n : Node) (g : ℕ) (e : Epoch) (pool : Pool) (a f k : ℕ)
    → e.outstanding ≡ k + 3
    → reduce_epoch n g e pool a f ≡ (
      record e {
        global_active_count = u32 (e.global_active_count + a);
        global_finished_count = u32 (e.global_finished_count + f);
        outstanding = k + 2;
      },
      pool,
      [],
    )
unfolding reduce_epoch
reduce_epoch-more n g e pool a f k h = ground (arith, h)

reduce_epoch-last :
    (n : Node) (g : ℕ) (e : Epoch) (pool : Pool) (a f : ℕ)
    → e.outstanding ≡ 2
    → reduce_epoch n g e pool a f
      ≡ reduce_finish n g
          (gathered e a f)
          pool
          (u32 (e.global_active_count + a))
          (u32 (e.global_finished_count + f))
unfolding reduce_add reduce_close reduce_epoch
reduce_epoch-last n g e pool a f h = ground (arith, h)

-- A round with as many responses to come as there are: nothing happens before the last of them, and
-- then the check gets the sums of all responses, added to what the totals held when it began.
pub run_round :
    (n : Node) (g : ℕ) (e : Epoch) (pool : Pool) (r : ℕ × ℕ) (rs : List (ℕ × ℕ))
    → e.outstanding ≡ length rs + 2
    → run n g e pool (r ∷ rs)
      ≡ reduce_finish n g
          (gathered e (sum_active (r ∷ rs)) (sum_finished (r ∷ rs)))
          pool
          (u32 (e.global_active_count + sum_active (r ∷ rs)))
          (u32 (e.global_finished_count + sum_finished (r ∷ rs)))
unfolding run
run_round n g e pool (a, f) [] h = simp (reduce_epoch-last n g e pool a f h, append-nil, add-zero)
run_round n g e pool (a, f) (r ∷ rs) h =
    rw (reduce_epoch-more n g e pool a f (length rs) (omega arith)) (
      run_round n g
        (record e {
          global_active_count = u32 (e.global_active_count + a);
          global_finished_count = u32 (e.global_finished_count + f);
          outstanding = length rs + 2;
        })
        pool r rs refl
      ∙ ap₂
          (λ x y.
            reduce_finish n g
              (record e { global_active_count = x; global_finished_count = y; outstanding = 1 })
              pool x y)
          (omega arith) (omega arith))

-- Two responses that two receiver threads handle at once: both add their counts, the first before
-- the second, and then they count themselves off in the other order.
unfoldable pub crossed :
    Node → ℕ → Epoch → Pool → (first second : ℕ × ℕ) → Epoch × Pool × List Effect
crossed n g e pool (a, f) (a', f') = elim (reduce_add e a f) [
  | none ↦ (e, pool, [])
  | some t ↦ elim (reduce_add t.epoch a' f') [
    | none ↦ (t.epoch, pool, [])
    | some t' ↦
        let (e₂, p₂, out₂) = reduce_close n g t'.epoch pool a' f' t'.total_active t'.total_finish in
        let (e₁, p₁, out₁) = reduce_close n g e₂ p₂ a f t.total_active t.total_finish in
        (e₁, p₁, out₂ ++ out₁)
  ]
]

-- When the last two responses of a round cross in this way, the check of the round gets totals in
-- which the counts of the second response are missing, whatever they are.
pub crossed-loses :
    (n : Node) (g : ℕ) (e : Epoch) (pool : Pool) (a f a' f' : ℕ)
    → e.outstanding ≡ 3
    → crossed n g e pool (a, f) (a', f')
      ≡ reduce_finish n g
          (record e {
            global_active_count = u32 (u32 (e.global_active_count + a) + a');
            global_finished_count = u32 (u32 (e.global_finished_count + f) + f');
            outstanding = 1;
          })
          pool
          (u32 (e.global_active_count + a))
          (u32 (e.global_finished_count + f))
unfolding crossed reduce_add reduce_close
crossed-loses n g e pool a f a' f' h = ground (arith, h)
