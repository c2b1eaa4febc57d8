-- ===== src/Gas/RouteTable/Life.antt =====
-- The life of an entry: what state it is in, and what frees it.
use arts.Prelude.{
  ℕ, ◌+◌, ◌-◌, ◌^◌, ◌<◌, ◌≤◌, ◌≡◌, ◌≢◌, refl, arith, Bool, true, false, ◌||◌, not, Bool-cases, inl,
  inr, List, [], ◌∷◌, if◌then◌else◌, ◌==◌, length,
}
use arts.Gas.RouteTable.{
  allocated_key, available_key, return_db, is_res, is_avail, is_req, is_del, get_count,
  check_item_state, get_item_state, actual_state, number, mark_delete, inc_item, dec_item,
  should_delete, check_max_item, delete_and_dec,
}

-- A word with a state bit: what a table holds in a slot that is in use.
abbrev pub InUse : ℕ → Type 0
InUse x = (x < 2 ^ 64) × (2 ^ 61 ≤ x)

-- The two ways to read the state of an entry in use agree, and the state that is read is the only
-- one of reserved, available, requested and deleted whose test succeeds.
pub get_item_state-check :
    (x : ℕ)
    → InUse x
    → (get_item_state x ≡ actual_state x)
      × (check_item_state x (get_item_state x) ≡ true)
      × (number (get_item_state x) ≢ 0)
      × (check_item_state x allocated_key ≡ not (is_del x))
unfolding get_item_state actual_state check_item_state number is_res is_avail is_req is_del
get_item_state-check x h = ground arith

-- The calls on an entry by its key: a lookup takes a reference, a return gives one back, and the entry
-- is deleted, with the reference it was created with. Each of them searches for an available entry
-- first, so it leaves a deleted one, and one that is free again, as it is.
pub data Op : Type 0 where
  acquire release delete_ : Op

unfoldable pub apply : ℕ → Op → Bool × ℕ
apply x acquire = (false, (inc_item x 1).1)
apply x release = return_db x false false
apply x delete_ = delete_and_dec x

-- Whether the call frees the entry, and the word
unfoldable pub step : ℕ → Op → Bool × ℕ
step x op = if check_item_state x available_key then apply x op else (false, x)

-- Whether one of the calls frees the entry, and the word in the end
unfoldable pub run : ℕ → List Op → Bool × ℕ
run x [] = (false, x)
run x (op ∷ ops) = let (now, x') = step x op in let (later, x'') = run x' ops in (now || later, x'')

-- The word of an available entry with `r` references, deleted or not.
abbrev pub word : Bool → ℕ → ℕ
word d r = 2 ^ 62 + (if d then 2 ^ 61 else 0) + r

-- Up to the deletion, each reference that is given back is held.
abbrev pub Legal : ℕ → List Op → Type 0
Legal r [] = Unit
Legal r (acquire ∷ ops) = Legal (r + 1) ops
Legal r (release ∷ ops) = (0 < r) × Legal (r - 1) ops
Legal r (delete_ ∷ ops) = 0 < r

-- What becomes of an entry with `r` references: it is freed if the deletion finds no other reference,
-- and keeps its word for ever if it does.
abbrev pub fate : ℕ → List Op → Bool × ℕ
fate r [] = (false, word false r)
fate r (acquire ∷ ops) = fate (r + 1) ops
fate r (release ∷ ops) = fate (r - 1) ops
fate r (delete_ ∷ ops) = if r == 1 then (true, 0) else (false, word true (r - 1))

step_acquire : (r : ℕ) → r + 2 < 2 ^ 61 → step (word false r) acquire ≡ (false, word false (r + 1))
unfolding step apply check_item_state is_avail inc_item is_del check_max_item get_count
step_acquire r small = ground arith

step-release :
    (r : ℕ) → 0 < r → r < 2 ^ 61 → step (word false r) release ≡ (false, word false (r - 1))
unfolding step apply check_item_state is_avail return_db dec_item should_delete is_del get_count
step-release r pos small = ground arith

step_delete :
    (r : ℕ)
    → 0 < r
    → r < 2 ^ 61
    → step (word false r) delete_ ≡ (if r == 1 then (true, 0) else (false, word true (r - 1)))
unfolding step apply check_item_state is_avail delete_and_dec mark_delete dec_item should_delete
    is_del get_count
step_delete r pos small = ground arith

-- No call finds an entry that is not available.
run_unavailable :
    (x : ℕ) (ops : List Op) → check_item_state x available_key ≡ false → run x ops ≡ (false, x)
unfolding run step
run_unavailable x [] h = refl
run_unavailable x (op ∷ ops) h = rw h (rw (run_unavailable x ops h) refl)

unavailable_deleted : (r : ℕ) → r < 2 ^ 61 → check_item_state (word true r) available_key ≡ false
unfolding check_item_state is_avail is_del
unavailable_deleted r small = ground arith

unavailable_free : check_item_state 0 available_key ≡ false
unfolding check_item_state is_avail
unavailable_free = refl

pub run_frees_once :
    (r : ℕ) (ops : List Op)
    → Legal r ops
    → r + length ops + 2 < 2 ^ 61
    → run (word false r) ops ≡ fate r ops
unfolding run
run_frees_once r [] ok small = refl
run_frees_once r (acquire ∷ ops) ok small =
    rw (step_acquire r (omega (arith, small)))
      (run_frees_once (r + 1) ops ok (omega (arith, small)))
run_frees_once r (release ∷ ops) (pos, ok) small =
    rw (step-release r pos (omega (arith, small)))
      (run_frees_once (r - 1) ops ok (omega (arith, small)))
run_frees_once r (delete_ ∷ ops) pos small = elim (Bool-cases (r == 1)) [
  | inl last ↦
      rw (step_delete r pos (omega (arith, small)), last, run_unavailable 0 ops unavailable_free)
        refl
  | inr more ↦
      rw
        (
          step_delete r pos (omega (arith, small)),
          more,
          run_unavailable (word true (r - 1)) ops
              (unavailable_deleted (r - 1) (omega (arith, small))),
        )
        refl
]
