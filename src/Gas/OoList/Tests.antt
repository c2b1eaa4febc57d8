-- ===== src/Gas/OoList/Tests.antt =====
-- The list of held-back operations at concrete inputs.
use arts.Prelude.{◌≡◌, refl, arith, true, false, some, List, [], ◌∷◌}
use arts.Gas.OoList.{new}
use arts.Gas.OoList.Refine.{
  Op, add, fire, reopen, kept, replayed, nothing, run, replies, view_run, view_step, AllItems,
  run_replays,
}

-- Six operations, more than one element holds, and two that come late
abbrev ops : List Op
ops =
    add 11
    ∷ add 12
    ∷ add 13
    ∷ add 14
    ∷ add 15
    ∷ add 16
    ∷ fire
    ∷ add 17
    ∷ reopen
    ∷ add 18
    ∷ fire
    ∷ []

ops_real : AllItems ops
ops_real = (
  omega arith,
  (
    omega arith,
    (omega arith, (omega arith, (omega arith, (omega arith, (omega arith, (omega arith, tt)))))),
  ),
)

run_replays_example :
    replies (run new ops) ≡ some (view_run (record { items = []; closed = false }) ops)
run_replays_example = run_replays ops ops_real

ops_replies :
    view_run (record { items = []; closed = false }) ops
    ≡ kept true
      ∷ kept true
      ∷ kept true
      ∷ kept true
      ∷ kept true
      ∷ kept true
      ∷ replayed (11 ∷ 12 ∷ 13 ∷ 14 ∷ 15 ∷ 16 ∷ [])
      ∷ kept false
      ∷ nothing
      ∷ kept true
      ∷ replayed (18 ∷ [])
      ∷ []
unfolding view_run view_step
ops_replies = refl
