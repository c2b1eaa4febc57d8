-- ===== src/Sync/Event/Deliver.antt =====
-- When an event fires, and what its dependents get.
use arts.Prelude.{
  ℕ, ◌+◌, ◌-◌, ◌≤◌, ◌≡◌, true, false, if◌then◌else◌, Option, none, some, List, [], ◌∷◌, ◌++◌, map,
  length, ◌==◌,
}
use arts.Gas.Guid.{null_guid}
use arts.Sync.Event.{
  signal_edt, satisfy, call, Event, decr, incr, Dependent, Effect, satisfy_slot, add_dependence,
  add_callback, edt, event, callback, destroyed,
}

-- Calls on one event, in order: a waiter or a callback is registered, or a slot is satisfied.
pub data Op : Type 0 where
  add : (addr slot : ℕ) → Op
  chain_to : (addr slot : ℕ) → Op
  add_call : (function : ℕ) → Op
  set : (data_guid : ℕ) → Op
  up : Op

abbrev pub waiting : Event × List Effect → Option (Option Event × List Effect)
waiting (e, out) = some (some e, out)

unfoldable pub step : Event → Op → Option (Option Event × List Effect)
step e (add a s) = waiting (add_dependence e (edt a s))
step e (chain_to a s) = waiting (add_dependence e (event a s))
step e (add_call f) = waiting (add_callback e f)
step e (set d) = satisfy_slot e d decr
step e up = satisfy_slot e null_guid incr

abbrev pub prepend :
    List Effect → Option (Option Event × List Effect) → Option (Option Event × List Effect)
prepend out none = none
prepend out (some (o, out')) = some (o, out ++ out')

-- No call may follow the destruction of the event.
abbrev pub after_end : List Effect → List Op → Option (Option Event × List Effect)
after_end out [] = some (none, out)
after_end out (_ ∷ _) = none

unfoldable pub run : Event → List Op → Option (Option Event × List Effect)
run e [] = some (some e, [])
run e (op ∷ ops) = elim (step e op) [
  | none ↦ none
  | some (none, out) ↦ after_end out ops
  | some (some e', out) ↦ prepend out (run e' ops)
]

-- What a waiter is told of the data `d`
abbrev pub told : ℕ → Dependent → Effect
told d (edt a s) = signal_edt a s d
told d (event a s) = satisfy a d s
told d (callback f) = call f d

-- The deliveries from a firing with the data `d` on: each later waiter is told at its registration.
abbrev pub late : (d : ℕ) → List Op → List Effect
late d [] = []
late d (add a s ∷ ops) = signal_edt a s d ∷ late d ops
late d (chain_to a s ∷ ops) = satisfy a d s ∷ late d ops
late d (add_call f ∷ ops) = call f d ∷ late d ops
late d (set _ ∷ ops) = late d ops
late d (up ∷ ops) = late d ops

abbrev pub latest : (d new : ℕ) → ℕ
latest d new = if new == 0 then d else new

-- The deliveries when `k` satisfies are missing, the last data that is not NULL is `d`, and `ws` have
-- been registered: nothing until the last satisfy, which tells `ws` in order.
abbrev pub expected : (k d : ℕ) → List Dependent → List Op → List Effect
expected k d ws [] = []
expected k d ws (add a s ∷ ops) = expected k d (ws ++ (edt a s ∷ [])) ops
expected k d ws (chain_to a s ∷ ops) = expected k d (ws ++ (event a s ∷ [])) ops
expected k d ws (add_call f ∷ ops) = expected k d (ws ++ (callback f ∷ [])) ops
expected k d ws (up ∷ ops) = expected (k + 1) d ws ops
expected k d ws (set new ∷ ops) =
    let more = expected (k - 1) (latest d new) ws ops in
    if k == 1 then map (told (latest d new)) ws ++ late (latest d new) ops else more

-- The run goes well, with these deliveries.
abbrev Delivers : Event → List Op → List Effect → Type 0
Delivers e ops out = (e' : Event) × (run e ops ≡ some (some e', out))

-- An event that stays when it has fired, and has.
record IsFired (d : ℕ) (e : Event) : Type 0 where
  stays : destroyed e.type ≡ false
  done : e.fired ≡ true
  placed : e.pos ≤ length e.dependents + 1
  data_is : e.data_guid ≡ d

-- The same before it has, with `k` satisfies missing.
record IsOpen (k d : ℕ) (ws : List Dependent) (e : Event) : Type 0 where
  stays : destroyed e.type ≡ false
  unfired : e.fired ≡ false
  latch_is : e.latch_count ≡ k
  data_is : e.data_guid ≡ d
  waiters : e.dependents ≡ ws
