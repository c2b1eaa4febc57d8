-- ===== src/Sync/Event/Countdown.antt =====
-- LATCH, ONCE and COUNTED events: fired and destroyed by the satisfy that brings the latch to 0.
use arts.Prelude.{
  ℕ, ◌+◌, ◌-◌, ◌^◌, ◌<◌, ◌≡◌, arith, true, false, if◌then◌else◌, none, some, List, [], ◌∷◌, ◌++◌,
  map, append-nil, append_assoc, ◌==◌, sub_u32, u32, ne→==,
}
use arts.Gas.Guid.{null_guid}
use arts.Sync.Event.{
  Event, EventType, Dependent, edt, event, callback, destroy, decr, incr, deliver, fire, fire_if,
  satisfy_slot, rejects_incr, add_dependence, add_callback, destroyed,
}
use arts.Sync.Event.Deliver.{Op, add, chain_to, add_call, set, up, step, run}

-- From latch `c` the calls bring the latch to 0 with the last of them, and not before.
abbrev pub Ends : EventType → (c : ℕ) → List Op → Type 0
Ends t c [] = ⊥
Ends t c (set d ∷ []) = c ≡ 1
Ends t c (set d ∷ op ∷ ops) = (1 < c) × Ends t (c - 1) (op ∷ ops)
Ends t c (up ∷ ops) = (rejects_incr t ≡ false) × (c + 1 < 2 ^ 32) × Ends t (c + 1) ops
Ends t c (add a s ∷ ops) = Ends t c ops
Ends t c (chain_to a s ∷ ops) = Ends t c ops
Ends t c (add_call f ∷ ops) = Ends t c ops

-- The data that the event holds in the end: the last that is not NULL_GUID.
abbrev pub last_data : ℕ → List Op → ℕ
last_data d [] = d
last_data d (set d' ∷ ops) = last_data (if d' == null_guid then d else d') ops
last_data d (_ ∷ ops) = last_data d ops

abbrev pub registered : List Op → List Dependent
registered [] = []
registered (add a s ∷ ops) = edt a s ∷ registered ops
registered (chain_to a s ∷ ops) = event a s ∷ registered ops
registered (add_call f ∷ ops) = callback f ∷ registered ops
registered (_ ∷ ops) = registered ops

abbrev with_dependent : Event → Dependent → Event
with_dependent e x = record e { dependents = e.dependents ++ (x ∷ []) }

abbrev with_data : Event → ℕ → ℕ → Event
with_data e left d = record e {
  latch_count = left;
  data_guid = (if d == null_guid then e.data_guid else d);
}

module _ (e : Event) (open_ : e.fired ≡ false) where
  add-open : (x : Dependent) → add_dependence e x ≡ (with_dependent e x, [])
  unfolding add_dependence
  add-open x = simp open_

  call-open : (f : ℕ) → add_callback e f ≡ (with_dependent e (callback f), [])
  unfolding add_callback add_dependence
  call-open f = simp open_

  set-last :
      (d : ℕ)
      → destroyed e.type ≡ true
      → e.latch_count ≡ 1
      → satisfy_slot e d decr
        ≡ some (
          none,
          map (deliver (if d == null_guid then e.data_guid else d)) e.dependents ++ (destroy ∷ []),
        )
  unfolding satisfy_slot fire_if fire
  set-last d gone one = simp (open_, one, gone)

  set-more :
      (d : ℕ)
      → 1 < e.latch_count
      → e.latch_count < 2 ^ 32
      → satisfy_slot e d decr ≡ some (some (with_data e (e.latch_count - 1) d), [])
  unfolding satisfy_slot fire_if
  set-more d more small =
      let e₁ : sub_u32 e.latch_count 1 ≡ e.latch_count - 1 = omega arith in
      simp (open_, e₁, ne→== (e.latch_count - 1) 0 (omega arith))

  up-open :
      rejects_incr e.type ≡ false
      → e.latch_count + 1 < 2 ^ 32
      → satisfy_slot e null_guid incr
        ≡ some (some (record e { latch_count = e.latch_count + 1 }), [])
  unfolding satisfy_slot fire_if
  up-open allowed small =
      let e₁ : u32 (e.latch_count + 1) ≡ e.latch_count + 1 = omega arith in
      simp (open_, allowed, e₁, ne→== (e.latch_count + 1) 0 (omega arith))

-- A LATCH, ONCE or COUNTED event over a history of calls whose last brings the latch to 0: no call
-- fails, nothing is delivered before the last call, and then every waiter that was registered gets
-- the event's data, the last that is not NULL, once and in order, and the event is destroyed.
pub run_counts_down :
    (e : Event) (ops : List Op)
    → e.fired ≡ false
    → destroyed e.type ≡ true
    → e.latch_count < 2 ^ 32
    → Ends e.type e.latch_count ops
    → run e ops
      ≡ some (
        none,
        map (deliver (last_data e.data_guid ops)) (e.dependents ++ registered ops)
            ++ (destroy ∷ []),
      )
unfolding run step
run_counts_down e [] open_ gone small ends = absurd ends
run_counts_down e (set d ∷ []) open_ gone small ends =
    ground (arith, set-last e open_ d gone ends, append-nil e.dependents)
run_counts_down e (set d ∷ op ∷ ops) open_ gone small ends = ground (
  arith,
  set-more e open_ d ends.0 small,
  run_counts_down (with_data e (e.latch_count - 1) d) (op ∷ ops) open_ gone (omega arith) ends.1,
)
run_counts_down e (up ∷ ops) open_ gone small ends = ground (
  arith,
  up-open e open_ ends.0 ends.1,
  run_counts_down (record e { latch_count = e.latch_count + 1 }) ops open_ gone ends.1 ends.2,
)
run_counts_down e (add a s ∷ ops) open_ gone small ends = rw (
  add-open e open_ (edt a s),
  run_counts_down (with_dependent e (edt a s)) ops open_ gone small ends,
  append_assoc,
)
run_counts_down e (chain_to a s ∷ ops) open_ gone small ends = rw (
  add-open e open_ (event a s),
  run_counts_down (with_dependent e (event a s)) ops open_ gone small ends,
  append_assoc,
)
run_counts_down e (add_call f ∷ ops) open_ gone small ends = rw (
  call-open e open_ f,
  run_counts_down (with_dependent e (callback f)) ops open_ gone small ends,
  append_assoc,
)
