-- ===== src/Sync/Event.antt =====
-- libs/src/core/sync/event.c: events of the types LATCH, ONCE, COUNTED, STICKY, IDEM (this file) and
-- CHANNEL (`Channel`). The segments of a dependent list, which double in size, are one list here, in
-- the order of the positions that `dependent_count` hands out. Every call runs alone. `none` stands
-- for ARTS_ERROR, which aborts the process.
pub mod Channel
pub mod Deliver
pub mod Countdown
mod Tests
use arts.Prelude.{
  ℕ, zero, suc, ◌+◌, ◌-◌, ◌^◌, Bool, true, false, ◌&&◌, ◌||◌, not, ltb, leb, ◌==◌, if◌then◌else◌,
  Option, none, some, List, [], ◌∷◌, ◌++◌, map, length, u32, sub_u32,
}
use arts.Gas.Guid.{null_guid, get_rank}

-- `arts_event_types_t`, without CHANNEL
pub data EventType : Type 0 where
  latch once counted sticky idem : EventType

-- ARTS_EVENT_LATCH_DECR_SLOT, ARTS_EVENT_LATCH_INCR_SLOT, ARTS_EVENT_UPDATE, any other slot number
pub data Slot : Type 0 where
  decr incr update bad : Slot

-- `arts_dependent_s`: what is told when the event fires.
pub data Dependent : Type 0 where
  edt : (addr slot : ℕ) → Dependent
  event : (addr slot : ℕ) → Dependent
  callback : (function : ℕ) → Dependent

-- Calls that leave the file.
pub data Effect : Type 0 where
  signal_edt : (addr slot data_guid : ℕ) → Effect
  satisfy : (addr data_guid slot : ℕ) → Effect
  call : (function data_guid : ℕ) → Effect
  destroy : Effect

-- `arts_event_s`
pub record Event : Type 0 where
  pub type : EventType
  pub fired : Bool
  pub latch_count : ℕ
  pub pos : ℕ
  pub data_guid : ℕ
  pub dependents : List Dependent

-- The event as `arts_event_create` makes it: ONCE, STICKY and IDEM start at 1.
unfoldable pub initial_latch : EventType → ℕ → ℕ
initial_latch once n = 1
initial_latch sticky n = 1
initial_latch idem n = 1
initial_latch latch n = n
initial_latch counted n = n

unfoldable pub create : EventType → ℕ → Event
create t n = record {
  type = t;
  fired = false;
  latch_count = initial_latch t n;
  pos = 0;
  data_guid = null_guid;
  dependents = [];
}

-- One round of the loop that fires the dependents.
unfoldable pub deliver : ℕ → Dependent → Effect
deliver d (edt a s) = signal_edt a s d
deliver d (event a s) = satisfy a d s
deliver d (callback f) = call f d

-- LATCH, ONCE and COUNTED events are destroyed when they have fired.
unfoldable pub destroyed : EventType → Bool
destroyed sticky = false
destroyed idem = false
destroyed _ = true

unfoldable pub rejects_incr : EventType → Bool
rejects_incr once = true
rejects_incr counted = true
rejects_incr _ = false

-- The block under "When the latch count reaches 0". The event's entry is empty when it is destroyed.
unfoldable pub fire : Event → Option Event × List Effect
fire e =
    let e' = record e { fired = true; pos = length e.dependents + 1 } in
    let out = map (deliver e.data_guid) e.dependents in
    if destroyed e.type then (none, out ++ (destroy ∷ [])) else (some e', out)

unfoldable pub fire_if : Bool → Event → Option Event × List Effect
fire_if zero_now e = if zero_now then fire e else (some e, [])

-- What a satisfy does to an event that has fired: IDEM and STICKY ignore it.
unfoldable pub satisfy_again : Event → Option (Option Event × List Effect)
satisfy_again e = elim e.type [ idem ↦ some (some e, []) | sticky ↦ some (some e, []) | _ ↦ none ]

-- `arts_event_satisfy_slot` on an event that the node has and that is no CHANNEL.
unfoldable pub satisfy_slot : Event → (data_guid : ℕ) → Slot → Option (Option Event × List Effect)
satisfy_slot e d decr =
    if e.fired
    then satisfy_again e
    else (let left = sub_u32 e.latch_count 1 in
        let data' = (if d == null_guid then e.data_guid else d) in
        some (fire_if (left == 0) (record e { latch_count = left; data_guid = data' })))
satisfy_slot e d incr =
    if e.fired
    then satisfy_again e
    else if rejects_incr e.type
    then none
    else (let up = u32 (e.latch_count + 1) in
        some (fire_if (up == 0) (record e { latch_count = up })))
satisfy_slot e d _ = if e.fired then satisfy_again e else none

-- The registration of a waiter, at the end of `arts_add_dependence_ex`: it is appended, and told at
-- once if the event has fired without it.
unfoldable pub add_dependence : Event → Dependent → Event × List Effect
add_dependence e x =
    let position = length e.dependents in
    let e' = record e { dependents = e.dependents ++ (x ∷ []) } in
    (e', (if e.fired && leb (e.pos - 1) position then deliver e.data_guid x ∷ [] else []))

-- `arts_add_local_event_callback` on such an event: one that was destroyed when it fired is left.
unfoldable pub add_callback : Event → ℕ → Event × List Effect
add_callback e f =
    let (e', out) = add_dependence e (callback f) in
    (e', (if e.fired && destroyed e.type then [] else out))

-- Where a satisfy goes: held back while the running task waits for invalidations, to the event
-- itself, to its rank, or into the list of what waits for the event to be created.
pub data Route : Type 0 where
  held_back here remote later : Route

unfoldable pub route : (rank_id event_guid invalidations : ℕ) → (found : Bool) → Route
route r g invalidations found =
    if ltb 0 invalidations
    then held_back
    else if found
    then here
    else if get_rank g == r
    then later
    else remote
