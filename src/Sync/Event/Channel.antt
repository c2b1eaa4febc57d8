-- ===== src/Sync/Event/Channel.antt =====
-- CHANNEL events of libs/src/core/sync/event.c: a list of versions, one for each generation, under
-- the event's lock. A NULL version list is the empty one here; it is made on first use.
pub mod Fifo
use arts.Prelude.{
  ℕ, suc, ◌+◌, ◌-◌, ◌^◌, Bool, true, false, ◌&&◌, not, ltb, ◌==◌, if◌then◌else◌, Option, none, some,
  List, [], ◌∷◌, ◌++◌, map, length, u32, sub_u32,
}
use arts.Gas.Guid.{null_guid}
use arts.Sync.Event.{
  Slot, decr, incr, update, bad, Dependent, edt, event, callback, Effect, signal_edt, satisfy, call,
}

-- `arts_event_version_s`
pub record Version : Type 0 where
  pub version : ℕ
  pub latch_count : ℕ
  pub data_guid : ℕ
  pub dependents : List Dependent

-- The parts of `arts_event_s` that a CHANNEL uses.
pub record Channel : Type 0 where
  pub latch_count : ℕ
  pub data_guid : ℕ
  pub versions : List Version

-- Versions are pushed at the back of the list, and this is the number that the next one gets.
unfoldable pub next_number : List Version → ℕ
next_number [] = 0
next_number (v ∷ []) = u32 (v.version + 1)
next_number (v ∷ w ∷ vs) = next_number (w ∷ vs)

unfoldable pub new_version : Channel → List Version → Version
new_version c vs = record {
  version = next_number vs;
  latch_count = 0;
  data_guid = c.data_guid;
  dependents = [];
}

-- `channel_get_versions`
unfoldable pub get_versions : Channel → List Version
get_versions c = elim c.versions [ [] ↦ new_version c [] ∷ [] | v ∷ vs ↦ v ∷ vs ]

-- A dependent as the fire loop tells it; an EDT is signalled only if there is data. The byte slice
-- of a dependence on part of a DB is data here like the whole of it.
unfoldable pub deliver : ℕ → Dependent → List Effect
deliver d (edt a s) = if d == null_guid then [] else signal_edt a s d ∷ []
deliver d (event a s) = satisfy a d s ∷ []
deliver d (callback f) = call f d ∷ []

abbrev pub deliver_all : ℕ → List Dependent → List Effect
deliver_all d [] = []
deliver_all d (x ∷ xs) = deliver d x ++ deliver_all d xs

-- `channel_free_version`: the front version goes, but the last one is kept and made new.
unfoldable pub free_version : Channel → List Version → List Version
free_version c [] = []
free_version c (v ∷ []) =
    record v { latch_count = 0; data_guid = c.data_guid; dependents = [] } ∷ []
free_version c (v ∷ w ∷ vs) = w ∷ vs

-- `channel_fire_dependents` at a version of the list.
unfoldable pub fire_dependents : Channel → Version → List Version → Channel × List Effect
fire_dependents c v vs =
    (record c { versions = free_version c vs }, deliver_all v.data_guid v.dependents)

-- The part of `channel_satisfy_slot` under the lock, at the front version `v`. Where it pushes a
-- version it works on that one.
unfoldable pub satisfy_at :
    Channel → Version → List Version → (data_guid : ℕ) → Slot → Option (Channel × List Effect)
satisfy_at c v rest d incr =
    if v.latch_count == 1
    then (let w = record (new_version c (v ∷ rest)) { latch_count = 1 } in
        some (record c { versions = v ∷ (rest ++ (w ∷ [])) }, []))
    else (let w = record v { latch_count = u32 (v.latch_count + 1) } in
        some (
          if w.latch_count == 0
          then fire_dependents c w (w ∷ rest)
          else (record c { versions = w ∷ rest }, [])))
satisfy_at c v rest d decr =
    if v.latch_count == 2 ^ 32 - 1
    then (let n = new_version c (v ∷ rest) in
        let w = record n {
          latch_count = 2 ^ 32 - 1;
          data_guid = (if d == null_guid then n.data_guid else d);
        } in
        some (record c { versions = v ∷ (rest ++ (w ∷ [])) }, []))
    else (let w = record v {
      latch_count = sub_u32 v.latch_count 1;
      data_guid = (if d == null_guid then v.data_guid else d);
    } in
        some (
          if w.latch_count == 0
          then fire_dependents c w (w ∷ rest)
          else (record c { versions = w ∷ rest }, [])))
satisfy_at c v rest d update = some (
    if v.latch_count == 0
    then fire_dependents c v (v ∷ rest)
    else (record c { versions = v ∷ rest }, []))
satisfy_at c v rest d bad = none

unfoldable pub satisfy_slot : Channel → (data_guid : ℕ) → Slot → Option (Channel × List Effect)
satisfy_slot c d s = elim (get_versions c) [ [] ↦ none | v ∷ vs ↦ satisfy_at c v vs d s ]

-- `arts_event_add_dependence_with_mode` under the lock, at the front version. With a latch count the
-- channel serves one dependent for each generation, so a front version that has one is left to it,
-- and a new version is pushed.
unfoldable pub add_at : Channel → Version → List Version → Dependent → Channel × List Effect
add_at c v rest x =
    if ltb 0 c.latch_count
    then (if ltb 0 (length v.dependents)
        then (let w = record (new_version c (v ∷ rest)) { latch_count = 1; dependents = x ∷ [] } in
            (record c { versions = v ∷ (rest ++ (w ∷ [])) }, []))
        else (let w = record v {
          latch_count = u32 (v.latch_count + 1);
          dependents = v.dependents ++ (x ∷ []);
        } in
            if w.latch_count == 0
            then fire_dependents c w (w ∷ rest)
            else (record c { versions = w ∷ rest }, [])))
    else (let w = record v { dependents = v.dependents ++ (x ∷ []) } in
        if w.latch_count == 0
        then fire_dependents c w (w ∷ rest)
        else (record c { versions = w ∷ rest }, []))

unfoldable pub add_dependence : Channel → Dependent → Channel × List Effect
add_dependence c x = elim (get_versions c) [ [] ↦ (c, []) | v ∷ vs ↦ add_at c v vs x ]

-- `arts_event_create_channel_internal`
unfoldable pub create : (latch_count data_guid : ℕ) → Channel
create n d = record { latch_count = n; data_guid = d; versions = [] }
