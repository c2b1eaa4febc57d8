-- ===== src/Memory/Acquire/Tests.antt =====
-- The acquisition of the DBs at a concrete EDT.
use arts.Prelude.{
  false, ℕ, zero, suc, ◌+◌, ◌*◌, ◌^◌, ◌≤◌, ◌<◌, ◌≡◌, refl, arith, true, none, some, List, [], ◌∷◌,
  length, tally, inl, inr,
}
use arts.Gas.Guid.{get_rank, get_type}
use arts.Compute.Edt.{Dep, blank, db_ew, db_ro, db_value}
use arts.Memory.Acquire.{
  wait_frontier, remote_request, return_ref, frontier_wait, defer, is_shared, Lookup, count,
  full_request, db_default, acquire_dbs, acquire_all, acquire_next, add_calls, acquire_slot,
  acquire_db, acquire_found, acquire_missing, take, request, counts, sort_slots, insertion, shift,
  slots_from, guid_at, promote, is_local, is_ro, is_ew, is_rw, is_value, is_lc_sync,
}
use arts.Memory.Acquire.Order.{slot_hit, sort_slots_lem}
use arts.Memory.Acquire.Slot.{waits, doubles}
use arts.Memory.Acquire.Count.{AllFine, acquire_dbs-waits}

-- A DB of rank 1 and a DB of this rank, rank 0
abbrev far : ℕ
far = 6 * 2 ^ 56 + 2 ^ 40 + 7

abbrev near : ℕ
near = 6 * 2 ^ 56 + 8

-- A write of the first one, a read of the second one, and a value
abbrev slots : List Dep
slots =
    record blank { guid = far; mode = db_ew }
    ∷ record blank { guid = near; mode = db_ro }
    ∷ record blank { guid = 5; mode = db_value }
    ∷ []

abbrev answers : ℕ → Lookup
answers zero = record { db = none; on_head = true; slice_ok = true }
answers (suc i) = record {
  db = some (record { type = db_default; payload = 1000; valid_rank = 0 });
  on_head = true;
  slice_ok = true;
}

sort_slots_lem_example :
    ((i j : ℕ)
      → i < j
      → j < 3
      → guid_at slots (sort_slots slots 3) i ≤ guid_at slots (sort_slots slots 3) j)
    × (length (sort_slots slots 3) ≡ 3)
    × ((i : ℕ) → i < 3 → tally (slot_hit i) (sort_slots slots 3) ≡ 1)
sort_slots_lem_example = sort_slots_lem slots 3

-- The value comes first, then the near DB.
order : sort_slots slots 3 ≡ 2 ∷ 1 ∷ 0 ∷ []
unfolding sort_slots insertion shift slots_from guid_at
order = refl

abbrev slots_after : List Dep
slots_after =
    record blank { guid = far; mode = db_ew }
    ∷ record blank { guid = near; mode = db_ro; ptr = 1000 }
    ∷ record blank { guid = 5; mode = db_value }
    ∷ []

-- The far DB is requested from its owner.
acquired :
    acquire_dbs 0 2 answers 3 slots ≡ some (slots_after, 2, count ∷ count ∷ full_request 1 ∷ [])
unfolding acquire_dbs acquire_all acquire_next add_calls acquire_slot acquire_db acquire_found
    acquire_missing take request counts sort_slots insertion shift slots_from guid_at promote
    is_local is_ro is_ew is_rw is_value is_lc_sync get_rank get_type
acquired = refl

-- A read of the near DB, whose valid copy is on rank 1, and whose frontier puts the EDT off: the slot
-- waits for the frontier and for rank 1.
abbrev put_off : List Dep
put_off = record blank { guid = near; mode = db_ro } ∷ []

abbrev moved : ℕ → Lookup
moved i = record {
  db = some (record { type = db_default; payload = 1000; valid_rank = 1 });
  on_head = false;
  slice_ok = true;
}

asked_twice :
    acquire_dbs 0 2 moved 1 put_off
    ≡ some (put_off, 2, wait_frontier ∷ remote_request 1 ∷ return_ref ∷ [])
unfolding acquire_dbs acquire_all acquire_next add_calls acquire_slot acquire_db acquire_found
    acquire_missing frontier_wait defer take request counts sort_slots insertion shift slots_from
    guid_at promote is_local is_ro is_ew is_rw is_value is_lc_sync is_shared get_rank get_type
asked_twice = refl

moved_fine : AllFine 0 2 moved put_off
unfolding get_type
moved_fine zero = inl (refl, (λ e. omega (arith, e)))
moved_fine (suc i) = inr (inl (refl, refl))

acquire_dbs-waits_example :
    ◌≡◌ {A = ℕ}
      (2 + doubles (wait_frontier ∷ remote_request 1 ∷ return_ref ∷ []))
      (1 + tally waits (wait_frontier ∷ remote_request 1 ∷ return_ref ∷ []))
acquire_dbs-waits_example =
    acquire_dbs-waits 0 2 1 moved put_off put_off 2
      (wait_frontier ∷ remote_request 1 ∷ return_ref ∷ []) refl (omega arith) moved_fine asked_twice
