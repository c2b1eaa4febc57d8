-- ===== src/Memory/Release/Tests.antt =====
-- The release of the DBs at a concrete EDT.
use arts.Prelude.{ℕ, ◌+◌, ◌*◌, ◌^◌, ◌≡◌, refl, true, if◌then◌else◌, List, [], ◌∷◌, tally}
use arts.Gas.Guid.{get_rank}
use arts.Compute.Edt.{Dep, blank, db_ew, db_ro}
use arts.Memory.Acquire.{db_default, is_local, is_value}
use arts.Memory.Release.{
  Headers, progress_frontier, return_db, release_dbs, release_from, release_slot, release_write,
  release_ref, is_write, is_ptr_mode, seen_write, seen_among,
}
use arts.Memory.Release.Once.{goes_on, gives_back, refers, written, HasFrontier, release_dbs_lem}

-- Key 7 and key 8 of rank 0
abbrev one : ℕ
one = 6 * 2 ^ 56 + 7

abbrev two : ℕ
two = 6 * 2 ^ 56 + 8

-- The first DB is written by two slots, the second one is read.
abbrev slots : List Dep
slots =
    record blank { guid = one; ptr = 1000; mode = db_ew }
    ∷ record blank { guid = two; ptr = 2000; mode = db_ro }
    ∷ record blank { guid = one; ptr = 1000; mode = db_ew }
    ∷ []

abbrev headers : Headers
headers = record { type_of = λ p. db_default; has_frontier = λ p. true }

release_dbs_lem_example :
    ((g p : ℕ)
      → HasFrontier 0 headers g p
      → tally (goes_on g p) (release_dbs 0 headers slots) ≡ (if written g p slots then 1 else 0))
    × ((g : ℕ) → tally (gives_back g) (release_dbs 0 headers slots) ≡ tally (refers g) slots)
release_dbs_lem_example = release_dbs_lem 0 headers slots

first_goes_on : HasFrontier 0 headers one 1000
unfolding get_rank is_local
first_goes_on = record {
  real_guid = refl;
  real_ptr = refl;
  not_local = refl;
  own = refl;
  frontier = refl;
}

released :
    release_dbs 0 headers slots
    ≡ progress_frontier one 1000 ∷ return_db one ∷ return_db two ∷ return_db one ∷ []
unfolding release_dbs release_from release_slot release_write release_ref is_write is_ptr_mode
    seen_write seen_among get_rank is_local is_value
released = refl
