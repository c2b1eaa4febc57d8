-- ===== src/Memory/Release.antt =====
-- The release of the DBs of an EDT: `release_dbs` of libs/src/core/memory/db.c. What the header of a DB
-- says is an argument (`Headers`). The GPU parts are left out.
pub mod Once
mod Tests
use arts.Prelude.{ℕ, Bool, true, false, not, ◌&&◌, ◌||◌, ◌==◌, if◌then◌else◌, List, [], ◌∷◌, ◌++◌}
use arts.Gas.Guid.{get_rank}
use arts.Compute.Edt.{Dep, Mode, db_ew, db_memset, db_ptr}
use arts.Memory.Acquire.{DbType, is_local, is_value}

-- `arts_is_write_mode`
unfoldable pub is_write : Mode → Bool
is_write db_ew = true
is_write db_memset = true
is_write _ = false

unfoldable pub is_ptr_mode : Mode → Bool
is_ptr_mode db_ptr = true
is_ptr_mode _ = false

-- `arts_seen_write_dep`: the slots before this one, the nearest first
unfoldable pub seen_among : List Dep → (guid ptr : ℕ) → Bool
seen_among [] g p = false
seen_among (d ∷ ds) g p = (d.guid == g) && (d.ptr == p) && is_write d.mode || seen_among ds g p

unfoldable pub seen_write : List Dep → (guid ptr : ℕ) → Bool
seen_write before g p = not ((g == 0) || (p == 0)) && seen_among before g p

-- Calls that leave the file when the slots are released
pub data ReleaseCall : Type 0 where
  free_copy : (ptr : ℕ) → ReleaseCall
  progress_frontier : (guid ptr : ℕ) → ReleaseCall
  remote_update : (guid : ℕ) → ReleaseCall
  return_db : (guid : ℕ) → ReleaseCall

-- What the headers behind the pointers say: the DB's type, and whether it has a frontier
pub record Headers : Type 0 where
  pub type_of : ℕ → DbType
  pub has_frontier : ℕ → Bool

-- The first write of a DB goes on with its frontier, or is sent to its owner.
unfoldable pub release_write : (rank : ℕ) → Headers → List Dep → Dep → List ReleaseCall
release_write rank h before d =
    if (d.guid == 0) || not (is_write d.mode) || seen_write before d.guid d.ptr
    then []
    else if not (d.ptr == 0) && is_local (h.type_of d.ptr)
    then []
    else if get_rank d.guid == rank
    then (if h.has_frontier d.ptr then progress_frontier d.guid d.ptr ∷ [] else [])
    else remote_update d.guid ∷ []

unfoldable pub release_ref : Dep → List ReleaseCall
release_ref d =
    if (d.guid == 0) || is_ptr_mode d.mode || is_value d.mode || (d.ptr == 0)
    then []
    else return_db d.guid ∷ []

-- One round of the loop of `release_dbs`
unfoldable pub release_slot : (rank : ℕ) → Headers → List Dep → Dep → Dep × List ReleaseCall
release_slot rank h before d =
    if is_ptr_mode d.mode
    then (record d { ptr = 0 }, (if d.ptr == 0 then [] else free_copy d.ptr ∷ []))
    else (d, release_write rank h before d ++ release_ref d)

-- `release_dbs` from a slot on, given the slots before it
unfoldable pub release_from : (rank : ℕ) → Headers → List Dep → List Dep → List ReleaseCall
release_from rank h before [] = []
release_from rank h before (d ∷ ds) =
    let (d', out) = release_slot rank h before d in out ++ release_from rank h (d' ∷ before) ds

unfoldable pub release_dbs : (rank : ℕ) → Headers → List Dep → List ReleaseCall
release_dbs rank h depv = release_from rank h [] depv
