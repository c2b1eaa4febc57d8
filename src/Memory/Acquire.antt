-- ===== src/Memory/Acquire.antt =====
-- The acquisition of the DBs of an EDT: `acquire_dbs` of
-- libs/src/core/memory/db.c. What the route table and the frontier of a DB answer is an argument
-- (`Lookup`). `none` stands for ARTS_ERROR, which aborts the process. The GPU parts are left out.
pub mod Order
pub mod Slot
pub mod Count
mod Tests
use arts.Prelude.{
  ℕ, zero, suc, ◌+◌, ◌-◌, Bool, true, false, not, ◌&&◌, ◌||◌, ltb, ◌==◌, if◌then◌else◌, Option,
  none, some, List, [], ◌∷◌, ◌++◌, get_or, set, u32, sub_u32,
}
use arts.Gas.Guid.{get_rank, get_type}
use arts.Compute.Edt.{
  Dep, Mode, db_null, db_ro, db_ew, db_rw, db_value, db_ptr, db_lc_sync, db_lc_no_copy, db_memset,
  blank, is_null,
}

-- `arts_db_types_t`
pub data DbType : Type 0 where
  db_default db_local db_gpu db_lc : DbType

-- What the calls for one slot answer: the DB with its payload (the reference that the lookup takes is
-- counted with it) and the rank that has the valid copy, whether the frontier has granted the request
-- at once, and whether a slice request succeeds.
pub record Found : Type 0 where
  pub type : DbType
  pub payload : ℕ
  pub valid_rank : ℕ

pub record Lookup : Type 0 where
  pub db : Option Found
  pub on_head : Bool
  pub slice_ok : Bool

-- Calls that leave the file, and the decrement of `depc_needed`.
pub data Effect : Type 0 where
  count : Effect
  request_slice : Effect
  remote_get : (rank : ℕ) → Effect
  out_of_order_get : Effect
  wait_frontier : Effect
  remote_request : (rank : ℕ) → Effect
  full_request : (rank : ℕ) → Effect
  out_of_order_request : Effect
  return_ref : Effect

-- ARTS_NULL and ARTS_DB
abbrev pub null_type : ℕ
null_type = 0

abbrev pub db_type : ℕ
db_type = 6

unfoldable pub is_ro : Mode → Bool
is_ro db_ro = true
is_ro _ = false

unfoldable pub is_ew : Mode → Bool
is_ew db_ew = true
is_ew _ = false

unfoldable pub is_rw : Mode → Bool
is_rw db_rw = true
is_rw _ = false

unfoldable pub is_value : Mode → Bool
is_value db_value = true
is_value _ = false

unfoldable pub is_lc_sync : Mode → Bool
is_lc_sync db_lc_sync = true
is_lc_sync _ = false

unfoldable pub is_local : DbType → Bool
is_local db_local = true
is_local _ = false

-- DBs of the types GPU and LC are requested like reads.
unfoldable pub is_shared : DbType → Bool
is_shared db_gpu = true
is_shared db_lc = true
is_shared _ = false

-- DB_MODE_RW is DB_MODE_EW on more than one node.
unfoldable pub promote : (rank_count : ℕ) → Dep → Dep
promote nodes d = if is_rw d.mode && ltb 1 nodes then record d { mode = db_ew } else d

-- The slot with its pointer, given the calls: the lookup's reference goes with the pointer.
unfoldable pub take : Found → Dep → List Effect → Option (Dep × List Effect)
take f d out = some (record d { ptr = f.payload }, out ++ (count ∷ []))

-- The slot waits: the lookup's reference is given back.
unfoldable pub defer : Dep → List Effect → Option (Dep × List Effect)
defer d out = some (d, out ++ (return_ref ∷ []))

unfoldable pub slice_here : (slice_ok : Bool) → Dep → Option (Dep × List Effect)
slice_here ok d = if ok then defer d (request_slice ∷ []) else none

-- A slice of a DB that the lookup has found
unfoldable pub acquire_slice :
    (rank : ℕ) → Found → (slice_ok : Bool) → Dep → Option (Dep × List Effect)
acquire_slice rank f ok d =
    if is_local f.type || (f.valid_rank == rank)
    then slice_here ok d
    else defer d (remote_get f.valid_rank ∷ [])

unfoldable pub frontier_wait : (on_head : Bool) → List Effect
frontier_wait on_head = if on_head then [] else wait_frontier ∷ []

unfoldable pub request : (rank : ℕ) → (full : Bool) → Effect
request rank full = if full then full_request rank else remote_request rank

-- A whole DB that the lookup has found
unfoldable pub acquire_found :
    (rank : ℕ) → Found → (on_head : Bool) → Dep → Option (Dep × List Effect)
acquire_found rank f on_head d =
    let owner = get_rank d.guid in
    if is_local f.type
    then take f d []
    else if owner == rank
    then (if is_lc_sync d.mode
        then take f d []
        else if f.valid_rank == rank
        then (if on_head then take f d [] else defer d (wait_frontier ∷ []))
        else defer d (
            frontier_wait on_head
            ++ (request f.valid_rank (not (is_ro d.mode || is_shared f.type)) ∷ [])))
    else if f.valid_rank == rank
    then take f d []
    else defer d (request owner (is_ew d.mode) ∷ [])

-- A DB, or a slice of it, that the lookup has not found
unfoldable pub acquire_missing : (rank : ℕ) → (has_slice : Bool) → Dep → Option (Dep × List Effect)
acquire_missing rank has_slice d =
    let owner = get_rank d.guid in
    if has_slice
    then some (d, (if owner == rank then out_of_order_get else remote_get owner) ∷ [])
    else some
        (d, (if owner == rank then out_of_order_request else request owner (is_ew d.mode)) ∷ [])

unfoldable pub acquire_db : (rank : ℕ) → Lookup → Option Found → Dep → Option (Dep × List Effect)
acquire_db rank l none d =
    let has_slice = not (d.slice_size == 0) in
    if has_slice && not (is_ro d.mode) then none else acquire_missing rank has_slice d
acquire_db rank l (some f) d =
    if d.slice_size == 0
    then acquire_found rank f l.on_head d
    else if is_ro d.mode
    then acquire_slice rank f l.slice_ok d
    else none

-- One round of the loop of `acquire_dbs`: the slot, and the calls in their order
unfoldable pub acquire_slot : (rank rank_count : ℕ) → Lookup → Dep → Option (Dep × List Effect)
acquire_slot rank nodes l d =
    if (d.guid == 0) || not (d.ptr == 0)
    then some (d, count ∷ [])
    else (let d' = promote nodes d in
        if is_value d'.mode
        then some (d', count ∷ [])
        else if get_type d'.guid == db_type
        then acquire_db rank l l.db d'
        else if get_type d'.guid == null_type
        then some (d', count ∷ [])
        else some (d', []))

-- The GUID of the slot that stands at a place of `sorted`
unfoldable pub guid_at : List Dep → List ℕ → ℕ → ℕ
guid_at depv sorted k = (get_or depv (get_or sorted k 0) blank).guid

-- The inner loop of the insertion sort, `j + 1` being `n`: larger GUIDs move up, `val` goes below.
unfoldable pub shift : List Dep → (val n : ℕ) → List ℕ → List ℕ
shift depv val zero sorted = set sorted 0 val
shift depv val (suc j) sorted =
    let moved = shift depv val j (set sorted (suc j) (get_or sorted j 0)) in
    if ltb (get_or depv val blank).guid (guid_at depv sorted j)
    then moved
    else set sorted (suc j) val

-- The outer loop from `k` on with `rounds` rounds left
unfoldable pub insertion : List Dep → (rounds k : ℕ) → List ℕ → List ℕ
insertion depv zero k sorted = sorted
insertion depv (suc r) k sorted = insertion depv r (k + 1) (shift depv (get_or sorted k 0) k sorted)

-- `sorted` as it starts: the slots from `k` on, `n` of them
unfoldable pub slots_from : (n k : ℕ) → List ℕ
slots_from zero k = []
slots_from (suc n) k = k ∷ slots_from n (k + 1)

unfoldable pub sort_slots : List Dep → (depc : ℕ) → List ℕ
sort_slots depv depc = insertion depv (depc - 1) 1 (slots_from depc 0)

-- The decrements among the calls
unfoldable pub counts : List Effect → ℕ
counts [] = 0
counts (count ∷ es) = 1 + counts es
counts (_ ∷ es) = counts es

unfoldable pub add_calls :
    List Effect → Option (List Dep × ℕ × List Effect) → Option (List Dep × ℕ × List Effect)
add_calls out none = none
add_calls out (some (depv, needed, more)) = some (depv, needed, out ++ more)

unfoldable pub acquire_next :
    (i needed : ℕ)
    → List Dep
    → Option (Dep × List Effect)
    → (List Dep → ℕ → Option (List Dep × ℕ × List Effect))
    → Option (List Dep × ℕ × List Effect)
acquire_next i needed depv none others = none
acquire_next i needed depv (some (d, out)) others =
    add_calls out (others (set depv i d) (sub_u32 needed (counts out)))

-- The loop of `acquire_dbs` over the slots of `order`; `lookups` is what the calls for a slot answer.
unfoldable pub acquire_all :
    (rank rank_count : ℕ)
    → (ℕ → Lookup)
    → (order : List ℕ) → List Dep
    → (needed : ℕ) → Option (List Dep × ℕ × List Effect)
acquire_all rank nodes lookups [] depv needed = some (depv, needed, [])
acquire_all rank nodes lookups (i ∷ is) depv needed =
    acquire_next i needed depv (acquire_slot rank nodes (lookups i) (get_or depv i blank))
      (acquire_all rank nodes lookups is)

-- `acquire_dbs`: the slots, `depc_needed`, and the calls
unfoldable pub acquire_dbs :
    (rank rank_count : ℕ)
    → (ℕ → Lookup)
    → (depc : ℕ) → List Dep
    → Option (List Dep × ℕ × List Effect)
acquire_dbs rank nodes lookups depc depv =
    acquire_all rank nodes lookups (sort_slots depv depc) depv (u32 (depc + 1))
