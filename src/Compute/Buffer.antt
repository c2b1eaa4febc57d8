-- ===== src/Compute/Buffer.antt =====
-- The buffers of libs/src/core/compute/edt.c: what a GUID of type ARTS_BUFFER stands for, which a number
-- of calls set or read and the last of them removes. A pointer is a number, 0 is NULL; what
-- `arts_malloc` would give is an argument, and so is what the lookup of the GUID has found.
pub mod Uses
mod Tests
use arts.Prelude.{
  ℕ, ◌+◌, Bool, ltb, ◌==◌, if◌then◌else◌, Option, none, some, List, [], ◌∷◌, ◌++◌, sub_u32,
}
use arts.Gas.Guid.{get_rank}

-- `arts_buffer_t`
pub record Stub : Type 0 where
  pub buffer : ℕ
  pub size_to_write : ℕ
  pub size : ℕ
  pub uses : ℕ
  pub epoch_guid : ℕ

-- Calls that leave the file, and the writes through pointers.
pub data Effect : Type 0 where
  active_epoch : (guid : ℕ) → Effect
  active_shutdown_epoch : Effect
  queue_epoch : (guid : ℕ) → Effect
  queue_shutdown_epoch : Effect
  finished_epoch : (guid : ℕ) → Effect
  finished_shutdown_epoch : Effect
  malloc : (size : ℕ) → Effect
  write_size : (address size : ℕ) → Effect
  copy : (destination source size : ℕ) → Effect
  add_item : Effect
  remove_item : Effect
  free_stub : Effect
  memory_move : (rank source size : ℕ) → Effect

unfoldable pub of_epoch : (ℕ → Effect) → (guid : ℕ) → List Effect
of_epoch f g = if g == 0 then [] else f g ∷ []

-- `*buffer` after the allocation
unfoldable pub place : (given size fresh : ℕ) → ℕ
place p size fresh = if size == 0 then p else if p == 0 then fresh else p

-- `arts_allocate_local_buffer`: `given` is what the caller's pointer points to; `none` in the result is
-- a read through NULL.
unfoldable pub allocate_local_buffer :
    (given : Option ℕ) → (size uses epoch_guid fresh : ℕ) → Option (Stub × List Effect)
allocate_local_buffer none size uses g fresh =
    if size == 0
    then some (
      record { buffer = 0; size_to_write = 0; size = size; uses = uses; epoch_guid = g },
      of_epoch active_epoch g ++ (active_shutdown_epoch ∷ add_item ∷ []),
    )
    else none
allocate_local_buffer (some p) size uses g fresh = some (
  record {
    buffer = place p size fresh;
    size_to_write = 0;
    size = size;
    uses = uses;
    epoch_guid = g;
  },
  of_epoch active_epoch g
      ++ (active_shutdown_epoch
          ∷ ((if size == 0 then [] else if p == 0 then malloc size ∷ [] else [])
              ++ (add_item ∷ []))),
)

-- A buffer of size 0 takes the size of what comes.
unfoldable pub grow : Stub → (size fresh : ℕ) → Stub × List Effect
grow s size fresh =
    if ltb s.size size
    then (if s.size == 0
        then (if s.buffer == 0
            then (record s { buffer = fresh; size = size }, malloc size ∷ [])
            else (record s { size = size }, []))
        else (s, []))
    else (s, [])

-- One use is over; with the last one the buffer goes.
unfoldable pub use_up : Stub → Option Stub × List Effect
use_up s =
    let left = sub_u32 s.uses 1 in
    if left == 0
    then (none, remove_item ∷ free_stub ∷ [])
    else (some (record s { uses = left }), [])

unfoldable pub note_size : Stub → (size : ℕ) → List Effect
note_size s size = if s.size_to_write == 0 then [] else write_size s.size_to_write size ∷ []

unfoldable pub copy_in : Stub → (source : ℕ) → List Effect
copy_in s source = if s.buffer == 0 then [] else copy s.buffer source s.size ∷ []

-- `arts_set_buffer` on the stub that the lookup has found: the pointer, what is left, and the calls
unfoldable pub set_found : Stub → (source size fresh : ℕ) → ℕ × Option Stub × List Effect
set_found s source size fresh =
    let (s', grown) = grow s size fresh in
    let (left, gone) = use_up s' in
    (
      s'.buffer,
      left,
      of_epoch queue_epoch s.epoch_guid
          ++ (queue_shutdown_epoch
              ∷ (grown
                  ++ (note_size s' size
                      ++ (copy_in s' source
                          ++ (gone
                              ++ (of_epoch finished_epoch s.epoch_guid
                                  ++ (finished_shutdown_epoch ∷ []))))))),
    )

unfoldable pub set_local : Option Stub → (source size fresh : ℕ) → ℕ × Option Stub × List Effect
set_local none source size fresh = (0, none, [])
set_local (some s) source size fresh = set_found s source size fresh

-- `arts_set_buffer`
unfoldable pub set_buffer :
    (rank guid : ℕ) → Option Stub → (source size fresh : ℕ) → ℕ × Option Stub × List Effect
set_buffer rank guid s source size fresh =
    if get_rank guid == rank
    then set_local s source size fresh
    else (0, s, memory_move (get_rank guid) source size ∷ [])

unfoldable pub get_local : Option Stub → ℕ × Option Stub × List Effect
get_local none = (0, none, [])
get_local (some s) = let (left, gone) = use_up s in (s.buffer, left, gone)

-- `arts_get_buffer`
unfoldable pub get_buffer : (rank guid : ℕ) → Option Stub → ℕ × Option Stub × List Effect
get_buffer rank guid s = if get_rank guid == rank then get_local s else (0, s, [])

unfoldable pub block_local : Option Stub → Option (ℕ × Option Stub × List Effect)
block_local none = some (0, none, [])
block_local (some s) =
    let (left, gone) = use_up s in if ltb 1 s.uses then none else some (s.buffer, left, gone)

-- `arts_block_for_buffer`: `none` while it yields.
unfoldable pub block_for_buffer :
    (rank guid : ℕ) → Option Stub → Option (ℕ × Option Stub × List Effect)
block_for_buffer rank guid s = if get_rank guid == rank then block_local s else some (0, s, [])
