-- ===== src/Compute/Edt.antt =====
-- libs/src/core/compute/edt.c: EDTs, their dependency slots, and what a message does to them. The
-- memory that a pointer gives is not modelled: a pointer is a number, 0 is NULL. The count of
-- invalidations, which only the GPU code sets, is left out with the branch that it guards.
pub mod Local
pub mod Create
pub mod Arrive
use arts.Prelude.{
  ℕ, zero, suc, ◌+◌, Bool, true, false, ltb, ◌==◌, if◌then◌else◌, Option, none, some, List, [], ◌∷◌,
  get_or, set, sub_u32, length,
}

-- `arts_db_access_mode_t`
pub data Mode : Type 0 where
  db_null db_ro db_ew db_rw db_value db_ptr db_lc_sync db_lc_no_copy db_memset : Mode

unfoldable pub is_null : Mode → Bool
is_null db_null = true
is_null _ = false

unfoldable pub is_ptr : Mode → Bool
is_ptr db_ptr = true
is_ptr _ = false

-- `arts_edt_dep_t`
pub record Dep : Type 0 where
  pub guid : ℕ
  pub ptr : ℕ
  pub mode : Mode
  pub flags : ℕ
  pub slice_offset : ℕ
  pub slice_size : ℕ

-- A slot of zeros
abbrev pub blank : Dep
blank = record { guid = 0; ptr = 0; mode = db_null; flags = 0; slice_offset = 0; slice_size = 0 }

-- `arts_edt_s` with its trailing arrays; `size` is that of its header.
pub record Edt : Type 0 where
  pub size : ℕ
  pub arts_id : ℕ
  pub func_ptr : ℕ
  pub depc : ℕ
  pub current_edt : ℕ
  pub output_buffer : ℕ
  pub epoch_guid : ℕ
  pub numa_domain : ℕ
  pub depc_needed : ℕ
  pub paramv : List ℕ
  pub depv : List Dep

-- The arguments of `internal_signal_edt_ex` but the EDT; `copy` is the memory that `arts_malloc` gives.
pub record Signal : Type 0 where
  pub slot : ℕ
  pub data_guid : ℕ
  pub mode : Mode
  pub flags : ℕ
  pub ptr : ℕ
  pub size : ℕ
  pub copy : ℕ

-- The arguments of `arts_set_dep_metadata_ext` but the EDT
pub record Metadata : Type 0 where
  pub slot : ℕ
  pub mode : Mode
  pub flags : ℕ
  pub slice_offset : ℕ
  pub slice_size : ℕ

-- The pointer that a slot gets: of a DB_MODE_PTR signal with bytes, that of their copy.
unfoldable pub stored_ptr : Signal → ℕ
stored_ptr s = if is_ptr s.mode then (if ltb 0 s.size then s.copy else s.ptr) else s.ptr

-- The writes of `internal_signal_edt_ex` to the slot
unfoldable pub write_signal : Signal → Dep → Dep
write_signal s d = record {
  guid = s.data_guid;
  ptr = stored_ptr s;
  mode = (if is_null s.mode then d.mode else s.mode);
  flags = (if s.flags == 0 then d.flags else s.flags);
  slice_offset = (if is_null s.mode then d.slice_offset else 0);
  slice_size = (if is_null s.mode then d.slice_size else 0);
}

-- The writes of `arts_set_dep_metadata_ext` to the slot
unfoldable pub write_metadata : Metadata → Dep → Dep
write_metadata m d = record d {
  mode = m.mode;
  flags = m.flags;
  slice_offset = m.slice_offset;
  slice_size = m.slice_size;
}

unfoldable pub at_slot : Edt → ℕ → (Dep → Dep) → Edt
at_slot e k f =
    if ltb k e.depc then record e { depv = set e.depv k (f (get_or e.depv k blank)) } else e

-- `internal_signal_edt_ex` on an EDT that the lookup has found: whether it is ready, and the EDT.
unfoldable pub signal : Edt → Signal → Bool × Edt
signal e s =
    let left = sub_u32 e.depc_needed 1 in
    (left == 0, record (at_slot e s.slot (write_signal s)) { depc_needed = left })

-- `arts_set_dep_metadata_ext` on an EDT that the lookup has found
unfoldable pub set_dep_metadata : Edt → Metadata → Edt
set_dep_metadata e m = at_slot e m.slot (write_metadata m)
