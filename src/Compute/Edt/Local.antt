-- ===== src/Compute/Edt/Local.antt =====
-- The thread-local state of libs/src/core/compute/edt.c: the EDT that the worker runs, the epochs that
-- it is in, and the DBs that it has created. The lists are those of Utils/ArrayList; what the memory
-- of a new list holds is an argument. A NULL list is `none`.
pub mod Epochs
pub mod Refine
mod Tests
use arts.Prelude.{
  ℕ, zero, suc, ◌+◌, ◌-◌, Bool, true, false, ltb, ◌==◌, if◌then◌else◌, Option, none, some, List, [],
  ◌∷◌, ◌++◌,
}
use arts.Compute.Edt.{Edt}
use arts.Utils.ArrayList.{ArrayList, Ptr, new, push, get, read, reset}

-- `arts_thread_info.current_edt_guid`, `current_edt`, `epoch_list` and `created_db_list`, which is also
-- `thread_local_t`
pub record Local : Type 0 where
  pub current_edt_guid : ℕ
  pub current_edt : Option Edt
  pub epoch_list : Option ArrayList
  pub created_db_list : Option ArrayList

-- Calls that leave the file.
pub data Effect : Type 0 where
  finished_epoch : (guid : ℕ) → Effect
  finished_shutdown_epoch : Effect

unfoldable pub list_or : (array_length : ℕ) (memory : ℕ → ℕ → ℕ) → Option ArrayList → ArrayList
list_or k memory none = new k memory
list_or k memory (some a) = a

unfoldable pub enter_epoch : ℕ → Option Edt → Option Edt
enter_epoch g none = none
enter_epoch g (some e) = some (record e { epoch_guid = g })

unfoldable pub is_some : Option Edt → Bool
is_some none = false
is_some (some e) = true

-- `arts_set_current_epoch_guid`
unfoldable pub set_current_epoch_guid :
    (memory : ℕ → ℕ → ℕ) → Local → (epoch_guid : ℕ) → Bool × Local
set_current_epoch_guid memory l g = if g == 0 then (false, l) else (
  is_some l.current_edt,
  record l {
    epoch_list = some (push (list_or 8 memory l.epoch_list) g).1;
    current_edt = enter_epoch g l.current_edt;
  },
)

-- The element behind the pointer that `arts_get_from_array_list` gives; the list is the one it leaves.
unfoldable pub fetch : Option Ptr × ArrayList → Option ℕ × ArrayList
fetch (none, a) = (none, a)
fetch (some p, a) = (some (read a.cells p), a)

unfoldable pub last_epoch : Option ArrayList → Option ℕ × Option ArrayList
last_epoch none = (some 0, none)
last_epoch (some a) =
    if a.index == 0
    then (some 0, some a)
    else (let (g, a') = fetch (get a (a.index - 1)) in (g, some a'))

-- `arts_get_current_epoch_guid`: 0 is NULL_GUID, `none` a read through NULL.
unfoldable pub get_current_epoch_guid : Local → Option ℕ × Local
get_current_epoch_guid l = let (g, a) = last_epoch l.epoch_list in (g, record l { epoch_list = a })

-- One round of the loop of `arts_check_epoch_is_root`, given the rounds that follow
unfoldable pub search_round :
    Option ℕ × ArrayList → (to_check : ℕ) → Option Bool × ArrayList → Option Bool × ArrayList
search_round (none, a) c rest = (none, a)
search_round (some x, a) c rest = if x == c then (some true, a) else rest

-- The loop from index `i` on with `k` elements left: whether the epoch is found; `none` is a read
-- through NULL.
unfoldable pub search : (k : ℕ) → ArrayList → (i to_check : ℕ) → Option Bool × ArrayList
search zero a i c = (some false, a)
search (suc k) a i c =
    let rest = search k (get a i).1 (i + 1) c in search_round (fetch (get a i)) c rest

unfoldable pub search_list : Option ArrayList → ℕ → Option Bool × Option ArrayList
search_list none c = (some false, none)
search_list (some a) c = let (found, a') = search a.index a 0 c in (found, some a')

-- `arts_check_epoch_is_root`
unfoldable pub check_epoch_is_root : Local → (to_check : ℕ) → Option Bool × Local
check_epoch_is_root l c =
    let (found, a) = search_list l.epoch_list c in (found, record l { epoch_list = a })

-- `arts_track_created_db`
unfoldable pub track_created_db : (memory : ℕ → ℕ → ℕ) → Local → (guid : ℕ) → Local
track_created_db memory l g = record l {
  created_db_list = some (push (list_or 65536 memory l.created_db_list) g).1;
}

unfoldable pub reset_list : Option ArrayList → Option ArrayList
reset_list none = none
reset_list (some a) = some (reset a)

-- `arts_set_thread_local_edt_info`
unfoldable pub set_thread_local_edt_info : (memory : ℕ → ℕ → ℕ) → Local → Edt → Local
set_thread_local_edt_info memory l e =
    (set_current_epoch_guid memory
      (record {
        current_edt_guid = e.current_edt;
        current_edt = some e;
        epoch_list = reset_list l.epoch_list;
        created_db_list = reset_list l.created_db_list;
      })
      e.epoch_guid).1

abbrev pub cleared : Local
cleared = record {
  current_edt_guid = 0;
  current_edt = none;
  epoch_list = none;
  created_db_list = none;
}

-- `arts_save_thread_local`: what is saved, and what is left.
unfoldable pub save_thread_local : Local → Local × Local
save_thread_local l = (l, cleared)

-- `arts_restore_thread_local`: the lists that the thread has are deleted.
unfoldable pub restore_thread_local : (saved now : Local) → Local
restore_thread_local saved now = saved

-- One round of the loop of `arts_increment_finished_epoch_list`, given the rounds that follow
unfoldable pub finish_round : Option ℕ → Option (List Effect) → Option (List Effect)
finish_round none rest = none
finish_round (some x) none = none
finish_round (some x) (some out) = some (if x == 0 then out else finished_epoch x ∷ out)

-- The loop from index `i` on with `k` elements left
unfoldable pub finish_from : (k : ℕ) → ArrayList → (i : ℕ) → Option (List Effect) × ArrayList
finish_from zero a i = (some [], a)
finish_from (suc k) a i =
    let (rest, a') = finish_from k (get a i).1 (i + 1) in
    (finish_round (fetch (get a i)).0 rest, a')

abbrev pub max_epoch_array_list : ℕ
max_epoch_array_list = 32

unfoldable pub finish_list : Option ArrayList → Option (List Effect) × Option ArrayList
finish_list none = (some [], none)
finish_list (some a) =
    let (out, a') = finish_from a.index a 0 in
    (out, (if ltb max_epoch_array_list a.index then none else some (reset a')))

unfoldable pub with_shutdown : Option (List Effect) → Option (List Effect)
with_shutdown none = none
with_shutdown (some out) = some (out ++ (finished_shutdown_epoch ∷ []))

-- `arts_increment_finished_epoch_list`: the calls (`none` is a read through NULL), and the state.
unfoldable pub increment_finished_epoch_list : Local → Option (List Effect) × Local
increment_finished_epoch_list l =
    let (out, a) = finish_list l.epoch_list in (with_shutdown out, record l { epoch_list = a })

-- `arts_unset_thread_local_edt_info`
unfoldable pub unset_thread_local_edt_info : Local → Option (List Effect) × Local
unset_thread_local_edt_info l =
    let (out, l') = increment_finished_epoch_list l in
    (out, record l' { current_edt_guid = 0; current_edt = none })
