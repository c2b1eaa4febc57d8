-- ===== src/Memory/Frontier.antt =====
-- libs/src/core/memory/frontier.c: the frontiers of a data block (DB), by which its owner orders
-- the reads and writes of the DB. The list of frontiers, and the chunks of 8 entries of the lists in
-- a frontier, are lists; each call is one step, as the lock of the list and of the frontier make it.
-- Of the lock word of a frontier the bit WRITE_SET is kept. Pointers to EDTs are numbers, 0 is NULL.
pub mod Chain
pub mod Signal
pub mod Service
pub mod Lost
mod Tests
use arts.Prelude.{
  ℕ, zero, suc, ◌+◌, ◌-◌, ◌^◌, Bool, true, false, ◌&&◌, ◌||◌, not, ltb, leb, ◌==◌, if◌then◌else◌,
  Option, none, some, List, [], ◌∷◌, ◌++◌, map, sub_u64, u32,
}
use arts.Gas.Guid.{null_guid}

-- An entry of `localDelayed`: an EDT of the owner that waits for the frontier.
pub record Delayed : Type 0 where
  pub edt : ℕ
  pub slot : ℕ
  pub mode : ℕ

-- An entry of `sliceDelayed`
pub record Slice : Type 0 where
  pub edt : ℕ
  pub edt_guid : ℕ
  pub slot : ℕ
  pub offset : ℕ
  pub size : ℕ
  pub flags : ℕ

-- `arts_db_frontier_s`; `list` has `position` entries.
pub record Frontier : Type 0 where
  pub list : List ℕ
  pub write_set : Bool
  pub ex_node : ℕ
  pub ex_edt_guid : ℕ
  pub ex_edt : ℕ
  pub ex_slot : ℕ
  pub ex_mode : ℕ
  pub local_write_edt_guid : ℕ
  pub local_write_edt : ℕ
  pub local_delayed : List Delayed
  pub slice_delayed : List Slice

-- `arts_new_db_frontier`: all zero.
abbrev pub new_db_frontier : Frontier
new_db_frontier = record {
  list = [];
  write_set = false;
  ex_node = 0;
  ex_edt_guid = 0;
  ex_edt = 0;
  ex_slot = 0;
  ex_mode = 0;
  local_write_edt_guid = 0;
  local_write_edt = 0;
  local_delayed = [];
  slice_delayed = [];
}

-- A request for the DB: the arguments of `arts_push_db_to_list`.
pub record Request : Type 0 where
  pub rank : ℕ
  pub write : Bool
  pub local : Bool
  pub bypass : Bool
  pub edt : ℕ
  pub edt_guid : ℕ
  pub slot : ℕ
  pub mode : ℕ

-- `frontier_add_read_lock` and `frontier_add_write_lock`, when the lock is free: the bit after it,
-- or `none` if the frontier is refused.
unfoldable pub add_read_lock : Bool → Option Bool
add_read_lock write_set = if write_set then none else some false

unfoldable pub add_write_lock : Bool → Option Bool
add_write_lock write_set = if write_set then none else some true

-- `arts_push_db_to_element`: whether the rank is new, and the list.
unfoldable pub push_db_to_element : List ℕ → (rank : ℕ) → Bool × List ℕ
push_db_to_element [] rank = (true, rank ∷ [])
push_db_to_element (x ∷ xs) rank =
    let (new, xs') = push_db_to_element xs rank in
    if x == rank then (false, x ∷ xs) else (new, x ∷ xs')

-- `arts_candidate_edt_guid`; an EDT knows its own GUID, `current_edt`.
unfoldable pub candidate_edt_guid : (current_edt : ℕ → ℕ) → (edt edt_guid : ℕ) → ℕ
candidate_edt_guid current_edt edt edt_guid =
    if (edt_guid == null_guid) && not (edt == 0) then current_edt edt else edt_guid

unfoldable pub same_local_writer : (ℕ → ℕ) → Frontier → (edt edt_guid : ℕ) → Bool
same_local_writer current_edt f edt edt_guid =
    let guid = candidate_edt_guid current_edt edt edt_guid in
    if not (edt == 0) && (f.local_write_edt == edt)
    then true
    else not (guid == null_guid) && (f.local_write_edt_guid == guid)

unfoldable pub record_local_writer : (ℕ → ℕ) → Frontier → (edt edt_guid : ℕ) → Frontier
record_local_writer current_edt f edt edt_guid = record f {
  local_write_edt = edt;
  local_write_edt_guid = candidate_edt_guid current_edt edt edt_guid;
}

abbrev pub add_lock : Request → Bool → Option Bool
add_lock r write_set =
    if r.bypass
    then add_read_lock write_set
    else if r.write
    then add_write_lock write_set
    else add_read_lock write_set

abbrev pub set_ex : Request → Frontier → Frontier
set_ex r f = record f {
  ex_node = r.rank;
  ex_edt_guid = r.edt_guid;
  ex_edt = r.edt;
  ex_slot = r.slot;
  ex_mode = r.mode;
}

-- `arts_push_db_to_frontier` once it has the lock: whether the rank is new, and the frontier.
unfoldable pub accept : (ℕ → ℕ) → Frontier → Request → (write_set : Bool) → Bool × Frontier
accept current_edt f r w =
    let (inserted, list) = push_db_to_element f.list r.rank in
    let f' = record f { list = list; write_set = w } in
    let f'' = (if inserted && (r.write && not r.local) then set_ex r f' else f') in
    (
      inserted,
      (if r.write && r.local then record_local_writer current_edt f'' r.edt r.edt_guid else f''),
    )

-- The whole of it: `none` if the frontier refuses the request.
unfoldable pub push_db_to_frontier : (ℕ → ℕ) → Frontier → Request → Option (Bool × Frontier)
push_db_to_frontier current_edt f r = elim (add_lock r f.write_set) [
  | none ↦ none
  | some w ↦ some (accept current_edt f r w)
]

-- The append to `localDelayed` of an accepted local request on a frontier that is not the head.
abbrev pub delay : Bool → Request → Frontier → Frontier
delay is_head r f =
    if r.local && not is_head
    then record f {
      local_delayed =
          f.local_delayed ++ (record { edt = r.edt; slot = r.slot; mode = r.mode } ∷ []);
    }
    else f

-- What a request comes to: whether it is on the head, whether its rank is new there, the number of
-- the frontier, and the list.
pub record Pushed : Type 0 where
  pub on_head : Bool
  pub unique : Bool
  pub index : ℕ
  pub frontiers : List Frontier

abbrev pub behind : Frontier → Pushed → Pushed
behind f p = record p { index = suc p.index; frontiers = f ∷ p.frontiers }

-- The loop of `arts_push_db_to_list`, with a new frontier at the end of the list.
unfoldable pub push_from : (ℕ → ℕ) → (is_head : Bool) → List Frontier → Request → Option Pushed
push_from current_edt is_head [] r = elim (push_db_to_frontier current_edt new_db_frontier r) [
  | none ↦ none
  | some (unique, f') ↦ some (record {
    on_head = is_head;
    unique = unique;
    index = 0;
    frontiers = delay is_head r f' ∷ [];
  })
]
push_from current_edt is_head (f ∷ fs) r =
    let rest = push_from current_edt false fs r in
    elim (push_db_to_frontier current_edt f r) [
      | some (unique, f') ↦ some (record {
        on_head = is_head;
        unique = unique;
        index = 0;
        frontiers = delay is_head r f' ∷ fs;
      })
      | none ↦
          if r.local && same_local_writer current_edt f r.edt r.edt_guid
          then some (record {
            on_head = is_head;
            unique = false;
            index = 0;
            frontiers = delay is_head r f ∷ fs;
          })
          else elim rest [ none ↦ none | some p ↦ some (behind f p) ]
    ]

unfoldable pub push_db_to_list : (ℕ → ℕ) → List Frontier → Request → Option Pushed
push_db_to_list current_edt fs r = push_from current_edt true fs r

-- `arts_validate_db_slice`: whether it lets a slice of a DB of `data_size` bytes pass.
unfoldable pub validate_db_slice : (data_size offset size : ℕ) → Bool
validate_db_slice data_size offset size =
    if ltb (2 ^ 32 - 1) size
    then false
    else not (ltb data_size offset || ltb (sub_u64 data_size offset) size)
