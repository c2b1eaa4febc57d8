-- ===== src/Gas/Guid.antt =====
-- libs/src/core/gas/guid.c and the GUID layout of libs/include/internal/arts/gas/guid.h.
-- A GUID is a 64-bit number: type in bits 63-56, rank in bits 55-40, key in bits 39-0. The fields do
-- not overlap, so the `|` of ARTS_GUID_MAKE is a sum, masks are `%` and shifts are `/`.
-- `none` stands for ARTS_ERROR, which aborts the process.
pub mod Layout
pub mod Alloc
pub mod Start
pub mod Range
mod Tests
use arts.Prelude.{
  ℕ, zero, suc, ◌+◌, ◌-◌, ◌*◌, ◌/◌, ◌%◌, ◌^◌, Bool, true, false, ◌&&◌, not, ltb, ◌==◌,
  if◌then◌else◌, Option, none, some, List, [], ◌∷◌, u32, u64, sub_u64,
}

-- `arts_type_t`: ARTS_NULL, EDT, EVENT, EPOCH, CALLBACK, BUFFER, DB, and the sentinel.
abbrev pub null_type : ℕ
null_type = 0

abbrev pub edt_type : ℕ
edt_type = 1

abbrev pub last_type : ℕ
last_type = 7

abbrev pub null_guid : ℕ
null_guid = 0

-- ARTS_HINT_CURRENT_NODE, `(unsigned int)-1`
abbrev pub current_node : ℕ
current_node = 2 ^ 32 - 1

pub guid_make : (type rank key : ℕ) → ℕ
guid_make type rank key = key % 2 ^ 40 + (rank % 2 ^ 16) * 2 ^ 40 + (type % 2 ^ 8) * 2 ^ 56

unfoldable pub get_key : ℕ → ℕ
get_key g = g % 2 ^ 40

unfoldable pub get_rank : ℕ → ℕ
get_rank g = g / 2 ^ 40 % 2 ^ 16

unfoldable pub get_type : ℕ → ℕ
get_type g = g / 2 ^ 56 % 2 ^ 8

-- The generator's globals: the file's own, and of `arts_node_info` the key tables of the threads
-- (`keys[thread][route * ARTS_LAST_TYPE + type]`) and `global_guid_thread_id`.
pub record Generator : Type 0 where
  pub global_guid_on : ℕ
  pub keys_per_thread : ℕ
  pub min_global_guid_thread : ℕ
  pub max_global_guid_thread : ℕ
  pub keys : ℕ → ℕ → ℕ
  pub global_guid_thread_id : ℕ → ℕ

-- What the node knows of itself and does not change: `arts_global_rank_id`,
-- `arts_global_rank_count`, `worker_thread_count`.
pub record Node : Type 0 where
  pub rank_id : ℕ
  pub rank_count : ℕ
  pub worker_thread_count : ℕ

pub set_global_guid_on : Generator → Generator
set_global_guid_on s = record s { global_guid_on = 2 ^ 40 }

-- The cell of the table that `arts_guid_generator_get_key` points at (`unsigned int` arithmetic).
abbrev pub key_index : (route type : ℕ) → ℕ
key_index route type = u32 (route * last_type + type)

abbrev pub update₂ : (ℕ → ℕ → ℕ) → ℕ → ℕ → ℕ → ℕ → ℕ → ℕ
update₂ f i j v a b = if (i == a) && (j == b) then v else f a b

unfoldable pub create_for_rank_internal :
    (s : Generator) (thread route type guid_count : ℕ) → Option (ℕ × Generator)
create_for_rank_internal s thread route type guid_count =
    if not (s.global_guid_on == 0)
    then (if ltb guid_count s.global_guid_on
        then some (
          guid_make type route (s.global_guid_on - guid_count),
          record s { global_guid_on = s.global_guid_on - guid_count },
        )
        else none)
    else let index = key_index route type in
      let value = s.keys thread index in
      if ltb (u64 (value + guid_count)) s.keys_per_thread
      then some (
        guid_make type route
            (u64 (value + u64 (s.keys_per_thread * s.global_guid_thread_id thread))),
        record s { keys = update₂ s.keys thread index (u64 (value + guid_count)) },
      )
      else none

pub create_for_rank : (s : Generator) (thread route type : ℕ) → Option (ℕ × Generator)
create_for_rank s thread route type = create_for_rank_internal s thread route type 1

unfoldable pub set_generator_after_parallel_start : Node → Generator → Generator
set_generator_after_parallel_start n s =
    let num_of_tables = u32 (n.worker_thread_count + 1) in
    record s {
      keys_per_thread = s.global_guid_on / u64 (num_of_tables * n.rank_count);
      global_guid_on = 0;
    }

-- `role == ARTS_ROLE_WORKER` is the argument `worker`. The new key table starts at 1.
unfoldable pub key_generator_init : Node → Generator → (thread : ℕ) (worker : Bool) → Generator
key_generator_init n s thread worker =
    let num_tables =
      if n.rank_count == 1 then n.worker_thread_count else u32 (n.worker_thread_count + 1) in
    let local_id = if worker then thread else n.worker_thread_count in
    let least = u64 (num_tables * n.rank_id) in
    record s {
      min_global_guid_thread = least;
      max_global_guid_thread =
          (if n.rank_count == 1 then u64 (least + num_tables) else sub_u64 (least + num_tables) 1);
      global_guid_thread_id =
          λ t. if t == thread then u64 (least + local_id) else s.global_guid_thread_id t;
      keys =
          λ t i. if (t == thread) && ltb i (u32 (last_type * n.rank_count)) then 1 else s.keys t i;
    }

pub is_local : Node → ℕ → Bool
unfolding get_rank
is_local n g = n.rank_id == get_rank g

-- The guard `type > ARTS_NULL && type < ARTS_LAST_TYPE`.
abbrev pub valid_type : ℕ → Bool
valid_type type = ltb null_type type && ltb type last_type

pub reserve : Node → Generator → (thread type route : ℕ) → Option (ℕ × Generator)
reserve n s thread type route =
    let here = if route == current_node then n.rank_id else route in
    let target = here % n.rank_count in
    if valid_type type then create_for_rank_internal s thread target type 1 else some (null_guid, s)

-- The loop of `arts_guid_reserve_round_robin`, from index `i` on, with `k` rounds left.
round_robin_from : Node → Generator → (thread type i k : ℕ) → Option (List ℕ × Generator)
unfolding create_for_rank
round_robin_from n s thread type i zero = some ([], s)
round_robin_from n s thread type i (suc k) =
    elim (create_for_rank s thread (i % n.rank_count) type) [
      | none ↦ none
      | some (g, s') ↦ elim (round_robin_from n s' thread type (i + 1) k) [
        | none ↦ none
        | some (gs, s'') ↦ some (g ∷ gs, s'')
      ]
    ]

-- `none` within is the NULL array of an invalid type.
pub reserve_round_robin :
    Node → Generator → (thread size type : ℕ) → Option (Option (List ℕ) × Generator)
unfolding round_robin_from
reserve_round_robin n s thread size type =
    if valid_type type
    then elim (round_robin_from n s thread type 0 size) [
      | none ↦ none
      | some (gs, s') ↦ some (some gs, s')
    ]
    else some (none, s)

pub reserve_range : Node → Generator → (thread type size route : ℕ) → Option (ℕ × Generator)
reserve_range n s thread type size route =
    let target = if route == current_node then n.rank_id else route in
    if not (size == 0) && valid_type type
    then create_for_rank_internal s thread target type size
    else some (null_guid, s)

-- `for (i = 0; i < hash_size; i++) { if (key(start) % hash_size == 0) break; start++; }`
pub align_start : (rounds start hash_size : ℕ) → ℕ
unfolding get_key
align_start zero start hash_size = start
align_start (suc rounds) start hash_size =
    let rest = align_start rounds (u64 (start + 1)) hash_size in
    if get_key start % hash_size == 0 then start else rest

pub reserve_range_hash : Generator → (thread type size route hash_size : ℕ) → Option (ℕ × Generator)
reserve_range_hash s thread type size route hash_size =
    if not (size == 0) && valid_type type
    then elim (create_for_rank_internal s thread route type (u32 (size + hash_size))) [
      | none ↦ none
      | some (start, s') ↦ some (align_start hash_size start hash_size, s')
    ]
    else some (null_guid, s)

pub from_index : (range_guid index : ℕ) → ℕ
from_index range_guid index = u64 (range_guid + index)

-- `none` is the -1 of the source; the cast of the difference to `int` keeps its low 32 bits, of
-- which those from 2^31 on stand for negative numbers.
pub index_from : (range_guid guid : ℕ) → Option ℕ
unfolding get_type get_rank get_key
index_from range_guid guid =
    if not (get_type range_guid == get_type guid)
    then none
    else if not (get_rank range_guid == get_rank guid)
    then none
    else if ltb (get_key guid) (get_key range_guid)
    then none
    else some (u32 (get_key guid - get_key range_guid))
