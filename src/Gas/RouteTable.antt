-- ===== src/Gas/RouteTable.antt =====
-- libs/src/core/gas/route_table.c, the lock word of an entry: bits 63 (reserved), 62 (available)
-- and 61 (delete), and a count of references in bits 60-0. Each operation is one atomic access or a
-- compare-and-swap loop, so here it is one step; `Table` has the calls on a table of entries, `Life`
-- and `Return` what holds of an entry over its life. The list of held-back operations is `OoList`.
pub mod Life
pub mod Return
pub mod Table
pub mod Select
mod Tests
use arts.Prelude.{
  ℕ, ◌+◌, ◌-◌, ◌*◌, ◌/◌, ◌%◌, ◌^◌, Bool, true, false, ◌&&◌, ◌||◌, not, ltb, leb, ◌==◌,
  if◌then◌else◌, u64, sub_u64,
}

-- The lock words with one bit set.
abbrev pub reserved_item : ℕ
reserved_item = 2 ^ 63

abbrev pub available_item : ℕ
available_item = 2 ^ 62

abbrev pub delete_item : ℕ
delete_item = 2 ^ 61

-- The tests `x & RESERVED_ITEM`, `x & AVAILABLE_ITEM`, `x & DELETE_ITEM` on a 64-bit word.
abbrev pub has_reserved : ℕ → Bool
has_reserved x = x / 2 ^ 63 % 2 == 1

abbrev pub has_available : ℕ → Bool
has_available x = x / 2 ^ 62 % 2 == 1

unfoldable pub is_del : ℕ → Bool
is_del x = x / 2 ^ 61 % 2 == 1

-- `x & COUNT_MASK`
unfoldable pub get_count : ℕ → ℕ
get_count x = x % 2 ^ 61

-- `((x & COUNT_MASK) + 1) < MAX_ITEM`
unfoldable pub check_max_item : ℕ → Bool
check_max_item x = ltb (get_count x + 1) (2 ^ 61 - 1)

unfoldable pub is_res : ℕ → Bool
is_res x = has_reserved x && (not (has_available x) && not (is_del x))

unfoldable pub is_avail : ℕ → Bool
is_avail x = has_available x && (not (has_reserved x) && not (is_del x))

unfoldable pub is_req : ℕ → Bool
is_req x = has_reserved x && (has_available x && not (is_del x))

unfoldable pub should_delete : ℕ → Bool
should_delete x = is_del x && (get_count x == 0)

-- `item_state_t`, with the numbers of the enum
pub data State : Type 0 where
  no_key any_key deleted_key allocated_key available_key requested_key reserved_key : State

unfoldable pub number : State → ℕ
number no_key = 0
number any_key = 1
number deleted_key = 2
number allocated_key = 3
number available_key = 4
number requested_key = 5
number reserved_key = 6

-- The word `x | bit` for the three bits, and `x & ~RESERVED_ITEM`.
abbrev pub or_reserved : ℕ → ℕ
or_reserved x = if has_reserved x then x else x + reserved_item

abbrev pub or_available : ℕ → ℕ
or_available x = if has_available x then x else x + available_item

abbrev pub or_delete : ℕ → ℕ
or_delete x = if is_del x then x else x + delete_item

-- The operations on a lock word: whether the caller did it, and the new word.
unfoldable pub mark_reserve : ℕ → (mark_use : Bool) → Bool × ℕ
mark_reserve x true = if x == 0 then (true, reserved_item + 1) else (false, x)
mark_reserve x false = (x == 0, or_reserved x)

unfoldable pub mark_requested : ℕ → Bool × ℕ
mark_requested x = if has_reserved x || is_del x then (false, x) else (true, or_reserved x)

unfoldable pub mark_write : ℕ → Bool × ℕ
mark_write x = if has_reserved x then (true, or_available (x - reserved_item)) else (false, x)

unfoldable pub mark_delete : ℕ → Bool × ℕ
mark_delete x = (is_del x, or_delete x)

unfoldable pub try_mark_delete : ℕ → (count_val : ℕ) → Bool × ℕ
try_mark_delete x count_val =
    if x == u64 (available_item + count_val)
    then (true, available_item + delete_item)
    else (false, x)

unfoldable pub check_item_state : ℕ → State → Bool
check_item_state x reserved_key = is_res x
check_item_state x requested_key = is_req x
check_item_state x available_key = is_avail x
check_item_state x allocated_key = is_res x || (is_avail x || is_req x)
check_item_state x deleted_key = is_del x
check_item_state x any_key = not (x == 0)
check_item_state x no_key = false

unfoldable pub actual_state : ℕ → State
actual_state x =
    if is_del x
    then deleted_key
    else if is_res x
    then reserved_key
    else if is_req x
    then requested_key
    else if is_avail x
    then available_key
    else no_key

unfoldable pub check_min_item_state : ℕ → State → Bool
check_min_item_state x s =
    not (number (actual_state x) == 0) && leb (number s) (number (actual_state x))

unfoldable pub get_item_state : ℕ → State
get_item_state x =
    if is_res x
    then reserved_key
    else if is_avail x
    then available_key
    else if is_req x
    then requested_key
    else if is_del x
    then deleted_key
    else no_key

-- `inc_item` on an entry that keeps its key.
unfoldable pub inc_item : ℕ → (count : ℕ) → Bool × ℕ
inc_item x count =
    if not (is_del x) && check_max_item x then (true, u64 (x + count)) else (false, x)

-- `dec_item`: whether it frees the entry, which makes the word 0.
unfoldable pub dec_item : ℕ → Bool × ℕ
dec_item x = let local = sub_u64 x 1 in if should_delete local then (true, 0) else (false, local)

-- What `internal_route_table_remove_item` does to the entry it has found: whether it frees it.
unfoldable pub remove_item : ℕ → Bool × ℕ
remove_item x =
    let local = (mark_delete x).1 in if should_delete local then (true, 0) else (false, local)

-- What `arts_route_table_mark_delete` does to it.
unfoldable pub delete_and_dec : ℕ → Bool × ℕ
delete_and_dec x = dec_item (mark_delete x).1

-- What `internal_route_table_return_db` does to it: the result, and the word.
unfoldable pub return_db : ℕ → (mark_to_delete do_delete : Bool) → Bool × ℕ
return_db x true true = dec_item (try_mark_delete x 1).1
return_db x true false = (false, (try_mark_delete (dec_item x).1 0).1)
return_db x false _ = dec_item x
