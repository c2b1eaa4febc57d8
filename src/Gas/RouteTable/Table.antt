-- ===== src/Gas/RouteTable/Table.antt =====
-- The calls of libs/src/core/gas/route_table.c on a table: a chain of hash tables, each twice the
-- size of the one before, with 8 slots to probe for a key. One call is one step here, as the lock
-- of the GUID and the compare-and-swap on the slot make it for the calls on one key. The chain is
-- the list of its tables; a pointer to an entry is the place of the table and the slot.
-- The list of held-back operations of an entry is kept in `OoList`.
pub mod Search
pub mod Lookup
pub mod Hash
pub mod Race
use arts.Prelude.{
  ℕ, zero, suc, ◌+◌, ◌-◌, ◌*◌, ◌/◌, ◌%◌, ◌^◌, Bool, true, false, ◌&&◌, not, ltb, leb, ◌==◌,
  if◌then◌else◌, Option, none, some, List, [], ◌∷◌, u32, u64,
}
use arts.Gas.RouteTable.{
  State, no_key, allocated_key, available_key, reserved_key, check_item_state, get_item_state,
  mark_reserve, mark_write, inc_item, dec_item, remove_item, delete_and_dec, return_db,
}

-- `arts_route_item_t`, without its list; the datum is a number, 0 the NULL pointer.
pub record Item : Type 0 where
  pub key : ℕ
  pub datum : ℕ
  pub lock : ℕ
  pub rank : ℕ
  pub touched : ℕ

-- One `arts_route_table_s` of the chain.
pub record Level : Type 0 where
  pub size : ℕ
  pub shift : ℕ
  pub slots : ℕ → Item

pub data Place : Type 0 where
  place : (level slot : ℕ) → Place

abbrev pub empty_item : Item
empty_item = record { key = 0; datum = 0; lock = 0; rank = 0; touched = 0 }

-- The cases of the `switch` in `get_route_table_key`, which fall through.
abbrev pub multipliers : List (ℕ × ℕ)
multipliers =
    (10, 1021)
    ∷ (11, 2039)
    ∷ (12, 4093)
    ∷ (13, 8191)
    ∷ (14, 16381)
    ∷ (15, 32749)
    ∷ (16, 65521)
    ∷ (17, 131071)
    ∷ (18, 262139)
    ∷ (19, 524287)
    ∷ (20, 1048573)
    ∷ (21, 2097143)
    ∷ (22, 4194301)
    ∷ (31, 2147483647)
    ∷ (32, 4294967291)
    ∷ []

unfoldable pub fall_through : ℕ → List (ℕ × ℕ) → ℕ
fall_through hash [] = hash
fall_through hash ((_, m) ∷ cases) = fall_through (u64 (hash * m)) cases

unfoldable pub switch : (shift hash : ℕ) → List (ℕ × ℕ) → ℕ
switch shift hash [] = hash
switch shift hash ((c, m) ∷ cases) =
    if shift == c then fall_through hash ((c, m) ∷ cases) else switch shift hash cases

unfoldable pub get_route_table_key : (x shift : ℕ) → ℕ
get_route_table_key x shift =
    u64 (x * switch shift 14695981039346656037 multipliers) / 2 ^ (64 - shift) * 8

unfoldable pub new_route_table : (size shift : ℕ) → Level
new_route_table size shift = record { size = size; shift = shift; slots = λ _. empty_item }

-- The first of `k` slots from `i` on that the test accepts.
unfoldable pub probe : (Item → Bool) → (ℕ → Item) → (i k : ℕ) → Option ℕ
probe test slots i zero = none
probe test slots i (suc k) = if test (slots i) then some i else probe test slots (i + 1) k

abbrev pub below : Option Place → Option Place
below none = none
below (some (place n i)) = some (place (suc n) i)

-- A slot of the first table, or else what the rest of the chain has.
abbrev pub first_of : Option ℕ → Option Place → Option Place
first_of (some i) later = some (place 0 i)
first_of none later = below later

abbrev pub find : (Item → Bool) → (key : ℕ) → List Level → Option Place
find test key [] = none
find test key (l ∷ ls) =
    first_of (probe test l.slots (get_route_table_key key l.shift) 8) (find test key ls)

abbrev pub matches : ℕ → State → Item → Bool
matches key state x = check_item_state x.lock state && (x.key == key)

unfoldable pub search_for_key : List Level → (key : ℕ) → State → Option Place
search_for_key t key state = find (matches key state) key t

-- Reading and writing at a place.
abbrev pub item_at : List Level → Place → Item
item_at [] p = empty_item
item_at (l ∷ ls) (place zero i) = l.slots i
item_at (l ∷ ls) (place (suc n) i) = item_at ls (place n i)

abbrev pub put_slot : (ℕ → Item) → ℕ → Item → ℕ → Item
put_slot slots i x j = if j == i then x else slots j

abbrev pub write_at : List Level → Place → Item → List Level
write_at [] p x = []
write_at (l ∷ ls) (place zero i) x = record l { slots = put_slot l.slots i x } ∷ ls
write_at (l ∷ ls) (place (suc n) i) x = l ∷ write_at ls (place n i) x

-- The chain with a table added behind the last if a key finds no empty slot.
abbrev pub is_empty : Item → Bool
is_empty x = x.lock == 0

abbrev pub if_found : Option ℕ → (same grown : List Level) → List Level
if_found (some _) same grown = same
if_found none same grown = grown

abbrev pub with_room : (key : ℕ) → (size shift : ℕ) → List Level → List Level
with_room key size shift [] = new_route_table (u32 (2 * size)) (shift + 1) ∷ []
with_room key size shift (l ∷ ls) =
    if_found (probe is_empty l.slots (get_route_table_key key l.shift) 8) (l ∷ ls)
      (l ∷ with_room key l.size l.shift ls)

-- `arts_route_table_search_for_empty`: the slot that is marked, and the chain. A table is not empty.
unfoldable pub search_for_empty :
    List Level → (key : ℕ) → (mark_used : Bool) → Option (Place × List Level)
search_for_empty t key mark_used =
    let t' = with_room key 0 0 t in
    elim (find is_empty key t') [
      | none ↦ none
      | some p ↦
          let x = item_at t' p in
          some (p, write_at t' p (record x { key = key; lock = (mark_reserve x.lock mark_used).1 }))
    ]

-- `internal_route_table_add_item`
unfoldable pub add_item :
    List Level → (item key rank : ℕ) → (used : Bool) → Option (Place × List Level)
add_item t item key rank used = elim (search_for_empty t key used) [
  | none ↦ none
  | some (p, t') ↦
      let x = item_at t' p in
      some (p, write_at t' p (record x { datum = item; rank = rank; lock = (mark_write x.lock).1 }))
]

-- `free_item`
unfoldable pub free_item : Item → Item
free_item x = record x { datum = 0; key = 0; lock = 0; touched = 0 }

-- A lock operation that may free the entry.
abbrev pub set_lock : Item → Bool × ℕ → Item
set_lock x (true, _) = free_item x
set_lock x (false, lock) = record x { lock = lock }

-- What a call does with the entry that it finds, if there is one.
abbrev pub at_key : List Level → (key : ℕ) → State → (Item → Item) → List Level
at_key t key state f = elim (search_for_key t key state) [
  | none ↦ t
  | some p ↦ write_at t p (f (item_at t p))
]

unfoldable pub internal_remove_item : List Level → (key : ℕ) → List Level
internal_remove_item t key = at_key t key available_key (λ x. set_lock x (remove_item x.lock))

unfoldable pub hide_item : List Level → (key : ℕ) → List Level
hide_item t key = at_key t key available_key (λ x. record x { datum = 0 })

unfoldable pub mark_item_delete : List Level → (key : ℕ) → List Level
mark_item_delete t key = at_key t key available_key (λ x. set_lock x (delete_and_dec x.lock))

unfoldable pub internal_return_db :
    List Level → (key : ℕ) → (mark_to_delete do_delete : Bool) → List Level
internal_return_db t key m d = at_key t key available_key (λ x. set_lock x (return_db x.lock m d))

unfoldable pub set_rank : List Level → (key rank : ℕ) → List Level
set_rank t key rank = at_key t key available_key (λ x. record x { rank = rank })

unfoldable pub lookup_rank : List Level → (key : ℕ) → Option ℕ
lookup_rank t key = elim (search_for_key t key available_key) [
  | none ↦ none
  | some p ↦ some ((item_at t p).rank)
]

unfoldable pub lookup_item : List Level → (key : ℕ) → ℕ
lookup_item t key = elim (search_for_key t key available_key) [
  | none ↦ 0
  | some p ↦ (item_at t p).datum
]

-- `arts_route_table_lookup_db`: the datum, and the entry's rank; a reference is taken.
unfoldable pub lookup_db : List Level → (key : ℕ) → (touch : Bool) → ℕ × Option ℕ × List Level
lookup_db t key touch = elim (search_for_key t key available_key) [
  | none ↦ (0, none, t)
  | some p ↦
      let x = item_at t p in
      let (ok, lock) = inc_item x.lock 1 in
      let n = (if touch && not (x.datum == 0) then u32 (x.touched + 1) else x.touched) in
      if ok
      then (x.datum, some x.rank, write_at t p (record x { lock = lock; touched = n }))
      else (0, some x.rank, t)
]

-- `internal_route_table_add_item_race` by a caller that gets the lock of the GUID at once.
unfoldable pub add_item_race :
    List Level
    → (item key rank : ℕ) → (used_res used_avail : Bool) → (to_add_on_creation : ℕ)
    → Option (Bool × Place × List Level)
add_item_race t item key rank used_res used_avail to_add =
    elim (search_for_key t key allocated_key) [
      | some p ↦
          let x = item_at t p in
          some (
            if check_item_state x.lock reserved_key
            then (let w = (mark_write x.lock).1 in
                let w' = (if used_res then (inc_item w 1).1 else w) in
                (true, p, write_at t p (record x { datum = item; rank = rank; lock = w' })))
            else if used_avail && check_item_state x.lock available_key
            then (false, p, write_at t p (record x { lock = (inc_item x.lock 1).1 }))
            else (false, p, t))
      | none ↦ elim (add_item t item key rank used_res) [
        | none ↦ none
        | some (p, t') ↦
            let x = item_at t' p in
            let w = (if to_add == 0 then x.lock else (inc_item x.lock to_add).1) in
            some (true, p, write_at t' p (record x { lock = w }))
      ]
    ]

-- `arts_route_table_reserve_item_race` by such a caller.
unfoldable pub reserve_item_race :
    List Level → (key : ℕ) → (used : Bool) → Option (Bool × Place × List Level)
reserve_item_race t key used = elim (search_for_key t key allocated_key) [
  | some p ↦
      let x = item_at t p in
      some
        (false, p, (if used then write_at t p (record x { lock = (inc_item x.lock 1).1 }) else t))
  | none ↦ elim (search_for_empty t key used) [ none ↦ none | some (p, t') ↦ some (true, p, t') ]
]
