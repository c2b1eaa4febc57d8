-- ===== src/Gas/RouteTable/Table/Race.antt =====
-- Callers that race to add an item under the same key.
use arts.Prelude.{
  ℕ, ◌+◌, ◌^◌, ◌≡◌, refl, ap, ◌∙◌, arith, Bool, true, false, if◌then◌else◌, none, some, List,
}
use arts.Gas.RouteTable.{
  available_key, allocated_key, check_item_state, is_avail, is_res, is_del, inc_item,
  check_max_item, get_count,
}
use arts.Gas.RouteTable.Table.{
  Item, Level, Place, find, item_at, write_at, is_empty, matches, search_for_key, add_item_race,
}
use arts.Gas.RouteTable.Table.Search.{
  find-write_pass, item_at-write_at, write_at_twice, with_room-find, with_room-finds, find_weaker,
}
use arts.Gas.RouteTable.Table.Lookup.{
  new_item, roomy, Found, add_item_lem, Found-at, available-IsStrict, allocated-IsStrict,
}

unallocated :
    (t : List Level) (key : ℕ)
    → search_for_key t key allocated_key ≡ none
    → search_for_key t key available_key ≡ none
unfolding search_for_key check_item_state
unallocated t key h =
    find_weaker (matches key available_key) (matches key allocated_key) key t
      (λ x e. ground (arith, e)) h

-- The table with an entry that is available, in the slot that was empty.
module _ (t : List Level) (key : ℕ) (fresh : search_for_key t key allocated_key ≡ none) (p : Place)
    (found : find is_empty key (roomy key t) ≡ some p) where
  abbrev holding : Item → List Level
  holding y = write_at (roomy key t) p y

  abbrev IsEntry : Item → Type 0
  IsEntry y = (y.key ≡ key) × (is_avail y.lock ≡ true)

  holding-available : (y : Item) → IsEntry y → search_for_key (holding y) key available_key ≡ some p
  unfolding search_for_key check_item_state
  holding-available y ok =
      find-write_pass (matches key available_key) key (roomy key t) p y found
        (with_room-find (matches key available_key) key key 0 0 t (available-IsStrict key)
          ∙ unallocated t key fresh)
        (ground (arith, ok))

  holding-allocated : (y : Item) → IsEntry y → search_for_key (holding y) key allocated_key ≡ some p
  unfolding search_for_key check_item_state
  holding-allocated y ok =
      find-write_pass (matches key allocated_key) key (roomy key t) p y found
        (with_room-find (matches key allocated_key) key key 0 0 t (allocated-IsStrict key) ∙ fresh)
        (ground (arith, ok))

  holding-Found : (y : Item) → IsEntry y → Found (holding y) key y.datum y.rank
  holding-Found y ok =
      let f = Found-at (holding y) key p (holding-available y ok) in
      let e = item_at-write_at is_empty key (roomy key t) p y found in
      (f.0 ∙ ap (λ x. x.datum) e, f.1 ∙ ap (λ x. some x.rank) e)

  first :
      (item rank : ℕ) (used avail : Bool)
      → add_item_race t item key rank used avail 0
        ≡ some (true, p, holding (new_item (item_at (roomy key t) p) item key rank used))
  unfolding add_item_race
  first item rank used avail =
      let y = new_item (item_at (roomy key t) p) item key rank used in
      let e = item_at-write_at is_empty key (roomy key t) p y found in
      ground (
        arith,
        fresh,
        add_item_lem t item key rank used p found,
        e,
        write_at_twice (roomy key t) p y y,
      )

  -- A call that finds the entry leaves its item, and takes a reference if it wants one.
  later :
      (y : Item) (item rank n : ℕ) (used avail : Bool)
      → IsEntry y
      → add_item_race (holding y) item key rank used avail n
        ≡ some (
          false,
          p,
          (if avail then holding (record y { lock = (inc_item y.lock 1).1 }) else holding y),
        )
  unfolding add_item_race check_item_state is_avail is_res
  later y item rank n used avail ok =
      let e = item_at-write_at is_empty key (roomy key t) p y found in
      ground (
        arith,
        holding-allocated y ok,
        e,
        ok,
        write_at_twice (roomy key t) p y (record y { lock = (inc_item y.lock 1).1 }),
      )

  second_Found :
      (y z : Item)
      → IsEntry y
      → IsEntry z
      → (item rank : ℕ) → y.datum ≡ item
      → z.datum ≡ item
      → y.rank ≡ rank
      → z.rank ≡ rank
      → (avail : Bool) → Found (if avail then holding z else holding y) key item rank
  second_Found y z ok ok' item rank d d' r r' true =
      let f = holding-Found z ok' in (f.0 ∙ d', f.1 ∙ ap some r')
  second_Found y z ok ok' item rank d d' r r' false =
      let f = holding-Found y ok in (f.0 ∙ d, f.1 ∙ ap some r)

new_item-available : (used : Bool) → is_avail (2 ^ 62 + (if used then 1 else 0)) ≡ true
unfolding is_avail is_del
new_item-available true = refl
new_item-available false = refl

inc-available : (used : Bool) → is_avail (inc_item (2 ^ 62 + (if used then 1 else 0)) 1).1 ≡ true
unfolding is_avail is_del inc_item check_max_item get_count
inc-available true = refl
inc-available false = refl

-- Of two calls that add an item under a key that has no entry, the first one adds its item and says
-- so; the second says that it did not, gets the same entry, and the lookups give the first item and
-- rank, whatever references the two calls take.
pub add_item_race-once :
    (t : List Level) (key item rank item' rank' n : ℕ) (used avail used' avail' : Bool)
    → search_for_key t key allocated_key ≡ none
    → (p : Place) × (t₁ : List Level) × (t₂ : List Level) × (add_item_race t item key rank used
          avail 0
        ≡ some (true, p, t₁))
      × (add_item_race t₁ item' key rank' used' avail' n ≡ some (false, p, t₂))
      × Found t₁ key item rank
      × Found t₂ key item rank
add_item_race-once t key item rank item' rank' n used avail used' avail' fresh =
    let (p, found) = with_room-finds key 0 0 t in
    let y = new_item (item_at (roomy key t) p) item key rank used in
    let z = record y { lock = (inc_item y.lock 1).1 } in
    let ok : (y.key ≡ key) × (is_avail y.lock ≡ true) = (refl, new_item-available used) in
    (
      p,
      holding t key fresh p found y,
      _,
      first t key fresh p found item rank used avail,
      later t key fresh p found y item' rank' n used' avail' ok,
      holding-Found t key fresh p found y ok,
      second_Found t key fresh p found y z ok (refl, inc-available used) item rank refl refl refl
          refl avail',
    )
