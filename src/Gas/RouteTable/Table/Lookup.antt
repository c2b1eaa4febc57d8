-- ===== src/Gas/RouteTable/Table/Lookup.antt =====
-- What an item that is added to a table means for the lookups.
use arts.Prelude.{
  ℕ, ◌+◌, ◌^◌, ◌≡◌, ◌≢◌, inl, inr, refl, sym, ap, ◌∙◌, arith, Bool, true, false, if◌then◌else◌,
  none, some, List, Option-cases, ==→eq, ne→==,
}
use arts.Gas.RouteTable.{
  State, available_key, allocated_key, check_item_state, is_avail, is_res, is_req, is_del,
  mark_reserve, mark_write,
}
use arts.Gas.RouteTable.Table.{
  Item, Level, Place, find, item_at, write_at, is_empty, with_room, matches, search_for_key,
  search_for_empty, add_item, lookup_item, lookup_rank,
}
use arts.Gas.RouteTable.Table.Search.{
  IsStrict, find_passes, find-write_fail, find-write_pass, item_at-write_at, write_at_twice,
  item_at-write_other, with_room-find, with_room-item_at, with_room-finds,
}

-- The entry that `add_item` makes: available, with one reference if it is used.
abbrev pub new_item : Item → (item key rank : ℕ) → Bool → Item
new_item x item key rank used = record x {
  key = key;
  datum = item;
  rank = rank;
  lock = 2 ^ 62 + (if used then 1 else 0);
}

-- A table, and the place of an empty slot for a key.
abbrev pub roomy : ℕ → List Level → List Level
roomy key t = with_room key 0 0 t

locks : (used : Bool) → (mark_write (mark_reserve 0 used).1).1 ≡ 2 ^ 62 + (if used then 1 else 0)
unfolding mark_write mark_reserve
locks true = refl
locks false = refl

empty-lock : (x : Item) → is_empty x ≡ true → x.lock ≡ 0
empty-lock x h = ==→eq x.lock 0 h

true_not_false : (b : Bool) → b ≡ true → b ≡ false → ⊥
true_not_false b h h' = cc

module _ (t : List Level) (item key rank : ℕ) (used : Bool) (p : Place)
    (found : find is_empty key (roomy key t) ≡ some p) where
  abbrev pub added : List Level
  added = write_at (roomy key t) p (new_item (item_at (roomy key t) p) item key rank used)

  search_for_empty_lem :
      search_for_empty t key used
      ≡ some (
        p,
        write_at
            (roomy key t)
            p
            (record (item_at (roomy key t) p) { key = key; lock = (mark_reserve 0 used).1 }),
      )
  unfolding search_for_empty
  search_for_empty_lem =
      let e =
        empty-lock (item_at (roomy key t) p) (find_passes is_empty key (roomy key t) p found) in
      ground (arith, found, e)

  pub add_item_lem : add_item t item key rank used ≡ some (p, added)
  unfolding add_item
  add_item_lem =
      let y = record (item_at (roomy key t) p) { key = key; lock = (mark_reserve 0 used).1 } in
      let e = item_at-write_at is_empty key (roomy key t) p y found in
      ground (
        arith,
        search_for_empty_lem,
        e,
        locks used,
        write_at_twice (roomy key t) p y (new_item (item_at (roomy key t) p) item key rank used),
      )

  -- A search by a test that nothing passed before finds the new entry if it passes the test, and a
  -- search that it does not pass finds what it found before.
  find-added_pass :
      (test : Item → Bool)
      → IsStrict test
      → find test key t ≡ none
      → test (new_item (item_at (roomy key t) p) item key rank used) ≡ true
      → find test key added ≡ some p
  find-added_pass test strict h pass =
      find-write_pass test key (roomy key t) p _ found
        (with_room-find test key key 0 0 t strict ∙ h) pass

  find-added_fail :
      (test : Item → Bool) (k : ℕ)
      → IsStrict test
      → test (new_item (item_at (roomy key t) p) item key rank used) ≡ false
      → find test k added ≡ find test k t
  find-added_fail test k strict fail =
      find-write_fail test k (roomy key t) p _
        (strict (item_at (roomy key t) p) (find_passes is_empty key (roomy key t) p found)) fail
      ∙ with_room-find test key k 0 0 t strict

  item_at-added : item_at added p ≡ new_item (item_at (roomy key t) p) item key rank used
  item_at-added = item_at-write_at is_empty key (roomy key t) p _ found

  item_at-added_other :
      (test : Item → Bool) (k : ℕ) (q : Place)
      → IsStrict test
      → find test k t ≡ some q
      → item_at added q ≡ item_at t q
  item_at-added_other test k q strict h =
      elim (item_at-write_other (roomy key t) p q
        (new_item (item_at (roomy key t) p) item key rank used)) [
          | inl e ↦ e ∙ with_room-item_at test key k 0 0 t q h
          | inr e ↦
              let at_p =
                strict (item_at (roomy key t) p) (find_passes is_empty key (roomy key t) p found) in
              let at_q = find_passes test k t q h in
              let same = with_room-item_at test key k 0 0 t q h in
              absurd (
                true_not_false (test (item_at t q)) at_q
                  (ap test (sym same ∙ ap (item_at (roomy key t)) (sym e)) ∙ at_p))
        ]

pub available-IsStrict : (key : ℕ) → IsStrict (matches key available_key)
unfolding check_item_state is_avail
available-IsStrict key x h = ground (arith, h)

pub allocated-IsStrict : (key : ℕ) → IsStrict (matches key allocated_key)
unfolding check_item_state is_avail is_res is_req
allocated-IsStrict key x h = ground (arith, h)

abbrev pub Found : List Level → ℕ → ℕ → ℕ → Type 0
Found t key item rank = (lookup_item t key ≡ item) × (lookup_rank t key ≡ some rank)

pub Found-at :
    (t : List Level) (key : ℕ) (p : Place)
    → search_for_key t key available_key ≡ some p
    → Found t key (item_at t p).datum (item_at t p).rank
unfolding lookup_item lookup_rank
Found-at t key p h = (ground (arith, h), ground (arith, h))

new_item-matches :
    (x : Item) (item key rank : ℕ) (used : Bool)
    → (matches key available_key (new_item x item key rank used) ≡ true)
      × (matches key allocated_key (new_item x item key rank used) ≡ true)
unfolding check_item_state is_avail is_res is_req is_del
new_item-matches x item key rank true = (ground arith, ground arith)
new_item-matches x item key rank false = (ground arith, ground arith)

new_item-other :
    (x : Item) (item key rank k : ℕ) (used : Bool) (s : State)
    → k ≢ key
    → matches k s (new_item x item key rank used) ≡ false
new_item-other x item key rank k used s h = ground (arith, ne→== key k (λ e. h (sym e)))

-- A lookup of another key.
module _ (t : List Level) (item key rank : ℕ) (used : Bool) (p : Place)
    (found : find is_empty key (roomy key t) ≡ some p) (k : ℕ) (other : k ≢ key) where
  search-other :
      search_for_key (added t item key rank used p found) k available_key
      ≡ search_for_key t k available_key
  unfolding search_for_key
  search-other =
      find-added_fail t item key rank used p found (matches k available_key) k
        (available-IsStrict k)
        (new_item-other (item_at (roomy key t) p) item key rank k used available_key other)

  entry-other :
      (q : Place)
      → search_for_key t k available_key ≡ some q
      → item_at (added t item key rank used p found) q ≡ item_at t q
  unfolding search_for_key
  entry-other q h =
      item_at-added_other t item key rank used p found (matches k available_key) k q
        (available-IsStrict k) h

  lookup-other : lookup_item (added t item key rank used p found) k ≡ lookup_item t k
  unfolding lookup_item
  lookup-other = elim (Option-cases (search_for_key t k available_key)) [
    | inl e ↦ ground (arith, search-other, e)
    | inr (q, e) ↦ ground (arith, search-other, e, entry-other q e)
  ]

  rank-other : lookup_rank (added t item key rank used p found) k ≡ lookup_rank t k
  unfolding lookup_rank
  rank-other = elim (Option-cases (search_for_key t k available_key)) [
    | inl e ↦ ground (arith, search-other, e)
    | inr (q, e) ↦ ground (arith, search-other, e, entry-other q e)
  ]

search-added :
    (t : List Level) (item key rank : ℕ) (used : Bool) (p : Place)
    → (found : find is_empty key (roomy key t) ≡ some p) → search_for_key t key available_key ≡ none
    → Found (added t item key rank used p found) key item rank
unfolding search_for_key
search-added t item key rank used p found fresh =
    let m = new_item-matches (item_at (roomy key t) p) item key rank used in
    let s =
      find-added_pass t item key rank used p found (matches key available_key)
        (available-IsStrict key) fresh m.0 in
    let f = Found-at (added t item key rank used p found) key p s in
    let e = item_at-added t item key rank used p found in
    (f.0 ∙ ap (λ x. x.datum) e, f.1 ∙ ap (λ x. some x.rank) e)

-- An item that is added under a key that has no available entry, to a table with room or without:
-- the lookups of the key give the item and its rank, and the lookups of the item and of the rank of
-- every other key what they gave.
pub lookup-add_item :
    (t : List Level) (item key rank : ℕ) (used : Bool)
    → search_for_key t key available_key ≡ none
    → (p : Place) × (t' : List Level) × (add_item t item key rank used ≡ some (p, t'))
      × Found t' key item rank
      × ((k : ℕ)
          → k ≢ key
          → (lookup_item t' k ≡ lookup_item t k) × (lookup_rank t' k ≡ lookup_rank t k))
lookup-add_item t item key rank used fresh =
    let (p, found) = with_room-finds key 0 0 t in
    (
      p,
      added t item key rank used p found,
      add_item_lem t item key rank used p found,
      search-added t item key rank used p found fresh,
      λ k other. (
        lookup-other t item key rank used p found k other,
        rank-other t item key rank used p found k other,
      ),
    )
