-- ===== src/Gas/RouteTable/Return.antt =====
-- How a DB's entry is given back.
use arts.Prelude.{ℕ, ◌-◌, ◌^◌, ◌<◌, ◌≡◌, arith, Bool, true, false, if◌then◌else◌, ◌==◌}
use arts.Gas.RouteTable.{
  return_db, try_mark_delete, dec_item, should_delete, is_del, get_count, inc_item, check_max_item,
  is_avail,
}
use arts.Gas.RouteTable.Life.{word}

-- The return of an available entry with `r` references, by the three ways to call it: without a
-- mark, the reference is given back and nothing is freed; with a mark that is not to delete, an
-- entry that was at its last reference is left deleted with none, and is not freed.
pub return_db_lem :
    (r : ℕ) (do_delete : Bool)
    → 0 < r
    → r < 2 ^ 61
    → (return_db (word false r) false do_delete ≡ (false, word false (r - 1)))
      × (return_db (word false r) true false ≡ (false, word (r == 1) (r - 1)))
unfolding return_db try_mark_delete dec_item should_delete is_del get_count
return_db_lem r do_delete pos small = (ground arith, ground arith)

-- The return that is to delete never frees an entry that nobody has deleted. At the last reference
-- it leaves it available with the count 2^61 - 1, from which no reference can be taken any more.
pub return_db-leaks :
    (r : ℕ)
    → 0 < r
    → r < 2 ^ 61
    → let x' = word false (if r == 1 then 2 ^ 61 - 1 else r - 1) in
      (return_db (word false r) true true ≡ (false, x'))
      × (is_avail x' ≡ true)
      × (r ≡ 1 → inc_item x' 1 ≡ (false, x'))
unfolding return_db try_mark_delete dec_item should_delete is_del get_count is_avail inc_item
    check_max_item
return_db-leaks r pos small = (ground arith, ground arith, λ e. ground arith)
