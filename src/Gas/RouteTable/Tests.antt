-- ===== src/Gas/RouteTable/Tests.antt =====
-- The route table theorems at concrete inputs.
use arts.Prelude.{ℕ, ◌-◌, ◌^◌, ◌≡◌, ◌≢◌, refl, arith, true, false, none, some, List, [], ◌∷◌}
use arts.Gas.Guid.{
  Node, guid_make, create_for_rank_internal, key_generator_init, set_generator_after_parallel_start,
}
use arts.Gas.Guid.Alloc
use arts.Gas.Guid.Alloc.{Request, AreRequests}
use arts.Gas.Guid.Start.{started, init_workers}
use arts.Gas.RouteTable.{
  check_item_state, allocated_key, available_key, is_avail, is_res, is_req, return_db, inc_item,
}
use arts.Gas.RouteTable.Life.{Op, acquire, release, delete_, run, word, run_frees_once}
use arts.Gas.RouteTable.Return.{return_db-leaks}
use arts.Gas.RouteTable.Table.{
  Level, Place, empty_item, search_for_key, add_item, add_item_race, lookup_item, lookup_rank,
  probe,
}
use arts.Gas.RouteTable.Table.Lookup.{Found, lookup-add_item}
use arts.Gas.RouteTable.Table.Race.{add_item_race-once}
use arts.Gas.RouteTable.Select.{AllKept, get_route_table-started}

-- A second reference is taken and given back, a third taken, and the entry is deleted under it.
abbrev uses : List Op
uses = acquire ∷ release ∷ acquire ∷ delete_ ∷ release ∷ []

-- The second reference is given back before the deletion.
run_frees : run (word false 1) (acquire ∷ release ∷ delete_ ∷ []) ≡ (true, 0)
run_frees =
    run_frees_once 1 (acquire ∷ release ∷ delete_ ∷ []) (omega arith, omega arith) (omega arith)

return_db-leaks_example :
    (return_db (word false 1) true true ≡ (false, word false (2 ^ 61 - 1)))
    × (is_avail (word false (2 ^ 61 - 1)) ≡ true)
    × (◌≡◌ {A = ℕ} 1 1 → inc_item (word false (2 ^ 61 - 1)) 1 ≡ (false, word false (2 ^ 61 - 1)))
return_db-leaks_example = return_db-leaks 1 (omega arith) (omega arith)

abbrev table : List Level
table = record { size = 4; shift = 2; slots = λ _. empty_item } ∷ []

nothing : search_for_key table 77 allocated_key ≡ none
unfolding search_for_key probe check_item_state is_avail is_res is_req
nothing = refl

nothing_available : search_for_key table 77 available_key ≡ none
unfolding search_for_key probe check_item_state is_avail
nothing_available = refl

lookup-add_item_example :
    (p : Place) × (t' : List Level) × (add_item table 500 77 3 true ≡ some (p, t'))
    × Found t' 77 500 3
    × ((k : ℕ)
        → k ≢ 77
        → (lookup_item t' k ≡ lookup_item table k) × (lookup_rank t' k ≡ lookup_rank table k))
lookup-add_item_example = lookup-add_item table 500 77 3 true nothing_available

add_item_race-once_example :
    (p : Place) × (t₁ : List Level) × (t₂ : List Level) × (add_item_race table 500 77 3 true false 0
      ≡ some (true, p, t₁))
    × (add_item_race t₁ 600 77 4 true true 0 ≡ some (false, p, t₂))
    × Found t₁ 77 500 3
    × Found t₂ 77 500 3
add_item_race-once_example = add_item_race-once table 77 500 3 600 4 0 true false true true nothing

-- Rank 1 of two ranks, with two workers: 600 keys make stripes of 100, of which the workers have those
-- of number 3 and 4.
abbrev node : Node
node = record { rank_id = 1; rank_count = 2; worker_thread_count = 2 }

abbrev three : Request
three = record { thread = 1; route = 0; type = 6; count = 3 }

abbrev handed_out : List (Request × ℕ)
handed_out = (three, guid_make 6 0 401) ∷ []

three_granted : Alloc.run (started node 600) (three ∷ []) ≡ some handed_out
unfolding Alloc.run create_for_rank_internal started init_workers key_generator_init
    set_generator_after_parallel_start
three_granted = refl

three_asked : AreRequests 2 (three ∷ [])
three_asked = omega arith

get_route_table-started_example : AllKept (started node 600) handed_out
get_route_table-started_example =
    get_route_table-started node 600 (three ∷ []) handed_out
      (record { rank_in = omega arith; ranks = omega arith; workers = omega arith }) (omega arith)
      three_asked three_granted
