-- ===== src/Sync/Event/Tests.antt =====
-- The event theorems at concrete inputs.
use arts.Prelude.{◌≡◌, refl, arith, true, false, List, [], ◌∷◌, ◌++◌, map, none, some}
use arts.Sync.Event.{Event, counted, edt, callback, destroy, deliver, destroyed}
use arts.Sync.Event.Deliver
use arts.Sync.Event.Deliver.{add, chain_to, add_call, set, up}
use arts.Sync.Event.Countdown.{run_counts_down}
use arts.Sync.Event.Channel
use arts.Sync.Event.Channel.Fifo
use arts.Sync.Event.Channel.Fifo.{AreOps}

-- One waiter before the satisfy, one behind it, and a second satisfy.
abbrev history : List Deliver.Op
history = add 4 0 ∷ set 70 ∷ chain_to 5 1 ∷ set 80 ∷ []

abbrev counted_event : Event
counted_event = record {
  type = counted;
  fired = false;
  latch_count = 2;
  pos = 0;
  data_guid = 0;
  dependents = [];
}

destroyed-counted : destroyed counted ≡ true
unfolding destroyed
destroyed-counted = refl

run_counts_down_example :
    Deliver.run counted_event (add 4 0 ∷ set 70 ∷ add_call 6 ∷ set 0 ∷ [])
    ≡ some (none, map (deliver 70) (edt 4 0 ∷ callback 6 ∷ []) ++ (destroy ∷ []))
run_counts_down_example =
    run_counts_down counted_event (add 4 0 ∷ set 70 ∷ add_call 6 ∷ set 0 ∷ []) refl
      destroyed-counted (omega arith) (omega arith, refl)
