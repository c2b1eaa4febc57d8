-- ===== src/Gas/Guid/Tests.antt =====
-- The GUID theorems and the generator at concrete inputs.
use arts.Prelude.{ℕ, ◌-◌, ◌^◌, ◌≡◌, refl, arith, none, some, false, List, [], ◌∷◌}
use arts.Gas.Guid.{
  Generator, Node, guid_make, create_for_rank_internal, key_generator_init,
  set_generator_after_parallel_start,
}
use arts.Gas.Guid.Alloc.{Request, AreRequests, AllDisjoint, run}
use arts.Gas.Guid.Start.{IsNode, boot, started, init_workers, started-AllDisjoint}

-- Two threads with stripes of 100 keys.
abbrev ready : Generator
ready = record {
  global_guid_on = 0;
  keys_per_thread = 100;
  min_global_guid_thread = 0;
  max_global_guid_thread = 2;
  keys = λ t i. 1;
  global_guid_thread_id = λ t. t;
}

abbrev ask : ℕ → ℕ → Request
ask t c = record { thread = t; route = 1; type = 6; count = c }

-- The stripe is used up.
out_of_keys : run ready (ask 0 99 ∷ []) ≡ none
unfolding run create_for_rank_internal
out_of_keys = refl

-- Before the parallel start keys count down from 2^40.
abbrev counting_down : Generator
counting_down = record ready { global_guid_on = 2 ^ 40 }

counts_down :
    create_for_rank_internal counting_down 0 0 1 5
    ≡ some (guid_make 1 0 (2 ^ 40 - 5), record counting_down { global_guid_on = 2 ^ 40 - 5 })
unfolding create_for_rank_internal
counts_down = refl

-- Rank 1 of two ranks, with two workers: 600 keys make stripes of 100, of which the workers have those
-- of number 3 and 4.
abbrev node : Node
node = record { rank_id = 1; rank_count = 2; worker_thread_count = 2 }

node-IsNode : IsNode node
node-IsNode = record { rank_in = omega arith; ranks = omega arith; workers = omega arith }

abbrev requests : List Request
requests = ask 0 3 ∷ ask 1 2 ∷ ask 0 4 ∷ []

abbrev handed_out : List (Request × ℕ)
handed_out =
    (ask 0 3, guid_make 6 1 301) ∷ (ask 1 2, guid_make 6 1 401) ∷ (ask 0 4, guid_make 6 1 304) ∷ []

requests_granted : run (started node 600) requests ≡ some handed_out
unfolding run create_for_rank_internal guid_make started init_workers key_generator_init
    set_generator_after_parallel_start
requests_granted = refl

requests-AreRequests : AreRequests 2 requests
requests-AreRequests = omega arith

started-AllDisjoint_example : AllDisjoint handed_out
started-AllDisjoint_example =
    started-AllDisjoint node 600 requests handed_out node-IsNode (omega arith) requests-AreRequests
      requests_granted

-- Threads 2 and 3 are no workers: they share the stripe of number 5, and both get its first GUID.
abbrev with_receivers : Generator
with_receivers = set_generator_after_parallel_start node (
    key_generator_init node (key_generator_init node (init_workers node (boot 600) 2) 2 false) 3
      false)

shared_stripe :
    run with_receivers (ask 2 1 ∷ ask 3 1 ∷ [])
    ≡ some ((ask 2 1, guid_make 6 1 501) ∷ (ask 3 1, guid_make 6 1 501) ∷ [])
unfolding run create_for_rank_internal guid_make init_workers key_generator_init
    set_generator_after_parallel_start
shared_stripe = refl
