-- ===== src/Compute/Edt/Create/Tests.antt =====
-- The creation of EDTs at concrete inputs.
use arts.Prelude.{ℕ, ◌+◌, ◌*◌, ◌^◌, ◌≡◌, refl, arith, true, none, some, List, [], ◌∷◌, tally}
use arts.Compute.Pool.{
  alloc, alloc_at, alloc_size, bucket_index, bucket_sizes, ensure_init, obtain, or_calloc, size_at,
  take_head,
}
use arts.Compute.Pool.Life.{new_pool}
use arts.Compute.Edt.{Edt, Dep, blank, db_null}
use arts.Compute.Edt.Local.{cleared, get_current_epoch_guid, last_epoch}
use arts.Compute.Edt.Create.{
  Worker, Args, active_shutdown_epoch, add_item, create_internal, create_at, place, choose_epoch,
  fill, copy_params, copy_deps, active, register, mix_u64, choose_ready_local_numa, numa_of_deps,
  first_numa, or_numa,
}
use arts.Compute.Edt.Create.Countdown.{readies, arrive, create-arrive}
use arts.Compute.Edt.Arrive.{Message, sig}
use arts.Gas.Guid.{get_type, get_key}

abbrev worker : Worker
worker = record { rank_id = 0; pool = new_pool; local = cleared }

-- A task with one dependency
abbrev args : Args
args = record {
  edt = none;
  guid = 0;
  route = 0;
  numa_domain = 0;
  edt_space = 176;
  output_buffer = 0;
  func_ptr = 1;
  paramc = 1;
  paramv = λ i. 7 + i;
  depc = 1;
  use_epoch = true;
  epoch_guid = 0;
  has_depv = true;
  initial_depv = none;
  arts_id = 5;
}

abbrev task : Edt
task = record {
  size = 256;
  arts_id = 5;
  func_ptr = 1;
  depc = 1;
  current_edt = 99;
  output_buffer = 0;
  epoch_guid = 0;
  numa_domain = 0;
  depc_needed = 1;
  paramv = 7 ∷ [];
  depv = blank ∷ [];
}

abbrev worker_after : Worker
worker_after = record worker { pool = ensure_init new_pool }

created :
    create_internal worker args 4096 99
    ≡ some (task, active_shutdown_epoch ∷ add_item task ∷ [], worker_after)
unfolding create_internal create_at place choose_epoch fill copy_params copy_deps active register
    obtain or_calloc alloc alloc_at alloc_size size_at bucket_index bucket_sizes ensure_init
    get_current_epoch_guid last_epoch take_head
created = refl

abbrev signals : List Message
signals =
    sig
      (record { slot = 0; data_guid = 500; mode = db_null; flags = 0; ptr = 0; size = 0; copy = 0 })
    ∷ []

create-arrive_example :
    ◌≡◌ {A = ℕ}
      (tally readies (active_shutdown_epoch ∷ add_item task ∷ []) + (arrive task signals).0)
      1
create-arrive_example =
    create-arrive worker worker_after args 4096 99 task (active_shutdown_epoch ∷ add_item task ∷ [])
      signals refl refl (omega arith) created (omega arith)

-- The first DB among the dependencies decides about the domain: key 7 of type 6, on 4 domains.
abbrev slots : ℕ → Dep
slots i = record blank { guid = i * (6 * 2 ^ 56 + 7) }

domain_of_db : choose_ready_local_numa 4 0 0 none 2 (some slots) 0 ≡ 3
unfolding choose_ready_local_numa numa_of_deps first_numa or_numa get_type get_key
domain_of_db = refl

mixed : mix_u64 1 ≡ 6238072747940578789
unfolding mix_u64
mixed = refl
