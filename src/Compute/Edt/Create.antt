-- ===== src/Compute/Edt/Create.antt =====
-- The creation of EDTs in libs/src/core/compute/edt.c. What other files give is an argument: the new
-- GUID of `arts_guid_create_for_rank` and the memory of the allocator. The sizes of the C structs are
-- arguments too. `none` stands for ARTS_ERROR, which aborts the process, and for a read through NULL.
pub mod Countdown
mod Tests
use arts.Prelude.{
  ℕ, zero, suc, ◌+◌, ◌*◌, ◌/◌, ◌%◌, ◌^◌, Bool, true, false, not, ◌&&◌, ltb, ◌==◌, if◌then◌else◌,
  Option, none, some, List, [], ◌∷◌, ◌++◌, u32, u64,
}
use Prim.Native.Nat.{bit_xor}
use arts.Gas.Guid.{current_node, get_rank, get_type, get_key}
use arts.Compute.Pool.{Pool, obtain, alloc_size}
use arts.Compute.Edt.{Edt, Dep, blank}
use arts.Compute.Edt.Local.{Local, check_epoch_is_root, get_current_epoch_guid}

-- The state of the worker, and `arts_global_rank_id`
pub record Worker : Type 0 where
  pub rank_id : ℕ
  pub pool : Pool
  pub local : Local

-- `sizeof(struct arts_edt_s)` and `sizeof(arts_edt_dep_t)`
pub record Sizes : Type 0 where
  pub edt : ℕ
  pub dep : ℕ

-- The arguments of `arts_edt_create_internal`; `edt` is NULL as `none`.
pub record Args : Type 0 where
  pub edt : Option ℕ
  pub guid : ℕ
  pub route : ℕ
  pub numa_domain : ℕ
  pub edt_space : ℕ
  pub output_buffer : ℕ
  pub func_ptr : ℕ
  pub paramc : ℕ
  pub paramv : ℕ → ℕ
  pub depc : ℕ
  pub use_epoch : Bool
  pub epoch_guid : ℕ
  pub has_depv : Bool
  pub initial_depv : Option (ℕ → Dep)
  pub arts_id : ℕ

-- Calls that leave the file, in their order; the ones on the pre-reserved path are in Edt/Arrive.
pub data Effect : Type 0 where
  active_epoch : (guid : ℕ) → Effect
  active_shutdown_epoch : Effect
  memory_move : (route : ℕ) → Edt → Effect
  add_item : Edt → Effect
  handle_ready : Edt → Effect
  add_item_race : Edt → Effect
  fire_oo : Effect

unfoldable pub root_or_current : (epoch_guid : ℕ) → Option Bool × Local → Option ℕ × Local
root_or_current g (none, l) = (none, l)
root_or_current g (some true, l) = (some g, l)
root_or_current g (some false, l) = get_current_epoch_guid l

-- The epoch of the new EDT, 0 if it has none
unfoldable pub choose_epoch : Bool → (epoch_guid : ℕ) → Local → Option ℕ × Local
choose_epoch wanted g l =
    if wanted
    then (if g == 0 then get_current_epoch_guid l else root_or_current g (check_epoch_is_root l g))
    else (some 0, l)

unfoldable pub copy_params : (k : ℕ) → (ℕ → ℕ) → (i : ℕ) → List ℕ
copy_params zero f i = []
copy_params (suc k) f i = f i ∷ copy_params k f (i + 1)

unfoldable pub copy_deps : (k : ℕ) → Option (ℕ → Dep) → (i : ℕ) → List Dep
copy_deps zero f i = []
copy_deps (suc k) none i = blank ∷ copy_deps k none (i + 1)
copy_deps (suc k) (some f) i = f i ∷ copy_deps k (some f) (i + 1)

-- The EDT as it is filled in before any other thread can see it
unfoldable pub fill : Args → (size guid epoch : ℕ) → Edt
fill a size g epoch =
    let depc = (if a.has_depv then a.depc else 0) in
    record {
      size = size;
      arts_id = a.arts_id;
      func_ptr = a.func_ptr;
      depc = depc;
      current_edt = g;
      output_buffer = a.output_buffer;
      epoch_guid = epoch;
      numa_domain = a.numa_domain;
      depc_needed = a.depc;
      paramv = copy_params a.paramc a.paramv 0;
      depv = copy_deps depc a.initial_depv 0;
    }

-- The end of `arts_edt_create_internal`, up to the firing of the list on the pre-reserved path
unfoldable pub register : (rank_id route : ℕ) → (created_guid : Bool) → Edt → List Effect
register rank route created e =
    if route == rank
    then (if created
        then add_item e ∷ (if e.depc_needed == 0 then handle_ready e ∷ [] else [])
        else add_item_race (record e { depc_needed = u32 (e.depc_needed + 1) }) ∷ fire_oo ∷ [])
    else memory_move route e ∷ []

unfoldable pub active : ℕ → List Effect
active g = if g == 0 then [] else active_epoch g ∷ []

-- The allocation: the address, the recorded size and the pool
unfoldable pub place : Pool → (fresh space : ℕ) → Option ℕ → ℕ × ℕ × Pool
place p fresh space (some address) = (address, space, p)
place p fresh space none =
    let (address, p', out) = obtain p space fresh in (address, alloc_size space, p')

unfoldable pub create_at :
    Worker
    → Args
    → (new_guid : ℕ) → ℕ × ℕ × Pool
    → Option ℕ × Local
    → Option (Edt × List Effect × Worker)
create_at w a new_guid (address, size, p) (none, l) = none
create_at w a new_guid (address, size, p) (some epoch, l) =
    let created = a.guid == 0 in
    let e = fill a size (if created then new_guid else a.guid) epoch in
    if address == 0
    then none
    else some (
      e,
      active epoch ++ (active_shutdown_epoch ∷ register w.rank_id a.route created e),
      record w { pool = p; local = l },
    )

-- `arts_edt_create_internal`
unfoldable pub create_internal :
    Worker → Args → (fresh new_guid : ℕ) → Option (Edt × List Effect × Worker)
create_internal w a fresh new_guid =
    create_at w a new_guid (place w.pool fresh a.edt_space a.edt)
      (choose_epoch a.use_epoch a.epoch_guid w.local)

-- `arts_hint_t`
pub record Hint : Type 0 where
  pub route : ℕ
  pub id : ℕ

unfoldable pub hint_route : (rank_id : ℕ) → Option Hint → ℕ
hint_route rank none = rank
hint_route rank (some h) = if h.route == current_node then rank else h.route

unfoldable pub hint_id : Option Hint → ℕ
hint_id none = 0
hint_id (some h) = h.id

-- The space of an EDT with its arrays, an `unsigned int`
unfoldable pub edt_space_of : Sizes → (paramc depc : ℕ) → (has_depv : Bool) → ℕ
edt_space_of z paramc depc has_depv =
    u32 (z.edt + paramc * 8 + (if has_depv then u32 (depc * z.dep) else 0))

-- The arguments that the creating calls have in common
pub record Task : Type 0 where
  pub func_ptr : ℕ
  pub paramc : ℕ
  pub paramv : ℕ → ℕ
  pub depc : ℕ
  pub has_depv : Bool

unfoldable pub args_of :
    Sizes → Task → (guid route numa_domain epoch_guid arts_id : ℕ) → Option (ℕ → Dep) → Args
args_of z t guid route numa epoch id depv = record {
  edt = none;
  guid = guid;
  route = route;
  numa_domain = numa;
  edt_space = edt_space_of z t.paramc t.depc t.has_depv;
  output_buffer = 0;
  func_ptr = t.func_ptr;
  paramc = t.paramc;
  paramv = t.paramv;
  depc = t.depc;
  use_epoch = true;
  epoch_guid = epoch;
  has_depv = t.has_depv;
  initial_depv = depv;
  arts_id = id;
}

module _ (z : Sizes) (w : Worker) (numa_domain_id fresh new_guid : ℕ) (t : Task) where
  -- `arts_edt_create_with_epoch_dep`
  unfoldable pub create_with_epoch_dep :
      (epoch_guid : ℕ) → Option Hint → Option (Edt × List Effect × Worker)
  create_with_epoch_dep epoch h =
      create_internal w
        (args_of z t 0 (hint_route w.rank_id h) numa_domain_id epoch (hint_id h) none) fresh
        new_guid

  -- `arts_edt_create_dep`
  unfoldable pub create_dep : Option Hint → Option (Edt × List Effect × Worker)
  create_dep h =
      create_internal w (args_of z t 0 (hint_route w.rank_id h) numa_domain_id 0 (hint_id h) none)
        fresh new_guid

  -- `arts_edt_create_with_guid_dep`
  unfoldable pub create_with_guid_dep : (guid : ℕ) → Option (Edt × List Effect × Worker)
  create_with_guid_dep guid =
      create_internal w (args_of z t guid (get_rank guid) numa_domain_id 0 0 none) fresh new_guid

-- `arts_mix_u64`
unfoldable pub mix_u64 : ℕ → ℕ
mix_u64 v =
    let v₁ = bit_xor v (v / 2 ^ 30) in
    let v₂ = u64 (v₁ * 13787848793156543929) in
    let v₃ = bit_xor v₂ (v₂ / 2 ^ 27) in
    let v₄ = u64 (v₃ * 10723151780598845931) in bit_xor v₄ (v₄ / 2 ^ 31)

-- ARTS_DB
abbrev pub db_type : ℕ
db_type = 6

-- The loop over the dependencies: the domain of the first DB, from slot `i` on
unfoldable pub numa_of_deps : (domains k : ℕ) → (ℕ → Dep) → (i : ℕ) → Option ℕ
numa_of_deps domains zero f i = none
numa_of_deps domains (suc k) f i =
    let rest = numa_of_deps domains k f (i + 1) in
    let g = (f i).guid in
    if not (g == 0) && (get_type g == db_type) then some (get_key g % domains) else rest

-- The loop over the parameters
unfoldable pub hash_params : (k : ℕ) → (ℕ → ℕ) → (i hash : ℕ) → ℕ
hash_params zero f i hash = hash
hash_params (suc k) f i hash =
    hash_params k f (i + 1)
      (bit_xor hash (mix_u64 (u64 (f i + 11400714819323198485 + u64 (i * 2 ^ 32)))))

unfoldable pub numa_of_params : (domains own paramc : ℕ) → Option (ℕ → ℕ) → (arts_id : ℕ) → ℕ
numa_of_params domains own paramc none id = own
numa_of_params domains own paramc (some f) id =
    if paramc == 0 then own else hash_params paramc f 0 (mix_u64 id) % domains

unfoldable pub first_numa : (domains depc : ℕ) → Option (ℕ → Dep) → Option ℕ
first_numa domains depc none = none
first_numa domains depc (some f) = numa_of_deps domains depc f 0

unfoldable pub or_numa : Option ℕ → ℕ → ℕ
or_numa none d = d
or_numa (some n) d = n

-- `arts_choose_ready_local_numa`; `own` is the domain of the thread.
unfoldable pub choose_ready_local_numa :
    (domains own paramc : ℕ) → Option (ℕ → ℕ) → (depc : ℕ) → Option (ℕ → Dep) → (arts_id : ℕ) → ℕ
choose_ready_local_numa domains own paramc paramv depc depv id =
    if ltb 1 domains
    then or_numa (first_numa domains depc depv) (numa_of_params domains own paramc paramv id)
    else own
