-- ===== src/Compute/Edt/Arrive.antt =====
-- The messages for an EDT whose GUID was reserved before the EDT exists: libs/src/core/compute/edt.c
-- (`internal_signal_edt_ex`, `arts_set_dep_metadata_ext` and the pre-reserved path of
-- `arts_edt_create_internal`) with libs/src/core/gas/out_of_order.c. The steps of the threads
-- interleave: the lookup of a message that misses and its queueing are two steps, and so are the entry
-- of the EDT, the firing of the queue, the replay of each of its messages, and the end of the creation.
pub mod Once
pub mod Finish
pub mod Slots
pub mod Settle
pub mod Slot
pub mod Data
mod Tests
use arts.Prelude.{
  ℕ, zero, suc, ◌+◌, Bool, true, false, ◌&&◌, ◌||◌, not, ◌==◌, if◌then◌else◌, Option, none, some,
  List, [], ◌∷◌, ◌++◌, get_elem?, remove, sub_u32, u32,
}
use arts.Compute.Edt.{Edt, Signal, Metadata, signal, set_dep_metadata, is_ptr}

-- `oo_signal_edt_s` and `oo_signal_edt_ptr_s`, and `oo_set_dep_metadata_s`
pub data Message : Type 0 where
  sig : Signal → Message
  meta : Metadata → Message

-- Where the creation stands: before, after the entry, replaying, done
pub data Stage : Type 0 where
  before entered replaying done : Stage

-- The EDT's entry in the route table with its list of held-back messages. `missed` are the messages
-- whose lookup has found no EDT, `taken` those that the creator has still to replay; `ready` counts the
-- calls of `arts_handle_ready_edt`.
pub record Node : Type 0 where
  pub entry : Option Edt
  pub missed : List Message
  pub queue : List Message
  pub is_fired : Bool
  pub taken : List Message
  pub stage : Stage
  pub ready : ℕ

-- `arts_out_of_order_signal_edt` and `arts_out_of_order_signal_edt_with_ptr`: what is kept of a signal.
unfoldable pub defer : Message → Message
defer (sig s) =
    if is_ptr s.mode then sig (record s { flags = 0 }) else sig (record s { ptr = 0; size = 0 })
defer (meta m) = meta m

unfoldable pub count_ready : Node → Bool × Edt → Node
count_ready n (now, e) = record n { entry = some e; ready = n.ready + (if now then 1 else 0) }

-- The message meets the EDT.
unfoldable pub apply : Node → Edt → Message → Node
apply n e (sig s) = count_ready n (signal e s)
apply n e (meta m) = record n { entry = some (set_dep_metadata e m) }

-- The lookup of a message: the EDT gets it, or it has missed.
unfoldable pub deliver : Node → Option Edt → Message → Node
deliver n none m = record n { missed = m ∷ n.missed }
deliver n (some e) m = apply n e m

unfoldable pub absent : Option Edt → Bool
absent none = true
absent (some e) = false

-- `arts_route_table_add_oo` after a miss: the list takes the message if the entry is still reserved, or
-- was when the thread looked at it (`late`), and the list has not been fired; else the message is
-- delivered again.
unfoldable pub enqueue : Node → (late : Bool) → Option Message → Node
enqueue n late none = n
enqueue n late (some m) =
    if not n.is_fired && (absent n.entry || late)
    then record n { queue = n.queue ++ (defer m ∷ []) }
    else deliver n n.entry (defer m)

-- `arts_route_table_add_item_race` with the sentinel set
unfoldable pub enter : Edt → (depc : ℕ) → Node → Stage → Node
enter e depc n before = record n {
  entry = some (record e { depc_needed = u32 (depc + 1) });
  stage = entered;
}
enter e depc n _ = n

-- `arts_route_table_fire_oo` takes the list if it gets its lock (`locked`); after 1000 attempts it gives
-- up, and the list stays as it is.
unfoldable pub fire : Node → (locked : Bool) → Stage → Node
fire n true entered = record n { is_fired = true; taken = n.queue; queue = []; stage = replaying }
fire n false entered = record n { stage = replaying }
fire n _ _ = n

-- `arts_out_of_order_handler` on the next message
unfoldable pub replay : Node → Stage → List Message → Node
replay n replaying (m ∷ ms) = deliver (record n { taken = ms }) n.entry m
replay n _ _ = n

-- The sentinel is taken away.
unfoldable pub unseal : Node → Stage → List Message → Option Edt → Node
unseal n replaying [] (some e) =
    let left = sub_u32 e.depc_needed 1 in
    record n {
      entry = some (record e { depc_needed = left });
      stage = done;
      ready = n.ready + (if left == 0 then 1 else 0);
    }
unseal n _ _ _ = n

-- A step of a thread: a message arrives, the `k`-th missed message is queued, or the creator goes on.
pub data Event : Type 0 where
  message : Message → Event
  queued : (k : ℕ) (late : Bool) → Event
  enters : Event
  fires : (locked : Bool) → Event
  replays unseals : Event

-- The steps for the EDT `e`, created with `depc` dependencies
module _ (e : Edt) (depc : ℕ) where
  unfoldable pub step : Node → Event → Node
  step n (message m) = deliver n n.entry m
  step n (queued k late) =
      enqueue (record n { missed = remove n.missed k }) late (get_elem? n.missed k)
  step n enters = enter e depc n n.stage
  step n (fires locked) = fire n locked n.stage
  step n replays = replay n n.stage n.taken
  step n unseals = unseal n n.stage n.taken n.entry

  unfoldable pub run : Node → List Event → Node
  run n [] = n
  run n (x ∷ xs) = run (step n x) xs

-- The entry as it is reserved
abbrev pub reserved : Node
reserved = record {
  entry = none;
  missed = [];
  queue = [];
  is_fired = false;
  taken = [];
  stage = before;
  ready = 0;
}
