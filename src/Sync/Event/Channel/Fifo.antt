-- ===== src/Sync/Event/Channel/Fifo.antt =====
-- A channel with a latch count is a FIFO that matches the k-th dependence with the k-th satisfy,
-- whichever of the two comes first.
use arts.Prelude.{ℕ, ◌-◌, ◌^◌, ◌≡◌, ◌≢◌, Option, none, some, List, [], ◌∷◌, ◌++◌}
use arts.Gas.Guid.{null_guid}
use arts.Sync.Event.{decr, Dependent, Effect}
use arts.Sync.Event.Channel.{Version, Channel, deliver, satisfy_slot, add_dependence}

-- What a client sees: waiters without data, or data without waiters, oldest first.
pub data Queue : Type 0 where
  idle : Queue
  waiters : Dependent → List Dependent → Queue
  values : ℕ → List ℕ → Queue

pub data Op : Type 0 where
  add : Dependent → Op
  set : (data_guid : ℕ) → Op

unfoldable pub spec : Queue → Op → Queue × List Effect
spec idle (add x) = (waiters x [], [])
spec (waiters y ys) (add x) = (waiters y (ys ++ (x ∷ [])), [])
spec (values d []) (add x) = (idle, deliver d x)
spec (values d (e ∷ es)) (add x) = (values e es, deliver d x)
spec idle (set d) = (values d [], [])
spec (waiters y []) (set d) = (idle, deliver d y)
spec (waiters y (z ∷ zs)) (set d) = (waiters z zs, deliver d y)
spec (values e es) (set d) = (values e (es ++ (d ∷ [])), [])

-- The versions of a channel that stand for such a queue.
abbrev pub Waits : List Dependent → List Version → Type 0
Waits [] [] = Unit
Waits (x ∷ xs) (v ∷ vs) = (v.latch_count ≡ 1) × (v.dependents ≡ x ∷ []) × Waits xs vs
Waits _ _ = ⊥

abbrev pub Holds : List ℕ → List Version → Type 0
Holds [] [] = Unit
Holds (d ∷ ds) (v ∷ vs) =
    (v.latch_count ≡ 2 ^ 32 - 1) × (v.data_guid ≡ d) × (v.dependents ≡ []) × Holds ds vs
Holds _ _ = ⊥

abbrev pub Idle : List Version → Type 0
Idle [] = Unit
Idle (v ∷ []) = (v.latch_count ≡ 0) × (v.dependents ≡ [])
Idle _ = ⊥

abbrev pub Shows : Queue → List Version → Type 0
Shows idle vs = Idle vs
Shows (waiters x xs) vs = Waits (x ∷ xs) vs
Shows (values d ds) vs = Holds (d ∷ ds) vs

unfoldable pub step : Channel → Op → Option (Channel × List Effect)
step c (add x) = some (add_dependence c x)
step c (set d) = satisfy_slot c d decr

abbrev pub IsOp : Op → Type 0
IsOp (add x) = Unit
IsOp (set d) = d ≢ null_guid

abbrev channel : ℕ → ℕ → List Version → Channel
channel n d vs = record { latch_count = n; data_guid = d; versions = vs }

-- The call on the channel does what the call on the queue does.
record Simulates (q : Queue) (n e : ℕ) (vs : List Version) (op : Op) : Type 0 where
  after : List Version
  stepped : step (channel n e vs) op ≡ some (channel n e after, (spec q op).1)
  shows : Shows (spec q op).0 after

unfoldable pub run_spec : Queue → List Op → List Effect
run_spec q [] = []
run_spec q (op ∷ ops) = (spec q op).1 ++ run_spec (spec q op).0 ops

unfoldable pub run : Channel → List Op → Option (List Effect)
run c [] = some []
run c (op ∷ ops) = elim (step c op) [
  | none ↦ none
  | some (c', out) ↦ elim (run c' ops) [ none ↦ none | some out' ↦ some (out ++ out') ]
]

abbrev pub AreOps : List Op → Type 0
AreOps [] = Unit
AreOps (op ∷ ops) = IsOp op × AreOps ops
