-- ===== src/Compute/Buffer/Uses.antt =====
-- A buffer over the calls that use it.
use arts.Prelude.{
  ℕ, zero, suc, ◌+◌, ◌-◌, ◌^◌, ◌≤◌, ◌<◌, ◌≡◌, ◌≢◌, arith, true, false, ◌==◌, eq→==, ltb,
  if◌then◌else◌, Bool-cases, inl, inr, Option, none, some, some-injective, List, [], ◌∷◌, ◌++◌,
  length, take, tally, tally-append, sub_u32, refl, sym, ap, ◌∙◌,
}
use arts.Gas.Guid.{get_rank}
use arts.Compute.Buffer.{
  allocate_local_buffer, Stub, Effect, queue_epoch, queue_shutdown_epoch, finished_epoch,
  finished_shutdown_epoch, malloc, write_size, copy, remove_item, free_stub, of_epoch, grow, use_up,
  note_size, copy_in, set_found, set_local, set_buffer, get_local, get_buffer, block_local,
  block_for_buffer,
}

-- A call on the buffer
pub data Call : Type 0 where
  sets : (source size fresh : ℕ) → Call
  gets : Call

unfoldable pub effects : ℕ × Option Stub × List Effect → Option Stub × List Effect
effects (p, s, out) = (s, out)

module _ (rank guid : ℕ) where
  unfoldable pub step : Option Stub → Call → Option Stub × List Effect
  step s (sets source size fresh) = effects (set_buffer rank guid s source size fresh)
  step s gets = effects (get_buffer rank guid s)

  unfoldable pub run : Option Stub → List Call → Option Stub × List Effect
  run s [] = (s, [])
  run s (c ∷ cs) = let (s', out) = step s c in let (s'', more) = run s' cs in (s'', out ++ more)

-- How often an effect removes the buffer, frees its memory, queues a use at its epoch, ends one there
abbrev pub removes : Effect → ℕ
removes remove_item = 1
removes _ = 0

abbrev pub frees : Effect → ℕ
frees free_stub = 1
frees _ = 0

abbrev pub queues : Effect → ℕ
queues (queue_epoch g) = 1
queues _ = 0

abbrev pub ends : Effect → ℕ
ends (finished_epoch g) = 1
ends _ = 0

abbrev pub is_set : Call → ℕ
is_set (sets source size fresh) = 1
is_set gets = 0

-- What a call does to a buffer with uses left, in counts
record Used (n k : ℕ) (left : Option Stub) (out : List Effect) (g : ℕ) : Type 0 where
  stub :
      (n ≡ 1 → left ≡ none)
      × (n ≢ 1 → (s : Stub) × (left ≡ some s) × (s.uses ≡ n - 1) × (s.epoch_guid ≡ g))
  removed : tally removes out ≡ (if n == 1 then 1 else 0)
  freed : tally frees out ≡ (if n == 1 then 1 else 0)
  queued : tally queues out ≡ k
  ended : tally ends out ≡ k

use_up_lem :
    (s : Stub) (n g : ℕ)
    → s.uses ≡ n
    → 0 < n
    → n < 2 ^ 32
    → s.epoch_guid ≡ g
    → Used n 0 (use_up s).0 (use_up s).1 g
unfolding use_up
use_up_lem s n g e pos small same = elim (Bool-cases (n == 1)) [
  | inl last ↦
      let none_left : (sub_u32 s.uses 1 == 0) ≡ true = ground (arith, e, last) in
      rw none_left record {
        stub = ((λ h. refl), (λ h. absurd (ground (arith, last, h))));
        removed = rw last refl;
        freed = rw last refl;
        queued = refl;
        ended = refl;
      }
  | inr more ↦
      let some_left : (sub_u32 s.uses 1 == 0) ≡ false = ground (arith, e, more, pos, small) in
      rw some_left record {
        stub = (
          (λ h. absurd (ground (arith, more, h))),
          (λ h. (record s { uses = sub_u32 s.uses 1 }, refl, omega (arith, e, pos, small), same)),
        );
        removed = rw more refl;
        freed = rw more refl;
        queued = refl;
        ended = refl;
      }
]

tally-of_epoch :
    (w : Effect → ℕ) (f : ℕ → Effect) (g : ℕ) → g ≢ 0 → tally w (of_epoch f g) ≡ w (f g)
unfolding of_epoch
tally-of_epoch w f g real = ground (arith, real)

-- The effects of a set but those of its last use
module _ (w : Effect → ℕ) where
  tally-grow :
      (s : Stub) (size fresh : ℕ) → ((x : ℕ) → w (malloc x) ≡ 0) → tally w (grow s size fresh).1 ≡ 0
  unfolding grow
  tally-grow s size fresh h = ground (arith, h size)

  tally-note_size :
      (s : Stub) (size : ℕ) → ((x y : ℕ) → w (write_size x y) ≡ 0) → tally w (note_size s size) ≡ 0
  unfolding note_size
  tally-note_size s size h = ground (arith, h s.size_to_write size)

  tally-copy_in :
      (s : Stub) (source : ℕ) → ((x y z : ℕ) → w (copy x y z) ≡ 0) → tally w (copy_in s source) ≡ 0
  unfolding copy_in
  tally-copy_in s source h = ground (arith, h s.buffer source s.size)

  tally-set :
      (s : Stub) (source size fresh : ℕ)
      → s.epoch_guid ≢ 0
      → ((x : ℕ) → w (malloc x) ≡ 0)
      → ((x y : ℕ) → w (write_size x y) ≡ 0)
      → ((x y z : ℕ) → w (copy x y z) ≡ 0)
      → w queue_shutdown_epoch ≡ 0
      → w finished_shutdown_epoch ≡ 0
      → (let (p, left, out) = set_found s source size fresh in
          tally w out
          ≡ w (queue_epoch s.epoch_guid)
            + tally w (use_up (grow s size fresh).0).1
            + w (finished_epoch s.epoch_guid))
  unfolding set_found
  tally-set s source size fresh real no_malloc no_write no_copy h h' =
      let s' = (grow s size fresh).0 in
      let ending = of_epoch finished_epoch s.epoch_guid ++ (finished_shutdown_epoch ∷ []) in
      let used = (use_up s').1 ++ ending in
      let copied = copy_in s' source ++ used in
      let noted = note_size s' size ++ copied in
      let grown = (grow s size fresh).1 ++ noted in
      omega (
        arith,
        tally-append w (of_epoch queue_epoch s.epoch_guid) (queue_shutdown_epoch ∷ grown),
        tally-append w (grow s size fresh).1 noted,
        tally-append w (note_size s' size) copied,
        tally-append w (copy_in s' source) used,
        tally-append w (use_up s').1 ending,
        tally-append w (of_epoch finished_epoch s.epoch_guid) (finished_shutdown_epoch ∷ []),
        tally-grow s size fresh no_malloc,
        tally-note_size s' size no_write,
        tally-copy_in s' source no_copy,
        tally-of_epoch w queue_epoch s.epoch_guid real,
        tally-of_epoch w finished_epoch s.epoch_guid real,
        h,
        h',
      )

grow_keeps :
    (s : Stub) (size fresh : ℕ)
    → ((grow s size fresh).0.uses ≡ s.uses) × ((grow s size fresh).0.epoch_guid ≡ s.epoch_guid)
unfolding grow
grow_keeps s size fresh = (ground arith, ground arith)

set_found_lem :
    (s : Stub) (source size fresh n g : ℕ)
    → s.uses ≡ n
    → 0 < n
    → n < 2 ^ 32
    → s.epoch_guid ≡ g
    → g ≢ 0
    → (let (p, left, out) = set_found s source size fresh in Used n 1 left out g)
unfolding set_found
set_found_lem s source size fresh n g e pos small same real =
    let s' = (grow s size fresh).0 in
    let (uses, epoch) = grow_keeps s size fresh in
    let u = use_up_lem s' n g (uses ∙ e) pos small (epoch ∙ same) in
    let real' : s.epoch_guid ≢ 0 = λ z. real (sym same ∙ z) in
    record {
      stub = u.stub;
      removed = omega (
        arith,
        tally-set removes s source size fresh real' (λ x. refl) (λ x y. refl) (λ x y z. refl) refl
            refl,
        u.removed,
      );
      freed = omega (
        arith,
        tally-set frees s source size fresh real' (λ x. refl) (λ x y. refl) (λ x y z. refl) refl
            refl,
        u.freed,
      );
      queued = omega (
        arith,
        tally-set queues s source size fresh real' (λ x. refl) (λ x y. refl) (λ x y z. refl) refl
            refl,
        u.queued,
      );
      ended = omega (
        arith,
        tally-set ends s source size fresh real' (λ x. refl) (λ x y. refl) (λ x y z. refl) refl
            refl,
        u.ended,
      );
    }

module _ (rank guid : ℕ) (own : get_rank guid ≡ rank) where
  step_lem :
      (c : Call) (s : Stub) (n g : ℕ)
      → s.uses ≡ n
      → 0 < n
      → n < 2 ^ 32
      → s.epoch_guid ≡ g
      → g ≢ 0
      → (let (left, out) = step rank guid (some s) c in Used n (is_set c) left out g)
  unfolding step set_buffer set_local get_buffer get_local effects
  step_lem (sets source size fresh) s n g e pos small same real =
      rw (eq→== (get_rank guid) rank own)
        (set_found_lem s source size fresh n g e pos small same real)
  step_lem gets s n g e pos small same real =
      rw (eq→== (get_rank guid) rank own) (use_up_lem s n g e pos small same)

  -- A buffer that is gone stays gone.
  run-none : (cs : List Call) → run rank guid none cs ≡ (none, [])
  unfolding run step set_buffer set_local get_buffer get_local effects
  run-none [] = refl
  run-none (sets source size fresh ∷ cs) =
      rw (eq→== (get_rank guid) rank own) (rw (run-none cs) refl)
  run-none (gets ∷ cs) = rw (eq→== (get_rank guid) rank own) (rw (run-none cs) refl)

  no_sets : (n : ℕ) → tally is_set (take n []) ≡ 0
  no_sets zero = refl
  no_sets (suc n) = refl

  -- The buffer and the effects after some calls
  record Over (n g : ℕ) (cs : List Call) (left : Option Stub) (out : List Effect) : Type 0 where
    gone : (n ≤ length cs) → left ≡ none
    here :
        length cs < n → (s : Stub) × (left ≡ some s) × (s.uses ≡ n - length cs) × (s.epoch_guid ≡ g)
    removed : tally removes out ≡ (if ltb (length cs) n then 0 else 1)
    freed : tally frees out ≡ (if ltb (length cs) n then 0 else 1)
    queued : tally queues out ≡ tally is_set (take n cs)
    ended : tally ends out ≡ tally is_set (take n cs)

  run-Over :
      (cs : List Call) (s : Stub) (n g : ℕ)
      → s.uses ≡ n
      → 0 < n
      → n < 2 ^ 32
      → s.epoch_guid ≡ g
      → g ≢ 0
      → (let (left, out) = run rank guid (some s) cs in Over n g cs left out)
  unfolding run
  run-Over [] s n g e pos small same real = record {
    gone = λ h. absurd (omega (arith, pos, h));
    here = λ h. (s, refl, omega (arith, e), same);
    removed = ground (arith, pos);
    freed = ground (arith, pos);
    queued = sym (no_sets n);
    ended = sym (no_sets n);
  }
  run-Over (c ∷ cs) s zero g e pos small same real = absurd (omega (arith, pos))
  run-Over (c ∷ cs) s (suc zero) g e pos small same real =
      let u = step_lem c s 1 g e pos small same real in
      let out = (step rank guid (some s) c).1 in
      let left : (step rank guid (some s) c).0 ≡ none = u.stub.0 refl in
      rw (left, run-none cs)
        record {
          gone = λ h. refl;
          here = λ h. absurd (omega (arith, h));
          removed = ground (arith, tally-append removes out [], u.removed);
          freed = ground (arith, tally-append frees out [], u.freed);
          queued = omega (arith, tally-append queues out [], u.queued);
          ended = omega (arith, tally-append ends out [], u.ended);
        }
  run-Over (c ∷ cs) s (suc (suc m)) g e pos small same real =
      let u = step_lem c s (suc (suc m)) g e pos small same real in
      let out = (step rank guid (some s) c).1 in
      let (s', left, uses, epoch) = u.stub.1 (λ h. absurd (omega (arith, h))) in
      let o =
        run-Over cs s' (suc m) g (omega (arith, uses)) (omega arith) (omega (arith, small)) epoch
          real in
      let more = (run rank guid (some s') cs).1 in
      rw left record {
        gone = λ h. o.gone (omega (arith, h));
        here = λ h.
            (let (x, at, us, ep) = o.here (omega (arith, h)) in (x, at, omega (arith, us), ep));
        removed = ground (arith, tally-append removes out more, u.removed, o.removed);
        freed = ground (arith, tally-append frees out more, u.freed, o.freed);
        queued = omega (arith, tally-append queues out more, u.queued, o.queued);
        ended = omega (arith, tally-append ends out more, u.ended, o.ended);
      }

-- A thread that blocks for a buffer
module _ (rank guid : ℕ) (own : get_rank guid ≡ rank) (s : Stub) where
  block_waits : 1 < s.uses → block_for_buffer rank guid (some s) ≡ none
  unfolding block_for_buffer block_local
  block_waits h =
      let more : ltb 1 s.uses ≡ true = ground (arith, h) in
      rw (eq→== (get_rank guid) rank own, more) refl

  block_ends :
      s.uses ≡ 1
      → block_for_buffer rank guid (some s) ≡ some (s.buffer, none, remove_item ∷ free_stub ∷ [])
  unfolding block_for_buffer block_local use_up
  block_ends h =
      let last : ltb 1 s.uses ≡ false = ground (arith, h) in
      let no_more : (sub_u32 s.uses 1 == 0) ≡ true = ground (arith, h) in
      rw (eq→== (get_rank guid) rank own, last, no_more) refl

-- A local buffer that is allocated with an epoch and `n` uses, and then set and read in any order: no
-- call before the `n`-th removes it and the `n`-th does, once, and frees its memory; every set that
-- finds it is queued at the epoch once and ends there once. A thread that blocks for the buffer waits
-- while more than one use is left, and gets the last use when one is.
pub run_uses :
    (rank guid size fresh n g given : ℕ) (cs : List Call) (s : Stub) (out : List Effect)
    → get_rank guid ≡ rank
    → 0 < n
    → n < 2 ^ 32
    → g ≢ 0
    → allocate_local_buffer (some given) size n g fresh ≡ some (s, out)
    → (let (left, more) = run rank guid (some s) cs in
        (tally removes more ≡ (if ltb (length cs) n then 0 else 1))
        × (tally frees more ≡ (if ltb (length cs) n then 0 else 1))
        × (tally queues more ≡ tally is_set (take n cs))
        × (tally ends more ≡ tally is_set (take n cs))
        × (n ≤ length cs → left ≡ none)
        × (length cs + 1 < n → block_for_buffer rank guid left ≡ none)
        × (length cs + 1 ≡ n
            → (p : ℕ) × (block_for_buffer rank guid left
                ≡ some (p, none, remove_item ∷ free_stub ∷ []))))
unfolding allocate_local_buffer
run_uses rank guid size fresh n g given cs s out own pos small real made =
    let uses : n ≡ s.uses = ap (λ (x : Stub × List Effect). x.0.uses) (some-injective _ _ made) in
    let epoch : g ≡ s.epoch_guid =
      ap (λ (x : Stub × List Effect). x.0.epoch_guid) (some-injective _ _ made) in
    let o = run-Over rank guid own cs s n g (sym uses) pos small (sym epoch) real in
    (
      o.removed,
      o.freed,
      o.queued,
      o.ended,
      o.gone,
      (λ h.
          let (x, at, us, ep) = o.here (omega (arith, h)) in
          rw at (block_waits rank guid own x (omega (arith, us, h)))),
      (λ h.
          let (x, at, us, ep) = o.here (omega (arith, h)) in
          (x.buffer, rw at (block_ends rank guid own x (omega (arith, us, h))))),
    )
