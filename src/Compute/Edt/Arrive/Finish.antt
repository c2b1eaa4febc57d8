-- ===== src/Compute/Edt/Arrive/Finish.antt =====
-- An EDT with a reserved GUID does become ready: the steps of the threads come to an end.
use arts.Prelude.{
  ℕ, zero, suc, ◌+◌, ◌*◌, ◌^◌, ◌≤◌, ◌<◌, ◌≡◌, ◌⊎◌, inl, inr, arith, Bool, true, false, not, ◌&&◌,
  ◌||◌, Bool-cases, Option, none, some, List, [], ◌∷◌, get_elem?, remove, tally, length, refl, ap,
  ◌∙◌, sym,
}
use mathlib.Core.Path.{subst}
use arts.Compute.Edt.{Edt}
use arts.Compute.Edt.Arrive.{
  Message, sig, meta, Stage, before, entered, replaying, done, Node, defer, count_ready, apply,
  deliver, absent, enqueue, enter, fire, replay, unseal, Event, message, queued, enters, fires,
  replays, unseals, step, run, reserved,
}
use arts.Compute.Edt.Arrive.Once.{
  weight, issued, waiting, seal, needed, Shape, Shape-done, Shape-entered, Shape-replaying, Counts,
  step-Counts, run-Counts, reserved-Counts, recount, issued-cons,
}

abbrev after_firing : Stage → Bool
after_firing before = false
after_firing entered = false
after_firing replaying = true
after_firing done = true

-- The list is fired in the third stage, and empty from then on.
record Tidy (n : Node) : Type 0 where
  fired : n.is_fired ≡ after_firing n.stage
  empty : n.is_fired ≡ true → n.queue ≡ []

deliver-Tidy : (n : Node) (o : Option Edt) (m : Message) → Tidy n → Tidy (deliver n o m)
unfolding deliver apply count_ready
deliver-Tidy n none m t = record { fired = t.fired; empty = t.empty }
deliver-Tidy n (some e) (sig s) t = record { fired = t.fired; empty = t.empty }
deliver-Tidy n (some e) (meta s) t = record { fired = t.fired; empty = t.empty }

enqueue-Tidy : (n : Node) (late : Bool) (o : Option Message) → Tidy n → Tidy (enqueue n late o)
unfolding enqueue
enqueue-Tidy n late none t = t
enqueue-Tidy n late (some m) t = elim (Bool-cases (not n.is_fired && (absent n.entry || late))) [
  | inl taken_in ↦
      let unfired : n.is_fired ≡ false = ground (arith, taken_in) in
      rw taken_in (record { fired = t.fired; empty = λ h. cc })
  | inr refused ↦ rw refused (deliver-Tidy n n.entry (defer m) t)
]

enter-Tidy :
    (e : Edt) (depc : ℕ) (n : Node) (st : Stage) → n.stage ≡ st → Tidy n → Tidy (enter e depc n st)
unfolding enter
enter-Tidy e depc n before p t = record { fired = t.fired ∙ ap after_firing p; empty = t.empty }
enter-Tidy e depc n entered p t = t
enter-Tidy e depc n replaying p t = t
enter-Tidy e depc n done p t = t

fire-Tidy : (n : Node) (st : Stage) → Tidy n → Tidy (fire n true st)
unfolding fire
fire-Tidy n entered t = record { fired = refl; empty = λ h. refl }
fire-Tidy n before t = t
fire-Tidy n replaying t = t
fire-Tidy n done t = t

replay-Tidy : (n : Node) (st : Stage) (ms : List Message) → Tidy n → Tidy (replay n st ms)
unfolding replay
replay-Tidy n replaying (m ∷ ms) t =
    deliver-Tidy (record n { taken = ms }) n.entry m (record { fired = t.fired; empty = t.empty })
replay-Tidy n replaying [] t = t
replay-Tidy n before ms t = t
replay-Tidy n entered ms t = t
replay-Tidy n done ms t = t

unseal-Tidy :
    (n : Node) (st : Stage) (ms : List Message) (o : Option Edt)
    → n.stage ≡ st
    → Tidy n
    → Tidy (unseal n st ms o)
unfolding unseal
unseal-Tidy n replaying [] (some e) p t = record {
  fired = t.fired ∙ ap after_firing p;
  empty = t.empty;
}
unseal-Tidy n replaying [] none p t = t
unseal-Tidy n replaying (m ∷ ms) o p t = t
unseal-Tidy n before ms o p t = t
unseal-Tidy n entered ms o p t = t
unseal-Tidy n done ms o p t = t

-- A firing, if the step is one, gets the lock of the list.
abbrev pub Locks : Event → Type 0
Locks (fires locked) = locked ≡ true
Locks _ = Unit

abbrev pub AllLock : List Event → Type 0
AllLock [] = Unit
AllLock (x ∷ xs) = Locks x × AllLock xs

step-Tidy : (e : Edt) (depc : ℕ) (n : Node) (x : Event) → Locks x → Tidy n → Tidy (step e depc n x)
unfolding step
step-Tidy e depc n (message m) h t = deliver-Tidy n n.entry m t
step-Tidy e depc n (queued k late) h t =
    enqueue-Tidy (record n { missed = remove n.missed k }) late (get_elem? n.missed k)
      (record { fired = t.fired; empty = t.empty })
step-Tidy e depc n enters h t = enter-Tidy e depc n n.stage refl t
step-Tidy e depc n (fires locked) h t =
    subst (λ b. Tidy (fire n b n.stage)) (sym h) (fire-Tidy n n.stage t)
step-Tidy e depc n replays h t = replay-Tidy n n.stage n.taken t
step-Tidy e depc n unseals h t = unseal-Tidy n n.stage n.taken n.entry refl t

run-Tidy :
    (e : Edt) (depc : ℕ) (n : Node) (xs : List Event) → AllLock xs → Tidy n → Tidy (run e depc n xs)
unfolding run
run-Tidy e depc n [] h t = t
run-Tidy e depc n (x ∷ xs) (h, hs) t =
    run-Tidy e depc (step e depc n x) xs hs (step-Tidy e depc n x h t)

-- The steps that are left at most.
abbrev stage_left : Stage → ℕ
stage_left before = 3
stage_left entered = 2
stage_left replaying = 1
stage_left done = 0

abbrev pub steps_left : Node → ℕ
steps_left n = stage_left n.stage + 2 * length n.missed + length n.queue + length n.taken

steps_left-deliver :
    (n : Node) (o : Option Edt) (e : Edt) (m : Message)
    → o ≡ some e
    → steps_left (deliver n o m) ≡ steps_left n
unfolding deliver apply count_ready
steps_left-deliver n none e m p = cc
steps_left-deliver n (some x) e (sig s) p = refl
steps_left-deliver n (some x) e (meta s) p = refl

-- Something is left to do, and doing it leaves less; or all is done.
abbrev Progress : (e : Edt) (depc : ℕ) → Node → Type 0
Progress e depc n =
    ((n.stage ≡ done) × (waiting n ≡ 0))
    ⊎ ((x : Event) × (issued (x ∷ []) ≡ 0)
        × Locks x
        × (steps_left (step e depc n x) < steps_left n))

enqueue-fired :
    (n : Node) (late : Bool) (m : Message)
    → n.is_fired ≡ true
    → enqueue n late (some m) ≡ deliver n n.entry (defer m)
unfolding enqueue
enqueue-fired n late m fired = simp fired

progress :
    (e : Edt) (depc : ℕ) (n : Node) (st : Stage) (ms ts : List Message)
    → n.stage ≡ st
    → n.taken ≡ ts
    → n.missed ≡ ms
    → Shape st n.entry n.taken
    → Tidy n
    → Progress e depc n
unfolding step enter fire replay unseal
progress e depc n before ms ts p q r shape t = inr (
  enters,
  refl,
  tt,
  (let h = ap (λ st. steps_left (enter e depc n st)) p in omega (arith, h, ap stage_left p)),
)
progress e depc n entered ms ts p q r shape t =
    let none_taken = ap length (Shape-entered n.entry n.taken shape).1 in
    let h = ap (λ st. steps_left (fire n true st)) p in
    inr (fires true, refl, refl, omega (arith, h, ap stage_left p, none_taken))
progress e depc n replaying ms [] p q r shape t =
    let (x, there) = Shape-replaying n.entry n.taken shape in
    let h₁ = ap (λ st. steps_left (unseal n st n.taken n.entry)) p in
    let h₂ = ap (λ ts. steps_left (unseal n replaying ts n.entry)) q in
    let h₃ = ap (λ o. steps_left (unseal n replaying [] o)) there in
    inr (unseals, refl, tt, omega (arith, h₁, h₂, h₃, ap stage_left p))
progress e depc n replaying ms (m ∷ ts) p q r shape t =
    let (x, there) = Shape-replaying n.entry n.taken shape in
    let h₁ = ap (λ st. steps_left (replay n st n.taken)) p in
    let h₂ = ap (λ ts. steps_left (replay n replaying ts)) q in
    let h₃ = steps_left-deliver (record n { taken = ts }) n.entry x m there in
    inr (replays, refl, tt, omega (arith, h₁, h₂, h₃, ap stage_left p, ap length q))
progress e depc n done [] ts p q r shape t =
    let fired : n.is_fired ≡ true = t.fired ∙ ap after_firing p in
    let none_taken = ap (tally weight) (Shape-done n.entry n.taken shape).1 in
    inl (p, omega (arith, ap (tally weight) r, ap (tally weight) (t.empty fired), none_taken))
progress e depc n done (m ∷ ms) ts p q r shape t =
    let fired : n.is_fired ≡ true = t.fired ∙ ap after_firing p in
    let (x, there) = (Shape-done n.entry n.taken shape).0 in
    let n' : Node = record n { missed = ms } in
    let h₁ =
      ap (λ l. steps_left (enqueue (record n { missed = remove l 0 }) false (get_elem? l 0))) r in
    let h₂ = ap steps_left (enqueue-fired n' false m fired) in
    let h₃ = steps_left-deliver n' n.entry x (defer m) there in
    inr (queued 0 false, refl, tt, omega (arith, h₁, h₂, h₃, ap length r))

abbrev Finishes : (e : Edt) (depc : ℕ) → Node → Type 0
Finishes e depc n =
    (ys : List Event) × (issued ys ≡ 0)
    × AllLock ys
    × (length ys ≤ steps_left n)
    × ((run e depc n ys).stage ≡ done)
    × (waiting (run e depc n ys) ≡ 0)

module _ (e : Edt) (depc : ℕ) (small : depc + 1 < 2 ^ 32) where
  look : (n : Node) → Counts depc small depc 0 n → Tidy n → Progress e depc n
  look n c t = progress e depc n n.stage n.missed n.taken refl refl refl c.shape t

  finishes :
      (fuel : ℕ) (n : Node)
      → steps_left n ≤ fuel
      → Counts depc small depc 0 n
      → Tidy n
      → Progress e depc n
      → Finishes e depc n
  unfolding run
  finishes k n le c t (inl (finished, none_waiting)) =
      ([], refl, tt, omega arith, finished, none_waiting)
  finishes zero n le c t (inr (x, free, locks, less)) = absurd (omega (arith, le, less))
  finishes (suc k) n le c t (inr (x, free, locks, less)) =
      let n' = step e depc n x in
      let c' = step-Counts depc small e depc depc n x (omega (arith, free)) (omega arith) c in
      let t' = step-Tidy e depc n x locks t in
      let (ys, free', locks', few, finished, none_waiting) =
        finishes k n' (omega (arith, le, less)) c' t' (look n' c' t') in
      (
        x ∷ ys,
        omega (arith, issued-cons depc small x ys, free, free'),
        (locks, locks'),
        omega (arith, less, few),
        finished,
        none_waiting,
      )

reserved-Tidy : Tidy reserved
reserved-Tidy = record { fired = refl; empty = λ h. refl }

-- An EDT with a reserved GUID and `depc` dependencies, all of whose `depc` signals have been issued,
-- wherever the threads stand, as long as its creator has not given up the firing of the held-back
-- messages for want of their lock: further steps, without a new signal, with a firing that gets the
-- lock, and at most `steps_left` of them, make it ready.
pub run_becomes_ready :
    (e : Edt) (depc : ℕ) (xs : List Event)
    → depc + 1 < 2 ^ 32
    → issued xs ≡ depc
    → AllLock xs
    → (let n = run e depc reserved xs in
        (ys : List Event) × (issued ys ≡ 0)
        × AllLock ys
        × (length ys ≤ steps_left n)
        × ((run e depc n ys).ready ≡ 1))
run_becomes_ready e depc xs small all locked =
    let n = run e depc reserved xs in
    let c₀ =
      run-Counts depc small e 0 reserved xs (omega (arith, all)) (reserved-Counts depc small) in
    let c = recount depc small (issued xs + 0) depc 0 n (omega (arith, all)) c₀ in
    let t = run-Tidy e depc reserved xs locked reserved-Tidy in
    let (ys, free, locks, few, finished, none_waiting) =
      finishes e depc small (steps_left n) n (omega arith) c t (look e depc small n c t) in
    let c' = run-Counts depc small e depc n ys (omega (arith, free)) c in
    let sealed = ap seal finished in
    let zero_needed : needed depc (run e depc n ys).entry ≡ 0 =
      omega (arith, c'.balance, none_waiting, sealed, free) in
    (ys, free, locks, few, ground (arith, c'.once, zero_needed))
