-- ===== src/Compute/Edt/Arrive/Once.antt =====
-- An EDT with a reserved GUID becomes ready once, with the last of its signals and not before.
use arts.Prelude.{
  ℕ, ◌+◌, ◌^◌, ◌≤◌, ◌<◌, ◌≡◌, inl, inr, arith, Bool, true, false, ◌==◌, if◌then◌else◌, Bool-cases,
  Option, none, some, List, [], ◌∷◌, get_elem?, remove, remove-none, tally, tally-append,
  tally-remove, sub_u32, u32, refl, ap, sym, not, ◌&&◌, ◌||◌,
}
use mathlib.Core.Path.{subst}
use arts.Compute.Edt.{Edt, Dep, signal, set_dep_metadata, at_slot, is_ptr, write_metadata}
use arts.Compute.Edt.Arrive.{
  Message, sig, meta, Stage, before, entered, replaying, done, Node, defer, count_ready, apply,
  deliver, absent, enqueue, enter, fire, replay, unseal, Event, message, queued, enters, fires,
  replays, unseals, step, run, reserved,
}

-- Signals count, metadata does not.
abbrev pub weight : Message → ℕ
weight (sig s) = 1
weight (meta m) = 0

abbrev pub issued : List Event → ℕ
issued [] = 0
issued (message m ∷ xs) = weight m + issued xs
issued (_ ∷ xs) = issued xs

-- The signals that the node has but the EDT has not got.
abbrev pub waiting : Node → ℕ
waiting n = tally weight n.missed + tally weight n.queue + tally weight n.taken

abbrev pub seal : Stage → ℕ
seal done = 0
seal _ = 1

pub seal-done : (st : Stage) → seal st ≡ 0 → st ≡ done
seal-done done h = refl
seal-done before h = absurd (omega (arith, h))
seal-done entered h = absurd (omega (arith, h))
seal-done replaying h = absurd (omega (arith, h))

abbrev pub needed : (depc : ℕ) → Option Edt → ℕ
needed depc none = depc + 1
needed depc (some e) = e.depc_needed

-- The entry is there after the creator has entered it; the creator replays in its third stage only.
abbrev pub Shape : Stage → Option Edt → List Message → Type 0
Shape before none [] = Unit
Shape entered (some e) [] = Unit
Shape replaying (some e) ms = Unit
Shape done (some e) [] = Unit
Shape _ _ _ = ⊥

Shape-some :
    (st : Stage) (e e' : Edt) (ms : List Message) → Shape st (some e) ms → Shape st (some e') ms
Shape-some entered e e' [] h = tt
Shape-some replaying e e' ms h = tt
Shape-some done e e' [] h = tt
Shape-some before e e' ms h = elim h [ ]
Shape-some entered e e' (m ∷ ms) h = elim h [ ]
Shape-some done e e' (m ∷ ms) h = elim h [ ]

moved :
    (n : Node) (e e' : Edt)
    → n.entry ≡ some e
    → Shape n.stage n.entry n.taken
    → Shape n.stage (some e') n.taken
moved n e e' p h = Shape-some n.stage e e' n.taken (subst (λ o. Shape n.stage o n.taken) p h)

pub Shape-before : (o : Option Edt) (ms : List Message) → Shape before o ms → (o ≡ none) × (ms ≡ [])
Shape-before none [] h = (refl, refl)
Shape-before none (m ∷ ms) h = elim h [ ]
Shape-before (some e) ms h = elim h [ ]

pub Shape-entered :
    (o : Option Edt) (ms : List Message)
    → Shape entered o ms
    → ((e : Edt) × (o ≡ some e)) × (ms ≡ [])
Shape-entered none ms h = elim h [ ]
Shape-entered (some e) [] h = ((e, refl), refl)
Shape-entered (some e) (m ∷ ms) h = elim h [ ]

pub Shape-done :
    (o : Option Edt) (ms : List Message) → Shape done o ms → ((e : Edt) × (o ≡ some e)) × (ms ≡ [])
Shape-done none ms h = elim h [ ]
Shape-done (some e) [] h = ((e, refl), refl)
Shape-done (some e) (m ∷ ms) h = elim h [ ]

pub Shape-replaying :
    (o : Option Edt) (ms : List Message) → Shape replaying o ms → (e : Edt) × (o ≡ some e)
Shape-replaying none ms h = elim h [ ]
Shape-replaying (some e) ms h = (e, refl)

weight-defer : (m : Message) → weight (defer m) ≡ weight m
unfolding defer
weight-defer (sig s) = elim (Bool-cases (is_ptr s.mode)) [
  | inl copied ↦ simp copied
  | inr plain ↦ simp plain
]
weight-defer (meta m) = refl

pub depc_needed-at_slot :
    (e : Edt) (k : ℕ) (f : Dep → Dep) → (at_slot e k f).depc_needed ≡ e.depc_needed
unfolding at_slot
depc_needed-at_slot e k f = ground arith

module _ (depc : ℕ) (small : depc + 1 < 2 ^ 32) where
  -- The counter of the EDT and the signals that wait, after `s` signals have been issued, `extra` of
  -- which stand in none of the lists
  pub record Counts (s extra : ℕ) (n : Node) : Type 0 where
    pub balance : needed depc n.entry + s ≡ waiting n + extra + depc + seal n.stage
    pub bound : needed depc n.entry ≤ depc + 1
    pub once : n.ready ≡ (if needed depc n.entry == 0 then 1 else 0)
    pub shape : Shape n.stage n.entry n.taken

  deliver-Counts :
      (s : ℕ) (n : Node) (o : Option Edt) (m : Message)
      → n.entry ≡ o
      → s ≤ depc
      → Counts s (weight m) n
      → Counts s 0 (deliver n o m)
  unfolding deliver apply count_ready signal set_dep_metadata
  deliver-Counts s n none m e le c = record {
    balance = omega (arith, c.balance);
    bound = c.bound;
    once = c.once;
    shape = c.shape;
  }
  deliver-Counts s n (some x) (sig g) e le c =
      let now : needed depc n.entry ≡ x.depc_needed = ap (needed depc) e in
      let one : n.ready ≡ 0 = ground (arith, c.once, c.balance, now) in
      let left : sub_u32 x.depc_needed 1 + 1 ≡ x.depc_needed =
        omega (arith, c.balance, c.bound, now) in
      record {
        balance = omega (arith, c.balance, now, left);
        bound = omega (arith, c.bound, now, left);
        once = omega (arith, one);
        shape = moved n x _ e c.shape;
      }
  deliver-Counts s n (some x) (meta g) e le c =
      let now : needed depc n.entry ≡ x.depc_needed = ap (needed depc) e in
      let same = depc_needed-at_slot x g.slot (write_metadata g) in
      record {
        balance = omega (arith, c.balance, now, same);
        bound = omega (arith, c.bound, now, same);
        once = rw same (rw⁻¹ now c.once);
        shape = moved n x _ e c.shape;
      }

  abbrev weight_of : Option Message → ℕ
  weight_of none = 0
  weight_of (some m) = weight m

  enqueue-Counts :
      (s : ℕ) (n : Node) (late : Bool) (o : Option Message)
      → s ≤ depc
      → Counts s (weight_of o) n
      → Counts s 0 (enqueue n late o)
  unfolding enqueue
  enqueue-Counts s n late none le c = c
  enqueue-Counts s n late (some m) le c =
      elim (Bool-cases (not n.is_fired && (absent n.entry || late))) [
        | inl taken_in ↦ rw taken_in (record {
          balance =
              omega (arith, c.balance, weight-defer m, tally-append weight n.queue (defer m ∷ []));
          bound = c.bound;
          once = c.once;
          shape = c.shape;
        })
        | inr refused ↦
            rw refused (deliver-Counts s n n.entry (defer m) refl le (rw (weight-defer m) c))
      ]

  enter-Counts :
      (e : Edt) (s : ℕ) (n : Node) (st : Stage)
      → n.stage ≡ st
      → Counts s 0 n
      → Counts s 0 (enter e depc n st)
  unfolding enter
  enter-Counts e s n before p c =
      let (absent_, none_taken) =
        Shape-before n.entry n.taken (subst (λ st. Shape st n.entry n.taken) p c.shape) in
      let now : needed depc n.entry ≡ depc + 1 = ap (needed depc) absent_ in
      let sealed : seal n.stage ≡ 1 = ap seal p in
      let fits : u32 (depc + 1) ≡ depc + 1 = omega (arith, small) in
      record {
        balance = omega (arith, c.balance, now, sealed, fits);
        bound = omega (arith, fits);
        once = ground (arith, c.once, now, fits);
        shape = rw none_taken tt;
      }
  enter-Counts e s n entered p c = c
  enter-Counts e s n replaying p c = c
  enter-Counts e s n done p c = c

  fire-Counts :
      (s : ℕ) (n : Node) (locked : Bool) (st : Stage)
      → n.stage ≡ st
      → Counts s 0 n
      → Counts s 0 (fire n locked st)
  unfolding fire
  fire-Counts s n true entered p c =
      let ((x, there), none_taken) =
        Shape-entered n.entry n.taken (subst (λ st. Shape st n.entry n.taken) p c.shape) in
      let sealed : seal n.stage ≡ 1 = ap seal p in
      let zero_taken : tally weight n.taken ≡ 0 = ap (tally weight) none_taken in
      record {
        balance = omega (arith, c.balance, sealed, zero_taken);
        bound = c.bound;
        once = c.once;
        shape = subst (λ o. Shape replaying o n.queue) (sym there) tt;
      }
  fire-Counts s n false entered p c =
      let ((x, there), none_taken) =
        Shape-entered n.entry n.taken (subst (λ st. Shape st n.entry n.taken) p c.shape) in
      let sealed : seal n.stage ≡ 1 = ap seal p in
      record {
        balance = omega (arith, c.balance, sealed);
        bound = c.bound;
        once = c.once;
        shape = subst (λ o. Shape replaying o n.taken) (sym there) tt;
      }
  fire-Counts s n true before p c = c
  fire-Counts s n true replaying p c = c
  fire-Counts s n true done p c = c
  fire-Counts s n false before p c = c
  fire-Counts s n false replaying p c = c
  fire-Counts s n false done p c = c

  replay-Counts :
      (s : ℕ) (n : Node) (st : Stage) (ms : List Message)
      → n.stage ≡ st
      → n.taken ≡ ms
      → s ≤ depc
      → Counts s 0 n
      → Counts s 0 (replay n st ms)
  unfolding replay
  replay-Counts s n replaying (m ∷ ms) p q le c =
      let (x, there) =
        Shape-replaying n.entry n.taken (subst (λ st. Shape st n.entry n.taken) p c.shape) in
      let split : tally weight n.taken ≡ weight m + tally weight ms = ap (tally weight) q in
      deliver-Counts s (record n { taken = ms }) n.entry m refl le
        (record {
          balance = omega (arith, c.balance, split);
          bound = c.bound;
          once = c.once;
          shape =
              subst (λ o. Shape n.stage o ms) (sym there)
                (subst (λ st. Shape st (some x) ms) (sym p) tt);
        })
  replay-Counts s n replaying [] p q le c = c
  replay-Counts s n before ms p q le c = c
  replay-Counts s n entered ms p q le c = c
  replay-Counts s n done ms p q le c = c

  unseal-Counts :
      (s : ℕ) (n : Node) (st : Stage) (ms : List Message) (o : Option Edt)
      → n.stage ≡ st
      → n.taken ≡ ms
      → n.entry ≡ o
      → s ≤ depc
      → Counts s 0 n
      → Counts s 0 (unseal n st ms o)
  unfolding unseal
  unseal-Counts s n replaying [] (some x) p q r le c =
      let now : needed depc n.entry ≡ x.depc_needed = ap (needed depc) r in
      let sealed : seal n.stage ≡ 1 = ap seal p in
      let one : n.ready ≡ 0 = ground (arith, c.once, c.balance, now, sealed) in
      let left : sub_u32 x.depc_needed 1 + 1 ≡ x.depc_needed =
        omega (arith, c.balance, c.bound, now, sealed) in
      record {
        balance = omega (arith, c.balance, now, left, sealed);
        bound = omega (arith, c.bound, now, left);
        once = omega (arith, one);
        shape = rw q tt;
      }
  unseal-Counts s n replaying [] none p q r le c = c
  unseal-Counts s n replaying (m ∷ ms) o p q r le c = c
  unseal-Counts s n before ms o p q r le c = c
  unseal-Counts s n entered ms o p q r le c = c
  unseal-Counts s n done ms o p q r le c = c

  take_out-Counts :
      (s : ℕ) (n : Node) (k : ℕ) (o : Option Message)
      → get_elem? n.missed k ≡ o
      → Counts s 0 n
      → Counts s (weight_of o) (record n { missed = remove n.missed k })
  take_out-Counts s n k none p c = record {
    balance = omega (arith, c.balance, ap (tally weight) (remove-none n.missed k p));
    bound = c.bound;
    once = c.once;
    shape = c.shape;
  }
  take_out-Counts s n k (some m) p c = record {
    balance = omega (arith, c.balance, tally-remove weight n.missed k m p);
    bound = c.bound;
    once = c.once;
    shape = c.shape;
  }

  pub recount : (s t extra : ℕ) (n : Node) → s ≡ t → Counts s extra n → Counts t extra n
  recount s t extra n p c = subst (λ t. Counts t extra n) p c

  pub step-Counts :
      (e : Edt) (s t : ℕ) (n : Node) (x : Event)
      → t ≡ issued (x ∷ []) + s
      → t ≤ depc
      → Counts s 0 n
      → Counts t 0 (step e depc n x)
  unfolding step
  step-Counts e s t n (message m) p le c = deliver-Counts t n n.entry m refl le (record {
    balance = omega (arith, c.balance, p);
    bound = c.bound;
    once = c.once;
    shape = c.shape;
  })
  step-Counts e s t n (queued k late) p le c =
      enqueue-Counts t (record n { missed = remove n.missed k }) late (get_elem? n.missed k) le
        (take_out-Counts t n k (get_elem? n.missed k) refl (recount s t 0 n (omega (arith, p)) c))
  step-Counts e s t n enters p le c =
      enter-Counts e t n n.stage refl (recount s t 0 n (omega (arith, p)) c)
  step-Counts e s t n (fires locked) p le c =
      fire-Counts t n locked n.stage refl (recount s t 0 n (omega (arith, p)) c)
  step-Counts e s t n replays p le c =
      replay-Counts t n n.stage n.taken refl refl le (recount s t 0 n (omega (arith, p)) c)
  step-Counts e s t n unseals p le c =
      unseal-Counts t n n.stage n.taken n.entry refl refl refl le
        (recount s t 0 n (omega (arith, p)) c)

  pub issued-cons : (x : Event) (xs : List Event) → issued (x ∷ xs) ≡ issued (x ∷ []) + issued xs
  issued-cons (message m) xs = omega arith
  issued-cons (queued k late) xs = omega arith
  issued-cons enters xs = omega arith
  issued-cons (fires locked) xs = omega arith
  issued-cons replays xs = omega arith
  issued-cons unseals xs = omega arith

  pub run-Counts :
      (e : Edt) (s : ℕ) (n : Node) (xs : List Event)
      → issued xs + s ≤ depc
      → Counts s 0 n
      → Counts (issued xs + s) 0 (run e depc n xs)
  unfolding run
  run-Counts e s n [] le c = recount s (0 + s) 0 n (omega arith) c
  run-Counts e s n (x ∷ xs) le c =
      let split = issued-cons x xs in
      let t = issued (x ∷ []) + s in
      recount (issued xs + t) (issued (x ∷ xs) + s) 0 (run e depc (step e depc n x) xs)
        (omega (arith, split))
        (run-Counts e t (step e depc n x) xs (omega (arith, le, split))
          (step-Counts e s t n x refl (omega (arith, le, split)) c))

  pub reserved-Counts : Counts 0 0 reserved
  reserved-Counts = record {
    balance = omega arith;
    bound = omega arith;
    once = ground arith;
    shape = tt;
  }

-- An EDT with a reserved GUID and `depc` dependencies, over any interleaving of at most `depc` signals
-- and any metadata with the steps of its creation: it has become ready at most once, and that it has,
-- is the same as that its creation is done, that `depc` signals have been issued, and that none of them
-- waits in a thread, in the list of held-back messages, or for its replay.
pub run_ready_once :
    (e : Edt) (depc : ℕ) (xs : List Event)
    → depc + 1 < 2 ^ 32
    → issued xs ≤ depc
    → (let n = run e depc reserved xs in
        (n.ready ≤ 1)
        × (n.ready ≡ 1 → (n.stage ≡ done) × (issued xs ≡ depc) × (waiting n ≡ 0))
        × (n.stage ≡ done → issued xs ≡ depc → waiting n ≡ 0 → n.ready ≡ 1))
run_ready_once e depc xs small le =
    let c =
      run-Counts depc small e 0 reserved xs (omega (arith, le)) (reserved-Counts depc small) in
    let n = run e depc reserved xs in
    (
      ground (arith, c.once),
      (λ one.
          let zero_needed : needed depc n.entry ≡ 0 = ground (arith, c.once, one) in
          let open_ : seal n.stage ≡ 0 = omega (arith, c.balance, le, zero_needed) in
          (
            seal-done n.stage open_,
            omega (arith, c.balance, le, zero_needed),
            omega (arith, c.balance, le, zero_needed),
          )),
      (λ finished all none_waiting.
          let sealed : seal n.stage ≡ 0 = ap seal finished in
          let zero_needed : needed depc n.entry ≡ 0 =
            omega (arith, c.balance, all, none_waiting, sealed) in
          ground (arith, c.once, zero_needed)),
    )
