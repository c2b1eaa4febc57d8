-- ===== src/Compute/Edt/Create/Countdown.antt =====
-- An EDT that gets its GUID from its creation, and the messages that come for it.
use arts.Prelude.{
  ℕ, ◌+◌, ◌-◌, ◌^◌, ◌≤◌, ◌<◌, ◌≡◌, arith, Bool, true, ◌==◌, eq→==, if◌then◌else◌, Bool-cases, inl,
  inr, Option, none, some, List, [], ◌∷◌, ◌++◌, tally, refl, ◌∙◌,
}
use mathlib.Core.Path.{subst}
use arts.Compute.Pool.{Pool}
use arts.Compute.Edt.{Edt, Signal, Metadata, signal, set_dep_metadata, write_metadata}
use arts.Compute.Edt.Local.{Local}
use arts.Compute.Edt.Create.{
  Worker, Args, Effect, active_shutdown_epoch, handle_ready, active, register, fill, place,
  choose_epoch, create_at, create_internal,
}
use arts.Compute.Edt.Arrive.{Message, sig, meta}
use arts.Compute.Edt.Arrive.Once.{weight, depc_needed-at_slot}

-- How often an effect hands the EDT on as ready
abbrev pub readies : Effect → ℕ
readies (handle_ready e) = 1
readies _ = 0

-- The messages for an EDT that the node has: how often they make it ready, and the EDT.
unfoldable pub arrive : Edt → List Message → ℕ × Edt
arrive e [] = (0, e)
arrive e (sig s ∷ ms) =
    let (now, e') = signal e s in let (n, e'') = arrive e' ms in ((if now then 1 else 0) + n, e'')
arrive e (meta m ∷ ms) = arrive (set_dep_metadata e m) ms

arrive_quiet : (e : Edt) (ms : List Message) → tally weight ms ≡ 0 → (arrive e ms).0 ≡ 0
unfolding arrive
arrive_quiet e [] none_left = refl
arrive_quiet e (sig s ∷ ms) none_left = absurd (omega (arith, none_left))
arrive_quiet e (meta m ∷ ms) none_left =
    arrive_quiet (set_dep_metadata e m) ms (omega (arith, none_left))

depc_needed-signal :
    (e : Edt) (s : Signal)
    → 0 < e.depc_needed
    → e.depc_needed < 2 ^ 32
    → ((signal e s).1.depc_needed ≡ e.depc_needed - 1) × ((signal e s).0 ≡ (e.depc_needed == 1))
unfolding signal
depc_needed-signal e s pos small = (omega (arith, pos, small), ground (arith, pos, small))

depc_needed-metadata : (e : Edt) (m : Metadata) → (set_dep_metadata e m).depc_needed ≡ e.depc_needed
unfolding set_dep_metadata
depc_needed-metadata e m = depc_needed-at_slot e m.slot (write_metadata m)

arrive_lem :
    (e : Edt) (ms : List Message)
    → e.depc_needed < 2 ^ 32
    → tally weight ms ≤ e.depc_needed
    → 0 < e.depc_needed
    → (arrive e ms).0 ≡ (if tally weight ms == e.depc_needed then 1 else 0)
unfolding arrive
arrive_lem e [] small le pos = ground arith
arrive_lem e (sig s ∷ ms) small le pos =
    let (left, now) = depc_needed-signal e s pos small in
    let e' = (signal e s).1 in
    elim (Bool-cases (e.depc_needed == 1)) [
      | inl last ↦
          let quiet = arrive_quiet e' ms (ground (arith, last, le)) in
          ground (arith, last, now, quiet, le)
      | inr more ↦
          let rest =
            arrive_lem e' ms (omega (arith, small, left)) (omega (arith, le, left))
              (ground (arith, more, pos, left)) in
          ground (arith, more, now, rest, left, pos)
    ]
arrive_lem e (meta m ∷ ms) small le pos =
    let same = depc_needed-metadata e m in
    let rest =
      arrive_lem (set_dep_metadata e m) ms (omega (arith, small, same)) (omega (arith, le, same))
        (omega (arith, pos, same)) in
    ground (arith, rest, same)

fill-counter : (a : Args) (size g epoch : ℕ) → (fill a size g epoch).depc_needed ≡ a.depc
unfolding fill
fill-counter a size g epoch = refl

register-here :
    (rank route : ℕ) (created : Bool) (e : Edt)
    → route ≡ rank
    → created ≡ true
    → tally readies (register rank route created e) ≡ (if e.depc_needed == 0 then 1 else 0)
unfolding register
register-here rank route created e own new_one = elim (Bool-cases (e.depc_needed == 0)) [
  | inl free ↦ simp (eq→== route rank own, new_one, free)
  | inr waits ↦ simp (eq→== route rank own, new_one, waits)
]

-- What a creation tells of its EDT
record Made (w : Worker) (a : Args) (e : Edt) (out : List Effect) : Type 0 where
  counter : e.depc_needed ≡ a.depc
  calls : tally readies out ≡ tally readies (register w.rank_id a.route (a.guid == 0) e)

quiet_epoch : (g : ℕ) (out : List Effect) → tally readies (active g ++ out) ≡ tally readies out
unfolding active
quiet_epoch g out = ground arith

abbrev MadeIfAny : Worker → Args → Option (Edt × List Effect × Worker) → Type 0
MadeIfAny w a none = Unit
MadeIfAny w a (some (e, out, w')) = Made w a e out

create_at-Made :
    (w : Worker) (a : Args) (n : ℕ) (r : ℕ × ℕ × Pool) (c : Option ℕ × Local)
    → MadeIfAny w a (create_at w a n r c)
unfolding create_at
create_at-Made w a n (address, size, p) (none, l) = tt
create_at-Made w a n (address, size, p) (some g, l) =
    let e = fill a size (if a.guid == 0 then n else a.guid) g in
    let made : Made w a e
        (active g ++ (active_shutdown_epoch ∷ register w.rank_id a.route (a.guid == 0) e)) =
      record {
        counter = fill-counter a size _ g;
        calls = omega (
          arith,
          quiet_epoch g (active_shutdown_epoch ∷ register w.rank_id a.route (a.guid == 0) e),
        );
      } in
    elim (Bool-cases (address == 0)) [ inl null ↦ rw null tt | inr real ↦ rw real made ]

-- A task that is created on its own node with a new GUID and `depc` dependencies, and any metadata and
-- at most `depc` signals that come for it after that: it is handed on as ready once, by its creation
-- if it has no dependency and else by the last of `depc` signals, and not at all by fewer.
pub create-arrive :
    (w w' : Worker) (a : Args) (fresh new_guid : ℕ) (e : Edt) (out : List Effect)
    (ms : List Message)
    → a.guid ≡ 0
    → a.route ≡ w.rank_id
    → a.depc < 2 ^ 32
    → create_internal w a fresh new_guid ≡ some (e, out, w')
    → tally weight ms ≤ a.depc
    → tally readies out + (arrive e ms).0 ≡ (if tally weight ms == a.depc then 1 else 0)
unfolding create_internal
create-arrive w w' a fresh new_guid e out ms no_guid own small made le =
    let facts : Made w a e out = subst (MadeIfAny w a) made (
      create_at-Made w a new_guid (place w.pool fresh a.edt_space a.edt)
        (choose_epoch a.use_epoch a.epoch_guid w.local)) in
    let calls =
      facts.calls ∙ register-here w.rank_id a.route (a.guid == 0) e own (eq→== a.guid 0 no_guid) in
    elim (Bool-cases (a.depc == 0)) [
      | inl free ↦
          let quiet = arrive_quiet e ms (ground (arith, free, le)) in
          ground (arith, calls, quiet, free, facts.counter, le)
      | inr waits ↦
          let rest =
            arrive_lem e ms (omega (arith, small, facts.counter)) (omega (arith, le, facts.counter))
              (ground (arith, waits, facts.counter)) in
          ground (arith, calls, rest, waits, facts.counter)
    ]
