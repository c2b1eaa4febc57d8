-- ===== src/Compute/Edt/Arrive/Settle.antt =====
-- What the counted messages make of an EDT with a reserved GUID holds when one has reached it.
use arts.Prelude.{ℕ, ◌+◌, ◌^◌, ◌≤◌, ◌<◌, ◌≡◌, arith, some, List, [], ◌∷◌, refl}
use mathlib.Core.Path.{subst}
use arts.Compute.Edt.{Edt}
use arts.Compute.Edt.Arrive.{
  Message, Node, Event, message, queued, enters, fires, replays, unseals, step, run, reserved,
}
use arts.Compute.Edt.Arrive.Once.{issued, Counts, step-Counts, reserved-Counts, issued-cons}
use arts.Compute.Edt.Arrive.Slots.{
  counted, AllIssued, held_back, IsSetting, Entry, Tracks, step-Tracks,
}

module _ {P : Message → Type 0} {w : Message → ℕ} {F Q : Edt → Type 0}
    (law : IsSetting P w F Q) where
  counted-cons :
      (x : Event) (xs : List Event) → counted w (x ∷ xs) ≡ counted w (x ∷ []) + counted w xs
  counted-cons (message m) xs = omega arith
  counted-cons (queued k late) xs = omega arith
  counted-cons enters xs = omega arith
  counted-cons (fires locked) xs = omega arith
  counted-cons replays xs = omega arith
  counted-cons unseals xs = omega arith

  AllIssued-cons :
      (x : Event) (xs : List Event) → AllIssued P (x ∷ xs) → AllIssued P (x ∷ []) × AllIssued P xs
  AllIssued-cons (message m) xs p = ((p.0, tt), p.1)
  AllIssued-cons (queued k late) xs p = (tt, p)
  AllIssued-cons enters xs p = (tt, p)
  AllIssued-cons (fires locked) xs p = (tt, p)
  AllIssued-cons replays xs p = (tt, p)
  AllIssued-cons unseals xs p = (tt, p)

  run-Tracks :
      (e : Edt) (depc : ℕ) (small : depc + 1 < 2 ^ 32)
      → F e
      → (c s t : ℕ) (n : Node) (xs : List Event) → issued xs + c ≤ depc
      → counted w xs + s ≡ t
      → Counts depc small c 0 n
      → AllIssued P xs
      → Tracks law s 0 n
      → Tracks law t 0 (run e depc n xs)
  unfolding run
  run-Tracks e depc small fit c s t n [] le p counts ps r =
      subst (λ k. Tracks law k 0 n) (omega (arith, p)) r
  run-Tracks e depc small fit c s t n (x ∷ xs) le p counts ps r =
      let n' = step e depc n x in
      let (now, rest) = AllIssued-cons x xs ps in
      let split = issued-cons depc small x xs in
      let counts' =
        step-Counts depc small e c (issued (x ∷ []) + c) n x refl (omega (arith, le, split))
          counts in
      let r' = step-Tracks law e depc s (counted w (x ∷ []) + s) n x refl counts.shape fit now r in
      run-Tracks e depc small fit (issued (x ∷ []) + c) (counted w (x ∷ []) + s) t n' xs
        (omega (arith, le, split)) (omega (arith, p, counted-cons x xs)) counts' rest r'

  reserved-Tracks : Tracks law 0 0 reserved
  reserved-Tracks = record { of_missed = tt; of_queue = tt; of_taken = tt; entry = omega arith }

  -- What the entry has, when some counted message has reached it.
  pub run-settled :
      (e : Edt) (depc : ℕ) (small : depc + 1 < 2 ^ 32) (xs : List Event) (x : Edt)
      → F e
      → issued xs ≤ depc
      → AllIssued P xs
      → (run e depc reserved xs).entry ≡ some x
      → held_back w (run e depc reserved xs) < counted w xs
      → Q x
  run-settled e depc small xs x fit le ps there less =
      let r =
        run-Tracks e depc small fit 0 0 (counted w xs) reserved xs (omega (arith, le)) (omega arith)
          (reserved-Counts depc small) ps reserved-Tracks in
      let h = held_back w (run e depc reserved xs) in
      (subst (λ o. Entry law o (h + 0) (counted w xs)) there r.entry).1 (omega (arith, less))
