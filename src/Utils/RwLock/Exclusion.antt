-- ===== src/Utils/RwLock/Exclusion.antt =====
-- The reader-writer lock of atomics.c: a writer excludes all others.
use arts.Prelude.{ℕ, zero, suc, ◌<◌, ◌≡◌, ◌≢◌, arith, refl, ap}
use arts.Utils.RwLock.{
  Pc, idle, reading, writing, System, Step, Reach, update, saw_none, counted, backs_off, flagged,
  reader_waits, reader_counts, reader_enters, reader_fails, reader_retries, reader_leaves,
  writer_enters, writer_leaves,
}
use arts.Utils.RwLock.Invariant.{
  count, reads, writes, in_counter, has_flag, Inv, reach-Inv, le-count, count-update, update-ne,
  few_writes,
}
use native.Mathlib.Decide.{dec_lt}

-- In every state that `n` threads can bring about by any interleaving of their atomic accesses: when a
-- thread holds the lock as a writer, no thread holds it as a reader, and no other one as a writer.
pub writer_excludes :
    (n : ℕ) (s : System) (i j : ℕ)
    → Reach n s
    → i < n
    → j < n
    → s.pc i ≡ writing
    → (s.pc j ≢ reading) × (i ≢ j → s.pc j ≢ writing)
writer_excludes n s i j r lt lt' e =
    let ok = reach-Inv n r in
    let some_write : 0 < count writes s.pc n =
      omega (arith, le-count writes s.pc i n lt, ap writes e) in
    (
      (λ e'.
          absurd (omega (arith, ok.excluded some_write, le-count reads s.pc j n lt', ap reads e'))),
      (λ ne e'.
          let gone = count-update writes s.pc i idle n lt in
          let other = le-count writes (update s.pc i idle) j n lt' in
          let there = ap writes (update-ne s.pc i j idle ne) in
          absurd (
            omega (
              arith,
              gone,
              other,
              there,
              ap writes e,
              ap writes e',
              few_writes n s ok,
              ok.one_writer,
            ))),
    )

-- A thread that `f` counts
counted_one :
    (f : Pc → ℕ) (pc : ℕ → Pc) (n : ℕ) → 0 < count f pc n → (i : ℕ) × (i < n) × (0 < f (pc i))
counted_one f pc zero h = absurd (omega (arith, h))
counted_one f pc (suc n) h = elim (dec_lt 0 (f (pc n))) [
  | yes here ↦ (n, omega arith, here)
  | no other ↦
      let (i, lt, found) = counted_one f pc n (omega (arith, h, other)) in
      (i, omega (arith, lt), found)
]

abbrev CanStep : (n : ℕ) → System → Type 0
CanStep n s = (t : System) × Step n s t

reader_moves :
    (n : ℕ) (s : System) (i : ℕ) (p : Pc)
    → i < n
    → s.pc i ≡ p
    → 0 < s.writer
    → 0 < in_counter p
    → CanStep n s
reader_moves n s i counted lt e taken h = (_, reader_fails i lt e taken)
reader_moves n s i reading lt e taken h = (_, reader_leaves i lt e)
reader_moves n s i backs_off lt e taken h = (_, reader_retries i lt e)
reader_moves n s i idle lt e taken h = absurd (omega (arith, h))
reader_moves n s i saw_none lt e taken h = absurd (omega (arith, h))
reader_moves n s i flagged lt e taken h = absurd (omega (arith, h))
reader_moves n s i writing lt e taken h = absurd (omega (arith, h))

writer_moves :
    (n : ℕ) (s : System) (i : ℕ) (p : Pc)
    → Inv n s
    → i < n
    → s.pc i ≡ p
    → 0 < s.writer
    → 0 < has_flag p
    → CanStep n s
writer_moves n s i writing ok lt e taken h = (_, writer_leaves i lt e)
writer_moves n s i flagged ok lt e taken h = elim (dec_lt 0 s.readers) [
  | yes some_of ↦
      let (j, lt', found) =
        counted_one in_counter s.pc n (omega (arith, some_of, ok.readers_count)) in
      reader_moves n s j (s.pc j) lt' refl taken found
  | no none_of ↦ (_, writer_enters i lt e (omega (arith, none_of)))
]
writer_moves n s i idle ok lt e taken h = absurd (omega (arith, h))
writer_moves n s i saw_none ok lt e taken h = absurd (omega (arith, h))
writer_moves n s i counted ok lt e taken h = absurd (omega (arith, h))
writer_moves n s i reading ok lt e taken h = absurd (omega (arith, h))
writer_moves n s i backs_off ok lt e taken h = absurd (omega (arith, h))

free_moves :
    (n : ℕ) (s : System) (i : ℕ) (p : Pc)
    → Inv n s
    → i < n
    → s.pc i ≡ p
    → s.writer ≡ 0
    → CanStep n s
free_moves n s i idle ok lt e free = (_, reader_waits i lt e free)
free_moves n s i saw_none ok lt e free = (_, reader_counts i lt e)
free_moves n s i counted ok lt e free = (_, reader_enters i lt e free)
free_moves n s i reading ok lt e free = (_, reader_leaves i lt e)
free_moves n s i backs_off ok lt e free = (_, reader_retries i lt e)
free_moves n s i flagged ok lt e free =
    absurd (omega (arith, ok.writer_counts, free, le-count has_flag s.pc i n lt, ap has_flag e))
free_moves n s i writing ok lt e free =
    absurd (omega (arith, ok.writer_counts, free, le-count has_flag s.pc i n lt, ap has_flag e))

-- In every state that `n` threads, one at least, can bring about, some thread can take a step: the
-- threads never wait for each other in a circle.
pub never_stuck : (n : ℕ) (s : System) → Reach n s → 0 < n → (t : System) × Step n s t
never_stuck n s r pos =
    let ok = reach-Inv n r in
    elim (dec_lt 0 s.writer) [
      | yes taken ↦
          let (i, lt, found) =
            counted_one has_flag s.pc n (omega (arith, taken, ok.writer_counts)) in
          writer_moves n s i (s.pc i) ok lt refl taken found
      | no free ↦ free_moves n s 0 (s.pc 0) ok pos refl (omega (arith, free))
    ]
