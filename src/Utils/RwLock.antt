-- ===== src/Utils/RwLock.antt =====
-- The reader-writer lock of libs/src/core/utils/atomics.c (arts_reader_lock, arts_writer_lock and their
-- unlocks) with any number of threads: every atomic access of a thread is a step, and the steps of the
-- threads interleave, each access on the memory as the one before it has left it. arts_writer_try_lock
-- makes the accesses of arts_writer_lock, and gives up where the compare-and-swap fails. The pauses between two tries and the back-off are not modelled. The counter of
-- readers has room for all threads, so it is a number without wrap-around.
pub mod Invariant
pub mod Exclusion
mod Tests
use arts.Prelude.{ℕ, ◌+◌, ◌-◌, ◌<◌, ◌≡◌, ◌==◌, if◌then◌else◌}

-- Where a thread stands: outside; a reader that has seen no writer, has counted itself, holds the
-- lock, or has seen a writer after it counted itself; a writer that has got the flag, holds the lock.
pub data Pc : Type 0 where
  idle : Pc
  saw_none counted reading backs_off : Pc
  flagged writing : Pc

-- `read_lock` and `write_lock`, and the threads
pub record System : Type 0 where
  pub readers : ℕ
  pub writer : ℕ
  pub pc : ℕ → Pc

unfoldable pub update : (ℕ → Pc) → ℕ → Pc → ℕ → Pc
update pc i p j = if i == j then p else pc j

-- A step of one of `n` threads
pub data Step (n : ℕ) (s : System) : System → Type 0 where
  -- arts_reader_lock: the load that sees no writer
  reader_waits :
      (i : ℕ)
      → i < n
      → s.pc i ≡ idle
      → s.writer ≡ 0
      → Step n s (record s { pc = update s.pc i saw_none })
  -- the fetch-and-add
  reader_counts :
      (i : ℕ)
      → i < n
      → s.pc i ≡ saw_none
      → Step n s (record s { readers = s.readers + 1; pc = update s.pc i counted })
  -- the second load: no writer, or a writer
  reader_enters :
      (i : ℕ)
      → i < n
      → s.pc i ≡ counted
      → s.writer ≡ 0
      → Step n s (record s { pc = update s.pc i reading })
  reader_fails :
      (i : ℕ)
      → i < n
      → s.pc i ≡ counted
      → 0 < s.writer
      → Step n s (record s { pc = update s.pc i backs_off })
  -- the subtraction after it
  reader_retries :
      (i : ℕ)
      → i < n
      → s.pc i ≡ backs_off
      → Step n s (record s { readers = s.readers - 1; pc = update s.pc i idle })
  -- arts_reader_unlock
  reader_leaves :
      (i : ℕ)
      → i < n
      → s.pc i ≡ reading
      → Step n s (record s { readers = s.readers - 1; pc = update s.pc i idle })
  -- arts_writer_lock: the compare-and-swap that succeeds
  writer_flags :
      (i : ℕ)
      → i < n
      → s.pc i ≡ idle
      → s.writer ≡ 0
      → Step n s (record s { writer = 1; pc = update s.pc i flagged })
  -- the load that sees no reader
  writer_enters :
      (i : ℕ)
      → i < n
      → s.pc i ≡ flagged
      → s.readers ≡ 0
      → Step n s (record s { pc = update s.pc i writing })
  -- arts_writer_unlock
  writer_leaves :
      (i : ℕ)
      → i < n
      → s.pc i ≡ writing
      → Step n s (record s { writer = 0; pc = update s.pc i idle })

abbrev pub unlocked : System
unlocked = record { readers = 0; writer = 0; pc = λ i. idle }

-- The states that `n` threads can bring about
pub data Reach (n : ℕ) : System → Type 0 where
  start : Reach n unlocked
  next : {s t : System} → Reach n s → Step n s t → Reach n t
