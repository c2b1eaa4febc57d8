-- ===== src/Utils/RwLock/Tests.antt =====
-- The theorems on the reader-writer lock at concrete inputs.
use arts.Prelude.{ℕ, ◌≡◌, ◌≢◌, refl, arith}
use arts.Utils.RwLock.{
  Pc, idle, saw_none, counted, flagged, reading, writing, System, Step, update, reader_waits,
  reader_counts, writer_flags, reader_fails, reader_retries, writer_enters, Reach, start, next,
}
use arts.Utils.RwLock.Exclusion.{writer_excludes, never_stuck}

-- Thread 1 sees no writer, thread 0 takes the flag, thread 1 counts itself, backs off, and thread 0
-- enters.
abbrev flag_taken : System
flag_taken = record {
  readers = 1;
  writer = 1;
  pc = update (update (update (λ i. idle) 1 saw_none) 0 flagged) 1 counted;
}

reach_flag_taken : Reach 2 flag_taken
unfolding update
reach_flag_taken =
    next
      (next (next start (reader_waits 1 (omega arith) refl refl))
        (writer_flags 0 (omega arith) refl refl))
      (reader_counts 1 (omega arith) refl)

abbrev writer_in : System
writer_in = record {
  readers = 0;
  writer = 1;
  pc = update (update (update flag_taken.pc 1 Pc.backs_off) 1 idle) 0 writing;
}

reach_writer_in : Reach 2 writer_in
unfolding update
reach_writer_in =
    next
      (next (next reach_flag_taken (reader_fails 1 (omega arith) refl (omega arith)))
        (reader_retries 1 (omega arith) refl))
      (writer_enters 0 (omega arith) refl refl)

zero_writes : writer_in.pc 0 ≡ writing
unfolding update
zero_writes = refl

writer_excludes_example : (writer_in.pc 1 ≢ reading) × (◌≢◌ {A = ℕ} 0 1 → writer_in.pc 1 ≢ writing)
writer_excludes_example =
    writer_excludes 2 writer_in 0 1 reach_writer_in (omega arith) (omega arith) zero_writes

never_stuck_example : (t : System) × Step 2 flag_taken t
never_stuck_example = never_stuck 2 flag_taken reach_flag_taken (omega arith)
