-- ===== src/Utils/RwLock/Invariant.antt =====
-- The reader-writer lock of atomics.c: its two words count the threads.
use arts.Prelude.{
  ℕ, zero, suc, ◌+◌, ◌≤◌, ◌<◌, ◌≡◌, ◌≢◌, arith, ◌==◌, ==→eq, ==→ne, Bool-cases, inl, inr, refl, sym,
  ap, eq→==, ne→==,
}
use arts.Utils.RwLock.{
  Pc, idle, saw_none, counted, reading, backs_off, flagged, writing, System, update, Step,
  reader_waits, reader_counts, reader_enters, reader_fails, reader_retries, reader_leaves,
  writer_flags, writer_enters, writer_leaves, Reach, start, next,
}

-- The number of threads below `n` that `f` counts
abbrev pub count : (Pc → ℕ) → (ℕ → Pc) → (n : ℕ) → ℕ
count f pc zero = 0
count f pc (suc n) = f (pc n) + count f pc n

-- Readers that stand in the counter, that hold the lock; writers that have the flag, that hold the lock
abbrev pub in_counter : Pc → ℕ
in_counter counted = 1
in_counter reading = 1
in_counter backs_off = 1
in_counter _ = 0

abbrev pub reads : Pc → ℕ
reads reading = 1
reads _ = 0

abbrev pub has_flag : Pc → ℕ
has_flag flagged = 1
has_flag writing = 1
has_flag _ = 0

abbrev pub writes : Pc → ℕ
writes writing = 1
writes _ = 0

update_self : (pc : ℕ → Pc) (i : ℕ) (p : Pc) → update pc i p i ≡ p
unfolding update
update_self pc i p = simp (eq→== i i refl)

pub update-ne : (pc : ℕ → Pc) (i j : ℕ) (p : Pc) → i ≢ j → update pc i p j ≡ pc j
unfolding update
update-ne pc i j p ne = simp (ne→== i j ne)

count-beyond :
    (f : Pc → ℕ) (pc : ℕ → Pc) (i : ℕ) (p : Pc) (n : ℕ)
    → n ≤ i
    → count f (update pc i p) n ≡ count f pc n
count-beyond f pc i p zero le = refl
count-beyond f pc i p (suc n) le =
    let same = ap f (update-ne pc i n p (λ e. omega (arith, le, e))) in
    let rest = count-beyond f pc i p n (omega (arith, le)) in omega (arith, same, rest)

pub count-update :
    (f : Pc → ℕ) (pc : ℕ → Pc) (i : ℕ) (p : Pc) (n : ℕ)
    → i < n
    → count f (update pc i p) n + f (pc i) ≡ count f pc n + f p
count-update f pc i p zero lt = absurd (omega (arith, lt))
count-update f pc i p (suc n) lt = elim (Bool-cases (i == n)) [
  | inl last ↦
      let e = ==→eq i n last in
      let here = ap f (update_self pc i p) in
      let there = ap (λ k. f (update pc i p k)) e in
      let old = ap (λ k. f (pc k)) e in
      let rest = count-beyond f pc i p n (omega (arith, e)) in omega (arith, here, there, old, rest)
  | inr before ↦
      let ne = ==→ne i n before in
      let same = ap f (update-ne pc i n p ne) in
      let rest = count-update f pc i p n (ground (arith, lt, before)) in omega (arith, same, rest)
]

pub le-count : (f : Pc → ℕ) (pc : ℕ → Pc) (i n : ℕ) → i < n → f (pc i) ≤ count f pc n
le-count f pc i zero lt = absurd (omega (arith, lt))
le-count f pc i (suc n) lt = elim (Bool-cases (i == n)) [
  | inl last ↦ let e = ap (λ k. f (pc k)) (==→eq i n last) in omega (arith, e)
  | inr before ↦ let rest = le-count f pc i n (ground (arith, lt, before)) in omega (arith, rest)
]

pub count_mono :
    (f g : Pc → ℕ) (pc : ℕ → Pc) (n : ℕ) → ((p : Pc) → f p ≤ g p) → count f pc n ≤ count g pc n
count_mono f g pc zero h = omega arith
count_mono f g pc (suc n) h = omega (arith, h (pc n), count_mono f g pc n h)

pub record Inv (n : ℕ) (s : System) : Type 0 where
  pub readers_count : s.readers ≡ count in_counter s.pc n
  pub writer_counts : s.writer ≡ count has_flag s.pc n
  pub one_writer : s.writer ≤ 1
  pub excluded : 0 < count writes s.pc n → count reads s.pc n ≡ 0

-- A thread goes from `p` to `q`: what the counts become.
moves :
    (n : ℕ) (s : System) (i : ℕ) (p q : Pc)
    → i < n
    → s.pc i ≡ p
    → (f : Pc → ℕ) → count f (update s.pc i q) n + f p ≡ count f s.pc n + f q
moves n s i p q lt e f =
    let k = count-update f s.pc i q n lt in let h = ap f e in omega (arith, k, h)

reads_counted : (p : Pc) → reads p ≤ in_counter p
reads_counted reading = omega arith
reads_counted idle = omega arith
reads_counted saw_none = omega arith
reads_counted counted = omega arith
reads_counted backs_off = omega arith
reads_counted flagged = omega arith
reads_counted writing = omega arith

writes_flagged : (p : Pc) → writes p ≤ has_flag p
writes_flagged reading = omega arith
writes_flagged idle = omega arith
writes_flagged saw_none = omega arith
writes_flagged counted = omega arith
writes_flagged backs_off = omega arith
writes_flagged flagged = omega arith
writes_flagged writing = omega arith

pub few_reads : (n : ℕ) (s : System) → Inv n s → count reads s.pc n ≤ s.readers
few_reads n s ok = omega (arith, ok.readers_count, count_mono reads in_counter s.pc n reads_counted)

pub few_writes : (n : ℕ) (s : System) → Inv n s → count writes s.pc n ≤ s.writer
few_writes n s ok =
    omega (arith, ok.writer_counts, count_mono writes has_flag s.pc n writes_flagged)

Step-Inv : (n : ℕ) {s t : System} → Step n s t → Inv n s → Inv n t
Step-Inv n {s = s} (reader_waits i lt e free) ok =
    let m = moves n s i idle saw_none lt e in
    record {
      readers_count = omega (arith, ok.readers_count, m in_counter);
      writer_counts = omega (arith, ok.writer_counts, m has_flag);
      one_writer = ok.one_writer;
      excluded = λ h. ground (arith, ok.excluded, m writes, m reads, h);
    }
Step-Inv n {s = s} (reader_counts i lt e) ok =
    let m = moves n s i saw_none counted lt e in
    record {
      readers_count = omega (arith, ok.readers_count, m in_counter);
      writer_counts = omega (arith, ok.writer_counts, m has_flag);
      one_writer = ok.one_writer;
      excluded = λ h. ground (arith, ok.excluded, m writes, m reads, h);
    }
Step-Inv n {s = s} (reader_enters i lt e free) ok =
    let m = moves n s i counted reading lt e in
    record {
      readers_count = omega (arith, ok.readers_count, m in_counter);
      writer_counts = omega (arith, ok.writer_counts, m has_flag);
      one_writer = ok.one_writer;
      excluded = λ h. absurd (omega (arith, h, m writes, few_writes n s ok, free));
    }
Step-Inv n {s = s} (reader_fails i lt e taken) ok =
    let m = moves n s i counted backs_off lt e in
    record {
      readers_count = omega (arith, ok.readers_count, m in_counter);
      writer_counts = omega (arith, ok.writer_counts, m has_flag);
      one_writer = ok.one_writer;
      excluded = λ h. ground (arith, ok.excluded, m writes, m reads, h);
    }
Step-Inv n {s = s} (reader_retries i lt e) ok =
    let m = moves n s i backs_off idle lt e in
    record {
      readers_count = omega (arith, ok.readers_count, m in_counter);
      writer_counts = omega (arith, ok.writer_counts, m has_flag);
      one_writer = ok.one_writer;
      excluded = λ h. ground (arith, ok.excluded, m writes, m reads, h);
    }
Step-Inv n {s = s} (reader_leaves i lt e) ok =
    let m = moves n s i reading idle lt e in
    record {
      readers_count = omega (arith, ok.readers_count, m in_counter);
      writer_counts = omega (arith, ok.writer_counts, m has_flag);
      one_writer = ok.one_writer;
      excluded = λ h. ground (arith, ok.excluded, m writes, m reads, h);
    }
Step-Inv n {s = s} (writer_flags i lt e free) ok =
    let m = moves n s i idle flagged lt e in
    record {
      readers_count = omega (arith, ok.readers_count, m in_counter);
      writer_counts = omega (arith, ok.writer_counts, m has_flag, free);
      one_writer = omega arith;
      excluded = λ h. ground (arith, ok.excluded, m writes, m reads, h);
    }
Step-Inv n {s = s} (writer_enters i lt e none_counted) ok =
    let m = moves n s i flagged writing lt e in
    record {
      readers_count = omega (arith, ok.readers_count, m in_counter);
      writer_counts = omega (arith, ok.writer_counts, m has_flag);
      one_writer = ok.one_writer;
      excluded = λ h. omega (arith, m reads, few_reads n s ok, none_counted);
    }
Step-Inv n {s = s} (writer_leaves i lt e) ok =
    let m = moves n s i writing idle lt e in
    record {
      readers_count = omega (arith, ok.readers_count, m in_counter);
      writer_counts = omega (arith, ok.writer_counts, ok.one_writer, m has_flag);
      one_writer = omega arith;
      excluded = λ h. absurd (omega (arith, h, m writes, few_writes n s ok, ok.one_writer));
    }

count_none : (f : Pc → ℕ) (n : ℕ) → f idle ≡ 0 → count f (λ i. idle) n ≡ 0
count_none f zero h = refl
count_none f (suc n) h = omega (arith, h, count_none f n h)

pub reach-Inv : (n : ℕ) {s : System} → Reach n s → Inv n s
reach-Inv n start = record {
  readers_count = sym (count_none in_counter n refl);
  writer_counts = sym (count_none has_flag n refl);
  one_writer = omega arith;
  excluded = λ h. count_none reads n refl;
}
reach-Inv n (next r x) = Step-Inv n x (reach-Inv n r)
