-- ===== src/ReadersWriters/Semaphores/Safety.antt =====
-- What holds in every interleaving of the readers and the writers.
use sysopy_all.Base.{
  Ensures, ℕ, ◌≤◌, ◌<◌, ◌≡◌, ◌≢◌, refl, some, arith, subst, inl, inr, ◌⊎◌, sum_of, sum_of-each_zero,
  le-sum_of, pair-le-sum_of, ltb, if◌then◌else◌, Bool-cases,
}
use sysopy_all.ReadersWriters.Semaphores.{
  Pc, r_test, r_first, r_uncount, reading, w_test, writing_now, Shared, step,
}
use sysopy_all.ReadersWriters.Semaphores.Invariant.{
  firsts, others, inside, lasts, writes, Inv, step-Inv,
}

-- The threads as `threads_run` starts them: the first `r` read, the others write.
abbrev pub first_pc : ℕ → ℕ → Pc
first_pc r i = if ltb i r then r_test else w_test

abbrev pub threads_run : ℕ → ℕ → ℕ → Shared
threads_run r reader_reads_number writer_writes_number = record {
  reader_sem = 1;
  writer_sem = 1;
  curr_readers = 0;
  thread = first_pc r;
  reader_reads_number = reader_reads_number;
  writer_writes_number = writer_writes_number;
  rounds = λ i. 0;
}

-- The states that `n` threads reach, the first `r` of them readers, for any numbers of rounds.
pub data Reach (n r : ℕ) : Shared → Type 0 where
  started :
      (reader_reads_number writer_writes_number : ℕ)
      → Reach n r (threads_run r reader_reads_number writer_writes_number)
  moved : {s t : Shared} (i : ℕ) → Reach n r s → i < n → step i s ≡ some t → Reach n r t

none_yet : (n r : ℕ) (w : Pc → ℕ) → w r_test ≡ 0 → w w_test ≡ 0 → sum_of w n (first_pc r) ≡ 0
none_yet n r w a b =
    sum_of-each_zero w n (first_pc r)
      λ i. elim (Bool-cases (ltb i r)) [ inl t ↦ rw t a | inr t ↦ rw t b ]

threads_run-Inv : (n r a b : ℕ) → Inv n (threads_run r a b)
threads_run-Inv n r a b = record {
  one_reader = omega (arith, none_yet n r others refl refl, none_yet n r firsts refl refl);
  counted = omega (arith, none_yet n r inside refl refl, none_yet n r firsts refl refl);
  one_writer = omega (
    arith,
    none_yet n r writes refl refl,
    none_yet n r lasts refl refl,
    none_yet n r firsts refl refl,
  );
  first_alone = inl (none_yet n r firsts refl refl);
}

pub Reach-Inv : (n r : ℕ) (s : Shared) → Reach n r s → Inv n s
Reach-Inv n r s (started a b) = threads_run-Inv n r a b
Reach-Inv n r s (moved {s = u} i p lt h) =
    subst (Ensures (Inv n)) h (step-Inv n u (Reach-Inv n r u p) i lt)

-- In a reachable state of the two-semaphore version, while one thread writes, no other thread reads
-- or writes.
pub writer_excludes :
    (n r : ℕ) (s : Shared)
    → Reach n r s
    → (i j : ℕ) → i < n
    → j < n
    → i ≢ j
    → s.thread i ≡ writing_now
    → (s.thread j ≢ reading) × (s.thread j ≢ writing_now)
writer_excludes n r s p i j h k ne e = (
  λ f.
      let inv = Reach-Inv n r s p in
      ground (
        arith,
        inv.counted,
        inv.one_writer,
        inv.first_alone,
        e,
        f,
        le-sum_of writes n s.thread i h,
        le-sum_of inside n s.thread j k,
      ),
  λ f.
      let inv = Reach-Inv n r s p in
      ground (
        arith,
        inv.counted,
        inv.one_writer,
        inv.first_alone,
        e,
        f,
        pair-le-sum_of writes n s.thread i j h k ne,
      ),
)

-- What the count is for the reader that waits for `writer_sem`, and for one about to be counted out.
abbrev pub CountFits : Pc → ℕ → Type 0
CountFits r_first curr_readers = curr_readers ≡ 1
CountFits r_uncount curr_readers = 1 ≤ curr_readers
CountFits _ curr_readers = Unit

-- In a reachable state of the two-semaphore version, the reader that waits for `writer_sem` is the only
-- one counted, and a reader that is about to be counted out finds a count of 1 or more.
pub count_fits :
    (n r : ℕ) (s : Shared) → Reach n r s → (i : ℕ) → i < n → CountFits (s.thread i) s.curr_readers
count_fits n r s p i h =
    let inv = Reach-Inv n r s p in
    fits (s.thread i) s.curr_readers
      (ground (arith, inv.first_alone, le-sum_of firsts n s.thread i h))
      (ground (arith, inv.counted, le-sum_of inside n s.thread i h))
  where
    fits : (p : Pc) (c : ℕ) → (firsts p ≡ 0) ⊎ (c ≡ 1) → inside p ≤ c → CountFits p c
    fits p c a b = ground (arith, a, b)
