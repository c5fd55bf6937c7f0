-- ===== src/ReadersWriters/Monitor/Safety.antt =====
-- What holds in every interleaving of the readers and the writers.
use sysopy_all.Base.{
  Ensures, ℕ, ◌+◌, ◌≤◌, ◌<◌, ◌≡◌, ◌≢◌, refl, some, arith, subst, inl, inr, sum_of, sum_of-each_zero,
  ltb, if◌then◌else◌, Bool-cases, pair-le-sum_of,
}
use sysopy_all.ReadersWriters.Monitor.{
  Pc, r_lock, r_enter, reading, r_leave, w_lock, writing_now, w_leave, w_drop, Shared, Event, step,
}
use sysopy_all.ReadersWriters.Monitor.Invariant.{
  holds, reads, writes, claims, Passed, Inv, reads-le, writes-le, claims-le,
}
use sysopy_all.ReadersWriters.Monitor.Steps.{step-Inv, thread_of}

-- The threads as `threads_run` starts them: the first `r` read and the others write.
abbrev pub first_pc : ℕ → ℕ → Pc
first_pc r i = if ltb i r then r_lock else w_lock

abbrev pub threads_run : ℕ → Shared
threads_run r = record {
  mutex = 1;
  checker = 0;
  writing = 0;
  actual_readers = 0;
  thread = first_pc r;
}

-- The states that `n` threads reach, the first `r` of them readers.
pub data Reach (n r : ℕ) : Shared → Type 0 where
  started : Reach n r (threads_run r)
  moved :
      {s t : Shared} (e : Event) → Reach n r s → thread_of e < n → step e s ≡ some t → Reach n r t

first_pc-idle : (r i : ℕ) (w : Pc → ℕ) → w r_lock ≡ 0 → w w_lock ≡ 0 → w (first_pc r i) ≡ 0
first_pc-idle r i w a b = elim (Bool-cases (ltb i r)) [ inl t ↦ rw t a | inr t ↦ rw t b ]

first_pc-Passed : (r i : ℕ) → Passed (first_pc r i) 0 0 0
first_pc-Passed r i = elim (Bool-cases (ltb i r)) [ inl t ↦ rw t tt | inr t ↦ rw t tt ]

threads_run-Inv : (n r : ℕ) → Inv n (threads_run r)
threads_run-Inv n r = record {
  one_mutex =
      omega (arith, sum_of-each_zero holds n (first_pc r) (λ i. first_pc-idle r i holds refl refl));
  readers =
      omega (arith, sum_of-each_zero reads n (first_pc r) (λ i. first_pc-idle r i reads refl refl));
  writers =
      omega
        (arith, sum_of-each_zero writes n (first_pc r) (λ i. first_pc-idle r i writes refl refl));
  claimed =
      omega
        (arith, sum_of-each_zero claims n (first_pc r) (λ i. first_pc-idle r i claims refl refl));
  passed = λ i lt. first_pc-Passed r i;
  exclusive = (omega arith, inl refl);
}

Reach-Inv : (n r : ℕ) (s : Shared) → Reach n r s → Inv n s
Reach-Inv n r s started = threads_run-Inv n r
Reach-Inv n r s (moved {s = u} e p lt h) =
    subst (Ensures (Inv n)) h (step-Inv n u (Reach-Inv n r u p) e lt)

-- In a reachable state, while one thread writes, no other thread reads or writes.
pub writer_alone :
    (n r : ℕ) (s : Shared)
    → Reach n r s
    → (i j : ℕ) → i < n
    → j < n
    → i ≢ j
    → s.thread i ≡ writing_now
    → (s.thread j ≢ reading) × (s.thread j ≢ writing_now)
writer_alone n r s p i j h k ne e = (
  λ f.
      let inv = Reach-Inv n r s p in
      ground (arith, inv.exclusive, e, f, writes-le n s inv i h, reads-le n s inv j k),
  λ f.
      let inv = Reach-Inv n r s p in
      ground (arith, inv.exclusive, inv.writers, e, f, pair-le-sum_of writes n s.thread i j h k ne),
)

-- In a reachable state in which a reader is about to be counted in, no writer waits for its turn,
-- writes, or has yet to lower `checker`.
pub writers_first :
    (n r : ℕ) (s : Shared)
    → Reach n r s
    → (i j : ℕ) → i < n
    → j < n
    → s.thread i ≡ r_enter
    → claims (s.thread j) ≡ 0
writers_first n r s p i j h k e =
    let inv = Reach-Inv n r s p in
    omega (
      arith,
      claims-le n s inv j k,
      subst (λ q. Passed q s.checker s.actual_readers s.writing) e (inv.passed i h),
    )

-- In a reachable state at most one thread has the mutex, and none while it is free.
pub one_holder :
    (n r : ℕ) (s : Shared)
    → Reach n r s
    → (i j : ℕ) → i < n
    → j < n
    → i ≢ j
    → s.mutex + holds (s.thread i) + holds (s.thread j) ≤ 1
one_holder n r s p i j h k ne =
    let inv = Reach-Inv n r s p in
    omega (arith, inv.one_mutex, pair-le-sum_of holds n s.thread i j h k ne)

-- In a reachable state the three counts are the numbers of the threads that they stand for: readers
-- counted in and not out, writers that write, and writers that wait or write.
pub counts_exact :
    (n r : ℕ) (s : Shared)
    → Reach n r s
    → (s.actual_readers ≡ sum_of reads n s.thread)
      × (s.writing ≡ sum_of writes n s.thread)
      × (s.checker ≡ sum_of claims n s.thread)
counts_exact n r s p = let inv = Reach-Inv n r s p in (inv.readers, inv.writers, inv.claimed)

-- The count that a thread is about to decrement is 1 or more.
abbrev pub CountsFit : Pc → Shared → Type 0
CountsFit r_leave s = 1 ≤ s.actual_readers
CountsFit w_leave s = 1 ≤ s.writing
CountsFit w_drop s = 1 ≤ s.checker
CountsFit _ s = Unit

-- In a reachable state a thread that is about to decrement a count finds it at 1 or above.
pub never_below_zero :
    (n r : ℕ) (s : Shared) → Reach n r s → (i : ℕ) → i < n → CountsFit (s.thread i) s
never_below_zero n r s p i h =
    let inv = Reach-Inv n r s p in
    fits (s.thread i) (reads-le n s inv i h) (writes-le n s inv i h) (claims-le n s inv i h)
  where
    fits :
        (p : Pc)
        → reads p ≤ s.actual_readers
        → writes p ≤ s.writing
        → claims p ≤ s.checker
        → CountsFit p s
    fits p a b c = ground (arith, a, b, c)
