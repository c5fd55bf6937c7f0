-- ===== src/ReadersWriters/Monitor/Steps.antt =====
-- Each step keeps the invariant.
use sysopy_all.Base.{
  Ensures, ℕ, suc, ◌-◌, ◌≤◌, ◌<◌, ◌≡◌, refl, ◌⊎◌, inl, inr, arith, ◌==◌, Bool-cases, ap, subst,
  ◌&&◌, sum_of-alike, ==_iff,
}
use sysopy_all.ReadersWriters.Monitor.{
  Pc, r_lock, r_test, r_blocked, r_relock, r_enter, r_unlock, reading, r_lock_again, r_leave,
  r_broadcast, r_unlock_again, w_lock, w_claim, w_test, w_blocked, w_relock, w_enter, w_unlock,
  writing_now, w_lock_again, w_leave, w_drop, w_broadcast, w_unlock_again, Shared, goto, woken,
  broadcast, is_reader, reader_thread, writer_thread, thread_step, Event, runs, wakes, step,
}
use sysopy_all.ReadersWriters.Monitor.Invariant.{
  holds, reads, writes, claims, Passed, Inv, Alike, take, give, go_on, count, reads-le, writes-le,
  claims-le, writing-le-checker,
}

-- A broadcast changes no weight, and no test's outcome.
broadcast-Inv : (n : ℕ) (s : Shared) → Inv n s → Inv n (broadcast s)
broadcast-Inv n s inv = record {
  one_mutex = omega (
    arith,
    inv.one_mutex,
    sum_of-alike holds n s.thread (broadcast s).thread (λ i. same-holds (s.thread i)),
  );
  readers = omega (
    arith,
    inv.readers,
    sum_of-alike reads n s.thread (broadcast s).thread (λ i. same-reads (s.thread i)),
  );
  writers = omega (
    arith,
    inv.writers,
    sum_of-alike writes n s.thread (broadcast s).thread (λ i. same-writes (s.thread i)),
  );
  claimed = omega (
    arith,
    inv.claimed,
    sum_of-alike claims n s.thread (broadcast s).thread (λ i. same-claims (s.thread i)),
  );
  passed = λ i lt. same-Passed (s.thread i) (inv.passed i lt);
  exclusive = inv.exclusive;
}
  where
    same-holds : (p : Pc) → holds p ≡ holds (woken p)
    same-holds p = ground arith

    same-reads : (p : Pc) → reads p ≡ reads (woken p)
    same-reads p = ground arith

    same-writes : (p : Pc) → writes p ≡ writes (woken p)
    same-writes p = ground arith

    same-claims : (p : Pc) → claims p ≡ claims (woken p)
    same-claims p = ground arith

    same-Passed :
        (p : Pc)
        → Passed p s.checker s.actual_readers s.writing
        → Passed (woken p) s.checker s.actual_readers s.writing
    same-Passed r_enter h = h
    same-Passed w_enter h = h
    same-Passed r_blocked h = tt
    same-Passed w_blocked h = tt
    same-Passed p h = h

module _ (n : ℕ) (s : Shared) (inv : Inv n s) (i : ℕ) (lt : i < n) where
  -- Both places have the same weights, and no test was passed on the way.
  alike :
      (p p' : Pc)
      → s.thread i ≡ p
      → reads p' ≡ reads p
      → writes p' ≡ writes p
      → claims p' ≡ claims p
      → Passed p' s.checker s.actual_readers s.writing
      → Alike n s inv i lt p p'
  alike p p' e a b c d = record {
    here = e;
    reads_alike = a;
    writes_alike = b;
    claims_alike = c;
    still = d;
  }

  Passed-at : (p : Pc) → s.thread i ≡ p → Passed p s.checker s.actual_readers s.writing
  Passed-at p e = subst (λ q. Passed q s.checker s.actual_readers s.writing) e (inv.passed i lt)

  first_reader : s.checker ≡ 0 → (s.writing ≤ 1) × ((s.writing ≡ 0) ⊎ (suc s.actual_readers ≡ 0))
  first_reader e = ground (arith, e, writing-le-checker n s inv i lt)

  first_writer :
      (s.actual_readers ≡ 0) × (s.writing ≡ 0)
      → (suc s.writing ≤ 1) × ((suc s.writing ≡ 0) ⊎ (s.actual_readers ≡ 0))
  first_writer e = (omega (arith, e.1), inr e.0)

  let_in : s.thread i ≡ r_test → Ensures (Inv n) (reader_thread r_test i s)
  unfolding reader_thread
  let_in e = elim (Bool-cases (s.checker == 0)) [
    | inl t ↦ rw t (
        go_on n s inv i lt r_test r_enter
          (alike r_test r_enter e refl refl refl ((==_iff s.checker 0).0 t)) refl)
    | inr t ↦
        rw t (
          give n s inv i lt r_test r_blocked (alike r_test r_blocked e refl refl refl tt) refl refl)
  ]

  reader-Inv : (p : Pc) → s.thread i ≡ p → Ensures (Inv n) (reader_thread p i s)
  unfolding reader_thread
  reader-Inv r_lock e =
      take n s inv i lt r_lock r_test (alike r_lock r_test e refl refl refl tt) refl refl
  reader-Inv r_test e = let_in e
  reader-Inv r_relock e =
      take n s inv i lt r_relock r_test (alike r_relock r_test e refl refl refl tt) refl refl
  reader-Inv r_enter e =
      count n s inv i lt s.checker s.writing (suc s.actual_readers) r_enter r_unlock e refl refl
        (omega arith) refl refl tt (first_reader (Passed-at r_enter e))
  reader-Inv r_unlock e =
      give n s inv i lt r_unlock reading (alike r_unlock reading e refl refl refl tt) refl refl
  reader-Inv reading e =
      go_on n s inv i lt reading r_lock_again (alike reading r_lock_again e refl refl refl tt) refl
  reader-Inv r_lock_again e =
      take n s inv i lt r_lock_again r_leave (alike r_lock_again r_leave e refl refl refl tt) refl
        refl
  reader-Inv r_leave e =
      count n s inv i lt s.checker s.writing (s.actual_readers - 1) r_leave r_broadcast e refl refl
        (ground (arith, e, reads-le n s inv i lt)) refl refl tt (ground (arith, inv.exclusive))
  reader-Inv r_broadcast e =
      go_on n (broadcast s) (broadcast-Inv n s inv) i lt r_broadcast r_unlock_again
        (record {
          here = ap woken e;
          reads_alike = refl;
          writes_alike = refl;
          claims_alike = refl;
          still = tt;
        })
        refl
  reader-Inv r_unlock_again e =
      give n s inv i lt r_unlock_again r_lock (alike r_unlock_again r_lock e refl refl refl tt) refl
        refl
  reader-Inv _ e = tt

  let_write : s.thread i ≡ w_test → Ensures (Inv n) (writer_thread w_test i s)
  unfolding writer_thread
  let_write e = elim (Bool-cases ((s.actual_readers == 0) && (s.writing == 0))) [
    | inl t ↦ rw t (
        go_on n s inv i lt w_test w_enter
          (alike w_test w_enter e refl refl refl (ground (arith, t))) refl)
    | inr t ↦
        rw t (
          give n s inv i lt w_test w_blocked (alike w_test w_blocked e refl refl refl tt) refl refl)
  ]

  writer-Inv : (p : Pc) → s.thread i ≡ p → Ensures (Inv n) (writer_thread p i s)
  unfolding writer_thread
  writer-Inv w_lock e =
      take n s inv i lt w_lock w_claim (alike w_lock w_claim e refl refl refl tt) refl refl
  writer-Inv w_claim e =
      count n s inv i lt (suc s.checker) s.writing s.actual_readers w_claim w_test e refl refl refl
        refl (omega arith) tt inv.exclusive
  writer-Inv w_test e = let_write e
  writer-Inv w_relock e =
      take n s inv i lt w_relock w_test (alike w_relock w_test e refl refl refl tt) refl refl
  writer-Inv w_enter e =
      count n s inv i lt s.checker (suc s.writing) s.actual_readers w_enter w_unlock e refl refl
        refl (omega arith) refl tt (first_writer (Passed-at w_enter e))
  writer-Inv w_unlock e =
      give n s inv i lt w_unlock writing_now (alike w_unlock writing_now e refl refl refl tt) refl
        refl
  writer-Inv writing_now e =
      go_on n s inv i lt writing_now w_lock_again
        (alike writing_now w_lock_again e refl refl refl tt) refl
  writer-Inv w_lock_again e =
      take n s inv i lt w_lock_again w_leave (alike w_lock_again w_leave e refl refl refl tt) refl
        refl
  writer-Inv w_leave e =
      count n s inv i lt s.checker (s.writing - 1) s.actual_readers w_leave w_drop e refl refl refl
        (ground (arith, e, writes-le n s inv i lt)) refl tt (ground (arith, inv.exclusive))
  writer-Inv w_drop e =
      count n s inv i lt (s.checker - 1) s.writing s.actual_readers w_drop w_broadcast e refl refl
        refl refl (ground (arith, e, claims-le n s inv i lt)) tt inv.exclusive
  writer-Inv w_broadcast e =
      go_on n (broadcast s) (broadcast-Inv n s inv) i lt w_broadcast w_unlock_again
        (record {
          here = ap woken e;
          reads_alike = refl;
          writes_alike = refl;
          claims_alike = refl;
          still = tt;
        })
        refl
  writer-Inv w_unlock_again e =
      give n s inv i lt w_unlock_again w_lock (alike w_unlock_again w_lock e refl refl refl tt) refl
        refl
  writer-Inv _ e = tt

  thread_step-Inv : (p : Pc) → s.thread i ≡ p → Ensures (Inv n) (thread_step p i s)
  unfolding thread_step
  thread_step-Inv p e = elim (Bool-cases (is_reader p)) [
    | inl t ↦ rw t (reader-Inv p e)
    | inr t ↦ rw t (writer-Inv p e)
  ]

  wakes-Inv : (p : Pc) → s.thread i ≡ p → Inv n (goto s i (woken p))
  wakes-Inv r_blocked e =
      go_on n s inv i lt r_blocked r_relock (alike r_blocked r_relock e refl refl refl tt) refl
  wakes-Inv w_blocked e =
      go_on n s inv i lt w_blocked w_relock (alike w_blocked w_relock e refl refl refl tt) refl
  wakes-Inv p e = go_on n s inv i lt p p (alike p p e refl refl refl (Passed-at p e)) refl

abbrev pub thread_of : Event → ℕ
thread_of (runs i) = i
thread_of (wakes i) = i

pub step-Inv :
    (n : ℕ) (s : Shared) → Inv n s → (e : Event) → thread_of e < n → Ensures (Inv n) (step e s)
unfolding step
step-Inv n s inv (runs i) lt = thread_step-Inv n s inv i lt (s.thread i) refl
step-Inv n s inv (wakes i) lt = wakes-Inv n s inv i lt (s.thread i) refl
