-- ===== src/ReadersWriters/Monitor/Invariant.antt =====
-- What the mutex and the three counts say about where the threads stand.
use sysopy_all.Base.{
  Ensures, ℕ, zero, suc, ◌+◌, ◌≤◌, ◌<◌, ◌≡◌, refl, ◌≢◌, ◌⊎◌, none, some, arith, put, sum_of,
  sum_of-put, pair-le-sum_of, sum_of_mono, le-sum_of,
}
use sysopy_all.ReadersWriters.Monitor.{
  Pc, r_test, r_enter, r_unlock, reading, r_lock_again, r_leave, r_broadcast, r_unlock_again,
  w_claim, w_test, w_blocked, w_relock, w_enter, w_unlock, writing_now, w_lock_again, w_leave,
  w_drop, w_broadcast, w_unlock_again, Shared, goto, lock,
}

-- 1 for a thread that has the mutex.
abbrev pub holds : Pc → ℕ
holds r_test = 1
holds r_enter = 1
holds r_unlock = 1
holds r_leave = 1
holds r_broadcast = 1
holds r_unlock_again = 1
holds w_claim = 1
holds w_test = 1
holds w_enter = 1
holds w_unlock = 1
holds w_leave = 1
holds w_drop = 1
holds w_broadcast = 1
holds w_unlock_again = 1
holds _ = 0

-- 1 for a reader that `actual_readers` counts.
abbrev pub reads : Pc → ℕ
reads r_unlock = 1
reads reading = 1
reads r_lock_again = 1
reads r_leave = 1
reads _ = 0

-- 1 for a writer that `writing` counts.
abbrev pub writes : Pc → ℕ
writes w_unlock = 1
writes writing_now = 1
writes w_lock_again = 1
writes w_leave = 1
writes _ = 0

-- 1 for a writer that `checker` counts: it waits or writes.
abbrev pub claims : Pc → ℕ
claims w_test = 1
claims w_blocked = 1
claims w_relock = 1
claims w_enter = 1
claims w_drop = 1
claims p = writes p

-- What a test that was passed still says.
abbrev pub Passed : Pc → ℕ → ℕ → ℕ → Type 0
Passed r_enter checker readers writing = checker ≡ 0
Passed w_enter checker readers writing = (readers ≡ 0) × (writing ≡ 0)
Passed _ checker readers writing = Unit

pub record Inv (n : ℕ) (s : Shared) : Type 0 where
  pub one_mutex : s.mutex + sum_of holds n s.thread ≡ 1
  pub readers : s.actual_readers ≡ sum_of reads n s.thread
  pub writers : s.writing ≡ sum_of writes n s.thread
  pub claimed : s.checker ≡ sum_of claims n s.thread
  pub passed : (i : ℕ) → i < n → Passed (s.thread i) s.checker s.actual_readers s.writing
  pub exclusive : (s.writing ≤ 1) × ((s.writing ≡ 0) ⊎ (s.actual_readers ≡ 0))

module _ (n : ℕ) (s : Shared) (inv : Inv n s) (i : ℕ) (lt : i < n) where
  -- A step of thread `i` from `p` to `p'`, with the new mutex and counts.
  pub record Change (m c w r : ℕ) (p p' : Pc) : Type 0 where
    pub here : s.thread i ≡ p
    mutex : m + holds p' ≡ s.mutex + holds p
    readers : r + reads p ≡ s.actual_readers + reads p'
    writers : w + writes p ≡ s.writing + writes p'
    claimed : c + claims p ≡ s.checker + claims p'
    self : Passed p' c r w
    rest : (j : ℕ) → i ≢ j → j < n → Passed (s.thread j) c r w
    exclusive : (w ≤ 1) × ((w ≡ 0) ⊎ (r ≡ 0))

  Change-Inv :
      (m c w r : ℕ) (p p' : Pc)
      → Change m c w r p p'
      → Inv n (record {
        mutex = m;
        checker = c;
        writing = w;
        actual_readers = r;
        thread = put s.thread i p';
      })
  Change-Inv m c w r p p' h = record {
    one_mutex = ground (arith, h.here, h.mutex, inv.one_mutex, sum_of-put holds n s.thread i p' lt);
    readers = ground (arith, h.here, h.readers, inv.readers, sum_of-put reads n s.thread i p' lt);
    writers = ground (arith, h.here, h.writers, inv.writers, sum_of-put writes n s.thread i p' lt);
    claimed = ground (arith, h.here, h.claimed, inv.claimed, sum_of-put claims n s.thread i p' lt);
    passed = λ j k. ground (arith, h.self, h.rest j);
    exclusive = h.exclusive;
  }

  -- A step that changes no count.
  move :
      (m : ℕ) (p p' : Pc)
      → s.thread i ≡ p
      → m + holds p' ≡ s.mutex + holds p
      → reads p' ≡ reads p
      → writes p' ≡ writes p
      → claims p' ≡ claims p
      → Passed p' s.checker s.actual_readers s.writing
      → Inv n (goto (record s { mutex = m }) i p')
  move m p p' here a b c d e = Change-Inv m s.checker s.writing s.actual_readers p p' (record {
    here = here;
    mutex = a;
    readers = omega arith;
    writers = omega arith;
    claimed = omega arith;
    self = e;
    rest = λ j h k. inv.passed j k;
    exclusive = inv.exclusive;
  })

  -- The premises of `move` for the change from `p` to `p'`, the mutex aside.
  pub record Alike (p p' : Pc) : Type 0 where
    pub here : s.thread i ≡ p
    pub reads_alike : reads p' ≡ reads p
    pub writes_alike : writes p' ≡ writes p
    pub claims_alike : claims p' ≡ claims p
    pub still : Passed p' s.checker s.actual_readers s.writing

  pub take : (p p' : Pc) → Alike p p' → holds p ≡ 0 → holds p' ≡ 1 → Ensures (Inv n) (lock s i p')
  take p p' a x y = go s.mutex refl
    where
      go :
          (m : ℕ)
          → s.mutex ≡ m
          → Ensures
              (Inv n)
              (elim m [ zero ↦ none | suc k ↦ some (goto (record s { mutex = k }) i p') ])
      go zero e = tt
      go (suc k) e =
          move k p p' a.here (omega arith) a.reads_alike a.writes_alike a.claims_alike a.still

  pub give :
      (p p' : Pc)
      → Alike p p'
      → holds p ≡ 1
      → holds p' ≡ 0
      → Inv n (goto (record s { mutex = suc s.mutex }) i p')
  give p p' a x y =
      move (suc s.mutex) p p' a.here (omega arith) a.reads_alike a.writes_alike a.claims_alike
        a.still

  pub go_on : (p p' : Pc) → Alike p p' → holds p' ≡ holds p → Inv n (goto s i p')
  go_on p p' a x =
      move s.mutex p p' a.here (omega arith) a.reads_alike a.writes_alike a.claims_alike a.still

  -- A step that changes a count, with the mutex held: no other thread has passed a test.
  pub count :
      (c w r : ℕ) (p p' : Pc)
      → s.thread i ≡ p
      → holds p ≡ 1
      → holds p' ≡ 1
      → r + reads p ≡ s.actual_readers + reads p'
      → w + writes p ≡ s.writing + writes p'
      → c + claims p ≡ s.checker + claims p'
      → Passed p' c r w
      → (w ≤ 1) × ((w ≡ 0) ⊎ (r ≡ 0))
      → Inv n (goto (record s { checker = c; writing = w; actual_readers = r }) i p')
  count c w r p p' here x y a b d e f = Change-Inv s.mutex c w r p p' (record {
    here = here;
    mutex = omega arith;
    readers = a;
    writers = b;
    claimed = d;
    self = e;
    rest = λ j ne k. ground (arith, pair-le-sum_of holds n s.thread i j lt k ne, inv.one_mutex);
    exclusive = f;
  })

  -- Thread `i` is among those that the counts count.
  pub reads-le : reads (s.thread i) ≤ s.actual_readers
  reads-le = omega (arith, le-sum_of reads n s.thread i lt, inv.readers)

  pub writes-le : writes (s.thread i) ≤ s.writing
  writes-le = omega (arith, le-sum_of writes n s.thread i lt, inv.writers)

  pub claims-le : claims (s.thread i) ≤ s.checker
  claims-le = omega (arith, le-sum_of claims n s.thread i lt, inv.claimed)

  -- Every writer that writes is claimed.
  pub writing-le-checker : s.writing ≤ s.checker
  writing-le-checker =
      omega
        (arith, inv.writers, inv.claimed, sum_of_mono writes claims (λ p. ground arith) n s.thread)
