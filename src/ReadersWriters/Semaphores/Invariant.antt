-- ===== src/ReadersWriters/Semaphores/Invariant.antt =====
-- What the two semaphores and the count say about where the threads stand.
use sysopy_all.Base.{
  Ensures, ℕ, zero, suc, ◌+◌, ◌-◌, ◌≤◌, ◌<◌, ◌≡◌, refl, ◌⊎◌, inl, inr, none, some, arith, ◌==◌,
  Bool-cases, ltb, put, sum_of, sum_of-put, le-sum_of,
}
use sysopy_all.ReadersWriters.Semaphores.{
  Pc, r_test, r_wait, r_count, r_first, r_post, reading, r_wait_again, r_uncount, r_last,
  r_post_again, w_test, w_wait, writing_now, w_post, returned, loop_test, Shared, goto, wait_reader,
  wait_writer, reader_thread, writer_thread, is_writer, step,
}

-- 1 for the reader that is about to take `writer_sem` for all readers; it has `reader_sem`.
abbrev pub firsts : Pc → ℕ
firsts r_first = 1
firsts _ = 0

-- 1 for any other reader with `reader_sem`.
abbrev pub others : Pc → ℕ
others r_count = 1
others r_post = 1
others r_uncount = 1
others r_last = 1
others r_post_again = 1
others _ = 0

-- 1 for a reader that `curr_readers` counts and for which `writer_sem` is taken.
abbrev pub inside : Pc → ℕ
inside r_post = 1
inside reading = 1
inside r_wait_again = 1
inside r_uncount = 1
inside _ = 0

-- 1 for a reader that is about to give `writer_sem` back for all readers.
abbrev pub lasts : Pc → ℕ
lasts r_last = 1
lasts _ = 0

-- 1 for a writer with `writer_sem`.
abbrev pub writes : Pc → ℕ
writes writing_now = 1
writes w_post = 1
writes _ = 0

abbrev pub any : ℕ → ℕ
any zero = 0
any (suc n) = 1

pub record Inv (n : ℕ) (s : Shared) : Type 0 where
  pub one_reader : s.reader_sem + sum_of others n s.thread + sum_of firsts n s.thread ≡ 1
  pub counted : s.curr_readers ≡ sum_of inside n s.thread + sum_of firsts n s.thread
  pub one_writer :
      s.writer_sem + sum_of writes n s.thread + any s.curr_readers + sum_of lasts n s.thread
      ≡ 1 + sum_of firsts n s.thread
  pub first_alone : (sum_of firsts n s.thread ≡ 0) ⊎ (s.curr_readers ≡ 1)

rounds-Inv : {n : ℕ} (s : Shared) (rounds : ℕ → ℕ) → Inv n s → Inv n (record s { rounds = rounds })
rounds-Inv s rounds h = record {
  one_reader = h.one_reader;
  counted = h.counted;
  one_writer = h.one_writer;
  first_alone = h.first_alone;
}

module _ (n : ℕ) (s : Shared) (inv : Inv n s) (i : ℕ) (lt : i < n) where
  -- A step of thread `i` from `p` to `p'`, with the new semaphores and count.
  record Change (rs ws c : ℕ) (p p' : Pc) : Type 0 where
    here : s.thread i ≡ p
    reader_sem : rs + others p' + firsts p' ≡ s.reader_sem + others p + firsts p
    curr_readers : c + inside p + firsts p ≡ s.curr_readers + inside p' + firsts p'
    writer_sem :
        ws + writes p' + any c + lasts p' + firsts p
        ≡ s.writer_sem + writes p + any s.curr_readers + lasts p + firsts p'
    first :
        ((c ≡ s.curr_readers) × (firsts p' ≤ firsts p))
        ⊎ ((c ≡ 1) ⊎ ((others p ≡ 1) × (firsts p' ≡ 0)))

  Change-Inv :
      (rs ws c : ℕ) (p p' : Pc)
      → Change rs ws c p p'
      → Inv n (record s {
        reader_sem = rs;
        writer_sem = ws;
        curr_readers = c;
        thread = put s.thread i p';
      })
  Change-Inv rs ws c p p' h = record {
    one_reader = ground (arith, h.here, h.reader_sem, inv.one_reader, new_others, new_firsts);
    counted = ground (
      arith,
      h.here,
      h.curr_readers,
      inv.counted,
      sum_of-put inside n s.thread i p' lt,
      new_firsts,
    );
    one_writer = ground (
      arith,
      h.here,
      h.writer_sem,
      inv.one_writer,
      sum_of-put writes n s.thread i p' lt,
      sum_of-put lasts n s.thread i p' lt,
      new_firsts,
    );
    first_alone = ground (
      arith,
      h.here,
      h.first,
      inv.first_alone,
      inv.one_reader,
      le-sum_of others n s.thread i lt,
      new_firsts,
    );
  }
    where
      new_firsts :
          sum_of firsts n (put s.thread i p') + firsts (s.thread i)
          ≡ sum_of firsts n s.thread + firsts p'
      new_firsts = sum_of-put firsts n s.thread i p' lt

      new_others :
          sum_of others n (put s.thread i p') + others (s.thread i)
          ≡ sum_of others n s.thread + others p'
      new_others = sum_of-put others n s.thread i p' lt

  go_on :
      (c : ℕ) (p p' : Pc)
      → Change s.reader_sem s.writer_sem c p p'
      → Inv n (goto (record s { curr_readers = c }) i p')
  go_on c p p' h = Change-Inv s.reader_sem s.writer_sem c p p' h

  loop_test-Inv :
      (number : ℕ) (p p' : Pc)
      → Change s.reader_sem s.writer_sem s.curr_readers p p'
      → Change s.reader_sem s.writer_sem s.curr_readers p returned
      → Inv n (loop_test s i number p')
  loop_test-Inv number p p' h k = elim (Bool-cases (ltb (s.rounds i) number)) [
    | inl t ↦
        rw t (
          rounds-Inv (goto s i p') (put s.rounds i (suc (s.rounds i)))
            (go_on s.curr_readers p p' h))
    | inr t ↦ rw t (go_on s.curr_readers p returned k)
  ]

  wait_reader-Inv :
      (p p' : Pc)
      → ((m : ℕ) → s.reader_sem ≡ suc m → Change m s.writer_sem s.curr_readers p p')
      → Ensures (Inv n) (wait_reader s i p')
  wait_reader-Inv p p' h = go s.reader_sem refl
    where
      go :
          (m : ℕ)
          → s.reader_sem ≡ m
          → Ensures
              (Inv n)
              (elim m [ zero ↦ none | suc k ↦ some (goto (record s { reader_sem = k }) i p') ])
      go zero e = tt
      go (suc k) e = Change-Inv k s.writer_sem s.curr_readers p p' (h k e)

  wait_writer-Inv :
      (p p' : Pc)
      → ((m : ℕ) → s.writer_sem ≡ suc m → Change s.reader_sem m s.curr_readers p p')
      → Ensures (Inv n) (wait_writer s i p')
  wait_writer-Inv p p' h = go s.writer_sem refl
    where
      go :
          (m : ℕ)
          → s.writer_sem ≡ m
          → Ensures
              (Inv n)
              (elim m [ zero ↦ none | suc k ↦ some (goto (record s { writer_sem = k }) i p') ])
      go zero e = tt
      go (suc k) e = Change-Inv s.reader_sem k s.curr_readers p p' (h k e)

  -- The count, and where its test sends the reader.
  count_in : s.thread i ≡ r_count → Ensures (Inv n) (reader_thread r_count i s)
  unfolding reader_thread
  count_in e = elim (Bool-cases (suc s.curr_readers == 1)) [
    | inl t ↦ rw t (
        go_on (suc s.curr_readers) r_count r_first (record {
          here = e;
          reader_sem = omega arith;
          curr_readers = omega arith;
          writer_sem = ground (arith, t);
          first = ground (arith, t);
        }))
    | inr t ↦ rw t (
        go_on (suc s.curr_readers) r_count r_post (record {
          here = e;
          reader_sem = omega arith;
          curr_readers = omega arith;
          writer_sem = ground (arith, t);
          first = inr (inr (refl, refl));
        }))
  ]

  count_out : s.thread i ≡ r_uncount → Ensures (Inv n) (reader_thread r_uncount i s)
  unfolding reader_thread
  count_out e = elim (Bool-cases ((s.curr_readers - 1) == 0)) [
    | inl t ↦ rw t (
        go_on (s.curr_readers - 1) r_uncount r_last (record {
          here = e;
          reader_sem = omega arith;
          curr_readers = omega (arith, at_least_one);
          writer_sem = ground (arith, t, at_least_one);
          first = inr (inr (refl, refl));
        }))
    | inr t ↦ rw t (
        go_on (s.curr_readers - 1) r_uncount r_post_again (record {
          here = e;
          reader_sem = omega arith;
          curr_readers = omega (arith, at_least_one);
          writer_sem = ground (arith, t, at_least_one);
          first = inr (inr (refl, refl));
        }))
  ]
    where
      at_least_one : 1 ≤ s.curr_readers
      at_least_one = ground (arith, e, inv.counted, le-sum_of inside n s.thread i lt)

  -- A step that leaves the count as it is.
  plain :
      (rs ws : ℕ) (p p' : Pc)
      → s.thread i ≡ p
      → rs + others p' + firsts p' ≡ s.reader_sem + others p + firsts p
      → inside p + firsts p ≡ inside p' + firsts p'
      → ws + writes p' + lasts p' + firsts p ≡ s.writer_sem + writes p + lasts p + firsts p'
      → firsts p' ≤ firsts p
      → Change rs ws s.curr_readers p p'
  plain rs ws p p' e a b c d = record {
    here = e;
    reader_sem = a;
    curr_readers = omega arith;
    writer_sem = omega arith;
    first = inl (refl, d);
  }

  reader-Inv : (p : Pc) → s.thread i ≡ p → Ensures (Inv n) (reader_thread p i s)
  unfolding reader_thread
  reader-Inv r_test e =
      loop_test-Inv s.reader_reads_number r_test r_wait
        (plain s.reader_sem s.writer_sem r_test r_wait e refl refl refl (omega arith))
        (plain s.reader_sem s.writer_sem r_test returned e refl refl refl (omega arith))
  reader-Inv r_wait e =
      wait_reader-Inv r_wait r_count
        λ m h. plain m s.writer_sem r_wait r_count e (omega arith) refl (omega arith) (omega arith)
  reader-Inv r_count e = count_in e
  reader-Inv r_first e =
      wait_writer-Inv r_first r_post
        λ m h. plain s.reader_sem m r_first r_post e (omega arith) refl (omega arith) (omega arith)
  reader-Inv r_post e = Change-Inv (suc s.reader_sem) s.writer_sem s.curr_readers r_post reading (
      plain (suc s.reader_sem) s.writer_sem r_post reading e (omega arith) refl (omega arith)
        (omega arith))
  reader-Inv reading e =
      go_on s.curr_readers reading r_wait_again (
        plain s.reader_sem s.writer_sem reading r_wait_again e refl refl (omega arith)
          (omega arith))
  reader-Inv r_wait_again e = wait_reader-Inv r_wait_again r_uncount λ m h.
      plain m s.writer_sem r_wait_again r_uncount e (omega arith) refl (omega arith) (omega arith)
  reader-Inv r_uncount e = count_out e
  reader-Inv r_last e =
      Change-Inv s.reader_sem (suc s.writer_sem) s.curr_readers r_last r_post_again (
        plain s.reader_sem (suc s.writer_sem) r_last r_post_again e refl refl (omega arith)
          (omega arith))
  reader-Inv r_post_again e =
      Change-Inv (suc s.reader_sem) s.writer_sem s.curr_readers r_post_again r_test (
        plain (suc s.reader_sem) s.writer_sem r_post_again r_test e (omega arith) refl (omega arith)
          (omega arith))
  reader-Inv _ e = tt

  writer-Inv : (p : Pc) → s.thread i ≡ p → Ensures (Inv n) (writer_thread p i s)
  unfolding writer_thread
  writer-Inv w_test e =
      loop_test-Inv s.writer_writes_number w_test w_wait
        (plain s.reader_sem s.writer_sem w_test w_wait e refl refl refl (omega arith))
        (plain s.reader_sem s.writer_sem w_test returned e refl refl refl (omega arith))
  writer-Inv w_wait e =
      wait_writer-Inv w_wait writing_now
        λ m h. plain s.reader_sem m w_wait writing_now e refl refl (omega arith) (omega arith)
  writer-Inv writing_now e =
      go_on s.curr_readers writing_now w_post
        (plain s.reader_sem s.writer_sem writing_now w_post e refl refl (omega arith) (omega arith))
  writer-Inv w_post e =
      Change-Inv s.reader_sem (suc s.writer_sem) s.curr_readers w_post w_test (
        plain s.reader_sem (suc s.writer_sem) w_post w_test e refl refl (omega arith) (omega arith))
  writer-Inv _ e = tt

  pub step-Inv : Ensures (Inv n) (step i s)
  unfolding step
  step-Inv = elim (Bool-cases (is_writer (s.thread i))) [
    | inl t ↦ rw t (writer-Inv (s.thread i) refl)
    | inr t ↦ rw t (reader-Inv (s.thread i) refl)
  ]
