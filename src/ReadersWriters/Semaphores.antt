-- ===== src/ReadersWriters/Semaphores.antt =====
-- cw09/zad1/v2/main.c: readers and writers under two semaphores.
pub mod Invariant
pub mod Safety
pub mod Progress
mod Tests
use sysopy_all.Base.{
  ℕ, zero, suc, ◌-◌, Bool, ltb, true, false, Option, none, some, ◌==◌, if◌then◌else◌, put,
}

-- A thread, by its next access to what the threads share.
pub data Pc : Type 0 where
  r_test : Pc  -- line 133, after line 159
  r_wait : Pc  -- line 134
  r_count : Pc  -- line 137, with `reader_sem`
  r_first : Pc  -- line 138, with `reader_sem`
  r_post : Pc  -- line 140
  reading : Pc  -- lines 142 to 152
  r_wait_again : Pc  -- line 154
  r_uncount : Pc  -- line 155, with `reader_sem`
  r_last : Pc  -- line 156, with `reader_sem`
  r_post_again : Pc  -- line 158
  w_test : Pc  -- line 166, after line 184
  w_wait : Pc  -- line 167
  writing_now : Pc  -- lines 169 to 181
  w_post : Pc  -- line 183
  returned : Pc

-- `reader_reads_number` and `writer_writes_number` are from the arguments, and `rounds` is the number of
-- rounds of its loop that a thread has begun. `curr_readers` is a C `int`; only a reader that it counts decrements it, so it stays at 0 or above.
pub record Shared : Type 0 where
  pub reader_sem : ℕ
  pub writer_sem : ℕ
  pub curr_readers : ℕ
  pub thread : ℕ → Pc
  pub reader_reads_number : ℕ
  pub writer_writes_number : ℕ
  pub rounds : ℕ → ℕ

abbrev pub goto : Shared → ℕ → Pc → Shared
goto s i p = record s { thread = put s.thread i p }

-- The test of the loop of thread `i`, which begins a round at `p` or returns.
abbrev pub loop_test : Shared → ℕ → ℕ → Pc → Shared
loop_test s i number p =
    if ltb (s.rounds i) number
    then goto (record s { rounds = put s.rounds i (suc (s.rounds i)) }) i p
    else goto s i returned

-- `sem_wait(&reader_sem)` and `sem_wait(&writer_sem)`
abbrev pub wait_reader : Shared → ℕ → Pc → Option Shared
wait_reader s i p = elim s.reader_sem [
  | zero ↦ none
  | suc m ↦ some (goto (record s { reader_sem = m }) i p)
]

abbrev pub wait_writer : Shared → ℕ → Pc → Option Shared
wait_writer s i p = elim s.writer_sem [
  | zero ↦ none
  | suc m ↦ some (goto (record s { writer_sem = m }) i p)
]

abbrev pub post_reader : Shared → ℕ → Pc → Option Shared
post_reader s i p = some (goto (record s { reader_sem = suc s.reader_sem }) i p)

abbrev pub post_writer : Shared → ℕ → Pc → Option Shared
post_writer s i p = some (goto (record s { writer_sem = suc s.writer_sem }) i p)

unfoldable pub reader_thread : Pc → ℕ → Shared → Option Shared
reader_thread r_test i s = some (loop_test s i s.reader_reads_number r_wait)
reader_thread r_wait i s = wait_reader s i r_count
reader_thread r_count i s =
    let n = suc s.curr_readers in
    some (goto (record s { curr_readers = n }) i (if n == 1 then r_first else r_post))
reader_thread r_first i s = wait_writer s i r_post
reader_thread r_post i s = post_reader s i reading
reader_thread reading i s = some (goto s i r_wait_again)
reader_thread r_wait_again i s = wait_reader s i r_uncount
reader_thread r_uncount i s =
    let n = s.curr_readers - 1 in
    some (goto (record s { curr_readers = n }) i (if n == 0 then r_last else r_post_again))
reader_thread r_last i s = post_writer s i r_post_again
reader_thread r_post_again i s = post_reader s i r_test
reader_thread _ i s = none

unfoldable pub writer_thread : Pc → ℕ → Shared → Option Shared
writer_thread w_test i s = some (loop_test s i s.writer_writes_number w_wait)
writer_thread w_wait i s = wait_writer s i writing_now
writer_thread writing_now i s = some (goto s i w_post)
writer_thread w_post i s = post_writer s i w_test
writer_thread _ i s = none

abbrev pub is_writer : Pc → Bool
is_writer w_test = true
is_writer w_wait = true
is_writer writing_now = true
is_writer w_post = true
is_writer _ = false

-- Thread `i` goes on, if it can; one that has returned does not.
unfoldable pub step : ℕ → Shared → Option Shared
unfolding reader_thread writer_thread
step i s =
    if is_writer (s.thread i)
    then writer_thread (s.thread i) i s
    else reader_thread (s.thread i) i s
