-- ===== src/ReadersWriters/Monitor.antt =====
-- cw09/zad1/v1/main.c: readers and writers under a mutex and a condition variable.
pub mod Invariant
pub mod Steps
pub mod Safety
mod Tests
use sysopy_all.Base.{
  ℕ, zero, suc, ◌+◌, ◌-◌, Bool, true, false, Option, none, some, ◌==◌, if◌then◌else◌, ◌&&◌, put,
}

-- A thread, by its next access to what the threads share. A reader that has made its reads, or a
-- writer that has made its writes, stands at the head of its loop and moves no more.
pub data Pc : Type 0 where
  r_lock : Pc  -- line 124
  r_test : Pc  -- line 126, with the mutex
  r_blocked : Pc  -- line 127, in `pthread_cond_wait`
  r_relock : Pc  -- line 127, woken and without the mutex
  r_enter : Pc  -- line 129, with the mutex
  r_unlock : Pc  -- line 131
  reading : Pc  -- lines 134 to 146
  r_lock_again : Pc  -- line 148
  r_leave : Pc  -- line 149, with the mutex
  r_broadcast : Pc  -- line 150
  r_unlock_again : Pc  -- line 151
  w_lock : Pc  -- line 157
  w_claim : Pc  -- line 158, with the mutex
  w_test : Pc  -- line 160, with the mutex
  w_blocked : Pc  -- line 161, in `pthread_cond_wait`
  w_relock : Pc  -- line 161, woken and without the mutex
  w_enter : Pc  -- line 164, with the mutex
  w_unlock : Pc  -- line 165
  writing_now : Pc  -- lines 167 to 180
  w_lock_again : Pc  -- line 182
  w_leave : Pc  -- line 183, with the mutex
  w_drop : Pc  -- line 184
  w_broadcast : Pc  -- line 185
  w_unlock_again : Pc  -- line 186

-- `mutex` is 1 while it is free. The counts are C `int`s; they are decremented only by a thread that
-- they count, so they stay at 0 or above.
pub record Shared : Type 0 where
  pub mutex : ℕ
  pub checker : ℕ
  pub writing : ℕ
  pub actual_readers : ℕ
  pub thread : ℕ → Pc

abbrev pub goto : Shared → ℕ → Pc → Shared
goto s i p = record s { thread = put s.thread i p }

-- `pthread_mutex_lock`, and the return from `pthread_cond_wait`: they wait for the mutex.
abbrev pub lock : Shared → ℕ → Pc → Option Shared
lock s i p = elim s.mutex [ zero ↦ none | suc m ↦ some (goto (record s { mutex = m }) i p) ]

abbrev pub unlock : Shared → ℕ → Pc → Option Shared
unlock s i p = some (goto (record s { mutex = suc s.mutex }) i p)

-- `pthread_cond_broadcast` wakes every thread that waits.
abbrev pub woken : Pc → Pc
woken r_blocked = r_relock
woken w_blocked = w_relock
woken p = p

abbrev pub broadcast : Shared → Shared
broadcast s = record s { thread = λ j. woken (s.thread j) }

unfoldable pub reader_thread : Pc → ℕ → Shared → Option Shared
reader_thread r_lock i s = lock s i r_test
reader_thread r_test i s = if s.checker == 0 then some (goto s i r_enter) else unlock s i r_blocked
reader_thread r_relock i s = lock s i r_test
reader_thread r_enter i s =
    some (goto (record s { actual_readers = suc s.actual_readers }) i r_unlock)
reader_thread r_unlock i s = unlock s i reading
reader_thread reading i s = some (goto s i r_lock_again)
reader_thread r_lock_again i s = lock s i r_leave
reader_thread r_leave i s =
    some (goto (record s { actual_readers = s.actual_readers - 1 }) i r_broadcast)
reader_thread r_broadcast i s = some (goto (broadcast s) i r_unlock_again)
reader_thread r_unlock_again i s = unlock s i r_lock
reader_thread _ i s = none

unfoldable pub writer_thread : Pc → ℕ → Shared → Option Shared
writer_thread w_lock i s = lock s i w_claim
writer_thread w_claim i s = some (goto (record s { checker = suc s.checker }) i w_test)
writer_thread w_test i s =
    if (s.actual_readers == 0) && (s.writing == 0)
    then some (goto s i w_enter)
    else unlock s i w_blocked
writer_thread w_relock i s = lock s i w_test
writer_thread w_enter i s = some (goto (record s { writing = suc s.writing }) i w_unlock)
writer_thread w_unlock i s = unlock s i writing_now
writer_thread writing_now i s = some (goto s i w_lock_again)
writer_thread w_lock_again i s = lock s i w_leave
writer_thread w_leave i s = some (goto (record s { writing = s.writing - 1 }) i w_drop)
writer_thread w_drop i s = some (goto (record s { checker = s.checker - 1 }) i w_broadcast)
writer_thread w_broadcast i s = some (goto (broadcast s) i w_unlock_again)
writer_thread w_unlock_again i s = unlock s i w_lock
writer_thread _ i s = none

abbrev pub is_reader : Pc → Bool
is_reader r_lock = true
is_reader r_test = true
is_reader r_blocked = true
is_reader r_relock = true
is_reader r_enter = true
is_reader r_unlock = true
is_reader reading = true
is_reader r_lock_again = true
is_reader r_leave = true
is_reader r_broadcast = true
is_reader r_unlock_again = true
is_reader _ = false

unfoldable pub thread_step : Pc → ℕ → Shared → Option Shared
unfolding reader_thread writer_thread
thread_step p i s = if is_reader p then reader_thread p i s else writer_thread p i s

-- Either a thread goes on, or its wait on the condition variable ends without a broadcast.
pub data Event : Type 0 where
  runs : ℕ → Event
  wakes : ℕ → Event

unfoldable pub step : Event → Shared → Option Shared
unfolding thread_step
step (runs i) s = thread_step (s.thread i) i s
step (wakes i) s = some (goto s i (woken (s.thread i)))
