-- ===== src/Search.antt =====
-- cw08/zad1/v3/main.c: threads that read records of a file under a mutex and search them for a word.
-- The thread that meets the end of the file cancels the others.
pub mod Invariant
pub mod Steps
pub mod Keeps
pub mod Reached
pub mod Progress
pub mod Bound
mod Tests
use sysopy_all.Base.{
  ℕ, zero, suc, ◌==◌, Bool, true, false, List, [], ◌∷◌, ◌++◌, ltb, if◌then◌else◌, length, take,
  drop, replicate, Text, put,
}

-- A thread, by its next step.
pub data Pc : Type 0 where
  locking : Pc  -- line 83
  reading : ℕ → Pc  -- line 86, with the mutex
  cancelling : ℕ → Pc  -- lines 93 to 97, with the mutex
  unlocking : Pc  -- line 103
  searching : ℕ → Pc  -- lines 105 to 111
  finished : Pc  -- line 114
  cancelled : Pc

-- `records_buffer`, and whether `pthread_cancel` was called for the thread.
pub record Thread : Type 0 where
  pub pc : Pc
  pub records_buffer : ℕ → Text
  pub pending : Bool

-- What of the file is not read, the mutex (1 while it is free), what was printed, with the id of the
-- record as its two bytes, and the threads.
pub record Shared : Type 0 where
  pub file : Text
  pub mutex : ℕ
  pub printed : List (ℕ × Text)
  pub thread : ℕ → Thread

-- A thread waits, uses a variable that was not set, or goes on.
pub data Move : Type 0 where
  blocked : Move
  unset : Move
  goes : Shared → Move

abbrev pub goto : Shared → ℕ → Pc → Shared
goto s i p = record s { thread = put s.thread i (record (s.thread i) { pc = p }) }

-- The bytes that `read` stores, and those of the buffer after them.
abbrev pub overlay : Text → Text → Text
overlay [] old = old
overlay (c ∷ cs) [] = c ∷ cs
overlay (c ∷ cs) (d ∷ ds) = c ∷ overlay cs ds

-- `read(file_handler, records_buffer[j], BUFFERSIZE)`
abbrev pub read_into : ℕ → ℕ → Shared → Shared
read_into i j s =
    let t = s.thread i in
    let new = overlay (take 1024 s.file) (t.records_buffer j) in
    record s {
      file = drop 1024 s.file;
      thread = put s.thread i (record t { records_buffer = put t.records_buffer j new });
    }

-- `pthread_cancel`; a thread that has returned takes no notice of it.
abbrev pub pthread_cancel : ℕ → Shared → Shared
pthread_cancel j s = record s { thread = put s.thread j (record (s.thread j) { pending = true }) }

abbrev pub pthread_mutex_unlock : Shared → Shared
pthread_mutex_unlock s = record s { mutex = suc s.mutex }

-- A thread goes on, or its cancellation takes effect, which with an asynchronous type may be at any
-- time after the call.
pub data Event : Type 0 where
  run : ℕ → Event
  act : ℕ → Event

-- `number_of_records`, `threads_number`, and whether `strstr` finds the word in a buffer.
module _ (records threads : ℕ) (has_word : Text → Bool) where
  -- After `read` returned `count` bytes.
  abbrev pub after_read : ℕ → ℕ → Pc
  after_read j count =
      if ltb (suc j) records
      then reading (suc j)
      else (if ltb 0 count then unlocking else cancelling 0)

  abbrev pub examine : ℕ → ℕ → Shared → Shared
  examine i j s =
      let record_read = (s.thread i).records_buffer j in
      if has_word record_read
      then record s { printed = s.printed ++ ((i, take 2 record_read) ∷ []) }
      else s

  -- The next step of thread `i`.
  unfoldable pub start_routine : Pc → ℕ → Shared → Move
  start_routine locking i s = elim s.mutex [
    | zero ↦ blocked
    | suc m ↦ goes (goto (record s { mutex = m }) i (reading 0))
  ]
  start_routine (reading j) i s =
      if ltb j records
      then goes (goto (read_into i j s) i (after_read j (length (take 1024 s.file))))
      else unset
  start_routine (cancelling j) i s =
      if ltb j threads
      then goes (goto (if j == i then s else pthread_cancel j s) i (cancelling (suc j)))
      else goes (goto (pthread_mutex_unlock s) i finished)
  start_routine unlocking i s = goes (goto (pthread_mutex_unlock s) i (searching 0))
  start_routine (searching j) i s =
      if ltb j records
      then goes (goto (examine i j s) i (searching (suc j)))
      else goes (goto s i locking)
  start_routine finished i s = blocked
  start_routine cancelled i s = blocked

  abbrev pub take_effect : Pc → ℕ → Shared → Move
  take_effect finished i s = blocked
  take_effect cancelled i s = blocked
  take_effect _ i s = goes (goto s i cancelled)

  unfoldable pub step : Event → Shared → Move
  unfolding start_routine
  step (run i) s = start_routine (s.thread i).pc i s
  step (act i) s = if (s.thread i).pending then take_effect (s.thread i).pc i s else blocked

-- The threads once main has set `thread_read` to 0. The buffers are filled with 0.
abbrev pub fresh_thread : Thread
fresh_thread = record { pc = locking; records_buffer = λ j. replicate 1024 0; pending = false }

abbrev pub started_with : Text → Shared
started_with file = record { file = file; mutex = 1; printed = []; thread = λ i. fresh_thread }
