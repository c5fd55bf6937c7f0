-- ===== src/ReadersWriters/Monitor/Tests.antt =====
-- A run of two readers and two writers, and the theorems at the states that it reaches.
use sysopy_all.Base.{◌<◌, ◌≡◌, ◌≢◌, refl, List, [], ◌∷◌, arith, Option, some, none, dec_lt}
use mathlib.Core.List.{foldl}
use sysopy_all.ReadersWriters.Monitor.{
  reading, r_leave, r_blocked, writing_now, Shared, Event, runs, step, thread_step, reader_thread,
  writer_thread,
}
use sysopy_all.ReadersWriters.Monitor.Invariant.{claims}
use sysopy_all.ReadersWriters.Monitor.Steps.{thread_of}
use sysopy_all.ReadersWriters.Monitor.Safety.{
  Reach, started, moved, threads_run, writer_alone, writers_first,
}

record Run : Type 0 where
  last : Shared
  reach : Reach 4 2 last

-- A thread that waits, or that is none of the four, makes no step.
turn : Run → Event → Run
turn r e = elim (dec_lt (thread_of e) 4) [ yes lt ↦ go lt (step e r.last) refl | no _ ↦ r ]
  where
    go : thread_of e < 4 → (o : Option Shared) → step e r.last ≡ o → Run
    go lt none h = r
    go lt (some t) h = record { last = t; reach = moved e r.reach lt h }

run : List Event → Run
unfolding turn step thread_step reader_thread writer_thread
run es = foldl turn (record { last = threads_run 2; reach = started }) es

-- Reader 0 has passed its test.
abbrev entering_run : Run
entering_run = run (runs 0 ∷ runs 0 ∷ [])

-- Reader 0 has read while reader 1 waited for the mutex, and is about to be counted out.
abbrev leaving_run : Run
leaving_run = run (runs 0 ∷ runs 0 ∷ runs 1 ∷ runs 0 ∷ runs 0 ∷ runs 0 ∷ runs 0 ∷ [])

-- Writer 2 writes, reader 0 sleeps on the condition variable and writer 3 has claimed its turn.
abbrev writing_run : Run
writing_run =
    run
      (runs 2 ∷ runs 2 ∷ runs 2 ∷ runs 2 ∷ runs 2 ∷ runs 0 ∷ runs 0 ∷ runs 3 ∷ runs 3 ∷ runs 3 ∷ [])

writing_state :
    (writing_run.last.checker ≡ 2)
    × (writing_run.last.writing ≡ 1)
    × (writing_run.last.thread 0 ≡ r_blocked)
    × (writing_run.last.thread 2 ≡ writing_now)
unfolding run dec_lt
writing_state = (refl, refl, refl, refl)

writer_alone_example :
    (writing_run.last.thread 0 ≢ reading) × (writing_run.last.thread 0 ≢ writing_now)
unfolding run dec_lt
writer_alone_example =
    writer_alone 4 2 writing_run.last writing_run.reach 2 0 (omega arith) (omega arith)
      (omega arith) refl

writers_first_example : claims (entering_run.last.thread 3) ≡ 0
unfolding run dec_lt
writers_first_example =
    writers_first 4 2 entering_run.last entering_run.reach 0 3 (omega arith) (omega arith) refl

leaving_state : leaving_run.last.thread 0 ≡ r_leave
unfolding run dec_lt
leaving_state = refl
