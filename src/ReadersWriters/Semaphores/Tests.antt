-- ===== src/ReadersWriters/Semaphores/Tests.antt =====
-- A run of two readers and two writers on semaphores, and the theorems where it leads.
use sysopy_all.Base.{
  ℕ, ◌<◌, ◌≡◌, ◌≢◌, refl, List, [], ◌∷◌, arith, Option, some, none, dec_lt, subst, sym,
}
use mathlib.Core.List.{foldl}
use sysopy_all.ReadersWriters.Semaphores.{
  r_first, r_uncount, reading, writing_now, returned, Shared, step, reader_thread, writer_thread,
}
use sysopy_all.ReadersWriters.Semaphores.Progress.{never_deadlocks}
use sysopy_all.ReadersWriters.Semaphores.Safety.{
  Reach, started, moved, threads_run, writer_excludes,
}

record Run : Type 0 where
  last : Shared
  reach : Reach 4 2 last

-- A thread that waits, or that is none of the four, stays where it is.
turn : Run → ℕ → Run
turn r i = elim (dec_lt i 4) [ yes lt ↦ go lt (step i r.last) refl | no _ ↦ r ]
  where
    go : i < 4 → (o : Option Shared) → step i r.last ≡ o → Run
    go lt none h = r
    go lt (some t) h = record { last = t; reach = moved i r.reach lt h }

run : List ℕ → Run
unfolding turn step reader_thread writer_thread
run is = foldl turn (record { last = threads_run 2 2 1; reach = started 2 1 }) is

-- Writer 2 writes; reader 0 has counted itself and waits for it.
abbrev writing_run : Run
writing_run = run (2 ∷ 2 ∷ 0 ∷ 0 ∷ 0 ∷ 0 ∷ 1 ∷ 1 ∷ [])

-- Both readers read, and reader 0 is about to be counted out.
abbrev leaving_run : Run
leaving_run = run (0 ∷ 0 ∷ 0 ∷ 0 ∷ 0 ∷ 1 ∷ 1 ∷ 1 ∷ 2 ∷ 2 ∷ 1 ∷ 0 ∷ 0 ∷ [])

writing_state : (writing_run.last.thread 0 ≡ r_first) × (writing_run.last.thread 2 ≡ writing_now)
unfolding run dec_lt
writing_state = (refl, refl)

leaving_state :
    (leaving_run.last.thread 0 ≡ r_uncount)
    × (leaving_run.last.thread 1 ≡ reading)
    × (leaving_run.last.curr_readers ≡ 2)
unfolding run dec_lt
leaving_state = (refl, refl, refl)

writer_excludes_example :
    (writing_run.last.thread 0 ≢ reading) × (writing_run.last.thread 0 ≢ writing_now)
unfolding run dec_lt
writer_excludes_example =
    writer_excludes 4 2 writing_run.last writing_run.reach 2 0 (omega arith) (omega arith)
      (omega arith) refl

-- Writer 2 has returned, and writer 3 writes.
abbrev returned_run : Run
returned_run = run (2 ∷ 2 ∷ 2 ∷ 2 ∷ 2 ∷ 3 ∷ 3 ∷ 0 ∷ [])

returned_state :
    (returned_run.last.thread 2 ≡ returned) × (returned_run.last.thread 3 ≡ writing_now)
unfolding run dec_lt
returned_state = (refl, refl)

never_deadlocks_example :
    (i : ℕ) × (i < 4) × (returned_run.last.thread i ≢ returned) × (step i returned_run.last ≢ none)
unfolding run dec_lt
never_deadlocks_example =
    never_deadlocks 4 2 returned_run.last returned_run.reach 3 (omega arith)
      (subst (λ p. p ≢ returned) (sym returned_state.1) (λ e. ground arith))
