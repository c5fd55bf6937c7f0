-- ===== src/Search/Tests.antt =====
-- Runs of two threads, and the theorems where they lead.
use mathlib.Core.List.{foldl}
use sysopy_all.Base.{
  ℕ, suc, ◌+◌, ◌*◌, ◌≤◌, ◌<◌, ◌≡◌, refl, Bool, true, List, [], ◌∷◌, length, Text, arith, dec_lt,
}
use sysopy_all.Search.{
  searching, cancelling, finished, cancelled, Shared, Move, blocked, unset, goes, started_with,
  start_routine, Event, run, act, step,
}
use sysopy_all.Search.Reached.{acting, Reach, started, moved}
use sysopy_all.Search.Progress.{never_stuck}
use sysopy_all.Search.Bound.{always_ends}

abbrev any : Text → Bool
any t = true

-- One short record.
abbrev file : Text
file = 49 ∷ 50 ∷ []

record Run : Type 0 where
  steps : ℕ
  last : Shared
  reach : Reach 1 2 any file steps last

-- An event that is not possible is left out.
turn : Run → Event → Run
turn r e = elim (dec_lt (acting e) 2) [ yes lt ↦ go lt (step 1 2 any e r.last) refl | no _ ↦ r ]
  where
    go : acting e < 2 → (m : Move) → step 1 2 any e r.last ≡ m → Run
    go lt blocked h = r
    go lt unset h = r
    go lt (goes t) h = record { steps = suc r.steps; last = t; reach = moved e r.reach lt h }

run_events : List Event → Run
unfolding turn step start_routine
run_events es = foldl turn (record { steps = 0; last = started_with file; reach = started }) es

-- Thread 0 has read the record, and thread 1 has met the end of the file.
abbrev met_end : Run
met_end = run_events (run 0 ∷ run 0 ∷ run 0 ∷ run 1 ∷ run 1 ∷ [])

met_end-state :
    ((met_end.last.thread 0).pc ≡ searching 0) × ((met_end.last.thread 1).pc ≡ cancelling 0)
unfolding run_events dec_lt
met_end-state = (refl, refl)

-- Thread 1 cancels thread 0 before it has searched the record, and nothing is printed.
abbrev all_ended : Run
all_ended = run_events (run 0 ∷ run 0 ∷ run 0 ∷ run 1 ∷ run 1 ∷ run 1 ∷ run 1 ∷ run 1 ∷ act 0 ∷ [])

all_ended-state :
    ((all_ended.last.thread 0).pc ≡ cancelled)
    × ((all_ended.last.thread 1).pc ≡ finished)
    × (all_ended.last.printed ≡ [])
unfolding run_events dec_lt
all_ended-state = (refl, refl, refl)

never_stuck_example :
    (e : Event) × (acting e < 2) × ((t : Shared) × (step 1 2 any e met_end.last ≡ goes t))
unfolding run_events dec_lt
never_stuck_example =
    never_stuck 1 2 any file met_end.steps met_end.last (omega arith) met_end.reach 0 (omega arith)
      (λ e. cc) (λ e. cc)

always_ends_example : all_ended.steps ≤ (2 * 1 + 4) * length file + (1 + 2 + 5) * 2
always_ends_example = always_ends 1 2 any file all_ended.steps all_ended.last all_ended.reach
