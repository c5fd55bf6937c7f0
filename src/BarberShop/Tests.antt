-- ===== src/BarberShop/Tests.antt =====
-- Runs of the shop, and its theorems at the states that they reach.
use sysopy_all.Base.{
  ℕ, zero, suc, ◌≡◌, ◌≢◌, refl, List, [], ◌∷◌, replicate, length-replicate, pos, arith, inl,
}
use mathlib.Core.List.{foldl}
use sysopy_all.WaitQueue.Fifo.{contents}
use sysopy_all.WaitQueue.{MyQueue, my_queue_init, my_queue_push, my_queue_pop}
use sysopy_all.BarberShop.State.{Shop, Outcome, next, blocked, fault, cut_chair, doze, ClientPc}
use sysopy_all.BarberShop.Barber.{queue_init, work, barber_step}
use sysopy_all.BarberShop.Client.{get_cut}
use sysopy_all.BarberShop.System.{Who, barber, client, step, Reach, start, later}
use sysopy_all.BarberShop.Invariant.Defs.{NobodySits, seated, count, owed}
use sysopy_all.BarberShop.Safety.{
  mutual_exclusion, never_faults, cut_of_waiting, no_lost_wakeup, no_insomnia, owed_once,
  leaves_with_all_cuts,
}

record Run (n len : ℕ) : Type 0 where
  last : Shop
  reach : Reach n len last

-- A process that waits, or has left, makes no step.
turn : {n len : ℕ} → Run n len → Who → Run n len
turn {n} {len} r w = go (step n w r.last) refl
  where
    go : (o : Outcome) → step n w r.last ≡ o → Run n len
    go (next t) e = record { last = t; reach = later w r.reach e }
    go blocked e = r
    go fault e = r

blank : MyQueue
blank = record { max = 0; head = pos 0; tail = 0; chair = pos 0; tab = replicate 1000 (pos 0) }

opening : Run 1 5
unfolding blank queue_init my_queue_init
opening = record {
  last = _;
  reach = start blank (my_queue_init blank 5) (length-replicate 1000 (pos 0)) refl;
}

abbrev times : ℕ → Who → List Who → List Who
times zero w ws = ws
times (suc k) w ws = w ∷ times k w ws

run : List Who → Run 1 5
unfolding opening turn step work get_cut my_queue_init my_queue_push my_queue_pop
run ws = foldl turn opening ws

-- Client 7 has sat down, the barber is still asleep; client 9 waits for CHECKER.
abbrev seated_run : Run 1 5
seated_run = run (times 7 (client 7) (times 2 (client 9) []))

-- The barber has read the chair and is about to cut client 7; client 9 has found it awake.
abbrev cutting_run : Run 1 5
cutting_run = run (times 9 (client 7) (times 4 barber (times 7 (client 9) [])))

-- Both have been cut, and the barber holds QUEUE on its way to sleep.
abbrev dozing_run : Run 1 5
dozing_run = run (
    times 9 (client 7)
      (times 4 barber (times 7 (client 9) (times 7 barber (times 3 (client 7) [])))))

-- Asleep again, with BARBER 0.
abbrev asleep_run : Run 1 5
asleep_run = run (
    times 9 (client 7) (
      times 4 barber
        (times 7 (client 9) (times 7 barber (times 3 (client 7) (times 2 barber []))))))

seated_state : (owed seated_run.last ≡ pos 7 ∷ []) × (seated_run.last.sem_barber ≡ 2)
unfolding run contents
seated_state = (refl, refl)

cutting_state :
    (owed cutting_run.last ≡ pos 7 ∷ pos 9 ∷ []) × (cutting_run.last.barber ≡ cut_chair (pos 7))
unfolding run contents
cutting_state = (refl, refl)

dozing_state : (dozing_run.last.barber ≡ doze) × ((dozing_run.last.client 7).pc ≡ ClientPc.done)
unfolding run
dozing_state = (refl, refl)

mutual_exclusion_example : client 7 ≡ client 7
unfolding run
mutual_exclusion_example = mutual_exclusion seated_run.reach (client 7) (client 7) refl refl

never_faults_example : step 1 barber cutting_run.last ≢ fault
never_faults_example = never_faults cutting_run.reach barber

cut_of_waiting_example : (i : ℕ) × (pos 7 ≡ pos i) × (seated (cutting_run.last.client i) ≡ 1)
unfolding run
cut_of_waiting_example = cut_of_waiting cutting_run.reach (inl refl)

no_lost_wakeup_example : seated (asleep_run.last.client 9) ≡ 0
unfolding run
no_lost_wakeup_example = no_lost_wakeup asleep_run.reach refl refl 9

no_insomnia_example : barber_step dozing_run.last ≢ blocked
unfolding run
no_insomnia_example = no_insomnia dozing_run.reach refl

nobody_sits : NobodySits cutting_run.last
unfolding run
nobody_sits i e = ground arith

owed_once_example : count 9 (owed cutting_run.last) ≡ seated (cutting_run.last.client 9)
owed_once_example = owed_once cutting_run.reach nobody_sits 9

leaves_with_all_cuts_example : (dozing_run.last.client 7).cuts ≡ 1
unfolding run
leaves_with_all_cuts_example = leaves_with_all_cuts dozing_run.reach 7 refl
