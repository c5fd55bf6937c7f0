-- ===== src/BarberShop/Posix/Tests.antt =====
-- A run of the shop on POSIX semaphores, and its theorems at the states that it reaches.
use mathlib.Core.List.{foldl}
use sysopy_all.Base.{ℕ, zero, suc, ◌≡◌, ◌≢◌, refl, List, [], ◌∷◌, replicate, length-replicate, pos}
use sysopy_all.WaitQueue.{MyQueue, my_queue_init, my_queue_push, my_queue_pop}
use sysopy_all.BarberShop.State.{cut_chair}
use sysopy_all.BarberShop.Barber.{queue_init}
use sysopy_all.BarberShop.System.{Who, barber, client, Reach}
use sysopy_all.BarberShop.Posix.{
  on, Salon, Move, moved, waits, wrong, salon_step, Reached, begin, onward, barber_turn, visit,
}
use sysopy_all.BarberShop.Posix.Simulation.{shop_of}
use sysopy_all.BarberShop.Posix.Refinement.{refines, never_wrong}

record Course (n len : ℕ) : Type 0 where
  last : Salon
  reached : Reached n len last

make : {n len : ℕ} → Course n len → Who → Course n len
make {n} {len} r w = go (salon_step n w r.last) refl
  where
    go : (o : Move) → salon_step n w r.last ≡ o → Course n len
    go (moved t) e = record { last = t; reached = onward w r.reached e }
    go waits e = r
    go wrong e = r

empty_queue : MyQueue
empty_queue = record {
  max = 0;
  head = pos 0;
  tail = 0;
  chair = pos 0;
  tab = replicate 1000 (pos 0);
}

opening_time : Course 1 5
unfolding empty_queue queue_init my_queue_init
opening_time = record {
  last = _;
  reached = begin empty_queue (my_queue_init empty_queue 5) (length-replicate 1000 (pos 0)) refl;
}

course : List Who → Course 1 5
unfolding opening_time make salon_step barber_turn visit my_queue_init my_queue_push my_queue_pop
course ws = foldl make opening_time ws

abbrev repeat : ℕ → Who → List Who → List Who
repeat zero w ws = ws
repeat (suc k) w ws = w ∷ repeat k w ws

-- Client 7 wakes the barber and waits, the barber announces itself, the client sits down, and the
-- barber is about to cut it.
abbrev woken_up : Course 1 5
woken_up = course (repeat 6 (client 7) (repeat 3 barber (repeat 4 (client 7) (repeat 3 barber []))))

woken_up_state : (woken_up.last.stage ≡ on (cut_chair (pos 7))) × (woken_up.last.sem_wait ≡ 0)
unfolding course
woken_up_state = (refl, refl)

refines_example : Reach 1 5 (shop_of woken_up.last)
refines_example = refines woken_up.reached

never_wrong_example : salon_step 1 barber woken_up.last ≢ wrong
never_wrong_example = never_wrong woken_up.reached barber
