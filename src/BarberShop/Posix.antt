-- ===== src/BarberShop/Posix.antt =====
-- The shop on POSIX semaphores (cw07/zad2/barber.c and clients.c). The ring is that of cw07/zad1, and
-- so are most places of the processes; a fourth semaphore, `wait_semaphore`, is new.
pub mod Simulation
pub mod Turns
pub mod Moves
pub mod Waking
pub mod Visits
pub mod Refinement
mod Tests
use sysopy_all.Base.{
  ℕ, zero, suc, ◌+◌, ◌≡◌, none, some, if◌then◌else◌, ◌==◌, ltb, ℤ, pos, negsuc, ◌==ℤ◌, minus_one,
  length,
}
use sysopy_all.WaitQueue.{MyQueue, my_queue_push, my_queue_pop}
use sysopy_all.BarberShop.State.{
  BarberPc, sleeping, take_lock, take_read, take_unlock, cut_chair, next_lock, next_pop,
  next_unlock, cut_next, doze, doze_unlock, ClientPc, outside, checker_lock, queue_lock, look,
  wake_first, wake_second, sit, enqueue, queue_unlock, checker_unlock, suspended, done,
}
use sysopy_all.BarberShop.Barber.{queue_init}
use sysopy_all.BarberShop.System.{Who, barber, client}

-- The barber's next access: one that cw07/zad1 has too, or one of the two after waking up.
pub data Stage : Type 0 where
  on : BarberPc → Stage
  awake : Stage  -- line 74, `work`: barber up
  announce : Stage  -- line 78, `work`: wait up

-- The client's next access: one that cw07/zad1 has too (`wake_second` is no place of this client),
-- or its wait for the barber, line 160.
pub data Spot : Type 0 where
  at : ClientPc → Spot
  await : Spot

-- `cuts` is `cuts_already`; `pending` counts the SIGRTMIN signals sent and not yet handled.
pub record Visitor : Type 0 where
  pub spot : Spot
  pub cuts : ℕ
  pub pending : ℕ

pub record Salon : Type 0 where
  pub sem_barber : ℕ
  pub sem_queue : ℕ
  pub sem_check : ℕ
  pub sem_wait : ℕ
  pub queue : MyQueue
  pub stage : Stage
  pub visitor : ℕ → Visitor

-- One step of one process, which is made, waits or goes wrong.
pub data Move : Type 0 where
  moved : Salon → Move
  waits : Move
  wrong : Move

-- `sem_wait`
abbrev pub lower : ℕ → (ℕ → Move) → Move
lower zero k = waits
lower (suc n) k = k n

abbrev pub change : (ℕ → Visitor) → ℕ → Visitor → ℕ → Visitor
change f i v j = if i == j then v else f j

-- Visitor `i` goes on at `p`.
abbrev pub move_to : Salon → ℕ → Spot → Salon
move_to s i p = record s { visitor = change s.visitor i (record (s.visitor i) { spot = p }) }

-- `cut`: one signal to the client, then the barber goes on at `p`.
unfoldable pub snip : ℤ → BarberPc → Salon → Move
snip (pos i) p s = moved (record s {
  visitor = change s.visitor i (record (s.visitor i) { pending = suc (s.visitor i).pending });
  stage = on p;
})
snip (negsuc n) p s = wrong

unfoldable pub after_pop : ℤ → MyQueue → Salon → Move
after_pop pid q s =
    if pid ==ℤ minus_one
    then moved (record s { queue = q; stage = on doze })
    else moved (record s { queue = q; stage = on (next_unlock pid) })

-- `work`
unfoldable pub barber_turn : Stage → Salon → Move
unfolding snip after_pop
barber_turn (on sleeping) s =
    lower s.sem_barber λ n. moved (record s { sem_barber = n; stage = awake })
barber_turn awake s = moved (record s { sem_barber = suc s.sem_barber; stage = announce })
barber_turn announce s = moved (record s { sem_wait = suc s.sem_wait; stage = on take_lock })
barber_turn (on take_lock) s =
    lower s.sem_queue λ n. moved (record s { sem_queue = n; stage = on take_read })
barber_turn (on take_read) s = moved (record s { stage = on (take_unlock s.queue.chair) })
barber_turn (on (take_unlock pid)) s =
    moved (record s { sem_queue = suc s.sem_queue; stage = on (cut_chair pid) })
barber_turn (on (cut_chair pid)) s = snip pid next_lock s
barber_turn (on next_lock) s =
    lower s.sem_queue λ n. moved (record s { sem_queue = n; stage = on next_pop })
barber_turn (on next_pop) s = elim (my_queue_pop s.queue) [
  | none ↦ wrong
  | some (pid, q) ↦ after_pop pid q s
]
barber_turn (on (next_unlock pid)) s =
    moved (record s { sem_queue = suc s.sem_queue; stage = on (cut_next pid) })
barber_turn (on (cut_next pid)) s = snip pid next_lock s
barber_turn (on doze) s =
    lower s.sem_barber λ n. moved (record s { sem_barber = n; stage = on doze_unlock })
barber_turn (on doze_unlock) s =
    moved (record s { sem_queue = suc s.sem_queue; stage = on sleeping })

-- The result of `my_queue_push`, and what `enter_barber_shop` returns for it.
unfoldable pub after_push : ℤ → MyQueue → ℕ → Salon → Move
after_push res q i s = moved (
    move_to (record s { queue = q }) i
      (at (queue_unlock (if res ==ℤ minus_one then minus_one else pos 0))))

-- `enter_barber_shop`
unfoldable pub enter_salon : Spot → ℕ → Salon → Move
unfolding after_push
enter_salon (at look) i s =
    moved (move_to s i (at (if s.sem_barber == 0 then wake_first else enqueue)))
enter_salon (at wake_first) i s =
    moved (move_to (record s { sem_barber = suc s.sem_barber }) i await)
enter_salon await i s = lower s.sem_wait λ n. moved (move_to (record s { sem_wait = n }) i (at sit))
enter_salon (at sit) i s = moved (
    move_to (record s { queue = record (s.queue) { chair = pos i } }) i (at (queue_unlock (pos 1))))
enter_salon (at enqueue) i s = elim (my_queue_push s.queue (pos i)) [
  | none ↦ wrong
  | some (res, q) ↦ after_push res q i s
]
enter_salon p i s = waits

-- `get_cut`
unfoldable pub visit : (number_of_cuts : ℕ) → Spot → ℕ → Salon → Move
unfolding enter_salon
visit n (at outside) i s =
    moved (move_to s i (at (if ltb (s.visitor i).cuts n then checker_lock else done)))
visit n (at checker_lock) i s =
    lower s.sem_check λ k. moved (move_to (record s { sem_check = k }) i (at queue_lock))
visit n (at queue_lock) i s =
    lower s.sem_queue λ k. moved (move_to (record s { sem_queue = k }) i (at look))
visit n (at (queue_unlock res)) i s =
    moved (move_to (record s { sem_queue = suc s.sem_queue }) i (at (checker_unlock res)))
visit n (at (checker_unlock res)) i s = moved (
    move_to (record s { sem_check = suc s.sem_check }) i
      (at (if res ==ℤ minus_one then outside else suspended)))
visit n (at suspended) i s =
    let v = s.visitor i in
    if v.pending == 0
    then waits
    else moved (record s {
      visitor =
          change s.visitor i (record { spot = at outside; cuts = v.cuts + v.pending; pending = 0 });
    })
visit n (at done) i s = waits
visit n p i s = enter_salon p i s

unfoldable pub salon_step : ℕ → Who → Salon → Move
unfolding barber_turn visit
salon_step n barber s = barber_turn s.stage s
salon_step n (client i) s = visit n (s.visitor i).spot i s

-- After `queue_init` and `semaphores_init`.
abbrev pub opened_salon : MyQueue → Salon
opened_salon q = record {
  sem_barber = 0;
  sem_queue = 1;
  sem_check = 1;
  sem_wait = 0;
  queue = q;
  stage = on sleeping;
  visitor = λ _. record { spot = at outside; cuts = 0; pending = 0 };
}

-- The states that any order of steps can lead to, from a queue of `len` chairs.
pub data Reached (n len : ℕ) : Salon → Type 0 where
  begin :
      (m q : MyQueue)
      → length m.tab ≡ 1000
      → queue_init m len ≡ some q
      → Reached n len (opened_salon q)
  onward : {s t : Salon} (w : Who) → Reached n len s → salon_step n w s ≡ moved t → Reached n len t
