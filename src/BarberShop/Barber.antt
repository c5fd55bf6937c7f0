-- ===== src/BarberShop/Barber.antt =====
-- The barber process (cw07/zad1/barber.c): `work`, `take_client_from_queue` and `cut`.
use sysopy_all.Base.{
  ℕ, suc, none, some, if◌then◌else◌, ltb, ◌||◌, Option, ℤ, pos, negsuc, ◌==ℤ◌, minus_one,
}
use sysopy_all.WaitQueue.{MyQueue, my_queue_init, my_queue_pop}
use sysopy_all.BarberShop.State.{
  BarberPc, sleeping, take_lock, take_read, take_unlock, cut_chair, next_lock, next_pop,
  next_unlock, cut_next, doze, doze_unlock, Client, Shop, Outcome, next, fault, down, update,
}

-- `kill(pid, SIGRTMIN)`
abbrev pub signalled : Client → Client
signalled c = record c { pending = suc c.pending }

-- `cut`: one signal to the client, then the barber goes on at `p`.
unfoldable pub cut : ℤ → BarberPc → Shop → Outcome
cut (pos i) p s =
    next (record s { client = update s.client i (signalled (s.client i)); barber = p })
cut (negsuc n) p s = fault

-- With the popped client: leave the queue and cut, or go to sleep.
unfoldable pub popped : ℤ → MyQueue → Shop → Outcome
popped pid q s =
    if pid ==ℤ minus_one
    then next (record s { queue = q; barber = doze })
    else next (record s { queue = q; barber = next_unlock pid })

unfoldable pub work : BarberPc → Shop → Outcome
unfolding cut popped
work sleeping s = down s.sem_barber λ n. next (record s { sem_barber = n; barber = take_lock })
work take_lock s = down s.sem_queue λ n. next (record s { sem_queue = n; barber = take_read })
work take_read s = next (record s { barber = take_unlock s.queue.chair })
work (take_unlock pid) s = next (record s { sem_queue = suc s.sem_queue; barber = cut_chair pid })
work (cut_chair pid) s = cut pid next_lock s
work next_lock s = down s.sem_queue λ n. next (record s { sem_queue = n; barber = next_pop })
work next_pop s = elim (my_queue_pop s.queue) [ none ↦ fault | some (pid, q) ↦ popped pid q s ]
work (next_unlock pid) s = next (record s { sem_queue = suc s.sem_queue; barber = cut_next pid })
work (cut_next pid) s = cut pid next_lock s
work doze s = down s.sem_barber λ n. next (record s { sem_barber = n; barber = doze_unlock })
work doze_unlock s = next (record s { sem_queue = suc s.sem_queue; barber = sleeping })

abbrev pub barber_step : Shop → Outcome
barber_step s = work s.barber s

-- `queue_init` up to the shared memory itself, which is `q`: any other length ends the process.
unfoldable pub queue_init : MyQueue → ℕ → Option MyQueue
queue_init q queue_length =
    if ltb queue_length 5 || ltb 1000 queue_length
    then none
    else some (my_queue_init q queue_length)
