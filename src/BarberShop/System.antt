-- ===== src/BarberShop/System.antt =====
-- Every interleaving of the barber and the clients.
use sysopy_all.Base.{ℕ, ◌≡◌, some, length}
use sysopy_all.WaitQueue.{MyQueue}
use sysopy_all.BarberShop.State.{sleeping, outside, Shop, Outcome, next}
use sysopy_all.BarberShop.Barber.{barber_step, queue_init}
use sysopy_all.BarberShop.Client.{client_step}

-- Who moves: the barber, or the client with a process id.
pub data Who : Type 0 where
  barber : Who
  client : ℕ → Who

unfoldable pub step : ℕ → Who → Shop → Outcome
step n barber s = barber_step s
step n (client i) s = client_step n i s

-- After `queue_init` and `semaphores_init`: QUEUE and CHECKER are 1, BARBER is 0.
abbrev pub opened : MyQueue → Shop
opened q = record {
  sem_barber = 0;
  sem_queue = 1;
  sem_checker = 1;
  queue = q;
  barber = sleeping;
  client = λ _. record { pc = outside; cuts = 0; pending = 0 };
}

-- The states that any order of steps can lead to, from a queue of `len` chairs.
pub data Reach (n len : ℕ) : Shop → Type 0 where
  start : (m q : MyQueue) → length m.tab ≡ 1000 → queue_init m len ≡ some q → Reach n len (opened q)
  later : {s t : Shop} (w : Who) → Reach n len s → step n w s ≡ next t → Reach n len t
