-- ===== src/BarberShop/Client.antt =====
-- A client process (cw07/zad1/clients.c): `get_cut` and `enter_barber_shop`.
use sysopy_all.Base.{ℕ, suc, ◌+◌, none, some, if◌then◌else◌, ◌==◌, ltb, ℤ, pos, ◌==ℤ◌, minus_one}
use sysopy_all.WaitQueue.{MyQueue, my_queue_push}
use sysopy_all.BarberShop.State.{
  ClientPc, outside, checker_lock, queue_lock, look, wake_first, wake_second, sit, enqueue,
  queue_unlock, checker_unlock, suspended, done, Client, Shop, Outcome, next, blocked, fault, down,
  update, goto,
}

-- `sigsuspend` lets every pending SIGRTMIN through; the handler counts each.
abbrev pub handled : Client → Client
handled c = record c { pc = outside; cuts = c.cuts + c.pending; pending = 0 }

-- The result of `my_queue_push`, and what `enter_barber_shop` returns for it.
unfoldable pub pushed : ℤ → MyQueue → ℕ → Shop → Outcome
pushed res q i s = next (
    goto (record s { queue = q }) i (queue_unlock (if res ==ℤ minus_one then minus_one else pos 0)))

-- The branch of `enter_barber_shop` on the state of the barber.
unfoldable pub enter_barber_shop : ClientPc → ℕ → Shop → Outcome
unfolding pushed
enter_barber_shop look i s = next (goto s i (if s.sem_barber == 0 then wake_first else enqueue))
enter_barber_shop wake_first i s =
    next (goto (record s { sem_barber = suc s.sem_barber }) i wake_second)
enter_barber_shop wake_second i s = next (goto (record s { sem_barber = suc s.sem_barber }) i sit)
enter_barber_shop sit i s =
    next (goto (record s { queue = record (s.queue) { chair = pos i } }) i (queue_unlock (pos 1)))
enter_barber_shop enqueue i s = elim (my_queue_push s.queue (pos i)) [
  | none ↦ fault
  | some (res, q) ↦ pushed res q i s
]
enter_barber_shop p i s = fault

unfoldable pub get_cut : (number_of_cuts : ℕ) → ClientPc → ℕ → Shop → Outcome
unfolding enter_barber_shop
get_cut n outside i s = next (goto s i (if ltb (s.client i).cuts n then checker_lock else done))
get_cut n checker_lock i s =
    down s.sem_checker λ k. next (goto (record s { sem_checker = k }) i queue_lock)
get_cut n queue_lock i s = down s.sem_queue λ k. next (goto (record s { sem_queue = k }) i look)
get_cut n (queue_unlock res) i s =
    next (goto (record s { sem_queue = suc s.sem_queue }) i (checker_unlock res))
get_cut n (checker_unlock res) i s = next (
    goto (record s { sem_checker = suc s.sem_checker }) i
      (if res ==ℤ minus_one then outside else suspended))
get_cut n suspended i s =
    if (s.client i).pending == 0
    then blocked
    else next (record s { client = update s.client i (handled (s.client i)) })
get_cut n done i s = blocked
get_cut n p i s = enter_barber_shop p i s

abbrev pub client_step : ℕ → ℕ → Shop → Outcome
client_step n i s = get_cut n (s.client i).pc i s
