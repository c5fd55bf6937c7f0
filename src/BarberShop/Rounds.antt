-- ===== src/BarberShop/Rounds.antt =====
-- How many cuts a client gets: the loop of `get_cut` (cw07/zad1/clients.c).
use sysopy_all.Base.{
  ℕ, zero, suc, ◌≡◌, refl, ◌≤◌, ◌<◌, arith, ℤ, pos, negsuc, none, some, Option, inl, inr,
  Bool-cases, ◌==◌, ◌==ℤ◌, minus_one,
}
use sysopy_all.WaitQueue.{MyQueue, my_queue_push, my_queue_pop}
use sysopy_all.BarberShop.State.{
  BarberPc, sleeping, take_lock, take_read, take_unlock, cut_chair, next_lock, next_pop,
  next_unlock, cut_next, doze, doze_unlock, ClientPc, outside, checker_lock, queue_lock, enqueue,
  suspended, done, Shop, Outcome, next, fault, down,
}
use sysopy_all.BarberShop.Barber.{work, cut, popped}
use sysopy_all.BarberShop.Client.{get_cut, enter_barber_shop, pushed}
use sysopy_all.BarberShop.System.{Who, barber, client, step}
use sysopy_all.BarberShop.Invariant.Defs.{Inv}

-- Inside the loop a client has cuts to come; one that has left has had them all.
abbrev pub Round : ℕ → ClientPc → ℕ → Type 0
Round n outside cuts = cuts ≤ n
Round n done cuts = cuts ≡ n
Round n _ cuts = cuts < n

abbrev pub Rounds : ℕ → Shop → Type 0
Rounds n s = (i : ℕ) → Round n (s.client i).pc (s.client i).cuts

abbrev Keeps : ℕ → Outcome → Type 0
Keeps n (next t) = Rounds n t
Keeps n _ = Unit

down-Keeps : (n v : ℕ) (k : ℕ → Outcome) → ((m : ℕ) → Keeps n (k m)) → Keeps n (down v k)
down-Keeps n zero k h = tt
down-Keeps n (suc m) k h = h m

module _ (n : ℕ) (s : Shop) (r : Rounds n s) where
  cut-Keeps : (pid : ℤ) (p : BarberPc) → Keeps n (cut pid p s)
  unfolding cut
  cut-Keeps (negsuc m) p = tt
  cut-Keeps (pos i) p = λ j. ground (arith, r j)

  work-Keeps : (p : BarberPc) → Keeps n (work p s)
  unfolding work
  work-Keeps sleeping = down-Keeps n s.sem_barber _ λ m. r
  work-Keeps take_lock = down-Keeps n s.sem_queue _ λ m. r
  work-Keeps take_read = r
  work-Keeps (take_unlock pid) = r
  work-Keeps (cut_chair pid) = cut-Keeps pid next_lock
  work-Keeps next_lock = down-Keeps n s.sem_queue _ λ m. r
  work-Keeps next_pop = pop (my_queue_pop s.queue)
    where
      pop :
          (o : Option (ℤ × MyQueue))
          → Keeps n (elim o [ none ↦ fault | some (pid, q) ↦ popped pid q s ])
      pop none = tt
      pop (some (pid, q)) = elim (Bool-cases (pid ==ℤ minus_one)) [
        | inl e ↦ rw e r
        | inr e ↦ rw e r
      ]
  work-Keeps (next_unlock pid) = r
  work-Keeps (cut_next pid) = cut-Keeps pid next_lock
  work-Keeps doze = down-Keeps n s.sem_barber _ λ m. r
  work-Keeps doze_unlock = r

  module _ (inv : Inv s) (i : ℕ) where
    wake_up : (s.client i).pc ≡ suspended → Keeps n (get_cut n suspended i s)
    unfolding get_cut
    wake_up e = elim (Bool-cases ((s.client i).pending == 0)) [
      | inl h ↦ rw h tt
      | inr h ↦ rw h (λ j. ground (arith, r i, r j, inv.one_signal i))
    ]

    join : (s.client i).pc ≡ enqueue → Keeps n (get_cut n enqueue i s)
    unfolding get_cut enter_barber_shop
    join e = push (my_queue_push s.queue (pos i))
      where
        push :
            (o : Option (ℤ × MyQueue))
            → Keeps n (elim o [ none ↦ fault | some (res, q) ↦ pushed res q i s ])
        push none = tt
        push (some (res, q)) = λ j. ground (arith, r i, r j)

    get_cut-Keeps : (p : ClientPc) → (s.client i).pc ≡ p → Keeps n (get_cut n p i s)
    unfolding get_cut enter_barber_shop
    get_cut-Keeps outside e = λ j. ground (arith, r i, r j)
    get_cut-Keeps checker_lock e = down-Keeps n s.sem_checker _ λ m j. ground (arith, r i, r j)
    get_cut-Keeps queue_lock e = down-Keeps n s.sem_queue _ λ m j. ground (arith, r i, r j)
    get_cut-Keeps enqueue e = join e
    get_cut-Keeps suspended e = wake_up e
    get_cut-Keeps done e = tt
    get_cut-Keeps p e = λ j. ground (arith, r i, r j)

pub step-Rounds :
    (n : ℕ) (w : Who) (s t : Shop) → Inv s → Rounds n s → step n w s ≡ next t → Rounds n t
unfolding step
step-Rounds n barber s t inv r e = rw e at (work-Keeps n s r s.barber)
step-Rounds n (client i) s t inv r e = rw e at (get_cut-Keeps n s r inv i (s.client i).pc refl)
