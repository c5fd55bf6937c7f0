-- ===== src/BarberShop/Invariant/BarberMoves.antt =====
-- A step of the barber keeps the invariant, and does not go wrong.
use sysopy_all.Base.{
  ℕ, suc, [], ◌≡◌, refl, ◌⊎◌, inl, inr, true, false, arith, ℤ, pos, negsuc, some, none, Returns,
  minus_one, ◌==ℤ◌, Option, Bool-cases,
}
use sysopy_all.WaitQueue.{MyQueue, my_queue_pop}
use sysopy_all.WaitQueue.Bounds.{IsValid}
use sysopy_all.WaitQueue.Fifo.{contents, fifo_pop, pop_lem}
use sysopy_all.BarberShop.State.{
  BarberPc, sleeping, take_lock, take_read, take_unlock, cut_chair, next_lock, next_pop,
  next_unlock, cut_next, doze, doze_unlock, Shop, fault,
}
use sysopy_all.BarberShop.Barber.{work, cut, popped, barber_step}
use sysopy_all.BarberShop.Invariant.Safe.{Safe, down-Safe}
use sysopy_all.BarberShop.Invariant.Defs.{
  Inv, NobodySits, seated, count, owed, AllPids, barber_holds, Calm, Door,
}

module _ (s : Shop) (inv : Inv s) where
  abbrev moved : ℕ → ℕ → MyQueue → BarberPc → Shop
  moved b l q p = record s { sem_barber = b; sem_queue = l; queue = q; barber = p }

  -- QUEUE is left alone, taken or given back.
  abbrev Lock : ℕ → BarberPc → Type 0
  Lock l p =
      (l ≡ s.sem_queue) × (barber_holds p ≡ barber_holds s.barber)
      ⊎ (suc l ≡ s.sem_queue) × (barber_holds p ≡ true)
      ⊎ (l ≡ suc s.sem_queue) × (barber_holds s.barber ≡ true) × (barber_holds p ≡ false)

  -- What is left to show of a step that changes no client.
  record Move (b l : ℕ) (q : MyQueue) (p : BarberPc) : Type 0 where
    valid : IsValid q
    lock : Lock l p
    calm : Calm s.barber s.sem_barber (contents s.queue) → Calm p b (contents q)
    asleep : p ≡ sleeping → b ≡ 0 → contents q ≡ []
    door : (i : ℕ) → Door (s.client i).pc p b (contents q)
    books : NobodySits s → (k : ℕ) → seated (s.client k) ≡ count k (owed (moved b l q p))
    pids : NobodySits s → AllPids (owed (moved b l q p))

  Move-Inv : (b l : ℕ) (q : MyQueue) (p : BarberPc) → Move b l q p → Inv (moved b l q p)
  Move-Inv b l q p m = record {
    valid = m.valid;
    binary = ground (arith, inv.barber_free, m.lock, inv.binary);
    barber_free = ground (arith, inv.barber_free, m.lock, inv.binary);
    client_free = λ i h. ground (arith, inv.client_free i, inv.apart i, m.lock, inv.binary);
    apart = λ i h. ground (arith, inv.client_free i, inv.apart i, m.lock, inv.binary);
    unique = inv.unique;
    calm_free = λ h. m.calm (ground (arith, inv.calm_free, inv.calm_barber, m.lock));
    calm_barber = λ h. m.calm (ground (arith, inv.calm_free, inv.calm_barber, m.lock, inv.binary));
    asleep = m.asleep;
    door = m.door;
    one_signal = inv.one_signal;
    signal_in = inv.signal_in;
    nobody_else = inv.nobody_else;
    books = m.books;
    pids = m.pids;
  }

  wake : s.barber ≡ sleeping → Safe (work sleeping s)
  unfolding work
  wake here = down-Safe s.sem_barber _ λ n e. Move-Inv n s.sem_queue s.queue take_lock (record {
    valid = inv.valid;
    lock = ground arith;
    calm = ground arith;
    asleep = λ h h2. ground (arith, inv.asleep, inv.calm_barber);
    door = λ i. ground (arith, inv.door i);
    books = λ h k. ground (arith, inv.books h k);
    pids = λ h. ground (arith, inv.pids h);
  })

  lock_chair : s.barber ≡ take_lock → Safe (work take_lock s)
  unfolding work
  lock_chair here = down-Safe s.sem_queue _ λ n e.
      Move-Inv s.sem_barber n s.queue take_read (record {
        valid = inv.valid;
        lock = ground arith;
        calm = ground arith;
        asleep = λ h h2. ground (arith, inv.asleep, inv.calm_barber);
        door = λ i. ground (arith, inv.client_free i, inv.binary);
        books = λ h k. ground (arith, inv.books h k, inv.calm_free, inv.binary);
        pids = λ h. ground (arith, inv.pids h, inv.calm_free, inv.binary);
      })

  read_chair : s.barber ≡ take_read → Safe (work take_read s)
  unfolding work
  read_chair here = Move-Inv s.sem_barber s.sem_queue s.queue (take_unlock s.queue.chair) (record {
    valid = inv.valid;
    lock = ground arith;
    calm = ground arith;
    asleep = λ h h2. ground (arith, inv.asleep, inv.calm_barber);
    door = λ i. ground (arith, inv.apart i);
    books = λ h k. ground (arith, inv.books h k);
    pids = λ h. ground (arith, inv.pids h);
  })

  -- QUEUE up, with the client in hand.
  leave_with :
      (p p' : BarberPc) (pid : ℤ)
      → (s.barber ≡ take_unlock pid) × (p' ≡ cut_chair pid)
        ⊎ (s.barber ≡ next_unlock pid) × (p' ≡ cut_next pid)
      → Inv (moved s.sem_barber (suc s.sem_queue) s.queue p')
  leave_with p p' pid here = Move-Inv s.sem_barber (suc s.sem_queue) s.queue p' (record {
    valid = inv.valid;
    lock = ground arith;
    calm = ground arith;
    asleep = λ h h2. ground (arith, inv.asleep, inv.calm_barber);
    door = λ i. ground (arith, inv.apart i);
    books = λ h k. ground (arith, inv.books h k);
    pids = λ h. ground (arith, inv.pids h);
  })

  lock_next : s.barber ≡ next_lock → Safe (work next_lock s)
  unfolding work
  lock_next here = down-Safe s.sem_queue _ λ n e. Move-Inv s.sem_barber n s.queue next_pop (record {
    valid = inv.valid;
    lock = ground arith;
    calm = ground arith;
    asleep = λ h h2. ground (arith, inv.asleep, inv.calm_barber);
    door = λ i. ground (arith, inv.client_free i, inv.binary);
    books = λ h k. ground (arith, inv.books h k);
    pids = λ h. ground (arith, inv.pids h);
  })

  popped-Safe :
      s.barber ≡ next_pop
      → (pid : ℤ) (q : MyQueue) → IsValid q
      → (pid, contents q) ≡ fifo_pop (contents s.queue)
      → Safe (popped pid q s)
  unfolding popped fifo_pop
  popped-Safe here pid q v e = elim (Bool-cases (pid ==ℤ minus_one)) [
    | inl none_left ↦ rw none_left (
        Move-Inv s.sem_barber s.sem_queue q doze (record {
          valid = v;
          lock = ground arith;
          calm = ground (arith, inv.pids nobody);
          asleep = λ h h2. ground (arith, inv.asleep, inv.calm_barber);
          door = λ i. ground (arith, inv.apart i);
          books = λ h k. ground (arith, inv.books h k, inv.pids nobody);
          pids = λ h. ground (arith, inv.pids h);
        }))
    | inr some_left ↦ rw some_left (
        Move-Inv s.sem_barber s.sem_queue q (next_unlock pid) (record {
          valid = v;
          lock = ground arith;
          calm = ground arith;
          asleep = λ h h2. ground (arith, inv.asleep, inv.calm_barber);
          door = λ i. ground (arith, inv.apart i);
          books = λ h k. ground (arith, inv.books h k);
          pids = λ h. ground (arith, inv.pids h);
        }))
  ]
    where
      nobody : NobodySits s
      nobody i h = ground (arith, inv.apart i)

  pop_result :
      s.barber ≡ next_pop
      → (o : Option (ℤ × MyQueue))
      → Returns (λ r. IsValid r.1 × ((r.0, contents r.1) ≡ fifo_pop (contents s.queue))) o
      → Safe (elim o [ none ↦ fault | some (pid, q) ↦ popped pid q s ])
  pop_result here none r = absurd r
  pop_result here (some (pid, q)) r = popped-Safe here pid q r.0 r.1

  pop_next : s.barber ≡ next_pop → Safe (work next_pop s)
  unfolding work
  pop_next here = pop_result here (my_queue_pop s.queue) (pop_lem s.queue inv.valid)

  fall_asleep : s.barber ≡ doze → Safe (work doze s)
  unfolding work
  fall_asleep here = down-Safe s.sem_barber _ λ n e.
      Move-Inv n s.sem_queue s.queue doze_unlock (record {
        valid = inv.valid;
        lock = ground arith;
        calm = ground arith;
        asleep = λ h h2. ground (arith, inv.asleep, inv.calm_barber);
        door = λ i. ground (arith, inv.apart i);
        books = λ h k. ground (arith, inv.books h k);
        pids = λ h. ground (arith, inv.pids h);
      })

  leave_asleep : s.barber ≡ doze_unlock → Safe (work doze_unlock s)
  unfolding work
  leave_asleep here = Move-Inv s.sem_barber (suc s.sem_queue) s.queue sleeping (record {
    valid = inv.valid;
    lock = ground arith;
    calm = ground arith;
    asleep = λ h h2. ground (arith, inv.asleep, inv.calm_barber);
    door = λ i. ground (arith, inv.apart i);
    books = λ h k. ground (arith, inv.books h k, inv.calm_barber);
    pids = λ h. ground (arith, inv.pids h, inv.calm_barber);
  })

  -- The barber holds a process id only while nobody is at the chair.
  pub nobody_sits :
      (pid : ℤ) → (s.barber ≡ cut_chair pid) ⊎ (s.barber ≡ cut_next pid) → NobodySits s
  nobody_sits pid here i e = ground (arith, inv.door i)

  cut-Safe :
      (pid : ℤ)
      → (s.barber ≡ cut_chair pid) ⊎ (s.barber ≡ cut_next pid)
      → Safe (cut pid next_lock s)
  unfolding cut
  cut-Safe (negsuc n) here = ground (arith, inv.pids (nobody_sits (negsuc n) here))
  cut-Safe (pos c) here = record {
    valid = inv.valid;
    binary = inv.binary;
    barber_free = λ h. refl;
    client_free = λ i h. ground (arith, inv.client_free i);
    apart = λ i h. refl;
    unique = λ i j h k. ground (arith, inv.unique i j);
    calm_free = λ h. ground (arith, inv.calm_free);
    calm_barber = λ h. cc;
    asleep = λ h h2. ground (arith, inv.asleep, inv.calm_barber);
    door = λ i. ground (arith, inv.door i);
    one_signal = λ i. ground (arith, inv.one_signal i, quiet c);
    signal_in = λ i h. ground (arith, inv.signal_in i, quiet c);
    nobody_else = λ i k h. ground (arith, nobody i);
    books = λ h k. ground (arith, quiet k, quiet c);
    pids = λ h. ground (arith, inv.pids nobody);
  }
    where
      nobody : NobodySits s
      nobody = nobody_sits (pos c) here

      quiet : (k : ℕ) → seated (s.client k) ≡ count k (owed s)
      quiet = inv.books nobody

  work-Safe : (p : BarberPc) → s.barber ≡ p → Safe (work p s)
  unfolding work
  work-Safe sleeping here = wake here
  work-Safe take_lock here = lock_chair here
  work-Safe take_read here = read_chair here
  work-Safe (take_unlock pid) here =
      leave_with (take_unlock pid) (cut_chair pid) pid (inl (here, refl))
  work-Safe (cut_chair pid) here = cut-Safe pid (inl here)
  work-Safe next_lock here = lock_next here
  work-Safe next_pop here = pop_next here
  work-Safe (next_unlock pid) here =
      leave_with (next_unlock pid) (cut_next pid) pid (inr (here, refl))
  work-Safe (cut_next pid) here = cut-Safe pid (inr here)
  work-Safe doze here = fall_asleep here
  work-Safe doze_unlock here = leave_asleep here

pub barber_step-Safe : (s : Shop) → Inv s → Safe (barber_step s)
barber_step-Safe s inv = work-Safe s inv s.barber refl
