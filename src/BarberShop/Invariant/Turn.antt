-- ===== src/BarberShop/Invariant/Turn.antt =====
-- What a step of a client has to show, and the steps that leave the books as they are.
use sysopy_all.Base.{ℕ, suc, ◌≡◌, ◌≢◌, ◌≤◌, ◌⊎◌, true, false, arith, [], ◌∙◌}
use sysopy_all.WaitQueue.{MyQueue}
use sysopy_all.WaitQueue.Bounds.{IsValid}
use sysopy_all.WaitQueue.Fifo.{contents}
use sysopy_all.BarberShop.State.{sleeping, ClientPc, sit, Client, Shop, update}
use sysopy_all.BarberShop.Invariant.Defs.{
  Inv, NobodySits, seated, count, owed, AllPids, barber_holds, client_holds, let_in, Calm, Door,
}
use sysopy_all.BarberShop.Invariant.Owed.{seated-update}

module _ (s : Shop) (inv : Inv s) (i : ℕ) where
  abbrev pub pc : ClientPc
  pc = (s.client i).pc

  abbrev pub turned : ℕ → ℕ → ℕ → MyQueue → Client → Shop
  turned b l k q c = record s {
    sem_barber = b;
    sem_queue = l;
    sem_checker = k;
    queue = q;
    client = update s.client i c;
  }

  -- QUEUE is left alone, taken or given back.
  abbrev pub Lock : ℕ → ClientPc → Type 0
  Lock l p =
      (l ≡ s.sem_queue) × (client_holds p ≡ client_holds pc)
      ⊎ (suc l ≡ s.sem_queue) × (client_holds p ≡ true)
      ⊎ (l ≡ suc s.sem_queue) × (client_holds pc ≡ true) × (client_holds p ≡ false)

  -- What is left to show of a step of client `i`.
  pub record Turn (b l k : ℕ) (q : MyQueue) (c : Client) : Type 0 where
    pub valid : IsValid q
    pub lock : Lock l c.pc
    pub calm_free : l ≡ 1 → Calm s.barber b (contents q)
    pub calm_barber : barber_holds s.barber ≡ true → Calm s.barber b (contents q)
    pub asleep : s.barber ≡ sleeping → b ≡ 0 → contents q ≡ []
    pub door_self : Door c.pc s.barber b (contents q)
    pub door_rest : (j : ℕ) → i ≢ j → Door (s.client j).pc s.barber b (contents q)
    pub one_signal : c.pending ≤ 1
    pub signal_in : c.pending ≢ 0 → let_in c.pc ≡ true
    pub nobody_else :
        (j m : ℕ) → (update s.client i c j).pc ≡ sit → seated (update s.client i c m) ≡ 0
    pub books :
        NobodySits (turned b l k q c)
        → (m : ℕ) → seated (update s.client i c m) ≡ count m (owed (turned b l k q c))
    pub pids : NobodySits (turned b l k q c) → AllPids (owed (turned b l k q c))

  pub Turn-Inv : (b l k : ℕ) (q : MyQueue) (c : Client) → Turn b l k q c → Inv (turned b l k q c)
  Turn-Inv b l k q c m = record {
    valid = m.valid;
    binary = ground (arith, inv.client_free i, m.lock, inv.binary);
    barber_free = λ h. ground (arith, inv.barber_free, inv.apart i, m.lock, inv.binary);
    client_free = λ j h.
        ground (arith, inv.client_free j, inv.client_free i, inv.unique i j, m.lock, inv.binary);
    apart = λ j h. ground (arith, inv.barber_free, inv.apart j, inv.apart i, m.lock, inv.binary);
    unique = λ j n h h'. ground (
      arith,
      inv.unique j n,
      inv.unique i j,
      inv.unique i n,
      inv.client_free j,
      inv.client_free n,
      m.lock,
      inv.binary,
    );
    calm_free = m.calm_free;
    calm_barber = m.calm_barber;
    asleep = m.asleep;
    door = λ j. ground (arith, m.door_self, m.door_rest j);
    one_signal = λ j. ground (arith, m.one_signal, inv.one_signal j);
    signal_in = λ j h. ground (arith, m.signal_in, inv.signal_in j);
    nobody_else = m.nobody_else;
    books = m.books;
    pids = m.pids;
  }

  -- A step that changes neither BARBER, nor the queue, nor who waits for a cut.
  pub quiet :
      (l k : ℕ) (c : Client)
      → Lock l c.pc
      → pc ≢ sit
      → c.pc ≢ sit
      → seated c ≡ seated (s.client i)
      → c.pending ≤ 1
      → (c.pending ≢ 0 → let_in c.pc ≡ true)
      → (l ≡ 1 → Calm s.barber s.sem_barber (contents s.queue))
      → Door c.pc s.barber s.sem_barber (contents s.queue)
      → Inv (turned s.sem_barber l k s.queue c)
  quiet l k c lock was is same one signal free self = Turn-Inv s.sem_barber l k s.queue c (record {
    valid = inv.valid;
    lock = lock;
    calm_free = free;
    calm_barber = inv.calm_barber;
    asleep = inv.asleep;
    door_self = self;
    door_rest = λ j h. inv.door j;
    one_signal = one;
    signal_in = signal;
    nobody_else = λ j m h. ground (arith, inv.nobody_else j m, inv.nobody_else j i);
    books = λ h m. seated-update s.client i c same m ∙ inv.books (nobody h) m;
    pids = λ h. inv.pids (nobody h);
  })
    where
      nobody : NobodySits (turned s.sem_barber l k s.queue c) → NobodySits s
      nobody h j e = ground (arith, h j)
