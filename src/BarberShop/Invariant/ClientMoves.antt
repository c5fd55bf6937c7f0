-- ===== src/BarberShop/Invariant/ClientMoves.antt =====
-- A step of a client keeps the invariant, and does not go wrong.
use sysopy_all.Base.{
  ℕ, suc, ◌≡◌, refl, inl, inr, arith, ℤ, pos, some, none, Returns, ◌==◌, Option, Bool-cases,
}
use sysopy_all.WaitQueue.{MyQueue, my_queue_push}
use sysopy_all.WaitQueue.Bounds.{IsValid}
use sysopy_all.WaitQueue.Fifo.{contents, fifo_push, push_lem, contents-chair}
use sysopy_all.BarberShop.State.{
  ClientPc, outside, checker_lock, queue_lock, look, wake_first, wake_second, sit, enqueue,
  queue_unlock, checker_unlock, suspended, done, Shop, fault, goto,
}
use sysopy_all.BarberShop.Client.{get_cut, enter_barber_shop, pushed, client_step}
use sysopy_all.BarberShop.Invariant.Safe.{Safe, down-Safe}
use sysopy_all.BarberShop.Invariant.Defs.{Inv, NobodySits, in_chair, in_hand}
use sysopy_all.BarberShop.Invariant.Owed.{count-snoc, AllPids-snoc}
use sysopy_all.BarberShop.Invariant.Turn.{Turn-Inv, quiet}

module _ (s : Shop) (inv : Inv s) (i : ℕ) where
  come : (n : ℕ) → (s.client i).pc ≡ outside → Safe (get_cut n outside i s)
  unfolding get_cut
  come n here =
      quiet s inv i s.sem_queue s.sem_checker _ (ground arith) (ground arith) (ground arith)
        (ground arith) (inv.one_signal i) (ground (arith, inv.signal_in i)) inv.calm_free
        (ground arith)

  lock_checker : (n : ℕ) → (s.client i).pc ≡ checker_lock → Safe (get_cut n checker_lock i s)
  unfolding get_cut
  lock_checker n here = down-Safe s.sem_checker _ λ k e.
      quiet s inv i s.sem_queue k _ (ground arith) (ground arith) (ground arith) (ground arith)
        (inv.one_signal i) (ground (arith, inv.signal_in i)) inv.calm_free (ground arith)

  lock_queue : (n : ℕ) → (s.client i).pc ≡ queue_lock → Safe (get_cut n queue_lock i s)
  unfolding get_cut
  lock_queue n here = down-Safe s.sem_queue _ λ l e.
      quiet s inv i l s.sem_checker _ (ground arith) (ground arith) (ground arith) (ground arith)
        (inv.one_signal i) (ground (arith, inv.signal_in i)) (ground (arith, inv.binary))
        (ground (arith, inv.calm_free, inv.binary))

  look_in : (n : ℕ) → (s.client i).pc ≡ look → Safe (get_cut n look i s)
  unfolding get_cut enter_barber_shop
  look_in n here =
      quiet s inv i s.sem_queue s.sem_checker _ (ground arith) (ground arith) (ground arith)
        (ground arith) (inv.one_signal i) (ground (arith, inv.signal_in i)) inv.calm_free
        (ground (arith, inv.door i, inv.apart i))

  unlock_queue :
      (n : ℕ) (res : ℤ)
      → (s.client i).pc ≡ queue_unlock res
      → Safe (get_cut n (queue_unlock res) i s)
  unfolding get_cut
  unlock_queue n res here =
      quiet s inv i (suc s.sem_queue) s.sem_checker _ (ground arith) (ground arith) (ground arith)
        (ground arith) (inv.one_signal i) (ground (arith, inv.signal_in i))
        (ground (arith, inv.door i)) tt

  unlock_checker :
      (n : ℕ) (res : ℤ)
      → (s.client i).pc ≡ checker_unlock res
      → Safe (get_cut n (checker_unlock res) i s)
  unfolding get_cut
  unlock_checker n res here =
      quiet s inv i s.sem_queue (suc s.sem_checker) _ (ground arith) (ground arith) (ground arith)
        (ground arith) (inv.one_signal i) (ground (arith, inv.signal_in i)) inv.calm_free
        (ground arith)

  wake_up : (n : ℕ) → (s.client i).pc ≡ suspended → Safe (get_cut n suspended i s)
  unfolding get_cut
  wake_up n here = elim (Bool-cases ((s.client i).pending == 0)) [
    | inl e ↦ rw e tt
    | inr e ↦ rw e (
        quiet s inv i s.sem_queue s.sem_checker _ (ground arith) (ground arith) (ground arith)
          (ground arith) (ground arith) (ground arith) inv.calm_free (ground arith))
  ]

  ring : (n : ℕ) → (s.client i).pc ≡ wake_first → Safe (get_cut n wake_first i s)
  unfolding get_cut enter_barber_shop
  ring n here = Turn-Inv s inv i (suc s.sem_barber) s.sem_queue s.sem_checker s.queue _ (record {
    valid = inv.valid;
    lock = ground arith;
    calm_free = λ h. ground (arith, inv.client_free i);
    calm_barber = λ h. ground (arith, inv.apart i);
    asleep = λ h h'. ground (arith, inv.asleep, inv.door i);
    door_self = ground (arith, inv.door i);
    door_rest = λ j h. ground (arith, inv.door j, inv.unique i j);
    one_signal = inv.one_signal i;
    signal_in = λ h. ground (arith, inv.signal_in i);
    nobody_else = λ j m h. ground (arith, inv.nobody_else j m, inv.nobody_else j i);
    books = λ h m. ground (arith, inv.books (nobody h) m, inv.door i);
    pids = λ h. ground (arith, inv.pids (nobody h), inv.door i);
  })
    where
      nobody :
          NobodySits (goto (record s { sem_barber = suc s.sem_barber }) i wake_second)
          → NobodySits s
      nobody h j e = ground (arith, h j)

  ring_again : (n : ℕ) → (s.client i).pc ≡ wake_second → Safe (get_cut n wake_second i s)
  unfolding get_cut enter_barber_shop
  ring_again n here =
      Turn-Inv s inv i (suc s.sem_barber) s.sem_queue s.sem_checker s.queue _ (record {
        valid = inv.valid;
        lock = ground arith;
        calm_free = λ h. ground (arith, inv.client_free i);
        calm_barber = λ h. ground (arith, inv.apart i);
        asleep = λ h h'. ground (arith, inv.asleep, inv.door i);
        door_self = ground (arith, inv.door i);
        door_rest = λ j h. ground (arith, inv.door j, inv.unique i j);
        one_signal = inv.one_signal i;
        signal_in = λ h. ground (arith, inv.signal_in i);
        nobody_else = λ j m h. ground (arith, inv.books nobody m, inv.door i);
        books = λ h m. absurd (h i (ground arith));
        pids = λ h. absurd (h i (ground arith));
      })
    where
      nobody : NobodySits s
      nobody j e = ground (arith, inv.unique i j)

  take_seat : (n : ℕ) → (s.client i).pc ≡ sit → Safe (get_cut n sit i s)
  unfolding get_cut enter_barber_shop
  take_seat n here =
      Turn-Inv s inv i s.sem_barber s.sem_queue s.sem_checker (record (s.queue) { chair = pos i }) _
        (record {
          valid = record {
            storage = inv.valid.storage;
            tail_in = inv.valid.tail_in;
            head_in = inv.valid.head_in;
          };
          lock = ground arith;
          calm_free = λ h. ground (arith, inv.client_free i);
          calm_barber = λ h. ground (arith, inv.apart i);
          asleep = λ h h'. ground (arith, inv.asleep, contents-chair s.queue (pos i));
          door_self = ground (arith, inv.door i, contents-chair s.queue (pos i));
          door_rest = λ j h. ground (arith, inv.door j, inv.unique i j);
          one_signal = inv.one_signal i;
          signal_in = λ h. ground (arith, inv.signal_in i);
          nobody_else = λ j m h. ground (arith, inv.unique i j);
          books = λ h m. ground (
            arith,
            inv.nobody_else i m here,
            inv.door i,
            contents-chair s.queue (pos i),
            inv.signal_in i,
          );
          pids = λ h. ground (arith, inv.door i, contents-chair s.queue (pos i));
        })

  -- The queue after a push, and the client that pushed.
  pushed-Safe :
      (s.client i).pc ≡ enqueue
      → (res : ℤ) (q : MyQueue) → IsValid q
      → (res, contents q) ≡ fifo_push s.queue.max (contents s.queue) (pos i)
      → q.chair ≡ s.queue.chair
      → Safe (pushed res q i s)
  unfolding pushed fifo_push
  pushed-Safe here res q v e same =
      Turn-Inv s inv i s.sem_barber s.sem_queue s.sem_checker q _ (record {
        valid = v;
        lock = ground arith;
        calm_free = λ h. ground (arith, inv.client_free i);
        calm_barber = λ h. ground (arith, inv.apart i);
        asleep = λ h h'. ground (arith, inv.asleep, inv.door i);
        door_self = ground (arith, inv.door i, inv.apart i);
        door_rest = λ j h. ground (arith, inv.door j, inv.unique i j);
        one_signal = inv.one_signal i;
        signal_in = λ h. ground (arith, inv.signal_in i);
        nobody_else = λ j m h. ground (arith, inv.unique i j);
        books = λ h m. ground (
          arith,
          inv.books nobody m,
          inv.signal_in i,
          count-snoc m (in_chair s.barber s.sem_barber q.chair) (in_hand s.barber)
              (contents s.queue) (pos i),
        );
        pids = λ h. ground (
          arith,
          inv.pids nobody,
          AllPids-snoc i (in_chair s.barber s.sem_barber q.chair) (in_hand s.barber)
              (contents s.queue),
        );
      })
    where
      nobody : NobodySits s
      nobody j h = ground (arith, inv.unique i j)

  push_result :
      (s.client i).pc ≡ enqueue
      → (o : Option (ℤ × MyQueue))
      → Returns
          (λ r.
            IsValid r.1
            × ((r.0, contents r.1) ≡ fifo_push s.queue.max (contents s.queue) (pos i))
            × (r.1.chair ≡ s.queue.chair))
          o
      → Safe (elim o [ none ↦ fault | some (res, q) ↦ pushed res q i s ])
  push_result here none r = absurd r
  push_result here (some (res, q)) r = pushed-Safe here res q r.0 r.1 r.2

  join : (n : ℕ) → (s.client i).pc ≡ enqueue → Safe (get_cut n enqueue i s)
  unfolding get_cut enter_barber_shop
  join n here =
      push_result here (my_queue_push s.queue (pos i)) (push_lem s.queue (pos i) inv.valid)

  get_cut-Safe : (n : ℕ) (p : ClientPc) → (s.client i).pc ≡ p → Safe (get_cut n p i s)
  unfolding get_cut
  get_cut-Safe n outside here = come n here
  get_cut-Safe n checker_lock here = lock_checker n here
  get_cut-Safe n queue_lock here = lock_queue n here
  get_cut-Safe n look here = look_in n here
  get_cut-Safe n wake_first here = ring n here
  get_cut-Safe n wake_second here = ring_again n here
  get_cut-Safe n sit here = take_seat n here
  get_cut-Safe n enqueue here = join n here
  get_cut-Safe n (queue_unlock res) here = unlock_queue n res here
  get_cut-Safe n (checker_unlock res) here = unlock_checker n res here
  get_cut-Safe n suspended here = wake_up n here
  get_cut-Safe n done here = tt

pub client_step-Safe : (n i : ℕ) (s : Shop) → Inv s → Safe (client_step n i s)
client_step-Safe n i s inv = get_cut-Safe s inv i n (s.client i).pc refl
