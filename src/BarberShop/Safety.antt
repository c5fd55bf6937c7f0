-- ===== src/BarberShop/Safety.antt =====
-- What holds in every state that the barber and the clients can reach.
use sysopy_all.Base.{
  ℕ, sym, ap, ◌≡◌, ◌≢◌, refl, ◌⊎◌, inl, Bool, true, arith, [], ℤ, pos, negsuc, some, length,
}
use sysopy_all.WaitQueue.{MyQueue}
use sysopy_all.WaitQueue.Bounds.{init-IsValid}
use sysopy_all.WaitQueue.Fifo.{contents, contents-init}
use sysopy_all.BarberShop.State.{sleeping, cut_chair, cut_next, doze, done, Shop, blocked, fault}
use sysopy_all.BarberShop.Barber.{queue_init, work, barber_step}
use sysopy_all.BarberShop.System.{Who, barber, client, step, opened, Reach, start, later}
use sysopy_all.BarberShop.Invariant.Defs.{
  Inv, NobodySits, seated, count, owed, barber_holds, client_holds,
}
use sysopy_all.BarberShop.Invariant.Safe.{Safe}
use sysopy_all.BarberShop.Invariant.BarberMoves.{barber_step-Safe, nobody_sits}
use sysopy_all.BarberShop.Invariant.ClientMoves.{client_step-Safe}
use sysopy_all.BarberShop.Rounds.{Rounds, step-Rounds}

step-Safe : (n : ℕ) (w : Who) (s : Shop) → Inv s → Safe (step n w s)
unfolding step
step-Safe n barber s inv = barber_step-Safe s inv
step-Safe n (client i) s inv = client_step-Safe n i s inv

opened-Inv :
    (m q : MyQueue) (len : ℕ) → length m.tab ≡ 1000 → queue_init m len ≡ some q → Inv (opened q)
unfolding queue_init
opened-Inv m q len tab e = record {
  valid = ground (arith, init-IsValid m len);
  binary = omega arith;
  barber_free = λ h. refl;
  client_free = λ i h. refl;
  apart = λ i h. refl;
  unique = λ i j h k. cc;
  calm_free = λ h. inl (refl, none_waits);
  calm_barber = λ h. cc;
  asleep = λ h k. none_waits;
  door = λ i. tt;
  one_signal = λ i. omega arith;
  signal_in = λ i h. absurd (h refl);
  nobody_else = λ i k h. cc;
  books = λ h k. rw none_waits;
  pids = λ h. rw none_waits tt;
}
  where
    none_waits : contents q ≡ []
    none_waits = ground (arith, contents-init m len)

pub Reach-Inv : {n len : ℕ} {s : Shop} → Reach n len s → Inv s
Reach-Inv (start m q tab e) = opened-Inv m q _ tab e
Reach-Inv {n} (later {s} w r e) = rw e at (step-Safe n w s (Reach-Inv r))

Reach-Rounds : {n len : ℕ} {s : Shop} → Reach n len s → Rounds n s
Reach-Rounds (start m q tab e) = λ i. omega arith
Reach-Rounds {n} {s = t} (later {s} w r e) = step-Rounds n w s t (Reach-Inv r) (Reach-Rounds r) e

-- A process that is between its QUEUE down and its QUEUE up.
abbrev pub holds : Who → Shop → Bool
holds barber s = barber_holds s.barber
holds (client i) s = client_holds (s.client i).pc

-- In every reachable state at most one process, barber or client, is between its QUEUE down and its
-- QUEUE up, so the shared queue and its chair are read and written by one process at a time.
pub mutual_exclusion :
    {n len : ℕ} {s : Shop}
    → Reach n len s
    → (v w : Who) → holds v s ≡ true
    → holds w s ≡ true
    → v ≡ w
mutual_exclusion r barber barber h k = refl
mutual_exclusion r barber (client j) h k = ground (arith, (Reach-Inv r).apart j)
mutual_exclusion r (client i) barber h k = ground (arith, (Reach-Inv r).apart i)
mutual_exclusion r (client i) (client j) h k = ap client ((Reach-Inv r).unique i j h k)

-- No step of a reachable state, of the barber or of any client, reads or writes outside the queue's
-- array or signals a negative process id.
pub never_faults : {n len : ℕ} {s : Shop} → Reach n len s → (w : Who) → step n w s ≢ fault
never_faults {n} {s} r w e = rw e at (step-Safe n w s (Reach-Inv r))

-- Whenever the barber is about to signal a process id, in the cut of the client in the chair or of
-- one from the queue, the id is that of a client that was let in and has not been signalled yet.
pub cut_of_waiting :
    {n len : ℕ} {s : Shop} {pid : ℤ}
    → Reach n len s
    → (s.barber ≡ cut_chair pid) ⊎ (s.barber ≡ cut_next pid)
    → (i : ℕ) × (pid ≡ pos i) × (seated (s.client i) ≡ 1)
cut_of_waiting {s} {pid = pos i} r here =
    (i, refl, ground (arith, inv.books (nobody_sits s inv (pos i) here) i))
  where
    inv : Inv s
    inv = Reach-Inv r
cut_of_waiting {s} {pid = negsuc k} r here =
    absurd (ground (arith, (Reach-Inv r).pids (nobody_sits s (Reach-Inv r) (negsuc k) here)))

-- While the barber sleeps and BARBER is 0, no client that was let in still waits for its signal.
pub no_lost_wakeup :
    {n len : ℕ} {s : Shop}
    → Reach n len s
    → s.barber ≡ sleeping
    → s.sem_barber ≡ 0
    → (i : ℕ) → seated (s.client i) ≡ 0
no_lost_wakeup {s} r here still i = ground (arith, inv.books nobody i, inv.asleep)
  where
    inv : Inv s
    inv = Reach-Inv r

    nobody : NobodySits s
    nobody j e = ground (arith, inv.door j)

-- The barber's BARBER down before it sleeps, made with QUEUE held, never waits in a reachable state.
pub no_insomnia : {n len : ℕ} {s : Shop} → Reach n len s → s.barber ≡ doze → barber_step s ≢ blocked
unfolding work
no_insomnia {s} r here = ground (arith, (Reach-Inv r).calm_barber)

-- In every reachable state in which no client is about to write the chair, each client is recorded in
-- the chair, in the barber's hand or in the queue exactly once if it was let in and has not been
-- signalled, and nowhere otherwise.
pub owed_once :
    {n len : ℕ} {s : Shop}
    → Reach n len s
    → NobodySits s
    → (i : ℕ) → count i (owed s) ≡ seated (s.client i)
owed_once r h i = sym ((Reach-Inv r).books h i)

-- A client that has left the loop of `get_cut`, in a reachable state, has had exactly
-- `number_of_cuts` cuts.
pub leaves_with_all_cuts :
    {n len : ℕ} {s : Shop}
    → Reach n len s
    → (i : ℕ) → (s.client i).pc ≡ done
    → (s.client i).cuts ≡ n
leaves_with_all_cuts r i h = ground (arith, Reach-Rounds r i)
