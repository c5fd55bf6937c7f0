-- ===== src/BarberShop/Posix/Visits.antt =====
-- Each step of a client on POSIX semaphores is a step of the client of cw07/zad1, or leaves the shop
-- as it is.
use sysopy_all.Base.{
  ℕ, suc, ◌+◌, ◌≡◌, refl, sym, ap, ◌∙◌, Bool-cases, ==_iff, inl, inr, Option, none, some,
  if◌then◌else◌, ◌==◌, ltb, ℤ, pos, ◌==ℤ◌, minus_one,
}
use sysopy_all.WaitQueue.{MyQueue, my_queue_push}
use sysopy_all.BarberShop.State.{
  ClientPc, outside, checker_lock, queue_lock, look, wake_first, wake_second, sit, enqueue,
  queue_unlock, checker_unlock, suspended, done, Shop, next, fault, Outcome, update,
}
use sysopy_all.BarberShop.Client.{get_cut, enter_barber_shop, pushed}
use sysopy_all.BarberShop.System.{client}
use sysopy_all.BarberShop.Invariant.Defs.{Inv}
use sysopy_all.BarberShop.Posix.{
  Spot, at, await, Visitor, Salon, moved, wrong, change, after_push, enter_salon, visit,
}
use sysopy_all.BarberShop.Posix.Simulation.{
  phase, client_of, shop_of, WaitsNow, Follows, client_of-change, with_clients, lower-Follows,
}
use sysopy_all.BarberShop.Posix.Moves.{step_at, Visited-Waits, move-Follows}
use sysopy_all.BarberShop.Posix.Waking.{wake-Follows, await-Follows}

visit_done-Follows :
    (n : ℕ) (s : Salon) (i : ℕ) (v : Visitor) (p' : ClientPc)
    → (s.visitor i).spot ≡ at suspended
    → v.spot ≡ at p'
    → get_cut n suspended i (shop_of s)
      ≡ next (with_clients (shop_of s) (update (shop_of s).client i (client_of (phase s.stage) v)))
    → WaitsNow s
    → Follows n s (moved (record s { visitor = change s.visitor i v }))
visit_done-Follows n s i v p' q r e w = (
  inl (
    client i,
    step_at n s i suspended q
        ∙ e
        ∙ ap (λ c. next (with_clients (shop_of s) c))
            (sym (client_of-change (phase s.stage) s.visitor i v)),
  ),
  Visited-Waits s i (record s { visitor = change s.visitor i v }) (phase s.stage)
      (record {
        from = suspended;
        to = p';
        was = q;
        is = rw ((==_iff i i).1 refl) r;
        others = λ j g. rw g refl;
        same_wait = refl;
        same_barber = refl;
      })
      w,
)

abbrev pushing : ℕ → Shop → Option (ℤ × MyQueue) → Outcome
pushing i h o = elim o [ none ↦ fault | some (res, q) ↦ pushed res q i h ]

push-Follows :
    (n : ℕ) (s : Salon) (i : ℕ) (o : Option (ℤ × MyQueue))
    → (s.visitor i).spot ≡ at enqueue
    → my_queue_push s.queue (pos i) ≡ o
    → WaitsNow s
    → Follows n s (elim o [ none ↦ wrong | some (res, q) ↦ after_push res q i s ])
unfolding get_cut enter_barber_shop after_push pushed
push-Follows n s i none q e w = (client i, step_at n s i enqueue q ∙ ap (pushing i (shop_of s)) e)
push-Follows n s i (some (res, r)) q e w =
    move-Follows n s (record s { queue = r }) i enqueue
      (queue_unlock (if res ==ℤ minus_one then minus_one else pos 0)) q refl refl refl (λ j. refl)
      (ap (pushing i (shop_of s)) e) w

pub visit-Follows :
    (n : ℕ) (s : Salon) (i : ℕ) (p : Spot)
    → (s.visitor i).spot ≡ p
    → Inv (shop_of s)
    → WaitsNow s
    → Follows n s (visit n p i s)
unfolding visit enter_salon get_cut enter_barber_shop
visit-Follows n s i (at outside) q inv w =
    move-Follows n s s i outside (if ltb (s.visitor i).cuts n then checker_lock else done) q refl
      refl refl (λ j. refl) refl w
visit-Follows n s i (at checker_lock) q inv w = lower-Follows n s s.sem_check _ (λ k e.
    move-Follows n s (record s { sem_check = k }) i checker_lock queue_lock q refl refl refl
      (λ j. refl) (rw e refl) w)
visit-Follows n s i (at queue_lock) q inv w = lower-Follows n s s.sem_queue _ (λ k e.
    move-Follows n s (record s { sem_queue = k }) i queue_lock look q refl refl refl (λ j. refl)
      (rw e refl) w)
visit-Follows n s i (at look) q inv w =
    move-Follows n s s i look (if s.sem_barber == 0 then wake_first else enqueue) q refl refl refl
      (λ j. refl) refl w
visit-Follows n s i (at wake_first) q inv w = wake-Follows n s i q inv w
visit-Follows n s i (at wake_second) q inv w = tt
visit-Follows n s i (at sit) q inv w =
    move-Follows n s (record s { queue = record (s.queue) { chair = pos i } }) i sit
      (queue_unlock (pos 1)) q refl refl refl (λ j. refl) refl w
visit-Follows n s i (at enqueue) q inv w =
    push-Follows n s i (my_queue_push s.queue (pos i)) q refl w
visit-Follows n s i (at (queue_unlock res)) q inv w =
    move-Follows n s (record s { sem_queue = suc s.sem_queue }) i (queue_unlock res)
      (checker_unlock res) q refl refl refl (λ j. refl) refl w
visit-Follows n s i (at (checker_unlock res)) q inv w =
    move-Follows n s (record s { sem_check = suc s.sem_check }) i (checker_unlock res)
      (if res ==ℤ minus_one then outside else suspended) q refl refl refl (λ j. refl) refl w
visit-Follows n s i (at suspended) q inv w = elim (Bool-cases ((s.visitor i).pending == 0)) [
  | inl e ↦ rw e tt
  | inr e ↦ rw e (
      visit_done-Follows n s i
        (record {
          spot = at outside;
          cuts = (s.visitor i).cuts + (s.visitor i).pending;
          pending = 0;
        })
        outside q refl (rw e refl) w)
]
visit-Follows n s i (at done) q inv w = tt
visit-Follows n s i await q inv w =
    lower-Follows n s s.sem_wait _ (λ m e. await-Follows n s i m (phase s.stage) q e inv refl w)
