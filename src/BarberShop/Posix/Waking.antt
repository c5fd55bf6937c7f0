-- ===== src/BarberShop/Posix/Waking.antt =====
-- The client that wakes the barber, and waits until it is awake.
use mathlib.Core.Path.{fun_ext}
use sysopy_all.Base.{
  ℕ, suc, ◌≡◌, ◌≢◌, refl, sym, ap, subst, ◌∙◌, true, false, Bool-cases, ==_iff, inl, inr, ◌==◌, ℤ,
  arith, List,
}
use sysopy_all.BarberShop.State.{
  BarberPc, sleeping, take_lock, take_read, take_unlock, cut_chair, next_lock, next_pop,
  next_unlock, cut_next, doze, doze_unlock, wake_first, sit, next, goto,
}
use sysopy_all.BarberShop.Client.{get_cut, enter_barber_shop}
use sysopy_all.BarberShop.System.{client}
use sysopy_all.BarberShop.Invariant.Defs.{Inv, client_holds, Waking, Knows}
use sysopy_all.WaitQueue.Fifo.{contents}
use sysopy_all.BarberShop.Posix.{
  Stage, on, awake, announce, at, await, Visitor, Salon, moved, change, move_to,
}
use sysopy_all.BarberShop.Posix.Simulation.{
  Phase, asleep, half_woken, announcing, busy, phase, place, waiting_at, spot_at, client_of,
  shop_of, Waits, WaitsNow, Follows, client_of-change, with_clients,
}
use sysopy_all.BarberShop.Posix.Moves.{step_at, apart}

-- Before the first increment of BARBER, the barber sleeps and the semaphore is 0.
sleeping_of : (p : BarberPc) (n : ℕ) (xs : List ℤ) → Waking 0 p n xs → p ≡ sleeping
sleeping_of sleeping n xs d = refl
sleeping_of take_lock n xs (d, e) = absurd (omega (arith, d))
sleeping_of take_read n xs d = absurd d
sleeping_of (take_unlock pid) n xs d = absurd d
sleeping_of (cut_chair pid) n xs d = absurd d
sleeping_of next_lock n xs d = absurd d
sleeping_of next_pop n xs d = absurd d
sleeping_of (next_unlock pid) n xs d = absurd d
sleeping_of (cut_next pid) n xs d = absurd d
sleeping_of doze n xs d = absurd d
sleeping_of doze_unlock n xs d = absurd d

asleep_of : (p : Stage) → place p ≡ sleeping → phase p ≡ asleep
asleep_of (on sleeping) e = refl
asleep_of (on take_lock) e = absurd cc
asleep_of (on take_read) e = absurd cc
asleep_of (on (take_unlock pid)) e = absurd cc
asleep_of (on (cut_chair pid)) e = absurd cc
asleep_of (on next_lock) e = absurd cc
asleep_of (on next_pop) e = absurd cc
asleep_of (on (next_unlock pid)) e = absurd cc
asleep_of (on (cut_next pid)) e = absurd cc
asleep_of (on doze) e = absurd cc
asleep_of (on doze_unlock) e = absurd cc
asleep_of awake e = absurd cc
asleep_of announce e = absurd cc

pub wake-Follows :
    (n : ℕ) (s : Salon) (i : ℕ)
    → (s.visitor i).spot ≡ at wake_first
    → Inv (shop_of s)
    → WaitsNow s
    → Follows n s (moved (move_to (record s { sem_barber = suc s.sem_barber }) i await))
unfolding get_cut enter_barber_shop
wake-Follows n s i q inv w = (
  inl (
    client i,
    step_at n s i wake_first q
        ∙ ap (λ p. next (goto (shop_of s') i p)) (sym (ap waiting_at sleeps))
        ∙ ap (λ c. next (with_clients (shop_of s') c))
            (sym (
              client_of-change (phase s.stage) s.visitor i
                (record (s.visitor i) { spot = await }))),
  ),
  subst (λ f. Waits f (move_to s' i await)) (sym sleeps)
      ((subst (λ f. Waits f s) sleeps w).0, inr (i, rw ((==_iff i i).1 refl) refl)),
)
  where
    s' : Salon
    s' = record s { sem_barber = suc s.sem_barber }

    sleeps : phase s.stage ≡ asleep
    sleeps = asleep_of s.stage (
        sleeping_of (place s.stage) s.sem_barber (contents s.queue)
          (subst (λ x. Knows (spot_at (phase s.stage) x) (shop_of s)) q (inv.door i)))

sits_now :
    (f : Phase) (v : Visitor)
    → f ≡ busy
    → v.spot ≡ await
    → client_of f (record v { spot = at sit }) ≡ client_of f v
sits_now f v p q =
    ap (λ c. record (client_of f v) { pc = c }) (sym (ap (spot_at f) q ∙ ap waiting_at p))

pub await-Follows :
    (n : ℕ) (s : Salon) (i m : ℕ) (f : Phase)
    → (s.visitor i).spot ≡ await
    → s.sem_wait ≡ suc m
    → Inv (shop_of s)
    → phase s.stage ≡ f
    → Waits f s
    → Follows n s (moved (move_to (record s { sem_wait = m }) i (at sit)))
await-Follows n s i m asleep q e inv p (w, _) = absurd (omega (arith, e, w))
await-Follows n s i m half_woken q e inv p (w, _) = absurd (omega (arith, e, w))
await-Follows n s i m announcing q e inv p (w, _) = absurd (omega (arith, e, w))
await-Follows n s i m busy q e inv p (inl (w, _)) = absurd (omega (arith, e, w))
await-Follows n s i m busy q e inv p (inr (w, _)) = (
  inr (ap (with_clients (shop_of s)) (fun_ext same)),
  subst (λ f. Waits f (move_to (record s { sem_wait = m }) i (at sit))) (sym p)
      (inl (omega (arith, e, w), nobody)),
)
  where
    same :
        (j : ℕ)
        → client_of (phase s.stage) (change s.visitor i (record (s.visitor i) { spot = at sit }) j)
          ≡ client_of (phase s.stage) (s.visitor j)
    same j = elim (Bool-cases (i == j)) [
      | inl g ↦ rw g (
          sits_now (phase s.stage) (s.visitor i) p q
          ∙ ap (λ k. client_of (phase s.stage) (s.visitor k)) ((==_iff i j).0 g))
      | inr g ↦ rw g refl
    ]

    holding :
        (k : ℕ)
        → (s.visitor k).spot ≡ await
        → client_holds (spot_at (phase s.stage) (s.visitor k).spot) ≡ true
    holding k r = ap client_holds (ap (spot_at (phase s.stage)) r ∙ ap waiting_at p)

    differ : (j : ℕ) → (i == j) ≡ false → i ≢ j
    differ j g r = ground arith

    nobody : (j : ℕ) → (change s.visitor i (record (s.visitor i) { spot = at sit }) j).spot ≢ await
    nobody j r = elim (Bool-cases (i == j)) [
      | inl g ↦ apart sit (rw g at r)
      | inr g ↦ differ j g (inv.unique i j (holding i q) (holding j (rw g at r)))
    ]
