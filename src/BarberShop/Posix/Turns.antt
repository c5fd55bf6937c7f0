-- ===== src/BarberShop/Posix/Turns.antt =====
-- Each step of the barber on POSIX semaphores is a step of the shop of cw07/zad1, of the barber or of
-- the client that woke it, or leaves the shop as it is.
use mathlib.Core.Path.{fun_ext}
use sysopy_all.Base.{
  ℕ, suc, ◌≡◌, ◌≢◌, refl, sym, ap, subst, ◌∙◌, true, false, Bool-cases, ==_iff, inl, inr, Option,
  none, some, ◌==◌, ℤ, pos, negsuc, ◌==ℤ◌, minus_one, arith,
}
use sysopy_all.WaitQueue.{MyQueue, my_queue_pop}
use sysopy_all.BarberShop.State.{
  BarberPc, sleeping, take_lock, take_read, take_unlock, cut_chair, next_lock, next_pop,
  next_unlock, cut_next, doze, doze_unlock, sit, Client, Shop, next, fault, Outcome, update,
}
use sysopy_all.BarberShop.Barber.{work, cut, popped, signalled}
use sysopy_all.BarberShop.Client.{get_cut, enter_barber_shop}
use sysopy_all.BarberShop.System.{barber, client, step}
use sysopy_all.BarberShop.Invariant.Defs.{Inv}
use sysopy_all.BarberShop.Posix.{
  Stage, on, awake, announce, await, Visitor, Salon, wrong, change, snip, after_pop, barber_turn,
}
use sysopy_all.BarberShop.Posix.Simulation.{
  asleep, half_woken, announcing, busy, phase, spot_at, client_of, shop_of, Waits, WaitsNow,
  Follows, client_of-change, client_of-shift, client_of-elsewhere, with_clients, at_stage,
  lower-Follows,
}

-- A signal changes nobody's place.
signal_Waits :
    (s : Salon) (i : ℕ) (v : Visitor) (p : BarberPc)
    → v.spot ≡ (s.visitor i).spot
    → Waits busy s
    → Waits busy (record s { visitor = change s.visitor i v; stage = on p })
signal_Waits s i v p e (inl (w, f)) = inl (w, λ j q. f j (ground arith))
signal_Waits s i v p e (inr (w, (j, q))) = inr (w, (j, ground arith))

snip-Follows :
    (n : ℕ) (s : Salon) (p : BarberPc) (pid : ℤ)
    → phase (on p) ≡ busy
    → step n barber (shop_of (at_stage s (on p))) ≡ cut pid next_lock (shop_of (at_stage s (on p)))
    → WaitsNow (at_stage s (on p))
    → Follows n (at_stage s (on p)) (snip pid next_lock s)
unfolding snip cut
snip-Follows n s p (pos i) e f w = (
  inl (
    barber,
    f
        ∙ ap (λ c. next (with_clients (shop_of (at_stage s (on next_lock))) c))
            (signals
              ∙ sym (
                  client_of-change busy s.visitor i
                    (record (s.visitor i) { pending = suc (s.visitor i).pending }))),
  ),
  signal_Waits (at_stage s (on p)) i (record (s.visitor i) { pending = suc (s.visitor i).pending })
      next_lock refl (subst (λ f. Waits f (at_stage s (on p))) e w),
)
  where
    signals :
        Path
          (ℕ → Client)
          (update
            (λ j. client_of (phase (on p)) (s.visitor j))
            i
            (signalled (client_of (phase (on p)) (s.visitor i))))
          (update (λ j. client_of busy (s.visitor j)) i (signalled (client_of busy (s.visitor i))))
    signals =
        ap (λ f. update (λ j. client_of f (s.visitor j)) i (signalled (client_of f (s.visitor i))))
          e
snip-Follows n s p (negsuc k) e f w = (barber, f)

abbrev popping : Shop → Option (ℤ × MyQueue) → Outcome
popping h o = elim o [ none ↦ fault | some (pid, q) ↦ popped pid q h ]

pop-Follows :
    (n : ℕ) (s : Salon) (o : Option (ℤ × MyQueue))
    → my_queue_pop s.queue ≡ o
    → WaitsNow (at_stage s (on next_pop))
    → Follows n
        (at_stage s (on next_pop))
        (elim o [ none ↦ wrong | some (pid, q) ↦ after_pop pid q s ])
unfolding after_pop step work popped
pop-Follows n s none e w = (barber, ap (popping (shop_of (at_stage s (on next_pop)))) e)
pop-Follows n s (some (pid, q)) e w = elim (Bool-cases (pid ==ℤ minus_one)) [
  | inl f ↦ rw f (inl (barber, ap (popping (shop_of (at_stage s (on next_pop)))) e ∙ rw f refl), w)
  | inr f ↦ rw f (inl (barber, ap (popping (shop_of (at_stage s (on next_pop)))) e ∙ rw f refl), w)
]

sits :
    (v : Visitor)
    → v.spot ≡ await
    → record (client_of half_woken v) { pc = sit } ≡ client_of announcing v
sits v q = ap (λ p. record (client_of half_woken v) { pc = spot_at announcing p }) (sym q)

-- The barber's own increment stands for the second one of the client that woke it.
wakes :
    (n : ℕ) (s : Salon) (i : ℕ)
    → Inv (shop_of (at_stage s awake))
    → (s.visitor i).spot ≡ await
    → step n (client i) (shop_of (at_stage s awake))
      ≡ next (shop_of (record s { sem_barber = suc s.sem_barber; stage = announce }))
unfolding step get_cut enter_barber_shop
wakes n s i inv q =
    ap (λ p. get_cut n (spot_at half_woken p) i (shop_of (at_stage s awake))) q
    ∙ ap
        (λ c.
          next (
            with_clients (shop_of (record s { sem_barber = suc s.sem_barber; stage = announce }))
              c))
        (fun_ext other)
  where
    other :
        (j : ℕ)
        → update
            (λ k. client_of half_woken (s.visitor k))
            i
            (record (client_of half_woken (s.visitor i)) { pc = sit })
            j
          ≡ client_of announcing (s.visitor j)
    other j = elim (Bool-cases (i == j)) [
      | inl e ↦
          rw e
            (sits (s.visitor i) q ∙ ap (λ k. client_of announcing (s.visitor k)) ((==_iff i j).0 e))
      | inr e ↦ rw e (
          client_of-elsewhere half_woken announcing (s.visitor j)
            (λ r. absurd (differ e (inv.unique i j (rw q refl) (rw r refl)))))
    ]
      where
        differ : (i == j) ≡ false → i ≢ j
        differ e f = ground arith

pub barber_turn-Follows :
    (n : ℕ) (s : Salon) (p : Stage)
    → Inv (shop_of (at_stage s p))
    → WaitsNow (at_stage s p)
    → Follows n (at_stage s p) (barber_turn p s)
unfolding barber_turn after_pop step work popped
barber_turn-Follows n s (on sleeping) inv (w, v) =
    lower-Follows n (at_stage s (on sleeping)) s.sem_barber _ (λ m e. (
      inl (
        barber,
        rw e (
            ap (λ c. next (with_clients (shop_of (record s { sem_barber = m; stage = awake })) c))
              (fun_ext (λ j. client_of-shift asleep half_woken (s.visitor j) refl))),
      ),
      (w, elim v [ inl (z, f) ↦ absurd (omega (arith, e, z)) | inr x ↦ x ]),
    ))
barber_turn-Follows n s awake inv (w, (i, q)) = (inl (client i, wakes n s i inv q), (w, (i, q)))
barber_turn-Follows n s announce inv (w, (i, q)) = (
  inr (
      ap (with_clients (shop_of (at_stage s (on take_lock))))
        (fun_ext (λ j. client_of-shift busy announcing (s.visitor j) refl))),
  inr (ap suc w, (i, q)),
)
barber_turn-Follows n s (on take_lock) inv w =
    lower-Follows n (at_stage s (on take_lock)) s.sem_queue _ (λ m e. (inl (barber, rw e refl), w))
barber_turn-Follows n s (on take_read) inv w = (inl (barber, refl), w)
barber_turn-Follows n s (on (take_unlock pid)) inv w = (inl (barber, refl), w)
barber_turn-Follows n s (on (cut_chair pid)) inv w =
    snip-Follows n s (cut_chair pid) pid refl refl w
barber_turn-Follows n s (on next_lock) inv w =
    lower-Follows n (at_stage s (on next_lock)) s.sem_queue _ (λ m e. (inl (barber, rw e refl), w))
barber_turn-Follows n s (on next_pop) inv w = pop-Follows n s (my_queue_pop s.queue) refl w
barber_turn-Follows n s (on (next_unlock pid)) inv w = (inl (barber, refl), w)
barber_turn-Follows n s (on (cut_next pid)) inv w = snip-Follows n s (cut_next pid) pid refl refl w
barber_turn-Follows n s (on doze) inv w =
    lower-Follows n (at_stage s (on doze)) s.sem_barber _ (λ m e. (inl (barber, rw e refl), w))
barber_turn-Follows n s (on doze_unlock) inv (inr (w, (i, q))) =
    absurd (apart (inv.apart i (rw q refl)))
  where
    apart : true ≡ false → ⊥
    apart e = cc
barber_turn-Follows n s (on doze_unlock) inv (inl (w, f)) = (
  inl (
    barber,
    ap
        (λ c. next (
          with_clients (shop_of (record s { sem_queue = suc s.sem_queue; stage = on sleeping })) c))
        (fun_ext (λ j. client_of-elsewhere busy asleep (s.visitor j) (f j))),
  ),
  (w, inl ((inv.calm_barber refl).0, f)),
)
