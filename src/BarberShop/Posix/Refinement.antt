-- ===== src/BarberShop/Posix/Refinement.antt =====
-- The shop on POSIX semaphores does nothing that the shop of cw07/zad1 cannot do.
use sysopy_all.Base.{ℕ, ◌≡◌, ◌≢◌, refl, sym, subst, inl, inr}
use sysopy_all.BarberShop.System.{Who, barber, client, Reach, start, later}
use sysopy_all.BarberShop.Invariant.Defs.{Inv}
use sysopy_all.BarberShop.Safety.{Reach-Inv, never_faults}
use sysopy_all.BarberShop.Posix.{Salon, moved, wrong, salon_step, Reached, begin, onward}
use sysopy_all.BarberShop.Posix.Simulation.{shop_of, WaitsNow, Follows}
use sysopy_all.BarberShop.Posix.Turns.{barber_turn-Follows}
use sysopy_all.BarberShop.Posix.Visits.{visit-Follows}

salon_step-Follows :
    (n : ℕ) (w : Who) (s : Salon) → Inv (shop_of s) → WaitsNow s → Follows n s (salon_step n w s)
unfolding salon_step
salon_step-Follows n barber s inv v = barber_turn-Follows n s s.stage inv v
salon_step-Follows n (client i) s inv v = visit-Follows n s i (s.visitor i).spot refl inv v

onward-simulates :
    (n len : ℕ) (s t : Salon) (w : Who)
    → Reach n len (shop_of s) × WaitsNow s
    → salon_step n w s ≡ moved t
    → Reach n len (shop_of t) × WaitsNow t
onward-simulates n len s t w (r, v) e = go (rw e at (salon_step-Follows n w s (Reach-Inv r) v))
  where
    go : Follows n s (moved t) → Reach n len (shop_of t) × WaitsNow t
    go (inl (x, f), v') = (later x r f, v')
    go (inr f, v') = (subst (Reach n len) (sym f) r, v')

Reached-simulates : {n len : ℕ} {s : Salon} → Reached n len s → Reach n len (shop_of s) × WaitsNow s
Reached-simulates (begin m q tab e) = (start m q tab e, (refl, inl (refl, λ i. cc)))
Reached-simulates {n} {len} {s = t} (onward {s} w r e) =
    onward-simulates n len s t w (Reached-simulates r) e

-- Every state that the barber and the clients on POSIX semaphores reach, in any order of their steps,
-- stands for a state that those of cw07/zad1 reach, from a queue of the same length.
pub refines : {n len : ℕ} {s : Salon} → Reached n len s → Reach n len (shop_of s)
refines r = (Reached-simulates r).0

-- In every reachable state no step, of the barber or of any client, reads or writes outside the
-- queue's array or signals a negative process id.
pub never_wrong : {n len : ℕ} {s : Salon} → Reached n len s → (w : Who) → salon_step n w s ≢ wrong
never_wrong {n} {s = s} r w e =
    let u = Reached-simulates r in
    let f = rw e at (salon_step-Follows n w s (Reach-Inv u.0) u.1) in never_faults u.0 f.0 f.1
