-- ===== src/BarberShop/Posix/Simulation.antt =====
-- The shop of cw07/zad1 that a state on POSIX semaphores stands for.
use mathlib.Core.Path.{fun_ext}
use sysopy_all.Base.{ℕ, zero, suc, ◌≡◌, ◌≢◌, refl, ◌⊎◌, arith}
use sysopy_all.BarberShop.State.{
  BarberPc, sleeping, take_lock, ClientPc, wake_second, sit, Client, Shop, next, fault, update,
}
use sysopy_all.BarberShop.System.{Who, step}
use sysopy_all.BarberShop.Posix.{
  Stage, on, awake, announce, Spot, at, await, Visitor, Salon, Move, moved, waits, wrong, lower,
  change,
}

-- Where the barber is, as far as the client that woke it is concerned.
pub data Phase : Type 0 where
  asleep : Phase
  half_woken : Phase
  announcing : Phase
  busy : Phase

abbrev pub phase : Stage → Phase
phase (on sleeping) = asleep
phase awake = half_woken
phase announce = announcing
phase (on _) = busy

abbrev pub place : Stage → BarberPc
place (on p) = p
place awake = take_lock
place announce = take_lock

-- The client that waits is between the two increments of cw07/zad1, then after them.
abbrev pub waiting_at : Phase → ClientPc
waiting_at asleep = wake_second
waiting_at half_woken = wake_second
waiting_at announcing = sit
waiting_at busy = sit

abbrev pub spot_at : Phase → Spot → ClientPc
spot_at f (at p) = p
spot_at f await = waiting_at f

abbrev pub client_of : Phase → Visitor → Client
client_of f v = record { pc = spot_at f v.spot; cuts = v.cuts; pending = v.pending }

-- The shop of cw07/zad1 that the salon stands for.
abbrev pub shop_of : Salon → Shop
shop_of s = record {
  sem_barber = s.sem_barber;
  sem_queue = s.sem_queue;
  sem_checker = s.sem_check;
  queue = s.queue;
  barber = place s.stage;
  client = λ i. client_of (phase s.stage) (s.visitor i);
}

abbrev pub Nobody : Salon → Type 0
Nobody s = (i : ℕ) → (s.visitor i).spot ≢ await

abbrev pub Somebody : Salon → Type 0
Somebody s = (i : ℕ) × ((s.visitor i).spot ≡ await)

-- Who waits on `wait_semaphore`, and what it is worth.
abbrev pub Waits : Phase → Salon → Type 0
Waits asleep s = (s.sem_wait ≡ 0) × (((s.sem_barber ≡ 0) × Nobody s) ⊎ Somebody s)
Waits half_woken s = (s.sem_wait ≡ 0) × Somebody s
Waits announcing s = (s.sem_wait ≡ 0) × Somebody s
Waits busy s = ((s.sem_wait ≡ 0) × Nobody s) ⊎ ((s.sem_wait ≡ 1) × Somebody s)

abbrev pub WaitsNow : Salon → Type 0
WaitsNow s = Waits (phase s.stage) s

-- The move is a step of the shop or keeps it, and who waits is still right.
abbrev pub Follows : ℕ → Salon → Move → Type 0
Follows n s (moved t) =
    (((w : Who) × (step n w (shop_of s) ≡ next (shop_of t))) ⊎ (shop_of t ≡ shop_of s)) × WaitsNow t
Follows n s waits = Unit
Follows n s wrong = (w : Who) × (step n w (shop_of s) ≡ fault)

pub client_of-change :
    (f : Phase) (g : ℕ → Visitor) (i : ℕ) (v : Visitor)
    → Path
        (ℕ → Client)
        (λ j. client_of f (change g i v j))
        (update (λ j. client_of f (g j)) i (client_of f v))
client_of-change f g i v = fun_ext (λ j. ground arith)

pub client_of-shift :
    (f g : Phase) (v : Visitor) → waiting_at f ≡ waiting_at g → client_of f v ≡ client_of g v
client_of-shift f g v e = spot v.spot
  where
    spot : (p : Spot) → client_of f (record v { spot = p }) ≡ client_of g (record v { spot = p })
    spot (at p) = refl
    spot await = rw e refl

pub client_of-elsewhere :
    (f g : Phase) (v : Visitor) → v.spot ≢ await → client_of f v ≡ client_of g v
client_of-elsewhere f g v e = spot v.spot e
  where
    spot :
        (p : Spot)
        → p ≢ await
        → client_of f (record v { spot = p }) ≡ client_of g (record v { spot = p })
    spot (at p) e = refl
    spot await e = absurd (e refl)

-- The shop with other clients.
abbrev pub with_clients : Shop → (ℕ → Client) → Shop
with_clients h c = record h { client = c }

abbrev pub at_stage : Salon → Stage → Salon
at_stage s p = record s { stage = p }

pub lower-Follows :
    (n : ℕ) (s : Salon) (v : ℕ) (k : ℕ → Move)
    → ((m : ℕ) → v ≡ suc m → Follows n s (k m))
    → Follows n s (lower v k)
lower-Follows n s zero k h = tt
lower-Follows n s (suc m) k h = h m refl
