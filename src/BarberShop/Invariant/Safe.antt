-- ===== src/BarberShop/Invariant/Safe.antt =====
-- What every step is shown to satisfy.
use sysopy_all.Base.{ℕ, zero, suc, ◌≡◌, refl}
use sysopy_all.BarberShop.State.{Outcome, next, blocked, fault, down}
use sysopy_all.BarberShop.Invariant.Defs.{Inv}

-- A step that is made keeps the invariant, and none goes wrong.
abbrev pub Safe : Outcome → Type 0
Safe (next t) = Inv t
Safe blocked = Unit
Safe fault = ⊥

pub down-Safe : (v : ℕ) (k : ℕ → Outcome) → ((n : ℕ) → v ≡ suc n → Safe (k n)) → Safe (down v k)
down-Safe zero k h = tt
down-Safe (suc n) k h = h n refl
