-- ===== src/BarberShop/Posix/Moves.antt =====
-- The moves of a client that both shops have.
use sysopy_all.Base.{ℕ, ◌≡◌, refl, sym, ap, subst, ◌∙◌, false, Bool-cases, ==_iff, inl, inr, ◌==◌}
use sysopy_all.BarberShop.State.{ClientPc, next, goto}
use sysopy_all.BarberShop.Client.{get_cut}
use sysopy_all.BarberShop.System.{client, step}
use sysopy_all.BarberShop.Posix.{Spot, at, await, Visitor, Salon, moved, move_to}
use sysopy_all.BarberShop.Posix.Simulation.{
  Phase, asleep, half_woken, announcing, busy, phase, spot_at, shop_of, Nobody, Somebody, Waits,
  WaitsNow, Follows, client_of-change, with_clients,
}

pub goto-shop_of :
    (s : Salon) (i : ℕ) (p : ClientPc) → goto (shop_of s) i p ≡ shop_of (move_to s i (at p))
goto-shop_of s i p =
    ap (with_clients (shop_of s))
      (sym (client_of-change (phase s.stage) s.visitor i (record (s.visitor i) { spot = at p })))

pub step_at :
    (n : ℕ) (s : Salon) (i : ℕ) (p : ClientPc)
    → (s.visitor i).spot ≡ at p
    → step n (client i) (shop_of s) ≡ get_cut n p i (shop_of s)
unfolding step
step_at n s i p q = ap (λ x. get_cut n (spot_at (phase s.stage) x) i (shop_of s)) q

-- The state after a move of a visitor that does not wait before or after it.
pub record Visited (s : Salon) (i : ℕ) (t : Salon) : Type 0 where
  pub from : ClientPc
  pub to : ClientPc
  pub was : (s.visitor i).spot ≡ at from
  pub is : (t.visitor i).spot ≡ at to
  pub others : (j : ℕ) → (i == j) ≡ false → (t.visitor j).spot ≡ (s.visitor j).spot
  pub same_wait : t.sem_wait ≡ s.sem_wait
  pub same_barber : t.sem_barber ≡ s.sem_barber

pub apart : (p : ClientPc) → Path Spot (at p) await → ⊥
apart p e = cc

Visited-Somebody : (s : Salon) (i : ℕ) (t : Salon) → Visited s i t → Somebody s → Somebody t
Visited-Somebody s i t v (j, e) = (
  j,
  elim (Bool-cases (i == j)) [
    | inl g ↦
        absurd (apart v.from (sym v.was ∙ ap (λ k. (s.visitor k).spot) ((==_iff i j).0 g) ∙ e))
    | inr g ↦ v.others j g ∙ e
  ],
)

Visited-Nobody : (s : Salon) (i : ℕ) (t : Salon) → Visited s i t → Nobody s → Nobody t
Visited-Nobody s i t v n j e = elim (Bool-cases (i == j)) [
  | inl g ↦ apart v.to (sym v.is ∙ ap (λ k. (t.visitor k).spot) ((==_iff i j).0 g) ∙ e)
  | inr g ↦ n j (sym (v.others j g) ∙ e)
]

pub Visited-Waits :
    (s : Salon) (i : ℕ) (t : Salon) (f : Phase) → Visited s i t → Waits f s → Waits f t
Visited-Waits s i t asleep v (w, inl (z, n)) =
    (v.same_wait ∙ w, inl (v.same_barber ∙ z, Visited-Nobody s i t v n))
Visited-Waits s i t asleep v (w, inr e) = (v.same_wait ∙ w, inr (Visited-Somebody s i t v e))
Visited-Waits s i t half_woken v (w, e) = (v.same_wait ∙ w, Visited-Somebody s i t v e)
Visited-Waits s i t announcing v (w, e) = (v.same_wait ∙ w, Visited-Somebody s i t v e)
Visited-Waits s i t busy v (inl (w, n)) = inl (v.same_wait ∙ w, Visited-Nobody s i t v n)
Visited-Waits s i t busy v (inr (w, e)) = inr (v.same_wait ∙ w, Visited-Somebody s i t v e)

-- The move of visitor `i` from `p` to `p'`, on semaphores that nobody waits for here.
pub move-Follows :
    (n : ℕ) (s s' : Salon) (i : ℕ) (p p' : ClientPc)
    → (s.visitor i).spot ≡ at p
    → s'.stage ≡ s.stage
    → s'.sem_wait ≡ s.sem_wait
    → s'.sem_barber ≡ s.sem_barber
    → ((j : ℕ) → s'.visitor j ≡ s.visitor j)
    → get_cut n p i (shop_of s) ≡ next (goto (shop_of s') i p')
    → WaitsNow s
    → Follows n s (moved (move_to s' i (at p')))
move-Follows n s s' i p p' q st sw sb vs e w = (
  inl (client i, step_at n s i p q ∙ e ∙ ap next (goto-shop_of s' i p')),
  subst (λ g. Waits (phase g) (move_to s' i (at p'))) (sym st)
      (Visited-Waits s i (move_to s' i (at p')) (phase s.stage) v w),
)
  where
    v : Visited s i (move_to s' i (at p'))
    v = record {
      from = p;
      to = p';
      was = q;
      is = rw ((==_iff i i).1 refl) refl;
      others = λ j g. rw g (ap (λ (u : Visitor). u.spot) (vs j));
      same_wait = sw;
      same_barber = sb;
    }
