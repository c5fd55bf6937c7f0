-- ===== src/BarberShop/Invariant/Owed.antt =====
-- Counting process ids in the list of clients that the shop owes a cut.
use sysopy_all.Base.{
  ℕ, ◌+◌, ◌≡◌, ◌↔◌, inl, inr, arith, List, [], ◌∷◌, ◌++◌, ℤ, pos, negsuc, ◌==◌, Bool-cases, ==_iff,
  ap, ◌∙◌,
}
use sysopy_all.BarberShop.State.{Client, update}
use sysopy_all.BarberShop.Invariant.Defs.{seated, count, AllPids}

-- A client that waits as before leaves the family's books as they are.
pub seated-update :
    (f : ℕ → Client) (i : ℕ) (c : Client)
    → seated c ≡ seated (f i)
    → (m : ℕ) → seated (update f i c m) ≡ seated (f m)
seated-update f i c h m = elim (Bool-cases (i == m)) [
  | inl e ↦ rw e (h ∙ ap (λ (j : ℕ). seated (f j)) ((==_iff i m).0 e))
  | inr e ↦ rw e
]

pub count-append : (m : ℕ) (xs ys : List ℤ) → count m (xs ++ ys) ≡ count m xs + count m ys
count-append m [] ys = omega arith
count-append m (x ∷ xs) ys = omega (arith, count-append m xs ys)

pub count-snoc :
    (m : ℕ) (xs ys zs : List ℤ) (z : ℤ)
    → count m (xs ++ (ys ++ (zs ++ (z ∷ [])))) ≡ count m (xs ++ (ys ++ zs)) + count m (z ∷ [])
count-snoc m xs ys zs z = omega (
  arith,
  count-append m xs (ys ++ (zs ++ (z ∷ []))),
  count-append m xs (ys ++ zs),
  count-append m ys (zs ++ (z ∷ [])),
  count-append m ys zs,
  count-append m zs (z ∷ []),
)

pub AllPids-append : (xs ys : List ℤ) → AllPids (xs ++ ys) ↔ (AllPids xs × AllPids ys)
AllPids-append [] ys = (λ h. (tt, h), λ h. h.1)
AllPids-append (pos i ∷ xs) ys = AllPids-append xs ys
AllPids-append (negsuc i ∷ xs) ys = (λ h. absurd h, λ h. absurd h.0)

pub AllPids-snoc :
    (i : ℕ) (xs ys zs : List ℤ)
    → AllPids (xs ++ (ys ++ zs))
    → AllPids (xs ++ (ys ++ (zs ++ (pos i ∷ []))))
AllPids-snoc i xs ys zs h =
    let (a, b) = (AllPids-append xs (ys ++ zs)).0 h in
    let (c, d) = (AllPids-append ys zs).0 b in
    (AllPids-append xs _).1 (a, (AllPids-append ys _).1 (c, (AllPids-append zs _).1 (d, tt)))
