-- ===== src/FileSort/Shuffling.antt =====
-- `shuffle` on a file: `i % (i + 1)` is `i`, so that every swap is of a record with itself.
use sysopy_all.Base.{
  ℕ, zero, suc, ◌+◌, ◌-◌, ◌<◌, ◌%◌, ◌≡◌, ap, subst, ◌∙◌, List, [], ◌∷◌, Text, get_or, leb, false,
  arith, length, get_elem?, get_elem?-eq-get_or, set, set-same, some, Returns, Returns-bind,
  Returns-mono,
}
use native.Mathlib.Nat.{mod-eq_of_lt}
use sysopy_all.FileSort.{RecordFile, IsLawful, shuffle_loop, shuffle}
use sysopy_all.FileSort.Sorting.{Holds}

module _ (f : RecordFile) (At : f.State → List Text → ℕ → Type 0) (law : IsLawful f At) where
  swap_self :
      (xs : List Text) (k i : ℕ) (s : f.State)
      → i < length xs
      → At s xs k
      → Returns (λ s'. At s' xs k) (f.swap_records i i s)
  swap_self xs k i s h at =
      Returns-mono _ _ (f.swap_records i i s) (λ s' at'. subst (λ ys. At s' ys k) same at')
        (law.swap_lem s xs k i i r r at there there)
    where
      r : Text
      r = get_or xs i []

      there : get_elem? xs i ≡ some r
      there = get_elem?-eq-get_or xs i [] h

      same : set (set xs i r) i r ≡ xs
      same = ap (λ ys. set ys i r) (set-same xs i r there) ∙ set-same xs i r there

  shuffle_loop_lem :
      (m : ℕ) (xs : List Text) (k : ℕ) (s : f.State)
      → m < length xs
      → At s xs k
      → Returns (λ s'. At s' xs k) (shuffle_loop f m s)
  unfolding shuffle_loop
  shuffle_loop_lem zero xs k s h at = at
  shuffle_loop_lem (suc i) xs k s h at = rw own (
      Returns-bind _ _ (f.swap_records (suc i) (suc i) s) _ (swap_self xs k (suc i) s h at)
        (λ s' at'. shuffle_loop_lem i xs k s' (omega arith) at'))
    where
      own : suc i % (suc i + 1) ≡ suc i
      own = mod-eq_of_lt (omega arith)

  -- On a file with the number of its records `shuffle` returns, and the file holds the same records
  -- in the same order as before.
  pub shuffle_keeps :
      (xs : List Text) (s : f.State)
      → Holds f At law xs s
      → Returns (Holds f At law xs) (shuffle f (length xs) s)
  unfolding shuffle
  shuffle_keeps [] s at = at
  shuffle_keeps (x ∷ []) s at = at
  shuffle_keeps (x ∷ y ∷ xs) s (k, at) =
      rw (many, one_less)
        (Returns-bind _ _ (f.set_pointer_to_beginning s) _ (law.rewind_lem s (x ∷ y ∷ xs) k at)
          (λ s' at'.
            Returns-mono _ _ (shuffle_loop f (suc (length xs)) s') (λ t h. (0, h))
              (shuffle_loop_lem (suc (length xs)) (x ∷ y ∷ xs) 0 s' (omega arith) at')))
    where
      many : leb (suc (suc (length xs))) 1 ≡ false
      many = ground arith

      one_less : suc (suc (length xs)) - 1 ≡ suc (length xs)
      one_less = omega arith
