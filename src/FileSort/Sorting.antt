-- ===== src/FileSort/Sorting.antt =====
-- `sort` on a file: it makes the passes of `bubble`, whatever functions it is given.
use mathlib.Core.List.{Perm}
use mathlib.Core.List.Perm
use sysopy_all.Base.{
  ℕ, zero, suc, ◌-◌, ◌≤◌, ◌<◌, ◌≡◌, refl, ap, sym, subst, ◌∙◌, List, [], ◌∷◌, ◌++◌, Text, ltb, leb,
  false, Bool-cases, some, inl, inr, arith, length, get_elem?, set, Returns, Returns-bind,
  Returns-mono, get_elem?-append, set-append, length-append,
}
use sysopy_all.FileSort.{RecordFile, IsLawful, compare_records, inner_loop, outer_loop, sort}
use sysopy_all.FileSort.Bubble.{
  first_byte, Each, Sorted, sink, bubble, length-sink, bubble-perm, sink-Each, bubble-Sorted,
}

-- A record has at least one byte.
abbrev pub NonEmpty : Text → Type 0
NonEmpty r = 1 ≤ length r

first_byte-eq : (r : Text) → NonEmpty r → get_elem? r 0 ≡ some (first_byte r)
first_byte-eq [] h = absurd (omega arith)
first_byte-eq (b ∷ r) h = refl

swap_adjacent :
    (done : List Text) (p c : Text) (rest : List Text) (i : ℕ)
    → i ≡ suc (length done)
    → set (set (done ++ (p ∷ c ∷ rest)) (i - 1) c) i p ≡ done ++ (c ∷ p ∷ rest)
swap_adjacent done p c rest i e =
    ap (λ ys. set ys i p) (set-append done (p ∷ c ∷ rest) 0 (i - 1) c (omega arith))
    ∙ set-append done (c ∷ c ∷ rest) 1 i p (omega arith)

shift : (done : List Text) (d : Text) (ys : List Text) → done ++ (d ∷ ys) ≡ (done ++ (d ∷ [])) ++ ys
shift [] d ys = refl
shift (x ∷ done) d ys = ap (λ zs. x ∷ zs) (shift done d ys)

module _ (f : RecordFile) (At : f.State → List Text → ℕ → Type 0) (law : IsLawful f At) where
  -- The file holds `xs`, wherever the pointer stands.
  abbrev pub Holds : List Text → f.State → Type 0
  Holds xs s = (k : ℕ) × At s xs k

  -- After the comparison the greater record stands at `i`, and is in hand.
  compare_records_lem :
      (done : List Text) (p c : Text) (rest : List Text) (i : ℕ) (s : f.State)
      → i ≡ suc (length done)
      → NonEmpty p
      → NonEmpty c
      → At s (done ++ (p ∷ c ∷ rest)) (suc i)
      → Returns
          (λ (q, s').
            (d : Text) × NonEmpty q
            × ((n : ℕ) → sink (suc n) p (c ∷ rest) ≡ d ∷ sink n q rest)
            × At s' (done ++ (d ∷ q ∷ rest)) (suc i))
          (compare_records f i p c s)
  unfolding compare_records sink
  compare_records_lem done p c rest i s e hp hc at =
      rw (first_byte-eq c hc, first_byte-eq p hp)
        (elim (Bool-cases (ltb (first_byte c) (first_byte p))) [
          | inl t ↦ rw t (
              Returns-bind (λ s'. At s' (done ++ (c ∷ p ∷ rest)) (suc i)) _
                (f.swap_records (i - 1) i s) _
                (Returns-mono _ (λ s'. At s' (done ++ (c ∷ p ∷ rest)) (suc i))
                  (f.swap_records (i - 1) i s)
                  (λ s' at'. subst (λ xs. At s' xs (suc i)) (swap_adjacent done p c rest i e) at')
                  (law.swap_lem s (done ++ (p ∷ c ∷ rest)) (suc i) (i - 1) i p c at
                    (get_elem?-append done (p ∷ c ∷ rest) 0 (i - 1) (omega arith))
                    (get_elem?-append done (p ∷ c ∷ rest) 1 i (omega arith))))
                (λ s' at'. (c, hp, (λ n. refl), at')))
          | inr t ↦ rw t (p, hc, (λ n. refl), at)
        ])

  -- The inner loop is one pass.
  inner_loop_lem :
      (n : ℕ) (done : List Text) (p : Text) (rest : List Text) (i : ℕ) (s : f.State)
      → i ≡ suc (length done)
      → n ≤ length rest
      → NonEmpty p
      → Each NonEmpty rest
      → At s (done ++ (p ∷ rest)) i
      → Returns (Holds (done ++ sink n p rest)) (inner_loop f n i p s)
  unfolding inner_loop sink
  inner_loop_lem zero done p rest i s e h hp hr at = (i, at)
  inner_loop_lem (suc n) done p [] i s e h hp hr at = absurd (omega arith)
  inner_loop_lem (suc n) done p (c ∷ rest) i s e h hp (hc, hr) at =
      Returns-bind _ _ (f.next_record s) _
        (law.next_lem s (done ++ (p ∷ c ∷ rest)) i c at
          (get_elem?-append done (p ∷ c ∷ rest) 1 i (omega arith)))
        (λ (c', s1) (e1, at1). rw e1 (
          Returns-bind _ _ (compare_records f i p c s1) _
            (compare_records_lem done p c rest i s1 e hp hc at1)
            (λ (q, s2) (d, hq, es, at2).
              subst (λ ys. Returns (Holds ys) (inner_loop f n (suc i) q s2))
                (sym (ap (λ ys. done ++ ys) (es n) ∙ shift done d (sink n q rest)))
                (inner_loop_lem n (done ++ (d ∷ [])) q rest (suc i) s2
                  (omega (arith, e, length-append done (d ∷ []))) (omega arith) hq hr
                  (subst (λ ys. At s2 ys (suc i)) (shift done d (q ∷ rest)) at2)))))

  -- The outer loop makes the passes of `bubble`.
  outer_loop_lem :
      (m : ℕ) (xs : List Text) (s : f.State)
      → m < length xs
      → Each NonEmpty xs
      → Holds xs s
      → Returns (Holds (bubble m xs)) (outer_loop f m s)
  unfolding outer_loop bubble
  outer_loop_lem zero xs s h hs at = at
  outer_loop_lem (suc m) [] s h hs at = absurd (omega arith)
  outer_loop_lem (suc m) (x ∷ xs) s h (hx, hs) (k, at) =
      Returns-bind _ _ (f.set_pointer_to_beginning s) _ (law.rewind_lem s (x ∷ xs) k at) (λ s1 at1.
        Returns-bind _ _ (f.next_record s1) _ (law.next_lem s1 (x ∷ xs) 0 x at1 refl)
          (λ (x', s2) (e, at2). rw e (
            Returns-bind _ _ (inner_loop f (suc m) 1 x s2) _
              (inner_loop_lem (suc m) [] x xs 1 s2 refl (omega arith) hx hs at2)
              (λ s3 at3.
                outer_loop_lem m (sink (suc m) x xs) s3
                  (omega (arith, length-sink (suc m) x xs (omega arith)))
                  (sink-Each NonEmpty (suc m) x xs hx hs) at3))))

  sort-many : (n : ℕ) (s : f.State) → sort f (suc (suc n)) s ≡ outer_loop f (suc n) s
  unfolding sort
  sort-many n s = rw (many, one_less) refl
    where
      many : leb (suc (suc n)) 1 ≡ false
      many = ground arith

      one_less : suc (suc n) - 1 ≡ suc n
      one_less = omega arith

  -- On a file of records that are not empty, with the number of the records, `sort` returns, whatever
  -- lawful functions it is given: the file then holds the same records, each as often, in ascending order of their first bytes.
  pub sort_file :
      (xs : List Text) (s : f.State)
      → Each NonEmpty xs
      → Holds xs s
      → Returns
          (λ s'. (ys : List Text) × Perm ys xs × Sorted ys × Holds ys s')
          (sort f (length xs) s)
  unfolding sort
  sort_file [] s hs at = ([], Perm.refl [], tt, at)
  sort_file (x ∷ []) s hs at = (x ∷ [], Perm.refl (x ∷ []), (tt, tt), at)
  sort_file (x ∷ y ∷ xs) s hs at = rw (sort-many (length xs) s) (
      Returns-mono _ _ (outer_loop f (suc (length xs)) s)
        (λ s' at'. (
          bubble (suc (length xs)) (x ∷ y ∷ xs),
          bubble-perm (suc (length xs)) (x ∷ y ∷ xs),
          bubble-Sorted (suc (length xs)) (x ∷ y ∷ xs) refl,
          at',
        ))
        (outer_loop_lem (suc (length xs)) (x ∷ y ∷ xs) s (omega arith) hs at))
