-- ===== src/AddressBook/Nodes/Sort/Swapping.antt =====
-- The list after `swap_first`.
use mathlib.Core.Option
use sysopy_all.Base.{
  false, ℕ, ◌==◌, ◌≡◌, ◌≢◌, refl, sym, ap, ◌∙◌, Option, some, ◌>>=◌, List, [], ◌∷◌, ◌++◌, arith,
}
use sysopy_all.AddressBook.Nodes.{ListNode, Heap, set_next}
use sysopy_all.AddressBook.Nodes.Links.{first, last, Absent, Nodup, bare, put_self}
use sysopy_all.AddressBook.Nodes.Adding.{Absent-ne-last}
use sysopy_all.AddressBook.Nodes.Deleting.{Absent-split}
use sysopy_all.AddressBook.Nodes.Cutting.{
  Differs, with_next, alter, alter-other, alter-bare, There, set_next-alter,
}
use sysopy_all.AddressBook.Nodes.Sort.{swap_first}
use sysopy_all.AddressBook.Nodes.Sort.Selecting.{Points, Nexts}

pub alter-Points :
    (h : Heap) (i : ℕ) (q r : Option ℕ) → Points h i q → Points (alter h (some i) (with_next r)) i r
alter-Points h i q r w = record {
  node = with_next r w.node;
  there = put_self h i (Option.map (with_next r) (h i)) ∙ ap (Option.map (with_next r)) w.there;
  after = refl;
}

pub keep-Points :
    (h : Heap) (p : Option ℕ) (f : ListNode → ListNode) (i : ℕ) (q : Option ℕ)
    → Differs i p
    → Points h i q
    → Points (alter h p f) i q
keep-Points h p f i q d w = record {
  node = w.node;
  there = alter-other h p f i d ∙ w.there;
  after = w.after;
}

-- The heap after the three writes of `swap_first`.
abbrev pub swapped : Heap → ℕ → ℕ → ℕ → Option ℕ → Option ℕ → Heap
swapped h x s p q t =
    alter (alter (alter h (some p) (with_next (some x))) (some x) (with_next q)) (some s)
      (with_next t)

bind-some :
    {A : Type 0} {B : Type 0} {o : Option A} {a : A} (f : A → Option B) {r : Option B}
    → o ≡ some a
    → f a ≡ r
    → (o >>= f) ≡ r
bind-some f e g = ap (λ o. o >>= f) e ∙ g

pub swap_first_lem :
    (h : Heap) (x s p : ℕ) (q t : Option ℕ)
    → s ≢ x
    → s ≢ p
    → There h (some p)
    → Points h s q
    → Points (alter h (some p) (with_next (some x))) x t
    → swap_first x s p h ≡ some (swapped h x s p q t)
unfolding swap_first
swap_first_lem h x s p q t sx sp at_p at_s at_x = rw differ (
    bind-some _ (set_next-alter h p (some x) at_p) (
      bind-some _ at_x.there (
        bind-some _ s1.there (
          bind-some _
            (ap (λ r. set_next x r h1) s1.after ∙ set_next-alter h1 x q (at_x.node, at_x.there))
            (ap (λ r. set_next s r h2) at_x.after ∙ set_next-alter h2 s t (s2.node, s2.there))))))
  where
    differ : (s == x) ≡ false
    differ = ground arith

    h1 : Heap
    h1 = alter h (some p) (with_next (some x))

    s1 : Points h1 s q
    s1 = keep-Points h (some p) (with_next (some x)) s q sp at_s

    h2 : Heap
    h2 = alter h1 (some x) (with_next q)

    s2 : Points h2 s q
    s2 = keep-Points h1 (some x) (with_next q) s q sx s1

pub swapped-keeps :
    (h : Heap) (x s p : ℕ) (q t : Option ℕ) (j : ℕ)
    → j ≢ p
    → j ≢ x
    → j ≢ s
    → swapped h x s p q t j ≡ h j
swapped-keeps h x s p q t j jp jx js =
    alter-other h2 (some s) (with_next t) j js
    ∙ alter-other h1 (some x) (with_next q) j jx
    ∙ alter-other h (some p) (with_next (some x)) j jp
  where
    h1 : Heap
    h1 = alter h (some p) (with_next (some x))

    h2 : Heap
    h2 = alter h1 (some x) (with_next q)

pub swapped-bare :
    (h : Heap) (x s p : ℕ) (q t : Option ℕ) (j : ℕ) → bare (swapped h x s p q t j) ≡ bare (h j)
swapped-bare h x s p q t j =
    alter-bare h2 (some s) (with_next t) j (λ n. refl)
    ∙ alter-bare h1 (some x) (with_next q) j (λ n. refl)
    ∙ alter-bare h (some p) (with_next (some x)) j (λ n. refl)
  where
    h1 : Heap
    h1 = alter h (some p) (with_next (some x))

    h2 : Heap
    h2 = alter h1 (some x) (with_next q)

-- The heap `h'` differs from `h` at most in the three nodes.
abbrev pub Keeps : Heap → Heap → ℕ → ℕ → ℕ → Type 0
Keeps h h' p x s = (j : ℕ) → j ≢ p → j ≢ x → j ≢ s → h' j ≡ h j

pub keep-Nexts :
    (h h' : Heap) (p x s : ℕ) (is : List ℕ)
    → Keeps h h' p x s
    → Absent p is
    → Absent x is
    → Absent s is
    → Nexts h is
    → Nexts h' is
keep-Nexts h h' p x s [] w a b c l = tt
keep-Nexts h h' p x s (i ∷ is) w (a, a') (b, b') (c, c') (l, ls) = (
  record {
    node = l.node;
    there = w i (λ e. a (sym e)) (λ e. b (sym e)) (λ e. c (sym e)) ∙ l.there;
    after = l.after;
  },
  keep-Nexts h h' p x s is w a' b' c' ls,
)

-- The nodes before the smallest one: the last of them leads to `x` in its place.
pub relink-Nexts :
    (h h' : Heap) (a : ℕ) (is : List ℕ) (s x : ℕ) (ys : List ℕ)
    → Keeps h h' (last a is) x s
    → Nexts h ((a ∷ is) ++ (s ∷ ys))
    → Nodup ((a ∷ is) ++ (s ∷ ys))
    → Absent x (a ∷ is)
    → Points h' (last a is) (some x)
    → Nexts h' (x ∷ ys)
    → Nexts h' ((a ∷ is) ++ (x ∷ ys))
relink-Nexts h h' a [] s x ys w (l, ls) (d, ds) (n, ns) e t = (e, t)
relink-Nexts h h' a (b ∷ is) s x ys w (l, ls) (d, ds) (n, ns) e t =
    let v = Absent-split a (b ∷ is) s ys d in
    (
      record {
        node = l.node;
        there = w a (Absent-ne-last a b is v.3) (λ e. n (sym e)) v.0 ∙ l.there;
        after = l.after;
      },
      relink-Nexts h h' b is s x ys w ls ds ns e t,
    )

pub Nodup-last :
    (a : ℕ) (is : List ℕ) (s : ℕ) (ys : List ℕ)
    → Nodup ((a ∷ is) ++ (s ∷ ys))
    → (last a is ≢ s) × Absent (last a is) ys
Nodup-last a [] s ys ((d, d'), ds) = (d, d')
Nodup-last a (b ∷ is) s ys (d, ds) = Nodup-last b is s ys ds

pub Nodup-middle : (is : List ℕ) (s : ℕ) (ys : List ℕ) → Nodup (is ++ (s ∷ ys)) → Absent s ys
Nodup-middle [] s ys (d, ds) = d
Nodup-middle (a ∷ is) s ys (d, ds) = Nodup-middle is s ys ds

pub Nexts-last :
    (h : Heap) (a : ℕ) (is : List ℕ) (s : ℕ) (ys : List ℕ)
    → Nexts h ((a ∷ is) ++ (s ∷ ys))
    → Points h (last a is) (some s) × Points h s (first ys) × Nexts h ys
Nexts-last h a [] s ys (l, (m, ms)) = (l, m, ms)
Nexts-last h a (b ∷ is) s ys (l, ls) = Nexts-last h b is s ys ls
