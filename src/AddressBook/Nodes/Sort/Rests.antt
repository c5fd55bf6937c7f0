-- ===== src/AddressBook/Nodes/Sort/Rests.antt =====
-- What is left to sort after `swap_first`: the smallest node is first, and the rest is a list again.
use mathlib.Core.List.{Permᴰ}
use mathlib.Core.List.Permᴰ
use sysopy_all.Base.{
  ℕ, ==_iff, ◌≡◌, ◌≢◌, refl, sym, ◌∙◌, Option, some, List, [], ◌∷◌, ◌++◌, Returns,
}
use sysopy_all.AddressBook.Nodes.{Heap}
use sysopy_all.AddressBook.Nodes.Links.{first, last, Absent, Nodup, bare}
use sysopy_all.AddressBook.Nodes.Adding.{Absent-ne-last}
use sysopy_all.AddressBook.Nodes.Deleting.{Absent-split}
use sysopy_all.AddressBook.Nodes.Cutting.{with_next, alter}
use sysopy_all.AddressBook.Nodes.Sort.{swap_first}
use sysopy_all.AddressBook.Nodes.Sort.Selecting.{Points, Nexts}
use sysopy_all.AddressBook.Nodes.Sort.Swapping.{
  alter-Points, keep-Points, swapped, swap_first_lem, swapped-keeps, swapped-bare, keep-Nexts,
  relink-Nexts, Nodup-last, Nodup-middle, Nexts-last,
}

-- Heap `h'` has node `s` first, and after it the other nodes of `ids`.
pub record Rest (h : Heap) (s : ℕ) (ids : List ℕ) (h' : Heap) : Type 0 where
  pub rest : List ℕ
  pub head : Points h' s (first rest)
  pub links : Nexts h' rest
  pub perm : Permᴰ (s ∷ rest) ids
  pub data_kept : (j : ℕ) → bare (h' j) ≡ bare (h j)
  pub elsewhere : (j : ℕ) → Absent j ids → h' j ≡ h j

swap-permᴰ :
    (x : ℕ) (mid : List ℕ) (s : ℕ) (ys : List ℕ)
    → Permᴰ (s ∷ (mid ++ (x ∷ ys))) (x ∷ (mid ++ (s ∷ ys)))
swap-permᴰ x mid s ys =
    Permᴰ.trans (Permᴰ.cons refl (Permᴰ.middle x mid ys))
      (Permᴰ.trans (Permᴰ.swap refl refl) (Permᴰ.cons refl (Permᴰ.symm (Permᴰ.middle s mid ys))))

pub swap_first-same :
    (h : Heap) (x p : ℕ) (xs : List ℕ)
    → Nexts h (x ∷ xs)
    → Returns (Rest h x (x ∷ xs)) (swap_first x x p h)
unfolding swap_first
swap_first-same h x p xs (l, ls) = rw ((==_iff x x).1 refl) (record {
  rest = xs;
  head = l;
  links = ls;
  perm = Permᴰ.refl (x ∷ xs);
  data_kept = λ j. refl;
  elsewhere = λ j a. refl;
})

-- The second of the list, once the smallest follows the first.
abbrev second : List ℕ → ℕ → Option ℕ
second [] x = some x
second (a ∷ as') x = some a

second-first : (mid : List ℕ) (x : ℕ) (ys : List ℕ) → second mid x ≡ first (mid ++ (x ∷ ys))
second-first [] x ys = refl
second-first (a ∷ is) x ys = refl

-- The pieces of a list with `x` first and `s` somewhere after it.
record Pieces (h : Heap) (x : ℕ) (mid : List ℕ) (s : ℕ) (ys : List ℕ) : Type 0 where
  at_last : Points h (last x mid) (some s)
  at_s : Points h s (first ys)
  after_s : Nexts h ys
  x_ne_s : x ≢ s
  last_ne_s : last x mid ≢ s
  x_mid : Absent x mid
  x_ys : Absent x ys
  last_ys : Absent (last x mid) ys
  s_ys : Absent s ys

pieces :
    (h : Heap) (x : ℕ) (mid : List ℕ) (s : ℕ) (ys : List ℕ)
    → Nexts h (x ∷ (mid ++ (s ∷ ys)))
    → Nodup (x ∷ (mid ++ (s ∷ ys)))
    → Pieces h x mid s ys
pieces h x mid s ys l (d, ds) =
    let e = Nexts-last h x mid s ys l in
    let u = Absent-split x mid s ys d in
    let v = Nodup-last x mid s ys (d, ds) in
    record {
      at_last = e.0;
      at_s = e.1;
      after_s = e.2;
      x_ne_s = u.0;
      last_ne_s = v.0;
      x_mid = u.3;
      x_ys = u.2;
      last_ys = v.1;
      s_ys = Nodup-middle mid s ys ds;
    }

swapped-at_s :
    (h : Heap) (x : ℕ) (mid : List ℕ) (s : ℕ) (ys : List ℕ)
    → Pieces h x mid s ys
    → Points (swapped h x s (last x mid) (first ys) (second mid x)) s (second mid x)
swapped-at_s h x mid s ys w = alter-Points h2 s (first ys) (second mid x) (
    keep-Points h1 (some x) (with_next (first ys)) s (first ys) (λ r. w.x_ne_s (sym r))
      (keep-Points h (some (last x mid)) (with_next (some x)) s (first ys)
        (λ r. w.last_ne_s (sym r)) w.at_s))
  where
    h1 : Heap
    h1 = alter h (some (last x mid)) (with_next (some x))

    h2 : Heap
    h2 = alter h1 (some x) (with_next (first ys))

next_x :
    (h : Heap) (x : ℕ) (mid : List ℕ) (s : ℕ) (ys : List ℕ)
    → Absent x mid
    → Points h x (first (mid ++ (s ∷ ys)))
    → Points (alter h (some (last x mid)) (with_next (some x))) x (second mid x)
next_x h x [] s ys d l = alter-Points h x (some s) (some x) l
next_x h x (a ∷ is) s ys d l =
    keep-Points h (some (last a is)) (with_next (some x)) x (some a) (Absent-ne-last x a is d) l

swapped-tail :
    (h : Heap) (x : ℕ) (mid : List ℕ) (s : ℕ) (ys : List ℕ)
    → Pieces h x mid s ys
    → Points h x (first (mid ++ (s ∷ ys)))
    → Nexts (swapped h x s (last x mid) (first ys) (second mid x)) (x ∷ ys)
swapped-tail h x mid s ys w l = (
  keep-Points h2 (some s) (with_next (second mid x)) x (first ys) w.x_ne_s
      (alter-Points h1 x (second mid x) (first ys) (next_x h x mid s ys w.x_mid l)),
  keep-Nexts h (swapped h x s (last x mid) (first ys) (second mid x)) (last x mid) x s ys
      (swapped-keeps h x s (last x mid) (first ys) (second mid x)) w.last_ys w.x_ys w.s_ys
      w.after_s,
)
  where
    h1 : Heap
    h1 = alter h (some (last x mid)) (with_next (some x))

    h2 : Heap
    h2 = alter h1 (some x) (with_next (first ys))

swapped-Nexts :
    (h : Heap) (x : ℕ) (mid : List ℕ) (s : ℕ) (ys : List ℕ)
    → Pieces h x mid s ys
    → Nexts h (x ∷ (mid ++ (s ∷ ys)))
    → Nodup (mid ++ (s ∷ ys))
    → Nexts (swapped h x s (last x mid) (first ys) (second mid x)) (mid ++ (x ∷ ys))
swapped-Nexts h x [] s ys w (l, ls) d = swapped-tail h x [] s ys w l
swapped-Nexts h x (a ∷ is) s ys w (l, ls) d =
    relink-Nexts h h3 a is s x ys (swapped-keeps h x s (last a is) (first ys) (some a)) ls d w.x_mid
      (keep-Points h2 (some s) (with_next (some a)) (last a is) (some x) w.last_ne_s (
        keep-Points h1 (some x) (with_next (first ys)) (last a is) (some x)
          (λ r. Absent-ne-last x a is w.x_mid (sym r))
          (alter-Points h (last a is) (some s) (some x) w.at_last)))
      (swapped-tail h x (a ∷ is) s ys w l)
  where
    h1 : Heap
    h1 = alter h (some (last a is)) (with_next (some x))

    h2 : Heap
    h2 = alter h1 (some x) (with_next (first ys))

    h3 : Heap
    h3 = alter h2 (some s) (with_next (some a))

Absent-pieces :
    (j x : ℕ) (mid : List ℕ) (s : ℕ) (ys : List ℕ)
    → Absent j (x ∷ (mid ++ (s ∷ ys)))
    → (j ≢ last x mid) × (j ≢ x) × (j ≢ s)
Absent-pieces j x mid s ys a =
    let u = Absent-split j (x ∷ mid) s ys a in (Absent-ne-last j x mid u.3, a.0, u.0)

pub swap_first-Rest :
    (h : Heap) (x : ℕ) (mid : List ℕ) (s : ℕ) (ys : List ℕ)
    → Nexts h (x ∷ (mid ++ (s ∷ ys)))
    → Nodup (x ∷ (mid ++ (s ∷ ys)))
    → Returns (Rest h s (x ∷ (mid ++ (s ∷ ys)))) (swap_first x s (last x mid) h)
swap_first-Rest h x mid s ys (l, ls) (d, ds) =
    rw
      (swap_first_lem h x s (last x mid) (first ys) (second mid x) (λ e. w.x_ne_s (sym e))
        (λ e. w.last_ne_s (sym e)) (w.at_last.node, w.at_last.there) w.at_s
        (next_x h x mid s ys w.x_mid l))
      (record {
        rest = mid ++ (x ∷ ys);
        head = record {
          node = s3.node;
          there = s3.there;
          after = s3.after ∙ second-first mid x ys;
        };
        links = swapped-Nexts h x mid s ys w (l, ls) ds;
        perm = swap-permᴰ x mid s ys;
        data_kept = swapped-bare h x s (last x mid) (first ys) (second mid x);
        elsewhere = λ j a.
            let u = Absent-pieces j x mid s ys a in
            swapped-keeps h x s (last x mid) (first ys) (second mid x) j u.0 u.1 u.2;
      })
  where
    w : Pieces h x mid s ys
    w = pieces h x mid s ys (l, ls) (d, ds)

    s3 : Points (swapped h x s (last x mid) (first ys) (second mid x)) s (second mid x)
    s3 = swapped-at_s h x mid s ys w
