-- ===== src/AddressBook/Nodes/Sort/Steps.antt =====
-- The calls of `sort_list_by_name`, one after the other.
use mathlib.Core.List.{Permᴰ}
use mathlib.Core.List.Permᴰ
use sysopy_all.Base.{
  ℕ, zero, suc, ◌<◌, ◌≡◌, refl, sym, ap, ◌∙◌, subst, Option, some, ◌>>=◌, List, [], ◌∷◌, length,
  arith, put, Returns, Returns-bind, Returns-mono, strcmp_refl,
}
use sysopy_all.AddressBook.Nodes.{ListNode, Heap, set_next}
use sysopy_all.AddressBook.Nodes.Links.{
  first, last, Every, Absent, Nodup, bare, put_self, put_other, put-bare, set_next-there,
}
use sysopy_all.AddressBook.Nodes.Sort.{find_smallest, swap_first, sort_list_by_name}
use sysopy_all.AddressBook.Nodes.Sort.Selecting.{
  Points, Nexts, text_or, key, HasName, AtMost, Found, kept, found, node_of, ≼_refl,
  find_smallest-Found,
}
use sysopy_all.AddressBook.Nodes.Sort.Swapping.{keep-Nexts}
use sysopy_all.AddressBook.Nodes.Sort.Perms.{Every-permᴰ, length-permᴰ, Nodup-permᴰ}
use sysopy_all.AddressBook.Nodes.Sort.Rests.{Rest, swap_first-same, swap_first-Rest}

-- The names never go down along the list.
abbrev pub Ascending : Heap → List ℕ → Type 0
Ascending h [] = Unit
Ascending h (i ∷ is) = AtMost h i is × Ascending h is

-- What the sort of `ids` returns: the first node and the heap.
pub record Sorts (h : Heap) (ids : List ℕ) (r : Option ℕ × Heap) : Type 0 where
  pub order : List ℕ
  pub start : r.0 ≡ first order
  pub links : Nexts r.1 order
  pub perm : Permᴰ order ids
  pub ascending : Ascending h order
  pub data_kept : (j : ℕ) → bare (r.1 j) ≡ bare (h j)
  pub elsewhere : (j : ℕ) → Absent j ids → r.1 j ≡ h j

key_kept : (h h' : Heap) (j : ℕ) → bare (h' j) ≡ bare (h j) → key h' j ≡ key h j
key_kept h h' j e = ap (λ o. text_or (o >>= λ (n : ListNode). n.name)) e

HasName-kept : (h h' : Heap) (j : ℕ) → bare (h' j) ≡ bare (h j) → HasName h j → HasName h' j
HasName-kept h h' j e n =
    ap (λ o. o >>= λ (n : ListNode). n.name) e ∙ n ∙ ap some (sym (key_kept h h' j e))

Every-map : (P Q : ℕ → Type 0) (is : List ℕ) → ((i : ℕ) → P i → Q i) → Every P is → Every Q is
Every-map P Q [] f w = tt
Every-map P Q (i ∷ is) f (w, ws) = (f i w, Every-map P Q is f ws)

pub Ascending-kept :
    (h h' : Heap) (is : List ℕ)
    → ((j : ℕ) → bare (h' j) ≡ bare (h j))
    → Ascending h' is
    → Ascending h is
Ascending-kept h h' [] e a = tt
Ascending-kept h h' (i ∷ is) e (a, as') = (
  Every-map _ _ is (λ j le. rw⁻¹ (key_kept h h' i (e i), key_kept h h' j (e j)) le) a,
  Ascending-kept h h' is e as',
)

-- The first round of the search compares the first node with itself.
first_round :
    (h : Heap) (x : ℕ) (next : Option ℕ) (k : ℕ)
    → Points h x next
    → HasName h x
    → find_smallest (suc k) (some x) x x x h ≡ find_smallest k next x x x h
unfolding find_smallest
first_round h x next k l n =
    let i = node_of (h x) (key h x) n in
    rw (i.1, i.2, strcmp_refl (key h x), ap (λ n'. n'.next) (same i.0 i.1) ∙ l.after) refl
  where
    same : (n' : ListNode) → h x ≡ some n' → n' ≡ l.node
    same n' e = cc

-- The smallest node, and a heap with it first.
abbrev Chosen : Heap → List ℕ → ℕ × ℕ → Type 0
Chosen h [] q = ⊥
Chosen h (x ∷ xs) q = Returns (Rest h q.0 (x ∷ xs)) (swap_first x q.0 q.1 h) × AtMost h q.0 (x ∷ xs)

Found-Chosen :
    (h : Heap) (x : ℕ) (xs : List ℕ) (q : ℕ × ℕ)
    → Nexts h (x ∷ xs)
    → Nodup (x ∷ xs)
    → Found h x x x xs q
    → Chosen h (x ∷ xs) q
Found-Chosen h x xs q l d (kept e a) =
    subst (Chosen h (x ∷ xs)) (sym e) (swap_first-same h x x xs l, (≼_refl (key h x), a))
Found-Chosen h x xs q l d (found mid s ys e f le a) = subst (Chosen h (x ∷ xs)) (sym f) (
  subst (λ c. Returns (Rest h s (x ∷ c)) (swap_first x s (last x mid) h)) (sym e)
      (swap_first-Rest h x mid s ys (subst (λ c. Nexts h (x ∷ c)) e l)
        (subst (λ c. Nodup (x ∷ c)) e d)),
  (le, a),
)

-- The smallest node before the sorted rest.
join :
    (h h1 h2 : Heap) (s : ℕ) (ids : List ℕ) (p : Option ℕ)
    → Nodup ids
    → AtMost h s ids
    → (w : Rest h s ids h1) → Sorts h1 w.rest (p, h2)
    → Returns (λ h3. Sorts h ids (some s, h3)) (set_next s p h2)
join h h1 h2 s ids p d a w r = rw (set_next-there h2 s w.head.node p at_s) (record {
  order = s ∷ r.order;
  start = refl;
  links = (
    record {
      node = record w.head.node { next = p };
      there = put_self h2 s (some (record w.head.node { next = p }));
      after = r.start;
    },
    keep-Nexts h2 (put h2 s (some (record w.head.node { next = p }))) s s s r.order
        (λ j e f g. put_other h2 s j (some (record w.head.node { next = p })) (λ x. e (sym x))) out
        out out r.links,
  );
  perm = Permᴰ.trans (Permᴰ.cons refl r.perm) w.perm;
  ascending = (
    Every-permᴰ _ (Permᴰ.symm r.perm) (Every-permᴰ _ (Permᴰ.symm w.perm) a).1,
    Ascending-kept h h1 r.order w.data_kept r.ascending,
  );
  data_kept = λ j.
      put-bare h2 s (some (record w.head.node { next = p })) j (ap bare (sym at_s))
      ∙ r.data_kept j
      ∙ w.data_kept j;
  elsewhere = λ j e.
      let u = Every-permᴰ _ (Permᴰ.symm w.perm) e in
      put_other h2 s j (some (record w.head.node { next = p })) (λ x. u.0 (sym x))
      ∙ r.elsewhere j u.1
      ∙ w.elsewhere j e;
})
  where
    n : Nodup (s ∷ w.rest)
    n = Nodup-permᴰ (Permᴰ.symm w.perm) d

    at_s : h2 s ≡ some w.head.node
    at_s = r.elsewhere s n.0 ∙ w.head.there

    out : Absent s r.order
    out = Every-permᴰ _ (Permᴰ.symm r.perm) n.0

-- The sort on fuel `k` is right.
abbrev pub SortsAll : ℕ → Type 0
SortsAll k =
    (h : Heap) (ids : List ℕ)
    → Nexts h ids
    → Nodup ids
    → Every (HasName h) ids
    → length ids < k
    → Returns (Sorts h ids) (sort_list_by_name k (first ids) h)

-- The steps of one call after the search.
swap_and_sort :
    (k : ℕ) (h : Heap) (x : ℕ) (xs : List ℕ) (q : ℕ × ℕ)
    → SortsAll k
    → Nodup (x ∷ xs)
    → Every (HasName h) (x ∷ xs)
    → length xs < k
    → Chosen h (x ∷ xs) q
    → Returns (Sorts h (x ∷ xs)) (do
      h1 ← swap_first x q.0 q.1 h
      s ← h1 q.0
      rest ← sort_list_by_name k s.next h1
      h2 ← set_next q.0 rest.0 rest.1
      some (some q.0, h2))
swap_and_sort k h x xs q all d n m (c, a) =
    Returns-bind (Rest h q.0 (x ∷ xs)) (Sorts h (x ∷ xs)) (swap_first x q.0 q.1 h) _ c (λ h1 w.
      rw (w.head.there, w.head.after)
        (Returns-bind (Sorts h1 w.rest) (Sorts h (x ∷ xs)) (sort_list_by_name k (first w.rest) h1) _
          (all h1 w.rest w.links (rest_nodup h1 w) (rest_named h1 w) (rest_length h1 w))
          (λ r v.
            Returns-bind (λ h3. Sorts h (x ∷ xs) (some q.0, h3)) (Sorts h (x ∷ xs))
              (set_next q.0 r.0 r.1) _ (join h h1 r.1 q.0 (x ∷ xs) r.0 d a w v) (λ h3 u. u))))
  where
    rest_nodup : (h1 : Heap) → (w : Rest h q.0 (x ∷ xs) h1) → Nodup w.rest
    rest_nodup h1 w = (Nodup-permᴰ (Permᴰ.symm w.perm) d).1

    rest_named : (h1 : Heap) → (w : Rest h q.0 (x ∷ xs) h1) → Every (HasName h1) w.rest
    rest_named h1 w =
        Every-map (HasName h) (HasName h1) w.rest (λ j. HasName-kept h h1 j (w.data_kept j))
          (Every-permᴰ (HasName h) (Permᴰ.symm w.perm) n).1

    rest_length : (h1 : Heap) → (w : Rest h q.0 (x ∷ xs) h1) → length w.rest < k
    rest_length h1 w = omega (arith, m, length-permᴰ w.perm)

pub sort_list_by_name-Sorts : (k : ℕ) → SortsAll k
unfolding sort_list_by_name
sort_list_by_name-Sorts zero h ids l d n m = absurd (omega arith)
sort_list_by_name-Sorts (suc k) h [] l d n m = record {
  order = [];
  start = refl;
  links = tt;
  perm = Permᴰ.nil;
  ascending = tt;
  data_kept = λ j. refl;
  elsewhere = λ j a. refl;
}
sort_list_by_name-Sorts (suc k) h (x ∷ []) (l, ls) d n m =
    rw (l.there, l.after)
      (record {
        order = x ∷ [];
        start = refl;
        links = (l, tt);
        perm = Permᴰ.refl (x ∷ []);
        ascending = (tt, tt);
        data_kept = λ j. refl;
        elsewhere = λ j a. refl;
      })
sort_list_by_name-Sorts (suc k) h (x ∷ y ∷ ys) (l, ls) d (n, ns) m =
    rw (l.there, l.after, first_round h x (some y) k l n)
      (Returns-bind (Chosen h (x ∷ y ∷ ys)) (Sorts h (x ∷ y ∷ ys))
        (find_smallest k (some y) x x x h) _
        (Returns-mono (Found h x x x (y ∷ ys)) (Chosen h (x ∷ y ∷ ys))
          (find_smallest k (some y) x x x h) (λ q. Found-Chosen h x (y ∷ ys) q (l, ls) d)
          (find_smallest-Found h x x x (y ∷ ys) k ls ns n (omega arith)))
        (λ q. swap_and_sort k h x (y ∷ ys) q (sort_list_by_name-Sorts k) d (n, ns) (omega arith)))
