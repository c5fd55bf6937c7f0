-- ===== src/AddressBook/Nodes/Sort/Selecting.antt =====
-- What the loop of `sort_list_by_name` finds.
use Prim.Native.Nat.{Ordering}
use Prim.Native.Nat.Ordering.{lt, eq, gt}
use sysopy_all.Base.{
  ℕ, zero, suc, ◌<◌, ◌≡◌, ◌≢◌, refl, ap, ◌∙◌, Option, none, some, ◌>>=◌, List, [], ◌∷◌, ◌++◌,
  length, arith, Text, strcmp, strcmp_refl, strcmp_flip_gt, Returns, Returns-mono, ◌≼◌, ≼-≼_trans,
}
use sysopy_all.AddressBook.Nodes.{ListNode, Heap}
use sysopy_all.AddressBook.Nodes.Links.{first, last, Every, bare}
use sysopy_all.AddressBook.Nodes.Sort.{find_smallest, pick}

-- The name of a node, read through `bare`, so that a change of links keeps it.
abbrev pub name_in : Option ListNode → Option Text
name_in o = bare o >>= λ n. n.name

-- Node `i` stands in the heap with `next` as its `next`.
pub record Points (h : Heap) (i : ℕ) (next : Option ℕ) : Type 0 where
  pub node : ListNode
  pub there : h i ≡ some node
  pub after : node.next ≡ next

-- From the first on, the `next` of each of `is` is the one after it.
abbrev pub Nexts : Heap → List ℕ → Type 0
Nexts h [] = Unit
Nexts h (i ∷ is) = Points h i (first is) × Nexts h is

abbrev pub text_or : Option Text → Text
text_or none = []
text_or (some s) = s

-- The name by which node `i` is sorted.
abbrev pub key : Heap → ℕ → Text
key h i = text_or (name_in (h i))

abbrev pub HasName : Heap → ℕ → Type 0
HasName h i = name_in (h i) ≡ some (key h i)

abbrev pub AtMost : Heap → ℕ → List ℕ → Type 0
AtMost h i is = Every (λ j. key h i ≼ key h j) is

-- The search from `prev` over `cs` kept `s` and `p`, or found a smaller one in `cs`.
pub data Found (h : Heap) (s p prev : ℕ) (cs : List ℕ) (q : ℕ × ℕ) : Type 0 where
  kept : q ≡ (s, p) → AtMost h s cs → Found h s p prev cs q
  found :
      (mid : List ℕ) (c : ℕ) (ys : List ℕ)
      → cs ≡ mid ++ (c ∷ ys)
      → q ≡ (c, last prev mid)
      → key h c ≼ key h s
      → AtMost h c cs
      → Found h s p prev cs q

pub node_of :
    (o : Option ListNode) (t : Text)
    → name_in o ≡ some t
    → (n : ListNode) × (o ≡ some n) × (n.name ≡ some t)
node_of none t e = absurd cc
node_of (some n) t e = (n, refl, e)

pub ≼_refl : (s : Text) → s ≼ s
≼_refl s = λ e. cc (strcmp_refl s)

≼_of_not_lt : (s t : Text) (o : Ordering) → strcmp s t ≡ o → o ≢ lt → t ≼ s
≼_of_not_lt s t o e d = ground (arith, strcmp_flip_gt t s)

Found-smaller :
    (h : Heap) (s p prev c : ℕ) (cs : List ℕ) (q : ℕ × ℕ)
    → key h c ≼ key h s
    → Found h c prev c cs q
    → Found h s p prev (c ∷ cs) q
Found-smaller h s p prev c cs q le (kept e a) = found [] c cs refl e le (≼_refl (key h c), a)
Found-smaller h s p prev c cs q le (found mid d ys e f lt_c a) =
    found (c ∷ mid) d ys (ap (λ l. c ∷ l) e) f (≼-≼_trans (key h d) (key h c) (key h s) lt_c le)
      (lt_c, a)

Found-not_smaller :
    (h : Heap) (s p prev c : ℕ) (cs : List ℕ) (q : ℕ × ℕ)
    → key h s ≼ key h c
    → Found h s p c cs q
    → Found h s p prev (c ∷ cs) q
Found-not_smaller h s p prev c cs q le (kept e a) = kept e (le, a)
Found-not_smaller h s p prev c cs q le (found mid d ys e f lt_s a) =
    found (c ∷ mid) d ys (ap (λ l. c ∷ l) e) f lt_s
      (≼-≼_trans (key h d) (key h s) (key h c) lt_s le, a)

pub find_smallest-Found :
    (h : Heap) (s p prev : ℕ) (cs : List ℕ) (fuel : ℕ)
    → Nexts h cs
    → Every (HasName h) cs
    → HasName h s
    → length cs < fuel
    → Returns (Found h s p prev cs) (find_smallest fuel (first cs) prev s p h)
unfolding find_smallest
find_smallest-Found h s p prev cs zero l n m k = absurd (omega arith)
find_smallest-Found h s p prev [] (suc fuel) l n m k = kept refl tt
find_smallest-Found h s p prev (c ∷ cs) (suc fuel) (l, ls) (n, ns) m k =
    let i = node_of (h c) (key h c) n in
    let j = node_of (h s) (key h s) m in
    rw (i.1, j.1, i.2, j.2, ap (λ n. n.next) (same i.0 i.1) ∙ l.after)
      (decide (strcmp (key h c) (key h s)) refl
        (find_smallest-Found h c prev c cs fuel ls ns n (omega arith))
        (find_smallest-Found h s p c cs fuel ls ns m (omega arith)))
  where
    same : (n' : ListNode) → h c ≡ some n' → n' ≡ l.node
    same n' e = cc

    decide :
        (o : Ordering)
        → strcmp (key h c) (key h s) ≡ o
        → Returns (Found h c prev c cs) (find_smallest fuel (first cs) c c prev h)
        → Returns (Found h s p c cs) (find_smallest fuel (first cs) c s p h)
        → Returns (Found h s p prev (c ∷ cs)) (
            find_smallest fuel
              (first cs)
              c
              (pick o (c, prev) (s, p)).0
              (pick o (c, prev) (s, p)).1
              h)
    decide lt e f g =
        Returns-mono (Found h c prev c cs) (Found h s p prev (c ∷ cs))
          (find_smallest fuel (first cs) c c prev h)
          (λ q. Found-smaller h s p prev c cs q (λ x. cc)) f
    decide eq e f g =
        Returns-mono (Found h s p c cs) (Found h s p prev (c ∷ cs))
          (find_smallest fuel (first cs) c s p h)
          (λ q.
            Found-not_smaller h s p prev c cs q (≼_of_not_lt (key h c) (key h s) eq e (λ x. cc)))
          g
    decide gt e f g =
        Returns-mono (Found h s p c cs) (Found h s p prev (c ∷ cs))
          (find_smallest fuel (first cs) c s p h)
          (λ q.
            Found-not_smaller h s p prev c cs q (≼_of_not_lt (key h c) (key h s) gt e (λ x. cc)))
          g
