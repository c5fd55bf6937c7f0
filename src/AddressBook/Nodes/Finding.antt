-- ===== src/AddressBook/Nodes/Finding.antt =====
-- `find_node` finds the first node with a surname, and `remove_list` frees the nodes of the list.
use sysopy_all.Base.{
  Bool-cases, ==_iff, inl, inr, ◌⊎◌, ℕ, zero, suc, ◌<◌, ◌≡◌, ◌≢◌, refl, sym, ap, ◌∙◌, Option, none,
  some, ◌>>=◌, List, [], ◌∷◌, ◌==◌, put, length, arith, Text, strcmp, strcmp_refl, eq_of_strcmp,
  Returns, Returns-mono,
}
use Prim.Native.Nat.{Ordering}
use Prim.Native.Nat.Ordering.{lt, eq, gt}
use sysopy_all.AddressBook.Nodes.{
  ListNode, Heap, Book, remove_from, remove_list, find_from, find_node,
}
use sysopy_all.AddressBook.Nodes.Links.{
  first, Chained, Absent, Every, Nodup, Agree-Chained, IsBook, Gives, put_self, put_other,
  put-Agree,
}

abbrev pub surname_of : Heap → ℕ → Option Text
surname_of h i = do n ← h i; n.surname

-- The first of the nodes with the surname, where those up to it have one.
pub data FirstNamed (h : Heap) (t : Text) : List ℕ → Option ℕ → Type 0 where
  nobody : FirstNamed h t [] none
  here : (i : ℕ) (is : List ℕ) → surname_of h i ≡ some t → FirstNamed h t (i ∷ is) (some i)
  later :
      (i : ℕ) (is : List ℕ) (s : Text) (r : Option ℕ)
      → surname_of h i ≡ some s
      → s ≢ t
      → FirstNamed h t is r
      → FirstNamed h t (i ∷ is) r

abbrev pub AllNamed : Heap → List ℕ → Type 0
AllNamed h is = Every (λ i. (s : Text) × (surname_of h i ≡ some s)) is

find_from-FirstNamed :
    (h : Heap) (prev : Option ℕ) (t : Text) (ids : List ℕ) (fuel : ℕ)
    → Chained h prev ids
    → AllNamed h ids
    → length ids < fuel
    → Returns (FirstNamed h t ids) (find_from fuel t (first ids) h)
unfolding find_from
find_from-FirstNamed h prev t ids zero c a k = absurd (omega arith)
find_from-FirstNamed h prev t [] (suc fuel) c a k = nobody
find_from-FirstNamed h prev t (i ∷ is) (suc fuel) (l, c) ((s, e), a) k =
    rw (l.there, named)
      (decide (strcmp s t) refl (find_from fuel t l.node.next h)
        (rw (l.after) (find_from-FirstNamed h (some i) t is fuel c a (omega arith))))
  where
    named : l.node.surname ≡ some s
    named = ap (λ o. o >>= λ (n : ListNode). n.surname) (sym l.there) ∙ e

    equal : s ≡ t → strcmp s t ≡ eq
    equal q = ap (strcmp s) (sym q) ∙ strcmp_refl s

    skip :
        s ≢ t
        → (r : Option (Option ℕ)) → Returns (FirstNamed h t is) r
        → Returns (FirstNamed h t (i ∷ is)) r
    skip d r f =
        Returns-mono (FirstNamed h t is) (FirstNamed h t (i ∷ is)) r (λ q g. later i is s q e d g) f

    decide :
        (o : Ordering)
        → strcmp s t ≡ o
        → (r : Option (Option ℕ)) → Returns (FirstNamed h t is) r
        → Returns (FirstNamed h t (i ∷ is)) (elim o [ eq ↦ some (some i) | lt ↦ r | gt ↦ r ])
    decide eq p r f = here i is (e ∙ ap some (eq_of_strcmp s t p))
    decide lt p r f = skip (λ q. cc (equal q)) r f
    decide gt p r f = skip (λ q. cc (equal q)) r f

-- Given a book whose links spell out ids, all with a surname, and fuel for ids and one more,
-- find_node stops at the first node with the surname, or at the end if no node has it.
pub find_node-FirstNamed :
    (ids : List ℕ) (b : Book) (t : Text) (fuel : ℕ)
    → IsBook ids b
    → AllNamed b.heap ids
    → length ids < fuel
    → Returns (FirstNamed b.heap t ids) (find_node fuel (some b) t)
unfolding find_node
find_node-FirstNamed ids b t fuel w a k =
    rw (w.start) (find_from-FirstNamed b.heap none t ids fuel w.links a k)

abbrev pub Among : ℕ → List ℕ → Type 0
Among i [] = ⊥
Among i (j ∷ js) = (i ≡ j) ⊎ Among i js

-- The address is free if it is of the list, and is as it was otherwise.
abbrev pub Freed : Heap → Heap → ℕ → List ℕ → Type 0
Freed h h' j ids = (Absent j ids × (h' j ≡ h j)) ⊎ (Among j ids × (h' j ≡ none))

remove_from-Freed :
    (h : Heap) (prev : Option ℕ) (ids : List ℕ) (fuel j : ℕ)
    → Chained h prev ids
    → Nodup ids
    → length ids < fuel
    → Returns (λ h'. Freed h h' j ids) (remove_from fuel (first ids) h)
unfolding remove_from
remove_from-Freed h prev ids zero j c u k = absurd (omega arith)
remove_from-Freed h prev [] (suc fuel) j c u k = inl (tt, refl)
remove_from-Freed h prev (i ∷ is) (suc fuel) j (l, c) (x, u) k =
    rw (l.there, l.after)
      (Returns-mono (λ h'. Freed (put h i none) h' j is) (λ h'. Freed h h' j (i ∷ is))
        (remove_from fuel (first is) (put h i none))
        (λ h' f. elim f [ inl (a, e) ↦ outside h' a e | inr (m, e) ↦ inr (inr m, e) ])
        (remove_from-Freed (put h i none) (some i) is fuel j
          (Agree-Chained h (put h i none) (some i) is (put-Agree h i none is x) c) u (omega arith)))
  where
    outside : (h' : Heap) → Absent j is → h' j ≡ put h i none j → Freed h h' j (i ∷ is)
    outside h' a e = elim (Bool-cases (i == j)) [
      | inl p ↦ inr (
        inl (sym ((==_iff i j).0 p)),
        e ∙ ap (put h i none) (sym ((==_iff i j).0 p)) ∙ put_self h i none,
      )
      | inr d ↦ inl ((ground arith, a), e ∙ put_other h i j none (ground arith))
    ]

-- Given a book whose links spell out ids, and fuel for ids and one more, remove_list frees each
-- node of ids once and leaves every other address as it was; the head of the list stays, an
-- address that is free if the list was not empty.
pub remove_list-Freed :
    (ids : List ℕ) (b : Book) (fuel j : ℕ)
    → IsBook ids b
    → length ids < fuel
    → Gives (λ b'. (b'.head ≡ b.head) × Freed b.heap b'.heap j ids) (remove_list fuel (some b))
unfolding remove_list
remove_list-Freed ids b fuel j w k = rw (w.start) (
    freed (remove_from fuel (first ids) b.heap)
      (remove_from-Freed b.heap none ids fuel j w.links w.nodup k))
  where
    freed :
        (o : Option Heap)
        → Returns (λ h'. Freed b.heap h' j ids) o
        → Gives
            (λ b'. (b'.head ≡ first ids) × Freed b.heap b'.heap j ids)
            (o >>= λ h'. some (some (record { head = first ids; heap = h' })))
    freed none f = f
    freed (some h') f = (refl, f)
