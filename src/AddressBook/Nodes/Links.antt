-- ===== src/AddressBook/Nodes/Links.antt =====
-- A list of addresses that the links of the nodes spell out.
use sysopy_all.Base.{
  ap, Bool-cases, ==_iff, inl, inr, ℕ, ◌≡◌, ◌≢◌, refl, sym, ◌∙◌, Option, none, some, List, [], ◌∷◌,
  ◌==◌, put, arith,
}
use sysopy_all.AddressBook.Nodes.{ListNode, Heap, Book, set_next, set_prev}

-- Node `i` stands in the heap, after `prev` and before `next`.
pub record Linked (h : Heap) (prev next : Option ℕ) (i : ℕ) : Type 0 where
  pub node : ListNode
  pub there : h i ≡ some node
  pub before : node.prev ≡ prev
  pub after : node.next ≡ next

abbrev pub first : List ℕ → Option ℕ
first [] = none
first (i ∷ is) = some i

-- The last of `i` and then the others.
abbrev pub last : ℕ → List ℕ → ℕ
last i [] = i
last i (j ∷ js) = last j js

-- From `p` on, the nodes are `is`, and the first comes after `prev`.
abbrev pub Chained : Heap → Option ℕ → List ℕ → Type 0
Chained h prev [] = Unit
Chained h prev (i ∷ is) = Linked h prev (first is) i × Chained h (some i) is

abbrev pub Every : (ℕ → Type 0) → List ℕ → Type 0
Every P [] = Unit
Every P (i ∷ is) = P i × Every P is

abbrev pub Absent : ℕ → List ℕ → Type 0
Absent i is = Every (λ j. i ≢ j) is

abbrev pub Nodup : List ℕ → Type 0
Nodup [] = Unit
Nodup (i ∷ is) = Absent i is × Nodup is

-- The two heaps hold the same at all of `is`.
abbrev pub Agree : Heap → Heap → List ℕ → Type 0
Agree h h' [] = Unit
Agree h h' (i ∷ is) = (h' i ≡ h i) × Agree h h' is

pub Agree-Chained :
    (h h' : Heap) (prev : Option ℕ) (is : List ℕ)
    → Agree h h' is
    → Chained h prev is
    → Chained h' prev is
Agree-Chained h h' prev [] a c = tt
Agree-Chained h h' prev (i ∷ is) (e, a) (l, c) = (
  record { node = l.node; there = e ∙ l.there; before = l.before; after = l.after },
  Agree-Chained h h' (some i) is a c,
)

pub put-Agree :
    (h : Heap) (i : ℕ) (v : Option ListNode) (is : List ℕ) → Absent i is → Agree h (put h i v) is
put-Agree h i v [] a = tt
put-Agree h i v (j ∷ is) (e, a) = (ground arith, put-Agree h i v is a)

pub put_self : (h : Heap) (i : ℕ) (v : Option ListNode) → put h i v i ≡ v
put_self h i v = ground arith

pub put_other : (h : Heap) (i j : ℕ) (v : Option ListNode) → i ≢ j → put h i v j ≡ h j
put_other h i j v e = ground arith

-- The list `is` of addresses is what the book's links spell out.
pub record IsBook (is : List ℕ) (b : Book) : Type 0 where
  pub start : b.head ≡ first is
  pub links : Chained b.heap none is
  pub nodup : Nodup is

-- A node without its links.
abbrev pub bare : Option ListNode → Option ListNode
bare none = none
bare (some n) = some (record n { next = none; prev = none })

-- A call returned a list that is not NULL and satisfies `P`.
abbrev pub Gives : (Book → Type 0) → Option (Option Book) → Type 0
Gives P none = ⊥
Gives P (some none) = ⊥
Gives P (some (some b)) = P b

pub set_next-there :
    (h : Heap) (i : ℕ) (n : ListNode) (p : Option ℕ)
    → h i ≡ some n
    → set_next i p h ≡ some (put h i (some (record n { next = p })))
set_next-there h i n p e = rw e refl

pub set_prev-there :
    (h : Heap) (i : ℕ) (n : ListNode) (p : Option ℕ)
    → h i ≡ some n
    → set_prev i p h ≡ some (put h i (some (record n { prev = p })))
set_prev-there h i n p e = rw e refl

-- A write that keeps the data of a node keeps the data of every node.
pub put-bare :
    (h : Heap) (i : ℕ) (v : Option ListNode) (j : ℕ)
    → bare v ≡ bare (h i)
    → bare (put h i v j) ≡ bare (h j)
put-bare h i v j e = elim (Bool-cases (i == j)) [
  | inl p ↦ rw (sym ((==_iff i j).0 p)) (ap bare (put_self h i v) ∙ e)
  | inr d ↦ ap bare (put_other h i j v (ground arith))
]
