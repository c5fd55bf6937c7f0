-- ===== src/AddressBook/Nodes/Cutting.antt =====
-- A heap that differs from another in that a node is free and its neighbours are linked.
use mathlib.Core.Option
use sysopy_all.Base.{
  Bool-cases, ==_iff, inl, inr, ℕ, ◌≡◌, ◌≢◌, refl, sym, ap, ◌∙◌, Option, none, some, List, [], ◌∷◌,
  ◌==◌, put, arith,
}
use sysopy_all.AddressBook.Nodes.{ListNode, Heap, set_next, set_prev_of, remove_node}
use sysopy_all.AddressBook.Nodes.Links.{Absent, Agree, bare, put_self, put_other, put-bare}

-- The address is not `i`.
abbrev pub Differs : ℕ → Option ℕ → Type 0
Differs i none = Unit
Differs i (some j) = i ≢ j

-- The address is none of `is`.
abbrev pub Outside : Option ℕ → List ℕ → Type 0
Outside none is = Unit
Outside (some i) is = Absent i is

abbrev pub with_next : Option ℕ → ListNode → ListNode
with_next p n = record n { next = p }

abbrev pub with_prev : Option ℕ → ListNode → ListNode
with_prev p n = record n { prev = p }

abbrev pub alter : Heap → Option ℕ → (ListNode → ListNode) → Heap
alter h none f = h
alter h (some i) f = put h i (Option.map f (h i))

-- The heap in which `p` and `q` are neighbours and `d` is free.
abbrev pub bypass : Heap → Option ℕ → ℕ → Option ℕ → Heap
bypass h p d q = put (alter (alter h p (with_next q)) q (with_prev p)) d none

pub alter-other :
    (h : Heap) (p : Option ℕ) (f : ListNode → ListNode) (j : ℕ) → Differs j p → alter h p f j ≡ h j
alter-other h none f j e = refl
alter-other h (some i) f j e = put_other h i j (Option.map f (h i)) (λ q. e (sym q))

pub alter-bare :
    (h : Heap) (p : Option ℕ) (f : ListNode → ListNode) (j : ℕ)
    → ((n : ListNode) → bare (some (f n)) ≡ bare (some n))
    → bare (alter h p f j) ≡ bare (h j)
alter-bare h none f j e = refl
alter-bare h (some i) f j e = put-bare h i (Option.map f (h i)) j (same (h i))
  where
    same : (v : Option ListNode) → bare (Option.map f v) ≡ bare v
    same none = refl
    same (some n) = e n

pub bypass-other :
    (h : Heap) (p : Option ℕ) (d : ℕ) (q : Option ℕ) (j : ℕ)
    → j ≢ d
    → Differs j p
    → Differs j q
    → bypass h p d q j ≡ h j
bypass-other h p d q j e f g =
    put_other (alter (alter h p (with_next q)) q (with_prev p)) d j none (λ r. e (sym r))
    ∙ alter-other (alter h p (with_next q)) q (with_prev p) j g
    ∙ alter-other h p (with_next q) j f

pub bypass-before :
    (h : Heap) (i d : ℕ) (q : Option ℕ)
    → i ≢ d
    → Differs i q
    → bypass h (some i) d q i ≡ Option.map (with_next q) (h i)
bypass-before h i d q e g =
    put_other (alter h1 q (with_prev (some i))) d i none (λ r. e (sym r))
    ∙ alter-other h1 q (with_prev (some i)) i g
    ∙ put_self h i (Option.map (with_next q) (h i))
  where
    h1 : Heap
    h1 = alter h (some i) (with_next q)

pub bypass-after :
    (h : Heap) (p : Option ℕ) (d i : ℕ)
    → i ≢ d
    → Differs i p
    → bypass h p d (some i) i ≡ Option.map (with_prev p) (h i)
bypass-after h p d i e g =
    put_other (alter h1 (some i) (with_prev p)) d i none (λ r. e (sym r))
    ∙ put_self h1 i (Option.map (with_prev p) (h1 i))
    ∙ ap (Option.map (with_prev p)) (alter-other h p (with_next (some i)) i g)
  where
    h1 : Heap
    h1 = alter h p (with_next (some i))

pub bypass-bare :
    (h : Heap) (p : Option ℕ) (d : ℕ) (q : Option ℕ) (j : ℕ)
    → bare (bypass h p d q j) ≡ bare (put h d none j)
bypass-bare h p d q j = elim (Bool-cases (d == j)) [
  | inl e ↦ rw (sym ((==_iff d j).0 e)) (ap bare (put_self h' d none ∙ sym (put_self h d none)))
  | inr e ↦
      ap bare (put_other h' d j none (ground arith))
      ∙ alter-bare (alter h p (with_next q)) q (with_prev p) j (λ n. refl)
      ∙ alter-bare h p (with_next q) j (λ n. refl)
      ∙ ap bare (sym (put_other h d j none (ground arith)))
]
  where
    h' : Heap
    h' = alter (alter h p (with_next q)) q (with_prev p)

pub bypass-Agree :
    (h : Heap) (p : Option ℕ) (d i : ℕ) (js : List ℕ)
    → Outside p js
    → Absent d js
    → Absent i js
    → Agree h (bypass h p d (some i)) js
bypass-Agree h p d i [] x y z = tt
bypass-Agree h none d i (j ∷ js) x (y, ys) (z, zs) = (
  bypass-other h none d (some i) j (λ e. y (sym e)) tt (λ e. z (sym e)),
  bypass-Agree h none d i js tt ys zs,
)
bypass-Agree h (some p) d i (j ∷ js) (x, xs) (y, ys) (z, zs) = (
  bypass-other h (some p) d (some i) j (λ e. y (sym e)) (λ e. x (sym e)) (λ e. z (sym e)),
  bypass-Agree h (some p) d i js xs ys zs,
)

-- There is a node at the address, unless it is NULL.
abbrev pub There : Heap → Option ℕ → Type 0
There h none = Unit
There h (some i) = (n : ListNode) × (h i ≡ some n)

pub alter-There :
    (h : Heap) (p : Option ℕ) (f : ListNode → ListNode) (q : Option ℕ)
    → There h q
    → There (alter h p f) q
alter-There h p f none t = tt
alter-There h none f (some j) t = t
alter-There h (some i) f (some j) (n, t) = elim (Bool-cases (i == j)) [
  | inl e ↦ (
    f n,
    rw (sym ((==_iff i j).0 e))
        (put_self h i (Option.map f (h i)) ∙ ap (Option.map f) (ap h ((==_iff i j).0 e) ∙ t)),
  )
  | inr e ↦ (n, put_other h i j (Option.map f (h i)) (ground arith) ∙ t)
]

pub set_next-alter :
    (h : Heap) (i : ℕ) (q : Option ℕ)
    → There h (some i)
    → set_next i q h ≡ some (alter h (some i) (with_next q))
set_next-alter h i q (n, t) = rw t refl

pub set_prev_of-alter :
    (h : Heap) (p q : Option ℕ) → There h p → set_prev_of p q h ≡ some (alter h p (with_prev q))
set_prev_of-alter h none q t = refl
set_prev_of-alter h (some i) q (n, t) = rw t refl

pub remove_node-put :
    (h : Heap) (i : ℕ) → There h (some i) → remove_node (some i) h ≡ some (put h i none)
unfolding remove_node
remove_node-put h i (n, t) = rw t refl
