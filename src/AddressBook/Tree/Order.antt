-- ===== src/AddressBook/Tree/Order.antt =====
-- Search order by surname: the insertions and the deletion keep it.
use sysopy_all.Base.{arith, ◌≺◌, ◌≼◌, ≺-≼_trans, ≺-≼, ≼-≼_trans}
use sysopy_all.Base.{strcmp_refl}
use sysopy_all.AddressBook.Person.{Person}
use sysopy_all.AddressBook.Tree.{
  Tree, leaf, node, insert_to_tree, min_value_node, delete_root, delete_node,
}

abbrev pub All {ℓ} : (Person → Type ℓ) → Tree → Type ℓ
All P leaf = Unit
All P (node l q r) = All P l × P q × All P r

-- Smaller surnames to the left, equal and greater ones to the right.
abbrev pub IsSearchTree : Tree → Type 0
IsSearchTree leaf = Unit
IsSearchTree (node l q r) =
    All (λ x. x.surname ≺ q.surname) l
    × All (λ x. q.surname ≼ x.surname) r
    × IsSearchTree l
    × IsSearchTree r

module _ (P : Person → Type 0) where
  pub All-insert : (t : Tree) (p : Person) → All P t → P p → All P (insert_to_tree t p)
  unfolding insert_to_tree
  All-insert leaf p a h = (tt, h, tt)
  All-insert (node l q r) p a h = ground (arith, All-insert l p a.0 h, All-insert r p a.2 h)

  pub All-min : (l : Tree) (q : Person) (r : Tree) → All P (node l q r) → P (min_value_node l q r)
  unfolding min_value_node
  All-min leaf q r a = a.1
  All-min (node ll lq lr) q r a = All-min ll lq lr a.0

  All-delete_root :
      (l r : Tree) (delete : Person → Tree)
      → All P l
      → All P r
      → ((x : Person) → All P (delete x))
      → All P (delete_root l r delete)
  unfolding delete_root
  All-delete_root leaf r delete a b c = b
  All-delete_root (node ll lq lr) leaf delete a b c = a
  All-delete_root (node ll lq lr) (node rl rq rr) delete a b c =
      (a, All-min rl rq rr b, c (min_value_node rl rq rr))

  pub All-delete : (t : Tree) (k : Person) → All P t → All P (delete_node t k)
  unfolding delete_node
  All-delete leaf k a = tt
  All-delete (node l q r) k a = ground (
    arith,
    All-delete l k a.0,
    All-delete r k a.2,
    All-delete_root l r (delete_node r) a.0 a.2 (λ x. All-delete r x a.2),
  )

pub All-imp : (P Q : Person → Type 0) (t : Tree) → ((x : Person) → P x → Q x) → All P t → All Q t
All-imp P Q leaf f a = tt
All-imp P Q (node l q r) f a = (All-imp P Q l f a.0, f q a.1, All-imp P Q r f a.2)

-- `insert_to_tree` keeps the search order by surname.
pub insert-IsSearchTree :
    (t : Tree) (p : Person) → IsSearchTree t → IsSearchTree (insert_to_tree t p)
unfolding insert_to_tree
insert-IsSearchTree leaf p h = (tt, tt, tt, tt)
insert-IsSearchTree (node l q r) p (a, b, c, d) = ground (
  arith,
  insert-IsSearchTree l p c,
  insert-IsSearchTree r p d,
  All-insert (λ x. x.surname ≺ q.surname) l p a,
  All-insert (λ x. q.surname ≼ x.surname) r p b,
)

-- The leftmost surname is a lower bound.
pub min-le :
    (l : Tree) (q : Person) (r : Tree)
    → IsSearchTree (node l q r)
    → All (λ x. (min_value_node l q r).surname ≼ x.surname) (node l q r)
unfolding min_value_node
min-le leaf q r (a, b, c, d) = (tt, (λ e. cc (strcmp_refl q.surname)), b)
min-le (node ll lq lr) q r (a, b, c, d) =
    let m = min_value_node ll lq lr in
    let low : m.surname ≺ q.surname = All-min (λ x. x.surname ≺ q.surname) ll lq lr a in
    (
      min-le ll lq lr c,
      ≺-≼ m.surname q.surname low,
      All-imp _ _ r (λ x h. ≼-≼_trans m.surname q.surname x.surname (≺-≼ m.surname q.surname low) h)
          b,
    )

delete_root-IsSearchTree :
    (l : Tree) (q : Person) (r : Tree) (delete : Person → Tree)
    → IsSearchTree (node l q r)
    → ((x : Person) → IsSearchTree (delete x))
    → ((P : Person → Type 0) (x : Person) → All P r → All P (delete x))
    → IsSearchTree (delete_root l r delete)
unfolding delete_root
delete_root-IsSearchTree leaf q r delete (a, b, c, d) f g = d
delete_root-IsSearchTree (node ll lq lr) q leaf delete (a, b, c, d) f g = c
delete_root-IsSearchTree (node ll lq lr) q (node rl rq rr) delete (a, b, c, d) f g =
    let m = min_value_node rl rq rr in
    let high : q.surname ≼ m.surname = All-min (λ x. q.surname ≼ x.surname) rl rq rr b in
    (
      All-imp _ _ (node ll lq lr) (λ x h. ≺-≼_trans x.surname q.surname m.surname h high) a,
      g (λ x. m.surname ≼ x.surname) m (min-le rl rq rr d),
      c,
      f m,
    )

-- `delete_node` keeps the search order by surname, also when it moves the inorder successor up.
pub delete-IsSearchTree : (t : Tree) (k : Person) → IsSearchTree t → IsSearchTree (delete_node t k)
unfolding delete_node
delete-IsSearchTree leaf k h = tt
delete-IsSearchTree (node l q r) k (a, b, c, d) = ground (
  arith,
  delete-IsSearchTree l k c,
  delete-IsSearchTree r k d,
  All-delete (λ x. x.surname ≺ q.surname) l k a,
  All-delete (λ x. q.surname ≼ x.surname) r k b,
  delete_root-IsSearchTree l q r (delete_node r) (a, b, c, d) (λ x. delete-IsSearchTree r x d)
      (λ P x. All-delete P r x),
)

-- `insert_to_tree` and `delete_node` keep the search order by surname, the latter also when it moves
-- the inorder successor up.
pub keeps-IsSearchTree :
    (t : Tree) (p k : Person)
    → IsSearchTree t
    → IsSearchTree (insert_to_tree t p) × IsSearchTree (delete_node t k)
keeps-IsSearchTree t p k h = (insert-IsSearchTree t p h, delete-IsSearchTree t k h)
