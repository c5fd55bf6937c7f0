-- ===== src/AddressBook/Tree/Sorting.antt =====
-- `sort_tree_by_name`: it empties one tree into another.
use mathlib.Core.List.{Perm, Permᴰ, append-nil, perm_middle}
use mathlib.Core.Logic.{∥∥₁_elim}
use native.Mathlib.Nat.{ℕ_set}
use mathlib.Core.List.Perm
use sysopy_all.Base.{
  ℕ, zero, suc, ◌<◌, ◌≡◌, refl, sym, ap, ◌∙◌, arith, Option, none, some, List, [], ◌∷◌, ◌++◌, ◌≺◌,
  ◌≼◌, strcmp_refl, length, length-append, Returns, Returns-mono,
}
use sysopy_all.AddressBook.Person.{Person}
use sysopy_all.AddressBook.Tree.{
  Tree, leaf, node, insert_to_tree, insert_to_tree_by_name, delete_node, search, flatten, size,
}
use sysopy_all.AddressBook.Tree.Order.{
  All, IsSearchTree, All-insert, insert-IsSearchTree, delete-IsSearchTree,
}
use sysopy_all.AddressBook.Tree.Members.{insert-perm, perm-left, perm-right, delete_lem}

-- The loop, with the new tree and the old one; `none` when the fuel runs out.
unfoldable pub sort_loop : ℕ → Tree → Tree → Option (Tree × Tree)
sort_loop zero sorted root = none
sort_loop (suc k) sorted leaf = some (sorted, leaf)
sort_loop (suc k) sorted (node l q r) =
    sort_loop k (insert_to_tree_by_name sorted q) (delete_node (node l q r) q)

-- `cell` is what the cell from `create_tree` holds: that function does not set it. The result is
-- the new tree and what is left of the old one.
unfoldable pub sort_tree_by_name : Tree → Tree → Option (Tree × Tree)
unfolding sort_loop size
sort_tree_by_name cell root = sort_loop (suc (size root)) cell root

length-permᴰ : {xs ys : List Person} → Permᴰ xs ys → length xs ≡ length ys
length-permᴰ Permᴰ.nil = refl
length-permᴰ (Permᴰ.cons e p) = ap suc (length-permᴰ p)
length-permᴰ (Permᴰ.swap e f) = refl
length-permᴰ (Permᴰ.trans p q) = length-permᴰ p ∙ length-permᴰ q

length-perm : (xs ys : List Person) → Perm xs ys → length xs ≡ length ys
length-perm xs ys p = ∥∥₁_elim p (ℕ_set _ _) length-permᴰ

length-flatten : (t : Tree) → length (flatten t) ≡ size t
unfolding flatten size
length-flatten leaf = refl
length-flatten (node l q r) =
    omega (arith, length-append (flatten l) (q ∷ flatten r), length-flatten l, length-flatten r)

-- What the tree sorted by name is: split by name at its root, by surname below it.
abbrev pub IsSplitByName : Tree → Type 0
IsSplitByName leaf = Unit
IsSplitByName (node l q r) =
    All (λ x. x.name ≺ q.name) l × All (λ x. q.name ≼ x.name) r × IsSearchTree l × IsSearchTree r

insert-IsSplitByName :
    (t : Tree) (p : Person) → IsSplitByName t → IsSplitByName (insert_to_tree_by_name t p)
unfolding insert_to_tree_by_name
insert-IsSplitByName leaf p h = (tt, tt, tt, tt)
insert-IsSplitByName (node l q r) p (a, b, c, d) = ground (
  arith,
  insert-IsSearchTree l p c,
  insert-IsSearchTree r p d,
  All-insert (λ x. x.name ≺ q.name) l p a,
  All-insert (λ x. q.name ≼ x.name) r p b,
)

by_name-perm : (t : Tree) (p : Person) → Perm (flatten (insert_to_tree_by_name t p)) (p ∷ flatten t)
unfolding insert_to_tree_by_name flatten
by_name-perm leaf p = Perm.refl (p ∷ [])
by_name-perm (node l q r) p = ground (
  arith,
  perm-left p q (flatten (insert_to_tree l p)) (flatten l) (flatten r) (insert-perm l p),
  perm-right p q (flatten l) (flatten (insert_to_tree r p)) (flatten r) (insert-perm r p),
)

-- At its own root `delete_node` takes that person out.
delete-root :
    (l : Tree) (q : Person) (r : Tree)
    → IsSearchTree (node l q r)
    → Perm (flatten (node l q r)) (q ∷ flatten (delete_node (node l q r) q))
unfolding search
delete-root l q r h =
    let found : search (node l q r) q.surname ≡ some q = rw (strcmp_refl q.surname, search) in
    rw found at (delete_lem (node l q r) q h)

abbrev Sorted : Tree → Tree → Tree × Tree → Type 0
Sorted sorted root (t, rest) =
    (rest ≡ leaf) × IsSplitByName t × Perm (flatten t) (flatten sorted ++ flatten root)

sort_loop_lem :
    (k : ℕ) (sorted root : Tree)
    → IsSplitByName sorted
    → IsSearchTree root
    → size root < k
    → Returns (Sorted sorted root) (sort_loop k sorted root)
unfolding sort_loop flatten
sort_loop_lem zero sorted root a b h = absurd (omega arith)
sort_loop_lem (suc k) sorted leaf a b h = (refl, a, rw append-nil (Perm.refl (flatten sorted)))
sort_loop_lem (suc k) sorted (node l q r) a b h = Returns-mono _ _ (sort_loop k next rest) weaken (
    sort_loop_lem k next rest (insert-IsSplitByName sorted q a)
      (delete-IsSearchTree (node l q r) q b) (omega (arith, shorter)))
  where
    next : Tree
    next = insert_to_tree_by_name sorted q

    rest : Tree
    rest = delete_node (node l q r) q

    moved : Perm (flatten (node l q r)) (q ∷ flatten rest)
    moved = delete-root l q r b

    shorter : size (node l q r) ≡ suc (size rest)
    shorter =
        sym (length-flatten (node l q r))
        ∙ length-perm (flatten (node l q r)) (q ∷ flatten rest) moved
        ∙ ap suc (length-flatten rest)

    weaken : (o : Tree × Tree) → Sorted next rest o → Sorted sorted (node l q r) o
    weaken (t, left) (x, y, z) = (
      x,
      y,
      Perm.trans z (
          Perm.trans (Perm.append_right (flatten rest) (by_name-perm sorted q)) (
            Perm.trans (Perm.symm (perm_middle (flatten sorted) (flatten rest)))
              (Perm.append_left (flatten sorted) (Perm.symm moved)))),
    )

-- From a search tree, and a cell that holds no tree, `sort_tree_by_name` ends, leaves the old tree
-- empty, and makes a tree of the same persons that is split by name at its root, and is a search
-- tree by surname on either side of it.
pub sort_lem :
    (root : Tree)
    → IsSearchTree root
    → Returns
        (λ (t, rest). (rest ≡ leaf) × IsSplitByName t × Perm (flatten t) (flatten root))
        (sort_tree_by_name leaf root)
unfolding sort_tree_by_name flatten
sort_lem root h = sort_loop_lem (suc (size root)) leaf root tt h (omega arith)
