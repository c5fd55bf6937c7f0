-- ===== src/AddressBook/Tree.antt =====
-- The search tree of cw01/zad1/list.c (`delete_node` is its `deleteNode`, `min_value_node` its
-- `minValueNode`). Each node has one parent and is reached in one way, so a subtree is a value, and
-- a function that writes through `TreeNode **` returns the new subtree. `deleteNode` reads its key
-- only before it writes, so the key may be a node of the tree itself.
pub mod Order
pub mod Members
pub mod Sorting
mod Tests
use Prim.Native.Nat.Ordering.{lt, eq, gt}
use sysopy_all.Base.{ℕ, zero, suc, ◌+◌, Option, none, some, List, [], ◌∷◌, ◌++◌, Text, strcmp}
use sysopy_all.AddressBook.Person.{Person}

pub data Tree : Type 0 where
  leaf : Tree
  node : Tree → Person → Tree → Tree

-- By surname: smaller ones to the left, the others to the right.
unfoldable pub insert_to_tree : Tree → Person → Tree
insert_to_tree leaf p = node leaf p leaf
insert_to_tree (node l q r) p = elim (strcmp q.surname p.surname) [
  | gt ↦ node (insert_to_tree l p) q r
  | _ ↦ node l q (insert_to_tree r p)
]

-- By name at this node; below it the function calls `insert_to_tree`.
unfoldable pub insert_to_tree_by_name : Tree → Person → Tree
insert_to_tree_by_name leaf p = node leaf p leaf
insert_to_tree_by_name (node l q r) p = elim (strcmp q.name p.name) [
  | gt ↦ node (insert_to_tree l p) q r
  | _ ↦ node l q (insert_to_tree r p)
]

-- The leftmost person of the node with these three parts.
unfoldable pub min_value_node : Tree → Person → Tree → Person
min_value_node leaf q r = q
min_value_node (node ll lq lr) q r = min_value_node ll lq lr

-- A node whose person goes: `delete` is the call of `delete_node` on its right subtree.
unfoldable pub delete_root : Tree → Tree → (Person → Tree) → Tree
delete_root leaf r delete = r
delete_root (node ll lq lr) leaf delete = node ll lq lr
delete_root (node ll lq lr) (node rl rq rr) delete =
    let temp = min_value_node rl rq rr in node (node ll lq lr) temp (delete temp)

unfoldable pub delete_node : Tree → Person → Tree
delete_node leaf key = leaf
delete_node (node l q r) key = elim (strcmp q.surname key.surname) [
  | gt ↦ node (delete_node l key) q r
  | lt ↦ node l q (delete_node r key)
  | eq ↦ delete_root l r (delete_node r)
]

unfoldable pub search : Tree → Text → Option Person
search leaf surname = none
search (node l q r) surname = elim (strcmp q.surname surname) [
  | eq ↦ some q
  | lt ↦ search r surname
  | gt ↦ search l surname
]

-- The order in which `print_tree` would visit the persons if it printed between the subtrees.
unfoldable pub flatten : Tree → List Person
flatten leaf = []
flatten (node l q r) = flatten l ++ (q ∷ flatten r)

unfoldable pub size : Tree → ℕ
size leaf = 0
size (node l q r) = suc (size l + size r)
