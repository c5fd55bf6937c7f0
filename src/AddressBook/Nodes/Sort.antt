-- ===== src/AddressBook/Nodes/Sort.antt =====
-- The selection sort of the linked list, cw01/zad1/list.c: `sortListByName` and `List_sort`.
pub mod Selecting
pub mod Swapping
pub mod Perms
pub mod Rests
pub mod Steps
pub mod Sorted
use Prim.Native.Nat.{Ordering}
use Prim.Native.Nat.Ordering.{lt, eq, gt}
use sysopy_all.Base.{ℕ, zero, suc, Option, none, some, ◌>>=◌, ◌==◌, if◌then◌else◌, strcmp}
use sysopy_all.AddressBook.Nodes.{ListNode, Heap, Book, set_next}

abbrev pub pick : Ordering → ℕ × ℕ → ℕ × ℕ → ℕ × ℕ
pick lt q r = q
pick eq q r = r
pick gt q r = r

-- The loop that looks for the smallest name: the node found and the one before it.
unfoldable pub find_smallest : ℕ → Option ℕ → ℕ → ℕ → ℕ → Heap → Option (ℕ × ℕ)
find_smallest zero curr prev smallest smallest_prev h = none
find_smallest (suc k) none prev smallest smallest_prev h = some (smallest, smallest_prev)
find_smallest (suc k) (some curr) prev smallest smallest_prev h = do
  c ← h curr
  s ← h smallest
  a ← c.name
  b ← s.name
  let q = pick (strcmp a b) (curr, prev) (smallest, smallest_prev)
  find_smallest k c.next curr q.0 q.1 h

-- The first node of the list changes places with the smallest.
unfoldable pub swap_first : ℕ → ℕ → ℕ → Heap → Option Heap
swap_first node smallest smallest_prev h = if smallest == node then some h else do
  h1 ← set_next smallest_prev (some node) h
  n ← h1 node
  s ← h1 smallest
  h2 ← set_next node s.next h1
  set_next smallest n.next h2

unfoldable pub sort_list_by_name : ℕ → Option ℕ → Heap → Option (Option ℕ × Heap)
unfolding find_smallest swap_first
sort_list_by_name zero p h = none
sort_list_by_name (suc k) none h = some (none, h)
sort_list_by_name (suc k) (some node) h = do
  n ← h node
  elim n.next [
    | none ↦ some (some node, h)
    | some _ ↦ do
      found ← find_smallest (suc k) (some node) node node node h
      h1 ← swap_first node found.0 found.1 h
      s ← h1 found.0
      rest ← sort_list_by_name k s.next h1
      h2 ← set_next found.0 rest.0 rest.1
      some (some found.0, h2)
  ]

unfoldable pub list_sort : ℕ → Book → Option Book
unfolding sort_list_by_name
list_sort fuel b = do
  r ← sort_list_by_name fuel b.head b.heap
  some (record { head = r.0; heap = r.1 })
