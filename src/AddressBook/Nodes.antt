-- ===== src/AddressBook/Nodes.antt =====
-- The doubly linked list of cw01/zad1/list.c, on a heap of nodes. An address is a number and NULL is
-- `none`. A result `none` is a read or a write through an address where no node is.
pub mod Links
pub mod Sort
pub mod Adding
pub mod Cutting
pub mod Deleting
pub mod Finding
mod Tests
use Prim.Native.Nat.Ordering.{lt, eq, gt}
use sysopy_all.Base.{
  ℕ, zero, suc, Option, none, some, ◌>>=◌, ◌==◌, if◌then◌else◌, put, Text, strcmp,
}

pub record ListNode : Type 0 where
  pub name : Option Text
  pub surname : Option Text
  pub birthdate : Option Text
  pub email : Option Text
  pub phone : Option Text
  pub address : Option Text
  pub next : Option ℕ
  pub prev : Option ℕ

abbrev pub Heap : Type 0
Heap = ℕ → Option ListNode

-- `struct List` and the heap.
pub record Book : Type 0 where
  pub head : Option ℕ
  pub heap : Heap

unfoldable pub create_list : Heap → Book
create_list h = record { head = none; heap = h }

-- `malloc` returns `i`.
unfoldable pub create_node : ℕ → Heap → Heap
create_node i h = put h i (
    some (record {
      name = none;
      surname = none;
      birthdate = none;
      email = none;
      phone = none;
      address = none;
      next = none;
      prev = none;
    }))

abbrev pub set_next : ℕ → Option ℕ → Heap → Option Heap
set_next i p h = do n ← h i; some (put h i (some (record n { next = p })))

abbrev pub set_prev : ℕ → Option ℕ → Heap → Option Heap
set_prev i p h = do n ← h i; some (put h i (some (record n { prev = p })))

-- `free`
unfoldable pub remove_node : Option ℕ → Heap → Option Heap
remove_node none h = some h
remove_node (some i) h = do n ← h i; some (put h i none)

-- The loop of `remove_list`.
unfoldable pub remove_from : ℕ → Option ℕ → Heap → Option Heap
unfolding remove_node
remove_from zero p h = none
remove_from (suc k) none h = some h
remove_from (suc k) (some i) h = do n ← h i; h' ← remove_node (some i) h; remove_from k n.next h'

-- The list, or NULL; the head stays as it is.
unfoldable pub remove_list : ℕ → Option Book → Option (Option Book)
unfolding remove_from
remove_list fuel none = some none
remove_list fuel (some b) = do
  h ← remove_from fuel b.head b.heap
  some (some (record b { heap = h }))

-- `while (tmp -> next != NULL) tmp = tmp -> next`
unfoldable pub last_node : ℕ → ℕ → Heap → Option ℕ
last_node zero tmp h = none
last_node (suc k) tmp h = do
  n ← h tmp
  elim n.next [ none ↦ some tmp | some next ↦ last_node k next h ]

-- `add_element_to_list` for a node and a list that are not NULL.
unfoldable pub add_node : ℕ → ℕ → Option ℕ → Heap → Option Book
unfolding last_node
add_node fuel node none h = do
  h1 ← set_next node none h
  h2 ← set_prev node none h1
  some (record { head = some node; heap = h2 })
add_node fuel node (some head) h = do
  tmp ← last_node fuel head h
  h1 ← set_next tmp (some node) h
  h2 ← set_prev node (some tmp) h1
  h3 ← set_next node none h2
  some (record { head = some head; heap = h3 })

unfoldable pub add_element_to_list : ℕ → Option Book → Option ℕ → Option (Option Book)
unfolding add_node
add_element_to_list fuel none _ = some none
add_element_to_list fuel (some b) none = some (some b)
add_element_to_list fuel (some b) (some node) = do
  b' ← add_node fuel node b.head b.heap
  some (some b')

-- `while (tmp != NULL && tmp != node_to_delete) tmp = tmp -> next`
unfoldable pub seek : ℕ → ℕ → Option ℕ → Heap → Option (Option ℕ)
seek zero node p h = none
seek (suc k) node none h = some none
seek (suc k) node (some tmp) h =
    let rest = h tmp >>= λ n. seek k node n.next h in if tmp == node then some (some tmp) else rest

-- `if (p != NULL) p -> prev = q`
abbrev pub set_prev_of : Option ℕ → Option ℕ → Heap → Option Heap
set_prev_of none q h = some h
set_prev_of (some i) q h = set_prev i q h

-- The node `tmp` leaves the list: by the case of its `prev`.
unfoldable pub unlink : ListNode → Option ℕ → Book → Option Book
unlink n none b = do h ← set_prev_of n.next none b.heap; some (record { head = n.next; heap = h })
unlink n (some p) b = do
  h1 ← set_next p n.next b.heap
  h2 ← set_prev_of n.next (some p) h1
  some (record b { heap = h2 })

unfoldable pub delete_found : Option ℕ → Book → Option Book
unfolding unlink remove_node
delete_found none b = some b
delete_found (some tmp) b = do
  n ← b.heap tmp
  b' ← unlink n n.prev b
  h ← remove_node (some tmp) b'.heap
  some (record b' { heap = h })

unfoldable pub delete_element_from_list : ℕ → Option Book → Option ℕ → Option (Option Book)
unfolding seek delete_found
delete_element_from_list fuel none _ = some none
delete_element_from_list fuel (some b) none = some (some b)
delete_element_from_list fuel (some b) (some node) = do
  tmp ← seek fuel node b.head b.heap
  b' ← delete_found tmp b
  some (some b')

-- The loop of `find_node`: the node that it prints, or NULL. `strcmp` of NULL is undefined.
unfoldable pub find_from : ℕ → Text → Option ℕ → Heap → Option (Option ℕ)
find_from zero surname p h = none
find_from (suc k) surname none h = some none
find_from (suc k) surname (some tmp) h = do
  n ← h tmp
  s ← n.surname
  let rest = find_from k surname n.next h
  elim (strcmp s surname) [ eq ↦ some (some tmp) | lt ↦ rest | gt ↦ rest ]

unfoldable pub find_node : ℕ → Option Book → Text → Option (Option ℕ)
unfolding find_from
find_node fuel none surname = some none
find_node fuel (some b) surname = find_from fuel surname b.head b.heap
