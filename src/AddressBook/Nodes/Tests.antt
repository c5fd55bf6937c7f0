-- ===== src/AddressBook/Nodes/Tests.antt =====
-- The list functions at work, and their theorems at one list.
use sysopy_all.Base.{strcmp, ℕ, ◌>>=◌, ◌≡◌, refl, Option, none, some, [], ◌∷◌, put, arith, Returns}
use sysopy_all.AddressBook.Nodes.{
  ListNode, Book, create_list, create_node, add_element_to_list, delete_element_from_list,
  find_node, remove_list,
}
use sysopy_all.AddressBook.Nodes.Sort.{list_sort}
use sysopy_all.AddressBook.Nodes.Sort.Sorted.{Lists, IsSorted, list_sort-IsSorted}
use sysopy_all.AddressBook.Nodes.Links.{IsBook, bare, Gives}
use sysopy_all.AddressBook.Nodes.Adding.{add_element_to_list-IsBook}
use sysopy_all.AddressBook.Nodes.Deleting.{delete_element_from_list-IsBook}
use sysopy_all.AddressBook.Nodes.Finding.{AllNamed, remove_list-Freed, Freed}

abbrev person : ℕ → Option ℕ → Option ℕ → ListNode
person s p n = record {
  name = some (s ∷ []);
  surname = some (s ∷ []);
  birthdate = none;
  email = none;
  phone = none;
  address = none;
  next = n;
  prev = p;
}

abbrev three : Book
three = record {
  head = some 1;
  heap =
      put
        (put (put (create_node 4 (λ _. none)) 1 (some (person 65 none (some 2)))) 2
          (some (person 67 (some 1) (some 3))))
        3 (some (person 66 (some 2) none));
}

three-IsBook : IsBook (1 ∷ 2 ∷ 3 ∷ []) three
three-IsBook = record {
  start = refl;
  links = (
    record { node = person 65 none (some 2); there = refl; before = refl; after = refl },
    (
      record { node = person 67 (some 1) (some 3); there = refl; before = refl; after = refl },
      (record { node = person 66 (some 2) none; there = refl; before = refl; after = refl }, tt),
    ),
  );
  nodup = (((λ e. omega arith), ((λ e. omega arith), tt)), (((λ e. omega arith), tt), (tt, tt)));
}

three-AllNamed : AllNamed (three.heap) (1 ∷ 2 ∷ 3 ∷ [])
three-AllNamed = (((65 ∷ []), refl), (((67 ∷ []), refl), (((66 ∷ []), refl), tt)))

abbrev blank : ListNode
blank = record {
  name = none;
  surname = none;
  birthdate = none;
  email = none;
  phone = none;
  address = none;
  next = none;
  prev = none;
}

add_element_to_list-IsBook_example :
    Gives
      (λ b'. IsBook (1 ∷ 2 ∷ 3 ∷ 4 ∷ []) b' × (bare (b'.heap 2) ≡ bare (three.heap 2)))
      (add_element_to_list 3 (some three) (some 4))
unfolding create_node
add_element_to_list-IsBook_example =
    add_element_to_list-IsBook (1 ∷ 2 ∷ 3 ∷ []) three 4 blank 3 2 three-IsBook
      ((λ e. omega arith), ((λ e. omega arith), ((λ e. omega arith), tt))) refl (omega arith)

delete_element_from_list-IsBook_example :
    Gives
      (λ b'. IsBook (1 ∷ 3 ∷ []) b' × (bare (b'.heap 3) ≡ bare (put three.heap 2 none 3)))
      (delete_element_from_list 2 (some three) (some 2))
delete_element_from_list-IsBook_example =
    delete_element_from_list-IsBook (1 ∷ []) 2 (3 ∷ []) three 2 3 three-IsBook (omega arith)

remove_list-Freed_example :
    Gives
      (λ b'. (b'.head ≡ some 1) × Freed three.heap b'.heap 2 (1 ∷ 2 ∷ 3 ∷ []))
      (remove_list 4 (some three))
remove_list-Freed_example = remove_list-Freed (1 ∷ 2 ∷ 3 ∷ []) three 4 2 three-IsBook (omega arith)

-- A search that finds the third node, and the list after it is freed: its head is not reset.
find_third : find_node 4 (some three) (66 ∷ []) ≡ some (some 3)
unfolding find_node strcmp
find_third = refl

new_list :
    add_element_to_list 0 (some (create_list (create_node 1 (λ _. none)))) none
    ≡ some (some (create_list (create_node 1 (λ _. none))))
unfolding add_element_to_list
new_list = refl

three-Lists : Lists (1 ∷ 2 ∷ 3 ∷ []) three
three-Lists = record {
  start = refl;
  links = (
    record { node = person 65 none (some 2); there = refl; after = refl },
    (
      record { node = person 67 (some 1) (some 3); there = refl; after = refl },
      (record { node = person 66 (some 2) none; there = refl; after = refl }, tt),
    ),
  );
  nodup = three-IsBook.nodup;
}

list_sort-IsSorted_example : Returns (IsSorted (1 ∷ 2 ∷ 3 ∷ []) three 2) (list_sort 4 three)
list_sort-IsSorted_example =
    list_sort-IsSorted (1 ∷ 2 ∷ 3 ∷ []) three 4 2 three-Lists (refl, (refl, (refl, tt)))
      (omega arith)

abbrev two : Book
two = record {
  head = some 1;
  heap =
      put (put (λ _. none) 1 (some (person 66 none (some 2)))) 2 (some (person 65 (some 1) none));
}

-- The sort leaves `prev` as it was: node 2 is now first, and its `prev` is node 1. Its deletion
-- frees it, but the head stays on it, and node 1 follows itself.
abbrev deleted : Option (Option Book)
deleted = list_sort 3 two >>= λ b. delete_element_from_list 3 (some b) (some 2)

delete_after_sort :
    ((deleted >>= λ o. o >>= λ b. b.head) ≡ some 2)
    × ((deleted >>= λ o. o >>= λ b. b.heap 2) ≡ none)
    × ((deleted >>= λ o. o >>= λ b. b.heap 1 >>= λ n. n.next) ≡ some 1)
unfolding list_sort delete_element_from_list strcmp
delete_after_sort = (refl, refl, refl)
