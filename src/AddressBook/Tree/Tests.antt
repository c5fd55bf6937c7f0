-- ===== src/AddressBook/Tree/Tests.antt =====
-- The tree functions at work, and their theorems at one tree.
use mathlib.Core.Option
use mathlib.Core.List.{Perm}
use sysopy_all.Base.{ℕ, ◌≡◌, refl, some, [], ◌∷◌, map, strcmp, Returns}
use sysopy_all.AddressBook.Person.{Person}
use sysopy_all.AddressBook.Tree.{
  Tree, leaf, node, insert_to_tree, insert_to_tree_by_name, delete_node, search, flatten,
  delete_root, min_value_node,
}
use sysopy_all.AddressBook.Tree.Order.{IsSearchTree, keeps-IsSearchTree}
use sysopy_all.AddressBook.Tree.Members.{Answers, search-Answers, Deleted, delete_lem}
use sysopy_all.AddressBook.Tree.Sorting.{sort_tree_by_name, IsSplitByName, sort_lem}

abbrev person : ℕ → ℕ → Person
person n s = record {
  name = n ∷ [];
  surname = s ∷ [];
  birthdate = [];
  email = [];
  phone = [];
  address = [];
}

-- Surnames 50, 30, 70, 60, 80, with names in another order.
abbrev book : Tree
book =
    node (node leaf (person 4 30) leaf) (person 2 50)
      (node (node leaf (person 5 60) leaf) (person 1 70) (node leaf (person 3 80) leaf))

book-IsSearchTree : IsSearchTree book
unfolding strcmp
book-IsSearchTree = (
  (tt, refl, tt),
  ((tt, (λ e. cc), tt), (λ e. cc), (tt, (λ e. cc), tt)),
  (tt, tt, tt, tt),
  ((tt, refl, tt), (tt, (λ e. cc), tt), (tt, tt, tt, tt), (tt, tt, tt, tt)),
)

-- The successor of 50 moves up.
delete_fifty :
    flatten (delete_node book (person 9 50))
    ≡ person 4 30 ∷ person 5 60 ∷ person 1 70 ∷ person 3 80 ∷ []
unfolding delete_node flatten strcmp delete_root min_value_node
delete_fifty = refl

-- What `sort_tree_by_name` makes of it: below the root the names come in the order of the surnames.
sorted_names :
    Option.map (λ r. map (λ (p : Person). p.name) (flatten r.0)) (sort_tree_by_name leaf book)
    ≡ some ((1 ∷ []) ∷ (2 ∷ []) ∷ (4 ∷ []) ∷ (5 ∷ []) ∷ (3 ∷ []) ∷ [])
unfolding sort_tree_by_name insert_to_tree insert_to_tree_by_name delete_node flatten strcmp
    delete_root min_value_node
sorted_names = refl

keeps-IsSearchTree_example :
    IsSearchTree (insert_to_tree book (person 6 50)) × IsSearchTree (delete_node book (person 9 50))
keeps-IsSearchTree_example = keeps-IsSearchTree book (person 6 50) (person 9 50) book-IsSearchTree

search-Answers_example : Answers book (60 ∷ []) (search book (60 ∷ []))
search-Answers_example = search-Answers book (60 ∷ []) book-IsSearchTree

delete_lem_example : Deleted (search book (50 ∷ [])) book (delete_node book (person 9 50))
delete_lem_example = delete_lem book (person 9 50) book-IsSearchTree

sort_lem_example :
    Returns
      (λ (t, rest). (rest ≡ leaf) × IsSplitByName t × Perm (flatten t) (flatten book))
      (sort_tree_by_name leaf book)
sort_lem_example = sort_lem book book-IsSearchTree
