-- ===== src/AddressBook/Nodes/Sort/Sorted.antt =====
-- `List_sort` leaves the nodes of the list in the order of their names, linked by `next`.
use mathlib.Core.List.{Perm}
use mathlib.Core.List.Permᴰ
use sysopy_all.Base.{ℕ, ◌<◌, ◌≡◌, sym, subst, List, length, Returns, Returns-bind}
use sysopy_all.AddressBook.Nodes.{Book}
use sysopy_all.AddressBook.Nodes.Links.{first, Every, Nodup, bare}
use sysopy_all.AddressBook.Nodes.Sort.{sort_list_by_name, list_sort}
use sysopy_all.AddressBook.Nodes.Sort.Selecting.{Nexts, HasName}
use sysopy_all.AddressBook.Nodes.Sort.Perms.{Nodup-permᴰ}
use sysopy_all.AddressBook.Nodes.Sort.Steps.{
  Ascending, Ascending-kept, Sorts, sort_list_by_name-Sorts,
}

-- The book's `next` links spell out the list `ids`.
pub record Lists (ids : List ℕ) (b : Book) : Type 0 where
  pub start : b.head ≡ first ids
  pub links : Nexts b.heap ids
  pub nodup : Nodup ids

-- Book `b'` has the nodes `ids` in the order of their names, and the data of node `j` as in `b`.
pub record IsSorted (ids : List ℕ) (b : Book) (j : ℕ) (b' : Book) : Type 0 where
  pub order : List ℕ
  pub lists : Lists order b'
  pub perm : Perm order ids
  pub ascending : Ascending b'.heap order
  pub data_kept : bare (b'.heap j) ≡ bare (b.heap j)

-- Given a book whose next links spell out ids, all with a name, and fuel for ids and one more,
-- List_sort returns a book whose next links spell out the same nodes, in ascending order of their
-- names; no field but next and prev of any node j changes.
pub list_sort-IsSorted :
    (ids : List ℕ) (b : Book) (fuel j : ℕ)
    → Lists ids b
    → Every (HasName b.heap) ids
    → length ids < fuel
    → Returns (IsSorted ids b j) (list_sort fuel b)
unfolding list_sort
list_sort-IsSorted ids b fuel j w n m =
    Returns-bind (Sorts b.heap ids) (IsSorted ids b j) (sort_list_by_name fuel b.head b.heap) _
      (subst (λ p. Returns (Sorts b.heap ids) (sort_list_by_name fuel p b.heap)) (sym w.start)
        (sort_list_by_name-Sorts fuel b.heap ids w.links w.nodup n m))
      (λ r v. record {
        order = v.order;
        lists = record {
          start = v.start;
          links = v.links;
          nodup = Nodup-permᴰ (Permᴰ.symm v.perm) w.nodup;
        };
        perm = ∣ v.perm ∣₁;
        ascending = Ascending-kept r.1 b.heap v.order (λ i. sym (v.data_kept i)) v.ascending;
        data_kept = v.data_kept j;
      })
