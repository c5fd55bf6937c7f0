-- ===== src/AddressBook/Person.antt =====
-- The record of a person, in `TreeNode` and `ListNode` of cw01/zad1/list.h.
use sysopy_all.Base.{Text}

-- The programs fill every field before a node reaches the tree or the list.
pub record Person : Type 0 where
  pub name : Text
  pub surname : Text
  pub birthdate : Text
  pub email : Text
  pub phone : Text
  pub address : Text
