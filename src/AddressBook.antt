-- ===== src/AddressBook.antt =====
-- cw01/zad1/list.c: the address book, as a doubly linked list and as a search tree.
pub mod Person
pub mod Nodes
pub mod Tree
