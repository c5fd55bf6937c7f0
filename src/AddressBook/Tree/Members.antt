-- ===== src/AddressBook/Tree/Members.antt =====
-- Who is in the tree: what the operations add, find and remove.
use mathlib.Core.List.{Perm, Mem, perm_middle, append-nil, mem-append, mem-cons}
use mathlib.Core.List.Perm
use mathlib.Core.Logic.Or
use Prim.Native.Nat.Ordering.{lt, eq, gt}
use sysopy_all.Base.{
  ◌≡◌, ◌≢◌, refl, ap, arith, Option, none, some, List, [], ◌∷◌, ◌++◌, Text, strcmp, ◌≺◌, ◌≼◌,
  strcmp_refl, eq_of_strcmp,
}
use sysopy_all.AddressBook.Person.{Person}
use sysopy_all.AddressBook.Tree.{
  Tree, leaf, node, insert_to_tree, min_value_node, delete_root, delete_node, search, flatten,
}
use sysopy_all.AddressBook.Tree.Order.{All, IsSearchTree, All-min, All-imp}

-- The parts of a node, after a change to one of them.
pub perm-left :
    (p q : Person) (xs xs' ys : List Person)
    → Perm xs (p ∷ xs')
    → Perm (xs ++ (q ∷ ys)) (p ∷ (xs' ++ (q ∷ ys)))
perm-left p q xs xs' ys h = Perm.append_right (q ∷ ys) h

pub perm-right :
    (p q : Person) (xs ys ys' : List Person)
    → Perm ys (p ∷ ys')
    → Perm (xs ++ (q ∷ ys)) (p ∷ (xs ++ (q ∷ ys')))
perm-right p q xs ys ys' h =
    Perm.trans (Perm.append_left xs (Perm.trans (Perm.cons q h) (Perm.swap p q ys')))
      (perm_middle xs (q ∷ ys'))

-- After `insert_to_tree` the tree holds the new person and those it held before, each as often.
pub insert-perm : (t : Tree) (p : Person) → Perm (flatten (insert_to_tree t p)) (p ∷ flatten t)
unfolding insert_to_tree flatten
insert-perm leaf p = Perm.refl (p ∷ [])
insert-perm (node l q r) p = ground (
  arith,
  perm-left p q (flatten (insert_to_tree l p)) (flatten l) (flatten r) (insert-perm l p),
  perm-right p q (flatten l) (flatten (insert_to_tree r p)) (flatten r) (insert-perm r p),
)

-- The first of two that is there.
abbrev pub or_else : Option Person → Option Person → Option Person
or_else (some q) o = some q
or_else none o = o

abbrev pub if_named : Person → Text → Option Person
if_named p s = elim (strcmp p.surname s) [ eq ↦ some p | _ ↦ none ]

-- A search after `insert_to_tree` finds what it found before, and where it found nobody, the new
-- person exactly if the surname is theirs.
pub search-insert :
    (t : Tree) (p : Person) (s : Text)
    → search (insert_to_tree t p) s ≡ or_else (search t s) (if_named p s)
unfolding search insert_to_tree
search-insert leaf p s = ground arith
search-insert (node l q r) p s =
    ground (arith, search-insert l p s, search-insert r p s, eq_of_strcmp p.surname s)

mem_left : (p q : Person) (xs ys : List Person) → Mem p xs → Mem p (xs ++ (q ∷ ys))
mem_left p q xs ys h = mem-append.1 (Or.inl h)

mem_right : (p q : Person) (xs ys : List Person) → Mem p ys → Mem p (xs ++ (q ∷ ys))
mem_right p q xs ys h = mem-append.1 (Or.inr (mem-cons.1 (Or.inr h)))

mem_here : (q : Person) (xs ys : List Person) → Mem q (xs ++ (q ∷ ys))
mem_here q xs ys = mem-append.1 (Or.inr (mem-cons.1 (Or.inl refl)))

-- A person that `search` returns has the surname that was asked for and is in the tree.
search_sound :
    (t : Tree) (s : Text) (p : Person) → search t s ≡ some p → (p.surname ≡ s) × Mem p (flatten t)
unfolding search flatten
search_sound leaf s p h = cc
search_sound (node l q r) s p h = ground (
  arith,
  search_sound l s p,
  search_sound r s p,
  eq_of_strcmp q.surname s,
  mem_left p q (flatten l) (flatten r),
  mem_right p q (flatten l) (flatten r),
  mem_here q (flatten l) (flatten r),
)

-- If `search` finds nobody in a search tree, then nobody in the tree has that surname.
search_complete :
    (t : Tree) (s : Text) → IsSearchTree t → search t s ≡ none → All (λ x. x.surname ≢ s) t
unfolding search
search_complete leaf s h e = tt
search_complete (node l q r) s (a, b, c, d) e = (
  ground (arith, search_complete l s c, smaller),
  (λ same. ground (arith, strcmp_refl s)),
  ground (arith, search_complete r s d, greater),
)
  where
    smaller : strcmp q.surname s ≡ lt → All (λ x. x.surname ≢ s) l
    smaller g = All-imp (λ x. x.surname ≺ q.surname) (λ x. x.surname ≢ s) l (λ x h same. cc) a

    greater : strcmp q.surname s ≡ gt → All (λ x. x.surname ≢ s) r
    greater g =
        All-imp (λ x. q.surname ≼ x.surname) (λ x. x.surname ≢ s) r (λ x h same. h (rw same g)) b

-- What `delete_node` makes of a tree, by what `search` finds.
abbrev pub Deleted : Option Person → Tree → Tree → Type 0
Deleted none t t' = t' ≡ t
Deleted (some x) t t' = Perm (flatten t) (x ∷ flatten t')

Deleted-left :
    (o : Option Person) (l l' : Tree) (q : Person) (r : Tree)
    → Deleted o l l'
    → Deleted o (node l q r) (node l' q r)
unfolding flatten
Deleted-left none l l' q r h = ap (λ x. node x q r) h
Deleted-left (some x) l l' q r h = perm-left x q (flatten l) (flatten l') (flatten r) h

Deleted-right :
    (o : Option Person) (l : Tree) (q : Person) (r r' : Tree)
    → Deleted o r r'
    → Deleted o (node l q r) (node l q r')
unfolding flatten
Deleted-right none l q r r' h = ap (λ x. node l q x) h
Deleted-right (some x) l q r r' h = perm-right x q (flatten l) (flatten r) (flatten r') h

search-min :
    (l : Tree) (q : Person) (r : Tree)
    → IsSearchTree (node l q r)
    → search (node l q r) (min_value_node l q r).surname ≡ some (min_value_node l q r)
unfolding search min_value_node
search-min leaf q r h = rw (strcmp_refl q.surname, search)
search-min (node ll lq lr) q r (a, b, c, d) =
    rw (All-min (λ x. x.surname ≺ q.surname) ll lq lr a, search) (search-min ll lq lr c)

delete_root-Deleted :
    (l : Tree) (q : Person) (r : Tree) (delete : Person → Tree)
    → IsSearchTree r
    → ((k : Person) → Deleted (search r k.surname) r (delete k))
    → Deleted (some q) (node l q r) (delete_root l r delete)
unfolding delete_root flatten
delete_root-Deleted leaf q r delete s h = Perm.refl (q ∷ flatten r)
delete_root-Deleted (node ll lq lr) q leaf delete s h =
    rw append-nil at (perm_middle {a = q} (flatten ll ++ (lq ∷ flatten lr)) [])
delete_root-Deleted (node ll lq lr) q (node rl rq rr) delete s h =
    let kept = flatten ll ++ (lq ∷ flatten lr) in
    let m = min_value_node rl rq rr in
    let gone : Deleted (some m) (node rl rq rr) (delete m) = rw (search-min rl rq rr s) at (h m) in
    Perm.trans (perm_middle kept (flatten rl ++ (rq ∷ flatten rr)))
      (Perm.cons q (Perm.append_left kept gone))

-- On a search tree `delete_node` takes out exactly the person whom `search` finds for the key's
-- surname, once, and keeps all others; if `search` finds nobody the tree stays the same.
pub delete_lem :
    (t : Tree) (k : Person) → IsSearchTree t → Deleted (search t k.surname) t (delete_node t k)
unfolding search delete_node
delete_lem leaf k s = refl
delete_lem (node l q r) k (a, b, c, d) = ground (
  arith,
  Deleted-left (search l k.surname) l (delete_node l k) q r (delete_lem l k c),
  Deleted-right (search r k.surname) l q r (delete_node r k) (delete_lem r k d),
  delete_root-Deleted l q r (delete_node r) d (λ x. delete_lem r x d),
)

abbrev pub Answers : Tree → Text → Option Person → Type 0
Answers t s none = All (λ x. x.surname ≢ s) t
Answers t s (some p) = (p.surname ≡ s) × Mem p (flatten t)

-- On a search tree, a person that `search` returns has the surname that was asked for and is in the
-- tree; if it finds nobody, then nobody in the tree has that surname.
pub search-Answers : (t : Tree) (s : Text) → IsSearchTree t → Answers t s (search t s)
search-Answers t s h = answered (search t s) refl
  where
    answered : (o : Option Person) → search t s ≡ o → Answers t s o
    answered none e = search_complete t s h e
    answered (some p) e = search_sound t s p e
