-- ===== src/AddressBook/Nodes/Deleting.antt =====
-- `delete_element_from_list` takes one node out of the list and frees it.
use mathlib.Core.Option
use sysopy_all.Base.{
  ==_iff, ℕ, zero, suc, ◌<◌, ◌≡◌, ◌≢◌, refl, sym, ap, ◌∙◌, Option, none, some, List, [], ◌∷◌, ◌++◌,
  put, length, arith,
}
use sysopy_all.AddressBook.Nodes.{
  ListNode, Heap, Book, seek, unlink, delete_found, delete_element_from_list,
}
use sysopy_all.AddressBook.Nodes.Links.{
  Linked, first, Chained, Absent, Nodup, Agree-Chained, IsBook, bare, Gives,
}
use sysopy_all.AddressBook.Nodes.Cutting.{
  Differs, Outside, with_next, with_prev, alter, bypass, bypass-other, bypass-before, bypass-after,
  bypass-bare, bypass-Agree, There, alter-There, set_next-alter, set_prev_of-alter, remove_node-put,
}

-- The address before what follows `is`.
abbrev before_rest : Option ℕ → List ℕ → Option ℕ
before_rest prev [] = prev
before_rest prev (i ∷ is) = before_rest (some i) is

pub Absent-split :
    (i : ℕ) (xs : List ℕ) (d : ℕ) (ys : List ℕ)
    → Absent i (xs ++ (d ∷ ys))
    → (i ≢ d) × Differs i (first ys) × Absent i ys × Absent i xs
Absent-split i [] d [] (e, a) = (e, tt, a, tt)
Absent-split i [] d (j ∷ ys) (e, (f, a)) = (e, f, (f, a), tt)
Absent-split i (a ∷ xs) d ys (e, x) = let w = Absent-split i xs d ys x in (w.0, w.1, w.2, (e, w.3))

Absent-before : (i a : ℕ) (xs : List ℕ) → Absent i (a ∷ xs) → Differs i (before_rest (some a) xs)
Absent-before i a [] (e, x) = e
Absent-before i a (c ∷ xs) (e, x) = Absent-before i c xs x

bypass-Chained :
    (h : Heap) (prev : Option ℕ) (xs : List ℕ) (d : ℕ) (ys : List ℕ)
    → Chained h prev (xs ++ (d ∷ ys))
    → Nodup (xs ++ (d ∷ ys))
    → Outside prev (xs ++ (d ∷ ys))
    → Chained (bypass h (before_rest prev xs) d (first ys)) prev (xs ++ ys)
bypass-Chained h prev [] d [] c u o = tt
bypass-Chained h prev [] d (i ∷ ys) (_, (l, c)) ((x, zs), (y, u)) o = (
  record {
    node = with_prev prev l.node;
    there =
        bypass-after h prev d i (λ e. x (sym e)) (away prev o)
        ∙ ap (Option.map (with_prev prev)) l.there;
    before = refl;
    after = l.after;
  },
  Agree-Chained h (bypass h prev d (some i)) (some i) ys
      (bypass-Agree h prev d i ys (beyond prev o) zs y) c,
)
  where
    away : (p : Option ℕ) → Outside p (d ∷ i ∷ ys) → Differs i p
    away none o = tt
    away (some p) (f, (g, o)) = λ e. g (sym e)

    beyond : (p : Option ℕ) → Outside p (d ∷ i ∷ ys) → Outside p ys
    beyond none o = tt
    beyond (some p) (f, (g, o)) = o
bypass-Chained h prev (a ∷ []) d ys (l, c) (x, u) o =
    let w = Absent-split a [] d ys x in
    (
      record {
        node = with_next (first ys) l.node;
        there =
            bypass-before h a d (first ys) w.0 w.1 ∙ ap (Option.map (with_next (first ys))) l.there;
        before = l.before;
        after = refl;
      },
      bypass-Chained h (some a) [] d ys c u x,
    )
bypass-Chained h prev (a ∷ a' ∷ xs) d ys (l, c) (x, u) o =
    let w = Absent-split a (a' ∷ xs) d ys x in
    (
      record {
        node = l.node;
        there =
            bypass-other h (before_rest (some a') xs) d (first ys) a w.0 (Absent-before a a' xs w.3)
              w.1
            ∙ l.there;
        before = l.before;
        after = l.after;
      },
      bypass-Chained h (some a) (a' ∷ xs) d ys c u x,
    )

bypass-Nodup : (xs : List ℕ) (d : ℕ) (ys : List ℕ) → Nodup (xs ++ (d ∷ ys)) → Nodup (xs ++ ys)
bypass-Nodup [] d ys (x, u) = u
bypass-Nodup (a ∷ xs) d ys (x, u) = (shorter xs x, bypass-Nodup xs d ys u)
  where
    shorter : (xs : List ℕ) → Absent a (xs ++ (d ∷ ys)) → Absent a (xs ++ ys)
    shorter [] (e, x) = x
    shorter (c ∷ xs) (e, x) = (e, shorter xs x)

seek-found :
    (h : Heap) (prev : Option ℕ) (xs : List ℕ) (d : ℕ) (ys : List ℕ) (fuel : ℕ)
    → Chained h prev (xs ++ (d ∷ ys))
    → Nodup (xs ++ (d ∷ ys))
    → length xs < fuel
    → seek fuel d (first (xs ++ (d ∷ ys))) h ≡ some (some d)
unfolding seek
seek-found h prev xs d ys zero c u k = absurd (omega arith)
seek-found h prev [] d ys (suc fuel) c u k = rw ((==_iff d d).1 refl) refl
seek-found h prev (a ∷ xs) d ys (suc fuel) (l, c) (x, u) k =
    rw (l.there, l.after, seek-found h (some a) xs d ys fuel c u (omega arith)) (ground arith)

seek-Absent :
    (h : Heap) (prev : Option ℕ) (d : ℕ) (is : List ℕ) (fuel : ℕ)
    → Chained h prev is
    → Absent d is
    → length is < fuel
    → seek fuel d (first is) h ≡ some none
unfolding seek
seek-Absent h prev d is zero c u k = absurd (omega arith)
seek-Absent h prev d [] (suc fuel) c u k = refl
seek-Absent h prev d (i ∷ is) (suc fuel) (l, c) (x, u) k =
    rw (l.there, l.after, seek-Absent h (some i) d is fuel c u (omega arith)) (ground arith)

found-Linked :
    (h : Heap) (prev : Option ℕ) (xs : List ℕ) (d : ℕ) (ys : List ℕ)
    → Chained h prev (xs ++ (d ∷ ys))
    → Linked h (before_rest prev xs) (first ys) d
found-Linked h prev [] d ys (l, c) = l
found-Linked h prev (x ∷ xs) d ys (l, c) = found-Linked h (some x) xs d ys c

before-There :
    (h : Heap) (prev : Option ℕ) (xs : List ℕ) (d : ℕ) (ys : List ℕ)
    → Chained h prev (xs ++ (d ∷ ys))
    → There h prev
    → There h (before_rest prev xs)
before-There h prev [] d ys c t = t
before-There h prev (x ∷ xs) d ys (l, c) t = before-There h (some x) xs d ys c (l.node, l.there)

after-There :
    (h : Heap) (prev : Option ℕ) (xs : List ℕ) (d : ℕ) (ys : List ℕ)
    → Chained h prev (xs ++ (d ∷ ys))
    → There h (first ys)
after-There h prev [] d [] c = tt
after-There h prev [] d (y ∷ ys) (_, (l, c)) = (l.node, l.there)
after-There h prev (x ∷ xs) d ys (l, c) = after-There h (some x) xs d ys c

-- The head of the list after a node whose `prev` is the first argument has left it.
abbrev new_head : Option ℕ → Option ℕ → Option ℕ → Option ℕ
new_head none q head = q
new_head (some p) q head = head

unlink_lem :
    (n : ListNode) (p q : Option ℕ) (b : Book)
    → n.next ≡ q
    → There b.heap p
    → There b.heap q
    → unlink n p b
      ≡ some (record {
        head = new_head p q b.head;
        heap = alter (alter b.heap p (with_next q)) q (with_prev p);
      })
unfolding unlink
unlink_lem n none q b e s t = rw (e, set_prev_of-alter b.heap q none t) refl
unlink_lem n (some p) q b e s t =
    rw
      (
        e,
        set_next-alter b.heap p q s,
        set_prev_of-alter h1 q (some p) (alter-There b.heap (some p) (with_next q) q t),
      )
      refl
  where
    h1 : Heap
    h1 = alter b.heap (some p) (with_next q)

delete_found_lem :
    (b : Book) (p : Option ℕ) (d : ℕ) (q : Option ℕ)
    → Linked b.heap p q d
    → There b.heap p
    → There b.heap q
    → delete_found (some d) b
      ≡ some (record { head = new_head p q b.head; heap = bypass b.heap p d q })
unfolding delete_found
delete_found_lem b p d q l s t =
    rw (l.there, l.before, unlink_lem l.node p q b l.after s t, remove_node-put h2 d at_d) refl
  where
    h1 : Heap
    h1 = alter b.heap p (with_next q)

    h2 : Heap
    h2 = alter h1 q (with_prev p)

    at_d : There h2 (some d)
    at_d =
        alter-There h1 q (with_prev p) (some d)
          (alter-There b.heap p (with_next q) (some d) (l.node, l.there))

new_head-first :
    (xs : List ℕ) (d : ℕ) (ys : List ℕ)
    → new_head (before_rest none xs) (first ys) (first (xs ++ (d ∷ ys))) ≡ first (xs ++ ys)
new_head-first [] d ys = refl
new_head-first (x ∷ xs) d ys = kept x xs
  where
    kept :
        (x' : ℕ) (xs' : List ℕ) → new_head (before_rest (some x') xs') (first ys) (some x) ≡ some x
    kept x' [] = refl
    kept x' (c ∷ xs') = kept c xs'

-- Given a book whose links spell out the nodes xs, then d, then ys, and fuel for xs and one more,
-- delete_element_from_list of d gives a book whose links, next and prev, spell out xs and then ys;
-- d is freed, and no field but next and prev of any other node j changes.
pub delete_element_from_list-IsBook :
    (xs : List ℕ) (d : ℕ) (ys : List ℕ) (b : Book) (fuel j : ℕ)
    → IsBook (xs ++ (d ∷ ys)) b
    → length xs < fuel
    → Gives
        (λ b'. IsBook (xs ++ ys) b' × (bare (b'.heap j) ≡ bare (put b.heap d none j)))
        (delete_element_from_list fuel (some b) (some d))
unfolding delete_element_from_list
delete_element_from_list-IsBook xs d ys b fuel j w k =
    rw
      (
        ap (λ p. seek fuel d p b.heap) w.start
            ∙ seek-found b.heap none xs d ys fuel w.links w.nodup k,
        delete_found_lem b (before_rest none xs) d (first ys)
            (found-Linked b.heap none xs d ys w.links) (before-There b.heap none xs d ys w.links tt)
            (after-There b.heap none xs d ys w.links),
      )
      (
        record {
          start = ap (new_head (before_rest none xs) (first ys)) w.start ∙ new_head-first xs d ys;
          links = bypass-Chained b.heap none xs d ys w.links w.nodup tt;
          nodup = bypass-Nodup xs d ys w.nodup;
        },
        bypass-bare b.heap (before_rest none xs) d (first ys) j,
      )

pub delete_element_from_list-Absent :
    (ids : List ℕ) (b : Book) (d fuel : ℕ)
    → IsBook ids b
    → Absent d ids
    → length ids < fuel
    → delete_element_from_list fuel (some b) (some d) ≡ some (some b)
unfolding delete_element_from_list
delete_element_from_list-Absent ids b d fuel w a k =
    rw (ap (λ p. seek fuel d p b.heap) w.start ∙ seek-Absent b.heap none d ids fuel w.links a k)
      refl
