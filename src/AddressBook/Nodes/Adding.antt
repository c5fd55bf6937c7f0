-- ===== src/AddressBook/Nodes/Adding.antt =====
-- `add_element_to_list` puts the node at the end of the list.
use sysopy_all.Base.{
  ℕ, zero, suc, ◌≤◌, ◌<◌, ◌≡◌, ◌≢◌, refl, sym, ap, ◌∙◌, Option, none, some, List, [], ◌∷◌, ◌++◌,
  put, length, arith,
}
use sysopy_all.AddressBook.Nodes.{ListNode, Heap, Book, last_node, add_node, add_element_to_list}
use sysopy_all.AddressBook.Nodes.Links.{
  last, Linked, Chained, Absent, Nodup, IsBook, bare, Gives, put_self, put_other, put-bare,
  set_next-there, set_prev-there,
}

abbrev last_prev : Option ℕ → ℕ → List ℕ → Option ℕ
last_prev prev i [] = prev
last_prev prev i (j ∷ js) = last_prev (some i) j js

last_node_lem :
    (h : Heap) (prev : Option ℕ) (i : ℕ) (is : List ℕ) (fuel : ℕ)
    → Chained h prev (i ∷ is)
    → length is < fuel
    → last_node fuel i h ≡ some (last i is)
unfolding last_node
last_node_lem h prev i is zero c k = absurd (omega arith)
last_node_lem h prev i [] (suc fuel) (l, c) k = rw (l.there, l.after) refl
last_node_lem h prev i (j ∷ js) (suc fuel) (l, c) k =
    rw (l.there, l.after) (last_node_lem h (some i) j js fuel c (omega arith))

pub Absent-ne-last : (i j : ℕ) (js : List ℕ) → Absent i (j ∷ js) → i ≢ last j js
Absent-ne-last i j [] (e, a) = e
Absent-ne-last i j (k ∷ ks) (e, a) = Absent-ne-last i k ks a

-- A heap that differs from one with the chain in the last node's `next` and in the new node.
record Appended (h h' : Heap) (end node : ℕ) : Type 0 where
  at_end : (n : ListNode) → h end ≡ some n → h' end ≡ some (record n { next = some node })
  other : (j : ℕ) → j ≢ end → j ≢ node → h' j ≡ h j
  new : Linked h' (some end) none node

append-Chained :
    (h h' : Heap) (prev : Option ℕ) (i : ℕ) (is : List ℕ) (node : ℕ)
    → Chained h prev (i ∷ is)
    → Nodup (i ∷ is)
    → Absent node (i ∷ is)
    → Appended h h' (last i is) node
    → Chained h' prev ((i ∷ is) ++ (node ∷ []))
append-Chained h h' prev i [] node (l, c) d (e, a) w = (
  record {
    node = record (l.node) { next = some node };
    there = w.at_end l.node l.there;
    before = l.before;
    after = refl;
  },
  (w.new, tt),
)
append-Chained h h' prev i (j ∷ js) node (l, c) (d, ds) (e, a) w = (
  record {
    node = l.node;
    there = w.other i (Absent-ne-last i j js d) (λ p. e (sym p)) ∙ l.there;
    before = l.before;
    after = l.after;
  },
  append-Chained h h' (some i) j js node c ds a w,
)

append-Absent :
    (i : ℕ) (js : List ℕ) (node : ℕ) → Absent i js → i ≢ node → Absent i (js ++ (node ∷ []))
append-Absent i [] node b e = (e, tt)
append-Absent i (j ∷ js) node (f, b) e = (f, append-Absent i js node b e)

append-Nodup : (is : List ℕ) (node : ℕ) → Nodup is → Absent node is → Nodup (is ++ (node ∷ []))
append-Nodup [] node d a = (tt, tt)
append-Nodup (i ∷ is) node (d, ds) (e, a) =
    (append-Absent i is node d (λ p. e (sym p)), append-Nodup is node ds a)

-- The heap after the three writes of `add_node` on a list that is not empty.
abbrev joined : Heap → ℕ → ListNode → ℕ → ListNode → Heap
joined h end e node n =
    let h1 = put h end (some (record e { next = some node })) in
    let h2 = put h1 node (some (record n { prev = some end })) in
    put h2 node (some (record n { next = none; prev = some end }))

joined-Appended :
    (h : Heap) (end : ℕ) (e : ListNode) (node : ℕ) (n : ListNode)
    → h end ≡ some e
    → h node ≡ some n
    → node ≢ end
    → Appended h (joined h end e node n) end node
joined-Appended h end e node n p q d = record {
  at_end = λ m r. rw (same m r) (ground arith);
  other = λ j x y. ground arith;
  new = record {
    node = record n { next = none; prev = some end };
    there = ground arith;
    before = refl;
    after = refl;
  };
}
  where
    same : (m : ListNode) → h end ≡ some m → m ≡ e
    same m r = cc

last-there :
    (h : Heap) (prev : Option ℕ) (i : ℕ) (is : List ℕ)
    → Chained h prev (i ∷ is)
    → Linked h (last_prev prev i is) none (last i is)
last-there h prev i [] (l, c) = l
last-there h prev i (j ∷ js) (l, c) = last-there h (some i) j js c

add_node_lem :
    (h : Heap) (i : ℕ) (is : List ℕ) (node : ℕ) (e n : ListNode) (fuel : ℕ)
    → Chained h none (i ∷ is)
    → h (last i is) ≡ some e
    → h node ≡ some n
    → node ≢ last i is
    → length is < fuel
    → add_node fuel node (some i) h
      ≡ some (record { head = some i; heap = joined h (last i is) e node n })
unfolding add_node
add_node_lem h i is node e n fuel c pe pn d k =
    rw
      (
        last_node_lem h none i is fuel c k,
        set_next-there h (last i is) e (some node) pe,
        set_prev-there h1 node n (some (last i is)) at_node,
        set_next-there h2 node (record n { prev = some (last i is) }) none
            (put_self h1 node (some (record n { prev = some (last i is) }))),
      )
      refl
  where
    h1 : Heap
    h1 = put h (last i is) (some (record e { next = some node }))

    at_node : h1 node ≡ some n
    at_node =
        put_other h (last i is) node (some (record e { next = some node })) (λ q. d (sym q)) ∙ pn

    h2 : Heap
    h2 = put h1 node (some (record n { prev = some (last i is) }))

joined-bare :
    (h : Heap) (end : ℕ) (e : ListNode) (node : ℕ) (n : ListNode) (j : ℕ)
    → h end ≡ some e
    → h node ≡ some n
    → node ≢ end
    → bare (joined h end e node n j) ≡ bare (h j)
joined-bare h end e node n j pe pn d =
    put-bare h2 node (some (record n { next = none; prev = some end })) j
      (ap bare (sym (put_self h1 node (some (record n { prev = some end })))))
    ∙ put-bare h1 node (some (record n { prev = some end })) j (ap bare (sym at_node))
    ∙ put-bare h end (some (record e { next = some node })) j (ap bare (sym pe))
  where
    h1 : Heap
    h1 = put h end (some (record e { next = some node }))

    at_node : h1 node ≡ some n
    at_node = put_other h end node (some (record e { next = some node })) (λ q. d (sym q)) ∙ pn

    h2 : Heap
    h2 = put h1 node (some (record n { prev = some end }))

-- Given a book whose links spell out the list ids, a node that is not of it, and fuel for the
-- nodes of the list, add_element_to_list gives a book whose links spell out ids with the node at
-- the end, with next and prev consistent, and changes no field but next and prev of any node j.
pub add_element_to_list-IsBook :
    (ids : List ℕ) (b : Book) (node : ℕ) (n : ListNode) (fuel j : ℕ)
    → IsBook ids b
    → Absent node ids
    → b.heap node ≡ some n
    → length ids ≤ fuel
    → Gives
        (λ b'. IsBook (ids ++ (node ∷ [])) b' × (bare (b'.heap j) ≡ bare (b.heap j)))
        (add_element_to_list fuel (some b) (some node))
unfolding add_element_to_list
add_element_to_list-IsBook [] b node n fuel j w a p k =
    rw
      (
        w.start,
        p,
        set_prev-there h1 node (record n { next = none }) none
            (put_self b.heap node (some (record n { next = none }))),
      )
      (
        record {
          start = refl;
          links = (
            record {
              node = record n { next = none; prev = none };
              there = put_self h1 node (some (record n { next = none; prev = none }));
              before = refl;
              after = refl;
            },
            tt,
          );
          nodup = (tt, tt);
        },
        put-bare h1 node (some (record n { next = none; prev = none })) j
              (ap bare (sym (put_self b.heap node (some (record n { next = none })))))
            ∙ put-bare b.heap node (some (record n { next = none })) j (ap bare (sym p)),
      )
  where
    h1 : Heap
    h1 = put b.heap node (some (record n { next = none }))
add_element_to_list-IsBook (i ∷ is) b node n fuel j w a p k =
    rw (w.start, add_node_lem b.heap i is node l.node n fuel w.links l.there p d k)
      (
        record {
          start = refl;
          links =
              append-Chained b.heap h' none i is node w.links w.nodup a
                (joined-Appended b.heap (last i is) l.node node n l.there p d);
          nodup = append-Nodup (i ∷ is) node w.nodup a;
        },
        joined-bare b.heap (last i is) l.node node n j l.there p d,
      )
  where
    l : Linked b.heap (last_prev none i is) none (last i is)
    l = last-there b.heap none i is w.links

    d : node ≢ last i is
    d = Absent-ne-last node i is a

    h' : Heap
    h' = joined b.heap (last i is) l.node node n
