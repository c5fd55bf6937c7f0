-- ===== src/WaitQueue/Bounds.antt =====
-- The representation invariant of `struct my_queue`: every access of my_queue.c to `tab` is inside
-- the array, and each operation keeps the indices in range.
use sysopy_all.Base.{
  ℕ, ◌≤◌, ◌<◌, ◌≡◌, refl, arith, Returns, length, length-set, get_elem?-eq-get_or, ℤ, pos, negsuc,
}
use sysopy_all.WaitQueue.{MyQueue, my_queue_init, my_queue_pop, my_queue_push}

-- A head is -1 or an index below `max`.
abbrev pub HeadBelow : ℤ → ℕ → Type 0
HeadBelow (pos h) max = h < max
HeadBelow (negsuc n) max = n ≡ 0

abbrev pub index : ℤ → ℕ
index (pos h) = h
index (negsuc n) = 0

pub record IsValid (q : MyQueue) : Type 0 where
  pub storage : q.max ≤ length q.tab
  pub tail_in : q.tail < q.max
  pub head_in : HeadBelow q.head q.max

-- A queue of at least one and at most as many places as `tab` has is valid after `my_queue_init`.
pub init-IsValid :
    (q : MyQueue) (len : ℕ) → 0 < len → len ≤ length q.tab → IsValid (my_queue_init q len)
unfolding my_queue_init
init-IsValid q len h k = record { storage = k; tail_in = h; head_in = refl }

-- On a valid ring `my_queue_push` makes no access outside `tab`, and keeps the ring valid and its
-- capacity the same.
pub push-IsValid :
    (q : MyQueue) (pid : ℤ)
    → IsValid q
    → Returns (λ r. IsValid r.1 × (r.1.max ≡ q.max)) (my_queue_push q pid)
unfolding my_queue_push
push-IsValid q pid v = ground (arith, length-set q.tab q.tail pid)

-- On a valid ring `my_queue_pop` makes no access outside `tab`, and keeps the ring valid and its
-- capacity the same.
pub pop-IsValid :
    (q : MyQueue) → IsValid q → Returns (λ r. IsValid r.1 × (r.1.max ≡ q.max)) (my_queue_pop q)
unfolding my_queue_pop
pop-IsValid q v = ground (arith, get_elem?-eq-get_or q.tab (index q.head) (pos 0))
