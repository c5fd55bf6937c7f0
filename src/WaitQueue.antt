-- ===== src/WaitQueue.antt =====
-- cw07/zad1/my_queue.c, my_queue.h: the ring of waiting clients in shared memory.
pub mod Bounds
pub mod Fifo
mod Tests
use sysopy_all.Base.{
  ℕ, zero, suc, ◌+◌, Bool, Option, none, some, List, ◌==◌, if◌then◌else◌, ◌>>=◌, ltb, length,
  get_elem?, set, ℤ, pos, negsuc, ◌==ℤ◌, minus_one,
}

-- `struct my_queue`. `head` is -1 for an empty queue. `max` and `tail` are never negative:
-- `queue_init` of the barber refuses any length outside 5 to 1000, and `tail` counts up from 0.
pub record MyQueue : Type 0 where
  pub max : ℕ
  pub head : ℤ
  pub tail : ℕ
  pub chair : ℤ
  pub tab : List ℤ

unfoldable pub my_queue_init : MyQueue → ℕ → MyQueue
my_queue_init q len = record q { max = len; head = minus_one; tail = 0; chair = pos 0 }

unfoldable pub my_queue_is_empty : MyQueue → Bool
my_queue_is_empty q = q.head ==ℤ minus_one

unfoldable pub my_queue_is_full : MyQueue → Bool
my_queue_is_full q = q.head ==ℤ pos q.tail

-- `tab[i]`; a negative index is outside the array.
read_tab : MyQueue → ℤ → Option ℤ
read_tab q (pos i) = get_elem? q.tab i
read_tab q (negsuc i) = none

write_tab : MyQueue → ℕ → ℤ → Option MyQueue
write_tab q i v = if ltb i (length q.tab) then some (record q { tab = set q.tab i v }) else none

-- `head++`
succ_ℤ : ℤ → ℤ
succ_ℤ (pos n) = pos (n + 1)
succ_ℤ (negsuc zero) = pos 0
succ_ℤ (negsuc (suc n)) = negsuc n

wrap_head : MyQueue → MyQueue
wrap_head q = if q.head ==ℤ pos q.max then record q { head = pos 0 } else q

mark_empty : MyQueue → MyQueue
mark_empty q = if q.head ==ℤ pos q.tail then record q { head = minus_one } else q

wrap_tail : MyQueue → MyQueue
wrap_tail q = if q.tail == q.max then record q { tail = 0 } else q

-- The result of a call and the queue that it leaves.
unfoldable pub my_queue_pop : MyQueue → Option (ℤ × MyQueue)
unfolding my_queue_is_empty read_tab succ_ℤ wrap_head mark_empty
my_queue_pop q = if my_queue_is_empty q then some (minus_one, q) else do
  pid ← read_tab q q.head
  let q1 = record q { chair = pid; head = succ_ℤ q.head }
  let q2 = mark_empty (wrap_head q1)
  some (q2.chair, q2)

unfoldable pub my_queue_push : MyQueue → ℤ → Option (ℤ × MyQueue)
unfolding my_queue_is_full my_queue_is_empty write_tab wrap_tail
my_queue_push q pid = if my_queue_is_full q then some (minus_one, q) else do
  let q1 = if my_queue_is_empty q then record q { head = pos q.tail } else q
  q2 ← write_tab q1 q1.tail pid
  let q3 = record q2 { tail = q2.tail + 1 }
  some (pos 0, wrap_tail q3)
