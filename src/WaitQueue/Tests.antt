-- ===== src/WaitQueue/Tests.antt =====
-- The ring at work, and its theorems at one ring.
use sysopy_all.Base.{◌≡◌, refl, some, [], ◌∷◌, arith, ◌>>=◌, pos, minus_one}
use mathlib.Core.Option
use sysopy_all.WaitQueue.{MyQueue, my_queue_push, my_queue_pop}
use sysopy_all.WaitQueue.Bounds.{IsValid}
use sysopy_all.WaitQueue.Fifo.{contents, view, fifo_push, fifo_pop, queue_refines}

-- Ids 30 and 31, round the end of an array of three.
abbrev wrapped_ring : MyQueue
wrapped_ring = record {
  max = 3;
  head = pos 2;
  tail = 1;
  chair = pos 9;
  tab = pos 31 ∷ pos 8 ∷ pos 30 ∷ [];
}

wrapped_ring-IsValid : IsValid wrapped_ring
wrapped_ring-IsValid = omega arith

contents_round : contents wrapped_ring ≡ pos 30 ∷ pos 31 ∷ []
unfolding contents
contents_round = refl

-- A push fills the last place, the next one is refused.
fill :
    Option.map view (my_queue_push wrapped_ring (pos 40) >>= λ r. my_queue_push r.1 (pos 41))
    ≡ some (minus_one, pos 30 ∷ pos 31 ∷ pos 40 ∷ [])
unfolding my_queue_push contents
fill = refl

-- Three pops of two ids.
drain :
    Option.map view
      (my_queue_pop wrapped_ring >>= λ r. my_queue_pop r.1 >>= λ r'. my_queue_pop r'.1)
    ≡ some (minus_one, [])
unfolding my_queue_pop contents
drain = refl

queue_refines_example :
    (Option.map view (my_queue_push wrapped_ring (pos 40))
      ≡ some (fifo_push 3 (contents wrapped_ring) (pos 40)))
    × (Option.map view (my_queue_pop wrapped_ring) ≡ some (fifo_pop (contents wrapped_ring)))
queue_refines_example = queue_refines wrapped_ring (pos 40) wrapped_ring-IsValid
