-- ===== src/WaitQueue/Fifo.antt =====
-- A valid ring behaves as a bounded first-in first-out queue of process ids.
use sysopy_all.Base.{
  ℕ, zero, suc, ◌+◌, ◌-◌, ◌≤◌, ◌<◌, ◌≡◌, refl, sym, ◌∙◌, ◌≢◌, ap, some, List, [], ◌∷◌, ◌++◌, arith,
  ◌==◌, if◌then◌else◌, ltb, Returns, length, get_or, set, get_or-set_self, get_or-set_ne,
  get_elem?-eq-get_or, ℤ, pos, negsuc, minus_one,
}
use mathlib.Core.Option
use mathlib.Core.Path.{ap₂}
use sysopy_all.WaitQueue.{MyQueue, my_queue_init, my_queue_pop, my_queue_push}
use sysopy_all.WaitQueue.Bounds.{IsValid, index, push-IsValid, pop-IsValid}

-- The index after `i`, as the code steps: `++`, then back to 0 at `max`.
abbrev pub next : ℕ → ℕ → ℕ
next max i = if (i + 1) == max then 0 else i + 1

-- The `n` entries from index `i` on, going round at `max`.
pub window : List ℤ → ℕ → ℕ → ℕ → List ℤ
window tab max i zero = []
window tab max i (suc n) = get_or tab i (pos 0) ∷ window tab max (next max i) n

-- How many entries wait.
abbrev pub waiting : MyQueue → ℕ
waiting q = elim q.head [
  | pos h ↦ if ltb h q.tail then q.tail - h else q.max - h + q.tail
  | negsuc n ↦ 0
]

abbrev pub first : MyQueue → ℕ
first q = elim q.head [ pos h ↦ h | negsuc n ↦ q.tail ]

-- The process ids in the queue, oldest first.
unfoldable pub contents : MyQueue → List ℤ
unfolding window
contents q = window q.tab q.max (first q) (waiting q)

length-window : (tab : List ℤ) (max i n : ℕ) → length (window tab max i n) ≡ n
unfolding window
length-window tab max i zero = refl
length-window tab max i (suc n) = ap suc (length-window tab max (next max i) n)

window_of_pos :
    (tab : List ℤ) (max i n : ℕ)
    → n ≢ 0
    → window tab max i n ≡ get_or tab i (pos 0) ∷ window tab max (next max i) (n - 1)
unfolding window
window_of_pos tab max i zero h = absurd (h refl)
window_of_pos tab max i (suc n) h =
    ap (λ k. get_or tab i (pos 0) ∷ window tab max (next max i) k) (omega arith)

-- Where `n` steps from `i` lead.
abbrev wrapped : ℕ → ℕ → ℕ → ℕ
wrapped max i n = if ltb (i + n) max then i + n else i + n - max

wrapped-zero : (max i : ℕ) → i < max → wrapped max i 0 ≡ i
wrapped-zero max i h = ground arith

wrapped-ne : (max i n : ℕ) → i < max → suc n < max → wrapped max i (suc n) ≢ i
wrapped-ne max i n h k = ground arith

wrapped-next :
    (max i n : ℕ) → i < max → suc n < max → wrapped max i (suc n) ≡ wrapped max (next max i) n
wrapped-next max i n h k = ground arith

next-lt : (max i : ℕ) → i < max → next max i < max
next-lt max i h = ground arith

-- A write just past a window makes it longer by the value written.
window-set :
    (tab : List ℤ) (max : ℕ) (x : ℤ) (n i t : ℕ)
    → max ≤ length tab
    → i < max
    → n < max
    → t ≡ wrapped max i n
    → window (set tab t x) max i (suc n) ≡ window tab max i n ++ (x ∷ [])
unfolding window
window-set tab max x zero i t s h k e =
    ap (λ y. y ∷ []) (rw (e, wrapped-zero max i h) (get_or-set_self tab i x (pos 0) (omega arith)))
window-set tab max x (suc n) i t s h k e =
    ap₂ ◌∷◌ (get_or-set_ne tab t i x (pos 0) (λ same. wrapped-ne max i n h k (sym e ∙ same))) (
      window-set tab max x n (next max i) t s (next-lt max i h) (omega arith)
        (e ∙ wrapped-next max i n h k))

-- The abstract queue: at most `max` ids; -1 for a push that finds no room and for a pop that finds
-- nobody.
unfoldable pub fifo_push : ℕ → List ℤ → ℤ → ℤ × List ℤ
fifo_push max xs pid = if length xs == max then (minus_one, xs) else (pos 0, xs ++ (pid ∷ []))

unfoldable pub fifo_pop : List ℤ → ℤ × List ℤ
fifo_pop [] = (minus_one, [])
fifo_pop (x ∷ xs) = (x, xs)

abbrev pub view : ℤ × MyQueue → ℤ × List ℤ
view (r, q) = (r, contents q)

-- On a valid ring `my_queue_push` is defined, returns what the bounded queue returns for its contents
-- (-1 when `max` ids wait, 0 otherwise), and leaves the ring holding that queue's new contents.
pub push_refines :
    (q : MyQueue) (pid : ℤ)
    → IsValid q
    → Option.map view (my_queue_push q pid) ≡ some (fifo_push q.max (contents q) pid)
unfolding my_queue_push fifo_push contents
push_refines q pid v = ground (
  arith,
  length-window q.tab q.max (first q) (waiting q),
  window-set q.tab q.max pid (waiting q) (first q) q.tail,
)

-- On a valid ring `my_queue_pop` is defined, returns the oldest id or -1 when nobody waits, and leaves
-- the ring holding the rest in order.
pub pop_refines :
    (q : MyQueue) → IsValid q → Option.map view (my_queue_pop q) ≡ some (fifo_pop (contents q))
unfolding my_queue_pop fifo_pop contents
pop_refines q v = ground (
  arith,
  get_elem?-eq-get_or q.tab (index q.head) (pos 0),
  window_of_pos q.tab q.max (first q) (waiting q),
)

chair-push :
    (q : MyQueue) (pid : ℤ) → IsValid q → Returns (λ r. r.1.chair ≡ q.chair) (my_queue_push q pid)
unfolding my_queue_push
chair-push q pid v = ground arith

-- On a valid ring both operations are defined and do what the bounded queue does with the ring's
-- contents: `my_queue_push` returns -1 when `max` ids wait, and 0 otherwise with the id at the end;
-- `my_queue_pop` returns the oldest id, or -1 when nobody waits. The ring then holds the queue's new
-- contents, in order.
pub queue_refines :
    (q : MyQueue) (pid : ℤ)
    → IsValid q
    → (Option.map view (my_queue_push q pid) ≡ some (fifo_push q.max (contents q) pid))
      × (Option.map view (my_queue_pop q) ≡ some (fifo_pop (contents q)))
queue_refines q pid v = (push_refines q pid v, pop_refines q v)

-- What a caller may rely on, with the queue shut.
pub push_lem :
    (q : MyQueue) (pid : ℤ)
    → IsValid q
    → Returns
        (λ r.
          IsValid r.1
          × ((r.0, contents r.1) ≡ fifo_push q.max (contents q) pid)
          × (r.1.chair ≡ q.chair))
        (my_queue_push q pid)
push_lem q pid v = ground (arith, push-IsValid q pid v, push_refines q pid v, chair-push q pid v)

pub pop_lem :
    (q : MyQueue)
    → IsValid q
    → Returns (λ r. IsValid r.1 × ((r.0, contents r.1) ≡ fifo_pop (contents q))) (my_queue_pop q)
pop_lem q v = ground (arith, pop-IsValid q v, pop_refines q v)

pub contents-chair : (q : MyQueue) (c : ℤ) → contents (record q { chair = c }) ≡ contents q
unfolding contents
contents-chair q c = refl

pub contents-init : (q : MyQueue) (len : ℕ) → contents (my_queue_init q len) ≡ []
unfolding contents my_queue_init
contents-init q len = refl
