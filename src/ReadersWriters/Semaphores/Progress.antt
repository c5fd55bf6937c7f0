-- ===== src/ReadersWriters/Semaphores/Progress.antt =====
-- The readers and the writers never all wait for each other.
use sysopy_all.Base.{
  ℕ, ◌≤◌, ◌<◌, ◌≡◌, ◌≢◌, true, false, none, arith, Bool-cases, inl, inr, sum_of, sum_of_mono,
  part_of-sum_of, dec_lt,
}
use sysopy_all.ReadersWriters.Semaphores.{
  Pc, r_wait, r_first, r_wait_again, w_wait, returned, Shared, reader_thread, writer_thread,
  is_writer, step,
}
use sysopy_all.ReadersWriters.Semaphores.Invariant.{firsts, others, inside, lasts, writes, Inv}
use sysopy_all.ReadersWriters.Semaphores.Safety.{Reach, Reach-Inv}

-- What a thread needs for its next step.
abbrev Enabled : Pc → ℕ → ℕ → Type 0
Enabled r_wait rs ws = 1 ≤ rs
Enabled r_wait_again rs ws = 1 ≤ rs
Enabled r_first rs ws = 1 ≤ ws
Enabled w_wait rs ws = 1 ≤ ws
Enabled returned rs ws = ⊥
Enabled _ rs ws = Unit

reader-Enabled :
    (p : Pc) (i : ℕ) (s : Shared)
    → is_writer p ≡ false
    → Enabled p s.reader_sem s.writer_sem
    → reader_thread p i s ≢ none
unfolding reader_thread
reader-Enabled p i s b h = ground arith

writer-Enabled :
    (p : Pc) (i : ℕ) (s : Shared)
    → is_writer p ≡ true
    → Enabled p s.reader_sem s.writer_sem
    → writer_thread p i s ≢ none
unfolding writer_thread
writer-Enabled p i s b h = ground arith

Enabled-ne_returned : (p : Pc) (rs ws : ℕ) → Enabled p rs ws → p ≢ returned
Enabled-ne_returned p rs ws h e = ground arith

step-Enabled :
    (i : ℕ) (s : Shared)
    → Enabled (s.thread i) s.reader_sem s.writer_sem
    → (s.thread i ≢ returned) × (step i s ≢ none)
unfolding step
step-Enabled i s h = (
  Enabled-ne_returned (s.thread i) s.reader_sem s.writer_sem h,
  elim (Bool-cases (is_writer (s.thread i))) [
    | inl t ↦ rw t (writer-Enabled (s.thread i) i s t h)
    | inr t ↦ rw t (reader-Enabled (s.thread i) i s t h)
  ],
)

others-Enabled : (p : Pc) (rs ws : ℕ) → 1 ≤ others p → Enabled p rs ws
others-Enabled p rs ws h = ground arith

writes-Enabled : (p : Pc) (rs ws : ℕ) → 1 ≤ writes p → Enabled p rs ws
writes-Enabled p rs ws h = ground arith

firsts-Enabled : (p : Pc) (rs ws : ℕ) → 1 ≤ firsts p → 1 ≤ ws → Enabled p rs ws
firsts-Enabled p rs ws h k = ground arith

inside-Enabled : (p : Pc) (rs ws : ℕ) → 1 ≤ inside p → 1 ≤ rs → Enabled p rs ws
inside-Enabled p rs ws h k = ground arith

both_free-Enabled : (p : Pc) (rs ws : ℕ) → p ≢ returned → 1 ≤ rs → 1 ≤ ws → Enabled p rs ws
both_free-Enabled p rs ws ne h k = ground arith

module _ (n : ℕ) (s : Shared) (inv : Inv n s) where
  -- Some thread can make its next step.
  abbrev SomeMoves : Type 0
  SomeMoves = (i : ℕ) × (i < n) × (s.thread i ≢ returned) × (step i s ≢ none)

  moves : (i : ℕ) → i < n → Enabled (s.thread i) s.reader_sem s.writer_sem → SomeMoves
  moves i lt e = let (a, b) = step-Enabled i s e in (i, lt, a, b)

  writer_moves : 1 ≤ sum_of writes n s.thread → SomeMoves
  writer_moves h =
      let (i, lt, k) = part_of-sum_of writes n s.thread h in
      (moves i lt (writes-Enabled (s.thread i) s.reader_sem s.writer_sem k))

  other_moves : 1 ≤ sum_of others n s.thread → SomeMoves
  other_moves h =
      let (i, lt, k) = part_of-sum_of others n s.thread h in
      (moves i lt (others-Enabled (s.thread i) s.reader_sem s.writer_sem k))

  lasts-le-others : sum_of lasts n s.thread ≤ sum_of others n s.thread
  lasts-le-others = sum_of_mono lasts others (λ p. ground arith) n s.thread

  -- A reader waits for `writer_sem`: it gets it, or a writer has it.
  first_moves : sum_of others n s.thread ≡ 0 → 1 ≤ sum_of firsts n s.thread → SomeMoves
  first_moves o f = elim (dec_lt 0 s.writer_sem) [
    | yes w ↦
        let (i, lt, k) = part_of-sum_of firsts n s.thread f in
        (moves i lt (firsts-Enabled (s.thread i) s.reader_sem s.writer_sem k (omega arith)))
    | no w ↦ writer_moves (ground (arith, inv.one_reader, inv.one_writer, lasts-le-others))
  ]

  inside_moves : 1 ≤ s.reader_sem → 1 ≤ sum_of inside n s.thread → SomeMoves
  inside_moves r h =
      let (i, lt, k) = part_of-sum_of inside n s.thread h in
      (moves i lt (inside-Enabled (s.thread i) s.reader_sem s.writer_sem k r))

  -- `reader_sem` is free.
  reader_free : (j : ℕ) → j < n → s.thread j ≢ returned → 1 ≤ s.reader_sem → SomeMoves
  reader_free j h ne r = elim (dec_lt 0 s.writer_sem) [
    | yes w ↦ (moves j h (both_free-Enabled (s.thread j) s.reader_sem s.writer_sem ne r w))
    | no w ↦ elim (dec_lt 0 (sum_of writes n s.thread)) [
      | yes u ↦ writer_moves u
      | no u ↦
          inside_moves r
            (ground (arith, inv.one_reader, inv.one_writer, inv.counted, lasts-le-others))
    ]
  ]

  some_moves : (j : ℕ) → j < n → s.thread j ≢ returned → SomeMoves
  some_moves j h ne = elim (dec_lt 0 s.reader_sem) [
    | yes r ↦ reader_free j h ne r
    | no r ↦ elim (dec_lt 0 (sum_of others n s.thread)) [
      | yes o ↦ other_moves o
      | no o ↦ first_moves (omega arith) (omega (arith, inv.one_reader))
    ]
  ]

-- In a reachable state of the two-semaphore version, whatever the numbers of rounds, in which some thread
-- has not returned from its loop, a thread that has not returned can make its next step, unless `main`
-- has ended the process, which it does when all readers have returned.
pub never_deadlocks :
    (n r : ℕ) (s : Shared)
    → Reach n r s
    → (j : ℕ) → j < n
    → s.thread j ≢ returned
    → (i : ℕ) × (i < n) × (s.thread i ≢ returned) × (step i s ≢ none)
never_deadlocks n r s p j h ne = some_moves n s (Reach-Inv n r s p) j h ne
