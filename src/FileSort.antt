-- ===== src/FileSort.antt =====
-- cw02/zad1: a file of records of one size, sorted by their first byte or shuffled (bubbleSort.c),
-- through three functions that files.c passes.
pub mod Bubble
pub mod Sorting
pub mod Shuffling
pub mod Files
mod Tests
use sysopy_all.Base.{
  ℕ, zero, suc, ◌-◌, Option, none, some, ◌>>=◌, ltb, leb, if◌then◌else◌, Text, get_elem?, ◌+◌, ◌≡◌,
  List, set, Returns, ◌%◌,
}

-- The functions that `sort` and `shuffle` are given, over the state of the file. `none` is a call
-- that ends the program.
pub record RecordFile : Type 1 where
  pub State : Type 0
  pub next_record : State → Option (Text × State)
  pub swap_records : ℕ → ℕ → State → Option State
  pub set_pointer_to_beginning : State → Option State

-- What the two rely on. `At s xs k`: the file holds the records `xs`, and the pointer stands before
-- the record with index `k`.
pub record IsLawful (f : RecordFile) (At : f.State → List Text → ℕ → Type 0) : Type 0 where
  pub next_lem :
      (s : f.State) (xs : List Text) (k : ℕ) (r : Text)
      → At s xs k
      → get_elem? xs k ≡ some r
      → Returns (λ (r', s'). (r' ≡ r) × At s' xs (suc k)) (f.next_record s)
  pub swap_lem :
      (s : f.State) (xs : List Text) (k i j : ℕ) (a b : Text)
      → At s xs k
      → get_elem? xs i ≡ some a
      → get_elem? xs j ≡ some b
      → Returns (λ s'. At s' (set (set xs i b) j a) k) (f.swap_records i j s)
  pub rewind_lem :
      (s : f.State) (xs : List Text) (k : ℕ)
      → At s xs k
      → Returns (λ s'. At s' xs 0) (f.set_pointer_to_beginning s)

module _ (f : RecordFile) where
  -- The body of the inner loop, with the record that is `prev` afterwards.
  unfoldable pub compare_records : ℕ → Text → Text → f.State → Option (Text × f.State)
  compare_records i prev curr s = do
    a ← get_elem? curr 0
    b ← get_elem? prev 0
    if ltb a b then (do s' ← f.swap_records (i - 1) i s; some (prev, s')) else some (curr, s)

  -- The inner loop from `i`, for `n` more records.
  unfoldable pub inner_loop : ℕ → ℕ → Text → f.State → Option f.State
  unfolding compare_records
  inner_loop zero i prev s = some s
  inner_loop (suc n) i prev s = do
    (curr, s1) ← f.next_record s
    (prev', s2) ← compare_records i prev curr s1
    inner_loop n (suc i) prev' s2

  -- The outer loop, where the argument is `index_of_last_unsorted_element`.
  unfoldable pub outer_loop : ℕ → f.State → Option f.State
  unfolding inner_loop
  outer_loop zero s = some s
  outer_loop (suc m) s = do
    s1 ← f.set_pointer_to_beginning s
    (prev, s2) ← f.next_record s1
    s3 ← inner_loop (suc m) 1 prev s2
    outer_loop m s3

  unfoldable pub sort : ℕ → f.State → Option f.State
  unfolding outer_loop
  sort number_of_records s =
      if leb number_of_records 1 then some s else outer_loop (number_of_records - 1) s

  -- The loop of `shuffle`, down from `i`.
  unfoldable pub shuffle_loop : ℕ → f.State → Option f.State
  shuffle_loop zero s = some s
  shuffle_loop (suc i) s = do
    let j = suc i % (suc i + 1)
    s' ← f.swap_records (suc i) j s
    shuffle_loop i s'

  unfoldable pub shuffle : ℕ → f.State → Option f.State
  unfolding shuffle_loop
  shuffle number_of_records s =
      if leb number_of_records 1
      then some s
      else do s1 ← f.set_pointer_to_beginning s; shuffle_loop (number_of_records - 1) s1
