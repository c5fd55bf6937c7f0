-- ===== src/BarberShop/State.antt =====
-- What the processes share, and where each of them stands.
use sysopy_all.Base.{ℕ, zero, suc, if◌then◌else◌, ◌==◌, ℤ}
use sysopy_all.WaitQueue.{MyQueue}

-- The barber, by the next shared access of `work` (barber.c). Each `semop` waits on one semaphore.
pub data BarberPc : Type 0 where
  sleeping : BarberPc  -- line 70: BARBER down
  take_lock : BarberPc  -- line 122, `take_client_from_queue`: QUEUE down
  take_read : BarberPc  -- line 126: read of `chair`
  take_unlock : ℤ → BarberPc  -- line 130: QUEUE up
  cut_chair : ℤ → BarberPc  -- line 75: `cut` of the client in the chair
  next_lock : BarberPc  -- line 80: QUEUE down
  next_pop : BarberPc  -- line 84: `my_queue_pop`
  next_unlock : ℤ → BarberPc  -- line 89: QUEUE up
  cut_next : ℤ → BarberPc  -- line 93: `cut` of the client from the queue
  doze : BarberPc  -- line 103: BARBER down, with QUEUE held
  doze_unlock : BarberPc  -- line 109: QUEUE up

-- A client, by the next shared access of `get_cut` and `enter_barber_shop` (clients.c).
pub data ClientPc : Type 0 where
  outside : ClientPc  -- line 116: head of the loop
  checker_lock : ClientPc  -- line 121: CHECKER down
  queue_lock : ClientPc  -- line 126: QUEUE down
  look : ClientPc  -- line 151: value of BARBER
  wake_first : ClientPc  -- line 164: BARBER up
  wake_second : ClientPc  -- line 173: BARBER up once more
  sit : ClientPc  -- line 177: write of `chair`
  enqueue : ClientPc  -- line 181: `my_queue_push`
  queue_unlock : ℤ → ClientPc  -- line 133: QUEUE up
  checker_unlock : ℤ → ClientPc  -- line 138: CHECKER up
  suspended : ClientPc  -- line 143: `sigsuspend`
  done : ClientPc

-- `cuts` is `cuts_number_already`; `pending` counts the SIGRTMIN signals sent and not yet handled,
-- which stay blocked outside `sigsuspend`.
pub record Client : Type 0 where
  pub pc : ClientPc
  pub cuts : ℕ
  pub pending : ℕ

-- A client stands in the family under its process id.
pub record Shop : Type 0 where
  pub sem_barber : ℕ
  pub sem_queue : ℕ
  pub sem_checker : ℕ
  pub queue : MyQueue
  pub barber : BarberPc
  pub client : ℕ → Client

-- One step of one process. `fault` is an access outside the queue's array, or a signal to a
-- negative process id, which names a group of processes.
pub data Outcome : Type 0 where
  next : Shop → Outcome
  blocked : Outcome
  fault : Outcome

-- `semop` by -1: it waits while the value is 0.
abbrev pub down : ℕ → (ℕ → Outcome) → Outcome
down zero k = blocked
down (suc n) k = k n

abbrev pub update : (ℕ → Client) → ℕ → Client → ℕ → Client
update f i c j = if i == j then c else f j

-- Client `i` goes on at `p`.
abbrev pub goto : Shop → ℕ → ClientPc → Shop
goto s i p = record s { client = update s.client i (record (s.client i) { pc = p }) }
