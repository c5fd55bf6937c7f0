-- ===== src/BarberShop/Invariant/Defs.antt =====
-- The invariant of the shop.
use sysopy_all.Base.{
  ℕ, ◌+◌, ◌≤◌, ◌≡◌, ◌≢◌, ◌⊎◌, Bool, true, false, not, ◌&&◌, List, [], ◌∷◌, ◌++◌, if◌then◌else◌,
  ◌==◌, ℤ, pos, negsuc, ◌==ℤ◌, minus_one,
}
use sysopy_all.WaitQueue.Bounds.{IsValid}
use sysopy_all.WaitQueue.Fifo.{contents}
use sysopy_all.BarberShop.State.{
  BarberPc, sleeping, take_lock, take_read, take_unlock, cut_chair, next_pop, next_unlock, cut_next,
  doze, doze_unlock, ClientPc, look, wake_first, wake_second, sit, enqueue, queue_unlock,
  checker_unlock, suspended, Client, Shop,
}

-- The barber holds QUEUE.
abbrev pub barber_holds : BarberPc → Bool
barber_holds take_read = true
barber_holds (take_unlock pid) = true
barber_holds next_pop = true
barber_holds (next_unlock pid) = true
barber_holds doze = true
barber_holds doze_unlock = true
barber_holds _ = false

-- A client holds QUEUE.
abbrev pub client_holds : ClientPc → Bool
client_holds look = true
client_holds wake_first = true
client_holds wake_second = true
client_holds sit = true
client_holds enqueue = true
client_holds (queue_unlock res) = true
client_holds _ = false

-- A client that was let in, and goes on or has gone to `sigsuspend`.
abbrev pub let_in : ClientPc → Bool
let_in (queue_unlock res) = not (res ==ℤ minus_one)
let_in (checker_unlock res) = not (res ==ℤ minus_one)
let_in suspended = true
let_in _ = false

-- 1 for a client that was let in and has not been sent its signal.
abbrev pub seated : Client → ℕ
seated c = if let_in c.pc && c.pending == 0 then 1 else 0

abbrev pub count : ℕ → List ℤ → ℕ
count k [] = 0
count k (x ∷ xs) = (if x ==ℤ pos k then 1 else 0) + count k xs

abbrev pub AllPids : List ℤ → Type 0
AllPids [] = Unit
AllPids (pos i ∷ xs) = AllPids xs
AllPids (negsuc n ∷ xs) = ⊥

-- The chair, while the client in it has not been read by the barber.
abbrev pub in_chair : BarberPc → ℕ → ℤ → List ℤ
in_chair sleeping n c = if n == 2 then c ∷ [] else []
in_chair take_lock n c = if n == 1 then c ∷ [] else []
in_chair take_read n c = c ∷ []
in_chair _ n c = []

-- The client that the barber is about to cut.
abbrev pub in_hand : BarberPc → List ℤ
in_hand (take_unlock pid) = pid ∷ []
in_hand (cut_chair pid) = pid ∷ []
in_hand (next_unlock pid) = pid ∷ []
in_hand (cut_next pid) = pid ∷ []
in_hand _ = []

-- Every client that the shop owes a cut, in the order of the cuts.
abbrev pub owed : Shop → List ℤ
owed s = in_chair s.barber s.sem_barber s.queue.chair ++ (in_hand s.barber ++ contents s.queue)

-- BARBER while nobody is waking the barber.
abbrev pub Calm : BarberPc → ℕ → List ℤ → Type 0
Calm sleeping n xs = ((n ≡ 0) × (xs ≡ [])) ⊎ (n ≡ 2)
Calm doze n xs = (n ≡ 1) × (xs ≡ [])
Calm doze_unlock n xs = (n ≡ 0) × (xs ≡ [])
Calm _ n xs = n ≡ 1

-- BARBER after `k` of the two increments that wake the barber.
abbrev pub Waking : ℕ → BarberPc → ℕ → List ℤ → Type 0
Waking k sleeping n xs = (n ≡ k) × (xs ≡ [])
Waking k take_lock n xs = (n + 1 ≡ k) × (xs ≡ [])
Waking k _ n xs = ⊥

-- What a client that holds QUEUE knows of the barber.
abbrev pub Door : ClientPc → BarberPc → ℕ → List ℤ → Type 0
Door look p n xs = Calm p n xs
Door enqueue p n xs = Calm p n xs × (n ≢ 0)
Door (queue_unlock res) p n xs = Calm p n xs
Door wake_first p n xs = Waking 0 p n xs
Door wake_second p n xs = Waking 1 p n xs
Door sit p n xs = Waking 2 p n xs
Door _ p n xs = Unit

abbrev pub Knows : ClientPc → Shop → Type 0
Knows p s = Door p s.barber s.sem_barber (contents s.queue)

abbrev pub NobodySits : Shop → Type 0
NobodySits s = (i : ℕ) → (s.client i).pc ≢ sit

pub record Inv (s : Shop) : Type 0 where
  pub valid : IsValid s.queue
  pub binary : s.sem_queue ≤ 1
  pub barber_free : s.sem_queue ≡ 1 → barber_holds s.barber ≡ false
  pub client_free : (i : ℕ) → s.sem_queue ≡ 1 → client_holds (s.client i).pc ≡ false
  pub apart : (i : ℕ) → client_holds (s.client i).pc ≡ true → barber_holds s.barber ≡ false
  pub unique :
      (i j : ℕ) → client_holds (s.client i).pc ≡ true → client_holds (s.client j).pc ≡ true → i ≡ j
  pub calm_free : s.sem_queue ≡ 1 → Calm s.barber s.sem_barber (contents s.queue)
  pub calm_barber : barber_holds s.barber ≡ true → Calm s.barber s.sem_barber (contents s.queue)
  pub asleep : s.barber ≡ sleeping → s.sem_barber ≡ 0 → contents s.queue ≡ []
  pub door : (i : ℕ) → Knows (s.client i).pc s
  pub one_signal : (i : ℕ) → (s.client i).pending ≤ 1
  pub signal_in : (i : ℕ) → (s.client i).pending ≢ 0 → let_in (s.client i).pc ≡ true
  pub nobody_else : (i k : ℕ) → (s.client i).pc ≡ sit → seated (s.client k) ≡ 0
  pub books : NobodySits s → (k : ℕ) → seated (s.client k) ≡ count k (owed s)
  pub pids : NobodySits s → AllPids (owed s)
