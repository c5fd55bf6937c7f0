-- ===== src/Locks.antt =====
-- cw02/zad3/locks.c: a menu to lock, read and write single bytes of a file, on which several processes
-- run it at once.
pub mod Owners
pub mod Access
mod Tests
use sysopy_all.Base.{
  ℕ, zero, suc, ◌+◌, ◌<◌, ◌≡◌, ◌≢◌, ◌⊎◌, ℤ, pos, negsuc, Bool, true, false, Option, none, some,
  List, [], ◌∷◌, length, Returns,
}

-- `F_RDLCK`, `F_WRLCK`
pub data Kind : Type 0 where
  rdlck : Kind
  wrlck : Kind

-- The record locks of a file, and the calls on one byte of it. `none` is the result -1.
-- `getlk` gives the lock of another process that a lock of the kind would meet, as its kind and its
-- owner; `setlk` sets or removes a lock of the process.
pub record Fcntl : Type 1 where
  pub Locks : Type 0
  pub lock_of : Locks → ℕ → ℕ → Option Kind
  pub getlk : ℕ → Kind → ℕ → Locks → Option (Option (Kind × ℕ))
  pub setlk : ℕ → Option Kind → ℕ → Locks → Option Locks

-- What POSIX says of the calls: a write lock meets any lock of another process, and the call tells one
-- of them; what is set is the lock of that process on that byte alone.
pub record IsDocumented (f : Fcntl) : Type 0 where
  pub getlk-some :
      (pid byte : ℕ) (l : f.Locks) (kind : Kind) (other : ℕ)
      → f.getlk pid wrlck byte l ≡ some (some (kind, other))
      → (other ≢ pid) × (f.lock_of l other byte ≡ some kind)
  pub getlk-none :
      (pid byte : ℕ) (l : f.Locks)
      → f.getlk pid wrlck byte l ≡ some none
      → (other : ℕ) → other ≢ pid
      → f.lock_of l other byte ≡ none
  pub setlk-same :
      (pid byte : ℕ) (k : Option Kind) (l l' : f.Locks)
      → f.setlk pid k byte l ≡ some l'
      → f.lock_of l' pid byte ≡ k
  pub setlk-other :
      (pid byte : ℕ) (k : Option Kind) (l l' : f.Locks)
      → f.setlk pid k byte l ≡ some l'
      → (p b : ℕ) → (p ≢ pid) ⊎ (b ≢ byte)
      → f.lock_of l' p b ≡ f.lock_of l p b

-- The file, whose bytes are read and written one at a time, after an `lseek` to the byte. `none` is
-- the result -1, and a read past the end gives no byte.
pub record ByteFile : Type 1 where
  pub File : Type 0
  pub size : File → ℕ
  pub read_at : ℕ → File → Option (Option ℕ)
  pub write_at : ℕ → ℕ → File → Option File

-- The options of the menu, with what `scanf` and `getchar` read.
pub data Choice : Type 0 where
  set_read_lock : ℤ → Choice
  set_write_lock : ℤ → Choice
  print_locks : Choice
  unlock_character : ℤ → Choice
  read_character : ℤ → Choice
  write_character : ℤ → ℕ → Choice

-- What the program prints. A character or a process id that a call did not store is `none`.
pub data Reply : Type 0 where
  must_be_positive : Reply
  cannot_relock : Reply
  error_setting : Reply
  properly_set : Reply
  properly_unset : Reply
  found : List (ℕ × Kind × Option ℕ) → Reply
  cannot_get : Reply
  cannot_read : Reply
  reading_character : Option ℕ → Reply
  because_of_lock : Reply
  cannot_write : Reply
  saved : Reply

-- `l_type` and `l_pid` after the call that asks for a write lock: a call that fails leaves them.
abbrev pub lock_found : Option (Option (Kind × ℕ)) → Option (Kind × Option ℕ)
lock_found none = some (wrlck, none)
lock_found (some none) = none
lock_found (some (some (kind, owner))) = some (kind, some owner)

module _ (f : Fcntl) (b : ByteFile) where
  -- What the processes share.
  pub record World : Type 0 where
    pub locks : f.Locks
    pub file : b.File

  abbrev set_result : World → Reply → Option f.Locks → World × Reply
  set_result w done none = (w, error_setting)
  set_result w done (some l) = (record w { locks = l }, done)

  abbrev set_unless_found : ℕ → Kind → ℕ → World → Option (Kind × Option ℕ) → World × Reply
  set_unless_found pid kind index w (some found_lock) = (w, cannot_relock)
  set_unless_found pid kind index w none =
      set_result w properly_set (f.setlk pid (some kind) index w.locks)

  -- Options 1 and 2: both ask with a write lock.
  unfoldable pub set_lock : ℕ → Kind → ℤ → World → World × Reply
  set_lock pid kind (negsuc n) w = (w, must_be_positive)
  set_lock pid kind (pos index) w =
      set_unless_found pid kind index w (lock_found (f.getlk pid wrlck index w.locks))

  abbrev add_entry :
      ℕ → Option (Kind × Option ℕ) → List (ℕ × Kind × Option ℕ) → List (ℕ × Kind × Option ℕ)
  add_entry j none entries = entries
  add_entry j (some (kind, owner)) entries = (j, kind, owner) ∷ entries

  -- Option 3, from position `j` on.
  unfoldable pub locks_from : ℕ → ℕ → ℕ → f.Locks → List (ℕ × Kind × Option ℕ)
  locks_from pid zero j l = []
  locks_from pid (suc n) j l =
      add_entry j (lock_found (f.getlk pid wrlck j l)) (locks_from pid n (suc j) l)

  unfoldable pub unlock : ℕ → ℤ → World → World × Reply
  unlock pid (negsuc n) w = (w, must_be_positive)
  unlock pid (pos index) w = set_result w properly_unset (f.setlk pid none index w.locks)

  abbrev read_result : Option (Option ℕ) → Reply
  read_result none = cannot_read
  read_result (some c) = reading_character c

  abbrev read_unless : ℕ → World → Option (Option (Kind × ℕ)) → Reply
  read_unless index w none = cannot_get
  read_unless index w (some (some (rdlck, owner))) = because_of_lock
  read_unless index w (some _) = read_result (b.read_at index w.file)

  -- Option 5
  unfoldable pub read_byte : ℕ → ℤ → World → Reply
  read_byte pid (negsuc n) w = must_be_positive
  read_byte pid (pos index) w = read_unless index w (f.getlk pid wrlck index w.locks)

  abbrev write_result : World → Option b.File → World × Reply
  write_result w none = (w, cannot_write)
  write_result w (some s) = (record w { file = s }, saved)

  abbrev write_unless : ℕ → ℕ → World → Option (Option (Kind × ℕ)) → World × Reply
  write_unless index c w none = (w, cannot_get)
  write_unless index c w (some (some (wrlck, owner))) = (w, because_of_lock)
  write_unless index c w (some _) = write_result w (b.write_at index c w.file)

  -- Option 6
  unfoldable pub write_byte : ℕ → ℤ → ℕ → World → World × Reply
  write_byte pid (negsuc n) c w = (w, must_be_positive)
  write_byte pid (pos index) c w = write_unless index c w (f.getlk pid wrlck index w.locks)

  -- The body of the loop, in process `pid`.
  unfoldable pub run_option : ℕ → Choice → World → World × Reply
  unfolding set_lock locks_from unlock read_byte write_byte
  run_option pid (set_read_lock index) w = set_lock pid rdlck index w
  run_option pid (set_write_lock index) w = set_lock pid wrlck index w
  run_option pid print_locks w = (w, found (locks_from pid (b.size w.file) 0 w.locks))
  run_option pid (unlock_character index) w = unlock pid index w
  run_option pid (read_character index) w = (w, read_byte pid index w)
  run_option pid (write_character index c) w = write_byte pid index c w

  -- The choices of all processes, in the order in which they take effect.
  unfoldable pub session : List (ℕ × Choice) → World → World
  unfolding run_option
  session [] w = w
  session ((pid, choice) ∷ rest) w = session rest (run_option pid choice w).0
