-- ===== src/Locks/Tests.antt =====
-- A table of locks, and the theorems at three processes on it.
use mathlib.Core.Option.{some_inj}
use sysopy_all.Base.{
  ℕ, ◌≡◌, ◌≢◌, refl, ◌⊎◌, inl, pos, Bool, true, false, ◌&&◌, Option, none, some, List, [], ◌∷◌,
  ◌==◌, ==_iff, if◌then◌else◌, arith, length, get_elem?, set, Text, subst,
}
use sysopy_all.Locks.{Kind, rdlck, wrlck, Fcntl, IsDocumented, ByteFile, Choice, World, session}
use sysopy_all.Locks.Choice.{set_read_lock}
use sysopy_all.Locks.Owners.{OneOwner, session-OneOwner, never_shared}
use sysopy_all.Locks.Access.{OthersHave, Outcomes, guards}

record Entry : Type 0 where
  owner : ℕ
  byte : ℕ
  kind : Kind

find_lock : List Entry → ℕ → ℕ → Option Kind
find_lock [] p i = none
find_lock (e ∷ es) p i =
    let rest = find_lock es p i in if e.owner == p && e.byte == i then some e.kind else rest

conflict : Kind → Kind → Bool
conflict rdlck rdlck = false
conflict _ _ = true

find_conflict : ℕ → Kind → ℕ → List Entry → Option (Kind × ℕ)
unfolding conflict
find_conflict p k i [] = none
find_conflict p k i (e ∷ es) =
    let rest = find_conflict p k i es in
    if e.owner == p
    then rest
    else (if e.byte == i && conflict e.kind k then some (e.kind, e.owner) else rest)

remove_lock : ℕ → ℕ → List Entry → List Entry
remove_lock p i [] = []
remove_lock p i (e ∷ es) =
    let rest = remove_lock p i es in if e.owner == p && e.byte == i then rest else e ∷ rest

store_lock : ℕ → Option Kind → ℕ → List Entry → List Entry
unfolding remove_lock
store_lock p none i es = remove_lock p i es
store_lock p (some k) i es = record { owner = p; byte = i; kind = k } ∷ remove_lock p i es

abbrev table : Fcntl
table = record {
  Locks = List Entry;
  lock_of = find_lock;
  getlk = λ p k i es. some (find_conflict p k i es);
  setlk = λ p k i es. some (store_lock p k i es);
}

conflict-wrlck : (k : Kind) → conflict k wrlck ≡ true
unfolding conflict
conflict-wrlck rdlck = refl
conflict-wrlck wrlck = refl

find_conflict-some :
    (p i : ℕ) (es : List Entry) (k : Kind) (o : ℕ)
    → find_conflict p wrlck i es ≡ some (k, o)
    → (o ≢ p) × (find_lock es o i ≡ some k)
unfolding find_conflict find_lock
find_conflict-some p i [] k o h = cc
find_conflict-some p i (e ∷ es) k o h =
    ground (arith, find_conflict-some p i es k o, conflict-wrlck e.kind)

find_conflict-none :
    (p i o : ℕ) (es : List Entry)
    → o ≢ p
    → find_conflict p wrlck i es ≡ none
    → find_lock es o i ≡ none
unfolding find_conflict find_lock
find_conflict-none p i o [] ne h = refl
find_conflict-none p i o (e ∷ es) ne h =
    ground (arith, find_conflict-none p i o es ne, conflict-wrlck e.kind)

find_lock-remove_same : (p i : ℕ) (es : List Entry) → find_lock (remove_lock p i es) p i ≡ none
unfolding find_lock remove_lock
find_lock-remove_same p i [] = refl
find_lock-remove_same p i (e ∷ es) = ground (arith, find_lock-remove_same p i es)

find_lock-remove_other :
    (p i q j : ℕ) (es : List Entry)
    → (q ≢ p) ⊎ (j ≢ i)
    → find_lock (remove_lock p i es) q j ≡ find_lock es q j
unfolding find_lock remove_lock
find_lock-remove_other p i q j [] h = refl
find_lock-remove_other p i q j (e ∷ es) h = ground (arith, find_lock-remove_other p i q j es h)

store_lock-same :
    (p i : ℕ) (k : Option Kind) (es : List Entry) → find_lock (store_lock p k i es) p i ≡ k
unfolding store_lock find_lock
store_lock-same p i none es = find_lock-remove_same p i es
store_lock-same p i (some k) es = rw ((==_iff p p).1 refl, (==_iff i i).1 refl) refl

store_lock-other :
    (p i : ℕ) (k : Option Kind) (es : List Entry) (q j : ℕ)
    → (q ≢ p) ⊎ (j ≢ i)
    → find_lock (store_lock p k i es) q j ≡ find_lock es q j
unfolding store_lock find_lock
store_lock-other p i none es q j h = find_lock-remove_other p i q j es h
store_lock-other p i (some k) es q j h = ground (arith, find_lock-remove_other p i q j es h)

table-IsDocumented : IsDocumented table
table-IsDocumented = record {
  getlk-some = λ pid byte l kind other e. find_conflict-some pid byte l kind other (some_inj.0 e);
  getlk-none = λ pid byte l e other ne. find_conflict-none pid byte other l ne (some_inj.0 e);
  setlk-same = λ pid byte k l l' e.
      subst (λ m. find_lock m pid byte ≡ k) (some_inj.0 e) (store_lock-same pid byte k l);
  setlk-other = λ pid byte k l l' e p b h.
      subst (λ m. find_lock m p b ≡ find_lock l p b) (some_inj.0 e)
        (store_lock-other pid byte k l p b h);
}

-- A file in memory, which `write` does not lengthen.
abbrev memory : ByteFile
memory = record {
  File = Text;
  size = length;
  read_at = λ i xs. some (get_elem? xs i);
  write_at = λ i c xs. some (set xs i c);
}

abbrev unlocked : World table memory
unlocked = record { locks = []; file = b'a' ∷ b'b' ∷ [] }

-- Process 1 takes a read lock, process 2 wants one as well.
abbrev choices : List (ℕ × Choice)
choices = (1, set_read_lock (pos 0)) ∷ (2, set_read_lock (pos 0)) ∷ []

abbrev after_choices : World table memory
after_choices = session table memory choices unlocked

second-refused : find_lock after_choices.locks 2 0 ≡ none
unfolding session find_conflict store_lock find_lock
second-refused = refl

unlocked-OneOwner : OneOwner table table-IsDocumented memory []
unfolding find_lock
unlocked-OneOwner byte p q ne = inl refl

never_shared_example :
    (find_lock after_choices.locks 1 0 ≡ none) ⊎ (find_lock after_choices.locks 2 0 ≡ none)
never_shared_example =
    never_shared table table-IsDocumented memory choices unlocked unlocked-OneOwner 0 1 2
      (λ e. omega arith)

others_read : OthersHave table table-IsDocumented memory after_choices.locks 2 0 (some rdlck)
unfolding session find_conflict store_lock find_lock
others_read = (1, (λ e. omega arith), refl)

guards_example : Outcomes table table-IsDocumented memory after_choices 2 0 b'c' (some rdlck)
guards_example =
    guards table table-IsDocumented memory after_choices 2 0 b'c' (some rdlck)
      (session-OneOwner table table-IsDocumented memory choices unlocked unlocked-OneOwner)
      others_read (λ e. cc)
