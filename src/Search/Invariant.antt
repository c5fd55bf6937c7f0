-- ===== src/Search/Invariant.antt =====
-- Who may hold the mutex, and who is cancelled.
use sysopy_all.Base.{
  ℕ, ◌+◌, ◌<◌, ◌≡◌, ◌≢◌, refl, ◌∙◌, Bool, true, false, ◌||◌, arith, sum_of, sum_of-put,
  sum_of-alike,
}
use sysopy_all.Search.{
  Pc, reading, cancelling, unlocking, finished, Thread, Shared, Move, blocked, unset, goes, goto,
}

-- The thread has the mutex.
abbrev pub has_mutex : Pc → ℕ
has_mutex (reading j) = 1
has_mutex (cancelling j) = 1
has_mutex unlocking = 1
has_mutex _ = 0

abbrev pub holds : Thread → ℕ
holds t = has_mutex t.pc

abbrev pub is_finished : Pc → Bool
is_finished finished = true
is_finished _ = false

-- The thread has returned, or its cancellation will take effect.
abbrev pub doomed : Thread → Bool
doomed t = t.pending || is_finished t.pc

abbrev pub is_cancelling : Pc → Bool
is_cancelling (cancelling j) = true
is_cancelling _ = false

-- Before the end of the file is met: no cancellation, and the mutex is free or one thread has it.
pub record Calm (n : ℕ) (s : Shared) : Type 0 where
  pub none_pending : (i : ℕ) → i < n → (s.thread i).pending ≡ false
  pub none_cancelling : (i : ℕ) → i < n → is_cancelling (s.thread i).pc ≡ false
  pub one_holder : s.mutex + sum_of holds n s.thread ≡ 1

-- Thread `c` has cancelled the threads below `j`, but for itself.
pub record Spreading (n c j : ℕ) (s : Shared) : Type 0 where
  pub present : c < n
  pub at_j : (s.thread c).pc ≡ cancelling j
  pub not_pending : (s.thread c).pending ≡ false
  pub has_it : s.mutex ≡ 0
  pub others_not : (i : ℕ) → i < n → i ≢ c → has_mutex (s.thread i).pc ≡ 0
  pub below : (i : ℕ) → i < n → i < j → i ≢ c → doomed (s.thread i) ≡ true

abbrev pub Ending : ℕ → Shared → Type 0
Ending n s = (i : ℕ) → i < n → doomed (s.thread i) ≡ true

pub data Inv (n : ℕ) (s : Shared) : Type 0 where
  calm : Calm n s → Inv n s
  spreading : (c j : ℕ) → Spreading n c j s → Inv n s
  ending : Ending n s → Inv n s

-- What holds of the state that a move leads to.
abbrev pub Leads : (Shared → Type 0) → Move → Type 0
Leads P blocked = Unit
Leads P unset = Unit
Leads P (goes t) = P t

-- The same program counters, requests and mutex.
pub record Alike (s t : Shared) : Type 0 where
  pub same_pc : (x : ℕ) → (t.thread x).pc ≡ (s.thread x).pc
  pub same_pending : (x : ℕ) → (t.thread x).pending ≡ (s.thread x).pending
  pub same_mutex : t.mutex ≡ s.mutex

module _ (n : ℕ) (s t : Shared) (a : Alike s t) where
  pub Ending-Alike : Ending n s → Ending n t
  Ending-Alike h x l = rw (a.same_pc x, a.same_pending x) (h x l)

  pub Calm-Alike : Calm n s → Calm n t
  Calm-Alike h = record {
    none_pending = λ x l. a.same_pending x ∙ h.none_pending x l;
    none_cancelling = λ x l. rw (a.same_pc x) (h.none_cancelling x l);
    one_holder = rw a.same_mutex (
        omega (
          arith,
          h.one_holder,
          sum_of-alike holds n t.thread s.thread (λ x. rw (a.same_pc x) refl),
        ));
  }

  pub Spreading-Alike : (c j : ℕ) → Spreading n c j s → Spreading n c j t
  Spreading-Alike c j h = record {
    present = h.present;
    at_j = a.same_pc c ∙ h.at_j;
    not_pending = a.same_pending c ∙ h.not_pending;
    has_it = a.same_mutex ∙ h.has_it;
    others_not = λ x l ne. rw (a.same_pc x) (h.others_not x l ne);
    below = λ x l m ne. rw (a.same_pc x, a.same_pending x) (h.below x l m ne);
  }

module _ (n : ℕ) (s : Shared) (i : ℕ) (p : Pc) where
  doomed-goto :
      (x : ℕ)
      → is_finished (s.thread i).pc ≡ false
      → doomed (s.thread x) ≡ true
      → doomed ((goto s i p).thread x) ≡ true
  doomed-goto x f d = ground arith

  pub Ending-goto : is_finished (s.thread i).pc ≡ false → Ending n s → Ending n (goto s i p)
  Ending-goto f h x l = doomed-goto x f (h x l)

  pub Spreading-goto :
      (c j : ℕ)
      → i ≢ c
      → is_finished (s.thread i).pc ≡ false
      → has_mutex p ≡ 0
      → Spreading n c j s
      → Spreading n c j (goto s i p)
  Spreading-goto c j ne f m h = record {
    present = h.present;
    at_j = ground (arith, h.at_j);
    not_pending = ground (arith, h.not_pending);
    has_it = h.has_it;
    others_not = λ x l e. ground (arith, h.others_not x l e);
    below = λ x l b e. doomed-goto x f (h.below x l b e);
  }

  pub Calm-goto :
      (m : ℕ)
      → i < n
      → is_cancelling p ≡ false
      → m + has_mutex p ≡ s.mutex + holds (s.thread i)
      → Calm n s
      → Calm n (goto (record s { mutex = m }) i p)
  Calm-goto m l c e h = record {
    none_pending = λ x k. ground (arith, h.none_pending x k, h.none_pending i l);
    none_cancelling = λ x k. ground (arith, h.none_cancelling x k);
    one_holder =
        omega
          (arith, h.one_holder, sum_of-put holds n s.thread i (record (s.thread i) { pc = p }) l);
  }
