-- ===== src/Search/Keeps.antt =====
-- Every step of every thread keeps the invariant.
use sysopy_all.Base.{
  ℕ, suc, ◌≤◌, ◌<◌, ◌≡◌, refl, ap, inl, inr, Bool, false, ltb, ◌==◌, if◌then◌else◌, Text, arith,
  Bool-cases,
}
use sysopy_all.Search.{
  Pc, locking, reading, cancelling, unlocking, searching, finished, Shared, goto, pthread_cancel,
  pthread_mutex_unlock, after_read,
}
use sysopy_all.Search.Invariant.{
  has_mutex, is_finished, is_cancelling, Spreading, Ending, Inv, calm, spreading, ending,
  Ending-goto, Calm-goto,
}
use sysopy_all.Search.Steps.{holder_is, start_Spreading}

pub lock-Inv :
    (n i m : ℕ) (s : Shared)
    → i < n
    → (s.thread i).pc ≡ locking
    → s.mutex ≡ suc m
    → Inv n s
    → Inv n (goto (record s { mutex = m }) i (reading 0))
lock-Inv n i m s l e q (calm h) =
    calm (Calm-goto n s i (reading 0) m l refl (omega (arith, q, ap has_mutex e)) h)
lock-Inv n i m s l e q (spreading c j h) = absurd (omega (arith, q, h.has_it))
lock-Inv n i m s l e q (ending h) =
    ending (Ending-goto n (record s { mutex = m }) i (reading 0) (ap is_finished e) h)

pub unlock-Inv :
    (n i : ℕ) (s : Shared)
    → i < n
    → (s.thread i).pc ≡ unlocking
    → Inv n s
    → Inv n (goto (pthread_mutex_unlock s) i (searching 0))
unlock-Inv n i s l e (calm h) =
    calm (Calm-goto n s i (searching 0) (suc s.mutex) l refl (omega (arith, ap has_mutex e)) h)
unlock-Inv n i s l e (spreading c j h) =
    let same = holder_is n c j i s h l (ap has_mutex e) in
    absurd (cc (e, ap (λ x. (s.thread x).pc) same, h.at_j))
unlock-Inv n i s l e (ending h) =
    ending (Ending-goto n (pthread_mutex_unlock s) i (searching 0) (ap is_finished e) h)

-- The reader goes on with the mutex.
read-Inv :
    (n i j : ℕ) (s : Shared) (p : Pc)
    → i < n
    → (s.thread i).pc ≡ reading j
    → has_mutex p ≡ 1
    → is_cancelling p ≡ false
    → Inv n s
    → Inv n (goto s i p)
read-Inv n i j s p l e m c (calm h) =
    calm (Calm-goto n s i p s.mutex l c (omega (arith, m, ap has_mutex e)) h)
read-Inv n i j s p l e m c (spreading d x h) =
    let same = holder_is n d x i s h l (ap has_mutex e) in
    absurd (cc (e, ap (λ x. (s.thread x).pc) same, h.at_j))
read-Inv n i j s p l e m c (ending h) = ending (Ending-goto n s i p (ap is_finished e) h)

end_of_file-Inv :
    (n i j : ℕ) (s : Shared)
    → i < n
    → (s.thread i).pc ≡ reading j
    → Inv n s
    → Inv n (goto s i (cancelling 0))
end_of_file-Inv n i j s l e (calm h) = spreading i 0 (start_Spreading n i s l (ap has_mutex e) h)
end_of_file-Inv n i j s l e (spreading d x h) =
    let same = holder_is n d x i s h l (ap has_mutex e) in
    absurd (cc (e, ap (λ x. (s.thread x).pc) same, h.at_j))
end_of_file-Inv n i j s l e (ending h) =
    ending (Ending-goto n s i (cancelling 0) (ap is_finished e) h)

pub after_read-Inv :
    (k n : ℕ) (hw : Text → Bool) (i j count : ℕ) (s : Shared)
    → i < n
    → (s.thread i).pc ≡ reading j
    → Inv n s
    → Inv n (goto s i (after_read k n hw j count))
after_read-Inv k n hw i j count s l e h = elim (Bool-cases (ltb (suc j) k)) [
  | inl b ↦ rw b (read-Inv n i j s (reading (suc j)) l e refl refl h)
  | inr b ↦ elim (Bool-cases (ltb 0 count)) [
    | inl d ↦ rw (b, d) (read-Inv n i j s unlocking l e refl refl h)
    | inr d ↦ rw (b, d) (end_of_file-Inv n i j s l e h)
  ]
]

-- The thread that cancels the others goes on to the next one.
pub cancel-Spreading :
    (n i j : ℕ) (s : Shared)
    → j < n
    → Spreading n i j s
    → Spreading n i (suc j) (goto (if j == i then s else pthread_cancel j s) i (cancelling (suc j)))
cancel-Spreading n i j s b h = record {
  present = h.present;
  at_j = ground arith;
  not_pending = ground (arith, h.not_pending);
  has_it = ground (arith, h.has_it);
  others_not = λ x l ne. ground (arith, h.others_not x l ne);
  below = λ x l m ne. ground (arith, h.below x l);
}

pub finish-Ending :
    (n i j : ℕ) (s : Shared)
    → n ≤ j
    → Spreading n i j s
    → Ending n (goto (pthread_mutex_unlock s) i finished)
finish-Ending n i j s b h x l = ground (arith, h.below x l)

pub cancel-Ending :
    (n i j : ℕ) (s : Shared) → Ending n s → Ending n (if j == i then s else pthread_cancel j s)
cancel-Ending n i j s h x l = ground (arith, h x l)
