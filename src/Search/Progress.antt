-- ===== src/Search/Progress.antt =====
-- The threads never all wait before all have ended.
use sysopy_all.Base.{
  ℕ, suc, ◌≤◌, ◌<◌, ◌≡◌, ◌≢◌, refl, sym, subst, inl, inr, Bool, true, ltb, lt→ltb, ◌==◌,
  if◌then◌else◌, length, take, Text, arith, part_of-sum_of, Bool-cases,
}
use sysopy_all.Search.{
  Pc, locking, reading, cancelling, unlocking, searching, finished, cancelled, Shared, goes, goto,
  read_into, pthread_cancel, pthread_mutex_unlock, after_read, examine, take_effect, start_routine,
  Event, run, act, step,
}
use sysopy_all.Search.Invariant.{has_mutex, holds, Inv, calm, spreading, ending, Leads, Alike}
use sysopy_all.Search.Steps.{zero_or_suc, read_into-Alike, examine-Alike}
use sysopy_all.Search.Reached.{acting, Reach, started, moved, Reach-Inv}

module _ (k n : ℕ) (hw : Text → Bool) where
  -- A thread that reads has a record left to read.
  abbrev InRange : Pc → Type 0
  InRange (reading j) = j < k
  InRange _ = Unit

  abbrev AllInRange : Shared → Type 0
  AllInRange s = (x : ℕ) → InRange (s.thread x).pc

  AllInRange-goto :
      (s : Shared) (i : ℕ) (p : Pc) → InRange p → AllInRange s → AllInRange (goto s i p)
  AllInRange-goto s i p r h x = elim (Bool-cases (i == x)) [ inl e ↦ rw e r | inr e ↦ rw e (h x) ]

  AllInRange-Alike : (s t : Shared) → Alike s t → AllInRange s → AllInRange t
  AllInRange-Alike s t a h x = rw (a.same_pc x) (h x)

  after_read-InRange : (j count : ℕ) → InRange (after_read k n hw j count)
  after_read-InRange j count = elim (Bool-cases (ltb (suc j) k)) [
    | inl b ↦ rw b (ground arith)
    | inr b ↦ elim (Bool-cases (ltb 0 count)) [ inl d ↦ rw (b, d) tt | inr d ↦ rw (b, d) tt ]
  ]

  pthread_cancel-pc :
      (j : ℕ) (s : Shared) (x : ℕ) → ((pthread_cancel j s).thread x).pc ≡ (s.thread x).pc
  pthread_cancel-pc j s x = ground arith

  cancel-AllInRange :
      (i j : ℕ) (s : Shared) → AllInRange s → AllInRange (if j == i then s else pthread_cancel j s)
  cancel-AllInRange i j s h x = elim (Bool-cases (j == i)) [
    | inl e ↦ rw e (h x)
    | inr e ↦ rw (e, pthread_cancel-pc j s x) (h x)
  ]

  run-AllInRange :
      (p : Pc) (i : ℕ) (s : Shared)
      → 1 ≤ k
      → AllInRange s
      → Leads AllInRange (start_routine k n hw p i s)
  unfolding start_routine
  run-AllInRange locking i s l h = elim (zero_or_suc s.mutex) [
    | inl z ↦ rw z tt
    | inr (m, q) ↦ rw q (AllInRange-goto (record s { mutex = m }) i (reading 0) l h)
  ]
  run-AllInRange (reading j) i s l h =
      let t = read_into i j s in
      let count = length (take 1024 s.file) in
      elim (Bool-cases (ltb j k)) [
        | inl b ↦ rw b (
            AllInRange-goto t i (after_read k n hw j count) (after_read-InRange j count)
              (AllInRange-Alike s t (read_into-Alike i j s) h))
        | inr b ↦ rw b tt
      ]
  run-AllInRange (cancelling j) i s l h = elim (Bool-cases (ltb j n)) [
    | inl b ↦ rw b (
        AllInRange-goto (if j == i then s else pthread_cancel j s) i (cancelling (suc j)) tt
          (cancel-AllInRange i j s h))
    | inr b ↦ rw b (AllInRange-goto (pthread_mutex_unlock s) i finished tt h)
  ]
  run-AllInRange unlocking i s l h = AllInRange-goto (pthread_mutex_unlock s) i (searching 0) tt h
  run-AllInRange (searching j) i s l h = elim (Bool-cases (ltb j k)) [
    | inl b ↦ rw b (
        AllInRange-goto (examine k n hw i j s) i (searching (suc j)) tt
          (AllInRange-Alike s (examine k n hw i j s) (examine-Alike hw k n i j s) h))
    | inr b ↦ rw b (AllInRange-goto s i locking tt h)
  ]
  run-AllInRange finished i s l h = tt
  run-AllInRange cancelled i s l h = tt

  take_effect-AllInRange :
      (p : Pc) (i : ℕ) (s : Shared) → AllInRange s → Leads AllInRange (take_effect k n hw p i s)
  take_effect-AllInRange locking i s h = AllInRange-goto s i cancelled tt h
  take_effect-AllInRange (reading j) i s h = AllInRange-goto s i cancelled tt h
  take_effect-AllInRange (cancelling j) i s h = AllInRange-goto s i cancelled tt h
  take_effect-AllInRange unlocking i s h = AllInRange-goto s i cancelled tt h
  take_effect-AllInRange (searching j) i s h = AllInRange-goto s i cancelled tt h
  take_effect-AllInRange finished i s h = tt
  take_effect-AllInRange cancelled i s h = tt

  Reach-AllInRange :
      (file : Text) (m : ℕ) (s : Shared) → 1 ≤ k → Reach k n hw file m s → AllInRange s
  unfolding step
  Reach-AllInRange file m s l started = λ x. tt
  Reach-AllInRange file m s l (moved {s = u} (run i) p a q) =
      subst (Leads AllInRange) q
        (run-AllInRange (u.thread i).pc i u l (Reach-AllInRange file _ u l p))
  Reach-AllInRange file m s l (moved {s = u} (act i) p a q) =
      subst (Leads AllInRange) q (elim (Bool-cases (u.thread i).pending) [
        | inl e ↦ rw e (take_effect-AllInRange (u.thread i).pc i u (Reach-AllInRange file _ u l p))
        | inr e ↦ rw e tt
      ])

  -- What a thread needs for its next step.
  abbrev Enabled : Pc → ℕ → Type 0
  Enabled locking m = 1 ≤ m
  Enabled (reading j) m = j < k
  Enabled finished m = ⊥
  Enabled cancelled m = ⊥
  Enabled _ m = Unit

  abbrev Goes : Event → Shared → Type 0
  Goes e s = (t : Shared) × (step k n hw e s ≡ goes t)

  abbrev SomeGoes : Shared → Type 0
  SomeGoes s = (e : Event) × (acting e < n) × Goes e s

  run-goes :
      (p : Pc) (i : ℕ) (s : Shared)
      → Enabled p s.mutex
      → (t : Shared) × (start_routine k n hw p i s ≡ goes t)
  unfolding start_routine
  run-goes locking i s h = elim (zero_or_suc s.mutex) [
    | inl z ↦ absurd (omega arith)
    | inr (m, q) ↦ rw q (goto (record s { mutex = m }) i (reading 0), refl)
  ]
  run-goes (reading j) i s h = rw (lt→ltb j k h) (_, refl)
  run-goes (cancelling j) i s h = elim (Bool-cases (ltb j n)) [
    | inl b ↦ rw b (_, refl)
    | inr b ↦ rw b (_, refl)
  ]
  run-goes unlocking i s h = (_, refl)
  run-goes (searching j) i s h = elim (Bool-cases (ltb j k)) [
    | inl b ↦ rw b (_, refl)
    | inr b ↦ rw b (_, refl)
  ]
  run-goes finished i s h = absurd h
  run-goes cancelled i s h = absurd h

  step-run : (i : ℕ) (s : Shared) → Enabled (s.thread i).pc s.mutex → Goes (run i) s
  unfolding step
  step-run i s h = run-goes (s.thread i).pc i s h

  take_effect-goes :
      (p : Pc) (i : ℕ) (s : Shared)
      → p ≢ finished
      → p ≢ cancelled
      → (t : Shared) × (take_effect k n hw p i s ≡ goes t)
  take_effect-goes locking i s f c = (_, refl)
  take_effect-goes (reading j) i s f c = (_, refl)
  take_effect-goes (cancelling j) i s f c = (_, refl)
  take_effect-goes unlocking i s f c = (_, refl)
  take_effect-goes (searching j) i s f c = (_, refl)
  take_effect-goes finished i s f c = absurd (f refl)
  take_effect-goes cancelled i s f c = absurd (c refl)

  step-act :
      (i : ℕ) (s : Shared)
      → (s.thread i).pending ≡ true
      → (s.thread i).pc ≢ finished
      → (s.thread i).pc ≢ cancelled
      → Goes (act i) s
  unfolding step
  step-act i s q f c = rw q (take_effect-goes (s.thread i).pc i s f c)

  free-Enabled : (p : Pc) (m : ℕ) → p ≢ finished → p ≢ cancelled → InRange p → 1 ≤ m → Enabled p m
  free-Enabled locking m f c r h = h
  free-Enabled (reading j) m f c r h = r
  free-Enabled (cancelling j) m f c r h = tt
  free-Enabled unlocking m f c r h = tt
  free-Enabled (searching j) m f c r h = tt
  free-Enabled finished m f c r h = absurd (f refl)
  free-Enabled cancelled m f c r h = absurd (c refl)

  holder-Enabled : (p : Pc) (m : ℕ) → InRange p → 1 ≤ has_mutex p → Enabled p m
  holder-Enabled locking m r h = absurd (omega arith)
  holder-Enabled (reading j) m r h = r
  holder-Enabled (cancelling j) m r h = tt
  holder-Enabled unlocking m r h = tt
  holder-Enabled (searching j) m r h = tt
  holder-Enabled finished m r h = absurd (omega arith)
  holder-Enabled cancelled m r h = absurd (omega arith)

  some_goes :
      (s : Shared) (i : ℕ)
      → i < n
      → (s.thread i).pc ≢ finished
      → (s.thread i).pc ≢ cancelled
      → AllInRange s
      → Inv n s
      → SomeGoes s
  some_goes s i l f c r (calm h) = elim (zero_or_suc s.mutex) [
    | inl z ↦
        let (x, lt, m) = part_of-sum_of holds n s.thread (omega (arith, h.one_holder)) in
        (run x, lt, step-run x s (holder-Enabled (s.thread x).pc s.mutex (r x) m))
    | inr (m, q) ↦
        (run i, l, step-run i s (free-Enabled (s.thread i).pc s.mutex f c (r i) (omega arith)))
  ]
  some_goes s i l f c r (spreading d j h) =
      (run d, h.present, step-run d s (subst (λ p. Enabled p s.mutex) (sym h.at_j) tt))
  some_goes s i l f c r (ending h) = (act i, l, step-act i s (ground (arith, h i l)) f c)

  -- In a reachable state, with at least one record for each turn, while some thread has neither returned
  -- nor been cancelled, a step is possible: a thread's next step, or the effect of a cancellation.
  pub never_stuck :
      (file : Text) (m : ℕ) (s : Shared)
      → 1 ≤ k
      → Reach k n hw file m s
      → (i : ℕ) → i < n
      → (s.thread i).pc ≢ finished
      → (s.thread i).pc ≢ cancelled
      → SomeGoes s
  never_stuck file m s h p i l f c =
      some_goes s i l f c (Reach-AllInRange file m s h p) (Reach-Inv k n hw file m s p)
