-- ===== src/Search/Reached.antt =====
-- What holds in every state that the threads reach.
use sysopy_all.Base.{
  ℕ, suc, ◌<◌, ◌≡◌, refl, sym, subst, ap, ◌∙◌, inl, inr, Bool, true, false, ltb, ◌==◌,
  if◌then◌else◌, length, take, Text, arith, Bool-cases, sum_of-zero,
}
use sysopy_all.Search.{
  Pc, locking, reading, cancelling, unlocking, searching, finished, cancelled, Shared, goes, goto,
  read_into, pthread_cancel, pthread_mutex_unlock, examine, take_effect, fresh_thread, started_with,
  start_routine, Event, run, act, step,
}
use sysopy_all.Search.Invariant.{
  has_mutex, holds, is_finished, is_cancelling, Spreading, Inv, calm, spreading, ending, Leads,
  Ending-goto, Spreading-goto,
}
use sysopy_all.Search.Steps.{
  zero_or_suc, Inv-Alike, read_into-Alike, examine-Alike, holder_is, Inv-goto,
}
use sysopy_all.Search.Keeps.{
  lock-Inv, unlock-Inv, after_read-Inv, cancel-Spreading, finish-Ending, cancel-Ending,
}

-- The thread of an event.
abbrev pub acting : Event → ℕ
acting (run i) = i
acting (act i) = i

abbrev place : Pc → ℕ
place (cancelling j) = j
place _ = 0

module _ (k n : ℕ) (hw : Text → Bool) where
  cancelling-Inv :
      (i j : ℕ) (s : Shared)
      → i < n
      → (s.thread i).pc ≡ cancelling j
      → Inv n s
      → Leads (Inv n) (start_routine k n hw (cancelling j) i s)
  unfolding start_routine
  cancelling-Inv i j s l e (calm h) = absurd (cc (h.none_cancelling i l, ap is_cancelling e))
  cancelling-Inv i j s l e (spreading c d h) =
      let same = holder_is n c d i s h l (ap has_mutex e) in
      let at_d : cancelling j ≡ cancelling d = sym e ∙ ap (λ x. (s.thread x).pc) same ∙ h.at_j in
      let h' : Spreading n i j s =
        subst (λ x. Spreading n x j s) (sym same)
          (subst (λ y. Spreading n c y s) (sym (ap place at_d)) h) in
      elim (Bool-cases (ltb j n)) [
        | inl b ↦ rw b (spreading i (suc j) (cancel-Spreading n i j s (ground arith) h'))
        | inr b ↦ rw b (ending (finish-Ending n i j s (ground arith) h'))
      ]
  cancelling-Inv i j s l e (ending h) = elim (Bool-cases (ltb j n)) [
    | inl b ↦ rw b (
        ending (
          Ending-goto n (if j == i then s else pthread_cancel j s) i (cancelling (suc j))
            (ground arith) (cancel-Ending n i j s h)))
    | inr b ↦ rw b (ending (Ending-goto n (pthread_mutex_unlock s) i finished (ap is_finished e) h))
  ]

  run-Inv :
      (p : Pc) (i : ℕ) (s : Shared)
      → i < n
      → (s.thread i).pc ≡ p
      → Inv n s
      → Leads (Inv n) (start_routine k n hw p i s)
  unfolding start_routine
  run-Inv locking i s l e h = elim (zero_or_suc s.mutex) [
    | inl z ↦ rw z tt
    | inr (m, q) ↦ rw q (lock-Inv n i m s l e q h)
  ]
  run-Inv (reading j) i s l e h =
      let a = read_into-Alike i j s in
      elim (Bool-cases (ltb j k)) [
        | inl b ↦ rw b (
            after_read-Inv k n hw i j (length (take 1024 s.file)) (read_into i j s) l
              (a.same_pc i ∙ e) (Inv-Alike n s (read_into i j s) a h))
        | inr b ↦ rw b tt
      ]
  run-Inv (cancelling j) i s l e h = cancelling-Inv i j s l e h
  run-Inv unlocking i s l e h = unlock-Inv n i s l e h
  run-Inv (searching j) i s l e h =
      let a = examine-Alike hw k n i j s in
      let pc = a.same_pc i ∙ e in
      elim (Bool-cases (ltb j k)) [
        | inl b ↦ rw b (
            Inv-goto n i (examine k n hw i j s) (searching (suc j)) l (ap has_mutex pc)
              (ap is_finished pc) refl refl (Inv-Alike n s (examine k n hw i j s) a h))
        | inr b ↦ rw b (Inv-goto n i s locking l (ap has_mutex e) (ap is_finished e) refl refl h)
      ]
  run-Inv finished i s l e h = tt
  run-Inv cancelled i s l e h = tt

  -- The cancellation of a thread for which it was requested.
  act-Inv :
      (i : ℕ) (s : Shared)
      → i < n
      → (s.thread i).pending ≡ true
      → is_finished (s.thread i).pc ≡ false
      → Inv n s
      → Inv n (goto s i cancelled)
  act-Inv i s l q f (calm h) = absurd (cc (h.none_pending i l, q))
  act-Inv i s l q f (spreading c j h) = spreading c j (
      Spreading-goto n s i cancelled c j
        (λ e. cc (q, ap (λ x. (s.thread x).pending) e, h.not_pending)) f refl h)
  act-Inv i s l q f (ending h) = ending (Ending-goto n s i cancelled f h)

  step-Inv : (e : Event) (s : Shared) → acting e < n → Inv n s → Leads (Inv n) (step k n hw e s)
  unfolding step
  step-Inv (run i) s l h = run-Inv (s.thread i).pc i s l refl h
  step-Inv (act i) s l h = elim (Bool-cases (s.thread i).pending) [
    | inl q ↦ rw q (effect (s.thread i).pc refl q)
    | inr q ↦ rw q tt
  ]
    where
      effect :
          (p : Pc)
          → (s.thread i).pc ≡ p
          → (s.thread i).pending ≡ true
          → Leads (Inv n) (take_effect k n hw p i s)
      effect locking e q = act-Inv i s l q (ap is_finished e) h
      effect (reading j) e q = act-Inv i s l q (ap is_finished e) h
      effect (cancelling j) e q = act-Inv i s l q (ap is_finished e) h
      effect unlocking e q = act-Inv i s l q (ap is_finished e) h
      effect (searching j) e q = act-Inv i s l q (ap is_finished e) h
      effect finished e q = tt
      effect cancelled e q = tt

  -- The states that the threads reach, and in how many steps.
  pub data Reach (file : Text) : ℕ → Shared → Type 0 where
    started : Reach file 0 (started_with file)
    moved :
        {m : ℕ} {s t : Shared} (e : Event)
        → Reach file m s
        → acting e < n
        → step k n hw e s ≡ goes t
        → Reach file (suc m) t

  started-Inv : (file : Text) → Inv n (started_with file)
  started-Inv file = calm (record {
    none_pending = λ x l. refl;
    none_cancelling = λ x l. refl;
    one_holder = omega (arith, sum_of-zero holds n fresh_thread refl);
  })

  pub Reach-Inv : (file : Text) (m : ℕ) (s : Shared) → Reach file m s → Inv n s
  Reach-Inv file m s started = started-Inv file
  Reach-Inv file m s (moved {s = u} e p l q) =
      subst (Leads (Inv n)) q (step-Inv e u l (Reach-Inv file _ u p))
