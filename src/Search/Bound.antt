-- ===== src/Search/Bound.antt =====
-- The search ends after boundedly many steps.
use native.Mathlib.Nat.{mul-suc}
use sysopy_all.Base.{
  ℕ, zero, suc, ◌+◌, ◌-◌, ◌*◌, ◌≤◌, ◌<◌, ◌≡◌, refl, subst, ap, inl, inr, Bool, [], ◌∷◌, ltb, ◌==◌,
  if◌then◌else◌, length, take, drop, Text, arith, sum_of, sum_of-put, sum_of-alike, sum_of-same,
  Bool-cases,
}
use sysopy_all.Search.{
  Pc, locking, reading, cancelling, unlocking, searching, finished, cancelled, Thread, Shared, goto,
  read_into, pthread_cancel, pthread_mutex_unlock, after_read, examine, take_effect, fresh_thread,
  started_with, start_routine, Event, run, act, step,
}
use sysopy_all.Search.Invariant.{Leads}
use sysopy_all.Search.Steps.{zero_or_suc, read_into-Alike, examine-Alike}
use sysopy_all.Search.Reached.{acting, Reach, started, moved}

module _ (k n : ℕ) (hw : Text → Bool) where
  -- How many steps a thread makes at most before it reads on.
  abbrev effort : Pc → ℕ
  effort locking = k + n + 5
  effort (reading j) = k - j + (n + 3)
  effort (cancelling j) = n - j + 2
  effort unlocking = k + n + 5 + (k + 2)
  effort (searching j) = k + n + 5 + (k - j + 1)
  effort finished = 0
  effort cancelled = 0

  abbrev weight : Thread → ℕ
  weight t = effort t.pc

  -- Each byte that is left pays for a turn.
  abbrev budget : Text → ℕ
  budget [] = 0
  budget (c ∷ cs) = 2 * k + 4 + budget cs

  abbrev measure : Shared → ℕ
  measure s = budget s.file + sum_of weight n s.thread

  budget-drop : (m : ℕ) (file : Text) → budget (drop m file) ≤ budget file
  budget-drop zero file = omega arith
  budget-drop (suc m) [] = omega arith
  budget-drop (suc m) (c ∷ cs) = omega (arith, budget-drop m cs)

  budget-read :
      (m : ℕ) (file : Text)
      → 0 < length (take m file)
      → budget (drop m file) + (2 * k + 4) ≤ budget file
  budget-read zero file h = absurd (omega arith)
  budget-read (suc m) [] h = absurd (omega arith)
  budget-read (suc m) (c ∷ cs) h = omega (arith, budget-drop m cs)

  goto-measure :
      (s t : Shared) (i : ℕ) (p : Pc)
      → i < n
      → ((x : ℕ) → (t.thread x).pc ≡ (s.thread x).pc)
      → budget t.file + effort p < budget s.file + weight (s.thread i)
      → measure (goto t i p) < measure s
  goto-measure s t i p l a h = omega (
    arith,
    h,
    sum_of-put weight n t.thread i (record (t.thread i) { pc = p }) l,
    sum_of-alike weight n t.thread s.thread (λ x. ap effort (a x)),
    ap effort (a i),
  )

  read-effort :
      (j : ℕ) (file : Text)
      → j < k
      → budget (drop 1024 file) + effort (after_read k n hw j (length (take 1024 file)))
        < budget file + effort (reading j)
  read-effort j file l = elim (Bool-cases (ltb (suc j) k)) [
    | inl b ↦ rw b (ground (arith, budget-drop 1024 file))
    | inr b ↦ elim (Bool-cases (ltb 0 (length (take 1024 file)))) [
      | inl d ↦ rw (b, d) (ground (arith, budget-read 1024 file))
      | inr d ↦ rw (b, d) (ground (arith, budget-drop 1024 file))
    ]
  ]

  cancel-file : (i j : ℕ) (s : Shared) → (if j == i then s else pthread_cancel j s).file ≡ s.file
  cancel-file i j s = elim (Bool-cases (j == i)) [ inl e ↦ rw e refl | inr e ↦ rw e refl ]

  examine-file : (i j : ℕ) (s : Shared) → (examine k n hw i j s).file ≡ s.file
  examine-file i j s = elim (Bool-cases (hw ((s.thread i).records_buffer j))) [
    | inl e ↦ rw e refl
    | inr e ↦ rw e refl
  ]

  run-measure :
      (p : Pc) (i : ℕ) (s : Shared)
      → i < n
      → (s.thread i).pc ≡ p
      → Leads (λ t. measure t < measure s) (start_routine k n hw p i s)
  unfolding start_routine
  run-measure locking i s l e = elim (zero_or_suc s.mutex) [
    | inl z ↦ rw z tt
    | inr (m, q) ↦ rw q (
        goto-measure s (record s { mutex = m }) i (reading 0) l (λ x. refl)
          (omega (arith, ap effort e)))
  ]
  run-measure (reading j) i s l e =
      let t = read_into i j s in
      elim (Bool-cases (ltb j k)) [
        | inl b ↦ rw b (
            goto-measure s t i (after_read k n hw j (length (take 1024 s.file))) l
              (read_into-Alike i j s).same_pc
              (omega (arith, ap effort e, read-effort j s.file (ground arith))))
        | inr b ↦ rw b tt
      ]
  run-measure (cancelling j) i s l e = elim (Bool-cases (ltb j n)) [
    | inl b ↦ rw b (
        goto-measure s (if j == i then s else pthread_cancel j s) i (cancelling (suc j)) l
          (λ x. ground arith) (ground (arith, ap effort e, ap budget (cancel-file i j s))))
    | inr b ↦ rw b (
        goto-measure s (pthread_mutex_unlock s) i finished l (λ x. refl)
          (omega (arith, ap effort e)))
  ]
  run-measure unlocking i s l e =
      goto-measure s (pthread_mutex_unlock s) i (searching 0) l (λ x. refl)
        (omega (arith, ap effort e))
  run-measure (searching j) i s l e = elim (Bool-cases (ltb j k)) [
    | inl b ↦ rw b (
        goto-measure s (examine k n hw i j s) i (searching (suc j)) l
          (examine-Alike hw k n i j s).same_pc
          (ground (arith, ap effort e, ap budget (examine-file i j s))))
    | inr b ↦ rw b (goto-measure s s i locking l (λ x. refl) (omega (arith, ap effort e)))
  ]
  run-measure finished i s l e = tt
  run-measure cancelled i s l e = tt

  take_effect-measure :
      (p : Pc) (i : ℕ) (s : Shared)
      → i < n
      → (s.thread i).pc ≡ p
      → Leads (λ t. measure t < measure s) (take_effect k n hw p i s)
  take_effect-measure locking i s l e =
      goto-measure s s i cancelled l (λ x. refl) (omega (arith, ap effort e))
  take_effect-measure (reading j) i s l e =
      goto-measure s s i cancelled l (λ x. refl) (omega (arith, ap effort e))
  take_effect-measure (cancelling j) i s l e =
      goto-measure s s i cancelled l (λ x. refl) (omega (arith, ap effort e))
  take_effect-measure unlocking i s l e =
      goto-measure s s i cancelled l (λ x. refl) (omega (arith, ap effort e))
  take_effect-measure (searching j) i s l e =
      goto-measure s s i cancelled l (λ x. refl) (omega (arith, ap effort e))
  take_effect-measure finished i s l e = tt
  take_effect-measure cancelled i s l e = tt

  step-measure :
      (e : Event) (s : Shared) → acting e < n → Leads (λ t. measure t < measure s) (step k n hw e s)
  unfolding step
  step-measure (run i) s l = run-measure (s.thread i).pc i s l refl
  step-measure (act i) s l = elim (Bool-cases (s.thread i).pending) [
    | inl q ↦ rw q (take_effect-measure (s.thread i).pc i s l refl)
    | inr q ↦ rw q tt
  ]

  Reach-measure :
      (file : Text) (m : ℕ) (s : Shared)
      → Reach k n hw file m s
      → m + measure s ≤ measure (started_with file)
  Reach-measure file m s started = omega arith
  Reach-measure file m s (moved {m = c} {s = u} e p l q) =
      let less : measure s < measure u =
        subst (Leads (λ t. measure t < measure u)) q (step-measure e u l) in
      omega (arith, less, Reach-measure file c u p)

  budget-times : (file : Text) → budget file ≡ (2 * k + 4) * length file
  budget-times [] = omega arith
  budget-times (c ∷ cs) = omega (arith, budget-times cs, mul-suc (2 * k + 4) (length cs))

  -- Every run of the threads ends: however the steps and the effects of the cancellations follow each
  -- other, there are at most `2 * k + 4` for each byte of the file and `k + n + 5` for each thread, with
  -- `k` records for each turn and `n` threads.
  pub always_ends :
      (file : Text) (m : ℕ) (s : Shared)
      → Reach k n hw file m s
      → m ≤ (2 * k + 4) * length file + (k + n + 5) * n
  always_ends file m s p =
      omega (arith, Reach-measure file m s p, budget-times file, sum_of-same weight n fresh_thread)
