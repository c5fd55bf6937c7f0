-- ===== src/Search/Steps.antt =====
-- Every step keeps the invariant.
use sysopy_all.Base.{
  ℕ, zero, suc, ◌<◌, ◌≡◌, refl, sym, ap, ◌⊎◌, inl, inr, Bool, false, Text, arith, le-sum_of,
  pair-le-sum_of, Bool-cases, ℕ_discrete,
}
use sysopy_all.Search.{Pc, cancelling, Shared, goto, read_into, examine}
use sysopy_all.Search.Invariant.{
  has_mutex, holds, is_finished, is_cancelling, Calm, Spreading, Inv, calm, spreading, ending,
  Alike, Ending-Alike, Calm-Alike, Spreading-Alike, Ending-goto, Calm-goto, Spreading-goto,
}

pub zero_or_suc : (m : ℕ) → (m ≡ 0) ⊎ ((k : ℕ) × (m ≡ suc k))
zero_or_suc zero = inl refl
zero_or_suc (suc k) = inr (k, refl)

pub Inv-Alike : (n : ℕ) (s t : Shared) → Alike s t → Inv n s → Inv n t
Inv-Alike n s t a (calm h) = calm (Calm-Alike n s t a h)
Inv-Alike n s t a (spreading c j h) = spreading c j (Spreading-Alike n s t a c j h)
Inv-Alike n s t a (ending h) = ending (Ending-Alike n s t a h)

pub read_into-Alike : (i j : ℕ) (s : Shared) → Alike s (read_into i j s)
read_into-Alike i j s = record {
  same_pc = λ x. ground arith;
  same_pending = λ x. ground arith;
  same_mutex = refl;
}

pub examine-Alike : (hw : Text → Bool) (k n i j : ℕ) (s : Shared) → Alike s (examine k n hw i j s)
examine-Alike hw k n i j s = elim (Bool-cases (hw ((s.thread i).records_buffer j))) [
  | inl e ↦ rw e (record { same_pc = λ x. refl; same_pending = λ x. refl; same_mutex = refl })
  | inr e ↦ rw e (record { same_pc = λ x. refl; same_pending = λ x. refl; same_mutex = refl })
]

-- While cancellations spread, only the thread that sends them has the mutex.
pub holder_is :
    (n c j i : ℕ) (s : Shared) → Spreading n c j s → i < n → has_mutex (s.thread i).pc ≡ 1 → i ≡ c
holder_is n c j i s h l m = elim (ℕ_discrete i c) [
  | yes e ↦ e
  | no ne ↦ absurd (omega (arith, m, h.others_not i l ne))
]

-- A step of a thread without the mutex to another such place.
pub Inv-goto :
    (n i : ℕ) (s : Shared) (p : Pc)
    → i < n
    → has_mutex (s.thread i).pc ≡ 0
    → is_finished (s.thread i).pc ≡ false
    → has_mutex p ≡ 0
    → is_cancelling p ≡ false
    → Inv n s
    → Inv n (goto s i p)
Inv-goto n i s p l m f m' c (calm h) = calm (Calm-goto n s i p s.mutex l c (omega (arith, m, m')) h)
Inv-goto n i s p l m f m' c (spreading d j h) = spreading d j (
    Spreading-goto n s i p d j
      (λ e. omega (arith, m, ap (λ x. has_mutex (s.thread x).pc) e, ap has_mutex h.at_j)) f m' h)
Inv-goto n i s p l m f m' c (ending h) = ending (Ending-goto n s i p f h)

pub start_Spreading :
    (n i : ℕ) (s : Shared)
    → i < n
    → has_mutex (s.thread i).pc ≡ 1
    → Calm n s
    → Spreading n i 0 (goto s i (cancelling 0))
start_Spreading n i s l m h = record {
  present = l;
  at_j = ground arith;
  not_pending = ground (arith, h.none_pending i l);
  has_it = omega (arith, h.one_holder, m, le-sum_of holds n s.thread i l);
  others_not = λ x k ne.
      ground (arith, h.one_holder, m, pair-le-sum_of holds n s.thread i x l k (λ e. ne (sym e)));
  below = λ x k b ne. absurd (omega arith);
}
