-- ===== src/Base/Family.antt =====
-- Families indexed by thread: a write at one index, and the sum of a weight over the first `n`.
use Prim.Native.Nat.{ℕ, zero, suc, ◌+◌, ◌*◌, ◌≤◌, ◌<◌}
use mathlib.Core.Path.{◌≡◌, refl}
use mathlib.Core.Logic.{◌≢◌}
use native.Mathlib.Decide.{dec_lt}
use native.Mathlib.Nat.{mul-suc}
use native.Mathlib.Omega.{arith}
use sysopy_all.Base.Tests.{◌==◌, if◌then◌else◌}

abbrev pub put {ℓ} : {A : Type ℓ} → (ℕ → A) → ℕ → A → ℕ → A
put f i a j = if i == j then a else f j

module _ {ℓ} {A : Type ℓ} (w : A → ℕ) where
  pub sum_of : ℕ → (ℕ → A) → ℕ
  sum_of zero f = 0
  sum_of (suc n) f = w (f n) + sum_of n f

  sum_of-put_above : (n : ℕ) (f : ℕ → A) (i : ℕ) (a : A) → n ≤ i → sum_of n (put f i a) ≡ sum_of n f
  unfolding sum_of
  sum_of-put_above zero f i a h = refl
  sum_of-put_above (suc n) f i a h = ground (arith, sum_of-put_above n f i a)

  -- What the sum loses and gains by a write.
  pub sum_of-put :
      (n : ℕ) (f : ℕ → A) (i : ℕ) (a : A)
      → i < n
      → sum_of n (put f i a) + w (f i) ≡ sum_of n f + w a
  unfolding sum_of
  sum_of-put zero f i a h = absurd (omega arith)
  sum_of-put (suc n) f i a h = elim (dec_lt i n) [
    | yes p ↦ ground (arith, sum_of-put n f i a p)
    | no p ↦ ground (arith, sum_of-put_above n f i a)
  ]

  pub le-sum_of : (n : ℕ) (f : ℕ → A) (i : ℕ) → i < n → w (f i) ≤ sum_of n f
  unfolding sum_of
  le-sum_of zero f i h = absurd (omega arith)
  le-sum_of (suc n) f i h = elim (dec_lt i n) [
    | yes p ↦ ground (arith, le-sum_of n f i p)
    | no p ↦ ground arith
  ]

  -- Two threads of weight 1 make a sum of at least 2.
  pub pair-le-sum_of :
      (n : ℕ) (f : ℕ → A) (i j : ℕ) → i < n → j < n → i ≢ j → w (f i) + w (f j) ≤ sum_of n f
  unfolding sum_of
  pair-le-sum_of zero f i j h k ne = absurd (omega arith)
  pair-le-sum_of (suc n) f i j h k ne = elim (dec_lt i n) [
    | yes p ↦ elim (dec_lt j n) [
      | yes q ↦ ground (arith, pair-le-sum_of n f i j p q ne)
      | no q ↦ ground (arith, le-sum_of n f i p)
    ]
    | no p ↦ ground (arith, le-sum_of n f j)
  ]

  pub sum_of-zero : (n : ℕ) (a : A) → w a ≡ 0 → sum_of n (λ _. a) ≡ 0
  unfolding sum_of
  sum_of-zero zero a h = refl
  sum_of-zero (suc n) a h = omega (arith, h, sum_of-zero n a h)

pub sum_of-same {ℓ} : {A : Type ℓ} (w : A → ℕ) (n : ℕ) (a : A) → sum_of w n (λ _. a) ≡ w a * n
unfolding sum_of
sum_of-same w zero a = omega arith
sum_of-same w (suc n) a = omega (arith, sum_of-same w n a, mul-suc (w a) n)

pub sum_of-alike {ℓ} :
    {A : Type ℓ} (w : A → ℕ) (n : ℕ) (f g : ℕ → A)
    → ((i : ℕ) → w (f i) ≡ w (g i))
    → sum_of w n f ≡ sum_of w n g
unfolding sum_of
sum_of-alike w zero f g h = refl
sum_of-alike w (suc n) f g h = omega (arith, h n, sum_of-alike w n f g h)

pub sum_of-each_zero {ℓ} :
    {A : Type ℓ} (w : A → ℕ) (n : ℕ) (f : ℕ → A) → ((i : ℕ) → w (f i) ≡ 0) → sum_of w n f ≡ 0
unfolding sum_of
sum_of-each_zero w zero f h = refl
sum_of-each_zero w (suc n) f h = omega (arith, h n, sum_of-each_zero w n f h)

pub sum_of_mono {ℓ} :
    {A : Type ℓ} (v w : A → ℕ)
    → ((a : A) → v a ≤ w a)
    → (n : ℕ) (f : ℕ → A) → sum_of v n f ≤ sum_of w n f
unfolding sum_of
sum_of_mono v w h zero f = omega arith
sum_of_mono v w h (suc n) f = omega (arith, h (f n), sum_of_mono v w h n f)

-- A sum of 1 or more has a part of 1 or more.
pub part_of-sum_of {ℓ} :
    {A : Type ℓ} (w : A → ℕ) (n : ℕ) (f : ℕ → A)
    → 1 ≤ sum_of w n f
    → (i : ℕ) × (i < n) × (1 ≤ w (f i))
unfolding sum_of
part_of-sum_of w zero f h = absurd (omega arith)
part_of-sum_of w (suc n) f h = elim (dec_lt 0 (w (f n))) [
  | yes p ↦ (n, omega arith, omega arith)
  | no p ↦ let (i, lt, k) = part_of-sum_of w n f (omega arith) in (i, omega arith, k)
]
