-- ===== src/Base/Int.antt =====
-- C `int` values: signed integers over the native numbers.
use Prim.Native.Nat.{ℕ, zero, suc, ◌+◌, ◌-◌, ◌*◌, ◌/◌, ◌≤◌}
use mathlib.Core.Bool.{Bool, true, false}
use mathlib.Core.Path.{◌≡◌, refl}
use native.Mathlib.Omega.{arith}
use sysopy_all.Base.Tests.{◌==◌, if◌then◌else◌, leb}

-- `negsuc n` is -(n + 1).
pub data ℤ : Type 0 where
  pos : ℕ → ℤ
  negsuc : ℕ → ℤ

infix 50 ◌==ℤ◌
abbrev pub ◌==ℤ◌ : ℤ → ℤ → Bool
pos a ==ℤ pos b = a == b
negsuc a ==ℤ negsuc b = a == b
_ ==ℤ _ = false

abbrev pub minus_one : ℤ
minus_one = negsuc 0

abbrev pub magnitude : ℤ → ℕ
magnitude (pos n) = n
magnitude (negsuc n) = suc n

-- The number with a magnitude, negative if the test holds.
abbrev pub signed : Bool → ℕ → ℤ
signed false n = pos n
signed true zero = pos 0
signed true (suc n) = negsuc n

abbrev pub is_negative : ℤ → Bool
is_negative (pos n) = false
is_negative (negsuc n) = true

abbrev differ : Bool → Bool → Bool
differ true true = false
differ false false = false
differ _ _ = true

abbrev pub opposite : ℤ → ℤ
opposite (pos zero) = pos 0
opposite (pos (suc n)) = negsuc n
opposite (negsuc n) = pos (suc n)

-- a - b, as an integer.
abbrev pub sub_ℕ : ℕ → ℕ → ℤ
sub_ℕ a b = if leb b a then pos (a - b) else signed true (b - a)

infixl 65 ◌+ℤ◌ ◌-ℤ◌
infixl 70 ◌*ℤ◌
unfoldable pub ◌+ℤ◌ : ℤ → ℤ → ℤ
pos a +ℤ pos b = pos (a + b)
pos a +ℤ negsuc b = sub_ℕ a (suc b)
negsuc a +ℤ pos b = sub_ℕ b (suc a)
negsuc a +ℤ negsuc b = negsuc (suc (a + b))

unfoldable pub ◌-ℤ◌ : ℤ → ℤ → ℤ
unfolding ◌+ℤ◌
a -ℤ b = a +ℤ opposite b

unfoldable pub ◌*ℤ◌ : ℤ → ℤ → ℤ
a *ℤ b = signed (differ (is_negative a) (is_negative b)) (magnitude a * magnitude b)

-- Division as in C, toward zero; the divisor is not 0.
unfoldable pub div : ℤ → ℤ → ℤ
div a b = signed (differ (is_negative a) (is_negative b)) (magnitude a / magnitude b)

pub magnitude-signed : (b : Bool) (n : ℕ) → magnitude (signed b n) ≡ n
magnitude-signed false n = refl
magnitude-signed true zero = refl
magnitude-signed true (suc n) = refl

magnitude-opposite : (a : ℤ) → magnitude (opposite a) ≡ magnitude a
magnitude-opposite (pos zero) = refl
magnitude-opposite (pos (suc n)) = refl
magnitude-opposite (negsuc n) = refl

magnitude-sub : (a b : ℕ) → magnitude (sub_ℕ a b) ≤ a + b
magnitude-sub a b = ground (arith, magnitude-signed true (b - a))

pub magnitude-add : (a b : ℤ) → magnitude (a +ℤ b) ≤ magnitude a + magnitude b
unfolding ◌+ℤ◌
magnitude-add (pos a) (pos b) = omega arith
magnitude-add (pos a) (negsuc b) = magnitude-sub a (suc b)
magnitude-add (negsuc a) (pos b) = omega (arith, magnitude-sub b (suc a))
magnitude-add (negsuc a) (negsuc b) = omega arith

pub magnitude-sub_ℤ : (a b : ℤ) → magnitude (a -ℤ b) ≤ magnitude a + magnitude b
unfolding ◌-ℤ◌
magnitude-sub_ℤ a b = omega (arith, magnitude-add a (opposite b), magnitude-opposite b)

pub magnitude-mul : (a b : ℤ) → magnitude (a *ℤ b) ≡ magnitude a * magnitude b
unfolding ◌*ℤ◌
magnitude-mul a b = magnitude-signed _ _

pub magnitude-div : (a b : ℤ) → magnitude (div a b) ≡ magnitude a / magnitude b
unfolding div
magnitude-div a b = magnitude-signed _ _
