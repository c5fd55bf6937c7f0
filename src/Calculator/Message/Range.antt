-- ===== src/Calculator/Message/Range.antt =====
-- The numbers of a message are small, so that the client's `int` arithmetic is exact.
use sysopy_all.Base.{
  ℕ, ◌+◌, ◌-◌, ◌*◌, ◌/◌, ◌^◌, ◌≤◌, ◌<◌, ◌≡◌, refl, true, [], ◌∷◌, length, Text, Bool-cases, inl,
  inr, ℤ, magnitude, magnitude-add, magnitude-sub_ℤ, magnitude-mul, magnitude-div, magnitude-signed,
  Ensures, arith,
}
use sysopy_all.Calculator.Message.Roundtrip.{IsWord, deserialize-serialized}
use native.Mathlib.Nat.{mul-le-mul, div-le_self}
use sysopy_all.Calculator.Message.{
  OperationMessage, serialized_operation_message, field_size, is_digit, is_blank, digits, number,
  atoi, compute, first_char, answer,
}

-- 10 to the power of the length.
abbrev limit : Text → ℕ
limit [] = 1
limit (c ∷ cs) = 10 * limit cs

limit_pos : (w : Text) → 1 ≤ limit w
limit_pos [] = omega arith
limit_pos (c ∷ w) = omega (arith, limit_pos w)

one_more : (a d l : ℕ) → d < 10 → (10 * a + d + 1) * l ≤ (a + 1) * (10 * l)
one_more a d l h = grind arith

digit-lt : (c : ℕ) → is_digit c ≡ true → c - 48 < 10
digit-lt c h = ground (arith, h)

stop : (a l : ℕ) → 1 ≤ l → a < (a + 1) * (10 * l)
stop a l h = grind arith

digits-lt : (acc : ℕ) (w : Text) → digits acc w < (acc + 1) * limit w
unfolding digits
digits-lt acc [] = omega arith
digits-lt acc (c ∷ w) = elim (Bool-cases (is_digit c)) [
  | inl t ↦ rw t (
      omega
        (arith, digits-lt (10 * acc + (c - 48)) w, one_more acc (c - 48) (limit w) (digit-lt c t)))
  | inr t ↦ rw t (stop acc (limit w) (limit_pos w))
]

number-lt : (w : Text) → magnitude (number w) < limit w
unfolding number
number-lt [] = omega arith
number-lt (c ∷ w) =
    ground (arith, digits-lt 0 w, digits-lt 0 (c ∷ w), magnitude-signed true (digits 0 w))

atoi-lt : (w : Text) → magnitude (atoi w) < limit w
unfolding atoi
atoi-lt [] = omega arith
atoi-lt (c ∷ w) = elim (Bool-cases (is_blank c)) [
  | inl t ↦ rw t (omega (arith, atoi-lt w))
  | inr t ↦ rw t (number-lt (c ∷ w))
]

limit-le : (w : Text) → length w < field_size → limit w ≤ 10000
limit-le [] h = omega arith
limit-le (a ∷ []) h = omega arith
limit-le (a ∷ b ∷ []) h = omega arith
limit-le (a ∷ b ∷ c ∷ []) h = omega arith
limit-le (a ∷ b ∷ c ∷ d ∷ []) h = omega arith
limit-le (a ∷ b ∷ c ∷ d ∷ e ∷ w) h = absurd (omega arith)

atoi_small : (w : Text) → length w < field_size → magnitude (atoi w) ≤ 9999
atoi_small w h = omega (arith, atoi-lt w, limit-le w h)

-- The results of the four operations on numbers of four digits.
abbrev pub Fits : ℤ → Type 0
Fits r = magnitude r < 2 ^ 31

mul_small : (a b : ℕ) → a ≤ 9999 → b ≤ 9999 → a * b ≤ 99980001
mul_small a b h k = mul-le-mul h k

div_small : (a b : ℕ) → a / b ≤ a
div_small a b = div-le_self a b

compute-Fits :
    (c : ℕ) (a b r : ℤ)
    → magnitude a ≤ 9999
    → magnitude b ≤ 9999
    → Fits r
    → Ensures Fits (compute c a b r)
unfolding compute
compute-Fits c a b r ha hb hr = ground (
  arith,
  magnitude-add a b,
  magnitude-sub_ℤ a b,
  magnitude-mul a b,
  magnitude-div a b,
  div_small (magnitude a) (magnitude b),
  mul_small (magnitude a) (magnitude b) ha hb,
)

IsWord-length : (w : Text) → IsWord w → length w < field_size
IsWord-length [] h = absurd h
IsWord-length (c ∷ w) (s, l) = l

pub answer-Fits :
    (m : OperationMessage) (result : ℤ)
    → IsWord m.operation
    → IsWord m.first_argument
    → IsWord m.second_argument
    → Fits result
    → (answer (serialized_operation_message m) result
        ≡ compute (first_char m.operation) (atoi m.first_argument) (atoi m.second_argument) result)
      × Ensures Fits (answer (serialized_operation_message m) result)
unfolding answer
answer-Fits m result h1 h2 h3 h = rw (deserialize-serialized m h1 h2 h3) (
  refl,
  compute-Fits (first_char m.operation) (atoi m.first_argument) (atoi m.second_argument) result
      (atoi_small m.first_argument (IsWord-length m.first_argument h2))
      (atoi_small m.second_argument (IsWord-length m.second_argument h3)) h,
)
