-- ===== src/FileSort/Bubble.antt =====
-- The passes of `sort` on a list of records, by their first bytes.
use mathlib.Core.List.{Perm, append-nil}
use mathlib.Core.List.Perm
use sysopy_all.Base.{
  ℕ, zero, suc, ◌≤◌, ◌≡◌, refl, ap, List, [], ◌∷◌, ◌++◌, Text, get_or, ltb, if◌then◌else◌,
  Bool-cases, arith, length, subst, inl, inr,
}

abbrev pub first_byte : Text → ℕ
first_byte r = get_or r 0 0

abbrev pub Each : (Text → Type 0) → List Text → Type 0
Each P [] = Unit
Each P (x ∷ xs) = P x × Each P xs

abbrev pub Sorted : List Text → Type 0
Sorted [] = Unit
Sorted (x ∷ xs) = Each (λ y. first_byte x ≤ first_byte y) xs × Sorted xs

-- One pass: `p` moves right over `n` records, and is left where a record is not smaller.
unfoldable pub sink : ℕ → Text → List Text → List Text
sink zero p xs = p ∷ xs
sink (suc n) p [] = p ∷ []
sink (suc n) p (c ∷ xs) =
    if ltb (first_byte c) (first_byte p) then c ∷ sink n p xs else p ∷ sink n c xs

unfoldable pub bubble : ℕ → List Text → List Text
unfolding sink
bubble zero xs = xs
bubble (suc m) [] = []
bubble (suc m) (x ∷ xs) = bubble m (sink (suc m) x xs)

pub sink-perm : (n : ℕ) (p : Text) (xs : List Text) → Perm (sink n p xs) (p ∷ xs)
unfolding sink
sink-perm zero p xs = Perm.refl _
sink-perm (suc n) p [] = Perm.refl _
sink-perm (suc n) p (c ∷ xs) = elim (Bool-cases (ltb (first_byte c) (first_byte p))) [
  | inl t ↦ rw t (Perm.trans (Perm.cons c (sink-perm n p xs)) (Perm.swap p c xs))
  | inr t ↦ rw t (Perm.cons p (sink-perm n c xs))
]

pub bubble-perm : (m : ℕ) (xs : List Text) → Perm (bubble m xs) xs
unfolding bubble
bubble-perm zero xs = Perm.refl _
bubble-perm (suc m) [] = Perm.refl _
bubble-perm (suc m) (x ∷ xs) =
    Perm.trans (bubble-perm m (sink (suc m) x xs)) (sink-perm (suc m) x xs)

-- What a pass over `xs` leaves before its greatest record, and that record.
abbrev before : Text → List Text → List Text
before p [] = []
before p (c ∷ xs) = if ltb (first_byte c) (first_byte p) then c ∷ before p xs else p ∷ before c xs

abbrev greatest : Text → List Text → Text
greatest p [] = p
greatest p (c ∷ xs) = if ltb (first_byte c) (first_byte p) then greatest p xs else greatest c xs

sink-append :
    (p : Text) (xs ys : List Text)
    → sink (length xs) p (xs ++ ys) ≡ before p xs ++ (greatest p xs ∷ ys)
unfolding sink
sink-append p [] ys = refl
sink-append p (c ∷ xs) ys = elim (Bool-cases (ltb (first_byte c) (first_byte p))) [
  | inl t ↦ rw (t, sink-append p xs ys) refl
  | inr t ↦ rw (t, sink-append c xs ys) refl
]

length-before : (p : Text) (xs : List Text) → length (before p xs) ≡ length xs
length-before p [] = refl
length-before p (c ∷ xs) = elim (Bool-cases (ltb (first_byte c) (first_byte p))) [
  | inl t ↦ rw t (ap suc (length-before p xs))
  | inr t ↦ rw t (ap suc (length-before c xs))
]

before-Each :
    (P : Text → Type 0) (p : Text) (xs : List Text)
    → P p
    → Each P xs
    → Each P (before p xs) × P (greatest p xs)
before-Each P p [] h k = (tt, h)
before-Each P p (c ∷ xs) h (k, l) = elim (Bool-cases (ltb (first_byte c) (first_byte p))) [
  | inl t ↦ rw t (let r = before-Each P p xs h l in ((k, r.0), r.1))
  | inr t ↦ rw t (let r = before-Each P c xs k l in ((h, r.0), r.1))
]

greatest-le :
    (p : Text) (xs : List Text)
    → (first_byte p ≤ first_byte (greatest p xs))
      × Each (λ a. first_byte a ≤ first_byte (greatest p xs)) (before p xs)
greatest-le p [] = (omega arith, tt)
greatest-le p (c ∷ xs) = elim (Bool-cases (ltb (first_byte c) (first_byte p))) [
  | inl t ↦ rw t (let r = greatest-le p xs in (r.0, (ground (arith, r.0, t), r.1)))
  | inr t ↦
      rw t (let r = greatest-le c xs in (ground (arith, r.0, t), (ground (arith, r.0, t), r.1)))
]

Each-map : (P Q : Text → Type 0) (xs : List Text) → ((a : Text) → P a → Q a) → Each P xs → Each Q xs
Each-map P Q [] f h = tt
Each-map P Q (x ∷ xs) f (h, k) = (f x h, Each-map P Q xs f k)

Each-both :
    (P Q : Text → Type 0) (xs : List Text) → Each P xs → Each Q xs → Each (λ a. P a × Q a) xs
Each-both P Q [] h k = tt
Each-both P Q (x ∷ xs) (h, h') (k, k') = ((h, k), Each-both P Q xs h' k')

abbrev Below : List Text → Text → Type 0
Below ys a = Each (λ b. first_byte a ≤ first_byte b) ys

-- The rest of the passes, when `ys` is sorted and above all of `xs`.
bubble-append-Sorted :
    (m : ℕ) (xs ys : List Text)
    → length xs ≡ suc m
    → Sorted ys
    → Each (Below ys) xs
    → Sorted (bubble m (xs ++ ys))
unfolding bubble
bubble-append-Sorted m [] ys e s h = absurd (omega arith)
bubble-append-Sorted zero (x ∷ []) ys e s (h, _) = (h, s)
bubble-append-Sorted zero (x ∷ y ∷ xs) ys e s h = absurd (omega arith)
bubble-append-Sorted (suc m) (p ∷ xs) ys e s (h, k) =
    rw (one_pass, sink-append p xs ys)
      (bubble-append-Sorted m (before p xs) (greatest p xs ∷ ys) (omega (arith, length-before p xs))
        (r.1, s)
        (Each-both (λ a. first_byte a ≤ first_byte (greatest p xs)) (Below ys) (before p xs)
          (greatest-le p xs).1 r.0))
  where
    one_pass : sink (suc m) p (xs ++ ys) ≡ sink (length xs) p (xs ++ ys)
    one_pass = let h : suc m ≡ length xs = omega arith in ap (λ n. sink n p (xs ++ ys)) h

    r : Each (Below ys) (before p xs) × Below ys (greatest p xs)
    r = before-Each (Below ys) p xs h k

pub length-sink :
    (n : ℕ) (p : Text) (xs : List Text) → n ≤ length xs → length (sink n p xs) ≡ suc (length xs)
unfolding sink
length-sink zero p xs h = refl
length-sink (suc n) p [] h = refl
length-sink (suc n) p (c ∷ xs) h = elim (Bool-cases (ltb (first_byte c) (first_byte p))) [
  | inl t ↦ rw t (ap suc (length-sink n p xs (omega arith)))
  | inr t ↦ rw t (ap suc (length-sink n c xs (omega arith)))
]

pub sink-Each :
    (P : Text → Type 0) (n : ℕ) (p : Text) (xs : List Text) → P p → Each P xs → Each P (sink n p xs)
unfolding sink
sink-Each P zero p xs h k = (h, k)
sink-Each P (suc n) p [] h k = (h, tt)
sink-Each P (suc n) p (c ∷ xs) h (k, l) = elim (Bool-cases (ltb (first_byte c) (first_byte p))) [
  | inl t ↦ rw t (k, sink-Each P n p xs h l)
  | inr t ↦ rw t (h, sink-Each P n c xs k l)
]

Each-always : (P : Text → Type 0) (xs : List Text) → ((a : Text) → P a) → Each P xs
Each-always P [] f = tt
Each-always P (x ∷ xs) f = (f x, Each-always P xs f)

-- One pass less than there are records sorts them.
pub bubble-Sorted : (m : ℕ) (xs : List Text) → length xs ≡ suc m → Sorted (bubble m xs)
bubble-Sorted m xs e =
    subst (λ ys. Sorted (bubble m ys)) (append-nil xs)
      (bubble-append-Sorted m xs [] e tt (Each-always (Below []) xs (λ a. tt)))
