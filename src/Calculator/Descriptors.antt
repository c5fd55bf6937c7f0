-- ===== src/Calculator/Descriptors.antt =====
-- The server's table of client descriptors (cw10/zad1/server.c), where 0 is a free place.
use sysopy_all.Base.{
  ℕ, zero, suc, ◌+◌, ◌%◌, ◌≤◌, ◌≡◌, ◌≢◌, refl, Option, none, some, ◌>>=◌, List, [], ◌∷◌, ◌==◌,
  if◌then◌else◌, length, get_elem?, arith,
}

-- The inner loop of `check_doubles` for one `i`: the later places that hold the same value.
unfoldable pub clear_later : ℕ → List ℕ → List ℕ
clear_later x [] = []
clear_later x (y ∷ ys) = (if x == y then 0 else y) ∷ clear_later x ys

-- Its outer loop, on the places from `i` on, with fuel for their number.
unfoldable pub clear_from : ℕ → List ℕ → List ℕ
unfolding clear_later
clear_from zero xs = xs
clear_from (suc n) [] = []
clear_from (suc n) (x ∷ xs) = x ∷ clear_from n (clear_later x xs)

unfoldable pub check_doubles : List ℕ → List ℕ
unfolding clear_from
check_doubles arr = if length arr == 1 then arr else clear_from (length arr) arr

-- The loop of `network_thread_function` after a connection has ended.
unfoldable pub forget : ℕ → List ℕ → List ℕ
forget fd [] = []
forget fd (d ∷ ds) = (if d == fd then 0 else d) ∷ forget fd ds

-- `while (cl_desc == 0)` of `computing_thread_function`; the numbers are what `rand` returns. `none` is a
-- loop that goes on.
unfoldable pub choose : List ℕ → List ℕ → Option ℕ
choose [] ds = none
choose (r ∷ rand) ds = do
  cl_desc ← get_elem? ds (r % length ds)
  let rest = choose rand ds
  if cl_desc == 0 then rest else some cl_desc

-- How often a descriptor stands in the table.
abbrev pub count : ℕ → List ℕ → ℕ
count d [] = 0
count d (x ∷ xs) = (if d == x then 1 else 0) + count d xs

-- 1 for a positive number.
abbrev pub at_most_one : ℕ → ℕ
at_most_one zero = 0
at_most_one (suc n) = 1

length-clear_later : (x : ℕ) (ys : List ℕ) → length (clear_later x ys) ≡ length ys
unfolding clear_later
length-clear_later x [] = refl
length-clear_later x (y ∷ ys) = omega (arith, length-clear_later x ys)

count-clear_later :
    (d x : ℕ) (ys : List ℕ)
    → d ≢ 0
    → count d (clear_later x ys) ≡ (if d == x then 0 else count d ys)
unfolding clear_later
count-clear_later d x [] h = ground arith
count-clear_later d x (y ∷ ys) h = ground (arith, count-clear_later d x ys h)

count-clear_from :
    (n d : ℕ) (xs : List ℕ)
    → d ≢ 0
    → length xs ≤ n
    → count d (clear_from n xs) ≡ at_most_one (count d xs)
unfolding clear_from
count-clear_from zero d [] h k = refl
count-clear_from zero d (x ∷ xs) h k = absurd (omega arith)
count-clear_from (suc n) d [] h k = refl
count-clear_from (suc n) d (x ∷ xs) h k = ground (
  arith,
  count-clear_from n d (clear_later x xs) h (omega (arith, length-clear_later x xs)),
  count-clear_later d x xs h,
)

-- `check_doubles` leaves every descriptor of the table in it exactly once.
pub check_doubles_lem :
    (d : ℕ) (arr : List ℕ) → d ≢ 0 → count d (check_doubles arr) ≡ at_most_one (count d arr)
unfolding check_doubles
check_doubles_lem d [] h = refl
check_doubles_lem d (x ∷ []) h = ground arith
check_doubles_lem d (x ∷ y ∷ xs) h =
    ground (arith, count-clear_from (length (x ∷ y ∷ xs)) d (x ∷ y ∷ xs) h (omega arith))
