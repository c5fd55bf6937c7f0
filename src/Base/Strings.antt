-- ===== src/Base/Strings.antt =====
-- C strings: the bytes before the terminating zero, compared as `strcmp` does.
use Prim.Native.Nat.{ℕ, compare, Ordering}
use Prim.Native.Nat.Ordering.{lt, eq, gt}
use mathlib.Core.Path.{◌≡◌, refl}
use mathlib.Core.Logic.{◌≢◌}
use mathlib.Core.List.{List, [], ◌∷◌}
use native.Mathlib.Omega.{arith}

abbrev pub Text : Type 0
Text = List ℕ

-- The sign of `strcmp(s, t)`.
unfoldable pub strcmp : Text → Text → Ordering
strcmp [] [] = eq
strcmp [] (b ∷ t) = lt
strcmp (a ∷ s) [] = gt
strcmp (a ∷ s) (b ∷ t) =
    let rest = strcmp s t in elim (compare a b) [ lt ↦ lt | eq ↦ rest | gt ↦ gt ]

pub strcmp_refl : (s : Text) → strcmp s s ≡ eq
unfolding strcmp
strcmp_refl [] = refl
strcmp_refl (a ∷ s) = ground (arith, strcmp_refl s)

pub eq_of_strcmp : (s t : Text) → strcmp s t ≡ eq → s ≡ t
unfolding strcmp
eq_of_strcmp [] [] h = refl
eq_of_strcmp [] (b ∷ t) h = cc
eq_of_strcmp (a ∷ s) [] h = cc
eq_of_strcmp (a ∷ s) (b ∷ t) h = ground (arith, eq_of_strcmp s t)

pub strcmp_flip : (s t : Text) → strcmp s t ≡ lt → strcmp t s ≡ gt
unfolding strcmp
strcmp_flip [] [] h = cc
strcmp_flip [] (b ∷ t) h = refl
strcmp_flip (a ∷ s) [] h = cc
strcmp_flip (a ∷ s) (b ∷ t) h = ground (arith, strcmp_flip s t)

pub strcmp_flip_gt : (s t : Text) → strcmp s t ≡ gt → strcmp t s ≡ lt
unfolding strcmp
strcmp_flip_gt [] [] h = cc
strcmp_flip_gt [] (b ∷ t) h = cc
strcmp_flip_gt (a ∷ s) [] h = refl
strcmp_flip_gt (a ∷ s) (b ∷ t) h = ground (arith, strcmp_flip_gt s t)

pub strcmp_trans : (s t u : Text) → strcmp s t ≡ lt → strcmp t u ≡ lt → strcmp s u ≡ lt
unfolding strcmp
strcmp_trans [] [] u h k = cc
strcmp_trans [] (b ∷ t) [] h k = cc
strcmp_trans [] (b ∷ t) (c ∷ u) h k = refl
strcmp_trans (a ∷ s) [] u h k = cc
strcmp_trans (a ∷ s) (b ∷ t) [] h k = cc
strcmp_trans (a ∷ s) (b ∷ t) (c ∷ u) h k = ground (arith, strcmp_trans s t u)

-- `s` comes before `t`, and `s` does not come after `t`.
infix 50 ◌≺◌ ◌≼◌
abbrev pub ◌≺◌ : Text → Text → Type 0
s ≺ t = strcmp t s ≡ gt

abbrev pub ◌≼◌ : Text → Text → Type 0
s ≼ t = strcmp s t ≢ gt

pub ≺-≼_trans : (s t u : Text) → s ≺ t → t ≼ u → s ≺ u
≺-≼_trans s t u h k = ground (
  arith,
  strcmp_flip_gt t s,
  strcmp_flip t u,
  strcmp_trans s t u,
  eq_of_strcmp t u,
  strcmp_flip s u,
)

pub ≺-≼ : (s t : Text) → s ≺ t → s ≼ t
≺-≼ s t h = ground (arith, strcmp_flip_gt t s)

pub ≼-≼_trans : (s t u : Text) → s ≼ t → t ≼ u → s ≼ u
≼-≼_trans s t u h k = ground (
  arith,
  ≺-≼_trans u s t,
  strcmp_flip t u,
  strcmp_flip_gt t u,
  strcmp_flip_gt s u,
  eq_of_strcmp t u,
)
