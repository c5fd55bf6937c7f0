-- ===== src/Base/Tokens.antt =====
-- `strtok`: the text is cut at the delimiters, and empty tokens are skipped.
use Prim.Native.Nat.{ℕ}
use mathlib.Core.Path.{◌≡◌, refl}
use mathlib.Core.Bool.{Bool, true, false}
use mathlib.Core.List.{[], ◌∷◌, ◌++◌}
use mathlib.Core.Option.{Option, none, some}
use sysopy_all.Base.Tests.{if◌then◌else◌}
use sysopy_all.Base.Strings.{Text}

module _ (delimiter : ℕ → Bool) where
  -- From the first byte that is no delimiter.
  abbrev pub skip : Text → Text
  skip [] = []
  skip (c ∷ cs) = if delimiter c then skip cs else c ∷ cs

  -- Up to the next delimiter, and after it.
  abbrev pub cut_token : Text → Text × Text
  cut_token [] = ([], [])
  cut_token (c ∷ cs) = let r = cut_token cs in if delimiter c then ([], cs) else (c ∷ r.0, r.1)

  abbrev token_from : Text → Option (Text × Text)
  token_from [] = none
  token_from (c ∷ cs) = some (cut_token (c ∷ cs))

  -- The token and what the next call goes on with; `none` is NULL.
  unfoldable pub strtok : Text → Option (Text × Text)
  strtok cs = token_from (skip cs)

  -- No byte is a delimiter.
  abbrev pub Solid : Text → Type 0
  Solid [] = Unit
  Solid (c ∷ cs) = (delimiter c ≡ false) × Solid cs

  pub cut_token-append :
      (w rest : Text) (d : ℕ)
      → Solid w
      → delimiter d ≡ true
      → cut_token (w ++ (d ∷ rest)) ≡ (w, rest)
  cut_token-append [] rest d h k = rw k refl
  cut_token-append (c ∷ w) rest d (h, hs) k = rw (h, cut_token-append w rest d hs k) refl

  pub cut_token-last : (w : Text) → Solid w → cut_token w ≡ (w, [])
  cut_token-last [] h = refl
  cut_token-last (c ∷ w) (h, hs) = rw (h, cut_token-last w hs) refl

  -- A word before a delimiter is the next token, and so is a word at the end.
  pub strtok-append :
      (c d : ℕ) (w rest : Text)
      → Solid (c ∷ w)
      → delimiter d ≡ true
      → strtok ((c ∷ w) ++ (d ∷ rest)) ≡ some (c ∷ w, rest)
  unfolding strtok
  strtok-append c d w rest (h, hs) k = rw (h, cut_token-append w rest d hs k, h) refl

  pub strtok-last : (c : ℕ) (w : Text) → Solid (c ∷ w) → strtok (c ∷ w) ≡ some (c ∷ w, [])
  unfolding strtok
  strtok-last c w (h, hs) = rw (h, cut_token-last w hs, h) refl

  pub strtok-nil : strtok [] ≡ none
  unfolding strtok
  strtok-nil = refl
