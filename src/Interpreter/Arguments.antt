-- ===== src/Interpreter/Arguments.antt =====
-- The words of a program's line become its arguments.
use mathlib.Core.List.{append-nil, append_assoc}
use sysopy_all.Base.{
  ℕ, zero, suc, ◌+◌, ◌<◌, ◌≡◌, ◌≢◌, refl, ap, ◌∙◌, Option, none, some, ◌>>=◌, List, [], ◌∷◌, ◌++◌,
  ltb, if◌then◌else◌, length, Text, strtok, cut_token, Solid, strtok-append, strtok-last,
  strtok-nil, cut_token-append, cut_token-last, arith, lt→ltb, false, length-append,
}
use sysopy_all.Interpreter.{
  is_blank, strcpy, drop_last, first_string, close_arguments, fill_arguments, parse_program, Line,
}
use sysopy_all.Interpreter.Syntax.{join, with_newline, IsWord, AllWords}

-- A word that `strtok` returns and a place of `arg` holds.
abbrev pub IsToken : Text → Type 0
IsToken w = (w ≢ []) × Solid is_blank w × (length w < 20)

abbrev pub AllTokens : List Text → Type 0
AllTokens [] = Unit
AllTokens (w ∷ ws) = IsToken w × AllTokens ws

-- What follows the word that starts a line.
abbrev pub after_word : List Text → Text
after_word [] = []
after_word (w ∷ ws) = join (w ∷ ws)

first_string-cut_token :
    (c : ℕ) (cs : Text) → is_blank c ≡ false → first_string (c ∷ cs) ≡ cut_token is_blank (c ∷ cs)
unfolding first_string
first_string-cut_token c cs b = rw b refl

pub first_string-join :
    (w : Text) (ws : List Text) → IsToken w → first_string (join (w ∷ ws)) ≡ (w, after_word ws)
unfolding join is_blank
first_string-join [] ws (n, s, l) = absurd (n refl)
first_string-join (c ∷ w) [] (n, (b, s), l) =
    first_string-cut_token c w b ∙ cut_token-last is_blank (c ∷ w) (b, s)
first_string-join (c ∷ w) (v ∷ ws) (n, (b, s), l) =
    first_string-cut_token c (w ++ (32 ∷ join (v ∷ ws))) b
    ∙ cut_token-append is_blank (c ∷ w) (join (v ∷ ws)) 32 (b, s) refl

strtok-join :
    (w : Text) (ws : List Text)
    → IsToken w
    → strtok is_blank (join (w ∷ ws)) ≡ some (w, after_word ws)
unfolding join is_blank
strtok-join [] ws (n, s, l) = absurd (n refl)
strtok-join (c ∷ w) [] (n, s, l) = strtok-last is_blank c w s
strtok-join (c ∷ w) (v ∷ ws) (n, s, l) = strtok-append is_blank c 32 w (join (v ∷ ws)) s refl

pub strcpy-some : (room : ℕ) (w : Text) → length w < room → strcpy room w ≡ some w
unfolding strcpy
strcpy-some room w h = ground arith

abbrev fill_round : ℕ → ℕ → List Text → Option (Text × Text) → Option (List Text)
fill_round k iter args none = if ltb iter 10 then close_arguments args else none
fill_round k iter args (some t) = do
  w ← if ltb iter 10 then strcpy 20 t.0 else none
  fill_arguments k (suc iter) (args ++ (w ∷ [])) t.1

fill_arguments-fill_round :
    (k iter : ℕ) (args : List Text) (rest : Text)
    → fill_arguments (suc k) iter args rest ≡ fill_round k iter args (strtok is_blank rest)
unfolding fill_arguments
fill_arguments-fill_round k iter args rest = elim (strtok is_blank rest) [
  | none ↦ refl
  | some t ↦ refl
]

pub fill_arguments-join :
    (ws : List Text) (k iter : ℕ) (args : List Text)
    → AllTokens ws
    → length ws < k
    → iter + length ws < 10
    → fill_arguments k iter args (after_word ws) ≡ close_arguments (args ++ ws)
fill_arguments-join ws zero iter args t h r = absurd (omega arith)
fill_arguments-join [] (suc k) iter args t h r =
    fill_arguments-fill_round k iter args []
    ∙ ap (fill_round k iter args) (strtok-nil is_blank)
    ∙ rw (lt→ltb iter 10 (omega arith), append-nil args) refl
fill_arguments-join (w ∷ ws) (suc k) iter args (t, ts) h r =
    fill_arguments-fill_round k iter args (join (w ∷ ws))
    ∙ ap (fill_round k iter args) (strtok-join w ws t)
    ∙ rw (lt→ltb iter 10 (omega arith), strcpy-some 20 w t.2)
        (fill_arguments-join ws k (suc iter) (args ++ (w ∷ [])) ts (omega arith) (omega arith)
          ∙ ap close_arguments (append_assoc args (w ∷ []) ws))

pub parse_program-join :
    (w : Text) (ws : List Text)
    → AllTokens (w ∷ ws)
    → length ws < 9
    → length (join (w ∷ ws)) < 100
    → parse_program (join (w ∷ ws))
      ≡ (close_arguments (w ∷ ws) >>= λ args. some (Line.execute args))
unfolding parse_program
parse_program-join w ws (t, ts) n m =
    rw
      (
        strcpy-some 100 (join (w ∷ ws)) m,
        first_string-join w ws t,
        strcpy-some 20 w t.2,
        fill_arguments-join ws 11 1 (w ∷ []) ts (omega arith) (omega arith),
      )
      refl

pub drop_last-append : (w : Text) (c : ℕ) → drop_last (w ++ (c ∷ [])) ≡ some w
unfolding drop_last
drop_last-append [] c = refl
drop_last-append (b ∷ []) c = refl
drop_last-append (b ∷ d ∷ w) c = rw (drop_last-append (d ∷ w) c) refl

close_arguments-with_newline :
    (w : Text) (ws : List Text) → close_arguments (with_newline (w ∷ ws)) ≡ some (w ∷ ws)
unfolding close_arguments with_newline
close_arguments-with_newline w [] = rw (drop_last-append w b'\n') refl
close_arguments-with_newline w (v ∷ []) = rw (drop_last-append v b'\n') refl
close_arguments-with_newline w (v ∷ u ∷ ws) = rw (close_arguments-with_newline v (u ∷ ws)) refl

Solid-append : (v w : Text) → Solid is_blank v → Solid is_blank w → Solid is_blank (v ++ w)
Solid-append [] w s t = t
Solid-append (c ∷ v) w (b, s) t = (b, Solid-append v w s t)

-- The newline does not end a word, and counts as one byte of it.
pub IsWord-newline : (w : Text) → IsWord w → IsToken (w ++ (b'\n' ∷ []))
unfolding is_blank
IsWord-newline w (n, s, l) = (
  append-ne-nil w,
  Solid-append w (b'\n' ∷ []) s (refl, tt),
  omega (arith, length-append w (b'\n' ∷ [])),
)
  where
    append-ne-nil : (w : Text) → w ++ (b'\n' ∷ []) ≢ []
    append-ne-nil [] e = cc
    append-ne-nil (c ∷ w) e = cc

AllWords-with_newline : (ws : List Text) → AllWords ws → AllTokens (with_newline ws)
unfolding with_newline
AllWords-with_newline [] a = tt
AllWords-with_newline (w ∷ []) (a, _) = (IsWord-newline w a, tt)
AllWords-with_newline (w ∷ v ∷ ws) ((n, s, l), as') =
    ((n, s, omega arith), AllWords-with_newline (v ∷ ws) as')

length-with_newline : (ws : List Text) → length (with_newline ws) ≡ length ws
unfolding with_newline
length-with_newline [] = refl
length-with_newline (w ∷ []) = refl
length-with_newline (w ∷ v ∷ ws) = ap suc (length-with_newline (v ∷ ws))

pub parse_program-with_newline :
    (w : Text) (ws : List Text)
    → AllWords (w ∷ ws)
    → length ws < 9
    → length (join (with_newline (w ∷ ws))) < 100
    → parse_program (join (with_newline (w ∷ ws))) ≡ some (Line.execute (w ∷ ws))
unfolding with_newline
parse_program-with_newline w [] a n m =
    parse_program-join (w ++ (b'\n' ∷ [])) [] (AllWords-with_newline (w ∷ []) a) (omega arith) m
    ∙ ap (λ o. o >>= λ args. some (Line.execute args)) (close_arguments-with_newline w [])
parse_program-with_newline w (v ∷ ws) a n m =
    parse_program-join w (with_newline (v ∷ ws)) (AllWords-with_newline (w ∷ v ∷ ws) a)
      (omega (arith, length-with_newline (v ∷ ws))) m
    ∙ ap (λ o. o >>= λ args. some (Line.execute args)) (close_arguments-with_newline w (v ∷ ws))
