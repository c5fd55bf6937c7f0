-- ===== src/Interpreter/Runs.antt =====
-- What the interpreter does with a whole file.
use sysopy_all.Base.{
  ℕ, suc, ◌+◌, ◌-◌, ◌≤◌, ◌<◌, ◌≡◌, ◌≢◌, refl, sym, ap, ◌∙◌, Bool, Bool-cases, inl, inr, Option,
  none, some, ◌>>=◌, List, [], ◌∷◌, ◌++◌, ltb, length, Text, map, arith, strtok, Ensures,
  Ensures-bind,
}
use sysopy_all.Interpreter.{
  Line, Call, setenv, putenv, spawn, Outcome, ended, overrun, run_line, interpret, parse_line,
  parse_variable, strcpy, is_blank, parse_value, drop_last, advance,
}
use sysopy_all.Interpreter.Syntax.{Command, write_command, perform, AllWritable}
use sysopy_all.Interpreter.Lines.{parse_line-write_command}

abbrev run_read : (List Call → Call → Bool) → List Text → ℕ → List Call → Option Line → Outcome
run_read answer lines used calls none = overrun
run_read answer lines used calls (some l) = run_line answer l used calls (interpret answer lines)

interpret-cons :
    (answer : List Call → Call → Bool) (line : Text) (lines : List Text) (used : ℕ)
    (calls : List Call)
    → interpret answer (line ∷ lines) used calls
      ≡ run_read answer lines used calls (parse_line used line)
unfolding interpret
interpret-cons answer line lines used calls = elim (parse_line used line) [
  | none ↦ refl
  | some l ↦ refl
]

-- Given commands that can be written, the interpreter reads the file of their lines to its end, or to
-- the first removal or program that fails, and makes the calls of the commands, in their order.
pub interpret-perform :
    (answer : List Call → Call → Bool) (cs : List Command) (used : ℕ) (calls : List Call)
    → AllWritable used cs
    → interpret answer (map write_command cs) used calls ≡ perform answer cs calls
unfolding perform interpret run_line
interpret-perform answer [] used calls w = refl
interpret-perform answer (Command.define n v ∷ cs) used calls (w, ws) =
    interpret-cons answer (write_command (Command.define n v)) (map write_command cs) used calls
    ∙ ap (run_read answer (map write_command cs) used calls)
        (parse_line-write_command used (Command.define n v) w)
    ∙ interpret-perform answer cs (suc used) (calls ++ (setenv n v ∷ [])) ws
interpret-perform answer (Command.delete n ∷ cs) used calls (w, ws) =
    interpret-cons answer (write_command (Command.delete n)) (map write_command cs) used calls
    ∙ ap (run_read answer (map write_command cs) used calls)
        (parse_line-write_command used (Command.delete n) w)
    ∙ rw (interpret-perform answer cs (suc used) (calls ++ (putenv n ∷ [])) ws) refl
interpret-perform answer (Command.execute p as' ∷ cs) used calls (w, ws) =
    interpret-cons answer (write_command (Command.execute p as')) (map write_command cs) used calls
    ∙ ap (run_read answer (map write_command cs) used calls)
        (parse_line-write_command used (Command.execute p as') w)
    ∙ rw (interpret-perform answer cs used (calls ++ (spawn (p ∷ as') ∷ [])) ws) refl

-- Line that starts with `#`.
abbrev pub IsVariable : Text → Type 0
IsVariable [] = ⊥
IsVariable (c ∷ cs) = c ≡ b'#'

abbrev pub AllVariables : List Text → Type 0
AllVariables [] = Unit
AllVariables (l ∷ ls) = IsVariable l × AllVariables ls

-- The line is not a program.
abbrev Moves : Line → Type 0
Moves (Line.execute args) = ⊥
Moves _ = Unit

Ensures-unit {ℓ} : {A : Type ℓ} (o : Option A) → Ensures (λ _. Unit {0}) o
Ensures-unit none = tt
Ensures-unit (some a) = tt

parse_value-Moves : (name : Text) (o : Option (Text × Text)) → Ensures Moves (parse_value name o)
unfolding parse_value
parse_value-Moves name none =
    Ensures-bind (λ _. Unit {0}) Moves (drop_last name) _ (Ensures-unit (drop_last name))
      (λ n _.
        Ensures-bind (λ _. Unit {0}) Moves (advance n) _ (Ensures-unit (advance n)) (λ n' _. tt))
parse_value-Moves name (some (word, rest)) =
    Ensures-bind (λ _. Unit {0}) Moves (strcpy 100 word) _ (Ensures-unit (strcpy 100 word))
      (λ value _. third value (strtok is_blank rest))
  where
    third :
        (value : Text) (o : Option (Text × Text))
        → Ensures Moves (elim o [
          | some _ ↦ some Line.improper
          | none ↦ do v ← drop_last value; n ← advance name; some (Line.define n v)
        ])
    third value (some t) = tt
    third value none =
        Ensures-bind (λ _. Unit {0}) Moves (drop_last value) _ (Ensures-unit (drop_last value))
          (λ v _.
            Ensures-bind (λ _. Unit {0}) Moves (advance name) _ (Ensures-unit (advance name))
              (λ n _. tt))

parse_variable-Moves : (room : ℕ) (buffer : Text) → Ensures Moves (parse_variable room buffer)
unfolding parse_variable
parse_variable-Moves room buffer =
    Ensures-bind (λ _. Unit {0}) Moves (strtok is_blank buffer) _
      (Ensures-unit (strtok is_blank buffer))
      (λ t _.
        Ensures-bind (λ _. Unit {0}) Moves (strcpy room t.0) _ (Ensures-unit (strcpy room t.0))
          (λ name _. parse_value-Moves name (strtok is_blank t.1)))

-- One byte has no room for a name.
parse_variable-full : (room : ℕ) (cs : Text) → room ≤ 1 → parse_variable room (b'#' ∷ cs) ≡ none
unfolding parse_variable strtok is_blank strcpy
parse_variable-full room cs h = ground arith

interpret-from :
    (answer : List Call → Call → Bool) (lines : List Text) (used : ℕ) (calls calls' : List Call)
    → AllVariables lines
    → used < 100
    → 100 ≤ used + length lines
    → interpret answer lines used calls ≢ ended calls'
unfolding parse_line run_line
interpret-from answer [] used calls calls' a u h e = absurd (omega arith)
interpret-from answer ([] ∷ lines) used calls calls' (a, as') u h e = a
interpret-from answer ((c ∷ cs) ∷ lines) used calls calls' (a, as') u h e =
    go (parse_variable (100 - used) (b'#' ∷ cs)) refl
      (parse_variable-Moves (100 - used) (b'#' ∷ cs))
      (sym (
          interpret-cons answer (c ∷ cs) lines used calls
          ∙ ap (λ d. run_read answer lines used calls (parse_line used (d ∷ cs))) a)
        ∙ e)
      (λ m k. interpret-from answer lines (suc used) m calls' as' k (omega arith))
  where
    room : {l : Line} → parse_variable (100 - used) (b'#' ∷ cs) ≡ some l → suc used < 100
    room {l} p = elim (Bool-cases (ltb (suc used) 100)) [
      | inl q ↦ ground arith
      | inr q ↦ cc (parse_variable-full (100 - used) cs (ground arith))
    ]

    go :
        (o : Option Line)
        → parse_variable (100 - used) (b'#' ∷ cs) ≡ o
        → Ensures Moves o
        → run_read answer lines used calls o ≡ ended calls'
        → ((m : List Call) → suc used < 100 → interpret answer lines (suc used) m ≢ ended calls')
        → ⊥
    go none p m q k = cc
    go (some (Line.define n v)) p m q k = k (calls ++ (setenv n v ∷ [])) (room p) q
    go (some (Line.delete n)) p m q k = elim (Bool-cases (answer calls (putenv n))) [
      | inl r ↦ k (calls ++ (putenv n ∷ [])) (room p) (rw r at q)
      | inr r ↦ cc (rw r at q)
    ]
    go (some (Line.execute args)) p m q k = m
    go (some Line.improper) p m q k = cc

-- A file of 100 or more lines, all starting with `#`, is not read to its end: each line moves the
-- name's pointer by a byte and none moves it back, until its 100 bytes are used up.
pub interpret-ne-ended :
    (answer : List Call → Call → Bool) (lines : List Text) (calls : List Call)
    → AllVariables lines
    → 100 ≤ length lines
    → interpret answer lines 0 [] ≢ ended calls
interpret-ne-ended answer lines calls a h =
    interpret-from answer lines 0 [] calls a (omega arith) (omega arith)
