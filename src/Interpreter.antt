-- ===== src/Interpreter.antt =====
-- cw03/zad1/main.c: the interpreter that reads a file line by line. A line `#name value` sets an
-- environment variable, `#name` removes one, and any other line is a program to run. A result
-- `none` is a write or a read past the end of a buffer.
pub mod Syntax
pub mod Arguments
pub mod Lines
pub mod Runs
mod Tests
use sysopy_all.Base.{
  ℕ, zero, suc, ◌+◌, ◌-◌, Bool, Option, none, some, ◌>>=◌, List, [], ◌∷◌, ◌++◌, ◌==◌, ltb,
  if◌then◌else◌, length, Text, strtok, cut_token,
}

-- The delimiter " ".
unfoldable pub is_blank : ℕ → Bool
is_blank c = c == b' '

-- `strcpy` to `room` bytes.
unfoldable pub strcpy : ℕ → Text → Option Text
strcpy room w = if ltb (length w) room then some w else none

-- `s[strlen(s) - 1] = '\0'`
unfoldable pub drop_last : Text → Option Text
drop_last [] = none
drop_last (c ∷ []) = some []
drop_last (c ∷ d ∷ cs) = do r ← drop_last (d ∷ cs); some (c ∷ r)

-- `s++`: past an empty text there is no text.
unfoldable pub advance : Text → Option Text
advance [] = none
advance (c ∷ cs) = some cs

pub data Line : Type 0 where
  define : Text → Text → Line
  delete : Text → Line
  execute : List Text → Line
  improper : Line

-- The name is there; what follows is the value, or nothing.
unfoldable pub parse_value : Text → Option (Text × Text) → Option Line
unfolding is_blank strcpy drop_last advance
parse_value name none = do n ← drop_last name; n' ← advance n; some (delete n')
parse_value name (some (word, rest)) = do
  value ← strcpy 100 word
  elim (strtok is_blank rest) [
    | some _ ↦ some improper
    | none ↦ do v ← drop_last value; n ← advance name; some (define n v)
  ]

-- A line with `#`; the name has `room` bytes.
unfoldable pub parse_variable : ℕ → Text → Option Line
unfolding parse_value
parse_variable room buffer = do
  (word, rest) ← strtok is_blank buffer
  name ← strcpy room word
  parse_value name (strtok is_blank rest)

-- After `strtok(s, " ")`, the text at `s`, which keeps the blanks before the token, and what the next
-- call goes on with.
unfoldable pub first_string : Text → Text × Text
unfolding is_blank
first_string [] = ([], [])
first_string (c ∷ cs) =
    let r = first_string cs in
    let t = cut_token is_blank (c ∷ cs) in if is_blank c then (c ∷ r.0, r.1) else t

-- `arg[n - 1]` loses its last byte.
unfoldable pub close_arguments : List Text → Option (List Text)
unfolding drop_last
close_arguments [] = none
close_arguments (a ∷ []) = do a' ← drop_last a; some (a' ∷ [])
close_arguments (a ∷ b ∷ as') = do r ← close_arguments (b ∷ as'); some (a ∷ r)

-- The `while` loop over the further words, with `iter` of them in `arg`, which has 10 places.
unfoldable pub fill_arguments : ℕ → ℕ → List Text → Text → Option (List Text)
unfolding is_blank strcpy close_arguments
fill_arguments zero iter args rest = none
fill_arguments (suc k) iter args rest = elim (strtok is_blank rest) [
  | none ↦ if ltb iter 10 then close_arguments args else none
  | some t ↦ do
    w ← if ltb iter 10 then strcpy 20 t.0 else none
    fill_arguments k (suc iter) (args ++ (w ∷ [])) t.1
]

-- Ten rounds fill `arg`, the eleventh leaves it.
unfoldable pub parse_program : Text → Option Line
unfolding first_string fill_arguments
parse_program buffer = do
  program ← strcpy 100 buffer
  let t = first_string program
  word ← strcpy 20 t.0
  args ← fill_arguments 11 1 (word ∷ []) t.1
  some (execute args)

-- `used` is how far `tmp_variable_name` has moved in its 100 bytes.
unfoldable pub parse_line : ℕ → Text → Option Line
unfolding parse_variable parse_program
parse_line used [] = parse_program []
parse_line used (c ∷ cs) =
    if c == b'#' then parse_variable (100 - used) (c ∷ cs) else parse_program (c ∷ cs)

-- The calls that the interpreter makes; `spawn` is fork, execvp in the child and wait.
pub data Call : Type 0 where
  setenv : Text → Text → Call
  putenv : Text → Call
  spawn : List Text → Call

-- The file was read to its end, `exit` was called, or a buffer was overrun.
pub data Outcome : Type 0 where
  ended : List Call → Outcome
  exited : List Call → Outcome
  overrun : Outcome

-- What the system answers to a call after those made before: whether it succeeds.
module _ (answer : List Call → Call → Bool) where
  -- The calls and the bytes of the name's buffer used so far, if the interpreter goes on.
  unfoldable pub run_line : Line → ℕ → List Call → (ℕ → List Call → Outcome) → Outcome
  run_line (define n v) used calls k = k (suc used) (calls ++ (setenv n v ∷ []))
  run_line (delete n) used calls k =
      let calls' = calls ++ (putenv n ∷ []) in
      if answer calls (putenv n) then k (suc used) calls' else exited calls'
  run_line (execute args) used calls k =
      let calls' = calls ++ (spawn args ∷ []) in
      if answer calls (spawn args) then k used calls' else exited calls'
  run_line improper used calls k = exited calls

  -- The loop of `main` over the lines that `fgets` returns.
  unfoldable pub interpret : List Text → ℕ → List Call → Outcome
  unfolding parse_line run_line
  interpret [] used calls = ended calls
  interpret (line ∷ lines) used calls = elim (parse_line used line) [
    | none ↦ overrun
    | some l ↦ run_line l used calls (interpret lines)
  ]
