-- ===== src/Interpreter/Tests.antt =====
-- Files that the interpreter reads, and its theorems at two of them.
use sysopy_all.Base.{
  ℕ, zero, suc, ◌≡◌, ◌≢◌, refl, Bool, true, some, none, List, [], ◌∷◌, Text, map, not, ◌==◌,
  replicate, arith, strtok,
}
use sysopy_all.Interpreter.{
  is_blank, Line, Call, setenv, putenv, spawn, ended, exited, interpret, parse_line,
}
use sysopy_all.Interpreter.Syntax.{Command, write_command, perform, AllWritable}
use sysopy_all.Interpreter.Runs.{interpret-perform, interpret-ne-ended, AllVariables}

-- Everything succeeds but the program `b`.
abbrev answers : List Call → Call → Bool
answers calls (spawn ((c ∷ []) ∷ args)) = not (c == b'b')
answers calls call = true

-- `#n v`, `a -l`, `#n`, `b`, `pwd`
abbrev file : List Command
file =
    Command.define (b'n' ∷ []) (b'v' ∷ [])
    ∷ Command.execute (b'a' ∷ []) ((b'-' ∷ b'l' ∷ []) ∷ [])
    ∷ Command.delete (b'n' ∷ [])
    ∷ Command.execute (b'b' ∷ []) []
    ∷ Command.execute (b'p' ∷ b'w' ∷ b'd' ∷ []) []
    ∷ []

file_run :
    perform answers file []
    ≡ exited (
        setenv (b'n' ∷ []) (b'v' ∷ [])
        ∷ spawn ((b'a' ∷ []) ∷ (b'-' ∷ b'l' ∷ []) ∷ [])
        ∷ putenv (b'n' ∷ [])
        ∷ spawn ((b'b' ∷ []) ∷ [])
        ∷ [])
unfolding perform
file_run = refl

file-AllWritable : AllWritable 0 file
unfolding write_command is_blank
file-AllWritable = (
  ((refl, tt), (refl, tt), omega arith, omega arith),
  (
    (
      (((λ e. cc), (refl, tt), omega arith), (((λ e. cc), (refl, (refl, tt)), omega arith), tt)),
      omega arith,
      omega arith,
      (λ e. omega arith),
    ),
    (
      ((refl, tt), omega arith),
      (
        ((((λ e. cc), (refl, tt), omega arith), tt), omega arith, omega arith, (λ e. omega arith)),
        (
          (
            (((λ e. cc), (refl, (refl, (refl, tt))), omega arith), tt),
            omega arith,
            omega arith,
            (λ e. omega arith),
          ),
          tt,
        ),
      ),
    ),
  ),
)

interpret-perform_example :
    interpret answers (map write_command file) 0 [] ≡ perform answers file []
interpret-perform_example = interpret-perform answers file 0 [] file-AllWritable

-- The last byte of a last line without a newline is cut off: `#n v` sets `n` to nothing.
no_newline : parse_line 0 (b'#' ∷ b'n' ∷ b' ' ∷ b'v' ∷ []) ≡ some (Line.define (b'n' ∷ []) [])
unfolding parse_line strtok
no_newline = refl

-- An empty line is a program without a name.
empty_line : parse_line 0 (b'\n' ∷ []) ≡ some (Line.execute ([] ∷ []))
unfolding parse_line strtok
empty_line = refl

-- A tenth argument leaves `arg`.
ten_arguments :
    parse_line 0 (write_command (Command.execute (b'a' ∷ []) (replicate 9 (b'a' ∷ [])))) ≡ none
unfolding parse_line strtok write_command
ten_arguments = refl

abbrev hashes : ℕ → List Text
hashes zero = []
hashes (suc k) = (b'#' ∷ b'n' ∷ b'\n' ∷ []) ∷ hashes k

hashes-AllVariables : (k : ℕ) → AllVariables (hashes k)
hashes-AllVariables zero = tt
hashes-AllVariables (suc k) = (refl, hashes-AllVariables k)

interpret-ne-ended_example : interpret answers (hashes 100) 0 [] ≢ ended []
interpret-ne-ended_example =
    interpret-ne-ended answers (hashes 100) [] (hashes-AllVariables 100) (omega arith)
