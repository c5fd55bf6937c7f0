-- ===== src/Interpreter/Lines.antt =====
-- Each command is read from its line as it was written.
use sysopy_all.Base.{
  ℕ, ◌-◌, ◌≡◌, ◌≢◌, refl, ◌∙◌, some, List, [], ◌∷◌, ◌++◌, Text, strtok, Solid, strtok-append,
  strtok-last, strtok-nil, arith, length-append, true,
}
use sysopy_all.Interpreter.{
  is_blank, advance, parse_value, parse_variable, parse_program, parse_line, Line,
}
use sysopy_all.Interpreter.Syntax.{
  Command, write_command, IsWritable, IsWord, StartsPlain, join, with_newline,
}
use sysopy_all.Interpreter.Arguments.{strcpy-some, drop_last-append, parse_program-with_newline}

-- The line that a command stands for.
abbrev pub line_of : Command → Line
line_of (Command.define n v) = Line.define n v
line_of (Command.delete n) = Line.delete n
line_of (Command.execute p ws) = Line.execute (p ∷ ws)

Solid-newline : (w : Text) → Solid is_blank w → Solid is_blank (w ++ (b'\n' ∷ []))
unfolding is_blank
Solid-newline [] s = (refl, tt)
Solid-newline (c ∷ w) (b, s) = (b, Solid-newline w s)

strtok-newline :
    (w : Text)
    → Solid is_blank w
    → strtok is_blank (w ++ (b'\n' ∷ [])) ≡ some (w ++ (b'\n' ∷ []), [])
strtok-newline [] s = strtok-last is_blank b'\n' [] (Solid-newline [] s)
strtok-newline (c ∷ w) s = strtok-last is_blank c (w ++ (b'\n' ∷ [])) (Solid-newline (c ∷ w) s)

advance-some : (c : ℕ) (cs : Text) → advance (c ∷ cs) ≡ some cs
unfolding advance
advance-some c cs = refl

parse_line-variable :
    (used : ℕ) (cs : Text) → parse_line used (b'#' ∷ cs) ≡ parse_variable (100 - used) (b'#' ∷ cs)
unfolding parse_line
parse_line-variable used cs = refl

blank : is_blank b' ' ≡ true
unfolding is_blank
blank = refl

Solid-hash : (n : Text) → Solid is_blank n → Solid is_blank (b'#' ∷ n)
unfolding is_blank
Solid-hash n s = (refl, s)

parse_line-define :
    (used : ℕ) (n v : Text)
    → IsWritable used (Command.define n v)
    → parse_line used (write_command (Command.define n v)) ≡ some (Line.define n v)
unfolding write_command parse_variable parse_value advance
parse_line-define used n v (s, t, l, m) =
    parse_line-variable used (n ++ (b' ' ∷ (v ++ (b'\n' ∷ []))))
    ∙ rw
        (
          strtok-append is_blank b'#' b' ' n (v ++ (b'\n' ∷ [])) (Solid-hash n s) blank,
          strcpy-some (100 - used) (b'#' ∷ n) (omega arith),
          strtok-newline v t,
          strcpy-some 100 (v ++ (b'\n' ∷ [])) (omega (arith, length-append v (b'\n' ∷ []))),
          strtok-nil is_blank,
          drop_last-append v b'\n',
        )
        refl

parse_line-delete :
    (used : ℕ) (n : Text)
    → IsWritable used (Command.delete n)
    → parse_line used (write_command (Command.delete n)) ≡ some (Line.delete n)
unfolding write_command parse_variable parse_value advance
parse_line-delete used n (s, l) =
    parse_line-variable used (n ++ (b'\n' ∷ []))
    ∙ rw
        (
          strtok-newline (b'#' ∷ n) (Solid-hash n s),
          strcpy-some (100 - used) (b'#' ∷ (n ++ (b'\n' ∷ [])))
              (omega (arith, length-append n (b'\n' ∷ []))),
          strtok-nil is_blank,
          drop_last-append (b'#' ∷ n) b'\n',
        )
        refl

-- A line whose first byte is not `#` is a program.
parse_line-program :
    (used : ℕ) (c : ℕ) (cs : Text) → c ≢ b'#' → parse_line used (c ∷ cs) ≡ parse_program (c ∷ cs)
unfolding parse_line
parse_line-program used c cs d = ground arith

program_line :
    (used : ℕ) (p : Text) (ws : List Text)
    → IsWord p
    → StartsPlain p
    → parse_line used (join (with_newline (p ∷ ws))) ≡ parse_program (join (with_newline (p ∷ ws)))
unfolding join with_newline
program_line used [] ws (n, _, _) d = absurd (n refl)
program_line used (c ∷ cs) [] w d = parse_line-program used c (cs ++ (b'\n' ∷ [])) d
program_line used (c ∷ cs) (v ∷ []) w d =
    parse_line-program used c (cs ++ (b' ' ∷ (v ++ (b'\n' ∷ [])))) d
program_line used (c ∷ cs) (v ∷ u ∷ ws) w d =
    parse_line-program used c (cs ++ (b' ' ∷ join (v ∷ with_newline (u ∷ ws)))) d

-- Every command that can be written is read from its line.
pub parse_line-write_command :
    (used : ℕ) (c : Command)
    → IsWritable used c
    → parse_line used (write_command c) ≡ some (line_of c)
unfolding write_command
parse_line-write_command used (Command.define n v) w = parse_line-define used n v w
parse_line-write_command used (Command.delete n) w = parse_line-delete used n w
parse_line-write_command used (Command.execute p ws) (a, n, m, d) =
    program_line used p ws a.0 d ∙ parse_program-with_newline p ws a n m
