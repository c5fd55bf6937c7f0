-- ===== src/Pipeline.antt =====
-- cw05/zad1/pipes.c: the shell that runs the programs of a line with a pipe between each two.
pub mod Words
pub mod Wiring
pub mod Lines
mod Tests
use sysopy_all.Base.{
  ℕ, zero, suc, ◌+◌, ◌-◌, Bool, true, false, ◌&&◌, ◌||◌, Option, none, some, ◌>>=◌, List, [], ◌∷◌,
  ◌++◌, ◌==◌, ltb, if◌then◌else◌, length, map, Text, strtok,
}

-- The delimiters "|\n" and " \t\r\n".
unfoldable pub is_bar : ℕ → Bool
is_bar c = c == b'|' || c == b'\n'

unfoldable pub is_gap : ℕ → Bool
is_gap c = c == b' ' || (c == b'\t' || (c == b'\r' || c == b'\n'))

module _ {ℓ} {A : Type ℓ} where
  -- `words[i] = NULL` at the last place that was filled.
  unfoldable pub without_last : List A → List A
  without_last [] = []
  without_last (a ∷ []) = []
  without_last (a ∷ b ∷ as') = a ∷ without_last (b ∷ as')

-- The `while` loop with `k` places left, and the words stored so far.
unfoldable pub collect : (ℕ → Bool) → ℕ → List Text → Text → List Text
unfolding without_last
collect delimiter zero words rest = without_last words
collect delimiter (suc k) words rest = elim (strtok delimiter rest) [
  | none ↦ words
  | some t ↦ collect delimiter k (words ++ (t.0 ∷ [])) t.1
]

unfoldable pub words_of : (ℕ → Bool) → ℕ → Text → List Text
unfolding collect
words_of delimiter limit line = elim (strtok delimiter line) [
  | none ↦ []
  | some t ↦ collect delimiter (limit - 2) (t.0 ∷ []) t.1
]

unfoldable pub line_to_programs : Text → List Text
unfolding words_of is_bar
line_to_programs = words_of is_bar 100

unfoldable pub program_to_args : Text → List Text
unfolding words_of is_gap
program_to_args = words_of is_gap 500

-- The two ends of the pipe that `pipe` made as the `p`th.
pub data End : Type 0 where
  reader : ℕ → End
  writer : ℕ → End

abbrev pub ends : ℕ → List End
ends p = reader p ∷ writer p ∷ []

abbrev pub same_end : End → End → Bool
same_end (reader p) (reader q) = p == q
same_end (writer p) (writer q) = p == q
same_end _ _ = false

-- A child: its arguments, the pipes at its standard input and output, where it is not the shell's own,
-- and the other ends that it keeps open.
pub record Child : Type 0 where
  pub arguments : List Text
  pub input : Option ℕ
  pub output : Option ℕ
  pub kept : List End

-- The shell: how many pipes it has made, the ends that it has open, the two arrays, where `none` is an
-- array that was not set, and the children that it has forked.
pub record Shell : Type 0 where
  pub made : ℕ
  pub opened : List End
  pub read_pipe : Option ℕ
  pub write_pipe : Option ℕ
  pub has_args : Bool
  pub children : List Child

-- `close`. A descriptor that is not open may by now be another one: `none`.
unfoldable pub close : End → List End → Option (List End)
close e [] = none
close e (d ∷ ds) =
    let rest = close e ds >>= λ r. some (d ∷ r) in if same_end e d then some ds else rest

unfoldable pub close_both : ℕ → List End → Option (List End)
unfolding close
close_both p ds = do r ← close (reader p) ds; close (writer p) r

-- `swap_write_read_pipes`: a pointer is as long as the two descriptors of an array.
unfoldable pub swap_write_read_pipes : Shell → Shell
swap_write_read_pipes s = record s { read_pipe = s.write_pipe; write_pipe = s.read_pipe }

-- An end of a pipe becomes a standard one, and both ends are closed.
unfoldable pub take_over : Option ℕ → List End → Option (Option ℕ × List End)
unfolding close_both
take_over pipe opened = do p ← pipe; r ← close_both p opened; some (some p, r)

-- The child of program `i` of `n`, up to `execvp`.
unfoldable pub fork_child : ℕ → ℕ → List Text → Shell → Option Child
unfolding take_over
fork_child i n arguments s = do
  (output, kept) ← if ltb (suc i) n then take_over s.write_pipe s.opened else some (none, s.opened)
  (input, kept') ← if ltb 0 i then take_over s.read_pipe kept else some (none, kept)
  some (record { arguments = arguments; input = input; output = output; kept = kept' })

-- `pipe(write_pipe)` and `pipe(read_pipe)`
unfoldable pub new_write_pipe : Shell → Shell
new_write_pipe s = record s {
  made = suc s.made;
  opened = s.opened ++ ends s.made;
  write_pipe = some s.made;
}

unfoldable pub new_read_pipe : Shell → Shell
new_read_pipe s = record s {
  made = suc s.made;
  opened = s.opened ++ ends s.made;
  read_pipe = some s.made;
}

unfoldable pub drop_pipe : Option ℕ → List End → Option (List End)
unfolding close_both
drop_pipe pipe opened = pipe >>= λ p. close_both p opened

-- The rest of a round, for a program with arguments.
unfoldable pub launch : ℕ → ℕ → List Text → Shell → Option Shell
unfolding fork_child new_read_pipe drop_pipe
launch i n arguments s = do
  child ← fork_child i n arguments s
  opened ← if ltb 0 i then drop_pipe s.read_pipe s.opened else some s.opened
  let s' = record s { has_args = true; opened = opened; children = s.children ++ (child ∷ []) }
  some (if ltb (suc i) n then new_read_pipe s' else s')

-- A round of the `for` loop.
unfoldable pub run_program : ℕ → ℕ → List Text → Shell → Option Shell
unfolding swap_write_read_pipes new_write_pipe launch
run_program i n arguments s =
    let s1 = if ltb 0 i && s.has_args then swap_write_read_pipes s else s in
    let s2 = if i == 0 then new_write_pipe s1 else s1 in
    elim arguments [
      | [] ↦ some (record s2 { has_args = false })
      | a ∷ as' ↦ launch i n (a ∷ as') s2
    ]

-- The loop from program `i` on, and the two calls of `close` after it.
unfoldable pub run_programs : ℕ → ℕ → List (List Text) → Shell → Option Shell
unfolding run_program
run_programs i n [] s = do
  p ← s.write_pipe
  r1 ← close (writer p) s.opened
  r2 ← close (reader p) r1
  some (record s { opened = r2 })
run_programs i n (a ∷ as') s = do s' ← run_program i n a s; run_programs (suc i) n as' s'

-- A line that `getline` returns.
unfoldable pub run_line : Text → Shell → Option Shell
unfolding line_to_programs program_to_args run_programs
run_line line s =
    let programs = map program_to_args (line_to_programs line) in
    run_programs 0 (length programs) programs s

unfoldable pub main : List Text → Shell → Option Shell
unfolding run_line
main [] s = some s
main (line ∷ lines) s = do s' ← run_line line s; main lines s'
