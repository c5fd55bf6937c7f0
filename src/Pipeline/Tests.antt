-- ===== src/Pipeline/Tests.antt =====
-- Runs of the shell.
use sysopy_all.Base.{
  take, ◌≡◌, ◌≢◌, refl, some, none, true, false, List, [], ◌∷◌, ◌++◌, Text, Returns, strtok,
}
use sysopy_all.Pipeline.{
  line_to_programs, program_to_args, reader, writer, Shell, is_bar, is_gap, run_line, main,
}
use sysopy_all.Pipeline.Wiring.{NoneBlank}
use sysopy_all.Pipeline.Words.{words_from}
use sysopy_all.Pipeline.Lines.{first_words, programs_of, wired_lines, main-wired_lines}

abbrev fresh : Shell
fresh = record {
  made = 0;
  opened = [];
  read_pipe = none;
  write_pipe = none;
  has_args = true;
  children = [];
}

-- "a b | c |d\n"
abbrev line : Text
line = b'a' ∷ b' ' ∷ b'b' ∷ b' ' ∷ b'|' ∷ b' ' ∷ b'c' ∷ b' ' ∷ b'|' ∷ b'd' ∷ b'\n' ∷ []

abbrev programs : List (List Text)
programs = ((b'a' ∷ []) ∷ (b'b' ∷ []) ∷ []) ∷ ((b'c' ∷ []) ∷ []) ∷ ((b'd' ∷ []) ∷ []) ∷ []

programs_of-line : programs_of line ≡ programs
unfolding is_bar is_gap
programs_of-line = refl

run_line-line :
    run_line line fresh
    ≡ some (record {
      made = 3;
      opened = [];
      read_pipe = some 1;
      write_pipe = some 2;
      has_args = true;
      children =
          record {
            arguments = (b'a' ∷ []) ∷ (b'b' ∷ []) ∷ [];
            input = none;
            output = some 0;
            kept = [];
          }
          ∷ record { arguments = (b'c' ∷ []) ∷ []; input = some 0; output = some 1; kept = [] }
          ∷ record {
            arguments = (b'd' ∷ []) ∷ [];
            input = some 1;
            output = none;
            kept = reader 2 ∷ writer 2 ∷ [];
          }
          ∷ [];
    })
unfolding run_line strtok
run_line-line = refl

-- "a| \n": the pipe that the child writes to stays open in the shell.
abbrev blank_last : Text
blank_last = b'a' ∷ b'|' ∷ b' ' ∷ b'\n' ∷ []

run_line-blank_last :
    run_line blank_last fresh
    ≡ some (record {
      made = 2;
      opened = reader 0 ∷ writer 0 ∷ [];
      read_pipe = some 0;
      write_pipe = some 1;
      has_args = false;
      children =
          record { arguments = (b'a' ∷ []) ∷ []; input = none; output = some 0; kept = [] } ∷ [];
    })
unfolding run_line strtok
run_line-blank_last = refl

-- " |a\n": the loop exchanges nothing after a blank program, and reads an array that was not set.
abbrev blank_first : Text
blank_first = b' ' ∷ b'|' ∷ b'a' ∷ b'\n' ∷ []

run_line-blank_first : run_line blank_first fresh ≡ none
unfolding run_line strtok
run_line-blank_first = refl

not-nil {ℓ} : {A : Type ℓ} (a : A) (as' : List A) → a ∷ as' ≢ []
not-nil a as' e = cc

usable : (programs_of line ≢ []) × NoneBlank (programs_of line)
usable = rw programs_of-line (not-nil _ _, (not-nil _ _, (not-nil _ _, (not-nil _ _, tt))))

first_words_example :
    (line_to_programs line ≡ take 98 (words_from is_bar [] line))
    × (program_to_args line ≡ take 498 (words_from is_gap [] line))
first_words_example = first_words line

main-wired_lines_example :
    Returns
      (λ s'. (s'.opened ≡ []) × (s'.children ≡ [] ++ wired_lines 0 (line ∷ line ∷ [])))
      (main (line ∷ line ∷ []) fresh)
main-wired_lines_example =
    main-wired_lines (line ∷ line ∷ []) fresh (usable.0, usable.1, (usable.0, usable.1, tt)) refl
