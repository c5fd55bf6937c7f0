-- ===== src/Pipeline/Lines.antt =====
-- A session of the shell, line by line.
use mathlib.Core.List.{append_assoc, append-nil}
use sysopy_all.Base.{
  ℕ, ◌+◌, ◌≡◌, ◌≢◌, refl, ◌∙◌, List, [], ◌∷◌, ◌++◌, length, map, Text, take, Returns, Returns-bind,
  Returns-mono, sym,
}
use sysopy_all.Pipeline.{
  is_bar, is_gap, line_to_programs, program_to_args, Child, Shell, run_line, main,
}
use sysopy_all.Pipeline.Words.{words_from, words_of-words_from}
use sysopy_all.Pipeline.Wiring.{wired, NoneBlank, run_programs-wired}

-- The programs of a line with their words: of 98 programs and 498 words each, no more.
abbrev pub programs_of : Text → List (List Text)
programs_of line =
    map (λ p. take 498 (words_from is_gap [] p)) (take 98 (words_from is_bar [] line))

-- `line_to_programs` gives the first 98 words of the line between bars, and `program_to_args` the first 498
-- words between blanks, where a word is a longest run of bytes that are no delimiters. Further words are
-- dropped.
pub first_words :
    (line : Text)
    → (line_to_programs line ≡ take 98 (words_from is_bar [] line))
      × (program_to_args line ≡ take 498 (words_from is_gap [] line))
unfolding line_to_programs program_to_args
first_words line = (words_of-words_from is_bar 97 line, words_of-words_from is_gap 497 line)

map-program_to_args :
    (ps : List Text) → map program_to_args ps ≡ map (λ p. take 498 (words_from is_gap [] p)) ps
unfolding program_to_args
map-program_to_args [] = refl
map-program_to_args (p ∷ ps) = rw (words_of-words_from is_gap 497 p, map-program_to_args ps) refl

program_to_args-programs_of :
    (line : Text) → map program_to_args (line_to_programs line) ≡ programs_of line
unfolding line_to_programs
program_to_args-programs_of line =
    map-program_to_args (line_to_programs line) ∙ rw (words_of-words_from is_bar 97 line) refl

-- The children of a session, when the shell has made that many pipes before.
abbrev pub wired_lines : ℕ → List Text → List Child
wired_lines made [] = []
wired_lines made (line ∷ lines) =
    wired made (programs_of line) ++ wired_lines (made + length (programs_of line)) lines

-- Each line has a program, and each of its programs a word.
abbrev pub AllUsable : List Text → Type 0
AllUsable [] = Unit
AllUsable (line ∷ lines) = (programs_of line ≢ []) × NoneBlank (programs_of line) × AllUsable lines

abbrev LineDone : Text → Shell → Shell → Type 0
LineDone line s s' =
    (s'.opened ≡ [])
    × (s'.children ≡ s.children ++ wired s.made (programs_of line))
    × (s'.made ≡ s.made + length (programs_of line))

run_line-LineDone :
    (line : Text) (s : Shell)
    → programs_of line ≢ []
    → NoneBlank (programs_of line)
    → s.opened ≡ []
    → Returns (LineDone line s) (run_line line s)
unfolding run_line
run_line-LineDone line s e d o =
    rw (program_to_args-programs_of line) (run_programs-wired (programs_of line) s e d o)

abbrev Session : List Text → Shell → Shell → Type 0
Session lines s s' = (s'.opened ≡ []) × (s'.children ≡ s.children ++ wired_lines s.made lines)

-- Given lines of which each has a program and each program a word, and a shell with no open pipe, the
-- session is defined and ends with no open pipe, and each line's programs were started in their order
-- with a pipe of their own from each to the next. The children keep no further end of a pipe open, but for
-- the last of a line, which keeps those of a pipe that no program uses.
pub main-wired_lines :
    (lines : List Text) (s : Shell)
    → AllUsable lines
    → s.opened ≡ []
    → Returns
        (λ s'. (s'.opened ≡ []) × (s'.children ≡ s.children ++ wired_lines s.made lines))
        (main lines s)
unfolding main
main-wired_lines [] s u o = (o, sym (append-nil s.children))
main-wired_lines (line ∷ lines) s (e, d, u) o =
    Returns-bind (LineDone line s) (Session (line ∷ lines) s) (run_line line s) (main lines)
      (run_line-LineDone line s e d o)
      (λ s1 (o1, c1, m1).
        Returns-mono (Session lines s1) (Session (line ∷ lines) s) (main lines s1)
          (λ s' (o', c'). (
            o',
            c'
                ∙ rw (c1, m1)
                    (append_assoc s.children (wired s.made (programs_of line))
                      (wired_lines (s.made + length (programs_of line)) lines)),
          ))
          (main-wired_lines lines s1 u o1))
