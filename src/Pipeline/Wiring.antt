-- ===== src/Pipeline/Wiring.antt =====
-- The pipes between the programs of a line.
use mathlib.Core.List.{append_assoc}
use sysopy_all.Base.{
  ℕ, suc, ◌+◌, ◌<◌, ◌≡◌, ◌≢◌, refl, ◌∙◌, true, false, none, some, List, [], ◌∷◌, ◌++◌, ◌==◌, ==_iff,
  ltb, lt→ltb, ≤→ltb, ≢→==, length, Text, arith, Returns, Returns-mono,
}
use sysopy_all.Pipeline.{
  End, reader, writer, ends, Child, Shell, close, close_both, swap_write_read_pipes, take_over,
  drop_pipe, fork_child, new_write_pipe, new_read_pipe, launch, run_program, run_programs,
}

-- A child between the pipes `p` and the next.
abbrev middle_child : ℕ → List Text → Child
middle_child p a = record { arguments = a; input = some p; output = some (suc p); kept = [] }

-- The last child keeps the ends of a pipe that no program uses.
abbrev last_child : ℕ → List Text → Child
last_child p a = record { arguments = a; input = some p; output = none; kept = ends (suc p) }

abbrev first_child : ℕ → List Text → Child
first_child p a = record { arguments = a; input = none; output = some p; kept = [] }

-- The children of the programs from one that reads pipe `p` on: each writes the pipe that the next one
-- reads. Only the last keeps ends open, those of a pipe that no program uses.
abbrev pub chain : ℕ → List (List Text) → List Child
chain p [] = []
chain p (a ∷ []) = last_child p a ∷ []
chain p (a ∷ b ∷ as') = middle_child p a ∷ chain (suc p) (b ∷ as')

-- The children of a line.
abbrev pub wired : ℕ → List (List Text) → List Child
wired p [] = []
wired p (a ∷ []) = record { arguments = a; input = none; output = none; kept = ends p } ∷ []
wired p (a ∷ b ∷ as') = first_child p a ∷ chain p (b ∷ as')

abbrev pub NoneBlank : List (List Text) → Type 0
NoneBlank [] = Unit
NoneBlank (a ∷ as') = (a ≢ []) × NoneBlank as'

-- Before the round of a program that is not the first.
abbrev between : ℕ → List Child → Shell
between p children = record {
  made = suc (suc p);
  opened = ends p ++ ends (suc p);
  read_pipe = some (suc p);
  write_pipe = some p;
  has_args = true;
  children = children;
}

close-head : (e : End) (ds : List End) → close e (e ∷ ds) ≡ some ds
unfolding close
close-head (reader p) ds = rw ((==_iff p p).1 refl) refl
close-head (writer p) ds = rw ((==_iff p p).1 refl) refl

close_both-head : (p : ℕ) (ds : List End) → close_both p (reader p ∷ writer p ∷ ds) ≡ some ds
unfolding close_both
close_both-head p ds = rw (close-head (reader p) (writer p ∷ ds), close-head (writer p) ds) refl

ltb-suc : (i : ℕ) → ltb 0 (suc i) ≡ true
ltb-suc i = lt→ltb 0 (suc i) (omega arith)

==-suc : (i : ℕ) → (suc i == 0) ≡ false
==-suc i = ≢→== (suc i) 0 (λ e. omega arith)

close-second : {p q : ℕ} → p < q → close_both q (ends p ++ ends q) ≡ some (ends p)
unfolding close_both close
close-second {p = p} {q = q} l =
    let n = ≢→== q p (λ e. omega arith) in
    rw ((==_iff q q).1 refl, n, n) (rw ((==_iff q q).1 refl) refl)

-- Between the exchange of the arrays and the fork.
abbrev swapped : ℕ → List Child → Shell
swapped p children = record {
  made = suc (suc p);
  opened = ends p ++ ends (suc p);
  read_pipe = some p;
  write_pipe = some (suc p);
  has_args = true;
  children = children;
}

run_program-between :
    (i n : ℕ) (w : Text) (ws : List Text) (p : ℕ) (children : List Child)
    → run_program (suc i) n (w ∷ ws) (between p children)
      ≡ launch (suc i) n (w ∷ ws) (swapped p children)
unfolding run_program swap_write_read_pipes
run_program-between i n w ws p children = rw (ltb-suc i, ==-suc i) refl

launch-middle :
    (i n : ℕ) (a : List Text) (p : ℕ) (children : List Child)
    → suc (suc i) < n
    → launch (suc i) n a (swapped p children)
      ≡ some (between (suc p) (children ++ (middle_child p a ∷ [])))
unfolding launch fork_child take_over drop_pipe new_read_pipe
launch-middle i n a p children l =
    rw
      (
        ltb-suc i,
        lt→ltb (suc (suc i)) n l,
        close-second {p = p} {q = suc p} (omega arith),
        close_both-head p [],
        close_both-head p (ends (suc p)),
      )
      refl

-- After the last round.
abbrev finished : ℕ → List Child → Shell
finished p children = record {
  made = suc (suc p);
  opened = ends (suc p);
  read_pipe = some p;
  write_pipe = some (suc p);
  has_args = true;
  children = children;
}

launch-last :
    (i : ℕ) (a : List Text) (p : ℕ) (children : List Child)
    → launch (suc i) (suc (suc i)) a (swapped p children)
      ≡ some (finished p (children ++ (last_child p a ∷ [])))
unfolding launch fork_child take_over drop_pipe
launch-last i a p children =
    rw
      (ltb-suc i, ≤→ltb (suc (suc i)) (suc (suc i)) (omega arith), close_both-head p (ends (suc p)))
      refl

run_program-last :
    (i n : ℕ) (w : Text) (ws : List Text) (p : ℕ) (children : List Child)
    → n ≡ suc (suc i)
    → run_program (suc i) n (w ∷ ws) (between p children)
      ≡ some (finished p (children ++ (last_child p (w ∷ ws) ∷ [])))
run_program-last i n w ws p children e =
    rw (run_program-between i n w ws p children, e) (launch-last i (w ∷ ws) p children)

run_program-middle :
    (i n : ℕ) (w : Text) (ws : List Text) (p : ℕ) (children : List Child)
    → suc (suc i) < n
    → run_program (suc i) n (w ∷ ws) (between p children)
      ≡ some (between (suc p) (children ++ (middle_child p (w ∷ ws) ∷ [])))
run_program-middle i n w ws p children l =
    rw (run_program-between i n w ws p children) (launch-middle i n (w ∷ ws) p children l)

run_programs-nil :
    (i n p : ℕ) (s : Shell)
    → s.write_pipe ≡ some p
    → s.opened ≡ ends p
    → run_programs i n [] s ≡ some (record s { opened = [] })
unfolding run_programs close
run_programs-nil i n p s w o = let same = (==_iff p p).1 refl in rw (w, o, same) (rw same refl)

run_programs-chain :
    (i n : ℕ) (a : List Text) (as' : List (List Text)) (p : ℕ) (children : List Child)
    → NoneBlank (a ∷ as')
    → n ≡ suc i + length (a ∷ as')
    → Returns
        (λ s.
          (s.opened ≡ [])
          × (s.children ≡ children ++ chain p (a ∷ as'))
          × (s.made ≡ suc p + length (a ∷ as')))
        (run_programs (suc i) n (a ∷ as') (between p children))
unfolding run_programs
run_programs-chain i n [] as' p children (d, ds) e = absurd (d refl)
run_programs-chain i n (w ∷ ws) [] p children (d, ds) e =
    rw
      (
        run_program-last i n w ws p children (omega arith),
        run_programs-nil (suc (suc i)) n (suc p) (finished p (children ++ chain p ((w ∷ ws) ∷ [])))
            refl refl,
      )
      (refl, refl, omega arith)
run_programs-chain i n (w ∷ ws) (b ∷ as') p children (d, ds) e =
    let child : Child = middle_child p (w ∷ ws) in
    let rest =
      run_programs-chain (suc i) n b as' (suc p) (children ++ (child ∷ [])) ds (omega arith) in
    rw (run_program-middle i n w ws p children (omega arith)) (
      Returns-mono _
        (λ s.
          (s.opened ≡ [])
          × (s.children ≡ children ++ (child ∷ chain (suc p) (b ∷ as')))
          × (s.made ≡ suc p + suc (suc (length as'))))
        _
        (λ s (o, c, m).
          (o, c ∙ append_assoc children (child ∷ []) (chain (suc p) (b ∷ as')), omega arith))
        rest)

run_programs-only :
    (w : Text) (ws : List Text) (s : Shell)
    → s.opened ≡ []
    → Returns
        (λ s'.
          (s'.opened ≡ [])
          × (s'.children ≡ s.children ++ wired s.made ((w ∷ ws) ∷ []))
          × (s'.made ≡ s.made + 1))
        (run_programs 0 1 ((w ∷ ws) ∷ []) s)
unfolding run_programs run_program launch fork_child new_write_pipe close
run_programs-only w ws s o =
    let same = (==_iff s.made s.made).1 refl in rw (o, same) (rw same (refl, refl, omega arith))

run_program-first :
    (n : ℕ) (w : Text) (ws : List Text) (s : Shell)
    → 1 < n
    → s.opened ≡ []
    → run_program 0 n (w ∷ ws) s
      ≡ some (between s.made (s.children ++ (first_child s.made (w ∷ ws) ∷ [])))
unfolding run_program launch fork_child take_over new_write_pipe new_read_pipe
run_program-first n w ws s l o = rw (o, lt→ltb 1 n l, close_both-head s.made []) refl

-- A line of programs that all have words leaves no pipe open and starts them wired one to the next.
pub run_programs-wired :
    (programs : List (List Text)) (s : Shell)
    → programs ≢ []
    → NoneBlank programs
    → s.opened ≡ []
    → Returns
        (λ s'.
          (s'.opened ≡ [])
          × (s'.children ≡ s.children ++ wired s.made programs)
          × (s'.made ≡ s.made + length programs))
        (run_programs 0 (length programs) programs s)
unfolding run_programs
run_programs-wired [] s e d o = absurd (e refl)
run_programs-wired ([] ∷ as') s e (d, ds) o = absurd (d refl)
run_programs-wired ((w ∷ ws) ∷ []) s e d o = run_programs-only w ws s o
run_programs-wired ((w ∷ ws) ∷ b ∷ as') s e (d, ds) o =
    let child : Child = first_child s.made (w ∷ ws) in
    let rest =
      run_programs-chain 0 (suc (suc (length as'))) b as' s.made (s.children ++ (child ∷ [])) ds
        (omega arith) in
    rw (run_program-first (suc (suc (length as'))) w ws s (omega arith) o) (
      Returns-mono _
        (λ s'.
          (s'.opened ≡ [])
          × (s'.children ≡ s.children ++ (child ∷ chain s.made (b ∷ as')))
          × (s'.made ≡ s.made + suc (suc (length as'))))
        _
        (λ s' (o', c, m).
          (o', c ∙ append_assoc s.children (child ∷ []) (chain s.made (b ∷ as')), omega arith))
        rest)
