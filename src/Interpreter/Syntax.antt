-- ===== src/Interpreter/Syntax.antt =====
-- The commands of a file, how they are written, and what they do.
use sysopy_all.Base.{
  ℕ, suc, ◌+◌, ◌<◌, ◌≢◌, Bool, List, [], ◌∷◌, ◌++◌, if◌then◌else◌, length, Text, Solid,
}
use sysopy_all.Interpreter.{is_blank, Call, setenv, putenv, spawn, Outcome, ended, exited}

pub data Command : Type 0 where
  define : Text → Text → Command
  delete : Text → Command
  execute : Text → List Text → Command

-- Words with one blank between them.
unfoldable pub join : List Text → Text
join [] = []
join (w ∷ []) = w
join (w ∷ v ∷ ws) = w ++ (b' ' ∷ join (v ∷ ws))

-- The last word ends the line.
unfoldable pub with_newline : List Text → List Text
with_newline [] = []
with_newline (w ∷ []) = (w ++ (b'\n' ∷ [])) ∷ []
with_newline (w ∷ v ∷ ws) = w ∷ with_newline (v ∷ ws)

unfoldable pub write_command : Command → Text
unfolding join with_newline
write_command (define n v) = (b'#' ∷ n) ++ (b' ' ∷ (v ++ (b'\n' ∷ [])))
write_command (delete n) = (b'#' ∷ n) ++ (b'\n' ∷ [])
write_command (execute p ws) = join (with_newline (p ∷ ws))

-- The commands one after the other, up to the first removal or program that fails.
unfoldable pub perform : (List Call → Call → Bool) → List Command → List Call → Outcome
perform answer [] calls = ended calls
perform answer (define n v ∷ cs) calls = perform answer cs (calls ++ (setenv n v ∷ []))
perform answer (delete n ∷ cs) calls =
    let calls' = calls ++ (putenv n ∷ []) in
    let rest = perform answer cs calls' in if answer calls (putenv n) then rest else exited calls'
perform answer (execute p ws ∷ cs) calls =
    let calls' = calls ++ (spawn (p ∷ ws) ∷ []) in
    let rest = perform answer cs calls' in
    if answer calls (spawn (p ∷ ws)) then rest else exited calls'

-- A word of a program's line, with room for the newline in 20 bytes.
abbrev pub IsWord : Text → Type 0
IsWord w = (w ≢ []) × Solid is_blank w × (length w < 19)

abbrev pub AllWords : List Text → Type 0
AllWords [] = Unit
AllWords (w ∷ ws) = IsWord w × AllWords ws

-- The first byte is not `#`.
abbrev pub StartsPlain : Text → Type 0
StartsPlain [] = Unit
StartsPlain (c ∷ cs) = c ≢ b'#'

-- A command that can be written, when the name's buffer has moved by `used` bytes.
abbrev pub IsWritable : ℕ → Command → Type 0
IsWritable used (define n v) =
    Solid is_blank n × Solid is_blank v × (length n + 1 + used < 100) × (length v + 1 < 100)
IsWritable used (delete n) = Solid is_blank n × (length n + 2 + used < 100)
IsWritable used (execute p ws) =
    AllWords (p ∷ ws)
    × (length ws < 9)
    × (length (write_command (execute p ws)) < 100)
    × StartsPlain p

-- How far the name's buffer has moved after the command.
abbrev pub moved_by : Command → ℕ → ℕ
moved_by (execute p ws) used = used
moved_by _ used = suc used

abbrev pub AllWritable : ℕ → List Command → Type 0
AllWritable used [] = Unit
AllWritable used (c ∷ cs) = IsWritable used c × AllWritable (moved_by c used) cs
