-- ===== src/Permissions.antt =====
-- cw04/zad2/parent.c: the parent that collects its children's requests and permits them together.
pub mod Requests
mod Tests
use sysopy_all.Base.{
  Bool, true, false, ℕ, zero, suc, List, [], ◌∷◌, ◌++◌, Option, none, some, ◌>>=◌, ltb, ◌==◌,
  if◌then◌else◌, length, get_elem?, set,
}

-- A call of `kill`, with the process id.
pub data Kill : Type 0 where
  sigkill : ℕ → Kill
  sigusr2 : ℕ → Kill

-- Whether `sigfillset(NULL)` returns, which POSIX leaves undefined, and whether `sigaction` succeeds.
pub record Calls : Type 0 where
  pub sigfillset_null : Bool
  pub sigaction : Bool

-- `sent` is every call of `kill` so far, and `exit_status` is set once the parent has exited.
-- `requested_child_processes` has room for `child_requests_number` ids.
pub record Parent : Type 0 where
  pub child_requests_number : ℕ
  pub count_requests : ℕ
  pub requested_child_processes : List ℕ
  pub sent : List Kill
  pub exit_status : Option ℕ

-- The loop of the handler: `n` more permissions, from index `i`.
unfoldable pub permit : ℕ → ℕ → List ℕ → Option (List Kill)
permit zero i pids = some []
permit (suc n) i pids = do
  pid ← get_elem? pids i
  rest ← permit n (suc i) pids
  some (sigusr2 pid ∷ rest)

-- What the handler sends at the last request.
unfoldable pub permit_all : Parent → Option Parent
unfolding permit
permit_all s = do
  kills ← permit s.child_requests_number 0 s.requested_child_processes
  some (record s { sent = s.sent ++ kills })

-- What the handler does with the new count. At the last request it fills a signal set through a null
-- pointer, and sets up the signal SIGRTMIN+7, whose handler is not modelled.
unfoldable pub answer : Calls → ℕ → Parent → Option Parent
unfolding permit_all
answer calls pid s =
    if ltb s.child_requests_number s.count_requests
    then some (record s { sent = s.sent ++ (sigkill pid ∷ []) })
    else if s.count_requests == s.child_requests_number
    then (if calls.sigfillset_null
        then (if calls.sigaction then permit_all s else some (record s { exit_status = some 99 }))
        else none)
    else some s

-- A request of the process `pid`. A write outside the array is undefined.
unfoldable pub parent_sigusr1_handler : Calls → ℕ → Parent → Option Parent
unfolding answer
parent_sigusr1_handler calls pid s =
    if ltb s.count_requests (length s.requested_child_processes)
    then answer calls pid (record s {
      requested_child_processes = set s.requested_child_processes s.count_requests pid;
      count_requests = suc s.count_requests;
    })
    else none

abbrev pub is_running : Option ℕ → Bool
is_running none = true
is_running (some status) = false

-- The requests that the handler is run for, in their order: of signals that are pending at the same
-- time it is run for one. A parent that has exited handles none.
unfoldable pub requests : Calls → List ℕ → Parent → Option Parent
unfolding parent_sigusr1_handler
requests calls [] s = some s
requests calls (pid ∷ pids) s =
    let rest = (do s' ← parent_sigusr1_handler calls pid s; requests calls pids s') in
    if is_running s.exit_status then rest else some s

-- At the start, with `cells` in the array.
abbrev pub main : List ℕ → Parent
main cells = record {
  child_requests_number = length cells;
  count_requests = 0;
  requested_child_processes = cells;
  sent = [];
  exit_status = none;
}
