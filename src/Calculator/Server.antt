-- ===== src/Calculator/Server.antt =====
-- The threads of cw10/zad1/server.c. What the system calls return is part of the events; a call that
-- fails where the server aborts is left out.
pub mod Capacity
pub mod Open
mod Tests
use sysopy_all.Base.{
  ℕ, suc, Bool, true, false, ◌||◌, not, Option, none, some, ◌>>=◌, List, [], ◌∷◌, ◌++◌, ltb, ◌==◌,
  if◌then◌else◌, length, set, Text,
}
use sysopy_all.Calculator.Message.{OperationMessage, field_size, serialized_operation_message}
use sysopy_all.Calculator.Descriptors.{check_doubles, forget, choose}

-- `monitored` are the connections that epoll watches; `output` is what was written to descriptor 1, and
-- `sent` what was written to the clients. `chosen` are the descriptor and the text that the computing
-- thread is about to write.
pub record Server : Type 0 where
  pub sfd : ℕ
  pub client_descriptors : List ℕ
  pub client_count : ℕ
  pub monitored : List ℕ
  pub output : Text
  pub sent : List (ℕ × Text)
  pub chosen : Option (ℕ × Text)

-- A connection that `accept` returns, and whether `getnameinfo` succeeds for it.
pub record Accepted : Type 0 where
  pub infd : ℕ
  pub named : Bool

-- The last `read` of a connection: no more for now, an error, or the end of the connection.
pub data Last : Type 0 where
  again : Last
  failed : Last
  closed : Last

-- An entry of `events`, with what `accept` and `read` return while it is handled.
pub record Event : Type 0 where
  pub fd : ℕ
  pub epollerr : Bool
  pub epollhup : Bool
  pub epollin : Bool
  pub accepts : List Accepted
  pub reads : List Text
  pub last : Last

abbrev pub remove : ℕ → List ℕ → List ℕ
remove fd [] = []
remove fd (x ∷ xs) = let rest = remove fd xs in if x == fd then rest else x ∷ rest

unfoldable pub close : ℕ → Server → Server
close fd s = record s { monitored = remove fd s.monitored }

-- `client_descriptors[client_count] = infd; client_count++`
unfoldable pub add_client : ℕ → Server → Option Server
add_client infd s =
    if ltb s.client_count (length s.client_descriptors)
    then some (record s {
      client_descriptors = set s.client_descriptors s.client_count infd;
      client_count = suc s.client_count;
    })
    else none

-- A connection is added to the table if it has a name, and to epoll in any case.
unfoldable pub accept_one : Accepted → Server → Option Server
unfolding add_client
accept_one a s = do
  s' ← (if a.named then add_client a.infd s else some s)
  some (record s' { monitored = a.infd ∷ s'.monitored })

unfoldable pub accept_all : List Accepted → Server → Option Server
unfolding accept_one
accept_all [] s = some s
accept_all (a ∷ as') s = do s' ← accept_one a s; accept_all as' s'

unfoldable pub read_all : List Text → Server → Server
read_all [] s = s
read_all (buf ∷ reads) s = read_all reads (record s { output = s.output ++ buf })

abbrev pub is_done : Last → Bool
is_done again = false
is_done failed = true
is_done closed = true

unfoldable pub hang_up : ℕ → Server → Server
unfolding close
hang_up fd s = close fd (record s { client_descriptors = forget fd s.client_descriptors })

unfoldable pub handle_event : Event → Server → Option Server
unfolding accept_all read_all hang_up close
handle_event e s =
    if e.epollerr || (e.epollhup || not e.epollin)
    then some (close e.fd s)
    else if s.sfd == e.fd
    then accept_all e.accepts s
    else some (let s' = read_all e.reads s in if is_done e.last then hang_up e.fd s' else s')

unfoldable pub network_thread_function : List Event → Server → Option Server
unfolding handle_event
network_thread_function [] s = some s
network_thread_function (e ∷ es) s = do s' ← handle_event e s; network_thread_function es s'

-- A round of the other thread up to the choice of a connection, on the three words that are typed and the
-- numbers that `rand` returns. A word that does not fit its field is undefined.
unfoldable pub choose_client : OperationMessage → List ℕ → Server → Option Server
choose_client m rand s =
    if not (ltb (length m.operation) field_size)
      || (not (ltb (length m.first_argument) field_size)
          || not (ltb (length m.second_argument) field_size))
    then none
    else (do
      cl_desc ← choose rand s.client_descriptors
      some (record s { chosen = some (cl_desc, serialized_operation_message m) }))

-- The end of the round: the write, and the check of the table.
unfoldable pub write_message : Server → Option Server
write_message s = do
  c ← s.chosen
  some (record s {
    sent = c ∷ s.sent;
    chosen = none;
    client_descriptors = check_doubles s.client_descriptors;
  })

-- A round that no event interrupts.
unfoldable pub computing_thread_function : OperationMessage → List ℕ → Server → Option Server
unfolding choose_client write_message
computing_thread_function m rand s = choose_client m rand s >>= write_message

-- What the threads do. No lock keeps an event from coming between the choice and the write. Each of the
-- three is one step here; where the threads run inside each other's steps is not modelled.
pub data Action : Type 0 where
  network : Event → Action
  choosing : OperationMessage → List ℕ → Action
  writing : Action

unfoldable pub act : Action → Server → Option Server
act (network e) s = handle_event e s
act (choosing m rand) s = choose_client m rand s
act writing s = write_message s

unfoldable pub run : List Action → Server → Option Server
unfolding act
run [] s = some s
run (a ∷ as') s = do s' ← act a s; run as' s'
