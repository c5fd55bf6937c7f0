-- ===== src/MessageServer.antt =====
-- cw06/zad1: a server on a System V message queue (server.c), which gives its clients (client.c) ids and
-- answers their requests. Server and clients put requests and answers into the same queue.
pub mod Answers
pub mod Capacity
mod Tests
use sysopy_all.Base.{
  ℕ, zero, suc, ◌+◌, ◌-◌, Bool, Option, none, some, ◌>>=◌, true, false, ◌&&◌, List, [], ◌∷◌, ◌++◌,
  ◌==◌, ltb, leb, if◌then◌else◌, map, Text,
}

-- `struct message_with_id`; `struct request_str` has the same layout.
pub record Message : Type 0 where
  pub mtype : ℕ
  pub id : ℕ
  pub message : Text

-- The types of messages; other numbers are wrong.
pub data Request : Type 0 where
  echo : Request
  uppercase : Request
  get_time : Request
  terminate : Request
  new_client : Request
  wrong : Request

unfoldable pub request_of : ℕ → Request
request_of n =
    if n == 1
    then echo
    else (if n == 2
        then uppercase
        else (if n == 3
            then get_time
            else (if n == 4 then terminate else (if n == 5 then new_client else wrong))))

-- The queue of the server, `tmp_client_id`, the ids that were sent, each with the queue of its client,
-- and `shutdown`.
pub record ServerState : Type 0 where
  pub queue : List Message
  pub tmp_client_id : ℕ
  pub sent : List (ℕ × ℕ)
  pub shutdown : Bool

-- A turn of the loop: it waits for a message, calls `exit`, writes past the end of `client_ids`, ends
-- after a shutdown, or goes on.
pub data ServerTurn : Type 0 where
  waits : ServerTurn
  exits : ServerTurn
  overruns : ServerTurn
  ends : ServerState → ServerTurn
  goes : ServerState → ServerTurn

-- As in the C locale.
abbrev pub toupper : ℕ → ℕ
toupper c = if leb 97 c && leb c 122 then c - 32 else c

abbrev pub upper : Text → Text
upper [] = []
upper (c ∷ cs) = toupper c ∷ upper cs

-- The answer goes to the end of the queue that the request came from.
abbrev pub answer : ServerState → Message → ServerState
answer s m = record s { queue = s.queue ++ (m ∷ []) }

-- `client_ids` has room for 10.
abbrev pub number_client : ServerState → ℕ → ServerTurn
number_client s client =
    if ltb s.tmp_client_id 10
    then goes (record s {
      tmp_client_id = suc s.tmp_client_id;
      sent = s.sent ++ ((client, s.tmp_client_id) ∷ []);
    })
    else overruns

-- The `switch` and the answer, where `time` is what `strftime` writes.
unfoldable pub handle : Text → Request → Message → ServerState → ServerTurn
handle time echo m s = goes (answer s m)
handle time uppercase m s = goes (answer s (record m { message = upper m.message }))
handle time get_time m s = goes (answer s (record m { message = time }))
handle time terminate m s = ends (answer (record s { shutdown = true }) m)
handle time new_client m s = number_client s m.id
handle time wrong m s = exits

abbrev pub receive : Text → ServerState → List Message → ServerTurn
receive time s [] = waits
receive time s (m ∷ ms) = handle time (request_of m.mtype) m (record s { queue = ms })

unfoldable pub server_turn : Text → ServerState → ServerTurn
unfolding handle request_of
server_turn time s = receive time s s.queue

-- What may happen next: a client sends a message, a client takes the first message of the server's
-- queue, or the server makes a turn.
pub data Event : Type 0 where
  send : Message → Event
  take_first : Event
  turn : Text → Event

-- The server, what the clients have sent, what they have taken, and the times of the server's turns.
pub record Net : Type 0 where
  pub server : ServerState
  pub requests : List Message
  pub taken : List Message
  pub times : List Text

-- The next state while the server goes on; when it stops it removes the queue, or leaves it behind.
abbrev pub after_turn : Net → ServerTurn → Option Net
after_turn n waits = some n
after_turn n (goes s) = some (record n { server = s })
after_turn n _ = none

abbrev pub take_message : Net → List Message → Net
take_message n [] = n
take_message n (m ∷ ms) = record n {
  server = record (n.server) { queue = ms };
  taken = n.taken ++ (m ∷ []);
}

unfoldable pub happen : Event → Net → Option Net
unfolding server_turn
happen (send m) n =
    some (record n { server = answer n.server m; requests = n.requests ++ (m ∷ []) })
happen take_first n = some (take_message n n.server.queue)
happen (turn time) n = after_turn (record n { times = time ∷ n.times }) (server_turn time n.server)

unfoldable pub happen_all : List Event → Net → Option Net
unfolding happen
happen_all [] n = some n
happen_all (e ∷ es) n = do n' ← happen e n; happen_all es n'

abbrev pub opened_server : ServerState
opened_server = record { queue = []; tmp_client_id = 0; sent = []; shutdown = false }

abbrev pub opened_net : Net
opened_net = record { server = opened_server; requests = []; taken = []; times = [] }
