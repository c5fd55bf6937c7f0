-- ===== src/Calculator/Server/Tests.antt =====
-- Two connections, of which one ends, and a message.
use mathlib.Core.Option
use sysopy_all.Base.{
  ℕ, ◌≡◌, refl, true, false, none, some, ◌>>=◌, List, [], ◌∷◌, replicate, Text, Ensures, arith,
}
use sysopy_all.Calculator.Message.{OperationMessage, serialized_operation_message}
use sysopy_all.Calculator.Descriptors.{check_doubles, forget, choose}
use sysopy_all.Calculator.Server.{
  Server, Event, again, closed, network, choosing, writing, run, handle_event,
  network_thread_function, choose_client, write_message,
}
use sysopy_all.Calculator.Server.Capacity.{Grows, clients_after, network_thread_function-Grows}
use sysopy_all.Calculator.Server.Open.Writes.{SentWell, sends_to_open}

abbrev started : Server
started = record {
  sfd = 3;
  client_descriptors = replicate 20 0;
  client_count = 0;
  monitored = 3 ∷ [];
  output = [];
  sent = [];
  chosen = none;
}

abbrev connecting : Event
connecting = record {
  fd = 3;
  epollerr = false;
  epollhup = false;
  epollin = true;
  accepts = record { infd = 5; named = true } ∷ record { infd = 6; named = true } ∷ [];
  reads = [];
  last = again;
}

abbrev leaving : Event
leaving = record {
  fd = 5;
  epollerr = false;
  epollhup = false;
  epollin = true;
  accepts = [];
  reads = (65 ∷ []) ∷ [];
  last = closed;
}

abbrev plus : OperationMessage
plus = record { operation = 43 ∷ []; first_argument = 49 ∷ []; second_argument = 50 ∷ [] }

left_over :
    Option.map {B = List (ℕ × Text) × ℕ}
      (λ s. (s.sent, s.client_count))
      (run
        (network connecting ∷ network leaving ∷ choosing plus (0 ∷ 1 ∷ []) ∷ writing ∷ [])
        started)
    ≡ some ((6, serialized_operation_message plus) ∷ [], 2)
unfolding run handle_event choose_client write_message choose forget check_doubles
left_over = refl

doubles : check_doubles (5 ∷ 6 ∷ 5 ∷ 0 ∷ 6 ∷ []) ≡ 5 ∷ 6 ∷ 0 ∷ 0 ∷ 0 ∷ []
unfolding check_doubles
doubles = refl

network_thread_function-Grows_example :
    Grows 20 3
      (clients_after 3 (connecting ∷ leaving ∷ []) [])
      (network_thread_function (connecting ∷ leaving ∷ []) started)
network_thread_function-Grows_example =
    network_thread_function-Grows 20 (connecting ∷ leaving ∷ []) started []
      (record { free = 20; table = refl; client_count = refl; size_lem = refl })

clients_left : clients_after 3 (connecting ∷ leaving ∷ []) [] ≡ 0 ∷ 6 ∷ []
unfolding forget
clients_left = refl

sends_to_open_example : Ensures (SentWell (leaving ∷ [])) (
    ((run (network connecting ∷ []) started >>= choose_client plus (1 ∷ []))
      >>= network_thread_function (leaving ∷ []))
    >>= write_message)
sends_to_open_example =
    sends_to_open (network connecting ∷ []) plus (1 ∷ []) (leaving ∷ []) started (refl, tt)
      (refl, tt) (ground arith)

-- The connection that was chosen ends before the write, which goes to it all the same.
sent_to_ended :
    Option.map {B = List (ℕ × Text) × List ℕ}
      (λ s. (s.sent, s.monitored))
      (run (network connecting ∷ choosing plus (0 ∷ []) ∷ network leaving ∷ writing ∷ []) started)
    ≡ some ((5, serialized_operation_message plus) ∷ [], 6 ∷ 3 ∷ [])
unfolding run handle_event choose_client write_message choose forget check_doubles
sent_to_ended = refl
