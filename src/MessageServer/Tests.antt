-- ===== src/MessageServer/Tests.antt =====
-- A client that registers and asks twice.
use sysopy_all.Base.{◌≡◌, ◌≤◌, refl, arith, Returns, some, none, false, List, [], ◌∷◌}
use sysopy_all.MessageServer.{
  Message, Event, send, take_first, turn, happen_all, server_turn, request_of, opened_net,
}
use sysopy_all.MessageServer.Capacity.{PlainEvents, new_clients, Served, serves_clients}

abbrev registration : Message
registration = record { mtype = 5; id = 77; message = [] }

abbrev request : Message
request = record { mtype = 2; id = 4; message = b'a' ∷ b'b' ∷ [] }

-- The server takes its own answer once, before the client does.
abbrev events : List Event
events = send registration ∷ turn [] ∷ send request ∷ turn [] ∷ turn [] ∷ take_first ∷ []

events-taken :
    happen_all events opened_net
    ≡ some (record {
      server = record { queue = []; tmp_client_id = 1; sent = (77, 0) ∷ []; shutdown = false };
      requests = registration ∷ request ∷ [];
      taken = record { mtype = 2; id = 4; message = b'A' ∷ b'B' ∷ [] } ∷ [];
      times = [] ∷ [] ∷ [] ∷ [];
    })
unfolding happen_all server_turn request_of
events-taken = refl

-- Client 11 is written past the end of `client_ids`.
abbrev eleven : List Event
eleven =
    send registration
    ∷ turn []
    ∷ send registration
    ∷ turn []
    ∷ send registration
    ∷ turn []
    ∷ send registration
    ∷ turn []
    ∷ send registration
    ∷ turn []
    ∷ send registration
    ∷ turn []
    ∷ send registration
    ∷ turn []
    ∷ send registration
    ∷ turn []
    ∷ send registration
    ∷ turn []
    ∷ send registration
    ∷ turn []
    ∷ send registration
    ∷ turn []
    ∷ []

eleven-stop : happen_all eleven opened_net ≡ none
unfolding happen_all server_turn request_of
eleven-stop = refl

events-Plain : PlainEvents events × (new_clients events ≤ 10)
unfolding request_of
events-Plain = ((tt, (tt, tt)), omega arith)

serves_clients_example : Returns (Served (b'9' ∷ [])) (happen_all events opened_net)
serves_clients_example = serves_clients events (b'9' ∷ []) events-Plain.0 events-Plain.1
