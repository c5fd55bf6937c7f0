-- ===== src/MessageServer/Capacity.antt =====
-- The server goes on while its clients fit, and numbers them.
use sysopy_all.Base.{
  ℕ, zero, suc, ◌+◌, ◌≤◌, ◌≡◌, refl, ap, ◌∙◌, Returns, Returns-bind, Returns-both, Returns-mono,
  List, [], ◌∷◌, ◌++◌, Text, arith, lt→ltb,
}
use sysopy_all.MessageServer.{
  Message, Request, echo, uppercase, get_time, terminate, new_client, wrong, request_of,
  ServerState, ServerTurn, waits, exits, overruns, ends, goes, upper, answer, number_client, handle,
  receive, server_turn, Event, send, take_first, turn, Net, after_turn, take_message, happen,
  happen_all, opened_net,
}
use sysopy_all.MessageServer.Answers.Kept.{AllAnswering, Turned, receive-Turned, answers_only}

-- A request after which the server goes on.
abbrev pub IsPlain : Request → Type 0
IsPlain terminate = ⊥
IsPlain wrong = ⊥
IsPlain _ = Unit

abbrev is_new : Request → ℕ
is_new new_client = 1
is_new _ = 0

abbrev news : List Message → ℕ
news [] = 0
news (m ∷ ms) = is_new (request_of m.mtype) + news ms

abbrev AllPlain : List Message → Type 0
AllPlain [] = Unit
AllPlain (m ∷ ms) = IsPlain (request_of m.mtype) × AllPlain ms

-- All that clients send is plain.
abbrev pub PlainEvents : List Event → Type 0
PlainEvents [] = Unit
PlainEvents (send m ∷ es) = IsPlain (request_of m.mtype) × PlainEvents es
PlainEvents (take_first ∷ es) = PlainEvents es
PlainEvents (turn time ∷ es) = PlainEvents es

-- How many clients send their queue.
abbrev pub new_clients : List Event → ℕ
new_clients [] = 0
new_clients (send m ∷ es) = is_new (request_of m.mtype) + new_clients es
new_clients (take_first ∷ es) = new_clients es
new_clients (turn time ∷ es) = new_clients es

abbrev pub ids : List (ℕ × ℕ) → List ℕ
ids [] = []
ids ((client, id) ∷ rest) = id ∷ ids rest

-- 0, 1, ... below the bound.
abbrev pub up_to : ℕ → List ℕ
up_to zero = []
up_to (suc n) = up_to n ++ (n ∷ [])

-- With `room` clients still to come.
record Fits (room : ℕ) (s : ServerState) : Type 0 where
  plain : AllPlain s.queue
  fits : s.tmp_client_id + news s.queue + room ≤ 10
  numbered : ids s.sent ≡ up_to s.tmp_client_id

news-append :
    (ms : List Message) (m : Message)
    → news (ms ++ (m ∷ [])) ≡ news ms + is_new (request_of m.mtype)
news-append [] m = omega arith
news-append (q ∷ ms) m = omega (arith, news-append ms m)

AllPlain-append :
    (ms : List Message) (m : Message)
    → AllPlain ms
    → IsPlain (request_of m.mtype)
    → AllPlain (ms ++ (m ∷ []))
AllPlain-append [] m a p = (p, tt)
AllPlain-append (q ∷ ms) m (a, as') p = (a, AllPlain-append ms m as' p)

ids-append : (xs : List (ℕ × ℕ)) (c i : ℕ) → ids (xs ++ ((c, i) ∷ [])) ≡ ids xs ++ (i ∷ [])
ids-append [] c i = refl
ids-append ((d, j) ∷ xs) c i = ap (λ ys. j ∷ ys) (ids-append xs c i)

-- The server goes on, and there is room.
abbrev GoesOn : ℕ → ServerTurn → Type 0
GoesOn room (goes s) = Fits room s
GoesOn room waits = Unit
GoesOn room _ = ⊥

answer-Fits :
    (room : ℕ) (s : ServerState) (m : Message)
    → IsPlain (request_of m.mtype)
    → Fits (is_new (request_of m.mtype) + room) s
    → Fits room (answer s m)
answer-Fits room s m p h = record {
  plain = AllPlain-append s.queue m h.plain p;
  fits = omega (arith, h.fits, news-append s.queue m);
  numbered = h.numbered;
}

number_client-GoesOn :
    (room : ℕ) (s : ServerState) (client : ℕ)
    → Fits (1 + room) s
    → GoesOn room (number_client s client)
number_client-GoesOn room s client h =
    rw (lt→ltb s.tmp_client_id 10 (omega (arith, h.fits))) (record {
      plain = h.plain;
      fits = omega (arith, h.fits);
      numbered =
          ids-append s.sent client s.tmp_client_id
          ∙ ap (λ is. is ++ (s.tmp_client_id ∷ [])) h.numbered;
    })

handle-GoesOn :
    (room : ℕ) (time : Text) (k : Request) (m : Message) (s : ServerState)
    → request_of m.mtype ≡ k
    → IsPlain k
    → Fits (is_new k + room) s
    → GoesOn room (handle time k m s)
unfolding handle
handle-GoesOn room time echo m s e p h = answer-Fits room s m (rw e tt) (rw e h)
handle-GoesOn room time uppercase m s e p h =
    answer-Fits room s (record m { message = upper m.message }) (rw e tt) (rw e h)
handle-GoesOn room time get_time m s e p h =
    answer-Fits room s (record m { message = time }) (rw e tt) (rw e h)
handle-GoesOn room time new_client m s e p h = number_client-GoesOn room s m.id h
handle-GoesOn room time terminate m s e p h = p
handle-GoesOn room time wrong m s e p h = p

receive-GoesOn :
    (room : ℕ) (time : Text) (s : ServerState) (ms : List Message)
    → s.queue ≡ ms
    → Fits room s
    → GoesOn room (receive time s ms)
receive-GoesOn room time s [] e h = tt
receive-GoesOn room time s (m ∷ ms) e h =
    let (p, ps) : AllPlain (m ∷ ms) = rw e at h.plain in
    handle-GoesOn room time (request_of m.mtype) m (record s { queue = ms }) refl p
      (record { plain = ps; fits = omega (arith, h.fits, ap news e); numbered = h.numbered })

after_turn-Fits :
    (room : ℕ) (n : Net) (t : ServerTurn)
    → Fits room n.server
    → GoesOn room t
    → Returns (λ n'. Fits room n'.server) (after_turn n t)
after_turn-Fits room n waits h g = h
after_turn-Fits room n (goes s) h g = g
after_turn-Fits room n exits h g = g
after_turn-Fits room n overruns h g = g
after_turn-Fits room n (ends s) h g = g

take_message-Fits :
    (room : ℕ) (n : Net) (ms : List Message)
    → n.server.queue ≡ ms
    → Fits room n.server
    → Fits room (take_message n ms).server
take_message-Fits room n [] e h = h
take_message-Fits room n (m ∷ ms) e h =
    let (p, ps) : AllPlain (m ∷ ms) = rw e at h.plain in
    record { plain = ps; fits = omega (arith, h.fits, ap news e); numbered = h.numbered }

happen_all-Fits :
    (es : List Event) (n : Net)
    → PlainEvents es
    → Fits (new_clients es) n.server
    → Returns (λ n'. Fits 0 n'.server) (happen_all es n)
unfolding happen_all happen server_turn
happen_all-Fits [] n p h = h
happen_all-Fits (send m ∷ es) n (p, ps) h =
    happen_all-Fits es (record n { server = answer n.server m; requests = n.requests ++ (m ∷ []) })
      ps (answer-Fits (new_clients es) n.server m p h)
happen_all-Fits (take_first ∷ es) n ps h =
    happen_all-Fits es (take_message n n.server.queue) ps
      (take_message-Fits (new_clients es) n n.server.queue refl h)
happen_all-Fits (turn time ∷ es) n' ps h =
    let n = record n' { times = time ∷ n'.times } in
    Returns-bind (λ n'. Fits (new_clients es) n'.server) (λ n'. Fits 0 n'.server)
      (after_turn n (receive time n.server n.server.queue)) (happen_all es)
      (after_turn-Fits (new_clients es) n (receive time n.server n.server.queue) h
        (receive-GoesOn (new_clients es) time n.server n.server.queue refl h))
      (λ u h'. happen_all-Fits es u ps h')

-- A turn ends by waiting for a message or by going on.
abbrev pub Continues : ServerTurn → Type 0
Continues waits = Unit
Continues (goes s) = Unit
Continues _ = ⊥

GoesOn-Continues : (t : ServerTurn) → GoesOn 0 t → Continues t
GoesOn-Continues waits h = tt
GoesOn-Continues (goes s) h = tt
GoesOn-Continues exits h = h
GoesOn-Continues overruns h = h
GoesOn-Continues (ends s) h = h

-- What holds after the events, with one more turn.
abbrev pub Served : Text → Net → Type 0
Served time n =
    (ids n.server.sent ≡ up_to n.server.tmp_client_id)
    × AllAnswering n
    × Continues (server_turn time n.server)
    × Turned time n.requests n.server.queue (server_turn time n.server)

Fits-Served : (time : Text) (n : Net) → Fits 0 n.server → AllAnswering n → Served time n
unfolding server_turn
Fits-Served time n f a = (
  f.numbered,
  a,
  GoesOn-Continues (receive time n.server n.server.queue)
      (receive-GoesOn 0 time n.server n.server.queue refl f),
  receive-Turned time n.times n.server n.server.queue n.requests a.0,
)

-- Whatever clients send and take, and however often the server takes its own answers from the queue, if
-- all requests are of the types 1, 2, 3 and 5 and at most 10 clients register: the server goes on, and
-- the clients were sent the ids 0, 1, and so on, in this order. Each message in the queue, and each that
-- a client has taken, is a request as it was sent, or the answer to one: the type and the id of the
-- request, with its text, with its text in upper case, or with the time of one of the server's turns. The
-- next turn waits on an empty queue; otherwise it takes the first message and puts to the end of the queue
-- the answer, never a request, to one that was sent, with the time of this turn where that was asked for,
-- unless it has taken the message of a new client.
pub serves_clients :
    (es : List Event) (time : Text)
    → PlainEvents es
    → new_clients es ≤ 10
    → Returns (Served time) (happen_all es opened_net)
serves_clients es time p h =
    Returns-mono (λ n. Fits 0 n.server × AllAnswering n) (Served time) (happen_all es opened_net)
      (λ n (f, a). Fits-Served time n f a)
      (Returns-both (λ n. Fits 0 n.server) AllAnswering (happen_all es opened_net)
        (happen_all-Fits es opened_net p
          (record { plain = tt; fits = omega arith; numbered = refl }))
        (answers_only es))
