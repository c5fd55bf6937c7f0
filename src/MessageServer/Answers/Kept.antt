-- ===== src/MessageServer/Answers/Kept.antt =====
-- However often the server takes its own answers, a client gets the answer to a request or a request.
use sysopy_all.Base.{
  ◌≡◌, refl, sym, ap, ◌⊎◌, inl, inr, Ensures, Ensures-bind, subst, List, [], ◌∷◌, ◌++◌, Text,
  Bool-cases, ltb,
}
use sysopy_all.MessageServer.{
  Message, Request, echo, uppercase, get_time, terminate, new_client, wrong, request_of,
  ServerState, ServerTurn, waits, exits, overruns, ends, goes, handle, receive, server_turn, Event,
  send, take_first, turn, Net, after_turn, take_message, happen, happen_all, opened_net,
}
use sysopy_all.MessageServer.Answers.{
  AnswersOne, Asked, AllAsked, Asked-last, AllAsked-later, AllAsked-more, AllAsked-last,
  AnswersOne-Asked, reply, reply-AnswersOne,
}

-- What a turn of the server does with its queue, if the server goes on: the first message goes, and the
-- answer to a request comes to the end, unless it was of a new client.
abbrev pub Turned : Text → List Message → List Message → ServerTurn → Type 0
Turned time rs (m ∷ ms) (goes s) =
    ((request_of m.mtype ≡ new_client) × (s.queue ≡ ms))
    ⊎ ((m' : Message) × (s.queue ≡ ms ++ (m' ∷ [])) × AnswersOne (time ∷ []) rs m')
Turned time rs (m ∷ ms) waits = ⊥
Turned time rs [] (goes s) = ⊥
Turned time rs queue _ = Unit

handle-Turned :
    (time : Text) (times : List Text) (k : Request) (m : Message) (ms : List Message)
    (s : ServerState) (rs : List Message)
    → request_of m.mtype ≡ k
    → s.queue ≡ ms
    → Asked times rs m
    → Turned time rs (m ∷ ms) (handle time k m s)
unfolding handle
handle-Turned time times echo m ms s rs e q a =
    inr (m, ap (λ u. u ++ (m ∷ [])) q, reply-AnswersOne time times echo rs m e a)
handle-Turned time times uppercase m ms s rs e q a =
    let m' = reply time uppercase m in
    inr (m', ap (λ u. u ++ (m' ∷ [])) q, reply-AnswersOne time times uppercase rs m e a)
handle-Turned time times get_time m ms s rs e q a =
    let m' = reply time get_time m in
    inr (m', ap (λ u. u ++ (m' ∷ [])) q, reply-AnswersOne time times get_time rs m e a)
handle-Turned time times terminate m ms s rs e q a = tt
handle-Turned time times new_client m ms s rs e q a = elim (Bool-cases (ltb s.tmp_client_id 10)) [
  | inl b ↦ rw b (inl (e, q))
  | inr b ↦ rw b tt
]
handle-Turned time times wrong m ms s rs e q a = tt

pub receive-Turned :
    (time : Text) (times : List Text) (s : ServerState) (ms rs : List Message)
    → AllAsked times rs ms
    → Turned time rs ms (receive time s ms)
receive-Turned time times s [] rs h = tt
receive-Turned time times s (m ∷ ms) rs (a, h) =
    handle-Turned time times (request_of m.mtype) m ms (record s { queue = ms }) rs refl refl a

-- What a turn leaves in the queue, if the server goes on.
abbrev Kept : List Text → List Message → ServerTurn → Type 0
Kept times rs (goes s) = AllAsked times rs s.queue
Kept times rs _ = Unit

Turned-Kept :
    (time : Text) (times : List Text) (ms rs : List Message) (t : ServerTurn)
    → AllAsked times rs ms
    → Turned time rs ms t
    → Kept (time ∷ times) rs t
Turned-Kept time times ms rs waits h d = tt
Turned-Kept time times ms rs exits h d = tt
Turned-Kept time times ms rs overruns h d = tt
Turned-Kept time times ms rs (ends s) h d = tt
Turned-Kept time times [] rs (goes s) h d = absurd d
Turned-Kept time times (m ∷ ms) rs (goes s) (a, h) (inl (e, q)) =
    subst (AllAsked (time ∷ times) rs) (sym q) (AllAsked-later time times rs ms h)
Turned-Kept time times (m ∷ ms) rs (goes s) (a, h) (inr (m', q, x)) =
    subst (AllAsked (time ∷ times) rs) (sym q) (
      AllAsked-last (time ∷ times) rs ms m' (AllAsked-later time times rs ms h)
        (AnswersOne-Asked time times rs m' x))

-- All that is in the queue and all that clients have taken.
abbrev pub AllAnswering : Net → Type 0
AllAnswering n = AllAsked n.times n.requests n.server.queue × AllAsked n.times n.requests n.taken

after_turn-AllAnswering :
    (n : Net) (t : ServerTurn)
    → AllAnswering n
    → Kept n.times n.requests t
    → Ensures AllAnswering (after_turn n t)
after_turn-AllAnswering n waits h k = h
after_turn-AllAnswering n exits h k = tt
after_turn-AllAnswering n overruns h k = tt
after_turn-AllAnswering n (ends s) h k = tt
after_turn-AllAnswering n (goes s) (h, g) k = (k, g)

take_message-AllAnswering :
    (n : Net) (ms : List Message)
    → AllAsked n.times n.requests ms
    → AllAnswering n
    → AllAnswering (take_message n ms)
take_message-AllAnswering n [] a h = h
take_message-AllAnswering n (m ∷ ms) (a, as') (h, g) =
    (as', AllAsked-last n.times n.requests n.taken m g a)

happen-AllAnswering : (e : Event) (n : Net) → AllAnswering n → Ensures AllAnswering (happen e n)
unfolding happen server_turn
happen-AllAnswering (send m) n (h, g) = (
  AllAsked-last n.times (n.requests ++ (m ∷ [])) n.server.queue m
      (AllAsked-more n.times n.requests m n.server.queue h) (Asked-last n.times n.requests m),
  AllAsked-more n.times n.requests m n.taken g,
)
happen-AllAnswering take_first n h = take_message-AllAnswering n n.server.queue h.0 h
happen-AllAnswering (turn time) n (h, g) =
    after_turn-AllAnswering (record n { times = time ∷ n.times })
      (receive time n.server n.server.queue)
      (
        AllAsked-later time n.times n.requests n.server.queue h,
        AllAsked-later time n.times n.requests n.taken g,
      )
      (Turned-Kept time n.times n.server.queue n.requests (receive time n.server n.server.queue) h
        (receive-Turned time n.times n.server n.server.queue n.requests h))

happen_all-AllAnswering :
    (es : List Event) (n : Net) → AllAnswering n → Ensures AllAnswering (happen_all es n)
unfolding happen_all
happen_all-AllAnswering [] n h = h
happen_all-AllAnswering (e ∷ es) n h =
    Ensures-bind AllAnswering AllAnswering (happen e n) (happen_all es) (happen-AllAnswering e n h)
      (λ n' h'. happen_all-AllAnswering es n' h')

-- While the server goes on, whatever clients send and take, and however often the server takes its own
-- answers from the queue: each message in the queue, and each that a client takes, is a request that was
-- sent, as it was sent, or the answer to one.
pub answers_only : (es : List Event) → Ensures AllAnswering (happen_all es opened_net)
answers_only es = happen_all-AllAnswering es opened_net (tt, tt)
