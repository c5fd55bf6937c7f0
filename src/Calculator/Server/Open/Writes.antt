-- ===== src/Calculator/Server/Open/Writes.antt =====
-- Where the computing thread writes, with events between its choice and its write.
use sysopy_all.Base.{
  ℕ, ◌≡◌, refl, ◌≢◌, true, ◌⊎◌, inl, inr, Option, none, some, ◌>>=◌, List, [], ◌∷◌, Text, ◌==◌,
  Bool-cases, arith, Ensures, Ensures-bind, ap, ◌∙◌, ltb, length, Ensures-mono, ◌++◌,
}
use sysopy_all.Calculator.Message.{OperationMessage}
use sysopy_all.Calculator.Server.{
  Server, Accepted, Event, add_client, accept_one, accept_all, read_all, is_done, hang_up, close,
  handle_event, network_thread_function, choose_client, write_message, Action, network, run,
}
use sysopy_all.Calculator.Server.Open.{
  contains, contains-remove, AllInput, IsInput, TableOpen, ChosenOpen, choose_client-Open,
  run-TableOpen,
}

-- One of the events ends the connection.
abbrev pub Ended : ℕ → List Event → Type 0
Ended fd [] = ⊥
Ended fd (e ∷ es) = ((e.fd ≡ fd) × (is_done e.last ≡ true)) ⊎ Ended fd es

abbrev pub InputEvents : List Event → Type 0
InputEvents [] = Unit
InputEvents (e ∷ es) = IsInput (network e) × InputEvents es

-- The choice stands, and its connection is watched or something else holds.
abbrev Standing : ℕ → Text → Type 0 → Server → Type 0
Standing fd text E s = (s.chosen ≡ some (fd, text)) × ((contains fd s.monitored ≡ true) ⊎ E)

watch-Standing :
    (E : Type 0) (fd infd : ℕ) (text : Text) (s t : Server)
    → t.chosen ≡ s.chosen
    → t.monitored ≡ infd ∷ s.monitored
    → Standing fd text E s
    → Standing fd text E t
watch-Standing E fd infd text s t e m (c, inr x) = (e ∙ c, inr x)
watch-Standing E fd infd text s t e m (c, inl w) = (e ∙ c, inl (ap (contains fd) m ∙ more))
  where
    more : contains fd (infd ∷ s.monitored) ≡ true
    more = ground (arith, w)

accept_one-chosen :
    (a : Accepted) (s : Server)
    → Ensures (λ t. (t.chosen ≡ s.chosen) × (t.monitored ≡ a.infd ∷ s.monitored)) (accept_one a s)
unfolding accept_one add_client
accept_one-chosen a s = elim (Bool-cases a.named) [
  | inr t ↦ rw t (refl, refl)
  | inl t ↦ elim (Bool-cases (ltb s.client_count (length s.client_descriptors))) [
    | inl u ↦ rw (t, u) (refl, refl)
    | inr u ↦ rw (t, u) tt
  ]
]

accept_all-Standing :
    (E : Type 0) (fd : ℕ) (text : Text) (as' : List Accepted) (s : Server)
    → Standing fd text E s
    → Ensures (Standing fd text E) (accept_all as' s)
unfolding accept_all
accept_all-Standing E fd text [] s h = h
accept_all-Standing E fd text (a ∷ as') s h =
    Ensures-bind _ _ (accept_one a s) _ (accept_one-chosen a s)
      (λ t (e, m). accept_all-Standing E fd text as' t (watch-Standing E fd a.infd text s t e m h))

read_all-Standing :
    (E : Type 0) (fd : ℕ) (text : Text) (reads : List Text) (s : Server)
    → Standing fd text E s
    → Standing fd text E (read_all reads s)
unfolding read_all
read_all-Standing E fd text [] s h = h
read_all-Standing E fd text (r ∷ reads) s h =
    read_all-Standing E fd text reads (record s { output = s.output ++ r }) h

-- The event ends the connection.
abbrev Ends : ℕ → Event → Type 0
Ends fd e = (e.fd ≡ fd) × (is_done e.last ≡ true)

hang_up-Standing :
    (E : Type 0) (fd : ℕ) (text : Text) (e : Event) (s : Server)
    → is_done e.last ≡ true
    → Standing fd text E s
    → Standing fd text (Ends fd e ⊎ E) (hang_up e.fd s)
unfolding hang_up close
hang_up-Standing E fd text e s d (c, inr x) = (c, inr (inr x))
hang_up-Standing E fd text e s d (c, inl w) = elim (Bool-cases (e.fd == fd)) [
  | inl t ↦ (c, inr (inl (ground (arith, t), d)))
  | inr t ↦ (c, inl (contains-remove fd e.fd s.monitored (ground (arith, t)) w))
]

more-Standing :
    (E F : Type 0) (fd : ℕ) (text : Text) (s : Server)
    → (E → F)
    → Standing fd text E s
    → Standing fd text F s
more-Standing E F fd text s f (c, inl w) = (c, inl w)
more-Standing E F fd text s f (c, inr x) = (c, inr (f x))

handle_event-Standing :
    (E F : Type 0) (fd : ℕ) (text : Text) (e : Event) (s : Server)
    → IsInput (network e)
    → (Ends fd e ⊎ E → F)
    → Standing fd text E s
    → Ensures (Standing fd text F) (handle_event e s)
unfolding handle_event
handle_event-Standing E F fd text e s i f h =
    let more = more-Standing E F fd text s (λ x. f (inr x)) h in
    elim (Bool-cases (s.sfd == e.fd)) [
      | inl u ↦ rw (i, u) (accept_all-Standing F fd text e.accepts s more)
      | inr u ↦ elim (Bool-cases (is_done e.last)) [
        | inl v ↦
            rw (i, u, v)
              (more-Standing (Ends fd e ⊎ E) F fd text (hang_up e.fd (read_all e.reads s)) f (
                hang_up-Standing E fd text e (read_all e.reads s) v
                  (read_all-Standing E fd text e.reads s h)))
        | inr v ↦ rw (i, u, v) (read_all-Standing F fd text e.reads s more)
      ]
    ]

network_thread_function-Standing :
    (E : Type 0) (fd : ℕ) (text : Text) (es : List Event) (s : Server)
    → InputEvents es
    → Standing fd text E s
    → Ensures (Standing fd text (Ended fd es ⊎ E)) (network_thread_function es s)
unfolding network_thread_function
network_thread_function-Standing E fd text [] s i h =
    more-Standing E (⊥ ⊎ E) fd text s (λ x. inr x) h
network_thread_function-Standing E fd text (e ∷ es) s (i, is) h =
    Ensures-bind (Standing fd text (Ends fd e ⊎ E)) _ (handle_event e s) _
      (handle_event-Standing E (Ends fd e ⊎ E) fd text e s i (λ x. x) h)
      (λ t k.
        Ensures-mono _ _ (network_thread_function es t)
          (λ u l.
            more-Standing (Ended fd es ⊎ (Ends fd e ⊎ E)) (Ended fd (e ∷ es) ⊎ E) fd text u move l)
          (network_thread_function-Standing (Ends fd e ⊎ E) fd text es t is k))
  where
    move : Ended fd es ⊎ (Ends fd e ⊎ E) → Ended fd (e ∷ es) ⊎ E
    move (inl x) = inl (inr x)
    move (inr (inl x)) = inl (inl x)
    move (inr (inr x)) = inr x

-- The last message was sent to a connection that is watched, or that one of the events has ended.
abbrev pub SentWell : List Event → Server → Type 0
SentWell es t = elim t.sent [
  | [] ↦ ⊥
  | (fd, text) ∷ rest ↦ (fd ≢ 0) × ((contains fd t.monitored ≡ true) ⊎ Ended fd es)
]

write_message-SentWell :
    (fd : ℕ) (text : Text) (es : List Event) (s : Server)
    → fd ≢ 0
    → Standing fd text (Ended fd es ⊎ ⊥) s
    → Ensures (SentWell es) (write_message s)
unfolding write_message
write_message-SentWell fd text es s ne (c, inl w) = rw c (ne, inl w)
write_message-SentWell fd text es s ne (c, inr (inl x)) = rw c (ne, inr x)
write_message-SentWell fd text es s ne (c, inr (inr x)) = absurd x

write_after :
    (es : List Event) (c : Option (ℕ × Text)) (s : Server)
    → s.chosen ≡ c
    → ChosenOpen c s.monitored
    → InputEvents es
    → Ensures (SentWell es) (network_thread_function es s >>= write_message)
write_after es none s e h i = absurd h
write_after es (some (fd, text)) s e (ne, w) i =
    Ensures-bind _ _ (network_thread_function es s) _
      (network_thread_function-Standing ⊥ fd text es s i (e, inl w))
      (λ t k. write_message-SentWell fd text es t ne k)

-- With each event, choice and write done as a whole: from a table that holds only watched connections,
-- after any events for input and any choices and
-- writes of the computing thread, in any order: where the thread chooses a client, and the events given
-- for input come before it writes, it writes to a connection that epoll watches, or to one that one of
-- these events has ended, never to descriptor 0. With no events between, it writes to a watched one.
pub sends_to_open :
    (as' : List Action) (m : OperationMessage) (rand : List ℕ) (es : List Event) (s : Server)
    → AllInput as'
    → InputEvents es
    → TableOpen s
    → Ensures
        (SentWell es)
        (((run as' s >>= choose_client m rand) >>= network_thread_function es) >>= write_message)
sends_to_open as' m rand es s i is h = bind_assoc (run as' s >>= choose_client m rand) (
    Ensures-bind TableOpen _ (run as' s) _ (run-TableOpen as' s i h)
      (λ t k. choose_client-Open m rand t k))
  where
    bind_assoc :
        (o : Option Server)
        → Ensures (λ t. ChosenOpen t.chosen t.monitored × TableOpen t) o
        → Ensures (SentWell es) ((o >>= network_thread_function es) >>= write_message)
    bind_assoc none k = tt
    bind_assoc (some t) (c, k) = write_after es t.chosen t refl c is
