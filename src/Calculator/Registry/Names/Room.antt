-- ===== src/Calculator/Registry/Names/Room.antt =====
-- The network thread goes on while its tables have room.
use sysopy_all.Base.{
  ℕ, suc, ◌+◌, ◌≤◌, ◌<◌, ◌≡◌, Option, none, some, true, List, [], ◌∷◌, ◌==◌, length, length-set,
  Text, Bool-cases, inl, inr, arith, Returns, Returns-bind, Ensures,
}
use sysopy_all.Calculator.Registry.{
  Registry, register, read_all, Event, close, accept_all, hang_up, read_connection, handle_event,
  network_thread_function, max_client_name_length,
}
use sysopy_all.Calculator.Registry.Names.{
  Inv, registered, has_room, length-forget, network_thread_function-distinct,
}

-- The names that are read fit the places of the table.
abbrev pub AllShort : List Text → Type 0
AllShort [] = Unit
AllShort (buf ∷ reads) = (length buf < max_client_name_length) × AllShort reads

abbrev pub AllEventsShort : List Event → Type 0
AllEventsShort [] = Unit
AllEventsShort (e ∷ es) = AllShort e.reads × AllEventsShort es

-- A place for each event and each of its reads.
abbrev pub places : List Event → ℕ
places [] = 0
places (e ∷ es) = suc (length e.reads) + places es

-- Both tables have room for `k` more names.
pub record Room (k : ℕ) (s : Registry) : Type 0 where
  pub names : s.client_count + k ≤ length s.clients_names
  pub descriptors : s.client_count + k ≤ length s.client_descriptors

Room-less : (j k : ℕ) (s : Registry) → j ≤ k → Room k s → Room j s
Room-less j k s h r = record {
  names = omega (arith, h, r.names);
  descriptors = omega (arith, h, r.descriptors);
}

register-Room :
    (fd k : ℕ) (buf : Text) (s : Registry)
    → length buf < max_client_name_length
    → Room (suc k) s
    → Returns (Room k) (register fd buf s)
unfolding register
register-Room fd k buf s l r = elim (Bool-cases (registered buf s)) [
  | inl t ↦ rw t (Room-less k (suc k) s (omega arith) r)
  | inr t ↦
      rw (t, room)
        (record {
          names = omega (arith, r.names, length-set s.clients_names s.client_count buf);
          descriptors =
              omega (arith, r.descriptors, length-set s.client_descriptors s.client_count fd);
        })
]
  where
    room : has_room buf s ≡ true
    room = ground (arith, l, r.names, r.descriptors)

read_all-Room :
    (fd k : ℕ) (reads : List Text) (s : Registry)
    → AllShort reads
    → Room (length reads + k) s
    → Returns (Room k) (read_all fd reads s)
unfolding read_all
read_all-Room fd k [] s l r = Room-less k (0 + k) s (omega arith) r
read_all-Room fd k (buf ∷ reads) s (l, ls) r =
    Returns-bind (Room (length reads + k)) (Room k) (register fd buf s) _
      (register-Room fd (length reads + k) buf s l
        (Room-less (suc (length reads + k)) (length (buf ∷ reads) + k) s (omega arith) r))
      (λ t q. read_all-Room fd k reads t ls q)

hang_up-Room : (fd k : ℕ) (s : Registry) → Room k s → Room k (hang_up fd s)
unfolding hang_up close
hang_up-Room fd k s r = record {
  names = r.names;
  descriptors = omega (arith, r.descriptors, length-forget fd s.client_descriptors);
}

accept_all-Room :
    (k : ℕ) (accepts : List ℕ) (s : Registry) → Room k s → Room k (accept_all accepts s)
unfolding accept_all
accept_all-Room k [] s r = r
accept_all-Room k (fd ∷ accepts) s r =
    accept_all-Room k accepts (record s { monitored = fd ∷ s.monitored })
      (record { names = r.names; descriptors = r.descriptors })

close-Room : (fd k : ℕ) (s : Registry) → Room k s → Room k (close fd s)
unfolding close
close-Room fd k s r = record { names = r.names; descriptors = r.descriptors }

read_connection-Room :
    (k : ℕ) (e : Event) (s : Registry)
    → AllShort e.reads
    → Room (length e.reads + suc k) s
    → Returns (Room k) (read_connection e s)
unfolding read_connection
read_connection-Room k e s l r =
    Returns-bind (Room (suc k)) (Room k) (read_all e.fd e.reads s) _
      (read_all-Room e.fd (suc k) e.reads s l r)
      (λ s1 r1.
        Returns-bind (Room k) (Room k) (register e.fd [] s1) _
          (register-Room e.fd k [] s1 (omega arith) r1)
          (λ s2 r2. elim (Bool-cases e.done) [
            | inl t ↦ rw t (hang_up-Room e.fd k s2 r2)
            | inr t ↦ rw t r2
          ]))

handle_event-Room :
    (k : ℕ) (e : Event) (s : Registry)
    → AllShort e.reads
    → Room (suc (length e.reads) + k) s
    → Returns (Room k) (handle_event e s)
unfolding handle_event
handle_event-Room k e s l r =
    let less = Room-less k (suc (length e.reads) + k) s (omega arith) r in
    elim (Bool-cases e.bad) [
      | inl t ↦ rw t (close-Room e.fd k s less)
      | inr t ↦ elim (Bool-cases (s.sfd == e.fd)) [
        | inl u ↦ rw (t, u) (accept_all-Room k e.accepts s less)
        | inr u ↦
            rw (t, u)
              (read_connection-Room k e s l
                (Room-less (length e.reads + suc k) (suc (length e.reads) + k) s (omega arith) r))
      ]
    ]

network_thread_function-Room :
    (es : List Event) (s : Registry)
    → AllEventsShort es
    → Room (places es) s
    → Returns (Room 0) (network_thread_function es s)
unfolding network_thread_function
network_thread_function-Room [] s l r = r
network_thread_function-Room (e ∷ es) s (l, ls) r =
    Returns-bind (Room (places es)) (Room 0) (handle_event e s) _
      (handle_event-Room (places es) e s l r) (λ t q. network_thread_function-Room es t ls q)

Returns-Ensures-Inv : (o : Option Registry) → Returns (Room 0) o → Ensures Inv o → Returns Inv o
Returns-Ensures-Inv none r h = absurd r
Returns-Ensures-Inv (some s) r h = h

-- While both tables have a free place for each event and each of its reads, and all names that are read
-- fit their places, the network thread goes on without a write outside its tables, and never registers a
-- name twice.
pub network_thread_function-Inv :
    (es : List Event) (s : Registry)
    → AllEventsShort es
    → Room (places es) s
    → Inv s
    → Returns Inv (network_thread_function es s)
network_thread_function-Inv es s l r inv =
    Returns-Ensures-Inv (network_thread_function es s) (network_thread_function-Room es s l r)
      (network_thread_function-distinct es s inv)
