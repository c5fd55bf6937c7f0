-- ===== src/Calculator/Server/Capacity.antt =====
-- The table has a fixed number of places, and no place is used again.
use mathlib.Core.List.{append-nil, append_assoc}
use sysopy_all.Base.{
  ℕ, zero, suc, ◌+◌, ◌≤◌, ◌<◌, ◌≡◌, refl, sym, ap, ◌∙◌, ◌++◌, Text, ◌||◌, not, Option, none, some,
  ◌>>=◌, List, [], ◌∷◌, ltb, ◌==◌, if◌then◌else◌, length, length-append, set, set-append, subst,
  true, false, replicate, Bool-cases, inl, inr, arith,
}
use sysopy_all.Calculator.Descriptors.{forget}
use sysopy_all.Calculator.Server.{
  Server, Accepted, Event, add_client, accept_one, accept_all, read_all, is_done, hang_up, close,
  remove, handle_event, network_thread_function,
}

-- The connections with a name that an event brings.
abbrev pub named : List Accepted → List ℕ
named [] = []
named (a ∷ as') = let rest = named as' in if a.named then a.infd ∷ rest else rest

-- The clients as a list that grows: those that come are added at its end, and a 0 takes the place of
-- one whose connection has ended.
abbrev pub clients_after_event : ℕ → Event → List ℕ → List ℕ
clients_after_event sfd e clients =
    if e.epollerr || (e.epollhup || not e.epollin)
    then clients
    else if sfd == e.fd
    then clients ++ named e.accepts
    else if is_done e.last
    then forget e.fd clients
    else clients

abbrev pub clients_after : ℕ → List Event → List ℕ → List ℕ
clients_after sfd [] clients = clients
clients_after sfd (e ∷ es) clients = clients_after sfd es (clients_after_event sfd e clients)

-- The table of `size` places begins with these clients, and its other places are 0.
pub record Holds (size : ℕ) (s : Server) (clients : List ℕ) : Type 0 where
  pub free : ℕ
  pub table : s.client_descriptors ≡ clients ++ replicate free 0
  pub client_count : s.client_count ≡ length clients
  pub size_lem : length clients + free ≡ size

-- The server holds these clients, or there was an access outside the table, which has not so many places.
abbrev pub Grows : ℕ → ℕ → List ℕ → Option Server → Type 0
Grows size sfd clients (some t) = (t.sfd ≡ sfd) × Holds size t clients
Grows size sfd clients none = size < length clients

Grows-bind :
    (size sfd : ℕ) (clients more : List ℕ) (o : Option Server) (f : Server → Option Server)
    → Grows size sfd clients o
    → length clients ≤ length more
    → ((t : Server) → t.sfd ≡ sfd → Holds size t clients → Grows size sfd more (f t))
    → Grows size sfd more (o >>= f)
Grows-bind size sfd clients more none f h l k = omega arith
Grows-bind size sfd clients more (some t) f (e, h) l k = k t e h

length-replicate : (n x : ℕ) → length (replicate n x) ≡ n
length-replicate zero x = refl
length-replicate (suc n) x = ap suc (length-replicate n x)

watch-Holds :
    (size : ℕ) (s : Server) (clients fds : List ℕ)
    → Holds size s clients
    → Holds size (record s { monitored = fds }) clients
watch-Holds size s clients fds h = record {
  free = h.free;
  table = h.table;
  client_count = h.client_count;
  size_lem = h.size_lem;
}

add_client-Grows :
    (size fd : ℕ) (s : Server) (clients : List ℕ)
    → Holds size s clients
    → Grows size s.sfd (clients ++ (fd ∷ [])) (add_client fd s)
unfolding add_client
add_client-Grows size fd s clients h = go h.free h.table h.size_lem
  where
    go :
        (free : ℕ)
        → s.client_descriptors ≡ clients ++ replicate free 0
        → length clients + free ≡ size
        → Grows size s.sfd (clients ++ (fd ∷ [])) (add_client fd s)
    go zero t l = rw no_room (omega (arith, l, length-append clients (fd ∷ [])))
      where
        no_room : ltb s.client_count (length s.client_descriptors) ≡ false
        no_room = ground (arith, h.client_count, ap length t, length-append clients [])
    go (suc free) t l = rw room (
      refl,
      record {
        free = free;
        table =
            set_at s.client_descriptors s.client_count t h.client_count
            ∙ sym (append_assoc clients (fd ∷ []) (replicate free 0));
        client_count = omega (arith, h.client_count, length-append clients (fd ∷ []));
        size_lem = omega (arith, l, length-append clients (fd ∷ []));
      },
    )
      where
        room : ltb s.client_count (length s.client_descriptors) ≡ true
        room = ground (
          arith,
          h.client_count,
          ap length t,
          length-append clients (0 ∷ replicate free 0),
          length-replicate free 0,
        )

        set_at :
            (ds : List ℕ) (n : ℕ)
            → ds ≡ clients ++ (0 ∷ replicate free 0)
            → n ≡ length clients
            → set ds n fd ≡ clients ++ (fd ∷ replicate free 0)
        set_at ds n e k = rw e (set-append clients (0 ∷ replicate free 0) 0 n fd (omega (arith, k)))

accept_one-Grows :
    (size : ℕ) (a : Accepted) (s : Server) (clients : List ℕ)
    → Holds size s clients
    → Grows size s.sfd (clients ++ named (a ∷ [])) (accept_one a s)
unfolding accept_one
accept_one-Grows size a s clients h = elim (Bool-cases a.named) [
  | inl t ↦ rw t (
      Grows-bind size s.sfd (clients ++ (a.infd ∷ [])) (clients ++ (a.infd ∷ []))
        (add_client a.infd s) _ (add_client-Grows size a.infd s clients h) (omega arith)
        (λ u e g. (e, watch-Holds size u (clients ++ (a.infd ∷ [])) (a.infd ∷ u.monitored) g)))
  | inr t ↦ rw (t, append-nil clients) (refl, watch-Holds size s clients (a.infd ∷ s.monitored) h)
]

named-cons :
    (a : Accepted) (as' : List Accepted) (clients : List ℕ)
    → (clients ++ named (a ∷ [])) ++ named as' ≡ clients ++ named (a ∷ as')
named-cons a as' clients = elim (Bool-cases a.named) [
  | inl t ↦ rw t (append_assoc clients (a.infd ∷ []) (named as'))
  | inr t ↦ rw (t, append-nil clients) refl
]

accept_all-Grows :
    (size : ℕ) (as' : List Accepted) (s : Server) (clients : List ℕ)
    → Holds size s clients
    → Grows size s.sfd (clients ++ named as') (accept_all as' s)
unfolding accept_all
accept_all-Grows size [] s clients h = rw (append-nil clients) (refl, h)
accept_all-Grows size (a ∷ as') s clients h =
    let first = clients ++ named (a ∷ []) in
    rw⁻¹ (named-cons a as' clients) (
      Grows-bind size s.sfd first (first ++ named as') (accept_one a s) _
        (accept_one-Grows size a s clients h) (omega (arith, length-append first (named as')))
        (λ t e g. rw⁻¹ e (accept_all-Grows size as' t first g)))

length-forget : (fd : ℕ) (ds : List ℕ) → length (forget fd ds) ≡ length ds
unfolding forget
length-forget fd [] = refl
length-forget fd (d ∷ ds) = omega (arith, length-forget fd ds)

forget-free :
    (fd : ℕ) (clients : List ℕ) (free : ℕ)
    → forget fd (clients ++ replicate free 0) ≡ forget fd clients ++ replicate free 0
unfolding forget
forget-free fd [] zero = refl
forget-free fd [] (suc free) = ground (arith, forget-free fd [] free)
forget-free fd (d ∷ clients) free = rw (forget-free fd clients free) refl

-- The reads change only what is written out.
read_all-keeps :
    (reads : List Text) (s : Server)
    → read_all reads s ≡ record s { output = (read_all reads s).output }
unfolding read_all
read_all-keeps [] s = refl
read_all-keeps (r ∷ reads) s = read_all-keeps reads (record s { output = s.output ++ r })

read_all-Holds :
    (size : ℕ) (reads : List Text) (s : Server) (clients : List ℕ)
    → Holds size s clients
    → ((read_all reads s).sfd ≡ s.sfd) × Holds size (read_all reads s) clients
read_all-Holds size reads s clients h =
    let e = read_all-keeps reads s in
    (
      ap (λ t. t.sfd) e,
      record {
        free = h.free;
        table = ap (λ t. t.client_descriptors) e ∙ h.table;
        client_count = ap (λ t. t.client_count) e ∙ h.client_count;
        size_lem = h.size_lem;
      },
    )

hang_up-Holds :
    (size fd : ℕ) (s : Server) (clients : List ℕ)
    → Holds size s clients
    → Holds size (hang_up fd s) (forget fd clients)
unfolding hang_up close
hang_up-Holds size fd s clients h = record {
  free = h.free;
  table = ap (forget fd) h.table ∙ forget-free fd clients h.free;
  client_count = h.client_count ∙ sym (length-forget fd clients);
  size_lem = omega (arith, h.size_lem, length-forget fd clients);
}

handle_event-Grows :
    (size : ℕ) (e : Event) (s : Server) (clients : List ℕ)
    → Holds size s clients
    → Grows size s.sfd (clients_after_event s.sfd e clients) (handle_event e s)
unfolding handle_event close
handle_event-Grows size e s clients h =
    elim (Bool-cases (e.epollerr || (e.epollhup || not e.epollin))) [
      | inl t ↦ rw t (refl, watch-Holds size s clients (remove e.fd s.monitored) h)
      | inr t ↦ elim (Bool-cases (s.sfd == e.fd)) [
        | inl u ↦ rw (t, u) (accept_all-Grows size e.accepts s clients h)
        | inr u ↦
            let (same, g) = read_all-Holds size e.reads s clients h in
            elim (Bool-cases (is_done e.last)) [
              | inl v ↦ rw (t, u, v) (same, hang_up-Holds size e.fd (read_all e.reads s) clients g)
              | inr v ↦ rw (t, u, v) (same, g)
            ]
      ]
    ]

longer-event :
    (sfd : ℕ) (e : Event) (clients : List ℕ)
    → length clients ≤ length (clients_after_event sfd e clients)
longer-event sfd e clients =
    ground (arith, length-append clients (named e.accepts), length-forget e.fd clients)

longer :
    (sfd : ℕ) (es : List Event) (clients : List ℕ)
    → length clients ≤ length (clients_after sfd es clients)
longer sfd [] clients = omega arith
longer sfd (e ∷ es) clients =
    omega (arith, longer-event sfd e clients, longer sfd es (clients_after_event sfd e clients))

-- From a table that begins with the clients given and is 0 elsewhere, the network thread keeps its
-- clients as a list that only grows: each connection with a name comes at the next place after all that
-- ever came, and a 0 takes the place of one that ended by its last read. The thread goes on exactly if
-- the table has places for all that ever come; otherwise it writes past its end.
pub network_thread_function-Grows :
    (size : ℕ) (es : List Event) (s : Server) (clients : List ℕ)
    → Holds size s clients
    → Grows size s.sfd (clients_after s.sfd es clients) (network_thread_function es s)
unfolding network_thread_function
network_thread_function-Grows size [] s clients h = (refl, h)
network_thread_function-Grows size (e ∷ es) s clients h =
    let next = clients_after_event s.sfd e clients in
    Grows-bind size s.sfd next (clients_after s.sfd es next) (handle_event e s) _
      (handle_event-Grows size e s clients h) (longer s.sfd es next)
      (λ t k g.
        subst (λ f. Grows size f (clients_after f es next) (network_thread_function es t)) k
          (network_thread_function-Grows size es t next g))
