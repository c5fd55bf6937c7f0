-- ===== src/Calculator/Server/Open.antt =====
-- The table holds no connection that has ended.
pub mod Writes
use sysopy_all.Base.{
  ℕ, zero, suc, ◌≡◌, ◌≢◌, Bool, true, false, ◌||◌, not, ◌⊎◌, ◌>>=◌, List, [], ◌∷◌, ◌++◌, Text, ltb,
  ◌==◌, if◌then◌else◌, length, set, get_elem?, ◌%◌, Bool-cases, inl, inr, arith, Ensures,
  Ensures-bind, Ensures-mono, Ensures-any, Option, none, some,
}
use sysopy_all.Calculator.Message.{OperationMessage, field_size}
use sysopy_all.Calculator.Descriptors.{forget, clear_later, clear_from, check_doubles, choose}
use sysopy_all.Calculator.Server.{
  Server, Accepted, Event, add_client, accept_one, accept_all, read_all, is_done, hang_up,
  handle_event, remove, choose_client, write_message, network_thread_function, Action, network,
  choosing, writing, act, run,
}

abbrev pub contains : ℕ → List ℕ → Bool
contains d [] = false
contains d (x ∷ xs) = let rest = contains d xs in if d == x then true else rest

-- Every place is free or holds a connection that epoll watches.
abbrev pub IsOpen : List ℕ → List ℕ → Type 0
IsOpen m [] = Unit
IsOpen m (d ∷ ds) = ((d ≡ 0) ⊎ (contains d m ≡ true)) × IsOpen m ds

-- The event is no EPOLLERR or EPOLLHUP, and is for input: on the others the server closes the
-- connection and leaves it in its table.
abbrev pub IsInput : Action → Type 0
IsInput (network e) = (e.epollerr || (e.epollhup || not e.epollin)) ≡ false
IsInput _ = Unit

abbrev pub AllInput : List Action → Type 0
AllInput [] = Unit
AllInput (a ∷ as') = IsInput a × AllInput as'

set-IsOpen :
    (m ds : List ℕ) (i fd : ℕ) → IsOpen m ds → contains fd m ≡ true → IsOpen m (set ds i fd)
set-IsOpen m [] i fd h k = tt
set-IsOpen m (d ∷ ds) zero fd (h, hs) k = (inr k, hs)
set-IsOpen m (d ∷ ds) (suc i) fd (h, hs) k = (h, set-IsOpen m ds i fd hs k)

more-IsOpen : (m ds : List ℕ) (fd : ℕ) → IsOpen m ds → IsOpen (fd ∷ m) ds
more-IsOpen m [] fd h = tt
more-IsOpen m (d ∷ ds) fd (h, hs) = (ground (arith, h), more-IsOpen m ds fd hs)

contains-remove :
    (d fd : ℕ) (m : List ℕ) → d ≢ fd → contains d m ≡ true → contains d (remove fd m) ≡ true
contains-remove d fd [] h k = k
contains-remove d fd (x ∷ m) h k = ground (arith, contains-remove d fd m h)

forget-IsOpen : (m ds : List ℕ) (fd : ℕ) → IsOpen m ds → IsOpen (remove fd m) (forget fd ds)
unfolding forget
forget-IsOpen m [] fd h = tt
forget-IsOpen m (d ∷ ds) fd (h, hs) =
    (ground (arith, h, contains-remove d fd m), forget-IsOpen m ds fd hs)

clear_later-IsOpen : (m ds : List ℕ) (x : ℕ) → IsOpen m ds → IsOpen m (clear_later x ds)
unfolding clear_later
clear_later-IsOpen m [] x h = tt
clear_later-IsOpen m (d ∷ ds) x (h, hs) = (ground (arith, h), clear_later-IsOpen m ds x hs)

clear_from-IsOpen : (n : ℕ) (m ds : List ℕ) → IsOpen m ds → IsOpen m (clear_from n ds)
unfolding clear_from
clear_from-IsOpen zero m ds h = h
clear_from-IsOpen (suc n) m [] h = tt
clear_from-IsOpen (suc n) m (d ∷ ds) (h, hs) =
    (h, clear_from-IsOpen n m (clear_later d ds) (clear_later-IsOpen m ds d hs))

check_doubles-IsOpen : (m ds : List ℕ) → IsOpen m ds → IsOpen m (check_doubles ds)
unfolding check_doubles
check_doubles-IsOpen m ds h = elim (Bool-cases (length ds == 1)) [
  | inl t ↦ rw t h
  | inr t ↦ rw t (clear_from-IsOpen (length ds) m ds h)
]

get_elem?-IsOpen :
    (m ds : List ℕ) (i : ℕ)
    → IsOpen m ds
    → Ensures (λ d. (d ≡ 0) ⊎ (contains d m ≡ true)) (get_elem? ds i)
get_elem?-IsOpen m [] i h = tt
get_elem?-IsOpen m (d ∷ ds) zero (h, hs) = h
get_elem?-IsOpen m (d ∷ ds) (suc i) (h, hs) = get_elem?-IsOpen m ds i hs

choose-IsOpen :
    (m ds rand : List ℕ)
    → IsOpen m ds
    → Ensures (λ d. (d ≢ 0) × (contains d m ≡ true)) (choose rand ds)
unfolding choose
choose-IsOpen m ds [] h = tt
choose-IsOpen m ds (r ∷ rand) h =
    Ensures-bind (λ d. (d ≡ 0) ⊎ (contains d m ≡ true)) _ (get_elem? ds (r % length ds)) _
      (get_elem?-IsOpen m ds (r % length ds) h)
      (λ d k. elim (Bool-cases (d == 0)) [
        | inl t ↦ rw t (choose-IsOpen m ds rand h)
        | inr t ↦ rw t (ground (arith, k, t), ground (arith, k, t))
      ])

abbrev pub TableOpen : Server → Type 0
TableOpen s = IsOpen s.monitored s.client_descriptors

accept_one-TableOpen :
    (a : Accepted) (s : Server) → TableOpen s → Ensures TableOpen (accept_one a s)
unfolding accept_one add_client
accept_one-TableOpen a s h = elim (Bool-cases a.named) [
  | inr t ↦ rw t (more-IsOpen s.monitored s.client_descriptors a.infd h)
  | inl t ↦ elim (Bool-cases (ltb s.client_count (length s.client_descriptors))) [
    | inl u ↦
        rw (t, u)
          (set-IsOpen (a.infd ∷ s.monitored) s.client_descriptors s.client_count a.infd
            (more-IsOpen s.monitored s.client_descriptors a.infd h) (ground arith))
    | inr u ↦ rw (t, u) tt
  ]
]

accept_all-TableOpen :
    (as' : List Accepted) (s : Server) → TableOpen s → Ensures TableOpen (accept_all as' s)
unfolding accept_all
accept_all-TableOpen [] s h = h
accept_all-TableOpen (a ∷ as') s h =
    Ensures-bind TableOpen _ (accept_one a s) _ (accept_one-TableOpen a s h)
      (λ t k. accept_all-TableOpen as' t k)

read_all-TableOpen : (reads : List Text) (s : Server) → TableOpen s → TableOpen (read_all reads s)
unfolding read_all
read_all-TableOpen [] s h = h
read_all-TableOpen (r ∷ reads) s h =
    read_all-TableOpen reads (record s { output = s.output ++ r }) h

hang_up-TableOpen : (fd : ℕ) (s : Server) → TableOpen s → TableOpen (hang_up fd s)
unfolding hang_up
hang_up-TableOpen fd s h = forget-IsOpen s.monitored s.client_descriptors fd h

handle_event-TableOpen :
    (e : Event) (s : Server)
    → IsInput (network e)
    → TableOpen s
    → Ensures TableOpen (handle_event e s)
unfolding handle_event
handle_event-TableOpen e s i h = elim (Bool-cases (s.sfd == e.fd)) [
  | inl u ↦ rw (i, u) (accept_all-TableOpen e.accepts s h)
  | inr u ↦ elim (Bool-cases (is_done e.last)) [
    | inl v ↦
        rw (i, u, v) (hang_up-TableOpen e.fd (read_all e.reads s) (read_all-TableOpen e.reads s h))
    | inr v ↦ rw (i, u, v) (read_all-TableOpen e.reads s h)
  ]
]

-- The descriptor that is chosen is one that epoll watches.
abbrev pub ChosenOpen : Option (ℕ × Text) → List ℕ → Type 0
ChosenOpen none m = ⊥
ChosenOpen (some (fd, text)) m = (fd ≢ 0) × (contains fd m ≡ true)

choose_client-Open :
    (m : OperationMessage) (rand : List ℕ) (s : Server)
    → TableOpen s
    → Ensures (λ t. ChosenOpen t.chosen t.monitored × TableOpen t) (choose_client m rand s)
unfolding choose_client
choose_client-Open m rand s h =
    elim (Bool-cases (
      not (ltb (length m.operation) field_size)
      || (not (ltb (length m.first_argument) field_size)
          || not (ltb (length m.second_argument) field_size)))) [
            | inl t ↦ rw t tt
            | inr t ↦ rw t (
                Ensures-bind (λ d. (d ≢ 0) × (contains d s.monitored ≡ true)) _
                  (choose rand s.client_descriptors) _
                  (choose-IsOpen s.monitored s.client_descriptors rand h) (λ d k. (k, h)))
          ]

write_message-TableOpen : (s : Server) → TableOpen s → Ensures TableOpen (write_message s)
unfolding write_message
write_message-TableOpen s h =
    Ensures-any TableOpen s.chosen _ (λ c. check_doubles-IsOpen s.monitored s.client_descriptors h)

act-TableOpen : (a : Action) (s : Server) → IsInput a → TableOpen s → Ensures TableOpen (act a s)
unfolding act
act-TableOpen (network e) s i h = handle_event-TableOpen e s i h
act-TableOpen (choosing m rand) s i h =
    Ensures-mono _ TableOpen (choose_client m rand s) (λ t k. k.1) (choose_client-Open m rand s h)
act-TableOpen writing s i h = write_message-TableOpen s h

run-TableOpen :
    (as' : List Action) (s : Server) → AllInput as' → TableOpen s → Ensures TableOpen (run as' s)
unfolding run
run-TableOpen [] s i h = h
run-TableOpen (a ∷ as') s (i, is) h =
    Ensures-bind TableOpen _ (act a s) _ (act-TableOpen a s i h) (λ t k. run-TableOpen as' t is k)
