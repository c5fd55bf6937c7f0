-- ===== src/Calculator/Registry.antt =====
-- The network thread of cw10/zad2/server.c, which registers its clients by the names that they send.
-- What the system calls return is part of the events, and the echo to descriptor 1 is left out.
pub mod Names
mod Tests
use sysopy_all.Base.{
  ℕ, zero, suc, Bool, true, false, ◌||◌, ◌&&◌, not, Option, none, some, ◌>>=◌, List, [], ◌∷◌, ltb,
  ◌==◌, if◌then◌else◌, length, set, Text, strcmp,
}
use Prim.Native.Nat.Ordering.{lt, eq, gt}
use sysopy_all.Calculator.Descriptors.{forget}

-- A place of `clients_names` has room for this many bytes.
abbrev pub max_client_name_length : ℕ
max_client_name_length = 50

pub record Registry : Type 0 where
  pub sfd : ℕ
  pub client_descriptors : List ℕ
  pub clients_names : List Text
  pub client_count : ℕ
  pub monitored : List ℕ

unfoldable pub string_array_contains : List Text → ℕ → Text → Bool
string_array_contains [] n string = false
string_array_contains (s ∷ array) zero string = false
string_array_contains (s ∷ array) (suc n) string =
    let rest = string_array_contains array n string in
    elim (strcmp s string) [ eq ↦ true | lt ↦ rest | gt ↦ rest ]

-- The test and the registration after each `read`, with the string that `buf` then holds. The source
-- tests neither the count nor the length: there a write outside the tables, or past the place of a name,
-- is undefined, which is `none`.
unfoldable pub register : ℕ → Text → Registry → Option Registry
register fd buf s =
    if string_array_contains s.clients_names s.client_count buf
    then some s
    else if ltb s.client_count (length s.client_descriptors)
        && (ltb s.client_count (length s.clients_names) && ltb (length buf) max_client_name_length)
    then some (record s {
      client_descriptors = set s.client_descriptors s.client_count fd;
      clients_names = set s.clients_names s.client_count buf;
      client_count = suc s.client_count;
    })
    else none

-- The reads that return bytes, each with the string that `buf` holds after it: the array is not
-- initialised, so bytes of an earlier read may follow those of this one.
unfoldable pub read_all : ℕ → List Text → Registry → Option Registry
unfolding register
read_all fd [] s = some s
read_all fd (buf ∷ reads) s = do s' ← register fd buf s; read_all fd reads s'

-- An entry of `events`: the connections that `accept` returns, the reads that return bytes, and whether
-- the last read is the end of the connection or an error rather than EAGAIN.
pub record Event : Type 0 where
  pub fd : ℕ
  pub bad : Bool
  pub accepts : List ℕ
  pub reads : List Text
  pub done : Bool

abbrev pub remove : ℕ → List ℕ → List ℕ
remove fd [] = []
remove fd (x ∷ xs) = let rest = remove fd xs in if x == fd then rest else x ∷ rest

unfoldable pub close : ℕ → Registry → Registry
close fd s = record s { monitored = remove fd s.monitored }

unfoldable pub accept_all : List ℕ → Registry → Registry
accept_all [] s = s
accept_all (infd ∷ accepts) s = accept_all accepts (record s { monitored = infd ∷ s.monitored })

unfoldable pub hang_up : ℕ → Registry → Registry
unfolding close
hang_up fd s = close fd (record s { client_descriptors = forget fd s.client_descriptors })

-- The reads of a connection. Before the last one, which returns no byte, `memset` has cleared the string,
-- and the test and the registration follow that read too.
unfoldable pub read_connection : Event → Registry → Option Registry
unfolding read_all hang_up
read_connection e s = do
  s1 ← read_all e.fd e.reads s
  s2 ← register e.fd [] s1
  some (if e.done then hang_up e.fd s2 else s2)

unfoldable pub handle_event : Event → Registry → Option Registry
unfolding read_connection accept_all close
handle_event e s =
    if e.bad
    then some (close e.fd s)
    else if s.sfd == e.fd
    then some (accept_all e.accepts s)
    else read_connection e s

unfoldable pub network_thread_function : List Event → Registry → Option Registry
unfolding handle_event
network_thread_function [] s = some s
network_thread_function (e ∷ es) s = do s' ← handle_event e s; network_thread_function es s'
