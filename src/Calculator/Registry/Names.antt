-- ===== src/Calculator/Registry/Names.antt =====
-- Which names are registered.
pub mod Room
use Prim.Native.Nat.Ordering.{lt, eq, gt}
use sysopy_all.Base.{
  ℕ, zero, suc, ◌≤◌, ◌<◌, ◌≡◌, refl, Bool, true, false, ◌&&◌, List, [], ◌∷◌, ltb, ◌==◌,
  if◌then◌else◌, length, set, length-set, Text, strcmp, strcmp_refl, eq_of_strcmp, Bool-cases, inl,
  inr, arith, Ensures, Ensures-bind,
}
use sysopy_all.Calculator.Descriptors.{forget}
use sysopy_all.Calculator.Registry.{
  Registry, string_array_contains, register, read_all, Event, close, accept_all, hang_up,
  read_connection, handle_event, network_thread_function, max_client_name_length,
}

abbrev pub registered : Text → Registry → Bool
registered name s = string_array_contains s.clients_names s.client_count name

-- No two of the first `n` names are the same.
abbrev pub Distinct : ℕ → List Text → Type 0
Distinct n [] = Unit
Distinct zero (x ∷ xs) = Unit
Distinct (suc n) (x ∷ xs) = (string_array_contains xs n x ≡ false) × Distinct n xs

contains-set :
    (xs : List Text) (n : ℕ) (x name : Text)
    → n < length xs
    → string_array_contains (set xs n x) (suc n) name ≡ (
        if string_array_contains xs n name
        then true
        else elim (strcmp x name) [ eq ↦ true | lt ↦ false | gt ↦ false ])
unfolding string_array_contains
contains-set [] n x name h = absurd (omega arith)
contains-set (y ∷ []) zero x name h = refl
contains-set (y ∷ z ∷ xs) zero x name h = refl
contains-set (y ∷ xs) (suc n) x name h = ground (arith, contains-set xs n x name)

contains-zero : (xs : List Text) (x : Text) → string_array_contains xs 0 x ≡ false
unfolding string_array_contains
contains-zero [] x = refl
contains-zero (y ∷ xs) x = refl

Distinct-zero : (xs : List Text) → Distinct 0 xs
Distinct-zero [] = tt
Distinct-zero (y ∷ xs) = tt

strcmp-eq_sym : (x y : Text) → strcmp x y ≡ eq → strcmp y x ≡ eq
strcmp-eq_sym x y h = rw (eq_of_strcmp x y h) (strcmp_refl y)

set-Distinct :
    (xs : List Text) (n : ℕ) (x : Text)
    → n < length xs
    → Distinct n xs
    → string_array_contains xs n x ≡ false
    → Distinct (suc n) (set xs n x)
unfolding string_array_contains
set-Distinct [] n x h d k = tt
set-Distinct (y ∷ xs) zero x h d k = (contains-zero xs x, Distinct-zero xs)
set-Distinct (y ∷ xs) (suc n) x h (d, ds) k = (
  ground (arith, d, k, contains-set xs n x y, strcmp-eq_sym x y),
  set-Distinct xs n x (omega arith) ds (ground (arith, k)),
)

-- The names that are registered are distinct, and the count stays within the tables.
pub record Inv (s : Registry) : Type 0 where
  pub distinct : Distinct s.client_count s.clients_names
  pub names : s.client_count ≤ length s.clients_names
  pub descriptors : s.client_count ≤ length s.client_descriptors

-- After a registration the name is registered, and so are those before it.
record After (name : Text) (s t : Registry) : Type 0 where
  inv : Inv t
  added : registered name t ≡ true
  kept : (x : Text) → registered x s ≡ true → registered x t ≡ true

abbrev pub has_room : Text → Registry → Bool
has_room buf s =
    ltb s.client_count (length s.client_descriptors)
    && (ltb s.client_count (length s.clients_names) && ltb (length buf) max_client_name_length)

register-After :
    (fd : ℕ) (buf : Text) (s : Registry) → Inv s → Ensures (After buf s) (register fd buf s)
unfolding register
register-After fd buf s inv = elim (Bool-cases (registered buf s)) [
  | inl t ↦ rw t (record { inv = inv; added = t; kept = λ x h. h })
  | inr t ↦ elim (Bool-cases (has_room buf s)) [
    | inr u ↦ rw (t, u) tt
    | inl u ↦
        rw (t, u)
          (record {
            inv = record {
              distinct =
                  set-Distinct s.clients_names s.client_count buf (ground (arith, u)) inv.distinct
                    t;
              names = ground (arith, u, length-set s.clients_names s.client_count buf);
              descriptors = ground (arith, u, length-set s.client_descriptors s.client_count fd);
            };
            added =
                ground
                  (arith, u, contains-set s.clients_names s.client_count buf buf, strcmp_refl buf);
            kept = λ x h. ground (arith, u, h, contains-set s.clients_names s.client_count buf x);
          })
  ]
]

read_all-Inv :
    (fd : ℕ) (reads : List Text) (s : Registry) → Inv s → Ensures Inv (read_all fd reads s)
unfolding read_all
read_all-Inv fd [] s inv = inv
read_all-Inv fd (buf ∷ reads) s inv =
    Ensures-bind (After buf s) Inv (register fd buf s) _ (register-After fd buf s inv)
      (λ t a. read_all-Inv fd reads t a.inv)

pub length-forget : (fd : ℕ) (ds : List ℕ) → length (forget fd ds) ≡ length ds
unfolding forget
length-forget fd [] = refl
length-forget fd (d ∷ ds) = omega (arith, length-forget fd ds)

hang_up-Inv : (fd : ℕ) (s : Registry) → Inv s → Inv (hang_up fd s)
unfolding hang_up
hang_up-Inv fd s inv = record {
  distinct = inv.distinct;
  names = inv.names;
  descriptors = omega (arith, inv.descriptors, length-forget fd s.client_descriptors);
}

accept_all-Inv : (accepts : List ℕ) (s : Registry) → Inv s → Inv (accept_all accepts s)
unfolding accept_all
accept_all-Inv [] s inv = inv
accept_all-Inv (fd ∷ accepts) s inv =
    accept_all-Inv accepts (record s { monitored = fd ∷ s.monitored })
      (record { distinct = inv.distinct; names = inv.names; descriptors = inv.descriptors })

-- When the reads of a connection are done the empty name is registered, whatever it sent: the last read,
-- which returns nothing, is followed by the registration like the others.
pub registers_empty_name :
    (e : Event) (s : Registry) → Inv s → Ensures (λ t. registered [] t ≡ true) (read_connection e s)
unfolding read_connection hang_up close
registers_empty_name e s inv =
    Ensures-bind Inv _ (read_all e.fd e.reads s) _ (read_all-Inv e.fd e.reads s inv) (λ s1 inv1.
      Ensures-bind (After [] s1) _ (register e.fd [] s1) _ (register-After e.fd [] s1 inv1)
        (λ s2 a. elim (Bool-cases e.done) [ inl t ↦ rw t a.added | inr t ↦ rw t a.added ]))

read_connection-Inv : (e : Event) (s : Registry) → Inv s → Ensures Inv (read_connection e s)
unfolding read_connection
read_connection-Inv e s inv =
    Ensures-bind Inv _ (read_all e.fd e.reads s) _ (read_all-Inv e.fd e.reads s inv) (λ s1 inv1.
      Ensures-bind (After [] s1) _ (register e.fd [] s1) _ (register-After e.fd [] s1 inv1) (λ s2 a.
        elim (Bool-cases e.done) [ inl t ↦ rw t (hang_up-Inv e.fd s2 a.inv) | inr t ↦ rw t a.inv ]))

close-Inv : (fd : ℕ) (s : Registry) → Inv s → Inv (close fd s)
unfolding close
close-Inv fd s inv = record {
  distinct = inv.distinct;
  names = inv.names;
  descriptors = inv.descriptors;
}

handle_event-Inv : (e : Event) (s : Registry) → Inv s → Ensures Inv (handle_event e s)
unfolding handle_event
handle_event-Inv e s inv = elim (Bool-cases e.bad) [
  | inl t ↦ rw t (close-Inv e.fd s inv)
  | inr t ↦ elim (Bool-cases (s.sfd == e.fd)) [
    | inl u ↦ rw (t, u) (accept_all-Inv e.accepts s inv)
    | inr u ↦ rw (t, u) (read_connection-Inv e s inv)
  ]
]

-- The names stay distinct and the count within the tables, as long as nothing is undefined.
pub network_thread_function-distinct :
    (es : List Event) (s : Registry) → Inv s → Ensures Inv (network_thread_function es s)
unfolding network_thread_function
network_thread_function-distinct [] s inv = inv
network_thread_function-distinct (e ∷ es) s inv =
    Ensures-bind Inv Inv (handle_event e s) _ (handle_event-Inv e s inv)
      (λ t k. network_thread_function-distinct es t k)
