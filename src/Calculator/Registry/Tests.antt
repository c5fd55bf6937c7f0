-- ===== src/Calculator/Registry/Tests.antt =====
-- Two clients register, and the second also takes a place for the empty name.
use mathlib.Core.Option
use sysopy_all.Base.{ℕ, ◌≡◌, refl, false, some, [], ◌∷◌, replicate, Text, strcmp, Returns, arith}
use sysopy_all.Calculator.Registry.{Registry, Event, network_thread_function, string_array_contains}
use sysopy_all.Calculator.Registry.Names.{Inv}
use sysopy_all.Calculator.Registry.Names.Room.{network_thread_function-Inv}

abbrev started : Registry
started = record {
  sfd = 3;
  client_descriptors = replicate 20 0;
  clients_names = replicate 20 [];
  client_count = 0;
  monitored = 3 ∷ [];
}

started-Inv : Inv started
unfolding string_array_contains
started-Inv = record { distinct = tt; names = omega arith; descriptors = omega arith }

abbrev connecting : Event
connecting = record { fd = 3; bad = false; accepts = 5 ∷ 6 ∷ []; reads = []; done = false }

abbrev naming : ℕ → Text → Event
naming fd name = record { fd = fd; bad = false; accepts = []; reads = name ∷ []; done = false }

two_names :
    Option.map {B = ℕ}
      (λ s. s.client_count)
      (network_thread_function
        (connecting ∷ naming 5 (65 ∷ []) ∷ naming 6 (66 ∷ []) ∷ naming 5 (65 ∷ []) ∷ [])
        started)
    ≡ some 3
unfolding network_thread_function string_array_contains strcmp
two_names = refl

network_thread_function-Inv_example :
    Returns Inv (network_thread_function (connecting ∷ naming 5 (65 ∷ []) ∷ []) started)
network_thread_function-Inv_example =
    network_thread_function-Inv (connecting ∷ naming 5 (65 ∷ []) ∷ []) started
      (tt, ((omega arith, tt), tt)) (record { names = omega arith; descriptors = omega arith })
      started-Inv
