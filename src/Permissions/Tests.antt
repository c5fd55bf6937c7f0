-- ===== src/Permissions/Tests.antt =====
-- Three requests, and four.
use sysopy_all.Base.{ℕ, ◌≡◌, refl, List, [], ◌∷◌, none, some, arith, true}
use sysopy_all.Permissions.{Calls, sigusr2, requests, main}
use sysopy_all.Permissions.Requests.{seen, permitted, permits_together, overflows}

abbrev glibc : Calls
glibc = record { sigfillset_null = true; sigaction = true }

abbrev three : List ℕ
three = 41 ∷ 42 ∷ 43 ∷ []

abbrev cells : List ℕ
cells = 0 ∷ 0 ∷ 0 ∷ []

three_permitted :
    requests glibc three (main cells)
    ≡ some (record {
      child_requests_number = 3;
      count_requests = 3;
      requested_child_processes = three;
      sent = sigusr2 41 ∷ sigusr2 42 ∷ sigusr2 43 ∷ [];
      exit_status = none;
    })
unfolding requests
three_permitted = refl

permits_together_example : seen (requests glibc three (main cells)) ≡ permitted glibc 3 three
permits_together_example = permits_together glibc cells three (omega arith) (omega arith)

overflows_example : requests glibc (40 ∷ three) (main cells) ≡ none
overflows_example = overflows glibc cells (40 ∷ three) (omega arith) (omega arith) refl
