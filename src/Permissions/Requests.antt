-- ===== src/Permissions/Requests.antt =====
-- What the parent has sent after so many requests.
use sysopy_all.Base.{
  ℕ, suc, ◌+◌, ◌≤◌, ◌<◌, ◌≡◌, refl, Bool-cases, inl, inr, ap, ◌∙◌, List, [], ◌∷◌, ◌++◌, map, Option,
  none, some, ◌>>=◌, true, false, ltb, ◌==◌, if◌then◌else◌, length, length-append, get_elem?-append,
  sym, set, set-append, arith, Ensures,
}
use mathlib.Core.List.{append-nil}
use sysopy_all.Permissions.{
  Calls, Kill, sigusr2, Parent, permit, permit_all, answer, is_running, parent_sigusr1_handler,
  requests, main,
}

shift : (xs : List ℕ) (x : ℕ) (ys : List ℕ) → xs ++ (x ∷ ys) ≡ (xs ++ (x ∷ [])) ++ ys
shift [] x ys = refl
shift (y ∷ xs) x ys = ap (λ zs. y ∷ zs) (shift xs x ys)

permit_lem :
    (done pids : List ℕ) (i : ℕ)
    → i ≡ length done
    → permit (length pids) i (done ++ pids) ≡ some (map sigusr2 pids)
unfolding permit
permit_lem done [] i e = refl
permit_lem done (p ∷ pids) i e =
    rw
      (
        get_elem?-append done (p ∷ pids) 0 i (omega arith),
        shift done p pids,
        permit_lem (done ++ (p ∷ [])) pids (suc i) (omega (arith, length-append done (p ∷ []))),
      )
      refl

-- After the requests of `done`, with the cells `left` still to fill.
abbrev waiting : ℕ → List ℕ → List ℕ → Parent
waiting n done left = record {
  child_requests_number = n;
  count_requests = length done;
  requested_child_processes = done ++ left;
  sent = [];
  exit_status = none;
}

-- After as many requests as the parent waits for.
abbrev full : ℕ → List ℕ → Parent
full n pids = record {
  child_requests_number = n;
  count_requests = n;
  requested_child_processes = pids;
  sent = [];
  exit_status = none;
}

abbrev ended : Calls → ℕ → List ℕ → Option Parent
ended calls n pids =
    if calls.sigfillset_null
    then (if calls.sigaction
        then some (record (full n pids) { sent = map sigusr2 pids })
        else some (record (full n pids) { exit_status = some 99 }))
    else none

-- The array after a request.
store :
    (done left : List ℕ) (c p : ℕ)
    → set (done ++ (c ∷ left)) (length done) p ≡ (done ++ (p ∷ [])) ++ left
store done left c p = set-append done (c ∷ left) 0 (length done) p (omega arith) ∙ shift done p left

>>=-some : {A : Type 0} (o : Option A) → (o >>= λ s. some s) ≡ o
>>=-some none = refl
>>=-some (some s) = refl

early :
    (calls : Calls) (n : ℕ) (done left : List ℕ) (c p : ℕ)
    → n ≡ length done + suc (length left)
    → 1 ≤ length left
    → parent_sigusr1_handler calls p (waiting n done (c ∷ left))
      ≡ some (waiting n (done ++ (p ∷ [])) left)
unfolding parent_sigusr1_handler answer
early calls n done left c p e h =
    rw (room, store done left c p, not_more, not_all)
      (ap (λ k. some (record (waiting n (done ++ (p ∷ [])) left) { count_requests = k })) count)
  where
    room : ltb (length done) (length (done ++ (c ∷ left))) ≡ true
    room = ground (arith, length-append done (c ∷ left))

    not_more : ltb n (suc (length done)) ≡ false
    not_more = ground arith

    not_all : (suc (length done) == n) ≡ false
    not_all = ground arith

    count : suc (length done) ≡ length (done ++ (p ∷ []))
    count = omega (arith, length-append done (p ∷ []))

permit_all_lem :
    (n : ℕ) (pids : List ℕ)
    → n ≡ length pids
    → permit_all (full n pids) ≡ some (record (full n pids) { sent = map sigusr2 pids })
unfolding permit_all
permit_all_lem n pids e = rw (e, permit_lem [] pids 0 refl) refl

last :
    (calls : Calls) (n : ℕ) (done : List ℕ) (c p : ℕ)
    → n ≡ suc (length done)
    → parent_sigusr1_handler calls p (waiting n done (c ∷ [])) ≡ ended calls n (done ++ (p ∷ []))
unfolding parent_sigusr1_handler answer
last calls n done c p e =
    rw
      (
        room,
        store done [] c p,
        not_more,
        all,
        append-nil (done ++ (p ∷ [])),
        sym e,
        permit_all_lem n (done ++ (p ∷ [])) number,
      )
      refl
  where
    room : ltb (length done) (length (done ++ (c ∷ []))) ≡ true
    room = ground (arith, length-append done (c ∷ []))

    not_more : ltb n (suc (length done)) ≡ false
    not_more = ground arith

    all : (suc (length done) == n) ≡ true
    all = ground arith

    number : n ≡ length (done ++ (p ∷ []))
    number = omega (arith, length-append done (p ∷ []))

requests_all :
    (calls : Calls) (n : ℕ) (done left pids : List ℕ)
    → n ≡ length done + length left
    → length pids ≡ length left
    → 1 ≤ length left
    → requests calls pids (waiting n done left) ≡ ended calls n (done ++ pids)
unfolding requests
requests_all calls n done [] pids e l h = absurd (omega arith)
requests_all calls n done (c ∷ left) [] e l h = absurd (omega arith)
requests_all calls n done (c ∷ []) (p ∷ []) e l h =
    rw (last calls n done c p (omega arith)) (>>=-some (ended calls n (done ++ (p ∷ []))))
requests_all calls n done (c ∷ []) (p ∷ q ∷ pids) e l h = absurd (omega arith)
requests_all calls n done (c ∷ d ∷ left) (p ∷ pids) e l h =
    rw (early calls n done (d ∷ left) c p e (omega arith), shift done p pids)
      (requests_all calls n (done ++ (p ∷ [])) (d ∷ left) pids
        (omega (arith, length-append done (p ∷ []))) (omega arith) (omega arith))

-- What is to be seen of the parent: what it has sent, and its exit.
abbrev pub seen : Option Parent → Option (List Kill × Option ℕ)
seen none = none
seen (some s) = some (s.sent, s.exit_status)

requests_early :
    (calls : Calls) (n : ℕ) (done left pids : List ℕ)
    → n ≡ length done + length left
    → length pids < length left
    → seen (requests calls pids (waiting n done left)) ≡ some ([], none)
unfolding requests
requests_early calls n done left [] e l = refl
requests_early calls n done [] (p ∷ pids) e l = absurd (omega arith)
requests_early calls n done (c ∷ left) (p ∷ pids) e l =
    rw (early calls n done left c p e (omega arith)) (
      requests_early calls n (done ++ (p ∷ [])) left pids
        (omega (arith, length-append done (p ∷ []))) (omega arith))

-- What is to be seen after these requests, of which the parent waits for `n`.
abbrev pub permitted : Calls → ℕ → List ℕ → Option (List Kill × Option ℕ)
permitted calls n pids =
    if ltb (length pids) n
    then some ([], none)
    else if calls.sigfillset_null
    then (if calls.sigaction then some (map sigusr2 pids, none) else some ([], some 99))
    else none

ended-permitted :
    (calls : Calls) (n : ℕ) (pids : List ℕ)
    → ltb (length pids) n ≡ false
    → seen (ended calls n pids) ≡ permitted calls n pids
ended-permitted calls n pids h = elim (Bool-cases calls.sigfillset_null) [
  | inr t ↦ rw (h, t) refl
  | inl t ↦ elim (Bool-cases calls.sigaction) [
    | inl u ↦ rw (h, t, u) refl
    | inr u ↦ rw (h, t, u) refl
  ]
]

-- With no more requests than the parent waits for, at least one: it sends nothing before the last of
-- them. At that one it calls `sigfillset` on a null pointer, which is undefined. Where this call
-- returns, the parent exits with 99 and has sent nothing if `sigaction` fails, and otherwise it has
-- permitted the process of every request that the handler was run for, once for each and in their
-- order, and killed none.
pub permits_together :
    (calls : Calls) (cells pids : List ℕ)
    → 1 ≤ length cells
    → length pids ≤ length cells
    → seen (requests calls pids (main cells)) ≡ permitted calls (length cells) pids
permits_together calls cells pids h l = elim (Bool-cases (ltb (length pids) (length cells))) [
  | inl t ↦
      rw t (requests_early calls (length cells) [] cells pids (omega arith) (ground (arith, t)))
  | inr t ↦
      ap seen (requests_all calls (length cells) [] cells pids (omega arith) (ground (arith, t)) h)
      ∙ ended-permitted calls (length cells) pids t
]

full_handler :
    (calls : Calls) (p : ℕ) (s : Parent)
    → s.count_requests ≡ length s.requested_child_processes
    → parent_sigusr1_handler calls p s ≡ none
unfolding parent_sigusr1_handler
full_handler calls p s h = rw no_room refl
  where
    no_room : ltb s.count_requests (length s.requested_child_processes) ≡ false
    no_room = ground (arith, h)

-- The parent runs, and its array is full.
abbrev IsFull : Parent → Type 0
IsFull s =
    (is_running s.exit_status ≡ true) × (s.count_requests ≡ length s.requested_child_processes)

requests_full :
    (calls : Calls) (q : ℕ) (pids : List ℕ) (o : Option Parent)
    → Ensures IsFull o
    → (o >>= requests calls (q ∷ pids)) ≡ none
unfolding requests
requests_full calls q pids none f = refl
requests_full calls q pids (some s) (r, h) = rw (full_handler calls q s h, r) refl

ended-IsFull :
    (calls : Calls) (n : ℕ) (pids : List ℕ)
    → n ≡ length pids
    → calls.sigaction ≡ true
    → Ensures IsFull (ended calls n pids)
ended-IsFull calls n pids e a = elim (Bool-cases calls.sigfillset_null) [
  | inl t ↦ rw (t, a) (refl, e)
  | inr t ↦ rw t tt
]

requests_past :
    (calls : Calls) (n : ℕ) (done left pids : List ℕ)
    → n ≡ length done + length left
    → 1 ≤ length left
    → length left < length pids
    → calls.sigaction ≡ true
    → requests calls pids (waiting n done left) ≡ none
unfolding requests
requests_past calls n done [] pids e h l a = absurd (omega arith)
requests_past calls n done (c ∷ left) [] e h l a = absurd (omega arith)
requests_past calls n done (c ∷ []) (p ∷ []) e h l a = absurd (omega arith)
requests_past calls n done (c ∷ []) (p ∷ q ∷ pids) e h l a =
    requests_full calls q pids (parent_sigusr1_handler calls p (waiting n done (c ∷ []))) (
      rw (last calls n done c p (omega arith))
        (ended-IsFull calls n (done ++ (p ∷ [])) (omega (arith, length-append done (p ∷ []))) a))
requests_past calls n done (c ∷ d ∷ left) (p ∷ pids) e h l a =
    rw (early calls n done (d ∷ left) c p e (omega arith)) (
      requests_past calls n (done ++ (p ∷ [])) (d ∷ left) pids
        (omega (arith, length-append done (p ∷ []))) (omega arith) (omega arith) a)

-- Where `sigaction` succeeds, as it does on a valid signal: with more requests than the parent waits
-- for, the first one too many is written past the end of the array, before the test that is to refuse it,
-- unless the call of `sigfillset` on a null pointer was undefined before.
pub overflows :
    (calls : Calls) (cells pids : List ℕ)
    → 1 ≤ length cells
    → length cells < length pids
    → calls.sigaction ≡ true
    → requests calls pids (main cells) ≡ none
overflows calls cells pids h l a =
    requests_past calls (length cells) [] cells pids (omega arith) h l a
