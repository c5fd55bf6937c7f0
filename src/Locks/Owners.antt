-- ===== src/Locks/Owners.antt =====
-- At most one process has a lock on a byte, for reading too.
use sysopy_all.Base.{
  ℕ, ◌≡◌, ◌≢◌, refl, sym, ◌∙◌, ◌⊎◌, inl, inr, ℤ, pos, negsuc, Option, none, some, List, [], ◌∷◌,
  ℕ_discrete, subst,
}
use sysopy_all.Locks.{
  Kind, rdlck, wrlck, Fcntl, IsDocumented, ByteFile, Choice, Reply, World, lock_found, set_result,
  set_unless_found, write_result, write_unless, set_lock, unlock, write_byte, run_option, session,
}
use sysopy_all.Locks.Choice.{
  set_read_lock, set_write_lock, print_locks, unlock_character, read_character, write_character,
}
use sysopy_all.Locks.Reply.{properly_set, properly_unset}

module _ (f : Fcntl) (doc : IsDocumented f) (b : ByteFile) where
  -- Of two processes at most one has a lock on a byte.
  abbrev pub OneOwner : f.Locks → Type 0
  OneOwner l = (byte p q : ℕ) → p ≢ q → (f.lock_of l p byte ≡ none) ⊎ (f.lock_of l q byte ≡ none)

  -- A process sets a lock where no other has one.
  set-OneOwner :
      (pid byte : ℕ) (k : Option Kind) (l l' : f.Locks)
      → ((other : ℕ) → other ≢ pid → f.lock_of l other byte ≡ none)
      → f.setlk pid k byte l ≡ some l'
      → OneOwner l
      → OneOwner l'
  set-OneOwner pid byte k l l' free e h byte' p q ne = elim (ℕ_discrete byte' byte) [
    | yes same ↦ elim (ℕ_discrete p pid) [
      | yes own ↦ inr (
          doc.setlk-other pid byte k l l' e q byte' (inl (λ o. ne (own ∙ sym o)))
          ∙ rw same (free q (λ o. ne (own ∙ sym o))))
      | no not_own ↦
          inl (doc.setlk-other pid byte k l l' e p byte' (inl not_own) ∙ rw same (free p not_own))
    ]
    | no apart ↦
        rw
          (
            doc.setlk-other pid byte k l l' e p byte' (inr apart),
            doc.setlk-other pid byte k l l' e q byte' (inr apart),
          )
          (h byte' p q ne)
  ]

  unset-OneOwner :
      (pid byte : ℕ) (l l' : f.Locks) → f.setlk pid none byte l ≡ some l' → OneOwner l → OneOwner l'
  unset-OneOwner pid byte l l' e h byte' p q ne = elim (ℕ_discrete byte' byte) [
    | yes same ↦ elim (ℕ_discrete p pid) [
      | yes own ↦ inl (rw (own, same) (doc.setlk-same pid byte none l l' e))
      | no not_p ↦ elim (ℕ_discrete q pid) [
        | yes own ↦ inr (rw (own, same) (doc.setlk-same pid byte none l l' e))
        | no not_q ↦
            rw
              (
                doc.setlk-other pid byte none l l' e p byte' (inl not_p),
                doc.setlk-other pid byte none l l' e q byte' (inl not_q),
              )
              (h byte' p q ne)
      ]
    ]
    | no apart ↦
        rw
          (
            doc.setlk-other pid byte none l l' e p byte' (inr apart),
            doc.setlk-other pid byte none l l' e q byte' (inr apart),
          )
          (h byte' p q ne)
  ]

  abbrev Owned : World f b × Reply → Type 0
  Owned r = OneOwner r.0.locks

  set_lock-OneOwner :
      (pid : ℕ) (kind : Kind) (index : ℤ) (w : World f b)
      → OneOwner w.locks
      → Owned (set_lock f b pid kind index w)
  unfolding set_lock
  set_lock-OneOwner pid kind (negsuc n) w h = h
  set_lock-OneOwner pid kind (pos i) w h = asked (f.getlk pid wrlck i w.locks) refl
    where
      granted :
          (o : Option f.Locks)
          → f.setlk pid (some kind) i w.locks ≡ o
          → ((other : ℕ) → other ≢ pid → f.lock_of w.locks other i ≡ none)
          → Owned (set_result f b w properly_set o)
      granted none e free = h
      granted (some l) e free = set-OneOwner pid i (some kind) w.locks l free e h

      asked :
          (o : Option (Option (Kind × ℕ)))
          → f.getlk pid wrlck i w.locks ≡ o
          → Owned (set_unless_found f b pid kind i w (lock_found o))
      asked none e = h
      asked (some (some (k, owner))) e = h
      asked (some none) e =
          granted (f.setlk pid (some kind) i w.locks) refl (doc.getlk-none pid i w.locks e)

  unlock-OneOwner :
      (pid : ℕ) (index : ℤ) (w : World f b) → OneOwner w.locks → Owned (unlock f b pid index w)
  unfolding unlock
  unlock-OneOwner pid (negsuc n) w h = h
  unlock-OneOwner pid (pos i) w h = removed (f.setlk pid none i w.locks) refl
    where
      removed :
          (o : Option f.Locks)
          → f.setlk pid none i w.locks ≡ o
          → Owned (set_result f b w properly_unset o)
      removed none e = h
      removed (some l) e = unset-OneOwner pid i w.locks l e h

  -- A write leaves the locks.
  write_byte-locks :
      (pid : ℕ) (index : ℤ) (c : ℕ) (w : World f b)
      → (write_byte f b pid index c w).0.locks ≡ w.locks
  unfolding write_byte
  write_byte-locks pid (negsuc n) c w = refl
  write_byte-locks pid (pos i) c w = asked (f.getlk pid wrlck i w.locks)
    where
      written : (o : Option b.File) → (write_result f b w o).0.locks ≡ w.locks
      written none = refl
      written (some s) = refl

      asked : (o : Option (Option (Kind × ℕ))) → (write_unless f b i c w o).0.locks ≡ w.locks
      asked none = refl
      asked (some none) = written (b.write_at i c w.file)
      asked (some (some (rdlck, owner))) = written (b.write_at i c w.file)
      asked (some (some (wrlck, owner))) = refl

  run_option-OneOwner :
      (pid : ℕ) (choice : Choice) (w : World f b)
      → OneOwner w.locks
      → Owned (run_option f b pid choice w)
  unfolding run_option
  run_option-OneOwner pid (set_read_lock i) w h = set_lock-OneOwner pid rdlck i w h
  run_option-OneOwner pid (set_write_lock i) w h = set_lock-OneOwner pid wrlck i w h
  run_option-OneOwner pid print_locks w h = h
  run_option-OneOwner pid (unlock_character i) w h = unlock-OneOwner pid i w h
  run_option-OneOwner pid (read_character i) w h = h
  run_option-OneOwner pid (write_character i c) w h =
      subst OneOwner (sym (write_byte-locks pid i c w)) h

  pub session-OneOwner :
      (choices : List (ℕ × Choice)) (w : World f b)
      → OneOwner w.locks
      → OneOwner (session f b choices w).locks
  unfolding session
  session-OneOwner [] w h = h
  session-OneOwner ((pid, choice) ∷ rest) w h =
      session-OneOwner rest (run_option f b pid choice w).0 (run_option-OneOwner pid choice w h)

  -- With the calls as documented, whatever the processes choose, each choice done before the next
  -- begins: if of two processes at most one had a lock on a byte, this stays so. A read lock, too, is
  -- never shared.
  pub never_shared :
      (choices : List (ℕ × Choice)) (w : World f b)
      → OneOwner w.locks
      → (byte p q : ℕ) → p ≢ q
      → (f.lock_of (session f b choices w).locks p byte ≡ none)
        ⊎ (f.lock_of (session f b choices w).locks q byte ≡ none)
  never_shared choices w h byte p q ne = session-OneOwner choices w h byte p q ne
