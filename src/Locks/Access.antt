-- ===== src/Locks/Access.antt =====
-- What the processes see of each other's locks.
use mathlib.Core.Option
use sysopy_all.Base.{
  ℕ, ◌≡◌, ◌≢◌, refl, sym, ◌∙◌, inl, inr, pos, Option, none, some, ℕ_discrete, subst,
}
use sysopy_all.Locks.{
  Kind, rdlck, wrlck, Fcntl, IsDocumented, ByteFile, World, read_result, write_result, read_byte,
  write_byte,
}
use sysopy_all.Locks.Reply.{because_of_lock}
use sysopy_all.Locks.Owners.{OneOwner}

module _ (f : Fcntl) (doc : IsDocumented f) (b : ByteFile) where
  -- The lock that processes other than `pid` have on the byte.
  abbrev pub OthersHave : f.Locks → ℕ → ℕ → Option Kind → Type 0
  OthersHave l pid i none = (other : ℕ) → other ≢ pid → f.lock_of l other i ≡ none
  OthersHave l pid i (some kind) = (other : ℕ) × (other ≢ pid) × (f.lock_of l other i ≡ some kind)

  -- What a reading and a writing of the byte come to.
  abbrev pub Outcomes : World f b → ℕ → ℕ → ℕ → Option Kind → Type 0
  Outcomes w pid i c none =
      (read_byte f b pid (pos i) w ≡ read_result f b (b.read_at i w.file))
      × (write_byte f b pid (pos i) c w ≡ write_result f b w (b.write_at i c w.file))
  Outcomes w pid i c (some rdlck) =
      (read_byte f b pid (pos i) w ≡ because_of_lock)
      × (write_byte f b pid (pos i) c w ≡ write_result f b w (b.write_at i c w.file))
  Outcomes w pid i c (some wrlck) =
      (read_byte f b pid (pos i) w ≡ read_result f b (b.read_at i w.file))
      × (write_byte f b pid (pos i) c w ≡ (w, because_of_lock))

  -- What `getlk` answers.
  getlk-OthersHave :
      (l : f.Locks) (pid i : ℕ) (o : Option Kind)
      → OneOwner f doc b l
      → OthersHave l pid i o
      → (a : Option (Kind × ℕ)) → f.getlk pid wrlck i l ≡ some a
      → Option.map (λ k. k.0) a ≡ o
  getlk-OthersHave l pid i none h free none e = refl
  getlk-OthersHave l pid i none h free (some (kind, owner)) e =
      let (ne, has) = doc.getlk-some pid i l kind owner e in cc (free owner ne, has)
  getlk-OthersHave l pid i (some k) h (other, ne, has) none e =
      cc (doc.getlk-none pid i l e other ne, has)
  getlk-OthersHave l pid i (some k) h (other, ne, has) (some (kind, owner)) e =
      let (ne', has') = doc.getlk-some pid i l kind owner e in
      elim (ℕ_discrete owner other) [
        | yes same ↦ sym (subst (λ x. f.lock_of l x i ≡ some kind) same has') ∙ has
        | no apart ↦ elim (h i owner other apart) [ inl n ↦ cc (n, has') | inr n ↦ cc (n, has) ]
      ]

  answered :
      (w : World f b) (pid i c : ℕ) (a : Option (Kind × ℕ)) (o : Option Kind)
      → f.getlk pid wrlck i w.locks ≡ some a
      → Option.map (λ k. k.0) a ≡ o
      → Outcomes w pid i c o
  unfolding read_byte write_byte
  answered w pid i c none none e m = rw e (refl, refl)
  answered w pid i c none (some k) e m = cc
  answered w pid i c (some (k, owner)) none e m = cc
  answered w pid i c (some (rdlck, owner)) (some rdlck) e m = rw e (refl, refl)
  answered w pid i c (some (rdlck, owner)) (some wrlck) e m = cc
  answered w pid i c (some (wrlck, owner)) (some rdlck) e m = cc
  answered w pid i c (some (wrlck, owner)) (some wrlck) e m = rw e (refl, refl)

  -- With the calls as documented, at most one process with a lock on a byte, and a call to `fcntl` that
  -- does not fail: where no other process has a lock on it, the byte is read and written; where one has a
  -- read lock, it is not read but written; where one has a write lock, it is read but not written.
  pub guards :
      (w : World f b) (pid i c : ℕ) (o : Option Kind)
      → OneOwner f doc b w.locks
      → OthersHave w.locks pid i o
      → f.getlk pid wrlck i w.locks ≢ none
      → Outcomes w pid i c o
  guards w pid i c o h others ok = called (f.getlk pid wrlck i w.locks) refl
    where
      called :
          (a : Option (Option (Kind × ℕ))) → f.getlk pid wrlck i w.locks ≡ a → Outcomes w pid i c o
      called none e = absurd (ok e)
      called (some a) e = answered w pid i c a o e (getlk-OthersHave w.locks pid i o h others a e)
