-- ===== src/FileSort/Files/Records.antt =====
-- A file of records of one size: the three functions are as `sort` and `shuffle` expect.
use sysopy_all.Base.{
  ℕ, zero, suc, ◌*◌, ◌≤◌, ◌≡◌, refl, ap, sym, ◌∙◌, List, [], ◌∷◌, ◌++◌, Text, Option, some, ◌>>=◌,
  ◌==◌, ==_iff, length, length-append, get_elem?, set, length-set, lt→ltb, ◌<◌, ◌^◌, arith, Returns,
  Returns-bind, Returns-mono, false,
}
use mathlib.Core.List.{append_assoc}
use mathlib.Core.Option.{some_inj, none-ne-some}
use mathlib.Core.List.{Perm}
use sysopy_all.FileSort.{IsLawful, sort, shuffle}
use sysopy_all.FileSort.Bubble.{Each, Sorted}
use sysopy_all.FileSort.Sorting.{NonEmpty, sort_file}
use sysopy_all.FileSort.Shuffling.{shuffle_keeps}
use sysopy_all.FileSort.Files.{
  Disk, Seeks, IsRegular, int_product, read_record, write_record, swap_records_sys,
  set_pointer_to_beginning_sys, sys_next_record, sys_file,
}

abbrev pub concat : List Text → Text
concat [] = []
concat (r ∷ rs) = r ++ concat rs

abbrev pub Sized : ℕ → List Text → Type 0
Sized b [] = Unit
Sized b (r ∷ rs) = (length r ≡ b) × Sized b rs

-- The bytes around record `k`, and what the bytes are when another record stands there.
pub record Around (b : ℕ) (rs : List Text) (k : ℕ) (r : Text) : Type 0 where
  pub left : Text
  pub right : Text
  pub length_left : length left ≡ k * b
  pub whole : concat rs ≡ left ++ (r ++ right)
  pub size : length r ≡ b
  pub other : (v : Text) → concat (set rs k v) ≡ left ++ (v ++ right)

pub around :
    (b : ℕ) (rs : List Text) (k : ℕ) (r : Text)
    → Sized b rs
    → get_elem? rs k ≡ some r
    → Around b rs k r
around b [] k r s h = absurd (none-ne-some r h)
around b (q ∷ rs) zero r (e, s) h = rw (sym (some_inj.0 h)) (record {
  left = [];
  right = concat rs;
  length_left = omega arith;
  whole = refl;
  size = e;
  other = λ v. refl;
})
around b (q ∷ rs) (suc k) r (e, s) h =
    let a = around b rs k r s h in
    record {
      left = q ++ a.left;
      right = a.right;
      length_left = ground (arith, a.length_left, e, length-append q a.left);
      whole = ap (λ xs. q ++ xs) a.whole ∙ sym (append_assoc q a.left (r ++ a.right));
      size = a.size;
      other = λ v. ap (λ xs. q ++ xs) (a.other v) ∙ sym (append_assoc q a.left (v ++ a.right));
    }

Sized-set :
    (b : ℕ) (rs : List Text) (k : ℕ) (v : Text) → Sized b rs → length v ≡ b → Sized b (set rs k v)
Sized-set b [] k v s e = tt
Sized-set b (r ∷ rs) zero v (h, s) e = (e, s)
Sized-set b (r ∷ rs) (suc k) v (h, s) e = (h, Sized-set b rs k v s e)

get_elem?-set-some :
    (rs : List Text) (i j : ℕ) (v w : Text)
    → get_elem? rs j ≡ some w
    → (u : Text) × (get_elem? (set rs i v) j ≡ some u)
get_elem?-set-some [] i j v w h = (w, h)
get_elem?-set-some (r ∷ rs) zero zero v w h = (v, refl)
get_elem?-set-some (r ∷ rs) zero (suc j) v w h = (w, h)
get_elem?-set-some (r ∷ rs) (suc i) zero v w h = (w, h)
get_elem?-set-some (r ∷ rs) (suc i) (suc j) v w h = get_elem?-set-some rs i j v w h

pub Sized-NonEmpty : (b : ℕ) (rs : List Text) → 1 ≤ b → Sized b rs → Each NonEmpty rs
Sized-NonEmpty b [] h z = tt
Sized-NonEmpty b (r ∷ rs) h (e, z) = (omega arith, Sized-NonEmpty b rs h z)

int_product_lem :
    (rs : List Text) (k : ℕ) (r : Text) (b : ℕ)
    → get_elem? rs k ≡ some r
    → length rs * b < 2 ^ 31
    → int_product k b ≡ some (k * b)
unfolding int_product
int_product_lem rs k r b h l = rw (lt→ltb (k * b) (2 ^ 31) (fits rs k r h l)) refl
  where
    below : (rs : List Text) (k : ℕ) (r : Text) → get_elem? rs k ≡ some r → k * b ≤ length rs * b
    below [] k r h = absurd (none-ne-some r h)
    below (q ∷ rs) zero r h = omega arith
    below (q ∷ rs) (suc k) r h = omega (arith, below rs k r h)

    fits :
        (rs : List Text) (k : ℕ) (r : Text)
        → get_elem? rs k ≡ some r
        → length rs * b < 2 ^ 31
        → k * b < 2 ^ 31
    fits rs k r h l = omega (arith, below rs k r h)

module _ (d : Disk) (b : ℕ) where
  -- The file holds the records `rs`, and its offset is at the start of the record `k`. Its bytes
  -- can be counted in an `int`.
  abbrev pub At : d.File → List Text → ℕ → Type 0
  At s rs k = (d.bytes s ≡ concat rs) × Sized b rs × (d.offset s ≡ k * b) × (length rs * b < 2 ^ 31)

  -- Two records change places, by any functions that read and write one record.
  abbrev pub swap_by :
      (ℕ → d.File → Option (Text × d.File))
      → (ℕ → Text → d.File → Option d.File)
      → ℕ
      → ℕ
      → d.File
      → Option d.File
  swap_by rd wr first second s = do
    tmp_position ← d.tell s
    x ← int_product first b
    y ← int_product second b
    (first_record_buffer, s1) ← rd x s
    (temp_buffer, s2) ← rd y s1
    s3 ← wr x temp_buffer s2
    s4 ← wr y first_record_buffer s3
    d.lseek tmp_position s4

  -- What these two do on a file of records.
  abbrev pub Reads : (ℕ → d.File → Option (Text × d.File)) → Type 0
  Reads rd =
      (s : d.File) (rs : List Text) (k : ℕ) (r : Text)
      → d.bytes s ≡ concat rs
      → Sized b rs
      → get_elem? rs k ≡ some r
      → Returns (λ (q, t). (q ≡ r) × (d.bytes t ≡ concat rs)) (rd (k * b) s)

  abbrev pub Writes : (ℕ → Text → d.File → Option d.File) → Type 0
  Writes wr =
      (s : d.File) (rs : List Text) (k : ℕ) (r v : Text)
      → d.bytes s ≡ concat rs
      → Sized b rs
      → get_elem? rs k ≡ some r
      → length v ≡ b
      → Returns (λ t. d.bytes t ≡ concat (set rs k v)) (wr (k * b) v s)

module _ (d : Disk) (b : ℕ) (seeks : Seeks d) where
  pub swap_by_lem :
      (rd : ℕ → d.File → Option (Text × d.File)) (wr : ℕ → Text → d.File → Option d.File)
      → Reads d b rd
      → Writes d b wr
      → (s : d.File) (rs : List Text) (k i j : ℕ) (x y : Text) → At d b s rs k
      → get_elem? rs i ≡ some x
      → get_elem? rs j ≡ some y
      → Returns (λ t. At d b t (set (set rs i y) j x) k) (swap_by d b rd wr i j s)
  swap_by_lem rd wr read write s rs k i j x y (e, z, o, l) hi hj =
      let lx = (around b rs i x z hi).size in
      let ly = (around b rs j y z hj).size in
      let (u, hu) = get_elem?-set-some rs i j y y hj in
      let z1 = Sized-set b rs i y z ly in
      rw (seeks.tell_lem s, int_product_lem rs i x b hi l, int_product_lem rs j y b hj l)
        (Returns-bind _ _ (rd (i * b) s) _ (read s rs i x e z hi) (λ (x', s1) (ex, e1). rw ex (
          Returns-bind _ _ (rd (j * b) s1) _ (read s1 rs j y e1 z hj) (λ (y', s2) (ey, e2). rw ey (
            Returns-bind _ _ (wr (i * b) y s2) _ (write s2 rs i x y e2 z hi ly) (λ s3 e3.
              Returns-bind _ _ (wr (j * b) x s3) _ (write s3 (set rs i y) j u x e3 z1 hu lx)
                (λ s4 e4.
                  Returns-mono _ _ (d.lseek (d.offset s) s4)
                    (λ t (e5, o5). (
                      e5 ∙ e4,
                      Sized-set b (set rs i y) j x z1 lx,
                      o5 ∙ o,
                      rw (length-set (set rs i y) j x, length-set rs i y) l,
                    ))
                    (seeks.lseek_lem (d.offset s) s4))))))))

module _ (d : Disk) (reg : IsRegular d) (b : ℕ) where
  read_record_lem :
      (s : d.File) (rs : List Text) (k : ℕ) (r : Text)
      → d.bytes s ≡ concat rs
      → Sized b rs
      → get_elem? rs k ≡ some r
      → Returns (λ (q, t). (q ≡ r) × (d.bytes t ≡ concat rs)) (read_record d b (k * b) s)
  unfolding read_record
  read_record_lem s rs k r e z h =
      let a = around b rs k r z h in
      Returns-bind _ _ (d.lseek (k * b) s) _ (reg.seeks.lseek_lem (k * b) s) (λ s1 (e1, o1).
        Returns-bind _ _ (d.read b s1) _
          (reg.read_lem s1 b a.left r a.right (e1 ∙ e ∙ a.whole) (o1 ∙ sym a.length_left) a.size)
          (λ (q, s2) (e2, e3, o3). rw (e2, (==_iff (length r) b).1 a.size) (refl, e3 ∙ e1 ∙ e)))

  write_record_lem :
      (s : d.File) (rs : List Text) (k : ℕ) (r v : Text)
      → d.bytes s ≡ concat rs
      → Sized b rs
      → get_elem? rs k ≡ some r
      → length v ≡ b
      → Returns (λ t. d.bytes t ≡ concat (set rs k v)) (write_record d b (k * b) v s)
  unfolding write_record
  write_record_lem s rs k r v e z h l =
      let a = around b rs k r z h in
      Returns-bind _ _ (d.lseek (k * b) s) _ (reg.seeks.lseek_lem (k * b) s) (λ s1 (e1, o1).
        Returns-mono _ _ (d.write v s1) (λ t (e2, o2). e2 ∙ sym (a.other v))
          (reg.write_lem s1 a.left r a.right v (e1 ∙ e ∙ a.whole) (o1 ∙ sym a.length_left)
            (l ∙ sym a.size)))

  -- `swap_records_sys` swaps two records of the file, of less than 2 ^ 31 bytes, which may be the same, and puts the offset back.
  pub swap_records_sys_lem :
      (s : d.File) (rs : List Text) (k i j : ℕ) (x y : Text)
      → At d b s rs k
      → get_elem? rs i ≡ some x
      → get_elem? rs j ≡ some y
      → Returns (λ t. At d b t (set (set rs i y) j x) k) (swap_records_sys d b i j s)
  unfolding swap_records_sys
  swap_records_sys_lem =
      swap_by_lem d b reg.seeks (read_record d b) (write_record d b) read_record_lem
        write_record_lem

  next_record_lem :
      (s : d.File) (rs : List Text) (k : ℕ) (r : Text)
      → 1 ≤ b
      → At d b s rs k
      → get_elem? rs k ≡ some r
      → Returns (λ (q, t). (q ≡ r) × At d b t rs (suc k)) (sys_next_record d b 2 s)
  unfolding sys_next_record
  next_record_lem s rs k r h1 (e, z, o, l) h =
      let a = around b rs k r z h in
      Returns-bind _ _ (d.read b s) _
        (reg.read_lem s b a.left r a.right (e ∙ a.whole) (o ∙ sym a.length_left) a.size)
        (λ (q, t) (e1, e2, o2).
          rw (e1, nonempty r a.size, (==_iff (length r) b).1 a.size)
            (refl, (e2 ∙ e, z, ground (arith, o2, a.length_left), l)))
    where
      nonempty : (r : Text) → length r ≡ b → (length r == 0) ≡ false
      nonempty r h = ground (arith, h, h1)

  rewind_lem :
      (s : d.File) (rs : List Text) (k : ℕ)
      → At d b s rs k
      → Returns (λ t. At d b t rs 0) (set_pointer_to_beginning_sys d b s)
  unfolding set_pointer_to_beginning_sys
  rewind_lem s rs k (e, z, o, l) =
      Returns-mono _ _ (d.lseek 0 s) (λ t (e1, o1). (e1 ∙ e, z, omega (arith, o1), l))
        (reg.seeks.lseek_lem 0 s)

  -- On a regular file of records of one size, 1 byte or more, and of less than 2 ^ 31 bytes, the functions that `main` passes do what
  -- `sort` and `shuffle` rely on.
  pub sys_file-IsLawful : 1 ≤ b → IsLawful (sys_file d b) (At d b)
  sys_file-IsLawful h = record {
    next_lem = λ s xs k r at e. next_record_lem s xs k r h at e;
    swap_lem = swap_records_sys_lem;
    rewind_lem = rewind_lem;
  }

  -- `sort` with the system calls, on a regular file, just opened, that holds exactly the records given, each of
  -- `bytes_per_record` bytes, 1 or more, and with their number, less than 2 ^ 31 bytes in all: it
  -- returns, and the bytes of the file are then those records in ascending order of their first bytes.
  pub sort_sys :
      (s : d.File) (rs : List Text)
      → 1 ≤ b
      → d.bytes s ≡ concat rs
      → d.offset s ≡ 0
      → Sized b rs
      → length rs * b < 2 ^ 31
      → Returns
          (λ t. (ys : List Text) × Perm ys rs × Sorted ys × (d.bytes t ≡ concat ys))
          (sort (sys_file d b) (length rs) s)
  sort_sys s rs h e o z l =
      Returns-mono _ _ (sort (sys_file d b) (length rs) s)
        (λ t (ys, p, q, (k, (e', z', o', l'))). (ys, p, q, e'))
        (sort_file (sys_file d b) (At d b) (sys_file-IsLawful h) rs s (Sized-NonEmpty b rs h z)
          (0, (e, z, omega (arith, o), l)))

  -- `shuffle` with the system calls, on a regular file, just opened, that holds exactly the records
  -- given, each of `bytes_per_record` bytes, 1 or more, and with their number, less than 2 ^ 31 bytes in
  -- all: it returns, and the bytes
  -- of the file are as before.
  pub shuffle_sys :
      (s : d.File) (rs : List Text)
      → 1 ≤ b
      → d.bytes s ≡ concat rs
      → d.offset s ≡ 0
      → Sized b rs
      → length rs * b < 2 ^ 31
      → Returns (λ t. d.bytes t ≡ d.bytes s) (shuffle (sys_file d b) (length rs) s)
  shuffle_sys s rs h e o z l =
      Returns-mono _ _ (shuffle (sys_file d b) (length rs) s)
        (λ t (k, (e', z', o', l')). e' ∙ sym e)
        (shuffle_keeps (sys_file d b) (At d b) (sys_file-IsLawful h) rs s
          (0, (e, z, omega (arith, o), l)))
