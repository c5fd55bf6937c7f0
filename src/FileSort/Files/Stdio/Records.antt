-- ===== src/FileSort/Files/Stdio/Records.antt =====
-- By the C library, too, the three functions are as `sort` and `shuffle` expect.
use mathlib.Core.List.{Perm}
use sysopy_all.Base.{
  ℕ, suc, ◌*◌, ◌≤◌, ◌<◌, ◌^◌, ◌≢◌, ◌≡◌, refl, sym, ◌∙◌, List, Text, some, ◌>>=◌, length, get_elem?,
  set, arith, Returns, Returns-bind, Returns-mono, Returns-both, Returns-Ensures, Ensures,
  Ensures-any, false,
}
use sysopy_all.FileSort.{IsLawful, sort}
use sysopy_all.FileSort.Bubble.{Sorted}
use sysopy_all.FileSort.Sorting.{sort_file}
use sysopy_all.FileSort.Files.{Disk, Seeks, int_product}
use sysopy_all.FileSort.Files.Records.{
  concat, Sized, around, At, Reads, Writes, swap_by_lem, Sized-NonEmpty,
}
use sysopy_all.FileSort.Files.Stdio.{
  Stream, positioned, writing, IsSound, read_item, write_item, swap_records_lib,
  set_pointer_to_beginning_lib, lib_next_record, lib_file,
}

module _ (d : Stream) where
  -- The stream as a file of the system.
  abbrev pub as_disk : Disk
  as_disk = record {
    File = d.File;
    bytes = d.bytes;
    offset = d.offset;
    tell = d.ftell;
    lseek = d.fseek;
    read = λ n s. (d.fread n s).0 >>= λ r. some (r, (d.fread n s).1);
    write = λ ws s. some (d.fwrite ws s);
  }

  pub as_disk-Seeks : IsSound d → Seeks as_disk
  as_disk-Seeks h = record {
    tell_lem = h.ftell_lem;
    lseek_lem = λ p s.
        Returns-mono _ (λ t. (d.bytes t ≡ d.bytes s) × (d.offset t ≡ p)) (d.fseek p s)
          (λ t (a, b, c, p). (a, b)) (h.fseek_lem p s);
  }

module _ (d : Stream) (sound : IsSound d) (b : ℕ) where
  -- The indicator is clear, and reading may follow.
  abbrev pub CanRead : d.File → Type 0
  CanRead s = (d.feof s ≡ false) × (d.direction s ≢ writing)

  positioned-CanRead : (s : d.File) → (d.feof s ≡ false) → (d.direction s ≡ positioned) → CanRead s
  positioned-CanRead s f p = (f, λ e. cc)

  -- The stream holds the records, and stands at the start of one, from where it can be read.
  abbrev pub AtRecord : d.File → List Text → ℕ → Type 0
  AtRecord s rs k = At (as_disk d) b s rs k × CanRead s

  read_item-Reads : Reads (as_disk d) b (read_item d b)
  unfolding read_item
  read_item-Reads s rs k r e z h =
      let a = around b rs k r z h in
      Returns-bind _ _ (d.fseek (k * b) s) _ (sound.fseek_lem (k * b) s) (λ s1 (e1, o1, f1, p1).
        let (item, same, there, f, g) =
          sound.fread_lem s1 b a.left r a.right (e1 ∙ e ∙ a.whole) (o1 ∙ sym a.length_left) a.size
            (λ e. cc) in
        rw item (refl, same ∙ e1 ∙ e))

  write_item-Writes : Writes (as_disk d) b (write_item d b)
  unfolding write_item
  write_item-Writes s rs k r v e z h l =
      let a = around b rs k r z h in
      Returns-bind _ _ (d.fseek (k * b) s) _ (sound.fseek_lem (k * b) s) (λ s1 (e1, o1, f1, p1).
        (sound.fwrite_lem s1 a.left r a.right v (e1 ∙ e ∙ a.whole) (o1 ∙ sym a.length_left)
          (l ∙ sym a.size) (λ e. cc)).0
        ∙ sym (a.other v))

  -- The last call of `fseek` clears the indicator and sets the position.
  swap_records_lib-CanRead : (s : d.File) (i j : ℕ) → Ensures CanRead (swap_records_lib d b i j s)
  unfolding swap_records_lib
  swap_records_lib-CanRead s i j = Ensures-any CanRead (d.ftell s) _ (λ p.
      Ensures-any CanRead (int_product i b) _ (λ k. Ensures-any CanRead (int_product j b) _ (λ l.
        Ensures-any CanRead (read_item d b k s) _ (λ (x, s1).
          Ensures-any CanRead (read_item d b l s1) _ (λ (y, s2).
            Ensures-any CanRead (write_item d b k y s2) _ (λ s3.
              Ensures-any CanRead (write_item d b l x s3) _ (λ s4.
                Returns-Ensures CanRead (d.fseek p s4) (
                  Returns-mono _ CanRead (d.fseek p s4) (λ t (e, o, f, g). positioned-CanRead t f g)
                    (sound.fseek_lem p s4)))))))))

  swap_records_lib-At :
      (s : d.File) (rs : List Text) (k i j : ℕ) (x y : Text)
      → At (as_disk d) b s rs k
      → get_elem? rs i ≡ some x
      → get_elem? rs j ≡ some y
      → Returns (λ t. At (as_disk d) b t (set (set rs i y) j x) k) (swap_records_lib d b i j s)
  unfolding swap_records_lib
  swap_records_lib-At =
      swap_by_lem (as_disk d) b (as_disk-Seeks d sound) (read_item d b) (write_item d b)
        read_item-Reads write_item-Writes

  swap_records_lib_lem :
      (s : d.File) (rs : List Text) (k i j : ℕ) (x y : Text)
      → AtRecord s rs k
      → get_elem? rs i ≡ some x
      → get_elem? rs j ≡ some y
      → Returns (λ t. AtRecord t (set (set rs i y) j x) k) (swap_records_lib d b i j s)
  swap_records_lib_lem s rs k i j x y (at, f) hi hj =
      Returns-both (λ t. At (as_disk d) b t (set (set rs i y) j x) k) CanRead
        (swap_records_lib d b i j s) (swap_records_lib-At s rs k i j x y at hi hj)
        (swap_records_lib-CanRead s i j)

  lib_next_record_lem :
      (s : d.File) (rs : List Text) (k : ℕ) (r : Text)
      → AtRecord s rs k
      → get_elem? rs k ≡ some r
      → Returns (λ (q, t). (q ≡ r) × AtRecord t rs (suc k)) (lib_next_record d b s)
  unfolding lib_next_record
  lib_next_record_lem s rs k r ((e, z, o, l), (f, p)) h =
      let a = around b rs k r z h in
      let (item, same, there, f1, p1) =
        sound.fread_lem s b a.left r a.right (e ∙ a.whole) (o ∙ sym a.length_left) a.size p in
      rw (item, sound.ferror_lem (d.fread b s).1, f1 ∙ f)
        (refl, ((same ∙ e, z, ground (arith, there, a.length_left), l), (f1 ∙ f, λ e. cc)))

  rewind_lem :
      (s : d.File) (rs : List Text) (k : ℕ)
      → AtRecord s rs k
      → Returns (λ t. AtRecord t rs 0) (set_pointer_to_beginning_lib d b s)
  unfolding set_pointer_to_beginning_lib
  rewind_lem s rs k ((e, z, o, l), f) =
      Returns-mono _ _ (d.fseek 0 s)
        (λ t (e1, o1, f1, p1). ((e1 ∙ e, z, omega (arith, o1), l), positioned-CanRead t f1 p1))
        (sound.fseek_lem 0 s)

  -- On a sound stream of records of one size, of less than 2 ^ 31 bytes, the functions that `main` passes do what `sort` relies on.
  pub lib_file-IsLawful : IsLawful (lib_file d b) AtRecord
  lib_file-IsLawful = record {
    next_lem = lib_next_record_lem;
    swap_lem = swap_records_lib_lem;
    rewind_lem = rewind_lem;
  }

  -- `sort` with the C library, on a sound stream, just opened, that holds exactly the records given, each
  -- of `bytes_per_record` bytes, 1 or more, and with their number, less than 2 ^ 31 bytes in all: it returns, and the bytes of
  -- the file are then those records in ascending order of their first bytes.
  pub sort_lib :
      (s : d.File) (rs : List Text)
      → 1 ≤ b
      → d.bytes s ≡ concat rs
      → d.offset s ≡ 0
      → d.feof s ≡ false
      → d.direction s ≡ positioned
      → Sized b rs
      → length rs * b < 2 ^ 31
      → Returns
          (λ t. (ys : List Text) × Perm ys rs × Sorted ys × (d.bytes t ≡ concat ys))
          (sort (lib_file d b) (length rs) s)
  sort_lib s rs h e o f p z l =
      Returns-mono _ _ (sort (lib_file d b) (length rs) s)
        (λ t (ys, p, q, (k, ((e', z', o', l'), f'))). (ys, p, q, e'))
        (sort_file (lib_file d b) AtRecord lib_file-IsLawful rs s (Sized-NonEmpty b rs h z)
          (0, ((e, z, omega (arith, o), l), positioned-CanRead s f p)))
