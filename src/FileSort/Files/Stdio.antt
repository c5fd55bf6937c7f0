-- ===== src/FileSort/Files/Stdio.antt =====
-- The functions of cw02/zad1/files.c on one open file, by the C library.
pub mod Records
use sysopy_all.Base.{
  ℕ, ◌+◌, ◌*◌, ◌≡◌, ◌≢◌, Bool, false, List, Text, ◌++◌, Option, none, some, ◌>>=◌, if◌then◌else◌,
  length, Returns,
}
use sysopy_all.FileSort.{RecordFile}
use sysopy_all.FileSort.Files.{int_product}

-- What the last call on a stream did. On a stream open for both, reading may follow writing, or writing
-- reading, only after a call that sets the position.
pub data Direction : Type 0 where
  positioned : Direction
  reading : Direction
  writing : Direction

-- The calls on a stream, over its state. `ftell` and `fseek` give `none` where they fail, and `fread`
-- of one item gives the item if it is read whole.
pub record Stream : Type 1 where
  pub File : Type 0
  pub bytes : File → Text
  pub offset : File → ℕ
  pub direction : File → Direction
  pub ftell : File → Option ℕ
  pub fseek : ℕ → File → Option File
  pub fread : ℕ → File → Option Text × File
  pub fwrite : Text → File → File
  pub ferror : File → Bool
  pub feof : File → Bool

-- The calls as documented, on a stream of a regular file without input or output errors, open for
-- reading and writing: where the last call was no write, an item that the file has is read whole, which is
-- no attempt to read past the end and leaves its indicator; where it was no read, a write to bytes that
-- the file has replaces them. Either moves the offset past them. `fseek` clears the indicator.
pub record IsSound (d : Stream) : Type 0 where
  pub ftell_lem : (s : d.File) → d.ftell s ≡ some (d.offset s)
  pub fseek_lem :
      (p : ℕ) (s : d.File)
      → Returns
          (λ t.
            (d.bytes t ≡ d.bytes s)
            × (d.offset t ≡ p)
            × (d.feof t ≡ false)
            × (d.direction t ≡ positioned))
          (d.fseek p s)
  pub ferror_lem : (s : d.File) → d.ferror s ≡ false
  pub fread_lem :
      (s : d.File) (n : ℕ) (xs ys zs : Text)
      → d.bytes s ≡ xs ++ (ys ++ zs)
      → d.offset s ≡ length xs
      → length ys ≡ n
      → d.direction s ≢ writing
      → ((d.fread n s).0 ≡ some ys)
        × (d.bytes (d.fread n s).1 ≡ d.bytes s)
        × (d.offset (d.fread n s).1 ≡ length xs + n)
        × (d.feof (d.fread n s).1 ≡ d.feof s)
        × (d.direction (d.fread n s).1 ≡ reading)
  pub fwrite_lem :
      (s : d.File) (xs ys zs ws : Text)
      → d.bytes s ≡ xs ++ (ys ++ zs)
      → d.offset s ≡ length xs
      → length ws ≡ length ys
      → d.direction s ≢ reading
      → (d.bytes (d.fwrite ws s) ≡ xs ++ (ws ++ zs))
        × (d.offset (d.fwrite ws s) ≡ length xs + length ws)
        × (d.direction (d.fwrite ws s) ≡ writing)

module _ (d : Stream) (bytes_per_record : ℕ) where
  unfoldable pub read_item : ℕ → d.File → Option (Text × d.File)
  read_item start s = do
    s1 ← d.fseek start s
    r ← (d.fread bytes_per_record s1).0
    some (r, (d.fread bytes_per_record s1).1)

  -- The result of `fwrite` is compared with -1, which it never is.
  unfoldable pub write_item : ℕ → Text → d.File → Option d.File
  write_item start r s = do s1 ← d.fseek start s; some (d.fwrite r s1)

  unfoldable pub swap_records_lib : ℕ → ℕ → d.File → Option d.File
  unfolding int_product read_item write_item
  swap_records_lib first second s = do
    tmp_position ← d.ftell s
    first_record_start_index ← int_product first bytes_per_record
    second_record_start_index ← int_product second bytes_per_record
    (first_record_buffer, s1) ← read_item first_record_start_index s
    (temp_buffer, s2) ← read_item second_record_start_index s1
    s3 ← write_item first_record_start_index temp_buffer s2
    s4 ← write_item second_record_start_index first_record_buffer s3
    d.fseek tmp_position s4

  unfoldable pub set_pointer_to_beginning_lib : d.File → Option d.File
  set_pointer_to_beginning_lib s = d.fseek 0 s

  unfoldable pub lib_next_record : d.File → Option (Text × d.File)
  lib_next_record s = do
    next_record ← (d.fread bytes_per_record s).0
    let s1 = (d.fread bytes_per_record s).1
    let again = (do s2 ← d.fseek 0 s1; some (next_record, s2))
    if d.ferror s1 then none else if d.feof s1 then again else some (next_record, s1)

  -- What `main` passes to `sort` and `shuffle`.
  abbrev pub lib_file : RecordFile
  lib_file = record {
    State = d.File;
    next_record = lib_next_record;
    swap_records = swap_records_lib;
    set_pointer_to_beginning = set_pointer_to_beginning_lib;
  }
