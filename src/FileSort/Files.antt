-- ===== src/FileSort/Files.antt =====
-- The functions of cw02/zad1/files.c on one open file, by system calls.
pub mod Records
pub mod Stdio
use sysopy_all.Base.{
  ℕ, zero, suc, ◌+◌, ◌*◌, ◌^◌, ltb, ◌≡◌, List, Text, ◌++◌, Option, none, some, ◌>>=◌, ◌==◌,
  if◌then◌else◌, length, Returns,
}
use sysopy_all.FileSort.{RecordFile}

-- The system calls on an open file, over its state. `none` is the result -1.
pub record Disk : Type 1 where
  pub File : Type 0
  pub bytes : File → Text
  pub offset : File → ℕ
  pub tell : File → Option ℕ
  pub lseek : ℕ → File → Option File
  pub read : ℕ → File → Option (Text × File)
  pub write : Text → File → Option File

-- An offset in the file as documented: `tell` is `lseek(fd, 0, SEEK_CUR)`.
pub record Seeks (d : Disk) : Type 0 where
  pub tell_lem : (s : d.File) → d.tell s ≡ some (d.offset s)
  pub lseek_lem :
      (p : ℕ) (s : d.File) → Returns (λ t. (d.bytes t ≡ d.bytes s) × (d.offset t ≡ p)) (d.lseek p s)

-- The calls as documented, on a regular file and without input or output errors:
-- a read of bytes that the file has returns them all, and a write to
-- them replaces them all; either moves the offset past them.
pub record IsRegular (d : Disk) : Type 0 where
  pub seeks : Seeks d
  pub read_lem :
      (s : d.File) (n : ℕ) (xs ys zs : Text)
      → d.bytes s ≡ xs ++ (ys ++ zs)
      → d.offset s ≡ length xs
      → length ys ≡ n
      → Returns
          (λ (r, t). (r ≡ ys) × (d.bytes t ≡ d.bytes s) × (d.offset t ≡ length xs + n))
          (d.read n s)
  pub write_lem :
      (s : d.File) (xs ys zs ws : Text)
      → d.bytes s ≡ xs ++ (ys ++ zs)
      → d.offset s ≡ length xs
      → length ws ≡ length ys
      → Returns
          (λ t. (d.bytes t ≡ xs ++ (ws ++ zs)) × (d.offset t ≡ length xs + length ws))
          (d.write ws s)

-- `first * bytes_per_record` is an `int`; a product that is none is undefined.
unfoldable pub int_product : ℕ → ℕ → Option ℕ
int_product a b = if ltb (a * b) (2 ^ 31) then some (a * b) else none

module _ (d : Disk) (bytes_per_record : ℕ) where
  -- A seek and a read into a buffer of one record. A read of fewer bytes would leave the buffer
  -- partly unset.
  unfoldable pub read_record : ℕ → d.File → Option (Text × d.File)
  read_record start s = do
    s1 ← d.lseek start s
    (r, s2) ← d.read bytes_per_record s1
    if length r == bytes_per_record then some (r, s2) else none

  unfoldable pub write_record : ℕ → Text → d.File → Option d.File
  write_record start r s = do s1 ← d.lseek start s; d.write r s1

  unfoldable pub swap_records_sys : ℕ → ℕ → d.File → Option d.File
  unfolding int_product read_record write_record
  swap_records_sys first second s = do
    tmp_position ← d.tell s
    first_record_start_index ← int_product first bytes_per_record
    second_record_start_index ← int_product second bytes_per_record
    (first_record_buffer, s1) ← read_record first_record_start_index s
    (temp_buffer, s2) ← read_record second_record_start_index s1
    s3 ← write_record first_record_start_index temp_buffer s2
    s4 ← write_record second_record_start_index first_record_buffer s3
    d.lseek tmp_position s4

  unfoldable pub set_pointer_to_beginning_sys : d.File → Option d.File
  set_pointer_to_beginning_sys s = d.lseek 0 s

  -- At the end of the file it starts again; the fuel counts the reads.
  unfoldable pub sys_next_record : ℕ → d.File → Option (Text × d.File)
  sys_next_record zero s = none
  sys_next_record (suc k) s = do
    (r, s1) ← d.read bytes_per_record s
    let again = (do s2 ← d.lseek 0 s1; sys_next_record k s2)
    if length r == 0 then again else if length r == bytes_per_record then some (r, s1) else none

  -- What `main` passes to `sort` and `shuffle`. A second read that returns nothing is of an empty
  -- file, from which the program never returns.
  abbrev pub sys_file : RecordFile
  sys_file = record {
    State = d.File;
    next_record = sys_next_record 2;
    swap_records = swap_records_sys;
    set_pointer_to_beginning = set_pointer_to_beginning_sys;
  }
