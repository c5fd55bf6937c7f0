-- ===== src/FileSort/Tests.antt =====
-- A file in memory as the disk and as a stream, and the theorems at a file of four records.
use mathlib.Core.List.{Perm}
use sysopy_all.Base.{
  ℕ, zero, suc, ◌+◌, ◌≡◌, refl, sym, List, [], ◌∷◌, ◌++◌, Text, Option, some, arith, length,
  Returns, Bool, true, false, none, ◌==◌, ==_iff, if◌then◌else◌,
}
use sysopy_all.FileSort.{sort}
use sysopy_all.FileSort.Bubble.{Sorted}
use sysopy_all.FileSort.Files.{
  Disk, IsRegular, sys_file, int_product, swap_records_sys, sys_next_record,
  set_pointer_to_beginning_sys,
}
use sysopy_all.FileSort.Files.Records.{concat, sort_sys}
use sysopy_all.FileSort.Files.Stdio.{
  Stream, Direction, positioned, reading, writing, IsSound, lib_file,
}
use sysopy_all.FileSort.Files.Stdio.Records.{sort_lib}

-- The first `n` bytes, and the others.
cut_at : ℕ → Text → Text × Text
cut_at zero xs = ([], xs)
cut_at (suc n) [] = ([], [])
cut_at (suc n) (x ∷ xs) = let (l, r) = cut_at n xs in (x ∷ l, r)

cut_at-append : (xs ys : Text) (n : ℕ) → n ≡ length xs → cut_at n (xs ++ ys) ≡ (xs, ys)
unfolding cut_at
cut_at-append [] ys zero h = refl
cut_at-append [] ys (suc n) h = absurd (omega arith)
cut_at-append (x ∷ xs) ys zero h = absurd (omega arith)
cut_at-append (x ∷ xs) ys (suc n) h = rw (cut_at-append xs ys n (omega arith)) refl

record MemoryFile : Type 0 where
  content : Text
  at : ℕ

read_memory : ℕ → MemoryFile → Option (Text × MemoryFile)
unfolding cut_at
read_memory n f =
    let r = (cut_at n (cut_at f.at f.content).1).0 in some (r, record f { at = f.at + length r })

write_memory : Text → MemoryFile → Option MemoryFile
unfolding cut_at
write_memory ws f =
    let (l, r) = cut_at f.at f.content in
    some (record { content = l ++ (ws ++ (cut_at (length ws) r).1); at = f.at + length ws })

abbrev memory : Disk
memory = record {
  File = MemoryFile;
  bytes = λ f. f.content;
  offset = λ f. f.at;
  tell = λ f. some f.at;
  lseek = λ p f. some (record f { at = p });
  read = read_memory;
  write = write_memory;
}

memory-IsRegular : IsRegular memory
unfolding read_memory write_memory
memory-IsRegular = record {
  seeks = record { tell_lem = λ s. refl; lseek_lem = λ p s. (refl, refl) };
  read_lem = λ s n xs ys zs e o l.
      rw (e, o, cut_at-append xs (ys ++ zs) (length xs) refl, cut_at-append ys zs n (sym l))
        (refl, refl, omega (arith, l));
  write_lem = λ s xs ys zs ws e o l.
      rw (e, o, cut_at-append xs (ys ++ zs) (length xs) refl, cut_at-append ys zs (length ws) l)
        (refl, refl);
}

abbrev four : List Text
four = (3 ∷ 1 ∷ []) ∷ (1 ∷ 2 ∷ []) ∷ (3 ∷ 3 ∷ []) ∷ (2 ∷ 4 ∷ []) ∷ []

abbrev four_file : MemoryFile
four_file = record { content = 3 ∷ 1 ∷ 1 ∷ 2 ∷ 3 ∷ 3 ∷ 2 ∷ 4 ∷ []; at = 0 }

sort_four :
    sort (sys_file memory 2) 4 four_file
    ≡ some (record { content = 1 ∷ 2 ∷ 2 ∷ 4 ∷ 3 ∷ 1 ∷ 3 ∷ 3 ∷ []; at = 4 })
unfolding sort int_product swap_records_sys sys_next_record set_pointer_to_beginning_sys read_memory
    write_memory
sort_four = refl

sort_sys_example :
    Returns
      (λ t. (ys : List Text) × Perm ys four × Sorted ys × (t.content ≡ concat ys))
      (sort (sys_file memory 2) 4 four_file)
sort_sys_example =
    sort_sys memory memory-IsRegular 2 four_file four (omega arith) refl refl
      (refl, (refl, (refl, (refl, tt)))) (omega arith)

-- A file in memory as a stream, with its end-of-file indicator and what was done last.
record MemoryStream : Type 0 where
  file : MemoryFile
  ended : Bool
  done : Direction

fread_memory : ℕ → MemoryStream → Option Text × MemoryStream
unfolding cut_at
fread_memory n f =
    let r = (cut_at n (cut_at f.file.at f.file.content).1).0 in
    let file = record (f.file) { at = f.file.at + length r } in
    if length r == n
    then (some r, record f { file = file; done = reading })
    else (none, record { file = file; ended = true; done = reading })

fwrite_memory : Text → MemoryStream → MemoryStream
unfolding cut_at
fwrite_memory ws f =
    let (l, r) = cut_at f.file.at f.file.content in
    record f {
      file = record { content = l ++ (ws ++ (cut_at (length ws) r).1); at = f.file.at + length ws };
      done = writing;
    }

abbrev stream : Stream
stream = record {
  File = MemoryStream;
  bytes = λ f. f.file.content;
  offset = λ f. f.file.at;
  direction = λ f. f.done;
  ftell = λ f. some f.file.at;
  fseek =
      λ p f. some (record { file = record (f.file) { at = p }; ended = false; done = positioned });
  fread = fread_memory;
  fwrite = fwrite_memory;
  ferror = λ f. false;
  feof = λ f. f.ended;
}

stream-IsSound : IsSound stream
unfolding fread_memory fwrite_memory
stream-IsSound = record {
  ftell_lem = λ s. refl;
  fseek_lem = λ p s. (refl, refl, refl, refl);
  ferror_lem = λ s. refl;
  fread_lem = λ s n xs ys zs e o l p.
      rw
        (
          e,
          o,
          cut_at-append xs (ys ++ zs) (length xs) refl,
          cut_at-append ys zs n (sym l),
          (==_iff (length ys) n).1 l,
        )
        (refl, refl, omega (arith, l), refl, refl);
  fwrite_lem = λ s xs ys zs ws e o l p.
      rw (e, o, cut_at-append xs (ys ++ zs) (length xs) refl, cut_at-append ys zs (length ws) l)
        (refl, refl, refl);
}

abbrev four_stream : MemoryStream
four_stream = record { file = four_file; ended = false; done = positioned }

sort_lib_example :
    Returns
      (λ t. (ys : List Text) × Perm ys four × Sorted ys × (t.file.content ≡ concat ys))
      (sort (lib_file stream 2) 4 four_stream)
sort_lib_example =
    sort_lib stream stream-IsSound 2 four_stream four (omega arith) refl refl refl refl
      (refl, (refl, (refl, (refl, tt)))) (omega arith)
