-- ===== src/Gdb/HostIo/Table.antt =====
-- The table of open files as a finite map from descriptors to files.
use mathlib.Core.Option
use riscv_trace_debugger.Prelude.{
  ℕ, zero, suc, ◌+◌, ◌-◌, ◌^◌, ◌≤◌, ◌<◌, ◌≡◌, refl, ap, sym, ◌∙◌, false, Option, none, some, List,
  [], ◌∷◌, ◌==◌, ltb, if◌then◌else◌, length, get_elem?, set, arith, ok,
}
use riscv_trace_debugger.Trace.{Text}
use riscv_trace_debugger.Str.{codes, starts_with, text_eq}
use riscv_trace_debugger.Str.Utf8.{from_utf8}
use riscv_trace_debugger.Gdb.Buffers.{fake_elf_filename}
use riscv_trace_debugger.Machine.{Machine, File}
use riscv_trace_debugger.Gdb.HostIo.{
  HostFs, HostIoOpenFlags, place, free_place, pop_end, pop_free, file_at, open_options, open_file,
  close, fd_reserved,
}

abbrev files_at : List (Option File) → ℕ → Option File
files_at files i = Option.get_or (get_elem? files i) none

-- No free place stands at the end of the table.
abbrev pub IsPacked : List (Option File) → Type 0
IsPacked [] = Unit
IsPacked (none ∷ []) = ⊥
IsPacked (some f ∷ []) = Unit
IsPacked (f ∷ g ∷ files) = IsPacked (g ∷ files)

files_at-place :
    (files : List (Option File)) (file : File) (i : ℕ)
    → files_at (place files file) i
      ≡ (if i == free_place files then some file else files_at files i)
unfolding place free_place
files_at-place [] file zero = refl
files_at-place [] file (suc i) = ground arith
files_at-place (none ∷ files) file zero = refl
files_at-place (none ∷ files) file (suc i) = ground arith
files_at-place (some f ∷ files) file zero = ground arith
files_at-place (some f ∷ files) file (suc i) = ground (arith, files_at-place files file i)

free_place-IsFree : (files : List (Option File)) → files_at files (free_place files) ≡ none
unfolding free_place
free_place-IsFree [] = refl
free_place-IsFree (none ∷ files) = refl
free_place-IsFree (some f ∷ files) = free_place-IsFree files

free_place-le : (files : List (Option File)) → free_place files ≤ length files
unfolding free_place
free_place-le [] = omega arith
free_place-le (none ∷ files) = omega arith
free_place-le (some f ∷ files) = omega (arith, free_place-le files)

files_at-pop_end :
    (f : Option File) (rest : List (Option File)) (i : ℕ)
    → files_at (pop_end f rest) i ≡ files_at (f ∷ rest) i
files_at-pop_end f (g ∷ rest) i = refl
files_at-pop_end none [] zero = refl
files_at-pop_end none [] (suc i) = refl
files_at-pop_end (some file) [] i = refl

files_at-pop_free :
    (files : List (Option File)) (i : ℕ) → files_at (pop_free files) i ≡ files_at files i
unfolding pop_free
files_at-pop_free [] i = refl
files_at-pop_free (f ∷ files) zero = files_at-pop_end f (pop_free files) zero
files_at-pop_free (f ∷ files) (suc i) =
    files_at-pop_end f (pop_free files) (suc i) ∙ files_at-pop_free files i

pop_end-IsPacked :
    (f : Option File) (rest : List (Option File)) → IsPacked rest → IsPacked (pop_end f rest)
pop_end-IsPacked none (g ∷ rest) h = h
pop_end-IsPacked (some file) (g ∷ rest) h = h
pop_end-IsPacked none [] h = tt
pop_end-IsPacked (some file) [] h = tt

pop_free-IsPacked : (files : List (Option File)) → IsPacked (pop_free files)
unfolding pop_free
pop_free-IsPacked [] = tt
pop_free-IsPacked (f ∷ files) = pop_end-IsPacked f (pop_free files) (pop_free-IsPacked files)

IsPacked-tail :
    (f : Option File) (files : List (Option File)) → IsPacked (f ∷ files) → IsPacked files
IsPacked-tail f [] h = tt
IsPacked-tail none (g ∷ files) h = h
IsPacked-tail (some file) (g ∷ files) h = h

IsPacked-cons_some :
    (file : File) (files : List (Option File)) → IsPacked files → IsPacked (some file ∷ files)
IsPacked-cons_some file [] h = tt
IsPacked-cons_some file (g ∷ files) h = h

place-IsPacked :
    (files : List (Option File)) (file : File) → IsPacked files → IsPacked (place files file)
unfolding place
place-IsPacked [] file h = tt
place-IsPacked (none ∷ files) file h = IsPacked-cons_some file files (IsPacked-tail none files h)
place-IsPacked (some f ∷ files) file h =
    IsPacked-cons_some f (place files file)
      (place-IsPacked files file (IsPacked-tail (some f) files h))

files_at-set :
    (files : List (Option File)) (j i : ℕ) (v : Option File)
    → j < length files
    → files_at (set files j v) i ≡ (if i == j then v else files_at files i)
files_at-set [] j i v h = elim h [ ]
files_at-set (f ∷ files) zero zero v h = refl
files_at-set (f ∷ files) zero (suc i) v h = ground arith
files_at-set (f ∷ files) (suc j) zero v h = ground arith
files_at-set (f ∷ files) (suc j) (suc i) v h = ground (arith, files_at-set files j i v)

lt_of_files_at :
    (files : List (Option File)) (i : ℕ) {f : File} → files_at files i ≡ some f → i < length files
lt_of_files_at [] i h = cc
lt_of_files_at (g ∷ files) zero h = omega arith
lt_of_files_at (g ∷ files) (suc i) h = omega (arith, lt_of_files_at files i h)

file_at_zero : (files : List (Option File)) → file_at files 0 ≡ none
unfolding file_at
file_at_zero files = refl

file_at-suc : (files : List (Option File)) (i : ℕ) → file_at files (suc i) ≡ files_at files i
unfolding file_at
file_at-suc files i = rw open_fd (ap (files_at files) index)
  where
    open_fd : ltb (suc i) fd_reserved ≡ false
    open_fd = ground arith

    index : suc i - 1 ≡ i
    index = omega arith

file_at-place :
    (files : List (Option File)) (file : File) (x : ℕ)
    → file_at (place files file) x
      ≡ (if x == free_place files + 1 then some file else file_at files x)
file_at-place files file zero = ground (arith, file_at_zero files, file_at_zero (place files file))
file_at-place files file (suc x) =
    rw (file_at-suc (place files file) x, file_at-suc files x, files_at-place files file x)
      (ground arith)

file_at-pop_free-set :
    (files : List (Option File)) (i x : ℕ)
    → i < length files
    → file_at (pop_free (set files i none)) x ≡ (if x == suc i then none else file_at files x)
file_at-pop_free-set files i zero h =
    ground (arith, file_at_zero files, file_at_zero (pop_free (set files i none)))
file_at-pop_free-set files i (suc x) h =
    rw
      (
        file_at-suc (pop_free (set files i none)) x,
        file_at-suc files x,
        files_at-pop_free (set files i none) x,
        files_at-set files i x none h,
      )
      (ground arith)

file_at-new : (files : List (Option File)) → file_at files (free_place files + 1) ≡ none
file_at-new files =
    ap (file_at files) next ∙ file_at-suc files (free_place files) ∙ free_place-IsFree files
  where
    next : free_place files + 1 ≡ suc (free_place files)
    next = omega arith

-- The descriptor that a successful `open` gives out, while the table has less than 2 ^ 32 - 1 places.
abbrev new_fd : Machine → ℕ
new_fd m = free_place m.files + 1

-- A file that the host opens gets a descriptor that no open file has. From then on the descriptor
-- stands for it, and every other descriptor for the file it stood for, if any; the table still ends
-- in an open file. It holds for every name that is text, is not below /proc and is not that of the
-- program, while the table has less than 2 ^ 32 - 1 places.
pub open_file-Opens :
    (fs : HostFs) (m : Machine) (filename : List ℕ) (flags : HostIoOpenFlags) (path : Text)
    (file : File)
    → starts_with (codes "/proc") filename ≡ false
    → text_eq filename fake_elf_filename ≡ false
    → from_utf8 filename ≡ some path
    → fs.open_with (open_options flags) path ≡ ok file
    → length m.files < 2 ^ 32 - 1
    → IsPacked m.files
    → let out = open_file fs m filename flags in
      (fd : ℕ) × (out.1 ≡ ok fd)
      × (file_at m.files fd ≡ none)
      × ((x : ℕ) → file_at out.0.files x ≡ (if x == fd then some file else file_at m.files x))
      × IsPacked out.0.files
unfolding open_file
open_file-Opens fs m filename flags path file not_proc not_elf text opened small packed =
    rw (not_proc, not_elf, text, opened, open_file)
      (
        new_fd m,
        ap ok (omega (arith, free_place-le m.files)),
        file_at-new m.files,
        file_at-place m.files file,
        place-IsPacked m.files file packed,
      )

-- Closing a descriptor of an open file succeeds and frees it; every other one stands for the file it
-- stood for, and the table ends in an open file again.
pub close-Closes :
    (fs : HostFs) (m : Machine) (fd : ℕ) (file : File)
    → file_at m.files fd ≡ some file
    → let out = close fs m fd in
      (out.1 ≡ ok tt)
      × ((x : ℕ) → file_at out.0.files x ≡ (if x == fd then none else file_at m.files x))
      × IsPacked out.0.files
unfolding close
close-Closes fs m zero file h = cc (file_at_zero m.files)
close-Closes fs m (suc i) file h =
    rw (used, h, close, index)
      (
        refl,
        λ x.
            file_at-pop_free-set m.files i x
              (lt_of_files_at m.files i (sym (file_at-suc m.files i) ∙ h)),
        pop_free-IsPacked (set m.files i none),
      )
  where
    used : ltb (suc i) fd_reserved ≡ false
    used = ground arith

    index : suc i - fd_reserved ≡ i
    index = omega arith
