-- ===== src/Gdb/HostIo.antt =====
-- gdb/host_io.rs: files of the host that the debugger opens. The answers of the host's file system
-- are a parameter: `HostFs` says what one call of a function of `std::fs` or of an open file gives.
-- `none` is a panic. A `Usize` has `w` bits.
pub mod Table
use mathlib.Core.Option
use riscv_trace_debugger.Prelude.{
  ℕ, zero, suc, ◌+◌, ◌-◌, ◌%◌, ◌^◌, Bool, true, false, ◌&&◌, Option, none, some, List, [], ◌∷◌,
  ◌++◌, ◌==◌, ltb, leb, if◌then◌else◌, length, get_elem?, set, Result, ok, err,
}
use riscv_trace_debugger.Fallible.{◌>>=◌, ok_or}
use riscv_trace_debugger.Trace.{Text}
use riscv_trace_debugger.Str.{codes, starts_with, text_eq}
use riscv_trace_debugger.Str.Utf8.{from_utf8}
use riscv_trace_debugger.Machine.{Machine, File}
use riscv_trace_debugger.Gdb.Buffers.{Filled, copy_to_buf, copy_range_to_buf, fake_elf_filename}

pub data HostIoErrno : Type 0 where
  enoent ebadf eacces enametoolong : HostIoErrno

-- `host_error` has what gdbstub makes of an error of the host.
pub data HostIoError : Type 0 where
  errno : HostIoErrno → HostIoError
  host_error : ℕ → HostIoError

-- Which flags a set of `HostIoOpenFlags` contains.
pub record HostIoOpenFlags : Type 0 where
  pub o_rdwr : Bool
  pub o_wronly : Bool
  pub o_append : Bool
  pub o_creat : Bool
  pub o_trunc : Bool
  pub o_excl : Bool

-- `std::fs::OpenOptions`
pub record OpenOptions : Type 0 where
  pub read : Bool
  pub write : Bool
  pub append : Bool
  pub create : Bool
  pub truncate : Bool
  pub create_new : Bool

-- A time is the seconds since the epoch, or `none` before it; the host may not know one.
abbrev pub HostTime : Type 0
HostTime = Option (Option ℕ)

pub record Metadata : Type 0 where
  pub len : ℕ
  pub accessed : HostTime
  pub modified : HostTime
  pub created : HostTime

-- The fields of `HostIoStat` that are not always 0.
pub record HostIoStat : Type 0 where
  pub st_size : ℕ
  pub st_atime : ℕ
  pub st_mtime : ℕ
  pub st_ctime : ℕ

pub record HostFs : Type 0 where
  pub open_with : OpenOptions → Text → Result HostIoError File
  pub seek : File → ℕ → Result HostIoError (Unit {0})
  -- the buffer after a read, and how many bytes were read
  pub read : File → ℕ → List ℕ → Result HostIoError Filled
  pub write : File → ℕ → List ℕ → Result HostIoError ℕ
  pub metadata : File → Result HostIoError Metadata
  pub remove_file : Text → Result HostIoError (Unit {0})
  -- `None` of `to_str` is a link that is no text
  pub read_link : Text → Result HostIoError (Option (List ℕ))

abbrev pub fd_reserved : ℕ
fd_reserved = 1

abbrev pub Handled : Type 0 → Type 0
Handled A = Machine × Result HostIoError A

unfoldable pub open_options : HostIoOpenFlags → OpenOptions
open_options flags = record {
  read = if flags.o_rdwr then true else if flags.o_wronly then false else true;
  write = if flags.o_rdwr then true else flags.o_wronly;
  append = flags.o_append;
  create = flags.o_creat;
  truncate = flags.o_trunc;
  create_new = flags.o_excl;
}

-- The first free place of the table takes the file, or a new one at its end.
unfoldable pub place : List (Option File) → File → List (Option File)
place [] file = some file ∷ []
place (none ∷ files) file = some file ∷ files
place (some f ∷ files) file = some f ∷ place files file

unfoldable pub free_place : List (Option File) → ℕ
free_place [] = 0
free_place (none ∷ files) = 0
free_place (some f ∷ files) = suc (free_place files)

-- A free place goes if nothing is left behind it.
abbrev pub pop_end : Option File → List (Option File) → List (Option File)
pop_end f (g ∷ rest) = f ∷ g ∷ rest
pop_end none [] = []
pop_end (some file) [] = some file ∷ []

-- `while let Some(None) = self.files.last() { self.files.pop(); }`
unfoldable pub pop_free : List (Option File) → List (Option File)
pop_free [] = []
pop_free (f ∷ files) = pop_end f (pop_free files)

-- The file of a descriptor, if one is open there.
unfoldable pub file_at : List (Option File) → ℕ → Option File
file_at files fd =
    if ltb fd fd_reserved then none else Option.get_or (get_elem? files (fd - 1)) none

-- The target of a link has to fit the buffer.
unfoldable pub copy_whole : List ℕ → List ℕ → Result HostIoError Filled
unfolding copy_to_buf
copy_whole bytes buf =
    if leb (length bytes) (length buf) then ok (copy_to_buf bytes buf) else err (errno enametoolong)

module _ (fs : HostFs) where
  unfoldable pub open_file : Machine → List ℕ → HostIoOpenFlags → Handled ℕ
  unfolding open_options place free_place
  open_file m filename flags =
      if starts_with (codes "/proc") filename
      then (m, err (errno enoent))
      else if text_eq filename fake_elf_filename
      then (m, ok 0)
      else elim (from_utf8 filename) [
        | none ↦ (m, err (errno enoent))
        | some path ↦ elim (fs.open_with (open_options flags) path) [
          | err e ↦ (m, err e)
          | ok file ↦ (
            record m { files = place m.files file },
            ok ((free_place m.files % 2 ^ 32 + fd_reserved) % 2 ^ 32),
          )
        ]
      ]

  unfoldable pub close : Machine → ℕ → Handled (Unit {0})
  close m fd = if ltb fd fd_reserved then (m, ok tt) else elim (file_at m.files fd) [
    | none ↦ (m, err (errno ebadf))
    | some file ↦ (record m { files = pop_free (set m.files (fd - fd_reserved) none) }, ok tt)
  ]

  unfoldable pub pread : Machine → ℕ → ℕ → ℕ → List ℕ → Option (Result HostIoError Filled)
  unfolding file_at
  pread m fd count offset buf =
      if ltb fd fd_reserved
      then (if fd == 0
          then Option.map ok (copy_range_to_buf m.elf offset count buf)
          else some (err (errno ebadf)))
      else elim (file_at m.files fd) [
        | none ↦ some (err (errno ebadf))
        | some file ↦ some (do u ← fs.seek file offset; fs.read file offset buf)
      ]

  -- The number of bytes goes back as a `Usize`, which is a panic where it does not fit.
  unfoldable pub pwrite : ℕ → Machine → ℕ → ℕ → List ℕ → Option (Result HostIoError ℕ)
  unfolding file_at
  pwrite w m fd offset bytes =
      if ltb fd fd_reserved then some (err (errno eacces)) else elim (file_at m.files fd) [
        | none ↦ some (err (errno ebadf))
        | some file ↦ elim (do u ← fs.seek file offset; fs.write file offset bytes) [
          | err e ↦ some (err e)
          | ok n ↦ if ltb n (2 ^ w) then some (ok n) else none
        ]
      ]

  -- `time_to_secs!`
  unfoldable pub time_to_secs : HostTime → Result HostIoError ℕ
  time_to_secs none = err (errno eacces)
  time_to_secs (some none) = err (errno eacces)
  time_to_secs (some (some secs)) = ok (secs % 2 ^ 32)

  unfoldable pub fstat : Machine → ℕ → Result HostIoError HostIoStat
  unfolding file_at time_to_secs
  fstat m fd =
      if ltb fd fd_reserved
      then (if fd == 0
          then ok (record { st_size = length m.elf; st_atime = 0; st_mtime = 0; st_ctime = 0 })
          else err (errno ebadf))
      else elim (file_at m.files fd) [
        | none ↦ err (errno ebadf)
        | some file ↦ do
          metadata ← fs.metadata file
          atime ← time_to_secs metadata.accessed
          mtime ← time_to_secs metadata.modified
          ctime ← time_to_secs metadata.created
          ok (record {
            st_size = metadata.len;
            st_atime = atime;
            st_mtime = mtime;
            st_ctime = ctime;
          })
      ]

  unfoldable pub unlink : List ℕ → Result HostIoError (Unit {0})
  unlink filename = do path ← ok_or (from_utf8 filename) (errno enoent); fs.remove_file path

  unfoldable pub readlink : List ℕ → List ℕ → Result HostIoError Filled
  unfolding copy_to_buf copy_whole
  readlink filename buf =
      if text_eq filename (codes "/proc/1/exe")
      then ok (copy_to_buf fake_elf_filename buf)
      else if text_eq filename (codes "/proc/1/cwd")
      then ok (copy_to_buf (codes "/") buf)
      else if starts_with (codes "/proc") filename
      then err (errno enoent)
      else (do
        path ← ok_or (from_utf8 filename) (errno enoent)
        link ← fs.read_link path
        bytes ← ok_or link (errno enoent)
        copy_whole bytes buf)

unfoldable pub setfs : Machine → ℕ → Handled (Unit {0})
setfs m fs_kind = (m, ok tt)
