-- ===== src/Gdb/Buffers.antt =====
-- gdb/mod.rs (`copy_to_buf`, `copy_range_to_buf`) and gdb/exec_file.rs. A `&mut [u8]` is a list that
-- comes back with what was written over its front. `usize` has 64 bits, and `+` on it wraps.
pub mod Pages
use riscv_trace_debugger.Prelude.{
  ℕ, ◌+◌, ◌-◌, ◌%◌, ◌^◌, Option, none, some, List, ◌++◌, ltb, if◌then◌else◌, length, take, drop,
  min,
}
use riscv_trace_debugger.Str.{codes}
use riscv_trace_debugger.Machine.{Machine}

-- The buffer, and how many bytes of it were written.
abbrev pub Filled : Type 0
Filled = List ℕ × ℕ

unfoldable pub copy_to_buf : List ℕ → List ℕ → Filled
copy_to_buf bytes buf =
    let len = min (length buf) (length bytes) in (take len bytes ++ drop len buf, len)

-- `none` is the panic of a slice that ends before its start.
unfoldable pub copy_range_to_buf : List ℕ → ℕ → ℕ → List ℕ → Option Filled
unfolding copy_to_buf
copy_range_to_buf bytes offset len buf =
    if ltb (length bytes) offset
    then some (buf, 0)
    else (let end = min ((offset + len) % 2 ^ 64) (length bytes) in
        if ltb end offset
        then none
        else some (copy_to_buf (take (end - offset) (drop offset bytes)) buf))

abbrev pub fake_elf_filename : List ℕ
fake_elf_filename = codes "/test.elf"

unfoldable pub get_exec_file : Machine → ℕ → ℕ → List ℕ → Option Filled
unfolding copy_range_to_buf
get_exec_file m offset len buf = copy_range_to_buf fake_elf_filename offset len buf
