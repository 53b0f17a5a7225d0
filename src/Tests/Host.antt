-- ===== src/Tests/Host.antt =====
-- A conversion of words, a host and a debugger to try the handlers with.
use riscv_trace_debugger.Prelude.{
  ℕ, refl, Option, none, some, [], ◌∷◌, ◌++◌, leb, length, drop, arith, if◌then◌else◌, ok, err,
}
use riscv_trace_debugger.LeBytes.{LeBytes, IsLeBytes, encode, decode}
use riscv_trace_debugger.Gdb.HostIo.{HostFs, errno, enoent}
use riscv_trace_debugger.Gdb.Request.{Request}
use riscv_trace_debugger.Main.{GdbStub, Reply, idle, running, byte, flush, disconnect}

-- A word of `size` bytes.
abbrev pub word : ℕ → LeBytes
word size = record {
  to_le_bytes =
      λ v buf. if leb size (length buf) then some (encode size v ++ drop size buf, size) else none;
  from_le_bytes = λ bytes. some (decode bytes);
}

pub word-IsLeBytes : (size : ℕ) → IsLeBytes size (word size)
word-IsLeBytes size = record {
  to_le_bytes_fits = λ v buf h room. ground arith;
  to_le_bytes_short = λ v buf short. ground arith;
  from_le_bytes_exact = λ bytes h. refl;
}

-- Every name opens file 7, which is empty.
abbrev pub host : HostFs
host = record {
  open_with = λ options path. ok 7;
  seek = λ file offset. ok tt;
  read = λ file offset buf. ok (buf, 0);
  write = λ file offset bytes. ok (length bytes);
  metadata = λ file. err (errno enoent);
  remove_file = λ path. ok tt;
  read_link = λ path. err (errno enoent);
}

abbrev answer : Option (Reply ℕ)
answer = some (record {
  phase = running 0;
  requests = Request.resume none ∷ Request.add_sw_breakpoint 8 ∷ [];
  output = byte b'+' ∷ flush ∷ [];
})

abbrev waiting : Option (Reply ℕ)
waiting = some (record { phase = idle 0; requests = []; output = byte b'T' ∷ flush ∷ [] })

-- A debugger that sets a breakpoint and continues at every byte.
abbrev pub stub : GdbStub ℕ
stub = record {
  run_state_machine = λ m. waiting;
  incoming_data = λ g m b. answer;
  interrupt_handled = λ g m reason. waiting;
  report_stop = λ g m event. waiting;
  get_reason = λ g. disconnect;
}
