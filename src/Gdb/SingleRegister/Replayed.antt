-- ===== src/Gdb/SingleRegister/Replayed.antt =====
-- The registers that a debugger reads one by one.
use riscv_trace_debugger.Prelude.{
  ℕ, ◌^◌, ◌≤◌, ◌<◌, ◌≡◌, refl, ap, ◌∙◌, Option, none, some, List, ◌++◌, length, drop, get_elem?, ok,
  Option-cases, inl, inr,
}
use riscv_trace_debugger.LeBytes.{LeBytes, IsLeBytes, encode}
use riscv_trace_debugger.Trace.{TraceEvent}
use riscv_trace_debugger.Cpu.Replay.{State, replay}
use riscv_trace_debugger.HashMap
use riscv_trace_debugger.Cpu.{Cpu}
use riscv_trace_debugger.Machine.{Machine, TraceFrame}
use riscv_trace_debugger.Machine.Consistent.{Consistent}
use riscv_trace_debugger.Riscv.Id.{RiscvRegId, gpr, fpr, csr, pc, priv}
use riscv_trace_debugger.Gdb.Tracepoints.{FrameRequest, find_frame, select_found, select_frame}
use riscv_trace_debugger.Gdb.SingleRegister.{read_value, read_priv, read_register, written}

select_found-cpu :
    (m : Machine) (found : Option (ℕ × TraceFrame)) → (select_found m found).0.cpu ≡ m.cpu
unfolding select_found
select_found-cpu m none = refl
select_found-cpu m (some (n, frame)) = refl

select_frame-cpu : (m : Machine) (request : FrameRequest) → (select_frame m request).0.cpu ≡ m.cpu
unfolding select_frame
select_frame-cpu m request = elim (Option-cases (find_frame m request)) [
  | inl e ↦ rw (e, select_frame) refl
  | inr (found, e) ↦ rw (e, select_frame) (select_found-cpu m found)
]

read_register-cpu :
    (u : LeBytes) (m m' : Machine) (id : RiscvRegId) (buf : List ℕ)
    → m'.cpu ≡ m.cpu
    → read_register u m' id buf ≡ read_register u m id buf
unfolding read_register
read_register-cpu u m m' (gpr i) buf e =
    ap (λ (cpu : Cpu). some (read_value u (get_elem? cpu.xregs i) buf)) e
read_register-cpu u m m' (fpr i) buf e =
    ap (λ (cpu : Cpu). some (read_value u (get_elem? cpu.fregs i) buf)) e
read_register-cpu u m m' pc buf e = ap (λ (cpu : Cpu). some (read_value u (some cpu.pc) buf)) e
read_register-cpu u m m' (csr i) buf e =
    ap (λ (cpu : Cpu). some (read_value u (HashMap.get cpu.csrs i) buf)) e
read_register-cpu u m m' priv buf e = ap (λ (cpu : Cpu). read_priv u cpu buf) e

-- Selecting a trace frame, in whatever way, changes no register that is read one by one: every one
-- of them still comes from the machine and not from the frame.
pub read_register-select_frame :
    (u : LeBytes) (m : Machine) (request : FrameRequest) (id : RiscvRegId) (buf : List ℕ)
    → read_register u (select_frame m request).0 id buf ≡ read_register u m id buf
read_register-select_frame u m request id buf =
    read_register-cpu u m (select_frame m request).0 id buf (select_frame-cpu m request)

module _ {size : ℕ} {u : LeBytes} (law : IsLeBytes size u) {s : State} {trace : List TraceEvent}
    (m : Machine) (c : Consistent s trace m) (buf : List ℕ) (room : size ≤ length buf) where
  read_value_lem :
      (v : ℕ)
      → v < 256 ^ size
      → read_value u (some v) buf ≡ (encode size v ++ drop size buf, ok size)
  unfolding read_value
  read_value_lem v h = ap (written buf) (law.to_le_bytes_fits v buf h room)

  -- A debugger that reads x0 to x31 or `pc` of a machine that agrees with the replay gets the value
  -- of the replayed register in little-endian order, in as many bytes as a word has. The buffer has
  -- room for a word, the value fits one, and gdbstub converts words as it documents.
  pub read_register_lem :
      let cpu = (replay s trace m.trace_index).cpu in
      ((i v : ℕ)
        → get_elem? cpu.xregs i ≡ some v
        → v < 256 ^ size
        → read_register u m (gpr i) buf ≡ some (encode size v ++ drop size buf, ok size))
      × (cpu.pc < 256 ^ size
          → read_register u m pc buf ≡ some (encode size cpu.pc ++ drop size buf, ok size))
  unfolding read_register
  read_register_lem = (
    λ i v e h. ap some (
        ap (λ o. read_value u o buf) (ap (λ (t : State). get_elem? t.cpu.xregs i) c.at_state ∙ e)
        ∙ read_value_lem v h),
    λ h.
        ap some
          (ap (λ (t : State). read_value u (some t.cpu.pc) buf) c.at_state ∙ read_value_lem _ h),
  )
