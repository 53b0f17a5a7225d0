-- ===== src/Main/Connections.antt =====
-- The whole program, over one connection after the other.
use riscv_trace_debugger.Prelude.{
  ℕ, ◌+◌, ◌≡◌, refl, Bool, Option, List, [], ◌∷◌, Result, ok, err, length, arith,
}
use riscv_trace_debugger.Fallible.{Ensures}
use riscv_trace_debugger.Trace.{Text, TraceEvent}
use riscv_trace_debugger.Trace.Typed.{AllTyped, AllTyped-IsValid}
use riscv_trace_debugger.IbexTrace.{Opcodes}
use riscv_trace_debugger.Machine.{Machine}
use riscv_trace_debugger.Machine.Consistent.{state_of, IsStart, Consistent}
use riscv_trace_debugger.Machine.New.{Outcome, done, panicked, ElfHeader, new}
use riscv_trace_debugger.Machine.New.Start.{AllBytes, Returns, new-Consistent}
use riscv_trace_debugger.Gdb.HostIo.{HostFs}
use riscv_trace_debugger.Main.{
  GdbStub, Connection, bind_failed, accept_failed, accepted, not_bound, not_accepted, Round, next,
  left, failed, request_panicked, run_panicked, other_turn, endless, rounds, connect, read_trace,
  TraceError, Program, serving, ended, listening, no_trace, no_machine, new_panicked,
  next_connection, serve, main_gdb, disconnect, kill, target_exited, target_terminated,
}
use riscv_trace_debugger.Main.Serving.{Serves, rounds-Serves, connect-Serves, read_trace-AllTyped}

-- Where the program has come to, after any connections: a session has a machine that agrees with a
-- replay of the trace that was read, from the machine that was made of it and of the file.
abbrev pub ServesFrom : {G : Type 0} → Outcome Machine → List TraceEvent → Program G → Type 0
ServesFrom made trace (serving r) = (m : Machine) × (made ≡ done m) × Serves (state_of m) trace r
ServesFrom made trace (ended reason t) =
    (m : Machine) × (made ≡ done m) × Consistent (state_of m) trace t.machine
ServesFrom made trace (listening m) = (made ≡ done m) × Consistent (state_of m) trace m
ServesFrom made trace (not_bound m) = made ≡ done m
ServesFrom made trace (not_accepted m) = made ≡ done m
ServesFrom made trace (no_trace e) = ⊥
ServesFrom made trace (no_machine e) = made ≡ Outcome.failed e
ServesFrom made trace new_panicked = made ≡ panicked

module _ (range : ℕ → ℕ → List ℕ) (w : ℕ) (fs : HostFs) {G : Type 0} (stub : GdbStub G)
    (trace : List TraceEvent) where
  next_connection-ServesFrom :
      (m : Machine) (rest : Program G) (r : Round G)
      → ServesFrom (done m) trace rest
      → Serves (state_of m) trace r
      → ServesFrom (done m) trace (next_connection range w fs stub rest r)
  unfolding next_connection
  next_connection-ServesFrom m rest (left disconnect t) h c = h
  next_connection-ServesFrom m rest (left kill t) h c = (m, refl, c)
  next_connection-ServesFrom m rest (left (target_exited code) t) h c = (m, refl, c)
  next_connection-ServesFrom m rest (left (target_terminated sig) t) h c = (m, refl, c)
  next_connection-ServesFrom m rest (next t) h c = (m, refl, c)
  next_connection-ServesFrom m rest failed h c = (m, refl, c)
  next_connection-ServesFrom m rest request_panicked h c = (m, refl, c)
  next_connection-ServesFrom m rest run_panicked h c = (m, refl, c)
  next_connection-ServesFrom m rest other_turn h c = (m, refl, c)
  next_connection-ServesFrom m rest endless h c = (m, refl, c)

  serve-ServesFrom :
      (made : Outcome Machine) (connections : List Connection)
      → Returns (λ m. IsStart (state_of m) trace × Consistent (state_of m) trace m) made
      → ServesFrom made trace (serve range w fs stub (length trace + 1) made connections)
  unfolding serve
  serve-ServesFrom (Outcome.failed e) connections h = refl
  serve-ServesFrom panicked connections h = refl
  serve-ServesFrom (done m) [] h = (refl, h.1)
  serve-ServesFrom (done m) (bind_failed ∷ connections) h = refl
  serve-ServesFrom (done m) (accept_failed ∷ connections) h = refl
  serve-ServesFrom (done m) (accepted turns ∷ connections) h =
      next_connection-ServesFrom m (serve range w fs stub (length trace + 1) (done m) connections)
        (rounds range w fs stub (length trace + 1) turns (connect range w fs stub m))
        (serve-ServesFrom (done m) connections h)
        (rounds-Serves range w fs stub h.0 (length trace + 1) (omega arith) turns
          (connect range w fs stub m)
          (connect-Serves range w fs stub h.0 (length trace + 1) (omega arith) m h.1))

-- What the program comes to: either the trace cannot be read, or it serves from it.
abbrev pub ServesFiles :
    {G : Type 0}
    → Result TraceError (List TraceEvent)
    → (List TraceEvent → Outcome Machine)
    → Program G
    → Type 0
ServesFiles (err e) make program = program ≡ no_trace e
ServesFiles (ok trace) make program = ServesFrom (make trace) trace program

-- From a file of bytes and the lines of a trace, over any connections of any clients with any turns
-- of the sockets and the scheduler, whatever gdbstub does: if the trace cannot be read the program
-- ends with its error, and if no machine can be made, with that. Otherwise every session, of the
-- first connection or of a later one, has a machine that agrees with a replay of the trace from
-- the start, and there is no panic of `run` and none of its calls goes on for ever.
pub main_gdb-ServesFiles :
    (parse : List ℕ → Option ElfHeader) (w : ℕ) (ops : Opcodes) (info : Bool)
    (range : ℕ → ℕ → List ℕ) (fs : HostFs) {G : Type 0} (stub : GdbStub G)
    (ibex_lines cheriot_ibex_lines : Option (List Text)) (elf : List ℕ)
    (connections : List Connection)
    → AllBytes elf
    → ServesFiles
        (read_trace w ops ibex_lines cheriot_ibex_lines)
        (new parse w info elf)
        (main_gdb range w fs stub parse ops info ibex_lines cheriot_ibex_lines elf connections)
unfolding main_gdb
main_gdb-ServesFiles parse w ops info range fs stub a b elf connections bytes =
    go (read_trace w ops a b) (read_trace-AllTyped w ops a b)
  where
    go :
        (r : Result TraceError (List TraceEvent))
        → Ensures (AllTyped w) r
        → ServesFiles r (new parse w info elf) (elim r [
          | err e ↦ no_trace e
          | ok trace ↦
              serve range w fs stub (length trace + 1) (new parse w info elf trace) connections
        ])
    go (err e) h = refl
    go (ok trace) h =
        serve-ServesFrom range w fs stub trace (new parse w info elf trace) connections
          (new-Consistent parse w info elf trace bytes (AllTyped-IsValid w trace h))
