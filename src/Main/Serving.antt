-- ===== src/Main/Serving.antt =====
-- What holds however the debugger, the sockets and the scheduler behave.
use riscv_trace_debugger.Prelude.{
  ℕ, ◌<◌, ◌≡◌, subst, Bool, Option, none, some, List, [], ◌∷◌, Result, ok, err, length,
  Option-cases, Bool-cases, inl, inr,
}
use riscv_trace_debugger.Fallible.{Ensures, Ensures-eq_ok}
use riscv_trace_debugger.BufferedConnection.{BufferedConnection, flush_to}
use riscv_trace_debugger.BufferedConnection
use riscv_trace_debugger.Trace.{Text, TraceEvent}
use riscv_trace_debugger.Trace.Typed.{AllTyped, AllTyped-IsValid}
use riscv_trace_debugger.IbexTrace.{Opcodes}
use riscv_trace_debugger.IbexTrace
use riscv_trace_debugger.IbexTrace.Valid as IbexValid
use riscv_trace_debugger.CheriotIbexTrace
use riscv_trace_debugger.CheriotIbexTrace.Valid as CheriotIbexValid
use riscv_trace_debugger.Cpu.Replay.{State}
use riscv_trace_debugger.Machine.{Machine, Poll, ready, dropped, panicked, out_of_fuel, run}
use riscv_trace_debugger.Machine.Consistent.{state_of, IsStart, Consistent}
use riscv_trace_debugger.Machine.New.{done, ElfHeader, new}
use riscv_trace_debugger.Machine.New.Start.{AllBytes, Returns, new-Consistent}
use riscv_trace_debugger.Machine.Runs.Returns.{Ran, run-Ran}
use riscv_trace_debugger.Gdb.HostIo.{HostFs}
use riscv_trace_debugger.Gdb.Request.{handle_all}
use riscv_trace_debugger.Gdb.Request.Core.{Consistent-core, handle_all-core}
use riscv_trace_debugger.Main.{
  GdbStub, Reply, Phase, idle, disconnected, ctrl_c_interrupt, running, Session, Turn, received,
  received_after, run_returns, at_once, Round, next, left, failed, request_panicked, run_panicked,
  other_turn, endless, reply, incoming, when_dropped, when_ready, running_turn, in_phase, round,
  rounds, connect, read_trace, TraceError, ibex, cheriot_ibex, map_err,
}

-- The session that a round leaves has a machine that agrees with the replay, and the round is none
-- in which `run` panics or does not end.
abbrev pub Serves : {G : Type 0} → State → List TraceEvent → Round G → Type 0
Serves s trace (next t) = Consistent s trace t.machine
Serves s trace (left reason t) = Consistent s trace t.machine
Serves s trace failed = Unit
Serves s trace request_panicked = Unit
Serves s trace other_turn = Unit
Serves s trace run_panicked = ⊥
Serves s trace endless = ⊥

module _ (range : ℕ → ℕ → List ℕ) (w : ℕ) (fs : HostFs) {G : Type 0} (stub : GdbStub G) {s : State}
    {trace : List TraceEvent} (start : IsStart s trace) (fuel : ℕ)
    (enough : length trace < fuel) where
  reply-Serves :
      (conn : BufferedConnection) (sent : List ℕ) (m : Machine) (r : Option (Reply G))
      → Consistent s trace m
      → Serves s trace (reply range w fs stub conn sent m r)
  unfolding reply
  reply-Serves conn sent m none c = tt
  reply-Serves conn sent m (some r) c = elim (Option-cases (handle_all range w fs r.requests m)) [
    | inl e ↦ rw (e, reply) tt
    | inr (m', e) ↦
        rw (e, reply) (Consistent-core m m' (handle_all-core range w fs r.requests m m' e) c)
  ]

  incoming-Serves :
      (t : Session G) (g : G) (m : Machine) (b : Option ℕ)
      → Consistent s trace m
      → Serves s trace (incoming range w fs stub t g m b)
  unfolding incoming
  incoming-Serves t g m none c = tt
  incoming-Serves t g m (some b) c = reply-Serves t.conn t.sent m (stub.incoming_data g m b) c

  when_dropped-Serves :
      (t : Session G) (g : G) (b : Option ℕ) (p : Poll)
      → Ran s trace t.machine.exec_mode t.machine p
      → Serves s trace (when_dropped range w fs stub t g b p)
  unfolding when_dropped
  when_dropped-Serves t g b (dropped m) h = incoming-Serves t g m b h.0
  when_dropped-Serves t g b (ready m event) h = tt
  when_dropped-Serves t g b panicked h = h
  when_dropped-Serves t g b out_of_fuel h = h

  when_ready-Serves :
      (t : Session G) (g : G) (p : Poll)
      → Ran s trace t.machine.exec_mode t.machine p
      → Serves s trace (when_ready range w fs stub t g p)
  unfolding when_ready
  when_ready-Serves t g (dropped m) h = tt
  when_ready-Serves t g (ready m event) h =
      reply-Serves t.conn t.sent m (stub.report_stop g m event) h.0
  when_ready-Serves t g panicked h = h
  when_ready-Serves t g out_of_fuel h = h

  module _ (t : Session G) (c : Consistent s trace t.machine) where
    running_turn-Serves :
        (g : G) (turn : Turn) → Serves s trace (running_turn range w fs stub fuel t g turn)
    unfolding running_turn
    running_turn-Serves g (received b) = incoming-Serves t g t.machine b c
    running_turn-Serves g (received_after polls b) =
        when_dropped-Serves t g b (run fuel polls t.machine)
          (run-Ran start fuel polls t.machine c enough)
    running_turn-Serves g (run_returns polls) =
        when_ready-Serves t g (run fuel polls t.machine)
          (run-Ran start fuel polls t.machine c enough)
    running_turn-Serves g at_once = tt

    in_phase-Serves :
        (phase : Phase G) (turn : Turn)
        → Serves s trace (in_phase range w fs stub fuel t phase turn)
    unfolding in_phase
    in_phase-Serves (idle g) (received b) = incoming-Serves t g t.machine b c
    in_phase-Serves (idle g) (received_after polls b) = tt
    in_phase-Serves (idle g) (run_returns polls) = tt
    in_phase-Serves (idle g) at_once = tt
    in_phase-Serves (disconnected g) (received b) = tt
    in_phase-Serves (disconnected g) (received_after polls b) = tt
    in_phase-Serves (disconnected g) (run_returns polls) = tt
    in_phase-Serves (disconnected g) at_once = c
    in_phase-Serves (ctrl_c_interrupt g) (received b) = tt
    in_phase-Serves (ctrl_c_interrupt g) (received_after polls b) = tt
    in_phase-Serves (ctrl_c_interrupt g) (run_returns polls) = tt
    in_phase-Serves (ctrl_c_interrupt g) at_once = reply-Serves t.conn t.sent t.machine _ c
    in_phase-Serves (running g) turn = running_turn-Serves g turn

  round-Serves :
      (t : Session G) (accepts : Bool) (turn : Turn)
      → Consistent s trace t.machine
      → Serves s trace (round range w fs stub fuel t accepts turn)
  unfolding round
  round-Serves t accepts turn c = elim (Bool-cases (flush_to accepts t.conn t.sent).2) [
    | inl fine ↦
        rw (fine, round)
          (in_phase-Serves
            (record t {
              conn = (flush_to accepts t.conn t.sent).0;
              sent = (flush_to accepts t.conn t.sent).1;
            })
            c t.phase turn)
    | inr broken ↦ rw (broken, round) tt
  ]

  pub rounds-Serves :
      (turns : List (Bool × Turn)) (r : Round G)
      → Serves s trace r
      → Serves s trace (rounds range w fs stub fuel turns r)
  unfolding rounds
  rounds-Serves [] r h = h
  rounds-Serves ((accepts, turn) ∷ turns) (next t) h =
      rounds-Serves turns (round range w fs stub fuel t accepts turn)
        (round-Serves t accepts turn h)
  rounds-Serves (_ ∷ turns) (left reason t) h = h
  rounds-Serves (_ ∷ turns) failed h = h
  rounds-Serves (_ ∷ turns) request_panicked h = h
  rounds-Serves (_ ∷ turns) other_turn h = h
  rounds-Serves (_ ∷ turns) run_panicked h = h
  rounds-Serves (_ ∷ turns) endless h = h

  pub connect-Serves :
      (m : Machine) → Consistent s trace m → Serves s trace (connect range w fs stub m)
  unfolding connect
  connect-Serves m c = reply-Serves BufferedConnection.default [] m (stub.run_state_machine m) c

Ensures-map_err :
    {E A : Type 0} (P : A → Type 0) (f : E → TraceError) (r : Result E A)
    → Ensures P r
    → Ensures P (map_err f r)
Ensures-map_err P f (ok a) h = h
Ensures-map_err P f (err e) h = tt

pub read_trace-AllTyped :
    (w : ℕ) (ops : Opcodes) (a b : Option (List Text)) → Ensures (AllTyped w) (read_trace w ops a b)
unfolding read_trace
read_trace-AllTyped w ops (some lines) none =
    Ensures-map_err (AllTyped w) ibex (IbexTrace.read_trace w ops lines)
      (IbexValid.ibex_trace-AllTyped w ops lines)
read_trace-AllTyped w ops none (some lines) =
    Ensures-map_err (AllTyped w) cheriot_ibex (CheriotIbexTrace.read_trace w lines)
      (CheriotIbexValid.cheriot_ibex_trace-AllTyped w lines)
read_trace-AllTyped w ops none none = tt
read_trace-AllTyped w ops (some a) (some b) = tt

-- What the program starts from: a trace that was read from the lines of a file of either format, and
-- a machine made of it and of an ELF file.
pub record Started (w : ℕ) (ops : Opcodes) (parse : List ℕ → Option ElfHeader) (info : Bool)
    (elf : List ℕ) (trace : List TraceEvent) (m : Machine) : Type 0 where
  pub ibex_lines : Option (List Text)
  pub cheriot_ibex_lines : Option (List Text)
  pub reads : read_trace w ops ibex_lines cheriot_ibex_lines ≡ ok trace
  pub bytes : AllBytes elf
  pub makes : new parse w info elf trace ≡ done m

module _ {w : ℕ} {ops : Opcodes} {parse : List ℕ → Option ElfHeader} {info : Bool} {elf : List ℕ}
    {trace : List TraceEvent} {m : Machine} (h : Started w ops parse info elf trace m) where
  started : IsStart (state_of m) trace × Consistent (state_of m) trace m
  started =
      subst (Returns (λ m. IsStart (state_of m) trace × Consistent (state_of m) trace m)) h.makes
        (new-Consistent parse w info elf trace h.bytes (AllTyped-IsValid w trace typed))
    where
      typed : AllTyped w trace
      typed =
          Ensures-eq_ok (AllTyped w) (read_trace w ops h.ibex_lines h.cheriot_ibex_lines) trace
            (read_trace-AllTyped w ops h.ibex_lines h.cheriot_ibex_lines) h.reads

  -- From a trace as it was read from its file and the machine made of it: whatever gdbstub and the
  -- host do, and whatever happens in however many rounds of the loop, every session that is reached
  -- has a machine that agrees with a replay of the trace from the start, and `run` neither panics nor
  -- goes on for ever. The fuel of `run` is more than the events of the trace.
  pub rounds-Started :
      (range : ℕ → ℕ → List ℕ) (fs : HostFs) {G : Type 0} (stub : GdbStub G) (fuel : ℕ)
      (turns : List (Bool × Turn))
      → length trace < fuel
      → Serves (state_of m) trace (rounds range w fs stub fuel turns (connect range w fs stub m))
  rounds-Started range fs stub fuel turns enough =
      rounds-Serves range w fs stub started.0 fuel enough turns (connect range w fs stub m)
        (connect-Serves range w fs stub started.0 fuel enough m started.1)
