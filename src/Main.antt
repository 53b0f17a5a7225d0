-- ===== src/Main.antt =====
-- main.rs: the loop that serves a debugger. gdbstub is a parameter: `GdbStub` says what its state
-- machine does in each of its states, as the requests that it makes of the machine and the bytes that
-- it writes to the connection. What the sockets and the scheduler do in a round is a `Turn`.
pub mod Connections
pub mod Sent
pub mod Start
pub mod Waves
pub mod Serving
use riscv_trace_debugger.Prelude.{
  ℕ, zero, suc, Bool, true, false, not, Option, none, some, ◌+◌, List, [], ◌∷◌, length, Result, ok,
  err, if◌then◌else◌,
}
use riscv_trace_debugger.Fallible
use riscv_trace_debugger.BufferedConnection
use riscv_trace_debugger.BufferedConnection.{BufferedConnection, flush_to}
use riscv_trace_debugger.Trace.{Text, TraceEvent}
use riscv_trace_debugger.IbexTrace
use riscv_trace_debugger.IbexTrace.{Opcodes}
use riscv_trace_debugger.CheriotIbexTrace
use riscv_trace_debugger.Riscv.{RiscvArch, riscv_arch32, riscv_arch64}
use riscv_trace_debugger.Machine.{
  Machine, Signal, sigint, StopReason, signal, Poll, ready, dropped, panicked, out_of_fuel, run,
}
use riscv_trace_debugger.Machine.New.{Outcome, done, panicked as new_panics, Error, ElfHeader, new}
use riscv_trace_debugger.Gdb.HostIo.{HostFs}
use riscv_trace_debugger.Gdb.Request.{Request, handle_all}

pub data DisconnectReason : Type 0 where
  disconnect kill : DisconnectReason
  target_exited : ℕ → DisconnectReason
  target_terminated : Signal → DisconnectReason

-- `GdbStubStateMachine`, `G` being what gdbstub keeps.
pub data Phase (G : Type 0) : Type 0 where
  idle disconnected ctrl_c_interrupt running : G → Phase G

-- What gdbstub does with its connection.
pub data Output : Type 0 where
  byte : ℕ → Output
  flush : Output

pub record Reply (G : Type 0) : Type 0 where
  pub phase : Phase G
  pub requests : List Request
  pub output : List Output

pub record GdbStub (G : Type 0) : Type 0 where
  pub run_state_machine : Machine → Option (Reply G)
  pub incoming_data : G → Machine → ℕ → Option (Reply G)
  pub interrupt_handled : G → Machine → Option StopReason → Option (Reply G)
  pub report_stop : G → Machine → StopReason → Option (Reply G)
  pub get_reason : G → DisconnectReason

-- `main`: the architecture by the header of the ELF file; a big-endian one is refused.
unfoldable pub choose_arch : Bool → Bool → Option RiscvArch
choose_arch little_endian is_64 =
    if not little_endian then none else some (if is_64 then riscv_arch64 else riscv_arch32)

pub data TraceError : Type 0 where
  not_one_trace : TraceError
  ibex : IbexTrace.Error → TraceError
  cheriot_ibex : CheriotIbexTrace.Error → TraceError

abbrev pub map_err {ℓ} : {E A : Type ℓ} → (E → TraceError) → Result E A → Result TraceError A
map_err f (ok a) = ok a
map_err f (err e) = err (f e)

-- The trace by the two arguments, of which there has to be one: the lines of the file.
unfoldable pub read_trace :
    ℕ → Opcodes → Option (List Text) → Option (List Text) → Result TraceError (List TraceEvent)
read_trace w ops (some lines) none = map_err ibex (IbexTrace.read_trace w ops lines)
read_trace w ops none (some lines) = map_err cheriot_ibex (CheriotIbexTrace.read_trace w lines)
read_trace w ops none none = err not_one_trace
read_trace w ops (some a) (some b) = err not_one_trace

-- `match disconnect_reason?`: whether there is another connection, with a new machine.
unfoldable pub restarts : DisconnectReason → Bool
restarts disconnect = true
restarts kill = false
restarts (target_exited code) = false
restarts (target_terminated sig) = false

unfoldable pub put_out : List Output → BufferedConnection → BufferedConnection
put_out [] conn = conn
put_out (byte b ∷ out) conn = put_out out (BufferedConnection.write conn b)
put_out (flush ∷ out) conn = put_out out (BufferedConnection.flush conn)

pub record Session (G : Type 0) : Type 0 where
  pub phase : Phase G
  pub conn : BufferedConnection
  pub machine : Machine
  -- what the socket has taken
  pub sent : List ℕ

-- What happens in a round: a byte of the client comes (`none` is an error of the socket), before
-- `run` is polled or after it was polled a number of times again; or `run` returns; or there is
-- nothing to wait for.
pub data Turn : Type 0 where
  received : Option ℕ → Turn
  received_after : ℕ → Option ℕ → Turn
  run_returns : ℕ → Turn
  at_once : Turn

-- A round of the loop ends with the next session, with the reason to leave the loop, with an error
-- that is passed on, with a panic of a request or of `run`. `other_turn` is a turn that cannot happen
-- in this session, and `endless` a `run` that has not ended after the rounds that the model gives it.
pub data Round (G : Type 0) : Type 0 where
  next : Session G → Round G
  left : DisconnectReason → Session G → Round G
  failed request_panicked run_panicked other_turn endless : Round G

-- Whether there is a client: the socket to listen on, or the client, may fail to come about.
pub data Connection : Type 0 where
  bind_failed accept_failed : Connection
  accepted : List (Bool × Turn) → Connection

-- What has become of the program: it goes on in a session or has ended there with an error or a
-- panic; the client or the target has ended the session for good; a client is waited for, or cannot
-- be; or there was no trace or no machine to begin with.
pub data Program (G : Type 0) : Type 0 where
  serving : Round G → Program G
  ended : DisconnectReason → Session G → Program G
  listening not_bound not_accepted : Machine → Program G
  no_trace : TraceError → Program G
  no_machine : Error → Program G
  new_panicked : Program G

module _ (range : ℕ → ℕ → List ℕ) (w : ℕ) (fs : HostFs) {G : Type 0} (stub : GdbStub G) where
  -- gdbstub has made its requests of the machine and gone on to its next state.
  unfoldable pub reply : BufferedConnection → List ℕ → Machine → Option (Reply G) → Round G
  unfolding put_out
  reply conn sent m none = failed
  reply conn sent m (some r) = elim (handle_all range w fs r.requests m) [
    | none ↦ request_panicked
    | some m' ↦
        next (record { phase = r.phase; conn = put_out r.output conn; machine = m'; sent = sent })
  ]

  unfoldable pub incoming : Session G → G → Machine → Option ℕ → Round G
  unfolding reply
  incoming s g m none = failed
  incoming s g m (some b) = reply s.conn s.sent m (stub.incoming_data g m b)

  -- The byte came first: `run` is dropped where it yielded.
  unfoldable pub when_dropped : Session G → G → Option ℕ → Poll → Round G
  unfolding incoming
  when_dropped s g b (dropped m) = incoming s g m b
  when_dropped s g b (ready m event) = other_turn
  when_dropped s g b panicked = run_panicked
  when_dropped s g b out_of_fuel = endless

  unfoldable pub when_ready : Session G → G → Poll → Round G
  unfolding reply
  when_ready s g (ready m event) = reply s.conn s.sent m (stub.report_stop g m event)
  when_ready s g (dropped m) = other_turn
  when_ready s g panicked = run_panicked
  when_ready s g out_of_fuel = endless

  -- The `select!` of the running state, given `fuel` rounds for the loop of `run`.
  unfoldable pub running_turn : ℕ → Session G → G → Turn → Round G
  unfolding incoming when_dropped when_ready
  running_turn fuel s g (received b) = incoming s g s.machine b
  running_turn fuel s g (received_after polls b) = when_dropped s g b (run fuel polls s.machine)
  running_turn fuel s g (run_returns polls) = when_ready s g (run fuel polls s.machine)
  running_turn fuel s g at_once = other_turn

  unfoldable pub idle_turn : Session G → G → Turn → Round G
  unfolding incoming
  idle_turn s g (received b) = incoming s g s.machine b
  idle_turn s g (received_after polls b) = other_turn
  idle_turn s g (run_returns polls) = other_turn
  idle_turn s g at_once = other_turn

  unfoldable pub disconnected_turn : Session G → G → Turn → Round G
  disconnected_turn s g at_once = left (stub.get_reason g) s
  disconnected_turn s g (received b) = other_turn
  disconnected_turn s g (received_after polls b) = other_turn
  disconnected_turn s g (run_returns polls) = other_turn

  -- Stop on Ctrl-C.
  unfoldable pub ctrl_c_turn : Session G → G → Turn → Round G
  unfolding reply
  ctrl_c_turn s g at_once =
      reply s.conn s.sent s.machine (stub.interrupt_handled g s.machine (some (signal sigint)))
  ctrl_c_turn s g (received b) = other_turn
  ctrl_c_turn s g (received_after polls b) = other_turn
  ctrl_c_turn s g (run_returns polls) = other_turn

  unfoldable pub in_phase : ℕ → Session G → Phase G → Turn → Round G
  unfolding idle_turn disconnected_turn ctrl_c_turn running_turn
  in_phase fuel s (idle g) turn = idle_turn s g turn
  in_phase fuel s (disconnected g) turn = disconnected_turn s g turn
  in_phase fuel s (ctrl_c_interrupt g) turn = ctrl_c_turn s g turn
  in_phase fuel s (running g) turn = running_turn fuel s g turn

  -- A round: what waits to be sent is sent first, if the socket accepts it.
  unfoldable pub round : ℕ → Session G → Bool → Turn → Round G
  unfolding in_phase
  round fuel s accepts turn =
      let flushed = flush_to accepts s.conn s.sent in
      if flushed.2
      then in_phase fuel (record s { conn = flushed.0; sent = flushed.1 }) s.phase turn
      else failed

  unfoldable pub rounds : ℕ → List (Bool × Turn) → Round G → Round G
  unfolding round
  rounds fuel [] r = r
  rounds fuel ((accepts, turn) ∷ turns) (next s) = rounds fuel turns (round fuel s accepts turn)
  rounds fuel (t ∷ turns) (left reason s) = left reason s
  rounds fuel (t ∷ turns) failed = failed
  rounds fuel (t ∷ turns) request_panicked = request_panicked
  rounds fuel (t ∷ turns) run_panicked = run_panicked
  rounds fuel (t ∷ turns) other_turn = other_turn
  rounds fuel (t ∷ turns) endless = endless

  -- A client has connected: the first session, of a new machine and a new connection.
  unfoldable pub connect : Machine → Round G
  unfolding reply
  connect m = reply BufferedConnection.default [] m (stub.run_state_machine m)

  -- `rest` is what the next connection comes to.
  unfoldable pub next_connection : Program G → Round G → Program G
  unfolding restarts
  next_connection rest (left reason s) = if restarts reason then rest else ended reason s
  next_connection rest (next s) = serving (next s)
  next_connection rest failed = serving failed
  next_connection rest request_panicked = serving request_panicked
  next_connection rest run_panicked = serving run_panicked
  next_connection rest other_turn = serving other_turn
  next_connection rest endless = serving endless

  -- The outer loop: for each connection a new machine, which is the same one every time, as it is
  -- made of copies of the file and of the trace. What each connection comes to is listed.
  unfoldable pub serve : ℕ → Outcome Machine → List Connection → Program G
  unfolding next_connection connect rounds
  serve fuel (Outcome.failed e) connections = no_machine e
  serve fuel new_panics connections = new_panicked
  serve fuel (done m) [] = listening m
  serve fuel (done m) (bind_failed ∷ connections) = not_bound m
  serve fuel (done m) (accept_failed ∷ connections) = not_accepted m
  serve fuel (done m) (accepted turns ∷ connections) =
      next_connection (serve fuel (done m) connections) (rounds fuel turns (connect m))

  -- `run` is given one round for each event and one more.
  unfoldable pub main_gdb :
      (List ℕ → Option ElfHeader)
      → Opcodes
      → Bool
      → Option (List Text)
      → Option (List Text)
      → List ℕ
      → List Connection
      → Program G
  unfolding read_trace serve
  main_gdb parse ops info ibex_lines cheriot_ibex_lines elf connections =
      elim (read_trace w ops ibex_lines cheriot_ibex_lines) [
        | err e ↦ no_trace e
        | ok trace ↦ serve (length trace + 1) (new parse w info elf trace) connections
      ]
