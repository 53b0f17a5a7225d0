-- ===== src/Main/Sent/Recorded.antt =====
-- A debugger that keeps a record of what it writes, and that nothing else changes.
use riscv_trace_debugger.Prelude.{
  ℕ, ◌≡◌, refl, ap, ◌∙◌, Bool, Option, none, some, List, [], ◌∷◌, Option-cases, Bool-cases, inl,
  inr,
}
use riscv_trace_debugger.BufferedConnection
use riscv_trace_debugger.BufferedConnection.{BufferedConnection, flush_to}
use riscv_trace_debugger.Machine.{
  Machine, signal, sigint, Poll, ready, dropped, panicked, out_of_fuel, run,
}
use riscv_trace_debugger.Gdb.HostIo.{HostFs}
use riscv_trace_debugger.Gdb.Request.{handle_all}
use riscv_trace_debugger.Main.{
  Phase, idle, disconnected, ctrl_c_interrupt, running, Output, Reply, GdbStub, put_out, Session,
  Turn, received, received_after, run_returns, at_once, Round, next, left, failed, request_panicked,
  run_panicked, other_turn, endless, reply, incoming, when_dropped, when_ready, running_turn,
  idle_turn, disconnected_turn, ctrl_c_turn, in_phase, round, rounds, connect,
}

-- What a debugger wrote, one list for each reply, the latest first.
abbrev pub History : Type 0
History = List (List Output)

abbrev pub map_phase : {A B : Type 0} → (A → B) → Phase A → Phase B
map_phase f (idle g) = idle (f g)
map_phase f (disconnected g) = disconnected (f g)
map_phase f (ctrl_c_interrupt g) = ctrl_c_interrupt (f g)
map_phase f (running g) = running (f g)

abbrev pub record_reply : {G : Type 0} → History → Option (Reply G) → Option (Reply (G × History))
record_reply h none = none
record_reply h (some r) = some (record {
  phase = map_phase (λ g. (g, r.output ∷ h)) r.phase;
  requests = r.requests;
  output = r.output;
})

-- Any debugger, with its record beside its state.
abbrev pub recorded : {G : Type 0} → GdbStub G → GdbStub (G × History)
recorded stub = record {
  run_state_machine = λ m. record_reply [] (stub.run_state_machine m);
  incoming_data = λ g m b. record_reply g.1 (stub.incoming_data g.0 m b);
  interrupt_handled = λ g m reason. record_reply g.1 (stub.interrupt_handled g.0 m reason);
  report_stop = λ g m reason. record_reply g.1 (stub.report_stop g.0 m reason);
  get_reason = λ g. stub.get_reason g.0;
}

-- Without the record.
abbrev forget_phase : {G : Type 0} → Phase (G × History) → Phase G
forget_phase {G} p = map_phase (λ (g : G × History). g.0) p

abbrev forget_session : {G : Type 0} → Session (G × History) → Session G
forget_session s = record {
  phase = forget_phase s.phase;
  conn = s.conn;
  machine = s.machine;
  sent = s.sent;
}

abbrev pub forget : {G : Type 0} → Round (G × History) → Round G
forget (next s) = next (forget_session s)
forget (left reason s) = left reason (forget_session s)
forget failed = failed
forget request_panicked = request_panicked
forget run_panicked = run_panicked
forget other_turn = other_turn
forget endless = endless

forget-phase :
    {G : Type 0} (h : History) (p : Phase G) → forget_phase (map_phase (λ g. (g, h)) p) ≡ p
forget-phase h (idle g) = refl
forget-phase h (disconnected g) = refl
forget-phase h (ctrl_c_interrupt g) = refl
forget-phase h (running g) = refl

module _ (range : ℕ → ℕ → List ℕ) (w : ℕ) (fs : HostFs) {G : Type 0} (stub : GdbStub G) where
  forget-reply :
      (conn : BufferedConnection) (sent : List ℕ) (m : Machine) (h : History) (r : Option (Reply G))
      → forget (reply range w fs (recorded stub) conn sent m (record_reply h r))
        ≡ reply range w fs stub conn sent m r
  unfolding reply
  forget-reply conn sent m h none = refl
  forget-reply conn sent m h (some r) = elim (Option-cases (handle_all range w fs r.requests m)) [
    | inl e ↦ rw (e, reply) refl
    | inr (m', e) ↦
        rw (e, reply)
          (λ k. next (record {
            phase = forget-phase (r.output ∷ h) r.phase k;
            conn = put_out r.output conn;
            machine = m';
            sent = sent;
          }))
  ]

  module _ (s : Session (G × History)) (g : G × History) where
    forget-incoming :
        (m : Machine) (b : Option ℕ)
        → forget (incoming range w fs (recorded stub) s g m b)
          ≡ incoming range w fs stub (forget_session s) g.0 m b
    unfolding incoming
    forget-incoming m none = refl
    forget-incoming m (some b) = forget-reply s.conn s.sent m g.1 (stub.incoming_data g.0 m b)

    forget-when_dropped :
        (b : Option ℕ) (p : Poll)
        → forget (when_dropped range w fs (recorded stub) s g b p)
          ≡ when_dropped range w fs stub (forget_session s) g.0 b p
    unfolding when_dropped
    forget-when_dropped b (dropped m) = forget-incoming m b
    forget-when_dropped b (ready m event) = refl
    forget-when_dropped b panicked = refl
    forget-when_dropped b out_of_fuel = refl

    forget-when_ready :
        (p : Poll)
        → forget (when_ready range w fs (recorded stub) s g p)
          ≡ when_ready range w fs stub (forget_session s) g.0 p
    unfolding when_ready
    forget-when_ready (ready m event) =
        forget-reply s.conn s.sent m g.1 (stub.report_stop g.0 m event)
    forget-when_ready (dropped m) = refl
    forget-when_ready panicked = refl
    forget-when_ready out_of_fuel = refl

  forget-in_phase :
      (fuel : ℕ) (s : Session (G × History)) (phase : Phase (G × History)) (turn : Turn)
      → forget (in_phase range w fs (recorded stub) fuel s phase turn)
        ≡ in_phase range w fs stub fuel (forget_session s) (forget_phase phase) turn
  unfolding in_phase idle_turn disconnected_turn ctrl_c_turn running_turn
  forget-in_phase fuel s (idle g) (received b) = forget-incoming s g s.machine b
  forget-in_phase fuel s (idle g) (received_after polls b) = refl
  forget-in_phase fuel s (idle g) (run_returns polls) = refl
  forget-in_phase fuel s (idle g) at_once = refl
  forget-in_phase fuel s (disconnected g) (received b) = refl
  forget-in_phase fuel s (disconnected g) (received_after polls b) = refl
  forget-in_phase fuel s (disconnected g) (run_returns polls) = refl
  forget-in_phase fuel s (disconnected g) at_once = refl
  forget-in_phase fuel s (ctrl_c_interrupt g) (received b) = refl
  forget-in_phase fuel s (ctrl_c_interrupt g) (received_after polls b) = refl
  forget-in_phase fuel s (ctrl_c_interrupt g) (run_returns polls) = refl
  forget-in_phase fuel s (ctrl_c_interrupt g) at_once =
      forget-reply s.conn s.sent s.machine g.1
        (stub.interrupt_handled g.0 s.machine (some (signal sigint)))
  forget-in_phase fuel s (running g) (received b) = forget-incoming s g s.machine b
  forget-in_phase fuel s (running g) (received_after polls b) =
      forget-when_dropped s g b (run fuel polls s.machine)
  forget-in_phase fuel s (running g) (run_returns polls) =
      forget-when_ready s g (run fuel polls s.machine)
  forget-in_phase fuel s (running g) at_once = refl

  forget-round :
      (fuel : ℕ) (s : Session (G × History)) (accepts : Bool) (turn : Turn)
      → forget (round range w fs (recorded stub) fuel s accepts turn)
        ≡ round range w fs stub fuel (forget_session s) accepts turn
  unfolding round
  forget-round fuel s accepts turn =
      let flushed = flush_to accepts s.conn s.sent in
      elim (Bool-cases flushed.2) [
        | inl fine ↦
            rw (fine, round)
              (forget-in_phase fuel (record s { conn = flushed.0; sent = flushed.1 }) s.phase turn)
        | inr broken ↦ rw (broken, round) refl
      ]

  pub forget-rounds :
      (fuel : ℕ) (turns : List (Bool × Turn)) (r : Round (G × History))
      → forget (rounds range w fs (recorded stub) fuel turns r)
        ≡ rounds range w fs stub fuel turns (forget r)
  unfolding rounds
  forget-rounds fuel [] r = refl
  forget-rounds fuel ((accepts, turn) ∷ turns) (next s) =
      forget-rounds fuel turns (round range w fs (recorded stub) fuel s accepts turn)
      ∙ ap (rounds range w fs stub fuel turns) (forget-round fuel s accepts turn)
  forget-rounds fuel (_ ∷ turns) (left reason s) = refl
  forget-rounds fuel (_ ∷ turns) failed = refl
  forget-rounds fuel (_ ∷ turns) request_panicked = refl
  forget-rounds fuel (_ ∷ turns) run_panicked = refl
  forget-rounds fuel (_ ∷ turns) other_turn = refl
  forget-rounds fuel (_ ∷ turns) endless = refl

  pub forget-connect :
      (m : Machine) → forget (connect range w fs (recorded stub) m) ≡ connect range w fs stub m
  unfolding connect
  forget-connect m = forget-reply BufferedConnection.default [] m [] (stub.run_state_machine m)
