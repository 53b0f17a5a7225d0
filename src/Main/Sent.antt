-- ===== src/Main/Sent.antt =====
-- What gdbstub writes and what the socket is sent.
pub mod Recorded
use riscv_trace_debugger.Prelude.{
  ℕ, ◌≡◌, refl, sym, ap, subst, ◌∙◌, Bool, true, false, if◌then◌else◌, Option, none, some, List, [],
  ◌∷◌, ◌++◌, append-nil, append_assoc, Option-cases, Bool-cases, inl, inr,
}
use riscv_trace_debugger.BufferedConnection
use riscv_trace_debugger.BufferedConnection.{BufferedConnection, flush_to}
use riscv_trace_debugger.Machine.{
  Machine, StopReason, signal, sigint, Poll, ready, dropped, panicked, out_of_fuel, run,
}
use riscv_trace_debugger.Gdb.HostIo.{HostFs}
use riscv_trace_debugger.Gdb.Request.{handle_all}
use riscv_trace_debugger.Main.{
  Phase, idle, disconnected, ctrl_c_interrupt, running, Output, byte, flush, Reply, GdbStub,
  put_out, Session, Turn, received, received_after, run_returns, at_once, Round, next, left, failed,
  request_panicked, run_panicked, other_turn, endless, reply, incoming, when_dropped, when_ready,
  running_turn, idle_turn, disconnected_turn, ctrl_c_turn, in_phase, round, rounds, connect,
}
use riscv_trace_debugger.Main.Sent.Recorded.{
  History, map_phase, record_reply, recorded, forget, forget-rounds, forget-connect,
}

abbrev pub bytes_of : List Output → List ℕ
bytes_of [] = []
bytes_of (byte b ∷ out) = b ∷ bytes_of out
bytes_of (flush ∷ out) = bytes_of out

abbrev pub has_flush : List Output → Bool
has_flush [] = false
has_flush (byte b ∷ out) = has_flush out
has_flush (flush ∷ out) = true

-- All that was written.
abbrev pub all_bytes : History → List ℕ
all_bytes [] = []
all_bytes (out ∷ earlier) = all_bytes earlier ++ bytes_of out

-- What has to be sent: all that was written up to the last reply that asked for it.
abbrev pub released : History → List ℕ
released [] = []
released (out ∷ earlier) = if has_flush out then all_bytes (out ∷ earlier) else released earlier

-- What waits has been sent, as far as it was asked for.
abbrev UpToDate : History → BufferedConnection → List ℕ → Type 0
UpToDate h conn sent =
    (sent ≡ released h) × (sent ++ conn.buffer ≡ all_bytes h) × (conn.flush_pending ≡ false)

-- After a reply: all that was asked for before it has been sent, and all that the reply wrote waits,
-- behind what nobody has asked for yet.
abbrev Replied : History → BufferedConnection → List ℕ → Type 0
Replied [] conn sent = ⊥
Replied (out ∷ earlier) conn sent =
    (sent ≡ released earlier)
    × (sent ++ conn.buffer ≡ all_bytes (out ∷ earlier))
    × (conn.flush_pending ≡ has_flush out)

abbrev pub history_of : {G : Type 0} → Phase (G × History) → History
history_of (idle g) = g.1
history_of (disconnected g) = g.1
history_of (ctrl_c_interrupt g) = g.1
history_of (running g) = g.1

-- What the socket has taken, in a session that goes on and in one that was left.
abbrev pub SendsReleased : {G : Type 0} → Round (G × History) → Type 0
SendsReleased (next s) = Replied (history_of s.phase) s.conn s.sent
SendsReleased (left reason s) = UpToDate (history_of s.phase) s.conn s.sent
SendsReleased failed = Unit
SendsReleased request_panicked = Unit
SendsReleased run_panicked = Unit
SendsReleased other_turn = Unit
SendsReleased endless = Unit

put_out-buffer :
    (out : List Output) (c : BufferedConnection) → (put_out out c).buffer ≡ c.buffer ++ bytes_of out
unfolding put_out BufferedConnection.write BufferedConnection.flush
put_out-buffer [] c = sym (append-nil c.buffer)
put_out-buffer (byte b ∷ out) c =
    put_out-buffer out (BufferedConnection.write c b)
    ∙ append_assoc c.buffer (b ∷ []) (bytes_of out)
put_out-buffer (flush ∷ out) c = put_out-buffer out (BufferedConnection.flush c)

put_out-pending :
    (out : List Output) (c : BufferedConnection)
    → c.flush_pending ≡ true
    → (put_out out c).flush_pending ≡ true
unfolding put_out BufferedConnection.write BufferedConnection.flush
put_out-pending [] c h = h
put_out-pending (byte b ∷ out) c h = put_out-pending out (BufferedConnection.write c b) h
put_out-pending (flush ∷ out) c h = put_out-pending out (BufferedConnection.flush c) refl

put_out-has_flush :
    (out : List Output) (c : BufferedConnection)
    → c.flush_pending ≡ false
    → (put_out out c).flush_pending ≡ has_flush out
unfolding put_out BufferedConnection.write BufferedConnection.flush
put_out-has_flush [] c h = h
put_out-has_flush (byte b ∷ out) c h = put_out-has_flush out (BufferedConnection.write c b) h
put_out-has_flush (flush ∷ out) c h = put_out-pending out (BufferedConnection.flush c) refl

-- Sending what waits.
flush_to-UpToDate :
    (accepts : Bool) (h : History) (c : BufferedConnection) (sent : List ℕ)
    → Replied h c sent
    → let done = flush_to accepts c sent in done.2 ≡ true → UpToDate h done.0 done.1
unfolding flush_to
flush_to-UpToDate accepts [] c sent r fine = absurd r
flush_to-UpToDate accepts (out ∷ earlier) c sent (taken, whole, pending) fine =
    elim (Bool-cases (has_flush out)) [
      | inl e ↦ elim (Bool-cases accepts) [
        | inl a ↦
            let now : c.flush_pending ≡ true = pending ∙ e in
            rw (now, a, e, flush_to) (whole, append-nil (sent ++ c.buffer) ∙ whole, refl)
        | inr a ↦ absurd (refused (pending ∙ e) a fine)
      ]
      | inr e ↦
          let now : c.flush_pending ≡ false = pending ∙ e in
          rw (now, e, flush_to) (taken, whole, refl)
    ]
  where
    refused : c.flush_pending ≡ true → accepts ≡ false → (flush_to accepts c sent).2 ≡ true → ⊥
    refused e a fine = cc

history_of-map :
    {G : Type 0} (h : History) (p : Phase G) → history_of (map_phase (λ g. (g, h)) p) ≡ h
history_of-map h (idle g) = refl
history_of-map h (disconnected g) = refl
history_of-map h (ctrl_c_interrupt g) = refl
history_of-map h (running g) = refl

module _ (range : ℕ → ℕ → List ℕ) (w : ℕ) (fs : HostFs) {G : Type 0} (stub : GdbStub G) where
  reply-SendsReleased :
      (conn : BufferedConnection) (sent : List ℕ) (m : Machine) (h : History) (r : Option (Reply G))
      → UpToDate h conn sent
      → SendsReleased (reply range w fs (recorded stub) conn sent m (record_reply h r))
  unfolding reply
  reply-SendsReleased conn sent m h none u = tt
  reply-SendsReleased conn sent m h (some r) (taken, whole, quiet) =
      elim (Option-cases (handle_all range w fs r.requests m)) [
        | inl e ↦ rw (e, reply) tt
        | inr (m', e) ↦
            rw (e, reply, history_of-map (r.output ∷ h) r.phase)
              (
                taken,
                ap (λ b. sent ++ b) (put_out-buffer r.output conn)
                    ∙ sym (append_assoc sent conn.buffer (bytes_of r.output))
                    ∙ ap (λ b. b ++ bytes_of r.output) whole,
                put_out-has_flush r.output conn quiet,
              )
      ]

  module _ (s : Session (G × History)) (g : G × History) (u : UpToDate g.1 s.conn s.sent) where
    incoming-SendsReleased :
        (m : Machine) (b : Option ℕ) → SendsReleased (incoming range w fs (recorded stub) s g m b)
    unfolding incoming
    incoming-SendsReleased m none = tt
    incoming-SendsReleased m (some b) =
        reply-SendsReleased s.conn s.sent m g.1 (stub.incoming_data g.0 m b) u

    when_dropped-SendsReleased :
        (b : Option ℕ) (p : Poll) → SendsReleased (when_dropped range w fs (recorded stub) s g b p)
    unfolding when_dropped
    when_dropped-SendsReleased b (dropped m) = incoming-SendsReleased m b
    when_dropped-SendsReleased b (ready m event) = tt
    when_dropped-SendsReleased b panicked = tt
    when_dropped-SendsReleased b out_of_fuel = tt

    when_ready-SendsReleased :
        (p : Poll) → SendsReleased (when_ready range w fs (recorded stub) s g p)
    unfolding when_ready
    when_ready-SendsReleased (ready m event) =
        reply-SendsReleased s.conn s.sent m g.1 (stub.report_stop g.0 m event) u
    when_ready-SendsReleased (dropped m) = tt
    when_ready-SendsReleased panicked = tt
    when_ready-SendsReleased out_of_fuel = tt

  in_phase-SendsReleased :
      (fuel : ℕ) (s : Session (G × History)) (phase : Phase (G × History)) (turn : Turn)
      → UpToDate (history_of phase) s.conn s.sent
      → s.phase ≡ phase
      → SendsReleased (in_phase range w fs (recorded stub) fuel s phase turn)
  unfolding in_phase idle_turn disconnected_turn ctrl_c_turn running_turn
  in_phase-SendsReleased fuel s (idle g) (received b) u e = incoming-SendsReleased s g u s.machine b
  in_phase-SendsReleased fuel s (idle g) (received_after polls b) u e = tt
  in_phase-SendsReleased fuel s (idle g) (run_returns polls) u e = tt
  in_phase-SendsReleased fuel s (idle g) at_once u e = tt
  in_phase-SendsReleased fuel s (disconnected g) (received b) u e = tt
  in_phase-SendsReleased fuel s (disconnected g) (received_after polls b) u e = tt
  in_phase-SendsReleased fuel s (disconnected g) (run_returns polls) u e = tt
  in_phase-SendsReleased fuel s (disconnected g) at_once u e =
      subst (λ p. UpToDate (history_of p) s.conn s.sent) (sym e) u
  in_phase-SendsReleased fuel s (ctrl_c_interrupt g) (received b) u e = tt
  in_phase-SendsReleased fuel s (ctrl_c_interrupt g) (received_after polls b) u e = tt
  in_phase-SendsReleased fuel s (ctrl_c_interrupt g) (run_returns polls) u e = tt
  in_phase-SendsReleased fuel s (ctrl_c_interrupt g) at_once u e =
      reply-SendsReleased s.conn s.sent s.machine g.1
        (stub.interrupt_handled g.0 s.machine (some (signal sigint))) u
  in_phase-SendsReleased fuel s (running g) (received b) u e =
      incoming-SendsReleased s g u s.machine b
  in_phase-SendsReleased fuel s (running g) (received_after polls b) u e =
      when_dropped-SendsReleased s g u b (run fuel polls s.machine)
  in_phase-SendsReleased fuel s (running g) (run_returns polls) u e =
      when_ready-SendsReleased s g u (run fuel polls s.machine)
  in_phase-SendsReleased fuel s (running g) at_once u e = tt

  round-SendsReleased :
      (fuel : ℕ) (s : Session (G × History)) (accepts : Bool) (turn : Turn)
      → Replied (history_of s.phase) s.conn s.sent
      → SendsReleased (round range w fs (recorded stub) fuel s accepts turn)
  unfolding round
  round-SendsReleased fuel s accepts turn h =
      let flushed = flush_to accepts s.conn s.sent in
      elim (Bool-cases flushed.2) [
        | inl fine ↦
            rw (fine, round)
              (in_phase-SendsReleased fuel (record s { conn = flushed.0; sent = flushed.1 }) s.phase
                turn (flush_to-UpToDate accepts (history_of s.phase) s.conn s.sent h fine) refl)
        | inr broken ↦ rw (broken, round) tt
      ]

  rounds-from :
      (fuel : ℕ) (turns : List (Bool × Turn)) (r : Round (G × History))
      → SendsReleased r
      → SendsReleased (rounds range w fs (recorded stub) fuel turns r)
  unfolding rounds
  rounds-from fuel [] r h = h
  rounds-from fuel ((accepts, turn) ∷ turns) (next s) h =
      rounds-from fuel turns (round range w fs (recorded stub) fuel s accepts turn)
        (round-SendsReleased fuel s accepts turn h)
  rounds-from fuel (_ ∷ turns) (left reason s) h = h
  rounds-from fuel (_ ∷ turns) failed h = h
  rounds-from fuel (_ ∷ turns) request_panicked h = h
  rounds-from fuel (_ ∷ turns) run_panicked h = h
  rounds-from fuel (_ ∷ turns) other_turn h = h
  rounds-from fuel (_ ∷ turns) endless h = h

  connect-SendsReleased : (m : Machine) → SendsReleased (connect range w fs (recorded stub) m)
  unfolding connect
  connect-SendsReleased m =
      reply-SendsReleased BufferedConnection.default [] m [] (stub.run_state_machine m)
        (refl, refl, refl)

  -- Whatever gdbstub does, and whatever happens in the rounds of a session: a record of what it has
  -- written, reply by reply, is kept beside it and changes nothing. In a session that goes on, the
  -- socket has taken exactly what was written up to the last reply before the latest that asked for a
  -- flush, and the rest waits in order, marked to be sent exactly if the latest reply asked. A session
  -- that was left has also sent what its latest reply asked for.
  pub rounds-SendsReleased :
      (fuel : ℕ) (turns : List (Bool × Turn)) (m : Machine)
      → let r =
          rounds range w fs (recorded stub) fuel turns (connect range w fs (recorded stub) m) in
        (forget r ≡ rounds range w fs stub fuel turns (connect range w fs stub m)) × SendsReleased r
  rounds-SendsReleased fuel turns m = (
    forget-rounds range w fs stub fuel turns (connect range w fs (recorded stub) m)
        ∙ ap (rounds range w fs stub fuel turns) (forget-connect range w fs stub m),
    rounds-from fuel turns (connect range w fs (recorded stub) m) (connect-SendsReleased m),
  )
