-- ===== src/BufferedConnection.antt =====
-- buffered_connection.rs: bytes wait in a buffer until they are asked to be sent and then are.
use riscv_trace_debugger.Prelude.{
  ℕ, Bool, true, false, List, [], ◌∷◌, ◌++◌, ◌≡◌, refl, ap, sym, ◌∙◌, append-nil, append_assoc,
  if◌then◌else◌,
}

pub record BufferedConnection : Type 0 where
  pub buffer : List ℕ
  pub flush_pending : Bool

abbrev pub default : BufferedConnection
default = record { buffer = []; flush_pending = false }

-- `write` of `Connection`.
unfoldable pub write : BufferedConnection → ℕ → BufferedConnection
write c byte = record c { buffer = c.buffer ++ byte ∷ [] }

-- `flush` of `Connection`: only a mark.
unfoldable pub flush : BufferedConnection → BufferedConnection
flush c = record c { flush_pending = true }

-- The asynchronous `flush`, to a writer that has taken the bytes `sent`. `accepts` is whether its
-- `write_all` succeeds; if not, the error is returned before the buffer is changed.
unfoldable pub flush_to : Bool → BufferedConnection → List ℕ → BufferedConnection × List ℕ × Bool
flush_to accepts c sent =
    if c.flush_pending
    then (if accepts
        then (record { buffer = []; flush_pending = false }, sent ++ c.buffer, true)
        else (c, sent, false))
    else (c, sent, true)

-- What gdbstub and the main loop do with a connection.
pub data Call : Type 0 where
  writes : ℕ → Call
  flushes : Call
  sends : Call

abbrev pub written : List Call → List ℕ
written [] = []
written (writes b ∷ calls) = b ∷ written calls
written (flushes ∷ calls) = written calls
written (sends ∷ calls) = written calls

unfoldable pub run_calls : List Call → BufferedConnection → List ℕ → BufferedConnection × List ℕ
run_calls [] c sent = (c, sent)
run_calls (writes b ∷ calls) c sent = run_calls calls (write c b) sent
run_calls (flushes ∷ calls) c sent = run_calls calls (flush c) sent
run_calls (sends ∷ calls) c sent = let done = flush_to true c sent in run_calls calls done.0 done.1

flush_to_pending-keeps :
    (pending : Bool) (b sent : List ℕ)
    → let done = flush_to true (record { buffer = b; flush_pending = pending }) sent in
      done.1 ++ done.0.buffer ≡ sent ++ b
unfolding flush_to
flush_to_pending-keeps true b sent = append-nil (sent ++ b)
flush_to_pending-keeps false b sent = refl

-- A call to the writer moves the buffer's bytes, if any, behind those it has.
flush_to-keeps :
    (c : BufferedConnection) (sent : List ℕ)
    → (flush_to true c sent).1 ++ (flush_to true c sent).0.buffer ≡ sent ++ c.buffer
flush_to-keeps c sent = flush_to_pending-keeps c.flush_pending c.buffer sent

-- Over any calls, with a writer that accepts what it is given: the bytes that were sent and those
-- that wait in the buffer are together the bytes that were sent or waited before, followed by the
-- bytes written, in order; none is lost or doubled.
pub run_calls-written :
    (calls : List Call) (c : BufferedConnection) (sent : List ℕ)
    → (run_calls calls c sent).1 ++ (run_calls calls c sent).0.buffer
      ≡ (sent ++ c.buffer) ++ written calls
unfolding run_calls write flush
run_calls-written [] c sent = sym (append-nil (sent ++ c.buffer))
run_calls-written (writes b ∷ calls) c sent =
    run_calls-written calls (write c b) sent
    ∙ ap (λ t. t ++ written calls) (sym (append_assoc sent c.buffer (b ∷ [])))
    ∙ append_assoc (sent ++ c.buffer) (b ∷ []) (written calls)
run_calls-written (flushes ∷ calls) c sent = run_calls-written calls (flush c) sent
run_calls-written (sends ∷ calls) c sent =
    run_calls-written calls (flush_to true c sent).0 (flush_to true c sent).1
    ∙ ap (λ t. t ++ written calls) (flush_to-keeps c sent)
