-- ===== src/Main/Waves.antt =====
-- main.rs: the task that shows the time in a waveform viewer, and the channel on which `run` sends
-- it. The channel `watch` of tokio is a parameter, and so is what the host and the viewer do.
pub mod Delivery
pub mod Writes
use riscv_trace_debugger.Prelude.{
  ℕ, ◌+◌, ◌-◌, ◌≡◌, Bool, true, false, Option, none, some, List, [], ◌∷◌, ◌++◌, leb, ◌==◌,
  if◌then◌else◌, length, take, Result, ok, err,
}
use riscv_trace_debugger.Fallible.{◌>>=◌, ◌>>◌, guard}
use riscv_trace_debugger.Trace.{Text}
use riscv_trace_debugger.Str.{codes}
use riscv_trace_debugger.Str.Display.{display_u64}

-- `tokio::sync::watch` with one receiver.
pub record Watch (C : Type 0) : Type 0 where
  pub channel : ℕ → C
  pub send : C → ℕ → C
  -- whether `changed` of the receiver is ready
  pub changed : C → Bool
  pub borrow_and_update : C → ℕ × C

-- What its documentation says: the channel keeps the last value sent; `changed` is ready from a new
-- value on until the receiver has seen it, and the value of the beginning counts as seen.
pub record IsWatch {C : Type 0} (watch : Watch C) (value : C → ℕ) : Type 0 where
  pub channel_changed : (t : ℕ) → watch.changed (watch.channel t) ≡ false
  pub send_changed : (c : C) (t : ℕ) → watch.changed (watch.send c t) ≡ true
  pub send_value : (c : C) (t : ℕ) → value (watch.send c t) ≡ t
  pub seen_value : (c : C) → (watch.borrow_and_update c).0 ≡ value c
  pub kept_value : (c : C) → value (watch.borrow_and_update c).1 ≡ value c
  pub seen_changed : (c : C) → watch.changed (watch.borrow_and_update c).1 ≡ false

-- The connection to the viewer: what it has taken, and how much it still takes before it breaks, if
-- it does.
pub record Socket : Type 0 where
  pub sent : List ℕ
  pub room : Option ℕ

-- `write_all`: the socket afterwards, and whether it took everything.
unfoldable pub write_all : Socket → List ℕ → Socket × Bool
write_all socket bytes = elim socket.room [
  | none ↦ (record socket { sent = socket.sent ++ bytes }, true)
  | some room ↦
      if leb (length bytes) room
      then (record { sent = socket.sent ++ bytes; room = some (room - length bytes) }, true)
      else (record { sent = socket.sent ++ take room bytes; room = some 0 }, false)
]

-- One `write_all` after the other, up to the first that fails.
unfoldable pub write_alls : Socket → List (List ℕ) → Socket × Bool
unfolding write_all
write_alls socket [] = (socket, true)
write_alls socket (bytes ∷ more) =
    let written = write_all socket bytes in
    let rest = write_alls written.0 more in if written.1 then rest else written

-- The texts are ASCII, so that their code points are their bytes.
unfoldable pub greeting : List ℕ
greeting =
    codes
      "{\n    \"type\": \"greeting\",\n    \"version\": \"0\",\n    \"commands\": [\"set_cursor\", \"set_viewport_to\"]\n}"

unfoldable pub command : Text → ℕ → List ℕ
unfolding display_u64
command name time =
    codes "{\n    \"type\": \"command\",\n    \"command\": \""
    ++ (name ++ (codes "\",\n    \"timestamp\": " ++ (display_u64 time ++ codes "\n}")))

-- Move the cursor, and centre the viewport.
unfoldable pub messages : ℕ → List (List ℕ)
unfolding command
messages time =
    command (codes "set_cursor") time
    ∷ (0 ∷ [])
    ∷ command (codes "set_viewport_to") time
    ∷ (0 ∷ [])
    ∷ []

pub data WavesError : Type 0 where
  bind_failed version_failed version_nonzero spawn_failed accept_failed : WavesError
  read_failed write_failed sender_gone wait_failed : WavesError

-- What the host does before the viewer is connected.
pub record ViewerHost : Type 0 where
  pub bind : Result WavesError (Unit {0})
  -- whether the program reports success
  pub surfer_version : Result WavesError Bool
  pub spawn : Result WavesError (Unit {0})
  pub accept : Result WavesError Socket

-- What ends a round of the loop: data of the viewer (`none` is an error), a time to be shown, all
-- senders gone, or the end of the viewer's process. In between, `run` sends a time.
pub data WavesTurn : Type 0 where
  sends : ℕ → WavesTurn
  reads : Option ℕ → WavesTurn
  changes senders_gone : WavesTurn
  exits : Bool → WavesTurn

pub record Viewing (C : Type 0) : Type 0 where
  pub time : C
  pub socket : Socket

-- The task goes on, has returned, or has ended with an error; `blocked` is a turn that cannot happen.
pub data Waves (C : Type 0) : Type 0 where
  viewing finished : Viewing C → Waves C
  failed : WavesError → Viewing C → Waves C
  not_started : WavesError → Waves C
  blocked : Waves C

-- Up to the loop.
unfoldable pub connect_viewer : ViewerHost → Result WavesError Socket
connect_viewer host = do
  host.bind
  fine ← host.surfer_version
  guard fine version_nonzero
  host.spawn
  host.accept

module _ {C : Type 0} (watch : Watch C) where
  unfoldable pub show_time : Viewing C → Waves C
  unfolding write_alls messages
  show_time v =
      let (time, seen) = watch.borrow_and_update v.time in
      let written = write_alls v.socket (messages time) in
      let v' : Viewing C = record { time = seen; socket = written.0 } in
      if written.1 then viewing v' else failed write_failed v'

  -- A round of the `select!`. Other tasks send while this one waits; what they send while it writes
  -- is a turn after that, as the channel is read before.
  unfoldable pub waves_turn : Viewing C → WavesTurn → Waves C
  unfolding show_time
  waves_turn v (sends t) = viewing (record v { time = watch.send v.time t })
  waves_turn v (reads none) = failed read_failed v
  waves_turn v (reads (some n)) = if n == 0 then finished v else viewing v
  waves_turn v changes = if watch.changed v.time then show_time v else blocked
  waves_turn v senders_gone = failed sender_gone v
  waves_turn v (exits true) = finished v
  waves_turn v (exits false) = failed wait_failed v

  unfoldable pub waves_turns : List WavesTurn → Waves C → Waves C
  unfolding waves_turn
  waves_turns [] w = w
  waves_turns (t ∷ turns) (viewing v) = waves_turns turns (waves_turn v t)
  waves_turns (t ∷ turns) (finished v) = finished v
  waves_turns (t ∷ turns) (failed e v) = failed e v
  waves_turns (t ∷ turns) (not_started e) = not_started e
  waves_turns (t ∷ turns) blocked = blocked

  unfoldable pub greet : C → Socket → Waves C
  unfolding write_alls greeting
  greet time socket =
      let written = write_alls socket (greeting ∷ (0 ∷ []) ∷ []) in
      let v : Viewing C = record { time = time; socket = written.0 } in
      if written.1 then viewing v else failed write_failed v

  unfoldable pub send_all : C → List ℕ → C
  send_all c [] = c
  send_all c (t ∷ times) = send_all (watch.send c t) times

  -- The channel starts in `main_impl`; `early` are the times that are sent before the loop begins.
  unfoldable pub main_waves : ViewerHost → List ℕ → List WavesTurn → Waves C
  unfolding connect_viewer greet send_all waves_turns
  main_waves host early turns = elim (connect_viewer host) [
    | err e ↦ not_started e
    | ok socket ↦ waves_turns turns (greet (send_all (watch.channel 0) early) socket)
  ]
