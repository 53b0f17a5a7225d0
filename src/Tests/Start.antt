-- ===== src/Tests/Start.antt =====
-- The theorems on `main` and on the task for the viewer: a command line with a trace and with waves.
use riscv_trace_debugger.Prelude.{ℕ, ◌≡◌, refl, Bool, true, false, none, some, List, [], ◌∷◌, ok}
use riscv_trace_debugger.Str.{codes}
use riscv_trace_debugger.Main.{Connection, accepted, bind_failed, received, run_returns}
use riscv_trace_debugger.Main.Waves.{
  Watch, IsWatch, Socket, ViewerHost, WavesTurn, connect_viewer, viewing, sends, reads, changes,
  main_waves,
}
use riscv_trace_debugger.Main.Waves.Delivery.{Delivers, stream, main_waves-Delivers}
use riscv_trace_debugger.Main.Start.{Args, World}
use riscv_trace_debugger.Tests.Host.{host, stub}
use riscv_trace_debugger.Tests.Readers.{ops, lines}

-- The last value, and whether it is new.
abbrev cell : Watch (ℕ × Bool)
cell = record {
  channel = λ t. (t, false);
  send = λ c t. (t, true);
  changed = λ c. c.1;
  borrow_and_update = λ c. (c.0, (c.0, false));
}

cell-IsWatch : IsWatch cell (λ c. c.0)
cell-IsWatch = record {
  channel_changed = λ t. refl;
  send_changed = λ c t. refl;
  send_value = λ c t. refl;
  seen_value = λ c. refl;
  kept_value = λ c. refl;
  seen_changed = λ c. refl;
}

-- A viewer whose connection never breaks.
abbrev viewer : ViewerHost
viewer = record {
  bind = ok tt;
  surfer_version = ok true;
  spawn = ok tt;
  accept = ok (record { sent = []; room = none });
}

viewer-new : (socket : Socket) → viewer.accept ≡ ok socket → socket.sent ≡ []
viewer-new socket e = cc

-- The times 5 and 7 are sent before the first one is shown, and 9 after the last.
abbrev turns : List WavesTurn
turns = sends 5 ∷ reads (some 3) ∷ sends 7 ∷ changes ∷ sends 9 ∷ []

main_waves-Delivers_example :
    Delivers cell
      (λ c. c.0)
      (connect_viewer viewer)
      (5 ∷ 7 ∷ 9 ∷ [])
      (main_waves cell viewer [] turns)
main_waves-Delivers_example =
    main_waves-Delivers cell (λ c. c.0) viewer [] turns cell-IsWatch viewer-new

-- Only the 7 is shown, and the 9 waits.
shows_latest :
    main_waves cell viewer [] turns
    ≡ viewing (record { time = (9, true); socket = record { sent = stream (7 ∷ []); room = none } })
unfolding main_waves
shows_latest = refl

-- Every file is an ELF file of one byte or a trace.
abbrev world : World (ℕ × Bool) ℕ
world = record {
  log_env = record { log_file = some (codes "log"); pid = 12; create = λ path. true };
  files = record {
    read = λ path. some (127 ∷ []);
    lines = λ path. some (record { texts = lines; whole = true });
  };
  parse_ident = λ elf. some (record { little_endian = true; is_64 = false });
  parse = λ elf. some (record { entry = 4; section_headers = [] });
  ops = ops;
  info = true;
  range = λ from to. [];
  fs = host;
  stub = stub;
  watch = cell;
  viewer = λ path. viewer;
}

abbrev args : Args
args = record {
  elf = codes "a.elf";
  ibex_trace = some (codes "a.log");
  cheriot_ibex_trace = none;
  waves = some (codes "a.fst");
}

-- Two connections are waited for; the first one ends with an error of its socket.
abbrev connections : List Connection
connections =
    accepted ((true, received (some b'c')) ∷ (true, run_returns 2) ∷ (true, received none) ∷ [])
    ∷ accepted ((true, received (some b'c')) ∷ [])
    ∷ bind_failed
    ∷ []
