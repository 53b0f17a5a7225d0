-- ===== src/Main/Waves/Delivery.antt =====
-- Which times the viewer is shown, whatever the interleaving of the task with `run`.
use riscv_trace_debugger.Prelude.{
  ℕ, ◌≡◌, refl, sym, ap, subst, ◌∙◌, Bool, true, false, none, some, List, [], ◌∷◌, ◌++◌, append-nil,
  append_assoc, ◌==◌, if◌then◌else◌, Result, ok, err, arith, Bool-cases, inl, inr, Subsequence,
  empty, skip_last, keep_last, last, last-append, Subsequence-append,
}
use riscv_trace_debugger.Main.Waves.{
  Watch, IsWatch, Socket, write_alls, greeting, messages, WavesError, write_failed, ViewerHost,
  WavesTurn, sends, reads, changes, senders_gone, exits, Viewing, Waves, viewing, finished, failed,
  not_started, blocked, show_time, waves_turn, waves_turns, connect_viewer, greet, send_all,
  main_waves,
}
use riscv_trace_debugger.Main.Waves.Writes.{concat, Wrote, write_alls-Wrote}

-- What the viewer is sent that is shown these times.
abbrev pub shows : List ℕ → List ℕ
shows [] = []
shows (t ∷ times) = concat (messages t) ++ shows times

abbrev pub stream : List ℕ → List ℕ
stream times = concat (greeting ∷ (0 ∷ []) ∷ []) ++ shows times

-- The times that are sent in some turns.
abbrev pub sent_times : List WavesTurn → List ℕ
sent_times [] = []
sent_times (sends t ∷ turns) = t ∷ sent_times turns
sent_times (reads n ∷ turns) = sent_times turns
sent_times (changes ∷ turns) = sent_times turns
sent_times (senders_gone ∷ turns) = sent_times turns
sent_times (exits b ∷ turns) = sent_times turns

shows-append :
    (times : List ℕ) (t : ℕ) → shows (times ++ t ∷ []) ≡ shows times ++ concat (messages t)
shows-append [] t = append-nil (concat (messages t))
shows-append (u ∷ times) t =
    ap (λ b. concat (messages u) ++ b) (shows-append times t)
    ∙ sym (append_assoc (concat (messages u)) (shows times) (concat (messages t)))

module _ {C : Type 0} (watch : Watch C) (value : C → ℕ) (connected : Result WavesError Socket) where
  -- Of all the times sent so far, these have been shown: the last one of all with them, or else it
  -- waits in the channel, and those shown are from before it.
  pub data Shown (c : C) (all shown : List ℕ) : Type 0 where
    up_to_date :
        watch.changed c ≡ false → Subsequence shown all → last shown ≡ last all → Shown c all shown
    waits :
        (before : List ℕ) (t : ℕ)
        → watch.changed c ≡ true
        → all ≡ before ++ t ∷ []
        → Subsequence shown before
        → value c ≡ t
        → Shown c all shown

  -- The viewer has been sent the greeting and then the messages of the times that were shown, whole;
  -- or, where the connection broke, a part of them from the front.
  abbrev pub Delivers : List ℕ → Waves C → Type 0
  Delivers all (viewing v) =
      (shown : List ℕ) × (v.socket.sent ≡ stream shown) × Shown v.time all shown
  Delivers all (finished v) =
      (before : List ℕ) × (after : List ℕ) × (shown : List ℕ) × (all ≡ before ++ after)
      × (v.socket.sent ≡ stream shown)
      × Shown v.time before shown
  Delivers all (failed e v) =
      (shown : List ℕ) × (rest : List ℕ) × (v.socket.sent ++ rest ≡ stream shown)
      × Subsequence shown all
  Delivers all (not_started e) = connected ≡ err e
  Delivers all blocked = Unit

  Shown-Subsequence : {c : C} {all shown : List ℕ} → Shown c all shown → Subsequence shown all
  Shown-Subsequence (up_to_date seen h e) = h
  Shown-Subsequence {shown = shown} (waits before t seen e h v) =
      subst (Subsequence shown) (sym e) (skip_last t h)

  module _ (laws : IsWatch watch value) where
    Shown-send :
        {c : C} {all shown : List ℕ} (t : ℕ)
        → Shown c all shown
        → Shown (watch.send c t) (all ++ t ∷ []) shown
    Shown-send {c} {all} t h =
        waits all t (laws.send_changed c t) refl (Shown-Subsequence h) (laws.send_value c t)

    -- What `changed` was ready for is shown, and nothing waits then.
    Shown-seen :
        {c : C} {all shown : List ℕ}
        → watch.changed c ≡ true
        → Shown c all shown
        → let (time, seen) = watch.borrow_and_update c in Shown seen all (shown ++ time ∷ [])
    Shown-seen ready (up_to_date seen h e) = cc
    Shown-seen {c} {all} {shown} ready (waits before t seen e h v) =
        let time : (watch.borrow_and_update c).0 ≡ t = laws.seen_value c ∙ v in
        rw (time, e)
          (up_to_date (laws.seen_changed c) (keep_last t h)
            (last-append shown t ∙ sym (last-append before t)))

    stream-append :
        (shown : List ℕ) (t : ℕ) → stream (shown ++ t ∷ []) ≡ stream shown ++ concat (messages t)
    stream-append shown t =
        ap (λ b. concat (greeting ∷ (0 ∷ []) ∷ []) ++ b) (shows-append shown t)
        ∙ sym (append_assoc (concat (greeting ∷ (0 ∷ []) ∷ [])) (shows shown) (concat (messages t)))

    Delivers-more :
        {all : List ℕ} (shown : List ℕ) (time : ℕ) (seen : C) (sent : List ℕ) (r : Socket × Bool)
        → sent ≡ stream shown
        → Shown seen all (shown ++ time ∷ [])
        → Wrote (sent ++ concat (messages time)) r
        → Delivers all (
            let v : Viewing C = record { time = seen; socket = r.0 } in
            if r.1 then viewing v else failed write_failed v)
    Delivers-more shown time seen sent (socket, true) e h wrote = (
      shown ++ time ∷ [],
      wrote ∙ ap (λ b. b ++ concat (messages time)) e ∙ sym (stream-append shown time),
      h,
    )
    Delivers-more shown time seen sent (socket, false) e h (rest, wrote) = (
      shown ++ time ∷ [],
      rest,
      wrote ∙ ap (λ b. b ++ concat (messages time)) e ∙ sym (stream-append shown time),
      Shown-Subsequence h,
    )

    show_time-Delivers :
        {all : List ℕ} (v : Viewing C)
        → watch.changed v.time ≡ true
        → Delivers all (viewing v)
        → Delivers all (show_time watch v)
    unfolding show_time
    show_time-Delivers v ready (shown, e, h) =
        let (time, seen) = watch.borrow_and_update v.time in
        Delivers-more shown time seen v.socket.sent (write_alls v.socket (messages time)) e
          (Shown-seen ready h) (write_alls-Wrote v.socket (messages time))

    -- A turn that sends nothing.
    abbrev IsQuiet : WavesTurn → Type 0
    IsQuiet (sends t) = ⊥
    IsQuiet (reads n) = Unit
    IsQuiet changes = Unit
    IsQuiet senders_gone = Unit
    IsQuiet (exits b) = Unit

    quiet_turn-Delivers :
        {all : List ℕ} (v : Viewing C) (turn : WavesTurn)
        → IsQuiet turn
        → Delivers all (viewing v)
        → Delivers all (waves_turn watch v turn)
    unfolding waves_turn
    quiet_turn-Delivers v (sends t) quiet d = absurd quiet
    quiet_turn-Delivers v (reads none) quiet (shown, e, h) =
        (shown, [], append-nil v.socket.sent ∙ e, Shown-Subsequence h)
    quiet_turn-Delivers {all} v (reads (some n)) quiet (shown, e, h) = elim (Bool-cases (n == 0)) [
      | inl closed ↦ rw closed (all, [], shown, sym (append-nil all), e, h)
      | inr more ↦ rw more (shown, e, h)
    ]
    quiet_turn-Delivers v changes quiet d = elim (Bool-cases (watch.changed v.time)) [
      | inl ready ↦ rw (ready, waves_turn) (show_time-Delivers v ready d)
      | inr not_ready ↦ rw (not_ready, waves_turn) tt
    ]
    quiet_turn-Delivers v senders_gone quiet (shown, e, h) =
        (shown, [], append-nil v.socket.sent ∙ e, Shown-Subsequence h)
    quiet_turn-Delivers {all} v (exits true) quiet (shown, e, h) =
        (all, [], shown, sym (append-nil all), e, h)
    quiet_turn-Delivers v (exits false) quiet (shown, e, h) =
        (shown, [], append-nil v.socket.sent ∙ e, Shown-Subsequence h)

    send_turn-Delivers :
        {all : List ℕ} (v : Viewing C) (t : ℕ)
        → Delivers all (viewing v)
        → Delivers (all ++ t ∷ []) (waves_turn watch v (sends t))
    unfolding waves_turn
    send_turn-Delivers v t (shown, e, h) = (shown, e, Shown-send t h)

    waves_turns-Delivers :
        (turns : List WavesTurn) (all : List ℕ) (w : Waves C)
        → Delivers all w
        → Delivers (all ++ sent_times turns) (waves_turns watch turns w)
    unfolding waves_turns
    waves_turns-Delivers [] all w d = rw (append-nil all) d
    waves_turns-Delivers (sends t ∷ turns) all (viewing v) d =
        subst (λ a. Delivers a (waves_turns watch turns (waves_turn watch v (sends t))))
          (append_assoc all (t ∷ []) (sent_times turns))
          (waves_turns-Delivers turns (all ++ t ∷ []) (waves_turn watch v (sends t))
            (send_turn-Delivers v t d))
    waves_turns-Delivers (reads n ∷ turns) all (viewing v) d =
        waves_turns-Delivers turns all (waves_turn watch v (reads n))
          (quiet_turn-Delivers v (reads n) tt d)
    waves_turns-Delivers (changes ∷ turns) all (viewing v) d =
        waves_turns-Delivers turns all (waves_turn watch v changes)
          (quiet_turn-Delivers v changes tt d)
    waves_turns-Delivers (senders_gone ∷ turns) all (viewing v) d =
        waves_turns-Delivers turns all (waves_turn watch v senders_gone)
          (quiet_turn-Delivers v senders_gone tt d)
    waves_turns-Delivers (exits b ∷ turns) all (viewing v) d =
        waves_turns-Delivers turns all (waves_turn watch v (exits b))
          (quiet_turn-Delivers v (exits b) tt d)
    waves_turns-Delivers (turn ∷ turns) all (finished v) (before, after, shown, parts, e, h) =
        let later = sent_times (turn ∷ turns) in
        (
          before,
          after ++ later,
          shown,
          ap (λ b. b ++ later) parts ∙ append_assoc before after later,
          e,
          h,
        )
    waves_turns-Delivers (turn ∷ turns) all (failed e v) (shown, rest, eq, h) =
        (shown, rest, eq, Subsequence-append (sent_times (turn ∷ turns)) h)
    waves_turns-Delivers (turn ∷ turns) all (not_started e) d = d
    waves_turns-Delivers (turn ∷ turns) all blocked d = tt

    send_all-Shown :
        (times all : List ℕ) (c : C)
        → Shown c all []
        → Shown (send_all watch c times) (all ++ times) []
    unfolding send_all
    send_all-Shown [] all c h = rw (append-nil all) h
    send_all-Shown (t ∷ times) all c h =
        subst (λ a. Shown (send_all watch (watch.send c t) times) a [])
          (append_assoc all (t ∷ []) times)
          (send_all-Shown times (all ++ t ∷ []) (watch.send c t) (Shown-send t h))

    greeted :
        (c : C) (all : List ℕ) (r : Socket × Bool)
        → Shown c all []
        → Wrote (stream []) r
        → Delivers all (
            let v : Viewing C = record { time = c; socket = r.0 } in
            if r.1 then viewing v else failed write_failed v)
    greeted c all (socket, true) h wrote = ([], wrote, h)
    greeted c all (socket, false) h (rest, wrote) = ([], rest, wrote, Shown-Subsequence h)

    greet-Delivers :
        (c : C) (all : List ℕ) (socket : Socket)
        → socket.sent ≡ []
        → Shown c all []
        → Delivers all (greet watch c socket)
    unfolding greet
    greet-Delivers c all socket fresh h =
        let parts = greeting ∷ (0 ∷ []) ∷ [] in
        greeted c all (write_alls socket parts) h (
          subst (λ b. Wrote b (write_alls socket parts))
            (ap (λ b. b ++ concat parts) fresh ∙ sym (append-nil (concat parts)))
            (write_alls-Wrote socket parts))

-- A connection comes from `accept`.
connect_viewer-accept :
    (host : ViewerHost) (socket : Socket)
    → connect_viewer host ≡ ok socket
    → host.accept ≡ ok socket
unfolding connect_viewer
connect_viewer-accept host socket e = ground arith

-- While the task runs, the viewer has been sent the greeting and then, whole and in order, the messages
-- of some of the times that were sent to the channel: the latest time sent so far is the last of them,
-- or it waits in the channel and those shown are from before it. Where the task has finished, the same
-- holds of the times sent up to some point. Where it has failed, the viewer was sent the greeting and
-- the messages of some of the times in order, of which the end may be missing. Where it has not
-- started, it is with the error of connecting the viewer. It holds for any turns of the task, of the
-- senders and of the viewer, with a channel as tokio documents it and a connection that begins with
-- nothing sent.
pub main_waves-Delivers :
    {C : Type 0} (watch : Watch C) (value : C → ℕ) (host : ViewerHost) (early : List ℕ)
    (turns : List WavesTurn)
    → IsWatch watch value
    → ((socket : Socket) → host.accept ≡ ok socket → socket.sent ≡ [])
    → Delivers watch value
        (connect_viewer host)
        (early ++ sent_times turns)
        (main_waves watch host early turns)
unfolding main_waves
main_waves-Delivers watch value host early turns laws fresh =
    go (connect_viewer host) (λ socket e. fresh socket (connect_viewer-accept host socket e))
  where
    go :
        (r : Result WavesError Socket)
        → ((socket : Socket) → r ≡ ok socket → socket.sent ≡ [])
        → Delivers watch value r (early ++ sent_times turns) (elim r [
          | err e ↦ not_started e
          | ok socket ↦
              waves_turns watch turns (greet watch (send_all watch (watch.channel 0) early) socket)
        ])
    go (err e) new = refl
    go (ok socket) new = waves_turns-Delivers watch value (ok socket) laws turns early _ (
        greet-Delivers watch value (ok socket) laws (send_all watch (watch.channel 0) early) early
          socket (new socket refl)
          (send_all-Shown watch value (ok socket) laws early [] (watch.channel 0)
            (up_to_date (laws.channel_changed 0) empty refl)))
