-- ===== src/Control/Server/Cleanup/Closing.antt =====
-- src/iperf_server_api.c: what `cleanup_server` closes.
use iperf.Base.{
  ℕ, ◌+◌, ◌-◌, ◌≡◌, refl, ap, ◌∙◌, false, Option, none, some, List, [], ◌∷◌, if◌then◌else◌, ◌==◌,
  arith,
}
use iperf.Sockets.{remove}
use iperf.Control.Server.Cleanup.{
  StreamThread, ServerTest, Held, Joins, cancel_threads, print_missing_summary, close_fd,
  cancel_timer, close_stream_sockets, close_sockets, cancel_timers, cancelled_test, next_join,
  cleanup_server,
}

abbrev pub times : ℕ → List ℕ → ℕ
times x [] = 0
times x (y ∷ ys) = (if x == y then 1 else 0) + times x ys

abbrev pub times_in : ℕ → Option ℕ → ℕ
times_in x none = 0
times_in x (some y) = if x == y then 1 else 0

abbrev pub times_in_streams : ℕ → List StreamThread → ℕ
times_in_streams x [] = 0
times_in_streams x (sp ∷ rest) = times_in x sp.socket + times_in_streams x rest

times-remove : (x s : ℕ) (l : List ℕ) → times x (remove s l) ≡ times x l - times_in x (some s)
times-remove x s [] = ground arith
times-remove x s (y ∷ ys) = ground (arith, times-remove x s ys)

times-close_fd :
    (x : ℕ) (o : Option ℕ) (h : Held)
    → times x (close_fd o h).open_sockets ≡ times x h.open_sockets - times_in x o
times-close_fd x none h = omega arith
times-close_fd x (some s) h = times-remove x s h.open_sockets

times-cancel_timer :
    (x : ℕ) (o : Option ℕ) (h : Held)
    → times x (cancel_timer o h).timers ≡ times x h.timers - times_in x o
times-cancel_timer x none h = omega arith
times-cancel_timer x (some s) h = times-remove x s h.timers

keeps-close_fd : (o : Option ℕ) (h : Held) → (close_fd o h).timers ≡ h.timers
keeps-close_fd none h = refl
keeps-close_fd (some s) h = refl

keeps-cancel_timer : (o : Option ℕ) (h : Held) → (cancel_timer o h).open_sockets ≡ h.open_sockets
keeps-cancel_timer none h = refl
keeps-cancel_timer (some s) h = refl

times-close_stream_sockets :
    (x : ℕ) (l : List StreamThread) (h : Held)
    → (times x (close_stream_sockets l h).open_sockets
        ≡ times x h.open_sockets - times_in_streams x l)
      × ((close_stream_sockets l h).timers ≡ h.timers)
unfolding close_stream_sockets
times-close_stream_sockets x [] h = (omega arith, refl)
times-close_stream_sockets x (sp ∷ rest) h =
    let (c, k) = times-close_stream_sockets x rest (close_fd sp.socket h) in
    (c ∙ omega (arith, times-close_fd x sp.socket h), k ∙ keeps-close_fd sp.socket h)

-- The cancel of the threads leaves the sockets alone.
times-cancel_threads :
    (x : ℕ) (joins : Joins) (l : List StreamThread)
    → times_in_streams x (cancel_threads joins l).0 ≡ times_in_streams x l
unfolding cancel_threads
times-cancel_threads x joins [] = refl
times-cancel_threads x joins (sp ∷ rest) =
    ap (λ z. times_in x sp.socket + z)
      (times-cancel_threads x (if sp.thread_created then (next_join joins).1 else joins) rest)

-- What the test has, and what it has of timers.
abbrev pub owned : ℕ → ServerTest → ℕ
owned x t =
    times_in_streams x t.streams
    + times_in x t.ctrl_sck
    + times_in x t.listener
    + times_in x t.prot_listener

abbrev pub owned_timers : ℕ → ServerTest → ℕ
owned_timers x t =
    times_in x t.stats_timer
    + times_in x t.reporter_timer
    + times_in x t.omit_timer
    + times_in x t.timer

times-close_sockets :
    (x : ℕ) (t : ServerTest) (h : Held)
    → (times x (close_sockets false (t, h)).1.open_sockets ≡ times x h.open_sockets - owned x t)
      × ((close_sockets false (t, h)).1.timers ≡ h.timers)
unfolding close_sockets
times-close_sockets x t h =
    let h1 = close_stream_sockets t.streams h in
    let h2 = close_fd t.ctrl_sck h1 in
    let h3 = close_fd t.listener h2 in
    let (c, k) = times-close_stream_sockets x t.streams h in
    (
      omega (
        arith,
        c,
        times-close_fd x t.ctrl_sck h1,
        times-close_fd x t.listener h2,
        times-close_fd x t.prot_listener h3,
      ),
      keeps-close_fd t.prot_listener h3
          ∙ keeps-close_fd t.listener h2
          ∙ keeps-close_fd t.ctrl_sck h1
          ∙ k,
    )

times-cancel_timers :
    (x : ℕ) (t : ServerTest) (h : Held)
    → (times x (cancel_timers (t, h)).1.timers ≡ times x h.timers - owned_timers x t)
      × ((cancel_timers (t, h)).1.open_sockets ≡ h.open_sockets)
unfolding cancel_timers
times-cancel_timers x t h =
    let h1 = cancel_timer t.stats_timer h in
    let h2 = cancel_timer t.reporter_timer h1 in
    let h3 = cancel_timer t.omit_timer h2 in
    (
      omega (
        arith,
        times-cancel_timer x t.stats_timer h,
        times-cancel_timer x t.reporter_timer h1,
        times-cancel_timer x t.omit_timer h2,
        times-cancel_timer x t.timer h3,
      ),
      keeps-cancel_timer t.timer h3
          ∙ keeps-cancel_timer t.omit_timer h2
          ∙ keeps-cancel_timer t.reporter_timer h1
          ∙ keeps-cancel_timer t.stats_timer h,
    )

-- The summary and the cancel of the threads change nothing that the test has.
prepared :
    (x : ℕ) (joins : Joins) (t : ServerTest)
    → (owned x (print_missing_summary (cancelled_test joins t)) ≡ owned x t)
      × (owned_timers x (print_missing_summary (cancelled_test joins t)) ≡ owned_timers x t)
unfolding print_missing_summary
prepared x joins t = ground (arith, times-cancel_threads x joins t.streams)

timers_left :
    (x : ℕ) (t : ServerTest) (h : Held)
    → owned_timers x (close_sockets false (t, h)).0 ≡ owned_timers x t
unfolding close_sockets
timers_left x t h = refl

-- Without QUIC, cleanup_server closes each socket of the streams, the control connection and the two listeners
-- of the test once and no other, and cancels each of its timers once and no other, whatever becomes of the threads.
pub cleanup_server_lem :
    (joins : Joins) (reset_quic : ServerTest → ServerTest) (t : ServerTest) (h : Held) (x : ℕ)
    → let (t', h') = cleanup_server false joins reset_quic (t, h) in
      (times x h'.open_sockets ≡ times x h.open_sockets - owned x t)
      × (times x h'.timers ≡ times x h.timers - owned_timers x t)
unfolding cleanup_server
cleanup_server_lem joins reset_quic t h x =
    let t1 = print_missing_summary (cancelled_test joins t) in
    let c = close_sockets false (t1, h) in
    let (a, b) = times-close_sockets x t1 h in
    let (d, e) = times-cancel_timers x c.0 c.1 in
    let (o, ot) = prepared x joins t in
    (
      ap (times x) e ∙ a ∙ omega (arith, o),
      d ∙ omega (arith, ap (times x) b, timers_left x t1 h, ot),
    )
