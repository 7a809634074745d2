-- ===== src/Control/Server/Cleanup.antt =====
-- src/iperf_server_api.c: `cleanup_server`, at the end of a test of the server, whatever ended it.
use iperf.Base.{
  ℕ, zero, suc, ◌+◌, ◌-◌, ◌<◌, ◌≡◌, refl, sym, ap, ◌∙◌, Bool, true, false, not, ◌&&◌, ◌||◌, Option,
  none, some, List, [], ◌∷◌, ◌++◌, map, if◌then◌else◌, ltb, ◌==◌, arith, Bool-cases,
}
use iperf.Sockets.{remove}
pub mod Closing

-- What pthread_cancel and pthread_join return: 0, ESRCH and any other error.
pub data Threaded : Type 0 where
  stopped no_such_thread thread_error : Threaded

-- A stream and its thread; a socket of -1 is none.
pub record StreamThread : Type 0 where
  pub done : Bool
  pub thread_created : Bool
  pub socket : Option ℕ

pub data CleanupError : Type 0 where
  iepthreadcancel iepthreadjoin : CleanupError

-- The fields of the test that the function looks at. `printed` counts the summaries, and `reported` the errors of
-- threads, which are printed only.
pub record ServerTest : Type 0 where
  pub streams : List StreamThread
  pub ctrl_sck : Option ℕ
  pub listener : Option ℕ
  pub prot_listener : Option ℕ
  pub stats_timer : Option ℕ
  pub reporter_timer : Option ℕ
  pub omit_timer : Option ℕ
  pub timer : Option ℕ
  pub congestion_used : Bool
  pub summary_printed : Bool
  pub bytes_received : ℕ
  pub bytes_sent : ℕ
  pub blocks_received : ℕ
  pub blocks_sent : ℕ
  pub printed : ℕ
  pub reported : List CleanupError

-- What the process has: its open sockets and its timers.
pub record Held : Type 0 where
  pub open_sockets : List ℕ
  pub timers : List ℕ

abbrev report_of : CleanupError → Threaded → List CleanupError
report_of e thread_error = e ∷ []
report_of e _ = []

-- The result of the cancel and of the join for each stream that has a thread.
abbrev pub Joins : Type 0
Joins = List (Threaded × Threaded)

abbrev stop_thread : Threaded × Threaded → List CleanupError
stop_thread (cancelled, joined) =
    report_of iepthreadcancel cancelled ++ report_of iepthreadjoin joined

-- Where the answers end, threads stop without an error.
abbrev next_join : Joins → (Threaded × Threaded) × Joins
next_join [] = ((stopped, stopped), [])
next_join (j ∷ rest) = (j, rest)

unfoldable pub cancel_threads : Joins → List StreamThread → List StreamThread × List CleanupError
cancel_threads joins [] = ([], [])
cancel_threads joins (sp ∷ rest) =
    let (j, later) = next_join joins in
    let (others, errors) = cancel_threads (if sp.thread_created then later else joins) rest in
    (
      record sp { done = true; thread_created = false } ∷ others,
      if sp.thread_created then stop_thread j ++ errors else errors,
    )

abbrev has_traffic : ServerTest → Bool
has_traffic t =
    ltb 0 t.bytes_received || ltb 0 t.bytes_sent || ltb 0 t.blocks_received || ltb 0 t.blocks_sent

unfoldable pub print_missing_summary : ServerTest → ServerTest
print_missing_summary t =
    if not t.summary_printed && has_traffic t
    then record t { summary_printed = true; printed = t.printed + 1 }
    else t

-- `close` on a descriptor, unless it is -1.
abbrev close_fd : Option ℕ → Held → Held
close_fd none h = h
close_fd (some s) h = record h { open_sockets = remove s h.open_sockets }

abbrev cancel_timer : Option ℕ → Held → Held
cancel_timer none h = h
cancel_timer (some id) h = record h { timers = remove id h.timers }

unfoldable pub close_stream_sockets : List StreamThread → Held → Held
close_stream_sockets [] h = h
close_stream_sockets (sp ∷ rest) h = close_stream_sockets rest (close_fd sp.socket h)

abbrev without_socket : StreamThread → StreamThread
without_socket sp = record sp { socket = none }

-- The sockets of the test; those of QUIC streams and its second listener are the QUIC library's.
unfoldable pub close_sockets : Bool → ServerTest × Held → ServerTest × Held
unfolding close_stream_sockets
close_sockets is_quic (t, h) =
    if is_quic
    then (
      record t { ctrl_sck = none; listener = none },
      close_fd t.listener (close_fd t.ctrl_sck h),
    )
    else (
      record t {
        streams = map without_socket t.streams;
        ctrl_sck = none;
        listener = none;
        prot_listener = none;
      },
      close_fd t.prot_listener
          (close_fd t.listener (close_fd t.ctrl_sck (close_stream_sockets t.streams h))),
    )

unfoldable pub cancel_timers : ServerTest × Held → ServerTest × Held
cancel_timers (t, h) = (
  record t {
    stats_timer = none;
    reporter_timer = none;
    omit_timer = none;
    timer = none;
    congestion_used = false;
  },
  cancel_timer t.timer
      (cancel_timer t.omit_timer (cancel_timer t.reporter_timer (cancel_timer t.stats_timer h))),
)

abbrev cancelled_test : Joins → ServerTest → ServerTest
cancelled_test joins t =
    let (streams, errors) = cancel_threads joins t.streams in
    record t { streams = streams; reported = t.reported ++ errors }

-- `reset_quic` is iperf_quic_reset_test.
unfoldable pub cleanup_server :
    Bool → Joins → (ServerTest → ServerTest) → ServerTest × Held → ServerTest × Held
unfolding cancel_threads print_missing_summary close_sockets cancel_timers
cleanup_server is_quic joins reset_quic (t, h) =
    let (t', h') = close_sockets is_quic (print_missing_summary (cancelled_test joins t), h) in
    cancel_timers (if is_quic then reset_quic t' else t', h')
