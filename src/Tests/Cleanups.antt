-- ===== src/Tests/Cleanups.antt =====
-- The end of a test, `cleanup_server` of src/iperf_server_api.c.
use iperf.Base.{◌-◌, ◌≡◌, true, false, none, some, [], ◌∷◌}
use iperf.Control.Server.Cleanup.{
  StreamThread, ServerTest, Held, cleanup_server, stopped, thread_error,
}
use iperf.Control.Server.Cleanup.Closing.{times, cleanup_server_lem}

abbrev stream : StreamThread
stream = record { done = false; thread_created = true; socket = some 6 }

abbrev running : ServerTest
running = record {
  streams = stream ∷ [];
  ctrl_sck = some 5;
  listener = some 3;
  prot_listener = none;
  stats_timer = some 1;
  reporter_timer = some 2;
  omit_timer = none;
  timer = none;
  congestion_used = true;
  summary_printed = false;
  bytes_received = 0;
  bytes_sent = 1460;
  blocks_received = 0;
  blocks_sent = 1;
  printed = 0;
  reported = [];
}

abbrev held : Held
held = record { open_sockets = 3 ∷ 4 ∷ 5 ∷ 6 ∷ []; timers = 1 ∷ 2 ∷ 3 ∷ [] }

cleanup_server_lem_example :
    let (t', h') = cleanup_server false ((stopped, thread_error) ∷ []) (λ t. t) (running, held) in
    (times 5 h'.open_sockets ≡ 1 - 1) × (times 5 h'.timers ≡ 0 - 0)
cleanup_server_lem_example =
    cleanup_server_lem ((stopped, thread_error) ∷ []) (λ t. t) running held 5
