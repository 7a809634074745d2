-- ===== src/Tests/Accepts.antt =====
-- The main loop of src/iperf_server_api.c: a bidirectional test of one stream each way, and a server that
-- waits.
use iperf.Base.{arith, ℕ, ◌≡◌, true, false, some, [], ◌∷◌}
use iperf.State.{test_running}
use iperf.Test.{bidirectional_mode, tcp}
use iperf.Time.{IperfTime}
use iperf.Control.{Control}
use iperf.Control.Server.Streams.{all_accepted}
use iperf.Control.Server.Counting.{holding}
use iperf.Control.Server.Assigning.{accept_streams}
use iperf.Control.Server.Directions.{fresh, accept_streams-directions}
use iperf.Control.Server.Waiting.{Timeouts}

abbrev creating : Control
creating = record {
  state = test_running;
  done = false;
  omitting = false;
  ctrl_sck = some 5;
  i_errno = 0;
  mode = bidirectional_mode;
  protocol = tcp;
  one_off = false;
  summary_printed = false;
  bytes = 0;
  blocks = 0;
  bytes_sent = 0;
  blocks_sent = 0;
  bytes_received = 0;
  blocks_received = 0;
}

-- Two connections for two streams.
accept_streams-directions_example :
    let (ok, (a', (c', q'))) =
      accept_streams 0 true 2 (fresh bidirectional_mode 1, (creating, holding (7 ∷ 8 ∷ []) [])) in
    (ok ≡ true) × (q'.made ≡ (7, false) ∷ (8, true) ∷ []) × (all_accepted a' ≡ true)
accept_streams-directions_example =
    accept_streams-directions 0 true bidirectional_mode 1 creating (7 ∷ 8 ∷ []) (omega arith)
      (omega arith)

abbrev timeouts : Timeouts
timeouts = record { idle_timeout = 30; rcv_timeout = record { secs = 2; usecs = 0 } }

abbrev at_second : ℕ → IperfTime
at_second s = record { secs = s; usecs = 0 }

abbrev blocks : ℕ
blocks = 3
