-- ===== src/Tests/Controls.antt =====
-- The handlers of src/iperf_client_api.c and src/iperf_server_api.c on concrete tests and failures.
use iperf.Base.{
  ℕ, ◌*◌, ◌≤◌, ◌∷◌, [], ◌≡◌, ◌≢◌, ◌⊎◌, refl, List, some, none, Bool, true, false, arith,
}
use iperf.State.{test_running}
use iperf.Test.{bidirectional_mode, tcp, quic}
use iperf.Control.{Control, Calls, Act, message, set_send_state}
use iperf.Control.Trace.{Attempt, send, tracing, until, passes}
use iperf.Control.Wire.{wire, working}
use iperf.Control.Server.{Sockets, Limits, begin_test, handle_message_server}
use iperf.Control.Server.Accepting.{begin_test_within_limit}
use iperf.Control.Server.Ending.{end_sequence, end_test_order}

abbrev running : Control
running = record {
  state = test_running;
  done = true;
  omitting = false;
  ctrl_sck = some 5;
  i_errno = 0;
  mode = bidirectional_mode;
  protocol = tcp;
  one_off = true;
  summary_printed = false;
  bytes = 0;
  blocks = 0;
  bytes_sent = 0;
  blocks_sent = 0;
  bytes_received = 0;
  blocks_received = 0;
}

abbrev over_quic : Control
over_quic = record running { protocol = quic }

-- Only the announcement of a state fails.
abbrev sends_fail : Attempt → Bool
sends_fail (send _) = true
sends_fail _ = false

end_test_order_example :
    ((handle_message_server (tracing sends_fail) (message 4) (running, [])).1.1
      ≡ until sends_fail end_sequence)
    × ((handle_message_server (tracing sends_fail) (message 4) (running, [])).0
        ≡ passes sends_fail end_sequence)
end_test_order_example = end_test_order sends_fail running 5 refl refl

-- A server that sends the numbers of the world.
abbrev numbers : Calls (List ℕ)
numbers = wire working

-- Sockets that work.
abbrev open_sockets : Sockets (List ℕ)
open_sockets = record {
  accept = λ w. (some 6, w);
  set_nodelay = λ s w. (true, w);
  set_user_timeout = λ s w. (true, w);
  set_keepalive = λ s. (true, s);
  read_cookie = λ s w. (true, w);
  set_affinity = λ s w. (true, w);
  send_denied = λ s w. s ∷ w;
  close = λ s w. w;
}

abbrev megabit : Limits
megabit = record {
  snd_timeout = 0;
  server_affinity = none;
  num_streams = 4;
  rate = 100000;
  bitrate_limit = 1000000;
}

never_none : (w : List ℕ) → (open_sockets.accept w).0 ≢ none
never_none w h = cc

no_cleanup : Act (List ℕ)
no_cleanup s = s

begin_test_within_limit_example : (megabit.bitrate_limit ≡ 0) ⊎ (4 * 100000 * 2 ≤ 1000000)
unfolding begin_test set_send_state
begin_test_within_limit_example =
    begin_test_within_limit numbers open_sockets megabit no_cleanup running [] (omega arith) refl
