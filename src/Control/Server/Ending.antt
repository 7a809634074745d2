-- ===== src/Control/Server/Ending.antt =====
-- src/iperf_server_api.c: the order of the calls by which the server ends a test, and what happens when
-- one of them fails.
use iperf.Base.{ℕ, ◌≡◌, Bool, true, false, some, List, [], ◌∷◌, if◌then◌else◌, not, ◌≢◌, arith}
use iperf.State.{exchange_results, display_results, iperf_done, of_byte}
use iperf.Control.{Control, Calls, message, iemessage, is_quic}
use iperf.Control.Trace.{
  Event, ran, tried, Attempt, send, cpu_util, close_streams, on_test_finish, stats_callback,
  reporter_callback, print_results, tracing, until, passes,
}
use iperf.Control.Trace
use iperf.Control.Server.{handle_message_server}

-- The end of a test over a protocol other than QUIC.
abbrev pub end_sequence : List Event
end_sequence =
    ran cpu_util
    ∷ ran stats_callback
    ∷ ran close_streams
    ∷ tried (send exchange_results)
    ∷ tried Trace.exchange_results
    ∷ ran print_results
    ∷ tried (send display_results)
    ∷ ran on_test_finish
    ∷ []

-- The same over QUIC, where a failure is passed over, and the exchange is left out when the server could
-- not announce it.
abbrev pub quic_sequence : Bool → List Event
quic_sequence true =
    ran cpu_util
    ∷ ran stats_callback
    ∷ tried (send exchange_results)
    ∷ tried Trace.exchange_results
    ∷ ran print_results
    ∷ tried (send display_results)
    ∷ ran on_test_finish
    ∷ []
quic_sequence false =
    ran cpu_util
    ∷ ran stats_callback
    ∷ tried (send exchange_results)
    ∷ ran print_results
    ∷ tried (send display_results)
    ∷ ran on_test_finish
    ∷ []

-- On TEST_END, over any protocol but QUIC and with a control connection, the server runs the sequence up
-- to its first failure, whatever fails, and succeeds exactly if nothing fails.
pub end_test_order :
    (fails : Attempt → Bool) (c : Control) (s : ℕ)
    → is_quic c ≡ false
    → c.ctrl_sck ≡ some s
    → ((handle_message_server (tracing fails) (message 4) (c, [])).1.1 ≡ until fails end_sequence)
      × ((handle_message_server (tracing fails) (message 4) (c, [])).0 ≡ passes fails end_sequence)
unfolding handle_message_server of_byte until passes
end_test_order fails c s q k = ground arith

-- On TEST_END over QUIC with a control connection, the server succeeds whatever fails, runs the QUIC
-- sequence, and ends in DISPLAY_RESULTS, or in IPERF_DONE if it serves one test only.
pub end_test_quic :
    (fails : Attempt → Bool) (c : Control) (s : ℕ)
    → is_quic c ≡ true
    → c.ctrl_sck ≡ some s
    → ((handle_message_server (tracing fails) (message 4) (c, [])).1.1
        ≡ quic_sequence (not (fails (send exchange_results))))
      × ((handle_message_server (tracing fails) (message 4) (c, [])).0 ≡ true)
      × ((handle_message_server (tracing fails) (message 4) (c, [])).1.0.state
          ≡ (if c.one_off then iperf_done else display_results))
unfolding handle_message_server of_byte
end_test_quic fails c s q k = ground arith

-- A byte other than those of TEST_START, TEST_END, CLIENT_TERMINATE and IPERF_DONE makes the server's
-- handler fail with IEMESSAGE; the byte becomes the state, and nothing else changes or is called.
pub handle_message_server_unknown :
    {W : Type 0} (calls : Calls W) (b : ℕ) (c : Control) (w : W)
    → b ≢ 1
    → b ≢ 4
    → b ≢ 12
    → b ≢ 16
    → handle_message_server calls (message b) (c, w)
      ≡ (false, (record c { state = of_byte b; i_errno = iemessage }, w))
unfolding handle_message_server of_byte
handle_message_server_unknown calls b c w n1 n4 n12 n16 = ground arith
