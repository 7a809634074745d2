-- ===== src/Control/Client/Handling.antt =====
-- src/iperf_client_api.c: the order of the calls by which the client answers a message or ends a test,
-- and the errors that the server reports to it.
use iperf.Base.{
  ℕ, ◌≡◌, ◌≢◌, Bool, true, false, some, List, [], ◌∷◌, if◌then◌else◌, not, ◌||◌, arith,
}
use iperf.State.{test_end, iperf_done, server_error, of_byte, is_positive_state}
use iperf.Test.{Mode, sender, receiver, bidirectional_mode}
use iperf.Control.{Control, Calls, message, iemessage, is_quic}
use iperf.Control.Trace.{
  Event, ran, tried, Attempt, send, cpu_util, close_streams, quic_reset, close_control,
  on_test_finish, stats_callback, reporter_callback, init_test, create_timers, create_omit_timer,
  create_send_timers, create_sending_streams, create_receiving_streams, cancel_senders, tracing,
  until, passes,
}
use iperf.Control.Client.{handle_message_client, end_if_finished, is_finished}

-- The streams of a mode; a bidirectional test makes those that send first.
abbrev pub stream_sequence : Mode → List Event
stream_sequence sender = tried create_sending_streams ∷ []
stream_sequence receiver = tried create_receiving_streams ∷ []
stream_sequence bidirectional_mode =
    tried create_sending_streams ∷ tried create_receiving_streams ∷ []

-- The start of a test; only a client that sends has send timers.
abbrev pub start_sequence : Mode → List Event
start_sequence receiver = tried init_test ∷ tried create_timers ∷ tried create_omit_timer ∷ []
start_sequence _ =
    tried init_test ∷ tried create_timers ∷ tried create_omit_timer ∷ tried create_send_timers ∷ []

-- The calls that end a finished test.
abbrev pub finish_sequence : List Event
finish_sequence =
    tried cancel_senders ∷ ran cpu_util ∷ ran stats_callback ∷ tried (send test_end) ∷ []

-- The calls that answer DISPLAY_RESULTS.
abbrev pub display_sequence : Bool → List Event
display_sequence true =
    ran on_test_finish
    ∷ ran quic_reset
    ∷ ran reporter_callback
    ∷ tried (send iperf_done)
    ∷ ran close_control
    ∷ []
display_sequence false =
    ran on_test_finish
    ∷ ran close_streams
    ∷ ran reporter_callback
    ∷ tried (send iperf_done)
    ∷ ran close_control
    ∷ []

-- On CREATE_STREAMS the client makes the streams of its mode, up to the first failure, and succeeds
-- exactly if nothing fails.
pub create_streams_order :
    (fails : Attempt → Bool) (c : Control)
    → ((handle_message_client (tracing fails) (message 10) (c, [])).1.1
        ≡ until fails (stream_sequence c.mode))
      × ((handle_message_client (tracing fails) (message 10) (c, [])).0
          ≡ passes fails (stream_sequence c.mode))
unfolding handle_message_client of_byte until passes
create_streams_order fails c = ground arith

-- On TEST_START the client runs the start sequence of its mode up to the first failure, whatever fails, and
-- succeeds exactly if nothing fails.
pub test_start_order :
    (fails : Attempt → Bool) (c : Control)
    → ((handle_message_client (tracing fails) (message 1) (c, [])).1.1
        ≡ until fails (start_sequence c.mode))
      × ((handle_message_client (tracing fails) (message 1) (c, [])).0
          ≡ passes fails (start_sequence c.mode))
unfolding handle_message_client of_byte until passes
test_start_order fails c = ground arith

-- With a control connection, the end of the loop's body runs the finish sequence, up to its first failure,
-- exactly if the test is finished, and then succeeds exactly if nothing fails; otherwise it calls nothing.
pub end_if_finished_order :
    (fails : Attempt → Bool) (c : Control) (s : ℕ)
    → c.ctrl_sck ≡ some s
    → ((end_if_finished (tracing fails) (c, [])).1.1
        ≡ (if is_finished (tracing fails) c then until fails finish_sequence else []))
      × ((end_if_finished (tracing fails) (c, [])).0
          ≡ (not (is_finished (tracing fails) c) || passes fails finish_sequence))
unfolding end_if_finished until passes
end_if_finished_order fails c s k = ground arith

-- On DISPLAY_RESULTS, with a control connection, the client shows the results, sends IPERF_DONE, and closes
-- the connection if that was sent; its handler succeeds and ends in IPERF_DONE whatever fails.
pub display_results_order :
    (fails : Attempt → Bool) (c : Control) (s : ℕ)
    → c.ctrl_sck ≡ some s
    → ((handle_message_client (tracing fails) (message 14) (c, [])).1.1
        ≡ until fails (display_sequence (is_quic c)))
      × ((handle_message_client (tracing fails) (message 14) (c, [])).0 ≡ true)
      × ((handle_message_client (tracing fails) (message 14) (c, [])).1.0.state ≡ iperf_done)
unfolding handle_message_client of_byte until is_positive_state
display_results_order fails c s k = ground arith

-- On SERVER_ERROR the client fails with the first of the two numbers that the server sends as `i_errno`,
-- having read both.
pub handle_message_client_server_error :
    {W : Type 0} (calls : Calls W) (c : Control) (w : W) (e n : ℕ)
    → (calls.read_int w).0 ≡ some e
    → (calls.read_int ((calls.read_int w).1)).0 ≡ some n
    → handle_message_client calls (message 254) (c, w) ≡ (
      false,
      (record c { state = server_error; i_errno = e }, (calls.read_int ((calls.read_int w).1)).1),
    )
unfolding handle_message_client of_byte
handle_message_client_server_error calls c w e n read_e read_n = ground arith

-- A byte other than those of the ten states that a server announces makes the client's handler fail with
-- IEMESSAGE; the byte becomes the state, and nothing else changes or is called.
pub handle_message_client_unknown :
    {W : Type 0} (calls : Calls W) (b : ℕ) (c : Control) (w : W)
    → b ≢ 1
    → b ≢ 2
    → b ≢ 9
    → b ≢ 10
    → b ≢ 11
    → b ≢ 13
    → b ≢ 14
    → b ≢ 16
    → b ≢ 254
    → b ≢ 255
    → handle_message_client calls (message b) (c, w)
      ≡ (false, (record c { state = of_byte b; i_errno = iemessage }, w))
unfolding handle_message_client of_byte
handle_message_client_unknown calls b c w n1 n2 n9 n10 n11 n13 n14 n16 n254 n255 = ground arith
