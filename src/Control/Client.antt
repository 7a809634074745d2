-- ===== src/Control/Client.antt =====
-- src/iperf_client_api.c: `iperf_handle_message_client`, `iperf_client_end`, and how the loop of
-- `iperf_run_client` ends a test.
use iperf.Base.{
  ℕ, ◌+◌, ◌<◌, ◌≤◌, ◌≡◌, refl, Bool, true, false, Option, none, some, List, [], ◌∷◌, if◌then◌else◌,
  ltb, leb, ◌==◌, ◌&&◌, ◌||◌, not, ◌⊎◌, inl, inr, arith,
}
use iperf.State.{
  State, unset, test_start, test_running, result_request, test_end, stream_begin, stream_running,
  stream_end, all_streams_end, param_exchange, create_streams, server_terminate, client_terminate,
  exchange_results, display_results, iperf_start, iperf_done, access_denied, server_error, other,
  of_byte, is_positive_state,
}
use iperf.Test.{Mode, sender, receiver, bidirectional_mode}
use iperf.Control.{
  Control, Incoming, message, closed, read_error, Op, Act, Calls, iectrlread, iectrlclose,
  iemessage, ierecvmessage, ieserverterm, ieaccessdenied, ◌then_do◌, act, world, set_state,
  fail_with, is_quic, skip, set_send_state, show_terminated,
}
pub mod Handling

module _ {W : Type 0} (calls : Calls W) where
  -- The field `ctrl_sck` keeps its number when the socket is closed.
  unfoldable pub client_end : Op W
  unfolding set_send_state
  client_end s =
      (close_all then_do act calls.reporter_callback then_do send_done then_do close_ctrl) s
    where
      close_all : Op W
      close_all (c, w) =
          if is_quic c then world calls.quic_reset (c, w) else world calls.close_streams (c, w)

      send_done : Op W
      send_done (c, w) =
          if is_positive_state c.state
          then set_send_state calls iperf_done (c, w)
          else (true, (c, w))

      close_ctrl : Op W
      close_ctrl (c, w) = elim c.ctrl_sck [
        | none ↦ (true, (c, w))
        | some _ ↦ world calls.close_control (c, w)
      ]

  -- The streams of a mode; `test->mode` is 1 for a sender and 0 for a receiver.
  pub create_mode_streams : Mode → Op W
  create_mode_streams bidirectional_mode s =
      (calls.create_streams true then_do calls.create_streams false) s
  create_mode_streams sender s = calls.create_streams true s
  create_mode_streams receiver s = calls.create_streams false s

  pub send_timers : Mode → Op W
  send_timers receiver s = (true, s)
  send_timers _ s = calls.create_send_timers s

  -- SERVER_ERROR is followed by the server's `i_errno` and `errno`.
  pub read_server_error : Op W
  read_server_error (c, w) =
      let (first, w') = calls.read_int w in
      elim first [
        | none ↦ (false, (record c { i_errno = iectrlread }, w'))
        | some e ↦
            let (second, w'') = calls.read_int w' in
            (false, (record c { i_errno = (elim second [ none ↦ iectrlread | some _ ↦ e ]) }, w''))
      ]

  -- The `switch` on the state that was read.
  pub dispatch_client : State → Op W
  unfolding client_end create_mode_streams send_timers show_terminated read_server_error
  dispatch_client param_exchange = calls.exchange_parameters then_do act calls.on_connect
  dispatch_client create_streams = λ s. create_mode_streams s.0.mode s
  dispatch_client test_start =
      calls.init_test then_do calls.create_timers then_do calls.create_omit_timer then_do λ s.
      send_timers s.0.mode s
  dispatch_client test_running = skip
  dispatch_client exchange_results = calls.exchange_results
  dispatch_client display_results = act calls.on_test_finish then_do λ s. (true, (client_end s).1)
  dispatch_client iperf_done = skip
  dispatch_client server_terminate = λ s.
      (show_terminated calls server_terminate then_do λ t. (false, t))
        (record (s.0) { i_errno = ieserverterm }, s.1)
  dispatch_client access_denied = fail_with ieaccessdenied
  dispatch_client server_error = read_server_error
  dispatch_client _ = fail_with iemessage

  unfoldable pub handle_message_client : Incoming → Op W
  unfolding dispatch_client
  handle_message_client closed s = fail_with iectrlclose s
  handle_message_client read_error s = fail_with ierecvmessage s
  handle_message_client (message b) (c, w) =
      dispatch_client (of_byte b) (record c { state = of_byte b }, w)

  -- Out of the omitted time, and by time, bytes or blocks in either direction.
  unfoldable pub is_finished : Control → Bool
  is_finished c =
      not c.omitting
      && (c.done
          || (ltb 0 c.bytes && (leb c.bytes c.bytes_sent || leb c.bytes c.bytes_received))
          || (ltb 0 c.blocks && (leb c.blocks c.blocks_sent || leb c.blocks c.blocks_received)))

  abbrev set_done : Op W
  set_done (c, w) = (true, (record c { done = true }, w))

  -- The end of the loop's body while the test runs.
  unfoldable pub end_if_finished : Op W
  unfolding is_finished set_send_state
  end_if_finished (c, w) =
      if is_finished c
      then (calls.cancel_senders
            then_do set_done
            then_do world calls.cpu_util
            then_do act calls.stats_callback
            then_do set_send_state calls test_end)
          (c, w)
      else (true, (c, w))
