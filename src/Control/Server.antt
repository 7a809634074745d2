-- ===== src/Control/Server.antt =====
-- src/iperf_server_api.c: `iperf_accept` (the control connection), `iperf_handle_message_server`, and the
-- part of `iperf_run_server` that starts a test when its streams are there.
use iperf.Base.{
  ℕ, ◌+◌, ◌*◌, ◌%◌, ◌<◌, ◌≤◌, ◌≡◌, refl, Bool, true, false, Option, none, some, List, [], ◌∷◌,
  if◌then◌else◌, ltb, leb, ◌==◌, ◌&&◌, ◌||◌, not, u64, arith,
}
use iperf.State.{
  State, unset, test_start, test_running, result_request, test_end, stream_begin, stream_running,
  stream_end, all_streams_end, param_exchange, create_streams, server_terminate, client_terminate,
  exchange_results, display_results, iperf_start, iperf_done, access_denied, server_error, other,
  of_byte,
}
use iperf.Test.{Mode, sender, receiver, bidirectional_mode}
use iperf.Control.{
  Control, Incoming, message, closed, read_error, Op, Act, Calls, iectrlclose, iemessage,
  ierecvmessage, ieclientterm, ieaccept, iesetnodelay, iesetusertimeout, ierecvcookie, ietotalrate,
  ieaffinity, ◌then_do◌, act, world, set_state, fail_with, is_quic, skip, set_send_state,
  show_terminated,
}
pub mod Accepting
pub mod Ending
pub mod Waiting
pub mod Streams
pub mod Counting
pub mod Assigning
pub mod Directions
pub mod Cleanup

-- What `iperf_accept` does with a socket; each call may fail.
pub record Sockets (W : Type 0) : Type 0 where
  pub accept : W → Option ℕ × W
  pub set_nodelay : ℕ → W → Bool × W
  pub set_user_timeout : ℕ → W → Bool × W
  pub set_keepalive : Op W
  pub read_cookie : ℕ → W → Bool × W
  pub set_affinity : ℕ → W → Bool × W
  pub send_denied : ℕ → W → W
  pub close : ℕ → W → W

-- What the server was started with, and the rate that the client asked for; `num_streams` is the C `int`
-- as the product converts it, to 64 bits.
pub record Limits : Type 0 where
  pub snd_timeout : ℕ
  pub server_affinity : Option ℕ
  pub num_streams : ℕ
  pub rate : ℕ
  pub bitrate_limit : ℕ

module _ {W : Type 0} (calls : Calls W) where
  module _ (sockets : Sockets W) (limits : Limits) where
    -- A call on the world whose failure is an error of this number.
    abbrev or_error : ℕ → (W → Bool × W) → Op W
    or_error e f (c, w) =
        let (ok, w') = f w in
        if ok then (true, (c, w')) else (false, (record c { i_errno = e }, w'))

    abbrev timeout_if_set : ℕ → Op W
    timeout_if_set s cw =
        if limits.snd_timeout == 0
        then (true, cw)
        else or_error iesetusertimeout (sockets.set_user_timeout s) cw

    abbrev affinity_if_set : Op W
    affinity_if_set cw = elim limits.server_affinity [
      | none ↦ (true, cw)
      | some cpu ↦ or_error ieaffinity (sockets.set_affinity cpu) cw
    ]

    abbrev close_on_failure : ℕ → Op W → Op W
    close_on_failure s f cw =
        let (ok, (c, w)) = f cw in if ok then (true, (c, w)) else (false, (c, sockets.close s w))

    -- A free server takes the client: the socket is set up, the cookie read and the parameters exchanged.
    -- A failure closes the socket, but one of `iperf_set_control_keepalive` does not.
    pub take_client : ℕ → Op W
    unfolding set_send_state
    take_client s =
        close_on_failure s (or_error iesetnodelay (sockets.set_nodelay s) then_do timeout_if_set s)
        then_do sockets.set_keepalive
        then_do close_on_failure s (
            or_error ierecvcookie (sockets.read_cookie s)
            then_do set_send_state calls param_exchange
            then_do calls.exchange_parameters
            then_do affinity_if_set
            then_do act calls.on_connect)

    pub accept_on : ℕ → Option ℕ → Op W
    unfolding take_client
    accept_on s none (c, w) = take_client s (record c { ctrl_sck = some s }, w)
    accept_on s (some _) (c, w) = (true, (c, sockets.close s (sockets.send_denied s w)))

    unfoldable pub iperf_accept : Op W
    unfolding accept_on
    iperf_accept (c, w) =
        let (answer, w') = sockets.accept w in
        elim answer [
          | none ↦ (false, (record c { i_errno = ieaccept }, w'))
          | some s ↦ accept_on s c.ctrl_sck (c, w')
        ]

    -- `num_streams * rate * (2 or 1)` in 64 bits.
    pub total_requested_rate : Mode → ℕ
    total_requested_rate bidirectional_mode = u64 (limits.num_streams * limits.rate * 2)
    total_requested_rate _ = u64 (limits.num_streams * limits.rate)

    pub exceeds_total_rate : Mode → Bool
    unfolding total_requested_rate
    exceeds_total_rate m =
        ltb 0 limits.bitrate_limit && ltb limits.bitrate_limit (total_requested_rate m)

    pub sender_timers : Mode → Op W
    sender_timers receiver cw = (true, cw)
    sender_timers _ cw = calls.create_send_timers cw

    -- From the last accepted stream to TEST_RUNNING; `cleanup` is `cleanup_server`.
    unfoldable pub begin_test : Act W → Op W
    unfolding exceeds_total_rate sender_timers set_send_state
    begin_test cleanup (c, w) =
        if exceeds_total_rate c.mode
        then (let (c', w') = cleanup (c, w) in (false, (record c' { i_errno = ietotalrate }, w')))
        else let (ok, cw) =
            (world calls.cpu_util
                then_do set_send_state calls test_start
                then_do calls.init_test
                then_do calls.create_timers
                then_do calls.create_omit_timer
                then_do (λ s. sender_timers s.0.mode s)
                then_do set_send_state calls test_running)
              (c, w) in
          if ok then (true, cw) else (false, cleanup cw)

  -- Over QUIC the streams stay open, and a failure of the control connection is passed over.
  abbrev close_unless_quic : Op W
  close_unless_quic (c, w) =
      if is_quic c then (true, (c, w)) else (true, (c, calls.close_streams w))

  abbrev failed_unless_quic : Op W → Op W
  failed_unless_quic f cw = let (ok, cw') = f cw in (ok || is_quic (cw'.0), cw')

  abbrev mark_done : Op W
  mark_done (c, w) = (true, (record c { done = true }, w))

  abbrev print_summary : Op W
  print_summary (c, w) = (true, calls.print_results (record c { summary_printed = true }, w))

  abbrev done_if_one_off : Op W
  done_if_one_off (c, w) =
      if is_quic c && c.one_off then set_state iperf_done (c, w) else (true, (c, w))

  -- The case TEST_END.
  pub end_test : Op W
  unfolding set_send_state
  end_test =
      mark_done
      then_do world calls.cpu_util
      then_do act calls.stats_callback
      then_do close_unless_quic
      then_do failed_unless_quic
          (set_send_state calls exchange_results then_do calls.exchange_results)
      then_do print_summary
      then_do failed_unless_quic (set_send_state calls display_results)
      then_do act calls.on_test_finish
      then_do done_if_one_off

  abbrev set_errno : ℕ → Op W
  set_errno e (c, w) = (true, (record c { i_errno = e }, w))

  -- The `switch` on the state that was read.
  pub dispatch_server : State → Op W
  unfolding end_test show_terminated
  dispatch_server test_start cw = skip cw
  dispatch_server test_end cw = end_test cw
  dispatch_server iperf_done cw = skip cw
  dispatch_server client_terminate cw =
      (set_errno ieclientterm
          then_do show_terminated calls client_terminate
          then_do close_unless_quic
          then_do set_state iperf_done)
        cw
  dispatch_server _ cw = fail_with iemessage cw

  -- A client that closed the connection ends the test, without an error.
  unfoldable pub handle_message_server : Incoming → Op W
  unfolding dispatch_server
  handle_message_server closed (c, w) =
      (true, (record c { i_errno = iectrlclose; state = iperf_done }, w))
  handle_message_server read_error cw = fail_with ierecvmessage cw
  handle_message_server (message b) (c, w) =
      dispatch_server (of_byte b) (record c { state = of_byte b }, w)
