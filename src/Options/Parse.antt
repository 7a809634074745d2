-- ===== src/Options/Parse.antt =====
-- src/iperf_api.c: the loop of `iperf_parse_arguments` over the options.
use iperf.Base.{
  ℕ, ◌*◌, ◌/◌, ◌%◌, true, ◌&&◌, ◌||◌, not, Option, none, some, List, [], ◌∷◌, inl, inr,
  if◌then◌else◌,
}
use iperf.Base.Int.{ℤ, pos, negsuc, ltb_ℤ, eqb_ℤ, to_int}
use iperf.Test.{client, server, tcp, udp, sctp, quic}
use iperf.Test.Roles.{set_test_role, set_test_reverse, set_test_bidirectional}
use iperf.Test.Params.{try_protocol}
use iperf.Options.{
  Argument, Flag, serve, connect, server_port, client_port, udp_flag, sctp_flag, quic_flag,
  quic_port_flag, mptcp_flag, nstreams, bitrate, time, bytes_flag, blockcount, len, parallel,
  reverse_flag, bidir, window, set_mss, nodelay, set_tos, dscp, extra, flow, zerocopy_flag,
  repeating, omit_flag, file, set_idle_timeout, server_max_duration, set_rcv_timeout,
  set_snd_timeout, set_affinity, set_title, set_congestion, server_output, counters_64bit,
  no_fq_socket_pacing, fq_rate, set_dont_fragment, skip_copy, pacing, set_connect_timeout,
  common_setting, client_setting, server_setting, Features, Parsing, servclient, duration_error,
  numstreams, bufsize, mss_error, nosendfile, omit_error, unimp, burst_error, badtos, reversebidir,
  badport, idletimeout, rcvtimeout, sndtimeout, setflow, affinity_error, setting_error,
}
use iperf.Options.Outcome.{
  Outcome, between, at_most, is_role_client, is_role_server, for_client, for_server, with_test,
  with_settings, accept_if, or_unitval, and_then_set, otherwise,
}

-- The case 'b': a burst behind a slash, then the rate.
abbrev set_burst : Option ℤ → Parsing → Outcome
set_burst none p = inl p
set_burst (some n) p =
    accept_if (between 1 1000 n) burst_error
      (with_settings p (record p.test.settings { burst = n }))

unfoldable pub parse_bitrate : Argument → Parsing → Outcome
parse_bitrate arg p = and_then_set (set_burst arg.behind_slash p) λ p'. or_unitval arg.rate λ r.
    inl (record (for_client (with_settings p' (record p'.test.settings { rate = r }))) {
      rate_flag = true;
    })

-- On linux the case of --nstreams has no `break`, so the case 'b' follows.
unfoldable pub parse_nstreams : Features → Argument → Parsing → Outcome
unfolding parse_bitrate
parse_nstreams f arg p =
    if f.have_ostreams
    then or_unitval arg.units
        (λ n. parse_bitrate arg (for_client (record p { num_ostreams = to_int (pos n) })))
    else inr unimp

-- The conversion of a double that is at most 512 MB to an int; below the range of an int it is undefined in C, and
-- gives the lowest int on the usual processors.
abbrev window_int : ℤ → ℤ
window_int whole = if ltb_ℤ whole (negsuc 2147483647) then negsuc 2147483647 else whole

-- -w: a double above 512 MB is refused.
unfoldable pub parse_window : Argument → Parsing → Outcome
parse_window arg p = or_unitval arg.amount λ (whole, fraction).
    if ltb_ℤ (pos 536870912) whole || (eqb_ℤ whole (pos 536870912) && fraction)
    then inr bufsize
    else inl (
        for_client (with_settings p (record p.test.settings { socket_bufsize = window_int whole })))

-- -A: the own processor, and behind a comma that of the server.
unfoldable pub parse_affinity : Features → Argument → Parsing → Outcome
parse_affinity f arg p =
    if not f.have_cpu_affinity
    then inr unimp
    else if not (arg.is_number && between 0 1024 arg.int)
    then inr affinity_error
    else elim arg.behind_comma [
      | none ↦ inl (record p { affinity = arg.int })
      | some n ↦ accept_if (between 0 1024 n) affinity_error (
          for_client
            (record p { affinity = arg.int; test = record p.test { server_affinity = n } }))
    ]

-- The options that choose the role, the protocol and the direction.
unfoldable pub parse_direction : Features → Flag → Argument → Parsing → Option Outcome
parse_direction f serve arg p = some (
    if is_role_client p.test.role
    then inr servclient
    else inl (with_test p (set_test_role f.build server p.test)))
parse_direction f connect arg p = some (
    if is_role_server p.test.role
    then inr servclient
    else accept_if arg.setting_ok setting_error (with_test p (set_test_role f.build client p.test)))
parse_direction f udp_flag arg p =
    some (inl (for_client (with_test p (try_protocol f.build true udp p.test))))
parse_direction f sctp_flag arg p = some (
    if f.have_sctp
    then inl (for_client (with_test p (try_protocol f.build true sctp p.test)))
    else inr unimp)
parse_direction f quic_flag arg p =
    some (
      if f.have_msquic
      then inl (with_test p (try_protocol f.build true quic p.test))
      else inr unimp)
parse_direction f mptcp_flag arg p =
    some (inl (with_test p (record (try_protocol f.build true tcp p.test) { mptcp = true })))
parse_direction f reverse_flag arg p = some (
    if p.test.bidirectional
    then inr reversebidir
    else inl (for_client (with_test p (set_test_reverse f.build true p.test))))
parse_direction f bidir arg p = some (
    if p.test.reverse
    then inr reversebidir
    else inl (for_client (with_test p (set_test_bidirectional f.build true p.test))))
parse_direction f _ arg p = none

-- The options of the length of a test and of its streams.
unfoldable pub parse_amount : Features → Flag → Argument → Parsing → Option Outcome
unfolding parse_bitrate parse_nstreams parse_window
parse_amount f nstreams arg p = some (parse_nstreams f arg p)
parse_amount f bitrate arg p = some (parse_bitrate arg p)
parse_amount f time arg p = some (
    accept_if (between 0 86400 arg.int) duration_error
      (record (for_client (with_test p (record p.test { duration = arg.int }))) {
        duration_flag = true;
      }))
parse_amount f bytes_flag arg p = some (
    or_unitval arg.units
      λ n. inl (for_client (with_settings p (record p.test.settings { bytes = n }))))
parse_amount f blockcount arg p = some (
    or_unitval arg.units
      λ n. inl (for_client (with_settings p (record p.test.settings { blocks = n }))))
parse_amount f len arg p =
    some (or_unitval arg.units λ n. inl (for_client (record p { blksize = to_int (pos n) })))
parse_amount f parallel arg p = some (
    accept_if (at_most 128 arg.int) numstreams
      (for_client (with_test p (record p.test { num_streams = arg.int }))))
parse_amount f window arg p = some (parse_window arg p)
parse_amount f omit_flag arg p = some (
    accept_if (between 0 600 arg.int) omit_error
      (for_client (with_test p (record p.test { omit = arg.int }))))
parse_amount f file arg p =
    some (inl (with_test p (record p.test { diskfile_name = some arg.text })))
parse_amount f pacing arg p = some (
    or_unitval arg.units λ n.
      inl (for_client (with_settings p (record p.test.settings { pacing_timer = to_int (pos n) }))))
parse_amount f fq_rate arg p = some (
    if f.have_so_max_pacing_rate
    then or_unitval arg.rate
        (λ r. inl (for_client (with_settings p (record p.test.settings { fqrate = r }))))
    else inr unimp)
parse_amount f no_fq_socket_pacing arg p = some (
    if f.have_so_max_pacing_rate
    then inl (for_client (with_settings p (record p.test.settings { fqrate = 0 })))
    else inr unimp)
parse_amount f _ arg p = none

abbrev pub millis : ℤ → ℕ
millis (pos n) = n
millis (negsuc n) = 0

-- The options of the sockets, and of the timeouts in seconds or, from --rcv-timeout on, milliseconds.
unfoldable pub parse_socket : Features → Flag → Argument → Parsing → Option Outcome
unfolding parse_affinity
parse_socket f server_port arg p =
    some (accept_if (between 1 65535 arg.int) badport (record p { port = arg.int }))
parse_socket f client_port arg p =
    some (accept_if (between 1 65535 arg.int) badport (record p { bind_port = arg.int }))
parse_socket f quic_port_flag arg p = some (
    if f.have_msquic
    then accept_if (between 1 65535 arg.int) badport
        (with_test p (record p.test { quic_port = arg.int }))
    else inr unimp)
parse_socket f set_mss arg p = some (
    accept_if (at_most 32767 arg.int) mss_error
      (for_client (with_settings p (record p.test.settings { mss = arg.int }))))
parse_socket f nodelay arg p =
    some (inl (for_client (with_test p (record p.test { no_delay = true }))))
parse_socket f set_tos arg p = some (
    accept_if (arg.is_number && between 0 255 arg.int) badtos
      (for_client (with_settings p (record p.test.settings { tos = arg.int }))))
parse_socket f dscp arg p = some (
    accept_if (not (ltb_ℤ arg.qos (pos 0))) badtos
      (for_client (with_settings p (record p.test.settings { tos = arg.qos }))))
parse_socket f flow arg p = some (
    if f.have_flowlabel
    then accept_if (arg.is_number && between 1 1048575 arg.int) setflow
        (for_client (with_settings p (record p.test.settings { flowlabel = arg.int })))
    else inr unimp)
parse_socket f set_dont_fragment arg p =
    some (inl (for_client (with_settings p (record p.test.settings { dont_fragment = pos 1 }))))
parse_socket f skip_copy arg p =
    some (inl (for_client (with_settings p (record p.test.settings { skip_rx_copy = pos 1 }))))
parse_socket f set_idle_timeout arg p = some (
    accept_if (between 1 86400 arg.int) idletimeout
      (for_server (record p { idle_timeout = arg.int })))
parse_socket f set_rcv_timeout arg p = some (
    accept_if (between 100 86400000 arg.int) rcvtimeout (record p {
      rcv_timeout = record { secs = millis arg.int / 1000; usecs = millis arg.int % 1000 * 1000 };
      rcv_timeout_flag = true;
    }))
parse_socket f set_snd_timeout arg p =
    some (accept_if (between 0 86400000 arg.int) sndtimeout (record p { snd_timeout = arg.int }))
parse_socket f set_connect_timeout arg p =
    some
      (or_unitval arg.units λ n. inl (for_client (record p { connect_timeout = to_int (pos n) })))
parse_socket f set_affinity arg p = some (parse_affinity f arg p)
parse_socket f _ arg p = none

-- The options that only set a field.
unfoldable pub parse_setting : Features → Flag → Argument → Parsing → Outcome
parse_setting f extra arg p =
    inl (for_client (with_test p (record p.test { extra_data = some arg.text })))
parse_setting f set_title arg p =
    inl (for_client (with_test p (record p.test { title = some arg.text })))
parse_setting f set_congestion arg p =
    if f.have_tcp_congestion
    then inl (for_client (with_test p (record p.test { congestion = some arg.text })))
    else inr unimp
parse_setting f zerocopy_flag arg p =
    if f.have_sendfile
    then inl (for_client (with_test p (record p.test { zerocopy = pos 1 })))
    else inr nosendfile
parse_setting f repeating arg p =
    inl (for_client (with_test p (record p.test { repeating_payload = true })))
parse_setting f server_output arg p =
    inl (for_client (with_test p (record p.test { get_server_output = true })))
parse_setting f counters_64bit arg p =
    inl (for_client (with_test p (record p.test { udp_counters_64bit = true })))
parse_setting f server_max_duration arg p =
    accept_if (between 0 86400 arg.int) duration_error
      (for_server (with_test p (record p.test { max_server_duration = arg.int })))
parse_setting f client_setting arg p = accept_if arg.setting_ok setting_error (for_client p)
parse_setting f server_setting arg p = accept_if arg.setting_ok setting_error (for_server p)
parse_setting f common_setting arg p = accept_if arg.setting_ok setting_error p
parse_setting f _ arg p = inl p

-- The `switch` on an option.
unfoldable pub parse_option : Features → Flag → Argument → Parsing → Outcome
unfolding parse_direction parse_amount parse_socket parse_setting
parse_option f flag arg p = otherwise (parse_direction f flag arg p) (
    otherwise (parse_amount f flag arg p)
      (otherwise (parse_socket f flag arg p) (parse_setting f flag arg p)))

-- The loop, which the first error ends.
unfoldable pub parse_options : Features → List (Flag × Argument) → Parsing → Outcome
unfolding parse_option
parse_options f [] p = inl p
parse_options f ((flag, arg) ∷ rest) p =
    and_then_set (parse_option f flag arg p) (parse_options f rest)
