-- ===== src/Options/Ranges.antt =====
-- src/iperf_api.c: the numbers that `iperf_parse_arguments` lets through.
use iperf.Base.Int.{ℤ, pos, negsuc, ltb_ℤ}
use iperf.Base.{◌≡◌, ◌≤◌, ◌+◌, ◌*◌, ◌/◌, ◌%◌, false, subst, true, some, List, [], ◌∷◌, inl, arith}
use iperf.Time.{IperfTime}
use iperf.Test.Roles.{
  set_test_role, set_test_reverse, set_test_bidirectional, set_protocol,
  check_sender_has_retransmits,
}
use iperf.Options.{Argument, Flag, set_affinity, set_rcv_timeout, Features, Parsing}
use iperf.Options.Outcome.{between, at_most}
use iperf.Options.Parse.{
  parse_bitrate, parse_nstreams, parse_window, parse_affinity, parse_direction, parse_amount,
  parse_socket, parse_setting, parse_option, parse_options, millis,
}
use iperf.Options.Finish.{
  Outside, check_roles, default_quic_port, quic_defaults, check_auth, check_file, check_blksize,
  default_rate, bytes_of_file, no_duration, check_end_conditions, check_role_given, finish_amounts,
  finish, parse_arguments,
}
use iperf.Options.Bounds.{and_then_set-inl}
use iperf.Options.Directions.{option-cases, inl_inj}
use iperf.Options.Defaults.{defaults}

-- From 100 milliseconds to a day.
pub IsRcvTimeout : IperfTime → Type 0
IsRcvTimeout t =
    (100 ≤ t.secs * 1000 + t.usecs / 1000) × (t.secs * 1000 + t.usecs / 1000 ≤ 86400000)

given-IsRcvTimeout :
    (z : ℤ)
    → between 100 86400000 z ≡ true
    → IsRcvTimeout (record { secs = millis z / 1000; usecs = millis z % 1000 * 1000 })
unfolding IsRcvTimeout
given-IsRcvTimeout z h = ground arith

default-IsRcvTimeout : IsRcvTimeout (record { secs = 120; usecs = 0 })
unfolding IsRcvTimeout
default-IsRcvTimeout = omega arith

-- The limits of the numbers, MAX_TIME, MAX_OMIT_TIME, MAX_STREAMS, MAX_MSS, MAX_BURST and MAX_TCP_BUFFER among
-- them. A number of streams, a segment size and a window may be negative; a processor that is not given is -1.
pub record InRange (p : Parsing) : Type 0 where
  pub duration_ok : between 0 86400 p.test.duration ≡ true
  pub max_duration_ok : between 0 86400 p.test.max_server_duration ≡ true
  pub omit_ok : between 0 600 p.test.omit ≡ true
  pub streams_ok : at_most 128 p.test.num_streams ≡ true
  pub mss_ok : at_most 32767 p.test.settings.mss ≡ true
  pub burst_ok : between 0 1000 p.test.settings.burst ≡ true
  pub flowlabel_ok : between 0 1048575 p.test.settings.flowlabel ≡ true
  pub port_ok : between 1 65535 p.port ≡ true
  pub bind_port_ok : between 0 65535 p.bind_port ≡ true
  pub quic_port_ok : between 0 65535 p.test.quic_port ≡ true
  pub idle_timeout_ok : between 0 86400 p.idle_timeout ≡ true
  pub snd_timeout_ok : between 0 86400000 p.snd_timeout ≡ true
  pub tos_ok : ltb_ℤ p.test.settings.tos (pos 0) ≡ false
  pub window_ok : ltb_ℤ (pos 536870912) p.test.settings.socket_bufsize ≡ false
  pub affinity_ok : (ltb_ℤ p.affinity (negsuc 0) ≡ false) × (at_most 1024 p.affinity ≡ true)
  pub server_affinity_ok :
      (ltb_ℤ p.test.server_affinity (negsuc 0) ≡ false)
      × (at_most 1024 p.test.server_affinity ≡ true)
  pub rcv_timeout_ok : IsRcvTimeout p.rcv_timeout

parse_direction-InRange :
    (f : Features) (flag : Flag) (arg : Argument) (p p' : Parsing)
    → InRange p
    → parse_direction f flag arg p ≡ some (inl p')
    → InRange p'
unfolding parse_direction set_test_role set_test_reverse set_test_bidirectional set_protocol
    check_sender_has_retransmits
parse_direction-InRange f flag arg p p' c h = ground arith

parse_amount-InRange :
    (f : Features) (flag : Flag) (arg : Argument) (p p' : Parsing)
    → InRange p
    → parse_amount f flag arg p ≡ some (inl p')
    → InRange p'
unfolding parse_amount parse_nstreams parse_bitrate parse_window
parse_amount-InRange f flag arg p p' c h = ground arith

parse_affinity-InRange :
    (f : Features) (arg : Argument) (p p' : Parsing)
    → InRange p
    → parse_affinity f arg p ≡ inl p'
    → InRange p'
unfolding parse_affinity
parse_affinity-InRange f arg p p' c h = ground arith

parse_socket-InRange :
    (f : Features) (flag : Flag) (arg : Argument) (p p' : Parsing)
    → InRange p
    → parse_socket f flag arg p ≡ some (inl p')
    → InRange p'
unfolding parse_socket
parse_socket-InRange f set_affinity arg p p' c h =
    parse_affinity-InRange f arg p p' c (ground arith)
parse_socket-InRange f set_rcv_timeout arg p p' c h = ground (arith, given-IsRcvTimeout arg.int)
parse_socket-InRange f _ arg p p' c h = ground arith

parse_setting-InRange :
    (f : Features) (flag : Flag) (arg : Argument) (p p' : Parsing)
    → InRange p
    → parse_setting f flag arg p ≡ inl p'
    → InRange p'
unfolding parse_setting
parse_setting-InRange f flag arg p p' c h = ground arith

check_roles-InRange : (p p' : Parsing) → InRange p → check_roles p ≡ inl p' → InRange p'
unfolding check_roles
check_roles-InRange p p' c h = ground arith

quic_defaults-InRange :
    (out : Outside) (p p' : Parsing) → InRange p → quic_defaults out p ≡ inl p' → InRange p'
unfolding quic_defaults default_quic_port
quic_defaults-InRange out p p' c h = ground arith

check_auth-InRange :
    (out : Outside) (p p' : Parsing) → InRange p → check_auth out p ≡ inl p' → InRange p'
unfolding check_auth
check_auth-InRange out p p' c h = ground arith

check_file-InRange : (p p' : Parsing) → InRange p → check_file p ≡ inl p' → InRange p'
unfolding check_file
check_file-InRange p p' c h = ground arith

check_blksize-InRange : (p p' : Parsing) → InRange p → check_blksize p ≡ inl p' → InRange p'
unfolding check_blksize
check_blksize-InRange p p' c h = ground arith

default_rate-InRange : (p : Parsing) → InRange p → InRange (default_rate p)
unfolding default_rate
default_rate-InRange p c = ground arith

bytes_of_file-InRange : (out : Outside) (p : Parsing) → InRange p → InRange (bytes_of_file out p)
unfolding bytes_of_file
bytes_of_file-InRange out p c = ground arith

no_duration-InRange : (p : Parsing) → InRange p → InRange (no_duration p)
unfolding no_duration
no_duration-InRange p c = ground arith

check_end_conditions-InRange :
    (p p' : Parsing) → InRange p → check_end_conditions p ≡ inl p' → InRange p'
unfolding check_end_conditions
check_end_conditions-InRange p p' c h = ground arith

check_role_given-InRange : (p p' : Parsing) → InRange p → check_role_given p ≡ inl p' → InRange p'
unfolding check_role_given
check_role_given-InRange p p' c h = ground arith

finish_amounts-InRange :
    (out : Outside) (p p' : Parsing) → InRange p → finish_amounts out p ≡ inl p' → InRange p'
unfolding finish_amounts
finish_amounts-InRange out p p' c h =
    let p1 = default_rate p in
    let p2 = bytes_of_file out p1 in
    let c3 = no_duration-InRange p2 (bytes_of_file-InRange out p1 (default_rate-InRange p c)) in
    let (q, e, h') =
      and_then_set-inl (check_end_conditions (no_duration p2)) check_role_given p' h in
    check_role_given-InRange q p' (check_end_conditions-InRange (no_duration p2) q c3 e) h'

finish-InRange : (out : Outside) (p p' : Parsing) → InRange p → finish out p ≡ inl p' → InRange p'
unfolding finish
finish-InRange out p p' c h =
    let (p1, e1, h1) = and_then_set-inl (check_roles p) _ p' h in
    let (p2, e2, h2) = and_then_set-inl (quic_defaults out p1) _ p' h1 in
    let (p3, e3, h3) = and_then_set-inl (check_auth out p2) _ p' h2 in
    let (p4, e4, h4) = and_then_set-inl (check_file p3) _ p' h3 in
    let (p5, e5, h5) = and_then_set-inl (check_blksize p4) (finish_amounts out) p' h4 in
    let c3 =
      check_auth-InRange out p2 p3
        (quic_defaults-InRange out p1 p2 (check_roles-InRange p p1 c e1) e2) e3 in
    let c5 = check_blksize-InRange p4 p5 (check_file-InRange p3 p4 c3 e4) e5 in
    finish_amounts-InRange out p5 p' c5 h5

parse_options-InRange :
    (f : Features) (args : List (Flag × Argument)) (p p' : Parsing)
    → InRange p
    → parse_options f args p ≡ inl p'
    → InRange p'
unfolding parse_options
parse_options-InRange f [] p p' c h = subst InRange (inl_inj h) c
parse_options-InRange f ((flag, arg) ∷ rest) p p' c h =
    let (q, e, h') = and_then_set-inl (parse_option f flag arg p) (parse_options f rest) p' h in
    parse_options-InRange f rest q p'
      (option-cases InRange f flag arg p q (parse_direction-InRange f flag arg p q c)
        (parse_amount-InRange f flag arg p q c) (parse_socket-InRange f flag arg p q c)
        (parse_setting-InRange f flag arg p q c) e)
      h'

defaults-InRange : (f : Features) → InRange (defaults f)
unfolding defaults set_protocol
defaults-InRange f = ground (arith, default-IsRcvTimeout)

-- Whatever options stand on a command line that is accepted, these numbers are within their limits: the duration, the
-- greatest duration, the omitted time, the ports, the idle timeout, the timeouts of sending and of receiving, the
-- burst, the label and the two processors from their lowest to their highest value; the number of streams, the
-- segment size and the window below a highest value only; and the type of service is not negative.
pub parse_arguments-InRange :
    (f : Features) (out : Outside) (args : List (Flag × Argument)) (p' : Parsing)
    → parse_arguments f out args (defaults f) ≡ inl p'
    → InRange p'
unfolding parse_arguments
parse_arguments-InRange f out args p' h =
    let (q, e, h') = and_then_set-inl (parse_options f args (defaults f)) (finish out) p' h in
    finish-InRange out q p' (parse_options-InRange f args (defaults f) q (defaults-InRange f) e) h'
