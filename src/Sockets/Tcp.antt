-- ===== src/Sockets/Tcp.antt =====
-- src/iperf_tcp.c: `iperf_tcp_accept`, `iperf_tcp_listen` and `iperf_tcp_connect`, with `iperf_common_sockopts` of
-- src/iperf_api.c. The build has HAVE_FLOWLABEL, HAVE_SO_MAX_PACING_RATE and HAVE_TCP_USER_TIMEOUT.
use iperf.Base.{ℕ, Bool, true, false, not, ◌&&◌, ◌||◌, Option, none, some, ◌∷◌, ◌==◌}
use iperf.Base.Int.{ℤ, pos, eqb_ℤ, ltb_ℤ}
use iperf.Sockets.{
  unspec, inet, inet6, SockOpt, reuse_address, v6_only, no_delay, max_segment, receive_buffer,
  send_buffer, user_timeout, flow_label, flow_send, max_pacing, traffic_class, tos, connect_socket,
  bind_socket, listen_socket, accept_socket, read_cookie, write_cookie, deny_access,
  resolve_passive, set_option, get_option, NetError, iestreamconnect, iestreamlisten, iesendcookie,
  ierecvcookie, iesetnodelay, iesetmss, iesetbuf, iesetbuf2, iesetusertimeout, iesetflow,
  iereuseaddr, iev6only, iesetcos, iesettos, Kernel, Process, Op, close, freeaddrinfo, set_errno,
  attempt, ◌then_do◌, undo, ◌or_else◌, act, choose, when_needed, ignore, with_socket,
}
use iperf.Sockets.Net.{
  new_socket, resolve, Endpoint, abandon, create_socket, passive_family, is_family, v6_only_value,
}

-- The settings that these functions read; `rate_limit` is `fqrate / 8`.
pub record SocketSettings : Type 0 where
  pub endpoint : Endpoint
  pub mptcp : Bool
  pub nodelay : Bool
  pub mss : ℤ
  pub socket_bufsize : ℤ
  pub snd_timeout : ℤ
  pub flowlabel : ℤ
  pub rate_limit : ℕ
  pub tos_value : ℤ
  pub is_mapped_v4 : Bool

abbrev pub is_set : ℤ → Bool
is_set n = not (eqb_ℤ n (pos 0))

abbrev pub closing : ℕ → NetError → Process → Process
closing s e w = set_errno e (close s w)

abbrev pub abandoning : ℕ → NetError → Process → Process
abandoning s e w = set_errno e (abandon s w)

-- `setsockopt`, if it is asked for.
unfoldable pub option_or : Kernel → (Process → Process) → Bool → SockOpt → ℤ → Op
option_or k cleanup needed opt n = when_needed needed (attempt k (set_option opt n) or_else cleanup)

unfoldable pub buffer_options : Kernel → (Process → Process) → ℤ → Op
unfolding option_or
buffer_options k cleanup n =
    option_or k cleanup (is_set n) receive_buffer n
    then_do option_or k cleanup (is_set n) send_buffer n

-- Is the buffer that the kernel gives as large as what is asked for?
abbrev pub is_enough : ℤ → ℤ → Bool
is_enough wanted actual = not (is_set wanted && ltb_ℤ actual wanted)

unfoldable pub read_back : Kernel → (NetError → Process → Process) → ℤ → SockOpt → Op
read_back k cleanup n opt =
    attempt k (get_option opt) or_else cleanup iesetbuf
    then_do (λ w. (is_enough n (k.value w.calls opt), w)) or_else cleanup iesetbuf2

unfoldable pub max_pacing_rate : Kernel → ℕ → Op
max_pacing_rate k n =
    when_needed (not (n == 0)) (ignore (attempt k (set_option max_pacing (pos n))))

unfoldable pub common_sockopts : Kernel → SocketSettings → Op
common_sockopts k set = when_needed (is_set set.tos_value) (λ w.
    choose (is_family (k.family w.calls) inet6)
      (attempt k (set_option traffic_class set.tos_value) or_else set_errno iesetcos
        then_do when_needed set.is_mapped_v4 (ignore (attempt k (set_option tos set.tos_value))))
      (attempt k (set_option tos set.tos_value) or_else set_errno iesettos) w)

abbrev pub needs_new : SocketSettings → Bool
needs_new set = set.nodelay || set.mptcp || is_set set.mss || is_set set.socket_bufsize

abbrev pub failed : NetError → Bool × Process → Bool × Process
failed e r = undo (set_errno e) r

unfoldable pub listener_options : Kernel → SocketSettings → ℕ → Op
unfolding option_or buffer_options abandon
listener_options k set s =
    option_or k (abandoning s iesetnodelay) set.nodelay no_delay (pos 1)
    then_do option_or k (abandoning s iesetmss) (is_set set.mss) max_segment set.mss
    then_do buffer_options k (abandoning s iesetbuf) set.socket_bufsize
    then_do option_or k (abandoning s iereuseaddr) true reuse_address (pos 1)
    then_do (λ w.
        option_or k (abandoning s iev6only)
          (is_family (k.family w.calls) inet6
            && (is_family set.endpoint.domain unspec || is_family set.endpoint.domain inet))
          v6_only (v6_only_value set.endpoint.domain) w)

-- A new socket in the place of the one that the control connection came by.
unfoldable pub new_listener : Kernel → SocketSettings → Process → Option ℕ × Process
unfolding listener_options resolve new_socket abandon close freeaddrinfo
new_listener k set w =
    with_socket
      (λ s.
        listener_options k set s
        then_do attempt k bind_socket or_else abandoning s iestreamlisten
        then_do act freeaddrinfo
        then_do attempt k listen_socket or_else closing s iestreamlisten
        then_do act (λ w. record w { listener = s }))
      (new_socket k (λ w. set_errno iestreamlisten (freeaddrinfo w))
        (failed iestreamlisten (
          resolve k (resolve_passive (passive_family set.endpoint.domain set.endpoint.has_local))
            (close w.listener w))))

abbrev pub listener_for : Kernel → SocketSettings → Bool → Process → Option ℕ × Process
listener_for k set true w = new_listener k set w
listener_for k set false w = (some w.listener, w)

unfoldable pub tcp_listen : Kernel → SocketSettings → Process → Option ℕ × Process
unfolding new_listener read_back close
tcp_listen k set w =
    with_socket
      (λ s.
        read_back k (closing s) set.socket_bufsize send_buffer
        then_do read_back k (closing s) set.socket_bufsize receive_buffer)
      (listener_for k set (needs_new set) w)

-- The label is that of the settings, before its mask and its byte order.
unfoldable pub flow_options : Kernel → (Process → Process) → ℤ → Op
unfolding option_or
flow_options k cleanup n = when_needed (is_set n) (
    (λ w. (is_family (k.family w.calls) inet6, w)) or_else cleanup
    then_do option_or k cleanup true flow_label n
    then_do option_or k cleanup true flow_send (pos 1))

unfoldable pub client_options : Kernel → SocketSettings → ℕ → Op
unfolding option_or buffer_options read_back flow_options abandon
client_options k set s =
    option_or k (abandoning s iesetnodelay) set.nodelay no_delay (pos 1)
    then_do option_or k (abandoning s iesetmss) (is_set set.mss) max_segment set.mss
    then_do buffer_options k (abandoning s iesetbuf) set.socket_bufsize
    then_do option_or k (abandoning s iesetusertimeout) (is_set set.snd_timeout) user_timeout
        set.snd_timeout
    then_do read_back k (abandoning s) set.socket_bufsize send_buffer
    then_do read_back k (abandoning s) set.socket_bufsize receive_buffer
    then_do flow_options k (abandoning s iesetflow) set.flowlabel

abbrev pub with_error : NetError → Option ℕ × Process → Option ℕ × Process
with_error e (none, w) = (none, set_errno e w)
with_error e (some s, w) = (some s, w)

-- connect succeeds also where it is in progress.
unfoldable pub tcp_connect : Kernel → SocketSettings → Process → Option ℕ × Process
unfolding create_socket client_options max_pacing_rate common_sockopts abandon close freeaddrinfo
tcp_connect k set w =
    with_socket
      (λ s.
        client_options k set s
        then_do max_pacing_rate k set.rate_limit
        then_do ignore (common_sockopts k set)
        then_do attempt k connect_socket or_else abandoning s iestreamconnect
        then_do act freeaddrinfo
        then_do attempt k write_cookie or_else closing s iesendcookie)
      (with_error iestreamconnect (create_socket k set.endpoint w))

-- The descriptor is returned also where the cookie is another test's. `same_cookie` compares it.
abbrev pub check_cookie : Kernel → Bool → ℕ → Process → Process
check_cookie k true s w = w
check_cookie k false s w = close s (attempt k deny_access w).1

abbrev pub accepted : Kernel → Bool → Process → Option ℕ × Process
accepted k false w = (none, set_errno iestreamconnect w)
accepted k true w = (
  some (k.new_descriptor w.calls),
  record w { open_sockets = k.new_descriptor w.calls ∷ w.open_sockets },
)

unfoldable pub tcp_accept : Kernel → ℕ → Bool → Process → Option ℕ × Process
unfolding max_pacing_rate close
tcp_accept k rate_limit same_cookie w =
    with_socket
      (λ s.
        max_pacing_rate k rate_limit
        then_do attempt k read_cookie or_else closing s ierecvcookie
        then_do (λ w. (true, check_cookie k same_cookie s w)))
      (accepted k (k.succeeds w.calls accept_socket) (record w { calls = accept_socket ∷ w.calls }))
