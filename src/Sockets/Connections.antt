-- ===== src/Sockets/Connections.antt =====
-- src/iperf_tcp.c: what the functions of TCP leave open, whatever call fails.
use iperf.Base.{
  ℕ, suc, ap, Bool, true, false, not, Option, none, some, List, ◌∷◌, if◌then◌else◌, ◌==◌,
}
use iperf.Base.Int.{ℤ, pos}
use iperf.Sockets.{
  SockOpt, NetError, Kernel, Process, Op, freeaddrinfo, set_errno, attempt, ◌then_do◌, ◌or_else◌,
  choose, when_needed, ignore, iestreamconnect, iesendcookie, ierecvcookie, iesetbuf, iesetbuf2,
  inet6, accept_socket, read_cookie, deny_access, set_option, connect_socket, write_cookie,
  iesetnodelay, no_delay, iesetmss, max_segment, iesetusertimeout, user_timeout, iesetflow,
  send_buffer, receive_buffer, tos, traffic_class, iesetcos, iesettos, flow_label, flow_send,
  max_pacing,
}
use iperf.Sockets.Net.{is_family}
use iperf.Sockets.Triples.{
  After, Opens, Step, Opens-with_socket, Step-then_do, Step-choose, Step-or_else,
}
use iperf.Sockets.Releasing.{
  Has, close-Has, freeaddrinfo-Has, abandon-Has, Step-attempt, Step-act, Step-test,
  Step-when_needed,
}
use iperf.Sockets.Dialling.{create_socket-Opens}
use iperf.Sockets.Tcp.{
  SocketSettings, is_set, closing, abandoning, option_or, buffer_options, is_enough, read_back,
  max_pacing_rate, common_sockopts, flow_options, client_options, tcp_connect, tcp_accept,
  with_error, check_cookie, accepted,
}

Step-option_or :
    {l l' : List ℕ} {n m : ℕ} (k : Kernel) (cleanup : Process → Process) (needed : Bool)
    (opt : SockOpt) (v : ℤ)
    → ((w : Process) → Has l n w → Has l' m (cleanup w))
    → Step (Has l n) (option_or k cleanup needed opt v) (Has l n) (Has l' m)
unfolding option_or
Step-option_or k cleanup needed opt v g =
    Step-when_needed needed (Step-or_else cleanup (Step-attempt k _) g)

pub Step-buffer_options :
    {l l' : List ℕ} {n m : ℕ} (k : Kernel) (cleanup : Process → Process) (v : ℤ)
    → ((w : Process) → Has l n w → Has l' m (cleanup w))
    → Step (Has l n) (buffer_options k cleanup v) (Has l n) (Has l' m)
unfolding buffer_options
Step-buffer_options k cleanup v g =
    Step-then_do (Step-option_or k cleanup _ _ _ g) (Step-option_or k cleanup _ _ _ g)

pub Step-read_back :
    {l l' : List ℕ} {n m : ℕ} (k : Kernel) (cleanup : NetError → Process → Process) (v : ℤ)
    (opt : SockOpt)
    → ((e : NetError) (w : Process) → Has l n w → Has l' m (cleanup e w))
    → Step (Has l n) (read_back k cleanup v opt) (Has l n) (Has l' m)
unfolding read_back
Step-read_back k cleanup v opt g =
    Step-then_do (Step-or_else (cleanup iesetbuf) (Step-attempt k _) (g iesetbuf)) (
      Step-or_else (cleanup iesetbuf2) (Step-test (λ w. is_enough v (k.value w.calls opt)))
        (g iesetbuf2))

pub Step-ignore : {P C : Process → Type 0} {a : Op} → Step P a P P → Step P (ignore a) P C
Step-ignore {P = P} {a = a} h = record { run = λ w p. same P (a w) (h.run w p) }
  where
    same : (P : Process → Type 0) (r : Bool × Process) → After P P r → P r.1
    same P (true, w) p = p
    same P (false, w) p = p

pub Step-max_pacing_rate :
    {l : List ℕ} {n : ℕ} {C : Process → Type 0} (k : Kernel) (rate : ℕ)
    → Step (Has l n) (max_pacing_rate k rate) (Has l n) C
unfolding max_pacing_rate
Step-max_pacing_rate k rate =
    Step-when_needed (not (rate == 0))
      (Step-ignore (Step-attempt k (set_option max_pacing (pos rate))))

Step-flow_options :
    {l l' : List ℕ} {n m : ℕ} (k : Kernel) (cleanup : Process → Process) (v : ℤ)
    → ((w : Process) → Has l n w → Has l' m (cleanup w))
    → Step (Has l n) (flow_options k cleanup v) (Has l n) (Has l' m)
unfolding flow_options
Step-flow_options k cleanup v g = Step-when_needed (is_set v) (
    Step-then_do
      (Step-then_do (Step-or_else cleanup (Step-test (λ w. is_family (k.family w.calls) inet6)) g)
        (Step-option_or k cleanup true flow_label v g))
      (Step-option_or k cleanup true flow_send (pos 1) g))

pub Step-common_sockopts :
    {l : List ℕ} {n : ℕ} (k : Kernel) (set : SocketSettings)
    → Step (Has l n) (common_sockopts k set) (Has l n) (Has l n)
unfolding common_sockopts
Step-common_sockopts {l = l} {n = n} k set =
    Step-when_needed (is_set set.tos_value)
      (record { run = λ w h. (by_family (is_family (k.family w.calls) inet6)).run w h })
  where
    by_family :
        (b : Bool)
        → Step
            (Has l n)
            (choose b
              (attempt k (set_option traffic_class set.tos_value) or_else set_errno iesetcos
                then_do when_needed set.is_mapped_v4
                    (ignore (attempt k (set_option tos set.tos_value))))
              (attempt k (set_option tos set.tos_value) or_else set_errno iesettos))
            (Has l n)
            (Has l n)
    by_family b =
        Step-choose b
          (Step-then_do
            (Step-or_else (set_errno iesetcos)
              (Step-attempt k (set_option traffic_class set.tos_value)) (λ w h. h))
            (Step-when_needed set.is_mapped_v4
              (Step-ignore (Step-attempt k (set_option tos set.tos_value)))))
          (Step-or_else (set_errno iesettos) (Step-attempt k (set_option tos set.tos_value))
            (λ w h. h))

-- An option of a new socket, which is abandoned if the option is refused.
pub Step-socket_option :
    {l : List ℕ} {n : ℕ} (k : Kernel) (s : ℕ) (e : NetError) (needed : Bool) (opt : SockOpt) (v : ℤ)
    → Step
        (Has (s ∷ l) (suc n))
        (option_or k (abandoning s e) needed opt v)
        (Has (s ∷ l) (suc n))
        (Has l n)
Step-socket_option {l = l} {n = n} k s e needed opt v =
    Step-option_or k (abandoning s e) needed opt v (abandon-Has s l n)

Step-client_options :
    {l : List ℕ} {n : ℕ} (k : Kernel) (set : SocketSettings) (s : ℕ)
    → Step (Has (s ∷ l) (suc n)) (client_options k set s) (Has (s ∷ l) (suc n)) (Has l n)
unfolding client_options
Step-client_options {l = l} {n = n} k set s =
    let gone = abandon-Has s l n in
    Step-then_do
      (Step-then_do
        (Step-then_do
          (Step-then_do
            (Step-then_do
              (Step-then_do (Step-socket_option k s iesetnodelay set.nodelay no_delay (pos 1))
                (Step-socket_option k s iesetmss (is_set set.mss) max_segment set.mss))
              (Step-buffer_options k (abandoning s iesetbuf) set.socket_bufsize gone))
            (Step-socket_option k s iesetusertimeout (is_set set.snd_timeout) user_timeout
              set.snd_timeout))
          (Step-read_back k (abandoning s) set.socket_bufsize send_buffer (λ e. gone)))
        (Step-read_back k (abandoning s) set.socket_bufsize receive_buffer (λ e. gone)))
      (Step-flow_options k (abandoning s iesetflow) set.flowlabel gone)

with_error-Opens :
    (Q : ℕ → Process → Type 0) (l : List ℕ) (n : ℕ) (e : NetError) (r : Option ℕ × Process)
    → Opens Q (Has l n) r
    → Opens Q (Has l n) (with_error e r)
with_error-Opens Q l n e (none, w) h = h
with_error-Opens Q l n e (some s, w) h = h

-- Whatever calls fail, iperf_tcp_connect frees its lists of addresses, and closes the socket unless it returns it.
pub tcp_connect-Opens :
    (k : Kernel) (set : SocketSettings) (l : List ℕ) (n : ℕ) (w : Process)
    → Has l n w
    → Opens (λ s. Has (s ∷ l) n) (Has l n) (tcp_connect k set w)
unfolding tcp_connect
tcp_connect-Opens k set l n w h =
    Opens-with_socket (λ s. Has (s ∷ l) (suc n)) (λ s. Has (s ∷ l) n) (Has l n) _ _
      (λ s.
        Step-then_do
          (Step-then_do
            (Step-then_do
              (Step-then_do
                (Step-then_do (Step-client_options k set s) (Step-max_pacing_rate k set.rate_limit))
                (Step-ignore (Step-common_sockopts k set)))
              (Step-or_else (abandoning s iestreamconnect) (Step-attempt k connect_socket)
                (abandon-Has s l n)))
            (Step-act freeaddrinfo (freeaddrinfo-Has (s ∷ l) n)))
          (Step-or_else (closing s iesendcookie) (Step-attempt k write_cookie) (close-Has s l n)))
      (with_error-Opens (λ s. Has (s ∷ l) (suc n)) l n iestreamconnect _
        (create_socket-Opens k set.endpoint l n w h))

-- The socket that iperf_tcp_accept returns is open exactly if the cookie of the connection is the cookie of the
-- test; where the accept fails no socket is left open.
pub tcp_accept-Opens :
    (k : Kernel) (rate_limit : ℕ) (same_cookie : Bool) (l : List ℕ) (n : ℕ) (w : Process)
    → Has l n w
    → Opens
        (λ s. Has (if same_cookie then s ∷ l else l) n)
        (Has l n)
        (tcp_accept k rate_limit same_cookie w)
unfolding tcp_accept
tcp_accept-Opens k rate_limit same_cookie l n w h =
    Opens-with_socket (λ s. Has (s ∷ l) n) (λ s. Has (if same_cookie then s ∷ l else l) n) (Has l n)
      _ _
      (λ s.
        Step-then_do
          (Step-then_do (Step-max_pacing_rate k rate_limit)
            (Step-or_else (closing s ierecvcookie) (Step-attempt k read_cookie) (close-Has s l n)))
          (record { run = λ w h. check_cookie-Has same_cookie s w h }))
      (Opens-accepted (k.succeeds w.calls accept_socket)
        (record w { calls = accept_socket ∷ w.calls }) h)
  where
    check_cookie-Has :
        (b : Bool) (s : ℕ) (w : Process)
        → Has (s ∷ l) n w
        → Has (if b then s ∷ l else l) n (check_cookie k b s w)
    check_cookie-Has true s w h = h
    check_cookie-Has false s w h = close-Has s l n (attempt k deny_access w).1 h

    Opens-accepted :
        (b : Bool) (w : Process) → Has l n w → Opens (λ s. Has (s ∷ l) n) (Has l n) (accepted k b w)
    Opens-accepted false w h = h
    Opens-accepted true w (e, h) = (ap (λ z. k.new_descriptor w.calls ∷ z) e, h)
