-- ===== src/Tests/Sockets.antt =====
-- The sockets of src/iperf_tcp.c and src/iperf_udp.c, over a kernel that refuses one call.
use iperf.Base.{ℕ, ◌+◌, refl, Bool, true, false, none, List, [], ◌∷◌, not, length, arith}
use iperf.Base.Int.{pos}
use iperf.Sockets.{
  unspec, inet, Call, write_cookie, write_connect, listen_socket, connected, ready, Kernel, Process,
}
use iperf.Sockets.Triples.{Opens}
use iperf.Sockets.Releasing.{Has}
use iperf.Sockets.Tcp.{SocketSettings, tcp_connect, tcp_listen, tcp_accept}
use iperf.Sockets.Connections.{tcp_connect-Opens, tcp_accept-Opens}
use iperf.Sockets.Listening.{Listens, tcp_listen-IsListening}
use iperf.Sockets.Datagrams.{udp_accept, check_buffers}
use iperf.Sockets.Leaving.{Left, udp_accept-Left}
use iperf.Sockets.Buffers.{Fits, check_buffers-Fits}

-- The kernel refuses what `f` says.
abbrev kernel : (Call → Bool) → Kernel
kernel f = record {
  succeeds = λ calls c. not (f c);
  value = λ calls opt. pos 2048;
  family = λ calls. inet;
  connecting = λ calls. connected;
  polled = λ calls. ready;
  new_descriptor = λ calls. length calls + 5;
}

abbrev is_cookie : Call → Bool
is_cookie write_cookie = true
is_cookie _ = false

abbrev is_listen : Call → Bool
is_listen listen_socket = true
is_listen _ = false

abbrev is_write : Call → Bool
is_write write_connect = true
is_write _ = false

abbrev settings : SocketSettings
settings = record {
  endpoint = record {
    domain = unspec;
    has_local = true;
    bind_dev = false;
    has_bindtodevice = true;
    has_local_port = false;
  };
  mptcp = false;
  nodelay = true;
  mss = pos 1400;
  socket_bufsize = pos 0;
  snd_timeout = pos 0;
  flowlabel = pos 0;
  rate_limit = 0;
  tos_value = pos 0;
  is_mapped_v4 = false;
}

abbrev process : List ℕ → Process
process l = record { open_sockets = l; addresses = 0; listener = 3; i_errno = none; calls = [] }

tcp_connect-Opens_example :
    Opens
      (λ s. Has (s ∷ 4 ∷ []) 0)
      (Has (4 ∷ []) 0)
      (tcp_connect (kernel is_cookie) settings (process (4 ∷ [])))
tcp_connect-Opens_example =
    tcp_connect-Opens (kernel is_cookie) settings (4 ∷ []) 0 (process (4 ∷ [])) (refl, refl)

tcp_accept-Opens_example :
    Opens
      (λ s. Has (3 ∷ []) 0)
      (Has (3 ∷ []) 0)
      (tcp_accept (kernel is_cookie) 0 false (process (3 ∷ [])))
tcp_accept-Opens_example =
    tcp_accept-Opens (kernel is_cookie) 0 false (3 ∷ []) 0 (process (3 ∷ [])) (refl, refl)

tcp_listen-IsListening_example :
    Opens
      (λ s w. Has (s ∷ 4 ∷ []) 0 w × Listens s w)
      (Has (4 ∷ []) 0)
      (tcp_listen (kernel is_listen) settings (process (3 ∷ 4 ∷ [])))
tcp_listen-IsListening_example =
    tcp_listen-IsListening (kernel is_listen) settings (4 ∷ []) 0 (process (3 ∷ 4 ∷ []))
      (refl, refl)

udp_accept-Left_example :
    Left
      (3 ∷ [])
      0
      (kernel is_write)
      3
      (udp_accept (kernel is_write) settings 3 1460 (process (3 ∷ [])))
udp_accept-Left_example =
    udp_accept-Left (3 ∷ []) 0 (kernel is_write) settings 3 1460 (process (3 ∷ [])) (refl, refl)

check_buffers-Fits_example :
    Fits
      (kernel is_write)
      (pos 1460)
      (check_buffers (kernel is_write) (pos 0) (pos 1460) (process []))
check_buffers-Fits_example = check_buffers-Fits (kernel is_write) 1460 (process []) (omega arith)
