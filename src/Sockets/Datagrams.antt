-- ===== src/Sockets/Datagrams.antt =====
-- src/iperf_udp.c: `iperf_udp_buffercheck`, `iperf_udp_listen`, `iperf_udp_connect` and `iperf_udp_accept`. The size of the buffers that is
-- asked for is a field of the settings, which these functions may set.
use iperf.Base.{
  ℕ, ◌+◌, Bool, true, false, ◌||◌, Option, none, some, List, [], ◌∷◌, if◌then◌else◌, ◌==◌, ltb,
}
use iperf.Base.Int.{ℤ, pos, ltb_ℤ, ◌+ℤ◌, to_int}
use iperf.Sockets.{
  SockOpt, receive_buffer, send_buffer, Kernel, Process, Op, iesetbuf, iestreamconnect,
  iestreamlisten, set_errno, attempt, ◌then_do◌, ◌or_else◌, ignore, write_connect, write_reply,
  receive_from, connect_socket, receive_timeout, set_option, iestreamaccept, iestreamwrite,
  iestreamread,
}
use iperf.Sockets.Net.{Endpoint, netdial, netannounce}
use iperf.Sockets.Tcp.{
  SocketSettings, is_set, buffer_options, read_back, max_pacing_rate, common_sockopts, with_error,
}

-- -1, 0 and 1.
pub data Buffers : Type 0 where
  refused fit small : Buffers

abbrev pub is_small : Kernel → ℤ → SockOpt → Process → Bool
is_small k blksize opt w = ltb_ℤ (k.value w.calls opt) blksize

unfoldable pub set_and_read_send : Kernel → ℤ → Op
unfolding buffer_options read_back
set_and_read_send k n =
    buffer_options k (set_errno iesetbuf) n then_do read_back k set_errno n send_buffer

abbrev pub received_buffer : Kernel → ℤ → Bool → Bool × Process → Buffers × Process
received_buffer k blksize b (false, w) = (refused, w)
received_buffer k blksize b (true, w) =
    (if b || is_small k blksize receive_buffer w then small else fit, w)

abbrev pub sent_buffer : Kernel → ℤ → ℤ → Bool × Process → Buffers × Process
sent_buffer k n blksize (false, w) = (refused, w)
sent_buffer k n blksize (true, w) =
    received_buffer k blksize (is_small k blksize send_buffer w)
      (read_back k set_errno n receive_buffer w)

unfoldable pub buffercheck : Kernel → ℤ → ℤ → Process → Buffers × Process
unfolding set_and_read_send read_back
buffercheck k n blksize w = sent_buffer k n blksize (set_and_read_send k n w)

-- The result, with the size that is then asked for.
abbrev pub BuffersChecked : Type 0
BuffersChecked = Bool × ℤ × Process

abbrev pub checked_again : ℤ → Buffers × Process → BuffersChecked
checked_again n (refused, w) = (false, n, w)
checked_again n (fit, w) = (true, n, w)
checked_again n (small, w) = (true, n, w)

-- The size asked for in place of a default that is too small: an int.
abbrev pub enlarged : ℤ → ℤ
enlarged blksize = to_int (blksize +ℤ pos 1024)

abbrev pub checked : Kernel → ℤ → ℤ → Buffers × Process → BuffersChecked
checked k n blksize (refused, w) = (false, n, w)
checked k n blksize (fit, w) = (true, n, w)
checked k n blksize (small, w) =
    if is_set n
    then (true, n, w)
    else checked_again (enlarged blksize) (buffercheck k (enlarged blksize) blksize w)

-- A buffer of the default size that is too small for a block is enlarged.
unfoldable pub check_buffers : Kernel → ℤ → ℤ → Process → BuffersChecked
unfolding buffercheck
check_buffers k n blksize w = checked k n blksize (buffercheck k n blksize w)

unfoldable pub udp_listen : Kernel → Endpoint → Process → Option ℕ × Process
unfolding netannounce
udp_listen k a w = with_error iestreamlisten (netannounce k a false w)

-- What `recv` gives: none is an error, and otherwise the size and what stands in the buffer after it.
abbrev pub Answer : Type 0
Answer = Option (ℕ × ℕ)

abbrev pub is_reply : ℕ → Bool
is_reply buf = buf == 959985462 || buf == 987654321

-- The loop, with what was received so far: whether a reply has come.
unfoldable pub await_reply : ℕ → ℕ → List Answer → Option Bool
await_reply max_len i [] = none
await_reply max_len i (none ∷ rest) = some false
await_reply max_len i (some (sz, buf) ∷ rest) =
    let later = await_reply max_len (i + sz) rest in
    if is_reply buf then some true else if ltb (i + sz) max_len then later else some false

-- What iperf_udp_connect returns, and the size of the buffers.
abbrev pub UdpConnected : Type 0
UdpConnected = Option ℕ × ℤ × Process

unfoldable pub greet : Kernel → SocketSettings → Op
unfolding max_pacing_rate common_sockopts
greet k set =
    max_pacing_rate k set.rate_limit
    then_do ignore (common_sockopts k set)
    then_do ignore (attempt k (set_option receive_timeout (pos 30)))
    then_do attempt k write_connect or_else set_errno iestreamwrite

abbrev pub replied : ℕ → ℤ → Process → Option Bool → Option UdpConnected
replied s n w none = none
replied s n w (some true) = some (some s, n, w)
replied s n w (some false) = some (none, n, set_errno iestreamread w)

abbrev pub answered : ℕ → ℤ → Option Bool → Bool × Process → Option UdpConnected
answered s n reply (false, w) = some (none, n, w)
answered s n reply (true, w) = replied s n w reply

abbrev pub greeted :
    Kernel → SocketSettings → ℕ → Option Bool → BuffersChecked → Option UdpConnected
greeted k set s reply (false, n, w) = some (none, n, w)
greeted k set s reply (true, n, w) = answered s n reply (greet k set w)

abbrev pub dialled :
    Kernel → SocketSettings → ℤ → Option Bool → Option ℕ × Process → Option UdpConnected
dialled k set blksize reply (none, w) = some (none, set.socket_bufsize, w)
dialled k set blksize reply (some s, w) =
    greeted k set s reply (check_buffers k set.socket_bufsize blksize w)

-- In reverse mode two blocks more may come before the reply.
abbrev pub longest_wait : Bool → ℕ → ℕ
longest_wait reverse blksize = if reverse then 4 + (blksize + blksize) else 4

unfoldable pub udp_connect :
    Kernel → SocketSettings → Bool → ℕ → List Answer → Process → Option UdpConnected
unfolding netdial check_buffers greet await_reply
udp_connect k set reverse blksize answers w =
    dialled k set (pos blksize) (await_reply (longest_wait reverse blksize) 0 answers)
      (with_error iestreamconnect (netdial k set.endpoint false w))

-- What iperf_udp_accept returns, `prot_listener`, where none is -1, and the size of the buffers.
abbrev pub UdpAccepted : Type 0
UdpAccepted = Option ℕ × Option ℕ × ℤ × Process

abbrev pub confirmed : ℕ → ℕ → ℤ → Bool × Process → UdpAccepted
confirmed s p n (true, w) = (some s, some p, n, w)
confirmed s p n (false, w) = (none, some p, n, w)

abbrev pub relisten : Kernel → ℕ → ℤ → Option ℕ × Process → UdpAccepted
relisten k s n (none, w) = (none, none, n, set_errno iestreamlisten w)
relisten k s n (some p, w) =
    confirmed s p n ((attempt k write_reply or_else set_errno iestreamwrite) w)

abbrev pub sized : Kernel → SocketSettings → ℕ → BuffersChecked → UdpAccepted
sized k set s (false, n, w) = (none, some s, n, w)
sized k set s (true, n, w) =
    relisten k s n (netannounce k set.endpoint false (max_pacing_rate k set.rate_limit w).1)

abbrev pub met : Kernel → SocketSettings → ℕ → ℕ → Bool × Process → UdpAccepted
met k set s blksize (false, w) = (none, some s, set.socket_bufsize, w)
met k set s blksize (true, w) = sized k set s (check_buffers k set.socket_bufsize (pos blksize) w)

-- `s` is the `prot_listener` before.
unfoldable pub udp_accept : Kernel → SocketSettings → ℕ → ℕ → Process → UdpAccepted
unfolding netannounce check_buffers max_pacing_rate
udp_accept k set s blksize w = met k set s blksize (
    (attempt k receive_from or_else set_errno iestreamaccept
        then_do attempt k connect_socket or_else set_errno iestreamaccept)
      w)
