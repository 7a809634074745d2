-- ===== src/Sockets/Leaving.antt =====
-- src/iperf_udp.c: what the functions of UDP leave open, whatever call fails.
use iperf.Base.{
  ℕ, ◌≡◌, refl, Bool, true, false, Option, none, some, List, ◌∷◌, ◌⊎◌, inl, inr, Bool-cases,
}
use iperf.Base.Int.{ℤ, pos}
use iperf.Sockets.{
  receive_buffer, send_buffer, Kernel, Process, set_errno, iesetbuf, iestreamaccept, iestreamwrite,
  iestreamconnect, write_connect, write_reply, receive_from, connect_socket, receive_timeout,
  set_option,
}
use iperf.Sockets.Net.{netdial}
use iperf.Sockets.Triples.{After, Opens, Step, Step-then_do, Step-or_else}
use iperf.Sockets.Releasing.{Has, Step-attempt}
use iperf.Sockets.Dialling.{netannounce-Opens, netdial-Opens}
use iperf.Sockets.Tcp.{SocketSettings, is_set, read_back, with_error}
use iperf.Sockets.Connections.{
  Step-buffer_options, Step-read_back, Step-max_pacing_rate, Step-common_sockopts, Step-ignore,
}
use iperf.Sockets.Datagrams.{
  enlarged, Buffers, refused, fit, small, is_small, set_and_read_send, received_buffer, sent_buffer,
  buffercheck, BuffersChecked, checked_again, checked, check_buffers, UdpAccepted, confirmed,
  relisten, sized, met, udp_accept, UdpConnected, greet, replied, answered, greeted, dialled,
  udp_connect, Answer,
}

-- Either way the same holds.
always : (P : Process → Type 0) (r : Bool × Process) → After P P r → P r.1
always P (true, w) h = h
always P (false, w) h = h

module _ (l : List ℕ) (n : ℕ) (k : Kernel) where
  Step-set_and_read_send :
      (bufsize : ℤ) → Step (Has l n) (set_and_read_send k bufsize) (Has l n) (Has l n)
  unfolding set_and_read_send
  Step-set_and_read_send bufsize =
      Step-then_do (Step-buffer_options k (set_errno iesetbuf) bufsize (λ w h. h))
        (Step-read_back k set_errno bufsize send_buffer (λ e w h. h))

  received_buffer-Has :
      (blksize : ℤ) (b : Bool) (r : Bool × Process)
      → Has l n r.1
      → Has l n (received_buffer k blksize b r).1
  received_buffer-Has blksize b (true, w) h = h
  received_buffer-Has blksize b (false, w) h = h

  sent_buffer-Has :
      (bufsize blksize : ℤ) (r : Bool × Process)
      → Has l n r.1
      → Has l n (sent_buffer k bufsize blksize r).1
  sent_buffer-Has bufsize blksize (true, w) h =
      received_buffer-Has blksize (is_small k blksize send_buffer w)
        (read_back k set_errno bufsize receive_buffer w)
        (always (Has l n) _ (
          (Step-read_back {l = l} {n = n} k set_errno bufsize receive_buffer (λ e w h. h)).run w h))
  sent_buffer-Has bufsize blksize (false, w) h = h

  buffercheck-Has :
      (bufsize blksize : ℤ) (w : Process) → Has l n w → Has l n (buffercheck k bufsize blksize w).1
  unfolding buffercheck
  buffercheck-Has bufsize blksize w h =
      sent_buffer-Has bufsize blksize (set_and_read_send k bufsize w)
        (always (Has l n) _ ((Step-set_and_read_send bufsize).run w h))

  checked_again-Has :
      (bufsize : ℤ) (r : Buffers × Process) → Has l n r.1 → Has l n (checked_again bufsize r).2
  checked_again-Has bufsize (refused, w) h = h
  checked_again-Has bufsize (fit, w) h = h
  checked_again-Has bufsize (small, w) h = h

  checked-Has :
      (bufsize blksize : ℤ) (r : Buffers × Process)
      → Has l n r.1
      → Has l n (checked k bufsize blksize r).2
  checked-Has bufsize blksize (refused, w) h = h
  checked-Has bufsize blksize (fit, w) h = h
  checked-Has bufsize blksize (small, w) h = elim (Bool-cases (is_set bufsize)) [
    | inl e ↦ rw e h
    | inr e ↦
        rw e
          (checked_again-Has (enlarged blksize) _ (buffercheck-Has (enlarged blksize) blksize w h))
  ]

  pub check_buffers-Has :
      (bufsize blksize : ℤ) (w : Process)
      → Has l n w
      → Has l n (check_buffers k bufsize blksize w).2
  unfolding check_buffers
  check_buffers-Has bufsize blksize w h =
      checked-Has bufsize blksize _ (buffercheck-Has bufsize blksize w h)

  -- The socket of the stream is open, and a new listener if there is one.
  abbrev pub Left : ℕ → UdpAccepted → Type 0
  Left s (some r, some p, b, w) = (r ≡ s) × Has (p ∷ l) n w
  Left s (none, some p, b, w) = (p ≡ s × Has l n w) ⊎ Has (p ∷ l) n w
  Left s (none, none, b, w) = Has l n w
  Left s (some r, none, b, w) = true ≡ false

  confirmed-Left :
      (s p : ℕ) (b : ℤ) (r : Bool × Process) → Has (p ∷ l) n r.1 → Left s (confirmed s p b r)
  confirmed-Left s p b (true, w) h = (refl, h)
  confirmed-Left s p b (false, w) h = inr h

  relisten-Left :
      (s : ℕ) (b : ℤ) (r : Option ℕ × Process)
      → Opens (λ p. Has (p ∷ l) n) (Has l n) r
      → Left s (relisten k s b r)
  relisten-Left s b (none, w) h = h
  relisten-Left s b (some p, w) h = confirmed-Left s p b _ (
      always (Has (p ∷ l) n) _ (
        (Step-or_else (set_errno iestreamwrite) (Step-attempt {l = p ∷ l} {n = n} k write_reply)
            (λ w h. h)).run
          w h))

  sized-Left :
      (set : SocketSettings) (s : ℕ) (r : BuffersChecked) → Has l n r.2 → Left s (sized k set s r)
  sized-Left set s (false, b, w) h = inl (refl, h)
  sized-Left set s (true, b, w) h = relisten-Left s b _ (
      netannounce-Opens k set.endpoint false l n _
        (always (Has l n) _ ((Step-max_pacing_rate {C = Has l n} k set.rate_limit).run w h)))

  met-Left :
      (set : SocketSettings) (s blksize : ℕ) (r : Bool × Process)
      → Has l n r.1
      → Left s (met k set s blksize r)
  met-Left set s blksize (false, w) h = inl (refl, h)
  met-Left set s blksize (true, w) h =
      sized-Left set s _ (check_buffers-Has set.socket_bufsize (pos blksize) w h)

  -- Whatever calls fail, iperf_udp_accept closes nothing. Where it succeeds the old listener has become the stream and
  -- a new one is open; where it fails the old one is still the listener, or it is not, and then stays open all the same.
  pub udp_accept-Left :
      (set : SocketSettings) (s blksize : ℕ) (w : Process)
      → Has l n w
      → Left s (udp_accept k set s blksize w)
  unfolding udp_accept
  udp_accept-Left set s blksize w h = met-Left set s blksize _ (
      always (Has l n) _ (
        (Step-then_do
            (Step-or_else (set_errno iestreamaccept) (Step-attempt {l = l} {n = n} k receive_from)
              (λ w h. h))
            (Step-or_else (set_errno iestreamaccept) (Step-attempt k connect_socket)
              (λ w h. h))).run
          w h))

  -- What iperf_udp_connect leaves open once it has a socket.
  abbrev pub HasSocket : Option UdpConnected → Type 0
  HasSocket none = true ≡ true
  HasSocket (some (r, b, w)) = Has l n w

  replied-HasSocket :
      (s : ℕ) (b : ℤ) (w : Process) (o : Option Bool) → Has l n w → HasSocket (replied s b w o)
  replied-HasSocket s b w none h = refl
  replied-HasSocket s b w (some true) h = h
  replied-HasSocket s b w (some false) h = h

  answered-HasSocket :
      (s : ℕ) (b : ℤ) (o : Option Bool) (r : Bool × Process)
      → Has l n r.1
      → HasSocket (answered s b o r)
  answered-HasSocket s b o (true, w) h = replied-HasSocket s b w o h
  answered-HasSocket s b o (false, w) h = h

  Step-greet : (set : SocketSettings) → Step (Has l n) (greet k set) (Has l n) (Has l n)
  unfolding greet
  Step-greet set =
      Step-then_do
        (Step-then_do
          (Step-then_do (Step-max_pacing_rate k set.rate_limit)
            (Step-ignore (Step-common_sockopts k set)))
          (Step-ignore (Step-attempt k (set_option receive_timeout (pos 30)))))
        (Step-or_else (set_errno iestreamwrite) (Step-attempt k write_connect) (λ w h. h))

  greeted-HasSocket :
      (set : SocketSettings) (s : ℕ) (o : Option Bool) (r : BuffersChecked)
      → Has l n r.2
      → HasSocket (greeted k set s o r)
  greeted-HasSocket set s o (false, b, w) h = h
  greeted-HasSocket set s o (true, b, w) h =
      answered-HasSocket s b o _ (always (Has l n) _ ((Step-greet set).run w h))

  pub dialled-HasSocket :
      (set : SocketSettings) (blksize : ℤ) (o : Option Bool) (s : ℕ) (w : Process)
      → Has l n w
      → HasSocket (dialled k set blksize o (some s, w))
  dialled-HasSocket set blksize o s w h =
      greeted-HasSocket set s o _ (check_buffers-Has set.socket_bufsize blksize w h)

-- How it ends: without a socket, or with one.
abbrev pub SocketOr : Kernel → List ℕ → ℕ → (Option ℕ × Process) → Option UdpConnected → Type 0
SocketOr k l n (none, w) r = HasSocket l n k r
SocketOr k l n (some s, w) r = HasSocket (s ∷ l) n k r

by_dial :
    (k : Kernel) (set : SocketSettings) (l : List ℕ) (n : ℕ) (blksize : ℤ) (o : Option Bool)
    (r : Option ℕ × Process)
    → Opens (λ s. Has (s ∷ l) n) (Has l n) r
    → SocketOr k l n r (dialled k set blksize o (with_error iestreamconnect r))
by_dial k set l n blksize o (none, w) h = h
by_dial k set l n blksize o (some s, w) h = dialled-HasSocket (s ∷ l) n k set blksize o s w h

-- Once netdial has given it a socket, iperf_udp_connect leaves the socket open, not only where it returns it but
-- also where it fails.
pub udp_connect-SocketOr :
    (k : Kernel) (set : SocketSettings) (reverse : Bool) (blksize : ℕ) (answers : List Answer)
    (l : List ℕ) (n : ℕ) (w : Process)
    → Has l n w
    → SocketOr k l n (netdial k set.endpoint false w) (udp_connect k set reverse blksize answers w)
unfolding udp_connect
udp_connect-SocketOr k set reverse blksize answers l n w h =
    by_dial k set l n (pos blksize) _ (netdial k set.endpoint false w)
      (netdial-Opens k set.endpoint false l n w h)
