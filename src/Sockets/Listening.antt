-- ===== src/Sockets/Listening.antt =====
-- src/iperf_tcp.c: the listener of a server for the streams of a test.
use iperf.Base.{ℕ, suc, ◌≡◌, refl, Bool, true, false, ◌&&◌, ◌||◌, Option, none, some, List, ◌∷◌}
use iperf.Base.Int.{ℤ, pos}
use iperf.Sockets.{
  SockOpt, NetError, Kernel, Process, Op, close, freeaddrinfo, set_errno, attempt, ◌then_do◌,
  ◌or_else◌, act, iestreamlisten, iesetbuf, iesetbuf2, inet, inet6, unspec, resolve_passive,
  get_option, iesetnodelay, no_delay, iesetmss, max_segment, send_buffer, receive_buffer,
  iereuseaddr, reuse_address, iev6only, v6_only, bind_socket, listen_socket,
}
use iperf.Sockets.Net.{new_socket, resolve, is_family, v6_only_value, passive_family}
use iperf.Sockets.Triples.{After, Opens, Step, Opens-with_socket, Step-then_do, Step-or_else}
use iperf.Sockets.Releasing.{
  Has, close-Has, freeaddrinfo-Has, abandon-Has, either_way, Step-attempt, Step-act, Step-resolve,
  Opens-new_socket,
}
use iperf.Sockets.Tcp.{
  SocketSettings, is_set, closing, abandoning, is_enough, read_back, listener_options, new_listener,
  tcp_listen, failed, listener_for, needs_new,
}
use iperf.Sockets.Connections.{Step-buffer_options, Step-read_back, Step-socket_option}

Step-listener_options :
    {l : List ℕ} {n : ℕ} (k : Kernel) (set : SocketSettings) (s : ℕ)
    → Step (Has (s ∷ l) (suc n)) (listener_options k set s) (Has (s ∷ l) (suc n)) (Has l n)
unfolding listener_options
Step-listener_options {l = l} {n = n} k set s =
    Step-then_do
      (Step-then_do
        (Step-then_do
          (Step-then_do (Step-socket_option k s iesetnodelay set.nodelay no_delay (pos 1))
            (Step-socket_option k s iesetmss (is_set set.mss) max_segment set.mss))
          (Step-buffer_options k (abandoning s iesetbuf) set.socket_bufsize (abandon-Has s l n)))
        (Step-socket_option k s iereuseaddr true reuse_address (pos 1)))
      (record {
        run = λ w h.
            (Step-socket_option k s iev6only (only_v6 w) v6_only
                (v6_only_value set.endpoint.domain)).run
              w h;
      })
  where
    only_v6 : Process → Bool
    only_v6 w =
        is_family (k.family w.calls) inet6
        && (is_family set.endpoint.domain unspec || is_family set.endpoint.domain inet)

failed-After :
    (Q : Process → Type 0) (l : List ℕ) (n : ℕ) (e : NetError) (r : Bool × Process)
    → After Q (Has l n) r
    → After Q (Has l n) (failed e r)
failed-After Q l n e (true, w) h = h
failed-After Q l n e (false, w) h = h

new_listener-Opens :
    (k : Kernel) (set : SocketSettings) (l : List ℕ) (n : ℕ) (w : Process)
    → Has (w.listener ∷ l) n w
    → Opens (λ s. Has (s ∷ l) n) (Has l n) (new_listener k set w)
unfolding new_listener
new_listener-Opens k set l n w h =
    Opens-with_socket (λ s. Has (s ∷ l) (suc n)) (λ s. Has (s ∷ l) n) (Has l n) _ _
      (λ s.
        Step-then_do
          (Step-then_do
            (Step-then_do
              (Step-then_do (Step-listener_options k set s) (
                Step-or_else (abandoning s iestreamlisten) (Step-attempt k bind_socket)
                  (abandon-Has s l n)))
              (Step-act freeaddrinfo (freeaddrinfo-Has (s ∷ l) n)))
            (Step-or_else (closing s iestreamlisten) (Step-attempt k listen_socket)
              (close-Has s l n)))
          (Step-act (λ w. record w { listener = s }) (λ w h. h)))
      (Opens-new_socket l (suc n) n k (λ w. set_errno iestreamlisten (freeaddrinfo w)) _
        (freeaddrinfo-Has l n)
        (failed-After (Has l (suc n)) l n iestreamlisten _ (
          (Step-resolve k
              (resolve_passive (passive_family set.endpoint.domain set.endpoint.has_local))).run
            (close w.listener w) (close-Has w.listener l n w h))))

listener_for-Opens :
    (k : Kernel) (set : SocketSettings) (b : Bool) (l : List ℕ) (n : ℕ) (w : Process)
    → Has (w.listener ∷ l) n w
    → Opens (λ s. Has (s ∷ l) n) (Has l n) (listener_for k set b w)
listener_for-Opens k set true l n w h = new_listener-Opens k set l n w h
listener_for-Opens k set false l n w h = h

-- The listener of the test is the socket.
abbrev pub Listens : ℕ → Process → Type 0
Listens s w = w.listener ≡ s

abbrev Any : Process → Type 0
Any w = true ≡ true

Step-Any : (a : Op) → Step Any a Any Any
Step-Any a = record { run = λ w h. any (a w) }
  where
    any : (r : Bool × Process) → After Any Any r
    any (true, w) = refl
    any (false, w) = refl

new_listener-Listens :
    (k : Kernel) (set : SocketSettings) (w : Process) → Opens Listens Any (new_listener k set w)
unfolding new_listener
new_listener-Listens k set w =
    Opens-with_socket (λ s. Any) Listens Any _ _
      (λ s.
        Step-then_do
          (Step-Any (
            listener_options k set s
            then_do attempt k bind_socket or_else abandoning s iestreamlisten
            then_do act freeaddrinfo
            then_do attempt k listen_socket or_else closing s iestreamlisten))
          (sets s))
      (any (
        new_socket k (λ w. set_errno iestreamlisten (freeaddrinfo w))
          (failed iestreamlisten (
            resolve k (resolve_passive (passive_family set.endpoint.domain set.endpoint.has_local))
              (close w.listener w)))))
  where
    sets : (s : ℕ) → Step Any (act (λ w. record w { listener = s })) (Listens s) Any
    sets s = record { run = λ w h. refl }

    any : (r : Option ℕ × Process) → Opens (λ s. Any) Any r
    any (none, w) = refl
    any (some s, w) = refl

listener_for-Listens :
    (k : Kernel) (set : SocketSettings) (b : Bool) (w : Process)
    → Opens Listens Any (listener_for k set b w)
listener_for-Listens k set true w = new_listener-Listens k set w
listener_for-Listens k set false w = refl

Step-read_back-Listens :
    (k : Kernel) (s : ℕ) (v : ℤ) (opt : SockOpt)
    → Step (Listens s) (read_back k (closing s) v opt) (Listens s) Any
unfolding read_back
Step-read_back-Listens k s v opt =
    Step-then_do
      (Step-or_else (closing s iesetbuf) (keeps (attempt k (get_option opt)) (λ w h. h))
        (λ w h. refl))
      (Step-or_else (closing s iesetbuf2)
        (keeps (λ w. (is_enough v (k.value w.calls opt), w)) (λ w h. h)) (λ w h. refl))
  where
    keeps :
        (a : Op)
        → ((w : Process) → Listens s w → Listens s (a w).1)
        → Step (Listens s) a (Listens s) (Listens s)
    keeps a g = record { run = λ w h. either_way (Listens s) (a w).0 (a w).1 (g w h) }

tcp_listen-Opens :
    (k : Kernel) (set : SocketSettings) (l : List ℕ) (n : ℕ) (w : Process)
    → Has (w.listener ∷ l) n w
    → Opens (λ s. Has (s ∷ l) n) (Has l n) (tcp_listen k set w)
unfolding tcp_listen
tcp_listen-Opens k set l n w h =
    Opens-with_socket (λ s. Has (s ∷ l) n) (λ s. Has (s ∷ l) n) (Has l n) _ _
      (λ s.
        let gone = close-Has s l n in
        Step-then_do (Step-read_back k (closing s) set.socket_bufsize send_buffer (λ e. gone))
          (Step-read_back k (closing s) set.socket_bufsize receive_buffer (λ e. gone)))
      (listener_for-Opens k set (needs_new set) l n w h)

tcp_listen-Listens :
    (k : Kernel) (set : SocketSettings) (w : Process) → Opens Listens Any (tcp_listen k set w)
unfolding tcp_listen
tcp_listen-Listens k set w =
    Opens-with_socket Listens Listens Any _ _
      (λ s.
        Step-then_do (Step-read_back-Listens k s set.socket_bufsize send_buffer)
          (Step-read_back-Listens k s set.socket_bufsize receive_buffer))
      (listener_for-Listens k set (needs_new set) w)

Opens-both :
    (Q Q' : ℕ → Process → Type 0) (C C' : Process → Type 0) (r : Option ℕ × Process)
    → Opens Q C r
    → Opens Q' C' r
    → Opens (λ s w. Q s w × Q' s w) C r
Opens-both Q Q' C C' (none, w) g h = g
Opens-both Q Q' C C' (some s, w) g h = (g, h)

-- With the listener of the test open, whatever calls fail, iperf_tcp_listen frees its lists of addresses and leaves
-- open the listener of the test, which it returns, and no other socket; where it fails that one is closed too.
pub tcp_listen-IsListening :
    (k : Kernel) (set : SocketSettings) (l : List ℕ) (n : ℕ) (w : Process)
    → Has (w.listener ∷ l) n w
    → Opens (λ s w'. Has (s ∷ l) n w' × Listens s w') (Has l n) (tcp_listen k set w)
tcp_listen-IsListening k set l n w h =
    Opens-both (λ s. Has (s ∷ l) n) Listens (Has l n) Any (tcp_listen k set w)
      (tcp_listen-Opens k set l n w h) (tcp_listen-Listens k set w)
