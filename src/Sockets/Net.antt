-- ===== src/Sockets/Net.antt =====
-- src/net.c: `create_socket`, `timeout_connect`, `netdial` and `netannounce`.
use iperf.Base.{ℕ, ◌+◌, Bool, true, false, ◌&&◌, ◌||◌, Option, none, ◌∷◌, if◌then◌else◌}
use iperf.Base.Int.{ℤ, pos, eqb_ℤ}
use iperf.Sockets.{
  Call, Connecting, Family, Kernel, Op, Polled, Process, act, attempt, bind_socket, bind_to_device,
  broken, choose, close, connect_socket, connected, continue, freeaddrinfo, get_option, in_progress,
  inet, inet6, late, listen_socket, make_socket, not_connected, opened, other, poll_socket, ready,
  resolve_local, resolve_passive, resolve_server, restore_flags, reuse_address, set_nonblocking,
  set_option, so_error, unspec, v6_only, when_needed, with_socket, ◌or_else◌, ◌then_do◌,
}

unfoldable pub new_socket : Kernel → (Process → Process) → Bool × Process → Option ℕ × Process
new_socket k cleanup (false, w) = (none, w)
new_socket k cleanup (true, w) =
    opened k cleanup (k.succeeds w.calls make_socket) (record w { calls = make_socket ∷ w.calls })

abbrev pub resolved : Bool × Process → Bool × Process
resolved (true, w) = (true, record w { addresses = w.addresses + 1 })
resolved (false, w) = (false, w)

unfoldable pub resolve : Kernel → Call → Op
resolve k c w = resolved (attempt k c w)

-- The arguments of `create_socket`, as far as they decide what it does, and of `netannounce`.
pub record Endpoint : Type 0 where
  pub domain : Family
  pub has_local : Bool
  pub bind_dev : Bool
  pub has_bindtodevice : Bool
  pub has_local_port : Bool

unfoldable pub free_local : Endpoint → Process → Process
unfolding freeaddrinfo
free_local a w = if a.has_local then freeaddrinfo w else w

unfoldable pub abandon : ℕ → Process → Process
unfolding close freeaddrinfo
abandon s w = freeaddrinfo (close s w)

unfoldable pub bind_device : Kernel → Endpoint → (Process → Process) → Op
bind_device k a cleanup = when_needed a.bind_dev (
    choose a.has_bindtodevice (attempt k (set_option bind_to_device (pos 0))) (λ w. (false, w))
    or_else cleanup)

abbrev pub is_ip : Family → Bool
is_ip inet = true
is_ip inet6 = true
is_ip _ = false

unfoldable pub bind_local : Kernel → Endpoint → ℕ → Op
unfolding free_local abandon freeaddrinfo
bind_local k a s =
    choose a.has_local
      (attempt k bind_socket or_else (λ w. free_local a (abandon s w)) then_do act freeaddrinfo)
      (when_needed a.has_local_port (
        (λ w. (is_ip (k.family w.calls), w)) or_else abandon s
        then_do attempt k bind_socket or_else abandon s))

unfoldable pub resolve_both : Kernel → Endpoint → Op
unfolding resolve free_local
resolve_both k a =
    when_needed a.has_local (resolve k resolve_local)
    then_do resolve k resolve_server or_else free_local a

-- The addresses of the server are not yet freed.
unfoldable pub create_socket : Kernel → Endpoint → Process → Option ℕ × Process
unfolding bind_device bind_local resolve_both new_socket free_local freeaddrinfo abandon
create_socket k a w =
    with_socket (λ s. bind_device k a (λ w. free_local a (abandon s w)) then_do bind_local k a s)
      (new_socket k (λ w. freeaddrinfo (free_local a w)) (resolve_both k a w))

unfoldable pub poll_connect : Kernel → Polled → Op
poll_connect k ready w =
    continue (λ w. (eqb_ℤ (k.value w.calls so_error) (pos 0), w))
      (attempt k (get_option so_error) w)
poll_connect k late w = (false, w)
poll_connect k broken w = (false, w)

unfoldable pub await_connect : Kernel → Connecting → Op
unfolding poll_connect
await_connect k connected w = (true, w)
await_connect k in_progress w =
    poll_connect k (k.polled w.calls) (record w { calls = poll_socket ∷ w.calls })
await_connect k not_connected w = (false, w)

abbrev pub restore : Kernel → Bool → Bool × Process → Bool × Process
restore k false (ok, w) = (ok, w)
restore k true (ok, w) = (ok && (attempt k restore_flags w).0, (attempt k restore_flags w).1)

abbrev pub start_connect : Kernel → Op
start_connect k w =
    await_connect k (k.connecting w.calls) (record w { calls = connect_socket ∷ w.calls })

-- `timed` is a timeout other than -1.
unfoldable pub timeout_connect : Kernel → Bool → Op
unfolding await_connect
timeout_connect k timed =
    when_needed timed (attempt k set_nonblocking) then_do (λ w. restore k timed (start_connect k w))

unfoldable pub netdial : Kernel → Endpoint → Bool → Process → Option ℕ × Process
unfolding create_socket timeout_connect abandon freeaddrinfo
netdial k a timed w =
    with_socket (λ s. timeout_connect k timed or_else abandon s then_do act freeaddrinfo)
      (create_socket k a w)

-- The family that is asked of the resolver.
abbrev pub passive_family : Family → Bool → Family
passive_family unspec false = inet6
passive_family unspec true = unspec
passive_family inet _ = inet
passive_family inet6 _ = inet6
passive_family other _ = other

abbrev pub is_family : Family → Family → Bool
is_family unspec unspec = true
is_family inet inet = true
is_family inet6 inet6 = true
is_family other other = true
is_family _ _ = false

abbrev pub v6_only_value : Family → ℤ
v6_only_value unspec = pos 0
v6_only_value _ = pos 1

-- `stream` is SOCK_STREAM.
unfoldable pub netannounce : Kernel → Endpoint → Bool → Process → Option ℕ × Process
unfolding new_socket resolve bind_device abandon close freeaddrinfo
netannounce k a stream w =
    with_socket
      (λ s.
        bind_device k a (abandon s)
        then_do attempt k (set_option reuse_address (pos 1)) or_else abandon s
        then_do (λ w.
            when_needed
              (is_family (k.family w.calls) inet6
                && (is_family a.domain unspec || is_family a.domain inet6))
              (attempt k (set_option v6_only (v6_only_value a.domain)) or_else abandon s) w)
        then_do attempt k bind_socket or_else abandon s
        then_do act freeaddrinfo
        then_do when_needed stream (attempt k listen_socket or_else close s))
      (new_socket k freeaddrinfo
        (resolve k (resolve_passive (passive_family a.domain a.has_local)) w))
