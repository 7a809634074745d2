-- ===== src/Sockets.antt =====
-- The sockets of src/net.c, src/iperf_tcp.c and src/iperf_udp.c, over a kernel that may refuse any call.
-- A process has its open sockets and the lists of addresses that it has to free; freeing NULL does nothing.
use iperf.Base.{
  ℕ, suc, ◌+◌, ◌-◌, ◌≡◌, Bool, true, false, not, ◌&&◌, ◌||◌, Option, none, some, List, [], ◌∷◌,
  if◌then◌else◌, ◌==◌,
}
use iperf.Base.Int.{ℤ, pos, eqb_ℤ, ltb_ℤ}
pub mod Net
pub mod Triples
pub mod Releasing
pub mod Dialling
pub mod Connections
pub mod Listening
pub mod Datagrams
pub mod Leaving
pub mod Buffers
pub mod Tcp

pub data Family : Type 0 where
  unspec inet inet6 other : Family

pub data SockOpt : Type 0 where
  bind_to_device reuse_address v6_only no_delay max_segment : SockOpt
  receive_buffer send_buffer user_timeout flow_label flow_send max_pacing traffic_class tos
        receive_timeout so_error :
      SockOpt

-- A call of the kernel or of the resolver.
pub data Call : Type 0 where
  resolve_local resolve_server make_socket connect_socket poll_socket bind_socket listen_socket :
      Call
  accept_socket read_cookie write_cookie deny_access : Call
  receive_from write_connect write_reply : Call
  set_nonblocking restore_flags : Call
  resolve_passive : Family → Call
  set_option : SockOpt → ℤ → Call
  get_option : SockOpt → Call

pub data Connecting : Type 0 where
  connected in_progress not_connected : Connecting

-- What poll returns: 1, 0 and anything else.
pub data Polled : Type 0 where
  ready late broken : Polled

pub data NetError : Type 0 where
  iestreamconnect iestreamlisten iesendcookie ierecvcookie iesetnodelay iesetmss iesetbuf
        iesetbuf2 :
      NetError
  iesetusertimeout iesetflow iereuseaddr iev6only iesetcos iesettos : NetError
  iestreamaccept iestreamwrite iestreamread : NetError

-- Every answer may depend on all the calls before.
pub record Kernel : Type 0 where
  pub succeeds : List Call → Call → Bool
  pub value : List Call → SockOpt → ℤ
  pub family : List Call → Family
  pub connecting : List Call → Connecting
  pub polled : List Call → Polled
  pub new_descriptor : List Call → ℕ

-- `listener` is the field of the test. The last call comes first.
pub record Process : Type 0 where
  pub open_sockets : List ℕ
  pub addresses : ℕ
  pub listener : ℕ
  pub i_errno : Option NetError
  pub calls : List Call

-- True is success, and false -1.
abbrev pub Op : Type 0
Op = Process → Bool × Process

abbrev pub remove : ℕ → List ℕ → List ℕ
remove s [] = []
remove s (x ∷ xs) = let rest = remove s xs in if s == x then xs else x ∷ rest

unfoldable pub close : ℕ → Process → Process
close s w = record w { open_sockets = remove s w.open_sockets }

unfoldable pub freeaddrinfo : Process → Process
freeaddrinfo w = record w { addresses = w.addresses - 1 }

abbrev pub set_errno : NetError → Process → Process
set_errno e w = record w { i_errno = some e }

abbrev pub attempt : Kernel → Call → Op
attempt k c w = (k.succeeds w.calls c, record w { calls = c ∷ w.calls })

abbrev pub continue : Op → Bool × Process → Bool × Process
continue op (false, w) = (false, w)
continue op (true, w) = op w

infixl 5 ◌then_do◌
abbrev pub ◌then_do◌ : Op → Op → Op
(a then_do b) w = continue b (a w)

abbrev pub undo : (Process → Process) → Bool × Process → Bool × Process
undo cleanup (false, w) = (false, cleanup w)
undo cleanup (true, w) = (true, w)

infixl 6 ◌or_else◌
abbrev pub ◌or_else◌ : Op → (Process → Process) → Op
(a or_else cleanup) w = undo cleanup (a w)

abbrev pub act : (Process → Process) → Op
act f w = (true, f w)

abbrev pub choose : Bool → Op → Op → Op
choose true a b w = a w
choose false a b w = b w

abbrev pub when_needed : Bool → Op → Op
when_needed b a w = choose b a (act (λ w. w)) w

-- Its result is not looked at.
abbrev pub ignore : Op → Op
ignore a w = (true, (a w).1)

-- A call that opens a socket gives its descriptor.
abbrev pub finished : ℕ → Bool × Process → Option ℕ × Process
finished s (true, w) = (some s, w)
finished s (false, w) = (none, w)

abbrev pub with_socket : (ℕ → Op) → Option ℕ × Process → Option ℕ × Process
with_socket f (none, w) = (none, w)
with_socket f (some s, w) = finished s (f s w)

abbrev pub opened : Kernel → (Process → Process) → Bool → Process → Option ℕ × Process
opened k cleanup false w = (none, cleanup w)
opened k cleanup true w = (
  some (k.new_descriptor w.calls),
  record w { open_sockets = k.new_descriptor w.calls ∷ w.open_sockets },
)
