-- ===== src/Control/Session.antt =====
-- A client and a server over a working control connection: src/iperf_client_api.c and
-- src/iperf_server_api.c together. Each end handles the messages of the other in order, at any time; the
-- ends share nothing but the two queues, and that the server's streams are there when the client made them.
use iperf.Base.{
  ℕ, zero, suc, ◌+◌, ◌≡◌, refl, Bool, true, false, Option, none, some, List, [], ◌∷◌, ◌++◌,
  if◌then◌else◌, ◌==◌, ◌&&◌, not, arith,
}
use iperf.State.{State, to_byte, of_byte}
use iperf.Test.{server}
use iperf.Control.{Control, message, Op, Act, Calls}
use iperf.Control.Wire.{wire, working, write_number}
use iperf.Control.Client.{handle_message_client, end_if_finished, is_finished}
use iperf.Control.Exchange.{Exchange, exchange_parameters}
use iperf.Control.Server.{Sockets, Limits, iperf_accept, begin_test, handle_message_server}
pub mod Phases
pub mod Finishing

pub record Session : Type 0 where
  pub client : Control
  pub server : Control
  pub to_client : List ℕ
  pub to_server : List ℕ

abbrev pub client_calls : Calls (List ℕ)
client_calls = wire working

abbrev pub accepted : Exchange (List ℕ)
accepted = record {
  send_parameters = working;
  get_parameters = working;
  is_authorized = working;
  listen = working;
  write_int = write_number;
  errno = λ w. 0;
}

abbrev pub server_calls : Calls (List ℕ)
server_calls = wire (exchange_parameters (wire working) accepted true server)

-- Sockets that work, for a connection of this number, and a server without a limit.
abbrev pub sockets : ℕ → Sockets (List ℕ)
sockets k = record {
  accept = λ w. (some k, w);
  set_nodelay = λ s w. (true, w);
  set_user_timeout = λ s w. (true, w);
  set_keepalive = working;
  read_cookie = λ s w. (true, w);
  set_affinity = λ s w. (true, w);
  send_denied = λ s w. w;
  close = λ s w. w;
}

abbrev pub unlimited : Limits
unlimited = record {
  snd_timeout = 0;
  server_affinity = none;
  num_streams = 1;
  rate = 0;
  bitrate_limit = 0;
}

-- The server has accepted the client.
unfoldable pub start : ℕ → Control → Control → Session
start k c s =
    let (_, (s', out)) = iperf_accept server_calls (sockets k) unlimited (s, []) in
    record { client = c; server = s'; to_client = out; to_server = [] }

-- What the ends do. `work` is the client's test going on: time is up, the omitted time is over, and the
-- counters grow.
pub data Action : Type 0 where
  client_read server_read server_begin client_check : Action
  work : Bool → Bool → ℕ → ℕ → Action

abbrev pub is_at : ℕ → Control → Bool
is_at b c = to_byte c.state == b

abbrev pub client_did : Bool × (Control × List ℕ) → List ℕ → Session → Bool × Session
client_did (ok, (c, out)) queue x =
    (ok, record x { client = c; to_client = queue; to_server = x.to_server ++ out })

abbrev pub server_did : Bool × (Control × List ℕ) → List ℕ → Session → Bool × Session
server_did (ok, (s, out)) queue x =
    (ok, record x { server = s; to_server = queue; to_client = x.to_client ++ out })

-- The loops of the two ends read until IPERF_DONE.
abbrev pub client_reads : List ℕ → Session → Option (Bool × Session)
client_reads [] x = none
client_reads (b ∷ queue) x =
    if is_at 16 x.client
    then none
    else some (client_did (handle_message_client client_calls (message b) (x.client, [])) queue x)

abbrev pub server_reads : List ℕ → Session → Option (Bool × Session)
server_reads [] x = none
server_reads (b ∷ queue) x =
    if is_at 16 x.server
    then none
    else some (server_did (handle_message_server server_calls (message b) (x.server, [])) queue x)

-- One action: whether it succeeded and what it leads to, or none where it cannot be taken.
unfoldable pub step : Action → Session → Option (Bool × Session)
step client_read x = client_reads x.to_client x
step server_read x = server_reads x.to_server x
step server_begin x =
    if is_at 10 x.server && is_at 10 x.client
    then some (
        server_did (begin_test server_calls (sockets 0) unlimited (λ s. s) (x.server, []))
          x.to_server x)
    else none
step client_check x =
    if is_at 2 x.client && is_finished client_calls x.client
    then some (client_did (end_if_finished client_calls (x.client, [])) x.to_client x)
    else none
step (work done omitting sent blocks) x =
    if is_at 2 x.client
    then some (
      true,
      record x {
        client = record (x.client) {
          done = done;
          omitting = omitting;
          bytes_sent = sent;
          blocks_sent = blocks;
        };
      },
    )
    else none

-- The sessions that actions lead to from a start.
pub data Reachable (k : ℕ) (c s : Control) : Session → Type 0 where
  started : Reachable k c s (start k c s)
  after :
      (a : Action) (ok : Bool) (x y : Session)
      → Reachable k c s x
      → step a x ≡ some (ok, y)
      → Reachable k c s y

-- A sequence of actions, each of which can be taken and succeeds.
unfoldable pub run : List Action → Session → Option Session
run [] x = some x
run (a ∷ rest) x = elim (step a x) [
  | none ↦ none
  | some (ok, y) ↦ elim ok [ true ↦ run rest y | false ↦ none ]
]
