-- ===== src/Control/Session/Phases.antt =====
-- The phases of a session.
use iperf.Base.{ℕ, ◌≡◌, Bool, true, false, none, some, List, [], ◌∷◌, arith}
use iperf.State.{test_running, to_byte, of_byte, is_positive_state}
use iperf.Control.{Control, is_quic}
use iperf.Control.Client.{handle_message_client, end_if_finished}
use iperf.Control.Exchange.{exchange_parameters}
use iperf.Control.Server.{iperf_accept, begin_test, handle_message_server}
use iperf.Control.Session.{
  Session, server_calls, sockets, unlimited, Action, work, step, start, Reachable, started, after,
}

-- The states of the ends and the messages on their way; both have their connection.
pub record At (x : Session) (j k client_byte server_byte : ℕ) (to_client to_server : List ℕ)
    : Type 0 where
  pub client_at : to_byte x.client.state ≡ client_byte
  pub server_at : to_byte x.server.state ≡ server_byte
  pub client_hears : x.to_client ≡ to_client
  pub server_hears : x.to_server ≡ to_server
  pub client_connected : x.client.ctrl_sck ≡ some j
  pub server_connected : x.server.ctrl_sck ≡ some k
  pub not_quic : is_quic x.server ≡ false

pub data Phase : Type 0 where
  parameters_due parameters_sent streams_due start_due starting running : Phase
  end_due results_due results_sent finishing over : Phase

-- What each phase looks like, for connections `j` and `k`.
abbrev pub In : ℕ → ℕ → Phase → Session → Type 0
In j k parameters_due x = At x j k 0 10 (9 ∷ 10 ∷ []) []
In j k parameters_sent x = At x j k 9 10 (10 ∷ []) []
In j k streams_due x = At x j k 10 10 [] []
In j k start_due x = At x j k 10 2 (1 ∷ 2 ∷ []) []
In j k starting x = At x j k 1 2 (2 ∷ []) []
In j k running x = At x j k 2 2 [] []
In j k end_due x = At x j k 4 2 [] (4 ∷ [])
In j k results_due x = At x j k 4 14 (13 ∷ 14 ∷ []) []
In j k results_sent x = At x j k 13 14 (14 ∷ []) []
In j k finishing x = At x j k 16 14 [] (16 ∷ [])
In j k over x = At x j k 16 16 [] []

abbrev pub next : Phase → Phase
next parameters_due = parameters_sent
next parameters_sent = streams_due
next streams_due = start_due
next start_due = starting
next starting = running
next running = end_due
next end_due = results_due
next results_due = results_sent
next results_sent = finishing
next finishing = over
next over = over

start-Phase :
    (j k : ℕ) (c s : Control)
    → to_byte c.state ≡ 0
    → c.ctrl_sck ≡ some j
    → s.ctrl_sck ≡ none
    → is_quic s ≡ false
    → In j k parameters_due (start k c s)
unfolding start iperf_accept exchange_parameters to_byte
start-Phase j k c s h1 h2 h3 h4 = ground arith

-- Work goes on within a phase, and everything else ends it.
abbrev pub phase_after : Action → Phase → Phase
phase_after (work _ _ _ _) p = p
phase_after _ p = next p

abbrev Leads : ℕ → ℕ → Phase → Type 0
Leads j k p =
    (a : Action) (ok : Bool) (x y : Session)
    → In j k p x
    → step a x ≡ some (ok, y)
    → (ok ≡ true) × In j k (phase_after a p) y

from_parameters_due : (j k : ℕ) → Leads j k parameters_due
unfolding step handle_message_client handle_message_server end_if_finished begin_test
    exchange_parameters of_byte to_byte is_positive_state
from_parameters_due j k a ok x y h e = ground arith

from_parameters_sent : (j k : ℕ) → Leads j k parameters_sent
unfolding step handle_message_client handle_message_server end_if_finished begin_test
    exchange_parameters of_byte to_byte is_positive_state
from_parameters_sent j k a ok x y h e = ground arith

-- The start of the test announces TEST_START and TEST_RUNNING.
begins :
    (k : ℕ) (s : Control)
    → s.ctrl_sck ≡ some k
    → begin_test server_calls (sockets 0) unlimited (λ t. t) (s, [])
      ≡ (true, (record s { state = test_running }, 1 ∷ 2 ∷ []))
unfolding begin_test to_byte
begins k s h = ground arith

from_streams_due : (j k : ℕ) → Leads j k streams_due
unfolding step to_byte
from_streams_due j k a ok x y h e = ground (arith, begins k x.server h.server_connected)

from_start_due : (j k : ℕ) → Leads j k start_due
unfolding step handle_message_client handle_message_server end_if_finished begin_test
    exchange_parameters of_byte to_byte is_positive_state
from_start_due j k a ok x y h e = ground arith

from_starting : (j k : ℕ) → Leads j k starting
unfolding step handle_message_client handle_message_server end_if_finished begin_test
    exchange_parameters of_byte to_byte is_positive_state
from_starting j k a ok x y h e = ground arith

from_running : (j k : ℕ) → Leads j k running
unfolding step handle_message_client handle_message_server end_if_finished begin_test
    exchange_parameters of_byte to_byte is_positive_state
from_running j k a ok x y h e = ground arith

from_end_due : (j k : ℕ) → Leads j k end_due
unfolding step handle_message_client handle_message_server end_if_finished begin_test
    exchange_parameters of_byte to_byte is_positive_state
from_end_due j k a ok x y h e = ground arith

from_results_due : (j k : ℕ) → Leads j k results_due
unfolding step handle_message_client handle_message_server end_if_finished begin_test
    exchange_parameters of_byte to_byte is_positive_state
from_results_due j k a ok x y h e = ground arith

from_results_sent : (j k : ℕ) → Leads j k results_sent
unfolding step handle_message_client handle_message_server end_if_finished begin_test
    exchange_parameters of_byte to_byte is_positive_state
from_results_sent j k a ok x y h e = ground arith

from_finishing : (j k : ℕ) → Leads j k finishing
unfolding step handle_message_client handle_message_server end_if_finished begin_test
    exchange_parameters of_byte to_byte is_positive_state
from_finishing j k a ok x y h e = ground arith

from_over : (j k : ℕ) → Leads j k over
unfolding step handle_message_client handle_message_server end_if_finished begin_test
    exchange_parameters of_byte to_byte is_positive_state
from_over j k a ok x y h e = ground arith

-- Every action that can be taken succeeds, and leads to the phase that is due.
pub step-In : (j k : ℕ) (p : Phase) → Leads j k p
step-In j k parameters_due = from_parameters_due j k
step-In j k parameters_sent = from_parameters_sent j k
step-In j k streams_due = from_streams_due j k
step-In j k start_due = from_start_due j k
step-In j k starting = from_starting j k
step-In j k running = from_running j k
step-In j k end_due = from_end_due j k
step-In j k results_due = from_results_due j k
step-In j k results_sent = from_results_sent j k
step-In j k finishing = from_finishing j k
step-In j k over = from_over j k

-- A client with a connection and a server without one, neither of which has begun, the server not to speak
-- QUIC.
pub record Fresh (j : ℕ) (c s : Control) : Type 0 where
  pub client_unset : to_byte c.state ≡ 0
  pub has_connection : c.ctrl_sck ≡ some j
  pub is_free : s.ctrl_sck ≡ none
  pub other_protocol : is_quic s ≡ false

-- A session is in a phase.
pub Reachable-In :
    (j k : ℕ) (c s : Control) (z : Session)
    → Fresh j c s
    → Reachable k c s z
    → (p : Phase) × In j k p z
Reachable-In j k c s z f started =
    (parameters_due, start-Phase j k c s f.client_unset f.has_connection f.is_free f.other_protocol)
Reachable-In j k c s z f (after a ok w x r e) =
    let (p, h) = Reachable-In j k c s w f r in (phase_after a p, (step-In j k p a ok w x h e).1)

-- In a session of a client that has not begun and a free server that does not speak QUIC, over a
-- connection where no call fails and without a rate limit, whatever the order in which the two ends
-- act: every action that an end can take succeeds, so that no end ever meets a message that it does
-- not expect.
pub Reachable-succeeds :
    (j k : ℕ) (c s : Control) (x : Session)
    → Fresh j c s
    → Reachable k c s x
    → (a : Action) (ok : Bool) (y : Session) → step a x ≡ some (ok, y)
    → ok ≡ true
Reachable-succeeds j k c s x f r a ok y e =
    let (p, h) = Reachable-In j k c s x f r in (step-In j k p a ok x y h e).0
