-- ===== src/Control/Exchange/Report.antt =====
-- src/iperf_api.c and src/iperf_client_api.c: an error of the server in the exchange of parameters is what
-- the client ends with.
use iperf.Base.{ℕ, ◌≡◌, Bool, true, false, some, List, [], ◌∷◌, arith}
use iperf.State.{server_error, to_byte, of_byte}
use iperf.Test.{server}
use iperf.Control.{Control, message, Op, ieauthtest}
use iperf.Control.Client.{handle_message_client}
use iperf.Control.Wire.{wire, working, write_number}
use iperf.Control.Exchange.{Exchange, exchange_parameters}

-- What can go wrong on the server: its `i_errno` after reading the parameters, the authorization, or after
-- `listen`.
pub data Trouble : Type 0 where
  bad_parameters : ℕ → Trouble
  not_authorized : Trouble
  no_listener : ℕ → Trouble

abbrev failing_with : ℕ → Op (List ℕ)
failing_with e (c, w) = (false, (record c { i_errno = e }, w))

abbrev refusing : Op (List ℕ)
refusing s = (false, s)

-- The number that the server ends with.
abbrev pub number_of : Trouble → ℕ
number_of (bad_parameters e) = e
number_of not_authorized = ieauthtest
number_of (no_listener e) = e

-- A server in that trouble; `n` is the system's error number.
abbrev pub troubled : Trouble → ℕ → Exchange (List ℕ)
troubled t n = record {
  send_parameters = working;
  get_parameters = elim t [
    | bad_parameters e ↦ failing_with e
    | not_authorized ↦ working
    | no_listener e ↦ working
  ];
  is_authorized = elim t [
    | bad_parameters e ↦ working
    | not_authorized ↦ refusing
    | no_listener e ↦ working
  ];
  listen = elim t [
    | bad_parameters e ↦ working
    | not_authorized ↦ working
    | no_listener e ↦ failing_with e
  ];
  write_int = write_number;
  errno = λ w. n;
}

-- The client reads a byte, and what follows is there for its handler.
abbrev pub client_hears : List ℕ → Control → Bool × (Control × List ℕ)
client_hears [] c = (true, (c, []))
client_hears (b ∷ rest) c = handle_message_client (wire working) (message b) (c, rest)

-- Whatever goes wrong on a server with TLS that reads parameters, its exchange fails with that error, and a
-- client that hears what it wrote fails with the same error, in the state SERVER_ERROR, all of it read.
pub exchange_parameters_reported :
    (t : Trouble) (n : ℕ) (cs c : Control) (k : ℕ)
    → cs.ctrl_sck ≡ some k
    → let heard = exchange_parameters (wire working) (troubled t n) true server (cs, []) in
      (heard.0 ≡ false)
      × (heard.1.0.i_errno ≡ number_of t)
      × (client_hears heard.1.1 c
          ≡ (false, (record c { state = server_error; i_errno = number_of t }, [])))
unfolding exchange_parameters handle_message_client of_byte to_byte
exchange_parameters_reported (bad_parameters e) n cs c k h = ground arith
exchange_parameters_reported not_authorized n cs c k h = ground arith
exchange_parameters_reported (no_listener e) n cs c k h = ground arith
