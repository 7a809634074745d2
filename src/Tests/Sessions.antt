-- ===== src/Tests/Sessions.antt =====
-- A concrete session of a client and a server.
use iperf.Base.{◌≡◌, refl, Bool, true, false, some, none, [], ◌∷◌}
use iperf.State.{unset, param_exchange, server_error, iperf_start, to_byte, of_byte}
use iperf.Test.{sender, receiver, tcp, server}
use iperf.Control.{Control, ieauthtest}
use iperf.Control.Wire.{wire, working}
use iperf.Control.Client.{handle_message_client}
use iperf.Control.Exchange.{exchange_parameters}
use iperf.Control.Exchange.Report.{
  not_authorized, troubled, client_hears, exchange_parameters_reported,
}
use iperf.Control.Server.{iperf_accept}
use iperf.Control.Session.{Session, client_read, step, start, started}
use iperf.Control.Session.Phases.{Fresh, Reachable-succeeds}
use iperf.Control.Session.Finishing.{Ends, Reachable-Ends}

abbrev client_control : Control
client_control = record {
  state = unset;
  done = false;
  omitting = true;
  ctrl_sck = some 3;
  i_errno = 0;
  mode = sender;
  protocol = tcp;
  one_off = false;
  summary_printed = false;
  bytes = 0;
  blocks = 0;
  bytes_sent = 0;
  blocks_sent = 0;
  bytes_received = 0;
  blocks_received = 0;
}

abbrev server_control : Control
server_control = record client_control { ctrl_sck = none; mode = receiver; state = iperf_start }

abbrev busy_server : Control
busy_server = record server_control { ctrl_sck = some 4; state = param_exchange }

both-Fresh : Fresh 3 client_control server_control
unfolding to_byte
both-Fresh = record {
  client_unset = refl;
  has_connection = refl;
  is_free = refl;
  other_protocol = refl;
}

Reachable-Ends_example : Ends (start 4 client_control server_control)
Reachable-Ends_example =
    Reachable-Ends 3 4 client_control server_control (start 4 client_control server_control)
      both-Fresh started

abbrev first_read : Bool × Session
first_read = (
  true,
  record (start 4 client_control server_control) {
    client = record client_control { state = param_exchange };
    to_client = 10 ∷ [];
    to_server = [];
  },
)

reads_first : step client_read (start 4 client_control server_control) ≡ some first_read
unfolding step start handle_message_client iperf_accept exchange_parameters to_byte of_byte
reads_first = refl

Reachable-succeeds_example : true ≡ true
Reachable-succeeds_example =
    Reachable-succeeds 3 4 client_control server_control (start 4 client_control server_control)
      both-Fresh started client_read true (first_read.1) reads_first

exchange_parameters_reported_example :
    let heard =
      exchange_parameters
        (wire working)
        (troubled not_authorized 11)
        true
        server
        (busy_server, []) in
    (heard.0 ≡ false)
    × (heard.1.0.i_errno ≡ ieauthtest)
    × (client_hears heard.1.1 client_control
        ≡ (false, (record client_control { state = server_error; i_errno = ieauthtest }, [])))
exchange_parameters_reported_example =
    exchange_parameters_reported not_authorized 11 busy_server client_control 4 refl
