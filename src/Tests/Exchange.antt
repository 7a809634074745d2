-- ===== src/Tests/Exchange.antt =====
-- The exchange of parameters and the roles, src/iperf_api.c, on a concrete test.
use iperf.Base.{ℕ, ◌∷◌, [], ◌≡◌, inl, refl, some, none, true, false, arith}
use iperf.Base.Int.{pos, negsuc}
use iperf.Json.{Object, number, build}
use iperf.Test.{client, server, sender, receiver, tcp, udp, TestSettings, Test, Build}
use iperf.Test.Roles.{directed, supports, IsConsistent}
use iperf.Test.Params.{no_credentials, send_parameters, parameters, get_parameters}
use iperf.Test.Params.Fields.{Fits, IsFresh, Agrees}
use iperf.Test.Params.Roundtrip.{get_parameters-send_parameters}

abbrev pub linux : Build
linux = record { has_tcpinfo_retransmits = true; have_mptcp = false; have_dont_fragment = true }

abbrev no_settings : TestSettings
no_settings = record {
  socket_bufsize = pos 0;
  blksize = pos 131072;
  rate = 0;
  fqrate = 0;
  pacing_timer = pos 1000;
  burst = pos 0;
  mss = pos 0;
  tos = pos 0;
  flowlabel = pos 0;
  bytes = 0;
  blocks = 0;
  dont_fragment = pos 0;
  authtoken = none;
  skip_rx_copy = pos 0;
}

abbrev server_test : Test
server_test = record {
  role = server;
  mode = receiver;
  sender_has_retransmits = false;
  protocol = tcp;
  protocols = tcp ∷ udp ∷ [];
  settings = no_settings;
  quic_port = pos 0;
  omit = pos 0;
  duration = pos 10;
  max_server_duration = pos 0;
  diskfile_name = none;
  server_affinity = negsuc 0;
  title = none;
  extra_data = none;
  congestion = none;
  congestion_used = none;
  no_delay = false;
  reverse = false;
  bidirectional = false;
  zerocopy = pos 0;
  get_server_output = false;
  udp_counters_64bit = false;
  repeating_payload = false;
  mptcp = false;
  num_streams = pos 1;
}

-- A reverse test over UDP with four streams.
abbrev client_test : Test
client_test = record server_test {
  role = client;
  mode = receiver;
  protocol = udp;
  settings = record no_settings { rate = 1000000; blksize = pos 1460; tos = pos 184 };
  duration = pos 30;
  omit = pos 2;
  reverse = true;
  udp_counters_64bit = true;
  num_streams = pos 4;
}

client_test-Fits : Fits client_test
client_test-Fits = ground arith

server_test-IsFresh : IsFresh server_test
server_test-IsFresh = ground arith

client_test-IsConsistent : IsConsistent client_test
unfolding directed
client_test-IsConsistent = ground arith

abbrev sent_object : Object
sent_object = build (parameters linux "3.19" none client_test)

sends_parameters : send_parameters linux "3.19" no_credentials true client_test ≡ inl sent_object
unfolding send_parameters
sends_parameters = refl

abbrev taken : Test
taken = (get_parameters linux (some sent_object) server_test).0

get_parameters-send_parameters_example :
    Agrees client_test taken × (taken.protocol ≡ udp) × (taken.mode ≡ sender)
unfolding supports
get_parameters-send_parameters_example =
    get_parameters-send_parameters linux "3.19" no_credentials true client_test server_test
      sent_object sends_parameters client_test-Fits server_test-IsFresh refl
      client_test-IsConsistent refl refl

-- A server that allows a minute, and a client that asks for two.
abbrev limited : Test
limited = record server_test { max_server_duration = pos 60 }

abbrev two_minutes_secs : ℕ
two_minutes_secs = 120

abbrev two_minutes : Object
two_minutes = ("time", number (pos two_minutes_secs)) ∷ []

abbrev very_long : Test
very_long = record limited { duration = pos 2147483647; omit = pos 60 }

abbrev patterned : Test
patterned = record server_test { repeating_payload = true }
