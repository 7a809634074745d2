-- ===== src/Options/Defaults.antt =====
-- src/iperf_api.c, `iperf_defaults`: the test that the options are read into, and what the options leave of it.
use iperf.Base.{true, false, none, List, [], ◌∷◌, if◌then◌else◌}
use iperf.Base.Int.{pos, negsuc}
use iperf.Test.{no_role, receiver, Protocol, tcp, udp, sctp, quic, TestSettings, Test}
use iperf.Test.Params.{try_protocol}
use iperf.Options.{Features, Parsing}

abbrev default_settings : TestSettings
default_settings = record {
  socket_bufsize = pos 0;
  blksize = pos 131072;
  rate = 0;
  fqrate = 0;
  pacing_timer = pos 1000;
  burst = pos 0;
  mss = pos 0;
  tos = pos 0;
  flowlabel = pos 0;
  bytes = 0;
  blocks = 0;
  dont_fragment = pos 0;
  authtoken = none;
  skip_rx_copy = pos 0;
}

-- What `iperf_new_test` zeroes is written out.
abbrev pub default_test : List Protocol → Test
default_test protocols = record {
  role = no_role;
  mode = receiver;
  sender_has_retransmits = false;
  protocol = tcp;
  protocols = protocols;
  settings = default_settings;
  quic_port = pos 0;
  omit = pos 0;
  duration = pos 10;
  max_server_duration = pos 0;
  diskfile_name = none;
  server_affinity = negsuc 0;
  title = none;
  extra_data = none;
  congestion = none;
  congestion_used = none;
  no_delay = false;
  reverse = false;
  bidirectional = false;
  zerocopy = pos 0;
  get_server_output = false;
  udp_counters_64bit = false;
  repeating_payload = false;
  mptcp = false;
  num_streams = pos 1;
}

abbrev pub default_protocols : Features → List Protocol
default_protocols f = if f.have_sctp then tcp ∷ udp ∷ quic ∷ sctp ∷ [] else tcp ∷ udp ∷ quic ∷ []

-- With the local variables as the loop over the options finds them.
unfoldable pub defaults : Features → Parsing
defaults f = record {
  test = try_protocol f.build true tcp (default_test (default_protocols f));
  port = pos 5201;
  bind_port = pos 0;
  num_ostreams = pos 0;
  idle_timeout = pos 0;
  rcv_timeout = record { secs = 120; usecs = 0 };
  snd_timeout = pos 0;
  connect_timeout = negsuc 0;
  affinity = negsuc 0;
  blksize = pos 0;
  server_flag = false;
  client_flag = false;
  rate_flag = false;
  duration_flag = false;
  rcv_timeout_flag = false;
}
