-- ===== src/Tests/Options.antt =====
-- The options of the command line, src/iperf_api.c: clients of a reverse test over UDP.
use iperf.Base.{ℕ, ◌≡◌, refl, true, false, none, some, List, [], ◌∷◌, inl}
use iperf.Base.Int.{pos, negsuc, to_int}
use iperf.Test.{client, receiver, udp}
use iperf.Test.Roles.{set_test_role, set_test_reverse, set_protocol, supports}
use iperf.Tests.Exchange.{linux}
use iperf.Options.{
  Argument, Flag, connect, udp_flag, reverse_flag, len, parallel, nstreams, Features, Parsing,
}
use iperf.Options.Parse.{parse_option, parse_options}
use iperf.Options.Finish.{Outside, finish, parse_arguments}
use iperf.Options.Defaults.{defaults}
use iperf.Options.Ranges.{InRange, parse_arguments-InRange}

abbrev number_argument : ℕ → Argument
number_argument n = record {
  text = "8";
  int = pos n;
  is_number = true;
  qos = negsuc 0;
  units = some n;
  rate = some n;
  amount = some (pos n, false);
  behind_slash = none;
  behind_comma = none;
  setting_ok = true;
}

abbrev features : Features
features = record {
  build = linux;
  have_sctp = false;
  have_msquic = false;
  have_ostreams = true;
  have_flowlabel = true;
  have_sendfile = true;
  have_cpu_affinity = true;
  have_tcp_congestion = true;
  have_so_max_pacing_rate = true;
}

abbrev no_credentials : Outside
no_credentials = record {
  have_ssl = false;
  check_credentials = λ p. none;
  default_p12 = λ p. none;
  file_size = λ name. none;
}

-- iperf3 -R -u -c host -l 1400 -P 4
abbrev command_line : List (Flag × Argument)
command_line =
    (reverse_flag, number_argument 0)
    ∷ (udp_flag, number_argument 0)
    ∷ (connect, number_argument 0)
    ∷ (len, number_argument 1400)
    ∷ (parallel, number_argument 4)
    ∷ []

abbrev parsed : Parsing
parsed =
    let start = defaults features in
    record start {
      test = record start.test {
        role = client;
        mode = receiver;
        protocol = udp;
        reverse = true;
        num_streams = pos 4;
        sender_has_retransmits = false;
        settings = record start.test.settings { blksize = pos 1400; rate = 1048576 };
      };
      blksize = pos 1400;
      client_flag = true;
    }

parses : parse_arguments features no_credentials command_line (defaults features) ≡ inl parsed
unfolding parse_arguments defaults parse_options finish set_protocol supports set_test_reverse
    set_test_role to_int
parses = refl

parse_arguments-InRange_example : InRange parsed
parse_arguments-InRange_example =
    parse_arguments-InRange features no_credentials command_line parsed parses

-- --nstreams 8
abbrev eight : Parsing
eight =
    let start = defaults features in
    record start {
      num_ostreams = pos 8;
      test = record start.test { settings = record start.test.settings { rate = 8 } };
      rate_flag = true;
      client_flag = true;
    }

parses_nstreams : parse_option features nstreams (number_argument 8) (defaults features) ≡ inl eight
unfolding parse_option defaults to_int
parses_nstreams = refl
