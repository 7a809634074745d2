-- ===== src/Tests/Results.antt =====
-- The exchange of results at concrete inputs: a client whose stream 1 sends and whose stream 3 receives.
use iperf.Base.{
  ℕ, ◌≡◌, refl, Bool, true, false, Option, none, some, List, [], ◌∷◌, ◌++◌, suc, zero, arith,
}
use iperf.Base.Int.{ℤ, to_int, pos, negsuc, ◌+ℤ◌}
use iperf.Test.{client, server, bidirectional_mode}
use iperf.Json.{get_object_item, build}
use iperf.Json.Framing.{pipe, json_write, json_read, json_read-json_write}
use iperf.Results.{Double, IperfStream, IperfTest, Message, number, array}
use iperf.Results.Report.{stream_object, bytes_transferred, send_results}
use iperf.Results.Receive.{get_results}
use iperf.Results.Lookup.{lookup}
use iperf.Results.Reading.{KeepsIntegers, Fits}
use iperf.Results.Roundtrip.{put_message, take_mail, Knows, get_results-send_results}
use iperf.Results.Exchange.{exchange_results}
use iperf.Results.Agreement.{write_to_server, wait_for_server, exchange_results_agree}
use iperf.Results.Refusing.{get_results-accepts}

abbrev opposite : ℤ → ℤ
opposite (pos zero) = pos zero
opposite (pos (suc n)) = negsuc n
opposite (negsuc n) = pos (suc n)

-- Whole numbers in place of doubles.
abbrev whole : Double
whole = record {
  Carrier = ℤ;
  of_int = λ z. z;
  value_int = λ z. z;
  plus = λ a b. a +ℤ b;
  minus = λ a b. a +ℤ opposite b;
  over_million = λ a. pos 0;
}

whole-KeepsIntegers : KeepsIntegers whole
whole-KeepsIntegers = record { value_int-of_int = λ z h. refl }

abbrev a_stream : ℤ → Bool → IperfStream whole
a_stream i sends = record {
  id = i;
  is_sender = sends;
  jitter = pos 4;
  cnt_error = pos 2;
  omitted_cnt_error = pos 1;
  packet_count = pos 50;
  omitted_packet_count = pos 5;
  peer_packet_count = pos 0;
  peer_omitted_packet_count = pos 0;
  bytes_sent = 5000;
  bytes_sent_omit = 500;
  bytes_received = 4300;
  stream_retrans = pos 7;
  start_time = record { secs = 10; usecs = 0 };
  end_time = record { secs = 15; usecs = 0 };
  sender_time = pos 0;
  receiver_time = pos 0;
}

abbrev a_test : List (IperfStream whole) → IperfTest whole
a_test sps = record {
  role = client;
  mode = bidirectional_mode;
  over_quic = false;
  i_errno = 0;
  sender_has_retransmits = pos 1;
  other_side_has_retransmits = negsuc 0;
  cpu_util = (pos 30, pos 10, pos 20);
  remote_cpu_util = (pos 0, pos 0, pos 0);
  congestion_used = some "cubic";
  remote_congestion_used = none;
  get_server_output = true;
  json_output = false;
  json_top = 0;
  server_output_list = "one\n" ∷ "two\n" ∷ [];
  server_output_text = none;
  json_server_output = none;
  streams = sps;
}

abbrev a_client : IperfTest whole
a_client = a_test (a_stream (pos 1) true ∷ a_stream (pos 3) false ∷ [])

abbrev a_server : IperfTest whole
a_server = record (a_test (a_stream (pos 1) false ∷ a_stream (pos 3) true ∷ [])) { role = server }

a_stream-Fits :
    (sends : Bool) → Fits whole (a_stream (pos 1) sends) × Fits whole (a_stream (pos 3) sends)
unfolding bytes_transferred
a_stream-Fits true = (
  record {
    id = omega arith;
    bytes = omega arith;
    errors = omega arith;
    omitted_errors = omega arith;
    packets = omega arith;
    omitted_packets = omega arith;
  },
  record {
    id = omega arith;
    bytes = omega arith;
    errors = omega arith;
    omitted_errors = omega arith;
    packets = omega arith;
    omitted_packets = omega arith;
  },
)
a_stream-Fits false = (
  record {
    id = omega arith;
    bytes = omega arith;
    errors = omega arith;
    omitted_errors = omega arith;
    packets = omega arith;
    omitted_packets = omega arith;
  },
  record {
    id = omega arith;
    bytes = omega arith;
    errors = omega arith;
    omitted_errors = omega arith;
    packets = omega arith;
    omitted_packets = omega arith;
  },
)

get_results-send_results_example :
    let (sent, (a', mail)) = send_results whole (put_message whole) (a_client, none) in
    let (stored, (b', mail')) = get_results whole (take_mail whole) (a_server, mail) in
    (sent ≡ true)
    × (stored ≡ true)
    × (b'.remote_cpu_util ≡ (pos 30, pos 10, pos 20))
    × ((known : IperfStream whole) × (lookup whole (pos 1) b'.streams ≡ some known)
        × Knows whole (pos 1) (a_stream (pos 1) true) known)
get_results-send_results_example =
    get_results-send_results whole whole-KeepsIntegers a_client a_server (omega arith)
      ((a_stream-Fits true).0, ((a_stream-Fits false).1, tt)) (refl, (refl, tt))
      ((a_stream (pos 1) false, refl), ((a_stream (pos 3) true, refl), tt)) (pos 1)
      (a_stream (pos 1) true) (a_stream (pos 1) false) refl refl refl

abbrev nothing_read : Option (Message whole) → Option (Message whole) × Option (Message whole)
nothing_read w = (w, none)

abbrev heads_only : Message whole
heads_only =
    ("cpu_util_total", number (pos 1))
    ∷ ("cpu_util_user", number (pos 1))
    ∷ ("cpu_util_system", number (pos 1))
    ∷ ("sender_has_retransmits", number (pos 1))
    ∷ ("streams", array ((("id", number (pos 1)) ∷ []) ∷ []))
    ∷ []

get_results-accepts_example : (get_results whole nothing_read (a_client, some heads_only)).0 ≡ false
unfolding get_object_item
get_results-accepts_example = get_results-accepts whole nothing_read a_client (some heads_only)

exchange_results_agree_example :
    (exchange_results whole
      (write_to_server whole)
      (wait_for_server whole)
      (a_client, (a_server, none))).0
    ≡ true
unfolding get_object_item build stream_object to_int exchange_results
exchange_results_agree_example = exchange_results_agree whole a_client a_server refl refl

abbrev text_of : ℕ → Option (List ℕ)
text_of n = some (123 ∷ n ∷ 125 ∷ [])

abbrev of_text : List ℕ → Option ℕ
of_text (c ∷ n ∷ cs) = some n
of_text _ = none

json_read-json_write_example :
    json_read pipe of_text 8192 ((json_write pipe text_of 65 []).1 ++ (1 ∷ [])) ≡ (some 65, 1 ∷ [])
json_read-json_write_example =
    json_read-json_write text_of of_text 65 (123 ∷ 65 ∷ 125 ∷ []) (1 ∷ []) 8192 refl refl
      (omega arith)
