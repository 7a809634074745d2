-- ===== src/Tests/Datagrams.antt =====
-- src/iperf_udp.c on concrete packets.
use iperf.Base.{ℕ, ◌+◌, ◌∷◌, [], ◌≡◌, refl, List, some, true, false, length, arith}
use iperf.Time.{IperfTime}
use iperf.State.{test_running}
use iperf.Net.{returned, bytes, got, wrote, Write, nwrite}
use iperf.Udp.{Double, Header, Settings, Stream, put_header, stamp, udp_send, udp_recv}
use iperf.Udp.Loss.{Distinct, count_all, highest, no_packets, count_all_exact}
use iperf.Udp.Send.{udp_recv-stamp}

abbrev sent_header : Header
sent_header = record { sent_time = record { secs = 70000; usecs = 1234 }; pcount = 5000000000 }

-- Packet 3 comes late and packet 4 not at all.
abbrev arrivals : List ℕ
arrivals = 1 ∷ 2 ∷ 5 ∷ 3 ∷ []

arrivals-Distinct : Distinct arrivals
arrivals-Distinct = ground arith

count_all_exact_example :
    ((count_all arrivals no_packets).packet_count ≡ highest 0 arrivals)
    × ((count_all arrivals no_packets).cnt_error + length arrivals ≡ highest 0 arrivals)
count_all_exact_example = count_all_exact arrivals arrivals-Distinct (omega arith)

-- Whole seconds in place of doubles.
abbrev seconds : Double
seconds = record {
  Carrier = ℕ;
  zero_double = 0;
  time_in_secs = λ t. t.secs;
  minus = λ a b. a;
  plus = λ a b. a + b;
  over_16 = λ a. a;
  negate = λ a. a;
  is_negative = λ a. false;
}

abbrev fresh_stream : Stream seconds
fresh_stream = record {
  buffer = 1 ∷ 2 ∷ 3 ∷ [];
  sequence = no_packets;
  jitter = 0;
  prev_transit = 0;
  bytes_received = 0;
  bytes_received_this_interval = 0;
  bytes_sent = 0;
  bytes_sent_this_interval = 0;
}

abbrev wide_settings : Settings
wide_settings = record { blksize = 16; skip_rx_copy = false; udp_counters_64bit = true }

abbrev at_five : IperfTime
at_five = record { secs = 5; usecs = 0 }

abbrev all_written : List Write
all_written = wrote 16 ∷ []

abbrev after_send : Stream seconds
after_send = record (stamp seconds wide_settings at_five fresh_stream) {
  bytes_sent = 16;
  bytes_sent_this_interval = 16;
}

-- What the kernel took: the time, 5 seconds, and packet number 1.
abbrev five_bytes : List ℕ
five_bytes = 0 ∷ 0 ∷ 0 ∷ 5 ∷ 0 ∷ 0 ∷ 0 ∷ 0 ∷ 0 ∷ 0 ∷ 0 ∷ 0 ∷ 0 ∷ 0 ∷ 0 ∷ 1 ∷ []

sends :
    udp_send seconds wide_settings at_five all_written fresh_stream
    ≡ some (bytes 16, after_send, five_bytes)
unfolding udp_send stamp put_header nwrite returned
sends = refl

udp_recv-stamp_example :
    (rp' : Stream seconds) × (udp_recv seconds wide_settings test_running at_five
        (got 16 (stamp seconds wide_settings at_five fresh_stream).buffer ∷ [])
        fresh_stream
      ≡ some (bytes 16, rp'))
    × (rp'.sequence ≡ record no_packets { packet_count = 1 })
udp_recv-stamp_example =
    udp_recv-stamp seconds wide_settings 15 at_five at_five fresh_stream fresh_stream refl refl refl
      (omega arith) (omega arith) (omega arith) (omega arith) refl
