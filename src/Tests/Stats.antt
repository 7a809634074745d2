-- ===== src/Tests/Stats.antt =====
-- The statistics of src/iperf_api.c: a sender of UDP over two intervals.
use iperf.Base.{ℕ, ◌≡◌, refl, true, false, none, List, [], ◌∷◌, inr, u64, arith}
use iperf.Base.Int.{pos}
use iperf.Time.{IperfTime}
use iperf.Test.{udp}
use iperf.Stats.{TcpInfo, IntervalResults, Stream}
use iperf.Stats.Callback.{Round, Reading, reset_stats}
use iperf.Stats.Sums.{Reported, Action, move, count, tick, acts}
use iperf.Stats.Intervals.{IsAccounted, acts-IsAccounted}
use iperf.Stats.Omit.{reported_bytes, reset_stats-omits}

abbrev round : Round
round = record {
  protocol = udp;
  omitting = false;
  has_tcpinfo = true;
  sender_has_retransmits = false;
  have_snd_wnd = true;
  have_reord_seen = true;
}

abbrev at : ℕ → IperfTime
at n = record { secs = n; usecs = 0 }

abbrev no_info : TcpInfo
no_info = record {
  tcpi_total_retrans = 0;
  tcpi_snd_cwnd = 0;
  tcpi_snd_mss = 0;
  tcpi_snd_wnd = 0;
  tcpi_rtt = 0;
  tcpi_rttvar = 0;
  tcpi_pmtu = 0;
  tcpi_reord_seen = 0;
}

abbrev reading_at : ℕ → Reading
reading_at n = record { now = at n; tcp_info = no_info; sctp_info = none; meanwhile = 100 }

abbrev blank : IntervalResults ℕ
blank = record {
  bytes_transferred = 0;
  interval_start_time = at 0;
  interval_end_time = at 0;
  interval_time = at 0;
  interval_packet_count = 0;
  interval_outoforder_packets = 0;
  interval_cnt_error = 0;
  packet_count = 0;
  jitter = 0;
  outoforder_packets = 0;
  cnt_error = 0;
  omitted = false;
  interval_retrans = 0;
  snd_cwnd = pos 0;
  snd_wnd = pos 0;
  rtt = pos 0;
  rttvar = pos 0;
  pmtu = pos 0;
  reorder = pos 0;
}

abbrev new_stream : Stream ℕ
new_stream = record {
  sender = true;
  packet_count = 0;
  outoforder_packets = 0;
  cnt_error = 0;
  omitted_packet_count = 0;
  omitted_outoforder_packets = 0;
  omitted_cnt_error = 0;
  jitter = 0;
  result = record {
    bytes_received = 0;
    bytes_sent = 0;
    bytes_received_this_interval = 0;
    bytes_sent_this_interval = 0;
    bytes_sent_omit = 0;
    stream_prev_total_retrans = 0;
    stream_retrans = 0;
    stream_max_rtt = pos 0;
    stream_min_rtt = pos 0;
    stream_sum_rtt = pos 0;
    stream_count_rtt = 0;
    stream_max_snd_cwnd = pos 0;
    stream_max_snd_wnd = pos 0;
    stream_reorder = pos 0;
    start_time = at 10;
    end_time = at 0;
    interval_results = [];
  };
}

abbrev no_report : Reported
no_report = record {
  bytes = 0;
  lost = 0;
  packets = 0;
  errors = 0;
  outoforder = 0;
  retrans = 0;
  spans = [];
}

abbrev history : List (Action ℕ)
history =
    move 1460
    ∷ count 1 0 0
    ∷ tick (reading_at 11) blank
    ∷ move 2920
    ∷ count 3 0 0
    ∷ tick (reading_at 12) blank
    ∷ []

acts-IsAccounted_example : IsAccounted ℕ round (acts ℕ round history (new_stream, no_report))
acts-IsAccounted_example =
    acts-IsAccounted ℕ round history (new_stream, no_report)
      (record {
        bytes_agree = refl;
        packets_agree = inr (omega arith, omega arith);
        retrans_agree = inr refl;
        spans_agree = (refl, refl);
      })

reset_stats-omits_example :
    let start = reset_stats ℕ 0 false (reading_at 10) new_stream in
    (u64 (reported_bytes ℕ (acts ℕ round history (start, no_report)).0) ≡ u64 4580)
    × (start.result.stream_retrans ≡ 0)
    × (start.omitted_packet_count ≡ start.packet_count)
    × (start.omitted_cnt_error ≡ start.cnt_error)
reset_stats-omits_example =
    reset_stats-omits ℕ 0 false (reading_at 10) round history new_stream no_report (omega arith)
