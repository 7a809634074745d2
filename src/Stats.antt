-- ===== src/Stats.antt =====
-- src/iperf_api.c, the statistics of an interval: `iperf_stats_callback` and `iperf_reset_stats`, with
-- src/tcp_info.c as it is built on linux. An int64_t and a long are words of 64 bits.
use iperf.Base.{ℕ, ◌*◌, Bool, Option, List}
use iperf.Base.Int.{ℤ}
use iperf.Time.{IperfTime}
pub mod Tcp
pub mod Callback
pub mod Sums
pub mod Intervals
pub mod Omit

-- The fields of `struct tcp_info` that are read.
pub record TcpInfo : Type 0 where
  pub tcpi_total_retrans : ℕ
  pub tcpi_snd_cwnd : ℕ
  pub tcpi_snd_mss : ℕ
  pub tcpi_snd_wnd : ℕ
  pub tcpi_rtt : ℕ
  pub tcpi_rttvar : ℕ
  pub tcpi_pmtu : ℕ
  pub tcpi_reord_seen : ℕ

-- `struct iperf_sctp_info`; a time of -1 is not known.
pub record SctpInfo : Type 0 where
  pub rtt : ℤ
  pub pmtu : ℤ
  pub wnd : ℤ
  pub cwnd : ℤ

-- A jitter is a double, which is only copied here.
module _ (Jitter : Type 0) where
  -- `struct iperf_interval_results`; `interval_time` is the duration before its conversion to seconds.
  pub record IntervalResults : Type 0 where
    pub bytes_transferred : ℕ
    pub interval_start_time : IperfTime
    pub interval_end_time : IperfTime
    pub interval_time : IperfTime
    pub interval_packet_count : ℕ
    pub interval_outoforder_packets : ℕ
    pub interval_cnt_error : ℕ
    pub packet_count : ℕ
    pub jitter : Jitter
    pub outoforder_packets : ℕ
    pub cnt_error : ℕ
    pub omitted : Bool
    pub interval_retrans : ℕ
    pub snd_cwnd : ℤ
    pub snd_wnd : ℤ
    pub rtt : ℤ
    pub rttvar : ℤ
    pub pmtu : ℤ
    pub reorder : ℤ

  -- `struct iperf_stream_result`
  pub record StreamResult : Type 0 where
    pub bytes_received : ℕ
    pub bytes_sent : ℕ
    pub bytes_received_this_interval : ℕ
    pub bytes_sent_this_interval : ℕ
    pub bytes_sent_omit : ℕ
    pub stream_prev_total_retrans : ℕ
    pub stream_retrans : ℕ
    pub stream_max_rtt : ℤ
    pub stream_min_rtt : ℤ
    pub stream_sum_rtt : ℤ
    pub stream_count_rtt : ℕ
    pub stream_max_snd_cwnd : ℤ
    pub stream_max_snd_wnd : ℤ
    pub stream_reorder : ℤ
    pub start_time : IperfTime
    pub end_time : IperfTime
    pub interval_results : List IntervalResults

  -- `struct iperf_stream`
  pub record Stream : Type 0 where
    pub sender : Bool
    pub packet_count : ℕ
    pub outoforder_packets : ℕ
    pub cnt_error : ℕ
    pub omitted_packet_count : ℕ
    pub omitted_outoforder_packets : ℕ
    pub omitted_cnt_error : ℕ
    pub jitter : Jitter
    pub result : StreamResult
